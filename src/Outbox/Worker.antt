-- ===== src/Outbox/Worker.antt =====
-- backend/src/services/email-outbox.service.ts: `EmailOutboxWorker.runOnce`. The transport is an
-- argument: whether it simulates, and what an attempt to deliver a message ends with. `suppressed` is
-- the list of suppressed addresses, and `now` the clock of the tick.
use vedhicfoods.Prelude.{
  ℕ, ◌+◌, Bool, ◌||◌, not, List, [], ◌∷◌, map, any_by, contains, leb, if◌then◌else◌,
}
use vedhicfoods.Outbox.Store.{
  OutboxRow, reclaim_stale_locks, claim_batch, write, mark_sent, mark_failed, mark_retry, backoff,
}

-- `thrown` carries `isRetryableEmailError`.
pub data Delivery : Type 0 where
  delivered : Delivery
  thrown : Bool → Delivery

pub record Transport : Type 0 where
  pub is_simulating : Bool
  pub deliver : OutboxRow → Delivery
  pub jitter : ℕ → ℕ

-- `isAnyRecipientSuppressed`
unfoldable pub is_any_recipient_suppressed : List ℕ → List ℕ → Bool
is_any_recipient_suppressed suppressed recipients =
    any_by (λ address. contains address suppressed) recipients

-- The `catch` of the loop body.
unfoldable pub after_error : Transport → ℕ → Bool → OutboxRow → OutboxRow → OutboxRow
after_error transport now retryable row =
    if not retryable || leb row.max_attempts (row.attempts + 1)
    then mark_failed
    else mark_retry (now + backoff transport.jitter (row.attempts + 1))

-- The write of the loop body for a claimed row, as the row was before the claim.
unfoldable pub settlement : Transport → List ℕ → ℕ → OutboxRow → OutboxRow → OutboxRow
settlement transport suppressed now row =
    if transport.is_simulating
    then mark_sent
    else if is_any_recipient_suppressed suppressed row.recipients
    then mark_failed
    else elim (transport.deliver row) [
      | delivered ↦ mark_sent
      | thrown retryable ↦ after_error transport now retryable row
    ]

-- `for (const row of rows)`
unfoldable pub settle_rows :
    Transport → List ℕ → ℕ → List OutboxRow → List OutboxRow → List OutboxRow
settle_rows transport suppressed now [] rows = rows
settle_rows transport suppressed now (row ∷ claimed) rows =
    settle_rows transport suppressed now claimed
      (map (write row.id (settlement transport suppressed now row)) rows)

-- One pass of a worker that is not running already: the rows that it claimed, and the table.
unfoldable pub run_once :
    Transport → List ℕ → ℕ → ℕ → List OutboxRow → List OutboxRow × List OutboxRow
run_once transport suppressed now batch_size rows =
    let (claimed, locked) = claim_batch now batch_size (reclaim_stale_locks now rows) in
    (claimed, settle_rows transport suppressed now claimed locked)
