-- ===== src/Outbox/Tests.antt =====
-- Two messages, a transport that is down, and the theorems on them.
use vedhicfoods.Prelude.{ℕ, ◌+◌, ◌≤◌, ◌≡◌, refl, true, false, none, some, List, [], ◌∷◌, arith, map}
use vedhicfoods.Outbox.Store.{
  new_row, has_dedupe_key, enqueue, is_abandoned, mark_failed, due_rows, insert_by_due,
  reclaim_stale_locks, claim_batch, mark_retry, by_due, mark_sent, is_due, lock, reclaim, write,
  backoff, OutboxRow, OutboxEnqueueInput, EmailOutboxStatus,
}
use vedhicfoods.Outbox.Worker.{
  settlement, run_once, after_error, settle_rows, is_any_recipient_suppressed, Transport, thrown,
}
use vedhicfoods.Outbox.Ticks.{find_row, IsRow}
use vedhicfoods.Outbox.Termination.{
  pass, IsSound, remaining, Tick, after_ticks, claims_of, after_ticks-remaining,
}

abbrev receipt : OutboxRow
receipt = record {
  id = 1;
  recipients = 11 ∷ [];
  attempts = 0;
  max_attempts = 3;
  status = EmailOutboxStatus.pending;
  next_attempt_at = 1_000;
  locked_at = none;
  dedupe_key = some 71;
}

abbrev invoice : OutboxRow
invoice = record receipt { id = 2; dedupe_key = none; next_attempt_at = 500 }

abbrev queue : List OutboxRow
queue = receipt ∷ invoice ∷ []

-- Every attempt fails in a way that may be retried.
abbrev down : Transport
down = record { is_simulating = false; deliver = λ r. thrown true; jitter = λ delay. 0 }

abbrev tick : ℕ → Tick
tick now = record { transport = down; suppressed = []; now = now; batch_size = 10 }

abbrev ticks : List Tick
ticks = tick 2_000 ∷ tick 60_000 ∷ tick 120_000 ∷ tick 180_000 ∷ []

-- Four passes claim the receipt three times, and then it has failed.
receipt_claims : claims_of 1 ticks queue ≡ 3
unfolding after_error after_ticks backoff by_due claim_batch claims_of due_rows find_row
    insert_by_due is_abandoned is_any_recipient_suppressed is_due lock mark_failed mark_retry
    mark_sent pass reclaim reclaim_stale_locks run_once settle_rows settlement write
receipt_claims = refl

receipt_status :
    map (λ (r : OutboxRow). r.status) (after_ticks ticks queue)
    ≡ EmailOutboxStatus.failed ∷ EmailOutboxStatus.failed ∷ []
unfolding after_error after_ticks backoff by_due claim_batch claims_of due_rows find_row
    insert_by_due is_abandoned is_any_recipient_suppressed is_due lock mark_failed mark_retry
    mark_sent pass reclaim reclaim_stale_locks run_once settle_rows settlement write
receipt_status = refl

receipt-IsRow : IsRow receipt queue
unfolding find_row
receipt-IsRow = (refl, (λ e. refl, (λ e. absurd (omega (arith, e)), tt)))

after_ticks-remaining_example :
    (r' : OutboxRow) × IsRow r' (after_ticks ticks queue)
    × IsSound r'
    × (r'.id ≡ 1)
    × (claims_of 1 ticks queue + remaining r' ≤ remaining receipt)
after_ticks-remaining_example =
    after_ticks-remaining ticks queue receipt receipt-IsRow
      (record { unlocked = refl; attempts_left = λ h. omega arith })

abbrev message : OutboxEnqueueInput
message = record { recipients = 11 ∷ []; max_attempts = none; dedupe_key = some 71 }

-- A second message under the key is dropped.
message_twice : (enqueue 3 2_000 message (enqueue 1 1_000 message []).1).0 ≡ none
unfolding enqueue has_dedupe_key new_row
message_twice = refl
