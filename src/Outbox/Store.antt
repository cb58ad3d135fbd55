-- ===== src/Outbox/Store.antt =====
-- backend/src/services/email-outbox.service.ts: `EmailOutboxService` on the table `email_outbox`. Times
-- and delays are milliseconds; ids, addresses and keys are only compared. The text of a message is
-- left out.
use vedhicfoods.Prelude.{
  ℕ, ◌+◌, ◌-◌, ◌*◌, ◌^◌, min, max, Bool, true, false, ◌&&◌, Option, none, some, List, [], ◌∷◌, map,
  filter_by, any_by, take, contains, ltb, leb, ◌==◌, if◌then◌else◌,
}
use vedhicfoods.Cart.Store.{same_key}

pub data EmailOutboxStatus : Type 0 where
  pending processing sent failed : EmailOutboxStatus

pub record OutboxRow : Type 0 where
  pub id : ℕ
  pub recipients : List ℕ
  pub attempts : ℕ
  pub max_attempts : ℕ
  pub status : EmailOutboxStatus
  pub next_attempt_at : ℕ
  pub locked_at : Option ℕ
  pub dedupe_key : Option ℕ

abbrev pub lock_stale_ms : ℕ
lock_stale_ms = 300_000

abbrev pub max_retry_delay_ms : ℕ
max_retry_delay_ms = 30_000

abbrev pub is_pending : OutboxRow → Bool
is_pending r = elim r.status [ EmailOutboxStatus.pending ↦ true | _ ↦ false ]

abbrev pub is_processing : OutboxRow → Bool
is_processing r = elim r.status [ EmailOutboxStatus.processing ↦ true | _ ↦ false ]

-- The unique column `dedupe_key`: a null collides with nothing.
unfoldable pub has_dedupe_key : ℕ → OutboxRow → Bool
has_dedupe_key key r = same_key r.dedupe_key (some key)

pub record OutboxEnqueueInput : Type 0 where
  pub recipients : List ℕ
  pub max_attempts : Option ℕ
  pub dedupe_key : Option ℕ

-- `input.maxAttempts ?? 3`
unfoldable pub max_attempts_of : Option ℕ → ℕ
max_attempts_of none = 3
max_attempts_of (some n) = n

-- The row that `create` writes at the time `now`, with the defaults of the table.
unfoldable pub new_row : ℕ → ℕ → OutboxEnqueueInput → OutboxRow
new_row id now input = record {
  id = id;
  recipients = input.recipients;
  attempts = 0;
  max_attempts = max_attempts_of input.max_attempts;
  status = EmailOutboxStatus.pending;
  next_attempt_at = now;
  locked_at = none;
  dedupe_key = input.dedupe_key;
}

-- `enqueue` with the id that the database would give: a key that is claimed already is answered with
-- null.
unfoldable pub enqueue : ℕ → ℕ → OutboxEnqueueInput → List OutboxRow → Option ℕ × List OutboxRow
enqueue id now input rows = elim input.dedupe_key [
  | none ↦ (some id, new_row id now input ∷ rows)
  | some key ↦
      if any_by (has_dedupe_key key) rows
      then (none, rows)
      else (some id, new_row id now input ∷ rows)
]

-- `status = 'PROCESSING' AND lockedAt < staleBefore`
unfoldable pub is_abandoned : ℕ → OutboxRow → Bool
is_abandoned now r =
    is_processing r && elim r.locked_at [ none ↦ false | some at ↦ ltb (at + lock_stale_ms) now ]

unfoldable pub reclaim : ℕ → OutboxRow → OutboxRow
reclaim now r =
    if is_abandoned now r
    then record r { status = EmailOutboxStatus.pending; locked_at = none }
    else r

-- `reclaimStaleLocks`
unfoldable pub reclaim_stale_locks : ℕ → List OutboxRow → List OutboxRow
reclaim_stale_locks now = map (reclaim now)

-- `status = 'PENDING' AND next_attempt_at <= now()`
unfoldable pub is_due : ℕ → OutboxRow → Bool
is_due now r = is_pending r && leb r.next_attempt_at now

-- `ORDER BY next_attempt_at ASC`
unfoldable pub insert_by_due : OutboxRow → List OutboxRow → List OutboxRow
insert_by_due r [] = r ∷ []
insert_by_due r (x ∷ xs) =
    if leb r.next_attempt_at x.next_attempt_at then r ∷ x ∷ xs else x ∷ insert_by_due r xs

unfoldable pub by_due : List OutboxRow → List OutboxRow
by_due [] = []
by_due (r ∷ rs) = insert_by_due r (by_due rs)

-- The rows that the claim selects, as they were.
unfoldable pub due_rows : ℕ → ℕ → List OutboxRow → List OutboxRow
due_rows now limit rows = take limit (by_due (filter_by (is_due now) rows))

abbrev pub ids : List OutboxRow → List ℕ
ids = map λ r. r.id

unfoldable pub lock : ℕ → List ℕ → OutboxRow → OutboxRow
lock now claimed r =
    if contains r.id claimed
    then record r {
      status = EmailOutboxStatus.processing;
      locked_at = some now;
      attempts = r.attempts + 1;
    }
    else r

-- `claimBatch`: the rows as they were, and the table with them locked.
unfoldable pub claim_batch : ℕ → ℕ → List OutboxRow → List OutboxRow × List OutboxRow
claim_batch now limit rows =
    let claimed = due_rows now limit rows in (claimed, map (lock now (ids claimed)) rows)

-- A write to the row with this id; ids are unique.
unfoldable pub write : ℕ → (OutboxRow → OutboxRow) → OutboxRow → OutboxRow
write id change r = if r.id == id then change r else r

-- The data of `markSent`, `markFailed` and `markRetry`.
unfoldable pub mark_sent : OutboxRow → OutboxRow
mark_sent r = record r { status = EmailOutboxStatus.sent; locked_at = none }

unfoldable pub mark_failed : OutboxRow → OutboxRow
mark_failed r = record r { status = EmailOutboxStatus.failed; locked_at = none; dedupe_key = none }

unfoldable pub mark_retry : ℕ → OutboxRow → OutboxRow
mark_retry at r = record r {
  status = EmailOutboxStatus.pending;
  locked_at = none;
  next_attempt_at = at;
}

-- `backoff`; `jitter` is the random share that is added to a delay.
unfoldable pub backoff : (ℕ → ℕ) → ℕ → ℕ
backoff jitter attempt =
    let delay = min (1_000 * 2 ^ max 0 (attempt - 1)) max_retry_delay_ms in delay + jitter delay
