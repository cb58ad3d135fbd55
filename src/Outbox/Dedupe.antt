-- ===== src/Outbox/Dedupe.antt =====
-- The dedupe keys of backend/src/services/email-outbox.service.ts.
use vedhicfoods.Prelude.{ℕ, ◌≡◌, refl, true, inl, inr, none, some, List, arith, Bool-cases, any_by}
use vedhicfoods.Outbox.Store.{OutboxEnqueueInput, OutboxRow, has_dedupe_key, enqueue, new_row}

-- After `enqueue` some row holds the key.
enqueue-holds :
    (id now : ℕ) (first : OutboxEnqueueInput) (key : ℕ) (rows : List OutboxRow)
    → first.dedupe_key ≡ some key
    → any_by (has_dedupe_key key) (enqueue id now first rows).1 ≡ true
unfolding enqueue
enqueue-holds id now first key rows e = elim (Bool-cases (any_by (has_dedupe_key key) rows)) [
  | inl held ↦ rw (enqueue, e, held) held
  | inr free ↦
      let own : has_dedupe_key key (new_row id now first) ≡ true =
        unfold has_dedupe_key new_row in rw e (ground arith) in
      rw (enqueue, e, free, own) refl
]

-- After `enqueue` was sent a dedupe key, whether or not it took its message, a second message under
-- the same key is dropped, and the table stays.
pub enqueue-enqueue :
    (id id' now now' : ℕ) (first second : OutboxEnqueueInput) (key : ℕ) (rows : List OutboxRow)
    → first.dedupe_key ≡ some key
    → second.dedupe_key ≡ some key
    → enqueue id' now' second (enqueue id now first rows).1 ≡ (none, (enqueue id now first rows).1)
unfolding enqueue
enqueue-enqueue id id' now now' first second key rows e e' =
    go (enqueue id now first rows).1 (enqueue-holds id now first key rows e)
  where
    go :
        (table : List OutboxRow)
        → any_by (has_dedupe_key key) table ≡ true
        → enqueue id' now' second table ≡ (none, table)
    go table held = rw (enqueue, e', held) refl
