-- ===== src/Outbox/Attempts.antt =====
-- How often the worker of backend/src/services/email-outbox.service.ts hands a message to the
-- transport.
use vedhicfoods.Prelude.{
  ℕ, ◌+◌, ◌<◌, ◌≡◌, refl, sym, ◌∙◌, ◌⊎◌, Bool, true, false, ◌||◌, not, inl, inr, List, [], ◌∷◌,
  arith, All, Bool-cases, contains, ◌==◌, ==_iff, leb,
}
use vedhicfoods.Outbox.Store.{
  OutboxRow, is_pending, is_processing, ids, write, mark_sent, mark_failed, mark_retry,
}
use vedhicfoods.Outbox.Worker.{
  Transport, Delivery, thrown, delivered, is_any_recipient_suppressed, after_error, settlement,
  settle_rows,
}
use vedhicfoods.Outbox.Ticks.{IsRow, KeepsId, IsRow-map}

-- An attempt on a message that had been tried `n` times, of at most `m`, has ended: a message that
-- waits again has attempts left.
pub record HasEnded (id n m : ℕ) (x : OutboxRow) : Type 0 where
  pub same_id : x.id ≡ id
  pub counted : x.attempts ≡ n + 1
  pub same_max : x.max_attempts ≡ m
  pub unlocked : is_processing x ≡ false
  pub attempts_left : is_pending x ≡ true → n + 1 < m

Delivery-cases : (d : Delivery) → (d ≡ delivered) ⊎ ((b : Bool) × (d ≡ thrown b))
Delivery-cases delivered = inl refl
Delivery-cases (thrown b) = inr (b, refl)

module _ (transport : Transport) (suppressed : List ℕ) (now : ℕ) where
  settlement-HasEnded :
      (id n m : ℕ) (c x : OutboxRow)
      → c.attempts ≡ n
      → c.max_attempts ≡ m
      → x.id ≡ id
      → x.attempts ≡ n + 1
      → x.max_attempts ≡ m
      → HasEnded id n m (settlement transport suppressed now c x)
  unfolding settlement after_error mark_sent mark_failed mark_retry
  settlement-HasEnded id n m c x e e' i a b = elim (Bool-cases transport.is_simulating) [
    | inl simulated ↦
        rw (settlement, simulated)
          (record {
            same_id = i;
            counted = a;
            same_max = b;
            unlocked = refl;
            attempts_left = λ h. absurd (cc h);
          })
    | inr real ↦ elim (Bool-cases (is_any_recipient_suppressed suppressed c.recipients)) [
      | inl stopped ↦
          rw (settlement, real, stopped)
            (record {
              same_id = i;
              counted = a;
              same_max = b;
              unlocked = refl;
              attempts_left = λ h. absurd (cc h);
            })
      | inr allowed ↦ elim (Delivery-cases (transport.deliver c)) [
        | inl sent ↦
            rw (settlement, real, allowed, sent)
              (record {
                same_id = i;
                counted = a;
                same_max = b;
                unlocked = refl;
                attempts_left = λ h. absurd (cc h);
              })
        | inr (retryable, refused) ↦
            elim (Bool-cases (not retryable || leb c.max_attempts (c.attempts + 1))) [
              | inl last ↦
                  rw (settlement, real, allowed, refused, after_error, last)
                    (record {
                      same_id = i;
                      counted = a;
                      same_max = b;
                      unlocked = refl;
                      attempts_left = λ h. absurd (cc h);
                    })
              | inr again ↦
                  rw (settlement, real, allowed, refused, after_error, again)
                    (record {
                      same_id = i;
                      counted = a;
                      same_max = b;
                      unlocked = refl;
                      attempts_left = λ h. ground (arith, again, e, e');
                    })
            ]
      ]
    ]
  ]

  settlement-KeepsId : (c : OutboxRow) → KeepsId (settlement transport suppressed now c)
  unfolding settlement after_error mark_sent mark_failed mark_retry
  settlement-KeepsId c r = ground arith

  -- What the loop makes of one row.
  pub settled : List OutboxRow → OutboxRow → OutboxRow
  settled [] r = r
  settled (c ∷ cs) r = settled cs (write c.id (settlement transport suppressed now c) r)

  write-KeepsId : (c : OutboxRow) → KeepsId (write c.id (settlement transport suppressed now c))
  unfolding write
  write-KeepsId c r = elim (Bool-cases (r.id == c.id)) [
    | inl own ↦ rw own (settlement-KeepsId c r)
    | inr other ↦ rw other refl
  ]

  pub settle_rows-IsRow :
      (cs rows : List OutboxRow) (r : OutboxRow)
      → IsRow r rows
      → IsRow (settled cs r) (settle_rows transport suppressed now cs rows)
  unfolding settle_rows settled
  settle_rows-IsRow [] rows r h = h
  settle_rows-IsRow (c ∷ cs) rows r h =
      settle_rows-IsRow cs _ _
        (IsRow-map (write c.id (settlement transport suppressed now c)) r rows (write-KeepsId c) h)

  -- A row that was not claimed is not written.
  pub settled-other :
      (cs : List OutboxRow) (r : OutboxRow) → contains r.id (ids cs) ≡ false → settled cs r ≡ r
  unfolding settled write
  settled-other [] r h = refl
  settled-other (c ∷ cs) r h = elim (Bool-cases (r.id == c.id)) [
    | inl own ↦ absurd (ground (arith, own, h))
    | inr other ↦ rw (settled, write, other) (settled-other cs r (rw other at h))
  ]

  -- The rows that are claimed with this id are all the same message.
  abbrev pub Same : ℕ → ℕ → ℕ → List OutboxRow → Type 0
  Same id n m cs = All (λ (c : OutboxRow). c.id ≡ id → (c.attempts ≡ n) × (c.max_attempts ≡ m)) cs

  settled-kept :
      (id n m : ℕ) (cs : List OutboxRow) (x : OutboxRow)
      → Same id n m cs
      → HasEnded id n m x
      → HasEnded id n m (settled cs x)
  unfolding settled write
  settled-kept id n m [] x same h = h
  settled-kept id n m (c ∷ cs) x same h = elim (Bool-cases (x.id == c.id)) [
    | inr other ↦ rw (settled, write, other) (settled-kept id n m cs x same.1 h)
    | inl own ↦
        let mine : c.id ≡ id = sym ((==_iff x.id c.id).0 own) ∙ h.same_id in
        rw (settled, write, own)
          (settled-kept id n m cs (settlement transport suppressed now c x) same.1 (
            settlement-HasEnded id n m c x (same.0 mine).0 (same.0 mine).1 h.same_id h.counted
              h.same_max))
  ]

  -- A row that was claimed has ended its attempt.
  pub settled-HasEnded :
      (id n m : ℕ) (cs : List OutboxRow) (x : OutboxRow)
      → Same id n m cs
      → x.id ≡ id
      → x.attempts ≡ n + 1
      → x.max_attempts ≡ m
      → contains id (ids cs) ≡ true
      → HasEnded id n m (settled cs x)
  unfolding settled write
  settled-HasEnded id n m [] x same i a b h = cc
  settled-HasEnded id n m (c ∷ cs) x same i a b h = elim (Bool-cases (x.id == c.id)) [
    | inl own ↦
        let mine : c.id ≡ id = sym ((==_iff x.id c.id).0 own) ∙ i in
        rw (settled, write, own)
          (settled-kept id n m cs (settlement transport suppressed now c x) same.1
            (settlement-HasEnded id n m c x (same.0 mine).0 (same.0 mine).1 i a b))
    | inr other ↦
        rw (settled, write, other)
          (settled-HasEnded id n m cs x same.1 i a b (ground (arith, h, other, i)))
  ]
