-- ===== src/Outbox/Termination.antt =====
-- Every message of backend/src/services/email-outbox.service.ts comes to an end: the worker hands it to
-- the transport at most as often as it has attempts left.
use vedhicfoods.Prelude.{
  ℕ, ◌+◌, ◌-◌, ◌<◌, ◌≤◌, ◌≡◌, refl, sym, ap, ◌∙◌, subst, true, false, inl, inr, List, [], ◌∷◌, map,
  arith, All, Bool-cases, contains, ◌==◌, ==_iff, if◌then◌else◌,
}
use vedhicfoods.Outbox.Store.{
  OutboxRow, is_pending, is_processing, is_abandoned, reclaim, reclaim_stale_locks, is_due,
  due_rows, ids, lock, claim_batch,
}
use vedhicfoods.Outbox.Worker.{Transport, run_once}
use vedhicfoods.Outbox.Ticks.{IsRow, KeepsId, IsRow-map, All-due_rows}
use vedhicfoods.Outbox.Attempts.{
  HasEnded, settled, settle_rows-IsRow, settled-other, Same, settled-HasEnded,
}

-- No worker is at the message, and if it waits, it has attempts left.
pub record IsSound (r : OutboxRow) : Type 0 where
  pub unlocked : is_processing r ≡ false
  pub attempts_left : is_pending r ≡ true → r.attempts < r.max_attempts

-- The attempts that a waiting message has left; one that was sent or has failed has none.
unfoldable pub remaining : OutboxRow → ℕ
remaining r = if is_pending r then r.max_attempts - r.attempts else 0

-- Whether a pass of the worker claimed the message.
abbrev pub claims : ℕ → List OutboxRow → ℕ
claims id claimed = if contains id (ids claimed) then 1 else 0

lock-KeepsId : (now : ℕ) (claimed : List ℕ) → KeepsId (lock now claimed)
unfolding lock
lock-KeepsId now claimed r = elim (Bool-cases (contains r.id claimed)) [
  | inl hit ↦ rw hit refl
  | inr miss ↦ rw miss refl
]

reclaim-KeepsId : (now : ℕ) → KeepsId (reclaim now)
unfolding reclaim
reclaim-KeepsId now r = elim (Bool-cases (is_abandoned now r)) [
  | inl hit ↦ rw hit refl
  | inr miss ↦ rw miss refl
]

reclaim_sound : (now : ℕ) (r : OutboxRow) → is_processing r ≡ false → reclaim now r ≡ r
unfolding reclaim is_abandoned
reclaim_sound now r h = rw (reclaim, is_abandoned, h) refl

-- Some claimed row has the id.
claimed-row :
    (Q : OutboxRow → Type 0) (id : ℕ) (cs : List OutboxRow)
    → contains id (ids cs) ≡ true
    → All Q cs
    → (c : OutboxRow) × (c.id ≡ id) × Q c
claimed-row Q id [] h q = cc
claimed-row Q id (c ∷ cs) h q = elim (Bool-cases (id == c.id)) [
  | inl own ↦ (c, sym ((==_iff id c.id).0 own), q.0)
  | inr other ↦ claimed-row Q id cs (rw other at h) q.1
]

All-Same :
    (r : OutboxRow) (now : ℕ) (cs : List OutboxRow)
    → All (λ c. (c.id ≡ r.id → c ≡ r) × (is_due now c ≡ true)) cs
    → (transport : Transport) (suppressed : List ℕ)
    → Same transport suppressed now r.id r.attempts r.max_attempts cs
All-Same r now [] h transport suppressed = tt
All-Same r now (c ∷ cs) h transport suppressed = (
  λ e. (
    ap (λ (x : OutboxRow). x.attempts) (h.0.0 e),
    ap (λ (x : OutboxRow). x.max_attempts) (h.0.0 e),
  ),
  All-Same r now cs h.1 transport suppressed,
)

-- A claimed message was waiting, and its lock counts the attempt.
locked-row :
    (now : ℕ) (claimed : List ℕ) (r : OutboxRow)
    → contains r.id claimed ≡ true
    → ((lock now claimed r).id ≡ r.id)
      × ((lock now claimed r).attempts ≡ r.attempts + 1)
      × ((lock now claimed r).max_attempts ≡ r.max_attempts)
unfolding lock
locked-row now claimed r h = rw (lock, h) (refl, refl, refl)

lock-other :
    (now : ℕ) (claimed : List ℕ) (r : OutboxRow)
    → contains r.id claimed ≡ false
    → lock now claimed r ≡ r
unfolding lock
lock-other now claimed r h = rw (lock, h) refl

due-pending : (now : ℕ) (r : OutboxRow) → is_due now r ≡ true → is_pending r ≡ true
unfolding is_due
due-pending now r h = elim (Bool-cases (is_pending r)) [
  | inl waits ↦ waits
  | inr other ↦ absurd (cc (rw (is_due, other) at h))
]

-- An attempt that has ended uses up one of those that were left.
ended-remaining :
    (r x : OutboxRow)
    → is_pending r ≡ true
    → IsSound r
    → HasEnded r.id r.attempts r.max_attempts x
    → IsSound x × (1 + remaining x ≤ remaining r)
unfolding remaining
ended-remaining r x waits sound ended =
    let left = sound.attempts_left waits in
    (
      record {
        unlocked = ended.unlocked;
        attempts_left = λ h. omega (arith, ended.attempts_left h, ended.counted, ended.same_max);
      },
      elim (Bool-cases (is_pending x)) [
        | inl again ↦
            rw (remaining, waits, again)
              (omega (arith, ended.attempts_left again, ended.counted, ended.same_max))
        | inr over ↦ rw (remaining, waits, over) (omega (arith, left))
      ],
    )

module _ (transport : Transport) (suppressed : List ℕ) (now batch_size : ℕ) where
  -- What a pass leaves of a message that no worker is at.
  pub run_once-remaining :
      (rows : List OutboxRow) (r : OutboxRow)
      → IsRow r rows
      → IsSound r
      → (r' : OutboxRow) × IsRow r' (run_once transport suppressed now batch_size rows).1
        × IsSound r'
        × (r'.id ≡ r.id)
        × (claims r.id (run_once transport suppressed now batch_size rows).0 + remaining r'
            ≤ remaining r)
  unfolding run_once claim_batch reclaim_stale_locks
  run_once-remaining rows r h sound =
      let reclaimed = map (reclaim now) rows in
      let here : IsRow r reclaimed =
        rw (reclaim_sound now r sound.unlocked) at
          (IsRow-map (reclaim now) r rows (reclaim-KeepsId now) h) in
      let claimed = due_rows now batch_size reclaimed in
      let marks = ids claimed in
      let locked = IsRow-map (lock now marks) r reclaimed (lock-KeepsId now marks) here in
      let end =
        settle_rows-IsRow transport suppressed now claimed (map (lock now marks) reclaimed)
          (lock now marks r) locked in
      let facts = All-due_rows (λ x. x.id ≡ r.id → x ≡ r) now batch_size reclaimed here.1 in
      elim (Bool-cases (contains r.id marks)) [
        | inl hit ↦
            let (c, own, (only, due)) = claimed-row _ r.id claimed hit facts in
            let waits : is_pending r ≡ true =
              due-pending now r (subst (λ x. is_due now x ≡ true) (only own) due) in
            let (i, a, b) = locked-row now marks r hit in
            let ended =
              settled-HasEnded transport suppressed now r.id r.attempts r.max_attempts claimed
                (lock now marks r) (All-Same r now claimed facts transport suppressed) i a b hit in
            let (sound', fewer) = ended-remaining r _ waits sound ended in
            (
              settled transport suppressed now claimed (lock now marks r),
              end,
              sound',
              ended.same_id,
              rw hit fewer,
            )
        | inr miss ↦
            let same : settled transport suppressed now claimed (lock now marks r) ≡ r =
              ap (settled transport suppressed now claimed) (lock-other now marks r miss)
              ∙ settled-other transport suppressed now claimed r miss in
            (r, rw same at end, sound, refl, rw miss (omega arith))
      ]

-- One pass of the worker, with its clock and what it finds.
pub record Tick : Type 0 where
  pub transport : Transport
  pub suppressed : List ℕ
  pub now : ℕ
  pub batch_size : ℕ

unfoldable pub pass : Tick → List OutboxRow → List OutboxRow × List OutboxRow
pass t = run_once t.transport t.suppressed t.now t.batch_size

unfoldable pub after_ticks : List Tick → List OutboxRow → List OutboxRow
after_ticks [] rows = rows
after_ticks (t ∷ ts) rows = after_ticks ts (pass t rows).1

-- The passes that claimed the message.
unfoldable pub claims_of : ℕ → List Tick → List OutboxRow → ℕ
claims_of id [] rows = 0
claims_of id (t ∷ ts) rows = claims id (pass t rows).0 + claims_of id ts (pass t rows).1

-- Through any sequence of passes of the worker, whatever the transport answers, a message that no
-- worker is at and that has attempts left if it waits is claimed at most as often as it has
-- attempts left; afterwards its row is again one that no worker is at and that has attempts left if
-- it waits, and the claims with the attempts left then are at most the attempts left before.
pub after_ticks-remaining :
    (ts : List Tick) (rows : List OutboxRow) (r : OutboxRow)
    → IsRow r rows
    → IsSound r
    → (r' : OutboxRow) × IsRow r' (after_ticks ts rows)
      × IsSound r'
      × (r'.id ≡ r.id)
      × (claims_of r.id ts rows + remaining r' ≤ remaining r)
unfolding after_ticks claims_of pass
after_ticks-remaining [] rows r h sound = (r, h, sound, refl, omega arith)
after_ticks-remaining (t ∷ ts) rows r h sound =
    let (r', h', sound', same, fewer) =
      run_once-remaining t.transport t.suppressed t.now t.batch_size rows r h sound in
    let (r'', h'', sound'', same', fewer') =
      after_ticks-remaining ts (pass t rows).1 r' h' sound' in
    let fewer'' = rw same at fewer' in
    (r'', h'', sound'', same' ∙ same, omega (arith, fewer, fewer''))
