-- ===== src/Outbox/Ticks.antt =====
-- What one pass of the worker of backend/src/services/email-outbox.service.ts does to one message.
use vedhicfoods.Prelude.{
  ℕ, zero, suc, ◌≡◌, sym, ap, ◌∙◌, Bool, true, inl, inr, Option, none, some, List, [], ◌∷◌, map,
  arith, All, Bool-cases, filter_by, take, ◌==◌, leb, if◌then◌else◌,
}
use vedhicfoods.Outbox.Store.{OutboxRow, is_due, insert_by_due, by_due, due_rows}

unfoldable pub find_row : ℕ → List OutboxRow → Option OutboxRow
find_row id [] = none
find_row id (r ∷ rs) = if r.id == id then some r else find_row id rs

-- The row is in the table, and no other row has its id.
abbrev pub IsRow : OutboxRow → List OutboxRow → Type 0
IsRow r rows = (find_row r.id rows ≡ some r) × All (λ (x : OutboxRow). x.id ≡ r.id → x ≡ r) rows

abbrev pub KeepsId : (OutboxRow → OutboxRow) → Type 0
KeepsId change = (r : OutboxRow) → (change r).id ≡ r.id

find_row-map :
    (change : OutboxRow → OutboxRow) (r : OutboxRow) (rows : List OutboxRow)
    → KeepsId change
    → find_row r.id rows ≡ some r
    → find_row (change r).id (map change rows) ≡ some (change r)
unfolding find_row
find_row-map change r [] keeps e = cc
find_row-map change r (x ∷ rows) keeps e =
    let still : ((change x).id == (change r).id) ≡ (x.id == r.id) = cc (keeps x, keeps r) in
    elim (Bool-cases (x.id == r.id)) [
      | inl hit ↦
          let same : x ≡ r = ground (arith, rw (find_row, hit) at e) in
          rw (find_row, still ∙ hit) (ap (λ y. some (change y)) same)
      | inr miss ↦
          rw (find_row, still ∙ miss) (find_row-map change r rows keeps (rw (find_row, miss) at e))
    ]

only-map :
    (change : OutboxRow → OutboxRow) (r : OutboxRow) (rows : List OutboxRow)
    → KeepsId change
    → All (λ (x : OutboxRow). x.id ≡ r.id → x ≡ r) rows
    → All (λ (x : OutboxRow). x.id ≡ (change r).id → x ≡ change r) (map change rows)
only-map change r [] keeps h = tt
only-map change r (x ∷ rows) keeps h =
    (λ e. ap change (h.0 (sym (keeps x) ∙ e ∙ keeps r)), only-map change r rows keeps h.1)

-- A change of all rows that keeps ids.
pub IsRow-map :
    (change : OutboxRow → OutboxRow) (r : OutboxRow) (rows : List OutboxRow)
    → KeepsId change
    → IsRow r rows
    → IsRow (change r) (map change rows)
IsRow-map change r rows keeps h =
    (find_row-map change r rows keeps h.0, only-map change r rows keeps h.1)

-- What holds of every row holds of every row that is claimed.
All-filter_by :
    (P : OutboxRow → Type 0) (test : OutboxRow → Bool) (rows : List OutboxRow)
    → All P rows
    → All (λ r. P r × (test r ≡ true)) (filter_by test rows)
All-filter_by P test [] h = tt
All-filter_by P test (r ∷ rows) h = elim (Bool-cases (test r)) [
  | inl hit ↦ rw hit ((h.0, hit), All-filter_by P test rows h.1)
  | inr miss ↦ rw miss (All-filter_by P test rows h.1)
]

All-insert_by_due :
    (P : OutboxRow → Type 0) (r : OutboxRow) (rows : List OutboxRow)
    → P r
    → All P rows
    → All P (insert_by_due r rows)
unfolding insert_by_due
All-insert_by_due P r [] p h = (p, tt)
All-insert_by_due P r (x ∷ rows) p h = elim (Bool-cases (leb r.next_attempt_at x.next_attempt_at)) [
  | inl first ↦ rw first (p, h)
  | inr later ↦ rw later (h.0, All-insert_by_due P r rows p h.1)
]

All-by_due : (P : OutboxRow → Type 0) (rows : List OutboxRow) → All P rows → All P (by_due rows)
unfolding by_due
All-by_due P [] h = tt
All-by_due P (r ∷ rows) h = All-insert_by_due P r (by_due rows) h.0 (All-by_due P rows h.1)

All-take :
    (P : OutboxRow → Type 0) (n : ℕ) (rows : List OutboxRow) → All P rows → All P (take n rows)
All-take P zero rows h = tt
All-take P (suc n) [] h = tt
All-take P (suc n) (r ∷ rows) h = (h.0, All-take P n rows h.1)

pub All-due_rows :
    (P : OutboxRow → Type 0) (now limit : ℕ) (rows : List OutboxRow)
    → All P rows
    → All (λ r. P r × (is_due now r ≡ true)) (due_rows now limit rows)
unfolding due_rows
All-due_rows P now limit rows h =
    All-take _ limit _ (All-by_due _ _ (All-filter_by P (is_due now) rows h))
