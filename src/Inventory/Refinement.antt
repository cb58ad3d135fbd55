-- ===== src/Inventory/Refinement.antt =====
-- Any sequence of calls of the four methods of backend/src/services/inventory.service.ts that work on
-- order lines is, product by product, a sequence of entries of the ledger.
use vedhicfoods.Prelude.{
  ℕ, ◌-◌, ◌≡◌, refl, ap, Bool, true, false, not, inl, inr, Option, none, some, List, [], ◌∷◌, arith,
  get_elem?, Bool-cases, leb, if◌then◌else◌,
}
use vedhicfoods.Result.{ok, err, Result-cases}
use vedhicfoods.Inventory.State.{Product, Db, ReservationItem}
use vedhicfoods.Inventory.Service.{
  Tx, MovedItem, reserve_stock, release_reservation, confirm_deduction, restock_order,
  already_restocked,
}
use vedhicfoods.Inventory.Moves.{keys, demand, Moves, At}
use vedhicfoods.Inventory.Conservation.{
  on_hand, reserved, sold, Reserves, Releases, Confirms, Restocks, reserve_stock-Reserves,
  release_reservation-Releases, confirm_deduction-Confirms, restock_order-Restocks,
  restock_order-again,
}
use vedhicfoods.Inventory.Upkeep.{after}
use vedhicfoods.Inventory.Ledger.{Levels, Move, apply_move, apply_moves}

-- What the ledger keeps of a row.
unfoldable pub levels_of : Product → Levels
levels_of p = record { on_hand = on_hand p; reserved = reserved p; sold = sold p }

-- A call of one of the methods.
pub record LineCall : Type 0 where
  pub move : Move
  pub items : List ReservationItem
  pub order : Option ℕ

unfoldable pub perform : LineCall → Tx (List MovedItem)
perform c = elim c.move [
  | Move.reserve ↦ reserve_stock c.items c.order
  | Move.release ↦ release_reservation c.items c.order
  | Move.confirm ↦ confirm_deduction c.items c.order
  | Move.restock ↦ restock_order c.items c.order
]

-- Each call in a transaction of its own.
unfoldable pub perform_all : List LineCall → Db → Db
perform_all [] db = db
perform_all (c ∷ cs) db = perform_all cs (after db (perform c db))

-- Whether the call counts: it has not failed, and is no second restock of an order.
unfoldable pub counts : LineCall → Db → Bool
counts c db = elim (perform c db) [
  | err e ↦ false
  | ok r ↦ elim c.move [ Move.restock ↦ not (already_restocked c.order db) | _ ↦ true ]
]

-- The entries that the calls make for the row at a position.
unfoldable pub entries : List (ℕ × ℕ) → ℕ → List LineCall → Db → List (Move × ℕ)
entries ks i [] db = []
entries ks i (c ∷ cs) db =
    let rest = entries ks i cs (after db (perform c db)) in
    if counts c db then (c.move, demand ks i c.items) ∷ rest else rest

abbrev pub Obeys : Move → ℕ → Product → Product → Type 0
Obeys move n p q = apply_move move n (levels_of p) ≡ some (levels_of q)

Reserves-Obeys : (n : ℕ) (p q : Product) → Reserves n p q → Obeys Move.reserve n p q
unfolding apply_move levels_of
Reserves-Obeys n p q h =
    let enough : leb n (on_hand p) ≡ true = ground (arith, h.taken) in
    let left : on_hand q ≡ on_hand p - n = omega (arith, h.taken) in
    rw (enough, left, h.held, h.same_sold) refl

Releases-Obeys : (n : ℕ) (p q : Product) → Releases n p q → Obeys Move.release n p q
unfolding apply_move levels_of
Releases-Obeys n p q h = rw (h.back, h.held, h.same_sold) refl

Confirms-Obeys : (n : ℕ) (p q : Product) → Confirms n p q → Obeys Move.confirm n p q
unfolding apply_move levels_of
Confirms-Obeys n p q h = rw (h.same_on_hand, h.held, h.more_sold) refl

Restocks-Obeys : (n : ℕ) (p q : Product) → Restocks n p q → Obeys Move.restock n p q
unfolding apply_move levels_of
Restocks-Obeys n p q h = rw (h.back, h.same_reserved, h.less_sold) refl

-- A relation on rows that implies another, at every row.
Moves-map :
    (R S : ℕ → Product → Product → Type 0)
    → ((n : ℕ) (p q : Product) → R n p q → S n p q)
    → (amount : ℕ → ℕ) (ps qs : List Product) → Moves R amount ps qs
    → Moves S amount ps qs
Moves-map R S f amount ps qs m = (m.0, λ i. go (amount i) (get_elem? ps i) (get_elem? qs i) (m.1 i))
  where
    go : (n : ℕ) (o o' : Option Product) → At R n o o' → At S n o o'
    go n none none h = tt
    go n (some p) (some q) h = f n p q h
    go n none (some q) h = absurd h
    go n (some p) none h = absurd h

-- A call that counts makes its entry at every row.
counted-Moves :
    (move : Move) (items : List ReservationItem) (order : Option ℕ) (db : Db)
    (r : List MovedItem × Db)
    → perform (record { move = move; items = items; order = order }) db ≡ ok r
    → counts (record { move = move; items = items; order = order }) db ≡ true
    → Moves (Obeys move) (λ i. demand (keys db.products) i items) db.products r.1.products
unfolding perform counts
counted-Moves Move.reserve items order db r e h =
    Moves-map Reserves (Obeys Move.reserve) Reserves-Obeys _ db.products r.1.products
      (reserve_stock-Reserves items order db r.1 r.0 e)
counted-Moves Move.release items order db r e h =
    Moves-map Releases (Obeys Move.release) Releases-Obeys _ db.products r.1.products
      (release_reservation-Releases items order db r.1 r.0 e)
counted-Moves Move.confirm items order db r e h =
    Moves-map Confirms (Obeys Move.confirm) Confirms-Obeys _ db.products r.1.products
      (confirm_deduction-Confirms items order db r.1 r.0 e)
counted-Moves Move.restock items order db r e h =
    let first : already_restocked order db ≡ false = ground (arith, rw (counts, e) at h) in
    Moves-map Restocks (Obeys Move.restock) Restocks-Obeys _ db.products r.1.products
      (restock_order-Restocks items order db r.1 r.0 first e)

-- Without a failure, only a second restock counts for nothing.
unmoved :
    (move : Move) (items : List ReservationItem) (order : Option ℕ) (db : Db)
    (r : List MovedItem × Db)
    → perform (record { move = move; items = items; order = order }) db ≡ ok r
    → counts (record { move = move; items = items; order = order }) db ≡ false
    → r.1.products ≡ db.products
unfolding perform counts
unmoved Move.reserve items order db r e h = absurd (cc (rw (counts, e) at h))
unmoved Move.release items order db r e h = absurd (cc (rw (counts, e) at h))
unmoved Move.confirm items order db r e h = absurd (cc (rw (counts, e) at h))
unmoved Move.restock items order db r e h =
    let again : already_restocked order db ≡ true = ground (arith, rw (counts, e) at h) in
    restock_order-again items order db r.1 r.0 again e

-- Any other call leaves the products alone.
uncounted-products :
    (move : Move) (items : List ReservationItem) (order : Option ℕ) (db : Db)
    → counts (record { move = move; items = items; order = order }) db ≡ false
    → (after db (perform (record { move = move; items = items; order = order }) db)).products
      ≡ db.products
unfolding perform counts
uncounted-products move items order db h =
    elim (Result-cases (perform (record { move = move; items = items; order = order }) db)) [
      | inl (thrown, refused) ↦ rw refused refl
      | inr (r, done) ↦ rw done (unmoved move items order db r done h)
    ]

-- A call that counts has succeeded.
counts-ok :
    (c : LineCall) (db : Db)
    → counts c db ≡ true
    → (r : List MovedItem × Db) × (perform c db ≡ ok r)
unfolding counts
counts-ok c db h = elim (Result-cases (perform c db)) [
  | inl (thrown, refused) ↦ absurd (cc (rw (counts, refused) at h))
  | inr done ↦ done
]

At-some :
    (R : ℕ → Product → Product → Type 0) (n : ℕ) (p : Product) (o : Option Product)
    → At R n (some p) o
    → (q : Product) × (o ≡ some q) × R n p q
At-some R n p none h = absurd h
At-some R n p (some q) h = (q, refl, h)

row_of :
    (c : LineCall) (db : Db) (i : ℕ) (p : Product) (r : List MovedItem × Db)
    → get_elem? db.products i ≡ some p
    → Moves (Obeys c.move) (λ i. demand (keys db.products) i c.items) db.products r.1.products
    → (q : Product) × (get_elem? r.1.products i ≡ some q)
      × (keys r.1.products ≡ keys db.products)
      × (apply_move c.move (demand (keys db.products) i c.items) (levels_of p) ≡ some (levels_of q))
row_of c db i p r here (same, moves) =
    let (q, found, obeys) =
      At-some (Obeys c.move) _ p (get_elem? r.1.products i) (rw here at (moves i)) in
    (q, found, same, obeys)

-- The row after a call that counts.
counted-row :
    (c : LineCall) (db : Db) (i : ℕ) (p : Product)
    → get_elem? db.products i ≡ some p
    → counts c db ≡ true
    → (q : Product) × (get_elem? (after db (perform c db)).products i ≡ some q)
      × (keys (after db (perform c db)).products ≡ keys db.products)
      × (apply_move c.move (demand (keys db.products) i c.items) (levels_of p) ≡ some (levels_of q))
counted-row c db i p here counted =
    let (r, done) = counts-ok c db counted in
    rw done (row_of c db i p r here (counted-Moves c.move c.items c.order db r done counted))

-- Any sequence of calls of `reserveStock`, `releaseReservation`, `confirmDeduction` and
-- `restockOrder`, failed calls rolled back, takes every product's three numbers to what the ledger
-- makes of them with one entry per call that neither failed nor restocked an order again, for the
-- quantity that the call's lines ask of the product; the ledger refuses none of these entries.
pub perform_all-apply_moves :
    (cs : List LineCall) (db : Db) (i : ℕ) (p : Product)
    → get_elem? db.products i ≡ some p
    → (q : Product) × (get_elem? (perform_all cs db).products i ≡ some q)
      × (apply_moves (entries (keys db.products) i cs db) (levels_of p) ≡ some (levels_of q))
unfolding perform_all entries apply_moves
perform_all-apply_moves [] db i p here = (p, here, refl)
perform_all-apply_moves (c ∷ cs) db i p here = elim (Bool-cases (counts c db)) [
  | inl counted ↦
      let (q, found, same, obeys) = counted-row c db i p here counted in
      let (z, found', rest) = perform_all-apply_moves cs (after db (perform c db)) i q found in
      (z, found', rw (entries, counted, apply_moves, obeys) (rw same at rest))
  | inr skipped ↦
      let same = uncounted-products c.move c.items c.order db skipped in
      let (z, found', rest) =
        perform_all-apply_moves cs (after db (perform c db)) i p (rw same here) in
      (z, found', rw (entries, skipped) (rw (ap keys same) at rest))
]
