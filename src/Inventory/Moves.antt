-- ===== src/Inventory/Moves.antt =====
-- How a loop over order lines acts on the product table: an action of quantities on product rows,
-- lifted from one row to `findFirst`, to one line, and to all lines.
use vedhicfoods.Prelude.{
  ℕ, zero, suc, ◌+◌, ◌≡◌, refl, ap, inl, inr, ◌⊎◌, Bool, true, false, ◌&&◌, ◌||◌, not, Option, none,
  some, List, [], ◌∷◌, map, arith, ◌==◌, if◌then◌else◌, get_elem?, Bool-cases, subst,
}
use vedhicfoods.Prelude.Int.{pos_part}
use vedhicfoods.Result.{Result, ok, >>=-eq-ok}
use native.Mathlib.Nat.{add-zero}
use vedhicfoods.Inventory.State.{
  InventoryLog, Product, Inventory, Operation, Db, ReservationItem, has_key, with_product,
}
use vedhicfoods.Inventory.Rows.{Change}
use vedhicfoods.Inventory.Service.{Tx, MovedItem, move_row, move_item, record_log, for_items}

-- The identifying columns of the table.
abbrev pub keys : List Product → List (ℕ × ℕ)
keys = map λ p. (p.id, p.slug)

-- Whether the key finds the row at this position, the first that has it as id or slug.
unfoldable pub resolves : ℕ → ℕ → List (ℕ × ℕ) → Bool
resolves key i [] = false
resolves key zero ((a, b) ∷ ks) = a == key || b == key
resolves key (suc i) ((a, b) ∷ ks) = not (a == key || b == key) && resolves key i ks

-- The quantity that the lines ask of the row at this position.
unfoldable pub demand : List (ℕ × ℕ) → ℕ → List ReservationItem → ℕ
demand ks i [] = 0
demand ks i (item ∷ items) =
    (if resolves item.product i ks then pos_part item.quantity else 0) + demand ks i items

pub demand-nil : (ks : List (ℕ × ℕ)) (i : ℕ) → demand ks i [] ≡ 0
unfolding demand
demand-nil ks i = refl

pub demand-cons :
    (ks : List (ℕ × ℕ)) (i : ℕ) (item : ReservationItem) (items : List ReservationItem)
    → demand ks i (item ∷ items) ≡ demand ks i (item ∷ []) + demand ks i items
unfolding demand
demand-cons ks i item items = ground arith

record_log-products :
    (entry : Option (InventoryLog × MovedItem)) (db db' : Db) (a : Option MovedItem)
    → ◌≡◌ {A = Result (Option MovedItem × Db)} (ok (record_log entry db)) (ok (a, db'))
    → db'.products ≡ db.products
unfolding record_log
record_log-products none db db' a e = ground arith
record_log-products (some (log, moved)) db db' a e = ground arith

-- One row before and after, or no row in either table.
abbrev pub At : (ℕ → Product → Product → Type 0) → ℕ → Option Product → Option Product → Type 0
At R n none none = Unit
At R n (some p) (some q) = R n p q
At R n none (some q) = ⊥
At R n (some p) none = ⊥

-- Quantities act on rows: nothing moved leaves the row, and two moves in a row add up.
pub record IsAction (R : ℕ → Product → Product → Type 0) : Type 0 where
  pub idle : (p : Product) → R 0 p p
  pub twice : (m n : ℕ) (p q r : Product) → R m p q → R n q r → R (m + n) p r
  pub same_id : (n : ℕ) (p q : Product) → R n p q → p.id ≡ q.id
  pub same_slug : (n : ℕ) (p q : Product) → R n p q → p.slug ≡ q.slug

-- What a successful `with_product` found and wrote.
pub with_product_cases {ℓ} :
    {A : Type ℓ} (key : ℕ) (step : Product → Result (Product × A)) (p : Product)
    (ps qs : List Product) (a : A)
    → with_product key step (p ∷ ps) ≡ ok (qs, a)
    → ((has_key key p ≡ true) × ((q : Product) × (step p ≡ ok (q, a)) × (qs ≡ q ∷ ps)))
      ⊎ ((has_key key p ≡ false)
          × ((rest : List Product) × (with_product key step ps ≡ ok (rest, a)) × (qs ≡ p ∷ rest)))
unfolding with_product
with_product_cases key step p ps qs a e = elim (Bool-cases (has_key key p)) [
  | inl hit ↦
      let (r, found, written) = >>=-eq-ok (step p) (λ r. ok (r.0 ∷ ps, r.1)) (rw hit at e) in
      inl (hit, (r.0, ground arith, ground arith))
  | inr miss ↦
      let (r, found, written) =
        >>=-eq-ok (with_product key step ps) (λ r. ok (p ∷ r.0, r.1)) (rw miss at e) in
      inr (miss, (r.0, ground arith, ground arith))
]

module _ (R : ℕ → Product → Product → Type 0) where
  -- What a loop body has done to the whole table.
  abbrev pub Moves : (ℕ → ℕ) → List Product → List Product → Type 0
  Moves amount ps qs =
      (keys qs ≡ keys ps) × ((i : ℕ) → At R (amount i) (get_elem? ps i) (get_elem? qs i))

  -- The body of a loop moves, for each line, its quantity at the row that the line resolves to.
  abbrev pub MovesItem : (ReservationItem → Tx (Option MovedItem)) → Type 0
  MovesItem body =
      (item : ReservationItem) (db db' : Db) (a : Option MovedItem)
      → body item db ≡ ok (a, db')
      → Moves (λ i. demand (keys db.products) i (item ∷ [])) db.products db'.products

module _ (R : ℕ → Product → Product → Type 0) (act : IsAction R) where
  At-idle : (o : Option Product) → At R 0 o o
  At-idle none = tt
  At-idle (some p) = act.idle p

  At-twice :
      (m n : ℕ) (o o' o'' : Option Product) → At R m o o' → At R n o' o'' → At R (m + n) o o''
  At-twice m n none none none h k = tt
  At-twice m n (some p) (some q) (some r) h k = act.twice m n p q r h k
  At-twice m n none none (some r) h k = absurd k
  At-twice m n none (some q) o h k = absurd h
  At-twice m n (some p) none o h k = absurd h
  At-twice m n (some p) (some q) none h k = absurd k

  -- Nothing asked of any row: the table stays as it is.
  pub Moves-none :
      (amount : ℕ → ℕ) (ps qs : List Product)
      → qs ≡ ps
      → ((i : ℕ) → amount i ≡ 0)
      → Moves R amount ps qs
  Moves-none amount ps qs same nothing =
      rw same (refl, λ i. rw (nothing i) (At-idle (get_elem? ps i)))

  module _ {A : Type 0} (key n : ℕ) (step : Product → Result (Product × A))
      (row : (p q : Product) (a : A) → step p ≡ ok (q, a) → R n p q) where
    pub with_product-At :
        (ps qs : List Product) (a : A)
        → with_product key step ps ≡ ok (qs, a)
        → (i : ℕ)
        → At R (if resolves key i (keys ps) then n else 0) (get_elem? ps i) (get_elem? qs i)
    unfolding resolves
    with_product-At [] qs a e i = unfold with_product in cc
    with_product-At (p ∷ ps) qs a e zero = elim (with_product_cases key step p ps qs a e) [
      | inl (hit, (q, done, written)) ↦ rw (written, hit) (row p q a done)
      | inr (miss, (rest, done, written)) ↦ rw (written, miss) (act.idle p)
    ]
    with_product-At (p ∷ ps) qs a e (suc i) = elim (with_product_cases key step p ps qs a e) [
      | inl (hit, (q, done, written)) ↦ rw (written, hit) (At-idle (get_elem? ps i))
      | inr (miss, (rest, done, written)) ↦ rw (written, miss) (with_product-At ps rest a done i)
    ]

    pub with_product-keys :
        (ps qs : List Product) (a : A) → with_product key step ps ≡ ok (qs, a) → keys qs ≡ keys ps
    with_product-keys [] qs a e = unfold with_product in cc
    with_product-keys (p ∷ ps) qs a e = elim (with_product_cases key step p ps qs a e) [
      | inl (hit, (q, done, written)) ↦
          cc (act.same_id n p q (row p q a done), act.same_slug n p q (row p q a done))
      | inr (miss, (rest, done, written)) ↦ cc (with_product-keys ps rest a done)
    ]

  pub for_items-Moves :
      (body : ReservationItem → Tx (Option MovedItem))
      → MovesItem R body
      → (items : List ReservationItem) (db db' : Db) (moved : List MovedItem)
      → for_items body items db ≡ ok (moved, db')
      → Moves R (λ i. demand (keys db.products) i items) db.products db'.products
  unfolding for_items
  for_items-Moves body h [] db db' moved e =
      Moves-none _ db.products db'.products (ground arith) (λ i. unfold demand in refl)
  for_items-Moves body h (item ∷ items) db db' moved e =
      let (r, first, later) = >>=-eq-ok (body item db) _ e in
      let (rest, others, done) = >>=-eq-ok (for_items body items r.1) _ later in
      let end : rest.1 ≡ db' = ground arith in
      let (same, moves) = h item db r.1 r.0 first in
      let (same', moves') = for_items-Moves body h items r.1 rest.1 rest.0 others in
      (
        cc (ap (λ (d : Db). keys d.products) end),
        λ i.
            subst
              (λ (d : Db).
                At R (demand (keys db.products) i (item ∷ items)) (get_elem? db.products i)
                  (get_elem? d.products i))
              end
              (rw (demand-cons (keys db.products) i item items) (
                At-twice _ _ (get_elem? db.products i) (get_elem? r.1.products i)
                  (get_elem? rest.1.products i) (moves i) (rw same at (moves' i)))),
      )

  -- One line whose product is found has moved its quantity there.
  pub move_item-Moves :
      (op : Operation) (order : Option ℕ) (step : Inventory → Inventory → Result (Option Change))
      (item : ReservationItem)
      → ((p q : Product) (a : Option (InventoryLog × MovedItem))
          → move_row op order step p ≡ ok (q, a)
          → R (pos_part item.quantity) p q)
      → (db db' : Db) (a : Option MovedItem) → move_item op order step item.product db ≡ ok (a, db')
      → Moves R (λ i. demand (keys db.products) i (item ∷ [])) db.products db'.products
  unfolding move_item demand
  move_item-Moves op order step item row db db' a e =
      let (r, found, done) =
        >>=-eq-ok (with_product item.product (move_row op order step) db.products) _ e in
      let end : db'.products ≡ r.0 = record_log-products r.1 _ db' a done in
      rw end (
        with_product-keys item.product (pos_part item.quantity) _ row db.products r.0 r.1 found,
        λ i. rw add-zero (
            with_product-At item.product (pos_part item.quantity) _ row db.products r.0 r.1 found
              i),
      )
