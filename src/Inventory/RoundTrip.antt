-- ===== src/Inventory/RoundTrip.antt =====
-- What two methods do to an order's lines one after the other: reserving and giving back, reserving
-- and selling, and confirming twice.
use vedhicfoods.Prelude.{ℕ, ◌+◌, ◌≡◌, min, Option, none, some, List, arith, get_elem?}
use vedhicfoods.Result.{ok}
use vedhicfoods.Inventory.State.{Product, Db, ReservationItem}
use vedhicfoods.Inventory.Service.{MovedItem, reserve_stock, release_reservation, confirm_deduction}
use vedhicfoods.Inventory.Moves.{keys, demand, At, Moves}
use vedhicfoods.Inventory.Conservation.{
  on_hand, reserved, sold, Reserves, Releases, Confirms, reserve_stock-Reserves,
  release_reservation-Releases, confirm_deduction-Confirms,
}

-- The three quantities of a product, and that nothing else moved.
pub record SameLevels (n : ℕ) (p q : Product) : Type 0 where
  pub same_on_hand : on_hand q ≡ on_hand p
  pub same_reserved : reserved q ≡ reserved p
  pub same_sold : sold q ≡ sold p

pub record Sells (n : ℕ) (p q : Product) : Type 0 where
  pub taken : on_hand q + n ≡ on_hand p
  pub same_reserved : reserved q ≡ reserved p
  pub more_sold : sold q ≡ sold p + n

-- Two confirmations of `n` units sell up to `2 * n` of what is held.
pub record SellsTwice (n : ℕ) (p q : Product) : Type 0 where
  pub same_on_hand : on_hand q ≡ on_hand p
  pub more_sold : sold q ≡ sold p + min (reserved p) (n + n)

module _ (R S T : ℕ → Product → Product → Type 0)
    (both : (n : ℕ) (p q r : Product) → R n p q → S n q r → T n p r) where
  pub At-both : (n : ℕ) (o o' o'' : Option Product) → At R n o o' → At S n o' o'' → At T n o o''
  At-both n none none none h k = tt
  At-both n (some p) (some q) (some r) h k = both n p q r h k
  At-both n none none (some r) h k = absurd k
  At-both n none (some q) o h k = absurd h
  At-both n (some p) none o h k = absurd h
  At-both n (some p) (some q) none h k = absurd k

  pub Moves-both :
      (amount : List (ℕ × ℕ) → ℕ → ℕ) (ps qs rs : List Product)
      → Moves R (amount (keys ps)) ps qs
      → Moves S (amount (keys qs)) qs rs
      → (i : ℕ) → At T (amount (keys ps) i) (get_elem? ps i) (get_elem? rs i)
  Moves-both amount ps qs rs m m' i =
      At-both _ (get_elem? ps i) (get_elem? qs i) (get_elem? rs i) (m.1 i) (rw m.0 at (m'.1 i))

-- Releasing the lines that were just reserved restores all three quantities of every product.
pub release-reserve :
    (items : List ReservationItem) (order order' : Option ℕ) (db held back : Db)
    (moved moved' : List MovedItem)
    → reserve_stock items order db ≡ ok (moved, held)
    → release_reservation items order' held ≡ ok (moved', back)
    → (i : ℕ)
    → At SameLevels
        (demand (keys db.products) i items)
        (get_elem? db.products i)
        (get_elem? back.products i)
release-reserve items order order' db held back moved moved' e e' =
    Moves-both Reserves Releases SameLevels (λ n p q r h k. omega arith) (λ ks i. demand ks i items)
      db.products held.products back.products (reserve_stock-Reserves items order db held moved e)
      (release_reservation-Releases items order' held back moved' e')

-- Confirming the lines that were just reserved sells of every product exactly the quantity asked,
-- and leaves the reservations of other orders as they were.
pub confirm-reserve :
    (items : List ReservationItem) (order order' : Option ℕ) (db held done : Db)
    (moved moved' : List MovedItem)
    → reserve_stock items order db ≡ ok (moved, held)
    → confirm_deduction items order' held ≡ ok (moved', done)
    → (i : ℕ)
    → At Sells
        (demand (keys db.products) i items)
        (get_elem? db.products i)
        (get_elem? done.products i)
confirm-reserve items order order' db held done moved moved' e e' =
    Moves-both Reserves Confirms Sells (λ n p q r h k. omega arith) (λ ks i. demand ks i items)
      db.products held.products done.products (reserve_stock-Reserves items order db held moved e)
      (confirm_deduction-Confirms items order' held done moved' e')

-- A second `confirmDeduction` of the same lines sells again out of what is still held of each
-- product, whichever order holds it: it changes nothing only where the first drained the reserve.
pub confirm-confirm :
    (items : List ReservationItem) (order order' : Option ℕ) (db once again : Db)
    (moved moved' : List MovedItem)
    → confirm_deduction items order db ≡ ok (moved, once)
    → confirm_deduction items order' once ≡ ok (moved', again)
    → (i : ℕ)
    → At SellsTwice
        (demand (keys db.products) i items)
        (get_elem? db.products i)
        (get_elem? again.products i)
confirm-confirm items order order' db once again moved moved' e e' =
    Moves-both Confirms Confirms SellsTwice (λ n p q r h k. omega arith) (λ ks i. demand ks i items)
      db.products once.products again.products
      (confirm_deduction-Confirms items order db once moved e)
      (confirm_deduction-Confirms items order' once again moved' e')
