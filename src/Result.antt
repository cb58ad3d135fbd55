-- ===== src/Result.antt =====
-- backend/src/utils/errors.ts: the errors that the services throw, as values, and the chaining of
-- steps that may throw.
use vedhicfoods.Prelude.{◌≡◌, refl, ◌⊎◌, inl, inr, Bool, true, false}

-- `database` stands for what PostgreSQL itself raises on a row that a column type or a CHECK
-- refuses; the central handler answers it as an internal error.
pub data Error : Type 0 where
  bad_request unauthorized forbidden not_found conflict unavailable database : Error

pub data Result {ℓ} (A : Type ℓ) : Type ℓ where
  err : Error → Result A
  ok : A → Result A

-- A step that ends with a value.
abbrev pub Succeeds {ℓ} : {A : Type ℓ} → Result A → Type ℓ
Succeeds {A = A} r = (a : A) × (r ≡ ok a)

pub Succeeds-not_err {ℓ} : {A : Type ℓ} (r : Result A) → ((e : Error) → ¬ (r ≡ err e)) → Succeeds r
Succeeds-not_err (ok a) h = (a, refl)
Succeeds-not_err (err e) h = absurd (h e refl)

-- To split on how a step ends and keep the equation.
pub Result-cases {ℓ} :
    {A : Type ℓ} (r : Result A) → ((e : Error) × (r ≡ err e)) ⊎ ((a : A) × (r ≡ ok a))
Result-cases (err e) = inl (e, refl)
Result-cases (ok a) = inr (a, refl)

-- A thrown error leaves out every later step.
module _ {ℓ κ} {A : Type ℓ} {B : Type κ} where
  infixl 5 ◌>>=◌
  abbrev pub ◌>>=◌ : Result A → (A → Result B) → Result B
  err thrown >>= next = err thrown
  ok value >>= next = next value

  -- What a chain that ends with a value went through.
  pub >>=-eq-ok :
      (first : Result A) (next : A → Result B) {b : B}
      → (first >>= next) ≡ ok b
      → (a : A) × (first ≡ ok a) × (next a ≡ ok b)
  >>=-eq-ok (err thrown) next e = cc
  >>=-eq-ok (ok value) next e = (value, refl, e)

  pub Succeeds->>= :
      (first : Result A) (next : A → Result B)
      → Succeeds first
      → ((a : A) → first ≡ ok a → Succeeds (next a))
      → Succeeds (first >>= next)
  Succeeds->>= (err thrown) next (a, e) rest = cc
  Succeeds->>= (ok value) next done rest = rest value refl

infixl 5 ◌>>◌
abbrev pub ◌>>◌ {ℓ} : {A : Type ℓ} → Result (Unit {0}) → Result A → Result A
err thrown >> later = err thrown
ok done >> later = later

-- `if (!test) throw error`
abbrev pub require : Bool → Error → Result (Unit {0})
require test thrown = elim test [ false ↦ err thrown | true ↦ ok tt ]
