-- ===== src/Addresses/Defaults.antt =====
-- What the changes of backend/src/services/address.service.ts do to the default address of a customer.
use vedhicfoods.Prelude.{
  ℕ, ◌≡◌, ◌≢◌, inl, inr, refl, sym, ap, ◌∙◌, Bool, true, false, ◌&&◌, not, Option, none, some, List,
  [], ◌∷◌, map, leb, arith, All, subst, Bool-cases, Option-cases, ◌==◌, ==_iff,
}
use vedhicfoods.Addresses.Book.{
  AddressRow, is_active_of, with_default, demote, demote_others, write_address, find_address,
  write_update, newer, newest_other, deleted, promote, write_default,
}

-- The default address that the checkout offers to a customer.
unfoldable pub is_default_of : ℕ → AddressRow → Bool
is_default_of user r = is_active_of user r && r.is_default

-- Every default address of the customer has this id.
abbrev pub OnlyDefault : ℕ → ℕ → List AddressRow → Type 0
OnlyDefault user k = All λ (r : AddressRow). is_default_of user r ≡ true → r.id ≡ k

abbrev pub AreOwned : (ℕ → ℕ) → List AddressRow → Type 0
AreOwned owner = All λ (r : AddressRow). r.user ≡ owner r.id

-- Each id belongs to one customer, and each customer has at most one default address.
pub record IsOrderly (owner : ℕ → ℕ) (rows : List AddressRow) : Type 0 where
  pub owned : AreOwned owner rows
  pub single : (user : ℕ) → (k : ℕ) × OnlyDefault user k rows

All-weaken :
    (P Q : AddressRow → Type 0)
    → ((r : AddressRow) → P r → Q r)
    → (rows : List AddressRow) → All P rows
    → All Q rows
All-weaken P Q f [] h = tt
All-weaken P Q f (r ∷ rows) h = (f r h.0, All-weaken P Q f rows h.1)

-- A fact on rows, through a map.
All-map :
    (P Q : AddressRow → Type 0) (f : AddressRow → AddressRow)
    → ((r : AddressRow) → P r → Q (f r))
    → (rows : List AddressRow) → All P rows
    → All Q (map f rows)
All-map P Q f h [] a = tt
All-map P Q f h (r ∷ rows) a = (h r a.0, All-map P Q f h rows a.1)

All-both :
    (P Q : AddressRow → Type 0) (rows : List AddressRow)
    → All P rows
    → All Q rows
    → All (λ r. P r × Q r) rows
All-both P Q [] a b = tt
All-both P Q (r ∷ rows) a b = ((a.0, b.0), All-both P Q rows a.1 b.1)

-- The effect of the writes on one row, for a customer who does not own the id, and for the one who does.
other_promoted :
    (owner : ℕ → ℕ) (user k id : ℕ) (r : AddressRow)
    → user ≢ owner id
    → (r.user ≡ owner r.id) × (is_default_of user r ≡ true → r.id ≡ k)
    → is_default_of user (write_address id (with_default true) r) ≡ true
    → r.id ≡ k
unfolding is_default_of is_active_of write_address
other_promoted owner user k id r other (mine, only) e = elim (Bool-cases (r.id == id)) [
  | inl hit ↦
      let same : r.id ≡ id = (==_iff r.id id).0 hit in
      absurd
        (other (ground (arith, rw (is_default_of, write_address, hit) at e, mine ∙ ap owner same)))
  | inr miss ↦ only (rw (write_address, miss) at e)
]

demote-other :
    (user other : ℕ) (r : AddressRow)
    → is_default_of user (demote other r) ≡ true
    → is_default_of user r ≡ true
unfolding is_default_of is_active_of demote
demote-other user other r e = ground arith

demote_others-other :
    (user other id : ℕ) (r : AddressRow)
    → is_default_of user (demote_others other id r) ≡ true
    → is_default_of user r ≡ true
unfolding is_default_of is_active_of demote_others
demote_others-other user other id r e = ground arith

own_demoted :
    (user id : ℕ) (r : AddressRow)
    → is_default_of user (write_address id (with_default true) (demote user r)) ≡ true
    → (demote user r).id ≡ id
unfolding is_default_of is_active_of write_address demote
own_demoted user id r e = ground arith

own_demoted_others :
    (user id : ℕ) (r : AddressRow)
    → is_default_of user (write_address id (with_default true) (demote_others user id r)) ≡ true
    → (demote_others user id r).id ≡ id
unfolding is_default_of is_active_of write_address demote_others
own_demoted_others user id r e = ground arith

abbrev Keeps : (AddressRow → AddressRow) → Type 0
Keeps f = (r : AddressRow) → ((f r).id ≡ r.id) × ((f r).user ≡ r.user)

promoted-Keeps : (id : ℕ) → Keeps (write_address id (with_default true))
unfolding write_address
promoted-Keeps id r = elim (Bool-cases (r.id == id)) [
  | inl hit ↦ (rw (write_address, hit) refl, rw (write_address, hit) refl)
  | inr miss ↦ (rw (write_address, miss) refl, rw (write_address, miss) refl)
]

owned_map :
    (owner : ℕ → ℕ) (f : AddressRow → AddressRow) (rows : List AddressRow)
    → Keeps f
    → AreOwned owner rows
    → AreOwned owner (map f rows)
owned_map owner f rows keeps =
    All-map _ _ f (λ r mine. (keeps r).1 ∙ mine ∙ ap owner (sym (keeps r).0)) rows

-- A change of rows that makes no default keeps the table orderly.
weaker-IsOrderly :
    (owner : ℕ → ℕ) (f : AddressRow → AddressRow) (rows : List AddressRow)
    → Keeps f
    → ((user : ℕ) (r : AddressRow) → is_default_of user (f r) ≡ true → is_default_of user r ≡ true)
    → IsOrderly owner rows
    → IsOrderly owner (map f rows)
weaker-IsOrderly owner f rows keeps weaker h = record {
  owned = owned_map owner f rows keeps h.owned;
  single = λ user.
      let (k, only) = h.single user in
      (k, All-map _ _ f (λ r o e. (keeps r).0 ∙ o (weaker user r e)) rows only);
}

-- A row that becomes the default, where no other row of its owner is one.
promoted-IsOrderly :
    (owner : ℕ → ℕ) (id : ℕ) (rows : List AddressRow)
    → IsOrderly owner rows
    → All
        (λ r. is_default_of (owner id) (write_address id (with_default true) r) ≡ true → r.id ≡ id)
        rows
    → IsOrderly owner (map (write_address id (with_default true)) rows)
promoted-IsOrderly owner id rows h own = record {
  owned = owned_map owner _ rows (promoted-Keeps id) h.owned;
  single = λ user. elim (Bool-cases (user == owner id)) [
    | inl its ↦ (
      id,
      All-map _ _ (write_address id (with_default true))
          (λ r o e.
            (promoted-Keeps id r).0
            ∙ o (
                subst (λ u. is_default_of u (write_address id (with_default true) r) ≡ true)
                  ((==_iff user (owner id)).0 its) e))
          rows own,
    )
    | inr not_its ↦
        let (k, only) = h.single user in
        let other : user ≢ owner id = λ e. ground (arith, e, not_its) in
        (
          k,
          All-map _ _ (write_address id (with_default true))
              (λ r o e. (promoted-Keeps id r).0 ∙ other_promoted owner user k id r other o e) rows
              (All-both _ _ rows h.owned only),
        )
  ];
}

demote-Keeps : (user : ℕ) → Keeps (demote user)
unfolding demote
demote-Keeps user r = ground arith

demote_others-Keeps : (user id : ℕ) → Keeps (demote_others user id)
unfolding demote_others
demote_others-Keeps user id r = ground arith

deleted-Keeps : (id : ℕ) → Keeps (write_address id deleted)
unfolding write_address
deleted-Keeps id r = ground arith

All-of :
    (P : AddressRow → Type 0) → ((r : AddressRow) → P r) → (rows : List AddressRow) → All P rows
All-of P h [] = tt
All-of P h (r ∷ rows) = (h r, All-of P h rows)

write_default-IsOrderly :
    (owner : ℕ → ℕ) (x : AddressRow) (rows : List AddressRow)
    → x.user ≡ owner x.id
    → IsOrderly owner rows
    → IsOrderly owner (write_default x rows)
unfolding write_default
write_default-IsOrderly owner x rows mine h =
    promoted-IsOrderly owner x.id (map (demote x.user) rows)
      (weaker-IsOrderly owner (demote x.user) rows (demote-Keeps x.user)
        (λ user r. demote-other user x.user r) h)
      (subst
        (λ u.
          All (λ r. is_default_of u (write_address x.id (with_default true) r) ≡ true → r.id ≡ x.id)
            (map (demote x.user) rows))
        mine
        (All-map (λ r. Unit {0}) _ (demote x.user) (λ r o. own_demoted x.user x.id r) rows
          (All-of _ (λ r. tt) rows)))

undefault-weaker :
    (id user : ℕ) (r : AddressRow)
    → is_default_of user (write_address id (with_default false) r) ≡ true
    → is_default_of user r ≡ true
unfolding is_default_of is_active_of write_address
undefault-weaker id user r e = ground arith

undefault-Keeps : (id : ℕ) → Keeps (write_address id (with_default false))
unfolding write_address
undefault-Keeps id r = ground arith

write_update-IsOrderly :
    (owner : ℕ → ℕ) (x : AddressRow) (wants : Option Bool) (rows : List AddressRow)
    → x.user ≡ owner x.id
    → IsOrderly owner rows
    → IsOrderly owner (write_update x wants rows)
unfolding write_update
write_update-IsOrderly owner x none rows mine h = h
write_update-IsOrderly owner x (some false) rows mine h =
    weaker-IsOrderly owner _ rows (undefault-Keeps x.id) (undefault-weaker x.id) h
write_update-IsOrderly owner x (some true) rows mine h =
    promoted-IsOrderly owner x.id (map (demote_others x.user x.id) rows)
      (weaker-IsOrderly owner _ rows (demote_others-Keeps x.user x.id)
        (λ user r. demote_others-other user x.user x.id r) h)
      (subst
        (λ u.
          All (λ r. is_default_of u (write_address x.id (with_default true) r) ≡ true → r.id ≡ x.id)
            (map (demote_others x.user x.id) rows))
        mine
        (All-map (λ r. Unit {0}) _ (demote_others x.user x.id)
          (λ r o. own_demoted_others x.user x.id r) rows (All-of _ (λ r. tt) rows)))

deleted-weaker :
    (id user : ℕ) (r : AddressRow)
    → is_default_of user (write_address id deleted r) ≡ true
    → (is_default_of user r ≡ true) × (r.id ≢ id)
unfolding is_default_of is_active_of write_address
deleted-weaker id user r e = elim (Bool-cases (r.id == id)) [
  | inl hit ↦ absurd (ground (arith, rw (is_default_of, is_active_of, write_address, hit) at e))
  | inr miss ↦ (rw (write_address, miss) at e, λ same. ground (arith, same, miss))
]

find_address-All :
    (P : AddressRow → Type 0) (id : ℕ) (rows : List AddressRow) (x : AddressRow)
    → find_address id rows ≡ some x
    → All P rows
    → P x × (x.id ≡ id)
unfolding find_address
find_address-All P id [] x e h = cc
find_address-All P id (r ∷ rows) x e h = elim (Bool-cases (r.id == id)) [
  | inl hit ↦
      let same : r ≡ x = ground (arith, rw (find_address, hit) at e) in
      (subst P same h.0, ap (λ y. y.id) (sym same) ∙ (==_iff r.id id).0 hit)
  | inr miss ↦ find_address-All P id rows x (rw (find_address, miss) at e) h.1
]

newest_other-All :
    (P : AddressRow → Type 0) (user id : ℕ) (rows : List AddressRow) (n : AddressRow)
    → newest_other user id rows ≡ some n
    → All P rows
    → P n × (n.user ≡ user)
unfolding newest_other newer is_active_of
newest_other-All P user id [] n e h = cc
newest_other-All P user id (r ∷ rows) n e h =
    elim (Bool-cases (is_active_of user r && not (r.id == id))) [
      | inr miss ↦ newest_other-All P user id rows n (rw (newest_other, miss) at e) h.1
      | inl hit ↦
          let here : r ≡ n → P n × (n.user ≡ user) =
            λ same. (subst P same h.0, ap (λ y. y.user) (sym same) ∙ ground (arith, hit)) in
          elim (Option-cases (newest_other user id rows)) [
            | inl z ↦ here (ground (arith, rw (newest_other, hit, z, newer) at e))
            | inr (m, z) ↦ elim (Bool-cases (leb m.created_at r.created_at)) [
              | inl newest ↦ here (ground (arith, rw (newest_other, hit, z, newer, newest) at e))
              | inr older ↦
                  let same : m ≡ n = ground (arith, rw (newest_other, hit, z, newer, older) at e) in
                  newest_other-All P user id rows n (z ∙ ap some same) h.1
            ]
          ]
    ]

-- The table without any default of the owner.
NoDefault : ℕ → List AddressRow → Type 0
NoDefault user = All λ (r : AddressRow). is_default_of user r ≡ true → ⊥

promote-IsOrderly :
    (owner : ℕ → ℕ) (user id : ℕ) (rows : List AddressRow)
    → IsOrderly owner rows
    → NoDefault user rows
    → IsOrderly owner (promote (newest_other user id rows) rows)
unfolding promote NoDefault write_address
promote-IsOrderly owner user id rows h no_default =
    elim (Option-cases (newest_other user id rows)) [
      | inl e ↦ rw (e, promote) h
      | inr (n, e) ↦
          let (mine, its) = newest_other-All _ user id rows n e h.owned in
          rw (e, promote)
            (promoted-IsOrderly owner n.id rows h (
              All-weaken _ _
                (λ r o d. elim (Bool-cases (r.id == n.id)) [
                  | inl hit ↦ (==_iff r.id n.id).0 hit
                  | inr miss ↦ absurd (
                      o (
                        subst (λ u. is_default_of u r ≡ true) (sym mine ∙ its)
                          (rw (write_address, miss) at d)))
                ])
                rows no_default))
    ]
