-- ===== src/TokenCache/Index.antt =====
-- client.go: the map of the token cache as an index of its list, and the operations of the list.
use wechat_bot.Base.{
  ℕ, suc, ◌+◌, true, false, Option, none, some, List, [], ◌∷◌, map, length, last?, take, ◌==◌,
  if◌then◌else◌, Str, str_eq, str_eq_iff, str_eq_self, ◌-◌, subst, ◌≡◌, ◌≢◌, refl, sym, ap, arith,
  All, Bool-cases, inl, inr,
}
use wechat_bot.TokenCache.{
  Element, map_get, map_delete, map_set, element_at, list_remove, set_value,
}
use wechat_bot.TokenCache.Spec.{Entries, lookup, remove}

abbrev pub view : List Element → Entries
view = map (λ e. (e.user_id, e.token))

-- The address of the first element of a user.
unfoldable pub find_address : Str → List Element → Option ℕ
find_address k [] = none
find_address k (e ∷ l) = if str_eq e.user_id k then some e.address else find_address k l

-- No address and no user stands twice.
abbrev pub IsDistinct : List Element → Type 0
IsDistinct [] = Unit
IsDistinct (e ∷ l) =
    All (λ x. x.address ≢ e.address) l × All (λ x. x.user_id ≢ e.user_id) l × IsDistinct l

pub map_get-delete {ℓ} :
    {V : Type ℓ} (k q : Str) (m : List (Str × V))
    → map_get q (map_delete k m) ≡ (if str_eq k q then none else map_get q m)
unfolding map_get map_delete
map_get-delete k q [] = ground arith
map_get-delete k q ((j, v) ∷ m) =
    ground (arith, str_eq_iff k q, str_eq_iff j k, str_eq_iff j q, map_get-delete k q m)

pub map_get-set {ℓ} :
    {V : Type ℓ} (k q : Str) (v : V) (m : List (Str × V))
    → map_get q (map_set k v m) ≡ (if str_eq k q then some v else map_get q m)
unfolding map_get map_set
map_get-set k q v m = ground (arith, map_get-delete k q m)

pub user_fresh : (k : Str) (l : List Element) → All (λ x. x.user_id ≢ k) l → find_address k l ≡ none
unfolding find_address
user_fresh k [] h = refl
user_fresh k (x ∷ l) h = ground (arith, str_eq_iff x.user_id k, h.0, user_fresh k l h.1)

pub All-list_remove :
    (P : Element → Type 0) (a : ℕ) (l : List Element) → All P l → All P (list_remove a l)
unfolding list_remove
All-list_remove P a [] h = h
All-list_remove P a (x ∷ l) h = elim (Bool-cases (x.address == a)) [
  | inl hit ↦ rw hit h.1
  | inr miss ↦ rw miss (h.0, All-list_remove P a l h.1)
]

pub list_remove-IsDistinct :
    (a : ℕ) (l : List Element) → IsDistinct l → IsDistinct (list_remove a l)
unfolding list_remove
list_remove-IsDistinct a [] d = d
list_remove-IsDistinct a (x ∷ l) d = elim (Bool-cases (x.address == a)) [
  | inl hit ↦ rw hit d.2
  | inr miss ↦ rw miss (
    All-list_remove (λ y. y.address ≢ x.address) a l d.0,
    All-list_remove (λ y. y.user_id ≢ x.user_id) a l d.1,
    list_remove-IsDistinct a l d.2,
  )
]

module _ (k : Str) where
  address_fresh :
      (a b : ℕ) (l : List Element) → All (λ x. x.address ≢ b) l → find_address k l ≡ some a → a ≢ b
  unfolding find_address
  address_fresh a b [] h e = cc
  address_fresh a b (x ∷ l) h e = ground (arith, h.0, address_fresh a b l h.1)

  -- Removing the element of a user removes the user, and no other.
  pub view-list_remove :
      (a : ℕ) (l : List Element)
      → IsDistinct l
      → find_address k l ≡ some a
      → view (list_remove a l) ≡ remove k (view l)
  unfolding find_address list_remove remove
  view-list_remove a [] d e = cc
  view-list_remove a (x ∷ l) d e =
      ground (arith, address_fresh a x.address l d.0, view-list_remove a l d.2)

  pub lookup-view : (l : List Element) → find_address k l ≡ none → lookup k (view l) ≡ none
  unfolding find_address lookup
  lookup-view [] e = refl
  lookup-view (x ∷ l) e = ground (arith, lookup-view l)

  -- The element at the address of a user is the user's.
  pub element_at-find_address :
      (a : ℕ) (l : List Element)
      → IsDistinct l
      → find_address k l ≡ some a
      → (x : Element) × (element_at a l ≡ some x)
        × (x.user_id ≡ k)
        × (x.address ≡ a)
        × (lookup k (view l) ≡ some x.token)
  unfolding find_address element_at lookup
  element_at-find_address a [] d e = cc
  element_at-find_address a (x ∷ l) d e = elim (Bool-cases (str_eq x.user_id k)) [
    | inl same ↦ (x, ground arith, (str_eq_iff x.user_id k).0 same, ground arith, ground arith)
    | inr other ↦
        let found : find_address k l ≡ some a = ground arith in
        let (y, at, user, addr, tok) = element_at-find_address a l d.2 found in
        (y, ground (arith, address_fresh a x.address l d.0), user, addr, ground arith)
  ]

  pub find_address-list_remove :
      (q : Str) (a : ℕ) (l : List Element)
      → IsDistinct l
      → find_address k l ≡ some a
      → find_address q (list_remove a l) ≡ (if str_eq k q then none else find_address q l)
  unfolding find_address list_remove
  find_address-list_remove q a [] d e = cc
  find_address-list_remove q a (x ∷ l) d e = elim (Bool-cases (str_eq k q)) [
    | inl same ↦
        let eq = (str_eq_iff k q).0 same in
        ground (
          arith,
          eq,
          str_eq_iff x.user_id k,
          user_fresh x.user_id l d.1,
          address_fresh a x.address l d.0,
          find_address-list_remove q a l d.2,
        )
    | inr other ↦ ground (
      arith,
      str_eq_iff x.user_id k,
      address_fresh a x.address l d.0,
      find_address-list_remove q a l d.2,
    )
  ]

  pub length-list_remove :
      (a : ℕ) (l : List Element)
      → IsDistinct l
      → find_address k l ≡ some a
      → length (list_remove a l) + 1 ≡ length l
  unfolding find_address list_remove
  length-list_remove a [] d e = cc
  length-list_remove a (x ∷ l) d e =
      ground (arith, address_fresh a x.address l d.0, length-list_remove a l d.2)

  -- Without the user's element, no address is the user's, and none is `a`.
  pub list_remove_fresh :
      (a : ℕ) (l : List Element)
      → IsDistinct l
      → find_address k l ≡ some a
      → All (λ x. x.address ≢ a) (list_remove a l) × All (λ x. x.user_id ≢ k) (list_remove a l)
  unfolding find_address list_remove
  list_remove_fresh a [] d e = cc
  list_remove_fresh a (x ∷ l) d e = elim (Bool-cases (str_eq x.user_id k)) [
    | inl same ↦
        let addr : x.address ≡ a = ground arith in
        let hit : (x.address == a) ≡ true = ground arith in
        rw hit (rw addr at d.0, rw ((str_eq_iff x.user_id k).0 same) at d.1)
    | inr other ↦
        let ne = address_fresh a x.address l d.0 (ground arith) in
        let miss : (x.address == a) ≡ false = ground (arith, ne) in
        let rest = list_remove_fresh a l d.2 (ground arith) in
        rw miss
          ((λ e'. ne (sym e'), rest.0), (λ e'. ground (arith, str_eq_iff x.user_id k), rest.1))
  ]

pub element_at-set_value :
    (a : ℕ) (k t : Str) (l : List Element) (x : Element)
    → element_at a l ≡ some x
    → element_at a (set_value a k t l) ≡ some (record { address = a; user_id = k; token = t })
unfolding element_at set_value
element_at-set_value a k t [] x e = cc
element_at-set_value a k t (y ∷ l) x e = ground (arith, element_at-set_value a k t l x)

pub list_remove-set_value :
    (a : ℕ) (k t : Str) (l : List Element) → list_remove a (set_value a k t l) ≡ list_remove a l
unfolding list_remove set_value
list_remove-set_value a k t [] = refl
list_remove-set_value a k t (y ∷ l) = ground (arith, list_remove-set_value a k t l)

pub not_user_of-none :
    (k : Str) (l : List Element) → find_address k l ≡ none → All (λ x. x.user_id ≢ k) l
unfolding find_address
not_user_of-none k [] e = tt
not_user_of-none k (x ∷ l) e =
    (λ same. ground (arith, str_eq_iff x.user_id k), not_user_of-none k l (ground arith))

-- What holds of every address of the list holds of a user's.
pub All-find_address :
    (P : ℕ → Type 0) (k : Str) (a : ℕ) (l : List Element)
    → All (λ x. P x.address) l
    → find_address k l ≡ some a
    → P a
unfolding find_address
All-find_address P k a [] h e = absurd (cc)
All-find_address P k a (x ∷ l) h e = elim (Bool-cases (str_eq x.user_id k)) [
  | inl same ↦ let addr : x.address ≡ a = ground arith in subst P addr h.0
  | inr other ↦ All-find_address P k a l h.1 (ground arith)
]

All-last? {ℓ} :
    (P : Element → Type ℓ) (l : List Element) (o : Element) → All P l → last? l ≡ some o → P o
All-last? P [] o h e = absurd (cc)
All-last? P (x ∷ []) o h e = let same : x ≡ o = cc in subst P same h.0
All-last? P (x ∷ y ∷ l) o h e = All-last? P (y ∷ l) o h.1 e

-- The last element is found under its user, and removing it keeps the others.
pub last?-find_address :
    (l : List Element) (n : ℕ) (o : Element)
    → IsDistinct l
    → length l ≡ suc n
    → last? l ≡ some o
    → (find_address o.user_id l ≡ some o.address)
      × (view (list_remove o.address l) ≡ take n (view l))
unfolding find_address list_remove
last?-find_address [] n o d m e = absurd (cc)
last?-find_address (x ∷ []) n o d m e =
    let same : x ≡ o = cc in
    let none_left : n ≡ 0 = omega arith in
    rw (← same, none_left) (ground (arith, str_eq_self x.user_id), ground arith)
last?-find_address (x ∷ y ∷ l) n o d m e =
    let (found, kept) = last?-find_address (y ∷ l) (n - 1) o d.2 (omega arith) e in
    let far = All-last? (λ z. z.address ≢ x.address) (y ∷ l) o d.0 e in
    let other = All-last? (λ z. z.user_id ≢ x.user_id) (y ∷ l) o d.1 e in
    let e' : n ≡ suc (n - 1) = omega arith in
    let differ : str_eq x.user_id o.user_id ≡ false =
      ground (arith, str_eq_iff x.user_id o.user_id) in
    let miss : (x.address == o.address) ≡ false = ground arith in
    rw (differ, miss) (found, rw e' (ap (◌∷◌ (x.user_id, x.token)) kept))
