-- ===== src/TokenCache/Refinement.antt =====
-- client.go: the invariant of the token cache; forgetting and reading, against the specification.
pub mod Store
use mathlib.Core.List.{cons-ne-nil}
use wechat_bot.Base.{
  ℕ, suc, ◌+◌, ◌≤◌, ◌<◌, none, some, List, [], ◌∷◌, length, take, take_of_length-le, length-map,
  last?-some, ltb, if◌then◌else◌, Str, str_eq_iff, is_empty, is_empty_iff, ◌≡◌, ◌≢◌, refl, sym, ap,
  get_or, ◌∙◌, arith, All, All-weaken, Bool-cases, Option-cases, inl, inr,
}
use wechat_bot.TokenCache.{
  Element, TokenCache, map_get, map_delete, list_remove, move_to_front, token_at,
  forget_context_token, evict_oldest, push_new, set_context_token, context_token,
}
use wechat_bot.TokenCache.Spec.{Entries, lookup, remove, store, touch}
use wechat_bot.TokenCache.Index.{
  view, find_address, IsDistinct, map_get-delete, map_get-set, user_fresh, All-list_remove,
  list_remove-IsDistinct, view-list_remove, lookup-view, element_at-find_address,
  find_address-list_remove, length-list_remove, list_remove_fresh, element_at-set_value,
  list_remove-set_value, last?-find_address, not_user_of-none, All-find_address,
}

-- The abstract state: the entries of the list, most recently used first.
abbrev pub entries : TokenCache → Entries
entries c = view c.ctx_token_lru

-- The map takes each user to the address of its element and knows no other user, no user and no
-- address stands twice, every address has been handed out.
pub record IsIndexed (c : TokenCache) : Type 0 where
  pub agrees : (q : Str) → map_get q c.ctx_tokens ≡ find_address q c.ctx_token_lru
  pub distinct : IsDistinct c.ctx_token_lru
  pub allocated : All (λ e. e.address < c.next) c.ctx_token_lru

-- The invariant: the map is an index of the list, and the list is within the capacity.
pub record IsValid (c : TokenCache) : Type 0 where
  pub indexed : IsIndexed c
  pub positive : 0 < c.max_context_tokens
  pub bounded : length c.ctx_token_lru ≤ c.max_context_tokens

-- Removing the element of a user from the list, and the user from the map.
abbrev removed : TokenCache → Str → ℕ → TokenCache
removed c k a = record c {
  ctx_tokens = map_delete k c.ctx_tokens;
  ctx_token_lru = list_remove a c.ctx_token_lru;
}

pub removed-IsIndexed :
    (c : TokenCache) (k : Str) (a : ℕ)
    → IsIndexed c
    → find_address k c.ctx_token_lru ≡ some a
    → IsIndexed (removed c k a)
removed-IsIndexed c k a i e = record {
  agrees = λ q. ground (
    arith,
    map_get-delete k q c.ctx_tokens,
    i.agrees q,
    find_address-list_remove k q a c.ctx_token_lru i.distinct e,
  );
  distinct = list_remove-IsDistinct a c.ctx_token_lru i.distinct;
  allocated = All-list_remove (λ x. x.address < c.next) a c.ctx_token_lru i.allocated;
}

-- An element with the address and the user of the one removed, put in front.
abbrev pub fronted : TokenCache → Str → ℕ → Str → TokenCache
fronted c k a t = record c {
  ctx_token_lru = record { address = a; user_id = k; token = t } ∷ list_remove a c.ctx_token_lru;
}

fronted-IsIndexed :
    (c : TokenCache) (k : Str) (a : ℕ) (t : Str)
    → IsIndexed c
    → find_address k c.ctx_token_lru ≡ some a
    → IsIndexed (fronted c k a t)
unfolding find_address
fronted-IsIndexed c k a t i e =
    let fresh = list_remove_fresh k a c.ctx_token_lru i.distinct e in
    record {
      agrees = λ q. ground (
        arith,
        i.agrees q,
        str_eq_iff k q,
        find_address-list_remove k q a c.ctx_token_lru i.distinct e,
      );
      distinct = (fresh.0, fresh.1, list_remove-IsDistinct a c.ctx_token_lru i.distinct);
      allocated = (
        All-find_address (λ n. n < c.next) k a c.ctx_token_lru i.allocated e,
        All-list_remove (λ x. x.address < c.next) a c.ctx_token_lru i.allocated,
      );
    }

pub push_new-IsIndexed :
    (c : TokenCache) (k t : Str)
    → IsIndexed c
    → find_address k c.ctx_token_lru ≡ none
    → IsIndexed (push_new c k t)
unfolding push_new find_address
push_new-IsIndexed c k t i e = record {
  agrees = λ q. ground (arith, map_get-set k q c.next c.ctx_tokens, i.agrees q);
  distinct = (
    All-weaken (λ x h e'. omega arith) c.ctx_token_lru i.allocated,
    not_user_of-none k c.ctx_token_lru e,
    i.distinct,
  );
  allocated = (omega arith, All-weaken (λ x h. omega arith) c.ctx_token_lru i.allocated);
}

forget_context_token-hit :
    (c : TokenCache) (k : Str) (a : ℕ)
    → IsIndexed c
    → find_address k c.ctx_token_lru ≡ some a
    → forget_context_token c k ≡ removed c k a
unfolding forget_context_token
forget_context_token-hit c k a i e = ground (arith, i.agrees k)

forget_context_token-miss :
    (c : TokenCache) (k : Str)
    → IsIndexed c
    → find_address k c.ctx_token_lru ≡ none
    → forget_context_token c k ≡ c
unfolding forget_context_token
forget_context_token-miss c k i e = ground (arith, i.agrees k)

pub remove_absent : (k : Str) (l : Entries) → lookup k l ≡ none → remove k l ≡ l
unfolding lookup remove
remove_absent k [] e = refl
remove_absent k ((j, t) ∷ l) e = ground (arith, remove_absent k l)

-- Forgetting a user keeps the invariant and removes that user's entry, and no other.
pub forget_context_token-refines :
    (c : TokenCache) (k : Str)
    → IsValid c
    → IsValid (forget_context_token c k)
      × (entries (forget_context_token c k) ≡ remove k (entries c))
forget_context_token-refines c k v = elim (Option-cases (find_address k c.ctx_token_lru)) [
  | inl miss ↦
      rw (forget_context_token-miss c k v.indexed miss)
        (v, sym (remove_absent k (entries c) (lookup-view k c.ctx_token_lru miss)))
  | inr (a, hit) ↦ rw (forget_context_token-hit c k a v.indexed hit) (
    record {
      indexed = removed-IsIndexed c k a v.indexed hit;
      positive = v.positive;
      bounded =
          omega (arith, v.bounded, length-list_remove k a c.ctx_token_lru v.indexed.distinct hit);
    },
    view-list_remove k a c.ctx_token_lru v.indexed.distinct hit,
  )
]

-- Where a user's element is moved to the front, its address and its user are known.
move_to_front-hit :
    (c : TokenCache) (k : Str) (a : ℕ)
    → IsIndexed c
    → find_address k c.ctx_token_lru ≡ some a
    → (t : Str) × (lookup k (entries c) ≡ some t)
      × (token_at a c.ctx_token_lru ≡ t)
      × (record c { ctx_token_lru = move_to_front a c.ctx_token_lru } ≡ fronted c k a t)
unfolding move_to_front token_at
move_to_front-hit c k a i e =
    let (x, at, user, addr, tok) = element_at-find_address k a c.ctx_token_lru i.distinct e in
    (x.token, tok, rw (at, token_at), rw (at, move_to_front) (ground (arith, user, addr)))

context_token-hit :
    (c : TokenCache) (k : Str) (a : ℕ)
    → IsIndexed c
    → find_address k c.ctx_token_lru ≡ some a
    → (t : Str) × (lookup k (entries c) ≡ some t) × (context_token c k ≡ (t, fronted c k a t))
unfolding context_token
context_token-hit c k a i e =
    let (t, found, read, moved) = move_to_front-hit c k a i e in
    (t, found, rw (i.agrees k, e, read, moved, context_token))

context_token-miss :
    (c : TokenCache) (k : Str)
    → IsIndexed c
    → find_address k c.ctx_token_lru ≡ none
    → context_token c k ≡ ([], c)
unfolding context_token
context_token-miss c k i e = rw (i.agrees k, e, context_token)

-- What moving a user's element to the front does, whatever token it then holds.
pub fronted-IsValid :
    (c : TokenCache) (k : Str) (a : ℕ) (t : Str)
    → IsValid c
    → find_address k c.ctx_token_lru ≡ some a
    → IsValid (fronted c k a t) × (entries (fronted c k a t) ≡ (k, t) ∷ remove k (entries c))
fronted-IsValid c k a t v hit = (
  record {
    indexed = fronted-IsIndexed c k a t v.indexed hit;
    positive = v.positive;
    bounded =
        omega (arith, v.bounded, length-list_remove k a c.ctx_token_lru v.indexed.distinct hit);
  },
  ap (◌∷◌ (k, t)) (view-list_remove k a c.ctx_token_lru v.indexed.distinct hit),
)

-- Reading the token of a user keeps the invariant, returns the token stored last for that user or
-- the empty string, and moves a user that is known to the front.
pub context_token-refines :
    (c : TokenCache) (k : Str)
    → IsValid c
    → IsValid (context_token c k).1
      × (entries (context_token c k).1 ≡ touch k (entries c))
      × ((context_token c k).0 ≡ get_or (lookup k (entries c)) [])
context_token-refines c k v = elim (Option-cases (find_address k c.ctx_token_lru)) [
  | inl miss ↦
      rw (context_token-miss c k v.indexed miss, lookup-view k c.ctx_token_lru miss, touch)
        (v, refl, refl)
  | inr (a, hit) ↦
      let (t, found, computed) = context_token-hit c k a v.indexed hit in
      let front = fronted-IsValid c k a t v hit in
      rw (computed, found, touch) (front.0, front.1, refl)
]
