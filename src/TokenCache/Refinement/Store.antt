-- ===== src/TokenCache/Refinement/Store.antt =====
-- client.go: storing a token, against the specification of the cache.
use mathlib.Core.List.{cons-ne-nil}
use wechat_bot.Base.{
  ℕ, suc, ◌+◌, ◌≤◌, ◌<◌, none, some, List, [], ◌∷◌, length, take, take_of_length-le, length-map,
  last?-some, ltb, if◌then◌else◌, Str, is_empty, is_empty_iff, ◌≡◌, ◌≢◌, refl, sym, ◌∙◌, arith,
  Bool-cases, Option-cases, inl, inr,
}
use wechat_bot.TokenCache.{
  Element, TokenCache, move_to_front, forget_context_token, evict_oldest, push_new,
  set_context_token,
}
use wechat_bot.TokenCache.Spec.{Entries, lookup, remove, store}
use wechat_bot.TokenCache.Index.{
  view, find_address, IsDistinct, user_fresh, lookup-view, element_at-find_address,
  length-list_remove, element_at-set_value, list_remove-set_value, last?-find_address,
}
use wechat_bot.TokenCache.Refinement.{
  removed-IsIndexed, fronted, push_new-IsIndexed, fronted-IsValid, entries, IsIndexed, IsValid,
  remove_absent, forget_context_token-refines,
}

set_context_token-hit :
    (c : TokenCache) (k t : Str) (a : ℕ)
    → IsIndexed c
    → k ≢ []
    → t ≢ []
    → find_address k c.ctx_token_lru ≡ some a
    → set_context_token c k t ≡ fronted c k a t
unfolding set_context_token move_to_front
set_context_token-hit c k t a i nk nt e =
    let (x, at, user, addr, tok) = element_at-find_address k a c.ctx_token_lru i.distinct e in
    ground (
      arith,
      i.agrees k,
      is_empty_iff k,
      is_empty_iff t,
      element_at-set_value a k t c.ctx_token_lru x,
      list_remove-set_value a k t c.ctx_token_lru,
    )

set_context_token-miss :
    (c : TokenCache) (k t : Str)
    → IsIndexed c
    → k ≢ []
    → t ≢ []
    → find_address k c.ctx_token_lru ≡ none
    → set_context_token c k t ≡ (
        if ltb c.max_context_tokens (length c.ctx_token_lru + 1)
        then evict_oldest (push_new c k t)
        else push_new c k t)
unfolding set_context_token
set_context_token-miss c k t i nk nt e = ground (arith, i.agrees k, is_empty_iff k, is_empty_iff t)

push_new-entries : (c : TokenCache) (k t : Str) → entries (push_new c k t) ≡ (k, t) ∷ entries c
unfolding push_new
push_new-entries c k t = refl

-- Evicting from a list of one entry too many removes the last entry.
evict_oldest-IsValid :
    (c : TokenCache) (n : ℕ)
    → IsIndexed c
    → length c.ctx_token_lru ≡ suc n
    → c.max_context_tokens ≡ n
    → 0 < n
    → IsValid (evict_oldest c) × (entries (evict_oldest c) ≡ take n (entries c))
unfolding evict_oldest
evict_oldest-IsValid c n i m cap h =
    let (o, last) = last?-some n c.ctx_token_lru m in
    let (found, kept) = last?-find_address c.ctx_token_lru n o i.distinct m last in
    rw (last, evict_oldest)
      (
        record {
          indexed = removed-IsIndexed c o.user_id o.address i found;
          positive = omega arith;
          bounded =
              omega
                (arith, length-list_remove o.user_id o.address c.ctx_token_lru i.distinct found);
        },
        kept,
      )

-- Within the capacity, keeping the first entries keeps them all.
take-entries : (c : TokenCache) → IsValid c → take c.max_context_tokens (entries c) ≡ entries c
take-entries c v = take_of_length-le c.max_context_tokens (entries c) (
    omega
      (arith, length-map {B = Str × Str} (λ e. (e.user_id, e.token)) c.ctx_token_lru, v.bounded))

-- What storing a token that is not empty for a user that is not empty does.
abbrev Stores : TokenCache → Str → Str → TokenCache → Type 0
Stores c k t d = IsValid d × (entries d ≡ store c.max_context_tokens k t (entries c))

set-hit :
    (c : TokenCache) (k t : Str) (a : ℕ)
    → IsValid c
    → find_address k c.ctx_token_lru ≡ some a
    → Stores c k t (fronted c k a t)
set-hit c k t a v hit =
    let front = fronted-IsValid c k a t v hit in
    (front.0, front.1 ∙ sym (rw front.1 at (take-entries (fronted c k a t) front.0)))

set-miss :
    (c : TokenCache) (k t : Str)
    → IsValid c
    → find_address k c.ctx_token_lru ≡ none
    → Stores c k t (
        if ltb c.max_context_tokens (length c.ctx_token_lru + 1)
        then evict_oldest (push_new c k t)
        else push_new c k t)
unfolding push_new
set-miss c k t v miss =
    let pushed = push_new-IsIndexed c k t v.indexed miss in
    let absent = remove_absent k (entries c) (lookup-view k c.ctx_token_lru miss) in
    elim (Bool-cases (ltb c.max_context_tokens (length c.ctx_token_lru + 1))) [
      | inl full ↦
          rw (full, absent)
            (evict_oldest-IsValid (push_new c k t) c.max_context_tokens pushed (ground arith) refl
              v.positive)
      | inr room ↦
          let valid : IsValid (push_new c k t) = record {
            indexed = pushed;
            positive = v.positive;
            bounded = ground arith;
          } in
          rw (room, absent) (valid, sym (take-entries (push_new c k t) valid))
    ]

pub set_context_token-no_token :
    (c : TokenCache) (k : Str) → set_context_token c k [] ≡ forget_context_token c k
unfolding set_context_token
set_context_token-no_token c k = refl

set_context_token-no_user : (c : TokenCache) (b : ℕ) (t : Str) → set_context_token c [] (b ∷ t) ≡ c
unfolding set_context_token
set_context_token-no_user c b t = refl

-- Storing a token keeps the invariant. An empty token removes the user's entry, an empty user
-- changes nothing, and otherwise the user is put in front with the new token and the first
-- `MaxContextTokens` entries are kept, so that what goes is the least recently used.
pub set_context_token-refines :
    (c : TokenCache) (k t : Str)
    → IsValid c
    → IsValid (set_context_token c k t)
      × (entries (set_context_token c k t) ≡ (
          if is_empty t
          then remove k (entries c)
          else if is_empty k
          then entries c
          else store c.max_context_tokens k t (entries c)))
set_context_token-refines c k [] v =
    rw set_context_token-no_token (forget_context_token-refines c k v)
set_context_token-refines c [] (b ∷ t) v = rw set_context_token-no_user (v, refl)
set_context_token-refines c (x ∷ k) (b ∷ t) v =
    let user = x ∷ k in
    let token = b ∷ t in
    elim (Option-cases (find_address user c.ctx_token_lru)) [
      | inl miss ↦
          rw
            (set_context_token-miss c user token v.indexed (cons-ne-nil x k) (cons-ne-nil b t) miss)
            (set-miss c user token v miss)
      | inr (a, hit) ↦
          rw
            (set_context_token-hit c user token a v.indexed (cons-ne-nil x k) (cons-ne-nil b t) hit)
            (set-hit c user token a v hit)
    ]

-- The abstract side of the invariant.
pub entries-bounded : (c : TokenCache) → IsValid c → length (entries c) ≤ c.max_context_tokens
entries-bounded c v =
    omega (arith, length-map {B = Str × Str} (λ e. (e.user_id, e.token)) c.ctx_token_lru, v.bounded)

abbrev pub IsUserDistinct : Entries → Type 0
IsUserDistinct [] = Unit
IsUserDistinct (e ∷ l) = (lookup e.0 l ≡ none) × IsUserDistinct l

view-IsUserDistinct : (l : List Element) → IsDistinct l → IsUserDistinct (view l)
view-IsUserDistinct [] d = tt
view-IsUserDistinct (e ∷ l) d =
    (lookup-view e.user_id l (user_fresh e.user_id l d.1), view-IsUserDistinct l d.2)

pub users_distinct : (c : TokenCache) → IsValid c → IsUserDistinct (entries c)
users_distinct c v = view-IsUserDistinct c.ctx_token_lru v.indexed.distinct
