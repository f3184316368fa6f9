-- ===== src/Tests/TokenCache.antt =====
-- client.go: the theorems of the token cache at a cache of two users that is full.
use wechat_bot.Base.{[], ◌≡◌, refl, arith, codes, get_or}
use wechat_bot.TokenCache.{
  map_get, TokenCache, set_context_token, forget_context_token, context_token,
}
use wechat_bot.TokenCache.Index.{find_address}
use wechat_bot.TokenCache.Refinement.{
  IsValid, entries, forget_context_token-refines, context_token-refines,
}
use wechat_bot.TokenCache.Refinement.Store.{set_context_token-refines}
use wechat_bot.TokenCache.Spec.{lookup, remove, store, touch}

abbrev empty_cache : TokenCache
empty_cache = record { ctx_tokens = []; ctx_token_lru = []; next = 0; max_context_tokens = 2 }

empty_cache-IsValid : IsValid empty_cache
empty_cache-IsValid =
    unfold map_get find_address in
    record {
      indexed = record { agrees = λ q. refl; distinct = tt; allocated = tt };
      positive = omega arith;
      bounded = omega arith;
    }

abbrev two_users : TokenCache
two_users =
    set_context_token (set_context_token empty_cache (codes "ann") (codes "a1")) (codes "bob")
      (codes "b1")

one_user-IsValid : IsValid (set_context_token empty_cache (codes "ann") (codes "a1"))
one_user-IsValid =
    (set_context_token-refines empty_cache (codes "ann") (codes "a1") empty_cache-IsValid).0

two_users-IsValid : IsValid two_users
two_users-IsValid =
    (set_context_token-refines (set_context_token empty_cache (codes "ann") (codes "a1"))
      (codes "bob") (codes "b1") one_user-IsValid).0

set_context_token-refines_example :
    IsValid (set_context_token two_users (codes "cid") (codes "c1"))
    × (entries (set_context_token two_users (codes "cid") (codes "c1"))
        ≡ store two_users.max_context_tokens (codes "cid") (codes "c1") (entries two_users))
set_context_token-refines_example =
    set_context_token-refines two_users (codes "cid") (codes "c1") two_users-IsValid

context_token-refines_example :
    IsValid (context_token two_users (codes "ann")).1
    × (entries (context_token two_users (codes "ann")).1 ≡ touch (codes "ann") (entries two_users))
    × ((context_token two_users (codes "ann")).0
        ≡ get_or (lookup (codes "ann") (entries two_users)) [])
context_token-refines_example = context_token-refines two_users (codes "ann") two_users-IsValid

forget_context_token-refines_example :
    IsValid (forget_context_token two_users (codes "ann"))
    × (entries (forget_context_token two_users (codes "ann"))
        ≡ remove (codes "ann") (entries two_users))
forget_context_token-refines_example =
    forget_context_token-refines two_users (codes "ann") two_users-IsValid
