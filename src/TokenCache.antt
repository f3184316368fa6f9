-- ===== src/TokenCache.antt =====
-- client.go: the bounded cache of conversation tokens, `SetContextToken`, `ContextToken`,
-- `ForgetContextToken` and `contextTokenFor`. A `*list.Element` is an address; the list holds the
-- elements from the front, and the Go map takes a user to the address of its element. The mutex
-- makes each operation one step.
pub mod Spec
pub mod Index
pub mod Refinement
pub mod Reads
use wechat_bot.Base.{
  ℕ, suc, Bool, true, false, not, ◌&&◌, ◌||◌, Option, none, some, List, [], ◌∷◌, length, last?, ltb,
  ◌==◌, if◌then◌else◌, Str, str_eq, is_empty,
}

-- An element of the list: its address, and the `contextTokenEntry` that is its value.
pub record Element : Type 0 where
  pub address : ℕ
  pub user_id : Str
  pub token : Str

-- The fields of `Client` that the cache uses; `next` is the next free address.
pub record TokenCache : Type 0 where
  pub ctx_tokens : List (Str × ℕ)
  pub ctx_token_lru : List Element
  pub next : ℕ
  pub max_context_tokens : ℕ

-- A Go map as an association list: `m[k]`, `m[k] = v` and `delete(m, k)`.
module _ {ℓ} {V : Type ℓ} where
  unfoldable pub map_get : Str → List (Str × V) → Option V
  map_get k [] = none
  map_get k ((j, v) ∷ m) = if str_eq j k then some v else map_get k m

  unfoldable pub map_delete : Str → List (Str × V) → List (Str × V)
  map_delete k [] = []
  map_delete k ((j, v) ∷ m) =
      let rest = map_delete k m in if str_eq j k then rest else (j, v) ∷ rest

  unfoldable pub map_set : Str → V → List (Str × V) → List (Str × V)
  unfolding map_delete
  map_set k v m = (k, v) ∷ map_delete k m

-- `container/list`: the element at an address, `Remove`, `MoveToFront`, and a write to `Value`.
unfoldable pub element_at : ℕ → List Element → Option Element
element_at a [] = none
element_at a (e ∷ l) = if e.address == a then some e else element_at a l

unfoldable pub list_remove : ℕ → List Element → List Element
list_remove a [] = []
list_remove a (e ∷ l) = let rest = list_remove a l in if e.address == a then l else e ∷ rest

unfoldable pub move_to_front : ℕ → List Element → List Element
unfolding element_at list_remove
move_to_front a l = elim (element_at a l) [ none ↦ l | some e ↦ e ∷ list_remove a l ]

unfoldable pub set_value : ℕ → Str → Str → List Element → List Element
set_value a user token [] = []
set_value a user token (e ∷ l) =
    let rest = set_value a user token l in
    if e.address == a then record e { user_id = user; token = token } ∷ l else e ∷ rest

unfoldable pub forget_context_token : TokenCache → Str → TokenCache
unfolding map_get map_delete list_remove
forget_context_token c chat_id = elim (map_get chat_id c.ctx_tokens) [
  | none ↦ c
  | some entry ↦ record c {
    ctx_tokens = map_delete chat_id c.ctx_tokens;
    ctx_token_lru = list_remove entry c.ctx_token_lru;
  }
]

-- `oldest := Back()`, removed from the map and from the list. `Back` of an empty list is `nil`;
-- the list is never empty here.
unfoldable pub evict_oldest : TokenCache → TokenCache
unfolding map_delete list_remove
evict_oldest c = elim (last? c.ctx_token_lru) [
  | none ↦ c
  | some oldest ↦ record c {
    ctx_tokens = map_delete oldest.user_id c.ctx_tokens;
    ctx_token_lru = list_remove oldest.address c.ctx_token_lru;
  }
]

-- `c.ctxTokens[chatID] = c.ctxTokenLRU.PushFront(…)`
unfoldable pub push_new : TokenCache → Str → Str → TokenCache
unfolding map_set
push_new c chat_id token = record c {
  ctx_tokens = map_set chat_id c.next c.ctx_tokens;
  ctx_token_lru = record { address = c.next; user_id = chat_id; token = token } ∷ c.ctx_token_lru;
  next = suc c.next;
}

unfoldable pub set_context_token : TokenCache → Str → Str → TokenCache
unfolding forget_context_token evict_oldest push_new move_to_front set_value
set_context_token c chat_id token =
    if is_empty token
    then forget_context_token c chat_id
    else if is_empty chat_id || is_empty token
    then c
    else elim (map_get chat_id c.ctx_tokens) [
      | some entry ↦ record c {
        ctx_token_lru = move_to_front entry (set_value entry chat_id token c.ctx_token_lru);
      }
      | none ↦
          let pushed = push_new c chat_id token in
          if ltb pushed.max_context_tokens (length pushed.ctx_token_lru)
          then evict_oldest pushed
          else pushed
    ]

-- The token of the element at an address.
unfoldable pub token_at : ℕ → List Element → Str
unfolding element_at
token_at a l = elim (element_at a l) [ none ↦ [] | some e ↦ e.token ]

unfoldable pub context_token : TokenCache → Str → Str × TokenCache
unfolding map_get move_to_front token_at
context_token c chat_id = elim (map_get chat_id c.ctx_tokens) [
  | none ↦ ([], c)
  | some entry ↦ (
    token_at entry c.ctx_token_lru,
    record c { ctx_token_lru = move_to_front entry c.ctx_token_lru },
  )
]

-- The `conversationContext` that a handler's context carries; the client is this one.
pub record ConversationContext : Type 0 where
  pub user_id : Str
  pub token : Str

unfoldable pub context_token_for : TokenCache → Option ConversationContext → Str → Str × TokenCache
unfolding context_token
context_token_for c none user_id = context_token c user_id
context_token_for c (some v) user_id =
    if str_eq v.user_id user_id then (v.token, c) else context_token c user_id
