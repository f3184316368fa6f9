-- ===== src/Storage/Memory.antt =====
-- storage.go: `MemoryBufStorage`. Its mutex makes each method one step; the context is given by the
-- error that `ctx.Err()` returns.
use wechat_bot.Base.{
  Option-cases, Option, none, some, get_or, List, [], ◌⊎◌, inl, inr, Str, str_eq, if◌then◌else◌,
  ◌≡◌, arith,
}
use wechat_bot.Errors.{Error}
use wechat_bot.TokenCache.Index.{map_get-delete, map_get-set}
use wechat_bot.TokenCache.{map_get, map_set, map_delete}

-- A nil map is `none`: it reads as empty, and is made at the first save.
pub record MemoryBufStorage : Type 0 where
  pub buffers : Option (List (Str × Str))

abbrev contents : Option (List (Str × Str)) → List (Str × Str)
contents none = []
contents (some m) = m

-- `s.buffers[accountID]`
unfoldable pub buffer_of : MemoryBufStorage → Str → Str
buffer_of s account = get_or (map_get account (contents s.buffers)) []

unfoldable pub load_buf : Option Error → Str → MemoryBufStorage → Error ⊎ Str
unfolding buffer_of
load_buf (some e) account s = inl e
load_buf none account s = inr (buffer_of s account)

unfoldable pub save_buf :
    Option Error → Str → Str → MemoryBufStorage → Option Error × MemoryBufStorage
save_buf (some e) account buf s = (some e, s)
save_buf none account buf s =
    (none, record { buffers = some (map_set account buf (contents s.buffers)) })

unfoldable pub clear_buf : Option Error → Str → MemoryBufStorage → Option Error × MemoryBufStorage
clear_buf (some e) account s = (some e, s)
clear_buf none account s =
    (none, elim s.buffers [ none ↦ s | some m ↦ record { buffers = some (map_delete account m) } ])

-- A load after a successful save gives the saved cursor for the account, and for every other account
-- what it gave before.
load-save :
    (s : MemoryBufStorage) (account other buf : Str)
    → load_buf none other (save_buf none account buf s).1
      ≡ inr (if str_eq account other then buf else buffer_of s other)
unfolding load_buf save_buf
load-save s account other buf = ground (arith, map_get-set account other buf (contents s.buffers))

-- A load after a successful clear gives the empty cursor for the account, and for every other
-- account what it gave before.
load-clear :
    (s : MemoryBufStorage) (account other : Str)
    → load_buf none other (clear_buf none account s).1
      ≡ inr (if str_eq account other then [] else buffer_of s other)
unfolding load_buf clear_buf map_get
load-clear s account other = elim (Option-cases s.buffers) [
  | inr (m, made) ↦ rw (made) (ground (arith, map_get-delete account other m))
  | inl nil ↦ rw (nil) (rw nil (ground arith))
]
