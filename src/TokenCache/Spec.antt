-- ===== src/TokenCache/Spec.antt =====
-- client.go: what the token cache promises, as a list of users with their tokens, the most
-- recently used first.
use wechat_bot.Base.{ℕ, Option, none, some, List, [], ◌∷◌, take, if◌then◌else◌, Str, str_eq}

abbrev pub Entries : Type 0
Entries = List (Str × Str)

unfoldable pub lookup : Str → Entries → Option Str
lookup k [] = none
lookup k ((j, t) ∷ l) = if str_eq j k then some t else lookup k l

unfoldable pub remove : Str → Entries → Entries
remove k [] = []
remove k ((j, t) ∷ l) = let rest = remove k l in if str_eq j k then l else (j, t) ∷ rest

-- Storing puts the user in front and keeps the first `cap` entries.
abbrev pub store : ℕ → Str → Str → Entries → Entries
store cap k t l = take cap ((k, t) ∷ remove k l)

-- Reading puts a known user in front.
abbrev pub touch : Str → Entries → Entries
touch k l = elim (lookup k l) [ none ↦ l | some t ↦ (k, t) ∷ remove k l ]
