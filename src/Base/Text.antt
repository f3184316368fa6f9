-- ===== src/Base/Text.antt =====
-- Parts of Go's `strings` on byte lists: splitting and joining at a byte, prefixes, white space.
use Prim.Native.Nat.{ℕ}
use mathlib.Core.Bool.{Bool, ◌&&◌, ◌||◌}
use mathlib.Core.List.{List, [], ◌∷◌, ◌++◌, reverse}
use wechat_bot.Base.Strings.{Str}
use wechat_bot.Base.Tests.{leb, ◌==◌, if◌then◌else◌}

-- A byte in front of the first part.
abbrev pub onto_first : ℕ → List Str → List Str
onto_first c [] = (c ∷ []) ∷ []
onto_first c (p ∷ ps) = (c ∷ p) ∷ ps

-- `strings.Split(s, sep)` for a separator of one byte
unfoldable pub split_on : ℕ → Str → List Str
split_on sep [] = [] ∷ []
split_on sep (c ∷ s) =
    let later = split_on sep s in if c == sep then [] ∷ later else onto_first c later

-- `strings.Join(parts, sep)`
unfoldable pub join_with : Str → List Str → Str
join_with sep [] = []
join_with sep (p ∷ []) = p
join_with sep (p ∷ q ∷ ps) = p ++ sep ++ join_with sep (q ∷ ps)

-- `strings.TrimPrefix` for a prefix of one byte
unfoldable pub trim_byte : ℕ → Str → Str
trim_byte b [] = []
trim_byte b (c ∷ s) = if c == b then s else c ∷ s

-- `unicode.IsSpace` by the length of its character in UTF-8
abbrev pub is_space1 : ℕ → Bool
is_space1 a = leb 9 a && leb a 13 || a == 32

abbrev pub is_space2 : ℕ → ℕ → Bool
is_space2 a b = a == 0xC2 && (b == 0x85 || b == 0xA0)

abbrev pub is_space3 : ℕ → ℕ → ℕ → Bool
is_space3 a b c =
    a == 0xE1 && b == 0x9A && c == 0x80
    || a == 0xE2
      && (b == 0x80 && (leb 0x80 c && leb c 0x8A || c == 0xA8 || c == 0xA9 || c == 0xAF)
          || b == 0x81 && c == 0x9F)
    || a == 0xE3 && b == 0x80 && c == 0x80

-- Skips the characters in front for which one of the tests holds.
unfoldable pub skip_space : (ℕ → ℕ → Bool) → (ℕ → ℕ → ℕ → Bool) → Str → Str
skip_space two three [] = []
skip_space two three (a ∷ []) = if is_space1 a then [] else a ∷ []
skip_space two three (a ∷ b ∷ []) =
    let one = skip_space two three (b ∷ []) in
    if is_space1 a then one else if two a b then [] else a ∷ b ∷ []
skip_space two three (a ∷ b ∷ c ∷ s) =
    let past1 = skip_space two three (b ∷ c ∷ s) in
    let past2 = skip_space two three (c ∷ s) in
    let past3 = skip_space two three s in
    if is_space1 a
    then past1
    else if two a b
    then past2
    else if three a b c
    then past3
    else a ∷ b ∷ c ∷ s

-- `strings.TrimSpace`; from the end the bytes of a character come in reverse.
unfoldable pub trim_space : Str → Str
unfolding skip_space
trim_space s = reverse (
    skip_space (λ b a. is_space2 a b) (λ c b a. is_space3 a b c)
      (reverse (skip_space is_space2 is_space3 s)))
