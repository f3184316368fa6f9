-- ===== src/Storage/File/Utf8.antt =====
-- storage.go: the strings that `encoding/json`, which replaces invalid UTF-8, gives back as they were.
use wechat_bot.Base.{
  ℕ, Bool, false, ◌&&◌, ◌-◌, ◌==◌, Option, none, some, [], ◌∷◌, leb, if◌then◌else◌, Str,
}

-- What a character still wants: a number of bytes, and the range of the next one.
pub record Wants : Type 0 where
  pub more : ℕ
  pub low : ℕ
  pub high : ℕ

abbrev wants : ℕ → ℕ → ℕ → Option Wants
wants more low high = some (record { more = more; low = low; high = high })

-- The first byte of a character, by the table of well-formed byte sequences of Unicode.
unfoldable pub lead : ℕ → Option Wants
lead b =
    if leb b 127
    then wants 0 128 191
    else if leb b 193
    then none
    else if leb b 223
    then wants 1 128 191
    else if b == 224
    then wants 2 160 191
    else if b == 237
    then wants 2 128 159
    else if leb b 239
    then wants 2 128 191
    else if b == 240
    then wants 3 144 191
    else if leb b 243
    then wants 3 128 191
    else if b == 244
    then wants 3 128 143
    else none

-- A further byte of a character.
unfoldable pub further : ℕ → Wants → Option Wants
further b w = if leb w.low b && leb b w.high then wants (w.more - 1) 128 191 else none

unfoldable pub next_byte : ℕ → Wants → Option Wants
unfolding lead further
next_byte b w = if w.more == 0 then lead b else further b w

unfoldable pub is_utf8_from : Wants → Str → Bool
unfolding next_byte
is_utf8_from w [] = w.more == 0
is_utf8_from w (b ∷ s) = elim (next_byte b w) [ none ↦ false | some w' ↦ is_utf8_from w' s ]

-- `utf8.ValidString`
unfoldable pub is_utf8 : Str → Bool
unfolding is_utf8_from
is_utf8 s = is_utf8_from (record { more = 0; low = 128; high = 191 }) s
