-- ===== src/Storage/Path/Decode.antt =====
-- storage.go: reading an account back from the name of its file.
use wechat_bot.Base.{
  ℕ, ◌+◌, ◌-◌, ◌*◌, ◌/◌, ◌%◌, ◌<◌, true, [], ◌∷◌, ◌++◌, ltb, ◌==◌, if◌then◌else◌, Str, codes,
  str_eq, is_empty, is_empty_iff, All, ◌≡◌, ◌≢◌, refl, sym, ap, ◌∙◌, arith, Bool-cases, inl, inr,
}
use wechat_bot.Storage.Path.{
  is_safe, hex_digit, escape_byte, safe_name, is_reserved, escape_first, account_name,
}

unfoldable pub from_hex : ℕ → ℕ
from_hex c = if ltb c 58 then c - 48 else c - 55

-- Reads the escapes of a name back; a lone `%` is the name of the empty account.
unfoldable pub decode : Str → Str
unfolding from_hex
decode [] = []
decode (c ∷ []) = if c == b'%' then [] else c ∷ []
decode (c ∷ h ∷ []) = let rest = decode (h ∷ []) in if c == b'%' then [] else c ∷ rest
decode (c ∷ h ∷ l ∷ s) =
    let tail = decode s in
    let rest = decode (h ∷ l ∷ s) in
    if c == b'%' then (16 * from_hex h + from_hex l) ∷ tail else c ∷ rest

from_hex-hex_digit : (n : ℕ) → n < 16 → from_hex (hex_digit n) ≡ n
unfolding from_hex hex_digit
from_hex-hex_digit n h = ground arith

decode_plain : (c : ℕ) (s : Str) → c ≢ b'%' → decode (c ∷ s) ≡ c ∷ decode s
unfolding decode
decode_plain c [] h = ground arith
decode_plain c (x ∷ []) h = ground arith
decode_plain c (x ∷ y ∷ s) h = ground arith

decode_escaped : (b : ℕ) (s : Str) → b < 256 → decode (escape_byte b ++ s) ≡ b ∷ decode s
unfolding decode escape_byte
decode_escaped b s h =
    ground
      (arith, from_hex-hex_digit (b / 16) (omega arith), from_hex-hex_digit (b % 16) (omega arith))

safe-ne-percent : (b : ℕ) → is_safe b ≡ true → b ≢ b'%'
unfolding is_safe
safe-ne-percent b h e = ground arith

decode-safe_name : (a : Str) → All (λ b. b < 256) a → decode (safe_name a) ≡ a
unfolding safe_name
decode-safe_name [] h = unfold decode in refl
decode-safe_name (b ∷ a) h = elim (Bool-cases (is_safe b)) [
  | inl safe ↦
      rw (safe, safe_name)
        (decode_plain b (safe_name a) (safe-ne-percent b safe)
          ∙ ap (◌∷◌ b) (decode-safe_name a h.1))
  | inr odd ↦
      rw (odd, safe_name) (decode_escaped b (safe_name a) h.0 ∙ ap (◌∷◌ b) (decode-safe_name a h.1))
]

-- A reserved name begins with a letter.
reserved_first : (c : ℕ) (s : Str) → is_reserved (c ∷ s) ≡ true → (c < 256) × (c ≢ b'%')
unfolding is_reserved str_eq
reserved_first c s h = ground arith

decode-escape_first :
    (name : Str) → is_reserved name ≡ true → decode (escape_first name) ≡ decode name
unfolding escape_first
decode-escape_first [] h = ground arith
decode-escape_first (c ∷ s) h =
    let first = reserved_first c s h in decode_escaped c s first.0 ∙ sym (decode_plain c s first.1)

decode_checked :
    (name : Str) → decode (if is_reserved name then escape_first name else name) ≡ decode name
decode_checked name = elim (Bool-cases (is_reserved name)) [
  | inl hit ↦ rw hit (decode-escape_first name hit)
  | inr miss ↦ rw miss refl
]

-- The name before the check for reserved names
decode_named :
    (a : Str)
    → All (λ b. b < 256) a
    → decode (if is_empty (safe_name a) then codes "%" else safe_name a) ≡ a
unfolding decode
decode_named a h = elim (Bool-cases (is_empty (safe_name a))) [
  | inl hit ↦ rw hit (sym (ap decode ((is_empty_iff (safe_name a)).0 hit)) ∙ decode-safe_name a h)
  | inr miss ↦ rw miss (decode-safe_name a h)
]

-- The account can be read back from the name of its file, whatever its bytes are: an empty account
-- and the reserved names of Windows are included.
pub decode-account_name : (a : Str) → All (λ b. b < 256) a → decode (account_name a) ≡ a
unfolding account_name
decode-account_name a h =
    let name : Str = if is_empty (safe_name a) then codes "%" else safe_name a in
    decode_checked name ∙ decode_named a h

-- Two accounts never share a file name.
pub account_name-injective :
    (a b : Str)
    → All (λ x. x < 256) a
    → All (λ x. x < 256) b
    → account_name a ≡ account_name b
    → a ≡ b
account_name-injective a b ha hb same =
    sym (decode-account_name a ha) ∙ ap decode same ∙ decode-account_name b hb
