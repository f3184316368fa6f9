-- ===== src/Crypto/Hex.antt =====
-- crypto.go and cdn.go: `encoding/hex` as the code uses it, and its round trip.
use wechat_bot.Base.{
  ℕ, ◌+◌, ◌-◌, ◌*◌, ◌/◌, ◌%◌, ◌<◌, Option, none, some, [], ◌∷◌, length, leb, ltb, ◌&&◌,
  if◌then◌else◌, Str, All, ◌≡◌, refl, ap, arith, Option-cases, inl, inr,
}

-- A digit of `hex.EncodeToString`
unfoldable pub lower_hex : ℕ → ℕ
lower_hex n = if ltb n 10 then 48 + n else 87 + n

unfoldable pub hex_encode : Str → Str
unfolding lower_hex
hex_encode [] = []
hex_encode (b ∷ s) = lower_hex (b / 16) ∷ lower_hex (b % 16) ∷ hex_encode s

-- A digit of `hex.DecodeString`
unfoldable pub hex_value : ℕ → Option ℕ
hex_value c =
    if leb b'0' c && leb c b'9'
    then some (c - 48)
    else if leb b'a' c && leb c b'f'
    then some (c - 87)
    else if leb b'A' c && leb c b'F'
    then some (c - 55)
    else none

unfoldable pub hex_byte : ℕ → ℕ → Option ℕ
unfolding hex_value
hex_byte high low = elim (hex_value high) [
  | none ↦ none
  | some h ↦ elim (hex_value low) [ none ↦ none | some l ↦ some (16 * h + l) ]
]

-- `hex.DecodeString`; `none` is an error.
unfoldable pub hex_decode : Str → Option Str
unfolding hex_byte
hex_decode [] = some []
hex_decode (c ∷ []) = none
hex_decode (high ∷ low ∷ s) =
    let rest = hex_decode s in
    elim (hex_byte high low) [
      | none ↦ none
      | some b ↦ elim rest [ none ↦ none | some bs ↦ some (b ∷ bs) ]
    ]

hex_value-lower_hex : (n : ℕ) → n < 16 → hex_value (lower_hex n) ≡ some n
unfolding hex_value lower_hex
hex_value-lower_hex n h = ground arith

hex_byte-lower_hex : (b : ℕ) → b < 256 → hex_byte (lower_hex (b / 16)) (lower_hex (b % 16)) ≡ some b
unfolding hex_byte
hex_byte-lower_hex b h =
    let whole : 16 * (b / 16) + b % 16 ≡ b = omega arith in
    rw
      (
        hex_value-lower_hex (b / 16) (omega (arith, h)),
        hex_value-lower_hex (b % 16) (omega arith),
        hex_byte,
      )
      (ap some whole)

pub hex_decode-hex_encode : (s : Str) → All (λ b. b < 256) s → hex_decode (hex_encode s) ≡ some s
unfolding hex_encode hex_decode
hex_decode-hex_encode [] h = refl
hex_decode-hex_encode (b ∷ s) h =
    rw (hex_byte-lower_hex b h.0, hex_decode-hex_encode s h.1, hex_decode)

lower_hex_lt : (n : ℕ) → n < 16 → lower_hex n < 256
unfolding lower_hex
lower_hex_lt n h = ground (arith, h)

-- A hexadecimal text of bytes is made of bytes.
pub hex_encode-All : (s : Str) → All (λ b. b < 256) s → All (λ b. b < 256) (hex_encode s)
unfolding hex_encode
hex_encode-All [] h = tt
hex_encode-All (b ∷ s) h = (
  lower_hex_lt (b / 16) (omega (arith, h.0)),
  (lower_hex_lt (b % 16) (omega arith), hex_encode-All s h.1),
)

pub length-hex_encode : (s : Str) → length (hex_encode s) ≡ 2 * length s
unfolding hex_encode
length-hex_encode [] = refl
length-hex_encode (b ∷ s) = omega (arith, length-hex_encode s)

-- Two digits make a byte.
pub length-hex_decode : (s bytes : Str) → hex_decode s ≡ some bytes → length s ≡ 2 * length bytes
unfolding hex_decode
length-hex_decode [] bytes h = ground arith
length-hex_decode (c ∷ []) bytes h = absurd (ground arith)
length-hex_decode (high ∷ low ∷ s) bytes h = elim (Option-cases (hex_byte high low)) [
  | inl bad ↦ absurd (ground arith)
  | inr (b, good) ↦ elim (Option-cases (hex_decode s)) [
    | inl bad ↦ absurd (ground arith)
    | inr (bs, rest) ↦
        let n = length-hex_decode s bs rest in
        let same : (b ∷ bs) ≡ bytes = ground arith in omega (arith, n, ap length same)
  ]
]
