-- ===== src/Crypto/Padding/RoundTrip.antt =====
-- crypto.go: padding after unpadding, and unpadding after padding.
use wechat_bot.Base.{
  ◌↔◌, ℕ, zero, suc, ◌+◌, ◌-◌, ◌%◌, ◌≤◌, ◌<◌, true, some, [], ◌∷◌, ◌++◌, length, take, drop,
  replicate, last?, Str, ◌≡◌, refl, arith, length-append, length-replicate, take-append,
  drop-append, take-append-drop, length-drop, inl, inr, Option-cases,
}
use wechat_bot.Crypto.Padding.{ok, ◌>>=◌, to_byte, pkcs7_pad, all_equal, strip_padding, pkcs7_unpad}

all_equal-replicate : (b n : ℕ) → all_equal b (replicate n b) ≡ true
unfolding all_equal
all_equal-replicate b zero = refl
all_equal-replicate b (suc n) = ground (arith, all_equal-replicate b n)

last?-replicate : (n b : ℕ) → last? (replicate (suc n) b) ≡ some b
last?-replicate zero b = refl
last?-replicate (suc n) b = last?-replicate n b

last?-append_replicate : (xs : Str) (n b : ℕ) → last? (xs ++ replicate (suc n) b) ≡ some b
last?-append_replicate [] n b = last?-replicate n b
last?-append_replicate (x ∷ []) n b = last?-replicate n b
last?-append_replicate (x ∷ y ∷ xs) n b = last?-append_replicate (y ∷ xs) n b

replicate_of-all_equal : (b : ℕ) (xs : Str) → all_equal b xs ≡ true → xs ≡ replicate (length xs) b
unfolding all_equal
replicate_of-all_equal b [] h = refl
replicate_of-all_equal b (x ∷ xs) h = ground (arith, replicate_of-all_equal b xs)

-- The number of padding bytes for a length.
abbrev pub pad_len : ℕ → ℕ → ℕ
pad_len l b = b - l % b

pad_len_bounds : (l b : ℕ) → 0 < b → (0 < pad_len l b) × (pad_len l b ≤ b)
pad_len_bounds l b h = grind arith

mod_add_pad_len : (l b : ℕ) → 0 < b → (l + pad_len l b) % b ≡ 0
mod_add_pad_len l b h = grind arith

pad_len_unique : (l b n : ℕ) → 0 < n → n ≤ b → (l + n) % b ≡ 0 → pad_len l b ≡ n
pad_len_unique l b n h k e = grind arith

-- `d` is `p` with `n` bytes of value `n` behind it, up to a multiple of the block size.
pub record IsPadded (d p : Str) (b n : ℕ) : Type 0 where
  pub positive : 0 < n
  pub within : n ≤ b
  pub splits : d ≡ p ++ replicate n (to_byte n)
  pub aligned : (length p + n) % b ≡ 0

strip_padding-append :
    (p : Str) (b n : ℕ) → 0 < n → n ≤ b → strip_padding (p ++ replicate n (to_byte n)) b n ≡ ok p
unfolding strip_padding
strip_padding-append p b n h k =
    let r = replicate n (to_byte n) in
    ground (
      arith,
      length-append p r,
      length-replicate n (to_byte n),
      drop-append p r,
      take-append p r,
      all_equal-replicate (to_byte n) n,
    )

pkcs7_unpad-IsPadded : (d p : Str) (b n : ℕ) → b ≤ 255 → IsPadded d p b n → pkcs7_unpad d b ≡ ok p
unfolding pkcs7_unpad
pkcs7_unpad-IsPadded d p b n k i =
    let e : n ≡ suc (n - 1) = omega arith in
    let r = replicate n (to_byte n) in
    ground (
      arith,
      strip_padding-append p b n,
      length-append p r,
      length-replicate n (to_byte n),
      last?-append_replicate p (n - 1) (to_byte n),
    )

strip_padding-IsPadded :
    (d p : Str) (b n : ℕ)
    → b ≤ 255
    → length d % b ≡ 0
    → strip_padding d b n ≡ ok p
    → IsPadded d p b n
unfolding strip_padding
strip_padding-IsPadded d p b n k e h =
    let kept = length d - n in
    ground (
      arith,
      replicate_of-all_equal (to_byte n) (drop kept d),
      length-drop kept d,
      take-append-drop kept d,
      length-append (take kept d) (drop kept d),
    )

pub unpad_inversion :
    (d p : Str) (b : ℕ) → pkcs7_unpad d b ≡ ok p → (0 < b) × (b ≤ 255) × (n : ℕ) × IsPadded d p b n
unfolding pkcs7_unpad
unpad_inversion d p b h = elim (Option-cases (last? d)) [
  | inl e ↦ absurd (ground arith)
  | inr (n, e) ↦ (
    ground arith,
    ground arith,
    n,
    strip_padding-IsPadded d p b n (ground arith) (ground arith) (ground arith),
  )
]

-- Unpadding what was padded gives the data back, for every block size that is accepted.
pub unpad-pad :
    (d : Str) (b : ℕ) → 0 < b → b ≤ 255 → (pkcs7_pad d b >>= λ p. pkcs7_unpad p b) ≡ ok d
unfolding pkcs7_pad
unpad-pad d b h k =
    let n = pad_len (length d) b in
    let bounds = pad_len_bounds (length d) b h in
    let padded = d ++ replicate n (to_byte n) in
    ground (
      arith,
      pkcs7_unpad-IsPadded padded d b n k (record {
        positive = bounds.0;
        within = bounds.1;
        splits = refl;
        aligned = mod_add_pad_len (length d) b h;
      }),
    )

-- Padding what was unpadded gives the input back.
pad-unpad : (d p : Str) (b : ℕ) → pkcs7_unpad d b ≡ ok p → pkcs7_pad p b ≡ ok d
unfolding pkcs7_pad
pad-unpad d p b h =
    let (pos_b, small_b, n, i) = unpad_inversion d p b h in
    ground (arith, pad_len_unique (length p) b n i.positive i.within i.aligned, i.splits)

-- For an accepted block size, `PKCS7Unpad` succeeds with `p` exactly when the input is `p` with
-- `n` bytes of value `n` behind it, for an `n` from 1 to the block size, and is a whole number
-- of blocks.
pub unpad_iff :
    (d p : Str) (b : ℕ) → 0 < b → b ≤ 255 → (pkcs7_unpad d b ≡ ok p) ↔ ((n : ℕ) × IsPadded d p b n)
unpad_iff d p b h k = (
  λ e. let (_, _, n, i) = unpad_inversion d p b e in (n, i),
  λ s. pkcs7_unpad-IsPadded d p b s.0 k s.1,
)
