-- ===== src/Crypto/Padding.antt =====
-- crypto.go: `PKCS7Pad`, `PKCS7Unpad`, `AESECBPaddedSize`. A byte slice is a list of byte values.
pub mod RoundTrip
use wechat_bot.Base.{
  ℕ, zero, suc, ◌+◌, ◌-◌, ◌*◌, ◌/◌, ◌%◌, Bool, true, false, not, ◌||◌, Option, none, some, List, [],
  ◌∷◌, ◌++◌, length, take, drop, replicate, last?, ltb, leb, ◌==◌, if◌then◌else◌, Str,
}

-- The errors of the package; `invalid_key_size` is the one of `aes.NewCipher`.
pub data CryptoError : Type 0 where
  invalid_block_size invalid_padding invalid_key_size : CryptoError

pub data Result {ℓ} (A : Type ℓ) : Type ℓ where
  ok : A → Result A
  err : CryptoError → Result A

infixl 5 ◌>>=◌
abbrev pub ◌>>=◌ {ℓ κ} : {A : Type ℓ} {B : Type κ} → Result A → (A → Result B) → Result B
ok a >>= f = f a
err e >>= f = err e

-- `aes.BlockSize`
abbrev pub aes_block_size : ℕ
aes_block_size = 16

-- `byte(n)`
abbrev pub to_byte : ℕ → ℕ
to_byte n = n % 256

-- A block size that is not positive is 0, which takes the same branch. The loop writes
-- `byte(padLen)` at every index from `len(data)` on; `copy` fills those below.
unfoldable pub pkcs7_pad : Str → ℕ → Result Str
pkcs7_pad data_in block_size =
    if block_size == 0 || ltb 255 block_size
    then err invalid_block_size
    else let pad_len = block_size - length data_in % block_size in
      ok (data_in ++ replicate pad_len (to_byte pad_len))

-- The loop of `PKCS7Unpad` over the bytes from `len(data) - padLen` on.
unfoldable pub all_equal : ℕ → Str → Bool
all_equal b [] = true
all_equal b (x ∷ xs) = let rest = all_equal b xs in if not (x == b) then false else rest

-- What `PKCS7Unpad` does once the length has been checked, at the value of the last byte.
unfoldable pub strip_padding : Str → ℕ → ℕ → Result Str
unfolding all_equal
strip_padding data_in block_size pad_len =
    if pad_len == 0 || ltb block_size pad_len || ltb (length data_in) pad_len
    then err invalid_padding
    else let kept = length data_in - pad_len in
      if all_equal (to_byte pad_len) (drop kept data_in)
      then ok (take kept data_in)
      else err invalid_padding

-- `len(data) == 0` is the case of `last?` with no byte.
unfoldable pub pkcs7_unpad : Str → ℕ → Result Str
unfolding strip_padding
pkcs7_unpad data_in block_size =
    if block_size == 0 || ltb 255 block_size then err invalid_block_size else elim (last? data_in) [
      | none ↦ err invalid_padding
      | some b ↦
          if not (length data_in % block_size == 0)
          then err invalid_block_size
          else strip_padding data_in block_size b
    ]

unfoldable pub aes_ecb_padded_size : ℕ → ℕ
aes_ecb_padded_size plaintext_size = (plaintext_size / aes_block_size + 1) * aes_block_size
