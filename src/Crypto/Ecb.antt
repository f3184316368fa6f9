-- ===== src/Crypto/Ecb.antt =====
-- crypto.go: `AESECBEncrypt` and `AESECBDecrypt`.
pub mod RoundTrip
use wechat_bot.Base.{
  ℕ, zero, suc, ◌/◌, ◌%◌, ◌<◌, Bool, true, false, not, ◌||◌, List, [], ◌∷◌, ◌++◌, ◌≡◌, length, take,
  drop, ◌==◌, if◌then◌else◌, Str, All,
}
use wechat_bot.Crypto.Padding.{
  invalid_block_size, invalid_key_size, Result, ok, err, ◌>>=◌, aes_block_size, pkcs7_pad,
  pkcs7_unpad,
}

-- `crypto/aes`: the keys that `aes.NewCipher` accepts, and the two directions on one block.
pub record Aes : Type 0 where
  pub accepts : Str → Bool
  pub encrypt : Str → Str → Str
  pub decrypt : Str → Str → Str

abbrev pub IsBytes : Str → Type 0
IsBytes = All (λ x. x < 256)

abbrev pub IsBlock : Str → Type 0
IsBlock x = (length x ≡ aes_block_size) × IsBytes x

-- What the documentation of `cipher.Block` promises: a block is mapped to a block, and `Decrypt`
-- undoes `Encrypt` under the same key.
pub record AesLaws (aes : Aes) : Type 0 where
  pub encrypt-IsBlock :
      (key x : Str) → aes.accepts key ≡ true → IsBlock x → IsBlock (aes.encrypt key x)
  pub decrypt-encrypt :
      (key x : Str) → aes.accepts key ≡ true → IsBlock x → aes.decrypt key (aes.encrypt key x) ≡ x

-- `for i := 0; i < len(src); i += aes.BlockSize`, as a recursion on the blocks left.
unfoldable pub map_blocks : (Str → Str) → ℕ → Str → Str
map_blocks f zero src = []
map_blocks f (suc n) src = f (take aes_block_size src) ++ map_blocks f n (drop aes_block_size src)

module _ (aes : Aes) where
  unfoldable pub aes_ecb_encrypt : Str → Str → Result Str
  aes_ecb_encrypt plaintext key = if not (aes.accepts key) then err invalid_key_size else (do
    padded ← pkcs7_pad plaintext aes_block_size
    ok (map_blocks (aes.encrypt key) (length padded / aes_block_size) padded))

  unfoldable pub aes_ecb_decrypt : Str → Str → Result Str
  aes_ecb_decrypt ciphertext key =
      if not (aes.accepts key)
      then err invalid_key_size
      else if length ciphertext == 0 || not (length ciphertext % aes_block_size == 0)
      then err invalid_block_size
      else pkcs7_unpad
          (map_blocks (aes.decrypt key) (length ciphertext / aes_block_size) ciphertext)
          aes_block_size
