-- ===== src/Tests/Crypto.antt =====
-- crypto.go and listener.go's backoff: the theorems at concrete inputs. The block cipher of the
-- tests leaves a block as it is.
use wechat_bot.Base.{true, [], ◌∷◌, ◌≡◌, refl, arith, Str, codes, ℕ, ◌↔◌}
use wechat_bot.Crypto.Ecb.{Aes, AesLaws, IsBytes, aes_ecb_encrypt, aes_ecb_decrypt}
use wechat_bot.Crypto.Ecb.RoundTrip.{decrypt-encrypt}
use wechat_bot.Crypto.Padding.{pkcs7_unpad, ok, ◌>>=◌}
use wechat_bot.Crypto.Padding.RoundTrip.{IsPadded, unpad_iff}

abbrev padded_hi : Str
padded_hi = b'h' ∷ b'i' ∷ 2 ∷ 2 ∷ []

unpad_hi : pkcs7_unpad padded_hi 4 ≡ ok (codes "hi")
unfolding pkcs7_unpad
unpad_hi = refl

abbrev pub same_block : Aes
same_block = record { accepts = λ key. true; encrypt = λ key x. x; decrypt = λ key x. x }

pub same_block_laws : AesLaws same_block
same_block_laws = record { encrypt-IsBlock = λ key x h b. b; decrypt-encrypt = λ key x h b. refl }

pub hi-IsBytes : IsBytes (codes "hi")
hi-IsBytes = (omega arith, (omega arith, tt))

decrypt-encrypt_example :
    (aes_ecb_encrypt same_block (codes "hi") (codes "key") >>= λ c.
    aes_ecb_decrypt same_block c (codes "key"))
    ≡ ok (codes "hi")
decrypt-encrypt_example =
    decrypt-encrypt same_block same_block_laws (codes "key") refl (codes "hi") hi-IsBytes

unpad_iff_example :
    (pkcs7_unpad padded_hi 4 ≡ ok (codes "hi")) ↔ ((n : ℕ) × IsPadded padded_hi (codes "hi") 4 n)
unpad_iff_example = unpad_iff padded_hi (codes "hi") 4 (omega arith) (omega arith)
