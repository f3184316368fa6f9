-- ===== src/Crypto/Ecb/RoundTrip.antt =====
-- crypto.go: decryption after encryption, and the sizes of the two sides.
use wechat_bot.Base.{
  ℕ, zero, suc, ◌+◌, ◌*◌, ◌/◌, ◌%◌, ◌≤◌, ◌<◌, true, false, [], ◌∷◌, ◌++◌, ◌≡◌, refl, arith, length,
  take, drop, replicate, ◌==◌, Str, All-append, length-append, length-replicate, length-take,
  length-drop, take-append, drop-append, take-append-drop,
}
use wechat_bot.Crypto.Padding.{ok, ◌>>=◌, aes_block_size, to_byte, pkcs7_pad, aes_ecb_padded_size}
use wechat_bot.Crypto.Padding.RoundTrip.{unpad-pad, pad_len}
use wechat_bot.Crypto.Ecb.{
  Aes, AesLaws, IsBytes, IsBlock, map_blocks, aes_ecb_encrypt, aes_ecb_decrypt,
}

take-IsBytes : (n : ℕ) (xs : Str) → IsBytes xs → IsBytes (take n xs)
take-IsBytes zero xs h = tt
take-IsBytes (suc n) [] h = tt
take-IsBytes (suc n) (x ∷ xs) h = (h.0, take-IsBytes n xs h.1)

drop-IsBytes : (n : ℕ) (xs : Str) → IsBytes xs → IsBytes (drop n xs)
drop-IsBytes zero xs h = h
drop-IsBytes (suc n) [] h = tt
drop-IsBytes (suc n) (x ∷ xs) h = drop-IsBytes n xs h.1

replicate-IsBytes : (n b : ℕ) → b < 256 → IsBytes (replicate n b)
replicate-IsBytes zero b h = tt
replicate-IsBytes (suc n) b h = (h, replicate-IsBytes n b h)

-- The input is `n` whole blocks.
abbrev IsBlocks : ℕ → Str → Type 0
IsBlocks n xs = (length xs ≡ 16 * n) × IsBytes xs

first-IsBlock : (n : ℕ) (xs : Str) → IsBlocks (suc n) xs → IsBlock (take 16 xs)
first-IsBlock n xs h = (omega (arith, length-take 16 xs, h.0), take-IsBytes 16 xs h.1)

rest-IsBlocks : (n : ℕ) (xs : Str) → IsBlocks (suc n) xs → IsBlocks n (drop 16 xs)
rest-IsBlocks n xs h = (omega (arith, length-drop 16 xs, h.0), drop-IsBytes 16 xs h.1)

length-map_blocks :
    (f : Str → Str)
    → ((x : Str) → IsBlock x → IsBlock (f x))
    → (n : ℕ) (xs : Str) → IsBlocks n xs
    → length (map_blocks f n xs) ≡ 16 * n
unfolding map_blocks
length-map_blocks f keeps zero xs h = omega arith
length-map_blocks f keeps (suc n) xs h = omega (
  arith,
  length-append (f (take 16 xs)) (map_blocks f n (drop 16 xs)),
  (keeps _ (first-IsBlock n xs h)).0,
  length-map_blocks f keeps n (drop 16 xs) (rest-IsBlocks n xs h),
)

take_block : (x ys : Str) → length x ≡ 16 → take 16 (x ++ ys) ≡ x
take_block x ys h = rw (← h) (take-append x ys)

drop_block : (x ys : Str) → length x ≡ 16 → drop 16 (x ++ ys) ≡ ys
drop_block x ys h = rw (← h) (drop-append x ys)

map_blocks_inverse :
    (f g : Str → Str)
    → ((x : Str) → IsBlock x → IsBlock (f x))
    → ((x : Str) → IsBlock x → g (f x) ≡ x)
    → (n : ℕ) (xs : Str) → IsBlocks n xs
    → map_blocks g n (map_blocks f n xs) ≡ xs
unfolding map_blocks
map_blocks_inverse f g keeps inverse zero [] h = refl
map_blocks_inverse f g keeps inverse zero (x ∷ xs) h = absurd (omega (arith, h.0))
map_blocks_inverse f g keeps inverse (suc n) xs h =
    let block = first-IsBlock n xs h in
    let sealed = f (take 16 xs) in
    let rest = map_blocks f n (drop 16 xs) in
    let long = (keeps (take 16 xs) block).0 in
    rw
      (
        take_block sealed rest long,
        drop_block sealed rest long,
        inverse (take 16 xs) block,
        map_blocks_inverse f g keeps inverse n (drop 16 xs) (rest-IsBlocks n xs h),
      )
      (take-append-drop 16 xs)

-- The padded plaintext is a whole number of blocks, one at least.
abbrev pub blocks : Str → ℕ
blocks d = length d / 16 + 1

abbrev padded : Str → Str
padded d = d ++ replicate (pad_len (length d) 16) (to_byte (pad_len (length d) 16))

pad-padded : (d : Str) → pkcs7_pad d 16 ≡ ok (padded d)
unfolding pkcs7_pad
pad-padded d = refl

padded-IsBlocks : (d : Str) → IsBytes d → IsBlocks (blocks d) (padded d)
padded-IsBlocks d h = (
  omega (
    arith,
    length-append d (replicate (pad_len (length d) 16) (to_byte (pad_len (length d) 16))),
    length-replicate (pad_len (length d) 16) (to_byte (pad_len (length d) 16)),
  ),
  All-append (λ x. x < 256) d _ h
      (replicate-IsBytes (pad_len (length d) 16) (to_byte (pad_len (length d) 16)) (omega arith)),
)

module _ (aes : Aes) (laws : AesLaws aes) (key : Str) (accepted : aes.accepts key ≡ true) where
  encrypt-blocks :
      (d : Str)
      → IsBytes d
      → aes_ecb_encrypt aes d key ≡ ok (map_blocks (aes.encrypt key) (blocks d) (padded d))
  unfolding aes_ecb_encrypt
  encrypt-blocks d h =
      let whole : length (padded d) / 16 ≡ blocks d = omega (arith, (padded-IsBlocks d h).0) in
      rw (accepted, pad-padded d, whole)

  sealed-length :
      (d : Str)
      → IsBytes d
      → length (map_blocks (aes.encrypt key) (blocks d) (padded d)) ≡ 16 * blocks d
  sealed-length d h =
      length-map_blocks (aes.encrypt key) (λ x b. laws.encrypt-IsBlock key x accepted b) (blocks d)
        (padded d) (padded-IsBlocks d h)

  -- Under a key that the cipher accepts, encrypting any bytes succeeds, and decrypting the result
  -- under the same key gives those bytes back.
  pub decrypt-encrypt :
      (d : Str) → IsBytes d → (aes_ecb_encrypt aes d key >>= λ c. aes_ecb_decrypt aes c key) ≡ ok d
  unfolding aes_ecb_decrypt
  decrypt-encrypt d h =
      let long = sealed-length d h in
      let sealed = map_blocks (aes.encrypt key) (blocks d) (padded d) in
      let whole : length sealed / 16 ≡ blocks d = omega (arith, long) in
      let some_block : (length sealed == 0) ≡ false = ground (arith, long) in
      let aligned : (length sealed % 16 == 0) ≡ true = ground (arith, long) in
      let opened =
        map_blocks_inverse (aes.encrypt key) (aes.decrypt key)
          (λ x b. laws.encrypt-IsBlock key x accepted b)
          (λ x b. laws.decrypt-encrypt key x accepted b) (blocks d) (padded d)
          (padded-IsBlocks d h) in
      rw (encrypt-blocks d h, accepted, some_block, aligned, whole, opened)
        (rw (pad-padded d) at (unpad-pad d 16 (omega arith) (omega arith)))

  -- The ciphertext of any bytes has the size that `AESECBPaddedSize` announces: a multiple of the
  -- block size, larger than the plaintext by one to sixteen bytes.
  pub length-encrypt :
      (d : Str)
      → IsBytes d
      → (c : Str) × (aes_ecb_encrypt aes d key ≡ ok c)
        × (length c ≡ aes_ecb_padded_size (length d))
        × (length c % aes_block_size ≡ 0)
        × (length d < length c)
        × (length c ≤ length d + aes_block_size)
  unfolding aes_ecb_padded_size
  length-encrypt d h =
      let long = sealed-length d h in
      (
        map_blocks (aes.encrypt key) (blocks d) (padded d),
        encrypt-blocks d h,
        omega (arith, long),
        omega (arith, long),
        omega (arith, long),
        omega (arith, long),
      )
