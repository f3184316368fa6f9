-- ===== src/Cdn/Transfer/Keys.antt =====
-- cdn.go: the keys that `imageAESKey` reads.
use wechat_bot.Base.{
  true, false, [], ◌⊎◌, inl, inr, length, ◌==◌, Str, is_empty, is_empty_iff, ◌≡◌, arith, Bool-cases,
  Option-cases,
}
use wechat_bot.Cdn.Download.{image_aes_key}
use wechat_bot.Cdn.Transfer.{MediaEnv}
use wechat_bot.Crypto.Hex.{hex_decode, length-hex_decode}
use wechat_bot.Crypto.Padding.{aes_block_size}
use wechat_bot.Types.{MediaInfo, ImageItem}

module _ {W : Type 0} (env : MediaEnv W) (img : ImageItem) (media : MediaInfo) (key : Str) where
  from_item :
      is_empty img.aes_key ≡ false
      → image_aes_key env img media ≡ inr key
      → length key ≡ aes_block_size
  unfolding image_aes_key
  from_item named h = elim (Option-cases (hex_decode img.aes_key)) [
    | inl bad ↦ absurd (ground arith)
    | inr (k, good) ↦ ground arith
  ]

  from_media :
      is_empty img.aes_key ≡ true
      → is_empty media.aes_key ≡ false
      → image_aes_key env img media ≡ inr key
      → length key ≡ aes_block_size
  unfolding image_aes_key
  from_media bare named h = elim (Option-cases (env.base64_decode media.aes_key)) [
    | inl bad ↦ absurd (ground arith)
    | inr (raw, good) ↦ elim (Bool-cases (length raw == 16)) [
      | inl whole ↦ ground arith
      | inr other ↦ elim (Option-cases (hex_decode raw)) [
        | inl bad ↦ absurd (ground arith)
        | inr (k, read) ↦ ground (arith, length-hex_decode raw k read)
      ]
    ]
  ]

  -- A key that is read has the length of an AES-128 key, and an image is taken for plaintext only if
  -- neither the item nor its media names a key.
  pub image_aes_key-length :
      image_aes_key env img media ≡ inr key
      → (length key ≡ aes_block_size) ⊎ ((key ≡ []) × (img.aes_key ≡ []) × (media.aes_key ≡ []))
  unfolding image_aes_key
  image_aes_key-length h = elim (Bool-cases (is_empty img.aes_key)) [
    | inr named ↦ inl (from_item named h)
    | inl bare ↦ elim (Bool-cases (is_empty media.aes_key)) [
      | inr named ↦ inl (from_media bare named h)
      | inl empty ↦
          let none_read : key ≡ [] = ground arith in
          inr (none_read, (is_empty_iff img.aes_key).0 bare, (is_empty_iff media.aes_key).0 empty)
    ]
  ]
