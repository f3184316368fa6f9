-- ===== src/Crypto/Random.antt =====
-- crypto.go: `GenerateRandomBytes`, `GenerateUUID` and `GenerateUIN`. `read_full` is `io.ReadFull` on
-- the random source: the buffer as it is left, and the error.
use wechat_bot.Base.{
  ℕ, ◌+◌, ◌*◌, ◌%◌, Option, none, some, [], ◌∷◌, ◌++◌, inl, inr, take, drop, if◌then◌else◌, Str,
  codes, ℤ, pos, pos_part, ltb_ℤ, format_uint,
}
use wechat_bot.Crypto.Hex.{hex_encode}
use wechat_bot.Errors.{Error, message, wrapped}
use wechat_bot.Io.{Io}
use wechat_bot.Listener.Env.{Action}

-- `x & 0x0f | 0x40` and `y & 0x3f | 0x80` at bytes 6 and 8
unfoldable pub mark_version : Str → Str
mark_version (a ∷ b ∷ c ∷ d ∷ e ∷ f ∷ x ∷ g ∷ y ∷ rest) =
    a ∷ b ∷ c ∷ d ∷ e ∷ f ∷ (x % 16 + 64) ∷ g ∷ (y % 64 + 128) ∷ rest
mark_version short = short

-- The format `%08x-%04x-%04x-%04x-%012x` on the parts of an array of 16 bytes.
unfoldable pub format_uuid : Str → Str
unfolding hex_encode
format_uuid uuid =
    hex_encode (take 4 uuid)
    ++ b'-' ∷ hex_encode (take 2 (drop 4 uuid))
    ++ b'-' ∷ hex_encode (take 2 (drop 6 uuid))
    ++ b'-' ∷ hex_encode (take 2 (drop 8 uuid))
    ++ b'-' ∷ hex_encode (drop 10 uuid)

-- A `uint32` from its bytes in little-endian order.
unfoldable pub little_endian : Str → ℕ
little_endian [] = 0
little_endian (b ∷ s) = b + 256 * little_endian s

module _ {W : Type 0} (read_full : ℕ → Action W (Str × Option Error)) where
  unfoldable pub generate_random_bytes : ℤ → Io W Str
  generate_random_bytes n w =
      if ltb_ℤ n (pos 0)
      then (inl (message (codes "random byte count must not be negative")), w)
      else let ((b, failed), w1) = read_full (pos_part n) w in
        elim failed [
          | some e ↦ (inl (wrapped (codes "generate random bytes") e), w1)
          | none ↦ (inr b, w1)
        ]

  unfoldable pub generate_uuid : Action W Str
  unfolding mark_version format_uuid
  generate_uuid w = let ((uuid, _), w1) = read_full 16 w in (format_uuid (mark_version uuid), w1)

  -- `binary.Read` leaves `n` at 0 when the source fails; `base64_encode` is `EncodeToString`.
  unfoldable pub generate_uin : (Str → Str) → Action W Str
  unfolding little_endian
  generate_uin base64_encode w =
      let ((b, failed), w1) = read_full 4 w in
      (base64_encode (format_uint (elim failed [ some e ↦ 0 | none ↦ little_endian b ])), w1)
