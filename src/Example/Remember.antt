-- ===== src/Example/Remember.antt =====
-- examples/basic/main.go: what the program knows of its account after a login.
use wechat_bot.Base.{
  ℕ, true, false, Option, none, some, ◌⊎◌, inl, inr, Str, utf8, ◌≡◌, ap, ◌∙◌, arith, Bool-cases,
  Option-cases, Sum-cases,
}
use wechat_bot.Errors.{Error, wrapped}
use wechat_bot.Example.Login.{Process, known_credentials, keep_credentials, scan_login, credentials}
use wechat_bot.Storage.File.Utf8.{is_utf8}
use wechat_bot.Storage.File.Atomic.{FilesLaws, write_private_file_atomic}
use wechat_bot.Storage.File.{Credentials, is_incomplete, save_credentials, load_credentials}
use wechat_bot.Example.Complete.{keep_credentials_inversion, scan_login_inversion}

-- All fields are valid UTF-8.
abbrev pub IsText : Credentials → Type 0
IsText c =
    (is_utf8 c.bot_token ≡ true)
    × (is_utf8 c.ilink_bot_id ≡ true)
    × (is_utf8 c.base_url ≡ true)
    × (is_utf8 c.ilink_user_id ≡ true)

-- The file of the credentials: the laws of `os`, a read of what the file holds, which may fail but not
-- because the file does not exist, a terminal that does not touch it, and JSON that decodes what it
-- encoded, if that is valid UTF-8.
pub record AccountLaws {W : Type 0} (process : Process W) (path : Str)
    (content : W → Str → Option Str) : Type 0 where
  pub writes : FilesLaws process.files (λ v. (none, v)) path content
  pub reads :
      (bytes found : Str) (w : W)
      → content w path ≡ some bytes
      → (process.files.read_file path w).0 ≡ inr found
      → found ≡ bytes
  pub exists :
      (bytes : Str) (e : Error) (w : W)
      → content w path ≡ some bytes
      → (process.files.read_file path w).0 ≡ inl e
      → process.files.is_not_exist e ≡ false
  pub decodes :
      (c : Credentials) (bytes : Str)
      → IsText c
      → process.files.encode_credentials c ≡ inr bytes
      → process.files.decode_credentials bytes ≡ inr c
  pub print_keeps : (text : Str) (w : W) → content (process.print text w) path ≡ content w path

module _ {W : Type 0} (process : Process W) (path : Str) where
  module _ (content : W → Str → Option Str) (laws : AccountLaws process path content) where
    saved-content :
        (c : Credentials) (w : W)
        → (save_credentials process.files path (some c) w).0 ≡ none
        → (bytes : Str) × (process.files.encode_credentials c ≡ inr bytes)
          × (content (save_credentials process.files path (some c) w).1 path ≡ some bytes)
    unfolding save_credentials
    saved-content c w h =
        let ctx_err : W → Option Error × W = λ v. (none, v) in
        elim (Bool-cases (is_incomplete process.files c)) [
          | inl bad ↦ absurd (ground arith)
          | inr good ↦ elim (Sum-cases (process.files.encode_credentials c)) [
            | inl (e, bad) ↦ absurd (ground arith)
            | inr (bytes, encoded) ↦
                elim (write_private_file_atomic process.files ctx_err path content laws.writes bytes
                  w) [
                    | inr (e, failed, _) ↦ absurd (ground arith)
                    | inl (done, holds) ↦
                        (bytes, encoded, rw (good, encoded, save_credentials) holds)
                  ]
          ]
        ]

    -- What was kept is in the file.
    kept-content :
        (c : Credentials) (w : W)
        → (keep_credentials process path c w).0 ≡ inr c
        → (bytes : Str) × (process.files.encode_credentials c ≡ inr bytes)
          × (content (keep_credentials process path c w).1 path ≡ some bytes)
    unfolding keep_credentials
    kept-content c w h = elim (Option-cases (save_credentials process.files path (some c) w).0) [
      | inr (e, failed) ↦ absurd (ground arith)
      | inl saved ↦
          let (bytes, encoded, holds) = saved-content c w saved in
          (bytes, encoded, rw (saved, keep_credentials) (laws.print_keeps _ _ ∙ holds))
    ]

    kept-known :
        (c : Credentials) (w : W) (bytes : Str)
        → IsText c
        → is_incomplete process.files c ≡ false
        → process.files.encode_credentials c ≡ inr bytes
        → content w path ≡ some bytes
        → ((known_credentials process path w).0 ≡ inr (some c))
          ⊎ ((e : Error) × (e' : Error) × ((process.files.read_file path w).0 ≡ inl e)
              × ((known_credentials process path w).0 ≡ inl e'))
    unfolding known_credentials load_credentials
    kept-known c w bytes text whole encoded holds =
        elim (Sum-cases (process.files.read_file path w).0) [
          | inl (e, failed) ↦
              let there = laws.exists bytes e w holds failed in
              inr (
                e,
                wrapped (utf8 "读取凭据（使用 --login 可重新扫码）") e,
                failed,
                ground (arith, failed, there),
              )
          | inr (found, got) ↦ inl (
              ground (
                arith,
                got,
                laws.reads bytes found w holds got,
                laws.decodes c bytes text encoded,
                whole,
              ))
        ]

    -- When a forced login has ended with credentials whose fields are valid UTF-8, the next start
    -- without one goes on with the same credentials, from the file and without a login, or returns an
    -- error because the file could not be read. The laws are those of the file system, of JSON, and
    -- that the terminal does not touch the file.
    pub credentials_remembered :
        (fuel fuel' : ℕ) (c : Credentials) (w : W)
        → IsText c
        → (credentials process fuel path true w).0 ≡ some (inr c)
        → ((credentials process fuel' path false (credentials process fuel path true w).1).0
            ≡ some (inr c))
          ⊎ ((e : Error) × (e' : Error) × ((process.files.read_file path
                  (credentials process fuel path true w).1).0
                ≡ inl e)
              × ((credentials process fuel' path false (credentials process fuel path true w).1).0
                  ≡ some (inl e')))
    unfolding credentials
    credentials_remembered fuel fuel' c w text h =
        let (w', kept, same) = scan_login_inversion process path fuel c w h in
        let (bytes, encoded, holds) = kept-content c w' kept in
        let there = ap (λ v. content v path) same ∙ holds in
        elim (kept-known c (scan_login process fuel path w).1 bytes text
          (keep_credentials_inversion process path c c w' kept).1 encoded there) [
            | inl known ↦ inl (rw (known, credentials))
            | inr (e, e', failed, told) ↦ inr (e, e', failed, rw (told, credentials))
          ]
