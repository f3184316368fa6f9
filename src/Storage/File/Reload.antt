-- ===== src/Storage/File/Reload.antt =====
-- storage.go: what `FileBufStorage` loads after a save.
use wechat_bot.Base.{
  Option, none, some, true, false, ◌⊎◌, inl, inr, Str, ◌≡◌, ◌∙◌, arith, Option-cases, Sum-cases,
}
use wechat_bot.Errors.{Error}
use wechat_bot.Listener.Env.{Action}
use wechat_bot.Storage.File.{Files, path_of, load_file_buf, save_file_buf}
use wechat_bot.Storage.File.Utf8.{is_utf8}
use wechat_bot.Storage.File.Atomic.{FilesLaws, write_private_file_atomic}

-- `os.ReadFile` of a file that exists reads what it holds or fails, but not because the file does not
-- exist, and JSON decodes a string that it encoded, if that is valid UTF-8.
pub record ReadLaws {W : Type 0} (fs : Files W) (path : Str) (content : W → Str → Option Str)
    : Type 0 where
  pub reads :
      (bytes found : Str) (w : W)
      → content w path ≡ some bytes
      → (fs.read_file path w).0 ≡ inr found
      → found ≡ bytes
  pub exists :
      (bytes : Str) (e : Error) (w : W)
      → content w path ≡ some bytes
      → (fs.read_file path w).0 ≡ inl e
      → fs.is_not_exist e ≡ false
  pub decodes :
      (buf bytes : Str)
      → is_utf8 buf ≡ true
      → fs.encode_buf buf ≡ inr bytes
      → fs.decode_buf bytes ≡ inr buf

module _ {W : Type 0} (fs : Files W) (ctx_err : Action W (Option Error)) (base_dir account : Str)
    (content : W → Str → Option Str)
    (laws : FilesLaws fs ctx_err (path_of fs ctx_err base_dir account) content)
    (read : ReadLaws fs (path_of fs ctx_err base_dir account) content) where
  -- A successful save left the encoded cursor in the account's file.
  saved :
      (buf : Str) (w : W)
      → (save_file_buf fs ctx_err base_dir account buf w).0 ≡ none
      → (bytes : Str) × (fs.encode_buf buf ≡ inr bytes)
        × (content
              (save_file_buf fs ctx_err base_dir account buf w).1
              (path_of fs ctx_err base_dir account)
            ≡ some bytes)
  unfolding save_file_buf
  saved buf w h =
      let path = path_of fs ctx_err base_dir account in
      let w1 = (ctx_err w).1 in
      elim (Option-cases (ctx_err w).0) [
        | inr (e, cancelled) ↦ absurd (ground arith)
        | inl live ↦ elim (Sum-cases (fs.encode_buf buf)) [
          | inl (e, bad) ↦ absurd (ground arith)
          | inr (bytes, good) ↦
              elim (write_private_file_atomic fs ctx_err path content laws bytes w1) [
                | inl (done, holds) ↦ (bytes, good, rw (live, good, save_file_buf) holds)
                | inr (e, failed, _) ↦ absurd (ground arith)
              ]
        ]
      ]

  -- After a successful save of an account's cursor that is valid UTF-8, a load of that account that is
  -- not cancelled gives the cursor back, or returns the error with which the file could not be read;
  -- it never takes the cursor for an empty one.
  pub load_file_buf-save_file_buf :
      (buf : Str) (w : W)
      → is_utf8 buf ≡ true
      → (save_file_buf fs ctx_err base_dir account buf w).0 ≡ none
      → (ctx_err (save_file_buf fs ctx_err base_dir account buf w).1).0 ≡ none
      → ((load_file_buf fs ctx_err base_dir account
            (save_file_buf fs ctx_err base_dir account buf w).1).0
          ≡ inr buf)
        ⊎ ((e : Error) × ((fs.read_file
                (path_of fs ctx_err base_dir account)
                (ctx_err (save_file_buf fs ctx_err base_dir account buf w).1).1).0
              ≡ inl e)
            × ((load_file_buf fs ctx_err base_dir account
                  (save_file_buf fs ctx_err base_dir account buf w).1).0
                ≡ inl e))
  unfolding load_file_buf
  load_file_buf-save_file_buf buf w text h live =
      let path = path_of fs ctx_err base_dir account in
      let w1 = (save_file_buf fs ctx_err base_dir account buf w).1 in
      let w2 = (ctx_err w1).1 in
      let (bytes, encoded, holds) = saved buf w h in
      let there : content w2 path ≡ some bytes = laws.ctx_keeps w1 path ∙ holds in
      elim (Sum-cases (fs.read_file path w2).0) [
        | inl (e, failed) ↦
            inr (e, failed, rw (live, failed, read.exists bytes e w2 there failed, load_file_buf))
        | inr (found, got) ↦ inl (
            rw (live, got, read.reads bytes found w2 there got, load_file_buf)
              (read.decodes buf bytes text encoded))
      ]
