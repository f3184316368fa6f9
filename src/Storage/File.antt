-- ===== src/Storage/File.antt =====
-- storage.go: `writePrivateFile`, the file store and the credentials file, over the operations of
-- `os`. `W` is the state of the file system and of the context.
pub mod Atomic
pub mod Reload
pub mod Utf8
use wechat_bot.Base.{
  ℕ, Bool, true, false, ◌||◌, Option, none, some, List, [], ◌∷◌, ◌⊎◌, inl, inr, if◌then◌else◌, Str,
  codes, is_empty,
}
use wechat_bot.Errors.{Error, err_credentials_required}
use wechat_bot.Listener.Env.{Action}
use wechat_bot.Storage.Path.{path_for_account}

pub record Credentials : Type 0 where
  pub bot_token : Str
  pub ilink_bot_id : Str
  pub base_url : Str
  pub ilink_user_id : Str

-- `os`, `path/filepath` and `encoding/json`; an open file goes by its name. The modes
-- 0600 and 0700 are 384 and 448.
pub record Files (W : Type 0) : Type 0 where
  pub join : Str → Str → Str
  pub dir : Str → Str
  pub mkdir_all : Str → ℕ → Action W (Option Error)
  pub create_temp : Str → Str → Action W (Error ⊎ Str)
  pub chmod : Str → ℕ → Action W (Option Error)
  pub write : Str → Str → Action W (Option Error)
  pub sync : Str → Action W (Option Error)
  pub close : Str → Action W (Option Error)
  pub rename : Str → Str → Action W (Option Error)
  pub remove : Str → Action W (Option Error)
  pub read_file : Str → Action W (Error ⊎ Str)
  -- `errors.Is(err, os.ErrNotExist)`
  pub is_not_exist : Error → Bool
  pub encode_buf : Str → Error ⊎ Str
  pub decode_buf : Str → Error ⊎ Str
  pub encode_credentials : Credentials → Error ⊎ Str
  pub decode_credentials : Str → Error ⊎ Credentials

module _ {W : Type 0} (fs : Files W) (ctx_err : Action W (Option Error)) where
  -- `_ = tmp.Close()` before the error is returned.
  unfoldable pub close_after : Str → Error → Action W (Option Error)
  close_after tmp e w = (some e, (fs.close tmp w).1)

  -- From the sync of the temporary file to its renaming.
  unfoldable pub publish : Str → Str → Action W (Option Error)
  publish tmp path w =
      let (unsynced, w1) = fs.sync tmp w in
      elim unsynced [
        | some e ↦ close_after tmp e w1
        | none ↦
            let (unclosed, w2) = fs.close tmp w1 in
            elim unclosed [
              | some e ↦ (some e, w2)
              | none ↦
                  let (cancelled, w3) = ctx_err w2 in
                  elim cancelled [ some e ↦ (some e, w3) | none ↦ fs.rename tmp path w3 ]
            ]
      ]

  -- What is done with the temporary file.
  unfoldable pub fill_temp : Str → Str → Str → Action W (Option Error)
  fill_temp tmp path bytes w =
      let (refused, w1) = fs.chmod tmp 384 w in
      elim refused [
        | some e ↦ close_after tmp e w1
        | none ↦
            let (unwritten, w2) = fs.write tmp bytes w1 in
            elim unwritten [ some e ↦ close_after tmp e w2 | none ↦ publish tmp path w2 ]
      ]

  -- `defer func() { _ = os.Remove(tmp.Name()) }()`
  unfoldable pub remove_temp : Str → Option Error × W → Option Error × W
  remove_temp tmp (result, w) = (result, (fs.remove tmp w).1)

  unfoldable pub write_private_file : Str → Str → Action W (Option Error)
  write_private_file path bytes w =
      let (cancelled, w1) = ctx_err w in
      elim cancelled [
        | some e ↦ (some e, w1)
        | none ↦
            let (unmade, w2) = fs.mkdir_all (fs.dir path) 448 w1 in
            elim unmade [
              | some e ↦ (some e, w2)
              | none ↦
                  let (created, w3) = fs.create_temp (fs.dir path) (codes ".wechat-*") w2 in
                  elim created [
                    | inl e ↦ (some e, w3)
                    | inr tmp ↦ remove_temp tmp (fill_temp tmp path bytes w3)
                  ]
            ]
      ]

  -- `FileBufStorage` with its base directory; the mutex makes each method one step.
  module _ (base_dir : Str) where
    abbrev pub path_of : Str → Str
    path_of = path_for_account fs.join base_dir

    unfoldable pub load_file_buf : Str → Action W (Error ⊎ Str)
    load_file_buf account w =
        let (cancelled, w1) = ctx_err w in
        elim cancelled [
          | some e ↦ (inl e, w1)
          | none ↦
              let (found, w2) = fs.read_file (path_of account) w1 in
              elim found [
                | inl e ↦ (if fs.is_not_exist e then inr [] else inl e, w2)
                | inr bytes ↦ (fs.decode_buf bytes, w2)
              ]
        ]

    unfoldable pub save_file_buf : Str → Str → Action W (Option Error)
    save_file_buf account buf w =
        let (cancelled, w1) = ctx_err w in
        elim cancelled [
          | some e ↦ (some e, w1)
          | none ↦ elim (fs.encode_buf buf) [
            | inl e ↦ (some e, w1)
            | inr bytes ↦ write_private_file (path_of account) bytes w1
          ]
        ]

    unfoldable pub clear_file_buf : Str → Action W (Option Error)
    clear_file_buf account w =
        let (cancelled, w1) = ctx_err w in
        elim cancelled [
          | some e ↦ (some e, w1)
          | none ↦
              let (failed, w2) = fs.remove (path_of account) w1 in
              elim failed [
                | none ↦ (none, w2)
                | some e ↦ (if fs.is_not_exist e then none else some e, w2)
              ]
        ]

module _ {W : Type 0} (fs : Files W) where
  abbrev pub is_incomplete : Credentials → Bool
  is_incomplete c = is_empty c.bot_token || is_empty c.ilink_bot_id

  -- `context.Background()` is never cancelled; a nil pointer is `none`.
  unfoldable pub save_credentials : Str → Option Credentials → Action W (Option Error)
  save_credentials path none w = (some err_credentials_required, w)
  save_credentials path (some c) w =
      if is_incomplete c
      then (some err_credentials_required, w)
      else elim (fs.encode_credentials c) [
        | inl e ↦ (some e, w)
        | inr bytes ↦ write_private_file fs (λ v. (none, v)) path bytes w
      ]

  unfoldable pub load_credentials : Str → Action W (Error ⊎ Option Credentials)
  load_credentials path w =
      let (found, w1) = fs.read_file path w in
      elim found [
        | inl e ↦ (if fs.is_not_exist e then inr none else inl e, w1)
        | inr bytes ↦ elim (fs.decode_credentials bytes) [
          | inl e ↦ (inl e, w1)
          | inr c ↦ (if is_incomplete c then inl err_credentials_required else inr (some c), w1)
        ]
      ]
