-- ===== src/Example/Record.antt =====
-- examples/basic/main.go: `permanent` and `record`. `W` is the state of the file system.
use wechat_bot.Base.{
  ℕ, ◌++◌, Bool, true, false, not, ◌&&◌, ◌||◌, Option, none, some, [], ◌∷◌, ◌⊎◌, inl, inr, Str, ℤ,
  pos, leb_ℤ, ltb_ℤ, eqb_ℤ, if◌then◌else◌,
}
use wechat_bot.Errors.{
  Error, errors_is, http_status, empty_message, no_media_info, invalid_padding, invalid_block_size,
  media_too_large, blocked_url,
}
use wechat_bot.Io.{Io, ◌>>=◌, ◌>>◌, lift}
use wechat_bot.Listener.Env.{Action}
use wechat_bot.Storage.File.{Files}
use wechat_bot.Types.{InboundMessage}

-- The first `switch`
unfoldable pub is_hopeless : Error → Bool
unfolding errors_is
is_hopeless e =
    errors_is e empty_message
    || errors_is e no_media_info
    || errors_is e invalid_padding
    || errors_is e invalid_block_size
    || errors_is e media_too_large
    || errors_is e blocked_url

-- A status from 400 to 499, but 408 and 429
unfoldable pub is_client_fault : ℤ → Bool
is_client_fault status =
    leb_ℤ (pos 400) status
    && ltb_ℤ status (pos 500)
    && not (eqb_ℤ status (pos 408))
    && not (eqb_ℤ status (pos 429))

unfoldable pub permanent : Error → Bool
unfolding http_status is_hopeless is_client_fault
permanent e =
    if is_hopeless e
    then true
    else elim (http_status e) [ none ↦ false | some status ↦ is_client_fault status ]

-- The map that `record` encodes; the encoding writes the text of the error.
pub record DeadLetter : Type 0 where
  pub time : Str
  pub message_id : Str
  pub from : Str
  pub item_type : ℤ
  pub error : Error
  pub raw : Str

-- The operations of `os` on files, `os.OpenFile` for appending with the mode of a new file,
-- `time.Now().Format`, and `json.Marshal`; an open file goes by a name.
pub record Ledger (W : Type 0) : Type 0 where
  pub files : Files W
  pub open_append : Str → ℕ → Action W (Error ⊎ Str)
  pub now : Action W Str
  pub encode : DeadLetter → Error ⊎ Str

module _ {W : Type 0} (ledger : Ledger W) where
  -- `_ = file.Close()` before the error is returned.
  unfoldable pub or_close : Str → Action W (Option Error) → Io W (Unit {0})
  or_close file op w =
      let (failed, w1) = op w in
      elim failed [ some e ↦ (inl e, (ledger.files.close file w1).1) | none ↦ (inr tt, w1) ]

  -- The last operation, whose error is that of the whole.
  abbrev pub last : Action W (Option Error) → Io W (Unit {0})
  last op w = let (failed, w1) = op w in (elim failed [ some e ↦ inl e | none ↦ inr tt ], w1)

  -- From the opened file on
  unfoldable pub append_entry : Str → Str → Io W (Unit {0})
  append_entry file entry = do
    or_close file (ledger.files.write file (entry ++ b'\n' ∷ []))
    or_close file (ledger.files.sync file)
    last (ledger.files.close file)

  abbrev pub now : Io W Str
  now w = let (t, w1) = ledger.now w in (inr t, w1)

  abbrev pub letter : Str → InboundMessage → Error → DeadLetter
  letter time m cause = record {
    time = time;
    message_id = m.message_id;
    from = m.from_user_id;
    item_type = m.item_type;
    error = cause;
    raw = m.raw_message;
  }

  -- `record`; the modes 0700 and 0600 are 448 and 384.
  unfoldable pub record_message : Str → InboundMessage → Error → Io W (Unit {0})
  record_message path m cause = do
    time ← now
    entry ← lift (ledger.encode (letter time m cause))
    last (ledger.files.mkdir_all (ledger.files.dir path) 448)
    file ← ledger.open_append path 384
    append_entry file entry
