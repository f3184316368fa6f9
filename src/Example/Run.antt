-- ===== src/Example/Run.antt =====
-- examples/basic/main.go: `run`, from the flags on. The loops of the login and of the listener take
-- fuel.
use wechat_bot.Base.{
  ℕ, Bool, Option, none, some, [], inl, inr, if◌then◌else◌, Str, codes, utf8, pos,
}
use wechat_bot.Client.{Client, new_client}
use wechat_bot.Config.{Config, Fresh}
use wechat_bot.Errors.{Error, errors_is, canceled, wrapped}
use wechat_bot.Example.Handler.{handler}
use wechat_bot.Example.Login.{Process, credentials}
use wechat_bot.Example.Record.{Ledger}
use wechat_bot.Listener.Env.{Action, Env, ExpiredHandler, returned}
use wechat_bot.Listener.Loop.{Callbacks, on_message, on_expired, start}
use wechat_bot.Notify.{SendEnv}
use wechat_bot.Storage.File.{Credentials, load_file_buf, save_file_buf, clear_file_buf}

-- What the program is given besides its process: the references of a new client, the operations of a
-- client's listener and of its sending, and the ledger of messages that cannot be handled. The
-- listener's storage is the file store.
pub record Program (W : Type 0) : Type 0 where
  pub process : Process W
  pub fresh : Fresh
  pub storage : ℕ
  pub logger : ℕ
  pub listening : Client → Env W
  pub sending : Client → SendEnv W
  pub ledger : Ledger W

module _ {W : Type 0} (program : Program W) where
  -- `wechat.Config{…}`; a field that is not named is zero.
  abbrev pub config_of : Credentials → Config
  config_of c = record {
    bot_token = c.bot_token;
    ilink_bot_id = c.ilink_bot_id;
    ilink_user_id = c.ilink_user_id;
    base_url = c.base_url;
    cdn_base_url = [];
    http_client = none;
    storage = some program.storage;
    logger = some program.logger;
    send_timeout = pos 0;
    media_timeout = pos 0;
    typing_timeout = pos 0;
    long_poll_timeout = pos 0;
    handler_concurrency = pos 0;
    backoff_initial = pos 0;
    backoff_max = pos 0;
    media_hosts = [];
    max_response_bytes = pos 0;
    max_media_bytes = pos 0;
    max_context_tokens = pos 0;
    empty_buf_expired_threshold = pos 0;
  }

  -- The listener's operations, with `NewFileBufStorage` for the cursor.
  abbrev pub storing : Str → Client → Env W
  storing state_dir c =
      let files = program.process.files in
      let ctx_err = program.process.ctx_err in
      record (program.listening c) {
        load_buf = load_file_buf files ctx_err state_dir;
        save_buf = save_file_buf files ctx_err state_dir;
        clear_buf = clear_file_buf files ctx_err state_dir;
      }

  -- `bot.OnExpired`, which logs
  abbrev pub log_expired : ExpiredHandler W
  log_expired bot_id s = (returned none, s)

  abbrev pub callbacks_of : Str → Client → Callbacks W
  callbacks_of state_dir c =
      on_expired
        (on_message (record { message = none; expired = none })
          (some (
            handler (record {
              send = program.sending c;
              ctx_err = program.process.ctx_err;
              ledger = program.ledger;
              dead_letter = program.process.files.join state_dir (codes "dead-letter.jsonl");
            }))))
        (some log_expired)

  -- `err != nil && !errors.Is(err, context.Canceled)`
  unfoldable pub end_of_start : Error → Option Error
  unfolding errors_is
  end_of_start e =
      if errors_is e canceled then none else some (wrapped (utf8 "监听停止（当前批次可能在重启后重放）") e)

  -- From the credentials on
  unfoldable pub serve : ℕ → Str → Credentials → Action W (Option (Option Error))
  unfolding new_client start
  serve fuel state_dir creds w =
      let (uin, w1) = program.process.generate_uin w in
      elim (new_client program.process.codec.net program.fresh uin (config_of creds) []) [
        | inl e ↦ (some (some (wrapped (utf8 "初始化客户端") e)), w1)
        | inr c ↦
            let (ended, s) =
              start (storing state_dir c) c.cfg (callbacks_of state_dir c) fuel
                (record { tokens = c.tokens; running = c.running; world = w1 }) in
            (elim ended [ none ↦ none | some e ↦ some (end_of_start e) ], s.world)
      ]

  -- `run`; `none` means that the fuel ran out.
  unfoldable pub run : ℕ → ℕ → Str → Bool → Action W (Option (Option Error))
  unfolding credentials
  run login_fuel fuel state_dir force_login w =
      let credentials_file = program.process.files.join state_dir (codes "credentials.json") in
      let (got, w1) = credentials program.process login_fuel credentials_file force_login w in
      elim got [
        | none ↦ (none, w1)
        | some (inl e) ↦ (some (if errors_is e canceled then none else some e), w1)
        | some (inr c) ↦ serve fuel state_dir c w1
      ]
