-- ===== src/Example/Listens.antt =====
-- examples/basic/main.go: from credentials to a listener.
use wechat_bot.Base.{
  ℕ, Bool, ◌||◌, true, false, Option, none, some, [], ◌⊎◌, inl, inr, Str, codes, utf8, is_empty,
  is_empty_iff, ◌≡◌, refl, arith, Bool-cases,
}
use wechat_bot.Client.{Client, new_client, apply_options, client_of}
use wechat_bot.Client.Ready.{IsReady, new_client-IsReady}
use wechat_bot.Config.{Config, set_defaults, validate, check_base, or_text}
use wechat_bot.Errors.{Error, canceled, wrapped, errors_is}
use wechat_bot.Example.Login.{credentials}
use wechat_bot.Example.Complete.{IsComplete, credentials-IsComplete}
use wechat_bot.Example.Run.{Program, config_of, storing, callbacks_of, end_of_start, serve, run}
use wechat_bot.Listener.Env.{Sys}
use wechat_bot.Listener.Loop.{start}
use wechat_bot.Storage.File.{Credentials}

module _ {W : Type 0} (program : Program W) where
  -- The base URL of the credentials or the default, and the default CDN base URL, are accepted.
  pub record HasBases (c : Credentials) : Type 0 where
    pub base : Str
    pub base_accepted :
        check_base program.process.codec.net
          (or_text c.base_url (codes "https://ilinkai.weixin.qq.com"))
        ≡ inr base
    pub cdn_base : Str
    pub cdn_accepted :
        check_base program.process.codec.net (codes "https://novac2c.cdn.weixin.qq.com/c2c")
        ≡ inr cdn_base

  -- The configuration of the program is accepted.
  config_accepted :
      (c : Credentials)
      → (h : HasBases c)
      → validate program.process.codec.net (set_defaults program.fresh (config_of program c))
        ≡ inr (record (set_defaults program.fresh (config_of program c)) {
          base_url = h.base;
          cdn_base_url = h.cdn_base;
        })
  unfolding validate set_defaults
  config_accepted c h = rw (h.base_accepted, h.cdn_accepted, validate, set_defaults)

  -- The state in which the listener of a new client starts.
  abbrev pub ready_state : Client → W → Sys W
  ready_state client w = record { tokens = client.tokens; running = client.running; world = w }

  new_client-made :
      (c : Credentials) (uin : Str)
      → IsComplete program.process [] c
      → HasBases c
      → (client : Client) × (new_client program.process.codec.net program.fresh uin
            (config_of program c)
            []
          ≡ inr client)
        × (client.cfg.bot_token ≡ c.bot_token)
        × (client.cfg.ilink_bot_id ≡ c.ilink_bot_id)
  unfolding new_client apply_options set_defaults
  new_client-made c uin (token, bot) h =
      let given : is_empty c.bot_token || is_empty c.ilink_bot_id ≡ false =
        elim (Bool-cases (is_empty c.bot_token || is_empty c.ilink_bot_id)) [
          | inr whole ↦ whole
          | inl missing ↦
              absurd
                (ground (arith, is_empty_iff c.bot_token, is_empty_iff c.ilink_bot_id, token, bot))
        ] in
      let accepted : Config = record (set_defaults program.fresh (config_of program c)) {
        base_url = h.base;
        cdn_base_url = h.cdn_base;
      } in
      (
        client_of program.process.codec.net uin accepted,
        rw (given, config_accepted c h, new_client, apply_options),
        refl,
        refl,
      )

  -- What `run` returns, by what `Start` did: nothing yet, nil, or the error with its text around it.
  abbrev pub EndsWith : Option Error → Option (Option Error) → Type 0
  EndsWith ended result =
      ((ended ≡ none) × (result ≡ none))
      ⊎ ((e : Error) × (ended ≡ some e)
          × (((errors_is e canceled ≡ true) × (result ≡ some none))
              ⊎ ((errors_is e canceled ≡ false)
                  × (result ≡ some (some (wrapped (utf8 "监听停止（当前批次可能在重启后重放）") e))))))

  end_of_start-EndsWith :
      (ended : Option Error) (result : Option (Option Error))
      → result ≡ (elim ended as (λ x. Option (Option Error)) [
        | none ↦ none
        | some e ↦ some (end_of_start program e)
      ])
      → EndsWith ended result
  unfolding end_of_start
  end_of_start-EndsWith none result h = inl (refl, h)
  end_of_start-EndsWith (some e) result h = inr (
    e,
    refl,
    elim (Bool-cases (errors_is e canceled)) [
      | inl stopped ↦ inl (stopped, rw (stopped, end_of_start) at h)
      | inr other ↦ inr (other, rw (other, end_of_start) at h)
    ],
  )

  -- Once the program has credentials, if their base URL, or the default one where they have none, and
  -- the default CDN base URL are accepted, it makes a client that is ready and stands for their account
  -- and calls its `Start`. If `Start` returns an error that is `context.Canceled` by `errors.Is`, `run`
  -- returns nil; if it returns another error, `run` returns this error wrapped; and `run` goes on as
  -- long as `Start` does.
  pub run_listens :
      (login_fuel fuel : ℕ) (state_dir : Str) (force_login : Bool) (c : Credentials) (w : W)
      → (credentials program.process login_fuel
          (program.process.files.join state_dir (codes "credentials.json"))
          force_login
          w).0
        ≡ some (inr c)
      → HasBases c
      → (client : Client) × (w' : W) × IsReady program.process.codec.net client
        × (client.cfg.bot_token ≡ c.bot_token)
        × (client.cfg.ilink_bot_id ≡ c.ilink_bot_id)
        × EndsWith
            (start
              (storing program state_dir client)
              client.cfg
              (callbacks_of program state_dir client)
              fuel
              (ready_state client w')).0
            (run program login_fuel fuel state_dir force_login w).0
  unfolding run serve
  run_listens login_fuel fuel state_dir force_login c w got h =
      let file = program.process.files.join state_dir (codes "credentials.json") in
      let known = credentials program.process login_fuel file force_login w in
      let (uin, w') = program.process.generate_uin known.1 in
      let complete = credentials-IsComplete program.process file login_fuel force_login c w got in
      let (client, made, token, bot) = new_client-made c uin complete h in
      let (ready, unused) =
        new_client-IsReady program.process.codec.net program.fresh uin (config_of program c) []
          client made in
      (client, w', ready, token, bot, end_of_start-EndsWith _ _ (rw (got, made, run, serve)))
