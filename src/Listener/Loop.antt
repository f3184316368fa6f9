-- ===== src/Listener/Loop.antt =====
-- listener.go: `OnMessage`, `OnExpired` and `Start`. One iteration of the loop of `Start` is a
-- function of the loop's variables and the state; the loop itself takes fuel.
pub mod Iteration
pub mod Commit
pub mod Delivery
pub mod Recovery
use wechat_bot.Base.{
  ℕ, zero, suc, ◌+◌, Bool, true, false, not, ◌&&◌, ◌||◌, Option, none, some, List, [], ◌∷◌, ◌⊎◌,
  inl, inr, leb, if◌then◌else◌, Str, codes, str_eq, is_empty, ℤ, pos, pos_part, leb_ℤ, eqb_ℤ,
}
use wechat_bot.Config.{Config}
use wechat_bot.Errors.{
  Error, err_already_started, err_no_message_handler, err_token_revoked, wrapped, joined,
}
use wechat_bot.Http.{version}
use wechat_bot.Listener.Backoff.{backoff}
use wechat_bot.Listener.Batch.{process_batch}
use wechat_bot.Listener.Env.{Sys, Action, Handler, ExpiredHandler, Env, on_world, invoke_expired}
use wechat_bot.Types.{GetUpdatesRequest, GetUpdatesResponse, err_code_session_expired}

-- The registered callbacks of a client.
pub record Callbacks (W : Type 0) : Type 0 where
  pub message : Option (Handler W)
  pub expired : Option (ExpiredHandler W)

unfoldable pub on_message : {W : Type 0} → Callbacks W → Option (Handler W) → Callbacks W
on_message c handler = record c { message = handler }

unfoldable pub on_expired : {W : Type 0} → Callbacks W → Option (ExpiredHandler W) → Callbacks W
on_expired c handler = record c { expired = handler }

-- The variables of the loop of `Start`.
pub record Vars : Type 0 where
  pub cursor : Str
  pub failures : ℕ
  pub expired_count : ℕ

-- An iteration goes on, or `Start` returns an error; it returns nothing else.
pub data Next : Type 0 where
  again : Vars → Next
  return : Error → Next

-- `resp.Ret == ErrCodeSessionExpired || resp.ErrCode == ErrCodeSessionExpired`
unfoldable pub is_session_expired : GetUpdatesResponse → Bool
is_session_expired r =
    eqb_ℤ r.ret err_code_session_expired || eqb_ℤ r.err_code err_code_session_expired

-- `resp.Ret != 0 || resp.ErrCode != 0`
unfoldable pub is_rejected : GetUpdatesResponse → Bool
is_rejected r = not (eqb_ℤ r.ret (pos 0)) || not (eqb_ℤ r.err_code (pos 0))

module _ {W : Type 0} (env : Env W) (cfg : Config) (handler : Handler W)
    (expired : Option (ExpiredHandler W)) where
  unfoldable pub get_updates : Str → Action (Sys W) (Error ⊎ GetUpdatesResponse)
  get_updates buf =
      on_world (env.post_updates (record { get_updates_buf = buf; channel_version = version }))

  -- `failures++`, the delay, `waitContext`, and `continue`.
  unfoldable pub retry : Vars → Action (Sys W) Next
  retry v s =
      let failures = v.failures + 1 in
      let (int64n, s1) = on_world env.int64n s in
      let delay =
        backoff int64n (pos_part cfg.backoff_initial) (pos_part cfg.backoff_max) failures in
      let (stopped, s2) = on_world (env.wait_context delay) s1 in
      elim stopped [
        | some e ↦ (return e, s2)
        | none ↦ (again (record v { failures = failures }), s2)
      ]

  -- The expired callback, and the error that tells of exhausted recovery.
  unfoldable pub revoke : Action (Sys W) Next
  revoke s = elim expired [
    | none ↦ (return err_token_revoked, s)
    | some callback ↦
        let (failed, s1) = invoke_expired callback cfg.ilink_bot_id s in
        elim failed [
          | some e ↦ (return (joined err_token_revoked e), s1)
          | none ↦ (return err_token_revoked, s1)
        ]
  ]

  -- The branch of a session that the server calls expired.
  unfoldable pub recover : Vars → Action (Sys W) Next
  recover v s =
      if not (is_empty v.cursor)
      then (let (failed, s1) = on_world (env.clear_buf cfg.ilink_bot_id) s in
          elim failed [
            | some e ↦ (return (wrapped (codes "reset sync cursor") e), s1)
            | none ↦ retry (record v { cursor = []; expired_count = 0 }) s1
          ])
      else let count = v.expired_count + 1 in
        if leb_ℤ cfg.empty_buf_expired_threshold (pos count)
        then (let (failed, s1) = on_world (env.clear_buf cfg.ilink_bot_id) s in
            elim failed [
              | some e ↦
                  (return (joined err_token_revoked (wrapped (codes "clear sync cursor") e)), s1)
              | none ↦ revoke s1
            ])
        else retry (record v { expired_count = count }) s

  -- The end of an iteration whose batch was processed: the new cursor is saved, then used.
  unfoldable pub commit : Vars → Str → Action (Sys W) Next
  commit v buf s =
      if not (is_empty buf) && not (str_eq buf v.cursor)
      then (let (failed, s1) = on_world (env.save_buf cfg.ilink_bot_id buf) s in
          elim failed [
            | some e ↦ (return (wrapped (codes "save sync cursor") e), s1)
            | none ↦ (again (record v { cursor = buf }), s1)
          ])
      else (again v, s)

  -- A response without an error code.
  unfoldable pub accept : Vars → GetUpdatesResponse → Action (Sys W) Next
  accept v r s =
      let (failed, s1) = process_batch env handler (pos_part cfg.handler_concurrency) r.msgs s in
      elim failed [
        | some e ↦ (return e, s1)
        | none ↦
            let (cancelled, s2) = on_world env.ctx_err s1 in
            elim cancelled [
              | some e ↦ (return e, s2)
              | none ↦ commit (record v { failures = 0; expired_count = 0 }) r.get_updates_buf s2
            ]
      ]

  -- What an iteration does with the answer of a poll. `ctx.Err()` is read twice after a failure;
  -- once cancelled, a context gives the same error.
  unfoldable pub answer : Vars → Error ⊎ GetUpdatesResponse → Action (Sys W) Next
  answer v (inl failed) s =
      let (cancelled, s1) = on_world env.ctx_err s in
      elim cancelled [ some e ↦ (return e, s1) | none ↦ retry v s1 ]
  answer v (inr r) s =
      if is_session_expired r
      then recover v s
      else if is_rejected r
      then retry v s
      else accept v r s

  unfoldable pub iterate : Vars → Action (Sys W) Next
  iterate v s =
      let (cancelled, s1) = on_world env.ctx_err s in
      elim cancelled [
        | some e ↦ (return e, s1)
        | none ↦ let (polled, s2) = get_updates v.cursor s1 in answer v polled s2
      ]

  -- `none` means that the fuel ran out: the listener was still running.
  unfoldable pub listen : ℕ → Vars → Action (Sys W) (Option Error)
  listen zero v s = (none, s)
  listen (suc fuel) v s =
      let (next, s1) = iterate v s in
      elim next [ return e ↦ (some e, s1) | again v' ↦ listen fuel v' s1 ]

  -- `Start` from the test of its context on.
  unfoldable pub run_start : ℕ → Action (Sys W) (Option Error)
  run_start fuel s =
      let (cancelled, s1) = on_world env.ctx_err s in
      elim cancelled [
        | some e ↦ (some e, s1)
        | none ↦
            let (loaded, s2) = on_world (env.load_buf cfg.ilink_bot_id) s1 in
            elim loaded [
              | inl e ↦ (some (wrapped (codes "load sync cursor") e), s2)
              | inr cursor ↦
                  listen fuel (record { cursor = cursor; failures = 0; expired_count = 0 }) s2
            ]
      ]

module _ {W : Type 0} (env : Env W) (cfg : Config) where
  -- `defer c.running.Store(false)`, if `Start` returned.
  unfoldable pub stop_running : Option Error × Sys W → Option Error × Sys W
  stop_running (none, s) = (none, s)
  stop_running (some e, s) = (some e, record s { running = false })

  unfoldable pub start : Callbacks W → ℕ → Action (Sys W) (Option Error)
  start callbacks fuel s =
      if s.running
      then (some err_already_started, s)
      else let started = record s { running = true } in
        stop_running (elim callbacks.message [
          | none ↦ (some err_no_message_handler, started)
          | some handler ↦ run_start env cfg handler callbacks.expired fuel started
        ])
