-- ===== src/Listener/Loop/Recovery.antt =====
-- listener.go: how the listener recovers from an expired session, and when it gives up.
use mathlib.Core.List.{cons-ne-nil}
use wechat_bot.Base.{
  ℕ, zero, suc, ◌+◌, ◌≤◌, ◌<◌, true, false, Option, none, some, [], ◌∷◌, inl, inr, if◌then◌else◌,
  Str, is_empty, is_empty_iff, pos, pos_part, leb_ℤ, ◌≡◌, ◌≢◌, refl, ap, ◌∙◌, arith, Option-cases,
}
use wechat_bot.Config.{Config}
use wechat_bot.Errors.{Error, err_token_revoked, joined, token_revoked, errors_is}
use wechat_bot.Listener.Backoff.{backoff}
use wechat_bot.Listener.Env.{Sys, Handler, ExpiredHandler, Env, on_world, invoke_expired}
use wechat_bot.Http.{version}
use wechat_bot.Listener.Loop.{
  Vars, Next, again, return, is_session_expired, get_updates, retry, revoke, recover, answer,
  iterate, listen,
}
use wechat_bot.Listener.Loop.Commit.{first_vars}
use wechat_bot.Types.{GetUpdatesRequest, GetUpdatesResponse}

-- A server that answers every poll with an expired session, a context that is never cancelled, and
-- a storage that can be cleared.
pub record Expiring {W : Type 0} (env : Env W) (bot_id : Str) : Type 0 where
  pub alive : (w : W) → (env.ctx_err w).0 ≡ none
  pub answers :
      (q : GetUpdatesRequest) (w : W)
      → (r : GetUpdatesResponse) × ((env.post_updates q w).0 ≡ inr r)
        × (is_session_expired r ≡ true)
  pub waits : (d : ℕ) (w : W) → (env.wait_context d w).0 ≡ none
  pub clears : (w : W) → (env.clear_buf bot_id w).0 ≡ none

module _ {W : Type 0} (env : Env W) (cfg : Config) (handler : Handler W)
    (expired : Option (ExpiredHandler W)) (x : Expiring env cfg.ilink_bot_id) (t : ℕ)
    (threshold : cfg.empty_buf_expired_threshold ≡ pos t) where
  -- An iteration that goes on with the given variables.
  abbrev GoesOn : Vars → Next × Sys W → Type 0
  GoesOn v r = (s' : Sys W) × (r ≡ (again v, s'))

  -- `Start` returns an error that is `ErrTokenRevoked` by `errors.Is`.
  abbrev IsRevoked : Option Error → Type 0
  IsRevoked r = (e : Error) × (r ≡ some e) × (errors_is e token_revoked ≡ true)

  abbrev Revokes : Next × Sys W → Type 0
  Revokes r = (e : Error) × (s' : Sys W) × (r ≡ (return e, s')) × (errors_is e token_revoked ≡ true)

  iterate-recover :
      (v : Vars) (s : Sys W)
      → (s1 : Sys W) × (iterate env cfg handler expired v s ≡ recover env cfg handler expired v s1)
  unfolding iterate get_updates answer
  iterate-recover v s =
      let s1 = (on_world env.ctx_err s).1 in
      let polled = get_updates env cfg handler expired v.cursor s1 in
      let (r, got, old) =
        x.answers (record { get_updates_buf = v.cursor; channel_version = version }) s1.world in
      (polled.1, rw (x.alive s.world, got, iterate, answer) (rw (old, answer)))

  retry-GoesOn :
      (v : Vars) (s : Sys W)
      → GoesOn (record v { failures = v.failures + 1 }) (retry env cfg handler expired v s)
  unfolding retry
  retry-GoesOn v s =
      let drawn = env.int64n s.world in
      let delay =
        backoff drawn.0 (pos_part cfg.backoff_initial) (pos_part cfg.backoff_max)
          (v.failures + 1) in
      (record s { world = (env.wait_context delay drawn.1).1 }, rw (x.waits delay drawn.1, retry))

  revoke-Revokes : (s : Sys W) → Revokes (revoke env cfg handler expired s)
  unfolding revoke errors_is
  revoke-Revokes s = elim (Option-cases expired) [
    | inl nobody ↦ (err_token_revoked, s, rw (nobody, revoke), refl)
    | inr (f, registered) ↦ elim (Option-cases (invoke_expired f cfg.ilink_bot_id s).0) [
      | inl fine ↦ (
        err_token_revoked,
        (invoke_expired f cfg.ilink_bot_id s).1,
        rw (registered, fine, revoke),
        refl,
      )
      | inr (e, failed) ↦ (
        joined err_token_revoked e,
        (invoke_expired f cfg.ilink_bot_id s).1,
        rw (registered, failed, revoke),
        refl,
      )
    ]
  ]

  -- With an empty cursor, an answer below the threshold is counted.
  counts :
      (v : Vars) (s : Sys W)
      → v.cursor ≡ []
      → v.expired_count + 1 < t
      → GoesOn
          (record v { failures = v.failures + 1; expired_count = v.expired_count + 1 })
          (iterate env cfg handler expired v s)
  unfolding recover
  counts v s blank below =
      let (s1, same) = iterate-recover v s in
      let no_cursor : is_empty v.cursor ≡ true = rw blank refl in
      let test : leb_ℤ cfg.empty_buf_expired_threshold (pos (v.expired_count + 1)) ≡ false =
        rw threshold (ground arith) in
      let (s2, on) = retry-GoesOn (record v { expired_count = v.expired_count + 1 }) s1 in
      (s2, same ∙ rw (no_cursor, test, recover) on)

  -- At the threshold the recovery is given up.
  gives_up :
      (v : Vars) (s : Sys W)
      → v.cursor ≡ []
      → t ≤ v.expired_count + 1
      → Revokes (iterate env cfg handler expired v s)
  unfolding recover
  gives_up v s blank reached =
      let (s1, same) = iterate-recover v s in
      let no_cursor : is_empty v.cursor ≡ true = rw blank refl in
      let test : leb_ℤ cfg.empty_buf_expired_threshold (pos (v.expired_count + 1)) ≡ true =
        rw threshold (ground arith) in
      let (e, s2, ends, revoked) =
        revoke-Revokes (on_world (env.clear_buf cfg.ilink_bot_id) s1).1 in
      (e, s2, same ∙ rw (no_cursor, test, x.clears s1.world, recover) ends, revoked)

  -- A cursor that is not empty is dropped, and the count starts anew.
  resets :
      (v : Vars) (s : Sys W)
      → v.cursor ≢ []
      → GoesOn
          (record { cursor = []; failures = v.failures + 1; expired_count = 0 })
          (iterate env cfg handler expired v s)
  unfolding recover
  resets v s full =
      let (s1, same) = iterate-recover v s in
      let cursor : is_empty v.cursor ≡ false = ground (arith, is_empty_iff v.cursor) in
      let s2 = (on_world (env.clear_buf cfg.ilink_bot_id) s1).1 in
      let (s3, on) = retry-GoesOn (record v { cursor = []; expired_count = 0 }) s2 in
      (s3, same ∙ rw (cursor, x.clears s1.world, recover) on)

  listen-again :
      (fuel : ℕ) (v v' : Vars) (s s' : Sys W)
      → iterate env cfg handler expired v s ≡ (again v', s')
      → listen env cfg handler expired (suc fuel) v s ≡ listen env cfg handler expired fuel v' s'
  unfolding listen
  listen-again fuel v v' s s' e =
      ap {B = Option Error × Sys W}
        (λ r. elim r.0 [
          | return e' ↦ (some e', r.1)
          | again w ↦ listen env cfg handler expired fuel w r.1
        ])
        e

  -- With `polls` polls left before the threshold, less fuel does not end the loop, and enough does.
  listen-empty :
      (polls fuel : ℕ) (v : Vars) (s : Sys W)
      → v.cursor ≡ []
      → v.expired_count + polls ≡ t
      → 0 < polls
      → (fuel < polls → (listen env cfg handler expired fuel v s).0 ≡ none)
        × (polls ≤ fuel → IsRevoked (listen env cfg handler expired fuel v s).0)
  unfolding listen
  listen-empty zero fuel v s blank count h = absurd (omega arith)
  listen-empty (suc polls) zero v s blank count h = (λ _. refl, λ few. absurd (omega arith))
  listen-empty (suc zero) (suc fuel) v s blank count h =
      let (e, s2, ends, revoked) = gives_up v s blank (omega arith) in
      (λ few. absurd (omega arith), λ _. (e, rw (ends, listen), revoked))
  listen-empty (suc (suc polls)) (suc fuel) v s blank count h =
      let v' = record v { failures = v.failures + 1; expired_count = v.expired_count + 1 } in
      let (s2, on) = counts v s blank (omega arith) in
      let rest = listen-empty (suc polls) fuel v' s2 blank (omega arith) (omega arith) in
      let step = listen-again fuel v v' s s2 on in
      (λ few. rw step (rest.0 (omega arith)), λ enough. rw step (rest.1 (omega arith)))

  -- The polls that the listener makes before it gives up: one more if it starts with a cursor.
  abbrev pub polls_before_giving_up : Str → ℕ
  polls_before_giving_up cursor = if is_empty cursor then t else t + 1

  listen-zero : (v : Vars) (s : Sys W) → (listen env cfg handler expired zero v s).0 ≡ none
  unfolding listen
  listen-zero v s = refl

  listen-first :
      (cursor : Str) (s : Sys W) (fuel : ℕ)
      → 0 < t
      → (fuel < polls_before_giving_up cursor
          → (listen env cfg handler expired fuel (first_vars cursor) s).0 ≡ none)
        × (polls_before_giving_up cursor ≤ fuel
            → IsRevoked (listen env cfg handler expired fuel (first_vars cursor) s).0)
  listen-first [] s fuel h = listen-empty t fuel (first_vars []) s refl (omega arith) h
  listen-first (c ∷ cs) s zero h =
      (λ _. listen-zero (first_vars (c ∷ cs)) s, λ few. absurd (omega arith))
  listen-first (c ∷ cs) s (suc fuel) h =
      let v' : Vars = record { cursor = []; failures = 0 + 1; expired_count = 0 } in
      let (s2, on) = resets (first_vars (c ∷ cs)) s (cons-ne-nil c cs) in
      let rest = listen-empty t fuel v' s2 refl (omega arith) h in
      let step = listen-again fuel (first_vars (c ∷ cs)) v' s s2 on in
      (λ few. rw step (rest.0 (omega arith)), λ enough. rw step (rest.1 (omega arith)))

  -- Against a server that answers every poll with an expired session, if the context is never
  -- cancelled, every wait runs to its end and every `ClearBuf` succeeds, the loop of `Start` gives up
  -- at the poll that reaches the threshold, or at the one after it if it starts with a cursor, which
  -- is dropped first: it still runs after `few` polls, if these are fewer, and with fuel for as many
  -- it returns an error that is `ErrTokenRevoked`.
  pub revoked_at_threshold :
      (cursor : Str) (s : Sys W) (few fuel : ℕ)
      → 0 < t
      → few < polls_before_giving_up cursor
      → polls_before_giving_up cursor ≤ fuel
      → ((listen env cfg handler expired few (first_vars cursor) s).0 ≡ none)
        × (e : Error) × ((listen env cfg handler expired fuel (first_vars cursor) s).0 ≡ some e)
        × (errors_is e token_revoked ≡ true)
  revoked_at_threshold cursor s few fuel h below enough =
      let (e, ends, revoked) = (listen-first cursor s fuel h).1 enough in
      ((listen-first cursor s few h).0 below, e, ends, revoked)
