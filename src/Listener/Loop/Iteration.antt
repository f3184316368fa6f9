-- ===== src/Listener/Loop/Iteration.antt =====
-- listener.go: when the listener moves on to a new cursor, and how `Start` holds its flag.
use wechat_bot.Base.{
  ℕ, ◌+◌, true, false, not, ◌&&◌, Option, none, some, [], ◌⊎◌, inl, inr, Str, str_eq, is_empty, pos,
  pos_part, leb_ℤ, ◌≡◌, ◌≢◌, refl, sym, subst, ◌∙◌, Option-cases, Bool-cases,
}
use wechat_bot.Config.{Config}
use wechat_bot.Errors.{Error, err_already_started}
use wechat_bot.Listener.Backoff.{backoff}
use wechat_bot.Listener.Batch.{process_batch}
use wechat_bot.Listener.Env.{Sys, Handler, ExpiredHandler, Env, on_world, invoke_expired}
use wechat_bot.Listener.Loop.{
  Vars, Next, again, return, Callbacks, is_session_expired, is_rejected, get_updates, retry, revoke,
  recover, commit, accept, answer, iterate, stop_running, start,
}
use wechat_bot.Types.{GetUpdatesResponse}

module _ {W : Type 0} (env : Env W) (cfg : Config) (handler : Handler W)
    (expired : Option (ExpiredHandler W)) where
  -- The poll with cursor `v.cursor` brought a response without an error code, its whole batch was
  -- processed without an error, and `cursor` is the one that the response carries.
  pub record Committed (v : Vars) (s : Sys W) (cursor : Str) : Type 0 where
    pub response : GetUpdatesResponse
    pub polled :
        (get_updates env cfg handler expired v.cursor (on_world env.ctx_err s).1).0 ≡ inr response
    pub live : is_session_expired response ≡ false
    pub accepted : is_rejected response ≡ false
    pub processed :
        (process_batch env handler
          (pos_part cfg.handler_concurrency)
          response.msgs
          (get_updates env cfg handler expired v.cursor (on_world env.ctx_err s).1).1).0
        ≡ none
    pub carried : cursor ≡ response.get_updates_buf

  -- What is known of the cursor with which the loop goes on.
  abbrev Moves : Vars → Sys W → Next × Sys W → Type 0
  Moves v s (return _, _) = Unit {0}
  Moves v s (again v', _) = (v'.cursor ≡ v.cursor) ⊎ (v'.cursor ≡ []) ⊎ Committed v s v'.cursor

  -- A retry keeps the cursor.
  abbrev Retries : Vars → Next × Sys W → Type 0
  Retries v (return _, _) = Unit {0}
  Retries v (again v', _) = v'.cursor ≡ v.cursor

  retry-Retries : (v : Vars) (s : Sys W) → Retries v (retry env cfg handler expired v s)
  unfolding retry
  retry-Retries v s =
      let drawn = env.int64n s.world in
      let delay =
        backoff drawn.0 (pos_part cfg.backoff_initial) (pos_part cfg.backoff_max)
          (v.failures + 1) in
      elim (Option-cases (env.wait_context delay drawn.1).0) [
        | inr (e, stopped) ↦ rw (stopped, retry) tt
        | inl waited ↦ rw (waited, retry) refl
      ]

  Retries→Moves :
      (v v' : Vars) (s : Sys W) (r : Next × Sys W)
      → Retries v' r
      → (v'.cursor ≡ v.cursor) ⊎ (v'.cursor ≡ [])
      → Moves v s r
  Retries→Moves v v' s (return _, _) h k = tt
  Retries→Moves v v' s (again w, _) h (inl same) = inl (h ∙ same)
  Retries→Moves v v' s (again w, _) h (inr blank) = inr (inl (h ∙ blank))

  revoke-Moves : (v : Vars) (s s' : Sys W) → Moves v s (revoke env cfg handler expired s')
  unfolding revoke
  revoke-Moves v s s' = elim (Option-cases expired) [
    | inl nobody ↦ rw (nobody, revoke) tt
    | inr (f, registered) ↦ elim (Option-cases (invoke_expired f cfg.ilink_bot_id s').0) [
      | inl fine ↦ rw (registered, fine, revoke) tt
      | inr (e, failed) ↦ rw (registered, failed, revoke) tt
    ]
  ]

  recover-Moves : (v : Vars) (s s' : Sys W) → Moves v s (recover env cfg handler expired v s')
  unfolding recover
  recover-Moves v s s' =
      let cleared = on_world (env.clear_buf cfg.ilink_bot_id) s' in
      let emptied = record v { cursor = []; expired_count = 0 } in
      let counted = record v { expired_count = v.expired_count + 1 } in
      elim (Bool-cases (is_empty v.cursor)) [
        | inr full ↦ elim (Option-cases cleared.0) [
          | inr (e, failed) ↦ rw (full, failed, recover) tt
          | inl done ↦
              rw (full, done, recover)
                (Retries→Moves v emptied s _ (retry-Retries emptied cleared.1) (inr refl))
        ]
        | inl blank ↦
            elim (Bool-cases (leb_ℤ cfg.empty_buf_expired_threshold (pos (v.expired_count + 1)))) [
              | inr below ↦
                  rw (blank, below, recover)
                    (Retries→Moves v counted s _ (retry-Retries counted s') (inl refl))
              | inl reached ↦ elim (Option-cases cleared.0) [
                | inr (e, failed) ↦ rw (blank, reached, failed, recover) tt
                | inl done ↦ rw (blank, reached, done, recover) (revoke-Moves v s cleared.1)
              ]
            ]
      ]

  -- After `commit` the cursor is the old one, or the one given.
  abbrev Commits : Vars → Str → Next × Sys W → Type 0
  Commits v buf (return _, _) = Unit {0}
  Commits v buf (again v', _) = (v'.cursor ≡ v.cursor) ⊎ (v'.cursor ≡ buf)

  commit-Commits :
      (v : Vars) (buf : Str) (s : Sys W) → Commits v buf (commit env cfg handler expired v buf s)
  unfolding commit
  commit-Commits v buf s = elim (Bool-cases (not (is_empty buf) && not (str_eq buf v.cursor))) [
    | inr same ↦ rw (same, commit) (inl refl)
    | inl fresh ↦ elim (Option-cases (on_world (env.save_buf cfg.ilink_bot_id buf) s).0) [
      | inr (e, failed) ↦ rw (fresh, failed, commit) tt
      | inl done ↦ rw (fresh, done, commit) (inr refl)
    ]
  ]

  Commits→Moves :
      (v v' : Vars) (s : Sys W) (buf : Str) (r : Next × Sys W)
      → Committed v s buf
      → v'.cursor ≡ v.cursor
      → Commits v' buf r
      → Moves v s r
  Commits→Moves v v' s buf (return _, _) c same h = tt
  Commits→Moves v v' s buf (again w, _) c same (inl h) = inl (h ∙ same)
  Commits→Moves v v' s buf (again w, _) c same (inr h) =
      inr (inr (subst (λ b. Committed v s b) (sym h) c))

  -- The state before the poll, and the poll.
  abbrev before_poll : Sys W → Sys W
  before_poll s = (on_world env.ctx_err s).1

  abbrev poll : Vars → Sys W → (Error ⊎ GetUpdatesResponse) × Sys W
  poll v s = get_updates env cfg handler expired v.cursor (before_poll s)

  accept-Moves :
      (v : Vars) (s : Sys W) (r : GetUpdatesResponse)
      → (poll v s).0 ≡ inr r
      → is_session_expired r ≡ false
      → is_rejected r ≡ false
      → Moves v s (accept env cfg handler expired v r (poll v s).1)
  unfolding accept
  accept-Moves v s r polled live good =
      let batch =
        process_batch env handler (pos_part cfg.handler_concurrency) r.msgs (poll v s).1 in
      let fresh = record v { failures = 0; expired_count = 0 } in
      elim (Option-cases batch.0) [
        | inr (e, failed) ↦ rw (failed, accept) tt
        | inl done ↦
            let checked = on_world env.ctx_err batch.1 in
            elim (Option-cases checked.0) [
              | inr (e, cancelled) ↦ rw (done, cancelled, accept) tt
              | inl go ↦
                  rw (done, go, accept)
                    (Commits→Moves v fresh s r.get_updates_buf _
                      (record {
                        response = r;
                        polled = polled;
                        live = live;
                        accepted = good;
                        processed = done;
                        carried = refl;
                      })
                      refl (commit-Commits fresh r.get_updates_buf checked.1))
            ]
      ]

  answer-Moves :
      (v : Vars) (s : Sys W) (polled : Error ⊎ GetUpdatesResponse)
      → (poll v s).0 ≡ polled
      → Moves v s (answer env cfg handler expired v polled (poll v s).1)
  unfolding answer
  answer-Moves v s (inl failed) e =
      let checked = on_world env.ctx_err (poll v s).1 in
      elim (Option-cases checked.0) [
        | inr (x, cancelled) ↦ rw (cancelled, answer) tt
        | inl go ↦ rw (go, answer) (Retries→Moves v v s _ (retry-Retries v checked.1) (inl refl))
      ]
  answer-Moves v s (inr r) e = elim (Bool-cases (is_session_expired r)) [
    | inl old ↦ rw (old, answer) (recover-Moves v s (poll v s).1)
    | inr live ↦ elim (Bool-cases (is_rejected r)) [
      | inl bad ↦
          rw (live, bad, answer) (Retries→Moves v v s _ (retry-Retries v (poll v s).1) (inl refl))
      | inr good ↦ rw (live, good, answer) (accept-Moves v s r e live good)
    ]
  ]

  iterate-Moves : (v : Vars) (s : Sys W) → Moves v s (iterate env cfg handler expired v s)
  unfolding iterate
  iterate-Moves v s = elim (Option-cases (on_world env.ctx_err s).0) [
    | inr (e, cancelled) ↦ rw (cancelled, iterate) tt
    | inl go ↦ rw (go, iterate) (answer-Moves v s (poll v s).0 refl)
  ]

  -- If an iteration goes on with another cursor that is not empty, the poll of that iteration
  -- brought this cursor in a response without an error code, and every message of that response had
  -- been processed without an error. So an interrupted or failed batch is polled for again.
  pub cursor-Committed :
      (v v' : Vars) (s s' : Sys W)
      → iterate env cfg handler expired v s ≡ (again v', s')
      → v'.cursor ≢ v.cursor
      → v'.cursor ≢ []
      → Committed v s v'.cursor
  cursor-Committed v v' s s' e other full = choose (subst (λ r. Moves v s r) e (iterate-Moves v s))
    where
      choose :
          (v'.cursor ≡ v.cursor) ⊎ (v'.cursor ≡ []) ⊎ Committed v s v'.cursor
          → Committed v s v'.cursor
      choose (inl h) = absurd (other h)
      choose (inr (inl h)) = absurd (full h)
      choose (inr (inr c)) = c

module _ {W : Type 0} (env : Env W) (cfg : Config) where
  stop_running_frees :
      (r : Option Error × Sys W) (e : Error)
      → (stop_running env cfg r).0 ≡ some e
      → (stop_running env cfg r).1.running ≡ false
  unfolding stop_running
  stop_running_frees (none, s) e h = absurd (cc)
  stop_running_frees (some _, s) e h = refl

  -- Whatever error `Start` returns, it leaves the running flag as it found it: after a call that ran
  -- has returned another may start. A second call while one is running returns the error that the
  -- client has already started, and changes nothing.
  pub start_releases :
      (callbacks : Callbacks W) (fuel : ℕ) (s : Sys W) (e : Error)
      → (start env cfg callbacks fuel s).0 ≡ some e
      → ((start env cfg callbacks fuel s).1.running ≡ s.running)
        × (((s.running ≡ true) × (start env cfg callbacks fuel s ≡ (some err_already_started, s)))
            ⊎ (s.running ≡ false))
  unfolding start
  start_releases callbacks fuel s e h = elim (Bool-cases s.running) [
    | inl busy ↦ rw (busy, start) (refl, inl (refl, refl))
    | inr idle ↦ rw (idle, start) (stop_running_frees _ e (rw (idle, start) at h), inr refl)
  ]
