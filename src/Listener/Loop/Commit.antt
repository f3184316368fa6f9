-- ===== src/Listener/Loop/Commit.antt =====
-- listener.go: the cursor of the listener and the cursor in the storage.
use wechat_bot.Base.{
  ℕ, ◌+◌, not, ◌&&◌, Option, none, [], ◌⊎◌, inl, inr, Str, str_eq, is_empty, pos, pos_part, leb_ℤ,
  ◌≡◌, sym, subst, ◌∙◌, Option-cases, Bool-cases,
}
use wechat_bot.Config.{Config}
use wechat_bot.Errors.{Error}
use wechat_bot.Listener.Backoff.{backoff}
use wechat_bot.Listener.Batch.Invariant.{Kept, process_batch-kept}
use wechat_bot.Listener.Batch.{process_batch}
use wechat_bot.Listener.Dispatch.{remember_token, has_conversation}
use wechat_bot.Listener.Env.{Sys, Handler, ExpiredHandler, Env, on_world, invoke_expired}
use wechat_bot.Listener.Loop.{
  Vars, Next, again, return, is_session_expired, is_rejected, get_updates, retry, revoke, recover,
  commit, accept, answer, iterate,
}
use wechat_bot.TokenCache.{ConversationContext}
use wechat_bot.Types.{Message, InboundMessage, GetUpdatesRequest, GetUpdatesResponse}

-- `stored` is the cursor that the storage holds for the account. A load gives it, a successful save
-- replaces it completely, a successful clear empties it, and nothing else that happens while the
-- listener runs changes it: the account has one listener, and the handlers leave its cursor alone.
pub record StorageLaws {W : Type 0} (env : Env W) (bot_id : Str) (handler : Handler W)
    (stored : W → Str) : Type 0 where
  pub load_gives :
      (w : W) (b : Str) → (env.load_buf bot_id w).0 ≡ inr b → b ≡ stored (env.load_buf bot_id w).1
  pub save_sets :
      (b : Str) (w : W)
      → (env.save_buf bot_id b w).0 ≡ none
      → stored (env.save_buf bot_id b w).1 ≡ b
  pub clear_sets :
      (w : W) → (env.clear_buf bot_id w).0 ≡ none → stored (env.clear_buf bot_id w).1 ≡ []
  pub ctx_keeps : (w : W) → stored (env.ctx_err w).1 ≡ stored w
  pub post_keeps : (q : GetUpdatesRequest) (w : W) → stored (env.post_updates q w).1 ≡ stored w
  pub wait_keeps : (d : ℕ) (w : W) → stored (env.wait_context d w).1 ≡ stored w
  pub int64n_keeps : (w : W) → stored (env.int64n w).1 ≡ stored w
  pub schedule_keeps : (w : W) → stored (env.schedule w).1 ≡ stored w
  pub handler_keeps :
      (ctx : Option ConversationContext) (m : InboundMessage) (s : Sys W)
      → stored (handler ctx m s).1.world ≡ stored s.world

module _ {W : Type 0} (env : Env W) (cfg : Config) (handler : Handler W)
    (expired : Option (ExpiredHandler W)) (stored : W → Str)
    (laws : StorageLaws env cfg.ilink_bot_id handler stored) where
  -- The storage holds the cursor of the loop, if the loop goes on.
  abbrev pub InSync : Next × Sys W → Type 0
  InSync (again v, s) = stored s.world ≡ v.cursor
  InSync (return _, s) = Unit {0}

  remember-keeps : (m : Message) (s : Sys W) → (remember_token m s).1.world ≡ s.world
  unfolding remember_token
  remember-keeps m s = elim (Bool-cases (has_conversation m)) [
    | inl held ↦ rw (held, remember_token)
    | inr bare ↦ rw (bare, remember_token)
  ]

  held : (b : Str) → Kept env handler (λ s. stored s.world ≡ b)
  held b = record {
    called = λ ctx m s h. laws.handler_keeps ctx m s ∙ h;
    checked = λ s h. laws.ctx_keeps s.world ∙ h;
    scheduled = λ s h. laws.schedule_keeps s.world ∙ h;
    remembered = λ m s h. rw (remember-keeps m s) h;
  }

  retry-InSync :
      (v : Vars) (s : Sys W)
      → stored s.world ≡ v.cursor
      → InSync (retry env cfg handler expired v s)
  unfolding retry
  retry-InSync v s h =
      let drawn = env.int64n s.world in
      let delay =
        backoff drawn.0 (pos_part cfg.backoff_initial) (pos_part cfg.backoff_max)
          (v.failures + 1) in
      elim (Option-cases (env.wait_context delay drawn.1).0) [
        | inr (e, stopped) ↦ rw (stopped, retry) tt
        | inl waited ↦
            rw (waited, retry) (laws.wait_keeps delay drawn.1 ∙ laws.int64n_keeps s.world ∙ h)
      ]

  revoke-InSync : (s : Sys W) → InSync (revoke env cfg handler expired s)
  unfolding revoke
  revoke-InSync s = elim (Option-cases expired) [
    | inl nobody ↦ rw (nobody, revoke) tt
    | inr (f, registered) ↦ elim (Option-cases (invoke_expired f cfg.ilink_bot_id s).0) [
      | inl fine ↦ rw (registered, fine, revoke) tt
      | inr (e, failed) ↦ rw (registered, failed, revoke) tt
    ]
  ]

  recover-InSync :
      (v : Vars) (s : Sys W)
      → stored s.world ≡ v.cursor
      → InSync (recover env cfg handler expired v s)
  unfolding recover
  recover-InSync v s h =
      let cleared = on_world (env.clear_buf cfg.ilink_bot_id) s in
      elim (Bool-cases (is_empty v.cursor)) [
        | inr full ↦ elim (Option-cases cleared.0) [
          | inr (e, failed) ↦ rw (full, failed, recover) tt
          | inl done ↦
              rw (full, done, recover)
                (retry-InSync (record v { cursor = []; expired_count = 0 }) cleared.1
                  (laws.clear_sets s.world done))
        ]
        | inl blank ↦
            elim (Bool-cases (leb_ℤ cfg.empty_buf_expired_threshold (pos (v.expired_count + 1)))) [
              | inr below ↦
                  rw (blank, below, recover)
                    (retry-InSync (record v { expired_count = v.expired_count + 1 }) s h)
              | inl reached ↦ elim (Option-cases cleared.0) [
                | inr (e, failed) ↦ rw (blank, reached, failed, recover) tt
                | inl done ↦ rw (blank, reached, done, recover) (revoke-InSync cleared.1)
              ]
            ]
      ]

  commit-InSync :
      (v : Vars) (buf : Str) (s : Sys W)
      → stored s.world ≡ v.cursor
      → InSync (commit env cfg handler expired v buf s)
  unfolding commit
  commit-InSync v buf s h = elim (Bool-cases (not (is_empty buf) && not (str_eq buf v.cursor))) [
    | inr same ↦ rw (same, commit) h
    | inl fresh ↦
        let saved = on_world (env.save_buf cfg.ilink_bot_id buf) s in
        elim (Option-cases saved.0) [
          | inr (e, failed) ↦ rw (fresh, failed, commit) tt
          | inl done ↦ rw (fresh, done, commit) (laws.save_sets buf s.world done)
        ]
  ]

  accept-InSync :
      (v : Vars) (r : GetUpdatesResponse) (s : Sys W)
      → stored s.world ≡ v.cursor
      → InSync (accept env cfg handler expired v r s)
  unfolding accept
  accept-InSync v r s h =
      let batch = process_batch env handler (pos_part cfg.handler_concurrency) r.msgs s in
      let kept =
        process_batch-kept env handler _ (held v.cursor) (pos_part cfg.handler_concurrency) r.msgs s
          h in
      elim (Option-cases batch.0) [
        | inr (e, failed) ↦ rw (failed, accept) tt
        | inl done ↦
            let checked = on_world env.ctx_err batch.1 in
            elim (Option-cases checked.0) [
              | inr (e, cancelled) ↦ rw (done, cancelled, accept) tt
              | inl go ↦
                  rw (done, go, accept)
                    (commit-InSync (record v { failures = 0; expired_count = 0 }) r.get_updates_buf
                      checked.1 (laws.ctx_keeps batch.1.world ∙ kept))
            ]
      ]

  answer-InSync :
      (v : Vars) (polled : Error ⊎ GetUpdatesResponse) (s : Sys W)
      → stored s.world ≡ v.cursor
      → InSync (answer env cfg handler expired v polled s)
  unfolding answer
  answer-InSync v (inl failed) s h =
      let checked = on_world env.ctx_err s in
      elim (Option-cases checked.0) [
        | inr (e, cancelled) ↦ rw (cancelled, answer) tt
        | inl go ↦ rw (go, answer) (retry-InSync v checked.1 (laws.ctx_keeps s.world ∙ h))
      ]
  answer-InSync v (inr r) s h = elim (Bool-cases (is_session_expired r)) [
    | inl old ↦ rw (old, answer) (recover-InSync v s h)
    | inr live ↦ elim (Bool-cases (is_rejected r)) [
      | inl bad ↦ rw (live, bad, answer) (retry-InSync v s h)
      | inr good ↦ rw (live, good, answer) (accept-InSync v r s h)
    ]
  ]

  pub iterate-InSync :
      (v : Vars) (s : Sys W)
      → stored s.world ≡ v.cursor
      → InSync (iterate env cfg handler expired v s)
  unfolding iterate get_updates
  iterate-InSync v s h =
      let checked = on_world env.ctx_err s in
      elim (Option-cases checked.0) [
        | inr (e, cancelled) ↦ rw (cancelled, iterate) tt
        | inl go ↦
            let polled = get_updates env cfg handler expired v.cursor checked.1 in
            rw (go, iterate)
              (answer-InSync v polled.0 polled.1
                (laws.post_keeps _ checked.1.world ∙ laws.ctx_keeps s.world ∙ h))
      ]

-- The heads of the loop that are reached from one, by iterations that go on.
pub data Reaches {W : Type 0} (env : Env W) (cfg : Config) (handler : Handler W)
    (expired : Option (ExpiredHandler W)) (v : Vars) (s : Sys W) : Vars → Sys W → Type 0 where
  here : Reaches env cfg handler expired v s v s
  next :
      {v1 v2 : Vars} {s1 s2 : Sys W}
      → Reaches env cfg handler expired v s v1 s1
      → iterate env cfg handler expired v1 s1 ≡ (again v2, s2)
      → Reaches env cfg handler expired v s v2 s2

Reaches-InSync :
    {W : Type 0} (env : Env W) (cfg : Config) (handler : Handler W)
    (expired : Option (ExpiredHandler W)) (stored : W → Str)
    (laws : StorageLaws env cfg.ilink_bot_id handler stored) {v : Vars} {s : Sys W} {v' : Vars}
    {s' : Sys W}
    → stored s.world ≡ v.cursor
    → Reaches env cfg handler expired v s v' s'
    → stored s'.world ≡ v'.cursor
Reaches-InSync env cfg handler expired stored laws h here = h
Reaches-InSync env cfg handler expired stored laws h (next {v1} {v2} {s1} {s2} r e) =
    subst (λ x. InSync env cfg handler expired stored laws x) e
      (iterate-InSync env cfg handler expired stored laws v1 s1
        (Reaches-InSync env cfg handler expired stored laws h r))

-- The variables with which `Start` enters its loop.
abbrev pub first_vars : Str → Vars
first_vars cursor = record { cursor = cursor; failures = 0; expired_count = 0 }

-- The state after `Start` has loaded its cursor.
abbrev pub after_load : {W : Type 0} → Env W → Config → Sys W → Sys W
after_load env cfg s = (on_world (env.load_buf cfg.ilink_bot_id) s).1

-- From the load on, at every head of the loop of `Start` that is reached, the storage holds exactly
-- the cursor with which the next poll is made: whatever the server, the handler, the schedule and the
-- failing operations do, given the documented behaviour of the storage.
pub stored-cursor :
    {W : Type 0} (env : Env W) (cfg : Config) (handler : Handler W)
    (expired : Option (ExpiredHandler W)) (stored : W → Str)
    (laws : StorageLaws env cfg.ilink_bot_id handler stored) (s : Sys W) (cursor : Str)
    → (env.load_buf cfg.ilink_bot_id s.world).0 ≡ inr cursor
    → (v' : Vars) (s' : Sys W)
    → Reaches env cfg handler expired (first_vars cursor) (after_load env cfg s) v' s'
    → stored s'.world ≡ v'.cursor
stored-cursor env cfg handler expired stored laws s cursor loaded v' s' r =
    Reaches-InSync env cfg handler expired stored laws (sym (laws.load_gives s.world cursor loaded))
      r
