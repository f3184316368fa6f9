-- ===== src/Listener/Loop/Delivery.antt =====
-- listener.go: what the handler was called with when the listener moves on to a new cursor.
use wechat_bot.Base.{
  ◌<◌, false, not, ◌&&◌, Option, none, [], ◌++◌, List, inl, inr, Str, str_eq, is_empty, pos_part,
  ◌≡◌, ◌≢◌, sym, ap, ◌∙◌, arith, append-nil, Option-cases, Bool-cases,
}
use wechat_bot.Config.{Config}
use wechat_bot.Errors.{Error}
use wechat_bot.Listener.Batch.{process_batch}
use wechat_bot.Listener.Batch.Sequence.{batch_deliveries}
use wechat_bot.Listener.Batch.Shares.{sent_by}
use wechat_bot.Listener.Batch.Users.{user_in_order}
use wechat_bot.Listener.Dispatch.Order.{Observes, Adds}
use wechat_bot.Listener.Env.{Sys, Handler, ExpiredHandler, Env, on_world}
use wechat_bot.Listener.Loop.{
  Vars, again, get_updates, is_session_expired, is_rejected, commit, accept, answer, iterate,
}
use wechat_bot.Listener.Loop.Iteration.{Committed, cursor-Committed}
use wechat_bot.Types.{GetUpdatesRequest, GetUpdatesResponse, InboundMessage}

-- Neither a poll, nor the saving of a cursor, nor the scheduler changes what was observed.
pub record Apart {W : Type 0} (env : Env W) (observed : Sys W → List InboundMessage) : Type 0 where
  pub polls :
      (q : GetUpdatesRequest) (s : Sys W)
      → observed (on_world (env.post_updates q) s).1 ≡ observed s
  pub saves :
      (bot_id buf : Str) (s : Sys W)
      → observed (on_world (env.save_buf bot_id buf) s).1 ≡ observed s
  pub schedules : (s : Sys W) → observed (on_world env.schedule s).1 ≡ observed s

module _ {W : Type 0} (env : Env W) (cfg : Config) (handler : Handler W)
    (expired : Option (ExpiredHandler W)) (observed : Sys W → List InboundMessage)
    (o : Observes handler (on_world env.ctx_err) observed) (apart : Apart env observed) where
  commit-observed :
      (v : Vars) (buf : Str) (s : Sys W)
      → observed (commit env cfg handler expired v buf s).1 ≡ observed s
  unfolding commit
  commit-observed v buf s = elim (Bool-cases (not (is_empty buf) && not (str_eq buf v.cursor))) [
    | inr same ↦ rw (same, commit)
    | inl fresh ↦
        let saved = apart.saves cfg.ilink_bot_id buf s in
        elim (Option-cases (on_world (env.save_buf cfg.ilink_bot_id buf) s).0) [
          | inr (e, failed) ↦ rw (fresh, failed, commit) saved
          | inl done ↦ rw (fresh, done, commit) saved
        ]
  ]

  -- Behind its batch an iteration calls the handler no more.
  accept-observed :
      (v : Vars) (r : GetUpdatesResponse) (s : Sys W)
      → observed (accept env cfg handler expired v r s).1
        ≡ observed (process_batch env handler (pos_part cfg.handler_concurrency) r.msgs s).1
  unfolding accept
  accept-observed v r s =
      let batch = process_batch env handler (pos_part cfg.handler_concurrency) r.msgs s in
      let fresh = record v { failures = 0; expired_count = 0 } in
      elim (Option-cases batch.0) [
        | inr (e, failed) ↦ rw (failed, accept)
        | inl done ↦
            let checked = on_world env.ctx_err batch.1 in
            elim (Option-cases checked.0) [
              | inr (e, cancelled) ↦ rw (done, cancelled, accept) (o.checked batch.1)
              | inl go ↦
                  rw (done, go, accept)
                    (commit-observed fresh r.get_updates_buf checked.1 ∙ o.checked batch.1)
            ]
      ]

  -- An iteration that moves the cursor is a poll and the acceptance of its response.
  iterate-accepts :
      (v v' : Vars) (s s' : Sys W) (cursor : Str)
      → iterate env cfg handler expired v s ≡ (again v', s')
      → (c : Committed env cfg handler expired v s cursor)
      → iterate env cfg handler expired v s
        ≡ accept env cfg handler expired v c.response
            (get_updates env cfg handler expired v.cursor (on_world env.ctx_err s).1).1
  unfolding iterate answer
  iterate-accepts v v' s s' cursor e c = elim (Option-cases (on_world env.ctx_err s).0) [
    | inr (x, cancelled) ↦ absurd (ground arith)
    | inl go ↦ rw (go, c.polled, c.live, c.accepted, iterate, answer)
  ]

  whole-batch :
      (expected : List InboundMessage) (u : Str) (s : Sys W) (r : Option Error × Sys W)
      → Adds (λ x. sent_by u (observed x)) expected s r
      → r.0 ≡ none
      → sent_by u (observed r.1) ≡ sent_by u (observed s) ++ expected
  whole-batch expected u s r a h =
      let nothing_left : a.rest ≡ [] = elim a.ended [ inl (e, failed) ↦ absurd (cc) | inr k ↦ k ] in
      let all : expected ≡ a.done =
        a.splits ∙ ap (λ l. a.done ++ l) nothing_left ∙ append-nil a.done in
      a.adds ∙ ap (λ l. sent_by u (observed s) ++ l) (sym all)

  -- If an iteration goes on with another cursor that is not empty, then a response that neither says
  -- that the session has expired nor carries another error code brought this cursor, and from each user the handler was called in this iteration with the
  -- items of that user's finished messages in the response: each of them once, in their order, and
  -- nothing else. Where only calls that succeed are listed, all of them succeeded. This holds at
  -- every concurrency of at least one and under every schedule of the workers in which the dispatch of
  -- a message is one move.
  pub cursor_delivered :
      (v v' : Vars) (s s' : Sys W)
      → 0 < pos_part cfg.handler_concurrency
      → iterate env cfg handler expired v s ≡ (again v', s')
      → v'.cursor ≢ v.cursor
      → v'.cursor ≢ []
      → (r : GetUpdatesResponse) × ((get_updates env cfg handler expired v.cursor
            (on_world env.ctx_err s).1).0
          ≡ inr r)
        × (is_session_expired r ≡ false)
        × (is_rejected r ≡ false)
        × (v'.cursor ≡ r.get_updates_buf)
        × ((u : Str)
            → sent_by u (observed s')
              ≡ sent_by u (observed s) ++ sent_by u (batch_deliveries env r.msgs))
  unfolding get_updates
  cursor_delivered v v' s s' h e other full =
      let c = cursor-Committed env cfg handler expired v v' s s' e other full in
      let s1 = (on_world env.ctx_err s).1 in
      let s2 = (get_updates env cfg handler expired v.cursor s1).1 in
      let batch = process_batch env handler (pos_part cfg.handler_concurrency) c.response.msgs s2 in
      let before : observed s2 ≡ observed s = apart.polls _ s1 ∙ o.checked s in
      let after : observed s' ≡ observed batch.1 =
        ap (λ r. observed r.1) (sym e ∙ iterate-accepts v v' s s' v'.cursor e c)
        ∙ accept-observed v c.response s2 in
      (
        c.response,
        c.polled,
        c.live,
        c.accepted,
        c.carried,
        λ u.
            ap (sent_by u) after
            ∙ whole-batch (sent_by u (batch_deliveries env c.response.msgs)) u s2 batch
                (user_in_order env handler observed o apart.schedules u
                  (pos_part cfg.handler_concurrency) c.response.msgs s2 h)
                c.processed
            ∙ ap (λ l. sent_by u l ++ sent_by u (batch_deliveries env c.response.msgs)) before,
      )
