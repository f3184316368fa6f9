-- ===== src/Listener/Batch/Invariant.antt =====
-- listener.go: predicates that a batch keeps.
use wechat_bot.Base.{
  ℕ, zero, suc, ◌%◌, ◌&&◌, Option, none, some, List, [], ◌∷◌, inl, inr, length, Str, ◌==◌,
  Option-cases, Bool-cases, Sum-cases, List-cases,
}
use wechat_bot.Errors.{Error}
use wechat_bot.Listener.Batch.{
  group_messages, no_groups, Pool, split_at, batch_ctx_err, cancel, worker_move, worker_turn,
  sender_waits, sender_move, pool_move, run_pool, pool_measure, process_in_turn, batch_cause,
  start_pool, process_concurrently, process_batch,
}
use wechat_bot.Listener.Dispatch.{
  inbound_message, is_deliverable, remember_token, raw_of, deliver_items, dispatch_inbound,
}
use wechat_bot.Listener.Env.{Sys, Action, Handler, Env, on_world, invoke_handler}
use wechat_bot.TokenCache.{ConversationContext}
use wechat_bot.Types.{Item, Message, InboundMessage}

-- `P` survives a call of the handler, an operation of the world, and the storing of a token.
pub record Kept {W : Type 0} (env : Env W) (handler : Handler W) (P : Sys W → Type 0) : Type 0 where
  pub called :
      (ctx : Option ConversationContext) (m : InboundMessage) (s : Sys W)
      → P s
      → P (handler ctx m s).1
  pub checked : (s : Sys W) → P s → P (on_world env.ctx_err s).1
  pub scheduled : (s : Sys W) → P s → P (on_world env.schedule s).1
  pub remembered : (m : Message) (s : Sys W) → P s → P (remember_token m s).1

module _ {W : Type 0} (env : Env W) (handler : Handler W) (P : Sys W → Type 0)
    (k : Kept env handler P) where
  batch_ctx_err-kept :
      (cause : Option Error) (s : Sys W) → P s → P (batch_ctx_err env handler cause s).1
  unfolding batch_ctx_err
  batch_ctx_err-kept (some _) s p = p
  batch_ctx_err-kept none s p = k.checked s p

  cancel-kept :
      (cause : Option Error) (e : Error) (s : Sys W) → P s → P (cancel env handler cause e s).1
  unfolding cancel
  cancel-kept (some _) e s p = p
  cancel-kept none e s p = k.checked s p

  module _ (ctx_err : Action (Sys W) (Option Error)) (c : (s : Sys W) → P s → P (ctx_err s).1) where
    deliver_items-kept :
        (m : Message) (raw : Str) (ctx : Option ConversationContext) (items : List Item) (s : Sys W)
        → P s
        → P (deliver_items env handler ctx_err m raw ctx items s).1
    unfolding deliver_items invoke_handler
    deliver_items-kept m raw ctx [] s p = p
    deliver_items-kept m raw ctx (item ∷ items) s p =
        let s1 = (ctx_err s).1 in
        let inbound = inbound_message m raw item in
        let called = invoke_handler handler ctx inbound s1 in
        let p2 = k.called ctx inbound s1 (c s p) in
        elim (Option-cases (ctx_err s).0) [
          | inr (e, stop) ↦ rw (stop, deliver_items) (c s p)
          | inl go ↦ elim (Option-cases called.0) [
            | inr (e, failed) ↦ rw (go, failed, deliver_items) p2
            | inl done ↦
                rw (go, done, deliver_items) (deliver_items-kept m raw ctx items called.1 p2)
          ]
        ]

    dispatch_inbound-kept :
        (m : Message) (s : Sys W) → P s → P (dispatch_inbound env handler ctx_err m s).1
    unfolding dispatch_inbound
    dispatch_inbound-kept m s p =
        let s1 = (ctx_err s).1 in
        elim (Option-cases (ctx_err s).0) [
          | inr (e, stop) ↦ rw (stop, dispatch_inbound) (c s p)
          | inl go ↦ elim (Bool-cases (is_deliverable m)) [
            | inr skip ↦ rw (go, skip, dispatch_inbound) (c s p)
            | inl mine ↦
                let p2 = k.remembered m s1 (c s p) in
                elim (Sum-cases (raw_of env m)) [
                  | inl (e, bad) ↦ rw (go, mine, bad, dispatch_inbound) p2
                  | inr (raw, good) ↦
                      rw (go, mine, good, dispatch_inbound)
                        (deliver_items-kept m raw (remember_token m s1).0 m.item_list
                          (remember_token m s1).1 p2)
                ]
          ]
        ]

  pub process_in_turn-kept :
      (ms : List Message) (s : Sys W) → P s → P (process_in_turn env handler ms s).1
  unfolding process_in_turn
  process_in_turn-kept [] s p = p
  process_in_turn-kept (m ∷ ms) s p =
      let r = dispatch_inbound env handler (on_world env.ctx_err) m s in
      let p1 = dispatch_inbound-kept (on_world env.ctx_err) k.checked m s p in
      elim (Option-cases r.0) [
        | inr (e, failed) ↦ rw (failed, process_in_turn) p1
        | inl done ↦ rw (done, process_in_turn) (process_in_turn-kept ms r.1 p1)
      ]

  worker_move-kept :
      (p : Pool) (before : List (List Message)) (work : List Message) (after : List (List Message))
      (s : Sys W)
      → P s
      → P (worker_move env handler p before work after s).1
  unfolding worker_move
  worker_move-kept p before [] after s h = elim (List-cases p.pending) [
    | inl closed ↦ rw (closed, worker_move) h
    | inr (g, gs, offered) ↦ rw (offered, worker_move) h
  ]
  worker_move-kept p before (m ∷ rest) after s h =
      let r = dispatch_inbound env handler (batch_ctx_err env handler p.cause) m s in
      let p1 =
        dispatch_inbound-kept (batch_ctx_err env handler p.cause) (batch_ctx_err-kept p.cause) m s
          h in
      elim (Option-cases r.0) [
        | inr (e, failed) ↦ rw (failed, worker_move) (cancel-kept p.cause e r.1 p1)
        | inl done ↦ rw (done, worker_move) p1
      ]

  worker_turn-kept :
      (choice : ℕ) (p : Pool) (s : Sys W) → P s → P (worker_turn env handler choice p s).1
  unfolding worker_turn
  worker_turn-kept choice p s h = elim (Option-cases (split_at (choice % length p.live) p.live)) [
    | inl nobody ↦ rw (nobody, worker_turn) h
    | inr (parts, found) ↦ rw (found, worker_turn) (worker_move-kept p parts.0 parts.1 parts.2 s h)
  ]

  batch_cause-kept : (p : Pool) (s : Sys W) → P s → P (batch_cause env handler p s).1
  unfolding batch_cause
  batch_cause-kept p s h = elim (Option-cases p.cause) [
    | inr (e, c) ↦ rw (c, batch_cause) h
    | inl none_yet ↦ rw (none_yet, batch_cause) (k.checked s h)
  ]

  sender_move-kept :
      (choice : ℕ) (p : Pool) (s : Sys W) → P s → P (sender_move env handler choice p s).1
  unfolding sender_move
  sender_move-kept choice p s h =
      let caused = batch_cause-kept p s h in
      let checked = batch_cause env handler p s in
      elim (Option-cases checked.0) [
        | inr (e, done) ↦ rw (done, sender_move) caused
        | inl go ↦ rw (go, sender_move) (worker_turn-kept choice p checked.1 caused)
      ]

  pool_move-kept :
      (choice : ℕ) (p : Pool) (s : Sys W) → P s → P (pool_move env handler choice p s).1
  unfolding pool_move
  pool_move-kept choice p s h = elim (Bool-cases (sender_waits p && choice == 0)) [
    | inl first ↦ rw (first, pool_move) (sender_move-kept choice p s h)
    | inr other ↦ rw (other, pool_move) (worker_turn-kept choice p s h)
  ]

  run_pool-kept : (fuel : ℕ) (p : Pool) (s : Sys W) → P s → P (run_pool env handler fuel p s).1
  unfolding run_pool
  run_pool-kept zero p s h = h
  run_pool-kept (suc fuel) p s h = elim (List-cases p.live) [
    | inl nobody ↦ rw (nobody, run_pool) h
    | inr (w, ws, busy) ↦
        let s1 = (on_world env.schedule s).1 in
        let choice = (on_world env.schedule s).0 in
        rw (busy, run_pool)
          (run_pool-kept fuel (pool_move env handler choice p s1).0
            (pool_move env handler choice p s1).1 (pool_move-kept choice p s1 (k.scheduled s h)))
  ]

  -- A batch keeps what each of its steps keeps, at every concurrency and under every schedule.
  pub process_batch-kept :
      (concurrency : ℕ) (ms : List Message) (s : Sys W)
      → P s
      → P (process_batch env handler concurrency ms s).1
  unfolding process_batch process_concurrently
  process_batch-kept concurrency ms s h = elim (Bool-cases (concurrency == 1)) [
    | inl one ↦ rw (one, process_batch) (process_in_turn-kept ms s h)
    | inr many ↦
        let pool = start_pool concurrency (group_messages no_groups ms).groups in
        let run = run_pool env handler (pool_measure pool) pool s in
        rw (many, process_batch) (batch_cause-kept run.0 run.1 (run_pool-kept _ pool s h))
  ]
