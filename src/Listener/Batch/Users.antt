-- ===== src/Listener/Batch/Users.antt =====
-- listener.go: what the handler is called with from one user, under every schedule of the workers.
use wechat_bot.Base.{
  ℕ, zero, suc, ◌<◌, none, List, [], ◌++◌, inl, inr, length, ◌==◌, Str, ◌≡◌, refl, sym, ap, ◌∙◌,
  arith, append_assoc, append-nil, replicate, min, Bool-cases, List-cases,
}
use wechat_bot.Listener.Batch.Balance.{append_left_cancel, seen, Owes, Owes-from}
use wechat_bot.Listener.Batch.Sequence.{batch_deliveries, batch_in_order}
use wechat_bot.Listener.Batch.Shares.{sent_by, due, owed, holders, batch-OwesOnce}
use wechat_bot.Listener.Batch.Workers.{run_pool-ends, start_pool-IsServed}
use wechat_bot.Listener.Batch.{
  group_messages, no_groups, Pool, process_in_turn, pool_move, run_pool, pool_measure, batch_cause,
  start_pool, process_concurrently, process_batch,
}
use wechat_bot.Listener.Dispatch.Order.{Observes, Adds}
use wechat_bot.Listener.Env.{Sys, Handler, Env, on_world}
use wechat_bot.Types.{Message, InboundMessage}
use wechat_bot.Listener.Batch.Moves.{Adds-sent_by, pool_move-Owes}

module _ {W : Type 0} (env : Env W) (handler : Handler W) (observed : Sys W → List InboundMessage)
    (o : Observes handler (on_world env.ctx_err) observed)
    (quiet : (s : Sys W) → observed (on_world env.schedule s).1 ≡ observed s) (u : Str) where
  module _ (base goal : List InboundMessage) where
    run_pool-Owes :
        (fuel : ℕ) (p : Pool) (s : Sys W)
        → Owes env observed u base goal p s
        → Owes env observed u base goal
            (run_pool env handler fuel p s).0
            (run_pool env handler fuel p s).1
    unfolding run_pool
    run_pool-Owes zero p s h = h
    run_pool-Owes (suc fuel) p s h = elim (List-cases p.live) [
      | inl nobody ↦ rw (nobody, run_pool) h
      | inr (work, ws, busy) ↦
          let choice = (on_world env.schedule s).0 in
          let s1 = (on_world env.schedule s).1 in
          let moved = pool_move env handler choice p s1 in
          rw (busy, run_pool)
            (run_pool-Owes fuel moved.0 moved.1 (
              pool_move-Owes env handler observed o u base goal choice p s1
                (Owes-from env observed u base goal p s s1 (quiet s) h)))
    ]

  -- Workers that wait at the channel owe nothing.
  idle-owed : (n : ℕ) → (owed env u (replicate n []) ≡ []) × (holders env u (replicate n []) ≡ 0)
  idle-owed zero = (refl, refl)
  idle-owed (suc n) = let (nothing, nobody) = idle-owed n in (nothing, omega (arith, nobody))

  start_pool-Owes :
      (concurrency : ℕ) (ms : List Message) (s : Sys W)
      → Owes env observed u
          (seen observed u s)
          (seen observed u s ++ due env u ms)
          (start_pool concurrency (group_messages no_groups ms).groups)
          s
  unfolding start_pool
  start_pool-Owes concurrency ms s =
      let groups = (group_messages no_groups ms).groups in
      let once = batch-OwesOnce env u ms in
      let (idle, unheld) = idle-owed (min concurrency (length groups)) in
      inl (record {
        clear = refl;
        grown = ([], sym (append-nil (seen observed u s)));
        lone = omega (arith, once.lone, unheld);
        balance =
            ap (λ l. seen observed u s ++ l)
              (sym once.whole ∙ ap (λ l. l ++ owed env u groups) (sym idle));
      })

  batch_cause-Adds :
      (goal : List InboundMessage) (p : Pool) (s s' : Sys W)
      → (p.cause ≡ none → (p.live ≡ []) × (p.pending ≡ []))
      → Owes env observed u (seen observed u s) (seen observed u s ++ goal) p s'
      → Adds (seen observed u) goal s (batch_cause env handler p s')
  unfolding batch_cause
  batch_cause-Adds goal p s s' ended (inl w) =
      let (gone, handed) = ended w.clear in
      let all : seen observed u s ++ goal ≡ seen observed u s' =
        w.balance
        ∙ ap (λ l. seen observed u s' ++ (owed env u l ++ owed env u p.pending)) gone
        ∙ ap (λ l. seen observed u s' ++ (owed env u l)) handed
        ∙ append-nil (seen observed u s') in
      rw (w.clear, batch_cause)
        (record {
          done = goal;
          rest = [];
          splits = sym (append-nil goal);
          adds = ap (sent_by u) (o.checked s') ∙ sym all;
          ended = inr refl;
        })
  batch_cause-Adds goal p s s' ended (inr c) =
      rw (c.cancelled, batch_cause)
        (record {
          done = c.grown.0;
          rest = c.rest;
          splits = append_left_cancel (seen observed u s) goal (c.grown.0 ++ c.rest) (
              c.splits
              ∙ ap (λ l. l ++ c.rest) c.grown.1
              ∙ append_assoc (seen observed u s) c.grown.0 c.rest);
          adds = c.grown.1;
          ended = inl (c.first, refl);
        })

  -- At every concurrency of at least one and under every schedule in which the dispatch of a message
  -- is one move, what the handler is called with
  -- from a user during a batch is a first part of the items of that user's finished messages in the
  -- batch, each once and in their order, and it is all of them if the batch succeeds.
  pub user_in_order :
      (concurrency : ℕ) (ms : List Message) (s : Sys W)
      → 0 < concurrency
      → Adds
          (λ s'. sent_by u (observed s'))
          (sent_by u (batch_deliveries env ms))
          s
          (process_batch env handler concurrency ms s)
  unfolding process_batch process_concurrently
  user_in_order concurrency ms s h = elim (Bool-cases (concurrency == 1)) [
    | inl one ↦
        rw (one, process_batch)
          (Adds-sent_by env handler observed o u (batch_deliveries env ms) s
            (process_in_turn env handler ms s) (batch_in_order env handler observed o ms s))
    | inr many ↦
        let groups = (group_messages no_groups ms).groups in
        let pool = start_pool concurrency groups in
        let run = run_pool env handler (pool_measure pool) pool s in
        let (ended, served) =
          run_pool-ends env handler (pool_measure pool) pool s (omega arith)
            (start_pool-IsServed concurrency groups h) in
        rw (many, process_batch)
          (batch_cause-Adds (due env u ms) run.0 s run.1 (λ clear. (ended, served clear ended))
            (run_pool-Owes (seen observed u s) (seen observed u s ++ due env u ms)
              (pool_measure pool) pool s (start_pool-Owes concurrency ms s)))
  ]
