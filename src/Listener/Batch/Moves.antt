-- ===== src/Listener/Batch/Moves.antt =====
-- listener.go: what one move of the workers does to the balance of a user.
use wechat_bot.Base.{
  ℕ, ◌+◌, ◌%◌, ◌≤◌, ◌&&◌, Option, none, some, List, [], ◌∷◌, ◌++◌, inl, inr, length, ◌==◌, Str, ◌≡◌,
  refl, sym, ap, subst, ◌∙◌, arith, Option-cases, Bool-cases, List-cases,
}
use wechat_bot.Errors.{Error}
use wechat_bot.Listener.Batch.Balance.{
  seen, Working, Stopped, Owes, Owes-from, owed-around, hand-over, dispatched-Working,
  failed-Stopped, same_cause-Stopped,
}
use wechat_bot.Listener.Batch.Shares.{
  sent_by, sent_by-append, owed, holders, owed-append, holders-append,
}
use wechat_bot.Listener.Batch.Workers.{cancel-some, split_at-append}
use wechat_bot.Listener.Batch.{
  Pool, split_at, batch_ctx_err, cancel, worker_move, worker_turn, sender_waits, sender_move,
  batch_cause, pool_move,
}
use wechat_bot.Listener.Dispatch.Order.{Observes, Adds, deliveries, dispatch_inbound-Adds}
use wechat_bot.Listener.Dispatch.{dispatch_inbound}
use wechat_bot.Listener.Env.{Sys, Handler, Env, on_world}
use wechat_bot.Types.{Message, InboundMessage}

module _ {W : Type 0} (env : Env W) (handler : Handler W) (observed : Sys W → List InboundMessage)
    (o : Observes handler (on_world env.ctx_err) observed) (u : Str) where
  pub Adds-sent_by :
      (expected : List InboundMessage) (s : Sys W) (r : Option Error × Sys W)
      → Adds observed expected s r
      → Adds (seen observed u) (sent_by u expected) s r
  Adds-sent_by expected s r a = record {
    done = sent_by u a.done;
    rest = sent_by u a.rest;
    splits = ap (sent_by u) a.splits ∙ sent_by-append u a.done a.rest;
    adds = ap (sent_by u) a.adds ∙ sent_by-append u (observed s) a.done;
    ended = elim a.ended [ inl (e, h) ↦ inl (e, h) | inr h ↦ inr (ap (sent_by u) h) ];
  }

  batch_ctx_err-Observes :
      (cause : Option Error) → Observes handler (batch_ctx_err env handler cause) observed
  unfolding batch_ctx_err
  batch_ctx_err-Observes none = o
  batch_ctx_err-Observes (some e) = record {
    called = o.called;
    checked = λ s. refl;
    stored = o.stored;
  }

  cancel-observed :
      (cause : Option Error) (e : Error) (s : Sys W)
      → observed (cancel env handler cause e s).1 ≡ observed s
  unfolding cancel
  cancel-observed none e s = o.checked s
  cancel-observed (some first) e s = refl

  module _ (base goal : List InboundMessage) where
    -- In a cancelled batch a worker ends at its next message.
    stopped-move :
        (p : Pool) (before : List (List Message)) (m : Message) (ms : List Message)
        (after : List (List Message)) (s : Sys W) (cause : Option Error) (first : Error)
        → cause ≡ some first
        → worker_move env handler (record p { cause = cause }) before (m ∷ ms) after s
          ≡ (record p { live = before ++ after; cause = some first }, s)
    unfolding worker_move dispatch_inbound batch_ctx_err cancel
    stopped-move p before m ms after s none first h = absurd (cc)
    stopped-move p before m ms after s (some e) first h =
        ap (λ c. (record p { live = before ++ after; cause = c }, s)) h

    worker_move-Stopped :
        (p : Pool) (before : List (List Message)) (work : List Message)
        (after : List (List Message)) (s : Sys W)
        → Stopped env observed u base goal p s
        → Stopped env observed u base goal
            (worker_move env handler p before work after s).0
            (worker_move env handler p before work after s).1
    unfolding worker_move cancel
    worker_move-Stopped p before [] after s h = elim (List-cases p.pending) [
      | inl closed ↦
          rw (closed, worker_move) (same_cause-Stopped env observed u base goal p _ s refl h)
      | inr (g, gs, offered) ↦
          rw (offered, worker_move) (same_cause-Stopped env observed u base goal p _ s refl h)
    ]
    worker_move-Stopped p before (m ∷ ms) after s h =
        subst (λ r. Stopped env observed u base goal r.0 r.1)
          (sym (stopped-move p before m ms after s p.cause h.first h.cancelled))
          (same_cause-Stopped env observed u base goal p _ s (sym h.cancelled) h)

    worker_move-Working :
        (p : Pool) (before : List (List Message)) (work : List Message)
        (after : List (List Message)) (s : Sys W)
        → p.live ≡ before ++ work ∷ after
        → Working env observed u base goal p s
        → Owes env observed u base goal
            (worker_move env handler p before work after s).0
            (worker_move env handler p before work after s).1
    unfolding worker_move cancel
    worker_move-Working p before [] after s e w =
        let total = ap (holders env u) e ∙ holders-append env u before ([] ∷ after) in
        elim (List-cases p.pending) [
          | inl closed ↦
              rw (closed, worker_move)
                (inl (record {
                  clear = w.clear;
                  grown = w.grown;
                  lone = omega (arith, total, holders-append env u before after, w.lone);
                  balance =
                      w.balance
                      ∙ ap (λ l. seen observed u s ++ (l ++ owed env u p.pending))
                          (ap (owed env u) e
                            ∙ owed-around env observed u base goal before [] after
                            ∙ sym (owed-append env u before after));
                }))
          | inr (g, gs, offered) ↦
              let total' = holders-append env u before (g ∷ after) in
              let pending = ap (holders env u) offered in
              let at_most : holders env u (before ++ [] ∷ after) + holders env u (g ∷ gs) ≤ 1 =
                omega (arith, w.lone, pending, ap (holders env u) e) in
              rw (offered, worker_move)
                (inl (record {
                  clear = w.clear;
                  grown = w.grown;
                  lone = omega (arith, total, total', pending, w.lone);
                  balance =
                      w.balance
                      ∙ ap (λ l. seen observed u s ++ (l ++ owed env u p.pending))
                          (ap (owed env u) e)
                      ∙ ap (λ l. seen observed u s ++ (owed env u (before ++ [] ∷ after) ++ l))
                          (ap (owed env u) offered)
                      ∙ ap (λ l. seen observed u s ++ l)
                          (hand-over env observed u base goal before after g gs at_most);
                }))
        ]
    worker_move-Working p before (m ∷ rest) after s e w =
        let ctx_err = batch_ctx_err env handler p.cause in
        let r = dispatch_inbound env handler ctx_err m s in
        let added = Adds-sent_by (deliveries env m) s r (
          dispatch_inbound-Adds env handler ctx_err observed (batch_ctx_err-Observes p.cause) m
            s) in
        elim (Option-cases r.0) [
          | inl done ↦
              rw (done, worker_move)
                (inl (
                  dispatched-Working env observed u base goal p s r.1 before m rest after e w (
                    subst (λ x. Adds (seen observed u) (sent_by u (deliveries env m)) s (x, r.1))
                      done added)))
          | inr (e1, failed) ↦
              let (first, set) = cancel-some env handler p.cause e1 r.1 in
              rw (failed, worker_move, set)
                (inr (
                  failed-Stopped env observed u base goal p s r.1
                    (cancel env handler p.cause e1 r.1).1 before m rest after (before ++ after) e1
                    first e w
                    (subst (λ x. Adds (seen observed u) (sent_by u (deliveries env m)) s (x, r.1))
                      failed added)
                    (cancel-observed p.cause e1 r.1)))
        ]

    worker_turn-Owes :
        (choice : ℕ) (p : Pool) (s : Sys W)
        → Owes env observed u base goal p s
        → Owes env observed u base goal
            (worker_turn env handler choice p s).0
            (worker_turn env handler choice p s).1
    unfolding worker_turn
    worker_turn-Owes choice p s h = elim (Option-cases (split_at (choice % length p.live) p.live)) [
      | inl nobody ↦ rw (nobody, worker_turn) h
      | inr (parts, found) ↦
          rw (found, worker_turn)
            (elim h [
              | inl w ↦
                  worker_move-Working p parts.0 parts.1 parts.2 s
                    (split_at-append (choice % length p.live) p.live parts.0 parts.1 parts.2 found)
                    w
              | inr c ↦ inr (worker_move-Stopped p parts.0 parts.1 parts.2 s c)
            ])
    ]

    batch_cause-observed :
        (p : Pool) (s : Sys W) → observed (batch_cause env handler p s).1 ≡ observed s
    unfolding batch_cause
    batch_cause-observed p s = elim (Option-cases p.cause) [
      | inl clear ↦ rw (clear, batch_cause) (o.checked s)
      | inr (e, cancelled) ↦ rw (cancelled, batch_cause)
    ]

    sender-Owes :
        (p : Pool) (s : Sys W) (e : Error)
        → Owes env observed u base goal p s
        → Owes env observed u base goal (record p { pending = []; cause = some e }) s
    sender-Owes p s e (inl w) = inr (record {
      first = e;
      cancelled = refl;
      grown = w.grown;
      rest = owed env u p.live ++ owed env u p.pending;
      splits = w.balance;
    })
    sender-Owes p s e (inr c) =
        inr (record {
          first = e;
          cancelled = refl;
          grown = c.grown;
          rest = c.rest;
          splits = c.splits;
        })

    pub pool_move-Owes :
        (choice : ℕ) (p : Pool) (s : Sys W)
        → Owes env observed u base goal p s
        → Owes env observed u base goal
            (pool_move env handler choice p s).0
            (pool_move env handler choice p s).1
    unfolding pool_move sender_move
    pool_move-Owes choice p s h = elim (Bool-cases (sender_waits p && choice == 0)) [
      | inr other ↦ rw (other, pool_move) (worker_turn-Owes choice p s h)
      | inl first ↦
          let checked = batch_cause env handler p s in
          let h' = Owes-from env observed u base goal p s checked.1 (batch_cause-observed p s) h in
          elim (Option-cases checked.0) [
            | inr (e, done) ↦
                rw (first, done, pool_move, sender_move) (sender-Owes p checked.1 e h')
            | inl go ↦
                rw (first, go, pool_move, sender_move) (worker_turn-Owes choice p checked.1 h')
          ]
    ]
