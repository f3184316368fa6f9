-- ===== src/Listener/Batch/Sequence.antt =====
-- listener.go: what the handler is called with for a batch at a concurrency of one.
use wechat_bot.Base.{List, [], ◌∷◌, ◌++◌, refl, subst, Option-cases, inl, inr}
use wechat_bot.Listener.Batch.{process_in_turn, process_batch}
use wechat_bot.Listener.Dispatch.Order.{
  Observes, Adds, deliveries, Adds-none, Adds-stop, Adds-append, dispatch_inbound-Adds,
}
use wechat_bot.Listener.Dispatch.{dispatch_inbound}
use wechat_bot.Listener.Env.{Sys, Handler, Env, on_world}
use wechat_bot.Types.{Message, InboundMessage}

-- What the handler is called with for a batch, if nothing fails.
abbrev pub batch_deliveries : {W : Type 0} → Env W → List Message → List InboundMessage
batch_deliveries env [] = []
batch_deliveries env (m ∷ ms) = deliveries env m ++ batch_deliveries env ms

module _ {W : Type 0} (env : Env W) (handler : Handler W) (observed : Sys W → List InboundMessage)
    (o : Observes handler (on_world env.ctx_err) observed) where
  process_in_turn-Adds :
      (ms : List Message) (s : Sys W)
      → Adds observed (batch_deliveries env ms) s (process_in_turn env handler ms s)
  unfolding process_in_turn
  process_in_turn-Adds [] s = Adds-none env handler (on_world env.ctx_err) observed o s s refl
  process_in_turn-Adds (m ∷ ms) s =
      let r = dispatch_inbound env handler (on_world env.ctx_err) m s in
      let one = dispatch_inbound-Adds env handler (on_world env.ctx_err) observed o m s in
      elim (Option-cases r.0) [
        | inr (e, failed) ↦
            rw (failed, process_in_turn)
              (Adds-stop env handler (on_world env.ctx_err) observed o (deliveries env m)
                (batch_deliveries env ms) s r.1 e
                (subst (λ x. Adds observed (deliveries env m) s (x, r.1)) failed one))
        | inl done ↦
            rw (done, process_in_turn)
              (Adds-append env handler (on_world env.ctx_err) observed o (deliveries env m)
                (batch_deliveries env ms) s r.1 _
                (subst (λ x. Adds observed (deliveries env m) s (x, r.1)) done one)
                (process_in_turn-Adds ms r.1))
      ]

  -- At a concurrency of one, what the handler is called with during a batch is a first part of the
  -- items of the batch's finished user messages, each once and in their order, and it is all of
  -- them if the batch succeeds.
  pub batch_in_order :
      (ms : List Message) (s : Sys W)
      → Adds observed (batch_deliveries env ms) s (process_batch env handler 1 ms s)
  unfolding process_batch
  batch_in_order ms s = process_in_turn-Adds ms s
