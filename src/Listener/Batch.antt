-- ===== src/Listener/Batch.antt =====
-- listener.go: `processBatch`. With a concurrency of one the messages are dispatched in turn.
-- Otherwise each user's messages form a group, and the groups are handed over an unbuffered
-- channel to workers. A move of the pool is one worker receiving a group, dispatching one message
-- or ending, or the sender giving up, because a worker has cancelled the batch or because the context
-- above it is cancelled; `Env.schedule` chooses among the moves that are possible. A
-- dispatch is one move, so that handlers of different workers take turns at whole messages.
pub mod Balance
pub mod Group
pub mod Invariant
pub mod Moves
pub mod Sequence
pub mod Shares
pub mod Users
pub mod Workers
use wechat_bot.Base.{
  ℕ, zero, suc, ◌+◌, ◌%◌, min, Bool, true, false, not, ◌&&◌, Option, none, some, List, [], ◌∷◌,
  ◌++◌, length, if◌then◌else◌, Str, ◌==◌, take, replicate, is_empty,
}
use wechat_bot.Errors.{Error, canceled}
use wechat_bot.Listener.Dispatch.{is_deliverable, dispatch_inbound}
use wechat_bot.Listener.Env.{Sys, Action, Handler, Env, on_world}
use wechat_bot.TokenCache.{map_get, map_set}
use wechat_bot.Types.{Message}

-- `groups[index] = append(groups[index], m)`; an index out of range does not occur.
unfoldable pub append_at : ℕ → Message → List (List Message) → List (List Message)
append_at i m [] = []
append_at zero m (g ∷ gs) = (g ++ m ∷ []) ∷ gs
append_at (suc i) m (g ∷ gs) = g ∷ append_at i m gs

-- The variables of the grouping loop.
pub record Grouping : Type 0 where
  pub indexes : List (Str × ℕ)
  pub groups : List (List Message)

unfoldable pub group_message : Grouping → Message → Grouping
group_message g m = if not (is_deliverable m) then g else elim (map_get m.from_user_id g.indexes) [
  | some index ↦ record g { groups = append_at index m g.groups }
  | none ↦
      let index = length g.groups in
      record {
        indexes = map_set m.from_user_id index g.indexes;
        groups = append_at index m (g.groups ++ [] ∷ []);
      }
]

unfoldable pub group_messages : Grouping → List Message → Grouping
group_messages g [] = g
group_messages g (m ∷ ms) = group_messages (group_message g m) ms

abbrev pub no_groups : Grouping
no_groups = record { indexes = []; groups = [] }

-- The groups that were not handed over yet, what each running worker still has to do (nothing
-- for a worker at the channel), and the cause of the batch context's cancellation.
pub record Pool : Type 0 where
  pub pending : List (List Message)
  pub live : List (List Message)
  pub cause : Option Error

-- The list around its element at `i`.
unfoldable pub split_at : {A : Type 0} → ℕ → List A → Option (List A × A × List A)
split_at i [] = none
split_at zero (x ∷ xs) = some ([], x, xs)
split_at (suc i) (x ∷ xs) = elim (split_at i xs) [
  | none ↦ none
  | some (before, y, after) ↦ some (x ∷ before, y, after)
]

-- The sender is at its `select`: it has a group to hand over.
unfoldable pub sender_waits : Pool → Bool
sender_waits p = elim p.pending [ [] ↦ false | _ ∷ _ ↦ true ]

-- Every move leaves less to do: enough fuel for a pool.
unfoldable pub work_left : List (List Message) → ℕ
work_left [] = 0
work_left (g ∷ gs) = length g + 1 + work_left gs

unfoldable pub pool_measure : Pool → ℕ
pool_measure p = work_left p.pending + length p.pending + work_left p.live

unfoldable pub start_pool : ℕ → List (List Message) → Pool
start_pool concurrency groups = record {
  pending = groups;
  live = replicate (min concurrency (length groups)) [];
  cause = none;
}

module _ {W : Type 0} (env : Env W) (handler : Handler W) where
  -- `batchCtx.Err()`: cancelled by a worker, or as the context above it. Once there is a cause, the error
  -- is that of a cancellation also where a deadline above was the cause: `cancel` drops it, since the
  -- first cancellation counts.
  unfoldable pub batch_ctx_err : Option Error → Action (Sys W) (Option Error)
  batch_ctx_err (some _) s = (some canceled, s)
  batch_ctx_err none s = on_world env.ctx_err s

  -- `cancel(err)`: the first cancellation counts, also that of the context above.
  unfoldable pub cancel : Option Error → Error → Action (Sys W) (Option Error)
  cancel (some first) e s = (some first, s)
  cancel none e s =
      let (above, s1) = on_world env.ctx_err s in
      (elim above [ some first ↦ some first | none ↦ some e ], s1)

  -- A move of the worker that still has to do `work`; `before` and `after` are the others.
  unfoldable pub worker_move :
      Pool → List (List Message) → List Message → List (List Message) → Action (Sys W) Pool
  worker_move p before (m ∷ rest) after s =
      let (failed, s1) = dispatch_inbound env handler (batch_ctx_err p.cause) m s in
      elim failed [
        | none ↦ (record p { live = before ++ rest ∷ after }, s1)
        | some e ↦
            let (cause, s2) = cancel p.cause e s1 in
            (record p { live = before ++ after; cause = cause }, s2)
      ]
  worker_move p before [] after s = elim p.pending [
    | g ∷ gs ↦ (record p { pending = gs; live = before ++ g ∷ after }, s)
    | [] ↦ (record p { live = before ++ after }, s)
  ]

  -- The worker that is chosen makes its move.
  unfoldable pub worker_turn : ℕ → Pool → Action (Sys W) Pool
  worker_turn choice p s = elim (split_at (choice % length p.live) p.live) [
    | none ↦ (p, s)
    | some (before, work, after) ↦ worker_move p before work after s
  ]

  -- `context.Cause(batchCtx)`: the error of a worker, or that of the context above it.
  unfoldable pub batch_cause : Pool → Action (Sys W) (Option Error)
  batch_cause p s = elim p.cause [ some e ↦ (some e, s) | none ↦ on_world env.ctx_err s ]

  -- The sender's `case <-batchCtx.Done()`, which is there once a worker has cancelled the batch or
  -- the context above it is cancelled, which is then the cause; before that a worker makes its move.
  unfoldable pub sender_move : ℕ → Pool → Action (Sys W) Pool
  sender_move choice p s =
      let (done, s1) = batch_cause p s in
      elim done [
        | some first ↦ (record p { pending = []; cause = some first }, s1)
        | none ↦ worker_turn choice p s1
      ]

  unfoldable pub pool_move : ℕ → Pool → Action (Sys W) Pool
  pool_move choice p s =
      if sender_waits p && choice == 0 then sender_move choice p s else worker_turn choice p s

  -- Moves until no worker is left.
  unfoldable pub run_pool : ℕ → Pool → Action (Sys W) Pool
  run_pool zero p s = (p, s)
  run_pool (suc fuel) p s = elim p.live [
    | [] ↦ (p, s)
    | _ ∷ _ ↦
        let (choice, s1) = on_world env.schedule s in
        let (p', s2) = pool_move choice p s1 in run_pool fuel p' s2
  ]

  unfoldable pub process_in_turn : List Message → Action (Sys W) (Option Error)
  process_in_turn [] s = (none, s)
  process_in_turn (m ∷ ms) s =
      let (failed, s1) = dispatch_inbound env handler (on_world env.ctx_err) m s in
      elim failed [ some e ↦ (some e, s1) | none ↦ process_in_turn ms s1 ]

  unfoldable pub process_concurrently : ℕ → List Message → Action (Sys W) (Option Error)
  process_concurrently concurrency messages s =
      let pool = start_pool concurrency (group_messages no_groups messages).groups in
      let (p, s1) = run_pool (pool_measure pool) pool s in batch_cause p s1

  unfoldable pub process_batch : ℕ → List Message → Action (Sys W) (Option Error)
  process_batch concurrency messages s =
      if concurrency == 1
      then process_in_turn messages s
      else process_concurrently concurrency messages s
