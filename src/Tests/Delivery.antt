-- ===== src/Tests/Delivery.antt =====
-- listener.go: an iteration that hands a message to one of two workers and saves the cursor.
use wechat_bot.Base.{◌++◌, false, none, [], ◌∷◌, inr, Str, str_eq, pos, ◌≡◌, refl, arith}
use wechat_bot.Config.{Config}
use wechat_bot.Listener.Batch.{
  run_pool, start_pool, pool_measure, work_left, pool_move, sender_waits, worker_turn, sender_move,
  split_at, worker_move, batch_ctx_err, batch_cause, process_concurrently, process_batch,
  group_messages, group_message, append_at,
}
use wechat_bot.Listener.Batch.Sequence.{batch_deliveries}
use wechat_bot.Listener.Batch.Shares.{sent_by}
use wechat_bot.Listener.Dispatch.{
  is_deliverable, remember_token, raw_of, deliver_items, dispatch_inbound,
}
use wechat_bot.Listener.Env.{invoke_handler, on_world, Sys}
use wechat_bot.Listener.Loop.{
  get_updates, answer, accept, commit, is_session_expired, is_rejected, Vars, again, iterate,
}
use wechat_bot.Listener.Loop.Commit.{first_vars}
use wechat_bot.Listener.Loop.Delivery.{Apart, cursor_delivered}
use wechat_bot.Tests.Listener.{World, env_of, recorder, system, settings, observes}
use wechat_bot.TokenCache.{map_get, map_set}
use wechat_bot.Types.{GetUpdatesResponse}

abbrev two_workers : Config
two_workers = record settings { handler_concurrency = pos 2 }

abbrev next_vars : Vars
next_vars = record { cursor = 9 ∷ []; failures = 0; expired_count = 0 }

abbrev after_poll : Sys World
after_poll = (iterate (env_of (pos 0)) two_workers recorder none (first_vars []) system).1

poll_goes_on :
    iterate (env_of (pos 0)) two_workers recorder none (first_vars []) system
    ≡ (again next_vars, after_poll)
unfolding iterate get_updates answer accept commit is_session_expired is_rejected process_batch
    process_concurrently batch_cause run_pool start_pool pool_measure work_left pool_move
    sender_waits worker_turn sender_move split_at worker_move batch_ctx_err group_messages
    group_message append_at dispatch_inbound is_deliverable remember_token raw_of invoke_handler
    deliver_items str_eq map_get map_set
poll_goes_on = refl

apart : Apart (env_of (pos 0)) (λ s. s.world.seen)
apart = record { polls = λ q s. refl; saves = λ bot_id buf s. refl; schedules = λ s. refl }

cursor_delivered_example :
    (r : GetUpdatesResponse) × ((get_updates
        (env_of (pos 0))
        two_workers
        recorder
        none
        []
        (on_world (env_of (pos 0)).ctx_err system).1).0
      ≡ inr r)
    × (is_session_expired r ≡ false)
    × (is_rejected r ≡ false)
    × ((9 ∷ []) ≡ r.get_updates_buf)
    × ((u : Str)
        → sent_by u after_poll.world.seen
          ≡ sent_by u [] ++ sent_by u (batch_deliveries (env_of (pos 0)) r.msgs))
cursor_delivered_example =
    cursor_delivered (env_of (pos 0)) two_workers recorder none (λ s. s.world.seen) observes apart
      (first_vars []) next_vars system after_poll (omega arith) poll_goes_on (ground arith)
      (ground arith)
