-- ===== src/Tests/Listener.antt =====
-- listener.go: the theorems at a world that records the stored cursor and what the handler was
-- called with, and a server that gives every poll the same answer.
use wechat_bot.Base.{
  ℕ, ◌-◌, ◌*◌, ◌/◌, ◌^◌, ◌≤◌, min, true, false, none, some, List, [], ◌∷◌, ◌++◌, map, inr, ◌≡◌, inl,
  ◌⊎◌, refl, arith, Str, codes, ℤ, pos, negsuc, str_eq,
}
use wechat_bot.Config.{Config, second}
use wechat_bot.Errors.{err_already_started, err_no_message_handler, Error, token_revoked, errors_is}
use wechat_bot.Listener.Backoff.{backoff_base, backoff}
use wechat_bot.Listener.Backoff.Bounds.{Int64nLaw, backoff_base_lem, backoff_bounds}
use wechat_bot.Listener.Batch.{
  group_message, process_in_turn, group_messages, no_groups, process_batch, pool_move, start_pool,
  sender_waits, sender_move, batch_cause,
}
use wechat_bot.Listener.Batch.Group.{IsDistinct, messages_of, users_of, groups_by_user}
use wechat_bot.Listener.Batch.Sequence.{batch_deliveries, batch_in_order}
use wechat_bot.Listener.Batch.Shares.{sent_by}
use wechat_bot.Listener.Batch.Users.{user_in_order}
use wechat_bot.Listener.Batch.Workers.{batch_run, batch_ends}
use wechat_bot.Listener.Dispatch.Order.{Observes, Adds}
use wechat_bot.Listener.Dispatch.{
  is_deliverable, remember_token, raw_of, deliver_items, dispatch_inbound,
}
use wechat_bot.Listener.Env.{invoke_handler, on_world, Sys, Handler, Env, returned}
use wechat_bot.Listener.Loop.{
  get_updates, answer, accept, commit, is_session_expired, is_rejected, stop_running, Vars,
  Callbacks, again, iterate, listen, start,
}
use wechat_bot.Listener.Loop.Commit.{StorageLaws, here, next, first_vars, stored-cursor}
use wechat_bot.Listener.Loop.Iteration.{Committed, cursor-Committed, start_releases}
use wechat_bot.Listener.Loop.Recovery.{Expiring, revoked_at_threshold}
use wechat_bot.TokenCache.{map_get, map_set}
use wechat_bot.Types.{Item, Message, InboundMessage, GetUpdatesResponse}

no_jitter-Int64nLaw : Int64nLaw (λ n. 0)
no_jitter-Int64nLaw n h = h

backoff_base_example :
    backoff_base (3 * second) (60 * second) 4 ≡ min (3 * second * 2 ^ (4 - 1)) (60 * second)
backoff_base_example = backoff_base_lem (3 * second) (60 * second) 4 (omega arith) (omega arith)

backoff_bounds_example :
    (min (3 * second * 2 ^ (4 - 1)) (60 * second) / 2
      ≤ backoff (λ n. 0) (3 * second) (60 * second) 4)
    × (backoff (λ n. 0) (3 * second) (60 * second) 4 ≤ min (3 * second * 2 ^ (4 - 1)) (60 * second))
    × (backoff (λ n. 0) (3 * second) (60 * second) 4 ≤ 60 * second)
backoff_bounds_example =
    backoff_bounds (λ n. 0) (3 * second) (60 * second) 4 no_jitter-Int64nLaw (omega arith)
      (omega arith)

abbrev hello : Item
hello = record {
  type = pos 1;
  text_item = some (record { text = codes "hi" });
  image_item = none;
  voice_item = none;
  video_item = none;
  file_item = none;
}

abbrev from_user : ℕ → Message
from_user u = record {
  raw = codes "x";
  seq = 1;
  message_id = 7;
  create_time_ms = pos 0;
  from_user_id = u ∷ [];
  to_user_id = codes "b";
  message_type = pos 1;
  message_state = pos 2;
  item_list = hello ∷ [];
  context_token = codes "t";
}

abbrev three_messages : List Message
three_messages = from_user 1 ∷ from_user 2 ∷ from_user 1 ∷ []

groups_by_user_example :
    ((group_messages no_groups three_messages).groups
      ≡ map (λ u. messages_of u three_messages) (users_of three_messages))
    × IsDistinct (users_of three_messages)
groups_by_user_example = groups_by_user three_messages

third_is_missing : map_get (3 ∷ []) (group_messages no_groups three_messages).indexes ≡ none
unfolding group_messages group_message map_get map_set str_eq is_deliverable
third_is_missing = refl

abbrev pub answer_of : ℤ → GetUpdatesResponse
answer_of ret = record {
  ret = ret;
  err_code = pos 0;
  err_msg = [];
  msgs = from_user 1 ∷ [];
  get_updates_buf = 9 ∷ [];
}

pub record World : Type 0 where
  pub stored : Str
  pub seen : List InboundMessage

abbrev pub env_of : ℤ → Env World
env_of ret = record {
  ctx_err = λ w. (none, w);
  marshal = λ m. inr [];
  post_updates = λ q w. (inr (answer_of ret), w);
  wait_context = λ d w. (none, w);
  int64n = λ w. (λ n. 0, w);
  load_buf = λ bot_id w. (inr w.stored, w);
  save_buf = λ bot_id buf w. (none, record w { stored = buf });
  clear_buf = λ bot_id w. (none, record w { stored = [] });
  schedule = λ w. (0, w);
}

abbrev pub recorder : Handler World
recorder ctx m s =
    (returned none, record s { world = record s.world { seen = s.world.seen ++ m ∷ [] } })

abbrev pub system : Sys World
system = record {
  tokens = record { ctx_tokens = []; ctx_token_lru = []; next = 0; max_context_tokens = 2 };
  running = false;
  world = record { stored = []; seen = [] };
}

pub observes : Observes recorder (on_world (env_of (pos 0)).ctx_err) (λ s. s.world.seen)
observes = record { called = λ ctx m s. inl refl; checked = λ s. refl; stored = λ s t. refl }

batch_in_order_example :
    Adds
      (λ s. s.world.seen)
      (batch_deliveries (env_of (pos 0)) three_messages)
      system
      (process_batch (env_of (pos 0)) recorder 1 three_messages system)
batch_in_order_example =
    batch_in_order (env_of (pos 0)) recorder (λ s. s.world.seen) observes three_messages system

user_in_order_example :
    Adds
      (λ s. sent_by (1 ∷ []) s.world.seen)
      (sent_by (1 ∷ []) (batch_deliveries (env_of (pos 0)) three_messages))
      system
      (process_batch (env_of (pos 0)) recorder 2 three_messages system)
user_in_order_example =
    user_in_order (env_of (pos 0)) recorder (λ s. s.world.seen) observes (λ s. refl) (1 ∷ []) 2
      three_messages system (omega arith)

abbrev two_groups : List (List Message)
two_groups = (from_user 1 ∷ from_user 1 ∷ []) ∷ (from_user 2 ∷ []) ∷ []

-- A context that is cancelled from the start: the sender stops although no worker has failed.
abbrev over_env : Env World
over_env = record (env_of (pos 0)) { ctx_err = λ w. (some Error.canceled, w) }

sender_stops :
    pool_move over_env recorder 0 (start_pool 2 two_groups) system
    ≡ (record (start_pool 2 two_groups) { pending = []; cause = some Error.canceled }, system)
unfolding pool_move sender_waits sender_move batch_cause start_pool
sender_stops = refl

batch_ends_example :
    ((batch_run (env_of (pos 0)) recorder 2 two_groups system).live ≡ [])
    × (((batch_run (env_of (pos 0)) recorder 2 two_groups system).pending ≡ [])
        ⊎ ((e : Error) × ((batch_run (env_of (pos 0)) recorder 2 two_groups system).cause
              ≡ some e)))
batch_ends_example = batch_ends (env_of (pos 0)) recorder 2 two_groups system (omega arith)

abbrev pub settings : Config
settings = record {
  bot_token = codes "token";
  ilink_bot_id = codes "bot";
  ilink_user_id = [];
  base_url = codes "https://h";
  cdn_base_url = codes "https://h";
  http_client = none;
  storage = none;
  logger = none;
  send_timeout = pos second;
  media_timeout = pos second;
  typing_timeout = pos second;
  long_poll_timeout = pos second;
  handler_concurrency = pos 1;
  backoff_initial = pos 2;
  backoff_max = pos 8;
  media_hosts = [];
  max_response_bytes = pos 1000;
  max_media_bytes = pos 1000;
  max_context_tokens = pos 2;
  empty_buf_expired_threshold = pos 2;
}

storage_laws : StorageLaws (env_of (pos 0)) (codes "bot") recorder (λ w. w.stored)
storage_laws = record {
  load_gives = λ w b e. ground arith;
  save_sets = λ b w e. refl;
  clear_sets = λ w e. refl;
  ctx_keeps = λ w. refl;
  post_keeps = λ q w. refl;
  wait_keeps = λ d w. refl;
  int64n_keeps = λ w. refl;
  schedule_keeps = λ w. refl;
  handler_keeps = λ ctx m s. refl;
}

-- The head of the loop after one poll.
abbrev next_vars : Vars
next_vars = record { cursor = 9 ∷ []; failures = 0; expired_count = 0 }

abbrev after_poll : Sys World
after_poll = (iterate (env_of (pos 0)) settings recorder none (first_vars []) system).1

poll_goes_on :
    iterate (env_of (pos 0)) settings recorder none (first_vars []) system
    ≡ (again next_vars, after_poll)
unfolding iterate get_updates answer accept commit is_session_expired is_rejected process_batch
    process_in_turn dispatch_inbound is_deliverable remember_token raw_of invoke_handler
    deliver_items str_eq map_get
poll_goes_on = refl

stored-cursor_example : after_poll.world.stored ≡ 9 ∷ []
stored-cursor_example =
    stored-cursor (env_of (pos 0)) settings recorder none (λ w. w.stored) storage_laws system []
      refl next_vars after_poll (next here poll_goes_on)

cursor-Committed_example :
    Committed (env_of (pos 0)) settings recorder none (first_vars []) system (9 ∷ [])
cursor-Committed_example =
    cursor-Committed (env_of (pos 0)) settings recorder none (first_vars []) next_vars system
      after_poll poll_goes_on (ground arith) (ground arith)

abbrev no_callbacks : Callbacks World
no_callbacks = record { message = none; expired = none }

refused : (start (env_of (pos 0)) settings no_callbacks 5 system).0 ≡ some err_no_message_handler
unfolding start stop_running
refused = refl

start_releases_example :
    ((start (env_of (pos 0)) settings no_callbacks 5 system).1.running ≡ false)
    × (((false ≡ true)
          × (start (env_of (pos 0)) settings no_callbacks 5 system
              ≡ (some err_already_started, system)))
        ⊎ (false ≡ false))
start_releases_example =
    start_releases (env_of (pos 0)) settings no_callbacks 5 system err_no_message_handler refused

expiring : Expiring (env_of (negsuc 13)) (codes "bot")
expiring = record {
  alive = λ w. refl;
  answers = λ q w. (answer_of (negsuc 13), refl, unfold is_session_expired in refl);
  waits = λ d w. refl;
  clears = λ w. refl;
}

revoked_at_threshold_example :
    ((listen (env_of (negsuc 13)) settings recorder none 2 (first_vars (9 ∷ [])) system).0 ≡ none)
    × (e : Error) × ((listen
          (env_of (negsuc 13))
          settings
          recorder
          none
          3
          (first_vars (9 ∷ []))
          system).0
        ≡ some e)
    × (errors_is e token_revoked ≡ true)
revoked_at_threshold_example =
    revoked_at_threshold (env_of (negsuc 13)) settings recorder none expiring 2 refl (9 ∷ []) system
      2 3 (omega arith) (omega arith) (omega arith)
