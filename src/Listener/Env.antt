-- ===== src/Listener/Env.antt =====
-- listener.go: the state that the listener shares with its handlers, and the operations of the
-- world around it: the context, the HTTP exchange, the cursor storage, timers, randomness, and the
-- choices of the Go scheduler. `W` is the state of that world.
use wechat_bot.Base.{ℕ, Bool, Option, none, some, Str, ◌⊎◌}
use wechat_bot.Errors.{Error, handler_panic_error}
use wechat_bot.TokenCache.{TokenCache, ConversationContext}
use wechat_bot.Types.{Message, InboundMessage, GetUpdatesRequest, GetUpdatesResponse}

-- The fields of `Client` that change while it listens, and the world.
pub record Sys (W : Type 0) : Type 0 where
  pub tokens : TokenCache
  pub running : Bool
  pub world : W

-- An operation that may read and change a state.
abbrev pub Action : Type 0 → Type 0 → Type 0
Action S A = S → A × S

-- How a callback ends: with a result, or with a panic whose stack is recorded.
pub data Outcome : Type 0 where
  returned : Option Error → Outcome
  panicked : Str → Outcome

-- `MessageHandler` and `ExpiredHandler`; the context's conversation value is handed over.
abbrev pub Handler : Type 0 → Type 0
Handler W = Option ConversationContext → InboundMessage → Action (Sys W) Outcome

abbrev pub ExpiredHandler : Type 0 → Type 0
ExpiredHandler W = Str → Action (Sys W) Outcome

pub record Env (W : Type 0) : Type 0 where
  -- `ctx.Err()`
  pub ctx_err : Action W (Option Error)
  -- `json.Marshal` of a message
  pub marshal : Message → Error ⊎ Str
  -- `doPost` to `/ilink/bot/getupdates`
  pub post_updates : GetUpdatesRequest → Action W (Error ⊎ GetUpdatesResponse)
  -- `waitContext`: a timer against the context
  pub wait_context : ℕ → Action W (Option Error)
  -- `rand.Int64N`
  pub int64n : Action W (ℕ → ℕ)
  -- the `BufStorage` of the configuration
  pub load_buf : Str → Action W (Error ⊎ Str)
  pub save_buf : Str → Str → Action W (Option Error)
  pub clear_buf : Str → Action W (Option Error)
  -- which goroutine runs next
  pub schedule : Action W ℕ

-- An operation of the world, on the whole state.
abbrev pub on_world : {W A : Type 0} → Action W A → Action (Sys W) A
on_world op s = let (a, w) = op s.world in (a, record s { world = w })

-- `invokeHandler` and `invokeExpired`: a panic becomes a `HandlerPanicError`.
abbrev pub recovered : Outcome → Option Error
recovered (returned e) = e
recovered (panicked stack) = some (handler_panic_error stack)

unfoldable pub invoke_handler :
    {W : Type 0}
    → Handler W
    → Option ConversationContext
    → InboundMessage
    → Action (Sys W) (Option Error)
invoke_handler handler ctx m s = let (o, s') = handler ctx m s in (recovered o, s')

-- An `ExpiredHandler` has no result, so one that returns gives nil.
abbrev pub no_result : Outcome → Option Error
no_result (returned _) = none
no_result (panicked stack) = some (handler_panic_error stack)

unfoldable pub invoke_expired :
    {W : Type 0} → ExpiredHandler W → Str → Action (Sys W) (Option Error)
invoke_expired handler bot_id s = let (o, s') = handler bot_id s in (no_result o, s')
