-- ===== src/Errors.antt =====
-- errors.go, with the errors of the other files: the sentinels, the error types, wrapping by
-- `fmt.Errorf` and `errors.Join`, and the errors of `context`.
use wechat_bot.Base.{ℕ, Option, none, some, Bool, true, false, ◌||◌, Str, ℤ}

pub data Error : Type 0 where
  err_credentials_required err_session_expired err_token_revoked err_empty_qr_code : Error
  err_no_media_info err_qr_confirmed_no_creds err_invalid_block_size err_already_started : Error
  err_no_message_handler err_handler_panic err_response_too_large err_media_too_large : Error
  err_qr_expired err_verification_required err_verification_blocked : Error
  err_verification_attempts_exhausted err_blocked_url err_empty_message : Error
  err_qr_already_bound err_invalid_padding : Error
  -- `context.Canceled` and `context.DeadlineExceeded`
  canceled deadline_exceeded : Error
  -- `APIError`: endpoint, `Ret`, `ErrCode`, `ErrMsg`
  api_error : Str → ℤ → ℤ → Str → Error
  -- `HTTPError`: endpoint and status code
  http_error : Str → ℤ → Error
  -- `HandlerPanicError`: the stack
  handler_panic_error : Str → Error
  -- `fmt.Errorf("…: %w", err)`, `transportFailure`, `responseDecodeError`: a text and the cause
  wrapped : Str → Error → Error
  joined : Error → Error → Error
  -- an error of the program's own with no cause
  message : Str → Error
  -- an error of another package
  external : ℕ → Error

-- The test of one error, without its causes, against `context` and sentinel values: a target is
-- one of the constructors with no argument.
pub data Sentinel : Type 0 where
  token_revoked handler_panic response_too_large blocked_url canceled deadline_exceeded : Sentinel
  empty_message no_media_info invalid_padding invalid_block_size media_too_large : Sentinel

abbrev is_sentinel : Error → Sentinel → Bool
is_sentinel err_token_revoked Sentinel.token_revoked = true
is_sentinel err_handler_panic Sentinel.handler_panic = true
is_sentinel err_response_too_large Sentinel.response_too_large = true
is_sentinel err_blocked_url Sentinel.blocked_url = true
is_sentinel err_empty_message Sentinel.empty_message = true
is_sentinel err_no_media_info Sentinel.no_media_info = true
is_sentinel err_invalid_padding Sentinel.invalid_padding = true
is_sentinel err_invalid_block_size Sentinel.invalid_block_size = true
is_sentinel err_media_too_large Sentinel.media_too_large = true
is_sentinel Error.canceled Sentinel.canceled = true
is_sentinel Error.deadline_exceeded Sentinel.deadline_exceeded = true
-- `HandlerPanicError.Unwrap`
is_sentinel (handler_panic_error _) Sentinel.handler_panic = true
is_sentinel _ _ = false

-- `errors.Is(err, target)`: the error, or one that it wraps or joins, is the target.
unfoldable pub errors_is : Error → Sentinel → Bool
errors_is (wrapped _ cause) target = errors_is cause target
errors_is (joined a b) target = errors_is a target || errors_is b target
errors_is e target = is_sentinel e target

-- The status of the first `*HTTPError` that `errors.As` finds.
unfoldable pub http_status : Error → Option ℤ
http_status (http_error endpoint status) = some status
http_status (wrapped why cause) = http_status cause
http_status (joined a b) =
    let later = http_status b in elim (http_status a) [ none ↦ later | some status ↦ some status ]
http_status _ = none
