-- ===== src/Tests/Confirms.antt =====
-- login.go: a login at a server that makes the user wait twice, then confirms, under a timeout.
use wechat_bot.Base.{ℕ, zero, suc, ◌-◌, ◌<◌, Option, none, some, false, [], inr, codes, Str, pos}
use wechat_bot.Errors.{Error, deadline_exceeded}
use wechat_bot.Login.Options.{LoginOptions}
use wechat_bot.Login.Request.{QrStatusResult}
use wechat_bot.Login.Status.{status_wait, status_confirmed}
use wechat_bot.Login.Wait.{WaitEnv}
use wechat_bot.Tests.Login.{codec}

-- The polls before the confirmation, and the time that the timeout leaves, of which each exchange and
-- each wait takes one.
record Visit : Type 0 where
  pending : ℕ
  left : ℕ

abbrev is_over : ℕ → Option Error
is_over zero = some deadline_exceeded
is_over (suc n) = none

abbrev pass : Visit → Visit
pass w = record w { left = w.left - 1 }

abbrev Lasts : ℕ → Visit → Type 0
Lasts k w = k < w.left

abbrev status_of : ℕ → Str
status_of zero = status_confirmed
status_of (suc n) = status_wait

abbrev options : LoginOptions Visit
options = record {
  base_url = codes "https://h";
  http_client = record {
    request_error = λ url. none;
    send = λ r w. (
      inr (record {
        status_code = pos 200;
        header = λ name. [];
        content_length = pos 0;
        body = inr (status_of w.pending);
      }),
      record { pending = w.pending - 1; left = w.left - 1 },
    );
    url_cause = λ e. none;
  };
  verification_code_handler = none;
  hosts = [];
  max_verify_attempts = pos 3;
}

abbrev env : WaitEnv Visit
env = record {
  codec = codec;
  ctx_err = λ w. (is_over w.left, w);
  wait = λ d w. (is_over (w.left - 1), pass w);
  on_status = none;
  is_timeout = λ e. false;
}

abbrev answer : Str → QrStatusResult
answer status = record {
  status = status;
  redirect_host = codes "h";
  bot_token = codes "t";
  ilink_bot_id = codes "b";
  base_url = [];
  ilink_user_id = [];
}

abbrev arrival : Visit
arrival = record { pending = 2; left = 6 }
