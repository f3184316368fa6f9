-- ===== src/Tests/Login.antt =====
-- login.go: the theorems at a server that redirects, then asks for a code, then confirms, and at a
-- context whose timeout ends the third wait.
use wechat_bot.Base.{
  ℕ, zero, suc, ◌+◌, ◌≤◌, false, none, some, [], ◌⊎◌, inr, ◌≡◌, refl, sym, ap, codes, Str, pos,
  arith, trim_space, leb, ◌==◌, if◌then◌else◌, str_eq,
}
use wechat_bot.Config.{trim_slashes}
use wechat_bot.Errors.{Error, deadline_exceeded}
use wechat_bot.Http.{
  app_headers, encode_client_version, encode_fields, parse_uint8, parse_digits, read_limited_body,
}
use wechat_bot.Login.Options.{LoginOptions}
use wechat_bot.Login.Request.{LoginCodec, check_qr_status, login_endpoint, do_json, read_json}
use wechat_bot.Login.Wait.Counting.{Tally, Counts, CountsWaitsOf}
use wechat_bot.Login.Wait.Limits.{polls_throttled, login_ends}
use wechat_bot.Login.Wait.Trust.{Source, trusted_credentials}
use wechat_bot.Login.Status.{
  qr_redirect_url, was_visited, status_redirect, status_need_verify_code, status_confirmed,
}
use wechat_bot.Login.Wait.{
  WaitEnv, poll_interval, wait_for_qr_confirmation, poll_qr, iterate_wait, settle, poll_once,
  report_status, handle_status, follow_redirect, credentials_of, ask_code,
}
use wechat_bot.Storage.File.{Credentials}
use wechat_bot.Tests.Client.{net}
use wechat_bot.Url.Policy.{new_url_policy, to_lower, check, check_host}

-- The status by the number of polls.
abbrev status_at : ℕ → Str
status_at (suc zero) = status_redirect
status_at (suc (suc zero)) = status_need_verify_code
status_at _ = status_confirmed

abbrev pub codec : LoginCodec
codec = record {
  net = net;
  encode_query = λ query. codes "q";
  decode_code = λ body. inr (record { qr_code = body; qr_code_img_content = [] });
  decode_status = λ body. inr (record {
    status = body;
    redirect_host = codes "h";
    bot_token = codes "t";
    ilink_bot_id = codes "b";
    base_url = [];
    ilink_user_id = [];
  });
}

abbrev options : LoginOptions Tally
options = record {
  base_url = codes "https://h";
  http_client = record {
    request_error = λ url. none;
    send = λ r w. (
      inr (record {
        status_code = pos 200;
        header = λ name. [];
        content_length = pos 0;
        body = inr (status_at (w.polls + 1));
      }),
      record w { polls = w.polls + 1 },
    );
    url_cause = λ e. none;
  };
  verification_code_handler = some (λ w. ((codes "1", none), record w { asks = w.asks + 1 }));
  hosts = [];
  max_verify_attempts = pos 3;
}

abbrev patience : ℕ
patience = 2

abbrev env : WaitEnv Tally
env = record {
  codec = codec;
  ctx_err = λ w. (none, w);
  wait = λ d w. (
    if leb patience w.waits then some deadline_exceeded else none,
    record w { waits = w.waits + 1 },
  );
  on_status = none;
  is_timeout = λ e. false;
}

abbrev start : Tally
start = record { polls = 0; waits = 0; asks = 0 }

counts : Counts env options (λ w. w)
counts = record {
  ctx_keeps = λ w. refl;
  report_keeps = λ notify status w h. absurd (ground arith);
  send_counts = λ r w. refl;
  wait_counts = λ d w. refl;
  ask_counts = λ handler w h. sym (ap (λ o. elim o [ none ↦ w | some f ↦ (f w).1 ]) h);
}

-- A timer that counts the waits for three seconds alone.
abbrev wait_on : ℕ → Tally → Tally
wait_on d w = if d == poll_interval (pos 0) then record w { waits = w.waits + 1 } else w

abbrev steady_env : WaitEnv Tally
steady_env = record env { wait = λ d w. (none, wait_on d w) }

counts_threes : CountsWaitsOf (poll_interval (pos 0)) steady_env options (λ w. w)
counts_threes = record {
  ctx_keeps = λ w. refl;
  report_keeps = λ notify status w h. absurd (ground arith);
  send_counts = λ r w. refl;
  whole_wait_counts = λ w h. refl;
  cut_wait_keeps = λ e d w h. absurd (ground arith);
  other_wait_keeps = λ d w h. ground arith;
  ask_counts = λ handler w h. sym (ap (λ o. elim o [ none ↦ w | some f ↦ (f w).1 ]) h);
}

polls_throttled_example :
    (wait_for_qr_confirmation steady_env options 5 (codes "qr") (pos 0) start).1.polls + 0
    ≤ 0 + (wait_for_qr_confirmation steady_env options 5 (codes "qr") (pos 0) start).1.waits + 6
polls_throttled_example =
    polls_throttled steady_env options (λ w. w) 5 (codes "qr") (pos 0) start counts_threes

wait_ends : (d : ℕ) (w : Tally) → (env.wait d w).0 ≡ none → (env.wait d w).1.waits ≤ patience
wait_ends d w h = ground arith

login_ends_example :
    (r : Error ⊎ Credentials) × ((wait_for_qr_confirmation env options 8
        (codes "qr")
        (pos 0)
        start).0
      ≡ some r)
login_ends_example =
    login_ends env options (λ w. w) counts patience wait_ends 8 (codes "qr") (pos 0) start
      (omega arith) (omega arith)

abbrev pub confirmed : Credentials
confirmed = record {
  bot_token = codes "t";
  ilink_bot_id = codes "b";
  base_url = [];
  ilink_user_id = [];
}

login_confirmed :
    (wait_for_qr_confirmation env options 8 (codes "qr") (pos 0) start).0 ≡ some (inr confirmed)
unfolding wait_for_qr_confirmation poll_qr iterate_wait settle poll_once report_status handle_status
    follow_redirect credentials_of ask_code qr_redirect_url was_visited check_qr_status
    login_endpoint do_json read_json app_headers encode_client_version encode_fields parse_uint8
    parse_digits read_limited_body new_url_policy check check_host to_lower trim_slashes str_eq
    trim_space
login_confirmed = refl

trusted_credentials_example :
    Source env options (new_url_policy net (codes "https://h") []) (codes "qr") confirmed
trusted_credentials_example =
    trusted_credentials env options 8 (codes "qr") (pos 0) start confirmed login_confirmed
