-- ===== src/Tests/Cdn.antt =====
-- cdn.go: the theorems at a server whose first response fails and whose second succeeds.
use wechat_bot.Base.{ℕ, zero, suc, ◌+◌, ◌≤◌, none, [], inr, codes, ◌≡◌, refl, pos}
use wechat_bot.Cdn.Upload.Attempts.{CountsPosts, upload_cdn_bytes_bounded}
use wechat_bot.Cdn.Upload.{
  CdnEnv, is_permanent, param_of, upload_cdn_bytes_once, upload_from, upload_cdn_bytes,
}
use wechat_bot.Errors.{errors_is, http_status}
use wechat_bot.Http.{HttpResponse, read_limited_body}

abbrev answer : ℕ → HttpResponse
answer zero = record {
  status_code = pos 500;
  header = λ name. [];
  content_length = pos 0;
  body = inr [];
}
answer (suc n) = record {
  status_code = pos 200;
  header = λ name. codes "p";
  content_length = pos 0;
  body = inr [];
}

-- The world is the number of posts so far.
abbrev server : CdnEnv ℕ
server = record {
  ctx_err = λ n. (none, n);
  wait = λ d n. (none, n);
  client = record {
    request_error = λ url. none;
    send = λ r n. (inr (answer n), n + 1);
    url_cause = λ e. none;
  };
}

server_counts : CountsPosts server (λ n. n)
server_counts = record {
  ctx_keeps = λ w. refl;
  wait_keeps = λ d w. refl;
  send_counts = λ r w. refl;
}

upload_cdn_bytes_bounded_example : (upload_cdn_bytes server 10 (codes "c") (codes "u") 0).1 ≤ 0 + 3
upload_cdn_bytes_bounded_example =
    upload_cdn_bytes_bounded server 10 (codes "c") (codes "u") (λ n. n) server_counts 0

second_succeeds : (upload_cdn_bytes server 10 (codes "c") (codes "u") 0).0 ≡ inr (codes "p")
unfolding upload_cdn_bytes upload_from upload_cdn_bytes_once param_of read_limited_body is_permanent
    http_status errors_is
second_succeeds = refl
