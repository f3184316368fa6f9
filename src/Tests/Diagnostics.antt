-- ===== src/Tests/Diagnostics.antt =====
-- diagnostics.go: the theorems at two dials that overlap, and at a request whose answer does not
-- decode.
use wechat_bot.Base.{
  ℕ, ◌+◌, ◌*◌, ◌-◌, ◌≤◌, List, [], ◌∷◌, ◌≡◌, refl, codes, arith, Str, ◌⊎◌, inl, inr, none, true,
  false, pos, All,
}
use wechat_bot.Diagnostics.{
  phase_duration, fresh_diagnostic, TraceEvent, trace, start_phase, end_phase, connect_start,
  connect_done, dns_start, dns_done, LogRecord, text_attr, duration_attr, int_attr, bool_attr,
  start_http_diagnostic, finish_attrs,
}
use wechat_bot.Diagnostics.Exchange.{
  TracedHttp, do_post_traced, exchange_traced, answer_traced, read_traced, finish_exchange,
}
use wechat_bot.Diagnostics.Overlap.{
  IsOrdered, busy_time, dns_marks, tcp_marks, tls_marks, trace_all, overlaps_once,
}
use wechat_bot.Diagnostics.Plain.{IsPlain, started_record}
use wechat_bot.Diagnostics.Silent.{untraced, do_post_traced-do_post, do_post_traced-Names}
use wechat_bot.Errors.{Error}
use wechat_bot.Http.{
  Account, do_post, post_headers, app_headers, encode_client_version, encode_fields, parse_uint8,
  parse_digits, read_limited_body,
}

abbrev dials : List (TraceEvent × ℕ)
dials = (connect_start, 10) ∷ (connect_start, 12) ∷ (connect_done, 15) ∷ (connect_done, 20) ∷ []

dials-IsOrdered : IsOrdered 5 dials 30
dials-IsOrdered = (omega arith, (omega arith, (omega arith, (omega arith, omega arith))))

overlaps_once_example :
    (phase_duration 30 (trace_all dials (fresh_diagnostic (codes "p") 5)).dns
      ≡ busy_time dns_marks 0 5 dials 30)
    × (phase_duration 30 (trace_all dials (fresh_diagnostic (codes "p") 5)).tcp
        ≡ busy_time tcp_marks 0 5 dials 30)
    × (phase_duration 30 (trace_all dials (fresh_diagnostic (codes "p") 5)).tls
        ≡ busy_time tls_marks 0 5 dials 30)
    × (busy_time dns_marks 0 5 dials 30 ≤ 30 - 5)
    × (busy_time tcp_marks 0 5 dials 30 ≤ 30 - 5)
    × (busy_time tls_marks 0 5 dials 30 ≤ 30 - 5)
overlaps_once_example = overlaps_once (codes "p") 5 dials 30 dials-IsOrdered

ten_in_all : phase_duration 30 (trace_all dials (fresh_diagnostic (codes "p") 5)).tcp ≡ 10
unfolding phase_duration trace start_phase end_phase
ten_in_all = refl

-- A server that answers with one byte that no decoder takes; the world counts the requests.
abbrev http : TracedHttp ℕ
http = record {
  request_error = λ url. none;
  send = λ r w. (
    (
      inr (record {
        status_code = pos 200;
        header = λ name. [];
        content_length = pos 1;
        body = inr (codes "x");
      }),
      (dns_start, 11) ∷ (dns_done, 13) ∷ [],
    ),
    w + 1,
  );
  url_cause = λ e. none;
}

abbrev account : Account
account = record {
  base_url = codes "https://h";
  bot_token = codes "t";
  wechat_uin = codes "u";
  max_response_bytes = 100;
}

abbrev decode : Str → Error ⊎ Str
decode body = inl Error.canceled

abbrev clock : ℕ → ℕ
clock n = 10 + 5 * n

abbrev records : List LogRecord
records =
    record {
      text = codes "wechat HTTP request started";
      attrs = text_attr (codes "endpoint") (codes "p") ∷ [];
    }
    ∷ record {
      text = codes "wechat HTTP request completed";
      attrs =
          text_attr (codes "endpoint") (codes "p")
          ∷ duration_attr (codes "elapsed") 15
          ∷ int_attr (codes "status_code") (pos 200)
          ∷ bool_attr (codes "success") false
          ∷ duration_attr (codes "dns") 2
          ∷ duration_attr (codes "response_read") 5
          ∷ [];
    }
    ∷ []

logged :
    (do_post_traced http clock account decode (codes "p") true (inr (codes "b")) 0).0.1 ≡ records
unfolding do_post_traced start_http_diagnostic exchange_traced answer_traced read_traced trace
    start_phase end_phase finish_exchange finish_attrs phase_duration post_headers app_headers
    encode_client_version encode_fields parse_uint8 parse_digits read_limited_body
logged = refl

do_post_traced-do_post_example :
    ((let (r, w) = do_post_traced http clock account decode (codes "p") true (inr (codes "b")) 0 in
        (r.0, w))
      ≡ do_post (untraced http) account (codes "p") (inr (codes "b")) decode 0)
    × (((true ≡ false)
          × ((do_post_traced http clock account decode (codes "p") true (inr (codes "b")) 0).0.1
              ≡ []))
        ⊎ ((true ≡ true)
            × (rest : List LogRecord) × ((do_post_traced http clock account decode
                  (codes "p")
                  true
                  (inr (codes "b"))
                  0).0.1
                ≡ started_record (codes "p") ∷ rest)))
do_post_traced-do_post_example =
    do_post_traced-do_post http clock account decode (codes "p") true (inr (codes "b")) 0

do_post_traced-Names_example :
    All
      (IsPlain (codes "p"))
      (do_post_traced http clock account decode (codes "p") true (inr (codes "b")) 0).0.1
do_post_traced-Names_example =
    do_post_traced-Names http clock account decode (codes "p") true (inr (codes "b")) 0
