-- ===== src/Diagnostics/Silent.antt =====
-- client.go and diagnostics.go: what diagnostics change of `doPost`, and what they log.
use wechat_bot.Base.{
  ℕ, Bool, true, false, not, ◌&&◌, Option, none, some, List, [], ◌∷◌, ◌++◌, ◌⊎◌, inl, inr, Str,
  codes, pos, eqb_ℤ, All, ◌≡◌, refl, subst, ◌∙◌, Bool-cases, Option-cases,
}
use wechat_bot.Diagnostics.Exchange.{
  Exchange, TracedHttp, noting, read_traced, answer_traced, exchange_traced, finish_exchange,
  do_post_traced, is_success,
}
use wechat_bot.Diagnostics.{
  LogRecord, fresh_diagnostic, HttpDiagnostic, TraceEvent, start_http_diagnostic, trace, get_conn,
  got_conn, dns_start, dns_done, connect_start, connect_done, tls_handshake_start,
  tls_handshake_done, wrote_request, got_first_response_byte,
}
use wechat_bot.Diagnostics.Overlap.{trace_all}
use wechat_bot.Errors.{Error}
use wechat_bot.Http.{
  Http, Account, HttpRequest, HttpResponse, post_headers, read_result, transport_error, do_post,
}
use wechat_bot.Diagnostics.Plain.{IsPlain, started_record, finish_attrs-Names}

-- The client without its hooks
abbrev pub untraced : {W : Type 0} → TracedHttp W → Http W
untraced http = record {
  request_error = http.request_error;
  send = λ r w. let ((answered, events), w1) = http.send r w in (answered, w1);
  url_cause = http.url_cause;
}

trace-endpoint :
    (e : TraceEvent) (now : ℕ) (d : HttpDiagnostic) → (trace e now d).endpoint ≡ d.endpoint
unfolding trace
trace-endpoint get_conn now d = refl
trace-endpoint (got_conn again) now d = refl
trace-endpoint dns_start now d = refl
trace-endpoint dns_done now d = refl
trace-endpoint connect_start now d = refl
trace-endpoint connect_done now d = refl
trace-endpoint tls_handshake_start now d = refl
trace-endpoint tls_handshake_done now d = refl
trace-endpoint (wrote_request failed) now d =
    elim (Bool-cases (not failed && not d.response_received)) [
      | inl wrote ↦ rw (wrote, trace)
      | inr skipped ↦ rw (skipped, trace)
    ]
trace-endpoint got_first_response_byte now d = refl

trace_all-endpoint :
    (events : List (TraceEvent × ℕ)) (d : HttpDiagnostic)
    → (trace_all events d).endpoint ≡ d.endpoint
trace_all-endpoint [] d = refl
trace_all-endpoint ((e, at_time) ∷ events) d =
    trace_all-endpoint events (trace e at_time d) ∙ trace-endpoint e at_time d

-- What a diagnostic knows of the request is its path.
abbrev IsOf : Str → Option HttpDiagnostic → Type 0
IsOf path none = Unit
IsOf path (some d) = d.endpoint ≡ path

module _ {W A : Type 0} (http : TracedHttp W) (times : ℕ → ℕ) (a : Account)
    (decode : Str → Error ⊎ A) (path : Str) where
  abbrev request : Str → HttpRequest
  request encoded = record {
    method = codes "POST";
    url = a.base_url ++ path;
    headers = post_headers a;
    body = encoded;
  }

  answer_traced-result :
      (answered : Error ⊎ HttpResponse) (d : Option HttpDiagnostic) (readings : ℕ) (w : W)
      → ◌≡◌ {A = (Error ⊎ A) × W}
          ((answer_traced http times a decode path answered d readings).result, w)
          (elim answered as (λ x. (Error ⊎ A) × W) [
            | inl e ↦ (inl (transport_error http.url_cause e), w)
            | inr resp ↦ (read_result http.url_cause decode path a.max_response_bytes resp, w)
          ])
  unfolding answer_traced read_traced read_result
  answer_traced-result (inl e) d readings w = refl
  answer_traced-result (inr resp) d readings w =
      elim (Bool-cases (not (eqb_ℤ resp.status_code (pos 200)))) [
        | inl refused ↦ rw (refused, answer_traced, read_result)
        | inr fine ↦ rw (fine, answer_traced, read_result, read_traced)
      ]

  exchange_traced-do_post :
      (body : Error ⊎ Str) (d : Option HttpDiagnostic) (readings : ℕ) (w : W)
      → (let (x, w1) = exchange_traced http times a decode path body d readings w in (x.result, w1))
        ≡ do_post (untraced http) a path body decode w
  unfolding exchange_traced do_post
  exchange_traced-do_post (inl e) d readings w = refl
  exchange_traced-do_post (inr encoded) d readings w =
      elim (Option-cases (http.request_error (a.base_url ++ path))) [
        | inr (e, refused) ↦ rw (refused, exchange_traced, do_post)
        | inl made ↦
            let sent = http.send (request encoded) w in
            rw (made, exchange_traced, do_post)
              (answer_traced-result sent.0.0 (noting (trace_all sent.0.1) d) readings sent.1)
      ]

  answer_traced-IsOf :
      (answered : Error ⊎ HttpResponse) (d : Option HttpDiagnostic) (readings : ℕ)
      → IsOf path d
      → IsOf path (answer_traced http times a decode path answered d readings).diagnostic
  unfolding answer_traced read_traced
  answer_traced-IsOf (inl e) d readings h = h
  answer_traced-IsOf (inr resp) none readings h =
      elim (Bool-cases (not (eqb_ℤ resp.status_code (pos 200)))) [
        | inl refused ↦ rw (refused, answer_traced) tt
        | inr fine ↦ rw (fine, answer_traced) tt
      ]
  answer_traced-IsOf (inr resp) (some d) readings h =
      elim (Bool-cases (not (eqb_ℤ resp.status_code (pos 200)))) [
        | inl refused ↦ rw (refused, answer_traced) h
        | inr fine ↦ rw (fine, answer_traced) h
      ]

  trace_all-IsOf :
      (events : List (TraceEvent × ℕ)) (d : Option HttpDiagnostic)
      → IsOf path d
      → IsOf path (noting (trace_all events) d)
  trace_all-IsOf events none h = tt
  trace_all-IsOf events (some d) h = trace_all-endpoint events d ∙ h

  exchange_traced-IsOf :
      (body : Error ⊎ Str) (d : Option HttpDiagnostic) (readings : ℕ) (w : W)
      → IsOf path d
      → IsOf path (exchange_traced http times a decode path body d readings w).0.diagnostic
  unfolding exchange_traced
  exchange_traced-IsOf (inl e) d readings w h = h
  exchange_traced-IsOf (inr encoded) d readings w h =
      elim (Option-cases (http.request_error (a.base_url ++ path))) [
        | inr (e, refused) ↦ rw (refused, exchange_traced) h
        | inl made ↦
            let ((answered, events), w1) = http.send (request encoded) w in
            rw (made, exchange_traced)
              (answer_traced-IsOf answered (noting (trace_all events) d) readings
                (trace_all-IsOf events d h))
      ]

  exchange_traced-off :
      (body : Error ⊎ Str) (readings : ℕ) (w : W)
      → (exchange_traced http times a decode path body none readings w).0.diagnostic ≡ none
  unfolding exchange_traced answer_traced read_traced
  exchange_traced-off (inl e) readings w = refl
  exchange_traced-off (inr encoded) readings w =
      elim (Option-cases (http.request_error (a.base_url ++ path))) [
        | inr (e, refused) ↦ rw (refused, exchange_traced)
        | inl made ↦
            let answered = (http.send (request encoded) w).0.0 in
            rw (made, exchange_traced) (answer_traced-off answered)
      ]
    where
      answer_traced-off :
          (answered : Error ⊎ HttpResponse)
          → (answer_traced http times a decode path answered none readings).diagnostic ≡ none
      answer_traced-off (inl e) = refl
      answer_traced-off (inr resp) = elim (Bool-cases (not (eqb_ℤ resp.status_code (pos 200)))) [
        | inl refused ↦ rw (refused, answer_traced)
        | inr fine ↦ rw (fine, answer_traced)
      ]

  -- Diagnostics change neither the result of a request nor what it does to the world. If the logger
  -- is not enabled, nothing is logged; if it is, the first record that is logged says that the
  -- request has started.
  pub do_post_traced-do_post :
      (enabled : Bool) (body : Error ⊎ Str) (w : W)
      → ((let (r, w1) = do_post_traced http times a decode path enabled body w in (r.0, w1))
          ≡ do_post (untraced http) a path body decode w)
        × (((enabled ≡ false) × ((do_post_traced http times a decode path enabled body w).0.1 ≡ []))
            ⊎ ((enabled ≡ true)
                × (rest : List LogRecord) × ((do_post_traced http times a decode path enabled body
                      w).0.1
                    ≡ started_record path ∷ rest)))
  unfolding do_post_traced start_http_diagnostic finish_exchange
  do_post_traced-do_post false body w = (
    exchange_traced-do_post body none 1 w,
    inl (refl, rw (exchange_traced-off body 1 w, finish_exchange)),
  )
  do_post_traced-do_post true body w =
      let begun = fresh_diagnostic path (times 0) in
      let x = (exchange_traced http times a decode path body (some begun) 1 w).0 in
      (
        exchange_traced-do_post body (some begun) 1 w,
        inr (refl, finish_exchange http times a decode path x, refl),
      )

  finish_exchange-Plain :
      (x : Exchange A)
      → IsOf path x.diagnostic
      → All (IsPlain path) (finish_exchange http times a decode path x)
  unfolding finish_exchange
  finish_exchange-Plain x h = elim (Option-cases x.diagnostic) [
    | inl silent ↦ rw (silent, finish_exchange) tt
    | inr (d, there) ↦
        rw (there, finish_exchange)
          (
            (
              inr refl,
              finish_attrs-Names path (times x.readings)
                  (is_success http times a decode path x.result) d (subst (IsOf path) there h),
            ),
            tt,
          )
  ]

  -- Every record that is logged, at the start of the request and at its end, has one of two fixed
  -- messages, and the only text in its attributes is the path of the endpoint, under the name
  -- `endpoint`: no token, body, URL or text of the server.
  pub do_post_traced-Names :
      (enabled : Bool) (body : Error ⊎ Str) (w : W)
      → All (IsPlain path) (do_post_traced http times a decode path enabled body w).0.1
  unfolding do_post_traced start_http_diagnostic
  do_post_traced-Names false body w =
      finish_exchange-Plain (exchange_traced http times a decode path body none 1 w).0
        (exchange_traced-IsOf body none 1 w tt)
  do_post_traced-Names true body w =
      let begun = fresh_diagnostic path (times 0) in
      (
        (inl refl, ((refl, refl), tt)),
        finish_exchange-Plain (exchange_traced http times a decode path body (some begun) 1 w).0
            (exchange_traced-IsOf body (some begun) 1 w refl),
      )
