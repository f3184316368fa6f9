-- ===== src/Diagnostics/Exchange.antt =====
-- client.go and diagnostics.go: `doPost` with its diagnostics, which the rest of the library leaves out.
-- A reading of the clock is counted: `times` gives the time of each.
use wechat_bot.Base.{
  ℕ, ◌+◌, ◌-◌, Bool, true, false, not, Option, none, some, List, [], ◌∷◌, ◌++◌, ◌⊎◌, inl, inr,
  if◌then◌else◌, Str, codes, pos, eqb_ℤ,
}
use wechat_bot.Diagnostics.{
  HttpDiagnostic, TraceEvent, LogRecord, start_http_diagnostic, finish_attrs,
}
use wechat_bot.Diagnostics.Overlap.{trace_all}
use wechat_bot.Errors.{Error, http_error, wrapped}
use wechat_bot.Http.{
  Account, HttpRequest, HttpResponse, post_headers, read_limited_body, transport_error,
}
use wechat_bot.Listener.Env.{Action}

-- An `http.Client`, as `Http`, whose `Do` also tells which hooks it called and when.
pub record TracedHttp (W : Type 0) : Type 0 where
  pub request_error : Str → Option Error
  pub send : HttpRequest → Action W ((Error ⊎ HttpResponse) × List (TraceEvent × ℕ))
  pub url_cause : Error → Option Error

-- What `doPost` has when it returns: its result, the diagnostic, and how often the clock was read.
pub record Exchange (A : Type 0) : Type 0 where
  pub result : Error ⊎ A
  pub diagnostic : Option HttpDiagnostic
  pub readings : ℕ

-- `if diagnostic != nil`
abbrev pub noting :
    (HttpDiagnostic → HttpDiagnostic) → Option HttpDiagnostic → Option HttpDiagnostic
noting f none = none
noting f (some d) = some (f d)

-- The times around the reading of the body; without a diagnostic the clock is not read.
abbrev pub note_reading : (ℕ → ℕ) → Option HttpDiagnostic → ℕ → Option HttpDiagnostic × ℕ
note_reading times none readings = (none, readings)
note_reading times (some d) readings = (
  some (record d {
    read_started = some (times readings);
    read_duration = times (readings + 1) - times readings;
  }),
  readings + 2,
)

module _ {W A : Type 0} (http : TracedHttp W) (times : ℕ → ℕ) (a : Account)
    (decode : Str → Error ⊎ A) (path : Str) where
  -- From the body on
  unfoldable pub read_traced : HttpResponse → Option HttpDiagnostic → ℕ → Exchange A
  unfolding read_limited_body transport_error
  read_traced resp d readings =
      let (noted, later) = note_reading times d readings in
      record {
        result = elim (read_limited_body resp.body a.max_response_bytes) [
          | inl e ↦ inl (wrapped (codes "read response") (transport_error http.url_cause e))
          | inr body ↦ elim (decode body) [
            | inl e ↦ inl (wrapped (codes "wechat: invalid JSON response") e)
            | inr result ↦ inr result
          ]
        ];
        diagnostic = noted;
        readings = later;
      }

  -- What follows `Do`
  unfoldable pub answer_traced : Error ⊎ HttpResponse → Option HttpDiagnostic → ℕ → Exchange A
  answer_traced (inl e) d readings = record {
    result = inl (transport_error http.url_cause e);
    diagnostic = d;
    readings = readings;
  }
  answer_traced (inr resp) d readings =
      let coded = noting (λ x. record x { status_code = resp.status_code }) d in
      if not (eqb_ℤ resp.status_code (pos 200))
      then record {
        result = inl (http_error path resp.status_code);
        diagnostic = coded;
        readings = readings;
      }
      else read_traced resp coded readings

  -- The hooks are installed if there is a diagnostic.
  unfoldable pub exchange_traced : Error ⊎ Str → Option HttpDiagnostic → ℕ → Action W (Exchange A)
  exchange_traced (inl e) d readings w = (
    record {
      result = inl (wrapped (codes "marshal request") e);
      diagnostic = d;
      readings = readings;
    },
    w,
  )
  exchange_traced (inr encoded) d readings w = elim (http.request_error (a.base_url ++ path)) [
    | some e ↦ (
      record {
        result = inl (wrapped (codes "create request") e);
        diagnostic = d;
        readings = readings;
      },
      w,
    )
    | none ↦
        let ((answered, events), w1) =
          http.send
            (record {
              method = codes "POST";
              url = a.base_url ++ path;
              headers = post_headers a;
              body = encoded;
            })
            w in
        (answer_traced answered (noting (trace_all events) d) readings, w1)
  ]

  abbrev pub is_success : Error ⊎ A → Bool
  is_success (inl e) = false
  is_success (inr r) = true

  -- The deferred `finish`, at the next reading of the clock: what is logged.
  unfoldable pub finish_exchange : Exchange A → List LogRecord
  unfolding finish_attrs
  finish_exchange x = elim x.diagnostic [
    | none ↦ []
    | some d ↦
        record {
          text = codes "wechat HTTP request completed";
          attrs = finish_attrs (times x.readings) (is_success x.result) d;
        }
        ∷ []
  ]

  -- `doPost`: the result and all that is logged. `enabled` tells whether the logger logs at the
  -- level of debugging; the start of the diagnostic is the first reading of the clock.
  unfoldable pub do_post_traced : Bool → Error ⊎ Str → Action W ((Error ⊎ A) × List LogRecord)
  do_post_traced enabled body w =
      let (d, logged) = start_http_diagnostic enabled path (times 0) in
      let (x, w1) = exchange_traced body d 1 w in ((x.result, logged ++ finish_exchange x), w1)
