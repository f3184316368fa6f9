-- ===== src/Diagnostics.antt =====
-- diagnostics.go: the timing of an HTTP exchange. A time is a number of nanoseconds of the monotonic
-- clock; the mutex makes each hook one step.
pub mod Exchange
pub mod Overlap
pub mod Plain
pub mod Silent
use wechat_bot.Base.{
  ℕ, ◌+◌, ◌-◌, Bool, true, false, not, ◌&&◌, Option, none, some, List, [], ◌∷◌, ◌++◌, ltb, ◌==◌,
  if◌then◌else◌, Str, codes, ℤ, pos,
}

-- `tracePhase`
pub record TracePhase : Type 0 where
  pub started : ℕ
  pub pending : ℕ
  pub elapsed : ℕ
  pub seen : Bool

-- `tracePhase.start`
unfoldable pub start_phase : ℕ → TracePhase → TracePhase
start_phase now p = record {
  started = if p.pending == 0 then now else p.started;
  pending = p.pending + 1;
  elapsed = p.elapsed;
  seen = true;
}

-- `tracePhase.done`
unfoldable pub end_phase : ℕ → TracePhase → TracePhase
end_phase now p = if p.pending == 0 then p else record p {
  pending = p.pending - 1;
  elapsed = if p.pending - 1 == 0 then p.elapsed + (now - p.started) else p.elapsed;
}

-- `tracePhase.duration`
unfoldable pub phase_duration : ℕ → TracePhase → ℕ
phase_duration now p = if ltb 0 p.pending then p.elapsed + (now - p.started) else p.elapsed

-- `httpDiagnostic`, less its logger; a time that is zero is `none`.
pub record HttpDiagnostic : Type 0 where
  pub endpoint : Str
  pub started : ℕ
  pub connection : TracePhase
  pub dns : TracePhase
  pub tcp : TracePhase
  pub tls : TracePhase
  pub response_wait : TracePhase
  pub got_connection : Bool
  pub reused : Bool
  pub response_received : Bool
  pub status_code : ℤ
  pub read_started : Option ℕ
  pub read_duration : ℕ

-- The hooks of `httptrace.ClientTrace` that are installed: `GotConn` with `Reused`, and `WroteRequest`
-- with whether there was an error.
pub data TraceEvent : Type 0 where
  get_conn dns_start dns_done connect_start connect_done : TraceEvent
  tls_handshake_start tls_handshake_done got_first_response_byte : TraceEvent
  got_conn wrote_request : Bool → TraceEvent

abbrev pub idle_phase : TracePhase
idle_phase = record { started = 0; pending = 0; elapsed = 0; seen = false }

abbrev pub fresh_diagnostic : Str → ℕ → HttpDiagnostic
fresh_diagnostic endpoint now = record {
  endpoint = endpoint;
  started = now;
  connection = idle_phase;
  dns = idle_phase;
  tcp = idle_phase;
  tls = idle_phase;
  response_wait = idle_phase;
  got_connection = false;
  reused = false;
  response_received = false;
  status_code = pos 0;
  read_started = none;
  read_duration = 0;
}

-- `slog.Attr`
pub data Attr : Type 0 where
  text_attr : Str → Str → Attr
  duration_attr : Str → ℕ → Attr
  int_attr : Str → ℤ → Attr
  bool_attr : Str → Bool → Attr

-- A record of the log: its message and its attributes.
pub record LogRecord : Type 0 where
  pub text : Str
  pub attrs : List Attr

-- `startHTTPDiagnostic`, by whether debugging is enabled: the diagnostic, and what is logged.
unfoldable pub start_http_diagnostic : Bool → Str → ℕ → Option HttpDiagnostic × List LogRecord
start_http_diagnostic enabled endpoint now = if not enabled then (none, []) else (
  some (fresh_diagnostic endpoint now),
  record {
    text = codes "wechat HTTP request started";
    attrs = text_attr (codes "endpoint") endpoint ∷ [];
  }
      ∷ [],
)

-- The hooks
unfoldable pub trace : TraceEvent → ℕ → HttpDiagnostic → HttpDiagnostic
unfolding start_phase end_phase
trace get_conn now d = record d {
  connection = start_phase now d.connection;
  response_wait = end_phase now d.response_wait;
  response_received = false;
}
trace (got_conn again) now d = record d {
  connection = end_phase now d.connection;
  got_connection = true;
  reused = again;
}
trace dns_start now d = record d { dns = start_phase now d.dns }
trace dns_done now d = record d { dns = end_phase now d.dns }
trace connect_start now d = record d { tcp = start_phase now d.tcp }
trace connect_done now d = record d { tcp = end_phase now d.tcp }
trace tls_handshake_start now d = record d { tls = start_phase now d.tls }
trace tls_handshake_done now d = record d { tls = end_phase now d.tls }
trace (wrote_request failed) now d =
    if not failed && not d.response_received
    then record d { response_wait = start_phase now d.response_wait }
    else d
trace got_first_response_byte now d = record d {
  response_received = true;
  response_wait = end_phase now d.response_wait;
}

abbrev pub phase_attr : ℕ → Str → TracePhase → List Attr
phase_attr now name p = if p.seen then duration_attr name (phase_duration now p) ∷ [] else []

-- `httpDiagnostic.finish`: the attributes that are logged under "wechat HTTP request completed".
unfoldable pub finish_attrs : ℕ → Bool → HttpDiagnostic → List Attr
unfolding phase_duration
finish_attrs now success d =
    text_attr (codes "endpoint") d.endpoint
      ∷ duration_attr (codes "elapsed") (now - d.started)
      ∷ int_attr (codes "status_code") d.status_code
      ∷ bool_attr (codes "success") success
      ∷ phase_attr now (codes "connection_wait") d.connection
    ++ phase_attr now (codes "dns") d.dns
    ++ phase_attr now (codes "tcp") d.tcp
    ++ phase_attr now (codes "tls") d.tls
    ++ phase_attr now (codes "response_wait") d.response_wait
    ++ (if d.got_connection then bool_attr (codes "connection_reused") d.reused ∷ [] else [])
    ++ (elim d.read_started [
      | none ↦ []
      | some _ ↦ duration_attr (codes "response_read") d.read_duration ∷ []
    ])
