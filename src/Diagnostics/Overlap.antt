-- ===== src/Diagnostics/Overlap.antt =====
-- diagnostics.go: overlapping attempts are one interval of time.
use wechat_bot.Base.{
  ℕ, ◌+◌, ◌-◌, ◌≤◌, Bool, true, false, not, ◌&&◌, Option, none, some, List, [], ◌∷◌, ◌==◌,
  if◌then◌else◌, Str, ◌≡◌, refl, ap, arith, inl, inr, Bool-cases,
}
use wechat_bot.Diagnostics.{
  TracePhase, start_phase, end_phase, phase_duration, fresh_diagnostic, HttpDiagnostic, TraceEvent,
  trace, get_conn, got_conn, dns_start, dns_done, connect_start, connect_done, tls_handshake_start,
  tls_handshake_done, wrote_request, got_first_response_byte,
}

-- What an event is for a phase: the start of an attempt, its end, or nothing.
abbrev pub Marks : Type 0
Marks = TraceEvent → Option Bool

abbrev pub dns_marks : Marks
dns_marks dns_start = some true
dns_marks dns_done = some false
dns_marks _ = none

abbrev pub tcp_marks : Marks
tcp_marks connect_start = some true
tcp_marks connect_done = some false
tcp_marks _ = none

abbrev pub tls_marks : Marks
tls_marks tls_handshake_start = some true
tls_marks tls_handshake_done = some false
tls_marks _ = none

-- The attempts that are open behind an event; an end without a start counts for nothing.
abbrev pub next_open : Option Bool → ℕ → ℕ
next_open none n = n
next_open (some true) n = n + 1
next_open (some false) n = n - 1

-- The time from `last` to `now` in which an attempt is open, when `n` of them are open at first.
unfoldable pub busy_time : Marks → ℕ → ℕ → List (TraceEvent × ℕ) → ℕ → ℕ
busy_time marks n last [] now = if n == 0 then 0 else now - last
busy_time marks n last ((e, at_time) ∷ events) now =
    (if n == 0 then 0 else at_time - last)
    + busy_time marks (next_open (marks e) n) at_time events now

-- The times of the events do not go back.
abbrev pub IsOrdered : ℕ → List (TraceEvent × ℕ) → ℕ → Type 0
IsOrdered last [] now = last ≤ now
IsOrdered last ((_, at_time) ∷ events) now = (last ≤ at_time) × IsOrdered at_time events now

-- The hooks, one after the other.
abbrev pub trace_all : List (TraceEvent × ℕ) → HttpDiagnostic → HttpDiagnostic
trace_all [] d = d
trace_all ((e, at_time) ∷ events) d = trace_all events (trace e at_time d)

abbrev mark : Option Bool → ℕ → TracePhase → TracePhase
mark none now p = p
mark (some true) now p = start_phase now p
mark (some false) now p = end_phase now p

-- The phase up to a time at which all its attempts are counted.
abbrev so_far : ℕ → TracePhase → ℕ
so_far last p = if p.pending == 0 then p.elapsed else p.elapsed + (last - p.started)

mark_counts :
    (m : Option Bool) (last now : ℕ) (p : TracePhase)
    → p.started ≤ last
    → last ≤ now
    → ((mark m now p).pending ≡ next_open m p.pending)
      × (so_far now (mark m now p) ≡ so_far last p + (if p.pending == 0 then 0 else now - last))
      × ((mark m now p).started ≤ now)
unfolding start_phase end_phase
mark_counts none last now p before h = (refl, ground arith, omega (arith, before, h))
mark_counts (some true) last now p before h = (refl, ground arith, ground arith)
mark_counts (some false) last now p before h = (ground arith, ground arith, ground arith)

-- A phase of a diagnostic that the events mark.
record Follows (marks : Marks) (phase : HttpDiagnostic → TracePhase) : Type 0 where
  step :
      (e : TraceEvent) (now : ℕ) (d : HttpDiagnostic)
      → phase (trace e now d) ≡ mark (marks e) now (phase d)

wrote_keeps :
    (failed : Bool) (now : ℕ) (d : HttpDiagnostic)
    → ((trace (wrote_request failed) now d).dns ≡ d.dns)
      × ((trace (wrote_request failed) now d).tcp ≡ d.tcp)
      × ((trace (wrote_request failed) now d).tls ≡ d.tls)
unfolding trace
wrote_keeps failed now d = elim (Bool-cases (not failed && not d.response_received)) [
  | inl waits ↦ rw (waits, trace) (refl, refl, refl)
  | inr on ↦ rw (on, trace) (refl, refl, refl)
]

dns_step :
    (e : TraceEvent) (now : ℕ) (d : HttpDiagnostic)
    → (trace e now d).dns ≡ mark (dns_marks e) now d.dns
unfolding trace
dns_step get_conn now d = refl
dns_step (got_conn again) now d = refl
dns_step dns_start now d = refl
dns_step dns_done now d = refl
dns_step connect_start now d = refl
dns_step connect_done now d = refl
dns_step tls_handshake_start now d = refl
dns_step tls_handshake_done now d = refl
dns_step got_first_response_byte now d = refl
dns_step (wrote_request failed) now d = (wrote_keeps failed now d).0

tcp_step :
    (e : TraceEvent) (now : ℕ) (d : HttpDiagnostic)
    → (trace e now d).tcp ≡ mark (tcp_marks e) now d.tcp
unfolding trace
tcp_step get_conn now d = refl
tcp_step (got_conn again) now d = refl
tcp_step dns_start now d = refl
tcp_step dns_done now d = refl
tcp_step connect_start now d = refl
tcp_step connect_done now d = refl
tcp_step tls_handshake_start now d = refl
tcp_step tls_handshake_done now d = refl
tcp_step got_first_response_byte now d = refl
tcp_step (wrote_request failed) now d = (wrote_keeps failed now d).1

tls_step :
    (e : TraceEvent) (now : ℕ) (d : HttpDiagnostic)
    → (trace e now d).tls ≡ mark (tls_marks e) now d.tls
unfolding trace
tls_step get_conn now d = refl
tls_step (got_conn again) now d = refl
tls_step dns_start now d = refl
tls_step dns_done now d = refl
tls_step connect_start now d = refl
tls_step connect_done now d = refl
tls_step tls_handshake_start now d = refl
tls_step tls_handshake_done now d = refl
tls_step got_first_response_byte now d = refl
tls_step (wrote_request failed) now d = (wrote_keeps failed now d).2

dns-Follows : Follows dns_marks (λ d. d.dns)
dns-Follows = record { step = dns_step }

tcp-Follows : Follows tcp_marks (λ d. d.tcp)
tcp-Follows = record { step = tcp_step }

tls-Follows : Follows tls_marks (λ d. d.tls)
tls-Follows = record { step = tls_step }

IsOrdered-le :
    (last : ℕ) (events : List (TraceEvent × ℕ)) (now : ℕ) → IsOrdered last events now → last ≤ now
IsOrdered-le last [] now h = h
IsOrdered-le last ((e, at_time) ∷ events) now h =
    let rest = IsOrdered-le at_time events now h.1 in omega (arith, rest, h.0)

duration_busy :
    (marks : Marks) (phase : HttpDiagnostic → TracePhase) (follows : Follows marks phase)
    (events : List (TraceEvent × ℕ)) (d : HttpDiagnostic) (last now : ℕ)
    → (phase d).started ≤ last
    → IsOrdered last events now
    → phase_duration now (phase (trace_all events d))
      ≡ so_far last (phase d) + busy_time marks (phase d).pending last events now
unfolding phase_duration busy_time
duration_busy marks phase follows [] d last now before h = ground arith
duration_busy marks phase follows ((e, at_time) ∷ events) d last now before h =
    let d1 = trace e at_time d in
    let same = follows.step e at_time d in
    let m = mark_counts (marks e) last at_time (phase d) before h.0 in
    let rest = duration_busy marks phase follows events d1 at_time now (rw same m.2) h.1 in
    let p1 = mark (marks e) at_time (phase d) in
    let marked : phase_duration now (phase (trace_all events d1))
        ≡ so_far at_time p1 + busy_time marks p1.pending at_time events now =
      rw same at rest in
    let counted = ap (λ n. busy_time marks n at_time events now) m.0 in
    omega (arith, marked, counted, m.1)

busy_time-le :
    (marks : Marks) (n last : ℕ) (events : List (TraceEvent × ℕ)) (now : ℕ)
    → IsOrdered last events now
    → busy_time marks n last events now ≤ now - last
unfolding busy_time
busy_time-le marks n last [] now h = ground arith
busy_time-le marks n last ((e, at_time) ∷ events) now h =
    let rest = busy_time-le marks (next_open (marks e) n) at_time events now h.1 in
    let end = IsOrdered-le at_time events now h.1 in
    elim (Bool-cases (n == 0)) [
      | inl idle ↦ rw (idle, busy_time) (omega (arith, rest, h.0, end))
      | inr busy ↦ rw (busy, busy_time) (omega (arith, rest, h.0, end))
    ]

-- The three phases that attempts can share are timed as wall-clock time: if the times of the hooks do
-- not go back, then what is logged for name resolution, connecting and the TLS handshake is the time in
-- which at least one attempt was open, however attempts overlap, and at most the time of the exchange.
pub overlaps_once :
    (endpoint : Str) (begun : ℕ) (events : List (TraceEvent × ℕ)) (now : ℕ)
    → IsOrdered begun events now
    → (phase_duration now (trace_all events (fresh_diagnostic endpoint begun)).dns
        ≡ busy_time dns_marks 0 begun events now)
      × (phase_duration now (trace_all events (fresh_diagnostic endpoint begun)).tcp
          ≡ busy_time tcp_marks 0 begun events now)
      × (phase_duration now (trace_all events (fresh_diagnostic endpoint begun)).tls
          ≡ busy_time tls_marks 0 begun events now)
      × (busy_time dns_marks 0 begun events now ≤ now - begun)
      × (busy_time tcp_marks 0 begun events now ≤ now - begun)
      × (busy_time tls_marks 0 begun events now ≤ now - begun)
overlaps_once endpoint begun events now h =
    let d = fresh_diagnostic endpoint begun in
    let dns = duration_busy dns_marks (λ x. x.dns) dns-Follows events d begun now (omega arith) h in
    let tcp = duration_busy tcp_marks (λ x. x.tcp) tcp-Follows events d begun now (omega arith) h in
    let tls = duration_busy tls_marks (λ x. x.tls) tls-Follows events d begun now (omega arith) h in
    (
      omega (arith, dns),
      omega (arith, tcp),
      omega (arith, tls),
      busy_time-le dns_marks 0 begun events now h,
      busy_time-le tcp_marks 0 begun events now h,
      busy_time-le tls_marks 0 begun events now h,
    )
