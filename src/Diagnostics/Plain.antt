-- ===== src/Diagnostics/Plain.antt =====
-- diagnostics.go: records of the log whose only text is the endpoint.
use wechat_bot.Base.{
  ℕ, Bool, none, some, List, [], ◌∷◌, ◌++◌, ◌-◌, ◌⊎◌, inl, inr, Str, codes, All, All-append,
  if◌then◌else◌, ◌≡◌, refl, Bool-cases, Option-cases,
}
use wechat_bot.Diagnostics.{
  LogRecord, HttpDiagnostic, TracePhase, Attr, text_attr, duration_attr, int_attr, bool_attr,
  finish_attrs, phase_attr,
}

-- A log attribute whose only text is the endpoint.
abbrev pub Names : Str → Attr → Type 0
Names path (text_attr name value) = (name ≡ codes "endpoint") × (value ≡ path)
Names path (duration_attr _ _) = Unit
Names path (int_attr _ _) = Unit
Names path (bool_attr _ _) = Unit

-- A record with a fixed message, and attributes that name the endpoint alone.
abbrev pub IsPlain : Str → LogRecord → Type 0
IsPlain path line =
    ((line.text ≡ codes "wechat HTTP request started")
      ⊎ (line.text ≡ codes "wechat HTTP request completed"))
    × All (Names path) line.attrs

-- What is logged when a request starts.
abbrev pub started_record : Str → LogRecord
started_record path = record {
  text = codes "wechat HTTP request started";
  attrs = text_attr (codes "endpoint") path ∷ [];
}

phase_attr-Names :
    (path name : Str) (now : ℕ) (p : TracePhase) → All (Names path) (phase_attr now name p)
phase_attr-Names path name now p = elim (Bool-cases p.seen) [
  | inl seen ↦ rw seen (tt, tt)
  | inr unseen ↦ rw unseen tt
]

pub finish_attrs-Names :
    (path : Str) (now : ℕ) (success : Bool) (d : HttpDiagnostic)
    → d.endpoint ≡ path
    → All (Names path) (finish_attrs now success d)
unfolding finish_attrs
finish_attrs-Names path now success d h =
    let P = Names path in
    let phases = phase_attr-Names path in
    let connection = phase_attr now (codes "connection_wait") d.connection in
    let first : List Attr =
      text_attr (codes "endpoint") d.endpoint
      ∷ duration_attr (codes "elapsed") (now - d.started)
      ∷ int_attr (codes "status_code") d.status_code
      ∷ bool_attr (codes "success") success
      ∷ connection in
    let dns = phase_attr now (codes "dns") d.dns in
    let tcp = phase_attr now (codes "tcp") d.tcp in
    let tls = phase_attr now (codes "tls") d.tls in
    let waited = phase_attr now (codes "response_wait") d.response_wait in
    let reuse : List Attr =
      if d.got_connection then bool_attr (codes "connection_reused") d.reused ∷ [] else [] in
    let read : List Attr = elim d.read_started [
      | none ↦ []
      | some _ ↦ duration_attr (codes "response_read") d.read_duration ∷ []
    ] in
    let head : All P first =
      ((refl, h), (tt, (tt, (tt, phases (codes "connection_wait") now d.connection)))) in
    let reuse_names : All P reuse = elim (Bool-cases d.got_connection) [
      | inl got ↦ rw got (tt, tt)
      | inr missed ↦ rw missed tt
    ] in
    let read_names : All P read = elim (Option-cases d.read_started) [
      | inl unread ↦ rw unread tt
      | inr (t, begun) ↦ rw begun (tt, tt)
    ] in
    let to_dns = All-append P first dns head (phases (codes "dns") now d.dns) in
    let to_tcp = All-append P (first ++ dns) tcp to_dns (phases (codes "tcp") now d.tcp) in
    let to_tls = All-append P (first ++ dns ++ tcp) tls to_tcp (phases (codes "tls") now d.tls) in
    let to_wait =
      All-append P (first ++ dns ++ tcp ++ tls) waited to_tls
        (phases (codes "response_wait") now d.response_wait) in
    All-append P (first ++ dns ++ tcp ++ tls ++ waited ++ reuse) read
      (All-append P (first ++ dns ++ tcp ++ tls ++ waited) reuse to_wait reuse_names) read_names
