-- ===== src/Cdn/Upload/Attempts.antt =====
-- cdn.go: how often `uploadCDNBytes` posts, and what it returns when it succeeds.
use wechat_bot.Base.{
  ℕ, zero, suc, ◌+◌, ◌*◌, ◌^◌, ◌≤◌, ◌<◌, Option, none, some, inl, inr, ltb, Str, codes, [], ◌∷◌,
  is_empty_iff, ◌≡◌, ◌≢◌, refl, ◌∙◌, arith, Bool-cases, Option-cases, Sum-cases,
}
use wechat_bot.Cdn.Upload.{
  CdnEnv, is_permanent, param_of, upload_cdn_bytes_once, upload_from, upload_cdn_bytes,
}
use wechat_bot.Errors.{Error}
use wechat_bot.Http.{HttpRequest, HttpResponse, read_limited_body}

-- `posts` counts the exchanges: only a post raises it, by one.
pub record CountsPosts {W : Type 0} (env : CdnEnv W) (posts : W → ℕ) : Type 0 where
  pub ctx_keeps : (w : W) → posts (env.ctx_err w).1 ≡ posts w
  pub wait_keeps : (d : ℕ) (w : W) → posts (env.wait d w).1 ≡ posts w
  pub send_counts : (r : HttpRequest) (w : W) → posts (env.client.send r w).1 ≡ posts w + 1

module _ {W : Type 0} (env : CdnEnv W) (limit : ℕ) (encrypted cdn_url : Str) where
  abbrev request : HttpRequest
  request = record {
    method = codes "POST";
    url = cdn_url;
    headers = (codes "Content-Type", codes "application/octet-stream") ∷ [];
    body = encrypted;
  }

  param_of-ne :
      (r : HttpResponse) (p : Str) → param_of env.client.url_cause limit r ≡ inr p → p ≢ []
  unfolding param_of
  param_of-ne r p h e = elim (Sum-cases (read_limited_body r.body limit)) [
    | inl (x, bad) ↦ absurd (ground arith)
    | inr (b, good) ↦ absurd (ground (arith, is_empty_iff (r.header (codes "X-Encrypted-Param"))))
  ]

  once-ne :
      (w : W) (p : Str) → (upload_cdn_bytes_once env limit encrypted cdn_url w).0 ≡ inr p → p ≢ []
  unfolding upload_cdn_bytes_once
  once-ne w p h = elim (Option-cases (env.client.request_error cdn_url)) [
    | inr (e, refused) ↦ absurd (ground arith)
    | inl made ↦ elim (Sum-cases (env.client.send request w).0) [
      | inl (e, failed) ↦ absurd (ground arith)
      | inr (r, sent) ↦ param_of-ne r p (rw (made, sent, upload_cdn_bytes_once) at h)
    ]
  ]

  module _ (posts : W → ℕ) (counts : CountsPosts env posts) where
    once_posts :
        (w : W) → posts (upload_cdn_bytes_once env limit encrypted cdn_url w).1 ≤ posts w + 1
    unfolding upload_cdn_bytes_once
    once_posts w = elim (Option-cases (env.client.request_error cdn_url)) [
      | inr (e, refused) ↦ rw (refused, upload_cdn_bytes_once) (omega arith)
      | inl made ↦
          let one = counts.send_counts request w in
          elim (Sum-cases (env.client.send request w).0) [
            | inl (e, failed) ↦ rw (made, failed, upload_cdn_bytes_once) (omega (arith, one))
            | inr (r, sent) ↦ rw (made, sent, upload_cdn_bytes_once) (omega (arith, one))
          ]
    ]

    upload_from_posts :
        (left attempt : ℕ) (last_err : Option Error) (w : W)
        → posts (upload_from env limit encrypted cdn_url left attempt last_err w).1 ≤ posts w + left
    unfolding upload_from
    upload_from_posts zero attempt last_err w = omega arith
    upload_from_posts (suc left) attempt last_err w =
        let w1 = (env.ctx_err w).1 in
        let r = upload_cdn_bytes_once env limit encrypted cdn_url w1 in
        let one : posts r.1 ≤ posts w + 1 = omega (arith, once_posts w1, counts.ctx_keeps w) in
        let waited = env.wait (2 ^ attempt * 100_000_000) r.1 in
        let kept = counts.wait_keeps (2 ^ attempt * 100_000_000) r.1 in
        elim (Option-cases (env.ctx_err w).0) [
          | inr (e, cancelled) ↦ rw (cancelled, upload_from) (omega (arith, counts.ctx_keeps w))
          | inl live ↦ elim (Sum-cases r.0) [
            | inr (p, done) ↦ rw (live, done, upload_from) (omega (arith, one))
            | inl (e, failed) ↦ elim (Bool-cases (is_permanent e)) [
              | inl final ↦ rw (live, failed, final, upload_from) (omega (arith, one))
              | inr retry ↦ elim (Bool-cases (ltb attempt 2)) [
                | inr late ↦
                    rw (live, failed, retry, late, upload_from)
                      (omega (arith, one, upload_from_posts left (attempt + 1) (some e) r.1))
                | inl early ↦ elim (Option-cases waited.0) [
                  | inr (stop, stopped) ↦
                      rw (live, failed, retry, early, stopped, upload_from)
                        (omega (arith, one, kept))
                  | inl on ↦
                      rw (live, failed, retry, early, on, upload_from)
                        (omega (
                          arith,
                          one,
                          kept,
                          upload_from_posts left (attempt + 1) (some e) waited.1,
                        ))
                ]
              ]
            ]
          ]
        ]

    -- An upload makes at most three posts, whatever the server, the context and the timer do.
    pub upload_cdn_bytes_bounded :
        (w : W) → posts (upload_cdn_bytes env limit encrypted cdn_url w).1 ≤ posts w + 3
    unfolding upload_cdn_bytes
    upload_cdn_bytes_bounded w = upload_from_posts 3 0 none w

  upload_from_ne :
      (left attempt : ℕ) (last_err : Option Error) (w : W) (p : Str)
      → (last_err ≡ none → 0 < left)
      → (upload_from env limit encrypted cdn_url left attempt last_err w).0 ≡ inr p
      → p ≢ []
  unfolding upload_from
  upload_from_ne zero attempt none w p some_left h = absurd (omega (arith, some_left refl))
  upload_from_ne zero attempt (some e) w p some_left h = absurd (ground arith)
  upload_from_ne (suc left) attempt last_err w p some_left h =
      let w1 = (env.ctx_err w).1 in
      let r = upload_cdn_bytes_once env limit encrypted cdn_url w1 in
      let waited = env.wait (2 ^ attempt * 100_000_000) r.1 in
      elim (Option-cases (env.ctx_err w).0) [
        | inr (e, cancelled) ↦ absurd (ground arith)
        | inl live ↦ elim (Sum-cases r.0) [
          | inr (q, done) ↦ once-ne w1 p (done ∙ (rw (live, done, upload_from) at h))
          | inl (e, failed) ↦ elim (Bool-cases (is_permanent e)) [
            | inl final ↦ absurd (ground arith)
            | inr retry ↦ elim (Bool-cases (ltb attempt 2)) [
              | inr late ↦
                  upload_from_ne left (attempt + 1) (some e) r.1 p (λ x. absurd (cc))
                    (rw (live, failed, retry, late, upload_from) at h)
              | inl early ↦ elim (Option-cases waited.0) [
                | inr (stop, stopped) ↦ absurd (ground arith)
                | inl on ↦
                    upload_from_ne left (attempt + 1) (some e) waited.1 p (λ x. absurd (cc))
                      (rw (live, failed, retry, early, on, upload_from) at h)
              ]
            ]
          ]
        ]
      ]

  -- An upload that succeeds returns a download parameter that is not empty.
  pub upload_cdn_bytes_ne :
      (w : W) (p : Str) → (upload_cdn_bytes env limit encrypted cdn_url w).0 ≡ inr p → p ≢ []
  unfolding upload_cdn_bytes
  upload_cdn_bytes_ne w p h = upload_from_ne 3 0 none w p (λ x. omega arith) h
