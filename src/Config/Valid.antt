-- ===== src/Config/Valid.antt =====
-- config.go: the configurations that `validate` accepts, and the defaults taken twice.
use wechat_bot.Base.{
  ℕ, ◌-◌, ◌*◌, ◌^◌, ◌<◌, ◌≤◌, false, Option, none, some, [], ◌∷◌, inl, inr, ◌≡◌, ◌≢◌, refl, arith,
  Str, codes, ℤ, pos, pos_part, ltb_ℤ, Sum-cases,
}
use wechat_bot.Config.{
  or_text, or_ref, or_positive, or_nonzero, Config, Fresh, set_defaults, check_base, validate,
  second, max_int64, bounds_invalid, limits_invalid,
}
use wechat_bot.Url.Policy.{Net}

-- The bounds that the rest of the client relies on.
pub record IsBounded (c : Config) : Type 0 where
  pub concurrency : 1 ≤ pos_part c.handler_concurrency
  pub capacity : 1 ≤ pos_part c.max_context_tokens
  pub backoff_positive : 0 < pos_part c.backoff_initial
  pub backoff_ordered : pos_part c.backoff_initial ≤ pos_part c.backoff_max
  pub response : (1 ≤ pos_part c.max_response_bytes) × (c.max_response_bytes ≢ pos max_int64)
  pub media : (1 ≤ pos_part c.max_media_bytes) × (pos_part c.max_media_bytes ≤ max_int64 - 32)
  pub long_poll : pos_part c.long_poll_timeout ≤ max_int64 - 5 * second

tests-IsBounded :
    (c : Config)
    → bounds_invalid c ≡ false
    → limits_invalid c ≡ false
    → ltb_ℤ (pos (max_int64 - 5 * second)) c.long_poll_timeout ≡ false
    → IsBounded c
tests-IsBounded c b l t = record {
  concurrency = ground arith;
  capacity = ground arith;
  backoff_positive = ground arith;
  backoff_ordered = ground arith;
  response = (ground arith, λ e. ground arith);
  media = (ground arith, ground arith);
  long_poll = ground arith;
}

text_settled :
    (given fallback : Str) → or_text (or_text given fallback) fallback ≡ or_text given fallback
text_settled [] fallback = ground arith
text_settled (x ∷ given) fallback = refl

ref_settled : (r : Option ℕ) (a b : ℕ) → or_ref (or_ref r a) b ≡ or_ref r a
ref_settled none a b = refl
ref_settled (some r) a b = refl

positive_settled : (v : ℤ) (n : ℕ) → or_positive (or_positive v n) n ≡ or_positive v n
positive_settled v n = ground arith

nonzero_settled : (v : ℤ) (n : ℕ) → or_nonzero (or_nonzero v n) n ≡ or_nonzero v n
nonzero_settled v n = ground arith

-- The defaults, once taken, are not taken again.
set_defaults-idempotent :
    (fresh other : Fresh) (c : Config)
    → set_defaults other (set_defaults fresh c) ≡ set_defaults fresh c
unfolding set_defaults
set_defaults-idempotent fresh other c = λ i. record c {
  base_url = text_settled c.base_url (codes "https://ilinkai.weixin.qq.com") i;
  cdn_base_url = text_settled c.cdn_base_url (codes "https://novac2c.cdn.weixin.qq.com/c2c") i;
  http_client = ref_settled c.http_client fresh.http_client other.http_client i;
  storage = ref_settled c.storage fresh.storage other.storage i;
  logger = ref_settled c.logger fresh.logger other.logger i;
  send_timeout = positive_settled c.send_timeout (15 * second) i;
  media_timeout = positive_settled c.media_timeout (90 * second) i;
  typing_timeout = positive_settled c.typing_timeout (8 * second) i;
  long_poll_timeout = positive_settled c.long_poll_timeout (35 * second) i;
  empty_buf_expired_threshold = positive_settled c.empty_buf_expired_threshold 20 i;
  handler_concurrency = nonzero_settled c.handler_concurrency 1 i;
  backoff_initial = nonzero_settled c.backoff_initial (3 * second) i;
  backoff_max = nonzero_settled c.backoff_max (60 * second) i;
  max_response_bytes = nonzero_settled c.max_response_bytes (2 ^ 20) i;
  max_media_bytes = nonzero_settled c.max_media_bytes (32 * 2 ^ 20) i;
  max_context_tokens = nonzero_settled c.max_context_tokens 1024 i;
}

rebased-IsBounded :
    (c : Config) (base cdn_base : Str)
    → IsBounded c
    → IsBounded (record c { base_url = base; cdn_base_url = cdn_base })
rebased-IsBounded c base cdn_base b = record {
  concurrency = b.concurrency;
  capacity = b.capacity;
  backoff_positive = b.backoff_positive;
  backoff_ordered = b.backoff_ordered;
  response = b.response;
  media = b.media;
  long_poll = b.long_poll;
}

-- The tests that an accepted configuration passes, and what becomes of its base URLs.
record IsAccepted (c accepted : Config) : Type 0 where
  bounds : bounds_invalid c ≡ false
  limits : limits_invalid c ≡ false
  timeout : ltb_ℤ (pos (max_int64 - 5 * second)) c.long_poll_timeout ≡ false
  base : Str
  cdn_base : Str
  replaced : accepted ≡ record c { base_url = base; cdn_base_url = cdn_base }

validate_inversion :
    (net : Net) (c accepted : Config) → validate net c ≡ inr accepted → IsAccepted c accepted
unfolding validate
validate_inversion net c accepted h = elim (Sum-cases (check_base net c.base_url)) [
  | inl (e, bad) ↦ absurd (ground arith)
  | inr (base, good) ↦ elim (Sum-cases (check_base net c.cdn_base_url)) [
    | inl (e, bad) ↦ absurd (ground arith)
    | inr (cdn_base, fine) ↦ record {
      bounds = ground arith;
      limits = ground arith;
      timeout = ground arith;
      base = base;
      cdn_base = cdn_base;
      replaced = ground arith;
    }
  ]
]

-- A configuration that `validate` accepts is within the bounds, with the base URLs replaced and
-- every other field as it was given.
pub validate-IsBounded :
    (net : Net) (c accepted : Config)
    → validate net c ≡ inr accepted
    → IsBounded accepted
      × (accepted ≡ record c { base_url = accepted.base_url; cdn_base_url = accepted.cdn_base_url })
validate-IsBounded net c accepted h =
    let i = validate_inversion net c accepted h in
    rw i.replaced
      (rebased-IsBounded c i.base i.cdn_base (tests-IsBounded c i.bounds i.limits i.timeout), refl)
