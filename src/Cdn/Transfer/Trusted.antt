-- ===== src/Cdn/Transfer/Trusted.antt =====
-- cdn.go: the URLs that media requests go to.
use wechat_bot.Base.{ℕ, Option, none, List, Str, ℤ, All, All-append, ◌≡◌}
use wechat_bot.Cdn.Transfer.Keeps.{Safe, upload_to_cdn-Keeps, download-Keeps}
use wechat_bot.Cdn.Download.{download_and_decrypt_image}
use wechat_bot.Cdn.Transfer.{MediaEnv, upload_to_cdn}
use wechat_bot.Http.{HttpRequest}
use wechat_bot.Types.{ImageItem}
use wechat_bot.Url.Redirect.{redirect_guarded_client, NetHttp, http_of, DoLaws, trail-passes}
use wechat_bot.Url.Policy.{check_string}

-- The media client is the guarded copy of a client, as `NewClient` makes it. `contacted` is the list of
-- the URLs that it has sent requests to, those of redirects included, and nothing else changes it.
pub record Logs {W : Type 0} (env : MediaEnv W) (contacted : W → List Str) : Type 0 where
  pub go : NetHttp W
  pub base : Option ℕ
  pub built : env.cdn.client ≡ http_of go (redirect_guarded_client env.net env.media_policy base)
  pub follows : DoLaws env.net go contacted
  pub read_keeps : (n : ℕ) (w : W) → contacted (env.read_full n w).1 ≡ contacted w
  pub api_keeps : (r : HttpRequest) (w : W) → contacted (env.api.send r w).1 ≡ contacted w
  pub ctx_keeps : (w : W) → contacted (env.cdn.ctx_err w).1 ≡ contacted w
  pub wait_keeps : (d : ℕ) (w : W) → contacted (env.cdn.wait d w).1 ≡ contacted w

module _ {W : Type 0} (env : MediaEnv W) (contacted : W → List Str)
    (logs : Logs env contacted) where
  abbrev pub Passes : Str → Type 0
  Passes url = check_string env.net env.media_policy url ≡ none

  abbrev pub IsClean : W → Type 0
  IsClean w = All Passes (contacted w)

  exchange :
      (r : HttpRequest) (w : W) → Passes r.url → IsClean w → IsClean (env.cdn.client.send r w).1
  unfolding redirect_guarded_client
  exchange r w passes h =
      let client = redirect_guarded_client env.net env.media_policy logs.base in
      let (trail, seen, followed) = logs.follows.do_follows client r w in
      let (fine, short) = trail-passes env.net env.media_policy r.url trail passes followed in
      rw (logs.built, seen) (All-append Passes trail (contacted w) fine h)

  safe : Safe env IsClean
  safe = record {
    read = λ n w h. rw (logs.read_keeps n w) h;
    ctx = λ w h. rw (logs.ctx_keeps w) h;
    wait = λ d w h. rw (logs.wait_keeps d w) h;
    api = λ r w e h. rw (logs.api_keeps r w) h;
    media = exchange;
  }

  -- Every request that an upload sends to the CDN goes to a URL that the media policy lets pass, those
  -- of its retries and of the redirects that the HTTP client follows included, whatever the server
  -- answers. The HTTP client asks its redirect check before it follows a redirect.
  pub upload_trusted :
      (to_user_id content : Str) (media_type : ℤ) (w : W)
      → All Passes (contacted w)
      → All Passes (contacted (upload_to_cdn env to_user_id content media_type w).1)
  upload_trusted to_user_id content media_type w h =
      (upload_to_cdn-Keeps env IsClean safe to_user_id content media_type).run w h

  -- Every request by which an image is downloaded goes to a URL that the media policy lets pass, those
  -- of the redirects that the HTTP client follows included. The HTTP client asks its redirect check
  -- before it follows a redirect.
  pub download_trusted :
      (item : Option ImageItem) (w : W)
      → All Passes (contacted w)
      → All Passes (contacted (download_and_decrypt_image env item w).1)
  download_trusted item w h = (download-Keeps env IsClean safe item).run w h
