-- ===== src/Client/Ready.antt =====
-- client.go: what the components of a client that `NewClient` returns start with.
use wechat_bot.Base.{
  ℕ, ◌<◌, none, false, ◌||◌, List, [], inl, inr, ◌≡◌, ◌≢◌, refl, ap, arith, Str, is_empty,
  is_empty_iff, Sum-cases, Bool-cases,
}
use wechat_bot.Client.{Client, apply_options, no_tokens, client_of, new_client}
use wechat_bot.Config.{Config, Fresh, set_defaults, validate}
use wechat_bot.Config.Options.{ConfigOption}
use wechat_bot.Config.Valid.{IsBounded, validate-IsBounded}
use wechat_bot.TokenCache.{map_get}
use wechat_bot.TokenCache.Index.{find_address}
use wechat_bot.TokenCache.Refinement.{IsValid}
use wechat_bot.Url.Policy.{Url, Net, max_server_redirects, check}
use wechat_bot.Url.Redirect.{redirect_guarded_client, check_redirect_inversion}

pub record IsReady (net : Net) (c : Client) : Type 0 where
  pub bounded : IsBounded c.cfg
  pub credentials : (c.cfg.bot_token ≢ []) × (c.cfg.ilink_bot_id ≢ [])
  pub cache : IsValid c.tokens
  pub idle : c.running ≡ false
  pub guarded :
      (u : Url) (via : ℕ)
      → c.media_client.check_redirect u via ≡ none
      → (check net c.media_policy u ≡ none) × (via < max_server_redirects)

no_tokens-IsValid : (cfg : Config) → IsBounded cfg → IsValid (no_tokens cfg)
no_tokens-IsValid cfg b =
    unfold map_get find_address in
    record {
      indexed = record { agrees = λ q. refl; distinct = tt; allocated = tt };
      positive = b.capacity;
      bounded = omega arith;
    }

-- A client that `NewClient` returns has credentials, a configuration within its bounds, a valid
-- and empty token cache of positive capacity, and is not running, whatever the options do; its media
-- client follows a redirect only to a URL that its media policy lets pass, and at most four of them.
pub new_client-IsReady :
    (net : Net) (fresh : Fresh) (uin : Str) (cfg : Config) (opts : List ConfigOption) (c : Client)
    → new_client net fresh uin cfg opts ≡ inr c
    → IsReady net c × (c.tokens.ctx_token_lru ≡ [])
unfolding new_client redirect_guarded_client
new_client-IsReady net fresh uin cfg opts c h =
    let settled = set_defaults fresh (apply_options opts cfg) in
    elim (Bool-cases (is_empty settled.bot_token || is_empty settled.ilink_bot_id)) [
      | inl missing ↦ absurd (ground arith)
      | inr given ↦ elim (Sum-cases (validate net settled)) [
        | inl (e, bad) ↦ absurd (ground arith)
        | inr (accepted, good) ↦
            let made : c ≡ client_of net uin accepted = ground arith in
            let (b, same) = validate-IsBounded net settled accepted good in
            let token : accepted.bot_token ≡ settled.bot_token = ap (λ x. x.bot_token) same in
            let bot : accepted.ilink_bot_id ≡ settled.ilink_bot_id =
              ap (λ x. x.ilink_bot_id) same in
            rw made (
              record {
                bounded = b;
                credentials = (
                  λ e. absurd (ground (arith, is_empty_iff settled.bot_token)),
                  λ e. absurd (ground (arith, is_empty_iff settled.ilink_bot_id)),
                );
                cache = no_tokens-IsValid accepted b;
                idle = refl;
                guarded = check_redirect_inversion net (client_of net uin accepted).media_policy;
              },
              refl,
            )
      ]
    ]
