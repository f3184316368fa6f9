-- ===== src/Login/Wait/Counting.antt =====
-- login.go: ways to count the polls, the waits and the verification codes of a login.
use wechat_bot.Base.{ℕ, ◌+◌, ◌≤◌, Option, none, some, Str, ◌≡◌, ◌≢◌, ap, arith}
use wechat_bot.Errors.{Error}
use wechat_bot.Http.{HttpRequest}
use wechat_bot.Listener.Env.{Action}
use wechat_bot.Login.Options.{LoginOptions}
use wechat_bot.Login.Wait.{WaitEnv}

-- What has been counted so far.
pub record Tally : Type 0 where
  pub polls : ℕ
  pub waits : ℕ
  pub asks : ℕ

-- `tally` counts the exchanges, the waits and the codes asked for: each raises its own count by one,
-- and nothing else changes a count.
pub record Counts {W : Type 0} (env : WaitEnv W) (lo : LoginOptions W) (tally : W → Tally)
    : Type 0 where
  pub ctx_keeps : (w : W) → tally (env.ctx_err w).1 ≡ tally w
  pub report_keeps :
      (notify : Str → W → W) (status : Str) (w : W)
      → env.on_status ≡ some notify
      → tally (notify status w) ≡ tally w
  pub send_counts :
      (r : HttpRequest) (w : W)
      → tally (lo.http_client.send r w).1 ≡ record (tally w) { polls = (tally w).polls + 1 }
  pub wait_counts :
      (d : ℕ) (w : W) → tally (env.wait d w).1 ≡ record (tally w) { waits = (tally w).waits + 1 }
  pub ask_counts :
      (handler : Action W (Str × Option Error)) (w : W)
      → lo.verification_code_handler ≡ some handler
      → tally (handler w).1 ≡ record (tally w) { asks = (tally w).asks + 1 }

-- `tally` counts the exchanges, the codes asked for, and the waits of this one length that run to
-- their end: a wait of another length, or one that is cut short, counts for nothing.
pub record CountsWaitsOf {W : Type 0} (interval : ℕ) (env : WaitEnv W) (lo : LoginOptions W)
    (tally : W → Tally) : Type 0 where
  pub ctx_keeps : (w : W) → tally (env.ctx_err w).1 ≡ tally w
  pub report_keeps :
      (notify : Str → W → W) (status : Str) (w : W)
      → env.on_status ≡ some notify
      → tally (notify status w) ≡ tally w
  pub send_counts :
      (r : HttpRequest) (w : W)
      → tally (lo.http_client.send r w).1 ≡ record (tally w) { polls = (tally w).polls + 1 }
  pub whole_wait_counts :
      (w : W)
      → (env.wait interval w).0 ≡ none
      → tally (env.wait interval w).1 ≡ record (tally w) { waits = (tally w).waits + 1 }
  pub cut_wait_keeps :
      (e : Error) (d : ℕ) (w : W) → (env.wait d w).0 ≡ some e → tally (env.wait d w).1 ≡ tally w
  pub other_wait_keeps : (d : ℕ) (w : W) → d ≢ interval → tally (env.wait d w).1 ≡ tally w
  pub ask_counts :
      (handler : Action W (Str × Option Error)) (w : W)
      → lo.verification_code_handler ≡ some handler
      → tally (handler w).1 ≡ record (tally w) { asks = (tally w).asks + 1 }

-- What the two have in common at a length of the waits.
pub record CountsAt {W : Type 0} (interval : ℕ) (env : WaitEnv W) (lo : LoginOptions W)
    (tally : W → Tally) : Type 0 where
  pub ctx_keeps : (w : W) → tally (env.ctx_err w).1 ≡ tally w
  pub report_keeps :
      (notify : Str → W → W) (status : Str) (w : W)
      → env.on_status ≡ some notify
      → tally (notify status w) ≡ tally w
  pub send_counts :
      (r : HttpRequest) (w : W)
      → tally (lo.http_client.send r w).1 ≡ record (tally w) { polls = (tally w).polls + 1 }
  pub whole_wait_counts :
      (w : W)
      → (env.wait interval w).0 ≡ none
      → tally (env.wait interval w).1 ≡ record (tally w) { waits = (tally w).waits + 1 }
  pub cut_wait_keeps :
      (e : Error) (w : W)
      → (env.wait interval w).0 ≡ some e
      → ((tally (env.wait interval w).1).polls ≡ (tally w).polls)
        × ((tally w).waits ≤ (tally (env.wait interval w).1).waits)
        × ((tally (env.wait interval w).1).asks ≡ (tally w).asks)
  pub ask_counts :
      (handler : Action W (Str × Option Error)) (w : W)
      → lo.verification_code_handler ≡ some handler
      → tally (handler w).1 ≡ record (tally w) { asks = (tally w).asks + 1 }

pub Counts→CountsAt :
    {W : Type 0} (interval : ℕ) (env : WaitEnv W) (lo : LoginOptions W) (tally : W → Tally)
    → Counts env lo tally
    → CountsAt interval env lo tally
Counts→CountsAt interval env lo tally c = record {
  ctx_keeps = c.ctx_keeps;
  report_keeps = c.report_keeps;
  send_counts = c.send_counts;
  whole_wait_counts = λ w h. c.wait_counts interval w;
  cut_wait_keeps = λ e w h. (
    ap (λ t. t.polls) (c.wait_counts interval w),
    omega (arith, ap (λ t. t.waits) (c.wait_counts interval w)),
    ap (λ t. t.asks) (c.wait_counts interval w),
  );
  ask_counts = c.ask_counts;
}

pub CountsWaitsOf→CountsAt :
    {W : Type 0} (interval : ℕ) (env : WaitEnv W) (lo : LoginOptions W) (tally : W → Tally)
    → CountsWaitsOf interval env lo tally
    → CountsAt interval env lo tally
CountsWaitsOf→CountsAt interval env lo tally c = record {
  ctx_keeps = c.ctx_keeps;
  report_keeps = c.report_keeps;
  send_counts = c.send_counts;
  whole_wait_counts = c.whole_wait_counts;
  cut_wait_keeps = λ e w h. (
    ap (λ t. t.polls) (c.cut_wait_keeps e interval w h),
    omega (arith, ap (λ t. t.waits) (c.cut_wait_keeps e interval w h)),
    ap (λ t. t.asks) (c.cut_wait_keeps e interval w h),
  );
  ask_counts = c.ask_counts;
}
