-- ===== src/Login/Wait/Ledger/Iteration.antt =====
-- login.go: what an iteration of the wait with its timer costs.
use wechat_bot.Base.{ℕ, ◌+◌, ◌≤◌, inl, inr, length, Str, ◌≡◌, ap, arith, Option-cases}
use wechat_bot.Login.Options.{LoginOptions}
use wechat_bot.Login.Wait.{
  WaitEnv, WaitVars, Verdict, finish, redirect, pause, WaitNext, again, return, poll_once, settle,
  iterate_wait,
}
use wechat_bot.Login.Wait.Counting.{Tally, CountsAt}
use wechat_bot.Url.Policy.{UrlPolicy}
use wechat_bot.Login.Wait.Ledger.{limit, Costs, poll_once-Costs}

module _ {W : Type 0} {interval : ℕ} (env : WaitEnv W) (lo : LoginOptions W) (policy : UrlPolicy)
    (tally : W → Tally) (counts : CountsAt interval env lo tally) where
  -- What an iteration costs.
  abbrev pub Spends : WaitVars → W → WaitNext × W → Type 0
  Spends v w (return _, w1) =
      ((tally w1).polls ≤ (tally w).polls + 1)
      × ((tally w).waits ≤ (tally w1).waits)
      × ((tally w1).asks + v.verify_attempts ≤ (tally w).asks + limit env lo policy tally counts)
  Spends v w (again v', w1) =
      ((tally w1).polls ≤ (tally w).polls + 1)
      × ((tally w1).waits + length v'.redirects ≡ (tally w).waits + length v.redirects + 1)
      × (length v'.redirects ≤ 5)
      × ((tally w1).asks + v.verify_attempts ≡ (tally w).asks + v'.verify_attempts)
      × (v'.verify_attempts ≤ limit env lo policy tally counts)

  pub settle-Spends :
      (v : WaitVars) (w : W) (verdict : Verdict) (w1 : W)
      → v.verify_attempts ≤ limit env lo policy tally counts
      → length v.redirects ≤ 5
      → Costs env lo policy tally counts v w (verdict, w1)
      → Spends v w (settle env lo policy interval verdict w1)
  unfolding settle
  settle-Spends v w (finish r) w1 few short c = (c.0, omega (arith, c.1), c.2)
  settle-Spends v w (redirect v') w1 few short c =
      (c.0, omega (arith, c.1, c.4), c.5, omega (arith, c.2, c.3), omega (arith, c.3, few))
  settle-Spends v w (pause v') w1 few short c = elim (Option-cases (env.wait interval w1).0) [
    | inr (e, stopped) ↦
        let (p, q, a) = counts.cut_wait_keeps e w1 stopped in
        rw (stopped, settle)
          (omega (arith, c.0, p), omega (arith, c.1, q), omega (arith, c.2, c.3, a))
    | inl on ↦
        let waited = counts.whole_wait_counts w1 on in
        let p = ap (λ t. t.polls) waited in
        let q = ap (λ t. t.waits) waited in
        let a = ap (λ t. t.asks) waited in
        rw (on, settle)
          (
            omega (arith, c.0, p),
            omega (arith, c.1, q, c.4),
            omega (arith, c.4, short),
            omega (arith, c.2, a),
            c.3,
          )
  ]

  pub iterate_wait-Spends :
      (qrcode : Str) (v : WaitVars) (w : W)
      → v.verify_attempts ≤ limit env lo policy tally counts
      → length v.redirects ≤ 5
      → Spends v w (iterate_wait env lo policy qrcode interval v w)
  unfolding iterate_wait
  iterate_wait-Spends qrcode v w few short =
      let r = poll_once env lo policy qrcode v w in
      settle-Spends v w r.0 r.1 few short
        (poll_once-Costs env lo policy tally counts qrcode v w few)
