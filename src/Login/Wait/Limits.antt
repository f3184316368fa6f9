-- ===== src/Login/Wait/Limits.antt =====
-- login.go: the number of polls and of verification codes of a whole wait, and its end by the
-- deadline.
use wechat_bot.Base.{
  ℕ, zero, suc, ◌+◌, ◌≤◌, ◌<◌, Option, none, some, ◌⊎◌, inl, inr, length, Str, ℤ, pos_part, ◌≡◌,
  subst, arith, Option-cases,
}
use wechat_bot.Errors.{Error}
use wechat_bot.Login.Options.{LoginOptions}
use wechat_bot.Login.Wait.Counting.{
  Tally, Counts, CountsAt, CountsWaitsOf, Counts→CountsAt, CountsWaitsOf→CountsAt,
}
use wechat_bot.Login.Wait.Ledger.{Costs, poll_once-Costs}
use wechat_bot.Login.Wait.Ledger.Iteration.{Spends, iterate_wait-Spends}
use wechat_bot.Login.Wait.{
  WaitEnv, WaitVars, WaitNext, WaitNext-cases, Verdict, finish, redirect, pause, again, return,
  poll_once, settle, iterate_wait, poll_qr, wait_start, poll_interval, wait_for_qr_confirmation,
}
use wechat_bot.Storage.File.{Credentials}
use wechat_bot.Url.Policy.{UrlPolicy, new_url_policy}

module _ {W : Type 0} {interval : ℕ} (env : WaitEnv W) (lo : LoginOptions W) (tally : W → Tally)
    (counts : CountsAt interval env lo tally) where
  module _ (policy : UrlPolicy) (qrcode : Str) where
    -- What a run of the loop costs.
    abbrev Bounded : WaitVars → W → Option (Error ⊎ Credentials) × W → Type 0
    Bounded v w r =
        ((tally r.1).polls + (tally w).waits + length v.redirects
          ≤ (tally w).polls + (tally r.1).waits + 6)
        × ((tally r.1).asks + v.verify_attempts ≤ (tally w).asks + pos_part lo.max_verify_attempts)

    poll_qr-Bounded :
        (fuel : ℕ) (v : WaitVars) (w : W)
        → v.verify_attempts ≤ pos_part lo.max_verify_attempts
        → length v.redirects ≤ 5
        → Bounded v w (poll_qr env lo policy fuel qrcode interval v w)
    unfolding poll_qr
    poll_qr-Bounded zero v w few short = (omega (arith, short), omega (arith, few))
    poll_qr-Bounded (suc fuel) v w few short =
        let it = iterate_wait env lo policy qrcode interval v w in
        let s = iterate_wait-Spends env lo policy tally counts qrcode v w few short in
        elim (WaitNext-cases it.0) [
          | inl (x, over) ↦
              let c = subst (λ n. Spends env lo policy tally counts v w (n, it.1)) over s in
              rw (over, poll_qr) (omega (arith, c.0, c.1, short), c.2)
          | inr (v', on) ↦
              let c = subst (λ n. Spends env lo policy tally counts v w (n, it.1)) on s in
              let rest = poll_qr-Bounded fuel v' it.1 c.4 c.2 in
              rw (on, poll_qr) (omega (arith, rest.0, c.0, c.1), omega (arith, rest.1, c.3))
        ]

-- A login polls no more often than its timer runs the whole interval, but for at most six polls: the
-- first one, and one for each redirect that is followed. The waits that are counted are those for the
-- interval of the caller, or for three seconds if that is not positive; a wait for another time, or
-- one that is cut short, does not count. No server, no callback and no handler of verification codes
-- can make it poll faster.
pub polls_throttled :
    {W : Type 0} (env : WaitEnv W) (lo : LoginOptions W) (tally : W → Tally) (fuel : ℕ)
    (qrcode : Str) (interval : ℤ) (w : W)
    → CountsWaitsOf (poll_interval interval) env lo tally
    → (tally (wait_for_qr_confirmation env lo fuel qrcode interval w).1).polls + (tally w).waits
      ≤ (tally w).polls
        + (tally (wait_for_qr_confirmation env lo fuel qrcode interval w).1).waits
        + 6
unfolding wait_for_qr_confirmation
polls_throttled env lo tally fuel qrcode interval w counts =
    let policy = new_url_policy env.codec.net lo.base_url lo.hosts in
    let at = CountsWaitsOf→CountsAt (poll_interval interval) env lo tally counts in
    let b =
      poll_qr-Bounded env lo tally at policy qrcode fuel (wait_start lo.base_url) w (omega arith)
        (omega arith) in
    omega (arith, b.0)

module _ {W : Type 0} (env : WaitEnv W) (lo : LoginOptions W) (tally : W → Tally)
    (counts : Counts env lo tally) where
  -- A login asks for at most as many verification codes as its options allow.
  codes_limited :
      (fuel : ℕ) (qrcode : Str) (interval : ℤ) (w : W)
      → (tally (wait_for_qr_confirmation env lo fuel qrcode interval w).1).asks
        ≤ (tally w).asks + pos_part lo.max_verify_attempts
  unfolding wait_for_qr_confirmation
  codes_limited fuel qrcode interval w =
      let policy = new_url_policy env.codec.net lo.base_url lo.hosts in
      let at = Counts→CountsAt (poll_interval interval) env lo tally counts in
      let b =
        poll_qr-Bounded env lo tally at policy qrcode fuel (wait_start lo.base_url) w (omega arith)
          (omega arith) in
      omega (arith, b.1)

  module _ (deadline : ℕ)
      (ends : (d : ℕ) (w : W)
        → (env.wait d w).0 ≡ none
        → (tally (env.wait d w).1).waits ≤ deadline) where
    module _ (policy : UrlPolicy) (qrcode : Str) (interval : ℕ) where
      abbrev at : CountsAt interval env lo tally
      at = Counts→CountsAt interval env lo tally counts

      abbrev InTime : WaitNext × W → Type 0
      InTime (return _, w1) = Unit {0}
      InTime (again _, w1) = (tally w1).waits ≤ deadline

      settle-InTime :
          (v : WaitVars) (w : W) (verdict : Verdict) (w1 : W)
          → (tally w).waits ≤ deadline
          → Costs env lo policy tally at v w (verdict, w1)
          → InTime (settle env lo policy interval verdict w1)
      unfolding settle
      settle-InTime v w (finish r) w1 h c = tt
      settle-InTime v w (redirect v') w1 h c = omega (arith, c.1, h)
      settle-InTime v w (pause v') w1 h c = elim (Option-cases (env.wait interval w1).0) [
        | inr (e, stopped) ↦ rw (stopped, settle) tt
        | inl on ↦ rw (on, settle) (ends interval w1 on)
      ]

      iterate_wait-InTime :
          (v : WaitVars) (w : W)
          → v.verify_attempts ≤ pos_part lo.max_verify_attempts
          → (tally w).waits ≤ deadline
          → InTime (iterate_wait env lo policy qrcode interval v w)
      unfolding iterate_wait
      iterate_wait-InTime v w few h =
          let r = poll_once env lo policy qrcode v w in
          settle-InTime v w r.0 r.1 h (poll_once-Costs env lo policy tally at qrcode v w few)

      poll_qr-ends :
          (fuel : ℕ) (v : WaitVars) (w : W)
          → v.verify_attempts ≤ pos_part lo.max_verify_attempts
          → length v.redirects ≤ 5
          → (tally w).waits ≤ deadline
          → deadline + 5 < fuel + (tally w).waits + length v.redirects
          → (r : Error ⊎ Credentials) × ((poll_qr env lo policy fuel qrcode interval v w).0
              ≡ some r)
      unfolding poll_qr
      poll_qr-ends zero v w few short h enough = absurd (omega (arith, short, h, enough))
      poll_qr-ends (suc fuel) v w few short h enough =
          let it = iterate_wait env lo policy qrcode interval v w in
          let s = iterate_wait-Spends env lo policy tally at qrcode v w few short in
          let t = iterate_wait-InTime v w few h in
          elim (WaitNext-cases it.0) [
            | inl (x, over) ↦ (x, rw (over, poll_qr))
            | inr (v', on) ↦
                let c = subst (λ n. Spends env lo policy tally at v w (n, it.1)) on s in
                let d = subst (λ n. InTime (n, it.1)) on t in
                let rest = poll_qr-ends fuel v' it.1 c.4 c.2 d (omega (arith, c.1, enough)) in
                (rest.0, rw (on, poll_qr) rest.1)
          ]

    -- If the timeout ends every wait behind the first `deadline` ones with an error, then a login
    -- returns credentials or an error, whatever the server answers: `deadline` + 6 iterations, less the
    -- waits that were made before, are enough.
    pub login_ends :
        (fuel : ℕ) (qrcode : Str) (interval : ℤ) (w : W)
        → (tally w).waits ≤ deadline
        → deadline + 5 < fuel + (tally w).waits
        → (r : Error ⊎ Credentials) × ((wait_for_qr_confirmation env lo fuel qrcode interval w).0
            ≡ some r)
    unfolding wait_for_qr_confirmation
    login_ends fuel qrcode interval w h enough =
        poll_qr-ends (new_url_policy env.codec.net lo.base_url lo.hosts) qrcode
          (poll_interval interval) fuel (wait_start lo.base_url) w (omega arith) (omega arith) h
          (omega (arith, enough))
