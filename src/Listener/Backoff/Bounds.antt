-- ===== src/Listener/Backoff/Bounds.antt =====
-- listener.go: the size of the delay before a retry.
use native.Mathlib.Nat.{pow-suc}
use wechat_bot.Base.{
  ℕ, zero, suc, ◌+◌, ◌-◌, ◌*◌, ◌/◌, ◌%◌, ◌^◌, ◌≤◌, ◌<◌, min, leb, ◌≡◌, arith, Bool-cases, inl, inr,
}
use wechat_bot.Listener.Backoff.{backoff_loop, backoff_base, equal_jitter, backoff}

pow_pos : (n : ℕ) → 0 < 2 ^ n
pow_pos zero = omega arith
pow_pos (suc n) = rw pow-suc (omega (arith, pow_pos n))

pow_double : (d n : ℕ) → d * 2 ^ suc n ≡ d * 2 * 2 ^ n
pow_double d n = rw pow-suc (omega arith)

le-mul_pow : (d n : ℕ) → d ≤ d * 2 ^ n
le-mul_pow d n = grind (arith, pow_pos n)

-- Below the maximum, doubling does not wrap around.
backoff_loop_lem :
    (rounds delay backoff_max : ℕ)
    → delay ≤ backoff_max
    → backoff_max < 2 ^ 63
    → backoff_loop rounds delay backoff_max ≡ min (delay * 2 ^ rounds) backoff_max
unfolding backoff_loop
backoff_loop_lem zero delay backoff_max h k = omega arith
backoff_loop_lem (suc n) delay backoff_max h k =
    let doubled = pow_double delay n in
    elim (Bool-cases (leb (backoff_max - delay) delay)) [
      | inl reached ↦
          let past : backoff_max ≤ delay * 2 = ground arith in
          rw (reached, doubled) (omega (arith, le-mul_pow (delay * 2) n))
      | inr below ↦
          let room : delay * 2 ≤ backoff_max = ground arith in
          let exact : (delay * 2) % 2 ^ 64 ≡ delay * 2 = omega arith in
          rw (below, doubled, exact) (backoff_loop_lem n (delay * 2) backoff_max room k)
    ]

-- For bounds that the configuration accepts, the delay before the jitter after `failures` failed
-- polls is the initial delay doubled `failures - 1` times, or the maximum if that is less; it
-- never overflows.
pub backoff_base_lem :
    (backoff_initial backoff_max failures : ℕ)
    → backoff_initial ≤ backoff_max
    → backoff_max < 2 ^ 63
    → backoff_base backoff_initial backoff_max failures
      ≡ min (backoff_initial * 2 ^ (failures - 1)) backoff_max
unfolding backoff_base
backoff_base_lem lo hi failures h k = backoff_loop_lem (failures - 1) lo hi h k

-- `Int64N` returns a number below its argument, if that is positive.
abbrev pub Int64nLaw : (ℕ → ℕ) → Type 0
Int64nLaw int64n = (n : ℕ) → 0 < n → int64n n < n

pub equal_jitter_bounds :
    (int64n : ℕ → ℕ) (d : ℕ)
    → Int64nLaw int64n
    → (d / 2 ≤ equal_jitter int64n d) × (equal_jitter int64n d ≤ d)
unfolding equal_jitter
equal_jitter_bounds int64n d law =
    let below = law (d - d / 2 + 1) (omega arith) in ground (arith, below)

-- For bounds that the configuration accepts, the delay before a retry lies in the upper half of the
-- doubled delay, which is the initial delay doubled `failures - 1` times or `BackoffMax` if that is
-- less: it is at least half of that and at most that, whatever `Int64N` returns. So it never exceeds
-- `BackoffMax`.
pub backoff_bounds :
    (int64n : ℕ → ℕ) (backoff_initial backoff_max failures : ℕ)
    → Int64nLaw int64n
    → backoff_initial ≤ backoff_max
    → backoff_max < 2 ^ 63
    → (min (backoff_initial * 2 ^ (failures - 1)) backoff_max / 2
        ≤ backoff int64n backoff_initial backoff_max failures)
      × (backoff int64n backoff_initial backoff_max failures
          ≤ min (backoff_initial * 2 ^ (failures - 1)) backoff_max)
      × (backoff int64n backoff_initial backoff_max failures ≤ backoff_max)
unfolding backoff
backoff_bounds int64n lo hi failures law h k =
    let base = backoff_base_lem lo hi failures h k in
    let b = equal_jitter_bounds int64n (backoff_base lo hi failures) law in
    (rw (← base) b.0, rw (← base) b.1, omega (arith, b.1, base))
