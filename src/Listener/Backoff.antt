-- ===== src/Listener/Backoff.antt =====
-- listener.go: `backoffBase`, `equalJitter` and `backoff`. A `time.Duration` that is not negative is
-- its 64-bit pattern.
pub mod Bounds
use wechat_bot.Base.{ℕ, zero, suc, ◌+◌, ◌-◌, ◌*◌, ◌/◌, ◌%◌, ◌^◌, ◌<◌, min, Bool, leb, if◌then◌else◌}

-- The loop of `backoffBase`, by the rounds left.
unfoldable pub backoff_loop : ℕ → ℕ → ℕ → ℕ
backoff_loop zero delay backoff_max = min delay backoff_max
backoff_loop (suc rounds) delay backoff_max =
    let rest = backoff_loop rounds ((delay * 2) % 2 ^ 64) backoff_max in
    if leb (backoff_max - delay) delay then backoff_max else rest

unfoldable pub backoff_base : ℕ → ℕ → ℕ → ℕ
unfolding backoff_loop
backoff_base backoff_initial backoff_max failures =
    backoff_loop (failures - 1) backoff_initial backoff_max

-- `int64n` is `rand.Int64N`, whose argument must be positive.
unfoldable pub equal_jitter : (ℕ → ℕ) → ℕ → ℕ
equal_jitter int64n d = if leb d 1 then d else let half = d / 2 in half + int64n (d - half + 1)

unfoldable pub backoff : (ℕ → ℕ) → ℕ → ℕ → ℕ → ℕ
unfolding backoff_base equal_jitter
backoff int64n backoff_initial backoff_max failures =
    equal_jitter int64n (backoff_base backoff_initial backoff_max failures)
