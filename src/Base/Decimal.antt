-- ===== src/Base/Decimal.antt =====
-- `strconv.FormatUint(n, 10)` and `strconv.Itoa` of a number that is not negative.
use Prim.Native.Nat.{ℕ, zero, suc, ◌+◌, ◌/◌, ◌%◌}
use mathlib.Core.Bool.{true, false}
use mathlib.Core.List.{[], ◌∷◌}
use wechat_bot.Base.Strings.{Str}
use wechat_bot.Base.Tests.{ltb}

-- The digits in front of what is there; a number has no more digits than its value plus one.
digits_onto : ℕ → ℕ → Str → Str
digits_onto zero n rest = rest
digits_onto (suc fuel) n rest = elim (ltb n 10) [
  | true ↦ (48 + n) ∷ rest
  | false ↦ digits_onto fuel (n / 10) ((48 + n % 10) ∷ rest)
]

unfoldable pub format_uint : ℕ → Str
unfolding digits_onto
format_uint n = digits_onto (suc n) n []
