-- ===== src/Login/Wait/Progress.antt =====
-- login.go: the end of a login at a server that confirms in the end.
use wechat_bot.Base.{ℕ, ◌+◌, ◌*◌, Str, ◌≡◌}
use wechat_bot.Login.Options.{LoginOptions}
use wechat_bot.Login.Wait.{WaitEnv, WaitVars, again, iterate_wait}
use wechat_bot.Storage.File.{Credentials}
use wechat_bot.Url.Policy.{UrlPolicy}
use wechat_bot.Login.Wait.Cooperation.{IsPlain, Cooperates}

module _ {W : Type 0} (env : WaitEnv W) (lo : LoginOptions W) (qrcode : Str) where
  module _ {interval : ℕ} {Alive : ℕ → W → Type 0} (rounds : W → ℕ) (c : Credentials)
      (co : Cooperates env lo qrcode interval Alive rounds c) (policy : UrlPolicy) where
    -- The iteration goes on with a plain login, one round less and a context that lives on.
    record Advances (n : ℕ) (v : WaitVars) (w : W) : Type 0 where
      next : WaitVars
      world : W
      plain : IsPlain env lo qrcode rounds c co policy next
      left : rounds world ≡ n
      lives : Alive (n * 2 + 1) world
      went : iterate_wait env lo policy qrcode interval v w ≡ (again next, world)
