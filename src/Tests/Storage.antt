-- ===== src/Tests/Storage.antt =====
-- storage.go: the theorems on the file names of accounts, at a reserved name.
use wechat_bot.Base.{◌<◌, ◌≡◌, refl, arith, codes, All}
use wechat_bot.Storage.Path.{account_name}
use wechat_bot.Storage.Path.Decode.{decode, decode-account_name, account_name-injective}

-- A reserved name
con-IsBytes : All (λ b. b < 256) (codes "con")
con-IsBytes = (omega arith, (omega arith, (omega arith, tt)))

decode-account_name_example : decode (account_name (codes "con")) ≡ codes "con"
decode-account_name_example = decode-account_name (codes "con") con-IsBytes

account_name-injective_example : codes "con" ≡ codes "con"
account_name-injective_example =
    account_name-injective (codes "con") (codes "con") con-IsBytes con-IsBytes refl
