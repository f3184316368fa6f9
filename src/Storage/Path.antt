-- ===== src/Storage/Path.antt =====
-- storage.go: the file name that `pathForAccount` derives from an account.
pub mod Decode
use wechat_bot.Base.{
  ℕ, suc, ◌+◌, ◌-◌, ◌/◌, ◌%◌, Bool, true, false, not, ◌&&◌, ◌||◌, List, [], ◌∷◌, ◌++◌, map, length,
  take, leb, ltb, ◌==◌, if◌then◌else◌, Str, codes, str_eq, is_empty,
}

-- The bytes that stand for themselves.
unfoldable pub is_safe : ℕ → Bool
is_safe b =
    leb b'a' b && leb b b'z'
    || leb b'0' b && leb b b'9'
    || b == b'@'
    || b == b'.'
    || b == b'-'
    || b == b'_'

-- A digit of `%X`
unfoldable pub hex_digit : ℕ → ℕ
hex_digit n = if ltb n 10 then 48 + n else 55 + n

-- `fmt.Sprintf("%%%02X", b)`
unfoldable pub escape_byte : ℕ → Str
unfolding hex_digit
escape_byte b = b'%' ∷ hex_digit (b / 16) ∷ hex_digit (b % 16) ∷ []

unfoldable pub safe_name : Str → Str
unfolding is_safe escape_byte
safe_name [] = []
safe_name (b ∷ account) =
    let rest = safe_name account in if is_safe b then b ∷ rest else escape_byte b ++ rest

-- `strings.SplitN(name, ".", 2)[0]`
unfoldable pub before_dot : Str → Str
before_dot [] = []
before_dot (c ∷ s) = let rest = before_dot s in if c == b'.' then [] else c ∷ rest

-- `strings.ToUpper` of one byte of a name, which is in ASCII
unfoldable pub upper : ℕ → ℕ
upper c = if leb b'a' c && leb c b'z' then c - 32 else c

-- `stem[3] >= '1' && stem[3] <= '9'`
unfoldable pub ends_in_digit : Str → Bool
ends_in_digit (a ∷ b ∷ c ∷ d ∷ []) = leb b'1' d && leb d b'9'
ends_in_digit _ = false

unfoldable pub is_reserved_stem : Str → Bool
unfolding ends_in_digit
is_reserved_stem stem =
    str_eq stem (codes "CON")
    || str_eq stem (codes "PRN")
    || str_eq stem (codes "AUX")
    || str_eq stem (codes "NUL")
    || length stem == 4
      && (str_eq (take 3 stem) (codes "COM") || str_eq (take 3 stem) (codes "LPT"))
      && ends_in_digit stem

unfoldable pub is_reserved : Str → Bool
unfolding before_dot upper is_reserved_stem
is_reserved name = is_reserved_stem (map upper (before_dot name))

-- `fmt.Sprintf("%%%02X%s", name[0], name[1:])`
unfoldable pub escape_first : Str → Str
unfolding escape_byte
escape_first [] = []
escape_first (c ∷ s) = escape_byte c ++ s

-- The base name of the file, less `.json`.
unfoldable pub account_name : Str → Str
unfolding safe_name is_reserved escape_first
account_name account =
    let safe = safe_name account in
    let name = if is_empty safe then codes "%" else safe in
    if is_reserved name then escape_first name else name

-- `pathForAccount`; `join` is `filepath.Join`.
unfoldable pub path_for_account : (Str → Str → Str) → Str → Str → Str
unfolding account_name
path_for_account join base_dir account = join base_dir (account_name account ++ codes ".json")
