-- ===== src/Io.antt =====
-- Chains of fallible operations on a world: `if err != nil { return …, err }`.
pub mod Keeps
use wechat_bot.Base.{Option, none, some, Bool, true, false, ◌⊎◌, inl, inr, Str}
use wechat_bot.Errors.{Error, wrapped}
use wechat_bot.Listener.Env.{Action}

abbrev pub Io : Type 0 → Type 0 → Type 0
Io W A = Action W (Error ⊎ A)

infixl 5 ◌>>=◌ ◌>>◌
abbrev pub ◌>>=◌ : {W A B : Type 0} → Io W A → (A → Io W B) → Io W B
◌>>=◌ m f w = let (r, w1) = m w in elim r [ inl e ↦ (inl e, w1) | inr a ↦ f a w1 ]

abbrev pub ◌>>◌ : {W B : Type 0} → Io W (Unit {0}) → Io W B → Io W B
m >> k = m >>= λ _. k

abbrev pub give : {W A : Type 0} → A → Io W A
give a w = (inr a, w)

abbrev pub lift : {W A : Type 0} → Error ⊎ A → Io W A
lift r w = (r, w)

-- `if test { return …, err }`
abbrev pub reject_if : {W : Type 0} → Bool → Error → Io W (Unit {0})
reject_if true e w = (inl e, w)
reject_if false e w = (inr tt, w)

-- `if err := check; err != nil { return …, err }`
abbrev pub refuse : {W : Type 0} → Option Error → Io W (Unit {0})
refuse (some e) w = (inl e, w)
refuse none w = (inr tt, w)

-- `fmt.Errorf("…: %w", err)`
abbrev pub explain : {A : Type 0} → Str → Error ⊎ A → Error ⊎ A
explain why (inl e) = inl (wrapped why e)
explain why (inr a) = inr a

abbrev pub explaining : {W A : Type 0} → Str → Io W A → Io W A
explaining why m w = let (r, w1) = m w in (explain why r, w1)
