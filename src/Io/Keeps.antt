-- ===== src/Io/Keeps.antt =====
-- What a chain of operations keeps true of the world, whether it succeeds or fails.
use wechat_bot.Base.{
  Bool, true, false, Option, none, some, ◌⊎◌, inl, inr, Str, ◌≡◌, refl, Sum-cases,
}
use wechat_bot.Errors.{Error}
use wechat_bot.Io.{Io, ◌>>=◌, ◌>>◌, give, lift, reject_if, refuse, explaining}

-- The operation keeps `P`.
pub record Keeps {W A : Type 0} (P : W → Type 0) (m : Io W A) : Type 0 where
  pub run : (w : W) → P w → P (m w).1

-- An exchange of which a result is made.
pub either-kept :
    {W A B : Type 0} (P : W → Type 0) (f : Error → B) (g : A → B) (r : Error ⊎ A) (w : W)
    → P w
    → P (elim r as (λ x. B × W) [ inl e ↦ (f e, w) | inr a ↦ (g a, w) ]).1
either-kept P f g (inl e) w h = h
either-kept P f g (inr a) w h = h

module _ {W : Type 0} {P : W → Type 0} where
  bind-kept :
      {A B : Type 0} (m : Io W A) (f : A → Io W B) (w : W)
      → Keeps P m
      → ((a : A) → Keeps P (f a))
      → P w
      → P ((m >>= f) w).1
  bind-kept m f w first later h = elim (Sum-cases (m w).0) [
    | inl (e, failed) ↦ rw (failed, ◌>>=◌) (first.run w h)
    | inr (a, done) ↦ rw (done, ◌>>=◌) ((later a).run (m w).1 (first.run w h))
  ]

  pub bind-Keeps :
      {A B : Type 0} {m : Io W A} {f : A → Io W B}
      → Keeps P m
      → ((a : A) → Keeps P (f a))
      → Keeps P (m >>= f)
  bind-Keeps {m = m} {f = f} first later = record { run = λ w h. bind-kept m f w first later h }

  pub lift-Keeps : {A : Type 0} {r : Error ⊎ A} → Keeps P (lift r)
  lift-Keeps = record { run = λ w h. h }

  pub give-Keeps : {A : Type 0} {a : A} → Keeps P (give a)
  give-Keeps = record { run = λ w h. h }

  pub reject_if-Keeps :
      {B : Type 0} (b : Bool) (e : Error) {k : Io W B} → Keeps P k → Keeps P (reject_if b e >> k)
  reject_if-Keeps true e later = record { run = λ w h. h }
  reject_if-Keeps false e later = record { run = λ w h. later.run w h }

  -- What follows a check may use that it has passed.
  pub refuse-Keeps :
      {B : Type 0} {o : Option Error} {k : Io W B}
      → (o ≡ none → Keeps P k)
      → Keeps P (refuse o >> k)
  refuse-Keeps {o = none} later = record { run = λ w h. (later refl).run w h }
  refuse-Keeps {o = some e} later = record { run = λ w h. h }

  pub explaining-Keeps :
      {A : Type 0} (why : Str) {m : Io W A} → Keeps P m → Keeps P (explaining why m)
  explaining-Keeps why first = record { run = λ w h. first.run w h }
