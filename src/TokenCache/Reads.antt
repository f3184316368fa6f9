-- ===== src/TokenCache/Reads.antt =====
-- client.go: what a later `ContextToken` reads after a token was stored or forgotten.
use wechat_bot.Base.{
  ℕ, zero, suc, ◌+◌, ◌≤◌, ◌<◌, false, none, some, get_or, [], ◌∷◌, length, last?, take, leb,
  take_of_length-le, if◌then◌else◌, Str, str_eq, str_eq_iff, str_eq_self, is_empty, is_empty_iff,
  ◌≡◌, ◌≢◌, refl, ap, ◌∙◌, sym, arith, Bool-cases, Option-cases, inl, inr,
}
use wechat_bot.TokenCache.{TokenCache, forget_context_token, set_context_token, context_token}
use wechat_bot.TokenCache.Spec.{Entries, lookup, remove, store}
use wechat_bot.TokenCache.Refinement.{
  IsValid, entries, remove_absent, forget_context_token-refines, context_token-refines,
}
use wechat_bot.TokenCache.Refinement.Store.{
  set_context_token-refines, entries-bounded, users_distinct, set_context_token-no_token,
  IsUserDistinct,
}

lookup-remove_ne : (k q : Str) (l : Entries) → q ≢ k → lookup q (remove k l) ≡ lookup q l
unfolding lookup remove
lookup-remove_ne k q [] h = refl
lookup-remove_ne k q ((j, t) ∷ l) h =
    ground (arith, str_eq_iff j k, str_eq_iff j q, lookup-remove_ne k q l)

-- No user stands twice.
lookup-remove_self : (k : Str) (l : Entries) → IsUserDistinct l → lookup k (remove k l) ≡ none
unfolding lookup remove
lookup-remove_self k [] d = refl
lookup-remove_self k ((j, t) ∷ l) d =
    ground (arith, str_eq_iff j k, d.0, lookup-remove_self k l d.1)

length-remove_le : (k : Str) (l : Entries) → length (remove k l) ≤ length l
unfolding remove
length-remove_le k [] = omega arith
length-remove_le k ((j, t) ∷ l) = ground (arith, length-remove_le k l)

length-remove_hit :
    (k : Str) (l : Entries) (t : Str) → lookup k l ≡ some t → length (remove k l) + 1 ≡ length l
unfolding lookup remove
length-remove_hit k [] t e = absurd (cc)
length-remove_hit k ((j, s) ∷ l) t e = ground (arith, length-remove_hit k l t)

-- Dropping the last entry hides only its user.
lookup-take :
    (q : Str) (n : ℕ) (l : Entries)
    → length l ≡ suc n
    → ((t : Str) → last? l ≢ some (q, t))
    → lookup q (take n l) ≡ lookup q l
unfolding lookup
lookup-take q n [] m h = absurd (omega arith)
lookup-take q zero ((j, t) ∷ []) m h = ground (arith, str_eq_iff j q, h t)
lookup-take q (suc n) ((j, t) ∷ []) m h = absurd (omega arith)
lookup-take q zero ((j, t) ∷ e ∷ l) m h = absurd (omega arith)
lookup-take q (suc n) ((j, t) ∷ e ∷ l) m h = rw (lookup-take q n (e ∷ l) (omega arith) h)

-- Storing a token for `k` loses no other user but the last one of a full cache.
lookup-store_ne :
    (cap : ℕ) (k q t : Str) (l : Entries)
    → 0 < cap
    → length l ≤ cap
    → q ≢ k
    → ((s : Str) → last? l ≢ some (q, s))
    → lookup q (store cap k t l) ≡ lookup q l
unfolding lookup
lookup-store_ne zero k q t l h b ne v = absurd (omega arith)
lookup-store_ne (suc n) k q t l h b ne v =
    let differ : str_eq k q ≡ false = ground (arith, str_eq_iff k q) in
    elim (Option-cases (lookup k l)) [
      | inr (s, hit) ↦
          let short =
            take_of_length-le n (remove k l) (omega (arith, length-remove_hit k l s hit)) in
          rw (differ, short) (lookup-remove_ne k q l ne)
      | inl miss ↦
          rw (differ, remove_absent k l miss)
            (elim (Bool-cases (leb (length l) n)) [
              | inl short ↦ rw (take_of_length-le n l (ground arith))
              | inr long ↦ lookup-take q n l (ground arith) v
            ])
    ]

lookup-store_self :
    (cap : ℕ) (k t : Str) (l : Entries) → 0 < cap → lookup k (store cap k t l) ≡ some t
unfolding lookup
lookup-store_self zero k t l h = absurd (omega arith)
lookup-store_self (suc n) k t l h = rw (str_eq_self k)

module _ (c : TokenCache) (valid : IsValid c) where
  read : (q : Str) → (context_token c q).0 ≡ get_or (lookup q (entries c)) []
  read q = (context_token-refines c q valid).2

  stored :
      (k t : Str)
      → k ≢ []
      → t ≢ []
      → entries (set_context_token c k t) ≡ store c.max_context_tokens k t (entries c)
  stored k t nk nt =
      let ek : is_empty k ≡ false = ground (arith, is_empty_iff k) in
      let et : is_empty t ≡ false = ground (arith, is_empty_iff t) in
      rw (et, ek) at (set_context_token-refines c k t valid).1

  read_stored :
      (k q t : Str)
      → k ≢ []
      → t ≢ []
      → (context_token (set_context_token c k t) q).0
        ≡ get_or (lookup q (store c.max_context_tokens k t (entries c))) []
  read_stored k q t nk nt =
      let r = set_context_token-refines c k t valid in
      (context_token-refines (set_context_token c k t) q r.0).2
      ∙ ap (λ l. get_or (lookup q l) []) (stored k t nk nt)

  -- Right after a token is stored for a user, both not empty, that user's token is read back.
  context_token-set_self :
      (k t : Str) → k ≢ [] → t ≢ [] → (context_token (set_context_token c k t) k).0 ≡ t
  context_token-set_self k t nk nt =
      read_stored k k t nk nt
      ∙ ap (λ o. get_or o [])
          (lookup-store_self c.max_context_tokens k t (entries c) valid.positive)

  -- Storing a token for a user loses the token of no other user, except for the least recently
  -- used one.
  context_token-set_ne :
      (k q t : Str)
      → k ≢ []
      → t ≢ []
      → q ≢ k
      → ((s : Str) → last? (entries c) ≢ some (q, s))
      → (context_token (set_context_token c k t) q).0 ≡ (context_token c q).0
  context_token-set_ne k q t nk nt ne kept =
      read_stored k q t nk nt
      ∙ ap (λ o. get_or o [])
          (lookup-store_ne c.max_context_tokens k q t (entries c) valid.positive
            (entries-bounded c valid) ne kept)
      ∙ sym (read q)

  -- After a user is forgotten, by `ForgetContextToken` or by an empty token, the read gives the
  -- empty string, and every other user reads as before.
  context_token-forget :
      (k q : Str)
      → (set_context_token c k [] ≡ forget_context_token c k)
        × ((context_token (forget_context_token c k) q).0
            ≡ (if str_eq k q then [] else (context_token c q).0))
  context_token-forget k q =
      let r = forget_context_token-refines c k valid in
      let reads = (context_token-refines (forget_context_token c k) q r.0).2 in
      (
        set_context_token-no_token c k,
        elim (Bool-cases (str_eq k q)) [
          | inl same ↦ rw (
            same,
            reads,
            r.1,
            ← (str_eq_iff k q).0 same,
            lookup-remove_self k (entries c) (users_distinct c valid),
          )
          | inr other ↦ rw (
            other,
            reads,
            r.1,
            lookup-remove_ne k q (entries c) (λ e. ground (arith, str_eq_iff k q)),
            read q,
          )
        ],
      )
