-- ===== src/Listener/Batch/Shares.antt =====
-- listener.go: what one user is still owed by the groups of a batch.
use wechat_bot.Base.{
  ℕ, ◌+◌, ◌≤◌, false, ◌&&◌, none, some, List, [], ◌∷◌, ◌++◌, map, keep, keep-append, keep-cons,
  keep-skip, Str, str_eq, str_eq_iff, ◌≡◌, refl, sym, subst, ap, ◌∙◌, arith, append_assoc,
  append-nil, Bool-cases, Sum-cases, Option-cases, List-cases, inl, inr,
}
use wechat_bot.Listener.Batch.{group_messages, no_groups}
use wechat_bot.Listener.Batch.Group.{
  index_of, IsDistinct, messages_of, users_of, groups_by_user, users_of-covers,
}
use wechat_bot.Listener.Batch.Sequence.{batch_deliveries}
use wechat_bot.Listener.Dispatch.Order.{deliveries}
use wechat_bot.Listener.Dispatch.{is_deliverable, inbound_message, raw_of}
use wechat_bot.Listener.Env.{Env}
use wechat_bot.Types.{Item, Message, InboundMessage}

-- The inbound messages of one user, in their order.
abbrev pub sent_by : Str → List InboundMessage → List InboundMessage
sent_by u = keep (λ m. str_eq m.from_user_id u)

pub sent_by-append :
    (u : Str) (xs ys : List InboundMessage) → sent_by u (xs ++ ys) ≡ sent_by u xs ++ sent_by u ys
sent_by-append u xs ys = keep-append (λ m. str_eq m.from_user_id u) xs ys

-- Whether a list holds anything, as a number.
abbrev pub present : List InboundMessage → ℕ
present [] = 0
present (_ ∷ _) = 1

module _ {W : Type 0} (env : Env W) (u : Str) where
  -- What the handler is still to be called with from the user, for the messages of one group.
  abbrev pub due : List Message → List InboundMessage
  due g = sent_by u (batch_deliveries env g)

  -- The same for a list of groups, one after another.
  abbrev pub owed : List (List Message) → List InboundMessage
  owed [] = []
  owed (g ∷ gs) = due g ++ owed gs

  -- How many groups owe the user something.
  abbrev pub holders : List (List Message) → ℕ
  holders [] = 0
  holders (g ∷ gs) = present (due g) + holders gs

  pub due-cons :
      (m : Message) (ms : List Message) → due (m ∷ ms) ≡ sent_by u (deliveries env m) ++ due ms
  due-cons m ms = sent_by-append u (deliveries env m) (batch_deliveries env ms)

  pub owed-append : (xs ys : List (List Message)) → owed (xs ++ ys) ≡ owed xs ++ owed ys
  owed-append [] ys = refl
  owed-append (g ∷ xs) ys =
      ap (λ l. due g ++ l) (owed-append xs ys) ∙ sym (append_assoc (due g) (owed xs) (owed ys))

  pub holders-append : (xs ys : List (List Message)) → holders (xs ++ ys) ≡ holders xs + holders ys
  holders-append [] ys = omega arith
  holders-append (g ∷ xs) ys = omega (arith, holders-append xs ys)

  pub owed-nothing : (gs : List (List Message)) → holders gs ≡ 0 → owed gs ≡ []
  owed-nothing [] h = refl
  owed-nothing (g ∷ gs) h = elim (List-cases (due g)) [
    | inl nothing ↦
        ap (λ l. l ++ owed gs) nothing ∙ owed-nothing gs (omega (arith, ap present nothing, h))
    | inr (x, xs, some_due) ↦ absurd (omega (arith, ap present some_due, h))
  ]

  -- Items of another user's message owe the user nothing.
  items-other :
      (m : Message) (raw : Str) (items : List Item)
      → str_eq m.from_user_id u ≡ false
      → sent_by u (map (inbound_message m raw) items) ≡ []
  unfolding inbound_message
  items-other m raw [] h = refl
  items-other m raw (item ∷ items) h =
      keep-skip (λ i. str_eq i.from_user_id u) (inbound_message m raw item)
        (map (inbound_message m raw) items) h
      ∙ items-other m raw items h

  pub deliveries-other :
      (m : Message)
      → is_deliverable m && str_eq m.from_user_id u ≡ false
      → sent_by u (deliveries env m) ≡ []
  deliveries-other m h = elim (Bool-cases (is_deliverable m)) [
    | inr skip ↦ rw skip
    | inl mine ↦ elim (Sum-cases (raw_of env m)) [
      | inl (e, bad) ↦ rw (mine, bad)
      | inr (raw, good) ↦
          let other : str_eq m.from_user_id u ≡ false = ground (arith, mine, h) in
          rw (mine, good) (items-other m raw m.item_list other)
    ]
  ]

  -- A user's messages owe the user what the whole batch does.
  due-messages_of : (ms : List Message) → due (messages_of u ms) ≡ due ms
  due-messages_of [] = refl
  due-messages_of (m ∷ ms) = elim (Bool-cases (is_deliverable m && str_eq m.from_user_id u)) [
    | inl mine ↦
        ap due (keep-cons (λ x. is_deliverable x && str_eq x.from_user_id u) m ms mine)
        ∙ due-cons m (messages_of u ms)
        ∙ ap (λ l. sent_by u (deliveries env m) ++ l) (due-messages_of ms)
        ∙ sym (due-cons m ms)
    | inr other ↦
        ap due (keep-skip (λ x. is_deliverable x && str_eq x.from_user_id u) m ms other)
        ∙ due-messages_of ms
        ∙ sym (due-cons m ms ∙ ap (λ l. l ++ due ms) (deliveries-other m other))
  ]

  due-other : (v : Str) (ms : List Message) → str_eq v u ≡ false → due (messages_of v ms) ≡ []
  due-other v [] h = refl
  due-other v (m ∷ ms) h = elim (Bool-cases (is_deliverable m && str_eq m.from_user_id v)) [
    | inr left_out ↦
        ap due (keep-skip (λ x. is_deliverable x && str_eq x.from_user_id v) m ms left_out)
        ∙ due-other v ms h
    | inl theirs ↦
        let not_mine : is_deliverable m && str_eq m.from_user_id u ≡ false =
          ground
            (arith, str_eq_iff m.from_user_id v, str_eq_iff m.from_user_id u, str_eq_iff v u) in
        ap due (keep-cons (λ x. is_deliverable x && str_eq x.from_user_id v) m ms theirs)
        ∙ due-cons m (messages_of v ms)
        ∙ ap (λ l. l ++ due (messages_of v ms)) (deliveries-other m not_mine)
        ∙ due-other v ms h
  ]

  holders-one :
      (g : List Message) (gs : List (List Message)) → holders gs ≡ 0 → holders (g ∷ gs) ≤ 1
  holders-one g gs h = elim (List-cases (due g)) [
    | inl nothing ↦ omega (arith, ap present nothing, h)
    | inr (x, xs, some_due) ↦ omega (arith, ap present some_due, h)
  ]

  -- The groups of a list of users without the user owe nothing.
  groups-absent :
      (ms : List Message) (us : List Str)
      → index_of u us ≡ none
      → holders (map (λ v. messages_of v ms) us) ≡ 0
  unfolding index_of
  groups-absent ms [] h = refl
  groups-absent ms (v ∷ us) h = elim (Bool-cases (str_eq v u)) [
    | inl same ↦ absurd (ground arith)
    | inr other ↦
        let rest = groups-absent ms us (ground arith) in
        omega (arith, ap present (due-other v ms other), rest)
  ]

  -- What the groups owe a user, and in how many of them.
  pub record OwesOnce (ms : List Message) (gs : List (List Message)) : Type 0 where
    pub lone : holders gs ≤ 1
    pub whole : owed gs ≡ due ms

  groups-OwesOnce :
      (ms : List Message) (us : List Str) (i : ℕ)
      → IsDistinct us
      → index_of u us ≡ some i
      → OwesOnce ms (map (λ v. messages_of v ms) us)
  unfolding index_of
  groups-OwesOnce ms [] i d h = absurd (cc)
  groups-OwesOnce ms (v ∷ us) i d h = elim (Bool-cases (str_eq v u)) [
    | inl same ↦
        let mine : v ≡ u = (str_eq_iff v u).0 same in
        let others = groups-absent ms us (subst (λ x. index_of x us ≡ none) mine d.0) in
        record {
          lone = holders-one (messages_of v ms) (map (λ x. messages_of x ms) us) others;
          whole =
              ap (λ l. due (messages_of v ms) ++ l)
                (owed-nothing (map (λ x. messages_of x ms) us) others)
              ∙ append-nil (due (messages_of v ms))
              ∙ ap (λ x. due (messages_of x ms)) mine
              ∙ due-messages_of ms;
        }
    | inr other ↦ elim (Option-cases (index_of u us)) [
      | inl nobody ↦ absurd (ground arith)
      | inr (j, found) ↦
          let rest = groups-OwesOnce ms us j d.1 found in
          record {
            lone = omega (arith, ap present (due-other v ms other), rest.lone);
            whole =
                ap (λ l. l ++ owed (map (λ x. messages_of x ms) us)) (due-other v ms other)
                ∙ rest.whole;
          }
    ]
  ]

  -- At the start of a batch at most one group owes the user anything, and together they owe what
  -- the batch does.
  pub batch-OwesOnce : (ms : List Message) → OwesOnce ms (group_messages no_groups ms).groups
  batch-OwesOnce ms =
      let (grouped, distinct) = groups_by_user ms in
      subst (OwesOnce ms) (sym grouped) (elim (Option-cases (index_of u (users_of ms))) [
        | inr (i, found) ↦ groups-OwesOnce ms (users_of ms) i distinct found
        | inl nobody ↦
            let absent = groups-absent ms (users_of ms) nobody in
            record {
              lone = omega (arith, absent);
              whole =
                  owed-nothing (map (λ x. messages_of x ms) (users_of ms)) absent
                  ∙ sym (sym (due-messages_of ms) ∙ ap due (users_of-covers ms u nobody));
            }
      ])
