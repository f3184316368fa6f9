-- ===== src/Listener/Batch/Balance.antt =====
-- listener.go: the balance of a batch for one user: what was seen, and what is still owed.
use wechat_bot.Base.{
  ◌+◌, ◌≤◌, none, some, List, [], ◌∷◌, ◌++◌, ◌⊎◌, inl, inr, Str, ◌≡◌, refl, sym, ap, ◌∙◌, arith,
  append_assoc, append-nil, List-cases,
}
use wechat_bot.Errors.{Error}
use wechat_bot.Listener.Batch.Shares.{
  sent_by, due, owed, holders, present, due-cons, owed-append, holders-append, owed-nothing,
}
use wechat_bot.Listener.Batch.{Pool}
use wechat_bot.Listener.Dispatch.Order.{Adds, deliveries}
use wechat_bot.Listener.Env.{Sys, Env}
use wechat_bot.Types.{Message, InboundMessage}

-- What goes first when nothing stands before it, or when it is nothing.
ahead :
    {A : Type 0} (l own before rest after : List A)
    → (own ≡ []) ⊎ (before ≡ [])
    → (l ++ own) ++ (before ++ (rest ++ after)) ≡ l ++ (before ++ ((own ++ rest) ++ after))
ahead l own before rest after (inl h) = rw (h, append-nil)
ahead l own before rest after (inr h) = rw (h) (simp (append_assoc))

append-none : {A : Type 0} (xs ys : List A) → xs ++ ys ≡ [] → xs ≡ []
append-none [] ys h = refl
append-none (x ∷ xs) ys h = absurd (cc)

present-append : (xs ys : List InboundMessage) → present ys ≤ present (xs ++ ys)
present-append [] ys = omega arith
present-append (x ∷ xs) [] = omega arith
present-append (x ∷ xs) (y ∷ ys) = omega arith

pub append_left_cancel : (xs ys zs : List InboundMessage) → xs ++ ys ≡ xs ++ zs → ys ≡ zs
append_left_cancel [] ys zs h = h
append_left_cancel (x ∷ xs) ys zs h = append_left_cancel xs ys zs (ground arith)

-- What the handler was called with from a user.
abbrev pub seen : {W : Type 0} → (Sys W → List InboundMessage) → Str → Sys W → List InboundMessage
seen observed u s = sent_by u (observed s)

module _ {W : Type 0} (env : Env W) (observed : Sys W → List InboundMessage) (u : Str)
    (base goal : List InboundMessage) where
  -- What was seen stands behind what had been seen before.
  abbrev Grown : Sys W → Type 0
  Grown s = (done : List InboundMessage) × (seen observed u s ≡ base ++ done)

  grow :
      (s s' : Sys W) (xs : List InboundMessage)
      → seen observed u s' ≡ seen observed u s ++ xs
      → Grown s
      → Grown s'
  grow s s' xs h (done, g) = (done ++ xs, h ∙ ap (λ l. l ++ xs) g ∙ append_assoc base done xs)

  -- Nothing was cancelled: at most one group owes the user anything, and what was seen with what
  -- is owed is the goal.
  pub record Working (p : Pool) (s : Sys W) : Type 0 where
    pub clear : p.cause ≡ none
    pub lone : holders env u p.live + holders env u p.pending ≤ 1
    pub grown : Grown s
    pub balance : goal ≡ seen observed u s ++ (owed env u p.live ++ owed env u p.pending)

  -- The batch was cancelled: what was seen is a first part of the goal.
  pub record Stopped (p : Pool) (s : Sys W) : Type 0 where
    pub first : Error
    pub cancelled : p.cause ≡ some first
    pub rest : List InboundMessage
    pub grown : Grown s
    pub splits : goal ≡ seen observed u s ++ rest

  abbrev pub Owes : Pool → Sys W → Type 0
  Owes p s = Working p s ⊎ Stopped p s

  pub owed-around :
      (before : List (List Message)) (g : List Message) (after : List (List Message))
      → owed env u (before ++ g ∷ after) ≡ owed env u before ++ (due env u g ++ owed env u after)
  owed-around before g after = owed-append env u before (g ∷ after)

  -- A group that is handed over changes nothing of what is owed.
  pub hand-over :
      (before after : List (List Message)) (g : List Message) (gs : List (List Message))
      → holders env u (before ++ [] ∷ after) + holders env u (g ∷ gs) ≤ 1
      → owed env u (before ++ [] ∷ after) ++ owed env u (g ∷ gs)
        ≡ owed env u (before ++ g ∷ after) ++ owed env u gs
  hand-over before after g gs h =
      let total = holders-append env u before ([] ∷ after) in
      elim (List-cases (due env u g)) [
        | inl nothing ↦
            rw
              (owed-append env u before ([] ∷ after), owed-append env u before (g ∷ after), nothing)
        | inr (x, xs, some_due) ↦
            let none_after : owed env u after ≡ [] =
              owed-nothing env u after (omega (arith, h, total, ap present some_due)) in
            rw
              (
                owed-append env u before ([] ∷ after),
                owed-append env u before (g ∷ after),
                none_after,
              )
              (simp (append_assoc, append-nil))
      ]

  -- Either the message owes the user nothing, or the groups of the workers before do.
  first-owed :
      (p : Pool) (s : Sys W) (before : List (List Message)) (m : Message) (rest : List Message)
      (after : List (List Message))
      → p.live ≡ before ++ (m ∷ rest) ∷ after
      → Working p s
      → (sent_by u (deliveries env m) ≡ []) ⊎ (owed env u before ≡ [])
  first-owed p s before m rest after e w = elim (List-cases (sent_by u (deliveries env m))) [
    | inl nothing ↦ inl nothing
    | inr (x, xs, some_due) ↦
        let held = ap present (due-cons env u m rest ∙ ap (λ l. l ++ due env u rest) some_due) in
        let total = ap (holders env u) e ∙ holders-append env u before ((m ∷ rest) ∷ after) in
        inr (owed-nothing env u before (omega (arith, w.lone, total, held)))
  ]

  -- What the workers owe around a message that is to be dispatched.
  balance-around :
      (p : Pool) (s : Sys W) (before : List (List Message)) (m : Message) (rest : List Message)
      (after : List (List Message))
      → p.live ≡ before ++ (m ∷ rest) ∷ after
      → Working p s
      → goal
        ≡ (seen observed u s
            ++ (owed env u before
                ++ ((sent_by u (deliveries env m) ++ due env u rest) ++ owed env u after)))
          ++ owed env u p.pending
  balance-around p s before m rest after e w =
      w.balance
      ∙ ap (λ l. seen observed u s ++ (l ++ owed env u p.pending))
          (ap (owed env u) e
            ∙ owed-around before (m ∷ rest) after
            ∙ ap (λ l. owed env u before ++ (l ++ owed env u after)) (due-cons env u m rest))
      ∙ sym (
          append_assoc (seen observed u s)
            (owed env u before
              ++ ((sent_by u (deliveries env m) ++ due env u rest) ++ owed env u after))
            (owed env u p.pending))

  pub dispatched-Working :
      (p : Pool) (s s' : Sys W) (before : List (List Message)) (m : Message) (rest : List Message)
      (after : List (List Message))
      → p.live ≡ before ++ (m ∷ rest) ∷ after
      → Working p s
      → Adds (seen observed u) (sent_by u (deliveries env m)) s (none, s')
      → Working (record p { live = before ++ rest ∷ after }) s'
  dispatched-Working p s s' before m rest after e w a =
      let own = sent_by u (deliveries env m) in
      let nothing_left : a.rest ≡ [] = elim a.ended [ inl (e1, h) ↦ absurd (cc) | inr h ↦ h ] in
      let whole : own ≡ a.done = a.splits ∙ rw nothing_left (append-nil a.done) in
      let now : seen observed u s' ≡ seen observed u s ++ own =
        a.adds ∙ ap (λ l. seen observed u s ++ l) (sym whole) in
      let total = ap (holders env u) e ∙ holders-append env u before ((m ∷ rest) ∷ after) in
      let total' = holders-append env u before (rest ∷ after) in
      let left = owed env u before ++ (due env u rest ++ owed env u after) in
      let fewer = present-append own (due env u rest) in
      record {
        clear = w.clear;
        grown = grow s s' own now w.grown;
        lone = omega (arith, w.lone, total, total', fewer, ap present (due-cons env u m rest));
        balance =
            balance-around p s before m rest after e w
            ∙ ap (λ l. l ++ owed env u p.pending)
                (sym (
                  ahead (seen observed u s) own (owed env u before) (due env u rest)
                    (owed env u after) (first-owed p s before m rest after e w)))
            ∙ append_assoc (seen observed u s ++ own) left (owed env u p.pending)
            ∙ ap (λ l. l ++ (left ++ owed env u p.pending)) (sym now)
            ∙ ap (λ l. seen observed u s' ++ (l ++ owed env u p.pending))
                (sym (owed-around before rest after));
      }

  pub failed-Stopped :
      (p : Pool) (s s' s2 : Sys W) (before : List (List Message)) (m : Message)
      (rest : List Message) (after live : List (List Message)) (e1 first : Error)
      → p.live ≡ before ++ (m ∷ rest) ∷ after
      → Working p s
      → Adds (seen observed u) (sent_by u (deliveries env m)) s (some e1, s')
      → observed s2 ≡ observed s'
      → Stopped (record p { live = live; cause = some first }) s2
  failed-Stopped p s s' s2 before m rest after live e1 first e w a same =
      let own = sent_by u (deliveries env m) in
      let unmixed : (a.done ≡ []) ⊎ (owed env u before ≡ []) =
        elim (first-owed p s before m rest after e w) [
          | inr h ↦ inr h
          | inl h ↦ inl (append-none a.done a.rest (sym a.splits ∙ h))
        ] in
      let left = owed env u before ++ ((a.rest ++ due env u rest) ++ owed env u after) in
      record {
        first = first;
        cancelled = refl;
        grown = grow s s2 a.done (ap (sent_by u) same ∙ a.adds) w.grown;
        rest = left ++ owed env u p.pending;
        splits =
            balance-around p s before m rest after e w
            ∙ ap
                (λ l.
                  (seen observed u s ++ (owed env u before ++ (l ++ owed env u after)))
                  ++ owed env u p.pending)
                (ap (λ l. l ++ due env u rest) a.splits
                  ∙ append_assoc a.done a.rest (due env u rest))
            ∙ ap (λ l. l ++ owed env u p.pending)
                (sym (
                  ahead (seen observed u s) a.done (owed env u before) (a.rest ++ due env u rest)
                    (owed env u after) unmixed))
            ∙ append_assoc (seen observed u s ++ a.done) left (owed env u p.pending)
            ∙ ap (λ l. l ++ (left ++ owed env u p.pending)) (sym (ap (sent_by u) same ∙ a.adds));
      }

  -- A cancelled pool may change in all but its cause.
  pub same_cause-Stopped :
      (p p' : Pool) (s : Sys W) → p'.cause ≡ p.cause → Stopped p s → Stopped p' s
  same_cause-Stopped p p' s h c = record {
    first = c.first;
    cancelled = h ∙ c.cancelled;
    grown = c.grown;
    rest = c.rest;
    splits = c.splits;
  }

  -- The same at a state at which as much was observed.
  pub Owes-from : (p : Pool) (s s' : Sys W) → observed s' ≡ observed s → Owes p s → Owes p s'
  Owes-from p s s' h (inl w) = inl (record {
    clear = w.clear;
    grown = (w.grown.0, ap (sent_by u) h ∙ w.grown.1);
    lone = w.lone;
    balance =
        w.balance
        ∙ ap (λ l. l ++ (owed env u p.live ++ owed env u p.pending)) (sym (ap (sent_by u) h));
  })
  Owes-from p s s' h (inr c) = inr (record {
    first = c.first;
    cancelled = c.cancelled;
    grown = (c.grown.0, ap (sent_by u) h ∙ c.grown.1);
    rest = c.rest;
    splits = c.splits ∙ ap (λ l. l ++ c.rest) (sym (ap (sent_by u) h));
  })
