-- ===== src/Listener/Batch/Group.antt =====
-- listener.go: the grouping of a batch by user.
use wechat_bot.Base.{
  ℕ, suc, true, false, ◌&&◌, Option, none, some, List, [], ◌∷◌, ◌++◌, map, keep, length,
  if◌then◌else◌, Str, str_eq, str_eq_iff, str_eq_self, ◌≡◌, ◌≢◌, refl, sym, ap, fun_ext, ◌∙◌, arith,
  append_assoc, append-nil, keep-append, map-append, length-map, Option-cases, Bool-cases, inl, inr,
}
use wechat_bot.Listener.Batch.{append_at, Grouping, group_message, group_messages, no_groups}
use wechat_bot.Listener.Dispatch.{is_deliverable}
use wechat_bot.TokenCache.{map_get}
use wechat_bot.TokenCache.Index.{map_get-set}
use wechat_bot.Types.{Message}

-- The finished messages of one user, in their order.
abbrev pub messages_of : Str → List Message → List Message
messages_of u = keep (λ m. is_deliverable m && str_eq m.from_user_id u)

-- The place of a user in a list.
unfoldable pub index_of : Str → List Str → Option ℕ
index_of u [] = none
index_of u (v ∷ vs) =
    if str_eq v u then some 0 else elim (index_of u vs) [ none ↦ none | some i ↦ some (suc i) ]

-- The users of a batch's finished messages, in the order in which they first appear.
unfoldable pub users_onto : List Str → List Message → List Str
users_onto users [] = users
users_onto users (m ∷ ms) =
    users_onto
      (if is_deliverable m
        then elim (index_of m.from_user_id users) [
          | none ↦ users ++ m.from_user_id ∷ []
          | some _ ↦ users
        ]
        else users)
      ms

abbrev pub users_of : List Message → List Str
users_of = users_onto []

-- No user stands twice.
abbrev pub IsDistinct : List Str → Type 0
IsDistinct [] = Unit
IsDistinct (u ∷ us) = (index_of u us ≡ none) × IsDistinct us

-- What a message adds to the messages of a user.
abbrev share : Str → Message → List Message
share u m = messages_of u (m ∷ [])

index_of-append :
    (u v : Str) (us : List Str)
    → index_of v us ≡ none
    → index_of u (us ++ v ∷ []) ≡ (if str_eq v u then some (length us) else index_of u us)
unfolding index_of
index_of-append u v [] h = ground arith
index_of-append u v (w ∷ us) h =
    ground (arith, str_eq_iff w u, str_eq_iff w v, str_eq_iff v u, index_of-append u v us)

append-IsDistinct :
    (v : Str) (us : List Str) → IsDistinct us → index_of v us ≡ none → IsDistinct (us ++ v ∷ [])
unfolding index_of
append-IsDistinct v [] d h = (refl, tt)
append-IsDistinct v (w ∷ us) d h = (
  ground (arith, str_eq_iff v w, str_eq_iff w v, index_of-append w v us),
  append-IsDistinct v us d.1 (ground arith),
)

append_at-last :
    (m : Message) (gs : List (List Message))
    → append_at (length gs) m (gs ++ [] ∷ []) ≡ gs ++ (m ∷ []) ∷ []
unfolding append_at
append_at-last m [] = refl
append_at-last m (g ∷ gs) = ap (◌∷◌ g) (append_at-last m gs)

-- A user that is not in the list gets nothing.
map-share_absent :
    (m : Message) (done : List Message) (us : List Str)
    → is_deliverable m ≡ true
    → index_of m.from_user_id us ≡ none
    → map (λ u. messages_of u (done ++ m ∷ [])) us ≡ map (λ u. messages_of u done) us
unfolding index_of
map-share_absent m done [] h e = refl
map-share_absent m done (u ∷ us) h e = ground (
  arith,
  keep-append (λ x. is_deliverable x && str_eq x.from_user_id u) done (m ∷ []),
  h,
  append-nil (messages_of u done),
  str_eq_iff u m.from_user_id,
  str_eq_iff m.from_user_id u,
  map-share_absent m done us h,
)

map-share_present :
    (m : Message) (done : List Message) (us : List Str) (i : ℕ)
    → is_deliverable m ≡ true
    → IsDistinct us
    → index_of m.from_user_id us ≡ some i
    → map (λ u. messages_of u (done ++ m ∷ [])) us
      ≡ append_at i m (map (λ u. messages_of u done) us)
unfolding index_of append_at
map-share_present m done [] i h d e = absurd (cc)
map-share_present m done (u ∷ us) i h d e =
    let from_u = keep-append (λ x. is_deliverable x && str_eq x.from_user_id u) done (m ∷ []) in
    elim (Bool-cases (str_eq u m.from_user_id)) [
      | inl same ↦
          let mine : u ≡ m.from_user_id = (str_eq_iff u m.from_user_id).0 same in
          let first : i ≡ 0 = ground arith in
          let absent = map-share_absent m done us h (rw (← mine) d.0) in
          rw first (ground (arith, from_u, absent, h, mine, str_eq_iff m.from_user_id u))
      | inr other ↦ elim (Option-cases (index_of m.from_user_id us)) [
        | inl nobody ↦ absurd (ground arith)
        | inr (j, found) ↦
            let later : i ≡ suc j = ground arith in
            let rest = map-share_present m done us j h d.1 found in
            rw later (
              ground (
                arith,
                from_u,
                rest,
                h,
                append-nil (messages_of u done),
                str_eq_iff u m.from_user_id,
                str_eq_iff m.from_user_id u,
              ))
      ]
    ]

-- The state of the grouping loop when `done` has been read and `users` have appeared.
record IsGrouped (g : Grouping) (users : List Str) (done : List Message) : Type 0 where
  groups : g.groups ≡ map (λ u. messages_of u done) users
  indexed : (u : Str) → map_get u g.indexes ≡ index_of u users
  distinct : IsDistinct users
  covered : (u : Str) → index_of u users ≡ none → messages_of u done ≡ []

abbrev next_users : List Str → Message → List Str
next_users users m =
    if is_deliverable m
    then elim (index_of m.from_user_id users) [
      | none ↦ users ++ m.from_user_id ∷ []
      | some _ ↦ users
    ]
    else users

messages_of-concat :
    (u : Str) (done : List Message) (m : Message)
    → messages_of u (done ++ m ∷ []) ≡ messages_of u done ++ share u m
messages_of-concat u done m =
    keep-append (λ x. is_deliverable x && str_eq x.from_user_id u) done (m ∷ [])

skip-IsGrouped :
    (g : Grouping) (users : List Str) (done : List Message) (m : Message)
    → is_deliverable m ≡ false
    → IsGrouped g users done
    → IsGrouped g users (done ++ m ∷ [])
skip-IsGrouped g users done m skip i =
    let same : (u : Str) → messages_of u done ≡ messages_of u (done ++ m ∷ []) =
      λ u. ground (arith, messages_of-concat u done m, append-nil (messages_of u done)) in
    record {
      groups = i.groups ∙ rw (fun_ext same);
      indexed = i.indexed;
      distinct = i.distinct;
      covered = λ u h. sym (same u) ∙ i.covered u h;
    }

messages_of-other :
    (u : Str) (done : List Message) (m : Message)
    → m.from_user_id ≢ u
    → messages_of u (done ++ m ∷ []) ≡ messages_of u done
messages_of-other u done m h = ground (
  arith,
  messages_of-concat u done m,
  append-nil (messages_of u done),
  str_eq_iff m.from_user_id u,
)

-- The groups with that of a new user behind them.
new_group :
    (m : Message) (done : List Message) (users : List Str)
    → is_deliverable m ≡ true
    → index_of m.from_user_id users ≡ none
    → messages_of m.from_user_id done ≡ []
    → map (λ u. messages_of u (done ++ m ∷ [])) (users ++ m.from_user_id ∷ [])
      ≡ map (λ u. messages_of u done) users ++ (m ∷ []) ∷ []
new_group m done users mine new blank =
    let own : messages_of m.from_user_id (done ++ m ∷ []) ≡ m ∷ [] =
      ground (arith, messages_of-concat m.from_user_id done m, str_eq_self m.from_user_id) in
    map-append (λ u. messages_of u (done ++ m ∷ [])) users (m.from_user_id ∷ [])
    ∙ rw (map-share_absent m done users mine new, own)

group_message-IsGrouped :
    (g : Grouping) (users : List Str) (done : List Message) (m : Message)
    → IsGrouped g users done
    → IsGrouped (group_message g m) (next_users users m) (done ++ m ∷ [])
unfolding group_message
group_message-IsGrouped g users done m i = elim (Bool-cases (is_deliverable m)) [
  | inr skip ↦ rw (skip, group_message) (skip-IsGrouped g users done m skip i)
  | inl mine ↦ elim (Option-cases (index_of m.from_user_id users)) [
    | inr (k, known) ↦
        rw (mine, i.indexed m.from_user_id, known, group_message)
          (record {
            groups =
                ap (append_at k m) i.groups
                ∙ sym (map-share_present m done users k mine i.distinct known);
            indexed = i.indexed;
            distinct = i.distinct;
            covered = λ u h. messages_of-other u done m (λ e. absurd (cc)) ∙ i.covered u h;
          })
    | inl new ↦
        rw (mine, i.indexed m.from_user_id, new, group_message)
          (record {
            groups =
                append_at-last m g.groups
                ∙ ap (λ l. l ++ (m ∷ []) ∷ []) i.groups
                ∙ sym (new_group m done users mine new (i.covered m.from_user_id new));
            indexed = λ u. ground (
              arith,
              map_get-set m.from_user_id u (length g.groups) g.indexes,
              i.indexed u,
              index_of-append u m.from_user_id users new,
              ap length i.groups,
              length-map (λ v. messages_of v done) users,
            );
            distinct = append-IsDistinct m.from_user_id users i.distinct new;
            covered = λ u h.
                let place = index_of-append u m.from_user_id users new in
                messages_of-other u done m
                  (λ e. absurd (ground (arith, place, h, str_eq_iff m.from_user_id u)))
                ∙ i.covered u (ground (arith, place, h));
          })
  ]
]

group_messages-IsGrouped :
    (ms : List Message) (g : Grouping) (users : List Str) (done : List Message)
    → IsGrouped g users done
    → IsGrouped (group_messages g ms) (users_onto users ms) (done ++ ms)
unfolding group_messages users_onto
group_messages-IsGrouped [] g users done i = rw append-nil i
group_messages-IsGrouped (m ∷ ms) g users done i = rw (append_assoc done (m ∷ []) ms) at (
    group_messages-IsGrouped ms (group_message g m) (next_users users m) (done ++ m ∷ [])
      (group_message-IsGrouped g users done m i))

no_groups-IsGrouped : IsGrouped no_groups [] []
unfolding map_get index_of
no_groups-IsGrouped = record {
  groups = refl;
  indexed = λ u. refl;
  distinct = tt;
  covered = λ u h. refl;
}

-- The groups of a batch are, for each user in the order of first appearance, that user's finished
-- messages in their order; no user has two groups.
pub groups_by_user :
    (ms : List Message)
    → ((group_messages no_groups ms).groups ≡ map (λ u. messages_of u ms) (users_of ms))
      × IsDistinct (users_of ms)
groups_by_user ms =
    let i = group_messages-IsGrouped ms no_groups [] [] no_groups-IsGrouped in
    (i.groups, i.distinct)

-- The users of a batch are all who have a finished message in it.
pub users_of-covers :
    (ms : List Message) (u : Str) → index_of u (users_of ms) ≡ none → messages_of u ms ≡ []
users_of-covers ms u h =
    (group_messages-IsGrouped ms no_groups [] [] no_groups-IsGrouped).covered u h

-- A user for whom the grouping keeps no index has no finished message in the batch.
group_missing :
    (ms : List Message) (u : Str)
    → map_get u (group_messages no_groups ms).indexes ≡ none
    → messages_of u ms ≡ []
group_missing ms u h =
    let i = group_messages-IsGrouped ms no_groups [] [] no_groups-IsGrouped in
    i.covered u (sym (i.indexed u) ∙ h)
