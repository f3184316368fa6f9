-- ===== src/Listener/Batch/Workers.antt =====
-- listener.go: the end of the worker pool.
use wechat_bot.Base.{
  ℕ, zero, suc, ◌+◌, ◌%◌, ◌≤◌, ◌<◌, min, true, ◌&&◌, Option, none, some, List, [], ◌∷◌, ◌++◌, inl,
  ◌⊎◌, inr, length, ◌==◌, ◌≡◌, ◌≢◌, refl, ap, ◌∙◌, arith, length-replicate, Option-cases,
  Bool-cases, List-cases,
}
use wechat_bot.Errors.{Error}
use wechat_bot.Listener.Batch.{
  Pool, split_at, batch_ctx_err, cancel, worker_move, worker_turn, sender_waits, sender_move,
  batch_cause, pool_move, run_pool, work_left, pool_measure, start_pool,
}
use wechat_bot.Listener.Dispatch.{dispatch_inbound}
use wechat_bot.Listener.Env.{Sys, Handler, Env, on_world}
use wechat_bot.Types.{Message}

work_left-append :
    (xs ys : List (List Message)) → work_left (xs ++ ys) ≡ work_left xs + work_left ys
unfolding work_left
work_left-append [] ys = omega arith
work_left-append (g ∷ xs) ys = omega (arith, work_left-append xs ys)

pub split_at-append :
    {A : Type 0} (i : ℕ) (l : List A) (before : List A) (x : A) (after : List A)
    → split_at i l ≡ some (before, x, after)
    → l ≡ before ++ x ∷ after
unfolding split_at
split_at-append i [] before x after e = absurd (cc)
split_at-append zero (y ∷ l) before x after e =
    let b : [] ≡ before = ground arith in
    let h : y ≡ x = ground arith in let t : l ≡ after = ground arith in rw (← b, ← h, ← t)
split_at-append (suc i) (y ∷ l) before x after e = elim (Option-cases (split_at i l)) [
  | inl nobody ↦ absurd (ground arith)
  | inr ((front, z, rest), found) ↦
      let b : y ∷ front ≡ before = ground arith in
      let h : z ≡ x = ground arith in
      let t : rest ≡ after = ground arith in
      rw (← b, ← h, ← t) (ap (◌∷◌ y) (split_at-append i l front z rest found))
]

split_at-some :
    {A : Type 0} (i : ℕ) (l : List A)
    → i < length l
    → (parts : List A × A × List A) × (split_at i l ≡ some parts)
unfolding split_at
split_at-some i [] h = absurd (omega arith)
split_at-some zero (y ∷ l) h = (([], y, l), refl)
split_at-some (suc i) (y ∷ l) h =
    let (parts, e) = split_at-some i l (omega arith) in ((y ∷ parts.0, parts.1, parts.2), rw e)

-- A pool whose sender has groups left has a worker left, unless it was cancelled.
abbrev pub IsServed : Pool → Type 0
IsServed p = p.cause ≡ none → p.live ≡ [] → p.pending ≡ []

module _ {W : Type 0} (env : Env W) (handler : Handler W) where
  pub cancel-some :
      (cause : Option Error) (e : Error) (s : Sys W)
      → (first : Error) × ((cancel env handler cause e s).0 ≡ some first)
  unfolding cancel
  cancel-some (some first) e s = (first, refl)
  cancel-some none e s = elim (Option-cases (on_world env.ctx_err s).0) [
    | inl go ↦ (e, rw (go, cancel))
    | inr (first, above) ↦ (first, rw (above, cancel))
  ]

  not-nil :
      (xs : List (List Message)) (g : List Message) (ys : List (List Message)) → xs ++ g ∷ ys ≢ []
  not-nil [] g ys h = cc
  not-nil (x ∷ xs) g ys h = cc

  -- Less is to be done than `n`, and the pool is served.
  record Progress (n : ℕ) (p' : Pool) : Type 0 where
    less : pool_measure p' < n
    served : IsServed p'

  sender-Progress :
      (p : Pool) (first : Error)
      → sender_waits p ≡ true
      → Progress (pool_measure p) (record p { pending = []; cause = some first })
  unfolding sender_waits pool_measure work_left
  sender-Progress p first h = elim (List-cases p.pending) [
    | inl closed ↦ absurd (ground arith)
    | inr (g, gs, offered) ↦ record {
      less = omega (arith, ap work_left offered, ap length offered);
      served = λ _ _. refl;
    }
  ]

  worker_move-Progress :
      (n : ℕ) (p : Pool) (before : List (List Message)) (work : List Message)
      (after : List (List Message)) (s : Sys W)
      → work_left p.pending + length p.pending + work_left p.live ≡ n
      → p.live ≡ before ++ work ∷ after
      → Progress n (worker_move env handler p before work after s).0
  unfolding worker_move pool_measure work_left
  worker_move-Progress n p before [] after s h e =
      let total = ap work_left e ∙ work_left-append before ([] ∷ after) in
      elim (List-cases p.pending) [
        | inl closed ↦
            rw (closed, worker_move)
              (record {
                less = omega (arith, total, work_left-append before after, h);
                served = λ _ _. closed;
              })
        | inr (g, gs, offered) ↦
            let before_that = ap work_left offered in
            let groups = ap length offered in
            rw (offered, worker_move)
              (record {
                less =
                    omega
                      (arith, total, work_left-append before (g ∷ after), h, before_that, groups);
                served = λ _ gone. absurd (not-nil before g after gone);
              })
      ]
  worker_move-Progress n p before (m ∷ rest) after s h e =
      let total = ap work_left e ∙ work_left-append before ((m ∷ rest) ∷ after) in
      let r = dispatch_inbound env handler (batch_ctx_err env handler p.cause) m s in
      elim (Option-cases r.0) [
        | inr (x, failed) ↦
            let (first, set) = cancel-some p.cause x r.1 in
            rw (failed, worker_move)
              (record {
                less = omega (arith, total, work_left-append before after, h);
                served = λ clear _. absurd (ground (arith, set));
              })
        | inl done ↦
            rw (done, worker_move)
              (record {
                less = omega (arith, total, work_left-append before (rest ∷ after), h);
                served = λ _ gone. absurd (not-nil before rest after gone);
              })
      ]

  worker_turn-Progress :
      (choice : ℕ) (p : Pool) (w : List Message) (ws : List (List Message)) (s : Sys W)
      → p.live ≡ w ∷ ws
      → Progress (pool_measure p) (worker_turn env handler choice p s).0
  unfolding worker_turn
  worker_turn-Progress choice p w ws s busy =
      let bound : choice % length p.live < length p.live =
        let some_left = ap length busy in grind arith in
      let (parts, found) = split_at-some (choice % length p.live) p.live bound in
      let measured : work_left p.pending + length p.pending + work_left p.live ≡ pool_measure p =
        unfold pool_measure in refl in
      rw (found, worker_turn)
        (worker_move-Progress (pool_measure p) p parts.0 parts.1 parts.2 s measured
          (split_at-append (choice % length p.live) p.live parts.0 parts.1 parts.2 found))

  pool_move-Progress :
      (choice : ℕ) (p : Pool) (w : List Message) (ws : List (List Message)) (s : Sys W)
      → p.live ≡ w ∷ ws
      → Progress (pool_measure p) (pool_move env handler choice p s).0
  unfolding pool_move sender_move
  pool_move-Progress choice p w ws s busy = elim (Bool-cases (sender_waits p && choice == 0)) [
    | inr other ↦ rw (other, pool_move) (worker_turn-Progress choice p w ws s busy)
    | inl first ↦
        let checked = batch_cause env handler p s in
        elim (Option-cases checked.0) [
          | inr (e, done) ↦
              rw (first, done, pool_move, sender_move) (sender-Progress p e (ground arith))
          | inl go ↦
              rw (first, go, pool_move, sender_move)
                (worker_turn-Progress choice p w ws checked.1 busy)
        ]
  ]

  -- With as much fuel as the measure of the pool, a run ends with no worker left. If it was not
  -- cancelled, every group was handed over.
  pub run_pool-ends :
      (fuel : ℕ) (p : Pool) (s : Sys W)
      → pool_measure p ≤ fuel
      → IsServed p
      → ((run_pool env handler fuel p s).0.live ≡ []) × IsServed (run_pool env handler fuel p s).0
  unfolding run_pool
  run_pool-ends zero p s h served = elim (List-cases p.live) [
    | inl nobody ↦ (nobody, served)
    | inr (w, ws, busy) ↦
        absurd (unfold pool_measure work_left in omega (arith, ap work_left busy, h))
  ]
  run_pool-ends (suc fuel) p s h served = elim (List-cases p.live) [
    | inl nobody ↦ rw (nobody, run_pool) (nobody, served)
    | inr (w, ws, busy) ↦
        let choice = (on_world env.schedule s).0 in
        let s1 = (on_world env.schedule s).1 in
        let moved = pool_move env handler choice p s1 in
        let g = pool_move-Progress choice p w ws s1 busy in
        rw (busy, run_pool) (run_pool-ends fuel moved.0 moved.1 (omega (arith, g.less, h)) g.served)
  ]

pub start_pool-IsServed :
    (concurrency : ℕ) (groups : List (List Message))
    → 0 < concurrency
    → IsServed (start_pool concurrency groups)
unfolding start_pool
start_pool-IsServed concurrency [] h clear gone = refl
start_pool-IsServed concurrency (g ∷ gs) h clear gone = absurd (
    omega (
      arith,
      ap length gone,
      length-replicate {A = List Message} (min concurrency (suc (length gs))) [],
    ))

-- The pool of a batch that runs with as much fuel as `processBatch` gives it.
abbrev pub batch_run : {W : Type 0} → Env W → Handler W → ℕ → List (List Message) → Sys W → Pool
batch_run env handler concurrency groups s =
    let pool = start_pool concurrency groups in (run_pool env handler (pool_measure pool) pool s).0

-- With a concurrency of at least one the pool of a batch ends under every schedule of its moves, a
-- cancellation included: no worker is left, and no group is left at the sender unless the batch was
-- cancelled.
pub batch_ends :
    {W : Type 0} (env : Env W) (handler : Handler W) (concurrency : ℕ)
    (groups : List (List Message)) (s : Sys W)
    → 0 < concurrency
    → ((batch_run env handler concurrency groups s).live ≡ [])
      × (((batch_run env handler concurrency groups s).pending ≡ [])
          ⊎ ((e : Error) × ((batch_run env handler concurrency groups s).cause ≡ some e)))
batch_ends env handler concurrency groups s h =
    let pool = start_pool concurrency groups in
    let (ended, served) =
      run_pool-ends env handler (pool_measure pool) pool s (omega arith)
        (start_pool-IsServed concurrency groups h) in
    (
      ended,
      elim (Option-cases (batch_run env handler concurrency groups s).cause) [
        | inl clear ↦ inl (served clear ended)
        | inr (e, cancelled) ↦ inr (e, cancelled)
      ],
    )
