-- ===== src/Example/Settled.antt =====
-- examples/basic/main.go: what has become of a message for which the handler returns nil.
use wechat_bot.Base.{
  ℕ, ◌++◌, true, Option, none, [], ◌∷◌, ◌⊎◌, inl, inr, Str, ◌≡◌, ap, ◌∙◌, arith, Bool-cases,
  Option-cases, Sum-cases,
}
use wechat_bot.Errors.{Error}
use wechat_bot.Example.Handler.{Bot, give_up, sort_failure, handle}
use wechat_bot.Example.Record.{
  Ledger, permanent, or_close, last, append_entry, letter, record_message,
}
use wechat_bot.Example.Reply.{reply}
use wechat_bot.Io.{Io, ◌>>=◌, ◌>>◌}
use wechat_bot.Listener.Env.{Action, Sys}
use wechat_bot.TokenCache.{ConversationContext}
use wechat_bot.Types.{InboundMessage}

-- The file system, by what a file holds on disk and what was written to an open file and not synced
-- yet: an append opens with nothing unsynced, a write adds its bytes, a sync brings them to disk, and
-- nothing else changes what the file holds on disk.
pub record LedgerLaws {W : Type 0} (ledger : Ledger W) (path : Str) (on_disk : W → Str)
    (unsynced : W → Str → Str) : Type 0 where
  pub now_keeps : (w : W) → on_disk (ledger.now w).1 ≡ on_disk w
  pub mkdir_keeps :
      (dir : Str) (mode : ℕ) (w : W) → on_disk (ledger.files.mkdir_all dir mode w).1 ≡ on_disk w
  pub open_keeps : (mode : ℕ) (w : W) → on_disk (ledger.open_append path mode w).1 ≡ on_disk w
  pub open_fresh :
      (mode : ℕ) (file : Str) (w : W)
      → (ledger.open_append path mode w).0 ≡ inr file
      → unsynced (ledger.open_append path mode w).1 file ≡ []
  pub write_keeps :
      (file bytes : Str) (w : W) → on_disk (ledger.files.write file bytes w).1 ≡ on_disk w
  pub write_adds :
      (file bytes : Str) (w : W)
      → (ledger.files.write file bytes w).0 ≡ none
      → unsynced (ledger.files.write file bytes w).1 file ≡ unsynced w file ++ bytes
  pub sync_stores :
      (file : Str) (w : W)
      → (ledger.files.sync file w).0 ≡ none
      → on_disk (ledger.files.sync file w).1 ≡ on_disk w ++ unsynced w file
  pub close_keeps : (file : Str) (w : W) → on_disk (ledger.files.close file w).1 ≡ on_disk w

-- A line with the message is on disk behind what was there.
pub record Recorded {W : Type 0} (ledger : Ledger W) (on_disk : W → Str) (m : InboundMessage)
    (cause : Error) (before after : W) : Type 0 where
  pub time : Str
  pub entry : Str
  pub encoded : ledger.encode (letter ledger time m cause) ≡ inr entry
  pub stored : on_disk after ≡ on_disk before ++ (entry ++ b'\n' ∷ [])

module _ {W : Type 0} (ledger : Ledger W) (path : Str) (on_disk : W → Str)
    (unsynced : W → Str → Str) (laws : LedgerLaws ledger path on_disk unsynced) where
  or_close-none :
      (file : Str) (op : Action W (Option Error)) (w : W)
      → (op w).0 ≡ none
      → or_close ledger file op w ≡ (inr tt, (op w).1)
  unfolding or_close
  or_close-none file op w h = rw (h, or_close)

  or_close-then :
      (file : Str) (op : Action W (Option Error)) (k : Io W (Unit {0})) (w : W)
      → (op w).0 ≡ none
      → (or_close ledger file op >> k) w ≡ k (op w).1
  or_close-then file op k w h =
      ap
        (λ r. elim r.0 as (λ x. (Error ⊎ Unit {0}) × W) [ inl e ↦ (inl e, r.1) | inr done ↦ k r.1 ])
        (or_close-none file op w h)

  append_entry-stores :
      (file entry : Str) (w : W)
      → unsynced w file ≡ []
      → (append_entry ledger file entry w).0 ≡ inr tt
      → on_disk (append_entry ledger file entry w).1 ≡ on_disk w ++ (entry ++ b'\n' ∷ [])
  unfolding append_entry or_close
  append_entry-stores file entry w blank h =
      let line = entry ++ b'\n' ∷ [] in
      let w1 = (ledger.files.write file line w).1 in
      let w2 = (ledger.files.sync file w1).1 in
      elim (Option-cases (ledger.files.write file line w).0) [
        | inr (e, failed) ↦ absurd (ground arith)
        | inl written ↦ elim (Option-cases (ledger.files.sync file w1).0) [
          | inr (e, failed) ↦ absurd (ground arith)
          | inl synced ↦
              let held : unsynced w1 file ≡ line =
                laws.write_adds file line w written ∙ ap (λ l. l ++ line) blank in
              let close = last ledger (ledger.files.close file) in
              let ran : append_entry ledger file entry w ≡ close w2 =
                or_close-then file (ledger.files.write file line)
                  (or_close ledger file (ledger.files.sync file) >> close) w written
                ∙ or_close-then file (ledger.files.sync file) close w1 synced in
              ap (λ r. on_disk r.1) ran
              ∙ (laws.close_keeps file w2
                  ∙ laws.sync_stores file w1 synced
                  ∙ ap (λ l. on_disk w1 ++ l) held
                  ∙ ap (λ l. l ++ line) (laws.write_keeps file line w))
        ]
      ]

  pub record_message-Recorded :
      (m : InboundMessage) (cause : Error) (w : W)
      → (record_message ledger path m cause w).0 ≡ inr tt
      → Recorded ledger on_disk m cause w (record_message ledger path m cause w).1
  unfolding record_message
  record_message-Recorded m cause w h =
      let time = (ledger.now w).0 in
      let w1 = (ledger.now w).1 in
      let made = ledger.files.mkdir_all (ledger.files.dir path) 448 w1 in
      let opened = ledger.open_append path 384 made.1 in
      elim (Sum-cases (ledger.encode (letter ledger time m cause))) [
        | inl (e, bad) ↦ absurd (ground arith)
        | inr (entry, good) ↦ elim (Option-cases made.0) [
          | inr (e, failed) ↦ absurd (ground arith)
          | inl there ↦ elim (Sum-cases opened.0) [
            | inl (e, failed) ↦ absurd (ground arith)
            | inr (file, ready) ↦
                let appended : (append_entry ledger file entry opened.1).0 ≡ inr tt =
                  ground arith in
                record {
                  time = time;
                  entry = entry;
                  encoded = good;
                  stored =
                      rw (good, there, ready, record_message, ◌>>=◌)
                        (append_entry-stores file entry opened.1
                            (laws.open_fresh 384 file made.1 ready) appended
                          ∙ ap (λ l. l ++ (entry ++ b'\n' ∷ []))
                              (laws.open_keeps 384 made.1
                                ∙ laws.mkdir_keeps (ledger.files.dir path) 448 w1
                                ∙ laws.now_keeps w));
                }
          ]
        ]
      ]

module _ {W : Type 0} (bot : Bot W) (on_disk : W → Str) (unsynced : W → Str → Str)
    (laws : LedgerLaws bot.ledger bot.dead_letter on_disk unsynced)
    (ctx_keeps : (w : W) → on_disk (bot.ctx_err w).1 ≡ on_disk w) where
  -- If the example's handler returns nil, then the message was answered, or the answer failed with
  -- an error that no retry mends and a line that records the message is on disk behind what the
  -- ledger's file held before. A sync brings to disk what was written, and the context's check does
  -- not touch the file.
  pub handle-Settled :
      (ctx : Option ConversationContext) (m : InboundMessage) (s : Sys W)
      → (handle bot ctx m s).0 ≡ none
      → ((reply bot.send ctx m s).0 ≡ inr tt)
        ⊎ ((e : Error) × ((reply bot.send ctx m s).0 ≡ inl e)
            × (permanent e ≡ true)
            × Recorded bot.ledger on_disk m e
                (reply bot.send ctx m s).1.world
                (handle bot ctx m s).1.world)
  unfolding handle sort_failure give_up
  handle-Settled ctx m s h =
      let replied = reply bot.send ctx m s in
      let w1 = replied.1.world in
      let w2 = (bot.ctx_err w1).1 in
      elim (Sum-cases replied.0) [
        | inr (done, answered) ↦ inl answered
        | inl (e, failed) ↦ elim (Option-cases (bot.ctx_err w1).0) [
          | inr (e', cancelled) ↦ absurd (ground arith)
          | inl live ↦ elim (Bool-cases (permanent e)) [
            | inr transient ↦ absurd (ground arith)
            | inl hopeless ↦ elim (Sum-cases (record_message bot.ledger bot.dead_letter m e w2).0) [
              | inl (e', unrecorded) ↦ absurd (ground arith)
              | inr (done, recorded) ↦
                  let r =
                    record_message-Recorded bot.ledger bot.dead_letter on_disk unsynced laws m e w2
                      recorded in
                  inr (
                    e,
                    failed,
                    hopeless,
                    rw (failed, live, hopeless, recorded, handle, sort_failure, give_up)
                        (record {
                          time = r.time;
                          entry = r.entry;
                          encoded = r.encoded;
                          stored = r.stored ∙ ap (λ l. l ++ (r.entry ++ b'\n' ∷ [])) (ctx_keeps w1);
                        }),
                  )
            ]
          ]
        ]
      ]
