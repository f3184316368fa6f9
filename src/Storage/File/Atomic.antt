-- ===== src/Storage/File/Atomic.antt =====
-- storage.go: the file that `writePrivateFile` writes, on success and on failure.
use wechat_bot.Base.{
  ℕ, Option, none, some, [], ◌⊎◌, inl, inr, Str, codes, ◌≡◌, ◌≢◌, refl, ◌∙◌, Option-cases,
  Sum-cases,
}
use wechat_bot.Errors.{Error}
use wechat_bot.Listener.Env.{Action}
use wechat_bot.Storage.File.{
  Files, close_after, publish, fill_temp, remove_temp, write_private_file,
}

-- What the documentation of `os` says of the file at `path` and of temporary files: `content` is
-- what a file holds. A created file is new and empty, only a write, a renaming and a removal change
-- what a file holds, and a renaming that succeeds moves the file; of one that fails nothing is said.
pub record FilesLaws {W : Type 0} (fs : Files W) (ctx_err : Action W (Option Error)) (path : Str)
    (content : W → Str → Option Str) : Type 0 where
  pub ctx_keeps : (w : W) (p : Str) → content (ctx_err w).1 p ≡ content w p
  pub mkdir_keeps :
      (d : Str) (mode : ℕ) (w : W) (p : Str) → content (fs.mkdir_all d mode w).1 p ≡ content w p
  pub create_keeps :
      (d pattern : Str) (w : W) → content (fs.create_temp d pattern w).1 path ≡ content w path
  pub create_other :
      (d pattern tmp : Str) (w : W) → (fs.create_temp d pattern w).0 ≡ inr tmp → tmp ≢ path
  pub create_empty :
      (d pattern tmp : Str) (w : W)
      → (fs.create_temp d pattern w).0 ≡ inr tmp
      → content (fs.create_temp d pattern w).1 tmp ≡ some []
  pub chmod_keeps :
      (f : Str) (mode : ℕ) (w : W) (p : Str) → content (fs.chmod f mode w).1 p ≡ content w p
  pub sync_keeps : (f : Str) (w : W) (p : Str) → content (fs.sync f w).1 p ≡ content w p
  pub close_keeps : (f : Str) (w : W) (p : Str) → content (fs.close f w).1 p ≡ content w p
  pub write_keeps :
      (f bytes : Str) (w : W) → f ≢ path → content (fs.write f bytes w).1 path ≡ content w path
  pub write_sets :
      (f bytes : Str) (w : W)
      → content w f ≡ some []
      → (fs.write f bytes w).0 ≡ none
      → content (fs.write f bytes w).1 f ≡ some bytes
  pub rename_moves :
      (f : Str) (w : W)
      → (fs.rename f path w).0 ≡ none
      → content (fs.rename f path w).1 path ≡ content w f
  pub remove_keeps : (f : Str) (w : W) → f ≢ path → content (fs.remove f w).1 path ≡ content w path

module _ {W : Type 0} (fs : Files W) (path : Str) (content : W → Str → Option Str) where
  -- A renaming onto the file of a temporary file that holds `bytes`, while the file holds `old`, has
  -- failed with this error, and the file holds what the renaming has left.
  pub record RenameFailed (old : Option Str) (bytes : Str) (e : Error) (w : W) : Type 0 where
    pub temp : Str
    pub before : W
    pub held : content before path ≡ old
    pub filled : content before temp ≡ some bytes
    pub failed : (fs.rename temp path before).0 ≡ some e
    pub left : content w path ≡ content (fs.rename temp path before).1 path

module _ {W : Type 0} (fs : Files W) (ctx_err : Action W (Option Error)) (path : Str)
    (content : W → Str → Option Str) (laws : FilesLaws fs ctx_err path content) where
  -- The run ended with no error and the file holds `bytes`, or with an error and it holds `old`,
  -- unless the error is that of the renaming.
  abbrev Replaces : Option Str → Str → Option Error × W → Type 0
  Replaces old bytes r =
      ((r.0 ≡ none) × (content r.1 path ≡ some bytes))
      ⊎ ((e : Error) × (r.0 ≡ some e)
          × ((content r.1 path ≡ old) ⊎ RenameFailed fs path content old bytes e r.1))

  close_after-Replaces :
      (old : Option Str) (bytes tmp : Str) (e : Error) (w : W)
      → content w path ≡ old
      → Replaces old bytes (close_after fs ctx_err tmp e w)
  unfolding close_after
  close_after-Replaces old bytes tmp e w h = inr (e, refl, inl (laws.close_keeps tmp w path ∙ h))

  publish-Replaces :
      (old : Option Str) (bytes tmp : Str) (w : W)
      → content w tmp ≡ some bytes
      → content w path ≡ old
      → Replaces old bytes (publish fs ctx_err tmp path w)
  unfolding publish
  publish-Replaces old bytes tmp w filled h =
      let w1 = (fs.sync tmp w).1 in
      let w2 = (fs.close tmp w1).1 in
      let w3 = (ctx_err w2).1 in
      let kept : (p : Str) → content w3 p ≡ content w p =
        λ p. laws.ctx_keeps w2 p ∙ laws.close_keeps tmp w1 p ∙ laws.sync_keeps tmp w p in
      elim (Option-cases (fs.sync tmp w).0) [
        | inr (e, unsynced) ↦
            rw (unsynced, publish)
              (close_after-Replaces old bytes tmp e w1 (laws.sync_keeps tmp w path ∙ h))
        | inl synced ↦ elim (Option-cases (fs.close tmp w1).0) [
          | inr (e, unclosed) ↦
              rw (synced, unclosed, publish)
                (inr (e, refl, inl (laws.close_keeps tmp w1 path ∙ laws.sync_keeps tmp w path ∙ h)))
          | inl closed ↦ elim (Option-cases (ctx_err w2).0) [
            | inr (e, cancelled) ↦
                rw (synced, closed, cancelled, publish) (inr (e, refl, inl (kept path ∙ h)))
            | inl live ↦ elim (Option-cases (fs.rename tmp path w3).0) [
              | inr (e, failed) ↦
                  rw (synced, closed, live, publish)
                    (inr (
                      e,
                      failed,
                      inr (record {
                        temp = tmp;
                        before = w3;
                        held = kept path ∙ h;
                        filled = kept tmp ∙ filled;
                        failed = failed;
                        left = refl;
                      }),
                    ))
              | inl moved ↦
                  rw (synced, closed, live, publish)
                    (inl (moved, laws.rename_moves tmp w3 moved ∙ kept tmp ∙ filled))
            ]
          ]
        ]
      ]

  fill_temp-Replaces :
      (old : Option Str) (bytes tmp : Str) (w : W)
      → tmp ≢ path
      → content w tmp ≡ some []
      → content w path ≡ old
      → Replaces old bytes (fill_temp fs ctx_err tmp path bytes w)
  unfolding fill_temp
  fill_temp-Replaces old bytes tmp w other blank h =
      let w1 = (fs.chmod tmp 384 w).1 in
      let w2 = (fs.write tmp bytes w1).1 in
      let same = laws.chmod_keeps tmp 384 w path ∙ h in
      let same2 = laws.write_keeps tmp bytes w1 other ∙ same in
      elim (Option-cases (fs.chmod tmp 384 w).0) [
        | inr (e, refused) ↦ rw (refused, fill_temp) (close_after-Replaces old bytes tmp e w1 same)
        | inl allowed ↦ elim (Option-cases (fs.write tmp bytes w1).0) [
          | inr (e, unwritten) ↦
              rw (allowed, unwritten, fill_temp) (close_after-Replaces old bytes tmp e w2 same2)
          | inl written ↦
              rw (allowed, written, fill_temp)
                (publish-Replaces old bytes tmp w2
                  (laws.write_sets tmp bytes w1 (laws.chmod_keeps tmp 384 w tmp ∙ blank) written)
                  same2)
        ]
      ]

  remove_temp-Replaces :
      (old : Option Str) (bytes tmp : Str) (r : Option Error × W)
      → tmp ≢ path
      → Replaces old bytes r
      → Replaces old bytes (remove_temp fs ctx_err tmp r)
  unfolding remove_temp
  remove_temp-Replaces old bytes tmp (result, w) other (inl (done, now)) =
      inl (done, laws.remove_keeps tmp w other ∙ now)
  remove_temp-Replaces old bytes tmp (result, w) other (inr (e, failed, inl now)) =
      inr (e, failed, inl (laws.remove_keeps tmp w other ∙ now))
  remove_temp-Replaces old bytes tmp (result, w) other (inr (e, failed, inr r)) = inr (
    e,
    failed,
    inr (record {
      temp = r.temp;
      before = r.before;
      held = r.held;
      filled = r.filled;
      failed = r.failed;
      left = laws.remove_keeps tmp w other ∙ r.left;
    }),
  )

  -- If `writePrivateFile` returns no error, the file holds exactly the given bytes. If it returns an
  -- error, the file holds what it held before, unless the error is that of `os.Rename`: then the file
  -- had held that, and the temporary file exactly the given bytes, until the renaming, and the file
  -- holds what the failed renaming has left.
  pub write_private_file_atomic :
      (bytes : Str) (w : W)
      → ((write_private_file fs ctx_err path bytes w).0 ≡ none)
          × (content (write_private_file fs ctx_err path bytes w).1 path ≡ some bytes)
        ⊎ ((e : Error) × ((write_private_file fs ctx_err path bytes w).0 ≡ some e)
            × ((content (write_private_file fs ctx_err path bytes w).1 path ≡ content w path)
                ⊎ RenameFailed fs path content
                    (content w path)
                    bytes
                    e
                    (write_private_file fs ctx_err path bytes w).1))
  unfolding write_private_file
  write_private_file_atomic bytes w =
      let w1 = (ctx_err w).1 in
      let w2 = (fs.mkdir_all (fs.dir path) 448 w1).1 in
      let made = fs.create_temp (fs.dir path) (codes ".wechat-*") w2 in
      let same1 = laws.ctx_keeps w path in
      let same2 = laws.mkdir_keeps (fs.dir path) 448 w1 path ∙ same1 in
      let same3 = laws.create_keeps (fs.dir path) (codes ".wechat-*") w2 ∙ same2 in
      elim (Option-cases (ctx_err w).0) [
        | inr (e, cancelled) ↦ rw (cancelled, write_private_file) (inr (e, refl, inl same1))
        | inl live ↦ elim (Option-cases (fs.mkdir_all (fs.dir path) 448 w1).0) [
          | inr (e, unmade) ↦ rw (live, unmade, write_private_file) (inr (e, refl, inl same2))
          | inl there ↦ elim (Sum-cases made.0) [
            | inl (e, refused) ↦
                rw (live, there, refused, write_private_file) (inr (e, refl, inl same3))
            | inr (tmp, created) ↦
                let other = laws.create_other (fs.dir path) (codes ".wechat-*") tmp w2 created in
                rw (live, there, created, write_private_file)
                  (remove_temp-Replaces (content w path) bytes tmp
                    (fill_temp fs ctx_err tmp path bytes made.1) other
                    (fill_temp-Replaces (content w path) bytes tmp made.1 other
                      (laws.create_empty (fs.dir path) (codes ".wechat-*") tmp w2 created) same3))
          ]
        ]
      ]
