-- ===== src/Notify/Posts.antt =====
-- notify.go: how often a message is submitted.
use wechat_bot.Base.{
  ℕ, ◌+◌, ◌≤◌, Bool, true, false, Option, [], ◌∷◌, ◌++◌, ◌⊎◌, inl, inr, length, ◌==◌, if◌then◌else◌,
  Str, codes, is_empty, trim_space, ℤ, pos, eqb_ℤ, ◌≡◌, ◌≢◌, sym, ap, subst, ◌∙◌, arith, Bool-cases,
  Option-cases, Sum-cases,
}
use wechat_bot.Cdn.Transfer.{upload_endpoint, upload_to_cdn}
use wechat_bot.Cdn.Transfer.Keeps.{Safe, upload_to_cdn-Keeps}
use wechat_bot.Crypto.Random.{generate_uuid}
use wechat_bot.Errors.{Error, err_empty_message}
use wechat_bot.Http.{HttpRequest, do_post}
use wechat_bot.Io.Keeps.{Keeps, either-kept}
use wechat_bot.Io.{Io, ◌>>=◌, ◌>>◌, explaining, reject_if}
use wechat_bot.Listener.Env.{Sys, on_world}
use wechat_bot.Markdown.{format_for_wechat}
use wechat_bot.Notify.Accepts.{send_markdown_lem}
use wechat_bot.Notify.{
  SendEnv, accept_reply, send_endpoint, text_item_of, image_item_of, file_item_of, video_item_of,
  conversation_token, client_id, send_single_item, send_text, send_markdown, send_upload,
  send_image, send_file, send_video,
}
use wechat_bot.TokenCache.{ConversationContext}
use wechat_bot.Types.{
  Item, UploadedFile, SendResponse, cdn_media_type_image, cdn_media_type_video, cdn_media_type_file,
}

-- `submitted` counts the requests to `sendmessage`: such a request adds at most one, and nothing else
-- changes the count.
pub record CountsSubmissions {W : Type 0} (env : SendEnv W) (submitted : W → ℕ) : Type 0 where
  pub read_keeps : (n : ℕ) (w : W) → submitted (env.media.read_full n w).1 ≡ submitted w
  pub ctx_keeps : (w : W) → submitted (env.media.cdn.ctx_err w).1 ≡ submitted w
  pub wait_keeps : (d : ℕ) (w : W) → submitted (env.media.cdn.wait d w).1 ≡ submitted w
  pub media_keeps :
      (r : HttpRequest) (w : W) → submitted (env.media.cdn.client.send r w).1 ≡ submitted w
  pub send_counts :
      (r : HttpRequest) (w : W) → submitted (env.media.api.send r w).1 ≤ submitted w + 1
  pub others_keep :
      (r : HttpRequest) (w : W)
      → r.url ≢ env.media.account.base_url ++ send_endpoint
      → submitted (env.media.api.send r w).1 ≡ submitted w

append_cancel : (b x y : Str) → b ++ x ≡ b ++ y → x ≡ y
append_cancel [] x y e = e
append_cancel (c ∷ b) x y e = append_cancel b x y (ground arith)

endpoints_differ : (base : Str) → base ++ upload_endpoint ≢ base ++ send_endpoint
endpoints_differ base e =
    let same = append_cancel base upload_endpoint send_endpoint e in absurd (ground arith)

module _ {W : Type 0} (env : SendEnv W) (submitted : W → ℕ)
    (counts : CountsSubmissions env submitted) (ctx : Option ConversationContext) where
  -- Up to `n` submissions.
  abbrev AtMost : ℕ → W → Type 0
  AtMost n w = submitted w ≤ n

  safe : (n : ℕ) → Safe env.media (AtMost n)
  safe n = record {
    read = λ k w h. omega (arith, counts.read_keeps k w, h);
    ctx = λ w h. omega (arith, counts.ctx_keeps w, h);
    wait = λ d w h. omega (arith, counts.wait_keeps d w, h);
    api = λ r w e h.
        let other =
          counts.others_keep r w
            (λ same. endpoints_differ env.media.account.base_url (sym e ∙ same)) in
        omega (arith, other, h);
    media = λ r w passes h. omega (arith, counts.media_keeps r w, h);
  }

  uuid_keeps : (w : W) → submitted (generate_uuid env.media.read_full w).1 ≡ submitted w
  uuid_keeps w = unfold generate_uuid in counts.read_keeps 16 w

  do_post_once :
      {A : Type 0} (path : Str) (body : Error ⊎ Str) (decode : Str → Error ⊎ A) (w : W)
      → submitted (do_post env.media.api env.media.account path body decode w).1 ≤ submitted w + 1
  unfolding do_post
  do_post_once path (inl e) decode w = omega arith
  do_post_once path (inr encoded) decode w =
      elim (Option-cases (env.media.api.request_error (env.media.account.base_url ++ path))) [
        | inr (e, refused) ↦ rw (refused, do_post) (omega arith)
        | inl made ↦
            rw (made, do_post)
              (either-kept (AtMost (submitted w + 1)) _ _ _ _ (counts.send_counts _ w))
      ]

  accept_reply_same :
      (endpoint : Str) (resp : SendResponse) (s : Sys W) → (accept_reply endpoint resp s).1 ≡ s
  accept_reply_same endpoint resp s = elim (Bool-cases (eqb_ℤ resp.ret (pos 0))) [
    | inl zero_ret ↦ rw (zero_ret, accept_reply, reject_if)
    | inr other ↦ rw (other, accept_reply, reject_if)
  ]

  posting :
      {A : Type 0} (why path : Str) (body : Error ⊎ Str) (decode : Str → Error ⊎ A)
      (f : A → Io (Sys W) (Unit {0})) (n : ℕ) (s : Sys W)
      → ((a : A) (s1 : Sys W) → (f a s1).1 ≡ s1)
      → AtMost n s.world
      → AtMost
          (n + 1)
          ((explaining why (on_world (do_post env.media.api env.media.account path body decode))
              >>= f)
            s).1.world
  posting why path body decode f n s same h =
      let once = do_post_once path body decode s.world in
      let answer = do_post env.media.api env.media.account path body decode s.world in
      elim (Sum-cases answer.0) [
        | inl (e, failed) ↦ rw (failed, ◌>>=◌) (omega (arith, once, h))
        | inr (a, done) ↦
            let s1 : Sys W = record s { world = answer.1 } in
            let kept = ap (λ x. submitted x.world) (same a s1) in
            rw (done, ◌>>=◌) (omega (arith, once, h, kept))
      ]

  single_once :
      (to_user_id : Str) (item : Item) (n : ℕ) (s : Sys W)
      → AtMost n s.world
      → AtMost (n + 1) (send_single_item env ctx to_user_id item s).1.world
  unfolding send_single_item conversation_token client_id
  single_once to_user_id item n s h =
      let s1 = (client_id env ctx (conversation_token env ctx to_user_id s).1).1 in
      let h1 : AtMost n s1.world = omega (arith, uuid_keeps s.world, h) in
      posting (codes "sendmessage") send_endpoint _ env.decode_send (accept_reply send_endpoint) n
        s1 (accept_reply_same send_endpoint) h1

  rejecting :
      (b : Bool) (e : Error) (k : Io (Sys W) (Unit {0})) (n : ℕ) (s : Sys W)
      → AtMost n s.world
      → AtMost (n + 1) (k s).1.world
      → AtMost (n + 1) ((reject_if b e >> k) s).1.world
  rejecting true e k n s h later = omega (arith, h)
  rejecting false e k n s h later = later

  text_once :
      (to_user_id text : Str) (s : Sys W)
      → submitted (send_text env ctx to_user_id text s).1.world ≤ submitted s.world + 1
  unfolding send_text
  text_once to_user_id text s =
      rejecting (is_empty (trim_space text)) err_empty_message
        (send_single_item env ctx to_user_id (text_item_of text)) (submitted s.world) s
        (omega arith)
        (single_once to_user_id (text_item_of text) (submitted s.world) s (omega arith))

  after_upload :
      {A : Type 0} (why : Str) (op : Io W A) (f : A → Io (Sys W) (Unit {0})) (n : ℕ) (s : Sys W)
      → Keeps (AtMost n) op
      → ((a : A) (s1 : Sys W) → AtMost n s1.world → AtMost (n + 1) (f a s1).1.world)
      → AtMost n s.world
      → AtMost (n + 1) ((explaining why (on_world op) >>= f) s).1.world
  after_upload why op f n s kept later h =
      let h1 = kept.run s.world h in
      elim (Sum-cases (op s.world).0) [
        | inl (e, failed) ↦ rw (failed, ◌>>=◌) (omega (arith, h1))
        | inr (a, done) ↦ rw (done, ◌>>=◌) (later a (record s { world = (op s.world).1 }) h1)
      ]

  -- An upload does not submit, and the message that refers to it is submitted at most once.
  upload_once :
      (why : Str) (media_type : ℤ) (item_of : UploadedFile → Item) (to_user_id content : Str)
      (s : Sys W)
      → submitted (send_upload env ctx why media_type item_of to_user_id content s).1.world
        ≤ submitted s.world + 1
  unfolding send_upload
  upload_once why media_type item_of to_user_id content s =
      let n = submitted s.world in
      after_upload why (upload_to_cdn env.media to_user_id content media_type)
        (λ uploaded. send_single_item env ctx to_user_id (item_of uploaded)) n s
        (upload_to_cdn-Keeps env.media (AtMost n) (safe n) to_user_id content media_type)
        (λ uploaded. single_once to_user_id (item_of uploaded) n) (omega arith)

  -- No send operation submits more than one message, whatever the server answers and however often an
  -- upload is tried again.
  pub submits_once :
      (to_user_id content filename : Str) (s : Sys W)
      → (submitted (send_text env ctx to_user_id content s).1.world ≤ submitted s.world + 1)
        × (submitted (send_markdown env ctx to_user_id content s).1.world ≤ submitted s.world + 1)
        × (submitted (send_image env ctx to_user_id content s).1.world ≤ submitted s.world + 1)
        × (submitted (send_file env ctx to_user_id filename content s).1.world
            ≤ submitted s.world + 1)
        × (submitted (send_video env ctx to_user_id content s).1.world ≤ submitted s.world + 1)
  unfolding send_image send_file send_video
  submits_once to_user_id content filename s =
      let n = submitted s.world in
      let encode = env.media.base64_encode in
      let name = if is_empty filename then codes "file" else filename in
      let checked = λ (why : Str) (type : ℤ) (item : UploadedFile → Item).
        rejecting (length content == 0) err_empty_message
          (send_upload env ctx why type item to_user_id content) n s (omega arith)
          (upload_once why type item to_user_id content s) in
      (
        text_once to_user_id content s,
        subst (λ r. submitted r.1.world ≤ n + 1)
            (sym (send_markdown_lem env ctx to_user_id content s))
            (text_once to_user_id (format_for_wechat content) s),
        checked (codes "upload image") cdn_media_type_image (image_item_of encode),
        upload_once (codes "upload file") cdn_media_type_file (file_item_of encode name) to_user_id
            content s,
        checked (codes "upload video") cdn_media_type_video (video_item_of encode),
      )
