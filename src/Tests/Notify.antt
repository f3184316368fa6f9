-- ===== src/Tests/Notify.antt =====
-- notify.go: the theorems on sending at a server that accepts everything and counts the messages.
use wechat_bot.Base.{
  ℕ, ◌+◌, ◌≤◌, ◌≡◌, ◌≢◌, refl, none, some, false, [], ◌++◌, inr, Str, codes, pos, arith, length,
  length-replicate, replicate, if◌then◌else◌, str_eq, str_eq_iff, is_empty, trim_space,
}
use wechat_bot.Cdn.Download.{image_aes_key, open_media}
use wechat_bot.Cdn.Transfer.{
  MediaEnv, media_info, upload_to_cdn, request_upload, upload_encrypted, upload_url, of_crypto,
}
use wechat_bot.Cdn.Transfer.Uploaded.{MediaLaws}
use wechat_bot.Cdn.Transfer.Sharing.{served}
use wechat_bot.Cdn.Upload.{upload_cdn_bytes, upload_from, upload_cdn_bytes_once, param_of}
use wechat_bot.Crypto.Ecb.{aes_ecb_encrypt, map_blocks}
use wechat_bot.Crypto.Hex.{hex_encode, lower_hex}
use wechat_bot.Crypto.Padding.{aes_ecb_padded_size, pkcs7_pad}
use wechat_bot.Crypto.Random.{generate_random_bytes, generate_uuid, mark_version, format_uuid}
use wechat_bot.Http.{HttpRequest, do_post, read_result, read_limited_body}
use wechat_bot.Listener.Env.{Sys}
use wechat_bot.Markdown.{format_for_wechat}
use wechat_bot.Notify.Accepts.{Accepted, send_text-Accepted, send_markdown_lem, send_image-Accepted}
use wechat_bot.Notify.Posts.{CountsSubmissions, submits_once}
use wechat_bot.Notify.{
  SendEnv, send_endpoint, text_item_of, image_of, image_item_of, conversation_token, client_id,
  send_single_item, send_text, send_markdown, send_upload, send_image, send_file, send_video,
}
use wechat_bot.Tests.Client.{net, policy}
use wechat_bot.Tests.Crypto.{same_block, same_block_laws, hi-IsBytes}
use wechat_bot.Tests.Transfer.{sevens-IsBytes}
use wechat_bot.TokenCache.{context_token_for, context_token}
use wechat_bot.Types.{UploadedFile}
use wechat_bot.Url.Policy.{check_string, check, check_host, to_lower}

abbrev base : Str
base = codes "https://h"

-- The world is the number of messages so far.
abbrev media : MediaEnv ℕ
media = record {
  api = record {
    request_error = λ url. none;
    send = λ r w. (
      inr (record {
        status_code = pos 200;
        header = λ name. [];
        content_length = pos 0;
        body = inr [];
      }),
      if str_eq r.url (base ++ send_endpoint) then w + 1 else w,
    );
    url_cause = λ e. none;
  };
  account = record {
    base_url = base;
    bot_token = codes "t";
    wechat_uin = codes "u";
    max_response_bytes = 100;
  };
  cdn = record {
    ctx_err = λ w. (none, w);
    wait = λ d w. (none, w);
    client = record {
      request_error = λ url. none;
      send = λ r w. (
        inr (record {
          status_code = pos 200;
          header = λ name. codes "p";
          content_length = pos 0;
          body = inr [];
        }),
        w,
      );
      url_cause = λ e. none;
    };
  };
  cdn_base_url = base;
  max_media_bytes = 100;
  media_policy = policy;
  net = net;
  read_full = λ n w. ((replicate n 7, none), w);
  aes = same_block;
  md5 = λ content. [];
  query_escape = λ s. s;
  base64_encode = λ s. s;
  base64_decode = λ s. some s;
  detect_content_type = λ content. codes "text/plain";
  encode_upload = λ req. inr [];
  decode_upload = λ body. inr (record {
    ret = pos 0;
    err_msg = [];
    upload_param = [];
    upload_full_url = codes "https://h/x";
  });
}

abbrev env : SendEnv ℕ
env = record {
  media = media;
  ilink_bot_id = codes "b";
  encode_send = λ req. inr [];
  decode_send = λ body. inr (record { ret = pos 0; err_msg = [] });
  encode_config = λ req. inr [];
  decode_config = λ body. inr (record { ret = pos 0; err_msg = []; typing_ticket = [] });
  encode_typing = λ req. inr [];
}

abbrev start : Sys ℕ
start = record {
  tokens = record { ctx_tokens = []; ctx_token_lru = []; next = 0; max_context_tokens = 4 };
  running = false;
  world = 0;
}

laws : MediaLaws media
laws = record {
  aes_laws = same_block_laws;
  accepts = λ key h. refl;
  fills = λ n w h. (length-replicate n 7, sevens-IsBytes n);
  base64_empty = refl;
  base64_inverse = λ s h. refl;
}

at_most_one_more : (r : HttpRequest) (w : ℕ) → (media.api.send r w).1 ≤ w + 1
at_most_one_more r w = ground arith

no_more : (r : HttpRequest) (w : ℕ) → r.url ≢ base ++ send_endpoint → (media.api.send r w).1 ≡ w
no_more r w other = ground (arith, str_eq_iff r.url (base ++ send_endpoint))

counts : CountsSubmissions env (λ w. w)
counts = record {
  read_keeps = λ n w. refl;
  ctx_keeps = λ w. refl;
  wait_keeps = λ d w. refl;
  media_keeps = λ r w. refl;
  send_counts = at_most_one_more;
  others_keep = no_more;
}

submits_once_example :
    ((send_text env none (codes "u") (codes "hi") start).1.world ≤ 0 + 1)
    × ((send_markdown env none (codes "u") (codes "hi") start).1.world ≤ 0 + 1)
    × ((send_image env none (codes "u") (codes "hi") start).1.world ≤ 0 + 1)
    × ((send_file env none (codes "u") (codes "f") (codes "hi") start).1.world ≤ 0 + 1)
    × ((send_video env none (codes "u") (codes "hi") start).1.world ≤ 0 + 1)
submits_once_example =
    submits_once env (λ w. w) counts none (codes "u") (codes "hi") (codes "f") start

send_markdown_lem_example :
    send_markdown env none (codes "u") (codes "**") start
    ≡ send_text env none (codes "u") (format_for_wechat (codes "**")) start
send_markdown_lem_example = send_markdown_lem env none (codes "u") (codes "**") start

text_sent : (send_text env none (codes "u") (codes "hi") start).0 ≡ inr tt
unfolding send_text send_single_item conversation_token client_id do_post read_result
    read_limited_body context_token_for context_token generate_uuid mark_version format_uuid
    hex_encode lower_hex trim_space str_eq
text_sent = refl

send_text-Accepted_example :
    (is_empty (trim_space (codes "hi")) ≡ false)
    × Accepted env none (codes "u") (text_item_of (codes "hi")) start
send_text-Accepted_example = send_text-Accepted env none (codes "u") (codes "hi") start text_sent

image_sent : (send_image env none (codes "u") (codes "hi") start).0 ≡ inr tt
unfolding send_image send_upload send_single_item conversation_token client_id do_post read_result
    read_limited_body context_token_for context_token generate_uuid mark_version format_uuid
    upload_to_cdn request_upload upload_encrypted upload_url of_crypto upload_cdn_bytes upload_from
    upload_cdn_bytes_once param_of aes_ecb_encrypt map_blocks hex_encode lower_hex
    aes_ecb_padded_size pkcs7_pad generate_random_bytes check_string check check_host to_lower
    str_eq trim_space
image_sent = refl

send_image-Accepted_example :
    (codes "hi" ≢ [])
    × (uploaded : UploadedFile) × (s1 : Sys ℕ) × (c : Str) × (key : Str) × (url : Str) × (w' : ℕ)
    × Accepted env none (codes "u") (image_item_of (λ s. s) uploaded) s1
    × (s1.tokens ≡ start.tokens)
    × (check_string media.net media.media_policy url ≡ none)
    × ((upload_cdn_bytes media.cdn media.account.max_response_bytes c url w').0
        ≡ inr uploaded.download_param)
    × (length c ≡ uploaded.cipher_size)
    × (image_aes_key media (image_of (λ s. s) uploaded) (media_info (λ s. s) uploaded) ≡ inr key)
    × (open_media media key (served c) ≡ inr (codes "hi", codes "text/plain"))
send_image-Accepted_example =
    send_image-Accepted env none (codes "u") laws (codes "hi") start hi-IsBytes (omega arith)
      image_sent
