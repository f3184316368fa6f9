-- ===== src/Tests/Transfer.antt =====
-- cdn.go: the theorems on transfers at a server that takes the first upload.
use wechat_bot.Base.{
  ℕ, zero, suc, ◌≡◌, refl, none, some, Option, ◌++◌, [], ◌∷◌, inr, List, Str, codes, pos, All,
  arith, length, length-replicate, replicate, str_eq, trim_space,
}
use wechat_bot.Cdn.Download.{download_and_decrypt_image, image_aes_key, open_media}
use wechat_bot.Cdn.Transfer.{
  MediaEnv, media_info, upload_to_cdn, request_upload, upload_encrypted, upload_url, of_crypto,
}
use wechat_bot.Cdn.Transfer.Uploaded.{MediaLaws}
use wechat_bot.Cdn.Transfer.Sharing.{served, upload_opens}
use wechat_bot.Cdn.Transfer.Trusted.{Logs, Passes, upload_trusted, download_trusted}
use wechat_bot.Cdn.Upload.{upload_cdn_bytes, upload_from, upload_cdn_bytes_once, param_of}
use wechat_bot.Crypto.Ecb.{IsBytes, aes_ecb_encrypt, map_blocks}
use wechat_bot.Crypto.Hex.{hex_encode, lower_hex}
use wechat_bot.Crypto.Padding.{aes_ecb_padded_size, pkcs7_pad}
use wechat_bot.Crypto.Random.{generate_random_bytes}
use wechat_bot.Errors.{Error}
use wechat_bot.Http.{do_post, read_result, read_limited_body}
use wechat_bot.Tests.Client.{home, net, policy}
use wechat_bot.Tests.Crypto.{same_block, same_block_laws, hi-IsBytes}
use wechat_bot.Types.{ImageItem, UploadedFile, cdn_media_type_image}
use wechat_bot.Url.Redirect.{NetHttp, http_of, redirect_guarded_client, IsTrail}
use wechat_bot.Url.Policy.{Url, check_string, check, check_host, to_lower}

-- What a client has contacted that is redirected once, if its check lets that pass.
abbrev follow : Option Error → Str → List Str → List Str
follow none url w = codes "https://r" ∷ url ∷ w
follow (some e) url w = url ∷ w

abbrev go : NetHttp (List Str)
go = record {
  request_error = λ url. none;
  client_do = λ client r w. (
    inr (record {
      status_code = pos 200;
      header = λ name. codes "p";
      content_length = pos 0;
      body = inr [];
    }),
    follow (client.check_redirect home 1) r.url w,
  );
  url_cause = λ e. none;
}

-- The world is the list of the URLs that the media client has contacted.
abbrev env : MediaEnv (List Str)
env = record {
  api = record {
    request_error = λ url. none;
    send = λ r w. (
      inr (record {
        status_code = pos 200;
        header = λ name. [];
        content_length = pos 0;
        body = inr [];
      }),
      w,
    );
    url_cause = λ e. none;
  };
  account = record {
    base_url = codes "https://h";
    bot_token = codes "t";
    wechat_uin = codes "u";
    max_response_bytes = 100;
  };
  cdn = record {
    ctx_err = λ w. (none, w);
    wait = λ d w. (none, w);
    client = http_of go (redirect_guarded_client net policy none);
  };
  cdn_base_url = codes "https://h";
  max_media_bytes = 100;
  media_policy = policy;
  net = net;
  read_full = λ n w. ((replicate n 7, none), w);
  aes = same_block;
  md5 = λ content. [];
  query_escape = λ s. s;
  base64_encode = λ s. s;
  base64_decode = λ s. some s;
  detect_content_type = λ content. codes "text/plain";
  encode_upload = λ req. inr [];
  decode_upload = λ body. inr (record {
    ret = pos 0;
    err_msg = [];
    upload_param = [];
    upload_full_url = codes "https://h/x";
  });
}

pub sevens-IsBytes : (n : ℕ) → IsBytes (replicate n 7)
sevens-IsBytes zero = tt
sevens-IsBytes (suc n) = (omega arith, sevens-IsBytes n)

laws : MediaLaws env
laws = record {
  aes_laws = same_block_laws;
  accepts = λ key h. refl;
  fills = λ n w h. (length-replicate n 7, sevens-IsBytes n);
  base64_empty = refl;
  base64_inverse = λ s h. refl;
}

follow-IsTrail :
    (passes : Url → ℕ → Option Error) (asked : Option Error) (url : Str) (w : List Str)
    → passes home 1 ≡ asked
    → (trail : List Str) × (follow asked url w ≡ trail ++ w) × IsTrail net passes url trail
follow-IsTrail passes none url w h = (codes "https://r" ∷ url ∷ [], refl, ((home, refl, h), refl))
follow-IsTrail passes (some e) url w h = (url ∷ [], refl, refl)

logs : Logs env (λ w. w)
logs = record {
  go = go;
  base = none;
  built = refl;
  follows = record {
    do_follows = λ client r w.
        follow-IsTrail client.check_redirect (client.check_redirect home 1) r.url w refl;
  };
  read_keeps = λ n w. refl;
  api_keeps = λ r w. refl;
  ctx_keeps = λ w. refl;
  wait_keeps = λ d w. refl;
}

upload_trusted_example :
    All
      (Passes env (λ w. w) logs)
      (upload_to_cdn env (codes "u") (codes "hi") cdn_media_type_image []).1
upload_trusted_example =
    upload_trusted env (λ w. w) logs (codes "u") (codes "hi") cdn_media_type_image [] tt

abbrev key : Str
key = replicate 16 7

abbrev uploaded : UploadedFile
uploaded = record {
  download_param = codes "p";
  aes_key_hex = codes "07070707070707070707070707070707";
  file_size = 2;
  cipher_size = 16;
}

abbrev image : ImageItem
image = record {
  aes_key = [];
  url = [];
  media = some (media_info (λ s. s) uploaded);
  mid_size = pos 16;
}

download_trusted_example :
    All (Passes env (λ w. w) logs) (download_and_decrypt_image env (some image) []).1
download_trusted_example = download_trusted env (λ w. w) logs (some image) [] tt

upload_returned :
    (upload_to_cdn env (codes "u") (codes "hi") cdn_media_type_image []).0 ≡ inr uploaded
unfolding upload_to_cdn request_upload upload_encrypted upload_url of_crypto upload_cdn_bytes
    upload_from upload_cdn_bytes_once param_of aes_ecb_encrypt map_blocks hex_encode lower_hex
    aes_ecb_padded_size pkcs7_pad generate_random_bytes do_post read_result read_limited_body
    check_string check check_host to_lower str_eq trim_space
upload_returned = refl

upload_opens_example :
    (c : Str) × (k : Str) × (url : Str) × (w' : List Str) × (check_string net policy url ≡ none)
    × ((upload_cdn_bytes env.cdn 100 c url w').0 ≡ inr (codes "p"))
    × (length c ≡ 16)
    × (image_aes_key env image (media_info (λ s. s) uploaded) ≡ inr k)
    × (open_media env k (served c) ≡ inr (codes "hi", codes "text/plain"))
upload_opens_example =
    upload_opens env laws (codes "u") (codes "hi") cdn_media_type_image [] uploaded image hi-IsBytes
      (omega arith) refl upload_returned
