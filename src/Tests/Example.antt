-- ===== src/Tests/Example.antt =====
-- examples/basic/main.go: the theorems at a bot whose world is the ledger's file, and at a process that
-- logs in at the first poll.
use wechat_bot.Base.{
  true, false, none, some, [], ◌++◌, ◌⊎◌, inl, inr, Str, codes, pos, ◌≡◌, refl, replicate,
}
use wechat_bot.Cdn.Download.{download_decrypted_image}
use wechat_bot.Cdn.Transfer.{MediaEnv}
use wechat_bot.Errors.{Error, errors_is}
use wechat_bot.Example.Handler.{Bot, handle, sort_failure, give_up}
use wechat_bot.Example.Record.{
  Ledger, permanent, is_hopeless, record_message, append_entry, or_close,
}
use wechat_bot.Example.Reply.{reply, reply_image}
use wechat_bot.Example.Settled.{LedgerLaws, Recorded, handle-Settled}
use wechat_bot.Listener.Env.{Sys}
use wechat_bot.Notify.{SendEnv}
use wechat_bot.Storage.File.{Files}
use wechat_bot.Tests.Client.{net, policy}
use wechat_bot.Tests.Crypto.{same_block}
use wechat_bot.Types.{InboundMessage, is_image}

-- What is on disk, and what was written and not synced.
record Log : Type 0 where
  disk : Str
  buffer : Str

abbrev pub media : {W : Type 0} → MediaEnv W
media = record {
  api = record {
    request_error = λ url. none;
    send = λ r w. (inl Error.canceled, w);
    url_cause = λ e. none;
  };
  account = record {
    base_url = codes "https://h";
    bot_token = codes "t";
    wechat_uin = codes "u";
    max_response_bytes = 100;
  };
  cdn = record {
    ctx_err = λ w. (none, w);
    wait = λ d w. (none, w);
    client = record {
      request_error = λ url. none;
      send = λ r w. (inl Error.canceled, w);
      url_cause = λ e. none;
    };
  };
  cdn_base_url = codes "https://h";
  max_media_bytes = 100;
  media_policy = policy;
  net = net;
  read_full = λ n w. ((replicate n 7, none), w);
  aes = same_block;
  md5 = λ content. [];
  query_escape = λ s. s;
  base64_encode = λ s. s;
  base64_decode = λ s. some s;
  detect_content_type = λ content. codes "text/plain";
  encode_upload = λ req. inl Error.canceled;
  decode_upload = λ body. inl Error.canceled;
}

abbrev pub send : {W : Type 0} → SendEnv W
send = record {
  media = media;
  ilink_bot_id = codes "b";
  encode_send = λ req. inr [];
  decode_send = λ body. inr (record { ret = pos 0; err_msg = [] });
  encode_config = λ req. inr [];
  decode_config = λ body. inr (record { ret = pos 0; err_msg = []; typing_ticket = [] });
  encode_typing = λ req. inr [];
}

abbrev log_files : Files Log
log_files = record {
  join = λ base name. name;
  dir = λ path. codes "p";
  mkdir_all = λ dir mode w. (none, w);
  create_temp = λ dir pattern w. (inl Error.canceled, w);
  chmod = λ f mode w. (none, w);
  write = λ f bytes w. (none, record w { buffer = w.buffer ++ bytes });
  sync = λ f w. (none, record { disk = w.disk ++ w.buffer; buffer = [] });
  close = λ f w. (none, w);
  rename = λ from to w. (none, w);
  remove = λ f w. (none, w);
  read_file = λ path w. (inr w.disk, w);
  is_not_exist = λ e. true;
  encode_buf = λ buf. inr buf;
  decode_buf = λ bytes. inr bytes;
  encode_credentials = λ c. inr c.bot_token;
  decode_credentials = λ bytes. inl Error.canceled;
}

abbrev ledger : Ledger Log
ledger = record {
  files = log_files;
  open_append = λ path mode w. (inr path, record w { buffer = [] });
  now = λ w. (codes "noon", w);
  encode = λ letter. inr letter.message_id;
}

abbrev bot : Bot Log
bot = record { send = send; ctx_err = λ w. (none, w); ledger = ledger; dead_letter = codes "d" }

ledger_laws : LedgerLaws ledger (codes "d") (λ w. w.disk) (λ w file. w.buffer)
ledger_laws = record {
  now_keeps = λ w. refl;
  mkdir_keeps = λ dir mode w. refl;
  open_keeps = λ mode w. refl;
  open_fresh = λ mode file w h. refl;
  write_keeps = λ file bytes w. refl;
  write_adds = λ file bytes w h. refl;
  sync_stores = λ file w h. refl;
  close_keeps = λ file w. refl;
}

-- An image message without an image.
abbrev empty_image : InboundMessage
empty_image = record {
  message_id = codes "7";
  from_user_id = codes "u";
  to_user_id = codes "b";
  text = [];
  item_type = pos 2;
  voice_text = [];
  image_item = none;
  voice_item = none;
  file_item = none;
  video_item = none;
  raw_message = codes "raw";
  context_token = [];
}

abbrev system : Sys Log
system = record {
  tokens = record { ctx_tokens = []; ctx_token_lru = []; next = 0; max_context_tokens = 2 };
  running = false;
  world = record { disk = codes "6"; buffer = [] };
}

given_up : (handle bot none empty_image system).0 ≡ none
unfolding handle reply is_image reply_image download_decrypted_image sort_failure permanent
    is_hopeless errors_is give_up record_message append_entry or_close
given_up = refl

handle-Settled_example :
    ((reply send none empty_image system).0 ≡ inr tt)
    ⊎ ((e : Error) × ((reply send none empty_image system).0 ≡ inl e)
        × (permanent e ≡ true)
        × Recorded ledger
            (λ w. w.disk)
            empty_image
            e
            (reply send none empty_image system).1.world
            (handle bot none empty_image system).1.world)
handle-Settled_example =
    handle-Settled bot (λ w. w.disk) (λ w file. w.buffer) ledger_laws (λ w. refl) none empty_image
      system given_up
