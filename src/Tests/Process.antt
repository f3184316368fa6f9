-- ===== src/Tests/Process.antt =====
-- examples/basic/main.go: a process that logs in at the first poll and keeps its credentials on the
-- disk of a list of files.
use wechat_bot.Base.{
  Str, ◌∷◌, ◌⊎◌, inl, none, some, true, false, [], inr, ◌≡◌, refl, codes, pos, arith, str_eq,
}
use wechat_bot.Client.{Client}
use wechat_bot.Client.Ready.{IsReady}
use wechat_bot.Config.{trim_slashes, check_base}
use wechat_bot.Errors.{Error}
use wechat_bot.Example.Listens.{HasBases, ready_state, EndsWith, run_listens}
use wechat_bot.Example.Run.{Program, storing, callbacks_of, run}
use wechat_bot.Listener.Env.{Env}
use wechat_bot.Listener.Loop.{start}
use wechat_bot.Tests.Client.{net}
use wechat_bot.Tests.Example.{send}
use wechat_bot.Example.Login.{Process, credentials, scan_login, confirm_login, keep_credentials}
use wechat_bot.Example.Remember.{AccountLaws, IsText, credentials_remembered}
use wechat_bot.Http.{read_limited_body, Http}
use wechat_bot.Login.Request.{login_endpoint, read_json, do_json, get_qr_code, check_qr_status}
use wechat_bot.Login.Options.{
  resolve_login_options, default_login_options, with_verification_code_handler,
}
use wechat_bot.Login.Status.{status_confirmed}
use wechat_bot.Login.Wait.{
  wait_for_qr_confirmation, poll_qr, iterate_wait, settle, poll_once, report_status, handle_status,
  credentials_of,
}
use wechat_bot.Storage.File.{save_credentials, write_private_file, publish, fill_temp, remove_temp}
use wechat_bot.Storage.File.Utf8.{is_utf8, is_utf8_from, next_byte, lead, further}
use wechat_bot.Tests.Files.{Disk, disk_files, disk_laws, decode-encode}
use wechat_bot.Tests.Login.{codec, confirmed}
use wechat_bot.TokenCache.{map_get, map_set, map_delete}
use wechat_bot.Url.Policy.{new_url_policy, to_lower}

abbrev server : Http Disk
server = record {
  request_error = λ url. none;
  send = λ r d. (
    inr (record {
      status_code = pos 200;
      header = λ name. [];
      content_length = pos 0;
      body = inr status_confirmed;
    }),
    d,
  );
  url_cause = λ e. none;
}

abbrev process : Process Disk
process = record {
  files = disk_files;
  getenv = λ name. [];
  print = λ text d. d;
  print_qr = λ code d. d;
  scan = λ d. (([], none), d);
  codec = codec;
  generate_uin = λ d. (codes "u", d);
  login_client = server;
  ctx_err = λ d. (none, d);
  wait = λ n d. (none, d);
  is_timeout = λ e. false;
}

abbrev account_path : Str
account_path = 112 ∷ codes "credentials.json"

account_laws : AccountLaws process account_path (λ d p. map_get p d)
account_laws = record {
  writes = disk_laws account_path (λ e. ground arith);
  reads = λ bytes found d h e. ground arith;
  exists = λ bytes e d h failed. absurd (ground arith);
  decodes = λ c bytes text h. ground (arith, decode-encode c);
  print_keeps = λ text d. refl;
}

logged_in : (credentials process 2 account_path true []).0 ≡ some (inr confirmed)
unfolding credentials scan_login confirm_login keep_credentials get_qr_code login_endpoint do_json
    read_json read_limited_body resolve_login_options default_login_options
    with_verification_code_handler wait_for_qr_confirmation poll_qr iterate_wait settle poll_once
    report_status handle_status credentials_of check_qr_status new_url_policy to_lower trim_slashes
    save_credentials write_private_file publish fill_temp remove_temp map_get map_set map_delete
    str_eq
logged_in = refl

confirmed-IsText : IsText confirmed
unfolding is_utf8 is_utf8_from next_byte lead further
confirmed-IsText = (refl, refl, refl, refl)

credentials_remembered_example :
    ((credentials process 0 account_path false (credentials process 2 account_path true []).1).0
      ≡ some (inr confirmed))
    ⊎ ((e : Error) × (e' : Error) × ((disk_files.read_file account_path
            (credentials process 2 account_path true []).1).0
          ≡ inl e)
        × ((credentials process 0 account_path false
              (credentials process 2 account_path true []).1).0
            ≡ some (inl e')))
credentials_remembered_example =
    credentials_remembered process account_path (λ d p. map_get p d) account_laws 2 0 confirmed []
      confirmed-IsText logged_in

-- A listener that is cancelled at once.
abbrev cancelled_env : Env Disk
cancelled_env = record {
  ctx_err = λ d. (some Error.canceled, d);
  marshal = λ m. inr [];
  post_updates = λ q d. (inl Error.canceled, d);
  wait_context = λ n d. (some Error.canceled, d);
  int64n = λ d. (λ n. 0, d);
  load_buf = λ bot_id d. (inr [], d);
  save_buf = λ bot_id buf d. (none, d);
  clear_buf = λ bot_id d. (none, d);
  schedule = λ d. (0, d);
}

abbrev program : Program Disk
program = record {
  process = process;
  fresh = record { http_client = 1; storage = 2; logger = 3 };
  storage = 4;
  logger = 5;
  listening = λ c. cancelled_env;
  sending = λ c. send;
  ledger = record {
    files = disk_files;
    open_append = λ path mode d. (inr path, d);
    now = λ d. ([], d);
    encode = λ letter. inr [];
  };
}

bases : HasBases program confirmed
unfolding check_base trim_slashes str_eq
bases = record {
  base = codes "https://h";
  base_accepted = refl;
  cdn_base = codes "https://h";
  cdn_accepted = refl;
}

run_listens_example :
    (client : Client) × (w' : Disk) × IsReady net client
    × (client.cfg.bot_token ≡ codes "t")
    × (client.cfg.ilink_bot_id ≡ codes "b")
    × EndsWith program
        (start
          (storing program [] client)
          client.cfg
          (callbacks_of program [] client)
          5
          (ready_state program client w')).0
        (run program 2 5 [] true []).0
run_listens_example = run_listens program 2 5 [] true confirmed [] logged_in bases
