-- ===== src/Tests/Files.antt =====
-- storage.go: the theorems on files at a file system that is a list of names with their contents.
use wechat_bot.Base.{
  Option, none, some, List, [], ◌∷◌, ◌⊎◌, inl, inr, Str, codes, str_eq_iff, ◌≡◌, ◌≢◌, refl, arith,
  true, str_eq, length, take, drop, ◌++◌, take-append, drop-append,
}
use wechat_bot.Errors.{Error, external}
use wechat_bot.Listener.Env.{Action}
use wechat_bot.Storage.File.{
  Files, Credentials, write_private_file, path_of, load_file_buf, save_file_buf, publish, fill_temp,
  remove_temp,
}
use wechat_bot.Storage.File.Atomic.{FilesLaws, RenameFailed, write_private_file_atomic}
use wechat_bot.Storage.File.Reload.{ReadLaws, load_file_buf-save_file_buf}
use wechat_bot.Storage.File.Utf8.{is_utf8, is_utf8_from, next_byte, lead, further}
use wechat_bot.Storage.Path.{path_for_account}
use wechat_bot.TokenCache.Index.{map_get-set, map_get-delete}
use wechat_bot.TokenCache.{map_get, map_set, map_delete}

abbrev pub Disk : Type 0
Disk = List (Str × Str)

abbrev pub temp : Str
temp = codes "t"

-- What a renaming does with what it found under the old name.
abbrev arrive : Str → Str → Disk → Option Str → Option Error × Disk
arrive from to d none = (some (external 2), d)
arrive from to d (some bytes) = (none, map_set to bytes (map_delete from d))

abbrev move : Str → Str → Action Disk (Option Error)
move from to d = arrive from to d (map_get from d)

arrive_moves :
    (from to : Str) (d : Disk) (found : Option Str)
    → (arrive from to d found).0 ≡ none
    → map_get to (arrive from to d found).1 ≡ found
arrive_moves from to d none h = absurd (ground arith)
arrive_moves from to d (some bytes) h =
    ground (arith, map_get-set to to bytes (map_delete from d), str_eq_iff to to)

abbrev fetch : Str → Action Disk (Error ⊎ Str)
fetch path d = (elim (map_get path d) [ none ↦ inl (external 2) | some bytes ↦ inr bytes ], d)

-- A field with its length before it, and what follows.
abbrev put_field : Str → Str → Str
put_field s rest = length s ∷ (s ++ rest)

abbrev get_field : Str → Str × Str
get_field [] = ([], [])
get_field (n ∷ s) = (take n s, drop n s)

abbrev encode : Credentials → Str
encode c =
    put_field c.bot_token
      (put_field c.ilink_bot_id (put_field c.base_url (put_field c.ilink_user_id [])))

abbrev decode : Str → Credentials
decode s0 =
    let (token, s1) = get_field s0 in
    let (bot, s2) = get_field s1 in
    let (base, s3) = get_field s2 in
    let (user, s4) = get_field s3 in
    record { bot_token = token; ilink_bot_id = bot; base_url = base; ilink_user_id = user }

get_field-put_field : (s rest : Str) → get_field (put_field s rest) ≡ (s, rest)
get_field-put_field s rest = rw (take-append s rest, drop-append s rest)

pub decode-encode : (c : Credentials) → decode (encode c) ≡ c
decode-encode c = rw (
  take-append c.bot_token _,
  drop-append c.bot_token _,
  take-append c.ilink_bot_id _,
  drop-append c.ilink_bot_id _,
  take-append c.base_url _,
  drop-append c.base_url _,
  take-append c.ilink_user_id _,
)

abbrev pub disk_files : Files Disk
disk_files = record {
  join = λ base name. 112 ∷ name;
  dir = λ path. codes "p";
  mkdir_all = λ dir mode d. (none, d);
  create_temp = λ dir pattern d. (inr temp, map_set temp [] d);
  chmod = λ f mode d. (none, d);
  write = λ f bytes d. (none, map_set f bytes d);
  sync = λ f d. (none, d);
  close = λ f d. (none, d);
  rename = move;
  remove = λ f d. (none, map_delete f d);
  read_file = fetch;
  is_not_exist = λ e. true;
  encode_buf = λ buf. inr (123 ∷ buf);
  decode_buf = λ bytes. elim bytes [ [] ↦ inl (external 1) | _ ∷ buf ↦ inr buf ];
  encode_credentials = λ c. inr (encode c);
  decode_credentials = λ bytes. inr (decode bytes);
}

abbrev pub never : Action Disk (Option Error)
never d = (none, d)

-- Every path but the temporary file's own obeys the laws.
pub disk_laws : (path : Str) → temp ≢ path → FilesLaws disk_files never path (λ d p. map_get p d)
disk_laws path other = record {
  ctx_keeps = λ w p. refl;
  mkdir_keeps = λ d mode w p. refl;
  create_keeps =
      λ d pattern w. ground (arith, map_get-set temp path [] w, str_eq_iff temp path, other);
  create_other = λ d pattern tmp w e. ground (arith, other);
  create_empty =
      λ d pattern tmp w e. ground (arith, map_get-set temp tmp [] w, str_eq_iff temp tmp);
  chmod_keeps = λ f mode w p. refl;
  sync_keeps = λ f w p. refl;
  close_keeps = λ f w p. refl;
  write_keeps = λ f bytes w h. ground (arith, map_get-set f path bytes w, str_eq_iff f path);
  write_sets = λ f bytes w blank done. ground (arith, map_get-set f f bytes w, str_eq_iff f f);
  rename_moves = λ f w done. arrive_moves f path w (map_get f w) done;
  remove_keeps = λ f w h. ground (arith, map_get-delete f path w, str_eq_iff f path);
}

bot_path : temp ≢ path_of disk_files never [] (codes "bot")
unfolding path_for_account
bot_path e = ground arith

bot_laws :
    FilesLaws disk_files never (path_of disk_files never [] (codes "bot")) (λ d p. map_get p d)
bot_laws = disk_laws (path_of disk_files never [] (codes "bot")) bot_path

bot_reads : ReadLaws disk_files (path_of disk_files never [] (codes "bot")) (λ d p. map_get p d)
bot_reads = record {
  reads = λ bytes found w h e. ground arith;
  exists = λ bytes e w h failed. absurd (ground arith);
  decodes = λ buf bytes text h. ground arith;
}

write_private_file_atomic_example :
    ((write_private_file disk_files never (codes "f") (codes "new") []).0 ≡ none)
      × (map_get (codes "f") (write_private_file disk_files never (codes "f") (codes "new") []).1
          ≡ some (codes "new"))
    ⊎ ((e : Error) × ((write_private_file disk_files never (codes "f") (codes "new") []).0 ≡ some e)
        × ((map_get (codes "f") (write_private_file disk_files never (codes "f") (codes "new") []).1
              ≡ map_get (codes "f") [])
            ⊎ RenameFailed disk_files
                (codes "f")
                (λ d p. map_get p d)
                (map_get (codes "f") [])
                (codes "new")
                e
                (write_private_file disk_files never (codes "f") (codes "new") []).1))
write_private_file_atomic_example =
    write_private_file_atomic disk_files never (codes "f") (λ d p. map_get p d)
      (disk_laws (codes "f") (λ e. ground arith)) (codes "new") []

bot_saved : (save_file_buf disk_files never [] (codes "bot") (codes "c1") []).0 ≡ none
unfolding save_file_buf write_private_file fill_temp publish remove_temp path_for_account map_get
    map_set map_delete str_eq
bot_saved = refl

cursor_is_utf8 : is_utf8 (codes "c1") ≡ true
unfolding is_utf8 is_utf8_from next_byte lead further
cursor_is_utf8 = refl

load_file_buf-save_file_buf_example :
    ((load_file_buf disk_files never []
        (codes "bot")
        (save_file_buf disk_files never [] (codes "bot") (codes "c1") []).1).0
      ≡ inr (codes "c1"))
    ⊎ ((e : Error) × ((disk_files.read_file
            (path_of disk_files never [] (codes "bot"))
            (save_file_buf disk_files never [] (codes "bot") (codes "c1") []).1).0
          ≡ inl e)
        × ((load_file_buf disk_files never []
              (codes "bot")
              (save_file_buf disk_files never [] (codes "bot") (codes "c1") []).1).0
            ≡ inl e))
load_file_buf-save_file_buf_example =
    load_file_buf-save_file_buf disk_files never [] (codes "bot") (λ d p. map_get p d) bot_laws
      bot_reads (codes "c1") [] cursor_is_utf8 bot_saved refl
