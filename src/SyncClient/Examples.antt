-- ===== src/SyncClient/Examples.antt =====
-- The theorems on platform/sync_client.c at a new file of two bytes, whose chunk is in the cache.
use nova_desktop.Base.{
  true, false, [], ◌∷◌, ◌++◌, Option, none, some, if◌then◌else◌, pos, replicate, ◌≡◌, refl, ◌⊎◌,
  ◌||◌, arith,
}
use nova_desktop.Text.{Text, codes, text_eq, has_any, c_str}
use nova_desktop.SyncWire.{Outside, Run, ok, sy_rpc}
use nova_desktop.SyncWire.Fields.{sy_fields}
use nova_desktop.SyncJson.{sync_buffer_add, sync_buffer_string}
use nova_desktop.SyncClient.{World, Client, applied, ◌>>=◌, ◌>>◌, or_do, from, change}
use nova_desktop.SyncClient.Download.{get_pieces}
use nova_desktop.SyncClient.Download.Rounds.{get_pieces_enough}
use nova_desktop.SyncClient.Apply.{packets}
use nova_desktop.SyncClient.Tables.{phase_of, keeps_local}
use nova_desktop.SyncClient.Receive.{manifest_of, is_resolving, receive_all}
use nova_desktop.SyncClient.Quiet.{view}
use nova_desktop.SyncClient.Facts.{local}
use nova_desktop.SyncClient.Outcome.{Outcome}
use nova_desktop.SyncClient.Safety.{receive_one_lem}
use nova_desktop.SyncClient.Recorded.{receive_one_recorded}
use nova_desktop.SyncClient.All.{IsReached, receive_all_lem}
use nova_desktop.SyncClient.Places.{file_hash}
use nova_desktop.SyncClient.Placed.{receive_one_placed}
use nova_desktop.SyncClient.Compare.{Version, state_of, pull, hash_of_seen, state_of-pull}
use nova_desktop.SyncClient.Jobs.{
  is_put, Job, Seen, job_of, place_of, has_hash, size_is, is_adopted, is_unchanged,
}
use nova_desktop.SyncClient.Receive.{receive_one}

abbrev hash : Text
hash = replicate 64 97

abbrev string_of : Text → Text → Option Text
string_of document name =
    if text_eq name (codes "$.id")
    then some (codes "i")
    else if text_eq name (codes "$.dataset")
    then some (codes "d")
    else if text_eq name (codes "$.path")
    then some (codes "f")
    else if text_eq name (codes "$.path_key")
    then some (codes "f")
    else if text_eq name (codes "$.kind")
    then some (codes "PUT")
    else if text_eq name (codes "$.sha256")
    then some hash
    else if text_eq name (codes "$.result")
    then some (codes "{}")
    else none

abbrev outside : Outside
outside = record {
  cancel_set = false;
  last_error = 0;
  patch = λ document path value json. some document;
  json_valid = λ document. true;
  json_string = string_of;
  json_int = λ document path else_value. if text_eq path (codes "$.ok") then pos 1 else pos 2;
  utf8 = λ text. some text;
  wide = λ bytes. bytes;
  compress = λ bytes. none;
  inflate = λ bytes room. none;
  memory = true;
}

abbrev client : Client
client = record {
  outside = outside;
  realloc = λ cells capacity. some (replicate capacity 0);
  node_id = codes "n";
  role = 0;
  dataset = some (codes "d");
  directory = codes "C:\\w";
  sync_deletes = false;
  resolution = 0;
  resolve_path = [];
  cache_folder = codes "C:\\c";
  partial_folder = codes "C:\\p";
  wide = λ text capacity. some text;
  sha = λ bytes. some hash;
  chunks = λ manifest. (some hash, 2) ∷ [];
  jobs = λ reply. [];
  minified = λ manifest. manifest;
  reparse = λ path. false;
  meanwhile = λ files. files;
  misprinted = λ id. id;
  torn = λ packet. [];
  recycle = none;
  now = 5;
}

abbrev started : Run
started = record {
  failure = ok;
  native_error = 0;
  sent = 0;
  received = 0;
  route = none;
  detail = [];
  phase = 0;
  progress_tick = 0;
  file_events = 0;
  skip_events = 0;
  phase_events = 0;
  writes = [];
  outgoing = [];
  incoming = 0 ∷ 0 ∷ 0 ∷ 2 ∷ 0 ∷ 0 ∷ 0 ∷ 2 ∷ codes "{}" ++ (7 ∷ 8 ∷ []);
  stopped = false;
}

abbrev before : World
before = record {
  run = started;
  answers = [];
  polls = [];
  working = λ path. none;
  chunk_files = λ path. if text_eq path (codes "C:\\c\\" ++ hash) then some (7 ∷ 8 ∷ []) else none;
  part_files = λ path. none;
  heads = λ dataset key. none;
  inbox = [];
  versions = [];
  accepted_local = [];
  downloaded = 0;
  reused = 0;
  resumed = 0;
  reclaimed = 0;
}

abbrev new_file : Job
new_file = record {
  id = codes "i";
  dataset = codes "d";
  relative = codes "f";
  key = codes "f";
  kind = codes "PUT";
  expected = some hash;
  parent = none;
  total = 2;
}

reads : job_of client (codes "m") ≡ some new_file
unfolding job_of text_eq
reads = refl

succeeds : (receive_one client (some (codes "m")) (some hash) before).0 ≡ some tt
unfolding receive_one text_eq ◌>>=◌ ◌>>◌ or_do has_any from change sy_fields sync_buffer_add
    sync_buffer_string sy_rpc c_str packets
succeeds = refl

stands : place_of client (codes "f") ≡ some (codes "C:\\w\\f")
unfolding place_of has_any text_eq
stands = refl

put : is_put new_file ≡ true
unfolding text_eq
put = refl

no_choice : keeps_local client (is_resolving client new_file) ≡ false
unfolding is_resolving
no_choice = refl

receive_one_lem_example :
    Outcome client
      (local (view before))
      (codes "m")
      (receive_one client (some (codes "m")) (some hash) before).1.working
receive_one_lem_example = receive_one_lem client (codes "m") hash before

receive_one_recorded_example :
    (phase_of (codes "i") (receive_one client (some (codes "m")) (some hash) before).1.inbox ≡ none)
    × ((phase_of (codes "i") [] ≡ some applied)
        ⊎ (manifest_of (
              (receive_one client (some (codes "m")) (some hash) before).1.heads
                (codes "d")
                (codes "f"))
            ≡ some (codes "m")))
receive_one_recorded_example =
    receive_one_recorded client (codes "m") hash new_file before reads succeeds

-- A file as the index has it, with a new version on the server.
abbrev old_file : Option Seen
old_file = some (record { hash = codes "o"; size = 2; mtime = 0 })

abbrev old_version : Option Version
old_version = some (record { id = some (codes "h"); sha256 = some (codes "o") })

abbrev new_version : Option Version
new_version = some (record { id = some (codes "i"); sha256 = some hash })

is_pull : state_of (hash_of_seen old_file) old_version new_version true ≡ pull
unfolding state_of text_eq
is_pull = refl

differs : has_hash old_file (some hash) ≡ true → size_is old_file 2 ≡ true
differs h = refl

state_of-pull_example :
    is_adopted new_file old_file || is_unchanged (some (codes "o")) old_file ≡ true
state_of-pull_example =
    state_of-pull new_file old_file old_version new_version true is_pull refl differs

get_pieces_enough_example :
    get_pieces client (some (codes "{}")) (codes "p") 2 2 0 before
    ≡ get_pieces client (some (codes "{}")) (codes "p") 2 7 0 before
get_pieces_enough_example =
    get_pieces_enough client (some (codes "{}")) (codes "p") 2 2 7 0 (omega arith) (omega arith)
      before

receive_one_placed_example :
    file_hash client
      ((receive_one client (some (codes "m")) (some hash) before).1.working (codes "C:\\w\\f"))
    ≡ some hash
receive_one_placed_example =
    receive_one_placed client (codes "m") hash new_file (codes "C:\\w\\f") before reads stands put
      refl no_choice refl succeeds

-- A client to which the server sends the new file.
abbrev sent : Client
sent = record client { jobs = λ reply. (some (codes "m"), some hash) ∷ [] }

receive_all_lem_example :
    IsReached sent (local (view before)) (local (view (receive_all sent before).1))
receive_all_lem_example = receive_all_lem sent before
