-- ===== src/SyncStore.antt =====
-- platform/sync_settings.h and platform/sync_settings.c: the synchronisation settings in the store, as
-- they are loaded and saved. Where a load returns FALSE, what it has filled so far is left out.
pub mod Loads
pub mod Saves
pub mod Refilled
pub mod RoundTrip
pub mod Import
mod Examples
use nova_desktop.Base.{
  ℕ, ◌+◌, ◌-◌, Bool, ◌||◌, not, List, [], ◌∷◌, ◌++◌, Option, none, some, ◌==◌, if◌then◌else◌, ℤ,
  pos, negsuc, count_in, take, replicate,
}
use nova_desktop.Text.{Text, Buffer, c_str, codes, text_eq, first, wcscpy}
use nova_desktop.Decimal.{long_long_max}
use nova_desktop.Decimal.Signed.{print_int, wcsto}
use nova_desktop.SyncModel.{
  SyncPair, SyncSettings, pair_limit, id_cap, sync_name_cap, sync_path_cap, filter_cap, zeroed,
  sync_settings_default, sync_settings_valid, count_of,
}
use nova_desktop.Storage.{
  M, ◌>>=◌, ◌>>◌, pure, require, accept, in_transaction, store_clear, write_all, write_loop,
  in_section, read_loop, get_text, get_int, flag, or_fail,
}

abbrev pub scope : Text
scope = codes "sync"

abbrev pub manager : Text
manager = codes "Manager"

-- `store_get(...)&&out[0]`
unfoldable pub read_value : Text → Text → ℕ → M Text
read_value section key capacity = do
  text ← get_text scope section key [] capacity
  require (not (first text == 0))
  pure text

-- `!end||*end||errno` does not hold behind wcstoll.
abbrev pub whole_number : Text → Option ℤ
whole_number text =
    let (n, errno, end) = wcsto long_long_max text in
    if not (first end == 0) || errno then none else some n

-- `wcscpy` into an array of zeros.
unfoldable pub filled : ℕ → Text → Buffer
filled cap text = wcscpy (replicate cap 0) text

-- One round of the loop of sync_settings_load.
unfoldable pub load_pair : Text → M SyncPair
unfolding read_value filled
load_pair section = do
  id ← read_value section (codes "Id") id_cap
  dataset ← read_value section (codes "Dataset") id_cap
  name ← read_value section (codes "Name") sync_name_cap
  group ← read_value section (codes "Group") sync_name_cap
  directory ← read_value section (codes "Path") sync_path_cap
  excludes ← get_text scope section (codes "Excludes") [] filter_cap
  paused ← get_int scope section (codes "Paused") (negsuc 0)
  deletes ← get_int scope section (codes "Deletes") (negsuc 0)
  is_paused ← or_fail (flag paused)
  with_deletes ← or_fail (flag deletes)
  pure (record {
    id = filled id_cap id;
    dataset = filled id_cap dataset;
    name = filled sync_name_cap name;
    group = filled sync_name_cap group;
    directory = filled sync_path_cap directory;
    excludes = filled filter_cap excludes;
    paused = is_paused;
    sync_deletes = with_deletes;
  })

-- What the values before the loop are.
pub record Header : Type 0 where
  pub server_instance : Text
  pub count : ℤ
  pub role : ℤ
  pub interval : ℤ
  pub registered : Bool
  pub server_id : ℤ
  pub node_id : Text
  pub name : Text
  pub project : Text
  pub broker : Text

unfoldable pub load_header : M Header
unfolding read_value
load_header = do
  server_instance ← get_text scope manager (codes "Instance") [] id_cap
  count ← get_int scope manager (codes "Count") (negsuc 0)
  role ← get_int scope manager (codes "Role") (negsuc 0)
  interval ← get_int scope manager (codes "Interval") (negsuc 0)
  registered ← get_int scope manager (codes "Registered") (negsuc 0)
  is_registered ← or_fail (flag registered)
  id ← read_value manager (codes "Server") 32
  server_id ← or_fail (whole_number id)
  node_id ← get_text scope manager (codes "Node") [] id_cap
  name ← get_text scope manager (codes "Name") [] sync_name_cap
  project ← read_value manager (codes "Project") sync_path_cap
  broker ← read_value manager (codes "Broker") sync_path_cap
  pure (record {
    server_instance = server_instance;
    count = count;
    role = role;
    interval = interval;
    registered = is_registered;
    server_id = server_id;
    node_id = node_id;
    name = name;
    project = project;
    broker = broker;
  })

-- The arrays of the defaults take the strings, and the pairs behind those loaded stay zeros.
abbrev pub settings_of : Header → ℕ → List SyncPair → SyncSettings
settings_of h count pairs = record {
  version = sync_settings_default.version;
  count = h.count;
  role = h.role;
  interval = h.interval;
  server_id = h.server_id;
  registered = h.registered;
  server_instance = filled id_cap h.server_instance;
  node_id = filled id_cap h.node_id;
  name = filled sync_name_cap h.name;
  project = wcscpy sync_settings_default.project h.project;
  broker = wcscpy sync_settings_default.broker h.broker;
  pairs = pairs ++ replicate (pair_limit - count) zeroed;
}

abbrev pub header_entries : SyncSettings → List (Text × Text)
header_entries s =
    (codes "Version", print_int (pos 1))
    ∷ (codes "Count", print_int s.count)
    ∷ (codes "Role", print_int s.role)
    ∷ (codes "Interval", print_int s.interval)
    ∷ (codes "Registered", print_int (if s.registered then pos 1 else pos 0))
    ∷ (codes "Instance", c_str s.server_instance)
    ∷ (codes "Server", print_int s.server_id)
    ∷ (codes "Node", c_str s.node_id)
    ∷ (codes "Name", c_str s.name)
    ∷ (codes "Project", c_str s.project)
    ∷ (codes "Broker", c_str s.broker)
    ∷ []

abbrev pub pair_entries : SyncPair → List (Text × Text)
pair_entries p =
    (codes "Id", c_str p.id)
    ∷ (codes "Dataset", c_str p.dataset)
    ∷ (codes "Name", c_str p.name)
    ∷ (codes "Group", c_str p.group)
    ∷ (codes "Path", c_str p.directory)
    ∷ (codes "Excludes", c_str p.excludes)
    ∷ (codes "Paused", print_int (if p.paused then pos 1 else pos 0))
    ∷ (codes "Deletes", print_int (if p.sync_deletes then pos 1 else pos 0))
    ∷ []

abbrev pub pairs_of : SyncSettings → List SyncPair
pairs_of s = take (count_of s.count) s.pairs

-- What stands between store_begin and store_end.
unfoldable pub write_settings : SyncSettings → M (Unit {0})
unfolding write_loop
write_settings s =
    (store_clear scope >> write_all scope (in_section manager (header_entries s)))
    >> write_loop (write_all scope) (codes "Pair") pair_entries 0 (pairs_of s)

module _ (towlower : ℕ → ℕ) where
  -- The load once the version is known to be 1.
  unfoldable pub load_version_1 : M SyncSettings
  unfolding load_header load_pair read_loop
  load_version_1 = do
    h ← load_header
    count ← or_fail (count_in h.count pair_limit)
    pairs ← read_loop load_pair (codes "Pair") 0 count
    accept (sync_settings_valid towlower) (settings_of h count pairs)

  unfoldable pub load_version : Text → M SyncSettings
  unfolding load_version_1
  load_version version =
      if first version == 0
      then pure sync_settings_default
      else if text_eq version (codes "1")
      then load_version_1
      else (λ s. (none, s))

  unfoldable pub sync_settings_load : M SyncSettings
  unfolding load_version
  sync_settings_load =
      get_text scope manager (codes "Version") [] 32 >>= λ version. load_version version

  unfoldable pub sync_settings_save : SyncSettings → M (Unit {0})
  unfolding write_settings
  sync_settings_save settings s =
      if not (sync_settings_valid towlower settings)
      then (none, s)
      else in_transaction (write_settings settings) s
