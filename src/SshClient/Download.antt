-- ===== src/SshClient/Download.antt =====
-- platform/ssh_client.c: the download of a tree by transfer_node, along the answers of the server.
pub mod Parts
pub mod Landing
use nova_desktop.Base.{
  ℕ, ◌+◌, Bool, true, false, ◌&&◌, ◌||◌, not, List, [], ◌∷◌, Option, none, some, ltb, leb, ◌==◌,
  if◌then◌else◌, ℤ, pos, negsuc, length, take,
}
use nova_desktop.Text.{Text}
use nova_desktop.ServerProfile.{ssh_path_join, path_cap}
use nova_desktop.SshClient.{Bytes, Connection, Try, retry, is_zero, failed}
use nova_desktop.SshClient.Names.{path_bytes, local_name_valid, local_join}
use nova_desktop.SshClient.Deletion.{entry_limit, Walk, call, fails_at, then_next, is_dots, begin}
use nova_desktop.SshClient.Transfer.{Incoming, Calls, download_file}

-- What the server says of a path.
pub data Kind : Type 0 where
  link directory other : Kind

-- What the calls for one path answer: whether the cancel event is set, the attributes and what they are those of, whether a
-- directory can be made here, the opening of the one on the server and its entries; and for a file the file that is
-- there and the calls of its transfer.
mutual
  pub data Node : Type 0 where
    node :
        Bool
        → List Try
        → Kind
        → Bool
        → List Try
        → Entries
        → Option Bytes
        → List Incoming
        → Calls
        → Node

  pub data Entries : Type 0 where
    no_more : Entries
    entry : List Try → Bytes → Node → Entries → Entries

-- `wcsrchr(path,L'\\')+1`
abbrev or_else : Option Text → Text → Bool → Option Text
or_else none rest is_slash = if is_slash then some rest else none
or_else (some name) rest is_slash = some name

unfoldable pub last_name : Text → Option Text
last_name [] = none
last_name (c ∷ cs) = or_else (last_name cs) cs (c == b'\\')

module _ (upper : ℕ → ℕ) (utf8 : Text → ℕ → Option Bytes) (wide : Bytes → Option Text)
    (cancel_set late : Bool) where
  abbrev pub fail : Walk → Bool × Walk
  fail = fails_at utf8 wide cancel_set late

  abbrev pub makes : Text → Walk → Walk
  makes local s = record s { paths = local ∷ s.paths }

  abbrev pub after_entries : Bool × Walk → Bool × Walk
  after_entries (ok, s) = if ok then (true, s) else fail s

  abbrev pub open_directory : (Walk → Bool × Walk) → ℤ × Walk → Bool × Walk
  open_directory entries (rc, s) = if is_zero rc then after_entries (entries s) else fail s

  abbrev pub make_directory : Text → Bool → List Try → (Walk → Bool × Walk) → Walk → Bool × Walk
  make_directory local creates opening entries s =
      if creates then open_directory entries (call opening (makes local s)) else fail s

  abbrev pub file_done : Walk → Bool × Option Bytes × Connection → Bool × Walk
  file_done s (ok, file, c) = (ok, record s { connection = c })

  -- The file is made where CreateFileW with CREATE_NEW makes one.
  abbrev pub make_file : Text → Option Bytes → List Incoming → Calls → Walk → Bool × Walk
  make_file local none rounds o s =
      file_done (if o.opens_local then makes local s else s)
        (download_file o rounds none s.connection)
  make_file local (some content) rounds o s =
      file_done s (download_file o rounds (some content) s.connection)

  abbrev pub with_kind : Kind → (Walk → Bool × Walk) → (Walk → Bool × Walk) → Walk → Bool × Walk
  with_kind link into file s = fail s
  with_kind directory into file s = into s
  with_kind other into file s = file s

  abbrev pub with_attributes :
      Kind → (Walk → Bool × Walk) → (Walk → Bool × Walk) → ℤ × Walk → Bool × Walk
  with_attributes kind into file (rc, s) = if is_zero rc then with_kind kind into file s else fail s

  abbrev pub with_path : Option Bytes → (Walk → Bool × Walk) → Walk → Bool × Walk
  with_path none visit s = fail s
  with_path (some p) visit s = visit s

  abbrev pub has_valid_name : Option Text → Bool
  has_valid_name none = false
  has_valid_name (some name) = local_name_valid upper name

  abbrev pub visit_within :
      Bool → Bool → ℕ → Option Bytes → (Walk → Bool × Walk) → Walk → Bool × Walk
  visit_within is_named stopped depth p visit s =
      if not is_named || ltb 32 depth
      then fail s
      else (let s' : Walk = record s { visited = s.visited + 1 } in
          if ltb entry_limit (s.visited + 1) || stopped then fail s' else with_path p visit s')

  -- The paths of an entry, here and on the server.
  abbrev pub both_joined : Option Text → Option Text → Option (Text × Text)
  both_joined none remote = none
  both_joined (some local) none = none
  both_joined (some local) (some remote) = some (local, remote)

  abbrev pub entry_paths : Text → Text → Option Text → Option (Text × Text)
  entry_paths local remote none = none
  entry_paths local remote (some name) =
      both_joined (local_join upper local name) (ssh_path_join path_cap remote name)

  abbrev pub with_child :
      Option (Text × Text)
      → (Text → Text → Walk → Bool × Walk)
      → (Walk → Bool × Walk)
      → Walk
      → Bool × Walk
  with_child none child next s = (false, s)
  with_child (some (local, remote)) child next s =
      then_next utf8 wide cancel_set late next (child local remote s)

  abbrev pub with_entry :
      Text
      → Text
      → Bytes
      → (Text → Text → Walk → Bool × Walk)
      → (Walk → Bool × Walk)
      → ℤ × Walk
      → Bool × Walk
  with_entry local remote bytes child next (negsuc n, s) = (false, s)
  with_entry local remote bytes child next (pos n, s) =
      if n == 0
      then (true, s)
      else if leb 2047 n
      then (false, s)
      else if is_dots utf8 wide cancel_set late (take n bytes)
      then next s
      else with_child (entry_paths local remote (wide (take n bytes))) child next s

  unfoldable mutual
    unfolding last_name local_join path_bytes download_file

    pub download_node : Node → Text → Text → ℕ → Walk → Bool × Walk
    download_node (node stopped stat kind creates opening entries before rounds o) local remote
          depth s =
        visit_within (has_valid_name (last_name local)) stopped depth (path_bytes utf8 remote)
          (λ s'.
            with_attributes kind
              (make_directory local creates opening (download_entries entries local remote depth))
              (make_file local before rounds o) (call stat s'))
          s

    pub download_entries : Entries → Text → Text → ℕ → Walk → Bool × Walk
    download_entries no_more local remote depth s = (true, s)
    download_entries (entry read bytes child rest) local remote depth s =
        with_entry local remote bytes (λ l r. download_node child l r (depth + 1))
          (download_entries rest local remote depth) (call read s)

  unfoldable pub download_tree : Node → Text → Text → Connection → Bool × Walk
  unfolding download_node
  download_tree n local remote c =
      download_node n local remote 0 (begin utf8 wide cancel_set late c)
