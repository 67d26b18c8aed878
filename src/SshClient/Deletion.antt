-- ===== src/SshClient/Deletion.antt =====
-- platform/ssh_client.c: delete_impl, the deletion of a tree on the server. What the server answers is itself a tree, along
-- which the calls go; it need not be the same for the same path at another time.
pub mod Reached
pub mod Removed
use nova_desktop.Base.{
  ℕ, ◌+◌, ◌*◌, Bool, true, false, ◌&&◌, ◌||◌, not, List, [], ◌∷◌, Option, none, some, ltb, leb,
  ◌==◌, if◌then◌else◌, ℤ, pos, negsuc, length, take,
}
use nova_desktop.Text.{Text, c_str, text_eq, codes}
use nova_desktop.ServerProfile.{ssh_path_join, path_cap}
use nova_desktop.SshClient.{Bytes, file, Connection, Try, retry, is_zero, failed}
use nova_desktop.SshClient.Names.{path_bytes}

abbrev pub entry_limit : ℕ
entry_limit = 10000

-- What the calls for one path answer: whether the cancel event is set or the deadline has passed, the attributes and whether
-- they are those of a directory (a link is none), the opening of it with its entries, and the removal. An entry is one
-- answer of readdir, with the bytes of the name and what the calls for its path answer.
mutual
  pub data Node : Type 0 where
    node : Bool → List Try → Bool → List Try → Entries → List Try → Node

  pub data Entries : Type 0 where
    no_more : Entries
    entry : List Try → Bytes → Node → Entries → Entries

-- A walk over a tree. `paths` are those that the server has removed or that were made here, the last one first.
pub record Walk : Type 0 where
  pub connection : Connection
  pub visited : ℕ
  pub paths : List Text

abbrev call_result : ℤ × ℕ → Walk → ℤ × Walk
call_result (rc, native_error) s =
    let c : Connection = s.connection in
    (rc, record s { connection = record c { native_error = native_error } })

abbrev pub call : List Try → Walk → ℤ × Walk
call calls s = call_result (retry calls s.connection.native_error) s

module _ (utf8 : Text → ℕ → Option Bytes) (wide : Bytes → Option Text)
    (cancel_set late : Bool) where
  abbrev pub fails_at : Walk → Bool × Walk
  fails_at s = (false, record s { connection = failed cancel_set late s.connection })

  -- rmdir or unlink.
  abbrev pub removes : Text → ℤ × Walk → Bool × Walk
  removes path (rc, s) =
      if is_zero rc then (true, record s { paths = path ∷ s.paths }) else fails_at s

  -- The end of a directory after its entries.
  abbrev pub after_entries : Text → List Try → Bool × Walk → Bool × Walk
  after_entries path removal (ok, s) =
      if ok
      then removes path (call removal s)
      else if s.connection.code == 0
      then fails_at s
      else (false, s)

  abbrev pub open_directory : Text → List Try → (Walk → Bool × Walk) → ℤ × Walk → Bool × Walk
  open_directory path removal entries (rc, s) =
      if is_zero rc then after_entries path removal (entries s) else fails_at s

  abbrev pub with_attributes :
      Text → Bool → List Try → List Try → (Walk → Bool × Walk) → ℤ × Walk → Bool × Walk
  with_attributes path is_directory opening removal entries (rc, s) =
      if not (is_zero rc)
      then fails_at s
      else if is_directory
      then open_directory path removal entries (call opening s)
      else removes path (call removal s)

  -- The path in UTF-8 is only what the calls get.
  abbrev pub with_path : Option Bytes → (Walk → Bool × Walk) → Walk → Bool × Walk
  with_path none visit s = fails_at (fails_at s).1
  with_path (some p) visit s = visit s

  abbrev pub visit_within : Bool → ℕ → Option Bytes → (Walk → Bool × Walk) → Walk → Bool × Walk
  visit_within stopped depth p visit s =
      if ltb 32 depth
      then fails_at s
      else (let s' : Walk = record s { visited = s.visited + 1 } in
          if ltb entry_limit (s.visited + 1) || stopped then fails_at s' else with_path p visit s')

  abbrev pub then_next : (Walk → Bool × Walk) → Bool × Walk → Bool × Walk
  then_next next (ok, s) = if ok then next s else (false, s)

  abbrev pub joined_child :
      Option Text → (Text → Walk → Bool × Walk) → (Walk → Bool × Walk) → Walk → Bool × Walk
  joined_child none child next s = (false, s)
  joined_child (some path) child next s = then_next next (child path s)

  abbrev pub joined_path : Text → Option Text → Option Text
  joined_path path none = none
  joined_path path (some name) = ssh_path_join path_cap path name

  abbrev pub is_dots : Bytes → Bool
  is_dots name = text_eq (c_str name) (codes ".") || text_eq (c_str name) (codes "..")

  -- One answer of readdir: none is the end, and no name is as long as its array.
  abbrev pub with_entry :
      Text → Bytes → (Text → Walk → Bool × Walk) → (Walk → Bool × Walk) → ℤ × Walk → Bool × Walk
  with_entry path bytes child next (negsuc n, s) = (false, s)
  with_entry path bytes child next (pos n, s) =
      if n == 0
      then (true, s)
      else if leb 2047 n
      then (false, s)
      else if is_dots (take n bytes)
      then next s
      else joined_child (joined_path path (wide (take n bytes))) child next s

  unfoldable mutual
    unfolding retry path_bytes failed

    pub delete_node : Node → Text → ℕ → Walk → Bool × Walk
    delete_node (node stopped stat is_directory opening entries removal) path depth s =
        visit_within stopped depth (path_bytes utf8 path)
          (λ s'.
            with_attributes path is_directory opening removal (delete_entries entries path depth)
              (call stat s'))
          s

    pub delete_entries : Entries → Text → ℕ → Walk → Bool × Walk
    delete_entries no_more path depth s = (true, s)
    delete_entries (entry read bytes child rest) path depth s =
        with_entry path bytes (λ joined. delete_node child joined (depth + 1))
          (delete_entries rest path depth) (call read s)

  abbrev pub begin : Connection → Walk
  begin c = record {
    connection = record c { phase = file; native_error = 0 };
    visited = 0;
    paths = [];
  }

  unfoldable pub delete_impl : Node → Text → Connection → Bool × Walk
  unfolding delete_node
  delete_impl n path c =
      if text_eq path (codes "/") then fails_at (begin c) else delete_node n path 0 (begin c)
