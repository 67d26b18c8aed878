-- ===== src/SshClient/Deletion/Reached.antt =====
-- platform/ssh_client.c: the paths that a deletion on the server may remove, and their number.
use nova_desktop.Base.{
  ℕ, ◌+◌, ◌≤◌, ◌≡◌, refl, inl, inr, arith, Bool-cases, Bool, true, false, ◌||◌, List, Option, none,
  some, ltb, leb, ◌==◌, if◌then◌else◌, ℤ, pos, negsuc, length, take, All,
}
use nova_desktop.Text.{Text}
use nova_desktop.ServerProfile.{ssh_path_join, path_cap}
use nova_desktop.SshClient.{Bytes, Try, is_zero, failed}
use nova_desktop.SshClient.Names.{path_bytes}
use nova_desktop.SshClient.Deletion.{
  entry_limit, Node, node, Entries, no_more, entry, Walk, call, fails_at, removes, after_entries,
  open_directory, with_attributes, with_path, visit_within, then_next, joined_child, joined_path,
  is_dots, with_entry, delete_node, delete_entries,
}

-- A path that is reached from `root` by joining names, so many of them.
pub data Under (root : Text) : ℕ → Text → Type 0 where
  here : Under root 0 root
  inside :
      {depth : ℕ} {path : Text} (name joined : Text)
      → Under root depth path
      → ssh_path_join path_cap path name ≡ some joined
      → Under root (depth + 1) joined

-- No more than 32 names under the root.
abbrev pub Reached : Text → Text → Type 0
Reached root path = (depth : ℕ) × (depth ≤ 32) × Under root depth path

-- Only such paths are removed, and `pending` of the visited ones are not yet.
abbrev pub Kept : Text → ℕ → Walk → Type 0
Kept root pending s =
    All (Reached root) s.paths
    × (length s.paths + pending ≤ s.visited)
    × (length s.paths + pending ≤ entry_limit)

fewer : (root : Text) (k : ℕ) (s : Walk) → Kept root (k + 1) s → Kept root k s
fewer root k s (all, some_left, within) = (all, omega (arith, some_left), omega (arith, within))

module _ (utf8 : Text → ℕ → Option Bytes) (wide : Bytes → Option Text) (cancel_set late : Bool)
    (root : Text) where
  abbrev Steps : ℕ → ℕ → (Walk → Bool × Walk) → Type 0
  Steps k k' f = (s : Walk) → Kept root k s → Kept root k' (f s).1

  fails_at-Kept : (k : ℕ) → Steps k k (fails_at utf8 wide cancel_set late)
  unfolding failed
  fails_at-Kept k s h = h

  removes-Kept :
      (k : ℕ) (path : Text) (x : ℤ × Walk)
      → Reached root path
      → Kept root (k + 1) x.1
      → Kept root k (removes utf8 wide cancel_set late path x).1
  removes-Kept k path (rc, s) reached (all, some_left, within) = elim (Bool-cases (is_zero rc)) [
    | inl gone ↦ rw gone ((reached, all), omega (arith, some_left), omega (arith, within))
    | inr left ↦ rw left (fails_at-Kept k s (fewer root k s (all, some_left, within)))
  ]

  after_entries-Kept :
      (k : ℕ) (path : Text) (removal : List Try) (x : Bool × Walk)
      → Reached root path
      → Kept root (k + 1) x.1
      → Kept root k (after_entries utf8 wide cancel_set late path removal x).1
  after_entries-Kept k path removal (true, s) reached h =
      removes-Kept k path (call removal s) reached h
  after_entries-Kept k path removal (false, s) reached h =
      elim (Bool-cases (s.connection.code == 0)) [
        | inl first ↦ rw first (fails_at-Kept k s (fewer root k s h))
        | inr told ↦ rw told (fewer root k s h)
      ]

  open_directory-Kept :
      (k : ℕ) (path : Text) (removal : List Try) (entries : Walk → Bool × Walk) (x : ℤ × Walk)
      → Reached root path
      → Steps (k + 1) (k + 1) entries
      → Kept root (k + 1) x.1
      → Kept root k (open_directory utf8 wide cancel_set late path removal entries x).1
  open_directory-Kept k path removal entries (rc, s) reached steps h =
      elim (Bool-cases (is_zero rc)) [
        | inl opened ↦ rw opened (after_entries-Kept k path removal (entries s) reached (steps s h))
        | inr closed ↦ rw closed (fails_at-Kept k s (fewer root k s h))
      ]

  with_attributes-Kept :
      (k : ℕ) (path : Text) (is_directory : Bool) (opening removal : List Try)
      (entries : Walk → Bool × Walk) (x : ℤ × Walk)
      → Reached root path
      → Steps (k + 1) (k + 1) entries
      → Kept root (k + 1) x.1
      → Kept root k
          (with_attributes utf8 wide cancel_set late path is_directory opening removal entries x).1
  with_attributes-Kept k path is_directory opening removal entries (rc, s) reached steps h =
      elim (Bool-cases (is_zero rc)) [
        | inr unknown ↦ rw unknown (fails_at-Kept k s (fewer root k s h))
        | inl known ↦ rw known (by_kind is_directory)
      ]
    where
      by_kind :
          (b : Bool)
          → Kept root k
              (if b
                then open_directory utf8 wide cancel_set late path removal entries (call opening s)
                else removes utf8 wide cancel_set late path (call removal s)).1
      by_kind true = open_directory-Kept k path removal entries (call opening s) reached steps h
      by_kind false = removes-Kept k path (call removal s) reached h

  with_path-Kept :
      (k : ℕ) (p : Option Bytes) (visit : Walk → Bool × Walk)
      → Steps (k + 1) k visit
      → Steps (k + 1) k (with_path utf8 wide cancel_set late p visit)
  with_path-Kept k none visit steps s h =
      fails_at-Kept k (fails_at utf8 wide cancel_set late s).1
        (fails_at-Kept k s (fewer root k s h))
  with_path-Kept k (some p) visit steps s h = steps s h

  visit_within-Kept :
      (k depth : ℕ) (stopped : Bool) (p : Option Bytes) (visit : Walk → Bool × Walk)
      → (depth ≤ 32 → Steps (k + 1) k visit)
      → Steps k k (visit_within utf8 wide cancel_set late stopped depth p visit)
  visit_within-Kept k depth stopped p visit steps s (all, some_left, within) =
      elim (Bool-cases (ltb 32 depth)) [
        | inl deep ↦ rw deep (fails_at-Kept k s (all, some_left, within))
        | inr shallow ↦
            let s' : Walk = record s { visited = s.visited + 1 } in
            elim (Bool-cases (ltb entry_limit (s.visited + 1) || stopped)) [
              | inl over ↦
                  rw (shallow, over) (fails_at-Kept k s' (all, omega (arith, some_left), within))
              | inr room ↦
                  rw (shallow, room)
                    (with_path-Kept k p visit (steps (ground (arith, shallow))) s'
                      (all, omega (arith, some_left), ground (arith, some_left, room)))
            ]
      ]

  then_next-Kept :
      (k : ℕ) (next : Walk → Bool × Walk) (x : Bool × Walk)
      → Steps k k next
      → Kept root k x.1
      → Kept root k (then_next utf8 wide cancel_set late next x).1
  then_next-Kept k next (true, s) steps h = steps s h
  then_next-Kept k next (false, s) steps h = h

  joined_child-Kept :
      (k : ℕ) (o : Option Text) (child : Text → Walk → Bool × Walk) (next : Walk → Bool × Walk)
      → ((path : Text) → o ≡ some path → Steps k k (child path))
      → Steps k k next
      → Steps k k (joined_child utf8 wide cancel_set late o child next)
  joined_child-Kept k none child next first rest s h = h
  joined_child-Kept k (some path) child next first rest s h =
      then_next-Kept k next (child path s) rest (first path refl s h)

  joined_path-Under :
      (depth : ℕ) (path : Text) (name : Option Text) (joined : Text)
      → Under root depth path
      → joined_path utf8 wide cancel_set late path name ≡ some joined
      → Under root (depth + 1) joined
  joined_path-Under depth path none joined under h = absurd (ground arith)
  joined_path-Under depth path (some name) joined under h = inside name joined under h

  with_entry-Kept :
      (k : ℕ) (path : Text) (bytes : Bytes) (child : Text → Walk → Bool × Walk)
      (next : Walk → Bool × Walk) (x : ℤ × Walk)
      → ((name : Option Text) (joined : Text)
          → joined_path utf8 wide cancel_set late path name ≡ some joined
          → Steps k k (child joined))
      → Steps k k next
      → Kept root k x.1
      → Kept root k (with_entry utf8 wide cancel_set late path bytes child next x).1
  with_entry-Kept k path bytes child next (negsuc n, s) first rest h = h
  with_entry-Kept k path bytes child next (pos n, s) first rest h = elim (Bool-cases (n == 0)) [
    | inl ended ↦ rw ended h
    | inr more ↦ elim (Bool-cases (leb 2047 n)) [
      | inl long ↦ rw (more, long) h
      | inr fits ↦ elim (Bool-cases (is_dots utf8 wide cancel_set late (take n bytes))) [
        | inl dots ↦ rw (more, fits, dots) (rest s h)
        | inr named ↦
            rw (more, fits, named)
              (joined_child-Kept k
                (joined_path utf8 wide cancel_set late path (wide (take n bytes))) child next
                (λ joined e. first (wide (take n bytes)) joined e) rest s h)
      ]
    ]
  ]

  mutual
    unfolding delete_node

    pub delete_node-Kept :
        (n : Node) (path : Text) (depth k : ℕ)
        → Under root depth path
        → Steps k k (delete_node utf8 wide cancel_set late n path depth)
    delete_node-Kept (node stopped stat is_directory opening entries removal) path depth k under s
          h =
        visit_within-Kept k depth stopped (path_bytes utf8 path) _
          (λ shallow s' h'.
            with_attributes-Kept k path is_directory opening removal
              (delete_entries utf8 wide cancel_set late entries path depth) (call stat s')
              (depth, shallow, under) (delete_entries-Kept entries path depth (k + 1) under) h')
          s h

    delete_entries-Kept :
        (entries : Entries) (path : Text) (depth k : ℕ)
        → Under root depth path
        → Steps k k (delete_entries utf8 wide cancel_set late entries path depth)
    delete_entries-Kept no_more path depth k under s h = h
    delete_entries-Kept (entry read bytes child rest) path depth k under s h =
        with_entry-Kept k path bytes
          (λ joined. delete_node utf8 wide cancel_set late child joined (depth + 1)) _ (call read s)
          (λ name joined e.
            delete_node-Kept child joined (depth + 1) k
              (joined_path-Under depth path name joined under e))
          (delete_entries-Kept rest path depth k under) h
