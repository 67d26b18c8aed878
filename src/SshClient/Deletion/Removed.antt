-- ===== src/SshClient/Deletion/Removed.antt =====
-- platform/ssh_client.c: what delete_impl has removed when it ends, with and without success.
use nova_desktop.Base.{
  ℕ, ◌+◌, ◌≤◌, ◌≡◌, refl, ◌⊎◌, inl, inr, arith, Bool-cases, Bool, true, false, ◌||◌, List, [], ◌∷◌,
  Option, none, some, ltb, ◌==◌, ℤ, length, All,
}
use nova_desktop.Text.{Text, text_eq, codes}
use nova_desktop.SshClient.{Bytes, Connection, Try, is_zero}
use nova_desktop.SshClient.Names.{path_bytes}
use nova_desktop.SshClient.Deletion.{
  entry_limit, Node, node, Walk, call, removes, after_entries, open_directory, with_attributes,
  with_path, visit_within, delete_node, delete_entries, begin, delete_impl,
}
use nova_desktop.SshClient.Deletion.Reached.{here, Reached, delete_node-Kept}

module _ (utf8 : Text → ℕ → Option Bytes) (wide : Bytes → Option Text) (cancel_set late : Bool)
    (root : Text) where
  -- What succeeds has removed the path itself, last.
  abbrev Ends : Text → Bool × Walk → Type 0
  Ends path (ok, s) = (ok ≡ false) ⊎ ((rest : List Text) × (s.paths ≡ path ∷ rest))

  removes-Ends : (path : Text) (x : ℤ × Walk) → Ends path (removes utf8 wide cancel_set late path x)
  removes-Ends path (rc, s) = elim (Bool-cases (is_zero rc)) [
    | inl gone ↦ rw gone (inr (s.paths, refl))
    | inr left ↦ rw left (inl refl)
  ]

  after_entries-Ends :
      (path : Text) (removal : List Try) (x : Bool × Walk)
      → Ends path (after_entries utf8 wide cancel_set late path removal x)
  after_entries-Ends path removal (true, s) = removes-Ends path (call removal s)
  after_entries-Ends path removal (false, s) = elim (Bool-cases (s.connection.code == 0)) [
    | inl first ↦ rw first (inl refl)
    | inr told ↦ rw told (inl refl)
  ]

  open_directory-Ends :
      (path : Text) (removal : List Try) (entries : Walk → Bool × Walk) (x : ℤ × Walk)
      → Ends path (open_directory utf8 wide cancel_set late path removal entries x)
  open_directory-Ends path removal entries (rc, s) = elim (Bool-cases (is_zero rc)) [
    | inl opened ↦ rw opened (after_entries-Ends path removal (entries s))
    | inr closed ↦ rw closed (inl refl)
  ]

  with_attributes-Ends :
      (path : Text) (is_directory : Bool) (opening removal : List Try)
      (entries : Walk → Bool × Walk) (x : ℤ × Walk)
      → Ends path
          (with_attributes utf8 wide cancel_set late path is_directory opening removal entries x)
  with_attributes-Ends path is_directory opening removal entries (rc, s) =
      elim (Bool-cases (is_zero rc)) [
        | inr unknown ↦ rw unknown (inl refl)
        | inl known ↦ elim (Bool-cases is_directory) [
          | inl directory ↦
              rw (known, directory) (open_directory-Ends path removal entries (call opening s))
          | inr other ↦ rw (known, other) (removes-Ends path (call removal s))
        ]
      ]

  with_path-Ends :
      (path : Text) (p : Option Bytes) (visit : Walk → Bool × Walk) (s : Walk)
      → ((s' : Walk) → Ends path (visit s'))
      → Ends path (with_path utf8 wide cancel_set late p visit s)
  with_path-Ends path none visit s ends = inl refl
  with_path-Ends path (some p) visit s ends = ends s

  visit_within-Ends :
      (path : Text) (stopped : Bool) (depth : ℕ) (p : Option Bytes) (visit : Walk → Bool × Walk)
      (s : Walk)
      → ((s' : Walk) → Ends path (visit s'))
      → Ends path (visit_within utf8 wide cancel_set late stopped depth p visit s)
  visit_within-Ends path stopped depth p visit s ends = elim (Bool-cases (ltb 32 depth)) [
    | inl deep ↦ rw deep (inl refl)
    | inr shallow ↦ elim (Bool-cases (ltb entry_limit (s.visited + 1) || stopped)) [
      | inl over ↦ rw (shallow, over) (inl refl)
      | inr room ↦
          rw (shallow, room)
            (with_path-Ends path p visit (record s { visited = s.visited + 1 }) ends)
    ]
  ]

  delete_node-Ends :
      (n : Node) (path : Text) (depth : ℕ) (s : Walk)
      → Ends path (delete_node utf8 wide cancel_set late n path depth s)
  unfolding delete_node
  delete_node-Ends (node stopped stat is_directory opening entries removal) path depth s =
      visit_within-Ends path stopped depth (path_bytes utf8 path) _ s (λ s'.
        with_attributes-Ends path is_directory opening removal
          (delete_entries utf8 wide cancel_set late entries path depth) (call stat s'))

  -- What a deletion of `root` leaves, with TRUE or FALSE.
  pub IsDeleted : Bool × Walk → Type 0
  IsDeleted (ok, s) =
      (length s.paths ≤ entry_limit)
      × All (Reached root) s.paths
      × ((text_eq root (codes "/") ≡ false) ⊎ (s.paths ≡ []))
      × ((ok ≡ false) ⊎ ((rest : List Text) × (s.paths ≡ root ∷ rest)))

  -- Whatever the server answers, delete_impl removes only the path it is given and paths reached from it by joining at most
  -- 32 names, at most 10000 in all, and nothing where the path is the root directory; and where it succeeds the path
  -- itself was removed last.
  pub delete_impl_lem :
      (n : Node) (c : Connection) → IsDeleted (delete_impl utf8 wide cancel_set late n root c)
  unfolding delete_impl IsDeleted
  delete_impl_lem n c = elim (Bool-cases (text_eq root (codes "/"))) [
    | inl top ↦ rw top (omega arith, tt, inr refl, inl refl)
    | inr below ↦
        let s : Walk = begin utf8 wide cancel_set late c in
        let (all, some_left, within) =
          delete_node-Kept utf8 wide cancel_set late root n root 0 0 here s
            (tt, omega arith, omega arith) in
        rw below (omega (arith, within), all, inl refl, delete_node-Ends n root 0 s)
  ]
