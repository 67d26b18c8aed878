-- ===== src/SshClient/Download/Parts.antt =====
-- platform/ssh_client.c: what each part of a download keeps of the paths that were made.
use nova_desktop.Base.{
  ℕ, ◌+◌, ◌≤◌, ◌≡◌, refl, inl, inr, arith, Bool-cases, Bool, true, false, ◌||◌, not, List, ◌∷◌,
  ◌++◌, Option, none, some, ltb, leb, ◌==◌, if◌then◌else◌, ℤ, pos, negsuc, length, take, All,
}
use nova_desktop.Text.{Text}
use nova_desktop.ServerProfile.{ssh_path_join, path_cap}
use nova_desktop.SshClient.{Bytes, Try, is_zero, failed}
use nova_desktop.SshClient.Names.{local_join, local_join_lem, IsSafe}
use nova_desktop.SshClient.Deletion.{entry_limit, Walk, call, then_next, is_dots}
use nova_desktop.SshClient.Transfer.{Incoming, Calls}
use nova_desktop.SshClient.Download.{
  Kind, link, directory, other, fail, makes, after_entries, open_directory, make_directory,
  make_file, with_kind, with_attributes, with_path, visit_within, both_joined, entry_paths,
  with_child, with_entry,
}

-- A path under `root` by names that are one component each and no devices, so many of them.
pub data Within (upper : ℕ → ℕ) (root : Text) : ℕ → Text → Type 0 where
  here : Within upper root 0 root
  inside :
      {depth : ℕ} {path : Text} (name : Text)
      → Within upper root depth path
      → IsSafe upper name
      → Within upper root (depth + 1) (path ++ b'\\' ∷ name)

abbrev pub Lands : (ℕ → ℕ) → Text → Text → Type 0
Lands upper root path = (depth : ℕ) × (depth ≤ 32) × Within upper root depth path

module _ (upper : ℕ → ℕ) (utf8 : Text → ℕ → Option Bytes) (wide : Bytes → Option Text)
    (cancel_set late : Bool) (root : Text) where
  -- Only such paths are made, `pending` fewer than are visited.
  abbrev pub Made : ℕ → Walk → Type 0
  Made pending s =
      All (Lands upper root) s.paths
      × (length s.paths + pending ≤ s.visited)
      × (length s.paths + pending ≤ entry_limit)

  abbrev pub Steps : ℕ → ℕ → (Walk → Bool × Walk) → Type 0
  Steps k k' f = (s : Walk) → Made k s → Made k' (f s).1

  settled : (s : Walk) → Made 1 s → Made 0 s
  settled s (all, some_left, within) = (all, omega (arith, some_left), omega (arith, within))

  fail-Made : (k : ℕ) → Steps k k (fail upper utf8 wide cancel_set late)
  unfolding failed
  fail-Made k s h = h

  makes-Made :
      (local : Text) (s : Walk)
      → Lands upper root local
      → Made 1 s
      → Made 0 (makes upper utf8 wide cancel_set late local s)
  makes-Made local s lands (all, some_left, within) =
      ((lands, all), omega (arith, some_left), omega (arith, within))

  open_directory-Made :
      (entries : Walk → Bool × Walk) (x : ℤ × Walk)
      → Steps 0 0 entries
      → Made 0 x.1
      → Made 0 (open_directory upper utf8 wide cancel_set late entries x).1
  open_directory-Made entries (rc, s) steps h = elim (Bool-cases (is_zero rc)) [
    | inl opened ↦ rw opened (after (entries s) (steps s h))
    | inr closed ↦ rw closed (fail-Made 0 s h)
  ]
    where
      after :
          (x : Bool × Walk)
          → Made 0 x.1
          → Made 0 (after_entries upper utf8 wide cancel_set late x).1
      after (true, s') h' = h'
      after (false, s') h' = fail-Made 0 s' h'

  pub make_directory-Made :
      (local : Text) (creates : Bool) (opening : List Try) (entries : Walk → Bool × Walk)
      → Lands upper root local
      → Steps 0 0 entries
      → Steps 1 0 (make_directory upper utf8 wide cancel_set late local creates opening entries)
  make_directory-Made local true opening entries lands steps s h =
      open_directory-Made entries (call opening (makes upper utf8 wide cancel_set late local s))
        steps (makes-Made local s lands h)
  make_directory-Made local false opening entries lands steps s h = fail-Made 0 s (settled s h)

  pub make_file-Made :
      (local : Text) (before : Option Bytes) (rounds : List Incoming) (o : Calls)
      → Lands upper root local
      → Steps 1 0 (make_file upper utf8 wide cancel_set late local before rounds o)
  make_file-Made local (some content) rounds o lands s h = settled s h
  make_file-Made local none rounds o lands s h = made o.opens_local
    where
      made : (b : Bool) → Made 0 (if b then makes upper utf8 wide cancel_set late local s else s)
      made true = makes-Made local s lands h
      made false = settled s h

  pub with_attributes-Made :
      (kind : Kind) (into file : Walk → Bool × Walk) (x : ℤ × Walk)
      → Steps 1 0 into
      → Steps 1 0 file
      → Made 1 x.1
      → Made 0 (with_attributes upper utf8 wide cancel_set late kind into file x).1
  with_attributes-Made kind into file (rc, s) first second h = elim (Bool-cases (is_zero rc)) [
    | inr unknown ↦ rw unknown (fail-Made 0 s (settled s h))
    | inl known ↦ rw known (by_kind kind)
  ]
    where
      by_kind :
          (kind' : Kind) → Made 0 (with_kind upper utf8 wide cancel_set late kind' into file s).1
      by_kind link = fail-Made 0 s (settled s h)
      by_kind directory = first s h
      by_kind other = second s h

  with_path-Made :
      (p : Option Bytes) (visit : Walk → Bool × Walk)
      → Steps 1 0 visit
      → Steps 1 0 (with_path upper utf8 wide cancel_set late p visit)
  with_path-Made none visit steps s h = fail-Made 0 s (settled s h)
  with_path-Made (some p) visit steps s h = steps s h

  pub visit_within-Made :
      (is_named stopped : Bool) (depth : ℕ) (p : Option Bytes) (visit : Walk → Bool × Walk)
      → (depth ≤ 32 → Steps 1 0 visit)
      → Steps 0 0 (visit_within upper utf8 wide cancel_set late is_named stopped depth p visit)
  visit_within-Made is_named stopped depth p visit steps s (all, some_left, within) =
      elim (Bool-cases (not is_named || ltb 32 depth)) [
        | inl refused ↦ rw refused (fail-Made 0 s (all, some_left, within))
        | inr shallow ↦
            let s' : Walk = record s { visited = s.visited + 1 } in
            elim (Bool-cases (ltb entry_limit (s.visited + 1) || stopped)) [
              | inl over ↦
                  rw (shallow, over) (fail-Made 0 s' (all, omega (arith, some_left), within))
              | inr room ↦
                  rw (shallow, room)
                    (with_path-Made p visit (steps (ground (arith, shallow))) s'
                      (all, omega (arith, some_left), ground (arith, some_left, room)))
            ]
      ]

  then_next-Made :
      (next : Walk → Bool × Walk) (x : Bool × Walk)
      → Steps 0 0 next
      → Made 0 x.1
      → Made 0 (then_next utf8 wide cancel_set late next x).1
  then_next-Made next (true, s) steps h = steps s h
  then_next-Made next (false, s) steps h = h

  with_child-Made :
      (paths : Option (Text × Text)) (child : Text → Text → Walk → Bool × Walk)
      (next : Walk → Bool × Walk)
      → ((local remote : Text) → paths ≡ some (local, remote) → Steps 0 0 (child local remote))
      → Steps 0 0 next
      → Steps 0 0 (with_child upper utf8 wide cancel_set late paths child next)
  with_child-Made none child next first rest s h = h
  with_child-Made (some (local, remote)) child next first rest s h =
      then_next-Made next (child local remote s) rest (first local remote refl s h)

  both_joined-local :
      (x y : Option Text) (l r : Text)
      → both_joined upper utf8 wide cancel_set late x y ≡ some (l, r)
      → x ≡ some l
  both_joined-local none y l r h = absurd (ground arith)
  both_joined-local (some local) none l r h = absurd (ground arith)
  both_joined-local (some local) (some remote) l r h = ground arith

  pub entry_paths-Within :
      (depth : ℕ) (local remote : Text) (name : Option Text) (l r : Text)
      → Within upper root depth local
      → entry_paths upper utf8 wide cancel_set late local remote name ≡ some (l, r)
      → Within upper root (depth + 1) l
  entry_paths-Within depth local remote none l r inner h = absurd (ground arith)
  entry_paths-Within depth local remote (some name) l r inner h =
      let joined : (local_join upper local name ≡ some l) =
        both_joined-local (local_join upper local name) (ssh_path_join path_cap remote name) l r
          h in
      let (eq, short, safe) = local_join_lem upper local name l joined in
      rw eq (inside name inner safe)

  pub with_entry-Made :
      (local remote : Text) (bytes : Bytes) (child : Text → Text → Walk → Bool × Walk)
      (next : Walk → Bool × Walk) (x : ℤ × Walk)
      → ((name : Option Text) (l r : Text)
          → entry_paths upper utf8 wide cancel_set late local remote name ≡ some (l, r)
          → Steps 0 0 (child l r))
      → Steps 0 0 next
      → Made 0 x.1
      → Made 0 (with_entry upper utf8 wide cancel_set late local remote bytes child next x).1
  with_entry-Made local remote bytes child next (negsuc n, s) first rest h = h
  with_entry-Made local remote bytes child next (pos n, s) first rest h =
      elim (Bool-cases (n == 0)) [
        | inl ended ↦ rw ended h
        | inr more ↦ elim (Bool-cases (leb 2047 n)) [
          | inl long ↦ rw (more, long) h
          | inr fits ↦ elim (Bool-cases (is_dots utf8 wide cancel_set late (take n bytes))) [
            | inl dots ↦ rw (more, fits, dots) (rest s h)
            | inr named ↦
                rw (more, fits, named)
                  (with_child-Made
                    (entry_paths upper utf8 wide cancel_set late local remote (wide (take n bytes)))
                    child next (λ l r e. first (wide (take n bytes)) l r e) rest s h)
          ]
        ]
      ]
