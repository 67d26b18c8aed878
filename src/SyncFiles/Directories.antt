-- ===== src/SyncFiles/Directories.antt =====
-- platform/sync_files.c: the directories that sy_mkdirs makes.
use nova_desktop.Base.{
  Bool, true, false, ◌||◌, List, [], ◌∷◌, Option, none, some, ltb, leb, if◌then◌else◌, length, take,
  drop, All, ◌≡◌, refl, arith, ap, sym, subst, Bool-cases, inl, inr,
}
use nova_desktop.Text.{Text, text_eq, text_eq_iff}
use nova_desktop.SyncModel.{sync_path_cap}
use nova_desktop.SyncFiles.{
  Attributes, Files, Creation, created, fails, exists, new_directory, set_path, is_directory,
  after_creation, made, if_directory, make_directory, prefixes, and_then, make_all, sy_mkdirs,
}

-- A directory stays one.
abbrev Stays : Files → Files → Type 0
Stays files files' = (q : Text) → is_directory (files q) ≡ true → is_directory (files' q) ≡ true

set_path-Stays :
    (path : Text) (a : Option Attributes) (files : Files)
    → files path ≡ none
    → Stays files (set_path path a files)
set_path-Stays path a files free q h = elim (Bool-cases (text_eq q path)) [
  | inl e ↦
      let p : q ≡ path = (text_eq_iff q path).0 e in
      let n : files q ≡ none = rw p free in
      let never : false ≡ true = subst (λ x. is_directory x ≡ true) n h in absurd (ground arith)
  | inr e ↦ rw e h
]

after_creation-Stays :
    (path : Text) (creation : Creation) (files files' : Files)
    → files path ≡ none
    → after_creation path creation files ≡ some files'
    → Stays files files'
after_creation-Stays path created files files' free h =
    let e : set_path path (some new_directory) files ≡ files' = cc in
    rw (sym e) (set_path-Stays path (some new_directory) files free)
after_creation-Stays path fails files files' free h = ground arith
after_creation-Stays path (exists a) files files' free h =
    let e : set_path path a files ≡ files' = cc in rw (sym e) (set_path-Stays path a files free)

made-Stays :
    (path : Text) (found : Option Attributes) (creation : Creation) (files files' : Files)
    → files path ≡ found
    → made path found creation files ≡ some files'
    → Stays files files'
made-Stays path (some a) creation files files' e h q d =
    let same : files ≡ files' = cc in rw (sym same) d
made-Stays path none creation files files' e h q d =
    after_creation-Stays path creation files files' e h q d

if_some : (b : Bool) (x y : Files) → (if b then some x else none) ≡ some y → (b ≡ true) × (x ≡ y)
if_some true x y h = (refl, (let e : x ≡ y = cc in e))
if_some false x y h = ground arith

if_none :
    (b : Bool) (x : Option Files) (y : Files)
    → (if b then none else x) ≡ some y
    → (b ≡ false) × (x ≡ some y)
if_none true x y h = ground arith
if_none false x y h = (refl, h)

if_directory_lem :
    (path : Text) (x : Option Files) (files' : Files)
    → if_directory path x ≡ some files'
    → (x ≡ some files') × (is_directory (files' path) ≡ true)
if_directory_lem path none files' h = ground arith
if_directory_lem path (some files) files' h =
    let (found, same) = if_some (is_directory (files path)) files files' h in
    (ap some same, rw (sym same) found)

make_directory_lem :
    (creation : Text → Creation) (path : Text) (files files' : Files)
    → make_directory creation path files ≡ some files'
    → Stays files files' × (is_directory (files' path) ≡ true)
unfolding make_directory
make_directory_lem creation path files files' h =
    let (eq, found) =
      if_directory_lem path (made path (files path) (creation path) files) files' h in
    (made-Stays path (files path) (creation path) files files' refl eq, found)

and_then-some :
    (f : Files → Option Files) (x : Option Files) (files' : Files)
    → and_then f x ≡ some files'
    → (files : Files) × (x ≡ some files) × (f files ≡ some files')
and_then-some f none files' h = ground arith
and_then-some f (some files) files' h = (files, refl, h)

abbrev AllDirectories : Files → List Text → Type 0
AllDirectories files paths = All (λ p. is_directory (files p) ≡ true) paths

make_all_lem :
    (creation : Text → Creation) (paths : List Text) (files files' : Files)
    → make_all creation paths files ≡ some files'
    → Stays files files' × AllDirectories files' paths
unfolding make_all
make_all_lem creation [] files files' h =
    (λ q d. let same : files ≡ files' = cc in rw (sym same) d, tt)
make_all_lem creation (path ∷ paths) files files' h =
    let (between, first, rest) =
      and_then-some (make_all creation paths) (make_directory creation path files) files' h in
    let (stays, found) = make_directory_lem creation path files between first in
    let (stays', found') = make_all_lem creation paths between files' rest in
    (λ q d. stays' q (stays q d), (stays' path found, found'))

-- Where sy_mkdirs is TRUE, the path and all that lead to it are directories and no reparse points, whatever
-- CreateDirectoryW did, and the path is short enough for its array.
pub sy_mkdirs_lem :
    (creation : Text → Creation) (path : Text) (files files' : Files)
    → sy_mkdirs creation path files ≡ some files'
    → (leb sync_path_cap (length path) ≡ false)
      × All (λ p. is_directory (files' p) ≡ true) (prefixes (take 3 path) (drop 3 path))
unfolding sy_mkdirs
sy_mkdirs_lem creation path files files' h =
    let (fits, all) =
      if_none (leb sync_path_cap (length path) || ltb (length path) 3)
        (make_all creation (prefixes (take 3 path) (drop 3 path)) files) files' h in
    let (stays, found) =
      make_all_lem creation (prefixes (take 3 path) (drop 3 path)) files files' all in
    (ground (arith, fits), found)
