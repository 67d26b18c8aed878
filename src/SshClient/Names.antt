-- ===== src/SshClient/Names.antt =====
-- platform/ssh_client.c: names and paths on both sides of a transfer. A downloaded name becomes a file name of Windows only
-- where it is safe as one.
use nova_desktop.Base.{
  ℕ, ◌+◌, ◌-◌, ◌*◌, ◌<◌, Bool, true, false, ◌&&◌, ◌||◌, not, List, [], ◌∷◌, ◌++◌, Option, none,
  some, ltb, leb, ◌==◌, if◌then◌else◌, length, take, map, ◌≡◌, ◌≢◌, arith, length-append,
  length-map, All, refl, sym, subst, ◌∙◌,
}
use nova_desktop.Text.{Text, codes, text_eq, text_eq_iff, has_any, first}
use nova_desktop.ServerProfile.{path_cap}
use nova_desktop.SshClient.{Bytes}

abbrev pub max_path : ℕ
max_path = 260

abbrev pub last : Text → ℕ
last [] = 0
last (c ∷ []) = c
last (c ∷ d ∷ cs) = last (d ∷ cs)

unfoldable pub has_control : Text → Bool
has_control [] = false
has_control (c ∷ cs) = if ltb c 32 then true else has_control cs

-- `wcscspn(name,L".")` characters.
unfoldable pub stem_of : Text → Text
stem_of [] = []
stem_of (c ∷ cs) = if c == b'.' then [] else c ∷ stem_of cs

abbrev any_of : Text → List Text → Bool
any_of t [] = false
any_of t (s ∷ ss) = if text_eq t s then true else any_of t ss

-- The names of devices, in upper case.
unfoldable pub is_device : Text → Bool
unfolding text_eq
is_device stem =
    any_of stem (
      codes "CON" ∷ codes "PRN" ∷ codes "AUX" ∷ codes "NUL" ∷ codes "CONIN$" ∷ codes "CONOUT$" ∷ [])
    || length stem == 4
      && any_of (take 3 stem) (codes "COM" ∷ codes "LPT" ∷ [])
      && leb b'0' (last stem)
      && leb (last stem) b'9'

-- CharUpperBuffW is `upper` for each character.
unfoldable pub local_name_valid : (ℕ → ℕ) → Text → Bool
unfolding has_any text_eq has_control stem_of is_device
local_name_valid upper name =
    not (length name == 0)
    && not (has_any name (codes "\\/:*?\"<>|"))
    && not (text_eq name (codes "."))
    && not (text_eq name (codes ".."))
    && not (last name == b'.' || last name == b' ')
    && not (has_control name)
    && not (ltb (length (stem_of name)) 8 && is_device (map upper (stem_of name)))

unfoldable pub local_join : (ℕ → ℕ) → Text → Text → Option Text
unfolding local_name_valid
local_join upper base name =
    if not (local_name_valid upper name) || leb max_path (length base + length name + 2)
    then none
    else some (base ++ b'\\' ∷ name)

-- FALSE is a failure of the operation.
unfoldable pub path_bytes : (Text → ℕ → Option Bytes) → Text → Option Bytes
path_bytes utf8 path =
    if first path == b'/' && ltb (length path) (path_cap - 40)
    then utf8 path (path_cap * 4)
    else none

-- The names of devices that the code knows.
abbrev pub device_names : List Text
device_names =
    codes "CON"
    ∷ codes "PRN"
    ∷ codes "AUX"
    ∷ codes "NUL"
    ∷ codes "CONIN$"
    ∷ codes "CONOUT$"
    ∷ codes "COM0"
    ∷ codes "COM1"
    ∷ codes "COM2"
    ∷ codes "COM3"
    ∷ codes "COM4"
    ∷ codes "COM5"
    ∷ codes "COM6"
    ∷ codes "COM7"
    ∷ codes "COM8"
    ∷ codes "COM9"
    ∷ codes "LPT0"
    ∷ codes "LPT1"
    ∷ codes "LPT2"
    ∷ codes "LPT3"
    ∷ codes "LPT4"
    ∷ codes "LPT5"
    ∷ codes "LPT6"
    ∷ codes "LPT7"
    ∷ codes "LPT8"
    ∷ codes "LPT9"
    ∷ []

-- A name that is one component of a path, stands for itself, and has none of these names up to its first dot.
abbrev pub IsSafe : (ℕ → ℕ) → Text → Type 0
IsSafe upper name =
    (has_any name (codes "\\/:*?\"<>|") ≡ false)
    × (name ≢ codes ".")
    × (name ≢ codes "..")
    × (last name ≢ b'.')
    × (last name ≢ b' ')
    × (has_control name ≡ false)
    × All (λ device. map upper (stem_of name) ≢ device) device_names

differ : (a b : Text) → text_eq a b ≡ false → a ≢ b
differ a b h e = let same : text_eq a b ≡ true = (text_eq_iff a b).1 e in absurd (ground arith)

all_hold :
    (a b c d e e' f g : Bool)
    → (not a && not b && not c && not d && not (e || e') && not f && not g) ≡ true
    → (b ≡ false)
      × (c ≡ false)
      × (d ≡ false)
      × (e ≡ false)
      × (e' ≡ false)
      × (f ≡ false)
      × (g ≡ false)
all_hold a b c d e e' f g h = ground arith

other_end : (a b : ℕ) → (a == b) ≡ false → a ≢ b
other_end a b h e = absurd (ground (arith, e))

-- The test of the code finds each of the names.
abbrev is_found : Text → Bool
is_found device = ltb (length device) 8 && is_device device

abbrev all_found : List Text → Bool
all_found [] = true
all_found (d ∷ ds) = is_found d && all_found ds

known_devices : all_found device_names ≡ true
unfolding is_device text_eq
known_devices = refl

no_device :
    (upper : ℕ → ℕ) (stem : Text) (ds : List Text)
    → (ltb (length stem) 8 && is_device (map upper stem)) ≡ false
    → all_found ds ≡ true
    → All (λ device. map upper stem ≢ device) ds
no_device upper stem [] h all = tt
no_device upper stem (d ∷ ds) h all = (
  (λ e.
      let found : is_found (map upper stem) ≡ true =
        subst (λ t. is_found t ≡ true) (sym e) (ground arith) in
      let size = length-map upper stem in
      let same : (ltb (length stem) 8 && is_device (map upper stem)) ≡ true =
        subst (λ (n : ℕ). (ltb n 8 && is_device (map upper stem)) ≡ true) size found in
      cc (sym h ∙ same)),
  no_device upper stem ds h (ground arith),
)

local_name_valid-IsSafe :
    (upper : ℕ → ℕ) (name : Text) → local_name_valid upper name ≡ true → IsSafe upper name
unfolding local_name_valid
local_name_valid-IsSafe upper name h =
    let (chars, dot, parent, point, blank, controls, device) =
      all_hold (length name == 0) (has_any name (codes "\\/:*?\"<>|")) (text_eq name (codes "."))
        (text_eq name (codes "..")) (last name == b'.') (last name == b' ') (has_control name)
        (ltb (length (stem_of name)) 8 && is_device (map upper (stem_of name))) h in
    (
      chars,
      differ name (codes ".") dot,
      differ name (codes "..") parent,
      other_end (last name) b'.' point,
      other_end (last name) b' ' blank,
      controls,
      no_device upper (stem_of name) device_names device known_devices,
    )

joined_path :
    (valid long : Bool) (path' path : Text)
    → (if not valid || long then none else some path') ≡ some path
    → (valid ≡ true) × (long ≡ false) × (path ≡ path')
joined_path valid long path' path h = ground arith

-- A local path that a remote name leads to is the folder with that name under it, short enough for its array; the name has no
-- separator, drive, stream or control character, is not the folder itself or its parent, does not end with a dot or a blank,
-- which Windows drops, and has none of the names of devices that the code knows up to its first dot.
pub local_join_lem :
    (upper : ℕ → ℕ) (base name path : Text)
    → local_join upper base name ≡ some path
    → (path ≡ base ++ b'\\' ∷ name) × (length path < max_path) × IsSafe upper name
unfolding local_join
local_join_lem upper base name path h =
    let (valid, short, eq) =
      joined_path (local_name_valid upper name) (leb max_path (length base + length name + 2))
        (base ++ b'\\' ∷ name) path h in
    let size : length (base ++ b'\\' ∷ name) ≡ length base + length (b'\\' ∷ name) =
      length-append base (b'\\' ∷ name) in
    (eq, rw eq (ground (arith, size, short)), local_name_valid-IsSafe upper name valid)
