-- ===== src/SyncModel/Relative.antt =====
-- The relative paths that a data set may name, sync_relative_path of core/sync_model.c, by their parts.
use nova_desktop.Base.{
  ◌≤◌, ◌≡◌, ◌≢◌, ◌↔◌, refl, sym, ap, subst, ◌∙◌, true, false, ◌||◌, List, [], ◌∷◌, ◌++◌, arith,
  ◌==◌, if◌then◌else◌, length, All, Bool-cases, inl, inr, ◌-◌, Bool, ◌&&◌, not, ltb, get_or,
}
use nova_desktop.Text.{Text, first, has_any, has_char, codes, text_eq}

-- `part[n-1]` and the names that are refused.
unfoldable pub part_ok : Text → Bool
part_ok part =
    let n = length part in
    let end = get_or part (n - 1) 0 in
    not (
      n == 0
      || ltb 255 n
      || end == b'.'
      || end == b' '
      || text_eq part (codes ".")
      || text_eq part (codes "..")
      || text_eq part (codes ".git"))

-- The loop of sync_relative_path; `part` are the characters since the last slash.
unfoldable pub parts_ok : Text → Text → Bool
unfolding part_ok
parts_ok part [] = part_ok part
parts_ok part (c ∷ cs) =
    let next = parts_ok [] cs in
    let more = parts_ok (part ++ c ∷ []) cs in
    if ltb c 32 then false else if c == b'/' then part_ok part && next else more

-- The characters of wcspbrk.
abbrev pub refused_chars : Text
refused_chars = codes "\\:*?\"<>|"

unfoldable pub sync_relative_path : Text → Bool
unfolding parts_ok
sync_relative_path s =
    if first s == 0 || first s == b'/' || first s == b'\\' || has_any s refused_chars
    then false
    else parts_ok [] s

-- The parts between the slashes; `part` stands before the first.
abbrev pub parts : Text → Text → List Text
parts part [] = part ∷ []
parts part (c ∷ cs) =
    let next = parts [] cs in
    let more = parts (part ++ c ∷ []) cs in if c == b'/' then part ∷ next else more

abbrev pub AllParts : List Text → Type 0
AllParts ps = All (λ part. part_ok part ≡ true) ps

-- No control character.
abbrev pub NoControl : Text → Type 0
NoControl s = All (λ c. 32 ≤ c) s

parts_ok_iff : (part s : Text) → (parts_ok part s ≡ true) ↔ (NoControl s × AllParts (parts part s))
unfolding parts_ok
parts_ok_iff part [] = (λ h. (tt, (h, tt)), λ h. h.1.0)
parts_ok_iff part (c ∷ cs) = elim (Bool-cases (c == b'/')) [
  | inl slash ↦ rw slash (ground (arith, parts_ok_iff [] cs))
  | inr other ↦ rw other (ground (arith, parts_ok_iff (part ++ c ∷ []) cs))
]

empty_part : part_ok [] ≡ false
unfolding part_ok
empty_part = refl

-- A path that has parts, each of them not empty, begins with none of the characters that are refused.
checked_first :
    (s : Text)
    → NoControl s
    → AllParts (parts [] s)
    → has_any s refused_chars ≡ false
    → (first s == 0 || first s == b'/' || first s == b'\\') ≡ false
unfolding has_any has_char
checked_first [] n p h = absurd (ground (arith, empty_part, p.0))
checked_first (c ∷ s) n p h = elim (Bool-cases (c == b'/')) [
  | inr other ↦ ground arith
  | inl slash ↦ absurd (go slash)
]
  where
    go : (c == b'/') ≡ true → ⊥
    go e =
        let first_part =
          (subst (λ r. AllParts (if r then [] ∷ parts [] s else parts (c ∷ []) s)) e p).0 in
        let same : false ≡ true = sym empty_part ∙ first_part in cc

-- A relative path is accepted exactly when it has no control character and none of those that Windows
-- refuses, and when each of its parts between the slashes is accepted.
pub sync_relative_path_iff :
    (s : Text)
    → (sync_relative_path s ≡ true)
      ↔ (NoControl s × AllParts (parts [] s) × (has_any s refused_chars ≡ false))
unfolding sync_relative_path
sync_relative_path_iff s = (
  (λ h.
      let ok = (parts_ok_iff [] s).0 (let e : parts_ok [] s ≡ true = ground arith in e) in
      (ok.0, ok.1, ground arith)),
  (λ h. ground (arith, checked_first s h.0 h.1 h.2, (parts_ok_iff [] s).1 (h.0, h.1), h.2)),
)

-- A part that can name one entry of its folder and is not git's own.
abbrev pub Harmless : Text → Type 0
Harmless part =
    (part ≢ [])
    × (part ≢ codes ".")
    × (part ≢ codes "..")
    × (part ≢ codes ".git")
    × (length part ≤ 255)

part_ok-Harmless : (part : Text) → part_ok part ≡ true → Harmless part
unfolding part_ok text_eq
part_ok-Harmless part h =
    (refused [] refl, refused _ refl, refused _ refl, refused _ refl, ground arith)
  where
    refused : (t : Text) → part_ok t ≡ false → part ≢ t
    refused t e same = let f : false ≡ true = sym e ∙ ap part_ok (sym same) ∙ h in cc

AllParts-Harmless : (ps : List Text) → AllParts ps → All Harmless ps
AllParts-Harmless [] h = tt
AllParts-Harmless (p ∷ ps) h = (part_ok-Harmless p h.0, AllParts-Harmless ps h.1)

-- No part of a relative path that is accepted leaves the folder, is empty or enters git's own folder.
pub sync_relative_path-Harmless :
    (s : Text) → sync_relative_path s ≡ true → All Harmless (parts [] s)
sync_relative_path-Harmless s h = AllParts-Harmless (parts [] s) ((sync_relative_path_iff s).0 h).1
