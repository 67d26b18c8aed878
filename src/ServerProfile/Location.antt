-- ===== src/ServerProfile/Location.antt =====
-- Reading and writing locations, ssh_location_parse and ssh_location_format of core/server_profile.c.
use nova_desktop.Base.{
  ℕ, ◌+◌, ◌≤◌, ◌<◌, ◌≡◌, refl, ap, ap₂, ◌∙◌, false, ◌&&◌, [], ◌∷◌, ◌++◌, none, some, arith, ltb,
  ◌==◌, if◌then◌else◌, pos, length, length-append, Option-cases, inl, inr,
}
use nova_desktop.Text.{Text, first, strip_prefix, strip_prefix-append, strip_prefix-eq-some}
use nova_desktop.Decimal.{
  long_long_max, to_decimal, wcstoll, wcstoll-to_decimal, wcstoll_lem, length-to_decimal,
  first-to_decimal, first-append,
}
use nova_desktop.ServerProfile.{
  location_prefix, after_number, ssh_location_parse, ssh_location_format,
}

-- The location that a number and a path make.
abbrev pub location : ℕ → Text → Text
location id path = location_prefix ++ to_decimal id ++ b':' ∷ path

length-location :
    (id : ℕ) (path : Text) → id ≤ long_long_max → length (location id path) ≤ length path + 29
length-location id path h =
    omega (arith, length-to_decimal id h, length-append (to_decimal id) (b':' ∷ path))

-- A location is written for a path from the root and a positive number as soon as 40 characters are left,
-- and for nothing else.
pub ssh_location_format_lem :
    (capacity id : ℕ) (path : Text)
    → id ≤ long_long_max
    → ssh_location_format capacity (pos id) path ≡ (
        if first path == b'/' && ltb 0 id && ltb (length path + 40) capacity
        then some (location id path)
        else none)
unfolding ssh_location_format
ssh_location_format_lem capacity id path h = ground (arith, length-location id path h)

parse-location :
    (id : ℕ) (path : Text)
    → id ≤ long_long_max
    → 0 < id
    → first path ≡ b'/'
    → ssh_location_parse (location id path) ≡ some (id, path)
unfolding ssh_location_parse
parse-location id path h p s =
    rw
      (
        strip_prefix-append location_prefix (to_decimal id ++ b':' ∷ path),
        first-append id (b':' ∷ path) p,
        wcstoll-to_decimal id (b':' ∷ path) h refl,
      )
      (ground (arith, first-to_decimal id p))

-- A location that is written is read back as its number and its path.
pub ssh_location_parse-format :
    (capacity id : ℕ) (path : Text) {out : Text}
    → id ≤ long_long_max
    → ssh_location_format capacity (pos id) path ≡ some out
    → ssh_location_parse out ≡ some (id, path)
ssh_location_parse-format capacity id path {out} h e =
    let made : (out ≡ location id path) × (0 < id) × (first path ≡ b'/') =
      ground (arith, ssh_location_format_lem capacity id path h) in
    rw made.0 (parse-location id path h made.1 made.2)

after_number_lem :
    (end : Text) {path : Text}
    → after_number end ≡ some path
    → (end ≡ b':' ∷ path) × (first path ≡ b'/')
after_number_lem [] e = cc
after_number_lem (c ∷ rest) e = ground arith

-- A location that is read is the one that its number and its path make: no other text names them.
pub ssh_location_parse-eq-some :
    (s : Text) {id : ℕ} {path : Text}
    → ssh_location_parse s ≡ some (id, path)
    → (s ≡ location id path) × (0 < id) × (id ≤ long_long_max) × (first path ≡ b'/')
unfolding ssh_location_parse
ssh_location_parse-eq-some s {id} {path} e = elim (Option-cases (strip_prefix location_prefix s)) [
  | inl other ↦ absurd (ground arith)
  | inr (p, begins) ↦
      let start : (b'1' ≤ first p) × (first p ≤ b'9') × ((wcstoll p).1 ≡ false) = ground arith in
      let (made, fits) = wcstoll_lem p start.0 start.1 start.2 in
      let behind : ((wcstoll p).0 ≡ id)
          × ((wcstoll p).2 ≡ b':' ∷ path)
          × (first path ≡ b'/')
          × (0 < id) =
        ground (arith, after_number_lem (wcstoll p).2) in
      (
        strip_prefix-eq-some location_prefix s begins
            ∙ ap (λ t. location_prefix ++ t)
                (made ∙ ap₂ (λ n t. to_decimal n ++ t) behind.0 behind.1),
        behind.3,
        omega (arith, behind.0, fits),
        behind.2,
      )
]
