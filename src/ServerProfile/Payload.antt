-- ===== src/ServerProfile/Payload.antt =====
-- The line that carries a directory to the remote shell, ssh_directory_payload of core/server_profile.c,
-- and the reading of it by `printf %b`, which the remote command does.
use nova_desktop.Base.{
  ℕ, ◌+◌, ◌-◌, ◌*◌, ◌/◌, ◌%◌, ◌≤◌, ◌<◌, ◌≡◌, ◌≢◌, refl, ap, ap₂, ◌∙◌, Bool, true, false, ◌&&◌, ◌||◌,
  List, [], ◌∷◌, ◌++◌, some, arith, leb, ◌==◌, length, length-append, All, Option-cases, Bool-cases,
  inl, inr,
}
use nova_desktop.ServerProfile.{octal, refuses, ssh_directory_payload, size_max}

-- Groups of a backslash, a zero and three octal digits, as the bytes that they stand for.
abbrev pub expand : List ℕ → List ℕ
expand [] = []
expand (a ∷ []) = []
expand (a ∷ b ∷ []) = []
expand (a ∷ b ∷ x ∷ []) = []
expand (a ∷ b ∷ x ∷ y ∷ []) = []
expand (a ∷ b ∷ x ∷ y ∷ z ∷ rest) =
    ((x - b'0') * 64 + (y - b'0') * 8 + (z - b'0')) % 256 ∷ expand rest

-- What a shell passes through: a backslash or an octal digit.
abbrev pub is_plain : ℕ → Bool
is_plain c = c == b'\\' || (leb b'0' c && leb c b'7')

abbrev pub Bytes : List ℕ → Type 0
Bytes path = All (λ c. c < 256) path

-- No byte is the terminator.
abbrev pub Filled : List ℕ → Type 0
Filled path = All (λ c. c ≢ 0) path

octal_lem :
    (path : List ℕ) {line : List ℕ}
    → Bytes path
    → octal path ≡ some line
    → (expand line ≡ path)
      × All (λ c. is_plain c ≡ true) line
      × (length line ≡ length path * 5)
      × Filled path
unfolding octal
octal_lem [] {line} h e = let empty : line ≡ [] = cc in rw empty (refl, tt, refl, tt)
octal_lem (c ∷ path) {line} h e = elim (Option-cases (octal path)) [
  | inl other ↦ absurd (ground arith)
  | inr (more, made) ↦
      let (back, plain, size, full) = octal_lem path h.1 made in
      let filled : c ≢ 0 = ground arith in
      let result : line
          ≡ b'\\' ∷ b'0' ∷ (b'0' + c / 64 % 8) ∷ (b'0' + c / 8 % 8) ∷ (b'0' + c % 8) ∷ more =
        ground arith in
      rw result (
        ap₂ ◌∷◌ (omega (arith, h.0)) back,
        (refl, (refl, (ground arith, (ground arith, (ground arith, plain))))),
        omega (arith, size),
        (filled, full),
      )
]

room :
    (path : List ℕ) (capacity : ℕ)
    → refuses path capacity ≡ false
    → (length path * 5 + 2 ≤ capacity) × (length path ≤ (size_max - 2) / 5)
unfolding refuses
room path capacity h = (ground arith, ground arith)

payload_result :
    (path : List ℕ) (capacity : ℕ) {out : List ℕ}
    → ssh_directory_payload path capacity ≡ some out
    → (line : List ℕ) × (octal path ≡ some line)
      × (out ≡ line ++ 10 ∷ 0 ∷ [])
      × (length path * 5 + 2 ≤ capacity)
      × (length path ≤ (size_max - 2) / 5)
unfolding ssh_directory_payload
payload_result path capacity {out} e = elim (Bool-cases (refuses path capacity)) [
  | inl bad ↦ absurd (ground arith)
  | inr good ↦ elim (Option-cases (octal path)) [
    | inl other ↦ absurd (ground arith)
    | inr (line, made) ↦
        (line, made, ground arith, (room path capacity good).0, (room path capacity good).1)
  ]
]

-- Whatever is written fits its buffer, and is one line of backslashes and octal digits and its
-- terminator, five bytes for each byte of the path; the line expands to the path.
pub ssh_directory_payload_lem :
    (path : List ℕ) (capacity : ℕ) {out : List ℕ}
    → Bytes path
    → ssh_directory_payload path capacity ≡ some out
    → (line : List ℕ) × (out ≡ line ++ 10 ∷ 0 ∷ [])
      × (expand line ≡ path)
      × All (λ c. is_plain c ≡ true) line
      × (length out ≡ length path * 5 + 2)
      × (length out ≤ capacity)
      × (length out ≤ size_max)
ssh_directory_payload_lem path capacity {out} h e =
    let (line, made, result, fits, within) = payload_result path capacity e in
    let (back, plain, size, full) = octal_lem path h made in
    let length-line : length out ≡ length path * 5 + 2 =
      ap length result ∙ omega (arith, length-append line (10 ∷ 0 ∷ []), size) in
    (
      line,
      result,
      back,
      plain,
      omega (arith, length-line),
      omega (arith, length-line),
      omega (arith, length-line),
    )
