-- ===== src/BatchRunner/Search.antt =====
-- The folders in which batch_runner_find_git of platform/batch_runner.c looks for git.
use nova_desktop.Base.{
  append_nil, append_assoc, ℕ, ◌≡◌, ◌⊎◌, inl, inr, refl, sym, ap, ◌∙◌, true, false, not, ◌&&◌, ◌||◌,
  List, [], ◌∷◌, ◌++◌, arith, ◌==◌, if◌then◌else◌, All, Bool-cases,
}
use nova_desktop.Text.{Text, first, has_char}
use nova_desktop.BatchRunner.{
  absolute_folder, without_front, without_end, add_segment, safe_from, safe_folders,
}

-- The folders that SearchPathW finds between the semicolons; `part` stands before the first.
abbrev pub folders : Text → Text → List Text
folders part [] = part ∷ []
folders part (c ∷ cs) =
    let next = folders [] cs in
    let more = folders (part ++ c ∷ []) cs in if c == b';' then part ∷ next else more

abbrev pub AllAbsolute : Text → Type 0
AllAbsolute safe = (safe ≡ []) ⊎ All (λ folder. absolute_folder folder ≡ true) (folders [] safe)

folders-append : (part s t : Text) → folders part (s ++ b';' ∷ t) ≡ folders part s ++ folders [] t
folders-append part [] t = refl
folders-append part (c ∷ s) t = elim (Bool-cases (c == b';')) [
  | inl edge ↦ rw edge (ap (◌∷◌ part) (folders-append [] s t))
  | inr other ↦ rw other (folders-append (part ++ c ∷ []) s t)
]

folders_one : (part t : Text) → has_char t b';' ≡ false → folders part t ≡ (part ++ t) ∷ []
unfolding has_char
folders_one part [] h = ap (λ p. p ∷ []) (sym (append_nil part))
folders_one part (c ∷ t) h =
    let other : (c == b';') ≡ false = ground arith in
    rw other (
      folders_one (part ++ c ∷ []) t (ground arith)
      ∙ ap (λ p. p ∷ []) (append_assoc part (c ∷ []) t))

has_char-without_front :
    (t : Text) (c : ℕ) → has_char t c ≡ false → has_char (without_front t) c ≡ false
unfolding has_char without_front
has_char-without_front [] c h = refl
has_char-without_front (x ∷ t) c h = ground (arith, has_char-without_front t c)

has_char-without_end :
    (t : Text) (c : ℕ) → has_char t c ≡ false → has_char (without_end t) c ≡ false
unfolding has_char without_end
has_char-without_end [] c h = refl
has_char-without_end (x ∷ t) c h = ground (arith, has_char-without_end t c)

has_char-append : (s t : Text) (c : ℕ) → has_char (s ++ t) c ≡ (has_char s c || has_char t c)
unfolding has_char
has_char-append [] t c = refl
has_char-append (x ∷ s) t c = ground (arith, has_char-append s t c)

All-append : {A : Type 0} (P : A → Type 0) (xs ys : List A) → All P xs → All P ys → All P (xs ++ ys)
All-append P [] ys h k = k
All-append P (x ∷ xs) ys h k = (h.0, All-append P xs ys h.1 k)

add_segment-AllAbsolute :
    (safe segment : Text)
    → AllAbsolute safe
    → has_char segment b';' ≡ false
    → AllAbsolute (add_segment safe segment)
unfolding add_segment
add_segment-AllAbsolute safe segment a h =
    let trimmed : Text = without_end (without_front segment) in
    let free : has_char trimmed b';' ≡ false =
      has_char-without_end (without_front segment) b';' (has_char-without_front segment b';' h) in
    elim (Bool-cases (not (first trimmed == 0) && absolute_folder trimmed)) [
      | inr bad ↦ rw bad a
      | inl good ↦
          let one : All (λ folder. absolute_folder folder ≡ true) (folders [] trimmed) =
            rw (folders_one [] trimmed free) (ground arith, tt) in
          elim (Bool-cases (first safe == 0)) [
            | inl empty ↦ rw (good, empty) (inr one)
            | inr more ↦
                rw (good, more)
                  (inr (elim a [
                    | inl none_yet ↦
                        absurd (
                          let f : true ≡ false = ap (λ t. first t == 0) (sym none_yet) ∙ more in cc)
                    | inr all ↦
                        rw (folders-append [] safe trimmed)
                          (All-append _ (folders [] safe) (folders [] trimmed) all one)
                  ]))
          ]
    ]

safe_from-AllAbsolute :
    (safe segment search : Text)
    → AllAbsolute safe
    → has_char segment b';' ≡ false
    → has_char search b'"' ≡ false
    → AllAbsolute (safe_from false safe segment search)
unfolding safe_from has_char
safe_from-AllAbsolute safe segment [] a h q = add_segment-AllAbsolute safe segment a h
safe_from-AllAbsolute safe segment (c ∷ search) a h q =
    let plain : (c == b'"') ≡ false = ground arith in
    let rest : has_char search b'"' ≡ false = ground arith in
    elim (Bool-cases (c == b';')) [
      | inl edge ↦
          rw (plain, edge)
            (safe_from-AllAbsolute (add_segment safe segment) [] search
              (add_segment-AllAbsolute safe segment a h) refl rest)
      | inr other ↦
          rw (plain, other)
            (safe_from-AllAbsolute safe (segment ++ c ∷ []) search a
              (has_char-append segment (c ∷ []) b';' ∙ ground arith) rest)
    ]

-- In a PATH without quotes only folders with a full path are searched, whatever else it names: not the
-- current directory, and none relative to it.
pub safe_folders-AllAbsolute :
    (search : Text) → has_char search b'"' ≡ false → AllAbsolute (safe_folders search)
unfolding safe_folders has_char
safe_folders-AllAbsolute search q = safe_from-AllAbsolute [] [] search (inl refl) refl q
