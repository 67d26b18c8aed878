-- ===== src/ServerProfile/Paths.antt =====
-- Joining a remote directory and a name, ssh_path_join of core/server_profile.c.
use nova_desktop.Base.{
  append_nil, ℕ, zero, suc, ◌+◌, ◌-◌, ◌≤◌, ◌<◌, ◌≡◌, refl, ap, ◌∙◌, sym, true, false, ◌&&◌, [], ◌∷◌,
  ◌++◌, none, some, arith, ltb, ◌==◌, if◌then◌else◌, length, length-append, replicate, take, get_or,
  Bool-cases, inl, inr,
}
use nova_desktop.Text.{Text, first, has_char}
use nova_desktop.ServerProfile.{last, trimmed, is_bad_name, join_kept, ssh_path_join}

-- What stands behind the last slash.
abbrev pub base_name : Text → Text
base_name [] = []
base_name (c ∷ cs) =
    let rest = base_name cs in if has_char cs b'/' then rest else if c == b'/' then cs else c ∷ cs

has_char-append : (s t : Text) (c : ℕ) → has_char (s ++ c ∷ t) c ≡ true
unfolding has_char
has_char-append [] t c = ground arith
has_char-append (x ∷ s) t c = ground (arith, has_char-append s t c)

base_name-append :
    (s name : Text) → has_char name b'/' ≡ false → base_name (s ++ b'/' ∷ name) ≡ name
base_name-append [] name h = ground arith
base_name-append (c ∷ s) name h =
    ground (arith, has_char-append s name b'/', base_name-append s name h)

-- A list of `n + 1` characters that ends in `c`.
split_last :
    (n : ℕ) (s : Text) (c : ℕ) → length s ≡ suc n → get_or s n 0 ≡ c → s ≡ take n s ++ c ∷ []
split_last n [] c h e = absurd (omega arith)
split_last zero (x ∷ []) c h e = ap (λ y. y ∷ []) e
split_last zero (x ∷ y ∷ s) c h e = absurd (omega arith)
split_last (suc n) (x ∷ s) c h e = ap (◌∷◌ x) (split_last n s c (omega arith) e)

first-take : (n : ℕ) (s : Text) → 0 < n → first (take n s) ≡ first s
first-take zero s h = absurd (omega arith)
first-take (suc n) [] h = refl
first-take (suc n) (c ∷ s) h = refl

-- What trimming leaves, and the slash that it took.
trimmed_lem :
    (base : Text)
    → first base ≡ b'/'
    → (k : ℕ) × (base ≡ trimmed base ++ replicate k b'/') × (k ≤ 1) × (first (trimmed base) ≡ b'/')
unfolding trimmed
trimmed_lem base h = elim (Bool-cases (ltb 1 (length base) && last base == b'/')) [
  | inr whole ↦ rw whole (0, sym (append_nil base), omega arith, h)
  | inl slash ↦ rw slash (
    1,
    split_last (length base - 1) base b'/' (ground arith) (ground arith),
    omega arith,
    first-take (length base - 1) base (ground arith) ∙ h,
  )
]

-- A text of one character that is a slash.
only_slash : (s : Text) → length s ≡ 1 → first s ≡ b'/' → s ≡ b'/' ∷ []
only_slash [] h e = absurd (omega arith)
only_slash (c ∷ []) h e = ap (λ y. y ∷ []) e
only_slash (c ∷ d ∷ s) h e = absurd (omega arith)

join_root :
    (capacity : ℕ) (kept name : Text)
    → (length kept == 1) ≡ true
    → join_kept capacity kept name
      ≡ (if ltb capacity (length kept + length name + 1) then none else some (kept ++ name))
join_root capacity kept name h = rw h

join_deeper :
    (capacity : ℕ) (kept name : Text)
    → (length kept == 1) ≡ false
    → join_kept capacity kept name
      ≡ (if ltb capacity (length kept + length name + 2) then none else some (kept ++ b'/' ∷ name))
join_deeper capacity kept name h = rw h

-- What joining makes of what trimming leaves.
join_kept_lem :
    (capacity : ℕ) (kept name : Text) {out : Text}
    → first kept ≡ b'/'
    → join_kept capacity kept name ≡ some out
    → (parent : Text) × (k : ℕ) × (k ≤ 1)
      × (out ≡ parent ++ b'/' ∷ name)
      × (kept ≡ parent ++ replicate k b'/')
      × (length out < capacity)
join_kept_lem capacity kept name {out} start e = elim (Bool-cases (length kept == 1)) [
  | inl root ↦
      let slash = only_slash kept (ground arith) start in
      let result : (if ltb capacity (length kept + length name + 1)
            then none
            else some (kept ++ name))
          ≡ some out =
        sym (join_root capacity kept name root) ∙ e in
      let made : (out ≡ kept ++ name) × (length kept + length name + 1 ≤ capacity) =
        fits _ _ _ result in
      (
        [],
        1,
        omega arith,
        made.0 ∙ ap (λ t. t ++ name) slash,
        slash,
        omega (arith, made.1, ap length made.0, length-append kept name),
      )
  | inr deeper ↦
      let made : (out ≡ kept ++ b'/' ∷ name) × (length kept + length name + 2 ≤ capacity) =
        fits _ _ _ (sym (join_deeper capacity kept name deeper) ∙ e) in
      (
        kept,
        0,
        omega arith,
        made.0,
        sym (append_nil kept),
        omega (arith, made.1, ap length made.0, length-append kept (b'/' ∷ name)),
      )
]
  where
    fits :
        (c n : ℕ) (t : Text) {u : Text}
        → (if ltb c n then none else some t) ≡ some u
        → (u ≡ t) × (n ≤ c)
    fits c n t e = ground arith

glue :
    (kept parent : Text) (k taken : ℕ)
    → kept ≡ parent ++ replicate k b'/'
    → kept ++ replicate taken b'/' ≡ parent ++ replicate (k + taken) b'/'
glue kept parent k taken e = ap (λ t. t ++ replicate taken b'/') e ∙ go parent k
  where
    go :
        (parent : Text) (k : ℕ)
        → (parent ++ replicate k b'/') ++ replicate taken b'/'
          ≡ parent ++ replicate (k + taken) b'/'
    go [] zero = let p : 0 + taken ≡ taken = omega arith in rw p
    go [] (suc k) =
        let p : suc k + taken ≡ suc (k + taken) = omega arith in rw p (ap (◌∷◌ b'/') (go [] k))
    go (c ∷ parent) k = ap (◌∷◌ c) (go parent k)

first_join :
    (parent : Text) (k : ℕ) (base name : Text) {out : Text}
    → base ≡ parent ++ replicate k b'/'
    → first base ≡ b'/'
    → out ≡ parent ++ b'/' ∷ name
    → first out ≡ b'/'
first_join [] k base name e h o = ap first o
first_join (c ∷ parent) k base name e h o = ap first o ∙ sym (ap first e) ∙ h

-- A joined path fits its buffer with the terminator and begins with a slash. Its last component is the
-- name, and what stands before is the directory without the slashes at its end, at most two of them.
pub ssh_path_join_lem :
    (capacity : ℕ) (base name : Text) {out : Text}
    → ssh_path_join capacity base name ≡ some out
    → (length out < capacity)
      × (first out ≡ b'/')
      × (base_name out ≡ name)
      × ((parent : Text) × (k : ℕ) × (k ≤ 2)
          × (out ≡ parent ++ b'/' ∷ name)
          × (base ≡ parent ++ replicate k b'/'))
unfolding ssh_path_join is_bad_name
ssh_path_join_lem capacity base name {out} e =
    let checked : (first base ≡ b'/')
        × (has_char name b'/' ≡ false)
        × (join_kept capacity (trimmed base) name ≡ some out) =
      ground arith in
    let (taken, base_made, few, start) = trimmed_lem base checked.0 in
    let (parent, k, small, out_made, kept_made, room) =
      join_kept_lem capacity (trimmed base) name start checked.2 in
    (
      room,
      first_join parent (k + taken) base name
          (base_made ∙ glue (trimmed base) parent k taken kept_made) checked.0 out_made,
      rw out_made (base_name-append parent name checked.1),
      (
        parent,
        k + taken,
        omega arith,
        out_made,
        base_made ∙ glue (trimmed base) parent k taken kept_made,
      ),
    )
