-- ===== src/Storage/Entries.antt =====
-- What is found in the settings table of platform/storage.c after a list of entries is written, and the
-- sections that a loop numbers.
use nova_desktop.Base.{
  ℕ, zero, suc, ◌+◌, ◌<◌, ◌≡◌, refl, sym, ◌∙◌, ap, false, ◌&&◌, List, [], ◌∷◌, ◌++◌, Option, none,
  some, arith, if◌then◌else◌, Bool-cases, inl, inr, get_elem?, subst,
}
use nova_desktop.Text.{Text, text_eq, text_eq_iff, text_eq_refl, text_eq_comm}
use nova_desktop.Decimal.Signed.{to_decimal-injective}
use nova_desktop.Storage.Table.{Key, Row, key_eq, find, delete_scope, find-upsert}
use nova_desktop.Storage.{Entry, M, numbered, in_section, write_loop}
use nova_desktop.Storage.Writes.{put_all, Writes, >>-Writes}

-- The first of two results that there is.
abbrev or_else : Option Text → Option Text → Option Text
or_else none o = o
or_else (some v) o = some v

-- The last value that the entries give a section and a key.
unfoldable pub written : Text → Text → List Entry → Option Text
written section key [] = none
written section key ((section', key', value) ∷ es) =
    or_else (written section key es)
      (if text_eq section section' && text_eq key key' then some value else none)

-- The last value of a key.
unfoldable pub value_of : Text → List (Text × Text) → Option Text
value_of key [] = none
value_of key ((key', value) ∷ es) =
    or_else (value_of key es) (if text_eq key key' then some value else none)

or_else-or_else : (a b c : Option Text) → or_else (or_else a b) c ≡ or_else a (or_else b c)
or_else-or_else none b c = refl
or_else-or_else (some a) b c = refl

or_else-none : (a : Option Text) → or_else a none ≡ a
or_else-none none = refl
or_else-none (some a) = refl

same_scope :
    (scope a b c d value : Text) (o : Option Text)
    → (if key_eq
          (record { scope = scope; section = a; name = c })
          (record { scope = scope; section = b; name = d })
        then some value
        else o)
      ≡ or_else (if text_eq a b && text_eq c d then some value else none) o
unfolding key_eq
same_scope scope a b c d value o = rw (text_eq_refl scope) (ground arith)

-- Beside what is written the table is as before.
pub find-put_all :
    (scope section key : Text) (es : List Entry) (rows : List Row)
    → find (record { scope = scope; section = section; name = key }) (put_all scope es rows)
      ≡ or_else
          (written section key es)
          (find (record { scope = scope; section = section; name = key }) rows)
unfolding put_all written
find-put_all scope section key [] rows = refl
find-put_all scope section key ((section', key', value) ∷ es) rows =
    find-put_all scope section key es _
    ∙ ap (or_else (written section key es))
        (find-upsert _ _ _ rows ∙ same_scope scope section section' key key' value _)
    ∙ sym (or_else-or_else (written section key es) _ _)

-- A cleared scope holds nothing.
pub find-delete_scope : (k : Key) (rows : List Row) → find k (delete_scope k.scope rows) ≡ none
unfolding find delete_scope key_eq
find-delete_scope k [] = refl
find-delete_scope k (r ∷ rows) = ground (arith, find-delete_scope k rows)

written-append :
    (section key : Text) (es fs : List Entry)
    → written section key (es ++ fs) ≡ or_else (written section key fs) (written section key es)
unfolding written
written-append section key [] fs = sym (or_else-none _)
written-append section key (e ∷ es) fs = rw (written-append section key es fs) (
    or_else-or_else (written section key fs) (written section key es)
      (if text_eq section e.0 && text_eq key e.1 then some e.2 else none))

written-in_section :
    (section key : Text) (es : List (Text × Text))
    → written section key (in_section section es) ≡ value_of key es
unfolding written value_of
written-in_section section key [] = refl
written-in_section section key ((key', value) ∷ es) =
    rw (text_eq_refl section, written-in_section section key es) refl

written_elsewhere :
    (section other key : Text) (es : List (Text × Text))
    → text_eq section other ≡ false
    → written section key (in_section other es) ≡ none
unfolding written
written_elsewhere section other key [] h = refl
written_elsewhere section other key ((key', value) ∷ es) h =
    rw (written_elsewhere section other key es h, h) refl

module _ {A : Type 0} (prefix : Text) (entries : A → List (Text × Text)) where
  -- The entries of a loop over `items` from the index `i`, each in a section with its number.
  unfoldable pub sections : ℕ → List A → List Entry
  sections i [] = []
  sections i (x ∷ xs) = in_section (numbered prefix i) (entries x) ++ sections (i + 1) xs

  -- Nothing is written in a section that has none of the names.
  pub written-sections-none :
      (section key : Text) (i : ℕ) (xs : List A)
      → ((j : ℕ) → text_eq section (numbered prefix j) ≡ false)
      → written section key (sections i xs) ≡ none
  unfolding sections written
  written-sections-none section key i [] h = refl
  written-sections-none section key i (x ∷ xs) h =
      written-append section key (in_section (numbered prefix i) (entries x)) (sections (i + 1) xs)
      ∙ rw
          (
            written-sections-none section key (i + 1) xs h,
            written_elsewhere section (numbered prefix i) key (entries x) (h i),
          )
          refl

  numbered_apart : (i j : ℕ) → i < j → text_eq (numbered prefix i) (numbered prefix j) ≡ false
  numbered_apart i j h = elim (Bool-cases (text_eq (numbered prefix i) (numbered prefix j))) [
    | inr apart ↦ apart
    | inl same ↦
        let e = to_decimal-injective i j (cancel prefix ((text_eq_iff _ _).0 same)) in
        absurd (omega (arith, e))
  ]
    where
      cancel : (p : Text) {s t : Text} → p ++ s ≡ p ++ t → s ≡ t
      cancel [] e = e
      cancel (c ∷ p) e = cancel p (let tail : p ++ _ ≡ p ++ _ = cc in tail)

  written_later :
      (key : Text) (i j : ℕ) (xs : List A)
      → i < j
      → written (numbered prefix i) key (sections j xs) ≡ none
  unfolding sections written
  written_later key i j [] h = refl
  written_later key i j (x ∷ xs) h =
      written-append (numbered prefix i) key (in_section (numbered prefix j) (entries x))
        (sections (j + 1) xs)
      ∙ rw
          (
            written_later key i (j + 1) xs (omega arith),
            written_elsewhere (numbered prefix i) (numbered prefix j) key (entries x)
                (numbered_apart i j h),
          )
          refl

  -- The section with the number of an element holds what is written of it.
  pub written-sections :
      (key : Text) (i n : ℕ) (xs : List A) {x : A}
      → get_elem? xs n ≡ some x
      → written (numbered prefix (i + n)) key (sections i xs) ≡ value_of key (entries x)
  unfolding sections
  written-sections key i n [] e = cc
  written-sections key i zero (y ∷ xs) {x} e =
      let p : i + 0 ≡ i = omega arith in
      let q : y ≡ x = cc in
      rw p (
        written-append (numbered prefix i) key (in_section (numbered prefix i) (entries y))
          (sections (i + 1) xs)
        ∙ rw
            (
              written_later key i (i + 1) xs (omega arith),
              written-in_section (numbered prefix i) key (entries y),
            )
            (ap (λ z. value_of key (entries z)) q))
  written-sections key i (suc n) (y ∷ xs) {x} e =
      let p : i + suc n ≡ i + 1 + n = omega arith in
      written-append (numbered prefix (i + suc n)) key (in_section (numbered prefix i) (entries y))
        (sections (i + 1) xs)
      ∙ rw
          (written_elsewhere (numbered prefix (i + suc n)) (numbered prefix i) key (entries y)
            (unlike i (i + suc n) (omega arith)))
          (or_else-none _ ∙ rw p (written-sections key (i + 1) n xs e))
    where
      unlike : (i j : ℕ) → i < j → text_eq (numbered prefix j) (numbered prefix i) ≡ false
      unlike i j h = text_eq_comm (numbered prefix j) (numbered prefix i) ∙ numbered_apart i j h

put_all-append :
    (scope : Text) (es fs : List Entry) (rows : List Row)
    → put_all scope (es ++ fs) rows ≡ put_all scope fs (put_all scope es rows)
unfolding put_all
put_all-append scope [] fs rows = refl
put_all-append scope (e ∷ es) fs rows = put_all-append scope es fs _

-- The loop writes its sections.
pub write_loop-Writes :
    {A : Type 0} (scope : Text) (write : List Entry → M (Unit {0})) (prefix : Text)
    (entries : A → List (Text × Text))
    → ((es : List Entry) → Writes (write es) (put_all scope es))
    → (i : ℕ) (xs : List A)
    → Writes (write_loop write prefix entries i xs) (put_all scope (sections prefix entries i xs))
unfolding write_loop sections put_all
write_loop-Writes scope write prefix entries h i [] s old e = (e, λ t. refl)
write_loop-Writes scope write prefix entries h i (x ∷ xs) s old e =
    let now : List Entry = in_section (numbered prefix i) (entries x) in
    let after : List Entry = sections prefix entries (i + 1) xs in
    let (kept, made) =
      >>-Writes (write now) (write_loop write prefix entries (i + 1) xs) (put_all scope now)
        (put_all scope after) (h now) (write_loop-Writes scope write prefix entries h (i + 1) xs) s
        old e in
    (kept, λ t. made t ∙ sym (put_all-append scope now after s.rows))

-- The rows once a scope is cleared, a section with a header is written, and behind it a section for
-- each element.
unfoldable pub saved :
    {A : Type 0}
    → Text
    → Text
    → Text
    → (A → List (Text × Text))
    → List (Text × Text)
    → List A
    → List Row
    → List Row
unfolding put_all sections delete_scope
saved scope collection prefix entries header xs rows =
    put_all scope (sections prefix entries 0 xs)
      (put_all scope (in_section collection header) (delete_scope scope rows))

module _ {A : Type 0} (scope collection prefix : Text) (entries : A → List (Text × Text))
    (header : List (Text × Text)) (xs : List A) (rows : List Row)
    (apart : (j : ℕ) → text_eq collection (numbered prefix j) ≡ false) where
  abbrev rows' : List Row
  rows' = saved scope collection prefix entries header xs rows

  found :
      (section key : Text)
      → find (record { scope = scope; section = section; name = key }) rows'
        ≡ or_else
            (written section key (sections prefix entries 0 xs))
            (written section key (in_section collection header))
  unfolding saved
  found section key =
      find-put_all scope section key (sections prefix entries 0 xs) _
      ∙ rw
          (
            find-put_all scope section key (in_section collection header) (delete_scope scope rows),
            find-delete_scope (record { scope = scope; section = section; name = key }) rows,
            or_else-none (written section key (in_section collection header)),
          )
          refl

  pub find-header :
      (key : Text)
      → find (record { scope = scope; section = collection; name = key }) rows'
        ≡ value_of key header
  find-header key =
      found collection key
      ∙ rw
          (
            written-sections-none prefix entries collection key 0 xs apart,
            written-in_section collection key header,
          )
          refl

  pub find-section :
      (key : Text) (n : ℕ) {x : A}
      → get_elem? xs n ≡ some x
      → find (record { scope = scope; section = numbered prefix n; name = key }) rows'
        ≡ value_of key (entries x)
  find-section key n {x} e =
      let here : written (numbered prefix n) key (sections prefix entries 0 xs)
          ≡ value_of key (entries x) =
        subst
          (λ j.
            written (numbered prefix j) key (sections prefix entries 0 xs)
            ≡ value_of key (entries x))
          (let p : 0 + n ≡ n = omega arith in p) (written-sections prefix entries key 0 n xs e) in
      found (numbered prefix n) key
      ∙ rw
          (
            here,
            written_elsewhere (numbered prefix n) collection key header
                (text_eq_comm (numbered prefix n) collection ∙ apart n),
          )
          (or_else-none (value_of key (entries x)))
