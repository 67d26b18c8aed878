-- ===== src/Storage/Reads.antt =====
-- What the reading functions of platform/storage.c return while SQLite refuses nothing.
use nova_desktop.Base.{
  ℕ, zero, suc, ◌≤◌, ◌<◌, ◌≡◌, refl, ap, true, Option, none, some, arith, ℤ, pos, length, List, [],
  ◌∷◌, subst, get_elem?, ◌+◌, ◌-◌, take_all,
}
use nova_desktop.Text.{Text, IsText, c_str}
use nova_desktop.Decimal.{to_decimal, length-to_decimal}
use nova_desktop.Decimal.Signed.{long_max, wcsto-to_decimal, to_decimal-first, to_decimal-IsText}
use nova_desktop.Storage.Table.{find}
use nova_desktop.Storage.{
  Store, M, ◌>>=◌, follow, select_value, row, store_get, store_int, read_text, read_number,
  read_loop, numbered, get_text, number_in,
}

-- The store once SQLite refuses nothing more.
abbrev pub calm : Store → Store
calm s = record s { is_open = true; outcomes = [] }

pub c_str_same : (v : Text) → IsText v → c_str v ≡ v
unfolding c_str
c_str_same [] h = refl
c_str_same (zero ∷ v) h = absurd (h.0 refl)
c_str_same (suc c ∷ v) h = ap (◌∷◌ (suc c)) (c_str_same v h.1)

module _ (s : Store) (scope section key : Text) where
  select_found :
      (v : Text)
      → find (record { scope = scope; section = section; name = key }) s.rows ≡ some v
      → select_value scope section key (calm s) ≡ (row v, calm s)
  unfolding select_value
  select_found v e = rw e refl

  pub read_text_found :
      (v : Text) (capacity : ℕ)
      → IsText v
      → length v < capacity
      → find (record { scope = scope; section = section; name = key }) s.rows ≡ some v
      → read_text scope section key capacity (calm s) ≡ (some v, calm s)
  unfolding read_text select_value
  read_text_found v capacity h l e = rw (e, c_str_same v h) (ground arith)

  pub read_number_found :
      (n maximum : ℕ)
      → n ≤ maximum
      → maximum ≤ 65535
      → find (record { scope = scope; section = section; name = key }) s.rows ≡ some (to_decimal n)
      → read_number scope section key maximum (calm s) ≡ (some n, calm s)
  unfolding read_number
  read_number_found n maximum h l e =
      rw
        (
          read_number,
          read_text_found (to_decimal n) 32 (to_decimal-IsText n)
              (omega (arith, length-to_decimal n (omega arith))) e,
          to_decimal-first n,
          wcsto-to_decimal long_max n (omega arith),
        )
        (ground arith)

-- Every result satisfies the predicate.
abbrev pub Yields : {A : Type 0} → (A → Type 0) → M A → Type 0
Yields {A} P m = (s : Store) (a : A) → (m s).0 ≡ some a → P a

module _ {A B : Type 0} (P : B → Type 0) where
  pub >>=-Yields : (m : M A) (f : A → M B) → ((a : A) → Yields P (f a)) → Yields P (m >>= f)
  >>=-Yields m f h s b e = go (m s) e
    where
      go : (r : Option A × Store) → (follow f r).0 ≡ some b → P b
      go (none, s') e = cc
      go (some a, s') e = h a s' b e

-- A loop that can read every section reads the list.
pub read_loop_found :
    {A : Type 0} (read : Text → M A) (prefix : Text) (s : Store) (i : ℕ) (xs : List A)
    → ((n : ℕ) (x : A) → get_elem? xs n ≡ some x → read (numbered prefix (i + n)) s ≡ (some x, s))
    → read_loop read prefix i (length xs) s ≡ (some xs, s)
unfolding read_loop
read_loop_found read prefix s i [] h = refl
read_loop_found read prefix s i (x ∷ xs) h =
    let here : read (numbered prefix i) s ≡ (some x, s) =
      subst (λ j. read (numbered prefix j) s ≡ (some x, s)) (let p : i + 0 ≡ i = omega arith in p)
        (h 0 x refl) in
    let rest : read_loop read prefix (i + 1) (length xs) s ≡ (some xs, s) =
      read_loop_found read prefix s (i + 1) xs λ n y e.
        subst (λ j. read (numbered prefix j) s ≡ (some y, s))
          (let p : i + suc n ≡ i + 1 + n = omega arith in p) (h (suc n) y e) in
    rw (here, rest) refl

module _ (s : Store) (scope section key : Text) where
  pub get_text_found :
      (fallback v : Text) (capacity : ℕ)
      → IsText v
      → length v < capacity
      → find (record { scope = scope; section = section; name = key }) s.rows ≡ some v
      → get_text scope section key fallback capacity (calm s) ≡ (some v, calm s)
  unfolding store_get select_value
  get_text_found fallback v capacity h l e =
      rw (e, c_str_same v h, take_all (capacity - 1) v (omega arith)) refl

  pub store_int_found :
      (n : ℕ) (fallback : ℤ)
      → n ≤ long_max
      → find (record { scope = scope; section = section; name = key }) s.rows ≡ some (to_decimal n)
      → store_int scope section key fallback (calm s) ≡ (pos n, calm s)
  unfolding store_int store_get select_value
  store_int_found n fallback h e =
      rw
        (
          e,
          c_str_same (to_decimal n) (to_decimal-IsText n),
          take_all 47 (to_decimal n) (omega (arith, length-to_decimal n (omega arith))),
          to_decimal-first n,
          wcsto-to_decimal long_max n h,
        )
        refl

-- A chain that went through: its first call succeeded, and so did the rest.
pub followed :
    {A B : Type 0} (r : Option A × Store) (f : A → M B) (b : B)
    → (follow f r).0 ≡ some b
    → (a : A) × (s' : Store) × (r ≡ (some a, s')) × ((f a s').0 ≡ some b)
followed (none, s) f b e = cc
followed (some a, s) f b e = (a, s, refl, e)

number_in-le : (maximum : ℕ) (text : Text) (n : ℕ) → number_in maximum text ≡ some n → n ≤ maximum
number_in-le maximum text n e = ground arith

-- A number that was read is within its maximum.
pub read_number-le :
    (scope section key : Text) (maximum n : ℕ) (s : Store)
    → (read_number scope section key maximum s).0 ≡ some n
    → n ≤ maximum
unfolding read_number
read_number-le scope section key maximum n s e =
    let (text, s', read, e') = followed (read_text scope section key 32 s) _ n e in
    number_in-le maximum text n e'
