-- ===== src/Decimal.antt =====
-- Decimal numbers in wide strings, as swprintf's `%lld` writes a positive long long and wcstoll reads
-- one. These are functions of the C library.
pub mod Signed
use native.Mathlib.Nat.{pow-suc}
use nova_desktop.Base.{
  append_nil, ℕ, zero, suc, ◌+◌, ◌-◌, ◌*◌, ◌/◌, ◌%◌, ◌^◌, ◌≤◌, ◌<◌, ◌≡◌, refl, sym, ap, ap₂, ◌∙◌,
  Bool, true, false, ◌&&◌, [], ◌∷◌, ◌++◌, arith, ltb, leb, if◌then◌else◌, length, All, Bool-cases,
  inl, inr,
}
use nova_desktop.Text.{Text, IsText, first}

abbrev pub long_long_max : ℕ
long_long_max = 2 ^ 63 - 1

-- `c>=L'0'&&c<=L'9'`
abbrev pub is_digit : ℕ → Bool
is_digit c = leb b'0' c && leb c b'9'

-- The digits of `n` before `rest`; `n` rounds are enough, since each drops a digit.
unfoldable pub print_digits : ℕ → ℕ → Text → Text
print_digits zero n rest = rest
print_digits (suc fuel) n rest =
    let more = print_digits fuel (n / 10) ((b'0' + n % 10) ∷ rest) in
    if ltb n 10 then (b'0' + n) ∷ rest else more

print_none : (n : ℕ) (rest : Text) → print_digits zero n rest ≡ rest
unfolding print_digits
print_none n rest = refl

print_small :
    (fuel n : ℕ) (rest : Text)
    → ltb n 10 ≡ true
    → print_digits (suc fuel) n rest ≡ (b'0' + n) ∷ rest
unfolding print_digits
print_small fuel n rest h = rw h

print_large :
    (fuel n : ℕ) (rest : Text)
    → ltb n 10 ≡ false
    → print_digits (suc fuel) n rest ≡ print_digits fuel (n / 10) ((b'0' + n % 10) ∷ rest)
unfolding print_digits
print_large fuel n rest h = rw h

unfoldable pub to_decimal : ℕ → Text
unfolding print_digits
to_decimal n = print_digits (suc n) n []

abbrev pub IsDigits : Text → Type 0
IsDigits s = All (λ c. is_digit c ≡ true) s

-- The number that digits stand for, after `acc` before them.
abbrev pub decimal_value : ℕ → Text → ℕ
decimal_value acc [] = acc
decimal_value acc (c ∷ cs) = decimal_value (acc * 10 + (c - b'0')) cs

-- The longest run of digits: its number, and what follows it.
unfoldable pub read_digits : ℕ → Text → ℕ × Text
read_digits acc [] = (acc, [])
read_digits acc (c ∷ cs) =
    let more = read_digits (acc * 10 + (c - b'0')) cs in if is_digit c then more else (acc, c ∷ cs)

-- `wcstoll(s,&end,10)` where `s` begins with a digit: the value, whether errno is set, and `end`.
-- A number beyond the type is cut to its limit.
unfoldable pub wcstoll : Text → ℕ × Bool × Text
unfolding read_digits
wcstoll s =
    let (n, end) = read_digits 0 s in
    if ltb long_long_max n then (long_long_max, true, end) else (n, false, end)

pub decimal_value_ge : (acc : ℕ) (cs : Text) → acc ≤ decimal_value acc cs
decimal_value_ge acc [] = omega arith
decimal_value_ge acc (c ∷ cs) = omega (arith, decimal_value_ge (acc * 10 + (c - b'0')) cs)

print_digits-value :
    (fuel n : ℕ) (rest : Text)
    → n < fuel
    → decimal_value 0 (print_digits fuel n rest) ≡ decimal_value n rest
print_digits-value zero n rest h = absurd (omega arith)
print_digits-value (suc fuel) n rest h = elim (Bool-cases (ltb n 10)) [
  | inl small ↦ rw (print_small fuel n rest small) (ap (λ k. decimal_value k rest) (omega arith))
  | inr large ↦ rw (print_large fuel n rest large) (
      print_digits-value fuel (n / 10) ((b'0' + n % 10) ∷ rest) (ground arith)
      ∙ ap (λ k. decimal_value k rest) (omega arith))
]

print_digits-IsDigits :
    (fuel n : ℕ) (rest : Text) → IsDigits rest → IsDigits (print_digits fuel n rest)
print_digits-IsDigits zero n rest h = rw print_none h
print_digits-IsDigits (suc fuel) n rest h = elim (Bool-cases (ltb n 10)) [
  | inl small ↦ rw (print_small fuel n rest small) (ground arith, h)
  | inr large ↦
      rw (print_large fuel n rest large)
        (print_digits-IsDigits fuel (n / 10) ((b'0' + n % 10) ∷ rest) (ground arith, h))
]

print_digits-first :
    (fuel n : ℕ) (rest : Text)
    → 0 < n
    → n < fuel
    → (b'1' ≤ first (print_digits fuel n rest)) × (first (print_digits fuel n rest) ≤ b'9')
print_digits-first zero n rest p h = absurd (omega arith)
print_digits-first (suc fuel) n rest p h = elim (Bool-cases (ltb n 10)) [
  | inl small ↦ rw (print_small fuel n rest small) (ground arith, ground arith)
  | inr large ↦
      rw (print_large fuel n rest large)
        (print_digits-first fuel (n / 10) _ (ground arith) (ground arith))
]

print_digits-length :
    (k fuel n : ℕ) (rest : Text)
    → n < fuel
    → n < 10 ^ suc k
    → length (print_digits fuel n rest) ≤ suc k + length rest
print_digits-length k zero n rest h b = absurd (omega arith)
print_digits-length zero (suc fuel) n rest h b =
    rw (print_small fuel n rest (ground arith)) (omega arith)
print_digits-length (suc k) (suc fuel) n rest h b = elim (Bool-cases (ltb n 10)) [
  | inl small ↦ rw (print_small fuel n rest small) (omega arith)
  | inr large ↦ rw (print_large fuel n rest large) (
      omega (
        arith,
        print_digits-length k fuel (n / 10) ((b'0' + n % 10) ∷ rest) (ground arith)
            (omega (arith, pow-suc 10 (suc k), b)),
      ))
]

pub decimal_value-to_decimal : (n : ℕ) → decimal_value 0 (to_decimal n) ≡ n
unfolding to_decimal
decimal_value-to_decimal n = print_digits-value (suc n) n [] (omega arith)

pub to_decimal-IsDigits : (n : ℕ) → IsDigits (to_decimal n)
unfolding to_decimal
to_decimal-IsDigits n = print_digits-IsDigits (suc n) n [] tt

-- A positive number begins with a digit from 1 to 9.
pub first-to_decimal :
    (n : ℕ) → 0 < n → (b'1' ≤ first (to_decimal n)) × (first (to_decimal n) ≤ b'9')
unfolding to_decimal
first-to_decimal n h = print_digits-first (suc n) n [] h (omega arith)

-- A long long has at most 19 digits.
pub length-to_decimal : (n : ℕ) → n ≤ long_long_max → length (to_decimal n) ≤ 19
unfolding to_decimal
length-to_decimal n h =
    omega (arith, print_digits-length 18 (suc n) n [] (omega arith) (omega arith))

pub first-append :
    (n : ℕ) (rest : Text) → 0 < n → first (to_decimal n ++ rest) ≡ first (to_decimal n)
first-append n rest h = go (to_decimal n) (first-to_decimal n h).0
  where
    go : (s : Text) → b'1' ≤ first s → first (s ++ rest) ≡ first s
    go [] h = absurd (omega arith)
    go (c ∷ s) h = refl

-- Reading stops at the first character that is no digit.
pub read_digits-append :
    (acc : ℕ) (s rest : Text)
    → IsDigits s
    → is_digit (first rest) ≡ false
    → read_digits acc (s ++ rest) ≡ (decimal_value acc s, rest)
unfolding read_digits
read_digits-append acc [] [] d e = refl
read_digits-append acc [] (c ∷ rest) d e = rw e
read_digits-append acc (c ∷ s) rest d e =
    rw d.0 (read_digits-append (acc * 10 + (c - b'0')) s rest d.1 e)

-- What `%lld` has written, wcstoll reads back, whatever follows.
pub wcstoll-to_decimal :
    (n : ℕ) (rest : Text)
    → n ≤ long_long_max
    → is_digit (first rest) ≡ false
    → wcstoll (to_decimal n ++ rest) ≡ (n, false, rest)
unfolding wcstoll
wcstoll-to_decimal n rest h e =
    rw
      (
        read_digits-append 0 (to_decimal n) rest (to_decimal-IsDigits n) e,
        decimal_value-to_decimal n,
      )
      (ground arith)

pub IsDigits→IsText : (s : Text) → IsDigits s → IsText s
IsDigits→IsText [] d = tt
IsDigits→IsText (c ∷ s) d = (ground arith, IsDigits→IsText s d.1)

-- Rounds beyond those needed change nothing.
print_digits-fuel :
    (f g n : ℕ) (rest : Text) → n < f → n < g → print_digits f n rest ≡ print_digits g n rest
print_digits-fuel zero g n rest h k = absurd (omega arith)
print_digits-fuel (suc f) zero n rest h k = absurd (omega arith)
print_digits-fuel (suc f) (suc g) n rest h k = elim (Bool-cases (ltb n 10)) [
  | inl small ↦ rw (print_small f n rest small, print_small g n rest small) refl
  | inr large ↦
      rw (print_large f n rest large, print_large g n rest large)
        (print_digits-fuel f g (n / 10) ((b'0' + n % 10) ∷ rest) (ground arith) (ground arith))
]

print_digits-decimal_value :
    (f g acc : ℕ) (ds rest : Text)
    → 0 < acc
    → IsDigits ds
    → decimal_value acc ds < f
    → acc < g
    → print_digits f (decimal_value acc ds) rest ≡ print_digits g acc (ds ++ rest)
print_digits-decimal_value f g acc [] rest p d h k = print_digits-fuel f g acc rest h k
print_digits-decimal_value f g acc (c ∷ ds) rest p d h k =
    let n : ℕ = acc * 10 + (c - b'0') in
    print_digits-decimal_value f (suc n) n ds rest (omega arith) d.1 h (omega arith)
    ∙ print_large n n (ds ++ rest) (ground arith)
    ∙ (let quotient : n / 10 ≡ acc = ground (arith, d.0) in
        let digit : b'0' + n % 10 ≡ c = ground (arith, d.0) in
        rw (quotient, digit) (print_digits-fuel n g acc (c ∷ ds ++ rest) (omega arith) k))

-- Digits that do not begin with a zero are the ones that their number prints.
pub to_decimal-decimal_value :
    (ds : Text) → IsDigits ds → b'1' ≤ first ds → to_decimal (decimal_value 0 ds) ≡ ds
unfolding to_decimal
to_decimal-decimal_value [] d h = absurd (omega arith)
to_decimal-decimal_value (c ∷ ds) d h =
    let n : ℕ = 0 * 10 + (c - b'0') in
    print_digits-decimal_value (suc (decimal_value n ds)) (suc n) n ds [] (omega arith) d.1
      (omega arith) (omega arith)
    ∙ print_small n n (ds ++ []) (ground (arith, d.0))
    ∙ ap₂ ◌∷◌ (omega arith) (append_nil ds)

-- What reading consumes are digits, and what is left begins with none.
pub read_digits_lem :
    (acc : ℕ) (s : Text)
    → (ds : Text) × IsDigits ds
      × (s ≡ ds ++ (read_digits acc s).1)
      × ((read_digits acc s).0 ≡ decimal_value acc ds)
      × (is_digit (first s) ≡ true → first ds ≡ first s)
unfolding read_digits
read_digits_lem acc [] = ([], tt, refl, refl, λ t. refl)
read_digits_lem acc (c ∷ s) = elim (Bool-cases (is_digit c)) [
  | inr other ↦ rw other ([], tt, refl, refl, λ t. cc)
  | inl digit ↦
      let (ds, all, made, value, start) = read_digits_lem (acc * 10 + (c - b'0')) s in
      rw digit (c ∷ ds, (digit, all), ap (◌∷◌ c) made, value, λ t. refl)
]

-- A number that wcstoll reads without error, and that begins with no zero, is printed as it stands.
pub wcstoll_lem :
    (s : Text)
    → b'1' ≤ first s
    → first s ≤ b'9'
    → (wcstoll s).1 ≡ false
    → (s ≡ to_decimal (wcstoll s).0 ++ (wcstoll s).2) × ((wcstoll s).0 ≤ long_long_max)
unfolding wcstoll
wcstoll_lem s low high e =
    let (ds, all, made, value, start) = read_digits_lem 0 s in
    let fits : ltb long_long_max (read_digits 0 s).0 ≡ false = ground arith in
    let printed : to_decimal (read_digits 0 s).0 ≡ ds =
      rw value (to_decimal-decimal_value ds all (omega (arith, start (ground arith)))) in
    rw fits (made ∙ ap (λ t. t ++ (read_digits 0 s).1) (sym printed), ground arith)
