-- ===== src/Decimal/Signed.antt =====
-- Numbers with a sign, as swprintf's `%d` and `%lld` write them and wcstol and wcstoll read them in the
-- C locale. These are functions of the C library.
use nova_desktop.Base.{
  append_nil, ℕ, zero, suc, ◌+◌, ◌-◌, ◌^◌, ◌≤◌, ◌≡◌, refl, sym, ap, ◌∙◌, Bool, true, false, ◌&&◌,
  ◌||◌, [], ◌∷◌, arith, ltb, leb, ◌==◌, if◌then◌else◌, ℤ, pos, negsuc, Bool-cases, inl, inr,
}
use nova_desktop.Text.{Text, IsText, first, text_eq, text_eq_iff}
use nova_desktop.Decimal.{
  is_digit, to_decimal, read_digits, decimal_value, read_digits-append, first-to_decimal,
  to_decimal-IsDigits, decimal_value-to_decimal, IsDigits→IsText,
}

-- long has 32 bits.
abbrev pub long_max : ℕ
long_max = 2 ^ 31 - 1

-- `%d`
unfoldable pub print_int : ℤ → Text
print_int (pos n) = to_decimal n
print_int (negsuc n) = b'-' ∷ to_decimal (n + 1)

-- iswspace
abbrev is_space : ℕ → Bool
is_space c = (leb 9 c && leb c 13) || c == b' '

unfoldable pub skip_spaces : Text → Text
skip_spaces [] = []
skip_spaces (c ∷ cs) = if is_space c then skip_spaces cs else c ∷ cs

-- The sign, and what stands behind it.
unfoldable pub read_sign : Text → Bool × Text
read_sign [] = (false, [])
read_sign (c ∷ cs) =
    if c == b'-' then (true, cs) else if c == b'+' then (false, cs) else (false, c ∷ cs)

-- The number with its sign, cut to what lies between -`max` - 1 and `max`, and whether it was cut.
unfoldable pub signed : ℕ → Bool → ℕ → ℤ × Bool
signed max false n = if ltb max n then (pos max, true) else (pos n, false)
signed max true zero = (pos 0, false)
signed max true (suc n) = if ltb max n then (negsuc max, true) else (negsuc n, false)

-- What follows the number, which is the whole text where there is none.
abbrev pub number_of : ℕ → Text → Bool × Text → ℤ × Bool × Text
number_of max s (minus, digits) =
    if is_digit (first digits)
    then (let (n, end) = read_digits 0 digits in
        let (value, errno) = signed max minus n in (value, errno, end))
    else (pos 0, false, s)

-- `wcstol(s,&end,10)` for numbers up to `max`: the value, whether errno is set, and `end`.
unfoldable pub wcsto : ℕ → Text → ℤ × Bool × Text
unfolding skip_spaces read_sign read_digits signed
wcsto max s = number_of max s (read_sign (skip_spaces s))

zero_digit : is_digit (first (to_decimal 0)) ≡ true
unfolding to_decimal
zero_digit = refl

first_digit : (n : ℕ) → is_digit (first (to_decimal n)) ≡ true
first_digit zero = zero_digit
first_digit (suc n) = ground (arith, first-to_decimal (suc n) (omega arith))

-- A digit is neither a space nor a sign.
bare : (s : Text) → is_digit (first s) ≡ true → read_sign (skip_spaces s) ≡ (false, s)
unfolding skip_spaces read_sign
bare [] h = refl
bare (c ∷ s) h = ground (arith, h)

digits_read : (n : ℕ) → read_digits 0 (to_decimal n) ≡ (n, [])
digits_read n =
    ap (read_digits 0) (sym (append_nil (to_decimal n)))
    ∙ read_digits-append 0 (to_decimal n) [] (to_decimal-IsDigits n) refl
    ∙ ap (λ v. (v, [])) (decimal_value-to_decimal n)

-- What `%d` has written of a natural number, wcstol reads back.
pub wcsto-to_decimal : (max n : ℕ) → n ≤ max → wcsto max (to_decimal n) ≡ (pos n, false, [])
unfolding wcsto signed
wcsto-to_decimal max n h =
    rw (bare (to_decimal n) (first_digit n), first_digit n, digits_read n) (ground arith)

pub to_decimal-first : (n : ℕ) → first (to_decimal n) == 0 ≡ false
to_decimal-first n = ground (arith, first_digit n)

pub to_decimal-IsText : (n : ℕ) → IsText (to_decimal n)
to_decimal-IsText n = IsDigits→IsText (to_decimal n) (to_decimal-IsDigits n)

-- Different numbers are written differently.
pub to_decimal-injective : (m n : ℕ) → to_decimal m ≡ to_decimal n → m ≡ n
to_decimal-injective m n e =
    sym (decimal_value-to_decimal m) ∙ ap (decimal_value 0) e ∙ decimal_value-to_decimal n

-- A number is no text that begins with another character than a digit.
pub text_eq-to_decimal :
    (t : Text) (n : ℕ) → is_digit (first t) ≡ false → text_eq t (to_decimal n) ≡ false
text_eq-to_decimal t n h = elim (Bool-cases (text_eq t (to_decimal n))) [
  | inr apart ↦ apart
  | inl same ↦
      let e : t ≡ to_decimal n = (text_eq_iff t (to_decimal n)).0 same in
      let digit : is_digit (first t) ≡ true = rw e (first_digit n) in cc
]
