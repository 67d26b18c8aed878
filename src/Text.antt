-- ===== src/Text.antt =====
-- Wide strings as C has them. A `const wchar_t *` argument is a `Text`, the characters before its
-- terminator; an array that a check or a copy looks at cell by cell is a `Buffer`, all its cells.
-- wcslen is `length`. These are functions of the C library: core/server_profile.c and
-- core/sync_model.c add only `bounded`.
use Prim.Native.Char.{code}
use Prim.Native.String.{String}
use nova_desktop.Base.{
  ℕ, zero, suc, ◌+◌, ◌<◌, ◌≡◌, ◌≢◌, refl, ap, Bool, true, false, ◌&&◌, ◌↔◌, Option, none, some,
  List, [], ◌∷◌, ◌++◌, arith, ◌==◌, if◌then◌else◌, length, drop, All,
}

abbrev pub Text : Type 0
Text = List ℕ

abbrev pub Buffer : Type 0
Buffer = List ℕ

-- No terminator inside.
abbrev pub IsText : Text → Type 0
IsText s = All (λ c. c ≢ 0) s

-- `wcscmp(a,b)==0`.
unfoldable pub text_eq : Text → Text → Bool
text_eq [] [] = true
text_eq [] (b ∷ bs) = false
text_eq (a ∷ as') [] = false
text_eq (a ∷ as') (b ∷ bs) = a == b && text_eq as' bs

-- The string that an array holds.
unfoldable pub c_str : Buffer → Text
c_str [] = []
c_str (zero ∷ cells) = []
c_str (suc c ∷ cells) = suc c ∷ c_str cells

-- `wmemchr(s,0,cap)!=NULL`.
unfoldable pub bounded : Buffer → ℕ → Bool
bounded cells zero = false
bounded [] (suc cap) = false
bounded (zero ∷ cells) (suc cap) = true
bounded (suc c ∷ cells) (suc cap) = bounded cells cap

-- `wcscpy(cells,s)`: the cells behind the terminator keep their values.
unfoldable pub wcscpy : Buffer → Text → Buffer
wcscpy cells s = s ++ 0 ∷ drop (length s + 1) cells

-- `wcschr(s,c)!=NULL` for a `c` other than the terminator.
unfoldable pub has_char : Text → ℕ → Bool
has_char [] c = false
has_char (x ∷ xs) c = if x == c then true else has_char xs c

-- `wcspbrk(s,set)!=NULL`.
unfoldable pub has_any : Text → Text → Bool
unfolding has_char
has_any [] chars = false
has_any (x ∷ xs) chars = if has_char chars x then true else has_any xs chars

pub text_eq_iff : (a b : Text) → (text_eq a b ≡ true) ↔ (a ≡ b)
unfolding text_eq
text_eq_iff [] [] = (λ _. refl, λ _. refl)
text_eq_iff [] (b ∷ bs) = (λ h. cc, λ h. cc)
text_eq_iff (a ∷ as') [] = (λ h. cc, λ h. cc)
text_eq_iff (a ∷ as') (b ∷ bs) = ground (arith, text_eq_iff as' bs)

pub text_eq_refl : (a : Text) → text_eq a a ≡ true
text_eq_refl a = (text_eq_iff a a).1 refl

pub text_eq_comm : (a b : Text) → text_eq a b ≡ text_eq b a
unfolding text_eq
text_eq_comm [] [] = refl
text_eq_comm [] (b ∷ bs) = refl
text_eq_comm (a ∷ as') [] = refl
text_eq_comm (a ∷ as') (b ∷ bs) = ground (arith, text_eq_comm as' bs)

pub c_str-IsText : (cells : Buffer) → IsText (c_str cells)
unfolding c_str
c_str-IsText [] = tt
c_str-IsText (zero ∷ cells) = tt
c_str-IsText (suc c ∷ cells) = (omega arith, c_str-IsText cells)

-- A string followed by a terminator is read back.
pub c_str-append : (s : Text) (rest : Buffer) → IsText s → c_str (s ++ 0 ∷ rest) ≡ s
unfolding c_str
c_str-append [] rest h = refl
c_str-append (zero ∷ s) rest h = absurd (h.0 refl)
c_str-append (suc c ∷ s) rest h = ap (◌∷◌ (suc c)) (c_str-append s rest h.1)

pub c_str-wcscpy : (cells : Buffer) (s : Text) → IsText s → c_str (wcscpy cells s) ≡ s
unfolding wcscpy
c_str-wcscpy cells s h = c_str-append s (drop (length s + 1) cells) h

pub bounded-append :
    (s : Text) (rest : Buffer) (cap : ℕ) → length s < cap → bounded (s ++ 0 ∷ rest) cap ≡ true
unfolding bounded
bounded-append s rest zero h = absurd (omega arith)
bounded-append [] rest (suc cap) h = refl
bounded-append (zero ∷ s) rest (suc cap) h = refl
bounded-append (suc c ∷ s) rest (suc cap) h = bounded-append s rest cap (omega arith)

pub bounded-wcscpy :
    (cells : Buffer) (s : Text) (cap : ℕ) → length s < cap → bounded (wcscpy cells s) cap ≡ true
unfolding wcscpy
bounded-wcscpy cells s cap h = bounded-append s (drop (length s + 1) cells) cap h

-- A terminator among the first `cap` cells bounds the string.
pub length-c_str :
    (cells : Buffer) (cap : ℕ) → bounded cells cap ≡ true → length (c_str cells) < cap
unfolding bounded c_str
length-c_str cells zero h = cc
length-c_str [] (suc cap) h = cc
length-c_str (zero ∷ cells) (suc cap) h = omega arith
length-c_str (suc c ∷ cells) (suc cap) h = omega (arith, length-c_str cells cap h)

-- The characters of a text literal. `String` has its own `[]` and `∷`.
abbrev pub codes : String → Text
codes String.[] = []
codes (String.◌∷◌ c s) = code c ∷ codes s

-- `*p`, the first character or the terminator.
abbrev pub first : Text → ℕ
first [] = 0
first (c ∷ cs) = c

-- `wcsncmp(s,prefix,wcslen(prefix))==0`, with the rest of `s`.
unfoldable pub strip_prefix : Text → Text → Option Text
strip_prefix [] s = some s
strip_prefix (p ∷ ps) [] = none
strip_prefix (p ∷ ps) (c ∷ cs) = if p == c then strip_prefix ps cs else none

pub strip_prefix-append : (p s : Text) → strip_prefix p (p ++ s) ≡ some s
unfolding strip_prefix
strip_prefix-append [] s = refl
strip_prefix-append (c ∷ p) s = ground (arith, strip_prefix-append p s)

pub strip_prefix-eq-some : (p s : Text) {rest : Text} → strip_prefix p s ≡ some rest → s ≡ p ++ rest
unfolding strip_prefix
strip_prefix-eq-some [] s e = cc
strip_prefix-eq-some (c ∷ p) [] e = cc
strip_prefix-eq-some (c ∷ p) (d ∷ s) {rest} e =
    ground (arith, strip_prefix-eq-some p s {rest = rest})
