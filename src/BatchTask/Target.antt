-- ===== src/BatchTask/Target.antt =====
-- The launcher target of a batch task in core/batch_task.c: `nova-batch:` and the task's id.
use nova_desktop.Base.{
  ℕ, ◌+◌, ◌-◌, ◌*◌, ◌/◌, ◌≤◌, ◌<◌, ◌≡◌, ◌≢◌, ◌↔◌, refl, ◌∙◌, ap, ◌||◌, not, [], ◌∷◌, ◌++◌, Option,
  none, some, arith, ltb, leb, ◌==◌, if◌then◌else◌, ℤ, pos, negsuc, length, length-append, sym,
}
use nova_desktop.Text.{Text, codes, strip_prefix, strip_prefix-append, strip_prefix-eq-some}
use nova_desktop.Decimal.{
  long_long_max, is_digit, IsDigits, to_decimal, decimal_value, decimal_value_ge,
  decimal_value-to_decimal, to_decimal-IsDigits, length-to_decimal,
}

abbrev pub target_prefix : Text
target_prefix = codes "nova-batch:"

-- The target written into `capacity` characters: none where 0 is returned. swprintf fails where the
-- text and its terminator do not fit.
pub batch_task_target : ℤ → ℕ → Option Text
batch_task_target (negsuc id) capacity = none
batch_task_target (pos id) capacity =
    if id == 0 || ltb capacity 30
    then none
    else if ltb (length (target_prefix ++ to_decimal id)) capacity
    then some (target_prefix ++ to_decimal id)
    else none

-- The loop over the digits: 0 at a character that is none, or beyond LLONG_MAX.
unfoldable pub scan_id : ℕ → Text → ℕ
scan_id id [] = id
scan_id id (c ∷ cs) =
    let more = scan_id (id * 10 + (c - b'0')) cs in
    if not (is_digit c) || ltb ((long_long_max - (c - b'0')) / 10) id then 0 else more

-- What is read behind the prefix, if that is there: `if(!*p)return 0;` and then the loop.
id_behind : Option Text → ℕ
id_behind none = 0
id_behind (some []) = 0
id_behind (some (c ∷ cs)) = scan_id 0 (c ∷ cs)

unfoldable pub batch_task_target_id : Text → ℕ
unfolding scan_id id_behind
batch_task_target_id target = id_behind (strip_prefix target_prefix target)

-- The overflow test of the loop never stops a number that fits, and stops every other.
scan_id_digits :
    (id : ℕ) (s : Text)
    → IsDigits s
    → id ≤ long_long_max
    → scan_id id s ≡ (if leb (decimal_value id s) long_long_max then decimal_value id s else 0)
unfolding scan_id
scan_id_digits id [] d h = ground arith
scan_id_digits id (c ∷ s) d h = ground (
  arith,
  d.0,
  scan_id_digits (id * 10 + (c - b'0')) s d.1,
  decimal_value_ge (id * 10 + (c - b'0')) s,
)

scan_id-IsDigits : (id : ℕ) (s : Text) → scan_id id s ≢ 0 → IsDigits s
unfolding scan_id
scan_id-IsDigits id [] h = tt
scan_id-IsDigits id (c ∷ s) h =
    (ground arith, scan_id-IsDigits (id * 10 + (c - b'0')) s (ground arith))

-- The text is the prefix and then digits of a number within long long.
abbrev pub Denotes : Text → ℕ → Type 0
Denotes target n =
    (s : Text) × (target ≡ target_prefix ++ s)
    × IsDigits s
    × (decimal_value 0 s ≡ n)
    × (n ≤ long_long_max)

id_behind-some : (s : Text) → id_behind (some s) ≡ scan_id 0 s
unfolding id_behind scan_id
id_behind-some [] = refl
id_behind-some (c ∷ s) = refl

target_id-append : (s : Text) → batch_task_target_id (target_prefix ++ s) ≡ scan_id 0 s
unfolding batch_task_target_id
target_id-append s = ap id_behind (strip_prefix-append target_prefix s) ∙ id_behind-some s

scanned-Denotes : (s : Text) (n : ℕ) → 0 < n → scan_id 0 s ≡ n → Denotes (target_prefix ++ s) n
scanned-Denotes s n p e =
    let d = scan_id-IsDigits 0 s (ground arith) in
    let v = scan_id_digits 0 s d (omega arith) in (s, refl, d, ground arith, ground arith)

found-Denotes :
    (target : Text) (n : ℕ) (r : Option Text)
    → strip_prefix target_prefix target ≡ r
    → 0 < n
    → id_behind r ≡ n
    → Denotes target n
unfolding id_behind
found-Denotes target n none f p e = absurd (omega arith)
found-Denotes target n (some s) f p e =
    rw (strip_prefix-eq-some target_prefix target f)
      (scanned-Denotes s n p (sym (id_behind-some s) ∙ e))

-- The id read from a target text is positive exactly where the text is the prefix and digits that stand
-- for a positive number within long long, and it is that number.
pub batch_task_target_id_iff :
    (target : Text) (n : ℕ) → 0 < n → (batch_task_target_id target ≡ n) ↔ Denotes target n
unfolding batch_task_target_id
batch_task_target_id_iff target n p = (
  found-Denotes target n (strip_prefix target_prefix target) refl p,
  λ (s, e, d, v, b).
      rw (e, target_id-append s, scan_id_digits 0 s d (omega arith), v) (ground arith),
)

-- For every id of a task 31 characters are enough for the target, and the id is read back from it.
pub batch_task_target_id-target :
    (n capacity : ℕ)
    → 0 < n
    → n ≤ long_long_max
    → 31 ≤ capacity
    → (target : Text) × (batch_task_target (pos n) capacity ≡ some target)
      × (batch_task_target_id target ≡ n)
unfolding batch_task_target
batch_task_target_id-target n capacity p b c = (
  target_prefix ++ to_decimal n,
  ground (arith, length-append target_prefix (to_decimal n), length-to_decimal n b),
  (batch_task_target_id_iff _ n p).1
      (to_decimal n, refl, to_decimal-IsDigits n, decimal_value-to_decimal n, b),
)
