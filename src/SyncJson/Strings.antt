-- ===== src/SyncJson/Strings.antt =====
-- Strings in JSON as sync_buffer_string of platform/sync_json.c escapes them, and their reading.
use nova_desktop.Base.{
  append_nil, append_assoc, ℕ, ◌+◌, ◌-◌, ◌*◌, ◌/◌, ◌%◌, ◌<◌, ◌≡◌, sym, ap, ◌∙◌, ◌||◌, List, [], ◌∷◌,
  ◌++◌, Option, none, some, arith, ltb, leb, ◌==◌, if◌then◌else◌, Bool-cases, inl, inr,
}
use nova_desktop.SyncJson.{escaped, hex_digit}

-- Where a reader of a JSON string stands: among characters, behind a backslash, or behind some hexadecimal
-- digits of a character, with their number and value.
pub data Place : Type 0 where
  among : Place
  behind_backslash : Place
  in_digits : ℕ → ℕ → Place

abbrev pub digit_value : ℕ → ℕ
digit_value c = if leb c b'9' then c - b'0' else c - b'a' + 10

-- The characters up to the closing quote, in addition to `out`, and what follows it. Control characters are
-- refused, and of the escapes only those of a quote, a backslash and four digits are known.
pub read_string : Place → List ℕ → List ℕ → Option (List ℕ × List ℕ)
read_string place out [] = none
read_string among out (c ∷ cs) =
    let next = read_string among (out ++ c ∷ []) cs in
    let escape = read_string behind_backslash out cs in
    if c == b'"'
    then some (out, cs)
    else if c == b'\\'
    then escape
    else if ltb c 32
    then none
    else next
read_string behind_backslash out (c ∷ cs) =
    let next = read_string among (out ++ c ∷ []) cs in
    let digits = read_string (in_digits 0 0) out cs in
    if c == b'u' then digits else if c == b'"' || c == b'\\' then next else none
read_string (in_digits n value) out (c ∷ cs) =
    let value' = value * 16 + digit_value c in
    let next = read_string among (out ++ value' ∷ []) cs in
    let more = read_string (in_digits (n + 1) value') out cs in if n == 3 then next else more

abbrev pub escape_all : List ℕ → List ℕ
escape_all [] = []
escape_all (c ∷ s) = escaped c ++ escape_all s

hex_digit_lem : (d : ℕ) → d < 16 → digit_value (hex_digit d) ≡ d
hex_digit_lem d h = ground arith

read-escaped :
    (c : ℕ) (out rest : List ℕ)
    → read_string among out (escaped c ++ rest) ≡ read_string among (out ++ c ∷ []) rest
unfolding read_string
read-escaped c out rest = elim (Bool-cases (c == b'"' || c == b'\\')) [
  | inl quoted ↦ rw quoted (ground arith)
  | inr other ↦ elim (Bool-cases (ltb c 32)) [
    | inl control ↦
        rw (other, control)
          (ap (λ n. read_string among (out ++ n ∷ []) rest)
            (omega
              (arith, hex_digit_lem (c / 16) (ground arith), hex_digit_lem (c % 16) (omega arith))))
    | inr plain ↦ rw (other, plain) (ground arith)
  ]
]

pub read-escape_all :
    (s out rest : List ℕ)
    → read_string among out (escape_all s ++ b'"' ∷ rest) ≡ some (out ++ s, rest)
unfolding read_string
read-escape_all [] out rest = ap (λ t. some (t, rest)) (sym (append_nil out))
read-escape_all (c ∷ s) out rest =
    ap (read_string among out) (append_assoc (escaped c) (escape_all s) (b'"' ∷ rest))
    ∙ read-escaped c out (escape_all s ++ b'"' ∷ rest)
    ∙ read-escape_all s (out ++ c ∷ []) rest
    ∙ ap (λ t. some (t, rest)) (append_assoc out (c ∷ []) s)
