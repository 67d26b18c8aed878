-- ===== src/SshClient/Output.antt =====
-- platform/ssh_client.c: append_output, which keeps the end of what a command writes.
use nova_desktop.Base.{
  ℕ, ◌+◌, ◌-◌, ◌≤◌, ◌<◌, Bool-cases, inl, inr, ◌≡◌, refl, sym, ap, ◌∙◌, Bool, true, false, ◌||◌,
  List, [], ◌∷◌, ◌++◌, arith, leb, if◌then◌else◌, length, drop, length-append, length-drop,
  append_nil, append_assoc, get_elem?-append, get_elem?-drop, ext,
}
use nova_desktop.BatchRunner.Output.{joined}
use nova_desktop.SshClient.{Bytes}

abbrev pub output_cap : ℕ
output_cap = 65536

-- The bytes in front of the terminator, and `output_truncated`.
pub record Output : Type 0 where
  pub output : Bytes
  pub truncated : Bool

-- Of data that do not fit the end is kept, and nothing before them.
abbrev shortened : Output → Bytes → Output × Bytes
shortened r bytes =
    if leb output_cap (length bytes)
    then (record { output = []; truncated = true }, drop (length bytes - (output_cap - 1)) bytes)
    else (r, bytes)

abbrev with_room : Output → ℕ → Output
with_room r size =
    if leb output_cap (length r.output + size)
    then record {
      output = drop (length r.output + size - (output_cap - 1)) r.output;
      truncated = true;
    }
    else r

abbrev add_data : Output × Bytes → Output
add_data (r, bytes) =
    let r' : Output = with_room r (length bytes) in record r' { output = r'.output ++ bytes }

unfoldable pub append_output : Output → Bytes → Output
append_output r bytes = add_data (shortened r bytes)

-- The last bytes, as many as there is room for.
abbrev pub end_of : Bytes → Bytes
end_of xs = drop (length xs - (output_cap - 1)) xs

abbrev pub IsShort : Output → Type 0
IsShort r = length r.output ≤ output_cap - 1

drop-end_of :
    (xs ys : Bytes) (n : ℕ)
    → n ≡ length xs + length ys - (output_cap - 1)
    → n ≤ length xs
    → drop n xs ++ ys ≡ end_of (xs ++ ys)
drop-end_of xs ys n e h = ext _ _ λ k. ground (
  arith,
  length-append xs ys,
  length-drop n xs,
  get_elem?-append (drop n xs) ys k,
  get_elem?-drop n xs k,
  get_elem?-drop (length (xs ++ ys) - (output_cap - 1)) (xs ++ ys) k,
  get_elem?-append xs ys (length (xs ++ ys) - (output_cap - 1) + k),
)

long-end_of :
    (xs ys : Bytes)
    → output_cap ≤ length ys
    → drop (length ys - (output_cap - 1)) ys ≡ end_of (xs ++ ys)
long-end_of xs ys h = ext _ _ λ k. ground (
  arith,
  length-append xs ys,
  get_elem?-drop (length ys - (output_cap - 1)) ys k,
  get_elem?-drop (length (xs ++ ys) - (output_cap - 1)) (xs ++ ys) k,
  get_elem?-append xs ys (length (xs ++ ys) - (output_cap - 1) + k),
)

or_true : (b : Bool) → (b || true) ≡ true
or_true true = refl
or_true false = refl

or_false : (b : Bool) → (b || false) ≡ b
or_false true = refl
or_false false = refl

-- What fits goes behind what is there, or behind its end.
roomy_lem :
    (r : Output) (bytes : Bytes)
    → IsShort r
    → length bytes < output_cap
    → ((add_data (r, bytes)).output ≡ end_of (r.output ++ bytes))
      × ((add_data (r, bytes)).truncated
          ≡ (r.truncated || leb output_cap (length r.output + length bytes)))
roomy_lem r bytes short fits = elim (Bool-cases (leb output_cap (length r.output + length bytes))) [
  | inl full ↦
      rw (full, or_true r.truncated)
        (
          drop-end_of r.output bytes (length r.output + length bytes - (output_cap - 1)) refl
              (ground arith),
          refl,
        )
  | inr free ↦
      rw (free, or_false r.truncated)
        (
          (let none_of : length (r.output ++ bytes) - (output_cap - 1) ≡ 0 =
                ground (arith, length-append r.output bytes) in
              ap (λ n. drop n (r.output ++ bytes)) (sym none_of)),
          refl,
        )
]

-- One call keeps the end of all that was written.
append_output_lem :
    (r : Output) (bytes : Bytes)
    → IsShort r
    → ((append_output r bytes).output ≡ end_of (r.output ++ bytes))
      × ((append_output r bytes).truncated
          ≡ (r.truncated || leb output_cap (length r.output + length bytes)))
unfolding append_output
append_output_lem r bytes short = elim (Bool-cases (leb output_cap (length bytes))) [
  | inr fits ↦ rw fits (roomy_lem r bytes short (ground arith))
  | inl long ↦
      let kept : Bytes = drop (length bytes - (output_cap - 1)) bytes in
      let size : length kept ≡ output_cap - 1 =
        length-drop (length bytes - (output_cap - 1)) bytes ∙ ground arith in
      let all : leb output_cap (length r.output + length bytes) ≡ true = ground arith in
      let room : leb output_cap (0 + length kept) ≡ false = ground (arith, size) in
      rw (long, room, all, or_true r.truncated) (long-end_of r.output bytes (ground arith), refl)
]

length-end_of : (xs : Bytes) → length (end_of xs) ≤ output_cap - 1
length-end_of xs =
    let e : length (end_of xs) ≡ _ = length-drop (length xs - (output_cap - 1)) xs in
    omega (arith, e)

-- The end of an end and what comes behind it is the end of the whole.
end_of-end_of : (xs ys : Bytes) → end_of (end_of xs ++ ys) ≡ end_of (xs ++ ys)
end_of-end_of xs ys = ext _ _ λ k. ground (
  arith,
  length-append xs ys,
  length-append (end_of xs) ys,
  length-drop (length xs - (output_cap - 1)) xs,
  get_elem?-drop (length (end_of xs ++ ys) - (output_cap - 1)) (end_of xs ++ ys) k,
  get_elem?-append (end_of xs) ys (length (end_of xs ++ ys) - (output_cap - 1) + k),
  get_elem?-drop (length xs - (output_cap - 1)) xs
      (length (end_of xs ++ ys) - (output_cap - 1) + k),
  get_elem?-drop (length (xs ++ ys) - (output_cap - 1)) (xs ++ ys) k,
  get_elem?-append xs ys (length (xs ++ ys) - (output_cap - 1) + k),
)

-- The output of a command whose writes are `chunks`.
abbrev pub append_all : Output → List Bytes → Output
append_all r [] = r
append_all r (c ∷ cs) = append_all (append_output r c) cs

still_cut :
    (r : Output) (all bytes : Bytes)
    → r.output ≡ end_of all
    → r.truncated ≡ leb output_cap (length all)
    → (r.truncated || leb output_cap (length r.output + length bytes))
      ≡ leb output_cap (length (all ++ bytes))
still_cut r all bytes out cut =
    let size : length r.output ≡ length (end_of all) = ap (λ xs. length xs) out in
    ground
      (arith, size, cut, length-append all bytes, length-drop (length all - (output_cap - 1)) all)

append_all_lem :
    (r : Output) (all : Bytes) (chunks : List Bytes)
    → r.output ≡ end_of all
    → r.truncated ≡ leb output_cap (length all)
    → ((append_all r chunks).output ≡ end_of (all ++ joined chunks))
      × ((append_all r chunks).truncated ≡ leb output_cap (length (all ++ joined chunks)))
append_all_lem r all [] out cut = rw (append_nil all) (out, cut)
append_all_lem r all (c ∷ cs) out cut =
    let short : IsShort r = rw out (length-end_of all) in
    let (out', cut') = append_output_lem r c short in
    rw⁻¹ (append_assoc all c (joined cs)) (
      append_all_lem (append_output r c) (all ++ c) cs
        (out' ∙ ap (λ xs. end_of (xs ++ c)) out ∙ end_of-end_of all c)
        (cut' ∙ still_cut r all c out cut))

-- What ssh_client_exec returns of the output is its last 65535 bytes, however it was read, and it says that something is missing
-- where there was more.
pub append_output_reads :
    (chunks : List Bytes)
    → ((append_all (record { output = []; truncated = false }) chunks).output
        ≡ end_of (joined chunks))
      × ((append_all (record { output = []; truncated = false }) chunks).truncated
          ≡ leb output_cap (length (joined chunks)))
append_output_reads chunks =
    append_all_lem (record { output = []; truncated = false }) [] chunks refl refl
