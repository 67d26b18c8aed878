-- ===== src/SshClient/Transfer/Loops.antt =====
-- platform/ssh_client.c: what the loops of a transfer have moved when they end well.
use nova_desktop.Base.{
  ℕ, ◌≡◌, refl, ◌⊎◌, inl, inr, arith, ◌∙◌, sym, ap, Bool-cases, Bool, true, false, List, [], ◌∷◌,
  ◌++◌, ◌==◌, if◌then◌else◌, ℤ, pos, negsuc, length, take, drop, append_nil, append_assoc,
  take-append-drop,
}
use nova_desktop.SshClient.{Bytes, Try, again, gives, Waiting, waiting, went_on, retry}
use nova_desktop.SshClient.Transfer.{
  buffer_size, Incoming, cancelled, receives, Outgoing, stopped, unread, sends, Arrived, received,
  download_rounds, written_part, write_all, then_round, upload_rounds, ended,
}

-- The bytes of a transfer that goes well.
abbrev pub Yields : Bytes → Arrived → Type 0
Yields content (ok, arrived, native_error) = (ok ≡ false) ⊎ (arrived ≡ content)

empty : (xs : Bytes) → (length xs == 0) ≡ true → xs ≡ []
empty [] h = refl
empty (x ∷ xs) h = absurd (ground arith)

-- What was in front stays in front.
all_parts :
    (content rest : Bytes) (n : ℕ) → (content ++ take n rest) ++ drop n rest ≡ content ++ rest
all_parts content rest n =
    append_assoc content (take n rest) (drop n rest)
    ∙ ap (λ xs. content ++ xs) (take-append-drop n rest)

ended_parts : (content rest : Bytes) → (length rest == 0) ≡ true → content ≡ content ++ rest
ended_parts content rest h = sym (ap (λ xs. content ++ xs) (empty rest h) ∙ append_nil content)

written_part-Yields :
    (rest content : Bytes) (next : Bytes → Bytes → ℕ → Arrived) (x : ℤ × ℕ)
    → ((r k : Bytes) (e : ℕ) → Yields (k ++ r) (next r k e))
    → Yields (content ++ rest) (written_part rest content next x)
written_part-Yields rest content next (negsuc n, e) later = inl refl
written_part-Yields rest content next (pos n, e) later = elim (Bool-cases (n == 0)) [
  | inl nothing ↦ rw nothing (inl refl)
  | inr some_bytes ↦
      rw (some_bytes, sym (all_parts content rest n))
        (later (drop n rest) (content ++ take n rest) e)
]

write_all-Yields :
    (answers : List (List Try)) (rest content : Bytes) (native_error : ℕ)
    → Yields (content ++ rest) (write_all answers rest content native_error)
unfolding write_all
write_all-Yields [] rest content native_error = elim (Bool-cases (length rest == 0)) [
  | inl done ↦ inr (ended_parts content rest done)
  | inr more ↦ inl more
]
write_all-Yields (calls ∷ answers) rest content native_error =
    elim (Bool-cases (length rest == 0)) [
      | inl done ↦ rw done (inr (ended_parts content rest done))
      | inr more ↦ rw more (
          written_part-Yields rest content (write_all answers) (retry calls native_error)
            (write_all-Yields answers))
    ]

then_round-Yields :
    (source content : Bytes) (next : Bytes → ℕ → Arrived) (x : Arrived)
    → Yields (content ++ take buffer_size source) x
    → ((k : Bytes) (e : ℕ) → Yields (k ++ drop buffer_size source) (next k e))
    → Yields (content ++ source) (then_round next x)
then_round-Yields source content next (false, arrived, e) written later = inl refl
then_round-Yields source content next (true, arrived, e) (inl failed_write) later =
    absurd (ground arith)
then_round-Yields source content next (true, arrived, e) (inr written) later =
    rw (written, sym (all_parts content source buffer_size))
      (later (content ++ take buffer_size source) e)

pub upload_rounds-Yields :
    (rounds : List Outgoing) (source content : Bytes) (native_error : ℕ)
    → Yields (content ++ source) (upload_rounds rounds source content native_error)
unfolding upload_rounds
upload_rounds-Yields [] source content native_error = elim (Bool-cases (length source == 0)) [
  | inl done ↦ inr (ended_parts content source done)
  | inr more ↦ inl more
]
upload_rounds-Yields (stopped ∷ rounds) source content native_error = inl refl
upload_rounds-Yields (unread ∷ rounds) source content native_error = inl refl
upload_rounds-Yields (sends answers ∷ rounds) source content native_error =
    elim (Bool-cases (length source == 0)) [
      | inl done ↦ rw done (inr (ended_parts content source done))
      | inr more ↦ rw more (
          then_round-Yields source content (upload_rounds rounds (drop buffer_size source)) _
            (write_all-Yields answers (take buffer_size source) content native_error)
            (upload_rounds-Yields rounds (drop buffer_size source)))
    ]

-- What a call of libssh2 answers in the end, and the bytes of all answers up to the end of a file.
abbrev pub answer : List Try → ℤ
answer calls = (retry calls 0).0

abbrev then_bytes : ℤ → Bytes → Bytes → Bytes
then_bytes (negsuc n) buffer more = []
then_bytes (pos n) buffer more = if n == 0 then [] else take n buffer ++ more

unfoldable pub served : List Incoming → Bytes
served [] = []
served (cancelled ∷ rounds) = []
served (receives calls buffer writes ∷ rounds) = then_bytes (answer calls) buffer (served rounds)

waiting-goes : (w : Waiting) (d e : ℕ) → (waiting w d).0 ≡ (waiting w e).0
unfolding waiting
waiting-goes w d e = ground arith

went_on-answer :
    (x y : Bool × ℕ) (f g : ℕ → ℤ × ℕ)
    → x.0 ≡ y.0
    → ((d e : ℕ) → (f d).0 ≡ (g e).0)
    → (went_on x f).0 ≡ (went_on y g).0
went_on-answer (true, d) (true, e) f g same later = later d e
went_on-answer (true, d) (false, e) f g same later = absurd (ground arith)
went_on-answer (false, d) (true, e) f g same later = absurd (ground arith)
went_on-answer (false, d) (false, e) f g same later = refl

retry-answer : (calls : List Try) (d e : ℕ) → (retry calls d).0 ≡ (retry calls e).0
unfolding retry
retry-answer [] d e = refl
retry-answer (gives rc ∷ calls) d e = refl
retry-answer (again w ∷ calls) d e =
    went_on-answer (waiting w d) (waiting w e) (retry calls) (retry calls) (waiting-goes w d e)
      (retry-answer calls)

received-Yields :
    (content buffer more : Bytes) (writes : Bool) (next : Bytes → ℕ → Arrived) (x : ℤ × ℕ)
    → ((k : Bytes) (e : ℕ) → Yields (k ++ more) (next k e))
    → Yields (content ++ then_bytes x.0 buffer more) (received content writes buffer next x)
received-Yields content buffer more writes next (negsuc n, e) later = inl refl
received-Yields content buffer more writes next (pos n, e) later = elim (Bool-cases (n == 0)) [
  | inl ended ↦ rw ended (inr (sym (append_nil content)))
  | inr some_bytes ↦ elim (Bool-cases writes) [
    | inl written ↦
        rw (some_bytes, written, sym (append_assoc content (take n buffer) more))
          (later (content ++ take n buffer) e)
    | inr unwritten ↦ rw (some_bytes, unwritten) (inl refl)
  ]
]

pub download_rounds-Yields :
    (rounds : List Incoming) (content : Bytes) (native_error : ℕ)
    → Yields (content ++ served rounds) (download_rounds rounds content native_error)
unfolding download_rounds served
download_rounds-Yields [] content native_error = inr (sym (append_nil content))
download_rounds-Yields (cancelled ∷ rounds) content native_error = inl refl
download_rounds-Yields (receives calls buffer writes ∷ rounds) content native_error =
    rw (retry-answer calls 0 native_error) (
      received-Yields content buffer (served rounds) writes (download_rounds rounds)
        (retry calls native_error) (download_rounds-Yields rounds))
