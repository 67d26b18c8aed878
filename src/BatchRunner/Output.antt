-- ===== src/BatchRunner/Output.antt =====
-- The tail that read_output of platform/batch_runner.c keeps of the output of a command.
use nova_desktop.Base.{
  append_nil, append_assoc, ℕ, ◌+◌, ◌-◌, ◌≤◌, ◌≡◌, refl, sym, ap, ◌∙◌, List, [], ◌∷◌, ◌++◌, arith,
  ◌==◌, length, take, drop, memmove, length-take, length-drop, length-append, length-memmove,
  get_elem?-append, get_elem?-none, get_elem?-drop, get_elem?-take, get_elem?-memmove, ext, All,
  Bool-cases, inl, inr,
}
use nova_desktop.BatchRunner.{
  OutputReader, tail_cap, chunk_cap, memcpy, discard_of, moved, read_chunk, read_output,
}

-- The bytes that are kept.
abbrev pub kept : OutputReader → List ℕ
kept reader = take reader.length reader.tail

-- The last `tail_cap` elements.
abbrev pub last_bytes : List ℕ → List ℕ
last_bytes xs = drop (length xs - tail_cap) xs

abbrev pub joined : List (List ℕ) → List ℕ
joined [] = []
joined (c ∷ cs) = c ++ joined cs

-- The reader has all its cells, and the chunks fit `chunk`.
abbrev pub IsReader : OutputReader → Type 0
IsReader reader = (length reader.tail ≡ tail_cap) × (reader.length ≤ tail_cap)

abbrev pub Chunks : List (List ℕ) → Type 0
Chunks chunks = All (λ c. length c ≤ chunk_cap) chunks

length-memcpy :
    (cells : List ℕ) (at : ℕ) (bytes : List ℕ)
    → at + length bytes ≤ length cells
    → length (memcpy cells at bytes) ≡ length cells
length-memcpy cells at bytes h = omega (
  arith,
  length-append (take at cells) (bytes ++ drop (at + length bytes) cells),
  length-append bytes (drop (at + length bytes) cells),
  length-take at cells,
  length-drop (at + length bytes) cells,
)

-- The used cells in front of a copy, and the copy.
take-memcpy :
    (cells : List ℕ) (at : ℕ) (bytes : List ℕ)
    → at + length bytes ≤ length cells
    → take (at + length bytes) (memcpy cells at bytes) ≡ take at cells ++ bytes
take-memcpy cells at bytes h = ext _ _ λ k. ground (
  arith,
  get_elem?-take (at + length bytes) (memcpy cells at bytes) k,
  get_elem?-append (take at cells) (bytes ++ drop (at + length bytes) cells) k,
  get_elem?-append bytes (drop (at + length bytes) cells) (k - length (take at cells)),
  get_elem?-append (take at cells) bytes k,
  get_elem?-none bytes (k - length (take at cells)),
  length-take at cells,
)

take-memmove_front :
    (cells : List ℕ) (discard n : ℕ)
    → discard + n ≤ length cells
    → take n (memmove cells 0 discard n) ≡ drop discard (take (discard + n) cells)
take-memmove_front cells discard n h = ext _ _ λ k. ground (
  arith,
  get_elem?-take n (memmove cells 0 discard n) k,
  get_elem?-memmove cells 0 discard n k (omega arith) (omega arith),
  get_elem?-drop discard (take (discard + n) cells) k,
  get_elem?-take (discard + n) cells (discard + k),
)

length-moved :
    (reader : OutputReader) (discard : ℕ)
    → IsReader reader
    → discard ≤ reader.length
    → length (moved reader discard) ≡ tail_cap
length-moved reader discard r h = elim (Bool-cases (discard == 0)) [
  | inl none_of ↦ rw none_of (r.0)
  | inr some_of ↦ rw some_of (
      length-memmove reader.tail 0 discard (reader.length - discard) (omega (arith, r.0, r.1))
        (omega (arith, r.0, r.1))
      ∙ r.0)
]

take-moved :
    (reader : OutputReader) (discard : ℕ)
    → IsReader reader
    → discard ≤ reader.length
    → take (reader.length - discard) (moved reader discard) ≡ drop discard (kept reader)
take-moved reader discard r h = elim (Bool-cases (discard == 0)) [
  | inl none_of ↦
      let zero_of : discard ≡ 0 = ground arith in
      rw (none_of, zero_of) (ap (λ n. take n reader.tail) (omega arith))
  | inr some_of ↦
      let whole : discard + (reader.length - discard) ≡ reader.length = omega arith in
      rw some_of (
        take-memmove_front reader.tail discard (reader.length - discard) (omega (arith, r.0, r.1))
        ∙ ap (λ n. drop discard (take n reader.tail)) whole)
]

drop-last_bytes :
    (xs ys : List ℕ) (discard : ℕ)
    → discard ≡ length xs + length ys - tail_cap
    → discard ≤ length xs
    → drop discard xs ++ ys ≡ last_bytes (xs ++ ys)
drop-last_bytes xs ys discard e h = ext _ _ λ k. ground (
  arith,
  length-append xs ys,
  length-drop discard xs,
  get_elem?-append (drop discard xs) ys k,
  get_elem?-drop discard xs k,
  get_elem?-drop (length (xs ++ ys) - tail_cap) (xs ++ ys) k,
  get_elem?-append xs ys (length (xs ++ ys) - tail_cap + k),
)

read_chunk_lem :
    (reader : OutputReader) (chunk : List ℕ)
    → IsReader reader
    → length chunk ≤ chunk_cap
    → IsReader (read_chunk reader chunk)
      × (kept (read_chunk reader chunk) ≡ last_bytes (kept reader ++ chunk))
unfolding read_chunk
read_chunk_lem reader chunk r h =
    let discard : ℕ = discard_of reader chunk in
    let amount : discard ≡ reader.length + length chunk - tail_cap = ground arith in
    let few : discard ≤ reader.length = omega (arith, r.1) in
    let size : length (moved reader discard) ≡ tail_cap = length-moved reader discard r few in
    let room : reader.length - discard + length chunk ≤ tail_cap = omega arith in
    let used : length (kept reader) ≡ reader.length =
      length-take reader.length reader.tail ∙ omega (arith, r.0, r.1) in
    (
      (
        length-memcpy (moved reader discard) (reader.length - discard) chunk
              (omega (arith, size, room))
            ∙ size,
        room,
      ),
      take-memcpy (moved reader discard) (reader.length - discard) chunk (omega (arith, size, room))
          ∙ ap (λ t. t ++ chunk) (take-moved reader discard r few)
          ∙ drop-last_bytes (kept reader) chunk discard (omega (arith, amount, used))
              (omega (arith, few, used)),
    )

-- Dropping to the last elements at each step is dropping to them at the end.
last_bytes-append : (xs ys : List ℕ) → last_bytes (last_bytes xs ++ ys) ≡ last_bytes (xs ++ ys)
last_bytes-append xs ys = ext _ _ λ k. ground (
  arith,
  length-append (last_bytes xs) ys,
  length-append xs ys,
  length-drop (length xs - tail_cap) xs,
  get_elem?-drop (length (last_bytes xs ++ ys) - tail_cap) (last_bytes xs ++ ys) k,
  get_elem?-drop (length (xs ++ ys) - tail_cap) (xs ++ ys) k,
  get_elem?-append (last_bytes xs) ys (length (last_bytes xs ++ ys) - tail_cap + k),
  get_elem?-append xs ys (length (xs ++ ys) - tail_cap + k),
  get_elem?-drop (length xs - tail_cap) xs (length (last_bytes xs ++ ys) - tail_cap + k),
)

last_bytes-short : (xs : List ℕ) → length xs ≤ tail_cap → last_bytes xs ≡ xs
last_bytes-short xs h = let none_of : length xs - tail_cap ≡ 0 = omega arith in rw none_of refl

-- Reading keeps the last 8192 bytes of what the reader had and of all that the command wrote, whatever
-- the pieces in which it arrives, and never writes beyond its cells.
pub read_output_lem :
    (reader : OutputReader) (chunks : List (List ℕ))
    → IsReader reader
    → Chunks chunks
    → IsReader (read_output reader chunks)
      × (kept (read_output reader chunks) ≡ last_bytes (kept reader ++ joined chunks))
unfolding read_output
read_output_lem reader [] r h = (
  r,
  sym (last_bytes-short (kept reader) (omega (arith, length-take reader.length reader.tail, r.1)))
      ∙ ap last_bytes (sym (append_nil (kept reader))),
)
read_output_lem reader (chunk ∷ chunks) r h =
    let (next, made) = read_chunk_lem reader chunk r h.0 in
    let (last, result) = read_output_lem (read_chunk reader chunk) chunks next h.1 in
    (
      last,
      result
          ∙ ap (λ t. last_bytes (t ++ joined chunks)) made
          ∙ last_bytes-append (kept reader ++ chunk) (joined chunks)
          ∙ ap last_bytes (append_assoc (kept reader) chunk (joined chunks)),
    )
