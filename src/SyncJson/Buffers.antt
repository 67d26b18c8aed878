-- ===== src/SyncJson/Buffers.antt =====
-- The growing buffer of platform/sync_json.c: what sync_buffer_add and sync_buffer_string write and keep.
use nova_desktop.Base.{
  append_nil, append_assoc, ℕ, ◌+◌, ◌-◌, ◌≤◌, ◌<◌, ◌≡◌, ◌⊎◌, inl, inr, refl, sym, ap, ◌∙◌, true,
  false, ◌||◌, List, [], ◌∷◌, ◌++◌, Option, none, some, arith, ltb, length, take, drop, ext,
  length-append, length-take, length-drop, get_elem?-append, get_elem?-take, get_elem?-none,
  Bool-cases, Option-cases,
}
use nova_desktop.SyncJson.{
  SyncBuffer, json_max, grown, write_behind, sync_buffer_add, escaped, add_escaped,
  sync_buffer_string,
}
use nova_desktop.SyncJson.Strings.{escape_all, read_string, among, read-escape_all}

-- What is written so far.
abbrev pub written : SyncBuffer → List ℕ
written b = take b.size b.cells

-- The cells are those that are counted, no more than the limit and its terminator, and the size has room for
-- its terminator or there is no buffer yet.
abbrev pub IsBuffer : SyncBuffer → Type 0
IsBuffer b =
    (length b.cells ≡ b.capacity)
    × (b.capacity ≤ json_max + 1)
    × (((b.size ≡ 0) × (b.capacity ≡ 0)) ⊎ (b.size < b.capacity))

-- What is documented of realloc: the cells that it yields are as many as were asked for, and begin with the
-- ones that there were.
abbrev pub Reallocs : (List ℕ → ℕ → Option (List ℕ)) → Type 0
Reallocs realloc =
    (cells : List ℕ) (capacity : ℕ) (next : List ℕ)
    → length cells ≤ capacity
    → realloc cells capacity ≡ some next
    → (length next ≡ capacity) × (take (length cells) next ≡ cells)

write-IsBuffer :
    (b : SyncBuffer) (value : List ℕ)
    → length b.cells ≡ b.capacity
    → b.capacity ≤ json_max + 1
    → b.size + length value < b.capacity
    → IsBuffer (write_behind b value) × (written (write_behind b value) ≡ written b ++ value)
write-IsBuffer b value c m h = (
  (
    omega (
      arith,
      length-append (take b.size b.cells)
          ((value ++ 0 ∷ []) ++ drop (b.size + length (value ++ 0 ∷ [])) b.cells),
      length-append (value ++ 0 ∷ []) (drop (b.size + length (value ++ 0 ∷ [])) b.cells),
      length-append value (0 ∷ []),
      length-take b.size b.cells,
      length-drop (b.size + length (value ++ 0 ∷ [])) b.cells,
    ),
    m,
    inr h,
  ),
  ext _ _ λ k. ground (
    arith,
    get_elem?-take (b.size + length value) (write_behind b value).cells k,
    get_elem?-append (take b.size b.cells)
        ((value ++ 0 ∷ []) ++ drop (b.size + length (value ++ 0 ∷ [])) b.cells) k,
    get_elem?-append (value ++ 0 ∷ []) (drop (b.size + length (value ++ 0 ∷ [])) b.cells)
        (k - length (take b.size b.cells)),
    get_elem?-append value (0 ∷ []) (k - length (take b.size b.cells)),
    get_elem?-append (take b.size b.cells) value k,
    get_elem?-none value (k - length (take b.size b.cells)),
    length-append value (0 ∷ []),
    length-take b.size b.cells,
  ),
)

grown_lem :
    (capacity need : ℕ)
    → capacity < need
    → need ≤ json_max + 1
    → (need ≤ grown capacity need) × (grown capacity need ≤ json_max + 1)
grown_lem capacity need l h = ground arith

take-take : (n m : ℕ) (xs : List ℕ) → n ≤ m → take n xs ≡ take n (take m xs)
take-take n m xs h = ext _ _ λ k.
    ground (arith, get_elem?-take n xs k, get_elem?-take n (take m xs) k, get_elem?-take m xs k)

module _ (realloc : List ℕ → ℕ → Option (List ℕ)) (documented : Reallocs realloc) where
  moved-IsBuffer :
      (b : SyncBuffer) (value : List ℕ)
      → IsBuffer b
      → (cells : List ℕ) → b.capacity < b.size + length value + 1
      → b.size + length value + 1 ≤ json_max + 1
      → realloc b.cells (grown b.capacity (b.size + length value + 1)) ≡ some cells
      → let next = record b {
        cells = cells;
        capacity = grown b.capacity (b.size + length value + 1);
      } in
        IsBuffer (write_behind next value)
        × (written (write_behind next value) ≡ written b ++ value)
  moved-IsBuffer b value i cells l h made =
      let (enough, bounded) = grown_lem b.capacity (b.size + length value + 1) l h in
      let (size, begins) =
        documented b.cells (grown b.capacity (b.size + length value + 1)) cells
          (omega (arith, i.0, l, enough)) made in
      let used : b.size ≤ length b.cells = ground (arith, i) in
      let same : take b.size cells ≡ written b =
        take-take b.size (length b.cells) cells used ∙ ap (take b.size) begins in
      let (valid, result) =
        write-IsBuffer
          (record b { cells = cells; capacity = grown b.capacity (b.size + length value + 1) })
          value size bounded (omega (arith, enough)) in
      (valid, result ∙ ap (λ t. t ++ value) same)

  -- Adding fails only when the limit is passed or there is no memory, and then leaves the buffer as it
  -- was. Otherwise it puts the value behind what was written, with
  -- its terminator inside the buffer. The buffer never has more cells than the limit and a terminator.
  pub sync_buffer_add_lem :
      (b : SyncBuffer) (value : List ℕ)
      → IsBuffer b
      → let (result, next) = sync_buffer_add realloc b value in
        ((result ≡ false)
          × (next ≡ b)
          × ((json_max < b.size + length value)
              ⊎ (realloc b.cells (grown b.capacity (b.size + length value + 1)) ≡ none)))
        ⊎ ((result ≡ true) × IsBuffer next × (written next ≡ written b ++ value))
  unfolding sync_buffer_add
  sync_buffer_add_lem b value i =
      elim (Bool-cases (ltb json_max (length value) || ltb (json_max - length value) b.size)) [
        | inl full ↦ rw full (inl (refl, refl, inl (ground arith)))
        | inr room ↦ elim (Bool-cases (ltb b.capacity (b.size + length value + 1))) [
          | inr fits ↦
              rw (room, fits)
                (let w = write-IsBuffer b value i.0 i.1 (ground arith) in inr (refl, w.0, w.1))
          | inl small ↦
              elim (Option-cases (realloc b.cells (grown b.capacity (b.size + length value + 1)))) [
                | inl failed ↦ rw (room, small, failed) (inl (refl, refl, inr refl))
                | inr (cells, made) ↦
                    rw (room, small, made)
                      (let w = moved-IsBuffer b value i cells (ground arith) (ground arith) made in
                        inr (refl, w.0, w.1))
              ]
        ]
      ]

  add_escaped_lem :
      (b : SyncBuffer) (s : List ℕ)
      → IsBuffer b
      → let (result, next) = add_escaped realloc b s in
        IsBuffer next × ((result ≡ false) ⊎ (written next ≡ written b ++ escape_all s))
  unfolding add_escaped
  add_escaped_lem b [] i = (i, inr (sym (append_nil (written b))))
  add_escaped_lem b (c ∷ s) i = elim (sync_buffer_add_lem b (escaped c) i) [
    | inl (failed, same, reason) ↦ rw (failed, same) (i, inl refl)
    | inr (added, valid, made) ↦
        let (next, result) = add_escaped_lem (sync_buffer_add realloc b (escaped c)).1 s valid in
        rw added (
          next,
          elim result [
            | inl failed ↦ inl failed
            | inr more ↦ inr (
                more
                ∙ ap (λ t. t ++ escape_all s) made
                ∙ append_assoc (written b) (escaped c) (escape_all s))
          ],
        )
  ]

  -- Writing a string keeps the buffer whole, also where it fails. Where it succeeds, what is added is a quote and
  -- a text that a reader of JSON strings takes for the string, and for no more.
  pub sync_buffer_string_lem :
      (b : SyncBuffer) (s : List ℕ)
      → IsBuffer b
      → let (result, next) = sync_buffer_string realloc b s in
        IsBuffer next
        × ((result ≡ false)
            ⊎ ((text : List ℕ) × (written next ≡ written b ++ b'"' ∷ text)
                × (read_string among [] text ≡ some (s, []))))
  unfolding sync_buffer_string
  sync_buffer_string_lem b s i = elim (sync_buffer_add_lem b (b'"' ∷ []) i) [
    | inl (failed, same, reason) ↦ rw (failed, same) (i, inl refl)
    | inr (opened, valid, made) ↦
        let start = (sync_buffer_add realloc b (b'"' ∷ [])).1 in
        let (body_valid, body_made) = add_escaped_lem start s valid in
        elim (Bool-cases (add_escaped realloc start s).0) [
          | inr failed ↦ rw (opened, failed) (body_valid, inl refl)
          | inl all ↦
              let body = (add_escaped realloc start s).1 in
              let quote : List ℕ = b'"' ∷ [] in
              let whole : written body ≡ written start ++ escape_all s = elim body_made [
                | inl failed ↦ absurd (let f : true ≡ false = sym all ∙ failed in cc)
                | inr w ↦ w
              ] in
              elim (sync_buffer_add_lem body quote body_valid) [
                | inl (failed, same, reason) ↦ rw (opened, all, failed, same) (body_valid, inl refl)
                | inr (closed, valid', made') ↦
                    rw (opened, all)
                      (
                        valid',
                        inr (
                          escape_all s ++ quote,
                          made'
                              ∙ ap (λ t. t ++ quote) whole
                              ∙ ap (λ t. (t ++ escape_all s) ++ quote) made
                              ∙ ap (λ t. t ++ quote) (append_assoc (written b) quote (escape_all s))
                              ∙ append_assoc (written b) (quote ++ escape_all s) quote,
                          read-escape_all s [] [],
                        ),
                      )
              ]
        ]
  ]
