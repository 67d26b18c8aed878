-- ===== src/SyncJson/Room.antt =====
-- When the writing of a string by sync_buffer_string in platform/sync_json.c succeeds.
use nova_desktop.Base.{
  ℕ, ◌+◌, ◌≤◌, ◌≡◌, ◌≢◌, inl, inr, refl, sym, ap, ◌∙◌, true, false, List, [], ◌∷◌, ◌++◌, Option,
  none, some, arith, length, length-append, length-take,
}
use nova_desktop.SyncJson.{
  SyncBuffer, json_max, sync_buffer_add, escaped, add_escaped, sync_buffer_string,
}
use nova_desktop.SyncJson.Strings.{escape_all, read_string, among}
use nova_desktop.SyncJson.Buffers.{
  IsBuffer, Reallocs, written, sync_buffer_add_lem, sync_buffer_string_lem,
}

length-written : (b : SyncBuffer) → IsBuffer b → length (written b) ≡ b.size
length-written b i = length-take b.size b.cells ∙ ground (arith, i)

-- There is always memory.
abbrev pub HasMemory : (List ℕ → ℕ → Option (List ℕ)) → Type 0
HasMemory realloc = (cells : List ℕ) (capacity : ℕ) → realloc cells capacity ≢ none

module _ (realloc : List ℕ → ℕ → Option (List ℕ)) (documented : Reallocs realloc)
    (memory : HasMemory realloc) where
  add_succeeds :
      (b : SyncBuffer) (value : List ℕ)
      → IsBuffer b
      → b.size + length value ≤ json_max
      → let (result, next) = sync_buffer_add realloc b value in
        (result ≡ true) × IsBuffer next × (next.size ≡ b.size + length value)
  add_succeeds b value i h = elim (sync_buffer_add_lem realloc documented b value i) [
    | inl (failed, same, reason) ↦
        absurd (elim reason [ inl passed ↦ omega (arith, passed) | inr lost ↦ memory _ _ lost ])
    | inr (added, valid, made) ↦ (
      added,
      valid,
      sym (length-written (sync_buffer_add realloc b value).1 valid)
          ∙ ap length made
          ∙ length-append (written b) value
          ∙ ap (λ n. n + length value) (length-written b i),
    )
  ]

  escaped_succeeds :
      (b : SyncBuffer) (s : List ℕ)
      → IsBuffer b
      → b.size + length (escape_all s) ≤ json_max
      → let (result, next) = add_escaped realloc b s in
        (result ≡ true) × IsBuffer next × (next.size ≡ b.size + length (escape_all s))
  unfolding add_escaped
  escaped_succeeds b [] i h = (refl, i, omega arith)
  escaped_succeeds b (c ∷ s) i h =
      let total = length-append (escaped c) (escape_all s) in
      let (added, valid, size) = add_succeeds b (escaped c) i (omega (arith, total)) in
      let (result, last, end) =
        escaped_succeeds (sync_buffer_add realloc b (escaped c)).1 s valid
          (omega (arith, total, size)) in
      rw added (result, last, omega (arith, total, size, end))

  flag :
      (b : SyncBuffer) (s : List ℕ)
      → IsBuffer b
      → b.size + length (escape_all s) + 2 ≤ json_max
      → (sync_buffer_string realloc b s).0 ≡ true
  unfolding sync_buffer_string
  flag b s i h =
      let (opened, valid, size) = add_succeeds b (b'"' ∷ []) i (omega arith) in
      let start = (sync_buffer_add realloc b (b'"' ∷ [])).1 in
      let (all, last, end) = escaped_succeeds start s valid (omega (arith, size)) in
      let (closed, final, full) =
        add_succeeds (add_escaped realloc start s).1 (b'"' ∷ []) last (omega (arith, size, end)) in
      rw (opened, all) closed

  -- With memory, a string is written whenever it fits below the limit with its escapes and quotes: the call is TRUE, the
  -- buffer is whole, and what it had is followed by a quote and a text that a reader of JSON strings takes for
  -- the string, and for no more.
  pub sync_buffer_string_succeeds :
      (b : SyncBuffer) (s : List ℕ)
      → IsBuffer b
      → b.size + length (escape_all s) + 2 ≤ json_max
      → let (result, next) = sync_buffer_string realloc b s in
        (result ≡ true)
        × IsBuffer next
        × (text : List ℕ) × (written next ≡ written b ++ b'"' ∷ text)
        × (read_string among [] text ≡ some (s, []))
  sync_buffer_string_succeeds b s i h =
      let (valid, made) = sync_buffer_string_lem realloc documented b s i in
      let went_on = flag b s i h in
      elim made [
        | inl failed ↦ absurd (let f : true ≡ false = sym went_on ∙ failed in cc)
        | inr (text, all, reads) ↦ (went_on, valid, text, all, reads)
      ]
