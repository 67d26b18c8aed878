-- ===== src/SyncModel/Chunks.antt =====
-- The chunks that a file is cut into: sync_chunk_boundary of core/sync_model.c, called for each byte by
-- the loop of platform/sync_client.c that fills `block`.
pub mod Local
use nova_desktop.Base.{
  ℕ, ◌+◌, ◌-◌, ◌*◌, ◌%◌, ◌^◌, ◌≤◌, ◌<◌, ◌≡◌, refl, ap, ◌∙◌, Bool, true, false, ◌&&◌, ◌||◌, List, [],
  ◌∷◌, ◌++◌, arith, leb, ◌==◌, if◌then◌else◌, length, length-append, Bool-cases, inl, inr,
}

abbrev pub chunk_min : ℕ
chunk_min = 128 * 1024

abbrev pub chunk_max : ℕ
chunk_max = 2 * 1024 * 1024

-- `hash` is a uint64_t and `size` a size_t of 64 bits.
pub record SyncChunker : Type 0 where
  pub hash : ℕ
  pub size : ℕ

-- `(s->hash<<1)+gear[b]`
abbrev pub roll : (ℕ → ℕ) → ℕ → ℕ → ℕ
roll gear hash b = (hash * 2 % 2 ^ 64 + gear b) % 2 ^ 64

-- A boundary, and the chunker behind the byte.
pub sync_chunk_boundary : (ℕ → ℕ) → SyncChunker → ℕ → Bool × SyncChunker
sync_chunk_boundary gear s b =
    let hash = roll gear s.hash b in
    let size = (s.size + 1) % 2 ^ 64 in
    if leb chunk_max size || (leb chunk_min size && hash % 2 ^ 19 == 0)
    then (true, record { hash = 0; size = 0 })
    else (false, record { hash = hash; size = size })

-- The block behind the last boundary is one more chunk unless it is empty.
abbrev last_block : List ℕ → List (List ℕ)
last_block [] = []
last_block (b ∷ block) = (b ∷ block) ∷ []

module _ (gear : ℕ → ℕ) where
  -- `block` are the bytes since the last boundary.
  pub cut_from : SyncChunker → List ℕ → List ℕ → List (List ℕ)
  cut_from s block [] = last_block block
  cut_from s block (b ∷ input) =
      let next = (sync_chunk_boundary gear s b).1 in
      let fresh = cut_from next [] input in
      let more = cut_from next (block ++ b ∷ []) input in
      if (sync_chunk_boundary gear s b).0 then (block ++ b ∷ []) ∷ fresh else more

abbrev pub cut : (ℕ → ℕ) → List ℕ → List (List ℕ)
cut gear input = cut_from gear (record { hash = 0; size = 0 }) [] input

abbrev pub joined : List (List ℕ) → List ℕ
joined [] = []
joined (c ∷ cs) = c ++ joined cs

-- Every chunk holds from `chunk_min` to `chunk_max` bytes, and the last one at least one byte.
abbrev pub Sized : List (List ℕ) → Type 0
Sized [] = Unit
Sized (c ∷ []) = (1 ≤ length c) × (length c ≤ chunk_max)
Sized (c ∷ d ∷ cs) = (chunk_min ≤ length c) × (length c ≤ chunk_max) × Sized (d ∷ cs)

Sized-cons :
    (c : List ℕ) (cs : List (List ℕ))
    → chunk_min ≤ length c
    → length c ≤ chunk_max
    → Sized cs
    → Sized (c ∷ cs)
Sized-cons c [] l h s = (omega arith, h)
Sized-cons c (d ∷ cs) l h s = (l, h, s)

-- The chunker has counted the bytes of the block.
abbrev pub Counts : SyncChunker → List ℕ → Type 0
Counts s block = (s.size ≡ length block) × (length block < chunk_max)

module _ (gear : ℕ → ℕ) (s : SyncChunker) (block : List ℕ) (b : ℕ) (c : Counts s block) where
  at_boundary :
      (sync_chunk_boundary gear s b).0 ≡ true
      → ((sync_chunk_boundary gear s b).1 ≡ record { hash = 0; size = 0 })
        × (chunk_min ≤ length (block ++ b ∷ []))
        × (length (block ++ b ∷ []) ≤ chunk_max)
  unfolding sync_chunk_boundary
  at_boundary e = ground (arith, length-append block (b ∷ []))

  between :
      (sync_chunk_boundary gear s b).0 ≡ false
      → Counts (sync_chunk_boundary gear s b).1 (block ++ b ∷ [])
  unfolding sync_chunk_boundary
  between e = ground (arith, length-append block (b ∷ []))

cut_from-Sized :
    (gear : ℕ → ℕ) (s : SyncChunker) (block input : List ℕ)
    → Counts s block
    → Sized (cut_from gear s block input)
unfolding cut_from
cut_from-Sized gear s [] [] c = tt
cut_from-Sized gear s (b ∷ block) [] c = (omega arith, omega (arith, c.1))
cut_from-Sized gear s block (b ∷ input) c = elim (Bool-cases (sync_chunk_boundary gear s b).0) [
  | inl edge ↦
      let (reset, low, high) = at_boundary gear s block b c edge in
      rw (edge, reset)
        (Sized-cons _ _ low high
          (cut_from-Sized gear (record { hash = 0; size = 0 }) [] input (refl, omega arith)))
  | inr inside ↦ rw inside (
      cut_from-Sized gear (sync_chunk_boundary gear s b).1 (block ++ b ∷ []) input
        (between gear s block b c inside))
]

append_assoc : (xs ys zs : List ℕ) → (xs ++ ys) ++ zs ≡ xs ++ (ys ++ zs)
append_assoc [] ys zs = refl
append_assoc (x ∷ xs) ys zs = ap (◌∷◌ x) (append_assoc xs ys zs)

joined-cut_from :
    (gear : ℕ → ℕ) (s : SyncChunker) (block input : List ℕ)
    → joined (cut_from gear s block input) ≡ block ++ input
unfolding cut_from
joined-cut_from gear s [] [] = refl
joined-cut_from gear s (b ∷ block) [] = refl
joined-cut_from gear s block (b ∷ input) = elim (Bool-cases (sync_chunk_boundary gear s b).0) [
  | inl edge ↦ rw edge (
      ap (λ t. (block ++ b ∷ []) ++ t)
        (joined-cut_from gear (sync_chunk_boundary gear s b).1 [] input)
      ∙ append_assoc block (b ∷ []) input)
  | inr inside ↦ rw inside (
      joined-cut_from gear (sync_chunk_boundary gear s b).1 (block ++ b ∷ []) input
      ∙ append_assoc block (b ∷ []) input)
]

-- The chunks of a file are the file, cut in its order, and each is of a permitted size: no block outgrows
-- its buffer, and only the last may be shorter than the smallest chunk.
pub cut_lem :
    (gear : ℕ → ℕ) (input : List ℕ) → (joined (cut gear input) ≡ input) × Sized (cut gear input)
cut_lem gear input =
    (joined-cut_from gear _ [] input, cut_from-Sized gear _ [] input (refl, omega arith))
