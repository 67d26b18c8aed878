-- ===== src/SyncFiles/Hashes.antt =====
-- platform/sync_files.c: the hash that is made of a file piece by piece is that of the whole file.
use nova_desktop.Base.{
  ℕ, ◌+◌, ◌%◌, ◌^◌, true, List, [], ◌∷◌, ◌++◌, Option, none, some, ◌==◌, if◌then◌else◌, length,
  length-append, append_nil, append_assoc, ◌≡◌, refl, arith, ap, sym, ◌∙◌,
}
use nova_desktop.Text.{Text}
use nova_desktop.SyncFiles.{
  Bytes, Files, Round, stops, fails_to_read, reads, Digest, read_all, updated, hex, Hashed,
  finished, opened, sy_meta, sync_hash_file,
}

-- The content that is read up to the end of the file, none where the rounds stop before.
abbrev pub served : List Round → Option Bytes
served [] = none
served (stops ∷ rounds) = none
served (fails_to_read ∷ rounds) = none
served (reads [] ∷ rounds) = some []
served (reads (b ∷ bs) ∷ rounds) = elim (served rounds) [
  | none ↦ none
  | some rest ↦ some ((b ∷ bs) ++ rest)
]

-- What is documented of OpenSSL, where nothing refuses: a context stands for the bytes that it was given, and its end is their
-- SHA-256, of 32 bytes.
pub record Digests {D : Type 0} (evp : Digest D) (given : D → Bytes) (sha : Bytes → Bytes)
    : Type 0 where
  pub begins : (ctx : D) × (evp.init ≡ some ctx) × (given ctx ≡ [])
  pub goes_on :
      (ctx : D) (bytes : Bytes)
      → (next : D) × (evp.update ctx bytes ≡ some next) × (given next ≡ given ctx ++ bytes)
  pub ends : (ctx : D) → evp.final ctx ≡ some (sha (given ctx))
  pub size : (bytes : Bytes) → length (sha bytes) ≡ 32

-- The hash of a whole content, with what was known of the file before it was read.
abbrev pub hash_of_whole : (Bytes → Bytes) → Option Bytes → Option (ℕ × ℕ) → Option Hashed
hash_of_whole sha content none = none
hash_of_whole sha none (some meta) = none
hash_of_whole sha (some content) (some (initial, nanos)) =
    if length content % 2 ^ 64 == initial
    then some (record { out = hex (sha content); size = initial; mtime = nanos })
    else none

module _ {D : Type 0} (evp : Digest D) (given : D → Bytes) (sha : Bytes → Bytes)
    (law : Digests evp given sha) where
  -- The result of the loop stands for what was given before and what was read.
  abbrev Reads : Bytes → Option Bytes → Option (ℕ × D) → Type 0
  Reads before none result = result ≡ none
  Reads before (some rest) result =
      (ctx : D) × (result ≡ some (length (before ++ rest) % 2 ^ 64, ctx))
      × (given ctx ≡ before ++ rest)

  read_all-Reads :
      (rounds : List Round) (total : ℕ) (ctx : D)
      → total ≡ length (given ctx) % 2 ^ 64
      → Reads (given ctx) (served rounds) (read_all evp rounds total ctx)
  unfolding read_all
  read_all-Reads [] total ctx h = refl
  read_all-Reads (stops ∷ rounds) total ctx h = refl
  read_all-Reads (fails_to_read ∷ rounds) total ctx h = refl
  read_all-Reads (reads [] ∷ rounds) total ctx h = (
    ctx,
    ap (λ n. some (n, ctx)) (h ∙ ap (λ xs. length xs % 2 ^ 64) (sym (append_nil (given ctx)))),
    sym (append_nil (given ctx)),
  )
  read_all-Reads (reads (b ∷ bs) ∷ rounds) total ctx h =
      let (next, went_on, holds) = law.goes_on ctx (b ∷ bs) in
      let size = length-append (given ctx) (b ∷ bs) in
      let more =
        read_all-Reads rounds ((total + length (b ∷ bs)) % 2 ^ 64) next
          (omega (arith, ap (λ xs. length xs) holds, size)) in
      rw went_on (behind (served rounds) next holds more)
    where
      behind :
          (rest : Option Bytes) (next : D)
          → given next ≡ given ctx ++ b ∷ bs
          → Reads (given next) rest (read_all evp rounds ((total + length (b ∷ bs)) % 2 ^ 64) next)
          → Reads
              (given ctx)
              (elim rest [ none ↦ none | some more ↦ some ((b ∷ bs) ++ more) ])
              (read_all evp rounds ((total + length (b ∷ bs)) % 2 ^ 64) next)
      behind none next holds e = e
      behind (some more) next holds (last, e, all) =
          let same : given next ++ more ≡ given ctx ++ ((b ∷ bs) ++ more) =
            ap (λ xs. xs ++ more) holds ∙ append_assoc (given ctx) (b ∷ bs) more in
          (last, e ∙ ap (λ xs. some (length xs % 2 ^ 64, last)) same, all ∙ same)

  final_whole :
      (initial nanos : ℕ) (content : Bytes) (ctx : D) (result : Option (ℕ × D))
      → result ≡ some (length content % 2 ^ 64, ctx)
      → given ctx ≡ content
      → finished evp (initial, nanos) result
        ≡ hash_of_whole sha (some content) (some (initial, nanos))
  final_whole initial nanos content ctx result e holds =
      let size = law.size content in
      let digest : evp.final ctx ≡ some (sha content) =
        law.ends ctx ∙ ap (λ xs. some (sha xs)) holds in
      rw e (rw digest (ground (arith, size)))

  loop_whole :
      (initial nanos : ℕ) (content : Option Bytes) (before : Bytes) (result : Option (ℕ × D))
      → before ≡ []
      → Reads before content result
      → finished evp (initial, nanos) result ≡ hash_of_whole sha content (some (initial, nanos))
  loop_whole initial nanos none before result empty e = rw e refl
  loop_whole initial nanos (some content) before result empty (ctx, e, all) =
      let same : before ++ content ≡ content = ap (λ xs. xs ++ content) empty in
      final_whole initial nanos content ctx result
        (e ∙ ap (λ xs. some (length xs % 2 ^ 64, ctx)) same) (all ∙ same)

  opened_whole :
      (rounds : List Round) (found : Option (ℕ × ℕ))
      → opened evp true rounds found ≡ hash_of_whole sha (served rounds) found
  opened_whole rounds none = refl
  opened_whole rounds (some (initial, nanos)) =
      let (ctx, begins, empty) = law.begins in
      ap (λ start. finished evp (initial, nanos) (updated (read_all evp rounds 0) start)) begins
      ∙ loop_whole initial nanos (served rounds) (given ctx) (read_all evp rounds 0 ctx) empty
          (read_all-Reads rounds 0 ctx (rw empty refl))

  -- Where OpenSSL works as documented and the file opens, the loop that adds up the size and the digest piece by piece gives
  -- what the whole content has, however the file is split into reads: the SHA-256 in 64 characters, the size and the time
  -- of the last write before it was read; and nothing where the file has no such time, the reading stops before
  -- its end, or another size is read than the file had before.
  pub sync_hash_file_lem :
      (rounds : List Round) (files : Files) (path : Text)
      → sync_hash_file evp true rounds files path
        ≡ hash_of_whole sha (served rounds) (sy_meta files path)
  unfolding sync_hash_file
  sync_hash_file_lem rounds files path = opened_whole rounds (sy_meta files path)
