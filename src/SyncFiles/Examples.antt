-- ===== src/SyncFiles/Examples.antt =====
-- The theorems on platform/sync_files.c at a file of three bytes in two reads and at a path of two directories.
use nova_desktop.Base.{
  false, List, none, [], ◌∷◌, ◌++◌, some, replicate, if◌then◌else◌, ◌≡◌, refl, true,
}
use nova_desktop.Text.{codes, text_eq}
use nova_desktop.SyncFiles.{
  Bytes, Files, Digest, reads, Round, epoch, sy_meta, sync_hash_file, set_path, new_directory,
}
use nova_desktop.SyncFiles.Hashes.{Digests, served, hash_of_whole, sync_hash_file_lem}

-- A context that keeps the bytes, for a digest of zeros.
abbrev zeros : Bytes → Bytes
zeros content = replicate 32 0

abbrev keeping : Digest Bytes
keeping = record {
  init = some [];
  update = λ ctx bytes. some (ctx ++ bytes);
  final = λ ctx. some (zeros ctx);
}

keeping-Digests : Digests keeping (λ ctx. ctx) zeros
keeping-Digests = record {
  begins = ([], refl, refl);
  goes_on = λ ctx bytes. (ctx ++ bytes, refl, refl);
  ends = λ ctx. refl;
  size = λ bytes. refl;
}

abbrev one_file : Files
one_file path = some (record { directory = false; reparse = false; size = 3; ticks = epoch })

abbrev two_reads : List Round
two_reads = reads (7 ∷ 8 ∷ []) ∷ reads (9 ∷ []) ∷ reads [] ∷ []

sync_hash_file_lem_example :
    sync_hash_file keeping true two_reads one_file (codes "C:\\f")
    ≡ hash_of_whole zeros (served two_reads) (sy_meta one_file (codes "C:\\f"))
sync_hash_file_lem_example =
    sync_hash_file_lem keeping (λ ctx. ctx) zeros keeping-Digests two_reads one_file (codes "C:\\f")

abbrev drive : Files
drive path = if text_eq path (codes "C:\\") then some new_directory else none

abbrev both : Files
both =
    set_path (codes "C:\\a\\b") (some new_directory)
      (set_path (codes "C:\\a") (some new_directory) drive)
