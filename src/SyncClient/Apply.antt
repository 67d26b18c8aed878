-- ===== src/SyncClient/Apply.antt =====
-- platform/sync_client.c: a version takes its place in the working folder. It is first written into a temporary file in the
-- same folder, whose name is made of the identifier in the manifest, which nothing checks.
use nova_desktop.Base.{
  ℕ, zero, suc, ◌%◌, ◌^◌, Bool, true, false, ◌&&◌, not, List, [], ◌∷◌, ◌++◌, Option, none, some,
  ltb, leb, ◌==◌, if◌then◌else◌, length, take, drop,
}
use nova_desktop.Text.{Text, codes, text_eq}
use nova_desktop.SyncWire.{Bytes, packet_max, delete, path}
use nova_desktop.SyncFiles.{sy_join}
use nova_desktop.SyncClient.{
  Act, Client, File, Working, ask, cache_path, call, change, check, demand, from, hash_of, is_same,
  lift, of_option, or_do, or_fail, pairs_array, poll, pure, set_file, unless_cancelled, ◌>>=◌, ◌>>◌,
}
use nova_desktop.SyncClient.Download.{is_there}
use nova_desktop.SyncClient.Jobs.{Job, Seen, is_delete, is_put, probe}

-- `now_exists==exists&&(!exists||!strcmp(now,actual))`
abbrev pub same_seen : Option Seen → Option Seen → Bool
same_seen none none = true
same_seen none (some b) = false
same_seen (some a) none = false
same_seen (some a) (some b) = text_eq a.hash b.hash

-- ReadFile reads a whole buffer while there is so much; `fuel` is the length of the file.
unfoldable pub packets : ℕ → Bytes → List Bytes
packets zero bytes = []
packets (suc fuel) [] = []
packets (suc fuel) (b ∷ bs) = take packet_max (b ∷ bs) ∷ packets fuel (drop packet_max (b ∷ bs))

abbrev pub packets_of : Option Bytes → Option (List Bytes)
packets_of none = none
packets_of (some bytes) = some (packets (length bytes) bytes)

abbrev pub content_of : Option File → Bytes
content_of none = []
content_of (some file) = file.content

abbrev folder_of : Text → Option Text
folder_of [] = none
folder_of (ch ∷ chs) = elim (folder_of chs) [
  | some folder ↦ some (ch ∷ folder)
  | none ↦ if ch == b'\\' then some [] else none
]

abbrev is_ascii : Text → Bool
is_ascii [] = true
is_ascii (ch ∷ chs) = ltb ch 128 && is_ascii chs

-- MoveFileExW, where the first file is there.
abbrev pub moved_in : Text → Text → Working → Working
moved_in name place files = set_file place (files name) (set_file name none files)

module _ (c : Client) where
  -- swprintf into 112 cells. The identifier is any string of the manifest.
  abbrev temporary_name : Text → Text
  temporary_name id =
      if leb (length id) 96 && is_ascii id
      then codes ".nova-sync-" ++ (id ++ codes ".tmp")
      else c.misprinted id

  abbrev in_folder : Text → Option Text → Option Text
  in_folder id none = none
  in_folder id (some folder) = sy_join folder (temporary_name id)

  -- Where the temporary file of a version is.
  abbrev pub temporary : Text → Text → Option Text
  temporary place id = in_folder id (folder_of place)

  -- The directories are made, and CreateFileW goes through.
  unfoldable pub open_temporary : Text → Job → Act Text
  unfolding ask
  open_temporary place job = call >> of_option (temporary place job.id) >>= λ name.
      check (not (c.reparse name)) >> call >> pure name

  abbrev set_content : Text → (Bytes → Bytes) → Act (Unit {0})
  set_content name f = change (λ w. record w {
    working =
        set_file name (some (record { content = f (content_of (w.working name)); mtime = c.now }))
          w.working;
  })

  -- A WriteFile that fails, or writes less, may have written something.
  abbrev write_packet : Text → Bytes → Act (Unit {0})
  write_packet name packet = ask >>= λ whole.
      set_content name (λ content. content ++ (if whole then packet else c.torn packet))
      >> check whole

  unfoldable pub copy_packets : Text → List Bytes → Act (Unit {0})
  unfolding ask lift poll
  copy_packets name [] = unless_cancelled c >> call
  copy_packets name (packet ∷ packets) =
      unless_cancelled c >> call >> write_packet name packet >> copy_packets name packets

  abbrev copy_chunk : Text → Option Text → Act (Unit {0})
  copy_chunk name hash =
      or_do (unless_cancelled c >> check false) (
        cache_path c hash >>= λ target.
        call
        >> from (λ w. w.chunk_files target) (λ file. of_option (packets_of file))
        >>= copy_packets name)
      >> unless_cancelled c

  unfoldable pub copy_chunks : Text → List (Option Text × ℕ) → Act (Unit {0})
  unfolding cache_path copy_packets
  copy_chunks name [] = pure tt
  copy_chunks name ((hash, size) ∷ chunks) = copy_chunk name hash >> copy_chunks name chunks

  -- CREATE_ALWAYS leaves an empty file, whatever was there; the contents of the chunks are written, and flushed.
  unfoldable pub fill_file : Text → Text → Act (Unit {0})
  unfolding copy_chunks ask lift
  fill_file name manifest =
      set_content name (λ content. [])
      >> call
      >> (pairs_array c manifest >>= copy_chunks name)
      >> call

  abbrev pub check_content : Job → Option File → Act (Unit {0})
  check_content job none = check false
  check_content job (some file) = hash_of c file.content >>= λ final.
      check (length file.content % 2 ^ 64 == job.total && is_same job.expected final)

  -- The temporary file is read again.
  unfoldable pub check_file : Text → Job → Act (Unit {0})
  unfolding ask
  check_file name job = from (λ w. w.working name) (check_content job)

  -- What other programs do; the temporary file is left to the run.
  abbrev pub disturbed : Text → Working → Working
  disturbed name files = set_file name (files name) (c.meanwhile files)

  -- The file is looked at again before the temporary file takes its place.
  unfoldable pub move_file : Text → Option Seen → Text → Act (Unit {0})
  unfolding probe ask
  move_file place seen name =
      change (λ w. record w { working = disturbed name w.working })
      >> (probe c place >>= λ now.
          check (same_seen now seen)
          >> from (λ w. w.working name) (λ file. check (is_there file))
          >> call
          >> change (λ w. record w { working = moved_in name place w.working }))

  -- Where this fails behind CreateFileW, the temporary file is left.
  unfoldable pub prepare_file : Text → Text → Job → Option Seen → Act (Unit {0})
  unfolding open_temporary fill_file check_file move_file
  prepare_file place manifest job seen = open_temporary place job >>= λ name.
      fill_file name manifest >> (check_file name job >> move_file place seen name)

  abbrev pub put_file : Text → Text → Job → Option Seen → Act (Unit {0})
  put_file place manifest job seen = or_fail c path (prepare_file place manifest job seen)

  abbrev recycled : Option (Text → ℕ → ℕ → Bool) → Text → Seen → Bool
  recycled none place seen = false
  recycled (some recycle) place seen = recycle place seen.size seen.mtime

  abbrev pub recycle_file : Text → Option Seen → Act (Unit {0})
  recycle_file place none = pure tt
  recycle_file place (some seen) =
      demand c (recycled c.recycle place seen) delete
      >> change (λ w. record w { working = set_file place none w.working })

  -- The working folder gets the version, unless it is there already.
  unfoldable pub apply_job : Text → Text → Job → Option Seen → Bool → Act (Unit {0})
  unfolding prepare_file lift
  apply_job place manifest job seen already =
      if already
      then pure tt
      else if is_put job
      then put_file place manifest job seen
      else if is_delete job
      then recycle_file place seen
      else pure tt
