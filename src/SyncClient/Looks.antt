-- ===== src/SyncClient/Looks.antt =====
-- platform/sync_client.c: the steps on the chunks, the path and the file only read the working folder and the index.
use nova_desktop.Base.{
  List, ℕ, zero, suc, ◌+◌, [], ◌∷◌, drop, Bool, true, false, Option, none, some,
}
use nova_desktop.Text.{Text}
use nova_desktop.SyncWire.{Bytes, SyncReply}
use nova_desktop.SyncClient.{Client, File, ◌>>◌, rpc, cache_path, cached, chunk_read, hashed_chunk}
use nova_desktop.SyncClient.Download.{
  stored, store_chunk, seed_chunks, seed, seed_from, piece, get_pieces, resumed, landed, fetched,
  part_path, part_of, found_or_fetched, download, download_all,
}
use nova_desktop.SyncClient.Jobs.{Job, probe, probe_of, target_path}
use nova_desktop.SyncClient.Apply.{open_temporary, check_content, check_file}
use nova_desktop.SyncClient.Quiet.{View, IsQuiet, quiet, bind-IsQuiet, then-IsQuiet}

module _ {O : Type 0} {g : View → O} (c : Client) where
  pub rpc-IsQuiet : (request : Text) → IsQuiet g (rpc c request)
  unfolding rpc
  rpc-IsQuiet request = search quiet

  pub cache_path-IsQuiet : (hash : Option Text) → IsQuiet g (cache_path c hash)
  unfolding cache_path
  cache_path-IsQuiet none = search quiet
  cache_path-IsQuiet (some hash) = search quiet

  chunk_read-IsQuiet : (file : Option Bytes) → IsQuiet g (chunk_read c file)
  chunk_read-IsQuiet none = search quiet
  chunk_read-IsQuiet (some bytes) = search quiet

  hashed_chunk-IsQuiet : (target : Text) → IsQuiet g (hashed_chunk c target)
  hashed_chunk-IsQuiet target = search (quiet, chunk_read-IsQuiet) depth 12

  pub cached-IsQuiet : (hash : Option Text) (size : ℕ) → IsQuiet g (cached c hash size)
  unfolding cached
  cached-IsQuiet hash size = search (quiet, cache_path-IsQuiet, hashed_chunk-IsQuiet)

  stored-IsQuiet :
      (hash target : Text) (bytes : Bytes) (file : Option Bytes)
      → IsQuiet g (stored c hash target bytes file)
  stored-IsQuiet hash target bytes (some _) = search (quiet, hashed_chunk-IsQuiet)
  stored-IsQuiet hash target bytes none = search quiet depth 14

  store_chunk-IsQuiet : (bytes : Bytes) → IsQuiet g (store_chunk c bytes)
  store_chunk-IsQuiet bytes = search (quiet, stored-IsQuiet)

  seed_chunks-IsQuiet :
      (content : Bytes) (chunks : List (Option Text × ℕ)) → IsQuiet g (seed_chunks c content chunks)
  unfolding seed_chunks
  seed_chunks-IsQuiet content [] = search quiet
  seed_chunks-IsQuiet content ((expected, size) ∷ chunks) =
      bind-IsQuiet (search (quiet, store_chunk-IsQuiet) depth 12) (λ hash.
        then-IsQuiet (search quiet depth 12) (seed_chunks-IsQuiet (drop size content) chunks))

  seed_from-IsQuiet : (manifest : Text) (file : Option File) → IsQuiet g (seed_from c manifest file)
  seed_from-IsQuiet manifest none = search quiet
  seed_from-IsQuiet manifest (some file) = search (quiet, seed_chunks-IsQuiet) depth 12

  pub seed-IsQuiet : (place manifest : Text) → IsQuiet g (seed c place manifest)
  unfolding seed
  seed-IsQuiet place manifest = search (quiet, seed_from-IsQuiet)

  piece-IsQuiet :
      (part : Text) (offset total : ℕ) (reply : SyncReply)
      → IsQuiet g (piece c part offset total reply)
  piece-IsQuiet part offset total reply = search quiet depth 12

  get_pieces-IsQuiet :
      (base : Option Text) (part : Text) (total fuel offset : ℕ)
      → IsQuiet g (get_pieces c base part total fuel offset)
  unfolding get_pieces
  get_pieces-IsQuiet base part total zero offset = search quiet
  get_pieces-IsQuiet base part total (suc fuel) offset =
      let next : (reply : SyncReply)
          → IsQuiet g (
              piece c part offset total reply
              >> get_pieces c base part total fuel (offset + reply.size)) =
        λ reply.
          then-IsQuiet (piece-IsQuiet part offset total reply)
            (get_pieces-IsQuiet base part total fuel (offset + reply.size)) in
      search (quiet, rpc-IsQuiet, next) depth 14

  part_of-IsQuiet : (part : Text) → IsQuiet g (part_of c part)
  part_of-IsQuiet part = search quiet

  resumed-IsQuiet :
      (job : Text) (hash : Option Text) (total : ℕ) (part : Text)
      → IsQuiet g (resumed c job hash total part)
  resumed-IsQuiet job hash total part = search (quiet, part_of-IsQuiet, get_pieces-IsQuiet) depth 14

  landed-IsQuiet :
      (hash : Option Text) (total : ℕ) (target part : Text)
      → IsQuiet g (landed c hash total target part)
  landed-IsQuiet hash total target part = search (quiet, part_of-IsQuiet) depth 14

  fetched-IsQuiet :
      (job : Text) (hash : Option Text) (total : ℕ) (target part : Text)
      → IsQuiet g (fetched c job hash total target part)
  fetched-IsQuiet job hash total target part =
      search (quiet, resumed-IsQuiet, landed-IsQuiet) depth 16

  part_path-IsQuiet : (hash : Option Text) → IsQuiet g (part_path c hash)
  part_path-IsQuiet none = search quiet
  part_path-IsQuiet (some hash) = search quiet

  found_or_fetched-IsQuiet :
      (job : Text) (hash : Option Text) (total : ℕ) (target : Text) (found : Bool)
      → IsQuiet g (found_or_fetched c job hash total target found)
  found_or_fetched-IsQuiet job hash total target true = search (quiet, cached-IsQuiet) depth 12
  found_or_fetched-IsQuiet job hash total target false =
      search (quiet, part_path-IsQuiet, fetched-IsQuiet) depth 12

  download-IsQuiet :
      (job : Text) (hash : Option Text) (total : ℕ) → IsQuiet g (download c job hash total)
  unfolding download
  download-IsQuiet job hash total =
      search (quiet, cache_path-IsQuiet, found_or_fetched-IsQuiet) depth 12

  pub download_all-IsQuiet :
      (job : Text) (chunks : List (Option Text × ℕ)) → IsQuiet g (download_all c job chunks)
  unfolding download_all
  download_all-IsQuiet job [] = search quiet
  download_all-IsQuiet job ((hash, size) ∷ chunks) =
      then-IsQuiet (download-IsQuiet job hash size) (download_all-IsQuiet job chunks)

  pub target_path-IsQuiet : (relative : Text) → IsQuiet g (target_path c relative)
  unfolding target_path
  target_path-IsQuiet relative = search quiet

  probe_of-IsQuiet : (file : Option File) → IsQuiet g (probe_of c file)
  probe_of-IsQuiet none = search quiet depth 12
  probe_of-IsQuiet (some file) = search quiet depth 16

  pub probe-IsQuiet : (place : Text) → IsQuiet g (probe c place)
  unfolding probe
  probe-IsQuiet place = search (quiet, probe_of-IsQuiet)

  pub open_temporary-IsQuiet : (place : Text) (job : Job) → IsQuiet g (open_temporary c place job)
  unfolding open_temporary
  open_temporary-IsQuiet place job = search quiet depth 16

  check_content-IsQuiet : (job : Job) (file : Option File) → IsQuiet g (check_content c job file)
  check_content-IsQuiet job none = search quiet
  check_content-IsQuiet job (some file) = search quiet depth 12

  pub check_file-IsQuiet : (name : Text) (job : Job) → IsQuiet g (check_file c name job)
  unfolding check_file
  check_file-IsQuiet name job = search (quiet, check_content-IsQuiet)
