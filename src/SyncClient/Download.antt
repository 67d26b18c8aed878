-- ===== src/SyncClient/Download.antt =====
-- platform/sync_client.c: the chunks of a version in the cache, taken from a file or from the server.
pub mod Rounds
use nova_desktop.Base.{
  ℕ, zero, suc, ◌+◌, ◌-◌, ◌%◌, ◌^◌, Bool, true, false, ◌&&◌, not, List, [], ◌∷◌, ◌++◌, Option, none,
  some, leb, ltb, ◌==◌, if◌then◌else◌, ℤ, pos, negsuc, length, take, drop,
}
use nova_desktop.Text.{Text, codes, text_eq}
use nova_desktop.Decimal.{to_decimal}
use nova_desktop.SyncModel.{sync_path_cap}
use nova_desktop.SyncFiles.{sy_join}
use nova_desktop.SyncWire.{Bytes, SyncReply, path, cache, protocol}
use nova_desktop.SyncWire.Fields.{sy_fields}
use nova_desktop.SyncClient.{
  World, Client, Act, pure, ◌>>=◌, ◌>>◌, change, from, check, of_option, call, poll, or_do, is_same,
  joined, fail, or_fail, demand, unless_cancelled, rpc, hash_of, cache_path, pairs_array,
  hashed_chunk, cached, chunk_max, File, lift, ask,
}

abbrev set_bytes : Text → Option Bytes → (Text → Option Bytes) → Text → Option Bytes
set_bytes p bytes files q = if text_eq q p then bytes else files q

abbrev bytes_or_empty : Option Bytes → Bytes
bytes_or_empty none = []
bytes_or_empty (some bytes) = bytes

abbrev is_offset : ℤ → ℕ → Bool
is_offset (pos n) offset = n == offset
is_offset (negsuc n) offset = false

abbrev pub is_there : {A : Type 0} → Option A → Bool
is_there none = false
is_there (some a) = true

module _ (c : Client) where
  -- sy_cache on the contents of the files: the chunk is there with its hash, or is written beside its place and moved.
  abbrev pub stored : Text → Text → Bytes → Option Bytes → Act Text
  stored hash target bytes (some _) =
      or_fail c cache (
        hashed_chunk c target >>= λ found.
        check (length found.0 % 2 ^ 64 == length bytes && text_eq found.1 hash))
      >> pure hash
  stored hash target bytes none =
      demand c (not (leb sync_path_cap (length target + 13))) path
      >> or_fail c cache call
      >> change (λ w. record w { chunk_files = set_bytes target (some bytes) w.chunk_files })
      >> pure hash

  abbrev pub store_chunk : Bytes → Act Text
  store_chunk bytes = or_fail c cache (of_option (c.sha bytes)) >>= λ hash.
      or_fail c path (of_option (joined c.cache_folder (c.wide hash 80))) >>= λ target.
      from (λ w. w.chunk_files target) (λ file. stored hash target bytes file)

  -- The loop over the chunks of a file, whose content is read from where the last chunk ended.
  unfoldable pub seed_chunks : Bytes → List (Option Text × ℕ) → Act (Unit {0})
  unfolding ask lift poll
  seed_chunks content [] = pure tt
  seed_chunks content ((expected, size) ∷ chunks) =
      check (ltb 0 size && leb size chunk_max && leb size (length content))
      >> call
      >> store_chunk (take size content)
      >>= λ hash.
          check (is_same expected hash)
          >> unless_cancelled c
          >> seed_chunks (drop size content) chunks

  abbrev pub seed_from : Text → Option File → Act (Unit {0})
  seed_from manifest none = fail c path
  seed_from manifest (some file) =
      or_fail c path call >> or_fail c cache (pairs_array c manifest >>= seed_chunks file.content)

  unfoldable pub seed : Text → Text → Act (Unit {0})
  unfolding seed_chunks lift ask
  seed place manifest = from (λ w. w.working place) (seed_from manifest)

  abbrev pub request_at : Option Text → ℕ → Option Text
  request_at none offset = none
  request_at (some base) offset = c.outside.patch base (codes "$.offset") (to_decimal offset) true

  -- A piece behind the bytes that are there.
  abbrev pub piece : Text → ℕ → ℕ → SyncReply → Act (Unit {0})
  piece part offset total reply =
      check (
        is_offset (c.outside.json_int reply.json (codes "$.offset") (negsuc 0)) offset
        && ltb 0 reply.size
        && leb (offset + reply.size) total)
      >> call
      >> change (λ w. record w {
        part_files =
            set_bytes part
              (some (bytes_or_empty (w.part_files part) ++ take reply.size reply.bytes))
              w.part_files;
      })
      >> pure tt

  -- The loop over the pieces, with fuel for one round of each byte that is missing.
  unfoldable pub get_pieces : Option Text → Text → ℕ → ℕ → ℕ → Act (Unit {0})
  unfolding rpc poll ask
  get_pieces base part total zero offset = pure tt
  get_pieces base part total (suc fuel) offset =
      if ltb offset total
      then (poll >>= λ stops.
          if stops
          then pure tt
          else (of_option (request_at base offset) >>= rpc c >>= λ reply.
              piece part offset total reply
              >> get_pieces base part total fuel (offset + reply.size)))
      else pure tt

  abbrev pub part_of : Text → Act Bytes
  part_of part = from (λ w. w.part_files part) (λ file. pure (bytes_or_empty file))

  abbrev get_request : Text → Option Text → Option Text
  get_request job none = none
  get_request job (some hash) =
      sy_fields c.realloc (codes "get") ((codes "job", job) ∷ (codes "hash", hash) ∷ [])

  -- The size that the part has, and the pieces behind it.
  abbrev pub resumed : Text → Option Text → ℕ → Text → Act (Unit {0})
  resumed job hash total part = call >> part_of part >>= λ bytes.
      check (leb (length bytes) total)
      >> change (λ w. record w { resumed = (w.resumed + length bytes) % 2 ^ 64 })
      >> get_pieces (get_request job hash) part total (total - length bytes) (length bytes)

  -- The part whose hash is the one that was asked for is moved into the cache.
  abbrev pub landed : Option Text → ℕ → Text → Text → Act (Unit {0})
  landed hash total target part = part_of part >>= λ bytes. hash_of c bytes >>= λ actual.
      check (length bytes % 2 ^ 64 == total && is_same hash actual)
      >> call
      >> change (λ w. record w {
        part_files = set_bytes part none w.part_files;
        chunk_files = set_bytes target (some bytes) w.chunk_files;
      })

  -- The cancel event comes before the failure of the pieces.
  abbrev pub fetched : Text → Option Text → ℕ → Text → Text → Act (Unit {0})
  fetched job hash total target part =
      demand c (not (c.reparse part)) path
      >> or_fail c cache call
      >> or_do (unless_cancelled c >> fail c cache) (resumed job hash total part)
      >> unless_cancelled c
      >> or_fail c cache (landed hash total target part)

  abbrev pub reused : ℕ → Act (Unit {0})
  reused total = change (λ w. record w { reused = (w.reused + total) % 2 ^ 64 })

  abbrev pub part_path : Option Text → Act Text
  part_path none = fail c path
  part_path (some hash) =
      or_fail c path (of_option (sy_join c.partial_folder (hash ++ codes ".part")))

  abbrev pub found_or_fetched : Text → Option Text → ℕ → Text → Bool → Act (Unit {0})
  found_or_fetched job hash total target true =
      or_fail c cache (cached c hash total) >> reused total
  found_or_fetched job hash total target false = part_path hash >>= fetched job hash total target

  unfoldable pub download : Text → Option Text → ℕ → Act (Unit {0})
  unfolding cache_path cached get_pieces lift ask poll
  download job hash total =
      demand c (leb total chunk_max) protocol >> cache_path c hash >>= λ target.
      from (λ w. is_there (w.chunk_files target)) (found_or_fetched job hash total target)

  unfoldable pub download_all : Text → List (Option Text × ℕ) → Act (Unit {0})
  unfolding download
  download_all job [] = pure tt
  download_all job ((hash, size) ∷ chunks) = download job hash size >> download_all job chunks
