-- ===== src/SyncClient/Tables.antt =====
-- platform/sync_client.c: the index: a version is recorded and the server hears of it. The index changes in a transaction as a
-- whole or not at all.
use nova_desktop.Base.{
  ℕ, ◌+◌, ◌%◌, ◌^◌, Bool, true, false, ◌&&◌, ◌||◌, not, List, [], ◌∷◌, ◌++◌, Option, none, some,
  ◌==◌, if◌then◌else◌, ℤ, pos, negsuc, take, map,
}
use nova_desktop.Text.{Text, codes, text_eq}
use nova_desktop.SyncWire.{cache, conflict, storage}
use nova_desktop.SyncWire.Fields.{sy_fields}
use nova_desktop.SyncClient.{
  Act, Client, Head, Heads, Phase, Row, Versions, World, applied, ask, cached, call, change, demand,
  from, lift, of_option, or_fail, pairs_array, pure, rpc, statement, unsigned, ◌>>=◌, ◌>>◌,
}
use nova_desktop.SyncClient.Download.{is_there}
use nova_desktop.SyncClient.Jobs.{Job, Seen, is_accepted, is_adopted, probe, string}

abbrev pub phase_of : Text → List Row → Option Phase
phase_of id [] = none
phase_of id (row ∷ rows) =
    let rest = phase_of id rows in if text_eq row.id id then some row.phase else rest

abbrev pub set_phase : Text → Phase → List Row → List Row
set_phase id phase rows =
    map (λ row. if text_eq row.id id then record row { phase = phase } else row) rows

abbrev pub without_row : Text → List Row → List Row
without_row id [] = []
without_row id (row ∷ rows) =
    let rest = without_row id rows in if text_eq row.id id then rest else row ∷ rest

-- INSERT OR IGNORE
abbrev pub with_row : Row → List Row → List Row
with_row row rows = if is_there (phase_of row.id rows) then rows else rows ++ row ∷ []

abbrev has_version : Text → Versions → Bool
has_version id [] = false
has_version id (v ∷ vs) = text_eq v.0 id || has_version id vs

abbrev with_version : Text × Text → Versions → Versions
with_version v vs = if has_version v.0 vs then vs else vs ++ v ∷ []

abbrev pub set_head : Text → Text → Head → Heads → Heads
set_head dataset key head heads d k =
    if text_eq d dataset && text_eq k key then some head else heads d k

abbrev pub rolled_back : World → Option (Unit {0}) × World → Option (Unit {0}) × World
rolled_back w (some a, w') = (some a, w')
rolled_back w (none, w') =
    (none, record w' { heads = w.heads; inbox = w.inbox; versions = w.versions })

abbrev pub nothing : World → World
nothing w = w

module _ (c : Client) where
  -- The chunks are in the cache, the server hears of it, and the row goes.
  abbrev pub all_cached : List (Option Text × ℕ) → Act (Unit {0})
  all_cached [] = pure tt
  all_cached ((hash, size) ∷ chunks) = cached c hash size >> all_cached chunks

  unfoldable pub acknowledge : Text → Text → Act (Unit {0})
  unfolding cached rpc lift ask
  acknowledge manifest mhash =
      or_fail c cache (pairs_array c manifest >>= all_cached)
      >> of_option (string c manifest (codes "$.id"))
      >>= λ id.
          of_option
            (sy_fields c.realloc (codes "ack") ((codes "job", id) ∷ (codes "mhash", mhash) ∷ []))
          >>= rpc c
          >>= λ reply.
              change (λ w. record w {
                reclaimed =
                    (w.reclaimed
                      + unsigned
                          (c.outside.json_int reply.json (codes "$.gc.removed_bytes") (pos 0)))
                    % 2 ^ 64;
              })
              >> statement c (λ w. record w { inbox = without_row id w.inbox })

  abbrev pub saved_head :
      Text → Option Text → Option Text → Option Text → Option Text → Head → Act (Unit {0})
  saved_head manifest (some dataset) (some key) (some relative) (some id) head =
      call
      >> change (λ w. record w { heads = set_head dataset key head w.heads })
      >> statement c (λ w. record w { versions = with_version (id, manifest) w.versions })
  saved_head manifest _ _ _ _ head = of_option none

  unfoldable pub head_save : Text → ℕ → ℤ → Act (Unit {0})
  unfolding ask lift
  head_save manifest size mtime = or_fail c storage (
      saved_head manifest (string c manifest (codes "$.dataset"))
        (string c manifest (codes "$.path_key")) (string c manifest (codes "$.path"))
        (string c manifest (codes "$.id"))
        (record { manifest = manifest; size = size; mtime = mtime }))

  -- BEGIN, what is done, COMMIT, and ROLLBACK where a part of it fails.
  abbrev pub transaction : Act (Unit {0}) → Act (Unit {0})
  transaction act w = rolled_back w ((statement c nothing >> act >> statement c nothing) w)

  abbrev stable_size : Bool → Option Seen → ℕ
  stable_size true (some seen) = seen.size
  stable_size _ _ = 0

  -- `(int64_t)mtime`, of a number below 2^63.
  abbrev stable_mtime : Bool → Option Seen → ℤ
  stable_mtime true (some seen) = pos seen.mtime
  stable_mtime _ _ = negsuc 0

  unfoldable pub save_applied : Text → Job → Option Seen → Act (Unit {0})
  unfolding head_save is_adopted lift ask
  save_applied manifest job seen =
      let stable = is_adopted job seen in
      transaction (
        head_save manifest (stable_size stable seen) (stable_mtime stable seen)
        >> statement c (λ w. record w { inbox = set_phase job.id applied w.inbox }))

  abbrev pub accepted_of : Job → Text
  accepted_of job = elim job.expected [ none ↦ [] | some hash ↦ take 64 hash ]

  abbrev pub accept : Job → World → World
  accept job w = record w { accepted_local = accepted_of job }

  -- A choice for the local file takes the version of the server into the index only.
  abbrev pub keeps_local : Bool → Bool
  keeps_local resolving = resolving && c.resolution == 1

  unfoldable pub finish : Text → Text → Text → Job → Bool → Act (Unit {0})
  unfolding probe save_applied acknowledge lift
  finish place manifest mhash job resolving = probe c place >>= λ seen.
      from (λ w. w.accepted_local)
        (λ accepted. demand c (not (keeps_local resolving) || is_accepted seen accepted) conflict)
      >> save_applied manifest job seen
      >> acknowledge manifest mhash
      >> change (λ w. record w { downloaded = w.downloaded + 1 })
      >> (if resolving && c.resolution == 2 then change (accept job) else pure tt)
