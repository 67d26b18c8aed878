-- ===== src/SyncClient/Receive.antt =====
-- platform/sync_client.c: one version from the server, checked against the file of the working folder and put in its place,
-- and all versions of a data set.
use nova_desktop.Base.{
  Bool, ◌&&◌, ◌||◌, not, List, [], ◌∷◌, Option, none, some, ◌==◌, if◌then◌else◌, length,
}
use nova_desktop.Text.{Text, codes, text_eq}
use nova_desktop.SyncModel.{sync_path_cap}
use nova_desktop.SyncWire.{conflict, delete, protocol}
use nova_desktop.SyncWire.Fields.{sy_fields}
use nova_desktop.SyncClient.{
  Act, Client, Head, Phase, Row, ask, call, check, demand, downloading, fail, from, is_same, lift,
  of_option, pairs_array, pure, query, ready, rpc, statement, ◌>>=◌, ◌>>◌,
}
use nova_desktop.SyncClient.Download.{download_all, seed}
use nova_desktop.SyncClient.Jobs.{
  Job, Seen, chosen, has_hash, is_accepted, is_adopted, is_already, is_applied, is_delete,
  is_unchanged, job_of, probe, same_version, string, target_path,
}
use nova_desktop.SyncClient.Tables.{acknowledge, finish, keeps_local, phase_of, set_phase, with_row}
use nova_desktop.SyncClient.Apply.{apply_job}

abbrev pub manifest_of : Option Head → Option Text
manifest_of none = none
manifest_of (some head) = some head.manifest

module _ (c : Client) where
  abbrev pub id_of : Option Text → Option Text
  id_of none = none
  id_of (some manifest) = string c manifest (codes "$.id")

  abbrev pub hash_in : Option Text → Option Text
  hash_in none = none
  hash_in (some manifest) = string c manifest (codes "$.sha256")

  abbrev pub seed_previous : Text → Option Text → Bool → Act (Unit {0})
  seed_previous place none same = pure tt
  seed_previous place (some previous) same = if same then seed c place previous else pure tt

  -- The file must be the one of the index, or the new one, or the one that a choice has accepted.
  unfoldable pub examine : Text → Text → Job → Option Phase → Bool → Option Text → Act (Option Seen)
  unfolding probe is_already is_adopted is_unchanged seed lift
  examine place manifest job phase resolving previous = probe c place >>= λ seen.
      from (λ w. w.accepted_local)
        (λ accepted. demand c (not resolving || is_accepted seen accepted) conflict)
      >> demand c
          (resolving
            || is_already job phase seen
            || is_adopted job seen
            || is_unchanged (hash_in previous) seen)
          conflict
      >> (if is_adopted job seen then seed c place manifest else pure tt)
      >> seed_previous place previous (has_hash seen (hash_in previous))
      >> pure seen

  unfoldable pub fetch_chunks : Text → Text → Job → Act (Unit {0})
  unfolding download_all lift ask
  fetch_chunks manifest mhash job =
      statement c (λ w. record w {
        inbox =
            with_row
              (record {
                id = job.id;
                dataset = job.dataset;
                manifest = manifest;
                mhash = mhash;
                phase = downloading;
              })
              w.inbox;
      })
      >> pairs_array c manifest
      >>= download_all c job.id
      >> statement c (λ w. record w { inbox = set_phase job.id ready w.inbox })

  -- A version that is not applied yet.
  unfoldable pub receive_job : Text → Text → Text → Job → Option Phase → Bool → Act (Unit {0})
  unfolding examine fetch_chunks apply_job finish is_already is_adopted lift ask
  receive_job place manifest mhash job phase resolving =
      query c (λ w. manifest_of (w.heads job.dataset job.key)) >>= λ previous.
      demand c (resolving || same_version job.parent (id_of previous)) conflict
      >> examine place manifest job phase resolving previous
      >>= λ seen.
          demand c (not (is_delete job) || c.sync_deletes || keeps_local c resolving) delete
          >> fetch_chunks manifest mhash job
          >> apply_job c place manifest job seen
              (is_already job phase seen || is_adopted job seen || keeps_local c resolving)
          >> finish c place manifest mhash job resolving

  unfoldable pub is_resolving : Job → Bool
  is_resolving job =
      not (c.resolution == 0)
      && not (length c.resolve_path == 0)
      && chosen c.resolve_path (c.wide job.relative sync_path_cap)

  abbrev pub checked_job : Text → Text → Act Job
  checked_job manifest mhash =
      demand c
        (length mhash == 64 && c.outside.json_valid manifest && is_same (c.sha manifest) mhash)
        protocol
      >> of_option (job_of c manifest)
      >>= λ job. check (is_same c.dataset job.dataset) >> pure job

  unfoldable pub receive_one : Option Text → Option Text → Act (Unit {0})
  unfolding job_of target_path acknowledge receive_job is_resolving lift ask
  receive_one (some manifest) (some mhash) = checked_job manifest mhash >>= λ job.
      target_path c job.relative >>= λ place. query c (λ w. phase_of job.id w.inbox) >>= λ phase.
      if is_applied phase
      then acknowledge c manifest mhash
      else receive_job place manifest mhash job phase (is_resolving job)
  receive_one _ _ = fail c protocol

  unfoldable pub receive_each : List (Option Text × Option Text) → Act (Unit {0})
  unfolding receive_one
  receive_each [] = pure tt
  receive_each ((manifest, mhash) ∷ versions) = receive_one manifest mhash >> receive_each versions

  abbrev rows_of : Text → List Row → List (Option Text × Option Text)
  rows_of dataset [] = []
  rows_of dataset (row ∷ rows) =
      let rest = rows_of dataset rows in
      if text_eq row.dataset dataset
      then (some (c.minified row.manifest), some row.mhash) ∷ rest
      else rest

  -- What an earlier run has left, then what the server has.
  unfoldable pub receive_all : Act (Unit {0})
  unfolding receive_each rpc lift ask
  receive_all = of_option c.dataset >>= λ dataset.
      query c (λ w. some (rows_of dataset w.inbox)) >>= of_option >>= λ rows.
      call
      >> receive_each rows
      >> of_option (sy_fields c.realloc (codes "pending") ((codes "dataset", dataset) ∷ []))
      >>= rpc c
      >>= λ reply. call >> receive_each (c.jobs reply.json)
