-- ===== src/SyncClient/Safety.antt =====
-- platform/sync_client.c: the reception of a version loses no content that the index does not know.
use nova_desktop.SyncClient.Checks.{covered_lem, examine-Finds, examine-IsQuiet}
use nova_desktop.SyncClient.Leaves.{bind-Leaves, if-Leaves, quiet-Leaves, still-Leaves, then-Leaves}
use nova_desktop.SyncClient.Moves.{apply_job-Leaves}
use nova_desktop.SyncClient.Outcome.{kept, Outcome, kept}
use nova_desktop.Base.{◌||◌, Option, none, some, ◌≡◌, refl, ◌⊎◌, ◌∙◌, ap, inl, inr}
use nova_desktop.Text.{Text}
use nova_desktop.SyncWire.{path, storage, delete}
use nova_desktop.SyncClient.{World, Client, Phase, query, or_do, fail}
use nova_desktop.SyncClient.Jobs.{
  Job, is_delete, is_adopted, is_already, is_applied, job_of, place_of, target_path,
}
use nova_desktop.SyncClient.Tables.{keeps_local}
use nova_desktop.SyncClient.Receive.{
  manifest_of, receive_job, receive_one, checked_job, is_resolving,
}
use nova_desktop.SyncClient.Quiet.{view, quiet}
use nova_desktop.SyncClient.Looks.{target_path-IsQuiet}
use nova_desktop.SyncClient.Facts.{
  Local, local, Finds, Leaves, bind-Finds, before-Finds, last-Finds, of_option-Finds, pure-Finds,
  or_fail-Finds, demand-Finds, weaken-Finds, any-Finds, if-Finds, fail-none,
}
use nova_desktop.SyncClient.Keeps.{
  query-IsQuiet, wanted_deletes, not_in_place, acknowledge-IsQuiet, fetch_chunks-IsQuiet,
  finish-IsQuiet, checked_job-IsQuiet, some_eq, fallen_null,
}

module _ (c : Client) (v : Local) where
  query-Finds :
      {A : Type 0} (f : World → Option A) (r : Local → Option A)
      → ((w : World) → f w ≡ r (local (view w)))
      → Finds v (query c f) (λ a. (a ≡ none) ⊎ (a ≡ r v))
  unfolding or_do
  query-Finds f r reads = bind-Finds (search quiet) any-Finds (λ b _.
      if-Finds b (record { finds = λ w e a h. inr (some_eq (f w) a h ∙ reads w ∙ ap r e) })
        (record {
          finds = λ w e a h. inl (fallen_null (fail c storage w) a (fail-none c storage w) h);
        }))

  pub target_path-Finds :
      (relative : Text)
      → Finds v (target_path c relative) (λ place. place_of c relative ≡ some place)
  unfolding target_path
  target_path-Finds relative = or_fail-Finds c path (of_option-Finds (place_of c relative))

  receive_job-Leaves :
      (place manifest mhash : Text) (job : Job) (phase : Option Phase)
      → job_of c manifest ≡ some job
      → place_of c job.relative ≡ some place
      → Leaves v
          (Outcome c v manifest)
          (receive_job c place manifest mhash job phase (is_resolving c job))
  unfolding receive_job
  receive_job-Leaves place manifest mhash job phase j p =
      bind-Leaves kept (query-IsQuiet c _)
        (query-Finds (λ w. manifest_of (w.heads job.dataset job.key))
          (λ l. manifest_of (l.heads job.dataset job.key)) (λ w. refl))
        (λ previous known.
          bind-Leaves kept (search (quiet, examine-IsQuiet) depth 12)
            (last-Finds (search quiet)
              (examine-Finds c v place manifest job phase (is_resolving c job) previous))
            (λ seen checked.
              still-Leaves
                (then-Leaves kept (search (quiet, fetch_chunks-IsQuiet) depth 12)
                  (before-Finds _ (demand-Finds c _ delete))
                  (λ wanted.
                    apply_job-Leaves c v manifest job place seen _ (j, p) checked.0
                      (λ deletes out.
                        wanted_deletes (is_delete job) c.sync_deletes
                          (keeps_local c (is_resolving c job))
                          (is_already job phase seen || is_adopted job seen) deletes out wanted)
                      (λ out.
                        covered_lem c v job previous (is_already job phase seen)
                          (is_adopted job seen) seen known checked.1 checked.2
                          (not_in_place (is_already job phase seen || is_adopted job seen)
                            (keeps_local c (is_resolving c job)) out))))
                (finish-IsQuiet c place manifest mhash job (is_resolving c job))))

  pub checked_job-Finds :
      (manifest mhash : Text)
      → Finds v (checked_job c manifest mhash) (λ job. job_of c manifest ≡ some job)
  checked_job-Finds manifest mhash =
      bind-Finds (search quiet depth 12)
        (last-Finds (search quiet) (of_option-Finds (job_of c manifest)))
        (λ job known. weaken-Finds (last-Finds (search quiet) (pure-Finds job)) (λ a e. rw e known))

  receive_one-Leaves :
      (manifest mhash : Text)
      → Leaves v (Outcome c v manifest) (receive_one c (some manifest) (some mhash))
  unfolding receive_one
  receive_one-Leaves manifest mhash =
      bind-Leaves kept (checked_job-IsQuiet c manifest mhash) (checked_job-Finds manifest mhash)
        (λ job j.
          bind-Leaves kept (target_path-IsQuiet c job.relative) (target_path-Finds job.relative)
            (λ place p. bind-Leaves kept (query-IsQuiet c _) any-Finds (λ phase _.
              if-Leaves (is_applied phase)
                (λ applied. quiet-Leaves kept (acknowledge-IsQuiet c manifest mhash))
                (receive_job-Leaves place manifest mhash job phase j p))))

-- However the reception of a version ends, the files are as they were, but for the temporary file beside the file of the
-- manifest, with the name that the manifest's identifier gives it, and for what other programs have done meanwhile; or in
-- addition the temporary file has taken the place of the file of the manifest, with the hash and the size of the manifest;
-- or that file alone is moved to the recycle bin, for a deletion that the pair allows. In the last two cases the
-- content that was there, at the last look before, is the version that the index has recorded, or the one that the user's
-- choice has accepted.
pub receive_one_lem :
    (c : Client) (manifest mhash : Text) (w : World)
    → Outcome c (local (view w)) manifest (receive_one c (some manifest) (some mhash) w).1.working
receive_one_lem c manifest mhash w =
    (receive_one-Leaves c (local (view w)) manifest mhash).leaves w refl
