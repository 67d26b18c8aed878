-- ===== src/SyncClient/Indexed.antt =====
-- platform/sync_client.c: the reception of one version changes the index and the accepted content as its manifest says.
use nova_desktop.Base.{Bool, true, ◌&&◌, Option, none, some, ◌==◌, ◌≡◌, refl, arith}
use nova_desktop.Text.{Text}
use nova_desktop.SyncClient.{World, Client, Phase, change, fail, pure}
use nova_desktop.SyncWire.{path}
use nova_desktop.SyncClient.Jobs.{Job, Seen, job_of, is_applied}
use nova_desktop.SyncClient.Tables.{accept, finish}
use nova_desktop.SyncClient.Apply.{recycle_file, apply_job, prepare_file, move_file}
use nova_desktop.SyncClient.Receive.{receive_job, receive_one, is_resolving}
use nova_desktop.SyncClient.Quiet.{view, quiet, then-IsQuiet}
use nova_desktop.SyncClient.Facts.{local}
use nova_desktop.SyncClient.Looks.{
  probe-IsQuiet, open_temporary-IsQuiet, check_file-IsQuiet, target_path-IsQuiet,
}
use nova_desktop.SyncClient.Checks.{examine-IsQuiet}
use nova_desktop.SyncClient.Keeps.{
  query-IsQuiet, acknowledge-IsQuiet, fetch_chunks-IsQuiet, checked_job-IsQuiet,
}
use nova_desktop.SyncClient.Safety.{checked_job-Finds}
use nova_desktop.SyncClient.Temporary.{fill_file-Writes}
use nova_desktop.SyncClient.Tracks.{
  IsIndexed, Tracks, known-Tracks, bind-Tracks, then-Tracks, or_do-Tracks, if-Tracks, quiet-Tracks,
  files-Tracks, change-Tracks, accepted_change, save_applied-Tracks,
}

module _ (c : Client) (manifest : Text) where
  module _ (place : Text) (job : Job) where
    finish-Tracks :
        (mhash : Text) (resolving : Bool)
        → job_of c manifest ≡ some job
        → Tracks c manifest (finish c place manifest mhash job resolving)
    unfolding finish
    finish-Tracks mhash resolving j = bind-Tracks (quiet-Tracks (probe-IsQuiet c place)) (λ seen.
        then-Tracks
          (then-Tracks
            (then-Tracks
              (then-Tracks (quiet-Tracks (search quiet depth 12)) (save_applied-Tracks job seen))
              (quiet-Tracks (acknowledge-IsQuiet c manifest mhash)))
            (quiet-Tracks (search quiet)))
          (if-Tracks (resolving && c.resolution == 2) (λ both. accept-Tracks (chosen both))
            (quiet-Tracks (search quiet))))
      where
        chosen : (resolving && c.resolution == 2) ≡ true → (c.resolution == 2) ≡ true
        chosen both = ground arith

        accept-Tracks : (c.resolution == 2) ≡ true → Tracks c manifest (change (accept c job))
        accept-Tracks two = accepted_change job j two

    prepare_file-Tracks :
        (seen : Option Seen) → Tracks c manifest (prepare_file c place manifest job seen)
    unfolding prepare_file move_file
    prepare_file-Tracks seen =
        bind-Tracks (quiet-Tracks (open_temporary-IsQuiet c place job)) (λ name.
          then-Tracks (files-Tracks (fill_file-Writes c name manifest)) (
            then-Tracks (quiet-Tracks (check_file-IsQuiet c name job)) (
              then-Tracks (change-Tracks _ (λ w. refl) (λ w. refl)) (
                bind-Tracks (quiet-Tracks (probe-IsQuiet c place)) (λ now.
                  then-Tracks (quiet-Tracks (search quiet depth 16))
                    (change-Tracks _ (λ w. refl) (λ w. refl)))))))

    recycle_file-Tracks : (seen : Option Seen) → Tracks c manifest (recycle_file c place seen)
    recycle_file-Tracks none = quiet-Tracks (search quiet)
    recycle_file-Tracks (some seen) =
        then-Tracks (quiet-Tracks (search quiet)) (change-Tracks _ (λ w. refl) (λ w. refl))

    apply_job-Tracks :
        (seen : Option Seen) (already : Bool)
        → Tracks c manifest (apply_job c place manifest job seen already)
    unfolding apply_job
    apply_job-Tracks seen already =
        if-Tracks already (λ _. quiet-Tracks (search quiet))
          (if-Tracks _
            (λ _.
              or_do-Tracks {k = fail c path} (prepare_file-Tracks seen)
                (quiet-Tracks (search quiet)))
            (if-Tracks {k = pure tt} _ (λ _. recycle_file-Tracks seen)
              (quiet-Tracks (search quiet))))

    receive_job-Tracks :
        (mhash : Text) (phase : Option Phase) (resolving : Bool)
        → job_of c manifest ≡ some job
        → Tracks c manifest (receive_job c place manifest mhash job phase resolving)
    unfolding receive_job
    receive_job-Tracks mhash phase resolving j =
        bind-Tracks (quiet-Tracks (query-IsQuiet c _)) (λ previous.
          bind-Tracks
            (quiet-Tracks (
              then-IsQuiet (search quiet)
                (examine-IsQuiet c place manifest job phase resolving previous)))
            (λ seen.
              then-Tracks
                (then-Tracks (quiet-Tracks (search (quiet, fetch_chunks-IsQuiet) depth 12))
                  (apply_job-Tracks seen _))
                (finish-Tracks mhash resolving j)))

  receive_one-Tracks :
      (mhash : Text) → Tracks c manifest (receive_one c (some manifest) (some mhash))
  unfolding receive_one
  receive_one-Tracks mhash =
      known-Tracks {F = λ job. job_of c manifest ≡ some job}
        (quiet-Tracks (checked_job-IsQuiet c manifest mhash))
        (λ w job h. (checked_job-Finds c (local (view w)) manifest mhash).finds w refl job h)
        (λ job j. bind-Tracks (quiet-Tracks (target_path-IsQuiet c job.relative)) (λ place.
          bind-Tracks (quiet-Tracks (query-IsQuiet c _)) (λ phase.
            if-Tracks (is_applied phase) (λ _. quiet-Tracks (acknowledge-IsQuiet c manifest mhash))
              (receive_job-Tracks place job mhash phase (is_resolving c job) j))))

-- However the reception of a version ends, the index has at most the row of its manifest changed, and to the manifest, and
-- the accepted content is as it was, or that of the manifest where the choice is the server's file.
pub receive_one-IsIndexed :
    (c : Client) (manifest mhash : Text) (w : World)
    → IsIndexed c manifest
        (local (view w))
        (local (view (receive_one c (some manifest) (some mhash) w).1))
receive_one-IsIndexed c manifest mhash w = (receive_one-Tracks c manifest mhash).tracks w
