-- ===== src/SyncClient/Moves.antt =====
-- platform/sync_client.c: a version takes the place of a file that the checks have found.
use nova_desktop.SyncClient.Leaves.{
  bind-Leaves, change-Leaves, from_change-Leaves, if-Leaves, or_do-Leaves, quiet-Leaves,
  then-Leaves,
}
use nova_desktop.Base.{Bool, true, false, Option, none, some, ◌≡◌, refl}
use nova_desktop.Text.{Text}
use nova_desktop.SyncClient.{Client, Working, set_file}
use nova_desktop.SyncClient.Jobs.{Job, Seen, is_put, is_delete, job_of, place_of}
use nova_desktop.SyncClient.Apply.{
  temporary, disturbed, moved_in, same_seen, move_file, prepare_file, put_file, recycle_file,
  apply_job,
}
use nova_desktop.SyncClient.Temporary.{SameBut, fill_file-Writes, Writes-Leaves}
use nova_desktop.SyncClient.Quiet.{quiet}
use nova_desktop.SyncClient.Looks.{probe-IsQuiet, open_temporary-IsQuiet, check_file-IsQuiet}
use nova_desktop.SyncClient.Facts.{Local, Leaves, any-Finds, before-Finds, check-Finds}
use nova_desktop.SyncClient.Outcome.{
  kept, written, others, replaced, removed, IsCoveredFile, IsCoveredSeen, IsVersion, Outcome,
  IsSeen,
}
use nova_desktop.SyncClient.Checks.{
  covered_seen, same_covered, probe-Finds, check_file-Finds, open_temporary-Finds,
}

module _ (c : Client) (v : Local) (manifest : Text) (job : Job) (place : Text) where
  abbrev IsJob : Type 0
  IsJob = (job_of c manifest ≡ some job) × (place_of c job.relative ≡ some place)

  abbrev After : Working → Type 0
  After = Outcome c v manifest

  move_file-Leaves :
      (seen : Option Seen) (name : Text) (files : Working)
      → IsJob
      → temporary c place job.id ≡ some name
      → SameBut name v.working files
      → IsVersion c job (files name)
      → IsCoveredSeen c v job seen
      → Leaves (record v { working = files }) After (move_file c place seen name)
  unfolding move_file
  move_file-Leaves seen name files (j, p) t same version covered =
      let later : Local = record v { working = disturbed c name files } in
      let now_there : After later.working = others job place name files j p t same in
      from_change-Leaves (disturbed c name) _ (
        bind-Leaves now_there (probe-IsQuiet c place) (probe-Finds c later place) (λ now seen_now.
          then-Leaves now_there (search quiet depth 16)
            (before-Finds _ (before-Finds _ (check-Finds (same_seen now seen))))
            (λ equal. change-Leaves (moved_in name place) (
              replaced job place name files j p t same version (
                covered_seen c v job (later.working place) now seen_now
                  (same_covered c v job now seen equal covered))))))

  put_file-Leaves :
      (seen : Option Seen)
      → IsJob
      → IsCoveredSeen c v job seen
      → Leaves v After (put_file c place manifest job seen)
  unfolding prepare_file
  put_file-Leaves seen (j, p) covered =
      or_do-Leaves
        (bind-Leaves kept (open_temporary-IsQuiet c place job) (open_temporary-Finds c v place job)
          (λ name t.
            Writes-Leaves (fill_file-Writes c name manifest)
              (λ files same. written job place name files j p t same)
              (λ files same.
                then-Leaves (written job place name files j p t same)
                  (check_file-IsQuiet c name job)
                  (check_file-Finds c (record v { working = files }) name job)
                  (λ version. move_file-Leaves seen name files (j, p) t same version covered))))
        (search quiet)

  recycle_file-Leaves :
      (seen : Option Seen)
      → IsJob
      → is_delete job ≡ true
      → c.sync_deletes ≡ true
      → IsCoveredFile c v job (v.working place)
      → Leaves v After (recycle_file c place seen)
  recycle_file-Leaves none (j, p) deletes allowed covered = quiet-Leaves kept (search quiet)
  recycle_file-Leaves (some seen) (j, p) deletes allowed covered =
      then-Leaves kept (search quiet) any-Finds
        (λ _. change-Leaves (set_file place none) (removed job place j p deletes allowed covered))

  pub apply_job-Leaves :
      (seen : Option Seen) (already : Bool)
      → IsJob
      → IsSeen c (v.working place) seen
      → (is_delete job ≡ true → already ≡ false → c.sync_deletes ≡ true)
      → (already ≡ false → IsCoveredSeen c v job seen)
      → Leaves v After (apply_job c place manifest job seen already)
  unfolding apply_job
  apply_job-Leaves seen true known s allowed covered = quiet-Leaves kept (search quiet)
  apply_job-Leaves seen false known s allowed covered =
      if-Leaves (is_put job) (λ put. put_file-Leaves seen known (covered refl))
        (if-Leaves (is_delete job)
          (λ deletes.
            recycle_file-Leaves seen known deletes (allowed deletes refl)
              (covered_seen c v job (v.working place) seen s (covered refl)))
          (quiet-Leaves kept (search quiet)))
