-- ===== src/SyncClient/Placed.antt =====
-- platform/sync_client.c: a version of a file that was received stands in the working folder.
use nova_desktop.Base.{
  List, ◌⊎◌, Bool, true, false, not, ◌&&◌, ◌||◌, Option, none, some, ◌≡◌, refl, ◌∙◌, ap, sym, subst,
  arith, inl, inr, ◌==◌,
}
use nova_desktop.Text.{Text, text_eq_iff, text_eq_refl}
use nova_desktop.SyncWire.{path}
use nova_desktop.SyncClient.{World, Client, Act, File, Working, Phase, Row, query, ◌>>=◌}
use nova_desktop.SyncClient.Download.{is_there}
use nova_desktop.SyncClient.Jobs.{
  Job, Seen, is_put, is_ready, is_adopted, is_already, has_hash, job_of, place_of, target_path,
}
use nova_desktop.SyncClient.Tables.{keeps_local, phase_of}
use nova_desktop.SyncClient.Apply.{
  disturbed, moved_in, move_file, prepare_file, put_file, apply_job,
}
use nova_desktop.SyncClient.Temporary.{fill_file-Writes}
use nova_desktop.SyncClient.Receive.{receive_job, receive_one, checked_job, is_resolving}
use nova_desktop.SyncClient.Quiet.{view, quiet}
use nova_desktop.SyncClient.Looks.{
  open_temporary-IsQuiet, check_file-IsQuiet, probe-IsQuiet, target_path-IsQuiet,
}
use nova_desktop.SyncClient.Facts.{Local, local, any-Finds, last-Finds}
use nova_desktop.SyncClient.Outcome.{IsSeen, IsVersion}
use nova_desktop.SyncClient.Checks.{examine-Finds, examine-IsQuiet, check_file-Finds}
use nova_desktop.SyncClient.Keeps.{
  some_eq, checked_job-IsQuiet, query-IsQuiet, fetch_chunks-IsQuiet, finish-IsQuiet,
}
use nova_desktop.SyncClient.Safety.{checked_job-Finds, target_path-Finds}
use nova_desktop.SyncClient.Done.{after-bind, phase-answer}
use nova_desktop.SyncClient.Recorded.{by_phase_step}
use nova_desktop.SyncClient.Places.{
  Places, file_hash, bind-Places, then-Places, still-Places, pure-Places, or_fail-Places,
  found-Places, change-Places, from_change-Places, Writes-Places,
}

new_hash :
    (seen : Seen) (expected : Option Text) (sized : Bool)
    → has_hash (some seen) expected && sized ≡ true
    → some seen.hash ≡ expected
new_hash seen none sized h = cc
new_hash seen (some hash) sized h = ap some ((text_eq_iff seen.hash hash).0 (ground arith))

some_adopted :
    (is_now adopted there exists : Bool)
    → there ≡ true
    → (is_now && (adopted || not there && not exists)) || adopted ≡ true
    → adopted ≡ true
some_adopted is_now adopted there exists e h = ground arith

already_adopted :
    (job : Job) (phase : Option Phase) (seen : Option Seen)
    → is_there job.expected ≡ true
    → is_already job phase seen || is_adopted job seen ≡ true
    → is_adopted job seen ≡ true
unfolding is_already
already_adopted job phase seen there h =
    some_adopted (is_ready phase) (is_adopted job seen) (is_there job.expected) (is_there seen)
      there h

adopted_hash :
    (c : Client) (job : Job) (file : Option File) (seen : Option Seen)
    → IsSeen c file seen
    → is_adopted job seen ≡ true
    → file_hash c file ≡ job.expected
unfolding is_adopted
adopted_hash c job none none s h = cc
adopted_hash c job none (some seen) s h = cc
adopted_hash c job (some file) none s h = cc
adopted_hash c job (some file) (some seen) s h =
    s ∙ new_hash seen job.expected (seen.size == job.total) h

still_new :
    (phase before : Option Phase) → (phase ≡ none) ⊎ (phase ≡ before) → before ≡ none → phase ≡ none
still_new phase before (inl e) new = e
still_new phase before (inr e) new = e ∙ new

without_choice :
    (in_place keeps : Bool) → keeps ≡ false → in_place || keeps ≡ true → in_place ≡ true
without_choice in_place keeps e h = ground arith

module _ (c : Client) (v : Local) (manifest mhash : Text) (job : Job) (place : Text) where
  abbrev IsPlaced : Working → Type 0
  IsPlaced files = file_hash c (files place) ≡ job.expected

  moved_hash :
      (name : Text) (files : Working)
      → IsVersion c job (files name)
      → IsPlaced (moved_in name place (disturbed c name files))
  moved_hash name files version =
      rw (text_eq_refl place) (rw (text_eq_refl name) (version_hash (files name) version))
    where
      version_hash : (file : Option File) → IsVersion c job file → file_hash c file ≡ job.expected
      version_hash none v' = cc
      version_hash (some file) (hash, is_hash, expected, size) = is_hash ∙ sym expected

  move_file-Places :
      (seen : Option Seen) (name : Text) (files : Working)
      → IsVersion c job (files name)
      → Places (record v { working = files }) IsPlaced (move_file c place seen name)
  unfolding move_file
  move_file-Places seen name files version = from_change-Places (disturbed c name) (
      bind-Places (probe-IsQuiet c place) any-Finds (λ now _.
        then-Places (search quiet depth 16)
          (change-Places (moved_in name place) (moved_hash name files version))))

  put_file-Places : (seen : Option Seen) → Places v IsPlaced (put_file c place manifest job seen)
  unfolding prepare_file
  put_file-Places seen = or_fail-Places c path (
      bind-Places (open_temporary-IsQuiet c place job) any-Finds (λ name _.
        Writes-Places (fill_file-Writes c name manifest) (λ files.
          found-Places (check_file-IsQuiet c name job)
            (check_file-Finds c (record v { working = files }) name job)
            (move_file-Places seen name files))))

  apply_job-Places :
      (seen : Option Seen) (already : Bool)
      → is_put job ≡ true
      → (already ≡ true → IsPlaced v.working)
      → Places v IsPlaced (apply_job c place manifest job seen already)
  unfolding apply_job
  apply_job-Places seen true put here = pure-Places (here refl)
  apply_job-Places seen false put here = rw put (put_file-Places seen)

  receive_job-Places :
      (phase : Option Phase)
      → is_put job ≡ true
      → is_there job.expected ≡ true
      → keeps_local c (is_resolving c job) ≡ false
      → Places v IsPlaced (receive_job c place manifest mhash job phase (is_resolving c job))
  unfolding receive_job
  receive_job-Places phase put there moves =
      bind-Places (query-IsQuiet c _) any-Finds (λ previous _.
        bind-Places (search (quiet, examine-IsQuiet) depth 12)
          (last-Finds (search quiet)
            (examine-Finds c v place manifest job phase (is_resolving c job) previous))
          (λ seen checked.
            still-Places _
              (then-Places (search (quiet, fetch_chunks-IsQuiet) depth 12) (
                apply_job-Places seen _ put (λ in_place.
                  adopted_hash c job (v.working place) seen checked.0 (
                    already_adopted job phase seen there (
                      without_choice (is_already job phase seen || is_adopted job seen)
                        (keeps_local c (is_resolving c job)) moves in_place)))))
              (finish-IsQuiet c place manifest mhash job (is_resolving c job))))

module _ (c : Client) (manifest mhash : Text) (job : Job) (place : Text) where
  abbrev pub Placed : World → Type 0
  Placed w = file_hash c (w.working place) ≡ job.expected

  -- The version is one of a file, is not applied, and is not the loser of a choice.
  abbrev IsFresh : List Row → Type 0
  IsFresh rows =
      (is_put job ≡ true)
      × (is_there job.expected ≡ true)
      × (keeps_local c (is_resolving c job) ≡ false)
      × (phase_of job.id rows ≡ none)

  by_phase_step-Placed :
      (phase : Option Phase) (w : World)
      → IsFresh w.inbox
      → phase ≡ none
      → (by_phase_step c manifest mhash job place phase w).0 ≡ some tt
      → Placed (by_phase_step c manifest mhash job place phase w).1
  by_phase_step-Placed phase w (put, there, moves, new) e = rw e (
      (receive_job-Places c (local (view w)) manifest mhash job place none put there moves).places w
        refl tt)

  query-Placed :
      (w : World)
      → IsFresh w.inbox
      → ((query c (λ u. phase_of job.id u.inbox) >>= by_phase_step c manifest mhash job place) w).0
        ≡ some tt
      → Placed
          ((query c (λ u. phase_of job.id u.inbox) >>= by_phase_step c manifest mhash job place)
            w).1
  query-Placed w fresh =
      after-bind Placed (query c (λ u. phase_of job.id u.inbox))
        (by_phase_step c manifest mhash job place) w
        (λ phase e.
          by_phase_step-Placed phase (query c (λ u. phase_of job.id u.inbox) w).1
            (subst IsFresh
              (sym ((query-IsQuiet {g = λ u. u.inbox} c (λ u. phase_of job.id u.inbox)).quiet w))
              fresh)
            (still_new phase (phase_of job.id w.inbox) (phase-answer c job.id w phase e) fresh.3))

-- Where the reception of a version of a file is TRUE, the file of its manifest has the hash of the version, unless
-- an earlier run has left a row of the version, or the user's choice is the local file.
pub receive_one_placed :
    (c : Client) (manifest mhash : Text) (job : Job) (place : Text) (w : World)
    → job_of c manifest ≡ some job
    → place_of c job.relative ≡ some place
    → is_put job ≡ true
    → is_there job.expected ≡ true
    → keeps_local c (is_resolving c job) ≡ false
    → phase_of job.id w.inbox ≡ none
    → (receive_one c (some manifest) (some mhash) w).0 ≡ some tt
    → file_hash c ((receive_one c (some manifest) (some mhash) w).1.working place) ≡ job.expected
unfolding receive_one
receive_one_placed c manifest mhash job place w j p put there moves new h =
    let behind : World = (checked_job c manifest mhash w).1 in
    let rest : Job → Text → Act (Unit {0}) = λ read at.
      query c (λ u. phase_of read.id u.inbox) >>= by_phase_step c manifest mhash read at in
    after-bind (Placed c manifest mhash job place) (checked_job c manifest mhash)
      (λ read. target_path c read.relative >>= rest read) w
      (λ read e.
        let same =
          some_eq job read
            (sym j ∙ (checked_job-Finds c (local (view w)) manifest mhash).finds w refl read e) in
        subst
          (λ r.
            ((target_path c r.relative >>= rest r) behind).0 ≡ some tt
            → Placed c manifest mhash job place ((target_path c r.relative >>= rest r) behind).1)
          (sym same)
          (after-bind (Placed c manifest mhash job place) (target_path c job.relative) (rest job)
            behind
            (λ at f.
              let there_too = some_eq place at (
                sym p
                ∙ (target_path-Finds c (local (view behind)) job.relative).finds behind refl at
                    f) in
              subst
                (λ q.
                  (rest job q (target_path c job.relative behind).1).0 ≡ some tt
                  → Placed c manifest mhash job place
                      (rest job q (target_path c job.relative behind).1).1)
                (sym there_too)
                (query-Placed c manifest mhash job place (target_path c job.relative behind).1 (
                  subst (IsFresh c manifest mhash job place)
                    (sym (
                      (target_path-IsQuiet {g = λ u. u.inbox} c job.relative).quiet behind
                      ∙ (checked_job-IsQuiet {g = λ u. u.inbox} c manifest mhash).quiet w))
                    (put, there, moves, new))))))
      h
