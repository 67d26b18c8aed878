-- ===== src/SyncClient/Recorded.antt =====
-- platform/sync_client.c: a version that was received is in the index, and the server has heard of it.
use nova_desktop.SyncClient.Index.{job_names}
use nova_desktop.SyncClient.Keeps.{checked_job-IsQuiet, some_eq}
use nova_desktop.SyncClient.Safety.{checked_job-Finds}
use nova_desktop.Base.{
  List, Option, none, some, if◌then◌else◌, ◌≡◌, refl, ◌⊎◌, ◌∙◌, inl, inr, sym, subst, Bool-cases,
}
use nova_desktop.Text.{Text}
use nova_desktop.SyncClient.{World, Client, Act, Phase, applied, Row, query, ◌>>=◌}
use nova_desktop.SyncClient.Jobs.{Job, target_path, job_of, is_applied}
use nova_desktop.SyncClient.Tables.{acknowledge, phase_of}
use nova_desktop.SyncClient.Receive.{
  manifest_of, receive_job, receive_one, checked_job, is_resolving,
}
use nova_desktop.SyncClient.Facts.{local}
use nova_desktop.SyncClient.Looks.{target_path-IsQuiet}
use nova_desktop.SyncClient.Quiet.{view}
use nova_desktop.SyncClient.Done.{
  acknowledge-Ensures, receive_job-Ensures, phase-answer, was_applied, after-bind,
}

module _ (c : Client) (manifest mhash : Text) (job : Job) where
  -- The version is gone from the inbox, and is recorded unless it was applied before.
  abbrev IsReceived : List Row → World → Type 0
  IsReceived before w =
      (phase_of job.id w.inbox ≡ none)
      × ((phase_of job.id before ≡ some applied)
          ⊎ (manifest_of (w.heads job.dataset job.key) ≡ some manifest))

  -- The step from a state with such an inbox.
  abbrev Receives : List Row → Act (Unit {0}) → World → Type 0
  Receives before m w = w.inbox ≡ before → (m w).0 ≡ some tt → IsReceived before (m w).1

  by_phase :
      (place : Text) (before : List Row) (phase : Option Phase) (w : World)
      → job_of c manifest ≡ some job
      → (phase ≡ none) ⊎ (phase ≡ phase_of job.id before)
      → ((if is_applied phase
            then acknowledge c manifest mhash
            else receive_job c place manifest mhash job phase (is_resolving c job))
          w).0
        ≡ some tt
      → IsReceived before
          ((if is_applied phase
              then acknowledge c manifest mhash
              else receive_job c place manifest mhash job phase (is_resolving c job))
            w).1
  by_phase place before phase w j known = elim (Bool-cases (is_applied phase)) [
    | inl e ↦ rw e (λ h. (
      (acknowledge-Ensures c manifest mhash job (job_names c manifest job j).0).ensures w tt h,
      inl (was_applied phase (phase_of job.id before) known e),
    ))
    | inr e ↦ rw e (λ h.
        let done =
          (receive_job-Ensures c manifest mhash job place phase (is_resolving c job) j).ensures w tt
            h in
        (done.1, inr done.0))
  ]

  abbrev pub by_phase_step : Text → Option Phase → Act (Unit {0})
  by_phase_step place phase =
      if is_applied phase
      then acknowledge c manifest mhash
      else receive_job c place manifest mhash job phase (is_resolving c job)

  after_query :
      (place : Text) (before : List Row) (w : World)
      → job_of c manifest ≡ some job
      → Receives before (query c (λ u. phase_of job.id u.inbox) >>= by_phase_step place) w
  after_query place before w j same h =
      after-bind (IsReceived before) (query c (λ u. phase_of job.id u.inbox)) (by_phase_step place)
        w
        (λ phase e k.
          by_phase place before phase (query c (λ u. phase_of job.id u.inbox) w).1 j
            (rw (sym same) (phase-answer c job.id w phase e)) k)
        h

  after_target :
      (before : List Row) (w : World)
      → job_of c manifest ≡ some job
      → Receives before
          (target_path c job.relative >>= λ place.
            query c (λ u. phase_of job.id u.inbox) >>= by_phase_step place)
          w
  after_target before w j same h =
      after-bind (IsReceived before) (target_path c job.relative)
        (λ place. query c (λ u. phase_of job.id u.inbox) >>= by_phase_step place) w
        (λ place e k.
          after_query place before (target_path c job.relative w).1 j
            ((target_path-IsQuiet {g = λ u. u.inbox} c job.relative).quiet w ∙ same) k)
        h

-- Where the reception of a version is TRUE, the inbox has no row of the version any more, and its manifest is the
-- one that the index has for the file, unless an earlier run had applied the version.
pub receive_one_recorded :
    (c : Client) (manifest mhash : Text) (job : Job) (w : World)
    → job_of c manifest ≡ some job
    → (receive_one c (some manifest) (some mhash) w).0 ≡ some tt
    → (phase_of job.id (receive_one c (some manifest) (some mhash) w).1.inbox ≡ none)
      × ((phase_of job.id w.inbox ≡ some applied)
          ⊎ (manifest_of
                ((receive_one c (some manifest) (some mhash) w).1.heads job.dataset job.key)
              ≡ some manifest))
unfolding receive_one
receive_one_recorded c manifest mhash job w j h =
    let rest : Job → Act (Unit {0}) = λ read. target_path c read.relative >>= λ place.
    query c (λ u. phase_of read.id u.inbox) >>= by_phase_step c manifest mhash read place in
    let behind : World = (checked_job c manifest mhash w).1 in
    after-bind (IsReceived c manifest mhash job w.inbox) (checked_job c manifest mhash) rest w
      (λ read e k.
        let known = (checked_job-Finds c (local (view w)) manifest mhash).finds w refl read e in
        subst (λ r. IsReceived c manifest mhash r w.inbox (rest read behind).1)
          (some_eq job read (sym j ∙ known))
          (after_target c manifest mhash read w.inbox behind known
            ((checked_job-IsQuiet {g = λ u. u.inbox} c manifest mhash).quiet w) k))
      h
