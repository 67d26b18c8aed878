-- ===== src/SyncClient/Done.antt =====
-- platform/sync_client.c: a version that was applied is in the index and gone from the inbox.
use nova_desktop.SyncClient.Keeps.{fallen_null, some_eq}
use nova_desktop.Base.{
  ℕ, Bool, true, false, List, Option, none, some, if◌then◌else◌, ◌≡◌, refl, ◌⊎◌, ◌∙◌, ap, ℤ, inl,
  inr, sym, subst,
}
use nova_desktop.Text.{Text, codes}
use nova_desktop.SyncClient.{
  World, Client, Act, Phase, downloading, ready, applied, ask, Row, Head, Heads, query, statement,
  pure, or_do, fail, ◌>>=◌, ◌>>◌,
}
use nova_desktop.SyncWire.{storage}
use nova_desktop.SyncClient.Jobs.{Job, Seen, string, job_of, is_applied}
use nova_desktop.SyncClient.Tables.{
  acknowledge, saved_head, head_save, transaction, nothing, save_applied, finish, phase_of,
}
use nova_desktop.SyncClient.Receive.{manifest_of, receive_job}
use nova_desktop.SyncClient.Facts.{fail-none}
use nova_desktop.SyncClient.Quiet.{quiet}
use nova_desktop.SyncClient.Ensures.{
  Ensures, followed, last-Ensures, end-Ensures, change-Ensures, known-Ensures, or_fail-Ensures,
  statement-Ensures, quiet-Ensures, after_of_option,
}
use nova_desktop.SyncClient.Index.{
  phase_of-without_row, IsGone, IsRecorded, set_head-lookup, not_rolled_back, follow-eq-some,
  both-Ensures, acknowledge_heads, job_names,
}

module _ (c : Client) (manifest mhash : Text) (job : Job) where
  pub acknowledge-Ensures :
      string c manifest (codes "$.id") ≡ some job.id
      → Ensures (IsGone job.id) (acknowledge c manifest mhash)
  unfolding acknowledge
  acknowledge-Ensures same =
      known-Ensures _ (λ id. string c manifest (codes "$.id") ≡ some id)
        (λ w id h. after_of_option _ (string c manifest (codes "$.id")) w id h)
        (λ id h. last-Ensures _ (λ reply. end-Ensures _ (
          statement-Ensures c _
            (λ w. rw (some_eq job.id id (sym same ∙ h)) (phase_of-without_row job.id w.inbox)))))

  saved_head-Ensures :
      (dataset key relative id : Option Text) (head : Head)
      → dataset ≡ some job.dataset
      → key ≡ some job.key
      → head.manifest ≡ manifest
      → Ensures (IsRecorded manifest job) (saved_head c manifest dataset key relative id head)
  saved_head-Ensures (some dataset) (some key) (some relative) (some id) head d k m =
      quiet-Ensures {g = λ u. u.heads}
        (λ heads. manifest_of (heads job.dataset job.key) ≡ some manifest)
        (end-Ensures _ (
          change-Ensures _ (λ w.
            ap manifest_of (
              set_head-lookup dataset key job.dataset job.key head w.heads
                (some_eq dataset job.dataset d) (some_eq key job.key k))
            ∙ ap some m)))
        (search quiet depth 12)
  saved_head-Ensures none key relative id head d k m = cc
  saved_head-Ensures (some dataset) none relative id head d k m = cc
  saved_head-Ensures (some dataset) (some key) none id head d k m = record { ensures = λ w a h. cc }
  saved_head-Ensures (some dataset) (some key) (some relative) none head d k m = record {
    ensures = λ w a h. cc;
  }

  head_save-Ensures :
      (size : ℕ) (mtime : ℤ)
      → string c manifest (codes "$.dataset") ≡ some job.dataset
      → string c manifest (codes "$.path_key") ≡ some job.key
      → Ensures (IsRecorded manifest job) (head_save c manifest size mtime)
  unfolding head_save
  head_save-Ensures size mtime d k = or_fail-Ensures c storage (
      saved_head-Ensures (string c manifest (codes "$.dataset"))
        (string c manifest (codes "$.path_key")) (string c manifest (codes "$.path"))
        (string c manifest (codes "$.id"))
        (record { manifest = manifest; size = size; mtime = mtime }) d k refl)

  transaction-Ensures :
      (act : Act (Unit {0}))
      → Ensures (IsRecorded manifest job) act
      → Ensures (IsRecorded manifest job) (transaction c act)
  transaction-Ensures act p =
      let whole : Ensures (IsRecorded manifest job)
          (statement c nothing >> act >> statement c nothing) =
        quiet-Ensures {g = λ u. u.heads}
          (λ heads. manifest_of (heads job.dataset job.key) ≡ some manifest) (end-Ensures _ p)
          (search quiet depth 12) in
      record {
        ensures = λ w.
            not_rolled_back (IsRecorded manifest job) w
              ((statement c nothing >> act >> statement c nothing) w) (whole.ensures w);
      }

  save_applied-Ensures :
      (seen : Option Seen)
      → string c manifest (codes "$.dataset") ≡ some job.dataset
      → string c manifest (codes "$.path_key") ≡ some job.key
      → Ensures (IsRecorded manifest job) (save_applied c manifest job seen)
  unfolding save_applied
  save_applied-Ensures seen d k = transaction-Ensures _ (
      quiet-Ensures {g = λ u. u.heads}
        (λ heads. manifest_of (heads job.dataset job.key) ≡ some manifest)
        (head_save-Ensures _ _ d k) (search quiet depth 12))

  abbrev IsDone : World → Type 0
  IsDone w = IsRecorded manifest job w × IsGone job.id w

  finish-Ensures :
      (place : Text) (resolving : Bool)
      → job_of c manifest ≡ some job
      → Ensures IsDone (finish c place manifest mhash job resolving)
  unfolding finish
  finish-Ensures place resolving j =
      let names = job_names c manifest job j in
      last-Ensures _ (λ seen.
        quiet-Ensures {O = Heads × List Row} {g = λ u. (u.heads, u.inbox)}
          (λ t.
            (manifest_of (t.0 job.dataset job.key) ≡ some manifest) × (phase_of job.id t.1 ≡ none))
          (quiet-Ensures {O = Heads × List Row} {g = λ u. (u.heads, u.inbox)}
            (λ t.
              (manifest_of (t.0 job.dataset job.key) ≡ some manifest)
              × (phase_of job.id t.1 ≡ none))
            (both-Ensures
              (quiet-Ensures {g = λ u. u.heads}
                (λ heads. manifest_of (heads job.dataset job.key) ≡ some manifest)
                (end-Ensures _ (save_applied-Ensures seen names.1 names.2))
                (acknowledge_heads c manifest mhash))
              (end-Ensures _ (acknowledge-Ensures names.0)))
            (search quiet))
          (search quiet))

  pub receive_job-Ensures :
      (place : Text) (phase : Option Phase) (resolving : Bool)
      → job_of c manifest ≡ some job
      → Ensures IsDone (receive_job c place manifest mhash job phase resolving)
  unfolding receive_job
  receive_job-Ensures place phase resolving j =
      last-Ensures _
        (λ previous. last-Ensures _ (λ seen. end-Ensures _ (finish-Ensures place resolving j)))

bind-eq-some :
    {A B : Type 0} (m : Act A) (f : A → Act B) (w : World) (b : B)
    → ((m >>= f) w).0 ≡ some b
    → (a : A) × ((m w).0 ≡ some a) × ((m >>= f) w ≡ f a (m w).1)
unfolding ◌>>=◌
bind-eq-some m f w b h = follow-eq-some f (m w) b h

chosen_answer :
    {A : Type 0} (c : Client) (f : World → Option A) (b : Bool) (w : World) (a : Option A)
    → ((if b then (λ w'. (some (f w'), w')) else or_do (pure none) (fail c storage)) w).0 ≡ some a
    → (a ≡ none) ⊎ (a ≡ f w)
unfolding or_do
chosen_answer c f true w a h = inr (some_eq (f w) a h)
chosen_answer c f false w a h = inl (fallen_null (fail c storage w) a (fail-none c storage w) h)

pub phase-answer :
    (c : Client) (id : Text) (w : World) (phase : Option Phase)
    → (query c (λ u. phase_of id u.inbox) w).0 ≡ some phase
    → (phase ≡ none) ⊎ (phase ≡ phase_of id w.inbox)
unfolding ask
phase-answer c id w phase h =
    let asked =
      bind-eq-some ask
        (λ b.
          if b then (λ u. (some (phase_of id u.inbox), u)) else or_do (pure none) (fail c storage))
        w phase h in
    chosen_answer c (λ u. phase_of id u.inbox) asked.0 (ask w).1 phase
      (subst (λ x. x.0 ≡ some phase) asked.2 h)

pub was_applied :
    (phase before : Option Phase)
    → (phase ≡ none) ⊎ (phase ≡ before)
    → is_applied phase ≡ true
    → before ≡ some applied
was_applied (some applied) before (inl e) h = cc
was_applied (some applied) before (inr e) h = sym e
was_applied (some ready) before e h = cc
was_applied (some downloading) before e h = cc
was_applied none before e h = cc

pub after-bind :
    {A : Type 0} (P : World → Type 0) (m : Act A) (f : A → Act (Unit {0})) (w : World)
    → ((a : A) → (m w).0 ≡ some a → (f a (m w).1).0 ≡ some tt → P (f a (m w).1).1)
    → ((m >>= f) w).0 ≡ some tt
    → P ((m >>= f) w).1
unfolding ◌>>=◌
after-bind P m f w p h = followed P f (m w) (λ a e b k. p a e k) tt h
