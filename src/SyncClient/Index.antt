-- ===== src/SyncClient/Index.antt =====
-- platform/sync_client.c: the rows of the index that a version changes.
use nova_desktop.SyncClient.Keeps.{acknowledge-IsQuiet, some_eq}
use nova_desktop.Base.{List, [], ◌∷◌, Option, none, some, ◌≡◌, refl, ap, inl, inr, sym, Bool-cases}
use nova_desktop.Text.{Text, codes, text_eq, text_eq_refl}
use nova_desktop.SyncClient.{World, Client, Act, Row, Head, Heads, follow}
use nova_desktop.SyncClient.Jobs.{Job, string, with_names, job_of, read_names}
use nova_desktop.SyncClient.Tables.{acknowledge, rolled_back, phase_of, without_row, set_head}
use nova_desktop.SyncClient.Receive.{manifest_of}
use nova_desktop.SyncClient.Quiet.{IsQuiet}
use nova_desktop.SyncClient.Ensures.{Ensures}

pub phase_of-without_row : (id : Text) (rows : List Row) → phase_of id (without_row id rows) ≡ none
phase_of-without_row id [] = refl
phase_of-without_row id (row ∷ rows) = elim (Bool-cases (text_eq row.id id)) [
  | inl e ↦ rw e (phase_of-without_row id rows)
  | inr e ↦ rw e (rw e (phase_of-without_row id rows))
]

abbrev pub IsGone : Text → World → Type 0
IsGone id w = phase_of id w.inbox ≡ none

abbrev pub IsRecorded : Text → Job → World → Type 0
IsRecorded manifest job w = manifest_of (w.heads job.dataset job.key) ≡ some manifest

pub set_head-lookup :
    (dataset key d k : Text) (head : Head) (heads : Heads)
    → d ≡ dataset
    → k ≡ key
    → set_head dataset key head heads d k ≡ some head
set_head-lookup dataset key d k head heads e f =
    rw e (rw f (rw (text_eq_refl dataset) (rw (text_eq_refl key) refl)))

pub not_rolled_back :
    (P : World → Type 0) (w : World) (x : Option (Unit {0}) × World)
    → ((a : Unit {0}) → x.0 ≡ some a → P x.1)
    → (a : Unit {0}) → (rolled_back w x).0 ≡ some a
    → P (rolled_back w x).1
not_rolled_back P w (some b, w') p a h = p b refl
not_rolled_back P w (none, w') p a h = cc

pub follow-eq-some :
    {A B : Type 0} (f : A → Act B) (x : Option A × World) (b : B)
    → (follow f x).0 ≡ some b
    → (a : A) × (x.0 ≡ some a) × (follow f x ≡ f a x.1)
follow-eq-some f (none, w) b h = cc
follow-eq-some f (some a, w) b h = (a, refl, refl)

pub both-Ensures :
    {P Q : World → Type 0} {A : Type 0} {m : Act A}
    → Ensures P m
    → Ensures Q m
    → Ensures (λ w. P w × Q w) m
both-Ensures p q = record { ensures = λ w a h. (p.ensures w a h, q.ensures w a h) }

pub acknowledge_heads :
    (c : Client) (manifest mhash : Text) → IsQuiet (λ u. u.heads) (acknowledge c manifest mhash)
acknowledge_heads c manifest mhash = record {
  quiet = λ w. ap (λ l. l.heads) ((acknowledge-IsQuiet c manifest mhash).quiet w);
}

names_of :
    (c : Client) (manifest : Text) (id dataset relative key kind : Option Text) (job : Job)
    → read_names c manifest id dataset relative key kind ≡ some job
    → (id ≡ some job.id) × (dataset ≡ some job.dataset) × (key ≡ some job.key)
names_of c manifest (some id) (some dataset) (some relative) (some key) (some kind) job h =
    let e : job ≡ with_names c manifest id dataset relative key kind =
      some_eq (with_names c manifest id dataset relative key kind) job h in
    (
      ap some (sym (ap (λ j. j.id) e)),
      ap some (sym (ap (λ j. j.dataset) e)),
      ap some (sym (ap (λ j. j.key) e)),
    )
names_of c manifest none dataset relative key kind job h = cc
names_of c manifest (some id) none relative key kind job h = cc
names_of c manifest (some id) (some dataset) none key kind job h = cc
names_of c manifest (some id) (some dataset) (some relative) none kind job h = cc
names_of c manifest (some id) (some dataset) (some relative) (some key) none job h = cc

pub job_names :
    (c : Client) (manifest : Text) (job : Job)
    → job_of c manifest ≡ some job
    → (string c manifest (codes "$.id") ≡ some job.id)
      × (string c manifest (codes "$.dataset") ≡ some job.dataset)
      × (string c manifest (codes "$.path_key") ≡ some job.key)
unfolding job_of
job_names c manifest job j =
    names_of c manifest (string c manifest (codes "$.id")) (string c manifest (codes "$.dataset"))
      (string c manifest (codes "$.path")) (string c manifest (codes "$.path_key"))
      (string c manifest (codes "$.kind")) job j
