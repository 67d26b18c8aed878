-- ===== src/SyncClient/Tracks.antt =====
-- platform/sync_client.c: what the reception of one version changes of the index and of the content that a choice has accepted.
use nova_desktop.Base.{
  Bool, true, false, ◌&&◌, Option, none, some, if◌then◌else◌, ◌==◌, ◌≡◌, refl, ◌∙◌, ap, ◌⊎◌, inl,
  inr, sym, arith, Bool-cases,
}
use nova_desktop.Text.{Text, codes, text_eq, text_eq_iff}
use nova_desktop.SyncClient.{
  World, Client, Act, Head, Heads, follow, fallen, change, or_do, statement, ◌>>=◌, ◌>>◌,
}
use nova_desktop.SyncClient.Jobs.{Job, Seen, string, job_of}
use nova_desktop.SyncClient.Tables.{
  accept, accepted_of, saved_head, head_save, rolled_back, transaction, nothing, save_applied,
  set_head,
}
use nova_desktop.SyncClient.Receive.{manifest_of}
use nova_desktop.SyncClient.Quiet.{view, IsQuiet, quiet}
use nova_desktop.SyncClient.Facts.{Local, local}
use nova_desktop.SyncClient.Temporary.{Writes}

-- A row of the index is as it was, or it is the row of the manifest and has the manifest now.
abbrev pub IsRow : Client → Text → Text → Text → Option Head → Option Head → Type 0
IsRow c manifest dataset key before after =
    (after ≡ before)
    ⊎ ((manifest_of after ≡ some manifest)
        × (string c manifest (codes "$.dataset") ≡ some dataset)
        × (string c manifest (codes "$.path_key") ≡ some key))

-- The accepted content is as it was, or the one of the manifest, for a choice of the server's file.
abbrev pub IsAccepted : Client → Text → Text → Text → Type 0
IsAccepted c manifest before after =
    (after ≡ before)
    ⊎ ((c.resolution == 2) ≡ true)
      × (job : Job) × (job_of c manifest ≡ some job)
      × (after ≡ accepted_of c job)

abbrev pub IsIndexed : Client → Text → Local → Local → Type 0
IsIndexed c manifest v u =
    ((dataset key : Text)
      → IsRow c manifest dataset key (v.heads dataset key) (u.heads dataset key))
    × IsAccepted c manifest v.accepted_local u.accepted_local

module _ (c : Client) (manifest : Text) where
  IsRow-trans :
      (dataset key : Text) (a b d : Option Head)
      → IsRow c manifest dataset key a b
      → IsRow c manifest dataset key b d
      → IsRow c manifest dataset key a d
  IsRow-trans dataset key a b d (inl e) (inl f) = inl (f ∙ e)
  IsRow-trans dataset key a b d (inr (m, set, key_eq)) (inl f) =
      inr (ap manifest_of f ∙ m, set, key_eq)
  IsRow-trans dataset key a b d first (inr now) = inr now

  IsAccepted-trans :
      (a b d : Text)
      → IsAccepted c manifest a b
      → IsAccepted c manifest b d
      → IsAccepted c manifest a d
  IsAccepted-trans a b d (inl e) (inl f) = inl (f ∙ e)
  IsAccepted-trans a b d (inr (two, job, j, e)) (inl f) = inr (two, job, j, f ∙ e)
  IsAccepted-trans a b d first (inr now) = inr now

  IsIndexed-trans :
      (u v t : Local)
      → IsIndexed c manifest u v
      → IsIndexed c manifest v t
      → IsIndexed c manifest u t
  IsIndexed-trans u v t (rows, accepted) (rows', accepted') = (
    λ dataset key.
        IsRow-trans dataset key (u.heads dataset key) (v.heads dataset key) (t.heads dataset key)
          (rows dataset key) (rows' dataset key),
    IsAccepted-trans u.accepted_local v.accepted_local t.accepted_local accepted accepted',
  )

  IsRow-set :
      (dataset key d k : Text) (head : Head) (heads : Heads)
      → head.manifest ≡ manifest
      → string c manifest (codes "$.dataset") ≡ some dataset
      → string c manifest (codes "$.path_key") ≡ some key
      → IsRow c manifest d k (heads d k) (set_head dataset key head heads d k)
  IsRow-set dataset key d k head heads m e f =
      elim (Bool-cases (text_eq d dataset && text_eq k key)) [
        | inr other ↦ inl (rw other refl)
        | inl here ↦
            let same : text_eq d dataset ≡ true = ground arith in
            let same' : text_eq k key ≡ true = ground arith in
            inr (
              rw here (ap some m),
              e ∙ ap some (sym ((text_eq_iff d dataset).0 same)),
              f ∙ ap some (sym ((text_eq_iff k key).0 same')),
            )
      ]

  rolled_back-Tracks :
      (w : World) (x : Option (Unit {0}) × World)
      → IsIndexed c manifest (local (view w)) (local (view x.1))
      → IsIndexed c manifest (local (view w)) (local (view (rolled_back w x).1))
  rolled_back-Tracks w (some a, u) so_far = so_far
  rolled_back-Tracks w (none, u) (rows, accepted) = (λ dataset key. inl refl, accepted)

  pub record Tracks {A : Type 0} (m : Act A) : Type 0 where
    pub tracks : (w : World) → IsIndexed c manifest (local (view w)) (local (view (m w).1))

module _ {c : Client} {manifest : Text} where
  follow-Tracks :
      {A B : Type 0} (f : A → Act B) (w : World) (x : Option A × World)
      → ((a : A) → x.0 ≡ some a → Tracks c manifest (f a))
      → IsIndexed c manifest (local (view w)) (local (view x.1))
      → IsIndexed c manifest (local (view w)) (local (view (follow f x).1))
  follow-Tracks f w (none, u) next so_far = so_far
  follow-Tracks f w (some a, u) next so_far =
      IsIndexed-trans c manifest (local (view w)) (local (view u)) (local (view (f a u).1)) so_far
        ((next a refl).tracks u)

  fallen-Tracks :
      {A : Type 0} (k : Act A) (w : World) (x : Option A × World)
      → Tracks c manifest k
      → IsIndexed c manifest (local (view w)) (local (view x.1))
      → IsIndexed c manifest (local (view w)) (local (view (fallen k x).1))
  fallen-Tracks k w (some a, u) q so_far = so_far
  fallen-Tracks k w (none, u) q so_far =
      IsIndexed-trans c manifest (local (view w)) (local (view u)) (local (view (k u).1)) so_far
        (q.tracks u)

  pub known-Tracks :
      {A B : Type 0} {F : A → Type 0} {m : Act A} {f : A → Act B}
      → Tracks c manifest m
      → ((w : World) (a : A) → (m w).0 ≡ some a → F a)
      → ((a : A) → F a → Tracks c manifest (f a))
      → Tracks c manifest (m >>= f)
  unfolding ◌>>=◌
  known-Tracks {m} {f} p known q = record {
    tracks = λ w. follow-Tracks f w (m w) (λ a h. q a (known w a h)) (p.tracks w);
  }

  pub bind-Tracks :
      {A B : Type 0} {m : Act A} {f : A → Act B}
      → Tracks c manifest m
      → ((a : A) → Tracks c manifest (f a))
      → Tracks c manifest (m >>= f)
  bind-Tracks p q = known-Tracks {F = λ _. Unit {0}} p (λ w a h. tt) (λ a _. q a)

  pub then-Tracks :
      {B : Type 0} {m : Act (Unit {0})} {k : Act B}
      → Tracks c manifest m
      → Tracks c manifest k
      → Tracks c manifest (m >> k)
  unfolding ◌>>◌
  then-Tracks p q = bind-Tracks p (λ a. q)

  pub or_do-Tracks :
      {A : Type 0} {m k : Act A}
      → Tracks c manifest m
      → Tracks c manifest k
      → Tracks c manifest (or_do k m)
  unfolding or_do
  or_do-Tracks {m} {k} p q = record { tracks = λ w. fallen-Tracks k w (m w) q (p.tracks w) }

  pub if-Tracks :
      {A : Type 0} {m k : Act A} (b : Bool)
      → (b ≡ true → Tracks c manifest m)
      → Tracks c manifest k
      → Tracks c manifest (if b then m else k)
  if-Tracks true p q = p refl
  if-Tracks false p q = q

  pub quiet-Tracks : {A : Type 0} {m : Act A} → IsQuiet local m → Tracks c manifest m
  quiet-Tracks still = record {
    tracks = λ w. (
      λ dataset key. inl (ap (λ l. l.heads dataset key) (still.quiet w)),
      inl (ap (λ l. l.accepted_local) (still.quiet w)),
    );
  }

  pub files-Tracks : {A : Type 0} {name : Text} {m : Act A} → Writes name m → Tracks c manifest m
  files-Tracks p = record {
    tracks = λ w.
        let (files, heads, accepted) = p.writes w in
        (λ dataset key. inl (ap (λ (h : Heads). h dataset key) heads), inl accepted);
  }

  -- A change of the working folder alone.
  pub change-Tracks :
      (f : World → World)
      → ((w : World) → (f w).heads ≡ w.heads)
      → ((w : World) → (f w).accepted_local ≡ w.accepted_local)
      → Tracks c manifest (change f)
  unfolding change
  change-Tracks f heads accepted = record {
    tracks =
        λ w. (λ dataset key. inl (ap (λ (h : Heads). h dataset key) (heads w)), inl (accepted w));
  }

  pub accepted_change :
      (job : Job)
      → job_of c manifest ≡ some job
      → (c.resolution == 2) ≡ true
      → Tracks c manifest (change (accept c job))
  unfolding change
  accepted_change job j two = record {
    tracks = λ w. (λ dataset key. inl refl, inr (two, job, j, refl));
  }

  saved_head-Tracks :
      (dataset key relative id : Option Text) (head : Head)
      → head.manifest ≡ manifest
      → string c manifest (codes "$.dataset") ≡ dataset
      → string c manifest (codes "$.path_key") ≡ key
      → Tracks c manifest (saved_head c manifest dataset key relative id head)
  unfolding change
  saved_head-Tracks (some dataset) (some key) (some relative) (some id) head m e f =
      then-Tracks
        (then-Tracks (quiet-Tracks (search quiet)) (record {
          tracks = λ w. (λ d k. IsRow-set c manifest dataset key d k head w.heads m e f, inl refl);
        }))
        (quiet-Tracks (search quiet depth 12))
  saved_head-Tracks none key relative id head m e f = quiet-Tracks (search quiet)
  saved_head-Tracks (some dataset) none relative id head m e f = quiet-Tracks (search quiet)
  saved_head-Tracks (some dataset) (some key) none id head m e f = quiet-Tracks (search quiet)
  saved_head-Tracks (some dataset) (some key) (some relative) none head m e f =
      quiet-Tracks (search quiet)

  transaction-Tracks :
      {act : Act (Unit {0})} → Tracks c manifest act → Tracks c manifest (transaction c act)
  transaction-Tracks {act} p =
      let whole : Tracks c manifest (statement c nothing >> act >> statement c nothing) =
        then-Tracks (then-Tracks (quiet-Tracks (search quiet depth 12)) p)
          (quiet-Tracks (search quiet depth 12)) in
      record {
        tracks = λ w.
            rolled_back-Tracks c manifest w ((statement c nothing >> act >> statement c nothing) w)
              (whole.tracks w);
      }

  pub save_applied-Tracks :
      (job : Job) (seen : Option Seen) → Tracks c manifest (save_applied c manifest job seen)
  unfolding save_applied head_save
  save_applied-Tracks job seen = transaction-Tracks (
      then-Tracks
        (or_do-Tracks (saved_head-Tracks _ _ _ _ _ refl refl refl) (quiet-Tracks (search quiet)))
        (quiet-Tracks (search quiet depth 12)))
