-- ===== src/ConfigJson/Commit.antt =====
-- platform/config_json.c: what config_json_commit leaves in the folder, with and without success.
use nova_desktop.Base.{
  Bool, true, false, ◌&&◌, not, List, [], ◌∷◌, Option, none, some, if◌then◌else◌, ◌≡◌, refl, ◌⊎◌,
  inl, inr, arith, ◌∙◌, sym, Bool-cases,
}
use nova_desktop.ConfigJson.{
  Bytes, Document, runtime, migration, same_document, Folder, put, is_there, ConfigPublication,
  Answers, prepare_all, publish_all, restore_all, end_commit, publish_prepared, documents_of,
  keep_evidence, commit_snapshots, config_json_commit,
}
use nova_desktop.ConfigJson.Publications.{
  same_document-eq, put_back, put_same, Distinct, FitAll, contents, put_all, put_all-eq, put-FitAll,
  previous_of, restore_all-FitAll, AllPrepared, prepare_all-AllPrepared,
}

module _ (o : Answers) where
  restored :
      (f : Folder) (ps : List ConfigPublication)
      → ((d : Document) → (o.restores d ≡ true) × (o.moves_away d ≡ false))
      → FitAll f ps
      → Distinct (contents ps)
      → (e : Document) → restore_all o (publish_all o ps f).1 (publish_all o ps f).2 e ≡ f e
  unfolding publish_all restore_all
  restored f [] restores fit distinct e = refl
  restored f (p ∷ ps) restores ((unpublished, existed, unchanged), fit) (apart, distinct) e =
      elim (Bool-cases p.changed) [
        | inr kept ↦ rw (kept, unpublished) (restored f ps restores fit distinct e)
        | inl changed ↦ elim (Bool-cases (o.publishes p.document)) [
          | inr refuses ↦
              rw (changed, refuses, (restores p.document).1, unpublished)
                (restore_all-FitAll o f f ps e fit)
          | inl publishes ↦
              rw (changed, publishes, (restores p.document).0)
                (put_back p.document _ f _ (previous_of p.existed (f p.document) existed)
                  (λ e' other.
                    restored (put p.document (some p.json) f) ps restores
                      (put-FitAll p.document p.json f ps apart fit) distinct e'
                    ∙ rw other refl)
                  e)
        ]
      ]

  published :
      (f : Folder) (ps : List ConfigPublication)
      → FitAll f ps
      → Distinct (contents ps)
      → (publish_all o ps f).0 ≡ true
      → (e : Document) → (publish_all o ps f).2 e ≡ put_all (contents ps) f e
  unfolding publish_all
  published f [] fit distinct done e = refl
  published f (p ∷ ps) ((unpublished, existed, unchanged), fit) (apart, distinct) done e =
      elim (Bool-cases p.changed) [
        | inr kept ↦ rw kept (
            published f ps fit distinct (rw kept at done) e
            ∙ put_all-eq (contents ps) f (put p.document (some p.json) f) e
                (sym (put_same p.document p.json f e (unchanged kept))))
        | inl changed ↦ elim (Bool-cases (o.publishes p.document)) [
          | inr refuses ↦ absurd (ground arith)
          | inl publishes ↦
              rw (changed, publishes)
                (published (put p.document (some p.json) f) ps
                  (put-FitAll p.document p.json f ps apart fit) distinct
                  (rw (changed, publishes) at done) e)
        ]
      ]

  -- All documents of the list are written, or the folder is as it was.
  abbrev pub IsWhole : List (Document × Bytes) → Folder → Bool × Folder → Type 0
  IsWhole ds f (ok, g) =
      ((ok ≡ true) × ((e : Document) → g e ≡ put_all ds f e))
      ⊎ ((ok ≡ false) × ((e : Document) → g e ≡ f e))

  end_commit-IsWhole :
      (f : Folder) (ps : List ConfigPublication)
      → ((d : Document) → (o.restores d ≡ true) × (o.moves_away d ≡ false))
      → FitAll f ps
      → Distinct (contents ps)
      → IsWhole (contents ps) f (end_commit o (publish_all o ps f))
  end_commit-IsWhole f ps restores fit distinct =
      elim (Bool-cases ((publish_all o ps f).0 && o.sql_commits)) [
        | inl done ↦ rw done (inl (refl, published f ps fit distinct (ground arith)))
        | inr undone ↦ rw undone (inr (refl, restored f ps restores fit distinct))
      ]

  publish_prepared-IsWhole :
      (f : Folder) (ds : List (Document × Bytes)) (ps : Option (List ConfigPublication))
      → ((d : Document) → (o.restores d ≡ true) × (o.moves_away d ≡ false))
      → AllPrepared o f ds ps
      → Distinct ds
      → IsWhole ds f (publish_prepared o ps f)
  unfolding AllPrepared
  publish_prepared-IsWhole f ds none restores prepared distinct = inr (refl, λ e. refl)
  publish_prepared-IsWhole f ds (some ps) restores (same, fits) distinct =
      rw (← same) (end_commit-IsWhole f ps restores fits (rw same distinct))

  abbrev is_first : Folder → Bool
  is_first f = not (is_there (f runtime)) && not (o.blocked runtime)

  -- The document `e` after a commit that succeeds, with the snapshots that it writes, and after one that does not.
  abbrev pub IsCommitted : Folder → Document → Bool × Folder → Type 0
  IsCommitted f e (ok, g) =
      ((ok ≡ true)
        × ((shared : Bytes) × (local_state : Bytes) × (o.shared_json ≡ some shared)
            × (o.local_json ≡ some local_state)
            × (g e ≡ put_all (documents_of o (is_first f) shared local_state) f e)))
      ⊎ ((ok ≡ false) × (g e ≡ f e))

  documents_of-Distinct :
      (b : Bool) (shared local_state : Bytes) → Distinct (documents_of o b shared local_state)
  documents_of-Distinct true shared local_state =
      ((refl, (refl, (refl, tt))), ((refl, (refl, tt)), ((refl, tt), (tt, tt))))
  documents_of-Distinct false shared local_state = ((refl, tt), (tt, tt))

  keep_evidence-eq :
      (f : Folder) (e : Document)
      → (same_document e migration ≡ false) ⊎ (is_there (f e) ≡ true)
      → keep_evidence o f e ≡ f e
  keep_evidence-eq f e (inl other) = elim (Bool-cases (is_there (f migration))) [
    | inl there ↦ rw there refl
    | inr missing ↦ rw (missing, other) refl
  ]
  keep_evidence-eq f e (inr there) = elim (Bool-cases (is_there (f migration))) [
    | inl kept ↦ rw kept refl
    | inr missing ↦ elim (Bool-cases (same_document e migration)) [
      | inr other ↦ rw (missing, other) refl
      | inl same ↦
          let here : (e ≡ migration) = same_document-eq e migration same in
          let present : (is_there (f e) ≡ is_there (f migration)) = λ i. is_there (f (here i)) in
          absurd (ground arith)
    ]
  ]

  whole-IsCommitted :
      (f base_folder : Folder) (e : Document) (shared local_state : Bytes) (x : Bool × Folder)
      → o.shared_json ≡ some shared
      → o.local_json ≡ some local_state
      → base_folder e ≡ f e
      → IsWhole (documents_of o (is_first f) shared local_state) base_folder x
      → IsCommitted f e x
  whole-IsCommitted f base_folder e shared local_state (ok, g) ss ls same (inl (done, all)) = inl (
    done,
    (
      shared,
      local_state,
      ss,
      ls,
      all e ∙ put_all-eq (documents_of o (is_first f) shared local_state) base_folder f e same,
    ),
  )
  whole-IsCommitted f base_folder e shared local_state (ok, g) ss ls same (inr (undone, all)) =
      inr (undone, all e ∙ same)

  unless-IsCommitted :
      (b : Bool) (f : Folder) (e : Document) (x : Bool × Folder)
      → IsCommitted f e x
      → IsCommitted f e (if b then (false, f) else x)
  unless-IsCommitted true f e x committed = inr (refl, refl)
  unless-IsCommitted false f e x committed = committed

  first_evidence-eq :
      (b : Bool) (f : Folder) (e : Document)
      → (same_document e migration ≡ false) ⊎ (is_there (f e) ≡ true)
      → (if b then keep_evidence o f else f) e ≡ f e
  first_evidence-eq true f e known = keep_evidence-eq f e known
  first_evidence-eq false f e known = refl

  commit_snapshots-IsCommitted :
      (f : Folder) (e : Document) (x y : Option Bytes)
      → ((d : Document) → (o.restores d ≡ true) × (o.moves_away d ≡ false))
      → (same_document e migration ≡ false) ⊎ (is_there (f e) ≡ true)
      → o.shared_json ≡ x
      → o.local_json ≡ y
      → IsCommitted f e (commit_snapshots o x y f)
  unfolding config_json_commit
  commit_snapshots-IsCommitted f e none y restores known ss ls = inr (refl, refl)
  commit_snapshots-IsCommitted f e (some shared) none restores known ss ls = inr (refl, refl)
  commit_snapshots-IsCommitted f e (some shared) (some local_state) restores known ss ls =
      let f' : Folder = if is_first f then keep_evidence o f else f in
      let ds : List (Document × Bytes) = documents_of o (is_first f) shared local_state in
      unless-IsCommitted (is_first f && o.copy_fails) f e
        (publish_prepared o (prepare_all o f' ds) f')
        (whole-IsCommitted f f' e shared local_state _ ss ls
          (first_evidence-eq (is_first f) f e known)
          (publish_prepared-IsWhole f' ds (prepare_all o f' ds) restores
            (prepare_all-AllPrepared o f' ds)
            (documents_of-Distinct (is_first f) shared local_state)))

  -- Where every document that was published can be restored, and no replacement that fails has moved its file away,
  -- config_json_commit changes all of its documents or none: with TRUE the local and the shared snapshot, and on the first
  -- launch the baseline and the seed, have replaced what was there and every other document is unchanged; with FALSE
  -- every document is as it was. This holds for each document but the evidence of the migration while there is
  -- none, so evidence that is there is never replaced.
  pub config_json_commit_lem :
      (f : Folder) (e : Document)
      → ((d : Document) → (o.restores d ≡ true) × (o.moves_away d ≡ false))
      → (same_document e migration ≡ false) ⊎ (is_there (f e) ≡ true)
      → IsCommitted f e (config_json_commit o f)
  unfolding config_json_commit
  config_json_commit_lem f e restores known =
      commit_snapshots-IsCommitted f e o.shared_json o.local_json restores known refl refl
