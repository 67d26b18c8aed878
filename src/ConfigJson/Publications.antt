-- ===== src/ConfigJson/Publications.antt =====
-- platform/config_json.c: the documents of the folder, and the publications that are prepared for them.
use nova_desktop.Base.{
  ℕ, Bool, true, false, List, [], ◌∷◌, Option, none, some, ◌==◌, if◌then◌else◌, ◌≡◌, refl, inl, inr,
  arith, ◌∙◌, sym, Bool-cases,
}
use nova_desktop.Text.{text_eq_iff}
use nova_desktop.ConfigJson.{
  Bytes, Document, local, runtime, base, seed, nova, migration, runtime_backup, local_backup,
  same_document, number_of, Folder, put, is_there, ConfigPublication, Answers, same_content,
  with_temp, prepare_publication, add_prepared, prepare_all, restore_all,
}

abbrev document_at : ℕ → Document
document_at n =
    if n == 0
    then local
    else if n == 1
    then runtime
    else if n == 2
    then base
    else if n == 3
    then seed
    else if n == 4
    then nova
    else if n == 5
    then migration
    else if n == 6
    then runtime_backup
    else local_backup

document_at-number_of : (d : Document) → document_at (number_of d) ≡ d
document_at-number_of local = refl
document_at-number_of runtime = refl
document_at-number_of base = refl
document_at-number_of seed = refl
document_at-number_of nova = refl
document_at-number_of migration = refl
document_at-number_of runtime_backup = refl
document_at-number_of local_backup = refl

documents_eq : (d e : Document) → number_of d ≡ number_of e → d ≡ e
documents_eq d e same =
    sym (document_at-number_of d) ∙ (λ i. document_at (same i)) ∙ document_at-number_of e

pub same_document-eq : (d e : Document) → same_document d e ≡ true → d ≡ e
same_document-eq d e h = documents_eq d e (ground arith)

pub put_back :
    (d : Document) (content : Option Bytes) (f g : Folder)
    → content ≡ f d
    → ((e : Document) → same_document e d ≡ false → g e ≡ f e)
    → (e : Document) → put d content g e ≡ f e
put_back d content f g same others e = elim (Bool-cases (same_document e d)) [
  | inl here ↦ rw here (same ∙ (λ i. f (sym (same_document-eq e d here) i)))
  | inr there ↦ rw there (others e there)
]

-- The documents of a list are apart from `d`, and from each other.
abbrev Apart : Document → List (Document × Bytes) → Type 0
Apart d [] = Unit {0}
Apart d ((e, json) ∷ rest) = (same_document e d ≡ false) × Apart d rest

abbrev pub Distinct : List (Document × Bytes) → Type 0
Distinct [] = Unit {0}
Distinct ((d, json) ∷ rest) = Apart d rest × Distinct rest

-- A publication that is prepared for the folder.
abbrev pub Fits : Folder → ConfigPublication → Type 0
Fits f p =
    (p.published ≡ false)
    × (p.existed ≡ is_there (f p.document))
    × (p.changed ≡ false → f p.document ≡ some p.json)

abbrev pub FitAll : Folder → List ConfigPublication → Type 0
FitAll f [] = Unit {0}
FitAll f (p ∷ ps) = Fits f p × FitAll f ps

abbrev pub contents : List ConfigPublication → List (Document × Bytes)
contents [] = []
contents (p ∷ ps) = (p.document, p.json) ∷ contents ps

-- Every document of the list with its content, and the rest of the folder.
abbrev pub put_all : List (Document × Bytes) → Folder → Folder
put_all [] f = f
put_all ((d, json) ∷ rest) f = put_all rest (put d (some json) f)

pub put_all-eq :
    (ds : List (Document × Bytes)) (f g : Folder) (e : Document)
    → f e ≡ g e
    → put_all ds f e ≡ put_all ds g e
put_all-eq [] f g e same = same
put_all-eq ((d, json) ∷ rest) f g e same =
    put_all-eq rest (put d (some json) f) (put d (some json) g) e
      (elim (Bool-cases (same_document e d)) [
        | inl here ↦ rw here refl
        | inr there ↦ rw there same
      ])

pub put-FitAll :
    (d : Document) (json : Bytes) (f : Folder) (ps : List ConfigPublication)
    → Apart d (contents ps)
    → FitAll f ps
    → FitAll (put d (some json) f) ps
put-FitAll d json f [] apart fit = tt
put-FitAll d json f (p ∷ ps) (other, apart) ((unpublished, existed, unchanged), fit) =
    ((unpublished, rw other existed, rw other unchanged), put-FitAll d json f ps apart fit)

pub previous_of :
    (existed : Bool) (content : Option Bytes)
    → existed ≡ is_there content
    → (if existed then if existed then content else none else none) ≡ content
previous_of true content same = refl
previous_of false none same = refl
previous_of false (some bytes) same = absurd (ground arith)

pub put_same :
    (d : Document) (json : Bytes) (f : Folder) (e : Document)
    → f d ≡ some json
    → put d (some json) f e ≡ f e
put_same d json f e here = put_back d (some json) f f (sym here) (λ e' other. refl) e

module _ (o : Answers) where
  pub restore_all-FitAll :
      (f g : Folder) (ps : List ConfigPublication) (e : Document)
      → FitAll f ps
      → restore_all o ps g e ≡ g e
  unfolding restore_all
  restore_all-FitAll f g [] e fit = refl
  restore_all-FitAll f g (p ∷ ps) e ((unpublished, existed, unchanged), fit) =
      rw unpublished (restore_all-FitAll f g ps e fit)

  same_content-eq :
      (b : Bool) (content : Option Bytes) (json : Bytes)
      → same_content b content json ≡ true
      → content ≡ some json
  same_content-eq b none json h = absurd (ground arith)
  same_content-eq b (some bytes) json h =
      let same : (bytes ≡ json) = (text_eq_iff bytes json).0 (ground arith) in λ i. some (same i)

  unfoldable IsPrepared : Folder → Document → Bytes → Option ConfigPublication → Type 0
  IsPrepared f d json none = Unit
  IsPrepared f d json (some p) = ((p.document ≡ d) × (p.json ≡ json)) × Fits f p

  with_temp-IsPrepared :
      (f : Folder) (d : Document) (json : Bytes)
      → IsPrepared f d json (with_temp o d json (is_there (f d)))
  unfolding IsPrepared
  with_temp-IsPrepared f d json = elim (Bool-cases (o.writes_temp d)) [
    | inr no_file ↦ rw no_file tt
    | inl written ↦ rw written ((refl, refl), (refl, refl, λ h. absurd (ground arith)))
  ]

  prepare_publication-IsPrepared :
      (f : Folder) (d : Document) (json : Bytes)
      → IsPrepared f d json (prepare_publication o f d json)
  unfolding IsPrepared prepare_publication
  prepare_publication-IsPrepared f d json = elim (Bool-cases (o.blocked d)) [
    | inl blocked ↦ rw blocked tt
    | inr free ↦ elim (Bool-cases (same_content (o.compares d) (f d) json)) [
      | inr differs ↦ rw (free, differs) (with_temp-IsPrepared f d json)
      | inl same ↦
          let there : (f d ≡ some json) = same_content-eq (o.compares d) (f d) json same in
          rw (free, same) ((refl, refl), (refl, sym (λ i. is_there (there i)), λ h. there))
    ]
  ]

  unfoldable pub AllPrepared :
      Folder → List (Document × Bytes) → Option (List ConfigPublication) → Type 0
  AllPrepared f ds none = Unit
  AllPrepared f ds (some ps) = (contents ps ≡ ds) × FitAll f ps

  add_prepared-AllPrepared :
      (f : Folder) (d : Document) (json : Bytes) (ds : List (Document × Bytes))
      (x : Option ConfigPublication) (y : Option (List ConfigPublication))
      → IsPrepared f d json x
      → AllPrepared f ds y
      → AllPrepared f ((d, json) ∷ ds) (add_prepared o x y)
  unfolding IsPrepared AllPrepared
  add_prepared-AllPrepared f d json ds none y first rest = tt
  add_prepared-AllPrepared f d json ds (some p) none first rest = tt
  add_prepared-AllPrepared f d json ds (some p) (some ps) ((name, text), fit) (same, fits) =
      ((λ i. (name i, text i) ∷ same i), (fit, fits))

  pub prepare_all-AllPrepared :
      (f : Folder) (ds : List (Document × Bytes)) → AllPrepared f ds (prepare_all o f ds)
  unfolding AllPrepared prepare_all
  prepare_all-AllPrepared f [] = (refl, tt)
  prepare_all-AllPrepared f ((d, json) ∷ ds) =
      add_prepared-AllPrepared f d json ds _ _ (prepare_publication-IsPrepared f d json)
        (prepare_all-AllPrepared f ds)
