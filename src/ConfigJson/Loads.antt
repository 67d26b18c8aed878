-- ===== src/ConfigJson/Loads.antt =====
-- platform/config_json.c: what config_json_load brings into the database, and that it reads what was committed.
use nova_desktop.Base.{
  Bool, true, false, ◌&&◌, ◌||◌, not, [], ◌∷◌, Option, none, some, ltb, ◌==◌, if◌then◌else◌, length,
  take, ◌≡◌, refl, ◌⊎◌, inl, inr, arith, ◌∙◌, sym, Bool-cases,
}
use nova_desktop.Text.{text_eq, c_str}
use nova_desktop.ConfigJson.{
  Bytes, Document, runtime, base, nova, Folder, is_there, Answers, config_json_commit, documents_of,
}
use nova_desktop.ConfigJson.Publications.{put_all}
use nova_desktop.ConfigJson.Commit.{config_json_commit_lem, IsCommitted}
use nova_desktop.ConfigJson.Loading.{
  Sql, Reads, Found, absent, broken, found, json_limit, without_bom, Loaded, import_json, checked,
  content_of, read_document, loaded, load_json, load_found, load_runtime, config_json_load,
}

missing : (content : Option Bytes) (b : Bool) → false ≡ (is_there content || b) → content ≡ none
missing none b h = refl
missing (some json) b h = absurd (ground arith)

module _ {D : Type 0} (q : Sql D) where
  -- A document that read_document accepts as it is.
  abbrev pub IsDocument : Bytes → Type 0
  IsDocument json =
      ((length json == 0 || ltb json_limit (length json)) ≡ false)
      × (text_eq (take 3 json) (239 ∷ 187 ∷ 191 ∷ []) ≡ false)
      × ((q.converts json && length (c_str json) == length json && q.valid_json json) ≡ true)

  read_document-IsDocument :
      (r : Reads) (folder : Folder) (name : Document) (json : Bytes)
      → folder name ≡ some json
      → IsDocument json
      → r.blocked name ≡ false
      → r.reads name ≡ true
      → read_document q r folder name ≡ found json
  unfolding read_document
  read_document-IsDocument r folder name json here (sized, plain, valid) free whole =
      rw (free, here, whole, sized, plain, valid) refl

  runtime_written :
      (o : Answers) (first : Bool) (shared local_state : Bytes) (f : Folder)
      → put_all (documents_of o first shared local_state) f runtime ≡ some shared
  runtime_written o true shared local_state f = refl
  runtime_written o false shared local_state f = refl

  committed_runtime :
      (o : Answers) (f : Folder) (json : Bytes) (x : Bool × Folder)
      → o.shared_json ≡ some json
      → x.0 ≡ true
      → IsCommitted o f runtime x
      → x.1 runtime ≡ some json
  committed_runtime o f json (ok, g) same done (inr (undone, kept)) = absurd (ground arith)
  committed_runtime o f json (ok, g) same done
        (inl (done', (shared, local_state, ss, ls, written))) =
      written ∙ runtime_written o _ shared local_state f ∙ sym ss ∙ same

  -- The text of a document that is there, and valid.
  abbrev pub IsRead : Folder → Document → Bytes → Type 0
  IsRead folder name json =
      ((content : Bytes) × (folder name ≡ some content) × (json ≡ without_bom content))
      × (q.valid_json json ≡ true)

  unfoldable IsFound : Folder → Document → Found → Type 0
  IsFound folder name absent = folder name ≡ none
  IsFound folder name broken = Unit
  IsFound folder name (found json) = IsRead folder name json

  checked-IsFound :
      (folder : Folder) (name : Document) (content : Bytes)
      → folder name ≡ some content
      → IsFound folder name (checked q (without_bom content))
  unfolding IsFound
  checked-IsFound folder name content here =
      let json : Bytes = without_bom content in
      elim (Bool-cases
        (q.converts json && length (c_str json) == length json && q.valid_json json)) [
          | inl sound ↦ rw sound ((content, here, refl), ground arith)
          | inr unsound ↦ rw unsound tt
        ]

  content_of-IsFound :
      (reads : Bool) (folder : Folder) (name : Document) (content : Option Bytes)
      → folder name ≡ content
      → IsFound folder name (content_of q reads content)
  unfolding IsFound
  content_of-IsFound reads folder name none here = here
  content_of-IsFound reads folder name (some content) here =
      elim (Bool-cases (length content == 0 || ltb json_limit (length content) || not reads)) [
        | inl refused ↦ rw refused tt
        | inr taken ↦ rw taken (checked-IsFound folder name content here)
      ]

  read_document-IsFound :
      (r : Reads) (folder : Folder) (name : Document)
      → IsFound folder name (read_document q r folder name)
  unfolding read_document IsFound
  read_document-IsFound r folder name = elim (Bool-cases (r.blocked name)) [
    | inl blocked ↦ rw blocked tt
    | inr free ↦ rw free (content_of-IsFound (r.reads name) folder name (folder name) refl)
  ]

  -- The document is that of runtime.json or, where there is neither this nor a baseline, that of nova.json.
  abbrev pub IsSource : Folder → Bytes → Type 0
  IsSource folder json =
      IsRead folder runtime json
      ⊎ ((folder runtime ≡ none) × (folder base ≡ none) × IsRead folder nova json)

  -- The result of a load into `d`: it fails and leaves the database; or it succeeds and leaves the database, with nothing
  -- that says it was initialized; or the whole of one document is imported.
  abbrev pub IsSafe : Folder → D → Loaded D → Type 0
  IsSafe folder d x =
      ((x.ok ≡ false) × (x.db ≡ d))
      ⊎ ((x.ok ≡ true)
          × (x.initialized ≡ false)
          × (x.db ≡ d)
          × (folder runtime ≡ none)
          × (folder base ≡ none))
      ⊎ ((x.ok ≡ true)
          × ((json : Bytes) × IsSource folder json
              × (q.initialized json ≡ some true)
              × (import_json q json d ≡ some x.db)))

  load_json-IsSafe :
      (folder : Folder) (migrate : Bool) (json : Bytes) (d : D) (initialized : Option Bool)
      → IsSource folder json
      → (migrate ≡ false) ⊎ ((folder runtime ≡ none) × (folder base ≡ none))
      → q.initialized json ≡ initialized
      → IsSafe folder d (load_json q migrate json d initialized)
  load_json-IsSafe folder migrate json d none source migrates same = inl (refl, refl)
  load_json-IsSafe folder migrate json d (some true) source migrates same =
      imported (import_json q json d) refl
    where
      imported :
          (x : Option D) → import_json q json d ≡ x → IsSafe folder d (loaded q true migrate d x)
      imported none e = inl (refl, refl)
      imported (some d') e = inr (inr (refl, (json, source, same, e)))
  load_json-IsSafe folder true json d (some false) source (inl no_migration) same =
      absurd (ground arith)
  load_json-IsSafe folder true json d (some false) source (inr (no_runtime, no_base)) same =
      inr (inl (refl, refl, refl, no_runtime, no_base))
  load_json-IsSafe folder false json d (some false) source migrates same = inl (refl, refl)

  load_migration-IsSafe :
      (r : Reads) (folder : Folder) (d : D) (x : Found) (there : Bool)
      → folder runtime ≡ none
      → there ≡ (is_there (folder base) || r.blocked base)
      → IsFound folder nova x
      → IsSafe folder d (if there then loaded q false false d none else load_found q true d x)
  unfolding IsFound
  load_migration-IsSafe r folder d x true no_runtime same read = inl (refl, refl)
  load_migration-IsSafe r folder d absent false no_runtime same read =
      inr (inl (refl, refl, refl, no_runtime, missing (folder base) (r.blocked base) same))
  load_migration-IsSafe r folder d broken false no_runtime same read = inl (refl, refl)
  load_migration-IsSafe r folder d (found json) false no_runtime same read =
      let no_base : (folder base ≡ none) = missing (folder base) (r.blocked base) same in
      load_json-IsSafe folder true json d (q.initialized json) (inr (no_runtime, no_base, read))
        (inr (no_runtime, no_base)) refl

  load_runtime-IsSafe :
      (r : Reads) (folder : Folder) (d : D) (x : Found)
      → IsFound folder runtime x
      → IsSafe folder d (load_runtime q r folder d x)
  unfolding IsFound
  load_runtime-IsSafe r folder d absent read =
      load_migration-IsSafe r folder d (read_document q r folder nova)
        (is_there (folder base) || r.blocked base) read refl (read_document-IsFound r folder nova)
  load_runtime-IsSafe r folder d broken read = inl (refl, refl)
  load_runtime-IsSafe r folder d (found json) read =
      load_json-IsSafe folder false json d (q.initialized json) (inl read) (inl refl) refl

  -- config_json_load fails and leaves the database as it was; or it leaves it where there is neither runtime.json nor the
  -- baseline; or it brings in the whole of one initialized and valid document, that of runtime.json or, without it and
  -- the baseline, that of nova.json. So a runtime.json that was deleted beside its baseline is never replaced by an old one.
  pub config_json_load_lem :
      (r : Reads) (folder : Folder) (d : D) → IsSafe folder d (config_json_load q r folder d)
  unfolding config_json_load
  config_json_load_lem r folder d =
      load_runtime-IsSafe r folder d (read_document q r folder runtime)
        (read_document-IsFound r folder runtime)

  -- After a commit that succeeds, config_json_load imports exactly the shared snapshot and asks for no migration, where
  -- runtime.json can be read, the snapshot is an initialized document, published documents can be restored, and no
  -- replacement that fails has moved its file away.
  pub config_json_load-config_json_commit :
      (o : Answers) (r : Reads) (f : Folder) (d : D) (json : Bytes)
      → ((e : Document) → (o.restores e ≡ true) × (o.moves_away e ≡ false))
      → o.shared_json ≡ some json
      → (config_json_commit o f).0 ≡ true
      → IsDocument json
      → q.initialized json ≡ some true
      → r.blocked runtime ≡ false
      → r.reads runtime ≡ true
      → config_json_load q r (config_json_commit o f).1 d
        ≡ loaded q true false d (import_json q json d)
  unfolding config_json_load
  config_json_load-config_json_commit o r f d json restores same done sound initialized free whole =
      rw
        (
          read_document-IsDocument r (config_json_commit o f).1 runtime json
              (committed_runtime o f json (config_json_commit o f) same done
                (config_json_commit_lem o f runtime restores (inl refl)))
              sound free whole,
          initialized,
        )
        refl
