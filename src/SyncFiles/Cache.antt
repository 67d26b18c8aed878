-- ===== src/SyncFiles/Cache.antt =====
-- platform/sync_files.c: the cache of chunks and the statements on the index, whose failures go to the run. What SHA-256,
-- the file calls of Windows and SQLite answer are parameters.
use nova_desktop.Base.{
  ℕ, Bool, true, false, ◌&&◌, List, [], ◌∷◌, ◌++◌, Option, none, some, leb, ◌==◌, if◌then◌else◌,
  length, refl, arith, inl,
}
use nova_desktop.Text.{Text, codes, text_eq}
use nova_desktop.SyncModel.{sync_path_cap}
use nova_desktop.SyncWire.{Run, M, SyncFailure, cache, path, storage, sy_fail}
use nova_desktop.SyncWire.Failures.{Ends, sy_fail-Blames}
use nova_desktop.SyncFiles.{
  Bytes, Files, Attributes, Digest, Round, Hashed, sy_join, sync_hash_file, set_path,
}

-- What a call of sy_cache finds outside: the functions of OpenSSL for a file, and SHA-256 of bytes in the 64 characters of a name, and the calls on the
-- files; `suffix` are the 8 digits of the nonce.
pub record Surroundings (D : Type 0) : Type 0 where
  pub last_error : ℕ
  pub evp : Digest D
  pub sha : Bytes → Option Text
  pub wide : Text → Option Text
  pub opens : Bool
  pub rounds : List Round
  pub suffix : Text
  pub creates : Bool
  pub written : Option ℕ
  pub flushes : Bool
  pub moves : Bool
  -- what is known of the file that was moved in place
  pub moved : Attributes

abbrev is_written : Option ℕ → ℕ → Bool
is_written none size = false
is_written (some n) size = n == size

abbrev is_same : Option Hashed → ℕ → Text → Bool
is_same none size hash = false
is_same (some h) size hash = h.size == size && text_eq h.out hash

module _ {D : Type 0} (o : Surroundings D) where
  abbrev fail : SyncFailure → Files → Run → (Option Text × Run) × Files
  fail code files r = (sy_fail o.last_error code r, files)

  -- A new file, written under another name and moved in place.
  abbrev stored : Text → Text → Bytes → Files → Run → (Option Text × Run) × Files
  stored hash target bytes files r =
      if leb sync_path_cap (length (target ++ codes "." ++ o.suffix ++ codes ".tmp"))
      then fail path files r
      else if o.creates && is_written o.written (length bytes) && o.flushes && o.moves
      then ((some hash, r), set_path target (some o.moved) files)
      else fail cache files r

  -- A file that is there must have the content.
  abbrev found_or_stored :
      Text → Text → Bytes → Option Attributes → Files → Run → (Option Text × Run) × Files
  found_or_stored hash target bytes none files r = stored hash target bytes files r
  found_or_stored hash target bytes (some a) files r =
      if is_same (sync_hash_file o.evp o.opens o.rounds files target) (length bytes) hash
      then ((some hash, r), files)
      else fail cache files r

  abbrev joined : Text → Option Text → Option Text
  joined folder none = none
  joined folder (some name) = sy_join folder name

  abbrev under : Text → Bytes → Option Text → Files → Run → (Option Text × Run) × Files
  under hash bytes none files r = fail path files r
  under hash bytes (some target) files r = found_or_stored hash target bytes (files target) files r

  abbrev named : Text → Bytes → Option Text → Files → Run → (Option Text × Run) × Files
  named folder bytes none files r = fail cache files r
  named folder bytes (some hash) files r = under hash bytes (joined folder (o.wide hash)) files r

  -- The hash of the bytes where they are in the cache, the folder `folder`.
  unfoldable pub sy_cache : Text → Bytes → Files → Run → (Option Text × Run) × Files
  unfolding sy_fail sy_join sync_hash_file
  sy_cache folder bytes files r = named folder bytes (o.sha bytes) files r

  if-Ends :
      (b : Bool) (r : Run) (x y : (Option Text × Run) × Files)
      → Ends r x.0
      → Ends r y.0
      → Ends r (if b then x else y).0
  if-Ends true r x y h k = h
  if-Ends false r x y h k = k

  found-Ends : (hash : Text) (r : Run) → Ends r (some hash, r)
  found-Ends hash r = (λ h. ground arith, λ h. inl refl)

  stored-Ends :
      (hash target : Text) (bytes : Bytes) (files : Files) (r : Run)
      → Ends r (stored hash target bytes files r).0
  stored-Ends hash target bytes files r =
      if-Ends (leb sync_path_cap (length (target ++ codes "." ++ o.suffix ++ codes ".tmp"))) r
        (fail path files r)
        (if o.creates && is_written o.written (length bytes) && o.flushes && o.moves
          then ((some hash, r), set_path target (some o.moved) files)
          else fail cache files r)
        (sy_fail-Blames o.last_error path refl r)
        (if-Ends (o.creates && is_written o.written (length bytes) && o.flushes && o.moves) r
          ((some hash, r), set_path target (some o.moved) files) (fail cache files r)
          (found-Ends hash r) (sy_fail-Blames o.last_error cache refl r))

  found_or_stored-Ends :
      (hash target : Text) (bytes : Bytes) (a : Option Attributes) (files : Files) (r : Run)
      → Ends r (found_or_stored hash target bytes a files r).0
  found_or_stored-Ends hash target bytes none files r = stored-Ends hash target bytes files r
  found_or_stored-Ends hash target bytes (some a) files r =
      if-Ends (is_same (sync_hash_file o.evp o.opens o.rounds files target) (length bytes) hash) r
        ((some hash, r), files) (fail cache files r) (found-Ends hash r)
        (sy_fail-Blames o.last_error cache refl r)

  under-Ends :
      (hash : Text) (bytes : Bytes) (target : Option Text) (files : Files) (r : Run)
      → Ends r (under hash bytes target files r).0
  under-Ends hash bytes none files r = sy_fail-Blames o.last_error path refl r
  under-Ends hash bytes (some target) files r =
      found_or_stored-Ends hash target bytes (files target) files r

  named-Ends :
      (folder : Text) (bytes : Bytes) (hash : Option Text) (files : Files) (r : Run)
      → Ends r (named folder bytes hash files r).0
  named-Ends folder bytes none files r = sy_fail-Blames o.last_error cache refl r
  named-Ends folder bytes (some hash) files r =
      under-Ends hash bytes (joined folder (o.wide hash)) files r

  -- A chunk that cannot be cached leaves a failure in the run, and an earlier failure stays.
  sy_cache-Ends :
      (folder : Text) (bytes : Bytes) (files : Files) (r : Run)
      → Ends r (sy_cache folder bytes files r).0
  unfolding sy_cache
  sy_cache-Ends folder bytes files r = named-Ends folder bytes (o.sha bytes) files r

-- sqlite3_exec is SQLITE_OK.
unfoldable pub sy_exec : ℕ → Bool → M (Unit {0})
unfolding sy_fail
sy_exec last_error ok r = if ok then (some tt, r) else sy_fail last_error storage r

abbrev all_bound : List Bool → Bool
all_bound [] = true
all_bound (b ∷ bs) = if b then all_bound bs else false

-- The answers of the preparation, of the binding of each value and of the step.
unfoldable pub sy_statement : ℕ → Bool → List Bool → Bool → M (Unit {0})
unfolding sy_fail
sy_statement last_error prepared bound is_done r =
    if prepared && all_bound bound && is_done then (some tt, r) else sy_fail last_error storage r

-- The step of a query: a row with a text in its first column, another row, none, or an error.
pub data Step : Type 0 where
  text_row : Text → Step
  other_row no_row step_error : Step

abbrev stepped : ℕ → Step → Run → Option Text × Run
stepped last_error (text_row t) r = (some t, r)
stepped last_error other_row r = (none, r)
stepped last_error no_row r = (none, r)
stepped last_error step_error r = sy_fail last_error storage r

unfoldable pub sy_query : ℕ → Bool → Step → M Text
unfolding sy_fail
sy_query last_error prepared step r =
    if prepared then stepped last_error step r else sy_fail last_error storage r
