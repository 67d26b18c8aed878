-- ===== src/SyncStore/Import/Checks.antt =====
-- What sync_settings_import of platform/sync_settings.c hands out.
use nova_desktop.Base.{
  ℕ, zero, suc, ◌+◌, ◌-◌, ◌≡◌, refl, ap, Bool, true, false, List, [], ◌∷◌, ◌++◌, Option, some,
  arith, ◌>>=◌, >>=-eq-some, guard, guard-eq-some, Option-cases, inl, inr, ◌⊎◌, length, All, take,
  take-append_exact, replicate, pos, subst,
}
use nova_desktop.SyncModel.{SyncPair, SyncSettings, sync_settings_valid, zeroed, pair_limit}
use nova_desktop.SyncStore.{pairs_of, settings_of}
use nova_desktop.SyncStore.Import.{
  Bytes, Queries, Found, import_pair, import_pairs, import_next, import_document,
  sync_settings_import, import_header, json_of, accepted_settings,
}

-- A pair is paused.
abbrev pub IsPaused : SyncPair → Type 0
IsPaused p = p.paused ≡ true

module _ (q : Queries) (json : Bytes) where
  import_pair-IsPaused : (i : ℕ) (p : SyncPair) → import_pair q json i ≡ some p → IsPaused p
  unfolding import_pair
  import_pair-IsPaused i p e = ground arith

  import_pairs_lem :
      (i n : ℕ) (ps : List SyncPair)
      → import_pairs q json i n ≡ some ps
      → All IsPaused ps × (length ps ≡ n)
  unfolding import_pairs
  import_pairs_lem i zero ps e = let nil : [] ≡ ps = cc in rw (← nil) (tt, refl)
  import_pairs_lem i (suc n) ps e =
      let (p, first_made, e1) = >>=-eq-some (import_pair q json i) _ e in
      let (rest, rest_made, e2) = >>=-eq-some (import_pairs q json (i + 1) n) _ e1 in
      let (paused, long) = import_pairs_lem (i + 1) n rest rest_made in
      let made : p ∷ rest ≡ ps = cc in
      rw (← made) ((import_pair-IsPaused i p first_made, paused), ap suc long)

  next_lem : (next : SyncSettings) → import_next q json ≡ some next → All IsPaused (pairs_of next)
  unfolding import_next
  next_lem next e =
      let ((count, header), m1, e1) = >>=-eq-some (import_header q json) _ e in
      let (pairs, made, e2) = >>=-eq-some (import_pairs q json 0 count) _ e1 in
      let (paused, long) = import_pairs_lem 0 count pairs made in
      let same : settings_of (record header { count = pos count }) count pairs ≡ next = cc in
      rw (← same) (
        subst (λ n. All IsPaused (take n (pairs ++ replicate (pair_limit - count) zeroed))) long
          (rw (take-append_exact pairs (replicate (pair_limit - count) zeroed)) paused))

accept_lem :
    (towlower : ℕ → ℕ) (q : Queries) (json : Bytes) (next : SyncSettings)
    → accepted_settings towlower (import_next q json) ≡ some next
    → (sync_settings_valid towlower next ≡ true) × All IsPaused (pairs_of next)
accept_lem towlower q json next e =
    let (c, m5, e5) = >>=-eq-some (import_next q json) _ e in
    let (u6, m6, e6) = >>=-eq-some (guard (sync_settings_valid towlower c)) _ e5 in
    let same : c ≡ next = cc in
    rw (← same) (guard-eq-some (sync_settings_valid towlower c) m6, next_lem q json c m5)

document_lem :
    (towlower : ℕ → ℕ) (is_utf8 : Bytes → Bool) (q : Queries) (opens : Bool) (file : Found)
    (next : SyncSettings)
    → import_document towlower is_utf8 q opens file ≡ some next
    → (sync_settings_valid towlower next ≡ true) × All IsPaused (pairs_of next)
unfolding import_document
document_lem towlower is_utf8 q opens file next e =
    let (json, m1, e1) = >>=-eq-some (json_of is_utf8 file) _ e in
    let (u4, m4, e4) = >>=-eq-some (guard opens) _ e1 in accept_lem towlower q json next e4

-- Where the import fails, the out argument is as before. Where it succeeds the settings are valid, and
-- every pair is paused, whatever the file and SQLite's JSON functions say.
pub sync_settings_import_lem :
    (towlower : ℕ → ℕ) (is_utf8 : Bytes → Bool) (q : Queries) (opens : Bool) (file : Option Found)
    (out : SyncSettings)
    → let (ok, next) = sync_settings_import towlower is_utf8 q opens file out in
      ((ok ≡ false) × (next ≡ out))
      ⊎ ((ok ≡ true) × (sync_settings_valid towlower next ≡ true) × All IsPaused (pairs_of next))
unfolding sync_settings_import
sync_settings_import_lem towlower is_utf8 q opens file out =
    elim (Option-cases (file >>= import_document towlower is_utf8 q opens)) [
      | inl refused ↦ rw refused (inl (refl, refl))
      | inr (next, e) ↦ rw e (inr (refl, (found next e).0, (found next e).1))
    ]
  where
    found :
        (next : SyncSettings)
        → (file >>= import_document towlower is_utf8 q opens) ≡ some next
        → (sync_settings_valid towlower next ≡ true) × All IsPaused (pairs_of next)
    found next e =
        let (f, m0, e0) = >>=-eq-some file (import_document towlower is_utf8 q opens) e in
        document_lem towlower is_utf8 q opens f next e0
