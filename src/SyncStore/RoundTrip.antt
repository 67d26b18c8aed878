-- ===== src/SyncStore/RoundTrip.antt =====
-- sync_settings_load of platform/sync_settings.c behind sync_settings_save.
use nova_desktop.Base.{
  ℕ, ◌+◌, ◌-◌, ◌≤◌, ◌<◌, ◌≡◌, refl, ap, ◌∙◌, Bool, true, false, not, List, [], none, some, arith,
  ◌==◌, if◌then◌else◌, ℤ, pos, negsuc, length, get_elem?, map, count_in, length-take, length-map,
  get_elem?-map-some, subst, checked-get_elem?,
}
use nova_desktop.Text.{
  Text, IsText, c_str, codes, text_eq, first, bounded, length-c_str, c_str-IsText,
}
use nova_desktop.Decimal.{to_decimal, print_digits, length-to_decimal, long_long_max}
use nova_desktop.Decimal.Signed.{
  print_int, wcsto-to_decimal, to_decimal-first, to_decimal-IsText, long_max,
}
use nova_desktop.SyncModel.{
  SyncPair, SyncSettings, pair_limit, id_cap, sync_name_cap, sync_path_cap, filter_cap, pair_valid,
  same_pair, sync_settings_valid, sync_identifier, count_of, identifier_or_empty, remote_ok, within,
  device_limit,
}
use nova_desktop.SyncModel.Pairs.{facts}
use nova_desktop.Storage.Table.{Row, find}
use nova_desktop.Storage.{Store, numbered, read_loop, get_text, store_int, flag}
use nova_desktop.Storage.Entries.{find-header, find-section, value_of}
use nova_desktop.Storage.Reads.{calm, get_text_found, store_int_found, read_loop_found}
use nova_desktop.SyncStore.{
  scope, manager, read_value, whole_number, load_pair, load_header, header_entries, pair_entries,
  pairs_of, load_version_1, load_version, sync_settings_load, sync_settings_save,
}
use nova_desktop.SyncStore.Saves.{settings_put, sync_settings_save_lem}
use nova_desktop.SyncStore.Refilled.{
  refilled, refilled_pair, header_of, header_parts, refilled-IsValid,
}

apart : (j : ℕ) → text_eq manager (numbered (codes "Pair") j) ≡ false
unfolding text_eq
apart j = refl

-- A flag as it is stored.
abbrev bit : Bool → ℕ
bit true = 1
bit false = 0

print_int-flag : (b : Bool) → print_int (if b then pos 1 else pos 0) ≡ to_decimal (bit b)
unfolding print_int
print_int-flag true = refl
print_int-flag false = refl

flag-bit : (b : Bool) → flag (pos (bit b)) ≡ some b
flag-bit true = refl
flag-bit false = refl

bit_le : (b : Bool) → bit b ≤ 1
bit_le true = omega arith
bit_le false = omega arith

module _ (s : Store) (section key : Text) where
  read_value_found :
      (v : Text) (capacity : ℕ)
      → IsText v
      → length v < capacity
      → first v == 0 ≡ false
      → find (record { scope = scope; section = section; name = key }) s.rows ≡ some v
      → read_value section key capacity (calm s) ≡ (some v, calm s)
  unfolding read_value
  read_value_found v capacity h l f e =
      rw (get_text_found s scope section key [] v capacity h l e, f) refl

whole_number-to_decimal : (n : ℕ) → n ≤ long_long_max → whole_number (to_decimal n) ≡ some (pos n)
whole_number-to_decimal n h = rw (wcsto-to_decimal long_long_max n h) refl

-- What the tests of a pair say of its strings.
pair_strings :
    (p : SyncPair)
    → pair_valid p ≡ true
    → (bounded p.id id_cap ≡ true)
      × (first (c_str p.id) == 0 ≡ false)
      × (bounded p.dataset id_cap ≡ true)
      × (first (c_str p.dataset) == 0 ≡ false)
      × (bounded p.name sync_name_cap ≡ true)
      × (first (c_str p.name) == 0 ≡ false)
      × (bounded p.group sync_name_cap ≡ true)
      × (first (c_str p.group) == 0 ≡ false)
      × (bounded p.directory sync_path_cap ≡ true)
      × (first (c_str p.directory) == 0 ≡ false)
      × (bounded p.excludes filter_cap ≡ true)
unfolding pair_valid sync_identifier
pair_strings p h = (
  ground arith,
  ground arith,
  ground arith,
  ground arith,
  ground arith,
  ground arith,
  ground arith,
  ground arith,
  ground arith,
  ground arith,
  ground arith,
)

remote_strings :
    (cells : List ℕ)
    → remote_ok cells ≡ true
    → (bounded cells sync_path_cap ≡ true) × (first (c_str cells) == 0 ≡ false)
remote_strings cells h = (ground arith, ground arith)

bounded_of : (cells : List ℕ) → identifier_or_empty cells ≡ true → bounded cells id_cap ≡ true
bounded_of cells h = ground arith

within_lower : (z : ℤ) → within z 10 86400 ≡ true → within z 0 86400 ≡ true
within_lower z h = ground arith

counted_within :
    (z : ℤ) → z ≡ pos (count_of z) → count_of z ≤ pair_limit → within z 0 pair_limit ≡ true
counted_within (pos n) e l = ground arith
counted_within (negsuc n) e l = cc

module _ (towlower : ℕ → ℕ) (settings : SyncSettings) (rows : List Row) (s : Store)
    (cells : length settings.pairs ≡ pair_limit)
    (valid : sync_settings_valid towlower settings ≡ true)
    (fits : count_of settings.server_id ≤ long_long_max)
    (put : s.rows ≡ settings_put settings rows) where
  in_header :
      (key v : Text)
      → value_of key (header_entries settings) ≡ some v
      → find (record { scope = scope; section = manager; name = key }) s.rows ≡ some v
  in_header key v e = rw put (
      find-header scope manager (codes "Pair") pair_entries (header_entries settings)
        (pairs_of settings) rows apart key
      ∙ e)

  in_pair :
      (key : Text) (n : ℕ) (p : SyncPair) (v : Text)
      → get_elem? (pairs_of settings) n ≡ some p
      → value_of key (pair_entries p) ≡ some v
      → find (record { scope = scope; section = numbered (codes "Pair") n; name = key }) s.rows
        ≡ some v
  in_pair key n p v at e = rw put (
      find-section scope manager (codes "Pair") pair_entries (header_entries settings)
        (pairs_of settings) rows apart key n at
      ∙ e)

  pair_read :
      (n : ℕ) (p : SyncPair)
      → get_elem? (pairs_of settings) n ≡ some p
      → load_pair (numbered (codes "Pair") n) (calm s) ≡ (some (refilled_pair p), calm s)
  unfolding load_pair value_of text_eq
  pair_read n p e =
      let section : Text = numbered (codes "Pair") n in
      let (b1, f1, b2, f2, b3, f3, b4, f4, b5, f5, b6) = pair_strings p (
        checked-get_elem? pair_valid (same_pair towlower) [] (pairs_of settings) n
          (facts towlower settings cells valid).3 e) in
      let paused : store_int scope section (codes "Paused") (negsuc 0) (calm s)
          ≡ (pos (bit p.paused), calm s) =
        store_int_found s scope section (codes "Paused") (bit p.paused) (negsuc 0)
          (omega (arith, bit_le p.paused))
          (in_pair (codes "Paused") n p (to_decimal (bit p.paused)) e
            (ap some (print_int-flag p.paused))) in
      let deletes : store_int scope section (codes "Deletes") (negsuc 0) (calm s)
          ≡ (pos (bit p.sync_deletes), calm s) =
        store_int_found s scope section (codes "Deletes") (bit p.sync_deletes) (negsuc 0)
          (omega (arith, bit_le p.sync_deletes))
          (in_pair (codes "Deletes") n p (to_decimal (bit p.sync_deletes)) e
            (ap some (print_int-flag p.sync_deletes))) in
      rw
        (
          read_value_found s section (codes "Id") (c_str p.id) id_cap (c_str-IsText p.id)
              (length-c_str p.id id_cap b1) f1 (in_pair (codes "Id") n p (c_str p.id) e refl),
          read_value_found s section (codes "Dataset") (c_str p.dataset) id_cap
              (c_str-IsText p.dataset) (length-c_str p.dataset id_cap b2) f2
              (in_pair (codes "Dataset") n p (c_str p.dataset) e refl),
          read_value_found s section (codes "Name") (c_str p.name) sync_name_cap
              (c_str-IsText p.name) (length-c_str p.name sync_name_cap b3) f3
              (in_pair (codes "Name") n p (c_str p.name) e refl),
          read_value_found s section (codes "Group") (c_str p.group) sync_name_cap
              (c_str-IsText p.group) (length-c_str p.group sync_name_cap b4) f4
              (in_pair (codes "Group") n p (c_str p.group) e refl),
          read_value_found s section (codes "Path") (c_str p.directory) sync_path_cap
              (c_str-IsText p.directory) (length-c_str p.directory sync_path_cap b5) f5
              (in_pair (codes "Path") n p (c_str p.directory) e refl),
          get_text_found s scope section (codes "Excludes") [] (c_str p.excludes) filter_cap
              (c_str-IsText p.excludes) (length-c_str p.excludes filter_cap b6)
              (in_pair (codes "Excludes") n p (c_str p.excludes) e refl),
          paused,
          deletes,
          flag-bit p.paused,
          flag-bit p.sync_deletes,
        )
        refl

  pairs_read :
      read_loop load_pair (codes "Pair") 0 (count_of settings.count) (calm s)
      ≡ (some (map refilled_pair (pairs_of settings)), calm s)
  pairs_read =
      subst
        (λ n.
          read_loop load_pair (codes "Pair") 0 n (calm s)
          ≡ (some (map refilled_pair (pairs_of settings)), calm s))
        (length-map refilled_pair (pairs_of settings)
          ∙ omega (
            arith,
            length-take (count_of settings.count) settings.pairs,
            cells,
            (facts towlower settings cells valid).1,
          ))
        (read_loop_found load_pair (codes "Pair") (calm s) 0 (map refilled_pair (pairs_of settings))
          λ n x e.
            let (p, at, made) = get_elem?-map-some refilled_pair (pairs_of settings) n e in
            rw (← made) (
              subst
                (λ k.
                  load_pair (numbered (codes "Pair") k) (calm s) ≡ (some (refilled_pair p), calm s))
                (let q : n ≡ 0 + n = omega arith in q) (pair_read n p at)))

  number_read :
      (key : Text) (z : ℤ) (maximum : ℕ)
      → within z 0 maximum ≡ true
      → maximum ≤ long_max
      → value_of key (header_entries settings) ≡ some (print_int z)
      → store_int scope manager key (negsuc 0) (calm s) ≡ (z, calm s)
  unfolding print_int
  number_read key (pos n) maximum h l e =
      store_int_found s scope manager key n (negsuc 0) (ground arith)
        (in_header key (to_decimal n) e)
  number_read key (negsuc n) maximum h l e = cc

  id_read :
      (z : ℤ)
      → not (elim z as (λ _. Bool) [ pos n ↦ false | negsuc n ↦ true ]) ≡ true
      → count_of z ≤ long_long_max
      → value_of (codes "Server") (header_entries settings) ≡ some (print_int z)
      → (read_value manager (codes "Server") 32 (calm s) ≡ (some (print_int z), calm s))
        × (whole_number (print_int z) ≡ some z)
  unfolding print_int
  id_read (pos n) h l e = (
    read_value_found s manager (codes "Server") (to_decimal n) 32 (to_decimal-IsText n)
        (omega (arith, length-to_decimal n l)) (to_decimal-first n)
        (in_header (codes "Server") (to_decimal n) e),
    whole_number-to_decimal n l,
  )
  id_read (negsuc n) h l e = cc

  text_read :
      (key : Text) (v : List ℕ) (capacity : ℕ)
      → bounded v capacity ≡ true
      → value_of key (header_entries settings) ≡ some (c_str v)
      → get_text scope manager key [] capacity (calm s) ≡ (some (c_str v), calm s)
  text_read key v capacity b e =
      get_text_found s scope manager key [] (c_str v) capacity (c_str-IsText v)
        (length-c_str v capacity b) (in_header key (c_str v) e)

  path_read :
      (key : Text) (v : List ℕ)
      → remote_ok v ≡ true
      → value_of key (header_entries settings) ≡ some (c_str v)
      → read_value manager key sync_path_cap (calm s) ≡ (some (c_str v), calm s)
  path_read key v h e =
      let (b, f) = remote_strings v h in
      read_value_found s manager key (c_str v) sync_path_cap (c_str-IsText v)
        (length-c_str v sync_path_cap b) f (in_header key (c_str v) e)

  header_read : load_header (calm s) ≡ (some (header_of settings), calm s)
  unfolding load_header value_of text_eq
  header_read =
      let known = facts towlower settings cells valid in
      let (a, b, c, d, e, f, g, k, l, m, n) = header_parts settings known.2 in
      let registered : store_int scope manager (codes "Registered") (negsuc 0) (calm s)
          ≡ (pos (bit settings.registered), calm s) =
        store_int_found s scope manager (codes "Registered") (bit settings.registered) (negsuc 0)
          (omega (arith, bit_le settings.registered))
          (in_header (codes "Registered") (to_decimal (bit settings.registered))
            (ap some (print_int-flag settings.registered))) in
      let (id, number) = id_read settings.server_id e fits refl in
      rw
        (
          text_read (codes "Instance") settings.server_instance id_cap (bounded_of _ a) refl,
          number_read (codes "Count") settings.count pair_limit (counted_within _ known.0 known.1)
              (omega arith) refl,
          number_read (codes "Role") settings.role (device_limit - 1) c (omega arith) refl,
          number_read (codes "Interval") settings.interval 86400 (within_lower settings.interval d)
              (omega arith) refl,
          registered,
          flag-bit settings.registered,
          id,
          number,
          text_read (codes "Node") settings.node_id id_cap (bounded_of _ f) refl,
          text_read (codes "Name") settings.name sync_name_cap g refl,
          path_read (codes "Project") settings.project l refl,
          path_read (codes "Broker") settings.broker m refl,
        )
        refl

  version_read :
      get_text scope manager (codes "Version") [] 32 (calm s) ≡ (some (codes "1"), calm s)
  unfolding value_of text_eq print_int to_decimal print_digits
  version_read =
      get_text_found s scope manager (codes "Version") [] (codes "1") 32 (ground arith)
        (omega arith) (in_header (codes "Version") (codes "1") refl)

  version_1_read : load_version_1 towlower (calm s) ≡ (some (refilled settings), calm s)
  unfolding load_version_1
  version_1_read =
      let known = facts towlower settings cells valid in
      let counted : count_in settings.count pair_limit ≡ some (count_of settings.count) =
        ground (arith, known.0, known.1) in
      rw (header_read, counted, pairs_read, refilled-IsValid towlower settings cells valid) refl

  load_lem : sync_settings_load towlower (calm s) ≡ (some (refilled settings), calm s)
  unfolding sync_settings_load load_version text_eq
  load_lem = rw version_read version_1_read

-- Valid settings that a save outside a transaction has stored are loaded again, once SQLite refuses
-- nothing more: the same numbers and pairs, and arrays that hold the same strings.
pub sync_settings_load-sync_settings_save :
    (towlower : ℕ → ℕ) (settings : SyncSettings) (s : Store)
    → length settings.pairs ≡ pair_limit
    → count_of settings.server_id ≤ long_long_max
    → s.snapshot ≡ none
    → (sync_settings_save towlower settings s).0 ≡ some tt
    → let s' = calm (sync_settings_save towlower settings s).1 in
      sync_settings_load towlower s' ≡ (some (refilled settings), s')
sync_settings_load-sync_settings_save towlower settings s cells fits e went =
    let (valid, rows, ended) = (sync_settings_save_lem towlower settings s e).0 went in
    load_lem towlower settings s.rows (sync_settings_save towlower settings s).1 cells valid fits
      rows
