-- ===== src/SyncStore/Refilled.antt =====
-- Settings of platform/sync_settings.c whose arrays hold the same strings in zeroed arrays, as a load
-- leaves them.
use nova_desktop.Base.{
  ℕ, ◌-◌, ◌≤◌, ◌≡◌, refl, ◌∙◌, Bool, true, false, ◌&&◌, ◌||◌, not, List, [], ◌++◌, some, none,
  arith, leb, ◌==◌, pos, negsuc, length, take, map, replicate, checked, checked-map,
  take-append_exact, length-map, count_in, length-take, subst, sym,
}
use nova_desktop.Text.{
  Buffer, bounded, c_str, first, wcscpy, c_str-wcscpy, bounded-wcscpy, c_str-IsText, length-c_str,
}
use nova_desktop.SyncModel.{
  SyncPair, SyncSettings, pair_limit, id_cap, sync_name_cap, sync_path_cap, filter_cap, pair_valid,
  same_pair, header_valid, sync_settings_valid, sync_settings_default, count_of, within,
  device_limit, identifier_or_empty, remote_ok,
}
use nova_desktop.SyncModel.Pairs.{facts, counted_accepts, sync_settings_default_version}
use nova_desktop.SyncStore.{filled, Header, settings_of, pairs_of}

pub c_str-filled : (cap : ℕ) (cells : Buffer) → c_str (filled cap (c_str cells)) ≡ c_str cells
unfolding filled
c_str-filled cap cells = c_str-wcscpy (replicate cap 0) (c_str cells) (c_str-IsText cells)

pub bounded-filled :
    (cap : ℕ) (cells : Buffer)
    → bounded cells cap ≡ true
    → bounded (filled cap (c_str cells)) cap ≡ true
unfolding filled
bounded-filled cap cells h =
    bounded-wcscpy (replicate cap 0) (c_str cells) cap (length-c_str cells cap h)

abbrev pub refilled_pair : SyncPair → SyncPair
refilled_pair p = record {
  id = filled id_cap (c_str p.id);
  dataset = filled id_cap (c_str p.dataset);
  name = filled sync_name_cap (c_str p.name);
  group = filled sync_name_cap (c_str p.group);
  directory = filled sync_path_cap (c_str p.directory);
  excludes = filled filter_cap (c_str p.excludes);
  paused = p.paused;
  sync_deletes = p.sync_deletes;
}

abbrev pub header_of : SyncSettings → Header
header_of s = record {
  server_instance = c_str s.server_instance;
  count = s.count;
  role = s.role;
  interval = s.interval;
  registered = s.registered;
  server_id = s.server_id;
  node_id = c_str s.node_id;
  name = c_str s.name;
  project = c_str s.project;
  broker = c_str s.broker;
}

-- The settings with the same strings, numbers and pairs.
abbrev pub refilled : SyncSettings → SyncSettings
refilled s = settings_of (header_of s) (count_of s.count) (map refilled_pair (pairs_of s))

refilled_pair-valid : (p : SyncPair) → pair_valid p ≡ true → pair_valid (refilled_pair p) ≡ true
unfolding pair_valid
refilled_pair-valid p h = ground (
  arith,
  c_str-filled id_cap p.id,
  c_str-filled id_cap p.dataset,
  c_str-filled sync_name_cap p.name,
  c_str-filled sync_name_cap p.group,
  c_str-filled sync_path_cap p.directory,
  bounded-filled id_cap p.id,
  bounded-filled id_cap p.dataset,
  bounded-filled sync_name_cap p.name,
  bounded-filled sync_name_cap p.group,
  bounded-filled sync_path_cap p.directory,
  bounded-filled filter_cap p.excludes,
)

c_str-wcscpy_same : (old cells : Buffer) → c_str (wcscpy old (c_str cells)) ≡ c_str cells
c_str-wcscpy_same old cells = c_str-wcscpy old (c_str cells) (c_str-IsText cells)

bounded-wcscpy_same :
    (old cells : Buffer) (cap : ℕ)
    → bounded cells cap ≡ true
    → bounded (wcscpy old (c_str cells)) cap ≡ true
bounded-wcscpy_same old cells cap h =
    bounded-wcscpy old (c_str cells) cap (length-c_str cells cap h)

default_version : within sync_settings_default.version 1 1 ≡ true
default_version = rw sync_settings_default_version refl

refilled-identifier :
    (cells : Buffer)
    → identifier_or_empty cells ≡ true
    → identifier_or_empty (filled id_cap (c_str cells)) ≡ true
refilled-identifier cells h =
    rw (c_str-filled id_cap cells) (ground (arith, bounded-filled id_cap cells))

refilled-remote :
    (old cells : Buffer) → remote_ok cells ≡ true → remote_ok (wcscpy old (c_str cells)) ≡ true
refilled-remote old cells h =
    rw (c_str-wcscpy_same old cells) (ground (arith, bounded-wcscpy_same old cells sync_path_cap))

-- Eleven tests.
eleven :
    (a b c d e f g h i j k : Bool)
    → (a && b && c && d && e && f && g && h && i && j && k) ≡ true
    → (a ≡ true)
      × (b ≡ true)
      × (c ≡ true)
      × (d ≡ true)
      × (e ≡ true)
      × (f ≡ true)
      × (g ≡ true)
      × (h ≡ true)
      × (i ≡ true)
      × (j ≡ true)
      × (k ≡ true)
eleven a b c d e f g h i j k t = ground arith

pub header_parts :
    (s : SyncSettings)
    → header_valid s ≡ true
    → (identifier_or_empty s.server_instance ≡ true)
      × (within s.version 1 1 ≡ true)
      × (within s.role 0 (device_limit - 1) ≡ true)
      × (within s.interval 10 86400 ≡ true)
      × (not (elim s.server_id [ pos n ↦ false | negsuc n ↦ true ]) ≡ true)
      × (identifier_or_empty s.node_id ≡ true)
      × (bounded s.name sync_name_cap ≡ true)
      × (leb (length (c_str s.name)) 100 ≡ true)
      × (remote_ok s.project ≡ true)
      × (remote_ok s.broker ≡ true)
      × (not (s.registered && (first (c_str s.node_id) == 0 || first (c_str s.name) == 0)) ≡ true)
unfolding header_valid
header_parts s h = eleven _ _ _ _ _ _ _ _ _ _ _ h

refilled-header_valid :
    (s : SyncSettings) → header_valid s ≡ true → header_valid (refilled s) ≡ true
unfolding header_valid
refilled-header_valid s h =
    let (a, b, c, d, e, f, g, k, l, m, n) = header_parts s h in
    let label : bounded (filled sync_name_cap (c_str s.name)) sync_name_cap ≡ true =
      bounded-filled sync_name_cap s.name g in
    rw
      (
        refilled-identifier s.server_instance a,
        default_version,
        c,
        d,
        e,
        refilled-identifier s.node_id f,
        label,
        c_str-filled sync_name_cap s.name,
        c_str-filled id_cap s.node_id,
        k,
        refilled-remote sync_settings_default.project s.project l,
        refilled-remote sync_settings_default.broker s.broker m,
        n,
      )
      refl

module _ (towlower : ℕ → ℕ) where
  refilled_same :
      (p q : SyncPair)
      → same_pair towlower (refilled_pair p) (refilled_pair q) ≡ same_pair towlower p q
  unfolding same_pair
  refilled_same p q =
      rw
        (
          c_str-filled id_cap p.id,
          c_str-filled id_cap q.id,
          c_str-filled id_cap p.dataset,
          c_str-filled id_cap q.dataset,
          c_str-filled sync_path_cap p.directory,
          c_str-filled sync_path_cap q.directory,
        )
        refl

  valid_whole :
      (s : SyncSettings) (n : ℕ) (pairs rest : List SyncPair)
      → s.count ≡ pos n
      → n ≤ pair_limit
      → header_valid s ≡ true
      → s.pairs ≡ pairs ++ rest
      → length pairs ≡ n
      → checked pair_valid (same_pair towlower) [] pairs ≡ true
      → sync_settings_valid towlower s ≡ true
  unfolding sync_settings_valid
  valid_whole s n pairs rest e le header cells long h =
      let used : take n s.pairs ≡ pairs = rw (cells, ← long) (take-append_exact pairs rest) in
      let all : checked pair_valid (same_pair towlower) [] (take n s.pairs) ≡ true = rw used h in
      subst
        (λ z.
          (elim (count_in z pair_limit) as (λ _. Bool) [
            | none ↦ false
            | some k ↦ header_valid s && checked pair_valid (same_pair towlower) [] (take k s.pairs)
          ])
          ≡ true)
        (sym e)
        (counted_accepts n pair_limit
          (λ k. header_valid s && checked pair_valid (same_pair towlower) [] (take k s.pairs)) le
          (rw (header, all) refl))

  -- Settings in zeroed arrays are as valid as they were.
  pub refilled-IsValid :
      (s : SyncSettings)
      → length s.pairs ≡ pair_limit
      → sync_settings_valid towlower s ≡ true
      → sync_settings_valid towlower (refilled s) ≡ true
  refilled-IsValid s cells h =
      let (counted, le, header, pairs) = facts towlower s cells h in
      valid_whole (refilled s) (count_of s.count) (map refilled_pair (pairs_of s)) _ counted le
        (refilled-header_valid s header) refl
        (length-map refilled_pair (pairs_of s)
          ∙ omega (arith, length-take (count_of s.count) s.pairs, cells, le))
        (checked-map pair_valid (same_pair towlower) pair_valid (same_pair towlower) refilled_pair
          refilled_pair-valid refilled_same [] (pairs_of s) pairs)
