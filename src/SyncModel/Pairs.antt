-- ===== src/SyncModel/Pairs.antt =====
-- The saved pairs of core/sync_model.c: what sync_pair_set and sync_pair_remove do to them and keep.
use nova_desktop.Base.{
  ℕ, ◌+◌, ◌-◌, ◌≤◌, ◌<◌, ◌≡◌, ◌⊎◌, inl, inr, refl, ◌∙◌, Bool, true, false, ◌&&◌, ◌||◌, not, [],
  none, some, arith, ltb, leb, ◌==◌, if◌then◌else◌, ℤ, pos, negsuc, count_in, length, set, take,
  erase_at, memmove, get_elem?, checked, checked-erase_at, take-set_beyond, take-memmove_down,
  get_elem?-set_self, length-set, length-memmove, Bool-cases,
}
use nova_desktop.Text.{c_str, wcscpy, bounded, has_any, has_char}
use nova_desktop.SyncModel.{
  SyncPair, SyncSettings, pair_limit, pair_valid, header_valid, same_pair, sync_settings_valid,
  sync_pair_set, with_pair, sync_pair_remove, without_pair, count_of, zeroed, sync_settings_default,
  sync_identifier, identifier_from,
}

both : (a b : Bool) → (a && b) ≡ true → (a ≡ true) × (b ≡ true)
both a b h = ground arith

-- A test behind that of a count.
counted :
    (z : ℤ) (cap : ℕ) (test : ℕ → Bool)
    → (elim (count_in z cap) as (λ _. Bool) [ none ↦ false | some n ↦ test n ]) ≡ true
    → (z ≡ pos (count_of z)) × (count_of z ≤ cap) × (test (count_of z) ≡ true)
counted (pos n) cap test h = ground arith
counted (negsuc n) cap test h = cc

pub counted_accepts :
    (n cap : ℕ) (test : ℕ → Bool)
    → n ≤ cap
    → test n ≡ true
    → (elim (count_in (pos n) cap) as (λ _. Bool) [ none ↦ false | some n ↦ test n ]) ≡ true
counted_accepts n cap test h e = ground arith

-- The version of the defaults.
pub sync_settings_default_version : sync_settings_default.version ≡ pos 1
unfolding sync_settings_default
sync_settings_default_version = refl

module _ (towlower : ℕ → ℕ) where
  pub sync_settings_default-IsValid : sync_settings_valid towlower sync_settings_default ≡ true
  unfolding sync_settings_valid header_valid sync_identifier identifier_from sync_settings_default
      wcscpy bounded c_str has_any has_char checked
  sync_settings_default-IsValid = refl

  set_counted :
      (s : SyncSettings) (index n : ℕ) (p : SyncPair)
      → s.count ≡ pos n
      → sync_pair_set towlower s (pos index) p ≡ (
          if ltb n index || leb pair_limit index
          then (negsuc 0, s)
          else if not (sync_settings_valid towlower (with_pair s n index p))
          then (negsuc 0, s)
          else (pos index, with_pair s n index p))
  unfolding sync_pair_set
  set_counted s index n p e = rw e

  -- Setting a pair either refuses, with the result -1, and changes nothing, or it yields its index. Then
  -- the new settings are valid, hold the pair at the index and the others where they were, and count one
  -- more only if the index stood behind the last pair.
  pub sync_pair_set_lem :
      (s : SyncSettings) (i n : ℕ) (p : SyncPair)
      → length s.pairs ≡ pair_limit
      → s.count ≡ pos n
      → let (result, next) = sync_pair_set towlower s (pos i) p in
        ((result ≡ negsuc 0) × (next ≡ s))
        ⊎ ((result ≡ pos i)
            × (sync_settings_valid towlower next ≡ true)
            × (get_elem? next.pairs i ≡ some p)
            × (next.pairs ≡ set s.pairs i p)
            × (next.count ≡ pos (if i == n then n + 1 else n)))
  sync_pair_set_lem s i n p cells named =
      rw (set_counted s i n p named) (elim (Bool-cases (ltb n i || leb pair_limit i)) [
        | inl beyond ↦ rw beyond (inl (refl, refl))
        | inr inside ↦ elim (Bool-cases (sync_settings_valid towlower (with_pair s n i p))) [
          | inr bad ↦ rw (inside, bad) (inl (refl, refl))
          | inl good ↦
              rw (inside, good)
                (inr (
                  refl,
                  good,
                  get_elem?-set_self s.pairs i p (ground (arith, cells)),
                  refl,
                  ground arith,
                ))
        ]
      ])

  module _ (s : SyncSettings) (cells : length s.pairs ≡ pair_limit)
      (valid : sync_settings_valid towlower s ≡ true) where
    pub facts :
        (s.count ≡ pos (count_of s.count))
        × (count_of s.count ≤ pair_limit)
        × (header_valid s ≡ true)
        × (checked pair_valid (same_pair towlower) [] (take (count_of s.count) s.pairs) ≡ true)
    unfolding sync_settings_valid
    facts =
        let (named, within, rest) =
          counted s.count pair_limit
            (λ n. header_valid s && checked pair_valid (same_pair towlower) [] (take n s.pairs))
            valid in
        let (header, pairs) = both _ _ rest in (named, within, header, pairs)

    removed :
        (i : ℕ)
        → i < count_of s.count
        → take (count_of s.count - 1) (without_pair s i).pairs
          ≡ erase_at (take (count_of s.count) s.pairs) i
    removed i h =
        take-set_beyond (count_of s.count - 1) _ (count_of s.count - 1) zeroed (omega arith)
        ∙ take-memmove_down s.pairs i (count_of s.count) h (omega (arith, facts.1, cells))

    accepted :
        (i : ℕ)
        → i < count_of s.count
        → checked pair_valid
            (same_pair towlower)
            []
            (take (count_of s.count - 1) (without_pair s i).pairs)
          ≡ true
    accepted i h = rw (removed i h) (
        checked-erase_at pair_valid (same_pair towlower) [] (take (count_of s.count) s.pairs) i
          facts.3)

    header_kept : (i : ℕ) → header_valid (without_pair s i) ≡ true
    unfolding header_valid
    header_kept i = facts.2

    without_pair-IsValid :
        (i : ℕ) → i < count_of s.count → sync_settings_valid towlower (without_pair s i) ≡ true
    unfolding sync_settings_valid
    without_pair-IsValid i h =
        counted_accepts (count_of s.count - 1) pair_limit
          (λ n.
            header_valid (without_pair s i)
            && checked pair_valid (same_pair towlower) [] (take n (without_pair s i).pairs))
          (omega (arith, facts.1)) (rw (header_kept i, accepted i h))

    remove_result :
        (i : ℕ)
        → ltb i (count_of s.count) ≡ true
        → sync_pair_remove s (pos i) ≡ (true, without_pair s i)
    unfolding sync_pair_remove
    remove_result i h = rw (h, sync_pair_remove)

    remove_refused :
        (i : ℕ) → ltb i (count_of s.count) ≡ false → sync_pair_remove s (pos i) ≡ (false, s)
    unfolding sync_pair_remove
    remove_refused i h = rw (h, sync_pair_remove)

    -- Removing a pair keeps the settings valid. It takes that pair alone from those that count, and an
    -- index that names none changes nothing.
    pub sync_pair_remove_lem :
        (index : ℤ)
        → let (result, next) = sync_pair_remove s index in
          (sync_settings_valid towlower next ≡ true)
          × (length next.pairs ≡ pair_limit)
          × (((result ≡ false) × (next ≡ s))
              ⊎ ((i : ℕ) × (index ≡ pos i)
                  × (result ≡ true)
                  × (take (count_of next.count) next.pairs
                      ≡ erase_at (take (count_of s.count) s.pairs) i)))
    unfolding sync_pair_remove
    sync_pair_remove_lem (negsuc i) = (valid, cells, inl (refl, refl))
    sync_pair_remove_lem (pos i) = elim (Bool-cases (ltb i (count_of s.count))) [
      | inr beyond ↦ rw (remove_refused i beyond) (valid, cells, inl (refl, refl))
      | inl inside ↦ rw (remove_result i inside) (
        without_pair-IsValid i (ground arith),
        length-set (memmove s.pairs i (i + 1) (count_of s.count - i - 1)) (count_of s.count - 1)
              zeroed
            ∙ length-memmove s.pairs i (i + 1) (count_of s.count - i - 1)
                (ground (arith, facts.1, cells)) (ground (arith, facts.1, cells))
            ∙ cells,
        inr (i, refl, refl, removed i (ground arith)),
      )
    ]
