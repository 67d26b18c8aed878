-- ===== src/SyncStore/Loads.antt =====
-- What sync_settings_load of platform/sync_settings.c accepts.
use nova_desktop.Base.{
  ℕ, ◌≡◌, refl, true, Option, none, some, arith, inl, inr, Option-cases, ◌⊎◌, [],
}
use nova_desktop.Text.{Text, codes}
use nova_desktop.SyncModel.{SyncSettings, sync_settings_valid, sync_settings_default}
use nova_desktop.SyncModel.Pairs.{sync_settings_default-IsValid}
use nova_desktop.Storage.{Store, follow, get_text}
use nova_desktop.SyncStore.{scope, manager, load_version_1, load_version, sync_settings_load}

module _ (towlower : ℕ → ℕ) where
  version_1-IsValid :
      (s : Store) (c : SyncSettings)
      → (load_version_1 towlower s).0 ≡ some c
      → sync_settings_valid towlower c ≡ true
  unfolding load_version_1
  version_1-IsValid s c e = ground arith

  version-IsValid :
      (version : Text) (s : Store) (c : SyncSettings)
      → (load_version towlower version s).0 ≡ some c
      → (c ≡ sync_settings_default) ⊎ (sync_settings_valid towlower c ≡ true)
  unfolding load_version
  version-IsValid version s c e = ground (arith, version_1-IsValid s c)

  -- Settings that were loaded are valid, whatever the table holds and whatever SQLite refuses. A table
  -- without a version yields the defaults.
  pub sync_settings_load-IsValid :
      (s : Store)
      → ((sync_settings_load towlower s).0 ≡ none)
        ⊎ ((c : SyncSettings) × ((sync_settings_load towlower s).0 ≡ some c)
            × (sync_settings_valid towlower c ≡ true))
  unfolding sync_settings_load
  sync_settings_load-IsValid s = go (get_text scope manager (codes "Version") [] 32 s)
    where
      valid :
          (version : Text) (s' : Store) (c : SyncSettings)
          → (load_version towlower version s').0 ≡ some c
          → sync_settings_valid towlower c ≡ true
      valid version s' c e = elim (version-IsValid version s' c e) [
        | inl fresh ↦ rw fresh (sync_settings_default-IsValid towlower)
        | inr good ↦ good
      ]

      go :
          (r : Option Text × Store)
          → ((follow (load_version towlower) r).0 ≡ none)
            ⊎ ((c : SyncSettings) × ((follow (load_version towlower) r).0 ≡ some c)
                × (sync_settings_valid towlower c ≡ true))
      go (none, s') = inl refl
      go (some version, s') = elim (Option-cases (load_version towlower version s').0) [
        | inl refused ↦ inl refused
        | inr (c, e) ↦ inr (c, e, valid version s' c e)
      ]
