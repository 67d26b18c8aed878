-- ===== src/SyncStore/Saves.antt =====
-- What sync_settings_save of platform/sync_settings.c writes, and that a save that fails writes nothing.
use nova_desktop.Base.{ℕ, ◌≡◌, refl, true, [], List, none, some, Bool-cases, inl, inr}
use nova_desktop.Text.{codes}
use nova_desktop.SyncModel.{SyncSettings, sync_settings_valid}
use nova_desktop.Storage.Table.{Row}
use nova_desktop.Storage.{Store, in_section, write_all}
use nova_desktop.Storage.Writes.{
  Writes, >>-Writes, store_clear-Writes, write_all-Writes, in_transaction_lem,
}
use nova_desktop.Storage.Works.{
  >>-Works, write_all-Works, write_loop-Works, store_clear-Works, in_transaction-Works,
}
use nova_desktop.Storage.Entries.{write_loop-Writes, saved}
use nova_desktop.SyncStore.{
  scope, manager, header_entries, pair_entries, pairs_of, write_settings, sync_settings_save,
}

-- The rows after the settings are written.
abbrev pub settings_put : SyncSettings → List Row → List Row
settings_put settings rows =
    saved scope manager (codes "Pair") pair_entries (header_entries settings) (pairs_of settings)
      rows

write_settings-Writes :
    (settings : SyncSettings) → Writes (write_settings settings) (settings_put settings)
unfolding write_settings saved
write_settings-Writes settings =
    >>-Writes _ _ _ _
      (>>-Writes _ _ _ _ (store_clear-Writes scope)
        (write_all-Writes scope (in_section manager (header_entries settings))))
      (write_loop-Writes scope (write_all scope) (codes "Pair") pair_entries
        (write_all-Writes scope) 0 (pairs_of settings))

module _ (towlower : ℕ → ℕ) where
  -- Outside a transaction a save that succeeds was one of valid settings, has replaced all that the scope
  -- held and has ended its transaction. A save that fails has changed no row, as far as no transaction
  -- is left open.
  pub sync_settings_save_lem :
      (settings : SyncSettings) (s : Store)
      → s.snapshot ≡ none
      → let (result, s') = sync_settings_save towlower settings s in
        (result ≡ some tt
          → (sync_settings_valid towlower settings ≡ true)
            × (s'.rows ≡ settings_put settings s.rows)
            × (s'.snapshot ≡ none))
        × (result ≡ none → s'.snapshot ≡ none → s'.rows ≡ s.rows)
  unfolding sync_settings_save
  sync_settings_save_lem settings s e = elim (Bool-cases (sync_settings_valid towlower settings)) [
    | inr bad ↦ rw bad (λ t. cc, λ t u. refl)
    | inl good ↦
        let (made, undone) =
          in_transaction_lem (write_settings settings) (settings_put settings) s
            (write_settings-Writes settings) e in
        rw good (λ t. (refl, (made t).0, (made t).1), undone)
  ]

  -- A save of valid settings succeeds on an open store outside a transaction, while SQLite refuses
  -- nothing.
  pub sync_settings_save_works :
      (settings : SyncSettings) (s : Store)
      → s.is_open ≡ true
      → s.outcomes ≡ []
      → s.snapshot ≡ none
      → sync_settings_valid towlower settings ≡ true
      → (sync_settings_save towlower settings s).0 ≡ some tt
  unfolding sync_settings_save write_settings
  sync_settings_save_works settings s o q e valid = rw valid (
      in_transaction-Works (write_settings settings) s
        (>>-Works _ _
          (>>-Works _ _ (store_clear-Works scope)
            (write_all-Works scope (in_section manager (header_entries settings))))
          (write_loop-Works (write_all scope) (codes "Pair") pair_entries (write_all-Works scope) 0
            (pairs_of settings)))
        o q e)

  -- A save that fails outside a transaction has changed no row, as far as no transaction is left open.
  pub sync_settings_save_failed :
      (settings : SyncSettings) (s : Store)
      → s.snapshot ≡ none
      → (sync_settings_save towlower settings s).0 ≡ none
      → (sync_settings_save towlower settings s).1.snapshot ≡ none
      → (sync_settings_save towlower settings s).1.rows ≡ s.rows
  sync_settings_save_failed settings s e failed ended =
      (sync_settings_save_lem settings s e).1 failed ended
