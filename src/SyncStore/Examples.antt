-- ===== src/SyncStore/Examples.antt =====
-- The theorems on platform/sync_settings.c at settings with two pairs.
use nova_desktop.Base.{◌≡◌, ◌⊎◌, refl, true, none, some, arith}
use nova_desktop.SyncModel.{sync_settings_valid}
use nova_desktop.SyncModel.Samples.{lower, settings, settings-valid}
use nova_desktop.Storage.{
  store_begin, store_end, in_transaction, own_transaction, execute, rollback, store_clear,
}
use nova_desktop.Storage.Samples.{empty, failing_second}
use nova_desktop.Storage.Reads.{calm}
use nova_desktop.SyncStore.{sync_settings_load, sync_settings_save, write_settings}
use nova_desktop.SyncStore.{pairs_of}
use nova_desktop.SyncStore.Import.{Queries, sync_settings_import}
use nova_desktop.SyncStore.Import.Checks.{IsPaused, sync_settings_import_lem}
use nova_desktop.Text.{codes, text_eq}
use nova_desktop.Base.{pos, All, if◌then◌else◌, false}
use nova_desktop.SyncStore.Saves.{sync_settings_save_works, sync_settings_save_failed}
use nova_desktop.SyncStore.Refilled.{refilled}
use nova_desktop.SyncStore.RoundTrip.{sync_settings_load-sync_settings_save}

settings_saved : (sync_settings_save lower settings empty).0 ≡ some tt
settings_saved = sync_settings_save_works lower settings empty refl refl refl settings-valid

sync_settings_load-sync_settings_save_example :
    let s' = calm (sync_settings_save lower settings empty).1 in
    sync_settings_load lower s' ≡ (some (refilled settings), s')
sync_settings_load-sync_settings_save_example =
    sync_settings_load-sync_settings_save lower settings empty refl (omega arith) refl
      settings_saved

-- The second statement clears the scope.
refused :
    ((sync_settings_save lower settings failing_second).0 ≡ none)
    × ((sync_settings_save lower settings failing_second).1.snapshot ≡ none)
unfolding sync_settings_save in_transaction store_begin store_end write_settings store_clear
    own_transaction execute rollback
refused = rw settings-valid (refl, refl)

sync_settings_save_failed_example :
    (sync_settings_save lower settings failing_second).1.rows ≡ failing_second.rows
sync_settings_save_failed_example =
    sync_settings_save_failed lower settings failing_second refl refused.0 refused.1

-- A document without folders, as its queries answer.
abbrev answers : Queries
answers = record {
  extract = λ json path.
      if text_eq path (codes "$.identity.role")
      then some (record { is_text = true; cells = codes "A" })
      else if text_eq path (codes "$.identity.node_id")
      then some (record { is_text = true; cells = codes "n1" })
      else if text_eq path (codes "$.nova_server_id")
      then none
      else some (record { is_text = true; cells = codes "/srv" });
  summary = λ json. some (true, pos 0, false);
  flag_at = λ json path. none;
  each = λ json path. none;
}

sync_settings_import_lem_example :
    let (ok, next) =
      sync_settings_import lower
        (λ json. true)
        answers
        true
        (some (record { size = 2; bytes = codes "{}" }))
        settings in
    ((ok ≡ false) × (next ≡ settings))
    ⊎ ((ok ≡ true) × (sync_settings_valid lower next ≡ true) × All IsPaused (pairs_of next))
sync_settings_import_lem_example =
    sync_settings_import_lem lower (λ json. true) answers true
      (some (record { size = 2; bytes = codes "{}" })) settings
