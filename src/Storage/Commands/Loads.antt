-- ===== src/Storage/Commands/Loads.antt =====
-- What a save of the command presets leaves in the table, in platform/storage.c.
use nova_desktop.Base.{◌≡◌, refl, Bool, true, List, [], none, some, arith, Bool-cases, inl, inr}
use nova_desktop.Text.{Text, codes}
use nova_desktop.FileCommand.{FileCommandList, file_command_list_is_valid, presets}
use nova_desktop.Storage.Table.{Row, delete_scope}
use nova_desktop.Storage.{Store, pure, store_clear, write_each, in_section}
use nova_desktop.Storage.Writes.{
  Writes, pure-Writes, >>-Writes, store_clear-Writes, write_each-Writes, in_transaction_lem,
}
use nova_desktop.Storage.Entries.{write_loop-Writes, saved}
use nova_desktop.Storage.Works.{
  pure-Works, >>-Works, write_each-Works, write_loop-Works, store_clear-Works, in_transaction-Works,
}
use nova_desktop.Storage.Reads.{Yields}
use nova_desktop.Storage.Commands.{
  commands_scope, collection, header_entries, command_entries, write_file_commands,
  store_save_file_commands, load_stored_commands,
}

-- The rows after the presets are written.
abbrev pub commands_put : FileCommandList → List Row → List Row
commands_put commands rows =
    saved commands_scope collection (codes "Command") command_entries (header_entries commands)
      (presets commands) rows

write_file_commands-Writes :
    (commands : FileCommandList) → Writes (write_file_commands commands) (commands_put commands)
unfolding write_file_commands saved
write_file_commands-Writes commands =
    >>-Writes _ _ _ _
      (write_each-Writes commands_scope (in_section collection (header_entries commands))
        (store_clear commands_scope) (delete_scope commands_scope)
        (store_clear-Writes commands_scope))
      (write_loop-Writes commands_scope (write_each (pure tt) commands_scope) (codes "Command")
        command_entries
        (λ es. write_each-Writes commands_scope es (pure tt) (λ rows. rows) pure-Writes) 0
        (presets commands))

module _ (lstrcmpi : Text → Text → Bool) where
  stored-IsValid :
      Yields (λ c. file_command_list_is_valid lstrcmpi c ≡ true) (load_stored_commands lstrcmpi)
  unfolding load_stored_commands
  stored-IsValid s c e = ground arith

  -- A save of presets that are not valid does nothing. Outside a transaction a save that succeeds has
  -- replaced all presets and ended its transaction; one that fails has changed no row, as far as no
  -- transaction is left open.
  pub store_save_file_commands_lem :
      (commands : FileCommandList) (s : Store)
      → s.snapshot ≡ none
      → let (result, s') = store_save_file_commands lstrcmpi commands s in
        (result ≡ some tt
          → (file_command_list_is_valid lstrcmpi commands ≡ true)
            × (s'.rows ≡ commands_put commands s.rows)
            × (s'.snapshot ≡ none))
        × (result ≡ none → s'.snapshot ≡ none → s'.rows ≡ s.rows)
  unfolding store_save_file_commands
  store_save_file_commands_lem commands s e =
      elim (Bool-cases (file_command_list_is_valid lstrcmpi commands)) [
        | inr bad ↦ rw bad (λ t. cc, λ t u. refl)
        | inl good ↦
            let (made, undone) =
              in_transaction_lem (write_file_commands commands) (commands_put commands) s
                (write_file_commands-Writes commands) e in
            rw good (λ t. (refl, (made t).0, (made t).1), undone)
      ]

  -- A save of valid presets succeeds on an open store outside a transaction, while SQLite refuses
  -- nothing.
  pub store_save_file_commands_works :
      (commands : FileCommandList) (s : Store)
      → s.is_open ≡ true
      → s.outcomes ≡ []
      → s.snapshot ≡ none
      → file_command_list_is_valid lstrcmpi commands ≡ true
      → (store_save_file_commands lstrcmpi commands s).0 ≡ some tt
  unfolding store_save_file_commands write_file_commands
  store_save_file_commands_works commands s o q e valid = rw valid (
      in_transaction-Works (write_file_commands commands) s
        (>>-Works _ _
          (write_each-Works commands_scope (in_section collection (header_entries commands))
            (store_clear commands_scope) (store_clear-Works commands_scope))
          (write_loop-Works (write_each (pure tt) commands_scope) (codes "Command") command_entries
            (λ es. write_each-Works commands_scope es (pure tt) pure-Works) 0 (presets commands)))
        o q e)
