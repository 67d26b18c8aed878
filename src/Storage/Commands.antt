-- ===== src/Storage/Commands.antt =====
-- The command presets in platform/storage.c: save_file_commands_impl behind store_save_file_commands,
-- and store_load_file_commands.
pub mod Loads
pub mod RoundTrip
use nova_desktop.Base.{
  ℕ, ◌+◌, ◌-◌, Bool, true, false, not, List, [], ◌∷◌, ◌++◌, Option, none, some, ltb, leb, ◌==◌,
  if◌then◌else◌, pos, replicate,
}
use nova_desktop.Text.{Text, codes}
use nova_desktop.Decimal.Signed.{print_int}
use nova_desktop.FileCommand.{
  FileCommand, FileCommandList, command_limit, name_cap, text_cap, zeroed, file_command_defaults,
  file_command_list_is_valid, presets,
}
use nova_desktop.Storage.{
  ◌>>=◌, Store, M, ◌>>◌, pure, require, accept, loaded, in_transaction, store_clear, write_each,
  write_loop, in_section, store_count, read_text, read_number, read_loop,
}

abbrev pub commands_scope : Text
commands_scope = codes "file_commands"

abbrev pub collection : Text
collection = codes "Commands"

abbrev pub header_entries : FileCommandList → List (Text × Text)
header_entries commands =
    (codes "Version", print_int (pos 1))
    ∷ (codes "Count", print_int commands.count)
    ∷ (codes "Default", print_int commands.default_index)
    ∷ []

abbrev pub command_entries : FileCommand → List (Text × Text)
command_entries x = (codes "Name", x.name) ∷ (codes "Command", x.command) ∷ []

-- What stands between store_begin and store_end.
unfoldable pub write_file_commands : FileCommandList → M (Unit {0})
unfolding write_loop
write_file_commands commands =
    write_each (store_clear commands_scope) commands_scope
      (in_section collection (header_entries commands))
    >> write_loop (write_each (pure tt) commands_scope) (codes "Command") command_entries 0
        (presets commands)

abbrev pub command_read_text : Text → Text → ℕ → M Text
command_read_text section key capacity = read_text commands_scope section key capacity

abbrev pub command_read_number : Text → ℕ → M ℕ
command_read_number key maximum = read_number commands_scope collection key maximum

unfoldable pub load_command : Text → M FileCommand
load_command section = do
  name ← command_read_text section (codes "Name") name_cap
  command ← command_read_text section (codes "Command") text_cap
  pure (record { name = name; command = command })

-- `FileCommandList next={0}` once its fields are read.
abbrev pub next_commands : ℕ → ℕ → List FileCommand → FileCommandList
next_commands count default_index items = record {
  items = items ++ replicate (command_limit - count) zeroed;
  count = pos count;
  default_index = pos default_index;
}

-- `file_command_defaults(commands);return store_save_file_commands(commands);`
abbrev pub saved_defaults : Option (Unit {0}) × Store → (Bool × FileCommandList) × Store
saved_defaults (none, s) = ((false, file_command_defaults), s)
saved_defaults (some _, s) = ((true, file_command_defaults), s)

module _ (lstrcmpi : Text → Text → Bool) where
  unfoldable pub store_save_file_commands : FileCommandList → M (Unit {0})
  unfolding write_file_commands
  store_save_file_commands commands s =
      if not (file_command_list_is_valid lstrcmpi commands)
      then (none, s)
      else in_transaction (write_file_commands commands) s

  unfoldable pub load_stored_commands : M FileCommandList
  unfolding load_command read_loop
  load_stored_commands = do
    version ← command_read_number (codes "Version") 1
    require (version == 1)
    count ← command_read_number (codes "Count") command_limit
    require (leb 1 count)
    d ← command_read_number (codes "Default") (command_limit - 1)
    require (ltb d count)
    items ← read_loop load_command (codes "Command") 0 count
    accept (file_command_list_is_valid lstrcmpi) (next_commands count d items)

  abbrev pub load_counted : FileCommandList → Option ℕ × Store → (Bool × FileCommandList) × Store
  load_counted old (none, s) = ((false, old), s)
  load_counted old (some rows, s) =
      if rows == 0
      then saved_defaults (store_save_file_commands file_command_defaults s)
      else loaded old (load_stored_commands s)

  unfoldable pub store_load_file_commands :
      FileCommandList → Store → (Bool × FileCommandList) × Store
  unfolding store_save_file_commands load_stored_commands
  store_load_file_commands old s = load_counted old (store_count commands_scope s)
