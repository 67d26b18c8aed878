-- ===== src/FileCommand/Laws.antt =====
-- What file_command_list_is_valid of core/file_command.c asks of a list.
use nova_desktop.Base.{ℕ, ◌≤◌, ◌<◌, ◌≡◌, Bool, true, [], arith, pos, length, take}
use nova_desktop.Text.{Text}
use nova_desktop.FileCommand.{
  FileCommandList, command_limit, entries_valid, file_command_list_is_valid, count_of, presets,
}

pub accepted :
    (lstrcmpi : Text → Text → Bool) (commands : FileCommandList) (count d : ℕ)
    → commands.count ≡ pos count
    → commands.default_index ≡ pos d
    → d < count
    → count ≤ command_limit
    → entries_valid lstrcmpi [] (take count commands.items) ≡ true
    → file_command_list_is_valid lstrcmpi commands ≡ true
unfolding file_command_list_is_valid
accepted lstrcmpi commands count d c e le within entries = ground arith

module _ (lstrcmpi : Text → Text → Bool) (commands : FileCommandList)
    (cells : length commands.items ≡ command_limit)
    (valid : file_command_list_is_valid lstrcmpi commands ≡ true) where
  pub facts :
      (commands.count ≡ pos (count_of commands.count))
      × (commands.default_index ≡ pos (count_of commands.default_index))
      × (count_of commands.default_index < count_of commands.count)
      × (count_of commands.count ≤ command_limit)
      × (entries_valid lstrcmpi [] (presets commands) ≡ true)
  unfolding file_command_list_is_valid
  facts = ground arith
