-- ===== src/FileCommand.antt =====
-- core/file_command.h and core/file_command.c: the command presets of the file panes. A name or command
-- is the string that its array holds; lstrcmpiW depends on the locale and is a parameter.
pub mod Entries
pub mod Laws
use nova_desktop.Base.{
  ℕ, ◌+◌, ◌-◌, Bool, true, false, ◌&&◌, ◌||◌, not, List, [], ◌∷◌, none, some, ltb, leb, ◌==◌,
  if◌then◌else◌, ℤ, pos, negsuc, count_in, index_in, length, replicate, set, take, memmove,
}
use nova_desktop.Text.{Text, codes}

abbrev pub command_limit : ℕ
command_limit = 16

abbrev pub name_cap : ℕ
name_cap = 64

abbrev pub text_cap : ℕ
text_cap = 2048

pub record FileCommand : Type 0 where
  pub name : Text
  pub command : Text

-- `items` has all `command_limit` cells.
pub record FileCommandList : Type 0 where
  pub items : List FileCommand
  pub count : ℤ
  pub default_index : ℤ

-- The results 1, 0 and -1 of file_command_add.
pub data Added : Type 0 where
  added duplicate invalid : Added

-- An entry of zeros.
abbrev pub zeroed : FileCommand
zeroed = record { name = []; command = [] }

unfoldable pub has_text : Text → Bool
has_text [] = false
has_text (c ∷ cs) = if c == b' ' || c == 9 || c == 13 || c == 10 then has_text cs else true

pub file_command_defaults : FileCommandList
file_command_defaults = record {
  items = record { name = codes "cmd.exe"; command = codes "cd ." } ∷ replicate 15 zeroed;
  count = pos 1;
  default_index = pos 0;
}

-- `lstrcpynW(to,s,cap)`
abbrev pub lstrcpyn : Text → ℕ → Text
lstrcpyn s cap = take (cap - 1) s

-- Text in the name and the command, and both within their arrays.
unfoldable pub is_entry : Text → Text → Bool
is_entry name command =
    has_text name && has_text command && ltb (length name) name_cap && ltb (length command) text_cap

abbrev pub append_entry : FileCommandList → ℕ → Text → Text → FileCommandList
append_entry commands count name command = record commands {
  items =
      set commands.items count
        (record { name = lstrcpyn name name_cap; command = lstrcpyn command text_cap });
  count = pos (count + 1);
  default_index = if count == 0 then pos 0 else commands.default_index;
}

module _ (lstrcmpi : Text → Text → Bool) where
  -- `!lstrcmpiW(name,items[j].name)` for some entry of the list.
  unfoldable pub is_taken : Text → List FileCommand → Bool
  is_taken name [] = false
  is_taken name (x ∷ xs) = if lstrcmpi name x.name then true else is_taken name xs

  -- The loop of file_command_list_is_valid; `earlier` are the entries passed.
  unfoldable pub entries_valid : List FileCommand → List FileCommand → Bool
  entries_valid earlier [] = true
  entries_valid earlier (x ∷ xs) =
      is_entry x.name x.command && not (is_taken x.name earlier) && entries_valid (x ∷ earlier) xs

  unfoldable pub file_command_list_is_valid : FileCommandList → Bool
  unfolding entries_valid
  file_command_list_is_valid commands = elim (count_in commands.count command_limit) [
    | none ↦ false
    | some count ↦ elim (index_in commands.default_index count) [
      | none ↦ false
      | some d ↦ leb 1 count && entries_valid [] (take count commands.items)
    ]
  ]

  pub file_command_add : FileCommandList → Text → Text → Added × FileCommandList
  unfolding is_taken is_entry
  file_command_add commands name command = elim (count_in commands.count (command_limit - 1)) [
    | none ↦ (invalid, commands)
    | some count ↦
        if not (is_entry name command)
        then (invalid, commands)
        else if is_taken name (take count commands.items)
        then (duplicate, commands)
        else (added, append_entry commands count name command)
  ]

-- `default_index` when entry `index` goes: the first entry if it was the default, and one less if it
-- stands behind.
abbrev pub default_after : ℤ → ℕ → ℤ
default_after (pos d) index =
    if d == index then pos 0 else if ltb index d then pos (d - 1) else pos d
default_after (negsuc d) index = negsuc d

-- A negative count leaves no index in range.
abbrev pub count_of : ℤ → ℕ
count_of (pos n) = n
count_of (negsuc n) = 0

-- The entries behind move up by one, and the last cell is cleared.
abbrev pub remove_at : FileCommandList → ℕ → FileCommandList
remove_at commands i =
    let count = count_of commands.count in
    record {
      items = set (memmove commands.items i (i + 1) (count - i - 1)) (count - 1) zeroed;
      count = pos (count - 1);
      default_index = default_after commands.default_index i;
    }

-- `count<=1||index<0||index>=count` returns.
pub file_command_remove : FileCommandList → ℤ → Bool × FileCommandList
file_command_remove commands index = elim (index_in index (count_of commands.count)) [
  | none ↦ (false, commands)
  | some i ↦
      if leb (count_of commands.count) 1 then (false, commands) else (true, remove_at commands i)
]

-- The presets that are shown.
abbrev pub presets : FileCommandList → List FileCommand
presets commands = take (count_of commands.count) commands.items
