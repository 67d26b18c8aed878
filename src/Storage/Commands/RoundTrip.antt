-- ===== src/Storage/Commands/RoundTrip.antt =====
-- store_load_file_commands of platform/storage.c behind store_save_file_commands.
use nova_desktop.Base.{
  ℕ, ◌+◌, ◌-◌, ◌≡◌, refl, ap, ◌∙◌, Bool, true, false, List, [], none, some, arith, ltb, leb, ◌==◌,
  length, take, replicate, get_elem?, length-take, take-append_exact, subst,
}
use nova_desktop.Text.{Text, IsText, codes, text_eq}
use nova_desktop.Decimal.{to_decimal}
use nova_desktop.Decimal.Signed.{print_int, text_eq-to_decimal}
use nova_desktop.FileCommand.{
  FileCommand, FileCommandList, command_limit, name_cap, text_cap, zeroed,
  file_command_list_is_valid, entries_valid, count_of, presets,
}
use nova_desktop.FileCommand.Laws.{facts, accepted}
use nova_desktop.FileCommand.Entries.{entries_valid-get_elem?}
use nova_desktop.Storage.Table.{Row, find, count_scope, count_scope-find}
use nova_desktop.Storage.{Store, read_number, read_loop, numbered, store_count}
use nova_desktop.Storage.Entries.{find-header, find-section, value_of}
use nova_desktop.Storage.Reads.{calm, read_text_found, read_number_found, read_loop_found}
use nova_desktop.Storage.Commands.{
  commands_scope, collection, header_entries, command_entries, store_save_file_commands,
  load_command, load_stored_commands, store_load_file_commands, next_commands,
}
use nova_desktop.Storage.Commands.Loads.{commands_put, store_save_file_commands_lem}

apart : (j : ℕ) → text_eq collection (numbered (codes "Command") j) ≡ false
unfolding text_eq
apart j = text_eq-to_decimal (codes "s") j refl

module _ (lstrcmpi : Text → Text → Bool) (commands : FileCommandList) (rows : List Row) (s : Store)
    (cells : length commands.items ≡ command_limit)
    (valid : file_command_list_is_valid lstrcmpi commands ≡ true)
    (texts : (i : ℕ) (x : FileCommand)
      → get_elem? (presets commands) i ≡ some x
      → IsText x.name × IsText x.command)
    (put : s.rows ≡ commands_put commands rows) where
  abbrev count : ℕ
  count = count_of commands.count

  abbrev default : ℕ
  default = count_of commands.default_index

  counted : length (presets commands) ≡ count
  counted =
      omega
        (arith, length-take count commands.items, (facts lstrcmpi commands cells valid).3, cells)

  in_header :
      (key v : Text)
      → value_of key (header_entries commands) ≡ some v
      → find (record { scope = commands_scope; section = collection; name = key }) s.rows ≡ some v
  in_header key v e = rw put (
      find-header commands_scope collection (codes "Command") command_entries
        (header_entries commands) (presets commands) rows apart key
      ∙ e)

  in_entry :
      (key : Text) (n : ℕ) (x : FileCommand) (v : Text)
      → get_elem? (presets commands) n ≡ some x
      → value_of key (command_entries x) ≡ some v
      → find
          (record { scope = commands_scope; section = numbered (codes "Command") n; name = key })
          s.rows
        ≡ some v
  in_entry key n x v at e = rw put (
      find-section commands_scope collection (codes "Command") command_entries
        (header_entries commands) (presets commands) rows apart key n at
      ∙ e)

  version_read :
      read_number commands_scope collection (codes "Version") 1 (calm s) ≡ (some 1, calm s)
  unfolding value_of text_eq print_int
  version_read =
      read_number_found s commands_scope collection (codes "Version") 1 1 (omega arith)
        (omega arith) (in_header (codes "Version") (to_decimal 1) refl)

  count_read :
      read_number commands_scope collection (codes "Count") command_limit (calm s)
      ≡ (some count, calm s)
  unfolding value_of text_eq print_int
  count_read =
      read_number_found s commands_scope collection (codes "Count") count command_limit
        (facts lstrcmpi commands cells valid).3 (omega arith)
        (in_header (codes "Count") (to_decimal count)
          (ap (λ z. some (print_int z)) (facts lstrcmpi commands cells valid).0))

  default_read :
      read_number commands_scope collection (codes "Default") (command_limit - 1) (calm s)
      ≡ (some default, calm s)
  unfolding value_of text_eq print_int
  default_read =
      read_number_found s commands_scope collection (codes "Default") default (command_limit - 1)
        (omega
          (arith, (facts lstrcmpi commands cells valid).2, (facts lstrcmpi commands cells valid).3))
        (omega arith)
        (in_header (codes "Default") (to_decimal default)
          (ap (λ z. some (print_int z)) (facts lstrcmpi commands cells valid).1))

  command_read :
      (n : ℕ) (x : FileCommand)
      → get_elem? (presets commands) n ≡ some x
      → load_command (numbered (codes "Command") n) (calm s) ≡ (some x, calm s)
  unfolding load_command value_of text_eq
  command_read n x e =
      let section : Text = numbered (codes "Command") n in
      let fits =
        entries_valid-get_elem? lstrcmpi [] (presets commands) n
          (facts lstrcmpi commands cells valid).4 e in
      rw
        (
          read_text_found s commands_scope section (codes "Name") x.name name_cap (texts n x e).0
              fits.0 (in_entry (codes "Name") n x x.name e refl),
          read_text_found s commands_scope section (codes "Command") x.command text_cap
              (texts n x e).1 fits.1 (in_entry (codes "Command") n x x.command e refl),
        )
        refl

  items_read :
      read_loop load_command (codes "Command") 0 count (calm s) ≡ (some (presets commands), calm s)
  items_read =
      subst
        (λ n.
          read_loop load_command (codes "Command") 0 n (calm s) ≡ (some (presets commands), calm s))
        counted
        (read_loop_found load_command (codes "Command") (calm s) 0 (presets commands) λ n x e.
          subst (λ k. load_command (numbered (codes "Command") k) (calm s) ≡ (some x, calm s))
            (let p : n ≡ 0 + n = omega arith in p) (command_read n x e))

  abbrev next : FileCommandList
  next = next_commands count default (presets commands)

  next_valid : file_command_list_is_valid lstrcmpi next ≡ true
  next_valid =
      let known = facts lstrcmpi commands cells valid in
      accepted lstrcmpi next count default refl refl known.2 known.3 (
        subst (λ n. entries_valid lstrcmpi [] (take n next.items) ≡ true) counted
          (rw (take-append_exact (presets commands) (replicate (command_limit - count) zeroed))
            known.4))

  stored_read : load_stored_commands lstrcmpi (calm s) ≡ (some next, calm s)
  unfolding load_stored_commands
  stored_read =
      let known = facts lstrcmpi commands cells valid in
      let some_preset : leb 1 count ≡ true = ground (arith, known.2) in
      let in_range : ltb default count ≡ true = ground (arith, known.2) in
      rw (version_read, count_read, some_preset, default_read, in_range, items_read, next_valid)
        refl

  not_fresh :
      store_count commands_scope (calm s) ≡ (some (count_scope commands_scope s.rows), calm s)
  unfolding store_count
  not_fresh = refl

  load_lem :
      (old : FileCommandList)
      → store_load_file_commands lstrcmpi old (calm s) ≡ ((true, next), calm s)
  unfolding store_load_file_commands value_of text_eq print_int
  load_lem old =
      let rows_there : count_scope commands_scope s.rows == 0 ≡ false =
        ground
          (arith, count_scope-find _ s.rows (in_header (codes "Version") (to_decimal 1) refl)) in
      rw (not_fresh, rows_there, stored_read) refl

-- Valid presets that a save outside a transaction has stored are loaded again, with all names and
-- commands, the count and the default, once SQLite refuses nothing more. The cells behind the count are
-- cleared.
pub store_load_file_commands-store_save_file_commands :
    (lstrcmpi : Text → Text → Bool) (old commands : FileCommandList) (s : Store)
    → length commands.items ≡ command_limit
    → ((i : ℕ) (x : FileCommand)
        → get_elem? (presets commands) i ≡ some x
        → IsText x.name × IsText x.command)
    → s.snapshot ≡ none
    → (store_save_file_commands lstrcmpi commands s).0 ≡ some tt
    → let s' = calm (store_save_file_commands lstrcmpi commands s).1 in
      store_load_file_commands lstrcmpi old s' ≡ (
        (
          true,
          next_commands
              (count_of commands.count)
              (count_of commands.default_index)
              (presets commands),
        ),
        s',
      )
store_load_file_commands-store_save_file_commands lstrcmpi old commands s cells texts e went =
    let (valid, rows, ended) = (store_save_file_commands_lem lstrcmpi commands s e).0 went in
    load_lem lstrcmpi commands s.rows (store_save_file_commands lstrcmpi commands s).1 cells valid
      texts rows old
