-- ===== src/FileCommand/Entries.antt =====
-- The entries that file_command_list_is_valid of core/file_command.c accepts.
use nova_desktop.Base.{
  ℕ, zero, suc, ◌≡◌, Bool, true, List, [], ◌∷◌, arith, some, get_elem?, length, subst, ◌<◌,
}
use nova_desktop.Text.{Text}
use nova_desktop.FileCommand.{FileCommand, name_cap, text_cap, is_entry, entries_valid}

module _ (lstrcmpi : Text → Text → Bool) where
  -- Every preset of a valid list has text that fits.
  pub entries_valid-get_elem? :
      (earlier xs : List FileCommand) (i : ℕ) {x : FileCommand}
      → entries_valid lstrcmpi earlier xs ≡ true
      → get_elem? xs i ≡ some x
      → (length x.name < name_cap) × (length x.command < text_cap)
  unfolding entries_valid is_entry
  entries_valid-get_elem? earlier [] i h e = cc
  entries_valid-get_elem? earlier (y ∷ xs) zero {x} h e =
      let same : y ≡ x = cc in
      subst (λ z. (length z.name < name_cap) × (length z.command < text_cap)) same
        (ground arith, ground arith)
  entries_valid-get_elem? earlier (y ∷ xs) (suc i) {x} h e =
      entries_valid-get_elem? (y ∷ earlier) xs i (ground arith) e
