-- ===== src/Storage/Preferences.antt =====
-- The checks of numbers and texts in platform/storage.c when the store is opened: validate_number and
-- validate_preferences.
pub mod Ranges
use nova_desktop.Base.{
  ℕ, zero, suc, ◌+◌, ◌-◌, Bool, true, false, ◌&&◌, not, List, [], ◌∷◌, none, some, ltb, leb, ◌==◌,
  if◌then◌else◌, ℤ, pos, negsuc, length,
}
use nova_desktop.Text.{Text, c_str, codes, first, text_eq}
use nova_desktop.Decimal.Signed.{wcsto, long_max}
use nova_desktop.Workspace.{max_workspaces}
use nova_desktop.Storage.Table.{Row}
use nova_desktop.Storage.{
  fine, unprepared, failing, M, ◌>>=◌, ◌>>◌, pure, require, Selected, not_prepared, not_stepped,
  no_row, row, select_value, get_int, coming, passed, failed, numbered,
}

abbrev pub in_bounds : ℤ → ℕ → ℕ → Bool
in_bounds (pos n) minimum maximum = leb minimum n && leb n maximum
in_bounds (negsuc n) minimum maximum = false

-- `text&&text[0]&&end!=text&&!*end&&errno!=ERANGE&&bytes<64*...&&value>=minimum&&value<=maximum`. An
-- `end` at the terminator of a text that is not empty is not its start.
abbrev pub number_ok : ℕ → ℕ → Text → Bool
number_ok minimum maximum cells =
    let (value, errno, end) = wcsto long_max (c_str cells) in
    not (first (c_str cells) == 0)
    && first end == 0
    && not errno
    && ltb (length cells) 64
    && in_bounds value minimum maximum

abbrev pub selected_ok : ℕ → ℕ → Selected → Bool
selected_ok minimum maximum not_prepared = false
selected_ok minimum maximum not_stepped = false
selected_ok minimum maximum no_row = true
selected_ok minimum maximum (row cells) = number_ok minimum maximum cells

unfoldable pub validate_number : Text → Text → Text → ℕ → ℕ → M (Unit {0})
unfolding select_value
validate_number scope section key minimum maximum s =
    let (found, s') = select_value scope section key s in
    (if selected_ok minimum maximum found then some tt else none, s')

-- A key with its least and its greatest value.
unfoldable pub validate_all : Text → Text → List (Text × ℕ × ℕ) → M (Unit {0})
unfolding validate_number
validate_all scope section [] = pure tt
validate_all scope section ((key, minimum, maximum) ∷ rest) =
    validate_number scope section key minimum maximum >> validate_all scope section rest

-- `store_int(...,L"Selected",0)>=store_int(...,L"Count",1)` does not hold.
abbrev pub less : ℤ → ℤ → Bool
less (pos a) (pos b) = ltb a b
less (pos a) (negsuc b) = false
less (negsuc a) (pos b) = true
less (negsuc a) (negsuc b) = ltb b a

abbrev pub pane_numbers : List (Text × ℕ × ℕ)
pane_numbers = (codes "Count", 1, 12) ∷ (codes "Selected", 0, 11) ∷ (codes "ServerMode", 0, 1) ∷ []

-- One of the four panes.
unfoldable pub validate_pane : Text → M (Unit {0})
unfolding validate_all
validate_pane section =
    validate_all (codes "files") section pane_numbers
    >> get_int (codes "files") section (codes "Selected") (pos 0)
    >>= λ selected. get_int (codes "files") section (codes "Count") (pos 1) >>= λ count.
        require (less selected count)

unfoldable pub validate_panes : ℕ → ℕ → M (Unit {0})
unfolding validate_pane
validate_panes i zero = pure tt
validate_panes i (suc n) = validate_pane (numbered (codes "Pane") i) >> validate_panes (i + 1) n

-- Every value of the scope fits in 2048 characters.
unfoldable pub values_fit : Text → List Row → Bool
values_fit scope [] = true
values_fit scope (r ∷ rs) =
    (if text_eq scope r.key.scope then ltb (length r.value) 2048 else true) && values_fit scope rs

-- `while((rc=sqlite3_step(s))==SQLITE_ROW)`; `rc==SQLITE_DONE` fails where a step is refused.
unfoldable pub validate_values : M (Unit {0})
unfolding values_fit
validate_values s = if not s.is_open then (none, s) else (elim (coming s.outcomes) [
  | unprepared ↦ (none, failed s)
  | failing ↦ (none, passed s)
  | fine ↦ (if values_fit (codes "files") s.rows then some tt else none, passed s)
])

abbrev pub app_numbers : List (Text × ℕ × ℕ)
app_numbers =
    (codes "AlwaysOnTop", 0, 1)
    ∷ (codes "DesktopMode", 0, 1)
    ∷ (codes "Language", 0, 1)
    ∷ (codes "SidebarCollapsed", 0, 1)
    ∷ (codes "Active", 0, max_workspaces - 1)
    ∷ []

unfoldable pub validate_preferences : M (Unit {0})
unfolding validate_panes validate_values
validate_preferences =
    validate_all (codes "app") (codes "Nova") app_numbers
    >> validate_all (codes "files") (codes "Manager") (
        (codes "Layout", 0, 11)
        ∷ (codes "NavigationTree", 0, 1)
        ∷ (codes "Migrated", 0, 1)
        ∷ (codes "FavoriteCount", 0, 32)
        ∷ [])
    >> validate_panes 0 4
    >> validate_values
