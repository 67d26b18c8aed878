-- ===== src/Workspace/Samples.antt =====
-- Small workspaces for the tests.
use nova_desktop.Base.{◌-◌, refl, true, List, [], ◌∷◌, ◌++◌, arith, pos, ℕ, length, replicate, All}
use nova_desktop.Text.{text_eq}
use nova_desktop.Workspace.{AppItem, Workspace, any_target, max_apps}
use nova_desktop.Workspace.Invariant.{IsValid}

abbrev pub item : ℕ → AppItem
item n = record { name = n ∷ []; target = 100 ∷ n ∷ []; id = pos n }

abbrev pub blank : AppItem
blank = record { name = []; target = []; id = pos 0 }

abbrev pub holding : List AppItem → Workspace
holding xs = record {
  name = 119 ∷ [];
  app_count = pos (length xs);
  apps = xs ++ replicate (max_apps - length xs) blank;
  id = pos 1;
  items_loaded = true;
}

abbrev pub two_workspaces : List Workspace
two_workspaces = holding (item 1 ∷ item 2 ∷ item 3 ∷ []) ∷ holding (item 4 ∷ item 2 ∷ []) ∷ []

pub two_workspaces-IsValid : All IsValid two_workspaces
unfolding any_target text_eq
two_workspaces-IsValid = (
  record {
    cells = refl;
    counted = refl;
    within = omega arith;
    distinct = (refl, (refl, (refl, tt)));
  },
  (
    record { cells = refl; counted = refl; within = omega arith; distinct = (refl, (refl, tt)) },
    tt,
  ),
)
