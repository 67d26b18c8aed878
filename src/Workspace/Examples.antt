-- ===== src/Workspace/Examples.antt =====
-- workspace_move of core/workspace.c on two small workspaces.
use nova_desktop.Base.{◌≡◌, refl, [], ◌∷◌, arith, pos, map, All}
use nova_desktop.Workspace.{workspace_move, items}
use nova_desktop.Workspace.Samples.{item, holding, two_workspaces, two_workspaces-IsValid}
use nova_desktop.Workspace.Invariant.{IsValid}
use nova_desktop.Workspace.Moves.{workspace_move-IsValid, workspace_move_refines, shelf_move}

workspace_move-IsValid_example :
    All IsValid (workspace_move two_workspaces (pos 2) (pos 0) (pos 2) (pos 1) (pos 1)).1
workspace_move-IsValid_example =
    workspace_move-IsValid two_workspaces (pos 2) (pos 0) (pos 2) (pos 1) (pos 1)
      two_workspaces-IsValid

workspace_move_refines_example :
    (let r = workspace_move two_workspaces (pos 2) (pos 0) (pos 2) (pos 1) (pos 1) in
      (r.0, map items r.1))
    ≡ shelf_move (map items two_workspaces) 0 2 1 1 (item 3)
workspace_move_refines_example =
    workspace_move_refines two_workspaces 2 0 1 2 1 (holding (item 1 ∷ item 2 ∷ item 3 ∷ []))
      (holding (item 4 ∷ item 2 ∷ [])) (item 3) two_workspaces-IsValid (omega arith) (omega arith)
      (omega arith) refl refl refl (omega arith)
