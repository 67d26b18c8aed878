-- ===== src/HoldDrag/Examples.antt =====
-- The theorems on ui/hold_drag.c at a press that is held, moved and released over a workspace.
use nova_desktop.Base.{◌≤◌, ◌≡◌, refl, true, false, some, pos, negsuc, length, All}
use nova_desktop.HoldDrag.{Point, HoldDrag, Answers, left_button_up, hold_drag_message}
use nova_desktop.HoldDrag.Steps.{is_consistent, Holds, FromItem}
use nova_desktop.HoldDrag.Runs.{hold_drag_message_lem}

-- The first item, and the second workspace.
abbrev answers : Answers
answers = record {
  item = some (pos 0, pos 0);
  workspace = pos 1;
  over_list = false;
  timer_set = true;
  drag_x = pos 4;
  drag_y = pos 4;
}

abbrev origin : Point
origin = record { x = pos 0; y = pos 0 }

-- An item is dragged.
abbrev dragging : HoldDrag
dragging = record {
  source = pos 0;
  source_row = pos 0;
  hover_workspace = negsuc 0;
  armed = true;
  dragging = true;
  enabled = true;
  left_down = true;
  down = origin;
}

hold_drag_message_lem_example :
    let (consumed, next, drops) = hold_drag_message dragging answers (left_button_up origin) in
    (is_consistent next ≡ true)
    × Holds (pos 0) next
    × All (FromItem (pos 0)) drops
    × (length drops ≤ 1)
hold_drag_message_lem_example =
    hold_drag_message_lem (pos 0) dragging answers (left_button_up origin) refl (λ e. refl)
