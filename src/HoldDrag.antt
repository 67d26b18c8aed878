-- ===== src/HoldDrag.antt =====
-- ui/hold_drag.h and ui/hold_drag.c: dragging an application within a list or to a workspace, which begins
-- when the button is held or the pointer moves far enough. A message carries what Windows answers while
-- it is handled; the calls of `drop` are the output. Drawing, cursors and the capture are left out.
mod Steps
pub mod Runs
mod Examples
use nova_desktop.Base.{
  ℕ, ◌+◌, ◌-◌, Bool, true, false, not, ◌&&◌, ◌||◌, List, [], ◌∷◌, Option, none, some, ltb, ◌==◌,
  if◌then◌else◌, ℤ, pos, negsuc,
}

pub record Point : Type 0 where
  pub x : ℤ
  pub y : ℤ

pub record HoldDrag : Type 0 where
  pub source : ℤ
  pub source_row : ℤ
  pub hover_workspace : ℤ
  pub armed : Bool
  pub dragging : Bool
  pub enabled : Bool
  pub left_down : Bool
  pub down : Point

-- A call of the callback: `source,destination_workspace,destination_index`.
pub record Drop : Type 0 where
  pub source : ℤ
  pub destination_workspace : ℤ
  pub destination_index : ℤ

-- What Windows answers: the item and the row at the point (item_at), the workspace there (workspace_at), whether
-- the point is over the list, whether a timer is set, and the metrics SM_CXDRAG and SM_CYDRAG.
pub record Answers : Type 0 where
  pub item : Option (ℤ × ℤ)
  pub workspace : ℤ
  pub over_list : Bool
  pub timer_set : Bool
  pub drag_x : ℤ
  pub drag_y : ℤ

-- The messages that are looked at. `timer` and `key_down` say whether it is the own timer and Escape,
-- `capture_changed` whether the list still has the capture.
pub data Message : Type 0 where
  left_button_down : Point → Message
  timer : Bool → Message
  mouse_move : Point → Message
  left_button_up : Point → Message
  left_button_double : Message
  capture_changed : Bool → Message
  cancel_mode : Message
  kill_focus : Message
  key_down : Bool → Message
  other_message : Message

pub hold_drag_init : HoldDrag
hold_drag_init = record {
  source = negsuc 0;
  source_row = negsuc 0;
  hover_workspace = negsuc 0;
  armed = false;
  dragging = false;
  enabled = true;
  left_down = false;
  down = record { x = pos 0; y = pos 0 };
}

pub hold_drag_cancel : HoldDrag → HoldDrag
hold_drag_cancel d = record d {
  armed = false;
  dragging = false;
  left_down = false;
  source = negsuc 0;
  source_row = negsuc 0;
  hover_workspace = negsuc 0;
}

pub begin_drag : HoldDrag → HoldDrag
begin_drag d =
    if not d.armed || not d.left_down || d.dragging then d else record d { dragging = true }

-- `v>=0`
abbrev pub is_index : ℤ → Bool
is_index (pos n) = true
is_index (negsuc n) = false

-- `abs(a-b)`
abbrev pub distance : ℤ → ℤ → ℕ
distance (pos a) (pos b) = if ltb a b then b - a else a - b
distance (negsuc a) (negsuc b) = if ltb a b then b - a else a - b
distance (pos a) (negsuc b) = a + b + 1
distance (negsuc a) (pos b) = a + b + 1

-- `if(threshold<1)threshold=1`
abbrev pub threshold : ℤ → ℕ
threshold (pos n) = if n == 0 then 1 else n
threshold (negsuc n) = 1

-- The item at the point, -1 where there is none; the row is written only with it.
abbrev pub pressed : HoldDrag → Point → Option (ℤ × ℤ) → HoldDrag
pressed d point none = record d { down = point; source = negsuc 0 }
pressed d point (some (item, row)) = record d { down = point; source = item; source_row = row }

abbrev pub at_item : Option (ℤ × ℤ) → ℤ
at_item none = negsuc 0
at_item (some (item, row)) = item

pub press : HoldDrag → Answers → Point → Bool × HoldDrag
unfolding hold_drag_cancel
press d answers point =
    if not d.enabled
    then (false, d)
    else let start = pressed (hold_drag_cancel d) point answers.item in
      if is_index start.source
      then (
        true,
        if answers.timer_set
            then record start { armed = true; left_down = true }
            else hold_drag_cancel (record start { armed = true; left_down = true }),
      )
      else (false, start)

-- `abs(point.x-d->down.x)<threshold_x&&abs(point.y-d->down.y)<threshold_y`
abbrev pub is_near : HoldDrag → Answers → Point → Bool
is_near d answers point =
    ltb (distance point.x d.down.x) (threshold answers.drag_x)
    && ltb (distance point.y d.down.y) (threshold answers.drag_y)

-- A drag that begins or goes on, and the workspace under the pointer.
pub drag_on : HoldDrag → ℤ → HoldDrag
unfolding begin_drag
drag_on d hover = record (if d.dragging then d else begin_drag d) { hover_workspace = hover }

pub move : HoldDrag → Answers → Point → Bool × HoldDrag
move d answers point =
    if not d.armed
    then (false, d)
    else if not d.dragging && is_near d answers point
    then (true, d)
    else (true, drag_on d answers.workspace)

pub release : HoldDrag → Answers → Bool × HoldDrag × List Drop
unfolding hold_drag_cancel
release d answers =
    if not d.armed
    then (false, d, [])
    else let over_workspace = is_index answers.workspace in
      let valid = over_workspace || answers.over_list in
      let drop : Drop = record {
        source = d.source;
        destination_workspace = answers.workspace;
        destination_index = if over_workspace then negsuc 0 else at_item answers.item;
      } in
      (d.dragging, hold_drag_cancel d, if d.dragging && valid then drop ∷ [] else [])

-- Whether the message is consumed, the state behind it, and the calls of `drop`.
pub hold_drag_message : HoldDrag → Answers → Message → Bool × HoldDrag × List Drop
unfolding press move release begin_drag hold_drag_cancel
hold_drag_message d answers (left_button_down point) =
    let (consumed, next) = press d answers point in (consumed, next, [])
hold_drag_message d answers (timer true) =
    (true, if d.armed && d.left_down then begin_drag d else record d { armed = false }, [])
hold_drag_message d answers (timer false) = (false, d, [])
hold_drag_message d answers (mouse_move point) =
    let (consumed, next) = move d answers point in (consumed, next, [])
hold_drag_message d answers (left_button_up point) = release d answers
hold_drag_message d answers left_button_double = (false, hold_drag_cancel d, [])
hold_drag_message d answers (capture_changed true) = (false, d, [])
hold_drag_message d answers (capture_changed false) = (false, hold_drag_cancel d, [])
hold_drag_message d answers cancel_mode = (false, hold_drag_cancel d, [])
hold_drag_message d answers kill_focus = (false, hold_drag_cancel d, [])
hold_drag_message d answers (key_down false) = (false, d, [])
hold_drag_message d answers (key_down true) =
    if d.armed || d.dragging then (true, hold_drag_cancel d, []) else (false, d, [])
hold_drag_message d answers other_message = (false, d, [])
