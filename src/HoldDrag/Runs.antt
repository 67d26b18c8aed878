-- ===== src/HoldDrag/Runs.antt =====
-- What holds in every run of the messages of ui/hold_drag.c.
use nova_desktop.Base.{
  ◌≤◌, ◌≡◌, refl, ap, ◌∙◌, true, false, ◌&&◌, ◌||◌, List, [], ◌∷◌, ◌++◌, arith, if◌then◌else◌, ℤ,
  length, All, Bool-cases, inl, inr,
}
use nova_desktop.HoldDrag.{
  HoldDrag, Drop, Answers, Message, left_button_down, timer, mouse_move, left_button_up,
  left_button_double, capture_changed, cancel_mode, kill_focus, key_down, other_message,
  hold_drag_cancel, begin_drag, press, move, release, hold_drag_message,
}
use nova_desktop.HoldDrag.Steps.{
  is_consistent, last_pressed, Holds, FromItem, press-consistent, begin_drag-consistent,
  move-consistent, release-FromItem, press-Holds, begin_drag-Holds, move-Holds,
}

-- Any message keeps the state consistent: a drag goes on only while a press over an item is held, and that is the item of
-- the last press. It calls `drop` at most once, only when a drag was going on, and for that item.
pub hold_drag_message_lem :
    (item : ℤ) (d : HoldDrag) (answers : Answers) (message : Message)
    → is_consistent d ≡ true
    → Holds item d
    → let (consumed, next, drops) = hold_drag_message d answers message in
      (is_consistent next ≡ true)
      × Holds (last_pressed item d answers message) next
      × All (FromItem item) drops
      × (length drops ≤ (if d.dragging then 1 else 0))
unfolding hold_drag_message hold_drag_cancel
hold_drag_message_lem item d answers (left_button_down point) h held =
    (press-consistent d answers point h, press-Holds item d answers point held, tt, omega arith)
hold_drag_message_lem item d answers (timer true) h held =
    elim (Bool-cases (d.armed && d.left_down)) [
      | inl down ↦ rw down (
        begin_drag-consistent d (begin_drag d).hover_workspace h,
        begin_drag-Holds item d (begin_drag d).hover_workspace held,
        tt,
        omega arith,
      )
      | inr let_go ↦ rw let_go (
        (let f : is_consistent (record d { armed = false }) ≡ true = ground arith in f),
        (λ e. cc),
        tt,
        omega arith,
      )
    ]
hold_drag_message_lem item d answers (timer false) h held = (h, held, tt, omega arith)
hold_drag_message_lem item d answers (mouse_move point) h held =
    (move-consistent d answers point h, move-Holds item d answers point held, tt, omega arith)
hold_drag_message_lem item d answers (left_button_up point) h held =
    release-FromItem item d answers h held
hold_drag_message_lem item d answers left_button_double h held = (refl, (λ e. cc), tt, omega arith)
hold_drag_message_lem item d answers (capture_changed true) h held = (h, held, tt, omega arith)
hold_drag_message_lem item d answers (capture_changed false) h held =
    (refl, (λ e. cc), tt, omega arith)
hold_drag_message_lem item d answers cancel_mode h held = (refl, (λ e. cc), tt, omega arith)
hold_drag_message_lem item d answers kill_focus h held = (refl, (λ e. cc), tt, omega arith)
hold_drag_message_lem item d answers (key_down false) h held = (h, held, tt, omega arith)
hold_drag_message_lem item d answers (key_down true) h held =
    elim (Bool-cases (d.armed || d.dragging)) [
      | inl active ↦ rw active (refl, (λ e. cc), tt, omega arith)
      | inr idle ↦ rw idle (h, held, tt, omega arith)
    ]
hold_drag_message_lem item d answers other_message h held = (h, held, tt, omega arith)

-- The calls of the callback in a run of messages, and the state behind it.
abbrev pub run : HoldDrag → List (Answers × Message) → HoldDrag × List Drop
run d [] = (d, [])
run d ((answers, message) ∷ messages) =
    let (consumed, next, drops) = hold_drag_message d answers message in
    let (last, more) = run next messages in (last, drops ++ more)

-- Dragging is switched off, and none is going on.
abbrev pub IsOff : HoldDrag → Type 0
IsOff d = (d.enabled ≡ false) × (d.armed ≡ false) × (d.dragging ≡ false)

message-IsOff :
    (d : HoldDrag) (answers : Answers) (message : Message)
    → IsOff d
    → IsOff (hold_drag_message d answers message).1 × ((hold_drag_message d answers message).2 ≡ [])
unfolding hold_drag_message hold_drag_cancel press move release
message-IsOff d answers (left_button_down point) h = rw (h.0) ((refl, h.1, h.2), refl)
message-IsOff d answers (timer true) h = rw (h.1) ((h.0, refl, h.2), refl)
message-IsOff d answers (timer false) h = (h, refl)
message-IsOff d answers (mouse_move point) h = rw (h.1) ((h.0, refl, h.2), refl)
message-IsOff d answers (left_button_up point) h = rw (h.1) ((h.0, refl, h.2), refl)
message-IsOff d answers left_button_double h = ((h.0, refl, refl), refl)
message-IsOff d answers (capture_changed true) h = (h, refl)
message-IsOff d answers (capture_changed false) h = ((h.0, refl, refl), refl)
message-IsOff d answers cancel_mode h = ((h.0, refl, refl), refl)
message-IsOff d answers kill_focus h = ((h.0, refl, refl), refl)
message-IsOff d answers (key_down false) h = (h, refl)
message-IsOff d answers (key_down true) h = rw (h.1, h.2) ((h.0, refl, refl), refl)
message-IsOff d answers other_message h = (h, refl)

-- While dragging is switched off and none is going on, no message starts one or calls the callback.
pub run-IsOff :
    (d : HoldDrag) (messages : List (Answers × Message))
    → IsOff d
    → IsOff (run d messages).0 × ((run d messages).1 ≡ [])
run-IsOff d [] h = (h, refl)
run-IsOff d ((answers, message) ∷ messages) h =
    let (off, none_now) = message-IsOff d answers message h in
    let (last, none_later) = run-IsOff (hold_drag_message d answers message).1 messages off in
    (
      last,
      ap (λ t. t ++ (run (hold_drag_message d answers message).1 messages).1) none_now ∙ none_later,
    )
