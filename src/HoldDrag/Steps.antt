-- ===== src/HoldDrag/Steps.antt =====
-- What the parts of hold_drag_message in ui/hold_drag.c keep.
use nova_desktop.Base.{
  ◌≤◌, ◌≡◌, refl, Bool, true, false, not, ◌&&◌, ◌||◌, Option, none, some, arith, if◌then◌else◌, ℤ,
  length, All, Bool-cases, inl, inr,
}
use nova_desktop.HoldDrag.{
  Point, HoldDrag, Drop, Answers, Message, left_button_down, hold_drag_cancel, begin_drag, drag_on,
  is_index, press, move, release, pressed, is_near, at_item,
}

-- A drag has an armed press behind it, and a press that is armed has the button down over an item.
abbrev pub is_consistent : HoldDrag → Bool
is_consistent d = (not d.dragging || d.armed) && (not d.armed || (d.left_down && is_index d.source))

pub press-consistent :
    (d : HoldDrag) (answers : Answers) (point : Point)
    → is_consistent d ≡ true
    → is_consistent (press d answers point).1 ≡ true
unfolding press hold_drag_cancel
press-consistent d answers point h =
    let start : HoldDrag = pressed (hold_drag_cancel d) point answers.item in
    elim (Bool-cases (not d.enabled)) [
      | inl off ↦ rw off h
      | inr on ↦ elim (Bool-cases (is_index start.source)) [
        | inr none_there ↦ rw (on, none_there) (idle answers.item)
        | inl there ↦ elim (Bool-cases answers.timer_set) [
          | inl set ↦ rw (on, there, set) (armed answers.item there)
          | inr unset ↦ rw (on, there, unset) refl
        ]
      ]
    ]
  where
    idle : (item : Option (ℤ × ℤ)) → is_consistent (pressed (hold_drag_cancel d) point item) ≡ true
    idle none = refl
    idle (some (item, row)) = refl

    armed :
        (item : Option (ℤ × ℤ))
        → is_index (pressed (hold_drag_cancel d) point item).source ≡ true
        → is_consistent
            (record (pressed (hold_drag_cancel d) point item) { armed = true; left_down = true })
          ≡ true
    armed none e = cc
    armed (some (item, row)) e = e

pub begin_drag-consistent :
    (d : HoldDrag) (hover : ℤ)
    → is_consistent d ≡ true
    → is_consistent (record (begin_drag d) { hover_workspace = hover }) ≡ true
unfolding begin_drag
begin_drag-consistent d hover h = elim (Bool-cases (not d.armed || not d.left_down || d.dragging)) [
  | inl still ↦ rw still h
  | inr begins ↦ rw begins (ground arith)
]

drag_on-consistent :
    (d : HoldDrag) (hover : ℤ) → is_consistent d ≡ true → is_consistent (drag_on d hover) ≡ true
unfolding drag_on
drag_on-consistent d hover h = go d.dragging
  where
    go :
        (dragging : Bool)
        → is_consistent (record (if dragging then d else begin_drag d) { hover_workspace = hover })
          ≡ true
    go true = h
    go false = begin_drag-consistent d hover h

pub move-consistent :
    (d : HoldDrag) (answers : Answers) (point : Point)
    → is_consistent d ≡ true
    → is_consistent (move d answers point).1 ≡ true
unfolding move
move-consistent d answers point h = elim (Bool-cases (not d.armed)) [
  | inl idle ↦ rw idle h
  | inr armed ↦ elim (Bool-cases (not d.dragging && is_near d answers point)) [
    | inl near ↦ rw (armed, near) h
    | inr far ↦ rw (armed, far) (drag_on-consistent d answers.workspace h)
  ]
]

-- The item of the last press, which a press is only while dragging is enabled.
abbrev pub last_pressed : ℤ → HoldDrag → Answers → Message → ℤ
last_pressed item d answers (left_button_down point) =
    if not d.enabled then item else at_item answers.item
last_pressed item d answers message = item

-- An armed press is of this item.
abbrev pub Holds : ℤ → HoldDrag → Type 0
Holds item d = d.armed ≡ true → d.source ≡ item

-- A call of the callback is for this item, an item of the list.
abbrev pub FromItem : ℤ → Drop → Type 0
FromItem item drop = (drop.source ≡ item) × (is_index drop.source ≡ true)

pub release-FromItem :
    (item : ℤ) (d : HoldDrag) (answers : Answers)
    → is_consistent d ≡ true
    → Holds item d
    → (is_consistent (release d answers).1 ≡ true)
      × Holds item (release d answers).1
      × All (FromItem item) (release d answers).2
      × (length (release d answers).2 ≤ (if d.dragging then 1 else 0))
unfolding release hold_drag_cancel
release-FromItem item d answers h held = elim (Bool-cases (not d.armed)) [
  | inl idle ↦ rw idle (h, held, tt, ground arith)
  | inr armed ↦
      elim (Bool-cases (d.dragging && (is_index answers.workspace || answers.over_list))) [
        | inl drops ↦
            rw (armed, drops)
              (
                refl,
                (λ e. cc),
                (
                  ((held (ground arith)), (let f : is_index d.source ≡ true = ground arith in f)),
                  tt,
                ),
                ground arith,
              )
        | inr nothing ↦ rw (armed, nothing) (refl, (λ e. cc), tt, ground arith)
      ]
]

pressed-source :
    (d : HoldDrag) (point : Point) (item : Option (ℤ × ℤ))
    → (pressed d point item).source ≡ at_item item
pressed-source d point none = refl
pressed-source d point (some (item, row)) = refl

pub press-Holds :
    (item : ℤ) (d : HoldDrag) (answers : Answers) (point : Point)
    → Holds item d
    → Holds (last_pressed item d answers (left_button_down point)) (press d answers point).1
unfolding press hold_drag_cancel
press-Holds item d answers point held =
    let start : HoldDrag = pressed (hold_drag_cancel d) point answers.item in
    let same = pressed-source (hold_drag_cancel d) point answers.item in
    elim (Bool-cases (not d.enabled)) [
      | inl off ↦ rw off held
      | inr on ↦ elim (Bool-cases (is_index start.source)) [
        | inr none_there ↦ rw (on, none_there) (λ e. same)
        | inl there ↦ elim (Bool-cases answers.timer_set) [
          | inl set ↦ rw (on, there, set) (λ e. same)
          | inr unset ↦ rw (on, there, unset) (λ e. cc)
        ]
      ]
    ]

pub begin_drag-Holds :
    (item : ℤ) (d : HoldDrag) (hover : ℤ)
    → Holds item d
    → Holds item (record (begin_drag d) { hover_workspace = hover })
unfolding begin_drag
begin_drag-Holds item d hover held =
    elim (Bool-cases (not d.armed || not d.left_down || d.dragging)) [
      | inl still ↦ rw still held
      | inr begins ↦ rw begins held
    ]

drag_on-Holds : (item : ℤ) (d : HoldDrag) (hover : ℤ) → Holds item d → Holds item (drag_on d hover)
unfolding drag_on
drag_on-Holds item d hover held = go d.dragging
  where
    go :
        (dragging : Bool)
        → Holds item (record (if dragging then d else begin_drag d) { hover_workspace = hover })
    go true = held
    go false = begin_drag-Holds item d hover held

pub move-Holds :
    (item : ℤ) (d : HoldDrag) (answers : Answers) (point : Point)
    → Holds item d
    → Holds item (move d answers point).1
unfolding move
move-Holds item d answers point held = elim (Bool-cases (not d.armed)) [
  | inl idle ↦ rw idle held
  | inr armed ↦ elim (Bool-cases (not d.dragging && is_near d answers point)) [
    | inl near ↦ rw (armed, near) held
    | inr far ↦ rw (armed, far) (drag_on-Holds item d answers.workspace held)
  ]
]
