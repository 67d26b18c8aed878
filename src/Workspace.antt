-- ===== src/Workspace.antt =====
-- core/workspace.h and core/workspace.c: named workspaces of launcher items, and the move of an
-- item within a workspace or to another one. Text is the characters before the terminator.
pub mod Views
pub mod Targets
pub mod Invariant
pub mod Moves
mod Examples
pub mod Samples
use nova_desktop.Base.{
  ◌>>◌, ◌>>=◌, ℕ, ◌+◌, ◌-◌, Bool, true, false, List, [], ◌∷◌, Option, none, some, ltb, leb, ◌==◌,
  if◌then◌else◌, guard, ℤ, pos, negsuc, index_in, count_in, get_elem?, set, take, memmove,
}
use nova_desktop.Text.{Text, text_eq}

abbrev pub max_workspaces : ℕ
max_workspaces = 8

abbrev pub max_apps : ℕ
max_apps = 20

pub record AppItem : Type 0 where
  pub name : Text
  pub target : Text
  pub id : ℤ

-- `apps` has all `max_apps` cells; the first `app_count` are in use.
pub record Workspace : Type 0 where
  pub name : Text
  pub app_count : ℤ
  pub apps : List AppItem
  pub id : ℤ
  pub items_loaded : Bool

-- The results -1, 0 and 1.
pub data Outcome : Type 0 where
  refused unchanged changed : Outcome

-- `if(at<0)at=to->app_count;if(at>to->app_count)return -1;`
pub target_position : ℤ → ℕ → Option ℕ
target_position (negsuc at) count = some count
target_position (pos at) count = if leb at count then some at else none

-- The loop over the used items that looks for a target.
pub any_target : Text → List AppItem → Bool
any_target t [] = false
any_target t (a ∷ rest) = if text_eq a.target t then true else any_target t rest

-- The move within one workspace of `count` items.
pub reorder : Workspace → ℕ → ℕ → ℕ → AppItem → Outcome × Workspace
reorder w count index at item =
    let at' = if at == count then at - 1 else at in
    if at' == index then (unchanged, w) else (
      changed,
      record w {
        apps =
            set
              (if ltb index at'
                then memmove w.apps index (index + 1) (at' - index)
                else memmove w.apps (at' + 1) at' (index - at'))
              at' item;
      },
    )

-- The move to another workspace: refused if that is full or has the target already.
pub transfer : Workspace → ℕ → ℕ → Workspace → ℕ → ℕ → AppItem → Option (Workspace × Workspace)
transfer from from_count index to to_count at item =
    if to_count == max_apps
    then none
    else if any_target item.target (take to_count to.apps)
    then none
    else some (
      record from {
        apps = memmove from.apps index (index + 1) (from_count - index - 1);
        app_count = pos (from_count - 1);
      },
      record to {
        apps = set (memmove to.apps (at + 1) at (to_count - at)) at item;
        app_count = pos (to_count + 1);
      },
    )

-- What the guards establish: both workspaces with their counts, the item and the position.
pub record Located : Type 0 where
  pub source : ℕ
  pub destination : ℕ
  pub from : Workspace
  pub from_count : ℕ
  pub to : Workspace
  pub to_count : ℕ
  pub index : ℕ
  pub item : AppItem
  pub at : ℕ

-- The early returns. A read beyond the array is refused too; C leaves it undefined.
pub locate : List Workspace → ℤ → ℤ → ℤ → ℤ → ℤ → Option Located
unfolding target_position
locate spaces count source index destination at = do
  n ← count_in count max_workspaces
  guard (leb 1 n)
  s ← index_in source n
  d ← index_in destination n
  from ← get_elem? spaces s
  to ← get_elem? spaces d
  from_count ← count_in from.app_count max_apps
  to_count ← count_in to.app_count max_apps
  i ← index_in index from_count
  p ← target_position at to_count
  item ← get_elem? from.apps i
  some (record {
    source = s;
    destination = d;
    from = from;
    from_count = from_count;
    to = to;
    to_count = to_count;
    index = i;
    item = item;
    at = p;
  })

pub perform : List Workspace → Located → Outcome × List Workspace
perform spaces l =
    if l.source == l.destination
    then (let (outcome, w) = reorder l.from l.from_count l.index l.at l.item in
        (outcome, set spaces l.source w))
    else (elim (transfer l.from l.from_count l.index l.to l.to_count l.at l.item) [
      | none ↦ (refused, spaces)
      | some (from, to) ↦ (changed, set (set spaces l.destination to) l.source from)
    ])

pub workspace_move : List Workspace → ℤ → ℤ → ℤ → ℤ → ℤ → Outcome × List Workspace
workspace_move spaces count source index destination at =
    elim (locate spaces count source index destination at) [
      | none ↦ (refused, spaces)
      | some l ↦ perform spaces l
    ]

abbrev pub count_of : ℤ → ℕ
count_of (pos n) = n
count_of (negsuc n) = 0

-- The items that a workspace shows.
abbrev pub items : Workspace → List AppItem
items w = take (count_of w.app_count) w.apps
