-- ===== src/Workspace/Views.antt =====
-- What the two kinds of move of core/workspace.c do to the lists of items that the workspaces show.
use nova_desktop.Base.{
  ℕ, ◌+◌, ◌-◌, ◌≤◌, ◌<◌, ◌≡◌, ◌≢◌, false, true, ◌||◌, none, some, arith, ◌==◌, if◌then◌else◌, pos,
  length, get_elem?, take, memmove, erase_at, insert_at, length-set, length-memmove, get_elem?-take,
  take-memmove_down, take-set-memmove_up, take-set-memmove_later, take-set-memmove_earlier,
  insert_at-erase_at_self,
}
use nova_desktop.Workspace.{
  AppItem, Workspace, unchanged, changed, any_target, reorder, transfer, items, max_apps,
}

-- The position of the item once it has been taken out.
abbrev pub final_position : ℕ → ℕ → ℕ
final_position count at = if at == count then at - 1 else at

module _ (w : Workspace) (count index at : ℕ) (item : AppItem) where
  -- Within a workspace the item is taken out and put in at the final position.
  pub items-reorder :
      w.app_count ≡ pos count
      → count ≤ length w.apps
      → index < count
      → at ≤ count
      → get_elem? w.apps index ≡ some item
      → items (reorder w count index at item).1
        ≡ insert_at (erase_at (items w) index) (final_position count at) item
  unfolding reorder
  items-reorder c b i p e = ground (
    arith,
    take-set-memmove_later w.apps index (final_position count at) count item,
    take-set-memmove_earlier w.apps index (final_position count at) count item,
    insert_at-erase_at_self (take count w.apps) index item,
    get_elem?-take count w.apps index,
  )

  -- It reports no change exactly where the item stays.
  pub reorder_unchanged :
      final_position count at ≡ index → reorder w count index at item ≡ (unchanged, w)
  unfolding reorder
  reorder_unchanged h = ground arith

  pub reorder_changed :
      final_position count at ≢ index → (reorder w count index at item).0 ≡ changed
  unfolding reorder
  reorder_changed h = ground arith

  -- Neither the count nor the number of cells changes.
  pub app_count-reorder : (reorder w count index at item).1.app_count ≡ w.app_count
  unfolding reorder
  app_count-reorder = ground arith

  pub length-reorder :
      count ≤ length w.apps
      → index < count
      → at ≤ count
      → length (reorder w count index at item).1.apps ≡ length w.apps
  unfolding reorder
  length-reorder b i p = ground (
    arith,
    length-set (memmove w.apps index (index + 1) (final_position count at - index))
        (final_position count at) item,
    length-set
        (memmove w.apps (final_position count at + 1) (final_position count at)
          (index - final_position count at))
        (final_position count at) item,
    length-memmove w.apps index (index + 1) (final_position count at - index),
    length-memmove w.apps (final_position count at + 1) (final_position count at)
        (index - final_position count at),
  )

module _ (from : Workspace) (from_count index : ℕ) (to : Workspace) (to_count at : ℕ)
    (item : AppItem) {from' to' : Workspace}
    (done : transfer from from_count index to to_count at item ≡ some (from', to')) where
  -- To another workspace: it needs room there and a new target.
  pub transfer_allowed :
      (to_count ≢ max_apps) × (any_target item.target (take to_count to.apps) ≡ false)
  unfolding transfer
  transfer_allowed = ground arith

  -- The item leaves the one list and enters the other at the position.
  pub items-transfer :
      from.app_count ≡ pos from_count
      → to.app_count ≡ pos to_count
      → from_count ≤ length from.apps
      → to_count < length to.apps
      → index < from_count
      → at ≤ to_count
      → (items from' ≡ erase_at (items from) index) × (items to' ≡ insert_at (items to) at item)
  unfolding transfer
  items-transfer cf ct bf bt i p = ground (
    arith,
    take-memmove_down from.apps index from_count,
    take-set-memmove_up to.apps at to_count item,
  )

  pub app_count-transfer :
      (from'.app_count ≡ pos (from_count - 1)) × (to'.app_count ≡ pos (to_count + 1))
  unfolding transfer
  app_count-transfer = ground arith

  pub length-transfer :
      from_count ≤ length from.apps
      → to_count < length to.apps
      → index < from_count
      → at ≤ to_count
      → (length from'.apps ≡ length from.apps) × (length to'.apps ≡ length to.apps)
  unfolding transfer
  length-transfer bf bt i p = ground (
    arith,
    length-memmove from.apps index (index + 1) (from_count - index - 1),
    length-memmove to.apps (at + 1) at (to_count - at),
    length-set (memmove to.apps (at + 1) at (to_count - at)) at item,
  )

pub transfer_refused :
    (from : Workspace) (from_count index : ℕ) (to : Workspace) (to_count at : ℕ) (item : AppItem)
    → transfer from from_count index to to_count at item ≡ none
    → (to_count == max_apps || any_target item.target (take to_count to.apps)) ≡ true
unfolding transfer
transfer_refused from from_count index to to_count at item h = ground arith
