-- ===== src/Workspace/Invariant.antt =====
-- What workspace_move keeps: the well-formedness of every workspace, and the items all together.
use nova_desktop.Base.{
  ◌+◌, ◌-◌, ◌≤◌, ◌<◌, ◌≡◌, Bool, false, List, some, arith, ap, ◌∙◌, All-get_elem?, ℤ, pos, length,
  get_elem?, All, erase_at, insert_at, get_elem?-take,
}
use nova_desktop.Workspace.{
  AppItem, Workspace, Located, any_target, reorder, transfer, locate, items, count_of, max_apps,
}
use nova_desktop.Workspace.Views.{
  final_position, items-reorder, app_count-reorder, length-reorder, transfer_allowed,
  items-transfer, app_count-transfer, length-transfer,
}
use nova_desktop.Workspace.Targets.{
  Distinct, erase_at-Distinct, insert_at-Distinct, any_target-erase_at_self, tally, tally-insert_at,
  tally-erase_at,
}

pub record IsValid (w : Workspace) : Type 0 where
  pub cells : length w.apps ≡ max_apps
  pub counted : w.app_count ≡ pos (count_of w.app_count)
  pub within : count_of w.app_count ≤ max_apps
  pub distinct : Distinct (items w)

-- What the guards have established, as `locate` hands it on.
pub record IsLocated (spaces : List Workspace) (l : Located) : Type 0 where
  pub from_there : get_elem? spaces l.source ≡ some l.from
  pub to_there : get_elem? spaces l.destination ≡ some l.to
  pub from_counted : l.from.app_count ≡ pos l.from_count
  pub to_counted : l.to.app_count ≡ pos l.to_count
  pub from_within : l.from_count ≤ max_apps
  pub to_within : l.to_count ≤ max_apps
  pub index_within : l.index < l.from_count
  pub at_within : l.at ≤ l.to_count
  pub item_there : get_elem? l.from.apps l.index ≡ some l.item

pub locate-IsLocated :
    (spaces : List Workspace) (count source index destination at : ℤ) {l : Located}
    → locate spaces count source index destination at ≡ some l
    → IsLocated spaces l
unfolding locate
locate-IsLocated spaces count source index destination at h = ground arith

module _ (spaces : List Workspace) (l : Located) (v : All IsValid spaces)
    (h : IsLocated spaces l) where
  pub from-IsValid : IsValid l.from
  from-IsValid = All-get_elem? IsValid spaces l.source v h.from_there

  pub to-IsValid : IsValid l.to
  to-IsValid = All-get_elem? IsValid spaces l.destination v h.to_there

  pub count-from : count_of l.from.app_count ≡ l.from_count
  count-from = ap count_of h.from_counted

  pub count-to : count_of l.to.app_count ≡ l.to_count
  count-to = ap count_of h.to_counted

  -- The item is one of those that its workspace shows.
  pub item_shown : get_elem? (items l.from) l.index ≡ some l.item
  item_shown = ground (
    arith,
    get_elem?-take (count_of l.from.app_count) l.from.apps l.index,
    count-from,
    h.index_within,
    h.item_there,
  )

  module _ (same : l.source ≡ l.destination) where
    -- Within one workspace the two counts are the same.
    pub at_bound : l.at ≤ l.from_count
    at_bound = ground (arith, same, h, count-from, count-to)

    pub items_reordered :
        items (reorder l.from l.from_count l.index l.at l.item).1
        ≡ insert_at (erase_at (items l.from) l.index) (final_position l.from_count l.at) l.item
    items_reordered =
        items-reorder l.from l.from_count l.index l.at l.item h.from_counted
          (omega (arith, from-IsValid.cells, h.from_within)) h.index_within at_bound h.item_there

    pub reorder-IsValid : IsValid (reorder l.from l.from_count l.index l.at l.item).1
    reorder-IsValid = record {
      cells =
          length-reorder l.from l.from_count l.index l.at l.item
            (omega (arith, from-IsValid.cells, h.from_within)) h.index_within at_bound
          ∙ from-IsValid.cells;
      counted = rw app_count-reorder from-IsValid.counted;
      within = rw app_count-reorder from-IsValid.within;
      distinct = rw items_reordered (
          insert_at-Distinct (erase_at (items l.from) l.index) _ l.item
            (erase_at-Distinct (items l.from) l.index from-IsValid.distinct)
            (any_target-erase_at_self (items l.from) l.index l.item from-IsValid.distinct
              item_shown));
    }

    pub tally-reorder :
        (p : AppItem → Bool)
        → tally p (items (reorder l.from l.from_count l.index l.at l.item).1)
          ≡ tally p (items l.from)
    tally-reorder p = rw items_reordered (
        omega (
          arith,
          tally-insert_at p (erase_at (items l.from) l.index) (final_position l.from_count l.at)
              l.item,
          tally-erase_at p (items l.from) l.index l.item item_shown,
        ))

  module _ {from' to' : Workspace}
      (done : transfer l.from l.from_count l.index l.to l.to_count l.at l.item
        ≡ some (from', to')) where
    pub room : l.to_count < max_apps
    room = omega (
      arith,
      h.to_within,
      (transfer_allowed l.from l.from_count l.index l.to l.to_count l.at l.item done).0,
    )

    pub items_transferred :
        (items from' ≡ erase_at (items l.from) l.index)
        × (items to' ≡ insert_at (items l.to) l.at l.item)
    items_transferred =
        items-transfer l.from l.from_count l.index l.to l.to_count l.at l.item done h.from_counted
          h.to_counted (omega (arith, from-IsValid.cells, h.from_within))
          (omega (arith, to-IsValid.cells, room)) h.index_within h.at_within

    counts_transferred :
        (from'.app_count ≡ pos (l.from_count - 1)) × (to'.app_count ≡ pos (l.to_count + 1))
    counts_transferred =
        app_count-transfer l.from l.from_count l.index l.to l.to_count l.at l.item done

    cells_transferred :
        (length from'.apps ≡ length l.from.apps) × (length to'.apps ≡ length l.to.apps)
    cells_transferred =
        length-transfer l.from l.from_count l.index l.to l.to_count l.at l.item done
          (omega (arith, from-IsValid.cells, h.from_within)) (omega (arith, to-IsValid.cells, room))
          h.index_within h.at_within

    pub target_new : any_target l.item.target (items l.to) ≡ false
    target_new =
        rw count-to
          (transfer_allowed l.from l.from_count l.index l.to l.to_count l.at l.item done).1

    pub transfer-IsValid : IsValid from' × IsValid to'
    transfer-IsValid = (
      record {
        cells = cells_transferred.0 ∙ from-IsValid.cells;
        counted = rw counts_transferred.0;
        within = rw counts_transferred.0 (omega (arith, h.from_within));
        distinct =
            rw items_transferred.0 (erase_at-Distinct (items l.from) l.index from-IsValid.distinct);
      },
      record {
        cells = cells_transferred.1 ∙ to-IsValid.cells;
        counted = rw counts_transferred.1;
        within = rw counts_transferred.1 (omega (arith, room));
        distinct =
            rw items_transferred.1
              (insert_at-Distinct (items l.to) l.at l.item to-IsValid.distinct target_new);
      },
    )

    pub tally-transfer :
        (p : AppItem → Bool)
        → tally p (items from') + tally p (items to')
          ≡ tally p (items l.from) + tally p (items l.to)
    tally-transfer p =
        rw (items_transferred.0, items_transferred.1)
          (omega (
            arith,
            tally-insert_at p (items l.to) l.at l.item,
            tally-erase_at p (items l.from) l.index l.item item_shown,
          ))
