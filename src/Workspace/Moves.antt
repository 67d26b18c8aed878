-- ===== src/Workspace/Moves.antt =====
-- workspace_move of core/workspace.c as a whole.
use nova_desktop.Base.{
  ℕ, ◌≤◌, ◌<◌, ◌≡◌, refl, ◌≢◌, inl, inr, Bool, ◌||◌, List, [], map, map-set, get_elem?-map, none,
  some, arith, ◌∙◌, ◌==◌, if◌then◌else◌, ℤ, pos, length, get_elem?, set, All, erase_at, insert_at,
  set_same, All-set, sum_of, sum_of-set, get_elem?-set_ne, Option-cases, Bool-cases, get_elem?-take,
  length-take, All-get_elem?,
}
use nova_desktop.Workspace.{
  AppItem, Workspace, Outcome, refused, unchanged, changed, Located, any_target, reorder, transfer,
  locate, perform, workspace_move, items, count_of, max_apps, max_workspaces, target_position,
}
use nova_desktop.Workspace.Views.{
  final_position, reorder_unchanged, reorder_changed, transfer_allowed, transfer_refused,
}
use nova_desktop.Workspace.Targets.{tally}
use nova_desktop.Workspace.Invariant.{
  IsValid, IsLocated, locate-IsLocated, reorder-IsValid, transfer-IsValid, tally-reorder,
  tally-transfer, items_reordered, items_transferred,
}

-- To prove something of a move: it holds if nothing is done, after a move within a workspace, and
-- after a move to another one.
module _ {κ} (P : Outcome × List Workspace → Type κ) (spaces : List Workspace) where
  perform_cases :
      (l : Located)
      → P (refused, spaces)
      → (l.source ≡ l.destination
          → let (o, w) = reorder l.from l.from_count l.index l.at l.item in
            P (o, set spaces l.source w))
      → ((from to : Workspace)
          → l.source ≢ l.destination
          → transfer l.from l.from_count l.index l.to l.to_count l.at l.item ≡ some (from, to)
          → P (changed, set (set spaces l.destination to) l.source from))
      → P (perform spaces l)
  unfolding perform
  perform_cases l none_done within across = elim (Bool-cases (l.source == l.destination)) [
    | inl e ↦ rw e (within (ground arith))
    | inr e ↦
        elim (Option-cases (transfer l.from l.from_count l.index l.to l.to_count l.at l.item)) [
          | inl f ↦ rw (e, f) none_done
          | inr ((from, to), f) ↦ rw (e, f) (across from to (ground arith) f)
        ]
  ]

  move_cases :
      (count source index destination at : ℤ)
      → P (refused, spaces)
      → ((l : Located)
          → IsLocated spaces l
          → l.source ≡ l.destination
          → let (o, w) = reorder l.from l.from_count l.index l.at l.item in
            P (o, set spaces l.source w))
      → ((l : Located) (from to : Workspace)
          → IsLocated spaces l
          → l.source ≢ l.destination
          → transfer l.from l.from_count l.index l.to l.to_count l.at l.item ≡ some (from, to)
          → P (changed, set (set spaces l.destination to) l.source from))
      → P (workspace_move spaces count source index destination at)
  unfolding workspace_move
  move_cases count source index destination at none_done within across =
      elim (Option-cases (locate spaces count source index destination at)) [
        | inl e ↦ rw (e, workspace_move) none_done
        | inr (l, e) ↦
            rw (e, workspace_move)
              (perform_cases l none_done (within l (locate-IsLocated spaces _ _ _ _ _ e))
                (λ from to. across l from to (locate-IsLocated spaces _ _ _ _ _ e)))
      ]

-- Whatever its arguments, workspace_move keeps every workspace well formed: all cells there, a count
-- between 0 and MAX_APPS, and no target twice.
pub workspace_move-IsValid :
    (spaces : List Workspace) (count source index destination at : ℤ)
    → All IsValid spaces
    → All IsValid (workspace_move spaces count source index destination at).1
workspace_move-IsValid spaces count source index destination at v =
    move_cases (λ r. All IsValid r.1) spaces count source index destination at v
      (λ l h same. All-set IsValid spaces l.source _ v (reorder-IsValid spaces l v h same))
      (λ l from to h other done.
        let both = transfer-IsValid spaces l v h done in
        All-set IsValid (set spaces l.destination to) l.source from
          (All-set IsValid spaces l.destination to v both.1) both.0)

-- workspace_move loses no item and makes none: for every test on items, as many items pass it in all
-- workspaces together before and after, if the workspaces are well formed.
pub tally-workspace_move :
    (p : AppItem → Bool) (spaces : List Workspace) (count source index destination at : ℤ)
    → All IsValid spaces
    → sum_of (λ w. tally p (items w)) (workspace_move spaces count source index destination at).1
      ≡ sum_of (λ w. tally p (items w)) spaces
tally-workspace_move p spaces count source index destination at v =
    move_cases (λ r. sum_of shown r.1 ≡ sum_of shown spaces) spaces count source index destination
      at refl
      (λ l h same.
        omega (
          arith,
          sum_of-set shown spaces l.source _ h.from_there,
          tally-reorder spaces l v h same p,
        ))
      (λ l from to h other done. omega (
        arith,
        sum_of-set shown (set spaces l.destination to) l.source from
            (get_elem?-set_ne spaces l.destination to l.source other ∙ h.from_there),
        sum_of-set shown spaces l.destination to h.to_there,
        tally-transfer spaces l v h done p,
      ))
  where
    shown : Workspace → ℕ
    shown w = tally p (items w)

-- The items of workspace `k`.
abbrev pub shelf : List (List AppItem) → ℕ → List AppItem
shelf shelves k = elim (get_elem? shelves k) [ none ↦ [] | some xs ↦ xs ]

-- The abstract view: each workspace is the list of its items, of at most MAX_APPS. An item goes to
-- another place of its list, or out of it and into another list that has room and not its target.
pub shelf_move : List (List AppItem) → ℕ → ℕ → ℕ → ℕ → AppItem → Outcome × List (List AppItem)
shelf_move shelves s i d a item =
    let from = shelf shelves s in
    let to = shelf shelves d in
    if s == d
    then (let p = final_position (length from) a in
        if p == i
        then (unchanged, shelves)
        else (changed, set shelves s (insert_at (erase_at from i) p item)))
    else if length to == max_apps || any_target item.target to
    then (refused, shelves)
    else (changed, set (set shelves d (insert_at to a item)) s (erase_at from i))

-- A call whose arguments name an item and a position, in well-formed workspaces.
module _ (spaces : List Workspace) (count s d i a : ℕ) (from to : Workspace) (item : AppItem)
    (v : All IsValid spaces) (counted : count ≤ max_workspaces) (s_within : s < count)
    (d_within : d < count) (from_there : get_elem? spaces s ≡ some from)
    (to_there : get_elem? spaces d ≡ some to) (item_there : get_elem? (items from) i ≡ some item)
    (a_within : a ≤ length (items to)) where
  located : Located
  located = record {
    source = s;
    destination = d;
    from = from;
    from_count = count_of from.app_count;
    to = to;
    to_count = count_of to.app_count;
    index = i;
    item = item;
    at = a;
  }

  from_IsValid : IsValid from
  from_IsValid = All-get_elem? IsValid spaces s v from_there

  to_IsValid : IsValid to
  to_IsValid = All-get_elem? IsValid spaces d v to_there

  locate_found : locate spaces (pos count) (pos s) (pos i) (pos d) (pos a) ≡ some located
  unfolding locate target_position located
  locate_found = ground (
    arith,
    from_IsValid,
    to_IsValid,
    get_elem?-take (count_of from.app_count) from.apps i,
    length-take (count_of to.app_count) to.apps,
  )

  located-IsLocated : IsLocated spaces located
  located-IsLocated = locate-IsLocated spaces _ _ _ _ _ locate_found

  move-perform :
      workspace_move spaces (pos count) (pos s) (pos i) (pos d) (pos a) ≡ perform spaces located
  unfolding workspace_move
  move-perform = rw (locate_found, workspace_move)

  shelf-from : shelf (map items spaces) s ≡ items from
  shelf-from = rw (get_elem?-map items spaces s from_there, shelf)

  shelf-to : shelf (map items spaces) d ≡ items to
  shelf-to = rw (get_elem?-map items spaces d to_there, shelf)

  length-from : length (items from) ≡ count_of from.app_count
  length-from = omega (
    arith,
    length-take (count_of from.app_count) from.apps,
    from_IsValid.cells,
    from_IsValid.within,
  )

  length-to : length (items to) ≡ count_of to.app_count
  length-to =
      omega
        (arith, length-take (count_of to.app_count) to.apps, to_IsValid.cells, to_IsValid.within)

  refines_within :
      s ≡ d
      → (let r = perform spaces located in (r.0, map items r.1))
        ≡ shelf_move (map items spaces) s i d a item
  unfolding perform shelf_move located
  refines_within e = ground (
    arith,
    shelf-from,
    length-from,
    reorder_unchanged from (count_of from.app_count) i a item,
    reorder_changed from (count_of from.app_count) i a item,
    items_reordered spaces located v located-IsLocated e,
    map-set items spaces s (reorder from (count_of from.app_count) i a item).1,
    set_same spaces s from from_there,
  )

  refines_across :
      s ≢ d
      → (let r = perform spaces located in (r.0, map items r.1))
        ≡ shelf_move (map items spaces) s i d a item
  unfolding perform shelf_move located
  refines_across e =
      elim (Option-cases
        (transfer from (count_of from.app_count) i to (count_of to.app_count) a item)) [
          | inl f ↦ ground (
            arith,
            f,
            shelf-to,
            length-to,
            transfer_refused from (count_of from.app_count) i to (count_of to.app_count) a item f,
          )
          | inr ((from', to'), f) ↦ ground (
            arith,
            f,
            shelf-from,
            shelf-to,
            length-to,
            transfer_allowed from (count_of from.app_count) i to (count_of to.app_count) a item f,
            items_transferred spaces located v located-IsLocated f,
            map-set items (set spaces d to') s from',
            map-set items spaces d to',
          )
        ]

-- In well-formed workspaces, for indices in range, workspace_move does to the lists of items what
-- `shelf_move` says, and reports what it says: refused, no change or a change.
pub workspace_move_refines :
    (spaces : List Workspace) (count s d i a : ℕ) (from to : Workspace) (item : AppItem)
    → All IsValid spaces
    → count ≤ max_workspaces
    → s < count
    → d < count
    → get_elem? spaces s ≡ some from
    → get_elem? spaces d ≡ some to
    → get_elem? (items from) i ≡ some item
    → a ≤ length (items to)
    → (let r = workspace_move spaces (pos count) (pos s) (pos i) (pos d) (pos a) in
        (r.0, map items r.1))
      ≡ shelf_move (map items spaces) s i d a item
workspace_move_refines spaces count s d i a from to item v c sw dw fe te ie aw =
    rw (move-perform spaces count s d i a from to item v c sw dw fe te ie aw)
      (elim (Bool-cases (s == d)) [
        | inl e ↦
            refines_within spaces count s d i a from to item v c sw dw fe te ie aw (ground arith)
        | inr e ↦
            refines_across spaces count s d i a from to item v c sw dw fe te ie aw (ground arith)
      ])
