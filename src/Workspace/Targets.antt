-- ===== src/Workspace/Targets.antt =====
-- The targets in a list of launcher items, and how often an item occurs, under the list operations
-- that the moves of core/workspace.c amount to.
use nova_desktop.Base.{
  ℕ, zero, suc, ◌+◌, ◌≡◌, refl, Bool, false, List, [], ◌∷◌, some, arith, if◌then◌else◌, get_elem?,
  erase_at, insert_at,
}
use nova_desktop.Text.{Text, text_eq, text_eq_comm}
use nova_desktop.Workspace.{AppItem, any_target}

-- No two items have one target.
abbrev pub Distinct : List AppItem → Type 0
Distinct [] = Unit
Distinct (a ∷ rest) = (any_target a.target rest ≡ false) × Distinct rest

any_target-erase_at :
    (t : Text) (xs : List AppItem) (i : ℕ)
    → any_target t xs ≡ false
    → any_target t (erase_at xs i) ≡ false
unfolding any_target
any_target-erase_at t [] i h = h
any_target-erase_at t (x ∷ xs) zero h = ground arith
any_target-erase_at t (x ∷ xs) (suc i) h = ground (arith, any_target-erase_at t xs i)

any_target-insert_at :
    (t : Text) (xs : List AppItem) (i : ℕ) (v : AppItem)
    → any_target t xs ≡ false
    → text_eq v.target t ≡ false
    → any_target t (insert_at xs i v) ≡ false
unfolding any_target
any_target-insert_at t xs zero v h e = ground arith
any_target-insert_at t [] (suc i) v h e = ground arith
any_target-insert_at t (x ∷ xs) (suc i) v h e = ground (arith, any_target-insert_at t xs i v)

pub erase_at-Distinct : (xs : List AppItem) (i : ℕ) → Distinct xs → Distinct (erase_at xs i)
erase_at-Distinct [] i d = tt
erase_at-Distinct (x ∷ xs) zero d = d.1
erase_at-Distinct (x ∷ xs) (suc i) d =
    (any_target-erase_at x.target xs i d.0, erase_at-Distinct xs i d.1)

pub insert_at-Distinct :
    (xs : List AppItem) (i : ℕ) (v : AppItem)
    → Distinct xs
    → any_target v.target xs ≡ false
    → Distinct (insert_at xs i v)
unfolding any_target
insert_at-Distinct xs zero v d h = (h, d)
insert_at-Distinct [] (suc i) v d h = (refl, tt)
insert_at-Distinct (x ∷ xs) (suc i) v d h = (
  any_target-insert_at x.target xs i v d.0 (ground (arith, text_eq_comm v.target x.target)),
  insert_at-Distinct xs i v d.1 (ground arith),
)

-- In a list of distinct targets an item's own target goes with the item.
pub any_target-erase_at_self :
    (xs : List AppItem) (i : ℕ) (v : AppItem)
    → Distinct xs
    → get_elem? xs i ≡ some v
    → any_target v.target (erase_at xs i) ≡ false
unfolding any_target
any_target-erase_at_self [] i v d e = cc
any_target-erase_at_self (x ∷ xs) zero v d e = ground arith
any_target-erase_at_self (x ∷ xs) (suc i) v d e =
    ground (arith, any_target-erase_at_self xs i v d.1 e, target_differs xs i d.0 e)
  where
    target_differs :
        (ys : List AppItem) (k : ℕ)
        → any_target x.target ys ≡ false
        → get_elem? ys k ≡ some v
        → text_eq x.target v.target ≡ false
    target_differs [] k h g = cc
    target_differs (y ∷ ys) zero h g = ground (arith, text_eq_comm x.target y.target)
    target_differs (y ∷ ys) (suc k) h g = target_differs ys k (ground arith) g

-- How many items pass a test: the multiset of items, without their order.
module _ (p : AppItem → Bool) where
  abbrev pub tally : List AppItem → ℕ
  tally [] = 0
  tally (a ∷ rest) = (if p a then 1 else 0) + tally rest

  pub tally-insert_at :
      (xs : List AppItem) (i : ℕ) (v : AppItem)
      → tally (insert_at xs i v) ≡ (if p v then 1 else 0) + tally xs
  tally-insert_at xs zero v = refl
  tally-insert_at [] (suc i) v = refl
  tally-insert_at (x ∷ xs) (suc i) v = omega (arith, tally-insert_at xs i v)

  pub tally-erase_at :
      (xs : List AppItem) (i : ℕ) (v : AppItem)
      → get_elem? xs i ≡ some v
      → (if p v then 1 else 0) + tally (erase_at xs i) ≡ tally xs
  tally-erase_at [] i v e = cc
  tally-erase_at (x ∷ xs) zero v e = ground arith
  tally-erase_at (x ∷ xs) (suc i) v e = omega (arith, tally-erase_at xs i v e)
