-- ===== src/Base/Checked.antt =====
-- The loop that accepts a list when each element passes a test and clashes with no earlier one.
use Prim.Native.Nat.{ℕ, zero, suc}
use mathlib.Core.Path.{◌≡◌, refl}
use mathlib.Core.Bool.{Bool, true, false, not, ◌&&◌, ◌||◌}
use mathlib.Core.List.{List, [], ◌∷◌, ◌++◌, map}
use mathlib.Core.Option.{some}
use native.Mathlib.Omega.{arith}
use nova_desktop.Base.Tests.{if◌then◌else◌}
use nova_desktop.Base.Lists.{get_elem?, erase_at}

module _ {A : Type 0} (is_ok : A → Bool) (clash : A → A → Bool) where
  -- `clash x y` for some `y` of the list.
  unfoldable pub any_clash : A → List A → Bool
  any_clash x [] = false
  any_clash x (y ∷ ys) = if clash x y then true else any_clash x ys

  -- `earlier` are the elements passed.
  unfoldable pub checked : List A → List A → Bool
  unfolding any_clash
  checked earlier [] = true
  checked earlier (x ∷ xs) = is_ok x && not (any_clash x earlier) && checked (x ∷ earlier) xs

  any_clash-append :
      (x : A) (ys zs : List A) → any_clash x (ys ++ zs) ≡ (any_clash x ys || any_clash x zs)
  unfolding any_clash
  any_clash-append x [] zs = refl
  any_clash-append x (y ∷ ys) zs = ground (arith, any_clash-append x ys zs)

  -- With one earlier element fewer no less is accepted.
  checked_fewer :
      (before : List A) (x : A) (after xs : List A)
      → checked (before ++ x ∷ after) xs ≡ true
      → checked (before ++ after) xs ≡ true
  unfolding checked any_clash
  checked_fewer before x after [] h = refl
  checked_fewer before x after (y ∷ xs) h = ground (
    arith,
    any_clash-append y before (x ∷ after),
    any_clash-append y before after,
    checked_fewer (y ∷ before) x after xs,
  )

  pub checked-erase_at :
      (earlier xs : List A) (i : ℕ)
      → checked earlier xs ≡ true
      → checked earlier (erase_at xs i) ≡ true
  unfolding checked
  checked-erase_at earlier [] i h = h
  checked-erase_at earlier (x ∷ xs) zero h = checked_fewer [] x earlier xs (ground arith)
  checked-erase_at earlier (x ∷ xs) (suc i) h = ground (arith, checked-erase_at (x ∷ earlier) xs i)

  pub checked-get_elem? :
      (earlier xs : List A) (i : ℕ) {y : A}
      → checked earlier xs ≡ true
      → get_elem? xs i ≡ some y
      → is_ok y ≡ true
  unfolding checked
  checked-get_elem? earlier [] i h e = cc
  checked-get_elem? earlier (x ∷ xs) zero h e = ground arith
  checked-get_elem? earlier (x ∷ xs) (suc i) h e =
      checked-get_elem? (x ∷ earlier) xs i (ground arith) e

module _ {A B : Type 0} (ok : A → Bool) (clash : A → A → Bool) (ok' : B → Bool)
    (clash' : B → B → Bool) (f : A → B) (keeps : (x : A) → ok x ≡ true → ok' (f x) ≡ true)
    (same : (x y : A) → clash' (f x) (f y) ≡ clash x y) where
  any_clash-map :
      (x : A) (ys : List A) → any_clash ok' clash' (f x) (map f ys) ≡ any_clash ok clash x ys
  unfolding any_clash
  any_clash-map x [] = refl
  any_clash-map x (y ∷ ys) = rw (same x y, any_clash-map x ys) refl

  -- What is accepted is accepted again after a change that keeps the tests.
  pub checked-map :
      (earlier xs : List A)
      → checked ok clash earlier xs ≡ true
      → checked ok' clash' (map f earlier) (map f xs) ≡ true
  unfolding checked
  checked-map earlier [] h = refl
  checked-map earlier (x ∷ xs) h =
      ground (arith, any_clash-map x earlier, keeps x, checked-map (x ∷ earlier) xs)
