-- ===== src/Base/Arrays.antt =====
-- What memmove and a write do to the part of an array that a count marks as used.
use Prim.Native.Nat.{ℕ, zero, suc, ◌+◌, ◌-◌, ◌≤◌, ◌<◌}
use mathlib.Core.Path.{◌≡◌, refl, ap, ap₂, subst}
use mathlib.Core.Logic.{◌≢◌}
use mathlib.Core.List.{List, [], ◌∷◌, ◌++◌, map}
use mathlib.Core.Option.{none, some}
use native.Mathlib.Omega.{arith}
use nova_desktop.Base.Tests.{ltb, ◌==◌, if◌then◌else◌}
use nova_desktop.Base.Lists.{
  length, get_elem?, set, modify, take, drop, All, erase_at, insert_at, memmove, length-take,
  length-drop, length-memmove, length-erase_at,
}

module _ {ℓ} {A : Type ℓ} where
  -- Lists with the same reads are equal.
  pub ext : (xs ys : List A) → ((k : ℕ) → get_elem? xs k ≡ get_elem? ys k) → xs ≡ ys
  ext [] [] h = refl
  ext [] (y ∷ ys) h = cc (h 0)
  ext (x ∷ xs) [] h = cc (h 0)
  ext (x ∷ xs) (y ∷ ys) h = ap₂ ◌∷◌ (let e : x ≡ y = cc (h 0) in e) (ext xs ys (λ k. h (suc k)))

  pub get_elem?-append :
      (xs ys : List A) (k : ℕ)
      → get_elem? (xs ++ ys) k
        ≡ (if ltb k (length xs) then get_elem? xs k else get_elem? ys (k - length xs))
  get_elem?-append [] ys k =
      ground (arith, ap (get_elem? ys) (let e : k - 0 ≡ k = omega arith in e))
  get_elem?-append (x ∷ xs) ys zero = ground arith
  get_elem?-append (x ∷ xs) ys (suc k) = ground (arith, get_elem?-append xs ys k)

  pub get_elem?-take :
      (n : ℕ) (xs : List A) (k : ℕ)
      → get_elem? (take n xs) k ≡ (if ltb k n then get_elem? xs k else none)
  get_elem?-take zero xs k = ground arith
  get_elem?-take (suc n) [] k = ground arith
  get_elem?-take (suc n) (x ∷ xs) zero = ground arith
  get_elem?-take (suc n) (x ∷ xs) (suc k) = ground (arith, get_elem?-take n xs k)

  pub get_elem?-drop :
      (n : ℕ) (xs : List A) (k : ℕ) → get_elem? (drop n xs) k ≡ get_elem? xs (n + k)
  get_elem?-drop zero xs k = ap (get_elem? xs) (omega arith)
  get_elem?-drop (suc n) [] k = refl
  get_elem?-drop (suc n) (x ∷ xs) k = ground (arith, get_elem?-drop n xs k)

  pub get_elem?-set :
      (xs : List A) (i : ℕ) (v : A) (k : ℕ)
      → get_elem? (set xs i v) k
        ≡ (if k == i then (if ltb k (length xs) then some v else none) else get_elem? xs k)
  get_elem?-set [] i v k = ground arith
  get_elem?-set (x ∷ xs) zero v zero = ground arith
  get_elem?-set (x ∷ xs) zero v (suc k) = ground arith
  get_elem?-set (x ∷ xs) (suc i) v zero = ground arith
  get_elem?-set (x ∷ xs) (suc i) v (suc k) = ground (arith, get_elem?-set xs i v k)

  pub get_elem?-none : (xs : List A) (k : ℕ) → length xs ≤ k → get_elem? xs k ≡ none
  get_elem?-none [] k h = refl
  get_elem?-none (x ∷ xs) zero h = absurd (omega arith)
  get_elem?-none (x ∷ xs) (suc k) h = get_elem?-none xs k (omega arith)

  pub get_elem?-some : (xs : List A) (k : ℕ) → k < length xs → (a : A) × (get_elem? xs k ≡ some a)
  get_elem?-some [] k h = absurd (omega arith)
  get_elem?-some (x ∷ xs) zero h = (x, refl)
  get_elem?-some (x ∷ xs) (suc k) h = get_elem?-some xs k (omega arith)

  pub get_elem?-erase_at :
      (xs : List A) (i k : ℕ)
      → get_elem? (erase_at xs i) k ≡ (if ltb k i then get_elem? xs k else get_elem? xs (suc k))
  get_elem?-erase_at [] i k = ground arith
  get_elem?-erase_at (x ∷ xs) zero k = ground arith
  get_elem?-erase_at (x ∷ xs) (suc i) zero = ground arith
  get_elem?-erase_at (x ∷ xs) (suc i) (suc k) = ground (arith, get_elem?-erase_at xs i k)

  pub get_elem?-insert_at :
      (xs : List A) (i : ℕ) (v : A) (k : ℕ)
      → i ≤ length xs
      → get_elem? (insert_at xs i v) k
        ≡ (if ltb k i then get_elem? xs k else if k == i then some v else get_elem? xs (k - 1))
  get_elem?-insert_at xs zero v zero h = ground arith
  get_elem?-insert_at xs zero v (suc k) h =
      ground (arith, ap (get_elem? xs) (let e : suc k - 1 ≡ k = omega arith in e))
  get_elem?-insert_at [] (suc i) v k h = absurd (omega arith)
  get_elem?-insert_at (x ∷ xs) (suc i) v zero h = ground arith
  get_elem?-insert_at (x ∷ xs) (suc i) v (suc zero) h =
      ground (arith, get_elem?-insert_at xs i v 0 (omega arith))
  get_elem?-insert_at (x ∷ xs) (suc i) v (suc (suc k)) h = ground (
    arith,
    get_elem?-insert_at xs i v (suc k) (omega arith),
    ap (get_elem? xs) (let e : suc k - 1 ≡ k = omega arith in e),
    ap (get_elem? (x ∷ xs)) (let e : suc (suc k) - 1 ≡ suc k = omega arith in e),
  )

-- `ground` splits on numbers only under a goal in `Type 0`.
module _ {A : Type 0} where
  pub get_elem?-memmove :
      (xs : List A) (to from n k : ℕ)
      → to + n ≤ length xs
      → from + n ≤ length xs
      → get_elem? (memmove xs to from n) k ≡ (
          if ltb k to
          then get_elem? xs k
          else if ltb k (to + n)
          then get_elem? xs (k - to + from)
          else get_elem? xs k)
  unfolding memmove
  get_elem?-memmove xs to from n k p q = ground (
    arith,
    get_elem?-append (take to xs) (take n (drop from xs) ++ drop (to + n) xs) k,
    get_elem?-append (take n (drop from xs)) (drop (to + n) xs) (k - to),
    get_elem?-take to xs k,
    get_elem?-take n (drop from xs) (k - to),
    get_elem?-drop from xs (k - to),
    get_elem?-drop (to + n) xs (k - to - n),
    length-take to xs,
    length-take n (drop from xs),
    length-drop from xs,
  )

  -- Removing an element by moving the rest down.
  pub take-memmove_down :
      (xs : List A) (i n : ℕ)
      → i < n
      → n ≤ length xs
      → take (n - 1) (memmove xs i (i + 1) (n - i - 1)) ≡ erase_at (take n xs) i
  take-memmove_down xs i n h b = ext _ _ λ k. ground (
    arith,
    get_elem?-take (n - 1) (memmove xs i (i + 1) (n - i - 1)) k,
    get_elem?-memmove xs i (i + 1) (n - i - 1) k (omega arith) (omega arith),
    get_elem?-erase_at (take n xs) i k,
    get_elem?-take n xs k,
    get_elem?-take n xs (suc k),
  )

  -- Making room for an element by moving the rest up, and writing it.
  pub take-set-memmove_up :
      (xs : List A) (i n : ℕ) (v : A)
      → i ≤ n
      → n < length xs
      → take (n + 1) (set (memmove xs (i + 1) i (n - i)) i v) ≡ insert_at (take n xs) i v
  take-set-memmove_up xs i n v h b = ext _ _ λ k. ground (
    arith,
    get_elem?-take (n + 1) (set (memmove xs (i + 1) i (n - i)) i v) k,
    get_elem?-set (memmove xs (i + 1) i (n - i)) i v k,
    length-memmove xs (i + 1) i (n - i) (omega arith) (omega arith),
    get_elem?-memmove xs (i + 1) i (n - i) k (omega arith) (omega arith),
    get_elem?-insert_at (take n xs) i v k,
    length-take n xs,
    get_elem?-take n xs k,
    get_elem?-take n xs (k - 1),
  )

  -- Moving an element to a later place: the elements between move down.
  pub take-set-memmove_later :
      (xs : List A) (i at n : ℕ) (v : A)
      → i < at
      → at < n
      → n ≤ length xs
      → take n (set (memmove xs i (i + 1) (at - i)) at v) ≡ insert_at (erase_at (take n xs) i) at v
  take-set-memmove_later xs i at n v h l b = ext _ _ λ k. ground (
    arith,
    get_elem?-take n (set (memmove xs i (i + 1) (at - i)) at v) k,
    get_elem?-set (memmove xs i (i + 1) (at - i)) at v k,
    length-memmove xs i (i + 1) (at - i) (omega arith) (omega arith),
    get_elem?-memmove xs i (i + 1) (at - i) k (omega arith) (omega arith),
    get_elem?-insert_at (erase_at (take n xs) i) at v k,
    length-erase_at (take n xs) i,
    length-take n xs,
    get_elem?-erase_at (take n xs) i k,
    get_elem?-erase_at (take n xs) i (k - 1),
    get_elem?-take n xs k,
    get_elem?-take n xs (suc k),
    get_elem?-take n xs (k - 1),
    get_elem?-take n xs (suc (k - 1)),
  )

  -- Moving an element to an earlier place: the elements between move up.
  pub take-set-memmove_earlier :
      (xs : List A) (i at n : ℕ) (v : A)
      → at < i
      → i < n
      → n ≤ length xs
      → take n (set (memmove xs (at + 1) at (i - at)) at v)
        ≡ insert_at (erase_at (take n xs) i) at v
  take-set-memmove_earlier xs i at n v h l b = ext _ _ λ k. ground (
    arith,
    get_elem?-take n (set (memmove xs (at + 1) at (i - at)) at v) k,
    get_elem?-set (memmove xs (at + 1) at (i - at)) at v k,
    length-memmove xs (at + 1) at (i - at) (omega arith) (omega arith),
    get_elem?-memmove xs (at + 1) at (i - at) k (omega arith) (omega arith),
    get_elem?-insert_at (erase_at (take n xs) i) at v k,
    length-erase_at (take n xs) i,
    length-take n xs,
    get_elem?-erase_at (take n xs) i k,
    get_elem?-erase_at (take n xs) i (k - 1),
    get_elem?-take n xs k,
    get_elem?-take n xs (suc k),
    get_elem?-take n xs (k - 1),
    get_elem?-take n xs (suc (k - 1)),
  )

  pub insert_at-erase_at_self :
      (xs : List A) (i : ℕ) (v : A) → get_elem? xs i ≡ some v → insert_at (erase_at xs i) i v ≡ xs
  insert_at-erase_at_self [] i v h = cc
  insert_at-erase_at_self (x ∷ xs) zero v h = cc
  insert_at-erase_at_self (x ∷ xs) (suc i) v h = ap (◌∷◌ x) (insert_at-erase_at_self xs i v h)

  pub get_elem?-set_self :
      (xs : List A) (i : ℕ) (v : A) → i < length xs → get_elem? (set xs i v) i ≡ some v
  get_elem?-set_self xs i v h = ground (arith, get_elem?-set xs i v i)

  pub get_elem?-set_ne :
      (xs : List A) (i : ℕ) (v : A) (k : ℕ) → k ≢ i → get_elem? (set xs i v) k ≡ get_elem? xs k
  get_elem?-set_ne xs i v k h = ground (arith, get_elem?-set xs i v k)

module _ {ℓ} {A : Type ℓ} where
  -- Writing back what is there.
  pub set_same : (xs : List A) (i : ℕ) (v : A) → get_elem? xs i ≡ some v → set xs i v ≡ xs
  set_same [] i v e = refl
  set_same (x ∷ xs) zero v e = cc
  set_same (x ∷ xs) (suc i) v e = ap (◌∷◌ x) (set_same xs i v e)

  pub All-set {κ} :
      (P : A → Type κ) (xs : List A) (i : ℕ) (v : A) → All P xs → P v → All P (set xs i v)
  All-set P [] i v h p = h
  All-set P (x ∷ xs) zero v h p = (p, h.1)
  All-set P (x ∷ xs) (suc i) v h p = (h.0, All-set P xs i v h.1 p)

  pub All-get_elem? {κ} :
      (P : A → Type κ) (xs : List A) (i : ℕ) {v : A} → All P xs → get_elem? xs i ≡ some v → P v
  All-get_elem? P [] i h e = cc
  All-get_elem? P (x ∷ xs) zero h e = subst P (let e' : x ≡ _ = cc in e') h.0
  All-get_elem? P (x ∷ xs) (suc i) h e = All-get_elem? P xs i h.1 e

  -- A sum over an array after one write.
  abbrev pub sum_of : (A → ℕ) → List A → ℕ
  sum_of f [] = 0
  sum_of f (x ∷ xs) = f x + sum_of f xs

  pub sum_of-set :
      (f : A → ℕ) (xs : List A) (i : ℕ) (v : A) {old : A}
      → get_elem? xs i ≡ some old
      → sum_of f (set xs i v) + f old ≡ sum_of f xs + f v
  sum_of-set f [] i v e = cc
  sum_of-set f (x ∷ xs) zero v {old} e =
      let e' : f x ≡ f old = ap f (let p : x ≡ old = cc in p) in omega (arith, e')
  sum_of-set f (x ∷ xs) (suc i) v e = omega (arith, sum_of-set f xs i v e)

module _ {ℓ κ} {A : Type ℓ} {B : Type κ} (f : A → B) where
  pub map-set : (xs : List A) (i : ℕ) (v : A) → map f (set xs i v) ≡ set (map f xs) i (f v)
  map-set [] i v = refl
  map-set (x ∷ xs) zero v = refl
  map-set (x ∷ xs) (suc i) v = ap (◌∷◌ (f x)) (map-set xs i v)

  pub length-map : (xs : List A) → length (map f xs) ≡ length xs
  length-map [] = refl
  length-map (x ∷ xs) = ap suc (length-map xs)

  -- An element of the image comes from one of the list.
  pub get_elem?-map-some :
      (xs : List A) (i : ℕ) {b : B}
      → get_elem? (map f xs) i ≡ some b
      → (a : A) × (get_elem? xs i ≡ some a) × (f a ≡ b)
  get_elem?-map-some [] i e = cc
  get_elem?-map-some (x ∷ xs) zero e = (x, refl, cc)
  get_elem?-map-some (x ∷ xs) (suc i) e = get_elem?-map-some xs i e

  pub get_elem?-map :
      (xs : List A) (i : ℕ) {a : A} → get_elem? xs i ≡ some a → get_elem? (map f xs) i ≡ some (f a)
  get_elem?-map [] i e = cc
  get_elem?-map (x ∷ xs) zero e = ap (λ o. elim o [ none ↦ none | some y ↦ some (f y) ]) e
  get_elem?-map (x ∷ xs) (suc i) e = get_elem?-map xs i e

module _ {ℓ} {A : Type ℓ} where
  pub drop-eq-cons :
      (xs : List A) (i : ℕ) {a : A} → get_elem? xs i ≡ some a → drop i xs ≡ a ∷ drop (i + 1) xs
  drop-eq-cons [] i e = cc
  drop-eq-cons (x ∷ xs) zero e = let p : x ≡ _ = cc in ap (λ y. y ∷ xs) p
  drop-eq-cons (x ∷ xs) (suc i) e =
      let p : suc i + 1 ≡ suc (i + 1) = omega arith in rw p (drop-eq-cons xs i e)

  pub drop_all : (n : ℕ) (xs : List A) → length xs ≤ n → drop n xs ≡ []
  drop_all zero [] h = refl
  drop_all zero (x ∷ xs) h = absurd (omega arith)
  drop_all (suc n) [] h = refl
  drop_all (suc n) (x ∷ xs) h = drop_all n xs (omega arith)

module _ {ℓ} {A : Type ℓ} where
  pub length-modify : (xs : List A) (i : ℕ) (f : A → A) → length (modify xs i f) ≡ length xs
  length-modify [] i f = refl
  length-modify (x ∷ xs) zero f = refl
  length-modify (x ∷ xs) (suc i) f = ap suc (length-modify xs i f)

  -- A write to the first unused cell adds it to the used ones.
  -- A write behind the first `n` cells is not seen among them.
  pub take-set_beyond :
      (n : ℕ) (xs : List A) (i : ℕ) (v : A) → n ≤ i → take n (set xs i v) ≡ take n xs
  take-set_beyond zero xs i v h = refl
  take-set_beyond (suc n) [] i v h = refl
  take-set_beyond (suc n) (x ∷ xs) zero v h = absurd (omega arith)
  take-set_beyond (suc n) (x ∷ xs) (suc i) v h = ap (◌∷◌ x) (take-set_beyond n xs i v (omega arith))

  pub take-set_more :
      (n : ℕ) (xs : List A) (v : A)
      → n < length xs
      → take (n + 1) (set xs n v) ≡ take n xs ++ v ∷ []
  take-set_more n xs v h = let p : n + 1 ≡ suc n = omega arith in rw p (go n xs h)
    where
      go : (n : ℕ) (xs : List A) → n < length xs → take (suc n) (set xs n v) ≡ take n xs ++ v ∷ []
      go n [] h = absurd (omega arith)
      go zero (x ∷ xs) h = refl
      go (suc n) (x ∷ xs) h = ap (◌∷◌ x) (go n xs (omega arith))

-- Removing the first element by moving the rest down.
pub take-memmove_first :
    {A : Type 0} (x : A) (xs : List A) (n : ℕ)
    → n ≤ length xs
    → take n (memmove (x ∷ xs) 0 1 n) ≡ take n xs
take-memmove_first x xs n h = ext _ _ λ k. ground (
  arith,
  get_elem?-take n (memmove (x ∷ xs) 0 1 n) k,
  get_elem?-memmove (x ∷ xs) 0 1 n k (omega arith) (omega arith),
  get_elem?-take n xs k,
  (let e : k - 0 + 1 ≡ suc k = omega arith in ap (get_elem? (x ∷ xs)) e),
)
