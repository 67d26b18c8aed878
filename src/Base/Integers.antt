-- ===== src/Base/Integers.antt =====
-- C's int, of which the program only asks whether it lies in a range of naturals.
use Prim.Native.Nat.{ℕ, ◌≤◌}
use mathlib.Core.Path.{◌≡◌}
use mathlib.Core.Bool.{Bool, false}
use mathlib.Core.Option.{Option, none, some}
use native.Mathlib.Omega.{arith}
use nova_desktop.Base.Tests.{ltb, leb, ◌==◌, if◌then◌else◌}

-- `negsuc n` is -(n + 1).
pub data ℤ : Type 0 where
  pos : ℕ → ℤ
  negsuc : ℕ → ℤ

-- The guard `i<0||i>=n` on an index: none where it returns, else the index.
abbrev pub index_in : ℤ → ℕ → Option ℕ
index_in (pos i) n = if ltb i n then some i else none
index_in (negsuc i) n = none

-- The guard `c<0||c>n` on a count.
abbrev pub count_in : ℤ → ℕ → Option ℕ
count_in (pos c) n = if leb c n then some c else none
count_in (negsuc c) n = none

-- `a==b`
abbrev pub same_int : ℤ → ℤ → Bool
same_int (pos a) (pos b) = a == b
same_int (pos a) (negsuc b) = false
same_int (negsuc a) (pos b) = false
same_int (negsuc a) (negsuc b) = a == b

-- `a>0`
abbrev pub is_positive : ℤ → Bool
is_positive (pos a) = ltb 0 a
is_positive (negsuc a) = false

pub count_in-eq-some : (z : ℤ) (n c : ℕ) → count_in z n ≡ some c → (z ≡ pos c) × (c ≤ n)
count_in-eq-some z n c h = ground arith
