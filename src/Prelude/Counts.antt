-- ===== src/Prelude/Counts.antt =====
-- How often a number stands in a list, and what the operations on sets do to that.
use Prim.Native.Nat.{ℕ, ◌+◌, ◌≤◌}
use mathlib.Core.Path.{◌≡◌}
use mathlib.Core.Bool.{Bool, true, false}
use mathlib.Core.List.{List, [], ◌∷◌, ◌++◌}
use native.Mathlib.Omega.{arith}
use ton_index_worker.Prelude.Tests.{◌==◌, if◌then◌else◌}
use ton_index_worker.Prelude.Maps.{contains, insert, remove}

abbrev pub bit : Bool → ℕ
bit true = 1
bit false = 0

unfoldable pub occ : ℕ → List ℕ → ℕ
occ n [] = 0
occ n (m ∷ ms) = bit (m == n) + occ n ms

pub occ-append : (n : ℕ) (xs ys : List ℕ) → occ n (xs ++ ys) ≡ occ n xs + occ n ys
unfolding occ
occ-append n [] ys = omega arith
occ-append n (x ∷ xs) ys = omega (arith, occ-append n xs ys)

pub occ-insert : (n k : ℕ) (s : List ℕ) → occ k s ≡ 0 → occ n (insert k s) ≡ occ n s + bit (k == n)
unfolding occ insert
occ-insert n k [] h = omega arith
occ-insert n k (j ∷ s) h = ground (arith, h, occ-insert n k s)

pub occ-remove : (n k : ℕ) (s : List ℕ) → occ n (remove k s) ≡ (if k == n then 0 else occ n s)
unfolding occ remove
occ-remove n k [] = ground arith
occ-remove n k (j ∷ s) = ground (arith, occ-remove n k s)

pub contains-occ : (n : ℕ) (s : List ℕ) → contains n s ≡ true → 1 ≤ occ n s
unfolding occ contains
contains-occ n [] h = ground (arith, h)
contains-occ n (j ∷ s) h = ground (arith, h, contains-occ n s)
