-- ===== src/Prelude/Sorted.antt =====
-- Sorted lists of numbers: `std::sort`, and the order in which a `std::set` is walked.
use Prim.Native.Nat.{ℕ, suc, ◌≤◌, ◌<◌}
use mathlib.Core.Path.{◌≡◌, refl, ◌∙◌}
use mathlib.Core.Logic.{inl, inr}
use mathlib.Core.Bool.{true, false}
use mathlib.Core.List.{List, [], ◌∷◌}
use native.Mathlib.Omega.{arith}
use ton_index_worker.Prelude.Tests.{ltb, ◌==◌, if◌then◌else◌, Bool-cases}
use ton_index_worker.Prelude.Lists.{All}
use ton_index_worker.Prelude.Maps.{contains, IsSetList}

-- `std::sort` on the numbers.
unfoldable pub insert_sorted : ℕ → List ℕ → List ℕ
insert_sorted n [] = n ∷ []
insert_sorted n (m ∷ ms) = if ltb m n then m ∷ insert_sorted n ms else n ∷ m ∷ ms

unfoldable pub sort : List ℕ → List ℕ
unfolding insert_sorted
sort [] = []
sort (n ∷ ns) = insert_sorted n (sort ns)

-- Each number is larger than those before it, and none is below the bound.
abbrev pub Increasing : ℕ → List ℕ → Type 0
Increasing low [] = Unit
Increasing low (n ∷ ns) = (low ≤ n) × Increasing (suc n) ns

pub Increasing-mono : (i j : ℕ) (ns : List ℕ) → i ≤ j → Increasing j ns → Increasing i ns
Increasing-mono i j [] l h = tt
Increasing-mono i j (n ∷ ns) l h = (omega (arith, h.0), h.1)

insert_sorted-contains :
    (n k : ℕ) (ms : List ℕ)
    → contains k (insert_sorted n ms) ≡ (if n == k then true else contains k ms)
unfolding insert_sorted contains
insert_sorted-contains n k [] = refl
insert_sorted-contains n k (m ∷ ms) = ground (arith, insert_sorted-contains n k ms)

pub sort-contains : (k : ℕ) (ns : List ℕ) → contains k (sort ns) ≡ contains k ns
unfolding sort contains
sort-contains k [] = refl
sort-contains k (n ∷ ns) = ground (arith, insert_sorted-contains n k (sort ns), sort-contains k ns)

insert_sorted-Increasing :
    (low n : ℕ) (ms : List ℕ)
    → low ≤ n
    → contains n ms ≡ false
    → Increasing low ms
    → Increasing low (insert_sorted n ms)
unfolding insert_sorted contains
insert_sorted-Increasing low n [] l c h = (l, tt)
insert_sorted-Increasing low n (m ∷ ms) l c h =
    ground (arith, l, c, h, insert_sorted-Increasing (suc m) n ms)

pub sort-Increasing : (ns : List ℕ) → IsSetList ns → Increasing 0 (sort ns)
unfolding sort
sort-Increasing [] d = tt
sort-Increasing (n ∷ ns) d =
    insert_sorted-Increasing 0 n (sort ns) (omega arith) (sort-contains n ns ∙ d.0)
      (sort-Increasing ns d.1)

pub not_below : (low n : ℕ) (ns : List ℕ) → n < low → Increasing low ns → contains n ns ≡ false
unfolding contains
not_below low n [] l h = refl
not_below low n (m ∷ ns) l h =
    ground (arith, l, h.0, not_below (suc m) n ns (omega (arith, h.0)) h.1)

insert_sorted-All :
    (P : ℕ → Type 0) (n : ℕ) (ms : List ℕ) → P n → All P ms → All P (insert_sorted n ms)
unfolding insert_sorted
insert_sorted-All P n [] p h = (p, tt)
insert_sorted-All P n (m ∷ ms) p h = elim (Bool-cases (ltb m n)) [
  | inl less ↦ rw less (h.0, insert_sorted-All P n ms p h.1)
  | inr more ↦ rw more (p, h)
]

pub sort-All : (P : ℕ → Type 0) (ns : List ℕ) → All P ns → All P (sort ns)
unfolding sort
sort-All P [] h = tt
sort-All P (n ∷ ns) h = insert_sorted-All P n (sort ns) h.0 (sort-All P ns h.1)
