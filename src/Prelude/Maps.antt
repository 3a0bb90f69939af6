-- ===== src/Prelude/Maps.antt =====
-- Finite maps and sets with number keys, as lists: `std::map`, `std::set` and their unordered kinds.
-- A key stands at most once, so the place of an entry is the order of its first insertion.
use Prim.Native.Nat.{ℕ, suc, ◌+◌, ◌≤◌}
use mathlib.Core.Path.{◌≡◌, refl}
use mathlib.Core.Bool.{Bool, true, false, ◌||◌}
use mathlib.Core.Option.{Option, none, some}
use mathlib.Core.List.{List, [], ◌∷◌, ◌++◌}
use native.Mathlib.Omega.{arith}
use ton_index_worker.Prelude.Lists.{length}
use ton_index_worker.Prelude.Tests.{◌==◌, if◌then◌else◌}

module _ {ℓ} {V : Type ℓ} where
  unfoldable pub find : ℕ → List (ℕ × V) → Option V
  find k [] = none
  find k ((j, v) ∷ m) = if j == k then some v else find k m

  unfoldable pub insert_or_assign : ℕ → V → List (ℕ × V) → List (ℕ × V)
  insert_or_assign k v [] = (k, v) ∷ []
  insert_or_assign k v ((j, w) ∷ m) = if j == k then (k, v) ∷ m else (j, w) ∷ insert_or_assign k v m

  -- `emplace` keeps an entry that is there.
  unfoldable pub emplace : ℕ → V → List (ℕ × V) → List (ℕ × V)
  emplace k v [] = (k, v) ∷ []
  emplace k v ((j, w) ∷ m) = if j == k then (j, w) ∷ m else (j, w) ∷ emplace k v m

  -- Every entry with the key goes.
  unfoldable pub erase : ℕ → List (ℕ × V) → List (ℕ × V)
  erase k [] = []
  erase k ((j, w) ∷ m) = let rest = erase k m in if j == k then rest else (j, w) ∷ rest

  pub find-insert_or_assign :
      (k j : ℕ) (v : V) (m : List (ℕ × V))
      → find j (insert_or_assign k v m) ≡ (if k == j then some v else find j m)
  unfolding find insert_or_assign
  find-insert_or_assign k j v [] = refl
  find-insert_or_assign k j v ((i, w) ∷ m) = ground (arith, find-insert_or_assign k j v m)

  pub find-erase :
      (k j : ℕ) (m : List (ℕ × V)) → find j (erase k m) ≡ (if k == j then none else find j m)
  unfolding find erase
  find-erase k j [] = ground arith
  find-erase k j ((i, w) ∷ m) = ground (arith, find-erase k j m)

  pub insert_or_assign_twice :
      (k : ℕ) (v w : V) (m : List (ℕ × V))
      → insert_or_assign k v (insert_or_assign k w m) ≡ insert_or_assign k v m
  unfolding insert_or_assign
  insert_or_assign_twice k v w [] = ground arith
  insert_or_assign_twice k v w ((i, u) ∷ m) = ground (arith, insert_or_assign_twice k v w m)

  pub find-emplace :
      (k j : ℕ) (v : V) (m : List (ℕ × V))
      → find j (emplace k v m)
        ≡ (if k == j then elim (find k m) [ none ↦ some v | some w ↦ some w ] else find j m)
  unfolding find emplace
  find-emplace k j v [] = ground arith
  find-emplace k j v ((i, w) ∷ m) = ground (arith, find-emplace k j v m)

-- Every key stands once.
module _ {ℓ} {V : Type ℓ} where
  abbrev pub Distinct : List (ℕ × V) → Type ℓ
  Distinct [] = Unit
  Distinct ((k, v) ∷ m) = (find k m ≡ none) × Distinct m

  pub insert_or_assign-Distinct :
      (k : ℕ) (v : V) (m : List (ℕ × V)) → Distinct m → Distinct (insert_or_assign k v m)
  unfolding insert_or_assign find
  insert_or_assign-Distinct k v [] d = (refl, tt)
  insert_or_assign-Distinct k v ((j, w) ∷ m) d =
      ground (arith, find-insert_or_assign k j v m, insert_or_assign-Distinct k v m d.1)

  pub emplace-Distinct : (k : ℕ) (v : V) (m : List (ℕ × V)) → Distinct m → Distinct (emplace k v m)
  unfolding emplace find
  emplace-Distinct k v [] d = (refl, tt)
  emplace-Distinct k v ((j, w) ∷ m) d =
      ground (arith, find-emplace k j v m, emplace-Distinct k v m d.1)

  pub erase-Distinct : (k : ℕ) (m : List (ℕ × V)) → Distinct m → Distinct (erase k m)
  unfolding erase find
  erase-Distinct k [] d = tt
  erase-Distinct k ((j, w) ∷ m) d = ground (arith, find-erase k j m, erase-Distinct k m d.1)

  pub erase_absent : (k : ℕ) (m : List (ℕ × V)) → find k m ≡ none → erase k m ≡ m
  unfolding erase find
  erase_absent k [] h = refl
  erase_absent k ((j, w) ∷ m) h = ground (arith, erase_absent k m)

  pub length-insert-le :
      (k : ℕ) (v : V) (m : List (ℕ × V)) → length (insert_or_assign k v m) ≤ suc (length m)
  unfolding insert_or_assign
  length-insert-le k v [] = omega arith
  length-insert-le k v ((j, w) ∷ m) = ground (arith, length-insert-le k v m)

  pub length-erase-le : (k : ℕ) (m : List (ℕ × V)) → length (erase k m) ≤ length m
  unfolding erase
  length-erase-le k [] = omega arith
  length-erase-le k ((j, w) ∷ m) = ground (arith, length-erase-le k m)

  pub length-erase :
      (k : ℕ) (m : List (ℕ × V)) (v : V)
      → Distinct m
      → find k m ≡ some v
      → length (erase k m) + 1 ≡ length m
  unfolding erase find
  length-erase k [] v d h = cc
  length-erase k ((j, w) ∷ m) v d h = ground (arith, erase_absent k m, length-erase k m v d.1)

-- Sets.
unfoldable pub contains : ℕ → List ℕ → Bool
contains k [] = false
contains k (j ∷ s) = if j == k then true else contains k s

unfoldable pub insert : ℕ → List ℕ → List ℕ
insert k [] = k ∷ []
insert k (j ∷ s) = if j == k then j ∷ s else j ∷ insert k s

unfoldable pub remove : ℕ → List ℕ → List ℕ
remove k [] = []
remove k (j ∷ s) = let rest = remove k s in if j == k then rest else j ∷ rest

pub contains-insert :
    (k j : ℕ) (s : List ℕ) → contains j (insert k s) ≡ (if k == j then true else contains j s)
unfolding contains insert
contains-insert k j [] = refl
contains-insert k j (i ∷ s) = ground (arith, contains-insert k j s)

pub contains-remove :
    (k j : ℕ) (s : List ℕ) → contains j (remove k s) ≡ (if k == j then false else contains j s)
unfolding contains remove
contains-remove k j [] = ground arith
contains-remove k j (i ∷ s) = ground (arith, contains-remove k j s)

pub contains-append : (k : ℕ) (s t : List ℕ) → contains k (s ++ t) ≡ (contains k s || contains k t)
unfolding contains
contains-append k [] t = refl
contains-append k (j ∷ s) t = ground (arith, contains-append k s t)

pub size-insert-le : (k : ℕ) (s : List ℕ) → length (insert k s) ≤ suc (length s)
unfolding insert
size-insert-le k [] = omega arith
size-insert-le k (j ∷ s) = ground (arith, size-insert-le k s)

pub size-remove-le : (k : ℕ) (s : List ℕ) → length (remove k s) ≤ length s
unfolding remove
size-remove-le k [] = omega arith
size-remove-le k (j ∷ s) = ground (arith, size-remove-le k s)

-- A set as a list has each member once.
abbrev pub IsSetList : List ℕ → Type 0
IsSetList [] = Unit
IsSetList (k ∷ s) = (contains k s ≡ false) × IsSetList s

pub insert-IsSetList : (k : ℕ) (s : List ℕ) → IsSetList s → IsSetList (insert k s)
unfolding insert contains
insert-IsSetList k [] d = (refl, tt)
insert-IsSetList k (j ∷ s) d = ground (arith, contains-insert k j s, insert-IsSetList k s d.1)
