-- ===== src/Statistics/Buckets.antt =====
-- tondb-scanner/src/Statistics.h: the bucket of a value.
use ton_index_worker.Prelude.{
  ℕ, zero, suc, ◌+◌, ◌≤◌, ◌<◌, ◌≡◌, ◌≢◌, refl, ◌⊎◌, inl, inr, Option, none, some, List, [], ◌∷◌,
  arith, length, ltb, leb, Bool-cases,
}
use ton_index_worker.Statistics.{lower_bound, last_value, index_for_value}

-- The limit of a bucket.
abbrev pub limit_at : ℕ → List ℕ → Option ℕ
limit_at i [] = none
limit_at zero (limit ∷ limits) = some limit
limit_at (suc i) (limit ∷ limits) = limit_at i limits

abbrev pub IsIncreasing : List ℕ → Type 0
IsIncreasing [] = Unit
IsIncreasing (limit ∷ []) = Unit
IsIncreasing (limit ∷ next ∷ limits) = (limit < next) × IsIncreasing (next ∷ limits)

lower_bound_within :
    (value : ℕ) (limits : List ℕ)
    → limits ≢ []
    → value ≤ last_value limits
    → lower_bound value limits < length limits
unfolding lower_bound last_value
lower_bound_within value [] e l = absurd (e refl)
lower_bound_within value (limit ∷ []) e l = ground (arith, l)
lower_bound_within value (limit ∷ next ∷ limits) e l =
    ground (arith, lower_bound_within value (next ∷ limits) (λ z. ground (arith, z)) l)

lower_bound_below :
    (value : ℕ) (limits : List ℕ) (i limit : ℕ)
    → i < lower_bound value limits
    → limit_at i limits ≡ some limit
    → limit < value
unfolding lower_bound
lower_bound_below value [] i limit l e = absurd (omega (arith, l))
lower_bound_below value (first ∷ limits) zero limit l e = ground (arith, l, e)
lower_bound_below value (first ∷ limits) (suc i) limit l e =
    lower_bound_below value limits i limit (ground (arith, l)) e

lower_bound_above :
    (value : ℕ) (limits : List ℕ) (limit : ℕ)
    → limit_at (lower_bound value limits) limits ≡ some limit
    → value ≤ limit
unfolding lower_bound
lower_bound_above value [] limit e = ground (arith, e)
lower_bound_above value (first ∷ limits) limit e = elim (Bool-cases (ltb first value)) [
  | inl less ↦ lower_bound_above value limits limit (ground (arith, less, e))
  | inr more ↦ ground (arith, more, e)
]

first_le_last :
    (limit : ℕ) (limits : List ℕ)
    → IsIncreasing (limit ∷ limits)
    → limit ≤ last_value (limit ∷ limits)
unfolding last_value
first_le_last limit [] h = omega arith
first_le_last limit (next ∷ limits) h = omega (arith, h.0, first_le_last next limits h.1)

below_last :
    (limits : List ℕ) (i limit : ℕ)
    → IsIncreasing limits
    → i + 1 < length limits
    → limit_at i limits ≡ some limit
    → limit < last_value limits
unfolding last_value
below_last [] i limit h l e = absurd (omega (arith, l))
below_last (first ∷ []) i limit h l e = absurd (omega (arith, l))
below_last (first ∷ next ∷ limits) zero limit h l e =
    ground (arith, h.0, e, first_le_last next limits h.1)
below_last (first ∷ next ∷ limits) (suc i) limit h l e =
    below_last (next ∷ limits) i limit h.1 (omega (arith, l)) e

-- The bucket of a value: the limits before it are below the value, and its own is not, unless it is
-- the last bucket, which also has the values above its limit.
pub record IsBucket (limits : List ℕ) (value i : ℕ) : Type 0 where
  pub within : i < length limits
  pub below : (j limit : ℕ) → j < i → limit_at j limits ≡ some limit → limit < value
  pub above :
      (limit : ℕ)
      → limit_at i limits ≡ some limit
      → (value ≤ limit) ⊎ ((last_value limits ≤ value) × (i + 1 ≡ length limits))

nonempty : (limits : List ℕ) → limits ≢ [] → 0 < length limits
nonempty [] e = absurd (e refl)
nonempty (limit ∷ limits) e = omega arith

-- If the limits increase and there is one, `IndexForValue` is the bucket of the value: it exists,
-- the limits before it are below the value, and its own is not, unless the value is at or above the
-- last limit and the bucket is the last.
pub index_for_value-IsBucket :
    (limits : List ℕ) (value : ℕ)
    → limits ≢ []
    → IsIncreasing limits
    → IsBucket limits value (index_for_value limits value)
unfolding index_for_value
index_for_value-IsBucket limits value e h = elim (Bool-cases (leb (last_value limits) value)) [
  | inl high ↦ rw high (record {
    within = omega (arith, nonempty limits e);
    below = λ j limit l at.
        let low = below_last limits j limit h (omega (arith, l)) at in ground (arith, high, low);
    above = λ limit at. inr (ground (arith, high), omega (arith, nonempty limits e));
  })
  | inr low ↦ rw low (record {
    within = lower_bound_within value limits e (ground (arith, low));
    below = λ j limit l at. lower_bound_below value limits j limit l at;
    above = λ limit at. inl (lower_bound_above value limits limit at);
  })
]
