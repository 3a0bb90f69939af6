-- ===== src/Statistics/Report.antt =====
-- tondb-scanner/src/Statistics.cpp: the counters of one histogram.
use ton_index_worker.Prelude.{ℕ, zero, suc, ◌<◌, ◌≡◌, sym, ap, ◌∙◌, List, [], ◌∷◌, arith, length}
use ton_index_worker.Prelude.Words.{add64}
use ton_index_worker.Statistics.{HistogramImpl, fetch_add, add, index_for_value}
use ton_index_worker.Statistics.Buckets.{IsIncreasing, index_for_value-IsBucket}

-- The sum of the buckets, as a word.
unfoldable pub total : List ℕ → ℕ
total [] = 0
total (c ∷ cs) = add64 c (total cs)

-- The count is the sum of the buckets.
abbrev pub IsCounted : HistogramImpl → Type 0
IsCounted h = h.count ≡ total h.buckets

total-fetch_add :
    (i n : ℕ) (cs : List ℕ) → i < length cs → total (fetch_add i n cs) ≡ add64 (total cs) n
unfolding total fetch_add
total-fetch_add i n [] l = absurd (omega (arith, l))
total-fetch_add zero n (c ∷ cs) l = omega arith
total-fetch_add (suc i) n (c ∷ cs) l =
    let ih = total-fetch_add i n cs (omega (arith, l)) in omega (arith, ih)

-- Adding a duration, with one bucket for each limit, keeps the count equal to the sum of the
-- buckets.
pub add-IsCounted :
    (limits : List ℕ) (duration count : ℕ) (h : HistogramImpl)
    → length limits ≡ length h.buckets
    → 0 < length limits
    → IsIncreasing limits
    → IsCounted h
    → IsCounted (add limits duration count h)
unfolding add
add-IsCounted limits duration count h e some' increasing c =
    let b =
      index_for_value-IsBucket limits duration (λ z. absurd (omega (arith, some', ap length z)))
        increasing in
    ap (λ n. add64 n count) c
    ∙ sym (
        total-fetch_add (index_for_value limits duration) count h.buckets
          (omega (arith, b.within, e)))
