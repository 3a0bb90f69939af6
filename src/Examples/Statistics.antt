-- ===== src/Examples/Statistics.antt =====
-- tondb-scanner/src/Statistics.cpp with three buckets and two threads.
use ton_index_worker.Prelude.{ℕ, ◌≡◌, refl, List, [], ◌∷◌, arith}
use ton_index_worker.Statistics.{HistogramImpl, StatisticsData, Turn, index_for_value, add, gather}
use ton_index_worker.Statistics.Buckets.{IsIncreasing, IsBucket, index_for_value-IsBucket}
use ton_index_worker.Statistics.Report.{total, IsCounted, add-IsCounted}
use ton_index_worker.Statistics.Counters.{count, bucket, read}
use ton_index_worker.Statistics.Threads.{Gathered, gather-Gathered}

abbrev limits : List ℕ
limits = 1 ∷ 2 ∷ 3 ∷ []

limits-IsIncreasing : IsIncreasing limits
limits-IsIncreasing = (omega arith, (omega arith, tt))

index_for_value-IsBucket_example : IsBucket limits 2 (index_for_value limits 2)
index_for_value-IsBucket_example =
    index_for_value-IsBucket limits 2 (λ e. ground (arith, e)) limits-IsIncreasing

bucket_of_large : index_for_value limits 9 ≡ 2
unfolding index_for_value
bucket_of_large = refl

abbrev histogram : HistogramImpl
histogram = record { count = 3; sum = 7; min = 0; max = 4; buckets = 1 ∷ 0 ∷ 2 ∷ [] }

histogram-IsCounted : IsCounted histogram
unfolding total
histogram-IsCounted = refl

add-IsCounted_example : IsCounted (add limits 2 5 histogram)
add-IsCounted_example =
    add-IsCounted limits 2 5 histogram refl (omega arith) limits-IsIncreasing histogram-IsCounted

abbrev empty : StatisticsData
empty = record {
  tickers = 0 ∷ [];
  histograms = record { count = 0; sum = 0; min = 0; max = 0; buckets = 0 ∷ 0 ∷ 0 ∷ [] } ∷ [];
}

abbrev thread : StatisticsData
thread = record { tickers = 2 ∷ []; histograms = histogram ∷ [] }

-- One `add` to the first bucket, whose count comes before the reading, and whose bucket falls
-- between the reading and the store.
abbrev torn_count : StatisticsData
torn_count = record {
  tickers = 0 ∷ [];
  histograms = record { count = 1; sum = 1; min = 0; max = 1; buckets = 0 ∷ 0 ∷ 0 ∷ [] } ∷ [];
}

abbrev torn_bucket : StatisticsData
torn_bucket = record {
  tickers = 0 ∷ [];
  histograms = record { count = 0; sum = 0; min = 0; max = 0; buckets = 1 ∷ 0 ∷ 0 ∷ [] } ∷ [];
}

abbrev quiet : Turn
quiet = record { early = empty; late = empty; after = empty }

abbrev torn : Turn
torn = record { early = torn_count; late = torn_bucket; after = thread }

abbrev threads : List (StatisticsData × Turn)
threads = (thread, torn) ∷ (thread, quiet) ∷ []

gather-Gathered_example : Gathered empty threads (gather empty threads)
gather-Gathered_example = gather-Gathered empty threads (
  ((refl, (refl, tt)), (refl, (refl, tt)), (refl, (refl, tt))),
  (((refl, (refl, tt)), (refl, (refl, tt)), (refl, (refl, tt))), tt),
)

-- The report counts seven, but its buckets hold six: the bucket of the torn call is lost.
torn_report : read (count 0) (gather empty threads).0 ≡ 7
unfolding gather read
torn_report = refl

torn_report_bucket : read (bucket 0 0) (gather empty threads).0 ≡ 2
unfolding gather read
torn_report_bucket = refl
