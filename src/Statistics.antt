-- ===== src/Statistics.antt =====
-- tondb-scanner/src/Statistics.cpp and Statistics.h: histograms of durations and tickers, one set for
-- each thread, merged and reset for a report while the threads go on adding. Counters are 64-bit words. The limits of the buckets,
-- which the compiler computes in floating point, are a parameter; percentiles are left out, and so is
-- the text of the report.
pub mod Buckets
pub mod Report
pub mod Counters
pub mod Threads
use ton_index_worker.Prelude.{
  ℕ, zero, suc, ◌+◌, ◌-◌, ◌/◌, Bool, List, [], ◌∷◌, length, map, ltb, leb, if◌then◌else◌,
}
use ton_index_worker.Prelude.Words.{add64}

pub data Ticker : Type 0 where
  seqno_fetch_error insert_conflict : Ticker

pub data Histogram : Type 0 where
  process_seqno catch_up_with_primary fetch_seqno : Histogram
  parse_seqno parse_block parse_transaction parse_account_state parse_config : Histogram
  trace_assembler_gc_state trace_assembler_save_state trace_assembler_process_block : Histogram
  detect_interfaces_seqno detect_actions_seqno insert_seqno insert_batch_connect : Histogram
  insert_batch_exec_data insert_batch_exec_states insert_batch_commit : Histogram

-- The values of the enumerations.
unfoldable pub ticker_index : Ticker → ℕ
ticker_index seqno_fetch_error = 0
ticker_index insert_conflict = 1

unfoldable pub histogram_index : Histogram → ℕ
histogram_index process_seqno = 0
histogram_index catch_up_with_primary = 1
histogram_index fetch_seqno = 2
histogram_index parse_seqno = 3
histogram_index parse_block = 4
histogram_index parse_transaction = 5
histogram_index parse_account_state = 6
histogram_index parse_config = 7
histogram_index trace_assembler_gc_state = 8
histogram_index trace_assembler_save_state = 9
histogram_index trace_assembler_process_block = 10
histogram_index detect_interfaces_seqno = 11
histogram_index detect_actions_seqno = 12
histogram_index insert_seqno = 13
histogram_index insert_batch_connect = 14
histogram_index insert_batch_exec_data = 15
histogram_index insert_batch_exec_states = 16
histogram_index insert_batch_commit = 17

pub record HistogramImpl : Type 0 where
  pub count : ℕ  -- uint64
  pub sum : ℕ  -- uint64
  pub min : ℕ  -- uint64
  pub max : ℕ  -- uint64
  pub buckets : List ℕ  -- uint64

-- `std::lower_bound`: the place of the first limit that is not below the value.
unfoldable pub lower_bound : ℕ → List ℕ → ℕ
lower_bound value [] = 0
lower_bound value (limit ∷ limits) =
    let rest = suc (lower_bound value limits) in if ltb limit value then rest else 0

unfoldable pub last_value : List ℕ → ℕ
last_value [] = 0
last_value (limit ∷ []) = limit
last_value (limit ∷ next ∷ limits) = last_value (next ∷ limits)

-- `HistogramBucketMapper::IndexForValue`.
unfoldable pub index_for_value : List ℕ → ℕ → ℕ
unfolding lower_bound last_value
index_for_value limits value =
    if leb (last_value limits) value then length limits - 1 else lower_bound value limits

unfoldable pub update_max : ℕ → ℕ → ℕ
update_max max value = if ltb max value then value else max

unfoldable pub update_min : ℕ → ℕ → ℕ
update_min min value = if ltb value min then value else min

-- `fetch_add` on the element at a place.
unfoldable pub fetch_add : ℕ → ℕ → List ℕ → List ℕ
fetch_add index n [] = []
fetch_add zero n (c ∷ cs) = add64 c n ∷ cs
fetch_add (suc index) n (c ∷ cs) = c ∷ fetch_add index n cs

unfoldable pub add : List ℕ → ℕ → ℕ → HistogramImpl → HistogramImpl
unfolding index_for_value update_max fetch_add
add limits duration count h = record h {
  count = add64 h.count count;
  sum = add64 h.sum duration;
  max = update_max h.max duration;
  buckets = fetch_add (index_for_value limits duration) count h.buckets;
}

-- The loops over the counters, element by element.
unfoldable pub add_each : List ℕ → List ℕ → List ℕ
add_each [] others = []
add_each (c ∷ cs) [] = c ∷ cs
add_each (c ∷ cs) (d ∷ ds) = add64 c d ∷ add_each cs ds

unfoldable pub merge : HistogramImpl → HistogramImpl → HistogramImpl
unfolding update_max update_min add_each
merge h other = record {
  count = add64 h.count other.count;
  sum = add64 h.sum other.sum;
  min = update_min h.min other.min;
  max = update_max h.max other.max;
  buckets = add_each h.buckets other.buckets;
}

abbrev pub zeros : List ℕ → List ℕ
zeros = map (λ c. 0)

unfoldable pub reset : HistogramImpl → HistogramImpl
reset h = record { count = 0; sum = 0; min = 0; max = 0; buckets = zeros h.buckets }

pub record StatisticsData : Type 0 where
  pub tickers : List ℕ
  pub histograms : List HistogramImpl

-- The histogram at a place is changed.
unfoldable pub change_at :
    ℕ → (HistogramImpl → HistogramImpl) → List HistogramImpl → List HistogramImpl
change_at index f [] = []
change_at zero f (h ∷ hs) = f h ∷ hs
change_at (suc index) f (h ∷ hs) = h ∷ change_at index f hs

-- On the data of the calling thread. The quotient is taken only where the count is at least 2.
unfoldable pub record_time : List ℕ → Histogram → ℕ → ℕ → StatisticsData → StatisticsData
unfolding add change_at histogram_index
record_time limits hist duration count data' =
    let average = if ltb 1 count then duration / count else duration in
    record data' {
      histograms = change_at (histogram_index hist) (add limits average count) data'.histograms;
    }

unfoldable pub record_count : Ticker → ℕ → StatisticsData → StatisticsData
unfolding fetch_add ticker_index
record_count ticker count data' = record data' {
  tickers = fetch_add (ticker_index ticker) count data'.tickers;
}

unfoldable pub merge_each : List HistogramImpl → List HistogramImpl → List HistogramImpl
unfolding merge
merge_each [] others = []
merge_each (h ∷ hs) [] = h ∷ hs
merge_each (h ∷ hs) (o ∷ os) = merge h o ∷ merge_each hs os

unfoldable pub clear : StatisticsData → StatisticsData
unfolding reset
clear data' = record { tickers = zeros data'.tickers; histograms = map reset data'.histograms }

unfoldable pub merge_data : StatisticsData → StatisticsData → StatisticsData
unfolding add_each merge_each
merge_data agg data' = record {
  tickers = add_each agg.tickers data'.tickers;
  histograms = merge_each agg.histograms data'.histograms;
}

-- What calls of `add` do to the counters of a histogram: `more` holds what they add to each one.
unfoldable pub with_adds : HistogramImpl → HistogramImpl → HistogramImpl
unfolding update_max add_each
with_adds h more = record h {
  count = add64 h.count more.count;
  sum = add64 h.sum more.sum;
  max = update_max h.max more.max;
  buckets = add_each h.buckets more.buckets;
}

unfoldable pub with_adds_each : List HistogramImpl → List HistogramImpl → List HistogramImpl
unfolding with_adds
with_adds_each [] more = []
with_adds_each (h ∷ hs) [] = h ∷ hs
with_adds_each (h ∷ hs) (o ∷ os) = with_adds h o ∷ with_adds_each hs os

unfoldable pub recorded : StatisticsData → StatisticsData → StatisticsData
unfolding add_each with_adds_each
recorded data' more = record {
  tickers = add_each data'.tickers more.tickers;
  histograms = with_adds_each data'.histograms more.histograms;
}

-- The report reads each counter of a thread, and stores 0 in it later, without a lock that the
-- thread would take. So what the thread adds in the meantime falls, for each counter on its own,
-- before the reading, between the reading and the store, or after the store.
pub record Turn : Type 0 where
  pub early : StatisticsData
  pub late : StatisticsData
  pub after : StatisticsData

-- The loop of `generate_report_and_reset` over the threads, each with its data and what it adds in
-- the meantime: what is added up to the aggregate, and the data that the threads are left with.
unfoldable pub gather :
    StatisticsData → List (StatisticsData × Turn) → StatisticsData × List StatisticsData
unfolding merge_data clear recorded
gather agg [] = (agg, [])
gather agg ((data', turn) ∷ rest) =
    let seen = recorded data' turn.early in
    let stored = clear (recorded seen turn.late) in
    let r = gather (merge_data agg seen) rest in (r.0, recorded stored turn.after ∷ r.1)
