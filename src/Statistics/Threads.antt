-- ===== src/Statistics/Threads.antt =====
-- tondb-scanner/src/Statistics.cpp: what the report holds and what is lost while the threads go on
-- adding.
use ton_index_worker.Prelude.{ℕ, ◌+◌, ◌%◌, ◌≡◌, List, [], ◌∷◌, arith, map, All}
use ton_index_worker.Prelude.Words.{mod64}
use ton_index_worker.Statistics.{StatisticsData, Turn, merge_data, recorded, clear, gather}
use ton_index_worker.Statistics.Counters.{
  Counter, read, SameShape, SameShape-sym, merge_data-SameShape, recorded-SameShape,
  clear-SameShape, read-merge_data, read-recorded, read-clear,
}

-- A thread, and what it adds, have the shape of the aggregate.
abbrev pub IsSound : StatisticsData → StatisticsData × Turn → Type 0
IsSound agg (d, turn) = SameShape d agg × SameShape d turn.early × SameShape d turn.after

-- The sum of a counter over the data of the threads.
unfoldable pub over : Counter → List StatisticsData → ℕ
over c [] = 0
over c (d ∷ ds) = read c d + over c ds

abbrev pub befores : List (StatisticsData × Turn) → List StatisticsData
befores = map (λ t. t.0)

abbrev pub earlies : List (StatisticsData × Turn) → List StatisticsData
earlies = map (λ t. t.1.early)

abbrev pub lates : List (StatisticsData × Turn) → List StatisticsData
lates = map (λ t. t.1.late)

abbrev pub afters : List (StatisticsData × Turn) → List StatisticsData
afters = map (λ t. t.1.after)

-- Each thread is left with what it adds after the stores.
abbrev pub AreLeft : Counter → List (StatisticsData × Turn) → List StatisticsData → Type 0
AreLeft c [] [] = Unit
AreLeft c [] (d ∷ ds) = ⊥
AreLeft c (t ∷ ts) [] = ⊥
AreLeft c (t ∷ ts) (d ∷ ds) = (read c d % mod64 ≡ read c t.1.after % mod64) × AreLeft c ts ds

-- Every counter of the report and of the threads afterwards.
pub record Gathered (agg : StatisticsData) (ts : List (StatisticsData × Turn))
    (r : StatisticsData × List StatisticsData) : Type 0 where
  pub reported :
      (c : Counter)
      → read c r.0 % mod64 ≡ (read c agg + over c (befores ts) + over c (earlies ts)) % mod64
  pub left : (c : Counter) → AreLeft c ts r.1
  pub lost :
      (c : Counter)
      → (read c r.0 + over c r.1 + over c (lates ts)) % mod64
        ≡ (read c agg
            + over c (befores ts)
            + over c (earlies ts)
            + over c (lates ts)
            + over c (afters ts))
          % mod64

IsSound-merge :
    (agg seen : StatisticsData) (ts : List (StatisticsData × Turn))
    → All (IsSound agg) ts
    → All (IsSound (merge_data agg seen)) ts
IsSound-merge agg seen [] s = tt
IsSound-merge agg seen ((d, turn) ∷ ts) s = (
  (SameShape-sym _ d (merge_data-SameShape agg seen d (SameShape-sym d agg s.0.0)), s.0.1, s.0.2),
  IsSound-merge agg seen ts s.1,
)

read_seen :
    (c : Counter) (agg d : StatisticsData) (turn : Turn)
    → IsSound agg (d, turn)
    → read c (merge_data agg (recorded d turn.early)) % mod64
      ≡ (read c agg + read c d + read c turn.early) % mod64
read_seen c agg d turn s =
    let seen = recorded d turn.early in
    let shape = SameShape-sym seen agg (recorded-SameShape d turn.early agg s.0) in
    omega (arith, read-merge_data c agg seen shape, read-recorded c d turn.early s.1)

read_left :
    (c : Counter) (agg d : StatisticsData) (turn : Turn)
    → IsSound agg (d, turn)
    → read c (recorded (clear (recorded (recorded d turn.early) turn.late)) turn.after) % mod64
      ≡ read c turn.after % mod64
read_left c agg d turn s =
    let seen = recorded d turn.early in
    let late = recorded seen turn.late in
    let shape = clear-SameShape late turn.after (
      recorded-SameShape seen turn.late turn.after
        (recorded-SameShape d turn.early turn.after s.2)) in
    omega (arith, read-recorded c (clear late) turn.after shape, read-clear c late)

-- If the threads and what they add have the shape of the aggregate, then modulo 2 ^ 64: each
-- counter of the report is that of the aggregate and of all threads before, with what was added
-- before the reading; each thread is left with what it adds after the stores; so what is added
-- between the reading and the store, and nothing else, is neither in the report nor left.
pub gather-Gathered :
    (agg : StatisticsData) (ts : List (StatisticsData × Turn))
    → All (IsSound agg) ts
    → Gathered agg ts (gather agg ts)
unfolding gather over
gather-Gathered agg [] s = record {
  reported = λ c. omega arith;
  left = λ c. tt;
  lost = λ c. omega arith;
}
gather-Gathered agg ((d, turn) ∷ ts) s =
    let seen = recorded d turn.early in
    let ih = gather-Gathered (merge_data agg seen) ts (IsSound-merge agg seen ts s.1) in
    record {
      reported = λ c. omega (arith, ih.reported c, read_seen c agg d turn s.0);
      left = λ c. (read_left c agg d turn s.0, ih.left c);
      lost = λ c. omega (arith, ih.lost c, read_seen c agg d turn s.0, read_left c agg d turn s.0);
    }
