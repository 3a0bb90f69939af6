-- ===== src/Statistics/Counters.antt =====
-- tondb-scanner/src/Statistics.cpp: the counters, one by one, under merging, adding and resetting.
use ton_index_worker.Prelude.{ℕ, zero, suc, ◌≡◌, refl, sym, ◌∙◌, List, [], ◌∷◌, arith, length, map}
use ton_index_worker.Prelude.Words.{add64}
use ton_index_worker.Statistics.{
  HistogramImpl, StatisticsData, add_each, merge_each, with_adds_each, merge, with_adds, merge_data,
  recorded, clear, reset, zeros,
}

-- A counter of a thread or of the aggregate.
pub data Counter : Type 0 where
  ticker : ℕ → Counter
  count : ℕ → Counter
  sum : ℕ → Counter
  bucket : ℕ → ℕ → Counter

unfoldable pub element : ℕ → List ℕ → ℕ
element i [] = 0
element zero (c ∷ cs) = c
element (suc i) (c ∷ cs) = element i cs

unfoldable pub number : (HistogramImpl → ℕ) → ℕ → List HistogramImpl → ℕ
number f i [] = 0
number f zero (h ∷ hs) = f h
number f (suc i) (h ∷ hs) = number f i hs

-- The value of the counter; 0 where there is none.
unfoldable pub read : Counter → StatisticsData → ℕ
unfolding element number
read (ticker i) d = element i d.tickers
read (count i) d = number (λ h. h.count) i d.histograms
read (sum i) d = number (λ h. h.sum) i d.histograms
read (bucket i j) d = number (λ h. element j h.buckets) i d.histograms

-- The buckets of two lists of histograms, one by one.
abbrev pub SameBuckets : List HistogramImpl → List HistogramImpl → Type 0
SameBuckets [] [] = Unit
SameBuckets [] (o ∷ os) = ⊥
SameBuckets (h ∷ hs) [] = ⊥
SameBuckets (h ∷ hs) (o ∷ os) = (length h.buckets ≡ length o.buckets) × SameBuckets hs os

-- As many tickers, histograms and buckets.
abbrev pub SameShape : StatisticsData → StatisticsData → Type 0
SameShape d e = (length d.tickers ≡ length e.tickers) × SameBuckets d.histograms e.histograms

length-add_each : (cs ds : List ℕ) → length (add_each cs ds) ≡ length cs
unfolding add_each
length-add_each [] ds = refl
length-add_each (c ∷ cs) [] = refl
length-add_each (c ∷ cs) (d ∷ ds) = omega (arith, length-add_each cs ds)

length-zeros : (cs : List ℕ) → length (zeros cs) ≡ length cs
length-zeros [] = refl
length-zeros (c ∷ cs) = omega (arith, length-zeros cs)

merge_each-SameBuckets :
    (hs os ps : List HistogramImpl) → SameBuckets hs ps → SameBuckets (merge_each hs os) ps
unfolding merge_each
merge_each-SameBuckets [] os ps s = s
merge_each-SameBuckets (h ∷ hs) [] ps s = s
merge_each-SameBuckets (h ∷ hs) (o ∷ os) [] s = s
merge_each-SameBuckets (h ∷ hs) (o ∷ os) (p ∷ ps) s =
    (length-add_each h.buckets o.buckets ∙ s.0, merge_each-SameBuckets hs os ps s.1)

with_adds_each-SameBuckets :
    (hs os ps : List HistogramImpl) → SameBuckets hs ps → SameBuckets (with_adds_each hs os) ps
unfolding with_adds_each
with_adds_each-SameBuckets [] os ps s = s
with_adds_each-SameBuckets (h ∷ hs) [] ps s = s
with_adds_each-SameBuckets (h ∷ hs) (o ∷ os) [] s = s
with_adds_each-SameBuckets (h ∷ hs) (o ∷ os) (p ∷ ps) s =
    (length-add_each h.buckets o.buckets ∙ s.0, with_adds_each-SameBuckets hs os ps s.1)

reset-SameBuckets : (hs ps : List HistogramImpl) → SameBuckets hs ps → SameBuckets (map reset hs) ps
unfolding reset
reset-SameBuckets [] ps s = s
reset-SameBuckets (h ∷ hs) [] s = s
reset-SameBuckets (h ∷ hs) (p ∷ ps) s = (length-zeros h.buckets ∙ s.0, reset-SameBuckets hs ps s.1)

pub merge_data-SameShape : (d e f : StatisticsData) → SameShape d f → SameShape (merge_data d e) f
unfolding merge_data
merge_data-SameShape d e f s = (
  length-add_each d.tickers e.tickers ∙ s.0,
  merge_each-SameBuckets d.histograms e.histograms f.histograms s.1,
)

pub recorded-SameShape : (d e f : StatisticsData) → SameShape d f → SameShape (recorded d e) f
unfolding recorded
recorded-SameShape d e f s = (
  length-add_each d.tickers e.tickers ∙ s.0,
  with_adds_each-SameBuckets d.histograms e.histograms f.histograms s.1,
)

pub clear-SameShape : (d f : StatisticsData) → SameShape d f → SameShape (clear d) f
unfolding clear
clear-SameShape d f s =
    (length-zeros d.tickers ∙ s.0, reset-SameBuckets d.histograms f.histograms s.1)

element-add_each :
    (i : ℕ) (cs ds : List ℕ)
    → length cs ≡ length ds
    → element i (add_each cs ds) ≡ add64 (element i cs) (element i ds)
unfolding element add_each
element-add_each i [] [] e = refl
element-add_each i [] (d ∷ ds) e = absurd (omega (arith, e))
element-add_each i (c ∷ cs) [] e = absurd (omega (arith, e))
element-add_each zero (c ∷ cs) (d ∷ ds) e = refl
element-add_each (suc i) (c ∷ cs) (d ∷ ds) e = element-add_each i cs ds (omega (arith, e))

element-zeros : (i : ℕ) (cs : List ℕ) → element i (zeros cs) ≡ 0
unfolding element
element-zeros i [] = refl
element-zeros zero (c ∷ cs) = refl
element-zeros (suc i) (c ∷ cs) = element-zeros i cs

-- A number of a histogram that adds up under `f`, if the buckets are as many.
abbrev Adds : (HistogramImpl → ℕ) → (HistogramImpl → HistogramImpl → HistogramImpl) → Type 0
Adds f op =
    (h o : HistogramImpl) → length h.buckets ≡ length o.buckets → f (op h o) ≡ add64 (f h) (f o)

number-merge_each :
    (f : HistogramImpl → ℕ)
    → Adds f merge
    → (i : ℕ) (hs os : List HistogramImpl) → SameBuckets hs os
    → number f i (merge_each hs os) ≡ add64 (number f i hs) (number f i os)
unfolding number merge_each
number-merge_each f a i [] [] s = refl
number-merge_each f a i [] (o ∷ os) s = elim s [ ]
number-merge_each f a i (h ∷ hs) [] s = elim s [ ]
number-merge_each f a zero (h ∷ hs) (o ∷ os) s = a h o s.0
number-merge_each f a (suc i) (h ∷ hs) (o ∷ os) s = number-merge_each f a i hs os s.1

number-with_adds_each :
    (f : HistogramImpl → ℕ)
    → Adds f with_adds
    → (i : ℕ) (hs os : List HistogramImpl) → SameBuckets hs os
    → number f i (with_adds_each hs os) ≡ add64 (number f i hs) (number f i os)
unfolding number with_adds_each
number-with_adds_each f a i [] [] s = refl
number-with_adds_each f a i [] (o ∷ os) s = elim s [ ]
number-with_adds_each f a i (h ∷ hs) [] s = elim s [ ]
number-with_adds_each f a zero (h ∷ hs) (o ∷ os) s = a h o s.0
number-with_adds_each f a (suc i) (h ∷ hs) (o ∷ os) s = number-with_adds_each f a i hs os s.1

number-reset :
    (f : HistogramImpl → ℕ)
    → ((h : HistogramImpl) → f (reset h) ≡ 0)
    → (i : ℕ) (hs : List HistogramImpl) → number f i (map reset hs) ≡ 0
unfolding number
number-reset f a i [] = refl
number-reset f a zero (h ∷ hs) = a h
number-reset f a (suc i) (h ∷ hs) = number-reset f a i hs

pub read-merge_data :
    (c : Counter) (d e : StatisticsData)
    → SameShape d e
    → read c (merge_data d e) ≡ add64 (read c d) (read c e)
unfolding read merge_data merge
read-merge_data (ticker i) d e s = element-add_each i d.tickers e.tickers s.0
read-merge_data (count i) d e s =
    number-merge_each _ (λ h o l. refl) i d.histograms e.histograms s.1
read-merge_data (sum i) d e s = number-merge_each _ (λ h o l. refl) i d.histograms e.histograms s.1
read-merge_data (bucket i j) d e s =
    number-merge_each (λ h. element j h.buckets) (λ h o l. element-add_each j h.buckets o.buckets l)
      i d.histograms e.histograms s.1

pub read-recorded :
    (c : Counter) (d e : StatisticsData)
    → SameShape d e
    → read c (recorded d e) ≡ add64 (read c d) (read c e)
unfolding read recorded with_adds
read-recorded (ticker i) d e s = element-add_each i d.tickers e.tickers s.0
read-recorded (count i) d e s =
    number-with_adds_each _ (λ h o l. refl) i d.histograms e.histograms s.1
read-recorded (sum i) d e s =
    number-with_adds_each _ (λ h o l. refl) i d.histograms e.histograms s.1
read-recorded (bucket i j) d e s =
    number-with_adds_each (λ h. element j h.buckets)
      (λ h o l. element-add_each j h.buckets o.buckets l) i d.histograms e.histograms s.1

pub read-clear : (c : Counter) (d : StatisticsData) → read c (clear d) ≡ 0
unfolding read clear reset
read-clear (ticker i) d = element-zeros i d.tickers
read-clear (count i) d = number-reset _ (λ h. refl) i d.histograms
read-clear (sum i) d = number-reset _ (λ h. refl) i d.histograms
read-clear (bucket i j) d =
    number-reset (λ h. element j h.buckets) (λ h. element-zeros j h.buckets) i d.histograms

SameBuckets-sym : (hs os : List HistogramImpl) → SameBuckets hs os → SameBuckets os hs
SameBuckets-sym [] [] s = tt
SameBuckets-sym [] (o ∷ os) s = s
SameBuckets-sym (h ∷ hs) [] s = s
SameBuckets-sym (h ∷ hs) (o ∷ os) s = (sym s.0, SameBuckets-sym hs os s.1)

pub SameShape-sym : (d e : StatisticsData) → SameShape d e → SameShape e d
SameShape-sym d e s = (sym s.0, SameBuckets-sym d.histograms e.histograms s.1)
