-- ===== src/Emulator/Traces.antt =====
-- BlockEmulator.cpp: which traces are emulated, and when the promise of the emulator is given a value.
use ton_index_worker.Prelude.{
  ℕ, ◌≡◌, refl, ◌∙◌, ◌⊎◌, inl, inr, Bool, true, false, Option, none, some, List, [], ◌∷◌, ◌++◌,
  arith, ◌==◌, if◌then◌else◌, Bool-cases,
}
use ton_index_worker.Prelude.Maps.{contains, insert, remove, contains-insert}
use ton_index_worker.Insert.{is_empty}
use ton_index_worker.Emulator.{
  TransactionInfo, McBlockEmulator, Effect, emulate_trace_tail, set_value, emulate_loop,
  emulate_traces, trace_error, trace_finished,
}

unfoldable pub has_trace : ℕ → TransactionInfo → Bool
has_trace i t = elim t.initial_msg_hash [ none ↦ false | some j ↦ j == i ]

-- The first transaction of the trace, if there is one.
unfoldable pub first_with : ℕ → List TransactionInfo → List TransactionInfo
unfolding has_trace
first_with i [] = []
first_with i (t ∷ ts) = if has_trace i t then t ∷ [] else first_with i ts

-- The transactions from which the trace is emulated.
unfoldable pub started : ℕ → List Effect → List TransactionInfo
unfolding has_trace
started i [] = []
started i (emulate_trace_tail t ∷ es) = if has_trace i t then t ∷ started i es else started i es
started i (e ∷ es) = started i es

has_trace-some :
    (i j : ℕ) (t : TransactionInfo) → t.initial_msg_hash ≡ some j → has_trace i t ≡ (j == i)
unfolding has_trace
has_trace-some i j t e = rw e refl

has_trace-none : (i : ℕ) (t : TransactionInfo) → t.initial_msg_hash ≡ none → has_trace i t ≡ false
unfolding has_trace
has_trace-none i t e = rw e refl

skips_untraced :
    (t : TransactionInfo) (ts : List TransactionInfo) (s : List ℕ)
    → t.initial_msg_hash ≡ none
    → emulate_loop (t ∷ ts) s ≡ emulate_loop ts s
unfolding emulate_loop
skips_untraced t ts s e = rw e refl

skips_in_progress :
    (j : ℕ) (t : TransactionInfo) (ts : List TransactionInfo) (s : List ℕ)
    → t.initial_msg_hash ≡ some j
    → contains j s ≡ true
    → emulate_loop (t ∷ ts) s ≡ emulate_loop ts s
unfolding emulate_loop
skips_in_progress j t ts s e c = rw e (rw c refl)

starts_new :
    (j : ℕ) (t : TransactionInfo) (ts : List TransactionInfo) (s : List ℕ)
    → t.initial_msg_hash ≡ some j
    → contains j s ≡ false
    → (emulate_loop (t ∷ ts) s).1 ≡ emulate_trace_tail t ∷ (emulate_loop ts (insert j s)).1
unfolding emulate_loop
starts_new j t ts s e c = simp (e, c)

-- The transactions of one trace, by what the first transaction of the list is.
module _ (i : ℕ) (t : TransactionInfo) (ts : List TransactionInfo) (s : List ℕ)
    (rest : (r : List ℕ)
      → started i (emulate_loop ts r).1 ≡ (if contains i r then [] else first_with i ts)) where
  started_skipped :
      (has_trace i t ≡ false) ⊎ (contains i s ≡ true)
      → emulate_loop (t ∷ ts) s ≡ emulate_loop ts s
      → started i (emulate_loop (t ∷ ts) s).1 ≡ (if contains i s then [] else first_with i (t ∷ ts))
  unfolding first_with
  started_skipped (inl h) e = rw e (rw h (rest s))
  started_skipped (inr c) e = rw e (rw c (rest s ∙ rw c refl))

  started_new :
      (j : ℕ)
      → t.initial_msg_hash ≡ some j
      → contains j s ≡ false
      → started i (emulate_loop (t ∷ ts) s).1 ≡ (if contains i s then [] else first_with i (t ∷ ts))
  unfolding first_with started
  started_new j e c =
      let h = has_trace-some i j t e in
      let more = rest (insert j s) in
      ground (arith, starts_new j t ts s e c, h, c, more, contains-insert j i s)

  started_step :
      (o : Option ℕ)
      → t.initial_msg_hash ≡ o
      → started i (emulate_loop (t ∷ ts) s).1 ≡ (if contains i s then [] else first_with i (t ∷ ts))
  started_step none e = started_skipped (inl (has_trace-none i t e)) (skips_untraced t ts s e)
  started_step (some j) e = elim (Bool-cases (contains j s)) [
    | inl known ↦
        started_skipped
          (elim (Bool-cases (j == i)) [
            | inl same ↦ inr (ground (arith, same, known))
            | inr other ↦ inl (has_trace-some i j t e ∙ other)
          ])
          (skips_in_progress j t ts s e known)
    | inr new ↦ started_new j e new
  ]

loop-started :
    (i : ℕ) (ts : List TransactionInfo) (s : List ℕ)
    → started i (emulate_loop ts s).1 ≡ (if contains i s then [] else first_with i ts)
unfolding emulate_loop started first_with
loop-started i [] s = ground arith
loop-started i (t ∷ ts) s = started_step i t ts s (λ r. loop-started i ts r) t.initial_msg_hash refl

-- `emulate_traces` has each trace emulated that has a transaction, but for those in progress: once,
-- from its first transaction in the list.
pub emulate_traces-started :
    (e : McBlockEmulator) (i : ℕ)
    → started i (emulate_traces e).1
      ≡ (if contains i e.trace_ids_in_progress then [] else first_with i e.txs)
unfolding emulate_traces
emulate_traces-started e i = loop-started i e.txs e.trace_ids_in_progress

-- How the emulation of a trace ends: it is handed on, and `trace_processor` answers, or there is an
-- error before that.
pub data Answer : Type 0 where
  processed : ℕ → Answer
  errored : ℕ → Answer

unfoldable pub id_of : Answer → ℕ
id_of (processed i) = i
id_of (errored i) = i

unfoldable pub answered : Answer → McBlockEmulator → McBlockEmulator × List Effect
unfolding trace_finished trace_error
answered (processed i) e = trace_finished i e
answered (errored i) e = trace_error i e

-- The answers in the order in which they come.
unfoldable pub run : List Answer → McBlockEmulator → List Effect
unfolding answered
run [] e = []
run (a ∷ more) e = let r = answered a e in r.1 ++ run more r.0

-- The last answer, if there is one, is not an error.
unfoldable pub last_is_processed : List Answer → Bool
last_is_processed [] = false
last_is_processed (processed i ∷ []) = true
last_is_processed (errored i ∷ []) = false
last_is_processed (a ∷ b ∷ more) = last_is_processed (b ∷ more)

contains_nothing : (s : List ℕ) → ((i : ℕ) → contains i s ≡ false) → is_empty s ≡ true
unfolding contains
contains_nothing [] h = refl
contains_nothing (i ∷ s) h = absurd (ground (arith, h i))

contains_something : (i : ℕ) (s : List ℕ) → contains i s ≡ true → is_empty s ≡ false
unfolding contains
contains_something i [] h = cc
contains_something i (j ∷ s) h = refl

-- The answers are those of the traces in progress, one each.
abbrev pub IsRun : List Answer → List ℕ → Type 0
IsRun [] s = (i : ℕ) → contains i s ≡ false
IsRun (a ∷ more) s = (contains (id_of a) s ≡ true) × IsRun more (remove (id_of a) s)

-- If each trace in progress is answered once, then the promise of the emulator is given its value,
-- once, if the last answer is not an error, and never otherwise: neither if the last answer is an
-- error, nor if there is no trace.
pub run-value :
    (more : List Answer) (e : McBlockEmulator)
    → IsRun more e.trace_ids_in_progress
    → run more e ≡ (if last_is_processed more then set_value ∷ [] else [])
unfolding run answered last_is_processed trace_finished trace_error id_of
run-value [] e h = refl
run-value (processed i ∷ []) e h = rw (contains_nothing (remove i e.trace_ids_in_progress) h.1) refl
run-value (errored i ∷ []) e h = refl
run-value (processed i ∷ b ∷ more) e h =
    let e' : McBlockEmulator = (trace_finished i e).0 in
    rw (contains_something (id_of b) (remove i e.trace_ids_in_progress) h.1.0)
      (run-value (b ∷ more) e' h.1)
run-value (errored i ∷ b ∷ more) e h = run-value (b ∷ more) (trace_error i e).0 h.1
