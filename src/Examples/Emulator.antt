-- ===== src/Examples/Emulator.antt =====
-- BlockEmulator.cpp on a masterchain block with two transactions of one trace, and TraceScheduler.cpp on
-- three masterchain blocks.
use ton_index_worker.Prelude.{
  ℕ, ◌≡◌, ◌⊎◌, inl, inr, refl, sym, ap, ◌∙◌, true, false, none, some, [], ◌∷◌, arith,
}
use ton_index_worker.Prelude.Maps.{contains, find, insert, remove}
use ton_index_worker.Emulator.{
  TransactionInfo, McBlockEmulator, sort_by_lt, txs_by_out_msg_hash, process_loop, process_txs,
  emulate_traces,
}
use ton_index_worker.Emulator.Loop.{process_loop-same}
use ton_index_worker.Emulator.Origins.{Causal, Traced, process_txs-Traced}
use ton_index_worker.Emulator.Traces.{
  first_with, started, run, id_of, last_is_processed, processed, errored, emulate_traces-started,
  run-value,
}
use ton_index_worker.Emulator.Scheduler.{
  TraceEmulatorScheduler, got_last_mc_seqno, alarm, fetch_seqnos, fetch_each, insert_each,
  seqno_fetched,
}
use ton_index_worker.Emulator.Feed.{System, Reach, here, next, learns, rings, fetches, requested}
use ton_index_worker.Emulator.Order.{emulated}
use ton_index_worker.Emulator.InOrder.{InOrder, IsNewScheduler, begun, Reach-InOrder}
use ton_index_worker.Integrity.{range}

-- An external message, and what its transaction sends.
abbrev cause : TransactionInfo
cause = record {
  account = 1;
  hash = 11;
  lt = 5;
  in_msg_hash = 100;
  is_first = true;
  out_msgs = 200 ∷ [];
  initial_msg_hash = none;
}

abbrev effect : TransactionInfo
effect = record {
  account = 2;
  hash = 12;
  lt = 9;
  in_msg_hash = 200;
  is_first = false;
  out_msgs = [];
  initial_msg_hash = none;
}

abbrev emulator : McBlockEmulator
emulator = record {
  blocks_left_to_parse = 0;
  txs = effect ∷ cause ∷ [];
  tx_by_in_msg_hash = [];
  trace_ids_in_progress = [];
  traces_cnt = 0;
  interblock_trace_ids = [];
}

process_loop-same_example :
    process_loop (txs_by_out_msg_hash (cause ∷ effect ∷ []) []) (cause ∷ effect ∷ []) [] []
    ≡ process_loop [] (cause ∷ effect ∷ []) [] []
process_loop-same_example = process_loop-same (cause ∷ effect ∷ []) [] [] (refl, (refl, tt))

sends_nothing : (p : TransactionInfo) (h : ℕ) → p ≡ effect → contains h p.out_msgs ≡ false
unfolding contains
sends_nothing p h e = ap (λ x. contains h (TransactionInfo.out_msgs x)) e

two-Causal : Causal emulator.txs []
unfolding contains find
two-Causal = record {
  blank = λ t i. elim i [
    | inl e ↦ ap (λ x. TransactionInfo.initial_msg_hash x) e
    | inr (inl e) ↦ ap (λ x. TransactionInfo.initial_msg_hash x) e
    | inr (inr e) ↦ elim e [ ]
  ];
  once = λ p q h i j c d. elim i [
    | inl e ↦ absurd (cc (sends_nothing p h e, c))
    | inr (inl e) ↦ elim j [
      | inl f ↦ absurd (cc (sends_nothing q h f, d))
      | inr (inl f) ↦ e ∙ sym f
      | inr (inr f) ↦ elim f [ ]
    ]
    | inr (inr e) ↦ elim e [ ]
  ];
  fresh = λ p h i c. refl;
  later = λ p t i j c. elim i [
    | inl e ↦ absurd (cc (sends_nothing p t.in_msg_hash e, c))
    | inr (inl e) ↦ elim j [
      | inl f ↦ omega (arith, ap (λ x. TransactionInfo.lt x) e, ap (λ x. TransactionInfo.lt x) f)
      | inr (inl f) ↦
          let own : contains 100 (200 ∷ []) ≡ true =
            sym (
              ap (λ x. contains (TransactionInfo.in_msg_hash x) p.out_msgs) f
              ∙ ap (λ x. contains 100 (TransactionInfo.out_msgs x)) e)
            ∙ c in
          absurd (ground (arith, own))
      | inr (inr f) ↦ elim f [ ]
    ]
    | inr (inr e) ↦ elim e [ ]
  ];
}

process_txs-Traced_example :
    Traced (sort_by_lt emulator.txs) [] (sort_by_lt emulator.txs) (process_txs emulator).0.txs
process_txs-Traced_example = process_txs-Traced emulator two-Causal

abbrev traced : McBlockEmulator
traced = record emulator {
  txs =
      record cause { initial_msg_hash = some 100 }
      ∷ record effect { initial_msg_hash = some 100 }
      ∷ [];
}

emulate_traces-started_example : started 100 (emulate_traces traced).1 ≡ first_with 100 traced.txs
unfolding contains
emulate_traces-started_example = emulate_traces-started traced 100

run-value_example :
    run (processed 7 ∷ errored 8 ∷ []) (record emulator { trace_ids_in_progress = 7 ∷ 8 ∷ [] }) ≡ []
unfolding contains remove id_of last_is_processed
run-value_example =
    run-value (processed 7 ∷ errored 8 ∷ [])
      (record emulator { trace_ids_in_progress = 7 ∷ 8 ∷ [] }) (refl, (refl, λ i. refl))

abbrev new_scheduler : TraceEmulatorScheduler
new_scheduler = record {
  last_known_seqno = 0;
  last_fetched_seqno = 0;
  last_emulated_seqno = 0;
  seqnos_to_fetch = [];
  blocks_to_emulate = [];
  overlay_listener = false;
  redis_listener = true;
}

new_scheduler-IsNewScheduler : IsNewScheduler new_scheduler
new_scheduler-IsNewScheduler = record {
  none_known = refl;
  none_emulated = refl;
  none_to_fetch = refl;
  no_blocks = refl;
}

-- Block 5 is known first; then 6 and 7 are, and 6 comes.
abbrev knows : System
knows = record (begun 5 new_scheduler) {
  scheduler = got_last_mc_seqno 7 (begun 5 new_scheduler).scheduler;
}

abbrev asks : System
asks = record knows {
  scheduler = (alarm knows.scheduler).0;
  fetching = requested (alarm knows.scheduler).1;
}

abbrev has_one : System
has_one = record {
  scheduler =
      (seqno_fetched 6 (record { shard_blocks = []; shard_blocks_diff = [] }) asks.scheduler).0;
  fetching = remove 6 asks.fetching;
  arrived = 6 ∷ [];
  log =
      emulated
        (seqno_fetched 6 (record { shard_blocks = []; shard_blocks_diff = [] }) asks.scheduler).1;
}

one_block : Reach (begun 5 new_scheduler) has_one
unfolding got_last_mc_seqno contains alarm fetch_seqnos fetch_each insert_each range insert
    requested
one_block =
    next (next (next here (learns 7 (omega arith) (omega arith))) rings)
      (fetches 6 (record { shard_blocks = []; shard_blocks_diff = [] }) refl)

Reach-InOrder_example : ((has_one.arrived ≡ []) × (has_one.log ≡ [])) ⊎ InOrder 5 has_one
Reach-InOrder_example =
    Reach-InOrder 5 new_scheduler new_scheduler-IsNewScheduler (omega arith) (omega arith) has_one
      one_block
