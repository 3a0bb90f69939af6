-- ===== src/Examples/Assembler.antt =====
-- tondb-scanner/src/TraceAssembler.cpp on a small chain: a trace that waits for message 10, which
-- transaction 100 receives, and an external message that begins a trace at transaction 101.
use ton_index_worker.Prelude.{
  ℕ, leb, ltb, ◌&&◌, ◌+◌, ◌⊎◌, map, if◌then◌else◌, ◌==◌, ◌≤◌, ◌<◌, ◌≡◌, refl, true, false, Option,
  none, some, List, [], ◌∷◌, arith, length,
}
use ton_index_worker.Prelude.Maps.{find, emplace, insert, insert_or_assign, erase, remove}
use ton_index_worker.Schema.{Message, Transaction, ParsedBlock, Trace, TraceState, ord}
use ton_index_worker.Assembler.{
  TraceEdgeImpl, TraceImpl, Traces, Edges, process_transaction, trace_to_schema,
}
use ton_index_worker.Assembler.Inv.{Inv, count}
use ton_index_worker.Assembler.Block.{
  Pending, number, sort_txs, all_txs, start_work, process_block, tx_before,
}
use ton_index_worker.Assembler.Held.{Fresh}
use ton_index_worker.Assembler.Freshness.{FreshTxs, Apart}
use ton_index_worker.Assembler.Transactions.{process_transaction-Inv}
use ton_index_worker.Assembler.Blocks.{
  process_block_total, sorted_refs, after_txs, written, Finished,
}
use ton_index_worker.Assembler.Sizes.{message_bound}
use ton_index_worker.Assembler.Tasks.{TraceAssembler, Answer, fatal, done, assemble}
use ton_index_worker.Assembler.Serving.{IsValid, FreshTurns, Processed, IsDrained, answered}
use ton_index_worker.Assembler.Answers.{with_task, assemble_total}
use ton_index_worker.Assembler.Sorting.{IsInOrder, sort_txs-sorts, tx_before_strict_weak}
use ton_index_worker.Assembler.Faults.{assembled_twice_fatal}
use ton_index_worker.Assembler.States.{
  DirEntry, Restored, restored, state_seqno, state_file, state_files, gc_states, load,
  restore_state,
}
use ton_index_worker.Assembler.Backups.{state_seqno-state_file, newer, gc_states-find}
use ton_index_worker.Assembler.Restoring.{RestoresNewest, restore_state_newest}
use ton_index_worker.Prelude.Words.{mod64}
use mathlib.Core.List.{Perm}

abbrev sent : Message
sent = record {
  hash = 10;
  source = some "0:aa";
  destination = some "0:bb";
  created_lt = some 5;
  trace_id = 0;
}

abbrev reply : Message
reply = record {
  hash = 11;
  source = some "0:bb";
  destination = some "0:cc";
  created_lt = some 21;
  trace_id = 0;
}

abbrev log : Message
log = record {
  hash = 12;
  source = some "0:dd";
  destination = none;
  created_lt = some 11;
  trace_id = 0;
}

abbrev external : Message
external = record {
  hash = 13;
  source = none;
  destination = some "0:dd";
  created_lt = none;
  trace_id = 0;
}

abbrev tx_reply : Transaction
tx_reply = record {
  hash = 100;
  account = record { workchain = 0; addr = 5 };
  lt = 20;
  now = 1000;
  in_msg = some sent;
  out_msgs = reply ∷ [];
  trace_id = 0;
}

abbrev tx_external : Transaction
tx_external = record {
  hash = 101;
  account = record { workchain = 0; addr = 7 };
  lt = 10;
  now = 999;
  in_msg = some external;
  out_msgs = log ∷ [];
  trace_id = 0;
}

abbrev waiting : TraceImpl
waiting = record {
  trace_id = 1;
  external_hash = none;
  mc_seqno_start = 4;
  mc_seqno_end = 4;
  start_lt = 4;
  start_utime = 998;
  end_lt = 4;
  end_utime = 998;
  state = TraceState.pending;
  pending_edges = 1;
  edges = 1;
  nodes = 1;
}

abbrev waiting_edge : TraceEdgeImpl
waiting_edge = record {
  trace_id = 1;
  msg_hash = 10;
  msg_lt = 5;
  left_tx = some 1;
  right_tx = none;
  type = ord;
  incomplete = true;
  broken = false;
}

abbrev before : Pending
before = record {
  pending_traces = (1, waiting) ∷ [];
  pending_edges = (10, waiting_edge) ∷ [];
  broken_count = 0;
}

abbrev block : ParsedBlock
block = record {
  blocks = record { seqno = 5; transactions = tx_reply ∷ tx_external ∷ [] } ∷ [];
  traces = [];
}

before-Inv : Inv before.pending_traces before.pending_edges
unfolding find count
before-Inv = record {
  distinct = (refl, tt);
  named = λ t. ground arith;
  open_edges = λ k. ground arith;
  agrees = λ t. ground arith;
}

tx_reply-Fresh : Fresh before.pending_traces before.pending_edges tx_reply
unfolding find
tx_reply-Fresh = record {
  new_tx = refl;
  new_msgs = (refl, tt);
  distinct_msgs = (tt, tt);
  not_own = (omega arith, tt);
}

process_transaction-Inv_example :
    let w = (process_transaction 5 tx_reply (start_work before)).0 in
    Inv w.pending_traces w.pending_edges
unfolding start_work
process_transaction-Inv_example =
    process_transaction-Inv 5 tx_reply (start_work before) tx_reply-Fresh before-Inv

external-Apart : Apart tx_external tx_reply
external-Apart = record {
  other_tx = omega arith;
  other_than_in = (omega arith, tt);
  other_than_out = ((omega arith, tt), tt);
}

tx_external-Fresh : Fresh before.pending_traces before.pending_edges tx_external
unfolding find
tx_external-Fresh = record {
  new_tx = refl;
  new_msgs = (refl, tt);
  distinct_msgs = (tt, tt);
  not_own = (omega arith, tt);
}

block-FreshTxs : FreshTxs before.pending_traces before.pending_edges (sorted_refs block)
unfolding number sort_txs all_txs
block-FreshTxs = (tx_external-Fresh, (external-Apart, tt), (tx_reply-Fresh, tt, tt))

block_small : length before.pending_edges + message_bound (sorted_refs block) < mod64
unfolding number sort_txs all_txs
block_small = omega arith

process_block_total_example :
    (r : Pending × List Trace) × (process_block 5 block before
      ≡ some (r.0, written 5 block before r.1))
    × Finished (after_txs 5 block before).0 r
process_block_total_example =
    process_block_total 5 block before before-Inv block-FreshTxs block_small

-- The external trace is complete, and the other one waits for the reply.
abbrev states_of : Option (Pending × ParsedBlock) → List (ℕ × TraceState × ℕ)
states_of none = []
states_of (some (p, b)) = map (λ t. (t.trace_id, t.state, t.pending_edges)) b.traces

block_states :
    states_of (process_block 5 block before)
    ≡ (101, TraceState.complete, 0) ∷ (1, TraceState.pending, 1) ∷ []
unfolding process_block insert insert_or_assign erase remove trace_to_schema
block_states = refl

abbrev waiting_block : ParsedBlock
waiting_block = record { blocks = []; traces = [] }

abbrev assembler : TraceAssembler
assembler = record { expected_seqno = 5; queue = []; pending = before }

assembler-IsValid : IsValid assembler
unfolding find
assembler-IsValid = record { small = omega arith; distinct = tt; own = λ k. tt; inv = before-Inv }

abbrev queued : TraceAssembler
queued = with_task 5 block 1 assembler

queued-FreshTurns : FreshTurns (length queued.queue) queued
unfolding emplace find process_block insert insert_or_assign erase remove
queued-FreshTurns = ((block-FreshTxs, block_small), tt)

assemble_total_example :
    ((5 < assembler.expected_seqno) × (assemble 5 block 1 assembler ≡ fatal))
    ⊎ ((assembler.expected_seqno ≤ 5)
        × ((r : TraceAssembler × List Answer) × (assemble 5 block 1 assembler ≡ done r.0 r.1 [])
            × Processed queued r
            × IsDrained r.0)
        × ((k : ℕ)
            → find k queued.queue ≡ (
                if k == 5
                then some (record { seqno = 5; block = block; promise = 1 })
                else find k assembler.queue)))
unfolding emplace find process_block
assemble_total_example = assemble_total 5 block 1 assembler assembler-IsValid queued-FreshTurns

sort_txs-sorts_example :
    Perm (sort_txs (number 0 (all_txs block.blocks))) (number 0 (all_txs block.blocks))
    × IsInOrder (sort_txs (number 0 (all_txs block.blocks)))
unfolding number all_txs
sort_txs-sorts_example = sort_txs-sorts (number 0 (all_txs block.blocks)) (omega arith)

tx_before_strict_weak_example :
    (tx_before tx_external tx_reply ≡ true → tx_before tx_reply tx_external ≡ false)
    × (tx_before tx_external tx_reply ≡ true
        → tx_before tx_reply tx_reply ≡ true
        → tx_before tx_external tx_reply ≡ true)
    × (tx_before tx_external tx_reply ≡ false
        → tx_before tx_reply tx_reply ≡ false
        → tx_before tx_external tx_reply ≡ false)
tx_before_strict_weak_example =
    tx_before_strict_weak tx_external tx_reply tx_reply (omega arith) (omega arith)

assembled_twice_fatal_example :
    (r : TraceAssembler × List Answer) × (lost : List ℕ) × (assemble 5 block 1 assembler
      ≡ done r.0 r.1 lost)
    × (answered 5 r.1 ≡ true)
    × (assemble 5 waiting_block 2 r.0 ≡ fatal)
unfolding emplace
assembled_twice_fatal_example =
    assembled_twice_fatal block 1 waiting_block 2 assembler assembler-IsValid queued-FreshTurns
      (omega arith)

abbrev newer_file : DirEntry
newer_file = state_file 9

abbrev older_file : DirEntry
older_file = state_file 7

state_seqno-state_file_example : state_seqno (state_file 1234567) ≡ some 1234567
state_seqno-state_file_example = state_seqno-state_file 1234567 (omega arith)

-- The older one is not among the newest: it is removed.
gc_states-find_example : find 7 (gc_states (older_file ∷ newer_file ∷ []) 9 1) ≡ (
    if leb 7 9 && ltb (newer 7 9 (state_files (older_file ∷ newer_file ∷ []) [])) 1
    then none
    else find 7 (state_files (older_file ∷ newer_file ∷ []) []))
gc_states-find_example = gc_states-find (older_file ∷ newer_file ∷ []) 9 1 7

-- Reading gives the file itself, and only a file with a one-byte name can be unpacked.
abbrev unpack_some : DirEntry → Option (Traces × Edges)
unpack_some e = if length e.stem == 1 then some ([], []) else none

restore_state_newest_example :
    RestoresNewest
      (λ e. some e)
      unpack_some
      8
      (state_files (older_file ∷ newer_file ∷ []) [])
      assembler
      (restore_state (λ e. some e) unpack_some 8 (some (older_file ∷ newer_file ∷ [])) assembler)
restore_state_newest_example =
    restore_state_newest (λ e. some e) unpack_some 8 (older_file ∷ newer_file ∷ []) assembler

-- The newer state is above the number, so the older one is restored.
abbrev restored_seqno : Restored → Option ℕ
restored_seqno (restored k a) = some k
restored_seqno _ = none

restores_older :
    restored_seqno
      (restore_state (λ e. some e) unpack_some 8 (some (older_file ∷ newer_file ∷ [])) assembler)
    ≡ some 7
unfolding restore_state state_file load
restores_older = refl
