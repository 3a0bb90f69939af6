-- ===== src/Emulator.antt =====
-- ton-trace-emulator/src/BlockEmulator.cpp and BlockEmulator.h: of each transaction of a masterchain
-- block's blocks, `McBlockEmulator` finds the trace it belongs to, and has each trace emulated once.
-- Hashes are numbers. Cells, and the emulation itself, are left out.
pub mod Lists
pub mod Loop
pub mod Origins
pub mod Traces
pub mod Scheduler
pub mod Order
pub mod Feed
pub mod Fed
pub mod Arrival
pub mod InOrder
use ton_index_worker.Prelude.{
  ℕ, ◌+◌, Bool, true, false, Option, none, some, List, [], ◌∷◌, ◌++◌, ltb, ◌==◌, if◌then◌else◌,
}
use ton_index_worker.Prelude.Words.{sub64}
use ton_index_worker.Prelude.Maps.{find, emplace, insert_or_assign, contains, insert, remove}
use ton_index_worker.Insert.{is_empty}

pub record TransactionInfo : Type 0 where
  pub account : ℕ
  pub hash : ℕ
  pub lt : ℕ  -- uint64
  pub in_msg_hash : ℕ
  pub is_first : Bool
  pub out_msgs : List ℕ  -- their hashes
  pub initial_msg_hash : Option ℕ

pub record McBlockEmulator : Type 0 where
  pub blocks_left_to_parse : ℕ  -- size_t
  pub txs : List TransactionInfo
  pub tx_by_in_msg_hash : List (ℕ × TransactionInfo)
  pub trace_ids_in_progress : List ℕ
  pub traces_cnt : ℕ  -- int
  pub interblock_trace_ids : List (ℕ × ℕ)  -- shared by all emulators

-- What a handler starts, and what the promise of the emulator is given.
pub data Effect : Type 0 where
  emulate_trace_tail : TransactionInfo → Effect
  process_trace : ℕ → Effect
  set_error set_value : Effect

unfoldable pub insert_by_lt : TransactionInfo → List TransactionInfo → List TransactionInfo
insert_by_lt t [] = t ∷ []
insert_by_lt t (u ∷ us) = if ltb u.lt t.lt then u ∷ insert_by_lt t us else t ∷ u ∷ us

-- `std::sort` by `lt`; the source leaves the order of equal ones open.
unfoldable pub sort_by_lt : List TransactionInfo → List TransactionInfo
unfolding insert_by_lt
sort_by_lt [] = []
sort_by_lt (t ∷ ts) = insert_by_lt t (sort_by_lt ts)

-- `txs_by_out_msg_hash`, with copies of the transactions as they are before the loop.
unfoldable pub emplace_each :
    List ℕ → TransactionInfo → List (ℕ × TransactionInfo) → List (ℕ × TransactionInfo)
emplace_each [] t m = m
emplace_each (h ∷ hs) t m = emplace_each hs t (emplace h t m)

unfoldable pub txs_by_out_msg_hash :
    List TransactionInfo → List (ℕ × TransactionInfo) → List (ℕ × TransactionInfo)
unfolding emplace_each
txs_by_out_msg_hash [] m = m
txs_by_out_msg_hash (t ∷ ts) m = txs_by_out_msg_hash ts (emplace_each t.out_msgs t m)

unfoldable pub initial_by_out_msg : ℕ → List (ℕ × TransactionInfo) → Option ℕ
initial_by_out_msg hash by_out = elim (find hash by_out) [
  | none ↦ none
  | some parent ↦ parent.initial_msg_hash
]

-- The trace of a transaction.
unfoldable pub initial_of : List (ℕ × TransactionInfo) → List (ℕ × ℕ) → TransactionInfo → Option ℕ
unfolding initial_by_out_msg
initial_of by_out interblock t =
    if t.is_first then some t.in_msg_hash else elim (initial_by_out_msg t.in_msg_hash by_out) [
      | some i ↦ some i
      | none ↦ elim (find t.in_msg_hash interblock) [ some i ↦ some i | none ↦ t.initial_msg_hash ]
    ]

unfoldable pub write_each : List ℕ → ℕ → List (ℕ × ℕ) → List (ℕ × ℕ)
write_each [] i m = m
write_each (h ∷ hs) i m = write_each hs i (insert_or_assign h i m)

unfoldable pub write_out_msgs : List ℕ → Option ℕ → List (ℕ × ℕ) → List (ℕ × ℕ)
unfolding write_each
write_out_msgs hashes none m = m
write_out_msgs hashes (some i) m = write_each hashes i m

-- The loop of `process_txs`: the transactions with their traces, and the two maps.
pub record Processed : Type 0 where
  pub txs : List TransactionInfo
  pub by_in : List (ℕ × TransactionInfo)
  pub interblock : List (ℕ × ℕ)

unfoldable pub process_loop :
    List (ℕ × TransactionInfo)
    → List TransactionInfo
    → List (ℕ × TransactionInfo)
    → List (ℕ × ℕ)
    → Processed
unfolding initial_of write_out_msgs
process_loop by_out [] by_in interblock = record {
  txs = [];
  by_in = by_in;
  interblock = interblock;
}
process_loop by_out (t ∷ ts) by_in interblock =
    let t' = record t { initial_msg_hash = initial_of by_out interblock t } in
    let rest =
      process_loop by_out ts (emplace t'.in_msg_hash t' by_in)
        (write_out_msgs t'.out_msgs t'.initial_msg_hash interblock) in
    record rest { txs = t' ∷ rest.txs }

-- The loop of `emulate_traces`: the traces in progress and what is started.
unfoldable pub emulate_loop : List TransactionInfo → List ℕ → List ℕ × List Effect
emulate_loop [] in_progress = (in_progress, [])
emulate_loop (t ∷ ts) in_progress = elim t.initial_msg_hash [
  | none ↦ emulate_loop ts in_progress
  | some i ↦ elim (contains i in_progress) [
    | true ↦ emulate_loop ts in_progress
    | false ↦
        let rest = emulate_loop ts (insert i in_progress) in (rest.0, emulate_trace_tail t ∷ rest.1)
  ]
]

unfoldable pub emulate_traces : McBlockEmulator → McBlockEmulator × List Effect
unfolding emulate_loop
emulate_traces e =
    let r = emulate_loop e.txs e.trace_ids_in_progress in
    (record e { trace_ids_in_progress = r.0 }, r.1)

unfoldable pub process_txs : McBlockEmulator → McBlockEmulator × List Effect
unfolding sort_by_lt txs_by_out_msg_hash process_loop emulate_traces
process_txs e =
    let sorted = sort_by_lt e.txs in
    let r =
      process_loop (txs_by_out_msg_hash sorted []) sorted e.tx_by_in_msg_hash
        e.interblock_trace_ids in
    emulate_traces
      (record e { txs = r.txs; tx_by_in_msg_hash = r.by_in; interblock_trace_ids = r.interblock })

unfoldable pub block_parsed : List TransactionInfo → McBlockEmulator → McBlockEmulator × List Effect
unfolding process_txs
block_parsed txs e =
    let left = sub64 e.blocks_left_to_parse 1 in
    let e' = record e { txs = e.txs ++ txs; blocks_left_to_parse = left } in
    let done = process_txs e' in if left == 0 then done else (e', [])

-- A block that is not parsed ends the emulator.
abbrev pub parse_error : McBlockEmulator → McBlockEmulator × List Effect
parse_error e = (e, set_error ∷ [])

-- `trace_error` and `trace_interfaces_error`.
unfoldable pub trace_error : ℕ → McBlockEmulator → McBlockEmulator × List Effect
trace_error trace_id e =
    (record e { trace_ids_in_progress = remove trace_id e.trace_ids_in_progress }, [])

abbrev pub trace_emulated : ℕ → McBlockEmulator → McBlockEmulator × List Effect
trace_emulated trace_id e = (e, process_trace trace_id ∷ [])

unfoldable pub trace_finished : ℕ → McBlockEmulator → McBlockEmulator × List Effect
trace_finished trace_id e =
    let in_progress = remove trace_id e.trace_ids_in_progress in
    let e' = record e { trace_ids_in_progress = in_progress; traces_cnt = e.traces_cnt + 1 } in
    (e', if is_empty in_progress then set_value ∷ [] else [])
