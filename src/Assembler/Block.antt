-- ===== src/Assembler/Block.antt =====
-- TraceAssembler::process_block of tondb-scanner/src/TraceAssembler.cpp. `none` is a fault: a null
-- trace is read, the `assert` fails, or an edge is added to a trace that was never filled in.
use ton_index_worker.Prelude.{
  ℕ, ◌+◌, Bool, Option, none, some, List, [], ◌∷◌, ◌++◌, map, length, concat, ltb, ◌==◌,
  if◌then◌else◌,
}
use ton_index_worker.Prelude.Words.{slt32}
use ton_index_worker.Prelude.Maps.{find, insert_or_assign, erase}
use ton_index_worker.Schema.{Transaction, Block, ParsedBlock, Trace, TraceState, complete, broken}
use ton_index_worker.Assembler.{
  TraceEdgeImpl, TraceImpl, Traces, Edges, Work, edge_to_schema, trace_to_schema,
  process_transaction,
}

infixl 5 ◌>>=◌
abbrev pub ◌>>=◌ {ℓ κ} : {A : Type ℓ} {B : Type κ} → Option A → (A → Option B) → Option B
none >>= f = none
some a >>= f = f a

-- The members that a block changes.
pub record Pending : Type 0 where
  pub pending_traces : Traces
  pub pending_edges : Edges
  pub broken_count : ℕ  -- size_t

-- The order of `std::sort`: by logical time, then workchain, then address.
unfoldable pub tx_before : Transaction → Transaction → Bool
tx_before l r =
    if l.lt == r.lt
    then (if l.account.workchain == r.account.workchain
        then ltb l.account.addr r.account.addr
        else slt32 l.account.workchain r.account.workchain)
    else ltb l.lt r.lt

-- A `std::reference_wrapper`: a transaction with its place among all those of the block.
abbrev pub TxRef : Type 0
TxRef = ℕ × Transaction

unfoldable pub number : ℕ → List Transaction → List TxRef
number n [] = []
number n (tx ∷ txs) = (n, tx) ∷ number (n + 1) txs

unfoldable pub insert_sorted : TxRef → List TxRef → List TxRef
insert_sorted x [] = x ∷ []
insert_sorted x (y ∷ ys) = if tx_before y.1 x.1 then y ∷ insert_sorted x ys else x ∷ y ∷ ys

unfoldable pub sort_txs : List TxRef → List TxRef
unfolding insert_sorted tx_before
sort_txs [] = []
sort_txs (x ∷ xs) = insert_sorted x (sort_txs xs)

unfoldable pub all_txs : List Block → List Transaction
all_txs blocks = concat (map (λ b. b.transactions) blocks)

unfoldable pub process_all : ℕ → List TxRef → Work → Work × List TxRef
unfolding process_transaction
process_all seqno [] w = (w, [])
process_all seqno ((n, tx) ∷ txs) w =
    let r = process_transaction seqno tx w in
    let rest = process_all seqno txs r.0 in (rest.0, (n, r.1) ∷ rest.1)

-- What was written through the references.
or_self : Transaction → Option Transaction → Transaction
or_self tx none = tx
or_self tx (some tx') = tx'

unfoldable pub write_txs : List TxRef → ℕ → List Transaction → List Transaction
unfolding or_self find
write_txs done n [] = []
write_txs done n (tx ∷ txs) = or_self tx (find n done) ∷ write_txs done (n + 1) txs

unfoldable pub write_blocks : List TxRef → ℕ → List Block → List Block
unfolding write_txs
write_blocks done n [] = []
write_blocks done n (b ∷ bs) =
    record b { transactions = write_txs done n b.transactions }
    ∷ write_blocks done (n + length b.transactions) bs

-- The state that a trace without pending edges ends in.
unfoldable pub final_state : TraceState → TraceState
final_state broken = broken
final_state _ = complete

-- One round of the loop over the updated traces: the traces that stay, and the one to report.
-- `pending_edges` is unsigned, so its test against 0 is what the source writes.
unfoldable pub close_found : TraceImpl → Traces → Traces × Trace
unfolding final_state
close_found trace traces =
    if trace.pending_edges == 0
    then (
      erase trace.trace_id traces,
      trace_to_schema (record trace { state = final_state trace.state }),
    )
    else if ltb trace.pending_edges 0
    then (
      insert_or_assign trace.trace_id (record trace { state = broken }) traces,
      trace_to_schema (record trace { state = broken }),
    )
    else (traces, trace_to_schema trace)

unfoldable pub close_traces :
    List ℕ → Traces → List (ℕ × Trace) → Option (Traces × List (ℕ × Trace))
unfolding close_found
close_traces [] traces trace_map = some (traces, trace_map)
close_traces (id ∷ ids) traces trace_map = elim (find id traces) [
  | none ↦ none
  | some trace ↦
      let r = close_found trace traces in close_traces ids r.0 (insert_or_assign id r.1 trace_map)
]

-- The pending edges that this block added; each is still incomplete.
unfoldable pub collect_added : Edges → List ℕ → Option (List TraceEdgeImpl)
collect_added edges [] = some []
collect_added edges (hash ∷ hashes) = elim (find hash edges) [
  | none ↦ none
  | some edge ↦ do
    rest ← collect_added edges hashes
    if edge.incomplete then some (edge ∷ rest) else none
]

unfoldable pub add_edges : List TraceEdgeImpl → List (ℕ × Trace) → Option (List (ℕ × Trace))
add_edges [] trace_map = some trace_map
add_edges (edge ∷ edges) trace_map = elim (find edge.trace_id trace_map) [
  | none ↦ none
  | some trace ↦ add_edges edges (
      insert_or_assign edge.trace_id
        (record trace { edges = trace.edges ++ edge_to_schema edge ∷ [] }) trace_map)
]

unfoldable pub start_work : Pending → Work
start_work p = record {
  pending_traces = p.pending_traces;
  pending_edges = p.pending_edges;
  broken_count = p.broken_count;
  completed_edges = [];
  updated_traces = [];
  pending_edges_added = [];
}

abbrev pub values {ℓ} : {A : Type ℓ} → List (ℕ × A) → List A
values = map (λ e. e.1)

-- After the transactions: traces are closed, and edges are handed to their traces.
unfoldable pub finish_block : Work → Option (Pending × List Trace)
unfolding close_traces collect_added add_edges
finish_block w = do
  (traces, trace_map) ← close_traces w.updated_traces w.pending_traces []
  added ← collect_added w.pending_edges w.pending_edges_added
  filled ← add_edges (w.completed_edges ++ added) trace_map
  some (
    record {
      pending_traces = traces;
      pending_edges = w.pending_edges;
      broken_count = w.broken_count;
    },
    values filled,
  )

unfoldable pub process_block : ℕ → ParsedBlock → Pending → Option (Pending × ParsedBlock)
unfolding number sort_txs all_txs process_all write_blocks start_work finish_block
process_block seqno block p =
    let r = process_all seqno (sort_txs (number 0 (all_txs block.blocks))) (start_work p) in
    do
      (p', traces) ← finish_block r.0
      some (
        p',
        record block { blocks = write_blocks r.1 0 block.blocks; traces = block.traces ++ traces },
      )
