-- ===== src/Assembler/Transactions.antt =====
-- TraceAssembler::process_transaction keeps the counts of pending edges.
use ton_index_worker.Prelude.{ℕ, refl}
use ton_index_worker.Schema.{Transaction}
use ton_index_worker.Assembler.{Work, open_trace, process_transaction}
use ton_index_worker.Assembler.Inv.{Inv}
use ton_index_worker.Assembler.Held.{Fresh, held_store, process_out_msgs-Held}
use ton_index_worker.Assembler.Opening.{open_trace-Held, open_trace_new}

-- If the invariant holds and the hashes that a transaction brings are new, it holds after it: every trace
-- counts its pending edges, and no pending edge is without its trace.
pub process_transaction-Inv :
    (seqno : ℕ) (tx : Transaction) (w : Work)
    → Fresh w.pending_traces w.pending_edges tx
    → Inv w.pending_traces w.pending_edges
    → Inv
        (process_transaction seqno tx w).0.pending_traces
        (process_transaction seqno tx w).0.pending_edges
unfolding process_transaction
process_transaction-Inv seqno tx w f v =
    let held = open_trace-Held seqno tx w tx.in_msg f.new_tx v in
    (process_out_msgs-Held tx _ (open_trace seqno tx w tx.in_msg).key _ tx.out_msgs
      (open_trace_new seqno tx w tx.in_msg tx.out_msgs f.not_own f.new_msgs) f.distinct_msgs
      (record {
        inv = held_store _ _ _ (open_trace seqno tx w tx.in_msg).trace _ held.inv held.named refl;
        named = held.named;
      })).inv
