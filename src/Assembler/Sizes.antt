-- ===== src/Assembler/Sizes.antt =====
-- How many edges TraceAssembler::process_transaction can leave pending.
use ton_index_worker.Prelude.{
  ℕ, suc, ◌+◌, ◌≤◌, false, Option, none, some, List, [], ◌∷◌, arith, Bool-cases, inl, inr, length,
}
use ton_index_worker.Prelude.Maps.{length-insert-le, length-erase-le}
use ton_index_worker.Schema.{Message, Transaction}
use ton_index_worker.Assembler.{
  TraceEdgeImpl, TraceImpl, Work, is_some, is_broken, unseen_type, open_unseen, open_first,
  open_pending, open_msg, open_trace, process_out_msg, process_out_msgs, process_transaction,
}
use ton_index_worker.Assembler.Opening.{find_trace-pending_edges}
use ton_index_worker.Assembler.Block.{TxRef, process_all}

open_unseen_size :
    (seqno : ℕ) (tx : Transaction) (m : Message) (w : Work)
    → length (open_unseen seqno tx m w).work.pending_edges ≤ suc (length w.pending_edges)
unfolding open_unseen
open_unseen_size seqno tx m w = elim (Bool-cases (is_broken (unseen_type m.source))) [
  | inl broken ↦ rw broken (length-insert-le _ _ w.pending_edges)
  | inr whole ↦ rw whole (omega arith)
]

open_pending_size :
    (seqno : ℕ) (tx : Transaction) (m : Message) (e : TraceEdgeImpl) (w : Work)
    → length (open_pending seqno tx m e w).work.pending_edges ≤ suc (length w.pending_edges)
unfolding open_pending
open_pending_size seqno tx m e w =
    rw
      (find_trace-pending_edges seqno tx
        (record e { right_tx = some tx.hash; incomplete = false; broken = false }) w _)
      (omega (arith, length-erase-le m.hash w.pending_edges))

open_msg_size :
    (seqno : ℕ) (tx : Transaction) (m : Message) (w : Work) (e : Option TraceEdgeImpl)
    → length (open_msg seqno tx m w e).work.pending_edges ≤ suc (length w.pending_edges)
unfolding open_msg
open_msg_size seqno tx m w none = open_unseen_size seqno tx m w
open_msg_size seqno tx m w (some e) = open_pending_size seqno tx m e w

open_trace_size :
    (seqno : ℕ) (tx : Transaction) (w : Work) (m : Option Message)
    → length (open_trace seqno tx w m).work.pending_edges ≤ suc (length w.pending_edges)
unfolding open_trace open_first
open_trace_size seqno tx w none = omega arith
open_trace_size seqno tx w (some m) = open_msg_size seqno tx m w _

process_out_msg_size :
    (tx : Transaction) (w : Work) (trace : TraceImpl) (m : Message)
    → length (process_out_msg tx (w, trace) m).0.pending_edges ≤ suc (length w.pending_edges)
unfolding process_out_msg
process_out_msg_size tx w trace m = elim (Bool-cases (is_some m.destination)) [
  | inl sent ↦ rw sent (length-insert-le _ _ w.pending_edges)
  | inr log ↦ rw log (omega arith)
]

process_out_msgs_size :
    (tx : Transaction) (w : Work) (trace : TraceImpl) (ms : List Message)
    → length (process_out_msgs tx (w, trace) ms).0.pending_edges
      ≤ length w.pending_edges + length ms
unfolding process_out_msgs
process_out_msgs_size tx w trace [] = omega arith
process_out_msgs_size tx w trace (m ∷ ms) = omega (
  arith,
  process_out_msg_size tx w trace m,
  process_out_msgs_size tx (process_out_msg tx (w, trace) m).0 (process_out_msg tx (w, trace) m).1
      ms,
)

process_transaction_size :
    (seqno : ℕ) (tx : Transaction) (w : Work)
    → length (process_transaction seqno tx w).0.pending_edges
      ≤ length w.pending_edges + suc (length tx.out_msgs)
unfolding process_transaction
process_transaction_size seqno tx w =
    omega (arith, open_trace_size seqno tx w tx.in_msg, process_out_msgs_size tx _ _ tx.out_msgs)

-- One for each transaction and one for each message that it sends.
abbrev pub message_bound : List TxRef → ℕ
message_bound [] = 0
message_bound ((n, tx) ∷ txs) = suc (length tx.out_msgs) + message_bound txs

pub process_all_size :
    (seqno : ℕ) (txs : List TxRef) (w : Work)
    → length (process_all seqno txs w).0.pending_edges ≤ length w.pending_edges + message_bound txs
unfolding process_all
process_all_size seqno [] w = omega arith
process_all_size seqno ((n, tx) ∷ txs) w = omega (
  arith,
  process_transaction_size seqno tx w,
  process_all_size seqno txs (process_transaction seqno tx w).0,
)
