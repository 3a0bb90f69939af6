-- ===== src/Assembler/Freshness.antt =====
-- A list of transactions with new hashes, and TraceAssembler::process_transaction on it in turn.
use ton_index_worker.Prelude.{
  ℕ, ◌≡◌, ◌≢◌, refl, ◌∙◌, Option, none, some, List, [], ◌∷◌, arith, Bool-cases, inl, inr, All,
}
use ton_index_worker.Prelude.Maps.{find, insert_or_assign, find-insert_or_assign}
use ton_index_worker.Schema.{Message, Transaction}
use ton_index_worker.Assembler.{
  TraceEdgeImpl, TraceImpl, Traces, Edges, Work, Opened, is_some, is_broken, unseen_type,
  open_unseen, open_pending, open_first, open_msg, open_trace, process_out_msg, process_out_msgs,
  process_transaction,
}
use ton_index_worker.Assembler.Inv.{Inv, edge_has_trace}
use ton_index_worker.Assembler.Held.{Fresh, DiffersFrom, still_new}
use ton_index_worker.Assembler.Opening.{open_trace_new}
use ton_index_worker.Assembler.Transactions.{process_transaction-Inv}
use ton_index_worker.Assembler.Tracking.{IsTracked, process_transaction-Tracked}
use ton_index_worker.Assembler.Block.{TxRef, process_all}

-- The second transaction follows the first: it has another hash, and sends no message that the
-- first sent or received.
pub record Apart (tx tx' : Transaction) : Type 0 where
  pub other_tx : tx'.hash ≢ tx.hash
  pub other_than_in : DiffersFrom tx'.out_msgs tx.in_msg
  pub other_than_out : All (λ m. All (λ n. m.hash ≢ n.hash) tx'.out_msgs) tx.out_msgs

-- Every hash that the transactions bring is new, and no message is received before it is sent.
abbrev pub FreshTxs : Traces → Edges → List TxRef → Type 0
FreshTxs traces edges [] = Unit
FreshTxs traces edges ((n, tx) ∷ txs) =
    Fresh traces edges tx × All (λ r. Apart tx r.1) txs × FreshTxs traces edges txs

process_out_msgs-pending_traces :
    (tx : Transaction) (wt : Work × TraceImpl) (ms : List Message)
    → (process_out_msgs tx wt ms).0.pending_traces ≡ wt.0.pending_traces
unfolding process_out_msgs
process_out_msgs-pending_traces tx wt [] = refl
process_out_msgs-pending_traces tx (w, trace) (m ∷ ms) =
    process_out_msgs-pending_traces tx (process_out_msg tx (w, trace) m) ms
    ∙ process_out_msg-pending_traces m
  where
    process_out_msg-pending_traces :
        (m : Message) → (process_out_msg tx (w, trace) m).0.pending_traces ≡ w.pending_traces
    process_out_msg-pending_traces m = elim (Bool-cases (is_some m.destination)) [
      | inl sent ↦ rw sent
      | inr log ↦ rw log
    ]

module _ (t : ℕ) (seqno : ℕ) (tx : Transaction) (w : Work) (other : t ≢ tx.hash)
    (f : find t w.pending_traces ≡ none) where
  abbrev IsAbsentAfter : Opened → Type 0
  IsAbsentAfter o =
      (trace : TraceImpl) → find t (insert_or_assign o.key trace o.work.pending_traces) ≡ none

  twice_absent :
      (x y : TraceImpl)
      → find t (insert_or_assign tx.hash x (insert_or_assign tx.hash y w.pending_traces)) ≡ none
  twice_absent x y = ground (
    arith,
    find-insert_or_assign tx.hash t x (insert_or_assign tx.hash y w.pending_traces),
    find-insert_or_assign tx.hash t y w.pending_traces,
  )

  open_unseen_absent : (m : Message) → IsAbsentAfter (open_unseen seqno tx m w)
  unfolding open_unseen
  open_unseen_absent m trace = elim (Bool-cases (is_broken (unseen_type m.source))) [
    | inl broken ↦ rw broken (twice_absent trace _)
    | inr whole ↦ rw whole (twice_absent trace _)
  ]

  open_pending_absent :
      (m : Message) (e : TraceEdgeImpl)
      → find m.hash w.pending_edges ≡ some e
      → Inv w.pending_traces w.pending_edges
      → IsAbsentAfter (open_pending seqno tx m e w)
  unfolding open_pending
  open_pending_absent m e g i trace =
      let (old, here) = edge_has_trace _ _ i m.hash e g in
      rw here (ground (arith, find-insert_or_assign e.trace_id t trace w.pending_traces, here))

  open_msg_absent :
      (m : Message) (e : Option TraceEdgeImpl)
      → find m.hash w.pending_edges ≡ e
      → Inv w.pending_traces w.pending_edges
      → IsAbsentAfter (open_msg seqno tx m w e)
  unfolding open_msg
  open_msg_absent m none g i = open_unseen_absent m
  open_msg_absent m (some e) g i = open_pending_absent m e g i

  open_trace_absent :
      (m : Option Message)
      → Inv w.pending_traces w.pending_edges
      → IsAbsentAfter (open_trace seqno tx w m)
  unfolding open_trace open_first
  open_trace_absent none i = λ trace. twice_absent trace _
  open_trace_absent (some m) i = open_msg_absent m _ refl i

  process_transaction_absent :
      Inv w.pending_traces w.pending_edges
      → find t (process_transaction seqno tx w).0.pending_traces ≡ none
  unfolding process_transaction
  process_transaction_absent i =
      rw process_out_msgs-pending_traces (open_trace_absent tx.in_msg i _)

process_out_msgs_new :
    (tx : Transaction) (w : Work) (trace : TraceImpl) (outs ms : List Message)
    → All (λ m. All (λ n. m.hash ≢ n.hash) ms) outs
    → All (λ n. find n.hash w.pending_edges ≡ none) ms
    → All (λ n. find n.hash (process_out_msgs tx (w, trace) outs).0.pending_edges ≡ none) ms
unfolding process_out_msgs
process_out_msgs_new tx w trace [] ms d f = f
process_out_msgs_new tx w trace (m ∷ outs) ms d f =
    process_out_msgs_new tx (process_out_msg tx (w, trace) m).0 (process_out_msg tx (w, trace) m).1
      outs ms d.1 (still_new tx w trace m ms d.0 f)

process_transaction_new :
    (seqno : ℕ) (tx : Transaction) (w : Work) (ms : List Message)
    → DiffersFrom ms tx.in_msg
    → All (λ m. All (λ n. m.hash ≢ n.hash) ms) tx.out_msgs
    → All (λ n. find n.hash w.pending_edges ≡ none) ms
    → All (λ n. find n.hash (process_transaction seqno tx w).0.pending_edges ≡ none) ms
unfolding process_transaction
process_transaction_new seqno tx w ms d e f =
    process_out_msgs_new tx _ _ tx.out_msgs ms e (open_trace_new seqno tx w tx.in_msg ms d f)

-- A transaction that follows keeps its new hashes.
process_transaction-Fresh :
    (seqno : ℕ) (tx tx' : Transaction) (w : Work)
    → Inv w.pending_traces w.pending_edges
    → Apart tx tx'
    → Fresh w.pending_traces w.pending_edges tx'
    → Fresh
        (process_transaction seqno tx w).0.pending_traces
        (process_transaction seqno tx w).0.pending_edges
        tx'
process_transaction-Fresh seqno tx tx' w i a f = record {
  new_tx = process_transaction_absent tx'.hash seqno tx w a.other_tx f.new_tx i;
  new_msgs =
      process_transaction_new seqno tx w tx'.out_msgs a.other_than_in a.other_than_out f.new_msgs;
  distinct_msgs = f.distinct_msgs;
  not_own = f.not_own;
}

process_transaction-FreshTxs :
    (seqno : ℕ) (tx : Transaction) (w : Work) (txs : List TxRef)
    → Inv w.pending_traces w.pending_edges
    → All (λ r. Apart tx r.1) txs
    → FreshTxs w.pending_traces w.pending_edges txs
    → FreshTxs
        (process_transaction seqno tx w).0.pending_traces
        (process_transaction seqno tx w).0.pending_edges
        txs
process_transaction-FreshTxs seqno tx w [] i a f = tt
process_transaction-FreshTxs seqno tx w ((n, tx') ∷ txs) i a f = (
  process_transaction-Fresh seqno tx tx' w i a.0 f.0,
  f.1,
  process_transaction-FreshTxs seqno tx w txs i a.1 f.2,
)

-- What holds between the transactions of a block.
pub record Ready (w : Work) : Type 0 where
  pub inv : Inv w.pending_traces w.pending_edges
  pub tracked : IsTracked w w.updated_traces

pub process_all-Ready :
    (seqno : ℕ) (txs : List TxRef) (w : Work)
    → FreshTxs w.pending_traces w.pending_edges txs
    → Ready w
    → Ready (process_all seqno txs w).0
unfolding process_all
process_all-Ready seqno [] w f v = v
process_all-Ready seqno ((n, tx) ∷ txs) w f v =
    process_all-Ready seqno txs (process_transaction seqno tx w).0
      (process_transaction-FreshTxs seqno tx w txs v.inv f.1 f.2)
      (record {
        inv = process_transaction-Inv seqno tx w f.0 v.inv;
        tracked = process_transaction-Tracked seqno tx w v.inv v.tracked;
      })
