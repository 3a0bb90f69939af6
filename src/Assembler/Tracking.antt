-- ===== src/Assembler/Tracking.antt =====
-- TraceAssembler::process_transaction keeps what process_block relies on.
use ton_index_worker.Prelude.{
  ℕ, ◌≡◌, refl, true, Option, none, some, List, [], ◌∷◌, arith, Bool-cases, inl, inr,
}
use ton_index_worker.Prelude.Maps.{
  find, insert_or_assign, find-insert_or_assign, contains, insert, contains-insert,
}
use ton_index_worker.Schema.{Message, Transaction}
use ton_index_worker.Assembler.{
  TraceEdgeImpl, TraceImpl, Traces, Work, Opened, is_some, is_broken, unseen_type, open_unseen,
  open_pending, open_first, open_msg, open_trace, process_out_msg, process_out_msgs,
  process_transaction,
}
use ton_index_worker.Assembler.Inv.{Inv, edge_has_trace}
use ton_index_worker.Assembler.Tracked.{
  IsPresent, Tracked, mark-Tracked, store-Tracked, add-Tracked, erase-Tracked, complete-Tracked,
}
use ton_index_worker.Assembler.Opening.{same_name}

abbrev pub IsTracked : Work → List ℕ → Type 0
IsTracked w updated =
    Tracked w.pending_traces w.pending_edges w.completed_edges w.pending_edges_added updated

IsPresent-own :
    (k : ℕ) (trace : TraceImpl) (traces : Traces)
    → IsPresent (find k (insert_or_assign k trace traces))
IsPresent-own k trace traces = ground (arith, find-insert_or_assign k k trace traces)

contains_own : (k : ℕ) (s : List ℕ) → contains k (insert k s) ≡ true
contains_own k s = ground (arith, contains-insert k k s)

abbrev TracksOpened : Opened → Type 0
TracksOpened o = IsTracked o.work (insert o.trace.trace_id o.work.updated_traces)

-- A new trace is stored and marked.
begin-Tracked :
    (w : Work) (k : ℕ) (trace : TraceImpl)
    → IsTracked w w.updated_traces
    → Tracked
        (insert_or_assign k trace w.pending_traces)
        w.pending_edges
        w.completed_edges
        w.pending_edges_added
        (insert k w.updated_traces)
begin-Tracked w k trace v =
    mark-Tracked _ _ _ _ _ (store-Tracked _ _ _ _ _ v k trace) k
      (IsPresent-own k trace w.pending_traces)

open_first-Tracked :
    (seqno : ℕ) (tx : Transaction) (w : Work)
    → IsTracked w w.updated_traces
    → TracksOpened (open_first seqno tx w)
unfolding open_first
open_first-Tracked seqno tx w v = begin-Tracked w tx.hash _ v

open_unseen-Tracked :
    (seqno : ℕ) (tx : Transaction) (m : Message) (w : Work)
    → IsTracked w w.updated_traces
    → TracksOpened (open_unseen seqno tx m w)
unfolding open_unseen
open_unseen-Tracked seqno tx m w v = elim (Bool-cases (is_broken (unseen_type m.source))) [
  | inl broken ↦ rw broken (
      add-Tracked _ _ _ _ _ (begin-Tracked w tx.hash _ v) m.hash _
        (contains_own tx.hash w.updated_traces))
  | inr whole ↦ rw whole (
      complete-Tracked _ _ _ _ _ (begin-Tracked w tx.hash _ v) _
        (contains_own tx.hash w.updated_traces))
]

same_hash :
    (w : Work) (k : ℕ) (e : TraceEdgeImpl)
    → Inv w.pending_traces w.pending_edges
    → find k w.pending_edges ≡ some e
    → k ≡ e.msg_hash
same_hash w k e v g = ground (arith, v.open_edges k, g)

open_pending-Tracked :
    (seqno : ℕ) (tx : Transaction) (m : Message) (e : TraceEdgeImpl) (w : Work)
    → Inv w.pending_traces w.pending_edges
    → find m.hash w.pending_edges ≡ some e
    → IsTracked w w.updated_traces
    → TracksOpened (open_pending seqno tx m e w)
unfolding open_pending
open_pending-Tracked seqno tx m e w i g v =
    let (trace, here) = edge_has_trace _ _ i m.hash e g in
    let key = same_name w e trace here i in
    rw here (
      rw key (
        rw (← same_hash w m.hash e i g) (
          erase-Tracked _ _ _ _ _
            (complete-Tracked _ _ _ _ _ (mark-Tracked _ _ _ _ _ v e.trace_id (ground (arith, here)))
              _ (contains_own e.trace_id w.updated_traces))
            m.hash)))

open_msg-Tracked :
    (seqno : ℕ) (tx : Transaction) (m : Message) (w : Work) (e : Option TraceEdgeImpl)
    → find m.hash w.pending_edges ≡ e
    → Inv w.pending_traces w.pending_edges
    → IsTracked w w.updated_traces
    → TracksOpened (open_msg seqno tx m w e)
unfolding open_msg
open_msg-Tracked seqno tx m w none g i v = open_unseen-Tracked seqno tx m w v
open_msg-Tracked seqno tx m w (some e) g i v = open_pending-Tracked seqno tx m e w i g v

open_trace-Tracked :
    (seqno : ℕ) (tx : Transaction) (w : Work) (m : Option Message)
    → Inv w.pending_traces w.pending_edges
    → IsTracked w w.updated_traces
    → TracksOpened (open_trace seqno tx w m)
unfolding open_trace
open_trace-Tracked seqno tx w none i v = open_first-Tracked seqno tx w v
open_trace-Tracked seqno tx w (some m) i v = open_msg-Tracked seqno tx m w _ refl i v

process_out_msg-Tracked :
    (tx : Transaction) (w : Work) (trace : TraceImpl) (m : Message)
    → contains trace.trace_id w.updated_traces ≡ true
    → IsTracked w w.updated_traces
    → let r = process_out_msg tx (w, trace) m in
      IsTracked r.0 r.0.updated_traces × (contains r.1.trace_id r.0.updated_traces ≡ true)
unfolding process_out_msg
process_out_msg-Tracked tx w trace m u v = elim (Bool-cases (is_some m.destination)) [
  | inl sent ↦ rw sent (add-Tracked _ _ _ _ _ v m.hash _ u, u)
  | inr log ↦ rw log (complete-Tracked _ _ _ _ _ v _ u, u)
]

process_out_msgs-Tracked :
    (tx : Transaction) (w : Work) (trace : TraceImpl) (ms : List Message)
    → contains trace.trace_id w.updated_traces ≡ true
    → IsTracked w w.updated_traces
    → let r = process_out_msgs tx (w, trace) ms in IsTracked r.0 r.0.updated_traces
unfolding process_out_msgs
process_out_msgs-Tracked tx w trace [] u v = v
process_out_msgs-Tracked tx w trace (m ∷ ms) u v =
    let r = process_out_msg-Tracked tx w trace m u v in
    process_out_msgs-Tracked tx (process_out_msg tx (w, trace) m).0
      (process_out_msg tx (w, trace) m).1 ms r.1 r.0

pub process_transaction-Tracked :
    (seqno : ℕ) (tx : Transaction) (w : Work)
    → Inv w.pending_traces w.pending_edges
    → IsTracked w w.updated_traces
    → let w' = (process_transaction seqno tx w).0 in IsTracked w' w'.updated_traces
unfolding process_transaction
process_transaction-Tracked seqno tx w i v =
    let o = open_trace seqno tx w tx.in_msg in
    store-Tracked _ _ _ _ _
      (process_out_msgs-Tracked tx _ _ tx.out_msgs
        (contains_own o.trace.trace_id o.work.updated_traces)
        (open_trace-Tracked seqno tx w tx.in_msg i v))
      _ _
