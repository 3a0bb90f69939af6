-- ===== src/Assembler/Opening.antt =====
-- TraceAssembler::process_transaction and its incoming message: how the trace is opened.
use ton_index_worker.Prelude.{
  ℕ, ◌≡◌, ◌≢◌, refl, sym, subst, inl, inr, false, Option, none, some, List, arith, Bool-cases, All,
}
use ton_index_worker.Prelude.Maps.{find, insert_or_assign_twice}
use ton_index_worker.Schema.{Message, Transaction}
use ton_index_worker.Assembler.{
  TraceEdgeImpl, TraceImpl, Work, Opened, is_broken, unseen_type, new_trace, open_unseen,
  open_pending, open_first, open_msg, open_trace, find_trace,
}
use ton_index_worker.Assembler.Inv.{Inv, new-Inv, done-Inv, edge_has_trace}
use ton_index_worker.Assembler.Held.{DiffersFrom, Held, new_msgs-insert, new_msgs-erase, held_open}

-- What `open_trace` leaves in hand.
abbrev pub IsOpened : Opened → Type 0
IsOpened o = Held o.work o.key o.trace

pub open_first-Held :
    (seqno : ℕ) (tx : Transaction) (w : Work)
    → find tx.hash w.pending_traces ≡ none
    → Inv w.pending_traces w.pending_edges
    → IsOpened (open_first seqno tx w)
unfolding open_first
open_first-Held seqno tx w f v = record {
  inv = rw insert_or_assign_twice (new-Inv _ _ v (new_trace seqno tx) f refl);
  named = refl;
}

pub open_unseen-Held :
    (seqno : ℕ) (tx : Transaction) (m : Message) (w : Work)
    → find tx.hash w.pending_traces ≡ none
    → find m.hash w.pending_edges ≡ none
    → Inv w.pending_traces w.pending_edges
    → IsOpened (open_unseen seqno tx m w)
unfolding open_unseen
open_unseen-Held seqno tx m w f g v = elim (Bool-cases (is_broken (unseen_type m.source))) [
  | inl broken ↦ rw broken (record {
    inv = rw insert_or_assign_twice (
        held_open w.pending_traces w.pending_edges tx.hash (new_trace seqno tx) _ _
          (new-Inv _ _ v (new_trace seqno tx) f refl) g refl refl refl refl);
    named = refl;
  })
  | inr whole ↦
      rw whole (record { inv = rw insert_or_assign_twice (new-Inv _ _ v _ f refl); named = refl })
]

pub same_name :
    (w : Work) (e : TraceEdgeImpl) (trace : TraceImpl)
    → find e.trace_id w.pending_traces ≡ some trace
    → Inv w.pending_traces w.pending_edges
    → trace.trace_id ≡ e.trace_id
same_name w e trace here v = ground (arith, v.named e.trace_id, here)

pub open_pending-Held :
    (seqno : ℕ) (tx : Transaction) (m : Message) (e : TraceEdgeImpl) (w : Work)
    → find m.hash w.pending_edges ≡ some e
    → Inv w.pending_traces w.pending_edges
    → IsOpened (open_pending seqno tx m e w)
unfolding open_pending
open_pending-Held seqno tx m e w g v =
    let (trace, here) = edge_has_trace _ _ v m.hash e g in
    rw here (record {
      inv =
          done-Inv _ _ v e.trace_id trace _ m.hash e here g refl (same_name w e trace here v) refl;
      named = same_name w e trace here v;
    })

pub open_msg-Held :
    (seqno : ℕ) (tx : Transaction) (m : Message) (w : Work) (e : Option TraceEdgeImpl)
    → find m.hash w.pending_edges ≡ e
    → find tx.hash w.pending_traces ≡ none
    → Inv w.pending_traces w.pending_edges
    → IsOpened (open_msg seqno tx m w e)
unfolding open_msg
open_msg-Held seqno tx m w none g f v = open_unseen-Held seqno tx m w f g v
open_msg-Held seqno tx m w (some e) g f v = open_pending-Held seqno tx m e w g v

pub open_trace-Held :
    (seqno : ℕ) (tx : Transaction) (w : Work) (m : Option Message)
    → find tx.hash w.pending_traces ≡ none
    → Inv w.pending_traces w.pending_edges
    → IsOpened (open_trace seqno tx w m)
unfolding open_trace
open_trace-Held seqno tx w none f v = open_first-Held seqno tx w f v
open_trace-Held seqno tx w (some m) f v = open_msg-Held seqno tx m w _ refl f v

pub open_unseen_new :
    (seqno : ℕ) (tx : Transaction) (m : Message) (w : Work) (ms : List Message)
    → All (λ n. m.hash ≢ n.hash) ms
    → All (λ n. find n.hash w.pending_edges ≡ none) ms
    → All (λ n. find n.hash (open_unseen seqno tx m w).work.pending_edges ≡ none) ms
unfolding open_unseen
open_unseen_new seqno tx m w ms d f = elim (Bool-cases (is_broken (unseen_type m.source))) [
  | inl broken ↦ rw broken (new_msgs-insert m.hash _ w.pending_edges ms d f)
  | inr whole ↦ rw whole f
]

pub find_trace-pending_edges :
    (seqno : ℕ) (tx : Transaction) (e : TraceEdgeImpl) (w : Work) (t : Option TraceImpl)
    → (find_trace seqno tx e w t).work.pending_edges ≡ w.pending_edges
unfolding find_trace
find_trace-pending_edges seqno tx e w none = refl
find_trace-pending_edges seqno tx e w (some t) = refl

pub open_pending_new :
    (seqno : ℕ) (tx : Transaction) (m : Message) (e : TraceEdgeImpl) (w : Work) (ms : List Message)
    → All (λ n. find n.hash w.pending_edges ≡ none) ms
    → All (λ n. find n.hash (open_pending seqno tx m e w).work.pending_edges ≡ none) ms
unfolding open_pending
open_pending_new seqno tx m e w ms f = new_msgs-erase m.hash _ ms (
    subst (λ es. All (λ n. find n.hash es ≡ none) ms)
      (sym (
        find_trace-pending_edges seqno tx
          (record e { right_tx = some tx.hash; incomplete = false; broken = false }) w
          (find e.trace_id w.pending_traces)))
      f)

pub open_msg_new :
    (seqno : ℕ) (tx : Transaction) (m : Message) (w : Work) (e : Option TraceEdgeImpl)
    (ms : List Message)
    → All (λ n. m.hash ≢ n.hash) ms
    → All (λ n. find n.hash w.pending_edges ≡ none) ms
    → All (λ n. find n.hash (open_msg seqno tx m w e).work.pending_edges ≡ none) ms
unfolding open_msg
open_msg_new seqno tx m w none ms d f = open_unseen_new seqno tx m w ms d f
open_msg_new seqno tx m w (some e) ms d f = open_pending_new seqno tx m e w ms f

-- Opening the trace takes no hash that differs from the incoming message's.
pub open_trace_new :
    (seqno : ℕ) (tx : Transaction) (w : Work) (m : Option Message) (ms : List Message)
    → DiffersFrom ms m
    → All (λ n. find n.hash w.pending_edges ≡ none) ms
    → All (λ n. find n.hash (open_trace seqno tx w m).work.pending_edges ≡ none) ms
unfolding open_trace
open_trace_new seqno tx w none ms d f = f
open_trace_new seqno tx w (some m) ms d f = open_msg_new seqno tx m w _ ms d f
