-- ===== src/Assembler/Held.antt =====
-- TraceAssembler::process_transaction: the trace in hand and its outgoing messages.
use ton_index_worker.Prelude.{
  ℕ, ◌<◌, ◌≡◌, ◌≢◌, refl, subst, inl, inr, true, Option, none, some, List, [], ◌∷◌, arith,
  Bool-cases, All,
}
use ton_index_worker.Prelude.Words.{mod64, add64}
use ton_index_worker.Prelude.Maps.{
  find, insert_or_assign, erase, find-insert_or_assign, find-erase, insert_or_assign_twice,
}
use ton_index_worker.Schema.{Message, Transaction}
use ton_index_worker.Assembler.{
  TraceEdgeImpl, TraceImpl, Traces, Edges, Work, is_some, process_out_msg, process_out_msgs,
}
use ton_index_worker.Assembler.Inv.{Inv, store-Inv, open-Inv}

-- No two of the messages have one hash.
abbrev pub DistinctHashes : List Message → Type 0
DistinctHashes [] = Unit
DistinctHashes (m ∷ ms) = All (λ n. m.hash ≢ n.hash) ms × DistinctHashes ms

-- The incoming message is none of these.
abbrev pub DiffersFrom : List Message → Option Message → Type 0
DiffersFrom ms none = Unit
DiffersFrom ms (some m) = All (λ n. m.hash ≢ n.hash) ms

-- The hashes that a transaction brings are new.
pub record Fresh (traces : Traces) (edges : Edges) (tx : Transaction) : Type 0 where
  pub new_tx : find tx.hash traces ≡ none
  pub new_msgs : All (λ m. find m.hash edges ≡ none) tx.out_msgs
  pub distinct_msgs : DistinctHashes tx.out_msgs
  pub not_own : DiffersFrom tx.out_msgs tx.in_msg

-- The trace in hand, written back under its key, keeps the invariant.
pub record Held (w : Work) (key : ℕ) (trace : TraceImpl) : Type 0 where
  pub inv : Inv (insert_or_assign key trace w.pending_traces) w.pending_edges
  pub named : trace.trace_id ≡ key

pub new_msgs-insert :
    (h : ℕ) (e : TraceEdgeImpl) (edges : Edges) (ms : List Message)
    → All (λ n. h ≢ n.hash) ms
    → All (λ n. find n.hash edges ≡ none) ms
    → All (λ n. find n.hash (insert_or_assign h e edges) ≡ none) ms
new_msgs-insert h e edges [] d f = tt
new_msgs-insert h e edges (m ∷ ms) d f = (
  ground (arith, find-insert_or_assign h m.hash e edges, d.0),
  new_msgs-insert h e edges ms d.1 f.1,
)

pub new_msgs-erase :
    (h : ℕ) (edges : Edges) (ms : List Message)
    → All (λ n. find n.hash edges ≡ none) ms
    → All (λ n. find n.hash (erase h edges) ≡ none) ms
new_msgs-erase h edges [] f = tt
new_msgs-erase h edges (m ∷ ms) f =
    (ground (arith, find-erase h m.hash edges), new_msgs-erase h edges ms f.1)

pub found_own :
    (key : ℕ) (trace : TraceImpl) (traces : Traces)
    → find key (insert_or_assign key trace traces) ≡ some trace
found_own key trace traces = ground (arith, find-insert_or_assign key key trace traces)

pub pending_small :
    (w : Work) (key : ℕ) (trace : TraceImpl) → Held w key trace → trace.pending_edges < mod64
pending_small w key trace v = ground (arith, found_own key trace w.pending_traces, v.inv.agrees key)

-- The trace in hand gets one more pending edge.
pub held_open :
    (traces : Traces) (edges : Edges) (key : ℕ) (trace trace' : TraceImpl) (e : TraceEdgeImpl)
    → Inv (insert_or_assign key trace traces) edges
    → find e.msg_hash edges ≡ none
    → e.trace_id ≡ key
    → e.incomplete ≡ true
    → trace'.trace_id ≡ key
    → trace'.pending_edges ≡ add64 trace.pending_edges 1
    → Inv (insert_or_assign key trace' traces) (insert_or_assign e.msg_hash e edges)
held_open traces edges key trace trace' e v f i c i' z =
    subst (λ t. Inv t (insert_or_assign e.msg_hash e edges))
      (insert_or_assign_twice key trace' trace traces)
      (open-Inv _ _ v key trace trace' e (found_own key trace traces) f i c i' z)

-- The trace in hand changes, but not in its pending edges.
pub held_store :
    (traces : Traces) (edges : Edges) (key : ℕ) (trace trace' : TraceImpl)
    → Inv (insert_or_assign key trace traces) edges
    → trace'.trace_id ≡ key
    → trace'.pending_edges ≡ trace.pending_edges
    → Inv (insert_or_assign key trace' traces) edges
held_store traces edges key trace trace' v i z =
    subst (λ t. Inv t edges) (insert_or_assign_twice key trace' trace traces)
      (store-Inv _ _ v key trace trace' (found_own key trace traces) i z)

pub process_out_msg-Held :
    (tx : Transaction) (w : Work) (key : ℕ) (trace : TraceImpl) (m : Message)
    → find m.hash w.pending_edges ≡ none
    → Held w key trace
    → Held (process_out_msg tx (w, trace) m).0 key (process_out_msg tx (w, trace) m).1
unfolding process_out_msg
process_out_msg-Held tx w key trace m f v = elim (Bool-cases (is_some m.destination)) [
  | inl sent ↦ rw sent (record {
    inv =
        held_open w.pending_traces w.pending_edges key trace _ _ v.inv f v.named refl v.named refl;
    named = v.named;
  })
  | inr log ↦ rw log (record {
    inv =
        held_store w.pending_traces w.pending_edges key trace _ v.inv v.named
          (omega (arith, pending_small w key trace v));
    named = v.named;
  })
]

pub still_new :
    (tx : Transaction) (w : Work) (trace : TraceImpl) (m : Message) (ms : List Message)
    → All (λ n. m.hash ≢ n.hash) ms
    → All (λ n. find n.hash w.pending_edges ≡ none) ms
    → All (λ n. find n.hash (process_out_msg tx (w, trace) m).0.pending_edges ≡ none) ms
unfolding process_out_msg
still_new tx w trace m ms d f = elim (Bool-cases (is_some m.destination)) [
  | inl sent ↦ rw sent (new_msgs-insert m.hash _ w.pending_edges ms d f)
  | inr log ↦ rw log f
]

pub process_out_msgs-Held :
    (tx : Transaction) (w : Work) (key : ℕ) (trace : TraceImpl) (ms : List Message)
    → All (λ m. find m.hash w.pending_edges ≡ none) ms
    → DistinctHashes ms
    → Held w key trace
    → Held (process_out_msgs tx (w, trace) ms).0 key (process_out_msgs tx (w, trace) ms).1
unfolding process_out_msgs
process_out_msgs-Held tx w key trace [] f d v = v
process_out_msgs-Held tx w key trace (m ∷ ms) f d v =
    process_out_msgs-Held tx (process_out_msg tx (w, trace) m).0 key
      (process_out_msg tx (w, trace) m).1 ms (still_new tx w trace m ms d.0 f.1) d.1
      (process_out_msg-Held tx w key trace m f.0 v)
