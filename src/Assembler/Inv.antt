-- ===== src/Assembler/Inv.antt =====
-- What holds of the pending traces and edges of TraceAssembler: a trace counts its pending edges.
use ton_index_worker.Prelude.{
  ℕ, ◌+◌, ◌%◌, ◌≤◌, ◌<◌, ◌≡◌, refl, true, Option, none, some, [], ◌∷◌, arith, length, ◌==◌,
}
use ton_index_worker.Prelude.Words.{mod64, add64, sub64}
use ton_index_worker.Prelude.Maps.{
  Distinct, find, insert_or_assign, erase, find-insert_or_assign, find-erase, erase_absent,
  insert_or_assign-Distinct, erase-Distinct,
}
use ton_index_worker.Assembler.{TraceEdgeImpl, TraceImpl, Traces, Edges, bit}

-- The number of pending edges of a trace.
unfoldable pub count : ℕ → Edges → ℕ
count t [] = 0
count t ((k, e) ∷ es) = bit (e.trace_id == t) + count t es

pub count-le : (t : ℕ) (es : Edges) → count t es ≤ length es
unfolding count
count-le t [] = omega arith
count-le t ((k, e) ∷ es) = ground (arith, count-le t es)

pub count-insert :
    (t k : ℕ) (e : TraceEdgeImpl) (es : Edges)
    → find k es ≡ none
    → count t (insert_or_assign k e es) ≡ bit (e.trace_id == t) + count t es
unfolding count insert_or_assign find
count-insert t k e [] h = refl
count-insert t k e ((j, f) ∷ es) h = ground (arith, count-insert t k e es)

pub count-erase :
    (t k : ℕ) (e : TraceEdgeImpl) (es : Edges)
    → Distinct es
    → find k es ≡ some e
    → count t es ≡ bit (e.trace_id == t) + count t (erase k es)
unfolding count erase find
count-erase t k e [] d h = cc
count-erase t k e ((j, f) ∷ es) d h = ground (arith, erase_absent k es, count-erase t k e es d.1)

-- A trace counts its edges; one that is not there has none.
abbrev pub Agrees : Option TraceImpl → ℕ → Type 0
Agrees none n = n ≡ 0
Agrees (some t) n = t.pending_edges ≡ n % mod64

abbrev pub IsNamed : ℕ → Option TraceImpl → Type 0
IsNamed k none = Unit {0}
IsNamed k (some t) = t.trace_id ≡ k

abbrev pub IsOpen : ℕ → Option TraceEdgeImpl → Type 0
IsOpen k none = Unit {0}
IsOpen k (some e) = (e.msg_hash ≡ k) × (e.incomplete ≡ true)

pub record Inv (traces : Traces) (edges : Edges) : Type 0 where
  pub distinct : Distinct edges
  pub named : (t : ℕ) → IsNamed t (find t traces)
  pub open_edges : (k : ℕ) → IsOpen k (find k edges)
  pub agrees : (t : ℕ) → Agrees (find t traces) (count t edges)

module _ (traces : Traces) (edges : Edges) (v : Inv traces edges) where
  -- A new trace without edges.
  pub new-Inv :
      (trace : TraceImpl)
      → find trace.trace_id traces ≡ none
      → trace.pending_edges ≡ 0
      → Inv (insert_or_assign trace.trace_id trace traces) edges
  new-Inv trace f z = record {
    distinct = v.distinct;
    named = λ t. ground (arith, find-insert_or_assign trace.trace_id t trace traces, v.named t);
    open_edges = v.open_edges;
    agrees = λ t. ground (arith, find-insert_or_assign trace.trace_id t trace traces, v.agrees t);
  }

  -- The trace under a key is written anew with as many pending edges.
  pub store-Inv :
      (key : ℕ) (trace trace' : TraceImpl)
      → find key traces ≡ some trace
      → trace'.trace_id ≡ key
      → trace'.pending_edges ≡ trace.pending_edges
      → Inv (insert_or_assign key trace' traces) edges
  store-Inv key trace trace' f i z = record {
    distinct = v.distinct;
    named = λ t. ground (arith, find-insert_or_assign key t trace' traces, v.named t);
    open_edges = v.open_edges;
    agrees = λ t. ground (arith, find-insert_or_assign key t trace' traces, v.agrees t);
  }

  -- A trace gets one more pending edge.
  pub open-Inv :
      (key : ℕ) (trace trace' : TraceImpl) (e : TraceEdgeImpl)
      → find key traces ≡ some trace
      → find e.msg_hash edges ≡ none
      → e.trace_id ≡ key
      → e.incomplete ≡ true
      → trace'.trace_id ≡ key
      → trace'.pending_edges ≡ add64 trace.pending_edges 1
      → Inv (insert_or_assign key trace' traces) (insert_or_assign e.msg_hash e edges)
  open-Inv key trace trace' e f g i c i' z = record {
    distinct = insert_or_assign-Distinct e.msg_hash e edges v.distinct;
    named = λ t. ground (arith, find-insert_or_assign key t trace' traces, v.named t);
    open_edges = λ k. ground (arith, find-insert_or_assign e.msg_hash k e edges, v.open_edges k);
    agrees = λ t. ground (
      arith,
      find-insert_or_assign key t trace' traces,
      count-insert t e.msg_hash e edges g,
      v.agrees t,
    );
  }

  -- A pending edge is done.
  pub done-Inv :
      (key : ℕ) (trace trace' : TraceImpl) (k : ℕ) (e : TraceEdgeImpl)
      → find key traces ≡ some trace
      → find k edges ≡ some e
      → e.trace_id ≡ key
      → trace'.trace_id ≡ key
      → trace'.pending_edges ≡ sub64 trace.pending_edges 1
      → Inv (insert_or_assign key trace' traces) (erase k edges)
  done-Inv key trace trace' k e f g i i' z = record {
    distinct = erase-Distinct k edges v.distinct;
    named = λ t. ground (arith, find-insert_or_assign key t trace' traces, v.named t);
    open_edges = λ j. ground (arith, find-erase k j edges, v.open_edges j);
    agrees = λ t. ground (
      arith,
      find-insert_or_assign key t trace' traces,
      count-erase t k e edges v.distinct g,
      v.agrees t,
    );
  }

  -- A trace that has no pending edge leaves.
  pub close-Inv :
      (key : ℕ) (trace : TraceImpl)
      → find key traces ≡ some trace
      → trace.pending_edges ≡ 0
      → length edges < mod64
      → Inv (erase key traces) edges
  close-Inv key trace f z small = record {
    distinct = v.distinct;
    named = λ t. ground (arith, find-erase key t traces, v.named t);
    open_edges = v.open_edges;
    agrees = λ t. ground (arith, find-erase key t traces, v.agrees t, count-le t edges);
  }

  -- The trace of a pending edge is there: "broken trace" never happens.
  pub edge_has_trace :
      (k : ℕ) (e : TraceEdgeImpl)
      → find k edges ≡ some e
      → (t : TraceImpl) × (find e.trace_id traces ≡ some t)
  edge_has_trace k e g =
      ground (arith, count-erase e.trace_id k e edges v.distinct g, v.agrees e.trace_id)
