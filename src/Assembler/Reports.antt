-- ===== src/Assembler/Reports.antt =====
-- TraceAssembler::process_block: the edges that are handed to the reported traces.
use ton_index_worker.Prelude.{
  ℕ, ◌≡◌, refl, sym, ap, true, Option, none, some, List, [], ◌∷◌, ◌++◌, append-nil, append_assoc,
  arith, ◌==◌, if◌then◌else◌, Option-cases, inl, inr, All,
}
use ton_index_worker.Prelude.Maps.{
  Distinct, find, insert_or_assign, find-insert_or_assign, insert_or_assign-Distinct, contains,
}
use ton_index_worker.Schema.{Trace, TraceEdge}
use ton_index_worker.Assembler.{TraceEdgeImpl, Traces, Edges, edge_to_schema}
use ton_index_worker.Assembler.Inv.{Inv}
use ton_index_worker.Assembler.Tracked.{IsPresent, IsUpdated}
use ton_index_worker.Assembler.Block.{collect_added, add_edges}
use ton_index_worker.Assembler.Closing.{Ensures, Ensures-mono, Ensures-bind}

abbrev pub AreUpdated : List ℕ → List TraceEdgeImpl → Type 0
AreUpdated updated = All (λ e. contains e.trace_id updated ≡ true)

incomplete_found :
    (traces : Traces) (edges : Edges) (h : ℕ) (e : TraceEdgeImpl)
    → Inv traces edges
    → find h edges ≡ some e
    → e.incomplete ≡ true
incomplete_found traces edges h e v here = ground (arith, v.open_edges h, here)

module _ (edges : Edges) (updated : List ℕ) (h : ℕ) (hs : List ℕ)
    (added : (j : ℕ) → contains j (h ∷ hs) ≡ true → IsUpdated updated (find j edges)) where
  first_added : find h edges ≡ none → ⊥
  unfolding contains
  first_added missing = ground (arith, added h, missing)

  added_here : (e : TraceEdgeImpl) → find h edges ≡ some e → contains e.trace_id updated ≡ true
  unfolding contains
  added_here e here = ground (arith, added h, here)

  later_added : (j : ℕ) → contains j hs ≡ true → IsUpdated updated (find j edges)
  unfolding contains
  later_added j c = added j (ground (arith, c))

-- Every added edge is found, and is incomplete: the `assert` holds.
pub collect_added_total :
    (traces : Traces) (edges : Edges) (updated hashes : List ℕ)
    → Inv traces edges
    → ((h : ℕ) → contains h hashes ≡ true → IsUpdated updated (find h edges))
    → Ensures (AreUpdated updated) (collect_added edges hashes)
unfolding collect_added
collect_added_total traces edges updated [] v added = tt
collect_added_total traces edges updated (h ∷ hs) v added = elim (Option-cases (find h edges)) [
  | inl missing ↦ absurd (first_added edges updated h hs added missing)
  | inr (e, here) ↦
      rw (here, collect_added)
        (Ensures-bind (AreUpdated updated) _ (collect_added edges hs) _
          (collect_added_total traces edges updated hs v (later_added edges updated h hs added))
          (λ rest u.
            rw (incomplete_found traces edges h e v here)
              (added_here edges updated h hs added e here, u)))
]

-- The edges of a trace, as they are reported.
unfoldable pub edges_of : ℕ → List TraceEdgeImpl → List TraceEdge
edges_of t [] = []
edges_of t (e ∷ es) =
    let rest = edges_of t es in if e.trace_id == t then edge_to_schema e ∷ rest else rest

abbrev pub with_edges : List TraceEdge → Option Trace → Option Trace
with_edges es none = none
with_edges es (some trace) = some (record trace { edges = trace.edges ++ es })

pub record Filled (es : List TraceEdgeImpl) (trace_map filled : List (ℕ × Trace)) : Type 0 where
  pub distinct : Distinct filled
  pub gets : (t : ℕ) → find t filled ≡ with_edges (edges_of t es) (find t trace_map)

with_edges-nil : (o : Option Trace) → o ≡ with_edges [] o
with_edges-nil none = refl
with_edges-nil (some trace) =
    ap (λ es. some (record trace { edges = es })) (sym (append-nil trace.edges))

Filled-cons :
    (e : TraceEdgeImpl) (es : List TraceEdgeImpl) (trace : Trace)
    (trace_map filled : List (ℕ × Trace))
    → find e.trace_id trace_map ≡ some trace
    → Filled es
        (insert_or_assign e.trace_id
          (record trace { edges = trace.edges ++ edge_to_schema e ∷ [] })
          trace_map)
        filled
    → Filled (e ∷ es) trace_map filled
unfolding edges_of
Filled-cons e es trace trace_map filled here v = record {
  distinct = v.distinct;
  gets = λ t. ground (
    arith,
    v.gets t,
    find-insert_or_assign e.trace_id t
        (record trace { edges = trace.edges ++ edge_to_schema e ∷ [] }) trace_map,
    append_assoc trace.edges (edge_to_schema e ∷ []) (edges_of t es),
    here,
  );
}

still-IsPresent :
    (k : ℕ) (trace : Trace) (trace_map : List (ℕ × Trace)) (es : List TraceEdgeImpl)
    → All (λ e. IsPresent (find e.trace_id trace_map)) es
    → All (λ e. IsPresent (find e.trace_id (insert_or_assign k trace trace_map))) es
still-IsPresent k trace trace_map [] h = tt
still-IsPresent k trace trace_map (e ∷ es) h = (
  ground (arith, find-insert_or_assign k e.trace_id trace trace_map, h.0),
  still-IsPresent k trace trace_map es h.1,
)

-- Each trace gets its own edges, in order, and no other trace is made.
pub add_edges-Filled :
    (es : List TraceEdgeImpl) (trace_map : List (ℕ × Trace))
    → Distinct trace_map
    → All (λ e. IsPresent (find e.trace_id trace_map)) es
    → Ensures (Filled es trace_map) (add_edges es trace_map)
unfolding add_edges edges_of
add_edges-Filled [] trace_map d h = record {
  distinct = d;
  gets = λ t. with_edges-nil (find t trace_map);
}
add_edges-Filled (e ∷ es) trace_map d h = elim (Option-cases (find e.trace_id trace_map)) [
  | inl missing ↦ absurd (rw missing at (h.0))
  | inr (trace, here) ↦
      rw (here, add_edges)
        (Ensures-mono _ _ (λ filled. Filled-cons e es trace trace_map filled here) _
          (add_edges-Filled es _ (insert_or_assign-Distinct e.trace_id _ trace_map d)
            (still-IsPresent e.trace_id _ trace_map es h.1)))
]
