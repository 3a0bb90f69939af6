-- ===== src/Assembler/Tracked.antt =====
-- What TraceAssembler::process_block relies on between transactions: every updated trace is in the
-- map, and every edge that it will report belongs to an updated trace.
use ton_index_worker.Prelude.{
  ℕ, ◌≡◌, true, Option, none, some, List, [], ◌∷◌, ◌++◌, arith, All, All-append, All-mono,
}
use ton_index_worker.Prelude.Maps.{
  find, insert_or_assign, erase, find-insert_or_assign, find-erase, contains, insert, remove,
  contains-insert, contains-remove, IsSetList, insert-IsSetList,
}
use ton_index_worker.Assembler.{TraceEdgeImpl, TraceImpl, Traces, Edges}

abbrev pub IsPresent {ℓ} : {A : Type ℓ} → Option A → Type 0
IsPresent none = ⊥
IsPresent (some a) = Unit {0}

abbrev pub IsUpdated : List ℕ → Option TraceEdgeImpl → Type 0
IsUpdated updated none = ⊥
IsUpdated updated (some e) = contains e.trace_id updated ≡ true

pub record Tracked (traces : Traces) (edges : Edges) (completed : List TraceEdgeImpl)
    (added updated : List ℕ) : Type 0 where
  pub once : IsSetList updated
  pub live : (t : ℕ) → contains t updated ≡ true → IsPresent (find t traces)
  pub added_edges : (h : ℕ) → contains h added ≡ true → IsUpdated updated (find h edges)
  pub completed_edges : All (λ e. contains e.trace_id updated ≡ true) completed

pub start-Tracked : (traces : Traces) (edges : Edges) → Tracked traces edges [] [] []
unfolding contains
start-Tracked traces edges = record {
  once = tt;
  live = λ t h. cc;
  added_edges = λ h c. cc;
  completed_edges = tt;
}

module _ (traces : Traces) (edges : Edges) (completed : List TraceEdgeImpl) (added updated : List ℕ)
    (v : Tracked traces edges completed added updated) where
  -- A trace that is in the map is counted among the updated ones.
  pub mark-Tracked :
      (k : ℕ) → IsPresent (find k traces) → Tracked traces edges completed added (insert k updated)
  mark-Tracked k present = record {
    once = insert-IsSetList k updated v.once;
    live = λ t c. ground (arith, contains-insert k t updated, v.live t, present);
    added_edges = λ h c. ground (arith, v.added_edges h c, updated_more (find h edges));
    completed_edges =
        All-mono _ _ (λ e c. ground (arith, contains-insert k e.trace_id updated, c)) completed
          v.completed_edges;
  }
    where
      updated_more :
          (e : Option TraceEdgeImpl) → IsUpdated updated e → IsUpdated (insert k updated) e
      updated_more none h = h
      updated_more (some e) h = ground (arith, contains-insert k e.trace_id updated, h)

  pub store-Tracked :
      (k : ℕ) (trace : TraceImpl)
      → Tracked (insert_or_assign k trace traces) edges completed added updated
  store-Tracked k trace = record {
    once = v.once;
    live = λ t c. ground (arith, find-insert_or_assign k t trace traces, v.live t c);
    added_edges = v.added_edges;
    completed_edges = v.completed_edges;
  }

  pub add-Tracked :
      (h : ℕ) (e : TraceEdgeImpl)
      → contains e.trace_id updated ≡ true
      → Tracked traces (insert_or_assign h e edges) completed (insert h added) updated
  add-Tracked h e u = record {
    once = v.once;
    live = v.live;
    added_edges = λ j c.
        ground
          (arith, find-insert_or_assign h j e edges, contains-insert h j added, v.added_edges j);
    completed_edges = v.completed_edges;
  }

  pub erase-Tracked : (h : ℕ) → Tracked traces (erase h edges) completed (remove h added) updated
  erase-Tracked h = record {
    once = v.once;
    live = v.live;
    added_edges =
        λ j c. ground (arith, find-erase h j edges, contains-remove h j added, v.added_edges j);
    completed_edges = v.completed_edges;
  }

  pub complete-Tracked :
      (e : TraceEdgeImpl)
      → contains e.trace_id updated ≡ true
      → Tracked traces edges (completed ++ e ∷ []) added updated
  complete-Tracked e u = record {
    once = v.once;
    live = v.live;
    added_edges = v.added_edges;
    completed_edges = All-append _ completed (e ∷ []) v.completed_edges (u, tt);
  }
