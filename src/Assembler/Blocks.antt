-- ===== src/Assembler/Blocks.antt =====
-- TraceAssembler::process_block as a whole.
use ton_index_worker.Prelude.{
  ℕ, ◌+◌, ◌<◌, ◌≡◌, refl, true, none, some, List, [], ◌++◌, arith, length, if◌then◌else◌,
  All-append, All-mono,
}
use ton_index_worker.Prelude.Words.{mod64}
use ton_index_worker.Prelude.Maps.{Distinct, find, contains}
use ton_index_worker.Schema.{Trace, ParsedBlock}
use ton_index_worker.Assembler.{TraceEdgeImpl, Traces, Work}
use ton_index_worker.Assembler.Inv.{Inv}
use ton_index_worker.Assembler.Tracked.{IsPresent, start-Tracked}
use ton_index_worker.Assembler.Block.{
  Pending, TxRef, number, sort_txs, all_txs, process_all, start_work, collect_added, values,
  finish_block, write_blocks, process_block,
}
use ton_index_worker.Assembler.Closing.{
  Ensures, Ensures-value, Closed, close_traces-Closed, kept_at, reported_at,
}
use ton_index_worker.Assembler.Reports.{
  AreUpdated, Filled, with_edges, edges_of, collect_added_total, add_edges-Filled,
}
use ton_index_worker.Assembler.Freshness.{FreshTxs, Ready, process_all-Ready}
use ton_index_worker.Assembler.Sizes.{message_bound, process_all_size}

-- The maps after a block, and the reports: one for each updated trace, with the edges that were
-- completed or added for it.
pub record Finished (w : Work) (r : Pending × List Trace) : Type 0 where
  pub inv : Inv r.0.pending_traces r.0.pending_edges
  pub same_edges : r.0.pending_edges ≡ w.pending_edges
  pub same_count : r.0.broken_count ≡ w.broken_count
  pub stays :
      (t : ℕ)
      → find t r.0.pending_traces ≡ (
          if contains t w.updated_traces
          then kept_at (find t w.pending_traces)
          else find t w.pending_traces)
  pub reports :
      (added : List TraceEdgeImpl) × (filled : List (ℕ × Trace)) × (collect_added w.pending_edges
          w.pending_edges_added
        ≡ some added)
      × (r.1 ≡ values filled)
      × Distinct filled
      × ((t : ℕ)
          → find t filled ≡ (
              if contains t w.updated_traces
              then with_edges
                  (edges_of t (w.completed_edges ++ added))
                  (reported_at (find t w.pending_traces))
              else none))

module _ (w : Work) (v : Ready w) (small : length w.pending_edges < mod64) where
  -- The updated traces are all reported.
  reported-IsPresent :
      (r : Traces × List (ℕ × Trace))
      → Closed w.pending_traces w.pending_edges w.updated_traces [] r
      → (e : TraceEdgeImpl) → contains e.trace_id w.updated_traces ≡ true
      → IsPresent (find e.trace_id r.1)
  reported-IsPresent r c e u = ground (arith, c.reports e.trace_id, v.tracked.live e.trace_id, u)

  empty_map : (t : ℕ) → find t (let m : List (ℕ × Trace) = [] in m) ≡ none
  unfolding find
  empty_map t = refl

  finished :
      (r : Traces × List (ℕ × Trace)) (added : List TraceEdgeImpl) (filled : List (ℕ × Trace))
      → Closed w.pending_traces w.pending_edges w.updated_traces [] r
      → collect_added w.pending_edges w.pending_edges_added ≡ some added
      → Filled (w.completed_edges ++ added) r.1 filled
      → Finished w (
        record {
          pending_traces = r.0;
          pending_edges = w.pending_edges;
          broken_count = w.broken_count;
        },
        values filled,
      )
  finished r added filled c e f = record {
    inv = c.inv;
    same_edges = refl;
    same_count = refl;
    stays = c.stays;
    reports = (
      added,
      filled,
      e,
      refl,
      f.distinct,
      λ t. ground (arith, f.gets t, c.reports t, empty_map t),
    );
  }

  -- No null trace is read, the `assert` holds, and no edge makes a trace out of nothing.
  finish_block_total : Ensures (Finished w) (finish_block w)
  unfolding finish_block
  finish_block_total =
      let (r, er, c) =
        Ensures-value (Closed w.pending_traces w.pending_edges w.updated_traces []) _ (
          close_traces-Closed w.updated_traces w.pending_traces w.pending_edges [] tt v.tracked.once
            v.tracked.live small v.inv) in
      let (added, ea, u) = Ensures-value (AreUpdated w.updated_traces) _ (
        collect_added_total w.pending_traces w.pending_edges w.updated_traces w.pending_edges_added
          v.inv v.tracked.added_edges) in
      let all =
        All-mono _ _ (reported-IsPresent r c) (w.completed_edges ++ added)
          (All-append _ w.completed_edges added v.tracked.completed_edges u) in
      let (filled, ef, f) =
        Ensures-value (Filled (w.completed_edges ++ added) r.1) _
          (add_edges-Filled (w.completed_edges ++ added) r.1 c.distinct all) in
      rw (er, ea, ef) (finished r added filled c ea f)

-- The transactions of a block in the order in which they are processed.
abbrev pub sorted_refs : ParsedBlock → List TxRef
sorted_refs block = sort_txs (number 0 (all_txs block.blocks))

-- What the transactions of a block leave for the end of `process_block`.
abbrev pub after_txs : ℕ → ParsedBlock → Pending → Work × List TxRef
after_txs seqno block p = process_all seqno (sorted_refs block) (start_work p)

-- The block with its transactions marked and with more traces.
abbrev pub written : ℕ → ParsedBlock → Pending → List Trace → ParsedBlock
written seqno block p traces = record block {
  blocks = write_blocks (after_txs seqno block p).1 0 block.blocks;
  traces = block.traces ++ traces;
}

start-Ready : (p : Pending) → Inv p.pending_traces p.pending_edges → Ready (start_work p)
unfolding start_work
start-Ready p v = record { inv = v; tracked = start-Tracked p.pending_traces p.pending_edges }

start-FreshTxs :
    (p : Pending) (txs : List TxRef)
    → FreshTxs p.pending_traces p.pending_edges txs
    → FreshTxs (start_work p).pending_traces (start_work p).pending_edges txs
unfolding start_work
start-FreshTxs p txs f = f

after_txs-Ready :
    (seqno : ℕ) (block : ParsedBlock) (p : Pending)
    → Inv p.pending_traces p.pending_edges
    → FreshTxs p.pending_traces p.pending_edges (sorted_refs block)
    → Ready (after_txs seqno block p).0
after_txs-Ready seqno block p v f =
    process_all-Ready seqno (sorted_refs block) (start_work p)
      (start-FreshTxs p (sorted_refs block) f) (start-Ready p v)

after_txs_size :
    (seqno : ℕ) (block : ParsedBlock) (p : Pending)
    → length p.pending_edges + message_bound (sorted_refs block) < mod64
    → length (after_txs seqno block p).0.pending_edges < mod64
unfolding start_work
after_txs_size seqno block p small =
    omega (arith, process_all_size seqno (sorted_refs block) (start_work p))

-- If every trace counts its pending edges before, every hash that the block's transactions bring is new, no message is received before it is
-- sent, and the pending edges fit a `size_t`, then the block is processed without a fault. Each
-- updated trace is reported once, with the edges that were completed or added for it, complete or
-- broken if it has no pending edge. It leaves the map exactly in that case, other traces stay, and
-- again every trace counts its pending edges and no pending edge is without its trace.
pub process_block_total :
    (seqno : ℕ) (block : ParsedBlock) (p : Pending)
    → Inv p.pending_traces p.pending_edges
    → FreshTxs p.pending_traces p.pending_edges (sorted_refs block)
    → length p.pending_edges + message_bound (sorted_refs block) < mod64
    → (r : Pending × List Trace) × (process_block seqno block p
        ≡ some (r.0, written seqno block p r.1))
      × Finished (after_txs seqno block p).0 r
unfolding process_block
process_block_total seqno block p v f small =
    let (r, e, done) = Ensures-value (Finished (after_txs seqno block p).0) _ (
      finish_block_total (after_txs seqno block p).0 (after_txs-Ready seqno block p v f)
        (after_txs_size seqno block p small)) in
    (r, rw e, done)
