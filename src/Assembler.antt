-- ===== src/Assembler.antt =====
-- tondb-scanner/src/TraceAssembler.cpp and TraceAssembler.h: transactions are joined into traces by
-- the messages that they send and receive. This file has the data and `process_transaction`.
--
-- A `TraceImplPtr` is shared by the map and by the code that updates the trace. The model keeps the
-- trace with the map key where the pointer lies, and writes it back there when the updates end;
-- nothing reads the map between. Unordered containers keep the order of first insertion.
pub mod Block
pub mod Tasks
pub mod States
pub mod Inv
pub mod Held
pub mod Opening
pub mod Transactions
pub mod Freshness
pub mod Closing
pub mod Sizes
pub mod Reports
pub mod Tracked
pub mod Tracking
pub mod Blocks
pub mod Sorting
pub mod Serving
pub mod Answers
pub mod Faults
pub mod Backups
pub mod Restoring
use ton_index_worker.Prelude.{
  ℕ, ◌+◌, Bool, true, false, not, Option, none, some, List, [], ◌∷◌, ◌++◌, map, if◌then◌else◌,
}
use Prim.Native.Nat.{max}
use Prim.Native.String.{String}
use mathlib.Core.Option
use text.Mathlib.Text.{◌==◌ as str_eq}
use ton_index_worker.Prelude.Words.{add64, sub64}
use ton_index_worker.Prelude.Maps.{find, insert_or_assign, erase, insert, remove}
pub use ton_index_worker.Prelude.Counts.{bit}
use ton_index_worker.Schema.{
  Message, Transaction, Trace, TraceEdge, EdgeType, TraceState, ord, sys, ext, logs,
}

pub record TraceEdgeImpl : Type 0 where
  pub trace_id : ℕ
  pub msg_hash : ℕ
  pub msg_lt : ℕ  -- uint64
  pub left_tx : Option ℕ
  pub right_tx : Option ℕ
  pub type : EdgeType
  pub incomplete : Bool
  pub broken : Bool

unfoldable pub edge_to_schema : TraceEdgeImpl → TraceEdge
edge_to_schema e = record {
  trace_id = e.trace_id;
  msg_hash = e.msg_hash;
  msg_lt = e.msg_lt;
  left_tx = e.left_tx;
  right_tx = e.right_tx;
  type = e.type;
  incomplete = e.incomplete;
  broken = e.broken;
}

pub record TraceImpl : Type 0 where
  pub trace_id : ℕ
  pub external_hash : Option ℕ
  pub mc_seqno_start : ℕ  -- uint32
  pub mc_seqno_end : ℕ  -- uint32
  pub start_lt : ℕ  -- uint64
  pub start_utime : ℕ  -- uint32
  pub end_lt : ℕ  -- uint64
  pub end_utime : ℕ  -- uint32
  pub state : TraceState
  pub pending_edges : ℕ  -- size_t
  pub edges : ℕ  -- size_t
  pub nodes : ℕ  -- size_t

unfoldable pub trace_to_schema : TraceImpl → Trace
trace_to_schema t = record {
  trace_id = t.trace_id;
  external_hash = t.external_hash;
  mc_seqno_start = t.mc_seqno_start;
  mc_seqno_end = t.mc_seqno_end;
  start_lt = t.start_lt;
  start_utime = t.start_utime;
  end_lt = t.end_lt;
  end_utime = t.end_utime;
  state = t.state;
  pending_edges = t.pending_edges;
  edge_count = t.edges;
  nodes = t.nodes;
  edges = [];
}

abbrev pub Traces : Type 0
Traces = List (ℕ × TraceImpl)

abbrev pub Edges : Type 0
Edges = List (ℕ × TraceEdgeImpl)

-- The maps of the assembler with the local collections of `process_block`.
pub record Work : Type 0 where
  pub pending_traces : Traces
  pub pending_edges : Edges
  pub broken_count : ℕ  -- size_t
  pub completed_edges : List TraceEdgeImpl
  pub updated_traces : List ℕ
  pub pending_edges_added : List ℕ

-- The constructor `TraceImpl(seqno, tx)`.
unfoldable pub new_trace : ℕ → Transaction → TraceImpl
new_trace seqno tx = record {
  trace_id = tx.hash;
  external_hash = Option.map (λ m. m.hash) tx.in_msg;
  mc_seqno_start = seqno;
  mc_seqno_end = seqno;
  start_lt = tx.lt;
  start_utime = tx.now;
  end_lt = tx.lt;
  end_utime = tx.now;
  state = TraceState.pending;
  pending_edges = 0;
  edges = 0;
  nodes = 1;
}

abbrev pub or_zero : Option ℕ → ℕ
or_zero none = 0
or_zero (some n) = n

abbrev pub system_address : String
system_address = "-1:0000000000000000000000000000000000000000000000000000000000000000"

-- The kind of an incoming message that no seen transaction sent.
unfoldable pub unseen_type : Option String → EdgeType
unseen_type none = ext
unseen_type (some source) = if str_eq source system_address then sys else ord

-- It is incomplete, and broken, exactly if it has a sender in the network.
unfoldable pub is_broken : EdgeType → Bool
is_broken ord = true
is_broken _ = false

unfoldable pub unseen_edge : Transaction → Message → TraceEdgeImpl
unfolding unseen_type is_broken
unseen_edge tx msg =
    let type = unseen_type msg.source in
    record {
      trace_id = tx.hash;
      msg_hash = msg.hash;
      msg_lt = or_zero msg.created_lt;
      left_tx = none;
      right_tx = some tx.hash;
      type = type;
      incomplete = is_broken type;
      broken = is_broken type;
    }

-- Where the code stands after the incoming message: the collections, and the trace with its key.
pub record Opened : Type 0 where
  pub work : Work
  pub key : ℕ
  pub trace : TraceImpl

-- An edge joins the pending ones or the completed ones.
unfoldable pub add_edge : TraceEdgeImpl → Work → Work
add_edge edge w =
    if edge.incomplete
    then record w {
      pending_edges = insert_or_assign edge.msg_hash edge w.pending_edges;
      pending_edges_added = insert edge.msg_hash w.pending_edges_added;
    }
    else record w { completed_edges = w.completed_edges ++ edge ∷ [] }

-- "edge doesn't exist": a new trace begins.
unfoldable pub open_unseen : ℕ → Transaction → Message → Work → Opened
unfolding unseen_edge new_trace add_edge
open_unseen seqno tx msg w =
    let edge = unseen_edge tx msg in
    let fresh = new_trace seqno tx in
    let trace = record fresh {
      edges = add64 fresh.edges (bit (not edge.incomplete));
      pending_edges = add64 fresh.pending_edges (bit edge.incomplete);
      state = if edge.broken then TraceState.broken else fresh.state;
    } in
    let w' = add_edge edge (record w { broken_count = add64 w.broken_count (bit edge.broken) }) in
    record {
      work = record w' { pending_traces = insert_or_assign trace.trace_id trace w'.pending_traces };
      key = trace.trace_id;
      trace = trace;
    }

-- The edge's trace is known, or a broken one is made.
unfoldable pub find_trace : ℕ → Transaction → TraceEdgeImpl → Work → Option TraceImpl → Opened
unfolding new_trace
find_trace seqno tx edge w (some trace) = record { work = w; key = edge.trace_id; trace = trace }
find_trace seqno tx edge w none =
    let fresh = new_trace seqno tx in
    let trace = record fresh {
      edges = add64 fresh.edges (bit (not edge.incomplete));
      pending_edges = add64 fresh.pending_edges (bit edge.incomplete);
      state = TraceState.broken;
    } in
    record {
      work = record w {
        broken_count = add64 w.broken_count 1;
        pending_traces = insert_or_assign trace.trace_id trace w.pending_traces;
      };
      key = trace.trace_id;
      trace = trace;
    }

-- "edge exists": the message joins the two transactions.
unfoldable pub open_pending : ℕ → Transaction → Message → TraceEdgeImpl → Work → Opened
unfolding find_trace
open_pending seqno tx msg found w =
    let edge = record found { right_tx = some tx.hash; incomplete = false; broken = false } in
    let o = find_trace seqno tx edge w (find edge.trace_id w.pending_traces) in
    record {
      work = record (o.work) {
        completed_edges = o.work.completed_edges ++ record edge { trace_id = o.key } ∷ [];
        pending_edges = erase msg.hash o.work.pending_edges;
        pending_edges_added = remove edge.msg_hash o.work.pending_edges_added;
      };
      key = o.key;
      trace = record (o.trace) {
        pending_edges = sub64 o.trace.pending_edges 1;
        edges = add64 o.trace.edges 1;
        nodes = add64 o.trace.nodes 1;
      };
    }

-- A transaction without incoming message begins a trace too.
unfoldable pub open_first : ℕ → Transaction → Work → Opened
unfolding new_trace
open_first seqno tx w =
    let trace = new_trace seqno tx in
    record {
      work = record w { pending_traces = insert_or_assign trace.trace_id trace w.pending_traces };
      key = trace.trace_id;
      trace = trace;
    }

unfoldable pub open_msg : ℕ → Transaction → Message → Work → Option TraceEdgeImpl → Opened
unfolding open_unseen open_pending
open_msg seqno tx msg w none = open_unseen seqno tx msg w
open_msg seqno tx msg w (some edge) = open_pending seqno tx msg edge w

unfoldable pub open_trace : ℕ → Transaction → Work → Option Message → Opened
unfolding open_msg open_first
open_trace seqno tx w (some msg) = open_msg seqno tx msg w (find msg.hash w.pending_edges)
open_trace seqno tx w none = open_first seqno tx w

-- "update trace meta".
unfoldable pub update_meta : ℕ → Transaction → TraceImpl → TraceImpl
update_meta seqno tx t = record t {
  mc_seqno_end = max t.mc_seqno_end seqno;
  end_lt = max t.end_lt tx.lt;
  end_utime = max t.end_utime tx.now;
}

is_some {ℓ} : {A : Type ℓ} → Option A → Bool
is_some none = false
is_some (some a) = true

-- The edge of an outgoing message; one without destination is a log.
unfoldable pub out_edge : TraceImpl → Transaction → Message → TraceEdgeImpl
unfolding is_some
out_edge trace tx msg = record {
  trace_id = trace.trace_id;
  msg_hash = msg.hash;
  msg_lt = or_zero msg.created_lt;
  left_tx = some tx.hash;
  right_tx = none;
  type = if is_some msg.destination then ord else logs;
  incomplete = is_some msg.destination;
  broken = false;
}

unfoldable pub process_out_msg : Transaction → Work × TraceImpl → Message → Work × TraceImpl
unfolding out_edge add_edge
process_out_msg tx (w, trace) msg =
    let edge = out_edge trace tx msg in
    (
      add_edge edge w,
      record trace {
        pending_edges = add64 trace.pending_edges (bit edge.incomplete);
        edges = add64 trace.edges (bit (not edge.incomplete));
      },
    )

unfoldable pub process_out_msgs : Transaction → Work × TraceImpl → List Message → Work × TraceImpl
unfolding process_out_msg
process_out_msgs tx wt [] = wt
process_out_msgs tx wt (msg ∷ msgs) = process_out_msgs tx (process_out_msg tx wt msg) msgs

abbrev pub with_trace : ℕ → Message → Message
with_trace id msg = record msg { trace_id = id }

-- The transaction with the trace written into it and into its messages.
unfoldable pub mark : ℕ → Transaction → Transaction
mark id tx = record tx {
  trace_id = id;
  in_msg = Option.map (with_trace id) tx.in_msg;
  out_msgs = map (with_trace id) tx.out_msgs;
}

unfoldable pub process_transaction : ℕ → Transaction → Work → Work × Transaction
unfolding open_trace update_meta process_out_msgs mark
process_transaction seqno tx w =
    let o = open_trace seqno tx w tx.in_msg in
    let w' = record (o.work) { updated_traces = insert o.trace.trace_id o.work.updated_traces } in
    let r = process_out_msgs tx (w', update_meta seqno tx o.trace) tx.out_msgs in
    (
      record (r.0) { pending_traces = insert_or_assign o.key r.1 r.0.pending_traces },
      mark o.trace.trace_id tx,
    )
