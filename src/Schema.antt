-- ===== src/Schema.antt =====
-- The records of tondb-scanner/src/IndexData.h that pass between the components, with the fields
-- that the modelled code reads or writes. A `td::Bits256` is the number that its bits spell.
use ton_index_worker.Prelude.{ℕ, Bool, Option, List}
use Prim.Native.String.{String}

pub record StdAddress : Type 0 where
  pub workchain : ℕ  -- int32
  pub addr : ℕ

pub record Message : Type 0 where
  pub hash : ℕ
  pub source : Option String
  pub destination : Option String
  pub created_lt : Option ℕ  -- uint64
  pub trace_id : ℕ

pub record Transaction : Type 0 where
  pub hash : ℕ
  pub account : StdAddress
  pub lt : ℕ  -- uint64
  pub now : ℕ  -- uint32
  pub in_msg : Option Message
  pub out_msgs : List Message
  pub trace_id : ℕ

pub record Block : Type 0 where
  pub seqno : ℕ  -- uint32
  pub transactions : List Transaction

pub data EdgeType : Type 0 where
  ord sys ext logs : EdgeType

pub data TraceState : Type 0 where
  complete pending broken : TraceState

pub record TraceEdge : Type 0 where
  pub trace_id : ℕ
  pub msg_hash : ℕ
  pub msg_lt : ℕ  -- uint64
  pub left_tx : Option ℕ
  pub right_tx : Option ℕ
  pub type : EdgeType
  pub incomplete : Bool
  pub broken : Bool

pub record Trace : Type 0 where
  pub trace_id : ℕ
  pub external_hash : Option ℕ
  pub mc_seqno_start : ℕ  -- int32
  pub mc_seqno_end : ℕ  -- int32
  pub start_lt : ℕ  -- uint64
  pub start_utime : ℕ  -- uint32
  pub end_lt : ℕ  -- uint64
  pub end_utime : ℕ  -- uint32
  pub state : TraceState
  pub pending_edges : ℕ  -- int64
  pub edge_count : ℕ  -- int64, the source's `edges_`
  pub nodes : ℕ  -- int64
  pub edges : List TraceEdge

pub record ParsedBlock : Type 0 where
  pub blocks : List Block
  pub traces : List Trace
