-- ===== src/Queue.antt =====
-- tondb-scanner/src/queue_state.h and queue_state.cpp: the sizes of a queue, five `int32_t`.
-- A field is the pattern of its word, and sums and differences wrap.
pub mod Laws
use ton_index_worker.Prelude.{ℕ, Bool, ◌&&◌, ◌==◌}
use ton_index_worker.Prelude.Words.{add32, sub32, sle32}

pub record QueueState : Type 0 where
  pub mc_blocks : ℕ
  pub blocks : ℕ
  pub txs : ℕ
  pub msgs : ℕ
  pub traces : ℕ

-- `operator+=`, and `operator+` on a copy.
unfoldable pub plus : QueueState → QueueState → QueueState
plus l r = record {
  mc_blocks = add32 l.mc_blocks r.mc_blocks;
  blocks = add32 l.blocks r.blocks;
  txs = add32 l.txs r.txs;
  msgs = add32 l.msgs r.msgs;
  traces = add32 l.traces r.traces;
}

-- `operator-=`, and `operator-` on a copy.
unfoldable pub minus : QueueState → QueueState → QueueState
minus l r = record {
  mc_blocks = sub32 l.mc_blocks r.mc_blocks;
  blocks = sub32 l.blocks r.blocks;
  txs = sub32 l.txs r.txs;
  msgs = sub32 l.msgs r.msgs;
  traces = sub32 l.traces r.traces;
}

-- `operator==`, which leaves the traces out.
unfoldable pub equals : QueueState → QueueState → Bool
equals l r =
    l.mc_blocks == r.mc_blocks && l.blocks == r.blocks && l.txs == r.txs && l.msgs == r.msgs

-- `operator<`: no field but the traces is larger.
unfoldable pub less : QueueState → QueueState → Bool
less l r =
    sle32 l.mc_blocks r.mc_blocks
    && sle32 l.blocks r.blocks
    && sle32 l.txs r.txs
    && sle32 l.msgs r.msgs

abbrev pub zero_state : QueueState
zero_state = record { mc_blocks = 0; blocks = 0; txs = 0; msgs = 0; traces = 0 }
