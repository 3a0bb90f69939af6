-- ===== src/Queue/Laws.antt =====
-- The arithmetic and the order of queue states.
use ton_index_worker.Prelude.{◌≡◌, ◌↔◌, ◌≤◌, ◌<◌, true, arith}
use ton_index_worker.Prelude.Words.{mod32, bias32}
use ton_index_worker.Queue.{QueueState, plus, minus, less, zero_state}

-- Every field is a word.
pub record IsWord (q : QueueState) : Type 0 where
  pub mc_blocks_small : q.mc_blocks < mod32
  pub blocks_small : q.blocks < mod32
  pub txs_small : q.txs < mod32
  pub msgs_small : q.msgs < mod32
  pub traces_small : q.traces < mod32

pub plus-IsWord : (p q : QueueState) → IsWord (plus p q)
unfolding plus
plus-IsWord p q = omega arith

pub minus-IsWord : (p q : QueueState) → IsWord (minus p q)
unfolding minus
minus-IsWord p q = omega arith

pub plus_assoc : (p q r : QueueState) → plus (plus p q) r ≡ plus p (plus q r)
unfolding plus
plus_assoc p q r = ground arith

pub plus_comm : (p q : QueueState) → plus p q ≡ plus q p
unfolding plus
plus_comm p q = ground arith

pub minus-plus : (p q : QueueState) → IsWord p → minus (plus q p) q ≡ p
unfolding plus minus
minus-plus p q w = ground arith

pub plus-zero : (p : QueueState) → IsWord p → plus p zero_state ≡ p
unfolding plus
plus-zero p w = ground arith

-- Whatever the words are, `operator<` holds of a state and itself: it is no strict order.
pub less_refl : (q : QueueState) → less q q ≡ true
unfolding less
less_refl q = ground arith

-- `operator<` is exactly the order of four of the five fields.
pub less_iff :
    (p q : QueueState)
    → (less p q ≡ true) ↔ (
        (bias32 p.mc_blocks ≤ bias32 q.mc_blocks)
        × (bias32 p.blocks ≤ bias32 q.blocks)
        × (bias32 p.txs ≤ bias32 q.txs)
        × (bias32 p.msgs ≤ bias32 q.msgs))
unfolding less
less_iff p q = ground arith
