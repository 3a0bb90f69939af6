-- ===== src/Scanner.antt =====
-- tondb-scanner/src/DbScanner.cpp: a query for a masterchain block asks the database for the shard
-- blocks that belong to it. Block ids and handles (shared pointers) are the node library's: numbers
-- that name them stand for them here, and what the library says of them is in `Library`.
pub mod Steps
pub mod Collected
pub mod Inv
pub mod Gathering
pub mod Fetching
pub mod Refines
pub mod Rounds
pub mod Ends
pub mod Loader
use ton_index_worker.Prelude.{
  ℕ, suc, ◌+◌, Bool, true, false, ◌||◌, Option, none, some, List, [], ◌∷◌, ◌++◌, ltb, ◌==◌,
  if◌then◌else◌,
}
use ton_index_worker.Prelude.Maps.{contains, insert}

-- What the node library says of block ids and of block handles.
pub record Library : Type 0 where
  pub seqno : ℕ → ℕ  -- of a block id
  pub id : ℕ → ℕ  -- of a handle
  pub masterchain_ref_block : ℕ → ℕ  -- of a handle
  pub prev : ℕ → List ℕ  -- of a handle

pub record MasterchainBlockDataState : Type 0 where
  pub shard_blocks : List ℕ
  pub shard_blocks_diff : List ℕ

pub record IndexQuery : Type 0 where
  pub mc_seqno : ℕ  -- int
  pub mc_block_handle : ℕ
  pub pending : ℕ  -- int
  pub blocks_queue : List ℕ
  pub current_shard_blk_ids : List ℕ
  pub shard_block_handles : List ℕ
  pub result : MasterchainBlockDataState

-- What the query waits for: the two parts of the masterchain block, the handles of blocks, or the
-- data of handles. The answers to a list come in any order, and what follows is done after the last.
pub data Outcome : Type 0 where
  wait_mc_block : IndexQuery → Outcome
  wait_handles : IndexQuery → List ℕ → Outcome
  wait_blocks : IndexQuery → List ℕ → Outcome
  finished : MasterchainBlockDataState → Outcome
  failed : Outcome

-- The ids whose number is positive.
unfoldable pub with_seqno : (ℕ → ℕ) → List ℕ → List ℕ
with_seqno seqno [] = []
with_seqno seqno (b ∷ bs) = if ltb 0 (seqno b) then b ∷ with_seqno seqno bs else with_seqno seqno bs

unfoldable pub insert_each : List ℕ → List ℕ → List ℕ
insert_each [] s = s
insert_each (b ∷ bs) s = insert_each bs (insert b s)

unfoldable pub fetch_block_data_states : IndexQuery → Outcome
fetch_block_data_states q = wait_blocks q q.shard_block_handles

-- All of the queue is asked for at once.
unfoldable pub fetch_block_handles : IndexQuery → Outcome
unfolding fetch_block_data_states
fetch_block_handles q = elim q.blocks_queue [
  | [] ↦ fetch_block_data_states q
  | b ∷ bs ↦ wait_handles (record q { blocks_queue = [] }) (b ∷ bs)
]

-- The new query, when it has the handle of the masterchain block.
unfoldable pub got_mc_block_handle : ℕ → ℕ → Outcome
got_mc_block_handle mc_seqno handle = wait_mc_block (record {
  mc_seqno = mc_seqno;
  mc_block_handle = handle;
  pending = 0;
  blocks_queue = [];
  current_shard_blk_ids = [];
  shard_block_handles = [];
  result = record { shard_blocks = []; shard_blocks_diff = [] };
})

module _ (lib : Library) where
  -- With the ids in the shard configuration, if that can be read from the state.
  unfoldable pub fetch_shard_blocks : Option (List ℕ) → IndexQuery → Outcome
  unfolding fetch_block_handles with_seqno insert_each
  fetch_shard_blocks none q = failed
  fetch_shard_blocks (some ids) q = fetch_block_handles (record q {
    blocks_queue = q.blocks_queue ++ with_seqno lib.seqno ids;
    current_shard_blk_ids = insert_each ids q.current_shard_blk_ids;
  })

  unfoldable pub check_pending : Option (List ℕ) → IndexQuery → Outcome
  unfolding fetch_shard_blocks
  check_pending shard_ids q =
      if q.pending == 2
      then fetch_shard_blocks shard_ids (record q {
        result = record {
          shard_blocks = q.result.shard_blocks ++ q.mc_block_handle ∷ [];
          shard_blocks_diff = q.result.shard_blocks_diff ++ q.mc_block_handle ∷ [];
        };
      })
      else wait_mc_block q

  -- `got_mc_block_data` and `got_mc_block_state`: either part of the block.
  unfoldable pub got_mc_block : Option (List ℕ) → IndexQuery → Outcome
  unfolding check_pending
  got_mc_block shard_ids q = check_pending shard_ids (record q { pending = q.pending + 1 })

  unfoldable pub add_block_handle : ℕ → IndexQuery → IndexQuery
  unfolding with_seqno
  add_block_handle handle q = if contains handle q.shard_block_handles then q else record q {
    shard_block_handles = insert handle q.shard_block_handles;
    blocks_queue = q.blocks_queue ++ with_seqno lib.seqno (lib.prev handle);
  }

  -- The promise in `fetch_block_handles`, on a handle.
  unfoldable pub got_block_handle : ℕ → IndexQuery → IndexQuery
  unfolding add_block_handle
  got_block_handle handle q =
      if lib.masterchain_ref_block handle == q.mc_seqno
        || contains (lib.id handle) q.current_shard_blk_ids
      then add_block_handle handle q
      else q

  -- The data of a handle have the handle's id.
  unfoldable pub got_shard_block : ℕ → IndexQuery → IndexQuery
  got_shard_block handle q = record q {
    result = record {
      shard_blocks =
          if contains (lib.id handle) q.current_shard_blk_ids
          then q.result.shard_blocks ++ handle ∷ []
          else q.result.shard_blocks;
      shard_blocks_diff =
          if lib.masterchain_ref_block handle == q.mc_seqno
          then q.result.shard_blocks_diff ++ handle ∷ []
          else q.result.shard_blocks_diff;
    };
  }
