-- ===== src/Examples/Scanner.antt =====
-- DbScanner.cpp on a shard whose blocks 11 and 12 are new in masterchain block 5.
use ton_index_worker.Prelude.{
  ℕ, ◌≡◌, ◌≤◌, ◌<◌, refl, true, some, [], ◌∷◌, arith, ltb, ◌==◌, if◌then◌else◌,
}
use ton_index_worker.Prelude.Maps.{contains, insert}
use ton_index_worker.Scanner.{
  Library, IndexQuery, wait_handles, MasterchainBlockDataState, finished, fetch_block_data_states,
  fetch_block_handles, fetch_shard_blocks, check_pending, got_mc_block, got_mc_block_handle,
  got_block_handle, add_block_handle, got_shard_block, with_seqno, insert_each,
}
use ton_index_worker.Scanner.Steps.{
  Chain, Reach, start, next, got_mc_part, got_handle, got_handles, got_block, got_blocks,
}
use ton_index_worker.Scanner.Fetching.{Gathers}
use ton_index_worker.Scanner.Refines.{IndexQuery-Gathers}
use ton_index_worker.Scanner.Rounds.{rounds}
use ton_index_worker.Scanner.Ends.{Finishes, IndexQuery-Finishes}

-- Block ids, handles and the numbers of blocks are the same here.
abbrev library : Library
library = record {
  seqno = λ b. b;
  id = λ h. h;
  masterchain_ref_block = λ h. if ltb 10 h then 5 else 4;
  prev = λ h. if h == 12 then 11 ∷ [] else if h == 11 then 10 ∷ [] else [];
}

abbrev blockchain : Chain library
blockchain = record {
  ref_of = library.masterchain_ref_block;
  prev_of = library.prev;
  ref_shown = λ h. refl;
  prev_shown = λ h. refl;
}

abbrev answer : MasterchainBlockDataState
answer = record { shard_blocks = 0 ∷ 12 ∷ []; shard_blocks_diff = 0 ∷ 12 ∷ 11 ∷ [] }

abbrev asks : IndexQuery
asks = record {
  mc_seqno = 5;
  mc_block_handle = 0;
  pending = 2;
  blocks_queue = [];
  current_shard_blk_ids = 12 ∷ [];
  shard_block_handles = [];
  result = record { shard_blocks = 0 ∷ []; shard_blocks_diff = 0 ∷ [] };
}

query : Reach library 5 0 (some (12 ∷ [])) (finished answer)
unfolding got_mc_block_handle got_mc_block check_pending fetch_shard_blocks fetch_block_handles
    fetch_block_data_states got_block_handle add_block_handle got_shard_block with_seqno insert_each
    contains insert
query =
    next
      (next
        (next
          (next
            (next
              (next
                (next
                  (next (next (next (next start got_mc_part) got_mc_part) (got_handle [] [] 12))
                    got_handles)
                  (got_handle [] [] 11))
                got_handles)
              (got_handle [] [] 10))
            got_handles)
          (got_block [] (11 ∷ []) 12))
        (got_block [] [] 11))
      got_blocks

IndexQuery-Gathers_example : Gathers blockchain 5 0 (12 ∷ []) answer
IndexQuery-Gathers_example = IndexQuery-Gathers blockchain 5 0 (12 ∷ []) answer query

before_smaller : (h p : ℕ) → contains p (library.prev h) ≡ true → p < h
unfolding contains
before_smaller h p e = ground (arith, e)

only_last : (b : ℕ) → contains b (12 ∷ []) ≡ true → b ≤ 12
unfolding contains
only_last b e = ground (arith, e)

-- The query when it waits for the handle of block 12.
asking : Reach library 5 0 (some (12 ∷ [])) (wait_handles asks (12 ∷ []))
unfolding got_mc_block_handle got_mc_block check_pending fetch_shard_blocks fetch_block_handles
    with_seqno insert_each insert
asking = next (next start got_mc_part) got_mc_part

IndexQuery-Finishes_example :
    Finishes library (some (12 ∷ [])) (got_mc_block_handle 5 0)
    × (rounds asking ≤ 12)
    × Finishes library (some (12 ∷ [])) (wait_handles asks (12 ∷ []))
IndexQuery-Finishes_example =
    IndexQuery-Finishes blockchain 5 0 (12 ∷ []) 12 before_smaller only_last (λ b. b) (λ b. refl)
      (wait_handles asks (12 ∷ [])) asking tt
