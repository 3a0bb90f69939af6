-- ===== src/Scanner/Steps.antt =====
-- DbScanner.cpp: the query among the actors of the database, in every order of their answers, and the
-- blocks of a masterchain block as the chain defines them.
use ton_index_worker.Prelude.{ℕ, ◌<◌, ◌≡◌, ◌⊎◌, true, Option, List, [], ◌∷◌, ◌++◌}
use ton_index_worker.Prelude.Maps.{contains}
use ton_index_worker.Scanner.{
  Library, IndexQuery, Outcome, wait_mc_block, wait_handles, wait_blocks, finished, failed,
  fetch_block_handles, got_mc_block_handle, got_mc_block, got_block_handle, got_shard_block,
}

-- The chain: what the blocks say, by their ids. All handles of a block say the same.
pub record Chain (lib : Library) : Type 0 where
  pub ref_of : ℕ → ℕ
  pub prev_of : ℕ → List ℕ
  pub ref_shown : (h : ℕ) → lib.masterchain_ref_block h ≡ ref_of (lib.id h)
  pub prev_shown : (h : ℕ) → lib.prev h ≡ prev_of (lib.id h)

-- One answer, or what follows the last one.
pub data Step (lib : Library) (shard_ids : Option (List ℕ)) : Outcome → Outcome → Type 0 where
  got_mc_part :
      {q : IndexQuery} → Step lib shard_ids (wait_mc_block q) (got_mc_block lib shard_ids q)
  got_handle :
      {q : IndexQuery}
      → (before after : List ℕ) (handle : ℕ)
      → Step lib shard_ids
          (wait_handles q (before ++ lib.id handle ∷ after))
          (wait_handles (got_block_handle lib handle q) (before ++ after))
  got_handles : {q : IndexQuery} → Step lib shard_ids (wait_handles q []) (fetch_block_handles q)
  got_block :
      {q : IndexQuery}
      → (before after : List ℕ) (handle : ℕ)
      → Step lib shard_ids
          (wait_blocks q (before ++ handle ∷ after))
          (wait_blocks (got_shard_block lib handle q) (before ++ after))
  got_blocks : {q : IndexQuery} → Step lib shard_ids (wait_blocks q []) (finished q.result)
  error : {o : Outcome} → Step lib shard_ids o failed

-- The states that a query for a masterchain block reaches.
pub data Reach (lib : Library) (mc_seqno handle : ℕ) (shard_ids : Option (List ℕ))
    : Outcome → Type 0 where
  start : Reach lib mc_seqno handle shard_ids (got_mc_block_handle mc_seqno handle)
  next :
      {o p : Outcome}
      → Reach lib mc_seqno handle shard_ids o
      → Step lib shard_ids o p
      → Reach lib mc_seqno handle shard_ids p

-- A block that is new in the masterchain block, or is the last one of a shard.
abbrev pub Accepted : {lib : Library} → Chain lib → ℕ → List ℕ → ℕ → Type 0
Accepted chain mc_seqno ids b = (chain.ref_of b ≡ mc_seqno) ⊎ (contains b ids ≡ true)

-- The blocks that are looked at: the last ones of the shards, and those before an accepted one.
pub data Asked {lib : Library} (chain : Chain lib) (mc_seqno : ℕ) (ids : List ℕ) : ℕ → Type 0 where
  last_one : {b : ℕ} → contains b ids ≡ true → 0 < lib.seqno b → Asked chain mc_seqno ids b
  before_one :
      {b p : ℕ}
      → Asked chain mc_seqno ids b
      → Accepted chain mc_seqno ids b
      → contains p (chain.prev_of b) ≡ true
      → 0 < lib.seqno p
      → Asked chain mc_seqno ids p

-- The blocks of a masterchain block.
abbrev pub Belongs : {lib : Library} → Chain lib → ℕ → List ℕ → ℕ → Type 0
Belongs chain mc_seqno ids b = Asked chain mc_seqno ids b × Accepted chain mc_seqno ids b
