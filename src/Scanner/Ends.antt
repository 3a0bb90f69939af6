-- ===== src/Scanner/Ends.antt =====
-- DbScanner.cpp: a query ends, if the database answers.
use ton_index_worker.Prelude.{
  ℕ, zero, suc, ◌+◌, ◌≤◌, ◌<◌, ◌≡◌, refl, sym, subst, true, Option, some, List, [], ◌∷◌, arith,
}
use ton_index_worker.Prelude.Maps.{contains}
use ton_index_worker.Scanner.{
  Library, IndexQuery, MasterchainBlockDataState, Outcome, wait_mc_block, wait_handles, wait_blocks,
  finished, failed, fetch_block_handles, fetch_shard_blocks, check_pending, got_mc_block,
  got_mc_block_handle, got_block_handle, got_shard_block,
}
use ton_index_worker.Scanner.Steps.{
  Chain, Step, Reach, start, next, got_mc_part, got_handle, got_handles, got_block, got_blocks,
}
use ton_index_worker.Scanner.Collected.{got_block_handle-Added}
use ton_index_worker.Scanner.Inv.{Walk, got_block_handle-Walk, all_asked-Walk}
use ton_index_worker.Scanner.Fetching.{some_queued, none_queued}
use ton_index_worker.Scanner.Refines.{Reach-Sound}
use ton_index_worker.Scanner.Rounds.{
  rounds, rounds-bounded, Early, fetch_block_handles-Early, got_block_handle-Early, Reach-Early,
}

-- Steps from one state to another.
pub data Then (lib : Library) (shard_ids : Option (List ℕ)) : Outcome → Outcome → Type 0 where
  stay : {o : Outcome} → Then lib shard_ids o o
  step :
      {o p z : Outcome} → Step lib shard_ids o p → Then lib shard_ids p z → Then lib shard_ids o z

-- Some steps lead to a result.
abbrev pub Finishes : Library → Option (List ℕ) → Outcome → Type 0
Finishes lib shard_ids o = (r : MasterchainBlockDataState) × Then lib shard_ids o (finished r)

-- The masterchain block has come, and there was no error.
abbrev pub IsPast : Outcome → Type 0
IsPast (wait_mc_block q) = ⊥
IsPast (wait_handles q waiting) = Unit
IsPast (wait_blocks q waiting) = Unit
IsPast (finished r) = Unit
IsPast failed = ⊥

blocks_end :
    (lib : Library) (shard_ids : Option (List ℕ)) (waiting : List ℕ) (q : IndexQuery)
    → Finishes lib shard_ids (wait_blocks q waiting)
blocks_end lib shard_ids [] q = (q.result, step got_blocks stay)
blocks_end lib shard_ids (d ∷ waiting) q =
    let (r, t) = blocks_end lib shard_ids waiting (got_shard_block lib d q) in
    (r, step (got_block [] waiting d) t)

module _ {lib : Library} (chain : Chain lib) (mc_seqno mc_block : ℕ) (ids : List ℕ) (newest : ℕ)
    (earlier : (h p : ℕ) → contains p (lib.prev h) ≡ true → lib.seqno p < lib.seqno (lib.id h))
    (up_to_newest : (b : ℕ) → contains b ids ≡ true → lib.seqno b ≤ newest) (answer : ℕ → ℕ)
    (found : (b : ℕ) → lib.id (answer b) ≡ b) where
  abbrev Early' : ℕ → Outcome → Type 0
  Early' k o = Early chain mc_seqno mc_block ids newest earlier up_to_newest k o

  round_ends :
      (k : ℕ) (waiting : List ℕ) (q : IndexQuery)
      → Walk chain mc_seqno ids q waiting
      → Early' k (wait_handles q waiting)
      → ((r : IndexQuery)
          → Walk chain mc_seqno ids r []
          → Early' k (wait_handles r [])
          → Finishes lib (some ids) (wait_handles r []))
      → Finishes lib (some ids) (wait_handles q waiting)
  round_ends k [] q w e after = after q w e
  round_ends k (b ∷ waiting) q w e after =
      let h : ℕ = answer b in
      let w' = subst (λ c. Walk chain mc_seqno ids q (c ∷ waiting)) (sym (found b)) w in
      let e' = subst (λ c. Early' k (wait_handles q (c ∷ waiting))) (sym (found b)) e in
      let (r, t) =
        round_ends k waiting (got_block_handle lib h q)
          (got_block_handle-Walk chain mc_seqno ids h [] waiting q w')
          (got_block_handle-Early chain mc_seqno mc_block ids newest earlier up_to_newest k h []
            waiting q (got_block_handle-Added chain mc_seqno ids h q w.same_seqno w.same_ids) e')
          after in
      (
        r,
        subst (λ c. Then lib (some ids) (wait_handles q (c ∷ waiting)) (finished r)) (found b)
            (step (got_handle [] waiting h) t),
      )

  handles_end :
      (fuel k : ℕ) (waiting : List ℕ) (q : IndexQuery)
      → newest ≤ k + fuel
      → Walk chain mc_seqno ids q waiting
      → Early' k (wait_handles q waiting)
      → Finishes lib (some ids) (wait_handles q waiting)
  handles_end zero k waiting q l w e = absurd (omega (arith, l, e.0))
  handles_end (suc fuel) k waiting q l w e = round_ends k waiting q w e λ r w' e'.
      let (s, t) = by_queue (handles_end fuel) r w' e' r.blocks_queue refl in
      (s, step got_handles t)
    where
      by_queue :
          ((k' : ℕ) (ws : List ℕ) (r : IndexQuery)
            → newest ≤ k' + fuel
            → Walk chain mc_seqno ids r ws
            → Early' k' (wait_handles r ws)
            → Finishes lib (some ids) (wait_handles r ws))
          → (r : IndexQuery) → Walk chain mc_seqno ids r []
          → Early' k (wait_handles r [])
          → (queue : List ℕ) → r.blocks_queue ≡ queue
          → Finishes lib (some ids) (fetch_block_handles r)
      by_queue below r w' e' [] q0 =
          subst (Finishes lib (some ids)) (sym (none_queued chain mc_seqno mc_block ids r q0))
            (blocks_end lib (some ids) r.shard_block_handles r)
      by_queue below r w' e' (b ∷ bs) q0 =
          let to = some_queued chain mc_seqno mc_block ids r b bs q0 in
          let early =
            fetch_block_handles-Early chain mc_seqno mc_block ids newest earlier up_to_newest
              (suc k) r (omega (arith, e'.0)) e'.2 in
          subst (Finishes lib (some ids)) (sym to) (
            below (suc k) (b ∷ bs) (record r { blocks_queue = [] }) (omega (arith, l))
              (subst (Walk chain mc_seqno ids (record r { blocks_queue = [] })) q0
                (all_asked-Walk chain mc_seqno ids r w'))
              (subst (Early' (suc k)) to early))

  past_end :
      (o : Outcome)
      → Reach lib mc_seqno mc_block (some ids) o
      → IsPast o
      → Finishes lib (some ids) o
  past_end (wait_mc_block q) r p = elim p [ ]
  past_end (wait_handles q waiting) r p =
      handles_end newest (rounds r) waiting q (omega arith)
        (Reach-Sound chain mc_seqno mc_block ids r).0
        (Reach-Early chain mc_seqno mc_block ids newest earlier up_to_newest r)
  past_end (wait_blocks q waiting) r p = blocks_end lib (some ids) waiting q
  past_end (finished r') r p = (r', stay)
  past_end failed r p = elim p [ ]

  fetching-IsPast :
      (q : IndexQuery) (queue : List ℕ) → q.blocks_queue ≡ queue → IsPast (fetch_block_handles q)
  fetching-IsPast q [] e = subst IsPast (sym (none_queued chain mc_seqno mc_block ids q e)) tt
  fetching-IsPast q (b ∷ bs) e =
      subst IsPast (sym (some_queued chain mc_seqno mc_block ids q b bs e)) tt

  start_ends : Finishes lib (some ids) (got_mc_block_handle mc_seqno mc_block)
  unfolding got_mc_block_handle got_mc_block check_pending fetch_shard_blocks
  start_ends =
      let r : Reach lib mc_seqno mc_block (some ids) _ =
        next (next start got_mc_part) got_mc_part in
      let (s, t) = past_end _ r (fetching-IsPast _ _ refl) in
      (s, step got_mc_part (step got_mc_part t))

  -- A query ends: from its start it can come to a result, and so it can from every state that it
  -- reaches after the masterchain block has come and without an error; until then it has asked for
  -- handles in no more rounds than the largest number of a last block of a shard. The database has a
  -- handle for each block, all handles of a block say the same, and the blocks before a block have
  -- smaller numbers.
  pub IndexQuery-Finishes :
      (o : Outcome) (r : Reach lib mc_seqno mc_block (some ids) o)
      → IsPast o
      → Finishes lib (some ids) (got_mc_block_handle mc_seqno mc_block)
        × (rounds r ≤ newest)
        × Finishes lib (some ids) o
  IndexQuery-Finishes o r p = (
    start_ends,
    rounds-bounded chain mc_seqno mc_block ids newest earlier up_to_newest o r,
    past_end o r p,
  )
