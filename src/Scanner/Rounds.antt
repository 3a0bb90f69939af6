-- ===== src/Scanner/Rounds.antt =====
-- DbScanner.cpp: a query asks for handles in a bounded number of rounds, since the blocks before a
-- block have smaller numbers.
use ton_index_worker.Prelude.{
  ℕ, suc, ◌+◌, ◌≤◌, ◌<◌, ◌≡◌, refl, sym, ap, subst, ◌∙◌, inl, inr, true, ◌&&◌, Option, some, List,
  [], ◌∷◌, ◌++◌, arith, ltb, ◌==◌, Bool-cases,
}
use ton_index_worker.Prelude.Maps.{contains}
use ton_index_worker.Scanner.{
  Library, IndexQuery, Outcome, wait_mc_block, wait_handles, wait_blocks, finished, failed,
  with_seqno, fetch_block_handles, fetch_shard_blocks, check_pending, got_mc_block,
  got_mc_block_handle, got_block_handle,
}
use ton_index_worker.Scanner.Steps.{
  Chain, Reach, start, next, got_mc_part, got_handle, got_handles, got_block, got_blocks, error,
}
use ton_index_worker.Scanner.Collected.{
  Added, got_block_handle-Added, contains-with_seqno, contains-middle,
}
use ton_index_worker.Scanner.Fetching.{some_queued, none_queued}
use ton_index_worker.Scanner.Refines.{Reach-Sound}

-- How often the answers to a round of requests for handles have all come.
unfoldable pub rounds :
    {lib : Library} {mc_seqno mc_block : ℕ} {shard_ids : Option (List ℕ)} {o : Outcome}
    → Reach lib mc_seqno mc_block shard_ids o
    → ℕ
rounds start = 0
rounds (next r got_mc_part) = rounds r
rounds (next r (got_handle before after handle)) = rounds r
rounds (next r got_handles) = suc (rounds r)
rounds (next r (got_block before after handle)) = rounds r
rounds (next r got_blocks) = rounds r
rounds (next r error) = rounds r

module _ {lib : Library} (chain : Chain lib) (mc_seqno mc_block : ℕ) (ids : List ℕ) (newest : ℕ)
    (earlier : (h p : ℕ) → contains p (lib.prev h) ≡ true → lib.seqno p < lib.seqno (lib.id h))
    (up_to_newest : (b : ℕ) → contains b ids ≡ true → lib.seqno b ≤ newest) where
  -- The numbers of the blocks, with the rounds so far.
  abbrev pub Low : ℕ → List ℕ → Type 0
  Low k bs = (b : ℕ) → contains b bs ≡ true → (0 < lib.seqno b) × (lib.seqno b + k ≤ newest)

  abbrev pub Early : ℕ → Outcome → Type 0
  Early k (wait_mc_block q) = (k ≡ 0) × (q.blocks_queue ≡ [])
  Early k (wait_handles q waiting) = (k < newest) × Low k waiting × Low (suc k) q.blocks_queue
  Early k (wait_blocks q waiting) = k ≤ newest
  Early k (finished r) = k ≤ newest
  Early k failed = k ≤ newest

  pub Early-bound : (k : ℕ) (o : Outcome) → Early k o → k ≤ newest
  Early-bound k (wait_mc_block q) e = omega (arith, e.0)
  Early-bound k (wait_handles q waiting) e = omega (arith, e.0)
  Early-bound k (wait_blocks q waiting) e = e
  Early-bound k (finished r) e = e
  Early-bound k failed e = e

  pub fetch_block_handles-Early :
      (k : ℕ) (q : IndexQuery) → k ≤ newest → Low k q.blocks_queue → Early k (fetch_block_handles q)
  unfolding contains
  fetch_block_handles-Early k q l low = by_queue q.blocks_queue refl
    where
      by_queue : (queue : List ℕ) → q.blocks_queue ≡ queue → Early k (fetch_block_handles q)
      by_queue [] e = subst (Early k) (sym (none_queued chain mc_seqno mc_block ids q e)) l
      by_queue (b ∷ bs) e =
          let low' : Low k (b ∷ bs) = subst (Low k) e low in
          let first = low' b (ground arith) in
          subst (Early k) (sym (some_queued chain mc_seqno mc_block ids q b bs e))
            (omega (arith, first.0, first.1), low', λ c m. absurd cc)

  got_mc_block-Early :
      (q : IndexQuery) → q.blocks_queue ≡ [] → Early 0 (got_mc_block lib (some ids) q)
  unfolding got_mc_block check_pending fetch_shard_blocks
  got_mc_block-Early q e = elim (Bool-cases (q.pending + 1 == 2)) [
    | inl both ↦ rw both (
        fetch_block_handles-Early 0 _ (omega arith) λ b m.
          let m' : (contains b ids && ltb 0 (lib.seqno b)) ≡ true =
            sym (contains-with_seqno lib.seqno b ids)
            ∙ ap (λ queue. contains b (queue ++ with_seqno lib.seqno ids)) (sym e)
            ∙ m in
          (ground (arith, m'), ground (arith, up_to_newest b, m')))
    | inr one ↦ rw one (refl, e)
  ]

  pub got_block_handle-Early :
      (k : ℕ) (handle : ℕ) (before after : List ℕ) (q : IndexQuery)
      → Added chain mc_seqno ids handle q (got_block_handle lib handle q)
      → Early k (wait_handles q (before ++ lib.id handle ∷ after))
      → Early k (wait_handles (got_block_handle lib handle q) (before ++ after))
  got_block_handle-Early k handle before after q a (l, low, queued) = (
    l,
    λ b m. low b (ground (arith, m, contains-middle b (lib.id handle) before after)),
    λ b m. elim (a.queue_new b m) [
      | inl old ↦ queued b old
      | inr (_, before_it, positive) ↦
          let this =
            low (lib.id handle)
              (ground (arith, contains-middle (lib.id handle) (lib.id handle) before after)) in
          (positive, omega (arith, this.1, earlier handle b before_it))
    ],
  )

  pub Reach-Early :
      {o : Outcome} (r : Reach lib mc_seqno mc_block (some ids) o) → Early (rounds r) o
  unfolding got_mc_block_handle rounds
  Reach-Early start = (refl, refl)
  Reach-Early (next r (got_mc_part {q})) =
      let e = Reach-Early r in
      subst (λ k. Early k (got_mc_block lib (some ids) q)) (sym e.0) (got_mc_block-Early q e.1)
  Reach-Early (next r (got_handle {q} before after handle)) =
      let s = Reach-Sound chain mc_seqno mc_block ids r in
      got_block_handle-Early (rounds r) handle before after q
        (got_block_handle-Added chain mc_seqno ids handle q s.0.same_seqno s.0.same_ids)
        (Reach-Early r)
  Reach-Early (next r (got_handles {q})) =
      let e = Reach-Early r in fetch_block_handles-Early (suc (rounds r)) q (omega (arith, e.0)) e.2
  Reach-Early (next r (got_block before after handle)) = Reach-Early r
  Reach-Early (next r got_blocks) = Reach-Early r
  Reach-Early (next {o} r error) = Early-bound (rounds r) o (Reach-Early r)

  -- A query asks for handles in no more rounds than the largest number of a last block of a shard.
  -- The blocks before a block have smaller numbers, and all handles of a block say the same.
  pub rounds-bounded :
      (o : Outcome) (r : Reach lib mc_seqno mc_block (some ids) o) → rounds r ≤ newest
  rounds-bounded o r = Early-bound (rounds r) o (Reach-Early r)
