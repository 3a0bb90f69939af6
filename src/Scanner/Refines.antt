-- ===== src/Scanner/Refines.antt =====
-- DbScanner.cpp: the result of a query holds the blocks that belong to the masterchain block.
use ton_index_worker.Prelude.{
  ℕ, ◌≡◌, refl, sym, ap, subst, ◌∙◌, ◌⊎◌, inl, inr, true, some, List, [], ◌∷◌, ◌++◌, arith, ◌==◌,
}
use ton_index_worker.Prelude.Maps.{contains}
use ton_index_worker.Scanner.{
  Library, IndexQuery, MasterchainBlockDataState, Outcome, finished, got_mc_block_handle,
  got_shard_block,
}
use ton_index_worker.Scanner.Steps.{
  Chain, Belongs, Step, Reach, start, next, got_mc_part, got_handle, got_handles, got_block,
  got_blocks, error,
}
use ton_index_worker.Scanner.Collected.{got_block_handle-Added}
use ton_index_worker.Scanner.Inv.{got_block_handle-Walk}
use ton_index_worker.Scanner.Gathering.{step-Placed}
use ton_index_worker.Scanner.Fetching.{
  Handled, Gathers, Sound, OnlyOwn, fetch_block_handles-Sound, got_mc_block-Sound,
}

module _ {lib : Library} (chain : Chain lib) (mc_seqno mc_block : ℕ) (ids : List ℕ) where
  got_shard_block-Handled :
      (handle : ℕ) (before after : List ℕ) (q : IndexQuery)
      → (Handled chain mc_seqno mc_block ids) q (before ++ handle ∷ after)
      → (Handled chain mc_seqno mc_block ids) (got_shard_block lib handle q) (before ++ after)
  unfolding got_shard_block
  got_shard_block-Handled handle before after q g = record {
    same_seqno = g.same_seqno;
    same_ids = g.same_ids;
    belongs = g.belongs;
    all = g.all;
    shard =
        step-Placed mc_block (λ h. contains (lib.id h) q.current_shard_blk_ids) handle
          q.shard_block_handles before after q.result.shard_blocks g.shard;
    diff =
        step-Placed mc_block (λ h. lib.masterchain_ref_block h == q.mc_seqno) handle
          q.shard_block_handles before after q.result.shard_blocks_diff g.diff;
  }

  placed_now :
      (h : ℕ) (out : List ℕ)
      → (contains h [] ≡ true) ⊎ (contains h out ≡ true)
      → contains h out ≡ true
  unfolding contains
  placed_now h out (inl e) = absurd cc
  placed_now h out (inr e) = e

  Handled-Gathers :
      (q : IndexQuery)
      → (Handled chain mc_seqno mc_block ids) q []
      → (Gathers chain mc_seqno mc_block ids) q.result
  unfolding contains
  Handled-Gathers q g = record {
    shard = λ b. (
      λ (h, e, i). elim (g.shard.sound h e) [
        | inl own ↦ inl (sym i ∙ ap lib.id own)
        | inr (k, t) ↦ inr (
          subst (Belongs chain mc_seqno ids) i (g.belongs h k),
          ap (λ c. contains c ids) (sym i) ∙ sym (g.same_ids (lib.id h)) ∙ t,
        )
      ],
      λ c. elim c [
        | inl own ↦ (mc_block, g.shard.own, sym own)
        | inr (w, t) ↦
            let (h, k, i) = g.all b w in
            let t' : contains (lib.id h) q.current_shard_blk_ids ≡ true =
              g.same_ids (lib.id h) ∙ ap (λ c. contains c ids) i ∙ t in
            (h, placed_now h q.result.shard_blocks (g.shard.complete h k t'), i)
      ],
    );
    diff = λ b. (
      λ (h, e, i). elim (g.diff.sound h e) [
        | inl own ↦ inl (sym i ∙ ap lib.id own)
        | inr (k, t) ↦ inr (
          subst (Belongs chain mc_seqno ids) i (g.belongs h k),
          ap chain.ref_of (sym i) ∙ sym (chain.ref_shown h) ∙ ground (arith, t, g.same_seqno),
        )
      ],
      λ c. elim c [
        | inl own ↦ (mc_block, g.diff.own, sym own)
        | inr (w, t) ↦
            let (h, k, i) = g.all b w in
            let r : lib.masterchain_ref_block h ≡ mc_seqno =
              chain.ref_shown h ∙ ap chain.ref_of i ∙ t in
            (
              h,
              placed_now h q.result.shard_blocks_diff
                  (g.diff.complete h k (ground (arith, r, g.same_seqno))),
              i,
            )
      ],
    );
  }

  Step-Sound :
      {o p : Outcome}
      → Step lib (some ids) o p
      → (Sound chain mc_seqno mc_block ids) o
      → (Sound chain mc_seqno mc_block ids) p
  Step-Sound (got_mc_part {q}) s = (got_mc_block-Sound chain mc_seqno mc_block ids) q s
  Step-Sound (got_handle {q} before after handle) s = (
    got_block_handle-Walk chain mc_seqno ids handle before after q s.0,
    subst (OnlyOwn chain mc_seqno mc_block ids)
        (sym
          (got_block_handle-Added chain mc_seqno ids handle q s.0.same_seqno
            s.0.same_ids).same_result)
        s.1,
  )
  Step-Sound (got_handles {q}) s = (fetch_block_handles-Sound chain mc_seqno mc_block ids) q s.0 s.1
  Step-Sound (got_block {q} before after handle) s = got_shard_block-Handled handle before after q s
  Step-Sound (got_blocks {q}) s = Handled-Gathers q s
  Step-Sound error s = tt

  pub Reach-Sound :
      {o : Outcome}
      → Reach lib mc_seqno mc_block (some ids) o
      → (Sound chain mc_seqno mc_block ids) o
  unfolding got_mc_block_handle
  Reach-Sound start = record {
    same_seqno = refl;
    same_block = refl;
    no_queue = refl;
    no_ids = refl;
    no_handles = refl;
    no_shard = refl;
    no_diff = refl;
  }
  Reach-Sound (next r s) = Step-Sound s (Reach-Sound r)

  -- When a query is finished, whatever the order of the answers: `shard_blocks` holds the masterchain
  -- block and those of the last blocks of the shards that belong to it, `shard_blocks_diff` holds the
  -- masterchain block and those of its blocks that refer to it, and no other block is in either.
  -- A block belongs to the masterchain block if it refers to it or is the last of a shard, and is
  -- the last of a shard or comes directly before one that belongs; its number is positive. All
  -- handles of a block say the same.
  pub IndexQuery-Gathers :
      (r : MasterchainBlockDataState)
      → Reach lib mc_seqno mc_block (some ids) (finished r)
      → (Gathers chain mc_seqno mc_block ids) r
  IndexQuery-Gathers r e = Reach-Sound e
