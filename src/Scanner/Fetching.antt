-- ===== src/Scanner/Fetching.antt =====
-- DbScanner.cpp: what holds while a query asks for handles and for blocks, and for its result.
use ton_index_worker.Prelude.{
  ℕ, ◌+◌, ◌≡◌, ◌↔◌, refl, sym, ap, subst, ◌∙◌, ◌⊎◌, inl, inr, true, ◌&&◌, some, List, [], ◌∷◌, ◌++◌,
  arith, ltb, ◌==◌, Bool-cases,
}
use ton_index_worker.Prelude.Maps.{contains}
use ton_index_worker.Scanner.{
  Library, IndexQuery, MasterchainBlockDataState, Outcome, wait_mc_block, wait_handles, wait_blocks,
  finished, failed, with_seqno, insert_each, fetch_block_handles, fetch_block_data_states,
  fetch_shard_blocks, check_pending, got_mc_block,
}
use ton_index_worker.Scanner.Steps.{Chain, Belongs, last_one}
use ton_index_worker.Scanner.Collected.{contains-with_seqno, contains-insert_each}
use ton_index_worker.Scanner.Inv.{Holds, Walk, all_asked-Walk, Walk-complete}
use ton_index_worker.Scanner.Gathering.{Placed, begin-Placed}

module _ {lib : Library} (chain : Chain lib) (mc_seqno mc_block : ℕ) (ids : List ℕ) where
  -- The query before the shard configuration is read.
  pub record Fresh (q : IndexQuery) : Type 0 where
    pub same_seqno : q.mc_seqno ≡ mc_seqno
    pub same_block : q.mc_block_handle ≡ mc_block
    pub no_queue : q.blocks_queue ≡ []
    pub no_ids : q.current_shard_blk_ids ≡ []
    pub no_handles : q.shard_block_handles ≡ []
    pub no_shard : q.result.shard_blocks ≡ []
    pub no_diff : q.result.shard_blocks_diff ≡ []

  abbrev pub OnlyOwn : MasterchainBlockDataState → Type 0
  OnlyOwn r = (r.shard_blocks ≡ mc_block ∷ []) × (r.shard_blocks_diff ≡ mc_block ∷ [])

  -- The query with all its handles.
  pub record Handled (q : IndexQuery) (waiting : List ℕ) : Type 0 where
    pub same_seqno : q.mc_seqno ≡ mc_seqno
    pub same_ids : (b : ℕ) → contains b q.current_shard_blk_ids ≡ contains b ids
    pub belongs :
        (h : ℕ) → contains h q.shard_block_handles ≡ true → Belongs chain mc_seqno ids (lib.id h)
    pub all : (b : ℕ) → Belongs chain mc_seqno ids b → Holds lib q.shard_block_handles b
    pub shard :
        Placed mc_block
          (λ h. contains (lib.id h) q.current_shard_blk_ids)
          q.shard_block_handles
          waiting
          q.result.shard_blocks
    pub diff :
        Placed mc_block
          (λ h. lib.masterchain_ref_block h == q.mc_seqno)
          q.shard_block_handles
          waiting
          q.result.shard_blocks_diff

  -- The blocks of the two lists.
  pub record Gathers (r : MasterchainBlockDataState) : Type 0 where
    pub shard :
        (b : ℕ)
        → Holds lib r.shard_blocks b
          ↔ (b ≡ lib.id mc_block) ⊎ (Belongs chain mc_seqno ids b × (contains b ids ≡ true))
    pub diff :
        (b : ℕ)
        → Holds lib r.shard_blocks_diff b
          ↔ (b ≡ lib.id mc_block) ⊎ (Belongs chain mc_seqno ids b × (chain.ref_of b ≡ mc_seqno))

  abbrev pub Sound : Outcome → Type 0
  Sound (wait_mc_block q) = Fresh q
  Sound (wait_handles q waiting) = Walk chain mc_seqno ids q waiting × OnlyOwn q.result
  Sound (wait_blocks q waiting) = Handled q waiting
  Sound (finished r) = Gathers r
  Sound failed = Unit

  pub none_queued :
      (q : IndexQuery)
      → q.blocks_queue ≡ []
      → fetch_block_handles q ≡ wait_blocks q q.shard_block_handles
  unfolding fetch_block_handles fetch_block_data_states
  none_queued q e = rw e refl

  pub some_queued :
      (q : IndexQuery) (b : ℕ) (bs : List ℕ)
      → q.blocks_queue ≡ b ∷ bs
      → fetch_block_handles q ≡ wait_handles (record q { blocks_queue = [] }) (b ∷ bs)
  unfolding fetch_block_handles
  some_queued q b bs e = rw e refl

  handled :
      (q : IndexQuery)
      → Walk chain mc_seqno ids q []
      → OnlyOwn q.result
      → q.blocks_queue ≡ []
      → Handled q q.shard_block_handles
  handled q w o e = record {
    same_seqno = w.same_seqno;
    same_ids = w.same_ids;
    belongs = w.belongs;
    all = λ b h. Walk-complete chain mc_seqno ids q w e b h.0 h.1;
    shard =
        subst
          (Placed mc_block (λ h. contains (lib.id h) q.current_shard_blk_ids) q.shard_block_handles
            q.shard_block_handles)
          (sym o.0) (begin-Placed mc_block _ q.shard_block_handles);
    diff =
        subst
          (Placed mc_block (λ h. lib.masterchain_ref_block h == q.mc_seqno) q.shard_block_handles
            q.shard_block_handles)
          (sym o.1) (begin-Placed mc_block _ q.shard_block_handles);
  }

  pub fetch_block_handles-Sound :
      (q : IndexQuery)
      → Walk chain mc_seqno ids q []
      → OnlyOwn q.result
      → Sound (fetch_block_handles q)
  fetch_block_handles-Sound q w o = by_queue q.blocks_queue refl
    where
      by_queue : (queue : List ℕ) → q.blocks_queue ≡ queue → Sound (fetch_block_handles q)
      by_queue [] e = subst Sound (sym (none_queued q e)) (handled q w o e)
      by_queue (b ∷ bs) e = subst Sound (sym (some_queued q b bs e)) (
        subst (Walk chain mc_seqno ids (record q { blocks_queue = [] })) e
            (all_asked-Walk chain mc_seqno ids q w),
        o,
      )

  fetch_shard_blocks-Sound :
      (q : IndexQuery)
      → q.mc_seqno ≡ mc_seqno
      → q.blocks_queue ≡ []
      → q.current_shard_blk_ids ≡ []
      → q.shard_block_handles ≡ []
      → OnlyOwn q.result
      → Sound (fetch_shard_blocks lib (some ids) q)
  unfolding fetch_shard_blocks contains
  fetch_shard_blocks-Sound q s e i h o =
      let q' : IndexQuery = record q {
        blocks_queue = q.blocks_queue ++ with_seqno lib.seqno ids;
        current_shard_blk_ids = insert_each ids q.current_shard_blk_ids;
      } in
      fetch_block_handles-Sound q'
        (record {
          same_seqno = s;
          same_ids = λ b.
              contains-insert_each b ids q.current_shard_blk_ids
              ∙ ground (arith, ap (contains b) i);
          asked = λ b m. absurd cc;
          queued = λ b m.
              let m' : (contains b ids && ltb 0 (lib.seqno b)) ≡ true =
                sym (contains-with_seqno lib.seqno b ids)
                ∙ ap (λ queue. contains b (queue ++ with_seqno lib.seqno ids)) (sym e)
                ∙ m in
              last_one (ground (arith, m')) (ground (arith, m'));
          belongs = λ k m. absurd (cc (m, ap (contains k) h));
          lasts = λ b m l. inl (
              inr (
                ap (λ queue. contains b (queue ++ with_seqno lib.seqno ids)) e
                ∙ ground (arith, m, l, contains-with_seqno lib.seqno b ids)));
          befores = λ k p m _ _. absurd (cc (m, ap (contains k) h));
        })
        o

  pub got_mc_block-Sound : (q : IndexQuery) → Fresh q → Sound (got_mc_block lib (some ids) q)
  unfolding got_mc_block check_pending
  got_mc_block-Sound q f = elim (Bool-cases (q.pending + 1 == 2)) [
    | inl both ↦
        let q' : IndexQuery = record q {
          pending = q.pending + 1;
          result = record {
            shard_blocks = q.result.shard_blocks ++ q.mc_block_handle ∷ [];
            shard_blocks_diff = q.result.shard_blocks_diff ++ q.mc_block_handle ∷ [];
          };
        } in
        rw both (
          fetch_shard_blocks-Sound q' f.same_seqno f.no_queue f.no_ids f.no_handles
            (cc (f.no_shard, f.same_block), cc (f.no_diff, f.same_block)))
    | inr one ↦ rw one (record {
      same_seqno = f.same_seqno;
      same_block = f.same_block;
      no_queue = f.no_queue;
      no_ids = f.no_ids;
      no_handles = f.no_handles;
      no_shard = f.no_shard;
      no_diff = f.no_diff;
    })
  ]
