-- ===== src/Scanner/Collected.antt =====
-- DbScanner.cpp: what the query's lists contain, and what one handle adds to them.
use ton_index_worker.Prelude.{
  ℕ, ◌<◌, ◌≡◌, refl, sym, ap, ◌∙◌, ◌⊎◌, inl, inr, true, ◌&&◌, ◌||◌, List, [], ◌∷◌, ◌++◌, arith, ltb,
  ◌==◌, if◌then◌else◌, Bool-cases,
}
use ton_index_worker.Prelude.Maps.{contains, insert, contains-insert, contains-append}
use ton_index_worker.Scanner.{
  Library, IndexQuery, with_seqno, insert_each, add_block_handle, got_block_handle,
}
use ton_index_worker.Scanner.Steps.{Chain, Accepted}

pub contains-middle :
    (b c : ℕ) (before after : List ℕ)
    → contains b (before ++ c ∷ after) ≡ (if c == b then true else contains b (before ++ after))
unfolding contains
contains-middle b c [] after = ground arith
contains-middle b c (a ∷ before) after = ground (arith, contains-middle b c before after)

pub contains-with_seqno :
    (seqno : ℕ → ℕ) (b : ℕ) (bs : List ℕ)
    → contains b (with_seqno seqno bs) ≡ (contains b bs && ltb 0 (seqno b))
unfolding with_seqno contains
contains-with_seqno seqno b [] = refl
contains-with_seqno seqno b (c ∷ bs) = elim (Bool-cases (c == b)) [
  | inl same ↦
      let e : c ≡ b = ground (arith, same) in
      ground (arith, same, ap seqno e, contains-with_seqno seqno b bs)
  | inr other ↦ ground (arith, other, contains-with_seqno seqno b bs)
]

pub contains-insert_each :
    (b : ℕ) (bs s : List ℕ) → contains b (insert_each bs s) ≡ (contains b bs || contains b s)
unfolding insert_each contains
contains-insert_each b [] s = refl
contains-insert_each b (c ∷ bs) s =
    ground (arith, contains-insert_each b bs (insert c s), contains-insert c b s)

module _ {lib : Library} (chain : Chain lib) (mc_seqno : ℕ) (ids : List ℕ) where
  -- What the answer with a handle changes.
  pub record Added (handle : ℕ) (q r : IndexQuery) : Type 0 where
    pub handles_kept :
        (k : ℕ) → contains k q.shard_block_handles ≡ true → contains k r.shard_block_handles ≡ true
    pub queue_kept : (b : ℕ) → contains b q.blocks_queue ≡ true → contains b r.blocks_queue ≡ true
    pub handles_new :
        (k : ℕ)
        → contains k r.shard_block_handles ≡ true
        → (contains k q.shard_block_handles ≡ true)
          ⊎ ((k ≡ handle) × Accepted chain mc_seqno ids (lib.id handle))
    pub queue_new :
        (b : ℕ)
        → contains b r.blocks_queue ≡ true
        → (contains b q.blocks_queue ≡ true)
          ⊎ (Accepted chain mc_seqno ids (lib.id handle)
              × (contains b (lib.prev handle) ≡ true)
              × (0 < lib.seqno b))
    pub before_handle :
        (p : ℕ)
        → contains handle r.shard_block_handles ≡ true
        → contains p (lib.prev handle) ≡ true
        → 0 < lib.seqno p
        → (contains handle q.shard_block_handles ≡ true) ⊎ (contains p r.blocks_queue ≡ true)
    pub done :
        Accepted chain mc_seqno ids (lib.id handle) → contains handle r.shard_block_handles ≡ true
    pub same_seqno : r.mc_seqno ≡ q.mc_seqno
    pub same_ids : r.current_shard_blk_ids ≡ q.current_shard_blk_ids
    pub same_result : r.result ≡ q.result

  -- A handle whose block is not accepted, or that is there already, changes nothing.
  nothing-Added :
      (handle : ℕ) (q : IndexQuery)
      → (Accepted chain mc_seqno ids (lib.id handle) → contains handle q.shard_block_handles ≡ true)
      → Added handle q q
  nothing-Added handle q d = record {
    handles_kept = λ k h. h;
    queue_kept = λ b h. h;
    handles_new = λ k h. inl h;
    queue_new = λ b h. inl h;
    before_handle = λ p h _ _. inl h;
    done = d;
    same_seqno = refl;
    same_ids = refl;
    same_result = refl;
  }

  add_block_handle-Added :
      (handle : ℕ) (q : IndexQuery)
      → Accepted chain mc_seqno ids (lib.id handle)
      → Added handle q (add_block_handle lib handle q)
  unfolding add_block_handle
  add_block_handle-Added handle q a =
      let queue : List ℕ = q.blocks_queue in
      let more : List ℕ = with_seqno lib.seqno (lib.prev handle) in
      elim (Bool-cases (contains handle q.shard_block_handles)) [
        | inl known ↦ rw known (nothing-Added handle q (λ _. known))
        | inr new ↦ rw new (record {
          handles_kept = λ k h. ground (arith, h, contains-insert handle k q.shard_block_handles);
          queue_kept = λ b h. ground (arith, h, contains-append b queue more);
          handles_new = λ k h. elim (Bool-cases (handle == k)) [
            | inl same ↦ inr (ground (arith, same), a)
            | inr other ↦
                inl (ground (arith, h, other, contains-insert handle k q.shard_block_handles))
          ];
          queue_new = λ b h. elim (Bool-cases (contains b queue)) [
            | inl before ↦ inl before
            | inr added ↦
                let m : (contains b (lib.prev handle) && ltb 0 (lib.seqno b)) ≡ true =
                  sym (contains-with_seqno lib.seqno b (lib.prev handle))
                  ∙ ground (arith, h, added, contains-append b queue more) in
                inr (a, ground (arith, m), ground (arith, m))
          ];
          before_handle = λ p _ m l. inr (
              ground (
                arith,
                m,
                l,
                contains-append p queue more,
                contains-with_seqno lib.seqno p (lib.prev handle),
              ));
          done = λ _. ground (arith, contains-insert handle handle q.shard_block_handles);
          same_seqno = refl;
          same_ids = refl;
          same_result = refl;
        })
      ]

  -- The test on the handle is the acceptance of its block.
  pub got_block_handle-Added :
      (handle : ℕ) (q : IndexQuery)
      → q.mc_seqno ≡ mc_seqno
      → ((b : ℕ) → contains b q.current_shard_blk_ids ≡ contains b ids)
      → Added handle q (got_block_handle lib handle q)
  unfolding got_block_handle
  got_block_handle-Added handle q e same =
      let ref = chain.ref_shown handle in
      elim (Bool-cases (lib.masterchain_ref_block handle == q.mc_seqno)) [
        | inl new ↦ rw new (add_block_handle-Added handle q (inl (ground (arith, new, e, ref))))
        | inr old ↦ elim (Bool-cases (contains (lib.id handle) q.current_shard_blk_ids)) [
          | inl last ↦
              rw old (
                rw last (add_block_handle-Added handle q (inr (sym (same (lib.id handle)) ∙ last))))
          | inr other ↦ rw old (
              rw other (
                nothing-Added handle q λ a. elim a [
                  | inl r ↦ absurd (ground (arith, r, old, e, ref))
                  | inr t ↦ absurd (cc (t, same (lib.id handle), other))
                ]))
        ]
      ]
