-- ===== src/Scanner/Inv.antt =====
-- DbScanner.cpp: while handles come in, what has been asked for and what is still to ask for make up
-- the blocks of the masterchain block.
use ton_index_worker.Prelude.{
  ℕ, ◌<◌, ◌≡◌, sym, ap, subst, ◌∙◌, ◌⊎◌, inl, inr, true, List, [], ◌∷◌, ◌++◌, arith, ◌==◌,
  Bool-cases,
}
use ton_index_worker.Prelude.Maps.{contains}
use ton_index_worker.Scanner.{Library, IndexQuery, got_block_handle}
use ton_index_worker.Scanner.Steps.{Chain, Accepted, Asked, Belongs, last_one, before_one}
use ton_index_worker.Scanner.Collected.{Added, got_block_handle-Added, contains-middle}

-- A handle of the block is in the list.
abbrev pub Holds : Library → List ℕ → ℕ → Type 0
Holds lib hs b = (h : ℕ) × (contains h hs ≡ true) × (lib.id h ≡ b)

module _ {lib : Library} (chain : Chain lib) (mc_seqno : ℕ) (ids : List ℕ) where
  -- The block is asked for, to be asked for, or looked at.
  abbrev pub Known : IndexQuery → List ℕ → ℕ → Type 0
  Known q waiting b =
      ((contains b waiting ≡ true) ⊎ (contains b q.blocks_queue ≡ true))
      ⊎ (Accepted chain mc_seqno ids b → Holds lib q.shard_block_handles b)

  pub record Walk (q : IndexQuery) (waiting : List ℕ) : Type 0 where
    pub same_seqno : q.mc_seqno ≡ mc_seqno
    pub same_ids : (b : ℕ) → contains b q.current_shard_blk_ids ≡ contains b ids
    pub asked : (b : ℕ) → contains b waiting ≡ true → Asked chain mc_seqno ids b
    pub queued : (b : ℕ) → contains b q.blocks_queue ≡ true → Asked chain mc_seqno ids b
    pub belongs :
        (h : ℕ) → contains h q.shard_block_handles ≡ true → Belongs chain mc_seqno ids (lib.id h)
    pub lasts : (b : ℕ) → contains b ids ≡ true → 0 < lib.seqno b → Known q waiting b
    pub befores :
        (h p : ℕ)
        → contains h q.shard_block_handles ≡ true
        → contains p (lib.prev h) ≡ true
        → 0 < lib.seqno p
        → Known q waiting p

  -- What was known stays known when one of the answers comes.
  still_Known :
      (handle b : ℕ) (before after : List ℕ) (q r : IndexQuery)
      → Added chain mc_seqno ids handle q r
      → Known q (before ++ lib.id handle ∷ after) b
      → Known r (before ++ after) b
  still_Known handle b before after q r a (inl (inr e)) = inl (inr (a.queue_kept b e))
  still_Known handle b before after q r a (inr d) =
      inr (λ acc. let (h, e, i) = d acc in (h, a.handles_kept h e, i))
  still_Known handle b before after q r a (inl (inl e)) = elim (Bool-cases (lib.id handle == b)) [
    | inl same ↦
        let i : lib.id handle ≡ b = ground (arith, same) in
        inr (λ acc. (handle, a.done (subst (Accepted chain mc_seqno ids) (sym i) acc), i))
    | inr other ↦
        inl (inl (ground (arith, other, e, contains-middle b (lib.id handle) before after)))
  ]

  pub got_block_handle-Walk :
      (handle : ℕ) (before after : List ℕ) (q : IndexQuery)
      → Walk q (before ++ lib.id handle ∷ after)
      → Walk (got_block_handle lib handle q) (before ++ after)
  got_block_handle-Walk handle before after q w =
      let r : IndexQuery = got_block_handle lib handle q in
      let a : Added chain mc_seqno ids handle q r =
        got_block_handle-Added chain mc_seqno ids handle q w.same_seqno w.same_ids in
      let this : Asked chain mc_seqno ids (lib.id handle) =
        w.asked (lib.id handle)
          (ground (arith, contains-middle (lib.id handle) (lib.id handle) before after)) in
      let keep : (b : ℕ)
          → Known q (before ++ lib.id handle ∷ after) b
          → Known r (before ++ after) b =
        λ b. still_Known handle b before after q r a in
      record {
        same_seqno = a.same_seqno ∙ w.same_seqno;
        same_ids = λ b. ap (contains b) a.same_ids ∙ w.same_ids b;
        asked =
            λ b e. w.asked b (ground (arith, e, contains-middle b (lib.id handle) before after));
        queued = λ b e. elim (a.queue_new b e) [
          | inl old ↦ w.queued b old
          | inr (acc, m, l) ↦
              before_one this acc (ap (contains b) (sym (chain.prev_shown handle)) ∙ m) l
        ];
        belongs = λ h e. elim (a.handles_new h e) [
          | inl old ↦ w.belongs h old
          | inr (i, acc) ↦ subst (λ k. Belongs chain mc_seqno ids (lib.id k)) (sym i) (this, acc)
        ];
        lasts = λ b e l. keep b (w.lasts b e l);
        befores = λ h p e m l. elim (a.handles_new h e) [
          | inl old ↦ keep p (w.befores h p old m l)
          | inr (i, _) ↦
              elim (a.before_handle p (ap (λ k. contains k r.shard_block_handles) (sym i) ∙ e)
                (ap (λ k. contains p (lib.prev k)) (sym i) ∙ m) l) [
                  | inl old ↦
                      keep p
                        (w.befores h p (ap (λ k. contains k q.shard_block_handles) i ∙ old) m l)
                  | inr queued ↦ inl (inr queued)
                ]
        ];
      }

  then_asked :
      (q : IndexQuery) (b : ℕ)
      → Known q [] b
      → Known (record q { blocks_queue = [] }) q.blocks_queue b
  unfolding contains
  then_asked q b (inl (inl e)) = absurd cc
  then_asked q b (inl (inr e)) = inl (inl e)
  then_asked q b (inr d) = inr d

  -- When nothing is waited for, the queue is what is asked for next.
  pub all_asked-Walk :
      (q : IndexQuery) → Walk q [] → Walk (record q { blocks_queue = [] }) q.blocks_queue
  unfolding contains
  all_asked-Walk q w = record {
    same_seqno = w.same_seqno;
    same_ids = w.same_ids;
    asked = w.queued;
    queued = λ b e. absurd cc;
    belongs = w.belongs;
    lasts = λ b e l. then_asked q b (w.lasts b e l);
    befores = λ h p e m l. then_asked q p (w.befores h p e m l);
  }

  done-Known :
      (q : IndexQuery) {b : ℕ}
      → q.blocks_queue ≡ []
      → Known q [] b
      → Accepted chain mc_seqno ids b
      → Holds lib q.shard_block_handles b
  unfolding contains
  done-Known q e (inl (inl m)) acc = absurd cc
  done-Known q {b} e (inl (inr m)) acc = absurd (cc (m, ap (contains b) e))
  done-Known q e (inr d) acc = d acc

  -- With nothing to ask for, every block that is looked at and accepted has its handle.
  pub Walk-complete :
      (q : IndexQuery)
      → Walk q []
      → q.blocks_queue ≡ []
      → (b : ℕ) → Asked chain mc_seqno ids b
      → Accepted chain mc_seqno ids b
      → Holds lib q.shard_block_handles b
  unfolding contains
  Walk-complete q w e b (last_one m l) acc = done-Known q e (w.lasts b m l) acc
  Walk-complete q w e p (before_one {b} a acc' m l) acc =
      let (h, has, i) = Walk-complete q w e b a acc' in
      let m' : contains p (lib.prev h) ≡ true =
        ap (contains p) (chain.prev_shown h ∙ ap chain.prev_of i) ∙ m in
      done-Known q e (w.befores h p has m' l) acc
