-- ===== src/Integrity/Rounds.antt =====
-- IntegrityChecker.cpp: what the loops of `fetch_next_seqnos` and `parse_next_seqnos` move.
use ton_index_worker.Prelude.{
  ℕ, ◌+◌, ◌≤◌, ◌≡◌, refl, ◌⊎◌, inl, inr, List, [], ◌∷◌, arith, length, ltb, Bool-cases,
}
use ton_index_worker.Prelude.Maps.{insert, size-insert-le}
use ton_index_worker.Prelude.Counts.{occ, occ-insert}
use ton_index_worker.Integrity.{IntegrityChecker, fetch_loop, parse_loop}

-- What a round of fetches does to the queue and to the blocks that are fetched.
pub record Fetched (c : IntegrityChecker) (queue : List ℕ) (r : IntegrityChecker) : Type 0 where
  pub counts :
      (n : ℕ)
      → occ n r.queued_seqnos + occ n r.seqnos_fetching ≡ occ n queue + occ n c.seqnos_fetching
  pub bounded :
      length c.seqnos_fetching ≤ c.fetch_parallelism
      → length r.seqnos_fetching ≤ c.fetch_parallelism
  pub ended : (r.queued_seqnos ≡ []) ⊎ (c.fetch_parallelism ≤ length r.seqnos_fetching)
  pub fetch_limit : r.fetch_parallelism ≡ c.fetch_parallelism
  pub parse_limit : r.parse_parallelism ≡ c.parse_parallelism
  pub parsing : r.seqnos_parsing ≡ c.seqnos_parsing
  pub processed : r.seqnos_processed ≡ c.seqnos_processed
  pub to_parse : r.blocks_to_parse ≡ c.blocks_to_parse

pub fetch_loop-Fetched :
    (queue : List ℕ) (c : IntegrityChecker)
    → ((n : ℕ) → occ n queue + occ n c.seqnos_fetching ≤ 1)
    → Fetched c queue (fetch_loop queue c).0
unfolding fetch_loop occ
fetch_loop-Fetched [] c once = record {
  counts = λ n. refl;
  bounded = λ b. b;
  ended = inl refl;
  fetch_limit = refl;
  parse_limit = refl;
  parsing = refl;
  processed = refl;
  to_parse = refl;
}
fetch_loop-Fetched (m ∷ queue) c once =
    let new : occ m c.seqnos_fetching ≡ 0 = ground (arith, once m) in
    elim (Bool-cases (ltb (length c.seqnos_fetching) c.fetch_parallelism)) [
      | inl room ↦
          let f =
            fetch_loop-Fetched queue (record c { seqnos_fetching = insert m c.seqnos_fetching })
              (λ n. omega (arith, once n, occ-insert n m c.seqnos_fetching new)) in
          rw room (record {
            counts = λ n. omega (arith, f.counts n, occ-insert n m c.seqnos_fetching new);
            bounded = λ b. f.bounded (ground (arith, room, size-insert-le m c.seqnos_fetching));
            ended = f.ended;
            fetch_limit = f.fetch_limit;
            parse_limit = f.parse_limit;
            parsing = f.parsing;
            processed = f.processed;
            to_parse = f.to_parse;
          })
      | inr full ↦ rw full (record {
        counts = λ n. refl;
        bounded = λ b. b;
        ended = inr (ground (arith, full));
        fetch_limit = refl;
        parse_limit = refl;
        parsing = refl;
        processed = refl;
        to_parse = refl;
      })
    ]

-- What a round of parses does to its queue and to the blocks that are parsed.
pub record Parsed (c : IntegrityChecker) (queue : List ℕ) (r : IntegrityChecker) : Type 0 where
  pub counts :
      (n : ℕ)
      → occ n r.blocks_to_parse + occ n r.seqnos_parsing ≡ occ n queue + occ n c.seqnos_parsing
  pub bounded :
      length c.seqnos_parsing ≤ c.parse_parallelism → length r.seqnos_parsing ≤ c.parse_parallelism
  pub ended : (r.blocks_to_parse ≡ []) ⊎ (c.parse_parallelism ≤ length r.seqnos_parsing)
  pub fetch_limit : r.fetch_parallelism ≡ c.fetch_parallelism
  pub parse_limit : r.parse_parallelism ≡ c.parse_parallelism
  pub fetching : r.seqnos_fetching ≡ c.seqnos_fetching
  pub processed : r.seqnos_processed ≡ c.seqnos_processed
  pub queued : r.queued_seqnos ≡ c.queued_seqnos

pub parse_loop-Parsed :
    (queue : List ℕ) (c : IntegrityChecker)
    → ((n : ℕ) → occ n queue + occ n c.seqnos_parsing ≤ 1)
    → Parsed c queue (parse_loop queue c).0
unfolding parse_loop occ
parse_loop-Parsed [] c once = record {
  counts = λ n. refl;
  bounded = λ b. b;
  ended = inl refl;
  fetch_limit = refl;
  parse_limit = refl;
  fetching = refl;
  processed = refl;
  queued = refl;
}
parse_loop-Parsed (m ∷ queue) c once =
    let new : occ m c.seqnos_parsing ≡ 0 = ground (arith, once m) in
    elim (Bool-cases (ltb (length c.seqnos_parsing) c.parse_parallelism)) [
      | inl room ↦
          let f =
            parse_loop-Parsed queue (record c { seqnos_parsing = insert m c.seqnos_parsing })
              (λ n. omega (arith, once n, occ-insert n m c.seqnos_parsing new)) in
          rw room (record {
            counts = λ n. omega (arith, f.counts n, occ-insert n m c.seqnos_parsing new);
            bounded = λ b. f.bounded (ground (arith, room, size-insert-le m c.seqnos_parsing));
            ended = f.ended;
            fetch_limit = f.fetch_limit;
            parse_limit = f.parse_limit;
            fetching = f.fetching;
            processed = f.processed;
            queued = f.queued;
          })
      | inr full ↦ rw full (record {
        counts = λ n. refl;
        bounded = λ b. b;
        ended = inr (ground (arith, full));
        fetch_limit = refl;
        parse_limit = refl;
        fetching = refl;
        processed = refl;
        queued = refl;
      })
    ]
