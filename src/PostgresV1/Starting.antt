-- ===== src/PostgresV1/Starting.antt =====
-- ton-index-postgres/src/IndexScheduler.cpp: what `schedule_next_seqnos` starts.
use ton_index_worker.Prelude.{
  ℕ, ◌≤◌, ◌<◌, ◌≡◌, refl, ap, ◌⊎◌, inl, inr, ◌||◌, List, [], ◌∷◌, ◌++◌, map, arith, length, ltb,
  Bool-cases,
}
use ton_index_worker.Prelude.Maps.{contains, contains-insert, size-insert-le}
use ton_index_worker.PostgresV1.{
  IndexScheduler, Effect, request, fetch, schedule_seqno, schedule_loop, schedule_next_seqnos,
}

-- A member of the list with a request for each number.
abbrev pub requests : List ℕ → List Effect
requests = map (request fetch)

-- What `schedule_next_seqnos` starts, and what it leaves.
pub record Started (s : IndexScheduler) (queue : List ℕ) (r : IndexScheduler × List Effect)
    : Type 0 where
  pub started : List ℕ
  pub effects : r.1 ≡ requests started
  pub in_order : started ++ r.0.queued_seqnos ≡ queue
  pub processing :
      (n : ℕ)
      → contains n r.0.processing_seqnos ≡ (contains n s.processing_seqnos || contains n started)
  pub bounded :
      length s.processing_seqnos ≤ s.max_active_tasks
      → length r.0.processing_seqnos ≤ s.max_active_tasks
  pub ended : (r.0.queued_seqnos ≡ []) ⊎ (s.max_active_tasks ≤ length r.0.processing_seqnos)
  pub same : (r.0.existing_seqnos ≡ s.existing_seqnos) × (r.0.max_active_tasks ≡ s.max_active_tasks)

Started-cons :
    (n : ℕ) (queue : List ℕ) (s : IndexScheduler)
    → length s.processing_seqnos < s.max_active_tasks
    → (r : IndexScheduler × List Effect) → Started (schedule_seqno n s).0 queue r
    → Started s (n ∷ queue) (r.0, request fetch n ∷ r.1)
unfolding schedule_seqno contains
Started-cons n queue s room r c = record {
  started = n ∷ c.started;
  effects = ap (λ es. request fetch n ∷ es) c.effects;
  in_order = ap (λ ns. n ∷ ns) c.in_order;
  processing = λ m. ground (arith, c.processing m, contains-insert n m s.processing_seqnos);
  bounded = λ b. c.bounded (omega (arith, room, size-insert-le n s.processing_seqnos));
  ended = c.ended;
  same = c.same;
}

schedule_loop-Started :
    (queue : List ℕ) (s : IndexScheduler) → Started s queue (schedule_loop queue s)
unfolding schedule_loop contains
schedule_loop-Started [] s = record {
  started = [];
  effects = refl;
  in_order = refl;
  processing = λ n. ground arith;
  bounded = λ b. b;
  ended = inl refl;
  same = (refl, refl);
}
schedule_loop-Started (n ∷ queue) s =
    elim (Bool-cases (ltb (length s.processing_seqnos) s.max_active_tasks)) [
      | inl room ↦ rw room (
          Started-cons n queue s (ground (arith, room)) _
            (schedule_loop-Started queue (schedule_seqno n s).0))
      | inr full ↦ rw full (record {
        started = [];
        effects = refl;
        in_order = refl;
        processing = λ m. ground arith;
        bounded = λ b. b;
        ended = inr (ground (arith, full));
        same = (refl, refl);
      })
    ]

-- `schedule_next_seqnos` starts blocks from the front of the queue, one request for each, and adds
-- just those to the ones in work. It never has more in work than allowed, and it stops only when
-- the queue is empty or as many are in work.
pub schedule_next_seqnos-Started :
    (s : IndexScheduler) → Started s s.queued_seqnos (schedule_next_seqnos s)
unfolding schedule_next_seqnos
schedule_next_seqnos-Started s = schedule_loop-Started s.queued_seqnos s
