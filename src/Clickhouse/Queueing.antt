-- ===== src/Clickhouse/Queueing.antt =====
-- ton-index-clickhouse/src/IndexScheduler.cpp: what `schedule_next_seqnos` starts, and when it stops
-- the scheduler.
use ton_index_worker.Prelude.{
  ℕ, ◌+◌, ◌≤◌, ◌≡◌, refl, sym, ap, ◌∙◌, inl, inr, true, ◌&&◌, ◌||◌, List, [], ◌∷◌, ◌++◌, append-nil,
  map, arith, length, ltb, Bool-cases,
}
use ton_index_worker.Prelude.Maps.{contains, contains-insert, size-insert-le}
use ton_index_worker.Insert.{is_empty}
use ton_index_worker.Clickhouse.{
  IndexScheduler, Effect, request, fetch, stop, schedule_seqno, schedule_loop, is_past,
  schedule_next_seqnos,
}

abbrev pub requests : List ℕ → List Effect
requests = map (request fetch)

-- What the loop starts from a queue, and what it leaves.
pub record Started (s : IndexScheduler) (queue : List ℕ) (r : IndexScheduler × List Effect)
    : Type 0 where
  pub started : List ℕ
  pub effects : r.1 ≡ requests started
  pub in_order : started ++ r.0.queued_seqnos ≡ queue
  pub processing :
      (n : ℕ)
      → contains n r.0.processing_seqnos ≡ (contains n s.processing_seqnos || contains n started)
  pub existing : r.0.existing_seqnos ≡ s.existing_seqnos
  pub past : is_past r.0 ≡ is_past s
  pub emptied :
      length s.processing_seqnos + length queue ≤ s.max_active_tasks → r.0.queued_seqnos ≡ []

Started-cons :
    (n : ℕ) (queue : List ℕ) (s : IndexScheduler) (r : IndexScheduler × List Effect)
    → Started (schedule_seqno n s).0 queue r
    → Started s (n ∷ queue) (r.0, request fetch n ∷ r.1)
unfolding schedule_seqno contains is_past
Started-cons n queue s r c = record {
  started = n ∷ c.started;
  effects = ap (λ es. request fetch n ∷ es) c.effects;
  in_order = ap (λ ns. n ∷ ns) c.in_order;
  processing = λ m. ground (arith, c.processing m, contains-insert n m s.processing_seqnos);
  existing = c.existing;
  past = c.past;
  emptied = λ b. c.emptied (omega (arith, b, size-insert-le n s.processing_seqnos));
}

pub schedule_loop-Started :
    (queue : List ℕ) (s : IndexScheduler) → Started s queue (schedule_loop queue s)
unfolding schedule_loop contains is_past
schedule_loop-Started [] s = record {
  started = [];
  effects = refl;
  in_order = refl;
  processing = λ n. ground arith;
  existing = refl;
  past = refl;
  emptied = λ b. refl;
}
schedule_loop-Started (n ∷ queue) s =
    elim (Bool-cases (ltb (length s.processing_seqnos) s.max_active_tasks)) [
      | inl room ↦
          rw room (Started-cons n queue s _ (schedule_loop-Started queue (schedule_seqno n s).0))
      | inr full ↦ rw full (record {
        started = [];
        effects = refl;
        in_order = refl;
        processing = λ m. ground arith;
        existing = refl;
        past = refl;
        emptied = λ b. absurd (ground (arith, full, b));
      })
    ]

-- Once the last number to index is passed, a call of `schedule_next_seqnos` that finds room for all
-- that is queued starts it and stops the scheduler in the same call, while every block that was
-- queued is in work.
pub schedule_next_seqnos_stops :
    (s : IndexScheduler)
    → is_past s ≡ true
    → length s.processing_seqnos + length s.queued_seqnos ≤ s.max_active_tasks
    → ((schedule_next_seqnos s).1 ≡ requests s.queued_seqnos ++ stop ∷ [])
      × ((n : ℕ)
          → contains n s.queued_seqnos ≡ true
          → contains n (schedule_next_seqnos s).0.processing_seqnos ≡ true)
unfolding schedule_next_seqnos
schedule_next_seqnos_stops s past room =
    let c = schedule_loop-Started s.queued_seqnos s in
    let none_left = c.emptied room in
    let all : c.started ≡ s.queued_seqnos =
      sym (append-nil c.started) ∙ ap (λ q. c.started ++ q) (sym none_left) ∙ c.in_order in
    let stops : (is_past (schedule_loop s.queued_seqnos s).0
          && is_empty (schedule_loop s.queued_seqnos s).0.queued_seqnos)
        ≡ true =
      rw none_left (rw (c.past ∙ past) refl) in
    rw stops (
      ap (λ es. es ++ stop ∷ []) (c.effects ∙ ap requests all),
      λ n h. ground (arith, c.processing n, h, ap (contains n) all),
    )
