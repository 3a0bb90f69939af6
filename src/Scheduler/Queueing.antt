-- ===== src/Scheduler/Queueing.antt =====
-- IndexScheduler.cpp: which blocks `got_last_known_seqno` queues, and which ones
-- `schedule_next_seqnos` starts.
use ton_index_worker.Prelude.{
  ℕ, zero, suc, ◌+◌, ◌≤◌, ◌<◌, ◌≡◌, refl, sym, ap, ◌⊎◌, inl, inr, Bool, false, not, ◌&&◌, ◌||◌,
  List, [], ◌∷◌, ◌++◌, append-nil, map, arith, length, ltb, leb, Bool-cases,
}
use ton_index_worker.Prelude.Words.{mod32, add32, slt32}
use ton_index_worker.Prelude.Maps.{contains, contains-insert, size-insert-le}
use ton_index_worker.Prelude.Sorted.{Increasing, Increasing-mono}
use ton_index_worker.Scheduler.{
  IndexScheduler, Effect, request, fetch, schedule_seqno, schedule_loop, schedule_next_seqnos,
  wanted, known_loop, rounds_to, got_last_known_seqno,
}

none_there : (n : ℕ) → contains n [] ≡ false
unfolding contains
none_there n = refl

known_loop-Increasing :
    (s : IndexScheduler) (rounds seqno : ℕ)
    → seqno + rounds < mod32
    → Increasing seqno (known_loop s rounds seqno)
unfolding known_loop
known_loop-Increasing s zero seqno l = tt
known_loop-Increasing s (suc rounds) seqno l =
    let next : add32 seqno 1 ≡ suc seqno = omega arith in
    let ih = known_loop-Increasing s rounds (add32 seqno 1) (omega arith) in
    elim (Bool-cases (wanted s seqno)) [
      | inl yes' ↦
          rw yes' (omega arith, Increasing-mono (suc seqno) (add32 seqno 1) _ (omega arith) ih)
      | inr no' ↦ rw no' (Increasing-mono seqno (add32 seqno 1) _ (omega arith) ih)
    ]

known_loop-contains :
    (s : IndexScheduler) (rounds seqno n : ℕ)
    → seqno + rounds < mod32
    → contains n (known_loop s rounds seqno) ≡ (leb seqno n && ltb n (seqno + rounds) && wanted s n)
unfolding known_loop contains
known_loop-contains s zero seqno n l = ground arith
known_loop-contains s (suc rounds) seqno n l =
    ground (arith, l, known_loop-contains s rounds (add32 seqno 1) n (omega arith))

-- The scheduler has passed the last number to index.
abbrev pub is_past : IndexScheduler → Bool
is_past s = slt32 0 s.to_seqno && slt32 s.to_seqno s.last_known_seqno

-- When a new last block is known, the numbers that are queued are, in increasing order and each
-- once, exactly those after the last known one up to the new one that are wanted, or none if the
-- scheduler had passed its end. No number is the last word, where the source's loop does not end.
pub got_last_known_seqno-queued :
    (s : IndexScheduler) (last : ℕ)
    → s.last_known_seqno + 1 < mod32
    → last + 1 < mod32
    → (new : List ℕ) × ((got_last_known_seqno last s).queued_seqnos ≡ s.queued_seqnos ++ new)
      × Increasing (suc s.last_known_seqno) new
      × ((n : ℕ)
          → contains n new
            ≡ (not (is_past s) && ltb s.last_known_seqno n && leb n last && wanted s n))
unfolding got_last_known_seqno
got_last_known_seqno-queued s last h l = elim (Bool-cases (is_past s)) [
  | inl past ↦ rw past ([], sym (append-nil s.queued_seqnos), tt, λ n. none_there n)
  | inr open' ↦
      let first = add32 s.last_known_seqno 1 in
      let fits : first + rounds_to first last < mod32 = omega arith in
      rw open' (
        known_loop s (rounds_to first last) first,
        refl,
        Increasing-mono (suc s.last_known_seqno) first _ (omega arith)
            (known_loop-Increasing s (rounds_to first last) first fits),
        λ n. ground (arith, h, l, known_loop-contains s (rounds_to first last) first n fits),
      )
]

-- A member of the list with a request for each number.
abbrev pub requests : List ℕ → List Effect
requests = map (request fetch)

-- What `schedule_next_seqnos` starts, and what it leaves.
pub record Started (s : IndexScheduler) (queue : List ℕ) (r : IndexScheduler × List Effect)
    : Type 0 where
  pub started : List ℕ
  pub effects : r.1 ≡ requests started
  pub in_order : started ++ r.0.queued_seqnos ≡ queue
  pub processing :
      (n : ℕ)
      → contains n r.0.processing_seqnos ≡ (contains n s.processing_seqnos || contains n started)
  pub bounded :
      length s.processing_seqnos ≤ s.max_active_tasks
      → length r.0.processing_seqnos ≤ s.max_active_tasks
  pub ended : (r.0.queued_seqnos ≡ []) ⊎ (s.max_active_tasks ≤ length r.0.processing_seqnos)
  pub same : (r.0.existing_seqnos ≡ s.existing_seqnos) × (r.0.max_active_tasks ≡ s.max_active_tasks)
  pub forced : r.0.force_index ≡ s.force_index

Started-cons :
    (n : ℕ) (queue : List ℕ) (s : IndexScheduler)
    → length s.processing_seqnos < s.max_active_tasks
    → (r : IndexScheduler × List Effect) → Started (schedule_seqno n s).0 queue r
    → Started s (n ∷ queue) (r.0, request fetch n ∷ r.1)
unfolding schedule_seqno contains
Started-cons n queue s room r c = record {
  started = n ∷ c.started;
  effects = ap (λ es. request fetch n ∷ es) c.effects;
  in_order = ap (λ ns. n ∷ ns) c.in_order;
  processing = λ m. ground (arith, c.processing m, contains-insert n m s.processing_seqnos);
  bounded = λ b. c.bounded (omega (arith, room, size-insert-le n s.processing_seqnos));
  ended = c.ended;
  same = c.same;
  forced = c.forced;
}

schedule_loop-Started :
    (queue : List ℕ) (s : IndexScheduler) → Started s queue (schedule_loop queue s)
unfolding schedule_loop contains
schedule_loop-Started [] s = record {
  started = [];
  effects = refl;
  in_order = refl;
  processing = λ n. ground arith;
  bounded = λ b. b;
  ended = inl refl;
  same = (refl, refl);
  forced = refl;
}
schedule_loop-Started (n ∷ queue) s =
    elim (Bool-cases (ltb (length s.processing_seqnos) s.max_active_tasks)) [
      | inl room ↦ rw room (
          Started-cons n queue s (ground (arith, room)) _
            (schedule_loop-Started queue (schedule_seqno n s).0))
      | inr full ↦ rw full (record {
        started = [];
        effects = refl;
        in_order = refl;
        processing = λ m. ground arith;
        bounded = λ b. b;
        ended = inr (ground (arith, full));
        same = (refl, refl);
        forced = refl;
      })
    ]

-- `schedule_next_seqnos` starts blocks from the front of the queue, one request for each, and adds
-- just those to the ones in work. It never has more in work than allowed, and it stops only when
-- the queue is empty or as many are in work.
pub schedule_next_seqnos-Started :
    (s : IndexScheduler) → Started s s.queued_seqnos (schedule_next_seqnos s)
unfolding schedule_next_seqnos
schedule_next_seqnos-Started s = schedule_loop-Started s.queued_seqnos s
