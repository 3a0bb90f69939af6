-- ===== src/Insert/Schedule.antt =====
-- InsertManagerBase::schedule_next_insert_batches as a whole.
use ton_index_worker.Prelude.{
  [], ℕ, ◌-◌, zero, suc, ◌+◌, ◌≤◌, ◌<◌, ◌≡◌, refl, ◌⊎◌, inl, inr, Bool, true, false, List, ◌++◌,
  append_assoc, arith, length, concat, All, Bool-cases,
}
use ton_index_worker.Prelude.Words.{mod32, add32, bias32}
use ton_index_worker.Queue.{zero_state, less}
use ton_index_worker.Insert.{
  InsertTask, InsertManager, start_batch, may_start, waits_for_full, schedule_loop,
  schedule_next_insert_batches,
}
use ton_index_worker.Insert.Batch.{total, take_batch-append, take_batch-total}

start_batch-append :
    (m : InsertManager) → (start_batch m).1 ++ (start_batch m).0.insert_queue ≡ m.insert_queue
unfolding start_batch
start_batch-append m = take_batch-append m zero_state m.queue_state m.insert_queue

schedule_loop-append :
    (rounds : ℕ) (full : Bool) (m : InsertManager)
    → concat (schedule_loop rounds full m).1 ++ (schedule_loop rounds full m).0.insert_queue
      ≡ m.insert_queue
unfolding schedule_loop
schedule_loop-append zero full m = refl
schedule_loop-append (suc rounds) full m = ground (
  arith,
  start_batch-append m,
  append_assoc (start_batch m).1 (concat (schedule_loop rounds full (start_batch m).0).1)
      (schedule_loop rounds full (start_batch m).0).0.insert_queue,
  schedule_loop-append rounds full (start_batch m).0,
)

-- The batches that are started, joined in order and followed by what stays queued, are the old
-- queue: no task is lost, repeated or moved.
pub schedule-append :
    (full : Bool) (m : InsertManager)
    → concat (schedule_next_insert_batches full m).1
        ++ (schedule_next_insert_batches full m).0.insert_queue
      ≡ m.insert_queue
unfolding schedule_next_insert_batches
schedule-append full m = schedule_loop-append _ full m

-- The counter of the queue is the sum over its tasks.
abbrev pub IsCounted : InsertManager → Type 0
IsCounted m = m.queue_state ≡ total m.insert_queue

-- A rule for the loop: `J` holds of the manager between rounds, and `P` of every batch.
pub schedule_rule :
    (J : InsertManager → Type 0) (P : List InsertTask → Type 0) (full : Bool)
    → ((m : InsertManager)
        → J m
        → may_start m ≡ true
        → waits_for_full full m ≡ false
        → J (start_batch m).0 × P (start_batch m).1)
    → (rounds : ℕ) (m : InsertManager) → J m
    → J (schedule_loop rounds full m).0 × All P (schedule_loop rounds full m).1
unfolding schedule_loop
schedule_rule J P full step zero m j = (j, tt)
schedule_rule J P full step (suc rounds) m j = elim (Bool-cases (may_start m)) [
  | inl may ↦ elim (Bool-cases (waits_for_full full m)) [
    | inl waits ↦ rw (may, waits) (j, tt)
    | inr goes ↦
        let now = step m j may goes in
        let later = schedule_rule J P full step rounds (start_batch m).0 now.0 in
        rw (may, goes) (later.0, (now.1, later.1))
  ]
  | inr not ↦ rw not (j, tt)
]

pub start_batch-IsCounted : (m : InsertManager) → IsCounted m → IsCounted (start_batch m).0
unfolding start_batch
start_batch-IsCounted m e = take_batch-total m zero_state m.queue_state m.insert_queue e

pub schedule-IsCounted :
    (full : Bool) (m : InsertManager)
    → IsCounted m
    → IsCounted (schedule_next_insert_batches full m).0
unfolding schedule_next_insert_batches
schedule-IsCounted full m c =
    (schedule_rule IsCounted (λ batch. Unit {0}) full
      (λ k j may goes. (start_batch-IsCounted k j, tt)) _ m c).0

-- The number of actors is in range, and the limit is no negative number.
pub record IsBounded (m : InsertManager) : Type 0 where
  pub limit_positive : m.max_parallel_insert_actors < 2147483648
  pub within : m.parallel_insert_actors ≤ m.max_parallel_insert_actors

pub start_batch_parallel :
    (m : InsertManager)
    → ((start_batch m).0.parallel_insert_actors ≡ add32 m.parallel_insert_actors 1)
      × ((start_batch m).0.max_parallel_insert_actors ≡ m.max_parallel_insert_actors)
      × ((start_batch m).0.batch_size ≡ m.batch_size)
unfolding start_batch
start_batch_parallel m = (refl, refl, refl)

start_batch-IsBounded :
    (m : InsertManager) → may_start m ≡ true → IsBounded m → IsBounded (start_batch m).0
unfolding may_start
start_batch-IsBounded m h b = ground (arith, start_batch_parallel m)

abbrev Counts : InsertManager → InsertManager × List (List InsertTask) → Type 0
Counts m r =
    IsBounded r.0
    × (r.0.parallel_insert_actors ≡ m.parallel_insert_actors + length r.1)
    × (r.0.max_parallel_insert_actors ≡ m.max_parallel_insert_actors)

schedule_loop-Counts :
    (rounds : ℕ) (full : Bool) (m : InsertManager)
    → IsBounded m
    → Counts m (schedule_loop rounds full m)
unfolding schedule_loop
schedule_loop-Counts zero full m b = ground arith
schedule_loop-Counts (suc rounds) full m b = elim (Bool-cases (may_start m)) [
  | inl may ↦
      let b' = start_batch-IsBounded m may b in
      ground (
        arith,
        start_batch_parallel m,
        schedule_loop-Counts rounds full (start_batch m).0 b',
        may,
        b'.within,
      )
  | inr not ↦ ground (arith, not)
]

-- As many actors are started as batches, and never more run than the limit allows.
pub schedule-Counts :
    (full : Bool) (m : InsertManager)
    → IsBounded m
    → IsBounded (schedule_next_insert_batches full m).0
      × ((schedule_next_insert_batches full m).0.parallel_insert_actors
          ≡ m.parallel_insert_actors + length (schedule_next_insert_batches full m).1)
      × ((schedule_next_insert_batches full m).0.max_parallel_insert_actors
          ≡ m.max_parallel_insert_actors)
unfolding schedule_next_insert_batches
schedule-Counts full m = schedule_loop-Counts _ full m

-- The loop has ended by its own tests.
abbrev Ended : Bool → InsertManager → Type 0
Ended full m = (may_start m ≡ false) ⊎ (waits_for_full full m ≡ true)

not-may_start :
    (m : InsertManager)
    → m.max_parallel_insert_actors < mod32
    → m.parallel_insert_actors < mod32
    → bias32 m.max_parallel_insert_actors ≤ 0 + bias32 m.parallel_insert_actors
    → may_start m ≡ false
unfolding may_start
not-may_start m l p h = ground arith

may_start_room :
    (m : InsertManager)
    → m.max_parallel_insert_actors < mod32
    → m.parallel_insert_actors < mod32
    → may_start m ≡ true
    → bias32 (add32 m.parallel_insert_actors 1) ≡ bias32 m.parallel_insert_actors + 1
unfolding may_start
may_start_room m l p h = ground arith

schedule_loop-Ended :
    (rounds : ℕ) (full : Bool) (m : InsertManager)
    → m.max_parallel_insert_actors < mod32
    → m.parallel_insert_actors < mod32
    → bias32 m.max_parallel_insert_actors ≤ rounds + bias32 m.parallel_insert_actors
    → Ended full (schedule_loop rounds full m).0
unfolding schedule_loop
schedule_loop-Ended zero full m l p h = inl (not-may_start m l p h)
schedule_loop-Ended (suc rounds) full m l p h = elim (Bool-cases (may_start m)) [
  | inl may ↦ ground (
    arith,
    may,
    start_batch_parallel m,
    may_start_room m l p may,
    schedule_loop-Ended rounds full (start_batch m).0,
  )
  | inr not ↦ ground (arith, not)
]

may_start-false :
    (m : InsertManager)
    → may_start m ≡ false
    → (m.insert_queue ≡ [])
      ⊎ (bias32 m.max_parallel_insert_actors ≤ bias32 m.parallel_insert_actors)
unfolding may_start
may_start-false m e = ground (arith, e)

waits-true :
    (full : Bool) (m : InsertManager)
    → waits_for_full full m ≡ true
    → (full ≡ true) × (less m.queue_state m.batch_size ≡ true)
unfolding waits_for_full
waits-true full m e = ground (arith, e)

-- For counts of actors that are words, the scheduler stops only when the queue is empty; when, as
-- signed numbers, the actors at work are at least as many as may be; or, if it was asked for full
-- batches, when the counter of the queue is within every limit of a batch.
pub schedule_ended :
    (full : Bool) (m : InsertManager)
    → m.max_parallel_insert_actors < mod32
    → m.parallel_insert_actors < mod32
    → let left = (schedule_next_insert_batches full m).0 in
      (left.insert_queue ≡ [])
      ⊎ (bias32 left.max_parallel_insert_actors ≤ bias32 left.parallel_insert_actors)
      ⊎ ((full ≡ true) × (less left.queue_state left.batch_size ≡ true))
unfolding schedule_next_insert_batches
schedule_ended full m l p =
    let rounds = bias32 m.max_parallel_insert_actors - bias32 m.parallel_insert_actors in
    let left = (schedule_loop rounds full m).0 in
    elim (schedule_loop-Ended rounds full m l p (omega arith)) [
      | inl stopped ↦ elim (may_start-false left stopped) [
        | inl empty ↦ inl empty
        | inr busy ↦ inr (inl busy)
      ]
      | inr waits ↦ inr (inr (waits-true full left waits))
    ]
