-- ===== src/Insert/Batch.antt =====
-- The inner loop of InsertManagerBase::schedule_next_insert_batches: what one batch takes.
use ton_index_worker.Prelude.{
  ◌≡◌, ◌≢◌, refl, ap, sym, ◌∙◌, ◌⊎◌, inl, true, false, List, [], ◌∷◌, ◌++◌, arith,
}
use ton_index_worker.Queue.{QueueState, plus, minus, zero_state}
use ton_index_worker.Queue.Laws.{IsWord, plus-IsWord, plus_assoc, plus_comm, minus-plus, plus-zero}
use ton_index_worker.Insert.{
  InsertTask, InsertManager, get_queue_state, check_batch_size, take_batch,
}

-- The size of a list of tasks.
unfoldable pub total : List InsertTask → QueueState
total [] = zero_state
total (task ∷ tasks) = plus (get_queue_state task) (total tasks)

pub total-IsWord : (tasks : List InsertTask) → IsWord (total tasks)
unfolding total
total-IsWord [] = omega arith
total-IsWord (task ∷ tasks) = plus-IsWord _ _

pub total-snoc :
    (tasks : List InsertTask) (task : InsertTask)
    → total (tasks ++ task ∷ []) ≡ plus (total tasks) (get_queue_state task)
unfolding total
total-snoc [] task = plus_comm (get_queue_state task) zero_state
total-snoc (t ∷ tasks) task =
    ap (plus (get_queue_state t)) (total-snoc tasks task)
    ∙ sym (plus_assoc (get_queue_state t) (total tasks) (get_queue_state task))

module _ (m : InsertManager) where
  pub take_batch-append :
      (b q : QueueState) (tasks : List InsertTask)
      → (take_batch m b q tasks).batch ++ (take_batch m b q tasks).rest ≡ tasks
  unfolding take_batch
  take_batch-append b q [] = refl
  take_batch-append b q (t ∷ tasks) =
      ground
        (arith, take_batch-append (plus b (get_queue_state t)) (minus q (get_queue_state t)) tasks)

  pub take_batch-total :
      (b q : QueueState) (tasks : List InsertTask)
      → q ≡ total tasks
      → (take_batch m b q tasks).queue_state ≡ total (take_batch m b q tasks).rest
  unfolding take_batch total
  take_batch-total b q [] e = e
  take_batch-total b q (t ∷ tasks) e = ground (
    arith,
    minus-plus (total tasks) (get_queue_state t) (total-IsWord tasks),
    take_batch-total (plus b (get_queue_state t)) (minus q (get_queue_state t)) tasks,
  )

  -- The loop ends because the queue is empty or the batch is over the limits.
  pub take_batch_full :
      (b q : QueueState) (tasks : List InsertTask)
      → ((take_batch m b q tasks).rest ≡ [])
        ⊎ (check_batch_size m (take_batch m b q tasks).batch_state ≡ false)
  unfolding take_batch
  take_batch_full b q [] = inl refl
  take_batch_full b q (t ∷ tasks) =
      ground
        (arith, take_batch_full (plus b (get_queue_state t)) (minus q (get_queue_state t)) tasks)

  pub take_batch-batch_state :
      (b q : QueueState) (tasks : List InsertTask)
      → IsWord b
      → (take_batch m b q tasks).batch_state ≡ plus b (total (take_batch m b q tasks).batch)
  unfolding take_batch total
  take_batch-batch_state b q [] w = ground (arith, plus-zero b w)
  take_batch-batch_state b q (t ∷ tasks) w = ground (
    arith,
    plus-zero b w,
    plus_assoc b (get_queue_state t) (
        total
          (take_batch m (plus b (get_queue_state t)) (minus q (get_queue_state t)) tasks).batch),
    take_batch-batch_state (plus b (get_queue_state t)) (minus q (get_queue_state t)) tasks
        (plus-IsWord b (get_queue_state t)),
  )

  -- Before each task that is taken the batch was within the limits.
  pub take_batch_within :
      (b q : QueueState) (tasks xs : List InsertTask) (t : InsertTask) (ys : List InsertTask)
      → IsWord b
      → (take_batch m b q tasks).batch ≡ xs ++ t ∷ ys
      → check_batch_size m (plus b (total xs)) ≡ true
  unfolding take_batch total
  take_batch_within b q [] [] t ys w e = cc
  take_batch_within b q [] (x ∷ xs) t ys w e = cc
  take_batch_within b q (u ∷ tasks) [] t ys w e = ground (arith, plus-zero b w)
  take_batch_within b q (u ∷ tasks) (x ∷ xs) t ys w e = ground (
    arith,
    plus_assoc b (get_queue_state u) (total xs),
    take_batch_within (plus b (get_queue_state u)) (minus q (get_queue_state u)) tasks xs t ys
        (plus-IsWord b (get_queue_state u)),
  )

  pub take_batch_progress :
      (b q : QueueState) (tasks : List InsertTask)
      → check_batch_size m b ≡ true
      → tasks ≢ []
      → (take_batch m b q tasks).batch ≢ []
  unfolding take_batch
  take_batch_progress b q [] h n = absurd (n refl)
  take_batch_progress b q (t ∷ tasks) h n = ground arith
