-- ===== src/Insert/Contents.antt =====
-- What the batches of InsertManagerBase::schedule_next_insert_batches hold.
use ton_index_worker.Prelude.{
  ◌≡◌, ◌≢◌, refl, sym, ap, subst, ◌∙◌, inl, inr, Bool, true, false, List, [], ◌∷◌, ◌++◌, append-nil,
  arith, All,
}
use ton_index_worker.Queue.{QueueState, plus, less, zero_state}
use ton_index_worker.Queue.Laws.{IsWord, plus_comm, plus-zero}
use ton_index_worker.Insert.{
  InsertTask, InsertManager, check_batch_size, take_batch, start_batch, may_start, waits_for_full,
  schedule_next_insert_batches,
}
use ton_index_worker.Insert.Batch.{
  total, total-IsWord, take_batch-append, take_batch_full, take_batch-batch_state,
  take_batch_within, take_batch_progress,
}
use ton_index_worker.Insert.Schedule.{
  IsCounted, start_batch-IsCounted, start_batch_parallel, schedule_rule,
}

zero-plus-total : (xs : List InsertTask) → plus zero_state (total xs) ≡ total xs
zero-plus-total xs = plus_comm zero_state (total xs) ∙ plus-zero (total xs) (total-IsWord xs)

zero_state-IsWord : IsWord zero_state
zero_state-IsWord = omega arith

-- A batch has a task, and was within the limits before each of its tasks was added.
abbrev pub IsBatch : QueueState → List InsertTask → Type 0
IsBatch limits batch =
    (batch ≢ [])
    × ((xs : List InsertTask) (t : InsertTask) (ys : List InsertTask)
        → batch ≡ xs ++ t ∷ ys
        → less (total xs) limits ≡ true)

nonempty : (m : InsertManager) → may_start m ≡ true → m.insert_queue ≢ []
unfolding may_start
nonempty m may e = ground (arith, may, e)

start_batch-IsBatch :
    (m : InsertManager)
    → check_batch_size m zero_state ≡ true
    → may_start m ≡ true
    → IsBatch m.batch_size (start_batch m).1
unfolding start_batch check_batch_size
start_batch-IsBatch m h may = (
  take_batch_progress m zero_state m.queue_state m.insert_queue h (nonempty m may),
  λ xs t ys e.
      subst (λ s. less s m.batch_size ≡ true) (zero-plus-total xs)
        (take_batch_within m zero_state m.queue_state m.insert_queue xs t ys zero_state-IsWord e),
)

-- If the limits admit the empty batch, every batch that is started holds a task, and was within the
-- limits before each of its tasks was added.
pub schedule-IsBatch :
    (full : Bool) (m : InsertManager)
    → check_batch_size m zero_state ≡ true
    → All (IsBatch m.batch_size) (schedule_next_insert_batches full m).1
unfolding schedule_next_insert_batches check_batch_size
schedule-IsBatch full m h =
    (schedule_rule (λ k. k.batch_size ≡ m.batch_size) (IsBatch m.batch_size) full
      (λ k e may goes. (
        (start_batch_parallel k).2 ∙ e,
        subst (λ limits. IsBatch limits (start_batch k).1) e
            (start_batch-IsBatch k (subst (λ limits. less zero_state limits ≡ true) (sym e) h) may),
      ))
      _ m refl).1

-- Over the limits: some size other than the traces is larger than the batch allows.
abbrev pub IsFull : QueueState → List InsertTask → Type 0
IsFull limits batch = less (total batch) limits ≡ false

over_limits :
    (m : InsertManager) → waits_for_full true m ≡ false → less m.queue_state m.batch_size ≡ false
unfolding waits_for_full check_batch_size
over_limits m goes = ground (arith, goes)

-- A batch that empties the queue is the queue.
whole_queue :
    (m : InsertManager)
    → (take_batch m zero_state m.queue_state m.insert_queue).rest ≡ []
    → (start_batch m).1 ≡ m.insert_queue
unfolding start_batch
whole_queue m all =
    let b : List InsertTask = (take_batch m zero_state m.queue_state m.insert_queue).batch in
    sym (append-nil b)
    ∙ ap (λ r. b ++ r) (sym all)
    ∙ take_batch-append m zero_state m.queue_state m.insert_queue

start_batch-IsFull :
    (m : InsertManager)
    → IsCounted m
    → waits_for_full true m ≡ false
    → IsFull m.batch_size (start_batch m).1
unfolding start_batch check_batch_size
start_batch-IsFull m c goes = elim (take_batch_full m zero_state m.queue_state m.insert_queue) [
  | inl all ↦
      subst (λ q. less q m.batch_size ≡ false) (c ∙ ap total (sym (whole_queue m all)))
        (over_limits m goes)
  | inr over ↦
      subst (λ q. less q m.batch_size ≡ false)
        (take_batch-batch_state m zero_state m.queue_state m.insert_queue zero_state-IsWord
          ∙ zero-plus-total (start_batch m).1)
        over
]

-- If the counter of the queue is the sum over its tasks, a scheduler that was asked for full batches
-- starts only batches over the limits: in each batch that it starts, the masterchain blocks, the
-- blocks, the transactions or the messages are more than the limit for a batch.
pub schedule-IsFull :
    (m : InsertManager)
    → IsCounted m
    → All (IsFull m.batch_size) (schedule_next_insert_batches true m).1
unfolding schedule_next_insert_batches
schedule-IsFull m c =
    (schedule_rule (λ k. (k.batch_size ≡ m.batch_size) × IsCounted k) (IsFull m.batch_size) true
      (λ k j may goes. (
        ((start_batch_parallel k).2 ∙ j.0, start_batch-IsCounted k j.1),
        subst (λ limits. IsFull limits (start_batch k).1) j.0 (start_batch-IsFull k j.1 goes),
      ))
      _ m (refl, c)).1
