-- ===== src/Examples/Insert.antt =====
-- InsertManagerBase.cpp with two small blocks in the queue, a batch of at most one, and two actors.
use ton_index_worker.Prelude.{◌≤◌, ◌≡◌, ◌⊎◌, refl, false, true, [], ◌∷◌, arith, All}
use ton_index_worker.Prelude.Words.{bias32}
use ton_index_worker.Queue.{QueueState, plus, less, zero_state}
use ton_index_worker.Insert.{
  InsertTask, InsertManager, get_queue_state, check_batch_size, schedule_next_insert_batches,
}
use ton_index_worker.Insert.Batch.{total}
use ton_index_worker.Insert.Schedule.{IsCounted, schedule_ended}
use ton_index_worker.Insert.Contents.{IsBatch, IsFull, schedule-IsBatch, schedule-IsFull}
use ton_index_worker.Insert.System.{
  System, Reach, Inv, here, next, inserts, rings, on_alarm, on_insert, Reach-Inv,
}

abbrev first_task : InsertTask
first_task = record {
  mc_seqno = 5;
  parsed_block = record { blocks = record { seqno = 5; transactions = [] } ∷ []; traces = [] };
}

abbrev second_task : InsertTask
second_task = record {
  mc_seqno = 6;
  parsed_block = record { blocks = record { seqno = 6; transactions = [] } ∷ []; traces = [] };
}

abbrev limits : QueueState
limits = record { mc_blocks = 1; blocks = 10; txs = 10; msgs = 10; traces = 10 }

abbrev manager : InsertManager
manager = record {
  insert_queue = first_task ∷ second_task ∷ [];
  queue_state = plus (get_queue_state first_task) (plus (get_queue_state second_task) zero_state);
  max_parallel_insert_actors = 2;
  parallel_insert_actors = 0;
  batch_size = limits;
}

abbrev idle : InsertManager
idle = record {
  insert_queue = [];
  queue_state = zero_state;
  max_parallel_insert_actors = 2;
  parallel_insert_actors = 0;
  batch_size = limits;
}

manager-IsCounted : IsCounted manager
unfolding total
manager-IsCounted = refl

empty_admitted : check_batch_size manager zero_state ≡ true
unfolding check_batch_size less
empty_admitted = refl

schedule-IsBatch_example : All (IsBatch limits) (schedule_next_insert_batches false manager).1
schedule-IsBatch_example = schedule-IsBatch false manager empty_admitted

schedule-IsFull_example : All (IsFull limits) (schedule_next_insert_batches true manager).1
schedule-IsFull_example = schedule-IsFull manager manager-IsCounted

schedule_ended_example :
    let left = (schedule_next_insert_batches true manager).0 in
    (left.insert_queue ≡ [])
    ⊎ (bias32 left.max_parallel_insert_actors ≤ bias32 left.parallel_insert_actors)
    ⊎ ((true ≡ true) × (less left.queue_state left.batch_size ≡ true))
schedule_ended_example = schedule_ended true manager (omega arith) (omega arith)

-- Both blocks fill one batch.
batches_started :
    (schedule_next_insert_batches true manager).1 ≡ (first_task ∷ second_task ∷ []) ∷ []
unfolding schedule_next_insert_batches less plus get_queue_state
batches_started = refl

abbrev initial : System
initial = record { manager = idle; mailbox = []; running = []; inserted = []; started = [] }

initial-Inv : Inv initial
unfolding total
initial-Inv = record {
  counted = refl;
  bounded = record { limit_positive = omega arith; within = omega arith };
  actors = refl;
  history = refl;
}

abbrev inserted_both : System
inserted_both = on_insert (on_insert initial first_task) second_task

insert_both : Reach initial (on_alarm inserted_both)
insert_both = next (next (next here (inserts first_task)) (inserts second_task)) rings

Reach-Inv_example : Inv (on_alarm inserted_both)
Reach-Inv_example = Reach-Inv insert_both initial-Inv
