-- ===== src/Insert.antt =====
-- tondb-scanner/src/InsertManagerBase.cpp and InsertManagerBase.h: the queue of parsed blocks that
-- wait for the database, cut into batches for a bounded number of parallel insert actors.
-- The subclass's `create_insert_actor` is an effect; a task stands for its promise too.
pub mod Batch
pub mod Contents
pub mod Schedule
pub mod System
use ton_index_worker.Prelude.{
  ℕ, zero, suc, ◌+◌, ◌-◌, ◌%◌, Bool, true, false, ◌&&◌, not, Option, none, some, List, [], ◌∷◌,
  ◌++◌, length, if◌then◌else◌,
}
use ton_index_worker.Prelude.Words.{mod32, add32, sub32, bias32, slt32}
use ton_index_worker.Schema.{Message, Transaction, Block, ParsedBlock}
use ton_index_worker.Queue.{QueueState, plus, minus, less, zero_state}

pub record InsertTask : Type 0 where
  pub mc_seqno : ℕ
  pub parsed_block : ParsedBlock

has_in_msg : Option Message → ℕ
has_in_msg none = 0
has_in_msg (some m) = 1

-- The loop over the transactions of a block.
count_msgs : ℕ → List Transaction → ℕ
unfolding has_in_msg
count_msgs msgs [] = msgs
count_msgs msgs (tx ∷ txs) = count_msgs (add32 msgs (length tx.out_msgs + has_in_msg tx.in_msg)) txs

-- The loop over the blocks.
count_blocks : QueueState → List Block → QueueState
unfolding count_msgs
count_blocks status [] = status
count_blocks status (blk ∷ blks) =
    count_blocks
      (record status {
        txs = add32 status.txs (length blk.transactions);
        msgs = count_msgs status.msgs blk.transactions;
      })
      blks

unfoldable pub get_queue_state : InsertTask → QueueState
unfolding count_blocks
get_queue_state task =
    count_blocks
      (record {
        mc_blocks = 1;
        blocks = length task.parsed_block.blocks % mod32;
        txs = 0;
        msgs = 0;
        traces = length task.parsed_block.traces % mod32;
      })
      task.parsed_block.blocks

pub record InsertManager : Type 0 where
  pub insert_queue : List InsertTask
  pub queue_state : QueueState
  pub max_parallel_insert_actors : ℕ  -- int32
  pub parallel_insert_actors : ℕ  -- int32
  pub batch_size : QueueState

-- What a handler sends out.
pub data Effect : Type 0 where
  queued : QueueState → Effect
  schedule_later : Bool → Effect
  create_insert_actor : List InsertTask → Effect

unfoldable pub insert : InsertManager → InsertTask → InsertManager × List Effect
insert m task =
    let queue_state = plus m.queue_state (get_queue_state task) in
    (
      record m { insert_queue = m.insert_queue ++ task ∷ []; queue_state = queue_state },
      queued queue_state ∷ [],
    )

pub get_insert_queue_state : InsertManager → InsertManager × List Effect
get_insert_queue_state m = (m, queued m.queue_state ∷ [])

unfoldable pub check_batch_size : InsertManager → QueueState → Bool
check_batch_size m batch_state = less batch_state m.batch_size

-- The variables of the inner loop of `schedule_next_insert_batches`.
pub record BatchLoop : Type 0 where
  pub batch : List InsertTask
  pub batch_state : QueueState
  pub rest : List InsertTask
  pub queue_state : QueueState

abbrev pub prepend : InsertTask → BatchLoop → BatchLoop
prepend task l = record l { batch = task ∷ l.batch }

-- The inner loop: tasks are taken while the batch is within the limits.
pub take_batch : InsertManager → QueueState → QueueState → List InsertTask → BatchLoop
unfolding check_batch_size
take_batch m batch_state queue_state [] = record {
  batch = [];
  batch_state = batch_state;
  rest = [];
  queue_state = queue_state;
}
take_batch m batch_state queue_state (task ∷ tasks) =
    let loc_state = get_queue_state task in
    let taken = take_batch m (plus batch_state loc_state) (minus queue_state loc_state) tasks in
    if check_batch_size m batch_state then prepend task taken else record {
      batch = [];
      batch_state = batch_state;
      rest = task ∷ tasks;
      queue_state = queue_state;
    }

-- The body of the outer loop after its guards: a batch leaves the queue for a new actor.
pub start_batch : InsertManager → InsertManager × List InsertTask
unfolding take_batch
start_batch m =
    let l = take_batch m zero_state m.queue_state m.insert_queue in
    (
      record m {
        insert_queue = l.rest;
        queue_state = l.queue_state;
        parallel_insert_actors = add32 m.parallel_insert_actors 1;
      },
      l.batch,
    )

abbrev pub is_empty {ℓ} : {A : Type ℓ} → List A → Bool
is_empty [] = true
is_empty (x ∷ xs) = false

-- The condition of the outer loop.
pub may_start : InsertManager → Bool
may_start m =
    not (is_empty m.insert_queue) && slt32 m.parallel_insert_actors m.max_parallel_insert_actors

-- The test before `break`.
pub waits_for_full : Bool → InsertManager → Bool
unfolding check_batch_size
waits_for_full full_batch m = check_batch_size m m.queue_state && full_batch

-- The outer loop, on the number of actors that may still start: each round starts one.
pub schedule_loop : ℕ → Bool → InsertManager → InsertManager × List (List InsertTask)
unfolding start_batch may_start waits_for_full
schedule_loop zero full_batch m = (m, [])
schedule_loop (suc rounds) full_batch m =
    let (started, batch) = start_batch m in
    let rest = schedule_loop rounds full_batch started in
    if may_start m
    then (if waits_for_full full_batch m then (m, []) else (rest.0, batch ∷ rest.1))
    else (m, [])

unfoldable pub schedule_next_insert_batches :
    Bool → InsertManager → InsertManager × List (List InsertTask)
unfolding schedule_loop
schedule_next_insert_batches full_batch m =
    schedule_loop (bias32 m.max_parallel_insert_actors - bias32 m.parallel_insert_actors) full_batch
      m

pub insert_batch_finished : InsertManager → InsertManager × List Effect
insert_batch_finished m = (
  record m { parallel_insert_actors = sub32 m.parallel_insert_actors 1 },
  schedule_later true ∷ [],
)

-- The timer asks for a round that also starts partial batches.
pub alarm : InsertManager → InsertManager × List Effect
alarm m = (m, schedule_later false ∷ [])

-- The settings.
unfoldable pub set_parallel_inserts_actors : ℕ → InsertManager → InsertManager
set_parallel_inserts_actors value m = record m { max_parallel_insert_actors = value }

unfoldable pub set_insert_batch_size : QueueState → InsertManager → InsertManager
set_insert_batch_size batch_size m = record m { batch_size = batch_size }

unfoldable pub set_insert_blocks : ℕ → InsertManager → InsertManager
set_insert_blocks value m = record m { batch_size = record (m.batch_size) { blocks = value } }

unfoldable pub set_insert_txs : ℕ → InsertManager → InsertManager
set_insert_txs value m = record m { batch_size = record (m.batch_size) { txs = value } }

unfoldable pub set_insert_msgs : ℕ → InsertManager → InsertManager
set_insert_msgs value m = record m { batch_size = record (m.batch_size) { msgs = value } }
