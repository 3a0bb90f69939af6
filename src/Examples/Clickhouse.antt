-- ===== src/Examples/Clickhouse.antt =====
-- ton-index-clickhouse/src/IndexScheduler.cpp with two queued blocks behind the end of the range.
use ton_index_worker.Prelude.{ℕ, ◌≡◌, refl, true, false, [], ◌∷◌, ◌++◌, arith}
use ton_index_worker.Prelude.Maps.{contains}
use ton_index_worker.Queue.{QueueState}
use ton_index_worker.Scheduler.Jobs.{at}
use ton_index_worker.Clickhouse.{
  IndexScheduler, parse, stop, schedule_next_seqnos, is_past, stage_answered,
}
use ton_index_worker.Clickhouse.Queueing.{requests, schedule_next_seqnos_stops}
use ton_index_worker.Clickhouse.Pipeline.{
  System, Reach, IsKept, stops, own_messages, here, next, schedules, answers, after, Reach-IsKept,
}

abbrev no_queue : QueueState
no_queue = record { mc_blocks = 0; blocks = 0; txs = 0; msgs = 0; traces = 0 }

abbrev scheduler : IndexScheduler
scheduler = record {
  queued_seqnos = 4 ∷ 5 ∷ [];
  processing_seqnos = 3 ∷ [];
  existing_seqnos = 1 ∷ 2 ∷ [];
  max_active_tasks = 8;
  last_known_seqno = 7;
  last_indexed_seqno = 2;
  from_seqno = 1;
  to_seqno = 5;
  force_index = false;
  max_queue = no_queue;
  cur_queue_state = no_queue;
}

abbrev initial : System
initial = record { scheduler = scheduler; jobs = at parse 3 ∷ []; mailbox = 1; stopped = false }

-- Parsing block 3 fails, and the blocks are started.
abbrev failed : System
failed = after (stage_answered parse 3 false scheduler) [] 1

abbrev begun : System
begun = after (schedule_next_seqnos failed.scheduler) failed.jobs 0

fails : Reach initial begun
unfolding stops stage_answered own_messages
fails = next (next here (answers [] parse 3 false [] refl refl)) (schedules 0 refl refl)

Reach-IsKept_example : IsKept 3 begun
unfolding contains
Reach-IsKept_example = Reach-IsKept 3 fails refl

scheduler_past : is_past scheduler ≡ true
unfolding is_past
scheduler_past = refl

schedule_next_seqnos_stops_example :
    ((schedule_next_seqnos scheduler).1 ≡ requests (4 ∷ 5 ∷ []) ++ stop ∷ [])
    × ((n : ℕ)
        → contains n (4 ∷ 5 ∷ []) ≡ true
        → contains n (schedule_next_seqnos scheduler).0.processing_seqnos ≡ true)
schedule_next_seqnos_stops_example =
    schedule_next_seqnos_stops scheduler scheduler_past (omega arith)
