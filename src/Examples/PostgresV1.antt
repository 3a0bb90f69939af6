-- ===== src/Examples/PostgresV1.antt =====
-- ton-index-postgres/src/IndexScheduler.cpp started from block 5, with block 6 in the database.
use ton_index_worker.Prelude.{false, ◌≡◌, refl, not, ◌&&◌, some, [], ◌∷◌, arith, ltb, leb}
use ton_index_worker.Prelude.Maps.{contains, insert}
use ton_index_worker.Queue.{QueueState}
use ton_index_worker.Scheduler.Jobs.{at}
use ton_index_worker.PostgresV1.Pipeline.{
  System, Reach, IsInHand, here, next, schedules, answers, after, Reach-IsInHand,
}
use ton_index_worker.PostgresV1.{
  IndexScheduler, fetch, stage_answered, schedule_next_seqnos, new_scheduler, got_existing_seqnos,
  got_last_known_seqno,
}
use ton_index_worker.PostgresV1.Queueing.{got_last_known_seqno-first}

abbrev no_queue : QueueState
no_queue = record { mc_blocks = 0; blocks = 0; txs = 0; msgs = 0; traces = 0 }

got_last_known_seqno-first_example :
    let s = got_existing_seqnos (some (6 ∷ [])) (new_scheduler 5 8 no_queue) in
    contains 5 (got_last_known_seqno 8 s).queued_seqnos
    ≡ (ltb 5 5 && leb 5 8 && not (contains 5 (6 ∷ [])))
got_last_known_seqno-first_example =
    got_last_known_seqno-first 5 8 no_queue (6 ∷ []) 8 5 (omega arith) (omega arith)

queued_first :
    (got_last_known_seqno 8
      (got_existing_seqnos (some (6 ∷ [])) (new_scheduler 5 8 no_queue))).queued_seqnos
    ≡ 7 ∷ 8 ∷ []
unfolding got_last_known_seqno got_existing_seqnos new_scheduler contains insert
queued_first = refl

-- Block 5 is fetched, and block 7 waits.
abbrev fetching : IndexScheduler
fetching = record (new_scheduler 5 1 no_queue) {
  queued_seqnos = 7 ∷ [];
  processing_seqnos = 5 ∷ [];
  existing_seqnos = 6 ∷ [];
  max_active_tasks = 1;
  last_known_seqno = 7;
  last_indexed_seqno = 6;
  from_seqno = 5;
  max_queue = no_queue;
  cur_queue_state = no_queue;
}

abbrev initial : System
initial = record { scheduler = fetching; jobs = at fetch 5 ∷ [] }

-- The fetch of block 5 fails, and the next blocks are started.
abbrev failed : System
failed = after (stage_answered fetch 5 false fetching) []

abbrev started_again : System
started_again = after (schedule_next_seqnos failed.scheduler) failed.jobs

fails : Reach initial started_again
fails = next (next here (answers [] fetch 5 false [] refl)) schedules

initial-IsInHand : IsInHand 5 initial
unfolding contains
initial-IsInHand = record { located = refl; within = omega arith }

Reach-IsInHand_example : IsInHand 5 started_again
Reach-IsInHand_example = Reach-IsInHand 5 fails initial-IsInHand
