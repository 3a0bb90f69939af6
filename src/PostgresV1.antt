-- ===== src/PostgresV1.antt =====
-- ton-index-postgres/src/IndexScheduler.cpp and IndexScheduler.h: the scheduler for the first Postgres
-- schema. It has no last number to index. Numbers are unsigned words. What a block holds is left out,
-- and so are the speed estimate and the printed statistics.
pub mod Queueing
pub mod Starting
pub mod Pipeline
use ton_index_worker.Prelude.{
  ℕ, zero, suc, ◌+◌, ◌-◌, Bool, true, false, Option, none, some, List, [], ◌∷◌, ◌++◌, length, ltb,
  if◌then◌else◌,
}
use ton_index_worker.Prelude.Words.{add32}
use ton_index_worker.Prelude.Maps.{contains, insert, remove}
use ton_index_worker.Queue.{QueueState, less, zero_state}

pub record IndexScheduler : Type 0 where
  pub queued_seqnos : List ℕ
  pub processing_seqnos : List ℕ
  pub existing_seqnos : List ℕ
  pub max_active_tasks : ℕ  -- uint32
  pub last_known_seqno : ℕ  -- uint32
  pub last_indexed_seqno : ℕ  -- uint32
  pub from_seqno : ℕ  -- uint32
  pub max_queue : QueueState
  pub cur_queue_state : QueueState

-- The constructor.
unfoldable pub new_scheduler : ℕ → ℕ → QueueState → IndexScheduler
new_scheduler from_seqno max_active_tasks max_queue = record {
  queued_seqnos = [];
  processing_seqnos = [];
  existing_seqnos = [];
  max_active_tasks = max_active_tasks;
  last_known_seqno = from_seqno;
  last_indexed_seqno = 0;
  from_seqno = from_seqno;
  max_queue = max_queue;
  cur_queue_state = zero_state;
}

pub data Stage : Type 0 where
  fetch parse interfaces : Stage

-- What a handler asks of the other actors and of itself.
pub data Effect : Type 0 where
  request : Stage → ℕ → Effect
  request_insert : ℕ → Effect
  request_existing_seqnos : ℕ → ℕ → Effect
  request_queue_state : Effect
  request_last_mc_seqno : Effect
  schedule_later : Effect

unfoldable pub schedule_seqno : ℕ → IndexScheduler → IndexScheduler × List Effect
schedule_seqno mc_seqno s = (
  record s { processing_seqnos = insert mc_seqno s.processing_seqnos },
  request fetch mc_seqno ∷ [],
)

unfoldable pub reschedule_seqno : ℕ → IndexScheduler → IndexScheduler
reschedule_seqno mc_seqno s = record s {
  processing_seqnos = remove mc_seqno s.processing_seqnos;
  queued_seqnos = s.queued_seqnos ++ mc_seqno ∷ [];
}

-- The loop of `schedule_next_seqnos`, on the queue.
unfoldable pub schedule_loop : List ℕ → IndexScheduler → IndexScheduler × List Effect
unfolding schedule_seqno
schedule_loop [] s = (record s { queued_seqnos = [] }, [])
schedule_loop (seqno ∷ queue) s =
    let started = schedule_seqno seqno s in
    let rest = schedule_loop queue started.0 in
    if ltb (length s.processing_seqnos) s.max_active_tasks
    then (rest.0, started.1 ++ rest.1)
    else (record s { queued_seqnos = seqno ∷ queue }, [])

unfoldable pub schedule_next_seqnos : IndexScheduler → IndexScheduler × List Effect
unfolding schedule_loop
schedule_next_seqnos s = schedule_loop s.queued_seqnos s

unfoldable pub got_insert_queue_state : QueueState → IndexScheduler → IndexScheduler × List Effect
got_insert_queue_state status s = (
  record s { cur_queue_state = status },
  if less status s.max_queue then schedule_later ∷ [] else [],
)

unfoldable pub seqno_queued_to_insert :
    ℕ → QueueState → IndexScheduler → IndexScheduler × List Effect
unfolding got_insert_queue_state
seqno_queued_to_insert mc_seqno status s =
    got_insert_queue_state status
      (record s { processing_seqnos = remove mc_seqno s.processing_seqnos })

unfoldable pub seqno_inserted : ℕ → IndexScheduler → IndexScheduler
seqno_inserted mc_seqno s = record s {
  existing_seqnos = insert mc_seqno s.existing_seqnos;
  last_indexed_seqno = if ltb s.last_indexed_seqno mc_seqno then mc_seqno else s.last_indexed_seqno;
}

-- `seqno_fetched`, `seqno_parsed` and `seqno_interfaces_processed`: the next stage is asked for.
unfoldable pub stage_done : Stage → ℕ → List Effect
stage_done fetch mc_seqno = request parse mc_seqno ∷ []
stage_done parse mc_seqno = request interfaces mc_seqno ∷ []
stage_done interfaces mc_seqno = request_insert mc_seqno ∷ []

-- The answer of a stage: an error queues the block again.
unfoldable pub stage_answered : Stage → ℕ → Bool → IndexScheduler → IndexScheduler × List Effect
unfolding stage_done reschedule_seqno
stage_answered stage mc_seqno true s = (s, stage_done stage mc_seqno)
stage_answered stage mc_seqno false s = (reschedule_seqno mc_seqno s, [])

unfoldable pub insert_answered : ℕ → Bool → IndexScheduler → IndexScheduler
unfolding seqno_inserted reschedule_seqno
insert_answered mc_seqno true s = seqno_inserted mc_seqno s
insert_answered mc_seqno false s = reschedule_seqno mc_seqno s

-- The numbers that the database holds.
insert_all : List ℕ → List ℕ → List ℕ
insert_all [] existing = existing
insert_all (value ∷ values) existing = insert_all values (insert value existing)

unfoldable pub got_existing_seqnos : Option (List ℕ) → IndexScheduler → IndexScheduler
unfolding insert_all
got_existing_seqnos none s = s
got_existing_seqnos (some seqnos) s = record s {
  existing_seqnos = insert_all seqnos s.existing_seqnos;
}

-- The loop of `got_last_known_seqno`: what it queues in so many rounds from `seqno`.
unfoldable pub known_loop : IndexScheduler → ℕ → ℕ → List ℕ
known_loop s zero seqno = []
known_loop s (suc rounds) seqno =
    let rest = known_loop s rounds (add32 seqno 1) in
    if contains seqno s.existing_seqnos then rest else seqno ∷ rest

unfoldable pub got_last_known_seqno : ℕ → IndexScheduler → IndexScheduler
unfolding known_loop
got_last_known_seqno last_known_seqno s =
    let first = add32 s.last_known_seqno 1 in
    record s {
      queued_seqnos = s.queued_seqnos ++ known_loop s (last_known_seqno + 1 - first) first;
      last_known_seqno = last_known_seqno;
    }

unfoldable pub alarm : IndexScheduler → List Effect
alarm s = request_queue_state ∷ request_last_mc_seqno ∷ []

unfoldable pub run : IndexScheduler → List Effect
run s = request_existing_seqnos s.from_seqno 0 ∷ []
