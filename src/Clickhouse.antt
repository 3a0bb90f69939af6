-- ===== src/Clickhouse.antt =====
-- ton-index-clickhouse/src/IndexScheduler.cpp and IndexScheduler.h: the scheduler for ClickHouse. A
-- block passes the stages fetch, parse and interfaces, and is inserted. Unlike the scheduler of
-- Scheduler.antt it starts blocks by a message to itself, and it stops when its end is passed.
-- Numbers are words, `int32_t` by their patterns; where the source compares an `int32_t` with a
-- `uint32_t` the comparison is unsigned. What a block holds is left out, and so are the speed
-- estimate and the printed statistics.
pub mod Queueing
pub mod Pipeline
use ton_index_worker.Prelude.{
  ℕ, zero, suc, ◌+◌, ◌-◌, Bool, true, false, not, ◌&&◌, ◌||◌, Option, none, some, List, [], ◌∷◌,
  ◌++◌, length, ltb, if◌then◌else◌,
}
use ton_index_worker.Prelude.Words.{add32, slt32, sle32}
use ton_index_worker.Prelude.Maps.{contains, insert, remove}
use ton_index_worker.Queue.{QueueState, less}
use ton_index_worker.Insert.{is_empty}

pub record IndexScheduler : Type 0 where
  pub queued_seqnos : List ℕ
  pub processing_seqnos : List ℕ
  pub existing_seqnos : List ℕ
  pub max_active_tasks : ℕ  -- uint32
  pub last_known_seqno : ℕ  -- int32
  pub last_indexed_seqno : ℕ  -- int32
  pub from_seqno : ℕ  -- int32
  pub to_seqno : ℕ  -- int32
  pub force_index : Bool
  pub max_queue : QueueState
  pub cur_queue_state : QueueState

pub data Stage : Type 0 where
  fetch parse interfaces : Stage

-- What a handler asks of the other actors, of itself, and of the actor system.
pub data Effect : Type 0 where
  request : Stage → ℕ → Effect
  request_insert : ℕ → Effect
  request_existing_seqnos : ℕ → ℕ → Effect
  request_queue_state : Effect
  request_last_mc_seqno : Effect
  schedule_later : Effect
  stop : Effect

unfoldable pub schedule_seqno : ℕ → IndexScheduler → IndexScheduler × List Effect
schedule_seqno mc_seqno s = (
  record s { processing_seqnos = insert mc_seqno s.processing_seqnos },
  request fetch mc_seqno ∷ [],
)

unfoldable pub reschedule_seqno : ℕ → IndexScheduler → IndexScheduler
reschedule_seqno mc_seqno s = record s {
  processing_seqnos = remove mc_seqno s.processing_seqnos;
  queued_seqnos = s.queued_seqnos ++ mc_seqno ∷ [];
}

-- The loop of `schedule_next_seqnos`, on the queue.
unfoldable pub schedule_loop : List ℕ → IndexScheduler → IndexScheduler × List Effect
unfolding schedule_seqno
schedule_loop [] s = (record s { queued_seqnos = [] }, [])
schedule_loop (seqno ∷ queue) s =
    let started = schedule_seqno seqno s in
    let rest = schedule_loop queue started.0 in
    if ltb (length s.processing_seqnos) s.max_active_tasks
    then (rest.0, started.1 ++ rest.1)
    else (record s { queued_seqnos = seqno ∷ queue }, [])

-- The scheduler has passed the last number to index.
unfoldable pub is_past : IndexScheduler → Bool
is_past s = slt32 0 s.to_seqno && slt32 s.to_seqno s.last_known_seqno

unfoldable pub schedule_next_seqnos : IndexScheduler → IndexScheduler × List Effect
unfolding schedule_loop is_past
schedule_next_seqnos s =
    let r = schedule_loop s.queued_seqnos s in
    if is_past r.0 && is_empty r.0.queued_seqnos then (r.0, r.1 ++ stop ∷ []) else r

unfoldable pub got_insert_queue_state : QueueState → IndexScheduler → IndexScheduler × List Effect
got_insert_queue_state status s = (
  record s { cur_queue_state = status },
  if less status s.max_queue then schedule_later ∷ [] else [],
)

unfoldable pub seqno_queued_to_insert :
    ℕ → QueueState → IndexScheduler → IndexScheduler × List Effect
unfolding got_insert_queue_state
seqno_queued_to_insert mc_seqno status s =
    got_insert_queue_state status
      (record s { processing_seqnos = remove mc_seqno s.processing_seqnos })

unfoldable pub seqno_inserted : ℕ → IndexScheduler → IndexScheduler
seqno_inserted mc_seqno s = record s {
  existing_seqnos = insert mc_seqno s.existing_seqnos;
  last_indexed_seqno = if ltb s.last_indexed_seqno mc_seqno then mc_seqno else s.last_indexed_seqno;
}

-- `seqno_fetched`, `seqno_parsed` and `seqno_interfaces_processed`: the next stage is asked for.
unfoldable pub stage_done : Stage → ℕ → List Effect
stage_done fetch mc_seqno = request parse mc_seqno ∷ []
stage_done parse mc_seqno = request interfaces mc_seqno ∷ []
stage_done interfaces mc_seqno = request_insert mc_seqno ∷ []

-- The answer of a stage: an error queues the block again.
unfoldable pub stage_answered : Stage → ℕ → Bool → IndexScheduler → IndexScheduler × List Effect
unfolding stage_done reschedule_seqno
stage_answered stage mc_seqno true s = (s, stage_done stage mc_seqno)
stage_answered stage mc_seqno false s = (reschedule_seqno mc_seqno s, [])

unfoldable pub insert_answered : ℕ → Bool → IndexScheduler → IndexScheduler
unfolding seqno_inserted reschedule_seqno
insert_answered mc_seqno true s = seqno_inserted mc_seqno s
insert_answered mc_seqno false s = reschedule_seqno mc_seqno s

-- The numbers that the database holds.
insert_all : List ℕ → List ℕ → List ℕ
insert_all [] existing = existing
insert_all (value ∷ values) existing = insert_all values (insert value existing)

unfoldable pub got_existing_seqnos : Option (List ℕ) → IndexScheduler → IndexScheduler
unfolding insert_all
got_existing_seqnos none s = s
got_existing_seqnos (some seqnos) s = record s {
  existing_seqnos = insert_all seqnos s.existing_seqnos;
}

-- The test of the loop: a block is queued if it is not there yet, or is to be indexed again, and
-- lies within the bounds.
unfoldable pub wanted : IndexScheduler → ℕ → Bool
wanted s seqno =
    if not s.force_index && contains seqno s.existing_seqnos
    then false
    else (sle32 s.from_seqno 0 || sle32 s.from_seqno seqno)
      && (sle32 s.to_seqno 0 || sle32 seqno s.to_seqno)

-- The loop of `got_last_known_seqno`: what it queues in so many rounds from `seqno`.
unfoldable pub known_loop : IndexScheduler → ℕ → ℕ → List ℕ
known_loop s zero seqno = []
known_loop s (suc rounds) seqno =
    let rest = known_loop s rounds (add32 seqno 1) in if wanted s seqno then seqno ∷ rest else rest

unfoldable pub got_last_known_seqno : ℕ → IndexScheduler → IndexScheduler
unfolding known_loop is_past
got_last_known_seqno last_known_seqno s =
    let first = add32 s.last_known_seqno 1 in
    if is_past s then s else record s {
      queued_seqnos = s.queued_seqnos ++ known_loop s (last_known_seqno + 1 - first) first;
      last_known_seqno = last_known_seqno;
    }

unfoldable pub alarm : IndexScheduler → List Effect
alarm s = request_queue_state ∷ request_last_mc_seqno ∷ []

unfoldable pub run : IndexScheduler → List Effect
run s = request_existing_seqnos s.from_seqno s.to_seqno ∷ []
