-- ===== src/Scheduler.antt =====
-- ton-index-postgres-v2/src/IndexScheduler.cpp and IndexScheduler.h: which masterchain blocks are
-- indexed, and how many at once. A block passes the stages fetch, parse, traces, interfaces,
-- actions and insert; an error at any stage queues it again.
-- Numbers are words, `int32_t` by their patterns; where the source compares an `int32_t` with a
-- `uint32_t` the comparison is unsigned. What a block holds is left out, and so are the speed
-- estimate and the printed statistics.
pub mod Queueing
pub mod Gaps
pub mod Startup
pub mod Jobs
pub mod Pipeline
pub mod Skipped
use ton_index_worker.Prelude.{
  ℕ, zero, suc, ◌+◌, ◌-◌, Bool, true, false, not, ◌&&◌, ◌||◌, Option, none, some, List, [], ◌∷◌,
  ◌++◌, length, ltb, leb, ◌==◌, if◌then◌else◌,
}
use ton_index_worker.Prelude.Words.{mod32, add32, sub32, slt32, sle32}
use ton_index_worker.Prelude.Maps.{contains, insert, remove}
use ton_index_worker.Prelude.Sorted.{sort}
use ton_index_worker.Queue.{QueueState, less}

pub record IndexScheduler : Type 0 where
  pub queued_seqnos : List ℕ
  pub processing_seqnos : List ℕ
  pub existing_seqnos : List ℕ
  pub max_active_tasks : ℕ  -- uint32
  pub last_known_seqno : ℕ  -- int32
  pub last_indexed_seqno : ℕ  -- int32
  pub from_seqno : ℕ  -- int32
  pub to_seqno : ℕ  -- int32
  pub force_index : Bool
  pub max_queue : QueueState
  pub cur_queue_state : QueueState
  pub timers : List ℕ

pub data Stage : Type 0 where
  fetch parse traces interfaces actions : Stage

-- What a handler asks of the other actors.
pub data Effect : Type 0 where
  request : Stage → ℕ → Effect
  request_insert : ℕ → Effect
  request_existing_seqnos : ℕ → ℕ → Effect
  request_restore_state : ℕ → Effect
  request_queue_state : Effect
  request_last_mc_seqno : Effect
  set_expected_seqno : ℕ → Effect

-- `schedule_seqno`; the timer starts anew.
unfoldable pub schedule_seqno : ℕ → IndexScheduler → IndexScheduler × List Effect
schedule_seqno mc_seqno s = (
  record s {
    processing_seqnos = insert mc_seqno s.processing_seqnos;
    timers = insert mc_seqno s.timers;
  },
  request fetch mc_seqno ∷ [],
)

unfoldable pub reschedule_seqno : ℕ → IndexScheduler → IndexScheduler
reschedule_seqno mc_seqno s = record s {
  processing_seqnos = remove mc_seqno s.processing_seqnos;
  queued_seqnos = s.queued_seqnos ++ mc_seqno ∷ [];
}

-- The loop of `schedule_next_seqnos`, on the queue.
unfoldable pub schedule_loop : List ℕ → IndexScheduler → IndexScheduler × List Effect
unfolding schedule_seqno
schedule_loop [] s = (record s { queued_seqnos = [] }, [])
schedule_loop (seqno ∷ queue) s =
    let started = schedule_seqno seqno s in
    let rest = schedule_loop queue started.0 in
    if ltb (length s.processing_seqnos) s.max_active_tasks
    then (rest.0, started.1 ++ rest.1)
    else (record s { queued_seqnos = seqno ∷ queue }, [])

unfoldable pub schedule_next_seqnos : IndexScheduler → IndexScheduler × List Effect
unfolding schedule_loop
schedule_next_seqnos s = schedule_loop s.queued_seqnos s

unfoldable pub got_insert_queue_state : QueueState → IndexScheduler → IndexScheduler × List Effect
unfolding schedule_next_seqnos
got_insert_queue_state status s =
    let s' = record s { cur_queue_state = status } in
    if less status s.max_queue then schedule_next_seqnos s' else (s', [])

unfoldable pub seqno_queued_to_insert :
    ℕ → QueueState → IndexScheduler → IndexScheduler × List Effect
unfolding got_insert_queue_state
seqno_queued_to_insert mc_seqno status s =
    got_insert_queue_state status
      (record s { processing_seqnos = remove mc_seqno s.processing_seqnos })

unfoldable pub seqno_inserted : ℕ → IndexScheduler → IndexScheduler
seqno_inserted mc_seqno s = record s {
  existing_seqnos = insert mc_seqno s.existing_seqnos;
  last_indexed_seqno = if ltb s.last_indexed_seqno mc_seqno then mc_seqno else s.last_indexed_seqno;
  timers = remove mc_seqno s.timers;
}

-- `seqno_fetched`, `seqno_parsed`, `seqno_traces_assembled`, `seqno_interfaces_processed` and
-- `seqno_actions_processed`: the next stage is asked for.
unfoldable pub stage_done : Stage → ℕ → List Effect
stage_done fetch mc_seqno = request parse mc_seqno ∷ []
stage_done parse mc_seqno = request traces mc_seqno ∷ []
stage_done traces mc_seqno = request interfaces mc_seqno ∷ []
stage_done interfaces mc_seqno = request actions mc_seqno ∷ []
stage_done actions mc_seqno = request_insert mc_seqno ∷ []

-- The answer of a stage: an error queues the block again.
unfoldable pub stage_answered : Stage → ℕ → Bool → IndexScheduler → IndexScheduler × List Effect
unfolding stage_done reschedule_seqno
stage_answered stage mc_seqno true s = (s, stage_done stage mc_seqno)
stage_answered stage mc_seqno false s = (reschedule_seqno mc_seqno s, [])

unfoldable pub insert_answered : ℕ → Bool → IndexScheduler → IndexScheduler
unfolding seqno_inserted reschedule_seqno
insert_answered mc_seqno true s = seqno_inserted mc_seqno s
insert_answered mc_seqno false s = reschedule_seqno mc_seqno s

-- The condition of the `else if` of `got_last_known_seqno`.
unfoldable pub in_bounds : IndexScheduler → ℕ → Bool
in_bounds s seqno =
    (sle32 s.from_seqno 0 || sle32 s.from_seqno seqno)
    && (sle32 s.to_seqno 0 || sle32 seqno s.to_seqno)

-- A block is queued if it is not there yet, or is to be indexed again, and lies within the bounds.
unfoldable pub wanted : IndexScheduler → ℕ → Bool
unfolding in_bounds
wanted s seqno =
    if not s.force_index && contains seqno s.existing_seqnos then false else in_bounds s seqno

-- The loop of `got_last_known_seqno`: what it queues in so many rounds from `seqno`.
unfoldable pub known_loop : IndexScheduler → ℕ → ℕ → List ℕ
known_loop s zero seqno = []
known_loop s (suc rounds) seqno =
    let rest = known_loop s rounds (add32 seqno 1) in if wanted s seqno then seqno ∷ rest else rest

-- The rounds from `first` to `last`. (For the last word the source's loop does not end.)
abbrev pub rounds_to : ℕ → ℕ → ℕ
rounds_to first last = last + 1 - first

unfoldable pub got_last_known_seqno : ℕ → IndexScheduler → IndexScheduler
unfolding known_loop
got_last_known_seqno last_known_seqno s =
    let first = add32 s.last_known_seqno 1 in
    if slt32 0 s.to_seqno && slt32 s.to_seqno s.last_known_seqno then s else record s {
      queued_seqnos = s.queued_seqnos ++ known_loop s (rounds_to first last_known_seqno) first;
      last_known_seqno = last_known_seqno;
    }

unfoldable pub alarm : IndexScheduler → List Effect
alarm s = request_queue_state ∷ request_last_mc_seqno ∷ []

unfoldable pub run : IndexScheduler → List Effect
run s = request_existing_seqnos s.from_seqno s.to_seqno ∷ []

-- The loop that follows the continuous sequence.
unfoldable pub follow : ℕ → List ℕ → ℕ
follow next_seqno [] = next_seqno
follow next_seqno (value ∷ values) =
    let rest = follow (add32 next_seqno 1) values in
    if value == next_seqno then rest else next_seqno

first_missing : ℕ → List ℕ → ℕ
unfolding follow
first_missing from_seqno [] = from_seqno
first_missing from_seqno (value ∷ values) = follow value (value ∷ values)

-- `next_seqno` of `got_existing_seqnos`.
unfoldable pub next_seqno : ℕ → List ℕ → ℕ
unfolding first_missing sort
next_seqno from_seqno existing_db_seqnos = first_missing from_seqno (sort existing_db_seqnos)

unfoldable pub got_existing_seqnos : Option (List ℕ) → IndexScheduler → List Effect
unfolding next_seqno
got_existing_seqnos none s = []
got_existing_seqnos (some seqnos) s =
    request_restore_state (sub32 (next_seqno s.from_seqno seqnos) 1) ∷ []

-- The answer of `restore_state`: the last number that the trace assembler has seen.
unfoldable pub last_state_seqno : ℕ → ℕ → Option ℕ → ℕ
last_state_seqno from_seqno next_seqno (some state_seqno) = state_seqno
last_state_seqno from_seqno next_seqno none =
    let back = sub32 next_seqno 50 in
    let to_start_from = if slt32 from_seqno back then back else from_seqno in
    sub32 (if ltb from_seqno next_seqno then to_start_from else next_seqno) 1

-- The loop of `got_trace_assembler_last_state_seqno`.
unfoldable pub exist_loop : ℕ → ℕ → List ℕ → List ℕ
exist_loop zero seqno existing = existing
exist_loop (suc rounds) seqno existing = exist_loop rounds (add32 seqno 1) (insert seqno existing)

unfoldable pub got_trace_assembler_last_state_seqno :
    ℕ → IndexScheduler → IndexScheduler × List Effect
unfolding exist_loop
got_trace_assembler_last_state_seqno last_state_seqno s = (
  record s {
    existing_seqnos =
        exist_loop (rounds_to s.from_seqno last_state_seqno) s.from_seqno s.existing_seqnos;
  },
  set_expected_seqno (add32 last_state_seqno 1) ∷ [],
)
