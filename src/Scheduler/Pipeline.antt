-- ===== src/Scheduler/Pipeline.antt =====
-- The scheduler of IndexScheduler.cpp among the actors that answer it, in every order of answers:
-- no block that was queued is lost, and the number of blocks in work is bounded.
use ton_index_worker.Prelude.{
  ℕ, ◌≤◌, ◌≡◌, refl, ap, inl, inr, Bool, true, false, ◌||◌, List, [], ◌∷◌, ◌++◌, arith, length,
  Bool-cases, ◌==◌,
}
use mathlib.Core.List.{append-nil}
use ton_index_worker.Prelude.Words.{add32}
use ton_index_worker.Prelude.Maps.{
  contains, remove, contains-insert, contains-append, size-remove-le,
}
use ton_index_worker.Queue.{QueueState, less}
use ton_index_worker.Scheduler.{
  IndexScheduler, Effect, Stage, request, request_insert, fetch, parse, traces, interfaces, actions,
  stage_done, stage_answered, insert_answered, seqno_queued_to_insert, got_insert_queue_state,
  got_last_known_seqno, schedule_next_seqnos, known_loop, rounds_to,
}
use ton_index_worker.Scheduler.Jobs.{Job, at, inserting, has_job, has_job-append, taken, queued_own}
use ton_index_worker.Scheduler.Queueing.{is_past, requests, schedule_next_seqnos-Started}

-- The jobs that effects begin.
unfoldable pub new_jobs : List Effect → List (Job Stage)
new_jobs [] = []
new_jobs (request stage n ∷ es) = at stage n ∷ new_jobs es
new_jobs (request_insert n ∷ es) = inserting n ∷ new_jobs es
new_jobs (e ∷ es) = new_jobs es

pub record System : Type 0 where
  pub scheduler : IndexScheduler
  pub jobs : List (Job Stage)

abbrev pub after : IndexScheduler × List Effect → List (Job Stage) → System
after (s, es) jobs = record { scheduler = s; jobs = jobs ++ new_jobs es }

pub data Step (y : System) : System → Type 0 where
  knows : (last : ℕ) → Step y (record y { scheduler = got_last_known_seqno last y.scheduler })
  hears : (status : QueueState) → Step y (after (got_insert_queue_state status y.scheduler) y.jobs)
  answers :
      (xs : List (Job Stage)) (stage : Stage) (n : ℕ) (ok : Bool) (ys : List (Job Stage))
      → y.jobs ≡ xs ++ at stage n ∷ ys
      → Step y (after (stage_answered stage n ok y.scheduler) (xs ++ ys))
  queues :
      (xs : List (Job Stage)) (n : ℕ) (status : QueueState) (ys : List (Job Stage))
      → y.jobs ≡ xs ++ inserting n ∷ ys
      → Step y (after (seqno_queued_to_insert n status y.scheduler) y.jobs)
  inserts :
      (xs : List (Job Stage)) (n : ℕ) (ok : Bool) (ys : List (Job Stage))
      → y.jobs ≡ xs ++ inserting n ∷ ys
      → Step y (record { scheduler = insert_answered n ok y.scheduler; jobs = xs ++ ys })

pub data Reach (y : System) : System → Type 0 where
  here : Reach y y
  next : {z u : System} → Reach y z → Step z u → Reach y u

-- The block is queued, in the hands of another actor, or indexed.
abbrev pub IsLocated : ℕ → System → Type 0
IsLocated n y =
    (contains n y.scheduler.queued_seqnos
      || has_job n y.jobs
      || contains n y.scheduler.existing_seqnos)
    ≡ true

pub new_jobs-requests : (n : ℕ) (ns : List ℕ) → has_job n (new_jobs (requests ns)) ≡ contains n ns
unfolding new_jobs contains
new_jobs-requests n [] = refl
new_jobs-requests n (m ∷ ns) = ground (arith, new_jobs-requests n ns)

-- Starting blocks moves them from the queue to the jobs.
schedule-IsLocated :
    (n : ℕ) (s : IndexScheduler) (jobs : List (Job Stage))
    → IsLocated n (record { scheduler = s; jobs = jobs })
    → IsLocated n (after (schedule_next_seqnos s) jobs)
schedule-IsLocated n s jobs l =
    let c = schedule_next_seqnos-Started s in
    let r = schedule_next_seqnos s in
    ground (
      arith,
      l,
      ap (contains n) c.in_order,
      contains-append n c.started r.0.queued_seqnos,
      has_job-append n jobs (new_jobs r.1),
      ap (λ es. has_job n (new_jobs es)) c.effects,
      new_jobs-requests n c.started,
      ap (contains n) c.same.0,
    )

pub no_new : (n : ℕ) (jobs : List (Job Stage)) → has_job n (jobs ++ new_jobs []) ≡ has_job n jobs
unfolding new_jobs
no_new n jobs = rw append-nil

hears-IsLocated :
    (n : ℕ) (status : QueueState) (s : IndexScheduler) (jobs : List (Job Stage))
    → IsLocated n (record { scheduler = s; jobs = jobs })
    → IsLocated n (after (got_insert_queue_state status s) jobs)
unfolding got_insert_queue_state
hears-IsLocated n status s jobs l = elim (Bool-cases (less status s.max_queue)) [
  | inl room ↦ rw room (schedule-IsLocated n (record s { cur_queue_state = status }) jobs l)
  | inr full ↦ rw full (ground (arith, l, no_new n jobs))
]

knows-IsLocated :
    (n last : ℕ) (y : System)
    → IsLocated n y
    → IsLocated n (record y { scheduler = got_last_known_seqno last y.scheduler })
unfolding got_last_known_seqno
knows-IsLocated n last y l = elim (Bool-cases (is_past y.scheduler)) [
  | inl past ↦ rw past l
  | inr open' ↦
      let first = add32 y.scheduler.last_known_seqno 1 in
      let new = known_loop y.scheduler (rounds_to first last) first in
      rw open' (ground (arith, l, contains-append n y.scheduler.queued_seqnos new))
]

pub stage_keeps :
    (n : ℕ) (stage : Stage) (m : ℕ) → has_job n (new_jobs (stage_done stage m)) ≡ (m == n)
unfolding stage_done new_jobs contains
stage_keeps n fetch m = ground arith
stage_keeps n parse m = ground arith
stage_keeps n traces m = ground arith
stage_keeps n interfaces m = ground arith
stage_keeps n actions m = ground arith

answers-IsLocated :
    (n : ℕ) (y : System) (xs : List (Job Stage)) (stage : Stage) (m : ℕ) (ok : Bool)
    (ys : List (Job Stage))
    → y.jobs ≡ xs ++ at stage m ∷ ys
    → IsLocated n y
    → IsLocated n (after (stage_answered stage m ok y.scheduler) (xs ++ ys))
unfolding stage_answered
answers-IsLocated n y xs stage m true ys e l = ground (
  arith,
  l,
  ap (has_job n) e,
  taken n xs (at stage m) ys,
  has_job-append n (xs ++ ys) (new_jobs (stage_done stage m)),
  stage_keeps n stage m,
)
answers-IsLocated n y xs stage m false ys e l = ground (
  arith,
  l,
  ap (has_job n) e,
  taken n xs (at stage m) ys,
  no_new n (xs ++ ys),
  queued_own n m y.scheduler.queued_seqnos,
)

queues-IsLocated :
    (n m : ℕ) (status : QueueState) (y : System)
    → IsLocated n y
    → IsLocated n (after (seqno_queued_to_insert m status y.scheduler) y.jobs)
unfolding seqno_queued_to_insert
queues-IsLocated n m status y l =
    hears-IsLocated n status
      (record (y.scheduler) { processing_seqnos = remove m y.scheduler.processing_seqnos }) y.jobs l

inserts-IsLocated :
    (n : ℕ) (y : System) (xs : List (Job Stage)) (m : ℕ) (ok : Bool) (ys : List (Job Stage))
    → y.jobs ≡ xs ++ inserting m ∷ ys
    → IsLocated n y
    → IsLocated n (record { scheduler = insert_answered m ok y.scheduler; jobs = xs ++ ys })
unfolding insert_answered
inserts-IsLocated n y xs m true ys e l = ground (
  arith,
  l,
  ap (has_job n) e,
  taken n xs (inserting m) ys,
  contains-insert m n y.scheduler.existing_seqnos,
)
inserts-IsLocated n y xs m false ys e l = ground (
  arith,
  l,
  ap (has_job n) e,
  taken n xs (inserting m) ys,
  queued_own n m y.scheduler.queued_seqnos,
)

Step-IsLocated : (n : ℕ) {y z : System} → Step y z → IsLocated n y → IsLocated n z
Step-IsLocated n {y} (knows last) l = knows-IsLocated n last y l
Step-IsLocated n {y} (hears status) l = hears-IsLocated n status y.scheduler y.jobs l
Step-IsLocated n {y} (answers xs stage m ok ys e) l = answers-IsLocated n y xs stage m ok ys e l
Step-IsLocated n {y} (queues xs m status ys e) l = queues-IsLocated n m status y l
Step-IsLocated n {y} (inserts xs m ok ys e) l = inserts-IsLocated n y xs m ok ys e l

-- A block that is queued once is from then on queued again, in the hands of another actor, or
-- indexed, whatever the order of the answers and whichever of them are errors.
pub Reach-IsLocated : (n : ℕ) {y z : System} → Reach y z → IsLocated n y → IsLocated n z
Reach-IsLocated n here l = l
Reach-IsLocated n (next r st) l = Step-IsLocated n st (Reach-IsLocated n r l)

-- No more blocks are in work than allowed.
abbrev pub IsWithin : System → Type 0
IsWithin y = length y.scheduler.processing_seqnos ≤ y.scheduler.max_active_tasks

hears-IsWithin :
    (status : QueueState) (s : IndexScheduler) (jobs : List (Job Stage))
    → length s.processing_seqnos ≤ s.max_active_tasks
    → IsWithin (after (got_insert_queue_state status s) jobs)
unfolding got_insert_queue_state
hears-IsWithin status s jobs l = elim (Bool-cases (less status s.max_queue)) [
  | inl room ↦
      let c = schedule_next_seqnos-Started (record s { cur_queue_state = status }) in
      rw room (ground (arith, c.bounded l, c.same.1))
  | inr full ↦ rw full l
]

Step-IsWithin : {y z : System} → Step y z → IsWithin y → IsWithin z
unfolding got_last_known_seqno stage_answered seqno_queued_to_insert insert_answered
Step-IsWithin {y} (knows last) l = ground (arith, l)
Step-IsWithin {y} (hears status) l = hears-IsWithin status y.scheduler y.jobs l
Step-IsWithin {y} (answers xs stage m true ys e) l = l
Step-IsWithin {y} (answers xs stage m false ys e) l =
    omega (arith, l, size-remove-le m y.scheduler.processing_seqnos)
Step-IsWithin {y} (queues xs m status ys e) l =
    hears-IsWithin status
      (record (y.scheduler) { processing_seqnos = remove m y.scheduler.processing_seqnos }) y.jobs
      (omega (arith, l, size-remove-le m y.scheduler.processing_seqnos))
Step-IsWithin {y} (inserts xs m true ys e) l = l
Step-IsWithin {y} (inserts xs m false ys e) l =
    omega (arith, l, size-remove-le m y.scheduler.processing_seqnos)

-- If no more blocks are in work than `max_active_tasks`, then so it is after any sequence of steps.
pub Reach-IsWithin : {y z : System} → Reach y z → IsWithin y → IsWithin z
Reach-IsWithin here l = l
Reach-IsWithin (next r st) l = Step-IsWithin st (Reach-IsWithin r l)
