-- ===== src/Clickhouse/Pipeline.antt =====
-- The scheduler of ton-index-clickhouse/src/IndexScheduler.cpp among the actors that answer it, in
-- every order of the answers and of its own messages, until it stops.
use ton_index_worker.Prelude.{
  ℕ, suc, ◌+◌, ◌-◌, ◌≡◌, refl, ap, inl, inr, Bool, true, false, ◌&&◌, ◌||◌, List, [], ◌∷◌, ◌++◌,
  append-nil, arith, Bool-cases, ◌==◌,
}
use ton_index_worker.Prelude.Words.{add32}
use ton_index_worker.Prelude.Maps.{contains, remove, contains-insert, contains-append}
use ton_index_worker.Queue.{QueueState, less}
use ton_index_worker.Insert.{is_empty}
use ton_index_worker.Scheduler.Jobs.{Job, at, inserting, has_job, has_job-append, taken, queued_own}
use ton_index_worker.Clickhouse.{
  IndexScheduler, Effect, Stage, request, request_insert, schedule_later, stop, fetch, parse,
  interfaces, request_existing_seqnos, request_queue_state, request_last_mc_seqno, stage_done,
  stage_answered, insert_answered, seqno_queued_to_insert, got_insert_queue_state,
  got_last_known_seqno, schedule_next_seqnos, schedule_loop, known_loop, is_past,
}
use ton_index_worker.Clickhouse.Queueing.{requests, schedule_loop-Started}

-- The jobs that effects begin, the messages of the scheduler to itself, and whether it stops.
unfoldable pub new_jobs : List Effect → List (Job Stage)
new_jobs [] = []
new_jobs (request stage n ∷ es) = at stage n ∷ new_jobs es
new_jobs (request_insert n ∷ es) = inserting n ∷ new_jobs es
new_jobs (e ∷ es) = new_jobs es

unfoldable pub own_messages : List Effect → ℕ
own_messages [] = 0
own_messages (schedule_later ∷ es) = suc (own_messages es)
own_messages (e ∷ es) = own_messages es

unfoldable pub stops : List Effect → Bool
stops [] = false
stops (stop ∷ es) = true
stops (e ∷ es) = stops es

pub record System : Type 0 where
  pub scheduler : IndexScheduler
  pub jobs : List (Job Stage)
  pub mailbox : ℕ
  pub stopped : Bool

abbrev pub after : IndexScheduler × List Effect → List (Job Stage) → ℕ → System
after (s, es) jobs mailbox = record {
  scheduler = s;
  jobs = jobs ++ new_jobs es;
  mailbox = mailbox + own_messages es;
  stopped = stops es;
}

-- A scheduler that has stopped takes no message.
pub data Step (y : System) : System → Type 0 where
  knows :
      (last : ℕ)
      → y.stopped ≡ false
      → Step y (record y { scheduler = got_last_known_seqno last y.scheduler })
  hears :
      (status : QueueState)
      → y.stopped ≡ false
      → Step y (after (got_insert_queue_state status y.scheduler) y.jobs y.mailbox)
  schedules :
      (mailbox : ℕ)
      → y.stopped ≡ false
      → y.mailbox ≡ suc mailbox
      → Step y (after (schedule_next_seqnos y.scheduler) y.jobs mailbox)
  answers :
      (xs : List (Job Stage)) (stage : Stage) (n : ℕ) (ok : Bool) (ys : List (Job Stage))
      → y.stopped ≡ false
      → y.jobs ≡ xs ++ at stage n ∷ ys
      → Step y (after (stage_answered stage n ok y.scheduler) (xs ++ ys) y.mailbox)
  queues :
      (xs : List (Job Stage)) (n : ℕ) (status : QueueState) (ys : List (Job Stage))
      → y.stopped ≡ false
      → y.jobs ≡ xs ++ inserting n ∷ ys
      → Step y (after (seqno_queued_to_insert n status y.scheduler) y.jobs y.mailbox)
  inserts :
      (xs : List (Job Stage)) (n : ℕ) (ok : Bool) (ys : List (Job Stage))
      → y.stopped ≡ false
      → y.jobs ≡ xs ++ inserting n ∷ ys
      → Step y (record y { scheduler = insert_answered n ok y.scheduler; jobs = xs ++ ys })

pub data Reach (y : System) : System → Type 0 where
  here : Reach y y
  next : {z u : System} → Reach y z → Step z u → Reach y u

-- The block is queued, in the hands of another actor, or indexed.
abbrev pub IsKept : ℕ → System → Type 0
IsKept n y =
    (contains n y.scheduler.queued_seqnos
      || has_job n y.jobs
      || contains n y.scheduler.existing_seqnos)
    ≡ true

-- The invariant, of the parts that it reads.
abbrev Kept : ℕ → IndexScheduler → List (Job Stage) → Type 0
Kept n s jobs =
    (contains n s.queued_seqnos || has_job n jobs || contains n s.existing_seqnos) ≡ true

new_jobs-requests : (n : ℕ) (ns : List ℕ) → has_job n (new_jobs (requests ns)) ≡ contains n ns
unfolding new_jobs contains
new_jobs-requests n [] = refl
new_jobs-requests n (m ∷ ns) = ground (arith, new_jobs-requests n ns)

new_jobs-stop : (es : List Effect) → new_jobs (es ++ stop ∷ []) ≡ new_jobs es
unfolding new_jobs
new_jobs-stop [] = refl
new_jobs-stop (request stage n ∷ es) = ap (λ js. at stage n ∷ js) (new_jobs-stop es)
new_jobs-stop (request_insert n ∷ es) = ap (λ js. inserting n ∷ js) (new_jobs-stop es)
new_jobs-stop (request_existing_seqnos m n ∷ es) = new_jobs-stop es
new_jobs-stop (request_queue_state ∷ es) = new_jobs-stop es
new_jobs-stop (request_last_mc_seqno ∷ es) = new_jobs-stop es
new_jobs-stop (schedule_later ∷ es) = new_jobs-stop es
new_jobs-stop (stop ∷ es) = new_jobs-stop es

loop-IsKept :
    (n : ℕ) (s : IndexScheduler) (jobs : List (Job Stage))
    → Kept n s jobs
    → let r = schedule_loop s.queued_seqnos s in Kept n r.0 (jobs ++ new_jobs r.1)
loop-IsKept n s jobs l =
    let c = schedule_loop-Started s.queued_seqnos s in
    let r = schedule_loop s.queued_seqnos s in
    ground (
      arith,
      l,
      ap (contains n) c.in_order,
      contains-append n c.started r.0.queued_seqnos,
      has_job-append n jobs (new_jobs r.1),
      ap (λ es. has_job n (new_jobs es)) c.effects,
      new_jobs-requests n c.started,
      ap (contains n) c.existing,
    )

schedules-IsKept :
    (n : ℕ) (s : IndexScheduler) (jobs : List (Job Stage))
    → Kept n s jobs
    → Kept n (schedule_next_seqnos s).0 (jobs ++ new_jobs (schedule_next_seqnos s).1)
unfolding schedule_next_seqnos
schedules-IsKept n s jobs l =
    let r = schedule_loop s.queued_seqnos s in
    elim (Bool-cases (is_past r.0 && is_empty r.0.queued_seqnos)) [
      | inl ends ↦ rw ends (rw (new_jobs-stop r.1) (loop-IsKept n s jobs l))
      | inr goes ↦ rw goes (loop-IsKept n s jobs l)
    ]

hears-IsKept :
    (n : ℕ) (status : QueueState) (s : IndexScheduler) (jobs : List (Job Stage))
    → Kept n s jobs
    → Kept n
        (got_insert_queue_state status s).0
        (jobs ++ new_jobs (got_insert_queue_state status s).1)
unfolding got_insert_queue_state new_jobs
hears-IsKept n status s jobs l = elim (Bool-cases (less status s.max_queue)) [
  | inl room ↦ rw room (rw append-nil l)
  | inr full ↦ rw full (rw append-nil l)
]

knows-IsKept :
    (n last : ℕ) (s : IndexScheduler) (jobs : List (Job Stage))
    → Kept n s jobs
    → Kept n (got_last_known_seqno last s) jobs
unfolding got_last_known_seqno
knows-IsKept n last s jobs l = elim (Bool-cases (is_past s)) [
  | inl past ↦ rw past l
  | inr open' ↦
      let first = add32 s.last_known_seqno 1 in
      rw open' (
        ground
          (arith, l, contains-append n s.queued_seqnos (known_loop s (last + 1 - first) first)))
]

no_new : (n : ℕ) (jobs : List (Job Stage)) → has_job n (jobs ++ new_jobs []) ≡ has_job n jobs
unfolding new_jobs
no_new n jobs = rw append-nil

stage_keeps : (n : ℕ) (stage : Stage) (m : ℕ) → has_job n (new_jobs (stage_done stage m)) ≡ (m == n)
unfolding stage_done new_jobs contains
stage_keeps n fetch m = ground arith
stage_keeps n parse m = ground arith
stage_keeps n interfaces m = ground arith

answers-IsKept :
    (n : ℕ) (y : System) (xs : List (Job Stage)) (stage : Stage) (m : ℕ) (ok : Bool)
    (ys : List (Job Stage))
    → y.jobs ≡ xs ++ at stage m ∷ ys
    → IsKept n y
    → IsKept n (after (stage_answered stage m ok y.scheduler) (xs ++ ys) y.mailbox)
unfolding stage_answered
answers-IsKept n y xs stage m true ys e l = ground (
  arith,
  l,
  ap (has_job n) e,
  taken n xs (at stage m) ys,
  has_job-append n (xs ++ ys) (new_jobs (stage_done stage m)),
  stage_keeps n stage m,
)
answers-IsKept n y xs stage m false ys e l = ground (
  arith,
  l,
  ap (has_job n) e,
  taken n xs (at stage m) ys,
  no_new n (xs ++ ys),
  queued_own n m y.scheduler.queued_seqnos,
)

inserts-IsKept :
    (n : ℕ) (y : System) (xs : List (Job Stage)) (m : ℕ) (ok : Bool) (ys : List (Job Stage))
    → y.jobs ≡ xs ++ inserting m ∷ ys
    → IsKept n y
    → IsKept n (record y { scheduler = insert_answered m ok y.scheduler; jobs = xs ++ ys })
unfolding insert_answered
inserts-IsKept n y xs m true ys e l = ground (
  arith,
  l,
  ap (has_job n) e,
  taken n xs (inserting m) ys,
  contains-insert m n y.scheduler.existing_seqnos,
)
inserts-IsKept n y xs m false ys e l = ground (
  arith,
  l,
  ap (has_job n) e,
  taken n xs (inserting m) ys,
  queued_own n m y.scheduler.queued_seqnos,
)

Step-IsKept : (n : ℕ) {y z : System} → Step y z → IsKept n y → IsKept n z
unfolding seqno_queued_to_insert
Step-IsKept n {y} (knows last r) l = knows-IsKept n last y.scheduler y.jobs l
Step-IsKept n {y} (hears status r) l = hears-IsKept n status y.scheduler y.jobs l
Step-IsKept n {y} (schedules mailbox r m) l = schedules-IsKept n y.scheduler y.jobs l
Step-IsKept n {y} (answers xs stage m ok ys r e) l = answers-IsKept n y xs stage m ok ys e l
Step-IsKept n {y} (queues xs m status ys r e) l =
    hears-IsKept n status
      (record (y.scheduler) { processing_seqnos = remove m y.scheduler.processing_seqnos }) y.jobs l
Step-IsKept n {y} (inserts xs m ok ys r e) l = inserts-IsKept n y xs m ok ys e l

-- A block that is queued once is, up to the moment in which the scheduler stops, queued again, in
-- the hands of another actor, or indexed, whatever the order of the answers and of the scheduler's
-- own messages.
pub Reach-IsKept : (n : ℕ) {y z : System} → Reach y z → IsKept n y → IsKept n z
Reach-IsKept n here l = l
Reach-IsKept n (next r st) l = Step-IsKept n st (Reach-IsKept n r l)
