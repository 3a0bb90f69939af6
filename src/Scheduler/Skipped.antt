-- ===== src/Scheduler/Skipped.antt =====
-- IndexScheduler.cpp after the start: a number that counts as indexed is never queued again.
use ton_index_worker.Prelude.{
  ℕ, zero, suc, ◌≤◌, ◌<◌, ◌≡◌, refl, ap, ◌∙◌, inl, inr, Bool, true, false, List, [], ◌∷◌, ◌++◌,
  arith, Bool-cases, some,
}
use ton_index_worker.Prelude.Words.{mod32, add32, sub32}
use ton_index_worker.Prelude.Maps.{contains, remove, contains-append, contains-insert}
use ton_index_worker.Queue.{QueueState, less}
use ton_index_worker.Scheduler.{
  IndexScheduler, Stage, stage_done, stage_answered, insert_answered, seqno_queued_to_insert,
  got_insert_queue_state, got_last_known_seqno, schedule_next_seqnos, known_loop, rounds_to, wanted,
  next_seqno, last_state_seqno, got_trace_assembler_last_state_seqno,
}
use ton_index_worker.Scheduler.Gaps.{IsFirstGap}
use ton_index_worker.Scheduler.Jobs.{Job, at, inserting, has_job, has_job-append, taken, queued_own}
use ton_index_worker.Scheduler.Queueing.{is_past, schedule_next_seqnos-Started}
use ton_index_worker.Scheduler.Startup.{below_first_counted, existing_not_wanted}
use ton_index_worker.Scheduler.Pipeline.{
  System, Step, Reach, here, next, after, new_jobs, no_new, new_jobs-requests, stage_keeps, knows,
  hears, answers, queues, inserts,
}

-- The number counts as indexed, and is neither queued nor in the hands of another actor.
pub record IsSkipped (n : ℕ) (y : System) : Type 0 where
  pub counted : contains n y.scheduler.existing_seqnos ≡ true
  pub not_forced : y.scheduler.force_index ≡ false
  pub not_queued : contains n y.scheduler.queued_seqnos ≡ false
  pub not_in_work : has_job n y.jobs ≡ false

known_loop-unwanted :
    (s : IndexScheduler) (rounds seqno n : ℕ)
    → wanted s n ≡ false
    → contains n (known_loop s rounds seqno) ≡ false
unfolding known_loop contains
known_loop-unwanted s zero seqno n h = refl
known_loop-unwanted s (suc rounds) seqno n h =
    ground (arith, h, known_loop-unwanted s rounds (add32 seqno 1) n h)

schedule-IsSkipped :
    (n : ℕ) (s : IndexScheduler) (jobs : List (Job Stage))
    → IsSkipped n (record { scheduler = s; jobs = jobs })
    → IsSkipped n (after (schedule_next_seqnos s) jobs)
schedule-IsSkipped n s jobs k =
    let c = schedule_next_seqnos-Started s in
    let r = schedule_next_seqnos s in
    let split = contains-append n c.started r.0.queued_seqnos in
    record {
      counted = ap (contains n) c.same.0 ∙ k.counted;
      not_forced = c.forced ∙ k.not_forced;
      not_queued = ground (arith, k.not_queued, ap (contains n) c.in_order, split);
      not_in_work = ground (
        arith,
        k.not_queued,
        k.not_in_work,
        ap (contains n) c.in_order,
        split,
        has_job-append n jobs (new_jobs r.1),
        ap (λ es. has_job n (new_jobs es)) c.effects,
        new_jobs-requests n c.started,
      );
    }

hears-IsSkipped :
    (n : ℕ) (status : QueueState) (s : IndexScheduler) (jobs : List (Job Stage))
    → IsSkipped n (record { scheduler = s; jobs = jobs })
    → IsSkipped n (after (got_insert_queue_state status s) jobs)
unfolding got_insert_queue_state
hears-IsSkipped n status s jobs k =
    let heard = record s { cur_queue_state = status } in
    let same : IsSkipped n (record { scheduler = heard; jobs = jobs }) = record {
      counted = k.counted;
      not_forced = k.not_forced;
      not_queued = k.not_queued;
      not_in_work = k.not_in_work;
    } in
    elim (Bool-cases (less status s.max_queue)) [
      | inl room ↦ rw room (schedule-IsSkipped n heard jobs same)
      | inr full ↦ rw full (record {
        counted = k.counted;
        not_forced = k.not_forced;
        not_queued = k.not_queued;
        not_in_work = no_new n jobs ∙ k.not_in_work;
      })
    ]

knows-IsSkipped :
    (n last : ℕ) (y : System)
    → IsSkipped n y
    → IsSkipped n (record y { scheduler = got_last_known_seqno last y.scheduler })
unfolding got_last_known_seqno
knows-IsSkipped n last y k = elim (Bool-cases (is_past y.scheduler)) [
  | inl past ↦ rw past k
  | inr open' ↦
      let s = y.scheduler in
      let first = add32 s.last_known_seqno 1 in
      let unwanted = existing_not_wanted s n k.not_forced k.counted in
      rw open' (record {
        counted = k.counted;
        not_forced = k.not_forced;
        not_queued = ground (
          arith,
          k.not_queued,
          contains-append n s.queued_seqnos (known_loop s (rounds_to first last) first),
          known_loop-unwanted s (rounds_to first last) first n unwanted,
        );
        not_in_work = k.not_in_work;
      })
]

answers-IsSkipped :
    (n : ℕ) (y : System) (xs : List (Job Stage)) (stage : Stage) (m : ℕ) (ok : Bool)
    (ys : List (Job Stage))
    → y.jobs ≡ xs ++ at stage m ∷ ys
    → IsSkipped n y
    → IsSkipped n (after (stage_answered stage m ok y.scheduler) (xs ++ ys))
unfolding stage_answered
answers-IsSkipped n y xs stage m true ys e k = record {
  counted = k.counted;
  not_forced = k.not_forced;
  not_queued = k.not_queued;
  not_in_work = ground (
    arith,
    k.not_in_work,
    ap (has_job n) e,
    taken n xs (at stage m) ys,
    has_job-append n (xs ++ ys) (new_jobs (stage_done stage m)),
    stage_keeps n stage m,
  );
}
answers-IsSkipped n y xs stage m false ys e k = record {
  counted = k.counted;
  not_forced = k.not_forced;
  not_queued = ground (
    arith,
    k.not_queued,
    k.not_in_work,
    ap (has_job n) e,
    taken n xs (at stage m) ys,
    queued_own n m y.scheduler.queued_seqnos,
  );
  not_in_work =
      ground
        (arith, k.not_in_work, ap (has_job n) e, taken n xs (at stage m) ys, no_new n (xs ++ ys));
}

queues-IsSkipped :
    (n m : ℕ) (status : QueueState) (y : System)
    → IsSkipped n y
    → IsSkipped n (after (seqno_queued_to_insert m status y.scheduler) y.jobs)
unfolding seqno_queued_to_insert
queues-IsSkipped n m status y k =
    hears-IsSkipped n status
      (record (y.scheduler) { processing_seqnos = remove m y.scheduler.processing_seqnos }) y.jobs
      (record {
        counted = k.counted;
        not_forced = k.not_forced;
        not_queued = k.not_queued;
        not_in_work = k.not_in_work;
      })

inserts-IsSkipped :
    (n : ℕ) (y : System) (xs : List (Job Stage)) (m : ℕ) (ok : Bool) (ys : List (Job Stage))
    → y.jobs ≡ xs ++ inserting m ∷ ys
    → IsSkipped n y
    → IsSkipped n (record { scheduler = insert_answered m ok y.scheduler; jobs = xs ++ ys })
unfolding insert_answered
inserts-IsSkipped n y xs m true ys e k = record {
  counted = ground (arith, k.counted, contains-insert m n y.scheduler.existing_seqnos);
  not_forced = k.not_forced;
  not_queued = k.not_queued;
  not_in_work = ground (arith, k.not_in_work, ap (has_job n) e, taken n xs (inserting m) ys);
}
inserts-IsSkipped n y xs m false ys e k = record {
  counted = k.counted;
  not_forced = k.not_forced;
  not_queued = ground (
    arith,
    k.not_queued,
    k.not_in_work,
    ap (has_job n) e,
    taken n xs (inserting m) ys,
    queued_own n m y.scheduler.queued_seqnos,
  );
  not_in_work = ground (arith, k.not_in_work, ap (has_job n) e, taken n xs (inserting m) ys);
}

Step-IsSkipped : (n : ℕ) {y z : System} → Step y z → IsSkipped n y → IsSkipped n z
Step-IsSkipped n {y} (knows last) k = knows-IsSkipped n last y k
Step-IsSkipped n {y} (hears status) k = hears-IsSkipped n status y.scheduler y.jobs k
Step-IsSkipped n {y} (answers xs stage m ok ys e) k = answers-IsSkipped n y xs stage m ok ys e k
Step-IsSkipped n {y} (queues xs m status ys e) k = queues-IsSkipped n m status y k
Step-IsSkipped n {y} (inserts xs m ok ys e) k = inserts-IsSkipped n y xs m ok ys e k

Reach-IsSkipped : (n : ℕ) {y z : System} → Reach y z → IsSkipped n y → IsSkipped n z
Reach-IsSkipped n here k = k
Reach-IsSkipped n (next r st) k = Step-IsSkipped n st (Reach-IsSkipped n r k)

-- The scheduler after the trace assembler has restored the state before the next number, with no
-- block in the hands of another actor.
abbrev pub restarted : IndexScheduler → List ℕ → System
restarted s seqnos =
    let next' = next_seqno s.from_seqno seqnos in
    let state = last_state_seqno s.from_seqno next' (some (sub32 next' 1)) in
    record { scheduler = (got_trace_assembler_last_state_seqno state s).0; jobs = [] }

restarted-IsSkipped :
    (s : IndexScheduler) (seqnos : List ℕ) (n : ℕ)
    → contains n (restarted s seqnos).scheduler.existing_seqnos ≡ true
    → s.force_index ≡ false
    → contains n s.queued_seqnos ≡ false
    → IsSkipped n (restarted s seqnos)
unfolding got_trace_assembler_last_state_seqno contains
restarted-IsSkipped s seqnos n c f q = record {
  counted = c;
  not_forced = f;
  not_queued = q;
  not_in_work = refl;
}

-- Without `force_index`, and if the next number is below 2 ^ 32, is the first one from the lowest
-- number in the database on that the database does not hold, and the trace assembler has restored
-- the state before it: a number that is not queued at the start, from the first to index on, but
-- below the lowest one in the database, is never indexed. The database does not hold it, and after
-- any sequence of steps it is neither queued nor in the hands of another actor.
pub below_first_never_queued :
    (s : IndexScheduler) (seqnos : List ℕ) (first n : ℕ)
    → IsFirstGap first (next_seqno s.from_seqno seqnos) seqnos
    → next_seqno s.from_seqno seqnos < mod32
    → s.force_index ≡ false
    → contains n s.queued_seqnos ≡ false
    → s.from_seqno ≤ n
    → n < first
    → {y : System} → Reach (restarted s seqnos) y
    → (contains n seqnos ≡ false)
      × (contains n y.scheduler.queued_seqnos ≡ false)
      × (has_job n y.jobs ≡ false)
below_first_never_queued s seqnos first n g small f q low high r =
    let (absent, counted) = below_first_counted s seqnos first n g small low high in
    let k = Reach-IsSkipped n r (restarted-IsSkipped s seqnos n counted f q) in
    (absent, k.not_queued, k.not_in_work)
