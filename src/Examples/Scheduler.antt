-- ===== src/Examples/Scheduler.antt =====
-- IndexScheduler.cpp with the blocks 3, 4 and 6 in the database and at most two blocks in work.
use ton_index_worker.Prelude.{
  ℕ, suc, ◌≡◌, refl, false, not, ◌&&◌, ◌||◌, List, [], ◌∷◌, ◌++◌, arith, ltb, leb,
}
use ton_index_worker.Prelude.Maps.{contains, IsSetList}
use ton_index_worker.Queue.{QueueState}
use ton_index_worker.Scheduler.{
  IndexScheduler, fetch, wanted, got_last_known_seqno, schedule_next_seqnos, next_seqno,
  got_trace_assembler_last_state_seqno, got_insert_queue_state, stage_answered,
}
use ton_index_worker.Prelude.Sorted.{Increasing}
use ton_index_worker.Scheduler.Queueing.{
  Started, is_past, got_last_known_seqno-queued, schedule_next_seqnos-Started,
}
use ton_index_worker.Scheduler.Gaps.{IsFirstGap, next_seqno-IsFirstGap}
use ton_index_worker.Scheduler.Startup.{last_state-existing}
use ton_index_worker.Scheduler.Skipped.{restarted, below_first_never_queued}
use ton_index_worker.Scheduler.Jobs.{at, has_job}
use ton_index_worker.Scheduler.Pipeline.{
  System, Reach, IsLocated, IsWithin, here, next, knows, hears, answers, after, Reach-IsLocated,
  Reach-IsWithin,
}

abbrev no_queue : QueueState
no_queue = record { mc_blocks = 0; blocks = 0; txs = 0; msgs = 0; traces = 0 }

abbrev scheduler : IndexScheduler
scheduler = record {
  queued_seqnos = 7 ∷ 8 ∷ 9 ∷ [];
  processing_seqnos = [];
  existing_seqnos = 3 ∷ 4 ∷ 6 ∷ [];
  max_active_tasks = 2;
  last_known_seqno = 9;
  last_indexed_seqno = 6;
  from_seqno = 1;
  to_seqno = 0;
  force_index = false;
  max_queue = no_queue;
  cur_queue_state = no_queue;
  timers = [];
}

abbrev held : List ℕ
held = 4 ∷ 3 ∷ 6 ∷ []

got_last_known_seqno-queued_example :
    (new : List ℕ) × ((got_last_known_seqno 11 scheduler).queued_seqnos
      ≡ scheduler.queued_seqnos ++ new)
    × Increasing (suc scheduler.last_known_seqno) new
    × ((n : ℕ)
        → contains n new ≡ (
            not (is_past scheduler)
            && ltb scheduler.last_known_seqno n
            && leb n 11
            && wanted scheduler n))
got_last_known_seqno-queued_example =
    got_last_known_seqno-queued scheduler 11 (omega arith) (omega arith)

queues_new : (got_last_known_seqno 11 scheduler).queued_seqnos ≡ 7 ∷ 8 ∷ 9 ∷ 10 ∷ 11 ∷ []
unfolding got_last_known_seqno wanted contains
queues_new = refl

schedule_next_seqnos-Started_example :
    Started scheduler scheduler.queued_seqnos (schedule_next_seqnos scheduler)
schedule_next_seqnos-Started_example = schedule_next_seqnos-Started scheduler

held-IsSetList : IsSetList held
unfolding contains
held-IsSetList = (refl, (refl, (refl, tt)))

next_seqno-IsFirstGap_example : (first : ℕ) × IsFirstGap first (next_seqno 1 held) held
next_seqno-IsFirstGap_example =
    next_seqno-IsFirstGap 1 held (λ e. ground (arith, e)) held-IsSetList
      (omega arith, (omega arith, (omega arith, tt)))

next_is_5 : next_seqno 1 held ≡ 5
unfolding next_seqno
next_is_5 = refl

held-IsFirstGap : IsFirstGap 3 (next_seqno 1 held) held
unfolding next_seqno contains
held-IsFirstGap = record {
  starts = refl;
  above = omega arith;
  lowest = λ n c. ground (arith, c);
  present = λ n l u. ground (arith, l, u);
  absent = refl;
}

not_waiting : contains 2 scheduler.queued_seqnos ≡ false
unfolding contains
not_waiting = refl

-- Blocks 1 and 2 are to be indexed, but the database begins at 3. The last block is known anew.
abbrev known_again : System
known_again = record (restarted scheduler held) {
  scheduler = got_last_known_seqno 12 (restarted scheduler held).scheduler;
}

below_first_never_queued_example :
    (contains 2 held ≡ false)
    × (contains 2 known_again.scheduler.queued_seqnos ≡ false)
    × (has_job 2 known_again.jobs ≡ false)
below_first_never_queued_example =
    below_first_never_queued scheduler held 3 2 held-IsFirstGap (omega (arith, next_is_5)) refl
      not_waiting (omega arith) (omega arith) (next here (knows 12))

last_state-existing_example :
    contains 2 (got_trace_assembler_last_state_seqno 4 scheduler).0.existing_seqnos
    ≡ (contains 2 scheduler.existing_seqnos || leb scheduler.from_seqno 2 && leb 2 4)
last_state-existing_example = last_state-existing 4 scheduler 2 (omega arith)

abbrev initial : System
initial = record { scheduler = scheduler; jobs = at fetch 5 ∷ [] }

-- The fetch of block 5 fails, and the queue state is heard.
abbrev failed : System
failed = after (stage_answered fetch 5 false scheduler) []

abbrev heard : System
heard = after (got_insert_queue_state no_queue failed.scheduler) failed.jobs

fails : Reach initial heard
fails = next (next here (answers [] fetch 5 false [] refl)) (hears no_queue)

Reach-IsLocated_example : IsLocated 5 heard
unfolding contains
Reach-IsLocated_example = Reach-IsLocated 5 fails refl

Reach-IsWithin_example : IsWithin heard
Reach-IsWithin_example = Reach-IsWithin fails (omega arith)
