-- ===== src/Scheduler/Startup.antt =====
-- IndexScheduler.cpp: where indexing starts, after the numbers in the database are read and the
-- trace assembler has looked for a state.
use ton_index_worker.Prelude.{
  ℕ, zero, suc, ◌+◌, ◌≤◌, ◌<◌, ◌≡◌, ◌∙◌, inl, inr, true, false, ◌&&◌, ◌||◌, some, List, arith, ltb,
  leb, Bool-cases,
}
use ton_index_worker.Prelude.Words.{mod32, add32, sub32}
use ton_index_worker.Prelude.Maps.{contains, insert, contains-insert}
use ton_index_worker.Scheduler.{
  IndexScheduler, next_seqno, exist_loop, rounds_to, last_state_seqno,
  got_trace_assembler_last_state_seqno, wanted,
}
use ton_index_worker.Scheduler.Gaps.{IsFirstGap}

exist_loop-contains :
    (rounds seqno n : ℕ) (existing : List ℕ)
    → seqno + rounds < mod32
    → contains n (exist_loop rounds seqno existing)
      ≡ (contains n existing || leb seqno n && ltb n (seqno + rounds))
unfolding exist_loop
exist_loop-contains zero seqno n existing l = ground arith
exist_loop-contains (suc rounds) seqno n existing l = ground (
  arith,
  l,
  exist_loop-contains rounds (add32 seqno 1) n (insert seqno existing) (omega arith),
  contains-insert seqno n existing,
)

-- If the number after the trace assembler's answer is below 2 ^ 32, the numbers that count as
-- indexed after the answer are those from before and all from the first to index up to the answer.
-- (For the last word the source's loop does not end.)
pub last_state-existing :
    (last : ℕ) (s : IndexScheduler) (n : ℕ)
    → last + 1 < mod32
    → contains n (got_trace_assembler_last_state_seqno last s).0.existing_seqnos
      ≡ (contains n s.existing_seqnos || leb s.from_seqno n && leb n last)
unfolding got_trace_assembler_last_state_seqno
last_state-existing last s n l = elim (Bool-cases (leb s.from_seqno (last + 1))) [
  | inl h ↦ ground (
    arith,
    h,
    l,
    exist_loop-contains (rounds_to s.from_seqno last) s.from_seqno n s.existing_seqnos
        (ground (arith, h, l)),
  )
  | inr none_yet ↦
      let no_rounds : rounds_to s.from_seqno last ≡ 0 = ground (arith, none_yet) in
      rw (no_rounds, exist_loop) (ground (arith, none_yet))
]

not_held :
    (s : IndexScheduler) (seqnos : List ℕ) (first n : ℕ)
    → IsFirstGap first (next_seqno s.from_seqno seqnos) seqnos
    → n < first
    → contains n seqnos ≡ false
not_held s seqnos first n g high = elim (Bool-cases (contains n seqnos)) [
  | inl held ↦ absurd (omega (arith, g.lowest n held))
  | inr free ↦ free
]

pub existing_not_wanted :
    (s : IndexScheduler) (n : ℕ)
    → s.force_index ≡ false
    → contains n s.existing_seqnos ≡ true
    → wanted s n ≡ false
unfolding wanted
existing_not_wanted s n f h = ground (arith, f, h)

-- A number from the first to index on, below the lowest one in the database,
-- is not there, but counts as indexed after the trace assembler has restored the state before the
-- next number.
pub below_first_counted :
    (s : IndexScheduler) (seqnos : List ℕ) (first n : ℕ)
    → IsFirstGap first (next_seqno s.from_seqno seqnos) seqnos
    → next_seqno s.from_seqno seqnos < mod32
    → s.from_seqno ≤ n
    → n < first
    → let last = sub32 (next_seqno s.from_seqno seqnos) 1 in
      let state = last_state_seqno s.from_seqno (next_seqno s.from_seqno seqnos) (some last) in
      (contains n seqnos ≡ false)
      × (contains n (got_trace_assembler_last_state_seqno state s).0.existing_seqnos ≡ true)
unfolding last_state_seqno
below_first_counted s seqnos first n g small low high = (not_held s seqnos first n g high, there)
  where
    last : ℕ
    last = sub32 (next_seqno s.from_seqno seqnos) 1

    there : contains n (got_trace_assembler_last_state_seqno last s).0.existing_seqnos ≡ true
    there =
        last_state-existing last s n (omega (arith, g.above, small))
        ∙ ground (arith, low, high, g.above, small)
