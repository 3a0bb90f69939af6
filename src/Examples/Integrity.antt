-- ===== src/Examples/Integrity.antt =====
-- IntegrityChecker.cpp on two blocks, one fetched and one parsed at a time, and on nine that are searched.
use ton_index_worker.Prelude.{
  ℕ, ◌≡◌, ◌⊎◌, ◌≤◌, inl, inr, refl, false, Bool, Option, some, [], ◌∷◌, arith, leb, length,
  Bool-cases,
}
use ton_index_worker.Prelude.Maps.{contains, insert, remove}
use ton_index_worker.Integrity.{
  IntegrityChecker, found, find_oldest_seqno_with_state, seqno_fetched, seqno_parsed, first_checked,
  next_checkpoint, got_oldest_mc_seqno_with_state,
}
use ton_index_worker.Integrity.Search.{IsSuffix, IsOldest, find_oldest_seqno_with_state-IsOldest}
use ton_index_worker.Integrity.System.{
  System, Reach, here, next, fetches, parses, after, places, stops,
}
use ton_index_worker.Integrity.Range.{
  IsBlank, Progress, in_range, begun, Reach-places, Reach-bounds, Reach-Progress,
}
use ton_index_worker.Integrity.Checkpoint.{Covers, resumed, next_checkpoint-Covers, resume_skips}

-- The blocks from 5 on have a state.
abbrev has_state : ℕ → Option Bool
has_state n = some (leb 5 n)

has_state-IsSuffix : IsSuffix has_state 1 9
has_state-IsSuffix = record {
  answers = λ n l u. elim (Bool-cases (leb 5 n)) [
    | inl has ↦ inl (rw has refl)
    | inr lacks ↦ inr (rw lacks refl)
  ];
  later = λ m n l o u h. ground (arith, o, h);
}

find_oldest_seqno_with_state-IsOldest_example :
    (k : ℕ) × (find_oldest_seqno_with_state has_state 33 1 9 ≡ found k) × IsOldest has_state 1 9 k
find_oldest_seqno_with_state-IsOldest_example =
    find_oldest_seqno_with_state-IsOldest has_state 1 9 has_state-IsSuffix (omega arith)
      (omega arith) refl

abbrev checker : IntegrityChecker
checker = record {
  fetch_parallelism = 1;
  parse_parallelism = 1;
  from_seqno = 0;
  to_seqno = 4;
  queued_seqnos = [];
  seqnos_fetching = [];
  seqnos_parsing = [];
  seqnos_processed = [];
  blocks_to_parse = [];
  blocks_to_parse_queue_max_size = 10;
  checkpoint_seqno = 0;
}

checker-IsBlank : IsBlank checker
checker-IsBlank = record {
  queued = refl;
  fetching = refl;
  to_parse = refl;
  parsing = refl;
  processed = refl;
  positive = (omega arith, omega arith);
}

-- Block 3 is fetched, then parsed.
abbrev with_one_fetched : System
with_one_fetched = after (seqno_fetched 3 (begun 2 checker).checker) (begun 2 checker).mailbox

abbrev with_one_parsed : System
with_one_parsed = after (seqno_parsed 3 with_one_fetched.checker) with_one_fetched.mailbox

run : Reach (begun 2 checker) with_one_parsed
unfolding got_oldest_mc_seqno_with_state seqno_fetched contains stops insert remove
run = next (next here (fetches 3 refl refl)) (parses 3 refl refl)

Reach-places_example : places 4 with_one_parsed.checker ≡ in_range (first_checked 2) 4 4
Reach-places_example =
    Reach-places 2 checker checker-IsBlank (omega arith) (omega arith, omega arith) with_one_parsed
      run 4

Reach-bounds_example :
    (length with_one_parsed.checker.seqnos_fetching ≤ with_one_parsed.checker.fetch_parallelism)
    × (length with_one_parsed.checker.seqnos_parsing ≤ with_one_parsed.checker.parse_parallelism)
Reach-bounds_example =
    Reach-bounds 2 checker checker-IsBlank (omega arith) (omega arith, omega arith) with_one_parsed
      run

Reach-Progress_example : Progress (in_range (first_checked 2) 4) with_one_parsed
Reach-Progress_example =
    Reach-Progress 2 checker checker-IsBlank (omega arith) (omega arith, omega arith)
      with_one_parsed run

-- Numbers 3 to 5 and 7 are processed, and the checkpoint is at 4.
abbrev with_gap : IntegrityChecker
with_gap = record checker { seqnos_processed = 5 ∷ 3 ∷ 7 ∷ 4 ∷ []; checkpoint_seqno = 4 }

processed-Covers : Covers 3 4 with_gap.seqnos_processed
unfolding contains
processed-Covers n l u = ground (arith, l, u)

next_checkpoint-Covers_example :
    let next = next_checkpoint with_gap in
    (4 ≤ next)
    × Covers 3 next with_gap.seqnos_processed
    × ((next ≡ 4) ⊎ (contains next with_gap.seqnos_processed ≡ false))
unfolding contains
next_checkpoint-Covers_example =
    next_checkpoint-Covers 3 with_gap (refl, (refl, (refl, (refl, tt))))
      (omega arith, (omega arith, (omega arith, (omega arith, tt)))) processed-Covers

resume_skips_example : places 3 (resumed 3 5 checker).checker ≡ 0
resume_skips_example =
    resume_skips 3 5 checker checker-IsBlank (omega arith, omega arith) (omega arith, omega arith)
      (resumed 3 5 checker) here 3 (omega arith)
