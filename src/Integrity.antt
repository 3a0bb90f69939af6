-- ===== src/Integrity.antt =====
-- ton-integrity-checker/src/IntegrityChecker.cpp and IntegrityChecker.h: every masterchain block from
-- the oldest one with a state, or from a checkpoint, up to the newest is fetched and parsed, a bounded
-- number of them at once. Numbers are words. What a block holds is left out, and so are the speed
-- estimate, the printed statistics and the test for free memory.
pub mod Search
pub mod Rounds
pub mod System
pub mod Quiet
pub mod Sound
pub mod Range
pub mod Checkpoint
use ton_index_worker.Prelude.{
  ℕ, zero, suc, ◌+◌, ◌-◌, ◌/◌, ◌%◌, Bool, true, false, ◌&&◌, not, Option, none, some, List, [], ◌∷◌,
  ◌++◌, length, ltb, leb, ◌==◌, if◌then◌else◌,
}
use ton_index_worker.Prelude.Words.{mod32, add32}
use ton_index_worker.Prelude.Maps.{insert, remove}
use ton_index_worker.Prelude.Sorted.{sort}
use ton_index_worker.Prelude.Numerals.{stoul, to_string}
use ton_index_worker.Insert.{is_empty}

pub record IntegrityChecker : Type 0 where
  pub fetch_parallelism : ℕ  -- size_t
  pub parse_parallelism : ℕ  -- size_t
  pub from_seqno : ℕ  -- uint32
  pub to_seqno : ℕ  -- uint32
  pub queued_seqnos : List ℕ
  pub seqnos_fetching : List ℕ
  pub seqnos_parsing : List ℕ
  pub seqnos_processed : List ℕ
  pub blocks_to_parse : List ℕ
  pub blocks_to_parse_queue_max_size : ℕ  -- uint32
  pub checkpoint_seqno : ℕ  -- uint32

-- What a handler asks of the other actors, of itself later, and of the process.
pub data Effect : Type 0 where
  get_last_mc_seqno : Effect
  get_oldest_mc_seqno : Effect
  fetch_seqno : ℕ → Effect
  parse : ℕ → Effect
  fetch_later : Effect
  write_checkpoint : List ℕ → Effect
  stop abort : Effect
  exit : ℕ → Effect

-- What `start_up` finds under the checkpoint's path.
pub data CheckpointFile : Type 0 where
  absent unreadable : CheckpointFile
  text : List ℕ → CheckpointFile

-- The number in the file, cut to a `uint32_t`.
read_checkpoint : Option ℕ → IntegrityChecker → IntegrityChecker × List Effect
read_checkpoint none c = (c, exit 2 ∷ [])
read_checkpoint (some n) c =
    let from = n % mod32 in
    (record c { from_seqno = from; checkpoint_seqno = from }, get_last_mc_seqno ∷ [])

unfoldable pub start_up : CheckpointFile → IntegrityChecker → IntegrityChecker × List Effect
unfolding read_checkpoint stoul
start_up absent c = (c, get_last_mc_seqno ∷ [])
start_up unreadable c = (c, exit 2 ∷ [])
start_up (text bytes) c = read_checkpoint (stoul bytes) c

-- The search for the oldest block with a state: a number, or the end of the process.
pub data Searched : Type 0 where
  found : ℕ → Searched
  failed : Searched
  out_of_fuel : Searched

-- `find_oldest_seqno_with_state`; the answer for a block is whether it has a state, or an error.
module _ (has_state : ℕ → Option Bool) where
  unfoldable pub find_oldest_seqno_with_state : ℕ → ℕ → ℕ → Searched
  find_oldest_seqno_with_state zero min_seqno max_seqno = out_of_fuel
  find_oldest_seqno_with_state (suc fuel) min_seqno max_seqno =
      let mid_seqno = min_seqno + (max_seqno - min_seqno) / 2 in
      if ltb max_seqno min_seqno then failed else elim (has_state mid_seqno) [
        | none ↦ failed
        | some true ↦ elim (min_seqno == mid_seqno) [
          | true ↦ found mid_seqno
          | false ↦ find_oldest_seqno_with_state fuel min_seqno mid_seqno
        ]
        | some false ↦ find_oldest_seqno_with_state fuel (add32 mid_seqno 1) max_seqno
      ]

-- The loop of `fetch_next_seqnos`, on the queue.
unfoldable pub fetch_loop : List ℕ → IntegrityChecker → IntegrityChecker × List Effect
fetch_loop [] c = (record c { queued_seqnos = [] }, [])
fetch_loop (seqno ∷ queue) c =
    let rest = fetch_loop queue (record c { seqnos_fetching = insert seqno c.seqnos_fetching }) in
    if ltb (length c.seqnos_fetching) c.fetch_parallelism
    then (rest.0, fetch_seqno seqno ∷ rest.1)
    else (record c { queued_seqnos = seqno ∷ queue }, [])

unfoldable pub fetch_next_seqnos : IntegrityChecker → IntegrityChecker × List Effect
unfolding fetch_loop
fetch_next_seqnos c =
    if ltb c.blocks_to_parse_queue_max_size (length c.blocks_to_parse)
    then (c, fetch_later ∷ [])
    else fetch_loop c.queued_seqnos c

-- The loop of `parse_next_seqnos`, on its queue.
unfoldable pub parse_loop : List ℕ → IntegrityChecker → IntegrityChecker × List Effect
parse_loop [] c = (record c { blocks_to_parse = [] }, [])
parse_loop (seqno ∷ queue) c =
    let rest = parse_loop queue (record c { seqnos_parsing = insert seqno c.seqnos_parsing }) in
    if ltb (length c.seqnos_parsing) c.parse_parallelism
    then (rest.0, parse seqno ∷ rest.1)
    else (record c { blocks_to_parse = seqno ∷ queue }, [])

unfoldable pub parse_next_seqnos : IntegrityChecker → IntegrityChecker × List Effect
unfolding parse_loop
parse_next_seqnos c = parse_loop c.blocks_to_parse c

unfoldable pub seqno_fetched : ℕ → IntegrityChecker → IntegrityChecker × List Effect
unfolding fetch_next_seqnos parse_next_seqnos
seqno_fetched seqno c =
    let f = fetch_next_seqnos (record c { seqnos_fetching = remove seqno c.seqnos_fetching }) in
    let p =
      parse_next_seqnos (record (f.0) { blocks_to_parse = f.0.blocks_to_parse ++ seqno ∷ [] }) in
    (p.0, f.1 ++ p.1)

-- `fetch_error` and `parse_error`.
abbrev pub fetch_error : List Effect
fetch_error = exit 7 ∷ []

-- The test before `stop`.
unfoldable pub is_finished : IntegrityChecker → Bool
is_finished c = is_empty c.blocks_to_parse && is_empty c.queued_seqnos && is_empty c.seqnos_fetching

unfoldable pub seqno_parsed : ℕ → IntegrityChecker → IntegrityChecker × List Effect
unfolding parse_next_seqnos is_finished
seqno_parsed seqno c =
    let c' = record c {
      seqnos_parsing = remove seqno c.seqnos_parsing;
      seqnos_processed = insert seqno c.seqnos_processed;
    } in
    if is_finished c' then (c', stop ∷ []) else parse_next_seqnos c'

-- The numbers of a range; the source's loop does not end if the last one is the last word.
unfoldable pub range : ℕ → ℕ → List ℕ
range zero first = []
range (suc rounds) first = first ∷ range rounds (first + 1)

-- The first number that is checked.
unfoldable pub first_checked : ℕ → ℕ
first_checked oldest = let from = add32 oldest 1 in if ltb from 3 then 3 else from

unfoldable pub got_oldest_mc_seqno_with_state :
    ℕ → IntegrityChecker → IntegrityChecker × List Effect
unfolding range first_checked fetch_next_seqnos
got_oldest_mc_seqno_with_state oldest c =
    let from = first_checked oldest in
    let c' = record c { from_seqno = from; checkpoint_seqno = from } in
    if not (from == 0) && not (c.to_seqno == 0)
    then fetch_next_seqnos
        (record c' { queued_seqnos = c.queued_seqnos ++ range (c.to_seqno + 1 - from) from })
    else (c', [])

-- With a checkpoint the checks go on from it; otherwise the oldest block is searched for.
unfoldable pub got_last_mc_seqno : ℕ → IntegrityChecker → IntegrityChecker × List Effect
unfolding got_oldest_mc_seqno_with_state
got_last_mc_seqno last_known_seqno c =
    let c' = record c { to_seqno = last_known_seqno } in
    if c.from_seqno == 0
    then (c', get_oldest_mc_seqno ∷ [])
    else got_oldest_mc_seqno_with_state c.from_seqno c'

-- `got_min_mc_seqno`, with the answers that the search gets; 33 rounds are enough for words.
unfoldable pub got_min_mc_seqno :
    (ℕ → Option Bool) → ℕ → IntegrityChecker → IntegrityChecker × List Effect
unfolding find_oldest_seqno_with_state got_oldest_mc_seqno_with_state
got_min_mc_seqno has_state min_known_seqno c =
    elim (find_oldest_seqno_with_state has_state 33 min_known_seqno c.to_seqno) [
      | found oldest ↦ got_oldest_mc_seqno_with_state oldest c
      | failed ↦ (c, exit 2 ∷ [])
      | out_of_fuel ↦ (c, [])
    ]

-- `lower_bound` on the walk through the set.
unfoldable pub at_least : ℕ → List ℕ → List ℕ
at_least n [] = []
at_least n (m ∷ ms) = if ltb m n then at_least n ms else m ∷ ms

-- The loop of `alarm`: where the numbers from `expected_next` on have their first gap; without a
-- gap the checkpoint stays. `expected_next` is an `int` in the source; here it wraps as a word.
unfoldable pub checkpoint_loop : ℕ → ℕ → List ℕ → ℕ
checkpoint_loop checkpoint expected_next [] = checkpoint
checkpoint_loop checkpoint expected_next (m ∷ ms) =
    let next = checkpoint_loop checkpoint (add32 expected_next 1) ms in
    if m == expected_next then next else expected_next

unfoldable pub next_checkpoint : IntegrityChecker → ℕ
unfolding at_least checkpoint_loop
next_checkpoint c =
    checkpoint_loop c.checkpoint_seqno c.checkpoint_seqno
      (at_least c.checkpoint_seqno (sort c.seqnos_processed))

-- `alarm` with a path for the checkpoint; the process aborts on a checkpoint of 0.
unfoldable pub alarm : IntegrityChecker → IntegrityChecker × List Effect
unfolding next_checkpoint
alarm c =
    let next = next_checkpoint c in
    if next == 0
    then (c, abort ∷ [])
    else (record c { checkpoint_seqno = next }, write_checkpoint (to_string next) ∷ [])
