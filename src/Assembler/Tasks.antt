-- ===== src/Assembler/Tasks.antt =====
-- The queue of TraceAssembler: `assemble`, `process_queue` and `set_expected_seqno` of
-- tondb-scanner/src/TraceAssembler.cpp. Blocks come in any order and leave in order.
use ton_index_worker.Prelude.{
  ℕ, zero, suc, Option, none, some, List, [], ◌∷◌, length, ltb, if◌then◌else◌,
}
use ton_index_worker.Prelude.Words.{add32}
use ton_index_worker.Prelude.Maps.{find, emplace, erase}
use ton_index_worker.Schema.{ParsedBlock}
use ton_index_worker.Assembler.Block.{Pending, process_block, ◌>>=◌}

-- A promise is the number of its caller.
pub record Task : Type 0 where
  pub seqno : ℕ  -- uint32
  pub block : ParsedBlock
  pub promise : ℕ

pub record TraceAssembler : Type 0 where
  pub expected_seqno : ℕ  -- uint32
  pub queue : List (ℕ × Task)
  pub pending : Pending

-- A promise that is kept.
pub record Answer : Type 0 where
  pub seqno : ℕ
  pub promise : ℕ
  pub block : ParsedBlock

-- The block is done: its task leaves the queue, and the next number is expected.
unfoldable pub advance : TraceAssembler → Pending → TraceAssembler
advance a p = record a {
  expected_seqno = add32 a.expected_seqno 1;
  queue = erase a.expected_seqno a.queue;
  pending = p;
}

-- The loop of `process_queue`; each round takes a task away, so their number bounds the rounds.
unfoldable pub process_loop : ℕ → TraceAssembler → Option (TraceAssembler × List Answer)
unfolding advance
process_loop zero a = some (a, [])
process_loop (suc rounds) a = elim (find a.expected_seqno a.queue) [
  | none ↦ some (a, [])
  | some task ↦ do
    (p, block) ← process_block task.seqno task.block a.pending
    (a', answers) ← process_loop rounds (advance a p)
    some (a', record { seqno = task.seqno; promise = task.promise; block = block } ∷ answers)
]

unfoldable pub process_queue : TraceAssembler → Option (TraceAssembler × List Answer)
unfolding process_loop
process_queue a = process_loop (length a.queue) a

-- `fatal` is `LOG(FATAL)`, which ends the process; `fault` is undefined behaviour in a block. The
-- list of numbers holds the promises that are destroyed and not kept: their callers get the error
-- of a lost promise.
pub data Assembled : Type 0 where
  fatal : Assembled
  fault : Assembled
  done : TraceAssembler → List Answer → List ℕ → Assembled

or_fault : List ℕ → Option (TraceAssembler × List Answer) → Assembled
or_fault lost none = fault
or_fault lost (some (a, answers)) = done a answers lost

-- `emplace` keeps the task that is queued under the number, and destroys the new one.
unfoldable pub lost_promises : ℕ → ℕ → List (ℕ × Task) → List ℕ
lost_promises seqno promise queue = elim (find seqno queue) [ none ↦ [] | some task ↦ promise ∷ [] ]

unfoldable pub assemble : ℕ → ParsedBlock → ℕ → TraceAssembler → Assembled
unfolding or_fault process_queue
assemble seqno block promise a =
    if ltb seqno a.expected_seqno
    then fatal
    else or_fault (lost_promises seqno promise a.queue) (
        process_queue (record a {
          queue =
              emplace seqno (record { seqno = seqno; block = block; promise = promise }) a.queue;
        }))

unfoldable pub set_expected_seqno : ℕ → TraceAssembler → TraceAssembler
set_expected_seqno new_expected_seqno a = record a { expected_seqno = new_expected_seqno }
