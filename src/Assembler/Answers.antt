-- ===== src/Assembler/Answers.antt =====
-- TraceAssembler::process_queue: blocks are processed, and their promises kept, in order.
use ton_index_worker.Prelude.{
  ℕ, zero, suc, ◌≤◌, ◌<◌, ◌≡◌, refl, subst, ◌⊎◌, inl, inr, Option, none, some, List, [], ◌∷◌, arith,
  length, ◌==◌, if◌then◌else◌, Option-cases, Bool-cases, ltb,
}
use ton_index_worker.Prelude.Maps.{find, emplace, find-emplace, emplace-Distinct, length-erase}
use ton_index_worker.Schema.{ParsedBlock}
use ton_index_worker.Assembler.Block.{Pending}
use ton_index_worker.Assembler.Blocks.{written, process_block_total}
use ton_index_worker.Assembler.Tasks.{
  Task, TraceAssembler, Answer, fatal, done, advance, process_loop, process_queue, assemble,
  lost_promises,
}
use ton_index_worker.Assembler.Serving.{
  IsValid, AfterBlock, AtTask, FreshTurns, Processed, IsDrained, advance-IsValid, Processed-nil,
  Processed-cons,
}

empty_drained : (k : ℕ) (q : List (ℕ × Task)) → length q ≤ 0 → find k q ≡ none
unfolding find
empty_drained k [] l = refl
empty_drained k (t ∷ q) l = absurd (omega arith)

shorter :
    {rounds : ℕ} (a : TraceAssembler) (p : Pending) (task : Task)
    → find a.expected_seqno a.queue ≡ some task
    → IsValid a
    → length a.queue ≤ suc rounds
    → length (advance a p).queue ≤ rounds
unfolding advance
shorter a p task here v l =
    omega (arith, length-erase a.expected_seqno a.queue task v.distinct here)

process_loop_total :
    (rounds : ℕ) (a : TraceAssembler)
    → IsValid a
    → FreshTurns rounds a
    → length a.queue ≤ rounds
    → (r : TraceAssembler × List Answer) × (process_loop rounds a ≡ some r)
      × Processed a r
      × IsDrained r.0
unfolding process_loop
process_loop_total zero a v f l =
    ((a, []), refl, Processed-nil a v, empty_drained a.expected_seqno a.queue l)
process_loop_total (suc rounds) a v f l = elim (Option-cases (find a.expected_seqno a.queue)) [
  | inl missing ↦ ((a, []), rw (missing, process_loop), Processed-nil a v, missing)
  | inr (task, here) ↦
      let turn = subst (AtTask (FreshTurns rounds) a) here f in
      let (b, eb, fin) =
        process_block_total task.seqno task.block a.pending v.inv turn.0.0 turn.0.1 in
      let block = written task.seqno task.block a.pending b.1 in
      let (r, er, c, d) =
        process_loop_total rounds (advance a b.0) (advance-IsValid a b.0 fin.inv v)
          (subst (AfterBlock (FreshTurns rounds) a) eb turn.1) (shorter a b.0 task here v l) in
      (
        (r.0, record { seqno = task.seqno; promise = task.promise; block = block } ∷ r.1),
        rw (here, process_loop, eb, er),
        Processed-cons a b.0 task block r.0 r.1 here eb v c,
        d,
      )
]

-- If each block brings new hashes at its turn, `process_queue` ends without a fault. The answers
-- are for the consecutive numbers from the expected one; the next expected number is the one after
-- them, and is not queued; each answer keeps the promise of the task queued under its number, with
-- the block that `process_block` makes of its block; and the queue has lost exactly the tasks that
-- were answered.
pub process_queue_total :
    (a : TraceAssembler)
    → IsValid a
    → FreshTurns (length a.queue) a
    → (r : TraceAssembler × List Answer) × (process_queue a ≡ some r)
      × Processed a r
      × IsDrained r.0
unfolding process_queue
process_queue_total a v f = process_loop_total (length a.queue) a v f (omega arith)

-- The assembler with a block queued.
abbrev pub with_task : ℕ → ParsedBlock → ℕ → TraceAssembler → TraceAssembler
with_task seqno block promise a = record a {
  queue = emplace seqno (record { seqno = seqno; block = block; promise = promise }) a.queue;
}

with_task-IsValid :
    (seqno : ℕ) (block : ParsedBlock) (promise : ℕ) (a : TraceAssembler)
    → IsValid a
    → IsValid (with_task seqno block promise a)
with_task-IsValid seqno block promise a v = record {
  small = v.small;
  distinct = emplace-Distinct seqno _ a.queue v.distinct;
  own = λ k. ground (
    arith,
    find-emplace seqno k (record { seqno = seqno; block = block; promise = promise }) a.queue,
    v.own k,
  );
  inv = v.inv;
}

-- The task under a number once a new one is queued.
abbrev pub kept_task : Option Task → Task → Task
kept_task none new = new
kept_task (some old) new = old

-- From a valid state, and if each block brings new hashes at its turn:
-- `assemble` ends the process exactly for a number below the expected one. Otherwise the block is
-- queued, unless its number is: then the task that is queued stays, and the promise of the new one
-- is destroyed, and no other. The blocks whose turn it is are answered in order, each answer with
-- the promise of its own task and the block that `process_block` makes of its block; the next
-- expected number is not queued, and the tasks that were not answered stay.
pub assemble_total :
    (seqno : ℕ) (block : ParsedBlock) (promise : ℕ) (a : TraceAssembler)
    → IsValid a
    → FreshTurns (length (with_task seqno block promise a).queue) (with_task seqno block promise a)
    → ((seqno < a.expected_seqno) × (assemble seqno block promise a ≡ fatal))
      ⊎ ((a.expected_seqno ≤ seqno)
          × ((r : TraceAssembler × List Answer) × (assemble seqno block promise a
                ≡ done r.0 r.1 (elim (find seqno a.queue) [ none ↦ [] | some task ↦ promise ∷ [] ]))
              × Processed (with_task seqno block promise a) r
              × IsDrained r.0)
          × ((k : ℕ)
              → find k (with_task seqno block promise a).queue ≡ (
                  if k == seqno
                  then some (
                      kept_task
                        (find seqno a.queue)
                        (record { seqno = seqno; block = block; promise = promise }))
                  else find k a.queue)))
unfolding assemble lost_promises
assemble_total seqno block promise a v f = elim (Bool-cases (ltb seqno a.expected_seqno)) [
  | inl below ↦ inl (ground (arith, below), rw below)
  | inr above ↦
      let (r, e, c, d) = process_queue_total _ (with_task-IsValid seqno block promise a v) f in
      inr (
        ground (arith, above),
        (r, rw (above, e), c, d),
        λ k. ground (
          arith,
          find-emplace seqno k (record { seqno = seqno; block = block; promise = promise }) a.queue,
        ),
      )
]
