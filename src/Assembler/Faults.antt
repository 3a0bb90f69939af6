-- ===== src/Assembler/Faults.antt =====
-- What TraceAssembler.cpp does with a block that comes twice.
use ton_index_worker.Prelude.{
  ℕ, suc, ◌+◌, ◌<◌, ◌≡◌, true, some, List, [], ◌∷◌, arith, length, ◌==◌, Bool-cases, Option-cases,
  inl, inr,
}
use ton_index_worker.Prelude.Words.{mod32, add32}
use ton_index_worker.Prelude.Maps.{find, find-emplace}
use ton_index_worker.Schema.{ParsedBlock}
use ton_index_worker.Assembler.Tasks.{Task, TraceAssembler, Answer, fatal, done, assemble}
use ton_index_worker.Assembler.Serving.{
  Processed, InOrder, answered, IsValid, IsDrained, FreshTurns,
}
use ton_index_worker.Assembler.Answers.{with_task, assemble_total}

answered_below :
    (n k : ℕ) (answers : List Answer)
    → n + length answers < mod32
    → InOrder n answers
    → answered k answers ≡ true
    → k < n + length answers
answered_below n k [] l o a = cc
answered_below n k (x ∷ answers) l o a =
    let next : add32 n 1 ≡ suc n = omega (arith, l) in
    elim (Bool-cases (x.seqno == k)) [
      | inl here ↦ ground (arith, l, o.0, here)
      | inr there ↦
          let later : k < suc n + length answers =
            answered_below (suc n) k answers (omega (arith, l)) (rw next at (o.1))
              (ground (arith, a, there)) in
          omega (arith, later)
    ]

expected_queued :
    (seqno : ℕ) (block : ParsedBlock) (promise : ℕ) (a : TraceAssembler)
    → (task : Task) × (find seqno (with_task seqno block promise a).queue ≡ some task)
expected_queued seqno block promise a =
    let task : Task = record { seqno = seqno; block = block; promise = promise } in
    elim (Option-cases (find seqno a.queue)) [
      | inl e ↦ (task, ground (arith, e, find-emplace seqno seqno task a.queue))
      | inr (old, e) ↦ (old, ground (arith, e, find-emplace seqno seqno task a.queue))
    ]

-- The expected block is in the queue, so there is an answer, and the first one is for it.
answered_expected :
    (a : TraceAssembler) (r : TraceAssembler × List Answer) (task : Task)
    → find a.expected_seqno a.queue ≡ some task
    → a.expected_seqno < mod32
    → Processed a r
    → IsDrained r.0
    → answered a.expected_seqno r.1 ≡ true
answered_expected a (a', []) task e l p d =
    let same : a'.expected_seqno ≡ a.expected_seqno = omega (arith, p.next, l) in
    absurd (ground (arith, e, d, same, p.rest a.expected_seqno))
answered_expected a (a', x ∷ answers) task e l p d = ground (arith, p.in_order.0)

fatal_below :
    (a : TraceAssembler) (r : TraceAssembler × List Answer) (seqno : ℕ) (block : ParsedBlock)
    (promise : ℕ)
    → Processed a r
    → a.expected_seqno + length r.1 < mod32
    → answered seqno r.1 ≡ true
    → assemble seqno block promise r.0 ≡ fatal
unfolding assemble
fatal_below a r seqno block promise p l h =
    let below = answered_below a.expected_seqno seqno r.1 l p.in_order h in
    ground (arith, below, p.next, l)

-- From a valid state, if each block brings new hashes at its turn and the numbers do not reach
-- 2 ^ 32: `assemble` answers the expected block, and a second `assemble` of that block on the state
-- that the first one leaves, as after an error at a later stage, ends the process.
pub assembled_twice_fatal :
    (block : ParsedBlock) (promise : ℕ) (again : ParsedBlock) (promise' : ℕ) (a : TraceAssembler)
    → IsValid a
    → FreshTurns
        (length (with_task a.expected_seqno block promise a).queue)
        (with_task a.expected_seqno block promise a)
    → a.expected_seqno + length (with_task a.expected_seqno block promise a).queue < mod32
    → (r : TraceAssembler × List Answer) × (lost : List ℕ) × (assemble a.expected_seqno block
          promise a
        ≡ done r.0 r.1 lost)
      × (answered a.expected_seqno r.1 ≡ true)
      × (assemble a.expected_seqno again promise' r.0 ≡ fatal)
assembled_twice_fatal block promise again promise' a v f l =
    elim (assemble_total a.expected_seqno block promise a v f) [
      | inl (below, e) ↦ absurd (omega (arith, below))
      | inr (above, (r, e, p, d), queued) ↦
          let here = expected_queued a.expected_seqno block promise a in
          let kept = answered_expected _ r here.0 here.1 v.small p d in
          (
            r,
            _,
            e,
            kept,
            fatal_below _ r a.expected_seqno again promise' p (omega (arith, l, p.few)) kept,
          )
    ]
