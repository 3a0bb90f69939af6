-- ===== src/Assembler/Serving.antt =====
-- TraceAssembler::process_queue: a valid assembler, and what a run of the loop has done.
use ton_index_worker.Prelude.{
  ℕ, zero, suc, ◌+◌, ◌%◌, ◌≤◌, ◌<◌, ◌≡◌, refl, Bool, true, false, Option, none, some, List, [], ◌∷◌,
  arith, length, ◌==◌, if◌then◌else◌,
}
use ton_index_worker.Prelude.Words.{mod32, mod64, add32}
use ton_index_worker.Prelude.Maps.{Distinct, find, find-erase, erase, erase-Distinct, length-erase}
use ton_index_worker.Schema.{ParsedBlock}
use ton_index_worker.Assembler.Block.{Pending, process_block}
use ton_index_worker.Assembler.Inv.{Inv}
use ton_index_worker.Assembler.Freshness.{FreshTxs}
use ton_index_worker.Assembler.Sizes.{message_bound}
use ton_index_worker.Assembler.Blocks.{sorted_refs}
use ton_index_worker.Assembler.Tasks.{Task, TraceAssembler, Answer, advance}

-- A task lies under its own number.
abbrev pub IsOwn : ℕ → Option Task → Type 0
IsOwn k none = Unit {0}
IsOwn k (some task) = task.seqno ≡ k

-- The assembler between two calls.
pub record IsValid (a : TraceAssembler) : Type 0 where
  pub small : a.expected_seqno < mod32
  pub distinct : Distinct a.queue
  pub own : (k : ℕ) → IsOwn k (find k a.queue)
  pub inv : Inv a.pending.pending_traces a.pending.pending_edges

-- The block brings new hashes, and the pending edges fit a `size_t`.
abbrev pub IsFreshBlock : ParsedBlock → Pending → Type 0
IsFreshBlock block p =
    FreshTxs p.pending_traces p.pending_edges (sorted_refs block)
    × (length p.pending_edges + message_bound (sorted_refs block) < mod64)

-- Each block that the loop reaches brings new hashes at its turn.
abbrev pub AfterBlock :
    (TraceAssembler → Type 0) → TraceAssembler → Option (Pending × ParsedBlock) → Type 0
AfterBlock later a none = Unit {0}
AfterBlock later a (some r) = later (advance a r.0)

abbrev pub AtTask : (TraceAssembler → Type 0) → TraceAssembler → Option Task → Type 0
AtTask later a none = Unit {0}
AtTask later a (some task) =
    IsFreshBlock task.block a.pending
    × AfterBlock later a (process_block task.seqno task.block a.pending)

abbrev pub FreshTurns : ℕ → TraceAssembler → Type 0
FreshTurns zero a = Unit {0}
FreshTurns (suc rounds) a = AtTask (FreshTurns rounds) a (find a.expected_seqno a.queue)

-- The answers are for consecutive numbers.
abbrev pub InOrder : ℕ → List Answer → Type 0
InOrder n [] = Unit
InOrder n (a ∷ answers) = (a.seqno ≡ n) × InOrder (add32 n 1) answers

abbrev pub answered : ℕ → List Answer → Bool
answered k [] = false
answered k (a ∷ answers) = if a.seqno == k then true else answered k answers

-- Every answer is for the task that was queued under its number: it keeps the promise of that task,
-- with the block that `process_block` makes of the block of that task, on the pending traces and
-- edges that the answer before it has left.
pub data Serves (queue : List (ℕ × Task)) : ℕ → Pending → List Answer → Pending → Type 0 where
  nothing : {n : ℕ} {p : Pending} → Serves queue n p [] p
  task_served :
      {n : ℕ} {p q r : Pending} {answers : List Answer} (task : Task) (block : ParsedBlock)
      → find n queue ≡ some task
      → process_block task.seqno task.block p ≡ some (q, block)
      → Serves queue (add32 n 1) q answers r
      → Serves queue n p
          (record { seqno = task.seqno; promise = task.promise; block = block } ∷ answers)
          r

Serves-mono :
    {queue queue' : List (ℕ × Task)} {n : ℕ} {p r : Pending} {answers : List Answer}
    → ((k : ℕ) (task : Task) → find k queue ≡ some task → find k queue' ≡ some task)
    → Serves queue n p answers r
    → Serves queue' n p answers r
Serves-mono m nothing = nothing
Serves-mono m (task_served {n} task block here e s) =
    task_served task block (m n task here) e (Serves-mono m s)

-- The assembler after the loop, and the answers.
pub record Processed (a : TraceAssembler) (r : TraceAssembler × List Answer) : Type 0 where
  pub valid : IsValid r.0
  pub in_order : InOrder a.expected_seqno r.1
  pub next : r.0.expected_seqno ≡ (a.expected_seqno + length r.1) % mod32
  pub served : Serves a.queue a.expected_seqno a.pending r.1 r.0.pending
  pub few : length r.1 ≤ length a.queue
  pub rest : (k : ℕ) → find k r.0.queue ≡ (if answered k r.1 then none else find k a.queue)

pub advance-IsValid :
    (a : TraceAssembler) (p : Pending)
    → Inv p.pending_traces p.pending_edges
    → IsValid a
    → IsValid (advance a p)
unfolding advance
advance-IsValid a p i v = record {
  small = omega arith;
  distinct = erase-Distinct a.expected_seqno a.queue v.distinct;
  own = λ k. ground (arith, find-erase a.expected_seqno k a.queue, v.own k);
  inv = i;
}

pub Processed-nil : (a : TraceAssembler) → IsValid a → Processed a (a, [])
Processed-nil a v = record {
  valid = v;
  in_order = tt;
  next = omega (arith, v.small);
  served = nothing;
  few = omega arith;
  rest = λ k. refl;
}

not_erased :
    (n : ℕ) (queue : List (ℕ × Task)) (k : ℕ) (task : Task)
    → find k (erase n queue) ≡ some task
    → find k queue ≡ some task
not_erased n queue k task e = ground (arith, e, find-erase n k queue)

pub Processed-cons :
    (a : TraceAssembler) (p : Pending) (task : Task) (block : ParsedBlock) (a' : TraceAssembler)
    (answers : List Answer)
    → find a.expected_seqno a.queue ≡ some task
    → process_block task.seqno task.block a.pending ≡ some (p, block)
    → IsValid a
    → Processed (advance a p) (a', answers)
    → Processed a
        (a', record { seqno = task.seqno; promise = task.promise; block = block } ∷ answers)
unfolding advance
Processed-cons a p task block a' answers here e v c = record {
  valid = c.valid;
  in_order = (ground (arith, v.own a.expected_seqno, here), c.in_order);
  next = omega (arith, c.next);
  served =
      task_served task block here e (Serves-mono (not_erased a.expected_seqno a.queue) c.served);
  few = omega (arith, c.few, length-erase a.expected_seqno a.queue task v.distinct here);
  rest = λ k.
      ground (arith, c.rest k, find-erase a.expected_seqno k a.queue, v.own a.expected_seqno, here);
}

-- The next number is not queued.
abbrev pub IsDrained : TraceAssembler → Type 0
IsDrained a = find a.expected_seqno a.queue ≡ none
