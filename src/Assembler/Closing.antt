-- ===== src/Assembler/Closing.antt =====
-- TraceAssembler::process_block after the transactions: each updated trace is reported once, and
-- leaves the map exactly when it has no pending edge.
use ton_index_worker.Prelude.{
  ℕ, ◌<◌, ◌≡◌, refl, true, false, Option, none, some, List, [], ◌∷◌, arith, length, ltb, ◌==◌,
  if◌then◌else◌, Bool-cases, Option-cases, inl, inr,
}
use ton_index_worker.Prelude.Words.{mod64}
use ton_index_worker.Prelude.Maps.{
  Distinct, insert_or_assign-Distinct, find, insert_or_assign, find-insert_or_assign, find-erase,
  contains, IsSetList,
}
use ton_index_worker.Schema.{Trace}
use ton_index_worker.Assembler.{TraceImpl, Traces, Edges, trace_to_schema}
use ton_index_worker.Assembler.Inv.{Inv, close-Inv}
use ton_index_worker.Assembler.Tracked.{IsPresent}
use ton_index_worker.Assembler.Block.{◌>>=◌, final_state, close_found, close_traces}

-- The trace as it is reported: without pending edges it is complete, or broken if it was.
unfoldable pub reported : TraceImpl → Trace
reported trace = trace_to_schema (record trace {
  state = if trace.pending_edges == 0 then final_state trace.state else trace.state;
})

-- The trace stays if it has pending edges.
unfoldable pub kept : TraceImpl → Option TraceImpl
kept trace = if trace.pending_edges == 0 then none else some trace

abbrev pub kept_at : Option TraceImpl → Option TraceImpl
kept_at none = none
kept_at (some trace) = kept trace

abbrev pub reported_at : Option TraceImpl → Option Trace
reported_at none = none
reported_at (some trace) = some (reported trace)

close_found-reported :
    (trace : TraceImpl) (traces : Traces) → (close_found trace traces).1 ≡ reported trace
unfolding close_found reported
close_found-reported trace traces = ground arith

module _ (traces : Traces) (edges : Edges) (v : Inv traces edges) (id : ℕ) (trace : TraceImpl)
    (here : find id traces ≡ some trace) where
  own_name : trace.trace_id ≡ id
  own_name = ground (arith, v.named id, here)

  close_found-find :
      (t : ℕ)
      → find t (close_found trace traces).0 ≡ (if id == t then kept trace else find t traces)
  unfolding close_found kept
  close_found-find t = ground (arith, own_name, here, find-erase trace.trace_id t traces)

  close_found-Inv : length edges < mod64 → Inv (close_found trace traces).0 edges
  unfolding close_found
  close_found-Inv small = elim (Bool-cases (trace.pending_edges == 0)) [
    | inl none_left ↦
        rw (none_left, own_name) (close-Inv _ _ v id trace here (ground (arith, none_left)) small)
    | inr some_left ↦ rw (some_left, not_below trace.pending_edges) v
  ]
    where
      not_below : (n : ℕ) → ltb n 0 ≡ false
      not_below n = ground arith

abbrev pub Ensures {ℓ} : {A : Type ℓ} → (A → Type 0) → Option A → Type 0
Ensures P none = ⊥
Ensures P (some a) = P a

-- The maps after the loop, key by key.
pub record Closed (traces : Traces) (edges : Edges) (ids : List ℕ) (trace_map : List (ℕ × Trace))
    (r : Traces × List (ℕ × Trace)) : Type 0 where
  pub inv : Inv r.0 edges
  pub distinct : Distinct r.1
  pub stays :
      (t : ℕ) → find t r.0 ≡ (if contains t ids then kept_at (find t traces) else find t traces)
  pub reports :
      (t : ℕ)
      → find t r.1 ≡ (if contains t ids then reported_at (find t traces) else find t trace_map)

pub Ensures-mono {ℓ} :
    {A : Type ℓ} (P Q : A → Type 0)
    → ((a : A) → P a → Q a)
    → (o : Option A) → Ensures P o
    → Ensures Q o
Ensures-mono P Q f none h = h
Ensures-mono P Q f (some a) h = f a h

pub Ensures-bind {ℓ κ} :
    {A : Type ℓ} {B : Type κ} (P : A → Type 0) (Q : B → Type 0) (o : Option A) (f : A → Option B)
    → Ensures P o
    → ((a : A) → P a → Ensures Q (f a))
    → Ensures Q (o >>= f)
Ensures-bind P Q none f h k = h
Ensures-bind P Q (some a) f h k = k a h

-- The value that is there.
pub Ensures-value {ℓ} :
    {A : Type ℓ} (P : A → Type 0) (o : Option A) → Ensures P o → (a : A) × (o ≡ some a) × P a
Ensures-value P none h = absurd h
Ensures-value P (some a) h = (a, refl, h)

Closed-cons :
    (traces : Traces) (edges : Edges) (trace_map : List (ℕ × Trace)) (id : ℕ) (ids : List ℕ)
    (trace : TraceImpl) (r : Traces × List (ℕ × Trace))
    → Inv traces edges
    → find id traces ≡ some trace
    → contains id ids ≡ false
    → Closed
        (close_found trace traces).0
        edges
        ids
        (insert_or_assign id (close_found trace traces).1 trace_map)
        r
    → Closed traces edges (id ∷ ids) trace_map r
unfolding contains
Closed-cons traces edges trace_map id ids trace r v here once c = record {
  inv = c.inv;
  distinct = c.distinct;
  stays =
      λ t. ground (arith, c.stays t, close_found-find traces edges v id trace here t, once, here);
  reports = λ t. ground (
    arith,
    c.reports t,
    close_found-find traces edges v id trace here t,
    find-insert_or_assign id t (close_found trace traces).1 trace_map,
    close_found-reported trace traces,
    once,
    here,
  );
}

still_live :
    (traces : Traces) (edges : Edges) (id : ℕ) (ids : List ℕ) (trace : TraceImpl)
    → Inv traces edges
    → find id traces ≡ some trace
    → contains id ids ≡ false
    → ((t : ℕ) → contains t (id ∷ ids) ≡ true → IsPresent (find t traces))
    → (t : ℕ) → contains t ids ≡ true
    → IsPresent (find t (close_found trace traces).0)
unfolding contains
still_live traces edges id ids trace v here once live t c =
    ground (arith, live t, close_found-find traces edges v id trace here t, once, c)

first_live :
    (id : ℕ) (ids : List ℕ) (traces : Traces)
    → ((t : ℕ) → contains t (id ∷ ids) ≡ true → IsPresent (find t traces))
    → find id traces ≡ none
    → ⊥
unfolding contains
first_live id ids traces live missing = ground (arith, live id, missing)

pub close_traces-Closed :
    (ids : List ℕ) (traces : Traces) (edges : Edges) (trace_map : List (ℕ × Trace))
    → Distinct trace_map
    → IsSetList ids
    → ((t : ℕ) → contains t ids ≡ true → IsPresent (find t traces))
    → length edges < mod64
    → Inv traces edges
    → Ensures (Closed traces edges ids trace_map) (close_traces ids traces trace_map)
unfolding close_traces contains
close_traces-Closed [] traces edges trace_map d once live small v = record {
  inv = v;
  distinct = d;
  stays = λ t. refl;
  reports = λ t. refl;
}
close_traces-Closed (id ∷ ids) traces edges trace_map d once live small v =
    elim (Option-cases (find id traces)) [
      | inl missing ↦ absurd (first_live id ids traces live missing)
      | inr (trace, here) ↦
          rw (here, close_traces)
            (Ensures-mono _ _ (λ r. Closed-cons traces edges trace_map id ids trace r v here once.0)
              _
              (close_traces-Closed ids (close_found trace traces).0 edges _
                (insert_or_assign-Distinct id _ trace_map d) once.1
                (still_live traces edges id ids trace v here once.0 live) small
                (close_found-Inv traces edges v id trace here small)))
    ]
