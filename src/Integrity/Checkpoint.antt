-- ===== src/Integrity/Checkpoint.antt =====
-- IntegrityChecker.cpp: what the number in the checkpoint says, and what a restart makes of it.
use ton_index_worker.Prelude.{
  ℕ, suc, ◌+◌, ◌%◌, ◌≤◌, ◌<◌, ◌≡◌, refl, sym, ap, subst, ◌∙◌, ◌⊎◌, inl, inr, true, false, List, [],
  ◌∷◌, arith, ltb, ◌==◌, Bool-cases, All,
}
use ton_index_worker.Prelude.Words.{mod32, add32}
use ton_index_worker.Prelude.Maps.{contains, IsSetList}
use ton_index_worker.Prelude.Sorted.{
  Increasing, sort, sort-contains, sort-Increasing, sort-All, not_below,
}
use ton_index_worker.Prelude.Numerals.{to_string, stoul-to_string}
use ton_index_worker.Integrity.{
  IntegrityChecker, start_up, text, first_checked, got_last_mc_seqno, at_least, checkpoint_loop,
  next_checkpoint,
}
use ton_index_worker.Integrity.System.{System, Reach, after, places}
use ton_index_worker.Integrity.Range.{IsBlank, begun, Reach-places}

-- From `from` on, all numbers before the checkpoint are in the set.
abbrev pub Covers : ℕ → ℕ → List ℕ → Type 0
Covers from checkpoint ns = (n : ℕ) → from ≤ n → n < checkpoint → contains n ns ≡ true

at_least-contains :
    (low n : ℕ) (ns : List ℕ) → low ≤ n → contains n (at_least low ns) ≡ contains n ns
unfolding at_least contains
at_least-contains low n [] l = refl
at_least-contains low n (m ∷ ns) l = ground (arith, l, at_least-contains low n ns)

at_least-Increasing : (low b : ℕ) (ns : List ℕ) → Increasing b ns → Increasing low (at_least low ns)
unfolding at_least
at_least-Increasing low b [] h = tt
at_least-Increasing low b (m ∷ ns) h = ground (arith, h, at_least-Increasing low (suc m) ns)

-- What the loop ends with: the checkpoint that was, or the first gap from `expected` on.
abbrev pub Ends : ℕ → ℕ → List ℕ → ℕ → Type 0
Ends checkpoint expected ns k =
    (k ≡ checkpoint) ⊎ ((expected ≤ k) × Covers expected k ns × (contains k ns ≡ false))

one_further :
    (checkpoint expected m k : ℕ) (ns : List ℕ)
    → m ≡ expected
    → Ends checkpoint (suc expected) ns k
    → Ends checkpoint expected (m ∷ ns) k
unfolding contains
one_further checkpoint expected m k ns e (inl stays) = inl stays
one_further checkpoint expected m k ns e (inr (l, c, f)) =
    inr (omega (arith, l), λ n low high. ground (arith, e, low, high, c n), ground (arith, e, l, f))

checkpoint_loop-Ends :
    (checkpoint expected : ℕ) (ns : List ℕ)
    → Increasing expected ns
    → All (λ n. n + 1 < mod32) ns
    → Ends checkpoint expected ns (checkpoint_loop checkpoint expected ns)
unfolding checkpoint_loop contains
checkpoint_loop-Ends checkpoint expected [] i w = inl refl
checkpoint_loop-Ends checkpoint expected (m ∷ ns) i w = elim (Bool-cases (m == expected)) [
  | inl same ↦
      let e : m ≡ expected = ground (arith, same) in
      let next : add32 expected 1 ≡ suc expected = omega (arith, e, w.0) in
      let ih =
        checkpoint_loop-Ends checkpoint (suc expected) ns (subst (λ k. Increasing (suc k) ns) e i.1)
          w.1 in
      let step : checkpoint_loop checkpoint (suc expected) ns
          ≡ checkpoint_loop checkpoint expected (m ∷ ns) =
        rw same (ap (λ k. checkpoint_loop checkpoint k ns) (sym next)) in
      subst (Ends checkpoint expected (m ∷ ns)) step
        (one_further checkpoint expected m (checkpoint_loop checkpoint (suc expected) ns) ns e ih)
  | inr other ↦
      let step : expected ≡ checkpoint_loop checkpoint expected (m ∷ ns) = rw other refl in
      let above : expected < m = ground (arith, other, i.0) in
      subst (Ends checkpoint expected (m ∷ ns)) step (
        inr (
          omega arith,
          λ n low high. absurd (omega (arith, low, high)),
          not_below (suc expected) expected (m ∷ ns) (omega arith) (above, i.1),
        ))
]

at_least-All : (P : ℕ → Type 0) (low : ℕ) (ns : List ℕ) → All P ns → All P (at_least low ns)
unfolding at_least
at_least-All P low [] h = tt
at_least-All P low (m ∷ ns) h = elim (Bool-cases (ltb m low)) [
  | inl less ↦ rw less (at_least-All P low ns h.1)
  | inr more ↦ rw more h
]

-- The walk starts at the checkpoint, on the sorted set.
walk-contains :
    (low n : ℕ) (ns : List ℕ) → low ≤ n → contains n (at_least low (sort ns)) ≡ contains n ns
walk-contains low n ns l = at_least-contains low n (sort ns) l ∙ sort-contains n ns

-- If the numbers from `from` up to the checkpoint are processed, then so are those up to the next one
-- that `alarm` writes down, which is not below it. Either it is the same, or it is a number that is
-- not processed. The processed numbers are a set of numbers below the last word.
pub next_checkpoint-Covers :
    (from : ℕ) (c : IntegrityChecker)
    → IsSetList c.seqnos_processed
    → All (λ n. n + 1 < mod32) c.seqnos_processed
    → Covers from c.checkpoint_seqno c.seqnos_processed
    → let next = next_checkpoint c in
      (c.checkpoint_seqno ≤ next)
      × Covers from next c.seqnos_processed
      × ((next ≡ c.checkpoint_seqno) ⊎ (contains next c.seqnos_processed ≡ false))
unfolding next_checkpoint
next_checkpoint-Covers from c d w h =
    let low : ℕ = c.checkpoint_seqno in
    let ns : List ℕ = c.seqnos_processed in
    let next : ℕ = checkpoint_loop low low (at_least low (sort ns)) in
    let ends : Ends low low (at_least low (sort ns)) next =
      checkpoint_loop-Ends low low (at_least low (sort ns))
        (at_least-Increasing low 0 (sort ns) (sort-Increasing ns d))
        (at_least-All (λ n. n + 1 < mod32) low (sort ns) (sort-All (λ n. n + 1 < mod32) ns w)) in
    elim ends [
      | inl e ↦ (omega (arith, e), λ n l u. h n l (omega (arith, u, e)), inl e)
      | inr (l, covered, gap) ↦ (
        l,
        λ n from_low high. elim (Bool-cases (ltb n low)) [
          | inl before ↦ h n from_low (ground (arith, before))
          | inr later ↦
              let reached : low ≤ n = ground (arith, later) in
              sym (walk-contains low n ns reached) ∙ covered n reached high
        ],
        inr (sym (walk-contains low next ns l) ∙ gap),
      )
    ]

-- The checker as it starts with a file that holds the number, and gets the newest number.
abbrev pub resumed : ℕ → ℕ → IntegrityChecker → System
resumed checkpoint newest c =
    after (got_last_mc_seqno newest (start_up (text (to_string checkpoint)) c).0) 0

resumed-begun :
    (checkpoint newest : ℕ) (c : IntegrityChecker)
    → 0 < checkpoint
    → checkpoint + 1 < mod32
    → resumed checkpoint newest c
      ≡ begun checkpoint
          (record c { from_seqno = checkpoint; checkpoint_seqno = checkpoint; to_seqno = newest })
unfolding start_up got_last_mc_seqno
resumed-begun checkpoint newest c positive small =
    let word : checkpoint % mod32 ≡ checkpoint = omega (arith, small) in
    let set : (checkpoint == 0) ≡ false = ground (arith, positive) in
    rw (stoul-to_string checkpoint (omega (arith, small))) (rw word (rw set refl))

-- A checker that starts with the file that was written for a checkpoint goes on after it: at no time
-- of the run is the number in the file, or one before it, queued, fetched, parsed or processed.
-- The numbers are positive and not the last
-- word, and the new checker is as it is made.
pub resume_skips :
    (checkpoint newest : ℕ) (c : IntegrityChecker)
    → IsBlank c
    → (0 < checkpoint) × (checkpoint + 1 < mod32)
    → (0 < newest) × (newest + 1 < mod32)
    → (z : System) → Reach (resumed checkpoint newest c) z
    → (n : ℕ) → n ≤ checkpoint
    → places n z.checker ≡ 0
unfolding first_checked
resume_skips checkpoint newest c b l u z r n h =
    let c' : IntegrityChecker = record c {
      from_seqno = checkpoint;
      checkpoint_seqno = checkpoint;
      to_seqno = newest;
    } in
    let b' : IsBlank c' = record {
      queued = b.queued;
      fetching = b.fetching;
      to_parse = b.to_parse;
      parsing = b.parsing;
      processed = b.processed;
      positive = b.positive;
    } in
    Reach-places checkpoint c' b' l.1 u z
      (subst (λ y. Reach y z) (resumed-begun checkpoint newest c l.0 l.1) r) n
    ∙ ground (arith, l.0, l.1, h)
