-- ===== src/Emulator/Origins.antt =====
-- BlockEmulator.cpp: the trace of a transaction is that of the message that began it, in this block or
-- in an earlier one.
use ton_index_worker.Prelude.{
  ℕ, ◌<◌, ◌≡◌, ◌↔◌, refl, sym, ap, subst, ◌∙◌, ◌⊎◌, inl, inr, true, false, Option, none, some, List,
  [], ◌∷◌, arith, if◌then◌else◌, Bool-cases, All,
}
use ton_index_worker.Prelude.Maps.{find, insert_or_assign, find-insert_or_assign, contains}
use ton_index_worker.Emulator.{
  TransactionInfo, McBlockEmulator, Processed, sort_by_lt, initial_of, write_each, write_out_msgs,
  process_loop, process_txs, emulate_traces,
}
use ton_index_worker.Emulator.Lists.{
  In, sort_by_lt-In, Ascending, Ascending-lt, sort_by_lt-Ascending,
}
use ton_index_worker.Emulator.Loop.{IsNew, IsBlind-nil, process_loop-same}

-- The trace that a transaction belongs to: it begins one, its message was sent in an earlier block
-- by a transaction of the trace, or in this one.
pub data Origin (txs : List TransactionInfo) (old : List (ℕ × ℕ))
    : TransactionInfo → ℕ → Type 0 where
  first : {t : TransactionInfo} {i : ℕ} → t.is_first ≡ true → i ≡ t.in_msg_hash → Origin txs old t i
  before :
      {t : TransactionInfo} {i : ℕ}
      → t.is_first ≡ false
      → find t.in_msg_hash old ≡ some i
      → Origin txs old t i
  caused :
      {t p : TransactionInfo} {i : ℕ}
      → t.is_first ≡ false
      → In p txs
      → contains t.in_msg_hash p.out_msgs ≡ true
      → Origin txs old p i
      → Origin txs old t i

-- How the messages of a block's transactions hang together.
pub record Causal (txs : List TransactionInfo) (old : List (ℕ × ℕ)) : Type 0 where
  pub blank : (t : TransactionInfo) → In t txs → IsNew t
  pub once :
      (p q : TransactionInfo) (h : ℕ)
      → In p txs
      → In q txs
      → contains h p.out_msgs ≡ true
      → contains h q.out_msgs ≡ true
      → p ≡ q
  pub fresh :
      (p : TransactionInfo) (h : ℕ) → In p txs → contains h p.out_msgs ≡ true → find h old ≡ none
  pub later :
      (p t : TransactionInfo)
      → In p txs
      → In t txs
      → contains t.in_msg_hash p.out_msgs ≡ true
      → p.lt < t.lt

find-write_each :
    (hashes : List ℕ) (i h : ℕ) (m : List (ℕ × ℕ))
    → find h (write_each hashes i m) ≡ (if contains h hashes then some i else find h m)
unfolding write_each contains
find-write_each [] i h m = refl
find-write_each (k ∷ hashes) i h m =
    ground
      (arith, find-write_each hashes i h (insert_or_assign k i m), find-insert_or_assign k h i m)

initial_of-first :
    (t : TransactionInfo) (m : List (ℕ × ℕ))
    → t.is_first ≡ true
    → initial_of [] m t ≡ some t.in_msg_hash
unfolding initial_of
initial_of-first t m f = rw f refl

initial_of-later :
    (t : TransactionInfo) (m : List (ℕ × ℕ))
    → t.is_first ≡ false
    → IsNew t
    → initial_of [] m t ≡ find t.in_msg_hash m
unfolding initial_of
initial_of-later t m f n = rw f (rw (IsBlind-nil t.in_msg_hash) (by_find (find t.in_msg_hash m)))
  where
    by_find : (o : Option ℕ) → elim o [ some i ↦ some i | none ↦ t.initial_msg_hash ] ≡ o
    by_find none = n
    by_find (some i) = refl

-- The same transactions with their traces.
module _ (txs : List TransactionInfo) (old : List (ℕ × ℕ)) where
  abbrev pub Traced : List TransactionInfo → List TransactionInfo → Type 0
  Traced [] [] = Unit
  Traced [] (r ∷ rs) = ⊥
  Traced (t ∷ ts) [] = ⊥
  Traced (t ∷ ts) (r ∷ rs) =
      (r ≡ record t { initial_msg_hash = r.initial_msg_hash })
      × ((i : ℕ) → (r.initial_msg_hash ≡ some i) ↔ Origin txs old t i)
      × Traced ts rs

  -- The map after some of the transactions.
  abbrev Learned : List TransactionInfo → List (ℕ × ℕ) → Type 0
  Learned seen m =
      (h i : ℕ)
      → (find h m ≡ some i)
        ↔ (find h old ≡ some i)
          ⊎ ((p : TransactionInfo) × In p seen
              × (contains h p.out_msgs ≡ true)
              × Origin txs old p i)

  module _ (c : Causal txs old) where
    initial_of-Origin :
        (t : TransactionInfo) (seen : List TransactionInfo) (m : List (ℕ × ℕ))
        → In t txs
        → Learned seen m
        → ((p : TransactionInfo) → In p seen → In p txs)
        → ((p : TransactionInfo) → In p txs → contains t.in_msg_hash p.out_msgs ≡ true → In p seen)
        → (i : ℕ) → (initial_of [] m t ≡ some i) ↔ Origin txs old t i
    initial_of-Origin t seen m here learned known parents i = (to (Bool-cases t.is_first), from)
      where
        to :
            (t.is_first ≡ true) ⊎ (t.is_first ≡ false)
            → initial_of [] m t ≡ some i
            → Origin txs old t i
        to (inl f) e = first f (cc (initial_of-first t m f, e))
        to (inr f) e =
            elim ((learned t.in_msg_hash i).0 (sym (initial_of-later t m f (c.blank t here)) ∙ e)) [
              | inl o ↦ before f o
              | inr (p, s, k, o) ↦ caused f (known p s) k o
            ]

        from : Origin txs old t i → initial_of [] m t ≡ some i
        from (first f e) = initial_of-first t m f ∙ ap (λ x. some x) (sym e)
        from (before f e) =
            initial_of-later t m f (c.blank t here) ∙ (learned t.in_msg_hash i).1 (inl e)
        from (caused {p = p} f here_p k o) =
            initial_of-later t m f (c.blank t here)
            ∙ (learned t.in_msg_hash i).1 (inr (p, parents p here_p k, k, o))

    write-Learned :
        (t : TransactionInfo) (seen : List TransactionInfo) (m : List (ℕ × ℕ)) (o : Option ℕ)
        → In t txs
        → Learned seen m
        → ((p : TransactionInfo) → In p seen → In p txs)
        → ((i : ℕ) → (o ≡ some i) ↔ Origin txs old t i)
        → Learned (t ∷ seen) (write_out_msgs t.out_msgs o m)
    unfolding write_out_msgs
    write-Learned t seen m none here learned known traced h i = (
      λ e. elim ((learned h i).0 e) [ inl o ↦ inl o | inr (p, s, k, o) ↦ inr (p, inr s, k, o) ],
      λ w. elim w [
        | inl o ↦ (learned h i).1 (inl o)
        | inr (p, inl same, k, o) ↦
            absurd (cc ((traced i).1 (subst (λ x. Origin txs old x i) same o)))
        | inr (p, inr s, k, o) ↦ (learned h i).1 (inr (p, s, k, o))
      ],
    )
    write-Learned t seen m (some j) here learned known traced h i =
        let written = find-write_each t.out_msgs j h m in
        let own : Origin txs old t i
            → contains h t.out_msgs ≡ true
            → find h (write_each t.out_msgs j m) ≡ some i =
          λ o k. ground (arith, written, k, (traced i).1 o) in
        (
          λ e. elim (Bool-cases (contains h t.out_msgs)) [
            | inl k ↦
                let same : some j ≡ some i = ground (arith, written, k, e) in
                inr (t, inl refl, k, (traced i).0 same)
            | inr k ↦ elim ((learned h i).0 (ground (arith, written, k, e))) [
              | inl o ↦ inl o
              | inr (p, s, k', o) ↦ inr (p, inr s, k', o)
            ]
          ],
          λ w. elim w [
            | inl o ↦ elim (Bool-cases (contains h t.out_msgs)) [
              | inl k ↦ absurd (cc (c.fresh t h here k, o))
              | inr k ↦ ground (arith, written, k, (learned h i).1 (inl o))
            ]
            | inr (p, inl same, k, o) ↦
                own (subst (λ x. Origin txs old x i) same o)
                  (subst (λ x. contains h x.out_msgs ≡ true) same k)
            | inr (p, inr s, k, o) ↦ elim (Bool-cases (contains h t.out_msgs)) [
              | inl k' ↦
                  own (subst (λ x. Origin txs old x i) (c.once p t h (known p s) here k k') o) k'
              | inr k' ↦ ground (arith, written, k', (learned h i).1 (inr (p, s, k, o)))
            ]
          ],
        )

    process_loop-Traced :
        (ts seen : List TransactionInfo) (by_in : List (ℕ × TransactionInfo)) (m : List (ℕ × ℕ))
        → ((p : TransactionInfo) → In p ts → In p txs)
        → ((p : TransactionInfo) → In p seen → In p txs)
        → ((p : TransactionInfo) → In p txs → In p seen ⊎ In p ts)
        → (low : ℕ) → Ascending low ts
        → Learned seen m
        → Traced ts (process_loop [] ts by_in m).txs
    unfolding process_loop
    process_loop-Traced [] seen by_in m here known split low a learned = tt
    process_loop-Traced (t ∷ ts) seen by_in m here known split low a learned =
        let o : Option ℕ = initial_of [] m t in
        let t_here : In t txs = here t (inl refl) in
        let parents : (p : TransactionInfo)
            → In p txs
            → contains t.in_msg_hash p.out_msgs ≡ true
            → In p seen =
          λ p i e. elim (split p i) [
            | inl s ↦ s
            | inr (inl same) ↦
                absurd (omega (arith, c.later p t i t_here e, ap (λ x. TransactionInfo.lt x) same))
            | inr (inr below) ↦
                absurd (omega (arith, c.later p t i t_here e, Ascending-lt t.lt p ts a.1 below))
          ] in
        let traced = initial_of-Origin t seen m t_here learned known parents in
        (
          refl,
          traced,
          process_loop-Traced ts (t ∷ seen) _ _ (λ p i. here p (inr i))
              (λ p i. elim i [ inl e ↦ subst (λ x. In x txs) (sym e) t_here | inr k ↦ known p k ])
              (λ p i. elim (split p i) [
                | inl s ↦ inl (inr s)
                | inr (inl same) ↦ inl (inl same)
                | inr (inr below) ↦ inr below
              ])
              t.lt a.1 (write-Learned t seen m o t_here learned known traced),
        )

All-In :
    (P : TransactionInfo → Type 0) (ts : List TransactionInfo)
    → ((t : TransactionInfo) → In t ts → P t)
    → All P ts
All-In P [] h = tt
All-In P (t ∷ ts) h = (h t (inl refl), All-In P ts λ u i. h u (inr i))

sorted-Causal :
    (txs : List TransactionInfo) (old : List (ℕ × ℕ)) → Causal txs old → Causal (sort_by_lt txs) old
sorted-Causal txs old c = record {
  blank = λ t i. c.blank t (sort_by_lt-In t txs i);
  once = λ p q h i j. c.once p q h (sort_by_lt-In p txs i) (sort_by_lt-In q txs j);
  fresh = λ p h i. c.fresh p h (sort_by_lt-In p txs i);
  later = λ p t i j. c.later p t (sort_by_lt-In p txs i) (sort_by_lt-In t txs j);
}

-- The transactions after `process_txs` are those before it, by `lt`, and each is in a trace just if
-- it belongs to it: a transaction that begins a trace belongs to that of its own message, another one
-- to the trace that the map of earlier blocks has for its message, or to that of the transaction of
-- this masterchain block that sent it. No transaction has a trace before, a message is sent by
-- one transaction at most, it is new in the map, and it is received at a greater `lt`.
pub process_txs-Traced :
    (e : McBlockEmulator)
    → Causal e.txs e.interblock_trace_ids
    → Traced (sort_by_lt e.txs) e.interblock_trace_ids (sort_by_lt e.txs) (process_txs e).0.txs
unfolding process_txs emulate_traces
process_txs-Traced e given =
    let sorted : List TransactionInfo = sort_by_lt e.txs in
    let old : List (ℕ × ℕ) = e.interblock_trace_ids in
    let c = sorted-Causal e.txs old given in
    subst (λ r. Traced sorted old sorted (Processed.txs r))
      (sym (process_loop-same sorted e.tx_by_in_msg_hash old (All-In IsNew sorted c.blank)))
      (process_loop-Traced sorted old c sorted [] e.tx_by_in_msg_hash old (λ p i. i)
        (λ p i. elim i [ ]) (λ p i. inr i) 0 (sort_by_lt-Ascending e.txs)
        λ h i. (λ o. inl o, λ w. elim w [ inl o ↦ o | inr (p, s, _, _) ↦ elim s [ ] ]))
