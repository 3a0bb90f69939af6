-- ===== src/Scheduler/Gaps.antt =====
-- IndexScheduler.cpp: the number at which `got_existing_seqnos` ends its continuous sequence.
use ton_index_worker.Prelude.{
  ℕ, suc, ◌+◌, ◌≤◌, ◌<◌, ◌≡◌, ◌≢◌, refl, sym, subst, ◌∙◌, inl, inr, true, false, List, [], ◌∷◌,
  arith, ltb, ◌==◌, Bool-cases, All,
}
use ton_index_worker.Prelude.Words.{mod32, add32}
use ton_index_worker.Prelude.Maps.{contains, IsSetList}
use ton_index_worker.Prelude.Sorted.{
  Increasing, sort, sort-contains, sort-Increasing, sort-All, not_below,
}
use ton_index_worker.Scheduler.{follow, first_missing, next_seqno}

-- From `first` on, `next` is the first number that is not in the list.
pub record IsFirstGap (first next : ℕ) (ns : List ℕ) : Type 0 where
  pub starts : contains first ns ≡ true
  pub above : first < next
  pub lowest : (n : ℕ) → contains n ns ≡ true → first ≤ n
  pub present : (n : ℕ) → first ≤ n → n < next → contains n ns ≡ true
  pub absent : contains next ns ≡ false

-- The loop, from a number on; no member is the last word.
abbrev Follows : ℕ → ℕ → List ℕ → Type 0
Follows next r ns =
    (next ≤ r) × ((n : ℕ) → next ≤ n → n < r → contains n ns ≡ true) × (contains r ns ≡ false)

Follows-cons :
    (next m r : ℕ) (ns : List ℕ) → m ≡ next → Follows (suc next) r ns → Follows next r (m ∷ ns)
unfolding contains
Follows-cons next m r ns e f =
    (omega (arith, f.0), λ n l u. ground (arith, e, l, u, f.1 n), ground (arith, e, f.0, f.2))

Follows-stop :
    (next m : ℕ) (ns : List ℕ)
    → (m == next) ≡ false
    → Increasing next (m ∷ ns)
    → Follows next next (m ∷ ns)
unfolding contains
Follows-stop next m ns e h = (
  omega arith,
  λ n l u. absurd (omega (arith, l, u)),
  ground (arith, e, h.0, not_below (suc m) next ns (omega (arith, h.0)) h.1),
)

nil_follow : (next : ℕ) → follow next [] ≡ next
unfolding follow
nil_follow next = refl

follow-same :
    (next m : ℕ) (ns : List ℕ)
    → m ≡ next
    → m + 1 < mod32
    → follow next (m ∷ ns) ≡ follow (suc next) ns
unfolding follow
follow-same next m ns e l =
    let e' : add32 next 1 ≡ suc next = omega (arith, e, l) in rw e' (ground (arith, e))

follow-other : (next m : ℕ) (ns : List ℕ) → (m == next) ≡ false → follow next (m ∷ ns) ≡ next
unfolding follow
follow-other next m ns e = rw e

follow-Follows :
    (next : ℕ) (ns : List ℕ)
    → Increasing next ns
    → All (λ n. n + 1 < mod32) ns
    → Follows next (follow next ns) ns
unfolding contains
follow-Follows next [] h w =
    (omega (arith, nil_follow next), λ n l m. absurd (omega (arith, l, m, nil_follow next)), refl)
follow-Follows next (m ∷ ns) h w = elim (Bool-cases (m == next)) [
  | inl same ↦
      let e : m ≡ next = ground (arith, same) in
      subst (λ r. Follows next r (m ∷ ns)) (sym (follow-same next m ns e w.0))
        (Follows-cons next m _ ns e
          (follow-Follows (suc next) ns (subst (λ k. Increasing (suc k) ns) e h.1) w.1))
  | inr other ↦
      subst (λ r. Follows next r (m ∷ ns)) (sym (follow-other next m ns other))
        (Follows-stop next m ns other h)
]

lowest_first : (m n : ℕ) (ns : List ℕ) → Increasing (suc m) ns → contains n (m ∷ ns) ≡ true → m ≤ n
lowest_first m n ns h c = elim (Bool-cases (ltb n m)) [
  | inl less ↦ cc (not_below m n (m ∷ ns) (ground (arith, less)) (omega arith, h), c)
  | inr more ↦ ground (arith, more)
]

first_missing-IsFirstGap :
    (from : ℕ) (ns : List ℕ)
    → ns ≢ []
    → Increasing 0 ns
    → All (λ n. n + 1 < mod32) ns
    → (first : ℕ) × IsFirstGap first (first_missing from ns) ns
unfolding first_missing contains
first_missing-IsFirstGap from [] e h w = absurd (e refl)
first_missing-IsFirstGap from (m ∷ ns) e h w =
    let f = follow-Follows m (m ∷ ns) (omega arith, h.1) w in
    let same = follow-same m m ns refl w.0 in
    let g = follow-Follows (suc m) ns h.1 w.1 in
    (
      m,
      record {
        starts = ground arith;
        above = omega (arith, same, g.0);
        lowest = λ n c. lowest_first m n ns h.1 c;
        present = f.1;
        absent = f.2;
      },
    )

sort_nonempty : (ns : List ℕ) → ns ≢ [] → sort ns ≢ []
unfolding contains
sort_nonempty [] e z = e refl
sort_nonempty (n ∷ ns) e z =
    let held : contains n (n ∷ ns) ≡ true = ground arith in
    let lost : contains n (sort (n ∷ ns)) ≡ false = rw z in
    cc (sort-contains n (n ∷ ns), held, lost)

-- If the database holds some numbers, each once and none the last word, then the next number is
-- the first one from the lowest of them on that it does not hold.
pub next_seqno-IsFirstGap :
    (from_seqno : ℕ) (seqnos : List ℕ)
    → seqnos ≢ []
    → IsSetList seqnos
    → All (λ n. n + 1 < mod32) seqnos
    → (first : ℕ) × IsFirstGap first (next_seqno from_seqno seqnos) seqnos
unfolding next_seqno
next_seqno-IsFirstGap from_seqno seqnos e d w =
    let (first, g) =
      first_missing-IsFirstGap from_seqno (sort seqnos) (sort_nonempty seqnos e)
        (sort-Increasing seqnos d) (sort-All _ seqnos w) in
    (
      first,
      record {
        starts = sym (sort-contains first seqnos) ∙ g.starts;
        above = g.above;
        lowest = λ n c. g.lowest n (sort-contains n seqnos ∙ c);
        present = λ n l u. sym (sort-contains n seqnos) ∙ g.present n l u;
        absent = sym (sort-contains _ seqnos) ∙ g.absent;
      },
    )
