-- ===== src/Integrity/Search.antt =====
-- IntegrityChecker.cpp: the binary search for the oldest block with a state ends, and finds it.
use ton_index_worker.Prelude.{
  ℕ, zero, suc, ◌+◌, ◌-◌, ◌/◌, ◌^◌, ◌≤◌, ◌<◌, ◌≡◌, refl, sym, ap, ◌∙◌, ◌⊎◌, inl, inr, Bool, true,
  false, Option, some, arith, ltb, ◌==◌, Bool-cases,
}
use ton_index_worker.Prelude.Words.{mod32, add32}
use ton_index_worker.Integrity.{found, find_oldest_seqno_with_state}

module _ (has_state : ℕ → Option Bool) where
  -- Every block of the range is there, and once one has a state, so have the later ones.
  pub record IsSuffix (min_seqno max_seqno : ℕ) : Type 0 where
    pub answers :
        (n : ℕ)
        → min_seqno ≤ n
        → n ≤ max_seqno
        → (has_state n ≡ some true) ⊎ (has_state n ≡ some false)
    pub later :
        (m n : ℕ)
        → min_seqno ≤ m
        → m ≤ n
        → n ≤ max_seqno
        → has_state m ≡ some true
        → has_state n ≡ some true

  -- The oldest block of the range that has a state.
  pub record IsOldest (min_seqno max_seqno k : ℕ) : Type 0 where
    pub low : min_seqno ≤ k
    pub high : k ≤ max_seqno
    pub present : has_state k ≡ some true
    pub none_older : (n : ℕ) → min_seqno ≤ n → n < k → has_state n ≡ some false

  -- One round, by what the middle block answers.
  round_here :
      (fuel min_seqno max_seqno : ℕ)
      → min_seqno ≤ max_seqno
      → has_state (min_seqno + (max_seqno - min_seqno) / 2) ≡ some true
      → min_seqno ≡ min_seqno + (max_seqno - min_seqno) / 2
      → find_oldest_seqno_with_state has_state (suc fuel) min_seqno max_seqno
        ≡ found (min_seqno + (max_seqno - min_seqno) / 2)
  unfolding find_oldest_seqno_with_state
  round_here fuel min_seqno max_seqno l h e =
      let in_order : ltb max_seqno min_seqno ≡ false = ground (arith, l) in
      let same : (min_seqno == min_seqno + (max_seqno - min_seqno) / 2) ≡ true =
        ground (arith, e) in
      rw in_order (rw h (rw same refl))

  round_left :
      (fuel min_seqno max_seqno : ℕ)
      → min_seqno ≤ max_seqno
      → has_state (min_seqno + (max_seqno - min_seqno) / 2) ≡ some true
      → (min_seqno == min_seqno + (max_seqno - min_seqno) / 2) ≡ false
      → find_oldest_seqno_with_state has_state (suc fuel) min_seqno max_seqno
        ≡ find_oldest_seqno_with_state has_state fuel min_seqno
            (min_seqno + (max_seqno - min_seqno) / 2)
  unfolding find_oldest_seqno_with_state
  round_left fuel min_seqno max_seqno l h e =
      let in_order : ltb max_seqno min_seqno ≡ false = ground (arith, l) in
      rw in_order (rw h (rw e refl))

  round_right :
      (fuel min_seqno max_seqno : ℕ)
      → min_seqno ≤ max_seqno
      → has_state (min_seqno + (max_seqno - min_seqno) / 2) ≡ some false
      → max_seqno + 1 < mod32
      → find_oldest_seqno_with_state has_state (suc fuel) min_seqno max_seqno
        ≡ find_oldest_seqno_with_state has_state fuel
            (suc (min_seqno + (max_seqno - min_seqno) / 2))
            max_seqno
  unfolding find_oldest_seqno_with_state
  round_right fuel min_seqno max_seqno l h small =
      let in_order : ltb max_seqno min_seqno ≡ false = ground (arith, l) in
      let next : add32 (min_seqno + (max_seqno - min_seqno) / 2) 1
          ≡ suc (min_seqno + (max_seqno - min_seqno) / 2) =
        omega (arith, l, small) in
      rw in_order (rw h (rw next refl))

  search_finds :
      (fuel min_seqno max_seqno : ℕ)
      → IsSuffix min_seqno max_seqno
      → min_seqno ≤ max_seqno
      → max_seqno + 1 < mod32
      → max_seqno - min_seqno < 2 ^ fuel
      → has_state max_seqno ≡ some true
      → (k : ℕ) × (find_oldest_seqno_with_state has_state (suc fuel) min_seqno max_seqno ≡ found k)
        × IsOldest min_seqno max_seqno k
  search_finds zero min_seqno max_seqno s l small narrow top =
      let e : max_seqno ≡ min_seqno + (max_seqno - min_seqno) / 2 = omega (arith, l, narrow) in
      let e' : min_seqno ≡ min_seqno + (max_seqno - min_seqno) / 2 = omega (arith, l, narrow) in
      (
        min_seqno + (max_seqno - min_seqno) / 2,
        round_here zero min_seqno max_seqno l (ap has_state (sym e) ∙ top) e',
        record {
          low = omega arith;
          high = omega (arith, l);
          present = ap has_state (sym e) ∙ top;
          none_older = λ n l' u. absurd (omega (arith, e', l', u));
        },
      )
  search_finds (suc fuel) min_seqno max_seqno s l small narrow top =
      let mid : ℕ = min_seqno + (max_seqno - min_seqno) / 2 in
      let low : min_seqno ≤ mid = omega arith in
      let high : mid ≤ max_seqno = omega (arith, l) in
      elim (s.answers mid low high) [
        | inl here ↦ elim (Bool-cases (min_seqno == mid)) [
          | inl same ↦ (
            mid,
            round_here (suc fuel) min_seqno max_seqno l here (ground (arith, same)),
            record {
              low = low;
              high = high;
              present = here;
              none_older = λ n l' u. absurd (ground (arith, same, l', u));
            },
          )
          | inr other ↦
              let ih =
                search_finds fuel min_seqno mid
                  (record {
                    answers = λ n l' u. s.answers n l' (omega (arith, u, high));
                    later = λ m n l' o u. s.later m n l' o (omega (arith, u, high));
                  })
                  low (omega (arith, small, high)) (ground (arith, narrow, l, other)) here in
              let o = ih.2 in
              (
                ih.0,
                round_left (suc fuel) min_seqno max_seqno l here other ∙ ih.1,
                record {
                  low = o.low;
                  high = omega (arith, o.high, high);
                  present = o.present;
                  none_older = o.none_older;
                },
              )
        ]
        | inr missing ↦
            let above : mid < max_seqno = elim (Bool-cases (ltb mid max_seqno)) [
              | inl less ↦ ground (arith, less)
              | inr not' ↦
                  let e : mid ≡ max_seqno = ground (arith, not', high) in
                  absurd (cc (missing, top, ap has_state e))
            ] in
            let ih =
              search_finds fuel (suc mid) max_seqno
                (record {
                  answers = λ n l' u. s.answers n (omega (arith, l', low)) u;
                  later = λ m n l' o u. s.later m n (omega (arith, l', low)) o u;
                })
                (omega (arith, above)) small (ground (arith, narrow, l)) top in
            let o = ih.2 in
            (
              ih.0,
              round_right (suc fuel) min_seqno max_seqno l missing small ∙ ih.1,
              record {
                low = omega (arith, o.low, low);
                high = o.high;
                present = o.present;
                none_older = λ n l' u. elim (Bool-cases (ltb mid n)) [
                  | inl right ↦ o.none_older n (ground (arith, right)) u
                  | inr left ↦ elim (s.answers n l' (omega (arith, u, o.high))) [
                    | inl has ↦
                        absurd (cc (s.later n mid l' (ground (arith, left)) high has, missing))
                    | inr lacks ↦ lacks
                  ]
                ];
              },
            )
      ]

  -- If every block of the range is there, the blocks with a state are the later ones, and the newest
  -- block has one, then the search ends after at most 33 rounds with the oldest block that has a
  -- state. The newest number is not the last word.
  pub find_oldest_seqno_with_state-IsOldest :
      (min_seqno max_seqno : ℕ)
      → IsSuffix min_seqno max_seqno
      → min_seqno ≤ max_seqno
      → max_seqno + 1 < mod32
      → has_state max_seqno ≡ some true
      → (k : ℕ) × (find_oldest_seqno_with_state has_state 33 min_seqno max_seqno ≡ found k)
        × IsOldest min_seqno max_seqno k
  find_oldest_seqno_with_state-IsOldest min_seqno max_seqno s l small top =
      search_finds 32 min_seqno max_seqno s l small (omega (arith, small)) top
