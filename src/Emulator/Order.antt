-- ===== src/Emulator/Order.antt =====
-- TraceScheduler.cpp: one call of `emulate_blocks` emulates the blocks that follow the last one.
use ton_index_worker.Prelude.{
  ℕ, zero, suc, ◌+◌, ◌-◌, ◌≤◌, ◌<◌, ◌≡◌, refl, sym, ap, subst, ◌∙◌, ◌&&◌, Option, none, some, List,
  [], ◌∷◌, arith, length, ltb, leb, ◌==◌, if◌then◌else◌,
}
use ton_index_worker.Prelude.Words.{mod32, add32}
use ton_index_worker.Prelude.Maps.{
  find, erase, insert_or_assign, find-erase, find-insert_or_assign, length-erase-le,
}
use ton_index_worker.Prelude.Counts.{bit}
use ton_index_worker.Integrity.{range}
use ton_index_worker.Scanner.{MasterchainBlockDataState}
use ton_index_worker.Emulator.Scheduler.{TraceEmulatorScheduler, Effect, emulate, emulate_loop}

-- The numbers of the blocks that are emulated, in order.
unfoldable pub emulated : List Effect → List ℕ
emulated [] = []
emulated (emulate n b ∷ es) = n ∷ emulated es
emulated (e ∷ es) = emulated es

-- Whether the map has a block.
unfoldable pub held : ℕ → List (ℕ × MasterchainBlockDataState) → ℕ
held n m = elim (find n m) [ none ↦ 0 | some b ↦ 1 ]

pub held-erase :
    (n k : ℕ) (m : List (ℕ × MasterchainBlockDataState))
    → held n (erase k m) ≡ (if k == n then 0 else held n m)
unfolding held
held-erase n k m = ground (arith, find-erase k n m)

pub held-insert :
    (n k : ℕ) (b : MasterchainBlockDataState) (m : List (ℕ × MasterchainBlockDataState))
    → held n (insert_or_assign k b m) ≡ (if k == n then 1 else held n m)
unfolding held
held-insert n k b m = ground (arith, find-insert_or_assign k n b m)

erase-shorter :
    (k : ℕ) (b : MasterchainBlockDataState) (m : List (ℕ × MasterchainBlockDataState))
    → find k m ≡ some b
    → length (erase k m) < length m
unfolding find erase
erase-shorter k b [] e = absurd cc
erase-shorter k b ((j, w) ∷ m) e = ground (arith, e, erase-shorter k b m, length-erase-le k m)

-- What the loop does to a scheduler.
pub record Emulates (s r : TraceEmulatorScheduler) (es : List Effect) : Type 0 where
  pub onwards : s.last_emulated_seqno ≤ r.last_emulated_seqno
  pub in_order :
      emulated es
      ≡ range (r.last_emulated_seqno - s.last_emulated_seqno) (suc s.last_emulated_seqno)
  pub stops : held (suc r.last_emulated_seqno) r.blocks_to_emulate ≡ 0
  pub kept :
      (n : ℕ)
      → held n s.blocks_to_emulate
        ≡ held n r.blocks_to_emulate
          + bit (ltb s.last_emulated_seqno n && leb n r.last_emulated_seqno)
  pub same_known : r.last_known_seqno ≡ s.last_known_seqno
  pub same_to_fetch : r.seqnos_to_fetch ≡ s.seqnos_to_fetch

-- All blocks of the map are below the last word.
abbrev pub AreWords : List (ℕ × MasterchainBlockDataState) → Type 0
AreWords m = (n : ℕ) → held n m ≡ 1 → n + 1 < mod32

none_left :
    (fuel : ℕ) (s : TraceEmulatorScheduler)
    → find (add32 s.last_emulated_seqno 1) s.blocks_to_emulate ≡ none
    → emulate_loop fuel s ≡ (s, [])
unfolding emulate_loop
none_left zero s e = refl
none_left (suc fuel) s e = rw (e, emulate_loop) refl

one_taken :
    (fuel : ℕ) (s : TraceEmulatorScheduler) (b : MasterchainBlockDataState)
    → find (add32 s.last_emulated_seqno 1) s.blocks_to_emulate ≡ some b
    → let next = add32 s.last_emulated_seqno 1 in
      let rest = emulate_loop fuel (record s {
        blocks_to_emulate = erase next s.blocks_to_emulate;
        last_emulated_seqno = next;
      }) in
      emulate_loop (suc fuel) s ≡ (rest.0, emulate next b ∷ rest.1)
unfolding emulate_loop
one_taken fuel s b e = rw (e, emulate_loop) refl

nothing-Emulates :
    (s : TraceEmulatorScheduler)
    → held (suc s.last_emulated_seqno) s.blocks_to_emulate ≡ 0
    → Emulates s s []
unfolding emulated range
nothing-Emulates s h = record {
  onwards = omega arith;
  in_order =
      let none_new : 0 ≡ s.last_emulated_seqno - s.last_emulated_seqno = omega arith in
      ap (λ k. range k (suc s.last_emulated_seqno)) none_new;
  stops = h;
  kept = λ n. ground arith;
  same_known = refl;
  same_to_fetch = refl;
}

one_more-Emulates :
    (s r : TraceEmulatorScheduler) (b : MasterchainBlockDataState) (es : List Effect)
    → held (suc s.last_emulated_seqno) s.blocks_to_emulate ≡ 1
    → Emulates
        (record s {
          blocks_to_emulate = erase (suc s.last_emulated_seqno) s.blocks_to_emulate;
          last_emulated_seqno = suc s.last_emulated_seqno;
        })
        r
        es
    → Emulates s r (emulate (suc s.last_emulated_seqno) b ∷ es)
unfolding emulated range
one_more-Emulates s r b es h e = record {
  onwards = omega (arith, e.onwards);
  in_order =
      let one_more : suc (r.last_emulated_seqno - suc s.last_emulated_seqno)
          ≡ r.last_emulated_seqno - s.last_emulated_seqno =
        omega (arith, e.onwards) in
      let next_first : suc (suc s.last_emulated_seqno) ≡ suc s.last_emulated_seqno + 1 =
        omega arith in
      ap (λ ns. suc s.last_emulated_seqno ∷ ns) e.in_order
      ∙ ap
          (λ k.
            suc s.last_emulated_seqno ∷ range (r.last_emulated_seqno - suc s.last_emulated_seqno) k)
          next_first
      ∙ ap (λ k. range k (suc s.last_emulated_seqno)) one_more;
  stops = e.stops;
  kept = λ n.
      ground (
        arith,
        h,
        e.kept n,
        e.onwards,
        held-erase n (suc s.last_emulated_seqno) s.blocks_to_emulate,
      );
  same_known = e.same_known;
  same_to_fetch = e.same_to_fetch;
}

held_found :
    (n : ℕ) (b : MasterchainBlockDataState) (m : List (ℕ × MasterchainBlockDataState))
    → find n m ≡ some b
    → held n m ≡ 1
unfolding held
held_found n b m e = rw (e, held) refl

held_missing : (n : ℕ) (m : List (ℕ × MasterchainBlockDataState)) → find n m ≡ none → held n m ≡ 0
unfolding held
held_missing n m e = rw (e, held) refl

erase-AreWords :
    (k : ℕ) (m : List (ℕ × MasterchainBlockDataState)) → AreWords m → AreWords (erase k m)
erase-AreWords k m w n h = w n (ground (arith, h, held-erase n k m))

held_empty : (n : ℕ) (m : List (ℕ × MasterchainBlockDataState)) → length m ≤ 0 → held n m ≡ 0
unfolding held find
held_empty n [] l = refl
held_empty n (e ∷ m) l = absurd (omega (arith, l))

after_none :
    (fuel : ℕ) (s : TraceEmulatorScheduler)
    → s.last_emulated_seqno + 1 < mod32
    → find (suc s.last_emulated_seqno) s.blocks_to_emulate ≡ none
    → let r = emulate_loop fuel s in Emulates s r.0 r.1
after_none fuel s small e =
    let next : suc s.last_emulated_seqno ≡ add32 s.last_emulated_seqno 1 = omega (arith, small) in
    let e' : find (add32 s.last_emulated_seqno 1) s.blocks_to_emulate ≡ none =
      ap (λ k. find k s.blocks_to_emulate) (sym next) ∙ e in
    subst (λ r. Emulates s r.0 r.1) (sym (none_left fuel s e'))
      (nothing-Emulates s (held_missing (suc s.last_emulated_seqno) s.blocks_to_emulate e))

-- The scheduler after one block more.
abbrev with_next : TraceEmulatorScheduler → ℕ → TraceEmulatorScheduler
with_next s next = record s {
  blocks_to_emulate = erase next s.blocks_to_emulate;
  last_emulated_seqno = next;
}

after_some :
    (fuel : ℕ) (s : TraceEmulatorScheduler) (b : MasterchainBlockDataState)
    → s.last_emulated_seqno + 1 < mod32
    → find (suc s.last_emulated_seqno) s.blocks_to_emulate ≡ some b
    → (let r = emulate_loop fuel (with_next s (suc s.last_emulated_seqno)) in
        Emulates (with_next s (suc s.last_emulated_seqno)) r.0 r.1)
    → let r = emulate_loop (suc fuel) s in Emulates s r.0 r.1
after_some fuel s b small e h =
    let next : suc s.last_emulated_seqno ≡ add32 s.last_emulated_seqno 1 = omega (arith, small) in
    let e' : find (add32 s.last_emulated_seqno 1) s.blocks_to_emulate ≡ some b =
      ap (λ k. find k s.blocks_to_emulate) (sym next) ∙ e in
    let r = emulate_loop fuel (with_next s (suc s.last_emulated_seqno)) in
    let step : (r.0, emulate (suc s.last_emulated_seqno) b ∷ r.1) ≡ emulate_loop (suc fuel) s =
      ap
        (λ k. (
          (emulate_loop fuel (with_next s k)).0,
          emulate k b ∷ (emulate_loop fuel (with_next s k)).1,
        ))
        next
      ∙ sym (one_taken fuel s b e') in
    subst (λ r. Emulates s r.0 r.1) step
      (one_more-Emulates s r.0 b r.1
        (held_found (suc s.last_emulated_seqno) b s.blocks_to_emulate e) h)

pub emulate_loop-Emulates :
    (fuel : ℕ) (s : TraceEmulatorScheduler)
    → length s.blocks_to_emulate ≤ fuel
    → s.last_emulated_seqno + 1 < mod32
    → AreWords s.blocks_to_emulate
    → let r = emulate_loop fuel s in Emulates s r.0 r.1
unfolding emulate_loop
emulate_loop-Emulates zero s l small w =
    nothing-Emulates s (held_empty (suc s.last_emulated_seqno) s.blocks_to_emulate l)
emulate_loop-Emulates (suc fuel) s l small w =
    by_find (find (suc s.last_emulated_seqno) s.blocks_to_emulate) refl (emulate_loop-Emulates fuel)
  where
    by_find :
        (o : Option MasterchainBlockDataState)
        → find (suc s.last_emulated_seqno) s.blocks_to_emulate ≡ o
        → ((s' : TraceEmulatorScheduler)
            → length s'.blocks_to_emulate ≤ fuel
            → s'.last_emulated_seqno + 1 < mod32
            → AreWords s'.blocks_to_emulate
            → Emulates s' (emulate_loop fuel s').0 (emulate_loop fuel s').1)
        → Emulates s (emulate_loop (suc fuel) s).0 (emulate_loop (suc fuel) s).1
    by_find none e below = after_none (suc fuel) s small e
    by_find (some b) e below =
        let next : ℕ = suc s.last_emulated_seqno in
        after_some fuel s b small e (
          below (with_next s next) (omega (arith, l, erase-shorter next b s.blocks_to_emulate e))
            (w next (held_found next b s.blocks_to_emulate e))
            (erase-AreWords next s.blocks_to_emulate w))
