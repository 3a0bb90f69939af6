-- ===== src/Emulator/Arrival.antt =====
-- TraceScheduler.cpp: a block that comes is put in the map, and those that follow are emulated.
use ton_index_worker.Prelude.{
  ℕ, suc, ◌+◌, ◌-◌, ◌≤◌, ◌<◌, ◌≡◌, ap, ◌∙◌, inl, inr, true, List, [], ◌∷◌, ◌++◌, arith, length,
}
use ton_index_worker.Prelude.Words.{mod32}
use ton_index_worker.Prelude.Maps.{find, contains, remove, insert_or_assign}
use ton_index_worker.Prelude.Counts.{occ, occ-remove, contains-occ}
use ton_index_worker.Integrity.{range}
use ton_index_worker.Scanner.{MasterchainBlockDataState}
use ton_index_worker.Emulator.Scheduler.{TraceEmulatorScheduler, emulate_blocks, seqno_fetched}
use ton_index_worker.Emulator.Order.{emulated, held, held-insert, AreWords, emulate_loop-Emulates}
use ton_index_worker.Emulator.Feed.{
  System, Step, Reach, learns, rings, fetches, fails, here, next, above_to, Runs, Inv,
}
use ton_index_worker.Emulator.Fed.{
  range-append, with_block, loop_result, seqno_fetched-loop, learns-Waits, learns-Runs, rings-Inv,
  fails-Inv,
}

module _ (newest : ℕ) (some_newest : 0 < newest) where
  -- What a block does, from what the loop does with it: the loop begins after `base`.
  fetched-Runs :
      (n base start : ℕ) (block : MasterchainBlockDataState) (y : System)
      → contains n y.fetching ≡ true
      → (with_block n block y.scheduler).last_emulated_seqno ≡ base
      → (others : List ℕ) × (y.arrived ++ n ∷ [] ≡ start ∷ others)
      → (newest < start) × (start ≤ base)
      → y.log ≡ range (base - start) (suc start)
      → ((k : ℕ)
          → occ k y.scheduler.seqnos_to_fetch
              + occ k y.fetching
              + held k y.scheduler.blocks_to_emulate
              + above_to start base k
            ≡ above_to newest y.scheduler.last_known_seqno k)
      → base ≤ y.scheduler.last_known_seqno
      → (newest ≤ y.scheduler.last_known_seqno) × (y.scheduler.last_known_seqno + 1 < mod32)
      → Runs newest start (record {
        scheduler = (seqno_fetched n block y.scheduler).0;
        fetching = remove n y.fetching;
        arrived = y.arrived ++ n ∷ [];
        log = y.log ++ emulated (seqno_fetched n block y.scheduler).1;
      })
  unfolding seqno_fetched emulate_blocks
  fetched-Runs n base start block y h eb f b lg placed low known =
      let s : TraceEmulatorScheduler = y.scheduler in
      let at : 1 ≤ occ n y.fetching = contains-occ n y.fetching h in
      let w : AreWords (insert_or_assign n block s.blocks_to_emulate) = λ k e.
        ground
          (arith, e, held-insert k n block s.blocks_to_emulate, placed k, placed n, at, known.1) in
      let e =
        emulate_loop-Emulates (length (insert_or_assign n block s.blocks_to_emulate))
          (with_block n block s) (omega arith) (omega (arith, eb, low, known.1)) w in
      let r : TraceEmulatorScheduler = (loop_result n block s).0 in
      let from : ℕ = (with_block n block s).last_emulated_seqno in
      record {
        first_come = f;
        begun = (b.0, omega (arith, b.1, e.onwards, eb));
        log_is =
            ap (λ ns. ns ++ emulated (seqno_fetched n block s).1) lg
            ∙ ap (λ ns. range (base - start) (suc start) ++ ns)
                ((seqno_fetched-loop n block s).1 ∙ e.in_order)
            ∙ range-append (base - start) (r.last_emulated_seqno - from) (suc start) (suc from)
                (r.last_emulated_seqno - start) (omega (arith, b.1, eb))
                (omega (arith, b.1, e.onwards, eb));
        up_to_known = ground (
          arith,
          placed r.last_emulated_seqno,
          placed n,
          at,
          b.1,
          eb,
          low,
          e.onwards,
          e.kept r.last_emulated_seqno,
          e.same_known,
          held-insert r.last_emulated_seqno n block s.blocks_to_emulate,
        );
        stops = e.stops;
        placed = λ k. ground (
          arith,
          placed k,
          placed n,
          at,
          b.1,
          eb,
          e.onwards,
          e.kept k,
          held-insert k n block s.blocks_to_emulate,
          occ-remove k n y.fetching,
          ap (occ k) e.same_to_fetch,
          e.same_known,
        );
        known = (omega (arith, known.0, e.same_known), omega (arith, known.1, e.same_known));
      }

  fetches-Inv :
      (n : ℕ) (block : MasterchainBlockDataState) (y : System)
      → contains n y.fetching ≡ true
      → Inv newest y
      → Inv newest (record {
        scheduler = (seqno_fetched n block y.scheduler).0;
        fetching = remove n y.fetching;
        arrived = y.arrived ++ n ∷ [];
        log = y.log ++ emulated (seqno_fetched n block y.scheduler).1;
      })
  unfolding held find range
  fetches-Inv n block y h (inl w) =
      let at : 1 ≤ occ n y.fetching = contains-occ n y.fetching h in
      let above : newest < n = ground (arith, w.placed n, at) in
      let up_to : n ≤ y.scheduler.last_known_seqno = ground (arith, w.placed n, at) in
      let first : (with_block n block y.scheduler).last_emulated_seqno ≡ n =
        ground (arith, w.none_emulated, w.none_fetched, above) in
      let none_yet : 0 ≡ n - n = omega arith in
      inr (
        n,
        fetched-Runs n n n block y h first ([], ap (λ ns. ns ++ n ∷ []) w.none_arrived)
            (above, omega arith) (w.no_log ∙ ap (λ k. range k (suc n)) none_yet)
            (λ k. ground (arith, w.placed k, ap (held k) w.no_blocks)) up_to w.known,
      )
  fetches-Inv n block y h (inr (start, w)) =
      let on : (with_block n block y.scheduler).last_emulated_seqno
          ≡ y.scheduler.last_emulated_seqno =
        ground (arith, w.begun) in
      inr (
        start,
        fetched-Runs n y.scheduler.last_emulated_seqno start block y h on
            (w.first_come.0 ++ n ∷ [], ap (λ ns. ns ++ n ∷ []) w.first_come.1) w.begun w.log_is
            w.placed w.up_to_known w.known,
      )

  Step-Inv : {y z : System} → Step y z → Inv newest y → Inv newest z
  Step-Inv {y} (learns new l small) (inl w) = inl (learns-Waits newest some_newest new y l small w)
  Step-Inv {y} (learns new l small) (inr (start, w)) =
      inr (start, learns-Runs newest some_newest new start y l small w)
  Step-Inv {y} rings v = rings-Inv newest some_newest y v
  Step-Inv {y} (fetches n block h) v = fetches-Inv n block y h v
  Step-Inv {y} (fails n h) v = fails-Inv newest some_newest n y h v

  pub Reach-Inv : {y z : System} → Reach y z → Inv newest y → Inv newest z
  Reach-Inv here v = v
  Reach-Inv (next r s) v = Step-Inv s (Reach-Inv r v)
