-- ===== src/Emulator/InOrder.antt =====
-- TraceScheduler.cpp: what holds after any number of events.
use ton_index_worker.Prelude.{
  ltb, ℕ, suc, ◌+◌, ◌-◌, ◌<◌, ◌≡◌, refl, ap, ◌⊎◌, inl, inr, true, false, List, [], ◌∷◌, arith, ◌==◌,
}
use ton_index_worker.Prelude.Words.{mod32}
use ton_index_worker.Prelude.Counts.{bit, occ}
use ton_index_worker.Integrity.{range}
use ton_index_worker.Emulator.Scheduler.{TraceEmulatorScheduler, got_last_mc_seqno}
use ton_index_worker.Emulator.Feed.{System, Reach, Waits, Runs}
use ton_index_worker.Emulator.Arrival.{Reach-Inv}

-- The blocks come one after the other, and the one after the last is asked for or to be asked for.
pub record InOrder (newest : ℕ) (y : System) : Type 0 where
  pub start : ℕ
  pub later : newest < start
  pub first_come : (others : List ℕ) × (y.arrived ≡ start ∷ others)
  pub in_order : y.log ≡ range (y.scheduler.last_emulated_seqno - start) (suc start)
  pub on_its_way :
      occ (suc y.scheduler.last_emulated_seqno) y.scheduler.seqnos_to_fetch
        + occ (suc y.scheduler.last_emulated_seqno) y.fetching
      ≡ bit (ltb y.scheduler.last_emulated_seqno y.scheduler.last_known_seqno)

-- A scheduler before it knows a number.
pub record IsNewScheduler (s : TraceEmulatorScheduler) : Type 0 where
  pub none_known : s.last_known_seqno ≡ 0
  pub none_emulated : s.last_emulated_seqno ≡ 0
  pub none_to_fetch : s.seqnos_to_fetch ≡ []
  pub no_blocks : s.blocks_to_emulate ≡ []

-- The scheduler when it has got its first number.
abbrev pub begun : ℕ → TraceEmulatorScheduler → System
begun newest s = record {
  scheduler = got_last_mc_seqno newest s;
  fetching = [];
  arrived = [];
  log = [];
}

begun-Waits :
    (newest : ℕ) (s : TraceEmulatorScheduler)
    → IsNewScheduler s
    → 0 < newest
    → newest + 1 < mod32
    → Waits newest (begun newest s)
unfolding got_last_mc_seqno occ
begun-Waits newest s n l small =
    let differs : (newest == s.last_known_seqno) ≡ false = ground (arith, n.none_known, l) in
    let unset : (s.last_known_seqno == 0) ≡ true = ground (arith, n.none_known) in
    rw differs (
      rw unset (record {
        none_emulated = n.none_emulated;
        none_fetched = refl;
        no_blocks = n.no_blocks;
        none_arrived = refl;
        no_log = refl;
        placed = λ k. ground (arith, ap (occ k) n.none_to_fetch);
        known = (omega arith, small);
      }))

Runs-InOrder : (newest start : ℕ) (y : System) → Runs newest start y → InOrder newest y
Runs-InOrder newest start y w = record {
  start = start;
  later = w.begun.0;
  first_come = w.first_come;
  in_order = w.log_is;
  on_its_way =
      ground (arith, w.stops, w.begun, w.known.0, w.placed (suc y.scheduler.last_emulated_seqno));
}

-- From the first number that the scheduler gets on, in every order of new numbers, alarms, answers and
-- errors: as long as no block has come nothing is emulated. Then the emulated blocks are those after
-- the one that came first, each once and in the order of their numbers, and if there is a newer
-- one, the next one is to be fetched or being fetched, and not both. The numbers are positive and not
-- the last word, and that of the database does not fall.
pub Reach-InOrder :
    (newest : ℕ) (s : TraceEmulatorScheduler)
    → IsNewScheduler s
    → 0 < newest
    → newest + 1 < mod32
    → (y : System) → Reach (begun newest s) y
    → ((y.arrived ≡ []) × (y.log ≡ [])) ⊎ InOrder newest y
Reach-InOrder newest s n l small y r =
    elim (Reach-Inv newest l r (inl (begun-Waits newest s n l small))) [
      | inl w ↦ inl (w.none_arrived, w.no_log)
      | inr (start, w) ↦ inr (Runs-InOrder newest start y w)
    ]
