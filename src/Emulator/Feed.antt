-- ===== src/Emulator/Feed.antt =====
-- TraceScheduler.cpp among the database and the emulators, in every order of what comes in: blocks are
-- emulated in the order of their numbers, and the next one is always on its way.
use ton_index_worker.Prelude.{
  ℕ, suc, ◌+◌, ◌-◌, ◌≤◌, ◌<◌, ◌≡◌, refl, ap, ◌∙◌, ◌⊎◌, true, ◌&&◌, List, [], ◌∷◌, ◌++◌, arith, ltb,
  leb,
}
use ton_index_worker.Prelude.Words.{mod32, add32}
use ton_index_worker.Prelude.Maps.{contains, insert, remove}
use ton_index_worker.Prelude.Counts.{occ, bit, occ-insert}
use ton_index_worker.Integrity.{range}
use ton_index_worker.Integrity.Range.{occ-range}
use ton_index_worker.Scanner.{MasterchainBlockDataState}
use ton_index_worker.Emulator.Scheduler.{
  TraceEmulatorScheduler, Effect, fetch_seqno, insert_each, got_last_mc_seqno, fetch_each,
  fetch_error, seqno_fetched, alarm, fetch_seqnos,
}
use ton_index_worker.Emulator.Order.{emulated, held}

-- The numbers that the database is asked for.
unfoldable pub requested : List Effect → List ℕ
requested [] = []
requested (fetch_seqno n ∷ es) = n ∷ requested es
requested (e ∷ es) = requested es

-- The scheduler, the requests that wait for an answer, the blocks that have come, and those emulated.
pub record System : Type 0 where
  pub scheduler : TraceEmulatorScheduler
  pub fetching : List ℕ
  pub arrived : List ℕ
  pub log : List ℕ

-- The newest number of the database does not fall, and is not the last word.
pub data Step (y : System) : System → Type 0 where
  learns :
      (new : ℕ)
      → y.scheduler.last_known_seqno ≤ new
      → new + 1 < mod32
      → Step y (record y { scheduler = got_last_mc_seqno new y.scheduler })
  rings : Step y (record y {
    scheduler = (alarm y.scheduler).0;
    fetching = y.fetching ++ requested (alarm y.scheduler).1;
  })
  fetches :
      (n : ℕ) (block : MasterchainBlockDataState)
      → contains n y.fetching ≡ true
      → Step y (record {
        scheduler = (seqno_fetched n block y.scheduler).0;
        fetching = remove n y.fetching;
        arrived = y.arrived ++ n ∷ [];
        log = y.log ++ emulated (seqno_fetched n block y.scheduler).1;
      })
  fails :
      (n : ℕ)
      → contains n y.fetching ≡ true
      → Step y (record y { scheduler = fetch_error n y.scheduler; fetching = remove n y.fetching })

pub data Reach (y : System) : System → Type 0 where
  here : Reach y y
  next : {z u : System} → Reach y z → Step z u → Reach y u

-- The numbers above one up to another.
abbrev pub above_to : ℕ → ℕ → ℕ → ℕ
above_to low high n = bit (ltb low n && leb n high)

module _ (newest : ℕ) where
  -- Before the first block has come.
  pub record Waits (y : System) : Type 0 where
    pub none_emulated : y.scheduler.last_emulated_seqno ≡ 0
    pub none_fetched : y.scheduler.last_fetched_seqno ≡ newest
    pub no_blocks : y.scheduler.blocks_to_emulate ≡ []
    pub none_arrived : y.arrived ≡ []
    pub no_log : y.log ≡ []
    pub placed :
        (n : ℕ)
        → occ n y.scheduler.seqnos_to_fetch + occ n y.fetching
          ≡ above_to newest y.scheduler.last_known_seqno n
    pub known : (newest ≤ y.scheduler.last_known_seqno) × (y.scheduler.last_known_seqno + 1 < mod32)

  -- After the first block has come, which is `start`.
  pub record Runs (start : ℕ) (y : System) : Type 0 where
    pub first_come : (others : List ℕ) × (y.arrived ≡ start ∷ others)
    pub begun : (newest < start) × (start ≤ y.scheduler.last_emulated_seqno)
    pub log_is : y.log ≡ range (y.scheduler.last_emulated_seqno - start) (suc start)
    pub up_to_known : y.scheduler.last_emulated_seqno ≤ y.scheduler.last_known_seqno
    pub stops : held (suc y.scheduler.last_emulated_seqno) y.scheduler.blocks_to_emulate ≡ 0
    pub placed :
        (n : ℕ)
        → occ n y.scheduler.seqnos_to_fetch
            + occ n y.fetching
            + held n y.scheduler.blocks_to_emulate
            + above_to start y.scheduler.last_emulated_seqno n
          ≡ above_to newest y.scheduler.last_known_seqno n
    pub known : (newest ≤ y.scheduler.last_known_seqno) × (y.scheduler.last_known_seqno + 1 < mod32)

  abbrev pub Inv : System → Type 0
  Inv y = Waits y ⊎ ((start : ℕ) × Runs start y)

occ-insert_each :
    (n : ℕ) (ns s : List ℕ)
    → ((k : ℕ) → occ k ns + occ k s ≤ 1)
    → occ n (insert_each ns s) ≡ occ n ns + occ n s
unfolding insert_each occ
occ-insert_each n [] s once = omega arith
occ-insert_each n (m ∷ ns) s once =
    let new : occ m s ≡ 0 = ground (arith, once m) in
    omega (
      arith,
      occ-insert_each n ns (insert m s) (λ k. omega (arith, once k, occ-insert k m s new)),
      occ-insert n m s new,
    )

requested-fetch_each : (ns : List ℕ) → requested (fetch_each ns) ≡ ns
unfolding requested fetch_each
requested-fetch_each [] = refl
requested-fetch_each (n ∷ ns) = ap (λ ms. n ∷ ms) (requested-fetch_each ns)

pub requested-alarm : (s : TraceEmulatorScheduler) → requested (alarm s).1 ≡ s.seqnos_to_fetch
unfolding alarm fetch_seqnos requested
requested-alarm s = requested-fetch_each s.seqnos_to_fetch

-- What the new numbers add to the numbers to fetch.
pub learned_occ :
    (known new n : ℕ) (s : List ℕ)
    → known ≤ new
    → new + 1 < mod32
    → ((k : ℕ) → known < k → occ k s ≡ 0)
    → ((k : ℕ) → occ k s ≤ 1)
    → occ n (insert_each (range (new - known) (add32 known 1)) s) ≡ occ n s + above_to known new n
learned_occ known new n s l small none_above once =
    let first : add32 known 1 ≡ suc known = omega (arith, l, small) in
    let r : (k : ℕ) → occ k (range (new - known) (suc known)) ≡ above_to known new k =
      λ k. ground (arith, l, occ-range k (new - known) (suc known)) in
    ap (λ k. occ n (insert_each (range (new - known) k) s)) first
    ∙ occ-insert_each n (range (new - known) (suc known)) s
        (λ k. ground (arith, r k, none_above k, once k))
    ∙ omega (arith, r n)
