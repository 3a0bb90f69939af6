-- ===== src/Emulator/Fed.antt =====
-- TraceScheduler.cpp: every event keeps the order of the emulated blocks and the places of the others.
use ton_index_worker.Prelude.{
  ℕ, zero, suc, ◌+◌, ◌≤◌, ◌<◌, ◌≡◌, refl, sym, ap, ◌∙◌, inl, inr, true, false, List, [], ◌∷◌, ◌++◌,
  arith, length, ltb, ◌==◌, if◌then◌else◌, Bool-cases,
}
use ton_index_worker.Prelude.Words.{mod32}
use ton_index_worker.Prelude.Maps.{contains, insert, remove, insert_or_assign}
use ton_index_worker.Prelude.Counts.{occ, occ-append, occ-insert, occ-remove, contains-occ}
use ton_index_worker.Integrity.{range}
use ton_index_worker.Scanner.{MasterchainBlockDataState}
use ton_index_worker.Emulator.Scheduler.{
  TraceEmulatorScheduler, Effect, get_last_mc_seqno, fetch_seqno, set_overlay_state,
  set_redis_state, emulate, got_last_mc_seqno, fetch_error, emulate_loop, emulate_blocks,
  tell_listeners, seqno_fetched, alarm, fetch_seqnos,
}
use ton_index_worker.Emulator.Order.{emulated}
use ton_index_worker.Emulator.Feed.{
  System, Waits, Runs, Inv, requested, requested-alarm, learned_occ,
}

pub range-append : (a b n m k : ℕ) → m ≡ n + a → k ≡ a + b → range a n ++ range b m ≡ range k n
unfolding range
range-append zero b n m k e f =
    let e' : m ≡ n = omega (arith, e) in let f' : k ≡ b = omega (arith, f) in cc (e', f')
range-append (suc a) b n m k e f =
    let f' : k ≡ suc (a + b) = omega (arith, f) in
    ap (λ ns. n ∷ ns) (range-append a b (n + 1) m (a + b) (omega (arith, e)) refl)
    ∙ ap (λ j. range j n) (sym f')

emulated-append : (es fs : List Effect) → emulated (es ++ fs) ≡ emulated es ++ emulated fs
unfolding emulated
emulated-append [] fs = refl
emulated-append (emulate n b ∷ es) fs = ap (λ ns. n ∷ ns) (emulated-append es fs)
emulated-append (get_last_mc_seqno ∷ es) fs = emulated-append es fs
emulated-append (fetch_seqno n ∷ es) fs = emulated-append es fs
emulated-append (set_overlay_state b ∷ es) fs = emulated-append es fs
emulated-append (set_redis_state b ∷ es) fs = emulated-append es fs

emulated-tell :
    (block : MasterchainBlockDataState) (s : TraceEmulatorScheduler)
    → emulated (tell_listeners block s) ≡ []
unfolding emulated tell_listeners
emulated-tell block s = elim (Bool-cases s.overlay_listener) [
  | inl o ↦ elim (Bool-cases s.redis_listener) [
    | inl r ↦ rw o (rw r refl)
    | inr r ↦ rw o (rw r refl)
  ]
  | inr o ↦ elim (Bool-cases s.redis_listener) [
    | inl r ↦ rw o (rw r refl)
    | inr r ↦ rw o (rw r refl)
  ]
]

-- The scheduler as `emulate_blocks` begins its loop, after a block has come.
abbrev pub with_block :
    ℕ → MasterchainBlockDataState → TraceEmulatorScheduler → TraceEmulatorScheduler
with_block n block s =
    let fetched = if ltb s.last_fetched_seqno n then n else s.last_fetched_seqno in
    record s {
      last_fetched_seqno = fetched;
      blocks_to_emulate = insert_or_assign n block s.blocks_to_emulate;
      last_emulated_seqno = if s.last_emulated_seqno == 0 then fetched else s.last_emulated_seqno;
    }

abbrev pub loop_result :
    ℕ → MasterchainBlockDataState → TraceEmulatorScheduler → TraceEmulatorScheduler × List Effect
loop_result n block s =
    emulate_loop (length (insert_or_assign n block s.blocks_to_emulate)) (with_block n block s)

pub seqno_fetched-loop :
    (n : ℕ) (block : MasterchainBlockDataState) (s : TraceEmulatorScheduler)
    → ((seqno_fetched n block s).0 ≡ (loop_result n block s).0)
      × (emulated (seqno_fetched n block s).1 ≡ emulated (loop_result n block s).1)
unfolding seqno_fetched emulate_blocks emulated
seqno_fetched-loop n block s = (
  refl,
  elim (Bool-cases (ltb s.last_fetched_seqno n)) [
    | inl newer ↦
        rw newer (emulated-append (tell_listeners block s) _ ∙ rw (emulated-tell block s) refl)
    | inr older ↦ rw older refl
  ],
)

module _ (newest : ℕ) (some_newest : 0 < newest) where
  pub learns-Waits :
      (new : ℕ) (y : System)
      → y.scheduler.last_known_seqno ≤ new
      → new + 1 < mod32
      → Waits newest y
      → Waits newest (record y { scheduler = got_last_mc_seqno new y.scheduler })
  unfolding got_last_mc_seqno
  learns-Waits new y l small w = elim (Bool-cases (new == y.scheduler.last_known_seqno)) [
    | inl same ↦ rw same w
    | inr other ↦
        let known : (y.scheduler.last_known_seqno == 0) ≡ false =
          ground (arith, w.known.0, some_newest) in
        rw other (
          rw known (record {
            none_emulated = w.none_emulated;
            none_fetched = w.none_fetched;
            no_blocks = w.no_blocks;
            none_arrived = w.none_arrived;
            no_log = w.no_log;
            placed = λ n. ground (
              arith,
              w.placed n,
              w.known.0,
              l,
              learned_occ y.scheduler.last_known_seqno new n y.scheduler.seqnos_to_fetch l small
                  (λ k a. ground (arith, w.placed k, a)) (λ k. ground (arith, w.placed k)),
            );
            known = (omega (arith, w.known.0, l), small);
          }))
  ]

  pub learns-Runs :
      (new start : ℕ) (y : System)
      → y.scheduler.last_known_seqno ≤ new
      → new + 1 < mod32
      → Runs newest start y
      → Runs newest start (record y { scheduler = got_last_mc_seqno new y.scheduler })
  unfolding got_last_mc_seqno
  learns-Runs new start y l small w = elim (Bool-cases (new == y.scheduler.last_known_seqno)) [
    | inl same ↦ rw same w
    | inr other ↦
        let known : (y.scheduler.last_known_seqno == 0) ≡ false =
          ground (arith, w.known.0, some_newest) in
        rw other (
          rw known (record {
            first_come = w.first_come;
            begun = w.begun;
            log_is = w.log_is;
            up_to_known = omega (arith, w.up_to_known, l);
            stops = w.stops;
            placed = λ n. ground (
              arith,
              w.placed n,
              w.known.0,
              l,
              learned_occ y.scheduler.last_known_seqno new n y.scheduler.seqnos_to_fetch l small
                  (λ k a. ground (arith, w.placed k, a)) (λ k. ground (arith, w.placed k)),
            );
            known = (omega (arith, w.known.0, l), small);
          }))
  ]

  -- The numbers that the database is asked for are those that were to be fetched.
  rung_occ :
      (n : ℕ) (y : System)
      → occ n (y.fetching ++ requested (alarm y.scheduler).1)
        ≡ occ n y.fetching + occ n y.scheduler.seqnos_to_fetch
  rung_occ n y =
      occ-append n y.fetching (requested (alarm y.scheduler).1)
      ∙ ap (λ ns. occ n y.fetching + occ n ns) (requested-alarm y.scheduler)

  -- After an error the number is to be fetched again.
  failed_occ :
      (n k : ℕ) (y : System)
      → contains k y.fetching ≡ true
      → ((j : ℕ) → occ j y.scheduler.seqnos_to_fetch + occ j y.fetching ≤ 1)
      → occ n (insert k y.scheduler.seqnos_to_fetch) + occ n (remove k y.fetching)
        ≡ occ n y.scheduler.seqnos_to_fetch + occ n y.fetching
  failed_occ n k y h once =
      let at : 1 ≤ occ k y.fetching = contains-occ k y.fetching h in
      let new : occ k y.scheduler.seqnos_to_fetch ≡ 0 = omega (arith, at, once k) in
      ground (
        arith,
        once k,
        at,
        occ-insert n k y.scheduler.seqnos_to_fetch new,
        occ-remove n k y.fetching,
      )

  pub rings-Inv :
      (y : System)
      → Inv newest y
      → Inv newest (record y {
        scheduler = (alarm y.scheduler).0;
        fetching = y.fetching ++ requested (alarm y.scheduler).1;
      })
  unfolding alarm fetch_seqnos occ
  rings-Inv y (inl w) = inl (record {
    none_emulated = w.none_emulated;
    none_fetched = w.none_fetched;
    no_blocks = w.no_blocks;
    none_arrived = w.none_arrived;
    no_log = w.no_log;
    placed = λ n. omega (arith, w.placed n, rung_occ n y);
    known = w.known;
  })
  rings-Inv y (inr (start, w)) = inr (
    start,
    record {
      first_come = w.first_come;
      begun = w.begun;
      log_is = w.log_is;
      up_to_known = w.up_to_known;
      stops = w.stops;
      placed = λ n. omega (arith, w.placed n, rung_occ n y);
      known = w.known;
    },
  )

  pub fails-Inv :
      (k : ℕ) (y : System)
      → contains k y.fetching ≡ true
      → Inv newest y
      → Inv newest
          (record y { scheduler = fetch_error k y.scheduler; fetching = remove k y.fetching })
  unfolding fetch_error
  fails-Inv k y h (inl w) = inl (record {
    none_emulated = w.none_emulated;
    none_fetched = w.none_fetched;
    no_blocks = w.no_blocks;
    none_arrived = w.none_arrived;
    no_log = w.no_log;
    placed = λ n. omega (arith, w.placed n, failed_occ n k y h (λ j. ground (arith, w.placed j)));
    known = w.known;
  })
  fails-Inv k y h (inr (start, w)) = inr (
    start,
    record {
      first_come = w.first_come;
      begun = w.begun;
      log_is = w.log_is;
      up_to_known = w.up_to_known;
      stops = w.stops;
      placed = λ n. omega (arith, w.placed n, failed_occ n k y h (λ j. ground (arith, w.placed j)));
      known = w.known;
    },
  )
