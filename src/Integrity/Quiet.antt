-- ===== src/Integrity/Quiet.antt =====
-- IntegrityChecker.cpp: what the rounds of fetches and parses keep, and what they send.
use ton_index_worker.Prelude.{
  ℕ, ◌+◌, ◌≤◌, ◌≡◌, refl, ap, ◌∙◌, ◌⊎◌, inl, inr, true, false, ◌||◌, List, [], ◌∷◌, ◌++◌, arith,
  length, ltb, Bool-cases,
}
use ton_index_worker.Prelude.Maps.{insert}
use ton_index_worker.Prelude.Counts.{occ}
use ton_index_worker.Integrity.{
  IntegrityChecker, Effect, fetch_later, stop, abort, get_last_mc_seqno, get_oldest_mc_seqno,
  fetch_seqno, parse, write_checkpoint, exit, fetch_loop, parse_loop, fetch_next_seqnos,
  parse_next_seqnos, is_finished,
}
use ton_index_worker.Integrity.Rounds.{fetch_loop-Fetched, parse_loop-Parsed}
use ton_index_worker.Integrity.System.{delayed, stops, System, Inv, Goes, GoesOn}

module _ (expected : ℕ → ℕ) (once : (n : ℕ) → expected n ≤ 1) where
  pub fetch_next_seqnos-Inv :
      (c : IntegrityChecker)
      → Inv expected c
      → let r = fetch_next_seqnos c in
        Inv expected r.0
        × Goes r.0 (delayed r.1)
        × (r.0.blocks_to_parse ≡ c.blocks_to_parse)
        × (r.0.seqnos_parsing ≡ c.seqnos_parsing)
  unfolding fetch_next_seqnos delayed
  fetch_next_seqnos-Inv c v =
      elim (Bool-cases (ltb c.blocks_to_parse_queue_max_size (length c.blocks_to_parse))) [
        | inl many ↦ rw many (v, inr (inl (omega arith)), refl, refl)
        | inr few ↦
            let f = fetch_loop-Fetched c.queued_seqnos c (λ n. omega (arith, v.placed n, once n)) in
            rw few (
              record {
                placed = λ n. omega (
                  arith,
                  v.placed n,
                  f.counts n,
                  ap (occ n) f.parsing,
                  ap (occ n) f.processed,
                  ap (occ n) f.to_parse,
                );
                fetching = omega (arith, f.bounded v.fetching, f.fetch_limit);
                parsing = omega (arith, v.parsing, f.parse_limit, ap length f.parsing);
                positive = (
                  omega (arith, v.positive.0, f.fetch_limit),
                  omega (arith, v.positive.1, f.parse_limit),
                );
              },
              elim f.ended [
                | inl e ↦ inl e
                | inr full ↦ inr (inr (omega (arith, full, v.positive.0)))
              ],
              f.to_parse,
              f.parsing,
            )
      ]

  pub parse_next_seqnos-Inv :
      (c : IntegrityChecker)
      → Inv expected c
      → let r = parse_next_seqnos c in
        Inv expected r.0
        × GoesOn r.0
        × (r.0.queued_seqnos ≡ c.queued_seqnos)
        × (r.0.seqnos_fetching ≡ c.seqnos_fetching)
  unfolding parse_next_seqnos
  parse_next_seqnos-Inv c v =
      let f = parse_loop-Parsed c.blocks_to_parse c (λ n. omega (arith, v.placed n, once n)) in
      (
        record {
          placed = λ n. omega (
            arith,
            v.placed n,
            f.counts n,
            ap (occ n) f.fetching,
            ap (occ n) f.processed,
            ap (occ n) f.queued,
          );
          fetching = omega (arith, v.fetching, f.fetch_limit, ap length f.fetching);
          parsing = omega (arith, f.bounded v.parsing, f.parse_limit);
          positive = (
            omega (arith, v.positive.0, f.fetch_limit),
            omega (arith, v.positive.1, f.parse_limit),
          );
        },
        elim f.ended [ inl e ↦ inl e | inr full ↦ inr (omega (arith, full, v.positive.1)) ],
        f.queued,
        f.fetching,
      )

-- The loops neither stop the checker nor delay a message, but for one of `fetch_next_seqnos`.
fetch_loop-stops : (q : List ℕ) (c : IntegrityChecker) → stops (fetch_loop q c).1 ≡ false
unfolding fetch_loop stops
fetch_loop-stops [] c = refl
fetch_loop-stops (m ∷ q) c =
    ground (arith, fetch_loop-stops q (record c { seqnos_fetching = insert m c.seqnos_fetching }))

pub fetch_next_seqnos-stops : (c : IntegrityChecker) → stops (fetch_next_seqnos c).1 ≡ false
unfolding fetch_next_seqnos stops
fetch_next_seqnos-stops c = ground (arith, fetch_loop-stops c.queued_seqnos c)

parse_loop-stops :
    (q : List ℕ) (c : IntegrityChecker)
    → (stops (parse_loop q c).1 ≡ false) × (delayed (parse_loop q c).1 ≡ 0)
unfolding parse_loop stops delayed
parse_loop-stops [] c = (refl, refl)
parse_loop-stops (m ∷ q) c =
    ground (arith, parse_loop-stops q (record c { seqnos_parsing = insert m c.seqnos_parsing }))

pub parse_next_seqnos-stops :
    (c : IntegrityChecker)
    → (stops (parse_next_seqnos c).1 ≡ false) × (delayed (parse_next_seqnos c).1 ≡ 0)
unfolding parse_next_seqnos
parse_next_seqnos-stops c = parse_loop-stops c.blocks_to_parse c

pub stops-append : (es fs : List Effect) → stops (es ++ fs) ≡ (stops es || stops fs)
unfolding stops
stops-append [] fs = refl
stops-append (fetch_later ∷ es) fs = stops-append es fs
stops-append (stop ∷ es) fs = refl
stops-append (abort ∷ es) fs = stops-append es fs
stops-append (get_last_mc_seqno ∷ es) fs = stops-append es fs
stops-append (get_oldest_mc_seqno ∷ es) fs = stops-append es fs
stops-append (fetch_seqno n ∷ es) fs = stops-append es fs
stops-append (parse n ∷ es) fs = stops-append es fs
stops-append (write_checkpoint t ∷ es) fs = stops-append es fs
stops-append (exit n ∷ es) fs = stops-append es fs

pub delayed-append : (es fs : List Effect) → delayed (es ++ fs) ≡ delayed es + delayed fs
unfolding delayed
delayed-append [] fs = omega arith
delayed-append (fetch_later ∷ es) fs = omega (arith, delayed-append es fs)
delayed-append (stop ∷ es) fs = delayed-append es fs
delayed-append (abort ∷ es) fs = delayed-append es fs
delayed-append (get_last_mc_seqno ∷ es) fs = delayed-append es fs
delayed-append (get_oldest_mc_seqno ∷ es) fs = delayed-append es fs
delayed-append (fetch_seqno n ∷ es) fs = delayed-append es fs
delayed-append (parse n ∷ es) fs = delayed-append es fs
delayed-append (write_checkpoint t ∷ es) fs = delayed-append es fs
delayed-append (exit n ∷ es) fs = delayed-append es fs

-- A checker that has stopped has nothing left but blocks that are parsed.
abbrev pub IsLive : System → Type 0
IsLive y =
    ((y.stopped ≡ true) × (is_finished y.checker ≡ true))
    ⊎ ((y.stopped ≡ false) × Goes y.checker y.mailbox × GoesOn y.checker)

pub record Sound (expected : ℕ → ℕ) (y : System) : Type 0 where
  pub inv : Inv expected y.checker
  pub live : IsLive y

pub more_mail : (c : IntegrityChecker) (m k : ℕ) → Goes c m → Goes c (k + m)
more_mail c m k (inl e) = inl e
more_mail c m k (inr (inl l)) = inr (inl (omega (arith, l)))
more_mail c m k (inr (inr l)) = inr (inr l)

pub keep-Goes :
    (c d : IntegrityChecker) (m : ℕ)
    → d.queued_seqnos ≡ c.queued_seqnos
    → d.seqnos_fetching ≡ c.seqnos_fetching
    → Goes c m
    → Goes d m
keep-Goes c d m q f (inl e) = inl (q ∙ e)
keep-Goes c d m q f (inr (inl l)) = inr (inl l)
keep-Goes c d m q f (inr (inr l)) = inr (inr (omega (arith, l, ap length f)))

pub keep-GoesOn :
    (c d : IntegrityChecker)
    → d.blocks_to_parse ≡ c.blocks_to_parse
    → d.seqnos_parsing ≡ c.seqnos_parsing
    → GoesOn c
    → GoesOn d
keep-GoesOn c d b p (inl e) = inl (b ∙ e)
keep-GoesOn c d b p (inr l) = inr (omega (arith, l, ap length p))
