-- ===== src/Integrity/Sound.antt =====
-- IntegrityChecker.cpp: every answer and message keeps the places, the bounds and the progress.
use ton_index_worker.Prelude.{
  ℕ, ◌≤◌, ◌≡◌, refl, subst, ◌∙◌, inl, inr, true, false, List, [], ◌∷◌, ◌++◌, arith, ◌==◌,
  if◌then◌else◌, Bool-cases,
}
use ton_index_worker.Prelude.Maps.{contains, insert, remove, size-remove-le}
use ton_index_worker.Prelude.Counts.{occ, occ-append, occ-insert, occ-remove, contains-occ}
use ton_index_worker.Integrity.{
  IntegrityChecker, Effect, fetch_next_seqnos, parse_next_seqnos, seqno_fetched, seqno_parsed,
  is_finished,
}
use ton_index_worker.Integrity.System.{
  delayed, stops, System, after, Step, Reach, Inv, Goes, GoesOn, fetches, parses, retries, here,
  next,
}
use ton_index_worker.Integrity.Quiet.{
  fetch_next_seqnos-Inv, parse_next_seqnos-Inv, fetch_next_seqnos-stops, parse_next_seqnos-stops,
  stops-append, delayed-append, Sound, more_mail, keep-Goes, keep-GoesOn,
}

-- The same numbers without one.
abbrev but : ℕ → (ℕ → ℕ) → ℕ → ℕ
but n expected m = if n == m then 0 else expected m

module _ (expected : ℕ → ℕ) (once : (n : ℕ) → expected n ≤ 1) where
  but_once : (n m : ℕ) → but n expected m ≤ 1
  but_once n m = ground (arith, once m)

  taken_fetching :
      (n : ℕ) (c : IntegrityChecker)
      → contains n c.seqnos_fetching ≡ true
      → Inv expected c
      → Inv (but n expected) (record c { seqnos_fetching = remove n c.seqnos_fetching })
  taken_fetching n c h v = record {
    placed = λ m. ground (
      arith,
      v.placed m,
      once m,
      contains-occ n c.seqnos_fetching h,
      occ-remove m n c.seqnos_fetching,
    );
    fetching = omega (arith, v.fetching, size-remove-le n c.seqnos_fetching);
    parsing = v.parsing;
    positive = v.positive;
  }

  given_to_parser :
      (n : ℕ) (c : IntegrityChecker)
      → expected n ≡ 1
      → Inv (but n expected) c
      → Inv expected (record c { blocks_to_parse = c.blocks_to_parse ++ n ∷ [] })
  unfolding occ
  given_to_parser n c e v = record {
    placed = λ m. ground (arith, v.placed m, e, occ-append m c.blocks_to_parse (n ∷ []));
    fetching = v.fetching;
    parsing = v.parsing;
    positive = v.positive;
  }

  is_expected_fetching :
      (n : ℕ) (c : IntegrityChecker)
      → contains n c.seqnos_fetching ≡ true
      → Inv expected c
      → expected n ≡ 1
  is_expected_fetching n c h v =
      omega (arith, v.placed n, once n, contains-occ n c.seqnos_fetching h)

  -- The step, from what its two rounds do.
  fetched_parsed :
      (n mailbox : ℕ) (c2 : IntegrityChecker) (es : List Effect)
      → Goes c2 (delayed es)
      → stops es ≡ false
      → Inv expected (record c2 { blocks_to_parse = c2.blocks_to_parse ++ n ∷ [] })
      → let p = parse_next_seqnos (record c2 { blocks_to_parse = c2.blocks_to_parse ++ n ∷ [] }) in
        Sound expected (after (p.0, es ++ p.1) mailbox)
  fetched_parsed n mailbox c2 es g q w =
      let p =
        parse_next_seqnos-Inv expected once
          (record c2 { blocks_to_parse = c2.blocks_to_parse ++ n ∷ [] }) w in
      let r = parse_next_seqnos (record c2 { blocks_to_parse = c2.blocks_to_parse ++ n ∷ [] }) in
      let quiet =
        parse_next_seqnos-stops (record c2 { blocks_to_parse = c2.blocks_to_parse ++ n ∷ [] }) in
      record {
        inv = p.0;
        live = inr (
          stops-append es r.1 ∙ ground (arith, q, quiet.0),
          subst (Goes r.0) (omega (arith, delayed-append es r.1, quiet.1))
              (more_mail r.0 (delayed es) mailbox (keep-Goes c2 r.0 (delayed es) p.2 p.3 g)),
          p.1,
        );
      }

  seqno_fetched-Sound :
      (n mailbox : ℕ) (c : IntegrityChecker)
      → contains n c.seqnos_fetching ≡ true
      → Inv expected c
      → Sound expected (after (seqno_fetched n c) mailbox)
  unfolding seqno_fetched
  seqno_fetched-Sound n mailbox c h v =
      let c1 : IntegrityChecker = record c { seqnos_fetching = remove n c.seqnos_fetching } in
      let f = fetch_next_seqnos-Inv (but n expected) (but_once n) c1 (taken_fetching n c h v) in
      fetched_parsed n mailbox (fetch_next_seqnos c1).0 (fetch_next_seqnos c1).1 f.1
        (fetch_next_seqnos-stops c1)
        (given_to_parser n (fetch_next_seqnos c1).0 (is_expected_fetching n c h v) f.0)

  moved_to_processed :
      (n : ℕ) (c : IntegrityChecker)
      → contains n c.seqnos_parsing ≡ true
      → Inv expected c
      → Inv expected (record c {
        seqnos_parsing = remove n c.seqnos_parsing;
        seqnos_processed = insert n c.seqnos_processed;
      })
  moved_to_processed n c h v =
      let at : 1 ≤ occ n c.seqnos_parsing = contains-occ n c.seqnos_parsing h in
      let new : occ n c.seqnos_processed ≡ 0 = omega (arith, v.placed n, once n, at) in
      record {
        placed = λ m. ground (
          arith,
          v.placed m,
          once m,
          v.placed n,
          once n,
          at,
          occ-remove m n c.seqnos_parsing,
          occ-insert m n c.seqnos_processed new,
        );
        fetching = v.fetching;
        parsing = omega (arith, v.parsing, size-remove-le n c.seqnos_parsing);
        positive = v.positive;
      }

  seqno_parsed-Sound :
      (n mailbox : ℕ) (c : IntegrityChecker)
      → contains n c.seqnos_parsing ≡ true
      → Inv expected c
      → Goes c mailbox
      → Sound expected (after (seqno_parsed n c) mailbox)
  unfolding seqno_parsed stops
  seqno_parsed-Sound n mailbox c h v g =
      let c' : IntegrityChecker = record c {
        seqnos_parsing = remove n c.seqnos_parsing;
        seqnos_processed = insert n c.seqnos_processed;
      } in
      let w = moved_to_processed n c h v in
      elim (Bool-cases (is_finished c')) [
        | inl ends ↦ rw ends (record { inv = w; live = inl (refl, ends) })
        | inr goes ↦
            let p = parse_next_seqnos-Inv expected once c' w in
            let quiet = parse_next_seqnos-stops c' in
            rw goes (record {
              inv = p.0;
              live = inr (
                quiet.0,
                subst (Goes (parse_next_seqnos c').0) (omega (arith, quiet.1))
                    (keep-Goes c (parse_next_seqnos c').0 mailbox p.2 p.3 g),
                p.1,
              );
            })
      ]

  pub retried-Sound :
      (mailbox : ℕ) (c : IntegrityChecker)
      → Inv expected c
      → GoesOn c
      → Sound expected (after (fetch_next_seqnos c) mailbox)
  retried-Sound mailbox c v g =
      let f = fetch_next_seqnos-Inv expected once c v in
      record {
        inv = f.0;
        live = inr (
          fetch_next_seqnos-stops c,
          more_mail (fetch_next_seqnos c).0 (delayed (fetch_next_seqnos c).1) mailbox f.1,
          keep-GoesOn c (fetch_next_seqnos c).0 f.2 f.3 g,
        );
      }

  Step-Sound : {y z : System} → Step y z → Sound expected y → Sound expected z
  Step-Sound {y} (fetches n r h) s = seqno_fetched-Sound n y.mailbox y.checker h s.inv
  Step-Sound {y} (parses n r h) s = elim s.live [
    | inl e ↦ absurd (cc (e.0, r))
    | inr l ↦ seqno_parsed-Sound n y.mailbox y.checker h s.inv l.1
  ]
  Step-Sound {y} (retries mailbox r e) s = elim s.live [
    | inl e' ↦ absurd (cc (e'.0, r))
    | inr l ↦ retried-Sound mailbox y.checker s.inv l.2
  ]

  pub Reach-Sound : {y z : System} → Reach y z → Sound expected y → Sound expected z
  Reach-Sound here s = s
  Reach-Sound (next r st) s = Step-Sound st (Reach-Sound r s)
