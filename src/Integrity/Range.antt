-- ===== src/Integrity/Range.antt =====
-- IntegrityChecker.cpp from the start of the checks to their end.
use ton_index_worker.Prelude.{
  ℕ, zero, suc, ◌+◌, ◌-◌, ◌≤◌, ◌<◌, ◌≡◌, refl, ap, ◌⊎◌, inl, inr, true, ◌&&◌, not, List, [], ◌∷◌,
  ◌++◌, arith, length, ltb, leb, ◌==◌,
}
use ton_index_worker.Prelude.Words.{mod32}
use ton_index_worker.Prelude.Maps.{contains}
use ton_index_worker.Prelude.Counts.{occ, bit, occ-append}
use ton_index_worker.Insert.{is_empty}
use ton_index_worker.Integrity.{
  IntegrityChecker, range, first_checked, got_oldest_mc_seqno_with_state, is_finished,
}
use ton_index_worker.Integrity.System.{
  System, Step, Reach, Inv, Goes, GoesOn, places, after, fetches, parses, retries,
}
use ton_index_worker.Integrity.Quiet.{Sound}
use ton_index_worker.Integrity.Sound.{Reach-Sound, retried-Sound}

pub occ-range :
    (n rounds first : ℕ) → occ n (range rounds first) ≡ bit (leb first n && ltb n (first + rounds))
unfolding occ range
occ-range n zero first = ground arith
occ-range n (suc rounds) first = ground (arith, occ-range n rounds (first + 1))

-- A checker that has checked nothing yet.
pub record IsBlank (c : IntegrityChecker) : Type 0 where
  pub queued : c.queued_seqnos ≡ []
  pub fetching : c.seqnos_fetching ≡ []
  pub to_parse : c.blocks_to_parse ≡ []
  pub parsing : c.seqnos_parsing ≡ []
  pub processed : c.seqnos_processed ≡ []
  pub positive : (0 < c.fetch_parallelism) × (0 < c.parse_parallelism)

-- One for a number to check, 0 for another one.
abbrev pub in_range : ℕ → ℕ → ℕ → ℕ
in_range first last n = bit (leb first n && leb n last)

-- The checks of a range, as the block with the oldest state begins them.
abbrev pub begun : ℕ → IntegrityChecker → System
begun oldest c = after (got_oldest_mc_seqno_with_state oldest c) 0

module _ (oldest : ℕ) (c : IntegrityChecker) (blank : IsBlank c) (some_oldest : oldest + 1 < mod32)
    (some_last : (0 < c.to_seqno) × (c.to_seqno + 1 < mod32)) where
  abbrev first : ℕ
  first = first_checked oldest

  first_positive : 3 ≤ first
  unfolding first_checked
  first_positive = ground arith

  range_once : (n : ℕ) → in_range first c.to_seqno n ≤ 1
  range_once n = ground arith

  begun-Sound : Sound (in_range first c.to_seqno) (begun oldest c)
  unfolding got_oldest_mc_seqno_with_state occ
  begun-Sound =
      let queue : List ℕ = range (c.to_seqno + 1 - first) first in
      let c' : IntegrityChecker = record c {
        from_seqno = first;
        checkpoint_seqno = first;
        queued_seqnos = c.queued_seqnos ++ range (c.to_seqno + 1 - first) first;
      } in
      let goes : (not (first == 0) && not (c.to_seqno == 0)) ≡ true =
        ground (arith, first_positive, some_last.0) in
      let v : Inv (in_range first c.to_seqno) c' = record {
        placed = λ n. ground (
          arith,
          occ-append n c.queued_seqnos queue,
          occ-range n (c.to_seqno + 1 - first) first,
          ap (occ n) blank.queued,
          ap (occ n) blank.fetching,
          ap (occ n) blank.to_parse,
          ap (occ n) blank.parsing,
          ap (occ n) blank.processed,
        );
        fetching = omega (arith, ap length blank.fetching);
        parsing = omega (arith, ap length blank.parsing);
        positive = blank.positive;
      } in
      rw goes (retried-Sound (in_range first c.to_seqno) range_once 0 c' v (inl blank.to_parse))

-- What a state of the checks leads to.
pub data Progress (expected : ℕ → ℕ) (y : System) : Type 0 where
  stopped :
      y.stopped ≡ true
      → ((n : ℕ) → occ n y.checker.seqnos_processed + occ n y.checker.seqnos_parsing ≡ expected n)
      → Progress expected y
  goes_on : (z : System) → Step y z → Progress expected y
  all_processed : ((n : ℕ) → occ n y.checker.seqnos_processed ≡ expected n) → Progress expected y

List-cases : (xs : List ℕ) → (xs ≡ []) ⊎ ((n : ℕ) × (contains n xs ≡ true))
unfolding contains
List-cases [] = inl refl
List-cases (x ∷ xs) = inr (x, ground arith)

ℕ-cases : (n : ℕ) → (n ≡ 0) ⊎ ((m : ℕ) × (n ≡ suc m))
ℕ-cases zero = inl refl
ℕ-cases (suc m) = inr (m, refl)

empty_is : (xs : List ℕ) → is_empty xs ≡ true → xs ≡ []
empty_is [] e = refl
empty_is (x ∷ xs) e = ground (arith, e)

none_left : (n : ℕ) (xs : List ℕ) → xs ≡ [] → occ n xs ≡ 0
unfolding occ
none_left n xs e = rw e refl

module _ (expected : ℕ → ℕ) (y : System) (s : Sound expected y) where
  finished_stopped : is_finished y.checker ≡ true → y.stopped ≡ true → Progress expected y
  unfolding is_finished
  finished_stopped f e =
      let c = y.checker in
      stopped e (λ n. omega (
        arith,
        s.inv.placed n,
        none_left n y.checker.blocks_to_parse (empty_is _ (ground (arith, f))),
        none_left n y.checker.queued_seqnos (empty_is _ (ground (arith, f))),
        none_left n y.checker.seqnos_fetching (empty_is _ (ground (arith, f))),
      ))

  all_idle :
      y.mailbox ≡ 0
      → y.checker.seqnos_fetching ≡ []
      → y.checker.seqnos_parsing ≡ []
      → Goes y.checker y.mailbox
      → GoesOn y.checker
      → Progress expected y
  all_idle m f p g h =
      let queued : y.checker.queued_seqnos ≡ [] = elim g [
        | inl e ↦ e
        | inr (inl l) ↦ absurd (omega (arith, l, m))
        | inr (inr l) ↦ absurd (omega (arith, l, ap length f))
      ] in
      let to_parse : y.checker.blocks_to_parse ≡ [] = elim h [
        | inl e ↦ e
        | inr l ↦ absurd (omega (arith, l, ap length p))
      ] in
      all_processed (λ n. omega (
        arith,
        s.inv.placed n,
        none_left n _ queued,
        none_left n _ to_parse,
        none_left n _ f,
        none_left n _ p,
      ))

  Sound-Progress : Progress expected y
  Sound-Progress = elim s.live [
    | inl e ↦ finished_stopped e.1 e.0
    | inr l ↦ elim (List-cases y.checker.seqnos_fetching) [
      | inr (n, h) ↦ goes_on _ (fetches n l.0 h)
      | inl f ↦ elim (List-cases y.checker.seqnos_parsing) [
        | inr (n, h) ↦ goes_on _ (parses n l.0 h)
        | inl p ↦ elim (ℕ-cases y.mailbox) [
          | inr (m, e) ↦ goes_on _ (retries m l.0 e)
          | inl m ↦ all_idle m f p l.1 l.2
        ]
      ]
    ]
  ]

-- From the start of the checks on, in every order of answers and delayed messages, each number from
-- the first to check up to the newest is in exactly one place: queued, fetched, waiting for the
-- parser, parsed, or processed; no other number is in any. The checker has checked nothing before,
-- both limits are positive, and the numbers are positive and not the last word.
pub Reach-places :
    (oldest : ℕ) (c : IntegrityChecker)
    → IsBlank c
    → oldest + 1 < mod32
    → (0 < c.to_seqno) × (c.to_seqno + 1 < mod32)
    → (z : System) → Reach (begun oldest c) z
    → (n : ℕ) → places n z.checker ≡ in_range (first_checked oldest) c.to_seqno n
Reach-places oldest c b o l z r n =
    (Reach-Sound _ (range_once oldest c b o l) r (begun-Sound oldest c b o l)).inv.placed n

-- From the start of the checks on, in every order of answers and delayed messages, no more blocks are
-- fetched or parsed at once than the limits allow. The checker has checked nothing before, both
-- limits are positive, and the numbers are positive and not the last word.
pub Reach-bounds :
    (oldest : ℕ) (c : IntegrityChecker)
    → IsBlank c
    → oldest + 1 < mod32
    → (0 < c.to_seqno) × (c.to_seqno + 1 < mod32)
    → (z : System) → Reach (begun oldest c) z
    → (length z.checker.seqnos_fetching ≤ z.checker.fetch_parallelism)
      × (length z.checker.seqnos_parsing ≤ z.checker.parse_parallelism)
Reach-bounds oldest c b o l z r =
    let s = Reach-Sound _ (range_once oldest c b o l) r (begun-Sound oldest c b o l) in
    (s.inv.fetching, s.inv.parsing)

-- The checks never get stuck: from their start on, in every order of answers and delayed messages,
-- either the checker has stopped, and every number to check is processed or still parsed; or there
-- is an answer or a message to take; or every number to check is processed. The checker has checked
-- nothing before, both limits are positive, and the numbers are positive and not the last word.
pub Reach-Progress :
    (oldest : ℕ) (c : IntegrityChecker)
    → IsBlank c
    → oldest + 1 < mod32
    → (0 < c.to_seqno) × (c.to_seqno + 1 < mod32)
    → (z : System) → Reach (begun oldest c) z
    → Progress (in_range (first_checked oldest) c.to_seqno) z
Reach-Progress oldest c b o l z r =
    Sound-Progress _ z (Reach-Sound _ (range_once oldest c b o l) r (begun-Sound oldest c b o l))
