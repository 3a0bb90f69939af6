-- ===== src/Integrity/System.antt =====
-- IntegrityChecker.cpp among the actors that answer it, in every order of answers: each number of the
-- range is in one place, the bounds hold, and there is always an answer to wait for.
use ton_index_worker.Prelude.{
  ℕ, suc, ◌+◌, ◌≤◌, ◌<◌, ◌≡◌, ◌⊎◌, Bool, true, false, List, [], ◌∷◌, length,
}
use ton_index_worker.Prelude.Maps.{contains}
use ton_index_worker.Prelude.Counts.{occ}
use ton_index_worker.Integrity.{
  IntegrityChecker, Effect, fetch_later, stop, fetch_next_seqnos, seqno_fetched, seqno_parsed,
}

-- The places of a number.
abbrev pub places : ℕ → IntegrityChecker → ℕ
places n c =
    occ n c.queued_seqnos
    + occ n c.seqnos_fetching
    + occ n c.blocks_to_parse
    + occ n c.seqnos_parsing
    + occ n c.seqnos_processed

-- The delayed messages among the effects, and whether the checker stops.
unfoldable pub delayed : List Effect → ℕ
delayed [] = 0
delayed (fetch_later ∷ es) = suc (delayed es)
delayed (e ∷ es) = delayed es

unfoldable pub stops : List Effect → Bool
stops [] = false
stops (stop ∷ es) = true
stops (e ∷ es) = stops es

pub record System : Type 0 where
  pub checker : IntegrityChecker
  pub mailbox : ℕ
  pub stopped : Bool

abbrev pub after : IntegrityChecker × List Effect → ℕ → System
after (c, es) mailbox = record { checker = c; mailbox = mailbox + delayed es; stopped = stops es }

-- The requests that wait for an answer are those of the two sets; an answer that is an error ends
-- the process.
pub data Step (y : System) : System → Type 0 where
  fetches :
      (n : ℕ)
      → y.stopped ≡ false
      → contains n y.checker.seqnos_fetching ≡ true
      → Step y (after (seqno_fetched n y.checker) y.mailbox)
  parses :
      (n : ℕ)
      → y.stopped ≡ false
      → contains n y.checker.seqnos_parsing ≡ true
      → Step y (after (seqno_parsed n y.checker) y.mailbox)
  retries :
      (mailbox : ℕ)
      → y.stopped ≡ false
      → y.mailbox ≡ suc mailbox
      → Step y (after (fetch_next_seqnos y.checker) mailbox)

pub data Reach (y : System) : System → Type 0 where
  here : Reach y y
  next : {z u : System} → Reach y z → Step z u → Reach y u

-- The numbers with their places, and the bounds.
pub record Inv (expected : ℕ → ℕ) (c : IntegrityChecker) : Type 0 where
  pub placed : (n : ℕ) → places n c ≡ expected n
  pub fetching : length c.seqnos_fetching ≤ c.fetch_parallelism
  pub parsing : length c.seqnos_parsing ≤ c.parse_parallelism
  pub positive : (0 < c.fetch_parallelism) × (0 < c.parse_parallelism)

-- A round of fetches leaves the queue empty, or a message or a fetch that will go on with it.
abbrev pub Goes : IntegrityChecker → ℕ → Type 0
Goes c mailbox = (c.queued_seqnos ≡ []) ⊎ ((0 < mailbox) ⊎ (0 < length c.seqnos_fetching))

-- And the parser likewise.
abbrev pub GoesOn : IntegrityChecker → Type 0
GoesOn c = (c.blocks_to_parse ≡ []) ⊎ (0 < length c.seqnos_parsing)
