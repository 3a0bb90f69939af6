-- ===== src/Scheduler/Jobs.antt =====
-- The work that a scheduler has given to other actors: a block at a stage, or on its way into the
-- database.
use ton_index_worker.Prelude.{ℕ, ◌≡◌, ap, ◌∙◌, Bool, ◌||◌, List, [], ◌∷◌, ◌++◌, map, arith, ◌==◌}
use mathlib.Core.List.{map-append}
use ton_index_worker.Prelude.Maps.{contains, contains-append}

pub data Job (S : Type 0) : Type 0 where
  at : S → ℕ → Job S
  inserting : ℕ → Job S

abbrev pub job_seqno : {S : Type 0} → Job S → ℕ
job_seqno (at stage n) = n
job_seqno (inserting n) = n

abbrev pub has_job : {S : Type 0} → ℕ → List (Job S) → Bool
has_job n jobs = contains n (map job_seqno jobs)

pub has_job-append :
    {S : Type 0} (n : ℕ) (xs ys : List (Job S))
    → has_job n (xs ++ ys) ≡ (has_job n xs || has_job n ys)
has_job-append n xs ys =
    ap (contains n) (map-append job_seqno xs ys)
    ∙ contains-append n (map job_seqno xs) (map job_seqno ys)

-- The jobs with one taken out.
pub taken :
    {S : Type 0} (n : ℕ) (xs : List (Job S)) (job : Job S) (ys : List (Job S))
    → has_job n (xs ++ job ∷ ys) ≡ (has_job n (xs ++ ys) || job_seqno job == n)
unfolding contains
taken n xs job ys = ground (arith, has_job-append n xs (job ∷ ys), has_job-append n xs ys)

pub queued_own :
    (n m : ℕ) (queue : List ℕ) → contains n (queue ++ m ∷ []) ≡ (contains n queue || m == n)
unfolding contains
queued_own n m queue = ground (arith, contains-append n queue (m ∷ []))
