-- ===== src/PostgresV1/Queueing.antt =====
-- ton-index-postgres/src/IndexScheduler.cpp: which blocks are queued, from the start of the program on.
use ton_index_worker.Prelude.{
  ℕ, zero, suc, ◌+◌, ◌-◌, ◌<◌, ◌≡◌, not, ◌&&◌, ◌||◌, some, List, [], ◌∷◌, arith, ltb, leb,
}
use ton_index_worker.Prelude.Words.{mod32, add32}
use ton_index_worker.Prelude.Maps.{contains, insert, contains-append, contains-insert}
use ton_index_worker.Queue.{QueueState}
use ton_index_worker.PostgresV1.{
  IndexScheduler, new_scheduler, known_loop, insert_all, got_existing_seqnos, got_last_known_seqno,
}

known_loop-contains :
    (s : IndexScheduler) (rounds seqno n : ℕ)
    → seqno + rounds < mod32
    → contains n (known_loop s rounds seqno)
      ≡ (leb seqno n && ltb n (seqno + rounds) && not (contains n s.existing_seqnos))
unfolding known_loop contains
known_loop-contains s zero seqno n l = ground arith
known_loop-contains s (suc rounds) seqno n l =
    ground (arith, l, known_loop-contains s rounds (add32 seqno 1) n (omega arith))

insert_all-contains :
    (values existing : List ℕ) (n : ℕ)
    → contains n (insert_all values existing) ≡ (contains n existing || contains n values)
unfolding insert_all contains
insert_all-contains [] existing n = ground arith
insert_all-contains (v ∷ values) existing n =
    ground (arith, insert_all-contains values (insert v existing) n, contains-insert v n existing)

last_known_queued :
    (s : IndexScheduler) (last n : ℕ)
    → s.last_known_seqno + 1 < mod32
    → last + 1 < mod32
    → contains n (got_last_known_seqno last s).queued_seqnos ≡ (
        contains n s.queued_seqnos
        || ltb s.last_known_seqno n && leb n last && not (contains n s.existing_seqnos))
unfolding got_last_known_seqno
last_known_queued s last n h l =
    let first = add32 s.last_known_seqno 1 in
    let rounds = last + 1 - first in
    ground (
      arith,
      h,
      l,
      known_loop-contains s rounds first n (omega arith),
      contains-append n s.queued_seqnos (known_loop s rounds first),
    )

-- A scheduler that was just made, has read the numbers in the database, and hears of a last block
-- queues exactly the numbers after `from_seqno` up to it that the database does not hold. The number
-- `from_seqno` itself is not among them. No number is the last word.
pub got_last_known_seqno-first :
    (from tasks : ℕ) (max_queue : QueueState) (seqnos : List ℕ) (last n : ℕ)
    → from + 1 < mod32
    → last + 1 < mod32
    → let s = got_existing_seqnos (some seqnos) (new_scheduler from tasks max_queue) in
      contains n (got_last_known_seqno last s).queued_seqnos
      ≡ (ltb from n && leb n last && not (contains n seqnos))
unfolding got_existing_seqnos new_scheduler contains
got_last_known_seqno-first from tasks max_queue seqnos last n h l =
    let s = got_existing_seqnos (some seqnos) (new_scheduler from tasks max_queue) in
    ground (arith, last_known_queued s last n h l, insert_all-contains seqnos [] n)
