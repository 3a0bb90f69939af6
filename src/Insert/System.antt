-- ===== src/Insert/System.antt =====
-- The insert manager among its clients, its timer and its insert actors: every order of the
-- messages of InsertManagerBase.cpp. An actor that ends, with an error or without, reports once.
use ton_index_worker.Prelude.{
  ◌≡◌, refl, sym, ap, ◌∙◌, Bool, List, [], ◌∷◌, ◌++◌, append_assoc, arith, length, length-append,
  concat,
}
use ton_index_worker.Queue.{plus}
use ton_index_worker.Insert.{
  InsertTask, InsertManager, Effect, schedule_later, insert, alarm, get_queue_state,
  insert_batch_finished, schedule_next_insert_batches,
}
use ton_index_worker.Insert.Batch.{total-snoc}
use ton_index_worker.Insert.Schedule.{
  IsCounted, IsBounded, schedule-append, schedule-IsCounted, schedule-Counts,
}

-- The manager, its own messages that wait, the actors that run, and two histories.
pub record System : Type 0 where
  pub manager : InsertManager
  pub mailbox : List Bool
  pub running : List (List InsertTask)
  pub inserted : List InsertTask
  pub started : List (List InsertTask)

-- The messages to itself among the effects.
unfoldable pub own_messages : List Effect → List Bool
own_messages [] = []
own_messages (schedule_later full ∷ es) = full ∷ own_messages es
own_messages (e ∷ es) = own_messages es

unfoldable pub on_insert : System → InsertTask → System
unfolding own_messages
on_insert s task =
    let (m, es) = insert s.manager task in
    record s {
      manager = m;
      mailbox = s.mailbox ++ own_messages es;
      inserted = s.inserted ++ task ∷ [];
    }

unfoldable pub on_alarm : System → System
unfolding own_messages
on_alarm s =
    let (m, es) = alarm s.manager in
    record s { manager = m; mailbox = s.mailbox ++ own_messages es }

-- A message of the mailbox is taken; `rest` are the others.
unfoldable pub on_schedule : System → Bool → List Bool → System
on_schedule s full rest =
    let (m, batches) = schedule_next_insert_batches full s.manager in
    record s {
      manager = m;
      mailbox = rest;
      running = s.running ++ batches;
      started = s.started ++ batches;
    }

-- An actor ends; `rest` are the others.
unfoldable pub on_finished : System → List (List InsertTask) → System
unfolding own_messages
on_finished s rest =
    let (m, es) = insert_batch_finished s.manager in
    record s { manager = m; mailbox = s.mailbox ++ own_messages es; running = rest }

pub data Step (s : System) : System → Type 0 where
  inserts : (task : InsertTask) → Step s (on_insert s task)
  rings : Step s (on_alarm s)
  schedules :
      (before : List Bool) (full : Bool) (after : List Bool)
      → s.mailbox ≡ before ++ full ∷ after
      → Step s (on_schedule s full (before ++ after))
  finishes :
      (before : List (List InsertTask)) (batch : List InsertTask) (after : List (List InsertTask))
      → s.running ≡ before ++ batch ∷ after
      → Step s (on_finished s (before ++ after))

pub data Reach (s : System) : System → Type 0 where
  here : Reach s s
  next : {t u : System} → Reach s t → Step t u → Reach s u

pub record Inv (s : System) : Type 0 where
  pub counted : IsCounted s.manager
  pub bounded : IsBounded s.manager
  pub actors : s.manager.parallel_insert_actors ≡ length s.running
  pub history : concat s.started ++ s.manager.insert_queue ≡ s.inserted

concat-append : (xs ys : List (List InsertTask)) → concat (xs ++ ys) ≡ concat xs ++ concat ys
concat-append [] ys = refl
concat-append (x ∷ xs) ys =
    ap (λ r. x ++ r) (concat-append xs ys) ∙ sym (append_assoc x (concat xs) (concat ys))

on_insert-Inv : (s : System) (task : InsertTask) → Inv s → Inv (on_insert s task)
unfolding on_insert insert
on_insert-Inv s task v = record {
  counted =
      ap (λ q. plus q (get_queue_state task)) v.counted
      ∙ sym (total-snoc s.manager.insert_queue task);
  bounded = record { limit_positive = v.bounded.limit_positive; within = v.bounded.within };
  actors = v.actors;
  history =
      sym (append_assoc (concat s.started) s.manager.insert_queue (task ∷ []))
      ∙ ap (λ q. q ++ task ∷ []) v.history;
}

on_alarm-Inv : (s : System) → Inv s → Inv (on_alarm s)
unfolding on_alarm alarm
on_alarm-Inv s v = record {
  counted = v.counted;
  bounded = v.bounded;
  actors = v.actors;
  history = v.history;
}

on_schedule-Inv :
    (s : System) (full : Bool) (rest : List Bool) → Inv s → Inv (on_schedule s full rest)
unfolding on_schedule
on_schedule-Inv s full rest v =
    let batches : List (List InsertTask) = (schedule_next_insert_batches full s.manager).1 in
    let counts = schedule-Counts full s.manager v.bounded in
    record {
      counted = schedule-IsCounted full s.manager v.counted;
      bounded = counts.0;
      actors = omega (arith, counts.1, v.actors, length-append s.running batches);
      history =
          ap (λ q. q ++ (schedule_next_insert_batches full s.manager).0.insert_queue)
            (concat-append s.started batches)
          ∙ append_assoc (concat s.started) (concat batches)
              (schedule_next_insert_batches full s.manager).0.insert_queue
          ∙ ap (λ q. concat s.started ++ q) (schedule-append full s.manager)
          ∙ v.history;
    }

on_finished-Inv :
    (s : System) (before : List (List InsertTask)) (batch : List InsertTask)
    (after : List (List InsertTask))
    → s.running ≡ before ++ batch ∷ after
    → Inv s
    → Inv (on_finished s (before ++ after))
unfolding on_finished insert_batch_finished
on_finished-Inv s before batch after e v =
    let total_length = ap length e in
    let whole = length-append before (batch ∷ after) in
    let parts = length-append before after in
    record {
      counted = v.counted;
      bounded = record {
        limit_positive = v.bounded.limit_positive;
        within =
            omega
              (arith, v.bounded.within, v.bounded.limit_positive, v.actors, total_length, whole);
      };
      actors =
          omega (
            arith, v.bounded.within, v.bounded.limit_positive, v.actors, total_length, whole, parts,
          );
      history = v.history;
    }

Step-Inv : {s t : System} → Step s t → Inv s → Inv t
Step-Inv {s} (inserts task) v = on_insert-Inv s task v
Step-Inv {s} rings v = on_alarm-Inv s v
Step-Inv {s} (schedules before full after e) v = on_schedule-Inv s full (before ++ after) v
Step-Inv {s} (finishes before batch after e) v = on_finished-Inv s before batch after e v

-- After any sequence of calls, alarms, scheduling messages and ended actors, the counter of the
-- queue is the sum over its tasks; the number of actors is the number of batches that run, and at
-- most the limit; and the batches started so far, joined in order and followed by the queue, are
-- the tasks that were inserted, in order, each once.
pub Reach-Inv : {s t : System} → Reach s t → Inv s → Inv t
Reach-Inv here v = v
Reach-Inv (next r st) v = Step-Inv st (Reach-Inv r v)
