-- ===== src/Emulator/Scheduler.antt =====
-- ton-trace-emulator/src/TraceScheduler.cpp and TraceScheduler.h: new masterchain blocks are fetched,
-- in any order and again after an error, and emulated one after the other. The configuration that is
-- taken out of the masterchain block's state is left out.
use ton_index_worker.Prelude.{
  ℕ, zero, suc, ◌-◌, Bool, true, none, some, List, [], ◌∷◌, ◌++◌, length, ltb, ◌==◌, if◌then◌else◌,
}
use ton_index_worker.Prelude.Words.{add32}
use ton_index_worker.Prelude.Maps.{find, erase, insert_or_assign, insert}
use ton_index_worker.Integrity.{range}
use ton_index_worker.Insert.{is_empty}
use ton_index_worker.Scanner.{MasterchainBlockDataState}

pub record TraceEmulatorScheduler : Type 0 where
  pub last_known_seqno : ℕ  -- uint32
  pub last_fetched_seqno : ℕ  -- uint32
  pub last_emulated_seqno : ℕ  -- uint32
  pub seqnos_to_fetch : List ℕ
  pub blocks_to_emulate : List (ℕ × MasterchainBlockDataState)
  pub overlay_listener : Bool  -- whether it was started
  pub redis_listener : Bool

pub data Effect : Type 0 where
  get_last_mc_seqno : Effect
  fetch_seqno : ℕ → Effect
  set_overlay_state set_redis_state : MasterchainBlockDataState → Effect
  emulate : ℕ → MasterchainBlockDataState → Effect

-- A new scheduler starts its listeners if they are configured.
unfoldable pub start_up :
    (global_config_path inet_addr input_redis_queue : List ℕ)
    → TraceEmulatorScheduler
    → TraceEmulatorScheduler
start_up global_config_path inet_addr input_redis_queue s = record s {
  overlay_listener =
      if is_empty global_config_path
      then s.overlay_listener
      else if is_empty inet_addr
      then s.overlay_listener
      else true;
  redis_listener = if is_empty input_redis_queue then s.redis_listener else true;
}

unfoldable pub insert_each : List ℕ → List ℕ → List ℕ
insert_each [] s = s
insert_each (n ∷ ns) s = insert_each ns (insert n s)

-- The first number is only taken down. The source's loop does not end if the new one is the last word.
unfoldable pub got_last_mc_seqno : ℕ → TraceEmulatorScheduler → TraceEmulatorScheduler
unfolding insert_each range
got_last_mc_seqno new s =
    if new == s.last_known_seqno
    then s
    else if s.last_known_seqno == 0
    then record s { last_known_seqno = new; last_fetched_seqno = new }
    else record s {
      seqnos_to_fetch =
          insert_each (range (new - s.last_known_seqno) (add32 s.last_known_seqno 1))
            s.seqnos_to_fetch;
      last_known_seqno = new;
    }

unfoldable pub fetch_each : List ℕ → List Effect
fetch_each [] = []
fetch_each (n ∷ ns) = fetch_seqno n ∷ fetch_each ns

unfoldable pub fetch_seqnos : TraceEmulatorScheduler → TraceEmulatorScheduler × List Effect
unfolding fetch_each
fetch_seqnos s = (record s { seqnos_to_fetch = [] }, fetch_each s.seqnos_to_fetch)

unfoldable pub fetch_error : ℕ → TraceEmulatorScheduler → TraceEmulatorScheduler
fetch_error seqno s = record s { seqnos_to_fetch = insert seqno s.seqnos_to_fetch }

-- The loop of `emulate_blocks`; each round takes a block out of the map, whose size is the fuel.
unfoldable pub emulate_loop : ℕ → TraceEmulatorScheduler → TraceEmulatorScheduler × List Effect
emulate_loop zero s = (s, [])
emulate_loop (suc fuel) s =
    let next = add32 s.last_emulated_seqno 1 in
    elim (find next s.blocks_to_emulate) [
      | none ↦ (s, [])
      | some block ↦
          let rest = emulate_loop fuel (record s {
            blocks_to_emulate = erase next s.blocks_to_emulate;
            last_emulated_seqno = next;
          }) in
          (rest.0, emulate next block ∷ rest.1)
    ]

unfoldable pub emulate_blocks : TraceEmulatorScheduler → TraceEmulatorScheduler × List Effect
unfolding emulate_loop
emulate_blocks s = emulate_loop (length s.blocks_to_emulate) (record s {
  last_emulated_seqno =
      if s.last_emulated_seqno == 0 then s.last_fetched_seqno else s.last_emulated_seqno;
})

-- What the listeners are told of a block that is newer than the last one fetched.
unfoldable pub tell_listeners : MasterchainBlockDataState → TraceEmulatorScheduler → List Effect
tell_listeners block s =
    (if s.overlay_listener then set_overlay_state block ∷ [] else [])
    ++ (if s.redis_listener then set_redis_state block ∷ [] else [])

unfoldable pub seqno_fetched :
    ℕ → MasterchainBlockDataState → TraceEmulatorScheduler → TraceEmulatorScheduler × List Effect
unfolding emulate_blocks tell_listeners
seqno_fetched seqno block s =
    let newer = ltb s.last_fetched_seqno seqno in
    let r = emulate_blocks (record s {
      last_fetched_seqno = if newer then seqno else s.last_fetched_seqno;
      blocks_to_emulate = insert_or_assign seqno block s.blocks_to_emulate;
    }) in
    (r.0, (if newer then tell_listeners block s else []) ++ r.1)

unfoldable pub alarm : TraceEmulatorScheduler → TraceEmulatorScheduler × List Effect
unfolding fetch_seqnos
alarm s = let r = fetch_seqnos s in (r.0, get_last_mc_seqno ∷ r.1)
