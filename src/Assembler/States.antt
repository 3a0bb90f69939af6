-- ===== src/Assembler/States.antt =====
-- The saved states of TraceAssembler: `gc_states`, `restore_state` and `alarm` of
-- tondb-scanner/src/TraceAssembler.cpp. The directory is the list of its entries; reading a file
-- and unpacking its bytes (msgpack) are parameters.
use ton_index_worker.Prelude.{
  ℕ, ◌+◌, Bool, true, ◌&&◌, Option, none, some, List, [], ◌∷◌, ltb, leb, ◌==◌, if◌then◌else◌,
}
use Prim.Native.String.{String}
use text.Mathlib.Text.{◌==◌ as str_eq}
use ton_index_worker.Prelude.Words.{sub32, slt32}
use ton_index_worker.Prelude.Numerals.{stoi, to_string}
use ton_index_worker.Assembler.{Traces, Edges}
use ton_index_worker.Assembler.Tasks.{TraceAssembler}

pub record DirEntry : Type 0 where
  pub is_regular_file : Bool
  pub stem : List ℕ  -- bytes
  pub extension : String

-- `fileMap[seqno] = path` on the map with `std::greater`.
unfoldable pub insert_file : ℕ → DirEntry → List (ℕ × DirEntry) → List (ℕ × DirEntry)
insert_file k e [] = (k, e) ∷ []
insert_file k e ((j, f) ∷ m) =
    if j == k
    then (k, e) ∷ m
    else if slt32 j k
    then (k, e) ∷ (j, f) ∷ m
    else (j, f) ∷ insert_file k e m

-- The number in the name of a state file.
unfoldable pub state_seqno : DirEntry → Option ℕ
unfolding stoi
state_seqno e = if e.is_regular_file && str_eq e.extension ".tastate" then stoi e.stem else none

abbrev pub add_file : DirEntry → Option ℕ → List (ℕ × DirEntry) → List (ℕ × DirEntry)
add_file e none m = m
add_file e (some k) m = insert_file k e m

unfoldable pub state_files : List DirEntry → List (ℕ × DirEntry) → List (ℕ × DirEntry)
unfolding insert_file state_seqno
state_files [] m = m
state_files (e ∷ es) m = state_files es (add_file e (state_seqno e) m)

-- The files that the loop of `gc_states` removes. The comparison with the current number is
-- unsigned.
unfoldable pub gc_loop : ℕ → ℕ → ℕ → List (ℕ × DirEntry) → List (ℕ × DirEntry)
gc_loop current_seqno keep_last count [] = []
gc_loop current_seqno keep_last count ((seqno, e) ∷ m) =
    let removed = gc_loop current_seqno keep_last count m in
    let kept = gc_loop current_seqno keep_last (count + 1) m in
    if ltb current_seqno seqno
    then (seqno, e) ∷ removed
    else if leb keep_last count
    then (seqno, e) ∷ removed
    else kept

unfoldable pub gc_states : List DirEntry → ℕ → ℕ → List (ℕ × DirEntry)
unfolding state_files gc_loop
gc_states dir current_seqno keep_last = gc_loop current_seqno keep_last 0 (state_files dir [])

-- The file that `save_state` writes for a number.
unfoldable pub state_file : ℕ → DirEntry
unfolding to_string
state_file seqno = record { is_regular_file = true; stem = to_string seqno; extension = ".tastate" }

-- What `alarm` sends out: a copy of the pending maps to save, and a request to collect.
pub data Backup : Type 0 where
  save_state : ℕ → Traces → Edges → Backup
  collect_states : ℕ → ℕ → Backup

unfoldable pub alarm : TraceAssembler → List Backup
alarm a =
    if a.expected_seqno == 0
    then []
    else save_state (sub32 a.expected_seqno 1) a.pending.pending_traces a.pending.pending_edges
      ∷ collect_states a.expected_seqno 100
      ∷ []

pub data Restored : Type 0 where
  restored : ℕ → TraceAssembler → Restored
  search_failed : Restored
  not_found : Restored

module _ {Bytes : Type 0} (read_file : DirEntry → Option Bytes)
    (unpack : Bytes → Option (Traces × Edges)) where
  -- A file that is read and unpacked.
  unfoldable pub load : DirEntry → Option (Traces × Edges)
  load e = elim (read_file e) [ none ↦ none | some buffer ↦ unpack buffer ]

  -- The newest file at or below the number that can be loaded.
  unfoldable pub restore_loop : ℕ → List (ℕ × DirEntry) → TraceAssembler → Restored
  restore_loop seqno [] a = not_found
  restore_loop seqno ((k, e) ∷ m) a =
      let next = restore_loop seqno m a in
      if ltb seqno k then next else elim (load e) [
        | none ↦ next
        | some (traces, edges) ↦ restored k (record a {
          pending = record (a.pending) { pending_traces = traces; pending_edges = edges };
        })
      ]

  -- `none` for the directory is an exception while it is listed.
  unfoldable pub restore_state : ℕ → Option (List DirEntry) → TraceAssembler → Restored
  unfolding state_files restore_loop
  restore_state seqno none a = search_failed
  restore_state seqno (some dir) a = restore_loop seqno (state_files dir []) a
