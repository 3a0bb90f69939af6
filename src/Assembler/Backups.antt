-- ===== src/Assembler/Backups.antt =====
-- The saved states of TraceAssembler.cpp: their names, their order, and which files are collected.
use ton_index_worker.Prelude.{
  ℕ, suc, ltb, ◌&&◌, ◌+◌, ◌≤◌, ◌<◌, ◌≡◌, refl, Option, none, some, List, [], ◌∷◌, arith, leb,
  if◌then◌else◌,
}
use ton_index_worker.Prelude.Words.{mod32, bias32, slt32}
use ton_index_worker.Prelude.Maps.{Distinct, find}
use ton_index_worker.Prelude.Numerals.{stoi-to_string, stoi_small}
use ton_index_worker.Assembler.States.{
  DirEntry, state_seqno, state_file, gc_loop, insert_file, add_file, state_files, gc_states,
}

-- A state is found under the number for which it was saved, if that number fits an `int`.
pub state_seqno-state_file : (n : ℕ) → n < 2147483648 → state_seqno (state_file n) ≡ some n
unfolding state_seqno state_file
state_seqno-state_file n small = stoi-to_string n small

abbrev pub Files : Type 0
Files = List (ℕ × DirEntry)

-- The numbers of the map fall, as signed words.
abbrev pub Below : ℕ → Files → Type 0
Below j [] = Unit
Below j ((i, e) ∷ m) = (i < mod32) × (bias32 i < bias32 j) × Below j m

abbrev pub Descending : Files → Type 0
Descending [] = Unit
Descending ((j, e) ∷ m) = (j < mod32) × Below j m × Descending m

pub Below-absent : (j k : ℕ) (m : Files) → bias32 j ≤ bias32 k → Below j m → find k m ≡ none
unfolding find
Below-absent j k [] l b = refl
Below-absent j k ((i, e) ∷ m) l b = ground (arith, Below-absent j k m l b.2)

pub Descending-Distinct : (m : Files) → Descending m → Distinct m
Descending-Distinct [] d = tt
Descending-Distinct ((j, e) ∷ m) d =
    (Below-absent j j m (omega arith) d.1, Descending-Distinct m d.2)

Below-mono : (i j : ℕ) (m : Files) → bias32 i ≤ bias32 j → Below i m → Below j m
Below-mono i j [] l b = tt
Below-mono i j ((k, e) ∷ m) l b = (b.0, omega (arith, b.1), Below-mono i j m l b.2)

insert_file-Below :
    (j k : ℕ) (e : DirEntry) (m : Files)
    → k < mod32
    → bias32 k < bias32 j
    → Below j m
    → Below j (insert_file k e m)
unfolding insert_file
insert_file-Below j k e [] w l b = (w, l, tt)
insert_file-Below j k e ((i, f) ∷ m) w l b = ground (arith, insert_file-Below j k e m w l b.2)

insert_file-Descending :
    (k : ℕ) (e : DirEntry) (m : Files) → k < mod32 → Descending m → Descending (insert_file k e m)
unfolding insert_file
insert_file-Descending k e [] w d = (w, tt, tt)
insert_file-Descending k e ((j, f) ∷ m) w d =
    ground
      (arith, insert_file-Descending k e m w d.2, insert_file-Below j k e m w, Below-mono j k m)

state_seqno_small : (e : DirEntry) (k : ℕ) → state_seqno e ≡ some k → k < mod32
unfolding state_seqno
state_seqno_small e k h = ground (arith, stoi_small e.stem k, h)

add_file-Descending :
    (e : DirEntry) (o : Option ℕ) (m : Files)
    → ((k : ℕ) → o ≡ some k → k < mod32)
    → Descending m
    → Descending (add_file e o m)
add_file-Descending e none m w d = d
add_file-Descending e (some k) m w d = insert_file-Descending k e m (w k refl) d

pub state_files-Descending :
    (dir : List DirEntry) (m : Files) → Descending m → Descending (state_files dir m)
unfolding state_files
state_files-Descending [] m d = d
state_files-Descending (e ∷ dir) m d =
    state_files-Descending dir _ (add_file-Descending e (state_seqno e) m (state_seqno_small e) d)

-- The number of files at or below the current number that are newer than `k`, as signed words.
abbrev pub newer : ℕ → ℕ → Files → ℕ
newer k current [] = 0
newer k current ((j, e) ∷ m) =
    let rest = newer k current m in if slt32 k j && leb j current then suc rest else rest

newer_none : (j k current : ℕ) (m : Files) → bias32 j ≤ bias32 k → Below j m → newer k current m ≡ 0
newer_none j k current [] l b = refl
newer_none j k current ((i, e) ∷ m) l b = ground (arith, newer_none j k current m l b.2)

gc_loop-absent :
    (current keep_last count k : ℕ) (m : Files)
    → find k m ≡ none
    → find k (gc_loop current keep_last count m) ≡ none
unfolding gc_loop find
gc_loop-absent current keep_last count k [] h = refl
gc_loop-absent current keep_last count k ((j, e) ∷ m) h = ground (
  arith,
  gc_loop-absent current keep_last count k m,
  gc_loop-absent current keep_last (count + 1) k m,
)

-- From `count` on, the files at or below the current number are kept while fewer than `keep_last`.
gc_loop-find :
    (current keep_last count k : ℕ) (m : Files)
    → Descending m
    → find k (gc_loop current keep_last count m)
      ≡ (if leb k current && ltb (count + newer k current m) keep_last then none else find k m)
unfolding gc_loop find
gc_loop-find current keep_last count k [] d = ground arith
gc_loop-find current keep_last count k ((j, e) ∷ m) d = ground (
  arith,
  gc_loop-find current keep_last count k m d.2,
  gc_loop-find current keep_last (count + 1) k m d.2,
  newer_none j k current m,
  gc_loop-absent current keep_last count k m,
  gc_loop-absent current keep_last (count + 1) k m,
  Below-absent j k m,
  d.1,
)

zero_plus : (n : ℕ) → 0 + n ≡ n
zero_plus n = omega arith

-- Collecting removes, under each number, the state file of the directory, unless the number is at
-- or below the current one and fewer than `keep_last` of the state files at or below the current
-- one have a greater number. The numbers are compared with each other as signed words, and with the
-- current one as unsigned words.
pub gc_states-find :
    (dir : List DirEntry) (current keep_last k : ℕ)
    → find k (gc_states dir current keep_last) ≡ (
        if leb k current && ltb (newer k current (state_files dir [])) keep_last
        then none
        else find k (state_files dir []))
unfolding gc_states
gc_states-find dir current keep_last k =
    rw (zero_plus (newer k current (state_files dir []))) at
      (gc_loop-find current keep_last 0 k (state_files dir []) (state_files-Descending dir [] tt))
