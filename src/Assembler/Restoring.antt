-- ===== src/Assembler/Restoring.antt =====
-- The saved states of TraceAssembler.cpp: which one `restore_state` restores.
use ton_index_worker.Prelude.{
  ℕ, ◌≤◌, ◌<◌, ◌≡◌, refl, inl, inr, Option, none, some, List, [], ◌∷◌, arith, ◌==◌, ltb,
  Option-cases, Bool-cases,
}
use ton_index_worker.Prelude.Words.{bias32}
use ton_index_worker.Prelude.Maps.{find}
use ton_index_worker.Assembler.{Traces, Edges}
use ton_index_worker.Assembler.Tasks.{TraceAssembler}
use ton_index_worker.Assembler.States.{
  DirEntry, state_files, Restored, restored, search_failed, not_found, load, restore_loop,
  restore_state,
}
use ton_index_worker.Assembler.Backups.{
  Below, Below-absent, Descending, Files, state_files-Descending,
}

module _ {Bytes : Type 0} (read_file : DirEntry → Option Bytes)
    (unpack : Bytes → Option (Traces × Edges)) where
  abbrev loads : DirEntry → Option (Traces × Edges)
  loads = load read_file unpack

  -- No file of the map at or below the number, and above the bound, can be loaded.
  abbrev pub NoneLoads : ℕ → Files → (ℕ → Type 0) → Type 0
  NoneLoads seqno m P =
      (j : ℕ) (f : DirEntry) → find j m ≡ some f → j ≤ seqno → P j → loads f ≡ none

  -- The newest file at or below the number that can be loaded.
  pub record IsNewest (seqno : ℕ) (m : Files) (k : ℕ) (traces : Traces) (edges : Edges)
      : Type 0 where
    pub file : DirEntry
    pub found : find k m ≡ some file
    pub within : k ≤ seqno
    pub loaded : loads file ≡ some (traces, edges)
    pub newest : NoneLoads seqno m (λ j. bias32 k < bias32 j)

  abbrev pub RestoresNewest : ℕ → Files → TraceAssembler → Restored → Type 0
  RestoresNewest seqno m a (restored k a') =
      IsNewest seqno m k a'.pending.pending_traces a'.pending.pending_edges
      × (a'.expected_seqno ≡ a.expected_seqno)
      × (a'.queue ≡ a.queue)
      × (a'.pending.broken_count ≡ a.pending.broken_count)
  RestoresNewest seqno m a search_failed = ⊥
  RestoresNewest seqno m a not_found = NoneLoads seqno m (λ j. Unit {0})

  skip_none :
      (seqno k : ℕ) (e : DirEntry) (m : Files) (P : ℕ → Type 0)
      → (k ≤ seqno → loads e ≡ none)
      → NoneLoads seqno m P
      → NoneLoads seqno ((k, e) ∷ m) P
  unfolding find
  skip_none seqno k e m P bad rest j f h l p = elim (Bool-cases (k == j)) [
    | inl here ↦ ground (arith, here, h, bad)
    | inr there ↦ rest j f (ground (arith, there, h)) l p
  ]

  found_later :
      (k i : ℕ) (e f : DirEntry) (m : Files)
      → find k m ≡ none
      → find i m ≡ some f
      → find i ((k, e) ∷ m) ≡ some f
  unfolding find
  found_later k i e f m absent h = ground (arith, absent, h)

  skip-RestoresNewest :
      (seqno k : ℕ) (e : DirEntry) (m : Files) (a : TraceAssembler) (r : Restored)
      → find k m ≡ none
      → (k ≤ seqno → loads e ≡ none)
      → RestoresNewest seqno m a r
      → RestoresNewest seqno ((k, e) ∷ m) a r
  skip-RestoresNewest seqno k e m a search_failed absent bad h = h
  skip-RestoresNewest seqno k e m a not_found absent bad h = skip_none seqno k e m _ bad h
  skip-RestoresNewest seqno k e m a (restored i a') absent bad h = (
    record {
      file = h.0.file;
      found = found_later k i e h.0.file m absent h.0.found;
      within = h.0.within;
      loaded = h.0.loaded;
      newest = skip_none seqno k e m _ bad h.0.newest;
    },
    h.1,
    h.2,
    h.3,
  )

  first_found : (k : ℕ) (e : DirEntry) (m : Files) → find k ((k, e) ∷ m) ≡ some e
  unfolding find
  first_found k e m = ground arith

  first_newest :
      (seqno k : ℕ) (e : DirEntry) (m : Files)
      → Below k m
      → NoneLoads seqno ((k, e) ∷ m) (λ j. bias32 k < bias32 j)
  unfolding find
  first_newest seqno k e m b j f h l p = ground (arith, Below-absent k j m, h)

  restore_loop_newest :
      (seqno : ℕ) (m : Files) (a : TraceAssembler)
      → Descending m
      → RestoresNewest seqno m a (restore_loop read_file unpack seqno m a)
  unfolding restore_loop find
  restore_loop_newest seqno [] a d = λ j f e l p. cc
  restore_loop_newest seqno ((k, e) ∷ m) a d =
      let later = restore_loop_newest seqno m a d.2 in
      let absent = Below-absent k k m (omega arith) d.1 in
      elim (Bool-cases (ltb seqno k)) [
        | inl above ↦
            rw above (
              skip-RestoresNewest seqno k e m a _ absent (λ l. absurd (ground (arith, above)))
                later)
        | inr within ↦ rw within (elim (Option-cases (load read_file unpack e)) [
          | inl bad ↦
              rw (bad, restore_loop) (skip-RestoresNewest seqno k e m a _ absent (λ l. bad) later)
          | inr (s, good) ↦
              rw (good, restore_loop)
                (
                  record {
                    file = e;
                    found = first_found k e m;
                    within = ground (arith, within);
                    loaded = good;
                    newest = first_newest seqno k e m d.1;
                  },
                  refl,
                  refl,
                  refl,
                )
        ])
      ]

  -- A state is restored exactly from the newest state file at or below the number that can be read
  -- and unpacked, with all else as it was; where there is none, that is reported.
  pub restore_state_newest :
      (seqno : ℕ) (dir : List DirEntry) (a : TraceAssembler)
      → RestoresNewest seqno
          (state_files dir [])
          a
          (restore_state read_file unpack seqno (some dir) a)
  unfolding restore_state
  restore_state_newest seqno dir a =
      restore_loop_newest seqno (state_files dir []) a (state_files-Descending dir [] tt)
