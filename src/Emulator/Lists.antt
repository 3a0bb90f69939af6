-- ===== src/Emulator/Lists.antt =====
-- BlockEmulator.cpp: the lists of transactions, and what sorting them by `lt` does.
use ton_index_worker.Prelude.{
  ℕ, ◌≤◌, ◌≡◌, refl, ap, subst, ◌⊎◌, inl, inr, List, [], ◌∷◌, arith, ltb, Bool-cases,
}
use ton_index_worker.Emulator.{TransactionInfo, insert_by_lt, sort_by_lt}

-- A transaction of the list.
abbrev pub In : TransactionInfo → List TransactionInfo → Type 0
In t [] = ⊥
In t (u ∷ us) = (t ≡ u) ⊎ In t us

insert_by_lt-In :
    (t u : TransactionInfo) (us : List TransactionInfo) → In t (insert_by_lt u us) → In t (u ∷ us)
unfolding insert_by_lt
insert_by_lt-In t u [] h = h
insert_by_lt-In t u (v ∷ us) h = elim (Bool-cases (ltb v.lt u.lt)) [
  | inl less ↦
      later (insert_by_lt-In t u us) (subst (In t) {y = v ∷ insert_by_lt u us} (rw less refl) h)
  | inr more ↦ subst (In t) {y = u ∷ v ∷ us} (rw more refl) h
]
  where
    later :
        (In t (insert_by_lt u us) → In t (u ∷ us))
        → In t (v ∷ insert_by_lt u us)
        → In t (u ∷ v ∷ us)
    later below (inl e) = inr (inl e)
    later below (inr i) = elim (below i) [ inl e ↦ inl e | inr k ↦ inr (inr k) ]

pub sort_by_lt-In :
    (t : TransactionInfo) (us : List TransactionInfo) → In t (sort_by_lt us) → In t us
unfolding sort_by_lt
sort_by_lt-In t [] h = h
sort_by_lt-In t (u ∷ us) h = elim (insert_by_lt-In t u (sort_by_lt us) h) [
  | inl e ↦ inl e
  | inr k ↦ inr (sort_by_lt-In t us k)
]

-- No `lt` is below the bound or below one before it.
abbrev pub Ascending : ℕ → List TransactionInfo → Type 0
Ascending low [] = Unit
Ascending low (t ∷ ts) = (low ≤ t.lt) × Ascending t.lt ts

insert_by_lt-Ascending :
    (low : ℕ) (t : TransactionInfo) (ts : List TransactionInfo)
    → low ≤ t.lt
    → Ascending low ts
    → Ascending low (insert_by_lt t ts)
unfolding insert_by_lt
insert_by_lt-Ascending low t [] l h = (l, tt)
insert_by_lt-Ascending low t (u ∷ us) l h = elim (Bool-cases (ltb u.lt t.lt)) [
  | inl less ↦ rw less (h.0, insert_by_lt-Ascending u.lt t us (ground (arith, less)) h.1)
  | inr more ↦ rw more (l, (ground (arith, more), h.1))
]

pub sort_by_lt-Ascending : (ts : List TransactionInfo) → Ascending 0 (sort_by_lt ts)
unfolding sort_by_lt
sort_by_lt-Ascending [] = tt
sort_by_lt-Ascending (t ∷ ts) =
    insert_by_lt-Ascending 0 t (sort_by_lt ts) (omega arith) (sort_by_lt-Ascending ts)

pub Ascending-lt :
    (low : ℕ) (t : TransactionInfo) (ts : List TransactionInfo)
    → Ascending low ts
    → In t ts
    → low ≤ t.lt
Ascending-lt low t [] h i = elim i [ ]
Ascending-lt low t (u ∷ us) h (inl e) = omega (arith, h.0, ap (λ x. TransactionInfo.lt x) e)
Ascending-lt low t (u ∷ us) h (inr i) = omega (arith, h.0, Ascending-lt u.lt t us h.1 i)
