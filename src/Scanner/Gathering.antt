-- ===== src/Scanner/Gathering.antt =====
-- DbScanner.cpp: `got_shard_block` sorts the blocks into the two lists of the result.
use ton_index_worker.Prelude.{
  ℕ, ◌≡◌, ap, ◌∙◌, ◌⊎◌, inl, inr, Bool, true, false, List, [], ◌∷◌, ◌++◌, arith, ◌==◌,
  if◌then◌else◌, Bool-cases,
}
use ton_index_worker.Prelude.Maps.{contains, contains-append}
use ton_index_worker.Scanner.Collected.{contains-middle}

-- One list of the result: it holds the masterchain block, and of the handles those that pass the
-- test, but for the ones whose data are waited for.
pub record Placed (mc_block : ℕ) (test : ℕ → Bool) (handles waiting out : List ℕ) : Type 0 where
  pub own : contains mc_block out ≡ true
  pub from_handles : (h : ℕ) → contains h waiting ≡ true → contains h handles ≡ true
  pub sound :
      (h : ℕ)
      → contains h out ≡ true
      → (h ≡ mc_block) ⊎ ((contains h handles ≡ true) × (test h ≡ true))
  pub complete :
      (h : ℕ)
      → contains h handles ≡ true
      → test h ≡ true
      → (contains h waiting ≡ true) ⊎ (contains h out ≡ true)

pub begin-Placed :
    (mc_block : ℕ) (test : ℕ → Bool) (handles : List ℕ)
    → Placed mc_block test handles handles (mc_block ∷ [])
unfolding contains
begin-Placed mc_block test handles = record {
  own = ground arith;
  from_handles = λ h e. e;
  sound = λ h e. inl (ground (arith, e));
  complete = λ h e t. inl e;
}

module _ (mc_block : ℕ) (test : ℕ → Bool) (handle : ℕ) (handles before after out : List ℕ) where
  -- The data of a handle that passes the test.
  taken-Placed :
      test handle ≡ true
      → Placed mc_block test handles (before ++ handle ∷ after) out
      → Placed mc_block test handles (before ++ after) (out ++ handle ∷ [])
  unfolding contains
  taken-Placed t p = record {
    own = ground (arith, p.own, contains-append mc_block out (handle ∷ []));
    from_handles =
        λ h e. p.from_handles h (ground (arith, e, contains-middle h handle before after));
    sound = λ h e. elim (Bool-cases (contains h out)) [
      | inl old ↦ p.sound h old
      | inr new ↦
          let i : h ≡ handle = ground (arith, e, new, contains-append h out (handle ∷ [])) in
          inr (
            p.from_handles h (ground (arith, i, contains-middle h handle before after)),
            ap test i ∙ t,
          )
    ];
    complete = λ h e u. elim (p.complete h e u) [
      | inl w ↦ elim (Bool-cases (handle == h)) [
        | inl same ↦ inr (ground (arith, same, contains-append h out (handle ∷ [])))
        | inr other ↦ inl (ground (arith, other, w, contains-middle h handle before after))
      ]
      | inr o ↦ inr (ground (arith, o, contains-append h out (handle ∷ [])))
    ];
  }

  skipped-Placed :
      test handle ≡ false
      → Placed mc_block test handles (before ++ handle ∷ after) out
      → Placed mc_block test handles (before ++ after) out
  skipped-Placed t p = record {
    own = p.own;
    from_handles =
        λ h e. p.from_handles h (ground (arith, e, contains-middle h handle before after));
    sound = p.sound;
    complete = λ h e u. elim (p.complete h e u) [
      | inl w ↦ elim (Bool-cases (handle == h)) [
        | inl same ↦ let i : handle ≡ h = ground (arith, same) in absurd (cc (u, t, ap test i))
        | inr other ↦ inl (ground (arith, other, w, contains-middle h handle before after))
      ]
      | inr o ↦ inr o
    ];
  }

  pub step-Placed :
      Placed mc_block test handles (before ++ handle ∷ after) out
      → Placed mc_block test handles
          (before ++ after)
          (if test handle then out ++ handle ∷ [] else out)
  step-Placed p = elim (Bool-cases (test handle)) [
    | inl t ↦ rw t (taken-Placed t p)
    | inr t ↦ rw t (skipped-Placed t p)
  ]
