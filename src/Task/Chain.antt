-- ===== src/Task/Chain.antt =====
-- The chain of libraries that a task is tested on after its own.
use web_tester.Prelude.{
  ◌≤◌, ◌≡◌, refl, ap, true, false, ◌||◌, List, [], ◌∷◌, ◌++◌, ℤ, eq_ℤ, length, length-append, leb,
  arith, Bool-cases, inl, inr, ◌⊎◌,
}
use web_tester.Task.Defs.{Task, Added, added, refused, overrun, max_chain, in_chain, chain_test}

pub eq_ℤ_eq : (a b : ℤ) → eq_ℤ a b ≡ true → a ≡ b
eq_ℤ_eq a b h = ground arith

pub eq_ℤ_refl : (a : ℤ) → eq_ℤ a a ≡ true
eq_ℤ_refl a = ground arith

pub eq_ℤ_comm : (a b : ℤ) → eq_ℤ a b ≡ eq_ℤ b a
eq_ℤ_comm a b = ground arith

-- No library twice.
abbrev pub AllNew : List ℤ → Type 0
AllNew [] = Unit
AllNew (x ∷ xs) = (in_chain x xs ≡ false) × AllNew xs

-- A task's chain repeats no library, does not hold the task's own, and fits its array.
pub record IsChain (t : Task) : Type 0 where
  pub all_new : AllNew t.chain
  pub not_own : in_chain t.lid t.chain ≡ false
  pub fits : length t.chain ≤ max_chain

in_chain-snoc : (a b : ℤ) (xs : List ℤ) → in_chain a (xs ++ b ∷ []) ≡ (in_chain a xs || eq_ℤ b a)
unfolding in_chain
in_chain-snoc a b [] = ground arith
in_chain-snoc a b (x ∷ xs) = ground (arith, in_chain-snoc a b xs)

AllNew-snoc : (b : ℤ) (xs : List ℤ) → AllNew xs → in_chain b xs ≡ false → AllNew (xs ++ b ∷ [])
unfolding in_chain
AllNew-snoc b [] d o = (refl, tt)
AllNew-snoc b (x ∷ xs) d o =
    (ground (arith, in_chain-snoc x b xs, eq_ℤ_comm b x), AllNew-snoc b xs d.1 (ground arith))

-- The library is one that the chain holds, or the task's own.
abbrev pub Known : Task → ℤ → Type 0
Known t lid = (in_chain lid t.chain ≡ true) ⊎ (t.lid ≡ lid)

-- What each answer of `wt_task_chaintest` says.
pub data Answer (t : Task) (lid : ℤ) : Added → Type 0 where
  is_refused : Known t lid → Answer t lid refused
  is_added :
      (t' : Task)
      → ¬ (Known t lid)
      → t' ≡ record t { chain = t.chain ++ lid ∷ [] }
      → IsChain t'
      → Answer t lid (added t')
  is_overrun : ¬ (Known t lid) → length t.chain ≡ max_chain → Answer t lid overrun

-- On a chain that is in order `wt_task_chaintest` refuses only a library that the chain holds or the
-- task's own; it adds only another one, last, and leaves the chain in order; and it writes past the
-- array only for another one with the chain full.
pub chain_test-Answer : (t : Task) (lid : ℤ) → IsChain t → Answer t lid (chain_test t lid)
unfolding chain_test
chain_test-Answer t lid h = elim (Bool-cases (in_chain lid t.chain)) [
  | inl e ↦ rw e (is_refused (inl e))
  | inr e ↦ elim (Bool-cases (eq_ℤ t.lid lid)) [
    | inl own ↦ rw (e, own) (is_refused (inr (eq_ℤ_eq t.lid lid own)))
    | inr other ↦
        let new : ¬ (Known t lid) = λ k. elim k [
          | inl i ↦ cc
          | inr own ↦ cc (ap (λ (x : ℤ). eq_ℤ x lid) own, eq_ℤ_refl lid)
        ] in
        elim (Bool-cases (leb max_chain (length t.chain))) [
          | inl full ↦ rw (e, other, full) (is_overrun new (ground (arith, h.fits)))
          | inr room ↦
              rw (e, other, room)
                (is_added _ new refl (record {
                  all_new = AllNew-snoc lid t.chain h.all_new e;
                  not_own =
                      rw (in_chain-snoc t.lid lid t.chain, h.not_own, eq_ℤ_comm lid t.lid) other;
                  fits = ground (arith, length-append t.chain (lid ∷ []));
                }))
        ]
  ]
]
