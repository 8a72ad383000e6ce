-- ===== src/Unique/Distinct.antt =====
-- The numbers of libwebtester/unique.c that are in use at one time are different.
use web_tester.Prelude.{
  ℕ, ◌≤◌, ◌<◌, ◌≡◌, ◌≢◌, refl, Bool, true, false, ◌||◌, Option, none, some, List, [], ◌∷◌, length,
  ◌==◌, if◌then◌else◌, arith,
}
use web_tester.Unique.{UniquePool, max_unique, pool_create, alloc_uid, release_uid}

abbrev pub holds : ℕ → List ℕ → Bool
holds u [] = false
holds u (h ∷ hs) = h == u || holds u hs

abbrev pub AllDifferent : List ℕ → Type 0
AllDifferent [] = Unit
AllDifferent (h ∷ hs) = (holds h hs ≡ false) × AllDifferent hs

-- The list without its first `u`.
abbrev pub removed : ℕ → List ℕ → List ℕ
removed u [] = []
removed u (h ∷ hs) = if h == u then hs else h ∷ removed u hs

-- The numbers in use and those on the stack from `ptr` on are all different, and there are as many in
-- use as were taken off.
pub record InUse (p : UniquePool) (held : List ℕ) : Type 0 where
  pub count : length held ≡ p.ptr
  pub fits : p.ptr ≤ max_unique
  pub different : AllDifferent held
  pub free : (i : ℕ) → p.ptr ≤ i → i < max_unique → holds (p.stack i) held ≡ false
  pub stack_different : (i j : ℕ) → p.ptr ≤ i → i < j → j < max_unique → p.stack i ≢ p.stack j

abbrev pool_after : Option (ℕ × UniquePool) → UniquePool → UniquePool
pool_after none p = p
pool_after (some (uid, q)) p = q

abbrev held_after : Option (ℕ × UniquePool) → List ℕ → List ℕ
held_after none held = held
held_after (some (uid, q)) held = uid ∷ held

-- Numbers are taken by `unique_alloc_uid` and given back, those in use only, by `unique_release_uid`.
pub data Step : UniquePool → List ℕ → UniquePool → List ℕ → Type 0 where
  allocates :
      (p : UniquePool) (held : List ℕ)
      → Step p held (pool_after (alloc_uid p) p) (held_after (alloc_uid p) held)
  releases :
      (p : UniquePool) (held : List ℕ) (uid : ℕ)
      → holds uid held ≡ true
      → Step p held (release_uid p uid) (removed uid held)

pub data Run : UniquePool → List ℕ → UniquePool → List ℕ → Type 0 where
  done : (p : UniquePool) (held : List ℕ) → Run p held p held
  more :
      (p q r : UniquePool) (held held' held'' : List ℕ)
      → Step p held q held'
      → Run q held' r held''
      → Run p held r held''

-- A new pool has no numbers in use.
pub pool_create-InUse : InUse pool_create []
pool_create-InUse = record {
  count = refl;
  fits = omega arith;
  different = tt;
  free = λ i above below. refl;
  stack_different = λ i j above less below same. omega (arith, same);
}
