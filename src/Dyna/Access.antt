-- ===== src/Dyna/Access.antt =====
-- What the commands of `Memory` do at an address that is allocated.
use web_tester.Prelude.{ℕ, ◌≡◌, ◌≢◌, some, none, arith, ◌==◌, false}
use web_tester.Dyna.Memory.{Cell, null, Memory, ok, load, set_next, set_prev, free, write}

module _ (m : Memory) (p : ℕ) (c : Cell) (ne : p ≢ null) (at : m.cells p ≡ some c) where
  pub ne_null : (p == null) ≡ false
  ne_null = ground arith

  pub load_lem : load p m ≡ ok c m
  unfolding load
  load_lem = rw (ne_null, at)

  pub set_next_lem :
      (q : ℕ)
      → set_next p q m
        ≡ ok tt (record m { cells = write m.cells p (some (record c { next_ptr = q })) })
  unfolding set_next
  set_next_lem q = rw (ne_null, at)

  pub set_prev_lem :
      (q : ℕ)
      → set_prev p q m
        ≡ ok tt (record m { cells = write m.cells p (some (record c { prev_ptr = q })) })
  unfolding set_prev
  set_prev_lem q = rw (ne_null, at)

  pub free_lem : free p m ≡ ok tt (record m { cells = write m.cells p none })
  unfolding free
  free_lem = rw (ne_null, at)
