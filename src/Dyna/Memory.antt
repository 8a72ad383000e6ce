-- ===== src/Dyna/Memory.antt =====
-- The memory that dynastruc.c works on, and commands over it.
--
-- A cell is a `dyna_item_t` at an address; the null pointer is address 0. Reading or writing a
-- cell that is not allocated is a fault. `calls` lists the calls of deleters, the latest first: the
-- deleter (a function pointer) and the data that it was given.
use web_tester.Prelude.{ℕ, Option, none, some, List, ◌∷◌, ◌==◌, if◌then◌else◌}

-- `dyna_item_t`; `item` is its `data`
pub record Cell : Type 0 where
  pub item : ℕ
  pub tag : ℕ
  pub next_ptr : ℕ
  pub prev_ptr : ℕ

abbrev pub null : ℕ
null = 0

abbrev pub Cells : Type 0
Cells = ℕ → Option Cell

pub record Memory : Type 0 where
  pub cells : Cells
  pub calls : List (ℕ × ℕ)

-- The outcome of a command: a value and the memory, a fault, or a loop that ran out of its rounds.
pub data Run (A : Type 0) : Type 0 where
  ok : A → Memory → Run A
  fault : Run A
  no_fuel : Run A

abbrev pub Cmd : Type 0 → Type 0
Cmd A = Memory → Run A

abbrev pub pure : {A : Type 0} → A → Cmd A
pure a m = ok a m

module _ {A B : Type 0} where
  abbrev pub and_then : Run A → (A → Cmd B) → Run B
  and_then (ok a m) k = k a m
  and_then fault k = fault
  and_then no_fuel k = no_fuel

  infixl 5 ◌>>=◌ ◌>>◌
  abbrev pub ◌>>=◌ : Cmd A → (A → Cmd B) → Cmd B
  ◌>>=◌ c k m = and_then (c m) k

  abbrev pub ◌>>◌ : Cmd A → Cmd B → Cmd B
  c >> d = c >>= λ _. d

unfoldable pub write : Cells → ℕ → Option Cell → Cells
write f p c a = if a == p then c else f a

-- `*p`
unfoldable pub load : ℕ → Cmd Cell
load p m = if p == null then fault else elim (m.cells p) [ none ↦ fault | some c ↦ ok c m ]

-- `*p = c`, at an address that is allocated (`some`), or that is given out or back
abbrev pub put : ℕ → Option Cell → Cmd (Unit {0})
put p c m = ok tt (record m { cells = write m.cells p c })

-- `p->next_ptr = q`
unfoldable pub set_next : ℕ → ℕ → Cmd (Unit {0})
unfolding load
set_next p q = do c ← load p; put p (some (record c { next_ptr = q }))

-- `p->prev_ptr = q`
unfoldable pub set_prev : ℕ → ℕ → Cmd (Unit {0})
unfolding load
set_prev p q = do c ← load p; put p (some (record c { prev_ptr = q }))

-- `free (p)`
unfoldable pub free : ℕ → Cmd (Unit {0})
unfolding load
free p = do load p; put p none

-- `if (deleter) deleter (item)`
unfoldable pub call : ℕ → ℕ → Cmd (Unit {0})
call deleter item m =
    if deleter == null then ok tt m else ok tt (record m { calls = (deleter, item) ∷ m.calls })
