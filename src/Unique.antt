-- ===== src/Unique.antt =====
-- libwebtester/unique.c: unique numbers from a stack.
use web_tester.Prelude.{ℕ, zero, suc, ◌-◌, Bool, Option, none, some, ltb, leb, ◌==◌, if◌then◌else◌}
pub mod Distinct
mod Examples

-- `unique_pool_t`
pub record UniquePool : Type 0 where
  pub stack : ℕ → ℕ
  pub ptr : ℕ

-- `MAX_UNIQUE`
abbrev pub max_unique : ℕ
max_unique = 65536

-- `unique_pool_create`
abbrev pub pool_create : UniquePool
pool_create = record { stack = λ i. i; ptr = 0 }

-- `unique_alloc_uid`, `none` for -1
unfoldable pub alloc_uid : UniquePool → Option (ℕ × UniquePool)
alloc_uid p =
    if leb max_unique p.ptr then none else some (p.stack p.ptr, record p { ptr = suc p.ptr })

-- `unique_release_uid`
unfoldable pub release_uid : UniquePool → ℕ → UniquePool
release_uid p uid =
    if p.ptr == 0
    then p
    else record { stack = λ i. if i == p.ptr - 1 then uid else p.stack i; ptr = p.ptr - 1 }

-- `unique_pool_empty` and `unique_pool_full`
abbrev pub pool_empty : UniquePool → Bool
pool_empty p = leb max_unique p.ptr

abbrev pub pool_full : UniquePool → Bool
pool_full p = p.ptr == 0
