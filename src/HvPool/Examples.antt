-- ===== src/HvPool/Examples.antt =====
-- A pool of arrays of two items.
use web_tester.Prelude.{ℕ, ◌≡◌, refl, List, [], ◌∷◌, ◌++◌, arith}
use web_tester.HvPool.{HvpoolItem, Arr, hvpool_put}
use web_tester.HvPool.Laws.{all_items, IsPool, AllStale, hvpool_put-parts}

abbrev item_at : ℕ → ℕ → HvpoolItem ℕ
item_at time pid = record { timestamp = time; stats = pid }

abbrev pool : List (Arr ℕ)
pool =
    record { size = 2; content = item_at 1 7 ∷ item_at 2 8 ∷ [] }
    ∷ record { size = 2; content = item_at 50 9 ∷ [] }
    ∷ []

hvpool_put-parts_example :
    (stale kept : List (Arr ℕ)) × (pool ≡ stale ++ kept)
    × AllStale 60 20 stale
    × (all_items (hvpool_put 2 20 60 5 pool) ≡ all_items kept ++ item_at 60 5 ∷ [])
    × IsPool (hvpool_put 2 20 60 5 pool)
hvpool_put-parts_example =
    hvpool_put-parts 2 20 60 5 pool (omega arith) (refl, omega arith, (omega arith, omega arith))
