-- ===== src/Task/Examples.antt =====
-- A task of library 1 whose chain holds library 2, and library 3 asked for.
use web_tester.Prelude.{refl, pos, [], ◌∷◌, arith}
use web_tester.Task.Defs.{Task, spawn, in_chain, chain_test}
use web_tester.Task.Chain.{Answer, chain_test-Answer}

abbrev task : Task
task = record (spawn (pos 7) (pos 1)) { chain = pos 2 ∷ [] }

chain_test-Answer_example : Answer task (pos 3) (chain_test task (pos 3))
unfolding in_chain
chain_test-Answer_example =
    chain_test-Answer task (pos 3)
      (record { all_new = (refl, tt); not_own = refl; fits = omega arith })
