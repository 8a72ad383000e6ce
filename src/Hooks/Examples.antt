-- ===== src/Hooks/Examples.antt =====
-- Three hooks of one name at two priorities; each appends its number to the state, and the one with
-- user data 1 asks to stop.
use web_tester.Prelude.{ℕ, ◌≡◌, Bool, some, List, [], ◌∷◌, ◌++◌, codes, ◌==◌, if◌then◌else◌}
use web_tester.Hooks.{Hook, Lists, max_priority, result, call}
use web_tester.Hooks.Order.{in_order, run_until, call-in_order}

abbrev hook : ℕ → ℕ → Hook
hook callback user_data = record { proc = codes "stop"; callback = callback; user_data = user_data }

abbrev lists : Lists
lists p = if p == 5 then hook 10 0 ∷ hook 11 1 ∷ [] else if p == 3 then hook 12 0 ∷ [] else []

abbrev invoke : ℕ → ℕ → ℕ → List ℕ → Bool × List ℕ
invoke callback user_data arg s = (user_data == 1, s ++ callback ∷ [])

call-in_order_example :
    call invoke (some lists) (codes "stop") 0 []
    ≡ result invoke (run_until invoke 0 (in_order max_priority lists (codes "stop")) [])
call-in_order_example = call-in_order invoke lists (codes "stop") 0 []
