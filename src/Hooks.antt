-- ===== src/Hooks.antt =====
-- libwebtester/hook.c: callbacks by the name of a hook, in lists by priority.
--
-- `hooks` is `none` before `hook_init` has run. What a callback does is a function of the program's
-- state, which also says whether it returned zero. The name of a node is an array of 1025 bytes that
-- `strncpy` fills with at most 1024: a longer name would be left without its end, and is not modelled.
pub mod Order
pub mod Registry
mod Examples
use mathlib.Core.List
use web_tester.Prelude.{
  ℕ, zero, suc, ◌+◌, Bool, true, false, ◌&&◌, ◌||◌, Option, none, some, List, [], ◌∷◌, ◌++◌, ℤ, pos,
  negsuc, Text, eq_text, ◌==◌, ltb, leb, if◌then◌else◌,
}

-- `hook_t`
pub record Hook : Type 0 where
  pub proc : Text
  pub callback : ℕ
  pub user_data : ℕ

-- `HOOK_MAX_PRIORITY`
abbrev pub max_priority : ℕ
max_priority = 64

-- The array of lists.
abbrev pub Lists : Type 0
Lists = ℕ → List Hook

-- `hook_init`
unfoldable pub init : Option Lists → Lists
init none = λ _. []
init (some lists) = lists

abbrev pub update : Lists → ℕ → List Hook → Lists
update lists p hooks q = if q == p then hooks else lists q

-- `__priority < 0 || __priority >= HOOK_MAX_PRIORITY`
abbrev pub out_of_range : ℤ → Bool
out_of_range (pos p) = leb max_priority p
out_of_range (negsuc p) = true

abbrev pub index : ℤ → ℕ
index (pos p) = p
index (negsuc p) = 0

-- `hook_register`
unfoldable pub register : Option Lists → Text → ℕ → ℕ → ℤ → ℤ × Option Lists
unfolding init
register hooks proc callback user_data priority =
    if out_of_range priority
    then (negsuc 0, hooks)
    else let lists = init hooks in
      let node : Hook = record { proc = proc; callback = callback; user_data = user_data } in
      (pos 0, some (update lists (index priority) (lists (index priority) ++ node ∷ [])))

abbrev pub is_hook : Text → ℕ → Hook → Bool
is_hook proc callback h = h.callback == callback && eq_text h.proc proc

-- The loop of `hook_unregister`: the result and the list.
unfoldable pub unregister_loop : Text → ℕ → List Hook → ℤ → ℤ × List Hook
unregister_loop proc callback [] res = (res, [])
unregister_loop proc callback (h ∷ hs) res =
    let found = is_hook proc callback h in
    let (res', rest) = unregister_loop proc callback hs (if found then pos 0 else res) in
    (res', if found then rest else h ∷ rest)

-- `hook_unregister`, once there are lists: without any it would read through a null pointer
unfoldable pub unregister : Lists → Text → ℕ → ℤ → ℤ × Lists
unfolding unregister_loop
unregister lists proc callback priority =
    if out_of_range priority
    then (negsuc 0, lists)
    else let (res, left) = unregister_loop proc callback (lists (index priority)) (negsuc 0) in
      (res, update lists (index priority) left)

-- A callback, given its user data and the caller's data, says whether it returned non-zero.
module _ {S : Type 0} (invoke : ℕ → ℕ → ℕ → S → Bool × S) where
  -- The walk along one list; it says whether a callback returned non-zero.
  unfoldable pub call_list : Text → ℕ → List Hook → S → Bool × S
  call_list proc arg [] s = (false, s)
  call_list proc arg (h ∷ hs) s =
      let (failed, s') = invoke h.callback h.user_data arg s in
      let rest = call_list proc arg hs s' in
      let skipped = call_list proc arg hs s in
      if eq_text h.proc proc then (if failed then (true, s') else rest) else skipped

  -- The loop over the priorities below `n`, from the highest.
  unfoldable pub call_loop : ℕ → (ℕ → List Hook) → Text → ℕ → S → Bool × S
  call_loop zero lists proc arg s = (false, s)
  call_loop (suc p) lists proc arg s =
      let (failed, s') = call_list proc arg (lists p) s in
      let rest = call_loop p lists proc arg s' in if failed then (true, s') else rest

  abbrev pub result : Bool × S → ℤ × S
  result (failed, s) = (if failed then negsuc 0 else pos 0, s)

  -- `hook_call`
  unfoldable pub call : Option Lists → Text → ℕ → S → ℤ × S
  call none proc arg s = (pos 0, s)
  call (some lists) proc arg s = result (call_loop max_priority lists proc arg s)

  -- `hook_call_backward`: each list from its tail
  unfoldable pub call_backward : Option Lists → Text → ℕ → S → ℤ × S
  call_backward none proc arg s = (pos 0, s)
  call_backward (some lists) proc arg s =
      result (call_loop max_priority (λ p. List.reverse (lists p)) proc arg s)
