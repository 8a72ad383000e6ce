-- ===== src/Hooks/Order.antt =====
-- In which order hooks are called, and where the calls stop.
use mathlib.Core.List
use web_tester.Prelude.{
  ℕ, zero, suc, ◌≡◌, refl, sym, ap, Bool, true, false, some, List, [], ◌∷◌, ◌++◌, Text, eq_text,
  if◌then◌else◌, Bool-cases, inl, inr,
}
use web_tester.Hooks.{Hook, Lists, max_priority, call_list, call_loop, result, call, call_backward}

-- The hooks of a list that have the name.
abbrev pub named : Text → List Hook → List Hook
named proc [] = []
named proc (h ∷ hs) = if eq_text h.proc proc then h ∷ named proc hs else named proc hs

-- The hooks of that name in the lists below `n`, the highest priority first.
abbrev pub in_order : ℕ → Lists → Text → List Hook
in_order zero lists proc = []
in_order (suc p) lists proc = named proc (lists p) ++ in_order p lists proc

module _ {S : Type 0} (invoke : ℕ → ℕ → ℕ → S → Bool × S) where
  -- Calls one after another, up to the first that returns non-zero.
  abbrev pub run_until : ℕ → List Hook → S → Bool × S
  run_until arg [] s = (false, s)
  run_until arg (h ∷ hs) s =
      let (failed, s') = invoke h.callback h.user_data arg s in
      let rest = run_until arg hs s' in if failed then (true, s') else rest

  -- What follows a run: nothing, if it stopped.
  abbrev followed : Bool × S → (S → Bool × S) → Bool × S
  followed (true, s) next = (true, s)
  followed (false, s) next = next s

  run_until-append :
      (arg : ℕ) (hs ks : List Hook) (s : S)
      → run_until arg (hs ++ ks) s ≡ followed (run_until arg hs s) (run_until arg ks)
  run_until-append arg [] ks s = refl
  run_until-append arg (h ∷ hs) ks s =
      let (failed, s') = invoke h.callback h.user_data arg s in
      elim (Bool-cases failed) [ inl e ↦ rw e | inr e ↦ rw e (run_until-append arg hs ks s') ]

  if-followed :
      (r : Bool × S) (next : S → Bool × S)
      → (if r.0 then (true, r.1) else next r.1) ≡ followed r next
  if-followed (true, s) next = refl
  if-followed (false, s) next = refl

  call_list-named :
      (proc : Text) (arg : ℕ) (hs : List Hook) (s : S)
      → call_list invoke proc arg hs s ≡ run_until arg (named proc hs) s
  unfolding call_list
  call_list-named proc arg [] s = refl
  call_list-named proc arg (h ∷ hs) s =
      let (failed, s') = invoke h.callback h.user_data arg s in
      elim (Bool-cases (eq_text h.proc proc)) [
        | inl n ↦ rw (n, call_list-named proc arg hs s')
        | inr n ↦ rw n (call_list-named proc arg hs s)
      ]

  call_loop-in_order :
      (n : ℕ) (lists : Lists) (proc : Text) (arg : ℕ) (s : S)
      → call_loop invoke n lists proc arg s ≡ run_until arg (in_order n lists proc) s
  unfolding call_loop
  call_loop-in_order zero lists proc arg s = refl
  call_loop-in_order (suc p) lists proc arg s =
      let first = call_list invoke proc arg (lists p) s in
      rw
        (
          call_loop-in_order p lists proc arg first.1,
          if-followed first (run_until arg (in_order p lists proc)),
        )
        (rw (call_list-named proc arg (lists p) s)
          (sym (run_until-append arg (named proc (lists p)) (in_order p lists proc) s)))

  -- `hook_call` calls the hooks of the name from the highest priority down, those of one priority as
  -- they were registered, and stops at the first that returns non-zero, which makes the result -1.
  pub call-in_order :
      (lists : Lists) (proc : Text) (arg : ℕ) (s : S)
      → call invoke (some lists) proc arg s
        ≡ result invoke (run_until arg (in_order max_priority lists proc) s)
  unfolding call
  call-in_order lists proc arg s =
      ap (result invoke) (call_loop-in_order max_priority lists proc arg s)

  -- `hook_call_backward` does the same, but calls those of one priority from the last registered.
  call_backward-in_order :
      (lists : Lists) (proc : Text) (arg : ℕ) (s : S)
      → call_backward invoke (some lists) proc arg s
        ≡ result invoke (run_until arg (in_order max_priority (λ p. List.reverse (lists p)) proc) s)
  unfolding call_backward
  call_backward-in_order lists proc arg s =
      ap (result invoke) (call_loop-in_order max_priority (λ p. List.reverse (lists p)) proc arg s)
