-- ===== src/Hooks/Registry.antt =====
-- Registering and unregistering hooks.
use web_tester.Prelude.{
  ℕ, ◌<◌, ◌≡◌, refl, sym, ap, true, false, some, List, [], ◌∷◌, ◌++◌, ℤ, pos, negsuc, Text, eq_text,
  ◌==◌, leb, Bool-cases, inl, inr, arith,
}
use web_tester.Hooks.{
  Hook, Lists, max_priority, init, update, is_hook, register, unregister_loop, unregister,
}

-- No hook of the list has the name and the callback.
abbrev pub Absent : Text → ℕ → List Hook → Type 0
Absent proc callback [] = Unit
Absent proc callback (h ∷ hs) = (is_hook proc callback h ≡ false) × Absent proc callback hs

eq_text_refl : (t : Text) → eq_text t t ≡ true
eq_text_refl [] = refl
eq_text_refl (a ∷ t) = ground (arith, eq_text_refl t)

unregister_snoc :
    (proc : Text) (callback : ℕ) (hs : List Hook) (h : Hook) (res : ℤ)
    → Absent proc callback hs
    → is_hook proc callback h ≡ true
    → unregister_loop proc callback (hs ++ h ∷ []) res ≡ (pos 0, hs)
unfolding unregister_loop
unregister_snoc proc callback [] h res a e = rw e
unregister_snoc proc callback (x ∷ hs) h res a e =
    rw (a.0, unregister_snoc proc callback hs h res a.1 e)

-- A hook that was not registered at a priority in range is registered there and then unregistered:
-- both calls return 0, and every list is what it was.
unregister-register :
    (lists : Lists) (proc : Text) (callback user_data p : ℕ)
    → p < max_priority
    → Absent proc callback (lists p)
    → (new : Lists) × (register (some lists) proc callback user_data (pos p) ≡ (pos 0, some new))
      × ((unregister new proc callback (pos p)).0 ≡ pos 0)
      × ((q : ℕ) → (unregister new proc callback (pos p)).1 q ≡ lists q)
unfolding register unregister
unregister-register lists proc callback user_data p range absent =
    let node : Hook = record { proc = proc; callback = callback; user_data = user_data } in
    let new : Lists = update lists p (lists p ++ node ∷ []) in
    let within : leb max_priority p ≡ false = ground arith in
    let is_node : is_hook proc callback node ≡ true = ground (arith, eq_text_refl proc) in
    let at_p : new p ≡ lists p ++ node ∷ [] = ground arith in
    let gone = unregister_snoc proc callback (lists p) node (negsuc 0) absent is_node in
    let own : (p == p) ≡ true = ground arith in
    (
      new,
      rw (within, init),
      rw (within, own, gone),
      λ q. elim (Bool-cases (q == p)) [
        | inl e ↦ let at : q ≡ p = ground arith in rw (within, own, gone, e) (ap lists (sym at))
        | inr e ↦ rw (within, own, gone, e)
      ],
    )
