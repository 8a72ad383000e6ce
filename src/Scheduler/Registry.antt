-- ===== src/Scheduler/Registry.antt =====
-- Entries join and leave the scheduler.
use web_tester.Prelude.{
  ℕ, ◌≡◌, ◌≢◌, refl, true, false, List, [], ◌∷◌, ◌++◌, pos, ◌==◌, arith, Bool-cases, inl, inr,
  append-nil, ◌∙◌,
}
use web_tester.Time.{Timeval}
use web_tester.Scheduler.{Entry, spawn_new_item, add, remove}

-- No entry of the list has the callback.
abbrev pub Absent : ℕ → List Entry → Type 0
Absent callback [] = Unit
Absent callback (e ∷ es) = ((e.callback == callback) ≡ false) × Absent callback es

remove-Absent : (es : List Entry) (callback : ℕ) → Absent callback es → remove es callback ≡ es
unfolding remove
remove-Absent [] callback a = refl
remove-Absent (e ∷ es) callback a = rw (a.0, remove-Absent es callback a.1)

remove-append :
    (es fs : List Entry) (callback : ℕ)
    → remove (es ++ fs) callback ≡ remove es callback ++ remove fs callback
unfolding remove
remove-append [] fs callback = refl
remove-append (e ∷ es) fs callback = ground (arith, remove-append es fs callback)

-- `scheduler_remove` leaves no entry with the callback.
Absent-remove : (es : List Entry) (callback : ℕ) → Absent callback (remove es callback)
unfolding remove
Absent-remove [] callback = tt
Absent-remove (e ∷ es) callback = elim (Bool-cases (e.callback == callback)) [
  | inl c ↦ rw c (Absent-remove es callback)
  | inr c ↦ rw c (c, Absent-remove es callback)
]

-- Removing a callback that is not null after adding it is removing it before: the entry that
-- `scheduler_add` made is gone with all others of that callback, and the rest stays in order.
remove-add :
    (es : List Entry) (callback context interval : ℕ) (now : Timeval)
    → callback ≢ 0
    → (let (r, es') = add es callback context interval now in
        (r ≡ pos 0)
        × (remove es' callback ≡ remove es callback)
        × Absent callback (remove es' callback))
unfolding add spawn_new_item remove
remove-add es callback context interval now ne =
    let e : (callback == 0) ≡ false = ground arith in
    let new : Entry = record {
      callback = callback;
      context = context;
      interval = interval;
      last_call = now;
    } in
    let own : (callback == callback) ≡ true = ground arith in
    let tail : remove es callback ++ remove (new ∷ []) callback ≡ remove es callback =
      rw own (append-nil (remove es callback)) in
    let gone = remove-append es (new ∷ []) callback ∙ tail in
    rw (e, add) (refl, gone, rw gone (Absent-remove es callback))
