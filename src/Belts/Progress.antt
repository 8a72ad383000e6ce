-- ===== src/Belts/Progress.antt =====
-- What `belts_fill` leaves in the queue, and what it puts in the belts.
use web_tester.Prelude.{
  ℕ, ◌≤◌, ◌≡◌, refl, true, not, List, [], ◌∷◌, ◌⊎◌, inl, inr, arith, length, leb, Bool-cases,
  append-nil,
}
use web_tester.Task.Defs.{Task}
use web_tester.Modules.{TestModule, Services}
use web_tester.Belts.Defs.{Desk, in_belts, send_for_testing, Filling, fill_task, fill_loop, fill}

-- Every task is to be kept.
abbrev pub AllKept : List Task → Type 0
AllKept [] = Unit
AllKept (t ∷ ts) = (t.keep_in_queue ≡ true) × AllKept ts

module _ {S : Type 0} (v : Services S) (modules : List TestModule) where
  fill_task-AllKept :
      (t : Task) (f : Filling S) → AllKept f.waiting → AllKept (fill_task v modules t f).waiting
  unfolding fill_task
  fill_task-AllKept t f h =
      let r = send_for_testing v modules t f.desk.ext in
      elim (Bool-cases (in_belts t f.belts)) [
        | inl e ↦ rw e h
        | inr e ↦ elim (Bool-cases (not r.failed)) [
          | inl sent ↦ rw (e, sent) h
          | inr unsent ↦ elim (Bool-cases (not r.task.keep_in_queue)) [
            | inl b ↦ rw (e, unsent, b) h
            | inr b ↦ rw (e, unsent, b) (ground arith, h)
          ]
        ]
      ]

  -- The part of the queue that is not looked at is empty, or the belts are full.
  fill_loop-stops :
      (size : ℕ) (ts : List Task) (f : Filling S)
      → AllKept f.waiting
      → (let (left, g) = fill_loop v modules size ts f in
          AllKept g.waiting × ((left ≡ []) ⊎ (size ≤ length g.belts)))
  unfolding fill_loop
  fill_loop-stops size [] f h = (h, inl refl)
  fill_loop-stops size (t ∷ ts) f h = elim (Bool-cases (leb size (length f.belts))) [
    | inl e ↦ rw e (h, inr (ground arith))
    | inr e ↦ rw e (fill_loop-stops size ts (fill_task v modules t f) (fill_task-AllKept t f h))
  ]

  -- `belts_fill` stops only with the belts full, or with no task left in the queue but those that it
  -- was told to keep there.
  pub fill-stops :
      (size : ℕ) (queue belts : List Task) (d : Desk S)
      → (let r = fill v modules size queue belts d in AllKept r.0 ⊎ (size ≤ length r.1))
  unfolding fill
  fill-stops size queue belts d =
      let (left, g) =
        fill_loop v modules size queue (record { waiting = []; belts = belts; desk = d }) in
      elim ((fill_loop-stops size queue (record { waiting = []; belts = belts; desk = d }) tt).1) [
        | inl e ↦ inl (
            rw (e, append-nil g.waiting)
              (fill_loop-stops size queue (record { waiting = []; belts = belts; desk = d }) tt).0)
        | inr e ↦ inr e
      ]
