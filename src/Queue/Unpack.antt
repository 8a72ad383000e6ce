-- ===== src/Queue/Unpack.antt =====
-- What `wt_queue_unpack` and `wt_queue_free` do to the tasks of the queue.
use web_tester.Prelude.{
  ℕ, ◌≢◌, ◌+◌, ◌-◌, ◌≡◌, refl, true, false, List, [], ◌∷◌, ◌==◌, if◌then◌else◌, arith, Bool-cases,
  inl, inr,
}
use web_tester.Task.Defs.{Task}
use web_tester.Modules.{TestModule, Services}
use web_tester.Belts.Defs.{Desk, restore, Server}
use web_tester.Belts.Identity.{SameId, mark-SameId, tally}
use web_tester.Belts.Conservation.{held, total}
use web_tester.Queue.{unpack_round, unpack_tasks, queue_unpack, restore_all, queue_free}

-- The number of tasks that are not unpacked.
abbrev pub packed : List Task → ℕ
packed [] = 0
packed (t ∷ ts) = (if t.unpacked then 0 else 1) + packed ts

module _ {S : Type 0} (v : Services S) where
  unpack_round-SameId : (left : ℕ) (t : Task) (s : S) → SameId t (unpack_round v left t s).1
  unfolding unpack_round
  unpack_round-SameId left t s = ground arith

  unpack_tasks-tally :
      (k : Task) (left : ℕ) (ts : List Task) (s : S)
      → tally k (unpack_tasks v left ts s).0 ≡ tally k ts
  unfolding unpack_tasks
  unpack_tasks-tally k left [] s = refl
  unpack_tasks-tally k left (t ∷ ts) s =
      let (left', t', s') = unpack_round v left t s in
      elim (Bool-cases (left == 0)) [
        | inl e ↦ rw e refl
        | inr e ↦ rw e (
            omega (
              arith,
              mark-SameId k t t' (unpack_round-SameId left t s),
              unpack_tasks-tally k left' ts s',
            ))
      ]

  -- A round with one to unpack leaves the task unpacked, and one less if it was not before.
  unpack_round-unpacked :
      (left : ℕ) (t : Task) (s : S)
      → ((s : S) (t : Task) → (v.get_task s t).0 ≡ false)
      → left ≢ 0
      → ((unpack_round v left t s).1.unpacked ≡ true)
        × ((unpack_round v left t s).0 + (if t.unpacked then 0 else 1) ≡ left)
  unfolding unpack_round
  unpack_round-unpacked left t s works some_left = ground (arith, works s t)

  unpack_tasks-packed :
      (left : ℕ) (ts : List Task) (s : S)
      → ((s : S) (t : Task) → (v.get_task s t).0 ≡ false)
      → packed (unpack_tasks v left ts s).0 ≡ packed ts - left
  unfolding unpack_tasks
  unpack_tasks-packed left [] s works = omega arith
  unpack_tasks-packed left (t ∷ ts) s works =
      let (left', t', s') = unpack_round v left t s in
      elim (Bool-cases (left == 0)) [
        | inl e ↦ let none_left : left ≡ 0 = ground arith in rw e (omega (arith, none_left))
        | inr e ↦
            let some_left : left ≢ 0 = ground arith in
            let round = unpack_round-unpacked left t s works some_left in
            rw (e, round.0) (omega (arith, round.1, unpack_tasks-packed left' ts s' works))
      ]

  -- `wt_queue_unpack` keeps the number of tasks of every identity; and if the web interface answers, so
  -- many tasks more are unpacked as it was told to, or all.
  pub queue_unpack-packed :
      (k : Task) (n : ℕ) (b : Server S)
      → (total k (queue_unpack v n b) ≡ total k b)
        × (((s : S) (t : Task) → (v.get_task s t).0 ≡ false)
            → packed (queue_unpack v n b).queue ≡ packed b.queue - n)
  unfolding queue_unpack
  queue_unpack-packed k n b = (
    omega (arith, unpack_tasks-tally k n b.queue b.desk.ext),
    λ works. unpack_tasks-packed n b.queue b.desk.ext works,
  )

module _ {S : Type 0} (v : Services S) (modules : List TestModule) where
  restore_all-held :
      (k : Task) (ts : List Task) (d : Desk S)
      → held k (restore_all v modules ts d) ≡ tally k ts + held k d
  unfolding restore_all restore
  restore_all-held k [] d = omega arith
  restore_all-held k (t ∷ ts) d = omega (arith, restore_all-held k ts (restore v modules t d))

  -- `wt_queue_free` gives every task of the queue back to the web interface.
  pub queue_free-total : (k : Task) (b : Server S) → total k (queue_free v modules b) ≡ total k b
  unfolding queue_free
  queue_free-total k b = omega (arith, restore_all-held k b.queue b.desk)
