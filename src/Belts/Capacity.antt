-- ===== src/Belts/Capacity.antt =====
-- The belts never hold more tasks than their size, and never two tasks of one identity.
use web_tester.Prelude.{
  ℕ, suc, ◌-◌, ◌≤◌, ◌≡◌, refl, ◌∙◌, true, false, not, ◌&&◌, ◌||◌, Option, none, some, List, [], ◌∷◌,
  ◌++◌, arith, length, length-append, leb, ltb, is_nil, if◌then◌else◌, Bool-cases, or_parts,
  or_false, inl, inr,
}
use web_tester.Task.Defs.{Task, free_buffer_locked, same_task}
use web_tester.Task.Chain.{eq_ℤ_comm}
use web_tester.Modules.{TestModule, Services}
use web_tester.Belts.Defs.{
  Desk, is_finished, is_interrupted, in_belts, chain_loop, overview_finished, overview_task, keep,
  overview_status, send_for_testing, Filling, fill_task, fill_loop, fill, Server, is_idle, work,
  belts_update,
}
use web_tester.Belts.Identity.{
  SameId, SameId-refl, SameId-trans, free_buffer-SameId, chain_loop-SameId, send_for_testing-SameId,
}

abbrev pub Apart : List Task → Type 0
Apart [] = Unit
Apart (t ∷ ts) = (in_belts t ts ≡ false) × Apart ts

-- The belts are within their size, and their tasks are of different identities.
pub record IsBelts (size : ℕ) (ts : List Task) : Type 0 where
  pub within : length ts ≤ size
  pub apart : Apart ts

same_task_comm : (t u : Task) → same_task t u ≡ same_task u t
same_task_comm t u = rw (eq_ℤ_comm t.lid u.lid, eq_ℤ_comm t.sid u.sid)

pub same_task-SameId : (t u u' : Task) → SameId u u' → same_task u' t ≡ same_task u t
same_task-SameId t u u' h = rw (h.sid, h.lid)

pub in_belts-SameId : (t t' : Task) (ts : List Task) → SameId t t' → in_belts t' ts ≡ in_belts t ts
unfolding in_belts
in_belts-SameId t t' [] h = refl
in_belts-SameId t t' (x ∷ xs) h = rw (h.sid, h.lid, in_belts-SameId t t' xs h)

in_belts-snoc :
    (t u : Task) (ts : List Task) → in_belts t (ts ++ u ∷ []) ≡ (in_belts t ts || same_task u t)
unfolding in_belts
in_belts-snoc t u [] = ground arith
in_belts-snoc t u (x ∷ xs) = rw (in_belts-snoc t u xs) (ground arith)

Apart-snoc : (u : Task) (ts : List Task) → Apart ts → in_belts u ts ≡ false → Apart (ts ++ u ∷ [])
unfolding in_belts
Apart-snoc u [] a o = (refl, tt)
Apart-snoc u (x ∷ xs) a o =
    let parts = or_parts (same_task x u) (in_belts u xs) o in
    (
      rw (in_belts-snoc x u xs, same_task_comm u x) (or_false _ _ a.0 parts.0),
      Apart-snoc u xs a.1 parts.1,
    )

-- The task that stays is the task that was looked at.
abbrev Same : Task → Option Task → Type 0
Same t none = Unit
Same t (some t') = SameId t t'

module _ {S : Type 0} (v : Services S) (modules : List TestModule) where
  overview_finished-Same : (t : Task) (d : Desk S) → Same t (overview_finished v modules t d).0
  unfolding overview_finished
  overview_finished-Same t d =
      let rounds = length t.chain - t.cur in
      let (need_return, t', s) = chain_loop v modules rounds t d.ext in
      elim (Bool-cases need_return) [
        | inl e ↦ rw e tt
        | inr e ↦ rw e (chain_loop-SameId v modules rounds t d.ext)
      ]

  Same-trans : (t u : Task) (o : Option Task) → SameId t u → Same u o → Same t o
  Same-trans t u none h k = tt
  Same-trans t u (some w) h k = SameId-trans t u w h k

  overview_task-Same : (t : Task) (d : Desk S) → Same t (overview_task v modules t d).0
  unfolding overview_task
  overview_task-Same t d =
      let t' = if not (is_nil t.pipe) then free_buffer_locked t else t in
      let same : SameId t t' = elim (Bool-cases (not (is_nil t.pipe))) [
        | inl e ↦ rw e (free_buffer-SameId t)
        | inr e ↦ rw e (SameId-refl t)
      ] in
      elim (Bool-cases (is_finished t'.status)) [
        | inl e ↦ rw e (Same-trans t t' _ same (overview_finished-Same t' d))
        | inr e ↦ elim (Bool-cases (is_interrupted t'.status)) [
          | inl i ↦ rw (e, i) tt
          | inr i ↦ rw (e, i) same
        ]
      ]

  in_belts-keep :
      (u t : Task) (o : Option Task) (ts : List Task)
      → Same t o
      → same_task t u ≡ false
      → in_belts u ts ≡ false
      → in_belts u (keep o ts) ≡ false
  unfolding in_belts
  in_belts-keep u t none ts h n o = o
  in_belts-keep u t (some t') ts h n o = rw (same_task-SameId u t t' h) (or_false _ _ n o)

  overview-in_belts :
      (u : Task) (ts : List Task) (d : Desk S)
      → in_belts u ts ≡ false
      → in_belts u (overview_status v modules ts d).0 ≡ false
  unfolding overview_status in_belts
  overview-in_belts u [] d o = refl
  overview-in_belts u (t ∷ ts) d o =
      let (left, d1, c1) = overview_task v modules t d in
      let parts = or_parts (same_task t u) (in_belts u ts) o in
      in_belts-keep u t left _ (overview_task-Same t d) parts.0 (overview-in_belts u ts d1 parts.1)

  Apart-keep :
      (t : Task) (o : Option Task) (ts : List Task)
      → Same t o
      → in_belts t ts ≡ false
      → Apart ts
      → Apart (keep o ts)
  Apart-keep t none ts h o a = a
  Apart-keep t (some t') ts h o a = (in_belts-SameId t t' ts h ∙ o, a)

  overview_status-Apart :
      (ts : List Task) (d : Desk S) → Apart ts → Apart (overview_status v modules ts d).0
  unfolding overview_status
  overview_status-Apart [] d a = tt
  overview_status-Apart (t ∷ ts) d a =
      let (left, d1, c1) = overview_task v modules t d in
      Apart-keep t left _ (overview_task-Same t d) (overview-in_belts t ts d1 a.0)
        (overview_status-Apart ts d1 a.1)

  length-keep : (o : Option Task) (ts : List Task) → length (keep o ts) ≤ suc (length ts)
  length-keep none ts = omega arith
  length-keep (some t) ts = omega arith

  length-overview_status :
      (ts : List Task) (d : Desk S) → length (overview_status v modules ts d).0 ≤ length ts
  unfolding overview_status
  length-overview_status [] d = omega arith
  length-overview_status (t ∷ ts) d =
      let (left, d1, c1) = overview_task v modules t d in
      omega
        (arith, length-keep left (overview_status v modules ts d1).0, length-overview_status ts d1)

  pub overview_status-IsBelts :
      (size : ℕ) (ts : List Task) (d : Desk S)
      → IsBelts size ts
      → IsBelts size (overview_status v modules ts d).0
  overview_status-IsBelts size ts d h = record {
    within = omega (arith, length-overview_status ts d, h.within);
    apart = overview_status-Apart ts d h.apart;
  }

  fill_task-IsBelts :
      (size : ℕ) (t : Task) (f : Filling S)
      → IsBelts size f.belts
      → leb size (length f.belts) ≡ false
      → IsBelts size (fill_task v modules t f).belts
  unfolding fill_task
  fill_task-IsBelts size t f h room =
      let r = send_for_testing v modules t f.desk.ext in
      elim (Bool-cases (in_belts t f.belts)) [
        | inl e ↦ rw e h
        | inr e ↦ elim (Bool-cases (not r.failed)) [
          | inl sent ↦
              let new =
                in_belts-SameId t r.task f.belts (send_for_testing-SameId v modules t f.desk.ext) in
              rw (e, sent)
                (record {
                  within = ground (arith, length-append f.belts (r.task ∷ []));
                  apart = Apart-snoc r.task f.belts h.apart (new ∙ e);
                })
          | inr unsent ↦ elim (Bool-cases (not r.task.keep_in_queue)) [
            | inl b ↦ rw (e, unsent, b) h
            | inr b ↦ rw (e, unsent, b) h
          ]
        ]
      ]

  fill_loop-IsBelts :
      (size : ℕ) (ts : List Task) (f : Filling S)
      → IsBelts size f.belts
      → IsBelts size (fill_loop v modules size ts f).1.belts
  unfolding fill_loop
  fill_loop-IsBelts size [] f h = h
  fill_loop-IsBelts size (t ∷ ts) f h = elim (Bool-cases (leb size (length f.belts))) [
    | inl e ↦ rw e h
    | inr e ↦
        rw e (fill_loop-IsBelts size ts (fill_task v modules t f) (fill_task-IsBelts size t f h e))
  ]

  pub fill-IsBelts :
      (size : ℕ) (queue belts : List Task) (d : Desk S)
      → IsBelts size belts
      → IsBelts size (fill v modules size queue belts d).1
  unfolding fill
  fill-IsBelts size queue belts d h = fill_loop-IsBelts size queue _ h

  work-IsBelts : (b : Server S) → IsBelts b.size b.belts → IsBelts b.size (work v modules b).belts
  unfolding work
  work-IsBelts b h =
      let (belts1, d1, c1) = overview_status v modules b.belts b.desk in
      elim (Bool-cases
        (not (is_nil b.belts) || (not (is_nil b.queue) && ltb (length b.belts) b.size))) [
          | inl e ↦ rw e (
              fill-IsBelts b.size b.queue belts1 d1
                (overview_status-IsBelts b.size b.belts b.desk h))
          | inr e ↦ rw e h
        ]

  -- From belts within their size and with tasks of different identities, `wt_belts_update` leaves
  -- such belts, whatever the modules and the web interface answer.
  pub belts_update-IsBelts :
      (b : Server S) → IsBelts b.size b.belts → IsBelts b.size (belts_update v modules b).belts
  unfolding belts_update
  belts_update-IsBelts b h =
      let awake : Server S = record b { waiting = false; update = true; state_changed = false } in
      elim (Bool-cases (not b.active)) [
        | inl e ↦ rw e h
        | inr e ↦ elim (Bool-cases (is_idle b)) [
          | inl i ↦ elim (Bool-cases b.update) [ inl w ↦ rw (e, i, w) h | inr w ↦ rw (e, i, w) h ]
          | inr i ↦ rw (e, i) (work-IsBelts awake h)
        ]
      ]
