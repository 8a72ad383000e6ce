-- ===== src/Belts/Runs.antt =====
-- The server over time: what the main thread, the scheduler, the console and the threads of the testing
-- modules do to the queue and the belts, one step after another. A call of the main loop and a report
-- of a module are whole steps; what could happen inside one of them is not modelled.
use web_tester.Prelude.{
  ℕ, ◌+◌, ◌≡◌, refl, sym, ◌∙◌, ap, Bool, ◌||◌, List, [], ◌∷◌, ◌++◌, ℤ, length, arith, subst,
  Bool-cases, inl, inr, eq_ℤ, leb,
}
use web_tester.Task.Defs.{Task, added, in_chain, max_chain, refused, overrun, chain_test}
use web_tester.Modules.{TestModule, Reply, Services, replied}
use web_tester.Belts.Defs.{
  in_belts, accumulator_overview, Server, start, stop, status_changed, belts_update, work,
}
use web_tester.Belts.Identity.{SameId, tally, tally-append, mark-SameId}
use web_tester.Queue.{queue_unpack, queue_free}
use web_tester.Queue.Unpack.{queue_unpack-packed, queue_free-total}
use web_tester.Belts.Conservation.{total, belts_update-total, accumulator_overview-held}
use web_tester.Belts.Capacity.{
  Apart, IsBelts, same_task-SameId, in_belts-SameId, belts_update-IsBelts,
}

-- What the module that tests a task may do to it: set its status, flag and texts, or add to its chain.
pub data Reported : Task → Task → Type 0 where
  replies : {t : Task} (r : Reply) → Reported t (replied t r)
  chains : {t t' : Task} (lid : ℤ) → chain_test t lid ≡ added t' → Reported t t'

-- One task of the list was reported on.
pub data ReportedIn : List Task → List Task → Type 0 where
  here : {t t' : Task} {ts : List Task} → Reported t t' → ReportedIn (t ∷ ts) (t' ∷ ts)
  there : {t : Task} {ts us : List Task} → ReportedIn ts us → ReportedIn (t ∷ ts) (t ∷ us)

added_at :
    (t t' : Task) (lid : ℤ)
    → added (record t { chain = t.chain ++ lid ∷ [] }) ≡ added t'
    → SameId t t'
added_at t t' lid e =
    let same : record t { chain = t.chain ++ lid ∷ [] } ≡ t' = cc in
    record { sid = ap (λ (x : Task). x.sid) (sym same); lid = ap (λ (x : Task). x.lid) (sym same) }

added_same : (t t' : Task) (lid : ℤ) → chain_test t lid ≡ added t' → SameId t t'
unfolding chain_test
added_same t t' lid e = elim (Bool-cases (in_chain lid t.chain || eq_ℤ t.lid lid)) [
  | inl known ↦
      let q : chain_test t lid ≡ refused = rw known refl in
      let r : refused ≡ added t' = sym q ∙ e in cc
  | inr new ↦ elim (Bool-cases (leb max_chain (length t.chain))) [
    | inl full ↦
        let q : chain_test t lid ≡ overrun = rw (new, full) refl in
        let r : overrun ≡ added t' = sym q ∙ e in cc
    | inr fits ↦
        let q : chain_test t lid ≡ added (record t { chain = t.chain ++ lid ∷ [] }) =
          rw (new, fits) refl in
        added_at t t' lid (sym q ∙ e)
  ]
]

Reported-SameId : {t t' : Task} → Reported t t' → SameId t t'
Reported-SameId (replies r) = record { sid = refl; lid = refl }
Reported-SameId {t = t} {t' = t'} (chains lid e) = added_same t t' lid e

ReportedIn-in_belts :
    (k : Task) {ts us : List Task} → ReportedIn ts us → in_belts k us ≡ in_belts k ts
unfolding in_belts
ReportedIn-in_belts k (here {t} {t'} {ts} r) =
    ap (λ b. b || in_belts k ts) (same_task-SameId k t t' (Reported-SameId r))
ReportedIn-in_belts k (there {t} r) = rw (ReportedIn-in_belts k r) refl

ReportedIn-Apart : {ts us : List Task} → ReportedIn ts us → Apart ts → Apart us
ReportedIn-Apart (here {t} {t'} {ts} r) a = (in_belts-SameId t t' ts (Reported-SameId r) ∙ a.0, a.1)
ReportedIn-Apart (there {t} r) a = (ReportedIn-in_belts t r ∙ a.0, ReportedIn-Apart r a.1)

ReportedIn-length : {ts us : List Task} → ReportedIn ts us → length us ≡ length ts
ReportedIn-length (here r) = refl
ReportedIn-length (there r) = omega (arith, ReportedIn-length r)

ReportedIn-tally : (k : Task) {ts us : List Task} → ReportedIn ts us → tally k us ≡ tally k ts
ReportedIn-tally k (here {t} {t'} {ts} r) = omega (arith, mark-SameId k t t' (Reported-SameId r))
ReportedIn-tally k (there r) = omega (arith, ReportedIn-tally k r)

module _ {S : Type 0} (v : Services S) (modules : List TestModule) where
  -- A step, and the tasks that arrive with it.
  pub data Step : Server S → List Task → Server S → Type 0 where
    starts : {b : Server S} → Step b [] (start b)
    stops : {b : Server S} → Step b [] (stop b)
    changes : {b : Server S} → Step b [] (status_changed b)
    updates : {b : Server S} → Step b [] (belts_update v modules b)
    unpacks : {b : Server S} (n : ℕ) → Step b [] (queue_unpack v n b)
    frees : {b : Server S} → Step b [] (queue_free v modules b)
    overviews : {b : Server S} → Step b [] (record b { desk = accumulator_overview v b.desk })
    reports :
        {b : Server S} {ts : List Task} (changed : Bool)
        → ReportedIn b.belts ts
        → Step b [] (record b { belts = ts; state_changed = b.state_changed || changed })
    arrives :
        {b : Server S} (ts : List Task) (s : S)
        → Step b ts (record b { queue = b.queue ++ ts; desk = record (b.desk) { ext = s } })

  -- Steps one after another, with all the tasks that arrive.
  pub data Run : Server S → List Task → Server S → Type 0 where
    done : {b : Server S} → Run b [] b
    next : {b c d : Server S} {ts us : List Task} → Step b ts c → Run c us d → Run b (ts ++ us) d

  update-size : (b : Server S) → (belts_update v modules b).size ≡ b.size
  unfolding belts_update work
  update-size b = ground arith

  Step-keeps :
      (k : Task) {b c : Server S} {ts : List Task}
      → Step b ts c
      → IsBelts b.size b.belts
      → (c.size ≡ b.size) × IsBelts b.size c.belts × (total k c ≡ total k b + tally k ts)
  unfolding start stop status_changed queue_unpack queue_free
  Step-keeps k starts h = (refl, record { within = h.within; apart = h.apart }, omega arith)
  Step-keeps k stops h = (refl, record { within = h.within; apart = h.apart }, omega arith)
  Step-keeps k changes h = (refl, record { within = h.within; apart = h.apart }, omega arith)
  Step-keeps k (updates {b}) h = (
    update-size b,
    belts_update-IsBelts v modules b h,
    omega (arith, belts_update-total v modules k b),
  )
  Step-keeps k (unpacks {b} n) h = (
    refl,
    record { within = h.within; apart = h.apart },
    omega (arith, (queue_unpack-packed v k n b).0),
  )
  Step-keeps k (frees {b}) h = (
    refl,
    record { within = h.within; apart = h.apart },
    omega (arith, queue_free-total v modules k b),
  )
  Step-keeps k (overviews {b}) h = (
    refl,
    record { within = h.within; apart = h.apart },
    omega (arith, accumulator_overview-held v k b.desk),
  )
  Step-keeps k (reports {b} {ts} changed r) h = (
    refl,
    record {
      within = omega (arith, ReportedIn-length r, h.within);
      apart = ReportedIn-Apart r h.apart;
    },
    omega (arith, ReportedIn-tally k r),
  )
  Step-keeps k (arrives {b} ts s) h = (
    refl,
    record { within = h.within; apart = h.apart },
    omega (arith, tally-append k b.queue ts),
  )

  -- From belts in order, whatever happens in whatever order, the belts stay within their size, with
  -- tasks of different identities; and of every identity as many tasks wait, are tested, could not be
  -- delivered yet, or have left, as there were at first and have arrived since.
  pub Run-keeps :
      (k : Task) {b c : Server S} {ts : List Task}
      → Run b ts c
      → IsBelts b.size b.belts
      → IsBelts b.size c.belts × (total k c ≡ total k b + tally k ts)
  Run-keeps k done h = (h, omega arith)
  Run-keeps k (next {b} {c} {d} {ts} {us} step rest) h =
      let first = Step-keeps k step h in
      let later = Run-keeps k rest (rw (first.0) (first.1)) in
      (
        subst (λ n. IsBelts n d.belts) (first.0) (later.0),
        omega (arith, first.2, later.1, tally-append k ts us),
      )
