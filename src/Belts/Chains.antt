-- ===== src/Belts/Chains.antt =====
-- How a finished task goes through the libraries of its chain.
use web_tester.Prelude.{
  ℕ, zero, suc, ◌+◌, ◌-◌, ◌≤◌, ◌≡◌, ap, Bool, true, false, not, Option, none, some, List, [], arith,
  length, if◌then◌else◌, Bool-cases, inl, inr, append-nil, is_nil, Text,
}
use web_tester.Task.Defs.{Task, is_chain_empty, free_buffer_locked}
use web_tester.Modules.{TestModule, Services, module_send_for_testing}
use web_tester.Belts.Defs.{
  Desk, with_pipe, chain_lid, send_to_chain, chain_loop, is_finished, is_interrupted, overview_task,
}

-- What a sending to the chain does to the task's place in the chain and to its flag.
record Moved (t : Task) (t' : Task) : Type 0 where
  chain : t'.chain ≡ t.chain
  cur : t'.cur ≡ t.cur + 1
  keep : t.keep_in_queue ≡ true → t'.keep_in_queue ≡ true

module _ {S : Type 0} (v : Services S) (modules : List TestModule) where
  module_send-chain :
      (t : Task) (s : S)
      → (let r = module_send_for_testing v modules t s in
          (r.task.chain ≡ t.chain)
          × (r.task.cur ≡ t.cur)
          × (t.keep_in_queue ≡ true → r.task.keep_in_queue ≡ true))
  unfolding module_send_for_testing
  module_send-chain t s = (ground arith, ground arith, λ h. ground arith)

  Moved-with_pipe : (t u : Task) (e : Option Text) → Moved t u → Moved t (with_pipe u e)
  Moved-with_pipe t u none h = h
  Moved-with_pipe t u (some e) h = record { chain = h.chain; cur = h.cur; keep = h.keep }

  send_to_chain-Moved : (t : Task) (s : S) → Moved t (send_to_chain v modules t s).task
  unfolding send_to_chain
  send_to_chain-Moved t s =
      let started : Task = record t {
        cur_lid = chain_lid t.chain t.cur;
        started = true;
        cur = t.cur + 1;
        message = [];
      } in
      let r = module_send_for_testing v modules started s in
      let sent = module_send-chain started s in
      Moved-with_pipe t r.task r.error (record { chain = sent.0; cur = sent.1; keep = sent.2 })

  -- The loop over the chain ends within its rounds: more rounds change nothing.
  pub chain_loop-enough :
      (k : ℕ) (t : Task) (s : S)
      → length t.chain - t.cur ≤ k
      → chain_loop v modules (suc k) t s ≡ chain_loop v modules k t s
  unfolding chain_loop
  chain_loop-enough zero t s h = let e : is_chain_empty t ≡ true = ground arith in rw e
  chain_loop-enough (suc k) t s h =
      let r = send_to_chain v modules t s in
      let m = send_to_chain-Moved t s in
      let less : is_chain_empty t ≡ false → length r.task.chain - r.task.cur ≤ k =
        λ e. ground (arith, ap (length {0}) m.chain, m.cur) in
      elim (Bool-cases (is_chain_empty t)) [
        | inl e ↦ rw e
        | inr e ↦ rw (chain_loop-enough k r.task r.ext (less e))
      ]

  -- The way of a task through its chain, and what comes of it: it is to be returned once no library is
  -- left; a library that takes it ends the way; one that refuses it with the flag set keeps it at its
  -- place in the chain; and any other is passed over.
  pub data Way : Task → S → Bool × Task × S → Type 0 where
    at_end : {t : Task} {s : S} → is_chain_empty t ≡ true → Way t s (true, t, s)
    taken :
        {t : Task} {s : S}
        → is_chain_empty t ≡ false
        → (send_to_chain v modules t s).failed ≡ false
        → Way t s (false, (send_to_chain v modules t s).task, (send_to_chain v modules t s).ext)
    waits :
        {t : Task} {s : S} (t' : Task)
        → is_chain_empty t ≡ false
        → (send_to_chain v modules t s).failed ≡ true
        → (send_to_chain v modules t s).task.keep_in_queue ≡ true
        → t' ≡ record ((send_to_chain v modules t s).task) { cur = t.cur }
        → Way t s (false, t', (send_to_chain v modules t s).ext)
    passes :
        {t : Task} {s : S} {r : Bool × Task × S}
        → is_chain_empty t ≡ false
        → (send_to_chain v modules t s).failed ≡ true
        → (send_to_chain v modules t s).task.keep_in_queue ≡ false
        → Way (send_to_chain v modules t s).task (send_to_chain v modules t s).ext r
        → Way t s r

  -- A flag that is set before the chain is walked stays set, since `send_to_chain` does not clear it:
  -- a task that has a library left in its chain is then never returned, not even if every library
  -- refuses it for good.
  chain_loop-stale_keep :
      (k : ℕ) (t : Task) (s : S)
      → t.keep_in_queue ≡ true
      → is_chain_empty t ≡ false
      → (chain_loop v modules (suc k) t s).0 ≡ false
  unfolding chain_loop
  chain_loop-stale_keep k t s flag e =
      let r = send_to_chain v modules t s in
      let kept = (send_to_chain-Moved t s).keep flag in
      elim (Bool-cases r.failed) [ inl failed ↦ rw (e, failed, kept) | inr took ↦ rw (e, took) ]

  -- A task that is still being tested stays in the belts as it is, text and all: freeing its buffer
  -- appends nothing to it. So a text that a module left there counts as a change each time.
  overview_task-running :
      (t : Task) (d : Desk S)
      → is_finished t.status ≡ false
      → is_interrupted t.status ≡ false
      → overview_task v modules t d ≡ (some t, d, not (is_nil t.pipe))
  unfolding overview_task free_buffer_locked
  overview_task-running t d nf ni =
      let same : (if not (is_nil t.pipe) then free_buffer_locked t else t) ≡ t =
        elim (Bool-cases (not (is_nil t.pipe))) [
          | inl e ↦ rw e (ap (λ (p : Text). record t { pipe = p }) (append-nil t.pipe))
          | inr e ↦ rw e
        ] in
      rw (same, nf, ni)
