-- ===== src/Belts/Identity.antt =====
-- The solution and the library that a task belongs to stay with it, whatever is done to it; so the
-- number of tasks of one identity in a list can be followed.
use web_tester.Prelude.{
  Text, ℕ, zero, suc, ◌+◌, ◌≡◌, refl, ◌∙◌, true, false, Option, none, some, List, [], ◌∷◌, ◌++◌,
  arith, if◌then◌else◌,
}
use web_tester.Task.Defs.{Task, same_task, free_buffer_locked}
use web_tester.Modules.{TestModule, Services, module_send_for_testing}
use web_tester.Belts.Defs.{
  Fate, with_pipe, chain_lid, send_to_chain, chain_loop, step_back, send_for_testing,
}

-- Two states of one task.
pub record SameId (t t' : Task) : Type 0 where
  pub sid : t'.sid ≡ t.sid
  pub lid : t'.lid ≡ t.lid

pub SameId-refl : (t : Task) → SameId t t
SameId-refl t = record { sid = refl; lid = refl }

pub SameId-trans : (t u w : Task) → SameId t u → SameId u w → SameId t w
SameId-trans t u w a b = record { sid = b.sid ∙ a.sid; lid = b.lid ∙ a.lid }

with_pipe-SameId : (t u : Task) (e : Option Text) → SameId t u → SameId t (with_pipe u e)
with_pipe-SameId t u none h = h
with_pipe-SameId t u (some e) h = record { sid = h.sid; lid = h.lid }

module _ {S : Type 0} (v : Services S) (modules : List TestModule) where
  pub module_send-SameId :
      (t : Task) (s : S) → SameId t (module_send_for_testing v modules t s).task
  unfolding module_send_for_testing
  module_send-SameId t s = ground arith

  pub send_to_chain-SameId : (t : Task) (s : S) → SameId t (send_to_chain v modules t s).task
  unfolding send_to_chain
  send_to_chain-SameId t s =
      let started = record t {
        cur_lid = chain_lid t.chain t.cur;
        started = true;
        cur = t.cur + 1;
        message = [];
      } in
      let sent = module_send-SameId started s in
      with_pipe-SameId t _ _ (record { sid = sent.sid; lid = sent.lid })

  pub chain_loop-SameId : (k : ℕ) (t : Task) (s : S) → SameId t (chain_loop v modules k t s).1
  unfolding chain_loop
  chain_loop-SameId zero t s = SameId-refl t
  chain_loop-SameId (suc k) t s =
      let r = send_to_chain v modules t s in
      let sent = send_to_chain-SameId t s in
      let again = SameId-trans t r.task _ sent (chain_loop-SameId k r.task r.ext) in
      let back : SameId t (step_back r.task) =
        unfold step_back in record { sid = sent.sid; lid = sent.lid } in
      ground arith

  pub send_for_testing-SameId : (t : Task) (s : S) → SameId t (send_for_testing v modules t s).task
  unfolding send_for_testing
  send_for_testing-SameId t s =
      let (failed, s') = v.get_task s (record t { keep_in_queue = false }) in
      let sent = module_send-SameId (record t { keep_in_queue = false; unpacked = true }) s' in
      ground (arith, sent)

pub free_buffer-SameId : (t : Task) → SameId t (free_buffer_locked t)
unfolding free_buffer_locked
free_buffer-SameId t = record { sid = refl; lid = refl }

-- 1 for a task of the identity of `k`, and 0 for another.
pub mark : Task → Task → ℕ
mark k t = if same_task t k then 1 else 0

pub mark-SameId : (k t t' : Task) → SameId t t' → mark k t' ≡ mark k t
unfolding mark
mark-SameId k t t' h = rw (h.sid, h.lid)

-- The number of tasks of the identity of `k` in a list.
abbrev pub tally : Task → List Task → ℕ
tally k [] = 0
tally k (t ∷ ts) = mark k t + tally k ts

-- The number of tasks of that identity that have left.
abbrev pub tally_gone : Task → List (Fate × Task) → ℕ
tally_gone k [] = 0
tally_gone k ((_, t) ∷ ts) = mark k t + tally_gone k ts

abbrev pub tally_kept : Task → Option (List Task) → ℕ
tally_kept k none = 0
tally_kept k (some ts) = tally k ts

pub tally-append : (k : Task) (xs ys : List Task) → tally k (xs ++ ys) ≡ tally k xs + tally k ys
tally-append k [] ys = omega arith
tally-append k (x ∷ xs) ys = omega (arith, tally-append k xs ys)
