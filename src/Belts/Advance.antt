-- ===== src/Belts/Advance.antt =====
-- How `belts_fill` of webtester/belts.c moves to the next item of the queue: it deletes the item and
-- then reads its pointer.
use web_tester.Prelude.{ℕ, ◌≡◌, refl, ap, ◌==◌, Bool-cases, inl, inr, none, some, List, ◌∷◌, ◌++◌}
use web_tester.Dyna.Memory.{null, Memory, Run, fault, Cmd, pure, and_then, ◌>>=◌, ◌>>◌, load}
use web_tester.Dyna.Ops.{Handle, delete}
use web_tester.Dyna.Shape.{Returns, returns, Node, IsDyna}
use web_tester.Dyna.Delete.{delete-removes}

-- `dyna_delete (__queue, cur, 0); cur = dyna_next (cur);`
unfoldable pub advance : Handle → ℕ → Cmd ℕ
advance queue cur = do delete (some queue) cur null; c ← load cur; pure c.next_ptr

load-free : (m : Memory) (p : ℕ) → m.cells p ≡ none → load p m ≡ fault
unfolding load
load-free m p free = elim (Bool-cases (p == null)) [ inl e ↦ rw e refl | inr e ↦ rw (e, free) refl ]

after-free :
    {A : Type 0} {P : A → Memory → Type 0} {r : Run A} (p : ℕ)
    → Returns P r
    → ((a : A) (n : Memory) → P a n → n.cells p ≡ none)
    → and_then r (λ _. load p >>= λ c. pure c.next_ptr) ≡ fault
after-free p (returns got) free =
    ap (λ r. and_then r (λ c. pure c.next_ptr)) (load-free _ p (free _ _ got))

-- Whatever list the queue stands for, moving on from one of its items reads a cell that is free.
pub advance-fault :
    (m : Memory) (queue : Handle) (xs : List Node) (x : Node) (ys : List Node)
    → IsDyna m.cells queue (xs ++ x ∷ ys)
    → advance queue x.at m ≡ fault
unfolding advance
advance-fault m queue xs x ys h =
    after-free x.at (delete-removes m queue xs x ys null h) (λ a n got. got.2.freed)
