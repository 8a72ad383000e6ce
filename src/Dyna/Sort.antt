-- ===== src/Dyna/Sort.antt =====
-- `dyna_sort` of libwebtester/dynastruc.c on cells: its passes one after another.
use web_tester.Prelude.{
  ℕ, zero, suc, ◌≡◌, refl, sym, ◌∙◌, ap, Bool, true, false, some, List, [], ◌∷◌, ℤ, pos, rounds,
  dec, length, arith, subst,
}
use web_tester.Dyna.Memory.{null, Memory}
use web_tester.Dyna.Ops.{Handle, sort_pass, sort_loop, sort}
use web_tester.Dyna.Shape.{
  Returns, returns, Returns-bind, Returns-mono, Node, Linked, IsDyna, SameOutside,
}
use web_tester.Dyna.Bubble.{pass, passes, IsSorted, count, count-passes, passes-IsSorted}
use web_tester.Dyna.Passes.{
  Payload, contents, gt, walk, Walked, contents-walk, first-walk, last-walk, has-walk, length-walk,
  Distinct-walk, sort_pass_lem,
}

module _ (comparator : ℕ → ℕ → ℤ) where
  abbrev walk_list : List Node → List Node
  walk_list [] = []
  walk_list (x ∷ ys) = walk comparator x ys

  abbrev walks : ℕ → List Node → List Node
  walks zero xs = xs
  walks (suc k) xs = walks k (walk_list xs)

  -- The handle and the list after some passes.
  record Passed (m : Memory) (s : Handle) (xs ys : List Node) (n : Memory) : Type 0 where
    stands : IsDyna n.cells s ys
    same : SameOutside xs m.cells n.cells
    calls : n.calls ≡ m.calls

  pass-IsDyna :
      (m n : Memory) (s : Handle) (x : Node) (xs : List Node)
      → IsDyna m.cells s (x ∷ xs)
      → Linked n.cells null (walk comparator x xs) null
      → IsDyna n.cells s (walk comparator x xs)
  pass-IsDyna m n s x xs h l = record {
    head = h.head ∙ sym (first-walk comparator x xs null);
    tail = h.tail ∙ sym (last-walk comparator x xs null);
    count = h.count ∙ ap pos (sym (length-walk comparator x xs));
    distinct = Distinct-walk comparator x xs h.distinct;
    linked = l;
  }

  sort_loop_lem :
      (k r : ℕ) (m : Memory) (s : Handle) (xs : List Node)
      → IsDyna m.cells s xs
      → length xs ≡ suc r
      → Returns (λ u n. Passed m s xs (walks k xs) n) (sort_loop k r s.head comparator m)
  unfolding sort_loop
  sort_loop_lem zero r m s xs h e =
      returns (record { stands = h; same = λ a o. refl; calls = refl })
  sort_loop_lem (suc k) r m s [] h e = let no : ⊥ = omega (arith, e) in elim no [ ]
  sort_loop_lem (suc k) r m s (x ∷ xs) h e =
      let rounds_of : length xs ≡ r = omega (arith, e) in
      let one = sort_pass_lem comparator m null x xs h.distinct h.linked in
      Returns-bind
        (subst
          (λ a.
            Returns (λ u n. Walked comparator m null (x ∷ xs) (walk comparator x xs) n)
              (sort_pass r a comparator m))
          (sym h.head)
          (subst
            (λ a.
              Returns (λ u n. Walked comparator m null (x ∷ xs) (walk comparator x xs) n)
                (sort_pass a x.at comparator m))
            rounds_of one))
        λ u n walked.
          Returns-mono
            (sort_loop_lem k r n s (walk comparator x xs) (pass-IsDyna m n s x xs h (walked.0))
              (length-walk comparator x xs ∙ e))
            λ v o passed. record {
              stands = passed.stands;
              same = λ a out. passed.same a (has-walk comparator a x xs ∙ out) ∙ walked.1 a out;
              calls = passed.calls ∙ walked.2;
            }

  contents-walk_list :
      (xs : List Node) → contents (walk_list xs) ≡ pass (gt comparator) (contents xs)
  contents-walk_list [] = refl
  contents-walk_list (x ∷ xs) = contents-walk comparator x xs

  contents-walks :
      (k : ℕ) (xs : List Node) → contents (walks k xs) ≡ passes (gt comparator) k (contents xs)
  contents-walks zero xs = refl
  contents-walks (suc k) xs =
      contents-walks k (walk_list xs) ∙ ap (passes (gt comparator) k) (contents-walk_list xs)

  length-contents : (xs : List Node) → length (contents xs) ≡ length xs
  length-contents [] = refl
  length-contents (x ∷ xs) = ap suc (length-contents xs)

  sort_runs :
      (m : Memory) (s : Handle) (xs : List Node)
      → IsDyna m.cells s xs
      → Returns (λ u n. Passed m s xs (walks (length xs) xs) n) (sort (some s) comparator m)
  unfolding sort
  sort_runs m s xs h =
      subst
        (λ c.
          Returns (λ u n. Passed m s xs (walks (length xs) xs) n)
            (sort_loop (rounds c) (rounds (dec c)) s.head comparator m))
        (sym h.count) (from_count xs h)
    where
      from_count :
          (ys : List Node)
          → IsDyna m.cells s ys
          → Returns
              (λ u n. Passed m s ys (walks (length ys) ys) n)
              (sort_loop (length ys) (rounds (dec (pos (length ys)))) s.head comparator m)
      from_count [] i =
          unfold sort_loop in returns (record { stands = i; same = λ a o. refl; calls = refl })
      from_count (y ∷ ys) i = sort_loop_lem (suc (length ys)) (length ys) m s (y ∷ ys) i refl

  -- What `dyna_sort` promises: the same handle stands for a list in order, in which every test finds
  -- as many items as before; only the cells of the list are written, and no deleter is called.
  pub record Sorted (m : Memory) (s : Handle) (xs : List Node) (n : Memory) : Type 0 where
    pub list : List Node
    pub stands : IsDyna n.cells s list
    pub in_order : IsSorted (gt comparator) (contents list)
    pub keeps :
        (test : Payload → Bool)
        → count (gt comparator) test (contents list) ≡ count (gt comparator) test (contents xs)
    pub same : SameOutside xs m.cells n.cells
    pub calls : n.calls ≡ m.calls

  -- With a comparator that is asymmetric where it is positive, and transitive where it is not,
  -- `dyna_sort` neither faults nor runs on. The same handle then stands for a list in order, in which
  -- every test of data and tag finds as many items as before; only cells of the list are written,
  -- and no deleter is called.
  pub sort-Sorted :
      (m : Memory) (s : Handle) (xs : List Node)
      → ((d e : Payload) → gt comparator d e ≡ true → gt comparator e d ≡ false)
      → ((d e f : Payload)
          → gt comparator d e ≡ false
          → gt comparator e f ≡ false
          → gt comparator d f ≡ false)
      → IsDyna m.cells s xs
      → Returns (λ u n. Sorted m s xs n) (sort (some s) comparator m)
  sort-Sorted m s xs asym trans h =
      let same = contents-walks (length xs) xs in
      let ordered = passes-IsSorted (gt comparator) asym trans (contents xs) in
      Returns-mono (sort_runs m s xs h) λ u n passed. record {
        list = walks (length xs) xs;
        stands = passed.stands;
        in_order = rw (same, sym (length-contents xs)) ordered;
        keeps = λ test.
            ap (count (gt comparator) test) same
            ∙ count-passes (gt comparator) test (length xs) (contents xs);
        same = passed.same;
        calls = passed.calls;
      }
