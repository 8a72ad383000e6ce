-- ===== src/Dyna/Ends.antt =====
-- The stack and queue operations of dynastruc.c: an item joins or leaves at either end.
use web_tester.Prelude.{
  ℕ, ◌≡◌, refl, sym, ◌∙◌, ap, ◌≢◌, Bool, true, false, some, none, List, [], ◌∷◌, ◌++◌, arith, ◌==◌,
  if◌then◌else◌, pos, negsuc, length, length-append, append-nil, suc, dec, is_zero, subst,
}
use web_tester.Dyna.Memory.{null, Memory, ok, write}
use web_tester.Dyna.Ops.{Handle, push, add_to_back, pop, del_from_back, without}
use web_tester.Dyna.Access.{ne_null, load_lem, set_next_lem, set_prev_lem}
use web_tester.Dyna.Delete.{Gone, Stands, delete_item_lem}
use web_tester.Dyna.Shape.{
  Returns, returns, Returns-bind, Node, first, last, has, Distinct, cell, Linked, IsDyna,
  SameOutside, Linked-write, Linked-relink, Linked-repoint, Linked-join, Linked-split, write_ne,
  write_self, ne_of_has, last-ne_null, not-has-cons, ==_swap, has-last, Distinct-join,
  Distinct-left, Distinct-right, has-append, not-has-append, last-append,
}

abbrev pub node : ℕ → ℕ → ℕ → Node
node a item tag = record { at = a; item = item; tag = tag }

module _ (m : Memory) (s : Handle) (item tag fresh : ℕ) (new : fresh ≢ null) where
  -- `dyna_push` at an unused address puts a new item in front of the list, and writes only there and
  -- at the first item.
  push-cons :
      (xs : List Node)
      → IsDyna m.cells s xs
      → has fresh xs ≡ false
      → Returns
          (λ (r, t) n.
            (r ≡ pos 0)
            × Stands n.cells t (node fresh item tag ∷ xs)
            × SameOutside (node fresh item tag ∷ xs) m.cells n.cells
            × (n.calls ≡ m.calls))
          (push (some s) item tag fresh m)
  unfolding push
  push-cons [] h out =
      rw (h.head, h.tail, h.count)
        (let e : (fresh == null) ≡ false = ground arith in
          rw e (
            returns (
              refl,
              record {
                head = refl;
                tail = refl;
                count = refl;
                distinct = (new, refl, tt);
                linked = (write_self m.cells fresh _, tt);
              },
              λ a o. write_ne m.cells fresh _ a (not-has-cons a (node fresh item tag) [] o).0,
              refl,
            )))
  push-cons (x ∷ xs) h out =
      let e : (fresh == null) ≡ false = ground arith in
      let ne = not-has-cons fresh x xs out in
      let new_cell = cell null (node fresh item tag) x.at in
      let m1 : Memory = record m { cells = write m.cells fresh (some new_cell) } in
      let old =
        write_ne m.cells fresh (some new_cell) x.at (==_swap fresh x.at ne.0) ∙ h.linked.0 in
      rw (h.head, h.tail, h.count, e, last-ne_null x xs h.distinct)
        (rw (ne_null m1 x.at _ h.distinct.0 old, set_prev_lem m1 x.at _ h.distinct.0 old fresh)
          (returns (
            refl,
            record {
              head = refl;
              tail = refl;
              count = refl;
              distinct = (new, out, h.distinct);
              linked = (
                write_ne _ x.at _ fresh ne.0 ∙ write_self m.cells fresh _,
                Linked-repoint m1.cells null fresh x xs null h.distinct
                    (Linked-write m.cells null (x ∷ xs) null fresh _ out h.linked),
              );
            },
            λ a o.
                let first_ne = not-has-cons a (node fresh item tag) (x ∷ xs) o in
                write_ne _ x.at _ a (not-has-cons a x xs first_ne.1).0
                ∙ write_ne m.cells fresh _ a first_ne.0,
            refl,
          )))

-- A list is empty or has a last item.
data Snoc : List Node → Type 0 where
  empty : Snoc []
  ending : (xs : List Node) (x : Node) → Snoc (xs ++ x ∷ [])

snoc_view : (xs : List Node) → Snoc xs
snoc_view [] = empty
snoc_view (x ∷ xs) = longer x (snoc_view xs)
  where
    longer : (x : Node) {xs : List Node} → Snoc xs → Snoc (x ∷ xs)
    longer x empty = ending [] x
    longer x (ending xs y) = ending (x ∷ xs) y

module _ (m : Memory) (s : Handle) (item tag fresh : ℕ) (new : fresh ≢ null) where
  -- `dyna_add_to_back` at an unused address puts a new item behind the list, and writes only there
  -- and at the last item.
  add_to_back-append :
      (xs : List Node)
      → IsDyna m.cells s xs
      → has fresh xs ≡ false
      → Returns
          (λ (r, t) n.
            (r ≡ pos 0)
            × Stands n.cells t (xs ++ node fresh item tag ∷ [])
            × SameOutside (xs ++ node fresh item tag ∷ []) m.cells n.cells
            × (n.calls ≡ m.calls))
          (add_to_back (some s) item tag fresh m)
  unfolding add_to_back
  add_to_back-append [] h out =
      let e : (fresh == null) ≡ false = ground arith in
      rw (h.head, h.tail, h.count, e)
        (returns (
          refl,
          record {
            head = refl;
            tail = refl;
            count = refl;
            distinct = (new, refl, tt);
            linked = (write_self m.cells fresh _, tt);
          },
          λ a o. write_ne m.cells fresh _ a (not-has-cons a (node fresh item tag) [] o).0,
          refl,
        ))
  add_to_back-append (x ∷ xs) h out =
      let e : (fresh == null) ≡ false = ground arith in
      let l = last x.at xs in
      let z = node fresh item tag in
      let new_cell = cell l z null in
      let m1 : Memory = record m { cells = write m.cells fresh (some new_cell) } in
      let old = Linked-write m.cells null (x ∷ xs) null fresh (some new_cell) out h.linked in
      let edge = Linked-relink m1.cells null x xs null fresh h.distinct old in
      let ne = ne_of_has fresh l (x ∷ xs) (has-last x xs) out in
      rw (h.head, h.tail, h.count, e, last-ne_null x xs h.distinct)
        (rw (set_next_lem m1 l _ edge.2 edge.1 fresh) (
          returns (
            refl,
            record {
              head = refl;
              tail = sym (last-append x.at xs (z ∷ []));
              count =
                  let more : suc (suc (length xs)) ≡ suc (length (xs ++ z ∷ [])) =
                    omega (arith, length-append xs (z ∷ [])) in
                  ap pos more;
              distinct =
                  Distinct-join (x ∷ xs) (z ∷ []) h.distinct (new, refl, tt)
                    (λ a i. ground (arith, ne_of_has fresh a (x ∷ xs) i out));
              linked =
                  Linked-join _ null (x ∷ xs) (z ∷ []) null edge.3
                    (write_ne _ l _ fresh ne ∙ write_self m.cells fresh _, tt);
            },
            λ a o.
                let outs = not-has-append a (x ∷ xs) (z ∷ []) o in
                write_ne _ l _ a (ne_of_has a l (x ∷ xs) (has-last x xs) outs.0)
                ∙ write_ne m.cells fresh _ a (not-has-cons a z [] outs.1).0,
            refl,
          )))

if_same {ℓ} : {A : Type ℓ} (b : Bool) (a : A) → (if b then a else a) ≡ a
if_same true a = refl
if_same false a = refl

-- The tail that `dyna_pop` leaves.
popped_tail :
    (x : Node) (xs : List Node)
    → Distinct (x ∷ xs)
    → (if first xs null == null
        then null
        else (if last x.at xs == x.at then null else last x.at xs))
      ≡ last null xs
popped_tail x [] d = refl
popped_tail x (y ∷ ys) d =
    let ne = ne_of_has x.at (last y.at ys) (y ∷ ys) (has-last y ys) d.1 in
    let e : (y.at == null) ≡ false = ground arith in rw (e, ==_swap _ _ ne)

-- The head that `dyna_del_from_back` leaves.
dropped_head :
    (xs : List Node) (x : Node)
    → Distinct (xs ++ x ∷ [])
    → (if last null xs == null
        then null
        else (if x.at == first (xs ++ x ∷ []) null then null else first (xs ++ x ∷ []) null))
      ≡ first xs null
dropped_head [] x d = refl
dropped_head (z ∷ zs) x d =
    let e = last-ne_null z zs (Distinct-left (z ∷ zs) (x ∷ []) d) in
    let o : (x.at == z.at) ≡ false = ground (arith, has-append z.at zs (x ∷ [])) in rw (e, o)

module _ (m : Memory) (s : Handle) where
  -- `dyna_pop` returns the data and the tag of the first item, which leaves the list; nothing is
  -- written outside the list, and no deleter is called.
  pop-first :
      (x : Node) (xs : List Node)
      → IsDyna m.cells s (x ∷ xs)
      → Returns
          (λ (r, got, t) n.
            (r ≡ pos 0)
            × (got ≡ some (x.item, x.tag))
            × Stands n.cells t xs
            × Gone m n [] x xs null)
          (pop (some s) m)
  unfolding pop without
  pop-first x xs h =
      rw (ap is_zero h.count, h.head, load_lem m x.at _ h.distinct.0 h.linked.0)
        (Returns-bind
          (delete_item_lem [] x xs null m (record s { head = first xs null }) h.distinct h.linked)
          λ s' n got. returns (
            refl,
            refl,
            subst
                (λ t.
                  IsDyna n.cells (record t { tail = if t.head == null then null else t.tail }) xs)
                (sym got.0)
                (record {
                  head = if_same (x.at == first xs null) (first xs null);
                  tail =
                      rw (if_same (x.at == first xs null) (first xs null), h.tail)
                        (popped_tail x xs h.distinct);
                  count = ap dec h.count;
                  distinct = h.distinct.2;
                  linked = got.1.linked;
                }),
            got.1,
          ))

  -- On an empty list `dyna_pop` returns -1 and changes nothing.
  pub pop-empty : IsDyna m.cells s [] → pop (some s) m ≡ ok (negsuc 0, none, some s) m
  unfolding pop
  pop-empty h = rw h.count

  -- `dyna_del_from_back` returns the data and the tag of the last item, which leaves the list;
  -- nothing is written outside the list, and no deleter is called.
  del_from_back-last :
      (xs : List Node) (x : Node)
      → IsDyna m.cells s (xs ++ x ∷ [])
      → Returns
          (λ (r, got, t) n.
            (r ≡ pos 0)
            × (got ≡ some (x.item, x.tag))
            × Stands n.cells t xs
            × Gone m n xs x [] null)
          (del_from_back (some s) m)
  unfolding del_from_back without
  del_from_back-last xs x h =
      let some_items : length (xs ++ x ∷ []) ≡ suc (length xs) =
        omega (arith, length-append xs (x ∷ [])) in
      let here = (Linked-split m.cells null xs (x ∷ []) null h.linked).1.0 in
      let ne = (Distinct-right xs (x ∷ []) h.distinct).0 in
      rw
        (
          ap is_zero (h.count ∙ ap pos some_items),
          h.tail ∙ last-append null xs (x ∷ []),
          load_lem m x.at _ ne here,
        )
        (Returns-bind
          (delete_item_lem xs x [] null m (record s { tail = last null xs }) h.distinct h.linked)
          λ s' n got. returns (
            refl,
            refl,
            subst
                (λ t.
                  IsDyna n.cells (record t { head = if t.tail == null then null else t.head }) xs)
                (sym got.0)
                (record {
                  head =
                      rw (if_same (last null xs == x.at) (last null xs), h.head)
                        (dropped_head xs x h.distinct);
                  tail = if_same (last null xs == x.at) (last null xs);
                  count = ap dec (h.count ∙ ap pos some_items);
                  distinct = Distinct-left xs (x ∷ []) h.distinct;
                  linked = subst (λ l. Linked n.cells null l null) (append-nil xs) got.1.linked;
                }),
            got.1,
          ))
