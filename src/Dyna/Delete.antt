-- ===== src/Dyna/Delete.antt =====
-- `dyna_delete`: an item leaves the list, wherever it stands.
use web_tester.Prelude.{
  ℕ, ◌≡◌, refl, ◌∙◌, ap, true, false, Option, some, none, List, [], ◌∷◌, ◌++◌, arith, ◌==◌,
  if◌then◌else◌, pos, length, length-append, append-nil, dec, suc,
}
use web_tester.Dyna.Memory.{null, Cells, Memory, ok, call}
use web_tester.Dyna.Ops.{Handle, unlink_next, unlink_prev, without, delete_item, delete}
use web_tester.Dyna.Access.{ne_null, load_lem, set_next_lem, set_prev_lem, free_lem}
use web_tester.Dyna.Shape.{
  Returns, returns, Returns-bind, Node, first, last, has, Distinct, cell, Linked, IsDyna,
  SameOutside, Linked-split, Linked-join, Linked-relink, Distinct-left, Distinct-join, last-append,
  Linked-write, Linked-repoint, write_ne, write_self, not-has-cons, ==_swap, ne_of_has, ==_refl,
  Distinct-right, Distinct-apart, has-last, has-append,
}

-- The item `x` stands between the lists `xs` and `ys`, which `before` and `after` link.
record Around (f : Cells) (xs : List Node) (x : Node) (ys : List Node) (p q : ℕ) : Type 0 where
  before : Linked f null xs q
  here : f x.at ≡ some (cell (last null xs) x (first ys null))
  after : Linked f p ys null

module _ (xs : List Node) (x : Node) (ys : List Node) (distinct : Distinct (xs ++ x ∷ ys)) where
  apart : (a : ℕ) → has a xs ≡ true → has a (x ∷ ys) ≡ false
  apart = Distinct-apart xs (x ∷ ys) distinct

  right : Distinct (x ∷ ys)
  right = Distinct-right xs (x ∷ ys) distinct

  not-mem-xs : has x.at xs ≡ false
  not-mem-xs = ground (arith, apart x.at)

  around : (f : Cells) → Linked f null (xs ++ x ∷ ys) null → Around f xs x ys x.at x.at
  around f l =
      let parts = Linked-split f null xs (x ∷ ys) null l in
      record { before = parts.0; here = parts.1.0; after = parts.1.1 }

module _ (xs : List Node) (x : Node) where
  unlink_next_lem :
      (ys : List Node) (m : Memory)
      → Distinct (xs ++ x ∷ ys)
      → Around m.cells xs x ys x.at x.at
      → Returns
          (λ _ n.
            Around n.cells xs x ys (last null xs) x.at
            × SameOutside ys m.cells n.cells
            × (n.calls ≡ m.calls))
          (unlink_next x.at m)
  unfolding unlink_next
  unlink_next_lem [] m d h =
      rw (load_lem m x.at _ (right xs x [] d).0 h.here)
        (returns (record { before = h.before; here = h.here; after = tt }, λ a o. refl, refl))
  unlink_next_lem (y ∷ ys) m d h =
      let r = right xs x (y ∷ ys) d in
      let out : has y.at (x ∷ []) ≡ false = ground arith in
      let free_xs : has y.at xs ≡ false = ground (arith, apart xs x (y ∷ ys) d y.at) in
      rw
        (
          load_lem m x.at _ r.0 h.here,
          ne_null m y.at _ r.2.0 h.after.0,
          set_prev_lem m y.at _ r.2.0 h.after.0 (last null xs),
        )
        (returns (
          record {
            before = Linked-write _ null xs x.at y.at _ free_xs h.before;
            here = write_ne _ y.at _ x.at (ground arith) ∙ h.here;
            after = Linked-repoint _ x.at (last null xs) y ys null r.2 h.after;
          },
          λ a o. write_ne _ y.at _ a (ground arith),
          refl,
        ))

module _ (x : Node) (ys : List Node) where
  unlink_prev_lem :
      (xs : List Node) (m : Memory)
      → Distinct (xs ++ x ∷ ys)
      → Around m.cells xs x ys (last null xs) x.at
      → Returns
          (λ _ n.
            Around n.cells xs x ys (last null xs) (first ys null)
            × SameOutside xs m.cells n.cells
            × (n.calls ≡ m.calls))
          (unlink_prev x.at m)
  unfolding unlink_prev
  unlink_prev_lem [] m d h =
      rw (load_lem m x.at _ (right [] x ys d).0 h.here)
        (returns (record { before = tt; here = h.here; after = h.after }, λ a o. refl, refl))
  unlink_prev_lem (z ∷ zs) m d h =
      let r = right (z ∷ zs) x ys d in
      let l = last z.at zs in
      let in_xs = has-last z zs in
      let ne = not-has-cons l x ys (apart (z ∷ zs) x ys d l in_xs) in
      let edge =
        Linked-relink m.cells null z zs x.at (first ys null) (Distinct-left (z ∷ zs) (x ∷ ys) d)
          h.before in
      rw
        (
          load_lem m x.at _ r.0 h.here,
          ne_null m l _ edge.2 edge.1,
          set_next_lem m l _ edge.2 edge.1 (first ys null),
        )
        (returns (
          record {
            before = edge.3;
            here = write_ne _ l _ x.at (==_swap l x.at ne.0) ∙ h.here;
            after = Linked-write _ l ys null l _ ne.1 h.after;
          },
          λ a o. write_ne _ l _ a (ne_of_has a l (z ∷ zs) in_xs o),
          refl,
        ))

-- The calls after a deleter was called with the data `item`.
abbrev pub called : ℕ → ℕ → List (ℕ × ℕ) → List (ℕ × ℕ)
called deleter item calls = if deleter == null then calls else (deleter, item) ∷ calls

-- The list and the calls after `x` has left: nothing else is written, and its cell is free.
pub record Gone (m n : Memory) (xs : List Node) (x : Node) (ys : List Node) (deleter : ℕ)
    : Type 0 where
  pub linked : Linked n.cells null (xs ++ ys) null
  pub freed : n.cells x.at ≡ none
  pub same : SameOutside (xs ++ x ∷ ys) m.cells n.cells
  pub calls : n.calls ≡ called deleter x.item m.calls

abbrev pub Deleted : Memory → Handle → List Node → Node → List Node → ℕ → Handle → Memory → Type 0
Deleted m s xs x ys deleter s' n =
    (s' ≡ without s x.at (cell (last null xs) x (first ys null))) × Gone m n xs x ys deleter

module _ (xs : List Node) (x : Node) (ys : List Node) (deleter : ℕ) where
  call_lem :
      (m : Memory)
      → call deleter x.item m ≡ ok tt (record m { calls = called deleter x.item m.calls })
  unfolding call
  call_lem m = ground arith

  -- An address outside the whole list is outside its parts.
  outside :
      (a : ℕ)
      → has a (xs ++ x ∷ ys) ≡ false
      → (has a xs ≡ false) × ((a == x.at) ≡ false) × (has a ys ≡ false)
  outside a o = ground (arith, has-append a xs (x ∷ ys))

  pub delete_item_lem :
      (m : Memory) (s : Handle)
      → Distinct (xs ++ x ∷ ys)
      → Linked m.cells null (xs ++ x ∷ ys) null
      → Returns (Deleted m s xs x ys deleter) (delete_item s x.at deleter m)
  unfolding delete_item
  delete_item_lem m s d l =
      let r = right xs x ys d in
      Returns-bind (unlink_next_lem xs x ys m d (around xs x ys d m.cells l)) λ _ m1 h1.
        Returns-bind (unlink_prev_lem x ys xs m1 d h1.0) λ _ m2 h2.
          let m3 = record m2 { calls = called deleter x.item m2.calls } in
          rw (load_lem m2 x.at _ r.0 h2.0.here, call_lem m2, free_lem m3 x.at _ r.0 h2.0.here)
            (returns (
              refl,
              record {
                linked =
                    Linked-join _ null xs ys null
                      (Linked-write _ null xs (first ys null) x.at _ (not-mem-xs xs x ys d)
                        h2.0.before)
                      (Linked-write _ (last null xs) ys null x.at _ r.1 h2.0.after);
                freed = write_self _ x.at none;
                same = λ a o.
                    let parts = outside a o in
                    write_ne _ x.at _ a parts.1 ∙ h2.1 a parts.0 ∙ h1.1 a parts.2;
                calls = ap (called deleter x.item) (h2.2 ∙ h1.2);
              },
            ))

-- A handle that stands for a list; a null one stands for none.
abbrev pub Stands : Cells → Option Handle → List Node → Type 0
Stands f none xs = ⊥
Stands f (some s) xs = IsDyna f s xs

module _ (xs : List Node) (x : Node) (ys : List Node) where
  Distinct-without : Distinct (xs ++ x ∷ ys) → Distinct (xs ++ ys)
  Distinct-without d =
      Distinct-join xs ys (Distinct-left xs (x ∷ ys) d) (right xs x ys d).2
        (λ a i. ground (arith, apart xs x ys d a))

first-without :
    (xs : List Node) (x : Node) (ys : List Node)
    → Distinct (xs ++ x ∷ ys)
    → (if x.at == first (xs ++ x ∷ ys) null then first ys null else first (xs ++ x ∷ ys) null)
      ≡ first (xs ++ ys) null
first-without [] x ys d = ground arith
first-without (z ∷ zs) x ys d = ground (arith, not-mem-xs (z ∷ zs) x ys d)

last-without :
    (xs : List Node) (x : Node) (ys : List Node)
    → Distinct (xs ++ x ∷ ys)
    → (if last null (xs ++ x ∷ ys) == x.at then last null xs else last null (xs ++ x ∷ ys))
      ≡ last null (xs ++ ys)
last-without xs x [] d = rw (last-append null xs (x ∷ []), append-nil, ==_refl x.at)
last-without xs x (y ∷ ys) d =
    let ne = ne_of_has x.at (last y.at ys) (y ∷ ys) (has-last y ys) (right xs x (y ∷ ys) d).1 in
    rw (last-append null xs (x ∷ y ∷ ys), last-append null xs (y ∷ ys), ==_swap _ _ ne)

-- After an item has left, the handle stands for the list without it.
pub without-IsDyna :
    (m n : Memory) (s : Handle) (xs : List Node) (x : Node) (ys : List Node) (deleter : ℕ)
    → IsDyna m.cells s (xs ++ x ∷ ys)
    → Gone m n xs x ys deleter
    → IsDyna n.cells (without s x.at (cell (last null xs) x (first ys null))) (xs ++ ys)
unfolding without
without-IsDyna m n s xs x ys deleter h gone = record {
  head = rw h.head (first-without xs x ys h.distinct);
  tail = rw h.tail (last-without xs x ys h.distinct);
  count = ap dec (
      h.count
      ∙ ap pos (
          let e : length (xs ++ x ∷ ys) ≡ suc (length (xs ++ ys)) =
            omega (arith, length-append xs (x ∷ ys), length-append xs ys) in
          e));
  distinct = Distinct-without xs x ys h.distinct;
  linked = gone.linked;
}

-- `dyna_delete` of an item of the list returns 0, and the handle then stands for the list without
-- that item; the deleter was called once, on the item's data; the item's cell is free, and no cell
-- outside the list is written.
pub delete-removes :
    (m : Memory) (s : Handle) (xs : List Node) (x : Node) (ys : List Node) (deleter : ℕ)
    → IsDyna m.cells s (xs ++ x ∷ ys)
    → Returns
        (λ (r, t) n. (r ≡ pos 0) × Stands n.cells t (xs ++ ys) × Gone m n xs x ys deleter)
        (delete (some s) x.at deleter m)
unfolding delete
delete-removes m s xs x ys deleter h =
    let r = right xs x ys h.distinct in
    rw (ne_null m x.at _ r.0 (Linked-split m.cells null xs (x ∷ ys) null h.linked).1.0) (
      Returns-bind (delete_item_lem xs x ys deleter m s h.distinct h.linked) λ s' n got.
        returns (refl, rw (got.0) (without-IsDyna m n s xs x ys deleter h got.1), got.1))
