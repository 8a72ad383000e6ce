-- ===== src/Dyna/Walk.antt =====
-- The loops of dynastruc.c that walk along the list: `dyna_delete_all`, `dyna_search` and
-- `dyna_get_item_by_index`.
use web_tester.Prelude.{
  ℕ, zero, suc, ◌+◌, ◌<◌, ◌≡◌, refl, sym, ◌∙◌, ap, subst, Bool, true, false, Option, some, none,
  List, [], ◌∷◌, ◌++◌, arith, ◌==◌, ◌&&◌, pos, length, length-append, ◌≢◌, ℤ, rounds, Bool-cases,
  inl, inr,
}
use web_tester.Dyna.Memory.{null, Cells, Memory, ok}
use web_tester.Dyna.Ops.{
  Handle, delete_loop, delete_all, fits, search_loop, search_item, index_loop, get_item_by_index,
}
use web_tester.Dyna.Access.{ne_null, load_lem}
use web_tester.Dyna.Delete.{Gone, Stands, called, delete_item_lem, without-IsDyna}
use web_tester.Dyna.Shape.{
  Returns, returns, Returns-bind, Returns-mono, Node, first, has, Distinct, cell, Linked, IsDyna,
  SameOutside, not-has-cons, Linked-split, Distinct-right,
}

-- The calls after a deleter was called with the data of every item, from the first on.
abbrev pub called_all : ℕ → List Node → List (ℕ × ℕ) → List (ℕ × ℕ)
called_all deleter [] calls = calls
called_all deleter (x ∷ xs) calls = called_all deleter xs (called deleter x.item calls)

-- Every cell of `xs` is free.
abbrev pub Freed : Cells → List Node → Type 0
Freed f [] = Unit
Freed f (x ∷ xs) = (f x.at ≡ none) × Freed f xs

abbrev Cleared : Memory → List Node → ℕ → Handle → Memory → Type 0
Cleared m xs deleter s n =
    IsDyna n.cells s []
    × ((a : ℕ) → has a xs ≡ true → n.cells a ≡ none)
    × SameOutside xs m.cells n.cells
    × (n.calls ≡ called_all deleter xs m.calls)

Cleared-cons :
    (m n r : Memory) (x : Node) (xs : List Node) (deleter : ℕ) (t : Handle)
    → has x.at xs ≡ false
    → Gone m n [] x xs deleter
    → Cleared n xs deleter t r
    → Cleared m (x ∷ xs) deleter t r
Cleared-cons m n r x xs deleter t new gone c = (
  c.0,
  λ a i. elim (Bool-cases (has a xs)) [
    | inl e ↦ c.1 a e
    | inr e ↦ let here : a ≡ x.at = ground arith in ap r.cells here ∙ c.2 x.at new ∙ gone.freed
  ],
  λ a o. c.2 a (not-has-cons a x xs o).1 ∙ gone.same a o,
  c.3 ∙ ap (called_all deleter xs) gone.calls,
)

delete_loop_lem :
    (k : ℕ) (m : Memory) (s : Handle) (xs : List Node) (deleter : ℕ)
    → IsDyna m.cells s xs
    → length xs < k
    → Returns (Cleared m xs deleter) (delete_loop k s (first xs null) deleter m)
unfolding delete_loop
delete_loop_lem zero m s xs deleter h fuel = absurd (omega arith)
delete_loop_lem (suc k) m s [] deleter h fuel = returns (h, (λ a i. cc), (λ a o. refl), refl)
delete_loop_lem (suc k) m s (x ∷ xs) deleter h fuel =
    rw (ne_null m x.at _ h.distinct.0 h.linked.0, load_lem m x.at _ h.distinct.0 h.linked.0)
      (Returns-bind (delete_item_lem [] x xs deleter m s h.distinct h.linked) λ s' n got.
        let h' : IsDyna n.cells s' xs = rw (got.0) (without-IsDyna m n s [] x xs deleter h got.1) in
        Returns-mono (delete_loop_lem k n s' xs deleter h' (omega arith))
          λ t r c. Cleared-cons m n r x xs deleter t h.distinct.1 got.1 c)

-- `dyna_delete_all` returns 0 and leaves the handle empty: the cell of every item is free, no other
-- cell is written, and the deleter was called with the data of every item, once and in order.
pub delete_all-clears :
    (m : Memory) (s : Handle) (xs : List Node) (deleter : ℕ)
    → IsDyna m.cells s xs
    → Returns
        (λ (r, t) n.
          (r ≡ pos 0)
          × Stands n.cells t []
          × ((a : ℕ) → has a xs ≡ true → n.cells a ≡ none)
          × SameOutside xs m.cells n.cells
          × (n.calls ≡ called_all deleter xs m.calls))
        (delete_all (some s) deleter m)
unfolding delete_all
delete_all-clears m s xs deleter h =
    let e : rounds s.count ≡ length xs = ap rounds h.count in
    let run = delete_loop_lem (length xs + 1) m s xs deleter h (omega arith) in
    Returns-bind
      (subst (λ k. Returns (Cleared m xs deleter) (delete_loop (k + 1) s s.head deleter m)) (sym e)
        (subst (λ a. Returns (Cleared m xs deleter) (delete_loop (length xs + 1) s a deleter m))
          (sym h.head) run))
      λ s' n c. returns (refl, c.0, c.1, c.2, c.3)

-- No item of the list fits.
abbrev pub NoneFits : (Node → Bool) → List Node → Type 0
NoneFits test [] = Unit
NoneFits test (x ∷ xs) = (test x ≡ false) × NoneFits test xs

-- The address `a` is that of the first item that fits, or null where none does.
pub data FirstFit (test : Node → Bool) : List Node → ℕ → Type 0 where
  nothing : {xs : List Node} → NoneFits test xs → FirstFit test xs null
  found :
      (xs : List Node) (x : Node) (ys : List Node)
      → NoneFits test xs
      → test x ≡ true
      → FirstFit test (xs ++ x ∷ ys) x.at

FirstFit-cons :
    {test : Node → Bool} (x : Node) {xs : List Node} {a : ℕ}
    → test x ≡ false
    → FirstFit test xs a
    → FirstFit test (x ∷ xs) a
FirstFit-cons x e (nothing no_fit) = nothing (e, no_fit)
FirstFit-cons x e (found xs y ys no_fit fit) = found (x ∷ xs) y ys (e, no_fit) fit

module _ (item tag : ℕ) (comparator : Option (ℕ → ℕ → Bool)) where
  -- The tag is the one searched for, and the comparator, if there is one, accepts the data.
  abbrev pub fits_node : Node → Bool
  fits_node x = elim comparator [ none ↦ x.tag == tag | some f ↦ x.tag == tag && f x.item item ]

  fits_lem : (p q : ℕ) (x : Node) → fits comparator item tag (cell p x q) ≡ fits_node x
  unfolding fits
  fits_lem p q x = ground arith

  search_loop_lem :
      (k : ℕ) (m : Memory) (p : ℕ) (xs : List Node)
      → Distinct xs
      → Linked m.cells p xs null
      → length xs < k
      → Returns
          (λ a n. FirstFit fits_node xs a × (n ≡ m))
          (search_loop k (first xs null) item tag comparator m)
  unfolding search_loop
  search_loop_lem zero m p xs d l fuel = absurd (omega arith)
  search_loop_lem (suc k) m p [] d l fuel = returns (nothing tt, refl)
  search_loop_lem (suc k) m p (x ∷ xs) d l fuel =
      rw (ne_null m x.at _ d.0 l.0, load_lem m x.at _ d.0 l.0)
        (elim (Bool-cases (fits_node x)) [
          | inl e ↦ rw (fits_lem p (first xs null) x, e) (returns (found [] x xs tt e, refl))
          | inr e ↦
              rw (fits_lem p (first xs null) x, e)
                (Returns-mono (search_loop_lem k m x.at xs d.2 l.1 (omega arith))
                  λ a n r. (FirstFit-cons x e r.0, r.1))
        ])

  -- After a reset `dyna_search` returns the address of the first item that fits, or null where none
  -- does, remembers it in the handle, and writes no cell.
  search-first :
      (m : Memory) (s : Handle) (xs : List Node)
      → IsDyna m.cells s xs
      → s.find_data ≡ null
      → Returns
          (λ (a, t) n. FirstFit fits_node xs a × (t ≡ some (record s { find_data = a })) × (n ≡ m))
          (search_item (some s) item tag comparator m)
  unfolding search_item
  search-first m s xs h reset =
      let run =
        search_loop_lem (rounds s.count + 1) m null xs h.distinct h.linked
          (rw (ap rounds h.count) (omega arith)) in
      rw (ap (λ a. a == null) reset, h.head) (Returns-bind run λ a n r. returns (r.0, refl, r.1))

  -- The next `dyna_search` goes on behind the item `y` that the last one found.
  search-next :
      (m : Memory) (s : Handle) (xs : List Node) (y : Node) (ys : List Node)
      → IsDyna m.cells s (xs ++ y ∷ ys)
      → s.find_data ≡ y.at
      → Returns
          (λ (a, t) n. FirstFit fits_node ys a × (t ≡ some (record s { find_data = a })) × (n ≡ m))
          (search_item (some s) item tag comparator m)
  unfolding search_item
  search-next m s xs y ys h at =
      let parts = (Linked-split m.cells null xs (y ∷ ys) null h.linked).1 in
      let d = Distinct-right xs (y ∷ ys) h.distinct in
      let enough : length (xs ++ y ∷ ys) ≡ length xs + suc (length ys) =
        length-append xs (y ∷ ys) in
      let run =
        search_loop_lem (rounds s.count + 1) m y.at ys d.2 parts.1
          (rw (ap rounds h.count) (omega arith)) in
      let found_at = ap m.cells at ∙ parts.0 in
      let there : s.find_data ≢ null = λ e. d.0 (sym at ∙ e) in
      rw (ne_null m s.find_data _ there found_at, load_lem m s.find_data _ there found_at)
        (Returns-bind run λ a n r. returns (r.0, refl, r.1))

-- The address of item number `i`, or null behind the last.
abbrev pub address_at : List Node → ℕ → ℕ
address_at [] i = null
address_at (x ∷ xs) zero = x.at
address_at (x ∷ xs) (suc i) = address_at xs i

index_loop_lem :
    (k : ℕ) (m : Memory) (p : ℕ) (xs : List Node)
    → Distinct xs
    → Linked m.cells p xs null
    → index_loop k (first xs null) m ≡ ok (address_at xs k) m
unfolding index_loop
index_loop_lem zero m p [] d l = refl
index_loop_lem zero m p (x ∷ xs) d l = refl
index_loop_lem (suc k) m p [] d l = refl
index_loop_lem (suc k) m p (x ∷ xs) d l =
    rw (ne_null m x.at _ d.0 l.0, load_lem m x.at _ d.0 l.0) (index_loop_lem k m x.at xs d.2 l.1)

-- `dyna_get_item_by_index` returns the address of item number `i`, null if there are fewer items,
-- and the first item for a negative index; it writes nothing.
get_item_by_index-at :
    (m : Memory) (s : Handle) (xs : List Node) (i : ℤ)
    → IsDyna m.cells s xs
    → get_item_by_index (some s) i m ≡ ok (address_at xs (rounds i)) m
unfolding get_item_by_index
get_item_by_index-at m s xs i h =
    rw h.head (index_loop_lem (rounds i) m null xs h.distinct h.linked)
