-- ===== src/Dyna/Passes.antt =====
-- A pass of `dyna_sort` of libwebtester/dynastruc.c on cells.
use web_tester.Prelude.{
  ℕ, suc, ◌≡◌, ◌≢◌, refl, sym, ◌∙◌, ap, Bool, false, some, List, [], ◌∷◌, ℤ, is_positive, length,
  if◌then◌else◌, Bool-cases, inl, inr, arith, ◌==◌,
}
use web_tester.Dyna.Memory.{Cell, null, Memory, ok, pure, write}
use web_tester.Dyna.Ops.{swap, sort_pass}
use web_tester.Dyna.Shape.{
  Returns, returns, Returns-bind, Returns-mono, Node, first, last, has, Distinct, cell, Linked,
  SameOutside, write_ne, write_self, Linked-write, not-has-cons,
}
use web_tester.Dyna.Access.{load_lem}
use web_tester.Dyna.Bubble.{lesser, greater, carry}

-- The data and the tag of an item.
abbrev pub Payload : Type 0
Payload = ℕ × ℕ

abbrev pub payload : Node → Payload
payload x = (x.item, x.tag)

abbrev pub contents : List Node → List Payload
contents [] = []
contents (x ∷ xs) = payload x ∷ contents xs

abbrev pub with_payload : Node → Payload → Node
with_payload x d = record { at = x.at; item = d.0; tag = d.1 }

module _ (comparator : ℕ → ℕ → ℤ) where
  -- The comparator is positive.
  abbrev pub gt : Payload → Payload → Bool
  gt d e = is_positive (comparator (d.0) (e.0))

  abbrev pub stay : Node → Node → Node
  stay x y = with_payload x (lesser gt (payload x) (payload y))

  abbrev pub go : Node → Node → Node
  go x y = with_payload y (greater gt (payload x) (payload y))

  -- A pass over items, whose addresses stay.
  abbrev pub walk : Node → List Node → List Node
  walk x [] = x ∷ []
  walk x (y ∷ ys) = stay x y ∷ walk (go x y) ys

  pub contents-walk :
      (x : Node) (ys : List Node) → contents (walk x ys) ≡ carry gt (payload x) (contents ys)
  contents-walk x [] = refl
  contents-walk x (y ∷ ys) =
      ap (λ r. lesser gt (payload x) (payload y) ∷ r) (contents-walk (go x y) ys)

  pub first-walk : (x : Node) (ys : List Node) (q : ℕ) → first (walk x ys) q ≡ x.at
  first-walk x [] q = refl
  first-walk x (y ∷ ys) q = refl

  pub last-walk : (x : Node) (ys : List Node) (p : ℕ) → last p (walk x ys) ≡ last p (x ∷ ys)
  last-walk x [] p = refl
  last-walk x (y ∷ ys) p = last-walk (go x y) ys x.at

  pub has-walk : (a : ℕ) (x : Node) (ys : List Node) → has a (walk x ys) ≡ has a (x ∷ ys)
  has-walk a x [] = refl
  has-walk a x (y ∷ ys) = ground (arith, has-walk a (go x y) ys)

  pub length-walk : (x : Node) (ys : List Node) → length (walk x ys) ≡ suc (length ys)
  length-walk x [] = refl
  length-walk x (y ∷ ys) = ap suc (length-walk (go x y) ys)

  pub Distinct-walk : (x : Node) (ys : List Node) → Distinct (x ∷ ys) → Distinct (walk x ys)
  Distinct-walk x [] d = d
  Distinct-walk x (y ∷ ys) d = (d.0, has-walk x.at (go x y) ys ∙ d.1, Distinct-walk (go x y) ys d.2)

  swap_lem :
      (m : Memory) (a b : ℕ) (x y : Cell)
      → a ≢ null
      → b ≢ null
      → (b == a) ≡ false
      → m.cells a ≡ some x
      → m.cells b ≡ some y
      → swap a b m
        ≡ ok tt (record m {
          cells =
              write
                (write m.cells a (some (record x { item = y.item; tag = y.tag })))
                b
                (some (record y { item = x.item; tag = x.tag }));
        })
  unfolding swap
  swap_lem m a b x y na nb ne fa fb =
      let x' = record x { item = y.item; tag = y.tag } in
      let m1 : Memory = record m { cells = write m.cells a (some x') } in
      rw
        (
          load_lem m a x na fa,
          load_lem m b y nb fb,
          load_lem m1 b y nb (write_ne m.cells a (some x') b ne ∙ fb),
        )
        refl

  -- What a comparison of the neighbours leaves.
  abbrev Stepped : Memory → ℕ → Node → Node → List Node → Memory → Type 0
  Stepped m p x y ys n =
      (n.cells x.at ≡ some (cell p (stay x y) y.at))
      × Linked n.cells x.at (go x y ∷ ys) null
      × SameOutside (x ∷ y ∷ ys) m.cells n.cells
      × (n.calls ≡ m.calls)

  step_lem :
      (m : Memory) (p : ℕ) (x y : Node) (ys : List Node)
      → Distinct (x ∷ y ∷ ys)
      → Linked m.cells p (x ∷ y ∷ ys) null
      → Returns
          (λ u n. Stepped m p x y ys n)
          ((if is_positive (comparator x.item y.item) then swap x.at y.at else pure tt) m)
  step_lem m p x y ys d l = elim (Bool-cases (is_positive (comparator x.item y.item))) [
    | inl e ↦
        let apart = not-has-cons x.at y ys (d.1) in
        let ne : (y.at == x.at) ≡ false = ground (arith, apart.0) in
        let x' = cell p (with_payload x (payload y)) y.at in
        let y' = cell x.at (with_payload y (payload x)) (first ys null) in
        let f1 = write m.cells x.at (some x') in
        let behind =
          Linked-write f1 y.at ys null y.at (some y') (d.2.1)
            (Linked-write m.cells y.at ys null x.at (some x') (apart.1) (l.1.1)) in
        rw e (
          rw
            (swap_lem m x.at y.at (cell p x y.at) (cell x.at y (first ys null)) (d.0) (d.2.0) ne
              (l.0) (l.1.0))
            (returns (
              write_ne f1 y.at (some y') x.at (apart.0) ∙ write_self m.cells x.at (some x'),
              (write_self f1 y.at (some y'), behind),
              (λ a o.
                  let out = not-has-cons a x (y ∷ ys) o in
                  write_ne f1 y.at (some y') a (not-has-cons a y ys (out.1)).0
                  ∙ write_ne m.cells x.at (some x') a (out.0)),
              refl,
            )))
    | inr e ↦ rw e (returns (l.0, l.1, (λ a o. refl), refl))
  ]

  -- What is left of a list in the memory.
  abbrev pub Walked : Memory → ℕ → List Node → List Node → Memory → Type 0
  Walked m p xs ys n =
      Linked n.cells p ys null × SameOutside xs m.cells n.cells × (n.calls ≡ m.calls)

  pub sort_pass_lem :
      (m : Memory) (p : ℕ) (x : Node) (ys : List Node)
      → Distinct (x ∷ ys)
      → Linked m.cells p (x ∷ ys) null
      → Returns (λ u n. Walked m p (x ∷ ys) (walk x ys) n) (sort_pass (length ys) x.at comparator m)
  unfolding sort_pass
  sort_pass_lem m p x [] d l = returns (l, (λ a o. refl), refl)
  sort_pass_lem m p x (y ∷ ys) d l =
      rw
        (
          load_lem m x.at (cell p x y.at) (d.0) (l.0),
          load_lem m y.at (cell x.at y (first ys null)) (d.2.0) (l.1.0),
        )
        (Returns-bind (step_lem m p x y ys d l) λ u n step.
          Returns-mono (sort_pass_lem n x.at (go x y) ys (d.2) (step.1)) λ v r rest. (
            (
              rest.1 x.at (d.1)
                  ∙ step.0
                  ∙ ap (λ q. some (cell p (stay x y) q)) (sym (first-walk (go x y) ys null)),
              rest.0,
            ),
            (λ a o. rest.1 a (not-has-cons a x (y ∷ ys) o).1 ∙ step.2 a o),
            rest.2 ∙ step.3,
          ))
