-- ===== src/Dyna/Bubble.antt =====
-- The sorting that `dyna_sort` of libwebtester/dynastruc.c does, on a list: passes that carry the
-- greater of two neighbours on.
use web_tester.Prelude.{
  ℕ, zero, suc, ◌+◌, ◌≡◌, refl, sym, ◌∙◌, ap, Bool, true, false, List, [], ◌∷◌, ◌++◌, length,
  if◌then◌else◌, Bool-cases, inl, inr, arith, append-nil, subst,
}

module _ {A : Type 0} (gt : A → A → Bool) where
  abbrev pub lesser : A → A → A
  lesser x y = if gt x y then y else x

  abbrev pub greater : A → A → A
  greater x y = if gt x y then x else y

  -- A pass, at the item `x` with those behind it.
  abbrev pub carry : A → List A → List A
  carry x [] = x ∷ []
  carry x (y ∷ ys) = lesser x y ∷ carry (greater x y) ys

  abbrev pub pass : List A → List A
  pass [] = []
  pass (x ∷ xs) = carry x xs

  abbrev pub passes : ℕ → List A → List A
  passes zero xs = xs
  passes (suc k) xs = passes k (pass xs)

  -- No item of the list is before `x`.
  abbrev pub Below : A → List A → Type 0
  Below x [] = Unit
  Below x (y ∷ ys) = (gt x y ≡ false) × Below x ys

  abbrev pub IsSorted : List A → Type 0
  IsSorted [] = Unit
  IsSorted (x ∷ xs) = Below x xs × IsSorted xs

  abbrev AllBelow : List A → List A → Type 0
  AllBelow [] zs = Unit
  AllBelow (y ∷ ys) zs = Below y zs × AllBelow ys zs

  -- The number of items that pass a test.
  abbrev pub count : (A → Bool) → List A → ℕ
  count test [] = 0
  count test (x ∷ xs) = (if test x then 1 else 0) + count test xs

  count-carry :
      (test : A → Bool) (x : A) (ys : List A) → count test (carry x ys) ≡ count test (x ∷ ys)
  count-carry test x [] = refl
  count-carry test x (y ∷ ys) = elim (Bool-cases (gt x y)) [
    | inl e ↦ rw e (omega (arith, count-carry test x ys))
    | inr e ↦ rw e (omega (arith, count-carry test y ys))
  ]

  length-carry : (x : A) (ys : List A) → length (carry x ys) ≡ suc (length ys)
  length-carry x [] = refl
  length-carry x (y ∷ ys) = omega (arith, length-carry (greater x y) ys)

  count-pass : (test : A → Bool) (xs : List A) → count test (pass xs) ≡ count test xs
  count-pass test [] = refl
  count-pass test (x ∷ xs) = count-carry test x xs

  -- Passes keep the items.
  pub count-passes :
      (test : A → Bool) (k : ℕ) (xs : List A) → count test (passes k xs) ≡ count test xs
  count-passes test zero xs = refl
  count-passes test (suc k) xs = count-passes test k (pass xs) ∙ count-pass test xs

  module _ (asym : (x y : A) → gt x y ≡ true → gt y x ≡ false)
      (trans : (x y z : A) → gt x y ≡ false → gt y z ≡ false → gt x z ≡ false) where
    not_before_self : (x : A) → gt x x ≡ false
    not_before_self x = elim (Bool-cases (gt x x)) [ inl e ↦ asym x x e | inr e ↦ e ]

    lesser-greater : (x y : A) → gt (lesser x y) (greater x y) ≡ false
    lesser-greater x y = elim (Bool-cases (gt x y)) [ inl e ↦ rw e (asym x y e) | inr e ↦ rw e e ]

    before-greater : (x y : A) → gt x (greater x y) ≡ false
    before-greater x y = elim (Bool-cases (gt x y)) [
      | inl e ↦ rw e (not_before_self x)
      | inr e ↦ rw e e
    ]

    Below-lesser : (x y : A) (zs : List A) → Below x zs → Below y zs → Below (lesser x y) zs
    Below-lesser x y zs a b = elim (Bool-cases (gt x y)) [ inl e ↦ rw e b | inr e ↦ rw e a ]

    Below-greater : (x y : A) (zs : List A) → Below x zs → Below y zs → Below (greater x y) zs
    Below-greater x y zs a b = elim (Bool-cases (gt x y)) [ inl e ↦ rw e a | inr e ↦ rw e b ]

    carry-sorted : (x : A) (zs : List A) → Below x zs → IsSorted zs → carry x zs ≡ x ∷ zs
    carry-sorted x [] b s = refl
    carry-sorted x (z ∷ zs) b s = rw (b.0) (ap (λ r. x ∷ r) (carry-sorted z zs s.0 s.1))

    -- A pass over `x ∷ ys` and a part behind that is in place puts one more item in place.
    carry-settles :
        (x : A) (ys zs : List A)
        → Below x zs
        → AllBelow ys zs
        → IsSorted zs
        → (us : List A) × (u : A) × (carry x (ys ++ zs) ≡ us ++ u ∷ zs)
          × (length us ≡ length ys)
          × AllBelow us (u ∷ zs)
          × Below u zs
          × (gt x u ≡ false)
    carry-settles x [] zs b a s = ([], x, carry-sorted x zs b s, refl, tt, b, not_before_self x)
    carry-settles x (y ∷ ys) zs b a s =
        let (us, u, e, n, all, low, le) =
          carry-settles (greater x y) ys zs (Below-greater x y zs b (a.0)) (a.1) s in
        let first = trans (lesser x y) (greater x y) u (lesser-greater x y) le in
        (
          lesser x y ∷ us,
          u,
          ap (λ r. lesser x y ∷ r) e,
          ap suc n,
          ((first, Below-lesser x y zs b (a.0)), all),
          low,
          trans x (greater x y) u (before-greater x y) le,
        )

    passes-settle :
        (ys zs : List A) (k : ℕ)
        → length ys ≡ k
        → AllBelow ys zs
        → IsSorted zs
        → IsSorted (passes k (ys ++ zs))
    passes-settle [] zs zero n a s = s
    passes-settle [] zs (suc k) n a s = let no : ⊥ = omega (arith, n) in elim no [ ]
    passes-settle (y ∷ ys) zs zero n a s = let no : ⊥ = omega (arith, n) in elim no [ ]
    passes-settle (y ∷ ys) zs (suc k) n a s =
        let (us, u, e, m, all, low, le) = carry-settles y ys zs (a.0) (a.1) s in
        subst (λ l. IsSorted (passes k l)) (sym e)
          (passes-settle us (u ∷ zs) k (omega (arith, m, n)) all (low, s))

    -- As many passes as there are items sort them.
    pub passes-IsSorted : (xs : List A) → IsSorted (passes (length xs) xs)
    passes-IsSorted xs =
        subst (λ l. IsSorted (passes (length xs) l)) (append-nil xs)
          (passes-settle xs [] (length xs) refl (all_below xs) tt)
      where
        all_below : (ys : List A) → AllBelow ys []
        all_below [] = tt
        all_below (y ∷ ys) = (tt, all_below ys)
