-- ===== src/Flexval/RoundTrip.antt =====
-- What `flexval_unserialize` of libwebtester/flexval.c reads is what `flexval_serialize` has written.
use web_tester.Prelude.{
  ℕ, zero, suc, ◌+◌, ◌*◌, ◌≤◌, ◌≡◌, refl, ap, ◌∙◌, sym, Option, none, some, [], ◌∷◌, ◌++◌, Text,
  length, length-append, arith,
}
use web_tester.Flexval.Defs.{
  Floats, FlexValue, Elements, no_elements, elements, add_element, set_string, set_token,
  alloc_array,
}
use web_tester.Flexval.Scanner.{
  unserialize_iterator, token, array_flag, string_flag, scan_token, skip_blank,
}
use web_tester.Flexval.Reader.{
  dup, array_append, serialize, value, Place, at_top, in_array, appended, unserialize_loop,
  unserialize_entry, unserialize_round, then_top, then_append,
}
use web_tester.Flexval.Written.{
  Entries, end_of, text, list, AllTexts, gap, write, array_of, built, alloc_array-none,
  set_string-dup, dup_elements-built, serialize_elements-write,
}
use web_tester.Flexval.Scanning.{
  unserialize_iterator-string, unserialize_iterator-array, unserialize_iterator-gap, write-append,
}

module _ {R : Type 0} (fl : Floats R) where
  -- Elements behind others.
  abbrev joined : Elements R → Elements R → Elements R
  joined no_elements ys = ys
  joined (elements x xs) ys = elements x (joined xs ys)

  joined-none : (xs : Elements R) → joined xs no_elements ≡ xs
  joined-none no_elements = refl
  joined-none (elements x xs) = ap (λ y. elements x y) (joined-none xs)

  add_element-joined :
      (xs : Elements R) (v : FlexValue R) (ys : Elements R)
      → joined (add_element xs v) ys ≡ joined xs (elements v ys)
  unfolding add_element
  add_element-joined no_elements v ys = refl
  add_element-joined (elements x xs) v ys = ap (λ y. elements x y) (add_element-joined xs v ys)

  appended-same :
      (xs : Elements R) (v : FlexValue R)
      → dup v ≡ v
      → appended fl (some (array_of fl xs)) (some v) ≡ some (array_of fl (add_element xs v))
  unfolding array_append
  appended-same xs v same = ap (λ w. some (array_of fl (add_element xs w))) same

  array_of-dup : (es : Entries) → dup (array_of fl (built fl es)) ≡ array_of fl (built fl es)
  unfolding dup
  array_of-dup es = ap (λ x. array_of fl x) (dup_elements-built fl es)

  -- A round is made of the token.
  loop-gap :
      (k : ℕ) (place : Place) (es : Entries) (s : Text) (ptr : Option (FlexValue R))
      → unserialize_loop fl k place (gap es s) ptr ≡ unserialize_loop fl k place s ptr
  unfolding unserialize_loop
  loop-gap zero place es s ptr = refl
  loop-gap (suc k) place es s ptr =
      ap (λ t. unserialize_round fl (λ p x q. unserialize_loop fl k p x q) place t ptr)
        (unserialize_iterator-gap es s)

  loop-end :
      (k : ℕ) (place : Place) (ptr : Option (FlexValue R))
      → unserialize_loop fl (suc k) place [] ptr ≡ value ptr
  unfolding unserialize_loop unserialize_iterator scan_token skip_blank
  loop-end k place ptr = refl

  loop-string :
      (k : ℕ) (s rest : Text) (xs : Elements R)
      → unserialize_iterator (34 ∷ (s ++ 34 ∷ rest)) ≡ token string_flag s rest
      → unserialize_loop fl (suc k) in_array (34 ∷ (s ++ 34 ∷ rest)) (some (array_of fl xs))
        ≡ unserialize_loop fl k in_array rest
            (some (array_of fl (add_element xs (set_string fl s))))
  unfolding unserialize_loop set_token
  loop-string k s rest xs e =
      ap
        (λ t.
          unserialize_round fl (λ p x q. unserialize_loop fl k p x q) in_array t
            (some (array_of fl xs)))
        e
      ∙ ap (λ v. unserialize_loop fl k in_array rest v)
          (appended-same xs (set_string fl s) (set_string-dup fl s))

  loop-array :
      (k : ℕ) (s inner rest : Text) (xs : Elements R) (v : FlexValue R)
      → unserialize_iterator s ≡ token array_flag inner rest
      → unserialize_loop fl k at_top (91 ∷ (inner ++ 93 ∷ [])) none ≡ value (some v)
      → dup v ≡ v
      → unserialize_loop fl (suc k) in_array s (some (array_of fl xs))
        ≡ unserialize_loop fl k in_array rest (some (array_of fl (add_element xs v)))
  unfolding unserialize_loop
  loop-array k s inner rest xs v e read same =
      ap
        (λ t.
          unserialize_round fl (λ p x q. unserialize_loop fl k p x q) in_array t
            (some (array_of fl xs)))
        e
      ∙ ap
          (λ r.
            then_append fl (λ p x q. unserialize_loop fl k p x q) rest (some (array_of fl xs)) r)
          read
      ∙ ap (λ w. unserialize_loop fl k in_array rest w) (appended-same xs v same)

  loop-top :
      (k : ℕ) (s inner rest : Text) (ptr : Option (FlexValue R)) (v : FlexValue R)
      → unserialize_iterator s ≡ token array_flag inner rest
      → unserialize_loop fl k in_array inner (some (alloc_array fl)) ≡ value (some v)
      → unserialize_loop fl (suc k) at_top s ptr ≡ unserialize_loop fl k at_top rest (some v)
  unfolding unserialize_loop
  loop-top k s inner rest ptr v e read =
      ap (λ t. unserialize_round fl (λ p x q. unserialize_loop fl k p x q) at_top t ptr) e
      ∙ ap (λ r. then_top fl (λ p x q. unserialize_loop fl k p x q) rest r) read

  -- A written array is read once its elements are.
  top-read :
      (k : ℕ) (es : Entries)
      → AllTexts es
      → 2 * length (write es []) + 2 ≤ k
      → ((j : ℕ)
          → 2 * length (write es []) + 1 ≤ j
          → unserialize_loop fl j in_array (write es []) (some (array_of fl no_elements))
            ≡ value (some (array_of fl (built fl es))))
      → unserialize_loop fl k at_top (91 ∷ write es (93 ∷ [])) none
        ≡ value (some (array_of fl (built fl es)))
  top-read zero es texts enough read = let no : ⊥ = omega (arith, enough) in elim no [ ]
  top-read (suc zero) es texts enough read = let no : ⊥ = omega (arith, enough) in elim no [ ]
  top-read (suc (suc k)) es texts enough read =
      loop-top (suc k) (91 ∷ write es (93 ∷ [])) (write es []) [] none (array_of fl (built fl es))
        (unserialize_iterator-array es [] texts)
        (ap (λ v. unserialize_loop fl (suc k) in_array (write es []) (some v)) (alloc_array-none fl)
          ∙ read (suc k) (omega (arith, enough)))
      ∙ loop-end k at_top (some (array_of fl (built fl es)))

  gap-longer : (es : Entries) (s : Text) → length s ≤ length (gap es s)
  gap-longer end_of s = omega arith
  gap-longer (text t es) s = omega arith
  gap-longer (list inner es) s = omega arith

  elements-read :
      (k : ℕ) (es : Entries) (xs : Elements R)
      → AllTexts es
      → 2 * length (write es []) + 1 ≤ k
      → unserialize_loop fl k in_array (write es []) (some (array_of fl xs))
        ≡ value (some (array_of fl (joined xs (built fl es))))
  elements-read zero es xs texts enough = let no : ⊥ = omega (arith, enough) in elim no [ ]
  elements-read (suc k) end_of xs texts enough =
      loop-end k in_array (some (array_of fl xs))
      ∙ ap (λ ys. value (some (array_of fl ys))) (sym (joined-none xs))
  elements-read (suc k) (text s es) xs texts enough =
      let v = set_string fl s in
      let rest = gap es (write es []) in
      loop-string k s rest xs (unserialize_iterator-string s rest texts.0)
      ∙ loop-gap k in_array es (write es []) (some (array_of fl (add_element xs v)))
      ∙ elements-read k es (add_element xs v) texts.1
          (omega (arith, enough, gap-longer es (write es []), length-append s (34 ∷ rest)))
      ∙ ap (λ ys. value (some (array_of fl ys))) (add_element-joined xs v (built fl es))
  elements-read (suc k) (list inner es) xs texts enough =
      let v = array_of fl (built fl inner) in
      let rest = gap es (write es []) in
      let longer : length (write inner (93 ∷ rest)) ≡ length (write inner []) + suc (length rest) =
        ap (λ s. length s) (write-append inner (93 ∷ rest))
        ∙ length-append (write inner []) (93 ∷ rest) in
      let closed = ap (λ s. 91 ∷ s) (write-append inner (93 ∷ [])) in
      let read =
        top-read k inner texts.0 (omega (arith, enough, longer))
          (λ j fits. elements-read j inner no_elements texts.0 fits) in
      loop-array k (91 ∷ write inner (93 ∷ rest)) (write inner []) rest xs v
        (unserialize_iterator-array inner rest texts.0)
        (ap (λ s. unserialize_loop fl k at_top s none) (sym closed) ∙ read) (array_of-dup inner)
      ∙ loop-gap k in_array es (write es []) (some (array_of fl (add_element xs v)))
      ∙ elements-read k es (add_element xs v) texts.1
          (omega (arith, enough, gap-longer es (write es []), longer))
      ∙ ap (λ ys. value (some (array_of fl ys))) (add_element-joined xs v (built fl es))

  serialize-write :
      (es : Entries) → serialize fl (array_of fl (built fl es)) ≡ 91 ∷ write es (93 ∷ [])
  unfolding serialize
  serialize-write es = ap (λ s. 91 ∷ s) (serialize_elements-write fl es (93 ∷ []))

  -- An array of strings and of such arrays, whose strings have no quotes, backslashes, line ends or
  -- brackets, is read back by `flexval_unserialize` as it was before `flexval_serialize` wrote it,
  -- within the rounds that it is given.
  pub unserialize-serialize :
      (es : Entries)
      → AllTexts es
      → unserialize_entry fl (serialize fl (array_of fl (built fl es)))
        ≡ value (some (array_of fl (built fl es)))
  unfolding unserialize_entry
  unserialize-serialize es texts =
      let longer : length (write es (93 ∷ [])) ≡ length (write es []) + 1 =
        ap (λ s. length s) (write-append es (93 ∷ [])) ∙ length-append (write es []) (93 ∷ []) in
      ap (λ s. unserialize_entry fl s) (serialize-write es)
      ∙ top-read (suc (suc (2 * suc (length (write es (93 ∷ [])))))) es texts
          (omega (arith, longer)) (λ j fits. elements-read j es no_elements texts fits)
