-- ===== src/Flexval/Written.antt =====
-- How libwebtester/flexval.c writes arrays of strings and of such arrays.
use web_tester.Prelude.{
  ℕ, ◌≡◌, refl, ap, ◌∙◌, Bool, false, ◌||◌, [], ◌∷◌, ◌++◌, append_assoc, pos, Text, codes, ◌==◌,
  Bool-cases, inl, inr,
}
use web_tester.Strings.Numbers.{is_number}
use web_tester.Flexval.Defs.{
  Floats, FlexValue, flex_value, Elements, no_elements, elements, fvt_array, set_string,
  alloc_array, is_truth,
}
use web_tester.Flexval.Reader.{dup, dup_elements, separated, serialize, serialize_elements}

-- The elements of an array: strings and arrays.
pub data Entries : Type 0 where
  end_of : Entries
  text : Text → Entries → Entries
  list : Entries → Entries → Entries

-- Quotes, backslashes, line ends and brackets, which are not written in a way that is read back.
abbrev pub is_special : ℕ → Bool
is_special c = c == 34 || c == 92 || c == 10 || c == 91 || c == 93

abbrev pub AllPlain : Text → Type 0
AllPlain [] = Unit
AllPlain (c ∷ s) = (is_special c ≡ false) × AllPlain s

abbrev pub AllTexts : Entries → Type 0
AllTexts end_of = Unit
AllTexts (text s es) = AllPlain s × AllTexts es
AllTexts (list inner es) = AllTexts inner × AllTexts es

abbrev pub gap : Entries → Text → Text
gap end_of s = s
gap (text t es) s = 32 ∷ s
gap (list inner es) s = 32 ∷ s

-- Written in front of a text.
abbrev pub write : Entries → Text → Text
write end_of rest = rest
write (text s es) rest = 34 ∷ (s ++ 34 ∷ gap es (write es rest))
write (list inner es) rest = 91 ∷ write inner (93 ∷ gap es (write es rest))

module _ {R : Type 0} (fl : Floats R) where
  abbrev pub array_of : Elements R → FlexValue R
  array_of es = flex_value fvt_array (codes "Array") (pos 0) fl.zero es

  -- The values of the entries.
  abbrev pub built : Entries → Elements R
  built end_of = no_elements
  built (text s es) = elements (set_string fl s) (built es)
  built (list inner es) = elements (array_of (built inner)) (built es)

  pub alloc_array-none : alloc_array fl ≡ array_of no_elements
  unfolding alloc_array set_string is_truth is_number web_tester.Strings.Numbers.entry_loop
      web_tester.Strings.Slashes.strupr
  alloc_array-none = refl

  pub set_string-dup : (s : Text) → dup (set_string fl s) ≡ set_string fl s
  unfolding set_string dup
  set_string-dup s = elim (Bool-cases (is_number s)) [
    | inl e ↦ rw e refl
    | inr e ↦ elim (Bool-cases (is_truth s)) [ inl f ↦ rw (e, f) refl | inr f ↦ rw (e, f) refl ]
  ]

  pub dup_elements-built : (es : Entries) → dup_elements (built es) ≡ built es
  unfolding dup dup_elements
  dup_elements-built end_of = refl
  dup_elements-built (text s es) = rw (set_string-dup s, dup_elements-built es) refl
  dup_elements-built (list inner es) = rw (dup_elements-built inner, dup_elements-built es) refl

  -- An array is written by its elements.
  serialize_string : (s : Text) → serialize fl (set_string fl s) ≡ 34 ∷ (s ++ 34 ∷ [])
  unfolding set_string serialize
  serialize_string s = elim (Bool-cases (is_number s)) [
    | inl e ↦ rw e refl
    | inr e ↦ elim (Bool-cases (is_truth s)) [ inl f ↦ rw (e, f) refl | inr f ↦ rw (e, f) refl ]
  ]

  separated-gap :
      (es : Entries) (s rest : Text) → separated (built es) s ++ rest ≡ gap es (s ++ rest)
  separated-gap end_of s rest = refl
  separated-gap (text t es) s rest = refl
  separated-gap (list inner es) s rest = refl

  -- The elements are written as the code writes them.
  pub serialize_elements-write :
      (es : Entries) (rest : Text) → serialize_elements fl (built es) ++ rest ≡ write es rest
  unfolding serialize_elements serialize
  serialize_elements-write end_of rest = refl
  serialize_elements-write (text s es) rest =
      let behind : Text = separated (built es) (serialize_elements fl (built es)) in
      let tail : behind ++ rest ≡ gap es (write es rest) =
        separated-gap es (serialize_elements fl (built es)) rest
        ∙ ap (λ x. gap es x) (serialize_elements-write es rest) in
      append_assoc (serialize fl (set_string fl s)) behind rest
      ∙ ap (λ x. x ++ (behind ++ rest)) (serialize_string s)
      ∙ ap (λ x. 34 ∷ x) (append_assoc s (34 ∷ []) (behind ++ rest))
      ∙ ap (λ x. 34 ∷ (s ++ 34 ∷ x)) tail
  serialize_elements-write (list inner es) rest =
      let behind : Text = separated (built es) (serialize_elements fl (built es)) in
      let tail : behind ++ rest ≡ gap es (write es rest) =
        separated-gap es (serialize_elements fl (built es)) rest
        ∙ ap (λ x. gap es x) (serialize_elements-write es rest) in
      ap (λ x. 91 ∷ x)
        (append_assoc (serialize_elements fl (built inner) ++ 93 ∷ []) behind rest
          ∙ append_assoc (serialize_elements fl (built inner)) (93 ∷ []) (behind ++ rest)
          ∙ serialize_elements-write inner (93 ∷ (behind ++ rest))
          ∙ ap (λ x. write inner (93 ∷ x)) tail)
