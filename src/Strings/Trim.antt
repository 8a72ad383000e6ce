-- ===== src/Strings/Trim.antt =====
-- `trim` of libwebtester/strlib.c.
use web_tester.Prelude.{
  ℕ, ◌≡◌, refl, ap, ◌∙◌, Bool, true, false, ◌&&◌, ◌||◌, [], ◌∷◌, ◌++◌, is_nil, Text, leb,
  if◌then◌else◌, Bool-cases, inl, inr,
}

-- `c <= 32`: a `char` from 128 on is negative.
abbrev pub is_space : ℕ → Bool
is_space c = leb c 32 || leb 128 c

-- The loop that moves `first`.
unfoldable trim_first : Text → Text
trim_first [] = []
trim_first (c ∷ s) = let rest = trim_first s in if is_space c then rest else c ∷ s

-- The loop that moves `last`, up to `first`.
unfoldable trim_last : Text → Text
trim_last [] = []
trim_last (c ∷ s) = let rest = trim_last s in if is_nil rest && is_space c then [] else c ∷ rest

unfoldable pub trim : Text → Text
unfolding trim_first trim_last
trim s = trim_last (trim_first s)

abbrev pub AllSpace : Text → Type 0
AllSpace [] = Unit
AllSpace (c ∷ s) = (is_space c ≡ true) × AllSpace s

-- The text is empty, or its first character is no space.
abbrev pub NoSpaceFirst : Text → Type 0
NoSpaceFirst [] = Unit
NoSpaceFirst (c ∷ s) = is_space c ≡ false

-- The text is empty, or its last character is no space.
abbrev pub NoSpaceLast : Text → Type 0
NoSpaceLast [] = Unit
NoSpaceLast (c ∷ []) = is_space c ≡ false
NoSpaceLast (c ∷ d ∷ s) = NoSpaceLast (d ∷ s)

trim_first-parts :
    (s : Text)
    → (before : Text) × (s ≡ before ++ trim_first s) × AllSpace before × NoSpaceFirst (trim_first s)
unfolding trim_first
trim_first-parts [] = ([], refl, tt, tt)
trim_first-parts (c ∷ s) = elim (Bool-cases (is_space c)) [
  | inl e ↦
      let (before, parts, spaces, first) = trim_first-parts s in
      rw e (c ∷ before, ap (λ x. c ∷ x) parts, (e, spaces), first)
  | inr e ↦ rw e ([], refl, tt, e)
]

trim_last-parts :
    (s : Text)
    → (after : Text) × (s ≡ trim_last s ++ after) × AllSpace after × NoSpaceLast (trim_last s)
unfolding trim_last
trim_last-parts [] = ([], refl, tt, tt)
trim_last-parts (c ∷ s) =
    let (after, parts, spaces, last) = trim_last-parts s in
    joined (trim_last s) after parts spaces last
  where
    joined :
        (t after : Text)
        → s ≡ t ++ after
        → AllSpace after
        → NoSpaceLast t
        → (rest : Text) × (c ∷ s ≡ (if is_nil t && is_space c then [] else c ∷ t) ++ rest)
          × AllSpace rest
          × NoSpaceLast (if is_nil t && is_space c then [] else c ∷ t)
    joined [] after parts spaces last = elim (Bool-cases (is_space c)) [
      | inl e ↦ rw e (c ∷ after, ap (λ x. c ∷ x) parts, (e, spaces), tt)
      | inr e ↦ rw e (after, ap (λ x. c ∷ x) parts, spaces, e)
    ]
    joined (d ∷ t) after parts spaces last = (after, ap (λ x. c ∷ x) parts, spaces, last)

trim_last-NoSpaceFirst : (s : Text) → NoSpaceFirst s → NoSpaceFirst (trim_last s)
unfolding trim_last
trim_last-NoSpaceFirst [] n = tt
trim_last-NoSpaceFirst (c ∷ s) n = kept (trim_last s)
  where
    kept : (t : Text) → NoSpaceFirst (if is_nil t && is_space c then [] else c ∷ t)
    kept [] = elim (Bool-cases (is_space c)) [ inl e ↦ rw e tt | inr e ↦ rw e e ]
    kept (d ∷ t) = n

-- `trim` takes spaces and bytes that are not ASCII off both ends, and leaves none at either end.
trim-parts :
    (s : Text)
    → (before after : Text) × (s ≡ before ++ (trim s ++ after))
      × AllSpace before
      × AllSpace after
      × NoSpaceFirst (trim s)
      × NoSpaceLast (trim s)
unfolding trim
trim-parts s =
    let (before, e, b, f) = trim_first-parts s in
    let (after, e', a, l) = trim_last-parts (trim_first s) in
    (before, after, e ∙ ap (λ x. before ++ x) e', b, a, trim_last-NoSpaceFirst (trim_first s) f, l)
