-- ===== src/Strings/Numbers.antt =====
-- `is_number_entry`, `is_number` and `is_integer` of libwebtester/util.c, and the decimal numbers that
-- `atol` reads.
use web_tester.Prelude.{
  ℕ, ◌+◌, ◌-◌, ◌*◌, ◌≡◌, refl, ◌⊎◌, inl, inr, ◌↔◌, Bool, true, false, not, ◌&&◌, ◌||◌, [], ◌∷◌,
  Text, leb, ◌==◌, if◌then◌else◌, arith, Bool-cases,
}

abbrev pub is_digit : ℕ → Bool
is_digit c = leb 48 c && leb c 57

-- `atol` of digits
abbrev pub decimal : ℕ → Text → ℕ
decimal n [] = n
decimal n (c ∷ s) = decimal (n * 10 + (c - 48)) s

abbrev pub AllDigits : Text → Type 0
AllDigits [] = Unit
AllDigits (c ∷ s) = (is_digit c ≡ true) × AllDigits s

-- The loop of `is_number_entry`: `first` says that the index is 0, `fraction` that a point was met.
unfoldable pub entry_loop : Bool → Bool → Bool → Text → Bool
entry_loop float first fraction [] = true
entry_loop float first fraction (c ∷ s) =
    let point = c == 46 || c == 44 in
    let rest = entry_loop float false (fraction || point) s in
    if c == 45 && not first
    then false
    else if point
    then float && not fraction && rest
    else if not (is_digit c) && not (c == 45)
    then false
    else rest

unfoldable pub is_number : Text → Bool
unfolding entry_loop
is_number s = entry_loop true true false s

unfoldable pub is_integer : Text → Bool
unfolding entry_loop
is_integer s = entry_loop false true false s

entry_loop-AllDigits : (s : Text) → (entry_loop false false false s ≡ true) ↔ AllDigits s
unfolding entry_loop
entry_loop-AllDigits [] = (λ h. tt, λ h. refl)
entry_loop-AllDigits (c ∷ s) =
    let rest = entry_loop-AllDigits s in (λ h. ground (arith, rest), λ h. ground (arith, rest))

-- A text is an integer exactly if it is of digits only, after at most one minus sign: the empty text
-- and the sign alone are integers too.
is_integer-AllDigits :
    (s : Text) → (is_integer s ≡ true) ↔ (AllDigits s ⊎ (t : Text) × (s ≡ 45 ∷ t) × AllDigits t)
unfolding is_integer entry_loop
is_integer-AllDigits [] = (λ h. inl tt, λ h. refl)
is_integer-AllDigits (c ∷ s) =
    let rest = entry_loop-AllDigits s in
    (
      λ h. elim (Bool-cases (c == 45)) [
        | inl e ↦ inr (s, sign c s e, ground (arith, rest))
        | inr e ↦ inl (ground (arith, rest))
      ],
      λ h. elim h [
        | inl d ↦ ground (arith, rest)
        | inr (t, e, d) ↦ ground (arith, entry_loop-AllDigits t)
      ],
    )
  where
    sign : (c : ℕ) (s : Text) → (c == 45) ≡ true → c ∷ s ≡ 45 ∷ s
    sign c s e = ground arith
