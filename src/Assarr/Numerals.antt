-- ===== src/Assarr/Numerals.antt =====
-- The numbers that `assarr_pack` writes and `atol` reads.
use web_tester.Prelude.{
  ℕ, zero, suc, ◌+◌, ◌-◌, ◌*◌, ◌/◌, ◌%◌, ◌≤◌, ◌<◌, ◌≡◌, refl, ◌∙◌, ap, true, ◌&&◌, ◌||◌, [], ◌∷◌, ℤ,
  pos, sub_ℕ, Text, leb, ltb, ◌==◌, if◌then◌else◌, arith, Bool-cases, inl, inr,
}
use web_tester.Strings.Numbers.{is_digit, AllDigits}
use web_tester.Assarr.Pack.{digits_loop, digits, digits_value, atol}

digits_value-digit :
    (m d : ℕ) (rest : Text)
    → d < 10
    → digits_value m ((48 + d) ∷ rest) ≡ digits_value (m * 10 + d) rest
unfolding digits_value
digits_value-digit m d rest lt =
    let digit : is_digit (48 + d) ≡ true = ground arith in
    let same : m * 10 + (48 + d - 48) ≡ m * 10 + d = omega arith in rw (digit, same) refl

digits_value-loop :
    (k n : ℕ) (rest : Text) → n < k → digits_value 0 (digits_loop k n rest) ≡ digits_value n rest
unfolding digits_loop
digits_value-loop zero n rest lt = elim lt [ ]
digits_value-loop (suc k) n rest lt = elim (Bool-cases (ltb n 10)) [
  | inl e ↦
      let small : n < 10 = ground arith in
      let same : 0 * 10 + n ≡ n = omega arith in
      rw e (digits_value-digit 0 n rest small ∙ ap (λ m. digits_value m rest) same)
  | inr e ↦
      let large : 10 ≤ n = ground arith in
      let same : n / 10 * 10 + n % 10 ≡ n = omega arith in
      rw e (
        digits_value-loop k (n / 10) ((48 + n % 10) ∷ rest) (omega (arith, large))
        ∙ digits_value-digit (n / 10) (n % 10) rest (omega arith)
        ∙ ap (λ m. digits_value m rest) same)
]

-- The digits of a number are digits, at least one.
abbrev pub IsNumeral : Text → Type 0
IsNumeral [] = ⊥
IsNumeral (c ∷ s) = AllDigits (c ∷ s)

pub digits_loop-IsNumeral :
    (k n : ℕ) (rest : Text) → n < k → AllDigits rest → IsNumeral (digits_loop k n rest)
unfolding digits_loop
digits_loop-IsNumeral zero n rest lt d = elim lt [ ]
digits_loop-IsNumeral (suc k) n rest lt d = elim (Bool-cases (ltb n 10)) [
  | inl e ↦ let digit : is_digit (48 + n) ≡ true = ground arith in rw e (digit, d)
  | inr e ↦
      let large : 10 ≤ n = ground arith in
      let digit : is_digit (48 + n % 10) ≡ true = digit_rem (n % 10) (omega arith) in
      rw e
        (digits_loop-IsNumeral k (n / 10) ((48 + n % 10) ∷ rest) (omega (arith, large)) (digit, d))
]
  where
    digit_rem : (d : ℕ) → d < 10 → is_digit (48 + d) ≡ true
    digit_rem d lt = ground arith

atol-numeral : (s : Text) → IsNumeral s → atol s ≡ pos (digits_value 0 s)
unfolding atol
atol-numeral [] d = elim d [ ]
atol-numeral (c ∷ s) d =
    first_digit c (atol s) (sub_ℕ 0 (digits_value 0 s)) (pos (digits_value 0 s))
      (pos (digits_value 0 (c ∷ s))) d.0
  where
    first_digit :
        (c : ℕ) (w x y z : ℤ)
        → is_digit c ≡ true
        → (if c == 32 || (leb 9 c && leb c 13)
            then w
            else if c == 45
            then x
            else if c == 43
            then y
            else z)
          ≡ z
    first_digit c w x y z d = ground arith

-- `atol` reads the number that was written.
pub atol-digits : (n : ℕ) → atol (digits n) ≡ pos n
unfolding digits_value
atol-digits n =
    atol-numeral (digits n) (digits_loop-IsNumeral (suc n) n [] (omega arith) tt)
    ∙ ap pos (digits_value-loop (suc n) n [] (omega arith))
