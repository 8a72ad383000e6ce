-- ===== src/Strings/Range.antt =====
-- `parse_range` of libwebtester/util.c.
--
-- The digits of a bound are kept in an array of 16 characters; writing past its end is an outcome of
-- its own.
use web_tester.Prelude.{
  ℕ, ◌+◌, ◌≤◌, ◌≡◌, refl, sym, ◌∙◌, ap, true, ◌⊎◌, inl, inr, Option, none, some, [], ◌∷◌, ◌++◌,
  append_assoc, append-nil, is_nil, Text, length, length-append, ltb, leb, ◌==◌, if◌then◌else◌,
  arith,
}
use web_tester.Strings.Numbers.{is_digit, decimal, AllDigits}

-- The result -1; or 0, with the lower bound if it was set, and the upper bound; or a write past the end
-- of the array.
pub data Parsed : Type 0 where
  refused : Parsed
  range : Option ℕ → ℕ → Parsed
  overrun : Parsed

-- `sizeof (token)`
abbrev pub capacity : ℕ
capacity = 16

-- `token[len] = 0`, and then the use of the token.
abbrev pub ended : {A : Type 0} → Text → (ℕ → A) → A → A
ended token continue outside =
    if leb capacity (length token) then outside else continue (decimal 0 token)

-- One round: the outcome, or the token and the lower bound. There is a lower bound in state 1 only.
unfoldable pub parse_step : ℕ → Text → Option ℕ → Parsed ⊎ Text × Option ℕ
parse_step c token low =
    if is_digit c
    then (if ltb 15 (length token) then inl refused else inr (token ++ c ∷ [], low))
    else if c == 45
    then (if is_nil token then inl refused else elim low [
      | some n ↦ inl refused
      | none ↦ ended token (λ n. inr ([], some n)) (inl overrun)
    ])
    else inl refused

unfoldable pub parse_loop : Text → Text → Option ℕ → Parsed
parse_loop [] token low = if is_nil token then refused else ended token (λ n. range low n) overrun
parse_loop (c ∷ s) token low = elim (parse_step c token low) [
  | inl outcome ↦ outcome
  | inr (token', low') ↦ parse_loop s token' low'
]

unfoldable pub parse_range : Text → Parsed
parse_range s = parse_loop s [] none

digit-step :
    (c : ℕ) (token : Text) (low : Option ℕ)
    → is_digit c ≡ true
    → length token ≤ 15
    → parse_step c token low ≡ inr (token ++ c ∷ [], low)
unfolding parse_step
digit-step c token low d fits = ground arith

-- The loop over digits that fit.
parse_loop-digits :
    (s rest token : Text) (low : Option ℕ)
    → AllDigits s
    → length token + length s ≤ 16
    → parse_loop (s ++ rest) token low ≡ parse_loop rest (token ++ s) low
unfolding parse_loop
parse_loop-digits [] rest token low d fits = rw (append-nil token) refl
parse_loop-digits (c ∷ s) rest token low d fits =
    let next : parse_step c token low ≡ inr (token ++ c ∷ [], low) =
      digit-step c token low d.0 (omega arith) in
    let more =
      parse_loop-digits s rest (token ++ c ∷ []) low d.1
        (omega (arith, length-append token (c ∷ []))) in
    rw (next, parse_loop) (more ∙ ap (λ t. parse_loop rest t low) (append_assoc token (c ∷ []) s))

abbrev list_ending : ℕ → Text → Text → Text
list_ending c s [] = c ∷ s
list_ending c s (x ∷ rest) = (c ∷ s) ++ x ∷ rest

-- The same from an empty token, at the text alone or before a rest.
token-runs :
    (c : ℕ) (s rest : Text) (low : Option ℕ)
    → AllDigits (c ∷ s)
    → length (c ∷ s) ≤ 16
    → parse_loop (list_ending c s rest) [] low ≡ parse_loop rest (c ∷ s) low
token-runs c s [] low a fits =
    ap (λ x. parse_loop x [] low) (sym (append-nil (c ∷ s)))
    ∙ parse_loop-digits (c ∷ s) [] [] low a (omega (arith, fits))
token-runs c s (x ∷ rest) low a fits =
    parse_loop-digits (c ∷ s) (x ∷ rest) [] low a (omega (arith, fits))

-- A token that fits ends where the text or the first bound ends.
end-fits :
    (c : ℕ) (s : Text) (low : Option ℕ)
    → length (c ∷ s) ≤ 15
    → parse_loop [] (c ∷ s) low ≡ range low (decimal 0 (c ∷ s))
unfolding parse_loop
end-fits c s low fits = ground arith

dash-fits :
    (c : ℕ) (s : Text)
    → length (c ∷ s) ≤ 15
    → parse_step 45 (c ∷ s) none ≡ inr ([], some (decimal 0 (c ∷ s)))
unfolding parse_step
dash-fits c s fits = ground arith

end-overrun :
    (c : ℕ) (s : Text) (low : Option ℕ)
    → length (c ∷ s) ≡ 16
    → (parse_loop [] (c ∷ s) low ≡ overrun) × (parse_step 45 (c ∷ s) none ≡ inl overrun)
unfolding parse_loop parse_step
end-overrun c s low full = (ground arith, ground arith)

-- A number of 1 to 15 digits is an upper bound, with no lower bound set; two such numbers with a dash
-- between are a range.
parse_range-digits :
    (c d : ℕ) (s t : Text)
    → AllDigits (c ∷ s)
    → AllDigits (d ∷ t)
    → length (c ∷ s) ≤ 15
    → length (d ∷ t) ≤ 15
    → (parse_range (c ∷ s) ≡ range none (decimal 0 (c ∷ s)))
      × (parse_range ((c ∷ s) ++ 45 ∷ (d ∷ t))
          ≡ range (some (decimal 0 (c ∷ s))) (decimal 0 (d ∷ t)))
unfolding parse_range parse_loop
parse_range-digits c d s t a b fits fits' =
    let second = token-runs d t [] (some (decimal 0 (c ∷ s))) b (omega arith) in
    (
      token-runs c s [] none a (omega arith) ∙ end-fits c s none fits,
      token-runs c s (45 ∷ d ∷ t) none a (omega arith)
          ∙ rw (dash-fits c s fits, parse_loop)
              (second ∙ end-fits d t (some (decimal 0 (c ∷ s))) fits'),
    )

-- A number of 16 digits, alone or before a dash, is written past the end of the array.
parse_range-overrun :
    (c : ℕ) (s t : Text)
    → AllDigits (c ∷ s)
    → length (c ∷ s) ≡ 16
    → (parse_range (c ∷ s) ≡ overrun) × (parse_range ((c ∷ s) ++ 45 ∷ t) ≡ overrun)
unfolding parse_range parse_loop
parse_range-overrun c s t a full =
    let ends = end-overrun c s none full in
    (
      token-runs c s [] none a (omega arith) ∙ ends.0,
      token-runs c s (45 ∷ t) none a (omega arith) ∙ rw (ends.1, parse_loop) refl,
    )
