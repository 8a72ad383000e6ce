-- ===== src/Hive/Shorter.antt =====
-- Every token of libwebtester/hive.c leaves a shorter text.
use web_tester.Prelude.{
  ℕ, suc, ◌≤◌, ◌<◌, ◌≡◌, refl, sym, Bool, true, false, Option, none, some, [], ◌∷◌, Text, length,
  ◌==◌, arith, Bool-cases, Option-cases, inl, inr, subst,
}
use web_tester.Hive.Lexer.{
  Mode, blank, line_comment, opening, closing, interior, next_mode, skip, read_array, read_string,
  read_word, prepend, depth_after, is_end, is_brace, Lexed, at_end, unexpected_end, overrun, lexed,
  lexed_array, lexed_string, lex_at, lex_token, parser_iteration,
}

-- Nothing, or a rest that is at most so long.
abbrev pub RestAtMost : ℕ → Option (Text × Text) → Type 0
RestAtMost n none = Unit
RestAtMost n (some (token, rest)) = length rest ≤ n

prepend-RestAtMost :
    (n : ℕ) (c : ℕ) (o : Option (Text × Text)) → RestAtMost n o → RestAtMost (suc n) (prepend c o)
prepend-RestAtMost n c none h = tt
prepend-RestAtMost n c (some (token, rest)) h = omega arith

read_array-RestAtMost : (n : ℕ) (s : Text) → RestAtMost (length s) (read_array n s)
unfolding read_array
read_array-RestAtMost n [] = tt
read_array-RestAtMost n (c ∷ s) =
    let more =
      prepend-RestAtMost (length s) c (read_array (depth_after n c) s)
        (read_array-RestAtMost (depth_after n c) s) in
    elim (Bool-cases (depth_after n c == 0)) [ inl e ↦ rw e (omega arith) | inr e ↦ rw e more ]

weaker : (n : ℕ) (o : Option (Text × Text)) → RestAtMost n o → RestAtMost (suc n) o
weaker n none h = tt
weaker n (some (token, rest)) h = omega arith

read_string-RestAtMost : (escaped : Bool) (s : Text) → RestAtMost (length s) (read_string escaped s)
unfolding read_string
read_string-RestAtMost true [] = tt
read_string-RestAtMost false [] = tt
read_string-RestAtMost true (c ∷ s) =
    prepend-RestAtMost _ _ (read_string false s) (read_string-RestAtMost false s)
read_string-RestAtMost false (c ∷ s) =
    let more = read_string-RestAtMost (c == 92) s in
    elim (Bool-cases (c == 34)) [
      | inl e ↦ rw e (omega arith)
      | inr e ↦ elim (Bool-cases (c == 92)) [
        | inl f ↦ rw (e, f) (weaker _ _ (read_string-RestAtMost true s))
        | inr f ↦
            rw (e, f)
              (prepend-RestAtMost _ _ (read_string false s) (read_string-RestAtMost false s))
      ]
    ]

read_word-at_most : (s : Text) → length (read_word s).1 ≤ length s
unfolding read_word
read_word-at_most [] = omega arith
read_word-at_most (c ∷ s) = elim (Bool-cases (is_end c s)) [
  | inl e ↦ rw e (omega arith)
  | inr e ↦ rw e (omega (arith, read_word-at_most s))
]

pub skip-stop :
    (mode : Mode) (c : ℕ) (s : Text) → next_mode mode c s ≡ none → skip mode (c ∷ s) ≡ some (c ∷ s)
unfolding skip
skip-stop mode c s e = rw (e, skip) refl

pub skip-next :
    (mode next : Mode) (c : ℕ) (s : Text)
    → next_mode mode c s ≡ some next
    → skip mode (c ∷ s) ≡ skip next s
unfolding skip
skip-next mode next c s e = rw (e, skip) refl

-- Where skipping stops: not behind the text, and at a character that starts a token.
abbrev StopsAt : ℕ → Option Text → Type 0
StopsAt n none = Unit
StopsAt n (some []) = ⊥
StopsAt n (some (c ∷ t)) = (length t < n) × (next_mode blank c t ≡ none)

StopsAt-weaker : (n : ℕ) (o : Option Text) → StopsAt n o → StopsAt (suc n) o
StopsAt-weaker n none h = tt
StopsAt-weaker n (some []) h = h
StopsAt-weaker n (some (c ∷ t)) h = (omega (arith, h.0), h.1)

only_blank :
    (mode : Mode) (c : ℕ) (s : Text) → next_mode mode c s ≡ none → next_mode blank c s ≡ none
only_blank blank c s h = h
only_blank line_comment c s h = cc
only_blank opening c s h = cc
only_blank closing c s h = cc
only_blank (interior n) c s h = ground arith

skip-StopsAt : (mode : Mode) (s : Text) → StopsAt (length s) (skip mode s)
unfolding skip
skip-StopsAt mode [] = tt
skip-StopsAt mode (c ∷ s) = elim (Option-cases (next_mode mode c s)) [
  | inl e ↦
      subst (λ o. StopsAt (suc (length s)) o) (sym (skip-stop mode c s e))
        (omega arith, only_blank mode c s e)
  | inr (next, e) ↦
      subst (λ o. StopsAt (suc (length s)) o) (sym (skip-next mode next c s e))
        (StopsAt-weaker (length s) (skip next s) (skip-StopsAt next s))
]

-- A token leaves a text that is shorter than `n`.
abbrev pub Shorter : ℕ → Lexed → Type 0
Shorter n at_end = Unit
Shorter n unexpected_end = Unit
Shorter n overrun = Unit
Shorter n (lexed t rest) = length rest < n

lexed_array-Shorter :
    (n : ℕ) (o : Option (Text × Text)) → RestAtMost n o → Shorter (suc n) (lexed_array o)
lexed_array-Shorter n none h = tt
lexed_array-Shorter n (some (text, rest)) h = omega arith

lexed_string-Shorter :
    (n : ℕ) (o : Option (Text × Text)) → RestAtMost n o → Shorter (suc n) (lexed_string o)
lexed_string-Shorter n none h = tt
lexed_string-Shorter n (some (text, rest)) h = omega arith

-- A character that starts a token and is no bracket does not end a word.
starts-is_end :
    (c : ℕ) (s : Text) → next_mode blank c s ≡ none → is_brace c ≡ false → is_end c s ≡ false
starts-is_end c s h k = ground arith

pub read_word-next :
    (c : ℕ) (s : Text)
    → is_end c s ≡ false
    → read_word (c ∷ s) ≡ (c ∷ (read_word s).0, (read_word s).1)
unfolding read_word
read_word-next c s e = rw e refl

lex_token-Shorter :
    (c : ℕ) (s : Text) → next_mode blank c s ≡ none → Shorter (suc (length s)) (lex_token c s)
unfolding lex_token
lex_token-Shorter c s starts = elim (Bool-cases (c == 91)) [
  | inl e ↦ rw e (lexed_array-Shorter (length s) _ (read_array-RestAtMost 1 s))
  | inr e ↦ elim (Bool-cases (c == 34)) [
    | inl f ↦ rw (e, f) (lexed_string-Shorter (length s) _ (read_string-RestAtMost false s))
    | inr f ↦ elim (Bool-cases (is_brace c)) [
      | inl g ↦ rw (e, f, g) (omega arith)
      | inr g ↦
          rw (e, f, g, read_word-next c s (starts-is_end c s starts g))
            (omega (arith, read_word-at_most s))
    ]
  ]
]

Shorter-weaker : (n m : ℕ) (l : Lexed) → n ≤ m → Shorter n l → Shorter m l
Shorter-weaker n m at_end less h = tt
Shorter-weaker n m unexpected_end less h = tt
Shorter-weaker n m overrun less h = tt
Shorter-weaker n m (lexed t rest) less h = omega arith

lex_at-Shorter : (n : ℕ) (o : Option Text) → StopsAt n o → Shorter n (lex_at o)
lex_at-Shorter n none h = tt
lex_at-Shorter n (some []) h = tt
lex_at-Shorter n (some (c ∷ t)) h =
    Shorter-weaker (suc (length t)) n (lex_token c t) (omega (arith, h.0))
      (lex_token-Shorter c t h.1)

-- What is left behind a token is shorter than the text.
pub parser_iteration-Shorter : (s : Text) → Shorter (length s) (parser_iteration s)
unfolding parser_iteration
parser_iteration-Shorter s = lex_at-Shorter (length s) (skip blank s) (skip-StopsAt blank s)
