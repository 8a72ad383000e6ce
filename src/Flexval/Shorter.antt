-- ===== src/Flexval/Shorter.antt =====
-- Every token of libwebtester/flexval.c leaves a shorter text.
use web_tester.Prelude.{
  ℕ, suc, ◌+◌, ◌≤◌, ◌<◌, ◌≡◌, refl, Bool, true, false, [], ◌∷◌, Text, length, ◌==◌, arith,
  Bool-cases, inl, inr,
}
use web_tester.Flexval.Scanner.{
  Scan, scan, broken, with_char, scan_array, scan_string, scan_word, interior_after, is_blank,
  skip_blank, Scanned, no_token, error, token, flagged, array_flag, string_flag, no_flag,
  scan_token, unserialize_iterator,
}

-- The token and the text behind it, together at most so long.
abbrev AtMost : ℕ → Scan → Type 0
AtMost n (scan text rest) = length text + length rest ≤ n
AtMost n (broken m) = Unit

with_char-AtMost : (n c : ℕ) (x : Scan) → AtMost n x → AtMost (suc n) (with_char c x)
with_char-AtMost n c (scan text rest) h = omega arith
with_char-AtMost n c (broken m) h = tt

AtMost-weaker : (n : ℕ) (x : Scan) → AtMost n x → AtMost (suc n) x
AtMost-weaker n (scan text rest) h = omega arith
AtMost-weaker n (broken m) h = tt

-- The closing bracket is neither in the token nor behind it.
abbrev Less : ℕ → Scan → Type 0
Less n (scan text rest) = length text + length rest < n
Less n (broken m) = Unit

with_char-Less : (n c : ℕ) (x : Scan) → Less n x → Less (suc n) (with_char c x)
with_char-Less n c (scan text rest) h = omega arith
with_char-Less n c (broken m) h = tt

scan_array-Less : (n : ℕ) (s : Text) → Less (length s) (scan_array n s)
unfolding scan_array
scan_array-Less n [] = tt
scan_array-Less n (c ∷ s) =
    let more = scan_array-Less (interior_after n c) s in
    elim (Bool-cases (interior_after n c == 0)) [
      | inl e ↦ rw e (omega arith)
      | inr e ↦ rw e (with_char-Less (length s) c _ more)
    ]

scan_string-AtMost : (escaped : Bool) (s : Text) → AtMost (length s) (scan_string escaped s)
unfolding scan_string
scan_string-AtMost true [] = tt
scan_string-AtMost false [] = tt
scan_string-AtMost true (c ∷ s) = elim (Bool-cases (c == 10)) [
  | inl e ↦ rw e tt
  | inr e ↦ rw e (with_char-AtMost (length s) _ _ (scan_string-AtMost false s))
]
scan_string-AtMost false (c ∷ s) =
    let more = scan_string-AtMost (c == 92) s in
    elim (Bool-cases (c == 34)) [
      | inl e ↦ rw e (omega arith)
      | inr e ↦ elim (Bool-cases (c == 10)) [
        | inl f ↦ rw (e, f) tt
        | inr f ↦ elim (Bool-cases (c == 92)) [
          | inl g ↦ rw (e, f, g) (AtMost-weaker (length s) _ (scan_string-AtMost true s))
          | inr g ↦ rw (e, f, g) (with_char-AtMost (length s) _ _ (scan_string-AtMost false s))
        ]
      ]
    ]

-- The text behind a word.
abbrev RestAtMost : ℕ → Scan → Type 0
RestAtMost n (scan text rest) = length rest ≤ n
RestAtMost n (broken m) = Unit

with_char-RestAtMost : (n c : ℕ) (x : Scan) → RestAtMost n x → RestAtMost (suc n) (with_char c x)
with_char-RestAtMost n c (scan text rest) h = omega arith
with_char-RestAtMost n c (broken m) h = tt

with_char-same : (n c : ℕ) (x : Scan) → RestAtMost n x → RestAtMost n (with_char c x)
with_char-same n c (scan text rest) h = h
with_char-same n c (broken m) h = tt

scan_word-RestAtMost : (s : Text) → RestAtMost (length s) (scan_word s)
unfolding scan_word
scan_word-RestAtMost [] = omega arith
scan_word-RestAtMost (c ∷ s) = elim (Bool-cases (is_blank c)) [
  | inl e ↦ rw e (omega arith)
  | inr e ↦ rw e (with_char-RestAtMost (length s) c _ (scan_word-RestAtMost s))
]

-- A token takes at least one character, an array both its brackets.
abbrev pub Shorter : ℕ → Scanned → Type 0
Shorter n no_token = Unit
Shorter n (error m) = Unit
Shorter n (token array_flag text rest) = length text + length rest + 2 ≤ n
Shorter n (token string_flag text rest) = length rest < n
Shorter n (token no_flag text rest) = length rest < n

flagged_array-Shorter : (n : ℕ) (x : Scan) → Less n x → Shorter (suc n) (flagged array_flag x)
flagged_array-Shorter n (scan text rest) h = omega arith
flagged_array-Shorter n (broken m) h = tt

flagged_string-Shorter : (n : ℕ) (x : Scan) → AtMost n x → Shorter (suc n) (flagged string_flag x)
flagged_string-Shorter n (scan text rest) h = omega arith
flagged_string-Shorter n (broken m) h = tt

flagged_word-Shorter : (n : ℕ) (x : Scan) → RestAtMost n x → Shorter (suc n) (flagged no_flag x)
flagged_word-Shorter n (scan text rest) h = omega arith
flagged_word-Shorter n (broken m) h = tt

Shorter-weaker : (n : ℕ) (t : Scanned) → Shorter n t → Shorter (suc n) t
Shorter-weaker n no_token h = tt
Shorter-weaker n (error m) h = tt
Shorter-weaker n (token array_flag text rest) h = omega arith
Shorter-weaker n (token string_flag text rest) h = omega arith
Shorter-weaker n (token no_flag text rest) h = omega arith

scan_word-next :
    (c : ℕ) (s : Text) → is_blank c ≡ false → scan_word (c ∷ s) ≡ with_char c (scan_word s)
unfolding scan_word
scan_word-next c s e = rw e refl

scan_token-Shorter :
    (c : ℕ) (s : Text) → is_blank c ≡ false → Shorter (suc (length s)) (scan_token (c ∷ s))
unfolding scan_token
scan_token-Shorter c s starts = elim (Bool-cases (c == 91)) [
  | inl e ↦ rw e (flagged_array-Shorter (length s) _ (scan_array-Less 1 s))
  | inr e ↦ elim (Bool-cases (c == 34)) [
    | inl f ↦ rw (e, f) (flagged_string-Shorter (length s) _ (scan_string-AtMost false s))
    | inr f ↦
        rw (e, f, scan_word-next c s starts)
          (flagged_word-Shorter (length s) _
            (with_char-same (length s) c _ (scan_word-RestAtMost s)))
  ]
]

scan_nothing-Shorter : Shorter 0 (scan_token [])
unfolding scan_token
scan_nothing-Shorter = tt

pub unserialize_iterator-Shorter : (s : Text) → Shorter (length s) (unserialize_iterator s)
unfolding unserialize_iterator skip_blank
unserialize_iterator-Shorter [] = scan_nothing-Shorter
unserialize_iterator-Shorter (c ∷ s) = elim (Bool-cases (is_blank c)) [
  | inl e ↦ rw e (Shorter-weaker (length s) _ (unserialize_iterator-Shorter s))
  | inr e ↦ rw e (scan_token-Shorter c s e)
]
