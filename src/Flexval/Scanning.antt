-- ===== src/Flexval/Scanning.antt =====
-- The tokens that `unserialize_iterator` of libwebtester/flexval.c finds in written arrays.
use web_tester.Prelude.{
  ℕ, suc, ◌≡◌, refl, ap, ◌∙◌, sym, subst, false, [], ◌∷◌, ◌++◌, append_assoc, append-nil, Text,
  ◌==◌, arith,
}
use web_tester.Flexval.Scanner.{
  scan, with_char, Scan, interior_after, scan_array, scan_string, skip_blank, scan_token,
  unserialize_iterator, token, array_flag, string_flag, flagged,
}
use web_tester.Flexval.Written.{Entries, end_of, text, list, AllPlain, AllTexts, gap, write}

abbrev prefixed : Text → Scan → Scan
prefixed [] x = x
prefixed (c ∷ s) x = with_char c (prefixed s x)

prefixed-append : (s t : Text) (x : Scan) → prefixed (s ++ t) x ≡ prefixed s (prefixed t x)
prefixed-append [] t x = refl
prefixed-append (c ∷ s) t x = ap (λ y. with_char c y) (prefixed-append s t x)

prefixed-scan : (s t rest : Text) → prefixed s (scan t rest) ≡ scan (s ++ t) rest
prefixed-scan [] t rest = refl
prefixed-scan (c ∷ s) t rest = ap (λ y. with_char c y) (prefixed-scan s t rest)

scan_array-step :
    (n m c : ℕ) (s : Text)
    → interior_after n c ≡ suc m
    → scan_array n (c ∷ s) ≡ with_char c (scan_array (suc m) s)
unfolding scan_array
scan_array-step n m c s e = let more : (suc m == 0) ≡ false = ground arith in rw (e, more) refl

-- A text in which every bracket is closed.
abbrev Balanced : Text → Type 0
Balanced w =
    (n : ℕ) (rest : Text) → scan_array (suc n) (w ++ rest) ≡ prefixed w (scan_array (suc n) rest)

neutral-Balanced :
    (c : ℕ) (w : Text) → (c == 91) ≡ false → (c == 93) ≡ false → Balanced w → Balanced (c ∷ w)
neutral-Balanced c w no_open no_close h n rest =
    scan_array-step (suc n) n c (w ++ rest) (rw (no_open, no_close) refl)
    ∙ ap (λ x. with_char c x) (h n rest)

plain-Balanced : (s w : Text) → AllPlain s → Balanced w → Balanced (s ++ w)
plain-Balanced [] w p h = h
plain-Balanced (c ∷ s) w p h =
    neutral-Balanced c (s ++ w) (ground (arith, p.0)) (ground (arith, p.0))
      (plain-Balanced s w p.1 h)

bracket-Balanced : (v w : Text) → Balanced v → Balanced w → Balanced (91 ∷ (v ++ 93 ∷ w))
bracket-Balanced v w hv hw n rest =
    scan_array-step (suc n) (suc n) 91 ((v ++ 93 ∷ w) ++ rest) refl
    ∙ ap (λ x. with_char 91 (scan_array (suc (suc n)) x)) (append_assoc v (93 ∷ w) rest)
    ∙ ap (λ x. with_char 91 x)
        (hv (suc n) (93 ∷ w ++ rest)
          ∙ ap (λ x. prefixed v x)
              (scan_array-step (suc (suc n)) n 93 (w ++ rest) (omega arith)
                ∙ ap (λ x. with_char 93 x) (hw n rest))
          ∙ sym (prefixed-append v (93 ∷ w) (scan_array (suc n) rest)))

gap-append : (es : Entries) (s rest : Text) → gap es (s ++ rest) ≡ gap es s ++ rest
gap-append end_of s rest = refl
gap-append (text t es) s rest = refl
gap-append (list inner es) s rest = refl

pub write-append : (es : Entries) (rest : Text) → write es rest ≡ write es [] ++ rest
write-append end_of rest = refl
write-append (text s es) rest =
    let tail = ap (λ x. gap es x) (write-append es rest) ∙ gap-append es (write es []) rest in
    ap (λ x. 34 ∷ (s ++ 34 ∷ x)) tail
    ∙ ap (λ x. 34 ∷ x) (sym (append_assoc s (34 ∷ gap es (write es [])) rest))
write-append (list inner es) rest =
    let tail = ap (λ x. gap es x) (write-append es rest) ∙ gap-append es (write es []) rest in
    ap (λ x. 91 ∷ x)
      (ap (λ x. write inner (93 ∷ x)) tail
        ∙ write-append inner (93 ∷ gap es (write es []) ++ rest)
        ∙ sym (append_assoc (write inner []) (93 ∷ gap es (write es [])) rest)
        ∙ ap (λ x. x ++ rest) (sym (write-append inner (93 ∷ gap es (write es [])))))

gap-Balanced : (es : Entries) (w : Text) → Balanced w → Balanced (gap es w)
gap-Balanced end_of w h = h
gap-Balanced (text t es) w h = neutral-Balanced 32 w refl refl h
gap-Balanced (list inner es) w h = neutral-Balanced 32 w refl refl h

write-Balanced : (es : Entries) → AllTexts es → Balanced (write es [])
write-Balanced end_of h = λ n rest. refl
write-Balanced (text s es) h = neutral-Balanced 34 (s ++ 34 ∷ gap es (write es [])) refl refl (
    plain-Balanced s (34 ∷ gap es (write es [])) h.0 (
      neutral-Balanced 34 (gap es (write es [])) refl refl
        (gap-Balanced es (write es []) (write-Balanced es h.1))))
write-Balanced (list inner es) h =
    subst (λ x. Balanced (91 ∷ x)) (sym (write-append inner (93 ∷ gap es (write es []))))
      (bracket-Balanced (write inner []) (gap es (write es [])) (write-Balanced inner h.0)
        (gap-Balanced es (write es []) (write-Balanced es h.1)))

scan_array-close : (rest : Text) → scan_array 1 (93 ∷ rest) ≡ scan [] rest
unfolding scan_array
scan_array-close rest = refl

scan_array-write :
    (es : Entries) (rest : Text)
    → AllTexts es
    → scan_array 1 (write es (93 ∷ rest)) ≡ scan (write es []) rest
scan_array-write es rest h =
    ap (λ x. scan_array 1 x) (write-append es (93 ∷ rest))
    ∙ write-Balanced es h 0 (93 ∷ rest)
    ∙ ap (λ x. prefixed (write es []) x) (scan_array-close rest)
    ∙ prefixed-scan (write es []) [] rest
    ∙ ap (λ x. scan x rest) (append-nil (write es []))

scan_string-plain : (s rest : Text) → AllPlain s → scan_string false (s ++ 34 ∷ rest) ≡ scan s rest
unfolding scan_string
scan_string-plain [] rest h = refl
scan_string-plain (c ∷ s) rest h =
    let quote : (c == 34) ≡ false = ground (arith, h.0) in
    let line_end : (c == 10) ≡ false = ground (arith, h.0) in
    let backslash : (c == 92) ≡ false = ground (arith, h.0) in
    rw (quote, line_end, backslash) (ap (λ x. with_char c x) (scan_string-plain s rest h.1))

pub unserialize_iterator-string :
    (s rest : Text)
    → AllPlain s
    → unserialize_iterator (34 ∷ (s ++ 34 ∷ rest)) ≡ token string_flag s rest
unfolding unserialize_iterator scan_token skip_blank
unserialize_iterator-string s rest h = ap (λ x. flagged string_flag x) (scan_string-plain s rest h)

pub unserialize_iterator-array :
    (es : Entries) (rest : Text)
    → AllTexts es
    → unserialize_iterator (91 ∷ write es (93 ∷ rest)) ≡ token array_flag (write es []) rest
unfolding unserialize_iterator scan_token skip_blank
unserialize_iterator-array es rest h = ap (λ x. flagged array_flag x) (scan_array-write es rest h)

pub unserialize_iterator-gap :
    (es : Entries) (s : Text) → unserialize_iterator (gap es s) ≡ unserialize_iterator s
unfolding unserialize_iterator skip_blank
unserialize_iterator-gap end_of s = refl
unserialize_iterator-gap (text t es) s = refl
unserialize_iterator-gap (list inner es) s = refl
