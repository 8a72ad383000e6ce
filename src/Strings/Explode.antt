-- ===== src/Strings/Explode.antt =====
-- `explode` of libwebtester/strlib.c, at a separator of one character.
--
-- The last token is always appended: it holds no separator, so that the comparison with the separator
-- fails, as it does for an empty text, whose token is read before it is written.
use web_tester.Prelude.{
  ℕ, ◌≡◌, ap, ◌∙◌, sym, true, false, arith, List, [], ◌∷◌, ◌++◌, append_assoc, append-nil, Text,
  ◌==◌, if◌then◌else◌,
}

-- The loop of `explode`, with the token read so far.
unfoldable explode_loop : ℕ → Text → Text → List Text
explode_loop sep token [] = token ∷ []
explode_loop sep token (c ∷ s) =
    let more = explode_loop sep (token ++ c ∷ []) s in
    let next = explode_loop sep [] s in if c == sep then token ∷ next else more

unfoldable pub explode : ℕ → Text → List Text
unfolding explode_loop
explode sep s = explode_loop sep [] s

-- The words with the separator between them.
abbrev pub join : ℕ → List Text → Text
join sep [] = []
join sep (w ∷ []) = w
join sep (w ∷ v ∷ ws) = w ++ sep ∷ join sep (v ∷ ws)

-- The character does not stand in the text.
abbrev pub Without : ℕ → Text → Type 0
Without sep [] = Unit
Without sep (c ∷ s) = (c == sep ≡ false) × Without sep s

abbrev pub AllWithout : ℕ → List Text → Type 0
AllWithout sep [] = Unit
AllWithout sep (w ∷ ws) = Without sep w × AllWithout sep ws

explode_loop-last :
    (sep : ℕ) (token w : Text) → Without sep w → explode_loop sep token w ≡ (token ++ w) ∷ []
unfolding explode_loop
explode_loop-last sep token [] h = ap (λ t. t ∷ []) (sym (append-nil token))
explode_loop-last sep token (c ∷ w) h =
    rw (h.0, explode_loop-last sep (token ++ c ∷ []) w h.1)
      (ap (λ t. t ∷ []) (append_assoc token (c ∷ []) w))

eq_refl : (n : ℕ) → n == n ≡ true
eq_refl n = ground arith

explode_loop-word :
    (sep : ℕ) (token w rest : Text)
    → Without sep w
    → explode_loop sep token (w ++ sep ∷ rest) ≡ (token ++ w) ∷ explode_loop sep [] rest
unfolding explode_loop
explode_loop-word sep token [] rest h =
    rw (eq_refl sep) (ap (λ t. t ∷ explode_loop sep [] rest) (sym (append-nil token)))
explode_loop-word sep token (c ∷ w) rest h =
    rw (h.0, explode_loop-word sep (token ++ c ∷ []) w rest h.1)
      (ap (λ t. t ∷ explode_loop sep [] rest) (append_assoc token (c ∷ []) w))

-- Words that do not hold the separator, joined by it, are what `explode` gives back.
pub explode-join :
    (sep : ℕ) (w : Text) (ws : List Text)
    → AllWithout sep (w ∷ ws)
    → explode sep (join sep (w ∷ ws)) ≡ w ∷ ws
unfolding explode
explode-join sep w [] h = explode_loop-last sep [] w h.0
explode-join sep w (v ∷ ws) h =
    explode_loop-word sep [] w (join sep (v ∷ ws)) h.0 ∙ ap (λ l. w ∷ l) (explode-join sep v ws h.1)
