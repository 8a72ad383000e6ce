-- ===== src/Strings/Paths.antt =====
-- `strlastchar` of libwebtester/strlib.c, and `fname`, `dirname`, `dropextension` and `getextension` of
-- util.c.
use web_tester.Prelude.{
  ℕ, zero, suc, ◌+◌, ◌≡◌, ◌≢◌, refl, ap, ◌∙◌, true, [], ◌∷◌, ◌++◌, ℤ, pos, negsuc, Text, ◌==◌,
  length, if◌then◌else◌, arith,
}

-- The loop that keeps the last index of a character in `last`; `i` is the index of the first.
unfoldable pub last_loop {ℓ} : {A : Type ℓ} → (ℕ → A) → ℕ → Text → ℕ → A → A
last_loop at c [] i last = last
last_loop at c (x ∷ s) i last = last_loop at c s (suc i) (if x == c then at i else last)

unfoldable pub strlastchar : Text → ℕ → ℤ
strlastchar s c = last_loop pos c s 0 (negsuc 0)

-- `lastuk`, 0 where there is no such character
abbrev pub lastuk : ℕ → Text → ℕ
lastuk c s = last_loop (λ i. i) c s 0 0

-- The copies from and up to an index.
abbrev pub from : ℕ → Text → Text
from zero s = s
from (suc i) [] = []
from (suc i) (c ∷ s) = from i s

abbrev pub up_to : ℕ → Text → Text
up_to zero s = []
up_to (suc i) [] = []
up_to (suc i) (c ∷ s) = c ∷ up_to i s

unfoldable pub fname : Text → Text
fname s = from (suc (lastuk 47 s)) s

unfoldable pub dirname : Text → Text
dirname s = up_to (lastuk 47 s) s

unfoldable getextension : Text → Text
getextension s = from (suc (lastuk 46 s)) s

-- `firstuk`, 0 where there is no dot
unfoldable firstuk : Text → ℕ → ℕ
firstuk [] i = 0
firstuk (x ∷ s) i = let rest = firstuk s (suc i) in if x == 46 then i else rest

unfoldable dropextension : Text → Text
dropextension s = up_to (firstuk s 0) s

abbrev pub Without : ℕ → Text → Type 0
Without c [] = Unit
Without c (x ∷ s) = (x ≢ c) × Without c s

module _ {ℓ} {A : Type ℓ} (at : ℕ → A) where
  last_loop-Without :
      (c : ℕ) (s : Text) (i : ℕ) (last : A) → Without c s → last_loop at c s i last ≡ last
  unfolding last_loop
  last_loop-Without c [] i last w = refl
  last_loop-Without c (x ∷ s) i last w =
      last_loop-Without c s (suc i) (if x == c then at i else last) w.1
      ∙ skipped (if x == c then at i else last) refl
    where
      skipped : (y : A) → y ≡ (if x == c then at i else last) → y ≡ last
      skipped y e = ground (arith, w.0)

  last_loop-found :
      (c : ℕ) (before after : Text) (i : ℕ) (last : A)
      → Without c after
      → last_loop at c (before ++ c ∷ after) i last ≡ at (i + length before)
  unfolding last_loop
  last_loop-found c [] after i last w =
      let self : (c == c) ≡ true = ground arith in
      last_loop-Without c after (suc i) (if c == c then at i else last) w
      ∙ ap (λ b. if b then at i else last) self
      ∙ ap at (omega arith)
  last_loop-found c (x ∷ before) after i last w =
      last_loop-found c before after (suc i) (if x == c then at i else last) w ∙ ap at (omega arith)

lastuk-found :
    (c : ℕ) (before after : Text) → Without c after → lastuk c (before ++ c ∷ after) ≡ length before
lastuk-found c before after w = last_loop-found (λ i. i) c before after 0 0 w ∙ omega arith

from-length : (s t : Text) (c : ℕ) → from (suc (length s)) (s ++ c ∷ t) ≡ t
from-length [] t c = refl
from-length (x ∷ s) t c = from-length s t c

up_to-length : (s t : Text) → up_to (length s) (s ++ t) ≡ s
up_to-length [] t = refl
up_to-length (c ∷ s) t = ap (λ x. c ∷ x) (up_to-length s t)

-- A path of a directory, a slash and a name without a slash has that directory and that name.
dirname-fname :
    (dir name : Text)
    → Without 47 name
    → (dirname (dir ++ 47 ∷ name) ≡ dir) × (fname (dir ++ 47 ∷ name) ≡ name)
unfolding dirname fname
dirname-fname dir name w =
    let found = lastuk-found 47 dir name w in
    (rw found (up_to-length dir (47 ∷ name)), rw found (from-length dir name 47))

-- The name of a path without a slash lacks the first character, and its directory is empty.
fname-no_slash :
    (c : ℕ) (s : Text)
    → Without 47 (c ∷ s)
    → (fname (c ∷ s) ≡ s) × (dirname (c ∷ s) ≡ []) × (strlastchar (c ∷ s) 47 ≡ negsuc 0)
unfolding fname dirname strlastchar
fname-no_slash c s w =
    let none_found = last_loop-Without (λ i. i) 47 (c ∷ s) 0 0 w in
    (rw none_found refl, rw none_found refl, last_loop-Without pos 47 (c ∷ s) 0 (negsuc 0) w)
