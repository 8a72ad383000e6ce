-- ===== src/Strings/Slashes.antt =====
-- `strupr`, `strlowr`, `addslashes` and `stripslashes` of libwebtester/strlib.c.
use web_tester.Prelude.{
  ℕ, ◌+◌, ◌-◌, ◌≡◌, ◌≢◌, refl, Bool, true, false, ◌&&◌, ◌||◌, [], ◌∷◌, Text, leb, ◌==◌,
  if◌then◌else◌, arith,
}

abbrev is_between : ℕ → ℕ → ℕ → Bool
is_between low high c = leb low c && leb c high

unfoldable pub strupr : Text → Text
strupr [] = []
strupr (c ∷ s) = (if is_between 97 122 c then c - 32 else c) ∷ strupr s

unfoldable strlowr : Text → Text
strlowr [] = []
strlowr (c ∷ s) = (if is_between 65 90 c then c + 32 else c) ∷ strlowr s

-- The space and the two quotes.
abbrev is_dangerous : ℕ → Bool
is_dangerous c = c == 32 || c == 34 || c == 39

unfoldable pub addslashes : Text → Text
addslashes [] = []
addslashes (c ∷ s) = let rest = c ∷ addslashes s in if is_dangerous c then 92 ∷ rest else rest

-- The character that `\c` stands for.
abbrev escaped : ℕ → ℕ
escaped c = if c == 110 then 10 else if c == 116 then 9 else if c == 114 then 13 else c

-- The loop, `slash` after a backslash; one at the end stands for the final 0.
unfoldable strip_loop : Bool → Text → Text
strip_loop slash [] = []
strip_loop true (c ∷ s) = escaped c ∷ strip_loop false s
strip_loop false (c ∷ s) = let rest = strip_loop (c == 92) s in if c == 92 then rest else c ∷ rest

unfoldable pub stripslashes : Text → Text
unfolding strip_loop
stripslashes s = strip_loop false s

-- No backslash.
abbrev pub NoSlash : Text → Type 0
NoSlash [] = Unit
NoSlash (c ∷ s) = (c ≢ 92) × NoSlash s

add_strip :
    (c : ℕ) (rest s : Text)
    → c ≢ 92
    → strip_loop false rest ≡ s
    → strip_loop false (if is_dangerous c then 92 ∷ c ∷ rest else c ∷ rest) ≡ c ∷ s
unfolding strip_loop
add_strip c rest s n h = ground arith

-- Of a text without backslashes, `stripslashes` gives back what `addslashes` was given.
stripslashes-addslashes : (s : Text) → NoSlash s → stripslashes (addslashes s) ≡ s
unfolding stripslashes addslashes strip_loop
stripslashes-addslashes [] n = refl
stripslashes-addslashes (c ∷ s) n = add_strip c (addslashes s) s n.0 (stripslashes-addslashes s n.1)

-- A text without backslashes is left as it is.
pub stripslashes-NoSlash : (s : Text) → NoSlash s → stripslashes s ≡ s
unfolding stripslashes strip_loop
stripslashes-NoSlash [] n = refl
stripslashes-NoSlash (c ∷ s) n = ground (arith, stripslashes-NoSlash s n.1)

-- Lower case forgets upper case, and the other way round.
strlowr-strupr : (s : Text) → (strlowr (strupr s) ≡ strlowr s) × (strupr (strlowr s) ≡ strupr s)
unfolding strlowr strupr
strlowr-strupr [] = (refl, refl)
strlowr-strupr (c ∷ s) = let rest = strlowr-strupr s in (ground arith, ground arith)
