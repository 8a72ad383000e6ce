-- ===== src/Hive/Lexer.antt =====
-- `hive_parser_iteration` of libwebtester/hive.c: the tokens of a configuration file.
--
-- The line number, which is only printed, is left out, and so is the size of the token's buffer. A byte
-- from 128 on is negative as a `char`, and so is below the space.
use web_tester.Prelude.{
  ℕ, suc, ◌-◌, Bool, true, false, ◌&&◌, ◌||◌, Option, none, some, [], ◌∷◌, Text, leb, ◌==◌,
  if◌then◌else◌,
}
use web_tester.Strings.Trim.{is_space}

-- A token with `HPF_STRING` and `HPF_ARRAY`.
pub record Token : Type 0 where
  pub text : Text
  pub is_string : Bool
  pub is_array : Bool

abbrev pub first_is : ℕ → Text → Bool
first_is c [] = false
first_is c (d ∷ s) = d == c

-- Where the main loop stands: between tokens; in a line's comment; at the star that opens a comment; in
-- comments, `interior` of them; at the slash that closes them.
pub data Mode : Type 0 where
  blank line_comment opening closing : Mode
  interior : ℕ → Mode

abbrev pub is_open : ℕ → Text → Bool
is_open c s = c == 47 && first_is 42 s

abbrev pub is_close : ℕ → Text → Bool
is_close c s = c == 42 && first_is 47 s

-- The next mode, `none` where a token starts.
abbrev pub next_mode : Mode → ℕ → Text → Option Mode
next_mode blank c s =
    if is_space c
    then some blank
    else if c == 47 && first_is 47 s
    then some line_comment
    else if is_open c s
    then some opening
    else none
next_mode line_comment c s = some (if c == 10 then blank else line_comment)
next_mode opening c s = some (interior 1)
next_mode closing c s = some blank
next_mode (interior n) c s =
    if is_open c s
    then some (interior (suc n))
    else if is_close c s
    then some (if leb n 1 then closing else interior (n - 1))
    else some (interior n)

-- The text from the next token on, `none` at the end of the file.
unfoldable pub skip : Mode → Text → Option Text
skip mode [] = none
skip mode (c ∷ s) = elim (next_mode mode c s) [ none ↦ some (c ∷ s) | some next ↦ skip next s ]

abbrev pub prepend : ℕ → Option (Text × Text) → Option (Text × Text)
prepend c none = none
prepend c (some (token, rest)) = some (c ∷ token, rest)

-- `interior` of the array after the character.
abbrev pub depth_after : ℕ → ℕ → ℕ
depth_after n c = if c == 91 then suc n else if c == 93 then n - 1 else n

-- The array up to its closing bracket, `none` at the end of the file.
unfoldable pub read_array : ℕ → Text → Option (Text × Text)
read_array n [] = none
read_array n (c ∷ s) =
    let more = read_array (depth_after n c) s in
    if depth_after n c == 0 then some ([], s) else prepend c more

abbrev pub unescaped : ℕ → ℕ
unescaped c = if c == 116 then 9 else if c == 110 then 10 else c

-- The string up to its quote, `escaped` behind a backslash; `none` where the end is passed.
unfoldable pub read_string : Bool → Text → Option (Text × Text)
read_string escaped [] = none
read_string true (c ∷ s) = prepend (unescaped c) (read_string false s)
read_string false (c ∷ s) =
    let more = read_string (c == 92) s in
    if c == 34 then some ([], s) else if c == 92 then more else prepend c more

abbrev pub is_brace : ℕ → Bool
is_brace c = c == 123 || c == 125

-- Where a word ends.
abbrev pub is_end : ℕ → Text → Bool
is_end c s = is_space c || is_brace c || (c == 47 && (first_is 42 s || first_is 47 s))

unfoldable pub read_word : Text → Text × Text
read_word [] = ([], [])
read_word (c ∷ s) =
    let (token, rest) = read_word s in if is_end c s then ([], c ∷ s) else (c ∷ token, rest)

-- The end of the file; an array without its end; a read past the end of the buffer; or a token, with the
-- text behind it.
pub data Lexed : Type 0 where
  at_end : Lexed
  unexpected_end : Lexed
  overrun : Lexed
  lexed : Token → Text → Lexed

abbrev pub lexed_array : Option (Text × Text) → Lexed
lexed_array none = unexpected_end
lexed_array (some (text, rest)) =
    lexed (record { text = text; is_string = false; is_array = true }) rest

abbrev pub lexed_string : Option (Text × Text) → Lexed
lexed_string none = overrun
lexed_string (some (text, rest)) =
    lexed (record { text = text; is_string = true; is_array = false }) rest

abbrev pub plain : Text → Token
plain text = record { text = text; is_string = false; is_array = false }

abbrev pub lexed_word : Text × Text → Lexed
lexed_word (text, rest) = lexed (plain text) rest

-- The token that starts here.
unfoldable pub lex_token : ℕ → Text → Lexed
lex_token c s =
    if c == 91
    then lexed_array (read_array 1 s)
    else if c == 34
    then lexed_string (read_string false s)
    else if is_brace c
    then lexed (plain (c ∷ [])) s
    else lexed_word (read_word (c ∷ s))

abbrev pub lex_at : Option Text → Lexed
lex_at none = at_end
lex_at (some []) = at_end
lex_at (some (c ∷ s)) = lex_token c s

-- `hive_parser_iteration`
unfoldable pub parser_iteration : Text → Lexed
parser_iteration s = lex_at (skip blank s)
