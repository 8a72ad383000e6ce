-- ===== src/Flexval/Scanner.antt =====
-- `unserialize_iterator` of libwebtester/flexval.c: the tokens of a serialized value.
--
-- The line number, which is only printed, and the size of the token's buffer are left out. A byte from
-- 128 on is negative as a `char`.
use web_tester.Prelude.{
  ℕ, suc, ◌-◌, Bool, true, false, ◌||◌, [], ◌∷◌, Text, leb, ◌==◌, if◌then◌else◌,
}

-- "Unexpected end of file", "Unexpected end of line" and "Extra information"
pub data ScanError : Type 0 where
  end_of_file end_of_line extra_information : ScanError

-- `ch <= 32 || ch >= 127`
abbrev pub is_blank : ℕ → Bool
is_blank c = leb c 32 || leb 127 c

-- The text from the first character that is not blank.
unfoldable pub skip_blank : Text → Text
skip_blank [] = []
skip_blank (c ∷ s) = let rest = skip_blank s in if is_blank c then rest else c ∷ s

-- A token and the text behind it, or the error.
pub data Scan : Type 0 where
  scan : Text → Text → Scan
  broken : ScanError → Scan

abbrev pub with_char : ℕ → Scan → Scan
with_char c (scan token rest) = scan (c ∷ token) rest
with_char c (broken m) = broken m

-- `interior` behind the character.
abbrev pub interior_after : ℕ → ℕ → ℕ
interior_after n c = if c == 91 then suc n else if c == 93 then n - 1 else n

-- An array up to its closing bracket, with `interior` brackets open.
unfoldable pub scan_array : ℕ → Text → Scan
scan_array n [] = broken end_of_file
scan_array n (c ∷ s) =
    let more = scan_array (interior_after n c) s in
    if interior_after n c == 0 then scan [] s else with_char c more

abbrev pub unescape : ℕ → ℕ
unescape c = if c == 116 then 9 else if c == 114 then 13 else if c == 110 then 10 else c

-- A string up to its quote, `escaped` behind a backslash.
unfoldable pub scan_string : Bool → Text → Scan
scan_string escaped [] = broken end_of_file
scan_string true (c ∷ s) =
    let more = scan_string false s in
    if c == 10 then broken end_of_line else with_char (unescape c) more
scan_string false (c ∷ s) =
    let more = scan_string (c == 92) s in
    if c == 34
    then scan [] s
    else if c == 10
    then broken end_of_line
    else if c == 92
    then more
    else with_char c more

-- A word up to the next blank.
unfoldable pub scan_word : Text → Scan
scan_word [] = scan [] []
scan_word (c ∷ s) =
    let more = scan_word s in if is_blank c then scan [] (c ∷ s) else with_char c more

-- `FVP_FLAGS_ARRAY`, `FVP_FLAGS_STRING` and no flag
pub data Flag : Type 0 where
  array_flag string_flag no_flag : Flag

pub data Scanned : Type 0 where
  no_token : Scanned
  error : ScanError → Scanned
  token : Flag → Text → Text → Scanned

abbrev pub flagged : Flag → Scan → Scanned
flagged flag (scan text rest) = token flag text rest
flagged flag (broken m) = error m

-- The token that starts here.
unfoldable pub scan_token : Text → Scanned
scan_token [] = no_token
scan_token (c ∷ s) =
    if c == 91
    then flagged array_flag (scan_array 1 s)
    else if c == 34
    then flagged string_flag (scan_string false s)
    else flagged no_flag (scan_word (c ∷ s))

-- `unserialize_iterator`
unfoldable pub unserialize_iterator : Text → Scanned
unserialize_iterator s = scan_token (skip_blank s)
