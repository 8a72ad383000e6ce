-- ===== src/Hive/Written.antt =====
-- The tokens of a text that is written in the form that libwebtester/hive.c reads, and what
-- `hive_parse_buf` makes of them.
use web_tester.Prelude.{
  ℕ, suc, ◌-◌, ◌≡◌, refl, ap, ◌∙◌, Bool, true, false, ◌||◌, none, List, [], ◌∷◌, ◌++◌, Text, codes,
  ◌==◌, arith,
}
use web_tester.Strings.Trim.{is_space}
use web_tester.Hive.Lexer.{
  blank, next_mode, read_word, is_end, is_brace, lexed, lex_at, plain, lex_token, parser_iteration,
}
use web_tester.Hive.Tree.{item, no_items, add_item, add_variable, node_value}
use web_tester.Hive.Parser.{
  Frame, Parser, goes_on, parse_token, parse_name, parse_value, close_frame,
}
use web_tester.Hive.Shorter.{skip-stop, skip-next, read_word-next}
use web_tester.Hive.Invariant.{split_last-add_item}

-- A character without a meaning of its own.
abbrev pub is_special : ℕ → Bool
is_special c = is_space c || is_brace c || c == 47 || c == 35 || c == 91 || c == 34

abbrev pub AllPlain : Text → Type 0
AllPlain [] = Unit
AllPlain (c ∷ w) = (is_special c ≡ false) × AllPlain w

abbrev pub IsWord : Text → Type 0
IsWord [] = ⊥
IsWord (c ∷ w) = (is_special c ≡ false) × AllPlain w

read_word-plain :
    (w : Text) (d : ℕ) (rest : Text)
    → AllPlain w
    → is_space d ≡ true
    → read_word (w ++ d ∷ rest) ≡ (w, d ∷ rest)
unfolding read_word
read_word-plain [] d rest h space = ground arith
read_word-plain (c ∷ w) d rest h space =
    let inner : is_end c (w ++ d ∷ rest) ≡ false = ground (arith, h.0) in
    read_word-next c (w ++ d ∷ rest) inner
    ∙ ap (λ x. (c ∷ x.0, x.1)) (read_word-plain w d rest h.1 space)

pub parser_iteration-space :
    (c : ℕ) (s : Text) → is_space c ≡ true → parser_iteration (c ∷ s) ≡ parser_iteration s
unfolding parser_iteration
parser_iteration-space c s h = ap (λ o. lex_at o) (skip-next blank blank c s (ground arith))

pub parser_iteration-word :
    (c : ℕ) (w : Text) (d : ℕ) (rest : Text)
    → is_special c ≡ false
    → AllPlain w
    → is_space d ≡ true
    → parser_iteration (c ∷ w ++ d ∷ rest) ≡ lexed (plain (c ∷ w)) (d ∷ rest)
unfolding parser_iteration lex_token
parser_iteration-word c w d rest h k space =
    let stop : next_mode blank c (w ++ d ∷ rest) ≡ none = ground (arith, h) in
    let array : c == 91 ≡ false = ground (arith, h) in
    let quote : c == 34 ≡ false = ground (arith, h) in
    let brace : is_brace c ≡ false = ground (arith, h) in
    ap (λ o. lex_at o) (skip-stop blank c (w ++ d ∷ rest) stop)
    ∙ rw (array, quote, brace, read_word-plain (c ∷ w) d rest (h, k) space) refl

pub parser_iteration-brace :
    (c : ℕ) (s : Text) → is_brace c ≡ true → parser_iteration (c ∷ s) ≡ lexed (plain (c ∷ [])) s
unfolding parser_iteration lex_token
parser_iteration-brace c s h =
    let stop : next_mode blank c s ≡ none = ground (arith, h) in
    let array : c == 91 ≡ false = ground (arith, h) in
    let quote : c == 34 ≡ false = ground (arith, h) in
    ap (λ o. lex_at o) (skip-stop blank c s stop) ∙ rw (array, quote, h) refl

-- Between two variables, and behind a name.
abbrev pub between : ℕ → Bool → Text → Frame → List Frame → Parser
between count var name current parents = record {
  at_value = false;
  name_taked = false;
  var_taked = var;
  brace_count = count;
  var_name = name;
  current = current;
  parents = parents;
}

abbrev pub waiting : ℕ → Text → Frame → List Frame → Parser
waiting count name current parents = record {
  at_value = true;
  name_taked = true;
  var_taked = false;
  brace_count = count;
  var_name = name;
  current = current;
  parents = parents;
}

pub parse_token-name :
    (c : ℕ) (w : Text) (count : ℕ) (var : Bool) (name : Text) (current : Frame)
    (parents : List Frame)
    → is_special c ≡ false
    → parse_token (plain (c ∷ w)) (between count var name current parents)
      ≡ goes_on (waiting count (c ∷ w) current parents)
unfolding parse_name
parse_token-name c w count var name current parents h =
    let opens : c == 123 ≡ false = ground (arith, h) in
    let closes : c == 125 ≡ false = ground (arith, h) in rw (opens, closes) refl

pub parse_token-value :
    (c : ℕ) (w : Text) (count : ℕ) (name : Text) (current : Frame) (parents : List Frame)
    → is_special c ≡ false
    → parse_token (plain (c ∷ w)) (waiting count name current parents)
      ≡ goes_on (
          between count true name
            (record current { nodes = add_variable current.nodes name (c ∷ w) false false })
            parents)
unfolding parse_value
parse_token-value c w count name current parents h =
    let opens : c == 123 ≡ false = ground (arith, h) in
    let closes : c == 125 ≡ false = ground (arith, h) in rw (opens, closes) refl

pub parse_token-open :
    (count : ℕ) (name : Text) (current : Frame) (parents : List Frame)
    → parse_token (plain (codes "{")) (waiting count name current parents)
      ≡ goes_on (
          between
            (suc count)
            false
            name
            (record { name = name; value = node_value [] false false; nodes = no_items })
            (current ∷ parents))
unfolding parse_value add_variable
parse_token-open count name current parents =
    rw (split_last-add_item current.nodes (item name (node_value [] false false) no_items)) refl

pub parse_token-close :
    (count : ℕ) (var : Bool) (name : Text) (current f : Frame) (parents : List Frame)
    → parse_token (plain (codes "}")) (between (suc count) var name current (f ∷ parents))
      ≡ goes_on (
          between count var name
            (record f { nodes = add_item f.nodes (close_frame current) })
            parents)
unfolding parse_name
parse_token-close count var name current f parents =
    let deep : suc count == 0 ≡ false = ground arith in
    let less : suc count - 1 ≡ count = omega arith in rw (deep, less) refl
