-- ===== src/Hive/RoundTrip.antt =====
-- `hive_parse_buf` of libwebtester/hive.c reads a written tree back.
use web_tester.Prelude.{
  ℕ, suc, ◌<◌, ◌≡◌, refl, ap, ◌∙◌, Bool, true, false, Option, List, [], ◌∷◌, ◌++◌, Text, length,
  length-append, arith,
}
use web_tester.Strings.Trim.{is_space}
use web_tester.Hive.Lexer.{Token, is_brace, lexed, plain, parser_iteration, skip}
use web_tester.Hive.Tree.{item, Items, no_items, add_item, node_value, add_variable}
use web_tester.Hive.Parser.{
  Frame, Parser, Parsed, goes_on, parsed, parse_token, is_directive, parser_start, parse_round,
  parse_loop, parse_buf,
}
use web_tester.Hive.Fuel.{parse_loop-fuel}
use web_tester.Hive.Written.{
  IsWord, between, waiting, parser_iteration-space, parser_iteration-word, parser_iteration-brace,
  parse_token-name, parse_token-value, parse_token-open, parse_token-close,
}

-- Variables, and blocks of them.
pub data Entries : Type 0 where
  end_of : Entries
  variable : Text → Text → Entries → Entries
  block : Text → Entries → Entries → Entries

abbrev pub AllWords : Entries → Type 0
AllWords end_of = Unit
AllWords (variable name value es) = IsWord name × IsWord value × AllWords es
AllWords (block name inner es) = IsWord name × AllWords inner × AllWords es

-- Written in front of a text, a variable on its line.
abbrev pub write : Entries → Text → Text
write end_of rest = rest
write (variable name value es) rest = name ++ 32 ∷ (value ++ 10 ∷ write es rest)
write (block name inner es) rest = name ++ 32 ∷ 123 ∷ 10 ∷ write inner (125 ∷ 10 ∷ write es rest)

-- The nodes of the entries, behind others.
unfoldable pub built : Entries → Items → Items
unfolding add_variable
built end_of nodes = nodes
built (variable name value es) nodes = built es (add_variable nodes name value false false)
built (block name inner es) nodes =
    built es (add_item nodes (item name (node_value [] false false) (built inner no_items)))

module _ (include : Text → Option Items) (cur_dir : Text) where
  abbrev parse : Text → Parser → Parsed
  parse s p = parse_loop include cur_dir (suc (length s)) s p

  parse-space : (c : ℕ) (s : Text) (p : Parser) → is_space c ≡ true → parse (c ∷ s) p ≡ parse s p
  unfolding parse_loop
  parse-space c s p h =
      ap
        (λ l.
          parse_round include cur_dir (λ rest q. parse_loop include cur_dir (suc (length s)) rest q)
            p l)
        (parser_iteration-space c s h)
      ∙ parse_loop-fuel include cur_dir (suc (suc (length s))) (suc (length s)) s p (omega arith)
          (omega arith)

  parse-token :
      (s : Text) (t : Token) (rest : Text) (p q : Parser)
      → parser_iteration s ≡ lexed t rest
      → is_directive t p ≡ false
      → parse_token t p ≡ goes_on q
      → length rest < length s
      → parse s p ≡ parse rest q
  unfolding parse_loop parse_round
  parse-token s t rest p q l d e less =
      rw (l, d, e)
        (parse_loop-fuel include cur_dir (length s) (suc (length rest)) rest q less (omega arith))

  -- A word and the space behind it.
  parse-word :
      (w : Text) (d : ℕ) (rest : Text) (p q : Parser)
      → IsWord w
      → is_space d ≡ true
      → parse_token (plain w) p ≡ goes_on q
      → parse (w ++ d ∷ rest) p ≡ parse rest q
  parse-word [] d rest p q h space e = elim h [ ]
  parse-word (c ∷ w) d rest p q h space e =
      let shorter = length-append w (d ∷ rest) in
      parse-token ((c ∷ w) ++ d ∷ rest) (plain (c ∷ w)) (d ∷ rest) p q
        (parser_iteration-word c w d rest h.0 h.1 space) (ground (arith, h.0)) e
        (omega (arith, shorter))
      ∙ parse-space d rest q space

  parse-brace :
      (c : ℕ) (rest : Text) (p q : Parser)
      → is_brace c ≡ true
      → parse_token (plain (c ∷ [])) p ≡ goes_on q
      → parse (c ∷ 10 ∷ rest) p ≡ parse rest q
  parse-brace c rest p q h e =
      parse-token (c ∷ 10 ∷ rest) (plain (c ∷ [])) (10 ∷ rest) p q
        (parser_iteration-brace c (10 ∷ rest) h) (ground (arith, h)) e (omega arith)
      ∙ parse-space 10 rest q refl

  parse-name :
      (w : Text) (d : ℕ) (rest : Text) (count : ℕ) (var : Bool) (name : Text) (current : Frame)
      (parents : List Frame)
      → IsWord w
      → is_space d ≡ true
      → parse (w ++ d ∷ rest) (between count var name current parents)
        ≡ parse rest (waiting count w current parents)
  parse-name [] d rest count var name current parents h space = elim h [ ]
  parse-name (c ∷ w) d rest count var name current parents h space =
      parse-word (c ∷ w) d rest _ _ h space
        (parse_token-name c w count var name current parents h.0)

  parse-value :
      (w : Text) (d : ℕ) (rest : Text) (count : ℕ) (name : Text) (current : Frame)
      (parents : List Frame)
      → IsWord w
      → is_space d ≡ true
      → parse (w ++ d ∷ rest) (waiting count name current parents)
        ≡ parse rest (
            between count true name
              (record current { nodes = add_variable current.nodes name w false false })
              parents)
  parse-value [] d rest count name current parents h space = elim h [ ]
  parse-value (c ∷ w) d rest count name current parents h space =
      parse-word (c ∷ w) d rest _ _ h space (parse_token-value c w count name current parents h.0)

  -- Reading entries adds their nodes behind those of the current node.
  parse-write :
      (es : Entries) (rest : Text) (count : ℕ) (var : Bool) (name : Text) (current : Frame)
      (parents : List Frame)
      → AllWords es
      → (var' : Bool) × (name' : Text) × (parse
            (write es rest)
            (between count var name current parents)
          ≡ parse rest (
              between count var' name' (record current { nodes = built es current.nodes }) parents))
  unfolding built
  parse-write end_of rest count var name current parents h = (var, name, refl)
  parse-write (variable n v es) rest count var name current parents h =
      let added : Frame = record current { nodes = add_variable current.nodes n v false false } in
      let (var', name', e) = parse-write es rest count true n added parents h.2 in
      (
        var',
        name',
        parse-name n 32 (v ++ 10 ∷ write es rest) count var name current parents h.0 refl
            ∙ parse-value v 10 (write es rest) count n current parents h.1 refl
            ∙ e,
      )
  parse-write (block n inner es) rest count var name current parents h =
      let opened : Frame = record {
        name = n;
        value = node_value [] false false;
        nodes = no_items;
      } in
      let node = item n (node_value [] false false) (built inner no_items) in
      let (var1, name1, e1) =
        parse-write inner (125 ∷ 10 ∷ write es rest) (suc count) false n opened (current ∷ parents)
          h.1 in
      let added : Frame = record current { nodes = add_item current.nodes node } in
      let (var2, name2, e2) = parse-write es rest count var1 name1 added parents h.2 in
      (
        var2,
        name2,
        parse-name n 32 (123 ∷ 10 ∷ write inner (125 ∷ 10 ∷ write es rest)) count var name current
              parents h.0 refl
            ∙ parse-brace 123 (write inner (125 ∷ 10 ∷ write es rest)) _ _ refl
                (parse_token-open count n current parents)
            ∙ e1
            ∙ parse-brace 125 (write es rest) _ _ refl (
                parse_token-close count var1 name1 (record opened { nodes = built inner no_items })
                  current parents)
            ∙ e2,
      )

  parse-end :
      (var : Bool) (name : Text) (current : Frame)
      → parse [] (between 0 var name current []) ≡ parsed current.nodes
  unfolding parse_loop parse_round parser_iteration skip
  parse-end var name current = refl

  -- A tree of words, written with a variable on each line and blocks in brackets, is read back.
  pub parse_buf-write :
      (es : Entries)
      → AllWords es
      → parse_buf include cur_dir (write es []) ≡ parsed (built es no_items)
  unfolding parse_buf
  parse_buf-write es h =
      let (var, name, e) = parse-write es [] 0 false [] parser_start.current [] h in
      e ∙ parse-end var name (record parser_start.current { nodes = built es no_items })
