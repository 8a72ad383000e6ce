-- ===== src/Hive/Parser.antt =====
-- `hive_parse_buf` of libwebtester/hive.c.
--
-- The current node is `current`, open at its place among the children of the nodes in `parents`, the
-- nearest first. An included file is the parameter `include`: the children of its root, `none` where it
-- could not be read, when the code reads a null list. Messages are constructors, without the line.
use web_tester.Prelude.{
  ℕ, zero, suc, ◌-◌, Bool, true, false, ◌&&◌, ◌||◌, not, Option, none, some, List, [], ◌∷◌, ◌++◌,
  Text, codes, eq_text, length, ◌==◌, if◌then◌else◌,
}
use web_tester.Hive.Lexer.{
  Token, first_is, Lexed, at_end, unexpected_end, overrun, lexed, parser_iteration,
}
use web_tester.Hive.Tree.{
  Value, Item, item, Items, no_items, add_item, add_variable, copy_childs, split_last, node_value,
}

-- A node with its children so far.
pub record Frame : Type 0 where
  pub name : Text
  pub value : Value
  pub nodes : Items

-- The variables; `at_value` is `state == 1`.
pub record Parser : Type 0 where
  pub at_value : Bool
  pub name_taked : Bool
  pub var_taked : Bool
  pub brace_count : ℕ
  pub var_name : Text
  pub current : Frame
  pub parents : List Frame

pub data Message : Type 0 where
  unexpected_end_of_file unexpected_array invalid_directive invalid_opening invalid_closing :
      Message
  no_closing no_value : Message

-- What a token does, and what parsing ends with.
pub data Parsed : Type 0 where
  goes_on : Parser → Parsed
  parsed : Items → Parsed
  failed : Message → Parsed
  faulted : Parsed
  unfinished : Parsed

-- The tree root, at first.
abbrev pub parser_start : Parser
parser_start = record {
  at_value = false;
  name_taked = false;
  var_taked = false;
  brace_count = 0;
  var_name = [];
  current = record {
    name = codes "root";
    value = node_value (codes "tree root") false false;
    nodes = no_items;
  };
  parents = [];
}

abbrev pub close_frame : Frame → Item
close_frame f = item f.name f.value f.nodes

abbrev pub with_nodes : Items → Parser → Parser
with_nodes nodes p = record p { current = record p.current { nodes = nodes } }

-- `current_node = current_node->nodes->tail->data`, with the changes of an opening bracket
abbrev pub descend : Option (Items × Item) → Parser → Parsed
descend none p = faulted
descend (some (before, item name value nodes)) p = goes_on (record p {
  at_value = false;
  name_taked = false;
  var_taked = false;
  brace_count = suc p.brace_count;
  current = record { name = name; value = value; nodes = nodes };
  parents = record p.current { nodes = before } ∷ p.parents;
})

-- `current_node = current_node->parent`, with the changes of a closing bracket
abbrev pub ascend : List Frame → Parser → Parsed
ascend [] p = faulted
ascend (f ∷ fs) p = goes_on (record p {
  at_value = false;
  brace_count = p.brace_count - 1;
  current = record f { nodes = add_item f.nodes (close_frame p.current) };
  parents = fs;
})

-- State 0: a name, or a bracket. A bracket is told by the first character, in a string too.
unfoldable pub parse_name : Token → Parser → Parsed
parse_name t p =
    if first_is 123 t.text
    then (if not p.name_taked && not p.var_taked
        then failed invalid_opening
        else if p.name_taked
        then descend
            (split_last (add_variable p.current.nodes p.var_name [] t.is_string t.is_array)) p
        else descend (split_last p.current.nodes) p)
    else if first_is 125 t.text
    then (if p.brace_count == 0 || (p.name_taked && not p.var_taked)
        then failed invalid_closing
        else ascend p.parents p)
    else goes_on
        (record p { at_value = true; name_taked = true; var_taked = false; var_name = t.text })

-- State 1: a value, or a bracket.
unfoldable pub parse_value : Token → Parser → Parsed
parse_value t p =
    if first_is 123 t.text && not t.is_array
    then (if not p.name_taked
        then failed invalid_opening
        else descend
            (split_last (add_variable p.current.nodes p.var_name [] t.is_string t.is_array)) p)
    else if first_is 125 t.text && not t.is_array
    then (if p.brace_count == 0 || not p.var_taked
        then failed invalid_closing
        else ascend p.parents p)
    else goes_on
        (record (with_nodes (add_variable p.current.nodes p.var_name t.text t.is_string t.is_array)
          p) { at_value = false; name_taked = false; var_taked = true })

-- A token that is no directive.
abbrev pub parse_token : Token → Parser → Parsed
parse_token t p =
    if t.is_array && not p.at_value
    then failed unexpected_array
    else if p.at_value
    then parse_value t p
    else parse_name t p

-- The end of the text.
abbrev pub parse_end : Parser → Parsed
parse_end p =
    if not (p.brace_count == 0)
    then failed no_closing
    else if p.name_taked
    then failed no_value
    else parsed p.current.nodes

-- The tokens that start a directive.
abbrev pub is_directive : Token → Parser → Bool
is_directive t p = first_is 35 t.text && not t.is_string && not (t.is_array && not p.at_value)

-- What follows where parsing goes on.
abbrev pub and_then : Parsed → (Parser → Parsed) → Parsed
and_then (goes_on p) next = next p
and_then (parsed nodes) next = parsed nodes
and_then (failed m) next = failed m
and_then faulted next = faulted
and_then unfinished next = unfinished

module _ (include : Text → Option Items) (cur_dir : Text) where
  -- The file of `#include`, below the current directory if its name does not start with a slash.
  abbrev pub file_name : Text → Text
  file_name token = if first_is 47 token then token else cur_dir ++ codes "/" ++ token

  unfoldable pub include_file : Text → Parser → Parsed
  include_file token p = elim (include (file_name token)) [
    | none ↦ faulted
    | some nodes ↦ goes_on (with_nodes (copy_childs p.current.nodes nodes) p)
  ]

  -- The token behind `#include`, with what follows. An array without its end leaves the token without
  -- its end, too.
  unfoldable pub include_round : (Text → Parser → Parsed) → Parser → Lexed → Parsed
  include_round next p at_end = and_then (include_file [] p) parse_end
  include_round next p unexpected_end = faulted
  include_round next p overrun = faulted
  include_round next p (lexed t rest) = and_then (include_file t.text p) (next rest)

  -- A round of the loop of `hive_parse_buf`, with what follows.
  unfoldable pub parse_round : (Text → Parser → Parsed) → Parser → Lexed → Parsed
  parse_round next p at_end = parse_end p
  parse_round next p unexpected_end = failed unexpected_end_of_file
  parse_round next p overrun = faulted
  parse_round next p (lexed t rest) =
      if is_directive t p
      then (if eq_text t.text (codes "#include")
          then include_round next p (parser_iteration rest)
          else failed invalid_directive)
      else and_then (parse_token t p) (next rest)

  -- The loop of `hive_parse_buf`.
  unfoldable pub parse_loop : ℕ → Text → Parser → Parsed
  parse_loop zero s p = unfinished
  parse_loop (suc k) s p = parse_round (λ rest q. parse_loop k rest q) p (parser_iteration s)

  -- `hive_parse_buf`
  unfoldable pub parse_buf : Text → Parsed
  parse_buf s = parse_loop (suc (length s)) s parser_start
