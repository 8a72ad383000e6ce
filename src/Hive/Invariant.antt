-- ===== src/Hive/Invariant.antt =====
-- The state of `hive_parse_buf` in libwebtester/hive.c between two tokens.
use web_tester.Prelude.{◌≡◌, ◌≢◌, refl, true, false, none, some, length}
use web_tester.Hive.Tree.{Item, Items, no_items, items, add_item, split_last}
use web_tester.Hive.Parser.{
  Parser, Parsed, goes_on, parsed, failed, faulted, unfinished, parser_start,
}

pub split_last-add_item : (ns : Items) (n : Item) → split_last (add_item ns n) ≡ some (ns, n)
unfolding split_last add_item
split_last-add_item no_items n = refl
split_last-add_item (items m ns) n = rw (split_last-add_item ns n) refl

-- As many brackets are open as nodes; a name is waiting exactly in state 1, and then no value was the
-- last thing read; and where one was, the node has a child.
pub record IsParser (p : Parser) : Type 0 where
  pub depth : p.brace_count ≡ length p.parents
  pub waiting : p.name_taked ≡ p.at_value
  pub fresh : p.at_value ≡ true → p.var_taked ≡ false
  pub child : p.var_taked ≡ true → split_last p.current.nodes ≢ none

-- Parsing goes on in such a state, or fails with a message.
abbrev pub Safe : Parsed → Type 0
Safe (goes_on p) = IsParser p
Safe (parsed nodes) = ⊥
Safe (failed m) = Unit
Safe faulted = ⊥
Safe unfinished = ⊥

pub parser_start-IsParser : IsParser parser_start
parser_start-IsParser = record { depth = refl; waiting = refl; fresh = λ h. refl; child = λ h. cc }
