-- ===== src/Hive/Examples.antt =====
-- A small configuration.
use web_tester.Prelude.{◌≡◌, refl, Option, none, [], ◌∷◌, Text, codes, arith}
use web_tester.Hive.Tree.{item, Items, no_items, items, string}
use web_tester.Hive.Parser.{parsed, parse_buf}
use web_tester.Hive.Find.{node_at}
use web_tester.Hive.Open.{get_array_index, index_loop, opened, open_key, open_key-node_at}
use web_tester.Hive.RoundTrip.{Entries, end_of, variable, block, write, built, parse_buf-write}

abbrev no_file : Text → Option Items
no_file name = none

-- a { b 1 }
abbrev entries : Entries
entries = block (codes "a") (variable (codes "b") (codes "1") end_of) end_of

parse_buf-write_example : parse_buf no_file [] (write entries []) ≡ parsed (built entries no_items)
parse_buf-write_example =
    parse_buf-write no_file [] entries ((refl, tt), ((refl, tt), (refl, tt), tt), tt)

abbrev tree : Items
tree =
    items
      (item (codes "root") (string [])
        (items (item (codes "a") (string (codes "x")) no_items) no_items))
      no_items

open_key-node_at_example :
    open_key tree (codes "a") ≡ opened none (node_at tree (codes "root") (codes "a" ∷ []))
unfolding get_array_index index_loop
open_key-node_at_example =
    open_key-node_at tree (codes "a") [] (refl, tt) ((refl, tt), tt)
      (omega arith, (omega arith, (omega arith, (omega arith, (omega arith, (omega arith, tt))))))
      refl
