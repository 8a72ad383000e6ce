-- ===== src/Hive/Open.antt =====
-- `get_array_index` and `hive_open_key` of libwebtester/hive.c, and the walk over the nodes of a level.
--
-- A key has a slash here, since `hive_open_key` puts "root/" in front. An element of an array is the
-- array's value with the index, which `flexval_get_array_elem` takes.
use web_tester.Prelude.{
  ℕ, zero, suc, ◌+◌, ◌-◌, ◌*◌, ◌≡◌, refl, ap, ◌∙◌, ◌||◌, not, Option, none, some, List, [], ◌∷◌,
  ◌++◌, Text, codes, if◌then◌else◌, ◌==◌,
}
use web_tester.Strings.Numbers.{is_digit}
use web_tester.Strings.Explode.{AllWithout, join}
use web_tester.Strings.Slashes.{NoSlash, stripslashes, stripslashes-NoSlash}
use web_tester.Hive.Tree.{Value, Item, item, Items, no_items, items, value_in}
use web_tester.Hive.Find.{find_item, node_at, AllNames, find_item-node_at}

abbrev pub reversed_onto : Text → Text → Text
reversed_onto [] done = done
reversed_onto (c ∷ s) done = reversed_onto s (c ∷ done)

abbrev pub reversed : Text → Text
reversed s = reversed_onto s []

-- The loop of `get_array_index`, on the key read from its end: the index, and the name before it.
unfoldable pub index_loop : Text → ℕ → ℕ → Option (ℕ × Text)
index_loop [] index mult = none
index_loop (c ∷ []) index mult = none
index_loop (c ∷ d ∷ s) index mult =
    let more = index_loop (d ∷ s) (index + (c - 48) * mult) (mult * 10) in
    if c == 47
    then none
    else if c == 91
    then (if d == 92 || d == 47 then none else some (index, reversed (d ∷ s)))
    else if not (is_digit c)
    then none
    else more

abbrev pub closed_index : Text → Option (ℕ × Text)
closed_index [] = none
closed_index (c ∷ []) = none
closed_index (c ∷ d ∷ s) = if not (c == 93) || d == 92 then none else index_loop (d ∷ s) 0 1

-- `get_array_index`, with the name that it leaves of the key
unfoldable pub get_array_index : Text → Option (ℕ × Text)
get_array_index key = closed_index (reversed key)

-- The value of a node, with the index of the element that is meant.
abbrev pub opened : Option ℕ → Option Item → Option (Value × Option ℕ)
opened index none = none
opened index (some n) = some (value_in n, index)

abbrev pub open_at : Items → Text → Option (ℕ × Text) → Option (Value × Option ℕ)
open_at tree key none = opened none (find_item tree (stripslashes key))
open_at tree key (some (index, name)) = opened (some index) (find_item tree (stripslashes name))

-- `hive_open_key`
unfoldable pub open_key : Items → Text → Option (Value × Option ℕ)
open_key tree key = let full = codes "root/" ++ key in open_at tree full (get_array_index full)

-- `hive_node_by_index`
unfoldable pub node_by_index : Items → ℕ → Option Item
node_by_index no_items index = none
node_by_index (items n ns) zero = some n
node_by_index (items n ns) (suc index) = node_by_index ns index

-- `hive_next_sibling` and `hive_prev_sibling`, of the node at an index among its parent's children
unfoldable pub next_sibling : Items → ℕ → Option Item
next_sibling nodes index = node_by_index nodes (index + 1)

unfoldable pub prev_sibling : Items → ℕ → Option Item
prev_sibling nodes index = node_by_index nodes (index + 1)

-- `hive_first_child`
unfoldable pub first_child : Item → Option Item
first_child (item name value no_items) = none
first_child (item name value (items n ns)) = some n

-- A key of names that are not empty and hold neither slash nor backslash, without an index, opens the
-- value of the node that the names lead to below the root.
pub open_key-node_at :
    (tree : Items) (name : Text) (names : List Text)
    → AllNames (name ∷ names)
    → AllWithout 47 (name ∷ names)
    → NoSlash (codes "root/" ++ join 47 (name ∷ names))
    → get_array_index (codes "root/" ++ join 47 (name ∷ names)) ≡ none
    → open_key tree (join 47 (name ∷ names))
      ≡ opened none (node_at tree (codes "root") (name ∷ names))
unfolding open_key
open_key-node_at tree name names full slashes plain no_index =
    let key = codes "root/" ++ join 47 (name ∷ names) in
    ap (λ o. open_at tree key o) no_index
    ∙ ap (λ k. opened none (find_item tree k)) (stripslashes-NoSlash key plain)
    ∙ ap (λ o. opened none o)
        (find_item-node_at tree (codes "root") (name ∷ names) full
          ((refl, (refl, (refl, (refl, tt)))), slashes))
