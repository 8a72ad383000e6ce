-- ===== src/Hive/Tree.antt =====
-- The nodes of libwebtester/hive.c and how they are made; `flexval_atol` of libwebtester/flexval.c.
--
-- An array keeps its text, which `flexval_unserialize` reads, and a float the text that is converted. An
-- index of a node is its place among the children, which are only added behind.
use web_tester.Prelude.{
  ℕ, ◌+◌, ◌-◌, ◌*◌, Bool, ◌&&◌, ◌||◌, Option, none, some, [], ◌∷◌, ℤ, pos, sub_ℕ, Text, leb, ◌==◌,
  if◌then◌else◌,
}
use web_tester.Strings.Numbers.{is_digit, is_integer, is_number}
use web_tester.Assarr.Pack.{digits_value}

-- The value of a hexadecimal digit.
abbrev pub hex_digit : ℕ → Option ℕ
hex_digit c =
    if is_digit c
    then some (c - 48)
    else if leb 97 c && leb c 102
    then some (c - 87)
    else if leb 65 c && leb c 70
    then some (c - 55)
    else none

unfoldable pub hex_value : ℕ → Text → ℕ
hex_value n [] = n
hex_value n (c ∷ s) = elim (hex_digit c) [ none ↦ n | some d ↦ hex_value (n * 16 + d) s ]

-- The number behind the sign.
unfoldable pub unsigned_value : Text → ℕ
unsigned_value [] = 0
unsigned_value (c ∷ []) = digits_value 0 (c ∷ [])
unsigned_value (c ∷ d ∷ s) =
    if c == 48 && (d == 120 || d == 88)
    then hex_value 0 s
    else if c == 39
    then d
    else digits_value 0 (c ∷ d ∷ s)

unfoldable pub flexval_atol : Text → ℤ
flexval_atol [] = pos 0
flexval_atol (c ∷ s) = if c == 45 then sub_ℕ 0 (unsigned_value s) else pos (unsigned_value (c ∷ s))

pub data Value : Type 0 where
  string : Text → Value
  array : Text → Value
  integer : ℤ → Value
  float : Text → Value

-- The smart setting of a variable in `hive_spawn_new_node`.
unfoldable pub node_value : Text → Bool → Bool → Value
node_value value is_string is_array =
    if is_string
    then string value
    else if is_array
    then array value
    else if is_integer value
    then integer (flexval_atol value)
    else if is_number value
    then float value
    else string value

-- `hive_item_t` with its `nodes`
mutual
  pub data Item : Type 0 where
    item : Text → Value → Items → Item

  pub data Items : Type 0 where
    no_items : Items
    items : Item → Items → Items

abbrev pub name_of : Item → Text
name_of (item name value nodes) = name

abbrev pub value_in : Item → Value
value_in (item name value nodes) = value

abbrev pub nodes_of : Item → Items
nodes_of (item name value nodes) = nodes

-- `hive_spawn_new_node`
abbrev pub spawn_new_node : Text → Text → Bool → Bool → Item
spawn_new_node name value is_string is_array =
    item name (node_value value is_string is_array) no_items

-- `dyna_add_to_back`
unfoldable pub add_item : Items → Item → Items
add_item no_items node = items node no_items
add_item (items n ns) node = items n (add_item ns node)

-- `hive_add_variable`, on the node's children
unfoldable pub add_variable : Items → Text → Text → Bool → Bool → Items
add_variable nodes name value is_string is_array =
    add_item nodes (spawn_new_node name value is_string is_array)

-- `hive_copy_childs`
unfoldable pub copy_childs : Items → Items → Items
copy_childs dst no_items = dst
copy_childs dst (items n ns) = copy_childs (add_item dst n) ns

-- The last child and those before it, `none` without children.
unfoldable pub split_last : Items → Option (Items × Item)
split_last no_items = none
split_last (items n ns) = elim (split_last ns) [
  | none ↦ some (no_items, n)
  | some (before, last) ↦ some (items n before, last)
]
