-- ===== src/Hive/Find.antt =====
-- `hive_find_item` and `hive_open_key` of libwebtester/hive.c.
--
-- The list that is searched is the children of a node, or the list with the root. A search on the null
-- list of a node without children finds nothing.
use web_tester.Prelude.{
  ℕ, zero, suc, ◌≤◌, ◌<◌, ◌≡◌, refl, false, Option, none, some, List, [], ◌∷◌, ◌++◌, Text, eq_text,
  is_nil, length, length-append, if◌then◌else◌, ◌==◌, arith,
}
use web_tester.Strings.Explode.{Without, AllWithout, join}
use web_tester.Hive.Tree.{Item, Items, no_items, items, name_of, nodes_of}

-- The key up to the first slash, and what follows that.
unfoldable pub split_key : Text → Text × Text
split_key [] = ([], [])
split_key (c ∷ s) =
    let (prefix, suffix) = split_key s in if c == 47 then ([], s) else (c ∷ prefix, suffix)

-- `dyna_search` with `hive_key_comparator`
unfoldable pub search_name : Text → Items → Option Item
search_name name no_items = none
search_name name (items n ns) = if eq_text (name_of n) name then some n else search_name name ns

-- The item that was found, or what is below it.
abbrev pub below : (Items → Option Item) → Text → Option Item → Option Item
below deeper suffix none = none
below deeper suffix (some n) =
    let found = deeper (nodes_of n) in if is_nil suffix then some n else found

-- `hive_find_item`; a key has fewer slashes than characters
unfoldable pub find_loop : ℕ → Items → Text → Option Item
find_loop zero nodes key = none
find_loop (suc k) nodes key =
    let (prefix, suffix) = split_key key in
    below (λ ns. find_loop k ns suffix) suffix (search_name prefix nodes)

unfoldable pub find_item : Items → Text → Option Item
find_item nodes key = find_loop (suc (length key)) nodes key

abbrev pub then_at : (Items → Option Item) → Option Item → Option Item
then_at deeper none = none
then_at deeper (some n) = deeper (nodes_of n)

-- The node that names lead to, one below the other.
abbrev pub node_at : Items → Text → List Text → Option Item
node_at nodes name [] = search_name name nodes
node_at nodes name (next ∷ names) = then_at (λ ns. node_at ns next names) (search_name name nodes)

-- Names that are not empty.
abbrev pub AllNames : List Text → Type 0
AllNames [] = Unit
AllNames (n ∷ ns) = (is_nil n ≡ false) × AllNames ns

split_key-last : (w : Text) → Without 47 w → split_key w ≡ (w, [])
unfolding split_key
split_key-last [] h = refl
split_key-last (c ∷ w) h = rw (h.0, split_key-last w h.1) refl

split_key-slash : (w rest : Text) → Without 47 w → split_key (w ++ 47 ∷ rest) ≡ (w, rest)
unfolding split_key
split_key-slash [] rest h = refl
split_key-slash (c ∷ w) rest h = rw (h.0, split_key-slash w rest h.1) refl

join-full :
    (name : Text) (names : List Text)
    → is_nil name ≡ false
    → is_nil (join 47 (name ∷ names)) ≡ false
join-full name [] h = h
join-full [] (next ∷ names) h = refl
join-full (c ∷ name) (next ∷ names) h = refl

find_loop-join :
    (k : ℕ) (nodes : Items) (name : Text) (names : List Text)
    → length names < k
    → AllNames names
    → AllWithout 47 (name ∷ names)
    → find_loop k nodes (join 47 (name ∷ names)) ≡ node_at nodes name names
unfolding find_loop
find_loop-join zero nodes name names less full slashes = let no : ⊥ = omega arith in elim no [ ]
find_loop-join (suc k) nodes name [] less full slashes =
    rw (split_key-last name slashes.0) (below-end (search_name name nodes))
  where
    below-end : (o : Option Item) → below (λ ns. find_loop k ns []) [] o ≡ o
    below-end none = refl
    below-end (some n) = refl
find_loop-join (suc k) nodes name (next ∷ names) less full slashes =
    let rest = join 47 (next ∷ names) in
    let more : (ns : Items) → find_loop k ns rest ≡ node_at ns next names =
      λ ns. find_loop-join k ns next names (omega arith) full.1 slashes.1 in
    rw (split_key-slash name rest slashes.0)
      (below-more (search_name name nodes) (join-full next names full.0) more)
  where
    below-more :
        (o : Option Item)
        → is_nil (join 47 (next ∷ names)) ≡ false
        → ((ns : Items) → find_loop k ns (join 47 (next ∷ names)) ≡ node_at ns next names)
        → below (λ ns. find_loop k ns (join 47 (next ∷ names))) (join 47 (next ∷ names)) o
          ≡ then_at (λ ns. node_at ns next names) o
    below-more none full more = refl
    below-more (some n) full more = rw full (more (nodes_of n))

join-length : (name : Text) (names : List Text) → length names ≤ length (join 47 (name ∷ names))
join-length name [] = omega arith
join-length name (next ∷ names) =
    let more = join-length next names in
    let cut = length-append name (47 ∷ join 47 (next ∷ names)) in omega (arith, more, cut)

-- Looking up names joined by slashes leads from node to node: to the first one of each name among the
-- children of the one before.
pub find_item-node_at :
    (nodes : Items) (name : Text) (names : List Text)
    → AllNames names
    → AllWithout 47 (name ∷ names)
    → find_item nodes (join 47 (name ∷ names)) ≡ node_at nodes name names
unfolding find_item
find_item-node_at nodes name names full slashes =
    find_loop-join (suc (length (join 47 (name ∷ names)))) nodes name names
      (omega (arith, join-length name names)) full slashes
