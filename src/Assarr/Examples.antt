-- ===== src/Assarr/Examples.antt =====
-- A table with values for two keys.
use web_tester.Prelude.{
  Option, ℕ, ◌≡◌, refl, some, [], ◌∷◌, true, false, ◌==◌, Text, codes, eq_text, if◌then◌else◌,
  arith,
}
use web_tester.Assarr.Table.{get_entry, unset_value, Table, create, get_value, set_value}
use web_tester.Assarr.Pack.{entries, pack, unpack}
use web_tester.Assarr.Unpack.{ArePackable, set_all, unpack-pack}
use web_tester.Assarr.Laws.{get_value-set_value}
use web_tester.Assarr.Lookup.{IsAscii}
use web_tester.Assarr.Keys.{UniqueKeys}
use web_tester.Assarr.Unset.{answer, get_value-unset_value}

abbrev empty : Table ℕ
empty = create

abbrev key : Text
key = codes "ab"

get_value-set_value_example :
    (t : Table ℕ) × (set_value 0 empty key 5 ≡ some t)
    × ((j : Text)
        → IsAscii j
        → get_value 0 t j ≡ (if eq_text key j then some 5 else get_value 0 empty j))
    × (((i : ℕ) → UniqueKeys (empty.buckets i)) → (i : ℕ) → UniqueKeys (t.buckets i))
get_value-set_value_example = get_value-set_value 0 empty key 5 (omega arith, (omega arith, tt))

abbrev packed : Table Text
packed = record {
  buckets = λ n. if n == 3 then (codes "ab", codes "x;y") ∷ (codes "c", []) ∷ [] else [];
  count = 2;
}

packed-ArePackable : (n : ℕ) → ArePackable (packed.buckets n)
packed-ArePackable n =
    elim (n == 3)
      as (λ b. ArePackable (if b then (codes "ab", codes "x;y") ∷ (codes "c", []) ∷ [] else [])) [
        | true ↦ ((refl, (refl, tt)), refl, ((refl, tt), tt, tt))
        | false ↦ tt
      ]

unpack-pack_example : unpack [] (pack packed) create ≡ set_all (entries packed) create
unpack-pack_example = unpack-pack packed create [] packed-ArePackable

get_value-unset_value_example :
    (t : Table ℕ) × (found : Option ℕ) × (get_entry empty key ≡ some found)
    × (unset_value 0 empty key ≡ some ((answer found).0, (answer found).1, t))
    × ((n : ℕ) → UniqueKeys (t.buckets n))
    × ((j : Text)
        → IsAscii j
        → get_value 0 t j ≡ (if eq_text key j then some 0 else get_value 0 empty j))
    × (t.count ≡ 0)
get_value-unset_value_example =
    get_value-unset_value 0 empty key (omega arith, (omega arith, tt)) (λ n. tt)
