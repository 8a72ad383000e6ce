-- ===== src/Assarr/Table.antt =====
-- The table of libwebtester/assarr.c and its operations.
--
-- A key is a string of bytes, which `char` reads as numbers from -128 on. A table is its array of
-- chains, with the counter. An index below 0, outside the array, makes the result `none`. `null` is
-- the null value.
use web_tester.Prelude.{
  ℕ, ◌+◌, ◌*◌, Bool, true, false, Option, none, some, List, [], ◌∷◌, ◌++◌, ℤ, pos, negsuc, pos_part,
  neg_part, sub_ℕ, rem, Text, eq_text, ltb, ◌==◌, if◌then◌else◌,
}

-- `k` and `m` of `assarr_create`
abbrev pub factor : ℕ
factor = 43

abbrev pub modulus : ℕ
modulus = 10987

-- A byte as a `char`.
abbrev pub char : ℕ → ℤ
char b = if ltb b 128 then pos b else sub_ℕ b 256

-- h * k + c
abbrev pub mul_add : ℤ → ℤ → ℤ
mul_add h c = sub_ℕ (pos_part h * factor + pos_part c) (neg_part h * factor + neg_part c)

unfoldable pub hash_from : ℤ → Text → ℤ
hash_from h [] = h
hash_from h (b ∷ bs) = hash_from (rem (mul_add h (char b)) modulus) bs

-- `assarr_hash`
unfoldable pub hash : Text → ℤ
unfolding hash_from
hash key = hash_from (pos 0) key

-- The chain that a hash names, if it lies in the array.
abbrev pub slot : ℤ → Option ℕ
slot (pos n) = some n
slot (negsuc n) = none

abbrev pub Chain : Type 0 → Type 0
Chain V = List (Text × V)

pub record Table (V : Type 0) : Type 0 where
  pub buckets : ℕ → Chain V
  pub count : ℕ

-- `assarr_create`
abbrev pub create : {V : Type 0} → Table V
create = record { buckets = λ n. []; count = 0 }

abbrev pub put_chain : {V : Type 0} → Table V → ℕ → Chain V → ℕ → Chain V
put_chain t n c i = if i == n then c else t.buckets i

module _ {V : Type 0} where
  -- The search along a chain.
  unfoldable pub find : Text → Chain V → Option V
  find key [] = none
  find key ((k, v) ∷ c) = if eq_text k key then some v else find key c

  -- `assarr_get_entry`: `some none` where there is no such entry
  unfoldable pub get_entry : Table V → Text → Option (Option V)
  unfolding hash find
  get_entry t key = elim (slot (hash key)) [ none ↦ none | some n ↦ some (find key (t.buckets n)) ]

  -- `entry->value = value` on the entry that the search finds
  unfoldable pub assign : Text → V → Chain V → Chain V
  assign key v [] = []
  assign key v ((k, w) ∷ c) = if eq_text k key then (k, v) ∷ c else (k, w) ∷ assign key v c

  -- The search for the entry and its parent, and the unlinking.
  unfoldable pub unlink : Text → Chain V → Chain V
  unlink key [] = []
  unlink key ((k, v) ∷ c) = if eq_text k key then c else (k, v) ∷ unlink key c

module _ {V : Type 0} (null : V) where
  -- `assarr_get_value`
  unfoldable pub get_value : Table V → Text → Option V
  unfolding get_entry
  get_value t key = elim (get_entry t key) [
    | none ↦ none
    | some none ↦ some null
    | some (some v) ↦ some v
  ]

  -- `assarr_define`
  unfoldable pub define : Table V → Text → Option (Table V)
  unfolding hash
  define t key = elim (slot (hash key)) [
    | none ↦ none
    | some n ↦ some (record t {
      buckets = put_chain t n (t.buckets n ++ (key, null) ∷ []);
      count = t.count + 1;
    })
  ]

  -- `assarr_isset`
  unfoldable pub is_set : Table V → Text → Option Bool
  unfolding get_entry
  is_set t key = elim (get_entry t key) [
    | none ↦ none
    | some none ↦ some false
    | some (some v) ↦ some true
  ]

  -- The assignment at the end of `assarr_set_value`.
  unfoldable pub write_entry : Text → V → Table V → Option (Table V)
  unfolding hash assign
  write_entry key v t = elim (slot (hash key)) [
    | none ↦ none
    | some n ↦ some (record t { buckets = put_chain t n (assign key v (t.buckets n)) })
  ]

  -- `assarr_set_value`
  unfoldable pub set_value : Table V → Text → V → Option (Table V)
  unfolding is_set define write_entry
  set_value t key v = elim (is_set t key) [
    | none ↦ none
    | some true ↦ write_entry key v t
    | some false ↦ elim (define t key) [ none ↦ none | some t' ↦ write_entry key v t' ]
  ]

  -- `assarr_unset_value`, with the result and what the deleter was given
  unfoldable pub unset_value : Table V → Text → Option (ℤ × Option V × Table V)
  unfolding get_entry unlink
  unset_value t key = elim (get_entry t key) [
    | none ↦ none
    | some none ↦ some (negsuc 0, none, t)
    | some (some v) ↦ elim (slot (hash key)) [
      | none ↦ none
      | some n ↦
          some (pos 0, some v, record t { buckets = put_chain t n (unlink key (t.buckets n)) })
    ]
  ]
