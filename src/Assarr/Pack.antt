-- ===== src/Assarr/Pack.antt =====
-- `assarr_pack` and `assarr_unpack` of libwebtester/assarr.c, for arrays of strings.
--
-- `printf ("%u")` and `atol` are those of C's library: `digits` and `atol` here, the latter with the
-- white space, the sign and the end at another character. The lengths are below 2^32.
use web_tester.Prelude.{
  ℕ, zero, suc, ◌+◌, ◌-◌, ◌*◌, ◌/◌, ◌%◌, true, false, ◌&&◌, ◌||◌, Option, none, some, [], ◌∷◌, ◌++◌,
  ℤ, pos, negsuc, sub_ℕ, Text, length, leb, ltb, ◌==◌, if◌then◌else◌,
}
use web_tester.Strings.Numbers.{is_digit}
use web_tester.Assarr.Table.{modulus, Chain, Table, set_value}

-- The digits of a number, the first in front of `rest`; a number has fewer digits than itself and one
-- more.
unfoldable pub digits_loop : ℕ → ℕ → Text → Text
digits_loop zero n rest = rest
digits_loop (suc k) n rest =
    let more = digits_loop k (n / 10) ((48 + n % 10) ∷ rest) in
    if ltb n 10 then (48 + n) ∷ rest else more

abbrev pub digits : ℕ → Text
digits n = digits_loop (suc n) n []

unfoldable pub digits_value : ℕ → Text → ℕ
digits_value n [] = n
digits_value n (c ∷ s) =
    let more = digits_value (n * 10 + (c - 48)) s in if is_digit c then more else n

unfoldable pub atol : Text → ℤ
atol [] = pos 0
atol (c ∷ s) =
    let next = atol s in
    if c == 32 || (leb 9 c && leb c 13)
    then next
    else if c == 45
    then sub_ℕ 0 (digits_value 0 s)
    else if c == 43
    then pos (digits_value 0 s)
    else pos (digits_value 0 (c ∷ s))

-- `ASSARR_FOREACH_DO`: the entries of the chains from `i` on, `k` of them.
unfoldable pub entries_loop : ℕ → ℕ → (ℕ → Chain Text) → Chain Text
entries_loop zero i buckets = []
entries_loop (suc k) i buckets = buckets i ++ entries_loop k (suc i) buckets

abbrev pub entries : Table Text → Chain Text
entries t = entries_loop modulus 0 t.buckets

unfoldable pub pack_entries : Chain Text → Text
pack_entries [] = []
pack_entries ((key, value) ∷ es) =
    key ++ 59 ∷ (digits (length value) ++ 59 ∷ (value ++ 59 ∷ pack_entries es))

-- `assarr_pack`
unfoldable pub pack : Table Text → Text
unfolding entries_loop pack_entries
pack t = pack_entries (entries t)

-- The token up to a semicolon, and what follows it.
unfoldable pub until_semicolon : Text → Text × Text
until_semicolon [] = ([], [])
until_semicolon (c ∷ s) =
    let (token, rest) = until_semicolon s in if c == 59 then ([], c ∷ s) else (c ∷ token, rest)

-- The loop over `len != data_len`: a length below 0 is never reached.
unfoldable pub value_of : ℕ → Text → Text × Text
value_of zero s = ([], s)
value_of (suc n) [] = ([], [])
value_of (suc n) (c ∷ s) = let (token, rest) = value_of n s in (c ∷ token, rest)

abbrev pub value_part : ℤ → Text → Text × Text
value_part (pos n) s = value_of n s
value_part (negsuc n) s = (s, [])

-- `state` 0, 1 and 2, with `key` and `data_len` where they are set.
pub data State : Type 0 where
  at_key : State
  at_length : Text → State
  at_value : Text → ℤ → State

-- The array; an index outside its table; or a loop that has not ended in the rounds given.
pub data Unpacked : Type 0 where
  unpacked : Table Text → Unpacked
  outside : Unpacked
  endless : Unpacked

unfoldable pub read_token : State → Text → Text × Text
read_token at_key s = until_semicolon s
read_token (at_length key) s = until_semicolon s
read_token (at_value key n) s = value_part n s

-- What a semicolon does to the state and the array.
unfoldable pub end_token : State → Text → Table Text → Option (State × Table Text)
end_token at_key token t = some (at_length token, t)
end_token (at_length key) token t = some (at_value key (atol token), t)
end_token (at_value key n) token t = elim (set_value [] t key token) [
  | none ↦ none
  | some t' ↦ some (at_key, t')
]

-- The loop of `assarr_unpack`, at the text from `i` on.
unfoldable pub unpack_loop : ℕ → Text → State → Text → Table Text → Unpacked
unpack_loop zero s state token t = endless
unpack_loop (suc k) [] state token t = unpacked t
unpack_loop (suc k) (c ∷ s) state token t = elim (c == 59) [
  | true ↦ elim (end_token state token t) [
    | none ↦ outside
    | some (state', t') ↦ unpack_loop k s state' [] t'
  ]
  | false ↦ let (token', rest) = read_token state (c ∷ s) in unpack_loop k rest state token' t
]

-- `assarr_unpack`; `start` is what the new token holds
unfoldable pub unpack : Text → Text → Table Text → Unpacked
unpack start s t = unpack_loop (suc (length s)) s at_key start t
