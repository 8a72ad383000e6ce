-- ===== src/Assarr/Unpack.antt =====
-- What `assarr_unpack` reads of what `assarr_pack` wrote.
use web_tester.Prelude.{
  ℕ, zero, suc, ◌-◌, ◌≤◌, ◌<◌, ◌≡◌, ◌≢◌, refl, ◌∙◌, ap, true, false, Option, none, some, [], ◌∷◌,
  ◌++◌, pos, Text, length, length-append, ◌==◌, arith, Option-cases, inl, inr,
}
use web_tester.Strings.Numbers.{is_digit, AllDigits}
use web_tester.Assarr.Table.{modulus, Chain, Table, set_value}
use web_tester.Assarr.Numerals.{IsNumeral, digits_loop-IsNumeral, atol-digits}
use web_tester.Assarr.Pack.{
  digits, atol, entries_loop, entries, pack_entries, pack, until_semicolon, value_of, State, at_key,
  at_length, at_value, Unpacked, unpacked, outside, endless, read_token, end_token, unpack_loop,
  unpack,
}

-- The text has no semicolon.
abbrev pub NoSemicolon : Text → Type 0
NoSemicolon [] = Unit
NoSemicolon (c ∷ s) = ((c == 59) ≡ false) × NoSemicolon s

-- A key that can be read back: not empty, and without a semicolon.
abbrev pub IsKey : Text → Type 0
IsKey [] = ⊥
IsKey (c ∷ s) = NoSemicolon (c ∷ s)

-- A value that can be read back: it does not start with a semicolon.
abbrev pub IsValue : Text → Type 0
IsValue [] = Unit
IsValue (c ∷ s) = (c == 59) ≡ false

abbrev pub ArePackable : Chain Text → Type 0
ArePackable [] = Unit
ArePackable ((key, value) ∷ es) = IsKey key × IsValue value × ArePackable es

-- The array after an entry, and what is read with it.
abbrev pub after : Option (Table Text) → (Table Text → Unpacked) → Unpacked
after none rest = outside
after (some t) rest = rest t

after-agree :
    (o : Option (Table Text)) (f g : Table Text → Unpacked)
    → ((t : Table Text) → f t ≡ g t)
    → after o f ≡ after o g
after-agree none f g h = refl
after-agree (some t) f g h = h t

-- The entries set one after another.
abbrev pub set_all : Chain Text → Table Text → Unpacked
set_all [] t = unpacked t
set_all ((key, value) ∷ es) t = after (set_value [] t key value) (set_all es)

digit-NoSemicolon : (s : Text) → AllDigits s → NoSemicolon s
digit-NoSemicolon [] d = tt
digit-NoSemicolon (c ∷ s) d = (no c d.0, digit-NoSemicolon s d.1)
  where
    no : (c : ℕ) → is_digit c ≡ true → (c == 59) ≡ false
    no c d = ground arith

numeral-IsKey : (s : Text) → IsNumeral s → IsKey s
numeral-IsKey [] d = d
numeral-IsKey (c ∷ s) d = digit-NoSemicolon (c ∷ s) d

until_semicolon-token :
    (token s : Text) → NoSemicolon token → until_semicolon (token ++ 59 ∷ s) ≡ (token, 59 ∷ s)
unfolding until_semicolon
until_semicolon-token [] s n = refl
until_semicolon-token (c ∷ token) s n = rw (n.0, until_semicolon-token token s n.1) refl

value_of-length : (value s : Text) → value_of (length value) (value ++ s) ≡ (value, s)
unfolding value_of
value_of-length [] s = refl
value_of-length (c ∷ value) s = rw (value_of-length value s) refl

-- A round that reads a token.
read_round :
    (k : ℕ) (c : ℕ) (s : Text) (state : State) (start token rest : Text) (t : Table Text)
    → (c == 59) ≡ false
    → read_token state (c ∷ s) ≡ (token, rest)
    → unpack_loop (suc k) (c ∷ s) state start t ≡ unpack_loop k rest state token t
unfolding unpack_loop
read_round k c s state start token rest t n e = rw (n, e, unpack_loop) refl

-- A token that is read, and its semicolon.
key_rounds :
    (k : ℕ) (key s start : Text) (t : Table Text)
    → IsKey key
    → unpack_loop (suc (suc k)) (key ++ 59 ∷ s) at_key start t
      ≡ unpack_loop k s (at_length key) [] t
unfolding unpack_loop read_token end_token
key_rounds k [] s start t n = elim n [ ]
key_rounds k (c ∷ key) s start t n =
    read_round (suc k) c (key ++ 59 ∷ s) at_key start (c ∷ key) (59 ∷ s) t n.0
      (until_semicolon-token (c ∷ key) s n)

length_rounds :
    (k : ℕ) (key number s : Text) (t : Table Text)
    → IsKey number
    → unpack_loop (suc (suc k)) (number ++ 59 ∷ s) (at_length key) [] t
      ≡ unpack_loop k s (at_value key (atol number)) [] t
unfolding unpack_loop read_token end_token
length_rounds k key [] s t n = elim n [ ]
length_rounds k key (c ∷ number) s t n =
    read_round (suc k) c (number ++ 59 ∷ s) (at_length key) [] (c ∷ number) (59 ∷ s) t n.0
      (until_semicolon-token (c ∷ number) s n)

-- The rounds that are left of two for a value.
abbrev left : Text → ℕ → ℕ
left [] k = suc k
left (c ∷ value) k = k

value_rounds :
    (k : ℕ) (key value s : Text) (t : Table Text)
    → IsValue value
    → unpack_loop (suc (suc k)) (value ++ 59 ∷ s) (at_value key (pos (length value))) [] t
      ≡ after (set_value [] t key value) (unpack_loop (left value k) s at_key [])
unfolding unpack_loop read_token end_token
value_rounds k key [] s t n = elim (Option-cases (set_value [] t key [])) [
  | inl e ↦ rw (e, unpack_loop, end_token) refl
  | inr (t', e) ↦ rw (e, unpack_loop, end_token) refl
]
value_rounds k key (c ∷ value) s t n =
    read_round (suc k) c (value ++ 59 ∷ s) (at_value key (pos (length (c ∷ value)))) [] (c ∷ value)
      (59 ∷ s) t n (value_of-length (c ∷ value) (59 ∷ s))
    ∙ ended
  where
    ended :
        unpack_loop (suc k) (59 ∷ s) (at_value key (pos (length (c ∷ value)))) (c ∷ value) t
        ≡ after (set_value [] t key (c ∷ value)) (unpack_loop k s at_key [])
    ended = elim (Option-cases (set_value [] t key (c ∷ value))) [
      | inl e ↦ rw (e, unpack_loop, end_token) refl
      | inr (t', e) ↦ rw (e, unpack_loop, end_token) refl
    ]

-- The rounds of one entry.
entry_rounds :
    (k : ℕ) (key value s start : Text) (t : Table Text)
    → IsKey key
    → IsValue value
    → unpack_loop
        (suc (suc (suc (suc (suc (suc k))))))
        (key ++ 59 ∷ (digits (length value) ++ 59 ∷ (value ++ 59 ∷ s)))
        at_key
        start
        t
      ≡ after (set_value [] t key value) (unpack_loop (left value k) s at_key [])
entry_rounds k key value s start t is_key is_value =
    let number = digits (length value) in
    let numeral =
      numeral-IsKey number
        (digits_loop-IsNumeral (suc (length value)) (length value) [] (omega arith) tt) in
    key_rounds (suc (suc (suc (suc k)))) key (number ++ 59 ∷ (value ++ 59 ∷ s)) start t is_key
    ∙ length_rounds (suc (suc k)) key number (value ++ 59 ∷ s) t numeral
    ∙ ap (λ n. unpack_loop (suc (suc k)) (value ++ 59 ∷ s) (at_value key n) [] t)
        (atol-digits (length value))
    ∙ value_rounds k key value s t is_value

-- An entry is written with at least as many characters as it takes rounds.
length-entry :
    (key value number s : Text)
    → IsKey key
    → IsKey number
    → (k : ℕ)
    → length (key ++ 59 ∷ (number ++ 59 ∷ (value ++ 59 ∷ s))) < suc (suc (suc (suc (suc (suc k)))))
    → length s < left value k
length-entry [] value number s n m k lt = elim n [ ]
length-entry key value [] s n m k lt = elim m [ ]
length-entry (c ∷ key) [] (d ∷ number) s n m k lt = omega (
  arith,
  lt,
  length-append key (59 ∷ (d ∷ number ++ 59 ∷ (59 ∷ s))),
  length-append number (59 ∷ (59 ∷ s)),
)
length-entry (c ∷ key) (x ∷ value) (d ∷ number) s n m k lt = omega (
  arith,
  lt,
  length-append key (59 ∷ (d ∷ number ++ 59 ∷ (x ∷ value ++ 59 ∷ s))),
  length-append number (59 ∷ (x ∷ value ++ 59 ∷ s)),
  length-append value (59 ∷ s),
)

entry-min :
    (key value number s : Text)
    → IsKey key
    → IsKey number
    → 5 ≤ length (key ++ 59 ∷ (number ++ 59 ∷ (value ++ 59 ∷ s)))
entry-min [] value number s n m = elim n [ ]
entry-min key value [] s n m = elim m [ ]
entry-min (c ∷ key) value (d ∷ number) s n m = omega (
  arith,
  length-append key (59 ∷ (d ∷ number ++ 59 ∷ (value ++ 59 ∷ s))),
  length-append number (59 ∷ (value ++ 59 ∷ s)),
  length-append value (59 ∷ s),
)

six_more : (k : ℕ) → 6 ≤ k → (j : ℕ) × (k ≡ suc (suc (suc (suc (suc (suc j))))))
six_more k h = (k - 6, omega (arith, h))

unpack_loop-pack_entries :
    (es : Chain Text) (k : ℕ) (start : Text) (t : Table Text)
    → ArePackable es
    → length (pack_entries es) < k
    → unpack_loop k (pack_entries es) at_key start t ≡ set_all es t
unfolding unpack_loop pack_entries
unpack_loop-pack_entries [] (suc k) start t p lt = refl
unpack_loop-pack_entries es zero start t p lt = elim lt [ ]
unpack_loop-pack_entries ((key, value) ∷ es) k start t p lt =
    let number = digits (length value) in
    let numeral =
      numeral-IsKey number
        (digits_loop-IsNumeral (suc (length value)) (length value) [] (omega arith) tt) in
    let rest = pack_entries es in
    let (j, e) = six_more k (omega (arith, lt, entry-min key value number rest p.0 numeral)) in
    let fuel = length-entry key value number rest p.0 numeral j (omega (arith, lt, e)) in
    ap (λ n. unpack_loop n (pack_entries ((key, value) ∷ es)) at_key start t) e
    ∙ entry_rounds j key value rest start t p.0 p.1
    ∙ after-agree (set_value [] t key value) (unpack_loop (left value j) rest at_key [])
        (set_all es) (λ t'. unpack_loop-pack_entries es (left value j) [] t' p.2 fuel)

ArePackable-append : (es fs : Chain Text) → ArePackable es → ArePackable fs → ArePackable (es ++ fs)
ArePackable-append [] fs p q = q
ArePackable-append ((key, value) ∷ es) fs p q = (p.0, p.1, ArePackable-append es fs p.2 q)

entries_loop-ArePackable :
    (k i : ℕ) (buckets : ℕ → Chain Text)
    → ((n : ℕ) → ArePackable (buckets n))
    → ArePackable (entries_loop k i buckets)
unfolding entries_loop
entries_loop-ArePackable zero i buckets p = tt
entries_loop-ArePackable (suc k) i buckets p =
    ArePackable-append (buckets i) (entries_loop k (suc i) buckets) (p i)
      (entries_loop-ArePackable k (suc i) buckets p)

-- Into any array `assarr_unpack` of what `assarr_pack` wrote sets the entries of the packed array, in
-- its order, and comes to an end, if no key is empty or holds a semicolon and no value starts with one.
pub unpack-pack :
    (t u : Table Text) (start : Text)
    → ((n : ℕ) → ArePackable (t.buckets n))
    → unpack start (pack t) u ≡ set_all (entries t) u
unfolding unpack pack
unpack-pack t u start p =
    let packable = entries_loop-ArePackable modulus 0 t.buckets p in
    unpack_loop-pack_entries (entries t) (suc (length (pack_entries (entries t)))) start u packable
      (omega arith)

-- The loop of `assarr_unpack` does not end at a value of length 0 that is followed by anything but a
-- semicolon, however many rounds it has.
unpack_loop-endless :
    (k c : ℕ) (s key token : Text) (t : Table Text)
    → c ≢ 59
    → unpack_loop k (c ∷ s) (at_value key (pos 0)) token t ≡ endless
unfolding unpack_loop read_token value_of
unpack_loop-endless zero c s key token t n = refl
unpack_loop-endless (suc k) c s key token t n =
    let other : (c == 59) ≡ false = ground arith in
    rw (other, unpack_loop) (unpack_loop-endless k c s key [] t n)
