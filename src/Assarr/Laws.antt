-- ===== src/Assarr/Laws.antt =====
-- What the operations of associative arrays do to the values of the keys.
use web_tester.Prelude.{
  ℕ, ◌+◌, ◌≤◌, ◌<◌, ◌≡◌, refl, ◌∙◌, ap, fun_ext, Bool, true, false, Option, none, some, [], ◌∷◌,
  ◌++◌, pos, Text, eq_text, eq_text_iff, if◌then◌else◌, arith, Option-cases, inl, inr,
}
use web_tester.Assarr.Table.{
  hash_from, hash, Chain, Table, put_chain, find, assign, get_value, define, is_set, write_entry,
  set_value,
}
use web_tester.Assarr.Keys.{UniqueKeys, put_chain-UniqueKeys, snoc-UniqueKeys, assign-UniqueKeys}
use web_tester.Assarr.Lookup.{IsAscii, hash-lt, value, get_entry-find, set_chain}

-- A key of one byte that is not ASCII has a negative hash: looking it up reads before the array.
get_value-outside :
    {V : Type 0} (null : V) (t : Table V) (b : ℕ)
    → 128 ≤ b
    → b < 256
    → get_value null t (b ∷ []) ≡ none
unfolding get_value hash_from
get_value-outside null t b low high = ground arith

module _ {V : Type 0} where
  find-assign :
      (k : Text) (v : V) (c : Chain V) (w : V) (j : Text)
      → find k c ≡ some w
      → find j (assign k v c) ≡ (if eq_text k j then some v else find j c)
  unfolding find assign
  find-assign k v [] w j h = cc
  find-assign k v ((i, x) ∷ c) w j h =
      ground (arith, eq_text_iff i k, eq_text_iff i j, eq_text_iff k j, find-assign k v c w j)

  find-snoc :
      (k : Text) (v : V) (c : Chain V) (j : Text)
      → find k c ≡ none
      → find j (c ++ (k, v) ∷ []) ≡ (if eq_text k j then some v else find j c)
  unfolding find
  find-snoc k v [] j h = refl
  find-snoc k v ((i, x) ∷ c) j h =
      ground (arith, eq_text_iff i k, eq_text_iff i j, eq_text_iff k j, find-snoc k v c j)

module _ {V : Type 0} (null : V) where
  is_set-at :
      (t : Table V) (k : Text) (n : ℕ) (o : Option V)
      → hash k ≡ pos n
      → find k (t.buckets n) ≡ o
      → is_set null t k ≡ some (elim o [ none ↦ false | some v ↦ true ])
  unfolding is_set
  is_set-at t k n none hk e = rw (get_entry-find null t k n hk ∙ ap some e, is_set) refl
  is_set-at t k n (some v) hk e = rw (get_entry-find null t k n hk ∙ ap some e, is_set) refl

  write_entry-at :
      (t : Table V) (k : Text) (v : V) (n : ℕ)
      → hash k ≡ pos n
      → write_entry null k v t
        ≡ some (record t { buckets = put_chain t n (assign k v (t.buckets n)) })
  unfolding write_entry
  write_entry-at t k v n hk = rw (hk, write_entry) refl

  -- The table of `define`.
  abbrev defined : Table V → Text → ℕ → Table V
  defined t k n = record t {
    buckets = put_chain t n (t.buckets n ++ (k, null) ∷ []);
    count = t.count + 1;
  }

  define-at :
      (t : Table V) (k : Text) (n : ℕ) → hash k ≡ pos n → define null t k ≡ some (defined t k n)
  unfolding define
  define-at t k n hk = rw (hk, define) refl

  put_chain-same : (t : Table V) (n : ℕ) (c : Chain V) → put_chain t n c n ≡ c
  put_chain-same t n c = ground arith

  put_chain-twice :
      (t : Table V) (k : Text) (n : ℕ) (c : Chain V)
      → put_chain (defined t k n) n c ≡ put_chain t n c
  put_chain-twice t k n c = fun_ext (λ i. ground arith)

  find-define :
      (k : Text) (v : V) (b : Chain V) (j : Text)
      → find k b ≡ none
      → find j (assign k v (b ++ (k, null) ∷ [])) ≡ (if eq_text k j then some v else find j b)
  find-define k v b j e =
      let fresh : find k (b ++ (k, null) ∷ []) ≡ some null =
        find-snoc k null b k e
        ∙ ap (λ x. if x then some null else find k b) ((eq_text_iff k k).1 refl) in
      find-assign k v (b ++ (k, null) ∷ []) null j fresh
      ∙ ap (λ o. if eq_text k j then some v else o) (find-snoc k null b j e)
      ∙ twice (eq_text k j)
    where
      twice :
          (x : Bool)
          → (if x then some v else if x then some null else find j b)
            ≡ (if x then some v else find j b)
      twice true = refl
      twice false = refl

  -- `assarr_set_value` of an ASCII key succeeds; afterwards that key has the value, and every other
  -- ASCII key has the value that it had; and an array without doubled keys is left without any.
  pub get_value-set_value :
      (t : Table V) (k : Text) (v : V)
      → IsAscii k
      → (t' : Table V) × (set_value null t k v ≡ some t')
        × ((j : Text)
            → IsAscii j
            → get_value null t' j ≡ (if eq_text k j then some v else get_value null t j))
        × (((i : ℕ) → UniqueKeys (t.buckets i)) → (i : ℕ) → UniqueKeys (t'.buckets i))
  unfolding set_value value
  get_value-set_value t k v a =
      let (n, hk, lt) = hash-lt k a in
      let b = t.buckets n in
      elim (Option-cases (find k b)) [
        | inl e ↦
            let t1 = defined t k n in
            let c = assign k v (t1.buckets n) in
            let t2 : Table V = record t1 { buckets = put_chain t1 n c } in
            let chain = put_chain-same t n (b ++ (k, null) ∷ []) in
            (
              t2,
              rw (is_set-at t k n none hk e, set_value)
                  (rw (define-at t k n hk) (write_entry-at t1 k v n hk)),
              set_chain null t t2 k (some v) n c hk (put_chain-twice t k n c)
                  (λ j. ap (λ x. find j (assign k v x)) chain ∙ find-define k v b j e),
              λ u.
                  let defined_unique =
                    put_chain-UniqueKeys t n (b ++ (k, null) ∷ []) u
                      (snoc-UniqueKeys k null b (u n) e) in
                  put_chain-UniqueKeys t1 n c defined_unique
                    (assign-UniqueKeys k v (t1.buckets n) (defined_unique n)),
            )
        | inr (w, e) ↦
            let t2 : Table V = record t { buckets = put_chain t n (assign k v b) } in
            (
              t2,
              rw (is_set-at t k n (some w) hk e, set_value) (write_entry-at t k v n hk),
              set_chain null t t2 k (some v) n (assign k v b) hk refl
                  (λ j. find-assign k v b w j e),
              λ u. put_chain-UniqueKeys t n (assign k v b) u (assign-UniqueKeys k v b (u n)),
            )
      ]
