-- ===== src/Assarr/Lookup.antt =====
-- Where the value of a key stands in an associative array.
use web_tester.Prelude.{
  ℕ, ◌+◌, ◌*◌, ◌%◌, ◌<◌, ◌≡◌, refl, sym, ◌∙◌, ap, Bool, true, false, Option, none, some, [], ◌∷◌,
  pos, pos_part, rem, Text, eq_text, eq_text_iff, ◌==◌, if◌then◌else◌, arith, Bool-cases,
  Option-cases, inl, inr,
}
use web_tester.Assarr.Table.{
  factor, modulus, char, mul_add, hash_from, hash, Chain, Table, put_chain, find, get_entry,
  get_value,
}

-- Every byte is below 128.
abbrev pub IsAscii : Text → Type 0
IsAscii [] = Unit
IsAscii (b ∷ bs) = (b < 128) × IsAscii bs

hash_from-lt :
    (h : ℕ) (key : Text)
    → h < modulus
    → IsAscii key
    → (n : ℕ) × (hash_from (pos h) key ≡ pos n) × (n < modulus)
unfolding hash_from
hash_from-lt h [] lt a = (h, refl, lt)
hash_from-lt h (b ∷ bs) lt a =
    let rest = hash_from-lt ((h * factor + b) % modulus) bs (omega arith) a.1 in
    let step : rem (mul_add (pos h) (char b)) modulus ≡ pos ((h * factor + b) % modulus) =
      ground arith in
    (rest.0, rw step rest.1, rest.2)

-- The hash of an ASCII key lies in the array.
pub hash-lt : (key : Text) → IsAscii key → (n : ℕ) × (hash key ≡ pos n) × (n < modulus)
unfolding hash
hash-lt key a = hash_from-lt 0 key (omega arith) a

module _ {V : Type 0} (null : V) where
  -- What a lookup gives for the result of the search.
  unfoldable pub value : Option V → V
  value none = null
  value (some v) = v

  pub value-if :
      (b : Bool) (x o : Option V)
      → Option.some (value (if b then x else o)) ≡ (if b then some (value x) else some (value o))
  unfolding value
  value-if true x o = refl
  value-if false x o = refl

  pub get_entry-find :
      (t : Table V) (j : Text) (n : ℕ)
      → hash j ≡ pos n
      → get_entry t j ≡ some (find j (t.buckets n))
  unfolding get_entry
  get_entry-find t j n h = rw (h, get_entry) refl

  -- The chain of a key whose hash is `n`.
  pub get_value-find :
      (t : Table V) (j : Text) (n : ℕ)
      → hash j ≡ pos n
      → get_value null t j ≡ some (value (find j (t.buckets n)))
  unfolding get_value value
  get_value-find t j n h = elim (Option-cases (find j (t.buckets n))) [
    | inl e ↦ rw (get_entry-find t j n h ∙ ap some e, get_value) (rw e refl)
    | inr (v, e) ↦ rw (get_entry-find t j n h ∙ ap some e, get_value) (rw e refl)
  ]

  -- Two texts with different hashes are different.
  pub ne_of_hash :
      (j k : Text) (m n : ℕ)
      → hash j ≡ pos m
      → hash k ≡ pos n
      → (n == m) ≡ false
      → eq_text k j ≡ false
  ne_of_hash j k m n hj hk ne = elim (Bool-cases (eq_text k j)) [
    | inl e ↦
        let same : k ≡ j = (eq_text_iff k j).0 e in
        let hashes : pos n ≡ pos m = sym hk ∙ ap hash same ∙ hj in
        let equal : n ≡ m = ap pos_part hashes in ground (arith, equal)
    | inr e ↦ e
  ]

  -- Where the chains of the key are the old ones with the key set or unset, so is every value.
  pub set_chain :
      (t t' : Table V) (k : Text) (o : Option V) (n : ℕ) (c : Chain V)
      → hash k ≡ pos n
      → t'.buckets ≡ put_chain t n c
      → ((j : Text) → find j c ≡ (if eq_text k j then o else find j (t.buckets n)))
      → (j : Text) → IsAscii j
      → get_value null t' j ≡ (if eq_text k j then some (value o) else get_value null t j)
  set_chain t t' k o n c hk bs found j a =
      let (m, hj, lt) = hash-lt j a in
      let new = get_value-find t' j m hj ∙ ap (λ b. some (value (find j (b m)))) bs in
      let old = get_value-find t j m hj in
      elim (Bool-cases (n == m)) [
        | inl e ↦
            let same : n ≡ m = ground arith in
            let chains : put_chain t n c m ≡ c = rw same (ground arith) in
            let there : find j (t.buckets n) ≡ find j (t.buckets m) =
              ap (λ i. find j (t.buckets i)) same in
            new
            ∙ ap (λ x. some (value (find j x))) chains
            ∙ ap (λ o. some (value o)) (found j)
            ∙ value-if (eq_text k j) o (find j (t.buckets n))
            ∙ ap (λ y. if eq_text k j then some (value o) else y)
                (ap (λ o. some (value o)) there ∙ sym old)
        | inr e ↦
            let chains : put_chain t n c m ≡ t.buckets m = ground arith in
            let other = ne_of_hash j k m n hj hk e in
            new
            ∙ ap (λ x. some (value (find j x))) chains
            ∙ sym old
            ∙ sym (ap (λ b. if b then some (value o) else get_value null t j) other)
      ]
