-- ===== src/Assarr/Unset.antt =====
-- What unsetting a key does.
use web_tester.Prelude.{
  ℤ, negsuc, ℕ, ◌≡◌, refl, sym, ◌∙◌, ap, fun_ext, Option, none, some, pos, Text, eq_text,
  eq_text_iff, ◌==◌, if◌then◌else◌, arith, Bool-cases, Option-cases, inl, inr,
}
use web_tester.Assarr.Table.{
  unset_value, unlink, Chain, Table, put_chain, find, get_entry, get_value,
}
use web_tester.Assarr.Keys.{UniqueKeys, put_chain-UniqueKeys, find-unlink, unlink-UniqueKeys}
use web_tester.Assarr.Lookup.{IsAscii, hash-lt, value, get_entry-find, set_chain}

-- The result and what the deleter was given, for what the search found.
abbrev pub answer : {V : Type 0} → Option V → ℤ × Option V
answer none = (negsuc 0, none)
answer (some v) = (pos 0, some v)

module _ {V : Type 0} (null : V) where
  absent :
      (k : Text) (c : Chain V) (j : Text)
      → find k c ≡ none
      → find j c ≡ (if eq_text k j then none else find j c)
  absent k c j e = elim (Bool-cases (eq_text k j)) [
    | inl s ↦ let same : k ≡ j = (eq_text_iff k j).0 s in rw s (ap (λ h. find h c) (sym same) ∙ e)
    | inr s ↦ rw s refl
  ]

  put_chain-same_chain : (t : Table V) (n : ℕ) → t.buckets ≡ put_chain t n (t.buckets n)
  put_chain-same_chain t n = fun_ext (λ i. same i)
    where
      same : (i : ℕ) → t.buckets i ≡ put_chain t n (t.buckets n) i
      same i = elim (Bool-cases (i == n)) [
        | inl e ↦ let eq : i ≡ n = ground arith in rw e (ap (λ h. t.buckets h) eq)
        | inr e ↦ rw e refl
      ]

  -- `assarr_unset_value` of an ASCII key in an array without doubled keys: it says whether the key was
  -- there and hands its value to the deleter; afterwards that key has the null value, and every other
  -- ASCII key the value that it had; the array still has no doubled key, and its counter has not
  -- changed.
  pub get_value-unset_value :
      (t : Table V) (k : Text)
      → IsAscii k
      → ((n : ℕ) → UniqueKeys (t.buckets n))
      → (t' : Table V) × (found : Option V) × (get_entry t k ≡ some found)
        × (unset_value null t k ≡ some ((answer found).0, (answer found).1, t'))
        × ((n : ℕ) → UniqueKeys (t'.buckets n))
        × ((j : Text)
            → IsAscii j
            → get_value null t' j ≡ (if eq_text k j then some null else get_value null t j))
        × (t'.count ≡ t.count)
  unfolding unset_value value
  get_value-unset_value t k a u =
      let (n, hk, lt) = hash-lt k a in
      let got = get_entry-find null t k n hk in
      let b = t.buckets n in
      elim (Option-cases (find k b)) [
        | inl e ↦
            let entry : get_entry t k ≡ some none = got ∙ ap some e in
            (
              t,
              none,
              entry,
              rw (entry, unset_value) refl,
              u,
              set_chain null t t k none n b hk (put_chain-same_chain t n) (λ j. absent k b j e),
              refl,
            )
        | inr (w, e) ↦
            let entry : get_entry t k ≡ some (some w) = got ∙ ap some e in
            let t' : Table V = record t { buckets = put_chain t n (unlink k b) } in
            (
              t',
              some w,
              entry,
              rw (entry, hk, unset_value) refl,
              put_chain-UniqueKeys t n (unlink k b) u (unlink-UniqueKeys k b (u n)),
              set_chain null t t' k none n (unlink k b) hk refl (λ j. find-unlink k b j (u n)),
              refl,
            )
      ]
