-- ===== src/Assarr/Keys.antt =====
-- That no key stands twice in a chain.
use web_tester.Prelude.{
  ℕ, ◌==◌, ◌≡◌, refl, ◌∙◌, Bool, true, false, Option, none, some, [], ◌∷◌, ◌++◌, Text, eq_text,
  eq_text_iff, if◌then◌else◌, arith, Bool-cases, inl, inr, ap, sym,
}
use web_tester.Assarr.Table.{Table, put_chain, Chain, find, assign, unlink}

module _ {V : Type 0} where
  abbrev pub UniqueKeys : Chain V → Type 0
  UniqueKeys [] = Unit
  UniqueKeys ((k, v) ∷ c) = (find k c ≡ none) × UniqueKeys c

  either : (b : Bool) (o : Option V) → o ≡ (if b then o else o)
  either true o = refl
  either false o = refl

  pub find-unlink :
      (k : Text) (c : Chain V) (j : Text)
      → UniqueKeys c
      → find j (unlink k c) ≡ (if eq_text k j then none else find j c)
  unfolding find unlink
  find-unlink k [] j u = either (eq_text k j) none
  find-unlink k ((i, x) ∷ c) j u =
      ground (arith, eq_text_iff i k, eq_text_iff i j, eq_text_iff k j, find-unlink k c j u.1, u.0)

  pub unlink-UniqueKeys : (k : Text) (c : Chain V) → UniqueKeys c → UniqueKeys (unlink k c)
  unfolding unlink
  unlink-UniqueKeys k [] u = tt
  unlink-UniqueKeys k ((i, x) ∷ c) u = elim (Bool-cases (eq_text i k)) [
    | inl e ↦ rw e (u.1)
    | inr e ↦
        rw e (find-unlink k c i u.1 ∙ still (eq_text k i) (find i c) u.0, unlink-UniqueKeys k c u.1)
  ]
    where
      still : (b : Bool) (o : Option V) → o ≡ none → (if b then none else o) ≡ none
      still true o e = refl
      still false o e = e

  assign-absent :
      (k : Text) (v : V) (c : Chain V) (i : Text) → find i c ≡ none → find i (assign k v c) ≡ none
  unfolding find assign
  assign-absent k v [] i a = a
  assign-absent k v ((h, x) ∷ c) i a =
      ground (arith, eq_text_iff h k, eq_text_iff h i, eq_text_iff k i, assign-absent k v c i)

  pub assign-UniqueKeys :
      (k : Text) (v : V) (c : Chain V) → UniqueKeys c → UniqueKeys (assign k v c)
  unfolding assign
  assign-UniqueKeys k v [] u = tt
  assign-UniqueKeys k v ((i, x) ∷ c) u = elim (Bool-cases (eq_text i k)) [
    | inl e ↦ rw e u
    | inr e ↦ rw e (assign-absent k v c i u.0, assign-UniqueKeys k v c u.1)
  ]

  snoc-absent :
      (k : Text) (v : V) (c : Chain V) (i : Text)
      → find i c ≡ none
      → eq_text k i ≡ false
      → find i (c ++ (k, v) ∷ []) ≡ none
  unfolding find
  snoc-absent k v [] i a n = rw n refl
  snoc-absent k v ((h, x) ∷ c) i a n = ground (arith, snoc-absent k v c i)

  pub snoc-UniqueKeys :
      (k : Text) (v : V) (c : Chain V)
      → UniqueKeys c
      → find k c ≡ none
      → UniqueKeys (c ++ (k, v) ∷ [])
  unfolding find
  snoc-UniqueKeys k v [] u a = (refl, tt)
  snoc-UniqueKeys k v ((i, x) ∷ c) u a = elim (Bool-cases (eq_text i k)) [
    | inl e ↦
        let no : Option.some x ≡ none = sym (ap (λ b. if b then some x else find k c) e) ∙ a in cc
    | inr e ↦ (
      snoc-absent k v c i u.0 (ground (arith, eq_text_iff i k, eq_text_iff k i)),
      snoc-UniqueKeys k v c u.1 (sym (ap (λ b. if b then some x else find k c) e) ∙ a),
    )
  ]

  pub put_chain-UniqueKeys :
      (t : Table V) (n : ℕ) (c : Chain V)
      → ((i : ℕ) → UniqueKeys (t.buckets i))
      → UniqueKeys c
      → (i : ℕ) → UniqueKeys (put_chain t n c i)
  put_chain-UniqueKeys t n c u w i = elim (Bool-cases (i == n)) [
    | inl e ↦ rw e w
    | inr e ↦ rw e (u i)
  ]
