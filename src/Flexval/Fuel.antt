-- ===== src/Flexval/Fuel.antt =====
-- The loops of `flexval_unserialize_entry` of libwebtester/flexval.c end within the rounds given.
use web_tester.Prelude.{
  ℕ, zero, suc, ◌+◌, ◌*◌, ◌≤◌, ◌<◌, ◌≢◌, Bool, true, false, Option, none, some, [], ◌∷◌, ◌++◌, Text,
  length, length-append, is_nil, arith, Bool-cases, inl, inr,
}
use web_tester.Strings.Trim.{trim}
use web_tester.Flexval.Defs.{Floats, FlexValue, set_token, alloc_array}
use web_tester.Flexval.Scanner.{
  Scanned, no_token, error, token, array_flag, string_flag, no_flag, unserialize_iterator,
}
use web_tester.Flexval.Reader.{
  Unserialized, value, failed, unfinished, Place, at_top, in_array, appended, token_appended,
  scalar_round, unserialize_round, unserialize_loop, unserialize_entry, then_top, then_append,
}
use web_tester.Flexval.Shorter.{Shorter, unserialize_iterator-Shorter}

module _ {R : Type 0} (fl : Floats R) where
  abbrev Ended : Unserialized R → Type 0
  Ended (value v) = Unit
  Ended (failed m v) = Unit
  Ended unfinished = ⊥

  -- The rounds that are enough.
  abbrev rounds : Place → Text → ℕ
  rounds at_top s = 2 * length s + 1
  rounds in_array s = 2 * length s + 2

  abbrev Rec : Type 0
  Rec = Place → Text → Option (FlexValue R) → Unserialized R

  then_top-Ended :
      (rec : Rec) (rest : Text) (r : Unserialized R)
      → Ended r
      → ((v : Option (FlexValue R)) → Ended (rec at_top rest v))
      → Ended (then_top fl rec rest r)
  then_top-Ended rec rest (value v) h more = more v
  then_top-Ended rec rest (failed m v) h more = tt
  then_top-Ended rec rest unfinished h more = h

  then_append-Ended :
      (rec : Rec) (rest : Text) (ptr : Option (FlexValue R)) (r : Unserialized R)
      → Ended r
      → ((v : Option (FlexValue R)) → Ended (rec in_array rest v))
      → Ended (then_append fl rec rest ptr r)
  then_append-Ended rec rest ptr (value v) h more = more (appended fl ptr v)
  then_append-Ended rec rest ptr (failed m v) h more = tt
  then_append-Ended rec rest ptr unfinished h more = h

  scalar_round-Ended :
      (rec : Rec) (place : Place) (is_string : Bool) (text rest : Text) (ptr : Option (FlexValue R))
      → ((v : Option (FlexValue R)) → Ended (rec place rest v))
      → Ended (scalar_round fl rec place is_string text rest ptr)
  scalar_round-Ended rec at_top is_string text rest ptr more =
      elim (Bool-cases (is_nil (trim rest))) [
        | inl e ↦ rw e (more (some (set_token fl text is_string)))
        | inr e ↦ rw e tt
      ]
  scalar_round-Ended rec in_array is_string text rest ptr more =
      more (token_appended fl ptr text is_string)

  -- A recursive call that ends wherever `n` rounds are enough.
  abbrev EndsWithin : ℕ → Rec → Type 0
  EndsWithin n rec =
      (p : Place) (s : Text) (v : Option (FlexValue R)) → rounds p s ≤ n → Ended (rec p s v)

  rest-rounds :
      (n : ℕ) (place : Place) (s rest : Text)
      → rounds place s ≤ suc n
      → length rest < length s
      → rounds place rest ≤ n
  rest-rounds n at_top s rest enough less = omega (arith, enough, less)
  rest-rounds n in_array s rest enough less = omega (arith, enough, less)

  array_round-Ended :
      (rec : Rec) (n : ℕ) (place : Place) (s text rest : Text) (ptr : Option (FlexValue R))
      → EndsWithin n rec
      → rounds place s ≤ suc n
      → length text + length rest + 2 ≤ length s
      → Ended (unserialize_round fl rec place (token array_flag text rest) ptr)
  array_round-Ended rec n at_top s text rest ptr ends enough h =
      then_top-Ended rec rest (rec in_array text (some (alloc_array fl)))
        (ends in_array text _ (omega (arith, enough, h)))
        (λ v. ends at_top rest v (omega (arith, enough, h)))
  array_round-Ended rec n in_array s text rest ptr ends enough h =
      let longer = length-append text (93 ∷ []) in
      then_append-Ended rec rest ptr (rec at_top (91 ∷ (text ++ 93 ∷ [])) none)
        (ends at_top _ none (omega (arith, enough, h, longer)))
        (λ v. ends in_array rest v (omega (arith, enough, h)))

  unserialize_round-Ended :
      (rec : Rec) (n : ℕ) (place : Place) (s : Text) (t : Scanned) (ptr : Option (FlexValue R))
      → EndsWithin n rec
      → rounds place s ≤ suc n
      → Shorter (length s) t
      → Ended (unserialize_round fl rec place t ptr)
  unserialize_round-Ended rec n place s no_token ptr ends enough h = tt
  unserialize_round-Ended rec n place s (error m) ptr ends enough h = tt
  unserialize_round-Ended rec n place s (token array_flag text rest) ptr ends enough h =
      array_round-Ended rec n place s text rest ptr ends enough h
  unserialize_round-Ended rec n place s (token string_flag text rest) ptr ends enough h =
      scalar_round-Ended rec place true text rest ptr
        (λ v. ends place rest v (rest-rounds n place s rest enough h))
  unserialize_round-Ended rec n place s (token no_flag text rest) ptr ends enough h =
      scalar_round-Ended rec place false text rest ptr
        (λ v. ends place rest v (rest-rounds n place s rest enough h))

  no_rounds : (place : Place) (s : Text) → rounds place s ≤ 0 → ⊥
  no_rounds at_top s h = omega (arith, h)
  no_rounds in_array s h = omega (arith, h)

  unserialize_loop-Ended :
      (k : ℕ) (place : Place) (s : Text) (ptr : Option (FlexValue R))
      → rounds place s ≤ k
      → Ended (unserialize_loop fl k place s ptr)
  unfolding unserialize_loop
  unserialize_loop-Ended zero place s ptr enough = elim (no_rounds place s enough) [ ]
  unserialize_loop-Ended (suc k) place s ptr enough =
      unserialize_round-Ended (λ p x q. unserialize_loop fl k p x q) k place s
        (unserialize_iterator s) ptr (λ p x q fits. unserialize_loop-Ended k p x q fits) enough
        (unserialize_iterator-Shorter s)

  ended : (r : Unserialized R) → Ended r → r ≢ unfinished
  ended (value v) h = λ e. cc
  ended (failed m v) h = λ e. cc
  ended unfinished h = elim h [ ]

  -- `flexval_unserialize` ends on every text, nested arrays included, within the rounds that it is given.
  pub unserialize_entry-ends : (s : Text) → unserialize_entry fl s ≢ unfinished
  unfolding unserialize_entry
  unserialize_entry-ends s =
      ended (unserialize_loop fl (suc (suc (2 * length s))) at_top s none)
        (unserialize_loop-Ended (suc (suc (2 * length s))) at_top s none (omega arith))
