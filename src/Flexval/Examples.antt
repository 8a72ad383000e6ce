-- ===== src/Flexval/Examples.antt =====
-- An array of a string and an array.
use web_tester.Prelude.{ℕ, ◌≡◌, ◌≢◌, some, ℤ, pos, negsuc, [], ◌∷◌, refl}
use web_tester.Assarr.Pack.{digits, digits_value}
use web_tester.Flexval.Defs.{Floats}
use web_tester.Flexval.Reader.{value, unfinished, serialize, unserialize_entry}
use web_tester.Flexval.Written.{Entries, end_of, text, list, array_of, built}
use web_tester.Flexval.RoundTrip.{unserialize-serialize}
use web_tester.Flexval.Fuel.{unserialize_entry-ends}

abbrev rounded : ℤ → ℕ
rounded (pos n) = n
rounded (negsuc n) = 0

-- Floats without fractions and signs.
abbrev floats : Floats ℕ
floats = record {
  zero = 0;
  one = 1;
  of_int = rounded;
  to_int = λ r. pos r;
  print = digits;
  print_12 = digits;
  atolf = λ s. digits_value 0 s;
}

abbrev entries : Entries
entries = text (49 ∷ 32 ∷ []) (list (text (97 ∷ []) end_of) (list end_of end_of))

unserialize-serialize_example :
    unserialize_entry floats (serialize floats (array_of floats (built floats entries)))
    ≡ value (some (array_of floats (built floats entries)))
unserialize-serialize_example =
    unserialize-serialize floats entries ((refl, (refl, tt)), (((refl, tt), tt), (tt, tt)))

unserialize_entry-ends_example : unserialize_entry floats (91 ∷ 91 ∷ 97 ∷ []) ≢ unfinished
unserialize_entry-ends_example = unserialize_entry-ends floats (91 ∷ 91 ∷ 97 ∷ [])
