-- ===== src/Flexval/Reader.antt =====
-- `flexval_dup`, `flexval_array_append`, `flexval_serialize` and `flexval_unserialize` of
-- libwebtester/flexval.c.
use web_tester.Prelude.{
  ℕ, zero, suc, ◌*◌, Bool, true, false, Option, none, some, [], ◌∷◌, ◌++◌, pos, Text, codes, is_nil,
  length, if◌then◌else◌, ℤ,
}
use web_tester.Strings.Numbers.{is_integer, is_number}
use web_tester.Hive.Tree.{flexval_atol}
use web_tester.Strings.Trim.{trim}
use web_tester.Flexval.Defs.{
  Floats, FlexValue, flex_value, Elements, no_elements, elements, fvt_undefined, fvt_integer,
  fvt_string, fvt_float, fvt_array, print_int, add_element, set_int, set_float, set_string,
  set_token, alloc_array,
}
use web_tester.Flexval.Scanner.{
  ScanError, extra_information, array_flag, string_flag, no_flag, Scanned, no_token, error, token,
  unserialize_iterator,
}

-- `flexval_dup`
unfoldable mutual
  pub dup : {R : Type 0} → FlexValue R → FlexValue R
  dup (flex_value fvt_array pchar integer real array) =
      flex_value fvt_array pchar integer real (dup_elements array)
  dup (flex_value fvt_undefined pchar integer real array) =
      flex_value fvt_undefined pchar integer real no_elements
  dup (flex_value fvt_integer pchar integer real array) =
      flex_value fvt_integer pchar integer real no_elements
  dup (flex_value fvt_string pchar integer real array) =
      flex_value fvt_string pchar integer real no_elements
  dup (flex_value fvt_float pchar integer real array) =
      flex_value fvt_float pchar integer real no_elements

  pub dup_elements : {R : Type 0} → Elements R → Elements R
  dup_elements no_elements = no_elements
  dup_elements (elements e es) = elements (dup e) (dup_elements es)

module _ {R : Type 0} (fl : Floats R) where
  -- `flexval_array_append`
  unfoldable pub array_append : FlexValue R → FlexValue R → FlexValue R
  array_append (flex_value kind pchar integer real array) element =
      flex_value fvt_array (codes "Array") (pos 0) fl.zero (add_element array (dup element))

  -- `flexval_array_append_int`, `flexval_array_append_float` and `flexval_array_append_string`
  abbrev pub array_append_int : FlexValue R → ℤ → FlexValue R
  array_append_int v n = array_append v (set_int fl n)

  abbrev pub array_append_float : FlexValue R → R → FlexValue R
  array_append_float v r = array_append v (set_float fl r)

  abbrev pub array_append_string : FlexValue R → Text → FlexValue R
  array_append_string v s = array_append v (set_string fl s)

  -- `flexval_set_array` on a new value, which is zero at first
  abbrev pub set_array : Elements R → FlexValue R
  set_array es = flex_value fvt_array (codes "Array") (pos 0) (fl.atolf []) (dup_elements es)

abbrev pub separated : {R : Type 0} → Elements R → Text → Text
separated no_elements s = s
separated (elements e es) s = 32 ∷ s

-- `flexval_serialize_entry`: what it appends
unfoldable mutual
  pub serialize : {R : Type 0} → Floats R → FlexValue R → Text
  serialize fl (flex_value fvt_undefined pchar integer real array) = 34 ∷ (pchar ++ 34 ∷ [])
  serialize fl (flex_value fvt_string pchar integer real array) = 34 ∷ (pchar ++ 34 ∷ [])
  serialize fl (flex_value fvt_integer pchar integer real array) = print_int integer
  serialize fl (flex_value fvt_float pchar integer real array) = fl.print real
  serialize fl (flex_value fvt_array pchar integer real array) =
      91 ∷ (serialize_elements fl array ++ 93 ∷ [])

  pub serialize_elements : {R : Type 0} → Floats R → Elements R → Text
  serialize_elements fl no_elements = []
  serialize_elements fl (elements e es) = serialize fl e ++ separated es (serialize_elements fl es)

-- The value, null where there is none, with the error; or the rounds given were not enough.
pub data Unserialized (R : Type 0) : Type 0 where
  value : Option (FlexValue R) → Unserialized R
  failed : ScanError → Option (FlexValue R) → Unserialized R
  unfinished : Unserialized R

-- Whether a loop reads a text, or the inside of an array.
pub data Place : Type 0 where
  at_top in_array : Place

module _ {R : Type 0} (fl : Floats R) where
  abbrev pub appended : Option (FlexValue R) → Option (FlexValue R) → Option (FlexValue R)
  appended none element = none
  appended (some v) none = some v
  appended (some v) (some element) = some (array_append fl v element)

  abbrev Rec : Type 0
  Rec = Place → Text → Option (FlexValue R) → Unserialized R

  -- An array that was read at the top.
  abbrev pub then_top : Rec → Text → Unserialized R → Unserialized R
  then_top rec rest (value v) = rec at_top rest v
  then_top rec rest (failed m v) = failed m v
  then_top rec rest unfinished = unfinished

  -- An array that was read in an array.
  abbrev pub then_append : Rec → Text → Option (FlexValue R) → Unserialized R → Unserialized R
  then_append rec rest ptr (value element) = rec in_array rest (appended ptr element)
  then_append rec rest ptr (failed m element) = failed m ptr
  then_append rec rest ptr unfinished = unfinished

  -- A token appended to the array by the function for it.
  abbrev pub append_token : FlexValue R → Text → Bool → FlexValue R
  append_token v text is_string =
      if is_string
      then array_append_string fl v text
      else if is_integer text
      then array_append_int fl v (flexval_atol text)
      else if is_number text
      then array_append_float fl v (fl.atolf text)
      else array_append_string fl v text

  abbrev pub token_appended : Option (FlexValue R) → Text → Bool → Option (FlexValue R)
  token_appended none text is_string = none
  token_appended (some v) text is_string = some (append_token v text is_string)

  abbrev pub scalar_round : Rec → Place → Bool → Text → Text → Option (FlexValue R) → Unserialized R
  scalar_round rec at_top is_string text rest ptr =
      if is_nil (trim rest)
      then rec at_top rest (some (set_token fl text is_string))
      else failed extra_information ptr
  scalar_round rec in_array is_string text rest ptr =
      rec in_array rest (token_appended ptr text is_string)

  abbrev pub unserialize_round : Rec → Place → Scanned → Option (FlexValue R) → Unserialized R
  unserialize_round rec place no_token ptr = value ptr
  unserialize_round rec place (error m) ptr = failed m ptr
  unserialize_round rec at_top (token array_flag text rest) ptr =
      then_top rec rest (rec in_array text (some (alloc_array fl)))
  unserialize_round rec in_array (token array_flag text rest) ptr =
      then_append rec rest ptr (rec at_top (91 ∷ (text ++ 93 ∷ [])) none)
  unserialize_round rec place (token string_flag text rest) ptr =
      scalar_round rec place true text rest ptr
  unserialize_round rec place (token no_flag text rest) ptr =
      scalar_round rec place false text rest ptr

  -- The loops of `flexval_unserialize_entry`.
  unfoldable pub unserialize_loop : ℕ → Place → Text → Option (FlexValue R) → Unserialized R
  unserialize_loop zero place s ptr = unfinished
  unserialize_loop (suc k) place s ptr =
      unserialize_round (λ p t q. unserialize_loop k p t q) place (unserialize_iterator s) ptr

  -- `flexval_unserialize_entry`
  unfoldable pub unserialize_entry : Text → Unserialized R
  unserialize_entry s = unserialize_loop (suc (suc (2 * length s))) at_top s none
