-- ===== src/Flexval/Defs.antt =====
-- The values of libwebtester/flexval.c, their elements, and how they are written.
--
-- A value is made by `flexval_create` and one of the setters; setting a value again is left out. The
-- length of an array is that of its elements. `double` is a parameter, `Floats`: its zero and one, the
-- conversions, `%lf`, `%.12lf` without the zeros behind, and `flexval_atolf`, which computes in it.
-- `snprintf` of 65535 characters and the buffers of that size are taken as large enough.
use web_tester.Prelude.{
  suc, Bool, false, ◌||◌, not, ◌∷◌, ℤ, pos, negsuc, Text, codes, eq_text, ◌==◌, if◌then◌else◌,
}
use web_tester.Strings.Numbers.{is_integer, is_number}
use web_tester.Strings.Slashes.{strupr}
use web_tester.Assarr.Pack.{digits, atol}
use web_tester.Hive.Tree.{flexval_atol}

-- `FVT_UNDEFINED`, `FVT_INTEGER`, `FVT_STRING`, `FVT_FLOAT` and `FVT_ARRAY`
pub data ValueType : Type 0 where
  fvt_undefined fvt_integer fvt_string fvt_float fvt_array : ValueType

pub record Floats (R : Type 0) : Type 0 where
  pub zero : R
  pub one : R
  pub of_int : ℤ → R
  pub to_int : R → ℤ
  pub print : R → Text
  pub print_12 : R → Text
  pub atolf : Text → R

-- `flex_value_t`: type, pchar, integer, real and the array
mutual
  pub data FlexValue (R : Type 0) : Type 0 where
    flex_value : ValueType → Text → ℤ → R → Elements R → FlexValue R

  pub data Elements (R : Type 0) : Type 0 where
    no_elements : Elements R
    elements : FlexValue R → Elements R → Elements R

-- `is_truth`
unfoldable pub is_truth : Text → Bool
is_truth s =
    if is_number s
    then not (is_zero_value (atol s))
    else eq_text (strupr s) (codes "TRUE") || eq_text (strupr s) (codes "T")
  where
    is_zero_value : ℤ → Bool
    is_zero_value (pos n) = n == 0
    is_zero_value (negsuc n) = false

-- `%ld`
abbrev pub print_int : ℤ → Text
print_int (pos n) = digits n
print_int (negsuc n) = 45 ∷ digits (suc n)

module _ {R : Type 0} where
  abbrev pub type_of : FlexValue R → ValueType
  type_of (flex_value kind pchar integer real array) = kind

  -- `flexval_get_string`, `flexval_get_int` and `flexval_get_float`
  abbrev pub get_string : FlexValue R → Text
  get_string (flex_value kind pchar integer real array) = pchar

  abbrev pub get_int : FlexValue R → ℤ
  get_int (flex_value kind pchar integer real array) = integer

  abbrev pub get_float : FlexValue R → R
  get_float (flex_value kind pchar integer real array) = real

  abbrev pub get_array : FlexValue R → Elements R
  get_array (flex_value kind pchar integer real array) = array

  -- Behind the last element.
  unfoldable pub add_element : Elements R → FlexValue R → Elements R
  add_element no_elements v = elements v no_elements
  add_element (elements e es) v = elements e (add_element es v)

module _ {R : Type 0} (fl : Floats R) where
  -- `flexval_set_string` on a new value, with `flexval_eval_from_string`
  unfoldable pub set_string : Text → FlexValue R
  set_string s =
      if is_number s
      then flex_value fvt_string s (flexval_atol s) (fl.atolf s) no_elements
      else if is_truth s
      then flex_value fvt_undefined s (pos 1) fl.one no_elements
      else flex_value fvt_undefined s (pos 0) fl.zero no_elements

  -- `flexval_set_int` on a new value, with `flexval_eval_from_int`
  abbrev pub set_int : ℤ → FlexValue R
  set_int n = flex_value fvt_integer (print_int n) n (fl.of_int n) no_elements

  -- `flexval_set_float` on a new value, with `flexval_eval_from_float`
  abbrev pub set_float : R → FlexValue R
  set_float r = flex_value fvt_float (fl.print_12 r) (fl.to_int r) r no_elements

  -- The smart setting of a token that is not an array.
  unfoldable pub set_token : Text → Bool → FlexValue R
  set_token token is_string =
      if is_string
      then set_string token
      else if is_integer token
      then set_int (flexval_atol token)
      else if is_number token
      then set_float (fl.atolf token)
      else set_string token

  -- A new value made an array by `flexval_set_string (ptr, FV_ARRAY)`
  abbrev array_type : FlexValue R → FlexValue R
  array_type (flex_value kind pchar integer real array) =
      flex_value fvt_array pchar integer real array

  unfoldable pub alloc_array : FlexValue R
  alloc_array = array_type (set_string (codes "Array"))
