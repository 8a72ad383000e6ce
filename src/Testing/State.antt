-- ===== src/Testing/State.antt =====
-- The variables of `testing_main_loop` in webtester/modules/informatics/tester.c and its macros.
--
-- A test ends the loop by `goto __done_` (`leaves`) or goes on to the next one (`goes`). Of the files in
-- the testing directory the output file is kept: `unlink` of it is `output = none`.
use web_tester.Prelude.{
  ℕ, zero, suc, Bool, true, Option, none, some, [], ◌∷◌, ◌++◌, ℤ, pos, Text, codes, if◌then◌else◌,
}
use web_tester.Assarr.Table.{Table, set_value}
use web_tester.Assarr.Pack.{digits}
use web_tester.Testing.Defs.{Params, report, push_string}

-- The errors of a test that the loop notes.
pub data Kind : Type 0 where
  re ml tl wa pe : Kind

abbrev pub kind_name : Kind → Text
kind_name re = codes "RE"
kind_name ml = codes "ML"
kind_name tl = codes "TL"
kind_name wa = codes "WA"
kind_name pe = codes "PE"

-- The variables of the loop. `outputs` and `checker_outputs` are `none` where they are null; the keys
-- are numerals, which are never outside the table.
pub record Loop : Type 0 where
  pub points : ℤ
  pub errors : Text
  pub tests_res : Text
  pub has_re : Bool
  pub has_ml : Bool
  pub has_tl : Bool
  pub has_wa : Bool
  pub has_pe : Bool
  pub has_cr : Bool
  pub outputs : Option (Table Text)
  pub checker_outputs : Option (Table Text)
  pub output : Option Text
  pub params : Params

pub data Went : Type 0 where
  goes : Loop → Went
  leaves : Loop → Went

-- `LOOPCRASH`, after the `REPORT`
unfoldable pub crash : Text → Loop → Went
crash message s = leaves (record s {
  points = pos 0;
  errors = codes "CR";
  has_cr = true;
  output = none;
  params = report message s.params;
})

abbrev pub set_flag : Kind → Loop → Loop
set_flag re s = record s { has_re = true }
set_flag ml s = record s { has_ml = true }
set_flag tl s = record s { has_tl = true }
set_flag wa s = record s { has_wa = true }
set_flag pe s = record s { has_pe = true }

-- `push_string (__s, " ", tests_res_pchar)`
abbrev pub push_result : Text → Loop → Loop
push_result result s = record s { tests_res = push_string result (codes " ") s.tests_res }

-- `unlink (full_input); unlink (full_output)`
abbrev pub unlinked : Loop → Loop
unlinked s = record s { output = none }

-- `ERR`, with the end of the round where the rules are not those of the ACM
unfoldable pub err : Bool → Kind → Loop → Went
unfolding push_string
err acm kind s =
    let noted = unlinked (push_result (kind_name kind) (set_flag kind s)) in
    if acm then leaves noted else goes noted

-- `assarr_set_value` of the test's number
abbrev pub store : ℕ → Text → Option (Table Text) → Option (Table Text)
store i text none = none
store i text (some t) = set_value [] t (digits i) text

-- `if (checker_outputs && RUN_PROC_PIPEBUF (*proc))`
abbrev pub store_pipe : ℕ → Option Text → Option (Table Text) → Option (Table Text)
store_pipe i none t = t
store_pipe i (some text) t = store i text t

-- At most the first `n` characters, those that `fread` gives.
abbrev pub at_most : ℕ → Text → Text
at_most zero text = []
at_most (suc n) [] = []
at_most (suc n) (c ∷ text) = c ∷ at_most n text

-- The message of a test, with its number.
abbrev pub at_test : Text → ℕ → Text → Text
at_test before i after = before ++ digits (suc i) ++ after
