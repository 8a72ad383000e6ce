-- ===== src/Testing/Compile.antt =====
-- The saving and the compiling of a solution in webtester/modules/informatics/tester.c, and
-- `Informatics_compiler_config_val` of compiler.c.
--
-- The configuration, the file system and the compiler's process are the parameter `Tools`. A `BOOL` is
-- an `int`: `run_compiler` gives -1 where the compiler cannot be executed.
use web_tester.Prelude.{
  ℕ, ◌-◌, Bool, not, Option, none, some, ◌++◌, ℤ, pos, negsuc, is_zero, Text, codes, is_nil, ltb,
  length, if◌then◌else◌,
}
use web_tester.Testing.Defs.{
  Process, is_runtime_error, Params, set_param, or_empty, report, Env, Settings, replace_defaults,
}
use web_tester.Testing.State.{at_most}

-- `config` is the string at a path of the configuration; `saved` is a result 0 of `fwritebuf`;
-- `run_compiler_cmd` is given the command and the directory; `compiled` is `fexists` afterwards.
pub record Tools : Type 0 where
  pub config : Text → Option Text
  pub saved : Text → Text → Bool
  pub run_compiler_cmd : Text → Text → Process
  pub compiled : Text → Bool

-- `compiler_hive_path`
abbrev pub compiler_hive_path : Text → Text
compiler_hive_path id = codes "Server/Compilers/" ++ id

-- `Informatics_compiler_config_val`
abbrev pub compiler_config_val : Tools → Text → Text → Option Text
compiler_config_val tools id path = tools.config (compiler_hive_path id ++ codes "/" ++ path)

-- `COMPILER_SAFE_PCHAR_KEY`
abbrev pub or_default : Text → Option Text → Text
or_default default none = default
or_default default (some t) = t

-- `TASK_COMPILER_ID`
abbrev pub compiler_id : Params → Text
compiler_id input = or_empty (input (codes "COMPILERID"))

-- The solution's file: `TASK_SRCEXT` has the default ".sol"
abbrev pub solution_file : Tools → Settings → Params → Text
solution_file tools settings input =
    settings.source_file
    ++ or_default (codes ".sol") (compiler_config_val tools (compiler_id input) (codes "Extension"))

abbrev pub executable_file : Tools → Settings → Params → Text
executable_file tools settings input =
    settings.file_to_exec
    ++ or_empty (compiler_config_val tools (compiler_id input) (codes "OutputExtension"))

unfoldable pub save_solution : Tools → Settings → Params → Text → Bool
save_solution tools settings input cur_testing_dir =
    tools.saved (cur_testing_dir ++ codes "/" ++ solution_file tools settings input)
      (or_empty (input (codes "SOURCE")))

unfoldable pub build_compiler_command : Env → Tools → Settings → Params → Text → Text → Text
build_compiler_command env tools settings input cur_testing_dir cur_data_dir =
    let template = or_empty (compiler_config_val tools (compiler_id input) (codes "Command")) in
    let flags =
      or_empty
        (tools.config (codes "Server/Modules/Informatics/CompilerFlags/" ++ compiler_id input)) in
    let cmd = replace_defaults env settings cur_testing_dir cur_data_dir template in
    let with_flags = env.replace_var (codes "flags") cmd flags in
    let with_source =
      env.replace_var (codes "source") with_flags (solution_file tools settings input) in
    env.replace_var (codes "output") with_source (executable_file tools settings input)

-- `MAX_COMPILER_MSG_LEN`
abbrev pub max_compiler_msg_len : ℕ
max_compiler_msg_len = 4096

-- The message, cut and ended by dots where it is too long.
unfoldable pub shortened : Text → Text
shortened text =
    if ltb max_compiler_msg_len (length text)
    then at_most (max_compiler_msg_len - 4) text ++ codes "..."
    else text

unfoldable pub store_messages : Option Text → Params → Params
store_messages none params = params
store_messages (some text) params = set_param params (codes "COMPILER_MESSAGES") (shortened text)

unfoldable pub run_compiler : Tools → Text → Text → Params → ℤ × Params
run_compiler tools cmd cur_testing_dir params =
    let proc = tools.run_compiler_cmd cmd cur_testing_dir in
    let told = store_messages proc.pipe params in
    if proc.exec_error
    then (
      negsuc 0,
      report (codes "Error executing compiler: " ++ proc.error_desc ++ codes ".") params,
    )
    else if is_runtime_error proc
    then (pos 0, told)
    else (pos 1, told)

unfoldable pub post_compiling_check : Tools → Settings → Params → Text → ℤ
post_compiling_check tools settings input cur_testing_dir =
    if not (tools.compiled (cur_testing_dir ++ codes "/" ++ executable_file tools settings input))
    then pos 0
    else pos 1

unfoldable pub compile_solution :
    Env → Tools → Settings → Params → Text → Text → Params → ℤ × Params
compile_solution env tools settings input cur_testing_dir cur_data_dir params =
    let cmd = build_compiler_command env tools settings input cur_testing_dir cur_data_dir in
    let noted = set_param params (codes "COMPILER_COMMAND") cmd in
    let (rc, told) = run_compiler tools cmd cur_testing_dir noted in
    if is_nil cmd
    then (negsuc 0, report (codes "Compiler command is undefined.") noted)
    else if is_zero rc
    then (pos 0, told)
    else (post_compiling_check tools settings input cur_testing_dir, told)
