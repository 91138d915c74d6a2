-- ===== src/Cli.antt =====
-- cmd/engine/main.go: one program from the command line through the engine. The flags come parsed; reads
-- of files, `filepath.Ext` and the JSON encoder are parameters.
pub mod Ending
use remote_runtime_engine.Base.{
  ℕ, Bool, true, false, ◌||◌, ◌&&◌, not, Option, none, some, List, [], ◌∷◌, ◌++◌, Text, codes, ℤ,
  pos, Float, Result, ok, err, text_eq, if◌then◌else◌,
}
use remote_runtime_engine.Models.{
  Verdict, CompilationResult, ExecutionResult, verdict_string, accepted, wrong_answer,
  time_limit_exceeded, memory_limit_exceeded, compilation_error, runtime_error,
}
use remote_runtime_engine.Models.Request.{ExecutionRequest, is_empty}
use remote_runtime_engine.Sandbox.Docker.{decimal}
use remote_runtime_engine.Worker.{World, Env, Step, ret, panic, Job}
use remote_runtime_engine.Engine.{Answer, run}

pub record Flags (F : Type 0) : Type 0 where
  pub file : Text
  pub code : Text
  pub lang : Text
  pub input : Text
  pub expected : Text
  pub time_limit_ms : ℤ
  pub memory_limit_mb : ℤ
  pub cpu_quota : F
  pub pids_limit : ℤ
  pub sandbox : Text
  pub json : Bool

-- The language by the extension of the file, where none is given.
unfoldable pub language_by_ext : Text → Text → Text
language_by_ext given ext =
    if not (is_empty given)
    then given
    else if text_eq ext (codes ".cpp") || (text_eq ext (codes ".cc") || text_eq ext (codes ".cxx"))
    then codes "cpp"
    else if text_eq ext (codes ".py")
    then codes "python3"
    else []

unfoldable pub request_with : {F : Type 0} → Flags F → Text → Text → Text → ExecutionRequest F
request_with f code lang stdin = record {
  id = [];
  language = lang;
  code = code;
  stdin = stdin;
  expected_output = f.expected;
  time_limit_ms = f.time_limit_ms;
  memory_limit_mb = f.memory_limit_mb;
  cpu_quota = f.cpu_quota;
  pids_limit = f.pids_limit;
  max_output_bytes = pos 0;
  sandbox_type = f.sandbox;
}

unfoldable pub after_stdin :
    {F : Type 0} → Flags F → Text → Text → Result Text Text → Result Text (ExecutionRequest F)
unfolding request_with
after_stdin f code lang (err e) = err e
after_stdin f code lang (ok stdin) = ok (request_with f code lang stdin)

module _ (read_file : Text → Result Text Text) where
  -- The input: a text, or a file behind `@`.
  unfoldable pub stdin_of : Text → Result Text Text
  stdin_of [] = ok []
  stdin_of (c ∷ s) = elim (text_eq (c ∷ []) (codes "@")) [
    | true ↦ elim (read_file s) [
      | err e ↦ err (codes "failed to read stdin file: " ++ e)
      | ok data' ↦ ok data'
    ]
    | false ↦ ok (c ∷ s)
  ]

module _ {F : Type 0} (read_file : Text → Result Text Text) (ext : Text → Text) where
  -- The code and the language.
  unfoldable pub code_of : Flags F → Result Text (Text × Text)
  unfolding language_by_ext
  code_of f =
      if not (is_empty f.file)
      then elim (read_file f.file) [
        | err e ↦ err (codes "failed to read file: " ++ e)
        | ok data' ↦ ok (data', language_by_ext f.lang (ext f.file))
      ]
      else if not (is_empty f.code)
      then ok (f.code, f.lang)
      else err (codes "either --file or --code must be specified. Run with -h for help.")

  unfoldable pub after_code : Flags F → Result Text (Text × Text) → Result Text (ExecutionRequest F)
  unfolding after_stdin stdin_of
  after_code f (err e) = err e
  after_code f (ok (code, lang)) =
      if is_empty lang
      then err (codes "language must be specified via --lang (e.g. cpp, python3)")
      else after_stdin f code lang (stdin_of read_file f.input)

  -- The request, or the message of a fatal error.
  unfoldable pub request_of_flags : Flags F → Result Text (ExecutionRequest F)
  unfolding after_code code_of
  request_of_flags f = after_code f (code_of f)

-- `formatVerdict`.
unfoldable pub format_verdict : Verdict → Text
unfolding verdict_string
format_verdict accepted = 27 ∷ codes "[32m[ ACCEPTED ]" ++ 27 ∷ codes "[0m"
format_verdict time_limit_exceeded = 27 ∷ codes "[33m[ TIME_LIMIT_EXCEEDED ]" ++ 27 ∷ codes "[0m"
format_verdict memory_limit_exceeded =
    27 ∷ codes "[35m[ MEMORY_LIMIT_EXCEEDED ]" ++ 27 ∷ codes "[0m"
format_verdict compilation_error = 27 ∷ codes "[31m[ COMPILATION_ERROR ]" ++ 27 ∷ codes "[0m"
format_verdict runtime_error = 27 ∷ codes "[31m[ RUNTIME_ERROR ]" ++ 27 ∷ codes "[0m"
format_verdict wrong_answer = 27 ∷ codes "[31m[ WRONG_ANSWER ]" ++ 27 ∷ codes "[0m"
format_verdict v = codes "[" ++ (verdict_string v ++ codes "]")

abbrev pub rule : Text
rule = codes "==================================================\n"

-- A part with a title, unless its text is empty.
unfoldable pub part : Text → Text → Text
part title body =
    if is_empty body
    then []
    else codes "\n--- " ++ (title ++ (codes " ---\n" ++ (body ++ codes "\n")))

unfoldable pub line : Text → Text → Text
line label value = label ++ (value ++ codes "\n")

abbrev pub is_compilation_error : Verdict → Bool
is_compilation_error compilation_error = true
is_compilation_error _ = false

module _ {F : Type 0} (fl : Float F) where
  unfoldable pub compilation_part : Option (CompilationResult F) → Text
  compilation_part none = []
  compilation_part (some k) =
      if k.success
      then []
      else codes "\n--- Compilation Error (Exit "
        ++ (decimal k.exit_code
            ++ (codes " in "
                ++ (fl.two_decimals k.time_ms ++ (codes "ms) ---\n" ++ (k.stderr ++ codes "\n")))))

  -- `printHumanReadable`.
  unfoldable pub print_human_readable : ExecutionResult F → Text
  unfolding part compilation_part line format_verdict
  print_human_readable res =
      rule
      ++ (codes "🚀 GDG VIT Chennai Remote Runtime Engine (Phase 1)\n"
          ++ (rule
              ++ (line (codes "Submission ID  : ") res.id
                  ++ (line (codes "Sandbox Backend: ") res.sandbox_backend
                      ++ (line (codes "Verdict        : ") (format_verdict res.verdict)
                          ++ (line (codes "Exit Code      : ") (decimal res.exit_code)
                              ++ (line (codes "Wall Time      : ")
                                    (fl.two_decimals res.wall_time_ms ++ codes " ms")
                                  ++ (line (codes "CPU Time       : ")
                                        (fl.two_decimals res.cpu_time_ms ++ codes " ms")
                                      ++ (line (codes "Peak Memory    : ") (
                                            decimal res.peak_memory_kb
                                            ++ (codes " KB ("
                                                ++ (fl.two_decimals res.peak_memory_mb
                                                    ++ codes " MB)")))
                                          ++ (line (codes "OOM Killed     : ") (
                                                if res.oom_killed
                                                then codes "true"
                                                else codes "false")
                                              ++ (compilation_part res.compilation
                                                  ++ (part (codes "Program Stdout") res.stdout
                                                      ++ ((if is_compilation_error res.verdict
                                                            then []
                                                            else part (codes "Program Stderr")
                                                            res.stderr)
                                                          ++ (part (codes "Error Details")
                                                            res.error_details
                                                            ++ rule))))))))))))))

-- How the program ends: with exit code 0 and its output, with 1 and the message, or by a panic.
pub data Exit : Type 0 where
  printed fatal crashed : Text → Exit

module _ {F : Type 0} (fl : Float F) (encode : ExecutionResult F → Result Text Text) where
  unfoldable pub output : Flags F → ExecutionResult F → Exit
  unfolding print_human_readable
  output f res =
      if f.json
      then elim (encode res) [
        | err e ↦ fatal (codes "failed to encode result JSON: " ++ e)
        | ok t ↦ printed t
      ]
      else printed (print_human_readable fl res)

  unfoldable pub after_run : Flags F → Step (Answer F) → Exit
  unfolding output
  after_run f (ret (ok res)) = output f res
  after_run f (ret (err e)) = fatal (codes "engine execution failed: " ++ e)
  after_run f (panic m) = crashed m

module _ {S F : Type 0} (fl : Float F) (env : Env S F) (read_file : Text → Result Text Text)
    (ext : Text → Text) (encode : ExecutionResult F → Result Text Text) where
  unfoldable pub run_request :
      Flags F → Result Text (ExecutionRequest F) → World S F → Exit × World S F
  unfolding after_run
  run_request f (err e) w = (fatal e, w)
  run_request f (ok r) w =
      let (a, w') = run fl env f.sandbox (some r) w in (after_run fl encode f a, w')

  -- `main`.
  unfoldable pub main : Flags F → World S F → Exit × World S F
  unfolding run_request request_of_flags
  main f w = run_request f (request_of_flags read_file ext f) w
