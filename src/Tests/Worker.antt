-- ===== src/Tests/Worker.antt =====
-- A worker over a host whose state is a clock: the theorems at concrete inputs.
use remote_runtime_engine.Base.{
  ℕ, suc, ◌≡◌, ◌⊎◌, refl, false, none, some, [], codes, ok, All, length,
}
use remote_runtime_engine.Models.{wrong_answer, zero_result}
use remote_runtime_engine.Events.{completed, failed}
use remote_runtime_engine.Models.Request.{ExecutionRequest}
use remote_runtime_engine.Languages.{LanguageHandler}
use remote_runtime_engine.Sandbox.Select.{SandboxContext}
use remote_runtime_engine.Worker.{World, Env, Sandbox, ret, panic}
use remote_runtime_engine.Worker.Process.{
  process_job, resolve_and_run, select_and_run, prepare_and_run, prepare_job, after_prepare,
  with_cleanup, compile_and_evaluate, compile_job, after_compile, recover,
}
use remote_runtime_engine.Base.{text_eq, to_lower, trim_space, is_space, lower_rune}
use remote_runtime_engine.Languages.{get, find, name, needs_compilation}
use remote_runtime_engine.Models.Request.{normalize_language, alias}
use remote_runtime_engine.Models.{is_accepted}
use remote_runtime_engine.Sandbox.Select.{select_sandbox, one_of}
use remote_runtime_engine.Worker.Evaluate.{
  cases_of, compile_failure, evaluate, start_evaluation, complete, audit, final_event, save,
}
use remote_runtime_engine.Worker.Case.{
  publish_now, run_cases, run_case, execute_case, or_system_error, start_event, case_event, score,
}
use remote_runtime_engine.Worker.Protocol.{phase, finished}
use remote_runtime_engine.Worker.Numbering.Loop.{case_numbers, each_twice, last_status}
use remote_runtime_engine.Worker.Numbering.{process_job-numbered}
use remote_runtime_engine.Worker.Effects.{
  Open, none_yet, IsProper, process_job-Open, process_job-IsProper,
}
use remote_runtime_engine.Worker.Outcome.{IsOver, process_job-IsOver}
use remote_runtime_engine.Tests.{whole, ascii, entropy, sample_job}

abbrev made : ExecutionRequest ℕ → LanguageHandler → ℕ → SandboxContext ℕ
made r lang t = record {
  id = r.id;
  request = r;
  language = lang;
  working_dir = codes "/tmp";
  source_path = codes "main.cpp";
  binary_path = codes "main";
  cgroup_path = [];
  created_at = t;
}

-- Every run prints a secret and fails, and the host's clock moves on.
abbrev pub clumsy : Sandbox ℕ ℕ
clumsy = record {
  prepare = λ r lang t. (ret (ok (made r lang t)), suc t);
  compile = λ c t. (ret (record { result = none; error = none }), suc t);
  execute =
      λ c t. (ret (ok (record (zero_result whole wrong_answer) { stdout = codes "42" })), suc t);
  cleanup = λ c t. suc t;
}

abbrev pub calm : Env ℕ ℕ
calm = record {
  host = λ t. (
    record {
      goos = codes "linux";
      statfs_ok = false;
      statfs_type = 0;
      euid = 1000;
      docker_info_ok = false;
    },
    t,
  );
  now = λ t. (t, suc t);
  entropy = λ t. (entropy, suc t);
  sandbox = λ b. clumsy;
  table = ascii;
  stack = λ m. m;
}

-- The same host with a sandbox that panics.
abbrev pub wild : Env ℕ ℕ
wild = record calm { sandbox = λ b. record clumsy { execute = λ c t. (panic (codes "boom"), t) } }

abbrev pub start : World ℕ ℕ
start = record { os = 1; log = [] }

process_job-IsOver_example :
    IsOver whole sample_job (process_job whole calm (some sample_job) start).1.log
process_job-IsOver_example = process_job-IsOver whole calm sample_job start

process_job-numbered_example :
    (phase (process_job whole calm (some sample_job) start).1.log ≡ finished)
    × ((last_status (process_job whole calm (some sample_job) start).1.log ≡ some failed)
        ⊎ ((last_status (process_job whole calm (some sample_job) start).1.log ≡ some completed)
            × (case_numbers (process_job whole calm (some sample_job) start).1.log
                ≡ each_twice (length (cases_of sample_job)) (case_numbers start.log))))
unfolding phase
process_job-numbered_example = process_job-numbered whole calm sample_job start refl

-- The job of two cases is completed: its numbers are those of both.
ended : last_status (process_job whole calm (some sample_job) start).1.log ≡ some completed
unfolding process_job last_status resolve_and_run get find text_eq to_lower name normalize_language
    alias trim_space is_space lower_rune select_and_run select_sandbox one_of prepare_and_run
    prepare_job after_prepare with_cleanup compile_and_evaluate needs_compilation compile_job
    after_compile compile_failure publish_now evaluate start_evaluation run_cases run_case
    execute_case or_system_error start_event case_event complete audit recover final_event save
    score is_accepted
ended = refl

process_job-Open_example : Open (process_job whole wild (some sample_job) start).1.log []
process_job-Open_example = process_job-Open whole wild sample_job start none_yet

process_job-IsProper_example :
    All (IsProper sample_job) (process_job whole calm (some sample_job) start).1.log
process_job-IsProper_example = process_job-IsProper whole calm sample_job start tt
