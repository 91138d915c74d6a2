-- ===== src/Tests/Engine.antt =====
-- Single runs of the engine at concrete inputs.
use remote_runtime_engine.Base.{
  ℕ, ◌≡◌, refl, some, [], codes, ok, suc, text_eq, lower_rune, to_lower, trim_space, is_space,
}
use remote_runtime_engine.Models.{accepted, is_accepted, zero_result, ExecutionResult}
use remote_runtime_engine.Models.Request.{normalize, normalize_language, alias, or_text}
use remote_runtime_engine.Languages.{get, find, registry, register, name, needs_compilation}
use remote_runtime_engine.Sandbox.Select.{
  select_sandbox, one_of, native_available, docker_available,
}
use remote_runtime_engine.Worker.{Env, ret}
use remote_runtime_engine.Engine.{
  run, resolve_and_execute, prepare_and_execute, after_prepare, with_cleanup, compile_and_execute,
  execute_phase, after_execute, choose,
}
use remote_runtime_engine.Engine.Answers.{Lived, run-Lived}
use remote_runtime_engine.Engine.Honest.{Earned, run-accepted}
use remote_runtime_engine.Tests.{whole, wild_request}
use remote_runtime_engine.Tests.Worker.{calm, wild, clumsy, start}

-- The sandbox panics.
run-Lived_example : Lived [] (run whole wild (codes "dev") (some wild_request) start).1.log
run-Lived_example = run-Lived whole wild (codes "dev") (some wild_request) start

abbrev won : ExecutionResult ℕ
won = zero_result whole accepted

-- Every run succeeds.
abbrev happy : Env ℕ ℕ
happy = record calm { sandbox = λ b. record clumsy { execute = λ c t. (ret (ok won), suc t) } }

happy_answer : (run whole happy (codes "dev") (some wild_request) start).0 ≡ ret (ok won)
unfolding run resolve_and_execute prepare_and_execute after_prepare with_cleanup get find text_eq
    to_lower name normalize_language alias trim_space normalize is_space lower_rune select_sandbox
    one_of native_available docker_available compile_and_execute needs_compilation choose
    execute_phase after_execute or_text registry register
happy_answer = refl

run-accepted_example : Earned happy won
unfolding is_accepted
run-accepted_example =
    run-accepted happy whole (codes "dev") (some wild_request) start won happy_answer refl
