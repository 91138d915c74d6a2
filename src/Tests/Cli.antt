-- ===== src/Tests/Cli.antt =====
-- The command line with a program that is given inline.
use remote_runtime_engine.Base.{ℕ, false, [], codes, pos, ok, err}
use remote_runtime_engine.Cli.{Flags, main}
use remote_runtime_engine.Cli.Ending.{Ends, main-Ends}
use remote_runtime_engine.Tests.{whole}
use remote_runtime_engine.Tests.Worker.{calm, start}

abbrev flags : Flags ℕ
flags = record {
  file = [];
  code = codes "main";
  lang = codes "cpp";
  input = codes "@missing";
  expected = [];
  time_limit_ms = pos 1000;
  memory_limit_mb = pos 64;
  cpu_quota = 1;
  pids_limit = pos 32;
  sandbox = codes "dev";
  json = false;
}

main-Ends_example :
    Ends whole calm
      (λ p. ok (codes "7"))
      (λ p. [])
      (λ r. err [])
      flags
      start
      (main whole calm (λ p. ok (codes "7")) (λ p. []) (λ r. err []) flags start)
main-Ends_example = main-Ends whole calm (λ p. ok (codes "7")) (λ p. []) (λ r. err []) flags start
