-- ===== src/Tests/Sandbox.antt =====
-- Output capture, backends and verdicts: the theorems at concrete inputs.
use remote_runtime_engine.Base.{
  ℕ, ◌≡◌, refl, true, false, List, [], ◌∷◌, codes, pos, negsuc, ok, text_eq, arith,
}
use remote_runtime_engine.Sandbox.Buffer.{capture, string, exceeded, total_written}
use remote_runtime_engine.Sandbox.Buffer.Capture.{capture-prefix, capture-exceeded}
use remote_runtime_engine.Sandbox.Select.{Host, docker, docker_available, select_sandbox, one_of}
use remote_runtime_engine.Sandbox.Process.{
  Finished, exit_error, output_exceeded, over_time, captured_stdout, captured_stderr,
}
use remote_runtime_engine.Sandbox.Docker.{at_limit}
use remote_runtime_engine.Sandbox.Verdicts.{docker_late}
use remote_runtime_engine.Tests.{whole, wild_request}

abbrev parts : List (List ℕ)
parts = (1 ∷ 2 ∷ 3 ∷ []) ∷ (4 ∷ 5 ∷ 6 ∷ []) ∷ []

capture-prefix_example : string (capture (pos 4) parts) ≡ 1 ∷ 2 ∷ 3 ∷ 4 ∷ []
capture-prefix_example = capture-prefix 4 parts (omega arith)

capture-exceeded_example :
    (exceeded (capture (pos 4) parts) ≡ true) × (total_written (capture (pos 4) parts) ≡ pos 6)
capture-exceeded_example =
    capture-exceeded 4 parts (omega arith) ((λ e. cc), ((λ e. cc), tt)) (omega arith)

abbrev bare_host : Host
bare_host = record {
  goos = codes "linux";
  statfs_ok = true;
  statfs_type = 0;
  euid = 0;
  docker_info_ok = true;
}

docker_selected : select_sandbox bare_host (codes "container") ≡ ok docker
unfolding select_sandbox one_of text_eq docker_available
docker_selected = refl

-- A run that was killed at its limit after it had written five bytes where four are kept.
abbrev killed : Finished ℕ
killed = record {
  stdout = (51 ∷ 10 ∷ 51 ∷ []) ∷ (51 ∷ 51 ∷ []) ∷ [];
  stderr = [];
  wait_error = exit_error (negsuc 0);
  wall_ms = 60001;
}

killed_late : docker_late whole wild_request killed (pos 137) false ≡ true
unfolding over_time at_limit
killed_late = refl

killed_big : output_exceeded wild_request killed ≡ true
unfolding output_exceeded captured_stdout captured_stderr capture exceeded
killed_big = refl
