-- ===== src/Sandbox/Verdicts.antt =====
-- The verdicts of the three backends of pkg/sandbox against one independent description: the first
-- fault that is found decides.
use remote_runtime_engine.Base.{
  ◌≡◌, ◌↔◌, Bool, true, false, ◌||◌, ◌&&◌, not, List, [], ◌∷◌, ℤ, pos, eqb_ℤ, ltb_ℤ, Float, arith,
  if◌then◌else◌,
}
use remote_runtime_engine.Models.{
  Verdict, accepted, wrong_answer, time_limit_exceeded, memory_limit_exceeded,
  output_limit_exceeded, runtime_error, is_accepted,
}
use remote_runtime_engine.Models.Request.{ExecutionRequest, is_empty}
use remote_runtime_engine.Models.Bounds.{memory_bytes}
use remote_runtime_engine.Sandbox.Process.{
  Finished, exit_code, output_exceeded, output_differs, over_time, compare_output,
}
use remote_runtime_engine.Sandbox.Native.{native_verdict}
use remote_runtime_engine.Sandbox.Docker.{docker_verdict, at_limit}
use remote_runtime_engine.Sandbox.DevProcess.{dev_verdict}

-- The verdict of the first fault that is present.
unfoldable pub first_fault : List (Bool × Verdict) → Verdict
first_fault [] = accepted
first_fault ((present, v) ∷ faults) = if present then v else first_fault faults

module _ {F : Type 0} (fl : Float F) (r : ExecutionRequest F) (p : Finished F) where
  abbrev pub crashed : Bool
  crashed = not (eqb_ℤ (exit_code p.wait_error) (pos 0))

  abbrev pub answered_wrong : Bool
  answered_wrong = not (is_empty r.expected_output) && output_differs r p

  -- The native sandbox looks for a time-out first, then for memory, output, exit code and answer.
  pub native_verdict_lem :
      (timed_out : Bool) (peak : ℤ) (oom : Bool)
      → native_verdict fl r timed_out (peak, oom) p
        ≡ first_fault (
            (timed_out || over_time fl r p, time_limit_exceeded)
            ∷ (oom || ltb_ℤ (memory_bytes r) peak, memory_limit_exceeded)
            ∷ (output_exceeded r p, output_limit_exceeded)
            ∷ (crashed, runtime_error)
            ∷ (answered_wrong, wrong_answer)
            ∷ [])
  unfolding native_verdict first_fault compare_output
  native_verdict_lem timed_out peak oom = ground arith

  -- The process sandbox knows no memory fault, and looks at the exit code before the output's size.
  pub dev_verdict_lem :
      (timed_out : Bool)
      → dev_verdict fl r timed_out p
        ≡ first_fault (
            (timed_out || over_time fl r p, time_limit_exceeded)
            ∷ (crashed, runtime_error)
            ∷ (output_exceeded r p, output_limit_exceeded)
            ∷ (answered_wrong, wrong_answer)
            ∷ [])
  unfolding dev_verdict first_fault compare_output
  dev_verdict_lem timed_out = ground arith

  -- The container ran out of time: it passed the limit, or was killed without an OOM event, and the
  -- limit was reached.
  abbrev pub docker_late : ℤ → Bool → Bool
  docker_late exit oom =
      (over_time fl r p || (eqb_ℤ exit (pos 124) || (eqb_ℤ exit (pos 137) && not oom)))
      && at_limit fl r p

  -- The container sandbox looks for memory first, and for a time-out only after the exit code of a
  -- run in time and after the output's size.
  pub docker_verdict_lem :
      (exit : ℤ) (oom : Bool)
      → docker_verdict fl r exit oom p
        ≡ first_fault (
            (oom, memory_limit_exceeded)
            ∷ (not (docker_late exit oom) && not (eqb_ℤ exit (pos 0)), runtime_error)
            ∷ (output_exceeded r p, output_limit_exceeded)
            ∷ (docker_late exit oom, time_limit_exceeded)
            ∷ (answered_wrong, wrong_answer)
            ∷ [])
  unfolding docker_verdict first_fault compare_output is_accepted
  docker_verdict_lem exit oom = ground arith

  -- The native sandbox accepts a run exactly when it ended in time and within its memory and output
  -- limits, with exit code 0, and with the expected output where one is expected.
  pub native-accepted_iff :
      (timed_out : Bool) (peak : ℤ) (oom : Bool)
      → (native_verdict fl r timed_out (peak, oom) p ≡ accepted) ↔ (
          (timed_out ≡ false)
          × (over_time fl r p ≡ false)
          × (oom ≡ false)
          × (ltb_ℤ (memory_bytes r) peak ≡ false)
          × (output_exceeded r p ≡ false)
          × (eqb_ℤ (exit_code p.wait_error) (pos 0) ≡ true)
          × (answered_wrong ≡ false))
  unfolding first_fault
  native-accepted_iff timed_out peak oom = ground (arith, native_verdict_lem timed_out peak oom)

  -- A run that timed out and wrote too much without an OOM event is a time-out to the native sandbox
  -- and to the process sandbox, and too much output to the container sandbox.
  pub timeout_disagreement :
      (exit peak : ℤ)
      → docker_late exit false ≡ true
      → output_exceeded r p ≡ true
      → (native_verdict fl r true (peak, false) p ≡ time_limit_exceeded)
        × (dev_verdict fl r true p ≡ time_limit_exceeded)
        × (docker_verdict fl r exit false p ≡ output_limit_exceeded)
  unfolding first_fault
  timeout_disagreement exit peak late big = ground (
    arith,
    native_verdict_lem true peak false,
    dev_verdict_lem true,
    docker_verdict_lem exit false,
  )

  -- The container sandbox accepts a run exactly when it saw no OOM event, ended in time and with exit
  -- code 0, within its output limit, and with the expected output where one is expected.
  pub docker-accepted_iff :
      (exit : ℤ) (oom : Bool)
      → (docker_verdict fl r exit oom p ≡ accepted) ↔ (
          (oom ≡ false)
          × (docker_late exit oom ≡ false)
          × (eqb_ℤ exit (pos 0) ≡ true)
          × (output_exceeded r p ≡ false)
          × (answered_wrong ≡ false))
  unfolding first_fault
  docker-accepted_iff exit oom = ground (arith, docker_verdict_lem exit oom)
