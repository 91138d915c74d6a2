-- ===== src/Sandbox/Native.antt =====
-- pkg/sandbox/native_linux.go: the metrics of a job's cgroup and the execution inside it.
use remote_runtime_engine.Base.{
  ℕ, suc, ◌+◌, ◌-◌, ◌*◌, ◌/◌, ◌^◌, Bool, true, false, ◌||◌, ◌&&◌, not, Option, none, some, List, [],
  ◌∷◌, ◌++◌, Text, codes, text_eq, is_space, trim_space, ℤ, pos, negsuc, ltb, leb, ltb_ℤ, eqb_ℤ,
  Float, Result, ok, err, if◌then◌else◌, ◌==◌,
}
use remote_runtime_engine.Models.{
  Verdict, ExecutionResult, time_limit_exceeded, memory_limit_exceeded, output_limit_exceeded,
  runtime_error, zero_result,
}
use remote_runtime_engine.Models.Request.{ExecutionRequest}
use remote_runtime_engine.Models.Bounds.{memory_bytes}
use remote_runtime_engine.Sandbox.Buffer.{string}
use remote_runtime_engine.Sandbox.Select.{SandboxContext, backend_name, native}
use remote_runtime_engine.Sandbox.Process.{
  Finished, exit_code, captured_stdout, captured_stderr, output_exceeded, over_time, compare_output,
}

-- The digits of a decimal numeral: none at a character that is no digit.
unfoldable pub parse_digits : ℕ → Text → Option ℕ
parse_digits n [] = some n
parse_digits n (c ∷ s) =
    let rest = parse_digits (n * 10 + (c - 48)) s in if leb 48 c && leb c 57 then rest else none

unfoldable pub clamp_pos : ℕ → ℤ
clamp_pos n = if ltb n (2 ^ 63) then pos n else pos (2 ^ 63 - 1)

unfoldable pub clamp_neg : ℕ → ℤ
clamp_neg n =
    if n == 0 then pos 0 else if leb n (2 ^ 63) then negsuc (n - 1) else negsuc (2 ^ 63 - 1)

unfoldable pub parse_unsigned : (ℕ → ℤ) → Text → ℤ
parse_unsigned clamp [] = pos 0
parse_unsigned clamp (c ∷ s) = elim (parse_digits 0 (c ∷ s)) [ none ↦ pos 0 | some n ↦ clamp n ]

-- The value of `strconv.ParseInt(s, 10, 64)`: 0 for a text that is no numeral, and the nearest int64
-- for a numeral out of range. The caller drops the error.
unfoldable pub parse_int : Text → ℤ
unfolding parse_unsigned parse_digits clamp_pos clamp_neg
parse_int [] = pos 0
parse_int (c ∷ s) =
    if c == b'-'
    then parse_unsigned clamp_neg s
    else if c == b'+'
    then parse_unsigned clamp_pos s
    else parse_unsigned clamp_pos (c ∷ s)

-- A field in front of the fields already split off; an empty one is none.
unfoldable pub push_field : Text → List Text → List Text
push_field [] fields = fields
push_field (c ∷ s) fields = (c ∷ s) ∷ fields

unfoldable pub fields_from : Text → Text → List Text
unfolding push_field
fields_from field [] = push_field field []
fields_from field (c ∷ s) =
    let split = push_field field (fields_from [] s) in
    let go_on = fields_from (field ++ c ∷ []) s in if is_space c then split else go_on

-- `strings.Fields`.
unfoldable pub fields : Text → List Text
unfolding fields_from
fields s = fields_from [] s

-- The test of one line of memory.events.
unfoldable pub is_oom_line : List Text → Bool
is_oom_line [] = false
is_oom_line (key ∷ []) = false
is_oom_line (key ∷ value ∷ rest) =
    (text_eq key (codes "oom") || text_eq key (codes "oom_kill")) && not (text_eq value (codes "0"))

unfoldable pub scan_events : Bool → List Text → Bool
unfolding is_oom_line fields
scan_events killed [] = killed
scan_events killed (line ∷ lines) =
    scan_events (if is_oom_line (fields line) then true else killed) lines

-- The files of a job's cgroup, by lines, where they can be read.
pub record CgroupFiles : Type 0 where
  pub memory_peak : Option Text
  pub memory_events : Option (List Text)
  pub cpu_stat : Option (List Text)

-- `readCgroupMemoryStats`: the peak in bytes, and whether the kernel killed for memory.
unfoldable pub read_cgroup_memory_stats : CgroupFiles → ℤ × Bool
unfolding parse_int scan_events
read_cgroup_memory_stats f = (
  elim f.memory_peak [ none ↦ pos 0 | some data' ↦ parse_int (trim_space data') ],
  elim f.memory_events [ none ↦ false | some lines ↦ scan_events false lines ],
)

-- The microseconds of a line of cpu.stat, if it is the line of the total.
unfoldable pub usage_usec : List Text → Option ℤ
usage_usec [] = none
usage_usec (key ∷ []) = none
usage_usec (key ∷ value ∷ rest) =
    if text_eq key (codes "usage_usec") then some (parse_int value) else none

unfoldable pub scan_cpu : {F : Type 0} → Float F → List Text → F
unfolding usage_usec fields parse_int
scan_cpu fl [] = fl.zero_f
scan_cpu fl (line ∷ lines) =
    let rest = scan_cpu fl lines in
    elim (usage_usec (fields line)) [
      | none ↦ rest
      | some usec ↦ fl.div (fl.of_int usec) (fl.of_int (pos 1000))
    ]

-- `readCgroupCpuStats`, in milliseconds.
unfoldable pub read_cgroup_cpu_stats : {F : Type 0} → Float F → CgroupFiles → F
unfolding scan_cpu
read_cgroup_cpu_stats fl f = elim f.cpu_stat [ none ↦ fl.zero_f | some lines ↦ scan_cpu fl lines ]

-- The resource usage of a finished process: user and system time, in seconds and microseconds.
pub record Rusage : Type 0 where
  pub utime_sec : ℤ
  pub utime_usec : ℤ
  pub stime_sec : ℤ
  pub stime_usec : ℤ

unfoldable pub rusage_ms : {F : Type 0} → Float F → ℤ → ℤ → F
rusage_ms fl sec usec =
    fl.add (fl.mul (fl.of_int sec) (fl.of_int (pos 1000)))
      (fl.div (fl.of_int usec) (fl.of_int (pos 1000)))

-- What the host does with one run: it may fail to start the process or to attach it to the cgroup.
pub record NativeRun (F : Type 0) : Type 0 where
  pub start_error : Option Text
  pub attach_error : Option Text
  pub timed_out : Bool
  pub process : Finished F
  pub files : CgroupFiles
  pub rusage : Option Rusage
  pub executed_at : ℕ

-- `cpuTimeMs`: the cgroup's, or the process's own where that is zero.
unfoldable pub native_cpu_ms : {F : Type 0} → Float F → NativeRun F → F
unfolding rusage_ms
native_cpu_ms fl run =
    let cpu = read_cgroup_cpu_stats fl run.files in
    if fl.le cpu fl.zero_f && fl.le fl.zero_f cpu
    then elim run.rusage [
      | none ↦ cpu
      | some u ↦
          fl.add (rusage_ms fl u.utime_sec u.utime_usec) (rusage_ms fl u.stime_sec u.stime_usec)
    ]
    else cpu

-- The ladder that determines the verdict.
unfoldable pub native_verdict :
    {F : Type 0} → Float F → ExecutionRequest F → Bool → ℤ × Bool → Finished F → Verdict
native_verdict fl r timed_out (peak, oom) p =
    if timed_out || over_time fl r p
    then time_limit_exceeded
    else if oom || ltb_ℤ (memory_bytes r) peak
    then memory_limit_exceeded
    else if output_exceeded r p
    then output_limit_exceeded
    else if not (eqb_ℤ (exit_code p.wait_error) (pos 0))
    then runtime_error
    else compare_output r p

-- `n / 1024` of int64, which rounds towards zero.
unfoldable pub kilobytes : ℤ → ℤ
kilobytes (pos n) = pos (n / 1024)
kilobytes (negsuc n) = if ltb n 1023 then pos 0 else negsuc (suc n / 1024 - 1)

unfoldable pub megabytes : {F : Type 0} → Float F → ℤ → F
megabytes fl n = fl.div (fl.of_int n) (fl.of_int (pos 1048576))

-- `Execute`.
unfoldable pub native_execute :
    {F : Type 0} → Float F → SandboxContext F → NativeRun F → Result Text (ExecutionResult F)
unfolding native_verdict kilobytes megabytes read_cgroup_memory_stats native_cpu_ms
native_execute fl c run = elim run.start_error [
  | some e ↦ err (codes "failed to start process: " ++ e)
  | none ↦ elim run.attach_error [
    | some e ↦ err (codes "failed to attach process to cgroup: " ++ e)
    | none ↦
        let memory = read_cgroup_memory_stats run.files in
        ok (record (zero_result fl (native_verdict fl c.request run.timed_out memory run.process)) {
          id = c.id;
          exit_code = exit_code run.process.wait_error;
          stdout = string (captured_stdout c.request run.process);
          stderr = string (captured_stderr c.request run.process);
          wall_time_ms = run.process.wall_ms;
          cpu_time_ms = native_cpu_ms fl run;
          peak_memory_kb = kilobytes memory.0;
          peak_memory_mb = megabytes fl memory.0;
          oom_killed = memory.1;
          sandbox_backend = backend_name native;
          executed_at = run.executed_at;
        })
  ]
]
