-- ===== src/Sandbox/Select.antt =====
-- pkg/sandbox/sandbox.go: the context of an execution and the choice of an isolation backend.
use remote_runtime_engine.Base.{
  ℕ, ◌≡◌, Bool, true, false, ◌&&◌, ◌||◌, List, [], ◌∷◌, ◌++◌, Text, codes, text_eq, Result, ok, err,
  arith, ◌==◌, if◌then◌else◌, ◌⊎◌,
}
use remote_runtime_engine.Models.Request.{ExecutionRequest}
use remote_runtime_engine.Languages.{LanguageHandler}

pub record SandboxContext (F : Type 0) : Type 0 where
  pub id : Text
  pub request : ExecutionRequest F
  pub language : LanguageHandler
  pub working_dir : Text
  pub source_path : Text
  pub binary_path : Text
  pub cgroup_path : Text
  pub created_at : ℕ

-- The implementations of `Sandbox`.
pub data Backend : Type 0 where
  native docker dev_process : Backend

-- `Name`.
unfoldable pub backend_name : Backend → Text
backend_name native = codes "native_cgroupv2"
backend_name docker = codes "docker"
backend_name dev_process = codes "dev_process"

-- What the backends ask of the host: `statfs` of the cgroup root, the effective user, `docker info`.
pub record Host : Type 0 where
  pub goos : Text
  pub statfs_ok : Bool
  pub statfs_type : ℕ
  pub euid : ℕ
  pub docker_info_ok : Bool

-- `IsAvailable` of the native sandbox, by the build for the host's system.
unfoldable pub native_available : Host → Bool
native_available h =
    if text_eq h.goos (codes "linux")
    then (h.statfs_ok && (h.statfs_type == 0x63677270 && h.euid == 0))
    else false

unfoldable pub docker_available : Host → Bool
docker_available h = h.docker_info_ok

-- `switch` over several texts.
unfoldable pub one_of : Text → List Text → Bool
one_of s [] = false
one_of s (t ∷ ts) = text_eq s t || one_of s ts

-- `SelectSandbox`.
unfoldable pub select_sandbox : Host → Text → Result Text Backend
select_sandbox h preference =
    if one_of preference (codes "native" ∷ codes "cgroup" ∷ codes "cgroupv2" ∷ [])
    then (if native_available h
        then ok native
        else err (
            codes "native cgroup v2 sandbox is not available on this host ("
            ++ (h.goos ++ codes ", root required)")))
    else if one_of preference (codes "docker" ∷ codes "container" ∷ [])
    then (if docker_available h
        then ok docker
        else err (codes "docker sandbox is not available or Docker daemon is unreachable"))
    else if one_of preference (codes "dev_process" ∷ codes "dev" ∷ codes "process" ∷ [])
    then ok dev_process
    else if one_of preference (codes "auto" ∷ [] ∷ [])
    then (if text_eq h.goos (codes "linux") && native_available h
        then ok native
        else if docker_available h
        then ok docker
        else ok dev_process)
    else err (codes "unknown sandbox backend preference: '" ++ (preference ++ codes "'"))

-- The backend is there whenever it is selected: no preference yields the native or the container
-- sandbox on a host where that is not available.
pub select_sandbox-available :
    (h : Host) (preference : Text) (b : Backend)
    → select_sandbox h preference ≡ ok b
    → (b ≡ dev_process)
      ⊎ ((b ≡ native) × (native_available h ≡ true) ⊎ (b ≡ docker) × (docker_available h ≡ true))
unfolding select_sandbox
select_sandbox-available h preference b e = ground arith

-- `auto` always finds a backend: the native one where it is available, else the container one where
-- that is, and only where neither is available the process sandbox, which isolates nothing.
pub select_sandbox-auto :
    (h : Host)
    → select_sandbox h (codes "auto")
      ≡ ok (
          if native_available h then native else if docker_available h then docker else dev_process)
unfolding select_sandbox native_available one_of text_eq
select_sandbox-auto h = ground arith
