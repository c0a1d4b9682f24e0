-- ===== src/Engine/Sandbox.antt =====
-- execution-engine/src/runner/docker.sandbox.js
pub mod Laws
use code_arena.Prelude.{
  ℕ, ◌+◌, ◌-◌, ◌/◌, Bool, true, false, ◌&&◌, ◌||◌, not, Option, none, some, List, [], ◌∷◌, ◌++◌,
  Result, ok, err, ltb, ◌==◌, if◌then◌else◌, length, take,
}
use code_arena.Prelude.Text.{Text, codes, includes}
use code_arena.Engine.Config.{EngineError, execution_engine_error, max_buffer_bytes}
use code_arena.Engine.Sanitizer.{sanitize_output}
use code_arena.Engine.Child.{
  Child, spawn_throws, spawned, error_event, close_event, Collected, nothing_yet, collect,
}

-- What a runner resolves with; `runProcess` leaves `isOom` undefined, which its caller reads as
-- false.
pub record RunResult : Type 0 where
  pub success : Bool
  pub exit_code : Option ℕ
  pub signal : Option Text
  pub stdout : Text
  pub stderr : Text
  pub runtime_ms : ℕ
  pub is_timed_out : Bool
  pub is_oom : Bool
  pub is_output_limit : Bool
  pub is_process_limit : Bool

-- `checkDockerAvailable`: the cache, and what `docker info` says if it is asked.
unfoldable pub check_docker_available : Option Bool → Bool → Bool × Option Bool
check_docker_available (some b) probe = (b, some b)
check_docker_available none probe = (probe, some probe)

-- The arguments of `docker` for a command, at the default limits that every caller uses.
unfoldable pub docker_args : Text → Text → Text → Text → List Text → List Text
docker_args container_name image workspace_dir command args =
    codes "run"
    ∷ codes "--name"
    ∷ container_name
    ∷ codes "--rm"
    ∷ codes "-i"
    ∷ codes "--network"
    ∷ codes "none"
    ∷ codes "--user"
    ∷ codes "1000:1000"
    ∷ codes "--cpus"
    ∷ codes "1"
    ∷ codes "--memory"
    ∷ codes "256m"
    ∷ codes "--memory-swap"
    ∷ codes "256m"
    ∷ codes "--pids-limit"
    ∷ codes "64"
    ∷ codes "--cap-drop"
    ∷ codes "ALL"
    ∷ codes "--security-opt"
    ∷ codes "no-new-privileges"
    ∷ codes "--read-only"
    ∷ codes "--tmpfs"
    ∷ codes "/tmp:rw,noexec,nosuid,size=32m"
    ∷ codes "-v"
    ∷ (workspace_dir ++ codes ":/workspace:rw")
    ∷ codes "-w"
    ∷ codes "/workspace"
    ∷ image
    ∷ command
    ∷ args

-- `data.slice(0, MAX_BUFFER_BYTES)` of what is longer
truncate_to : ℕ → Text → Text
truncate_to limit s = if ltb limit (length s) then take limit s else s

unfoldable pub truncate : Text → Text
unfolding truncate_to
truncate s = truncate_to max_buffer_bytes s

-- `Math.max(0, Math.round(Number(end - start) / 1e6))`, for times in nanoseconds
abbrev pub elapsed_ms : ℕ → ℕ → ℕ
elapsed_ms start stop = (stop - start + 500_000) / 1_000_000

abbrev is_killed : Option ℕ → Bool
is_killed none = false
is_killed (some n) = n == 137

-- exit code 137 without the engine's own kill, or what the three runtimes print
unfoldable pub detect_oom : Collected → Option ℕ → Text → Bool
detect_oom c code stderr =
    (is_killed code && (not c.is_timed_out && not c.is_output_limit))
    || includes (codes "bad_alloc") stderr
    || includes (codes "MemoryError") stderr
    || includes (codes "out of memory") stderr
    || includes (codes "JavaScript heap out of memory") stderr

abbrev pub is_exit_zero : Option ℕ → Option Text → Bool
is_exit_zero (some n) none = n == 0
is_exit_zero _ _ = false

-- the 'close' handler
unfoldable pub docker_close : Text → ℕ → Collected → Option ℕ → Option Text → ℕ → RunResult
docker_close workspace_dir start c code signal stop =
    let stdout = sanitize_output (truncate c.stdout) workspace_dir in
    let stderr = sanitize_output (truncate c.stderr) workspace_dir in
    let is_oom = detect_oom c code stderr in
    record {
      success =
          is_exit_zero code signal && (not c.is_timed_out && (not c.is_output_limit && not is_oom));
      exit_code = code;
      signal = signal;
      stdout = stdout;
      stderr = stderr;
      runtime_ms = elapsed_ms start stop;
      is_timed_out = c.is_timed_out;
      is_oom = is_oom;
      is_output_limit = c.is_output_limit;
      is_process_limit =
          includes (codes "Resource temporarily unavailable") stderr
          || includes (codes "EAGAIN") stderr
          || (includes (codes "Cannot allocate memory") stderr && not is_oom);
    }

abbrev pub docker_missing : EngineError
docker_missing = execution_engine_error (
    codes
      "EXECUTION_UNAVAILABLE: Docker sandbox runtime is required but unavailable. Untrusted code cannot be executed directly on the host.")

-- The promise, from the child that `docker` with these arguments and this input turns out to be;
-- with it the containers for which `docker rm -f` was started, which nothing waits for and whose error
-- is ignored.
unfoldable pub await_docker : Text → Text → Child → Result EngineError RunResult × List Text
unfolding docker_close collect
await_docker container_name workspace_dir (spawn_throws message) = (
  err (execution_engine_error (codes "Failed to spawn Docker sandbox: " ++ message)),
  container_name ∷ [],
)
await_docker container_name workspace_dir (spawned start events (error_event enoent message)) = (
  err (execution_engine_error (codes "Docker sandbox process error: " ++ message)),
  container_name ∷ [],
)
await_docker container_name workspace_dir (spawned start events (close_event code signal stop)) = (
  ok (docker_close workspace_dir start (collect events nothing_yet) code signal stop),
  container_name ∷ [],
)

-- The docker client: what becomes of a container with these arguments that is fed this input, with
-- the timer set to so many milliseconds.
abbrev pub Docker : Type 0
Docker = List Text → Text → ℕ → Child

unfoldable pub run_in_docker_sandbox :
    Docker
    → Bool
    → Text
    → Text
    → Text
    → Text
    → List Text
    → Text
    → ℕ
    → Result EngineError RunResult × List Text
unfolding await_docker docker_args
run_in_docker_sandbox docker available container_name image workspace_dir command args input
      timeout_ms =
    if available
    then await_docker container_name workspace_dir
        (docker (docker_args container_name image workspace_dir command args) input timeout_ms)
    else (err docker_missing, [])
