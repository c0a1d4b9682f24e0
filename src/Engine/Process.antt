-- ===== src/Engine/Process.antt =====
-- execution-engine/src/runner/process.runner.js, as `execute` calls it: with an array of arguments.
use code_arena.Prelude.{
  ℕ, false, ◌&&◌, not, Option, List, ◌++◌, Result, ok, err, if◌then◌else◌, drop,
}
use code_arena.Prelude.Text.{Text, codes, starts_with}
use code_arena.Engine.Config.{EngineError, execution_engine_error, execution_timeout_ms}
use code_arena.Engine.Sanitizer.{sanitize_output}
use code_arena.Engine.Child.{
  Child, spawn_throws, spawned, error_event, close_event, Collected, nothing_yet, collect,
}
use code_arena.Engine.Sandbox.{RunResult, truncate, elapsed_ms, is_exit_zero}

-- the 'close' handler
unfoldable pub process_close : Text → ℕ → Collected → Option ℕ → Option Text → ℕ → RunResult
unfolding truncate sanitize_output
process_close workspace_dir start c code signal stop = record {
  success = is_exit_zero code signal && (not c.is_timed_out && not c.is_output_limit);
  exit_code = code;
  signal = signal;
  stdout = sanitize_output (truncate c.stdout) workspace_dir;
  stderr = sanitize_output (truncate c.stderr) workspace_dir;
  runtime_ms = elapsed_ms start stop;
  is_timed_out = c.is_timed_out;
  is_oom = false;
  is_output_limit = c.is_output_limit;
  is_process_limit = false;
}

unfoldable pub await_process : Text → Child → Result EngineError RunResult
unfolding process_close collect
await_process workspace_dir (spawn_throws message) =
    err (execution_engine_error (codes "Failed to spawn process: " ++ message))
await_process workspace_dir (spawned start events (error_event enoent message)) =
    err (execution_engine_error (codes "Process execution error: " ++ message))
await_process workspace_dir (spawned start events (close_event code signal stop)) =
    ok (process_close workspace_dir start (collect events nothing_yet) code signal stop)

-- `spawn`: the path, the arguments, the working directory, the input, the timer's milliseconds.
abbrev pub Spawn : Type 0
Spawn = Text → List Text → Text → Text → ℕ → Child

module _ (path_join : Text → Text → Text) where
  executable_path : Text → Text → Text
  unfolding starts_with
  executable_path workspace_dir command =
      if starts_with (codes "./") command then path_join workspace_dir (drop 2 command) else command

  unfoldable pub run_process : Spawn → Text → Text → List Text → Text → Result EngineError RunResult
  unfolding executable_path await_process
  run_process spawn workspace_dir command args input =
      await_process workspace_dir (
        spawn (executable_path workspace_dir command) args workspace_dir input execution_timeout_ms)
