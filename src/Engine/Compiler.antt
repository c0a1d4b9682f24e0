-- ===== src/Engine/Compiler.antt =====
-- execution-engine/src/compiler/cpp.compiler.js
use code_arena.Prelude.{
  ℕ, Bool, true, false, Option, none, some, List, [], ◌∷◌, ◌++◌, Result, ok, err, ltb, ◌==◌,
  if◌then◌else◌, length, is_nil, not,
}
use code_arena.Prelude.Text.{Text, codes}
use code_arena.Engine.Config.{EngineError, execution_engine_error, max_buffer_bytes}
use code_arena.Engine.Sanitizer.{sanitize_output}
use code_arena.Engine.Child.{
  Event, stdout_data, stderr_data, timer_fired, Child, spawn_throws, spawned, End, error_event,
  close_event,
}

pub record CompileResult : Type 0 where
  pub success : Bool
  pub exit_code : Option ℕ
  pub signal : Option Text
  pub stdout : Text
  pub stderr : Text
  pub is_timed_out : Bool

abbrev is_zero : Option ℕ → Bool
is_zero none = false
is_zero (some n) = n == 0

record Output : Type 0 where
  stdout : Text
  stderr : Text
  is_timed_out : Bool

-- Chunks are dropped once a stream has reached the buffer's size.
grow : Text → Text → Text
grow read chunk = if ltb (length read) max_buffer_bytes then read ++ chunk else read

on_compiler_event : Event → Output → Output
unfolding grow
on_compiler_event (stdout_data chunk) o = record o { stdout = grow o.stdout chunk }
on_compiler_event (stderr_data chunk) o = record o { stderr = grow o.stderr chunk }
on_compiler_event timer_fired o = record o { is_timed_out = true }

read_compiler : List Event → Output → Output
unfolding on_compiler_event
read_compiler [] o = o
read_compiler (e ∷ es) o = read_compiler es (on_compiler_event e o)

module _ (decimal : Option ℕ → Text) where
  -- the 'close' handler; `decimal` prints an exit code
  compiler_close : Text → Output → Option ℕ → Option Text → CompileResult
  unfolding sanitize_output
  compiler_close workspace_dir o code signal =
      let stdout = sanitize_output o.stdout workspace_dir in
      let stderr = sanitize_output o.stderr workspace_dir in
      if o.is_timed_out
      then record {
        success = false;
        exit_code = code;
        signal = signal;
        stdout = stdout;
        stderr = codes "Compilation timed out.";
        is_timed_out = true;
      }
      else if not (is_zero code)
      then record {
        success = false;
        exit_code = code;
        signal = signal;
        stdout = stdout;
        stderr =
            if is_nil stderr
            then codes "Compilation failed with exit code " ++ decimal code
            else stderr;
        is_timed_out = false;
      }
      else record {
        success = true;
        exit_code = some 0;
        signal = none;
        stdout = stdout;
        stderr = stderr;
        is_timed_out = false;
      }

  compiler_end : Text → Text → Output → End → Result EngineError CompileResult
  unfolding compiler_close
  compiler_end compiler workspace_dir o (error_event enoent message) = err (
      execution_engine_error (
        if enoent
        then codes "Compiler '" ++ (compiler ++ codes "' is not available on this system.")
        else codes "Compilation process error: " ++ message))
  compiler_end compiler workspace_dir o (close_event code signal stop) =
      ok (compiler_close workspace_dir o code signal)

  unfoldable pub compile_cpp : Text → Text → Child → Result EngineError CompileResult
  unfolding read_compiler compiler_end
  compile_cpp compiler workspace_dir (spawn_throws message) =
      err (execution_engine_error (codes "Failed to start compiler: " ++ message))
  compile_cpp compiler workspace_dir (spawned start events last) =
      compiler_end compiler workspace_dir
        (read_compiler events (record { stdout = []; stderr = []; is_timed_out = false })) last
