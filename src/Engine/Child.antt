-- ===== src/Engine/Child.antt =====
-- What the runners of execution-engine/src/runner see of a child process, and what they collect.
pub mod Laws
use code_arena.Prelude.{
  ℕ, ◌+◌, ◌≤◌, ◌≡◌, refl, Bool, true, false, Option, List, [], ◌∷◌, ◌++◌, arith, length,
  length-append, leb, if◌then◌else◌, ◌||◌,
}
use code_arena.Prelude.Text.{Text}
use code_arena.Engine.Config.{max_output_bytes}

-- A chunk of output, decoded, or the timer.
pub data Event : Type 0 where
  stdout_data stderr_data : Text → Event
  timer_fired : Event

-- Node ends each child that it has spawned with 'error', whose code may be ENOENT, or with 'close',
-- which has the exit code, the signal and the time.
pub data End : Type 0 where
  error_event : Bool → Text → End
  close_event : Option ℕ → Option Text → ℕ → End

pub data Child : Type 0 where
  spawn_throws : Text → Child
  spawned : ℕ → List Event → End → Child

-- The variables of the promise: what has been read, and why the child was killed.
pub record Collected : Type 0 where
  pub stdout : Text
  pub stderr : Text
  pub is_timed_out : Bool
  pub is_output_limit : Bool

abbrev pub nothing_yet : Collected
nothing_yet = record { stdout = []; stderr = []; is_timed_out = false; is_output_limit = false }

-- the test after each chunk
unfoldable pub check_output_limit : Collected → Collected
check_output_limit c =
    if leb max_output_bytes (length c.stdout + length c.stderr)
    then record c { is_output_limit = true }
    else c

unfoldable pub on_event : Event → Collected → Collected
unfolding check_output_limit
on_event (stdout_data chunk) c = check_output_limit (record c { stdout = c.stdout ++ chunk })
on_event (stderr_data chunk) c = check_output_limit (record c { stderr = c.stderr ++ chunk })
on_event timer_fired c = record c { is_timed_out = true }

unfoldable pub collect : List Event → Collected → Collected
collect [] c = c
collect (e ∷ es) c = collect es (on_event e c)

-- The whole output of a stream.
abbrev pub all_stdout : List Event → Text
all_stdout [] = []
all_stdout (stdout_data chunk ∷ es) = chunk ++ all_stdout es
all_stdout (stderr_data chunk ∷ es) = all_stdout es
all_stdout (timer_fired ∷ es) = all_stdout es

abbrev pub all_stderr : List Event → Text
all_stderr [] = []
all_stderr (stdout_data chunk ∷ es) = all_stderr es
all_stderr (stderr_data chunk ∷ es) = chunk ++ all_stderr es
all_stderr (timer_fired ∷ es) = all_stderr es

abbrev pub timed_out : List Event → Bool
timed_out [] = false
timed_out (stdout_data chunk ∷ es) = timed_out es
timed_out (stderr_data chunk ∷ es) = timed_out es
timed_out (timer_fired ∷ es) = true
