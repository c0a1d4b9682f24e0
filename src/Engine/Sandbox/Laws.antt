-- ===== src/Engine/Sandbox/Laws.antt =====
-- What a successful run in the sandbox means, and how long its output can be.
use code_arena.Prelude.{
  ℕ, ◌+◌, ◌≤◌, ◌<◌, ◌≡◌, refl, ap, subst, ◌∙◌, true, false, Option, none, some, List, arith, ok,
  length, length-take,
}
use code_arena.Prelude.Text.{Text}
use code_arena.Engine.Config.{max_output_bytes, max_buffer_bytes}
use code_arena.Engine.Sanitizer.{sanitize_output, length-sanitize_output-le}
use code_arena.Engine.Child.{
  Event, Child, spawn_throws, spawned, close_event, error_event, nothing_yet, collect, all_stdout,
  all_stderr, timed_out,
}
use code_arena.Engine.Child.Laws.{collect_lem}
use code_arena.Engine.Sandbox.{RunResult, truncate, truncate_to, docker_close, await_docker}

-- The child ended by itself with exit code 0, in time and within the output limit.
pub record EndedWell (child : Child) (dir : Text) (r : RunResult) : Type 0 where
  pub start : ℕ
  pub events : List Event
  pub stop : ℕ
  pub ended : child ≡ spawned start events (close_event (some 0) none stop)
  pub in_time : timed_out events ≡ false
  pub within : length (all_stdout events) + length (all_stderr events) < max_output_bytes
  pub whole_stdout : r.stdout ≡ sanitize_output (all_stdout events) dir
  pub whole_stderr : r.stderr ≡ sanitize_output (all_stderr events) dir

truncate_to-short : (n : ℕ) (s : Text) → length s ≤ n → truncate_to n s ≡ s
unfolding truncate_to
truncate_to-short n s h = ground arith

truncate_to-le : (n : ℕ) (s : Text) → length (truncate_to n s) ≤ n
unfolding truncate_to
truncate_to-le n s = ground (arith, length-take n s)

truncate-short : (s : Text) → length s < max_output_bytes → truncate s ≡ s
unfolding truncate
truncate-short s h = truncate_to-short max_buffer_bytes s (omega arith)

truncate-le : (s : Text) → length (truncate s) ≤ max_buffer_bytes
unfolding truncate
truncate-le s = truncate_to-le max_buffer_bytes s

module _ (dir : Text) (start stop : ℕ) (events : List Event) where
  closed : Option ℕ → Option Text → RunResult
  closed code signal = docker_close dir start (collect events nothing_yet) code signal stop

  success-facts :
      (n : ℕ)
      → (closed (some n) none).success ≡ true
      → (n ≡ 0)
        × (timed_out events ≡ false)
        × (length (all_stdout events) + length (all_stderr events) < max_output_bytes)
  unfolding closed docker_close
  success-facts n h = ground (arith, collect_lem events)

  close-EndedWell :
      (code : Option ℕ) (signal : Option Text)
      → (closed code signal).success ≡ true
      → EndedWell (spawned start events (close_event code signal stop)) dir (closed code signal)
  unfolding closed docker_close
  close-EndedWell none signal h = cc
  close-EndedWell (some n) (some s) h = cc
  close-EndedWell (some n) none h =
      let (zero_exit, in_time, within) = success-facts n h in
      let (out, error, _, _) = collect_lem events in
      record {
        start = start;
        events = events;
        stop = stop;
        ended = rw zero_exit refl;
        in_time = in_time;
        within = within;
        whole_stdout = rw out (ap (λ s. sanitize_output s dir) (truncate-short _ (omega arith)));
        whole_stderr = rw error (ap (λ s. sanitize_output s dir) (truncate-short _ (omega arith)));
      }

-- A run that the sandbox reports as successful is a child that exited by itself with code 0, before
-- the timer and below the output limit, and its streams are those of the child from the first to the last
-- unit, with the path of the workspace replaced.
pub await_docker-EndedWell :
    (name dir : Text) (child : Child) (r : RunResult)
    → (await_docker name dir child).0 ≡ ok r
    → r.success ≡ true
    → EndedWell child dir r
unfolding await_docker
await_docker-EndedWell name dir (spawn_throws m) r e h = cc
await_docker-EndedWell name dir (spawned start es (error_event b m)) r e h = cc
await_docker-EndedWell name dir (spawned start es (close_event code signal stop)) r e h =
    let same : closed dir start stop es code signal ≡ r = unfold closed in cc in
    subst (EndedWell _ dir) same
      (close-EndedWell dir start stop es code signal (ap (λ (q : RunResult). q.success) same ∙ h))

-- Whatever the child prints, each stream of a result fits the buffer.
pub docker_close_bounds :
    (dir : Text) (start stop : ℕ) (events : List Event) (code : Option ℕ) (signal : Option Text)
    → let r = docker_close dir start (collect events nothing_yet) code signal stop in
      (length r.stdout ≤ max_buffer_bytes) × (length r.stderr ≤ max_buffer_bytes)
unfolding docker_close
docker_close_bounds dir start stop events code signal = (
  omega (
    arith,
    length-sanitize_output-le (truncate (collect events nothing_yet).stdout) dir,
    truncate-le (collect events nothing_yet).stdout,
  ),
  omega (
    arith,
    length-sanitize_output-le (truncate (collect events nothing_yet).stderr) dir,
    truncate-le (collect events nothing_yet).stderr,
  ),
)
