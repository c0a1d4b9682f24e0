-- ===== src/Engine/Child/Laws.antt =====
-- What is collected from a child, for every sequence of its events.
use code_arena.Prelude.{
  ◌+◌, ◌≡◌, refl, sym, ◌∙◌, true, false, List, [], ◌∷◌, ◌++◌, arith, length, length-append, leb,
}
use mathlib.Core.List.{append_assoc, append-nil}
use code_arena.Engine.Config.{max_output_bytes}
use code_arena.Engine.Child.{
  Event, stdout_data, stderr_data, timer_fired, Collected, nothing_yet, check_output_limit,
  on_event, collect, all_stdout, all_stderr, timed_out,
}

-- The flag says whether the output has reached the limit.
abbrev IsCounted : Collected → Type 0
IsCounted c = c.is_output_limit ≡ leb max_output_bytes (length c.stdout + length c.stderr)

on_event-IsCounted : (e : Event) (c : Collected) → IsCounted c → IsCounted (on_event e c)
unfolding on_event
on_event-IsCounted (stdout_data chunk) c h = ground (arith, length-append c.stdout chunk)
on_event-IsCounted (stderr_data chunk) c h = ground (arith, length-append c.stderr chunk)
on_event-IsCounted timer_fired c h = h

collect-IsCounted : (es : List Event) (c : Collected) → IsCounted c → IsCounted (collect es c)
unfolding collect
collect-IsCounted [] c h = h
collect-IsCounted (e ∷ es) c h = collect-IsCounted es (on_event e c) (on_event-IsCounted e c h)

stdout-check : (c : Collected) → (check_output_limit c).stdout ≡ c.stdout
unfolding check_output_limit
stdout-check c = ground arith

stderr-check : (c : Collected) → (check_output_limit c).stderr ≡ c.stderr
unfolding check_output_limit
stderr-check c = ground arith

timed_out-check : (c : Collected) → (check_output_limit c).is_timed_out ≡ c.is_timed_out
unfolding check_output_limit
timed_out-check c = ground arith

pub stdout-collect :
    (es : List Event) (c : Collected) → (collect es c).stdout ≡ c.stdout ++ all_stdout es
unfolding collect on_event
stdout-collect [] c = sym (append-nil c.stdout)
stdout-collect (stdout_data chunk ∷ es) c =
    stdout-collect es _ ∙ rw stdout-check (append_assoc c.stdout chunk (all_stdout es))
stdout-collect (stderr_data chunk ∷ es) c = stdout-collect es _ ∙ rw stdout-check
stdout-collect (timer_fired ∷ es) c = stdout-collect es _

pub stderr-collect :
    (es : List Event) (c : Collected) → (collect es c).stderr ≡ c.stderr ++ all_stderr es
unfolding collect on_event
stderr-collect [] c = sym (append-nil c.stderr)
stderr-collect (stderr_data chunk ∷ es) c =
    stderr-collect es _ ∙ rw stderr-check (append_assoc c.stderr chunk (all_stderr es))
stderr-collect (stdout_data chunk ∷ es) c = stderr-collect es _ ∙ rw stderr-check
stderr-collect (timer_fired ∷ es) c = stderr-collect es _

timed_out-stays :
    (es : List Event) (c : Collected) → c.is_timed_out ≡ true → (collect es c).is_timed_out ≡ true
unfolding collect on_event
timed_out-stays [] c h = h
timed_out-stays (stdout_data chunk ∷ es) c h = timed_out-stays es _ (timed_out-check _ ∙ h)
timed_out-stays (stderr_data chunk ∷ es) c h = timed_out-stays es _ (timed_out-check _ ∙ h)
timed_out-stays (timer_fired ∷ es) c h = timed_out-stays es _ refl

timed_out-collect :
    (es : List Event) (c : Collected)
    → c.is_timed_out ≡ false
    → (collect es c).is_timed_out ≡ timed_out es
unfolding collect on_event
timed_out-collect [] c h = h
timed_out-collect (stdout_data chunk ∷ es) c h = timed_out-collect es _ (timed_out-check _ ∙ h)
timed_out-collect (stderr_data chunk ∷ es) c h = timed_out-collect es _ (timed_out-check _ ∙ h)
timed_out-collect (timer_fired ∷ es) c h = timed_out-stays es _ refl

-- A runner has read each stream whole and in order, knows whether the timer fired, and has set
-- `isOutputLimit` exactly when both streams together reached the limit.
pub collect_lem :
    (es : List Event)
    → ((collect es nothing_yet).stdout ≡ all_stdout es)
      × ((collect es nothing_yet).stderr ≡ all_stderr es)
      × ((collect es nothing_yet).is_timed_out ≡ timed_out es)
      × ((collect es nothing_yet).is_output_limit
          ≡ leb max_output_bytes (length (all_stdout es) + length (all_stderr es)))
collect_lem es = (
  stdout-collect es nothing_yet,
  stderr-collect es nothing_yet,
  timed_out-collect es nothing_yet refl,
  rw (
    collect-IsCounted es nothing_yet refl,
    stdout-collect es nothing_yet,
    stderr-collect es nothing_yet,
  ),
)
