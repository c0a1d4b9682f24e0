-- ===== src/Tests/Engine.antt =====
-- The engine's theorems on one request.
use code_arena.Prelude.{◌≡◌, refl, true, false, none, some, Result, ok, inl, List}
use code_arena.Tests.Fixtures.{fs, dir, printed, child, host, request, result}
use code_arena.Prelude.Text.{
  Text, codes, starts_with, text_eq, one_of, trim, is_space, utf8_length, includes, split, trim_end,
  join,
}
use code_arena.Prelude.Value.{get}
use code_arena.Engine.Child.{Event, collect, on_event, nothing_yet}
use code_arena.Engine.Sandbox.Laws.{EndedWell, await_docker-EndedWell}
use code_arena.Engine.Workspace.Laws.{IsOwned, cleanup_workspace-IsOwned}
use code_arena.Engine.Sanitizer.{sanitize_output}
use code_arena.Engine.Workspace.{create_workspace, write_source_file, cleanup_workspace, called_rm}
use code_arena.Engine.Sandbox.{
  check_docker_available, run_in_docker_sandbox, await_docker, docker_close, detect_oom, truncate,
  RunResult,
}
use code_arena.Engine.Executor.Validation.{validate_execution_request}
use code_arena.Engine.Config.{resolve_language, language_configs}
use code_arena.Engine.Output.{normalize_output, evaluate_output, replace_crlf, replace_cr}
use code_arena.Engine.Executor.{
  execute, execute_valid, launch, with_workspace, in_workspace, after_compile, compile, run, judge,
  judge_run,
}
use code_arena.Engine.Executor.Verdicts.{AcceptedRun, execute-AcceptedRun}

execute-request : (execute host none request).outcome ≡ ok result
unfolding execute execute_valid launch with_workspace in_workspace after_compile compile run judge
    judge_run resolve_language text_eq one_of trim is_space language_configs get utf8_length
    starts_with create_workspace write_source_file run_in_docker_sandbox check_docker_available
    await_docker docker_close detect_oom includes truncate sanitize_output collect on_event
    evaluate_output normalize_output replace_crlf replace_cr split trim_end join
    validate_execution_request
execute-request = refl

abbrev closed : List Event → RunResult
closed events = docker_close dir 0 (collect events nothing_yet) (some 0) none 5_000_000

closed-await : (await_docker (codes "r") dir child).0 ≡ ok (closed printed)
unfolding await_docker
closed-await = refl

closed-success : (closed printed).success ≡ true
unfolding docker_close detect_oom includes starts_with truncate sanitize_output collect on_event
closed-success = refl

removed-dir : cleanup_workspace fs dir ≡ called_rm dir (ok tt)
unfolding cleanup_workspace starts_with
removed-dir = refl

execute-AcceptedRun_example : AcceptedRun host request
execute-AcceptedRun_example = execute-AcceptedRun host none request result refl execute-request refl

await_docker-EndedWell_example : EndedWell child dir (closed printed)
await_docker-EndedWell_example =
    await_docker-EndedWell (codes "r") dir child (closed printed) closed-await closed-success

cleanup_workspace-IsOwned_example :
    (dir ≡ fs.resolve dir)
    × IsOwned fs dir
    × ((r : Result Text (Unit {0}))
        → cleanup_workspace fs dir ≡ called_rm dir r
        → fs.is_symbolic_link dir ≡ ok false)
cleanup_workspace-IsOwned_example = cleanup_workspace-IsOwned fs dir dir (ok tt, inl removed-dir)
