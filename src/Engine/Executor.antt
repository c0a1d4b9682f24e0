-- ===== src/Engine/Executor.antt =====
-- execution-engine/src/executor/execution.service.js
pub mod Validation
pub mod Workspaces
pub mod Verdicts
use code_arena.Engine.Executor.Validation.{Request, validate_execution_request}
use code_arena.Prelude.{
  ℕ, Bool, true, false, ◌&&◌, not, Option, none, some, List, [], ◌∷◌, ◌++◌, Result, ok, err,
  if◌then◌else◌, is_nil, get_or,
}
use code_arena.Prelude.Text.{Text, codes}
use code_arena.Prelude.Value.{Value}
use code_arena.Engine.Config.{
  Verdict, accepted, wrong_answer, compilation_error, runtime_error, time_limit_exceeded,
  memory_limit_exceeded, output_limit_exceeded, EngineError, node_error, LanguageConfig,
  compile_timeout_ms, execution_timeout_ms, resolve_language,
}
use code_arena.Engine.Output.{evaluate_output}
use code_arena.Engine.Child.{Child}
use code_arena.Engine.Sandbox.{
  RunResult, check_docker_available, docker_missing, Docker, run_in_docker_sandbox,
}
use code_arena.Engine.Process.{Spawn, run_process}
use code_arena.Engine.Compiler.{CompileResult, compile_cpp}
use code_arena.Engine.Workspace.{
  FileSystem, Cleanup, create_workspace, write_source_file, cleanup_workspace,
}

pub record ExecutionResult : Type 0 where
  pub verdict : Verdict
  pub stdout : Text
  pub stderr : Text
  pub runtime_ms : Option ℕ
  pub compile_output : Text

-- What `execute` finds outside the process: the environment, docker, the other programs, files.
pub record Host : Type 0 where
  pub is_local_mode : Bool
  pub docker_info : Bool
  pub docker : Docker
  pub spawn : Spawn
  pub compiler : Text → List Text → Text → ℕ → Child
  -- the random names of the two containers, and the image
  pub compile_container : Text
  pub run_container : Text
  pub image : Text
  pub fs : FileSystem
  pub to_upper : Text → Text
  pub decimal : Option ℕ → Text

-- How a call ends, and what it has done on the way.
pub record Executed : Type 0 where
  pub outcome : Result EngineError ExecutionResult
  pub created : List Text
  pub cleanups : List Cleanup
  pub removals_started : List Text
  pub docker_cache : Option Bool

-- `a || b` on strings
abbrev pub or_text : Text → Text → Text
or_text a b = if is_nil a then b else a

unfoldable pub to_compile_result : RunResult → CompileResult
to_compile_result r = record {
  success = r.success;
  exit_code = r.exit_code;
  signal = r.signal;
  stdout = r.stdout;
  stderr = r.stderr;
  is_timed_out = r.is_timed_out;
}

-- steps 8 to 13: the verdict on a program that has run
unfoldable pub judge_run : (Option ℕ → Text) → RunResult → Text → ExecutionResult
judge_run decimal r expected =
    let failed = λ (v : Verdict) (message : Text).
      let e : ExecutionResult = record {
        verdict = v;
        stdout = r.stdout;
        stderr = or_text r.stderr message;
        runtime_ms = some r.runtime_ms;
        compile_output = [];
      } in
      e in
    if r.is_timed_out
    then failed time_limit_exceeded (codes "Time limit exceeded")
    else if r.is_oom
    then failed memory_limit_exceeded (codes "Memory limit exceeded")
    else if r.is_output_limit
    then failed output_limit_exceeded
        (codes "Output limit exceeded: program generated excessive stdout/stderr")
    else if not r.success
    then failed runtime_error (elim r.signal [
      | some s ↦ codes "Process terminated by signal: " ++ s
      | none ↦ codes "Process exited with code " ++ decimal r.exit_code
    ])
    else record {
      verdict = (evaluate_output r.stdout expected).verdict;
      stdout = r.stdout;
      stderr = r.stderr;
      runtime_ms = some r.runtime_ms;
      compile_output = [];
    }

unfoldable pub failed_compilation : CompileResult → ExecutionResult
failed_compilation c = record {
  verdict = compilation_error;
  stdout = [];
  stderr = c.stderr;
  runtime_ms = none;
  compile_output = c.stderr;
}

module _ (h : Host) where
  open h use {
    is_local_mode, docker, spawn, compiler, compile_container, run_container, image, fs, decimal,
  }

  -- step 6; `none` where the language is not compiled
  unfoldable pub compile :
      Text → LanguageConfig → Result EngineError (Option CompileResult) × List Text
  compile dir config =
      let name = get_or config.compiler [] in
      if not config.is_compiled
      then (ok none, [])
      else if is_local_mode
      then (
        elim (compile_cpp decimal name dir
            (compiler name config.compile_args dir compile_timeout_ms)) [
              | ok c ↦ ok (some c)
              | err e ↦ err e
            ],
        [],
      )
      else let (result, gone) =
          run_in_docker_sandbox docker true compile_container image dir name config.compile_args []
            compile_timeout_ms in
        (elim result [ ok r ↦ ok (some (to_compile_result r)) | err e ↦ err e ], gone)

  -- step 7
  unfoldable pub run : Text → LanguageConfig → Text → Result EngineError RunResult × List Text
  run dir config input =
      if is_local_mode
      then (run_process fs.join spawn dir config.command config.args input, [])
      else run_in_docker_sandbox docker true run_container image dir config.command config.args
          input execution_timeout_ms

  unfoldable pub judge :
      Text
      → Result EngineError RunResult × List Text
      → Result EngineError ExecutionResult × List Text
  judge expected (err e, gone) = (err e, gone)
  judge expected (ok r, gone) = (ok (judge_run decimal r expected), gone)

  -- steps 7 to 13, behind the compilation's result
  unfoldable pub after_compile :
      Text
      → LanguageConfig
      → Request
      → Result EngineError (Option CompileResult) × List Text
      → Result EngineError ExecutionResult × List Text
  after_compile dir config req (err e, gone) = (err e, gone)
  after_compile dir config req (ok none, gone) =
      judge req.expected_output (run dir config (get_or req.input []))
  after_compile dir config req (ok (some c), gone) =
      if not c.success
      then (ok (failed_compilation c), gone)
      else let (result, gone') = judge req.expected_output (run dir config (get_or req.input [])) in
        (result, gone ++ gone')

  -- steps 5 to 13
  unfoldable pub in_workspace :
      Text → LanguageConfig → Request → Result EngineError ExecutionResult × List Text
  in_workspace dir config req =
      elim (write_source_file fs dir config.source_filename req.source_code) [
        | err e ↦ (err (node_error e), [])
        | ok u ↦ after_compile dir config req (compile dir config)
      ]

  -- steps 4 to 14: the `try` with its `finally`
  unfoldable pub with_workspace :
      Option Bool → LanguageConfig → Request → List Text × Result Text Text → Executed
  with_workspace cache config req (created, err e) = record {
    outcome = err (node_error e);
    created = created;
    cleanups = [];
    removals_started = [];
    docker_cache = cache;
  }
  with_workspace cache config req (created, ok dir) =
      let (result, gone) = in_workspace dir config req in
      record {
        outcome = result;
        created = created;
        cleanups = cleanup_workspace fs dir ∷ [];
        removals_started = gone;
        docker_cache = cache;
      }

abbrev pub refused : EngineError → Option Bool → Executed
refused e cache = record {
  outcome = err e;
  created = [];
  cleanups = [];
  removals_started = [];
  docker_cache = cache;
}

-- step 3. The second look at docker, inside the runner, finds the cache filled.
unfoldable pub launch : Host → Option Bool → LanguageConfig → Request → Executed
launch h cache config req =
    if h.is_local_mode
    then with_workspace h cache config req (create_workspace h.fs)
    else let (available, cache') = check_docker_available cache h.docker_info in
      if available
      then with_workspace h cache' config req (create_workspace h.fs)
      else refused docker_missing cache'

-- step 2
unfoldable pub execute_valid : Host → Option Bool → Request → Executed
execute_valid h cache req = elim (resolve_language h.to_upper req.language) [
  | err e ↦ refused e cache
  | ok config ↦ launch h cache config req
]

-- `execute`, with the cache of `checkDockerAvailable`
unfoldable pub execute : Host → Option Bool → Value → Executed
execute h cache request = elim (validate_execution_request request) [
  | err e ↦ refused e cache
  | ok req ↦ execute_valid h cache req
]
