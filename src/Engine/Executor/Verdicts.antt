-- ===== src/Engine/Executor/Verdicts.antt =====
-- When `execute` gives which verdict.
use code_arena.Prelude.{
  ℕ, ◌≡◌, ◌≢◌, refl, ap, ◌∙◌, ◌↔◌, inl, inr, Bool, true, false, Option, none, some, List, [], arith,
  Result, ok, err, get_or, Result-cases, Bool-cases,
}
use code_arena.Prelude.Text.{Text}
use code_arena.Prelude.Value.{Value}
use code_arena.Engine.Config.{
  accepted, wrong_answer, runtime_error, time_limit_exceeded, memory_limit_exceeded,
  output_limit_exceeded, EngineError, LanguageConfig, resolve_language, execution_timeout_ms,
}
use code_arena.Engine.Output.{normalize_output}
use code_arena.Engine.Output.Laws.{evaluate_output_iff, evaluate_output_cases}
use code_arena.Engine.Sandbox.{
  RunResult, check_docker_available, docker_args, await_docker, run_in_docker_sandbox,
}
use code_arena.Engine.Sandbox.Laws.{EndedWell, await_docker-EndedWell}
use code_arena.Engine.Workspace.{create_workspace, write_source_file}
use code_arena.Engine.Compiler.{CompileResult}
use code_arena.Engine.Executor.Validation.{Request, validate_execution_request}
use code_arena.Engine.Executor.{
  ExecutionResult, Host, judge_run, failed_compilation, compile, run, judge, after_compile,
  in_workspace, with_workspace, launch, execute_valid, execute,
}

-- The verdict on a program that has run: the limits come first, in this order, then a failed exit,
-- and only then the comparison of the normal forms; no other verdict is given.
pub judge_run_verdict :
    (decimal : Option ℕ → Text) (r : RunResult) (expected : Text)
    → let v = (judge_run decimal r expected).verdict in
      (r.is_timed_out ≡ true → v ≡ time_limit_exceeded)
      × (r.is_timed_out ≡ false → r.is_oom ≡ true → v ≡ memory_limit_exceeded)
      × (r.is_timed_out ≡ false
          → r.is_oom ≡ false
          → r.is_output_limit ≡ true
          → v ≡ output_limit_exceeded)
      × (r.is_timed_out ≡ false
          → r.is_oom ≡ false
          → r.is_output_limit ≡ false
          → r.success ≡ false
          → v ≡ runtime_error)
      × ((v ≡ accepted) ↔ (
          (r.is_timed_out ≡ false)
          × (r.is_oom ≡ false)
          × (r.is_output_limit ≡ false)
          × (r.success ≡ true)
          × (normalize_output r.stdout ≡ normalize_output expected)))
      × ((v ≡ wrong_answer) ↔ (
          (r.is_timed_out ≡ false)
          × (r.is_oom ≡ false)
          × (r.is_output_limit ≡ false)
          × (r.success ≡ true)
          × (normalize_output r.stdout ≢ normalize_output expected)))
unfolding judge_run
judge_run_verdict decimal r expected =
    let (acc, wrong) = evaluate_output_iff r.stdout expected in
    let cases = evaluate_output_cases r.stdout expected in grind arith

-- What `execute` has done when it returns a result.
record Ran (h : Host) (cache : Option Bool) (request : Value) (x : ExecutionResult) : Type 0 where
  req : Request
  config : LanguageConfig
  dir : Text
  validated : validate_execution_request request ≡ ok req
  resolved : resolve_language h.to_upper req.language ≡ ok config
  made : (create_workspace h.fs).1 ≡ ok dir
  ran : (in_workspace h dir config req).0 ≡ ok x

module _ (h : Host) (cache : Option Bool) (request : Value) (x : ExecutionResult) where
  with_workspace-ok :
      (c : Option Bool) (config : LanguageConfig) (req : Request) (w : List Text × Result Text Text)
      → (with_workspace h c config req w).outcome ≡ ok x
      → (dir : Text) × (w.1 ≡ ok dir) × ((in_workspace h dir config req).0 ≡ ok x)
  unfolding with_workspace
  with_workspace-ok c config req (created, err e) p = cc
  with_workspace-ok c config req (created, ok dir) p = (dir, refl, p)

  launch-ok :
      (config : LanguageConfig) (req : Request)
      → (launch h cache config req).outcome ≡ ok x
      → (dir : Text) × ((create_workspace h.fs).1 ≡ ok dir)
        × ((in_workspace h dir config req).0 ≡ ok x)
  unfolding launch
  launch-ok config req p = elim (Bool-cases h.is_local_mode) [
    | inl l ↦ with_workspace-ok cache config req (create_workspace h.fs) (ground arith)
    | inr d ↦ elim (Bool-cases (check_docker_available cache h.docker_info).0) [
      | inl l ↦
          with_workspace-ok (check_docker_available cache h.docker_info).1 config req
            (create_workspace h.fs) (ground arith)
      | inr l ↦ absurd (ground arith)
    ]
  ]

  execute-Ran : (execute h cache request).outcome ≡ ok x → Ran h cache request x
  unfolding execute execute_valid
  execute-Ran p = elim (Result-cases (validate_execution_request request)) [
    | inr (e, bad) ↦ let q = rw (bad, execute) at p in cc
    | inl (req, good) ↦ elim (Result-cases (resolve_language h.to_upper req.language)) [
      | inr (e, bad) ↦ let q = rw (good, execute, bad, execute_valid) at p in cc
      | inl (config, found) ↦
          let (dir, made, ran) =
            launch-ok config req (rw (good, execute, found, execute_valid) at p) in
          record {
            req = req;
            config = config;
            dir = dir;
            validated = good;
            resolved = found;
            made = made;
            ran = ran;
          }
    ]
  ]

  judge-ok :
      (expected : Text) (m : Result EngineError RunResult × List Text)
      → (judge h expected m).0 ≡ ok x
      → (r : RunResult) × (m.0 ≡ ok r) × (judge_run h.decimal r expected ≡ x)
  unfolding judge
  judge-ok expected (err e, gone) p = cc
  judge-ok expected (ok r, gone) p = (r, refl, cc)

  after_compile-accepted :
      (dir : Text) (config : LanguageConfig) (req : Request)
      (c : Result EngineError (Option CompileResult) × List Text)
      → (after_compile h dir config req c).0 ≡ ok x
      → x.verdict ≡ accepted
      → (r : RunResult) × ((run h dir config (get_or req.input [])).0 ≡ ok r)
        × (judge_run h.decimal r req.expected_output ≡ x)
  unfolding after_compile failed_compilation
  after_compile-accepted dir config req (err e, gone) p v = cc
  after_compile-accepted dir config req (ok none, gone) p v = judge-ok req.expected_output _ p
  after_compile-accepted dir config req (ok (some c), gone) p v = elim (Bool-cases c.success) [
    | inl good ↦
        judge-ok req.expected_output (run h dir config (get_or req.input [])) (ground arith)
    | inr bad ↦ absurd (ground arith)
  ]

  in_workspace-accepted :
      (dir : Text) (config : LanguageConfig) (req : Request)
      → (in_workspace h dir config req).0 ≡ ok x
      → x.verdict ≡ accepted
      → (r : RunResult) × ((run h dir config (get_or req.input [])).0 ≡ ok r)
        × (judge_run h.decimal r req.expected_output ≡ x)
  unfolding in_workspace
  in_workspace-accepted dir config req p v =
      elim (Result-cases (write_source_file h.fs dir config.source_filename req.source_code)) [
        | inr (e, bad) ↦ let q = rw (bad, in_workspace) at p in cc
        | inl (u, good) ↦
            after_compile-accepted dir config req (compile h dir config)
              (rw (good, in_workspace) at p) v
      ]

run-docker :
    (h : Host) (dir : Text) (config : LanguageConfig) (input : Text) (r : RunResult)
    → h.is_local_mode ≡ false
    → (run h dir config input).0 ≡ ok r
    → (await_docker h.run_container dir (
        h.docker
          (docker_args h.run_container h.image dir config.command config.args)
          input
          execution_timeout_ms)).0
      ≡ ok r
unfolding run run_in_docker_sandbox
run-docker h dir config input r docker p = ground arith

-- The run behind an accepted verdict, in the sandbox.
pub record AcceptedRun (h : Host) (request : Value) : Type 0 where
  pub req : Request
  pub config : LanguageConfig
  pub dir : Text
  pub result : RunResult
  pub validated : validate_execution_request request ≡ ok req
  pub resolved : resolve_language h.to_upper req.language ≡ ok config
  pub ended :
      EndedWell
        (h.docker
          (docker_args h.run_container h.image dir config.command config.args)
          (get_or req.input [])
          execution_timeout_ms)
        dir
        result
  pub matched : normalize_output result.stdout ≡ normalize_output req.expected_output

-- With the sandbox, ACCEPTED is given only to a program that ran in the container with the
-- request's input, exited by itself with code 0 before the timer and below the output limit, and
-- whose whole output, with the path of the workspace replaced, has the normal form of the expected output.
pub execute-AcceptedRun :
    (h : Host) (cache : Option Bool) (request : Value) (x : ExecutionResult)
    → h.is_local_mode ≡ false
    → (execute h cache request).outcome ≡ ok x
    → x.verdict ≡ accepted
    → AcceptedRun h request
execute-AcceptedRun h cache request x docker p v =
    let g : Ran h cache request x = execute-Ran h cache request x p in
    let (r, result, judged) =
      in_workspace-accepted h cache request x g.dir g.config g.req g.ran v in
    let judged_accepted : (judge_run h.decimal r g.req.expected_output).verdict ≡ accepted =
      ap (λ (y : ExecutionResult). y.verdict) judged ∙ v in
    let (_, _, _, success, same) =
      (judge_run_verdict h.decimal r g.req.expected_output).4.0 judged_accepted in
    record {
      req = g.req;
      config = g.config;
      dir = g.dir;
      result = r;
      validated = g.validated;
      resolved = g.resolved;
      ended =
          (await_docker-EndedWell h.run_container g.dir _ r
            (run-docker h g.dir g.config (get_or g.req.input []) r docker result) success);
      matched = same;
    }
