-- ===== src/Tests/Fixtures.antt =====
-- A host with a sandbox in which every program prints 42, the request of a Python program, and a
-- submission of it that two test cases and one worker wait for.
use code_arena.Prelude.{
  ◌≡◌, ◌≢◌, refl, ap, subst, true, false, none, some, [], ◌∷◌, ◌++◌, Result, ok, err, Bool, List,
  arith,
}
use code_arena.Prelude.Text.{
  Text, codes, starts_with, text_eq, trim, trim_end, trim_start, is_space,
}
use code_arena.Prelude.Store.{find_one}
use code_arena.Prelude.Value.{decimal, Value, object, string, field, end}
use code_arena.Engine.Config.{Verdict, accepted}
use code_arena.Engine.Child.{Child, Event, stdout_data, spawned, close_event}
use code_arena.Engine.Workspace.{FileSystem}
use code_arena.Engine.Executor.{Host, ExecutionResult}
use code_arena.Engine.Executor.Workspaces.{MakesFresh}
use code_arena.Submissions.Model.{
  Submission, Status, queued, running, completed, TestCase, public, find_by_id,
}
use code_arena.Submissions.Execution.{World}
use code_arena.Submissions.Service.{User, Payload, Outside, Stores}
use code_arena.Submissions.Service.Laws.{IsFresh}
use code_arena.Worker.Process.{Env}

abbrev pub fs : FileSystem
fs = record {
  resolve = λ p. p;
  basename = λ p. codes "sbx-a";
  join = λ p q. p ++ (codes "/" ++ q);
  base_dir = codes "/w";
  tmp_dir = codes "/tmp";
  mkdtemp = λ p. ok (p ++ codes "a");
  chmod = λ p. ok tt;
  write_file = λ p s. ok tt;
  is_symbolic_link = λ p. ok false;
  unlink = λ p. ok tt;
  rm = λ p. ok tt;
}

abbrev pub dir : Text
dir = codes "/w/sbx-a"

abbrev pub printed : List Event
printed = stdout_data (codes "42\n") ∷ []

abbrev pub child : Child
child = spawned 0 printed (close_event (some 0) none 5_000_000)

abbrev pub host : Host
host = record {
  is_local_mode = false;
  docker_info = true;
  docker = λ args input timeout. child;
  spawn = λ path args cwd input timeout. child;
  compiler = λ name args cwd timeout. child;
  compile_container = codes "c";
  run_container = codes "r";
  image = codes "sandbox";
  fs = fs;
  to_upper = λ s. s;
  decimal = λ n. codes "0";
}

abbrev pub request : Value
request = object (
    field (codes "language") (string (codes "PYTHON")) (
      field (codes "sourceCode") (string (codes "print(42)")) (
        field (codes "testCase")
          (object (
            field (codes "input") (string [])
              (field (codes "expectedOutput") (string (codes "42")) end)))
          end)))

the_text : Result Text Text → Text
the_text (ok s) = s
the_text (err s) = []

fresh-dir :
    (d : Text)
    → dir ≡ d
    → (d ≢ [])
      × (fs.resolve d ≡ d)
      × (starts_with (fs.base_dir ++ codes "/") d ≡ true)
      × (starts_with (codes "sbx-") (fs.basename d) ≡ true)
      × (fs.is_symbolic_link d ≡ ok false)
unfolding starts_with
fresh-dir d e =
    subst
      (λ d'.
        (d' ≢ [])
        × (fs.resolve d' ≡ d')
        × (starts_with (fs.base_dir ++ codes "/") d' ≡ true)
        × (starts_with (codes "sbx-") (fs.basename d') ≡ true)
        × (fs.is_symbolic_link d' ≡ ok false))
      e ((λ q. absurd (ground arith)), refl, refl, refl, refl)

pub fs-MakesFresh : MakesFresh fs
unfolding the_text
fs-MakesFresh = record { fresh = λ d made. fresh-dir d (ap the_text made) }

abbrev pub result : ExecutionResult
result = record {
  verdict = accepted;
  stdout = codes "42\n";
  stderr = [];
  runtime_ms = some 5;
  compile_output = [];
}

abbrev pub test_case : Bool → TestCase
test_case active = record {
  id = codes "t";
  problem_id = codes "p";
  input = [];
  expected_output = codes "42";
  visibility = public;
  order = decimal false 0 0;
  is_active = active;
}

abbrev pub world : World
world = record {
  test_cases = test_case true ∷ test_case false ∷ test_case true ∷ [];
  sort_by_order = λ cases. cases;
  engine = λ n request. ok result;
  started = 11;
  ended = 12;
}

abbrev pub submission : Text → Status → Submission
submission id status = record {
  id = id;
  user_id = codes "u";
  problem_id = codes "p";
  language = codes "PYTHON";
  source_code = codes "print(42)";
  status = status;
  verdict = Verdict.pending;
  runtime_ms = none;
  memory_kb = none;
  tests_passed = none;
  total_tests = none;
  queued_at = some 10;
  started_at = none;
  completed_at = none;
  failed_at = none;
  error_message = none;
  execution = record { worker_id = none; started_at = none; completed_at = none };
}

abbrev pub submissions : List Submission
submissions =
    submission (codes "s") queued
    ∷ submission (codes "r") running
    ∷ submission (codes "c") completed
    ∷ []

abbrev pub env : Env
env = record {
  worker_id = codes "w";
  stale_timeout_ms = 60_000;
  claimed = 11;
  world = world;
  settled = 13;
  is_object_id = λ id. true;
}

abbrev pub user : User
user = record { id = codes "u"; role = codes "USER" }

abbrev pub payload : Payload
payload = record {
  problem_id = codes "p";
  language = codes "PYTHON";
  source_code = codes "print(42)";
}

abbrev pub outside : Outside
outside = record {
  new_id = codes "n";
  queued_at = 20;
  failed_at = 21;
  add = λ job queue. ok (job ∷ queue);
}

abbrev pub stores : Stores
stores = record {
  problems = record { id = codes "p"; is_active = true } ∷ [];
  test_cases = test_case true ∷ [];
  submissions = submissions;
  queue = [];
}

pub outside-IsFresh : IsFresh outside stores
unfolding find_by_id find_one text_eq trim trim_end trim_start is_space
outside-IsFresh = (refl, refl, refl)
