-- ===== src/Submissions/Execution/Laws.antt =====
-- The verdict of a submission against a specification on the verdicts of its test cases.
use code_arena.Prelude.{
  ℕ, suc, ◌+◌, ◌≤◌, ◌≡◌, refl, subst, ◌∙◌, ◌⊎◌, inl, inr, ◌&&◌, Option, some, List, [], ◌∷◌, arith,
  ok, if◌then◌else◌, get_or, length, ◌==◌,
}
use code_arena.Prelude.Text.{Text}
use code_arena.Engine.Config.{
  Verdict, pending, accepted, wrong_answer, compilation_error, runtime_error, time_limit_exceeded,
  memory_limit_exceeded, output_limit_exceeded,
}
use code_arena.Engine.Executor.{ExecutionResult}
use code_arena.Submissions.Model.{TestCase}
use code_arena.Submissions.Adapter.{execute_test_case}
use code_arena.Submissions.Execution.{
  Engine, Tally, finished, start_tally, step, run_tests, final_verdict, is_accepted,
}
use code_arena.Submissions.Execution.Deserved.{
  first_fatal, all_accepted, passed_before, deserved, stored,
}

zero_plus : (n : ℕ) → 0 + n ≡ n
zero_plus n = omega arith

add-suc-one : (a b : ℕ) → a + suc b ≡ a + 1 + b
add-suc-one a b = omega arith

module _ (engine : Engine) (language source_code : Text) where
  -- The engine answers the test cases, from the i-th call on, with these verdicts.
  abbrev pub Answers : ℕ → List TestCase → List Verdict → Type 0
  Answers i [] [] = Unit
  Answers i (tc ∷ cases) (v ∷ vs) =
      ((x : ExecutionResult) × (execute_test_case (engine i) language source_code tc.input
            tc.expected_output
          ≡ ok x)
        × (x.verdict ≡ v))
      × Answers (i + 1) cases vs
  Answers i _ _ = ⊥

  abbrev OpenVerdict : Tally → Type 0
  OpenVerdict t = (t.verdict ≡ accepted) ⊎ (t.verdict ≡ wrong_answer)

  module _ (i : ℕ) (tc : TestCase) (cases : List TestCase) (t : Tally) (x : ExecutionResult)
      (e : execute_test_case (engine i) language source_code tc.input tc.expected_output
        ≡ ok x) where
    -- The tally with the runtime of this test.
    timed : Verdict → ℕ → Tally
    timed v passed = record {
      passed = passed;
      runtime_ms = t.runtime_ms + get_or x.runtime_ms 0;
      verdict = v;
    }

    run-accepted :
        x.verdict ≡ accepted
        → run_tests engine language source_code i (tc ∷ cases) t
          ≡ run_tests engine language source_code (i + 1) cases (timed t.verdict (t.passed + 1))
    unfolding run_tests step timed
    run-accepted v = ground arith

    run-pending :
        x.verdict ≡ pending
        → run_tests engine language source_code i (tc ∷ cases) t
          ≡ run_tests engine language source_code (i + 1) cases (timed t.verdict t.passed)
    unfolding run_tests step timed
    run-pending v = ground arith

    run-wrong :
        x.verdict ≡ wrong_answer
        → OpenVerdict t
        → run_tests engine language source_code i (tc ∷ cases) t
          ≡ run_tests engine language source_code (i + 1) cases (timed wrong_answer t.passed)
    unfolding run_tests step timed
    run-wrong v o = ground arith

    abbrev Stops : Verdict → Verdict → Type 0
    Stops v stops =
        (total : ℕ)
        → x.verdict ≡ v
        → stored total (run_tests engine language source_code i (tc ∷ cases) t)
          ≡ some (stops, t.passed)

    run-not_compiled : Stops compilation_error compilation_error
    unfolding run_tests step
    run-not_compiled total v = ground arith

    run-timeout : Stops time_limit_exceeded time_limit_exceeded
    unfolding run_tests step final_verdict is_accepted
    run-timeout total v = ground arith

    run-memory : Stops memory_limit_exceeded memory_limit_exceeded
    unfolding run_tests step final_verdict is_accepted
    run-memory total v = ground arith

    run-output : Stops output_limit_exceeded runtime_error
    unfolding run_tests step final_verdict is_accepted
    run-output total v = ground arith

    run-crash : Stops runtime_error runtime_error
    unfolding run_tests step final_verdict is_accepted
    run-crash total v = ground arith

  -- The result of a run that has passed some of the tests before.
  expected : ℕ → Tally → List Verdict → Option (Verdict × ℕ)
  expected done t vs = some (
    get_or (first_fatal vs) (
        if is_accepted t.verdict && (t.passed == done && all_accepted vs)
        then accepted
        else wrong_answer),
    t.passed + passed_before vs,
  )

  stored-nil :
      (done : ℕ) (t : Tally) → OpenVerdict t → stored (done + 0) (finished t) ≡ expected done t []
  unfolding expected final_verdict is_accepted
  stored-nil done t o = ground arith

  stop-expected :
      (v : Verdict) (n : ℕ) → ◌≡◌ {A = Option (Verdict × ℕ)} (some (v, n)) (some (v, n + 0))
  stop-expected v n = ground arith

  expected-accepted :
      (done r : ℕ) (t : Tally) (vs : List Verdict)
      → expected
          (done + 1)
          (record { passed = t.passed + 1; runtime_ms = r; verdict = t.verdict })
          vs
        ≡ expected done t (accepted ∷ vs)
  unfolding expected
  expected-accepted done r t vs = ground arith

  expected-wrong :
      (done r : ℕ) (t : Tally) (vs : List Verdict)
      → expected
          (done + 1)
          (record { passed = t.passed; runtime_ms = r; verdict = wrong_answer })
          vs
        ≡ expected done t (wrong_answer ∷ vs)
  unfolding expected is_accepted
  expected-wrong done r t vs = ground arith

  expected-pending :
      (done r : ℕ) (t : Tally) (vs : List Verdict)
      → t.passed ≤ done
      → expected (done + 1) (record { passed = t.passed; runtime_ms = r; verdict = t.verdict }) vs
        ≡ expected done t (pending ∷ vs)
  unfolding expected
  expected-pending done r t vs p = ground arith

  expected-start :
      (vs : List Verdict) → expected 0 start_tally vs ≡ some (deserved vs, passed_before vs)
  unfolding expected is_accepted
  expected-start vs = ground arith

  run_tests-stored :
      (i done : ℕ) (cases : List TestCase) (vs : List Verdict) (t : Tally)
      → Answers i cases vs
      → OpenVerdict t
      → t.passed ≤ done
      → stored (done + length cases) (run_tests engine language source_code i cases t)
        ≡ expected done t vs
  unfolding timed
  run_tests-stored i done [] [] t a o p = unfold run_tests in stored-nil done t o
  run_tests-stored i done [] (v ∷ vs) t a o p = absurd a
  run_tests-stored i done (tc ∷ cases) [] t a o p = absurd a
  run_tests-stored i done (tc ∷ cases) (accepted ∷ vs) t ((x, e, v), a) o p =
      rw (run-accepted i tc cases t x e v, add-suc-one done (length cases))
        (run_tests-stored (i + 1) (done + 1) cases vs
            (timed i tc cases t x e t.verdict (t.passed + 1)) a o (omega arith)
          ∙ expected-accepted done _ t vs)
  run_tests-stored i done (tc ∷ cases) (wrong_answer ∷ vs) t ((x, e, v), a) o p =
      rw (run-wrong i tc cases t x e v o, add-suc-one done (length cases))
        (run_tests-stored (i + 1) (done + 1) cases vs (timed i tc cases t x e wrong_answer t.passed)
            a (inr refl) (omega arith)
          ∙ expected-wrong done _ t vs)
  run_tests-stored i done (tc ∷ cases) (pending ∷ vs) t ((x, e, v), a) o p =
      rw (run-pending i tc cases t x e v, add-suc-one done (length cases))
        (run_tests-stored (i + 1) (done + 1) cases vs (timed i tc cases t x e t.verdict t.passed) a
            o (omega arith)
          ∙ expected-pending done _ t vs p)
  run_tests-stored i done (tc ∷ cases) (compilation_error ∷ vs) t ((x, e, v), a) o p =
      run-not_compiled i tc cases t x e _ v ∙ unfold expected in stop-expected _ t.passed
  run_tests-stored i done (tc ∷ cases) (time_limit_exceeded ∷ vs) t ((x, e, v), a) o p =
      run-timeout i tc cases t x e _ v ∙ unfold expected in stop-expected _ t.passed
  run_tests-stored i done (tc ∷ cases) (memory_limit_exceeded ∷ vs) t ((x, e, v), a) o p =
      run-memory i tc cases t x e _ v ∙ unfold expected in stop-expected _ t.passed
  run_tests-stored i done (tc ∷ cases) (output_limit_exceeded ∷ vs) t ((x, e, v), a) o p =
      run-output i tc cases t x e _ v ∙ unfold expected in stop-expected _ t.passed
  run_tests-stored i done (tc ∷ cases) (runtime_error ∷ vs) t ((x, e, v), a) o p =
      run-crash i tc cases t x e _ v ∙ unfold expected in stop-expected _ t.passed

  -- If the engine answers every test case, the run stores the verdict that the answers deserve and
  -- the number of tests that passed before one stopped it.
  pub run_tests-deserved :
      (cases : List TestCase) (vs : List Verdict)
      → Answers 0 cases vs
      → stored (length cases) (run_tests engine language source_code 0 cases start_tally)
        ≡ some (deserved vs, passed_before vs)
  run_tests-deserved cases vs a =
      subst
        (λ n.
          stored n (run_tests engine language source_code 0 cases start_tally)
          ≡ expected 0 start_tally vs)
        (zero_plus (length cases))
        (run_tests-stored 0 0 cases vs start_tally a (inl refl) (omega arith))
      ∙ expected-start vs
