-- ===== src/Submissions/Execution/Writes.antt =====
-- What a run of submission-execution.service.js writes to the collection.
use code_arena.Prelude.{
  ℕ, ◌≡◌, refl, ap, ◌∙◌, ◌⊎◌, inl, inr, Option, some, List, arith, ok, err, Bool-cases, [], ◌∷◌,
  length,
}
use code_arena.Prelude.Text.{Text, one_of}
use code_arena.Prelude.Error.{Error}
use code_arena.Engine.Config.{supported_languages}
use code_arena.Submissions.Model.{
  Submission, running, completed, find_by_id, update_by_id, find-update, TestCase,
}
use code_arena.Submissions.Execution.{
  World, Ending, finished, not_compiled, threw, start_tally, run_tests, active_cases, finish,
  finish_not_compiled, reject_language, mark_running, Run, end_run, not_ready, run_cases,
  execute_submission,
}

-- The run returned and the document is completed, or it threw and the document is still this one.
abbrev pub Settles : Text → Submission → Run → Type 0
Settles id s r =
    ((o : Option Submission) × (d : Submission) × (r.0 ≡ ok o)
      × (find_by_id id r.1 ≡ some d)
      × (d.status ≡ completed))
    ⊎ ((e : Error) × (r.0 ≡ err e) × (find_by_id id r.1 ≡ some s))

module _ (w : World) (id : Text) (s : Submission) where
  end_run-Settles :
      (total : ℕ) (x : Ending) (db : List Submission)
      → find_by_id id db ≡ some s
      → Settles id s (end_run w id total x db)
  unfolding end_run finish finish_not_compiled
  end_run-Settles total (threw e) db f = inr (e, refl, f)
  end_run-Settles total (not_compiled passed) db f = inl (
    _,
    finish_not_compiled w.ended total passed s,
    refl,
    find-update id (finish_not_compiled w.ended total passed) db s f refl,
    refl,
  )
  end_run-Settles total (finished t) db f =
      inl (
        _,
        finish w.ended total t s,
        refl,
        find-update id (finish w.ended total t) db s f refl,
        refl,
      )

  mark_running-running : s.status ≡ running → mark_running w.started s ≡ s
  unfolding mark_running
  mark_running-running r = ground arith

  mark_running-id : (t : ℕ) → (mark_running t s).id ≡ s.id
  unfolding mark_running
  mark_running-id t = ground arith

  find-marked :
      (db : List Submission)
      → find_by_id id db ≡ some s
      → s.status ≡ running
      → find_by_id id (update_by_id id (mark_running w.started) db) ≡ some s
  find-marked db f r =
      find-update id (mark_running w.started) db s f (mark_running-id w.started)
      ∙ ap (λ x. some x) (mark_running-running r)

  run_cases-Settles :
      (cases : List TestCase) (db : List Submission)
      → find_by_id id db ≡ some s
      → s.status ≡ running
      → Settles id s (run_cases w id s cases db)
  unfolding run_cases
  run_cases-Settles [] db f r = inr (not_ready, refl, f)
  run_cases-Settles (tc ∷ cases) db f r =
      end_run-Settles (length (tc ∷ cases))
        (run_tests w.engine s.language s.source_code 0 (tc ∷ cases) start_tally)
        (update_by_id id (mark_running w.started) db) (find-marked db f r)

  -- A run of a submission that is stored as RUNNING either returns and has completed the document,
  -- or throws and has left the document as it was.
  pub execute_submission-Settles :
      (db : List Submission)
      → find_by_id id db ≡ some s
      → s.status ≡ running
      → Settles id s (execute_submission w id db)
  unfolding execute_submission reject_language
  execute_submission-Settles db f r = elim (Bool-cases (one_of s.language supported_languages)) [
    | inl known ↦ rw (f, execute_submission, known) (run_cases-Settles (active_cases w s) db f r)
    | inr other ↦
        rw (f, execute_submission, other)
          (inl (_, reject_language s, refl, find-update id reject_language db s f refl, refl))
  ]
