-- ===== src/Loop/Gate.antt =====
-- internal/orchestrator/evaluator.go: what follows on an evaluation is told that the job has earned
-- its end only when it has.
use gorchera.Base.{
  ℕ, zero, suc, subst, Bool, false, if◌then◌else◌, ◌≡◌, refl, inl, inr, length, ◌==◌, String, true,
  [], ◌∷◌, Option, none, some, arith, Bool-cases,
}
use gorchera.Base.Text.{◌is◌}
use gorchera.Base.Result.{Result, ok, err}
use gorchera.Domain.{Job, EvaluatorReport, SprintContract}
use gorchera.Evaluator.{
  VerificationContract, validate_evaluator_report, merge_evaluator_report,
  apply_evaluator_job_state,
}
use gorchera.Evaluator.Verdict.{merge_evaluator_report-passed_iff}
use gorchera.Planning.{build_sprint_contract}
use gorchera.Provider.{Answer, raw, failure, Failure}
use gorchera.Service.{Run, Act, ◌>>◌, resume_with, fail_with}
use gorchera.Loop.{
  World, on_answer, on_error, on_result, set_hint, EvaluatorEnd, reported, broken, reject_report,
  fail_report, retry_report, settle_report, run_evaluator_phase, with_report, record_report,
  tell_report, merge_report, absent, absent_report, end_evaluation, check_in, checks_of,
  run_automated_checks, evaluate_with, evaluate_completion, contract_for, sprint_of,
  schema_retry_max, no_report, deterministic_evaluator_report, workspace_of, at_turn, validated,
  unsupported_phase,
}
use gorchera.Loop.Moves.{
  Keeps, ◌>>>◌, Moves, Moves-refl, moved, untouched, modify-Keeps, add_event-Keeps, touch-Keeps,
  save-Keeps, if-Keeps, at_turn-Keeps, done-Keeps,
}
use gorchera.Loop.Moves.Worker.{set_hint-Keeps}
use gorchera.Loop.Stops.{fail_job-Keeps, interrupt_job-Keeps}
use gorchera.Loop.Earned.{
  Heard, answered, deduced, Earned, Earned-Shows, Shows, Leaves, ◌>>>>◌, modify-Leaves,
  add_event-Leaves, touch-Leaves, save-Leaves, if-Leaves, Sound, Fits, Runs, Moves-Sound,
  Moves-Fits, Moves-then-Sound, then-Runs, if-Runs, at_turn-Runs,
}

with_report-Moves :
    (report : EvaluatorReport) (path : String) (a : Job) → Moves 0 a (with_report report path a)
unfolding with_report apply_evaluator_job_state
with_report-Moves report path a = elim (Bool-cases (report.status is "failed")) [
  | inl e ↦ rw (e, apply_evaluator_job_state) (moved a _ refl refl refl (λ i. i) λ d. refl)
  | inr e ↦ elim (Bool-cases (report.status is "passed")) [
    | inl p ↦ rw (e, p, apply_evaluator_job_state) (untouched a _ refl refl refl refl refl)
    | inr p ↦ rw (e, p, apply_evaluator_job_state) (moved a _ refl refl refl (λ i. i) λ d. refl)
  ]
]

with_report-Shows :
    (report : EvaluatorReport) (path : String) (a : Job) → Shows a (with_report report path a)
unfolding with_report apply_evaluator_job_state
with_report-Shows report path a = record { steps = ground arith; checks = ground arith }

-- A sprint contract that asks for an implement step.
abbrev pub AsksImplement : SprintContract → Type 0
AsksImplement sprint =
    (sprint.required_step_types ≡ "implement" ∷ []) × (sprint.threshold_success_count ≡ 1)

module _ (w : World) where
  pub on_error-Runs :
      {n : ℕ} {f : String → Act} {k : Act} (x : Option String)
      → ((e : String) → Runs w n (f e))
      → Runs w n k
      → Runs w n (on_error x f k)
  unfolding on_error
  on_error-Runs (some e) p q = p e
  on_error-Runs none p q = q

  on_answer-Runs :
      {n : ℕ} {k : String → Act} {f : Failure → Act} (x : Answer)
      → ((text : String) → Runs w n (k text))
      → ((e : Failure) → Runs w n (f e))
      → Runs w n (on_answer x k f)
  unfolding on_answer
  on_answer-Runs (raw text) p q = p text
  on_answer-Runs (failure e) p q = q e

  -- What the evaluator's end says of the calls before it.
  abbrev Told : EvaluatorEnd → Type 0
  Told (reported report) =
      (i : ℕ) × (text : String) × (into : EvaluatorReport) × (w.call i 0 ≡ raw text)
      × ((w.decode_report text into).1 ≡ none)
      × (validate_evaluator_report (w.decode_report text into).0 ≡ none)
      × ((w.decode_report text into).0 ≡ report)
  Told (broken shut unsupported text) =
      unsupported ≡ true
      → (i : ℕ) × (f : Failure) × (w.call i 0 ≡ failure f) × (unsupported_phase f ≡ true)

  validated-told :
      (x : EvaluatorReport × Option String)
      → (validated x).1 ≡ none
      → (x.1 ≡ none) × (validate_evaluator_report x.0 ≡ none) × (x.0 ≡ (validated x).0)
  validated-told (report, none) h = (refl, h, refl)
  validated-told (report, some e) h = absurd (ground (arith, h))

  on_error-told :
      {n : ℕ} {f : String → Act} {k : Act} (x : Option String)
      → ((e : String) → Runs w n (f e))
      → (x ≡ none → Runs w n k)
      → Runs w n (on_error x f k)
  unfolding on_error
  on_error-told (some e) p q = p e
  on_error-told none p q = q refl

  if-told :
      {n : ℕ} {a b : Act} (c : Bool)
      → (c ≡ true → Runs w n a)
      → Runs w n b
      → Runs w n (if c then a else b)
  if-told true p q = p refl
  if-told false p q = q

  on_answer-told :
      {n : ℕ} {k : String → Act} {f : Failure → Act} (x : Answer)
      → ((text : String) → x ≡ raw text → Runs w n (k text))
      → ((e : Failure) → x ≡ failure e → Runs w n (f e))
      → Runs w n (on_answer x k f)
  unfolding on_answer
  on_answer-told (raw text) p q = p text refl
  on_answer-told (failure e) p q = q e refl

  record_report-Keeps :
      (report : EvaluatorReport) (path : String) → Keeps 0 (record_report w report path)
  unfolding record_report
  record_report-Keeps report path =
      modify-Keeps (with_report-Moves report path)
      >>> if-Keeps (report.status is "failed") (add_event-Keeps _ _)
          (if-Keeps (report.status is "passed") (add_event-Keeps _ _) (add_event-Keeps _ _))
      >>> touch-Keeps
      >>> save-Keeps w.env

  record_report-Leaves :
      (report : EvaluatorReport) (path : String) → Leaves (record_report w report path)
  unfolding record_report
  record_report-Leaves report path =
      modify-Leaves (with_report-Shows report path)
      >>>> if-Leaves (report.status is "failed") (add_event-Leaves _ _)
          (if-Leaves (report.status is "passed") (add_event-Leaves _ _) (add_event-Leaves _ _))
      >>>> touch-Leaves
      >>>> save-Leaves w.env

  -- What follows on a report is sound where a report that passes has been earned.
  module _ (n : ℕ) (k : EvaluatorReport → Act)
      (h : (report : EvaluatorReport) (r : Run)
        → (report.passed ≡ true → Earned w r.job)
        → Fits n r.job
        → Sound w r.job (k report r).0.job) where
    after_record-Sound :
        (report : EvaluatorReport) (a : Job) (x : Run × Option String)
        → Moves 0 a x.0.job
        → Shows a x.0.job
        → (report.passed ≡ true → Earned w a)
        → Fits n a
        → Sound w a (resume_with (k report) x).0.job
    unfolding resume_with
    after_record-Sound report a (r, some e) p q g f =
        Moves-Sound w 0 a r.job p (record { room = omega (arith, f.room); undone = f.undone })
    after_record-Sound report a (r, none) p q g f = Moves-then-Sound w 0 a r.job _ p (
        h report r (λ pass. Earned-Shows w a r.job q (g pass))
          (Moves-Fits 0 n n a r.job (omega arith) p f))

    after_write-Sound :
        (report : EvaluatorReport) (x : Result String) (r : Run)
        → (report.passed ≡ true → Earned w r.job)
        → Fits n r.job
        → Sound w r.job
            (on_result x fail_with (λ path. record_report w report path >> k report) r).0.job
    unfolding on_result
    after_write-Sound report (err e) r g f = Moves-Sound w n r.job r.job (Moves-refl n r.job) f
    after_write-Sound report (ok path) r g f =
        after_record-Sound report r.job (record_report w report path r)
          ((record_report-Keeps report path).moves r) ((record_report-Leaves report path).shows r) g
          f

    tell_report-Sound :
        (report : EvaluatorReport) (r : Run)
        → (report.passed ≡ true → Earned w r.job)
        → Fits n r.job
        → Sound w r.job (tell_report w report k r).0.job
    unfolding tell_report at_turn
    tell_report-Sound report r g f =
        after_write-Sound report (w.report_written r.service.turn report)
          (record r { service = record r.service { turn = suc r.service.turn } }) g f

    merge_report-Runs :
        (verification : VerificationContract) (provider : ℕ → Job → EvaluatorReport)
        (sprint : SprintContract)
        → AsksImplement sprint
        → ((i : ℕ) (job : Job) → Heard w i job verification sprint (provider i job))
        → Runs w n (merge_report w verification provider sprint k)
    unfolding merge_report at_turn
    merge_report-Runs verification provider sprint asks heard = record {
      sound = λ r f.
          let i = r.service.turn in
          let asked : Run = record r { service = record r.service { turn = suc i } } in
          let given = provider i r.job in
          tell_report-Sound
            (merge_evaluator_report (w.read_artifact i) w.format_score r.job verification sprint
              given)
            asked
            (λ pass. record {
              turn = i;
              evaluated = r.job;
              shows = record { steps = refl; checks = refl };
              verification = verification;
              sprint = sprint;
              report = given;
              required = asks.0;
              threshold = asks.1;
              heard = heard i r.job;
              complete =
                  (merge_evaluator_report-passed_iff (w.read_artifact i) w.format_score r.job
                      verification sprint given).0
                    pass;
            })
            f;
    }

    absent-Runs : (status : String) (reason : Run → String) → Runs w n (absent status reason k)
    unfolding absent
    absent-Runs status reason = record {
      sound = λ r f.
          h (absent_report status (reason r) r.job.sprint_contract_ref) r
            (λ pass. absurd (ground (arith, pass))) f;
    }

    end_evaluation-Runs :
        (verification : VerificationContract) (sprint : SprintContract) (end : EvaluatorEnd)
        → AsksImplement sprint
        → Told end
        → Runs w n (end_evaluation w verification sprint end k)
    unfolding end_evaluation
    end_evaluation-Runs verification sprint (reported report) asks
          (i, text, into, e, decoded, valid, same) =
        merge_report-Runs verification (λ j job. report) sprint asks
          λ j job.
            subst (Heard w j job verification sprint) same (answered i text into e decoded valid)
    end_evaluation-Runs verification sprint (broken shut unsupported text) asks told =
        if-Runs w shut (then-Runs w n (omega arith) (interrupt_job-Keeps w.env _) (absent-Runs _ _))
          (if-told unsupported
            (λ said.
              let (i, f, e, u) = told said in
              merge_report-Runs verification
                (λ j job.
                  deterministic_evaluator_report (w.read_artifact j) job verification sprint)
                sprint asks λ j job. deduced i f e u)
            (then-Runs w n (omega arith) (fail_job-Keeps w.env _) (absent-Runs _ _)))

  -- The phase itself, with what follows on its end.
  module _ (n : ℕ) (k : EvaluatorEnd → Act)
      (h : (end : EvaluatorEnd) → Told end → Runs w n (k end)) where
    abbrev hint-Runs : (end : EvaluatorEnd) → Told end → Runs w n (set_hint "" >> k end)
    hint-Runs end told = then-Runs w n (omega arith) (set_hint-Keeps "") (h end told)

    reject_report-Runs : (e : String) → Runs w n (reject_report w k e)
    unfolding reject_report
    reject_report-Runs e = hint-Runs _ λ p. absurd (ground (arith, p))

    fail_report-Runs :
        (i : ℕ) (f : Failure) → w.call i 0 ≡ failure f → Runs w n (fail_report w k i f)
    unfolding fail_report
    fail_report-Runs i f e = hint-Runs _ λ u. (i, f, e, u)

    retry_report-Runs :
        (left : ℕ) (again : String → Act)
        → ((i : ℕ) (text : String) → w.call i 0 ≡ raw text → Runs w n (again text))
        → (e : String) → Runs w n (retry_report w left again k e)
    unfolding retry_report
    retry_report-Runs left again g e =
        then-Runs w n (omega arith) (add_event-Keeps _ _ >>> set_hint-Keeps e)
          (at_turn-Runs w λ i. on_answer-told (w.call i 0) (g i) (fail_report-Runs i))

    decoded-Runs :
        (i : ℕ) (text : String) (into : EvaluatorReport)
        → w.call i 0 ≡ raw text
        → (validated (w.decode_report text into)).1 ≡ none
        → Runs w n (set_hint "" >> k (reported (validated (w.decode_report text into)).0))
    decoded-Runs i text into e fine =
        let (decoded, valid, same) = validated-told (w.decode_report text into) fine in
        hint-Runs _ (i, text, into, e, decoded, valid, same)

    settle_report-Runs :
        (i left : ℕ) (text : String) (into : EvaluatorReport)
        → w.call i 0 ≡ raw text
        → Runs w n (settle_report w left text into k)
    unfolding settle_report
    settle_report-Runs i zero text into e =
        on_error-told _ reject_report-Runs (decoded-Runs i text into e)
    settle_report-Runs i (suc left) text into e =
        on_error-told _
          (retry_report-Runs left _ λ i' text' e'. settle_report-Runs i' left text' _ e')
          (decoded-Runs i text into e)

    pub run_evaluator_phase-Runs : Runs w n (run_evaluator_phase w k)
    unfolding run_evaluator_phase
    run_evaluator_phase-Runs = at_turn-Runs w λ i.
        on_answer-told (w.call i 0)
          (λ text e. settle_report-Runs i schema_retry_max text no_report e)
          λ f e. h _ λ u. (i, f, e, u)

  run_automated_checks-Keeps : Keeps 0 (run_automated_checks w)
  unfolding run_automated_checks check_in
  run_automated_checks-Keeps = record {
    moves = λ r.
        (if-Keeps {b = at_turn (check_in w (workspace_of r.job r) (checks_of r.job))}
            (length (checks_of r.job) == 0) done-Keeps
            (at_turn-Keeps λ i. modify-Keeps λ a. untouched a _ refl refl refl refl refl)).moves
          r;
  }

  -- The evaluation of a completion, with what follows on its report.
  pub evaluate_completion-Runs :
      (n : ℕ) (k : EvaluatorReport → Act)
      → ((report : EvaluatorReport) (r : Run)
          → (report.passed ≡ true → Earned w r.job)
          → Fits n r.job
          → Sound w r.job (k report r).0.job)
      → Runs w n (evaluate_completion w k)
  unfolding evaluate_completion evaluate_with at_turn build_sprint_contract
  evaluate_completion-Runs n k h = record {
    sound = λ r f.
        let verification = contract_for w r.service.turn r.job in
        let sprint = sprint_of r.job in
        (then-Runs w n (omega arith) run_automated_checks-Keeps (
            run_evaluator_phase-Runs n (λ end. end_evaluation w verification sprint end k)
              λ end told.
                end_evaluation-Runs n k h verification sprint end (refl, refl) told)).sound
          (record r { service = record r.service { turn = suc r.service.turn } }) f;
  }
