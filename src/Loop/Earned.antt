-- ===== src/Loop/Earned.antt =====
-- What a loop that drives a job promises: the fixed fields, the numbers of the steps, its limit, and
-- that a job which is done has earned it at the completion gate.
use gorchera.Base.{
  ℕ, suc, ◌+◌, ◌≤◌, ◌≡◌, refl, ◌∙◌, String, Bool, true, false, [], ◌∷◌, none, some, Option, arith,
}
use gorchera.Domain.{Job, SprintContract, EvaluatorReport}
use gorchera.Evaluator.{VerificationContract, validate_evaluator_report}
use gorchera.Provider.{raw, failure, Failure}
use gorchera.Evaluator.Stages.{IsComplete}
use gorchera.Service.{
  Env, Run, Act, ◌>>◌, resume_with, modify, add_event, touch, touched, clear_job_runtime_state,
  save, is_done,
}
use gorchera.Loop.{
  unsupported_phase, deterministic_evaluator_report, World, at_turn, unless_stopped, is_stopped,
}
use gorchera.Loop.Moves.{IsNumbered, Moves, Moves-refl, Keeps}
use gorchera.Base.{Bool-cases, inl, inr, if◌then◌else◌}

-- A job has the same steps and checks as another.
pub record Shows (a b : Job) : Type 0 where
  pub steps : b.steps ≡ a.steps
  pub checks : b.pre_check_results ≡ a.pre_check_results

pub record Leaves (m : Act) : Type 0 where
  pub shows : (r : Run) → Shows r.job (m r).0.job

pub Shows-trans : (a b c : Job) → Shows a b → Shows b c → Shows a c
Shows-trans a b c p q = record { steps = q.steps ∙ p.steps; checks = q.checks ∙ p.checks }

-- Where the report on a job comes from that the gate is given: the evaluator was called and its answer
-- decodes to it and is valid, or a call said that the phase is not supported, and the report is the one
-- that follows from the job's steps.
pub data Heard (w : World) (turn : ℕ) (job : Job) (verification : VerificationContract)
    (sprint : SprintContract) : EvaluatorReport → Type 0 where
  answered :
      (i : ℕ) (text : String) (into : EvaluatorReport)
      → w.call i 0 ≡ raw text
      → (w.decode_report text into).1 ≡ none
      → validate_evaluator_report (w.decode_report text into).0 ≡ none
      → Heard w turn job verification sprint (w.decode_report text into).0
  deduced :
      (i : ℕ) (f : Failure)
      → w.call i 0 ≡ failure f
      → unsupported_phase f ≡ true
      → Heard w turn job verification sprint
          (deterministic_evaluator_report (w.read_artifact turn) job verification sprint)

-- A job was evaluated with the steps and checks that it has, on the report that was heard, and all of
-- the gate's conditions held, with a sprint that asks for an implement step.
pub record Earned (w : World) (job : Job) : Type 0 where
  pub turn : ℕ
  pub evaluated : Job
  pub shows : Shows evaluated job
  pub verification : VerificationContract
  pub sprint : SprintContract
  pub report : EvaluatorReport
  pub required : sprint.required_step_types ≡ "implement" ∷ []
  pub threshold : sprint.threshold_success_count ≡ 1
  pub heard : Heard w turn evaluated verification sprint report
  pub complete : IsComplete (w.read_artifact turn) evaluated verification sprint report

pub Earned-Shows : (w : World) (a b : Job) → Shows a b → Earned w a → Earned w b
Earned-Shows w a b p e = record {
  turn = e.turn;
  evaluated = e.evaluated;
  shows = Shows-trans e.evaluated a b e.shows p;
  verification = e.verification;
  sprint = e.sprint;
  report = e.report;
  required = e.required;
  threshold = e.threshold;
  heard = e.heard;
  complete = e.complete;
}

resume_with-Shows :
    (a : Job) (act : Act)
    → Leaves act
    → (x : Run × Option String) → Shows a x.0.job
    → Shows a (resume_with act x).0.job
unfolding resume_with
resume_with-Shows a act h (r, none) p = Shows-trans a r.job _ p (h.shows r)
resume_with-Shows a act h (r, some e) p = p

infixl 5 ◌>>>>◌
pub ◌>>>>◌ : {m k : Act} → Leaves m → Leaves k → Leaves (m >> k)
◌>>>>◌ {m} {k} p q = record { shows = λ r. resume_with-Shows r.job k q (m r) (p.shows r) }

pub modify-Leaves : {f : Job → Job} → ((a : Job) → Shows a (f a)) → Leaves (modify f)
modify-Leaves h = record { shows = λ r. h r.job }

pub add_event-Leaves : (kind message : String) → Leaves (add_event kind message)
unfolding add_event
add_event-Leaves kind message = record { shows = λ r. record { steps = refl; checks = refl } }

pub touch-Leaves : Leaves touch
unfolding touch touched
touch-Leaves = record { shows = λ r. record { steps = ground arith; checks = ground arith } }

pub clear_job_runtime_state-Leaves : Leaves clear_job_runtime_state
unfolding clear_job_runtime_state
clear_job_runtime_state-Leaves = record { shows = λ r. record { steps = refl; checks = refl } }

pub save-Leaves : (env : Env) → Leaves (save env)
unfolding save
save-Leaves env = record { shows = λ r. record { steps = refl; checks = refl } }

pub if-Leaves : {a b : Act} (c : Bool) → Leaves a → Leaves b → Leaves (if c then a else b)
if-Leaves true p q = p
if-Leaves false p q = q

-- From one job to another: within the limit by one step, and done only if that is earned.
pub record Sound (w : World) (a b : Job) : Type 0 where
  pub fixed : b.config ≡ a.config
  pub limit : b.max_steps ≡ a.max_steps
  pub numbered : IsNumbered a → IsNumbered b
  pub within : b.current_step ≤ suc b.max_steps
  pub earned : is_done b.status ≡ true → Earned w b

-- What is left when `n` more steps may begin.
pub record Fits (n : ℕ) (a : Job) : Type 0 where
  pub room : a.current_step + n ≤ suc a.max_steps
  pub undone : is_done a.status ≡ false

pub record Runs (w : World) (n : ℕ) (m : Act) : Type 0 where
  pub sound : (r : Run) → Fits n r.job → Sound w r.job (m r).0.job

pub Moves-Sound : (w : World) (n : ℕ) (a b : Job) → Moves n a b → Fits n a → Sound w a b
Moves-Sound w n a b p f = record {
  fixed = p.fixed;
  limit = p.limit;
  numbered = p.numbered;
  within = omega (arith, p.count, p.limit, f.room);
  earned = λ d. absurd (ground (arith, d, p.undone f.undone));
}

pub Moves-Fits : (n m k : ℕ) (a b : Job) → n + m ≤ k → Moves n a b → Fits k a → Fits m b
Moves-Fits n m k a b h p f = record {
  room = omega (arith, h, p.count, p.limit, f.room);
  undone = p.undone f.undone;
}

pub Moves-then-Sound : (w : World) (n : ℕ) (a b c : Job) → Moves n a b → Sound w b c → Sound w a c
Moves-then-Sound w n a b c p q = record {
  fixed = q.fixed ∙ p.fixed;
  limit = q.limit ∙ p.limit;
  numbered = λ i. q.numbered (p.numbered i);
  within = q.within;
  earned = q.earned;
}

module _ (w : World) where
  pub Keeps-Runs : {n : ℕ} {m : Act} → Keeps n m → Runs w n m
  Keeps-Runs {n} h = record { sound = λ r f. Moves-Sound w n r.job _ (h.moves r) f }

  pub resume_with-Sound :
      (n m k : ℕ) (a : Job) (act : Act)
      → n + m ≤ k
      → Runs w m act
      → (x : Run × Option String) → Moves n a x.0.job
      → Fits k a
      → Sound w a (resume_with act x).0.job
  unfolding resume_with
  resume_with-Sound n m k a act h q (r, none) p f =
      Moves-then-Sound w n a r.job _ p (q.sound r (Moves-Fits n m k a r.job h p f))
  resume_with-Sound n m k a act h q (r, some e) p f =
      Moves-Sound w n a r.job p (record { room = omega (arith, h, f.room); undone = f.undone })

  pub then-Runs :
      {n m : ℕ} {a b : Act} (k : ℕ) → n + m ≤ k → Keeps n a → Runs w m b → Runs w k (a >> b)
  then-Runs {n} {m} {a} {b} k h p q = record {
    sound = λ r f. resume_with-Sound n m k r.job b h q (a r) (p.moves r) f;
  }

  pub if-Runs :
      {n : ℕ} {a b : Act} (c : Bool) → Runs w n a → Runs w n b → Runs w n (if c then a else b)
  if-Runs true p q = p
  if-Runs false p q = q

  pub if-Sound :
      (c : Bool) (a b : Act) (r : Run)
      → (c ≡ true → Sound w r.job (a r).0.job)
      → Sound w r.job (b r).0.job
      → Sound w r.job ((if c then a else b) r).0.job
  if-Sound true a b r p q = p refl
  if-Sound false a b r p q = q

  pub at_turn-Runs : {n : ℕ} {k : ℕ → Act} → ((i : ℕ) → Runs w n (k i)) → Runs w n (at_turn k)
  unfolding at_turn
  at_turn-Runs h = record { sound = λ r f. (h r.service.turn).sound _ f }

  pub unless_stopped-Runs : {n : ℕ} {k : Act} → Runs w n k → Runs w n (unless_stopped k)
  unfolding unless_stopped
  unless_stopped-Runs {n} h = record {
    sound = λ r f. elim (Bool-cases (is_stopped r.job.status)) [
      | inl e ↦ rw (e, unless_stopped) (Moves-Sound w n r.job r.job (Moves-refl n r.job) f)
      | inr e ↦ rw (e, unless_stopped) (h.sound r f)
    ];
  }
