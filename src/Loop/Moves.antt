-- ===== src/Loop/Moves.antt =====
-- What a step of the service leaves of a job: what is fixed at creation, the numbers of its steps, its
-- limit, and whether it is done.
pub mod Checks
pub mod Worker
pub mod System
pub mod Fanout
use gorchera.Base.{
  ℕ, zero, suc, ◌+◌, ◌-◌, ◌≤◌, ◌≡◌, refl, sym, ap, ◌∙◌, ◌⊎◌, inl, inr, length, get_elem?, set,
  String, Bool, true, false, List, [], ◌∷◌, ◌++◌, Option, none, some, arith, Bool-cases,
  Option-cases, if◌then◌else◌,
}
use gorchera.Domain.{Job, JobStatus, Step, is_recoverable_job_status}
use gorchera.Service.{
  Env, Service, Run, Act, ◌>>◌, resume_with, done, fail_with, modify, add_event, touch, touched,
  clear_job_runtime_state, save, change_last, change_active_step, is_done,
  handle_chain_terminal_state,
}
use gorchera.Service.Ending.{after_state-job}
use gorchera.Base.Result.{Result, ok, err}
use gorchera.Provider.{
  Answer, raw, failure, ErrorAction, PhaseEnd, answered, gave_up, execute_from,
  execute_provider_phase, provider_retry_limit, provider_action_for_error, Failure, retry_message,
}
use gorchera.Loop.{
  World, at_turn, change_at, is_stopped, unless_stopped, on_result, on_error, on_end, phase,
}

-- The steps are numbered on from the first number, and the second is the last one's.
abbrev pub NumberedFrom : ℕ → List Step → ℕ → Type 0
NumberedFrom n [] m = n ≡ m
NumberedFrom n (s ∷ steps) m = (s.index ≡ suc n) × NumberedFrom (suc n) steps m

-- The steps of the job are numbered from 1 to its current step.
abbrev pub IsNumbered : Job → Type 0
IsNumbered job = NumberedFrom 0 job.steps job.current_step

-- A job becomes another in at most `n` further steps, and is not done unless it was.
pub record Moves (n : ℕ) (a b : Job) : Type 0 where
  pub fixed : b.config ≡ a.config
  pub limit : b.max_steps ≡ a.max_steps
  pub onward : a.current_step ≤ b.current_step
  pub count : b.current_step ≤ a.current_step + n
  pub numbered : IsNumbered a → IsNumbered b
  pub undone : is_done a.status ≡ false → is_done b.status ≡ false

-- A step that moves every job so.
pub record Keeps (n : ℕ) (m : Act) : Type 0 where
  pub moves : (r : Run) → Moves n r.job (m r).0.job

pub Moves-trans : (n m k : ℕ) (a b c : Job) → n + m ≤ k → Moves n a b → Moves m b c → Moves k a c
Moves-trans n m k a b c h p q = record {
  fixed = q.fixed ∙ p.fixed;
  limit = q.limit ∙ p.limit;
  onward = omega (arith, p.onward, q.onward);
  count = omega (arith, h, p.count, q.count);
  numbered = λ i. q.numbered (p.numbered i);
  undone = λ d. q.undone (p.undone d);
}

pub Moves-refl : (n : ℕ) (a : Job) → Moves n a a
Moves-refl n a = record {
  fixed = refl;
  limit = refl;
  onward = omega arith;
  count = omega arith;
  numbered = λ i. i;
  undone = λ d. d;
}

pub resume_with-Moves :
    (n m k : ℕ) (a : Job) (act : Act)
    → n + m ≤ k
    → Keeps m act
    → (x : Run × Option String) → Moves n a x.0.job
    → Moves k a (resume_with act x).0.job
unfolding resume_with
resume_with-Moves n m k a act h q (r, none) p = Moves-trans n m k a r.job _ h p (q.moves r)
resume_with-Moves n m k a act h q (r, some e) p =
    Moves-trans n 0 k a r.job _ (omega arith) p (Moves-refl 0 r.job)

-- Two steps one after the other.
pub then-Keeps :
    {n m : ℕ} {a b : Act} (k : ℕ) → n + m ≤ k → Keeps n a → Keeps m b → Keeps k (a >> b)
then-Keeps {n} {m} {a} {b} k h p q = record {
  moves = λ r. resume_with-Moves n m k r.job b h q (a r) (p.moves r);
}

infixl 5 ◌>>>◌
pub ◌>>>◌ : {n : ℕ} {a b : Act} → Keeps 0 a → Keeps n b → Keeps n (a >> b)
◌>>>◌ {n} p q = then-Keeps n (omega arith) p q

pub weaken : {n : ℕ} {a : Act} (m : ℕ) → n ≤ m → Keeps n a → Keeps m a
weaken {n} m h p = record {
  moves = λ r. Moves-trans n 0 m r.job _ _ (omega (arith, h)) (p.moves r) (Moves-refl 0 _);
}

pub if-Keeps : {n : ℕ} {a b : Act} (c : Bool) → Keeps n a → Keeps n b → Keeps n (if c then a else b)
if-Keeps true p q = p
if-Keeps false p q = q

pub at_turn-Keeps : {n : ℕ} {k : ℕ → Act} → ((i : ℕ) → Keeps n (k i)) → Keeps n (at_turn k)
unfolding at_turn
at_turn-Keeps h = record { moves = λ r. (h r.service.turn).moves _ }

-- A step that reads the run, and one that is told its turn, too.
pub reads-Keeps : {n : ℕ} (k : Run → Act) → ((r : Run) → Keeps n (k r)) → Keeps n (λ r. k r r)
reads-Keeps k h = record { moves = λ r. (h r).moves r }

pub turn-Keeps :
    {n : ℕ} (k : ℕ → Run → Act)
    → ((i : ℕ) (r : Run) → Keeps n (k i r))
    → Keeps n (at_turn (λ i r. k i r r))
turn-Keeps k h = at_turn-Keeps λ i. reads-Keeps (k i) (h i)

pub unless_stopped-Keeps : {n : ℕ} {k : Act} → Keeps n k → Keeps n (unless_stopped k)
unfolding unless_stopped
unless_stopped-Keeps {n} h = record {
  moves = λ r. elim (Bool-cases (is_stopped r.job.status)) [
    | inl e ↦ rw (e, unless_stopped) (Moves-refl n r.job)
    | inr e ↦ rw (e, unless_stopped) (h.moves r)
  ];
}

-- A change of other fields.
pub modify-Keeps : {f : Job → Job} → ((a : Job) → Moves 0 a (f a)) → Keeps 0 (modify f)
modify-Keeps h = record { moves = λ r. h r.job }

pub done-Keeps : {n : ℕ} → Keeps n done
done-Keeps {n} = record { moves = λ r. Moves-refl n r.job }

pub fail_with-Keeps : {n : ℕ} (e : String) → Keeps n (fail_with e)
fail_with-Keeps {n} e = record { moves = λ r. Moves-refl n r.job }

-- Where nothing of it changes but the steps and the status.
abbrev pub moved :
    (a b : Job)
    → b.config ≡ a.config
    → b.max_steps ≡ a.max_steps
    → b.current_step ≡ a.current_step
    → (IsNumbered a → IsNumbered b)
    → (is_done a.status ≡ false → is_done b.status ≡ false)
    → Moves 0 a b
moved a b c l s i d = record {
  fixed = c;
  limit = l;
  onward = omega (arith, s);
  count = omega (arith, s);
  numbered = i;
  undone = d;
}

-- The change leaves all of it as it is.
abbrev pub untouched :
    (a b : Job)
    → b.config ≡ a.config
    → b.max_steps ≡ a.max_steps
    → b.current_step ≡ a.current_step
    → b.steps ≡ a.steps
    → b.status ≡ a.status
    → Moves 0 a b
untouched a b c l s p t = moved a b c l s (λ i. rw (p, s) i) λ d. rw t d

pub add_event-Keeps : (kind message : String) → Keeps 0 (add_event kind message)
unfolding add_event
add_event-Keeps kind message = record { moves = λ r. untouched r.job _ refl refl refl refl refl }

touched-Moves : (s : Service) (job : Job) → Moves 0 job (touched s job)
unfolding touched
touched-Moves s job = elim (Bool-cases (is_recoverable_job_status job.status)) [
  | inl e ↦ rw e (untouched job _ refl refl refl refl refl)
  | inr e ↦ rw e (untouched job _ refl refl refl refl refl)
]

pub touch-Keeps : Keeps 0 touch
unfolding touch
touch-Keeps = record { moves = λ r. touched-Moves r.service r.job }

pub clear_job_runtime_state-Keeps : Keeps 0 clear_job_runtime_state
unfolding clear_job_runtime_state
clear_job_runtime_state-Keeps = record { moves = λ r. untouched r.job _ refl refl refl refl refl }

pub save-Keeps : (env : Env) → Keeps 0 (save env)
unfolding save
save-Keeps env = record { moves = λ r. untouched r.job _ refl refl refl refl refl }

pub handle_chain_terminal_state-Keeps : (env : Env) → Keeps 0 (handle_chain_terminal_state env)
handle_chain_terminal_state-Keeps env = record {
  moves = λ r. rw (after_state-job env r) (Moves-refl 0 r.job);
}

pub on_result-Keeps :
    {A : Type 0} {n : ℕ} {f : String → Act} {g : A → Act} (x : Result A)
    → ((e : String) → Keeps n (f e))
    → ((a : A) → Keeps n (g a))
    → Keeps n (on_result x f g)
unfolding on_result
on_result-Keeps (err e) p q = p e
on_result-Keeps (ok a) p q = q a

pub on_error-Keeps :
    {n : ℕ} {f : String → Act} {k : Act} (x : Option String)
    → ((e : String) → Keeps n (f e))
    → Keeps n k
    → Keeps n (on_error x f k)
unfolding on_error
on_error-Keeps (some e) p q = p e
on_error-Keeps none p q = q

Answer-cases : (a : Answer) → ((t : String) × (a ≡ raw t)) ⊎ ((f : Failure) × (a ≡ failure f))
Answer-cases (raw t) = inl (t, refl)
Answer-cases (failure f) = inr (f, refl)

ErrorAction-cases :
    (a : ErrorAction) → (a ≡ ErrorAction.retry) ⊎ ((a ≡ ErrorAction.block) ⊎ (a ≡ ErrorAction.fail))
ErrorAction-cases ErrorAction.retry = inl refl
ErrorAction-cases ErrorAction.block = inr (inl refl)
ErrorAction-cases ErrorAction.fail = inr (inr refl)

pub execute_from-Moves :
    (invoke : ℕ → Answer) (wait : ℕ → Option String) (print : ℕ → String) (name : String)
    (left i : ℕ) (r : Run)
    → Moves 0 r.job (execute_from invoke wait print name left i r).0.job
unfolding execute_from
execute_from-Moves invoke wait print name zero i r = elim (Answer-cases (invoke i)) [
  | inl (t, e) ↦ rw (e, execute_from) (Moves-refl 0 r.job)
  | inr (f, e) ↦ elim (ErrorAction-cases (provider_action_for_error f)) [
    | inl a ↦ rw (e, a, execute_from) (Moves-refl 0 r.job)
    | inr (inl a) ↦ rw (e, a, execute_from) (Moves-refl 0 r.job)
    | inr (inr a) ↦ rw (e, a, execute_from) (Moves-refl 0 r.job)
  ]
]
execute_from-Moves invoke wait print name (suc left) i r = elim (Answer-cases (invoke i)) [
  | inl (t, e) ↦ rw (e, execute_from) (Moves-refl 0 r.job)
  | inr (f, e) ↦ elim (ErrorAction-cases (provider_action_for_error f)) [
    | inr (inl a) ↦ rw (e, a, execute_from) (Moves-refl 0 r.job)
    | inr (inr a) ↦ rw (e, a, execute_from) (Moves-refl 0 r.job)
    | inl a ↦
        let told = (add_event "provider_retry" (retry_message invoke wait print name i f) r).0 in
        let noted = (add_event-Keeps "provider_retry" _).moves r in
        elim (Option-cases (wait i)) [
          | inr (text, b) ↦ rw (e, a, b, execute_from) noted
          | inl b ↦
              rw (e, a, b, execute_from)
                (Moves-trans 0 0 0 r.job told.job _ (omega arith) noted
                  (execute_from-Moves invoke wait print name left (suc i) told))
        ]
  ]
]

pub phase-Keeps :
    {n : ℕ} {k : ℕ → PhaseEnd → Act} (w : World) (name : String)
    → ((i : ℕ) (end : PhaseEnd) → Keeps n (k i end))
    → Keeps n (phase w name k)
unfolding phase at_turn execute_provider_phase
phase-Keeps {n} w name h = record {
  moves = λ r.
      let asked : Run = record r { service = record r.service { turn = suc r.service.turn } } in
      let i = r.service.turn in
      let x = execute_provider_phase (w.call i) (w.wait i) w.format_duration name asked in
      Moves-trans 0 n n r.job x.0.job _ (omega arith)
        (execute_from-Moves (w.call i) (w.wait i) w.format_duration name provider_retry_limit 0
          asked)
        ((h i x.1).moves x.0);
}

pub on_end-Keeps :
    {n : ℕ} {k : String → Act} {f : ErrorAction → String → Act} (end : PhaseEnd)
    → ((text : String) → Keeps n (k text))
    → ((action : ErrorAction) (text : String) → Keeps n (f action text))
    → Keeps n (on_end end k f)
unfolding on_end
on_end-Keeps (answered text) p q = p text
on_end-Keeps (gave_up action text) p q = q action text
