-- ===== src/Loop/Quiet.antt =====
-- internal/orchestrator/service.go: the parts of a step that start no command.
use gorchera.Base.{
  ℕ, suc, ◌≡◌, refl, ◌∙◌, inl, inr, String, Bool, true, false, List, [], ◌∷◌, Option, none, some,
  arith, Bool-cases, if◌then◌else◌, leb,
}
use gorchera.Base.Text.{◌is◌, first_non_empty, trim_space}
use gorchera.Base.Result.{Result, ok, err}
use gorchera.Allowlist.{Request}
use gorchera.Domain.{Job, JobStatus, LeaderOutput, is_recoverable_job_status}
use gorchera.Service.{
  Env, Run, Act, ◌>>◌, resume_with, done, modify, add_event, touch, save, save_job, write_file,
  clear_job_runtime_state, cache_update, notify, handle_chain_terminal_state, save_chain, fail_job,
  block_job_with_event, interrupt_job, blocked_reason_strike_count, interrupt_step,
  change_active_step, sanitize_leader_context,
}
use gorchera.Loop.{
  World, RunEnd, at_turn, on_result, on_error, now_modify, begin_step, hold_system, finish_system,
  system_failed, system_succeeded, system_refused, end_system, report_system, write_result,
  after_system, is_such,
}

-- The step starts no command.
pub record Starts (m : Act) : Type 0 where
  pub same : (r : Run) → (m r).0.service.ran ≡ r.service.ran

resume_with-ran :
    (act : Act) (old : List Request)
    → Starts act
    → (x : Run × Option String) → x.0.service.ran ≡ old
    → (resume_with act x).0.service.ran ≡ old
unfolding resume_with
resume_with-ran act old h (r, none) p = h.same r ∙ p
resume_with-ran act old h (r, some e) p = p

infixl 5 ◌>>>◌
◌>>>◌ : {a b : Act} → Starts a → Starts b → Starts (a >> b)
◌>>>◌ {a} {b} p q = record { same = λ r. resume_with-ran b r.service.ran q (a r) (p.same r) }

if-Starts : {a b : Act} (c : Bool) → Starts a → Starts b → Starts (if c then a else b)
if-Starts true p q = p
if-Starts false p q = q

now_modify-Starts : (f : ℕ → Job → Job) → Starts (now_modify f)
now_modify-Starts f = record { same = λ r. refl }

modify-Starts : (f : Job → Job) → Starts (modify f)
modify-Starts f = record { same = λ r. refl }

done-Starts : Starts done
done-Starts = record { same = λ r. refl }

add_event-Starts : (kind message : String) → Starts (add_event kind message)
unfolding add_event cache_update notify
add_event-Starts kind message = record { same = λ r. ground arith }

touch-Starts : Starts touch
unfolding touch cache_update
touch-Starts = record { same = λ r. ground arith }

clear-Starts : Starts clear_job_runtime_state
unfolding clear_job_runtime_state
clear-Starts = record { same = λ r. ground arith }

save-Starts : (env : Env) → Starts (save env)
unfolding save save_job write_file
save-Starts env = record { same = λ r. ground arith }

chain-Starts : (env : Env) → Starts (handle_chain_terminal_state env)
unfolding handle_chain_terminal_state save_chain write_file
chain-Starts env = record { same = λ r. ground arith }

on_result-Starts :
    {A : Type 0} {f : String → Act} {g : A → Act} (x : Result A)
    → ((e : String) → Starts (f e))
    → ((a : A) → Starts (g a))
    → Starts (on_result x f g)
unfolding on_result
on_result-Starts (err e) p q = p e
on_result-Starts (ok a) p q = q a

on_error-Starts :
    {f : String → Act} {k : Act} (x : Option String)
    → ((e : String) → Starts (f e))
    → Starts k
    → Starts (on_error x f k)
unfolding on_error
on_error-Starts (some e) p q = p e
on_error-Starts none p q = q

pub fail_job-Starts : (env : Env) (reason : String) → Starts (fail_job env reason)
unfolding fail_job
fail_job-Starts env reason =
    modify-Starts _
    >>> clear-Starts
    >>> add_event-Starts _ _
    >>> touch-Starts
    >>> save-Starts env
    >>> chain-Starts env

block-Starts : (env : Env) (kind reason : String) → Starts (block_job_with_event env kind reason)
unfolding block_job_with_event
block-Starts env kind reason = record {
  same = λ r. elim (Bool-cases (leb 3 (blocked_reason_strike_count env r.job reason))) [
    | inl e ↦
        rw (e, block_job_with_event)
          ((modify-Starts (λ job. record job { pending_approval = none; blocked_reason = "" })
              >>> fail_job-Starts env _).same
            r)
    | inr e ↦
        rw (e, block_job_with_event)
          ((modify-Starts (λ job. record job {
            status = JobStatus.blocked;
            blocked_reason = reason;
            failure_reason = "";
            leader_context_summary = sanitize_leader_context reason;
          })
              >>> clear-Starts
              >>> add_event-Starts _ _
              >>> touch-Starts
              >>> save-Starts env
              >>> chain-Starts env).same
            r)
  ];
}

interrupt-Starts : (env : Env) (reason : String) → Starts (interrupt_job env reason)
unfolding interrupt_job interrupt_step
interrupt-Starts env text = record {
  same = λ r. elim (Bool-cases (is_recoverable_job_status r.job.status)) [
    | inr e ↦ rw (e, interrupt_job) refl
    | inl e ↦
        let reason =
          first_non_empty (trim_space text ∷ "job interrupted by orchestrator shutdown" ∷ []) in
        rw (e, interrupt_job)
          ((modify-Starts (λ job. record job {
            steps = change_active_step (interrupt_step env r.service.now reason) job.steps;
            status = JobStatus.blocked;
            blocked_reason = reason;
            failure_reason = "";
            pending_approval = none;
            leader_context_summary = sanitize_leader_context reason;
          })
              >>> clear-Starts
              >>> add_event-Starts _ _
              >>> touch-Starts
              >>> save-Starts env
              >>> chain-Starts env).same
            r)
  ];
}

module _ (w : World) where
  pub begin_step-Starts :
      (kind : String) (leader : LeaderOutput) → Starts (begin_step w kind leader)
  unfolding begin_step
  begin_step-Starts kind leader =
      now_modify-Starts _ >>> add_event-Starts _ _ >>> touch-Starts >>> save-Starts w.env

  pub hold_system-Starts :
      (reason : String) (leader : LeaderOutput) → Starts (hold_system w reason leader)
  unfolding hold_system
  hold_system-Starts reason leader = now_modify-Starts _ >>> block-Starts w.env _ reason

  finish_system-Starts : (summary : String) → Starts (finish_system w summary)
  unfolding finish_system
  finish_system-Starts summary = modify-Starts _ >>> touch-Starts >>> save-Starts w.env

  end_system-Starts : (end : RunEnd) → Starts (end_system w end)
  unfolding end_system system_refused system_failed system_succeeded
  end_system-Starts end =
      on_error-Starts end.error
        (λ e.
          if-Starts end.not_allowed (modify-Starts _ >>> block-Starts w.env _ e)
            (modify-Starts _ >>> add_event-Starts _ _ >>> finish_system-Starts _))
        (modify-Starts _ >>> add_event-Starts _ _ >>> finish_system-Starts _)

  report_system-Starts : (end : RunEnd) (paths : List String) → Starts (report_system w end paths)
  unfolding report_system
  report_system-Starts end paths = now_modify-Starts _ >>> end_system-Starts end

  write_result-Starts : (end : RunEnd) (i index : ℕ) → Starts (write_result w end i index)
  unfolding write_result
  write_result-Starts end i index =
      if-Starts (end.result.command is "") (report_system-Starts end [])
        (on_result-Starts _ (λ e. fail_job-Starts w.env _) (report_system-Starts end))

  pub after_system-Starts : (i : ℕ) (end : RunEnd) → Starts (after_system w i end)
  unfolding after_system at_turn
  after_system-Starts i end =
      if-Starts (is_such w w.shut_down i end) (interrupt-Starts w.env _) (record {
        same = λ r.
            (write_result-Starts end r.service.turn r.job.current_step).same
              (record r { service = record r.service { turn = suc r.service.turn } });
      })
