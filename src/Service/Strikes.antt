-- ===== src/Service/Strikes.antt =====
-- internal/orchestrator/service.go: how blocks with one reason are counted, and what the third does.
use gorchera.Base.{
  ℕ, suc, ◌≡◌, refl, ap, ◌∙◌, Bool, ◌&&◌, ◌||◌, not, some, leb, ◌+◌, ltb, String, true, false,
  Option, none, List, ◌∷◌, [], if◌then◌else◌, arith,
}
use gorchera.Base.Text.{◌is◌, is_blank, is_iff, ◌^^◌, has_suffix}
use mathlib.Core.List.{reverse, reverse-append}
use gorchera.Domain.{Job, JobStatus, Event, StructuredReason}
use gorchera.Service.State.{
  Env, Run, Service, add_event, event_at, touched, clear_job_runtime_state, resume_with,
}
use gorchera.Service.Stop.{
  blocked_event_reason, strikes_back, blocked_reason_strike_count, block_job_with_event, block_job,
  block_worker, block_step, change_last, sanitize_leader_context,
}
use gorchera.Service.Ending.{with_event, ending, ended, ending-job, fail_job-job}

strikes_back-cons :
    (env : Env) (e : Event) (reason : String) (events : List Event)
    → strikes_back env reason (e ∷ events) ≡ (
        if has_suffix e.kind "_blocked"
        then (if blocked_event_reason env e.message is reason
            then suc (strikes_back env reason events)
            else 1)
        else strikes_back env reason events)
unfolding strikes_back
strikes_back-cons env e reason events = ground arith

blocked_reason_strike_count-with_event :
    (env : Env) (job : Job) (e : Event) (reason : String)
    → blocked_reason_strike_count env (with_event e job) reason ≡ (
        if has_suffix e.kind "_blocked"
        then (if blocked_event_reason env e.message is reason
            then suc (blocked_reason_strike_count env job reason)
            else 1)
        else blocked_reason_strike_count env job reason)
unfolding blocked_reason_strike_count
blocked_reason_strike_count-with_event env job e reason =
    ap (strikes_back env reason) (reverse-append job.events (e ∷ []))
    ∙ strikes_back-cons env e reason (reverse job.events)

-- The events that tell of a block.
abbrev blocks_of : List Event → List Event
blocks_of [] = []
blocks_of (e ∷ events) =
    let rest = blocks_of events in if has_suffix e.kind "_blocked" then e ∷ rest else rest

-- The message is the reason, or the JSON of a reason that is not blank and is this one.
abbrev is_about : (String → Option String) → String → Event → Bool
is_about decode reason e = elim (decode e.message) [
  | none ↦ e.message is reason
  | some told ↦ (is_blank told && e.message is reason) || (not (is_blank told) && told is reason)
]

-- The number of events at the front that are about the reason.
abbrev leading : (String → Option String) → String → List Event → ℕ
leading decode reason [] = 0
leading decode reason (e ∷ events) =
    let rest = leading decode reason events in if is_about decode reason e then suc rest else 0

-- How many of the job's last blocks in a row had the reason.
abbrev pub repeated : Env → Job → String → ℕ
repeated env job reason = leading env.decode_reason reason (blocks_of (reverse job.events))

is_about-reason :
    (env : Env) (reason : String) (e : Event)
    → (blocked_event_reason env e.message is reason) ≡ is_about env.decode_reason reason e
unfolding blocked_event_reason
is_about-reason env reason e = ground arith

strikes_back-leading :
    (env : Env) (reason : String) (events : List Event)
    → strikes_back env reason events ≡ suc (leading env.decode_reason reason (blocks_of events))
unfolding strikes_back
strikes_back-leading env reason [] = refl
strikes_back-leading env reason (e ∷ events) =
    ground (arith, is_about-reason env reason e, strikes_back-leading env reason events)

-- The loop of blockedReasonStrikeCount, which walks back over the events and stops at a block with
-- another reason, counts one more than the job's last blocks in a row that had the reason: the events
-- that tell of no block are passed over, and an event's reason is its message or the reason that its
-- message is the JSON of.
pub blocked_reason_strike_count-repeated :
    (env : Env) (job : Job) (reason : String)
    → blocked_reason_strike_count env job reason ≡ suc (repeated env job reason)
unfolding blocked_reason_strike_count
blocked_reason_strike_count-repeated env job reason =
    strikes_back-leading env reason (reverse job.events)

-- blockJobWithEvent, whatever the store answers: where the job's last two blocks or more had the
-- reason, the job is failed and what it waited for is cleared; otherwise it is blocked with the
-- reason. In both cases the owner and the heartbeat are gone, and the last event tells the reason.
pub block_job_with_event-job :
    (env : Env) (kind reason : String) (r : Run)
    → (block_job_with_event env kind reason r).0.job ≡ (
        if leb 2 (repeated env r.job reason)
        then ended r.service "job_failed"
            ("blocked reason repeated 3 times: " ^^ reason)
            (record r.job {
              status = JobStatus.failed;
              failure_reason = "blocked reason repeated 3 times: " ^^ reason;
              pending_approval = none;
              blocked_reason = "";
            })
        else ended r.service kind reason (record r.job {
          status = JobStatus.blocked;
          blocked_reason = reason;
          failure_reason = "";
          leader_context_summary = sanitize_leader_context reason;
        }))
unfolding block_job_with_event ending resume_with clear_job_runtime_state
block_job_with_event-job env kind reason r =
    let failing = record r.job { pending_approval = none; blocked_reason = "" } in
    let blocked = record r.job {
      status = JobStatus.blocked;
      blocked_reason = reason;
      failure_reason = "";
      leader_context_summary = sanitize_leader_context reason;
    } in
    ground (
      arith,
      blocked_reason_strike_count-repeated env r.job reason,
      fail_job-job env ("blocked reason repeated 3 times: " ^^ reason) (record r { job = failing }),
      ending-job env kind reason (record r { job = blocked }) refl,
    )

-- The job that an early block leaves.
abbrev blocked_job : Service → String → Job → Job
blocked_job s reason job = ended s "job_blocked" reason (record job {
  status = JobStatus.blocked;
  blocked_reason = reason;
  failure_reason = "";
  leader_context_summary = sanitize_leader_context reason;
})

block_job-early :
    (env : Env) (reason : String) (r : Run)
    → leb 3 (blocked_reason_strike_count env r.job reason) ≡ false
    → (block_job env reason r).0.job ≡ blocked_job r.service reason r.job
unfolding block_job
block_job-early env reason r early =
    block_job_with_event-job env "job_blocked" reason r
    ∙ ground (arith, early, blocked_reason_strike_count-repeated env r.job reason)

block_job-status :
    (env : Env) (reason : String) (r : Run)
    → (block_job env reason r).0.job.status ≡ (
        if leb 3 (blocked_reason_strike_count env r.job reason)
        then JobStatus.failed
        else JobStatus.blocked)
unfolding block_job touched
block_job-status env reason r =
    ap (λ (job : Job). job.status) (block_job_with_event-job env "job_blocked" reason r)
    ∙ ground (arith, blocked_reason_strike_count-repeated env r.job reason)

-- What an early block adds to the count of its reason.
block_job-count :
    (env : Env) (reason : String) (r : Run)
    → blocked_event_reason env reason ≡ reason
    → leb 3 (blocked_reason_strike_count env r.job reason) ≡ false
    → blocked_reason_strike_count env (block_job env reason r).0.job reason
      ≡ suc (blocked_reason_strike_count env r.job reason)
unfolding touched blocked_reason_strike_count event_at has_suffix
block_job-count env reason r plain early =
    ap (λ job. blocked_reason_strike_count env job reason) (block_job-early env reason r early)
    ∙ blocked_reason_strike_count-with_event env r.job (event_at r.service.now "job_blocked" reason)
        reason
    ∙ ground (arith, plain, is_iff reason reason)

-- The run once the worker's event is told.
abbrev told :
    (String → Option StructuredReason → String) → String → Option StructuredReason → Run → Run
told encode reason structured r =
    (add_event "worker_blocked" (encode reason structured) (record r {
      job = record r.job { steps = change_last (block_step reason structured) r.job.steps };
    })).0

told-count :
    (env : Env) (encode : String → Option StructuredReason → String)
    (structured : Option StructuredReason) (r : Run) (reason : String)
    → blocked_event_reason env (encode reason structured) ≡ reason
    → blocked_reason_strike_count env (told encode reason structured r).job reason
      ≡ suc (blocked_reason_strike_count env r.job reason)
unfolding add_event blocked_reason_strike_count event_at has_suffix
told-count env encode structured r reason reads =
    blocked_reason_strike_count-with_event env r.job
      (event_at r.service.now "worker_blocked" (encode reason structured)) reason
    ∙ ground (arith, reads, is_iff reason reason)

-- A block that a worker reports counts twice, once for its own event and once for the job's: with two
-- earlier counts it fails the job, and with fewer the count goes up by two. So the second worker's
-- block with one reason fails the job, though the text tells of three. The event's JSON reads back,
-- and the reason itself is no such JSON.
pub block_worker-twice :
    (env : Env) (encode : String → Option StructuredReason → String)
    (structured : Option StructuredReason) (r : Run) (reason : String)
    → blocked_event_reason env (encode reason structured) ≡ reason
    → blocked_event_reason env reason ≡ reason
    → ((block_worker env encode reason structured r).0.job.status ≡ (
        if leb 2 (blocked_reason_strike_count env r.job reason)
        then JobStatus.failed
        else JobStatus.blocked))
      × (ltb (blocked_reason_strike_count env r.job reason) 2 ≡ true
          → blocked_reason_strike_count env
              (block_worker env encode reason structured r).0.job
              reason
            ≡ 2 + blocked_reason_strike_count env r.job reason)
unfolding block_worker resume_with add_event
block_worker-twice env encode structured r reason reads plain =
    let r' = told encode reason structured r in
    let counted = told-count env encode structured r reason reads in
    (
      block_job-status env reason r' ∙ ground (arith, counted),
      λ few.
          block_job-count env reason r' plain (ground (arith, counted, few))
          ∙ ground (arith, counted),
    )
