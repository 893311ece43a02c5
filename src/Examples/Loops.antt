-- ===== src/Examples/Loops.antt =====
-- The loops and their steps on runs of a job: with a leader that says at once that the job is complete,
-- without one, and with a system step or two workers.
use gorchera.Base.{suc, ◌≡◌, ◌≤◌, ◌⊎◌, refl, arith, false, [], none}
use gorchera.Loop.{
  begin_step, claim_job_run, run_loop, run_system_step_with_approval, run_worker_step,
}
use gorchera.Service.{done}
use gorchera.Loop.Turns.{rounds_of, leader_loop-steps}
use gorchera.Loop.Started.{StartsPermitted, run_system_step-Started}
use gorchera.Loop.Moves.{Keeps, IsNumbered}
use gorchera.Loop.Moves.Fanout.{run_worker_step-Keeps}
use gorchera.Loop.Earned.{Earned}
use gorchera.Loop.Closing.{IsTidy, run_loop-IsTidy}
use gorchera.Examples.Samples.{run, running, service}
use gorchera.Examples.Worlds.{world, fan_out, search}

leader_loop-steps_example :
    ((rounds_of world 3 (run running)).0.job.config ≡ running.config)
    × ((rounds_of world 3 (run running)).0.job.max_steps ≡ 8)
    × (IsNumbered running → IsNumbered (rounds_of world 3 (run running)).0.job)
    × ((rounds_of world 3 (run running)).0.job.current_step
        ≤ suc (rounds_of world 3 (run running)).0.job.max_steps)
leader_loop-steps_example = leader_loop-steps world 3 (run running) (omega arith) refl

run_system_step-Started_example :
    StartsPermitted world search false
      (begin_step world "system_requested" search (run running)).0
      []
      (run_system_step_with_approval world search false (run running)).0.service.ran
run_system_step-Started_example = run_system_step-Started world search false (run running)

run_worker_step-Keeps_example : Keeps 2 (run_worker_step world fan_out)
run_worker_step-Keeps_example = run_worker_step-Keeps world fan_out

run_loop-IsTidy_example :
    ((claim_job_run "job-1" service ≡ none)
      × ((run_loop world (λ st. done) 2 (run running)).0.service ≡ service))
    ⊎ IsTidy (run_loop world (λ st. done) 2 (run running)).0
run_loop-IsTidy_example = run_loop-IsTidy world (λ st. done) 2 (run running)
