-- ===== src/Examples/Chains.antt =====
-- A cancelled chain beside a running one.
use gorchera.Base.{◌≡◌, refl, List, [], ◌∷◌, arith}
use gorchera.Base.Text.{is_iff, is_blank}
use gorchera.Base.Result.{ok}
use gorchera.Base.Dict.{get, String_eq}
use gorchera.Domain.{JobChain, JobStatus, ChainStatus}
use gorchera.Chain.{interrupted, workdir_of, fail_open_goal}
use gorchera.Service.{
  load_job, save_job, save, add_event, touch, resume_with, cache_update, notify, Service,
  load_chain, save_chain, validate_id, write_file,
}
use gorchera.Chain.{
  replied, cancel_chain, cancelled_chain, with_open_chain, cancel_interrupted,
  interrupt_chain_goal_job, replied_with,
}
use gorchera.Chain.Ops.{Op, pauses, cancels, resumes, skips, stops, completes, run}
use gorchera.Chain.Start.{advance_chain}
use gorchera.Chain.Advance.{Advances, advance_chain-Advances}
use gorchera.Chain.Closed.{IsKeyed, IsFinal, run-IsFinal}
use gorchera.Chain.Cancel.{IsCancellation, chain_cancel_text, cancel_chain-IsCancellation}
use gorchera.Examples.Samples.{env, service, chain, goal, running}
use gorchera.Examples.Worlds.{site}

abbrev stopped : JobChain
stopped = record chain { id = "chain-2"; status = ChainStatus.cancelled }

abbrev two_chains : Service
two_chains = record service { chains = ("chain-1", chain) ∷ ("chain-2", stopped) ∷ [] }

keyed : IsKeyed two_chains
unfolding get
keyed id c h = ground (arith, h, is_iff "chain-1" id, is_iff "chain-2" id)

final : IsFinal "chain-2" stopped two_chains
unfolding get
final = record { stored = refl; closed = refl; keyed = keyed }

-- The closed chain is paused, resumed and skipped, and the job of the first one is done and fails.
abbrev later : List Op
later =
    pauses "chain-2"
    ∷ completes running
    ∷ resumes "chain-2"
    ∷ skips "chain-1"
    ∷ stops running
    ∷ cancels "chain-2" ""
    ∷ cancels "chain-1" ""
    ∷ []

run-IsFinal_example : IsFinal "chain-2" stopped (run env site two_chains later)
run-IsFinal_example = run-IsFinal env site "chain-2" stopped two_chains later final

-- A running chain whose first goal has a job that runs.
abbrev live_chain : JobChain
live_chain = record chain { goals = goal ∷ [] }

abbrev one_chain : Service
one_chain = record service { chains = ("chain-1", live_chain) ∷ []; jobs = ("job-1", running) ∷ [] }

one-IsKeyed : IsKeyed one_chain
unfolding get
one-IsKeyed id c h = ground (arith, h, is_iff "chain-1" id)

cancelled : (cancel_chain env "chain-1" "" one_chain).1 ≡ replied (cancelled_chain 9 live_chain)
unfolding cancel_chain with_open_chain load_chain validate_id get cancel_interrupted
    interrupt_chain_goal_job replied_with save_chain write_file is_blank interrupted workdir_of
    load_job save_job save add_event touch resume_with cache_update notify fail_open_goal
cancelled = refl

cancel_chain-IsCancellation_example :
    (chain : JobChain) × (load_chain env "chain-1" one_chain ≡ ok chain)
    × IsCancellation env
        (chain_cancel_text "")
        chain
        (cancelled_chain 9 live_chain)
        one_chain
        (cancel_chain env "chain-1" "" one_chain).0
cancel_chain-IsCancellation_example =
    cancel_chain-IsCancellation env "chain-1" "" one_chain (cancelled_chain 9 live_chain)
      one-IsKeyed cancelled

-- The first goal's job of the chain is done.
abbrev one_over : Service
one_over = record service { jobs = ("job-1", record running { status = JobStatus.done }) ∷ [] }

advance_chain-Advances_example :
    Advances env chain one_over (advance_chain env site chain one_over).0
advance_chain-Advances_example = advance_chain-Advances env site chain one_over
