-- ===== src/Chain/Ops.antt =====
-- internal/orchestrator/service.go: what happens to the chains that are there, in any order.
use gorchera.Base.{String, List, [], ◌∷◌}
use gorchera.Domain.{Job}
use gorchera.Prepare.{Site}
use gorchera.Service.{Env, Service, handle_chain_terminal_state}
use gorchera.Chain.{pause_chain, cancel_chain}
use gorchera.Chain.Start.{handle_chain_completion, resume_chain, skip_chain_goal}

-- The four commands on a chain, and the two ways in which a job of a chain ends: it fails, is blocked
-- or is interrupted, or it is done.
pub data Op : Type 0 where
  pauses : String → Op
  cancels : String → String → Op
  resumes : String → Op
  skips : String → Op
  stops : Job → Op
  completes : Job → Op

module _ (env : Env) (site : Site) where
  unfoldable pub apply : Service → Op → Service
  apply s (pauses id) = (pause_chain env id s).0
  apply s (cancels id reason) = (cancel_chain env id reason s).0
  apply s (resumes id) = (resume_chain env site id s).0
  apply s (skips id) = (skip_chain_goal env site id s).0
  apply s (stops job) =
      (handle_chain_terminal_state env (record { service = s; job = job })).0.service
  apply s (completes job) =
      (handle_chain_completion env site (record { service = s; job = job })).0.service

  unfoldable pub run : Service → List Op → Service
  run s [] = s
  run s (op ∷ ops) = run (apply s op) ops
