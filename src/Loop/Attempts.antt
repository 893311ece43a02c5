-- ===== src/Loop/Attempts.antt =====
-- internal/orchestrator/skip_leader.go: the attempts of the loop without a leader.
use gorchera.Loop.Earned.{Earned}
