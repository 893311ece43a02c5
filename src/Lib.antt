-- ===== src/Lib.antt =====
-- A model of the orchestrator: the program that lets a leader, workers and an evaluator, each a call
-- of a language model, carry a goal through steps, and that owns what becomes of the job.
--
-- The parts and the files:
-- Base: texts, lists, association lists and results, as the Go library's functions are used.
-- Domain: internal/domain/types.go. Status has the enumerations, Records the structs, Roles the
-- profiles of the roles, Levels the normalisation of the modes.
-- Policy: internal/policy/policy.go, the gate that decides which system action runs without an
-- operator. `evaluate` is `Policy.Evaluate`, `validate` is `Request.Validate`.
-- Allowlist: internal/runtime/policy.go, the executables of each category. `allows` is
-- `Policy.Allows`, `allow` is `Policy.Allow`.
-- Schema: internal/schema/validate.go, the validators of the messages that models write. A
-- validator that changes its message returns it with the error.
-- Parallel: the planning half of internal/orchestrator/parallel.go. An accepted leader message goes
-- from Schema to `build_worker_plans`, which is `buildWorkerPlans`. Disjoint, Validated and Bounds are
-- about it.
-- Harness: the ownership of harness processes in internal/orchestrator/service.go:
-- `trackHarnessHandle`, `ownsHarness`, `claimHarness`, `releaseHarnessClaim`, `jobHarnessPIDs`.
-- Each runs under one mutex, so an interleaving is a list of `Op`.
-- Evaluator: internal/orchestrator/evaluator.go and verification.go, the gate behind "complete".
-- Coverage and Evidence are what the rules look at, Merge is `mergeEvaluatorReport` with what the
-- job's state becomes, Score, Shown, Stages and Verdict are about them.
-- Service: the life of a job in internal/orchestrator/service.go and job_runtime.go over the files
-- of internal/store/state_store.go. State has the service, the store and the steps `touch`,
-- `addEvent` and `clearJobRuntimeState`; Stop has `failJob`, `blockJobWithEvent`, `interruptJob`
-- and `handleChainTerminalState`; Commands has `Cancel`, `Retry`, `Reject`,
-- `Steer` and `ResumeWithOptions`. Ending, Saved, Strikes, Budget and
-- Operator are about them.
-- Provider: internal/provider/errors.go, the classification of a failed command, and
-- `executeProviderPhase` of internal/orchestrator/service.go, the retries. The calls and the waits are
-- given by their number, and the loop is recursion on the retries left. Kinds and Retry are about
-- them.
-- Chain: `PauseChain`, `CancelChain` and `interruptChainGoalJob` of internal/orchestrator/service.go,
-- over the same store. Start has `startChainGoal`, `advanceChain`, `handleChainCompletion`,
-- `StartChain`, `ResumeChain` and `SkipChainGoal`, which prepare jobs, and Ops any sequence of what
-- happens to the chains that are there. Writes, Progress and Closed are about the files of the chains,
-- Cancel about `CancelChain` and Advance about `advanceChain`.
-- Planning: the documents that internal/orchestrator/planning.go and verification.go build.
-- Prepare: `prepareJob` and `startPreparedJobAsync` of internal/orchestrator/service.go, with the
-- workspaces of workspace.go.
-- Loop: what drives a job, in internal/orchestrator/service.go, parallel.go, evaluator.go,
-- skip_leader.go and automated_check.go. Answers has the `World`, which is all that other code
-- answers, Engine the engine's build and test, Checks the commands before and after a step, Worker
-- `runWorkerStep` for one worker and Fanout for two, System `runSystemStep` and `Approve`, Evaluate
-- `evaluateCompletion`, Plan `ensurePlanning`, Leader the turns of `runLoop`, SkipLeader
-- `runSkipLeaderLoop`, and Run `runLoop` with its lease. The rest is about them: Moves how they move
-- a job's steps and state, Gate and Earned what a job that is done has shown, Stops, Ends, Turns,
-- Attempts the ways through the two loops, Quiet and Started what a system step starts, and
-- Closing what a run leaves behind.
-- Examples: concrete inputs.
--
-- How the program is modelled. A struct is a record, a set of constants a data type, a slice a list,
-- a map an association list, a pointer that may be nil an `Option`, an error a text. An `int` that
-- the program compares from above with 0 or a positive bound is a natural number. A time is a number
-- with 0 for the zero time. A score or a threshold is a finite double: the number is its rank among
-- them. `to_lower` maps the letters of ASCII and the two further characters whose lower case is in
-- ASCII, which is what the comparisons with texts in ASCII see; the targets and scopes of parallel
-- workers, which are compared with each other, are lowered by a parameter (`Texts`). The mutable job is passed on: an
-- `Act` takes the service and the job and returns both, also with an error. Each file write may fail
-- with the error that the environment chooses for it; the clock stands still during an operation,
-- and one operation runs at a time, but for the harness, whose operations interleave. Each question
-- that a loop asks of a provider, a command or a file has the number of the turn, and the world answers
-- by the number, so a world is any sequence of answers. A leader that summarizes and completes by
-- turns, and whose job is rejected each time, never ends the loop, so the leader's loop is cut off
-- after a number of rounds and goes on as `rest` says. The loop without a leader is
-- recursion on the attempts left, and the schema retries on the retries left. All other loops are structural.
--
-- A file of a job or a chain holds the value that was written: `encoding/json` is taken to read back
-- what it has written, but for the fields that their tags leave out. The removal of a lease's file may
-- fail, which is only logged: `removals` says which removals succeed.
--
-- What other code answers is a parameter: the decoding of JSON (`decode_spec`, `decode_reason`) and
-- its encoding (`encode`), the reading of artifacts (`read_artifact`), the printing of a score and of
-- a duration (`format_score`, `format_duration`), the calls of a provider and the waits between them
-- (`invoke`, `wait`), the writes and the missing files (`Env`), new ids, directories and worktrees
-- (`Site`), and for the loops all that `World` lists: calls, decodings, commands, contexts, written
-- artifacts and what git and the automated checks report.
--
-- Not modelled: the recovery of jobs at start; the ticker that renews a lease while a loop runs; the
-- process manager, the start of a process, the walk over a workspace and the automated checks, which
-- work on the operating system. Prompts, token counts, prices, the HTTP and MCP servers, the command
-- line and the web page are texts for models or clients of the parts above.
pub mod Base
pub mod Domain
pub mod Policy
pub mod Allowlist
pub mod Schema
pub mod Parallel
pub mod Harness
pub mod Evaluator
pub mod Provider
pub mod Service
pub mod Chain
pub mod Planning
pub mod Prepare
pub mod Loop
pub mod Examples
