-- ===== src/Examples/Worlds.antt =====
-- The answers of providers, processes and files that the examples of the loops share.
use gorchera.Base.{String, true, false, [], ◌∷◌, none, some, ◌==◌, if◌then◌else◌}
use gorchera.Base.Text.{to_lower}
use gorchera.Base.Result.{ok, err}
use gorchera.Domain.{LeaderOutput, WorkerTask}
use gorchera.Provider.{raw, failure, ErrorKind, new_provider_error}
use gorchera.Prepare.{Site}
use gorchera.Loop.{World, no_result}
use gorchera.Examples.Samples.{env}

abbrev pub site : Site
site = record {
  new_job_id = λ now. "job-2";
  new_chain_id = λ now. "chain-2";
  invalid_dir = λ dir. none;
  worktree = λ dir id. ok "/v";
}

-- The leader says that the job is complete.
abbrev pub complete_message : LeaderOutput
complete_message = record {
  action = "complete";
  target = "none";
  task_type = "none";
  task_text = "";
  artifacts = [];
  reason = "the parser is there";
  next_hint = "";
  system_action = none;
  tasks = [];
}

abbrev task : String → WorkerTask
task target = record {
  target = target;
  task_type = "implement";
  task_text = "write it";
  artifacts = [];
  reason = "";
  next_hint = "";
}

-- Two workers are to run at the same time.
abbrev pub fan_out : LeaderOutput
fan_out = record complete_message { action = "run_workers"; tasks = task "B" ∷ task "C" ∷ [] }

-- A search in the workspace.
abbrev pub search : LeaderOutput
search = record complete_message {
  action = "run_system";
  target = "SYS";
  task_type = "search";
  task_text = "find the parser";
  system_action = some (record {
    type = "search";
    command = "grep";
    args = "parse" ∷ [];
    workdir = "";
    description = "";
  });
}

-- The leader's first call says "complete"; the evaluator's phase is not supported by its provider, so
-- that the rules alone decide. Every write succeeds and every command ends well.
abbrev pub world : World
world = record {
  env = env;
  site = site;
  call = λ n k.
      if n == 1
      then raw "complete"
      else failure (record {
        text = "unsupported";
        provider_error =
            some (new_provider_error "mock" ErrorKind.unsupported_phase "mock" "" none);
      });
  wait = λ n k. none;
  format_duration = λ n. "1s";
  format_score = λ n. "1";
  context_error = λ n. none;
  shut_down = λ n. false;
  is_over = λ n. false;
  is_context_error = λ n. false;
  is_deadline = λ n. false;
  decode_leader = λ text into. (complete_message, none);
  decode_worker = λ text into. (into, none);
  decode_report = λ text into. (into, none);
  decode_plan = λ text. err "no plan";
  texts = record { lower = to_lower; decode_spec = λ text. err "no spec" };
  encode_failure = λ reason structured. reason;
  worker_written = λ n index worker. ok [];
  system_written = λ n index result. ok ("result.json" ∷ []);
  check_written = λ n name check. ok name;
  report_written = λ n report. ok "evaluator_report.json";
  document_written = λ n name. ok name;
  read_contract = λ n path. err "no file";
  read_artifact = λ n path. none;
  command = λ n req. record { result = no_result; error = none };
  look_path = λ n name. true;
  file_exists = λ n path. true;
  working_dir = ok "/w";
  lease_error = λ n. none;
  diff_stat = λ n dir. "";
  changed_files = λ n dir. [];
  run_checks = λ n dir checks steps. [];
}
