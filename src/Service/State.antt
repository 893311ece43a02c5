-- ===== src/Service/State.antt =====
-- internal/orchestrator/service.go and job_runtime.go, internal/store/state_store.go: the service's
-- state, the files of the store, the cache, the events of a job and its lease. A saved file is the
-- record that was saved, without the fields that are not written. One operation runs at a time, and
-- the clock stands still during it.
use Prim.Native.Char.{code}
use gorchera.Base.{
  ℕ, suc, ltb, leb, ◌==◌, length, String, Bool, true, ◌&&◌, ◌||◌, not, List, [], ◌∷◌, ◌++◌, Option,
  none, some, if◌then◌else◌,
}
use gorchera.Base.Text.{◌is◌, ◌^^◌, is_blank, quote}
use gorchera.Base.Dict.{get, put, del, String_eq}
use gorchera.Base.Result.{Result, ok, err}
use gorchera.Allowlist.{Request}
use gorchera.Domain.{Job, JobChain, Event, is_recoverable_job_status}

pub record EventNotification : Type 0 where
  pub job_id : String
  pub kind : String
  pub message : String

pub record JobLease : Type 0 where
  pub job_id : String
  pub run_owner_id : String
  pub heartbeat_at : ℕ
  pub workspace_dir : String

-- `jobs`, `chains` and `leases` are the files, by their id; `background` the jobs handed to a run
-- loop of their own, the last one first; `writes` counts the files written, `turn` the questions to
-- providers, processes and files; `ran` are the commands that were started, the last one first;
-- `removals` tells of the coming removals of a lease's file which of them succeed.
pub record Service : Type 0 where
  pub instance_id : String
  pub workspace_root : String
  pub now : ℕ
  pub jobs : List (String × Job)
  pub chains : List (String × JobChain)
  pub leases : List (String × JobLease)
  pub job_cache : List (String × Job)
  pub event_chan : List EventNotification
  pub background : List Job
  pub bg_closed : Bool
  pub writes : ℕ
  pub turn : ℕ
  pub ran : List Request
  pub running_jobs : List (String × Unit {0})
  pub removals : ℕ → Bool

-- What the operating system and the libraries answer: the error of the n-th write, the text of the
-- error for a file that is not there, and the reason in an event's message, if the message is the
-- JSON of one.
pub record Env : Type 0 where
  pub write_error : ℕ → Option String
  pub missing_file : String → String
  pub decode_reason : String → Option String

is_id_letter : ℕ → Bool
is_id_letter n =
    leb b'a' n && leb n b'z'
    || leb b'A' n && leb n b'Z'
    || leb b'0' n && leb n b'9'
    || n == b'_'
    || n == b'-'
    || n == b'.'

all_id_letters : String → Bool
all_id_letters String.[] = true
all_id_letters (String.◌∷◌ c s) = is_id_letter (code c) && all_id_letters s

-- validateID of the store, and validateLeaseID, which differs in the text of its error.
unfoldable pub validate_id : String → Option String
unfolding is_id_letter all_id_letters
validate_id id =
    if id is "." || id is ".."
    then some ("invalid ID " ^^ quote id ^^ ": reserved filesystem path component")
    else if id is "" || not (all_id_letters id)
    then some ("invalid ID " ^^ quote id ^^ ": must match ^[a-zA-Z0-9_-.]+$")
    else none

-- A step of the service on the job that it was given: the state after it, also where it fails.
pub record Run : Type 0 where
  pub service : Service
  pub job : Job

abbrev pub Act : Type 0
Act = Run → Run × Option String

-- What follows a step, unless the step failed.
unfoldable pub resume_with : Act → Run × Option String → Run × Option String
resume_with k (r, none) = k r
resume_with k (r, some e) = (r, some e)

infixl 5 ◌>>◌
abbrev pub ◌>>◌ : Act → Act → Act
◌>>◌ m k r = resume_with k (m r)

abbrev pub done : Act
done r = (r, none)

abbrev pub fail_with : String → Act
fail_with e r = (r, some e)

-- An assignment to fields of the job.
abbrev pub modify : (Job → Job) → Act
modify f r = (record r { job = f r.job }, none)

-- `CloneJob` into the cache: records are values, so the copy is the record.
unfoldable pub cache_update : Job → Service → Service
cache_update job s =
    if is_blank job.id then s else record s { job_cache = put job.id job s.job_cache }

unfoldable pub cache_remove : String → Service → Service
cache_remove id s = record s { job_cache = del id s.job_cache }

-- The channel holds 100 notifications; a further one is dropped.
unfoldable pub notify : EventNotification → Service → Service
notify n s =
    if ltb (length s.event_chan) 100 then record s { event_chan = s.event_chan ++ n ∷ [] } else s

unfoldable pub event_at : ℕ → String → String → Event
event_at now kind message = record { time = now; kind = kind; message = message }

-- addEvent.
unfoldable pub add_event : String → String → Act
unfolding cache_update notify event_at
add_event kind message r =
    let job' = record r.job { events = r.job.events ++ event_at r.service.now kind message ∷ [] } in
    (
      record {
        service =
            notify (record { job_id = r.job.id; kind = kind; message = message })
              (cache_update job' r.service);
        job = job';
      },
      none,
    )

-- The fields that `touch` sets.
unfoldable pub touched : Service → Job → Job
touched s job =
    if is_recoverable_job_status job.status
    then record job { updated_at = s.now; run_owner_id = s.instance_id; run_heartbeat_at = s.now }
    else record job { updated_at = s.now; run_owner_id = ""; run_heartbeat_at = 0 }

-- touch.
unfoldable pub touch : Act
unfolding touched cache_update
touch r =
    let job' = touched r.service r.job in
    (record { service = cache_update job' r.service; job = job' }, none)

-- clearJobRuntimeState: the lease's file is removed, unless the id is no file's name; an error of the
-- removal is only logged.
unfoldable pub clear_job_runtime_state : Act
clear_job_runtime_state r =
    let job' = record r.job { run_owner_id = ""; run_heartbeat_at = 0 } in
    (
      record {
        service = elim (validate_id r.job.id) [
          | some e ↦ r.service
          | none ↦ record r.service {
            leases =
                if r.service.removals 0 then del r.job.id r.service.leases else r.service.leases;
            removals = λ n. r.service.removals (suc n);
          }
        ];
        job = job';
      },
      none,
    )

-- What a saved job reads back as: the results of the automated checks are not written.
abbrev pub stored : Job → Job
stored job = record job { pre_check_results = [] }

module _ (env : Env) where
  -- One file is written by `f`, or the write fails.
  unfoldable pub write_file : (Service → Service) → Service → Service × Option String
  write_file f s = elim (env.write_error s.writes) [
    | some e ↦ (record s { writes = suc s.writes }, some e)
    | none ↦ (record (f s) { writes = suc s.writes }, none)
  ]

  -- StateStore.SaveJob.
  unfoldable pub save_job : Job → Service → Service × Option String
  unfolding write_file
  save_job job s = elim (validate_id job.id) [
    | some e ↦ (s, some e)
    | none ↦ write_file (λ t. record t { jobs = put job.id (stored job) t.jobs }) s
  ]

  -- StateStore.SaveChain.
  unfoldable pub save_chain : JobChain → Service → Service × Option String
  unfolding write_file
  save_chain chain s = elim (validate_id chain.id) [
    | some e ↦ (s, some e)
    | none ↦ write_file (λ t. record t { chains = put chain.id chain t.chains }) s
  ]

  -- The job of the step is saved.
  unfoldable pub save : Act
  save r = let (s, e) = save_job r.job r.service in (record r { service = s }, e)

  unfoldable pub found : {A : Type 0} → String → Option A → Result A
  found id none = err (env.missing_file id)
  found id (some a) = ok a

  -- StateStore.LoadJob.
  unfoldable pub load_job : String → Service → Result Job
  unfolding found
  load_job id s = elim (validate_id id) [ some e ↦ err e | none ↦ found id (get id s.jobs) ]

  -- StateStore.LoadChain.
  unfoldable pub load_chain : String → Service → Result JobChain
  unfolding found
  load_chain id s = elim (validate_id id) [ some e ↦ err e | none ↦ found id (get id s.chains) ]
