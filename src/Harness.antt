-- ===== src/Harness.antt =====
-- internal/orchestrator/service.go: which job owns which harness process. Every function below is
-- one critical section under `harnessMu`. What a request does with the process between its claim
-- and its release is a call of internal/runtime, whose answer is a handle.
pub mod Ownership
use gorchera.Base.{
  ℕ, ◌==◌, leb, String, Bool, true, false, not, List, [], ◌∷◌, Option, none, some, if◌then◌else◌,
}
use gorchera.Base.Text.{◌is◌, ◌isn't◌, ◌^^◌, is_blank, itoa}
use gorchera.Base.Dict.{get, put, del, ℕ_eq, String_eq}

-- The fields of runtime.ProcessHandle that the service reads.
pub record ProcessHandle : Type 0 where
  pub pid : ℕ
  pub name : String
  pub started_at : ℕ
  pub running : Bool

pub record Harness : Type 0 where
  pub harnesses : List (ℕ × ProcessHandle)
  pub harness_owners : List (ℕ × String)
  pub job_harnesses : List (String × List ℕ)
  pub harness_inflight : List (ℕ × String)

unfoldable pub new : Harness
new = record { harnesses = []; harness_owners = []; job_harnesses = []; harness_inflight = [] }

abbrev listed : Option (List ℕ) → List ℕ
listed none = []
listed (some pids) = pids

-- Adding to a set of process ids keeps one copy.
unfoldable pub has_pid : ℕ → List ℕ → Bool
has_pid p [] = false
has_pid p (q ∷ qs) = let later = has_pid p qs in if q == p then true else later

add_pid : ℕ → List ℕ → List ℕ
add_pid p qs = if has_pid p qs then qs else p ∷ qs

-- Another job than `job` is using the process.
abbrev pub busy_for_other : Option String → String → Bool
busy_for_other none job = false
busy_for_other (some holder) job = holder isn't job

take_over : String → ℕ → Harness → Harness
take_over job pid s = record s {
  harness_owners = put pid job s.harness_owners;
  job_harnesses = put job (add_pid pid (listed (get job s.job_harnesses))) s.job_harnesses;
}

-- trackHarnessHandle.
unfoldable pub track : String → ProcessHandle → Harness → Harness
unfolding take_over add_pid
track job handle s =
    let known : Harness = record s { harnesses = put handle.pid handle s.harnesses } in
    if is_blank job
    then known
    else if busy_for_other (get handle.pid s.harness_inflight) job
    then known
    else take_over job handle.pid known

abbrev owned_by : Option String → String → Bool
owned_by none job = false
owned_by (some owner) job = owner is job

-- ownsHarness.
unfoldable pub owns : String → ℕ → Harness → Bool
owns job pid s = owned_by (get pid s.harness_owners) job

holder_text : Option String → String
holder_text none = ""
holder_text (some holder) = holder

-- claimHarness.
unfoldable pub claim : String → ℕ → Harness → Harness × Option String
unfolding holder_text
claim job pid s =
    if busy_for_other (get pid s.harness_inflight) job
    then (
      s,
      some (
          "harness process not owned by job: pid "
          ^^ itoa pid
          ^^ " is currently in use by job "
          ^^ holder_text (get pid s.harness_inflight)),
    )
    else if not (owned_by (get pid s.harness_owners) job)
    then (
      s,
      some ("harness process not owned by job: pid " ^^ itoa pid ^^ " is not owned by job " ^^ job),
    )
    else (record s { harness_inflight = put pid job s.harness_inflight }, none)

-- releaseHarnessClaim.
unfoldable pub release : ℕ → Harness → Harness
release pid s = record s { harness_inflight = del pid s.harness_inflight }

insert_pid : ℕ → List ℕ → List ℕ
insert_pid p [] = p ∷ []
insert_pid p (q ∷ qs) = if leb p q then p ∷ q ∷ qs else q ∷ insert_pid p qs

-- `sort.Ints`.
sort_pids : List ℕ → List ℕ
sort_pids [] = []
sort_pids (p ∷ ps) = insert_pid p (sort_pids ps)

-- jobHarnessPIDs.
unfoldable pub job_harness_pids : String → Harness → List ℕ
unfolding insert_pid sort_pids
job_harness_pids job s = sort_pids (listed (get job s.job_harnesses))

-- A critical section of some request: the harness as any thread may change it.
pub data Op : Type 0 where
  tracks : String → ProcessHandle → Op
  claims : String → ℕ → Op
  releases : ℕ → Op

unfoldable pub apply : Harness → Op → Harness
apply s (tracks job handle) = track job handle s
apply s (claims job pid) = (claim job pid s).0
apply s (releases pid) = release pid s

unfoldable pub run : Harness → List Op → Harness
run s [] = s
run s (op ∷ ops) = run (apply s op) ops
