-- ===== src/Harness/Ownership.antt =====
-- internal/orchestrator/service.go: what a claim protects, in every interleaving of the requests.
use gorchera.Base.{
  ℕ, ◌==◌, ==_iff, String, ◌≡◌, ◌≢◌, inl, inr, true, false, List, [], ◌∷◌, All, subst, ap, Option,
  none, some, arith, Bool-cases, Option-cases, if◌then◌else◌,
}
use gorchera.Base.Text.{is_iff, is_blank}
use gorchera.Base.Dict.{get, ℕ_eq, String_eq, get-put, get-del}
use gorchera.Harness.{
  ProcessHandle, Harness, Op, tracks, claims, releases, has_pid, owned_by, listed, add_pid,
  take_over, track, claim, release, apply, run, new,
}

-- The job holds the process: it is marked as the one that uses it, and as its owner.
pub record Holds (job : String) (pid : ℕ) (s : Harness) : Type 0 where
  pub marked : get pid s.harness_inflight ≡ some job
  pub owner : get pid s.harness_owners ≡ some job

track-Holds :
    (job other : String) (pid : ℕ) (h : ProcessHandle) (s : Harness)
    → Holds job pid s
    → Holds job pid (track other h s)
unfolding track
track-Holds job other pid h s v =
    ground (arith, get-put h.pid pid other s.harness_owners, is_iff job other, ==_iff h.pid pid)

claim-Holds :
    (job other : String) (pid p : ℕ) (s : Harness)
    → Holds job pid s
    → Holds job pid (claim other p s).0
unfolding claim
claim-Holds job other pid p s v =
    ground (arith, get-put p pid other s.harness_inflight, is_iff job other, ==_iff p pid)

release-Holds :
    (job : String) (pid p : ℕ) (s : Harness)
    → p ≢ pid
    → Holds job pid s
    → Holds job pid (release p s)
unfolding release
release-Holds job pid p s apart v = ground (arith, get-del p pid s.harness_inflight, ==_iff p pid)

abbrev pub EndsUseOf : ℕ → Op → Type 0
EndsUseOf pid (releases p) = p ≡ pid
EndsUseOf pid _ = ⊥

apply-Holds :
    (job : String) (pid : ℕ) (op : Op) (s : Harness)
    → ¬ EndsUseOf pid op
    → Holds job pid s
    → Holds job pid (apply s op)
unfolding apply
apply-Holds job pid (tracks other h) s keeps v = track-Holds job other pid h s v
apply-Holds job pid (claims other p) s keeps v = claim-Holds job other pid p s v
apply-Holds job pid (releases p) s keeps v = release-Holds job pid p s keeps v

run-Holds :
    (job : String) (pid : ℕ) (ops : List Op) (s : Harness)
    → All (λ op. ¬ EndsUseOf pid op) ops
    → Holds job pid s
    → Holds job pid (run s ops)
unfolding run
run-Holds job pid [] s keeps v = v
run-Holds job pid (op ∷ ops) s keeps v =
    run-Holds job pid ops (apply s op) keeps.1 (apply-Holds job pid op s keeps.0 v)

pub claim-none-Holds :
    (job : String) (pid : ℕ) (s : Harness)
    → (claim job pid s).1 ≡ none
    → Holds job pid (claim job pid s).0
unfolding claim
claim-none-Holds job pid s h = elim (Option-cases (get pid s.harness_owners)) [
  | inl free ↦ absurd (ground arith)
  | inr (owner, e) ↦
      ground (arith, get-put pid pid job s.harness_inflight, is_iff owner job, ==_iff pid pid)
]

-- After a job's claim of a process succeeds, the job stays the owner of the process and the one that
-- uses it through every sequence of trackings, claims and releases of all jobs, as long as none of
-- them releases that process.
pub claim-run-Holds :
    (job : String) (pid : ℕ) (ops : List Op) (s : Harness)
    → (claim job pid s).1 ≡ none
    → All (λ op. ¬ EndsUseOf pid op) ops
    → Holds job pid (run (claim job pid s).0 ops)
claim-run-Holds job pid ops s h keeps =
    run-Holds job pid ops (claim job pid s).0 keeps (claim-none-Holds job pid s h)

-- The mark of a process in use names its owner, and the owner's set holds the process.
pub record IsConsistent (s : Harness) : Type 0 where
  pub used_owned :
      (p : ℕ) (job : String)
      → get p s.harness_inflight ≡ some job
      → get p s.harness_owners ≡ some job
  pub owned_listed :
      (p : ℕ) (job : String)
      → get p s.harness_owners ≡ some job
      → has_pid p (listed (get job s.job_harnesses)) ≡ true

new-IsConsistent : IsConsistent new
unfolding new get
new-IsConsistent = record { used_owned = λ p job h. cc; owned_listed = λ p job h. cc }

track-used_owned :
    (job other : String) (p : ℕ) (h : ProcessHandle) (s : Harness)
    → (get p s.harness_inflight ≡ some job → get p s.harness_owners ≡ some job)
    → get p (track other h s).harness_inflight ≡ some job
    → get p (track other h s).harness_owners ≡ some job
unfolding track
track-used_owned job other p h s v e =
    ground (arith, get-put h.pid p other s.harness_owners, is_iff job other, ==_iff h.pid p)

has_pid-add_pid :
    (p q : ℕ) (qs : List ℕ) → has_pid q (add_pid p qs) ≡ (if p == q then true else has_pid q qs)
unfolding has_pid add_pid
has_pid-add_pid p q qs = elim (Bool-cases (has_pid p qs)) [
  | inl there ↦ elim (Bool-cases (p == q)) [
    | inl same ↦ rw (there, same) (subst (λ z. has_pid z qs ≡ true) ((==_iff p q).0 same) there)
    | inr apart ↦ rw (there, apart)
  ]
  | inr absent ↦ rw absent
]

track-owned_listed :
    (job other : String) (p : ℕ) (h : ProcessHandle) (s : Harness)
    → (get p s.harness_owners ≡ some job → has_pid p (listed (get job s.job_harnesses)) ≡ true)
    → get p (track other h s).harness_owners ≡ some job
    → has_pid p (listed (get job (track other h s).job_harnesses)) ≡ true
unfolding take_over track
track-owned_listed job other p h s v e = ground (
  arith,
  get-put h.pid p other s.harness_owners,
  get-put other job (add_pid h.pid (listed (get other s.job_harnesses))) s.job_harnesses,
  has_pid-add_pid h.pid p (listed (get other s.job_harnesses)),
  is_iff other job,
  ==_iff h.pid p,
)

track-IsConsistent :
    (other : String) (h : ProcessHandle) (s : Harness)
    → IsConsistent s
    → IsConsistent (track other h s)
track-IsConsistent other h s v = record {
  used_owned = λ p job. track-used_owned job other p h s (v.used_owned p job);
  owned_listed = λ p job. track-owned_listed job other p h s (v.owned_listed p job);
}

claim-IsConsistent :
    (other : String) (q : ℕ) (s : Harness) → IsConsistent s → IsConsistent (claim other q s).0
unfolding claim
claim-IsConsistent other q s v = record {
  used_owned = λ p job e. ground (
    arith,
    v.used_owned p job,
    get-put q p other s.harness_inflight,
    is_iff other job,
    ==_iff q p,
    Option-cases (get q s.harness_owners),
    owner_of (get q s.harness_owners) other,
  );
  owned_listed = λ p job e. ground (arith, v.owned_listed p job);
}
  where
    owner_of : (o : Option String) (j : String) → owned_by o j ≡ true → o ≡ some j
    owner_of none j e = cc
    owner_of (some owner) j e = ap some ((is_iff owner j).0 e)

release-IsConsistent : (q : ℕ) (s : Harness) → IsConsistent s → IsConsistent (release q s)
unfolding release
release-IsConsistent q s v = record {
  used_owned = λ p job e. ground (arith, v.used_owned p job, get-del q p s.harness_inflight);
  owned_listed = λ p job e. v.owned_listed p job e;
}

apply-IsConsistent : (s : Harness) (op : Op) → IsConsistent s → IsConsistent (apply s op)
unfolding apply
apply-IsConsistent s (tracks other h) v = track-IsConsistent other h s v
apply-IsConsistent s (claims other p) v = claim-IsConsistent other p s v
apply-IsConsistent s (releases p) v = release-IsConsistent p s v

run-IsConsistent : (s : Harness) (ops : List Op) → IsConsistent s → IsConsistent (run s ops)
unfolding run
run-IsConsistent s [] v = v
run-IsConsistent s (op ∷ ops) v = run-IsConsistent (apply s op) ops (apply-IsConsistent s op v)

-- From the empty start, after any sequence of critical sections, a process in use is owned by the
-- job that uses it, and every owned process is in the set of its owner, which is the set that the
-- job's listing walks.
pub run-new-IsConsistent : (ops : List Op) → IsConsistent (run new ops)
run-new-IsConsistent ops = run-IsConsistent new ops new-IsConsistent

claim_again : (job : String) (pid : ℕ) (s : Harness) → Holds job pid s → (claim job pid s).1 ≡ none
unfolding claim
claim_again job pid s v = ground (arith, is_iff job job)

-- Two requests of one job may claim a process at once. The first to end releases the mark of both:
-- another job that then reports the process becomes its owner, while the second request still runs.
pub claim-twice_lost :
    (job other : String) (h : ProcessHandle) (s : Harness)
    → (claim job h.pid s).1 ≡ none
    → is_blank other ≡ false
    → ((claim job h.pid (claim job h.pid s).0).1 ≡ none)
      × (get h.pid
            (run s (
              claims job h.pid
              ∷ claims job h.pid
              ∷ releases h.pid
              ∷ tracks other h
              ∷ [])).harness_owners
          ≡ some other)
unfolding run apply
claim-twice_lost job other h s e named = (
  claim_again job h.pid (claim job h.pid s).0 (claim-none-Holds job h.pid s e),
  lost ((claim job h.pid (claim job h.pid s).0).0),
)
  where
    lost : (t : Harness) → get h.pid (track other h (release h.pid t)).harness_owners ≡ some other
    lost t =
        unfold track release in
        ground (
          arith,
          get-del h.pid h.pid t.harness_inflight,
          get-put h.pid h.pid other t.harness_owners,
          ==_iff h.pid h.pid,
        )
