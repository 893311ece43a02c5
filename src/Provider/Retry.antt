-- ===== src/Provider/Retry.antt =====
-- internal/orchestrator/service.go: how often a provider is called, and which answer counts.
use gorchera.Base.{
  ℕ, zero, suc, ◌+◌, ◌≡◌, ◌≢◌, refl, sym, subst, ◌∙◌, ap, ◌≤◌, ◌<◌, ◌↔◌, ◌⊎◌, inl, inr, String,
  Option, none, length, arith, length-append,
}
use gorchera.Service.{Run, add_event}
use gorchera.Provider.{
  Answer, raw, failure, Failure, answered, ErrorAction, provider_action_for_error, execute_from,
  execute_provider_phase, provider_retry_limit, retry_message,
}

module _ (invoke : ℕ → Answer) (wait : ℕ → Option String) (format_duration : ℕ → String)
    (phase : String) where
  -- The n-th call fails with an error that is tried again, and the wait after it is not broken off.
  pub record IsRetried (n : ℕ) : Type 0 where
    pub error : Failure
    pub failed : invoke n ≡ failure error
    pub again : provider_action_for_error error ≡ ErrorAction.retry
    pub waited : wait n ≡ none

  -- Some call from the first to the last of these gives the text, and each before it is retried.
  pub record Answers (text : String) (first last : ℕ) : Type 0 where
    pub at : ℕ
    pub from : first ≤ at
    pub to : at ≤ last
    pub answer : invoke at ≡ raw text
    pub before : (m : ℕ) → first ≤ m → m < at → IsRetried m

  -- The run after an error is tried again.
  abbrev again_from : ℕ → Failure → Run → Run
  again_from n f r =
      (add_event "provider_retry" (retry_message invoke wait format_duration phase n f) r).0

  answer_cases :
      (n : ℕ) → ((t : String) × (invoke n ≡ raw t)) ⊎ ((f : Failure) × (invoke n ≡ failure f))
  answer_cases n = go (invoke n)
    where
      go : (a : Answer) → ((t : String) × (a ≡ raw t)) ⊎ ((f : Failure) × (a ≡ failure f))
      go (raw t) = inl (t, refl)
      go (failure f) = inr (f, refl)

  first_answer :
      (text : String) (left n : ℕ) (r : Run)
      → invoke n ≡ raw text
      → (execute_from invoke wait format_duration phase left n r).1 ≡ answered text
  unfolding execute_from
  first_answer text zero n r e = ground (arith, e)
  first_answer text (suc left) n r e = ground (arith, e)

  raw_same : (t text : String) → answered t ≡ answered text → t ≡ text
  raw_same t text e = ground (arith, e)

  last_failure :
      (text : String) (n : ℕ) (r : Run) (f : Failure)
      → invoke n ≡ failure f
      → (execute_from invoke wait format_duration phase zero n r).1 ≢ answered text
  unfolding execute_from
  last_failure text n r f e h = ground (arith, e, h)

  next_failure :
      (text : String) (left n : ℕ) (r : Run) (f : Failure)
      → invoke n ≡ failure f
      → (execute_from invoke wait format_duration phase (suc left) n r).1 ≡ answered text
      → (provider_action_for_error f ≡ ErrorAction.retry)
        × (wait n ≡ none)
        × ((execute_from invoke wait format_duration phase left (suc n) (again_from n f r)).1
            ≡ answered text)
  unfolding execute_from
  next_failure text left n r f e h =
      (ground (arith, e, h), ground (arith, e, h), ground (arith, e, h))

  retried_failure :
      (left n : ℕ) (r : Run) (f : Failure)
      → invoke n ≡ failure f
      → provider_action_for_error f ≡ ErrorAction.retry
      → wait n ≡ none
      → (execute_from invoke wait format_duration phase (suc left) n r).1
        ≡ (execute_from invoke wait format_duration phase left (suc n) (again_from n f r)).1
  unfolding execute_from
  retried_failure left n r f e a w = ground (arith, e, a, w)

  again_from-events :
      (n : ℕ) (f : Failure) (r : Run)
      → length (again_from n f r).job.events ≡ suc (length r.job.events)
  unfolding add_event
  again_from-events n f r = length-append r.job.events _ ∙ omega arith

  equal_or_later : (n m : ℕ) → n ≤ m → (n ≡ m) ⊎ (suc n ≤ m)
  equal_or_later n m h = ground arith

  answer_now :
      (text t : String) (left n : ℕ) (r : Run)
      → invoke n ≡ raw t
      → (execute_from invoke wait format_duration phase left n r).1 ≡ answered text
      → Answers text n (n + left)
  answer_now text t left n r e h = record {
    at = n;
    from = omega arith;
    to = omega arith;
    answer = e ∙ ap raw (raw_same t text (sym (first_answer t left n r e) ∙ h));
    before = λ m p q. absurd (omega (arith, p, q));
  }

  answer_later :
      (text : String) (left n : ℕ)
      → IsRetried n
      → Answers text (suc n) (suc n + left)
      → Answers text n (n + suc left)
  answer_later text left n this rest = record {
    at = rest.at;
    from = omega (arith, rest.from);
    to = omega (arith, rest.to);
    answer = rest.answer;
    before = λ m p q. elim (equal_or_later n m p) [
      | inl same ↦ subst IsRetried same this
      | inr more ↦ rest.before m more q
    ];
  }

  to_Answers :
      (text : String) (left n : ℕ) (r : Run)
      → (execute_from invoke wait format_duration phase left n r).1 ≡ answered text
      → Answers text n (n + left)
  to_Answers text zero n r h = elim (answer_cases n) [
    | inl (t, e) ↦ answer_now text t zero n r e h
    | inr (f, e) ↦ absurd (last_failure text n r f e h)
  ]
  to_Answers text (suc left) n r h = elim (answer_cases n) [
    | inl (t, e) ↦ answer_now text t (suc left) n r e h
    | inr (f, e) ↦
        let (again, waited, rest) = next_failure text left n r f e h in
        answer_later text left n (record { error = f; failed = e; again = again; waited = waited })
          (to_Answers text left (suc n) (again_from n f r) rest)
  ]

  of_Answers :
      (text : String) (left n : ℕ) (r : Run)
      → Answers text n (n + left)
      → (execute_from invoke wait format_duration phase left n r).1 ≡ answered text
  of_Answers text zero n r a =
      first_answer text zero n r (ap invoke (omega (arith, a.from, a.to)) ∙ a.answer)
  of_Answers text (suc left) n r a = elim (equal_or_later n a.at a.from) [
    | inl same ↦ first_answer text (suc left) n r (ap invoke same ∙ a.answer)
    | inr more ↦
        let this = a.before n (omega arith) more in
        retried_failure left n r this.error this.failed this.again this.waited
        ∙ of_Answers text left (suc n) (again_from n this.error r) (record {
          at = a.at;
          from = more;
          to = omega (arith, a.to);
          answer = a.answer;
          before = λ m p q. a.before m (omega (arith, p)) q;
        })
  ]

  execute_from-events :
      (left n : ℕ) (r : Run)
      → length (execute_from invoke wait format_duration phase left n r).0.job.events
        ≤ length r.job.events + left
  unfolding execute_from
  execute_from-events zero n r = ground arith
  execute_from-events (suc left) n r = elim (answer_cases n) [
    | inl (t, e) ↦ ground (arith, e)
    | inr (f, e) ↦
        ground
          (arith, e, execute_from-events left (suc n) (again_from n f r), again_from-events n f r)
  ]

  -- The phase gives a text exactly when one of the first four calls gives it, and each call before
  -- that fails with an error that is to be tried again and is followed by a wait that is not broken
  -- off.
  pub execute_provider_phase-answered_iff :
      (text : String) (r : Run)
      → ((execute_provider_phase invoke wait format_duration phase r).1 ≡ answered text)
        ↔ Answers text 0 provider_retry_limit
  unfolding execute_provider_phase
  execute_provider_phase-answered_iff text r =
      (to_Answers text provider_retry_limit 0 r, of_Answers text provider_retry_limit 0 r)

  -- However the calls go, the phase adds at most three events to the job.
  pub execute_provider_phase-events :
      (r : Run)
      → length (execute_provider_phase invoke wait format_duration phase r).0.job.events
        ≤ length r.job.events + provider_retry_limit
  unfolding execute_provider_phase
  execute_provider_phase-events r = execute_from-events provider_retry_limit 0 r
