-- ===== src/Providers/Consistency.antt =====
-- The agreement of the records of `ProviderOperationsService` (backend/data/provider_operations.py),
-- which each operation on a job keeps.
use text.Mathlib.Text.{◌==◌ as str_eq}
use option_research_platform.Base.{
  ◌≡◌, refl, sym, ap, ◌∙◌, inl, inr, Bool, true, false, String, none, some, List, [], ◌∷◌, ◌++◌,
  last?, last?-append, Option-cases, Bool-cases, subst,
}
use option_research_platform.Base.Result.{Result, ok, Result-cases, ok-injective, err≢ok}
use option_research_platform.Base.Dict.{get, put, get-put, found-put, string_eq, pair_eq}
use option_research_platform.Providers.Jobs.{
  ProviderJob, ProviderJobStatus, planned, cancelled, ProviderRequestRecord, ProviderCheckpoint,
  ProviderOperationsService, OperationError, transition_job, with_job, cancel_job, resume_job,
  cancel, resume, advance, checkpoint, is_resumable,
}

-- The status that the log of a job says it has.
abbrev pub logged : List (ProviderJobStatus × String) → ProviderJobStatus
logged events = elim (last? events) [ none ↦ planned | some event ↦ event.0 ]

logged-append :
    (events : List (ProviderJobStatus × String)) (status : ProviderJobStatus) (now : String)
    → status ≡ logged (events ++ (status, now) ∷ [])
logged-append events status now = rw (last?-append events (status, now), logged) refl

-- A change of a job that keeps its names, and its log.
record Keeps (before after : ProviderJob) : Type 0 where
  provider : after.provider ≡ before.provider
  id : after.job_id ≡ before.job_id
  checksum : after.request_checksum ≡ before.request_checksum
  in_log : after.status ≡ logged after.events

still_there :
    (m : List (String × ProviderJob)) (j key : String) (job after : ProviderJob)
    → get j m ≡ some job
    → (found : ProviderJob) × (get j (put key after m) ≡ some found)
still_there m j key job after h = elim (Bool-cases (str_eq key j)) [
  | inl same ↦ (after, get-put j key after m ∙ rw same refl)
  | inr other ↦ (job, get-put j key after m ∙ rw other h)
]

transition_job-Keeps :
    (job : ProviderJob) (flag : Bool) (status : ProviderJobStatus) (now : String)
    → Keeps job (transition_job status now (record job { cancelled = flag }))
transition_job-Keeps job flag status now = record {
  provider = refl;
  id = refl;
  checksum = refl;
  in_log = logged-append job.events status now;
}

-- A job that is resumed.
resumed :
    (now : String) (before after : ProviderJob)
    → resume_job now before ≡ ok after
    → ok (transition_job planned now (record before { cancelled = false })) ≡ resume_job now before
resumed now before after h = elim (Bool-cases (is_resumable before.status)) [
  | inl e ↦ rw e refl
  | inr e ↦ absurd (err≢ok (rw e at h))
]

module _ {P : Type 0} where
  -- A job under its key, with its request.
  pub record IsFiled (requests : List ((String × String) × ProviderRequestRecord P)) (key : String)
      (job : ProviderJob) : Type 0 where
    pub own_id : job.job_id ≡ key
    pub in_log : job.status ≡ logged job.events
    pub requested :
        (r : ProviderRequestRecord P) × (get (job.provider, key) requests ≡ some r)
        × (r.request_checksum ≡ job.request_checksum)

  pub record IsConsistent (s : ProviderOperationsService P) : Type 0 where
    pub jobs :
        (key : String) (job : ProviderJob) → get key s.jobs ≡ some job → IsFiled s.requests key job
    pub requests :
        (provider key : String) (r : ProviderRequestRecord P)
        → get (provider, key) s.requests ≡ some r
        → (job : ProviderJob) × (get key s.jobs ≡ some job)

  refiled :
      (requests : List ((String × String) × ProviderRequestRecord P)) (key : String)
      (before after : ProviderJob)
      → IsFiled requests key before
      → Keeps before after
      → IsFiled requests key after
  refiled requests key before after f k =
      let (r, found, same) = f.requested in
      record {
        own_id = k.id ∙ f.own_id;
        in_log = k.in_log;
        requested = (r, ap (λ p. get (p, key) requests) k.provider ∙ found, same ∙ sym k.checksum);
      }

  put_job-IsConsistent :
      (s : ProviderOperationsService P) (key : String) (before after : ProviderJob)
      → IsConsistent s
      → get key s.jobs ≡ some before
      → Keeps before after
      → IsConsistent (record s { jobs = put key after s.jobs })
  put_job-IsConsistent s key before after c e k = record {
    jobs = λ key' job h. elim (found-put key' key after job s.jobs h) [
      | inl (same, now) ↦
          subst (λ x. IsFiled s.requests x job) same
            (subst (λ x. IsFiled s.requests key x) now
              (refiled s.requests key before after (c.jobs key before e) k))
      | inr (found, other) ↦ c.jobs key' job found
    ];
    requests = λ provider key' r h.
        let (job, found) = c.requests provider key' r h in
        still_there s.jobs key' key job after found;
  }

  with_job-IsConsistent :
      (job_id : String) (change : ProviderJob → Result OperationError ProviderJob)
      (s : ProviderOperationsService P)
      → ((before after : ProviderJob) → change before ≡ ok after → Keeps before after)
      → IsConsistent s
      → IsConsistent (with_job job_id change s).1
  with_job-IsConsistent job_id change s keeps c = elim (Option-cases (get job_id s.jobs)) [
    | inl absent ↦ rw (absent, with_job) c
    | inr (job, e) ↦
        rw (e, with_job)
          (elim (Result-cases (change job)) [
            | inl (after, made) ↦
                rw made (put_job-IsConsistent s job_id job after c e (keeps job after made))
            | inr (x, refused) ↦ rw refused c
          ])
  ]

  pub cancel-IsConsistent :
      (now job_id : String) (s : ProviderOperationsService P)
      → IsConsistent s
      → IsConsistent (cancel now job_id s).1
  unfolding cancel
  cancel-IsConsistent now job_id s c =
      with_job-IsConsistent job_id (cancel_job now) s
        (λ before after h.
          subst (Keeps before) (ok-injective h) (transition_job-Keeps before true cancelled now))
        c

  pub resume-IsConsistent :
      (now job_id : String) (s : ProviderOperationsService P)
      → IsConsistent s
      → IsConsistent (resume now job_id s).1
  unfolding resume
  resume-IsConsistent now job_id s c =
      with_job-IsConsistent job_id (resume_job now) s
        (λ before after h.
          subst (Keeps before) (ok-injective (resumed now before after h ∙ h))
            (transition_job-Keeps before false planned now))
        c

  pub advance-IsConsistent :
      (status : ProviderJobStatus) (now job_id : String) (s : ProviderOperationsService P)
      → IsConsistent s
      → IsConsistent (advance status now job_id s).1
  unfolding advance
  advance-IsConsistent status now job_id s c =
      with_job-IsConsistent job_id (λ job. ok (transition_job status now job)) s
        (λ before after h.
          subst (Keeps before) (ok-injective h)
            (transition_job-Keeps before before.cancelled status now))
        c

  pub checkpoint-IsConsistent :
      (value : ProviderCheckpoint) (s : ProviderOperationsService P)
      → IsConsistent s
      → IsConsistent (checkpoint value s).1
  unfolding checkpoint
  checkpoint-IsConsistent value s c =
      elim (Option-cases (get (value.job_id, value.checkpoint_id) s.checkpoints)) [
        | inl new ↦ rw (new, checkpoint) (record { jobs = c.jobs; requests = c.requests })
        | inr (existing, old) ↦
            rw (old, checkpoint)
              (elim (Bool-cases (str_eq existing.response_checksum value.response_checksum)) [
                | inl same ↦ rw same (record { jobs = c.jobs; requests = c.requests })
                | inr other ↦ rw other c
              ])
      ]
