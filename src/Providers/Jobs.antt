-- ===== src/Providers/Jobs.antt =====
-- `ProviderOperationsService` of backend/data/provider_operations.py: jobs, requests, checkpoints and
-- failures. `now` is the clock's text; the digest and the canonical text of parameters are given.
use Prim.Native.String.{slice, ◌++◌ as append}
use text.Mathlib.Text.{◌==◌ as str_eq}
use option_research_platform.Base.{
  Bool, true, false, not, String, Option, none, some, List, [], ◌∷◌, ◌++◌, if◌then◌else◌, ◌&&◌,
  select,
}
use option_research_platform.Base.Int.{ℤ}
use option_research_platform.Base.Result.{Result, ok, err, Action}
use option_research_platform.Base.Dict.{get, put, set_default, get_or, string_eq, pair_eq}

pub data ProviderJobStatus : Type 0 where
  planned : ProviderJobStatus
  requesting : ProviderJobStatus
  throttled : ProviderJobStatus
  importing : ProviderJobStatus
  certifying : ProviderJobStatus
  completed : ProviderJobStatus
  failed : ProviderJobStatus
  cancelled : ProviderJobStatus

pub record ProviderRequestRecord (P : Type 0) : Type 0 where
  pub provider : String
  pub request_id : String
  pub dataset : String
  pub request_checksum : String
  pub parameters : P
  pub created_at : String

pub record ProviderCheckpoint : Type 0 where
  pub provider : String
  pub job_id : String
  pub checkpoint_id : String
  pub ordinal : ℤ
  pub continuation : Option String
  pub response_checksum : String
  pub completed : Bool

pub record ProviderFailureRecord : Type 0 where
  pub provider : String
  pub job_id : String
  pub code : String
  pub message : String
  pub retryable : Bool
  pub resolved : Bool

pub record ProviderJob : Type 0 where
  pub provider : String
  pub job_id : String
  pub request_checksum : String
  pub status : ProviderJobStatus
  pub events : List (ProviderJobStatus × String)
  pub cancelled : Bool

pub record ProviderOperationsService (P : Type 0) : Type 0 where
  pub jobs : List (String × ProviderJob)
  pub requests : List ((String × String) × ProviderRequestRecord P)
  pub checkpoints : List ((String × String) × ProviderCheckpoint)
  pub failures : List ProviderFailureRecord

pub data OperationError : Type 0 where
  no_such_job : OperationError
  response_changed : OperationError
  not_resumable : OperationError

-- `__init__`
abbrev pub new_service : {P : Type 0} → ProviderOperationsService P
new_service = record { jobs = []; requests = []; checkpoints = []; failures = [] }

-- `ProviderJob.transition`
abbrev pub transition_job : ProviderJobStatus → String → ProviderJob → ProviderJob
transition_job status now job = record job {
  status = status;
  events = job.events ++ (status, now) ∷ [];
}

abbrev pub new_job : String → String → String → ProviderJob
new_job provider job_id checksum = record {
  provider = provider;
  job_id = job_id;
  request_checksum = checksum;
  status = planned;
  events = [];
  cancelled = false;
}

-- `f"{provider}-{checksum[:16]}"`, of a digest in ASCII
unfoldable pub job_id_of : String → String → String
job_id_of provider checksum = append provider (append "-" (slice checksum 0 16))

-- `self.jobs[job_id]`, and what is done with the job.
abbrev pub with_job :
    {P : Type 0}
    → String
    → (ProviderJob → Result OperationError ProviderJob)
    → Action OperationError (ProviderOperationsService P) ProviderJob
with_job job_id change s = elim (get job_id s.jobs) [
  | none ↦ (err no_such_job, s)
  | some job ↦ elim (change job) [
    | err e ↦ (err e, s)
    | ok job' ↦ (ok job', record s { jobs = put job_id job' s.jobs })
  ]
]

-- `cancel`
abbrev pub cancel_job : String → ProviderJob → Result OperationError ProviderJob
cancel_job now job = ok (transition_job cancelled now (record job { cancelled = true }))

-- The job's status is one from which it is resumed.
abbrev pub is_resumable : ProviderJobStatus → Bool
is_resumable cancelled = true
is_resumable failed = true
is_resumable _ = false

-- `resume`
abbrev pub resume_job : String → ProviderJob → Result OperationError ProviderJob
resume_job now job =
    if is_resumable job.status
    then ok (transition_job planned now (record job { cancelled = false }))
    else err not_resumable

module _ {P : Type 0} where
  unfoldable pub cancel :
      String → String → Action OperationError (ProviderOperationsService P) ProviderJob
  cancel now job_id = with_job job_id (cancel_job now)

  unfoldable pub resume :
      String → String → Action OperationError (ProviderOperationsService P) ProviderJob
  resume now job_id = with_job job_id (resume_job now)

  -- A status that a worker sets on the job that it was given.
  unfoldable pub advance :
      ProviderJobStatus
      → String
      → String
      → Action OperationError (ProviderOperationsService P) ProviderJob
  advance status now job_id = with_job job_id (λ job. ok (transition_job status now job))

  -- `self.checkpoints[key] = value`
  abbrev pub write_checkpoint :
      ProviderCheckpoint → Action OperationError (ProviderOperationsService P) (Unit {0})
  write_checkpoint value s = (
    ok tt,
    record s { checkpoints = put (value.job_id, value.checkpoint_id) value s.checkpoints },
  )

  -- `checkpoint`
  unfoldable pub checkpoint :
      ProviderCheckpoint → Action OperationError (ProviderOperationsService P) (Unit {0})
  checkpoint value s = elim (get (value.job_id, value.checkpoint_id) s.checkpoints) [
    | none ↦ write_checkpoint value s
    | some existing ↦
        if not (str_eq existing.response_checksum value.response_checksum)
        then (err response_changed, s)
        else write_checkpoint value s
  ]

  -- `unresolved_failures`
  abbrev pub unresolved_failures :
      Option String → ProviderOperationsService P → List ProviderFailureRecord
  unresolved_failures provider s =
      select
        (λ failure.
          not failure.resolved
          && elim provider [ none ↦ true | some name ↦ str_eq failure.provider name ])
        s.failures

module _ {P : Type 0} (digest : String → String) (canonical dataset_of : P → String) where
  -- `create_job`
  unfoldable pub create_job :
      String → String → P → ProviderOperationsService P → ProviderJob × ProviderOperationsService P
  create_job now provider parameters s =
      let checksum = digest (canonical parameters) in
      let job_id = job_id_of provider checksum in
      let job = new_job provider job_id checksum in
      let request : ProviderRequestRecord P = record {
        provider = provider;
        request_id = job_id;
        dataset = dataset_of parameters;
        request_checksum = checksum;
        parameters = parameters;
        created_at = now;
      } in
      (
        get_or job_id job s.jobs,
        record s {
          jobs = set_default job_id job s.jobs;
          requests = set_default (provider, job_id) request s.requests;
        },
      )
