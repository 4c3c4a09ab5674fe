-- ===== src/Providers/Runtime.antt =====
-- The controls at run time, backend/data/provider_runtime.py. A datetime is its instant and a
-- timedelta its length, in microseconds, but for a run that is claimed, which is a text of `isoformat`; the digest and `isoformat` are given. Retention and cleanup
-- work on the file system and are not modelled.
use Prim.Native.String.{◌++◌ as append}
use option_research_platform.Base.{
  ℕ, ◌+◌, Bool, true, false, not, String, Option, none, some, List, [], ◌∷◌, if◌then◌else◌, ◌&&◌,
  ◌||◌, select, map, is_some,
}
use option_research_platform.Base.Int.{ℤ, ◌+ℤ◌, leb_ℤ}
use option_research_platform.Base.Order.{by_key}
use option_research_platform.Base.Sort.{sorted}
use option_research_platform.Base.Text.{text_in, text_order}
use option_research_platform.Base.Result.{Result, ok, err, Action}
use option_research_platform.Base.Dict.{get, put, string_eq, pair_eq}

pub data NetworkMode : Type 0 where
  offline : NetworkMode
  fixtures_only : NetworkMode
  cached_only : NetworkMode
  authenticated_metadata : NetworkMode
  authenticated_download : NetworkMode
  unrestricted : NetworkMode

pub record NetworkPolicy : Type 0 where
  pub mode : NetworkMode
  pub allowed_providers : List String

-- PermissionError, by its message.
pub data PermissionError : Type 0 where
  mode_denies : NetworkMode → PermissionError
  provider_not_authorized : String → PermissionError
  metadata_only : PermissionError

abbrev pub denies_requests : NetworkMode → Bool
denies_requests offline = true
denies_requests fixtures_only = true
denies_requests cached_only = true
denies_requests authenticated_metadata = false
denies_requests authenticated_download = false
denies_requests unrestricted = false

abbrev pub is_metadata : NetworkMode → Bool
is_metadata authenticated_metadata = true
is_metadata _ = false

abbrev pub is_empty : List String → Bool
is_empty [] = true
is_empty (x ∷ xs) = false

-- `NetworkPolicy.authorize`
unfoldable pub authorize : NetworkPolicy → String → Bool → Bool → Result PermissionError (Unit {0})
authorize policy provider network download =
    if not network
    then ok tt
    else if denies_requests policy.mode
    then err (mode_denies policy.mode)
    else if not (is_empty policy.allowed_providers)
        && not (text_in provider policy.allowed_providers)
    then err (provider_not_authorized provider)
    else if download && is_metadata policy.mode
    then err metadata_only
    else ok tt

pub record ProviderSchedule (S : Type 0) : Type 0 where
  pub schedule_id : String
  pub provider : String
  pub next_run : ℤ
  pub enabled : Bool
  pub details : S

pub record SchedulerService (S : Type 0) : Type 0 where
  pub schedules : List (String × ProviderSchedule S)
  pub claimed_runs : List (String × String)

pub data ScheduleError : Type 0 where
  duplicate_schedule : ScheduleError

-- `key in self.claimed_runs`
abbrev pub is_claimed : String × String → List (String × String) → Bool
is_claimed key [] = false
is_claimed key (run ∷ runs) = pair_eq.beq run key || is_claimed key runs

module _ {S : Type 0} where
  -- `SchedulerService.add`
  unfoldable pub add : ProviderSchedule S → Action ScheduleError (SchedulerService S) (Unit {0})
  add schedule s =
      if is_some (get schedule.schedule_id s.schedules)
      then (err duplicate_schedule, s)
      else (ok tt, record s { schedules = put schedule.schedule_id schedule s.schedules })

  -- `SchedulerService.due`
  unfoldable pub due : ℤ → SchedulerService S → List (ProviderSchedule S)
  due now s =
      select (λ item. item.enabled && leb_ℤ item.next_run now)
        (sorted (by_key (λ value. value.schedule_id) text_order) (map (λ item. item.1) s.schedules))

  -- `SchedulerService.claim`; a datetime is what `isoformat` makes of it, so that one instant in two
  -- zones is two runs.
  unfoldable pub claim :
      {D : Type 0} → (D → String) → String → D → SchedulerService S → Bool × SchedulerService S
  claim isoformat schedule_id due_at s =
      if is_claimed (schedule_id, isoformat due_at) s.claimed_runs
      then (false, s)
      else (true, record s { claimed_runs = (schedule_id, isoformat due_at) ∷ s.claimed_runs })

pub record WorkerLease : Type 0 where
  pub job_id : String
  pub worker_id : String
  pub expires_at : ℤ
  pub heartbeat_at : ℤ
  pub attempts : ℤ
  pub dead_lettered : Bool

pub data LeaseError : Type 0 where
  is_dead_lettered : LeaseError

-- `WorkerLease.heartbeat`
unfoldable pub heartbeat : ℤ → ℤ → Action LeaseError WorkerLease (Unit {0})
heartbeat now duration lease =
    if lease.dead_lettered
    then (err is_dead_lettered, lease)
    else (ok tt, record lease { heartbeat_at = now; expires_at = now +ℤ duration })

pub record Alert : Type 0 where
  pub fingerprint : String
  pub provider : String
  pub rule : String
  pub severity : String
  pub first_seen : ℤ
  pub last_seen : ℤ
  pub occurrences : ℕ
  pub acknowledged : Bool
  pub resolved : Bool

-- `AlertService`
abbrev pub Alerts : Type 0
Alerts = List (String × Alert)

-- `max(a, b)` of texts: the first of two equals.
abbrev pub max_text : String → String → String
max_text a b = if text_order.le b a then a else b

abbrev pub new_alert : String → String → String → String → ℤ → Alert
new_alert fingerprint provider rule severity now = record {
  fingerprint = fingerprint;
  provider = provider;
  rule = rule;
  severity = severity;
  first_seen = now;
  last_seen = now;
  occurrences = 1;
  acknowledged = false;
  resolved = false;
}

-- An open alert that is seen again.
abbrev pub seen_again : String → ℤ → Alert → Alert
seen_again severity now alert = record alert {
  last_seen = now;
  occurrences = alert.occurrences + 1;
  severity = max_text alert.severity severity;
}

-- The alert that `emit` leaves, by what it finds.
abbrev pub emitted : Option Alert → Alert → String → ℤ → Alert
emitted none fresh severity now = fresh
emitted (some alert) fresh severity now =
    if not alert.resolved then seen_again severity now alert else fresh

abbrev pub fingerprint_of : (String → String) → String → String → String
fingerprint_of digest provider rule = digest (append provider (append ":" rule))

-- `AlertService.emit`; an alert that is changed in place keeps its place.
unfoldable pub emit : (String → String) → String → String → String → ℤ → Alerts → Alert × Alerts
emit digest provider rule severity now alerts =
    let fingerprint = fingerprint_of digest provider rule in
    let alert =
      emitted (get fingerprint alerts) (new_alert fingerprint provider rule severity now) severity
        now in
    (alert, put fingerprint alert alerts)

pub data AlertError : Type 0 where
  no_such_alert : AlertError

-- `AlertService.acknowledge` and `AlertService.resolve`
abbrev pub with_alert : (Alert → Alert) → String → Action AlertError Alerts Alert
with_alert change fingerprint alerts = elim (get fingerprint alerts) [
  | none ↦ (err no_such_alert, alerts)
  | some alert ↦ (ok (change alert), put fingerprint (change alert) alerts)
]

unfoldable pub acknowledge : String → Action AlertError Alerts Alert
acknowledge = with_alert (λ alert. record alert { acknowledged = true })

unfoldable pub resolve : String → Action AlertError Alerts Alert
resolve = with_alert (λ alert. record alert { resolved = true })
