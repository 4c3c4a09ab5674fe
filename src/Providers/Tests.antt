-- ===== src/Providers/Tests.antt =====
-- Jobs, checkpoints, claims and alerts, and the theorems at them.
use text.Mathlib.Text.{◌==◌ as str_eq}
use option_research_platform.Base.{
  ◌≡◌, refl, false, String, some, none, [], ◌∷◌, if◌then◌else◌, ◌&&◌, not,
}
use option_research_platform.Base.Int.{ℤ, pos}
use option_research_platform.Base.Result.{err}
use option_research_platform.Base.Dict.{get, put, set_default, string_eq}
use option_research_platform.Providers.Jobs.{
  ProviderOperationsService, ProviderCheckpoint, new_service, create_job, cancel, resume,
  checkpoint, not_resumable, response_changed, job_id_of,
}
use option_research_platform.Providers.Runtime.{Alert, Alerts, SchedulerService, emit, is_claimed}
use option_research_platform.Providers.Consistency.{IsConsistent}
use option_research_platform.Providers.History.{
  creates, cancels, resumes, new, then_, History-IsConsistent,
}
use option_research_platform.Providers.Checkpoints.{
  replay, response, first_response, or_else, response-replay,
}
use option_research_platform.Providers.Claims.{granted, is_asked, granted_once}
use option_research_platform.Providers.AlertLog.{
  emit_all, SeenAgain, fingerprint, emit_all-SeenAgain,
}

-- Texts stand for parameters and for their digests.
abbrev same : String → String
same t = t

abbrev started : ProviderOperationsService String
started = (create_job same same same "09:00" "orats" "0123456789abcdef0123" new_service).1

abbrev job_name : String
job_name = "orats-0123456789abcdef"

abbrev restarted : ProviderOperationsService String
restarted = (resume "09:02" job_name (cancel "09:01" job_name started).1).1

History-IsConsistent_example : IsConsistent restarted
History-IsConsistent_example = History-IsConsistent same same same restarted (
    then_
      (then_ (then_ new (creates "09:00" "orats" "0123456789abcdef0123" new_service))
        (cancels "09:01" job_name started))
      (resumes "09:02" job_name (cancel "09:01" job_name started).1))

abbrev answer : String → String → ProviderCheckpoint
answer name checksum = record {
  provider = "orats";
  job_id = job_name;
  checkpoint_id = name;
  ordinal = pos 1;
  continuation = none;
  response_checksum = checksum;
  completed = false;
}

-- The third call raises, and changes nothing.
response-replay_example :
    response
      (job_name, "1")
      (replay (answer "1" "a" ∷ answer "2" "b" ∷ answer "1" "c" ∷ []) started)
    ≡ or_else
        (response (job_name, "1") started)
        (first_response (job_name, "1") (answer "1" "a" ∷ answer "2" "b" ∷ answer "1" "c" ∷ []))
response-replay_example =
    response-replay (answer "1" "a" ∷ answer "2" "b" ∷ answer "1" "c" ∷ []) started (job_name, "1")

abbrev scheduler : SchedulerService (Unit {0})
scheduler = record { schedules = []; claimed_runs = [] }

abbrev text_of : ℤ → String
text_of t = "noon"

granted_once_example :
    granted text_of
      ("daily", "noon")
      (("daily", pos 12) ∷ ("weekly", pos 12) ∷ ("daily", pos 12) ∷ [])
      scheduler
    ≡ (if not (is_claimed ("daily", "noon") [])
          && is_asked text_of
              ("daily", "noon")
              (("daily", pos 12) ∷ ("weekly", pos 12) ∷ ("daily", pos 12) ∷ [])
        then 1
        else 0)
granted_once_example =
    granted_once text_of (("daily", pos 12) ∷ ("weekly", pos 12) ∷ ("daily", pos 12) ∷ []) scheduler
      ("daily", "noon")

abbrev warned : Alert
warned = record {
  fingerprint = "orats:stale";
  provider = "orats";
  rule = "stale";
  severity = "warning";
  first_seen = pos 1;
  last_seen = pos 1;
  occurrences = 1;
  acknowledged = false;
  resolved = false;
}

abbrev log : Alerts
log = ("orats:stale", warned) ∷ []

-- A critical alert after a warning stays a warning.
emit_all-SeenAgain_example :
    (after : Alert) × ((other : String)
      → get other
          (emit_all same "orats" "stale" (("critical", pos 2) ∷ ("critical", pos 3) ∷ []) log)
        ≡ (if str_eq (fingerprint same "orats" "stale") other then some after else get other log))
    × SeenAgain same "orats" "stale" warned after (("critical", pos 2) ∷ ("critical", pos 3) ∷ [])
unfolding get
emit_all-SeenAgain_example =
    emit_all-SeenAgain same "orats" "stale" (("critical", pos 2) ∷ ("critical", pos 3) ∷ []) log
      warned refl refl

still_a_warning : (emit same "orats" "stale" "critical" (pos 2) log).0.severity ≡ "warning"
unfolding emit get
still_a_warning = refl

planned_is_not_resumed : (resume "09:01" job_name started).0 ≡ err not_resumable
unfolding resume create_job get put set_default job_id_of
planned_is_not_resumed = refl

third_answer_raises :
    (checkpoint (answer "1" "c") (checkpoint (answer "1" "a") started).1).0 ≡ err response_changed
unfolding checkpoint create_job get put set_default job_id_of
third_answer_raises = refl
