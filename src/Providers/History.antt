-- ===== src/Providers/History.antt =====
-- Every history of `ProviderOperationsService` (backend/data/provider_operations.py) keeps its records
-- in agreement.
use option_research_platform.Base.{
  ◌≡◌, ◌≢◌, refl, sym, ap, ◌∙◌, inl, inr, String, Option, none, some, Option-cases, subst,
}
use option_research_platform.Base.Dict.{
  get, get-nil, get-put_self, get_or, set_default, set_default-new, get-set_default_self,
  kept-set_default, found-set_default, string_eq, pair_eq,
}
use option_research_platform.Providers.Jobs.{
  ProviderJobStatus, ProviderRequestRecord, ProviderCheckpoint, ProviderOperationsService, new_job,
  new_service, job_id_of, cancel, resume, advance, checkpoint, create_job,
}
use option_research_platform.Providers.Consistency.{
  IsFiled, IsConsistent, cancel-IsConsistent, resume-IsConsistent, advance-IsConsistent,
  checkpoint-IsConsistent,
}

none≢some : {A : Type 0} {a : A} → ◌≢◌ {A = Option A} none (some a)
none≢some h = cc

module _ {P : Type 0} where
  -- A new request has a new job.
  new_request :
      (s : ProviderOperationsService P) (provider id : String)
      → IsConsistent s
      → get id s.jobs ≡ none
      → get (provider, id) s.requests ≡ none
  new_request s provider id c new = elim (Option-cases (get (provider, id) s.requests)) [
    | inl e ↦ e
    | inr (r, e) ↦ let (job, found) = c.requests provider id r e in cc
  ]

  file_job-IsConsistent :
      (s : ProviderOperationsService P) (provider id checksum : String)
      (request : ProviderRequestRecord P)
      → IsConsistent s
      → request.request_checksum ≡ checksum
      → IsConsistent (record s {
        jobs = set_default id (new_job provider id checksum) s.jobs;
        requests = set_default (provider, id) request s.requests;
      })
  file_job-IsConsistent s provider id checksum request c same_checksum = record {
    jobs = λ key job h.
        elim (found-set_default key id (new_job provider id checksum) job s.jobs h) [
          | inl (same, now, new) ↦
              subst (λ x. IsFiled (set_default (provider, id) request s.requests) x job) same
                (subst (λ x. IsFiled (set_default (provider, id) request s.requests) id x) now
                  (record {
                    own_id = refl;
                    in_log = refl;
                    requested = (
                      request,
                      ap (get (provider, id)) (
                            set_default-new (provider, id) request s.requests
                              (new_request s provider id c new))
                          ∙ get-put_self (provider, id) request s.requests,
                      same_checksum,
                    );
                  }))
          | inr found ↦
              let f = c.jobs key job found in
              let (r, e, same) = f.requested in
              record {
                own_id = f.own_id;
                in_log = f.in_log;
                requested = (
                  r,
                  kept-set_default (job.provider, key) (provider, id) request r s.requests e,
                  same,
                );
              }
        ];
    requests = λ p key r h.
        elim (found-set_default (p, key) (provider, id) request r s.requests h) [
          | inl (same, now, new) ↦ (
            get_or id (new_job provider id checksum) s.jobs,
            ap
                  (λ (x : String × String).
                    get x.1 (set_default id (new_job provider id checksum) s.jobs))
                  (sym same)
                ∙ get-set_default_self id (new_job provider id checksum) s.jobs,
          )
          | inr found ↦
              let (job, e) = c.requests p key r found in
              (job, kept-set_default key id (new_job provider id checksum) job s.jobs e)
        ];
  }

module _ {P : Type 0} (digest : String → String) (canonical dataset_of : P → String) where
  create_job-IsConsistent :
      (now provider : String) (parameters : P) (s : ProviderOperationsService P)
      → IsConsistent s
      → IsConsistent (create_job digest canonical dataset_of now provider parameters s).1
  unfolding create_job
  create_job-IsConsistent now provider parameters s c =
      file_job-IsConsistent s provider (job_id_of provider (digest (canonical parameters)))
        (digest (canonical parameters)) _ c refl

  -- A call of an operation, or a status that a worker sets.
  pub data Operation : ProviderOperationsService P → ProviderOperationsService P → Type 0 where
    creates :
        (now provider : String) (parameters : P) (s : ProviderOperationsService P)
        → Operation s (create_job digest canonical dataset_of now provider parameters s).1
    cancels :
        (now job_id : String) (s : ProviderOperationsService P)
        → Operation s (cancel now job_id s).1
    resumes :
        (now job_id : String) (s : ProviderOperationsService P)
        → Operation s (resume now job_id s).1
    advances :
        (status : ProviderJobStatus) (now job_id : String) (s : ProviderOperationsService P)
        → Operation s (advance status now job_id s).1
    checkpoints :
        (value : ProviderCheckpoint) (s : ProviderOperationsService P)
        → Operation s (checkpoint value s).1

  -- From a new service.
  pub data History : ProviderOperationsService P → Type 0 where
    new : History new_service
    then_ : {s t : ProviderOperationsService P} → History s → Operation s t → History t

  Operation-IsConsistent :
      {s t : ProviderOperationsService P} → Operation s t → IsConsistent s → IsConsistent t
  Operation-IsConsistent (creates now provider parameters s) c =
      create_job-IsConsistent now provider parameters s c
  Operation-IsConsistent (cancels now job_id s) c = cancel-IsConsistent now job_id s c
  Operation-IsConsistent (resumes now job_id s) c = resume-IsConsistent now job_id s c
  Operation-IsConsistent (advances status now job_id s) c =
      advance-IsConsistent status now job_id s c
  Operation-IsConsistent (checkpoints value s) c = checkpoint-IsConsistent value s c

  new_service-IsConsistent : IsConsistent {P = P} new_service
  new_service-IsConsistent = record {
    jobs = λ key job h. absurd (none≢some (sym (get-nil key) ∙ h));
    requests = λ p key r h. absurd (none≢some (sym (get-nil (p, key)) ∙ h));
  }

  -- Whatever is asked of a new service, and whatever status its workers set, raises included: every
  -- job stands under its own identifier, has the status that its log ends with (PLANNED where it is
  -- empty), and has a request with its checksum; and every request has a job.
  pub History-IsConsistent : (s : ProviderOperationsService P) → History s → IsConsistent s
  History-IsConsistent s new = new_service-IsConsistent
  History-IsConsistent s (then_ h o) = Operation-IsConsistent o (History-IsConsistent _ h)
