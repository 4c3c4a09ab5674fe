-- ===== src/Cache/Cleanup.antt =====
-- `CacheManager.cleanup` (backend/data/cache/manager.py), and reading after it.
use option_research_platform.Base.{
  ◌+◌, ◌≡◌, refl, ap, ◌∙◌, sym, inl, inr, String, Option, some, List, [], ◌∷◌, ◌++◌, arith,
  Bool-cases, length, select, All,
}
use option_research_platform.Base.Int.{ℤ}
use option_research_platform.Base.Result.{Result, ok, err}
use option_research_platform.Base.Dict.{string_eq}
use option_research_platform.Cache.{
  Json, FileContent, CacheEntry, CacheError, CacheCleanupReport, no_removals, Files, get_metadata,
  fate, Fate, is_corrupt, is_over, stays, cleanup_from, after_fate, keep, cleanup,
}
use option_research_platform.Cache.Fates.{
  is_live, is_expired, error_at, IsQuiet, fate_by, fate_lem, fate_raises, not_both, reads_after,
}

nil_right : {A : Type 0} (xs : List A) → xs ++ [] ≡ xs
nil_right [] = refl
nil_right (x ∷ xs) = ap (λ l. x ∷ l) (nil_right xs)

module _ (json : Json) (digest : String → String) (path_of : String → String) where
  open json use {J, canonical, reload}

  -- What the loop leaves of files at which it does not raise, and what it counts.
  Counted : ℤ → CacheCleanupReport → Files json digest path_of → CacheCleanupReport → Type 0
  Counted now report files out =
      (out.removed_expired
        ≡ report.removed_expired + length (select (is_expired json digest path_of now) files))
      × (length files + report.removed_expired + report.removed_corrupt
          ≡ length (select (is_live json digest path_of now) files)
            + out.removed_expired
            + out.removed_corrupt)

  cleanup_from-fate :
      (now : ℤ) (report : CacheCleanupReport) (file : String × FileContent J)
      (rest : Files json digest path_of) (r : Result CacheError Fate)
      → fate json digest path_of now file.1 ≡ r
      → cleanup_from json digest path_of now report (file ∷ rest)
        ≡ after_fate json digest path_of file report rest
            (λ x. cleanup_from json digest path_of now x rest)
            r
  unfolding cleanup_from
  cleanup_from-fate now report file rest r h =
      ap
        (after_fate json digest path_of file report rest
          (λ x. cleanup_from json digest path_of now x rest))
        h

  cleanup_from-append :
      (now : ℤ) (report : CacheCleanupReport) (files later : Files json digest path_of)
      → All (IsQuiet json digest path_of) files
      → (mid : CacheCleanupReport) × Counted now report files mid
        × (cleanup_from json digest path_of now report (files ++ later) ≡ (
          (cleanup_from json digest path_of now mid later).0,
          select (is_live json digest path_of now) files
              ++ (cleanup_from json digest path_of now mid later).1,
        ))
  unfolding Counted
  cleanup_from-append now report [] later q = (report, (omega arith, omega arith), refl)
  cleanup_from-append now report (file ∷ files) later q =
      let f = fate_lem json digest path_of now file.0 file.1 q.0 in
      let by = cleanup_from-fate now report file (files ++ later) in
      elim (Bool-cases (is_live json digest path_of now file)) [
        | inl live ↦
            let (mid, c, e) = cleanup_from-append now report files later q.1 in
            (
              mid,
              rw (live, not_both json digest path_of now file live)
                  (omega (arith, c.0), omega (arith, c.1)),
              by (ok stays)
                    (f ∙ ap (λ b. ok (fate_by b (is_expired json digest path_of now file))) live)
                  ∙ ap (keep json digest path_of file) e
                  ∙ rw live refl,
            )
        | inr dead ↦ elim (Bool-cases (is_expired json digest path_of now file)) [
          | inl over ↦
              let (mid, c, e) =
                cleanup_from-append now
                  (record report { removed_expired = report.removed_expired + 1 }) files later
                  q.1 in
              (
                mid,
                rw (dead, over) (omega (arith, c.0), omega (arith, c.1)),
                by (ok is_over) (f ∙ rw (dead, over) refl) ∙ e ∙ rw dead refl,
              )
          | inr broken ↦
              let (mid, c, e) =
                cleanup_from-append now
                  (record report { removed_corrupt = report.removed_corrupt + 1 }) files later
                  q.1 in
              (
                mid,
                rw (dead, broken) (omega (arith, c.0), omega (arith, c.1)),
                by (ok is_corrupt) (f ∙ rw (dead, broken) refl) ∙ e ∙ rw dead refl,
              )
        ]
      ]

  -- Of files that hold text, and where no expiry without a zone is compared, cleanup keeps exactly those
  -- that have their times and their payload with the right hash and have not expired, in their order,
  -- and does not raise. Its report counts those that are complete and have expired, and all others as
  -- corrupt. At the same time reading by any key afterwards does not raise, and leaves the files as
  -- they are.
  pub cleanup_lem :
      (now : ℤ) (files : Files json digest path_of)
      → All (IsQuiet json digest path_of) files
      → let kept = select (is_live json digest path_of now) files in
        (report : CacheCleanupReport) × (cleanup json digest path_of now files ≡ (ok report, kept))
        × (report.removed_expired ≡ length (select (is_expired json digest path_of now) files))
        × (length files ≡ length kept + report.removed_expired + report.removed_corrupt)
        × ((key : String)
            → (found : Option (CacheEntry J)) × (get_metadata json digest path_of now key kept
                ≡ (ok found, kept)))
  unfolding cleanup cleanup_from Counted
  cleanup_lem now files quiet =
      let (report, counted, e) = cleanup_from-append now no_removals files [] quiet in
      (
        report,
        ap (cleanup_from json digest path_of now no_removals) (sym (nil_right files))
            ∙ e
            ∙ ap (λ k. (ok report, k)) (nil_right (select (is_live json digest path_of now) files)),
        omega (arith, counted.0),
        omega (arith, counted.1),
        reads_after json digest path_of now files,
      )

  -- The first file that is no UTF-8 text, or whose expiry without a zone is compared, makes cleanup raise:
  -- it and those after it stay, and of those before it the ones that are live.
  cleanup_raises :
      (now : ℤ) (before later : Files json digest path_of) (bad : String × FileContent J)
      (e : CacheError)
      → All (IsQuiet json digest path_of) before
      → error_at json digest path_of bad.1 ≡ some e
      → cleanup json digest path_of now (before ++ bad ∷ later)
        ≡ (err e, select (is_live json digest path_of now) before ++ bad ∷ later)
  unfolding cleanup
  cleanup_raises now before later bad e quiet raises =
      let (report, counted, done) =
        cleanup_from-append now no_removals before (bad ∷ later) quiet in
      done
      ∙ ap (λ r. (r.0, select (is_live json digest path_of now) before ++ r.1))
          (cleanup_from-fate now report bad later (err e)
            (fate_raises json digest path_of now bad.1 e raises))
