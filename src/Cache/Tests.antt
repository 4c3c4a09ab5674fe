-- ===== src/Cache/Tests.antt =====
-- A cache of texts, and the theorems at it.
use text.Mathlib.Text.{◌==◌ as str_eq}
use option_research_platform.Base.{
  ◌+◌, ◌≡◌, refl, String, Option, some, none, [], ◌∷◌, ◌++◌, if◌then◌else◌, length, select,
}
use option_research_platform.Base.Int.{pos}
use option_research_platform.Base.Result.{ok, err}
use option_research_platform.Base.Dict.{get, put, remove, string_eq}
use option_research_platform.Cache.{
  Json, FileContent, object, undecodable, CacheEntry, Files, set, get_metadata, expiry, has_expired,
  cleanup, malformed, time, aware, naive, absent, aware_of, CacheCleanupReport, no_zone,
}
use option_research_platform.Cache.RoundTrip.{get_metadata-set}
use option_research_platform.Cache.Fates.{is_live, is_expired}
use option_research_platform.Cache.Cleanup.{cleanup_lem}

abbrev same : String → String
same t = t

abbrev texts : Json
texts = record { J = String; canonical = same; reload = same; null = "null" }

-- A broken file, one that expired, one without its time, and one that is live.
abbrev files : Files texts same same
files =
    ("a", undecodable)
    ∷ ("b", object (time (aware (pos 1))) (time (aware (pos 5))) (some "x") none "x" none none)
    ∷ ("c", object absent absent (some "x") none "x" none none)
    ∷ ("d", object (time (aware (pos 1))) absent (some "y") none "y" none none)
    ∷ []

get_metadata-set_example :
    let written = set texts same same (some (pos 10)) (pos 1) "b" "v" none none (some "m") files in
    (get_metadata texts same same (pos 4) "b" written ≡ (
      if has_expired (pos 4) (expiry (pos 1) none (some (pos 10)))
      then (ok none, remove "b" written)
      else (
        ok (
            some (record {
              payload = "v";
              created_at = aware (pos 1);
              expires_at = aware_of (expiry (pos 1) none (some (pos 10)));
              version = none;
              integrity_hash = "v";
              manifest_checksum = some "m";
              cache_key = some "b";
            })),
        written,
      )))
    × ((path : String)
        → get path written ≡ (if str_eq "b" path then get "b" written else get path files))
get_metadata-set_example =
    get_metadata-set texts same same (some (pos 10)) (pos 1) (pos 4) "b" "v" none none (some "m")
      files refl

cleanup_lem_example :
    let kept = select (is_live texts same same (pos 7)) files in
    (report : CacheCleanupReport) × (cleanup texts same same (pos 7) files ≡ (ok report, kept))
    × (report.removed_expired ≡ length (select (is_expired texts same same (pos 7)) files))
    × (length files ≡ length kept + report.removed_expired + report.removed_corrupt)
    × ((key : String)
        → (found : Option (CacheEntry String)) × (get_metadata texts same same (pos 7) key kept
            ≡ (ok found, kept)))
cleanup_lem_example = cleanup_lem texts same same (pos 7) files (refl, (refl, (refl, (refl, tt))))

run-cleanup : cleanup texts same same (pos 7) files ≡ (
  ok (record { removed_expired = 1; removed_corrupt = 2; removed_invalidated = 0 }),
  ("d", object (time (aware (pos 1))) absent (some "y") none "y" none none) ∷ [],
)
unfolding cleanup
run-cleanup = refl

-- A file whose expiry has no zone.
abbrev zoneless : String × FileContent String
zoneless = ("e", object (time (aware (pos 1))) (time (naive (pos 9))) (some "z") none "z" none none)

run-cleanup_raises : cleanup texts same same (pos 7) (files ++ zoneless ∷ files) ≡ (
  err no_zone,
  ("d", object (time (aware (pos 1))) absent (some "y") none "y" none none) ∷ zoneless ∷ files,
)
unfolding cleanup
run-cleanup_raises = refl

-- Reading the file without its time raises, where `cleanup` would remove it.
malformed_raises : (get_metadata texts same same (pos 7) "c" files).0 ≡ err malformed
unfolding get_metadata get
malformed_raises = refl

-- JSON writes the keys 10 and 9 of a dictionary in the order of numbers, and reads texts, of which "10"
-- comes first.
abbrev numbered : String → String
numbered t = if str_eq t "9, 10" then "10, 9" else t

abbrev numbers : Json
numbers = record { J = String; canonical = same; reload = numbered; null = "null" }

numbered_is_lost :
    (get_metadata numbers same same
      (pos 2)
      "k"
      (set numbers same same none (pos 1) "k" "9, 10" none none none [])).0
    ≡ ok none
unfolding get_metadata get set put
numbered_is_lost = refl
