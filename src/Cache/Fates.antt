-- ===== src/Cache/Fates.antt =====
-- Which cached files are live, expired, corrupt, or make `CacheManager.cleanup`
-- (backend/data/cache/manager.py) raise, and reading the live ones.
use text.Mathlib.Text.{◌==◌ as str_eq}
use option_research_platform.Base.{
  ◌≡◌, refl, ap, ◌∙◌, sym, inl, inr, true, false, String, Option, some, none, [], ◌∷◌, arith,
  Bool-cases, Bool, select, Option-cases, ◌&&◌, if◌then◌else◌,
}
use option_research_platform.Base.Int.{ℤ, leb_ℤ, ltb_ℤ}
use option_research_platform.Base.Result.{ok, err}
use option_research_platform.Base.Dict.{get, string_eq}
use option_research_platform.Cache.{
  Json, FileContent, object, undecodable, not_utf8, StoredTime, absent, unreadable, time, Stamp,
  aware, naive, CacheEntry, CacheError, bad_encoding, no_zone, Files, get_metadata, read_entry,
  fate, Fate, is_corrupt, is_over, stays,
}

some_injective : {A : Type 0} (a b : A) → ◌≡◌ {A = Option A} (some a) (some b) → a ≡ b
some_injective a b h = cc

-- There is a time.
abbrev is_time : StoredTime → Bool
is_time absent = false
is_time unreadable = false
is_time (time t) = true

-- No expiry, or one that has not passed.
abbrev lasts : ℤ → StoredTime → Bool
lasts now absent = true
lasts now unreadable = false
lasts now (time (aware e)) = leb_ℤ now e
lasts now (time (naive e)) = false

abbrev has_passed : ℤ → StoredTime → Bool
has_passed now absent = false
has_passed now unreadable = false
has_passed now (time (aware e)) = ltb_ℤ e now
has_passed now (time (naive e)) = false

abbrev is_naive : StoredTime → Bool
is_naive absent = false
is_naive unreadable = false
is_naive (time (aware e)) = false
is_naive (time (naive e)) = true

abbrev pub fate_by : Bool → Bool → Fate
fate_by true expired = stays
fate_by false true = is_over
fate_by false false = is_corrupt

module _ (json : Json) (digest : String → String) (path_of : String → String) where
  open json use {J, canonical, reload}

  -- The payload is there, and has the hash.
  abbrev is_intact : Option J → String → Bool
  is_intact none hash = false
  is_intact (some payload) hash = str_eq hash (digest (canonical payload))

  -- A file with its times, of which the expiry passes a test, and its payload with the right hash.
  abbrev is_object_with : (StoredTime → Bool) → FileContent J → Bool
  is_object_with test not_utf8 = false
  is_object_with test undecodable = false
  is_object_with test (object created expires payload version hash manifest name) =
      is_time created && (test expires && is_intact payload hash)

  -- Such a file that has not expired, and one that has.
  abbrev pub is_live : ℤ → String × FileContent J → Bool
  is_live now file = is_object_with (lasts now) file.1

  abbrev pub is_expired : ℤ → String × FileContent J → Bool
  is_expired now file = is_object_with (has_passed now) file.1

  -- A file at which `cleanup` raises, and the error.
  abbrev pub error_at : FileContent J → Option CacheError
  error_at not_utf8 = some bad_encoding
  error_at undecodable = none
  error_at (object created expires payload version hash manifest name) =
      if is_object_with is_naive (object created expires payload version hash manifest name)
      then some no_zone
      else none

  -- `cleanup` does not raise at the file.
  abbrev pub IsQuiet : String × FileContent J → Type 0
  IsQuiet file = error_at file.1 ≡ none

  pub fate_lem :
      (now : ℤ) (path : String) (content : FileContent J)
      → error_at content ≡ none
      → fate json digest path_of now content
        ≡ ok (fate_by (is_live now (path, content)) (is_expired now (path, content)))
  unfolding fate
  fate_lem now path not_utf8 h = cc
  fate_lem now path undecodable h = refl
  fate_lem now path (object created expires none v i m n) h = ground arith
  fate_lem now path (object absent expires (some p) v i m n) h = refl
  fate_lem now path (object unreadable expires (some p) v i m n) h = refl
  fate_lem now path (object (time t) absent (some p) v i m n) h = ground arith
  fate_lem now path (object (time t) unreadable (some p) v i m n) h = refl
  fate_lem now path (object (time t) (time (aware e)) (some p) v i m n) h = ground arith
  fate_lem now path (object (time t) (time (naive e)) (some p) v i m n) h = ground arith

  pub fate_raises :
      (now : ℤ) (content : FileContent J) (e : CacheError)
      → error_at content ≡ some e
      → fate json digest path_of now content ≡ err e
  unfolding fate
  fate_raises now not_utf8 e h = cc
  fate_raises now undecodable e h = cc
  fate_raises now (object created expires none v i m n) e h = ground arith
  fate_raises now (object absent expires (some p) v i m n) e h = cc
  fate_raises now (object unreadable expires (some p) v i m n) e h = cc
  fate_raises now (object (time t) absent (some p) v i m n) e h = cc
  fate_raises now (object (time t) unreadable (some p) v i m n) e h = cc
  fate_raises now (object (time t) (time (aware x)) (some p) v i m n) e h = cc
  fate_raises now (object (time t) (time (naive x)) (some p) v i m n) e h = ground arith

  pub not_both :
      (now : ℤ) (file : String × FileContent J)
      → is_live now file ≡ true
      → is_expired now file ≡ false
  not_both now (path, not_utf8) h = refl
  not_both now (path, undecodable) h = refl
  not_both now (path, object c absent p v i m n) h = ground arith
  not_both now (path, object c unreadable p v i m n) h = ground arith
  not_both now (path, object c (time (aware e)) p v i m n) h = ground arith
  not_both now (path, object c (time (naive e)) p v i m n) h = ground arith

  abbrev entry_with :
      Stamp
      → Option Stamp
      → J
      → Option String
      → String
      → Option String
      → Option String
      → CacheEntry J
  entry_with created expires payload version hash manifest name = record {
    payload = payload;
    created_at = created;
    expires_at = expires;
    version = version;
    integrity_hash = hash;
    manifest_checksum = manifest;
    cache_key = name;
  }

  -- A live file is read, and stays.
  read_live :
      (now : ℤ) (key path : String) (content : FileContent J) (files : Files json digest path_of)
      → is_live now (path, content) ≡ true
      → (entry : CacheEntry J) × (read_entry json digest path_of now key (some content) files
          ≡ (ok (some entry), files))
  read_live now key path not_utf8 files h = cc
  read_live now key path undecodable files h = cc
  read_live now key path (object absent e p v i m n) files h = cc
  read_live now key path (object unreadable e p v i m n) files h = cc
  read_live now key path (object (time t) unreadable p v i m n) files h = cc
  read_live now key path (object (time t) (time (naive e)) p v i m n) files h = cc
  read_live now key path (object (time t) absent none v i m n) files h = cc
  read_live now key path (object (time t) (time (aware e)) none v i m n) files h =
      absurd (ground arith)
  read_live now key path (object (time t) absent (some p) v i m n) files h =
      (entry_with t none p v i m n, ground arith)
  read_live now key path (object (time t) (time (aware e)) (some p) v i m n) files h =
      (entry_with t (some (aware e)) p v i m n, ground arith)

  found-select :
      (now : ℤ) (key : String) (content : FileContent J) (files : Files json digest path_of)
      → get key (select (is_live now) files) ≡ some content
      → (path : String) × (is_live now (path, content) ≡ true)
  unfolding get
  found-select now key content [] h = cc
  found-select now key content ((path, c) ∷ rest) h = elim (Bool-cases (is_live now (path, c))) [
    | inl live ↦ elim (Bool-cases (str_eq path key)) [
      | inl same ↦ (
        path,
        ap (λ x. is_live now (path, x)) (sym (some_injective c content (rw same at (rw live at h))))
            ∙ live,
      )
      | inr other ↦ found-select now key content rest (rw other at (rw live at h))
    ]
    | inr dead ↦ found-select now key content rest (rw dead at h)
  ]

  pub reads_after :
      (now : ℤ) (files : Files json digest path_of) (key : String)
      → let kept = select (is_live now) files in
        (found : Option (CacheEntry J)) × (get_metadata json digest path_of now key kept
          ≡ (ok found, kept))
  unfolding get_metadata
  reads_after now files key =
      let kept = select (is_live now) files in
      elim (Option-cases (get (path_of key) kept)) [
        | inl gone ↦ (none, ap (λ c. read_entry json digest path_of now key c kept) gone)
        | inr (content, found) ↦
            let (path, live) = found-select now (path_of key) content files found in
            let (entry, e) = read_live now key path content kept live in
            (some entry, ap (λ c. read_entry json digest path_of now key c kept) found ∙ e)
      ]
