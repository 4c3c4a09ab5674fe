-- ===== src/Cache.antt =====
-- The cache of historical data, backend/data/cache/manager.py. The directory is a dictionary from paths
-- to what its files hold; a file is written whole (`os.replace`), and removing one succeeds. A time is
-- its instant in microseconds, or the reading of a clock without a zone, which cannot be compared with
-- an instant; `isoformat` and `fromisoformat` keep it.
mod RoundTrip
mod Fates
mod Cleanup
mod Tests
use text.Mathlib.Text.{◌==◌ as str_eq}
use option_research_platform.Base.{
  ℕ, ◌+◌, Bool, true, false, not, String, Option, none, some, List, [], ◌∷◌, if◌then◌else◌,
}
use option_research_platform.Base.Int.{ℤ, ltb_ℤ, ◌+ℤ◌}
use option_research_platform.Base.Result.{Result, ok, err, Action, ◌>>=◌}
use option_research_platform.Base.Dict.{get, put, remove, string_eq}

pub data Stamp : Type 0 where
  aware : ℤ → Stamp
  naive : ℤ → Stamp

pub record CacheEntry (J : Type 0) : Type 0 where
  pub payload : J
  pub created_at : Stamp
  pub expires_at : Option Stamp
  pub version : Option String
  pub integrity_hash : String
  pub manifest_checksum : Option String
  pub cache_key : Option String

-- A time in a file: missing or null, no time, or a time.
pub data StoredTime : Type 0 where
  absent : StoredTime
  unreadable : StoredTime
  time : Stamp → StoredTime

-- What a file holds: bytes that are no UTF-8, no JSON, or an object with its times and its payload.
pub data FileContent (J : Type 0) : Type 0 where
  not_utf8 : FileContent J
  undecodable : FileContent J
  object :
      StoredTime
      → StoredTime
      → Option J
      → Option String
      → String
      → Option String
      → Option String
      → FileContent J

-- KeyError, TypeError and ValueError of a malformed entry, UnicodeDecodeError, and the TypeError of
-- comparing an instant with a time without a zone.
pub data CacheError : Type 0 where
  malformed : CacheError
  bad_encoding : CacheError
  no_zone : CacheError

pub record CacheCleanupReport : Type 0 where
  pub removed_expired : ℕ
  pub removed_corrupt : ℕ
  pub removed_invalidated : ℕ

abbrev pub no_removals : CacheCleanupReport
no_removals = record { removed_expired = 0; removed_corrupt = 0; removed_invalidated = 0 }

-- A file is removed as corrupt or as expired, or stays.
pub data Fate : Type 0 where
  is_corrupt : Fate
  is_over : Fate
  stays : Fate

-- The values of JSON: `json.dumps` with sorted keys, what `json.loads` makes of it, and null.
pub record Json : Type 1 where
  pub J : Type 0
  pub canonical : J → String
  pub reload : J → J
  pub null : J

-- `datetime.now() > expires_at`, where there is one.
abbrev pub has_expired : ℤ → Option ℤ → Bool
has_expired now none = false
has_expired now (some e) = ltb_ℤ e now

-- The test on what was read, which compares.
abbrev pub is_past : ℤ → Option Stamp → Result CacheError Bool
is_past now none = ok false
is_past now (some (aware e)) = ok (has_expired now (some e))
is_past now (some (naive e)) = err no_zone

-- `fromisoformat(entry["created_at"])`
abbrev pub read_created : StoredTime → Result CacheError Stamp
read_created absent = err malformed
read_created unreadable = err malformed
read_created (time t) = ok t

-- `fromisoformat(entry["expires_at"]) if entry.get("expires_at") else None`
abbrev pub read_expires : StoredTime → Result CacheError (Option Stamp)
read_expires absent = ok none
read_expires unreadable = err malformed
read_expires (time t) = ok (some t)

abbrev pub aware_of : Option ℤ → Option Stamp
aware_of none = none
aware_of (some e) = some (aware e)

abbrev pub stored : Option ℤ → StoredTime
stored none = absent
stored (some e) = time (aware e)

-- The times of an object, and whether it is over, in the order of `get_metadata`.
abbrev pub times_at : ℤ → StoredTime → StoredTime → Result CacheError (Stamp × Option Stamp × Bool)
times_at now created expires = read_created created >>= λ c.
    read_expires expires >>= λ e. is_past now e >>= λ over. ok (c, e, over)

-- When an entry expires: by its own time to live, or by the default one.
abbrev pub expiry : ℤ → Option ℤ → Option ℤ → Option ℤ
expiry now (some ttl) default_ttl = some (now +ℤ ttl)
expiry now none (some ttl) = some (now +ℤ ttl)
expiry now none none = none

module _ (json : Json) (digest : String → String) (path_of : String → String) where
  open json use {J, canonical, reload, null}

  abbrev pub Files : Type 0
  Files = List (String × FileContent J)

  -- `hashlib.sha256(json.dumps(payload))`
  abbrev pub hash_of : J → String
  hash_of payload = digest (canonical payload)

  -- `set`, with `_write_entry`
  unfoldable pub set :
      Option ℤ → ℤ → String → J → Option String → Option ℤ → Option String → Files → Files
  set default_ttl now key value version ttl manifest_checksum files =
      put (path_of key)
        (object (time (aware now)) (stored (expiry now ttl default_ttl)) (some (reload value))
          version (hash_of value) manifest_checksum (some key))
        files

  abbrev pub payload_or_null : Option J → J
  payload_or_null none = null
  payload_or_null (some payload) = payload

  -- `get_metadata` of an object, by its times and whether it is over.
  abbrev pub read_object :
      String
      → Result CacheError (Stamp × Option Stamp × Bool)
      → J
      → Option String
      → String
      → Option String
      → Option String
      → Action CacheError Files (Option (CacheEntry J))
  read_object key (err e) payload version hash manifest name files = (err e, files)
  read_object key (ok (created, expires, over)) payload version hash manifest name files =
      if over
      then (ok none, remove (path_of key) files)
      else if not (str_eq hash (hash_of payload))
      then (ok none, remove (path_of key) files)
      else (
        ok (
            some (record {
              payload = payload;
              created_at = created;
              expires_at = expires;
              version = version;
              integrity_hash = hash;
              manifest_checksum = manifest;
              cache_key = name;
            })),
        files,
      )

  -- `get_metadata`, by what the file holds.
  abbrev pub read_entry :
      ℤ → String → Option (FileContent J) → Action CacheError Files (Option (CacheEntry J))
  read_entry now key none files = (ok none, files)
  read_entry now key (some not_utf8) files = (err bad_encoding, files)
  read_entry now key (some undecodable) files = (ok none, remove (path_of key) files)
  read_entry now key (some (object created expires payload version hash manifest name)) files =
      read_object key (times_at now created expires) (payload_or_null payload) version hash manifest
        name files

  unfoldable pub get_metadata : ℤ → String → Action CacheError Files (Option (CacheEntry J))
  get_metadata now key files = read_entry now key (get (path_of key) files) files

  -- `delete`
  abbrev pub delete : String → Files → Files
  delete key files = remove (path_of key) files

  -- The entry of `_read_entry_file`, or `none` where a time or the hash is wrong.
  abbrev pub entry_of :
      Result CacheError Stamp
      → Result CacheError (Option Stamp)
      → J
      → Option String
      → String
      → Option String
      → Option String
      → Option (CacheEntry J)
  entry_of (err e) expires payload version hash manifest name = none
  entry_of (ok created) (err e) payload version hash manifest name = none
  entry_of (ok created) (ok expires) payload version hash manifest name =
      if not (str_eq hash (hash_of payload))
      then none
      else some (record {
        payload = payload;
        created_at = created;
        expires_at = expires;
        version = version;
        integrity_hash = hash;
        manifest_checksum = manifest;
        cache_key = name;
      })

  -- `_read_entry_file`: `none` where the file is removed.
  abbrev pub read_entry_file : FileContent J → Result CacheError (Option (CacheEntry J))
  read_entry_file not_utf8 = err bad_encoding
  read_entry_file undecodable = ok none
  read_entry_file (object created expires none version hash manifest name) = ok none
  read_entry_file (object created expires (some payload) version hash manifest name) =
      ok (entry_of (read_created created) (read_expires expires) payload version hash manifest name)

  -- What `cleanup` makes of a file.
  abbrev pub fate_of_entry : ℤ → Option (CacheEntry J) → Result CacheError Fate
  fate_of_entry now none = ok is_corrupt
  fate_of_entry now (some entry) =
      is_past now entry.expires_at >>= λ over. ok (if over then is_over else stays)

  unfoldable pub fate : ℤ → FileContent J → Result CacheError Fate
  fate now content = read_entry_file content >>= fate_of_entry now

  -- A file that stays, before the later rounds.
  abbrev pub keep :
      String × FileContent J
      → Result CacheError CacheCleanupReport × Files
      → Result CacheError CacheCleanupReport × Files
  keep file (report, files) = (report, file ∷ files)

  -- The rest of a round of `cleanup`, with the later rounds from a report: what is raised ends them.
  abbrev pub after_fate :
      String × FileContent J
      → CacheCleanupReport
      → Files
      → (CacheCleanupReport → Result CacheError CacheCleanupReport × Files)
      → Result CacheError Fate
      → Result CacheError CacheCleanupReport × Files
  after_fate file report rest next (err e) = (err e, file ∷ rest)
  after_fate file report rest next (ok is_corrupt) =
      next (record report { removed_corrupt = report.removed_corrupt + 1 })
  after_fate file report rest next (ok is_over) =
      next (record report { removed_expired = report.removed_expired + 1 })
  after_fate file report rest next (ok stays) = keep file (next report)

  -- The loop of `cleanup`, from the report so far.
  unfoldable pub cleanup_from :
      ℤ → CacheCleanupReport → Files → Result CacheError CacheCleanupReport × Files
  unfolding fate
  cleanup_from now report [] = (ok report, [])
  cleanup_from now report (file ∷ rest) =
      after_fate file report rest (λ r. cleanup_from now r rest) (fate now file.1)

  -- `cleanup`
  unfoldable pub cleanup : ℤ → Files → Result CacheError CacheCleanupReport × Files
  unfolding cleanup_from
  cleanup now files = cleanup_from now no_removals files

  -- The loop of `invalidate`.
  unfoldable pub invalidate_from :
      (CacheEntry J → Bool)
      → CacheCleanupReport
      → Files
      → Result CacheError CacheCleanupReport × Files
  invalidate_from predicate report [] = (ok report, [])
  invalidate_from predicate report (file ∷ rest) = elim (read_entry_file file.1) [
    | err e ↦ (err e, file ∷ rest)
    | ok none ↦ invalidate_from predicate report rest
    | ok (some entry) ↦ elim (predicate entry) [
      | true ↦
          invalidate_from predicate
            (record report { removed_invalidated = report.removed_invalidated + 1 }) rest
      | false ↦ keep file (invalidate_from predicate report rest)
    ]
  ]

  -- `invalidate`; with no predicate it is the one that is always true.
  unfoldable pub invalidate :
      (CacheEntry J → Bool) → Files → Result CacheError CacheCleanupReport × Files
  unfolding invalidate_from
  invalidate predicate files = invalidate_from predicate no_removals files
