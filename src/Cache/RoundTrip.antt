-- ===== src/Cache/RoundTrip.antt =====
-- `CacheManager.get_metadata` after `CacheManager.set` (backend/data/cache/manager.py).
use text.Mathlib.Text.{◌==◌ as str_eq}
use option_research_platform.Base.{
  ◌≡◌, ap, ◌∙◌, sym, String, Option, some, none, arith, if◌then◌else◌, eq_iff,
}
use option_research_platform.Base.Int.{ℤ}
use option_research_platform.Base.Result.{ok}
use option_research_platform.Base.Dict.{get, put, remove, get-put, get-put_self, string_eq}
use option_research_platform.Cache.{
  Json, FileContent, object, Files, set, get_metadata, read_entry, hash_of, expiry, has_expired,
  time, aware, aware_of, stored,
}

module _ (json : Json) (digest : String → String) (path_of : String → String) where
  open json use {J, canonical, reload}

  read_entry-stored :
      (later now : ℤ) (key : String) (expires : Option ℤ) (payload : J)
      (version manifest name : Option String) (hash : String) (files : Files json digest path_of)
      → hash ≡ hash_of json digest path_of payload
      → read_entry json digest path_of later key
          (some
            (object (time (aware now)) (stored expires) (some payload) version hash manifest name))
          files
        ≡ (if has_expired later expires then (ok none, remove (path_of key) files) else (
          ok (
              some (record {
                payload = payload;
                created_at = aware now;
                expires_at = aware_of expires;
                version = version;
                integrity_hash = hash;
                manifest_checksum = manifest;
                cache_key = name;
              })),
          files,
        ))
  read_entry-stored later now key none payload version manifest name hash files h =
      ground (arith, (eq_iff hash (hash_of json digest path_of payload)).1 h)
  read_entry-stored later now key (some e) payload version manifest name hash files h =
      ground (arith, (eq_iff hash (hash_of json digest path_of payload)).1 h)

  -- A value whose canonical text JSON keeps, and a file for each key: until it expires a value that is set
  -- is read back, as JSON makes it, with the version and the checksum that it was set with and the
  -- time of the call, and reading changes nothing; after that reading finds nothing and removes the
  -- file. The other files stay as they are.
  pub get_metadata-set :
      (default_ttl : Option ℤ) (now later : ℤ) (key : String) (value : J) (version : Option String)
      (ttl : Option ℤ) (manifest : Option String) (files : Files json digest path_of)
      → canonical (reload value) ≡ canonical value
      → let written =
          set json digest path_of default_ttl now key value version ttl manifest files in
        (get_metadata json digest path_of later key written ≡ (
          if has_expired later (expiry now ttl default_ttl)
          then (ok none, remove (path_of key) written)
          else (
            ok (
                some (record {
                  payload = reload value;
                  created_at = aware now;
                  expires_at = aware_of (expiry now ttl default_ttl);
                  version = version;
                  integrity_hash = hash_of json digest path_of value;
                  manifest_checksum = manifest;
                  cache_key = some key;
                })),
            written,
          )))
        × ((path : String)
            → get path written
              ≡ (if str_eq (path_of key) path then get (path_of key) written else get path files))
  unfolding set get_metadata
  get_metadata-set default_ttl now later key value version ttl manifest files stable =
      let content : FileContent J =
        object (time (aware now)) (stored (expiry now ttl default_ttl)) (some (reload value))
          version (hash_of json digest path_of value) manifest (some key) in
      (
        ap (λ c. read_entry json digest path_of later key c (put (path_of key) content files))
              (get-put_self (path_of key) content files)
            ∙ read_entry-stored later now key (expiry now ttl default_ttl) (reload value) version
                manifest (some key) (hash_of json digest path_of value)
                (put (path_of key) content files) (ap digest (sym stable)),
        λ path. get-put path (path_of key) content files ∙ λ i.
            if str_eq (path_of key) path
            then sym (get-put_self (path_of key) content files) i
            else get path files,
      )
