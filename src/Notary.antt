-- ===== src/Notary.antt =====
-- internal/keys/notary_cleanup.go, notary_fetch_store.go and notary_query.go: how the notary finds the
-- keys of a server in its memory, its database or at their origin. Times are in nanoseconds, and the
-- times of keys in milliseconds. What the database and a fetch return is an argument, so that
-- a failure of the database is a missing row.
pub mod Expiry
pub mod Storing
pub mod Queries
use mxkeys_org.Prelude.{
  ℕ, ◌+◌, ◌*◌, ◌/◌, Bool, true, false, not, ◌&&◌, Option, none, some, String, List, [], ◌∷◌, ltb,
  leb, ◌==◌, if◌then◌else◌, Dict, find, assign, remove,
}
use mxkeys_org.Fetching.{
  ServerKeys, FetchError, context_canceled, Fetched, fetched, refused, nothing,
}

-- cachedResponse; a response that is nil is never stored.
pub record CachedResponse : Type 0 where
  pub response : ServerKeys
  pub valid_until : ℕ

abbrev pub Cache : Type 0
Cache = Dict CachedResponse

-- time.UnixMilli(ms)
abbrev pub unix_milli : ℕ → ℕ
unix_milli ms = ms * 1000000

-- cacheExpiresAt of a response, for a configured number of hours
unfoldable pub cache_expires_at : ℕ → ServerKeys → ℕ → ℕ
cache_expires_at hours keys now =
    let cache_expiry = now + hours * 3600000000000 in
    if keys.valid_until_ts == 0
    then cache_expiry
    else if ltb (unix_milli keys.valid_until_ts) cache_expiry
    then unix_milli keys.valid_until_ts
    else cache_expiry

unfoldable pub cache_entry_valid : CachedResponse → ℕ → Bool
cache_entry_valid cached now =
    if not (ltb now cached.valid_until)
    then false
    else ltb (now / 1000000) cached.response.valid_until_ts

-- storeInMemoryCache at a time
unfoldable pub store_in_memory_cache : ℕ → String → ServerKeys → ℕ → Cache → Cache
unfolding cache_expires_at
store_in_memory_cache hours name keys now cache =
    let expires_at = cache_expires_at hours keys now in
    if not (ltb now expires_at)
    then remove name cache
    else assign name (record { response = keys; valid_until = expires_at }) cache

-- The loop of cleanup over the cache; each entry has its own reading of the clock.
unfoldable pub cleanup_cache : (String → ℕ) → Cache → Cache
cleanup_cache clock [] = []
cleanup_cache clock ((name, cached) ∷ cache) =
    let rest = cleanup_cache clock cache in
    if ltb cached.valid_until (clock name) then rest else (name, cached) ∷ rest

-- What one call of GetServerKeys meets: whether its context is done, the clock at its start, the row
-- of the database, the result of the fetch, the clocks of the two writes to the cache, what
-- other calls do to the cache while the fetch runs, and the clock after a fetch that failed.
pub record Meets : Type 0 where
  pub canceled : Bool
  pub now : ℕ
  pub row : Option ServerKeys
  pub row_cached_at : ℕ
  pub fetch : Fetched
  pub fetch_cached_at : ℕ
  pub meanwhile : Cache → Cache
  pub failed_at : ℕ

-- The stale entry that a failed fetch falls back on.
abbrev pub stale_or_error : FetchError → ℕ → Option CachedResponse → Fetched
stale_or_error e failed_at none = refused e
stale_or_error e failed_at (some expired) =
    if ltb failed_at (unix_milli expired.response.valid_until_ts)
    then fetched expired.response
    else refused e

-- GetServerKeys from the fetch on.
unfoldable pub from_fetch : ℕ → String → Meets → Cache → Fetched → Cache × Fetched
unfolding store_in_memory_cache
from_fetch hours name meets cache (fetched keys) = (
  store_in_memory_cache hours name keys meets.fetch_cached_at (meets.meanwhile cache),
  fetched keys,
)
from_fetch hours name meets cache nothing = (meets.meanwhile cache, nothing)
from_fetch hours name meets cache (refused e) =
    let after = meets.meanwhile cache in (after, stale_or_error e meets.failed_at (find name after))

-- GetServerKeys from the database on.
unfoldable pub from_row : ℕ → String → Meets → Cache → Option ServerKeys → Cache × Fetched
unfolding store_in_memory_cache from_fetch
from_row hours name meets cache none = from_fetch hours name meets cache meets.fetch
from_row hours name meets cache (some stored) =
    if ltb (meets.now / 1000000) stored.valid_until_ts
    then (store_in_memory_cache hours name stored meets.row_cached_at cache, fetched stored)
    else from_fetch hours name meets cache meets.fetch

abbrev pub from_cache : ℕ → String → Meets → Cache → Option CachedResponse → Cache × Fetched
from_cache hours name meets cache none = from_row hours name meets cache meets.row
from_cache hours name meets cache (some cached) =
    if cache_entry_valid cached meets.now
    then (cache, fetched cached.response)
    else from_row hours name meets (remove name cache) meets.row

unfoldable pub get_server_keys : ℕ → String → Meets → Cache → Cache × Fetched
unfolding cache_entry_valid from_row
get_server_keys hours name meets cache =
    if meets.canceled
    then (cache, refused context_canceled)
    else from_cache hours name meets cache (find name cache)

-- The second fetch of GetServerKeysWithCriteria, and the clock of its write to the cache.
abbrev pub refetched : ℕ → String → ℕ → Cache → Fetched → Cache × Fetched
refetched hours name at cache (fetched keys) =
    (store_in_memory_cache hours name keys at cache, fetched keys)
refetched hours name at cache other = (cache, other)

abbrev pub with_criteria : ℕ → String → ℕ → ℕ → Fetched → Cache × Fetched → Cache × Fetched
with_criteria hours name minimum at again (cache, fetched keys) =
    if ltb 0 minimum && ltb keys.valid_until_ts minimum
    then refetched hours name at cache again
    else (cache, fetched keys)
with_criteria hours name minimum at again (cache, other) = (cache, other)

unfoldable pub get_server_keys_with_criteria :
    ℕ → String → ℕ → Meets → Fetched → ℕ → Cache → Cache × Fetched
unfolding get_server_keys store_in_memory_cache
get_server_keys_with_criteria hours name minimum meets again at cache =
    with_criteria hours name minimum at again (get_server_keys hours name meets cache)
