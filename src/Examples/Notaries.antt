-- ===== src/Examples/Notaries.antt =====
-- Keys that a notary serves, for internal/keys/notary_query.go.
use mxkeys_org.Prelude.{
  ℕ, List, Dict, str_eq, remove, assign, ◌/◌, ◌<◌, ◌≡◌, refl, arith, false, none, some, [], ◌∷◌,
  find,
}
use mxkeys_org.Fetching.{ServerKeys, refused, fetch_failed}
use mxkeys_org.Notary.{
  Cache, Meets, cache_expires_at, cache_entry_valid, store_in_memory_cache, cleanup_cache, from_row,
  get_server_keys, get_server_keys_with_criteria,
}
use mxkeys_org.Notary.Queries.{
  Services, forbidden, not_obtained, query_keys, apply_trust_policy, answer_all, max_minimum, names,
}
use mxkeys_org.Notary.Expiry.{served_unexpired}

-- Keys until the second minute.
abbrev two_minutes : ServerKeys
two_minutes = record {
  server_name = "a.org";
  verify_keys = ("ed25519:1", "key") ∷ [];
  old_verify_keys = [];
  valid_until_ts = 120000;
  signatures = none;
  raw = [];
}

-- An entry that left its lifetime in memory before the keys expired.
abbrev lapsed : Cache
lapsed = ("a.org", record { response = two_minutes; valid_until = 50000000000 }) ∷ []

-- A call after the first minute, with the database empty and the origin down.
abbrev origin_down : Meets
origin_down = record {
  canceled = false;
  now = 60000000000;
  row = none;
  row_cached_at = 60000000000;
  fetch = refused fetch_failed;
  fetch_cached_at = 61000000000;
  meanwhile = λ cache. cache;
  failed_at = 61000000000;
}

-- The same call with the keys in the database.
abbrev in_database : Meets
in_database = record origin_down { row = some two_minutes }

served_unexpired_example : 60000000000 / 1000000 < 120000
unfolding get_server_keys cache_entry_valid from_row find
served_unexpired_example =
    served_unexpired 24 "a.org" in_database lapsed two_minutes (omega arith)
      (λ k q. absurd (ground (arith, q))) refl

-- The entry goes with the first cleanup after its lifetime in memory.
cleanup_lapsed : cleanup_cache (λ name. 50000000001) lapsed ≡ []
unfolding cleanup_cache
cleanup_lapsed = refl

cleanup_in_time : cleanup_cache (λ name. 50000000000) lapsed ≡ lapsed
unfolding cleanup_cache
cleanup_in_time = refl

-- A minimum after the keys' expiry leads to a second fetch.
refetch_fails :
    (get_server_keys_with_criteria 24 "a.org" 120001 in_database
      (refused fetch_failed)
      61000000000
      lapsed).1
    ≡ refused fetch_failed
unfolding get_server_keys_with_criteria cache_entry_valid find from_row store_in_memory_cache
refetch_fails = refl

-- b.org is denied, and the keys of a.org are in memory.
abbrev services : Services
services = record {
  hours = 24;
  sort = λ ns. ns;
  server_violates = λ name. str_eq name "b.org";
  response_violates = λ name keys. false;
  sign = λ keys. some keys;
  attach = λ keys. keys;
  meets = λ name. in_database;
  again = λ name. refused fetch_failed;
  again_at = λ name. 61000000000;
}

abbrev request : Dict (List ℕ)
request = ("b.org", []) ∷ ("a.org", 5 ∷ 120000 ∷ []) ∷ ("c.org", 120001 ∷ []) ∷ []

-- The minimum of c.org is after the expiry of its keys, and the second fetch fails.
query_fails :
    (query_keys services request []).failures
    ≡ ("c.org", not_obtained fetch_failed) ∷ ("b.org", forbidden) ∷ []
unfolding query_keys apply_trust_policy answer_all max_minimum names get_server_keys_with_criteria
    cache_entry_valid find from_row store_in_memory_cache cache_expires_at assign remove
query_fails = refl
