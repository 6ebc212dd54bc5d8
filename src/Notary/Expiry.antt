-- ===== src/Notary/Expiry.antt =====
-- internal/keys/notary_query.go and notary_cleanup.go: the expiry of the keys that are served.
use mxkeys_org.Prelude.{
  ℕ, ◌/◌, ◌≤◌, ◌<◌, ◌≡◌, ◌∙◌, refl, sym, ap, Bool, true, false, Bool-cases, inl, inr, Option, none,
  some, String, eq_iff, subst, ltb→lt, le→ltb_false, ltb, if◌then◌else◌, find, remove, find-remove,
  arith,
}
use mxkeys_org.Fetching.{
  ServerKeys, FetchError, context_canceled, Fetched, fetched, refused, nothing,
}
use mxkeys_org.Notary.{
  CachedResponse, Cache, unix_milli, cache_entry_valid, store_in_memory_cache, Meets,
  stale_or_error, from_fetch, from_row, from_cache, get_server_keys,
}

abbrev keys_or : ServerKeys → Fetched → ServerKeys
keys_or other (fetched keys) = keys
keys_or other (refused e) = other
keys_or other nothing = other

same_keys :
    (a b : ServerKeys) (now : ℕ)
    → fetched a ≡ fetched b
    → now < a.valid_until_ts
    → now < b.valid_until_ts
same_keys a b now same = subst (λ k. now < k.valid_until_ts) (ap (keys_or a) same)

refused-fetched : (e : FetchError) (keys : ServerKeys) → refused e ≡ fetched keys → ⊥
refused-fetched e keys q = ground (arith, q)

stale_or_error_unexpired :
    (e : FetchError) (now failed_at : ℕ) (o : Option CachedResponse) (keys : ServerKeys)
    → now ≤ failed_at
    → stale_or_error e failed_at o ≡ fetched keys
    → now / 1000000 < keys.valid_until_ts
stale_or_error_unexpired e now failed_at none keys later ok = ground (arith, ok)
stale_or_error_unexpired e now failed_at (some expired) keys later ok =
    elim (Bool-cases (ltb failed_at (unix_milli expired.response.valid_until_ts))) [
      | inl fresh ↦
          same_keys expired.response keys (now / 1000000)
            (sym (ap (λ b. if b then fetched expired.response else refused e) fresh) ∙ ok)
            (omega
              (arith, ltb→lt failed_at (unix_milli expired.response.valid_until_ts) fresh, later))
      | inr stale ↦ absurd (
          refused-fetched e keys
            (sym (ap (λ b. if b then fetched expired.response else refused e) stale) ∙ ok))
    ]

-- The keys of a conditional come from one of its branches.
branch_unexpired :
    (b : Bool) (x y : Cache × Fetched) (keys : ServerKeys) (now : ℕ)
    → ((b ≡ true) → (x.1 ≡ fetched keys) → (now < keys.valid_until_ts))
    → ((y.1 ≡ fetched keys) → (now < keys.valid_until_ts))
    → (if b then x else y).1 ≡ fetched keys
    → now < keys.valid_until_ts
branch_unexpired true x y keys now hit miss ok = hit refl ok
branch_unexpired false x y keys now hit miss ok = miss ok

entry_unexpired :
    (cached : CachedResponse) (now : ℕ)
    → cache_entry_valid cached now ≡ true
    → now / 1000000 < cached.response.valid_until_ts
unfolding cache_entry_valid
entry_unexpired cached now ok = ground (arith, ok)

find-remove_same : (k : String) (cache : Cache) → find k (remove k cache) ≡ none
find-remove_same k cache =
    find-remove k k cache ∙ ap (λ b. if b then none else find k cache) ((eq_iff k k).1 refl)

module _ (hours : ℕ) (name : String) where
  from_fetch_unexpired :
      (meets : Meets) (cache : Cache) (result : Fetched) (keys : ServerKeys)
      → meets.now ≤ meets.failed_at
      → ((k : ServerKeys) → result ≡ fetched k → meets.now / 1000000 < k.valid_until_ts)
      → (from_fetch hours name meets cache result).1 ≡ fetched keys
      → meets.now / 1000000 < keys.valid_until_ts
  unfolding from_fetch
  from_fetch_unexpired meets cache (fetched k) keys later fresh ok = fresh keys ok
  from_fetch_unexpired meets cache nothing keys later fresh ok = ground (arith, ok)
  from_fetch_unexpired meets cache (refused e) keys later fresh ok =
      stale_or_error_unexpired e meets.now meets.failed_at (find name (meets.meanwhile cache)) keys
        later ok

  from_row_unexpired :
      (meets : Meets) (cache : Cache) (row : Option ServerKeys) (keys : ServerKeys)
      → meets.now ≤ meets.failed_at
      → ((k : ServerKeys) → meets.fetch ≡ fetched k → meets.now / 1000000 < k.valid_until_ts)
      → (from_row hours name meets cache row).1 ≡ fetched keys
      → meets.now / 1000000 < keys.valid_until_ts
  unfolding from_row
  from_row_unexpired meets cache none keys later fresh ok =
      from_fetch_unexpired meets cache meets.fetch keys later fresh ok
  from_row_unexpired meets cache (some stored) keys later fresh ok =
      branch_unexpired (ltb (meets.now / 1000000) stored.valid_until_ts)
        (store_in_memory_cache hours name stored meets.row_cached_at cache, fetched stored)
        (from_fetch hours name meets cache meets.fetch) keys (meets.now / 1000000)
        (λ hit same.
          same_keys stored keys (meets.now / 1000000) same
            (ltb→lt (meets.now / 1000000) stored.valid_until_ts hit))
        (from_fetch_unexpired meets cache meets.fetch keys later fresh) ok

  from_cache_unexpired :
      (meets : Meets) (cache : Cache) (o : Option CachedResponse) (keys : ServerKeys)
      → meets.now ≤ meets.failed_at
      → ((k : ServerKeys) → meets.fetch ≡ fetched k → meets.now / 1000000 < k.valid_until_ts)
      → (from_cache hours name meets cache o).1 ≡ fetched keys
      → meets.now / 1000000 < keys.valid_until_ts
  unfolding cache_entry_valid
  from_cache_unexpired meets cache none keys later fresh ok =
      from_row_unexpired meets cache meets.row keys later fresh ok
  from_cache_unexpired meets cache (some cached) keys later fresh ok =
      branch_unexpired (cache_entry_valid cached meets.now) (cache, fetched cached.response)
        (from_row hours name meets (remove name cache) meets.row) keys (meets.now / 1000000)
        (λ hit same.
          same_keys cached.response keys (meets.now / 1000000) same
            (entry_unexpired cached meets.now hit))
        (from_row_unexpired meets (remove name cache) meets.row keys later fresh) ok

  -- The keys that GetServerKeys returns expire after the clock that it read at its start, in milliseconds, if those of
  -- its fetch do and the clock does not run backwards.
  pub served_unexpired :
      (meets : Meets) (cache : Cache) (keys : ServerKeys)
      → meets.now ≤ meets.failed_at
      → ((k : ServerKeys) → meets.fetch ≡ fetched k → meets.now / 1000000 < k.valid_until_ts)
      → (get_server_keys hours name meets cache).1 ≡ fetched keys
      → meets.now / 1000000 < keys.valid_until_ts
  unfolding get_server_keys
  served_unexpired meets cache keys later fresh ok = elim (Bool-cases meets.canceled) [
    | inl canceled ↦ absurd (
        refused-fetched context_canceled keys (
          sym (
            ap
              (λ b.
                (if b
                  then (cache, refused context_canceled)
                  else from_cache hours name meets cache (find name cache)).1)
              canceled)
          ∙ ok))
    | inr going ↦ from_cache_unexpired meets cache (find name cache) keys later fresh (
        sym (
          ap
            (λ b.
              (if b
                then (cache, refused context_canceled)
                else from_cache hours name meets cache (find name cache)).1)
            going)
        ∙ ok)
  ]

  from_row-refused :
      (meets : Meets) (cache : Cache) (row : Option ServerKeys) (e : FetchError)
      → find name (meets.meanwhile cache) ≡ none
      → ((stored : ServerKeys) → row ≡ some stored → stored.valid_until_ts ≤ meets.now / 1000000)
      → meets.fetch ≡ refused e
      → (from_row hours name meets cache row).1 ≡ refused e
  unfolding from_row from_fetch
  from_row-refused meets cache none e gone old failed =
      ap (λ r. (from_fetch hours name meets cache r).1) failed
      ∙ ap (stale_or_error e meets.failed_at) gone
  from_row-refused meets cache (some stored) e gone old failed =
      let expired = le→ltb_false (meets.now / 1000000) stored.valid_until_ts (old stored refl) in
      ap
        (λ b.
          (if b
            then (store_in_memory_cache hours name stored meets.row_cached_at cache, fetched stored)
            else from_fetch hours name meets cache meets.fetch).1)
        expired
      ∙ ap (λ r. (from_fetch hours name meets cache r).1) failed
      ∙ ap (stale_or_error e meets.failed_at) gone

  -- When the entry of the server in memory is not valid and its row in the database is missing or expired, a failed
  -- fetch is an error, whatever the response in memory still is valid for, unless another call
  -- changed the cache at the server meanwhile.
  pub stale_entry_unused :
      (meets : Meets) (cache : Cache) (cached : CachedResponse) (e : FetchError)
      → meets.canceled ≡ false
      → find name cache ≡ some cached
      → cache_entry_valid cached meets.now ≡ false
      → ((stored : ServerKeys)
          → meets.row ≡ some stored
          → stored.valid_until_ts ≤ meets.now / 1000000)
      → meets.fetch ≡ refused e
      → ((c : Cache) → find name (meets.meanwhile c) ≡ find name c)
      → (get_server_keys hours name meets cache).1 ≡ refused e
  unfolding get_server_keys
  stale_entry_unused meets cache cached e going entry invalid old failed quiet =
      let gone = quiet (remove name cache) ∙ find-remove_same name cache in
      ap
        (λ b.
          (if b
            then (cache, refused context_canceled)
            else from_cache hours name meets cache (find name cache)).1)
        going
      ∙ ap (λ o. (from_cache hours name meets cache o).1) entry
      ∙ ap
          (λ b.
            (if b
              then (cache, fetched cached.response)
              else from_row hours name meets (remove name cache) meets.row).1)
          invalid
      ∙ from_row-refused meets (remove name cache) meets.row e gone old failed
