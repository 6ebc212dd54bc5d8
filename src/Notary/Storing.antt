-- ===== src/Notary/Storing.antt =====
-- internal/keys/notary_cleanup.go: how long the keys in memory are served.
use mxkeys_org.Prelude.{
  ℕ, ◌/◌, ◌≤◌, ◌<◌, ◌≡◌, ◌∙◌, refl, sym, ap, Bool, true, false, not, Bool-cases, inl, inr, Option,
  none, some, String, eq_iff, str_eq, lt→ltb, [], ◌∷◌, ltb, if◌then◌else◌, find, assign, remove,
  find-assign, arith,
}
use mxkeys_org.Fetching.{ServerKeys, context_canceled, fetched, refused}
use mxkeys_org.Notary.{
  CachedResponse, Cache, unix_milli, cache_expires_at, cache_entry_valid, store_in_memory_cache,
  Meets, cleanup_cache, from_row, from_cache, get_server_keys,
}

module _ (hours : ℕ) (name : String) where
  expires_with_keys :
      (keys : ServerKeys) (at : ℕ)
      → 0 < keys.valid_until_ts
      → cache_expires_at hours keys at ≤ unix_milli keys.valid_until_ts
  unfolding cache_expires_at
  expires_with_keys keys at dated = ground (arith, dated)

  store-find :
      (keys : ServerKeys) (at : ℕ) (cache : Cache)
      → at < cache_expires_at hours keys at
      → find name (store_in_memory_cache hours name keys at cache)
        ≡ some (record { response = keys; valid_until = cache_expires_at hours keys at })
  unfolding store_in_memory_cache
  store-find keys at cache later =
      let cached : CachedResponse = record {
        response = keys;
        valid_until = cache_expires_at hours keys at;
      } in
      ap (λ b. find name (if not b then remove name cache else assign name cached cache))
        (lt→ltb at (cache_expires_at hours keys at) later)
      ∙ find-assign name name cached cache
      ∙ ap (λ b. if b then some cached else find name cache) ((eq_iff name name).1 refl)

  stored_valid :
      (keys : ServerKeys) (at now : ℕ)
      → 0 < keys.valid_until_ts
      → now < cache_expires_at hours keys at
      → cache_entry_valid
          (record { response = keys; valid_until = cache_expires_at hours keys at })
          now
        ≡ true
  unfolding cache_entry_valid
  stored_valid keys at now dated before =
      let bound = expires_with_keys keys at dated in
      let milli : now / 1000000 < keys.valid_until_ts = omega (arith, bound, before) in
      ap (λ b. if not b then false else ltb (now / 1000000) keys.valid_until_ts)
        (lt→ltb now (cache_expires_at hours keys at) before)
      ∙ lt→ltb (now / 1000000) keys.valid_until_ts milli

  -- The keys that were put in memory are returned until the time that cacheExpiresAt gave them, without a look
  -- at the database or the origin.
  pub stored_served :
      (meets : Meets) (cache : Cache) (keys : ServerKeys) (at : ℕ)
      → meets.canceled ≡ false
      → 0 < keys.valid_until_ts
      → at ≤ meets.now
      → meets.now < cache_expires_at hours keys at
      → get_server_keys hours name meets (store_in_memory_cache hours name keys at cache)
        ≡ (store_in_memory_cache hours name keys at cache, fetched keys)
  unfolding get_server_keys
  stored_served meets cache keys at going dated after before =
      let stored = store_in_memory_cache hours name keys at cache in
      let entry = store-find keys at cache (omega (arith, after, before)) in
      let valid = stored_valid keys at meets.now dated before in
      ap
        (λ b.
          if b
          then (stored, refused context_canceled)
          else from_cache hours name meets stored (find name stored))
        going
      ∙ ap (from_cache hours name meets stored) entry
      ∙ ap
          (λ b.
            if b
            then (stored, fetched keys)
            else from_row hours name meets (remove name stored) meets.row)
          valid

module _ (clock : String → ℕ) (name : String) (cached : CachedResponse) (later : ℕ) where
  abbrev time_of : Option CachedResponse → ℕ
  time_of none = 0
  time_of (some v) = v.valid_until

  -- An entry that is valid later is not removed.
  valid_kept :
      clock name ≤ later
      → cache_entry_valid cached later ≡ true
      → ltb cached.valid_until (clock name) ≡ false
  unfolding cache_entry_valid
  valid_kept after valid = ground (arith, after, valid)

  find-other :
      (b : Bool) (k : String) (v : CachedResponse) (rest : Cache)
      → str_eq k name ≡ false
      → find name (if b then rest else (k, v) ∷ rest) ≡ find name rest
  unfolding find
  find-other true k v rest miss = refl
  find-other false k v rest miss = ap (λ b. if b then some v else find name rest) miss

  -- A cleanup keeps the entries that are valid at its time or later.
  cleanup_keeps_valid :
      (cache : Cache)
      → clock name ≤ later
      → cache_entry_valid cached later ≡ true
      → find name cache ≡ some cached
      → find name (cleanup_cache clock cache) ≡ some cached
  unfolding cleanup_cache find
  cleanup_keeps_valid [] after valid entry = entry
  cleanup_keeps_valid ((k, v) ∷ cache) after valid entry =
      elim (Bool-cases (str_eq k name))
        as (λ c. find name (cleanup_cache clock ((k, v) ∷ cache)) ≡ some cached) [
          | inl hit ↦
              let rest = cleanup_cache clock cache in
              let own = sym (ap (λ b. if b then some v else find name cache) hit) ∙ entry in
              let kept =
                ap (λ s. ltb v.valid_until (clock s)) ((eq_iff k name).0 hit)
                ∙ ap (λ t. ltb t (clock name)) (ap time_of own)
                ∙ valid_kept after valid in
              ap (λ b. find name (if b then rest else (k, v) ∷ rest)) kept
              ∙ ap (λ b. if b then some v else find name rest) hit
              ∙ own
          | inr miss ↦
              find-other (ltb v.valid_until (clock k)) k v (cleanup_cache clock cache) miss
              ∙ cleanup_keeps_valid cache after valid
                  (sym (ap (λ b. if b then some v else find name cache) miss) ∙ entry)
        ]
