-- ===== src/Fetching/Fallbacks.antt =====
-- internal/keys/fetcher_orchestration.go and fetcher_notary.go: what a whole fetch returns.
use mxkeys_org.Prelude.{
  ℕ, zero, suc, ◌≤◌, ◌≡◌, ◌∙◌, ◌⊎◌, inl, inr, refl, ap, Bool, true, false, not, none, some, String,
  eq_iff, List, [], ◌∷◌, All, if◌then◌else◌, find, arith,
}
use mxkeys_org.Breaker.{Breaker, allow, record_failure}
use mxkeys_org.Fetching.{
  ServerKeys, Crypto, FetchError, context_canceled, circuit_open, concurrency_limit, fetch_failed,
  transport, Fetched, fetched, refused, nothing, Fetcher, pinned_verifies, verify_notary_signature,
  checked_notary, find_server, fetch_from_notary, Upstream, after_attempt, error_of, retry_loop,
  fetch_direct, fetch_direct_with_retry, first_fetched, fetch_fallback, direct_or_fallback,
  record_result, fetch_allowed, fetch_server_keys,
}

module _ (crypto : Crypto) (f : Fetcher) where
  after_attempt-count :
      (one : Fetched) (rest : ℕ × Fetched) (n : ℕ)
      → rest.0 ≤ n
      → (after_attempt crypto f one rest).0 ≤ suc n
  after_attempt-count (fetched keys) rest n few = omega arith
  after_attempt-count nothing rest n few = omega arith
  after_attempt-count (refused e) rest n few = ground (arith, few)

  retry_loop-count :
      (name : String) (up : Upstream) (left attempt : ℕ) (last : Fetched)
      → (retry_loop crypto f name up left attempt last).0 ≤ left
  unfolding retry_loop
  retry_loop-count name up zero attempt last = omega arith
  retry_loop-count name up (suc left) attempt last =
      let one = fetch_direct crypto f name (up.verified_at attempt) (up.reply attempt) in
      let rest = retry_loop crypto f name up left (suc attempt) (error_of crypto f one last) in
      let few =
        after_attempt-count one rest left
          (retry_loop-count name up left (suc attempt) (error_of crypto f one last)) in
      ground (arith, few)

  -- The fallbacks fail in one way.
  fetch_fallback-error :
      (name : String) (up : Upstream) (notaries : List String) (e : FetchError)
      → fetch_fallback crypto f name up notaries ≡ refused e
      → e ≡ fetch_failed
  unfolding fetch_fallback
  fetch_fallback-error name up [] e ok = ground (arith, ok)
  fetch_fallback-error name up (notary ∷ later) e ok =
      first_fetched-error (fetch_from_notary crypto f notary name (up.answer notary))
        (fetch_fallback crypto f name up later) e (fetch_fallback-error name up later e) ok
    where
      first_fetched-error :
          (one rest : Fetched) (e : FetchError)
          → ((rest ≡ refused e) → (e ≡ fetch_failed))
          → first_fetched crypto f one rest ≡ refused e
          → e ≡ fetch_failed
      first_fetched-error (fetched keys) rest e last ok = ground (arith, ok)
      first_fetched-error nothing rest e last ok = ground (arith, ok)
      first_fetched-error (refused d) rest e last ok = last ok

  -- The notary was asked and what it answered was refused.
  abbrev pub NotaryRefused : String → Upstream → String → Type 0
  NotaryRefused name up notary =
      (d : FetchError) × (fetch_from_notary crypto f notary name (up.answer notary) ≡ refused d)

  -- The fallbacks fail only when each of them does.
  fetch_fallback-All :
      (name : String) (up : Upstream) (notaries : List String) (e : FetchError)
      → fetch_fallback crypto f name up notaries ≡ refused e
      → All (NotaryRefused name up) notaries
  unfolding fetch_fallback
  fetch_fallback-All name up [] e ok = tt
  fetch_fallback-All name up (notary ∷ later) e ok =
      let (here, rest) =
        first_refused (fetch_from_notary crypto f notary name (up.answer notary))
          (fetch_fallback crypto f name up later) ok in
      (here, fetch_fallback-All name up later e rest)
    where
      first_refused :
          (one rest : Fetched)
          → first_fetched crypto f one rest ≡ refused e
          → ((d : FetchError) × (one ≡ refused d)) × (rest ≡ refused e)
      first_refused (fetched keys) rest ok = absurd (ground (arith, ok))
      first_refused nothing rest ok = absurd (ground (arith, ok))
      first_refused (refused d) rest ok = ((d, refl), ok)

  -- Every source failed: the attempts at the origin, and after them each notary.
  abbrev pub AllRefused : String → Upstream → Type 0
  AllRefused name up =
      ((d : FetchError) × ((fetch_direct_with_retry crypto f name up).1 ≡ refused d))
      × All (NotaryRefused name up) f.fallback_servers

  direct_or_fallback-error :
      (name : String) (up : Upstream) (direct : Fetched) (e : FetchError)
      → direct_or_fallback crypto f name up direct ≡ refused e
      → (e ≡ fetch_failed)
        × ((d : FetchError) × (direct ≡ refused d))
        × All (NotaryRefused name up) f.fallback_servers
  direct_or_fallback-error name up (fetched keys) e ok = absurd (ground (arith, ok))
  direct_or_fallback-error name up nothing e ok = absurd (ground (arith, ok))
  direct_or_fallback-error name up (refused d) e ok = (
    fetch_fallback-error name up f.fallback_servers e ok,
    (d, refl),
    fetch_fallback-All name up f.fallback_servers e ok,
  )

  fetch_direct-count :
      (name : String) (up : Upstream)
      → (fetch_direct_with_retry crypto f name up).0 ≤ f.retry_attempts
  unfolding fetch_direct_with_retry
  fetch_direct-count name up = retry_loop-count name up f.retry_attempts 0 nothing

  -- The end of a fetch that the circuit lets through.
  abbrev sem_result : Breaker → String → Upstream → Bool → Breaker × (ℕ × Fetched)
  sem_result cb name up acquired =
      let direct = fetch_direct_with_retry crypto f name up in
      let result = direct_or_fallback crypto f name up direct.1 in
      if not acquired
      then (cb, (0, refused concurrency_limit))
      else (record_result crypto f name up.recorded_at cb result, (direct.0, result))

  -- How a fetch that returns an error ended: its context was done, the circuit was open, the semaphore was not
  -- acquired, or every source failed.
  abbrev pub FetchEnd :
      Breaker → Breaker × Bool → Upstream → Breaker × (ℕ × Fetched) → String → FetchError → Type 0
  FetchEnd before allowed up after name e =
      ((e ≡ context_canceled) × (up.canceled ≡ true) × (after.0 ≡ before) × (after.1.0 ≡ 0))
      ⊎ ((e ≡ circuit_open) × (allowed.1 ≡ false) × (after.0 ≡ allowed.0) × (after.1.0 ≡ 0))
      ⊎ ((e ≡ concurrency_limit) × (up.acquired ≡ false) × (after.0 ≡ allowed.0) × (after.1.0 ≡ 0))
      ⊎ ((e ≡ fetch_failed)
          × AllRefused name up
          × (after.0 ≡ record_failure name up.recorded_at allowed.0)
          × (after.1.0 ≤ f.retry_attempts))

  acquired-FetchEnd :
      (before cb : Breaker) (name : String) (up : Upstream) (e : FetchError) (acquired : Bool)
      → up.acquired ≡ acquired
      → (sem_result cb name up acquired).1.1 ≡ refused e
      → FetchEnd before (cb, true) up (sem_result cb name up acquired) name e
  acquired-FetchEnd before cb name up e false state ok =
      inr (inr (inl (ground (arith, ok), state, refl, refl)))
  acquired-FetchEnd before cb name up e true state ok =
      let direct = fetch_direct_with_retry crypto f name up in
      let (at, origin, notaries) = direct_or_fallback-error name up direct.1 e ok in
      let failure = ap (record_result crypto f name up.recorded_at cb) ok in
      inr (inr (inr (at, (origin, notaries), failure, fetch_direct-count name up)))

  fetch_allowed-FetchEnd :
      (before : Breaker) (allowed : Breaker × Bool) (name : String) (up : Upstream) (e : FetchError)
      → (fetch_allowed crypto f name up allowed).1.1 ≡ refused e
      → FetchEnd before allowed up (fetch_allowed crypto f name up allowed) name e
  fetch_allowed-FetchEnd before (cb, false) name up e ok =
      inr (inl (ground (arith, ok), refl, refl, refl))
  fetch_allowed-FetchEnd before (cb, true) name up e ok =
      acquired-FetchEnd before cb name up e up.acquired refl ok

  abbrev canceled_result : String → Upstream → Breaker → Bool → Breaker × (ℕ × Fetched)
  canceled_result name up cb canceled =
      if canceled
      then (cb, (0, refused context_canceled))
      else fetch_allowed crypto f name up (allow name up.allow_at cb)

  canceled-end :
      (name : String) (up : Upstream) (cb : Breaker) (e : FetchError) (canceled : Bool)
      → up.canceled ≡ canceled
      → (canceled_result name up cb canceled).1.1 ≡ refused e
      → FetchEnd cb (allow name up.allow_at cb) up (canceled_result name up cb canceled) name e
  canceled-end name up cb e true state ok = inl (ground (arith, ok), state, refl, refl)
  canceled-end name up cb e false state ok =
      fetch_allowed-FetchEnd cb (allow name up.allow_at cb) name up e ok

  -- When FetchServerKeys returns an error, it is one of four: the context was done, the circuit was
  -- open, the semaphore was not acquired, or every source failed. In the first three cases no request
  -- went to the origin and no outcome was recorded; in the last one the attempts at the origin, at most
  -- retryAttempts, ended in an error, the answer of every fallback notary was refused, and a failure was recorded.
  pub fetch_ends :
      (name : String) (up : Upstream) (cb : Breaker) (e : FetchError)
      → (fetch_server_keys crypto f name up cb).1.1 ≡ refused e
      → FetchEnd cb (allow name up.allow_at cb) up (fetch_server_keys crypto f name up cb) name e
  unfolding fetch_server_keys
  fetch_ends name up cb e ok = canceled-end name up cb e up.canceled refl ok

  fetch_from_notary-unpinned :
      (name notary : String) (keys : ServerKeys) (answer : List ServerKeys)
      → find notary f.trusted_notaries ≡ none
      → keys.server_name ≡ name
      → fetch_from_notary crypto f notary name (some (keys ∷ answer)) ≡ fetched keys
  unfolding fetch_from_notary verify_notary_signature find_server
  fetch_from_notary-unpinned name notary keys answer unpinned named =
      let hit = (eq_iff keys.server_name name).1 named in
      ap (λ b. checked_notary crypto f notary (if b then some keys else find_server name answer))
        hit
      ∙ ap
          (λ o.
            if pinned_verifies crypto o notary keys
            then fetched keys
            else refused (transport false))
          unpinned

  fetch_fallback-first :
      (name : String) (up : Upstream) (notary : String) (later : List String) (keys : ServerKeys)
      → fetch_from_notary crypto f notary name (up.answer notary) ≡ fetched keys
      → fetch_fallback crypto f name up (notary ∷ later) ≡ fetched keys
  unfolding fetch_fallback
  fetch_fallback-first name up notary later keys reached =
      ap (λ o. first_fetched crypto f o (fetch_fallback crypto f name up later)) reached

  fetch_allowed-result :
      (name : String) (up : Upstream) (allowed : Breaker × Bool)
      → allowed.1 ≡ true
      → up.acquired ≡ true
      → (fetch_allowed crypto f name up allowed).1.1
        ≡ direct_or_fallback crypto f name up (fetch_direct_with_retry crypto f name up).1
  fetch_allowed-result name up (cb, false) allowed acquired = ground (arith, allowed)
  fetch_allowed-result name up (cb, true) allowed acquired =
      ap (λ b. (sem_result cb name up b).1.1) acquired

  -- When the direct fetch fails and the first fallback notary has no pinned key, its first entry for the
  -- server is returned and counts as a success, whatever its valid_until_ts, keys and signatures are.
  pub notary_keys_unchecked :
      (name : String) (up : Upstream) (cb : Breaker) (notary : String) (later : List String)
      (e : FetchError) (keys : ServerKeys) (answer : List ServerKeys)
      → up.canceled ≡ false
      → (allow name up.allow_at cb).1 ≡ true
      → up.acquired ≡ true
      → (fetch_direct_with_retry crypto f name up).1 ≡ refused e
      → f.fallback_servers ≡ notary ∷ later
      → find notary f.trusted_notaries ≡ none
      → up.answer notary ≡ some (keys ∷ answer)
      → keys.server_name ≡ name
      → (fetch_server_keys crypto f name up cb).1.1 ≡ fetched keys
  unfolding fetch_server_keys
  notary_keys_unchecked name up cb notary later e keys answer going allowed acquired direct first
        unpinned answered named =
      let notary_keys = fetch_from_notary-unpinned name notary keys answer unpinned named in
      let reached = ap (fetch_from_notary crypto f notary name) answered ∙ notary_keys in
      let fallback =
        ap (fetch_fallback crypto f name up) first
        ∙ fetch_fallback-first name up notary later keys reached in
      let result = ap (direct_or_fallback crypto f name up) direct ∙ fallback in
      ap (λ b. (canceled_result name up cb b).1.1) going
      ∙ fetch_allowed-result name up (allow name up.allow_at cb) allowed acquired
      ∙ result
