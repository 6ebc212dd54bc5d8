-- ===== src/Fetching.antt =====
-- internal/keys/fetcher_orchestration.go, fetcher_direct.go, fetcher_notary.go, fetcher_signature.go
-- and the classification of errors in errors.go and fetcher_retry.go. What the network answers is an
-- argument; base64, Ed25519 and the canonical JSON of a payload are a parameter, `Crypto`. Times of
-- the keys are in milliseconds, and a negative valid_until_ts is 0.
pub mod Checks
pub mod Fallbacks
use mxkeys_org.Prelude.{
  ℕ, zero, suc, ◌+◌, Bool, true, false, not, ◌&&◌, ◌||◌, Option, none, some, String, str_eq, List,
  [], ◌∷◌, length, ltb, leb, ◌==◌, if◌then◌else◌, Dict, find,
}
use mxkeys_org.Breaker.{Breaker, allow, record_success, record_failure}

-- ServerKeysResponse; an old key is its `key`.
pub record ServerKeys : Type 0 where
  pub server_name : String
  pub verify_keys : Dict String
  pub old_verify_keys : Dict String
  pub valid_until_ts : ℕ
  pub signatures : Option (Dict (Dict String))
  pub raw : List ℕ

pub record Crypto : Type 0 where
  -- base64.RawStdEncoding.DecodeString
  pub decode : String → Option (List ℕ)
  -- ed25519.Verify of a public key, a message and a signature
  pub verify : List ℕ → List ℕ → List ℕ → Bool
  -- the canonical JSON of a body without signatures and unsigned
  pub self_payload : List ℕ → Option (List ℕ)
  -- the canonical JSON of a response without the signatures of the notary
  pub notary_payload : String → ServerKeys → Option (List ℕ)

-- The errors of a fetch. The first eight are those of errors.go; `transport` is another one, with
-- what isRetryableError says of it.
pub data FetchError : Type 0 where
  context_canceled circuit_open concurrency_limit resolve_failed fetch_failed signature_invalid
        server_name_mismatch invalid_response :
      FetchError
  transport : Bool → FetchError

-- Two results of Go: keys, an error, or neither.
pub data Fetched : Type 0 where
  fetched : ServerKeys → Fetched
  refused : FetchError → Fetched
  nothing : Fetched

-- TrustedNotaryKey
pub record PinnedKey : Type 0 where
  pub key_id : String
  pub public_key : List ℕ

-- The configuration of a Fetcher that decides.
pub record Fetcher : Type 0 where
  pub fallback_servers : List String
  pub trusted_notaries : Dict PinnedKey
  pub retry_attempts : ℕ
  pub max_signatures : ℕ

-- What one request to the origin meets: no resolution, an address that is refused, an error of the
-- request or of its body, a status other than 200, a body that does not parse, or a parsed body.
pub data Reply : Type 0 where
  unresolved private_address bad_status unparsable : Reply
  broken : Bool → Reply
  parsed : ServerKeys → List ℕ → Reply

-- IsPermanentError
unfoldable pub is_permanent_error : FetchError → Bool
is_permanent_error signature_invalid = true
is_permanent_error server_name_mismatch = true
is_permanent_error invalid_response = true
is_permanent_error _ = false

-- isRetryableError; NewResolveError keeps no network error in its chain.
unfoldable pub is_retryable_error : FetchError → Bool
is_retryable_error (transport retryable) = retryable
is_retryable_error _ = false

-- The length of a decoded text, when it decodes.
abbrev pub of_size : ℕ → Option (List ℕ) → Option (List ℕ)
of_size n none = none
of_size n (some bytes) = if length bytes == n then some bytes else none

abbrev pub signatures_of : String → Option (Dict (Dict String)) → Option (Dict String)
signatures_of signer none = none
signatures_of signer (some all) = find signer all

-- The loop over a notary's answer.
unfoldable pub find_server : String → List ServerKeys → Option ServerKeys
find_server name [] = none
find_server name (keys ∷ later) =
    if str_eq keys.server_name name then some keys else find_server name later

module _ (crypto : Crypto) where
  abbrev pub verify_decoded : List ℕ → Option (List ℕ) → Option (List ℕ) → Bool
  verify_decoded payload (some key) (some sig) = crypto.verify key payload sig
  verify_decoded payload _ _ = false

  abbrev pub key_verifies : List ℕ → String → String → Bool
  key_verifies payload key sig =
      verify_decoded payload (of_size 32 (crypto.decode key)) (of_size 64 (crypto.decode sig))

  abbrev pub old_key_verifies : List ℕ → Option String → String → Bool
  old_key_verifies payload none sig = false
  old_key_verifies payload (some key) sig = key_verifies payload key sig

  abbrev pub listed_key_verifies : List ℕ → Option String → Option String → String → Bool
  listed_key_verifies payload (some key) old sig = key_verifies payload key sig
  listed_key_verifies payload none old sig = old_key_verifies payload old sig

  -- The loop over the server's signatures.
  unfoldable pub any_signature : ServerKeys → List ℕ → Dict String → Bool
  any_signature keys payload [] = false
  any_signature keys payload ((key_id, sig) ∷ later) =
      let rest = any_signature keys payload later in
      if listed_key_verifies payload (find key_id keys.verify_keys)
        (find key_id keys.old_verify_keys) sig
      then true
      else rest

  abbrev pub any_of_payload : ServerKeys → Option (List ℕ) → Dict String → Bool
  any_of_payload keys none sigs = false
  any_of_payload keys (some payload) sigs = any_signature keys payload sigs

  abbrev pub self_signatures : ℕ → ServerKeys → List ℕ → Option (Dict String) → Bool
  self_signatures max keys body none = false
  self_signatures max keys body (some sigs) =
      if ltb max (length sigs) then false else any_of_payload keys (crypto.self_payload body) sigs

  -- verifySelfSignature at a time; `false` is an error.
  unfoldable pub verify_self_signature : ℕ → ℕ → ServerKeys → List ℕ → Bool
  unfolding any_signature
  verify_self_signature max now keys body =
      if str_eq keys.server_name ""
      then false
      else if length keys.verify_keys == 0
      then false
      else if leb keys.valid_until_ts now
      then false
      else self_signatures max keys body (signatures_of keys.server_name keys.signatures)

  -- fetchDirect on what the request meets, with the time of its verification.
  unfoldable pub fetch_direct : Fetcher → String → ℕ → Reply → Fetched
  unfolding verify_self_signature
  fetch_direct f name now unresolved = refused resolve_failed
  fetch_direct f name now private_address = refused resolve_failed
  fetch_direct f name now bad_status = refused (transport false)
  fetch_direct f name now unparsable = refused (transport false)
  fetch_direct f name now (broken retryable) = refused (transport retryable)
  fetch_direct f name now (parsed keys body) =
      if not (str_eq keys.server_name name)
      then refused server_name_mismatch
      else if not (verify_self_signature f.max_signatures now keys body)
      then refused signature_invalid
      else fetched (record keys { raw = body })

  abbrev pub pinned_payload : PinnedKey → Option String → Option (List ℕ) → Bool
  pinned_payload pin (some sig) (some payload) =
      verify_decoded payload (of_size 32 (some pin.public_key)) (of_size 64 (crypto.decode sig))
  pinned_payload pin _ _ = false

  abbrev pub pinned_signature : Option (Dict String) → PinnedKey → Option (List ℕ) → Bool
  pinned_signature none pin payload = false
  pinned_signature (some sigs) pin payload = pinned_payload pin (find pin.key_id sigs) payload

  abbrev pub pinned_verifies : Option PinnedKey → String → ServerKeys → Bool
  pinned_verifies none notary keys = true
  pinned_verifies (some pin) notary keys =
      pinned_signature (signatures_of notary keys.signatures) pin
        (crypto.notary_payload notary keys)

  -- verifyNotarySignature; `false` is an error.
  unfoldable pub verify_notary_signature : Fetcher → String → ServerKeys → Bool
  verify_notary_signature f notary keys =
      pinned_verifies (find notary f.trusted_notaries) notary keys

  abbrev pub checked_notary : Fetcher → String → Option ServerKeys → Fetched
  checked_notary f notary none = refused (transport false)
  checked_notary f notary (some keys) =
      if verify_notary_signature f notary keys then fetched keys else refused (transport false)

  -- fetchFromNotary on the notary's answer; `none` is any failure to get one.
  unfoldable pub fetch_from_notary : Fetcher → String → String → Option (List ServerKeys) → Fetched
  unfolding verify_notary_signature find_server
  fetch_from_notary f notary name none = refused (transport false)
  fetch_from_notary f notary name (some answer) = checked_notary f notary (find_server name answer)

-- What one call of FetchServerKeys meets: whether its context is done, the readings of the clock of
-- the circuit breaker, the semaphore, each attempt at the origin with the time of its verification,
-- whether the context ends in the pause before an attempt, and what each notary answers.
pub record Upstream : Type 0 where
  pub canceled : Bool
  pub allow_at : ℕ
  pub recorded_at : ℕ
  pub acquired : Bool
  pub stopped : ℕ → Bool
  pub verified_at : ℕ → ℕ
  pub reply : ℕ → Reply
  pub answer : String → Option (List ServerKeys)

module _ (crypto : Crypto) (f : Fetcher) where
  -- The end of a round of the retry loop: the attempts at the origin, and the result.
  abbrev pub after_attempt : Fetched → ℕ × Fetched → ℕ × Fetched
  after_attempt (fetched keys) rest = (1, fetched keys)
  after_attempt nothing rest = (1, nothing)
  after_attempt (refused e) rest =
      if is_permanent_error e
      then (1, refused e)
      else if not (is_retryable_error e)
      then (1, refused e)
      else (suc rest.0, rest.1)

  abbrev pub error_of : Fetched → Fetched → Fetched
  error_of (refused e) last = refused e
  error_of _ last = last

  -- The loop of fetchDirectWithRetry with `left` attempts to go, at the given one; `last` is lastErr.
  unfoldable pub retry_loop : String → Upstream → ℕ → ℕ → Fetched → ℕ × Fetched
  unfolding fetch_direct is_permanent_error is_retryable_error
  retry_loop name up zero attempt last = (0, last)
  retry_loop name up (suc left) attempt last =
      let one = fetch_direct crypto f name (up.verified_at attempt) (up.reply attempt) in
      let rest = retry_loop name up left (suc attempt) (error_of one last) in
      if ltb 0 attempt && up.stopped attempt
      then (0, refused context_canceled)
      else after_attempt one rest

  unfoldable pub fetch_direct_with_retry : String → Upstream → ℕ × Fetched
  unfolding retry_loop
  fetch_direct_with_retry name up = retry_loop name up f.retry_attempts 0 nothing

  abbrev pub first_fetched : Fetched → Fetched → Fetched
  first_fetched (fetched keys) later = fetched keys
  first_fetched nothing later = nothing
  first_fetched (refused e) later = later

  -- The loop over the fallback notaries.
  unfoldable pub fetch_fallback : String → Upstream → List String → Fetched
  unfolding fetch_from_notary
  fetch_fallback name up [] = refused fetch_failed
  fetch_fallback name up (notary ∷ later) =
      first_fetched (fetch_from_notary crypto f notary name (up.answer notary))
        (fetch_fallback name up later)

  abbrev pub record_result : String → ℕ → Breaker → Fetched → Breaker
  record_result name now cb (refused e) = record_failure name now cb
  record_result name now cb _ = record_success name now cb

  abbrev pub direct_or_fallback : String → Upstream → Fetched → Fetched
  direct_or_fallback name up (refused e) = fetch_fallback name up f.fallback_servers
  direct_or_fallback name up one = one

  abbrev pub fetch_allowed : String → Upstream → Breaker × Bool → Breaker × (ℕ × Fetched)
  fetch_allowed name up (cb, false) = (cb, (0, refused circuit_open))
  fetch_allowed name up (cb, true) =
      let direct = fetch_direct_with_retry name up in
      let result = direct_or_fallback name up direct.1 in
      if not up.acquired
      then (cb, (0, refused concurrency_limit))
      else (record_result name up.recorded_at cb result, (direct.0, result))

  -- FetchServerKeys, with the attempts at the origin counted.
  unfoldable pub fetch_server_keys : String → Upstream → Breaker → Breaker × (ℕ × Fetched)
  unfolding fetch_direct_with_retry fetch_fallback
  fetch_server_keys name up cb =
      if up.canceled
      then (cb, (0, refused context_canceled))
      else fetch_allowed name up (allow name up.allow_at cb)
