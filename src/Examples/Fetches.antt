-- ===== src/Examples/Fetches.antt =====
-- Fetches of keys, for internal/keys/fetcher_orchestration.go.
use mxkeys_org.Prelude.{
  ℕ, zero, suc, ◌<◌, refl, true, false, none, some, str_eq, List, [], ◌∷◌, if◌then◌else◌, find,
}
use mxkeys_org.Breaker.{Breaker, new_circuit_breaker, allow}
use mxkeys_org.Fetching.{
  ServerKeys, Crypto, fetch_failed, Fetcher, Reply, unresolved, broken, parsed, Upstream,
  is_permanent_error, is_retryable_error, any_signature, verify_self_signature, fetch_direct,
  fetch_from_notary, retry_loop, fetch_direct_with_retry, fetch_fallback, fetch_server_keys,
}
use mxkeys_org.Fetching.Checks.{IsVerified, fetched-IsVerified}
use mxkeys_org.Fetching.Fallbacks.{FetchEnd, fetch_ends}

abbrev zeros : ℕ → List ℕ
zeros zero = []
zeros (suc n) = 0 ∷ zeros n

-- Signatures have 64 bytes and keys have 32; every signature verifies.
abbrev lax : Crypto
lax = record {
  decode = λ text. if str_eq text "signature" then some (zeros 64) else some (zeros 32);
  verify = λ key message signature. true;
  self_payload = λ body. some body;
  notary_payload = λ notary keys. some [];
}

abbrev fetcher : Fetcher
fetcher = record {
  fallback_servers = "notary.org" ∷ [];
  trusted_notaries = [];
  retry_attempts = 3;
  max_signatures = 10;
}

abbrev origin_keys : ServerKeys
origin_keys = record {
  server_name = "a.org";
  verify_keys = ("ed25519:1", "key") ∷ [];
  old_verify_keys = [];
  valid_until_ts = 5000;
  signatures = some (("a.org", ("ed25519:1", "signature") ∷ []) ∷ []);
  raw = 123 ∷ 125 ∷ [];
}

-- The first attempt meets a reset connection, the next ones an answer.
abbrev second_time : ℕ → Reply
second_time zero = broken true
second_time (suc n) = parsed origin_keys (123 ∷ 125 ∷ [])

abbrev flaky : Upstream
flaky = record {
  canceled = false;
  allow_at = 0;
  recorded_at = 10;
  acquired = true;
  stopped = λ attempt. false;
  verified_at = λ attempt. 1000;
  reply = second_time;
  answer = λ notary. none;
}

fetched-IsVerified_example :
    (attempt : ℕ) × (attempt < 3) × IsVerified lax "a.org" flaky origin_keys attempt
unfolding fetch_direct_with_retry retry_loop fetch_direct verify_self_signature any_signature
    is_permanent_error is_retryable_error find
fetched-IsVerified_example = fetched-IsVerified lax fetcher "a.org" flaky origin_keys refl

-- Nothing answers.
abbrev outage : Upstream
outage = record flaky { reply = λ attempt. unresolved }

abbrev fresh_breaker : Breaker
fresh_breaker = new_circuit_breaker 5 60

fetch_ends_example :
    FetchEnd lax fetcher fresh_breaker
      (allow "a.org" 0 fresh_breaker)
      outage
      (fetch_server_keys lax fetcher "a.org" outage fresh_breaker)
      "a.org"
      fetch_failed
unfolding fetch_server_keys fetch_direct_with_retry retry_loop fetch_direct is_permanent_error
    is_retryable_error fetch_fallback fetch_from_notary allow new_circuit_breaker find
fetch_ends_example = fetch_ends lax fetcher "a.org" outage fresh_breaker fetch_failed refl

-- Keys that expired at the epoch, with no signature.
abbrev expired_keys : ServerKeys
expired_keys = record origin_keys { valid_until_ts = 0; signatures = none }

abbrev notary_only : Upstream
notary_only = record outage { answer = λ notary. some (expired_keys ∷ []) }
