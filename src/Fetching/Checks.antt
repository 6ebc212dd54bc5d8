-- ===== src/Fetching/Checks.antt =====
-- internal/keys/fetcher_direct.go and fetcher_signature.go: what keys from the origin went through.
use mathlib.Core.List.{Memᴰ}
use mxkeys_org.Prelude.{
  ℕ, zero, suc, ◌+◌, ◌<◌, ◌≡◌, ◌≢◌, ◌∙◌, ◌⊎◌, inl, inr, refl, sym, ap, subst, Bool, true, false,
  not, ◌&&◌, Bool-cases, Option, none, some, String, str_eq, eq_iff, List, [], ◌∷◌, ltb,
  if◌then◌else◌, Dict, find, arith,
}
use mxkeys_org.Fetching.{
  ServerKeys, Crypto, Fetched, fetched, refused, nothing, Fetcher, Reply, signatures_of,
  key_verifies, listed_key_verifies, any_signature, any_of_payload, self_signatures,
  verify_self_signature, fetch_direct, unresolved, private_address, bad_status, unparsable, broken,
  parsed, Upstream, after_attempt, error_of, retry_loop, fetch_direct_with_retry, context_canceled,
  server_name_mismatch, signature_invalid,
}

-- A key that the keys list under an identifier, as a current or as an old one, verifies a signature
-- of the canonical body.
abbrev pub SignedIn : Crypto → ServerKeys → List ℕ → Dict String → Type 0
SignedIn crypto keys body sigs =
    (payload : List ℕ) × (key_id : String) × (sig : String) × (key : String) × (crypto.self_payload
        body
      ≡ some payload)
    × Memᴰ (key_id, sig) sigs
    × ((find key_id keys.verify_keys ≡ some key) ⊎ (find key_id keys.old_verify_keys ≡ some key))
    × (key_verifies crypto payload key sig ≡ true)

-- One of the signatures that the keys have under their own server's name is such a signature.
abbrev pub SelfSigned : Crypto → ServerKeys → List ℕ → Type 0
SelfSigned crypto keys body =
    (all : Dict (Dict String)) × (sigs : Dict String) × (keys.signatures ≡ some all)
    × (find keys.server_name all ≡ some sigs)
    × SignedIn crypto keys body sigs

signatures_of-found :
    (signer : String) (o : Option (Dict (Dict String))) (sigs : Dict String)
    → signatures_of signer o ≡ some sigs
    → (all : Dict (Dict String)) × (o ≡ some all) × (find signer all ≡ some sigs)
signatures_of-found signer none sigs h = absurd (ground (arith, h))
signatures_of-found signer (some all) sigs h = (all, refl, h)

abbrev keys_or : ServerKeys → Fetched → ServerKeys
keys_or other (fetched keys) = keys
keys_or other (refused e) = other
keys_or other nothing = other

-- The checks of fetchDirect after it parsed a body.
checked-fetched :
    (named verified : Bool) (one keys : ServerKeys)
    → (if not named
        then refused server_name_mismatch
        else if not verified
        then refused signature_invalid
        else fetched one)
      ≡ fetched keys
    → (named ≡ true) × (verified ≡ true) × (one ≡ keys)
checked-fetched false verified one keys ok = ground (arith, ok)
checked-fetched true false one keys ok = ground (arith, ok)
checked-fetched true true one keys ok = (refl, refl, ap (keys_or one) ok)

module _ (crypto : Crypto) where
  listed_key_verifies-key :
      (payload : List ℕ) (new old : Option String) (sig : String)
      → listed_key_verifies crypto payload new old sig ≡ true
      → (key : String) × ((new ≡ some key) ⊎ (old ≡ some key))
        × (key_verifies crypto payload key sig ≡ true)
  listed_key_verifies-key payload (some key) old sig ok = (key, inl refl, ok)
  listed_key_verifies-key payload none (some key) sig ok = (key, inr refl, ok)
  listed_key_verifies-key payload none none sig ok = ground (arith, ok)

  any_signature-key :
      (keys : ServerKeys) (payload : List ℕ) (sigs : Dict String)
      → any_signature crypto keys payload sigs ≡ true
      → (key_id : String) × (sig : String) × (key : String) × Memᴰ (key_id, sig) sigs
        × ((find key_id keys.verify_keys ≡ some key)
            ⊎ (find key_id keys.old_verify_keys ≡ some key))
        × (key_verifies crypto payload key sig ≡ true)
  unfolding any_signature
  any_signature-key keys payload [] ok = ground (arith, ok)
  any_signature-key keys payload ((key_id, sig) ∷ later) ok =
      let new = find key_id keys.verify_keys in
      let old = find key_id keys.old_verify_keys in
      elim (Bool-cases (listed_key_verifies crypto payload new old sig)) [
        | inl hit ↦
            let (key, listed, verifies) = listed_key_verifies-key payload new old sig hit in
            (key_id, sig, key, Memᴰ.head refl, listed, verifies)
        | inr miss ↦
            let (key_id', sig', key, inside, listed, verifies) =
              any_signature-key keys payload later (
                sym (ap (λ b. if b then true else any_signature crypto keys payload later) miss)
                ∙ ok) in
            (key_id', sig', key, Memᴰ.tail inside, listed, verifies)
      ]

  any_of_payload-SignedIn :
      (keys : ServerKeys) (body : List ℕ) (payload : Option (List ℕ)) (sigs : Dict String)
      → crypto.self_payload body ≡ payload
      → any_of_payload crypto keys payload sigs ≡ true
      → SignedIn crypto keys body sigs
  any_of_payload-SignedIn keys body none sigs e ok = ground (arith, ok)
  any_of_payload-SignedIn keys body (some payload) sigs e ok =
      let (key_id, sig, key, inside, listed, verifies) = any_signature-key keys payload sigs ok in
      (payload, key_id, sig, key, e, inside, listed, verifies)

  self_signatures-SelfSigned :
      (max : ℕ) (keys : ServerKeys) (body : List ℕ) (o : Option (Dict String))
      → signatures_of keys.server_name keys.signatures ≡ o
      → self_signatures crypto max keys body o ≡ true
      → SelfSigned crypto keys body
  self_signatures-SelfSigned max keys body none own ok = ground (arith, ok)
  self_signatures-SelfSigned max keys body (some sigs) own ok =
      let (all, there, found) = signatures_of-found keys.server_name keys.signatures sigs own in
      let signed =
        any_of_payload-SignedIn keys body (crypto.self_payload body) sigs refl
          (ground (arith, ok)) in
      (all, sigs, there, found, signed)

  verify_self_sound :
      (max now : ℕ) (keys : ServerKeys) (body : List ℕ)
      → verify_self_signature crypto max now keys body ≡ true
      → (now < keys.valid_until_ts)
        × (self_signatures crypto max keys body (signatures_of keys.server_name keys.signatures)
            ≡ true)
  unfolding verify_self_signature
  verify_self_sound max now keys body ok = (ground (arith, ok), ground (arith, ok))

  fetch_direct_sound :
      (f : Fetcher) (name : String) (now : ℕ) (reply : Reply) (keys : ServerKeys)
      → fetch_direct crypto f name now reply ≡ fetched keys
      → (keys.server_name ≡ name) × (now < keys.valid_until_ts) × SelfSigned crypto keys keys.raw
  unfolding fetch_direct
  fetch_direct_sound f name now unresolved keys ok = ground (arith, ok)
  fetch_direct_sound f name now private_address keys ok = ground (arith, ok)
  fetch_direct_sound f name now bad_status keys ok = ground (arith, ok)
  fetch_direct_sound f name now unparsable keys ok = ground (arith, ok)
  fetch_direct_sound f name now (broken retryable) keys ok = ground (arith, ok)
  fetch_direct_sound f name now (parsed origin body) keys ok =
      let body_checks = verify_self_signature crypto f.max_signatures now origin body in
      let (named, verified, same) =
        checked-fetched (str_eq origin.server_name name) body_checks (record origin { raw = body })
          keys ok in
      let (unexpired, signed) = verify_self_sound f.max_signatures now origin body verified in
      let self_signed =
        self_signatures-SelfSigned f.max_signatures origin body
          (signatures_of origin.server_name origin.signatures) refl signed in
      subst (λ k. (k.server_name ≡ name) × (now < k.valid_until_ts) × SelfSigned crypto k k.raw)
        same ((eq_iff origin.server_name name).0 named, unexpired, self_signed)

-- What the keys of an attempt went through.
abbrev pub IsVerified : Crypto → String → Upstream → ServerKeys → ℕ → Type 0
IsVerified crypto name up keys attempt =
    (keys.server_name ≡ name)
    × (up.verified_at attempt < keys.valid_until_ts)
    × SelfSigned crypto keys keys.raw

module _ (crypto : Crypto) (f : Fetcher) where
  after_attempt-fetched :
      (one : Fetched) (rest : ℕ × Fetched) (keys : ServerKeys)
      → (after_attempt crypto f one rest).1 ≡ fetched keys
      → (one ≡ fetched keys) ⊎ ((one ≢ fetched keys) × (rest.1 ≡ fetched keys))
  after_attempt-fetched (fetched keys') rest keys ok = inl ok
  after_attempt-fetched nothing rest keys ok = ground (arith, ok)
  after_attempt-fetched (refused e) rest keys ok = inr (λ q. ground (arith, q), ground (arith, ok))

  -- A round of the loop ends with the keys of its attempt, or of the later ones.
  round-fetched :
      (stop : Bool) (one : Fetched) (rest : ℕ × Fetched) (keys : ServerKeys)
      → (if stop then (0, refused context_canceled) else after_attempt crypto f one rest).1
        ≡ fetched keys
      → (one ≡ fetched keys) ⊎ ((one ≢ fetched keys) × (rest.1 ≡ fetched keys))
  round-fetched true one rest keys ok = ground (arith, ok)
  round-fetched false one rest keys ok = after_attempt-fetched one rest keys ok

  error_of-fresh :
      (one last : Fetched) (keys : ServerKeys)
      → last ≢ fetched keys
      → one ≢ fetched keys
      → error_of crypto f one last ≢ fetched keys
  error_of-fresh (fetched k) last keys fresh other = fresh
  error_of-fresh nothing last keys fresh other = fresh
  error_of-fresh (refused e) last keys fresh other = other

  retry_loop-IsVerified :
      (name : String) (up : Upstream) (left attempt : ℕ) (last : Fetched) (keys : ServerKeys)
      → last ≢ fetched keys
      → (retry_loop crypto f name up left attempt last).1 ≡ fetched keys
      → (i : ℕ) × (i < attempt + left) × IsVerified crypto name up keys i
  unfolding retry_loop
  retry_loop-IsVerified name up zero attempt last keys fresh ok = absurd (fresh ok)
  retry_loop-IsVerified name up (suc left) attempt last keys fresh ok =
      let one = fetch_direct crypto f name (up.verified_at attempt) (up.reply attempt) in
      let rest = retry_loop crypto f name up left (suc attempt) (error_of crypto f one last) in
      let ended = round-fetched (ltb 0 attempt && up.stopped attempt) one rest keys ok in
      elim ended [
        | inl now ↦ (
          attempt,
          omega arith,
          fetch_direct_sound crypto f name (up.verified_at attempt) (up.reply attempt) keys now,
        )
        | inr later ↦
            let (i, before, verified) =
              retry_loop-IsVerified name up left (suc attempt) (error_of crypto f one last) keys
                (error_of-fresh one last keys fresh later.0) later.1 in
            (i, omega (arith, before), verified)
      ]

  -- Keys that fetchDirectWithRetry returns came from one of its retryAttempts attempts, bear the
  -- server's name, expire after the clock that this attempt was verified at, and have among the signatures under that
  -- name one of the canonical body that a key listed in them under the signature's key id, current or old, verifies.
  pub fetched-IsVerified :
      (name : String) (up : Upstream) (keys : ServerKeys)
      → (fetch_direct_with_retry crypto f name up).1 ≡ fetched keys
      → (attempt : ℕ) × (attempt < f.retry_attempts) × IsVerified crypto name up keys attempt
  unfolding fetch_direct_with_retry
  fetched-IsVerified name up keys ok =
      let (i, before, verified) =
        retry_loop-IsVerified name up f.retry_attempts 0 nothing keys (λ e. ground (arith, e)) ok in
      (i, omega (arith, before), verified)
