-- ===== src/Notary/Queries.antt =====
-- internal/keys/notary_query.go: QueryKeys, which answers a request for the keys of several servers.
-- The trust policy, the signature of the notary and its attachment to the raw bytes are a
-- parameter here, and so is sort.Strings.
pub mod Names
pub mod Outcomes
pub mod Counts
use mxkeys_org.Prelude.{
  ℕ, ◌+◌, Bool, true, false, Option, none, some, String, List, [], ◌∷◌, ◌++◌, length, ltb,
  if◌then◌else◌, Dict, find, assign,
}
use mxkeys_org.Fetching.{ServerKeys, FetchError, Fetched, fetched, refused, nothing}
use mxkeys_org.Notary.{Cache, Meets, get_server_keys_with_criteria}

-- The failures of a response; `no_keys` stands for a fetch with neither keys nor an error, which
-- no fetcher with retryAttempts above 0 returns.
pub data Failure : Type 0 where
  forbidden signing_failed no_keys : Failure
  not_obtained : FetchError → Failure

-- What a query meets: the lifetime of the cache, the violations of the trust policy by name and by
-- response, the signing, and for each server what the lookup of its keys meets.
pub record Services : Type 0 where
  pub hours : ℕ
  pub sort : List String → List String
  pub server_violates : String → Bool
  pub response_violates : String → ServerKeys → Bool
  pub sign : ServerKeys → Option ServerKeys
  pub attach : ServerKeys → ServerKeys
  pub meets : String → Meets
  pub again : String → Fetched
  pub again_at : String → ℕ

-- KeyQueryResponse, with the cache that the query leaves.
pub record Answer : Type 0 where
  pub cache : Cache
  pub server_keys : List ServerKeys
  pub failures : Dict Failure

-- The loop over the criteria of a server.
unfoldable pub max_minimum : ℕ → List ℕ → ℕ
max_minimum best [] = best
max_minimum best (c ∷ cs) = max_minimum (if ltb best c then c else best) cs

abbrev pub minimum_of : Option (List ℕ) → ℕ
minimum_of none = 0
minimum_of (some criteria) = max_minimum 0 criteria

-- The keys of a map.
unfoldable pub names {ℓ} : {V : Type ℓ} → Dict V → List String
names [] = []
names ((name, v) ∷ m) = name ∷ names m

abbrev pub fail : String → Failure → Cache → Answer → Answer
fail name failure cache a = record a { cache = cache; failures = assign name failure a.failures }

module _ (s : Services) where
  abbrev pub deliver : String → Cache → Answer → Option ServerKeys → Answer
  deliver name cache a none = fail name signing_failed cache a
  deliver name cache a (some signed) =
      let final = s.attach signed in
      if s.response_violates name final
      then fail name forbidden cache a
      else record a { cache = cache; server_keys = a.server_keys ++ final ∷ [] }

  -- A round of QueryKeys after the lookup.
  abbrev pub answer_server : String → Answer → Cache × Fetched → Answer
  answer_server name a (cache, fetched keys) = deliver name cache a (s.sign keys)
  answer_server name a (cache, refused e) = fail name (not_obtained e) cache a
  answer_server name a (cache, nothing) = fail name no_keys cache a

  -- The loop of QueryKeys over the names.
  unfoldable pub answer_all : Dict (List ℕ) → List String → Answer → Answer
  unfolding max_minimum
  answer_all request [] a = a
  answer_all request (name ∷ later) a =
      let looked_up =
        get_server_keys_with_criteria s.hours name (minimum_of (find name request)) (s.meets name)
          (s.again name) (s.again_at name) a.cache in
      answer_all request later (answer_server name a looked_up)

  -- applyTrustPolicyToRequest: the failures, and what is left of the request.
  unfoldable pub apply_trust_policy : Dict (List ℕ) → Dict Failure × Dict (List ℕ)
  apply_trust_policy [] = ([], [])
  apply_trust_policy ((name, criteria) ∷ request) =
      let rest = apply_trust_policy request in
      if s.server_violates name
      then (assign name forbidden rest.0, rest.1)
      else (rest.0, (name, criteria) ∷ rest.1)

  unfoldable pub query_keys : Dict (List ℕ) → Cache → Answer
  unfolding apply_trust_policy answer_all names
  query_keys request cache =
      let checked = apply_trust_policy request in
      answer_all checked.1 (s.sort (names checked.1))
        (record { cache = cache; server_keys = []; failures = checked.0 })
