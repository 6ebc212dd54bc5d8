-- ===== src/Policy.antt =====
-- internal/keys/trustpolicy.go, trustpolicy_checks.go and trustpolicy_runtime.go: the rules that say
-- which servers and which responses are trusted. A violation is its rule; the texts of `Details`
-- are left out. The lock is held for the whole of a check. `panicked` is a panic of matchWildcard.
pub mod Wildcard
pub mod Lists
pub mod Hosts
pub mod Ranges
pub mod Servers
use mxkeys_org.Prelude.{
  ℕ, suc, ◌+◌, ◌-◌, ◌*◌, ◌<◌, Bool, true, false, not, ◌&&◌, ◌||◌, Option, none, some, List, [], ◌∷◌,
  ltb, ◌==◌, if◌then◌else◌, length, take, drop, Text, is_empty, is_some, has_prefix, has_suffix,
  index_of, last_index, contains, bytes_eq,
}
use mxkeys_org.Addresses.{Net, Ip, is_private_ip, ParsedName, parse_server_name}
use mxkeys_org.Policy.Wildcard.{star, match_wildcard}

pub data Rule : Type 0 where
  deny_list allow_list block_private_ips require_well_known require_valid_tls : Rule
  max_key_age require_notary_signatures : Rule

-- TrustPolicyConfig
pub record PolicyConfig : Type 0 where
  pub enabled : Bool
  pub denied : List Text
  pub allowed : List Text
  pub notary_signatures : ℕ
  pub max_key_age_hours : ℕ
  pub well_known : Bool
  pub valid_tls : Bool
  pub block_private : Bool

-- TrustPolicy
pub record TrustPolicy : Type 0 where
  pub config : PolicyConfig
  pub denied_patterns : List Text
  pub allowed_patterns : List Text

abbrev pub has_star : Text → Bool
has_star entry = contains entry (star ∷ [])

-- "Compile patterns": the entries with a star.
unfoldable pub patterns_of : List Text → List Text
unfolding index_of has_prefix
patterns_of [] = []
patterns_of (e ∷ es) = let rest = patterns_of es in if has_star e then e ∷ rest else rest

-- NewTrustPolicy
unfoldable pub new_trust_policy : PolicyConfig → TrustPolicy
unfolding patterns_of
new_trust_policy cfg = record {
  config = cfg;
  denied_patterns = patterns_of cfg.denied;
  allowed_patterns = patterns_of cfg.allowed;
}

-- Reload
unfoldable pub reload : PolicyConfig → TrustPolicy → TrustPolicy
unfolding patterns_of
reload cfg tp = record tp {
  config = cfg;
  denied_patterns = patterns_of cfg.denied;
  allowed_patterns = patterns_of cfg.allowed;
}

-- The loop for exact matches.
unfoldable pub exact_match : List Text → Text → Bool
unfolding index_of has_prefix bytes_eq
exact_match [] name = false
exact_match (e ∷ es) name =
    let later = exact_match es name in if not (has_star e) && bytes_eq e name then true else later

abbrev pub or_later : Option Bool → Option Bool → Option Bool
or_later none later = none
or_later (some true) later = some true
or_later (some false) later = later

-- The loop over the patterns; `none` is a panic.
unfoldable pub pattern_match : List Text → Text → Option Bool
unfolding match_wildcard
pattern_match [] name = some false
pattern_match (p ∷ ps) name = or_later (match_wildcard p name) (pattern_match ps name)

-- isDenied and isAllowed
unfoldable pub is_listed : List Text → List Text → Text → Option Bool
unfolding exact_match pattern_match
is_listed entries patterns name =
    let by_pattern = pattern_match patterns name in
    if exact_match entries name then some true else by_pattern

abbrev pub is_denied : TrustPolicy → Text → Option Bool
is_denied tp name = is_listed tp.config.denied tp.denied_patterns name

abbrev pub is_allowed : TrustPolicy → Text → Option Bool
is_allowed tp name = is_listed tp.config.allowed tp.allowed_patterns name

pub data Check : Type 0 where
  passed panicked : Check
  violation : Rule → Check

abbrev pub then_check : Check → Check → Check
then_check passed later = later
then_check panicked later = panicked
then_check (violation r) later = violation r

-- The host that checkPrivateIP looks at.
abbrev pub without_port : Text → Option ℕ → Text
without_port name none = name
without_port name (some colon) = if contains name (91 ∷ []) then name else take colon name

abbrev pub up_to_bracket : Text → Option ℕ → Text
up_to_bracket host none = host
up_to_bracket host (some close) = drop 1 (take close host)

abbrev pub without_brackets : Text → Text
without_brackets host =
    if has_prefix host (91 ∷ []) && contains host (93 ∷ [])
    then up_to_bracket host (index_of host (93 ∷ []))
    else host

abbrev pub private_host : Text → Text
private_host name = without_brackets (without_port name (last_index name 58))

abbrev pub check_address : Option Ip → Check
check_address none = passed
check_address (some ip) = if is_private_ip ip then violation block_private_ips else passed

-- "localhost", ".localhost" and ".local"
abbrev pub localhost : Text
localhost = 108 ∷ 111 ∷ 99 ∷ 97 ∷ 108 ∷ 104 ∷ 111 ∷ 115 ∷ 116 ∷ []

abbrev pub is_local : Text → Bool
is_local host =
    bytes_eq host localhost
    || has_suffix host (46 ∷ localhost)
    || has_suffix host (46 ∷ 108 ∷ 111 ∷ 99 ∷ 97 ∷ 108 ∷ [])

-- Server keys as far as CheckResponse reads them: valid_until_ts and the signers.
pub record SignedResponse : Type 0 where
  pub valid_until_ts : ℕ
  pub signers : List Text

unfoldable pub count_notary_signatures : Text → List Text → ℕ
unfolding bytes_eq
count_notary_signatures name [] = 0
count_notary_signatures name (s ∷ signers) =
    let rest = count_notary_signatures name signers in if bytes_eq s name then rest else rest + 1

abbrev pub deny_check : Option Bool → Check
deny_check none = panicked
deny_check (some true) = violation deny_list
deny_check (some false) = passed

abbrev pub allow_check : Option Bool → Check
allow_check none = panicked
allow_check (some true) = passed
allow_check (some false) = violation allow_list

abbrev pub has_entries : List Text → Bool
has_entries [] = false
has_entries (e ∷ es) = true

-- CheckResponse; `now` is the clock reading in nanoseconds, valid_until_ts is in milliseconds.
unfoldable pub check_response : ℕ → TrustPolicy → Text → SignedResponse → Check
unfolding count_notary_signatures
check_response now tp name resp =
    if not tp.config.enabled
    then passed
    else if ltb 0 tp.config.max_key_age_hours
        && ltb (tp.config.max_key_age_hours * 3600000000000) (resp.valid_until_ts * 1000000 - now)
    then violation max_key_age
    else if ltb 0 tp.config.notary_signatures
        && ltb (count_notary_signatures name resp.signers) tp.config.notary_signatures
    then violation require_notary_signatures
    else passed

module _ (net : Net) where
  unfoldable pub check_private_ip : Text → Check
  unfolding index_of has_prefix last_index is_private_ip
  check_private_ip name = check_address (net.parse_ip (private_host name))

  unfoldable pub check_require_well_known : Text → Check
  unfolding parse_server_name
  check_require_well_known name =
      let parsed = parse_server_name net name in
      if is_empty parsed.hostname
      then violation require_well_known
      else if parsed.is_ip_literal
      then violation require_well_known
      else if not (parsed.port == 0)
      then violation require_well_known
      else passed

  unfoldable pub check_require_valid_tls : Text → Check
  unfolding parse_server_name bytes_eq has_suffix
  check_require_valid_tls name =
      let parsed = parse_server_name net name in
      if is_empty parsed.hostname
      then violation require_valid_tls
      else if parsed.is_ip_literal
      then violation require_valid_tls
      else if is_local (net.to_lower parsed.hostname)
      then violation require_valid_tls
      else passed

  -- CheckServer
  unfoldable pub check_server : TrustPolicy → Text → Check
  unfolding is_listed check_private_ip check_require_well_known check_require_valid_tls
  check_server tp name =
      if not tp.config.enabled
      then passed
      else then_check (deny_check (is_denied tp name)) (
          then_check
            (if has_entries tp.config.allowed then allow_check (is_allowed tp name) else passed)
            (then_check (if tp.config.block_private then check_private_ip name else passed) (
              then_check (if tp.config.well_known then check_require_well_known name else passed)
                (if tp.config.valid_tls then check_require_valid_tls name else passed))))
