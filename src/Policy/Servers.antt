-- ===== src/Policy/Servers.antt =====
-- internal/keys/trustpolicy.go: what a server has that CheckServer lets pass.
use mxkeys_org.Prelude.{
  ◌≡◌, ◌⊎◌, refl, subst, true, false, if◌then◌else◌, Bool, inl, inr, arith, Option, none, some,
  List, [], ◌∷◌, Text,
}
use mxkeys_org.Addresses.{Net}
use mxkeys_org.Policy.{
  TrustPolicy, PolicyConfig, Check, passed, panicked, violation, then_check, deny_check,
  allow_check, has_entries, is_denied, is_allowed, is_listed, patterns_of, check_server,
  check_private_ip, new_trust_policy, reload, check_require_well_known, check_require_valid_tls,
}
use mxkeys_org.Policy.Lists.{Listed, Listed-sound, Listed-complete}

-- The patterns are those of the lists.
abbrev pub IsCompiled : TrustPolicy → Type 0
IsCompiled tp =
    (tp.denied_patterns ≡ patterns_of tp.config.denied)
    × (tp.allowed_patterns ≡ patterns_of tp.config.allowed)

both_passed : (a b : Check) → then_check a b ≡ passed → (a ≡ passed) × (b ≡ passed)
both_passed passed b h = (refl, h)
both_passed panicked b h = absurd (ground (arith, h))
both_passed (violation r) b h = absurd (ground (arith, h))

deny_passed : (o : Option Bool) → deny_check o ≡ passed → o ≡ some false
deny_passed none h = absurd (ground (arith, h))
deny_passed (some true) h = absurd (ground (arith, h))
deny_passed (some false) h = refl

allow_passed : (o : Option Bool) → allow_check o ≡ passed → o ≡ some true
allow_passed none h = absurd (ground (arith, h))
allow_passed (some true) h = refl
allow_passed (some false) h = absurd (ground (arith, h))

enabled_checks :
    (net : Net) (tp : TrustPolicy) (name : Text)
    → tp.config.enabled ≡ true
    → check_server net tp name ≡ passed
    → (deny_check (is_denied tp name) ≡ passed)
      × (((if has_entries tp.config.allowed then allow_check (is_allowed tp name) else passed)
            ≡ passed)
          × (((if tp.config.block_private then check_private_ip net name else passed) ≡ passed)
              × (((if tp.config.well_known then check_require_well_known net name else passed)
                    ≡ passed)
                  × ((if tp.config.valid_tls then check_require_valid_tls net name else passed)
                      ≡ passed))))
unfolding check_server
enabled_checks net tp name on h =
    let (deny, h1) = both_passed (deny_check (is_denied tp name)) _ (rw on at h) in
    let (allow, h2) =
      both_passed
        (if has_entries tp.config.allowed then allow_check (is_allowed tp name) else passed) _ h1 in
    let (address, h3) =
      both_passed (if tp.config.block_private then check_private_ip net name else passed) _ h2 in
    let (wk, tls) =
      both_passed (if tp.config.well_known then check_require_well_known net name else passed) _
        h3 in
    (deny, (allow, (address, (wk, tls))))

allow_side :
    (tp : TrustPolicy) (name : Text)
    → IsCompiled tp
    → (if has_entries tp.config.allowed then allow_check (is_allowed tp name) else passed) ≡ passed
    → (tp.config.allowed ≡ []) ⊎ Listed tp.config.allowed name
allow_side tp name compiled h = by_list tp.config.allowed refl
  where
    by_list :
        (l : List Text)
        → tp.config.allowed ≡ l
        → (tp.config.allowed ≡ []) ⊎ Listed tp.config.allowed name
    by_list [] e = inl e
    by_list (x ∷ l) e =
        let some_entries : has_entries tp.config.allowed ≡ true = rw e refl in
        let hit = allow_passed (is_allowed tp name) (rw some_entries at h) in
        inr (
          Listed-sound tp.config.allowed name
            (subst (λ ps. is_listed tp.config.allowed ps name ≡ some true) compiled.1 hit))

-- A server that an enabled policy lets pass matches no entry of the deny list and, unless the allow
-- list is empty, some entry of the allow list, by the meaning of the entries.
pub passed_lists :
    (net : Net) (tp : TrustPolicy) (name : Text)
    → IsCompiled tp
    → tp.config.enabled ≡ true
    → check_server net tp name ≡ passed
    → (¬ Listed tp.config.denied name) × ((tp.config.allowed ≡ []) ⊎ Listed tp.config.allowed name)
passed_lists net tp name compiled on h =
    let (deny, (allow, _)) = enabled_checks net tp name on h in
    let miss = deny_passed (is_denied tp name) deny in
    (
      Listed-complete tp.config.denied name
          (subst (λ ps. is_listed tp.config.denied ps name ≡ some false) compiled.0 miss),
      allow_side tp name compiled allow,
    )

-- The constructor and a reload compile the patterns of the lists that they set.
pub new-IsCompiled : (cfg : PolicyConfig) → IsCompiled (new_trust_policy cfg)
unfolding new_trust_policy
new-IsCompiled cfg = (refl, refl)

pub reload-IsCompiled : (cfg : PolicyConfig) (tp : TrustPolicy) → IsCompiled (reload cfg tp)
unfolding reload
reload-IsCompiled cfg tp = (refl, refl)
