-- ===== src/Policy/Hosts.antt =====
-- internal/keys/trustpolicy_checks.go and trustpolicy_runtime.go: the host that checkPrivateIP finds in a server
-- name, and the addresses that isPrivateIP lets pass.
use mxkeys_org.Prelude.{
  ℕ, suc, ◌≡◌, ◌∙◌, refl, ap, Bool, true, false, ◌&&◌, Option, none, some, [], ◌∷◌, ◌++◌, ◌==◌,
  if◌then◌else◌, length, take, take-append, Text, has_prefix, index_of, last_index, next_index,
  contains, is_some, last_or, arith,
}
use mxkeys_org.Addresses.{}
use mxkeys_org.Policy.{without_port, without_brackets, up_to_bracket, private_host}

-- A text without a byte.
abbrev pub lacks : ℕ → Text → Bool
lacks c [] = true
lacks c (d ∷ s) = if d == c then false else lacks c s

last_index-lacks : (c : ℕ) (s : Text) → lacks c s ≡ true → last_index s c ≡ none
unfolding last_index
last_index-lacks c [] h = refl
last_index-lacks c (d ∷ s) h =
    let other : (d == c) ≡ false = ground (arith, h) in
    ap (λ o. last_or o (d == c)) (last_index-lacks c s (ground (arith, h)))
    ∙ ap (λ b. if b then some 0 else none) other

last_index-at :
    (c : ℕ) (s r : Text) → lacks c r ≡ true → last_index (s ++ c ∷ r) c ≡ some (length s)
unfolding last_index
last_index-at c [] r h = ap (λ o. last_or o (c == c)) (last_index-lacks c r h) ∙ ground arith
last_index-at c (d ∷ s) r h = ap (λ o. last_or o (d == c)) (last_index-at c s r h)

has_prefix-one : (c d : ℕ) (s : Text) → has_prefix (d ∷ s) (c ∷ []) ≡ (d == c)
unfolding has_prefix
has_prefix-one c d [] = ground arith
has_prefix-one c d (e ∷ s) = ground arith

index_of-lacks : (c : ℕ) (s : Text) → lacks c s ≡ true → index_of s (c ∷ []) ≡ none
unfolding index_of
index_of-lacks c [] h = refl
index_of-lacks c (d ∷ s) h =
    let other : (d == c) ≡ false = ground (arith, h) in
    ap (λ b. if b then some 0 else next_index (index_of s (c ∷ []))) (has_prefix-one c d s ∙ other)
    ∙ ap next_index (index_of-lacks c s (ground (arith, h)))

index_of-at :
    (c : ℕ) (s r : Text) → lacks c s ≡ true → index_of (s ++ c ∷ r) (c ∷ []) ≡ some (length s)
unfolding index_of
index_of-at c [] r h =
    let here : (c == c) ≡ true = ground arith in
    ap (λ b. if b then some 0 else next_index (index_of r (c ∷ []))) (has_prefix-one c c r ∙ here)
index_of-at c (d ∷ s) r h =
    let other : (d == c) ≡ false = ground (arith, h) in
    ap (λ b. if b then some 0 else next_index (index_of (s ++ c ∷ r) (c ∷ [])))
      (has_prefix-one c d (s ++ c ∷ r) ∙ other)
    ∙ ap next_index (index_of-at c s r (ground (arith, h)))

lacks-append : (c : ℕ) (s r : Text) → lacks c s ≡ true → lacks c r ≡ true → lacks c (s ++ r) ≡ true
lacks-append c [] r h g = g
lacks-append c (d ∷ s) r h g = ground (arith, h, lacks-append c s r (ground (arith, h)) g)

-- A host that is no bracket stays as it is.
no_brackets : (h : Text) → lacks 91 h ≡ true → without_brackets h ≡ h
unfolding has_prefix
no_brackets [] l = refl
no_brackets (d ∷ h) l =
    let other : (d == 91) ≡ false = ground (arith, l) in
    ap
      (λ b.
        if b && contains (d ∷ h) (93 ∷ [])
        then up_to_bracket (d ∷ h) (index_of (d ∷ h) (93 ∷ []))
        else d ∷ h)
      (has_prefix-one 91 d h ∙ other)

in_brackets : (h r : Text) → lacks 93 h ≡ true → without_brackets (91 ∷ h ++ 93 ∷ r) ≡ h
unfolding has_prefix
in_brackets h r l =
    let at : index_of (91 ∷ h ++ 93 ∷ r) (93 ∷ []) ≡ some (suc (length h)) =
      index_of-at 93 (91 ∷ h) r l in
    ap
      (λ b.
        if b && contains (91 ∷ h ++ 93 ∷ r) (93 ∷ [])
        then up_to_bracket (91 ∷ h ++ 93 ∷ r) (index_of (91 ∷ h ++ 93 ∷ r) (93 ∷ []))
        else 91 ∷ h ++ 93 ∷ r)
      (has_prefix-one 91 91 (h ++ 93 ∷ r))
    ∙ ap (λ o. if is_some o then up_to_bracket (91 ∷ h ++ 93 ∷ r) o else 91 ∷ h ++ 93 ∷ r) at
    ∙ take-append h (93 ∷ r)

-- The ways in which a server name has a host: alone, with a port, in brackets, and in brackets with a port.
pub data HasHost (host : Text) : Text → Type 0 where
  bare : lacks 58 host ≡ true → lacks 91 host ≡ true → HasHost host host
  ported :
      (port : Text)
      → lacks 58 port ≡ true
      → lacks 91 host ≡ true
      → lacks 91 port ≡ true
      → HasHost host (host ++ 58 ∷ port)
  bracketed : (rest : Text) → lacks 93 host ≡ true → HasHost host (91 ∷ host ++ 93 ∷ rest)

bracket_there : (h r : Text) → contains (91 ∷ h ++ 93 ∷ r) (91 ∷ []) ≡ true
unfolding index_of
bracket_there h r =
    ap (λ b. is_some (if b then some 0 else next_index (index_of (h ++ 93 ∷ r) (91 ∷ []))))
      (has_prefix-one 91 91 (h ++ 93 ∷ r))

without_port-bracketed :
    (h r : Text) (o : Option ℕ) → without_port (91 ∷ h ++ 93 ∷ r) o ≡ 91 ∷ h ++ 93 ∷ r
without_port-bracketed h r none = refl
without_port-bracketed h r (some colon) =
    ap (λ b. if b then 91 ∷ h ++ 93 ∷ r else take colon (91 ∷ h ++ 93 ∷ r)) (bracket_there h r)

-- checkPrivateIP looks at the host of every such name.
pub private_host-HasHost : (host name : Text) → HasHost host name → private_host name ≡ host
private_host-HasHost host _ (bare l b) =
    ap (λ o. without_brackets (without_port host o)) (last_index-lacks 58 host l)
    ∙ no_brackets host b
private_host-HasHost host _ (ported port l b q) =
    let name = host ++ 58 ∷ port in
    let none_there : contains name (91 ∷ []) ≡ false =
      ap is_some
        (index_of-lacks 91 name (lacks-append 91 host (58 ∷ port) b (ground (arith, q)))) in
    ap (λ o. without_brackets (without_port name o)) (last_index-at 58 host port l)
    ∙ ap (λ b. without_brackets (if b then name else take (length host) name)) none_there
    ∙ ap without_brackets (take-append host (58 ∷ port))
    ∙ no_brackets host b
private_host-HasHost host _ (bracketed rest l) =
    ap without_brackets (without_port-bracketed host rest (last_index (91 ∷ host ++ 93 ∷ rest) 58))
    ∙ in_brackets host rest l
