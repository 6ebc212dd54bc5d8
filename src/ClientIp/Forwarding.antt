-- ===== src/ClientIp/Forwarding.antt =====
-- internal/server/client_ip.go: which part of the forwarded headers decides.
use mxkeys_org.Prelude.{
  ℕ, ◌≡◌, ◌≢◌, ◌∙◌, refl, sym, ap, true, false, Option, none, some, List, [], ◌∷◌, ◌++◌,
  if◌then◌else◌, arith, Text, is_empty, split, cons_head, All,
}
use mxkeys_org.Addresses.{Ip}
use mxkeys_org.ClientIp.{
  ProxyNetwork, NetText, ClientIpPolicy, Request, is_trusted_proxy, or_else, add_ip, last_untrusted,
  chain_of, forwarded_ip_chain, chosen, real_client_ip, forwarded_client_ip,
  should_trust_forwarded_headers, direct_peer_ip, peer_host, client_ip_from_request, direct_text,
  forwarded_text,
}

cons_head-append :
    (c : ℕ) (ps qs : List Text) → ps ≢ [] → cons_head c (ps ++ qs) ≡ cons_head c ps ++ qs
cons_head-append c [] qs some_part = absurd (some_part refl)
cons_head-append c (p ∷ ps) qs some_part = refl

split-nonempty : (sep : ℕ) (s : Text) → split sep s ≢ []
unfolding split
split-nonempty sep [] e = ground (arith, e)
split-nonempty sep (c ∷ s) e =
    let cons_head-nonempty = cons_head-cons c (split sep s) in ground (arith, e, cons_head-nonempty)
  where
    cons_head-cons : (c : ℕ) (ps : List Text) → cons_head c ps ≢ []
    cons_head-cons c [] = λ e. ground (arith, e)
    cons_head-cons c (p ∷ ps) = λ e. ground (arith, e)

-- A separator between two texts parts them.
split-append : (sep : ℕ) (s t : Text) → split sep (s ++ sep ∷ t) ≡ split sep s ++ split sep t
unfolding split
split-append sep [] t = ground arith
split-append sep (c ∷ s) t =
    let later = split-append sep s t in
    let front = cons_head-append c (split sep s) (split sep t) (split-nonempty sep s) in
    grind (arith, later, front)

append-there : (s t : Text) → is_empty (s ++ 44 ∷ t) ≡ false
append-there [] t = refl
append-there (c ∷ s) t = refl

module _ (networks : List ProxyNetwork) where
  -- The loop over proxies alone finds nothing.
  last_untrusted-proxies :
      (chain : List Ip)
      → All (λ ip. is_trusted_proxy networks ip ≡ true) chain
      → last_untrusted networks chain ≡ none
  unfolding last_untrusted
  last_untrusted-proxies [] trusted = refl
  last_untrusted-proxies (ip ∷ chain) (here, trusted) =
      grind (arith, here, last_untrusted-proxies chain trusted)

  -- The loop finds an untrusted address with proxies alone after it.
  last_untrusted-client :
      (front : List Ip) (client : Ip) (proxies : List Ip)
      → is_trusted_proxy networks client ≡ false
      → All (λ ip. is_trusted_proxy networks ip ≡ true) proxies
      → last_untrusted networks (front ++ client ∷ proxies) ≡ some client
  unfolding last_untrusted
  last_untrusted-client [] client proxies out trusted =
      grind (arith, out, last_untrusted-proxies proxies trusted)
  last_untrusted-client (ip ∷ front) client proxies out trusted =
      ap (λ o. or_else o (if is_trusted_proxy networks ip then none else some ip))
        (last_untrusted-client front client proxies out trusted)

module _ (world : NetText) where
  add_ip-append : (o : Option Ip) (xs ys : List Ip) → add_ip o (xs ++ ys) ≡ add_ip o xs ++ ys
  add_ip-append none xs ys = refl
  add_ip-append (some ip) xs ys = refl

  chain_of-append :
      (xs ys : List Text) → chain_of world (xs ++ ys) ≡ chain_of world xs ++ chain_of world ys
  unfolding chain_of
  chain_of-append [] ys = refl
  chain_of-append (x ∷ xs) ys =
      ap (add_ip (world.net.parse_ip (world.net.trim_space x))) (chain_of-append xs ys)
      ∙ add_ip-append (world.net.parse_ip (world.net.trim_space x)) (chain_of world xs)
          (chain_of world ys)

  -- The chain of a header to which a proxy appended a comma and its own entries.
  forwarded_ip_chain-append :
      (s t : Text)
      → forwarded_ip_chain world (s ++ 44 ∷ t)
        ≡ forwarded_ip_chain world s ++ forwarded_ip_chain world t
  unfolding forwarded_ip_chain
  forwarded_ip_chain-append s t =
      ap (chain_of world) (split-append 44 s t) ∙ chain_of-append (split 44 s) (split 44 t)

  -- A chain with an untrusted address decides.
  forwarded_client_ip-last :
      (networks : List ProxyNetwork) (r : Request) (client : Ip)
      → is_empty r.forwarded_for ≡ false
      → last_untrusted networks (forwarded_ip_chain world r.forwarded_for) ≡ some client
      → forwarded_client_ip world networks r ≡ some client
  unfolding forwarded_client_ip
  forwarded_client_ip-last networks r client there last =
      let real = real_client_ip world (world.net.trim_space r.real_ip) in
      let chain = forwarded_ip_chain world r.forwarded_for in
      ap (λ b. if b then real else chosen world chain (last_untrusted networks chain) real) there
      ∙ ap (λ o. chosen world chain o real) last

  client_ip-trusted :
      (policy : ClientIpPolicy) (r : Request) (client : Ip)
      → should_trust_forwarded_headers policy (direct_peer_ip world r) ≡ true
      → forwarded_client_ip world policy.networks r ≡ some client
      → client_ip_from_request world policy r ≡ world.to_text client
  unfolding client_ip_from_request
  client_ip-trusted policy r client peer forwarded =
      let direct = direct_peer_ip world r in
      let own = forwarded_client_ip world policy.networks r in
      ap (λ b. if b then forwarded_text world r direct own else direct_text world r direct) peer
      ∙ ap (forwarded_text world r direct) forwarded

  client_ip-direct :
      (policy : ClientIpPolicy) (r : Request)
      → should_trust_forwarded_headers policy (direct_peer_ip world r) ≡ false
      → client_ip_from_request world policy r ≡ direct_text world r (direct_peer_ip world r)
  unfolding client_ip_from_request
  client_ip-direct policy r peer =
      let direct = direct_peer_ip world r in
      let own = forwarded_client_ip world policy.networks r in
      ap (λ b. if b then forwarded_text world r direct own else direct_text world r direct) peer

  -- The direct peer is read from the remote address alone.
  direct_text-remote :
      (r r' : Request) (o : Option Ip)
      → r.remote_addr ≡ r'.remote_addr
      → direct_text world r o ≡ direct_text world r' o
  direct_text-remote r r' none same = same
  direct_text-remote r r' (some ip) same = refl

  direct_peer_ip-remote :
      (r r' : Request)
      → r.remote_addr ≡ r'.remote_addr
      → direct_peer_ip world r ≡ direct_peer_ip world r'
  unfolding direct_peer_ip
  direct_peer_ip-remote r r' same =
      ap (λ a. world.net.parse_ip (world.net.trim_space (peer_host world a (world.split_host a))))
        same

  -- When the direct peer is trusted and the end of X-Forwarded-For after some comma is a client
  -- that is not a trusted proxy, then trusted proxies alone, the client address is that client,
  -- whatever stands before that comma and in X-Real-IP.
  pub forwarded_client :
      (policy : ClientIpPolicy) (r : Request) (spoofed written : Text) (client : Ip)
      (proxies : List Ip)
      → should_trust_forwarded_headers policy (direct_peer_ip world r) ≡ true
      → r.forwarded_for ≡ spoofed ++ 44 ∷ written
      → forwarded_ip_chain world written ≡ client ∷ proxies
      → is_trusted_proxy policy.networks client ≡ false
      → All (λ ip. is_trusted_proxy policy.networks ip ≡ true) proxies
      → client_ip_from_request world policy r ≡ world.to_text client
  forwarded_client policy r spoofed written client proxies peer header chain out trusted =
      let whole =
        ap (forwarded_ip_chain world) header
        ∙ forwarded_ip_chain-append spoofed written
        ∙ ap (λ c. forwarded_ip_chain world spoofed ++ c) chain in
      let last =
        ap (last_untrusted policy.networks) whole
        ∙ last_untrusted-client policy.networks (forwarded_ip_chain world spoofed) client proxies
            out trusted in
      client_ip-trusted policy r client peer (
        forwarded_client_ip-last policy.networks r client
          (ap is_empty header ∙ append-there spoofed written) last)

  -- Two requests from one remote address whose peer is not trusted, or with forwarding off, have one
  -- client address, whatever their headers are.
  pub untrusted_peer_ignored :
      (policy : ClientIpPolicy) (r r' : Request)
      → r.remote_addr ≡ r'.remote_addr
      → should_trust_forwarded_headers policy (direct_peer_ip world r) ≡ false
      → client_ip_from_request world policy r ≡ client_ip_from_request world policy r'
  untrusted_peer_ignored policy r r' same peer =
      let one_peer = direct_peer_ip-remote r r' same in
      let peer' = sym (ap (should_trust_forwarded_headers policy) one_peer) ∙ peer in
      client_ip-direct policy r peer
      ∙ direct_text-remote r r' (direct_peer_ip world r) same
      ∙ ap (direct_text world r') one_peer
      ∙ sym (client_ip-direct policy r' peer')
