-- ===== src/Notary/Queries/Outcomes.antt =====
-- internal/keys/notary_query.go: what QueryKeys has for one server of a request.
use mathlib.Core.List.{Memᴰ}
use mathlib.Core.List.Memᴰ
use mxkeys_org.Prelude.{
  ℕ, ◌≡◌, ◌∙◌, refl, sym, ap, subst, ◌⊎◌, inl, inr, Bool, true, false, Option, none, some, String,
  str_eq, eq_iff, List, [], ◌∷◌, ◌++◌, All, if◌then◌else◌, Dict, find, find-assign, assign,
  Bool-cases, arith,
}
use mxkeys_org.Fetching.{ServerKeys, FetchError, Fetched, fetched, refused, nothing}
use mxkeys_org.Notary.{Cache, get_server_keys_with_criteria}
use mxkeys_org.Notary.Queries.{
  Failure, forbidden, signing_failed, no_keys, not_obtained, Services, Answer, minimum_of, names,
  fail, deliver, answer_server, answer_all, apply_trust_policy,
}
use mxkeys_org.Notary.Queries.Names.{IsDistinct, split_off}

Memᴰ-append : {A : Type 0} {x : A} (xs ys : List A) → Memᴰ x xs → Memᴰ x (xs ++ ys)
Memᴰ-append [] ys m = absurd (Memᴰ.not-nil m)
Memᴰ-append (z ∷ xs) ys m = elim (Memᴰ.cases_cons m) [
  | inl q ↦ Memᴰ.head q
  | inr later ↦ Memᴰ.tail (Memᴰ-append xs ys later)
]

Memᴰ-last : {A : Type 0} (xs : List A) (x : A) → Memᴰ x (xs ++ x ∷ [])
Memᴰ-last [] x = Memᴰ.head refl
Memᴰ-last (z ∷ xs) x = Memᴰ.tail (Memᴰ-last xs x)

module _ (s : Services) where
  -- What becomes of keys that were obtained for a server: they are signed and delivered, or there is the failure that says
  -- why not.
  abbrev pub IsDelivered : String → Answer → ServerKeys → Type 0
  IsDelivered name a keys =
      ((s.sign keys ≡ none) × (find name a.failures ≡ some signing_failed))
      ⊎ ((signed : ServerKeys) × (s.sign keys ≡ some signed)
          × (((s.response_violates name (s.attach signed) ≡ true)
                × (find name a.failures ≡ some forbidden))
              ⊎ ((s.response_violates name (s.attach signed) ≡ false)
                  × Memᴰ (s.attach signed) a.server_keys)))

  -- What an answer has for a server after a lookup.
  abbrev pub IsOutcome : String → Answer → Fetched → Type 0
  IsOutcome name a result =
      ((keys : ServerKeys) × (result ≡ fetched keys) × IsDelivered name a keys)
      ⊎ (((e : FetchError) × (result ≡ refused e) × (find name a.failures ≡ some (not_obtained e)))
          ⊎ ((result ≡ nothing) × (find name a.failures ≡ some no_keys)))

  -- The lookup of a server's own keys, with the cache that it meets.
  abbrev pub lookup : Dict (List ℕ) → String → Cache → Fetched
  lookup request name cache =
      (get_server_keys_with_criteria s.hours name (minimum_of (find name request)) (s.meets name)
        (s.again name) (s.again_at name) cache).1

  put_there :
      (name : String) (v : Failure) (m : Dict Failure) → find name (assign name v m) ≡ some v
  put_there name v m =
      find-assign name name v m
      ∙ ap (λ b. if b then some v else find name m) ((eq_iff name name).1 refl)

  put_other :
      (name n : String) (v : Failure) (m : Dict Failure)
      → str_eq n name ≡ false
      → find name (assign n v m) ≡ find name m
  put_other name n v m other =
      find-assign n name v m ∙ ap (λ b. if b then some v else find name m) other

  deliver-IsDelivered :
      (name : String) (cache : Cache) (a : Answer) (keys : ServerKeys) (o : Option ServerKeys)
      → s.sign keys ≡ o
      → IsDelivered name (deliver s name cache a o) keys
  deliver-IsDelivered name cache a keys none e = inl (e, put_there name signing_failed a.failures)
  deliver-IsDelivered name cache a keys (some signed) e =
      inr (signed, e, by_policy (s.response_violates name (s.attach signed)) refl)
    where
      by_policy :
          (b : Bool)
          → s.response_violates name (s.attach signed) ≡ b
          → let after = if b then fail name forbidden cache a else record a {
            cache = cache;
            server_keys = a.server_keys ++ s.attach signed ∷ [];
          } in
            ((s.response_violates name (s.attach signed) ≡ true)
              × (find name after.failures ≡ some forbidden))
            ⊎ ((s.response_violates name (s.attach signed) ≡ false)
                × Memᴰ (s.attach signed) after.server_keys)
      by_policy true q = inl (q, put_there name forbidden a.failures)
      by_policy false q = inr (q, Memᴰ-last a.server_keys (s.attach signed))

  answer-IsOutcome :
      (name : String) (a : Answer) (cache : Cache) (result : Fetched)
      → IsOutcome name (answer_server s name a (cache, result)) result
  answer-IsOutcome name a cache (fetched keys) =
      inl (keys, refl, deliver-IsDelivered name cache a keys (s.sign keys) refl)
  answer-IsOutcome name a cache (refused e) =
      inr (inl (e, refl, put_there name (not_obtained e) a.failures))
  answer-IsOutcome name a cache nothing = inr (inr (refl, put_there name no_keys a.failures))

  -- A later answer has what an earlier one has for a server.
  abbrev Keeps : String → Answer → Answer → Type 0
  Keeps name a b =
      (find name b.failures ≡ find name a.failures)
      × ((k : ServerKeys) → Memᴰ k a.server_keys → Memᴰ k b.server_keys)

  IsOutcome-Keeps :
      (name : String) (a b : Answer) (result : Fetched)
      → Keeps name a b
      → IsOutcome name a result
      → IsOutcome name b result
  IsOutcome-Keeps name a b result (same, stay) (inl (keys, got, inl (unsigned, failed))) =
      inl (keys, got, inl (unsigned, same ∙ failed))
  IsOutcome-Keeps name a b result (same, stay)
        (inl (keys, got, inr (signed, e, inl (bad, failed)))) =
      inl (keys, got, inr (signed, e, inl (bad, same ∙ failed)))
  IsOutcome-Keeps name a b result (same, stay)
        (inl (keys, got, inr (signed, e, inr (fine, there)))) =
      inl (keys, got, inr (signed, e, inr (fine, stay (s.attach signed) there)))
  IsOutcome-Keeps name a b result (same, stay) (inr (inl (e, got, failed))) =
      inr (inl (e, got, same ∙ failed))
  IsOutcome-Keeps name a b result (same, stay) (inr (inr (got, failed))) =
      inr (inr (got, same ∙ failed))

  deliver-Keeps :
      (name n : String) (cache : Cache) (a : Answer) (o : Option ServerKeys)
      → str_eq n name ≡ false
      → Keeps name a (deliver s n cache a o)
  deliver-Keeps name n cache a none other =
      (put_other name n signing_failed a.failures other, λ k m. m)
  deliver-Keeps name n cache a (some signed) other =
      by_policy (s.response_violates n (s.attach signed))
    where
      by_policy :
          (b : Bool)
          → Keeps name a (
              if b
              then fail n forbidden cache a
              else record a { cache = cache; server_keys = a.server_keys ++ s.attach signed ∷ [] })
      by_policy true = (put_other name n forbidden a.failures other, λ k m. m)
      by_policy false = (refl, λ k m. Memᴰ-append a.server_keys (s.attach signed ∷ []) m)

  answer-Keeps :
      (name n : String) (a : Answer) (looked_up : Cache × Fetched)
      → str_eq n name ≡ false
      → Keeps name a (answer_server s n a looked_up)
  answer-Keeps name n a (cache, fetched keys) other =
      deliver-Keeps name n cache a (s.sign keys) other
  answer-Keeps name n a (cache, refused e) other =
      (put_other name n (not_obtained e) a.failures other, λ k m. m)
  answer-Keeps name n a (cache, nothing) other =
      (put_other name n no_keys a.failures other, λ k m. m)

  answer_all-Keeps :
      (request : Dict (List ℕ)) (name : String) (ns : List String) (a : Answer)
      → All (λ n. str_eq n name ≡ false) ns
      → Keeps name a (answer_all s request ns a)
  unfolding answer_all
  answer_all-Keeps request name [] a others = (refl, λ k m. m)
  answer_all-Keeps request name (n ∷ ns) a (other, others) =
      let looked_up =
        get_server_keys_with_criteria s.hours n (minimum_of (find n request)) (s.meets n)
          (s.again n) (s.again_at n) a.cache in
      let (same, stay) = answer-Keeps name n a looked_up other in
      let (same', stay') =
        answer_all-Keeps request name ns (answer_server s n a looked_up) others in
      (same' ∙ same, λ k m. stay' k (stay k m))

  apart :
      (n m : String) (ns : List String)
      → All (λ k. str_eq n k ≡ false) ns
      → Memᴰ m ns
      → str_eq n m ≡ false
  apart n m [] all there = absurd (Memᴰ.not-nil there)
  apart n m (k ∷ ns) (here, all) there = elim (Memᴰ.cases_cons there) [
    | inl q ↦ ap (str_eq n) q ∙ here
    | inr later ↦ apart n m ns all later
  ]

  flip-All :
      (n : String) (ns : List String)
      → All (λ k. str_eq n k ≡ false) ns
      → All (λ k. str_eq k n ≡ false) ns
  flip-All n [] all = tt
  flip-All n (k ∷ ns) (here, all) = (grind (arith, here, eq_iff n k, eq_iff k n), flip-All n ns all)

  answer_all-IsOutcome :
      (request : Dict (List ℕ)) (name : String) (ns : List String) (a : Answer)
      → IsDistinct ns
      → Memᴰ name ns
      → (cache : Cache) × IsOutcome name (answer_all s request ns a) (lookup request name cache)
  unfolding answer_all
  answer_all-IsOutcome request name [] a distinct there = absurd (Memᴰ.not-nil there)
  answer_all-IsOutcome request name (n ∷ ns) a (others, distinct) there =
      let looked_up =
        get_server_keys_with_criteria s.hours n (minimum_of (find n request)) (s.meets n)
          (s.again n) (s.again_at n) a.cache in
      let next = answer_server s n a looked_up in
      elim (Memᴰ.cases_cons there) [
        | inl q ↦
            subst
              (λ m.
                (cache : Cache) × IsOutcome m (answer_all s request ns next)
                  (lookup request m cache))
              (sym q)
              (
                a.cache,
                IsOutcome-Keeps n next (answer_all s request ns next) looked_up.1
                    (answer_all-Keeps request n ns next (flip-All n ns others))
                    (answer-IsOutcome n a looked_up.0 looked_up.1),
              )
        | inr later ↦ answer_all-IsOutcome request name ns next distinct later
      ]

  -- What a whole answer has for a server of the request: a denied one has that failure, and any other has what the
  -- lookup of its own keys, with the largest minimum that was asked for it, led to.
  abbrev pub IsAnswered : Dict (List ℕ) → String → Answer → Type 0
  IsAnswered request name a =
      ((s.server_violates name ≡ true) × (find name a.failures ≡ some forbidden))
      ⊎ ((s.server_violates name ≡ false)
          × (cache : Cache) × IsOutcome name a (lookup request name cache))

  denied_there :
      (request : Dict (List ℕ)) (name : String)
      → s.server_violates name ≡ true
      → Memᴰ name (names request)
      → find name (apply_trust_policy s request).0 ≡ some forbidden
  unfolding apply_trust_policy names
  denied_there [] name bad there = absurd (Memᴰ.not-nil there)
  denied_there ((n, criteria) ∷ request) name bad there =
      let rest = apply_trust_policy s request in
      elim (Memᴰ.cases_cons there) [
        | inl q ↦
            ap (λ b. find name (split_off n criteria rest b).0) (sym (ap s.server_violates q) ∙ bad)
            ∙ subst (λ m. find name (assign m forbidden rest.0) ≡ some forbidden) q
                (put_there name forbidden rest.0)
        | inr later ↦ kept (s.server_violates n) (denied_there request name bad later)
      ]
    where
      kept :
          (b : Bool)
          → find name (apply_trust_policy s request).0 ≡ some forbidden
          → find name (split_off n criteria (apply_trust_policy s request) b).0 ≡ some forbidden
      kept false e = e
      kept true e =
          find-assign n name forbidden (apply_trust_policy s request).0
          ∙ both_ways (str_eq n name) (find name (apply_trust_policy s request).0) e
        where
          both_ways :
              (b : Bool) (o : Option Failure)
              → o ≡ some forbidden
              → (if b then some forbidden else o) ≡ some forbidden
          both_ways true o e = refl
          both_ways false o e = e

  asked_there :
      (request : Dict (List ℕ)) (name : String)
      → s.server_violates name ≡ false
      → find name (apply_trust_policy s request).1 ≡ find name request
  unfolding apply_trust_policy find
  asked_there [] name fine = refl
  asked_there ((n, criteria) ∷ request) name fine =
      grind (arith, asked_there request name fine, fine, eq_iff n name)

  pub left_there :
      (request : Dict (List ℕ)) (name : String)
      → s.server_violates name ≡ false
      → Memᴰ name (names request)
      → Memᴰ name (names (apply_trust_policy s request).1)
  unfolding apply_trust_policy names
  left_there [] name fine there = absurd (Memᴰ.not-nil there)
  left_there ((n, criteria) ∷ request) name fine there =
      let rest = apply_trust_policy s request in
      elim (Memᴰ.cases_cons there) [
        | inl q ↦
            subst (λ b. Memᴰ name (names (split_off n criteria rest b).1))
              (sym (sym (ap s.server_violates q) ∙ fine)) (Memᴰ.head q)
        | inr later ↦ kept (s.server_violates n) (left_there request name fine later)
      ]
    where
      kept :
          (b : Bool)
          → Memᴰ name (names (apply_trust_policy s request).1)
          → Memᴰ name (names (split_off n criteria (apply_trust_policy s request) b).1)
      kept true m = m
      kept false m = Memᴰ.tail m

  pub left_allowed :
      (request : Dict (List ℕ))
      → All (λ m. s.server_violates m ≡ false) (names (apply_trust_policy s request).1)
  unfolding apply_trust_policy names
  left_allowed [] = tt
  left_allowed ((n, criteria) ∷ request) = by_test (s.server_violates n) refl (left_allowed request)
    where
      by_test :
          (b : Bool)
          → s.server_violates n ≡ b
          → All (λ m. s.server_violates m ≡ false) (names (apply_trust_policy s request).1)
          → All
              (λ m. s.server_violates m ≡ false)
              (names (split_off n criteria (apply_trust_policy s request) b).1)
      by_test true e rest = rest
      by_test false e rest = (e, rest)

  not_denied :
      (name : String) (ns : List String)
      → s.server_violates name ≡ true
      → All (λ m. s.server_violates m ≡ false) ns
      → All (λ m. str_eq m name ≡ false) ns
  not_denied name [] bad all = tt
  not_denied name (m ∷ ns) bad (fine, all) = (
    elim (Bool-cases (str_eq m name)) [
      | inl same ↦
          absurd (ground (arith, sym (ap s.server_violates ((eq_iff m name).0 same)) ∙ fine, bad))
      | inr other ↦ other
    ],
    not_denied name ns bad all,
  )

  -- The loop over the sorted names answers each server of the request.
  pub query-IsAnswered :
      (request : Dict (List ℕ)) (cache : Cache) (name : String) (ns : List String)
      → IsDistinct ns
      → All (λ m. s.server_violates m ≡ false) ns
      → (s.server_violates name ≡ false → Memᴰ name ns)
      → Memᴰ name (names request)
      → IsAnswered request name (
          answer_all s (apply_trust_policy s request).1 ns (record {
            cache = cache;
            server_keys = [];
            failures = (apply_trust_policy s request).0;
          }))
  query-IsAnswered request cache name ns distinct allowed there asked =
      let checked = apply_trust_policy s request in
      let start : Answer = record { cache = cache; server_keys = []; failures = checked.0 } in
      elim (Bool-cases (s.server_violates name)) [
        | inl bad ↦
            let (same, _) =
              answer_all-Keeps checked.1 name ns start (not_denied name ns bad allowed) in
            inl (bad, same ∙ denied_there request name bad asked)
        | inr fine ↦
            let (met, outcome) =
              answer_all-IsOutcome checked.1 name ns start distinct (there fine) in
            inr (
              fine,
              met,
              subst
                  (λ o.
                    IsOutcome name (answer_all s checked.1 ns start)
                      (get_server_keys_with_criteria s.hours name (minimum_of o) (s.meets name)
                        (s.again name) (s.again_at name) met).1)
                  (asked_there request name fine) outcome,
            )
      ]
