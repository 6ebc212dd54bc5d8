-- ===== src/RateLimit/Buckets.antt =====
-- internal/server/ratelimit.go and server_http.go: the answers of the middlewares are those of the client's own
-- buckets, which they spend from.
use mxkeys_org.Prelude.{
  ℕ, ◌≤◌, ◌≡◌, ◌∙◌, refl, sym, ap, Bool, true, false, ◌&&◌, Option, none, some, Bool-cases, inl,
  inr, String, str_eq, eq_iff, List, [], ◌∷◌, map, ◌==◌, if◌then◌else◌, get_elem?, arith,
}
use mxkeys_org.RateLimit.{
  RatePackage, RateLimiter, Visitor, write_at, new_visitor, get_visitor, middleware,
  query_middleware, query_request,
}
use mxkeys_org.RateLimit.Lru.{find_visitor, lru_found, lru_visit}
use mxkeys_org.RateLimit.Upkeep.{view, IsSound}
use mxkeys_org.RateLimit.Visits.{IsSound-write}
use mxkeys_org.RateLimit.Clients.{get_visitor-lru}

module _ {L : Type 0} where
  -- A bucket of the visitor that is remembered, else the new one.
  abbrev pub bucket_or : L → (Visitor L → L) → Option (Visitor L) → L
  bucket_or new bucket none = new
  bucket_or new bucket (some v) = bucket v

  abbrev first_or : Visitor L → List (Visitor L) → Visitor L
  first_or d [] = d
  first_or d (v ∷ vs) = v

  first_or-map :
      (d : Visitor L) (heap : ℕ → Visitor L) (order : List ℕ) (i : ℕ)
      → get_elem? order 0 ≡ some i
      → first_or d (map heap order) ≡ heap i
  first_or-map d heap [] i h = absurd (ground (arith, h))
  first_or-map d heap (j ∷ order) i h = ap heap (ground (arith, h))

  find_visitor-ip :
      (ip : String) (vs : List (Visitor L)) (v : Visitor L)
      → find_visitor ip vs ≡ some v
      → v.ip ≡ ip
  unfolding find_visitor
  find_visitor-ip ip [] v h = absurd (ground (arith, h))
  find_visitor-ip ip (w ∷ vs) v h = elim (Bool-cases (str_eq w.ip ip)) [
    | inl own ↦
        let same : w ≡ v =
          ap (first_of w) (sym (ap (λ b. if b then some w else find_visitor ip vs) own) ∙ h) in
        sym (ap (λ (x : Visitor L). x.ip) same) ∙ (eq_iff w.ip ip).0 own
    | inr other ↦
        find_visitor-ip ip vs v (sym (ap (λ b. if b then some w else find_visitor ip vs) other) ∙ h)
  ]
    where
      first_of : Visitor L → Option (Visitor L) → Visitor L
      first_of d none = d
      first_of d (some x) = x

  -- The visitor that is written at the front is the one that its client has.
  find_visitor-written :
      (ip : String) (heap : ℕ → Visitor L) (order : List ℕ) (i : ℕ) (v : Visitor L)
      → get_elem? order 0 ≡ some i
      → v.ip ≡ ip
      → find_visitor ip (map (write_at i v heap) order) ≡ some v
  unfolding find_visitor
  find_visitor-written ip heap [] i v h name = absurd (ground (arith, h))
  find_visitor-written ip heap (j ∷ order) i v h name =
      let front : (j == i) ≡ true = ground (arith, h) in
      let rest = find_visitor ip (map (write_at i v heap) order) in
      ap
        (λ b.
          if str_eq (if b then v else heap j).ip ip then some (if b then v else heap j) else rest)
        front
      ∙ ap (λ b. if b then some v else rest) ((eq_iff v.ip ip).1 name)

module _ {Limit L : Type 0} (rate : RatePackage Limit L) (ip : String) where
  -- The general bucket of a client: the remembered one, else one of the configured general rate and burst.
  abbrev pub general_bucket : RateLimiter Limit L → L
  general_bucket rl =
      bucket_or (rate.new_limiter rl.global_rate rl.global_burst) (λ v. v.limiter)
        (find_visitor ip (view rl))

  -- The query bucket of a client: the remembered one, else one of the configured query rate and burst.
  abbrev pub query_bucket : RateLimiter Limit L → L
  query_bucket rl =
      bucket_or (rate.new_limiter rl.query_rate rl.query_burst) (λ v. v.query_limiter)
        (find_visitor ip (view rl))

  module _ (now : ℕ) (rl : RateLimiter Limit L) where
    abbrev visited_first : Option (Visitor L) → Visitor L
    visited_first o =
        first_or (new_visitor rate ip now rl)
          (lru_found o (new_visitor rate ip now rl) rl.max_visitors (view rl))

    visited_first-own :
        (o : Option (Visitor L))
        → find_visitor ip (view rl) ≡ o
        → ((visited_first o).ip ≡ ip)
          × ((visited_first o).limiter
              ≡ bucket_or (rate.new_limiter rl.global_rate rl.global_burst) (λ v. v.limiter) o)
          × ((visited_first o).query_limiter
              ≡ bucket_or (rate.new_limiter rl.query_rate rl.query_burst) (λ v. v.query_limiter) o)
    unfolding lru_found
    visited_first-own none found = (refl, refl, refl)
    visited_first-own (some v) found = (find_visitor-ip ip (view rl) v found, refl, refl)

    -- The visitor that getVisitor returns has the client's address and its two buckets.
    visitor-own :
        (t : ℕ)
        → t ≤ now
        → IsSound rl t
        → let after = get_visitor rate ip now rl in
          ((after.0.heap after.1).ip ≡ ip)
          × ((after.0.heap after.1).limiter ≡ general_bucket rl)
          × ((after.0.heap after.1).query_limiter ≡ query_bucket rl)
          × (get_elem? after.0.order 0 ≡ some after.1)
          × IsSound after.0 now
    unfolding lru_visit
    visitor-own t later s =
        let (lru, front, sound) = get_visitor-lru rate ip t now rl later s in
        let after = get_visitor rate ip now rl in
        let fresh = new_visitor rate ip now rl in
        let found : after.0.heap after.1 ≡ visited_first (find_visitor ip (view rl)) =
          sym (first_or-map fresh after.0.heap after.0.order after.1 front)
          ∙ ap (first_or fresh) lru in
        let (name, general, query) = visited_first-own (find_visitor ip (view rl)) refl in
        (
          ap (λ (v : Visitor L). v.ip) found ∙ name,
          ap (λ (v : Visitor L). v.limiter) found ∙ general,
          ap (λ (v : Visitor L). v.query_limiter) found ∙ query,
          front,
          sound,
        )

    -- The general bucket answers and is spent from, and the query bucket stays.
    abbrev pub IsGeneral : RateLimiter Limit L × Bool → Type 0
    IsGeneral after =
        (after.1 ≡ (rate.take_token now (general_bucket rl)).0)
        × (general_bucket after.0 ≡ (rate.take_token now (general_bucket rl)).1)
        × (query_bucket after.0 ≡ query_bucket rl)
        × IsSound after.0 now

    -- The query bucket answers and is spent from, and the general bucket stays.
    abbrev pub IsQuery : RateLimiter Limit L × Bool → Type 0
    IsQuery after =
        (after.1 ≡ (rate.take_token now (query_bucket rl)).0)
        × (query_bucket after.0 ≡ (rate.take_token now (query_bucket rl)).1)
        × (general_bucket after.0 ≡ general_bucket rl)
        × IsSound after.0 now

    middleware-IsGeneral : (t : ℕ) → t ≤ now → IsSound rl t → IsGeneral (middleware rate ip now rl)
    unfolding middleware
    middleware-IsGeneral t later s =
        let (name, general, query, front, sound) = visitor-own t later s in
        let after = get_visitor rate ip now rl in
        let v = after.0.heap after.1 in
        let spent : Visitor L = record v { limiter = (rate.take_token now v.limiter).1 } in
        let held = find_visitor-written ip after.0.heap after.0.order after.1 spent front name in
        (
          ap (λ l. (rate.take_token now l).0) general,
          ap
                (bucket_or (rate.new_limiter after.0.global_rate after.0.global_burst)
                  (λ v. v.limiter))
                held
              ∙ ap (λ l. (rate.take_token now l).1) general,
          ap
                (bucket_or (rate.new_limiter after.0.query_rate after.0.query_burst)
                  (λ v. v.query_limiter))
                held
              ∙ query,
          IsSound-write after.1 now spent after.0 refl refl sound,
        )

    query_middleware-IsQuery :
        (t : ℕ) → t ≤ now → IsSound rl t → IsQuery (query_middleware rate ip now rl)
    unfolding query_middleware
    query_middleware-IsQuery t later s =
        let (name, general, query, front, sound) = visitor-own t later s in
        let after = get_visitor rate ip now rl in
        let v = after.0.heap after.1 in
        let spent : Visitor L = record v {
          query_limiter = (rate.take_token now v.query_limiter).1;
        } in
        let held = find_visitor-written ip after.0.heap after.0.order after.1 spent front name in
        (
          ap (λ l. (rate.take_token now l).0) query,
          ap
                (bucket_or (rate.new_limiter after.0.query_rate after.0.query_burst)
                  (λ v. v.query_limiter))
                held
              ∙ ap (λ l. (rate.take_token now l).1) query,
          ap
                (bucket_or (rate.new_limiter after.0.global_rate after.0.global_burst)
                  (λ v. v.limiter))
                held
              ∙ general,
          IsSound-write after.1 now spent after.0 refl refl sound,
        )

module _ {Limit L : Type 0} (rate : RatePackage Limit L) (ip : String) (now later : ℕ)
    (rl : RateLimiter Limit L) where
  abbrev pub IsLimited : Type 0
  IsLimited =
      IsGeneral rate ip now rl (middleware rate ip now rl)
      × IsQuery rate ip now rl (query_middleware rate ip now rl)
      × ((query_request rate ip now later rl).1 ≡ (
          (rate.take_token now (general_bucket rate ip rl)).0
          && (rate.take_token later (query_bucket rate ip rl)).0))

  -- The general middleware lets a request pass exactly if the general bucket of its own client gives a token, and
  -- the query middleware exactly if the query bucket of its own client does; the bucket that was asked is stored as
  -- the answer left it and the client's other one stays. A request to a route with the query limit passes exactly if both
  -- buckets give a token. The client's buckets are those that are remembered for its address, else new ones of the
  -- rate and the burst that are configured for each. The state before is a sound one of a time that is not
  -- later, and the clock does not go back between the two readings.
  pub middleware-allow : (t : ℕ) → t ≤ now → now ≤ later → IsSound rl t → IsLimited
  unfolding query_request
  middleware-allow t before after s =
      let general = middleware-IsGeneral rate ip now rl t before s in
      let first = middleware rate ip now rl in
      let (second, _, _, _) = query_middleware-IsQuery rate ip later first.0 now after general.3 in
      (
        general,
        query_middleware-IsQuery rate ip now rl t before s,
        both first.1 (query_middleware rate ip later first.0)
            ∙ ap (λ b. b && (query_middleware rate ip later first.0).1) general.0
            ∙ ap (λ b. (rate.take_token now (general_bucket rate ip rl)).0 && b)
                (second ∙ ap (λ l. (rate.take_token later l).0) general.2),
      )
    where
      both :
          (b : Bool) (r : RateLimiter Limit L × Bool)
          → (if b then r else ((middleware rate ip now rl).0, false)).1 ≡ (b && r.1)
      both true r = refl
      both false r = refl
