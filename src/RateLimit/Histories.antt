-- ===== src/RateLimit/Histories.antt =====
-- internal/server/ratelimit.go: the states that requests and sweeps, in any interleaving, lead to.
use mathlib.Core.List.{reverse}
use mxkeys_org.Prelude.{
  ℤ, pos, negsuc, ℕ, zero, suc, ◌+◌, ◌≤◌, ◌≡◌, ◌∙◌, refl, ap, Bool, true, false, not, String, List,
  [], ◌∷◌, Option-cases, inl, inr, ltb, if◌then◌else◌, find, arith,
}
use mxkeys_org.RateLimit.{
  RatePackage, RateLimiter, RateLimitConfig, positive_or, default_max_visitors, new_rate_limiter,
  visit_found, get_visitor, allow_global, allow_query, drop_element, sweep, cleanup,
}
use mxkeys_org.RateLimit.Upkeep.{IsSound}
use mxkeys_org.RateLimit.Visits.{IsSound-write, evict_if_full_keeps}
use mxkeys_org.RateLimit.Clients.{get_visitor-lru}
use mxkeys_org.RateLimit.Sweeping.{cleanup-live}

module _ {Limit L : Type 0} (rate : RatePackage Limit L) (cfg : RateLimitConfig Limit) where
  -- The states at a time. The bucket of any element, also of one that was evicted since, may be asked at any time.
  pub data History : RateLimiter Limit L → ℕ → Type 0 where
    made : (t : ℕ) → History (new_rate_limiter rate cfg) t
    visited :
        (ip : String) (t now : ℕ) (rl : RateLimiter Limit L)
        → t ≤ now
        → History rl t
        → History (get_visitor rate ip now rl).0 now
    asked :
        (i t now : ℕ) (rl : RateLimiter Limit L)
        → History rl t
        → History (allow_global rate now i rl).0 t
    queried :
        (i t now : ℕ) (rl : RateLimiter Limit L)
        → History rl t
        → History (allow_query rate now i rl).0 t
    swept : (t now : ℕ) (rl : RateLimiter Limit L) → History rl t → History (cleanup now rl) t

module _ {Limit L : Type 0} where
  max_of_sweep :
      (now : ℕ) (els : List ℕ) (rl : RateLimiter Limit L)
      → (sweep now els rl).max_visitors ≡ rl.max_visitors
  unfolding sweep
  max_of_sweep now [] rl = refl
  max_of_sweep now (i ∷ els) rl =
      by_test (not (ltb ((rl.heap i).last_seen + rl.idle_ttl) now))
        (max_of_sweep now els (drop_element i rl))
    where
      by_test :
          (b : Bool)
          → (sweep now els (drop_element i rl)).max_visitors ≡ rl.max_visitors
          → (if b then rl else sweep now els (drop_element i rl)).max_visitors ≡ rl.max_visitors
      by_test true e = refl
      by_test false e = e

  max_of_cleanup :
      (now : ℕ) (rl : RateLimiter Limit L) → (cleanup now rl).max_visitors ≡ rl.max_visitors
  unfolding cleanup
  max_of_cleanup now rl = max_of_sweep now (reverse rl.order) rl

  max_of_visit :
      (rate : RatePackage Limit L) (ip : String) (now : ℕ) (rl : RateLimiter Limit L)
      → (get_visitor rate ip now rl).0.max_visitors ≡ rl.max_visitors
  unfolding get_visitor
  max_of_visit rate ip now rl = elim (Option-cases (find ip rl.visitors)) [
    | inl free ↦
        ap (λ o. (visit_found rate o ip now rl).0.max_visitors) free
        ∙ (evict_if_full_keeps ip rl free).1
    | inr (i, found) ↦ ap (λ o. (visit_found rate o ip now rl).0.max_visitors) found
  ]

positive_or-positive : (d : ℕ) (z : ℤ) → 1 ≤ d → 1 ≤ positive_or d z
positive_or-positive d (pos zero) h = h
positive_or-positive d (pos (suc n)) h = omega arith
positive_or-positive d (negsuc n) h = h

module _ {Limit L : Type 0} (rate : RatePackage Limit L) (cfg : RateLimitConfig Limit) where
  made-IsSound : (t : ℕ) → IsSound (new_rate_limiter rate cfg) t
  unfolding find
  made-IsSound t = record {
    linked = record {
      listed = λ i m. absurd (ground (arith, m));
      mapped = λ ip i f. absurd (ground (arith, f));
      distinct = tt;
      below = λ i m. absurd (ground (arith, m));
    };
    recent = tt;
    bounded = omega arith;
    roomy = positive_or-positive default_max_visitors cfg.max_visitors (omega arith);
  }

  abbrev pub IsKept : RateLimiter Limit L → ℕ → Type 0
  IsKept rl t = IsSound rl t × (rl.max_visitors ≡ positive_or default_max_visitors cfg.max_visitors)

  -- Whatever clients come in whatever order, however the handlers and the sweeps interleave, and also when a handler
  -- still has a visitor that was evicted: the map and the list agree, no client is there twice, the list is in the order
  -- of the times, and there are at most as many visitors as configured (100000 if that is not positive), provided that the
  -- clock does not go back.
  pub History-IsKept : (rl : RateLimiter Limit L) (t : ℕ) → History rate cfg rl t → IsKept rl t
  History-IsKept _ _ (made t) = (made-IsSound t, refl)
  History-IsKept _ _ (visited ip t0 now rl0 later h) =
      let (s, max) = History-IsKept rl0 t0 h in
      let (lru, first, sound) = get_visitor-lru rate ip t0 now rl0 later s in
      (sound, max_of_visit rate ip now rl0 ∙ max)
  History-IsKept _ _ (asked i t now rl0 h) =
      let (s, max) = History-IsKept rl0 t h in
      (
        IsSound-write i t
            (record (rl0.heap i) { limiter = (rate.take_token now (rl0.heap i).limiter).1 }) rl0
            refl refl s,
        max,
      )
  History-IsKept _ _ (queried i t now rl0 h) =
      let (s, max) = History-IsKept rl0 t h in
      (
        IsSound-write i t
            (record (rl0.heap i) {
              query_limiter = (rate.take_token now (rl0.heap i).query_limiter).1;
            })
            rl0 refl refl s,
        max,
      )
  History-IsKept _ _ (swept t now rl0 h) =
      let (s, max) = History-IsKept rl0 t h in
      ((cleanup-live now t rl0 s).1, max_of_cleanup now rl0 ∙ max)
