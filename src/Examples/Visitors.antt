-- ===== src/Examples/Visitors.antt =====
-- A cache with room for two visitors, for internal/server/ratelimit.go.
use mxkeys_org.Prelude.{
  pos, negsuc, ℕ, zero, suc, ◌≡◌, refl, arith, Bool, true, false, [], ◌∷◌, find, assign, remove,
}
use mxkeys_org.RateLimit.{
  RatePackage, RateLimitConfig, RateLimiter, new_rate_limiter, new_visitor, get_visitor,
  allow_global, cleanup,
}
use mxkeys_org.RateLimit.Upkeep.{IsSound}
use mxkeys_org.RateLimit.Clients.{IsVisit, get_visitor-lru}
use mxkeys_org.RateLimit.Sweeping.{IsSwept, cleanup-live}
use mxkeys_org.RateLimit.Buckets.{IsLimited, middleware-allow}
use mxkeys_org.RateLimit.Histories.{History, made, visited, asked, IsKept, History-IsKept}

-- A bucket that is never filled again.
abbrev spend : ℕ → ℕ → Bool × ℕ
spend now zero = (false, zero)
spend now (suc n) = (true, n)

abbrev tokens : RatePackage ℕ ℕ
tokens = record { new_limiter = λ r b. b; take_token = spend }

abbrev for_two : RateLimitConfig ℕ
for_two = record {
  global_requests_per_second = 100;
  global_burst = 3;
  query_requests_per_second = 10;
  query_burst = 1;
  max_visitors = pos 2;
  idle_ttl = negsuc 4;
}

abbrev fresh_cache : RateLimiter ℕ ℕ
fresh_cache = new_rate_limiter tokens for_two

abbrev one_seen : RateLimiter ℕ ℕ
one_seen = (get_visitor tokens "10.0.0.1" 5 fresh_cache).0

abbrev two_seen : RateLimiter ℕ ℕ
two_seen = (get_visitor tokens "10.0.0.2" 7 one_seen).0

abbrev spent : RateLimiter ℕ ℕ
spent = (allow_global tokens 8 1 two_seen).0

spent-History : History tokens for_two spent 7
spent-History = asked 1 7 8 two_seen (
    visited "10.0.0.2" 5 7 one_seen (omega arith)
      (visited "10.0.0.1" 0 5 fresh_cache (omega arith) (made 0)))

History-IsKept_example : IsKept tokens for_two spent 7
History-IsKept_example = History-IsKept tokens for_two spent 7 spent-History

spent-IsSound : IsSound spent 7
spent-IsSound = (History-IsKept tokens for_two spent 7 spent-History).0

-- A third visitor takes the place of the first.
get_visitor-lru_example :
    IsVisit spent (new_visitor tokens "10.0.0.3" 9 spent) (get_visitor tokens "10.0.0.3" 9 spent)
get_visitor-lru_example = get_visitor-lru tokens "10.0.0.3" 7 9 spent (omega arith) spent-IsSound

cleanup-live_example : IsSwept 600000000006 7 spent (cleanup 600000000006 spent)
cleanup-live_example = cleanup-live 600000000006 7 spent spent-IsSound

middleware-allow_example : IsLimited tokens "10.0.0.1" 9 10 spent
middleware-allow_example =
    middleware-allow tokens "10.0.0.1" 9 10 spent 7 (omega arith) (omega arith) spent-IsSound

only_second_left : (cleanup 600000000006 spent).order ≡ 1 ∷ []
unfolding cleanup get_visitor find assign remove
only_second_left = refl
