-- ===== src/RateLimit.antt =====
-- internal/server/ratelimit.go: the visitors that the rate limiter remembers, least recently used last.
-- Of golang.org/x/time/rate the model takes its type of rates, its limiters, NewLimiter and Allow as
-- parameters. A *list.Element is a number, and `heap` is what it points to: an element that was removed
-- from the list keeps its visitor, so a handler that still has it writes to it in vain. Times are numbers,
-- without the overflow of a Time; a lock is held in each of the operations, so they are steps.
pub mod Links
pub mod Lru
pub mod Views
pub mod Upkeep
pub mod Sweeping
pub mod Visits
pub mod Clients
pub mod Buckets
pub mod Histories
use mxkeys_org.Prelude.{
  ℤ, pos, negsuc, ℕ, zero, suc, ◌+◌, ◌*◌, Bool, true, false, not, ◌||◌, Option, none, some, String,
  List, [], ◌∷◌, ltb, leb, ◌==◌, if◌then◌else◌, length, get_last, Dict, find, remove, assign,
}
use mathlib.Core.List.{reverse}

-- What the file uses of the package rate.
pub record RatePackage (Limit Limiter : Type 0) : Type 0 where
  pub new_limiter : Limit → ℕ → Limiter
  -- Whether an event may happen at this time, and the limiter after it.
  pub take_token : ℕ → Limiter → Bool × Limiter

pub record Visitor (Limiter : Type 0) : Type 0 where
  pub ip : String
  pub limiter : Limiter
  pub query_limiter : Limiter
  pub last_seen : ℕ

pub record RateLimitConfig (Limit : Type 0) : Type 0 where
  pub global_requests_per_second : Limit
  pub global_burst : ℕ
  pub query_requests_per_second : Limit
  pub query_burst : ℕ
  pub max_visitors : ℤ
  pub idle_ttl : ℤ

pub record RateLimiter (Limit Limiter : Type 0) : Type 0 where
  pub visitors : Dict ℕ
  pub order : List ℕ
  -- The memory that the elements of the list live in, and the next free place.
  pub heap : ℕ → Visitor Limiter
  pub next_element : ℕ
  pub global_rate : Limit
  pub global_burst : ℕ
  pub query_rate : Limit
  pub query_burst : ℕ
  pub max_visitors : ℕ
  pub idle_ttl : ℕ

abbrev pub default_max_visitors : ℕ
default_max_visitors = 100000

-- Ten minutes in nanoseconds.
abbrev pub default_idle_ttl : ℕ
default_idle_ttl = 10 * 60 * 1000000000

abbrev pub positive_or : ℕ → ℤ → ℕ
positive_or d (pos zero) = d
positive_or d (pos (suc n)) = suc n
positive_or d (negsuc n) = d

abbrev pub member : ℕ → List ℕ → Bool
member i [] = false
member i (j ∷ js) = j == i || member i js

-- list.Remove
abbrev pub remove_element : ℕ → List ℕ → List ℕ
remove_element i [] = []
remove_element i (j ∷ js) = let rest = remove_element i js in if j == i then rest else j ∷ rest

-- list.MoveToFront, which leaves an element of no list alone.
abbrev pub move_to_front : ℕ → List ℕ → List ℕ
move_to_front i order = if member i order then i ∷ remove_element i order else order

abbrev pub write_at :
    {Limiter : Type 0} → ℕ → Visitor Limiter → (ℕ → Visitor Limiter) → ℕ → Visitor Limiter
write_at i v heap j = if j == i then v else heap j

module _ {Limit Limiter : Type 0} where
  -- delete(rl.visitors, v.ip); rl.order.Remove(el)
  abbrev pub drop_element : ℕ → RateLimiter Limit Limiter → RateLimiter Limit Limiter
  drop_element i rl = record rl {
    visitors = remove (rl.heap i).ip rl.visitors;
    order = remove_element i rl.order;
  }

  abbrev pub drop_back : Option ℕ → RateLimiter Limit Limiter → RateLimiter Limit Limiter
  drop_back none rl = rl
  drop_back (some i) rl = drop_element i rl

  -- evictOldestLocked
  unfoldable pub evict_oldest : RateLimiter Limit Limiter → RateLimiter Limit Limiter
  evict_oldest rl = drop_back (get_last rl.order) rl

  -- The visitor is seen and comes to the front.
  abbrev pub see : ℕ → ℕ → RateLimiter Limit Limiter → RateLimiter Limit Limiter
  see now i rl = record rl {
    heap = write_at i (record (rl.heap i) { last_seen = now }) rl.heap;
    order = move_to_front i rl.order;
  }

  abbrev pub push_front : Visitor Limiter → RateLimiter Limit Limiter → RateLimiter Limit Limiter
  push_front v rl = record rl {
    heap = write_at rl.next_element v rl.heap;
    order = rl.next_element ∷ rl.order;
    visitors = assign v.ip rl.next_element rl.visitors;
    next_element = suc rl.next_element;
  }

  abbrev pub evict_if_full : RateLimiter Limit Limiter → RateLimiter Limit Limiter
  evict_if_full rl = if leb rl.max_visitors (length rl.order) then evict_oldest rl else rl

  -- The loop of cleanup: the elements from the back on.
  unfoldable pub sweep : ℕ → List ℕ → RateLimiter Limit Limiter → RateLimiter Limit Limiter
  sweep now [] rl = rl
  sweep now (i ∷ els) rl =
      let rest = sweep now els (drop_element i rl) in
      if not (ltb ((rl.heap i).last_seen + rl.idle_ttl) now) then rl else rest

  -- cleanup; a time is before the cutoff if with the time to live it is before now.
  unfoldable pub cleanup : ℕ → RateLimiter Limit Limiter → RateLimiter Limit Limiter
  unfolding sweep
  cleanup now rl = sweep now (reverse rl.order) rl

  module _ (rate : RatePackage Limit Limiter) where
    abbrev pub new_visitor : String → ℕ → RateLimiter Limit Limiter → Visitor Limiter
    new_visitor ip now rl = record {
      ip = ip;
      limiter = rate.new_limiter rl.global_rate rl.global_burst;
      query_limiter = rate.new_limiter rl.query_rate rl.query_burst;
      last_seen = now;
    }

    -- NewRateLimiter
    abbrev pub new_rate_limiter : RateLimitConfig Limit → RateLimiter Limit Limiter
    new_rate_limiter cfg = record {
      visitors = [];
      order = [];
      heap = λ i. record {
        ip = "";
        limiter = rate.new_limiter cfg.global_requests_per_second cfg.global_burst;
        query_limiter = rate.new_limiter cfg.query_requests_per_second cfg.query_burst;
        last_seen = 0;
      };
      next_element = 0;
      global_rate = cfg.global_requests_per_second;
      global_burst = cfg.global_burst;
      query_rate = cfg.query_requests_per_second;
      query_burst = cfg.query_burst;
      max_visitors = positive_or default_max_visitors cfg.max_visitors;
      idle_ttl = positive_or default_idle_ttl cfg.idle_ttl;
    }

    abbrev pub visit_found :
        Option ℕ → String → ℕ → RateLimiter Limit Limiter → RateLimiter Limit Limiter × ℕ
    visit_found (some i) ip now rl = (see now i rl, i)
    visit_found none ip now rl =
        (push_front (new_visitor ip now rl) (evict_if_full rl), rl.next_element)

    -- getVisitor, with the element of the visitor that it returns.
    unfoldable pub get_visitor :
        String → ℕ → RateLimiter Limit Limiter → RateLimiter Limit Limiter × ℕ
    unfolding evict_oldest
    get_visitor ip now rl = visit_found (find ip rl.visitors) ip now rl

    -- v.limiter.Allow()
    abbrev pub allow_global : ℕ → ℕ → RateLimiter Limit Limiter → RateLimiter Limit Limiter × Bool
    allow_global now i rl =
        let (ok, limiter) = rate.take_token now (rl.heap i).limiter in
        (record rl { heap = write_at i (record (rl.heap i) { limiter = limiter }) rl.heap }, ok)

    -- v.queryLimiter.Allow()
    abbrev pub allow_query : ℕ → ℕ → RateLimiter Limit Limiter → RateLimiter Limit Limiter × Bool
    allow_query now i rl =
        let (ok, limiter) = rate.take_token now (rl.heap i).query_limiter in
        (
          record rl { heap = write_at i (record (rl.heap i) { query_limiter = limiter }) rl.heap },
          ok,
        )

    -- Middleware: whether the next handler runs; else the reply is 429 with M_LIMIT_EXCEEDED.
    unfoldable pub middleware :
        String → ℕ → RateLimiter Limit Limiter → RateLimiter Limit Limiter × Bool
    unfolding get_visitor
    middleware ip now rl = let (seen, i) = get_visitor ip now rl in allow_global now i seen

    -- QueryMiddleware
    unfoldable pub query_middleware :
        String → ℕ → RateLimiter Limit Limiter → RateLimiter Limit Limiter × Bool
    unfolding get_visitor
    query_middleware ip now rl = let (seen, i) = get_visitor ip now rl in allow_query now i seen

    -- A request to a route under withQueryRateLimit: Handler's Middleware stands before it, and both read the clock.
    unfoldable pub query_request :
        String → ℕ → ℕ → RateLimiter Limit Limiter → RateLimiter Limit Limiter × Bool
    unfolding middleware query_middleware
    query_request ip now later rl =
        let (first, ok) = middleware ip now rl in
        let second = query_middleware ip later first in if ok then second else (first, false)
