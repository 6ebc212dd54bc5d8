-- ===== src/Breaker/Calls.antt =====
-- internal/keys/circuitbreaker.go: the exported methods as the calls that clients make, which the
-- mutex puts in an order.
use mxkeys_org.Prelude.{ℕ, ◌+◌, ◌-◌, ◌≤◌, if◌then◌else◌, String, List, [], ◌∷◌, ◌≢◌}
use mxkeys_org.Breaker.{Breaker, allow, record_success, record_failure, state_of, reset, cleanup}

pub data Call : Type 0 where
  call_allow call_success call_failure call_state : String → ℕ → Call
  call_reset : String → Call
  call_stats : ℕ → Call

unfoldable pub perform : Call → Breaker → Breaker
perform (call_allow name now) cb = (allow name now cb).0
perform (call_success name now) cb = record_success name now cb
perform (call_failure name now) cb = record_failure name now cb
perform (call_state name now) cb = (state_of name now cb).0
perform (call_reset name) cb = reset name cb
perform (call_stats now) cb = cleanup now cb

unfoldable pub perform_all : List Call → Breaker → Breaker
perform_all [] cb = cb
perform_all (c ∷ cs) cb = perform_all cs (perform c cb)

-- The calls name their server.
abbrev pub Named : Call → Type 0
Named (call_allow name now) = name ≢ ""
Named (call_success name now) = name ≢ ""
Named (call_failure name now) = name ≢ ""
Named (call_state name now) = name ≢ ""
Named (call_reset name) = name ≢ ""
Named (call_stats now) = Unit

-- How many of the requests at these times Allow lets through.
unfoldable pub admitted : String → List ℕ → Breaker → ℕ
admitted name [] cb = 0
admitted name (t ∷ ts) cb =
    let (cb', allowed) = allow name t cb in (if allowed then 1 else 0) + admitted name ts cb'

-- Failures at these times, one after the other.
unfoldable pub fail_all : String → List ℕ → Breaker → Breaker
fail_all name [] cb = cb
fail_all name (t ∷ ts) cb = fail_all name ts (record_failure name t cb)

-- No pause between the calls is so long that the entry of the server expires.
abbrev pub Steady : ℕ → ℕ → List ℕ → Type 0
Steady ttl last [] = Unit
Steady ttl last (t ∷ ts) = (t - last ≤ ttl) × Steady ttl t ts
