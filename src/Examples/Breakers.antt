-- ===== src/Examples/Breakers.antt =====
-- A server of internal/keys/circuitbreaker.go that fails.
use mathlib.Core.Bool.{false≢true}
use mxkeys_org.Prelude.{
  Dict, ◌≤◌, ◌≡◌, ◌≢◌, refl, some, String, List, [], ◌∷◌, arith, eq_iff, length, find, none, assign,
  remove,
}
use mxkeys_org.Breaker.{
  Breaker, Circuit, circuit_open, new_circuit_breaker, record_failure, cleanup, keep_fresh,
  is_expired, trip, evict_oldest, oldest,
}
use mxkeys_org.Breaker.Calls.{
  Call, call_allow, call_failure, call_stats, perform_all, admitted, fail_all,
}
use mxkeys_org.Breaker.Bound.{tracked_bounded}
use mxkeys_org.Breaker.Probes.{probes_exact}
use mxkeys_org.Breaker.Trip.{failures_block}

-- Two failures open the circuit, for 100 nanoseconds.
abbrev new_breaker : Breaker
new_breaker = new_circuit_breaker 2 100

abbrev tripped_entry : Circuit
tripped_entry = record {
  state = circuit_open;
  failures = 2;
  last_failure = 20;
  last_touched = 20;
  half_open_reqs = 0;
}

abbrev tripped : Breaker
tripped = record new_breaker { servers = ("a", tripped_entry) ∷ [] }

tripped_run : fail_all "a" (10 ∷ 20 ∷ []) new_breaker ≡ tripped
unfolding fail_all record_failure cleanup keep_fresh is_expired trip evict_oldest oldest
    new_circuit_breaker find assign remove
tripped_run = refl

tripped_found : find "a" tripped.servers ≡ some tripped_entry
unfolding find
tripped_found = refl

probes_exact_example : admitted "a" (200 ∷ 201 ∷ 202 ∷ 203 ∷ []) tripped ≡ 2
unfolding new_circuit_breaker
probes_exact_example =
    probes_exact "a" 200 (201 ∷ 202 ∷ 203 ∷ []) tripped tripped_entry tripped_found refl
      (omega arith) (omega arith, (omega arith, (omega arith, (omega arith, tt))))

failures_block_example : admitted "a" (30 ∷ 120 ∷ []) (fail_all "a" (10 ∷ 20 ∷ []) new_breaker) ≡ 0
unfolding new_circuit_breaker find
failures_block_example =
    failures_block "a" 10 (20 ∷ []) (30 ∷ 120 ∷ []) new_breaker refl (omega arith) (omega arith, tt)
      (omega arith) (omega arith) ((omega arith, omega arith), ((omega arith, omega arith), tt))

abbrev calls : List Call
calls = call_failure "a" 10 ∷ call_allow "a" 11 ∷ call_stats 12 ∷ []

a_named : ◌≢◌ {A = String} "a" ""
a_named e = false≢true ((eq_iff "a" "").1 e)

tracked_bounded_example : length (perform_all calls new_breaker).servers ≤ 4096
tracked_bounded_example = tracked_bounded 2 100 calls (a_named, (a_named, (tt, tt)))

abbrev busy_entry : Circuit
busy_entry = record tripped_entry { last_touched = 50 }

abbrev crowd : Dict Circuit
crowd = ("b", busy_entry) ∷ ("a", tripped_entry) ∷ []

crowd-find : (find "" crowd ≡ none) × (find "b" crowd ≡ some busy_entry)
unfolding find
crowd-find = (refl, refl)

crowd-oldest : oldest crowd ("", 0) ≡ ("a", 20)
unfolding oldest
crowd-oldest = refl
