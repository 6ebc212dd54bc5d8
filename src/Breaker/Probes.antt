-- ===== src/Breaker/Probes.antt =====
-- internal/keys/circuitbreaker.go: what Allow lets through while no outcome is recorded.
use mxkeys_org.Prelude.{
  ℕ, ◌+◌, ◌-◌, ◌≤◌, ◌<◌, true, false, if◌then◌else◌, some, String, List, [], ◌∷◌, ltb, length, All,
  find, ◌≡◌, refl, arith, Bool-cases, inl, inr,
}
use mxkeys_org.Breaker.{Circuit, circuit_open, circuit_half_open, Breaker, admit, store}
use mxkeys_org.Breaker.Calls.{admitted, Steady}
use mxkeys_org.Breaker.Tracking.{find-store, allow-found}

abbrev min : ℕ → ℕ → ℕ
min a b = if ltb a b then a else b

admitted_half_open :
    (name : String) (ts : List ℕ) (cb : Breaker) (sc : Circuit)
    → find name cb.servers ≡ some sc
    → sc.state ≡ circuit_half_open
    → Steady cb.server_ttl sc.last_touched ts
    → admitted name ts cb ≡ min (length ts) (cb.half_open_max - sc.half_open_reqs)
unfolding admitted admit
admitted_half_open name [] cb sc h s steady = ground arith
admitted_half_open name (t ∷ ts) cb sc h s steady =
    let probe = record sc {
      state = circuit_half_open;
      last_touched = t;
      half_open_reqs = sc.half_open_reqs + 1;
    } in
    let idle = record sc { state = circuit_half_open; last_touched = t } in
    rw (allow-found name t cb sc h steady.0, s)
      (elim (Bool-cases (ltb sc.half_open_reqs cb.half_open_max)) [
        | inl e ↦ rw e (
            ground (
              arith,
              admitted_half_open name ts (store name cb probe) probe (find-store name cb probe) refl
                  steady.1,
            ))
        | inr e ↦ rw e (
            ground (
              arith,
              admitted_half_open name ts (store name cb idle) idle (find-store name cb idle) refl
                  steady.1,
            ))
      ])

-- A server's circuit is open and the reset timeout since its last failure has passed. Of the
-- requests that then come one after the other with no outcome recorded, however many they are,
-- `half_open_max` and one are let through: the one that makes the circuit half-open is not
-- counted. The pauses are no longer than the lifetime of the entry.
pub probes_exact :
    (name : String) (t : ℕ) (ts : List ℕ) (cb : Breaker) (sc : Circuit)
    → find name cb.servers ≡ some sc
    → sc.state ≡ circuit_open
    → cb.reset_timeout < t - sc.last_failure
    → Steady cb.server_ttl sc.last_touched (t ∷ ts)
    → admitted name (t ∷ ts) cb ≡ 1 + min (length ts) cb.half_open_max
unfolding admitted admit
probes_exact name t ts cb sc h s late steady =
    let probe = record sc { state = circuit_half_open; last_touched = t; half_open_reqs = 0 } in
    let passed : ltb cb.reset_timeout (t - sc.last_failure) ≡ true = ground (arith, late) in
    rw (allow-found name t cb sc h steady.0, s, passed)
      (ground (
        arith,
        admitted_half_open name ts (store name cb probe) probe (find-store name cb probe) refl
            steady.1,
      ))

-- The time t is in the period of this length that begins at `failed`.
abbrev pub Within : ℕ → ℕ → ℕ → Type 0
Within failed timeout t = (failed ≤ t) × (t ≤ failed + timeout)

-- Within the reset timeout of the last failure an open circuit lets no request through, however
-- many there are, if an entry lives as long as the timeout and was touched at its last failure or
-- after it.
pub open_denies :
    (name : String) (ts : List ℕ) (cb : Breaker) (sc : Circuit)
    → find name cb.servers ≡ some sc
    → sc.state ≡ circuit_open
    → sc.last_failure ≤ sc.last_touched
    → cb.reset_timeout ≤ cb.server_ttl
    → All (Within sc.last_failure cb.reset_timeout) ts
    → admitted name ts cb ≡ 0
unfolding admitted admit
open_denies name [] cb sc h s touched ttl inside = refl
open_denies name (t ∷ ts) cb sc h s touched ttl inside =
    let idle = record sc { state = circuit_open; last_touched = t } in
    let early : ltb cb.reset_timeout (t - sc.last_failure) ≡ false = ground (arith, inside.0) in
    rw (allow-found name t cb sc h (omega (arith, inside.0)), s, early)
      (omega (
        arith,
        open_denies name ts (store name cb idle) idle (find-store name cb idle) refl inside.0.0 ttl
            inside.1,
      ))
