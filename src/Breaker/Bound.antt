-- ===== src/Breaker/Bound.antt =====
-- internal/keys/circuitbreaker.go: how many servers the breaker tracks.
use mxkeys_org.Prelude.{
  ℕ, ◌≤◌, String, List, [], ◌∷◌, length, All, find, ◌≢◌, refl, arith, Bool-cases, Option-cases, inl,
  inr,
}
use mxkeys_org.Breaker.{
  Breaker, is_expired, touch, admit, allow, cleanup, trip, count_failure, fresh_circuit, recover,
  record_success, record_failure, state_of, reset, new_circuit_breaker, fail_found, circuit_closed,
}
use mxkeys_org.Breaker.Calls.{
  Call, perform, perform_all, Named, call_allow, call_success, call_failure, call_state, call_reset,
  call_stats,
}
use mxkeys_org.Breaker.Eviction.{
  IsBounded, cleanup-IsBounded, forget-IsBounded, replace-IsBounded, insert-IsBounded,
}

allow-IsBounded :
    (name : String) (now : ℕ) (cb : Breaker) → IsBounded cb → IsBounded (allow name now cb).0
unfolding allow
allow-IsBounded name now cb b = elim (Option-cases (find name cb.servers)) [
  | inl h ↦ rw h b
  | inr (sc, h) ↦ rw h (elim (Bool-cases (is_expired cb sc now)) [
    | inl e ↦ rw e (forget-IsBounded name cb b)
    | inr e ↦ rw e (replace-IsBounded name cb sc (admit cb now sc.state (touch now sc)).0 h b)
  ])
]

success-IsBounded :
    (name : String) (now : ℕ) (cb : Breaker) → IsBounded cb → IsBounded (record_success name now cb)
unfolding record_success
success-IsBounded name now cb b = elim (Option-cases (find name cb.servers)) [
  | inl h ↦ rw h b
  | inr (sc, h) ↦ rw h (replace-IsBounded name cb sc (recover sc.state (touch now sc)) h b)
]

fail_found-IsBounded :
    (name : String) (now : ℕ) (cb : Breaker)
    → name ≢ ""
    → IsBounded cb
    → IsBounded (fail_found name now cb (find name cb.servers))
fail_found-IsBounded name now cb named b = elim (Option-cases (find name cb.servers)) [
  | inl h ↦ rw h (
      insert-IsBounded name cb (trip cb circuit_closed (count_failure now (fresh_circuit now)))
        named h b)
  | inr (sc, h) ↦ rw h (replace-IsBounded name cb sc (trip cb sc.state (count_failure now sc)) h b)
]

failure-IsBounded :
    (name : String) (now : ℕ) (cb : Breaker)
    → name ≢ ""
    → IsBounded cb
    → IsBounded (record_failure name now cb)
unfolding record_failure
failure-IsBounded name now cb named b =
    fail_found-IsBounded name now (cleanup now cb) named (cleanup-IsBounded now cb b)

state-IsBounded :
    (name : String) (now : ℕ) (cb : Breaker) → IsBounded cb → IsBounded (state_of name now cb).0
unfolding state_of
state-IsBounded name now cb b = elim (Option-cases (find name cb.servers)) [
  | inl h ↦ rw h b
  | inr (sc, h) ↦ rw h (elim (Bool-cases (is_expired cb sc now)) [
    | inl e ↦ rw e (forget-IsBounded name cb b)
    | inr e ↦ rw e b
  ])
]

perform-IsBounded :
    (call : Call) (cb : Breaker) → Named call → IsBounded cb → IsBounded (perform call cb)
unfolding perform reset
perform-IsBounded (call_allow name now) cb named b = allow-IsBounded name now cb b
perform-IsBounded (call_success name now) cb named b = success-IsBounded name now cb b
perform-IsBounded (call_failure name now) cb named b = failure-IsBounded name now cb named b
perform-IsBounded (call_state name now) cb named b = state-IsBounded name now cb b
perform-IsBounded (call_reset name) cb named b = forget-IsBounded name cb b
perform-IsBounded (call_stats now) cb named b = cleanup-IsBounded now cb b

perform_all-IsBounded :
    (calls : List Call) (cb : Breaker)
    → All Named calls
    → IsBounded cb
    → IsBounded (perform_all calls cb)
unfolding perform_all
perform_all-IsBounded [] cb named b = b
perform_all-IsBounded (call ∷ calls) cb named b =
    perform_all-IsBounded calls (perform call cb) named.1 (perform-IsBounded call cb named.0 b)

new-IsBounded : (threshold timeout : ℕ) → IsBounded (new_circuit_breaker threshold timeout)
unfolding new_circuit_breaker find
new-IsBounded threshold timeout = record { within = omega arith; named = refl; limit = refl }

-- Whatever calls are made of a new breaker, in whatever order, it tracks at most 4096 servers, if no
-- call is for the empty server name.
pub tracked_bounded :
    (threshold timeout : ℕ) (calls : List Call)
    → All Named calls
    → length (perform_all calls (new_circuit_breaker threshold timeout)).servers ≤ 4096
tracked_bounded threshold timeout calls named =
    let b =
      perform_all-IsBounded calls (new_circuit_breaker threshold timeout) named
        (new-IsBounded threshold timeout) in
    omega (arith, b.within, b.limit)
