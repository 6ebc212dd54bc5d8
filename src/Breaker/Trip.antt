-- ===== src/Breaker/Trip.antt =====
-- internal/keys/circuitbreaker.go: when RecordFailure opens a circuit.
use mxkeys_org.Prelude.{
  ℕ, ◌+◌, ◌-◌, ◌≤◌, ◌<◌, if◌then◌else◌, none, some, String, str_eq, List, [], ◌∷◌, leb, length, All,
  find, ◌≡◌, refl, sym, suc, subst, ◌∙◌, arith, Bool-cases, inl, inr,
}
use mxkeys_org.Breaker.{
  Circuit, CircuitState, circuit_open, circuit_half_open, circuit_closed, Breaker, trip,
  count_failure, fresh_circuit, cleanup, make_room, oldest, evict_oldest, record_failure, state_of,
}
use mxkeys_org.Breaker.Calls.{admitted, fail_all, Steady}
use mxkeys_org.Breaker.Probes.{Within, open_denies}
use mxkeys_org.Breaker.Tracking.{find-store, record_failure-found, fresh, find-keep_fresh-none}

abbrev pub expected : Breaker → ℕ → CircuitState
expected cb failures = if leb cb.failure_threshold failures then circuit_open else circuit_closed

abbrev pub last_time : ℕ → List ℕ → ℕ
last_time t [] = t
last_time t (u ∷ ts) = last_time u ts

-- The entry of the server after so many failures in a row, the last one at `now`.
record Counted (name : String) (cb : Breaker) (now failures : ℕ) : Type 0 where
  entry : Circuit
  tracked : find name cb.servers ≡ some entry
  in_state : entry.state ≡ expected cb failures
  counted : entry.failures ≡ failures
  failed_at : entry.last_failure ≡ now
  touched_at : entry.last_touched ≡ now

-- The configuration of one breaker is that of another.
abbrev Configured : Breaker → Breaker → Type 0
Configured cb cb' =
    (cb'.failure_threshold ≡ cb.failure_threshold)
    × (cb'.reset_timeout ≡ cb.reset_timeout)
    × (cb'.server_ttl ≡ cb.server_ttl)

Configured-trans : (a b c : Breaker) → Configured a b → Configured b c → Configured a c
Configured-trans a b c h k = (k.0 ∙ h.0, k.1 ∙ h.1, k.2 ∙ h.2)

evict-Configured : (cb : Breaker) → Configured cb (evict_oldest cb)
unfolding evict_oldest
evict-Configured cb = elim (Bool-cases (str_eq (oldest cb.servers ("", 0)).0 "")) [
  | inl e ↦ rw e (refl, refl, refl)
  | inr e ↦ rw e (refl, refl, refl)
]

room-Configured : (cb : Breaker) → Configured cb (make_room cb)
room-Configured cb = elim (Bool-cases (leb cb.max_tracked (length cb.servers))) [
  | inl e ↦ rw e (evict-Configured cb)
  | inr e ↦ rw e (refl, refl, refl)
]

trip-expected :
    (cb : Breaker) (now : ℕ) (sc : Circuit)
    → sc.state ≡ expected cb sc.failures
    → (trip cb sc.state (count_failure now sc)).state ≡ expected cb (sc.failures + 1)
unfolding trip
trip-expected cb now sc h = ground arith

-- RecordFailure's switch changes the state only.
trip-fields :
    (cb : Breaker) (state : CircuitState) (sc : Circuit)
    → ((trip cb state sc).failures ≡ sc.failures)
      × ((trip cb state sc).last_failure ≡ sc.last_failure)
      × ((trip cb state sc).last_touched ≡ sc.last_touched)
unfolding trip
trip-fields cb circuit_closed sc = ground arith
trip-fields cb circuit_open sc = (refl, refl, refl)
trip-fields cb circuit_half_open sc = (refl, refl, refl)

step-Counted :
    (name : String) (t last k : ℕ) (cb : Breaker)
    → Counted name cb last k
    → t - last ≤ cb.server_ttl
    → Counted name (record_failure name t cb) t (k + 1) × Configured cb (record_failure name t cb)
unfolding cleanup
step-Counted name t last k cb c steady =
    let sc = c.entry in
    let sc' = trip cb sc.state (count_failure t sc) in
    let (f, l, u) = trip-fields cb sc.state (count_failure t sc) in
    rw (record_failure-found name t cb sc c.tracked (omega (arith, steady, c.touched_at))) (
      record {
        entry = sc';
        tracked = find-store name (cleanup t cb) sc';
        in_state = rw (sym c.counted) (trip-expected cb t sc (rw c.counted c.in_state));
        counted = omega (arith, f, c.counted);
        failed_at = l;
        touched_at = u;
      },
      (refl, refl, refl),
    )

first-Counted :
    (name : String) (t : ℕ) (cb : Breaker)
    → find name cb.servers ≡ none
    → 0 < cb.failure_threshold
    → Counted name (record_failure name t cb) t 1 × Configured cb (record_failure name t cb)
unfolding record_failure cleanup trip
first-Counted name t cb h positive =
    let sc = trip cb circuit_closed (count_failure t (fresh_circuit t)) in
    let (f, l, u) = trip-fields cb circuit_closed (count_failure t (fresh_circuit t)) in
    let kept = room-Configured (cleanup t cb) in
    rw (find-keep_fresh-none name t cb cb.servers h) (
      record {
        entry = sc;
        tracked = find-store name (make_room (cleanup t cb)) sc;
        in_state = rw kept.0 (trip-expected cb t (fresh_circuit t) (ground (arith, positive)));
        counted = f;
        failed_at = l;
        touched_at = u;
      },
      kept,
    )

more-Counted :
    (name : String) (ts : List ℕ) (last k : ℕ) (cb : Breaker)
    → Counted name cb last k
    → Steady cb.server_ttl last ts
    → Counted name (fail_all name ts cb) (last_time last ts) (k + length ts)
      × Configured cb (fail_all name ts cb)
unfolding fail_all
more-Counted name [] last k cb c steady =
    let none_more : k ≡ k + 0 = omega arith in
    (subst (λ m. Counted name cb last m) none_more c, (refl, refl, refl))
more-Counted name (t ∷ ts) last k cb c steady =
    let (c', kept) = step-Counted name t last k cb c steady.0 in
    let rest = more-Counted name ts t (k + 1) (record_failure name t cb) c' (rw kept.2 steady.1) in
    let one_more : (k + 1) + length ts ≡ k + suc (length ts) = omega arith in
    (
      subst (λ m. Counted name (fail_all name ts (record_failure name t cb)) (last_time t ts) m)
          one_more rest.0,
      Configured-trans cb (record_failure name t cb) (fail_all name ts (record_failure name t cb))
          kept rest.1,
    )

all-Counted :
    (name : String) (t : ℕ) (ts : List ℕ) (cb : Breaker)
    → find name cb.servers ≡ none
    → 0 < cb.failure_threshold
    → Steady cb.server_ttl t ts
    → Counted name (fail_all name (t ∷ ts) cb) (last_time t ts) (1 + length ts)
      × Configured cb (fail_all name (t ∷ ts) cb)
unfolding fail_all
all-Counted name t ts cb h positive steady =
    let (c, kept) = first-Counted name t cb h positive in
    let rest = more-Counted name ts t 1 (record_failure name t cb) c (rw kept.2 steady) in
    (
      rest.0,
      Configured-trans cb (record_failure name t cb) (fail_all name ts (record_failure name t cb))
          kept rest.1,
    )

-- A server without an entry fails at the given times, one after the other, with no pause longer
-- than the lifetime of an entry. Until the entry expires, State then answers that the circuit is
-- open if the failures are as many as the threshold or more, and closed if they are fewer.
pub trips_at_threshold :
    (name : String) (t : ℕ) (ts : List ℕ) (now : ℕ) (cb : Breaker)
    → find name cb.servers ≡ none
    → 0 < cb.failure_threshold
    → Steady cb.server_ttl t ts
    → now - last_time t ts ≤ cb.server_ttl
    → (state_of name now (fail_all name (t ∷ ts) cb)).1 ≡ expected cb (length (t ∷ ts))
unfolding state_of
trips_at_threshold name t ts now cb h positive steady alive =
    let (c, kept) = all-Counted name t ts cb h positive steady in
    let alive' = fresh (fail_all name (t ∷ ts) cb) c.entry now (rw (c.touched_at, kept.2) alive) in
    rw (c.tracked, alive') (c.in_state ∙ rw kept.0 (ground arith))

-- A server without an entry fails as often as the threshold or more, with no pause longer than the
-- lifetime of an entry. Then Allow lets through none of the requests that come within the reset
-- timeout of the last failure, if an entry lives as long as that timeout.
pub failures_block :
    (name : String) (t : ℕ) (ts requests : List ℕ) (cb : Breaker)
    → find name cb.servers ≡ none
    → 0 < cb.failure_threshold
    → Steady cb.server_ttl t ts
    → cb.failure_threshold ≤ length (t ∷ ts)
    → cb.reset_timeout ≤ cb.server_ttl
    → All (Within (last_time t ts) cb.reset_timeout) requests
    → admitted name requests (fail_all name (t ∷ ts) cb) ≡ 0
failures_block name t ts requests cb h positive steady enough ttl inside =
    let (c, kept) = all-Counted name t ts cb h positive steady in
    open_denies name requests (fail_all name (t ∷ ts) cb) c.entry c.tracked
      (c.in_state ∙ rw kept.0 (ground (arith, enough))) (omega (arith, c.failed_at, c.touched_at))
      (rw (kept.1, kept.2) ttl)
      (subst (λ f. All (Within f (fail_all name (t ∷ ts) cb).reset_timeout) requests)
        (sym c.failed_at)
        (subst (λ w. All (Within (last_time t ts) w) requests) (sym kept.1) inside))
