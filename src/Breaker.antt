-- ===== src/Breaker.antt =====
-- internal/keys/circuitbreaker.go, the guard of the fetches from failing servers, without its
-- metrics. `now` is the clock reading of a method, in nanoseconds; the order of the association
-- list stands for the order in which `range` visits the map.
pub mod Calls
pub mod Tracking
pub mod Oldest
pub mod Eviction
pub mod Bound
pub mod Trip
pub mod Probes
use mxkeys_org.Prelude.{
  ℕ, ◌+◌, ◌-◌, ◌*◌, ◌<◌, Bool, true, false, ◌||◌, Option, none, some, String, str_eq, List, [], ◌∷◌,
  ltb, leb, ◌==◌, if◌then◌else◌, length, Dict, find, remove, assign,
}

pub data CircuitState : Type 0 where
  circuit_closed circuit_open circuit_half_open : CircuitState

-- serverCircuit
pub record Circuit : Type 0 where
  pub state : CircuitState
  pub failures : ℕ
  pub last_failure : ℕ
  pub last_touched : ℕ
  pub half_open_reqs : ℕ

-- CircuitBreaker
pub record Breaker : Type 0 where
  pub failure_threshold : ℕ
  pub reset_timeout : ℕ
  pub half_open_max : ℕ
  pub server_ttl : ℕ
  pub max_tracked : ℕ
  pub servers : Dict Circuit

abbrev pub second : ℕ
second = 1000000000

abbrev pub max_duration : ℕ → ℕ → ℕ
max_duration a b = if ltb b a then a else b

abbrev pub or_default : ℕ → ℕ → ℕ
or_default default given = if given == 0 then default else given

-- An argument that is not positive is 0 here.
unfoldable pub new_circuit_breaker : ℕ → ℕ → Breaker
new_circuit_breaker failure_threshold reset_timeout = record {
  failure_threshold = or_default 5 failure_threshold;
  reset_timeout = or_default (60 * second) reset_timeout;
  half_open_max = 1;
  server_ttl = max_duration (900 * second) (or_default (60 * second) reset_timeout * 10);
  max_tracked = 4096;
  servers = [];
}

-- isExpiredLocked
unfoldable pub is_expired : Breaker → Circuit → ℕ → Bool
is_expired cb sc now = ltb cb.server_ttl (now - sc.last_touched)

abbrev pub touch : ℕ → Circuit → Circuit
touch now sc = record sc { last_touched = now }

-- The switch of Allow.
unfoldable pub admit : Breaker → ℕ → CircuitState → Circuit → Circuit × Bool
admit cb now circuit_closed sc = (sc, true)
admit cb now circuit_open sc =
    if ltb cb.reset_timeout (now - sc.last_failure)
    then (record sc { state = circuit_half_open; half_open_reqs = 0 }, true)
    else (sc, false)
admit cb now circuit_half_open sc =
    if ltb sc.half_open_reqs cb.half_open_max
    then (record sc { half_open_reqs = sc.half_open_reqs + 1 }, true)
    else (sc, false)

abbrev pub store : String → Breaker → Circuit → Breaker
store name cb sc = record cb { servers = assign name sc cb.servers }

abbrev pub forget : String → Breaker → Breaker
forget name cb = record cb { servers = remove name cb.servers }

abbrev pub allow_found : String → ℕ → Breaker → Option Circuit → Breaker × Bool
allow_found name now cb none = (cb, true)
allow_found name now cb (some sc) =
    if is_expired cb sc now
    then (forget name cb, true)
    else (let (sc', allowed) = admit cb now sc.state (touch now sc) in (store name cb sc', allowed))

unfoldable pub allow : String → ℕ → Breaker → Breaker × Bool
unfolding is_expired admit
allow name now cb = allow_found name now cb (find name cb.servers)

unfoldable pub recover : CircuitState → Circuit → Circuit
recover circuit_closed sc = record sc { failures = 0 }
recover circuit_open sc = sc
recover circuit_half_open sc = record sc {
  state = circuit_closed;
  failures = 0;
  half_open_reqs = 0;
}

abbrev pub success_found : String → ℕ → Breaker → Option Circuit → Breaker
success_found name now cb none = cb
success_found name now cb (some sc) = store name cb (recover sc.state (touch now sc))

unfoldable pub record_success : String → ℕ → Breaker → Breaker
unfolding recover
record_success name now cb = success_found name now cb (find name cb.servers)

unfoldable pub keep_fresh : Breaker → ℕ → Dict Circuit → Dict Circuit
unfolding is_expired
keep_fresh cb now [] = []
keep_fresh cb now ((name, sc) ∷ m) =
    let rest = keep_fresh cb now m in if is_expired cb sc now then rest else (name, sc) ∷ rest

-- cleanupLocked
unfoldable pub cleanup : ℕ → Breaker → Breaker
unfolding keep_fresh
cleanup now cb = record cb { servers = keep_fresh cb now cb.servers }

abbrev pub older : String → Circuit → String × ℕ → String × ℕ
older name sc (oldest_name, oldest_time) =
    if str_eq oldest_name "" || ltb sc.last_touched oldest_time
    then (name, sc.last_touched)
    else (oldest_name, oldest_time)

-- The loop of evictOldestLocked.
unfoldable pub oldest : Dict Circuit → String × ℕ → String × ℕ
oldest [] best = best
oldest ((name, sc) ∷ m) best = oldest m (older name sc best)

-- evictOldestLocked; the zero time is never read, since it goes with an empty name.
unfoldable pub evict_oldest : Breaker → Breaker
unfolding oldest
evict_oldest cb =
    let (name, time) = oldest cb.servers ("", 0) in if str_eq name "" then cb else forget name cb

abbrev pub make_room : Breaker → Breaker
make_room cb = if leb cb.max_tracked (length cb.servers) then evict_oldest cb else cb

abbrev pub fresh_circuit : ℕ → Circuit
fresh_circuit now = record {
  state = circuit_closed;
  failures = 0;
  last_failure = 0;
  last_touched = now;
  half_open_reqs = 0;
}

-- The switch of RecordFailure.
unfoldable pub trip : Breaker → CircuitState → Circuit → Circuit
trip cb circuit_closed sc =
    if leb cb.failure_threshold sc.failures then record sc { state = circuit_open } else sc
trip cb circuit_open sc = sc
trip cb circuit_half_open sc = record sc { state = circuit_open }

abbrev pub count_failure : ℕ → Circuit → Circuit
count_failure now sc = record sc {
  failures = sc.failures + 1;
  last_failure = now;
  last_touched = now;
}

abbrev pub fail_found : String → ℕ → Breaker → Option Circuit → Breaker
fail_found name now cb none =
    store name (make_room cb) (trip cb circuit_closed (count_failure now (fresh_circuit now)))
fail_found name now cb (some sc) = store name cb (trip cb sc.state (count_failure now sc))

unfoldable pub record_failure : String → ℕ → Breaker → Breaker
unfolding cleanup evict_oldest trip
record_failure name now cb =
    fail_found name now (cleanup now cb) (find name (cleanup now cb).servers)

abbrev pub state_found : String → ℕ → Breaker → Option Circuit → Breaker × CircuitState
state_found name now cb none = (cb, circuit_closed)
state_found name now cb (some sc) =
    if is_expired cb sc now then (forget name cb, circuit_closed) else (cb, sc.state)

-- State
unfoldable pub state_of : String → ℕ → Breaker → Breaker × CircuitState
unfolding is_expired
state_of name now cb = state_found name now cb (find name cb.servers)

-- Reset
unfoldable pub reset : String → Breaker → Breaker
reset name cb = forget name cb
