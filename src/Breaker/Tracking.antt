-- ===== src/Breaker/Tracking.antt =====
-- internal/keys/circuitbreaker.go: what a method does with the entry of a server that has one.
use mxkeys_org.Prelude.{
  ℕ, ◌-◌, ◌≤◌, false, none, some, String, eq_iff, [], ◌∷◌, Dict, find, find-assign, ◌≡◌, refl,
  arith,
}
use mxkeys_org.Breaker.{
  Circuit, Breaker, is_expired, touch, admit, allow, store, keep_fresh, cleanup, trip,
  count_failure, record_failure,
}

pub find-store :
    (name : String) (cb : Breaker) (sc : Circuit) → find name (store name cb sc).servers ≡ some sc
find-store name cb sc = ground (arith, find-assign name name sc cb.servers, eq_iff name name)

pub fresh :
    (cb : Breaker) (sc : Circuit) (now : ℕ)
    → now - sc.last_touched ≤ cb.server_ttl
    → is_expired cb sc now ≡ false
unfolding is_expired
fresh cb sc now h = ground arith

pub allow-found :
    (name : String) (now : ℕ) (cb : Breaker) (sc : Circuit)
    → find name cb.servers ≡ some sc
    → now - sc.last_touched ≤ cb.server_ttl
    → allow name now cb ≡ (
      store name cb (admit cb now sc.state (touch now sc)).0,
      (admit cb now sc.state (touch now sc)).1,
    )
unfolding allow
allow-found name now cb sc h f = rw (h, fresh cb sc now f) refl

pub find-keep_fresh :
    (name : String) (now : ℕ) (cb : Breaker) (sc : Circuit) (m : Dict Circuit)
    → find name m ≡ some sc
    → is_expired cb sc now ≡ false
    → find name (keep_fresh cb now m) ≡ some sc
unfolding keep_fresh find
find-keep_fresh name now cb sc [] h f = h
find-keep_fresh name now cb sc ((j, v) ∷ m) h f = ground (arith, find-keep_fresh name now cb sc m)

pub find-keep_fresh-none :
    (name : String) (now : ℕ) (cb : Breaker) (m : Dict Circuit)
    → find name m ≡ none
    → find name (keep_fresh cb now m) ≡ none
unfolding keep_fresh find
find-keep_fresh-none name now cb [] h = h
find-keep_fresh-none name now cb ((j, v) ∷ m) h = ground (arith, find-keep_fresh-none name now cb m)

pub record_failure-found :
    (name : String) (now : ℕ) (cb : Breaker) (sc : Circuit)
    → find name cb.servers ≡ some sc
    → now - sc.last_touched ≤ cb.server_ttl
    → record_failure name now cb
      ≡ store name (cleanup now cb) (trip cb sc.state (count_failure now sc))
unfolding record_failure cleanup trip
record_failure-found name now cb sc h f =
    rw (find-keep_fresh name now cb sc cb.servers h (fresh cb sc now f)) refl
