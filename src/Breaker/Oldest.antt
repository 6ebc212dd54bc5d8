-- ===== src/Breaker/Oldest.antt =====
-- internal/keys/circuitbreaker.go: which server an eviction picks.
use mathlib.Core.List.{Memᴰ}
use mxkeys_org.Prelude.{
  ℕ, ◌≤◌, ◌≡◌, ◌⊎◌, refl, sym, arith, Bool-cases, inl, inr, false, none, some, Option, String,
  str_eq, [], ◌∷◌, ltb, Dict, find, ap, ltb_false→le,
}
use mxkeys_org.Breaker.{Circuit, oldest}

abbrev touched_of : Option Circuit → ℕ
touched_of none = 0
touched_of (some sc) = sc.last_touched

-- The visit's result is no later than its start and than any entry, and is one of them.
record Earliest (m : Dict Circuit) (best found : String × ℕ) : Type 0 where
  no_later : found.1 ≤ best.1
  least : (j : String) (v : Circuit) → find j m ≡ some v → found.1 ≤ v.last_touched
  picked : (found ≡ best) ⊎ ((sc : Circuit) × (Memᴰ (found.0, sc) m × (sc.last_touched ≡ found.1)))

oldest-Earliest :
    (m : Dict Circuit) (best : String × ℕ)
    → str_eq best.0 "" ≡ false
    → find "" m ≡ none
    → Earliest m best (oldest m best)
unfolding oldest find
oldest-Earliest [] best named h = record {
  no_later = omega arith;
  least = λ j v q. absurd (ground (arith, q));
  picked = inl refl;
}
oldest-Earliest ((i, w) ∷ m) best named h =
    let i_named : str_eq i "" ≡ false = ground (arith, h) in
    let rest_named : find "" m ≡ none = ground (arith, h) in
    elim (Bool-cases (ltb w.last_touched best.1)) [
      | inl earlier ↦
          (let r = oldest-Earliest m (i, w.last_touched) i_named rest_named in
            rw (named, earlier)
              (record {
                no_later = ground (arith, r.no_later, earlier);
                least = λ j v q. elim (Bool-cases (str_eq i j)) [
                  | inl e ↦
                      (let same = ap touched_of (rw e at q) in omega (arith, same, r.no_later))
                  | inr e ↦ r.least j v (rw e at q)
                ];
                picked = elim r.picked [
                  | inl e ↦ inr (w, (Memᴰ.head (ap (λ b. (b.0, w)) e), sym (ap (λ b. b.1) e)))
                  | inr (sc, (mem, t)) ↦ inr (sc, (Memᴰ.tail mem, t))
                ];
              }))
      | inr later ↦
          (let r = oldest-Earliest m best named rest_named in
            rw (named, later)
              (record {
                no_later = r.no_later;
                least = λ j v q. elim (Bool-cases (str_eq i j)) [
                  | inl e ↦
                      (let same = ap touched_of (rw e at q) in
                        omega (arith, same, r.no_later, ltb_false→le _ _ later))
                  | inr e ↦ r.least j v (rw e at q)
                ];
                picked = elim r.picked [
                  | inl e ↦ inl e
                  | inr (sc, (mem, t)) ↦ inr (sc, (Memᴰ.tail mem, t))
                ];
              }))
    ]

-- From a map without the empty server name an eviction picks a server of the map whose last touch is
-- no later than that of any server found in it.
pub eviction_picks_oldest :
    (m : Dict Circuit) (j : String) (v : Circuit)
    → find "" m ≡ none
    → find j m ≡ some v
    → (sc : Circuit) × (Memᴰ ((oldest m ("", 0)).0, sc) m × (sc.last_touched ≤ v.last_touched))
unfolding oldest find
eviction_picks_oldest [] j v h q = absurd (ground (arith, q))
eviction_picks_oldest ((i, w) ∷ m) j v h q =
    let r = oldest-Earliest m (i, w.last_touched) (ground (arith, h)) (ground (arith, h)) in
    let least : (oldest m (i, w.last_touched)).1 ≤ v.last_touched = elim (Bool-cases (str_eq i j)) [
      | inl e ↦ (let same = ap touched_of (rw e at q) in omega (arith, same, r.no_later))
      | inr e ↦ r.least j v (rw e at q)
    ] in
    elim r.picked [
      | inl e ↦
          (let time = ap (λ b. b.1) e in
            (w, (Memᴰ.head (ap (λ b. (b.0, w)) e), omega (arith, time, least))))
      | inr (sc, (mem, t)) ↦ (sc, (Memᴰ.tail mem, omega (arith, t, least)))
    ]
