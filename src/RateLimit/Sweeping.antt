-- ===== src/RateLimit/Sweeping.antt =====
-- internal/server/ratelimit.go: cleanup, which stops at the first visitor that is young enough.
use mathlib.Core.List.{reverse, reverse-cons, reverse-reverse}
use mxkeys_org.Prelude.{
  ℕ, ◌+◌, ◌≤◌, ◌≡◌, ◌∙◌, refl, sym, ap, subst, Bool, true, false, not, ◌||◌, List, [], ◌∷◌, ◌++◌,
  map, ltb, ◌==◌, if◌then◌else◌, arith, inl, inr, Bool-cases,
}
use mxkeys_org.RateLimit.{
  RateLimiter, Visitor, member, remove_element, drop_element, sweep, cleanup,
}
use mxkeys_org.RateLimit.Links.{Distinct}
use mxkeys_org.RateLimit.Lru.{select, live, Recent}
use mxkeys_org.RateLimit.Upkeep.{view, IsSound, IsSound-drop}

member-append : (i : ℕ) (is js : List ℕ) → member i (is ++ js) ≡ (member i is || member i js)
member-append i [] js = refl
member-append i (k ∷ is) js = ground (arith, member-append i is js)

remove_element_back :
    (is : List ℕ) (b : ℕ) → Distinct (is ++ b ∷ []) → remove_element b (is ++ b ∷ []) ≡ is
remove_element_back [] b d = ground arith
remove_element_back (x ∷ is) b d =
    let other : (x == b) ≡ false = ground (arith, d.0, member-append x is (b ∷ [])) in
    ap (λ c. if c then remove_element b (is ++ b ∷ []) else x ∷ remove_element b (is ++ b ∷ []))
      other
    ∙ ap (λ l. x ∷ l) (remove_element_back is b d.1)

module _ {L : Type 0} where
  map_snoc :
      (heap : ℕ → Visitor L) (is : List ℕ) (b : ℕ)
      → map heap (is ++ b ∷ []) ≡ map heap is ++ heap b ∷ []
  map_snoc heap [] b = refl
  map_snoc heap (x ∷ is) b = ap (λ l. heap x ∷ l) (map_snoc heap is b)

  select_dropped :
      (test : Visitor L → Bool) (vs : List (Visitor L)) (v : Visitor L)
      → test v ≡ false
      → select test (vs ++ v ∷ []) ≡ select test vs
  unfolding select
  select_dropped test [] v h = ap (λ b. if b then v ∷ [] else []) h
  select_dropped test (x ∷ vs) v h =
      ap (λ l. if test x then x ∷ l else l) (select_dropped test vs v h)

  -- If the last visitor is young enough, all are.
  live_all :
      (now ttl t : ℕ) (vs : List (Visitor L)) (v : Visitor L)
      → Recent t (vs ++ v ∷ [])
      → ltb (v.last_seen + ttl) now ≡ false
      → (live now ttl (vs ++ v ∷ []) ≡ vs ++ v ∷ []) × (v.last_seen ≤ t)
  unfolding select
  live_all now ttl t [] v r young = (ap (λ b. if not b then v ∷ [] else []) young, r.0)
  live_all now ttl t (x ∷ vs) v r young =
      let (rest, newer) = live_all now ttl x.last_seen vs v r.1 young in
      let kept : ltb (x.last_seen + ttl) now ≡ false = ground (arith, young, newer) in
      (
        ap (λ b. if not b then x ∷ live now ttl (vs ++ v ∷ []) else live now ttl (vs ++ v ∷ []))
              kept
            ∙ ap (λ l. x ∷ l) rest,
        omega (arith, newer, r.0),
      )

module _ {Limit L : Type 0} (now t : ℕ) where
  abbrev pub IsSwept : RateLimiter Limit L → RateLimiter Limit L → Type 0
  IsSwept rl after = (view after ≡ live now rl.idle_ttl (view rl)) × IsSound after t

  sweep_live :
      (els : List ℕ) (rl : RateLimiter Limit L)
      → rl.order ≡ reverse els
      → IsSound rl t
      → IsSwept rl (sweep now els rl)
  unfolding sweep select
  sweep_live [] rl all s = (nothing rl.order all, s)
    where
      nothing :
          (order : List ℕ)
          → order ≡ []
          → map rl.heap order ≡ live now rl.idle_ttl (map rl.heap order)
      nothing [] e = refl
      nothing (i ∷ is) e = absurd (ground (arith, e))
  sweep_live (i ∷ els) rl all s =
      let split : rl.order ≡ reverse els ++ i ∷ [] = all ∙ reverse-cons i els in
      let there : member i rl.order ≡ true =
        ap (member i) split ∙ member-append i (reverse els) (i ∷ []) ∙ ground arith in
      let shown : view rl ≡ map rl.heap (reverse els) ++ rl.heap i ∷ [] =
        ap (map rl.heap) split ∙ map_snoc rl.heap (reverse els) i in
      elim (Bool-cases (ltb ((rl.heap i).last_seen + rl.idle_ttl) now)) [
        | inl idle ↦
            let gone : (drop_element i rl).order ≡ reverse els =
              ap (remove_element i) split
              ∙ remove_element_back (reverse els) i (subst Distinct split s.linked.distinct) in
            let (swept, sound) =
              sweep_live els (drop_element i rl) gone (IsSound-drop i t rl s there) in
            subst (λ b. IsSwept rl (if not b then rl else sweep now els (drop_element i rl)))
              (sym idle)
              (
                swept
                    ∙ ap (λ l. live now rl.idle_ttl (map rl.heap l)) gone
                    ∙ sym (
                        ap (live now rl.idle_ttl) shown
                        ∙ select_dropped (λ v. not (ltb (v.last_seen + rl.idle_ttl) now))
                            (map rl.heap (reverse els)) (rl.heap i) (ap not idle)),
                sound,
              )
        | inr young ↦
            let ordered = subst (Recent t) shown s.recent in
            subst (λ b. IsSwept rl (if not b then rl else sweep now els (drop_element i rl)))
              (sym young)
              (
                shown
                    ∙ sym
                        (live_all now rl.idle_ttl t (map rl.heap (reverse els)) (rl.heap i) ordered
                          young).0
                    ∙ sym (ap (live now rl.idle_ttl) shown),
                s,
              )
      ]

  -- cleanup, which stops at the first visitor from the back that is young enough, keeps exactly the visitors that were
  -- seen within the time to live, in their order, and the map and the list agree again, if they did before
  -- and the visitors were in the order of their times.
  pub cleanup-live : (rl : RateLimiter Limit L) → IsSound rl t → IsSwept rl (cleanup now rl)
  unfolding cleanup
  cleanup-live rl s = sweep_live (reverse rl.order) rl (sym (reverse-reverse rl.order)) s
