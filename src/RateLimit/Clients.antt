-- ===== src/RateLimit/Clients.antt =====
-- internal/server/ratelimit.go: getVisitor beside a cache of the least recently used kind.
use mxkeys_org.Prelude.{
  ℕ, suc, ◌≤◌, ◌≡◌, ◌∙◌, refl, sym, ap, subst, Bool, true, false, none, some, String, ◌∷◌, map, leb,
  ◌==◌, if◌then◌else◌, length, get_elem?, get_last, find, str_eq, eq_iff, arith, inl, inr,
  Bool-cases, Option-cases,
}
use mxkeys_org.RateLimit.{
  RatePackage, RateLimiter, Visitor, member, write_at, evict_oldest, see, push_front, evict_if_full,
  new_visitor, visit_found, get_visitor, drop_back, remove_element,
}
use mxkeys_org.RateLimit.Links.{IsLinked-push}
use mxkeys_org.RateLimit.Lru.{
  drop_last, without, find_visitor, Recent, Recent-later, lru_found, lru_visit,
}
use mxkeys_org.RateLimit.Views.{
  length-map, map-drop_last, map-write_absent, own_name, find_visitor_there, find_visitor_absent,
}
use mxkeys_org.RateLimit.Upkeep.{view, name_of, IsSound, IsSound-evict_if_full, order-evict}
use mxkeys_org.RateLimit.Visits.{view-see, IsSound-see, evict_if_full_keeps}

module _ {Limit L : Type 0} where
  heap-evict : (rl : RateLimiter Limit L) → (evict_oldest rl).heap ≡ rl.heap
  unfolding evict_oldest
  heap-evict rl = elim (Option-cases (get_last rl.order)) [
    | inl empty ↦ ap (λ o. (drop_back o rl).heap) empty
    | inr (b, last) ↦ ap (λ o. (drop_back o rl).heap) last
  ]

  view-evict_if_full :
      (t : ℕ) (rl : RateLimiter Limit L)
      → IsSound rl t
      → view (evict_if_full rl)
        ≡ (if leb rl.max_visitors (length (view rl)) then drop_last (view rl) else view rl)
  view-evict_if_full t rl s =
      let as_view : length (view rl) ≡ length rl.order = length-map rl.heap rl.order in
      by_test (leb rl.max_visitors (length rl.order))
      ∙ sym (ap (λ n. if leb rl.max_visitors n then drop_last (view rl) else view rl) as_view)
    where
      by_test :
          (b : Bool)
          → view (if b then evict_oldest rl else rl) ≡ (if b then drop_last (view rl) else view rl)
      by_test true =
          ap (λ heap. map heap (evict_oldest rl).order) (heap-evict rl)
          ∙ ap (map rl.heap) (order-evict t rl s)
          ∙ map-drop_last rl.heap rl.order
      by_test false = refl

  new_first :
      (v : Visitor L) (t : ℕ) (r : RateLimiter Limit L)
      → IsSound r t
      → view (push_front v r) ≡ v ∷ view r
  new_first v t r s =
      let itself : (r.next_element == r.next_element) ≡ true = ground arith in
      ap
        (λ b.
          (if b then v else r.heap r.next_element) ∷ map (write_at r.next_element v r.heap) r.order)
        itself
      ∙ ap (λ l. v ∷ l) (map-write_absent r.next_element v r.heap r.order absent)
    where
      absent : member r.next_element r.order ≡ false
      absent = elim (Bool-cases (member r.next_element r.order)) [
        | inl m ↦ absurd (omega (arith, s.linked.below r.next_element m))
        | inr a ↦ a
      ]

  IsSound-push :
      (v : Visitor L) (t : ℕ) (r : RateLimiter Limit L)
      → t ≤ v.last_seen
      → find v.ip r.visitors ≡ none
      → suc (length r.order) ≤ r.max_visitors
      → IsSound r t
      → IsSound (push_front v r) v.last_seen
  IsSound-push v t r later free room s = record {
    linked =
        IsLinked-push (name_of r) r.visitors r.order r.next_element (name_of (push_front v r)) v.ip
          (λ j. by_test j (j == r.next_element)) free s.linked;
    recent =
        subst (Recent v.last_seen) (sym (new_first v t r s))
          (omega arith, Recent-later t v.last_seen (view r) later s.recent);
    bounded = omega (arith, room);
    roomy = s.roomy;
  }
    where
      by_test :
          (j : ℕ) (b : Bool) → (if b then v else r.heap j).ip ≡ (if b then v.ip else name_of r j)
      by_test j true = refl
      by_test j false = refl

  abbrev pub IsVisit : RateLimiter Limit L → Visitor L → RateLimiter Limit L × ℕ → Type 0
  IsVisit rl fresh after =
      (view after.0 ≡ lru_visit fresh rl.max_visitors (view rl))
      × (get_elem? after.0.order 0 ≡ some after.1)
      × IsSound after.0 fresh.last_seen

  module _ (rate : RatePackage Limit L) (ip : String) (t now : ℕ) (rl : RateLimiter Limit L) where
    known :
        (i : ℕ)
        → find ip rl.visitors ≡ some i
        → t ≤ now
        → IsSound rl t
        → IsVisit rl (new_visitor rate ip now rl) (see now i rl, i)
    unfolding lru_visit lru_found
    known i found later s =
        let (m, named) = s.linked.mapped ip i found in
        let own = own_name rl.heap rl.visitors rl.order rl.next_element i s.linked m in
        let there : find_visitor ip (view rl) ≡ some (rl.heap i) =
          find_visitor_there i ip rl.heap rl.order
            (λ j mj. ap (str_eq (rl.heap j).ip) (sym named) ∙ own j mj) m in
        (
          view-see i now t rl s m
              ∙ ap (λ q. record (rl.heap i) { last_seen = now } ∷ without q (view rl)) named
              ∙ sym (
                  ap (λ o. lru_found o (new_visitor rate ip now rl) rl.max_visitors (view rl))
                    there),
          ap (λ b. get_elem? (if b then i ∷ remove_element i rl.order else rl.order) 0) m,
          IsSound-see i now t rl later s m,
        )

    unknown :
        find ip rl.visitors ≡ none
        → t ≤ now
        → IsSound rl t
        → IsVisit rl
            (new_visitor rate ip now rl)
            (push_front (new_visitor rate ip now rl) (evict_if_full rl), rl.next_element)
    unfolding lru_visit lru_found
    unknown free later s =
        let fresh = new_visitor rate ip now rl in
        let (sound, room) = IsSound-evict_if_full t rl s in
        let (next_same, max_same, heap_same, still_free) = evict_if_full_keeps ip rl free in
        let nowhere : find_visitor ip (view rl) ≡ none =
          find_visitor_absent ip rl.heap rl.order
            (λ j mj. ground (arith, s.linked.listed j mj, free, eq_iff (rl.heap j).ip ip)) in
        (
          new_first fresh t (evict_if_full rl) sound
              ∙ ap (λ l. fresh ∷ l) (view-evict_if_full t rl s)
              ∙ sym (ap (λ o. lru_found o fresh rl.max_visitors (view rl)) nowhere),
          ap some next_same,
          IsSound-push fresh t (evict_if_full rl) later still_free (omega (arith, room, max_same))
              sound,
        )

    -- getVisitor does what a least-recently-used cache of the visitors does: a client that is there moves to the front with
    -- the new time and the two buckets that it had, and any other comes to the front with fresh buckets, in
    -- place of the visitor that was last if the cache is full. It returns the element at the front. The map and the
    -- list agree again, and the bound and the order by time hold, if they did before at a time that is not later.
    pub get_visitor-lru :
        t ≤ now
        → IsSound rl t
        → IsVisit rl (new_visitor rate ip now rl) (get_visitor rate ip now rl)
    unfolding get_visitor
    get_visitor-lru later s = elim (Option-cases (find ip rl.visitors)) [
      | inl free ↦
          subst (λ o. IsVisit rl (new_visitor rate ip now rl) (visit_found rate o ip now rl))
            (sym free) (unknown free later s)
      | inr (i, found) ↦
          subst (λ o. IsVisit rl (new_visitor rate ip now rl) (visit_found rate o ip now rl))
            (sym found) (known i found later s)
    ]
