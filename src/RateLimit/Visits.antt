-- ===== src/RateLimit/Visits.antt =====
-- internal/server/ratelimit.go: getVisitor and the buckets, as operations of an LRU cache.
use mxkeys_org.Prelude.{
  ℕ, suc, ◌≤◌, ◌≡◌, ◌∙◌, refl, sym, ap, subst, Bool, true, false, not, Option, none, some, String,
  List, [], ◌∷◌, map, leb, ◌==◌, ==_iff, if◌then◌else◌, length, get_last, find, find-remove, str_eq,
  arith, inl, inr, Bool-cases,
}
use mxkeys_org.RateLimit.{
  RateLimiter, Visitor, member, remove_element, move_to_front, write_at, drop_back, evict_oldest,
  see, evict_if_full,
}
use mxkeys_org.RateLimit.Links.{IsLinked, IsLinked-move, IsLinked-rename, member-remove_element}
use mxkeys_org.RateLimit.Lru.{without, Recent, Recent-later, Recent-select}
use mxkeys_org.RateLimit.Views.{
  length-remove_element, map-write_absent, map-remove_element, own_name, Recent-map,
}
use mxkeys_org.RateLimit.Upkeep.{view, name_of, IsSound}

module _ {Limit L : Type 0} where
  -- A write that keeps the client and its time.
  pub IsSound-write :
      (i t : ℕ) (v : Visitor L) (rl : RateLimiter Limit L)
      → v.ip ≡ (rl.heap i).ip
      → v.last_seen ≡ (rl.heap i).last_seen
      → IsSound rl t
      → IsSound (record rl { heap = write_at i v rl.heap }) t
  IsSound-write i t v rl name time s = record {
    linked =
        IsLinked-rename (name_of rl) rl.visitors rl.order rl.next_element
          (λ j. (write_at i v rl.heap j).ip) named s.linked;
    recent = Recent-map rl.heap (write_at i v rl.heap) t rl.order timed s.recent;
    bounded = s.bounded;
    roomy = s.roomy;
  }
    where
      named : (j : ℕ) → (write_at i v rl.heap j).ip ≡ (rl.heap j).ip
      named j = elim (Bool-cases (j == i)) [
        | inl own ↦
            ap (λ b. (if b then v else rl.heap j).ip) own
            ∙ name
            ∙ ap (λ k. (rl.heap k).ip) (sym ((==_iff j i).0 own))
        | inr other ↦ ap (λ b. (if b then v else rl.heap j).ip) other
      ]

      timed : (j : ℕ) → (write_at i v rl.heap j).last_seen ≡ (rl.heap j).last_seen
      timed j = elim (Bool-cases (j == i)) [
        | inl own ↦
            ap (λ b. (if b then v else rl.heap j).last_seen) own
            ∙ time
            ∙ ap (λ k. (rl.heap k).last_seen) (sym ((==_iff j i).0 own))
        | inr other ↦ ap (λ b. (if b then v else rl.heap j).last_seen) other
      ]

  pub view-see :
      (i now t : ℕ) (rl : RateLimiter Limit L)
      → IsSound rl t
      → member i rl.order ≡ true
      → view (see now i rl)
        ≡ record (rl.heap i) { last_seen = now } ∷ without (rl.heap i).ip (view rl)
  view-see i now t rl s m =
      let v = record (rl.heap i) { last_seen = now } in
      let itself : (i == i) ≡ true = ground arith in
      ap (λ b. map (write_at i v rl.heap) (if b then i ∷ remove_element i rl.order else rl.order)) m
      ∙ ap
          (λ b.
            (if b then v else rl.heap i) ∷ map (write_at i v rl.heap) (remove_element i rl.order))
          itself
      ∙ ap (λ l. v ∷ l)
          (map-write_absent i v rl.heap (remove_element i rl.order)
            (ground (arith, member-remove_element i i rl.order)))
      ∙ ap (λ l. v ∷ l)
          (map-remove_element i (rl.heap i).ip rl.heap rl.order
            (own_name rl.heap rl.visitors rl.order rl.next_element i s.linked m))

  pub IsSound-see :
      (i now t : ℕ) (rl : RateLimiter Limit L)
      → t ≤ now
      → IsSound rl t
      → member i rl.order ≡ true
      → IsSound (see now i rl) now
  IsSound-see i now t rl later s m = record {
    linked =
        IsLinked-rename (name_of rl) rl.visitors (move_to_front i rl.order) rl.next_element
          (name_of (see now i rl)) named
          (subst (λ order. IsLinked (name_of rl) rl.visitors order rl.next_element) (sym front)
            (IsLinked-move (name_of rl) rl.visitors rl.order rl.next_element i s.linked m));
    recent = subst (Recent now) (sym (view-see i now t rl s m)) (
      omega arith,
      Recent-select (λ v. not (str_eq v.ip (rl.heap i).ip)) now (view rl)
          (Recent-later t now (view rl) later s.recent),
    );
    bounded = omega (arith, s.bounded, ap length front, removed_shorter rl.order m);
    roomy = s.roomy;
  }
    where
      front : move_to_front i rl.order ≡ i ∷ remove_element i rl.order
      front = ap (λ b. if b then i ∷ remove_element i rl.order else rl.order) m

      named : (j : ℕ) → name_of (see now i rl) j ≡ name_of rl j
      named j = elim (Bool-cases (j == i)) [
        | inl own ↦
            ap (λ b. (if b then record (rl.heap i) { last_seen = now } else rl.heap j).ip) own
            ∙ ap (λ k. (rl.heap k).ip) (sym ((==_iff j i).0 own))
        | inr other ↦
            ap (λ b. (if b then record (rl.heap i) { last_seen = now } else rl.heap j).ip) other
      ]

      removed_shorter :
          (is : List ℕ) → member i is ≡ true → suc (length (remove_element i is)) ≤ length is
      removed_shorter [] h = absurd (ground (arith, h))
      removed_shorter (j ∷ is) h = elim (Bool-cases (j == i)) [
        | inl own ↦ ground (arith, own, length-remove_element i is)
        | inr other ↦ ground (arith, other, removed_shorter is (ground (arith, h, other)))
      ]

  -- What making room leaves alone.
  pub evict_if_full_keeps :
      (ip : String) (rl : RateLimiter Limit L)
      → find ip rl.visitors ≡ none
      → ((evict_if_full rl).next_element ≡ rl.next_element)
        × ((evict_if_full rl).max_visitors ≡ rl.max_visitors)
        × ((evict_if_full rl).heap ≡ rl.heap)
        × (find ip (evict_if_full rl).visitors ≡ none)
  unfolding evict_oldest
  evict_if_full_keeps ip rl free = by_test (leb rl.max_visitors (length rl.order))
    where
      Kept : RateLimiter Limit L → Type 0
      Kept after =
          (after.next_element ≡ rl.next_element)
          × (after.max_visitors ≡ rl.max_visitors)
          × (after.heap ≡ rl.heap)
          × (find ip after.visitors ≡ none)

      by_back : (o : Option ℕ) → Kept (drop_back o rl)
      by_back none = (refl, refl, refl, free)
      by_back (some b) =
          (refl, refl, refl, ground (arith, find-remove (rl.heap b).ip ip rl.visitors, free))

      by_test : (b : Bool) → Kept (if b then evict_oldest rl else rl)
      by_test true = by_back (get_last rl.order)
      by_test false = (refl, refl, refl, free)
