-- ===== src/RateLimit/Upkeep.antt =====
-- internal/server/ratelimit.go: what every operation keeps of the cache of visitors.
use mxkeys_org.Prelude.{
  ℕ, suc, ◌≤◌, ◌≡◌, ◌∙◌, refl, sym, ap, subst, true, not, none, String, List, [], ◌∷◌, map, leb,
  if◌then◌else◌, length, get_last, str_eq, arith, inl, inr, Bool-cases, Option-cases,
}
use mxkeys_org.RateLimit.{
  RateLimiter, Visitor, member, drop_element, drop_back, evict_oldest, evict_if_full,
}
use mxkeys_org.RateLimit.Links.{IsLinked, IsLinked-drop}
use mxkeys_org.RateLimit.Lru.{drop_last, without, Recent, Recent-later, Recent-select}
use mxkeys_org.RateLimit.Views.{
  length-remove_element, length-drop_last, get_last-member, get_last-found, remove_element_last,
  map-remove_element, own_name,
}

module _ {Limit L : Type 0} where
  -- The visitors, the most recent first.
  abbrev pub view : RateLimiter Limit L → List (Visitor L)
  view rl = map rl.heap rl.order

  abbrev pub name_of : RateLimiter Limit L → ℕ → String
  name_of rl i = (rl.heap i).ip

  -- The map and the list agree, the list is in the order of the times, and there are no more visitors than allowed.
  pub record IsSound (rl : RateLimiter Limit L) (t : ℕ) : Type 0 where
    pub linked : IsLinked (name_of rl) rl.visitors rl.order rl.next_element
    pub recent : Recent t (view rl)
    pub bounded : length rl.order ≤ rl.max_visitors
    pub roomy : 1 ≤ rl.max_visitors

  pub view-drop :
      (i t : ℕ) (rl : RateLimiter Limit L)
      → IsSound rl t
      → member i rl.order ≡ true
      → view (drop_element i rl) ≡ without (rl.heap i).ip (view rl)
  view-drop i t rl s m =
      map-remove_element i (rl.heap i).ip rl.heap rl.order
        (own_name rl.heap rl.visitors rl.order rl.next_element i s.linked m)

  pub IsSound-drop :
      (i t : ℕ) (rl : RateLimiter Limit L)
      → IsSound rl t
      → member i rl.order ≡ true
      → IsSound (drop_element i rl) t
  IsSound-drop i t rl s m = record {
    linked = IsLinked-drop (name_of rl) rl.visitors rl.order rl.next_element i s.linked m;
    recent =
        subst (Recent t) (sym (view-drop i t rl s m))
          (Recent-select (λ v. not (str_eq v.ip (rl.heap i).ip)) t (view rl) s.recent);
    bounded = omega (arith, s.bounded, length-remove_element i rl.order);
    roomy = s.roomy;
  }

  pub IsSound-later : (t t' : ℕ) (rl : RateLimiter Limit L) → t ≤ t' → IsSound rl t → IsSound rl t'
  IsSound-later t t' rl h s = record {
    linked = s.linked;
    recent = Recent-later t t' (view rl) h s.recent;
    bounded = s.bounded;
    roomy = s.roomy;
  }

  -- Eviction removes the last visitor.
  pub order-evict :
      (t : ℕ) (rl : RateLimiter Limit L)
      → IsSound rl t
      → (evict_oldest rl).order ≡ drop_last rl.order
  unfolding evict_oldest drop_last
  order-evict t rl s = elim (Option-cases (get_last rl.order)) [
    | inl empty ↦ ap (λ o. (drop_back o rl).order) empty ∙ of_empty rl.order empty
    | inr (b, last) ↦
        ap (λ o. (drop_back o rl).order) last
        ∙ remove_element_last rl.order b s.linked.distinct last
  ]
    where
      of_empty : (is : List ℕ) → get_last is ≡ none → is ≡ drop_last is
      of_empty [] h = refl
      of_empty (x ∷ []) h = absurd (ground (arith, h))
      of_empty (x ∷ y ∷ ys) h = absurd (get_last-found y ys h)

  pub IsSound-evict :
      (t : ℕ) (rl : RateLimiter Limit L) → IsSound rl t → IsSound (evict_oldest rl) t
  unfolding evict_oldest
  IsSound-evict t rl s = elim (Option-cases (get_last rl.order)) [
    | inl empty ↦ subst (λ o. IsSound (drop_back o rl) t) (sym empty) s
    | inr (b, last) ↦
        subst (λ o. IsSound (drop_back o rl) t) (sym last)
          (IsSound-drop b t rl s (get_last-member rl.order b last))
  ]

  pub IsSound-evict_if_full :
      (t : ℕ) (rl : RateLimiter Limit L)
      → IsSound rl t
      → IsSound (evict_if_full rl) t × (suc (length (evict_if_full rl).order) ≤ rl.max_visitors)
  IsSound-evict_if_full t rl s = elim (Bool-cases (leb rl.max_visitors (length rl.order))) [
    | inl full ↦
        subst
          (λ b.
            IsSound (if b then evict_oldest rl else rl) t
            × (suc (length (if b then evict_oldest rl else rl).order) ≤ rl.max_visitors))
          (sym full)
          (
            IsSound-evict t rl s,
            omega (
              arith,
              ap length (order-evict t rl s),
              length-drop_last rl.order,
              s.bounded,
              s.roomy,
            ),
          )
    | inr free ↦
        subst
          (λ b.
            IsSound (if b then evict_oldest rl else rl) t
            × (suc (length (if b then evict_oldest rl else rl).order) ≤ rl.max_visitors))
          (sym free) (s, ground (arith, free))
  ]
