-- ===== src/Breaker/Eviction.antt =====
-- internal/keys/circuitbreaker.go: evictions keep the bound on the servers.
use mxkeys_org.Prelude.{
  ℕ, suc, ◌≤◌, ◌<◌, false, ◌||◌, none, some, String, str_eq, eq_iff, [], ◌∷◌, ltb, leb, length,
  Dict, find, remove, assign, find-remove, find-assign, length-remove, length-remove_found, ◌≡◌,
  ◌≢◌, ◌⊎◌, refl, subst, arith, Bool-cases, inl, inr,
}
use mxkeys_org.Breaker.{
  Circuit, Breaker, store, keep_fresh, cleanup, older, oldest, evict_oldest, make_room,
}
use mxkeys_org.Breaker.Calls.{}
use mxkeys_org.Breaker.Tracking.{find-keep_fresh-none}

-- The bound on the servers, that none of them has the empty name, and the limit of the constructor.
pub record IsBounded (cb : Breaker) : Type 0 where
  pub within : length cb.servers ≤ cb.max_tracked
  pub named : find "" cb.servers ≡ none
  pub limit : cb.max_tracked ≡ 4096

length-keep_fresh :
    (cb : Breaker) (now : ℕ) (m : Dict Circuit) → length (keep_fresh cb now m) ≤ length m
unfolding keep_fresh
length-keep_fresh cb now [] = omega arith
length-keep_fresh cb now ((j, v) ∷ m) = ground (arith, length-keep_fresh cb now m)

pub cleanup-IsBounded : (now : ℕ) (cb : Breaker) → IsBounded cb → IsBounded (cleanup now cb)
unfolding cleanup
cleanup-IsBounded now cb b = record {
  within = omega (arith, b.within, length-keep_fresh cb now cb.servers);
  named = find-keep_fresh-none "" now cb cb.servers b.named;
  limit = b.limit;
}

pub forget-IsBounded :
    (name : String) (cb : Breaker)
    → IsBounded cb
    → IsBounded (record cb { servers = remove name cb.servers })
forget-IsBounded name cb b = record {
  within = omega (arith, b.within, length-remove name cb.servers);
  named = ground (arith, find-remove name "" cb.servers, b.named);
  limit = b.limit;
}

assign-unnamed :
    (name : String) (sc : Circuit) (m : Dict Circuit)
    → name ≢ ""
    → find "" m ≡ none
    → find "" (assign name sc m) ≡ none
assign-unnamed name sc m named h = ground (arith, find-assign name "" sc m, eq_iff name "")

found-named :
    (name : String) (sc : Circuit) (m : Dict Circuit)
    → find name m ≡ some sc
    → find "" m ≡ none
    → name ≢ ""
found-named name sc m h none_named e =
    absurd (ground (arith, h, none_named, subst (λ n. find n m ≡ some sc) e h))

-- A server that has an entry is stored in its place.
pub replace-IsBounded :
    (name : String) (cb : Breaker) (old sc : Circuit)
    → find name cb.servers ≡ some old
    → IsBounded cb
    → IsBounded (store name cb sc)
unfolding assign
replace-IsBounded name cb old sc h b = record {
  within = omega (arith, b.within, length-remove_found name old cb.servers h);
  named = assign-unnamed name sc cb.servers (found-named name old cb.servers h b.named) b.named;
  limit = b.limit;
}

abbrev Holds : String → Dict Circuit → Type 0
Holds name m = (sc : Circuit) × (find name m ≡ some sc)

Holds-cons :
    (name j : String) (v : Circuit) (m : Dict Circuit) → Holds name m → Holds name ((j, v) ∷ m)
unfolding find
Holds-cons name j v m (sc, h) = elim (Bool-cases (str_eq j name)) [
  | inl e ↦ (v, rw e refl)
  | inr e ↦ (sc, rw e h)
]

Holds-head : (j : String) (v : Circuit) (m : Dict Circuit) → Holds j ((j, v) ∷ m)
unfolding find
Holds-head j v m = (v, ground (arith, eq_iff j j))

-- The visit ends with the name it began with or with one of the map's.
oldest-found :
    (m : Dict Circuit) (best : String × ℕ)
    → ((oldest m best).0 ≡ best.0) ⊎ Holds (oldest m best).0 m
unfolding oldest
oldest-found [] best = inl refl
oldest-found ((j, v) ∷ m) best = elim (oldest-found m (older j v best)) [
  | inl e ↦ elim (Bool-cases (str_eq best.0 "" || ltb v.last_touched best.1)) [
    | inl t ↦ inr (rw e (rw t (Holds-head j v m)))
    | inr f ↦ inl (rw e (rw f refl))
  ]
  | inr h ↦ inr (Holds-cons (oldest m (older j v best)).0 j v m h)
]

first_oldest :
    (j : String) (v : Circuit) (m : Dict Circuit)
    → Holds (oldest ((j, v) ∷ m) ("", 0)).0 ((j, v) ∷ m)
unfolding oldest
first_oldest j v m = elim (oldest-found m (j, v.last_touched)) [
  | inl e ↦ rw e (Holds-head j v m)
  | inr h ↦ Holds-cons (oldest m (j, v.last_touched)).0 j v m h
]

oldest_named : (m : Dict Circuit) → find "" m ≡ none → 0 < length m → Holds (oldest m ("", 0)).0 m
oldest_named [] h l = absurd (omega (arith, l))
oldest_named ((j, v) ∷ m) h l = first_oldest j v m

-- An eviction makes room for one entry.
evict_oldest-room :
    (cb : Breaker) → IsBounded cb → suc (length (evict_oldest cb).servers) ≤ cb.max_tracked
unfolding evict_oldest
evict_oldest-room cb b = elim (Bool-cases (ltb 0 (length cb.servers))) [
  | inl l ↦
      (let (sc, h) = oldest_named cb.servers b.named (ground (arith, l)) in
        let name = (oldest cb.servers ("", 0)).0 in
        let named : str_eq name "" ≡ false =
          ground (arith, eq_iff name "", found-named name sc cb.servers h b.named) in
        rw named (omega (arith, length-remove_found name sc cb.servers h, b.within)))
  | inr l ↦ (elim (Bool-cases (str_eq (oldest cb.servers ("", 0)).0 "")) [
    | inl e ↦ rw e (ground (arith, l, b.limit))
    | inr e ↦
        rw e (ground (arith, l, b.limit, length-remove (oldest cb.servers ("", 0)).0 cb.servers))
  ])
]

-- What an eviction leaves of the other fields and of the names.
evict_oldest-frame :
    (cb : Breaker)
    → find "" cb.servers ≡ none
    → (find "" (evict_oldest cb).servers ≡ none) × ((evict_oldest cb).max_tracked ≡ cb.max_tracked)
unfolding evict_oldest
evict_oldest-frame cb h = elim (Bool-cases (str_eq (oldest cb.servers ("", 0)).0 "")) [
  | inl e ↦ rw e (h, refl)
  | inr e ↦ rw e (ground (arith, h, find-remove (oldest cb.servers ("", 0)).0 "" cb.servers), refl)
]

-- A server without an entry is stored after making room.
pub insert-IsBounded :
    (name : String) (cb : Breaker) (sc : Circuit)
    → name ≢ ""
    → find name cb.servers ≡ none
    → IsBounded cb
    → IsBounded (store name (make_room cb) sc)
unfolding assign
insert-IsBounded name cb sc named h b = elim (Bool-cases (leb cb.max_tracked (length cb.servers))) [
  | inl e ↦ rw e (record {
    within = omega (
      arith,
      evict_oldest-room cb b,
      (evict_oldest-frame cb b.named).1,
      length-remove name (evict_oldest cb).servers,
    );
    named =
        assign-unnamed name sc (evict_oldest cb).servers named (evict_oldest-frame cb b.named).0;
    limit = omega (arith, b.limit, (evict_oldest-frame cb b.named).1);
  })
  | inr e ↦ rw e (record {
    within = ground (arith, e, length-remove name cb.servers);
    named = assign-unnamed name sc cb.servers named b.named;
    limit = b.limit;
  })
]
