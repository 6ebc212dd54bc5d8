-- ===== src/RateLimit/Lru.antt =====
-- internal/server/ratelimit.go: what the cache of visitors promises, on the visitors alone, and how its
-- lists of elements stand for them.
use mxkeys_org.Prelude.{
  ℕ, ◌+◌, ◌≤◌, Bool, not, Option, none, some, String, List, [], ◌∷◌, ltb, leb, if◌then◌else◌,
  length, str_eq, arith, inl, inr, Bool-cases,
}
use mxkeys_org.RateLimit.{Visitor}

-- A list without its last element.
unfoldable pub drop_last {ℓ} : {A : Type ℓ} → List A → List A
drop_last [] = []
drop_last (x ∷ []) = []
drop_last (x ∷ y ∷ ys) = x ∷ drop_last (y ∷ ys)

module _ {L : Type 0} where
  -- The visitors that pass a test.
  unfoldable pub select : (Visitor L → Bool) → List (Visitor L) → List (Visitor L)
  select test [] = []
  select test (v ∷ vs) = let rest = select test vs in if test v then v ∷ rest else rest

  abbrev pub without : String → List (Visitor L) → List (Visitor L)
  without ip = select (λ v. not (str_eq v.ip ip))

  -- Those that were seen within the time to live.
  abbrev pub live : ℕ → ℕ → List (Visitor L) → List (Visitor L)
  live now ttl = select (λ v. not (ltb (v.last_seen + ttl) now))

  unfoldable pub find_visitor : String → List (Visitor L) → Option (Visitor L)
  find_visitor ip [] = none
  find_visitor ip (v ∷ vs) = if str_eq v.ip ip then some v else find_visitor ip vs

  -- The most recent first, and none seen after this time.
  abbrev pub Recent : ℕ → List (Visitor L) → Type 0
  Recent t [] = Unit
  Recent t (v ∷ vs) = (v.last_seen ≤ t) × Recent v.last_seen vs

  pub Recent-later : (t t' : ℕ) (vs : List (Visitor L)) → t ≤ t' → Recent t vs → Recent t' vs
  Recent-later t t' [] h r = r
  Recent-later t t' (v ∷ vs) h r = (omega (arith, h, r.0), r.1)

  pub Recent-select :
      (test : Visitor L → Bool) (t : ℕ) (vs : List (Visitor L))
      → Recent t vs
      → Recent t (select test vs)
  unfolding select
  Recent-select test t [] r = r
  Recent-select test t (v ∷ vs) r = elim (Bool-cases (test v)) [
    | inl keep ↦ rw keep (r.0, Recent-select test v.last_seen vs r.1)
    | inr drop ↦
        rw drop
          (Recent-later v.last_seen t (select test vs) r.0 (Recent-select test v.last_seen vs r.1))
  ]

  unfoldable pub lru_found :
      Option (Visitor L) → Visitor L → ℕ → List (Visitor L) → List (Visitor L)
  unfolding drop_last
  lru_found none fresh room vs = fresh ∷ (if leb room (length vs) then drop_last vs else vs)
  lru_found (some v) fresh room vs = record v { last_seen = fresh.last_seen } ∷ without fresh.ip vs

  -- A visit to a cache of the least recently used kind with room for so many.
  unfoldable pub lru_visit : Visitor L → ℕ → List (Visitor L) → List (Visitor L)
  unfolding lru_found find_visitor
  lru_visit fresh room vs = lru_found (find_visitor fresh.ip vs) fresh room vs
