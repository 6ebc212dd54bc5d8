-- ===== src/Examples/Caches.antt =====
-- Updates of one key of internal/cluster.
use mathlib.Core.List.{Memᴰ}
use mathlib.Core.List.Memᴰ
use mxkeys_org.Prelude.{ℕ, ◌≤◌, ◌≡◌, refl, sym, ◌∙◌, some, String, [], ◌∷◌, arith, find, inl, inr}
use mxkeys_org.KeyCache.{KeyEntry, CrdtState, get_cached_key, handle_sync}
use mxkeys_org.KeyCache.Convergence.{apply_all, same_updates_agree, SameMembers, TimesDiffer}
use mxkeys_org.KeyCache.Sync.{sync_keeps_newest}

abbrev update_at : ℕ → String → KeyEntry
update_at time content = record {
  server_name = "a.org";
  key_id = "ed25519:1";
  key_data = content;
  valid_until_ts = 900;
  timestamp = time;
  node_id = "n1";
  hash = content;
}

abbrev older : KeyEntry
older = update_at 5 "x"

abbrev newer : KeyEntry
newer = update_at 6 "y"

abbrev tied : KeyEntry
tied = update_at 5 "z"

repeated : SameMembers (newer ∷ older ∷ []) (older ∷ newer ∷ older ∷ [])
repeated e = (
  λ m. Memᴰ.tail m,
  λ m. elim (Memᴰ.cases_cons m) [ inl q ↦ Memᴰ.tail (Memᴰ.head q) | inr m' ↦ m' ],
)

apart : TimesDiffer (newer ∷ older ∷ [])
apart e e' m m' s k t = elim (Memᴰ.cases_cons m) [
  | inl q ↦ elim (Memᴰ.cases_cons m') [
    | inl q' ↦ q ∙ sym q'
    | inr r ↦ (let t' = rw (q, Memᴰ.eq_of_singleton r) at t in absurd (omega (arith, t')))
  ]
  | inr r ↦ elim (Memᴰ.cases_cons m') [
    | inl q' ↦ (let t' = rw (q', Memᴰ.eq_of_singleton r) at t in absurd (omega (arith, t')))
    | inr r' ↦ Memᴰ.eq_of_singleton r ∙ sym (Memᴰ.eq_of_singleton r')
  ]
]

same_updates_agree_example :
    get_cached_key "a.org" "ed25519:1" (apply_all (newer ∷ older ∷ []) [])
    ≡ get_cached_key "a.org" "ed25519:1" (apply_all (older ∷ newer ∷ older ∷ []) [])
same_updates_agree_example =
    same_updates_agree "a.org" "ed25519:1" (newer ∷ older ∷ []) (older ∷ newer ∷ older ∷ [])
      repeated apart

abbrev cache : CrdtState
cache = record { keys = ("a.org", ("ed25519:1", newer) ∷ []) ∷ []; raft_last_applied = 4 }

cache_found : get_cached_key "a.org" "ed25519:1" cache.keys ≡ some newer
unfolding get_cached_key find
cache_found = refl

sync_keeps_newest_example :
    (w' : KeyEntry) × ((get_cached_key "a.org" "ed25519:1"
          (handle_sync (some (("a.org", ("ed25519:1", some older) ∷ []) ∷ [])) cache).keys
        ≡ some w')
      × (newer.timestamp ≤ w'.timestamp))
sync_keeps_newest_example =
    sync_keeps_newest "a.org" "ed25519:1" (some (("a.org", ("ed25519:1", some older) ∷ []) ∷ []))
      cache newer cache_found
