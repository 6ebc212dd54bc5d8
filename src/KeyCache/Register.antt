-- ===== src/KeyCache/Register.antt =====
-- internal/cluster/state.go: a key of the cache as a register that the last writer wins.
use mxkeys_org.Prelude.{
  Bool, true, none, some, String, str_eq, eq_iff, [], ◌&&◌, if◌then◌else◌, find, assign,
  find-assign, ◌≡◌, subst, sym, refl, arith, Bool-cases, Option-cases, inl, inr,
}
use mxkeys_org.KeyCache.{
  KeyEntry, Keys, keys_of, ensure_server, put, put_newer, replaces, apply_entry, get_cached_key,
}

abbrev pub is_for : String → String → String → String → Bool
is_for s k s' k' = str_eq s s' && str_eq k k'

pub both : (a b : Bool) → (a && b) ≡ true → (a ≡ true) × (b ≡ true)
both a b h = ground (arith, h)

pub get-ensure :
    (s t k : String) (keys : Keys)
    → get_cached_key t k (ensure_server s keys) ≡ get_cached_key t k keys
unfolding get_cached_key ensure_server find
get-ensure s t k keys = elim (Option-cases (find s keys)) [
  | inl h ↦
      rw (h, find-assign s t [] keys)
        (elim (Bool-cases (str_eq s t)) [
          | inl e ↦ rw (e, subst (λ x. find x keys ≡ none) ((eq_iff s t).0 e) h) refl
          | inr e ↦ rw e refl
        ])
  | inr (m, h) ↦ rw h refl
]

get-put :
    (s k t j : String) (e : KeyEntry) (keys : Keys)
    → get_cached_key t j (put s k e keys)
      ≡ (if is_for s k t j then some e else get_cached_key t j keys)
unfolding get_cached_key
get-put s k t j e keys =
    rw (find-assign s t (assign k e (keys_of s keys)) keys) (elim (Bool-cases (str_eq s t)) [
      | inl same ↦ rw (same, find-assign k j e (keys_of s keys), (eq_iff s t).0 same) refl
      | inr other ↦ rw other refl
    ])

get-same :
    (s k t j : String) (keys : Keys)
    → is_for s k t j ≡ true
    → get_cached_key s k keys ≡ get_cached_key t j keys
get-same s k t j keys same =
    let (a, b) = both (str_eq s t) (str_eq k j) same in rw ((eq_iff s t).0 a, (eq_iff k j).0 b) refl

pub get-put_newer :
    (s k t j : String) (e : KeyEntry) (keys : Keys)
    → get_cached_key t j (put_newer s k e keys).0 ≡ (
        if is_for s k t j && replaces e (get_cached_key t j keys)
        then some e
        else get_cached_key t j keys)
unfolding get_cached_key
get-put_newer s k t j e keys = elim (Bool-cases (is_for s k t j)) [
  | inl same ↦ (elim (Bool-cases (replaces e (get_cached_key s k keys))) [
    | inl r ↦ rw (r, get-put s k t j e keys, same, sym (get-same s k t j keys same), r) refl
    | inr r ↦ rw (r, same, sym (get-same s k t j keys same), r) refl
  ])
  | inr other ↦ (elim (Bool-cases (replaces e (get_cached_key s k keys))) [
    | inl r ↦ rw (r, get-put s k t j e keys, other) refl
    | inr r ↦ rw (r, other) refl
  ])
]

-- After a key update the cache holds, for each server and key, the new entry if it is for them and
-- there was none or one with an older timestamp, and otherwise what it held.
pub cached_after_update :
    (t j : String) (e : KeyEntry) (keys : Keys)
    → get_cached_key t j (apply_entry e keys).0 ≡ (
        if is_for e.server_name e.key_id t j && replaces e (get_cached_key t j keys)
        then some e
        else get_cached_key t j keys)
unfolding apply_entry
cached_after_update t j e keys =
    rw (sym (get-ensure e.server_name t j keys))
      (get-put_newer e.server_name e.key_id t j e (ensure_server e.server_name keys))
