-- ===== src/KeyCache/Sync.antt =====
-- internal/cluster/messages.go (mergeState) and runtime.go (the apply callback).
use mxkeys_org.Prelude.{
  ℕ, ◌<◌, ◌≤◌, Bool, true, Option, none, some, String, [], ◌∷◌, ltb, ◌&&◌, if◌then◌else◌, Dict, ◌≡◌,
  subst, sym, refl, arith, Bool-cases, inl, inr, str_eq,
}
use mxkeys_org.KeyCache.{
  KeyEntry, Keys, CrdtState, RaftCommand, replaces, get_cached_key, put_newer, merge_server,
  merge_state, ensure_server, handle_sync, on_apply,
}
use mxkeys_org.KeyCache.Register.{is_for, get-put_newer, get-ensure}

-- An entry that is no older than this one.
abbrev pub NoOlder : KeyEntry → Option KeyEntry → Type 0
NoOlder w g = (w' : KeyEntry) × ((g ≡ some w') × (w.timestamp ≤ w'.timestamp))

replaces_newer :
    (b : Bool) (e x : KeyEntry) (g : Option KeyEntry)
    → g ≡ some x
    → (b && replaces e g) ≡ true
    → x.timestamp < e.timestamp
replaces_newer b e x g h c = let c' = rw h at c in ground (arith, c')

put_newer-NoOlder :
    (s k t j : String) (e w : KeyEntry) (keys : Keys)
    → NoOlder w (get_cached_key t j keys)
    → NoOlder w (get_cached_key t j (put_newer s k e keys).0)
put_newer-NoOlder s k t j e w keys (x, h) =
    elim (Bool-cases (is_for s k t j && replaces e (get_cached_key t j keys))) [
      | inl c ↦ (
        e,
        (
          rw (get-put_newer s k t j e keys, c) refl,
          omega (arith, h.1, replaces_newer (is_for s k t j) e x (get_cached_key t j keys) h.0 c),
        ),
      )
      | inr c ↦ (x, (rw (get-put_newer s k t j e keys, c) h.0, h.1))
    ]

merge_server-NoOlder :
    (s t j : String) (remote : Dict (Option KeyEntry)) (w : KeyEntry) (keys : Keys)
    → NoOlder w (get_cached_key t j keys)
    → NoOlder w (get_cached_key t j (merge_server s remote keys))
unfolding merge_server
merge_server-NoOlder s t j [] w keys h = h
merge_server-NoOlder s t j ((k, none) ∷ remote) w keys h =
    merge_server-NoOlder s t j remote w keys h
merge_server-NoOlder s t j ((k, some e) ∷ remote) w keys h =
    merge_server-NoOlder s t j remote w (put_newer s k e keys).0
      (put_newer-NoOlder s k t j e w keys h)

merge_state-NoOlder :
    (t j : String) (remote : Dict (Dict (Option KeyEntry))) (w : KeyEntry) (keys : Keys)
    → NoOlder w (get_cached_key t j keys)
    → NoOlder w (get_cached_key t j (merge_state remote keys))
unfolding merge_state
merge_state-NoOlder t j [] w keys h = h
merge_state-NoOlder t j ((s, byID) ∷ remote) w keys h =
    merge_state-NoOlder t j remote w (merge_server s byID (ensure_server s keys)) (
      merge_server-NoOlder s t j byID w (ensure_server s keys)
        (subst (NoOlder w) (sym (get-ensure s t j keys)) h))

-- Whatever a peer sends as its state, also if it does not decode, a key that was cached before the
-- merge is cached after it, with an entry that is no older.
pub sync_keeps_newest :
    (t j : String) (remote : Option (Dict (Dict (Option KeyEntry)))) (st : CrdtState) (w : KeyEntry)
    → get_cached_key t j st.keys ≡ some w
    → (w' : KeyEntry) × ((get_cached_key t j (handle_sync remote st).keys ≡ some w')
        × (w.timestamp ≤ w'.timestamp))
unfolding handle_sync
sync_keeps_newest t j none st w h = (w, (h, omega arith))
sync_keeps_newest t j (some remote) st w h =
    merge_state-NoOlder t j remote w st.keys (w, (h, omega arith))

-- The callback for a committed log entry moves the count of applied entries to the entry's index if
-- that is higher, and leaves it otherwise, for every command, also one that does not decode.
pub on_apply_counts :
    (index : ℕ) (cmd : Option RaftCommand) (st : CrdtState)
    → (on_apply index cmd st).0.raft_last_applied
      ≡ (if ltb st.raft_last_applied index then index else st.raft_last_applied)
unfolding on_apply
on_apply_counts index none st = ground arith
on_apply_counts index (some cmd) st = elim (Bool-cases (str_eq cmd.type_name "key_update")) [
  | inl e ↦ rw e (ground arith)
  | inr e ↦ rw e (ground arith)
]
