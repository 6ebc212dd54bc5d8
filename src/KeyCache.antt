-- ===== src/KeyCache.antt =====
-- internal/cluster: the cache of keys that the nodes share, a last-writer-wins map (state.go,
-- mergeState and the handlers of messages.go, the apply callback of runtime.go, snapshot.go).
-- Timestamps are numbers; `none` as a payload is one that does not decode. A map of the cache never
-- holds nil, a map from a peer may.
pub mod Register
pub mod Convergence
pub mod Sync
use mxkeys_org.Prelude.{
  ℕ, ◌<◌, Bool, true, false, Option, none, some, String, str_eq, List, [], ◌∷◌, ltb, ◌==◌,
  if◌then◌else◌, Dict, find, assign,
}

pub record KeyEntry : Type 0 where
  pub server_name : String
  pub key_id : String
  pub key_data : String
  pub valid_until_ts : ℕ
  pub timestamp : ℕ
  pub node_id : String
  pub hash : String

abbrev pub Keys : Type 0
Keys = Dict (Dict KeyEntry)

-- CRDTState
pub record CrdtState : Type 0 where
  pub keys : Keys
  pub raft_last_applied : ℕ

-- The inner map of a server, empty where Go reads a nil map.
abbrev pub or_empty : Option (Dict KeyEntry) → Dict KeyEntry
or_empty none = []
or_empty (some byID) = byID

abbrev pub keys_of : String → Keys → Dict KeyEntry
keys_of server_name keys = or_empty (find server_name keys)

abbrev pub ensure_found : String → Keys → Option (Dict KeyEntry) → Keys
ensure_found server_name keys none = assign server_name [] keys
ensure_found server_name keys (some byID) = keys

-- "if _, ok := keys[serverName]; !ok { keys[serverName] = make(...) }"
unfoldable pub ensure_server : String → Keys → Keys
ensure_server server_name keys = ensure_found server_name keys (find server_name keys)

abbrev pub put : String → String → KeyEntry → Keys → Keys
put server_name key_id entry keys =
    assign server_name (assign key_id entry (keys_of server_name keys)) keys

abbrev pub replaces : KeyEntry → Option KeyEntry → Bool
replaces entry none = true
replaces entry (some existing) = ltb existing.timestamp entry.timestamp

-- The comparison and the write that applyEntryLocked and mergeState have in common.
abbrev pub put_newer : String → String → KeyEntry → Keys → Keys × Bool
put_newer server_name key_id entry keys =
    if replaces entry (find key_id (keys_of server_name keys))
    then (put server_name key_id entry keys, true)
    else (keys, false)

-- applyEntryLocked
unfoldable pub apply_entry : KeyEntry → Keys → Keys × Bool
unfolding ensure_server
apply_entry entry keys =
    put_newer entry.server_name entry.key_id entry (ensure_server entry.server_name keys)

-- GetCachedKey
unfoldable pub get_cached_key : String → String → Keys → Option KeyEntry
get_cached_key server_name key_id keys = find key_id (keys_of server_name keys)

-- The inner loop of mergeState.
unfoldable pub merge_server : String → Dict (Option KeyEntry) → Keys → Keys
merge_server server_name [] keys = keys
merge_server server_name ((key_id, none) ∷ remote) keys = merge_server server_name remote keys
merge_server server_name ((key_id, some entry) ∷ remote) keys =
    merge_server server_name remote (put_newer server_name key_id entry keys).0

-- mergeState
unfoldable pub merge_state : Dict (Dict (Option KeyEntry)) → Keys → Keys
unfolding merge_server ensure_server
merge_state [] keys = keys
merge_state ((server_name, byID) ∷ remote) keys =
    merge_state remote (merge_server server_name byID (ensure_server server_name keys))

-- handleSync
unfoldable pub handle_sync : Option (Dict (Dict (Option KeyEntry))) → CrdtState → CrdtState
handle_sync none st = st
handle_sync (some remote) st = record st { keys = merge_state remote st.keys }

-- handleKeyUpdate; the flag says whether the callback for received keys is told.
unfoldable pub handle_key_update : Option KeyEntry → CrdtState → CrdtState × Bool
unfolding apply_entry
handle_key_update none st = (st, false)
handle_key_update (some entry) st =
    let (keys, changed) = apply_entry entry st.keys in (record st { keys = keys }, changed)

-- raftCommand
pub record RaftCommand : Type 0 where
  pub type_name : String
  pub entry : Option KeyEntry

abbrev pub apply_optional : Option KeyEntry → Keys → Keys × Bool
apply_optional none keys = (keys, false)
apply_optional (some entry) keys = apply_entry entry keys

abbrev pub bump : ℕ → CrdtState → CrdtState
bump index st =
    if ltb st.raft_last_applied index then record st { raft_last_applied = index } else st

-- The callback of SetOnApply, for a log entry of this index and its decoded command.
unfoldable pub on_apply : ℕ → Option RaftCommand → CrdtState → CrdtState × Bool
unfolding apply_entry
on_apply index none st = (bump index st, false)
on_apply index (some cmd) st =
    if str_eq cmd.type_name "key_update"
    then (let (keys, changed) = apply_optional cmd.entry st.keys in
        (bump index (record st { keys = keys }), changed))
    else (bump index st, false)
