-- ===== src/Raft/Recovery.antt =====
-- internal/zero/raft/persistence.go: LoadFromDisk, on a node that NewNode and SetStateDir have made.
pub mod Restart
pub mod Mirror
use mxkeys_org.Prelude.{
  ℕ, Bool, true, false, not, ◌&&◌, Option, none, some, List, [], ◌∷◌, ◌++◌, ltb, leb, ◌==◌,
  if◌then◌else◌, length,
}
use mxkeys_org.Raft.{LogEntry, Node, Wal, Snapshot, new_node}
use mxkeys_org.Raft.Snapshots.{Verdict, failed, read}

-- How ReadAll ends: all records, a record that is corrupt behind the well-formed ones, or another
-- error, to which a record with a wrong HMAC counts.
pub data ReadEnd : Type 0 where
  whole corrupt unreadable : ReadEnd

-- The snapshot file as LoadSnapshotReader finds it.
pub data SnapshotEnd : Type 0 where
  missing : SnapshotEnd
  damaged : SnapshotEnd
  present : Snapshot → SnapshotEnd

pub data LoadError : Type 0 where
  snapshot_error installer_required wal_error install_error short_read : LoadError

-- A node, or the error with which the node stays as it was.
pub data Loaded : Type 0 where
  loaded : Node → Loaded
  refused : LoadError → Loaded

abbrev pub max_term : ℕ → ℕ → ℕ
max_term a b = if ltb a b then b else a

abbrev pub with_snapshot : Snapshot → Node → Node
with_snapshot s n = record n {
  snapshot_index = s.last_included_index;
  snapshot_term = s.last_included_term;
  log_offset = s.last_included_index;
  commit_index = s.last_included_index;
  last_applied = s.last_included_index;
  current_term = max_term n.current_term s.last_included_term;
}

-- The loop over the replayed records.
unfoldable pub replay : List LogEntry → Node → Node
replay [] n = n
replay (e ∷ es) n = replay es (
    if leb e.index n.snapshot_index
    then n
    else record n { log = n.log ++ e ∷ []; current_term = max_term n.current_term e.term })

abbrev wal_entries : Option Wal → List LogEntry
wal_entries none = []
wal_entries (some w) = w.entries

abbrev wal_unreadable : ReadEnd → Option Wal → Bool
wal_unreadable end none = false
wal_unreadable whole (some w) = false
wal_unreadable corrupt (some w) = false
wal_unreadable unreadable (some w) = true

abbrev finish_load : Verdict → SnapshotEnd → Node → Loaded
finish_load verdict missing n = loaded (replay (wal_entries n.wal) n)
finish_load verdict damaged n = refused snapshot_error
finish_load failed (present s) n = refused install_error
finish_load (read count) (present s) n =
    if count == length s.content
    then loaded (replay (wal_entries n.wal) (with_snapshot s n))
    else refused short_read

abbrev is_present : SnapshotEnd → Bool
is_present missing = false
is_present damaged = false
is_present (present s) = true

abbrev is_damaged : SnapshotEnd → Bool
is_damaged missing = false
is_damaged damaged = true
is_damaged (present s) = false

unfoldable pub load_from_disk : Bool → SnapshotEnd → ReadEnd → Verdict → Node → Loaded
unfolding replay
load_from_disk has_installer file end verdict n =
    if not n.has_state_dir
    then loaded n
    else if is_damaged file
    then refused snapshot_error
    else if is_present file && not has_installer
    then refused installer_required
    else if wal_unreadable end n.wal
    then refused wal_error
    else finish_load verdict file n

abbrev pub file_end : Option Snapshot → SnapshotEnd
file_end none = missing
file_end (some s) = present s

-- A process that comes back over the same state directory: what was in memory alone is gone.
abbrev pub restart : ℕ → Node → Node
restart now n = record (new_node n.config now) {
  wal = n.wal;
  has_state_dir = n.has_state_dir;
  snapshot_file = n.snapshot_file;
}
