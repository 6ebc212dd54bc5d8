-- ===== src/Raft.antt =====
-- internal/zero/raft/raft.go: the data of a Raft node and its requests and responses.
-- Locks are not modelled: every handler runs under `n.mu` from its first read to its last write,
-- so a handler is one function of the node. A clock reading is an argument, in nanoseconds.
pub mod LogView
pub mod Persistence
pub mod LogFile
pub mod Vote
pub mod Append
pub mod Election
pub mod Replication
pub mod Snapshots
pub mod Transfer
pub mod SnapshotFile
pub mod Compaction
pub mod Recovery
pub mod Submission
pub mod Steps
use mxkeys_org.Prelude.{ℕ, String, Bool, false, List, [], Dict, Option, none, some}

-- LogEntry; the command is its bytes.
pub record LogEntry : Type 0 where
  pub index : ℕ
  pub term : ℕ
  pub command : List ℕ

-- State
pub data State : Type 0 where
  follower candidate leader : State

-- What a write to the log file comes to: it lands, it fails and changes nothing, or it fails
-- after the file has changed. The file system decides, one outcome for each write.
pub data Outcome : Type 0 where
  landed refused torn : Outcome

-- WAL: the entries that a replay would return, and the outcomes of the writes to come.
pub record Wal : Type 0 where
  pub entries : List LogEntry
  pub outcomes : List Outcome

-- Snapshot: the file raft.snapshot, its data as bytes.
pub record Snapshot : Type 0 where
  pub last_included_index : ℕ
  pub last_included_term : ℕ
  pub content : List ℕ

-- Config, as far as the handlers read it. Times are in nanoseconds.
pub record Config : Type 0 where
  pub node_id : String
  pub peers : List String
  pub election_timeout : ℕ
  pub heartbeat_interval : ℕ
  pub commit_timeout : ℕ

-- Node. `last_contact` is the clock reading at the last contact; `log_offset` is the number of
-- entries that have left the slice. The pending fields hold an incoming snapshot, whether its
-- bytes are in memory or in the spill file. `wal` and `snapshot_file` are what the state directory
-- holds, if there is one.
pub record Node : Type 0 where
  pub config : Config
  pub state : State
  pub current_term : ℕ
  pub voted_for : String
  pub log : List LogEntry
  pub commit_index : ℕ
  pub last_applied : ℕ
  pub log_offset : ℕ
  pub snapshot_index : ℕ
  pub snapshot_term : ℕ
  pub pending_snapshot : List ℕ
  pub pending_snapshot_index : ℕ
  pub pending_snapshot_term : ℕ
  pub pending_snapshot_expected : ℕ
  pub next_index : Dict ℕ
  pub match_index : Dict ℕ
  pub leader_id : String
  pub leader_addr : String
  pub last_contact : ℕ
  pub wal : Option Wal
  pub has_state_dir : Bool
  pub snapshot_file : Option Snapshot

-- NewNode, after its defaults for the timeouts (`Raft.Timing`).
abbrev pub new_node : Config → ℕ → Node
new_node cfg now = record {
  config = cfg;
  state = follower;
  current_term = 0;
  voted_for = "";
  log = [];
  commit_index = 0;
  last_applied = 0;
  log_offset = 0;
  snapshot_index = 0;
  snapshot_term = 0;
  pending_snapshot = [];
  pending_snapshot_index = 0;
  pending_snapshot_term = 0;
  pending_snapshot_expected = 0;
  next_index = [];
  match_index = [];
  leader_id = "";
  leader_addr = "";
  last_contact = now;
  wal = none;
  has_state_dir = false;
  snapshot_file = none;
}

-- RequestVoteRequest and PreVoteRequest have the same fields.
pub record VoteRequest : Type 0 where
  pub term : ℕ
  pub candidate_id : String
  pub last_log_index : ℕ
  pub last_log_term : ℕ

pub record VoteResponse : Type 0 where
  pub term : ℕ
  pub vote_granted : Bool

pub record AppendEntriesRequest : Type 0 where
  pub term : ℕ
  pub leader_id : String
  pub leader_address : String
  pub prev_log_index : ℕ
  pub prev_log_term : ℕ
  pub entries : List LogEntry
  pub leader_commit : ℕ

pub record AppendEntriesResponse : Type 0 where
  pub term : ℕ
  pub success : Bool

pub record InstallSnapshotRequest : Type 0 where
  pub term : ℕ
  pub leader_id : String
  pub leader_address : String
  pub last_included_index : ℕ
  pub last_included_term : ℕ
  pub offset : ℕ
  pub done : Bool
  pub chunk : List ℕ

pub record InstallSnapshotResponse : Type 0 where
  pub term : ℕ
  pub success : Bool
  pub bytes_stored : ℕ
