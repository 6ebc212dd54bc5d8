-- ===== src/Raft/Steps.antt =====
-- The transitions of one Raft node (internal/zero/raft): every critical section that changes the node, in
-- any order, with any clock, any messages and any outcomes of the file writes.
pub mod Progress
pub mod Handlers
pub mod Writes
pub mod Votes
use mxkeys_org.Prelude.{ℕ, suc, ◌+◌, ◌≤◌, ◌<◌, ◌^◌, ◌≡◌, Bool, Option, none, some, String, List}
use mxkeys_org.Raft.{
  LogEntry, Node, VoteRequest, VoteResponse, AppendEntriesRequest, AppendEntriesResponse,
  InstallSnapshotRequest, InstallSnapshotResponse, Snapshot,
}
use mxkeys_org.Raft.Persistence.{persist_entry}
use mxkeys_org.Raft.Vote.{handle_request_vote}
use mxkeys_org.Raft.Append.{handle_append_entries}
use mxkeys_org.Raft.Election.{campaign, claim_leadership, receive_vote}
use mxkeys_org.Raft.Replication.{receive_append, update_commit_index, apply_round}
use mxkeys_org.Raft.Snapshots.{Spill, receive_snapshot, adopt_snapshot}
use mxkeys_org.Raft.Compaction.{Captured, compact_log}
use mxkeys_org.Raft.Submission.{reserve, take_back}
use mxkeys_org.Raft.Transfer.{exchange_snapshot_chunk, advance_peer}

pub data Step (n : Node) : Node → Type 0 where
  vote : (now : ℕ) (msg : Option VoteRequest) → Step n (handle_request_vote now msg n).0
  append :
      (now : ℕ) (msg : Option AppendEntriesRequest) → Step n (handle_append_entries now msg n).0
  chunk :
      (now : ℕ) (has_installer : Bool) (spill : Spill) (msg : Option InstallSnapshotRequest)
      → Step n (receive_snapshot now has_installer spill msg n).0
  adopt : (index term : ℕ) (content : List ℕ) → Step n (adopt_snapshot index term content n)
  election : (now : ℕ) → n.current_term + 1 < 2 ^ 64 → Step n (campaign now n)
  claim : (term : ℕ) → Step n (claim_leadership term n)
  ballot : (answer : Option VoteResponse) → Step n (receive_vote answer n).0
  acknowledgement :
      (peer : String) (term next sent : ℕ) (answer : Option AppendEntriesResponse)
      → Step n (receive_append peer term next sent answer n)
  compaction :
      (has_provider saved : Bool) (captured : Option Captured)
      → Step n (compact_log has_provider saved captured n).0
  reservation : (command : List ℕ) → Step n (reserve command n).0
  persistence : (entry : LogEntry) → Step n (persist_entry entry n).0
  retraction : (entry : LogEntry) (len : ℕ) → Step n (take_back entry len n)
  commitment : Step n (update_commit_index n)
  application : Step n (apply_round n).0
  exchange : (answer : Option InstallSnapshotResponse) → Step n (exchange_snapshot_chunk answer n).0
  advance : (peer : String) (snap : Snapshot) → Step n (advance_peer peer snap n)

pub data Reach (n : Node) : Node → Type 0 where
  here : Reach n n
  further : {m k : Node} → Reach n m → Step m k → Reach n k
