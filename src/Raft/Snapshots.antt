-- ===== src/Raft/Snapshots.antt =====
-- internal/zero/raft/snapshot_rpc.go (handleInstallSnapshot) and the bookkeeping of pending_snapshot.go.
-- The handler runs under `n.mu` up to the last chunk, lets go of it for the installer, and takes it
-- again: two functions, between which other handlers may run.
use mxkeys_org.Prelude.{
  ℕ, ◌+◌, ◌*◌, ◌^◌, Bool, true, false, not, ◌&&◌, ◌||◌, Option, none, some, str_eq, List, [], ◌++◌,
  ltb, leb, ◌==◌, if◌then◌else◌, u64, length,
}
use mxkeys_org.Raft.{Node, follower, InstallSnapshotRequest, InstallSnapshotResponse}
use mxkeys_org.Raft.Persistence.{keep_from, truncate_before, with_wal}

-- 256 << 20
abbrev pub max_snapshot_size : ℕ
max_snapshot_size = 256 * 2 ^ 20

-- releasePendingSnapshot
unfoldable pub release_pending_snapshot : Node → Node
release_pending_snapshot n = record n {
  pending_snapshot = [];
  pending_snapshot_expected = 0;
  pending_snapshot_index = 0;
  pending_snapshot_term = 0;
}

-- beginPendingSnapshot: false if the spill file cannot be made.
unfoldable pub begin_pending_snapshot : Bool → ℕ → ℕ → Node → Node × Bool
unfolding release_pending_snapshot
begin_pending_snapshot opened index term n = (
  record (release_pending_snapshot n) {
    pending_snapshot_index = index;
    pending_snapshot_term = term;
  },
  opened,
)

-- appendPendingSnapshot: false beyond the size limit, or if the spill file refuses the bytes.
unfoldable pub append_pending_snapshot : Bool → List ℕ → Node → Node × Bool
append_pending_snapshot accepted chunk n =
    let new_size = u64 (n.pending_snapshot_expected + length chunk) in
    if ltb max_snapshot_size new_size
    then (n, false)
    else if accepted
    then (
      record n {
        pending_snapshot = n.pending_snapshot ++ chunk;
        pending_snapshot_expected = new_size;
      },
      true,
    )
    else (n, false)

-- The file system's answers to the handler: opening the spill file, writing the chunk, patching the
-- header, and renaming the file. Without a state directory all are true.
pub record Spill : Type 0 where
  pub opened : Bool
  pub accepted : Bool
  pub finalised : Bool
  pub renamed : Bool

-- What the first critical section ends with: an answer, or all bytes of the snapshot.
pub data Received : Type 0 where
  answered : InstallSnapshotResponse → Received
  complete : List ℕ → Received

abbrev pub rejected : ℕ → InstallSnapshotResponse
rejected term = record { term = term; success = false; bytes_stored = 0 }

abbrev pub accepted_at : ℕ → ℕ → InstallSnapshotResponse
accepted_at term bytes = record { term = term; success = true; bytes_stored = bytes }

abbrev pub follow_snapshot : ℕ → InstallSnapshotRequest → Node → Node
follow_snapshot now req n = record n {
  current_term = (if ltb n.current_term req.term then req.term else n.current_term);
  voted_for = (if ltb n.current_term req.term then "" else n.voted_for);
  state = follower;
  leader_id = req.leader_id;
  leader_addr = (if str_eq req.leader_address "" then n.leader_addr else req.leader_address);
  last_contact = now;
}

-- finalizePendingSnapshot and drainPendingSnapshotInMemory: the transfer is detached.
unfoldable pub detach_pending : Bool → Node → Node × Received
unfolding release_pending_snapshot
detach_pending finalised n =
    if finalised
    then (release_pending_snapshot n, complete n.pending_snapshot)
    else (release_pending_snapshot n, answered (rejected n.current_term))

-- The chunk at the expected offset.
unfoldable pub take_chunk : Spill → InstallSnapshotRequest → Node × Bool → Node × Received
unfolding append_pending_snapshot release_pending_snapshot detach_pending
take_chunk spill req (n, false) = (n, answered (rejected n.current_term))
take_chunk spill req (n, true) =
    if not (req.offset == n.pending_snapshot_expected)
    then (release_pending_snapshot n, answered (rejected n.current_term))
    else (let (n', fine) = append_pending_snapshot spill.accepted req.chunk n in
        if not fine
        then (release_pending_snapshot n', answered (rejected n'.current_term))
        else if not req.done
        then (n', answered (accepted_at n'.current_term n'.pending_snapshot_expected))
        else detach_pending spill.finalised n')

unfoldable pub is_new_transfer : InstallSnapshotRequest → Node → Bool
is_new_transfer req n =
    req.offset == 0
    || not (req.last_included_index == n.pending_snapshot_index)
    || not (req.last_included_term == n.pending_snapshot_term)

-- The rest of the section, on a node that follows the sender.
unfoldable pub receive_chunk : Spill → InstallSnapshotRequest → Node → Node × Received
unfolding begin_pending_snapshot take_chunk is_new_transfer
receive_chunk spill req n =
    if leb req.last_included_index n.snapshot_index && ltb 0 n.snapshot_index
    then (n, answered (accepted_at n.current_term 0))
    else take_chunk spill req (
        if is_new_transfer req n
        then begin_pending_snapshot spill.opened req.last_included_index req.last_included_term n
        else (n, true))

-- The first critical section. `has_installer` says that SetSnapshotInstaller was called.
unfoldable pub receive_snapshot :
    ℕ → Bool → Spill → Option InstallSnapshotRequest → Node → Node × Received
unfolding receive_chunk
receive_snapshot now has_installer spill none n = (n, answered (rejected n.current_term))
receive_snapshot now has_installer spill (some req) n =
    if ltb req.term n.current_term
    then (n, answered (rejected n.current_term))
    else if not has_installer
    then (n, answered (rejected n.current_term))
    else receive_chunk spill req (follow_snapshot now req n)

-- The installer's verdict: an error, or the number of bytes that it read.
pub data Verdict : Type 0 where
  failed : Verdict
  read : ℕ → Verdict

abbrev is_short : Verdict → ℕ → Bool
is_short failed size = true
is_short (read count) size = not (count == size)

abbrev pub max_u64 : ℕ → ℕ → ℕ
max_u64 a b = if ltb b a then a else b

-- The last critical section, with the log file's truncation after it.
unfoldable pub adopt_snapshot : ℕ → ℕ → List ℕ → Node → Node
unfolding keep_from truncate_before
adopt_snapshot index term content n =
    let m = record n {
      snapshot_index = index;
      snapshot_term = term;
      commit_index = max_u64 index n.commit_index;
      last_applied = max_u64 index n.last_applied;
      log = keep_from (index + 1) n.log;
      log_offset = max_u64 index n.log_offset;
      snapshot_file =
          (if n.has_state_dir
            then some (record {
              last_included_index = index;
              last_included_term = term;
              content = content;
            })
            else n.snapshot_file);
    } in
    (with_wal m (truncate_before (u64 (index + 1))) m.wal).0

-- What follows the last chunk: the installer, the rename, and the last critical section.
unfoldable pub install_snapshot :
    Verdict → Spill → InstallSnapshotRequest → List ℕ → Node → Node × InstallSnapshotResponse
unfolding adopt_snapshot
install_snapshot verdict spill req content n =
    if is_short verdict (length content) || not spill.renamed
    then (n, rejected n.current_term)
    else (
      adopt_snapshot req.last_included_index req.last_included_term content n,
      accepted_at n.current_term (length content),
    )
