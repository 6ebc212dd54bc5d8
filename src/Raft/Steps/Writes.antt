-- ===== src/Raft/Steps/Writes.antt =====
-- Terms and votes under the other writes of a node: elections, replication, compaction and Submit
-- (internal/zero/raft/election.go, replication.go, compact.go, lifecycle.go, snapshot_send.go).
use mxkeys_org.Prelude.{
  ℕ, zero, suc, ◌+◌, ◌-◌, ◌<◌, ◌^◌, refl, Bool, true, false, not, ◌&&◌, ◌||◌, Option, none, some,
  String, List, assign, ltb, ◌==◌, u64, arith, Bool-cases, inl, inr, ltb→lt,
}
use mxkeys_org.Raft.{
  LogEntry, Node, VoteResponse, AppendEntriesResponse, InstallSnapshotResponse, Snapshot, follower,
}
use mxkeys_org.Raft.Transfer.{exchange_snapshot_chunk, advance_peer}
use mxkeys_org.Raft.LogView.{log_len}
use mxkeys_org.Raft.Persistence
use mxkeys_org.Raft.Persistence.{persist_entry, with_wal, truncate_before}
use mxkeys_org.Raft.Election.{campaign, claim_leadership, receive_vote}
use mxkeys_org.Raft.Replication.{
  is_leader, next_of, receive_append, update_commit_index, commit_scan, commit_round, apply_round,
}
use mxkeys_org.Raft.Snapshots.{adopt_snapshot}
use mxkeys_org.Raft.Compaction.{
  Captured, compact_log, drop_prefix, validate_capture, compact_valid, save_snapshot,
}
use mxkeys_org.Raft.Submission.{reserve, take_back}
use mxkeys_org.Raft.Steps.Progress.{
  Progress, trans-Progress, quiet, refl-Progress, newer, wal-quiet,
}

pub adopt-Progress :
    (i t : ℕ) (content : List ℕ) (n : Node) → Progress n (adopt_snapshot i t content n)
unfolding adopt_snapshot
adopt-Progress i t content n = quiet n (adopt_snapshot i t content n) (ground arith) (ground arith)

pub claim-Progress : (t : ℕ) (n : Node) → Progress n (claim_leadership t n)
unfolding claim_leadership
claim-Progress t n = quiet n (claim_leadership t n) (ground arith) (ground arith)

pub ballot-Progress : (a : Option VoteResponse) (n : Node) → Progress n (receive_vote a n).0
unfolding receive_vote
ballot-Progress none n = refl-Progress n
ballot-Progress (some resp) n = record { later = ground arith; steady = λ e. ground arith }

pub round-Progress : (i : ℕ) (n : Node) → Progress n (commit_round i n)
unfolding commit_round
round-Progress i n = quiet n (commit_round i n) (ground arith) (ground arith)

pub scan-Progress : (k i : ℕ) (n : Node) → Progress n (commit_scan k i n)
unfolding commit_scan
scan-Progress zero i n = refl-Progress n
scan-Progress (suc k) i n =
    trans-Progress n (commit_round i n) (commit_scan k (u64 (i + 1)) (commit_round i n))
      (round-Progress i n) (scan-Progress k (u64 (i + 1)) (commit_round i n))

pub commit-Progress : (n : Node) → Progress n (update_commit_index n)
unfolding update_commit_index
commit-Progress n = scan-Progress (log_len n - n.commit_index) (u64 (n.commit_index + 1)) n

pub answer-Progress :
    (peer : String) (term next sent : ℕ) (a : Option AppendEntriesResponse) (n : Node)
    → Progress n (receive_append peer term next sent a n)
unfolding receive_append
answer-Progress peer term next sent none n = refl-Progress n
answer-Progress peer term next sent (some resp) n =
    elim (Bool-cases (ltb n.current_term resp.term)) [
      | inl ahead ↦ rw ahead (
          newer n (record n { current_term = resp.term; state = follower; voted_for = "" })
            (ltb→lt _ _ ahead))
      | inr level ↦
          rw level
            (elim (Bool-cases (
              not (is_leader n.state)
              || not (n.current_term == term)
              || not (next_of n peer == next))) [
                | inl stale ↦ rw stale (refl-Progress n)
                | inr fresh ↦ rw fresh (elim (Bool-cases resp.success) [
                  | inl ok ↦
                      let m = record n {
                        next_index = assign peer (u64 (next + sent)) n.next_index;
                        match_index = assign peer (u64 (next + sent + 2 ^ 64 - 1)) n.match_index;
                      } in
                      rw ok (
                        trans-Progress n m (update_commit_index m) (quiet n m refl refl)
                          (commit-Progress m))
                  | inr bad ↦ rw bad (elim (Bool-cases (ltb 1 (next_of n peer))) [
                    | inl above ↦ rw above (
                        quiet n
                          (record n { next_index = assign peer (next_of n peer - 1) n.next_index })
                          refl refl)
                    | inr one ↦ rw one (refl-Progress n)
                  ])
                ])
              ])
    ]

pub drop-Progress : (i t : ℕ) (n : Node) → Progress n (drop_prefix i t n)
unfolding drop_prefix
drop-Progress i t n = quiet n (drop_prefix i t n) (ground arith) (ground arith)

pub valid-Progress :
    (saved : Bool) (c : Captured) (n : Node) (o : Option ℕ)
    → Progress n (compact_valid saved c n o).0
valid-Progress saved c n none = refl-Progress n
valid-Progress true c n (some t) =
    let m = drop_prefix c.applied_index t (save_snapshot c t n) in
    trans-Progress n m (with_wal m (truncate_before (u64 (c.applied_index + 1))) m.wal).0
      (trans-Progress n (save_snapshot c t n) m (quiet n (save_snapshot c t n) refl refl)
        (drop-Progress c.applied_index t (save_snapshot c t n)))
      (wal-quiet m (truncate_before (u64 (c.applied_index + 1))) m.wal)
valid-Progress false c n (some t) = refl-Progress n

pub compact-Progress :
    (p saved : Bool) (c : Option Captured) (n : Node) → Progress n (compact_log p saved c n).0
unfolding compact_log
compact-Progress p saved none n = refl-Progress n
compact-Progress p saved (some c) n = elim (Bool-cases (not (n.has_state_dir && p))) [
  | inl without ↦ rw without (refl-Progress n)
  | inr ready ↦ rw ready (valid-Progress saved c n (validate_capture c.applied_index n))
]

pub reserve-Progress : (c : List ℕ) (n : Node) → Progress n (reserve c n).0
unfolding reserve
reserve-Progress c n = quiet n (reserve c n).0 (ground arith) (ground arith)

pub persist-Progress : (e : LogEntry) (n : Node) → Progress n (persist_entry e n).0
unfolding persist_entry
persist-Progress e n = wal-quiet n (Persistence.append e) n.wal

pub take_back-Progress : (e : LogEntry) (l : ℕ) (n : Node) → Progress n (take_back e l n)
unfolding take_back
take_back-Progress e l n = quiet n (take_back e l n) (ground arith) (ground arith)

pub apply-Progress : (n : Node) → Progress n (apply_round n).0
unfolding apply_round
apply-Progress n = quiet n (apply_round n).0 (ground arith) (ground arith)

pub exchange-Progress :
    (o : Option InstallSnapshotResponse) (n : Node) → Progress n (exchange_snapshot_chunk o n).0
unfolding exchange_snapshot_chunk
exchange-Progress none n = refl-Progress n
exchange-Progress (some out) n = record { later = ground arith; steady = λ e. ground arith }

pub advance-Progress :
    (peer : String) (snap : Snapshot) (n : Node) → Progress n (advance_peer peer snap n)
unfolding advance_peer
advance-Progress peer snap n = quiet n (advance_peer peer snap n) refl refl

pub campaign-Progress :
    (now : ℕ) (n : Node) → n.current_term + 1 < 2 ^ 64 → Progress n (campaign now n)
unfolding campaign
campaign-Progress now n h = newer n (campaign now n) (unfold campaign in omega arith)
