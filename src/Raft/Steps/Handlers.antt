-- ===== src/Raft/Steps/Handlers.antt =====
-- Terms and votes under the handlers of internal/zero/raft/rpc_handlers.go and snapshot_rpc.go.
use mxkeys_org.Prelude.{
  ℕ, refl, ap, Bool, true, false, ◌&&◌, Option, none, some, eq_iff, ltb, leb, if◌then◌else◌, arith,
  Bool-cases, inl, inr,
}
use mxkeys_org.Raft.{Node, VoteRequest, AppendEntriesRequest, InstallSnapshotRequest}
use mxkeys_org.Raft.Vote.{handle_request_vote}
use mxkeys_org.Raft.Append.{
  handle_append_entries, append_all, advance_commit, follow, prev_matches, conclude,
}
use mxkeys_org.Raft.Append.Frame.{append_all-SameBut}
use mxkeys_org.Raft.Snapshots.{
  Spill, receive_snapshot, take_chunk, begin_pending_snapshot, is_new_transfer, receive_chunk,
  follow_snapshot,
}
use mxkeys_org.Raft.Steps.Progress.{Progress, trans-Progress, quiet, refl-Progress}

pub vote-Progress :
    (now : ℕ) (msg : Option VoteRequest) (n : Node) → Progress n (handle_request_vote now msg n).0
unfolding handle_request_vote
vote-Progress now none n = refl-Progress n
vote-Progress now (some req) n = record {
  later = ground arith;
  steady = λ e. ground (arith, eq_iff n.voted_for "", eq_iff n.voted_for req.candidate_id);
}

pub follow-Progress :
    (now : ℕ) (req : AppendEntriesRequest) (n : Node) → Progress n (follow now req n)
follow-Progress now req n = record { later = ground arith; steady = λ e. ground arith }

pub conclude-Progress :
    (t : ℕ) (req : AppendEntriesRequest) (p : Node × Bool) → Progress p.0 (conclude t req p).0
unfolding advance_commit
conclude-Progress t req (n, true) = record { later = ground arith; steady = λ e. ground arith }
conclude-Progress t req (n, false) = refl-Progress n

pub append-Progress :
    (now : ℕ) (msg : Option AppendEntriesRequest) (n : Node)
    → Progress n (handle_append_entries now msg n).0
unfolding handle_append_entries
append-Progress now none n = refl-Progress n
append-Progress now (some req) n = elim (Bool-cases (ltb req.term n.current_term)) [
  | inl old ↦ rw old (refl-Progress n)
  | inr new ↦ rw new (elim (Bool-cases (prev_matches req (follow now req n))) [
    | inr gap ↦ rw gap (follow-Progress now req n)
    | inl fits ↦
        let p = append_all req.prev_log_index req.entries (follow now req n, true) in
        let s = append_all-SameBut req.prev_log_index req.entries (follow now req n) true in
        rw fits (
          trans-Progress n p.0 (conclude n.current_term req p).0
            (trans-Progress n (follow now req n) p.0 (follow-Progress now req n) (
              quiet (follow now req n) p.0 (ap (λ (x : Node). x.current_term) s.same)
                (ap (λ (x : Node). x.voted_for) s.same)))
            (conclude-Progress n.current_term req p))
  ])
]

pub take_chunk-Progress :
    (spill : Spill) (req : InstallSnapshotRequest) (n : Node) (b : Bool)
    → Progress n (take_chunk spill req (n, b)).0
unfolding take_chunk
take_chunk-Progress spill req n false = refl-Progress n
take_chunk-Progress spill req n true =
    quiet n (take_chunk spill req (n, true)).0 (ground arith) (ground arith)

pub begin-quiet :
    (b c : Bool) (i t : ℕ) (n : Node)
    → Progress n (if c then begin_pending_snapshot b i t n else (n, true)).0
unfolding begin_pending_snapshot
begin-quiet b true i t n = quiet n (begin_pending_snapshot b i t n).0 refl refl
begin-quiet b false i t n = refl-Progress n

pub receive_chunk-Progress :
    (spill : Spill) (req : InstallSnapshotRequest) (n : Node)
    → Progress n (receive_chunk spill req n).0
unfolding receive_chunk
receive_chunk-Progress spill req n =
    elim (Bool-cases (leb req.last_included_index n.snapshot_index && ltb 0 n.snapshot_index)) [
      | inl old ↦ rw old (refl-Progress n)
      | inr new ↦
          let p =
            if is_new_transfer req n
            then begin_pending_snapshot spill.opened req.last_included_index req.last_included_term
                n
            else (n, true) in
          rw new (
            trans-Progress n p.0 (take_chunk spill req p).0
              (begin-quiet spill.opened (is_new_transfer req n) req.last_included_index
                req.last_included_term n)
              (take_chunk-Progress spill req p.0 p.1))
    ]

pub chunk-Progress :
    (now : ℕ) (inst : Bool) (spill : Spill) (msg : Option InstallSnapshotRequest) (n : Node)
    → Progress n (receive_snapshot now inst spill msg n).0
unfolding receive_snapshot
chunk-Progress now inst spill none n = refl-Progress n
chunk-Progress now inst spill (some req) n = elim (Bool-cases (ltb req.term n.current_term)) [
  | inl old ↦ rw old (refl-Progress n)
  | inr new ↦ rw new (elim (Bool-cases inst) [
    | inr without ↦ rw without (refl-Progress n)
    | inl installer ↦ rw installer (
        trans-Progress n (follow_snapshot now req n)
          (receive_chunk spill req (follow_snapshot now req n)).0
          (record { later = ground arith; steady = λ e. ground arith })
          (receive_chunk-Progress spill req (follow_snapshot now req n)))
  ])
]
