-- ===== src/Examples/Restarts.antt =====
-- A node of internal/zero/raft that comes back over its state directory.
use mxkeys_org.Prelude.{◌≡◌, refl, true, some, [], ◌∷◌, arith, inr}
use mxkeys_org.Raft.{Node, LogEntry, Wal, Snapshot, VoteRequest, new_node}
use mxkeys_org.Raft.LogView.{last_log_index_term}
use mxkeys_org.Raft.Append.{push_entry}
use mxkeys_org.Raft.Persistence.{persist_entry, append, write, keep_from}
use mxkeys_org.Raft.Snapshots.{read}
use mxkeys_org.Raft.Vote.{handle_request_vote}
use mxkeys_org.Raft.Recovery.{loaded, load_from_disk, replay, restart, whole, present}
use mxkeys_org.Raft.Recovery.Restart.{recovery_restores_log, restart_votes_again, IsMirrored}

abbrev kept : LogEntry
kept = record { index = 5; term = 2; command = 7 ∷ [] }

abbrev file : Wal
file = record { entries = record { index = 4; term = 2; command = [] } ∷ kept ∷ []; outcomes = [] }

abbrev image : Snapshot
image = record { last_included_index = 4; last_included_term = 2; content = 1 ∷ 2 ∷ [] }

-- It voted for n2 in term 3.
abbrev voted : Node
voted =
    record (new_node
      (record {
        node_id = "n1";
        peers = "n2" ∷ "n3" ∷ [];
        election_timeout = 1000;
        heartbeat_interval = 250;
        commit_timeout = 5000;
      })
      0) {
        current_term = 3;
        voted_for = "n2";
        log = kept ∷ [];
        log_offset = 4;
        snapshot_index = 4;
        snapshot_term = 2;
        wal = some file;
        has_state_dir = true;
        snapshot_file = some image;
      }

voted-IsMirrored : IsMirrored voted file
unfolding keep_from
voted-IsMirrored = (refl, refl)

recovery_restores_log_example :
    (m : Node) × ((load_from_disk true (present image) whole (read 2) (restart 9 voted) ≡ loaded m)
      × ((m.log ≡ kept ∷ []) × (m.snapshot_index ≡ 4)))
recovery_restores_log_example =
    recovery_restores_log 9 voted file refl voted-IsMirrored (refl, refl)

abbrev incoming : LogEntry
incoming = record { index = 6; term = 3; command = 8 ∷ [] }

pushed_fine : (push_entry incoming (voted, true)).1 ≡ true
unfolding push_entry persist_entry append write
pushed_fine = refl

abbrev restarted : Node
restarted = record (restart 9 voted) {
  current_term = 2;
  log = kept ∷ [];
  commit_index = 4;
  last_applied = 4;
  log_offset = 4;
  snapshot_index = 4;
  snapshot_term = 2;
}

restarted_run :
    load_from_disk true (present image) whole (read 2) (restart 9 voted) ≡ loaded restarted
unfolding load_from_disk replay
restarted_run = refl

abbrev rival : VoteRequest
rival = record { term = 3; candidate_id = "n3"; last_log_index = 5; last_log_term = 2 }

restart_votes_again_example : (handle_request_vote 20 (some rival) restarted).1.vote_granted ≡ true
unfolding last_log_index_term
restart_votes_again_example =
    restart_votes_again 9 20 voted restarted file rival refl voted-IsMirrored (refl, refl)
      restarted_run (omega arith) (inr (refl, omega arith))
