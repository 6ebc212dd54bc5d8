-- ===== src/Examples/Logs.antt =====
-- A follower of internal/zero/raft with a conflicting tail, and the requests that it receives.
use mxkeys_org.Prelude.{find, ℕ, ◌≤◌, ◌<◌, ◌≡◌, refl, true, some, [], ◌∷◌, All, ◌⊎◌, arith}
use mxkeys_org.Raft.{LogEntry, Config, Node, leader, AppendEntriesRequest, new_node}
use mxkeys_org.Raft.LogView.{log_len, entry_at, term_at}
use mxkeys_org.Raft.LogView.Window.{IsAligned}
use mxkeys_org.Raft.Persistence.{persist_entry, truncate_log_after}
use mxkeys_org.Raft.Append.{
  handle_append_entries, advance_commit, append_all, append_entry, prev_matches,
}
use mxkeys_org.Raft.Append.Loop.{Holds}
use mxkeys_org.Raft.Append.Matching.{
  IsWellFormed, append-IsAligned, append_matches, append_keeps_prefix, append_commit,
}
use mxkeys_org.Raft.Replication.{count_matches, update_commit_index}
use mxkeys_org.Raft.Replication.Commit.{
  IsCommittable, update_commit_index_sound, update_commit_index_complete,
}

abbrev entry : ℕ → ℕ → LogEntry
entry index term = record { index = index; term = term; command = [] }

abbrev config : Config
config = record {
  node_id = "n1";
  peers = "n2" ∷ "n3" ∷ [];
  election_timeout = 1000;
  heartbeat_interval = 250;
  commit_timeout = 5000;
}

-- Entry 1 is compacted; 2 and 3 are in the slice and in the log file.
abbrev lagging : Node
lagging = record (new_node config 0) {
  current_term = 2;
  log = entry 2 1 ∷ entry 3 1 ∷ [];
  log_offset = 1;
  snapshot_index = 1;
  snapshot_term = 1;
  commit_index = 1;
  wal = some (record { entries = entry 2 1 ∷ entry 3 1 ∷ []; outcomes = [] });
}

abbrev correction : AppendEntriesRequest
correction = record {
  term = 3;
  leader_id = "n2";
  leader_address = "10.0.0.2:9000";
  prev_log_index = 2;
  prev_log_term = 1;
  entries = entry 3 3 ∷ entry 4 3 ∷ [];
  leader_commit = 3;
}

lagging-IsAligned : IsAligned lagging
lagging-IsAligned = record {
  indexed = (refl, (refl, tt));
  behind_snapshot = refl;
  room = omega arith;
}

correction-IsWellFormed : IsWellFormed correction
correction-IsWellFormed = record { indexed = (refl, (refl, tt)); room = omega arith }

corrected :
    (handle_append_entries 7 (some correction) lagging).0.log
    ≡ entry 2 1 ∷ entry 3 3 ∷ entry 4 3 ∷ []
unfolding handle_append_entries prev_matches term_at append_all append_entry persist_entry
    truncate_log_after log_len advance_commit
corrected = refl

correction_succeeds : (handle_append_entries 7 (some correction) lagging).1.success ≡ true
unfolding handle_append_entries prev_matches term_at append_all append_entry persist_entry
    truncate_log_after log_len advance_commit
correction_succeeds = refl

append-IsAligned_example : IsAligned (handle_append_entries 7 (some correction) lagging).0
append-IsAligned_example =
    append-IsAligned 7 correction lagging lagging-IsAligned correction-IsWellFormed

append_matches_example :
    All (Holds lagging 1 (handle_append_entries 7 (some correction) lagging).0) correction.entries
append_matches_example =
    append_matches 7 correction lagging lagging-IsAligned correction-IsWellFormed
      correction_succeeds

append_keeps_prefix_example :
    entry_at (handle_append_entries 7 (some correction) lagging).0 2 ≡ entry_at lagging 2
append_keeps_prefix_example =
    append_keeps_prefix 7 correction lagging 2 lagging-IsAligned correction-IsWellFormed
      (omega arith)

append_commit_example :
    ((handle_append_entries 7 (some correction) lagging).0.commit_index ≡ 1)
    ⊎ (((handle_append_entries 7 (some correction) lagging).1.success ≡ true)
        × ((handle_append_entries 7 (some correction) lagging).0.commit_index
            ≤ log_len (handle_append_entries 7 (some correction) lagging).0)
        × ((handle_append_entries 7 (some correction) lagging).0.commit_index ≤ 3))
append_commit_example = append_commit 7 correction lagging lagging-IsAligned correction-IsWellFormed

-- A heartbeat that was delayed: the leader's nextIndex for the peer was still 2 when it was sent.
abbrev ahead : Node
ahead = record lagging { commit_index = 3 }

abbrev heartbeat : AppendEntriesRequest
heartbeat = record correction { prev_log_index = 2; entries = []; leader_commit = 4 }

heartbeat_succeeds : (handle_append_entries 7 (some heartbeat) ahead).1.success ≡ true
unfolding handle_append_entries prev_matches term_at append_all append_entry persist_entry
    truncate_log_after log_len advance_commit
heartbeat_succeeds = refl

-- The leader of the same log, with one peer that has reached entry 3.
abbrev leading : Node
leading = record lagging {
  state = leader;
  current_term = 1;
  match_index = ("n2", 3) ∷ ("n3", 0) ∷ [];
}

leading_len : log_len leading ≡ 3
unfolding log_len
leading_len = refl

update_commit_index_sound_example :
    ((update_commit_index leading).commit_index ≡ 1)
    ⊎ ((1 < (update_commit_index leading).commit_index)
        × ((update_commit_index leading).commit_index ≤ log_len leading)
        × IsCommittable leading (update_commit_index leading).commit_index)
update_commit_index_sound_example =
    update_commit_index_sound leading (omega (arith, leading_len)) (omega (arith, leading_len))

leading-IsCommittable : IsCommittable leading 3
unfolding term_at count_matches find
leading-IsCommittable = (refl, omega arith)

update_commit_index_complete_example : 3 ≤ (update_commit_index leading).commit_index
update_commit_index_complete_example =
    update_commit_index_complete leading 3 (omega (arith, leading_len)) (omega (arith, leading_len))
      (omega (arith, leading_len)) leading-IsCommittable
