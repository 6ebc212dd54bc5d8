-- ===== src/Examples/Transfers.antt =====
-- A snapshot that a leader sends, for internal/zero/raft/snapshot_send.go.
use mxkeys_org.Prelude.{refl, arith, false, true, none, some, [], ◌∷◌, Option, inl}
use mxkeys_org.Raft.{
  Node, Config, Snapshot, leader, InstallSnapshotRequest, InstallSnapshotResponse, new_node,
}
use mxkeys_org.Raft.Transfer.{send_install_snapshot}
use mxkeys_org.Raft.Transfer.Progress.{IsSettled, transfer_settles}
use mxkeys_org.Raft.Transfer.Opening.{serve_snapshot}
use mxkeys_org.Raft.Transfer.Delivery.{IsTransferred, transfer_delivers}

abbrev pair_config : Config
pair_config = record {
  node_id = "n1";
  peers = "n2" ∷ [];
  election_timeout = 150;
  heartbeat_interval = 50;
  commit_timeout = 100;
}

abbrev image : Snapshot
image = record { last_included_index = 7; last_included_term = 2; content = 1 ∷ 2 ∷ 3 ∷ [] }

abbrev sending : Node
sending = record (new_node pair_config 0) {
  state = leader;
  current_term = 3;
  has_state_dir = true;
  snapshot_file = some image;
}

abbrev lagging : Node
lagging = record (new_node pair_config 0) { current_term = 2; has_state_dir = true }

transfer_delivers_example :
    IsTransferred "n2" image
      (send_install_snapshot (serve_snapshot 5) (λ _. false) "n2" "n1:8449" sending lagging)
transfer_delivers_example =
    transfer_delivers 5 "n2" "n1:8449" sending lagging image refl refl (omega arith) refl
      (omega arith) (inl refl)

-- A peer that never replies.
abbrev silent : InstallSnapshotRequest → Node → Node × Option InstallSnapshotResponse
silent req m = (m, none)

transfer_settles_example :
    IsSettled silent "n2" "n1:8449" image sending lagging
      (send_install_snapshot silent (λ _. false) "n2" "n1:8449" sending lagging)
transfer_settles_example =
    transfer_settles silent (λ _. false) "n2" "n1:8449" sending lagging image refl refl
