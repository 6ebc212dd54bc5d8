-- ===== src/Examples/Messages.antt =====
-- Signed messages of internal/zero/raft/auth.go.
use mxkeys_org.Prelude.{◌≢◌, refl, arith, String, Option, some, [], ◌∷◌, find, assign, remove}
use mxkeys_org.Auth.{
  Signed, accepted, Arrival, verify_message, verify_all, track_signature, forget_before,
}
use mxkeys_org.Auth.Replays.{no_replay}

-- A code that is the sender's name.
abbrev mac_of : Signed → Option String
mac_of msg = some msg.sender

abbrev vote : Signed
vote = record {
  kind = "vote_request";
  sender = "node1";
  timestamp = 1000;
  payload = [];
  signature = "node1";
}

abbrev heartbeat : Signed
heartbeat = record {
  kind = "append";
  sender = "node2";
  timestamp = 2000;
  payload = [];
  signature = "node2";
}

abbrev vote_arrives : Arrival
vote_arrives = record { since = 1500; now = 1501; message = vote }

abbrev heartbeat_arrives : Arrival
heartbeat_arrives = record { since = 2500; now = 2501; message = heartbeat }

no_replay_example :
    (verify_message mac_of 1500 1501 vote
      (verify_all mac_of (vote_arrives ∷ heartbeat_arrives ∷ []) [])).1
    ≢ accepted
unfolding verify_message track_signature forget_before find assign remove
no_replay_example =
    no_replay mac_of vote_arrives (heartbeat_arrives ∷ []) vote_arrives [] refl (omega arith, tt)
      refl (omega arith)
