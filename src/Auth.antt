-- ===== src/Auth.antt =====
-- internal/zero/raft/auth.go and internal/cluster/auth.go: the authentication of messages between
-- nodes, which the two files do alike. The canonical JSON of the signed fields, its HMAC-SHA256 with
-- the shared secret and the hexadecimal text of that are one parameter, `mac`. Times are in
-- nanoseconds since the year 1, whose zero is outside every skew; a verification reads the clock
-- twice, so it has two readings.
pub mod Tracking
pub mod Replays
use mxkeys_org.Prelude.{
  ℕ, ◌+◌, ◌-◌, ◌*◌, ◌<◌, Bool, true, false, not, ◌||◌, Option, none, some, String, str_eq, List, [],
  ◌∷◌, ltb, if◌then◌else◌, Dict, find, assign,
}

-- The fields of RPCMessage and ClusterMessage.
pub record Signed : Type 0 where
  pub kind : String
  pub sender : String
  pub timestamp : ℕ
  pub payload : List ℕ
  pub signature : String

pub data Verdict : Type 0 where
  signature_missing outside_skew not_signable signature_mismatch replay_detected accepted : Verdict

-- maxRPCSkew and maxMessageSkew, five minutes
abbrev pub max_skew : ℕ
max_skew = 300000000000

-- The loop that forgets the signatures of messages from before the cutoff.
unfoldable pub forget_before : ℕ → Dict ℕ → Dict ℕ
forget_before cutoff [] = []
forget_before cutoff ((signature, seen_at) ∷ seen) =
    let rest = forget_before cutoff seen in
    if ltb seen_at cutoff then rest else (signature, seen_at) ∷ rest

abbrev pub track_found : ℕ → String → ℕ → Dict ℕ → Option ℕ → Dict ℕ × Bool
track_found cutoff signature timestamp seen none = (assign signature timestamp seen, true)
track_found cutoff signature timestamp seen (some seen_at) =
    if not (ltb seen_at cutoff) then (seen, false) else (assign signature timestamp seen, true)

-- trackRPCSignature and trackMessageMAC
unfoldable pub track_signature : ℕ → String → ℕ → Dict ℕ → Dict ℕ × Bool
unfolding forget_before
track_signature now signature timestamp seen =
    let cutoff = now - max_skew in
    let kept = forget_before cutoff seen in
    track_found cutoff signature timestamp kept (find signature kept)

abbrev pub tracked : Dict ℕ × Bool → Dict ℕ × Verdict
tracked (seen, true) = (seen, accepted)
tracked (seen, false) = (seen, replay_detected)

module _ (mac : Signed → Option String) where
  abbrev pub compare_mac : ℕ → Signed → Dict ℕ → Option String → Dict ℕ × Verdict
  compare_mac now msg seen none = (seen, not_signable)
  compare_mac now msg seen (some expected) =
      if not (str_eq expected msg.signature)
      then (seen, signature_mismatch)
      else tracked (track_signature now msg.signature msg.timestamp seen)

  -- verifyRPC and verifyMessage; `since` and `now` are the readings of time.Since and of the tracking.
  unfoldable pub verify_message : ℕ → ℕ → Signed → Dict ℕ → Dict ℕ × Verdict
  unfolding track_signature
  verify_message since now msg seen =
      if str_eq msg.signature ""
      then (seen, signature_missing)
      else if ltb max_skew (since - msg.timestamp) || ltb max_skew (msg.timestamp - since)
      then (seen, outside_skew)
      else compare_mac now msg seen (mac (record msg { signature = "" }))

-- A message that came in, with the two readings of its verification.
pub record Arrival : Type 0 where
  pub since : ℕ
  pub now : ℕ
  pub message : Signed

module _ (mac : Signed → Option String) where
  unfoldable pub verify_all : List Arrival → Dict ℕ → Dict ℕ
  unfolding verify_message
  verify_all [] seen = seen
  verify_all (a ∷ later) seen = verify_all later (verify_message mac a.since a.now a.message seen).0
