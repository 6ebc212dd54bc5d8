-- ===== src/Raft/Transfer.antt =====
-- internal/zero/raft/snapshot_send.go: the leader sends its snapshot in chunks. What the peer makes of
-- a request is an argument, `deliver`, on a state of the peer; no reply is an error of the RPC. The
-- context is read once a round, at the offset of the round.
pub mod Progress
pub mod Opening
pub mod Handling
pub mod Delivery
use mxkeys_org.Prelude.{
  ℕ, zero, suc, ◌+◌, ◌-◌, ◌*◌, Bool, true, false, not, Option, none, some, String, List, [], ltb,
  ◌==◌, if◌then◌else◌, u64, length, take, drop, assign,
}
use mxkeys_org.Raft.{Node, Snapshot, follower, InstallSnapshotRequest, InstallSnapshotResponse}

-- snapshotChunkSize, 512 KiB
abbrev pub snapshot_chunk_size : ℕ
snapshot_chunk_size = 524288

-- How SendInstallSnapshot returns: without an error, or with one. `exhausted` is the model's own.
pub data Sent : Type 0 where
  sent no_state_dir not_loaded canceled rpc_failed snapshot_rejected exhausted : Sent

abbrev pub is_sent : Sent → Bool
is_sent sent = true
is_sent _ = false

-- end = min(offset + snapshotChunkSize, total)
abbrev pub chunk_end : ℕ → ℕ → ℕ
chunk_end offset total =
    let end = offset + snapshot_chunk_size in if ltb total end then total else end

-- The request of a round.
abbrev pub chunk_request : ℕ → String → String → Snapshot → ℕ → ℕ → InstallSnapshotRequest
chunk_request term leader_id leader_addr snap offset end = record {
  term = term;
  leader_id = leader_id;
  leader_address = leader_addr;
  last_included_index = snap.last_included_index;
  last_included_term = snap.last_included_term;
  offset = offset;
  done = end == length snap.content;
  chunk = take (end - offset) (drop offset snap.content);
}

-- exchangeSnapshotChunk after its RPC; `none` is an error.
unfoldable pub exchange_snapshot_chunk : Option InstallSnapshotResponse → Node → Node × Option Bool
exchange_snapshot_chunk none n = (n, none)
exchange_snapshot_chunk (some out) n = (
  (if ltb n.current_term out.term
      then record n { current_term = out.term; state = follower; voted_for = "" }
      else n),
  some out.success,
)

-- The bookkeeping after the last chunk.
unfoldable pub advance_peer : String → Snapshot → Node → Node
advance_peer peer snap n = record n {
  next_index = assign peer (u64 (snap.last_included_index + 1)) n.next_index;
  match_index = assign peer snap.last_included_index n.match_index;
}

-- The state of a transfer: the leader, the peer, and how it ended.
pub record Transfer {ℓ} (P : Type ℓ) : Type ℓ where
  pub sender : Node
  pub receiver : P
  pub outcome : Sent

module _ {ℓ} {P : Type ℓ}
    (deliver : InstallSnapshotRequest → P → P × Option InstallSnapshotResponse) where
  -- The end of a round: the loop goes on after Success=true.
  abbrev pub after_chunk : Node × Option Bool → P → Transfer P → Transfer P
  after_chunk (n, none) p later = record { sender = n; receiver = p; outcome = rpc_failed }
  after_chunk (n, some false) p later = record {
    sender = n;
    receiver = p;
    outcome = snapshot_rejected;
  }
  after_chunk (n, some true) p later = later

  -- The loop over the chunks, with the number of rounds left.
  unfoldable pub send_chunks :
      (ℕ → Bool) → ℕ → String → String → Snapshot → ℕ → ℕ → Node → P → Transfer P
  unfolding exchange_snapshot_chunk
  send_chunks done term id addr snap zero offset n p = record {
    sender = n;
    receiver = p;
    outcome = exhausted;
  }
  send_chunks done term id addr snap (suc left) offset n p =
      let end = chunk_end offset (length snap.content) in
      let answer = deliver (chunk_request term id addr snap offset end) p in
      let exchanged = exchange_snapshot_chunk answer.1 n in
      let later = send_chunks done term id addr snap left end exchanged.0 answer.0 in
      if not (ltb offset (length snap.content))
      then record { sender = n; receiver = p; outcome = sent }
      else if done offset
      then record { sender = n; receiver = p; outcome = canceled }
      else after_chunk exchanged answer.0 later

  -- The single request of an empty snapshot.
  abbrev pub send_empty : ℕ → String → String → Snapshot → Node → P → Transfer P
  send_empty term id addr snap n p =
      let answer = deliver (chunk_request term id addr snap 0 0) p in
      let exchanged = exchange_snapshot_chunk answer.1 n in
      after_chunk exchanged answer.0
        (record { sender = exchanged.0; receiver = answer.0; outcome = sent })

  abbrev pub finish : String → Snapshot → Transfer P → Transfer P
  finish peer snap t =
      if is_sent t.outcome then record t { sender = advance_peer peer snap t.sender } else t

  abbrev pub send_loaded : (ℕ → Bool) → String → String → Node → P → Option Snapshot → Transfer P
  send_loaded done peer addr n p none = record { sender = n; receiver = p; outcome = not_loaded }
  send_loaded done peer addr n p (some snap) = finish peer snap (
      if length snap.content == 0
      then send_empty n.current_term n.config.node_id addr snap n p
      else send_chunks done n.current_term n.config.node_id addr snap (suc (length snap.content)) 0
          n p)

  -- SendInstallSnapshot; a snapshot file that does not load is none.
  unfoldable pub send_install_snapshot : (ℕ → Bool) → String → String → Node → P → Transfer P
  unfolding send_chunks advance_peer
  send_install_snapshot done peer addr n p =
      if not n.has_state_dir
      then record { sender = n; receiver = p; outcome = no_state_dir }
      else send_loaded done peer addr n p n.snapshot_file
