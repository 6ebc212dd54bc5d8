-- ===== src/Raft/Transfer/Opening.antt =====
-- internal/zero/raft/snapshot_rpc.go: a follower whose file system and installer do what they are asked to, and
-- handleInstallSnapshot up to the point where a chunk is appended.
use mxkeys_org.Prelude.{
  ℕ, ◌+◌, ◌≤◌, ◌<◌, ◌≡◌, refl, sym, ap, ◌∙◌, Bool, true, false, ◌&&◌, inl, inr, ◌⊎◌, Option, none,
  some, String, List, [], ltb, leb, if◌then◌else◌, Bool-cases, u64, length, take, arith,
}
use mxkeys_org.Raft.Persistence.{keep_from, truncate_before, with_wal}
use mxkeys_org.Raft.{Node, Snapshot, Wal, InstallSnapshotRequest, InstallSnapshotResponse}
use mxkeys_org.Raft.Snapshots.{
  release_pending_snapshot, begin_pending_snapshot, Spill, Received, answered, rejected,
  accepted_at, complete, follow_snapshot, take_chunk, is_new_transfer, receive_chunk,
  receive_snapshot, max_u64, read, adopt_snapshot, install_snapshot,
}
use mxkeys_org.Raft.Transfer.{chunk_end, chunk_request}

-- Every write of the file system succeeds.
abbrev pub working : Spill
working = record { opened = true; accepted = true; finalised = true; renamed = true }

abbrev pub installed :
    InstallSnapshotRequest → Node × Received → Node × Option InstallSnapshotResponse
installed req (n, answered out) = (n, some out)
installed req (n, complete content) =
    let (n', out) = install_snapshot (read (length content)) working req content n in (n', some out)

-- handleInstallSnapshot with an installer that reads the whole snapshot, at a time of the clock.
unfoldable pub serve_snapshot :
    ℕ → InstallSnapshotRequest → Node → Node × Option InstallSnapshotResponse
unfolding receive_snapshot install_snapshot
serve_snapshot now req n = installed req (receive_snapshot now true working (some req) n)

-- The follower has no snapshot as late as this one.
abbrev pub IsBehind : Snapshot → Node → Type 0
IsBehind snap m = (m.snapshot_index ≡ 0) ⊎ (m.snapshot_index < snap.last_included_index)

module _ (snap : Snapshot) where
  -- What a follower that installed the snapshot has.
  abbrev pub HasSnapshot : Node → Type 0
  HasSnapshot m =
      (m.snapshot_index ≡ snap.last_included_index)
      × (m.snapshot_term ≡ snap.last_included_term)
      × (m.snapshot_file ≡ some snap)
      × (snap.last_included_index ≤ m.commit_index)
      × (snap.last_included_index ≤ m.last_applied)

  with_wal-HasSnapshot :
      (m : Node) (op : Wal → Wal × Bool) (w : Option Wal)
      → HasSnapshot m
      → HasSnapshot (with_wal m op w).0
  with_wal-HasSnapshot m op none has = has
  with_wal-HasSnapshot m op (some w) has = has

  pub adopt-HasSnapshot :
      (m : Node) (content : List ℕ)
      → content ≡ snap.content
      → m.has_state_dir ≡ true
      → HasSnapshot (adopt_snapshot snap.last_included_index snap.last_included_term content m)
  unfolding adopt_snapshot
  adopt-HasSnapshot m content same dir =
      let idx = snap.last_included_index in
      let at_commit : idx ≤ max_u64 idx m.commit_index = ground arith in
      let at_applied : idx ≤ max_u64 idx m.last_applied = ground arith in
      let kept =
        if m.has_state_dir then some (record snap { content = content }) else m.snapshot_file in
      let file : kept ≡ some snap =
        ap (λ b. if b then some (record snap { content = content }) else m.snapshot_file) dir
        ∙ ap (λ c. some (record snap { content = c })) same in
      let adopted = record m {
        snapshot_index = idx;
        snapshot_term = snap.last_included_term;
        commit_index = max_u64 idx m.commit_index;
        last_applied = max_u64 idx m.last_applied;
        log = keep_from (idx + 1) m.log;
        log_offset = max_u64 idx m.log_offset;
        snapshot_file = kept;
      } in
      with_wal-HasSnapshot adopted (truncate_before (u64 (idx + 1))) m.wal
        (refl, refl, file, at_commit, at_applied)

module _ (now term : ℕ) (id addr : String) (snap : Snapshot) where
  -- A follower before the chunk at an offset: its term is not later, and it has the bytes before the
  -- offset.
  pub record IsReady (offset : ℕ) (m : Node) : Type 0 where
    pub in_term : m.current_term ≤ term
    pub on_disk : m.has_state_dir ≡ true
    pub behind : IsBehind snap m
    pub has_bytes :
        (offset ≡ 0)
        ⊎ ((m.pending_snapshot ≡ take offset snap.content)
            × (m.pending_snapshot_expected ≡ offset)
            × (m.pending_snapshot_index ≡ snap.last_included_index)
            × (m.pending_snapshot_term ≡ snap.last_included_term))

  -- A node that the chunk at an offset is appended to.
  pub record IsOpen (offset : ℕ) (m : Node) : Type 0 where
    pub in_term : m.current_term ≡ term
    pub on_disk : m.has_state_dir ≡ true
    pub behind : IsBehind snap m
    pub bytes : m.pending_snapshot ≡ take offset snap.content
    pub expected : m.pending_snapshot_expected ≡ offset
    pub index : m.pending_snapshot_index ≡ snap.last_included_index
    pub snapshot_term : m.pending_snapshot_term ≡ snap.last_included_term

  -- The handler on a ready follower comes to appending the chunk.
  IsOpen-begun :
      (offset : ℕ) (m : Node)
      → IsReady offset m
      → m.current_term ≡ term
      → is_new_transfer
          (chunk_request term id addr snap offset (chunk_end offset (length snap.content)))
          m
        ≡ true
      → IsOpen offset
          (begin_pending_snapshot true snap.last_included_index snap.last_included_term m).0
  unfolding is_new_transfer begin_pending_snapshot release_pending_snapshot
  IsOpen-begun offset m ready same new =
      let at_start : offset ≡ 0 = grind (arith, ready.has_bytes, new) in
      let empty : [] ≡ take offset snap.content = rw (at_start) refl in
      record {
        in_term = same;
        on_disk = ready.on_disk;
        behind = ready.behind;
        bytes = empty;
        expected = sym at_start;
        index = refl;
        snapshot_term = refl;
      }

  IsOpen-kept :
      (offset : ℕ) (m : Node)
      → IsReady offset m
      → m.current_term ≡ term
      → is_new_transfer
          (chunk_request term id addr snap offset (chunk_end offset (length snap.content)))
          m
        ≡ false
      → IsOpen offset m
  unfolding is_new_transfer
  IsOpen-kept offset m ready same old = elim ready.has_bytes [
    | inl start ↦ absurd (ground (arith, start, old))
    | inr (bytes, expected, index, snapshot_term) ↦ record {
      in_term = same;
      on_disk = ready.on_disk;
      behind = ready.behind;
      bytes = bytes;
      expected = expected;
      index = index;
      snapshot_term = snapshot_term;
    }
  ]

  followed-IsReady :
      (offset : ℕ) (m : Node)
      → IsReady offset m
      → IsReady offset (
          follow_snapshot now
            (chunk_request term id addr snap offset (chunk_end offset (length snap.content)))
            m)
  followed-IsReady offset m ready = record {
    in_term = ground (arith, ready.in_term);
    on_disk = ready.on_disk;
    behind = ready.behind;
    has_bytes = ready.has_bytes;
  }

  -- The handler on a ready follower comes to appending the chunk.
  pub receive-IsOpen :
      (offset : ℕ) (m : Node)
      → IsReady offset m
      → let req = chunk_request term id addr snap offset (chunk_end offset (length snap.content)) in
        (m' : Node) × IsOpen offset m'
        × (receive_snapshot now true working (some req) m ≡ take_chunk working req (m', true))
  unfolding receive_snapshot receive_chunk begin_pending_snapshot
  receive-IsOpen offset m ready =
      let req = chunk_request term id addr snap offset (chunk_end offset (length snap.content)) in
      let m0 = follow_snapshot now req m in
      let followed = followed-IsReady offset m ready in
      let same : m0.current_term ≡ term = ground (arith, ready.in_term) in
      let current : ltb term m.current_term ≡ false = ground (arith, ready.in_term) in
      let late : (leb snap.last_included_index m0.snapshot_index && ltb 0 m0.snapshot_index)
          ≡ false =
        ground (arith, ready.behind) in
      let begun = begin_pending_snapshot true snap.last_included_index snap.last_included_term m0 in
      let reached : receive_snapshot now true working (some req) m
          ≡ take_chunk working req (if is_new_transfer req m0 then begun else (m0, true)) =
        ap
          (λ b. if b then (m, answered (rejected m.current_term)) else receive_chunk working req m0)
          current
        ∙ ap
            (λ b.
              if b
              then (m0, answered (accepted_at m0.current_term 0))
              else take_chunk working req (if is_new_transfer req m0 then begun else (m0, true)))
            late in
      elim (Bool-cases (is_new_transfer req m0)) [
        | inl new ↦ (
          begun.0,
          IsOpen-begun offset m0 followed same new,
          reached ∙ ap (λ b. take_chunk working req (if b then begun else (m0, true))) new,
        )
        | inr old ↦ (
          m0,
          IsOpen-kept offset m0 followed same old,
          reached ∙ ap (λ b. take_chunk working req (if b then begun else (m0, true))) old,
        )
      ]
