-- ===== src/Raft/Transfer/Handling.antt =====
-- internal/zero/raft/snapshot_rpc.go: what handleInstallSnapshot does with the chunks of one transfer.
use mxkeys_org.Prelude.{
  ℕ, ◌+◌, ◌-◌, ◌≤◌, ◌≡◌, refl, sym, ap, ◌∙◌, Bool, true, false, not, ◌||◌, inr, subst, Option, some,
  String, List, ◌++◌, ltb, le→ltb_false, take-drop_next, ◌==◌, if◌then◌else◌, u64, length, take,
  drop, length-take, length-drop, take_all, ==_iff, arith,
}
use mxkeys_org.Raft.{Node, Snapshot, InstallSnapshotRequest, InstallSnapshotResponse}
use mxkeys_org.Raft.Snapshots.{
  max_snapshot_size, release_pending_snapshot, append_pending_snapshot, Received, answered,
  rejected, accepted_at, complete, detach_pending, take_chunk, read, adopt_snapshot,
  install_snapshot,
}
use mxkeys_org.Raft.Transfer.{chunk_end, chunk_request}
use mxkeys_org.Raft.Transfer.Progress.{chunk_end-le, chunk_end-from}
use mxkeys_org.Raft.Transfer.Opening.{
  working, installed, serve_snapshot, HasSnapshot, adopt-HasSnapshot, IsReady, IsOpen,
  receive-IsOpen,
}

module _ (now term : ℕ) (id addr : String) (snap : Snapshot) where
  -- The node after a chunk was appended.
  abbrev appended : ℕ → Node → Node
  appended offset m =
      let chunk =
        take (chunk_end offset (length snap.content) - offset) (drop offset snap.content) in
      record m {
        pending_snapshot = m.pending_snapshot ++ chunk;
        pending_snapshot_expected = u64 (m.pending_snapshot_expected + length chunk);
      }

  length-chunk :
      (offset : ℕ)
      → offset ≤ length snap.content
      → length (take (chunk_end offset (length snap.content) - offset) (drop offset snap.content))
        ≡ chunk_end offset (length snap.content) - offset
  length-chunk offset inside =
      let end = chunk_end offset (length snap.content) in
      length-take (end - offset) (drop offset snap.content)
      ∙ omega (
        arith,
        length-drop offset snap.content,
        chunk_end-le offset (length snap.content),
        inside,
      )

  append-open :
      (offset : ℕ) (m : Node)
      → length snap.content ≤ max_snapshot_size
      → offset ≤ length snap.content
      → IsOpen now term id addr snap offset m
      → (append_pending_snapshot true
            (take (chunk_end offset (length snap.content) - offset) (drop offset snap.content))
            m
          ≡ (appended offset m, true))
        × ((appended offset m).pending_snapshot_expected ≡ chunk_end offset (length snap.content))
        × ((appended offset m).pending_snapshot
            ≡ take (chunk_end offset (length snap.content)) snap.content)
  unfolding append_pending_snapshot
  append-open offset m small inside ready =
      let end = chunk_end offset (length snap.content) in
      let size = length-chunk offset inside in
      let expected : (appended offset m).pending_snapshot_expected ≡ end = omega (
        arith,
        ready.expected,
        size,
        small,
        chunk_end-le offset (length snap.content),
        chunk_end-from offset (length snap.content) inside,
      ) in
      let fits : ltb max_snapshot_size (appended offset m).pending_snapshot_expected ≡ false =
        le→ltb_false max_snapshot_size (appended offset m).pending_snapshot_expected
          (omega (arith, expected, small, chunk_end-le offset (length snap.content))) in
      (
        ap (λ b. if b then (m, false) else (appended offset m, true)) fits,
        expected,
        ap (λ l. l ++ take (end - offset) (drop offset snap.content)) ready.bytes
            ∙ take-drop_next offset (end - offset) snap.content
            ∙ ap (λ k. take k snap.content)
                (omega (arith, chunk_end-from offset (length snap.content) inside)),
      )

  abbrev pub request_at : ℕ → InstallSnapshotRequest
  request_at offset =
      chunk_request term id addr snap offset (chunk_end offset (length snap.content))

  abbrev pub is_last : ℕ → Bool
  is_last offset = chunk_end offset (length snap.content) == length snap.content

  -- What the handler does with a chunk at the expected offset.
  take_chunk-open :
      (offset : ℕ) (m : Node)
      → length snap.content ≤ max_snapshot_size
      → offset ≤ length snap.content
      → IsOpen now term id addr snap offset m
      → take_chunk working (request_at offset) (m, true) ≡ (
          if not (is_last offset)
          then (
            appended offset m,
            answered (
                accepted_at
                  (appended offset m).current_term
                  (appended offset m).pending_snapshot_expected),
          )
          else detach_pending true (appended offset m))
  unfolding take_chunk
  take_chunk-open offset m small inside ready =
      let req = request_at offset in
      let (added, _, _) = append-open offset m small inside ready in
      let here : (offset == m.pending_snapshot_expected) ≡ true = ground (arith, ready.expected) in
      let go : Node × Bool → Node × Received = λ r.
        if not r.1
        then (release_pending_snapshot r.0, answered (rejected r.0.current_term))
        else if not req.done
        then (r.0, answered (accepted_at r.0.current_term r.0.pending_snapshot_expected))
        else detach_pending true r.0 in
      ap
        (λ b.
          if not b
          then (release_pending_snapshot m, answered (rejected m.current_term))
          else go (append_pending_snapshot true req.chunk m))
        here
      ∙ ap go added

  -- A chunk before the last one is acknowledged, and the next one may follow.
  pub serve-chunk :
      (offset : ℕ) (m : Node)
      → length snap.content ≤ max_snapshot_size
      → offset ≤ length snap.content
      → is_last offset ≡ false
      → IsReady now term id addr snap offset m
      → (out : InstallSnapshotResponse) × ((serve_snapshot now (request_at offset) m).1 ≡ some out)
        × (out.success ≡ true)
        × (out.term ≡ term)
        × IsReady now term id addr snap
            (chunk_end offset (length snap.content))
            (serve_snapshot now (request_at offset) m).0
  unfolding serve_snapshot
  serve-chunk offset m small inside unfinished ready =
      let (m', begun, reached) = receive-IsOpen now term id addr snap offset m ready in
      let (added, expected, bytes) = append-open offset m' small inside begun in
      let next = appended offset m' in
      let reply = accepted_at next.current_term next.pending_snapshot_expected in
      let total =
        reached
        ∙ take_chunk-open offset m' small inside begun
        ∙ ap (λ b. if not b then (next, answered reply) else detach_pending true next) unfinished in
      subst
        (λ r.
          (out : InstallSnapshotResponse) × ((installed (request_at offset) r).1 ≡ some out)
          × (out.success ≡ true)
          × (out.term ≡ term)
          × IsReady now term id addr snap (chunk_end offset (length snap.content))
              (installed (request_at offset) r).0)
        (sym total)
        (
          reply,
          refl,
          refl,
          begun.in_term,
          record {
            in_term = omega (arith, begun.in_term);
            on_disk = begun.on_disk;
            behind = begun.behind;
            has_bytes = inr (bytes, expected, begun.index, begun.snapshot_term);
          },
        )

  abbrev pub choose :
      Bool
      → Node × InstallSnapshotResponse
      → Node × InstallSnapshotResponse
      → Node × InstallSnapshotResponse
  choose b x y = if b then x else y

  abbrev pub IsInstalled : Node × Option InstallSnapshotResponse → Type 0
  IsInstalled r =
      (out : InstallSnapshotResponse) × (r.1 ≡ some out)
      × (out.success ≡ true)
      × (out.term ≡ term)
      × HasSnapshot snap r.0

  install-IsInstalled :
      (offset : ℕ) (m : Node) (content : List ℕ)
      → content ≡ snap.content
      → m.has_state_dir ≡ true
      → m.current_term ≡ term
      → IsInstalled (installed (request_at offset) (m, complete content))
  unfolding install_snapshot
  install-IsInstalled offset m content same dir in_term =
      let adopted = adopt_snapshot snap.last_included_index snap.last_included_term content m in
      let reply = accepted_at m.current_term (length content) in
      let all_read : (not (length content == length content) || false) ≡ false = ground arith in
      let fine : install_snapshot (read (length content)) working (request_at offset) content m
          ≡ (adopted, reply) =
        ap (λ b. choose b (m, rejected m.current_term) (adopted, reply)) all_read in
      subst (λ (r : Node × InstallSnapshotResponse). IsInstalled (r.0, some r.1)) (sym fine)
        (reply, refl, refl, in_term, adopt-HasSnapshot snap m content same dir)

  -- The last chunk installs the snapshot and is acknowledged.
  pub serve_last :
      (offset : ℕ) (m : Node)
      → length snap.content ≤ max_snapshot_size
      → offset ≤ length snap.content
      → is_last offset ≡ true
      → IsReady now term id addr snap offset m
      → IsInstalled (serve_snapshot now (request_at offset) m)
  unfolding serve_snapshot detach_pending release_pending_snapshot
  serve_last offset m small inside finished ready =
      let (m', begun, reached) = receive-IsOpen now term id addr snap offset m ready in
      let (added, expected, bytes) = append-open offset m' small inside begun in
      let next = appended offset m' in
      let reply = accepted_at next.current_term next.pending_snapshot_expected in
      let total =
        reached
        ∙ take_chunk-open offset m' small inside begun
        ∙ ap (λ b. if not b then (next, answered reply) else detach_pending true next) finished in
      let whole : next.pending_snapshot ≡ snap.content =
        bytes
        ∙ ap (λ k. take k snap.content)
            ((==_iff (chunk_end offset (length snap.content)) (length snap.content)).0 finished)
        ∙ take_all (length snap.content) snap.content (omega arith) in
      subst (λ r. IsInstalled (installed (request_at offset) r)) (sym total)
        (install-IsInstalled offset (release_pending_snapshot next) next.pending_snapshot whole
          begun.on_disk begun.in_term)
