-- ===== src/Raft/Transfer/Delivery.antt =====
-- internal/zero/raft/snapshot_send.go with snapshot_rpc.go: a transfer to a follower that runs
-- handleInstallSnapshot, whose file system and installer do what they are asked to.
use mxkeys_org.Prelude.{
  ℕ, zero, suc, ◌+◌, ◌≤◌, ◌<◌, ◌≡◌, refl, sym, ap, ◌∙◌, true, false, not, inl, inr, subst, Option,
  some, String, lt→ltb, le→ltb_false, ◌==◌, if◌then◌else◌, Bool-cases, length, find, find-assign,
  eq_iff, ==_iff, arith,
}
use mxkeys_org.Raft.{Node, Snapshot, InstallSnapshotResponse}
use mxkeys_org.Raft.Snapshots.{max_snapshot_size}
use mxkeys_org.Raft.Transfer.{
  sent, no_state_dir, is_sent, chunk_end, chunk_request, exchange_snapshot_chunk, advance_peer,
  Transfer, after_chunk, send_chunks, send_empty, finish, send_loaded, send_install_snapshot,
}
use mxkeys_org.Raft.Transfer.Progress.{chunk_end-le, chunk_end-lt, chunk_end-more}
use mxkeys_org.Raft.Transfer.Opening.{serve_snapshot, IsBehind, IsReady, HasSnapshot}
use mxkeys_org.Raft.Transfer.Handling.{request_at, is_last, serve-chunk, serve_last}

module _ (now term : ℕ) (id addr : String) (snap : Snapshot) where
  abbrev transfer_from : ℕ → ℕ → Node → Node → Transfer Node
  transfer_from left offset n m =
      send_chunks (serve_snapshot now) (λ _. false) term id addr snap left offset n m

  abbrev pub IsDelivered : Transfer Node → Type 0
  IsDelivered t = (t.outcome ≡ sent) × HasSnapshot snap t.receiver

  -- No chunk is left.
  transfer_finished :
      (left offset : ℕ) (n m : Node)
      → 0 < left
      → length snap.content ≤ offset
      → HasSnapshot snap m
      → IsDelivered (transfer_from left offset n m)
  unfolding send_chunks
  transfer_finished zero offset n m some_left end has = absurd (omega (arith, some_left))
  transfer_finished (suc left) offset n m some_left end has =
      let answer = serve_snapshot now (request_at now term id addr snap offset) m in
      let exchanged = exchange_snapshot_chunk answer.1 n in
      let later =
        transfer_from left (chunk_end offset (length snap.content)) exchanged.0 answer.0 in
      let stop : Transfer Node = record { sender = n; receiver = m; outcome = sent } in
      let over : transfer_from (suc left) offset n m ≡ stop =
        ap (λ b. if not b then stop else after_chunk (serve_snapshot now) exchanged answer.0 later)
          (le→ltb_false offset (length snap.content) end) in
      subst IsDelivered (sym over) (refl, has)

  -- A round goes on after a reply with success.
  round_on :
      (left offset : ℕ) (n m : Node) (out : InstallSnapshotResponse)
      → offset < length snap.content
      → (serve_snapshot now (request_at now term id addr snap offset) m).1 ≡ some out
      → out.success ≡ true
      → let exchanged = exchange_snapshot_chunk (some out) n in
        transfer_from (suc left) offset n m
        ≡ transfer_from left
            (chunk_end offset (length snap.content))
            exchanged.0
            (serve_snapshot now (request_at now term id addr snap offset) m).0
  unfolding send_chunks exchange_snapshot_chunk
  round_on left offset n m out inside answer success =
      let served = serve_snapshot now (request_at now term id addr snap offset) m in
      let stop : Transfer Node = record { sender = n; receiver = m; outcome = sent } in
      let next : Option InstallSnapshotResponse → Transfer Node = λ o.
        after_chunk (serve_snapshot now) (exchange_snapshot_chunk o n) served.0 (
          transfer_from left (chunk_end offset (length snap.content))
            (exchange_snapshot_chunk o n).0 served.0) in
      let exchanged = exchange_snapshot_chunk (some out) n in
      ap (λ b. if not b then stop else next served.1) (lt→ltb offset (length snap.content) inside)
      ∙ ap next answer
      ∙ ap
          (λ b.
            after_chunk (serve_snapshot now) (exchanged.0, some b) served.0
              (transfer_from left (chunk_end offset (length snap.content)) exchanged.0 served.0))
          success

  transfer_delivers_from :
      (left offset : ℕ) (n m : Node)
      → length snap.content ≤ max_snapshot_size
      → offset < length snap.content
      → length snap.content < offset + left
      → IsReady now term id addr snap offset m
      → IsDelivered (transfer_from left offset n m)
  transfer_delivers_from zero offset n m small inside enough ready =
      absurd (omega (arith, inside, enough))
  transfer_delivers_from (suc left) offset n m small inside enough ready =
      let total = length snap.content in
      let served = serve_snapshot now (request_at now term id addr snap offset) m in
      elim (Bool-cases (is_last now term id addr snap offset)) [
        | inl last ↦
            let (out, answer, success, _, has) =
              serve_last now term id addr snap offset m small (omega (arith, inside)) last ready in
            let end : chunk_end offset total ≡ total =
              (==_iff (chunk_end offset total) total).0 last in
            subst IsDelivered (sym (round_on left offset n m out inside answer success)) (
              transfer_finished left (chunk_end offset total)
                (exchange_snapshot_chunk (some out) n).0 served.0 (omega (arith, inside, enough))
                (omega (arith, end)) has)
        | inr more ↦
            let (out, answer, success, _, next) =
              serve-chunk now term id addr snap offset m small (omega (arith, inside)) more ready in
            let end = chunk_end offset total in
            let further : end < total = chunk_end-more offset total more in
            subst IsDelivered (sym (round_on left offset n m out inside answer success)) (
              transfer_delivers_from left end (exchange_snapshot_chunk (some out) n).0 served.0
                small further (omega (arith, enough, chunk_end-lt offset total inside)) next)
      ]

  empty_delivers :
      (n m : Node)
      → length snap.content ≡ 0
      → IsReady now term id addr snap 0 m
      → IsDelivered (send_empty (serve_snapshot now) term id addr snap n m)
  unfolding exchange_snapshot_chunk
  empty_delivers n m empty ready =
      let total = length snap.content in
      let at_end : 0 ≡ chunk_end 0 total = omega (arith, empty, chunk_end-le 0 total) in
      let last : is_last now term id addr snap 0 ≡ true =
        (==_iff (chunk_end 0 total) total).1 (omega (arith, empty, at_end)) in
      let served = serve_snapshot now (request_at now term id addr snap 0) m in
      let (out, answer, success, _, has) =
        serve_last now term id addr snap 0 m (omega (arith, empty)) (omega arith) last ready in
      let end : Option InstallSnapshotResponse → Node → Transfer Node = λ o p.
        let exchanged = exchange_snapshot_chunk o n in
        after_chunk (serve_snapshot now) exchanged p
          (record { sender = exchanged.0; receiver = p; outcome = sent }) in
      let whole : send_empty (serve_snapshot now) term id addr snap n m ≡ record {
        sender = (exchange_snapshot_chunk (some out) n).0;
        receiver = served.0;
        outcome = sent;
      } =
        ap (λ e. let r = serve_snapshot now (chunk_request term id addr snap 0 e) m in end r.1 r.0)
          at_end
        ∙ ap (λ o. end o served.0) answer
        ∙ ap
            (λ b.
              after_chunk (serve_snapshot now) ((exchange_snapshot_chunk (some out) n).0, some b)
                served.0
                (record {
                  sender = (exchange_snapshot_chunk (some out) n).0;
                  receiver = served.0;
                  outcome = sent;
                }))
            success in
      subst IsDelivered (sym whole) (refl, has)

-- The end of a transfer that was sent, with the bookkeeping.
abbrev pub IsTransferred : String → Snapshot → Transfer Node → Type 0
IsTransferred peer snap t =
    (t.outcome ≡ sent)
    × (find peer t.sender.match_index ≡ some snap.last_included_index)
    × HasSnapshot snap t.receiver

finish-IsTransferred :
    (now : ℕ) (peer : String) (snap : Snapshot) (t : Transfer Node)
    → (t.outcome ≡ sent) × HasSnapshot snap t.receiver
    → IsTransferred peer snap (finish (serve_snapshot now) peer snap t)
unfolding advance_peer
finish-IsTransferred now peer snap t (done, has) =
    let moved = record t { sender = advance_peer peer snap t.sender } in
    let matched =
      find-assign peer peer snap.last_included_index t.sender.match_index
      ∙ ap (λ b. if b then some snap.last_included_index else find peer t.sender.match_index)
          ((eq_iff peer peer).1 refl) in
    subst (IsTransferred peer snap) (sym (ap (λ o. if is_sent o then moved else t) done))
      (done, matched, has)

-- A follower with a disk, whose term is not later than the leader's and that has no snapshot as late as
-- the leader's, gets the leader's snapshot by one transfer that nothing interrupts, if it has
-- at most 256 MiB: the transfer ends without an error, the follower's snapshot is the leader's, byte for byte, it
-- has committed and applied the entries that the snapshot covers, and the leader's matchIndex for the peer is the
-- snapshot's index.
pub transfer_delivers :
    (now : ℕ) (peer addr : String) (n m : Node) (snap : Snapshot)
    → n.has_state_dir ≡ true
    → n.snapshot_file ≡ some snap
    → length snap.content ≤ max_snapshot_size
    → m.has_state_dir ≡ true
    → m.current_term ≤ n.current_term
    → IsBehind snap m
    → let t = send_install_snapshot (serve_snapshot now) (λ _. false) peer addr n m in
      IsTransferred peer snap t
unfolding send_install_snapshot
transfer_delivers now peer addr n m snap dir file small disk in_term behind =
    let term = n.current_term in
    let id = n.config.node_id in
    let total = length snap.content in
    let deliver = serve_snapshot now in
    let ready : IsReady now term id addr snap 0 m = record {
      in_term = in_term;
      on_disk = disk;
      behind = behind;
      has_bytes = inl refl;
    } in
    let single = send_empty deliver term id addr snap n m in
    let chunks = send_chunks deliver (λ _. false) term id addr snap (suc total) 0 n m in
    let loaded =
      ap
        (λ b.
          if not b
          then record { sender = n; receiver = m; outcome = no_state_dir }
          else send_loaded deliver (λ _. false) peer addr n m n.snapshot_file)
        dir
      ∙ ap (send_loaded deliver (λ _. false) peer addr n m) file in
    elim (Bool-cases (total == 0)) [
      | inl none_left ↦
          let whole =
            loaded ∙ ap (λ b. finish deliver peer snap (if b then single else chunks)) none_left in
          subst (IsTransferred peer snap) (sym whole) (
            finish-IsTransferred now peer snap single
              (empty_delivers now term id addr snap n m ((==_iff total 0).0 none_left) ready))
      | inr some_left ↦
          let whole =
            loaded ∙ ap (λ b. finish deliver peer snap (if b then single else chunks)) some_left in
          subst (IsTransferred peer snap) (sym whole) (
            finish-IsTransferred now peer snap chunks (
              transfer_delivers_from now term id addr snap (suc total) 0 n m small
                (ground (arith, some_left)) (omega arith) ready))
    ]
