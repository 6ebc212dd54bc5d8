-- ===== src/Raft/Transfer/Progress.antt =====
-- internal/zero/raft/snapshot_send.go: a transfer ends, and moves the leader's bookkeeping only when
-- the peer acknowledged the last chunk.
use mxkeys_org.Prelude.{
  ℕ, zero, suc, ◌+◌, ◌≤◌, ◌<◌, ◌≡◌, ◌≢◌, refl, sym, ap, ◌∙◌, Bool, true, false, not, inl, inr, ◌⊎◌,
  subst, Option, none, some, String, ltb, ltb→lt, ◌==◌, if◌then◌else◌, u64, length, assign, arith,
}
use mxkeys_org.Raft.{Node, Snapshot, InstallSnapshotRequest, InstallSnapshotResponse}
use mxkeys_org.Raft.Transfer.{
  Sent, sent, no_state_dir, not_loaded, canceled, rpc_failed, snapshot_rejected, exhausted, is_sent,
  chunk_end, chunk_request, exchange_snapshot_chunk, advance_peer, Transfer, after_chunk,
  send_chunks, send_empty, finish, send_loaded, send_install_snapshot,
}

-- The rule for a round: it ends before its request in two ways, or goes on.
pub round_rule {ℓ κ} :
    {A : Type ℓ} (Q : A → Type κ) (b c : Bool) (x y z : A)
    → (b ≡ true → Q x)
    → Q y
    → (b ≡ false → Q z)
    → Q (if b then x else if c then y else z)
round_rule Q true c x y z first second third = first refl
round_rule Q false true x y z first second third = second
round_rule Q false false x y z first second third = third refl

pub negated : (b : Bool) → not b ≡ false → b ≡ true
negated true e = refl
negated false e = ground (arith, e)

pub chunk_end-le : (offset total : ℕ) → chunk_end offset total ≤ total
chunk_end-le offset total = ground arith

pub chunk_end-from : (offset total : ℕ) → offset ≤ total → offset ≤ chunk_end offset total
chunk_end-from offset total inside = ground (arith, inside)

pub chunk_end-more :
    (offset total : ℕ) → (chunk_end offset total == total) ≡ false → chunk_end offset total < total
chunk_end-more offset total more = ground (arith, more)

pub chunk_end-lt : (offset total : ℕ) → offset < total → offset < chunk_end offset total
chunk_end-lt offset total inside = ground (arith, inside)

-- What sends do to a leader before the bookkeeping: both maps stay.
abbrev KeepsPeers {ℓ} : {P : Type ℓ} → Node → Transfer P → Type 0
KeepsPeers n t = (t.sender.next_index ≡ n.next_index) × (t.sender.match_index ≡ n.match_index)

exchange-KeepsPeers :
    (o : Option InstallSnapshotResponse) (n : Node)
    → ((exchange_snapshot_chunk o n).0.next_index ≡ n.next_index)
      × ((exchange_snapshot_chunk o n).0.match_index ≡ n.match_index)
unfolding exchange_snapshot_chunk
exchange-KeepsPeers none n = (refl, refl)
exchange-KeepsPeers (some out) n = (ground arith, ground arith)

is_sent-cases : (o : Sent) → ((o ≡ sent) × (is_sent o ≡ true)) ⊎ ((o ≢ sent) × (is_sent o ≡ false))
is_sent-cases sent = inl (refl, refl)
is_sent-cases no_state_dir = inr (λ e. ground (arith, e), refl)
is_sent-cases not_loaded = inr (λ e. ground (arith, e), refl)
is_sent-cases canceled = inr (λ e. ground (arith, e), refl)
is_sent-cases rpc_failed = inr (λ e. ground (arith, e), refl)
is_sent-cases snapshot_rejected = inr (λ e. ground (arith, e), refl)
is_sent-cases exhausted = inr (λ e. ground (arith, e), refl)

module _ {ℓ} {P : Type ℓ}
    (deliver : InstallSnapshotRequest → P → P × Option InstallSnapshotResponse) where
  after_chunk-ends :
      (exchanged : Node × Option Bool) (p : P) (later : Transfer P)
      → later.outcome ≢ exhausted
      → (after_chunk deliver exchanged p later).outcome ≢ exhausted
  after_chunk-ends (n, none) p later ends e = ground (arith, e)
  after_chunk-ends (n, some false) p later ends e = ground (arith, e)
  after_chunk-ends (n, some true) p later ends e = ends e

  -- As many rounds as bytes are left, and one more, are enough.
  send_chunks-ends :
      (done : ℕ → Bool) (term : ℕ) (id addr : String) (snap : Snapshot) (left offset : ℕ) (n : Node)
      (p : P)
      → offset ≤ length snap.content
      → length snap.content < offset + left
      → (send_chunks deliver done term id addr snap left offset n p).outcome ≢ exhausted
  unfolding send_chunks
  send_chunks-ends done term id addr snap zero offset n p within enough =
      absurd (omega (arith, within, enough))
  send_chunks-ends done term id addr snap (suc left) offset n p within enough =
      let end = chunk_end offset (length snap.content) in
      let answer = deliver (chunk_request term id addr snap offset end) p in
      let exchanged = exchange_snapshot_chunk answer.1 n in
      let later = send_chunks deliver done term id addr snap left end exchanged.0 answer.0 in
      round_rule (λ (t : Transfer P). t.outcome ≢ exhausted)
        (not (ltb offset (length snap.content))) (done offset)
        (record { sender = n; receiver = p; outcome = sent })
        (record { sender = n; receiver = p; outcome = canceled })
        (after_chunk deliver exchanged answer.0 later) (λ _ e. ground (arith, e))
        (λ e. ground (arith, e))
        (λ inside. after_chunk-ends exchanged answer.0 later (
          send_chunks-ends done term id addr snap left end exchanged.0 answer.0
            (chunk_end-le offset (length snap.content))
            (omega (
              arith,
              enough,
              chunk_end-lt offset (length snap.content) (
                  ltb→lt offset (length snap.content)
                    (negated (ltb offset (length snap.content)) inside)),
            ))))

  after_chunk-KeepsPeers :
      (n : Node) (exchanged : Node × Option Bool) (p : P) (later : Transfer P)
      → (exchanged.0.next_index ≡ n.next_index) × (exchanged.0.match_index ≡ n.match_index)
      → KeepsPeers exchanged.0 later
      → KeepsPeers n (after_chunk deliver exchanged p later)
  after_chunk-KeepsPeers n (m, none) p later one rest = one
  after_chunk-KeepsPeers n (m, some false) p later one rest = one
  after_chunk-KeepsPeers n (m, some true) p later one rest = (rest.0 ∙ one.0, rest.1 ∙ one.1)

  send_chunks-KeepsPeers :
      (done : ℕ → Bool) (term : ℕ) (id addr : String) (snap : Snapshot) (left offset : ℕ) (n : Node)
      (p : P)
      → KeepsPeers n (send_chunks deliver done term id addr snap left offset n p)
  unfolding send_chunks
  send_chunks-KeepsPeers done term id addr snap zero offset n p = (refl, refl)
  send_chunks-KeepsPeers done term id addr snap (suc left) offset n p =
      let end = chunk_end offset (length snap.content) in
      let answer = deliver (chunk_request term id addr snap offset end) p in
      let exchanged = exchange_snapshot_chunk answer.1 n in
      let later = send_chunks deliver done term id addr snap left end exchanged.0 answer.0 in
      round_rule (λ (t : Transfer P). KeepsPeers n t) (not (ltb offset (length snap.content)))
        (done offset) (record { sender = n; receiver = p; outcome = sent })
        (record { sender = n; receiver = p; outcome = canceled })
        (after_chunk deliver exchanged answer.0 later) (λ _. (refl, refl)) (refl, refl)
        (λ _.
          after_chunk-KeepsPeers n exchanged answer.0 later (exchange-KeepsPeers answer.1 n)
            (send_chunks-KeepsPeers done term id addr snap left end exchanged.0 answer.0))

  send_empty-ends :
      (term : ℕ) (id addr : String) (snap : Snapshot) (n : Node) (p : P)
      → (send_empty deliver term id addr snap n p).outcome ≢ exhausted
  send_empty-ends term id addr snap n p =
      let answer = deliver (chunk_request term id addr snap 0 0) p in
      let exchanged = exchange_snapshot_chunk answer.1 n in
      after_chunk-ends exchanged answer.0
        (record { sender = exchanged.0; receiver = answer.0; outcome = sent })
        (λ e. ground (arith, e))

  send_empty-KeepsPeers :
      (term : ℕ) (id addr : String) (snap : Snapshot) (n : Node) (p : P)
      → KeepsPeers n (send_empty deliver term id addr snap n p)
  send_empty-KeepsPeers term id addr snap n p =
      let answer = deliver (chunk_request term id addr snap 0 0) p in
      let exchanged = exchange_snapshot_chunk answer.1 n in
      after_chunk-KeepsPeers n exchanged answer.0
        (record { sender = exchanged.0; receiver = answer.0; outcome = sent })
        (exchange-KeepsPeers answer.1 n) (refl, refl)

  -- The peer acknowledged the request of a chunk with Success=true, and its state went from one to the other.
  abbrev pub Acknowledges : InstallSnapshotRequest → P → P → Type ℓ
  Acknowledges req p p' =
      (out : InstallSnapshotResponse) × ((deliver req p).1 ≡ some out)
      × (out.success ≡ true)
      × ((deliver req p).0 ≡ p')

  -- The peer acknowledged every chunk from an offset to the end, one after another.
  pub data AllAcknowledged (term : ℕ) (id addr : String) (snap : Snapshot)
      : ℕ → P → P → Type ℓ where
    no_chunk :
        (offset : ℕ) (p : P)
        → length snap.content ≤ offset
        → AllAcknowledged term id addr snap offset p p
    next_chunk :
        (offset : ℕ) (p p' p'' : P)
        → offset < length snap.content
        → Acknowledges
            (chunk_request term id addr snap offset (chunk_end offset (length snap.content)))
            p
            p'
        → AllAcknowledged term id addr snap (chunk_end offset (length snap.content)) p' p''
        → AllAcknowledged term id addr snap offset p p''

  -- The single request of an empty snapshot, or all chunks of another one, were acknowledged.
  abbrev pub WasAcknowledged : ℕ → String → String → Snapshot → P → P → Type ℓ
  WasAcknowledged term id addr snap p p' =
      ((length snap.content ≡ 0) × Acknowledges (chunk_request term id addr snap 0 0) p p')
      ⊎ ((0 < length snap.content) × AllAcknowledged term id addr snap 0 p p')

  exchange-success :
      (o : Option InstallSnapshotResponse) (n : Node)
      → (exchange_snapshot_chunk o n).1 ≡ some true
      → (out : InstallSnapshotResponse) × (o ≡ some out) × (out.success ≡ true)
  unfolding exchange_snapshot_chunk
  exchange-success none n h = absurd (ground (arith, h))
  exchange-success (some out) n h = (out, refl, ground (arith, h))

  after_chunk-sent :
      (exchanged : Node × Option Bool) (p : P) (later : Transfer P)
      → (after_chunk deliver exchanged p later).outcome ≡ sent
      → (exchanged.1 ≡ some true) × (after_chunk deliver exchanged p later ≡ later)
  after_chunk-sent (n, none) p later h = absurd (ground (arith, h))
  after_chunk-sent (n, some false) p later h = absurd (ground (arith, h))
  after_chunk-sent (n, some true) p later h = (refl, refl)

  send_chunks-acknowledged :
      (done : ℕ → Bool) (term : ℕ) (id addr : String) (snap : Snapshot) (left offset : ℕ) (n : Node)
      (p : P)
      → let t = send_chunks deliver done term id addr snap left offset n p in
        t.outcome ≡ sent → AllAcknowledged term id addr snap offset p t.receiver
  unfolding send_chunks
  send_chunks-acknowledged done term id addr snap zero offset n p = λ h. absurd (ground (arith, h))
  send_chunks-acknowledged done term id addr snap (suc left) offset n p =
      let size = length snap.content in
      let req = chunk_request term id addr snap offset (chunk_end offset size) in
      let answer = deliver req p in
      let exchanged = exchange_snapshot_chunk answer.1 n in
      let later =
        send_chunks deliver done term id addr snap left (chunk_end offset size) exchanged.0
          answer.0 in
      round_rule
        (λ (t : Transfer P).
          t.outcome ≡ sent → AllAcknowledged term id addr snap offset p t.receiver)
        (not (ltb offset size)) (done offset) (record { sender = n; receiver = p; outcome = sent })
        (record { sender = n; receiver = p; outcome = canceled })
        (after_chunk deliver exchanged answer.0 later)
        (λ all _. no_chunk offset p (ground (arith, all))) (λ h. absurd (ground (arith, h)))
        (λ inside h.
          let (accepted, same) = after_chunk-sent exchanged answer.0 later h in
          let (out, replied, success) = exchange-success answer.1 n accepted in
          let rest : AllAcknowledged term id addr snap (chunk_end offset size) answer.0
              later.receiver =
            send_chunks-acknowledged done term id addr snap left (chunk_end offset size) exchanged.0
              answer.0 (ap (λ (t : Transfer P). t.outcome) (sym same) ∙ h) in
          subst (λ (t : Transfer P). AllAcknowledged term id addr snap offset p t.receiver)
            (sym same)
            (next_chunk offset p answer.0 later.receiver
              (ltb→lt offset size (negated (ltb offset size) inside)) (out, replied, success, refl)
              rest))

  send_empty-acknowledged :
      (term : ℕ) (id addr : String) (snap : Snapshot) (n : Node) (p : P)
      → (send_empty deliver term id addr snap n p).outcome ≡ sent
      → Acknowledges
          (chunk_request term id addr snap 0 0)
          p
          (send_empty deliver term id addr snap n p).receiver
  send_empty-acknowledged term id addr snap n p h =
      let req = chunk_request term id addr snap 0 0 in
      let answer = deliver req p in
      let exchanged = exchange_snapshot_chunk answer.1 n in
      let later : Transfer P = record {
        sender = exchanged.0;
        receiver = answer.0;
        outcome = sent;
      } in
      let (accepted, same) = after_chunk-sent exchanged answer.0 later h in
      let (out, replied, success) = exchange-success answer.1 n accepted in
      (out, replied, success, ap (λ (t : Transfer P). t.receiver) (sym same))

  -- What a transfer of one snapshot leaves: it is not cut short by the model, and either the snapshot was sent and
  -- the leader's maps have the peer at it, or it was not and they are as before.
  abbrev pub IsSettled : String → String → Snapshot → Node → P → Transfer P → Type ℓ
  IsSettled peer addr snap n p t =
      (t.outcome ≢ exhausted)
      × (((t.outcome ≡ sent)
            × WasAcknowledged n.current_term n.config.node_id addr snap p t.receiver
            × (t.sender.match_index ≡ assign peer snap.last_included_index n.match_index)
            × (t.sender.next_index ≡ assign peer (u64 (snap.last_included_index + 1)) n.next_index))
          ⊎ ((t.outcome ≢ sent)
              × (t.sender.match_index ≡ n.match_index)
              × (t.sender.next_index ≡ n.next_index)))

  finish-IsSettled :
      (peer addr : String) (snap : Snapshot) (n : Node) (p : P) (t : Transfer P)
      → t.outcome ≢ exhausted
      → (t.outcome ≡ sent → WasAcknowledged n.current_term n.config.node_id addr snap p t.receiver)
      → KeepsPeers n t
      → IsSettled peer addr snap n p (finish deliver peer snap t)
  unfolding advance_peer
  finish-IsSettled peer addr snap n p t ends acknowledged kept = elim (is_sent-cases t.outcome) [
    | inl done ↦
        subst (λ b. IsSettled peer addr snap n p (if b then moved else t)) (sym done.1)
          (
            ends,
            inl (
              done.0,
              acknowledged done.0,
              ap (assign peer snap.last_included_index) kept.1,
              ap (assign peer (u64 (snap.last_included_index + 1))) kept.0,
            ),
          )
    | inr failed ↦
        subst (λ b. IsSettled peer addr snap n p (if b then moved else t)) (sym failed.1)
          (ends, inr (failed.0, kept.1, kept.0))
  ]
    where
      moved : Transfer P
      moved = record t { sender = advance_peer peer snap t.sender }

  -- A transfer of a snapshot ends, whatever the peer answers and whenever the context is done. If
  -- it ends without an error, the peer acknowledged every chunk in its order (the one request, if the snapshot is
  -- empty), and nextIndex and matchIndex of the leader have the peer at the snapshot and are
  -- otherwise as before; if it ends with an error they are as before.
  pub transfer_settles :
      (done : ℕ → Bool) (peer addr : String) (n : Node) (p : P) (snap : Snapshot)
      → n.has_state_dir ≡ true
      → n.snapshot_file ≡ some snap
      → IsSettled peer addr snap n p (send_install_snapshot deliver done peer addr n p)
  unfolding send_install_snapshot
  transfer_settles done peer addr n p snap dir file =
      let term = n.current_term in
      let id = n.config.node_id in
      let single = send_empty deliver term id addr snap n p in
      let chunks = send_chunks deliver done term id addr snap (suc (length snap.content)) 0 n p in
      let loaded =
        ap
          (λ b.
            if not b
            then record { sender = n; receiver = p; outcome = no_state_dir }
            else send_loaded deliver done peer addr n p n.snapshot_file)
          dir
        ∙ ap (send_loaded deliver done peer addr n p) file in
      subst (IsSettled peer addr snap n p) (sym loaded) (
        settles_either (length snap.content == 0) refl single chunks
          (λ empty.
            finish-IsSettled peer addr snap n p single (send_empty-ends term id addr snap n p)
              (λ h. inl (ground (arith, empty), send_empty-acknowledged term id addr snap n p h))
              (send_empty-KeepsPeers term id addr snap n p))
          (λ full.
            finish-IsSettled peer addr snap n p chunks
              (send_chunks-ends done term id addr snap (suc (length snap.content)) 0 n p
                (omega arith) (omega arith))
              (λ h. inr (
                ground (arith, full),
                send_chunks-acknowledged done term id addr snap (suc (length snap.content)) 0 n p h,
              ))
              (send_chunks-KeepsPeers done term id addr snap (suc (length snap.content)) 0 n p)))
    where
      settles_either :
          (b : Bool)
          → (length snap.content == 0) ≡ b
          → (x y : Transfer P)
          → (b ≡ true → IsSettled peer addr snap n p (finish deliver peer snap x))
          → (b ≡ false → IsSettled peer addr snap n p (finish deliver peer snap y))
          → IsSettled peer addr snap n p (finish deliver peer snap (if b then x else y))
      settles_either true e x y hx hy = hx refl
      settles_either false e x y hx hy = hy refl
