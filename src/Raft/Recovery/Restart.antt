-- ===== src/Raft/Recovery/Restart.antt =====
-- internal/zero/raft/persistence.go: what a node has after a restart.
use mathlib.Core.List.{append_assoc, append-nil}
use mxkeys_org.Prelude.{
  ℕ, ◌+◌, ◌≤◌, ◌≡◌, refl, sym, ◌∙◌, ap, String, true, false, ◌==◌, Option, none, some, List, [],
  ◌∷◌, ◌++◌, leb, ltb, length, if◌then◌else◌, arith, Bool-cases, inl, inr,
}
use mxkeys_org.Raft.{LogEntry, Node, Wal, Snapshot, VoteRequest}
use mxkeys_org.Raft.Persistence.{keep_from}
use mxkeys_org.Raft.Snapshots.{Verdict, read}
use mxkeys_org.Raft.Vote.{handle_request_vote}
use mxkeys_org.Raft.Vote.Rules.{LogCovers, IsFree, request_vote_grants}
use mxkeys_org.Raft.Recovery.{
  Loaded, refused, replay, load_from_disk, restart, loaded, whole, missing, present, file_end,
  max_term, with_snapshot,
}

abbrev replay_one : LogEntry → Node → Node
replay_one e n =
    if leb e.index n.snapshot_index
    then n
    else record n { log = n.log ++ e ∷ []; current_term = max_term n.current_term e.term }

-- Replay appends the entries behind the snapshot, and moves the term besides.
record Replayed (es : List LogEntry) (n m : Node) : Type 0 where
  log_kept : m.log ≡ n.log ++ keep_from (n.snapshot_index + 1) es
  voted_kept : m.voted_for ≡ n.voted_for
  snapshot_kept : m.snapshot_index ≡ n.snapshot_index
  offset_kept : m.log_offset ≡ n.log_offset
  term_raised : n.current_term ≤ m.current_term

replay-Replayed : (es : List LogEntry) (n : Node) → Replayed es n (replay es n)
unfolding replay keep_from
replay-Replayed [] n = record {
  log_kept = sym (append-nil n.log);
  voted_kept = refl;
  snapshot_kept = refl;
  offset_kept = refl;
  term_raised = omega arith;
}
replay-Replayed (e ∷ es) n = elim (Bool-cases (leb e.index n.snapshot_index)) [
  | inl old ↦
      (let r = replay-Replayed es n in
        let skipped : leb (n.snapshot_index + 1) e.index ≡ false = ground (arith, old) in
        rw (old) (record {
          log_kept = rw skipped r.log_kept;
          voted_kept = r.voted_kept;
          snapshot_kept = r.snapshot_kept;
          offset_kept = r.offset_kept;
          term_raised = r.term_raised;
        }))
  | inr fresh ↦
      (let r =
          replay-Replayed es
            (record n { log = n.log ++ e ∷ []; current_term = max_term n.current_term e.term }) in
        let taken : leb (n.snapshot_index + 1) e.index ≡ true = ground (arith, fresh) in
        rw (fresh) (record {
          log_kept =
              rw taken
                (r.log_kept ∙ append_assoc n.log (e ∷ []) (keep_from (n.snapshot_index + 1) es));
          voted_kept = r.voted_kept;
          snapshot_kept = r.snapshot_kept;
          offset_kept = r.offset_kept;
          term_raised = ground (arith, r.term_raised);
        }))
]

-- The entries of the log file that lie behind the snapshot, and the snapshot file, are the node's.
abbrev pub IsMirrored : Node → Wal → Type 0
IsMirrored n w = (n.wal ≡ some w) × (keep_from (n.snapshot_index + 1) w.entries ≡ n.log)

abbrev pub content_length : Option Snapshot → ℕ
content_length none = 0
content_length (some s) = length s.content

-- The snapshot file describes the node's snapshot, if there is one.
abbrev pub Describes : Option Snapshot → Node → Type 0
Describes none n = (n.snapshot_index ≡ 0) × (n.snapshot_term ≡ 0)
Describes (some s) n =
    (n.snapshot_index ≡ s.last_included_index) × (n.snapshot_term ≡ s.last_included_term)

load_missing :
    (k : Node) (w : Wal) (verdict : Verdict)
    → k.has_state_dir ≡ true
    → k.wal ≡ some w
    → load_from_disk true missing whole verdict k ≡ loaded (replay w.entries k)
unfolding load_from_disk
load_missing k w verdict dir wal = rw (dir, wal) refl

load_present :
    (k : Node) (w : Wal) (s : Snapshot)
    → k.has_state_dir ≡ true
    → k.wal ≡ some w
    → load_from_disk true (present s) whole (read (length s.content)) k
      ≡ loaded (replay w.entries (with_snapshot s k))
unfolding load_from_disk
load_present k w s dir wal =
    let same : (length s.content == length s.content) ≡ true = ground arith in
    rw (dir, wal, same) refl

-- The load succeeds with the log and the snapshot index of `n` and without a vote.
abbrev Restored : Node → Loaded → Type 0
Restored n l =
    (m : Node) × ((l ≡ loaded m)
      × ((m.log ≡ n.log) × ((m.snapshot_index ≡ n.snapshot_index) × (m.voted_for ≡ ""))))

restored :
    (now : ℕ) (n : Node) (w : Wal) (f : Option Snapshot)
    → n.has_state_dir ≡ true
    → IsMirrored n w
    → Describes f n
    → Restored n (load_from_disk true (file_end f) whole (read (content_length f)) (restart now n))
restored now n w none dir (wal, mirror) (si, st) =
    let r = replay-Replayed w.entries (restart now n) in
    (
      replay w.entries (restart now n),
      (
        load_missing (restart now n) w (read 0) dir wal,
        (r.log_kept ∙ rw si at mirror, (r.snapshot_kept ∙ sym si, r.voted_kept)),
      ),
    )
restored now n w (some s) dir (wal, mirror) (si, st) =
    let k = with_snapshot s (restart now n) in
    let r = replay-Replayed w.entries k in
    (
      replay w.entries k,
      (
        load_present (restart now n) w s dir wal,
        (r.log_kept ∙ rw si at mirror, (r.snapshot_kept ∙ sym si, r.voted_kept)),
      ),
    )

-- If a node has a state directory, its log file holds the entries of its log, the snapshot file, if there is one,
-- describes its snapshot, both are intact and the installer reads the whole snapshot, then LoadFromDisk after a
-- restart succeeds, and the node has its log and its snapshot index back.
pub recovery_restores_log :
    (now : ℕ) (n : Node) (w : Wal)
    → n.has_state_dir ≡ true
    → IsMirrored n w
    → Describes n.snapshot_file n
    → (m : Node) × ((load_from_disk true
            (file_end n.snapshot_file)
            whole
            (read (content_length n.snapshot_file))
            (restart now n)
          ≡ loaded m)
        × ((m.log ≡ n.log) × (m.snapshot_index ≡ n.snapshot_index)))
recovery_restores_log now n w dir mirror d =
    let r = restored now n w n.snapshot_file dir mirror d in (r.0, (r.1.0, (r.1.1.0, r.1.1.1.0)))

abbrev vote_of : Loaded → String
vote_of (loaded m) = m.voted_for
vote_of (refused e) = ""

-- The vote is not on disk: after such a restart the node grants its vote to whoever asks for it in
-- the term that it comes back with or a later one with a log that covers its own, whatever it had
-- granted in that term before.
pub restart_votes_again :
    (now now' : ℕ) (n m : Node) (w : Wal) (req : VoteRequest)
    → n.has_state_dir ≡ true
    → IsMirrored n w
    → Describes n.snapshot_file n
    → load_from_disk true
        (file_end n.snapshot_file)
        whole
        (read (content_length n.snapshot_file))
        (restart now n)
      ≡ loaded m
    → m.current_term ≤ req.term
    → LogCovers m req
    → (handle_request_vote now' (some req) m).1.vote_granted ≡ true
restart_votes_again now now' n m w req dir mirror d back term covers =
    let r = restored now n w n.snapshot_file dir mirror d in
    let none_voted : m.voted_for ≡ "" = ap vote_of (sym back ∙ r.1.0) ∙ r.1.1.1.1 in
    let free : IsFree m req = elim (Bool-cases (ltb m.current_term req.term)) [
      | inl newer ↦ inl (ground (arith, newer))
      | inr same ↦ inr (ground (arith, same, term), inl none_voted)
    ] in
    (request_vote_grants now' req m).1 (free, covers)
