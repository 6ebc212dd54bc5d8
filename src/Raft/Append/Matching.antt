-- ===== src/Raft/Append/Matching.antt =====
-- `handleAppendEntries` of internal/zero/raft/rpc_handlers.go as a whole: what a follower's log and
-- commit index are after a request that a leader may send.
use mxkeys_org.Prelude.{
  ℕ, ◌+◌, ◌≤◌, ◌<◌, ◌^◌, ◌≡◌, refl, sym, ◌∙◌, ap, subst, Bool, true, false, some, List, [], ◌∷◌,
  ltb, length, All, arith, Bool-cases, Option-cases, inl, inr, ◌⊎◌,
}
use mxkeys_org.Raft.{LogEntry, Node, AppendEntriesRequest, AppendEntriesResponse}
use mxkeys_org.Raft.LogView.{log_len, entry_at, term_at}
use mxkeys_org.Raft.LogView.Window.{IndexedFrom, IsAligned, log_len_lem, entry_at-index}
use mxkeys_org.Raft.Append.{
  append_all, advance_commit, prev_matches, follow, conclude, handle_append_entries,
}
use mathlib.Core.Bool.{false≢true}
use mxkeys_org.Raft.Append.Frame.{append_all-SameBut}
use mxkeys_org.Raft.Append.Placement.{IsEntry}
use mxkeys_org.Raft.Append.Loop.{Holds, Stored, append_all-Stored}

-- A request whose entries carry the indices after PrevLogIndex, far below the `uint64` limit.
pub record IsWellFormed (req : AppendEntriesRequest) : Type 0 where
  pub indexed : IndexedFrom req.prev_log_index req.entries
  pub room : req.prev_log_index + length req.entries + 1 < 2 ^ 63

follow-IsAligned :
    (now : ℕ) (req : AppendEntriesRequest) (n : Node) → IsAligned n → IsAligned (follow now req n)
follow-IsAligned now req n a = record {
  indexed = a.indexed;
  behind_snapshot = a.behind_snapshot;
  room = a.room;
}

entry_at-follow :
    (now : ℕ) (req : AppendEntriesRequest) (n : Node) (j : ℕ)
    → entry_at (follow now req n) j ≡ entry_at n j
unfolding entry_at
entry_at-follow now req n j = refl

term_at-inside :
    (n : Node) (idx : ℕ) {t : ℕ} → IsAligned n → term_at n idx ≡ some t → idx ≤ log_len n
unfolding term_at
term_at-inside n idx {t} a p = elim (Option-cases (entry_at n idx)) [
  | inl gone ↦ ground (arith, a.behind_snapshot, log_len_lem n a)
  | inr (e, here) ↦ (entry_at-index n idx a here).2
]

-- The consistency check admits only a position that the log has reached.
prev_matches-inside :
    (req : AppendEntriesRequest) (n : Node)
    → IsAligned n
    → prev_matches req n ≡ true
    → req.prev_log_index ≤ log_len n
unfolding prev_matches
prev_matches-inside req n a p = elim (Option-cases (term_at n req.prev_log_index)) [
  | inl gone ↦ ground arith
  | inr (t, here) ↦ term_at-inside n req.prev_log_index a here
]

-- The loop of an accepted request.
abbrev pub after_loop : ℕ → AppendEntriesRequest → Node → Node × Bool
after_loop now req n = append_all req.prev_log_index req.entries (follow now req n, true)

loop-Stored :
    (now : ℕ) (req : AppendEntriesRequest) (n : Node)
    → IsAligned n
    → IsWellFormed req
    → prev_matches req (follow now req n) ≡ true
    → Stored req.prev_log_index req.entries (follow now req n) (after_loop now req n)
loop-Stored now req n a w p =
    let b = follow-IsAligned now req n a in
    append_all-Stored req.prev_log_index req.entries (follow now req n) b w.indexed
      (prev_matches-inside req (follow now req n) b p) w.room

-- The ways through the handler: a refusal before the loop, or the loop.
data Way (now : ℕ) (req : AppendEntriesRequest) (n : Node) : Type 0 where
  stale :
      handle_append_entries now (some req) n
        ≡ (n, record { term = n.current_term; success = false })
      → Way now req n
  mismatch :
      handle_append_entries now (some req) n
        ≡ (follow now req n, record { term = n.current_term; success = false })
      → Way now req n
  looped :
      prev_matches req (follow now req n) ≡ true
      → handle_append_entries now (some req) n ≡ conclude n.current_term req (after_loop now req n)
      → Way now req n

ways : (now : ℕ) (req : AppendEntriesRequest) (n : Node) → Way now req n
unfolding handle_append_entries
ways now req n = elim (Bool-cases (ltb req.term n.current_term)) [
  | inl old ↦ stale (rw old refl)
  | inr new ↦ elim (Bool-cases (prev_matches req (follow now req n))) [
    | inl fits ↦ looped fits (rw new (rw fits refl))
    | inr gap ↦ mismatch (rw new (rw gap refl))
  ]
]

-- What the log and the commit index are after the handler has answered.
record Answered (req : AppendEntriesRequest) (n : Node) (r : Node × AppendEntriesResponse)
    : Type 0 where
  aligned : IsAligned r.0
  before : (j : ℕ) → j ≤ req.prev_log_index → entry_at r.0 j ≡ entry_at n j
  stored : r.1.success ≡ true → All (Holds n n.log_offset r.0) req.entries
  commit :
      r.1.success ≡ true
      → (r.0.commit_index ≡ n.commit_index)
        ⊎ ((r.0.commit_index ≤ log_len r.0) × (r.0.commit_index ≤ req.leader_commit))
  failed_commit : r.1.success ≡ false → r.0.commit_index ≡ n.commit_index

unmoved-Answered :
    (req : AppendEntriesRequest) (n m : Node) (t : ℕ)
    → IsAligned m
    → ((j : ℕ) → entry_at m j ≡ entry_at n j)
    → m.commit_index ≡ n.commit_index
    → Answered req n (m, record { term = t; success = false })
unmoved-Answered req n m t a e c = record {
  aligned = a;
  before = λ j _. e j;
  stored = λ f. cc;
  commit = λ f. cc;
  failed_commit = λ _. c;
}

advance-IsAligned :
    (req : AppendEntriesRequest) (n : Node) → IsAligned n → IsAligned (advance_commit req n)
unfolding advance_commit
advance-IsAligned req n a = elim (Bool-cases (ltb n.commit_index req.leader_commit)) [
  | inl more ↦
      rw more (record { indexed = a.indexed; behind_snapshot = a.behind_snapshot; room = a.room })
  | inr less ↦ rw less a
]

entry_at-advance :
    (req : AppendEntriesRequest) (n : Node) (j : ℕ)
    → entry_at (advance_commit req n) j ≡ entry_at n j
unfolding advance_commit entry_at
entry_at-advance req n j = elim (Bool-cases (ltb n.commit_index req.leader_commit)) [
  | inl more ↦ rw more refl
  | inr less ↦ rw less refl
]

advance_commit-bound :
    (req : AppendEntriesRequest) (n : Node)
    → req.prev_log_index + length req.entries < 2 ^ 63
    → req.prev_log_index + length req.entries ≤ log_len n
    → ((advance_commit req n).commit_index ≡ n.commit_index)
      ⊎ (((advance_commit req n).commit_index ≤ log_len (advance_commit req n))
          × ((advance_commit req n).commit_index ≤ req.leader_commit))
unfolding advance_commit log_len
advance_commit-bound req n r h = ground arith

Holds-entry :
    (old n m : Node) (off : ℕ) (x : LogEntry)
    → ((j : ℕ) → entry_at m j ≡ entry_at n j)
    → Holds old off n x
    → Holds old off m x
Holds-entry old n m off x e (inl low) = inl low
Holds-entry old n m off x e (inr here) =
    inr (subst (IsEntry x (entry_at old x.index)) (sym (e x.index)) here)

Holds-eq :
    (old n m : Node) (off : ℕ) (es : List LogEntry)
    → ((j : ℕ) → entry_at m j ≡ entry_at n j)
    → All (Holds old off n) es
    → All (Holds old off m) es
Holds-eq old n m off [] e h = tt
Holds-eq old n m off (x ∷ es) e h = (Holds-entry old n m off x e h.0, Holds-eq old n m off es e h.1)

before_follow :
    (now : ℕ) (req : AppendEntriesRequest) (n m : Node) (es : List LogEntry)
    → All (Holds (follow now req n) n.log_offset m) es
    → All (Holds n n.log_offset m) es
unfolding entry_at
before_follow now req n m [] h = tt
before_follow now req n m (x ∷ es) h = (h.0, before_follow now req n m es h.1)

conclude-Answered :
    (now : ℕ) (req : AppendEntriesRequest) (n : Node) (p : Node × Bool)
    → IsWellFormed req
    → Stored req.prev_log_index req.entries (follow now req n) p
    → p.0.commit_index ≡ n.commit_index
    → Answered req n (conclude n.current_term req p)
conclude-Answered now req n (m, true) w s c = record {
  aligned = advance-IsAligned req m s.aligned;
  before = λ j h. entry_at-advance req m j ∙ s.before j h ∙ entry_at-follow now req n j;
  stored = λ _.
      Holds-eq n m (advance_commit req m) n.log_offset req.entries (entry_at-advance req m)
        (before_follow now req n m req.entries (s.stored refl));
  commit = λ _.
      let after = advance_commit req m in
      subst
        (λ (old : ℕ).
          (after.commit_index ≡ old)
          ⊎ ((after.commit_index ≤ log_len after) × (after.commit_index ≤ req.leader_commit)))
        c (advance_commit-bound req m (omega (arith, w.room)) (s.reached refl));
  failed_commit = λ f. cc;
}
conclude-Answered now req n (m, false) w s c = record {
  aligned = s.aligned;
  before = λ j h. s.before j h ∙ entry_at-follow now req n j;
  stored = λ f. cc;
  commit = λ f. cc;
  failed_commit = λ _. c;
}

loop-commit :
    (now : ℕ) (req : AppendEntriesRequest) (n : Node)
    → (after_loop now req n).0.commit_index ≡ n.commit_index
loop-commit now req n =
    let s = append_all-SameBut req.prev_log_index req.entries (follow now req n) true in
    ap (λ (m : Node). m.commit_index) s.same

answer :
    (now : ℕ) (req : AppendEntriesRequest) (n : Node)
    → IsAligned n
    → IsWellFormed req
    → Answered req n (handle_append_entries now (some req) n)
answer now req n a w = elim (ways now req n) [
  | stale p ↦ rw p (unmoved-Answered req n n n.current_term a (λ j. refl) refl)
  | mismatch p ↦ rw p (
      unmoved-Answered req n (follow now req n) n.current_term (follow-IsAligned now req n a)
        (entry_at-follow now req n) refl)
  | looped fits p ↦ rw p (
      conclude-Answered now req n (after_loop now req n) w (loop-Stored now req n a w fits)
        (loop-commit now req n))
]

-- An aligned log, in which every entry carries the index at which it is read, stays aligned under every request
-- whose entries carry the indices that follow its PrevLogIndex, all below 2^63, whatever the handler answers. The
-- handler does not check the indices of the entries.
pub append-IsAligned :
    (now : ℕ) (req : AppendEntriesRequest) (n : Node)
    → IsAligned n
    → IsWellFormed req
    → IsAligned (handle_append_entries now (some req) n).0
append-IsAligned now req n a w = (answer now req n a w).aligned

-- For a follower with an aligned log and a request whose entries carry the indices that follow its PrevLogIndex, all
-- below 2^63: if the answer is success, the follower reads at the index of every entry of the request that lies above
-- its compacted prefix that entry, command included, or else the entry that it had there before, which has the same
-- term. The handler does not check the indices of the entries.
pub append_matches :
    (now : ℕ) (req : AppendEntriesRequest) (n : Node)
    → IsAligned n
    → IsWellFormed req
    → (handle_append_entries now (some req) n).1.success ≡ true
    → All (Holds n n.log_offset (handle_append_entries now (some req) n).0) req.entries
append_matches now req n a w h = (answer now req n a w).stored h

-- For an aligned log and a request whose entries carry consecutive indices, the log reads as before up to PrevLogIndex, whether the request succeeds
-- or not.
pub append_keeps_prefix :
    (now : ℕ) (req : AppendEntriesRequest) (n : Node) (j : ℕ)
    → IsAligned n
    → IsWellFormed req
    → j ≤ req.prev_log_index
    → entry_at (handle_append_entries now (some req) n).0 j ≡ entry_at n j
append_keeps_prefix now req n j a w h = (answer now req n a w).before j h

-- On an aligned log, a request whose entries carry consecutive indices moves the commit index only if it succeeds, and then no further than the last entry
-- of the log and than the leader's commit index.
pub append_commit :
    (now : ℕ) (req : AppendEntriesRequest) (n : Node)
    → IsAligned n
    → IsWellFormed req
    → ((handle_append_entries now (some req) n).0.commit_index ≡ n.commit_index)
      ⊎ (((handle_append_entries now (some req) n).1.success ≡ true)
          × ((handle_append_entries now (some req) n).0.commit_index
              ≤ log_len (handle_append_entries now (some req) n).0)
          × ((handle_append_entries now (some req) n).0.commit_index ≤ req.leader_commit))
append_commit now req n a w =
    let r = answer now req n a w in
    elim (Bool-cases (handle_append_entries now (some req) n).1.success) [
      | inl fine ↦ elim (r.commit fine) [
        | inl kept ↦ inl kept
        | inr (in_log, in_leader) ↦ inr (fine, in_log, in_leader)
      ]
      | inr failed ↦ inl (r.failed_commit failed)
    ]

-- An accepted request without entries whose PrevLogIndex is below the commit index, from a leader
-- that has committed more, takes the commit index back to PrevLogIndex.
pub commit_regresses :
    (now : ℕ) (req : AppendEntriesRequest) (n : Node)
    → req.entries ≡ []
    → (handle_append_entries now (some req) n).1.success ≡ true
    → req.prev_log_index < n.commit_index
    → n.commit_index < req.leader_commit
    → n.commit_index < 2 ^ 64
    → (handle_append_entries now (some req) n).0.commit_index ≡ req.prev_log_index
unfolding advance_commit append_all
commit_regresses now req n e ok lo hi r = elim (ways now req n) [
  | stale p ↦
      absurd (false≢true (sym (ap (λ (x : Node × AppendEntriesResponse). x.1.success) p) ∙ ok))
  | mismatch p ↦
      absurd (false≢true (sym (ap (λ (x : Node × AppendEntriesResponse). x.1.success) p) ∙ ok))
  | looped fits p ↦ rw p (rw e (ground arith))
]
