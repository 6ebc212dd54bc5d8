-- ===== src/Raft/Replication/Commit.antt =====
-- The commit rule of internal/zero/raft/replication.go (updateCommitIndex) against its description: the
-- highest index of the current term that a majority has reached.
use mxkeys_org.Prelude.{
  ℕ, zero, suc, ◌*◌, ◌↔◌, ◌+◌, ◌-◌, ◌/◌, ◌≤◌, ◌<◌, ◌^◌, ◌≡◌, refl, Bool, true, ◌&&◌, some, String,
  List, [], ◌∷◌, ltb, u64, length, arith, Bool-cases, inl, inr, ◌⊎◌, ltb→lt, ltb_false→le,
}
use mxkeys_org.Raft.{Node}
use mxkeys_org.Raft.LogView.{log_len, term_at}
use mxkeys_org.Raft.Replication.{
  count_matches, is_term, commit_round, commit_scan, update_commit_index,
}

-- More than half of the cluster (the node and its peers) has reached `i`.
abbrev pub HasMajority : Node → ℕ → Type 0
HasMajority n i = length n.config.peers + 1 < 2 * count_matches i n n.config.peers

-- What the leader may commit: an entry of its own term on a majority.
abbrev pub IsCommittable : Node → ℕ → Type 0
IsCommittable n i = (term_at n i ≡ some n.current_term) × HasMajority n i

abbrev test : ℕ → Node → Bool
test i n =
    is_term (term_at n i) n.current_term
    && ltb ((length n.config.peers + 1) / 2) (count_matches i n n.config.peers)

abbrev at : ℕ → Node → Node
at c n = record n { commit_index = c }

-- The test reads no commit index.
count_matches-at :
    (i c : ℕ) (n : Node) (ps : List String) → count_matches i (at c n) ps ≡ count_matches i n ps
unfolding count_matches
count_matches-at i c n [] = refl
count_matches-at i c n (p ∷ ps) = ground (arith, count_matches-at i c n ps)

test-at : (i c : ℕ) (n : Node) → test i (at c n) ≡ test i n
unfolding term_at
test-at i c n = rw (count_matches-at i c n n.config.peers) refl

test_iff : (i : ℕ) (n : Node) → (test i n ≡ true) ↔ IsCommittable n i
test_iff i n = ground arith

-- Where a scan of `k` indices from `i` on stops, if it starts from the commit index `c`.
record Scanned (k i c : ℕ) (n m : Node) : Type 0 where
  same : m ≡ at m.commit_index n
  found :
      (m.commit_index ≡ c)
      ⊎ ((i ≤ m.commit_index) × (m.commit_index < i + k) × (test m.commit_index n ≡ true))
  highest : (j : ℕ) → i ≤ j → j < i + k → test j n ≡ true → j ≤ m.commit_index
  grown : c ≤ m.commit_index

scan-Scanned :
    (k i c : ℕ) (n : Node) → i + k < 2 ^ 64 → c < i → Scanned k i c n (commit_scan k i (at c n))
unfolding commit_scan commit_round
scan-Scanned zero i c n r h = record {
  same = refl;
  found = inl refl;
  highest = λ j lo hi t. absurd (omega arith);
  grown = omega arith;
}
scan-Scanned (suc k) i c n r h =
    let next : u64 (i + 1) ≡ suc i = omega arith in
    rw next (elim (Bool-cases (test i n)) [
      | inl hit ↦
          let s = scan-Scanned k (suc i) i n (omega arith) (omega arith) in
          rw (test-at i c n, hit)
            (record {
              same = s.same;
              found = inr (ground (arith, s.found));
              highest = λ j lo hi t. ground (arith, s.highest j, s.grown);
              grown = omega (arith, s.grown);
            })
      | inr miss ↦
          let s = scan-Scanned k (suc i) c n (omega arith) (omega arith) in
          rw (test-at i c n, miss)
            (record {
              same = s.same;
              found = ground (arith, s.found);
              highest = λ j lo hi t. ground (arith, s.highest j, s.grown);
              grown = s.grown;
            })
    ])

update-Scanned :
    (n : Node)
    → n.commit_index ≤ log_len n
    → log_len n + 1 < 2 ^ 64
    → Scanned
        (log_len n - n.commit_index)
        (n.commit_index + 1)
        n.commit_index
        n
        (update_commit_index n)
unfolding update_commit_index
update-Scanned n h r =
    let next : u64 (n.commit_index + 1) ≡ n.commit_index + 1 = omega arith in
    rw next (
      scan-Scanned (log_len n - n.commit_index) (n.commit_index + 1) n.commit_index n (omega arith)
        (omega arith))

-- The leader's commit index moves, if at all, forward within its log, to an entry of its own
-- term that a majority of the cluster has reached.
pub update_commit_index_sound :
    (n : Node)
    → n.commit_index ≤ log_len n
    → log_len n + 1 < 2 ^ 64
    → ((update_commit_index n).commit_index ≡ n.commit_index)
      ⊎ ((n.commit_index < (update_commit_index n).commit_index)
          × ((update_commit_index n).commit_index ≤ log_len n)
          × IsCommittable n (update_commit_index n).commit_index)
update_commit_index_sound n h r =
    let s = update-Scanned n h r in
    elim s.found [
      | inl kept ↦ inl kept
      | inr (lo, hi, t) ↦
          inr (omega arith, omega arith, (test_iff (update_commit_index n).commit_index n).0 t)
    ]

-- No index of the log that the leader may commit lies above its commit index afterwards.
pub update_commit_index_complete :
    (n : Node) (i : ℕ)
    → n.commit_index ≤ log_len n
    → log_len n + 1 < 2 ^ 64
    → i ≤ log_len n
    → IsCommittable n i
    → i ≤ (update_commit_index n).commit_index
update_commit_index_complete n i h r top c =
    let s = update-Scanned n h r in
    elim (Bool-cases (ltb n.commit_index i)) [
      | inl above ↦
          s.highest i (omega (arith, ltb→lt _ _ above)) (omega (arith, ltb→lt _ _ above))
            ((test_iff i n).1 c)
      | inr below ↦ omega (arith, s.grown, ltb_false→le _ _ below)
    ]

-- It writes the commit index alone.
pub update_commit_index-frame :
    (n : Node)
    → n.commit_index ≤ log_len n
    → log_len n + 1 < 2 ^ 64
    → update_commit_index n ≡ record n { commit_index = (update_commit_index n).commit_index }
update_commit_index-frame n h r = (update-Scanned n h r).same
