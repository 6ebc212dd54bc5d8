-- ===== src/Raft/Election/Quorum.antt =====
-- The majorities of internal/zero/raft/election.go: what the collecting loop counts, and why two
-- candidates cannot both win a term.
use mxkeys_org.Prelude.{
  ℕ, ◌+◌, ◌*◌, ◌≤◌, ◌<◌, ◌≡◌, ◌≢◌, sym, ◌∙◌, true, false, Option, none, some, String, str_eq,
  eq_iff, List, [], ◌∷◌, if◌then◌else◌, length, take, arith, Bool-cases, inl, inr, ◌↔◌,
}
use mathlib.Core.Bool.{false≢true}
use mxkeys_org.Raft.{Node}
use mxkeys_org.Raft.Election.{Arrival, reply, deadline, stopped, votes_needed, collect_votes, wins}

-- The votes that arrive before the node is stopped.
unfoldable pub granted : List Arrival → ℕ
granted [] = 0
granted (reply true ∷ rest) = granted rest + 1
granted (reply false ∷ rest) = granted rest
granted (deadline ∷ rest) = granted rest
granted (stopped ∷ _) = 0

collect_counts :
    (needed votes : ℕ) (l : List Arrival)
    → votes < needed
    → (collect_votes needed votes l ≡ true) ↔ (needed ≤ votes + granted l)
unfolding collect_votes granted
collect_counts needed votes [] h = ground arith
collect_counts needed votes (reply true ∷ rest) h =
    ground (arith, collect_counts needed (votes + 1) rest)
collect_counts needed votes (reply false ∷ rest) h =
    ground (arith, collect_counts needed (votes + 0) rest)
collect_counts needed votes (deadline ∷ rest) h =
    ground (arith, collect_counts needed (votes + 0) rest)
collect_counts needed votes (stopped ∷ rest) h = ground arith

-- A candidate with peers goes on to lead exactly if its own vote and those that arrive, one answer
-- for each peer at most, are more than half of the cluster.
pub wins_iff_majority :
    (l : List Arrival) (n : Node)
    → 0 < length n.config.peers
    → (wins l n ≡ true)
      ↔ (length n.config.peers + 1 < 2 * (1 + granted (take (length n.config.peers) l)))
unfolding wins votes_needed
wins_iff_majority l n h =
    let c =
      collect_counts (votes_needed (length n.config.peers)) 1 (take (length n.config.peers) l)
        (unfold votes_needed in omega arith) in
    ground (arith, c)

-- The votes that `a` has among the ballots of one term, one for each member of the cluster.
unfoldable pub tally : String → List (Option String) → ℕ
tally a [] = 0
tally a (none ∷ bs) = tally a bs
tally a (some b ∷ bs) = let rest = tally a bs in if str_eq b a then rest + 1 else rest

tally_disjoint :
    (a b : String) (bs : List (Option String)) → a ≢ b → tally a bs + tally b bs ≤ length bs
unfolding tally
tally_disjoint a b [] h = omega arith
tally_disjoint a b (none ∷ bs) h = omega (arith, tally_disjoint a b bs h)
tally_disjoint a b (some c ∷ bs) h = ground (arith, tally_disjoint a b bs h, eq_iff c a, eq_iff c b)

-- Where each of the `peers + 1` members casts one ballot, two candidates that both have the votes
-- needed are one.
pub votes_needed_unique :
    (peers : ℕ) (bs : List (Option String)) (a b : String)
    → length bs ≡ peers + 1
    → votes_needed peers ≤ tally a bs
    → votes_needed peers ≤ tally b bs
    → a ≡ b
unfolding votes_needed
votes_needed_unique peers bs a b l p q = elim (Bool-cases (str_eq a b)) [
  | inl same ↦ (eq_iff a b).0 same
  | inr other ↦
      absurd (omega (arith, tally_disjoint a b bs (λ e. false≢true (sym other ∙ (eq_iff a b).1 e))))
]
