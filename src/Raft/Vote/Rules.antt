-- ===== src/Raft/Vote/Rules.antt =====
-- What `handlePreVote` and `handleRequestVote` (internal/zero/raft/rpc_handlers.go) grant, and to whom.
use mxkeys_org.Prelude.{
  ℕ, ◌-◌, ◌≤◌, ◌<◌, ◌≡◌, refl, true, some, eq_iff, ltb, arith, ◌⊎◌, inl, inr, ◌↔◌, Bool-cases,
  ltb→lt, ltb_false→le, le→ltb_false,
}
use mxkeys_org.Raft.{Node, follower, VoteRequest}
use mxkeys_org.Raft.LogView.{last_log_index_term}
use mxkeys_org.Raft.Vote.{cast_vote, is_log_up_to_date, handle_pre_vote, handle_request_vote}

-- The order on (term, index) by which Raft compares logs.
abbrev pub LogLe : ℕ × ℕ → ℕ × ℕ → Type 0
LogLe (i, s) (j, t) = (s < t) ⊎ ((s ≡ t) × (i ≤ j))

up_to_date_sound :
    (n : Node) (i t : ℕ) → is_log_up_to_date n i t ≡ true → LogLe (last_log_index_term n) (i, t)
unfolding is_log_up_to_date
up_to_date_sound n i t h = ground arith

up_to_date_complete :
    (n : Node) (i t : ℕ) → LogLe (last_log_index_term n) (i, t) → is_log_up_to_date n i t ≡ true
unfolding is_log_up_to_date
up_to_date_complete n i t h = ground arith

-- The candidate's log is not behind the voter's.
abbrev pub LogCovers : Node → VoteRequest → Type 0
LogCovers n req = LogLe (last_log_index_term n) (req.last_log_index, req.last_log_term)

-- The voter has no vote in the request's term, or gave it to this candidate.
abbrev pub IsFree : Node → VoteRequest → Type 0
IsFree n req =
    (n.current_term < req.term)
    ⊎ ((n.current_term ≡ req.term) × ((n.voted_for ≡ "") ⊎ (n.voted_for ≡ req.candidate_id)))

free_same :
    (req : VoteRequest) (n : Node)
    → req.term ≤ n.current_term
    → IsFree n req
    → (n.voted_for ≡ "") ⊎ (n.voted_for ≡ req.candidate_id)
free_same req n h (inl newer) = absurd (omega arith)
free_same req n h (inr (_, v)) = v

cast_vote_grants :
    (now : ℕ) (req : VoteRequest) (n : Node)
    → ((cast_vote now req n).1.vote_granted ≡ true)
      ↔ (((n.voted_for ≡ "") ⊎ (n.voted_for ≡ req.candidate_id)) × LogCovers n req)
cast_vote_grants now req n = ground (
  arith,
  eq_iff n.voted_for "",
  eq_iff n.voted_for req.candidate_id,
  up_to_date_sound n req.last_log_index req.last_log_term,
  up_to_date_complete n req.last_log_index req.last_log_term,
)

-- A vote is granted exactly to a candidate whose term is not behind, whose log covers the
-- voter's, and for whom the voter is free.
pub request_vote_grants :
    (now : ℕ) (req : VoteRequest) (n : Node)
    → ((handle_request_vote now (some req) n).1.vote_granted ≡ true)
      ↔ (IsFree n req × LogCovers n req)
unfolding handle_request_vote last_log_index_term
request_vote_grants now req n = elim (Bool-cases (ltb n.current_term req.term)) [
  | inl newer ↦
      let g =
        cast_vote_grants now req
          (record n { current_term = req.term; state = follower; voted_for = "" }) in
      rw newer (
        rw (le→ltb_false req.term n.current_term (omega (arith, ltb→lt _ _ newer)))
          ((λ h. (inl (ltb→lt _ _ newer), (g.0 h).1)), λ h. g.1 (inl refl, h.1)))
  | inr same ↦ rw same (elim (Bool-cases (ltb req.term n.current_term)) [
    | inl old ↦ rw old ((λ h. cc), λ h. absurd (ground arith))
    | inr now_or ↦
        let g = cast_vote_grants now req n in
        rw now_or (
          (λ h. (
            inr (omega (arith, ltb_false→le _ _ same, ltb_false→le _ _ now_or), (g.0 h).0),
            (g.0 h).1,
          )),
          λ h. g.1 (free_same req n (ltb_false→le _ _ same) h.0, h.1),
        )
  ])
]

-- A pre-vote is granted exactly if the term is not behind, no leader is known to have been in
-- touch within the election timeout, and the candidate's log covers the voter's.
pub pre_vote_grants :
    (now : ℕ) (req : VoteRequest) (n : Node)
    → ((handle_pre_vote now (some req) n).vote_granted ≡ true) ↔ (
        (n.current_term ≤ req.term)
        × ((n.config.election_timeout ≤ now - n.last_contact) ⊎ (n.leader_id ≡ ""))
        × LogCovers n req)
unfolding handle_pre_vote last_log_index_term is_log_up_to_date
pre_vote_grants now req n = ground (arith, eq_iff n.leader_id "")
