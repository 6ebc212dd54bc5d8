-- ===== src/Raft/Steps/Votes.antt =====
-- Terms and votes along the runs of a node (internal/zero/raft).
use mxkeys_org.Prelude.{ℕ, ◌≤◌, ◌≡◌, ◌≢◌, true, some, arith}
use mxkeys_org.Raft.{Node, VoteRequest}
use mxkeys_org.Raft.Vote.{handle_request_vote}
use mxkeys_org.Raft.Vote.Rules.{request_vote_grants}
use mxkeys_org.Raft.Steps.{
  Step, Reach, here, further, vote, append, chunk, adopt, election, claim, ballot, acknowledgement,
  compaction, reservation, persistence, retraction, commitment, application, exchange, advance,
}
use mxkeys_org.Raft.Steps.Progress.{Progress, trans-Progress, refl-Progress}
use mxkeys_org.Raft.Steps.Handlers.{vote-Progress, append-Progress, chunk-Progress}
use mxkeys_org.Raft.Steps.Writes.{
  adopt-Progress, claim-Progress, ballot-Progress, commit-Progress, answer-Progress,
  compact-Progress, reserve-Progress, persist-Progress, take_back-Progress, apply-Progress,
  campaign-Progress, exchange-Progress, advance-Progress,
}

Step-Progress : {n m : Node} → Step n m → Progress n m
Step-Progress {n} (vote now msg) = vote-Progress now msg n
Step-Progress {n} (append now msg) = append-Progress now msg n
Step-Progress {n} (chunk now inst spill msg) = chunk-Progress now inst spill msg n
Step-Progress {n} (adopt i t content) = adopt-Progress i t content n
Step-Progress {n} (election now h) = campaign-Progress now n h
Step-Progress {n} (claim t) = claim-Progress t n
Step-Progress {n} (ballot a) = ballot-Progress a n
Step-Progress {n} (acknowledgement p t x s a) = answer-Progress p t x s a n
Step-Progress {n} (compaction p s c) = compact-Progress p s c n
Step-Progress {n} (reservation c) = reserve-Progress c n
Step-Progress {n} (persistence e) = persist-Progress e n
Step-Progress {n} (retraction e l) = take_back-Progress e l n
Step-Progress {n} commitment = commit-Progress n
Step-Progress {n} application = apply-Progress n
Step-Progress {n} (exchange a) = exchange-Progress a n
Step-Progress {n} (advance p s) = advance-Progress p s n

Reach-Progress : {n m : Node} → Reach n m → Progress n m
Reach-Progress {n} here = refl-Progress n
Reach-Progress {n} (further {m = m} {k = k} r s) =
    trans-Progress n m k (Reach-Progress r) (Step-Progress s)

-- Along any run of a node, whatever it receives and however its file writes go, the term does
-- not fall.
pub term_monotone : (n m : Node) → Reach n m → n.current_term ≤ m.current_term
term_monotone n m r = (Reach-Progress r).later

granted_state :
    (now : ℕ) (req : VoteRequest) (n : Node)
    → (handle_request_vote now (some req) n).1.vote_granted ≡ true
    → ((handle_request_vote now (some req) n).0.current_term ≡ req.term)
      × ((handle_request_vote now (some req) n).0.voted_for ≡ req.candidate_id)
unfolding handle_request_vote
granted_state now req n h = (ground arith, ground arith)

-- A node that has granted its vote to a candidate with a name grants, along any run of the transitions of Step, no
-- vote in that term to another candidate. A run does not include a restart.
pub one_vote_per_term :
    (now now' : ℕ) (req req' : VoteRequest) (n m : Node)
    → req.candidate_id ≢ ""
    → (handle_request_vote now (some req) n).1.vote_granted ≡ true
    → Reach (handle_request_vote now (some req) n).0 m
    → (handle_request_vote now' (some req') m).1.vote_granted ≡ true
    → req'.term ≡ req.term
    → req'.candidate_id ≡ req.candidate_id
one_vote_per_term now now' req req' n m named g r g' same =
    let (t, v) = granted_state now req n g in
    let p = Reach-Progress r in
    let free = ((request_vote_grants now' req' m).0 g').0 in ground (arith, t, v, p.later, p.steady)
