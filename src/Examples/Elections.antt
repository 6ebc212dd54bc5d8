-- ===== src/Examples/Elections.antt =====
-- Votes of a node of internal/zero/raft.
use mathlib.Core.Bool.{false≢true}
use mxkeys_org.Prelude.{
  ◌≤◌, ◌≡◌, refl, true, Option, none, some, String, List, [], ◌∷◌, arith, eq_iff,
}
use mxkeys_org.Raft.{Node, VoteRequest, new_node}
use mxkeys_org.Raft.LogView.{last_log_index_term}
use mxkeys_org.Raft.Vote.{handle_request_vote, is_log_up_to_date}
use mxkeys_org.Raft.Election.{votes_needed}
use mxkeys_org.Raft.Election.Quorum.{tally, votes_needed_unique}
use mxkeys_org.Raft.Steps.{here, further, vote}
use mxkeys_org.Raft.Steps.Votes.{one_vote_per_term}

abbrev voter : Node
voter =
    new_node
      (record {
        node_id = "n1";
        peers = "n2" ∷ "n3" ∷ [];
        election_timeout = 1000;
        heartbeat_interval = 250;
        commit_timeout = 5000;
      })
      0

abbrev request : VoteRequest
request = record { term = 1; candidate_id = "n2"; last_log_index = 0; last_log_term = 0 }

voter_grants : (handle_request_vote 5 (some request) voter).1.vote_granted ≡ true
unfolding handle_request_vote is_log_up_to_date last_log_index_term
voter_grants = refl

abbrev voted : Node
voted = (handle_request_vote 5 (some request) voter).0

-- The candidate asks again.
abbrev asked_again : Node
asked_again = (handle_request_vote 6 (some request) voted).0

granted_again : (handle_request_vote 7 (some request) asked_again).1.vote_granted ≡ true
unfolding handle_request_vote is_log_up_to_date last_log_index_term
granted_again = refl

one_vote_per_term_example : request.candidate_id ≡ request.candidate_id
one_vote_per_term_example =
    one_vote_per_term 5 7 request request voter asked_again (λ e. false≢true ((eq_iff "n2" "").1 e))
      voter_grants (further here (vote 6 (some request))) granted_again refl

abbrev ballots : List (Option String)
ballots = some "n1" ∷ none ∷ some "n1" ∷ []

ballots-tally : votes_needed 2 ≤ tally "n1" ballots
unfolding votes_needed tally
ballots-tally = omega arith

votes_needed_unique_example : ◌≡◌ {A = String} "n1" "n1"
votes_needed_unique_example =
    votes_needed_unique 2 ballots "n1" "n1" refl ballots-tally ballots-tally
