-- ===== src/Raft/Election.antt =====
-- internal/zero/raft/election.go: runPreVote, sendPreVote, startElection, becomeLeader and requestVote.
-- The replies of the peers reach the loops as a list in the order of their arrival.
pub mod Quorum
use mxkeys_org.Prelude.{
  ℕ, ◌+◌, ◌/◌, ◌<◌, Bool, true, false, not, ◌&&◌, ◌||◌, Option, none, some, String, List, [], ◌∷◌,
  ltb, leb, ◌==◌, if◌then◌else◌, u64, length, take, Dict, assign,
}
use mxkeys_org.Raft.{Node, State, follower, candidate, leader, VoteRequest, VoteResponse}
use mxkeys_org.Raft.LogView.{log_len, last_log_index_term}

-- What one `select` of a collecting loop receives.
pub data Arrival : Type 0 where
  reply : Bool → Arrival
  deadline : Arrival
  stopped : Arrival

-- (len(peers)+1)/2 + 1
unfoldable pub votes_needed : ℕ → ℕ
votes_needed peers = (peers + 1) / 2 + 1

-- The request that a candidate or a pre-candidate sends for `term`.
unfoldable pub vote_request : ℕ → Node → VoteRequest
vote_request term n =
    let (last_log_index, last_log_term) = last_log_index_term n in
    record {
      term = term;
      candidate_id = n.config.node_id;
      last_log_index = last_log_index;
      last_log_term = last_log_term;
    }

-- sendPreVote: `none` is a failed exchange or a reply that does not decode.
unfoldable pub send_pre_vote : ℕ → Option VoteResponse → Bool
send_pre_vote term none = false
send_pre_vote term (some resp) = if ltb term resp.term then false else resp.vote_granted

-- The loop of runPreVote.
unfoldable pub collect_pre_votes : ℕ → ℕ → List Arrival → Bool
collect_pre_votes needed grants [] = leb needed grants
collect_pre_votes needed grants (deadline ∷ _) = leb needed grants
collect_pre_votes needed grants (stopped ∷ _) = false
collect_pre_votes needed grants (reply false ∷ rest) = collect_pre_votes needed grants rest
collect_pre_votes needed grants (reply true ∷ rest) =
    let later = collect_pre_votes needed (grants + 1) rest in
    if leb needed (grants + 1) then true else later

unfoldable pub run_pre_vote : List Arrival → Node → Bool
unfolding collect_pre_votes votes_needed
run_pre_vote arrivals n =
    let peers = length n.config.peers in
    if peers == 0 then true else collect_pre_votes (votes_needed peers) 1 (take peers arrivals)

-- The first critical section of startElection.
unfoldable pub campaign : ℕ → Node → Node
campaign now n = record n {
  current_term = u64 (n.current_term + 1);
  state = candidate;
  voted_for = n.config.node_id;
  last_contact = now;
}

abbrev vote_of : Arrival → ℕ
vote_of (reply true) = 1
vote_of (reply false) = 0
vote_of deadline = 0
vote_of stopped = 0

-- The loop of startElection: it counts until a majority, and a time-out counts as no vote.
unfoldable pub collect_votes : ℕ → ℕ → List Arrival → Bool
collect_votes needed votes [] = false
collect_votes needed votes (stopped ∷ _) = false
collect_votes needed votes (a ∷ rest) =
    let later = collect_votes needed (votes + vote_of a) rest in
    if leb needed (votes + vote_of a) then true else later

-- Whether the candidate goes on to claim the leadership.
unfoldable pub wins : List Arrival → Node → Bool
unfolding collect_votes votes_needed
wins arrivals n =
    let peers = length n.config.peers in
    if leb (votes_needed peers) 1
    then true
    else collect_votes (votes_needed peers) 1 (take peers arrivals)

abbrev assign_all : ℕ → List String → Dict ℕ → Dict ℕ
assign_all v [] m = m
assign_all v (p ∷ ps) m = assign_all v ps (assign p v m)

unfoldable pub become_leader : Node → Node
become_leader n = record n {
  state = leader;
  leader_id = n.config.node_id;
  next_index = assign_all (u64 (log_len n + 1)) n.config.peers n.next_index;
  match_index = assign_all 0 n.config.peers n.match_index;
}

abbrev pub is_candidate : State → Bool
is_candidate follower = false
is_candidate candidate = true
is_candidate leader = false

-- The critical section that follows a majority, on the node as it is by then.
unfoldable pub claim_leadership : ℕ → Node → Node
unfolding become_leader
claim_leadership current_term n =
    if is_candidate n.state && n.current_term == current_term then become_leader n else n

-- requestVote: what the answer of a peer does to the candidate, and whether it counts.
unfoldable pub receive_vote : Option VoteResponse → Node → Node × Bool
receive_vote none n = (n, false)
receive_vote (some resp) n =
    if ltb n.current_term resp.term
    then (record n { current_term = resp.term; state = follower; voted_for = "" }, false)
    else (n, resp.vote_granted)
