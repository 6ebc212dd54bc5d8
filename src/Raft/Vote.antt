-- ===== src/Raft/Vote.antt =====
-- internal/zero/raft/rpc_handlers.go: isLogUpToDate, handlePreVote and handleRequestVote. `none` as a
-- request is a payload that does not decode; `now` is the clock reading of the handler.
pub mod Rules
use mxkeys_org.Prelude.{
  ℕ, ◌-◌, ◌<◌, Bool, true, false, not, ◌&&◌, ◌||◌, Option, none, some, String, str_eq, ltb, leb,
  ◌==◌, if◌then◌else◌,
}
use mxkeys_org.Raft.{Node, Config, State, follower, VoteRequest, VoteResponse}
use mxkeys_org.Raft.LogView.{last_log_index_term}

unfoldable pub is_log_up_to_date : Node → ℕ → ℕ → Bool
is_log_up_to_date n last_log_index last_log_term =
    let (my_last_index, my_last_term) = last_log_index_term n in
    if not (last_log_term == my_last_term)
    then ltb my_last_term last_log_term
    else leb my_last_index last_log_index

abbrev pub refuse : Node → VoteResponse
refuse n = record { term = n.current_term; vote_granted = false }

abbrev pub grant : Node → VoteResponse
grant n = record { term = n.current_term; vote_granted = true }

-- handlePreVote returns its response alone: it writes nothing to the node.
unfoldable pub handle_pre_vote : ℕ → Option VoteRequest → Node → VoteResponse
handle_pre_vote now none n = refuse n
handle_pre_vote now (some req) n =
    if ltb req.term n.current_term
    then refuse n
    else if ltb (now - n.last_contact) n.config.election_timeout && not (str_eq n.leader_id "")
    then refuse n
    else if not (is_log_up_to_date n req.last_log_index req.last_log_term)
    then refuse n
    else grant n

-- "Update term if necessary."
abbrev pub catch_up : VoteRequest → Node → Node
catch_up req n =
    if ltb n.current_term req.term
    then record n { current_term = req.term; state = follower; voted_for = "" }
    else n

abbrev pub can_vote : VoteRequest → Node → Bool
can_vote req n =
    (str_eq n.voted_for "" || str_eq n.voted_for req.candidate_id)
    && is_log_up_to_date n req.last_log_index req.last_log_term

abbrev pub cast_vote : ℕ → VoteRequest → Node → Node × VoteResponse
cast_vote now req n =
    if can_vote req n
    then (record n { voted_for = req.candidate_id; last_contact = now }, grant n)
    else (n, refuse n)

unfoldable pub handle_request_vote : ℕ → Option VoteRequest → Node → Node × VoteResponse
handle_request_vote now none n = (n, refuse n)
handle_request_vote now (some req) n =
    if ltb req.term n.current_term then (n, refuse n) else cast_vote now req (catch_up req n)
