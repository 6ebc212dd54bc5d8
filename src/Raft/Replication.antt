-- ===== src/Raft/Replication.antt =====
-- internal/zero/raft/replication.go: what the leader sends, what it does with the answer, the commit
-- rule and the apply loop.
pub mod Commit
use mxkeys_org.Prelude.{
  ℕ, zero, suc, ◌+◌, ◌-◌, ◌/◌, ◌<◌, ◌^◌, Bool, true, false, not, ◌&&◌, ◌||◌, Option, none, some,
  String, List, [], ◌∷◌, ltb, leb, ◌==◌, if◌then◌else◌, u64, length, drop, Dict, assign, find,
}
use mxkeys_org.Raft.{
  LogEntry, Node, State, follower, candidate, leader, AppendEntriesRequest, AppendEntriesResponse,
}
use mxkeys_org.Raft.LogView.{log_len, slice_index, entry_at, term_at}

abbrev pub is_leader : State → Bool
is_leader follower = false
is_leader candidate = false
is_leader leader = true

-- m[k] for a map of numbers: 0 if the key is missing.
abbrev pub get_or_zero : Option ℕ → ℕ
get_or_zero none = 0
get_or_zero (some v) = v

abbrev pub next_of : Node → String → ℕ
next_of n peer = get_or_zero (find peer n.next_index)

abbrev pub match_of : Node → String → ℕ
match_of n peer = get_or_zero (find peer n.match_index)

abbrev reaches : ℕ → Option ℕ → Bool
reaches boundary none = false
reaches boundary (some next) = leb next boundary

unfoldable pub needs_snapshot_catch_up : String → Node → Bool
needs_snapshot_catch_up peer n =
    if not (is_leader n.state)
    then false
    else if n.snapshot_index == 0
    then false
    else reaches n.snapshot_index (find peer n.next_index)

abbrev or_zero : Option ℕ → ℕ
or_zero none = 0
or_zero (some t) = t

abbrev tail_from : List LogEntry → Option ℕ → List LogEntry
tail_from log none = []
tail_from log (some slot) = drop slot log

-- appendEntriesSnapshot and the request that sendAppendEntries builds from it, for a peer whose
-- nextIndex is `next`; uint64 subtraction wraps.
unfoldable pub append_request : ℕ → String → Node → AppendEntriesRequest
append_request next advertise_addr n =
    let prev = u64 (next + 2 ^ 64 - 1) in
    record {
      term = n.current_term;
      leader_id = n.config.node_id;
      leader_address = advertise_addr;
      prev_log_index = prev;
      prev_log_term = (if ltb 0 prev then or_zero (term_at n prev) else 0);
      entries = tail_from n.log (slice_index n next);
      leader_commit = n.commit_index;
    }

-- What sendAppendEntries sends: nothing if the node does not lead or the peer wants a snapshot.
unfoldable pub send_append_entries : String → String → Node → Option AppendEntriesRequest
unfolding append_request needs_snapshot_catch_up
send_append_entries peer advertise_addr n =
    if needs_snapshot_catch_up peer n
    then none
    else if not (is_leader n.state)
    then none
    else some (append_request (next_of n peer) advertise_addr n)

-- The self-match and one match for each peer whose matchIndex has reached `i`.
unfoldable pub count_matches : ℕ → Node → List String → ℕ
count_matches i n [] = 1
count_matches i n (p ∷ ps) =
    let rest = count_matches i n ps in if leb i (match_of n p) then rest + 1 else rest

abbrev is_term : Option ℕ → ℕ → Bool
is_term none t = false
is_term (some s) t = s == t

-- The body of the loop of updateCommitIndex.
unfoldable pub commit_round : ℕ → Node → Node
unfolding count_matches
commit_round i n =
    if is_term (term_at n i) n.current_term
      && ltb ((length n.config.peers + 1) / 2) (count_matches i n n.config.peers)
    then record n { commit_index = i }
    else n

unfoldable pub commit_scan : ℕ → ℕ → Node → Node
commit_scan zero i n = n
commit_scan (suc rounds) i n = commit_scan rounds (u64 (i + 1)) (commit_round i n)

unfoldable pub update_commit_index : Node → Node
unfolding commit_scan commit_round
update_commit_index n = commit_scan (log_len n - n.commit_index) (u64 (n.commit_index + 1)) n

-- The end of sendAppendEntries, for a request that was sent in `term` from `next` with `sent`
-- entries; `none` is a failed exchange or an answer that does not decode.
unfoldable pub receive_append : String → ℕ → ℕ → ℕ → Option AppendEntriesResponse → Node → Node
unfolding update_commit_index
receive_append peer term next sent none n = n
receive_append peer term next sent (some resp) n =
    if ltb n.current_term resp.term
    then record n { current_term = resp.term; state = follower; voted_for = "" }
    else if not (is_leader n.state) || not (n.current_term == term) || not (next_of n peer == next)
    then n
    else if resp.success
    then update_commit_index (record n {
      next_index = assign peer (u64 (next + sent)) n.next_index;
      match_index = assign peer (u64 (next + sent + 2 ^ 64 - 1)) n.match_index;
    })
    else if ltb 1 (next_of n peer)
    then record n { next_index = assign peer (next_of n peer - 1) n.next_index }
    else n

-- One round of the loop of applyLoop: the entry that it hands to the state machine, if any.
unfoldable pub apply_round : Node → Node × Option LogEntry
apply_round n =
    if ltb n.last_applied n.commit_index
    then (let at = u64 (n.last_applied + 1) in (record n { last_applied = at }, entry_at n at))
    else (n, none)
