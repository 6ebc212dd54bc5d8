-- ===== src/Raft/Append.antt =====
-- internal/zero/raft/rpc_handlers.go: handleAppendEntries. `none` as a request is a payload that does
-- not decode; `now` is the clock reading of the handler.
pub mod Placement
pub mod Frame
pub mod Loop
pub mod Matching
use mxkeys_org.Prelude.{
  ℕ, ◌+◌, ◌-◌, ◌<◌, Bool, true, false, not, ◌&&◌, ◌||◌, Option, none, some, String, str_eq, List,
  [], ◌∷◌, ◌++◌, ltb, leb, ◌==◌, if◌then◌else◌, u64, length,
}
use mxkeys_org.Raft.{LogEntry, Node, follower, AppendEntriesRequest, AppendEntriesResponse}
use mxkeys_org.Raft.LogView.{log_len, entry_at, term_at}
use mxkeys_org.Raft.Persistence.{persist_entry, truncate_log_after}

-- The write of the log file first, then the entry in the slice; false is an early return.
unfoldable pub push_entry : LogEntry → Node × Bool → Node × Bool
push_entry entry (n, true) =
    let (n', fine) = persist_entry entry n in
    if fine then (record n' { log = n'.log ++ entry ∷ [] }, true) else (n', false)
push_entry entry (n, false) = (n, false)

-- The loop's body for an entry that the slice may hold already.
unfoldable pub place_entry : ℕ → LogEntry → Option LogEntry → Node → Node × Bool
unfolding push_entry
place_entry idx entry (some existing) n =
    if not (existing.term == entry.term)
    then push_entry entry (truncate_log_after (idx - 1) n)
    else (n, true)
place_entry idx entry none n = if ltb (log_len n) idx then push_entry entry (n, true) else (n, true)

-- One round of the loop: `idx` is PrevLogIndex + i + 1.
unfoldable pub append_entry : ℕ → LogEntry → Node → Node × Bool
unfolding place_entry
append_entry idx entry n = place_entry idx entry (entry_at n idx) n

-- `for i, entry := range req.Entries`: `before` is PrevLogIndex + i.
unfoldable pub append_all : ℕ → List LogEntry → Node × Bool → Node × Bool
append_all before [] p = p
append_all before (e ∷ es) (n, true) =
    append_all (u64 (before + 1)) es (append_entry (u64 (before + 1)) e n)
append_all before (e ∷ es) (n, false) = (n, false)

abbrev pub min_u64 : ℕ → ℕ → ℕ
min_u64 a b = if ltb a b then a else b

-- "Update commit index."
unfoldable pub advance_commit : AppendEntriesRequest → Node → Node
advance_commit req n =
    if ltb n.commit_index req.leader_commit
    then record n {
      commit_index = min_u64 req.leader_commit (u64 (req.prev_log_index + length req.entries));
    }
    else n

-- "Update term and state."
abbrev pub follow : ℕ → AppendEntriesRequest → Node → Node
follow now req n = record n {
  current_term = (if ltb n.current_term req.term then req.term else n.current_term);
  voted_for = (if ltb n.current_term req.term then "" else n.voted_for);
  state = follower;
  leader_id = req.leader_id;
  leader_addr = (if str_eq req.leader_address "" then n.leader_addr else req.leader_address);
  last_contact = now;
}

abbrev term_agrees : Option ℕ → ℕ → Bool
term_agrees none t = false
term_agrees (some s) t = s == t

-- "Check log consistency."
unfoldable pub prev_matches : AppendEntriesRequest → Node → Bool
prev_matches req n =
    if ltb 0 req.prev_log_index
    then term_agrees (term_at n req.prev_log_index) req.prev_log_term
    else true

-- The answer names the term that the node had when the request came in, unless it succeeds.
abbrev pub conclude : ℕ → AppendEntriesRequest → Node × Bool → Node × AppendEntriesResponse
conclude old_term req (n, true) =
    (advance_commit req n, record { term = n.current_term; success = true })
conclude old_term req (n, false) = (n, record { term = old_term; success = false })

unfoldable pub handle_append_entries :
    ℕ → Option AppendEntriesRequest → Node → Node × AppendEntriesResponse
handle_append_entries now none n = (n, record { term = n.current_term; success = false })
handle_append_entries now (some req) n =
    if ltb req.term n.current_term
    then (n, record { term = n.current_term; success = false })
    else (let n' = follow now req n in
        if prev_matches req n'
        then conclude n.current_term req (append_all req.prev_log_index req.entries (n', true))
        else (n', record { term = n.current_term; success = false }))
