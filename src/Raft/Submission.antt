-- ===== src/Raft/Submission.antt =====
-- internal/zero/raft/lifecycle.go (Submit) and propose.go (Propose, handleForwardProposal). Submit lets go
-- of `n.mu` while the log file is written: three functions, between which other handlers may run.
use mxkeys_org.Prelude.{
  ℕ, ◌+◌, ◌-◌, Bool, true, false, not, ◌&&◌, Option, none, some, String, str_eq, List, [], ◌∷◌,
  ◌++◌, ltb, ◌==◌, if◌then◌else◌, u64, length, take, get_last,
}
use mxkeys_org.Raft.{LogEntry, Node}
use mxkeys_org.Raft.LogView.{log_len}
use mxkeys_org.Raft.Persistence.{persist_entry}
use mxkeys_org.Raft.Replication.{is_leader, update_commit_index}

-- The entry that Submit reserves for a command.
abbrev pub new_entry : List ℕ → Node → LogEntry
new_entry command n = record {
  index = u64 (log_len n + 1);
  term = n.current_term;
  command = command;
}

-- The first critical section: the entry and the length of the slice with it, or ErrNotLeader.
unfoldable pub reserve : List ℕ → Node → Node × Option (LogEntry × ℕ)
reserve command n =
    if not (is_leader n.state)
    then (n, none)
    else (let entry = new_entry command n in
        (record n { log = n.log ++ entry ∷ [] }, some (entry, length n.log + 1)))

abbrev has_index : Option LogEntry → ℕ → Bool
has_index none i = false
has_index (some e) i = e.index == i

-- The critical section after a write that failed: the entry is taken back if it is still the last.
unfoldable pub take_back : LogEntry → ℕ → Node → Node
take_back entry published_len n =
    if length n.log == published_len
      && ltb 0 (length n.log)
      && has_index (get_last n.log) entry.index
    then record n { log = take (length n.log - 1) n.log }
    else n

abbrev settle : LogEntry → ℕ → Node × Bool → Node × Bool
settle entry published_len (n, true) = (update_commit_index n, true)
settle entry published_len (n, false) = (take_back entry published_len n, false)

abbrev after_reserve : Node × Option (LogEntry × ℕ) → Node × Bool
after_reserve (n, none) = (n, false)
after_reserve (n, some (entry, published_len)) = settle entry published_len (persist_entry entry n)

-- Submit up to its call of replicateEntry, with no other handler in between; true if it gets there.
unfoldable pub submit : List ℕ → Node → Node × Bool
unfolding reserve persist_entry take_back update_commit_index
submit command n = after_reserve (reserve command n)

-- What Propose does with a command: submit it here, give up, or forward it to an address.
pub data Routed : Type 0 where
  local : Routed
  no_leader : Routed
  forward : String → Routed

unfoldable pub propose : Node → Routed
propose n =
    if is_leader n.state
    then local
    else if str_eq n.leader_addr ""
    then no_leader
    else forward n.leader_addr

-- handleForwardProposal's checks before it calls Submit.
pub data ForwardCheck : Type 0 where
  bad_payload empty_command not_leader admitted : ForwardCheck

unfoldable pub check_forward : Option (List ℕ) → Node → ForwardCheck
check_forward none n = bad_payload
check_forward (some command) n =
    if length command == 0
    then empty_command
    else if is_leader n.state
    then admitted
    else not_leader
