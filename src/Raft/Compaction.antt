-- ===== src/Raft/Compaction.antt =====
-- internal/zero/raft/compact.go: CompactLog. The provider's answer and whether the snapshot file could be
-- saved are arguments. Under `snapMu` the node's snapshot does not move between the two critical
-- sections; what else happens between them is left to `drop_prefix`, which runs on the later node.
use mxkeys_org.Prelude.{
  ℕ, ◌+◌, Bool, false, not, ◌&&◌, Option, none, some, List, [], ltb, leb, ◌==◌, if◌then◌else◌, u64,
  length, drop,
}
use mxkeys_org.Raft.{LogEntry, Node}
use mxkeys_org.Raft.LogView.{offset_to_slot, term_at}
use mxkeys_org.Raft.Persistence.{truncate_before, with_wal}

-- The bytes and the index that the application captured together.
pub record Captured : Type 0 where
  pub content : List ℕ
  pub applied_index : ℕ

-- The checks before the snapshot is saved; the result is the term of the captured index.
unfoldable pub validate_capture : ℕ → Node → Option ℕ
validate_capture applied_index n =
    if applied_index == 0
    then none
    else if leb applied_index n.snapshot_index
    then none
    else if ltb n.commit_index applied_index
    then none
    else term_at n applied_index

abbrev drop_slots : List LogEntry → Option ℕ → List LogEntry
drop_slots log none = []
drop_slots log (some slot) = drop slot log

-- The second critical section.
unfoldable pub drop_prefix : ℕ → ℕ → Node → Node
drop_prefix applied_index last_term n = if leb applied_index n.snapshot_index then n else record n {
  log =
      (if ltb n.log_offset applied_index
        then drop_slots n.log (offset_to_slot (u64 (applied_index + 1)) n.log_offset (length n.log))
        else n.log);
  log_offset = applied_index;
  snapshot_index = applied_index;
  snapshot_term = last_term;
}

abbrev pub save_snapshot : Captured → ℕ → Node → Node
save_snapshot c term n = record n {
  snapshot_file = some (record {
    last_included_index = c.applied_index;
    last_included_term = term;
    content = c.content;
  });
}

abbrev pub compact_valid : Bool → Captured → Node → Option ℕ → Node × Bool
compact_valid saved c n none = (n, false)
compact_valid saved c n (some term) =
    if saved
    then (let m = drop_prefix c.applied_index term (save_snapshot c term n) in
        with_wal m (truncate_before (u64 (c.applied_index + 1))) m.wal)
    else (n, false)

-- CompactLog; the Boolean says that it returned no error. `none` is a provider that fails.
unfoldable pub compact_log : Bool → Bool → Option Captured → Node → Node × Bool
unfolding validate_capture drop_prefix truncate_before
compact_log has_provider saved none n = (n, false)
compact_log has_provider saved (some c) n =
    if not (n.has_state_dir && has_provider)
    then (n, false)
    else compact_valid saved c n (validate_capture c.applied_index n)
