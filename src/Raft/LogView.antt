-- ===== src/Raft/LogView.antt =====
-- internal/zero/raft/log_view.go and `offsetToSlot` of int_safety.go: absolute log indices over a
-- slice whose prefix may have been compacted.
pub mod Window
use mxkeys_org.Prelude.{
  ℕ, zero, suc, ◌+◌, ◌-◌, ◌≤◌, ◌<◌, ◌^◌, ◌≡◌, refl, Bool, true, false, ◌||◌, Option, none, some,
  List, [], ◌∷◌, ltb, leb, ◌==◌, if◌then◌else◌, u64, length, get_elem?, get_last, take, arith,
}
use mxkeys_org.Raft.{LogEntry, Node}

abbrev pub max_int : ℕ
max_int = 2 ^ 63 - 1

-- offsetToSlot; a negative `logLen` cannot arise from `len`.
unfoldable pub offset_to_slot : ℕ → ℕ → ℕ → Option ℕ
offset_to_slot absolute_index log_offset log_len =
    if absolute_index == 0 || leb absolute_index log_offset
    then none
    else (let diff = absolute_index - log_offset - 1 in
        if leb log_len diff then none else if ltb max_int diff then none else some diff)

unfoldable pub log_len : Node → ℕ
log_len n = u64 (n.log_offset + length n.log)

unfoldable pub slice_index : Node → ℕ → Option ℕ
unfolding offset_to_slot
slice_index n absolute_index = offset_to_slot absolute_index n.log_offset (length n.log)

abbrev entry_in : List LogEntry → Option ℕ → Option LogEntry
entry_in log none = none
entry_in log (some slot) = get_elem? log slot

unfoldable pub entry_at : Node → ℕ → Option LogEntry
unfolding slice_index
entry_at n absolute_index = entry_in n.log (slice_index n absolute_index)

abbrev pub term_of : Option LogEntry → Option ℕ
term_of none = none
term_of (some e) = some e.term

unfoldable pub term_at : Node → ℕ → Option ℕ
unfolding entry_at
term_at n absolute_index =
    if absolute_index == 0
    then some 0
    else if absolute_index == n.snapshot_index
    then some n.snapshot_term
    else term_of (entry_at n absolute_index)

abbrev last_or : ℕ × ℕ → Option LogEntry → ℕ × ℕ
last_or p none = p
last_or p (some e) = (e.index, e.term)

-- lastLogIndexTerm
unfoldable pub last_log_index_term : Node → ℕ × ℕ
last_log_index_term n = last_or (n.snapshot_index, n.snapshot_term) (get_last n.log)

abbrev pub keep_slots : List LogEntry → Option ℕ → List LogEntry
keep_slots log none = log
keep_slots log (some slot) = take slot log

unfoldable pub truncate_slice_after : ℕ → Node → Node
unfolding offset_to_slot
truncate_slice_after last_keep_index n =
    if leb last_keep_index n.log_offset then record n { log = [] } else record n {
      log =
          keep_slots n.log (offset_to_slot (u64 (last_keep_index + 1)) n.log_offset (length n.log));
    }
