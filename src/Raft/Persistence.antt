-- ===== src/Raft/Persistence.antt =====
-- internal/zero/raft/wal_append.go and wal_truncate.go behind the node: what a write does to the
-- entries that a replay returns. `none` as the result is success, as in Go's `err == nil`.
use mxkeys_org.Prelude.{
  ℕ, Bool, true, false, Option, none, some, List, [], ◌∷◌, ◌++◌, leb, if◌then◌else◌,
}
use mxkeys_org.Raft.{LogEntry, Node, Wal, Outcome, landed, refused, torn}
use mxkeys_org.Raft.LogView.{truncate_slice_after}

-- The next outcome; a schedule that has run out goes on without a failure.
abbrev next_outcome : List Outcome → Outcome
next_outcome [] = landed
next_outcome (o ∷ _) = o

abbrev later_outcomes : List Outcome → List Outcome
later_outcomes [] = []
later_outcomes (_ ∷ os) = os

-- The file after a write that would leave `new` in place of `old`.
abbrev written : Outcome → List LogEntry → List LogEntry → List LogEntry
written landed old new = new
written refused old new = old
written torn old new = new

abbrev pub is_landed : Outcome → Bool
is_landed landed = true
is_landed refused = false
is_landed torn = false

-- One write of the log file; the Boolean says that it returned no error.
unfoldable pub write : (List LogEntry → List LogEntry) → Wal → Wal × Bool
write change w =
    let o = next_outcome w.outcomes in
    (
      record {
        entries = written o w.entries (change w.entries);
        outcomes = later_outcomes w.outcomes;
      },
      is_landed o,
    )

-- Append
unfoldable pub append : LogEntry → Wal → Wal × Bool
unfolding write
append entry w = write (λ es. es ++ entry ∷ []) w

-- filterRewrite by the predicate of TruncateAfter
unfoldable pub keep_upto : ℕ → List LogEntry → List LogEntry
keep_upto k [] = []
keep_upto k (e ∷ es) = let rest = keep_upto k es in if leb e.index k then e ∷ rest else rest

-- filterRewrite by the predicate of TruncateBefore
unfoldable pub keep_from : ℕ → List LogEntry → List LogEntry
keep_from k [] = []
keep_from k (e ∷ es) = let rest = keep_from k es in if leb k e.index then e ∷ rest else rest

unfoldable pub truncate_after : ℕ → Wal → Wal × Bool
unfolding write keep_upto
truncate_after last_keep_index w = write (keep_upto last_keep_index) w

unfoldable pub truncate_before : ℕ → Wal → Wal × Bool
unfolding write keep_from
truncate_before first_keep_index w = write (keep_from first_keep_index) w

abbrev pub with_wal : Node → (Wal → Wal × Bool) → Option Wal → Node × Bool
with_wal n op none = (n, true)
with_wal n op (some w) = let (w', fine) = op w in (record n { wal = some w' }, fine)

-- persistEntry
unfoldable pub persist_entry : LogEntry → Node → Node × Bool
unfolding append
persist_entry entry n = with_wal n (append entry) n.wal

-- truncateLogAfter
unfoldable pub truncate_log_after : ℕ → Node → Node × Bool
unfolding truncate_after truncate_slice_after
truncate_log_after last_keep_index n =
    let cut = truncate_slice_after last_keep_index n in
    with_wal cut (truncate_after last_keep_index) cut.wal
