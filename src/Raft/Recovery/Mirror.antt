-- ===== src/Raft/Recovery/Mirror.antt =====
-- internal/zero/raft: an entry goes to the log file before it goes to the slice.
use mathlib.Core.Bool.{false≢true}
use mxkeys_org.Prelude.{ℕ, ◌+◌, ◌≤◌, ◌<◌, ◌≡◌, refl, ◌∙◌, ap, true, List, [], ◌∷◌, ◌++◌, arith}
use mxkeys_org.Raft.{LogEntry, Node, Wal, Outcome, landed, refused, torn}
use mxkeys_org.Raft.Persistence.{keep_from, persist_entry, append, write}
use mxkeys_org.Raft.Append.{push_entry}
use mxkeys_org.Raft.Recovery.Restart.{IsMirrored}

keep_from-append_one :
    (k : ℕ) (es : List LogEntry) (e : LogEntry)
    → k ≤ e.index
    → keep_from k (es ++ e ∷ []) ≡ keep_from k es ++ e ∷ []
unfolding keep_from
keep_from-append_one k [] e h = ground (arith, h)
keep_from-append_one k (x ∷ es) e h = ground (arith, keep_from-append_one k es e h)

push_written :
    (entry : LogEntry) (n : Node) (es : List LogEntry) (os : List Outcome)
    → IsMirrored n (record { entries = es; outcomes = os })
    → n.snapshot_index < entry.index
    → (push_entry entry (n, true)).1 ≡ true
    → (w : Wal) × (IsMirrored (push_entry entry (n, true)).0 w
        × ((push_entry entry (n, true)).0.log ≡ n.log ++ entry ∷ []))
unfolding push_entry persist_entry append write
push_written entry n es [] (wal, mirror) h g =
    let both =
      keep_from-append_one (n.snapshot_index + 1) es entry (omega (arith, h))
      ∙ ap (λ l. l ++ entry ∷ []) mirror in
    rw wal (record { entries = es ++ entry ∷ []; outcomes = [] }, ((refl, both), refl))
push_written entry n es (landed ∷ os) (wal, mirror) h g =
    let both =
      keep_from-append_one (n.snapshot_index + 1) es entry (omega (arith, h))
      ∙ ap (λ l. l ++ entry ∷ []) mirror in
    rw wal (record { entries = es ++ entry ∷ []; outcomes = os }, ((refl, both), refl))
push_written entry n es (refused ∷ os) (wal, mirror) h g = absurd (false≢true (rw wal at g))
push_written entry n es (torn ∷ os) (wal, mirror) h g = absurd (false≢true (rw wal at g))

-- The log file holds what is in the log behind the snapshot. If an entry behind the snapshot is
-- written and put in the log without an error, that is so again, and the log has it at its end.
pub push_entry-IsMirrored :
    (entry : LogEntry) (n : Node) (w : Wal)
    → IsMirrored n w
    → n.snapshot_index < entry.index
    → (push_entry entry (n, true)).1 ≡ true
    → (w' : Wal) × (IsMirrored (push_entry entry (n, true)).0 w'
        × ((push_entry entry (n, true)).0.log ≡ n.log ++ entry ∷ []))
push_entry-IsMirrored entry n w m h g = push_written entry n w.entries w.outcomes m h g
