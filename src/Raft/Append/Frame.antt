-- ===== src/Raft/Append/Frame.antt =====
-- The loop of `handleAppendEntries` (internal/zero/raft/rpc_handlers.go) writes the slice and the log
-- file, and nothing else of the node.
use mxkeys_org.Prelude.{
  ℕ, ◌+◌, ◌-◌, length, ◌≡◌, refl, ◌∙◌, ap, Bool, true, false, Option, none, some, List, [], ◌∷◌,
  ◌++◌, ltb, leb, ◌==◌, u64, Bool-cases, inl, inr,
}
use mxkeys_org.Raft.{LogEntry, Node, Wal}
use mxkeys_org.Raft.LogView.{log_len, entry_at, truncate_slice_after, keep_slots, offset_to_slot}
use mxkeys_org.Raft.Persistence.{truncate_log_after}
use mxkeys_org.Raft.Append.{push_entry, place_entry, append_entry, append_all}
use mxkeys_org.Raft.Append.Placement.{push_entry-cases, truncate_log_after_lem}

-- `p` is `n` but for its slice and its log file.
pub record SameBut (n : Node) (p : Node × Bool) : Type 0 where
  pub log : List LogEntry
  pub wal : Option Wal
  pub same : p.0 ≡ record n { log = log; wal = wal }

same : (n : Node) (b : Bool) → SameBut n (n, b)
same n b = record { log = n.log; wal = n.wal; same = refl }

push-SameBut : (e : LogEntry) (n : Node) (b : Bool) → SameBut n (push_entry e (n, b))
unfolding push_entry
push-SameBut e n true = elim (push_entry-cases e n) [
  | inl (w, p) ↦ record { log = n.log ++ e ∷ []; wal = w; same = ap (λ q. q.0) p }
  | inr (w, p) ↦ record { log = n.log; wal = w; same = ap (λ q. q.0) p }
]
push-SameBut e n false = same n false

cut-SameBut : (k : ℕ) (n : Node) → SameBut n (truncate_slice_after k n, true)
unfolding truncate_slice_after
cut-SameBut k n = elim (Bool-cases (leb k n.log_offset)) [
  | inl below ↦ record { log = []; wal = n.wal; same = rw below refl }
  | inr above ↦ record {
    log = keep_slots n.log (offset_to_slot (u64 (k + 1)) n.log_offset (length n.log));
    wal = n.wal;
    same = rw above refl;
  }
]

trans-SameBut :
    (n m : Node) (b : Bool) (p : Node × Bool) → SameBut n (m, b) → SameBut m p → SameBut n p
trans-SameBut n m b p s t = record {
  log = t.log;
  wal = t.wal;
  same = t.same ∙ ap (λ (x : Node). record x { log = t.log; wal = t.wal }) s.same;
}

truncate-SameBut : (k : ℕ) (n : Node) → SameBut n (truncate_log_after k n)
truncate-SameBut k n =
    let (w, b, p) = truncate_log_after_lem k n in
    let s = cut-SameBut k n in
    rw p (record { log = s.log; wal = w; same = ap (λ (x : Node). record x { wal = w }) s.same })

push_after : (e : LogEntry) (n : Node) (p : Node × Bool) → SameBut n p → SameBut n (push_entry e p)
push_after e n (m, b) s = trans-SameBut n m b (push_entry e (m, b)) s (push-SameBut e m b)

place-SameBut :
    (idx : ℕ) (e : LogEntry) (o : Option LogEntry) (n : Node) → SameBut n (place_entry idx e o n)
unfolding place_entry
place-SameBut idx e (some x) n = elim (Bool-cases (x.term == e.term)) [
  | inl same_term ↦ rw same_term (same n true)
  | inr conflict ↦
      rw conflict (push_after e n (truncate_log_after (idx - 1) n) (truncate-SameBut (idx - 1) n))
]
place-SameBut idx e none n = elim (Bool-cases (ltb (log_len n) idx)) [
  | inl beyond ↦ rw beyond (push-SameBut e n true)
  | inr behind ↦ rw behind (same n true)
]

pub append_all-SameBut :
    (k : ℕ) (es : List LogEntry) (n : Node) (b : Bool) → SameBut n (append_all k es (n, b))
unfolding append_all append_entry
append_all-SameBut k [] n b = same n b
append_all-SameBut k (e ∷ es) n true =
    let q = place_entry (u64 (k + 1)) e (entry_at n (u64 (k + 1))) n in
    trans-SameBut n q.0 q.1 (append_all (u64 (k + 1)) es q)
      (place-SameBut (u64 (k + 1)) e (entry_at n (u64 (k + 1))) n)
      (append_all-SameBut (u64 (k + 1)) es q.0 q.1)
append_all-SameBut k (e ∷ es) n false = same n false
