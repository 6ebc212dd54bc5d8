-- ===== src/Raft/Append/Loop.antt =====
-- What the whole loop of `handleAppendEntries` (internal/zero/raft/rpc_handlers.go) does to the log.
use mxkeys_org.Prelude.{
  ℕ, suc, ◌+◌, ◌≤◌, ◌<◌, ◌^◌, ◌≡◌, refl, sym, ◌∙◌, ap, subst, Bool, true, false, none, Option, List,
  [], ◌∷◌, ltb, u64, length, All, arith, Bool-cases, inl, inr, ◌⊎◌, ltb→lt, ltb_false→le,
}
use mxkeys_org.Raft.{LogEntry, Node}
use mxkeys_org.Raft.LogView.{log_len, entry_at, term_of}
use mxkeys_org.Raft.LogView.Window.{IndexedFrom, IsAligned}
use mxkeys_org.Raft.Append.{append_entry, append_all}
use mxkeys_org.Raft.Append.Placement.{IsEntry, Placed, append_entry-Placed}

-- The entry is compacted, or the node reads at its index the entry itself, or else the entry that it had there before,
-- which has its term.
abbrev pub Holds : Node → ℕ → Node → LogEntry → Type 0
Holds old off n e = (e.index ≤ off) ⊎ IsEntry e (entry_at old e.index) (entry_at n e.index)

to-Holds :
    (old : Node) (off : ℕ) (n : Node) (e : LogEntry)
    → (off < e.index → IsEntry e (entry_at old e.index) (entry_at n e.index))
    → Holds old off n e
to-Holds old off n e h = elim (Bool-cases (ltb off e.index)) [
  | inl above ↦ inr (h (ltb→lt _ _ above))
  | inr below ↦ inl (ltb_false→le _ _ below)
]

from_round :
    (e : LogEntry) (old mid now : Option LogEntry)
    → (mid ≡ old) ⊎ (mid ≡ none)
    → IsEntry e mid now
    → IsEntry e old now
from_round e old mid now kept (inl here) = inl here
from_round e old mid now (inl same) (inr (kept, t)) = inr (kept ∙ same, ap term_of (sym same) ∙ t)
from_round e old mid now (inr gone) (inr (kept, t)) =
    absurd (ground (arith, ap term_of (sym gone) ∙ t))

-- What the later rounds leave is told of the log before the first one.
from_rounds :
    (n m now : Node) (off k : ℕ) (es : List LogEntry)
    → ((j : ℕ) → k < j → (entry_at m j ≡ entry_at n j) ⊎ (entry_at m j ≡ none))
    → IndexedFrom k es
    → All (Holds m off now) es
    → All (Holds n off now) es
from_rounds n m now off k [] h x all = tt
from_rounds n m now off k (e ∷ es) h x (one, all) = (
  elim one [
    | inl low ↦ inl low
    | inr here ↦ inr (
        from_round e (entry_at n e.index) (entry_at m e.index) (entry_at now e.index)
          (h e.index (omega (arith, x.0))) here)
  ],
  from_rounds n m now off (suc k) es (λ j lo. h j (omega arith)) x.1 all,
)

-- What the loop leaves behind for the entries that follow index `k`.
pub record Stored (k : ℕ) (es : List LogEntry) (n : Node) (p : Node × Bool) : Type 0 where
  pub aligned : IsAligned p.0
  pub offset : p.0.log_offset ≡ n.log_offset
  pub before : (j : ℕ) → j ≤ k → entry_at p.0 j ≡ entry_at n j
  pub reached : p.1 ≡ true → k + length es ≤ log_len p.0
  pub stored : p.1 ≡ true → All (Holds n n.log_offset p.0) es

-- After a failed write the loop does nothing more.
append_all_failed :
    (k : ℕ) (es : List LogEntry) (n : Node) → append_all k es (n, false) ≡ (n, false)
unfolding append_all
append_all_failed k [] n = refl
append_all_failed k (e ∷ es) n = refl

-- The rounds after the first, from what the first and the others do.
then-Stored :
    (k : ℕ) (e : LogEntry) (es : List LogEntry) (n : Node) (p : Node × Bool)
    → e.index ≡ suc k
    → IndexedFrom e.index es
    → Placed e.index e n p
    → ((m : Node)
        → IsAligned m
        → e.index ≤ log_len m
        → Stored e.index es m (append_all e.index es (m, true)))
    → Stored k (e ∷ es) n (append_all e.index es p)
then-Stored k e es n (m, true) x xs p go =
    let rest = go m p.aligned (p.reached refl) in
    record {
      aligned = rest.aligned;
      offset = rest.offset ∙ p.offset;
      before = λ j h. rest.before j (omega arith) ∙ p.before j (omega arith);
      reached = λ f. omega (arith, rest.reached f);
      stored = λ f. (
        to-Holds n n.log_offset (append_all e.index es (m, true)).0 e (λ lo.
            subst (IsEntry e (entry_at n e.index)) (sym (rest.before e.index (omega arith)))
              (p.stored refl lo)),
        from_rounds n m (append_all e.index es (m, true)).0 n.log_offset e.index es p.after xs (
            subst (λ o. All (Holds m o (append_all e.index es (m, true)).0) es) p.offset
              (rest.stored f)),
      );
    }
then-Stored k e es n (m, false) x xs p go = rw (append_all_failed e.index es m) (record {
  aligned = p.aligned;
  offset = p.offset;
  before = λ j h. p.before j (omega arith);
  reached = λ f. cc;
  stored = λ f. cc;
})

-- The loop stores every entry, if no write fails; it keeps the entries up to `k` in any case.
pub append_all-Stored :
    (k : ℕ) (es : List LogEntry) (n : Node)
    → IsAligned n
    → IndexedFrom k es
    → k ≤ log_len n
    → k + length es + 1 < 2 ^ 63
    → Stored k es n (append_all k es (n, true))
unfolding append_all
append_all-Stored k [] n a x hi r = record {
  aligned = a;
  offset = refl;
  before = λ j _. refl;
  reached = λ _. omega arith;
  stored = λ _. tt;
}
append_all-Stored k (e ∷ es) n a x hi r =
    let at : u64 (k + 1) ≡ e.index = omega (arith, x.0) in
    rw at (
      then-Stored k e es n (append_entry e.index e n) x.0 (rw x.0 x.1)
        (append_entry-Placed e n a (omega (arith, x.0)) (omega (arith, x.0)) (omega (arith, x.0)))
        (λ m b y. rw x.0 (append_all-Stored (suc k) es m b x.1 (omega (arith, x.0)) (omega arith))))
