-- ===== src/Raft/Append/Placement.antt =====
-- What the loop of `handleAppendEntries` (internal/zero/raft/rpc_handlers.go) does to the log, one
-- round and all rounds, on every outcome of the writes of the log file.
use mxkeys_org.Prelude.{
  ℕ, suc, ◌+◌, ◌-◌, ◌≤◌, ◌<◌, ◌^◌, ◌≡◌, refl, sym, ◌∙◌, ap, Bool, true, false, Option, none, some,
  [], ◌∷◌, ltb, ◌==◌, length-append, arith, Bool-cases, inl, inr, ◌⊎◌, ltb→lt, ltb_false→le,
}
use mxkeys_org.Raft.{LogEntry, Node, Wal}
use mxkeys_org.Raft.LogView.{log_len, entry_at, truncate_slice_after, term_of}
use mxkeys_org.Raft.LogView.Window.{
  IsAligned, extend, log_len_lem, entry_at-index, entry_at_inside, extend-IsAligned,
  entry_at-extend, truncate-IsAligned, log_len-truncate, offset-truncate, entry_at-truncate,
}
use mxkeys_org.Raft.Persistence.{
  append, truncate_after, with_wal, persist_entry, truncate_log_after,
}
use mxkeys_org.Raft.Append.{push_entry, place_entry, append_entry}

-- The node with another log file behind it.
abbrev rewal : Option Wal → Node → Node
rewal w n = record n { wal = w }

rewal-IsAligned : (w : Option Wal) (n : Node) → IsAligned n → IsAligned (rewal w n)
rewal-IsAligned w n a = record {
  indexed = a.indexed;
  behind_snapshot = a.behind_snapshot;
  room = a.room;
}

entry_at-rewal : (w : Option Wal) (n : Node) (j : ℕ) → entry_at (rewal w n) j ≡ entry_at n j
unfolding entry_at
entry_at-rewal w n j = refl

log_len-rewal : (w : Option Wal) (n : Node) → log_len (rewal w n) ≡ log_len n
unfolding log_len
log_len-rewal w n = refl

push_wal :
    (e : LogEntry) (n : Node) (o : Option Wal)
    → n.wal ≡ o
    → ((w : Option Wal) × (push_entry e (n, true) ≡ (rewal w (extend e n), true)))
      ⊎ ((w : Option Wal) × (push_entry e (n, true) ≡ (rewal w n, false)))
unfolding push_entry persist_entry
push_wal e n none p = inl (n.wal, rw p refl)
push_wal e n (some v) p = elim (Bool-cases (append e v).1) [
  | inl fine ↦ inl (some (append e v).0, rw p (rw fine refl))
  | inr failed ↦ inr (some (append e v).0, rw p (rw failed refl))
]

-- An entry is pushed, or the write of the log file fails and the slice stays.
pub push_entry-cases :
    (e : LogEntry) (n : Node)
    → ((w : Option Wal) × (push_entry e (n, true) ≡ (rewal w (extend e n), true)))
      ⊎ ((w : Option Wal) × (push_entry e (n, true) ≡ (rewal w n, false)))
push_entry-cases e n = push_wal e n n.wal refl

after_op :
    (m : Node) (op : Wal → Wal × Bool) (o : Option Wal)
    → m.wal ≡ o
    → (w : Option Wal) × (b : Bool) × (with_wal m op o ≡ (rewal w m, b))
after_op m op none p = (m.wal, true, refl)
after_op m op (some v) p = (some (op v).0, (op v).1, refl)

-- The slice is cut whatever becomes of the log file.
pub truncate_log_after_lem :
    (k : ℕ) (n : Node)
    → (w : Option Wal) × (b : Bool) × (truncate_log_after k n
        ≡ (rewal w (truncate_slice_after k n), b))
unfolding truncate_log_after
truncate_log_after_lem k n =
    after_op (truncate_slice_after k n) (truncate_after k) (truncate_slice_after k n).wal refl

-- Where the old log reads `old`, the new one reads the entry itself, or what the old one had if that has its term.
abbrev pub IsEntry : LogEntry → Option LogEntry → Option LogEntry → Type 0
IsEntry e old now = (now ≡ some e) ⊎ ((now ≡ old) × (term_of old ≡ some e.term))

-- What one round leaves behind for the entry at `idx`.
pub record Placed (idx : ℕ) (e : LogEntry) (n : Node) (p : Node × Bool) : Type 0 where
  pub aligned : IsAligned p.0
  pub offset : p.0.log_offset ≡ n.log_offset
  pub before : (j : ℕ) → j < idx → entry_at p.0 j ≡ entry_at n j
  pub after : (j : ℕ) → idx < j → (entry_at p.0 j ≡ entry_at n j) ⊎ (entry_at p.0 j ≡ none)
  pub reached : p.1 ≡ true → idx ≤ log_len p.0
  pub stored : p.1 ≡ true → n.log_offset < idx → IsEntry e (entry_at n idx) (entry_at p.0 idx)

last_entry :
    (e : LogEntry) (n : Node)
    → IsAligned n
    → e.index ≡ log_len n + 1
    → e.index + 1 < 2 ^ 63
    → entry_at (extend e n) e.index ≡ some e
last_entry e n a next r = entry_at-extend n e e.index a next r ∙ ground arith

-- Pushing the entry that follows the last one.
push-Placed :
    (e : LogEntry) (n : Node)
    → IsAligned n
    → e.index ≡ log_len n + 1
    → e.index + 1 < 2 ^ 63
    → Placed e.index e n (push_entry e (n, true))
push-Placed e n a next r = elim (push_entry-cases e n) [
  | inl (w, p) ↦
      let b = extend-IsAligned n e a next r in
      rw p (record {
        aligned = rewal-IsAligned w (extend e n) b;
        offset = refl;
        before =
            λ j h. entry_at-rewal w (extend e n) j ∙ entry_at-extend n e j a next r ∙ ground arith;
        after = λ j h.
            inl (entry_at-rewal w (extend e n) j ∙ entry_at-extend n e j a next r ∙ ground arith);
        reached = λ _. omega (
          arith,
          log_len-rewal w (extend e n),
          log_len_lem n a,
          log_len_lem (extend e n) b,
          length-append n.log (e ∷ []),
        );
        stored = λ _ _. inl (entry_at-rewal w (extend e n) e.index ∙ last_entry e n a next r);
      })
  | inr (w, p) ↦ rw p (record {
    aligned = rewal-IsAligned w n a;
    offset = refl;
    before = λ j h. entry_at-rewal w n j;
    after = λ j h. inl (entry_at-rewal w n j);
    reached = λ f. cc;
    stored = λ f _. cc;
  })
]

-- A conflict: the tail is cut at the entry before, and the entry follows.
replace_entry :
    (e : LogEntry) (n : Node)
    → IsAligned n
    → e.index ≡ log_len n + 1
    → e.index + 1 < 2 ^ 63
    → (push_entry e (n, true)).1 ≡ true
    → entry_at (push_entry e (n, true)).0 e.index ≡ some e
replace_entry e n a next r fine = elim (push_entry-cases e n) [
  | inl (w, p) ↦ rw p (entry_at-rewal w (extend e n) e.index ∙ last_entry e n a next r)
  | inr (w, p) ↦ absurd (ground (arith, sym (ap (λ q. q.1) p) ∙ fine))
]

gone_after :
    (e : LogEntry) (n cut : Node) (j : ℕ) (now : Option LogEntry)
    → entry_at cut j ≡ none
    → (now ≡ entry_at cut j) ⊎ (now ≡ none)
    → (now ≡ entry_at n j) ⊎ (now ≡ none)
gone_after e n cut j now gone (inl same) = inr (same ∙ gone)
gone_after e n cut j now gone (inr missing) = inr missing

replace-Placed :
    (e : LogEntry) (n : Node) (k : ℕ)
    → IsAligned n
    → e.index ≡ suc k
    → n.log_offset ≤ k
    → e.index ≤ log_len n
    → e.index + 1 < 2 ^ 63
    → Placed e.index e n (push_entry e (truncate_log_after k n))
unfolding push_entry
replace-Placed e n k a p lo hi r =
    let r' : k + 1 < 2 ^ 63 = omega arith in
    let cut = truncate_slice_after k n in
    let b : IsAligned cut = truncate-IsAligned n k a r' in
    let len : log_len cut ≡ k = log_len-truncate n k a lo (omega arith) in
    let off : cut.log_offset ≡ n.log_offset = offset-truncate n k a r' in
    let (w, ok, q) = truncate_log_after_lem k n in
    rw q (elim ok as (λ c. Placed e.index e n (push_entry e (rewal w cut, c))) [
      | true ↦
          let c =
            push-Placed e (rewal w cut) (rewal-IsAligned w cut b)
              (omega (arith, log_len-rewal w cut)) r in
          record {
            aligned = c.aligned;
            offset = c.offset ∙ off;
            before = λ j h.
                c.before j h ∙ entry_at-rewal w cut j ∙ entry_at-truncate n k j a r' ∙ ground arith;
            after = λ j h.
                gone_after e n (rewal w cut) j (entry_at (push_entry e (rewal w cut, true)).0 j)
                  (entry_at-rewal w cut j ∙ entry_at-truncate n k j a r' ∙ ground arith)
                  (c.after j h);
            reached = c.reached;
            stored = λ f g. inl (
                replace_entry e (rewal w cut) (rewal-IsAligned w cut b)
                  (omega (arith, log_len-rewal w cut)) r f);
          }
      | false ↦ record {
        aligned = rewal-IsAligned w cut b;
        offset = off;
        before = λ j h. entry_at-rewal w cut j ∙ entry_at-truncate n k j a r' ∙ ground arith;
        after = λ j h. inr (entry_at-rewal w cut j ∙ entry_at-truncate n k j a r' ∙ ground arith);
        reached = λ f. cc;
        stored = λ f _. cc;
      }
    ])

keep-Placed :
    (e : LogEntry) (n : Node)
    → IsAligned n
    → e.index ≤ log_len n
    → (n.log_offset < e.index → term_of (entry_at n e.index) ≡ some e.term)
    → Placed e.index e n (n, true)
keep-Placed e n a h t = record {
  aligned = a;
  offset = refl;
  before = λ j _. refl;
  after = λ j _. inl refl;
  reached = λ _. h;
  stored = λ _ lo. inr (refl, t lo);
}

place-Placed :
    (e : LogEntry) (n : Node) (o : Option LogEntry)
    → entry_at n e.index ≡ o
    → IsAligned n
    → 0 < e.index
    → e.index ≤ log_len n + 1
    → e.index + 1 < 2 ^ 63
    → Placed e.index e n (place_entry e.index e o n)
unfolding place_entry
place-Placed e n (some x) p a pos hi r = elim (Bool-cases (x.term == e.term)) [
  | inl same ↦
      rw same
        (keep-Placed e n a (entry_at-index n e.index a p).2 (λ _. ap term_of p ∙ ground arith))
  | inr conflict ↦
      let (_, lo, top) = entry_at-index n e.index a p in
      rw conflict (replace-Placed e n (e.index - 1) a (omega arith) (omega arith) top r)
]
place-Placed e n none p a pos hi r = elim (Bool-cases (ltb (log_len n) e.index)) [
  | inl beyond ↦ rw beyond (push-Placed e n a (omega (arith, ltb→lt _ _ beyond)) r)
  | inr behind ↦
      let top : e.index ≤ log_len n = ltb_false→le _ _ behind in
      rw behind (keep-Placed e n a top (λ lo. absurd (not_missing lo top)))
]
  where
    not_missing : n.log_offset < e.index → e.index ≤ log_len n → ⊥
    not_missing lo top = let (y, q) = entry_at_inside n e.index a lo top in cc

-- One round of the loop places its entry.
pub append_entry-Placed :
    (e : LogEntry) (n : Node)
    → IsAligned n
    → 0 < e.index
    → e.index ≤ log_len n + 1
    → e.index + 1 < 2 ^ 63
    → Placed e.index e n (append_entry e.index e n)
unfolding append_entry
append_entry-Placed e n a pos hi r = place-Placed e n (entry_at n e.index) refl a pos hi r
