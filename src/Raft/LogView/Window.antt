-- ===== src/Raft/LogView/Window.antt =====
-- What the accessors of internal/zero/raft/log_view.go return on a node whose slice is aligned, the
-- invariant that the comment on `Node.logOffset` states.
use mxkeys_org.Prelude.{
  ℕ, zero, suc, ◌+◌, ◌-◌, ◌≤◌, ◌<◌, ◌^◌, ◌≡◌, refl, none, some, List, [], ◌∷◌, ◌++◌, ltb, leb, ◌==◌,
  if◌then◌else◌, u64, length, get_elem?, take, arith, length-append, get_elem?-lt, get_elem?-inside,
  get_elem?-ge, get_elem?-append_one, get_elem?-take, ◌⊎◌, length-take, Bool-cases, inl, inr, ap,
  take_all, leb→le, sym, ◌∙◌, ltb→lt, ltb_false→le,
}
use mxkeys_org.Raft.{LogEntry, Node}
use mxkeys_org.Raft.LogView.{offset_to_slot, log_len, entry_at, truncate_slice_after, keep_slots}

-- The entries carry the indices `start + 1`, `start + 2`, and so on.
abbrev pub IndexedFrom : ℕ → List LogEntry → Type 0
IndexedFrom start [] = Unit
IndexedFrom start (e ∷ es) = (e.index ≡ suc start) × IndexedFrom (suc start) es

-- The slice starts behind the snapshot, its entries carry their indices, and the last index has
-- a successor among the `uint64` numbers.
pub record IsAligned (n : Node) : Type 0 where
  pub indexed : IndexedFrom n.log_offset n.log
  pub behind_snapshot : n.log_offset ≡ n.snapshot_index
  pub room : n.log_offset + length n.log + 1 < 2 ^ 63

-- Slots and indices translate into one another.
pub offset_to_slot_lem :
    (off i len : ℕ)
    → len < 2 ^ 63
    → offset_to_slot (off + suc i) off len ≡ (if ltb i len then some i else none)
unfolding offset_to_slot
offset_to_slot_lem off i len h = ground arith

pub offset_to_slot_below : (idx off len : ℕ) → idx ≤ off → offset_to_slot idx off len ≡ none
unfolding offset_to_slot
offset_to_slot_below idx off len h = ground arith

pub log_len_lem : (n : Node) → IsAligned n → log_len n ≡ n.log_offset + length n.log
unfolding log_len
log_len_lem n a = omega (arith, a.room)

-- At an index above the offset the node reads its slice.
pub entry_at_slot :
    (n : Node) (i : ℕ) → IsAligned n → entry_at n (n.log_offset + suc i) ≡ get_elem? n.log i
unfolding entry_at
entry_at_slot n i a =
    rw (offset_to_slot_lem n.log_offset i (length n.log) (omega (arith, a.room)))
      (elim (Bool-cases (ltb i (length n.log))) [
        | inl less ↦ rw less refl
        | inr more ↦ rw more (ap (λ o. o) (rw (get_elem?-ge n.log i (ltb_false→le _ _ more)) refl))
      ])

pub entry_at_below : (n : Node) (idx : ℕ) → idx ≤ n.log_offset → entry_at n idx ≡ none
unfolding entry_at
entry_at_below n idx h = rw (offset_to_slot_below idx n.log_offset (length n.log) h) refl

pub indexed_slot :
    (start : ℕ) (log : List LogEntry) (i : ℕ) (e : LogEntry)
    → IndexedFrom start log
    → get_elem? log i ≡ some e
    → e.index ≡ start + suc i
indexed_slot start [] i e h p = ground arith
indexed_slot start (x ∷ log) zero e h p = ground arith
indexed_slot start (x ∷ log) (suc i) e h p = omega (arith, indexed_slot (suc start) log i e h.1 p)

-- An index lies behind the window, or at a slot.
index-cases : (off idx : ℕ) → (idx ≤ off) ⊎ ((i : ℕ) × (idx ≡ off + suc i))
index-cases off idx = elim (Bool-cases (ltb off idx)) [
  | inl above ↦ inr (idx - off - 1, omega (arith, ltb→lt off idx above))
  | inr below ↦ inl (ltb_false→le off idx below)
]

-- An entry that is read at an index carries that index, and lies in the window.
pub entry_at-index :
    (n : Node) (idx : ℕ) {e : LogEntry}
    → IsAligned n
    → entry_at n idx ≡ some e
    → (e.index ≡ idx) × (n.log_offset < idx) × (idx ≤ log_len n)
entry_at-index n idx {e} a p = elim (index-cases n.log_offset idx) [
  | inl below ↦ absurd (ground (arith, entry_at_below n idx below))
  | inr (i, at) ↦
      let q : get_elem? n.log i ≡ some e = sym (entry_at_slot n i a) ∙ (rw at at p) in
      omega (
        arith,
        at,
        log_len_lem n a,
        get_elem?-inside n.log i q,
        indexed_slot n.log_offset n.log i e a.indexed q,
      )
]

-- Every index of the window has its entry.
pub entry_at_inside :
    (n : Node) (idx : ℕ)
    → IsAligned n
    → n.log_offset < idx
    → idx ≤ log_len n
    → (e : LogEntry) × (entry_at n idx ≡ some e)
entry_at_inside n idx a lo hi = elim (index-cases n.log_offset idx) [
  | inl below ↦ absurd (omega arith)
  | inr (i, at) ↦
      let (e, q) = get_elem?-lt n.log i (omega (arith, at, log_len_lem n a)) in
      (e, ap (entry_at n) at ∙ entry_at_slot n i a ∙ q)
]

pub entry_at_above : (n : Node) (idx : ℕ) → IsAligned n → log_len n < idx → entry_at n idx ≡ none
entry_at_above n idx a h = elim (index-cases n.log_offset idx) [
  | inl below ↦ entry_at_below n idx below
  | inr (i, at) ↦
      rw at (entry_at_slot n i a ∙ get_elem?-ge n.log i (omega (arith, at, log_len_lem n a)))
]

indexed-append :
    (start : ℕ) (log : List LogEntry) (e : LogEntry)
    → IndexedFrom start log
    → e.index ≡ start + suc (length log)
    → IndexedFrom start (log ++ e ∷ [])
indexed-append start [] e h p = (omega arith, tt)
indexed-append start (x ∷ log) e h p = (h.0, indexed-append (suc start) log e h.1 (omega arith))

indexed-take :
    (start k : ℕ) (log : List LogEntry) → IndexedFrom start log → IndexedFrom start (take k log)
indexed-take start zero log h = tt
indexed-take start (suc k) [] h = tt
indexed-take start (suc k) (x ∷ log) h = (h.0, indexed-take (suc start) k log h.1)

-- The slice with an entry at its end.
abbrev pub extend : LogEntry → Node → Node
extend e n = record n { log = n.log ++ e ∷ [] }

pub extend-IsAligned :
    (n : Node) (e : LogEntry)
    → IsAligned n
    → e.index ≡ log_len n + 1
    → e.index + 1 < 2 ^ 63
    → IsAligned (extend e n)
extend-IsAligned n e a p r = record {
  indexed = indexed-append n.log_offset n.log e a.indexed (omega (arith, log_len_lem n a));
  behind_snapshot = a.behind_snapshot;
  room = omega (arith, log_len_lem n a, length-append n.log (e ∷ []));
}

pub entry_at-extend :
    (n : Node) (e : LogEntry) (idx : ℕ)
    → IsAligned n
    → e.index ≡ log_len n + 1
    → e.index + 1 < 2 ^ 63
    → entry_at (extend e n) idx ≡ (if idx == log_len n + 1 then some e else entry_at n idx)
entry_at-extend n e idx a p r = elim (index-cases n.log_offset idx) [
  | inl below ↦
      entry_at_below (extend e n) idx below
      ∙ ground (arith, entry_at_below n idx below, log_len_lem n a)
  | inr (i, at) ↦ rw at (
      entry_at_slot (extend e n) i (extend-IsAligned n e a p r)
      ∙ get_elem?-append_one n.log e i
      ∙ ground (arith, entry_at_slot n i a, log_len_lem n a))
]

-- The slice cut down to its first `c` entries.
abbrev pub shorten : ℕ → Node → Node
shorten c n = record n { log = take c n.log }

shorten_slots :
    (n : Node) (k : ℕ)
    → IsAligned n
    → n.log_offset < k
    → keep_slots n.log
        (offset_to_slot (n.log_offset + suc (k - n.log_offset)) n.log_offset (length n.log))
      ≡ take (k - n.log_offset) n.log
shorten_slots n k a above =
    rw (offset_to_slot_lem n.log_offset (k - n.log_offset) (length n.log) (omega (arith, a.room)))
      (elim (Bool-cases (ltb (k - n.log_offset) (length n.log))) [
        | inl less ↦ rw less refl
        | inr more ↦ rw more (sym (take_all (k - n.log_offset) n.log (ltb_false→le _ _ more)))
      ])

-- `truncate_slice_after` keeps the entries up to `k`.
pub truncate_lem :
    (n : Node) (k : ℕ)
    → IsAligned n
    → k + 1 < 2 ^ 63
    → truncate_slice_after k n ≡ shorten (k - n.log_offset) n
unfolding truncate_slice_after
truncate_lem n k a r = elim (Bool-cases (leb k n.log_offset)) [
  | inl behind ↦
      let z : k - n.log_offset ≡ 0 = omega (arith, leb→le _ _ behind) in rw behind (rw z refl)
  | inr above ↦
      let lt : n.log_offset < k = ground arith in
      let e : u64 (k + 1) ≡ n.log_offset + suc (k - n.log_offset) = omega arith in
      rw above (ap (λ l. record n { log = l }) (rw e (shorten_slots n k a lt)))
]

pub truncate-IsAligned :
    (n : Node) (k : ℕ) → IsAligned n → k + 1 < 2 ^ 63 → IsAligned (truncate_slice_after k n)
truncate-IsAligned n k a r = rw (truncate_lem n k a r) (record {
  indexed = indexed-take n.log_offset (k - n.log_offset) n.log a.indexed;
  behind_snapshot = a.behind_snapshot;
  room = omega (arith, a.room, length-take (k - n.log_offset) n.log);
})

pub offset-truncate :
    (n : Node) (k : ℕ)
    → IsAligned n
    → k + 1 < 2 ^ 63
    → (truncate_slice_after k n).log_offset ≡ n.log_offset
offset-truncate n k a r = rw (truncate_lem n k a r) refl

pub log_len-truncate :
    (n : Node) (k : ℕ)
    → IsAligned n
    → n.log_offset ≤ k
    → k ≤ log_len n
    → log_len (truncate_slice_after k n) ≡ k
log_len-truncate n k a lo hi =
    log_len_lem (truncate_slice_after k n)
      (truncate-IsAligned n k a (omega (arith, log_len_lem n a, a.room)))
    ∙ rw (truncate_lem n k a (omega (arith, log_len_lem n a, a.room)))
        (omega (arith, length-take (k - n.log_offset) n.log, log_len_lem n a))

-- After truncation to `k` the node reads the entries up to `k` as before, and none above.
pub entry_at-truncate :
    (n : Node) (k idx : ℕ)
    → IsAligned n
    → k + 1 < 2 ^ 63
    → entry_at (truncate_slice_after k n) idx ≡ (if leb idx k then entry_at n idx else none)
entry_at-truncate n k idx a r = rw (truncate_lem n k a r) (elim (index-cases n.log_offset idx) [
  | inl below ↦
      entry_at_below (shorten (k - n.log_offset) n) idx below
      ∙ ground (arith, entry_at_below n idx below)
  | inr (i, at) ↦ rw at (
      entry_at_slot (shorten (k - n.log_offset) n) i
        (rw (truncate_lem n k a r) at (truncate-IsAligned n k a r))
      ∙ get_elem?-take (k - n.log_offset) n.log i
      ∙ ground (arith, entry_at_slot n i a))
])
