-- ===== src/Raft/SnapshotFile/Spilling.antt =====
-- internal/zero/raft/pending_snapshot.go: the spill file of a transfer beside the file that SaveSnapshot
-- writes of the same bytes.
use mxkeys_org.Prelude.{
  ℕ, ◌+◌, ◌-◌, ◌%◌, ◌^◌, ◌≤◌, ◌<◌, ◌≡◌, ◌∙◌, sym, ap, false, Option, none, some, List, [], ◌∷◌,
  ◌++◌, ltb, lt→ltb, le→ltb_false, ltb→lt, ltb_false→le, if◌then◌else◌, u64, length, length-append,
  Bool-cases, inl, inr, arith,
}
use mathlib.Core.List.{append_assoc, append-nil, flatten}
use mxkeys_org.Raft.Snapshots.{max_snapshot_size}
use mxkeys_org.Raft.LogFile.{put_uint32}
use mxkeys_org.Raft.SnapshotFile.{
  put_uint64, header_bytes, write_at, SpillFile, begin_spill, append_spill, save_snapshot,
  finalize_spill, finalize_opened, bind_spill, append_chunks,
}

module _ (index term : ℕ) where
  -- The spill file when these bytes have arrived.
  abbrev spilled : List ℕ → SpillFile
  spilled body = record {
    file = header_bytes index term 0 0 ++ body;
    hashed = body;
    size = length body;
  }

  append-spilled :
      (chunk body : List ℕ)
      → length (body ++ chunk) < 2 ^ 64
      → append_spill chunk (spilled body) ≡ (
          if ltb max_snapshot_size (length (body ++ chunk))
          then none
          else some (spilled (body ++ chunk)))
  unfolding append_spill
  append-spilled chunk body small =
      let sum : u64 (length body + length chunk) ≡ length (body ++ chunk) =
        omega (arith, length-append body chunk, small) in
      ap
        (λ n.
          if ltb max_snapshot_size n
          then none
          else some (record {
            file = (header_bytes index term 0 0 ++ body) ++ chunk;
            hashed = body ++ chunk;
            size = n;
          }))
        sum
      ∙ ap
          (λ f.
            if ltb max_snapshot_size (length (body ++ chunk))
            then none
            else some (record { file = f; hashed = body ++ chunk; size = length (body ++ chunk) }))
          (append_assoc (header_bytes index term 0 0) body chunk)

  module _ (checksum : List ℕ → ℕ) where
    abbrev saved : List ℕ → Option (List ℕ)
    saved body =
        save_snapshot checksum
          (record { last_included_index = index; last_included_term = term; content = body })

    -- The patched header is the one that SaveSnapshot writes.
    finalize-spilled :
        (body : List ℕ)
        → length body ≤ max_snapshot_size
        → finalize_spill checksum (spilled body) ≡ saved body
    unfolding finalize_spill save_snapshot header_bytes put_uint64 put_uint32 write_at
    finalize-spilled body small =
        let narrow : ltb (2 ^ 32 - 1) (length body) ≡ false =
          le→ltb_false (2 ^ 32 - 1) (length body) (omega (arith, small)) in
        let exact : length body % 2 ^ 32 ≡ length body = omega (arith, small) in
        let fits = le→ltb_false max_snapshot_size (length body) small in
        ap
          (λ b.
            if b
            then none
            else some (
                write_at 20 (put_uint32 (length body % 2 ^ 32) ++ put_uint32 (checksum body))
                  (header_bytes index term 0 0 ++ body)))
          narrow
        ∙ ap (λ n. some (header_bytes index term n (checksum body) ++ body)) exact
        ∙ sym (
            ap
              (λ b.
                if b
                then none
                else some (header_bytes index term (length body) (checksum body) ++ body))
              fits)

    saved_long : (body : List ℕ) → max_snapshot_size < length body → saved body ≡ none
    unfolding save_snapshot
    saved_long body long =
        ap
          (λ b.
            if b
            then none
            else some (header_bytes index term (length body) (checksum body) ++ body))
          (lt→ltb max_snapshot_size (length body) long)

    spill_from :
        (chunks : List (List ℕ)) (body : List ℕ)
        → length body ≤ max_snapshot_size
        → length (body ++ flatten chunks) < 2 ^ 64
        → finalize_opened checksum (append_chunks chunks (spilled body))
          ≡ saved (body ++ flatten chunks)
    unfolding append_chunks flatten
    spill_from [] body small whole = finalize-spilled body small ∙ ap saved (sym (append-nil body))
    spill_from (chunk ∷ chunks) body small whole =
        let parts : (body ++ chunk) ++ flatten chunks ≡ body ++ (chunk ++ flatten chunks) =
          append_assoc body chunk (flatten chunks) in
        let grown : length (body ++ (chunk ++ flatten chunks))
            ≡ length (body ++ chunk) + length (flatten chunks) =
          sym (ap length parts) ∙ length-append (body ++ chunk) (flatten chunks) in
        let added = append-spilled chunk body (omega (arith, grown, whole)) in
        ap (λ o. finalize_opened checksum (bind_spill o (append_chunks chunks))) added
        ∙ (elim (Bool-cases (ltb max_snapshot_size (length (body ++ chunk)))) [
          | inl over ↦
              ap
                (λ b. finalize_opened checksum (
                  bind_spill (if b then none else some (spilled (body ++ chunk)))
                    (append_chunks chunks)))
                over
              ∙ sym (
                  saved_long (body ++ (chunk ++ flatten chunks))
                    (omega (arith, grown, ltb→lt max_snapshot_size (length (body ++ chunk)) over)))
          | inr fits ↦
              ap
                (λ b. finalize_opened checksum (
                  bind_spill (if b then none else some (spilled (body ++ chunk)))
                    (append_chunks chunks)))
                fits
              ∙ spill_from chunks (body ++ chunk)
                  (ltb_false→le max_snapshot_size (length (body ++ chunk)) fits)
                  (omega (arith, ap length parts, whole))
              ∙ ap saved parts
        ])

-- The chunks of a transfer that are spilled one after another leave the file that SaveSnapshot writes of the
-- whole body, byte for byte, and are refused exactly when SaveSnapshot refuses that body, if the chunks have less than
-- 2^64 bytes together.
pub spill-save :
    (checksum : List ℕ → ℕ) (index term : ℕ) (chunks : List (List ℕ))
    → length (flatten chunks) < 2 ^ 64
    → finalize_opened checksum (append_chunks chunks (begin_spill index term))
      ≡ save_snapshot checksum (record {
        last_included_index = index;
        last_included_term = term;
        content = flatten chunks;
      })
unfolding begin_spill
spill-save checksum index term chunks whole =
    ap
      (λ f.
        finalize_opened checksum
          (append_chunks chunks (record { file = f; hashed = []; size = 0 })))
      (sym (append-nil (header_bytes index term 0 0)))
    ∙ spill_from index term checksum chunks [] (omega arith) whole
