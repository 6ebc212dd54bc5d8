-- ===== src/Examples/Images.antt =====
-- Snapshot files, for internal/zero/raft/snapshot.go, snapshot_load.go and pending_snapshot.go.
use mxkeys_org.Prelude.{
  ℕ, ◌+◌, ◌%◌, ◌^◌, ◌<◌, ◌≡◌, refl, arith, List, [], ◌∷◌, ◌++◌, none, some, take,
}
use mathlib.Core.List.{flatten}
use mxkeys_org.Raft.{Snapshot}
use mxkeys_org.Raft.SnapshotFile.{
  save_snapshot, load_snapshot, load_snapshot_reader, begin_spill, append_chunks, finalize_opened,
}
use mxkeys_org.Raft.SnapshotFile.Layout.{save-load}
use mxkeys_org.Raft.SnapshotFile.Spilling.{spill-save}

-- A checksum that fits its field.
unfoldable sum_bytes : List ℕ → ℕ
sum_bytes [] = 0
sum_bytes (b ∷ bs) = (b + sum_bytes bs) % 2 ^ 32

sum_bytes_small : (b : List ℕ) → sum_bytes b < 2 ^ 32
unfolding sum_bytes
sum_bytes_small [] = omega arith
sum_bytes_small (b ∷ bs) = omega arith

abbrev taken : Snapshot
taken = record { last_included_index = 7; last_included_term = 2; content = 1 ∷ 2 ∷ 3 ∷ [] }

abbrev taken_file : List ℕ
taken_file =
    77 ∷ 88 ∷ 75 ∷ 83 ∷ 7 ∷ 0 ∷ 0 ∷ 0 ∷ 0 ∷ 0 ∷ 0 ∷ 0 ∷ 2 ∷ 0 ∷ 0 ∷ 0 ∷ 0 ∷ 0 ∷ 0 ∷ 0 ∷ 3 ∷ 0 ∷ 0
    ∷ 0 ∷ 6 ∷ 0 ∷ 0 ∷ 0 ∷ 1 ∷ 2 ∷ 3 ∷ []

taken_saved : save_snapshot sum_bytes taken ≡ some taken_file
unfolding save_snapshot sum_bytes
taken_saved = refl

save-load_example :
    (load_snapshot sum_bytes taken_file ≡ some taken)
    × (load_snapshot_reader sum_bytes taken_file ≡ some taken)
    × (load_snapshot sum_bytes (take 30 taken_file) ≡ none)
    × (load_snapshot_reader sum_bytes (take 30 taken_file) ≡ none)
    × (load_snapshot_reader sum_bytes (taken_file ++ 9 ∷ []) ≡ none)
save-load_example =
    save-load sum_bytes taken taken_file 30 9 [] sum_bytes_small (omega arith) (omega arith)
      taken_saved (omega arith)

spill-save_example :
    finalize_opened sum_bytes (append_chunks ((1 ∷ 2 ∷ []) ∷ (3 ∷ []) ∷ []) (begin_spill 7 2))
    ≡ save_snapshot sum_bytes taken
unfolding flatten
spill-save_example = spill-save sum_bytes 7 2 ((1 ∷ 2 ∷ []) ∷ (3 ∷ []) ∷ []) (omega arith)
