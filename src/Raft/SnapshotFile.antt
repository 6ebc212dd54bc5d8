-- ===== src/Raft/SnapshotFile.antt =====
-- internal/zero/raft/snapshot.go, snapshot_load.go and the spill file of pending_snapshot.go: the bytes
-- of raft.snapshot. CRC-32C is a parameter; the running hash of a spill file is its checksum of the bytes
-- that were written to it. A file system that fails is an outcome of Raft.Snapshots.
pub mod Header
pub mod Layout
pub mod Spilling
use mxkeys_org.Prelude.{
  ℕ, ◌+◌, ◌*◌, ◌/◌, ◌%◌, ◌^◌, ◌-◌, Bool, true, false, not, Option, none, some, List, [], ◌∷◌, ◌++◌,
  ltb, ◌==◌, if◌then◌else◌, u64, length, take, drop, bytes_eq, read_full,
}
use mxkeys_org.Raft.{Snapshot}
use mxkeys_org.Raft.LogFile.{put_uint32, get_uint32}
use mxkeys_org.Raft.Snapshots.{max_snapshot_size}

-- snapshotMagic: "MXKS"
abbrev pub snapshot_magic : List ℕ
snapshot_magic = 77 ∷ 88 ∷ 75 ∷ 83 ∷ []

abbrev pub snapshot_header_size : ℕ
snapshot_header_size = 28

-- snapshotHeaderLenOffset
abbrev pub snapshot_header_len_offset : ℕ
snapshot_header_len_offset = 20

-- binary.LittleEndian.PutUint64: the low half, then the high half
unfoldable pub put_uint64 : ℕ → List ℕ
unfolding put_uint32
put_uint64 n = put_uint32 (n % 2 ^ 32) ++ put_uint32 (n / 2 ^ 32)

-- binary.LittleEndian.Uint64
unfoldable pub get_uint64 : List ℕ → ℕ
unfolding get_uint32
get_uint64 b = get_uint32 b + get_uint32 (drop 4 b) * 2 ^ 32

-- SnapshotMeta with the checksum that the header has.
pub record SnapshotHeader : Type 0 where
  pub last_included_index : ℕ
  pub last_included_term : ℕ
  pub size : ℕ
  pub expected_crc : ℕ

-- The magic and the header with a length and a checksum.
unfoldable pub header_bytes : ℕ → ℕ → ℕ → ℕ → List ℕ
unfolding put_uint64
header_bytes index term size crc =
    snapshot_magic ++ (put_uint64 index ++ (put_uint64 term ++ (put_uint32 size ++ put_uint32 crc)))

abbrev pub with_crc : List ℕ → Option (List ℕ) → List ℕ → Option (SnapshotHeader × List ℕ)
with_crc hdr none rest = none
with_crc hdr (some crc) rest = some (
  record {
    last_included_index = get_uint64 (take 8 hdr);
    last_included_term = get_uint64 (take 8 (drop 8 hdr));
    size = get_uint32 (drop 16 hdr);
    expected_crc = get_uint32 crc;
  },
  drop 4 rest,
)

abbrev pub with_fields : Option (List ℕ) → List ℕ → Option (SnapshotHeader × List ℕ)
with_fields none rest = none
with_fields (some hdr) rest = with_crc hdr (read_full 4 (drop 20 rest)) (drop 20 rest)

abbrev pub with_magic : Option (List ℕ) → List ℕ → Option (SnapshotHeader × List ℕ)
with_magic none file = none
with_magic (some magic) file =
    if not (bytes_eq magic snapshot_magic)
    then none
    else with_fields (read_full 20 (drop 4 file)) (drop 4 file)

-- readSnapshotHeader: the header and what follows it; `none` is ErrSnapshotCorrupt.
unfoldable pub read_snapshot_header : List ℕ → Option (SnapshotHeader × List ℕ)
unfolding read_full bytes_eq get_uint64 get_uint32
read_snapshot_header file = with_magic (read_full 4 file) file

abbrev pub snapshot_of : SnapshotHeader → List ℕ → Snapshot
snapshot_of h payload = record {
  last_included_index = h.last_included_index;
  last_included_term = h.last_included_term;
  content = payload;
}

-- WriteAt within a file
unfoldable pub write_at : ℕ → List ℕ → List ℕ → List ℕ
write_at offset bytes file = take offset file ++ (bytes ++ drop (offset + length bytes) file)

-- The spill file of a transfer, the bytes that its hash has seen, and their number.
pub record SpillFile : Type 0 where
  pub file : List ℕ
  pub hashed : List ℕ
  pub size : ℕ

-- writePendingSnapshotHeader on a new file
unfoldable pub begin_spill : ℕ → ℕ → SpillFile
unfolding header_bytes
begin_spill index term = record { file = header_bytes index term 0 0; hashed = []; size = 0 }

-- appendPendingSnapshot; `none` is ErrPendingSnapshotOverflow.
unfoldable pub append_spill : List ℕ → SpillFile → Option SpillFile
append_spill chunk s =
    let new_size = u64 (s.size + length chunk) in
    if ltb max_snapshot_size new_size
    then none
    else some (record { file = s.file ++ chunk; hashed = s.hashed ++ chunk; size = new_size })

abbrev pub bind_spill : Option SpillFile → (SpillFile → Option SpillFile) → Option SpillFile
bind_spill none k = none
bind_spill (some s) k = k s

-- The chunks of a transfer in their order.
unfoldable pub append_chunks : List (List ℕ) → SpillFile → Option SpillFile
unfolding append_spill
append_chunks [] s = some s
append_chunks (chunk ∷ chunks) s = bind_spill (append_spill chunk s) (append_chunks chunks)

module _ (checksum : List ℕ → ℕ) where
  -- SaveSnapshot: the bytes of the new file; `none` is a body that lenUint32 refuses.
  unfoldable pub save_snapshot : Snapshot → Option (List ℕ)
  unfolding header_bytes
  save_snapshot s =
      if ltb max_snapshot_size (length s.content)
      then none
      else some (
          header_bytes s.last_included_index s.last_included_term (length s.content)
            (checksum s.content)
          ++ s.content)

  abbrev pub checked_payload : SnapshotHeader → Option (List ℕ) → Option Snapshot
  checked_payload h none = none
  checked_payload h (some payload) =
      if not (checksum payload == h.expected_crc) then none else some (snapshot_of h payload)

  abbrev pub load_payload : Option (SnapshotHeader × List ℕ) → Option Snapshot
  load_payload none = none
  load_payload (some (h, rest)) = checked_payload h (read_full h.size rest)

  -- LoadSnapshot on the bytes of the file; `none` is ErrSnapshotCorrupt.
  unfoldable pub load_snapshot : List ℕ → Option Snapshot
  unfolding read_snapshot_header
  load_snapshot file = load_payload (read_snapshot_header file)

  abbrev pub load_exact : ℕ → Option (SnapshotHeader × List ℕ) → Option Snapshot
  load_exact total none = none
  load_exact total (some (h, rest)) =
      if not (total == snapshot_header_size + h.size)
      then none
      else checked_payload h (read_full h.size rest)

  -- LoadSnapshotReader: the size of the file is checked too.
  unfoldable pub load_snapshot_reader : List ℕ → Option Snapshot
  unfolding read_snapshot_header
  load_snapshot_reader file = load_exact (length file) (read_snapshot_header file)

  -- finalizePendingSnapshot: the length and the checksum are patched into the header.
  unfoldable pub finalize_spill : SpillFile → Option (List ℕ)
  unfolding write_at put_uint32
  finalize_spill s =
      if ltb (2 ^ 32 - 1) s.size
      then none
      else some (
          write_at snapshot_header_len_offset
            (put_uint32 (s.size % 2 ^ 32) ++ put_uint32 (checksum s.hashed)) s.file)

  abbrev pub finalize_opened : Option SpillFile → Option (List ℕ)
  finalize_opened none = none
  finalize_opened (some s) = finalize_spill s
