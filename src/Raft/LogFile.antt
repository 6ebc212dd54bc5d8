-- ===== src/Raft/LogFile.antt =====
-- internal/zero/raft/wal.go, wal_append.go, wal_read.go and wal_truncate.go: the bytes of the file
-- raft.wal. JSON, CRC-32C and the keyed HMAC are a parameter. A file is the list of its bytes.
pub mod Reading
pub mod Damage
use mxkeys_org.Prelude.{
  ℕ, zero, suc, ◌+◌, ◌*◌, ◌/◌, ◌%◌, ◌^◌, ◌<◌, ◌≤◌, ◌≡◌, Bool, true, false, not, ◌||◌, Option, none,
  some, List, [], ◌∷◌, ◌++◌, ltb, leb, ◌==◌, if◌then◌else◌, length, take, drop, bytes_eq, read_full,
}
use mxkeys_org.Raft.{LogEntry}
use mxkeys_org.Raft.Persistence.{keep_upto, keep_from}

-- json.Marshal of an entry, which fails on a command that is no JSON, and Unmarshal, CRC-32C, and HMAC-SHA256 with the log's key.
pub record LogCodec : Type 0 where
  pub marshal : LogEntry → Option (List ℕ)
  pub unmarshal : List ℕ → Option LogEntry
  pub checksum : List ℕ → ℕ
  pub mac : List ℕ → List ℕ

-- The sizes that the file format relies on.
pub record IsLawful (c : LogCodec) : Type 0 where
  pub checksum_bound : (b : List ℕ) → c.checksum b < 2 ^ 32
  pub mac_size : (b : List ℕ) → length (c.mac b) ≡ 32

-- walMagicV3: "MXKS_WAL_v3" and a zero byte
abbrev pub wal_magic : List ℕ
wal_magic = 77 ∷ 88 ∷ 75 ∷ 83 ∷ 95 ∷ 87 ∷ 65 ∷ 76 ∷ 95 ∷ 118 ∷ 51 ∷ 0 ∷ []

abbrev pub wal_magic_size : ℕ
wal_magic_size = 12

abbrev pub wal_header_size : ℕ
wal_header_size = 40

-- walMaxRecord, 8 << 20
abbrev pub wal_max_record : ℕ
wal_max_record = 8388608

-- binary.LittleEndian.PutUint32
unfoldable pub put_uint32 : ℕ → List ℕ
put_uint32 n = n % 256 ∷ n / 256 % 256 ∷ n / 65536 % 256 ∷ n / 16777216 % 256 ∷ []

-- binary.LittleEndian.Uint32
unfoldable pub get_uint32 : List ℕ → ℕ
get_uint32 (a ∷ b ∷ c ∷ d ∷ _) = a + b * 256 + c * 65536 + d * 16777216
get_uint32 _ = 0

-- How a read of the file ends.
pub data ReadEnd : Type 0 where
  at_eof wal_corrupt wal_tampered : ReadEnd

-- One round of the loop of readAllLocked.
pub data Round : Type 0 where
  ended : ReadEnd → Round
  entry_read : LogEntry → List ℕ → Round

module _ (c : LogCodec) where
  -- appendLocked's header: the length, the checksum, and the HMAC over both and the payload.
  unfoldable pub header : List ℕ → List ℕ
  header payload =
      let prefix = put_uint32 (length payload) ++ put_uint32 (c.checksum payload) in
      prefix ++ c.mac (prefix ++ payload)

  unfoldable pub log_record : List ℕ → List ℕ
  unfolding header
  log_record payload = header payload ++ payload

  abbrev pub append_marshalled : Option (List ℕ) → List ℕ → Option (List ℕ)
  append_marshalled none file = none
  append_marshalled (some payload) file =
      if ltb wal_max_record (length payload) then none else some (file ++ log_record payload)

  -- appendLocked, up to its writes: `none` is an entry that json.Marshal refuses, or a payload that lenUint32
  -- refuses.
  unfoldable pub append_locked : LogEntry → List ℕ → Option (List ℕ)
  unfolding log_record
  append_locked e file = append_marshalled (c.marshal e) file

  abbrev pub decoded : Option LogEntry → List ℕ → Round
  decoded none rest = ended wal_corrupt
  decoded (some e) rest = entry_read e rest

  -- The checks on a payload that was read in full.
  abbrev pub check_payload : List ℕ → List ℕ → List ℕ → Round
  check_payload hdr payload rest =
      if not (c.checksum payload == get_uint32 (take 4 (drop 4 hdr)))
      then ended wal_corrupt
      else if not (bytes_eq (c.mac (take 8 hdr ++ payload)) (drop 8 hdr))
      then ended wal_tampered
      else decoded (c.unmarshal payload) rest

  abbrev pub with_payload : List ℕ → Option (List ℕ) → List ℕ → Round
  with_payload hdr none rest = ended wal_corrupt
  with_payload hdr (some payload) rest = check_payload hdr payload (drop (length payload) rest)

  abbrev pub check_header : List ℕ → List ℕ → Round
  check_header hdr rest =
      let len = get_uint32 (take 4 hdr) in
      if len == 0 || ltb wal_max_record len
      then ended wal_corrupt
      else with_payload hdr (read_full len rest) rest

  abbrev pub with_header : Option (List ℕ) → List ℕ → Round
  with_header none bytes = ended wal_corrupt
  with_header (some hdr) bytes = check_header hdr (drop wal_header_size bytes)

  -- No byte left is io.EOF, fewer than a header is io.ErrUnexpectedEOF.
  unfoldable pub read_round : List ℕ → Round
  unfolding read_full get_uint32 bytes_eq
  read_round [] = ended at_eof
  read_round (b ∷ bytes) = with_header (read_full wal_header_size (b ∷ bytes)) (b ∷ bytes)

  abbrev pub go_on :
      (List ℕ → Option (List LogEntry × ReadEnd)) → Round → Option (List LogEntry × ReadEnd)
  go_on next (ended end) = some ([], end)
  go_on next (entry_read e rest) = elim (next rest) [
    | none ↦ none
    | some (es, end) ↦ some (e ∷ es, end)
  ]

  -- The loop of readAllLocked; `none` is a loop that has not ended within the fuel.
  unfoldable pub read_loop : ℕ → List ℕ → Option (List LogEntry × ReadEnd)
  unfolding read_round
  read_loop zero bytes = none
  read_loop (suc fuel) bytes = go_on (read_loop fuel) (read_round bytes)

  abbrev pub after_magic : Option (List ℕ) → List ℕ → Option (List LogEntry × ReadEnd)
  after_magic none file = some ([], wal_corrupt)
  after_magic (some magic) file =
      if bytes_eq magic wal_magic
      then read_loop (suc (length file)) (drop wal_magic_size file)
      else some ([], wal_corrupt)

  -- readAllLocked; a round takes a header at least, so the length of the file is fuel enough.
  unfoldable pub read_all : List ℕ → Option (List LogEntry × ReadEnd)
  unfolding read_loop read_full bytes_eq
  read_all [] = some ([], at_eof)
  read_all (b ∷ file) = after_magic (read_full wal_magic_size (b ∷ file)) (b ∷ file)

  abbrev pub then_write : (List ℕ → Option (List ℕ)) → Option (List ℕ) → Option (List ℕ)
  then_write next none = none
  then_write next (some file) = next file

  -- rewriteLocked's loop over the entries that stay.
  unfoldable pub append_entries : List LogEntry → List ℕ → Option (List ℕ)
  unfolding append_locked
  append_entries [] file = some file
  append_entries (e ∷ es) file = then_write (append_entries es) (append_locked e file)

  abbrev pub rewritten :
      (List LogEntry → List LogEntry) → Option (List LogEntry × ReadEnd) → Option (List ℕ)
  rewritten keep none = none
  rewritten keep (some (es, at_eof)) = append_entries (keep es) wal_magic
  rewritten keep (some (es, wal_corrupt)) = append_entries (keep es) wal_magic
  rewritten keep (some (es, wal_tampered)) = none

  -- filterRewrite and rewriteLocked without failures of the file system; `none` is an error, and
  -- the file stays as it was.
  unfoldable pub filter_rewrite : (List LogEntry → List LogEntry) → List ℕ → Option (List ℕ)
  unfolding read_all append_entries
  filter_rewrite keep file = rewritten keep (read_all file)
