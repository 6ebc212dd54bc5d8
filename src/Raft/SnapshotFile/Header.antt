-- ===== src/Raft/SnapshotFile/Header.antt =====
-- internal/zero/raft/snapshot.go and snapshot_load.go: the header of a snapshot file.
use mxkeys_org.Prelude.{
  ℕ, ◌+◌, ◌*◌, ◌/◌, ◌%◌, ◌^◌, ◌≤◌, ◌<◌, ◌≡◌, ◌∙◌, refl, ap, Bool, true, false, not, Option, none,
  some, List, [], ◌++◌, le→leb, if◌then◌else◌, length, take, drop, bytes_eq, read_full,
  length-append, length-drop, arith,
}
use mxkeys_org.Raft.LogFile.{put_uint32, get_uint32}
use mxkeys_org.Raft.SnapshotFile.{
  snapshot_magic, put_uint64, get_uint64, SnapshotHeader, header_bytes, with_crc, with_fields,
  with_magic, read_snapshot_header,
}

pub read_full-long :
    (n : ℕ) (bytes : List ℕ) → n ≤ length bytes → read_full n bytes ≡ some (take n bytes)
unfolding read_full
read_full-long n bytes long =
    ap (λ b. if b then some (take n bytes) else none) (le→leb n (length bytes) long)

get-put_uint32_front : (n : ℕ) (ys : List ℕ) → n < 2 ^ 32 → get_uint32 (put_uint32 n ++ ys) ≡ n
unfolding get_uint32 put_uint32
get-put_uint32_front n ys small = omega (arith, small)

get-put_uint64_front : (n : ℕ) (ys : List ℕ) → n < 2 ^ 64 → get_uint64 (put_uint64 n ++ ys) ≡ n
unfolding get_uint64 put_uint64
get-put_uint64_front n ys small =
    let low = get-put_uint32_front (n % 2 ^ 32) (put_uint32 (n / 2 ^ 32) ++ ys) (omega arith) in
    let high = get-put_uint32_front (n / 2 ^ 32) ys (omega (arith, small)) in
    let sum : n % 2 ^ 32 + n / 2 ^ 32 * 2 ^ 32 ≡ n = omega arith in
    ap (λ x. x + get_uint32 (put_uint32 (n / 2 ^ 32) ++ ys) * 2 ^ 32) low
    ∙ ap (λ y. n % 2 ^ 32 + y * 2 ^ 32) high
    ∙ sum

pub length-header_bytes : (index term size crc : ℕ) → length (header_bytes index term size crc) ≡ 28
unfolding header_bytes put_uint64 put_uint32
length-header_bytes index term size crc = refl

-- The header reads back, with the bytes after it.
pub read-header_bytes :
    (index term size crc : ℕ) (rest : List ℕ)
    → index < 2 ^ 64
    → term < 2 ^ 64
    → size < 2 ^ 32
    → crc < 2 ^ 32
    → read_snapshot_header (header_bytes index term size crc ++ rest)
      ≡ some (
        record {
          last_included_index = index;
          last_included_term = term;
          size = size;
          expected_crc = crc;
        },
        rest,
      )
unfolding read_snapshot_header header_bytes put_uint64 put_uint32
read-header_bytes index term size crc rest i t n c =
    let bytes = header_bytes index term size crc ++ rest in
    let whole : 28 ≤ length bytes = omega (
      arith,
      length-append (header_bytes index term size crc) rest,
      length-header_bytes index term size crc,
    ) in
    let fields = drop 4 bytes in
    let hdr = take 20 fields in
    let magic_read = read_full-long 4 bytes (omega (arith, whole)) in
    let fields_read = read_full-long 20 fields (omega (arith, whole)) in
    let crc_read = read_full-long 4 (drop 20 fields) (omega (arith, whole)) in
    ap (λ o. with_magic o bytes) magic_read
    ∙ ap (λ o. with_fields o fields) fields_read
    ∙ ap (λ o. with_crc hdr o (drop 20 fields)) crc_read
    ∙ ap
        (λ v.
          header_read v (get_uint64 (take 8 (drop 8 hdr))) (get_uint32 (drop 16 hdr))
            (get_uint32 (take 4 (drop 20 fields))))
        (get-put_uint64_front index [] i)
    ∙ ap
        (λ v. header_read index v (get_uint32 (drop 16 hdr)) (get_uint32 (take 4 (drop 20 fields))))
        (get-put_uint64_front term [] t)
    ∙ ap (λ v. header_read index term v (get_uint32 (take 4 (drop 20 fields))))
        (get-put_uint32_front size [] n)
    ∙ ap (header_read index term size) (get-put_uint32_front crc [] c)
  where
    header_read : ℕ → ℕ → ℕ → ℕ → Option (SnapshotHeader × List ℕ)
    header_read i t n c = some (
      record { last_included_index = i; last_included_term = t; size = n; expected_crc = c },
      rest,
    )

pub read_full_short : (n : ℕ) (bytes : List ℕ) → length bytes < n → read_full n bytes ≡ none
unfolding read_full
read_full_short n bytes short = ground (arith, short)

-- A file that is shorter than its header is refused.
pub read_header_short : (file : List ℕ) → length file < 28 → read_snapshot_header file ≡ none
unfolding read_snapshot_header
read_header_short file short = by_magic (read_full 4 file)
  where
    crc_missing : read_full 4 (drop 20 (drop 4 file)) ≡ none
    crc_missing =
        read_full_short 4 (drop 20 (drop 4 file))
          (omega (arith, short, length-drop 4 file, length-drop 20 (drop 4 file)))

    by_fields : (o : Option (List ℕ)) → with_fields o (drop 4 file) ≡ none
    by_fields none = refl
    by_fields (some hdr) = ap (λ o. with_crc hdr o (drop 20 (drop 4 file))) crc_missing

    by_test :
        (b : Bool)
        → (if b then none else with_fields (read_full 20 (drop 4 file)) (drop 4 file)) ≡ none
    by_test true = refl
    by_test false = by_fields (read_full 20 (drop 4 file))

    by_magic : (o : Option (List ℕ)) → with_magic o file ≡ none
    by_magic none = refl
    by_magic (some magic) = by_test (not (bytes_eq magic snapshot_magic))
