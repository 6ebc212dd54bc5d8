-- ===== src/Raft/SnapshotFile/Layout.antt =====
-- internal/zero/raft/snapshot.go and snapshot_load.go: what is read back of a snapshot file.
use mxkeys_org.Prelude.{
  ℕ, ◌+◌, ◌-◌, ◌^◌, ◌≤◌, ◌<◌, ◌≡◌, ◌∙◌, refl, ap, Bool, true, false, not, Option, none, some, List,
  ◌∷◌, ◌++◌, ltb, ◌==◌, if◌then◌else◌, length, take, take_all, read_full, length-append,
  length-take, take-append_beyond, ltb→lt, ltb_false→le, Bool-cases, inl, inr, subst, arith,
}
use mathlib.Core.List.{append_assoc}
use mxkeys_org.Raft.{Snapshot}
use mxkeys_org.Raft.Snapshots.{max_snapshot_size}
use mxkeys_org.Raft.SnapshotFile.{
  snapshot_header_size, SnapshotHeader, header_bytes, read_snapshot_header, save_snapshot,
  checked_payload, load_payload, load_snapshot, load_exact, load_snapshot_reader,
}
use mxkeys_org.Raft.SnapshotFile.Header.{
  read_full-long, length-header_bytes, read-header_bytes, read_full_short, read_header_short,
}

list_or : List ℕ → Option (List ℕ) → List ℕ
list_or other none = other
list_or other (some xs) = xs

if_some : (b : Bool) (x y : List ℕ) → (if b then none else some x) ≡ some y → (b ≡ false) × (x ≡ y)
unfolding list_or
if_some true x y e = ground (arith, e)
if_some false x y e = (refl, ap (list_or x) e)

module _ (checksum : List ℕ → ℕ) (bound : (b : List ℕ) → checksum b < 2 ^ 32) (s : Snapshot) where
  abbrev own_header : List ℕ
  own_header =
      header_bytes s.last_included_index s.last_included_term (length s.content)
        (checksum s.content)

  abbrev own_meta : SnapshotHeader
  own_meta = record {
    last_included_index = s.last_included_index;
    last_included_term = s.last_included_term;
    size = length s.content;
    expected_crc = checksum s.content;
  }

  own_read :
      (rest : List ℕ)
      → s.last_included_index < 2 ^ 64
      → s.last_included_term < 2 ^ 64
      → length s.content ≤ max_snapshot_size
      → read_snapshot_header (own_header ++ rest) ≡ some (own_meta, rest)
  own_read rest i t small =
      read-header_bytes s.last_included_index s.last_included_term (length s.content)
        (checksum s.content) rest i t (omega (arith, small)) (bound s.content)

  own_payload : checked_payload checksum own_meta (read_full (length s.content) s.content) ≡ some s
  own_payload =
      let same : not (checksum s.content == checksum s.content) ≡ false = ground arith in
      ap (checked_payload checksum own_meta) (
        read_full-long (length s.content) s.content (omega arith)
        ∙ ap some (take_all (length s.content) s.content (omega arith)))
      ∙ ap (λ b. if b then none else some s) same

  short_payload :
      (rest : List ℕ)
      → length rest < length s.content
      → checked_payload checksum own_meta (read_full (length s.content) rest) ≡ none
  short_payload rest short =
      ap (checked_payload checksum own_meta) (read_full_short (length s.content) rest short)

  abbrev own_file : List ℕ
  own_file = own_header ++ s.content

  length-own_file : length own_file ≡ 28 + length s.content
  length-own_file =
      length-append own_header s.content
      ∙ ap (λ n. n + length s.content)
          (length-header_bytes s.last_included_index s.last_included_term (length s.content)
            (checksum s.content))

  -- What both loaders make of a file.
  abbrev IsRefused : List ℕ → Type 0
  IsRefused file =
      (load_snapshot checksum file ≡ none) × (load_snapshot_reader checksum file ≡ none)

  cut_in_header : (k : ℕ) → k < 28 → IsRefused (take k own_file)
  unfolding load_snapshot load_snapshot_reader
  cut_in_header k cut =
      let short =
        read_header_short (take k own_file) (omega (arith, cut, length-take k own_file)) in
      (ap (load_payload checksum) short, ap (load_exact checksum (length (take k own_file))) short)

  none_either : (b : Bool) (o : Option Snapshot) → o ≡ none → (if b then none else o) ≡ none
  none_either true o e = refl
  none_either false o e = e

  cut_in_payload :
      (k : ℕ)
      → s.last_included_index < 2 ^ 64
      → s.last_included_term < 2 ^ 64
      → length s.content ≤ max_snapshot_size
      → 28 ≤ k
      → k < length own_file
      → IsRefused (take k own_file)
  unfolding load_snapshot load_snapshot_reader
  cut_in_payload k i t small past cut =
      let long : length own_header ≡ 28 =
        length-header_bytes s.last_included_index s.last_included_term (length s.content)
          (checksum s.content) in
      let rest = take (k - length own_header) s.content in
      let parted : take k own_file ≡ own_header ++ rest =
        take-append_beyond k own_header s.content (omega (arith, long, past)) in
      let header = ap read_snapshot_header parted ∙ own_read rest i t small in
      let short = short_payload rest (
        omega (
          arith,
          length-take (k - length own_header) s.content,
          long,
          length-own_file,
          cut,
          past,
        )) in
      let total = length (take k own_file) in
      (
        ap (load_payload checksum) header ∙ short,
        ap (load_exact checksum total) header
            ∙ none_either (not (total == snapshot_header_size + length s.content))
                (checked_payload checksum own_meta (read_full (length s.content) rest)) short,
      )

  own_loaded :
      s.last_included_index < 2 ^ 64
      → s.last_included_term < 2 ^ 64
      → length s.content ≤ max_snapshot_size
      → (load_snapshot checksum own_file ≡ some s)
        × (load_snapshot_reader checksum own_file ≡ some s)
  unfolding load_snapshot load_snapshot_reader
  own_loaded i t small =
      let header = own_read s.content i t small in
      let exact : not (length own_file == snapshot_header_size + length s.content) ≡ false =
        ground (arith, length-own_file) in
      (
        ap (load_payload checksum) header ∙ own_payload,
        ap (load_exact checksum (length own_file)) header
            ∙ ap
                (λ b.
                  if b
                  then none
                  else checked_payload checksum own_meta (read_full (length s.content) s.content))
                exact
            ∙ own_payload,
      )

  extended_refused :
      (extra : ℕ) (more : List ℕ)
      → s.last_included_index < 2 ^ 64
      → s.last_included_term < 2 ^ 64
      → length s.content ≤ max_snapshot_size
      → load_snapshot_reader checksum (own_file ++ extra ∷ more) ≡ none
  unfolding load_snapshot_reader
  extended_refused extra more i t small =
      let longer = own_file ++ extra ∷ more in
      let rest = s.content ++ extra ∷ more in
      let header =
        ap read_snapshot_header (append_assoc own_header s.content (extra ∷ more))
        ∙ own_read rest i t small in
      let inexact : not (length longer == snapshot_header_size + length s.content) ≡ true =
        ground (arith, length-append own_file (extra ∷ more), length-own_file) in
      ap (load_exact checksum (length longer)) header
      ∙ ap
          (λ b.
            if b
            then none
            else checked_payload checksum own_meta (read_full (length s.content) rest))
          inexact

-- A snapshot that SaveSnapshot writes is what LoadSnapshot and LoadSnapshotReader read from the file, if
-- its index and its term are below 2^64 and the checksums below 2^32. A file that is cut short anywhere is refused by
-- both, and LoadSnapshotReader refuses a file with bytes after its end.
pub save-load :
    (checksum : List ℕ → ℕ) (s : Snapshot) (file : List ℕ) (k extra : ℕ) (more : List ℕ)
    → ((b : List ℕ) → checksum b < 2 ^ 32)
    → s.last_included_index < 2 ^ 64
    → s.last_included_term < 2 ^ 64
    → save_snapshot checksum s ≡ some file
    → k < length file
    → (load_snapshot checksum file ≡ some s)
      × (load_snapshot_reader checksum file ≡ some s)
      × (load_snapshot checksum (take k file) ≡ none)
      × (load_snapshot_reader checksum (take k file) ≡ none)
      × (load_snapshot_reader checksum (file ++ extra ∷ more) ≡ none)
unfolding save_snapshot
save-load checksum s file k extra more bound i t saved cut =
    let written = own_file checksum bound s in
    let (fits, same) = if_some (ltb max_snapshot_size (length s.content)) written file saved in
    let small : length s.content ≤ max_snapshot_size =
      ltb_false→le max_snapshot_size (length s.content) fits in
    let cut' : k < length written = omega (arith, ap length same, cut) in
    let (loads, reads) = own_loaded checksum bound s i t small in
    let refused : IsRefused checksum bound s (take k written) = elim (Bool-cases (ltb k 28)) [
      | inl early ↦ cut_in_header checksum bound s k (ltb→lt k 28 early)
      | inr late ↦ cut_in_payload checksum bound s k i t small (ltb_false→le k 28 late) cut'
    ] in
    let (part, part_read) = refused in
    subst
      (λ f.
        (load_snapshot checksum f ≡ some s)
        × (load_snapshot_reader checksum f ≡ some s)
        × (load_snapshot checksum (take k f) ≡ none)
        × (load_snapshot_reader checksum (take k f) ≡ none)
        × (load_snapshot_reader checksum (f ++ extra ∷ more) ≡ none))
      same (loads, reads, part, part_read, extended_refused checksum bound s extra more i t small)
