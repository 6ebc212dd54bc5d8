-- ===== src/Raft/LogFile/Damage.antt =====
-- internal/zero/raft/wal_read.go and wal_truncate.go: whole files, cut tails and damaged records.
use mxkeys_org.Prelude.{
  ℕ, ◌-◌, ◌^◌, ◌<◌, ◌≤◌, ◌≡◌, ◌≢◌, ◌∙◌, refl, ap, sym, subst, take-append_beyond, Bool, true, false,
  ◌||◌, Option, none, some, Option-cases, if◌then◌else◌, List, [], ◌∷◌, ◌++◌, ltb, leb, ◌==◌,
  length, take, read_full, arith, length-append, All, length-take, Bool-cases, inl, inr, ltb→lt,
  ltb_false→le,
}
use mathlib.Core.List.{append_assoc, append-nil}
use mxkeys_org.Raft.{LogEntry}
use mxkeys_org.Raft.Persistence.{keep_upto, keep_from}
use mxkeys_org.Raft.LogFile.{
  LogCodec, IsLawful, read_all, wal_magic, ended, read_round, log_record, wal_max_record, at_eof,
  wal_corrupt, append_locked, append_marshalled, append_entries, then_write, filter_rewrite, header,
  put_uint32,
}
use mxkeys_org.Raft.LogFile.Reading.{
  records, payload_of, Fits, read_all-ended, read_framed, framed, checksum_field, read_round-header,
  length-framed, length_field,
}

abbrev some_or : List ℕ → Option (List ℕ) → List ℕ
some_or d none = d
some_or d (some x) = x

module _ (c : LogCodec) where
  no_bytes : read_round c [] ≡ ended at_eof
  unfolding read_round
  no_bytes = refl

  append_locked-Fits :
      (e : LogEntry) (file : List ℕ)
      → Fits c e
      → append_locked c e file ≡ some (file ++ log_record c (payload_of c e))
  unfolding append_locked
  append_locked-Fits e file fits =
      let small : ltb wal_max_record (length (payload_of c e)) ≡ false = ground (arith, fits) in
      rw (fits.0, small) refl

  append_entries-fit :
      (es : List LogEntry) (file : List ℕ)
      → All (Fits c) es
      → append_entries c es file ≡ some (file ++ records c es)
  unfolding append_entries
  append_entries-fit [] file fit = ap some (sym (append-nil file))
  append_entries-fit (e ∷ es) file fit =
      rw
        (
          append_locked-Fits e file fit.0,
          append_entries-fit es (file ++ log_record c (payload_of c e)) fit.1,
          append_assoc file (log_record c (payload_of c e)) (records c es),
        )
        refl

  records-append_one :
      (es : List LogEntry) (e : LogEntry)
      → records c es ++ log_record c (payload_of c e) ≡ records c (es ++ e ∷ [])
  records-append_one [] e = sym (append-nil (log_record c (payload_of c e)))
  records-append_one (x ∷ es) e =
      append_assoc (log_record c (payload_of c x)) (records c es) (log_record c (payload_of c e))
      ∙ ap (λ b. log_record c (payload_of c x) ++ b) (records-append_one es e)

  -- A file that holds these entries and nothing besides.
  abbrev pub file_of : List LogEntry → List ℕ
  file_of es = wal_magic ++ records c es

  read_all-file_of :
      IsLawful c
      → (es : List LogEntry) → All (Fits c) es
      → read_all c (file_of es) ≡ some (es, at_eof)
  read_all-file_of lawful es fit =
      let whole = read_all-ended c lawful es [] at_eof fit no_bytes in
      subst (λ b. read_all c (wal_magic ++ b) ≡ some (es, at_eof)) (append-nil (records c es)) whole

  All-keep_upto : (k : ℕ) (es : List LogEntry) → All (Fits c) es → All (Fits c) (keep_upto k es)
  unfolding keep_upto
  All-keep_upto k [] fit = fit
  All-keep_upto k (e ∷ es) fit = elim (Bool-cases (leb e.index k)) [
    | inl kept ↦ rw kept (fit.0, All-keep_upto k es fit.1)
    | inr lost ↦ rw lost (All-keep_upto k es fit.1)
  ]

  All-keep_from : (k : ℕ) (es : List LogEntry) → All (Fits c) es → All (Fits c) (keep_from k es)
  unfolding keep_from
  All-keep_from k [] fit = fit
  All-keep_from k (e ∷ es) fit = elim (Bool-cases (leb k e.index)) [
    | inl kept ↦ rw kept (fit.0, All-keep_from k es fit.1)
    | inr lost ↦ rw lost (All-keep_from k es fit.1)
  ]

  short_header :
      (bytes : List ℕ)
      → 0 < length bytes
      → length bytes < 40
      → read_round c bytes ≡ ended wal_corrupt
  unfolding read_round read_full
  short_header [] lo hi = absurd (omega (arith, lo))
  short_header (b ∷ bytes) lo hi =
      let few : leb 40 (length (b ∷ bytes)) ≡ false = ground (arith, hi) in rw few refl

  short_payload :
      (n k : ℕ) (m rest : List ℕ)
      → length m ≡ 32
      → n < 2 ^ 32
      → length rest < n
      → read_round c (framed c n k m ++ rest) ≡ ended wal_corrupt
  unfolding read_full
  short_payload n k m rest hm bound few =
      let missing : leb n (length rest) ≡ false = ground (arith, few) in
      rw
        (
          read_round-header c (framed c n k m) rest (length-framed c n k m hm),
          length_field c n k m bound,
          missing,
        )
        (elim (Bool-cases (n == 0 || ltb wal_max_record n)) [
          | inl bad ↦ rw bad refl
          | inr good ↦ rw good refl
        ])

  -- A record that is cut off is corrupt: too short for a header, or for the payload it names.
  cut_record :
      IsLawful c
      → (e : LogEntry) (k : ℕ) → Fits c e
      → 0 < k
      → k < length (log_record c (payload_of c e))
      → read_round c (take k (log_record c (payload_of c e))) ≡ ended wal_corrupt
  unfolding log_record header
  cut_record lawful e k fits lo hi =
      let p = payload_of c e in
      let n = length p in
      let m = c.mac ((put_uint32 n ++ put_uint32 (c.checksum p)) ++ p) in
      let hdr = framed c n (c.checksum p) m in
      let hm = lawful.mac_size ((put_uint32 n ++ put_uint32 (c.checksum p)) ++ p) in
      let size = length-framed c n (c.checksum p) m hm in
      let whole = length-append hdr p in
      elim (Bool-cases (ltb k 40)) [
        | inl early ↦
            short_header (take k (hdr ++ p))
              (omega (arith, length-take k (hdr ++ p), lo, hi, whole, size))
              (omega (arith, length-take k (hdr ++ p), ltb→lt _ _ early))
        | inr late ↦ rw (take-append_beyond k hdr p (omega (arith, size, ltb_false→le _ _ late))) (
            short_payload n (c.checksum p) m (take (k - length hdr) p) hm (omega (arith, fits)) (
              omega
                (arith, length-take (k - length hdr) p, size, ltb_false→le _ _ late, hi, whole)))
      ]

  -- After records that were written whole, a record that a crash cut off is not read: the log reads
  -- as corrupt, with all the entries before it.
  pub cut_tail_read :
      IsLawful c
      → (es : List LogEntry) (e : LogEntry) (k : ℕ) → All (Fits c) es
      → Fits c e
      → 0 < k
      → k < length (log_record c (payload_of c e))
      → read_all c (file_of es ++ take k (log_record c (payload_of c e))) ≡ some (es, wal_corrupt)
  cut_tail_read lawful es e k fit fits lo hi =
      read_all-ended c lawful es (take k (log_record c (payload_of c e))) wal_corrupt fit
        (cut_record lawful e k fits lo hi)

  -- For entries whose JSON reads back as they are and is not too long, the file of a list of entries reads as that
  -- list, takes an appended entry as the list takes it, and a truncation leaves the file of the entries that the list
  -- version keeps.
  pub file-refines_list :
      IsLawful c
      → (es : List LogEntry) (e : LogEntry) (k : ℕ) → All (Fits c) es
      → Fits c e
      → (read_all c (file_of es) ≡ some (es, at_eof))
        × ((append_locked c e (file_of es) ≡ some (file_of (es ++ e ∷ [])))
            × ((filter_rewrite c (keep_upto k) (file_of es) ≡ some (file_of (keep_upto k es)))
                × (filter_rewrite c (keep_from k) (file_of es) ≡ some (file_of (keep_from k es)))))
  unfolding filter_rewrite
  file-refines_list lawful es e k fit fits =
      let reads = read_all-file_of lawful es fit in
      (
        reads,
        (
          append_locked-Fits e (file_of es) fits
              ∙ ap (λ b. some (wal_magic ++ b)) (records-append_one es e),
          (
            rw reads (append_entries-fit (keep_upto k es) wal_magic (All-keep_upto k es fit)),
            rw reads (append_entries-fit (keep_from k es) wal_magic (All-keep_from k es fit)),
          ),
        ),
      )

  append_locked-tail :
      (e : LogEntry) (file after : List ℕ)
      → append_locked c e file ≡ some after
      → (tail : List ℕ) × (after ≡ file ++ tail)
  unfolding append_locked
  append_locked-tail e file after h = by_bytes (c.marshal e) h
    where
      by_test :
          (b : Bool) (tail : List ℕ)
          → (if b then none else some (file ++ tail)) ≡ some after
          → (tail : List ℕ) × (after ≡ file ++ tail)
      by_test true tail h = absurd (ground (arith, h))
      by_test false tail h = (tail, sym (ap (some_or after) h))

      by_bytes :
          (o : Option (List ℕ))
          → append_marshalled c o file ≡ some after
          → (tail : List ℕ) × (after ≡ file ++ tail)
      by_bytes none h = absurd (ground (arith, h))
      by_bytes (some payload) h =
          by_test (ltb wal_max_record (length payload)) (log_record c payload) h

  append_entries-tail :
      (es : List LogEntry) (file after : List ℕ)
      → append_entries c es file ≡ some after
      → (tail : List ℕ) × (after ≡ file ++ tail)
  unfolding append_entries
  append_entries-tail [] file after h = ([], sym (ap (some_or file) h) ∙ sym (append-nil file))
  append_entries-tail (e ∷ es) file after h = elim (Option-cases (append_locked c e file)) [
    | inl failed ↦ absurd (ground (arith, sym (ap (then_write c (append_entries c es)) failed) ∙ h))
    | inr (next, written) ↦
        let (one, here) = append_locked-tail e file next written in
        let (more, there) =
          append_entries-tail es next after
            (sym (ap (then_write c (append_entries c es)) written) ∙ h) in
        (one ++ more, there ∙ ap (λ f. f ++ more) here ∙ append_assoc file one more)
  ]

  -- A record with another checksum than its payload's hides every record that appendLocked writes behind it
  -- later: the file reads as corrupt, with the entries before the damage alone, if those were written as the log can
  -- keep them.
  pub appends_after_damage_lost :
      IsLawful c
      → (es later : List LogEntry) (payload m file : List ℕ) (k : ℕ) → All (Fits c) es
      → length m ≡ 32
      → 0 < length payload
      → length payload ≤ wal_max_record
      → k < 2 ^ 32
      → c.checksum payload ≢ k
      → append_entries c later (file_of es ++ (framed c (length payload) k m ++ payload))
        ≡ some file
      → read_all c file ≡ some (es, wal_corrupt)
  appends_after_damage_lost lawful es later payload m file k fit hm lo hi bound wrong appended =
      let differ : (c.checksum payload == k) ≡ false = ground (arith, wrong) in
      let hdr = framed c (length payload) k m in
      let (tail, grown) =
        append_entries-tail later (file_of es ++ (hdr ++ payload)) file appended in
      let laid : file ≡ wal_magic ++ (records c es ++ (hdr ++ (payload ++ tail))) =
        grown
        ∙ append_assoc (file_of es) (hdr ++ payload) tail
        ∙ append_assoc wal_magic (records c es) ((hdr ++ payload) ++ tail)
        ∙ ap (λ b. wal_magic ++ (records c es ++ b)) (append_assoc hdr payload tail) in
      ap (read_all c) laid
      ∙ read_all-ended c lawful es (hdr ++ (payload ++ tail)) wal_corrupt fit (
          rw
            (
              read_framed c k m payload tail hm lo hi,
              checksum_field c (length payload) k m bound,
              differ,
            )
            refl)
