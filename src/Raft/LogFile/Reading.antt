-- ===== src/Raft/LogFile/Reading.antt =====
-- internal/zero/raft/wal_read.go: one round of the reading loop, at a whole header and at a record.
use mxkeys_org.Prelude.{
  ℕ, zero, suc, ◌+◌, ◌-◌, ◌^◌, ◌<◌, ◌≤◌, ◌≡◌, ◌∙◌, refl, ap, sym, true, false, ◌||◌, Option, none,
  some, List, [], ◌∷◌, ◌++◌, ltb, ◌==◌, length, take, drop, bytes_eq, read_full, arith,
  length-append, take-append, drop-append, bytes_eq_refl, All, le→leb,
}
use mathlib.Core.List.{append_assoc}
use mxkeys_org.Raft.{LogEntry}
use mxkeys_org.Raft.LogFile.{
  LogCodec, IsLawful, ReadEnd, read_all, wal_magic, ended, entry_read, read_round, read_loop,
  check_header, check_payload, put_uint32, get_uint32, header, log_record, wal_max_record,
}

pub read_full-append : {n : ℕ} (xs ys : List ℕ) → length xs ≡ n → read_full n (xs ++ ys) ≡ some xs
unfolding read_full
read_full-append {n} xs ys h =
    rw
      (
        sym h,
        le→leb (length xs) (length (xs ++ ys)) (omega (arith, length-append xs ys)),
        take-append xs ys,
      )
      refl

pub drop-append_eq : {n : ℕ} (xs ys : List ℕ) → length xs ≡ n → drop n (xs ++ ys) ≡ ys
drop-append_eq {n} xs ys h = rw (sym h, drop-append xs ys) refl

get-put_uint32 : (n : ℕ) (ys : List ℕ) → n < 2 ^ 32 → get_uint32 (take 4 (put_uint32 n ++ ys)) ≡ n
unfolding get_uint32 put_uint32
get-put_uint32 n ys h = omega arith

module _ (c : LogCodec) where
  pub read_round-header :
      (hdr rest : List ℕ) → length hdr ≡ 40 → read_round c (hdr ++ rest) ≡ check_header c hdr rest
  unfolding read_round
  read_round-header [] rest h = absurd (omega arith)
  read_round-header (b ∷ hdr) rest h =
      rw (read_full-append (b ∷ hdr) rest h, drop-append_eq (b ∷ hdr) rest h) refl

  -- The header that a length, a checksum and a code make.
  abbrev pub framed : ℕ → ℕ → List ℕ → List ℕ
  framed n k m = (put_uint32 n ++ put_uint32 k) ++ m

  pub length-framed : (n k : ℕ) (m : List ℕ) → length m ≡ 32 → length (framed n k m) ≡ 40
  unfolding put_uint32
  length-framed n k m h = omega (arith, h)

  pub length_field : (n k : ℕ) (m : List ℕ) → n < 2 ^ 32 → get_uint32 (take 4 (framed n k m)) ≡ n
  unfolding put_uint32 get_uint32
  length_field n k m h = omega arith

  pub checksum_field :
      (n k : ℕ) (m : List ℕ) → k < 2 ^ 32 → get_uint32 (take 4 (drop 4 (framed n k m))) ≡ k
  unfolding put_uint32 get_uint32
  checksum_field n k m h = omega arith

  prefix_field : (n k : ℕ) (m : List ℕ) → take 8 (framed n k m) ≡ put_uint32 n ++ put_uint32 k
  unfolding put_uint32
  prefix_field n k m = refl

  mac_field : (n k : ℕ) (m : List ℕ) → drop 8 (framed n k m) ≡ m
  unfolding put_uint32
  mac_field n k m = refl

  -- A header with the payload's length leads to the payload's checks.
  pub read_framed :
      (k : ℕ) (m payload rest : List ℕ)
      → length m ≡ 32
      → 0 < length payload
      → length payload ≤ wal_max_record
      → read_round c (framed (length payload) k m ++ (payload ++ rest))
        ≡ check_payload c (framed (length payload) k m) payload rest
  read_framed k m payload rest hm lo hi =
      let n = length payload in
      let field = length_field n k m (omega (arith, hi)) in
      let fine : (n == 0 || ltb wal_max_record n) ≡ false = ground (arith, lo, hi) in
      rw
        (
          read_round-header (framed n k m) (payload ++ rest) (length-framed n k m hm),
          field,
          fine,
          read_full-append {n = n} payload rest refl,
          drop-append payload rest,
        )
        refl

  abbrev bytes_or_empty : Option (List ℕ) → List ℕ
  bytes_or_empty none = []
  bytes_or_empty (some b) = b

  -- The payload of an entry's record.
  abbrev pub payload_of : LogEntry → List ℕ
  payload_of e = bytes_or_empty (c.marshal e)

  abbrev pub records : List LogEntry → List ℕ
  records [] = []
  records (e ∷ es) = log_record c (payload_of e) ++ records es

  -- An entry that the log can keep: its JSON reads back as the entry, as that of a compact JSON command does, and
  -- is one that lenUint32 lets through.
  abbrev pub Fits : LogEntry → Type 0
  Fits e =
      (c.marshal e ≡ some (payload_of e))
      × (c.unmarshal (payload_of e) ≡ some e)
      × (0 < length (payload_of e))
      × (length (payload_of e) ≤ wal_max_record)

  pub length-log_record :
      IsLawful c
      → (e : LogEntry) → length (log_record c (payload_of e)) ≡ 40 + length (payload_of e)
  unfolding log_record header
  length-log_record lawful e =
      let p = payload_of e in
      let n = length p in
      let k = c.checksum p in
      let m = c.mac ((put_uint32 n ++ put_uint32 k) ++ p) in
      omega (
        arith,
        length-append (framed n k m) p,
        length-framed n k m (lawful.mac_size ((put_uint32 n ++ put_uint32 k) ++ p)),
      )

  pub read_record :
      IsLawful c
      → (e : LogEntry) (rest : List ℕ) → Fits e
      → read_round c (log_record c (payload_of e) ++ rest) ≡ entry_read e rest
  unfolding log_record header
  read_record lawful e rest fits =
      let p = payload_of e in
      let n = length p in
      let k = c.checksum p in
      let m = c.mac ((put_uint32 n ++ put_uint32 k) ++ p) in
      let same : (k == k) ≡ true = ground arith in
      rw
        (
          append_assoc (framed n k m) p rest,
          read_framed k m p rest (lawful.mac_size ((put_uint32 n ++ put_uint32 k) ++ p)) fits.2
              fits.3,
          checksum_field n k m (lawful.checksum_bound p),
          same,
          prefix_field n k m,
          mac_field n k m,
          bytes_eq_refl m,
          fits.1,
        )
        refl

  abbrev pub in_front :
      List LogEntry → Option (List LogEntry × ReadEnd) → Option (List LogEntry × ReadEnd)
  in_front [] r = r
  in_front (e ∷ es) r = elim (in_front es r) [ none ↦ none | some (fs, end) ↦ some (e ∷ fs, end) ]

  read_loop-records :
      IsLawful c
      → (fuel g : ℕ) (es : List LogEntry) (tail : List ℕ) → All Fits es
      → fuel ≡ length es + g
      → read_loop c fuel (records es ++ tail) ≡ in_front es (read_loop c g tail)
  unfolding read_loop
  read_loop-records lawful fuel g [] tail fit h = ap (λ f. read_loop c f tail) (omega (arith, h))
  read_loop-records lawful zero g (e ∷ es) tail fit h = absurd (omega (arith, h))
  read_loop-records lawful (suc fuel) g (e ∷ es) tail fit h =
      rw
        (
          append_assoc (log_record c (payload_of e)) (records es) tail,
          read_record lawful e (records es ++ tail) fit.0,
          read_loop-records lawful fuel g es tail fit.1 (omega (arith, h)),
        )
        refl

  in_front-some :
      (es : List LogEntry) (end : ReadEnd) → in_front es (some ([], end)) ≡ some (es, end)
  in_front-some [] end = refl
  in_front-some (e ∷ es) end = rw (in_front-some es end) refl

  length-records : IsLawful c → (es : List LogEntry) → length es ≤ length (records es)
  length-records lawful [] = omega arith
  length-records lawful (e ∷ es) = omega (
    arith,
    length-append (log_record c (payload_of e)) (records es),
    length-log_record lawful e,
    length-records lawful es,
  )

  -- A file is read up to the first round that does not read an entry.
  pub read_all-ended :
      IsLawful c
      → (es : List LogEntry) (tail : List ℕ) (end : ReadEnd) → All Fits es
      → read_round c tail ≡ ended end
      → read_all c (wal_magic ++ (records es ++ tail)) ≡ some (es, end)
  unfolding read_all read_full bytes_eq read_loop
  read_all-ended lawful es tail end fit h =
      let size = length (wal_magic ++ (records es ++ tail)) in
      let g = size - length es in
      let enough : suc size ≡ length es + suc g =
        omega (arith, length-append (records es) tail, length-records lawful es) in
      let stop : read_loop c (suc g) tail ≡ some ([], end) = rw h refl in
      rw (read_full-append wal_magic (records es ++ tail) refl) (
        read_loop-records lawful (suc size) (suc g) es tail fit enough
        ∙ ap (in_front es) stop
        ∙ in_front-some es end)
