-- ===== src/Examples/Files.antt =====
-- The bytes of a log file of internal/zero/raft, with small stand-ins for JSON, the checksum and
-- the HMAC.
use mxkeys_org.Prelude.{
  ℕ, zero, suc, ◌%◌, ◌^◌, ◌≡◌, ◌≢◌, refl, Option, none, some, List, [], ◌∷◌, ◌++◌, arith, length,
  ◌==◌, if◌then◌else◌,
}
use mxkeys_org.Raft.{LogEntry}
use mxkeys_org.Raft.Persistence.{keep_upto, keep_from}
use mxkeys_org.Raft.LogFile.{
  LogCodec, IsLawful, read_all, at_eof, wal_corrupt, append_locked, append_entries, log_record,
  filter_rewrite,
}
use mxkeys_org.Raft.LogFile.Reading.{framed, Fits}
use mxkeys_org.Raft.LogFile.Damage.{file_of, file-refines_list, appends_after_damage_lost}

-- A blank is left out, and an entry without a command is refused.
abbrev compact : List ℕ → List ℕ
compact [] = []
compact (b ∷ bs) = let rest = compact bs in if b == 32 then rest else b ∷ rest

abbrev plain_command : ℕ → ℕ → List ℕ → Option (List ℕ)
plain_command i t [] = none
plain_command i t (b ∷ bs) = some (i ∷ t ∷ compact (b ∷ bs))

abbrev plain : LogEntry → Option (List ℕ)
plain e = plain_command e.index e.term e.command

abbrev parse_plain : List ℕ → Option LogEntry
parse_plain (i ∷ t ∷ command) = some (record { index = i; term = t; command = command })
parse_plain _ = none

abbrev zeros : ℕ → List ℕ
zeros zero = []
zeros (suc n) = 0 ∷ zeros n

abbrev plain_codec : LogCodec
plain_codec = record {
  marshal = plain;
  unmarshal = parse_plain;
  checksum = λ b. length b % 2 ^ 32;
  mac = λ b. zeros 32;
}

plain_codec-IsLawful : IsLawful plain_codec
plain_codec-IsLawful = record { checksum_bound = λ b. omega arith; mac_size = λ b. refl }

abbrev first : LogEntry
first = record { index = 1; term = 1; command = 9 ∷ [] }

abbrev second : LogEntry
second = record { index = 2; term = 1; command = 8 ∷ [] }

first-Fits : Fits plain_codec first
first-Fits = (refl, refl, omega arith, omega arith)

second-Fits : Fits plain_codec second
second-Fits = (refl, refl, omega arith, omega arith)

file-refines_list_example :
    (read_all plain_codec (file_of plain_codec (first ∷ [])) ≡ some (first ∷ [], at_eof))
    × ((append_locked plain_codec second (file_of plain_codec (first ∷ []))
          ≡ some (file_of plain_codec (first ∷ second ∷ [])))
        × ((filter_rewrite plain_codec (keep_upto 0) (file_of plain_codec (first ∷ []))
              ≡ some (file_of plain_codec []))
            × (filter_rewrite plain_codec (keep_from 0) (file_of plain_codec (first ∷ []))
                ≡ some (file_of plain_codec (first ∷ [])))))
unfolding keep_upto keep_from
file-refines_list_example =
    file-refines_list plain_codec plain_codec-IsLawful (first ∷ []) second 0 (first-Fits, tt)
      second-Fits

three_ne_99 : ◌≢◌ {A = ℕ} 3 99
three_ne_99 e = omega (arith, e)

abbrev damaged : List ℕ
damaged = file_of plain_codec (first ∷ []) ++ (framed plain_codec 3 99 (zeros 32) ++ 1 ∷ 2 ∷ 3 ∷ [])

second_behind :
    append_entries plain_codec (second ∷ []) damaged
    ≡ some (damaged ++ log_record plain_codec (2 ∷ 1 ∷ 8 ∷ []))
unfolding append_entries append_locked
second_behind = refl

appends_after_damage_lost_example :
    read_all plain_codec (damaged ++ log_record plain_codec (2 ∷ 1 ∷ 8 ∷ []))
    ≡ some (first ∷ [], wal_corrupt)
appends_after_damage_lost_example =
    appends_after_damage_lost plain_codec plain_codec-IsLawful (first ∷ []) (second ∷ [])
      (1 ∷ 2 ∷ 3 ∷ []) (zeros 32) (damaged ++ log_record plain_codec (2 ∷ 1 ∷ 8 ∷ [])) 99
      (first-Fits, tt) refl (omega arith) (omega arith) (omega arith) three_ne_99 second_behind
