-- ===== src/Canonical/Strings.antt =====
-- internal/zero/canonical/strings.go beside a reader of JSON strings.
use mxkeys_org.Prelude.{
  List, ℕ, zero, suc, ◌+◌, ◌-◌, ◌*◌, ◌/◌, ◌%◌, ◌<◌, ◌≡◌, ◌∙◌, refl, sym, ap, true, false, ◌&&◌,
  Option, none, some, [], ◌∷◌, ◌++◌, ltb, leb, subst, ltb→lt, ==_iff, ◌==◌, if◌then◌else◌, Text,
  arith, inl, inr, Bool-cases,
}
use mathlib.Core.List.{append_assoc}
use mxkeys_org.Canonical.{
  map_option, hex_digit, escape_rune, escape, Piece, range_runes, write_runes, write_string,
}

-- Where a reader of a JSON string is: in the text, behind a backslash, or among the digits of \u with the number
-- of digits left and the value of those before.
pub data Mode : Type 0 where
  plain : Mode
  escaped : Mode
  hex : ℕ → ℕ → Mode

-- What a reader does with a rune.
pub data Move : Type 0 where
  refused : Move
  finished : Move
  go : Mode → Text → Move

abbrev hex_value : ℕ → Option ℕ
hex_value c =
    if leb 48 c && leb c 57
    then some (c - 48)
    else if leb 97 c && leb c 102
    then some (c - 87)
    else if leb 65 c && leb c 70
    then some (c - 55)
    else none

abbrev add_digit : ℕ → ℕ → Option ℕ → Move
add_digit left acc none = refused
add_digit zero acc (some d) = refused
add_digit (suc zero) acc (some d) = go plain ((acc * 16 + d) ∷ [])
add_digit (suc (suc left)) acc (some d) = go (hex (suc left) (acc * 16 + d)) []

-- RFC 8259, section 7
unfoldable step : Mode → ℕ → Move
step plain c =
    if c == 34
    then finished
    else if c == 92
    then go escaped []
    else if ltb c 32
    then refused
    else go plain (c ∷ [])
step escaped c =
    if c == 34
    then go plain (34 ∷ [])
    else if c == 92
    then go plain (92 ∷ [])
    else if c == 47
    then go plain (47 ∷ [])
    else if c == 98
    then go plain (8 ∷ [])
    else if c == 102
    then go plain (12 ∷ [])
    else if c == 110
    then go plain (10 ∷ [])
    else if c == 114
    then go plain (13 ∷ [])
    else if c == 116
    then go plain (9 ∷ [])
    else if c == 117
    then go (hex 4 0) []
    else refused
step (hex left acc) c = add_digit left acc (hex_value c)

abbrev after_move : Move → (Mode → Option (Text × Text)) → Text → Option (Text × Text)
after_move refused read rest = none
after_move finished read rest = some ([], rest)
after_move (go m out) read rest = map_option (λ r. (out ++ r.0, r.1)) (read m)

-- The runes of a string up to its closing quote, and what follows it.
unfoldable read_runes : Text → Mode → Option (Text × Text)
unfolding step
read_runes [] m = none
read_runes (c ∷ s) m = after_move (step m c) (read_runes s) s

unfoldable pub read_string : Text → Option (Text × Text)
unfolding read_runes
read_string [] = none
read_string (c ∷ s) = if c == 34 then read_runes s plain else none

-- Prepending to what was read.
abbrev prepend : Text → Option (Text × Text) → Option (Text × Text)
prepend out = map_option (λ r. (out ++ r.0, r.1))

-- After any number of runes that lead back to the text.
short_escape :
    (c r : ℕ) (rest : Text)
    → step escaped c ≡ go plain (r ∷ [])
    → read_runes (92 ∷ c ∷ rest) plain ≡ prepend (r ∷ []) (read_runes rest plain)
unfolding read_runes
short_escape c r rest h =
    again (after_move (step escaped c) (read_runes rest) rest)
    ∙ ap (λ m. after_move m (read_runes rest) rest) h
  where
    again : (o : Option (Text × Text)) → map_option (λ r. ([] ++ r.0, r.1)) o ≡ o
    again none = refl
    again (some r) = refl

hex_value-hex_digit : (n : ℕ) → n < 16 → hex_value (hex_digit n) ≡ some n
hex_value-hex_digit n small = ground (arith, small)

merge : (out : Text) (o : Option (Text × Text)) → prepend [] (prepend out o) ≡ prepend out o
merge out none = refl
merge out (some r) = refl

read_four :
    (d e : ℕ) (rest : Text)
    → d < 16
    → e < 16
    → read_runes (92 ∷ 117 ∷ 48 ∷ 48 ∷ hex_digit d ∷ hex_digit e ∷ rest) plain
      ≡ prepend (((0 * 16 + d) * 16 + e) ∷ []) (read_runes rest plain)
unfolding read_runes step
read_four d e rest d_small e_small =
    ap
      (λ o. prepend [] (
        prepend [] (
          prepend [] (
            prepend [] (
              after_move (add_digit 2 0 o) (read_runes (hex_digit e ∷ rest))
                (hex_digit e ∷ rest))))))
      (hex_value-hex_digit d d_small)
    ∙ ap
        (λ o. prepend [] (
          prepend [] (
            prepend [] (
              prepend []
                (prepend [] (after_move (add_digit 1 (0 * 16 + d) o) (read_runes rest) rest))))))
        (hex_value-hex_digit e e_small)
    ∙ ap (λ o. prepend [] (prepend [] (prepend [] (prepend [] o))))
        (merge (((0 * 16 + d) * 16 + e) ∷ []) (read_runes rest plain))
    ∙ ap (λ o. prepend [] (prepend [] (prepend [] o)))
        (merge (((0 * 16 + d) * 16 + e) ∷ []) (read_runes rest plain))
    ∙ ap (λ o. prepend [] (prepend [] o))
        (merge (((0 * 16 + d) * 16 + e) ∷ []) (read_runes rest plain))
    ∙ ap (prepend []) (merge (((0 * 16 + d) * 16 + e) ∷ []) (read_runes rest plain))
    ∙ merge (((0 * 16 + d) * 16 + e) ∷ []) (read_runes rest plain)

read_control :
    (r : ℕ) (rest : Text)
    → r < 32
    → read_runes (92 ∷ 117 ∷ 48 ∷ 48 ∷ hex_digit (r / 16 % 16) ∷ hex_digit (r % 16) ∷ rest) plain
      ≡ prepend (r ∷ []) (read_runes rest plain)
read_control r rest small =
    let value : (0 * 16 + r / 16 % 16) * 16 + r % 16 ≡ r = omega (arith, small) in
    read_four (r / 16 % 16) (r % 16) rest (omega arith) (omega arith)
    ∙ ap (λ c. prepend (c ∷ []) (read_runes rest plain)) value

read_plain :
    (r : ℕ) (rest : Text)
    → (r == 34) ≡ false
    → (r == 92) ≡ false
    → ltb r 32 ≡ false
    → read_runes (r ∷ rest) plain ≡ prepend (r ∷ []) (read_runes rest plain)
unfolding read_runes step
read_plain r rest no_quote no_slash printed = rw (no_quote, no_slash, printed) refl

abbrev ReadsRune : Text → ℕ → Type 0
ReadsRune rest r =
    read_runes (escape_rune r ++ rest) plain ≡ prepend (r ∷ []) (read_runes rest plain)

at : (rest : Text) (c r : ℕ) → ReadsRune rest c → (r == c) ≡ true → ReadsRune rest r
at rest c r at_c same = subst (ReadsRune rest) (sym ((==_iff r c).0 same)) at_c

read-escape_rune : (rest : Text) (r : ℕ) → ReadsRune rest r
unfolding escape_rune step
read-escape_rune rest r = elim (Bool-cases (r == 34)) [
  | inl e ↦ at rest 34 r (short_escape 34 34 rest refl) e
  | inr quote ↦ elim (Bool-cases (r == 92)) [
    | inl e ↦ at rest 92 r (short_escape 92 92 rest refl) e
    | inr slash ↦ elim (Bool-cases (r == 8)) [
      | inl e ↦ at rest 8 r (short_escape 98 8 rest refl) e
      | inr back ↦ elim (Bool-cases (r == 12)) [
        | inl e ↦ at rest 12 r (short_escape 102 12 rest refl) e
        | inr feed ↦ elim (Bool-cases (r == 10)) [
          | inl e ↦ at rest 10 r (short_escape 110 10 rest refl) e
          | inr line ↦ elim (Bool-cases (r == 13)) [
            | inl e ↦ at rest 13 r (short_escape 114 13 rest refl) e
            | inr return ↦ elim (Bool-cases (r == 9)) [
              | inl e ↦ at rest 9 r (short_escape 116 9 rest refl) e
              | inr tab ↦ elim (Bool-cases (ltb r 32)) [
                | inl small ↦
                    rw (quote, slash, back, feed, line, return, tab, small)
                      (read_control r rest (ltb→lt r 32 small))
                | inr large ↦
                    rw (quote, slash, back, feed, line, return, tab, large)
                      (read_plain r rest quote slash large)
              ]
            ]
          ]
        ]
      ]
    ]
  ]
]

read-escape : (s rest : Text) → read_runes (escape s ++ 34 ∷ rest) plain ≡ some (s, rest)
unfolding escape read_runes step
read-escape [] rest = refl
read-escape (r ∷ s) rest =
    ap (λ l. read_runes l plain) (append_assoc (escape_rune r) (escape s) (34 ∷ rest))
    ∙ read-escape_rune (escape s ++ 34 ∷ rest) r
    ∙ ap (prepend (r ∷ [])) (read-escape s rest)

-- A reader of JSON strings that follows RFC 8259 reads back, of every string that writeString writes, the runes
-- that `range` yields on it, and stops right behind the text, whatever comes next. On valid UTF-8 these are the
-- string's own code points; a byte that is no UTF-8 reads back as U+FFFD.
pub read_string-write_string :
    (s : List Piece) (rest : Text)
    → read_string (write_string s ++ rest) ≡ some (range_runes s, rest)
unfolding read_string write_string write_runes
read_string-write_string s rest =
    ap (λ l. read_runes l plain) (append_assoc (escape (range_runes s)) (34 ∷ []) rest)
    ∙ read-escape (range_runes s) rest
