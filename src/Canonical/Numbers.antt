-- ===== src/Canonical/Numbers.antt =====
-- internal/zero/canonical/numbers.go: the decimal text of a number, and the kinds of numbers of Go.
use mxkeys_org.Prelude.{
  ℕ, zero, suc, ◌+◌, ◌-◌, ◌*◌, ◌/◌, ◌%◌, ◌^◌, ◌<◌, ◌≡◌, ◌∙◌, refl, sym, ap, Bool, true, false, ◌&&◌,
  ◌||◌, not, Option, none, some, [], ◌∷◌, ◌++◌, ltb, leb, ltb→lt, ◌==◌, if◌then◌else◌, Text, ℤ, pos,
  negsuc, arith, inl, inr, Bool-cases,
}
use mxkeys_org.Canonical.{
  integer, unsigned, float, number, max_safe_integer, digits, format_uint, format_int, is_digit,
  parse_digits, parse_uint, negated, map_option, set_string, write_big, has_fraction, is_below,
  min_safe, max_safe, write_json_number, write_value,
}

parse_digits-snoc :
    (acc m c : ℕ) (xs : Text)
    → parse_digits acc xs ≡ some m
    → is_digit c ≡ true
    → parse_digits acc (xs ++ c ∷ []) ≡ some (m * 10 + (c - 48))
unfolding parse_digits
parse_digits-snoc acc m c [] h d = ground (arith, h, d)
parse_digits-snoc acc m c (x ∷ xs) h d = elim (Bool-cases (is_digit x)) [
  | inl digit ↦
      let rest : parse_digits (acc * 10 + (x - 48)) xs ≡ some m =
        sym (ap (λ b. if b then parse_digits (acc * 10 + (x - 48)) xs else none) digit) ∙ h in
      ap (λ b. if b then parse_digits (acc * 10 + (x - 48)) (xs ++ c ∷ []) else none) digit
      ∙ parse_digits-snoc (acc * 10 + (x - 48)) m c xs rest d
  | inr other ↦ absurd (
      ground (
        arith,
        sym (ap (λ b. if b then parse_digits (acc * 10 + (x - 48)) xs else none) other) ∙ h,
      ))
]

one_digit : (n : ℕ) → n < 10 → is_digit (48 + n) ≡ true
one_digit n small = ground (arith, small)

parse_digits-digits : (left n : ℕ) → n < 10 ^ left → parse_digits 0 (digits left n) ≡ some n
unfolding parse_digits digits
parse_digits-digits zero n small = ap some (omega (arith, small))
parse_digits-digits (suc left) n small =
    let front = parse_digits-digits left (n / 10) (omega (arith, small, power left)) in
    let sum : n / 10 * 10 + (48 + n % 10 - 48) ≡ n = omega arith in
    elim (Bool-cases (ltb n 10)) [
      | inl one ↦
          ap
            (λ b.
              parse_digits 0
                (if b then (48 + n) ∷ [] else digits left (n / 10) ++ (48 + n % 10) ∷ []))
            one
          ∙ ap (λ b. if b then some (0 * 10 + (48 + n - 48)) else none)
              (one_digit n (ltb→lt n 10 one))
          ∙ ap some (omega arith)
      | inr more ↦
          ap
            (λ b.
              parse_digits 0
                (if b then (48 + n) ∷ [] else digits left (n / 10) ++ (48 + n % 10) ∷ []))
            more
          ∙ parse_digits-snoc 0 (n / 10) (48 + n % 10) (digits left (n / 10)) front
              (one_digit (n % 10) (omega arith))
          ∙ ap some sum
    ]
  where
    power : (k : ℕ) → 10 ^ suc k ≡ 10 * 10 ^ k
    power k = omega arith

abbrev all_digits : Text → Bool
all_digits [] = true
all_digits (c ∷ s) = is_digit c && all_digits s

all_digits-append :
    (s t : Text) → all_digits s ≡ true → all_digits t ≡ true → all_digits (s ++ t) ≡ true
all_digits-append [] t h g = g
all_digits-append (c ∷ s) t h g = ground (arith, h, all_digits-append s t (ground (arith, h)) g)

all_digits-digits : (left n : ℕ) → all_digits (digits left n) ≡ true
unfolding digits
all_digits-digits zero n = refl
all_digits-digits (suc left) n = elim (Bool-cases (ltb n 10)) [
  | inl one ↦
      ap (λ b. all_digits (if b then (48 + n) ∷ [] else digits left (n / 10) ++ (48 + n % 10) ∷ []))
        one
      ∙ ap (λ b. b && true) (one_digit n (ltb→lt n 10 one))
  | inr more ↦
      ap (λ b. all_digits (if b then (48 + n) ∷ [] else digits left (n / 10) ++ (48 + n % 10) ∷ []))
        more
      ∙ all_digits-append (digits left (n / 10)) ((48 + n % 10) ∷ [])
          (all_digits-digits left (n / 10)) (ap (λ b. b && true) (one_digit (n % 10) (omega arith)))
]

snoc-cons : (s : Text) (d : ℕ) → (c : ℕ) × (t : Text) × (s ++ d ∷ [] ≡ c ∷ t)
snoc-cons [] d = (d, [], refl)
snoc-cons (c ∷ s) d = (c, s ++ d ∷ [], refl)

digits-cons : (left n : ℕ) → (c : ℕ) × (t : Text) × (digits (suc left) n ≡ c ∷ t)
unfolding digits
digits-cons left n = by_test (ltb n 10)
  where
    by_test :
        (b : Bool)
        → (c : ℕ) × (t : Text) × ((if b
              then (48 + n) ∷ []
              else digits left (n / 10) ++ (48 + n % 10) ∷ [])
            ≡ c ∷ t)
    by_test true = (48 + n, [], refl)
    by_test false = snoc-cons (digits left (n / 10)) (48 + n % 10)

has_fraction-digits : (s : Text) → all_digits s ≡ true → has_fraction s ≡ false
unfolding has_fraction
has_fraction-digits [] h = refl
has_fraction-digits (c ∷ s) h = ground (arith, h, has_fraction-digits s)

abbrev pub magnitude : ℤ → ℕ
magnitude (pos n) = n
magnitude (negsuc n) = suc n

parse_uint-digits : (n : ℕ) → n < 10 ^ 20 → parse_uint (digits 20 n) ≡ some n
parse_uint-digits n small =
    let (c, t, starts) = digits-cons 19 n in
    ap parse_uint starts ∙ ap (parse_digits 0) (sym starts) ∙ parse_digits-digits 20 n small

set_string-digits : (n : ℕ) → n < 10 ^ 20 → set_string (digits 20 n) ≡ some (pos n)
unfolding set_string
set_string-digits n small =
    let (c, t, starts) = digits-cons 19 n in
    let whole : all_digits (c ∷ t) ≡ true = sym (ap all_digits starts) ∙ all_digits-digits 20 n in
    let minus : (c == 45) ≡ false = ground (arith, whole) in
    let plus : (c == 43) ≡ false = ground (arith, whole) in
    ap set_string starts
    ∙ ap
        (λ b.
          if b
          then map_option negated (parse_uint t)
          else if c == 43
          then map_option pos (parse_uint t)
          else map_option pos (parse_uint (c ∷ t)))
        minus
    ∙ ap (λ b. if b then map_option pos (parse_uint t) else map_option pos (parse_uint (c ∷ t)))
        plus
    ∙ ap (map_option pos) (sym (ap parse_uint starts) ∙ parse_uint-digits n small)

set_string-format_int : (z : ℤ) → magnitude z < 10 ^ 20 → set_string (format_int z) ≡ some z
unfolding set_string format_uint
set_string-format_int (pos n) small = set_string-digits n small
set_string-format_int (negsuc n) small = ap (map_option negated) (parse_uint-digits (suc n) small)

whole_number : (z : ℤ) → has_fraction (format_int z) ≡ false
unfolding has_fraction format_uint
whole_number (pos n) = has_fraction-digits (digits 20 n) (all_digits-digits 20 n)
whole_number (negsuc n) = has_fraction-digits (digits 20 (suc n)) (all_digits-digits 20 (suc n))

-- What a number becomes: its decimal text if it is at most 2^53 - 1 in magnitude.
abbrev pub safe_text : ℤ → Option Text
safe_text z = if leb (magnitude z) 9007199254740991 then some (format_int z) else none

outside :
    (z : ℤ)
    → (is_below z min_safe || is_below max_safe z) ≡ not (leb (magnitude z) 9007199254740991)
outside (pos n) = ground arith
outside (negsuc n) = ground arith

-- The comparisons of writeJSONNumber.
outside_big :
    (z : ℤ)
    → (is_below max_safe z || is_below z min_safe) ≡ not (leb (magnitude z) 9007199254740991)
outside_big (pos n) = ground arith
outside_big (negsuc n) = ground arith

outside_uint : (n : ℕ) → ltb max_safe_integer n ≡ not (leb n 9007199254740991)
outside_uint n = ground arith

if_not : (b : Bool) (t : Text) → (if not b then none else some t) ≡ (if b then some t else none)
if_not true t = refl
if_not false t = refl

refused_outside :
    (b : Bool) (z : ℤ)
    → b ≡ not (leb (magnitude z) 9007199254740991)
    → (if b then none else some (format_int z)) ≡ safe_text z
refused_outside b z same =
    ap (λ c. if c then none else some (format_int z)) same
    ∙ if_not (leb (magnitude z) 9007199254740991) (format_int z)

-- An int64, a float64 that is an integer and a json.Number of its decimal text, for every integer of at most 20
-- digits, and a uint64 for every natural number, are written as the decimal text if the number is at most 2^53 - 1
-- in magnitude, and refused otherwise. The text of an integer reads back as that integer.
pub number_kinds_agree :
    (z : ℤ) (n : ℕ)
    → magnitude z < 10 ^ 20
    → (write_value (integer z) ≡ safe_text z)
      × (write_value (float (some z)) ≡ safe_text z)
      × (write_value (number (format_int z)) ≡ safe_text z)
      × (write_value (unsigned n) ≡ safe_text (pos n))
      × (set_string (format_int z) ≡ some z)
unfolding write_value write_json_number
number_kinds_agree z n small =
    let reads = set_string-format_int z small in
    (
      refused_outside (is_below z min_safe || is_below max_safe z) z (outside z),
      refused_outside (is_below z min_safe || is_below max_safe z) z (outside z),
      ap (λ b. if b then none else write_big (set_string (format_int z))) (whole_number z)
          ∙ ap write_big reads
          ∙ refused_outside (is_below max_safe z || is_below z min_safe) z (outside_big z),
      refused_outside (ltb max_safe_integer n) (pos n) (outside_uint n),
      reads,
    )
