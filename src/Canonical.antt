-- ===== src/Canonical.antt =====
-- internal/zero/canonical: the canonical JSON that signatures are made over. A string is what `range` finds in it:
-- code points, and bytes that are no UTF-8. The keys of maps are valid UTF-8, lists of code points, whose order is that
-- of the bytes; the output is a list of code points. `none` is an error, without its text. Of reflection the model
-- has what writeReflected makes of a value: a map and a struct are an object, a slice is an array, a pointer is
-- what it points to or null; every other kind is `unsupported`.
pub mod Strings
pub mod Numbers
pub mod Ordering
use mxkeys_org.Prelude.{
  ℕ, zero, suc, ◌+◌, ◌-◌, ◌*◌, ◌/◌, ◌%◌, Bool, true, false, ◌&&◌, ◌||◌, Option, none, some, List,
  [], ◌∷◌, ◌++◌, ltb, leb, ◌==◌, if◌then◌else◌, ℤ, pos, negsuc, Text,
}

-- What `range` finds in a string.
pub data Piece : Type 0 where
  rune : ℕ → Piece
  invalid_byte : ℕ → Piece

mutual
  pub data Value : Type 0 where
    null : Value
    boolean : Bool → Value
    -- int, int8, int16, int32 and int64
    integer : ℤ → Value
    -- uint, uint8, uint16, uint32 and uint64
    unsigned : ℕ → Value
    -- A float64: the integer that it is, if it is finite and has no fraction.
    float : Option ℤ → Value
    -- json.Number
    number : Text → Value
    string : List Piece → Value
    array : Values → Value
    object : Fields → Value
    unsupported : Value

  pub data Values : Type 0 where
    no_values : Values
    value : Value → Values → Values

  -- The entries of a map in the order in which `range` has them.
  pub data Fields : Type 0 where
    no_fields : Fields
    field : Text → Value → Fields → Fields

abbrev pub max_safe_integer : ℕ
max_safe_integer = 9007199254740991

abbrev pub max_safe : ℤ
max_safe = pos 9007199254740991

-- -maxSafeInteger
abbrev pub min_safe : ℤ
min_safe = negsuc 9007199254740990

abbrev pub is_below : ℤ → ℤ → Bool
is_below (pos a) (pos b) = ltb a b
is_below (pos a) (negsuc b) = false
is_below (negsuc a) (pos b) = true
is_below (negsuc a) (negsuc b) = ltb b a

-- The decimal digits of a number, at most so many.
unfoldable pub digits : ℕ → ℕ → Text
digits zero n = []
digits (suc left) n =
    let front = digits left (n / 10) in
    if ltb n 10 then (48 + n) ∷ [] else front ++ (48 + n % 10) ∷ []

-- strconv.FormatUint(n, 10): a uint64 has at most 20 digits.
unfoldable pub format_uint : ℕ → Text
unfolding digits
format_uint n = digits 20 n

-- strconv.FormatInt(z, 10), and big.Int.String for a number of this size
abbrev pub format_int : ℤ → Text
format_int (pos n) = format_uint n
format_int (negsuc n) = 45 ∷ format_uint (suc n)

abbrev pub is_digit : ℕ → Bool
is_digit c = leb 48 c && leb c 57

unfoldable pub parse_digits : ℕ → Text → Option ℕ
parse_digits acc [] = some acc
parse_digits acc (c ∷ s) =
    let rest = parse_digits (acc * 10 + (c - 48)) s in if is_digit c then rest else none

abbrev pub parse_uint : Text → Option ℕ
parse_uint [] = none
parse_uint (c ∷ s) = parse_digits 0 (c ∷ s)

abbrev pub negated : ℕ → ℤ
negated zero = pos zero
negated (suc n) = negsuc n

abbrev pub map_option {ℓ κ} : {A : Type ℓ} {B : Type κ} → (A → B) → Option A → Option B
map_option f none = none
map_option f (some a) = some (f a)

-- big.Int.SetString(s, 10)
unfoldable pub set_string : Text → Option ℤ
unfolding parse_digits
set_string [] = none
set_string (c ∷ s) =
    if c == 45
    then map_option negated (parse_uint s)
    else if c == 43
    then map_option pos (parse_uint s)
    else map_option pos (parse_uint (c ∷ s))

-- writeInteger
abbrev pub write_integer : ℤ → Option Text
write_integer z = if is_below z min_safe || is_below max_safe z then none else some (format_int z)

-- writeFloatNumber, on the integer that the float64 is; `none` is NaN, an infinity or a fraction.
abbrev pub write_float_number : Option ℤ → Option Text
write_float_number none = none
write_float_number (some z) =
    if is_below z min_safe || is_below max_safe z then none else some (format_int z)

-- The comparisons of a big.Int, and its text.
abbrev pub write_big : Option ℤ → Option Text
write_big none = none
write_big (some i) =
    if is_below max_safe i || is_below i min_safe then none else some (format_int i)

-- strings.ContainsAny(s, ".eE")
unfoldable pub has_fraction : Text → Bool
has_fraction [] = false
has_fraction (c ∷ s) = c == 46 || (c == 101) || (c == 69) || has_fraction s

-- writeJSONNumber
unfoldable pub write_json_number : Text → Option Text
unfolding set_string has_fraction format_uint
write_json_number s = if has_fraction s then none else write_big (set_string s)

abbrev pub hex_digit : ℕ → ℕ
hex_digit n = if ltb n 10 then 48 + n else 87 + n

-- What writeString writes for one rune.
unfoldable pub escape_rune : ℕ → Text
escape_rune r =
    if r == 34
    then 92 ∷ 34 ∷ []
    else if r == 92
    then 92 ∷ 92 ∷ []
    else if r == 8
    then 92 ∷ 98 ∷ []
    else if r == 12
    then 92 ∷ 102 ∷ []
    else if r == 10
    then 92 ∷ 110 ∷ []
    else if r == 13
    then 92 ∷ 114 ∷ []
    else if r == 9
    then 92 ∷ 116 ∷ []
    else if ltb r 32
    then 92 ∷ 117 ∷ 48 ∷ 48 ∷ hex_digit (r / 16 % 16) ∷ hex_digit (r % 16) ∷ []
    else r ∷ []

unfoldable pub escape : Text → Text
unfolding escape_rune
escape [] = []
escape (r ∷ s) = escape_rune r ++ escape s

-- The runes that `range` yields: U+FFFD for a byte that is no UTF-8.
unfoldable pub range_runes : List Piece → Text
range_runes [] = []
range_runes (rune r ∷ s) = r ∷ range_runes s
range_runes (invalid_byte b ∷ s) = 65533 ∷ range_runes s

-- writeString on the runes.
unfoldable pub write_runes : Text → Text
unfolding escape
write_runes s = 34 ∷ (escape s ++ 34 ∷ [])

-- writeString
unfoldable pub write_string : List Piece → Text
unfolding range_runes write_runes
write_string s = write_runes (range_runes s)

-- The order of sort.Strings.
unfoldable pub less : Text → Text → Bool
less [] [] = false
less [] (d ∷ t) = true
less (c ∷ s) [] = false
less (c ∷ s) (d ∷ t) = ltb c d || ((c == d) && less s t)

-- A key and the text of its value.
abbrev pub Entry : Type 0
Entry = Text × Text

unfoldable pub insert_entry : Entry → List Entry → List Entry
unfolding less
insert_entry e [] = e ∷ []
insert_entry e (f ∷ es) =
    let rest = insert_entry e es in if less f.0 e.0 then f ∷ rest else e ∷ f ∷ es

unfoldable pub sort_entries : List Entry → List Entry
unfolding insert_entry
sort_entries [] = []
sort_entries (e ∷ es) = insert_entry e (sort_entries es)

abbrev pub comma : Bool → Text
comma true = []
comma false = 44 ∷ []

unfoldable pub join_entries : Bool → List Entry → Text
unfolding write_runes
join_entries first [] = []
join_entries first ((k, t) ∷ es) =
    comma first ++ (write_runes k ++ (58 ∷ (t ++ join_entries false es)))

abbrev pub braces : List Entry → Text
braces es = 123 ∷ (join_entries true (sort_entries es) ++ 125 ∷ [])

abbrev pub add_entry : Text → Option Text → Option (List Entry) → Option (List Entry)
add_entry k none es = none
add_entry k (some t) none = none
add_entry k (some t) (some es) = some ((k, t) ∷ es)

abbrev pub add_value : Bool → Option Text → Option Text → Option Text
add_value first none rest = none
add_value first (some t) none = none
add_value first (some t) (some rest) = some (comma first ++ (t ++ rest))

unfoldable mutual
  unfolding write_json_number write_string sort_entries join_entries format_uint

  -- writeValue and writeReflected
  pub write_value : Value → Option Text
  write_value null = some (110 ∷ 117 ∷ 108 ∷ 108 ∷ [])
  write_value (boolean true) = some (116 ∷ 114 ∷ 117 ∷ 101 ∷ [])
  write_value (boolean false) = some (102 ∷ 97 ∷ 108 ∷ 115 ∷ 101 ∷ [])
  write_value (integer z) = write_integer z
  write_value (unsigned n) = if ltb max_safe_integer n then none else some (format_uint n)
  write_value (float f) = write_float_number f
  write_value (number s) = write_json_number s
  write_value (string s) = some (write_string s)
  write_value (array vs) = map_option (λ t. 91 ∷ (t ++ 93 ∷ [])) (write_array true vs)
  write_value (object fs) = map_option braces (entry_texts fs)
  write_value unsupported = none

  -- The elements of writeArray.
  pub write_array : Bool → Values → Option Text
  write_array first no_values = some []
  write_array first (value v vs) = add_value first (write_value v) (write_array false vs)

  -- The keys of an object and the texts of their values, which writeObject writes in the order of the keys.
  pub entry_texts : Fields → Option (List Entry)
  entry_texts no_fields = some []
  entry_texts (field k v fs) = add_entry k (write_value v) (entry_texts fs)
