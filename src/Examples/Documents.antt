-- ===== src/Examples/Documents.antt =====
-- Canonical JSON, for internal/zero/canonical.
use mxkeys_org.Prelude.{
  List, none, ◌≡◌, refl, arith, true, some, [], ◌∷◌, ◌++◌, pos, negsuc, Text, ◌≢◌,
}
use mxkeys_org.Canonical.{
  Value, null, boolean, integer, unsigned, float, number, array, object, no_values, value,
  no_fields, field, format_uint, set_string, Piece, rune, invalid_byte, range_runes, write_string,
  write_value,
}
use mxkeys_org.Canonical.Ordering.{
  same, same_array, same_object, none_left, one_more, swapped, write_value-SameValue,
}
use mxkeys_org.Canonical.Strings.{read_string, read_string-write_string}
use mxkeys_org.Canonical.Numbers.{number_kinds_agree}

-- {"b": 7, "a": null} and the same map visited in the other order
abbrev visited_b : Value
visited_b = object (field (98 ∷ []) (integer (pos 7)) (field (97 ∷ []) null no_fields))

abbrev visited_a : Value
visited_a = object (field (97 ∷ []) null (field (98 ∷ []) (integer (pos 7)) no_fields))

abbrev document : Value → Value
document v = array (value (boolean true) (value v no_values))

abbrev key_a : Text
key_a = 97 ∷ []

abbrev key_b : Text
key_b = 98 ∷ []

keys_differ : key_b ≢ key_a
keys_differ e = ground (arith, e)

write_value-SameValue_example : write_value (document visited_b) ≡ write_value (document visited_a)
write_value-SameValue_example = write_value-SameValue (document visited_b) (document visited_a) (
    same_array (
      one_more (same (boolean true)) (
        one_more
          (same_object (swapped (98 ∷ []) (97 ∷ []) (integer (pos 7)) null no_fields keys_differ))
          none_left)))

-- {"a":null,"b":7}
document_written :
    write_value visited_b
    ≡ some
        (123 ∷ 34 ∷ 97 ∷ 34 ∷ 58 ∷ 110 ∷ 117 ∷ 108 ∷ 108 ∷ 44 ∷ 34 ∷ 98 ∷ 34 ∷ 58 ∷ 55 ∷ 125 ∷ [])
unfolding write_value
document_written = refl

-- A quote, a line feed, a byte that is no UTF-8 and a letter.
abbrev pieces : List Piece
pieces = rune 34 ∷ rune 10 ∷ invalid_byte 255 ∷ rune 97 ∷ []

read_string-write_string_example :
    read_string (write_string pieces ++ 44 ∷ []) ≡ some (34 ∷ 10 ∷ 65533 ∷ 97 ∷ [], 44 ∷ [])
unfolding range_runes
read_string-write_string_example = read_string-write_string pieces (44 ∷ [])

number_kinds_agree_example :
    (write_value (integer (negsuc 41)) ≡ some (45 ∷ 52 ∷ 50 ∷ []))
    × (write_value (float (some (negsuc 41))) ≡ some (45 ∷ 52 ∷ 50 ∷ []))
    × (write_value (number (45 ∷ 52 ∷ 50 ∷ [])) ≡ some (45 ∷ 52 ∷ 50 ∷ []))
    × (write_value (unsigned 9007199254740992) ≡ none)
    × (set_string (45 ∷ 52 ∷ 50 ∷ []) ≡ some (negsuc 41))
unfolding format_uint
number_kinds_agree_example = number_kinds_agree (negsuc 41) 9007199254740992 (omega arith)
