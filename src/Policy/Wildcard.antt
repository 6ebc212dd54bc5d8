-- ===== src/Policy/Wildcard.antt =====
-- internal/keys/trustpolicy_runtime.go: matchWildcard. `none` as the result is a panic of Go, for a
-- slice with bounds out of range.
pub mod Globs
pub mod Search
pub mod Meaning
use mxkeys_org.Prelude.{
  ℕ, ◌+◌, ◌-◌, Bool, true, false, not, ◌&&◌, Option, none, some, List, [], ◌∷◌, leb, if◌then◌else◌,
  length, take, drop, Text, is_empty, has_prefix, has_suffix, index_of, split, bytes_eq,
}

abbrev pub star : ℕ
star = 42

-- parts[len(parts)-1]
abbrev pub last_part : Text → List Text → Text
last_part p [] = p
last_part p (q ∷ ps) = last_part q ps

-- The parts before the last one.
abbrev pub but_last : Text → List Text → List Text
but_last p [] = []
but_last p (q ∷ ps) = p ∷ but_last q ps

-- remaining[len(first):], behind its test
abbrev pub cut_front : Text → Text → Text
cut_front first s = if is_empty first then s else drop (length first) s

-- remaining[:len(remaining)-len(last)], behind its test
abbrev pub cut_back : Text → Text → Option Text
cut_back last s =
    if is_empty last
    then some s
    else if leb (length last) (length s)
    then some (take (length s - length last) s)
    else none

abbrev pub after_index : (Text → Bool) → Text → Text → Option ℕ → Bool
after_index next p s none = false
after_index next p s (some i) = next (drop (i + length p) s)

-- The loop over the parts in the middle.
unfoldable pub consume_all : List Text → Text → Bool
unfolding index_of
consume_all [] s = true
consume_all (p ∷ ps) s =
    let skipped = consume_all ps s in
    if is_empty p then skipped else after_index (consume_all ps) p s (index_of s p)

abbrev pub consume_middle : List Text → Option Text → Option Bool
consume_middle ps none = none
consume_middle ps (some s) = some (consume_all ps s)

abbrev pub match_parts : Text → List Text → Text → Option Bool
match_parts pattern [] s = some (bytes_eq pattern s)
match_parts pattern (p ∷ []) s = some (bytes_eq pattern s)
match_parts pattern (first ∷ q ∷ ps) s =
    let last = last_part q ps in
    if not (is_empty first) && not (has_prefix s first)
    then some false
    else if not (is_empty last) && not (has_suffix s last)
    then some false
    else consume_middle (but_last q ps) (cut_back last (cut_front first s))

unfoldable pub match_wildcard : Text → Text → Option Bool
unfolding bytes_eq split has_prefix has_suffix consume_all
match_wildcard pattern s =
    if bytes_eq pattern (star ∷ []) then some true else match_parts pattern (split star pattern) s
