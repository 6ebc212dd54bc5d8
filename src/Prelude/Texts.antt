-- ===== src/Prelude/Texts.antt =====
-- Go's strings as lists of bytes, and the functions of package strings that the code calls.
use Prim.Native.Nat.{ℕ, zero, suc, ◌+◌, ◌-◌, ◌≤◌}
use mathlib.Core.Path.{◌≡◌, refl, ap, sym, ◌∙◌}
use mathlib.Core.Bool.{Bool, true, false}
use mathlib.Core.List.{List, [], ◌∷◌, ◌++◌}
use mathlib.Core.Option.{Option, none, some}
use native.Mathlib.Omega.{arith}
use mxkeys_org.Prelude.Tests.{leb, ◌==◌, if◌then◌else◌}
use mxkeys_org.Prelude.Lists.{length, take, drop, length-append}
use mxkeys_org.Prelude.Bytes.{bytes_eq, bytes_eq_refl, bytes_eq→≡, drop-append}

abbrev pub Text : Type 0
Text = List ℕ

abbrev pub is_empty : Text → Bool
is_empty [] = true
is_empty (_ ∷ _) = false

-- strings.HasPrefix(s, prefix)
unfoldable pub has_prefix : Text → Text → Bool
has_prefix s [] = true
has_prefix [] (p ∷ ps) = false
has_prefix (c ∷ s) (p ∷ ps) = if c == p then has_prefix s ps else false

-- strings.HasSuffix(s, suffix)
unfoldable pub has_suffix : Text → Text → Bool
unfolding bytes_eq
has_suffix s suffix =
    if leb (length suffix) (length s)
    then bytes_eq (drop (length s - length suffix) s) suffix
    else false

abbrev pub next_index : Option ℕ → Option ℕ
next_index none = none
next_index (some i) = some (suc i)

-- strings.Index(s, sub); `none` is -1.
unfoldable pub index_of : Text → Text → Option ℕ
unfolding has_prefix
index_of [] sub = if is_empty sub then some 0 else none
index_of (c ∷ s) sub =
    let later = next_index (index_of s sub) in if has_prefix (c ∷ s) sub then some 0 else later

abbrev pub is_some : Option ℕ → Bool
is_some none = false
is_some (some i) = true

-- strings.Contains(s, sub)
abbrev pub contains : Text → Text → Bool
contains s sub = is_some (index_of s sub)

-- The head of a non-empty list gets one more byte in front.
abbrev pub cons_head : ℕ → List Text → List Text
cons_head c [] = (c ∷ []) ∷ []
cons_head c (p ∷ ps) = (c ∷ p) ∷ ps

-- strings.Split(s, sep) for a separator of one byte.
unfoldable pub split : ℕ → Text → List Text
split sep [] = [] ∷ []
split sep (c ∷ s) = let rest = split sep s in if c == sep then [] ∷ rest else cons_head c rest

-- strings.LastIndex(s, sub) for a text of one byte.
abbrev pub last_or : Option ℕ → Bool → Option ℕ
last_or none here = if here then some 0 else none
last_or (some i) here = some (suc i)

unfoldable pub last_index : Text → ℕ → Option ℕ
last_index [] sep = none
last_index (c ∷ s) sep = last_or (last_index s sep) (c == sep)

pub has_prefix-split : (s p : Text) → has_prefix s p ≡ true → s ≡ p ++ drop (length p) s
unfolding has_prefix
has_prefix-split s [] h = refl
has_prefix-split [] (p ∷ ps) h = absurd (ground (arith, h))
has_prefix-split (c ∷ s) (p ∷ ps) h =
    let same : c ≡ p = ground (arith, h) in
    ap (λ x. x ∷ s) same ∙ ap (λ l. p ∷ l) (has_prefix-split s ps (ground (arith, h)))

pub has_prefix-append : (p r : Text) → has_prefix (p ++ r) p ≡ true
unfolding has_prefix
has_prefix-append [] r = refl
has_prefix-append (c ∷ p) r = ground (arith, has_prefix-append p r)

pub has_suffix-append : (r q : Text) → has_suffix (r ++ q) q ≡ true
unfolding has_suffix
has_suffix-append r q =
    let fits : leb (length q) (length (r ++ q)) ≡ true = ground (arith, length-append r q) in
    let at : length (r ++ q) - length q ≡ length r = omega (arith, length-append r q) in
    rw (fits, at, drop-append r q) (bytes_eq_refl q)

pub take-drop : (n : ℕ) (s : Text) → s ≡ take n s ++ drop n s
take-drop zero s = refl
take-drop (suc n) [] = refl
take-drop (suc n) (c ∷ s) = ap (λ l. c ∷ l) (take-drop n s)

pub has_suffix-split : (s q : Text) → has_suffix s q ≡ true → s ≡ take (length s - length q) s ++ q
unfolding has_suffix
has_suffix-split s q h =
    let tail = bytes_eq→≡ (drop (length s - length q) s) q (ground (arith, h)) in
    take-drop (length s - length q) s ∙ ap (λ l. take (length s - length q) s ++ l) tail

drop-append_beyond : (x r : Text) (k : ℕ) → drop (length x + k) (x ++ r) ≡ drop k r
drop-append_beyond [] r k = ap (λ n. drop n r) (omega arith)
drop-append_beyond (c ∷ x) r k =
    let step : suc (length x) + k ≡ suc (length x + k) = omega arith in
    ap (λ n. drop n (c ∷ (x ++ r))) step ∙ drop-append_beyond x r k

-- A suffix of a text that fits in its tail is a suffix of the tail.
pub has_suffix-tail :
    (x r q : Text)
    → has_suffix (x ++ r) q ≡ true
    → length q ≤ length r
    → r ≡ take (length r - length q) r ++ q
unfolding has_suffix
has_suffix-tail x r q h fits =
    let tail = bytes_eq→≡ (drop (length (x ++ r) - length q) (x ++ r)) q (ground (arith, h)) in
    let at : length x + (length r - length q) ≡ length (x ++ r) - length q =
      omega (arith, length-append x r, fits) in
    let same : drop (length r - length q) r ≡ q =
      sym (drop-append_beyond x r (length r - length q)) ∙ ap (λ n. drop n (x ++ r)) at ∙ tail in
    take-drop (length r - length q) r ∙ ap (λ l. take (length r - length q) r ++ l) same
