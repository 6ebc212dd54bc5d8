-- ===== src/Policy/Wildcard/Meaning.antt =====
-- internal/keys/trustpolicy_runtime.go: matchWildcard finds exactly what its pattern means.
use mathlib.Core.List.{append_assoc, append-nil}
use mxkeys_org.Prelude.{
  ℕ, ◌-◌, ◌<◌, ◌==◌, ◌≡◌, ◌↔◌, ◌∙◌, refl, sym, ap, subst, true, false, not, ◌&&◌, if◌then◌else◌,
  Bool-cases, inl, inr, arith, none, some, List, [], ◌∷◌, ◌++◌, Text, length, take, drop, leb,
  is_empty, has_prefix, has_suffix, split, All, bytes_eq, bytes_eq_refl, bytes_eq→≡,
  has_prefix-split, has_prefix-append, has_suffix-append, has_suffix-tail, drop-append, take-append,
  length-append, take_all, leb→le,
}
use mxkeys_org.Policy.Wildcard.{
  star, match_wildcard, match_parts, last_part, but_last, cut_front, cut_back, consume_middle,
}
use mxkeys_org.Policy.Wildcard.Globs.{Glob, Joined, Fits, Glob-Joined, Joined-ends, split-cons}
use mxkeys_org.Policy.Wildcard.Search.{consume_sound, consume_complete}

abbrev head_part : List Text → Text
head_part [] = []
head_part (p ∷ ps) = p

abbrev tail_parts : List Text → List Text
tail_parts [] = []
tail_parts (p ∷ ps) = ps

-- A text splits into itself alone exactly if it has no separator.
split-single : (sep : ℕ) (s p : Text) → split sep s ≡ p ∷ [] → s ≡ p
unfolding split
split-single sep [] p h = ap head_part h
split-single sep (c ∷ s) p h =
    let (q, ps, e) = split-cons sep s in
    elim (Bool-cases (c == sep)) [
      | inl same ↦ absurd (ground (arith, ap length (rw (same, e) at h)))
      | inr other ↦
          let parts = rw (other, e) at h in
          let alone : ps ≡ [] = ap tail_parts parts in
          ap (λ l. c ∷ l) (split-single sep s q (e ∙ ap (λ l. q ∷ l) alone)) ∙ ap head_part parts
    ]

-- Each of the two tests at the ends fails exactly on a text without that end.
front_test :
    (first s : Text) → (not (is_empty first) && not (has_prefix s first)) ≡ not (has_prefix s first)
unfolding has_prefix
front_test [] s = refl
front_test (c ∷ first) s = refl

back_test :
    (last s : Text) → (not (is_empty last) && not (has_suffix s last)) ≡ not (has_suffix s last)
back_test [] s =
    let whole : has_suffix s [] ≡ true =
      subst (λ t. has_suffix t [] ≡ true) (append-nil s) (has_suffix-append s []) in
    rw whole refl
back_test (c ∷ last) s = refl

cut_front_lem : (first s : Text) → cut_front first s ≡ drop (length first) s
cut_front_lem [] s = refl
cut_front_lem (c ∷ first) s = refl

-- Slicing off the back needs the room for it.
cut_back_lem :
    (last s : Text)
    → cut_back last s
      ≡ (if leb (length last) (length s) then some (take (length s - length last) s) else none)
cut_back_lem [] s =
    let room : leb 0 (length s) ≡ true = ground arith in
    rw room (ap some (sym (take_all (length s - 0) s (omega arith))))
cut_back_lem (c ∷ last) s = refl

-- What the tests and the cuts leave of a text.
parts_tested :
    (pattern first q : Text) (ps : List Text) (s : Text)
    → match_parts pattern (first ∷ q ∷ ps) s ≡ (
        let last = last_part q ps in
        let rest = drop (length first) s in
        if not (has_prefix s first)
        then some false
        else if not (has_suffix s last)
        then some false
        else consume_middle (but_last q ps) (
            if leb (length last) (length rest)
            then some (take (length rest - length last) rest)
            else none))
parts_tested pattern first q ps s =
    rw
      (
        front_test first s,
        back_test (last_part q ps) s,
        cut_front_lem first s,
        cut_back_lem (last_part q ps) (drop (length first) s),
      )
      refl

parts_sound :
    (pattern first q : Text) (ps : List Text) (s : Text)
    → match_parts pattern (first ∷ q ∷ ps) s ≡ some true
    → Joined (first ∷ q ∷ ps) s
parts_sound pattern first q ps s h =
    let last = last_part q ps in
    let rest = drop (length first) s in
    let tested = sym (parts_tested pattern first q ps s) ∙ h in
    elim (Bool-cases (has_prefix s first)) [
      | inr lacks ↦ absurd (ground (arith, rw lacks at tested))
      | inl front ↦
          let tested' = rw front at tested in
          elim (Bool-cases (has_suffix s last)) [
            | inr lacks ↦ absurd (ground (arith, rw lacks at tested'))
            | inl back ↦
                let tested'' = rw back at tested' in
                elim (Bool-cases (leb (length last) (length rest))) [
                  | inr short ↦ absurd (ground (arith, rw short at tested''))
                  | inl room ↦
                      let searched = rw room at tested'' in
                      let mid = take (length rest - length last) rest in
                      let shape = has_prefix-split s first front in
                      let tail =
                        has_suffix-tail first rest last (rw shape at back) (leb→le _ _ room) in
                      let fits = consume_sound (but_last q ps) mid (ground (arith, searched)) in
                      let (x, r, e, j) = (Joined-ends q ps rest).1 (mid, tail, fits) in
                      (x, r, shape ∙ ap (λ l. first ++ l) e, j)
                ]
          ]
    ]

parts_shape :
    (pattern first q mid : Text) (ps : List Text)
    → Fits (but_last q ps) mid
    → match_parts pattern (first ∷ q ∷ ps) (first ++ (mid ++ last_part q ps)) ≡ some true
parts_shape pattern first q mid ps fits =
    let last = last_part q ps in
    let back : has_suffix (first ++ (mid ++ last)) last ≡ true =
      subst (λ t. has_suffix t last ≡ true) (append_assoc first mid last)
        (has_suffix-append (first ++ mid) last) in
    let room : leb (length last) (length (mid ++ last)) ≡ true =
      ground (arith, length-append mid last) in
    let size : length (mid ++ last) - length last ≡ length mid =
      omega (arith, length-append mid last) in
    parts_tested pattern first q ps (first ++ (mid ++ last))
    ∙ rw
        (
          has_prefix-append first (mid ++ last),
          back,
          drop-append first (mid ++ last),
          room,
          size,
          take-append mid last,
        )
        (ap some (consume_complete (but_last q ps) mid fits))

parts_complete :
    (pattern first q : Text) (ps : List Text) (s : Text)
    → Joined (first ∷ q ∷ ps) s
    → match_parts pattern (first ∷ q ∷ ps) s ≡ some true
parts_complete pattern first q ps s (x, r, h, j) =
    let (mid, e, fits) = (Joined-ends q ps (x ++ r)).0 (x, r, refl, j) in
    let shape : s ≡ first ++ (mid ++ last_part q ps) = h ∙ ap (λ l. first ++ l) e in
    subst (λ t. match_parts pattern (first ∷ q ∷ ps) t ≡ some true) (sym shape)
      (parts_shape pattern first q mid ps fits)

match_sound :
    (pattern s : Text) (parts : List Text)
    → split star pattern ≡ parts
    → match_parts pattern parts s ≡ some true
    → Joined parts s
match_sound pattern s [] e h =
    let (q, ps, k) = split-cons star pattern in absurd (ground (arith, ap length (sym k ∙ e)))
match_sound pattern s (p ∷ []) e h =
    sym (bytes_eq→≡ pattern s (ground (arith, h))) ∙ split-single star pattern p e
match_sound pattern s (p ∷ q ∷ ps) e h = parts_sound pattern p q ps s h

match_complete :
    (pattern s : Text) (parts : List Text)
    → split star pattern ≡ parts
    → Joined parts s
    → match_parts pattern parts s ≡ some true
match_complete pattern s [] e j =
    let (q, ps, k) = split-cons star pattern in absurd (ground (arith, ap length (sym k ∙ e)))
match_complete pattern s (p ∷ []) e j =
    let same : pattern ≡ s = split-single star pattern p e ∙ sym j in
    subst (λ t. some (bytes_eq pattern t) ≡ some true) same (ap some (bytes_eq_refl pattern))
match_complete pattern s (p ∷ q ∷ ps) e j = parts_complete pattern p q ps s j

everything : (s : Text) → Glob (star ∷ []) s
everything s = (s, [], sym (append-nil s), refl)

-- matchWildcard answers yes on exactly the texts that the pattern means.
pub wildcard_iff : (pattern s : Text) → (match_wildcard pattern s ≡ some true) ↔ Glob pattern s
unfolding match_wildcard
wildcard_iff pattern s = elim (Bool-cases (bytes_eq pattern (star ∷ []))) [
  | inl all ↦ rw all (
    λ _. subst (λ p. Glob p s) (sym (bytes_eq→≡ pattern (star ∷ []) all)) (everything s),
    λ _. refl,
  )
  | inr parts ↦ rw parts (
    λ h. (Glob-Joined pattern s).1 (match_sound pattern s (split star pattern) refl h),
    λ g. match_complete pattern s (split star pattern) refl ((Glob-Joined pattern s).0 g),
  )
]

abbrev pub StarFree : Text → Type 0
StarFree = All (λ c. (c == star) ≡ false)

split-free : (p : Text) → StarFree p → split star p ≡ p ∷ []
unfolding split
split-free [] free = refl
split-free (c ∷ p) free = rw (free.0, split-free p free.1) refl

split-star : (p q : Text) → StarFree p → StarFree q → split star (p ++ star ∷ q) ≡ p ∷ q ∷ []
unfolding split
split-star [] q free free' = rw (split-free q free') refl
split-star (c ∷ p) q free free' = rw (free.0, split-star p q free.1 free') refl

-- On a text in which the front and the back of the pattern overlap, matchWildcard does not answer
-- no but panics: the slice that takes the back off has a negative bound. Here `b`, which is not
-- empty, is the overlap of the front `a ++ b` and the back `b ++ c`.
pub wildcard_panics :
    (a b c : Text)
    → StarFree (a ++ b)
    → StarFree (b ++ c)
    → 0 < length b
    → match_wildcard ((a ++ b) ++ star ∷ (b ++ c)) (a ++ (b ++ c)) ≡ none
unfolding match_wildcard
wildcard_panics a b c free free' some_b =
    let pattern = (a ++ b) ++ star ∷ (b ++ c) in
    let s = a ++ (b ++ c) in
    let long : 1 < length pattern =
      omega (arith, length-append (a ++ b) (star ∷ (b ++ c)), length-append b c, some_b) in
    let shape : (a ++ b) ++ c ≡ s = append_assoc a b c in
    let front : has_prefix s (a ++ b) ≡ true =
      subst (λ t. has_prefix t (a ++ b) ≡ true) shape (has_prefix-append (a ++ b) c) in
    let rest : drop (length (a ++ b)) s ≡ c =
      subst (λ t. drop (length (a ++ b)) t ≡ c) shape (drop-append (a ++ b) c) in
    let no_room : leb (length (b ++ c)) (length c) ≡ false =
      ground (arith, length-append b c, some_b) in
    elim (Bool-cases (bytes_eq pattern (star ∷ []))) [
      | inl all ↦
          let same = ap length (bytes_eq→≡ pattern (star ∷ []) all) in
          absurd (omega (arith, same, long))
      | inr more ↦
          rw (more, split-star (a ++ b) (b ++ c) free free')
            (parts_tested pattern (a ++ b) (b ++ c) [] s
              ∙ rw (front, has_suffix-append a (b ++ c), rest, no_room) refl)
    ]
