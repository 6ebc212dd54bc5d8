-- ===== src/Policy/Lists.antt =====
-- internal/keys/trustpolicy_checks.go: the deny and allow lists, by the meaning of their entries.
use mathlib.Core.Bool.{false≢true}
use mathlib.Core.List.{Memᴰ}
use mathlib.Core.List.Memᴰ
use mxkeys_org.Prelude.{
  ◌==◌, ◌≡◌, ◌≢◌, ◌∙◌, refl, sym, ap, subst, true, false, not, ◌&&◌, Bool-cases, Option-cases, inl,
  inr, arith, some, List, [], ◌∷◌, Text, index_of, has_prefix, bytes_eq, bytes_eq_refl, bytes_eq→≡,
}
use mxkeys_org.Policy.{has_star, patterns_of, exact_match, pattern_match, is_listed}
use mxkeys_org.Policy.Wildcard.{star, match_wildcard}
use mxkeys_org.Policy.Wildcard.Globs.{Glob}
use mxkeys_org.Policy.Wildcard.Meaning.{StarFree, wildcard_iff}

-- An entry of the list means the name.
abbrev pub Listed : List Text → Text → Type 0
Listed entries name = (e : Text) × Memᴰ e entries × Glob e name

has_star-free : (e : Text) → has_star e ≡ false → StarFree e
unfolding index_of has_prefix
has_star-free [] h = tt
has_star-free (c ∷ e) h = elim (Bool-cases (c == star)) [
  | inl same ↦ absurd (ground (arith, h, same))
  | inr other ↦ (
    other,
    has_star-free e (elim (Option-cases (index_of e (star ∷ []))) [
      | inl missing ↦ rw missing refl
      | inr (i, at) ↦ absurd (ground (arith, h, other, at))
    ]),
  )
]

Glob-self : (e : Text) → StarFree e → Glob e e
Glob-self [] free = refl
Glob-self (c ∷ e) free = rw (free.0) (e, refl, Glob-self e free.1)

Glob-only_self : (e s : Text) → StarFree e → Glob e s → s ≡ e
Glob-only_self [] s free g = g
Glob-only_self (c ∷ e) s free g =
    let (r, h, k) = rw (free.0) at g in h ∙ ap (λ l. c ∷ l) (Glob-only_self e r free.1 k)

patterns-Mem : (es : List Text) (p : Text) → Memᴰ p (patterns_of es) → Memᴰ p es
unfolding patterns_of
patterns-Mem [] p m = m
patterns-Mem (e ∷ es) p m = elim (Bool-cases (has_star e)) [
  | inl starred ↦ elim (Memᴰ.cases_cons (rw starred at m)) [
    | inl same ↦ Memᴰ.head same
    | inr later ↦ Memᴰ.tail (patterns-Mem es p later)
  ]
  | inr plain ↦ Memᴰ.tail (patterns-Mem es p (rw plain at m))
]

Mem-patterns : (es : List Text) (p : Text) → Memᴰ p es → has_star p ≡ true → Memᴰ p (patterns_of es)
unfolding patterns_of
Mem-patterns [] p m h = m
Mem-patterns (e ∷ es) p m h = elim (Memᴰ.cases_cons m) [
  | inl same ↦
      let starred : has_star e ≡ true = subst (λ t. has_star t ≡ true) same h in
      rw starred (Memᴰ.head same)
  | inr later ↦ elim (Bool-cases (has_star e)) [
    | inl starred ↦ rw starred (Memᴰ.tail (Mem-patterns es p later h))
    | inr plain ↦ rw plain (Mem-patterns es p later h)
  ]
]

exact_sound : (es : List Text) (name : Text) → exact_match es name ≡ true → Listed es name
unfolding exact_match
exact_sound [] name h = absurd (false≢true h)
exact_sound (e ∷ es) name h = elim (Bool-cases (not (has_star e) && bytes_eq e name)) [
  | inl here ↦
      let same : e ≡ name = bytes_eq→≡ e name (ground (arith, here)) in
      (
        e,
        Memᴰ.head refl,
        subst (Glob e) same (Glob-self e (has_star-free e (ground (arith, here)))),
      )
  | inr later ↦ let (x, m, g) = exact_sound es name (rw later at h) in (x, Memᴰ.tail m, g)
]

exact_complete :
    (es : List Text) (e name : Text)
    → Memᴰ e es
    → has_star e ≡ false
    → Glob e name
    → exact_match es name ≡ true
unfolding exact_match
exact_complete [] e name m plain g = absurd (Memᴰ.not-nil m)
exact_complete (x ∷ es) e name m plain g = elim (Memᴰ.cases_cons m) [
  | inl same ↦
      let name_e = Glob-only_self e name (has_star-free e plain) g in
      let eq : bytes_eq x name ≡ true =
        subst (λ t. bytes_eq x t ≡ true) (sym (name_e ∙ same)) (bytes_eq_refl x) in
      let none_starred : has_star x ≡ false = subst (λ t. has_star t ≡ false) same plain in
      rw (none_starred, eq) refl
  | inr later ↦ let rest = exact_complete es e name later plain g in rw rest (ground arith)
]

pattern_sound : (ps : List Text) (name : Text) → pattern_match ps name ≡ some true → Listed ps name
unfolding pattern_match
pattern_sound [] name h = absurd (ground (arith, h))
pattern_sound (p ∷ ps) name h = elim (Option-cases (match_wildcard p name)) [
  | inl panic ↦ absurd (ground (arith, rw panic at h))
  | inr (true, hit) ↦ (p, Memᴰ.head refl, (wildcard_iff p name).0 hit)
  | inr (false, miss) ↦ let (x, m, g) = pattern_sound ps name (rw miss at h) in (x, Memᴰ.tail m, g)
]

pattern_miss :
    (ps : List Text) (p name : Text) → Memᴰ p ps → Glob p name → pattern_match ps name ≢ some false
unfolding pattern_match
pattern_miss [] p name m g h = absurd (Memᴰ.not-nil m)
pattern_miss (q ∷ ps) p name m g h = elim (Option-cases (match_wildcard q name)) [
  | inl panic ↦ ground (arith, rw panic at h)
  | inr (true, hit) ↦ ground (arith, rw hit at h)
  | inr (false, miss) ↦ elim (Memᴰ.cases_cons m) [
    | inl same ↦ ground (
      arith,
      (wildcard_iff p name).1 g,
      subst (λ t. match_wildcard t name ≡ some false) (sym same) miss,
    )
    | inr later ↦ pattern_miss ps p name later g (rw miss at h)
  ]
]

-- A list that says yes has an entry that means the name.
pub Listed-sound :
    (es : List Text) (name : Text) → is_listed es (patterns_of es) name ≡ some true → Listed es name
unfolding is_listed
Listed-sound es name h = elim (Bool-cases (exact_match es name)) [
  | inl exact ↦ exact_sound es name exact
  | inr inexact ↦
      let (p, m, g) = pattern_sound (patterns_of es) name (rw inexact at h) in
      (p, patterns-Mem es p m, g)
]

-- A list that says no has no entry that means the name.
pub Listed-complete :
    (es : List Text) (name : Text)
    → is_listed es (patterns_of es) name ≡ some false
    → ¬ Listed es name
unfolding is_listed
Listed-complete es name h (e, m, g) = elim (Bool-cases (exact_match es name)) [
  | inl exact ↦ ground (arith, rw exact at h)
  | inr inexact ↦ elim (Bool-cases (has_star e)) [
    | inl starred ↦
        pattern_miss (patterns_of es) e name (Mem-patterns es e m starred) g (rw inexact at h)
    | inr plain ↦ false≢true (sym inexact ∙ exact_complete es e name m plain g)
  ]
]
