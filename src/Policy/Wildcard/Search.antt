-- ===== src/Policy/Wildcard/Search.antt =====
-- The search for the parts in the middle of a pattern: taking the first place for each is enough.
use mathlib.Core.Bool.{false≢true}
use mathlib.Core.List.{append_assoc}
use mxkeys_org.Prelude.{
  ℕ, zero, suc, ◌+◌, ◌≡◌, ◌∙◌, refl, sym, ap, subst, true, Bool-cases, Option-cases, inl, inr,
  arith, some, List, [], ◌∷◌, ◌++◌, Text, length, drop, has_prefix, index_of, has_prefix-split,
  has_prefix-append, drop-drop_append, drop-append, length-append,
}
use mxkeys_org.Policy.Wildcard.{consume_all}
use mxkeys_org.Policy.Wildcard.Globs.{Fits}

-- What follows a text may grow at its front.
Fits-more : (ps : List Text) (z y : Text) → Fits ps y → Fits ps (z ++ y)
Fits-more [] z y fits = tt
Fits-more (p ∷ ps) z y (x, r, h, fits) =
    (z ++ x, r, ap (λ l. z ++ l) h ∙ sym (append_assoc z x (p ++ r)), fits)

drop-nil : (n : ℕ) → drop {A = ℕ} n [] ≡ []
drop-nil zero = refl
drop-nil (suc n) = refl

index_sound :
    (s p : Text) (i : ℕ)
    → index_of s p ≡ some i
    → (x : Text) × (s ≡ x ++ (p ++ drop (i + length p) s))
unfolding index_of
index_sound [] [] i h = ([], sym (drop-nil (i + 0)))
index_sound [] (q ∷ p) i h = absurd (ground (arith, h))
index_sound (c ∷ s) p i h = elim (Bool-cases (has_prefix (c ∷ s) p)) [
  | inl here ↦
      let first = rw here at h in
      let same : length p ≡ i + length p = ground (arith, first) in
      ([], has_prefix-split (c ∷ s) p here ∙ ap (λ k. p ++ drop k (c ∷ s)) same)
  | inr after ↦
      let found = rw after at h in
      elim (Option-cases (index_of s p)) [
        | inl missing ↦ absurd (ground (arith, found, missing))
        | inr (j, at) ↦
            let (x, e) = index_sound s p j at in
            let same : suc (j + length p) ≡ i + length p = ground (arith, found, at) in
            (c ∷ x, ap (λ l. c ∷ l) e ∙ ap (λ k. c ∷ (x ++ (p ++ drop k (c ∷ s)))) same)
      ]
]

index_prefix : (s p : Text) → has_prefix s p ≡ true → index_of s p ≡ some 0
unfolding index_of has_prefix
index_prefix [] [] h = refl
index_prefix [] (q ∷ p) h = absurd (ground (arith, h))
index_prefix (c ∷ s) p h = rw h refl

first_drop : (p y : Text) → drop (0 + length p) (p ++ y) ≡ y
first_drop p y = ap (λ k. drop k (p ++ y)) (omega arith) ∙ drop-append p y

-- The first place of a part leaves at least what any place leaves.
index_first :
    (x p y : Text)
    → (i : ℕ) × (index_of (x ++ (p ++ y)) p ≡ some i)
      × (z : Text) × (drop (i + length p) (x ++ (p ++ y)) ≡ z ++ y)
unfolding index_of
index_first [] p y = (0, index_prefix (p ++ y) p (has_prefix-append p y), [], first_drop p y)
index_first (c ∷ x) p y =
    let (i, h, z, e) = index_first x p y in
    let start : 0 + length p ≡ length p = omega arith in
    let step : suc i + length p ≡ suc (i + length p) = omega arith in
    elim (Bool-cases (has_prefix (c ∷ (x ++ (p ++ y))) p)) [
      | inl here ↦ (
        0,
        rw here refl,
        drop (length p) ((c ∷ x) ++ p),
        ap (λ l. drop (0 + length p) l) (sym (append_assoc (c ∷ x) p y))
            ∙ ap (λ k. drop k (((c ∷ x) ++ p) ++ y)) start
            ∙ drop-drop_append (length p) ((c ∷ x) ++ p) y (omega (arith, length-append (c ∷ x) p)),
      )
      | inr later ↦ (suc i, rw (later, h) refl, z, ap (λ k. drop k (c ∷ (x ++ (p ++ y)))) step ∙ e)
    ]

pub consume_sound : (ps : List Text) (s : Text) → consume_all ps s ≡ true → Fits ps s
unfolding consume_all
consume_sound [] s h = tt
consume_sound ([] ∷ ps) s h = ([], s, refl, consume_sound ps s h)
consume_sound ((c ∷ p) ∷ ps) s h = elim (Option-cases (index_of s (c ∷ p))) [
  | inl missing ↦ absurd (false≢true (rw missing at h))
  | inr (i, at) ↦
      let (x, e) = index_sound s (c ∷ p) i at in
      let rest = rw at at h in
      (x, drop (i + length (c ∷ p)) s, e, consume_sound ps (drop (i + length (c ∷ p)) s) rest)
]

pub consume_complete : (ps : List Text) (s : Text) → Fits ps s → consume_all ps s ≡ true
unfolding consume_all
consume_complete [] s fits = refl
consume_complete ([] ∷ ps) s (x, y, h, fits) =
    consume_complete ps s (subst (Fits ps) (sym h) (Fits-more ps x y fits))
consume_complete ((c ∷ p) ∷ ps) s (x, y, h, fits) =
    let (i, at, z, e) = index_first x (c ∷ p) y in
    subst (λ t. consume_all ((c ∷ p) ∷ ps) t ≡ true) (sym h)
      (rw at (
        consume_complete ps (drop (i + length (c ∷ p)) (x ++ ((c ∷ p) ++ y)))
          (subst (Fits ps) (sym e) (Fits-more ps z y fits))))
