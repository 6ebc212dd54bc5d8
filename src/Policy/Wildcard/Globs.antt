-- ===== src/Policy/Wildcard/Globs.antt =====
-- What a pattern with stars means, and what the texts between its stars have to do with it.
use mathlib.Core.List.{append_assoc}
use mxkeys_org.Prelude.{
  ℕ, ◌==◌, ◌≡◌, ◌↔◌, ◌∙◌, refl, sym, ap, subst, if◌then◌else◌, Bool-cases, inl, inr, List, [], ◌∷◌,
  ◌++◌, Text, split,
}
use mxkeys_org.Policy.Wildcard.{star, last_part, but_last}

-- A star stands for any text, and any other byte for itself.
abbrev pub Glob : Text → Text → Type 0
Glob [] s = s ≡ []
Glob (c ∷ p) s =
    if c == star
    then ((x : Text) × (r : Text) × (s ≡ x ++ r) × Glob p r)
    else ((r : Text) × (s ≡ c ∷ r) × Glob p r)

-- The parts in their order, with any text between two of them.
abbrev pub Joined : List Text → Text → Type 0
Joined [] s = s ≡ []
Joined (p ∷ []) s = s ≡ p
Joined (p ∷ q ∷ ps) s = (x : Text) × (r : Text) × (s ≡ p ++ (x ++ r)) × Joined (q ∷ ps) r

pub split-cons : (sep : ℕ) (s : Text) → (q : Text) × (ps : List Text) × (split sep s ≡ q ∷ ps)
unfolding split
split-cons sep [] = ([], [], refl)
split-cons sep (c ∷ s) =
    let (q, ps, h) = split-cons sep s in
    elim (Bool-cases (c == sep)) [
      | inl same ↦ ([], split sep s, rw same refl)
      | inr other ↦ (c ∷ q, ps, rw (other, h) refl)
    ]

Joined-cons :
    (c : ℕ) (q : Text) (ps : List Text) (s : Text)
    → Joined ((c ∷ q) ∷ ps) s ↔ ((r : Text) × (s ≡ c ∷ r) × Joined (q ∷ ps) r)
Joined-cons c q [] s = (λ h. (q, h, refl), λ (r, h, e). h ∙ ap (λ l. c ∷ l) e)
Joined-cons c q (p ∷ ps) s = (
  λ (x, r, h, j). (q ++ (x ++ r), h, (x, r, refl, j)),
  λ (t, h, (x, r, e, j)). (x, r, h ∙ ap (λ l. c ∷ l) e, j),
)

pub Glob-Joined : (pattern s : Text) → Glob pattern s ↔ Joined (split star pattern) s
unfolding split
Glob-Joined [] s = (λ h. h, λ h. h)
Glob-Joined (c ∷ p) s =
    let (q, ps, h) = split-cons star p in
    elim (Bool-cases (c == star)) [
      | inl same ↦
          rw (same, h)
            (
              λ (x, r, e, g). (x, r, e, subst (λ l. Joined l r) h ((Glob-Joined p r).0 g)),
              λ (x, r, e, j). (x, r, e, (Glob-Joined p r).1 (subst (λ l. Joined l r) (sym h) j)),
            )
      | inr other ↦
          rw (other, h)
            (
              λ (r, e, g).
                  (Joined-cons c q ps s).1
                    (r, e, subst (λ l. Joined l r) h ((Glob-Joined p r).0 g)),
              λ j.
                  let (r, e, k) = (Joined-cons c q ps s).0 j in
                  (r, e, (Glob-Joined p r).1 (subst (λ l. Joined l r) (sym h) k)),
            )
    ]

-- The parts one after the other, with any text around them.
abbrev pub Fits : List Text → Text → Type 0
Fits [] s = Unit
Fits (p ∷ ps) s = (x : Text) × (y : Text) × (s ≡ x ++ (p ++ y)) × Fits ps y

pub Joined-ends :
    (q : Text) (ps : List Text) (s : Text)
    → ((x : Text) × (r : Text) × (s ≡ x ++ r) × Joined (q ∷ ps) r)
      ↔ ((mid : Text) × (s ≡ mid ++ last_part q ps) × Fits (but_last q ps) mid)
Joined-ends q [] s = (λ (x, r, h, j). (x, rw (sym j) h, tt), λ (mid, h, _). (mid, q, h, refl))
Joined-ends q (p ∷ ps) s = (
  λ (x, r, h, (x', r', e, j)).
      let (mid, k, fits) = (Joined-ends p ps (x' ++ r')).0 (x', r', refl, j) in
      let last = last_part p ps in
      (
        x ++ (q ++ mid),
        h
            ∙ ap (λ l. x ++ l) (e ∙ ap (λ l. q ++ l) k ∙ sym (append_assoc q mid last))
            ∙ sym (append_assoc x (q ++ mid) last),
        (x, mid, refl, fits),
      ),
  λ (mid, h, (x, y, e, fits)).
      let (x', r', k, j) = (Joined-ends p ps (y ++ last_part p ps)).1 (y, refl, fits) in
      let last = last_part p ps in
      (
        x,
        q ++ (y ++ last),
        h
            ∙ ap (λ l. l ++ last) e
            ∙ append_assoc x (q ++ y) last
            ∙ ap (λ l. x ++ l) (append_assoc q y last),
        (x', r', ap (λ l. q ++ l) k, j),
      ),
)
