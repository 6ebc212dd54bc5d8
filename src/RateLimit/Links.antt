-- ===== src/RateLimit/Links.antt =====
-- internal/server/ratelimit.go: the map of visitors and their list belong together.
use mxkeys_org.Prelude.{
  ℕ, suc, ◌<◌, ◌≡◌, ◌∙◌, refl, sym, ap, true, false, none, some, String, List, [], ◌∷◌, ◌==◌,
  if◌then◌else◌, find, find-remove, find-assign, remove, assign, Dict, str_eq, eq_iff, arith, inl,
  inr, Bool-cases, subst,
}
use mxkeys_org.RateLimit.{member, remove_element}

abbrev pub Distinct : List ℕ → Type 0
Distinct [] = Unit
Distinct (i ∷ is) = (member i is ≡ false) × Distinct is

-- Every element of the list is the one that the map has for its client, every entry of the map is an element
-- of its client, no element is twice in the list, and the elements are below the next free place.
pub record IsLinked (name : ℕ → String) (visitors : Dict ℕ) (order : List ℕ) (next : ℕ)
    : Type 0 where
  pub listed : (i : ℕ) → member i order ≡ true → find (name i) visitors ≡ some i
  pub mapped :
      (ip : String) (i : ℕ) → find ip visitors ≡ some i → (member i order ≡ true) × (name i ≡ ip)
  pub distinct : Distinct order
  pub below : (i : ℕ) → member i order ≡ true → i < next

pub member-remove_element :
    (i j : ℕ) (order : List ℕ)
    → member j (remove_element i order) ≡ (if j == i then false else member j order)
member-remove_element i j [] = ground arith
member-remove_element i j (k ∷ order) = ground (arith, member-remove_element i j order)

pub remove_element_absent :
    (i : ℕ) (order : List ℕ) → member i order ≡ false → remove_element i order ≡ order
remove_element_absent i [] h = refl
remove_element_absent i (k ∷ order) h = elim (Bool-cases (k == i)) [
  | inl same ↦ absurd (ground (arith, h, same))
  | inr other ↦
      ap (λ b. if b then remove_element i order else k ∷ remove_element i order) other
      ∙ ap (λ l. k ∷ l) (remove_element_absent i order (ground (arith, h, other)))
]

pub Distinct-remove_element :
    (i : ℕ) (order : List ℕ) → Distinct order → Distinct (remove_element i order)
Distinct-remove_element i [] d = d
Distinct-remove_element i (k ∷ order) d = elim (Bool-cases (k == i)) [
  | inl same ↦
      subst Distinct
        (sym (ap (λ b. if b then remove_element i order else k ∷ remove_element i order) same))
        (Distinct-remove_element i order d.1)
  | inr other ↦
      subst Distinct
        (sym (ap (λ b. if b then remove_element i order else k ∷ remove_element i order) other))
        (ground (arith, member-remove_element i k order, d.0), Distinct-remove_element i order d.1)
]

module _ (name : ℕ → String) (visitors : Dict ℕ) (order : List ℕ) (next : ℕ) where
  pub IsLinked-drop :
      (i : ℕ)
      → IsLinked name visitors order next
      → member i order ≡ true
      → IsLinked name (remove (name i) visitors) (remove_element i order) next
  IsLinked-drop i l m = record {
    listed = λ j mj.
        let here : member j order ≡ true = ground (arith, mj, member-remove_element i j order) in
        ground (
          arith,
          l.listed j here,
          l.listed i m,
          find-remove (name i) (name j) visitors,
          eq_iff (name i) (name j),
          mj,
          member-remove_element i j order,
        );
    mapped = λ ip j f.
        let there : find ip visitors ≡ some j =
          ground (arith, f, find-remove (name i) ip visitors) in
        let (mj, named) = l.mapped ip j there in
        (
          ground (
            arith,
            mj,
            named,
            f,
            find-remove (name i) ip visitors,
            eq_iff (name i) ip,
            member-remove_element i j order,
          ),
          named,
        );
    distinct = Distinct-remove_element i order l.distinct;
    below = λ j mj. l.below j (ground (arith, mj, member-remove_element i j order));
  }

  member_moved :
      (i j : ℕ) → member i order ≡ true → member j (i ∷ remove_element i order) ≡ member j order
  member_moved i j m = ground (arith, m, member-remove_element i j order)

  pub IsLinked-move :
      (i : ℕ)
      → IsLinked name visitors order next
      → member i order ≡ true
      → IsLinked name visitors (i ∷ remove_element i order) next
  IsLinked-move i l m = record {
    listed = λ j mj. l.listed j (sym (member_moved i j m) ∙ mj);
    mapped = λ ip j f. let (mj, named) = l.mapped ip j f in (member_moved i j m ∙ mj, named);
    distinct = (
      ground (arith, member-remove_element i i order),
      Distinct-remove_element i order l.distinct,
    );
    below = λ j mj. l.below j (sym (member_moved i j m) ∙ mj);
  }

  pub IsLinked-rename :
      (name' : ℕ → String)
      → ((j : ℕ) → name' j ≡ name j)
      → IsLinked name visitors order next
      → IsLinked name' visitors order next
  IsLinked-rename name' same l = record {
    listed = λ j mj. ap (λ n. find n visitors) (same j) ∙ l.listed j mj;
    mapped = λ ip j f. let (mj, named) = l.mapped ip j f in (mj, same j ∙ named);
    distinct = l.distinct;
    below = l.below;
  }

  pub IsLinked-push :
      (name' : ℕ → String) (ip : String)
      → ((j : ℕ) → name' j ≡ (if j == next then ip else name j))
      → find ip visitors ≡ none
      → IsLinked name visitors order next
      → IsLinked name' (assign ip next visitors) (next ∷ order) (suc next)
  IsLinked-push name' ip named free l = record {
    listed = λ j mj. elim (Bool-cases (j == next)) [
      | inl new ↦
          ap (λ n. find n (assign ip next visitors))
            (named j ∙ ap (λ b. if b then ip else name j) new)
          ∙ find-assign ip ip next visitors
          ∙ ground (arith, eq_iff ip ip, new)
      | inr old ↦
          let mold : member j order ≡ true = ground (arith, mj, old) in
          let found = l.listed j mold in
          ap (λ n. find n (assign ip next visitors))
            (named j ∙ ap (λ b. if b then ip else name j) old)
          ∙ find-assign ip (name j) next visitors
          ∙ ground (arith, eq_iff ip (name j), found, free)
    ];
    mapped = λ q j f. elim (Bool-cases (str_eq ip q)) [
      | inl own ↦
          let is_next : j ≡ next = ground (arith, f, find-assign ip q next visitors, own) in
          (ground (arith, is_next), ground (arith, named j, is_next, eq_iff ip q, own))
      | inr other ↦
          let there : find q visitors ≡ some j =
            ground (arith, f, find-assign ip q next visitors, other) in
          let (mj, name_j) = l.mapped q j there in
          let small = l.below j mj in (ground (arith, mj), ground (arith, named j, name_j, small))
    ];
    distinct = (absent, l.distinct);
    below = λ j mj. elim (Bool-cases (member j order)) [
      | inl old ↦ omega (arith, l.below j old)
      | inr new ↦ ground (arith, mj, new)
    ];
  }
    where
      absent : member next order ≡ false
      absent = elim (Bool-cases (member next order)) [
        | inl m ↦ absurd (omega (arith, l.below next m))
        | inr a ↦ a
      ]
