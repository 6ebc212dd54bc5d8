-- ===== src/Notary/Queries/Names.antt =====
-- internal/keys/notary_query.go: the names of a request, and the maps that have none of them.
use mxkeys_org.Prelude.{
  ℕ, suc, ◌+◌, ◌≡◌, ◌∙◌, refl, ap, Bool, true, false, none, some, String, str_eq, List, [], ◌∷◌,
  length, eq_iff, All, if◌then◌else◌, Dict, find, assign, remove, find-assign, arith,
}
use mxkeys_org.Notary.Queries.{Failure, forbidden, names}

-- No name occurs twice.
abbrev pub IsDistinct : List String → Type 0
IsDistinct [] = Unit
IsDistinct (n ∷ ns) = All (λ m. str_eq n m ≡ false) ns × IsDistinct ns

-- A map has none of the names.
abbrev pub Absent : Dict Failure → List String → Type 0
Absent failures ns = All (λ n. find n failures ≡ none) ns

remove-absent {ℓ} : {V : Type ℓ} (k : String) (m : Dict V) → find k m ≡ none → remove k m ≡ m
unfolding find remove
remove-absent k [] absent = refl
remove-absent k ((j, v) ∷ m) absent = by_name (str_eq j k) (remove-absent k m) absent
  where
    by_name :
        (b : Bool)
        → (find k m ≡ none → remove k m ≡ m)
        → (if b then some v else find k m) ≡ none
        → (let rest = remove k m in if b then rest else (j, v) ∷ rest) ≡ (j, v) ∷ m
    by_name true later e = ground (arith, e)
    by_name false later e = ap (λ r. (j, v) ∷ r) (later e)

pub length-assign_absent :
    (k : String) (v : Failure) (m : Dict Failure)
    → find k m ≡ none
    → length (assign k v m) ≡ suc (length m)
unfolding assign
length-assign_absent k v m absent = ap (λ r. suc (length r)) (remove-absent k m absent)

-- A name that is put in a map leaves the other names out.
pub assign-Absent :
    (k : String) (v : Failure) (m : Dict Failure) (ns : List String)
    → All (λ n. str_eq k n ≡ false) ns
    → Absent m ns
    → Absent (assign k v m) ns
assign-Absent k v m [] other absent = tt
assign-Absent k v m (n ∷ ns) (other, others) (absent, rest) = (
  find-assign k n v m ∙ ap (λ b. if b then some v else find n m) other ∙ absent,
  assign-Absent k v m ns others rest,
)

pub length-names {ℓ} : {V : Type ℓ} (m : Dict V) → length (names m) ≡ length m
unfolding names
length-names [] = refl
length-names ((k, v) ∷ m) = ap suc (length-names m)

differ_sym : (a b : String) → str_eq a b ≡ false → str_eq b a ≡ false
differ_sym a b differ = grind (arith, differ, eq_iff a b, eq_iff b a)

-- A round of applyTrustPolicyToRequest.
abbrev pub split_off :
    String → List ℕ → Dict Failure × Dict (List ℕ) → Bool → Dict Failure × Dict (List ℕ)
split_off name criteria rest b =
    if b then (assign name forbidden rest.0, rest.1) else (rest.0, (name, criteria) ∷ rest.1)

abbrev pub IsParted : ℕ → Dict Failure × Dict (List ℕ) → Type 0
IsParted n parts =
    (length parts.0 + length parts.1 ≡ n)
    × Absent parts.0 (names parts.1)
    × IsDistinct (names parts.1)

pub split_off-other :
    (n name : String) (criteria : List ℕ) (rest : Dict Failure × Dict (List ℕ)) (b : Bool)
    → str_eq n name ≡ false
    → find n rest.0 ≡ none
    → All (λ m. str_eq n m ≡ false) (names rest.1)
    → (find n (split_off name criteria rest b).0 ≡ none)
      × All (λ m. str_eq n m ≡ false) (names (split_off name criteria rest b).1)
unfolding names
split_off-other n name criteria rest true here absent left = (
  find-assign name n forbidden rest.0
      ∙ ap (λ b. if b then some forbidden else find n rest.0) (differ_sym n name here)
      ∙ absent,
  left,
)
split_off-other n name criteria rest false here absent left = (absent, (here, left))

pub split_off-parts :
    (n : ℕ) (name : String) (criteria : List ℕ) (rest : Dict Failure × Dict (List ℕ)) (b : Bool)
    → find name rest.0 ≡ none
    → All (λ m. str_eq name m ≡ false) (names rest.1)
    → IsParted n rest
    → IsParted (suc n) (split_off name criteria rest b)
unfolding names
split_off-parts n name criteria rest true absent left (total, none_left, distinct) = (
  ap (λ k. k + length rest.1) (length-assign_absent name forbidden rest.0 absent)
      ∙ omega (arith, total),
  assign-Absent name forbidden rest.0 (names rest.1) left none_left,
  distinct,
)
split_off-parts n name criteria rest false absent left (total, none_left, distinct) =
    (omega (arith, total), (absent, none_left), (left, distinct))
