-- ===== src/RateLimit/Views.antt =====
-- internal/server/ratelimit.go: the visitors that a list of elements stands for.
use mxkeys_org.Prelude.{
  ℕ, ◌-◌, ◌≤◌, ◌≡◌, ◌∙◌, refl, sym, ap, true, false, not, none, some, String, List, [], ◌∷◌, map,
  ◌==◌, ==_iff, if◌then◌else◌, length, get_last, Dict, str_eq, eq_iff, arith, inl, inr, Bool-cases,
  ◌≢◌,
}
use mxkeys_org.RateLimit.{Visitor, member, remove_element, write_at}
use mxkeys_org.RateLimit.Links.{Distinct, IsLinked}
use mxkeys_org.RateLimit.Lru.{drop_last, select, without, find_visitor, Recent, Recent-later}

pub length-map {ℓ κ} :
    {A : Type ℓ} {B : Type κ} (f : A → B) (xs : List A) → length (map f xs) ≡ length xs
length-map f [] = refl
length-map f (x ∷ xs) = omega (arith, length-map f xs)

pub map-drop_last {ℓ κ} :
    {A : Type ℓ} {B : Type κ} (f : A → B) (xs : List A)
    → map f (drop_last xs) ≡ drop_last (map f xs)
unfolding drop_last
map-drop_last f [] = refl
map-drop_last f (x ∷ []) = refl
map-drop_last f (x ∷ y ∷ ys) = ap (λ l. f x ∷ l) (map-drop_last f (y ∷ ys))

pub length-drop_last {ℓ} : {A : Type ℓ} (xs : List A) → length (drop_last xs) ≡ length xs - 1
unfolding drop_last
length-drop_last [] = omega arith
length-drop_last (x ∷ []) = omega arith
length-drop_last (x ∷ y ∷ ys) = omega (arith, length-drop_last (y ∷ ys))

pub length-remove_element : (i : ℕ) (is : List ℕ) → length (remove_element i is) ≤ length is
length-remove_element i [] = omega arith
length-remove_element i (j ∷ is) = ground (arith, length-remove_element i is)

pub get_last-member : (is : List ℕ) (b : ℕ) → get_last is ≡ some b → member b is ≡ true
get_last-member [] b h = absurd (ground arith)
get_last-member (x ∷ []) b h = ground (arith, h)
get_last-member (x ∷ y ∷ ys) b h = ground (arith, get_last-member (y ∷ ys) b h)

pub get_last-found : (x : ℕ) (is : List ℕ) → get_last (x ∷ is) ≢ none
get_last-found x [] h = ground (arith, h)
get_last-found x (y ∷ ys) h = get_last-found y ys h

-- Removing the last element.
pub remove_element_last :
    (is : List ℕ) (b : ℕ) → Distinct is → get_last is ≡ some b → remove_element b is ≡ drop_last is
unfolding drop_last
remove_element_last [] b d h = refl
remove_element_last (x ∷ []) b d h = ground (arith, h)
remove_element_last (x ∷ y ∷ ys) b d h =
    let inside = get_last-member (y ∷ ys) b h in
    let other : (x == b) ≡ false = elim (Bool-cases (x == b)) [
      | inl same ↦ absurd (ground (arith, same, inside, d.0))
      | inr apart ↦ apart
    ] in
    ap (λ c. if c then remove_element b (y ∷ ys) else x ∷ remove_element b (y ∷ ys)) other
    ∙ ap (λ l. x ∷ l) (remove_element_last (y ∷ ys) b d.1 h)

module _ {L : Type 0} where
  pub map-write_absent :
      (i : ℕ) (v : Visitor L) (heap : ℕ → Visitor L) (is : List ℕ)
      → member i is ≡ false
      → map (write_at i v heap) is ≡ map heap is
  map-write_absent i v heap [] h = refl
  map-write_absent i v heap (j ∷ is) h =
      let other : (j == i) ≡ false = ground (arith, h) in
      ap (λ b. (if b then v else heap j) ∷ map (write_at i v heap) is) other
      ∙ ap (λ l. heap j ∷ l) (map-write_absent i v heap is (ground (arith, h)))

  -- If the element is the only one of its client, removing it removes the client.
  pub map-remove_element :
      (i : ℕ) (ip : String) (heap : ℕ → Visitor L) (is : List ℕ)
      → ((j : ℕ) → member j is ≡ true → str_eq (heap j).ip ip ≡ (j == i))
      → map heap (remove_element i is) ≡ without ip (map heap is)
  unfolding select
  map-remove_element i ip heap [] same = refl
  map-remove_element i ip heap (j ∷ is) same =
      let rest = map-remove_element i ip heap is (λ k m. same k (ground (arith, m))) in
      let here = same j (ground arith) in
      elim (Bool-cases (j == i)) [
        | inl own ↦
            ap (λ b. map heap (if b then remove_element i is else j ∷ remove_element i is)) own
            ∙ rest
            ∙ sym (
                ap
                  (λ b.
                    if not b then heap j ∷ without ip (map heap is) else without ip (map heap is))
                  (here ∙ own))
        | inr other ↦
            ap (λ b. map heap (if b then remove_element i is else j ∷ remove_element i is)) other
            ∙ ap (λ l. heap j ∷ l) rest
            ∙ sym (
                ap
                  (λ b.
                    if not b then heap j ∷ without ip (map heap is) else without ip (map heap is))
                  (here ∙ other))
      ]

  pub find_visitor_there :
      (i : ℕ) (ip : String) (heap : ℕ → Visitor L) (is : List ℕ)
      → ((j : ℕ) → member j is ≡ true → str_eq (heap j).ip ip ≡ (j == i))
      → member i is ≡ true
      → find_visitor ip (map heap is) ≡ some (heap i)
  unfolding find_visitor
  find_visitor_there i ip heap [] same m = absurd (ground (arith, m))
  find_visitor_there i ip heap (j ∷ is) same m =
      let here = same j (ground arith) in
      elim (Bool-cases (j == i)) [
        | inl own ↦
            ap (λ b. if b then some (heap j) else find_visitor ip (map heap is)) (here ∙ own)
            ∙ ap (λ k. some (heap k)) ((==_iff j i).0 own)
        | inr other ↦
            ap (λ b. if b then some (heap j) else find_visitor ip (map heap is)) (here ∙ other)
            ∙ find_visitor_there i ip heap is (λ k n. same k (ground (arith, n)))
                (ground (arith, m, other))
      ]

  pub find_visitor_absent :
      (ip : String) (heap : ℕ → Visitor L) (is : List ℕ)
      → ((j : ℕ) → member j is ≡ true → str_eq (heap j).ip ip ≡ false)
      → find_visitor ip (map heap is) ≡ none
  unfolding find_visitor
  find_visitor_absent ip heap [] apart = refl
  find_visitor_absent ip heap (j ∷ is) apart =
      ap (λ b. if b then some (heap j) else find_visitor ip (map heap is)) (apart j (ground arith))
      ∙ find_visitor_absent ip heap is (λ k m. apart k (ground (arith, m)))

  -- In a linked list an element is known by its client.
  pub own_name :
      (heap : ℕ → Visitor L) (visitors : Dict ℕ) (order : List ℕ) (next i : ℕ)
      → IsLinked (λ j. (heap j).ip) visitors order next
      → member i order ≡ true
      → (j : ℕ) → member j order ≡ true
      → str_eq (heap j).ip (heap i).ip ≡ (j == i)
  own_name heap visitors order next i l m j mj =
      ground (arith, l.listed i m, l.listed j mj, eq_iff (heap j).ip (heap i).ip)

  -- The times are all that Recent depends on.
  pub Recent-map :
      (heap heap' : ℕ → Visitor L) (t : ℕ) (is : List ℕ)
      → ((j : ℕ) → (heap' j).last_seen ≡ (heap j).last_seen)
      → Recent t (map heap is)
      → Recent t (map heap' is)
  Recent-map heap heap' t [] same r = r
  Recent-map heap heap' t (j ∷ is) same r = (
    omega (arith, same j, r.0),
    Recent-later (heap j).last_seen (heap' j).last_seen (map heap' is) (omega (arith, same j))
        (Recent-map heap heap' (heap j).last_seen is same r.1),
  )
