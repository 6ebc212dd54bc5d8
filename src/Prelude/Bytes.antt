-- ===== src/Prelude/Bytes.antt =====
-- Byte strings as lists of numbers: their comparison, and reads of a fixed size.
use Prim.Native.Nat.{◌+◌, ℕ, zero, suc, ◌-◌, ◌≤◌}
use mathlib.Core.Path.{◌≡◌, refl, sym, ap, ap₂, ◌∙◌}
use mathlib.Core.Bool.{Bool, true, false}
use mathlib.Core.List.{List, [], ◌∷◌, ◌++◌}
use mathlib.Core.Option.{Option, none, some}
use native.Mathlib.Omega.{arith}
use mxkeys_org.Prelude.Tests.{leb, ◌==◌, if◌then◌else◌}
use mxkeys_org.Prelude.Lists.{length, take, drop, take_all}

-- bytes.Equal, hmac.Equal and == on strings
unfoldable pub bytes_eq : List ℕ → List ℕ → Bool
bytes_eq [] [] = true
bytes_eq [] (y ∷ ys) = false
bytes_eq (x ∷ xs) [] = false
bytes_eq (x ∷ xs) (y ∷ ys) = if x == y then bytes_eq xs ys else false

pub bytes_eq_refl : (xs : List ℕ) → bytes_eq xs xs ≡ true
unfolding bytes_eq
bytes_eq_refl [] = refl
bytes_eq_refl (x ∷ xs) = ground (arith, bytes_eq_refl xs)

pub bytes_eq→≡ : (xs ys : List ℕ) → bytes_eq xs ys ≡ true → xs ≡ ys
unfolding bytes_eq
bytes_eq→≡ [] [] h = refl
bytes_eq→≡ [] (y ∷ ys) h = absurd (ground (arith, h))
bytes_eq→≡ (x ∷ xs) [] h = absurd (ground (arith, h))
bytes_eq→≡ (x ∷ xs) (y ∷ ys) h =
    let same : x ≡ y = ground (arith, h) in
    ap₂ (λ a b. a ∷ b) same (bytes_eq→≡ xs ys (ground (arith, h)))

-- io.ReadFull: the first `n` bytes, if there are so many.
unfoldable pub read_full : ℕ → List ℕ → Option (List ℕ)
read_full n bytes = if leb n (length bytes) then some (take n bytes) else none

module _ {ℓ} {A : Type ℓ} where
  pub take-append : (xs ys : List A) → take (length xs) (xs ++ ys) ≡ xs
  take-append [] ys = refl
  take-append (x ∷ xs) ys = ap (λ l. x ∷ l) (take-append xs ys)

  pub drop-append : (xs ys : List A) → drop (length xs) (xs ++ ys) ≡ ys
  drop-append [] ys = refl
  drop-append (x ∷ xs) ys = drop-append xs ys

  pub take-take_append : (n : ℕ) (xs ys : List A) → n ≤ length xs → take n (xs ++ ys) ≡ take n xs
  take-take_append zero xs ys h = refl
  take-take_append (suc n) [] ys h = absurd (omega arith)
  take-take_append (suc n) (x ∷ xs) ys h = ap (λ l. x ∷ l) (take-take_append n xs ys (omega arith))

  pub drop-drop_append :
      (n : ℕ) (xs ys : List A) → n ≤ length xs → drop n (xs ++ ys) ≡ drop n xs ++ ys
  drop-drop_append zero xs ys h = refl
  drop-drop_append (suc n) [] ys h = absurd (omega arith)
  drop-drop_append (suc n) (x ∷ xs) ys h = drop-drop_append n xs ys (omega arith)

  pub take-append_beyond :
      (n : ℕ) (xs ys : List A) → length xs ≤ n → take n (xs ++ ys) ≡ xs ++ take (n - length xs) ys
  take-append_beyond n [] ys h = ap (λ k. take k ys) (omega arith)
  take-append_beyond zero (x ∷ xs) ys h = absurd (omega arith)
  take-append_beyond (suc n) (x ∷ xs) ys h =
      ap (λ l. x ∷ l)
        (take-append_beyond n xs ys (omega arith) ∙ ap (λ k. xs ++ take k ys) (omega arith))

  -- A part of a list and the next part are one part.
  pub take-drop_next : (n k : ℕ) (xs : List A) → take n xs ++ take k (drop n xs) ≡ take (n + k) xs
  take-drop_next zero k xs = let sum : k ≡ 0 + k = omega arith in ap (λ j. take j xs) sum
  take-drop_next (suc n) k [] =
      ap (λ (l : List A). l) (take_all k [] (omega arith))
      ∙ sym (take_all (suc n + k) [] (omega arith))
  take-drop_next (suc n) k (x ∷ xs) =
      let sum : suc (n + k) ≡ suc n + k = omega arith in
      ap (λ l. x ∷ l) (take-drop_next n k xs) ∙ ap (λ j. take j (x ∷ xs)) sum
