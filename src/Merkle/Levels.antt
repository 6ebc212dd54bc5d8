-- ===== src/Merkle/Levels.antt =====
-- The levels that rebuild (internal/zero/merkle/tree.go) makes, and the root against the recursive
-- definition of RFC 6962, section 2.1.
use mxkeys_org.Prelude.{
  ℕ, zero, suc, ◌+◌, ◌*◌, ◌/◌, ◌^◌, ◌≤◌, ◌<◌, ◌≡◌, refl, sym, ap, ap₂, ◌∙◌, false, List, [], ◌∷◌,
  ◌++◌, ltb, ◌==◌, length, arith, Bool-cases, inl, inr, lt→ltb, length-append,
}
use native.Mathlib.Nat.{pow-suc, mul_comm, add_comm}
use mxkeys_org.Merkle.{Crypto, Digest, hash_node, pair_up, levels_from, top_of, rebuild}

double : (k : ℕ) → 2 ^ suc k ≡ 2 * 2 ^ k
double k = pow-suc 2 k ∙ mul_comm (2 ^ k) 2

positive : (k : ℕ) → 0 < 2 ^ k
positive zero = omega arith
positive (suc k) = omega (arith, double k, positive k)

pub nonzero : (n : ℕ) → (suc n == 0) ≡ false
nonzero n = ground arith

module _ (c : Crypto) where
  -- The root is what the loop ends on, an empty tree included.
  pub rebuild_root : (l : List Digest) → (rebuild c l).root ≡ top_of (levels_from c (length l) l)
  unfolding rebuild
  rebuild_root [] = refl
  rebuild_root (x ∷ l) = rw (nonzero (length l)) refl

  pub length-pair_up : (l : List Digest) → length (pair_up c l) ≡ (length l + 1) / 2
  unfolding pair_up
  length-pair_up [] = omega arith
  length-pair_up (x ∷ []) = omega arith
  length-pair_up (x ∷ y ∷ rest) = omega (arith, length-pair_up rest)

  -- With fuel for the nodes of a level the loop ends on a single node: the root by levels is the
  -- root by halving.
  abbrev pub top : ℕ → List Digest → Digest
  top fuel l = top_of (levels_from c fuel l)

  top_cons : (fuel : ℕ) (l k : List Digest) → top_of (k ∷ levels_from c fuel l) ≡ top fuel l
  unfolding levels_from top_of
  top_cons zero l k = refl
  top_cons (suc fuel) l k = elim (Bool-cases (ltb 1 (length l))) [
    | inl more ↦ rw more refl
    | inr one ↦ rw one refl
  ]

  pub top-suc :
      (fuel : ℕ) (l : List Digest) → 1 < length l → top (suc fuel) l ≡ top fuel (pair_up c l)
  unfolding levels_from
  top-suc fuel l h = rw (lt→ltb 1 (length l) h) (top_cons fuel (pair_up c l) l)

  pub top-one : (fuel : ℕ) (x : Digest) → top fuel (x ∷ []) ≡ x
  unfolding levels_from top_of
  top-one zero x = refl
  top-one (suc fuel) x = refl

  suc_plus : (a b : ℕ) → suc a + b ≡ suc (a + b)
  suc_plus a b = omega arith

  top_nil : (fuel : ℕ) → top fuel [] ≡ []
  unfolding levels_from top_of
  top_nil zero = refl
  top_nil (suc fuel) = refl

  two :
      (fuel : ℕ) (xs ys : List Digest)
      → length xs ≡ 1
      → length ys ≡ 1
      → top (suc fuel) (xs ++ ys) ≡ hash_node c (top (suc fuel) xs) (top (suc fuel) ys)
  unfolding pair_up
  two fuel [] ys hx hy = absurd (omega arith)
  two fuel (x ∷ y ∷ r) ys hx hy = absurd (omega arith)
  two fuel (x ∷ []) [] hx hy = absurd (omega arith)
  two fuel (x ∷ []) (y ∷ z ∷ r) hx hy = absurd (omega arith)
  two fuel (x ∷ []) (y ∷ []) hx hy =
      top-suc fuel (x ∷ y ∷ []) (omega arith)
      ∙ top-one fuel (hash_node c x y)
      ∙ ap₂ (hash_node c) (sym (top-one (suc fuel) x)) (sym (top-one (suc fuel) y))

  -- Pairs do not cross a boundary at an even position.
  pair_up-append :
      (k : ℕ) (xs ys : List Digest)
      → length xs ≡ 2 * k
      → pair_up c (xs ++ ys) ≡ pair_up c xs ++ pair_up c ys
  unfolding pair_up
  pair_up-append k [] ys h = refl
  pair_up-append k (x ∷ []) ys h = absurd (omega arith)
  pair_up-append zero (x ∷ y ∷ xs) ys h = absurd (omega arith)
  pair_up-append (suc k) (x ∷ y ∷ xs) ys h =
      ap (λ l. hash_node c x y ∷ l) (pair_up-append k xs ys (omega arith))

  -- Enough fuel is the number of nodes; more changes nothing.
  pub top_fuel :
      (fuel more : ℕ) (l : List Digest) → length l ≤ fuel → top (fuel + more) l ≡ top fuel l
  top_fuel fuel more [] h = top_nil (fuel + more) ∙ sym (top_nil fuel)
  top_fuel fuel more (x ∷ []) h = top-one (fuel + more) x ∙ sym (top-one fuel x)
  top_fuel zero more (x ∷ y ∷ r) h = absurd (omega arith)
  top_fuel (suc fuel) more (x ∷ y ∷ r) h =
      ap (λ k. top k (x ∷ y ∷ r)) (suc_plus fuel more)
      ∙ top-suc (fuel + more) (x ∷ y ∷ r) (omega arith)
      ∙ top_fuel fuel more (pair_up c (x ∷ y ∷ r)) (omega (arith, length-pair_up (x ∷ y ∷ r)))
      ∙ sym (top-suc fuel (x ∷ y ∷ r) (omega arith))

  top_pair : (fuel : ℕ) (l : List Digest) → 0 < length l → top fuel (pair_up c l) ≡ top (suc fuel) l
  unfolding pair_up
  top_pair fuel [] h = absurd (omega arith)
  top_pair fuel (x ∷ []) h = top-one fuel x ∙ sym (top-one (suc fuel) x)
  top_pair fuel (x ∷ y ∷ r) h = sym (top-suc fuel (x ∷ y ∷ r) (omega arith))

  -- A left part of 2^k nodes and a right part that is not longer: the root of the whole is the
  -- node over the two roots.
  pub top_split :
      (k fuel : ℕ) (xs ys : List Digest)
      → length xs ≡ 2 ^ k
      → 0 < length ys
      → length ys ≤ 2 ^ k
      → length xs + length ys ≤ fuel
      → top fuel (xs ++ ys) ≡ hash_node c (top fuel xs) (top fuel ys)
  top_split k zero xs ys hx lo hi hf = absurd (omega arith)
  top_split zero (suc fuel) xs ys hx lo hi hf = two fuel xs ys (omega arith) (omega arith)
  top_split (suc k) (suc fuel) xs ys hx lo hi hf =
      let pw : 2 ^ suc k ≡ 2 * 2 ^ k = double k in
      top-suc fuel (xs ++ ys) (omega (arith, length-append xs ys, pw, positive k))
      ∙ ap (top fuel) (pair_up-append (2 ^ k) xs ys (omega (arith, pw)))
      ∙ top_split k fuel (pair_up c xs) (pair_up c ys) (omega (arith, pw, length-pair_up xs))
          (omega (arith, length-pair_up ys)) (omega (arith, pw, length-pair_up ys))
          (omega (arith, pw, positive k, length-pair_up xs, length-pair_up ys))
      ∙ ap₂ (hash_node c) (top_pair fuel xs (omega (arith, pw, positive k))) (top_pair fuel ys lo)

  -- The tree over 2^k leaves and at most as many more has for its root the node over the roots of
  -- the two trees: the recursive definition of a Merkle tree hash.
  pub rebuild_split :
      (k : ℕ) (xs ys : List Digest)
      → length xs ≡ 2 ^ k
      → 0 < length ys
      → length ys ≤ 2 ^ k
      → (rebuild c (xs ++ ys)).root ≡ hash_node c (rebuild c xs).root (rebuild c ys).root
  rebuild_split k xs ys hx lo hi =
      let n = length xs + length ys in
      rebuild_root (xs ++ ys)
      ∙ ap (λ m. top m (xs ++ ys)) (length-append xs ys)
      ∙ top_split k n xs ys hx lo hi (omega arith)
      ∙ ap₂ (hash_node c)
          (top_fuel (length xs) (length ys) xs (omega arith) ∙ sym (rebuild_root xs))
          (ap (λ m. top m ys) (add_comm (length xs) (length ys))
            ∙ top_fuel (length ys) (length xs) ys (omega arith)
            ∙ sym (rebuild_root ys))
