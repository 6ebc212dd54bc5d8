-- ===== src/Merkle.antt =====
-- internal/zero/merkle/hash.go and tree.go: the Merkle tree of the transparency log. A digest is the list
-- of its bytes. SHA-256 and the hexadecimal codec are the Go library's, and so a parameter.
pub mod Inclusion
pub mod Consistency
pub mod Levels
use mxkeys_org.Prelude.{
  ℕ, zero, suc, ◌-◌, ◌≡◌, ◌↔◌, Bool, true, false, Option, none, some, List, [], ◌∷◌, ◌++◌, ltb,
  ◌==◌, if◌then◌else◌, length,
}

pub record Crypto : Type 1 where
  pub sha256 : List ℕ → List ℕ
  pub Text : Type 0
  pub encode : List ℕ → Text
  pub decode : Text → Option (List ℕ)
  pub same_text : Text → Text → Bool

-- What the program relies on: a digest has 32 bytes, decoding takes encoding back, and `==` on
-- strings is equality.
pub record IsSound (c : Crypto) : Type 0 where
  pub digest_length : (m : List ℕ) → length (c.sha256 m) ≡ 32
  pub decode-encode : (b : List ℕ) → c.decode (c.encode b) ≡ some b
  pub same_text_iff : (s t : c.Text) → (c.same_text s t ≡ true) ↔ (s ≡ t)

abbrev pub Digest : Type 0
Digest = List ℕ

pub record Tree : Type 0 where
  pub leaves : List Digest
  pub levels : List (List Digest)
  pub root : Digest

-- New
abbrev pub empty : Tree
empty = record { leaves = []; levels = []; root = [] }

module _ (c : Crypto) where
  unfoldable pub hash_leaf : List ℕ → Digest
  hash_leaf content = c.sha256 (0 ∷ content)

  unfoldable pub hash_node : Digest → Digest → Digest
  hash_node left right = c.sha256 (1 ∷ (left ++ right))

  -- The body of the outer loop of rebuild: pairs are hashed, an odd node is promoted.
  unfoldable pub pair_up : List Digest → List Digest
  pair_up [] = []
  pair_up (x ∷ []) = x ∷ []
  pair_up (x ∷ y ∷ rest) = hash_node x y ∷ pair_up rest

  -- The outer loop, on fuel: the levels from the given one up to the one that ends it.
  unfoldable pub levels_from : ℕ → List Digest → List (List Digest)
  levels_from zero current = current ∷ []
  levels_from (suc fuel) current =
      let above = levels_from fuel (pair_up current) in
      if ltb 1 (length current) then current ∷ above else current ∷ []

abbrev pub head_or_nil : List Digest → Digest
head_or_nil [] = []
head_or_nil (x ∷ _) = x

-- currentLevel[0] of the level on which the loop ends.
unfoldable pub top_of : List (List Digest) → Digest
top_of [] = []
top_of (l ∷ []) = head_or_nil l
top_of (l ∷ m ∷ ls) = top_of (m ∷ ls)

module _ (c : Crypto) where
  -- rebuild; the fuel is the number of leaves.
  unfoldable pub rebuild : List Digest → Tree
  unfolding levels_from pair_up top_of
  rebuild leaves =
      if length leaves == 0
      then record { leaves = leaves; levels = []; root = [] }
      else (let levels = levels_from c (length leaves) leaves in
          record { leaves = leaves; levels = levels; root = top_of levels })

  -- Add and AddHash: the new tree and the index of the leaf.
  unfoldable pub add : List ℕ → Tree → Tree × ℕ
  unfolding rebuild hash_leaf
  add content t =
      let leaves = t.leaves ++ hash_leaf c content ∷ [] in (rebuild leaves, length leaves - 1)

  unfoldable pub add_hash : Digest → Tree → Tree × ℕ
  unfolding rebuild
  add_hash hash t = let leaves = t.leaves ++ hash ∷ [] in (rebuild leaves, length leaves - 1)
