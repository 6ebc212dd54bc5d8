-- ===== src/Examples/Trees.antt =====
-- Small trees of internal/zero/merkle, over a codec that keeps bytes and a digest by length.
use mxkeys_org.Prelude.{
  ℕ, ◌≡◌, ◌↔◌, refl, true, Option, some, List, [], ◌∷◌, ◌++◌, ◌⊎◌, arith, length,
}
use mxkeys_org.Merkle.{Crypto, IsSound, Digest, hash_node, rebuild}
use mxkeys_org.Merkle.Levels.{rebuild_split}
use mxkeys_org.Merkle.Inclusion.{Proof, found, verdict, equal_bytes, get_proof, verify_proof}
use mxkeys_org.Merkle.Inclusion.Completeness.{AreDigests, get_proof-verify_proof}
use mxkeys_org.Merkle.Inclusion.Binding.{Collision, verify_proof_binds}
use mxkeys_org.Merkle.Consistency.{}

-- 32 bytes that hold the first byte of the message in the first place.
abbrev fill : ℕ → List ℕ
fill b =
    b ∷ 0 ∷ 0 ∷ 0 ∷ 0 ∷ 0 ∷ 0 ∷ 0 ∷ 0 ∷ 0 ∷ 0 ∷ 0 ∷ 0 ∷ 0 ∷ 0 ∷ 0 ∷ 0 ∷ 0 ∷ 0 ∷ 0 ∷ 0 ∷ 0 ∷ 0 ∷ 0
    ∷ 0 ∷ 0 ∷ 0 ∷ 0 ∷ 0 ∷ 0 ∷ 0 ∷ 0 ∷ []

abbrev toy : Crypto
toy = record {
  sha256 = λ m. fill (length m);
  Text = List ℕ;
  encode = λ b. b;
  decode = λ t. some t;
  same_text = equal_bytes;
}

equal_bytes_iff : (s t : List ℕ) → (equal_bytes s t ≡ true) ↔ (s ≡ t)
unfolding equal_bytes
equal_bytes_iff [] [] = ((λ _. refl), λ _. refl)
equal_bytes_iff [] (y ∷ t) = ((λ h. cc), λ h. cc)
equal_bytes_iff (x ∷ s) [] = ((λ h. cc), λ h. cc)
equal_bytes_iff (x ∷ s) (y ∷ t) = ground (arith, equal_bytes_iff s t)

toy-IsSound : IsSound toy
toy-IsSound = record {
  digest_length = λ m. refl;
  decode-encode = λ b. refl;
  same_text_iff = equal_bytes_iff;
}

abbrev leaves : List Digest
leaves = fill 1 ∷ fill 2 ∷ fill 3 ∷ []

leaves-AreDigests : AreDigests leaves
leaves-AreDigests = (refl, (refl, (refl, tt)))

rebuild_split_example :
    (rebuild toy ((fill 1 ∷ fill 2 ∷ []) ++ fill 3 ∷ [])).root
    ≡ hash_node toy (rebuild toy (fill 1 ∷ fill 2 ∷ [])).root (rebuild toy (fill 3 ∷ [])).root
rebuild_split_example =
    rebuild_split toy 1 (fill 1 ∷ fill 2 ∷ []) (fill 3 ∷ []) refl (omega arith) (omega arith)

get_proof-verify_proof_example :
    (p : Proof toy.Text) × (get_proof toy 2 (rebuild toy leaves) ≡ found p)
    × (p.leaf_index ≡ 2)
    × (p.leaf_hash ≡ fill 3)
    × (p.root_hash ≡ (rebuild toy leaves).root)
    × (verify_proof toy p ≡ verdict true)
get_proof-verify_proof_example =
    get_proof-verify_proof toy toy-IsSound 2 leaves (fill 3) leaves-AreDigests refl

-- A proof for the first of two leaves.
abbrev of_first : List ℕ → Proof (List ℕ)
of_first leaf = record {
  leaf_index = 0;
  leaf_hash = leaf;
  tree_size = 2;
  root_hash = fill 65;
  audit_path = fill 2 ∷ [];
  directions = 1 ∷ [];
}

of_first_accepted : verify_proof toy (of_first (fill 1)) ≡ verdict true
unfolding verify_proof hash_node
of_first_accepted = refl

forged_accepted : verify_proof toy (of_first (fill 3)) ≡ verdict true
unfolding verify_proof hash_node
forged_accepted = refl

-- The toy digest has collisions, so two leaves fit.
verify_proof_binds_example :
    (◌≡◌ {A = Option (List ℕ)} (some (fill 1)) (some (fill 3))) ⊎ Collision toy
verify_proof_binds_example =
    verify_proof_binds toy (of_first (fill 1)) (of_first (fill 3)) toy-IsSound.digest_length
      of_first_accepted forged_accepted refl refl
