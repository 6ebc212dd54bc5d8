-- ===== src/Merkle/Consistency/Growth.antt =====
-- Which proofs of GetConsistencyProof are accepted by VerifyConsistencyProof
-- (internal/zero/merkle/consistency.go): the one for the tree's own size is, the one for a single leaf is not.
use mxkeys_org.Prelude.{
  ℕ, suc, ◌+◌, ◌-◌, ◌/◌, ◌≤◌, ◌<◌, ◌≡◌, refl, ap, ◌∙◌, true, false, ◌||◌, some, List, [], ◌∷◌, ltb,
  ◌==◌, length, take, take_all, arith, Bool-cases, inl, inr, ==_iff,
}
use mxkeys_org.Merkle.{Crypto, IsSound, Digest, rebuild}
use mxkeys_org.Merkle.Levels.{rebuild_root, nonzero}
use mxkeys_org.Merkle.Inclusion.{verdict}
use mxkeys_org.Merkle.Inclusion.Completeness.{AreDigests, levels_cons, top_digest, digest_sized}
use mxkeys_org.Merkle.Consistency.{
  ConsistencyProof, boundary_walk, consistency_path, get_consistency_proof,
  verify_consistency_proof,
}

-- From a single leaf the walk over the levels finds nothing.
boundary_walk-one : (n : ℕ) (ls : List (List Digest)) → boundary_walk 1 n ls ≡ []
unfolding boundary_walk
boundary_walk-one n [] = refl
boundary_walk-one n (l ∷ []) = refl
boundary_walk-one n (l ∷ m ∷ ls) = elim (Bool-cases (ltb 1 n)) [
  | inl less ↦ rw less (ground (arith, boundary_walk-one ((n + 1) / 2) (m ∷ ls)))
  | inr done ↦ rw done refl
]

one_of_many : (n : ℕ) → (1 == suc (suc n)) ≡ false
one_of_many n = ground arith

module _ (c : Crypto) where
  rebuild_leaves : (l : List Digest) → (rebuild c l).leaves ≡ l
  unfolding rebuild
  rebuild_leaves l = elim (Bool-cases (length l == 0)) [
    | inl none_yet ↦ rw none_yet refl
    | inr some_leaf ↦ rw some_leaf refl
  ]

  abbrev proof_from : ℕ → List Digest → ConsistencyProof c.Text
  proof_from old_size l = record {
    old_size = old_size;
    new_size = length l;
    old_root = c.encode (rebuild c (take old_size l)).root;
    new_root = c.encode (rebuild c l).root;
    proof_path = consistency_path c old_size (length l) (rebuild c l).levels;
  }

  get_consistency_proof_lem :
      (old_size : ℕ) (l : List Digest)
      → 0 < old_size
      → old_size ≤ length l
      → get_consistency_proof c old_size (rebuild c l) ≡ some (proof_from old_size l)
  unfolding get_consistency_proof
  get_consistency_proof_lem old_size l lo hi =
      let inside : (old_size == 0 || ltb (length l) old_size) ≡ false = ground arith in
      rw (rebuild_leaves l) (rw inside refl)

  path_same : (n : ℕ) (ls : List (List Digest)) → consistency_path c n n ls ≡ []
  unfolding consistency_path
  path_same n ls = rw ((==_iff n n).1 refl) refl

module _ (c : Crypto) (sound : IsSound c) where
  -- From a single leaf the path is that leaf's root alone.
  path_one :
      (x y : Digest) (r : List Digest)
      → consistency_path c 1 (length {A = Digest} (x ∷ y ∷ r)) (rebuild c (x ∷ y ∷ r)).levels
        ≡ c.encode x ∷ []
  unfolding consistency_path rebuild
  path_one x y r =
      let (ls, e) = levels_cons c sound (length {A = Digest} (x ∷ y ∷ r)) (x ∷ y ∷ r) in
      rw (nonzero (suc (length r)))
        (rw e (rw (one_of_many (length r)) (rw (nonzero (length ls)) (rw boundary_walk-one refl))))

  verify_same :
      (n : ℕ) (s : c.Text)
      → 0 < n
      → verify_consistency_proof c
          (record { old_size = n; new_size = n; old_root = s; new_root = s; proof_path = [] })
        ≡ verdict true
  unfolding verify_consistency_proof
  verify_same n s h =
      let sizes : (n == 0 || ltb n n) ≡ false = ground arith in
      rw sizes (rw ((==_iff n n).1 refl) (rw ((sound.same_text_iff s s).1 refl) refl))

  root_digest : (l : List Digest) → 0 < length l → AreDigests l → length (rebuild c l).root ≡ 32
  root_digest l h a = ap length (rebuild_root c l) ∙ top_digest c sound (length l) l h a

  verify_one :
      (n : ℕ) (h k : Digest)
      → 1 < n
      → length h ≡ 32
      → length k ≡ 32
      → verify_consistency_proof c (record {
        old_size = 1;
        new_size = n;
        old_root = c.encode h;
        new_root = c.encode k;
        proof_path = c.encode h ∷ [];
      })
        ≡ verdict false
  unfolding verify_consistency_proof
  verify_one n h k more lh lk =
      let sizes : ltb n 1 ≡ false = ground arith in
      let grown : (1 == n) ≡ false = ground arith in
      let high : (n - 1 == 0) ≡ false = ground arith in
      rw sizes (
        rw grown (
          rw (digest_sized c sound h lh)
            (rw (digest_sized c sound k lk) (rw (digest_sized c sound h lh) (rw high refl)))))

  -- For its own size a tree that is not empty gives a proof that is accepted.
  pub same_size_accepted :
      (l : List Digest)
      → 0 < length l
      → (p : ConsistencyProof c.Text) × (get_consistency_proof c (length l) (rebuild c l) ≡ some p)
        × (verify_consistency_proof c p ≡ verdict true)
  same_size_accepted l h = (
    proof_from c (length l) l,
    get_consistency_proof_lem c (length l) l h (omega arith),
    rw (path_same c (length l) (rebuild c l).levels) (
        rw (take_all (length l) l (omega arith))
          (verify_same (length l) (c.encode (rebuild c l).root) h)),
  )

  -- For a tree of two leaves or more the proof that GetConsistencyProof makes from a single leaf is
  -- refused.
  pub first_leaf_refused :
      (x y : Digest) (r : List Digest)
      → AreDigests (x ∷ y ∷ r)
      → (p : ConsistencyProof c.Text) × (get_consistency_proof c 1 (rebuild c (x ∷ y ∷ r)) ≡ some p)
        × (verify_consistency_proof c p ≡ verdict false)
  unfolding rebuild
  first_leaf_refused x y r a = (
    proof_from c 1 (x ∷ y ∷ r),
    get_consistency_proof_lem c 1 (x ∷ y ∷ r) (omega arith) (omega arith),
    rw (path_one x y r) (
        verify_one (length {A = Digest} (x ∷ y ∷ r)) x (rebuild c (x ∷ y ∷ r)).root (omega arith)
          a.0 (root_digest (x ∷ y ∷ r) (omega arith) a)),
  )
