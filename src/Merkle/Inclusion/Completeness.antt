-- ===== src/Merkle/Inclusion/Completeness.antt =====
-- Every leaf of a tree has a proof that VerifyProof accepts (internal/zero/merkle/proof.go).
use mxkeys_org.Prelude.{
  ℕ, zero, suc, ◌/◌, ◌≤◌, ◌<◌, ◌≡◌, refl, sym, ap, true, false, Option, none, some, List, [], ◌∷◌,
  ltb, leb, ◌==◌, length, get_elem?, All, arith, Bool-cases, inl, inr, ltb→lt, ltb_false→le,
  get_elem?-inside, ==_iff,
}
use mxkeys_org.Merkle.{Crypto, IsSound, Digest, hash_node, pair_up, levels_from, top_of, rebuild}
use mxkeys_org.Merkle.Levels.{length-pair_up, rebuild_root}
use mxkeys_org.Merkle.Inclusion.{
  Proof, found, verdict, sibling_of, direction_of, AuditPath, audit, get_proof, extend_path,
  bad_direction, equal_bytes, sized, join, climb, verify_proof,
}

-- All are SHA-256 digests by their size.
abbrev pub AreDigests : List Digest → Type 0
AreDigests = All (λ h. length h ≡ 32)

digest_at :
    (l : List Digest) (i : ℕ) {h : Digest} → AreDigests l → get_elem? l i ≡ some h → length h ≡ 32
digest_at [] i a p = absurd (ground arith)
digest_at (x ∷ l) zero {h} a p = ground arith
digest_at (x ∷ l) (suc i) a p = digest_at l i a.1 p

equal_bytes_refl : (b : List ℕ) → equal_bytes b b ≡ true
unfolding equal_bytes
equal_bytes_refl [] = refl
equal_bytes_refl (x ∷ b) = ground (arith, equal_bytes_refl b)

sibling_suc : (j : ℕ) → sibling_of (suc (suc j)) ≡ suc (suc (sibling_of j))
sibling_suc j = ground arith

direction_suc : (j : ℕ) → direction_of (suc (suc j)) ≡ direction_of j
direction_suc j = ground arith

half_suc : (j : ℕ) → suc (suc j) / 2 ≡ suc (j / 2)
half_suc j = omega arith

module _ (c : Crypto) (sound : IsSound c) where
  pair_up-AreDigests : (l : List Digest) → AreDigests l → AreDigests (pair_up c l)
  unfolding pair_up hash_node
  pair_up-AreDigests [] a = tt
  pair_up-AreDigests (x ∷ []) a = a
  pair_up-AreDigests (x ∷ y ∷ l) a = (sound.digest_length _, pair_up-AreDigests l a.1.1)

  -- What a node contributes to the level above, with its sibling or promoted without one.
  abbrev joined : ℕ → Digest → Option Digest → Digest
  joined idx h none = h
  joined idx h (some s) = join c (direction_of idx) h s

  joined-suc : (j : ℕ) (h : Digest) (o : Option Digest) → joined (suc (suc j)) h o ≡ joined j h o
  joined-suc j h none = refl
  joined-suc j h (some s) = ap (λ d. join c d h s) (direction_suc j)

  -- The node above the one at `idx`.
  get_elem?-pair_up :
      (l : List Digest) (idx : ℕ) (h : Digest)
      → get_elem? l idx ≡ some h
      → get_elem? (pair_up c l) (idx / 2) ≡ some (joined idx h (get_elem? l (sibling_of idx)))
  unfolding pair_up
  get_elem?-pair_up [] idx h p = absurd (ground arith)
  get_elem?-pair_up (x ∷ []) zero h p = p
  get_elem?-pair_up (x ∷ []) (suc idx) h p = absurd (ground arith)
  get_elem?-pair_up (x ∷ y ∷ l) zero h p = ap (λ (o : Digest). some (hash_node c o y)) (cc)
  get_elem?-pair_up (x ∷ y ∷ l) (suc zero) h p = ap (λ (o : Digest). some (hash_node c x o)) (cc)
  get_elem?-pair_up (x ∷ y ∷ l) (suc (suc j)) h p =
      rw (half_suc j) (rw (sibling_suc j) (rw joined-suc (get_elem?-pair_up l j h p)))

  -- Reading back a step of the path.
  climb_step :
      (idx : ℕ) (h : Digest) (l : List Digest) (o : Option Digest) (p : AuditPath c.Text)
      (top : Digest)
      → AreDigests l
      → get_elem? l (sibling_of idx) ≡ o
      → climb c p.0 p.1 (joined idx h o) ≡ some top
      → climb c (extend_path c idx o p).0 (extend_path c idx o p).1 h ≡ some top
  unfolding climb
  climb_step idx h l none (path, dirs) top a q e = e
  climb_step idx h l (some s) (path, dirs) top a q e =
      let z : (length s == 32) ≡ true =
        (==_iff (length s) 32).1 (digest_at l (sibling_of idx) a q) in
      rw (sound.decode-encode s) (rw z e)

  pub levels_cons :
      (fuel : ℕ) (l : List Digest) → (ls : List (List Digest)) × (levels_from c fuel l ≡ l ∷ ls)
  unfolding levels_from
  levels_cons zero l = ([], refl)
  levels_cons (suc fuel) l = elim (Bool-cases (ltb 1 (length l))) [
    | inl more ↦ (levels_from c fuel (pair_up c l), rw more refl)
    | inr one ↦ ([], rw one refl)
  ]

  audit_cons :
      (idx fuel : ℕ) (l k : List Digest)
      → audit c idx (k ∷ levels_from c fuel l)
        ≡ extend_path c idx
            (get_elem? k (sibling_of idx))
            (audit c (idx / 2) (levels_from c fuel l))
  unfolding audit
  audit_cons idx fuel l k = let (ls, e) = levels_cons fuel l in rw e refl

  top_cons :
      (fuel : ℕ) (l k : List Digest)
      → top_of (k ∷ levels_from c fuel l) ≡ top_of (levels_from c fuel l)
  unfolding top_of
  top_cons fuel l k = let (ls, e) = levels_cons fuel l in rw e refl

  climb_single :
      (idx : ℕ) (l : List Digest) (h : Digest)
      → length l ≤ 1
      → get_elem? l idx ≡ some h
      → climb c (audit c idx (l ∷ [])).0 (audit c idx (l ∷ [])).1 h ≡ some (top_of (l ∷ []))
  unfolding climb audit top_of
  climb_single idx [] h one p = absurd (ground arith)
  climb_single zero (x ∷ []) h one p = sym p
  climb_single (suc idx) (x ∷ []) h one p = absurd (ground arith)
  climb_single idx (x ∷ y ∷ l) h one p = absurd (omega arith)

  single_shape :
      (idx : ℕ) (l : List Digest)
      → (length (audit c idx (l ∷ [])).0 ≡ length (audit c idx (l ∷ [])).1)
        × (bad_direction (audit c idx (l ∷ [])).1 ≡ false)
  unfolding audit bad_direction
  single_shape idx l = (refl, refl)

  extend_shape :
      (idx : ℕ) (o : Option Digest) (p : AuditPath c.Text)
      → (length p.0 ≡ length p.1) × (bad_direction p.1 ≡ false)
      → (length (extend_path c idx o p).0 ≡ length (extend_path c idx o p).1)
        × (bad_direction (extend_path c idx o p).1 ≡ false)
  unfolding bad_direction
  extend_shape idx none p h = h
  extend_shape idx (some s) (path, dirs) h = (ap suc h.0, ground arith)

  -- The path from a node leads to the root.
  climb-audit :
      (fuel idx : ℕ) (l : List Digest) (h : Digest)
      → length l ≤ fuel
      → AreDigests l
      → get_elem? l idx ≡ some h
      → climb c (audit c idx (levels_from c fuel l)).0 (audit c idx (levels_from c fuel l)).1 h
        ≡ some (top_of (levels_from c fuel l))
  unfolding levels_from
  climb-audit zero idx l h f a p = absurd (omega (arith, get_elem?-inside l idx p))
  climb-audit (suc fuel) idx l h f a p = elim (Bool-cases (ltb 1 (length l))) [
    | inl more ↦ rw more (
        rw (audit_cons idx fuel (pair_up c l) l) (
          rw (top_cons fuel (pair_up c l) l) (
            climb_step idx h l (get_elem? l (sibling_of idx))
              (audit c (idx / 2) (levels_from c fuel (pair_up c l)))
              (top_of (levels_from c fuel (pair_up c l))) a refl
              (climb-audit fuel (idx / 2) (pair_up c l)
                (joined idx h (get_elem? l (sibling_of idx)))
                (omega (arith, length-pair_up c l, ltb→lt _ _ more)) (pair_up-AreDigests l a)
                (get_elem?-pair_up l idx h p)))))
    | inr one ↦ rw one (climb_single idx l h (ltb_false→le _ _ one) p)
  ]

  audit_shape :
      (fuel idx : ℕ) (l : List Digest)
      → (length (audit c idx (levels_from c fuel l)).0
          ≡ length (audit c idx (levels_from c fuel l)).1)
        × (bad_direction (audit c idx (levels_from c fuel l)).1 ≡ false)
  unfolding levels_from
  audit_shape zero idx l = single_shape idx l
  audit_shape (suc fuel) idx l = elim (Bool-cases (ltb 1 (length l))) [
    | inl more ↦ rw more (
        rw (audit_cons idx fuel (pair_up c l) l) (
          extend_shape idx (get_elem? l (sibling_of idx))
            (audit c (idx / 2) (levels_from c fuel (pair_up c l)))
            (audit_shape fuel (idx / 2) (pair_up c l))))
    | inr one ↦ rw one (single_shape idx l)
  ]

  pub digest_sized : (h : Digest) → length h ≡ 32 → sized (c.decode (c.encode h)) ≡ some h
  digest_sized h e = rw (sound.decode-encode h) (rw ((==_iff (length h) 32).1 e) refl)

  pub top_digest :
      (fuel : ℕ) (l : List Digest)
      → 0 < length l
      → AreDigests l
      → length (top_of (levels_from c fuel l)) ≡ 32
  unfolding levels_from top_of
  top_digest fuel [] lo a = absurd (omega arith)
  top_digest zero (x ∷ l) lo a = a.0
  top_digest (suc fuel) (x ∷ l) lo a = elim (Bool-cases (ltb 1 (length {A = Digest} (x ∷ l)))) [
    | inl more ↦ rw more (
        rw (top_cons fuel (pair_up c (x ∷ l)) (x ∷ l)) (
          top_digest fuel (pair_up c (x ∷ l)) (omega (arith, length-pair_up c (x ∷ l)))
            (pair_up-AreDigests (x ∷ l) a)))
    | inr one ↦ rw one a.0
  ]

  -- The proof that GetProof makes for a leaf of a tree that is not empty.
  abbrev proof_for : ℕ → List Digest → Digest → Proof c.Text
  proof_for index l h =
      let levels = levels_from c (length l) l in
      record {
        leaf_index = index;
        leaf_hash = c.encode h;
        tree_size = length l;
        root_hash = c.encode (top_of levels);
        audit_path = (audit c index levels).0;
        directions = (audit c index levels).1;
      }

  get_proof_lem :
      (index : ℕ) (l : List Digest) (h : Digest)
      → get_elem? l index ≡ some h
      → get_proof c index (rebuild c l) ≡ found (proof_for index l h)
  unfolding get_proof rebuild
  get_proof_lem index l h p =
      let some_leaf : (length l == 0) ≡ false = ground (arith, get_elem?-inside l index p) in
      let inside : leb (length l) index ≡ false = ground (arith, get_elem?-inside l index p) in
      rw some_leaf (rw some_leaf (rw inside (rw p refl)))

  verify_proof_for :
      (index : ℕ) (l : List Digest) (h : Digest)
      → AreDigests l
      → get_elem? l index ≡ some h
      → verify_proof c (proof_for index l h) ≡ verdict true
  unfolding verify_proof
  verify_proof_for index l h a p =
      let inside : index < length l = get_elem?-inside l index p in
      let levels = levels_from c (length l) l in
      let top = top_of levels in
      let shape = audit_shape (length l) index l in
      let fit : (length (audit c index levels).0 == length (audit c index levels).1) ≡ true =
        (==_iff _ _).1 shape.0 in
      let some_leaf : (length l == 0) ≡ false = ground arith in
      let in_tree : leb (length l) index ≡ false = ground arith in
      let leaf = digest_sized h (digest_at l index a p) in
      let root = digest_sized top (top_digest (length l) l (omega arith) a) in
      let path = climb-audit (length l) index l h (omega arith) a p in
      rw fit (
        rw some_leaf
          (rw in_tree (rw leaf (rw root (rw shape.1 (rw path (rw (equal_bytes_refl top) refl)))))))

  -- Every leaf of a tree over digests has a proof, for its own index and hash, that is accepted.
  pub get_proof-verify_proof :
      (index : ℕ) (l : List Digest) (h : Digest)
      → AreDigests l
      → get_elem? l index ≡ some h
      → (p : Proof c.Text) × (get_proof c index (rebuild c l) ≡ found p)
        × (p.leaf_index ≡ index)
        × (p.leaf_hash ≡ c.encode h)
        × (p.root_hash ≡ c.encode (rebuild c l).root)
        × (verify_proof c p ≡ verdict true)
  get_proof-verify_proof index l h a p = (
    proof_for index l h,
    get_proof_lem index l h p,
    refl,
    refl,
    ap c.encode (sym (rebuild_root c l)),
    verify_proof_for index l h a p,
  )
