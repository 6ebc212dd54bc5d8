-- ===== src/Merkle/Inclusion/Binding.antt =====
-- What an accepted proof of inclusion binds (internal/zero/merkle/proof.go): a second leaf at the same
-- place under the same root would show a collision of SHA-256.
use native.Mathlib.Decide.{ℕ_discrete}
use mxkeys_org.Prelude.{
  ℕ, ◌≡◌, ◌≢◌, refl, sym, ap, ◌∙◌, Bool, true, false, not, ◌||◌, Option, none, some, List, [], ◌∷◌,
  ◌++◌, leb, ◌==◌, if◌then◌else◌, length, arith, Bool-cases, Option-cases, inl, inr, ◌⊎◌,
}
use mxkeys_org.Merkle.{Crypto, Digest, hash_node}
use mxkeys_org.Merkle.Inclusion.{
  Proof, Verdict, malformed, verdict, bad_direction, equal_bytes, sized, join, climb, verify_proof,
  compare_root, check_hashes,
}

-- Two messages with one digest.
abbrev pub Collision : Crypto → Type 0
Collision c = (m : List ℕ) × (m' : List ℕ) × (m ≢ m') × (c.sha256 m ≡ c.sha256 m')

bytes_discrete : Discrete (List ℕ)
bytes_discrete = hlevel ℕ_discrete

append_injective : (s t x y : List ℕ) → length s ≡ length t → s ++ x ≡ t ++ y → (s ≡ t) × (x ≡ y)
append_injective [] [] x y h e = (refl, e)
append_injective [] (b ∷ t) x y h e = absurd (omega arith)
append_injective (a ∷ s) [] x y h e = absurd (omega arith)
append_injective (a ∷ s) (b ∷ t) x y h e =
    let r = append_injective s t x y (omega arith) (cc) in (cc (r.0), r.1)

equal_bytes_sound : (x y : List ℕ) → equal_bytes x y ≡ true → x ≡ y
unfolding equal_bytes
equal_bytes_sound [] [] h = refl
equal_bytes_sound [] (b ∷ y) h = cc
equal_bytes_sound (a ∷ x) [] h = cc
equal_bytes_sound (a ∷ x) (b ∷ y) h = ground (arith, equal_bytes_sound x y)

sized-length :
    (o : Option (List ℕ)) {h : Digest} → sized o ≡ some h → (o ≡ some h) × (length h ≡ 32)
sized-length none e = absurd (ground arith)
sized-length (some b) e = ground arith

not_malformed : malformed ≡ verdict true → ⊥
not_malformed q = cc

guard :
    (b : Bool) (v : Verdict)
    → (if b then malformed else v) ≡ verdict true
    → (b ≡ false) × (v ≡ verdict true)
guard true v e = absurd (not_malformed e)
guard false v e = (refl, e)

module _ (c : Crypto) where
  node_binds :
      (s t x y : Digest)
      → length s ≡ length t
      → hash_node c s x ≡ hash_node c t y
      → ((s ≡ t) × (x ≡ y)) ⊎ Collision c
  unfolding hash_node
  node_binds s t x y h e = elim (bytes_discrete (1 ∷ (s ++ x)) (1 ∷ (t ++ y))) [
    | yes same ↦ inl (append_injective s t x y h (cc))
    | no other ↦ inr (1 ∷ (s ++ x), 1 ∷ (t ++ y), other, e)
  ]

  join_binds :
      (d : ℕ) (x y s t : Digest)
      → length x ≡ length y
      → length s ≡ length t
      → join c d x s ≡ join c d y t
      → (x ≡ y) ⊎ Collision c
  join_binds d x y s t h k e = elim (Bool-cases (d == 0)) [
    | inl left ↦ elim (node_binds s t x y k (rw left at e)) [ inl q ↦ inl q.1 | inr col ↦ inr col ]
    | inr right ↦ elim (node_binds x y s t h (rw right at e)) [
      | inl q ↦ inl q.0
      | inr col ↦ inr col
    ]
  ]

  -- The first sibling of a path that leads to a root.
  climb_cons :
      (t : c.Text) (ts : List c.Text) (d : ℕ) (ds : List ℕ) (x r : Digest)
      → climb c (t ∷ ts) (d ∷ ds) x ≡ some r
      → (s : Digest) × (length s ≡ 32) × (climb c ts ds (join c d x s) ≡ some r)
  unfolding climb
  climb_cons t ts d ds x r e = elim (Option-cases (sized (c.decode t))) [
    | inl bad ↦ absurd (none_some (rw bad at e))
    | inr (s, good) ↦ (s, (sized-length (c.decode t) good).1, rw good at e)
  ]
    where
      none_some : none ≡ some r → ⊥
      none_some q = cc

  digest_length-join :
      (d : ℕ) (x s : Digest)
      → ((m : List ℕ) → length (c.sha256 m) ≡ 32)
      → length (join c d x s) ≡ 32
  unfolding hash_node
  digest_length-join d x s h = elim (Bool-cases (d == 0)) [
    | inl left ↦ rw left (h _)
    | inr right ↦ rw right (h _)
  ]

  climb_binds :
      (ts us : List c.Text) (ds : List ℕ) (x y r : Digest)
      → ((m : List ℕ) → length (c.sha256 m) ≡ 32)
      → length ts ≡ length ds
      → length us ≡ length ds
      → length x ≡ 32
      → length y ≡ 32
      → climb c ts ds x ≡ some r
      → climb c us ds y ≡ some r
      → (x ≡ y) ⊎ Collision c
  unfolding climb
  climb_binds [] [] [] x y r dl h k hx hy e f = inl (cc)
  climb_binds [] (u ∷ us) [] x y r dl h k hx hy e f = absurd (omega arith)
  climb_binds [] us (d ∷ ds) x y r dl h k hx hy e f = absurd (omega arith)
  climb_binds (t ∷ ts) us [] x y r dl h k hx hy e f = absurd (omega arith)
  climb_binds (t ∷ ts) [] (d ∷ ds) x y r dl h k hx hy e f = absurd (omega arith)
  climb_binds (t ∷ ts) (u ∷ us) (d ∷ ds) x y r dl h k hx hy e f =
      let (s, ls, e') = climb_cons t ts d ds x r e in
      let (v, lv, f') = climb_cons u us d ds y r f in
      elim (climb_binds ts us ds (join c d x s) (join c d y v) r dl (omega arith) (omega arith)
        (digest_length-join d x s dl) (digest_length-join d y v dl) e' f') [
          | inl same ↦ join_binds d x y s v (hx ∙ sym hy) (ls ∙ sym lv) same
          | inr col ↦ inr col
        ]

  -- What an accepted proof shows.
  record Accepted (p : Proof c.Text) : Type 0 where
    leaf : Digest
    root : Digest
    decoded_leaf : c.decode p.leaf_hash ≡ some leaf
    decoded_root : c.decode p.root_hash ≡ some root
    leaf_size : length leaf ≡ 32
    lengths : length p.audit_path ≡ length p.directions
    climbs : climb c p.audit_path p.directions leaf ≡ some root

  compare_accepts :
      (root : Digest) (o : Option Digest) → compare_root c root o ≡ verdict true → o ≡ some root
  compare_accepts root none e = absurd (not_malformed e)
  compare_accepts root (some h) e = ap some (equal_bytes_sound h root (cc e))

  hashes_accept :
      (p : Proof c.Text) (leaf root : Option (List ℕ))
      → c.decode p.leaf_hash ≡ leaf
      → c.decode p.root_hash ≡ root
      → length p.audit_path ≡ length p.directions
      → (x y : Option Digest) → sized leaf ≡ x
      → sized root ≡ y
      → check_hashes c p x y ≡ verdict true
      → Accepted p
  hashes_accept p leaf root dl dr len none y q r e = absurd (not_malformed e)
  hashes_accept p leaf root dl dr len (some h) none q r e = absurd (not_malformed e)
  hashes_accept p leaf root dl dr len (some h) (some k) q r e =
      let g =
        guard (bad_direction p.directions) (compare_root c k (climb c p.audit_path p.directions h))
          e in
      record {
        leaf = h;
        root = k;
        decoded_leaf = dl ∙ (sized-length leaf q).0;
        decoded_root = dr ∙ (sized-length root r).0;
        leaf_size = (sized-length leaf q).1;
        lengths = len;
        climbs = compare_accepts k (climb c p.audit_path p.directions h) g.1;
      }

  accepted : (p : Proof c.Text) → verify_proof c p ≡ verdict true → Accepted p
  unfolding verify_proof
  accepted p e =
      let leaf = sized (c.decode p.leaf_hash) in
      let root = sized (c.decode p.root_hash) in
      let rest =
        if p.tree_size == 0 || leb p.tree_size p.leaf_index
        then malformed
        else check_hashes c p leaf root in
      let g = guard (not (length p.audit_path == length p.directions)) rest e in
      let g' =
        guard (p.tree_size == 0 || leb p.tree_size p.leaf_index) (check_hashes c p leaf root) g.1 in
      hashes_accept p (c.decode p.leaf_hash) (c.decode p.root_hash) refl refl (ground (arith, g.0))
        leaf root refl refl g'.1

  -- Two accepted proofs with the same root and the same directions along their paths are for the same leaf, or they
  -- show two messages with one digest. The leaf index and the tree size that a proof names are not bound.
  pub verify_proof_binds :
      (p q : Proof c.Text)
      → ((m : List ℕ) → length (c.sha256 m) ≡ 32)
      → verify_proof c p ≡ verdict true
      → verify_proof c q ≡ verdict true
      → p.root_hash ≡ q.root_hash
      → p.directions ≡ q.directions
      → (c.decode p.leaf_hash ≡ c.decode q.leaf_hash) ⊎ Collision c
  verify_proof_binds p q dl e f same_root same_dirs =
      let a = accepted p e in
      let b = accepted q f in
      let roots : some a.root ≡ some b.root =
        sym a.decoded_root ∙ ap c.decode same_root ∙ b.decoded_root in
      elim (climb_binds p.audit_path q.audit_path q.directions a.leaf b.leaf b.root dl
        (a.lengths ∙ ap length same_dirs) b.lengths a.leaf_size b.leaf_size
        (rw (sym same_dirs) (a.climbs ∙ roots)) b.climbs) [
          | inl same ↦ inl (a.decoded_leaf ∙ ap some same ∙ sym b.decoded_leaf)
          | inr col ↦ inr col
        ]
