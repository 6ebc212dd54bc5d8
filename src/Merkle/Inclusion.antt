-- ===== src/Merkle/Inclusion.antt =====
-- internal/zero/merkle/proof.go: proofs of inclusion.
pub mod Completeness
pub mod Binding
use mxkeys_org.Prelude.{
  ℕ, zero, suc, ◌+◌, ◌-◌, ◌/◌, ◌%◌, ◌<◌, Bool, true, false, not, ◌&&◌, ◌||◌, Option, none, some,
  List, [], ◌∷◌, ltb, leb, ◌==◌, if◌then◌else◌, length, get_elem?,
}
use mxkeys_org.Merkle.{Crypto, Digest, Tree, hash_node}

-- Proof; a negative index or size is a malformed proof, which the numbers here do not have.
pub record Proof (Text : Type 0) : Type 0 where
  pub leaf_index : ℕ
  pub leaf_hash : Text
  pub tree_size : ℕ
  pub root_hash : Text
  pub audit_path : List Text
  pub directions : List ℕ

pub data ProofError : Type 0 where
  empty_tree invalid_index : ProofError

pub data Fetched (Text : Type 0) : Type 0 where
  found : Proof Text → Fetched Text
  refused : ProofError → Fetched Text

-- VerifyProof's results: ErrInvalidProof, or the verdict.
pub data Verdict : Type 0 where
  malformed : Verdict
  verdict : Bool → Verdict

abbrev pub sibling_of : ℕ → ℕ
sibling_of idx = if idx % 2 == 0 then idx + 1 else idx - 1

abbrev pub direction_of : ℕ → ℕ
direction_of idx = if idx % 2 == 0 then 1 else 0

abbrev pub AuditPath : Type 0 → Type 0
AuditPath Text = List Text × List ℕ

abbrev pub or_empty : Option Digest → Digest
or_empty none = []
or_empty (some h) = h

module _ (c : Crypto) where
  abbrev pub extend_path : ℕ → Option Digest → AuditPath c.Text → AuditPath c.Text
  extend_path idx none p = p
  extend_path idx (some h) (path, dirs) = (c.encode h ∷ path, direction_of idx ∷ dirs)

  -- The loop of GetProof over all levels but the last.
  unfoldable pub audit : ℕ → List (List Digest) → AuditPath c.Text
  audit idx [] = ([], [])
  audit idx (l ∷ []) = ([], [])
  audit idx (l ∷ m ∷ ls) = extend_path idx (get_elem? l (sibling_of idx)) (audit (idx / 2) (m ∷ ls))

  unfoldable pub get_proof : ℕ → Tree → Fetched c.Text
  unfolding audit
  get_proof index t =
      if length t.leaves == 0
      then refused empty_tree
      else if leb (length t.leaves) index
      then refused invalid_index
      else (let (path, dirs) = audit index t.levels in
          found (record {
            leaf_index = index;
            leaf_hash = c.encode (or_empty (get_elem? t.leaves index));
            tree_size = length t.leaves;
            root_hash = c.encode t.root;
            audit_path = path;
            directions = dirs;
          }))

-- `dir != 0 && dir != 1` for some direction.
unfoldable pub bad_direction : List ℕ → Bool
bad_direction [] = false
bad_direction (d ∷ ds) = if not (d == 0) && not (d == 1) then true else bad_direction ds

-- The OR of the XORs of the bytes is 0 exactly if the bytes agree.
unfoldable pub equal_bytes : List ℕ → List ℕ → Bool
equal_bytes [] [] = true
equal_bytes (x ∷ xs) (y ∷ ys) = if x == y then equal_bytes xs ys else false
equal_bytes [] (y ∷ ys) = false
equal_bytes (x ∷ xs) [] = false

-- A decoded value that must have the size of a SHA-256 digest.
abbrev pub sized : Option (List ℕ) → Option Digest
sized none = none
sized (some b) = if length b == 32 then some b else none

module _ (c : Crypto) where
  abbrev pub join : ℕ → Digest → Digest → Digest
  join dir current sibling =
      if dir == 0 then hash_node c sibling current else hash_node c current sibling

  abbrev pub join_all : (Digest → Option Digest) → ℕ → Digest → Option Digest → Option Digest
  join_all rest dir current none = none
  join_all rest dir current (some sibling) = rest (join dir current sibling)

  -- The loop of VerifyProof; `none` is a sibling that does not decode to a digest.
  unfoldable pub climb : List c.Text → List ℕ → Digest → Option Digest
  climb [] dirs current = some current
  climb (t ∷ ts) [] current = some current
  climb (t ∷ ts) (d ∷ ds) current = join_all (climb ts ds) d current (sized (c.decode t))

  abbrev pub compare_root : Digest → Option Digest → Verdict
  compare_root expected none = malformed
  compare_root expected (some computed) = verdict (equal_bytes computed expected)

  abbrev pub check_hashes : Proof c.Text → Option Digest → Option Digest → Verdict
  check_hashes p none root = malformed
  check_hashes p (some leaf) none = malformed
  check_hashes p (some leaf) (some root) =
      if bad_direction p.directions
      then malformed
      else compare_root root (climb p.audit_path p.directions leaf)

  unfoldable pub verify_proof : Proof c.Text → Verdict
  unfolding climb bad_direction equal_bytes
  verify_proof p =
      if not (length p.audit_path == length p.directions)
      then malformed
      else if p.tree_size == 0 || leb p.tree_size p.leaf_index
      then malformed
      else check_hashes p (sized (c.decode p.leaf_hash)) (sized (c.decode p.root_hash))
