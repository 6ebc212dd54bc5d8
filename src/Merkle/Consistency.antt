-- ===== src/Merkle/Consistency.antt =====
-- internal/zero/merkle/consistency.go: proofs that an older tree is a prefix of a newer one.
pub mod Growth
use mxkeys_org.Prelude.{
  ℕ, zero, suc, ◌+◌, ◌-◌, ◌/◌, ◌%◌, ◌<◌, Bool, true, false, not, ◌&&◌, ◌||◌, Option, none, some,
  List, [], ◌∷◌, ltb, leb, ◌==◌, if◌then◌else◌, length, get_elem?, take,
}
use mxkeys_org.Merkle.{Crypto, Digest, Tree, hash_node, rebuild}
use mxkeys_org.Merkle.Inclusion.{Verdict, malformed, verdict, sized, equal_bytes}

pub record ConsistencyProof (Text : Type 0) : Type 0 where
  pub old_size : ℕ
  pub new_size : ℕ
  pub old_root : Text
  pub new_root : Text
  pub proof_path : List Text

abbrev pub cons_found : Option Digest → List Digest → List Digest
cons_found none l = l
cons_found (some x) l = x ∷ l

-- The node that a level adds to the path, if any.
unfoldable pub boundary_node : ℕ → List Digest → Option Digest
boundary_node sub_m nodes =
    if ltb sub_m (length nodes) && sub_m % 2 == 0 && leb (sub_m + 1) (length nodes)
    then (if ltb (sub_m + 1) (length nodes)
        then get_elem? nodes (sub_m + 1)
        else get_elem? nodes sub_m)
    else none

-- The loop of consistencyPath, over all levels but the last.
unfoldable pub boundary_walk : ℕ → ℕ → List (List Digest) → List Digest
unfolding boundary_node
boundary_walk sub_m sub_n [] = []
boundary_walk sub_m sub_n (l ∷ []) = []
boundary_walk sub_m sub_n (l ∷ m ∷ ls) =
    let rest = boundary_walk ((sub_m + 1) / 2) ((sub_n + 1) / 2) (m ∷ ls) in
    if ltb sub_m sub_n then cons_found (boundary_node sub_m l) rest else []

abbrev map_text : (c : Crypto) → List Digest → List c.Text
map_text c [] = []
map_text c (h ∷ hs) = c.encode h ∷ map_text c hs

abbrev first_level : List (List Digest) → List Digest
first_level [] = []
first_level (l ∷ _) = l

-- `for fn&1 == 1`, on fuel.
unfoldable pub strip_odd : ℕ → ℕ → ℕ → ℕ × ℕ
strip_odd zero fn sn = (fn, sn)
strip_odd (suc fuel) fn sn =
    let rest = strip_odd fuel (fn / 2) (sn / 2) in if fn % 2 == 1 then rest else (fn, sn)

-- `for fn != 0 && fn&1 == 0`, on fuel.
unfoldable pub strip_even : ℕ → ℕ → ℕ → ℕ × ℕ
strip_even zero fn sn = (fn, sn)
strip_even (suc fuel) fn sn =
    let rest = strip_even fuel (fn / 2) (sn / 2) in
    if not (fn == 0) && fn % 2 == 0 then rest else (fn, sn)

-- The variables of the verifying loop.
pub record Climb : Type 0 where
  pub fn : ℕ
  pub sn : ℕ
  pub fr : Digest
  pub sr : Digest

abbrev pub both : Option Digest → Option (List Digest) → Option (List Digest)
both none o = none
both (some h) none = none
both (some h) (some hs) = some (h ∷ hs)

module _ (c : Crypto) where
  -- consistencyPath
  unfoldable pub consistency_path : ℕ → ℕ → List (List Digest) → List c.Text
  unfolding boundary_walk
  consistency_path m n levels =
      if m == n || length levels == 0
      then []
      else c.encode (rebuild c (take m (first_level levels))).root
        ∷ map_text c (boundary_walk m n levels)

  -- GetConsistencyProof; `none` is ErrInvalidIndex.
  unfoldable pub get_consistency_proof : ℕ → Tree → Option (ConsistencyProof c.Text)
  unfolding consistency_path
  get_consistency_proof old_size t =
      if old_size == 0 || ltb (length t.leaves) old_size
      then none
      else some (record {
        old_size = old_size;
        new_size = length t.leaves;
        old_root = c.encode (rebuild c (take old_size t.leaves)).root;
        new_root = c.encode t.root;
        proof_path = consistency_path old_size (length t.leaves) t.levels;
      })

  abbrev pub sized_all : List c.Text → Option (List Digest)
  sized_all [] = some []
  sized_all (t ∷ ts) = both (sized (c.decode t)) (sized_all ts)

  -- One round of the loop over path[1:].
  unfoldable pub climb_round : Digest → Climb → Climb
  unfolding strip_even
  climb_round h k =
      if k.fn % 2 == 1 || k.fn == k.sn
      then (let (fn, sn) = strip_even (k.fn + 1) k.fn k.sn in
          record { fn = fn / 2; sn = sn / 2; fr = hash_node c h k.fr; sr = hash_node c h k.sr })
      else record { fn = k.fn / 2; sn = k.sn / 2; fr = k.fr; sr = hash_node c k.sr h }

  -- The loop; `none` is the early answer `false`.
  unfoldable pub climb_all : List Digest → Climb → Option Climb
  unfolding climb_round
  climb_all [] k = some k
  climb_all (h ∷ hs) k =
      let rest = climb_all hs (climb_round h k) in if k.sn == 0 then none else rest

  abbrev compare_roots : Digest → Digest → Option Climb → Verdict
  compare_roots old new none = verdict false
  compare_roots old new (some k) =
      if k.sn == 0 then verdict (equal_bytes k.fr old && equal_bytes k.sr new) else verdict false

  abbrev walk_path : ℕ → ℕ → Digest → Digest → Option (List Digest) → Verdict
  walk_path old_size new_size old new none = malformed
  walk_path old_size new_size old new (some []) = malformed
  walk_path old_size new_size old new (some (h ∷ hs)) =
      let (fn, sn) = strip_odd old_size (old_size - 1) (new_size - 1) in
      compare_roots old new (climb_all hs (record { fn = fn; sn = sn; fr = h; sr = h }))

  abbrev check_roots : ConsistencyProof c.Text → Option Digest → Option Digest → Verdict
  check_roots p none new = malformed
  check_roots p (some old) none = malformed
  check_roots p (some old) (some new) =
      walk_path p.old_size p.new_size old new (sized_all p.proof_path)

  unfoldable pub verify_consistency_proof : ConsistencyProof c.Text → Verdict
  unfolding strip_odd climb_all equal_bytes
  verify_consistency_proof p =
      if p.old_size == 0 || ltb p.new_size p.old_size
      then malformed
      else if p.old_size == p.new_size
      then verdict (c.same_text p.old_root p.new_root && length p.proof_path == 0)
      else check_roots p (sized (c.decode p.old_root)) (sized (c.decode p.new_root))
