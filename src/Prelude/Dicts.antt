-- ===== src/Prelude/Dicts.antt =====
-- Go's `map[string]V` as an association list that holds a key at most once.
use Prim.Native.Nat.{suc, ◌≤◌}
use Prim.Native.String.{String}
use mathlib.Core.Path.{◌≡◌}
use mathlib.Core.Option.{Option, none, some}
use mathlib.Core.List.{List, [], ◌∷◌}
use native.Mathlib.Omega.{arith}
use text.Mathlib.Text.{◌==◌ as str_eq}
use text.Mathlib.TextEquality.{eq_iff}
use mxkeys_org.Prelude.Tests.{if◌then◌else◌}
use mxkeys_org.Prelude.Lists.{length}

abbrev pub Dict {ℓ} : Type ℓ → Type ℓ
Dict V = List (String × V)

module _ {ℓ} {V : Type ℓ} where
  -- v, ok := m[k]
  unfoldable pub find : String → Dict V → Option V
  find k [] = none
  find k ((j, v) ∷ m) = if str_eq j k then some v else find k m

  -- delete(m, k)
  unfoldable pub remove : String → Dict V → Dict V
  remove k [] = []
  remove k ((j, v) ∷ m) = let rest = remove k m in if str_eq j k then rest else (j, v) ∷ rest

  -- m[k] = v
  unfoldable pub assign : String → V → Dict V → Dict V
  assign k v m = (k, v) ∷ remove k m

  pub find-remove :
      (k j : String) (m : Dict V) → find j (remove k m) ≡ (if str_eq k j then none else find j m)
  unfolding find remove
  find-remove k j [] = ground arith
  find-remove k j ((i, v) ∷ m) =
      ground (arith, find-remove k j m, eq_iff i k, eq_iff i j, eq_iff k j)

  pub find-assign :
      (k j : String) (v : V) (m : Dict V)
      → find j (assign k v m) ≡ (if str_eq k j then some v else find j m)
  unfolding find assign
  find-assign k j v m = ground (arith, find-remove k j m)

  pub length-remove : (k : String) (m : Dict V) → length (remove k m) ≤ length m
  unfolding remove
  length-remove k [] = omega arith
  length-remove k ((j, v) ∷ m) = ground (arith, length-remove k m)

  -- Deleting a key that is there makes the map smaller.
  pub length-remove_found :
      (k : String) (v : V) (m : Dict V) → find k m ≡ some v → suc (length (remove k m)) ≤ length m
  unfolding remove find
  length-remove_found k v [] h = absurd (ground arith)
  length-remove_found k v ((j, w) ∷ m) h =
      ground (arith, length-remove k m, length-remove_found k v m)
