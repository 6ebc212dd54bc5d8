-- ===== src/Notary/Queries/Counts.antt =====
-- internal/keys/notary_query.go: every server of a request is answered or has a failure.
use mathlib.Core.List.{Memᴰ}
use mxkeys_org.Prelude.{ℕ, ◌+◌, ◌≡◌, String, List, length, All}
use mxkeys_org.Notary.Queries.{Answer}
use mxkeys_org.Notary.Queries.Names.{IsDistinct}

-- What sort.Strings keeps of its input: the length, the names, that no name occurs twice,
-- and what holds of every name.
pub record IsSort (sort : List String → List String) : Type 1 where
  pub keeps_length : (ns : List String) → length (sort ns) ≡ length ns
  pub keeps_distinct : (ns : List String) → IsDistinct ns → IsDistinct (sort ns)
  pub keeps_members : (n : String) (ns : List String) → Memᴰ n ns → Memᴰ n (sort ns)
  pub keeps_all : (P : String → Type 0) (ns : List String) → All P ns → All P (sort ns)

-- How many servers an answer speaks of.
abbrev pub answered : Answer → ℕ
answered a = length a.server_keys + length a.failures
