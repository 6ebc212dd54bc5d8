-- ===== src/Raft/Steps/Progress.antt =====
-- How the term and the vote of a node (internal/zero/raft) may move, and where they stay.
use mxkeys_org.Prelude.{◌≤◌, ◌<◌, ◌≡◌, refl, Bool, Option, none, some, arith, inl, ◌⊎◌}
use mxkeys_org.Raft.{Node, Wal}
use mxkeys_org.Raft.Persistence.{with_wal}

-- From `n` to `m` the term does not fall, and within a term a vote that is given stays.
pub record Progress (n m : Node) : Type 0 where
  pub later : n.current_term ≤ m.current_term
  pub steady : n.current_term ≡ m.current_term → (m.voted_for ≡ n.voted_for) ⊎ (n.voted_for ≡ "")

pub trans-Progress : (n m k : Node) → Progress n m → Progress m k → Progress n k
trans-Progress n m k p q = record {
  later = omega (arith, p.later, q.later);
  steady = λ e. ground (arith, p.later, q.later, p.steady, q.steady);
}

-- Where neither the term nor the vote is written.
pub quiet :
    (n m : Node) → m.current_term ≡ n.current_term → m.voted_for ≡ n.voted_for → Progress n m
quiet n m t v = record { later = omega arith; steady = λ _. inl v }

pub refl-Progress : (n : Node) → Progress n n
refl-Progress n = quiet n n refl refl

pub newer : (n m : Node) → n.current_term < m.current_term → Progress n m
newer n m h = record { later = omega arith; steady = λ e. absurd (omega arith) }

pub wal-quiet : (n : Node) (op : Wal → Wal × Bool) (o : Option Wal) → Progress n (with_wal n op o).0
wal-quiet n op none = refl-Progress n
wal-quiet n op (some w) = quiet n (record n { wal = some (op w).0 }) refl refl
