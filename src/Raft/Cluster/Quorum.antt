-- ===== src/Raft/Cluster/Quorum.antt =====
-- Two majorities of one group share a member.
use bonsaigrid.Base.{
  ℕ, zero, suc, ◌+◌, ◌≤◌, ◌<◌, ◌≡◌, refl, Bool, true, false, List, [], ◌∷◌, length, get_or, arith,
}
use bonsaigrid.Raft.Node.{count_true, max_peer}
use bonsaigrid.Raft.Cluster.{count_from}

count_true-le-length : (xs : List Bool) → count_true xs ≤ length xs
unfolding count_true
count_true-le-length [] = omega arith
count_true-le-length (true ∷ xs) = omega (arith, count_true-le-length xs)
count_true-le-length (false ∷ xs) = omega (arith, count_true-le-length xs)

later :
    (x y : Bool) (xs ys : List Bool)
    → (v : ℕ) × (get_or xs v false ≡ true) × (get_or ys v false ≡ true)
    → (v : ℕ) × (get_or (x ∷ xs) v false ≡ true) × (get_or (y ∷ ys) v false ≡ true)
later x y xs ys (v, p, q) = (suc v, p, q)

pub quorums_meet :
    (xs ys : List Bool)
    → length xs ≡ length ys
    → length xs < count_true xs + count_true ys
    → (v : ℕ) × (get_or xs v false ≡ true) × (get_or ys v false ≡ true)
unfolding count_true
quorums_meet [] [] e h = absurd (omega arith)
quorums_meet [] (y ∷ ys) e h = absurd (omega arith)
quorums_meet (x ∷ xs) [] e h = absurd (omega arith)
quorums_meet (true ∷ xs) (true ∷ ys) e h = (0, refl, refl)
quorums_meet (true ∷ xs) (false ∷ ys) e h =
    later true false xs ys (quorums_meet xs ys (omega arith) (omega arith))
quorums_meet (false ∷ xs) (true ∷ ys) e h =
    later false true xs ys (quorums_meet xs ys (omega arith) (omega arith))
quorums_meet (false ∷ xs) (false ∷ ys) e h =
    later false false xs ys (quorums_meet xs ys (omega arith) (omega arith))

pub length-count_from : (s k : ℕ) → length (count_from s k) ≡ k
length-count_from s zero = refl
length-count_from s (suc k) = omega (arith, length-count_from (suc s) k)

pub max_peer-count_from : (s k : ℕ) → max_peer (count_from s (suc k)) ≡ s + k
unfolding max_peer
max_peer-count_from s zero = omega arith
max_peer-count_from s (suc k) = omega (arith, max_peer-count_from (suc s) k)
