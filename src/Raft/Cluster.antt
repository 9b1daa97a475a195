-- ===== src/Raft/Cluster.antt =====
-- A group of nodes of crates/raft/src/lib.rs that exchange messages, as the simulation in
-- crates/raft/tests/common drives them. Every packet that was ever sent stays deliverable, so loss,
-- delay, duplication and reordering are all schedules of the relation `Step`.
pub mod Quorum
pub mod Invariant
pub mod Preservation
pub mod Safety
use bonsaigrid.Base.{
  Elem, ℕ, zero, suc, ◌+◌, ◌<◌, ◌≡◌, ◌⊎◌, Option, none, some, List, [], ◌∷◌, ◌++◌, map, ◌==◌,
  if◌then◌else◌, u64_mod,
}
use bonsaigrid.Raft.Log.{RaftLog, empty}
use bonsaigrid.Raft.Node.{RaftMsg, RaftNode, Outcome}
use bonsaigrid.Raft.Node.Timers.{new}
use bonsaigrid.Raft.Node.Replication.{propose, take_committed, maybe_compact}
use bonsaigrid.Raft.Node.Handlers.{step, tick}

abbrev pub count_from : ℕ → ℕ → List ℕ
count_from s zero = []
count_from s (suc k) = s ∷ count_from (suc s) k

-- The members of a group are `0 .. size`.
abbrev pub members : ℕ → List ℕ
members size = count_from 0 size

pub record Packet : Type 0 where
  pub from : ℕ
  pub to : ℕ
  pub msg : RaftMsg

-- A vote that a member has stood by, kept in the history of the group.
pub record Ballot : Type 0 where
  pub voter : ℕ
  pub term : ℕ
  pub cand : ℕ

pub record Cluster : Type 0 where
  pub nodes : ℕ → RaftNode
  pub sent : List Packet
  pub ballots : List Ballot

abbrev pub cast : ℕ → ℕ → Option ℕ → List Ballot → List Ballot
cast voter term none bs = bs
cast voter term (some c) bs = record { voter = voter; term = term; cand = c } ∷ bs

abbrev pub packets : ℕ → List (ℕ × RaftMsg) → List Packet → List Packet
packets i [] ps = ps
packets i ((to, msg) ∷ out) ps = record { from = i; to = to; msg = msg } ∷ packets i out ps

-- Member `i` has run a handler.
unfoldable pub after : Cluster → ℕ → RaftNode → List (ℕ × RaftMsg) → Cluster
after s i n out = record {
  nodes = λ j. if j == i then n else s.nodes j;
  sent = packets i out s.sent;
  ballots = cast i n.current_term n.voted_for s.ballots;
}

-- A member that restarts keeps the term and the vote that it persisted.
pub data Step (size : ℕ) (s : Cluster) : Cluster → Type 0 where
  deliver :
      (p : Packet)
      → Elem p s.sent
      → p.to < size
      → Step size s
          (after s p.to (step (s.nodes p.to) p.from p.msg).0 (step (s.nodes p.to) p.from p.msg).1)
  ticks :
      (i : ℕ)
      → i < size
      → (s.nodes i).current_term + 1 < u64_mod
      → Step size s (after s i (tick (s.nodes i)).0 (tick (s.nodes i)).1)
  proposes :
      (i : ℕ) (command : List ℕ)
      → i < size
      → Step size s (after s i (propose (s.nodes i) command).0 [])
  drains : (i : ℕ) → i < size → Step size s (after s i (take_committed (s.nodes i)).0 [])
  compacts : (i keep : ℕ) → i < size → Step size s (after s i (maybe_compact (s.nodes i) keep) [])
  restarts :
      (i seed : ℕ) (log : RaftLog)
      → i < size
      → log.term ≡ (s.nodes i).log.term
      → log.vote ≡ (s.nodes i).log.vote
      → Step size s (after s i (new i (members size) log seed) [])

pub data Reach (size : ℕ) (s : Cluster) : Cluster → Type 0 where
  here : Reach size s s
  next : {t u : Cluster} → Reach size s t → Step size t u → Reach size s u

-- Every member fresh, with its own seed.
unfoldable pub initial : ℕ → (ℕ → ℕ) → Cluster
initial size seeds = record {
  nodes = λ i. new i (members size) empty (seeds i);
  sent = [];
  ballots = [];
}
