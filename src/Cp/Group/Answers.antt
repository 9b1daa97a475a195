-- ===== src/Cp/Group/Answers.antt =====
-- What a member of a CP group applies and answers, crates/raft/src/cp.rs.
use bonsaigrid.Base.{
  ℕ, ◌≡◌, refl, sym, ap, subst, ◌∙◌, inl, inr, Bool, true, false, Option, none, some, List, [], ◌∷◌,
  ◌++◌, ◌==◌, ==_iff, ==_refl, if◌then◌else◌, arith, Bool-cases,
}
use bonsaigrid.Base.Bytes.{Bytes}
use bonsaigrid.Base.Maps.{remove, nat_eq}
use bonsaigrid.Raft.Node.{is_leader}
use bonsaigrid.Raft.Node.Replication.{propose, next_entry, take_committed}
use bonsaigrid.Cp.Wire.{CpReply}
use bonsaigrid.Cp.Machine
use bonsaigrid.Cp.Machine.{CpSm}
use bonsaigrid.Cp.Machine.Order.{Same, apply-Agree}
use bonsaigrid.Cp.Group.{
  forward, CpGroup, Out, add_pending, propose_for, to_leader, route, submit, answer, apply_one,
  apply_all, apply_committed,
}

-- The state machine after a list of committed commands, whoever proposed them.
run_commands : CpSm → List (ℕ × Bytes) → CpSm
run_commands sm [] = sm
run_commands sm ((index, command) ∷ cs) = run_commands (Machine.apply sm command).0 cs

answer-keeps :
    (g : CpGroup) (who : Option (ℕ × ℕ)) (r : CpReply)
    → ((answer g who r).0.sm ≡ g.sm)
      × ((answer g who r).0.pending ≡ g.pending)
      × ((answer g who r).0.raft ≡ g.raft)
unfolding answer
answer-keeps g none r = (refl, refl, refl)
answer-keeps g (some (client, origin)) r = ground arith

sm-apply_all : (cs : List (ℕ × Bytes)) (g : CpGroup) → (apply_all g cs).0.sm ≡ run_commands g.sm cs
unfolding apply_all apply_one run_commands
sm-apply_all [] g = refl
sm-apply_all ((index, command) ∷ cs) g =
    let r = Machine.apply g.sm command in
    sm-apply_all cs (apply_one g index command).0
    ∙ ap (λ sm. run_commands sm cs)
        (answer-keeps (record g { sm = r.0; pending = remove index g.pending }) (g.pending index)
          r.1).0

run_commands-Same :
    (cs : List (ℕ × Bytes)) (a b : CpSm) → Same a b → Same (run_commands a cs) (run_commands b cs)
unfolding run_commands
run_commands-Same [] a b v = v
run_commands-Same ((index, command) ∷ cs) a b v =
    run_commands-Same cs (Machine.apply a command).0 (Machine.apply b command).0
      (apply-Agree a b command v).0

-- Members whose state machines differ in the order of their sessions only, and whose nodes drain equal
-- commands, differ so afterwards, whatever clients each of them has.
apply_committed-Same :
    (g h : CpGroup)
    → Same g.sm h.sm
    → (take_committed g.raft).1 ≡ (take_committed h.raft).1
    → Same (apply_committed g).0.sm (apply_committed h).0.sm
unfolding apply_committed
apply_committed-Same g h v c =
    let cs = (take_committed g.raft).1 in
    let ds = (take_committed h.raft).1 in
    let here = sm-apply_all cs (record g { raft = (take_committed g.raft).0 }) in
    let there = sm-apply_all ds (record h { raft = (take_committed h.raft).0 }) in
    subst (λ m. Same m (apply_all (record h { raft = (take_committed h.raft).0 }) ds).0.sm)
      (sym here)
      (subst (λ m. Same (run_commands g.sm cs) m) (sym there)
        (subst (λ xs. Same (run_commands g.sm cs) (run_commands h.sm xs)) c
          (run_commands-Same cs g.sm h.sm v)))

-- Where an operation that a client of this member submits can be found afterwards.
pub data Placed (g : CpGroup) (client : ℕ) (command : Bytes) (u : Out) : Type 0 where
  proposed :
      (index : ℕ)
      → (propose g.raft command).1 ≡ some index
      → u.0.pending index ≡ some (client, g.id)
      → Placed g client command u
  forwarded :
      (lead : ℕ) → u ≡ (g, (lead, forward client g.id command) ∷ []) → Placed g client command u
  buffered :
      u.0.waiting ≡ g.waiting ++ (client, command) ∷ []
      → u.0.raft ≡ g.raft
      → Placed g client command u

propose_for-Placed :
    (g : CpGroup) (client : ℕ) (command : Bytes)
    → is_leader g.raft ≡ true
    → Placed g client command (propose_for g client g.id command, [])
unfolding propose_for add_pending propose
propose_for-Placed g client command h =
    proposed (next_entry g.raft command).index (rw (h, propose)) (
      rw (h, propose)
        (ground
          (arith, ==_iff (next_entry g.raft command).index (next_entry g.raft command).index)))

buffered-own :
    (g : CpGroup) (client : ℕ) (command : Bytes) (here : Bool)
    → here ≡ true
    → Placed g client command
        (if here then (record g { waiting = g.waiting ++ (client, command) ∷ [] }, []) else (g, []))
buffered-own g client command true h = buffered refl refl
buffered-own g client command false h = cc

to_leader-Placed :
    (g : CpGroup) (lead : Option ℕ) (client : ℕ) (command : Bytes)
    → Placed g client command (to_leader g lead client g.id command)
unfolding to_leader
to_leader-Placed g (some lead) client command = forwarded lead refl
to_leader-Placed g none client command = buffered-own g client command (g.id == g.id) (==_refl g.id)

-- No operation that a client submits to its member is lost: it is proposed and pending there, sent
-- to the leader, or buffered until there is a leader.
pub submit-Placed :
    (g : CpGroup) (client : ℕ) (command : Bytes) → Placed g client command (submit g client command)
unfolding submit route
submit-Placed g client command = elim (Bool-cases (is_leader g.raft)) [
  | inl e ↦ rw e (propose_for-Placed g client command e)
  | inr e ↦ rw e (to_leader-Placed g g.raft.leader_id client command)
]
