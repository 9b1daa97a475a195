-- ===== src/Cp/Group.antt =====
-- CpGroup of crates/raft/src/cp.rs: one member of a CP group, its consensus node, its state machine
-- and the operations of its clients. What the source pushes to `out` is returned, in order.
use bonsaigrid.Base.{
  ℕ, suc, ◌≡◌, refl, Bool, true, false, ◌||◌, Option, none, some, List, [], ◌∷◌, ◌++◌, map, leb,
  ◌==◌, add64, if◌then◌else◌,
}
use bonsaigrid.Base.Bytes.{Bytes}
use bonsaigrid.Base.Maps.{HashMap, insert, remove, nat_eq}
use bonsaigrid.Raft.Node.{RaftMsg, RaftNode, is_leader}
use bonsaigrid.Raft.Node.Replication.{propose, take_committed, maybe_compact}
use bonsaigrid.Raft.Node.Handlers
use bonsaigrid.Cp.Wire.{CpReply}
use bonsaigrid.Cp.Session.{SessOp}
use bonsaigrid.Cp.Machine
use bonsaigrid.Cp.Machine.{CpSm, sess_command}
pub mod Answers

pub data CpMsg : Type 0 where
  raft : RaftMsg → CpMsg
  forward : (client origin : ℕ) (command : Bytes) → CpMsg
  reply : (client : ℕ) (r : CpReply) → CpMsg

pub record Completion : Type 0 where
  pub client : ℕ
  pub reply : CpReply

pub record CpGroup : Type 0 where
  pub id : ℕ
  pub raft : RaftNode
  pub sm : CpSm
  pub pending : HashMap ℕ (ℕ × ℕ)
  pub waiting : List (ℕ × Bytes)
  pub completions : List Completion
  pub ticks_since_session : ℕ

abbrev pub Out : Type 0
Out = CpGroup × List (ℕ × CpMsg)

abbrev pub compact_keep : ℕ
compact_keep = 256

abbrev pub session_tick_interval : ℕ
session_tick_interval = 1000

unfoldable pub new : RaftNode → CpGroup
new node = record {
  id = node.id;
  raft = node;
  sm = Machine.new;
  pending = λ _. none;
  waiting = [];
  completions = [];
  ticks_since_session = 0;
}

-- The index of a proposal is pending for the client and the member it is on.
unfoldable pub add_pending : CpGroup → Option ℕ → ℕ → ℕ → CpGroup
add_pending g none client origin = g
add_pending g (some index) client origin = record g {
  pending = insert index (client, origin) g.pending;
}

unfoldable pub propose_for : CpGroup → ℕ → ℕ → Bytes → CpGroup
propose_for g client origin command =
    let r = propose g.raft command in add_pending (record g { raft = r.0 }) r.1 client origin

unfoldable pub to_leader : CpGroup → Option ℕ → ℕ → ℕ → Bytes → Out
to_leader g (some lead) client origin command = (g, (lead, forward client origin command) ∷ [])
to_leader g none client origin command =
    if origin == g.id
    then (record g { waiting = g.waiting ++ (client, command) ∷ [] }, [])
    else (g, [])

unfoldable pub route : CpGroup → ℕ → ℕ → Bytes → Out
route g client origin command =
    if is_leader g.raft
    then (propose_for g client origin command, [])
    else to_leader g g.raft.leader_id client origin command

unfoldable pub submit : CpGroup → ℕ → Bytes → Out
submit g client command = route g client g.id command

-- The reply to a committed operation goes to the member that its client is on.
unfoldable pub answer : CpGroup → Option (ℕ × ℕ) → CpReply → Out
answer g none r = (g, [])
answer g (some (client, origin)) r =
    if origin == g.id
    then (
      record g { completions = g.completions ++ record { client = client; reply = r } ∷ [] },
      [],
    )
    else (g, (origin, reply client r) ∷ [])

unfoldable pub apply_one : CpGroup → ℕ → Bytes → Out
apply_one g index command =
    let r = Machine.apply g.sm command in
    answer (record g { sm = r.0; pending = remove index g.pending }) (g.pending index) r.1

unfoldable pub apply_all : CpGroup → List (ℕ × Bytes) → Out
apply_all g [] = (g, [])
apply_all g ((index, command) ∷ cs) =
    let r = apply_one g index command in let rest = apply_all r.0 cs in (rest.0, r.1 ++ rest.1)

unfoldable pub apply_committed : CpGroup → Out
apply_committed g = let r = take_committed g.raft in apply_all (record g { raft = r.0 }) r.1

abbrev tagged : List (ℕ × RaftMsg) → List (ℕ × CpMsg)
tagged ms = map (λ m. (m.0, raft m.1)) ms

-- What a message does before the committed commands are applied.
unfoldable pub receive : CpGroup → ℕ → CpMsg → Out
receive g from (raft rm) =
    let r = Handlers.step g.raft from rm in (record g { raft = r.0 }, tagged r.1)
receive g from (forward client origin command) = route g client origin command
receive g from (reply client r) =
    (record g { completions = g.completions ++ record { client = client; reply = r } ∷ [] }, [])

unfoldable pub step : CpGroup → ℕ → CpMsg → Out
step g from msg =
    let r = receive g from msg in let rest = apply_committed r.0 in (rest.0, r.1 ++ rest.1)

abbrev known : Option ℕ → Bool
known none = false
known (some lead) = true

unfoldable pub route_all : CpGroup → List (ℕ × Bytes) → Out
route_all g [] = (g, [])
route_all g ((client, command) ∷ ws) =
    let r = route g client g.id command in let rest = route_all r.0 ws in (rest.0, r.1 ++ rest.1)

-- The buffered operations are routed again once there is a leader.
unfoldable pub flush : CpGroup → Out
flush g =
    if is_leader g.raft || known g.raft.leader_id
    then route_all (record g { waiting = [] }) g.waiting
    else (g, [])

-- A leader proposes a tick of the session clock once in a while.
unfoldable pub advance_sessions : CpGroup → CpGroup
advance_sessions g =
    if is_leader g.raft
    then (if leb session_tick_interval (add64 g.ticks_since_session 1)
        then record g {
          ticks_since_session = 0;
          raft = (propose g.raft (sess_command SessOp.tick)).0;
        }
        else record g { ticks_since_session = add64 g.ticks_since_session 1 })
    else g

unfoldable pub tick : CpGroup → Out
tick g =
    let t = Handlers.tick g.raft in
    let f = flush (record g { raft = t.0 }) in
    let a = apply_committed (advance_sessions f.0) in
    (record (a.0) { raft = maybe_compact a.0.raft compact_keep }, tagged t.1 ++ (f.1 ++ a.1))

unfoldable pub take_completions : CpGroup → CpGroup × List Completion
take_completions g = (record g { completions = [] }, g.completions)
