-- ===== src/Cp/Machine.antt =====
-- CpSm of crates/raft/src/cp.rs: the registry that hands a command to the state machine of its kind
-- of object.
use bonsaigrid.Base.{
  ℕ, ◌≡◌, refl, Bool, true, false, Option, none, some, List, [], ◌∷◌, ◌==◌, if◌then◌else◌,
}
use bonsaigrid.Base.Bytes.{Bytes}
use bonsaigrid.Base.Int.{ℤ, pos}
use bonsaigrid.Cp.Wire.{CpReply, long, bool, nil}
use bonsaigrid.Cp.AtomicLong
use bonsaigrid.Cp.AtomicLong.{AtomicLongSm, AlReply}
use bonsaigrid.Cp.AtomicRef
use bonsaigrid.Cp.AtomicRef.{AtomicReferenceSm}
use bonsaigrid.Cp.CountDownLatch
use bonsaigrid.Cp.CountDownLatch.{CountDownLatchSm}
use bonsaigrid.Cp.Semaphore
use bonsaigrid.Cp.Semaphore.{SemaphoreSm}
use bonsaigrid.Cp.FencedLock
use bonsaigrid.Cp.FencedLock.{FencedLockSm, FlOp, release_session}
use bonsaigrid.Cp.CpMap
use bonsaigrid.Cp.CpMap.{CpMapSm}
use bonsaigrid.Cp.Session
use bonsaigrid.Cp.Session.{
  SessOp, create, heartbeat, close, tick, generate_thread_id, SessionSm, no_sessions,
  create_session, renew, close_session, tick_sessions, new_thread_id,
}
pub mod Expiry
pub mod Order

pub record CpSm : Type 0 where
  pub atomic_long : AtomicLongSm
  pub atomic_ref : AtomicReferenceSm
  pub countdown_latch : CountDownLatchSm
  pub semaphore : SemaphoreSm
  pub fenced_lock : FencedLockSm
  pub sessions : SessionSm
  pub cp_map : CpMapSm

abbrev pub new : CpSm
new = record {
  atomic_long = record { values = λ _. none };
  atomic_ref = record { values = λ _. none };
  countdown_latch = record { counts = λ _. none };
  semaphore = record { permits = λ _. none };
  fenced_lock = FencedLock.initial;
  sessions = no_sessions;
  cp_map = record { maps = λ _. none };
}

-- `fl_command` and `sess_command`.
unfoldable pub fl_command : Bytes → FlOp → Bytes
fl_command name op = 4 ∷ FencedLock.encode name op

unfoldable pub sess_command : SessOp → Bytes
sess_command op = 5 ∷ Session.encode op

-- `for id in ids { self.fenced_lock.release_session(id) }`.
unfoldable pub release_sessions : FencedLockSm → List ℤ → FencedLockSm
release_sessions fl [] = fl
release_sessions fl (id ∷ ids) = release_sessions (release_session fl id) ids

unfoldable pub run_session : CpSm → SessOp → CpSm × CpReply
run_session sm create =
    let r = create_session sm.sessions in (record sm { sessions = r.0 }, long r.1)
run_session sm (heartbeat id) = (record sm { sessions = (renew sm.sessions id).0 }, nil)
run_session sm (close id) =
    let r = close_session sm.sessions id in
    (record sm { sessions = r.0; fenced_lock = release_session sm.fenced_lock id }, bool r.1)
run_session sm tick =
    let r = tick_sessions sm.sessions in
    (record sm { sessions = r.0; fenced_lock = release_sessions sm.fenced_lock r.1 }, nil)
run_session sm generate_thread_id =
    let r = new_thread_id sm.sessions in (record sm { sessions = r.0 }, long r.1)

unfoldable pub apply_session : CpSm → Bytes → CpSm × CpReply
apply_session sm body = elim (Session.decode body) [
  | none ↦ (sm, nil)
  | some op ↦ run_session sm op
]

-- The reply of the counters as a CpReply.
abbrev al_reply : AlReply → CpReply
al_reply (AlReply.long v) = long v
al_reply (AlReply.bool b) = bool b
al_reply AlReply.nothing = nil

-- The object of a tag takes the body.
unfoldable pub dispatch : CpSm → ℕ → Bytes → CpSm × CpReply
dispatch sm obj body =
    if obj == 0
    then (let r = AtomicLong.apply sm.atomic_long body in
        (record sm { atomic_long = r.0 }, al_reply r.1))
    else if obj == 1
    then (let r = AtomicRef.apply sm.atomic_ref body in (record sm { atomic_ref = r.0 }, r.1))
    else if obj == 2
    then (let r = CountDownLatch.apply sm.countdown_latch body in
        (record sm { countdown_latch = r.0 }, r.1))
    else if obj == 3
    then (let r = Semaphore.apply sm.semaphore body in (record sm { semaphore = r.0 }, r.1))
    else if obj == 4
    then (let r = FencedLock.apply sm.fenced_lock body in (record sm { fenced_lock = r.0 }, r.1))
    else if obj == 5
    then apply_session sm body
    else if obj == 6
    then (let r = CpMap.apply sm.cp_map body in (record sm { cp_map = r.0 }, r.1))
    else (sm, nil)

unfoldable pub apply : CpSm → Bytes → CpSm × CpReply
apply sm [] = (sm, nil)
apply sm (obj ∷ body) = dispatch sm obj body
