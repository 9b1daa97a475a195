-- ===== src/Cp/Machine/Expiry.antt =====
-- The locks that the end of a session frees, in CpSm of crates/raft/src/cp.rs.
use bonsaigrid.Base.{
  ℕ, zero, suc, ◌≡◌, refl, sym, ap, ◌∙◌, inl, inr, true, false, none, some, List, [], ◌∷◌, arith,
  Bool-cases,
}
use bonsaigrid.Base.Bytes.{Bytes, is_utf8}
use bonsaigrid.Base.Int.{ℤ, pos, Fits, i64_half, eq_ℤ, eq_ℤ_iff, add_i64}
use bonsaigrid.Base.Maps.{bytes_eq, bytes_beq_iff}
use bonsaigrid.Cp.Wire.{CpReply}
use bonsaigrid.Cp.FencedLock.{
  LockState, FencedLockSm, FlOp, lock, grant, acquire, release_session, run_op, is_locked,
  decode-encode_lock,
}
use bonsaigrid.Cp.FencedLock
use bonsaigrid.Cp.FencedLock.History.{release_session_frees, release_session_keeps, acquire-free}
use bonsaigrid.Cp.Session.{
  SessOp, tick, SessionSm, deadline, is_active, tick_sessions, expired, InRange,
  decode-encode_session,
}
use bonsaigrid.Cp.Session
use bonsaigrid.Cp.Session.Leases.{
  Distinct, mem, tick_sessions-Distinct, deadline-tick_sessions, due, mem-expired,
}
use bonsaigrid.Cp.Machine.{
  CpSm, sess_command, fl_command, release_sessions, run_session, apply_session, dispatch, apply,
}

-- A lock that is in the table after the sessions end belongs to none of them, and was there before.
release_sessions_frees :
    (ids : List ℤ) (fl : FencedLockSm) (name : Bytes) (l : LockState)
    → (release_sessions fl ids).locks name ≡ some l
    → (mem l.session ids ≡ false) × (fl.locks name ≡ some l)
unfolding release_sessions
release_sessions_frees [] fl name l p = (refl, p)
release_sessions_frees (id ∷ ids) fl name l p =
    let (a, q) = release_sessions_frees ids (release_session fl id) name l p in
    let (ne, r) = release_session_frees fl name id l q in
    (ground (arith, a, ne, eq_ℤ_iff id l.session), r)

release_sessions_keeps :
    (ids : List ℤ) (fl : FencedLockSm) (name : Bytes) (l : LockState)
    → fl.locks name ≡ some l
    → mem l.session ids ≡ false
    → (release_sessions fl ids).locks name ≡ some l
unfolding release_sessions
release_sessions_keeps [] fl name l p h = p
release_sessions_keeps (id ∷ ids) fl name l p h = elim (Bool-cases (eq_ℤ id l.session)) [
  | inl e ↦ absurd (ground (arith, h, e))
  | inr e ↦
      release_sessions_keeps ids (release_session fl id) name l
        (release_session_keeps fl name id l p (ground (arith, e, eq_ℤ_iff id l.session)))
        (ground (arith, h, e))
]

apply_session-encode :
    (sm : CpSm) (op : SessOp)
    → InRange op
    → apply_session sm (Session.encode op) ≡ run_session sm op
unfolding apply_session
apply_session-encode sm op r = rw (decode-encode_session op r, apply_session)

apply-tick : (sm : CpSm) → apply sm (sess_command tick) ≡ run_session sm tick
unfolding apply dispatch sess_command
apply-tick sm = apply_session-encode sm tick tt

-- The ids that a tick lets expire.
abbrev gone : CpSm → List ℤ
gone sm = (tick_sessions sm.sessions).1

mem-gone :
    (sm : CpSm) (id : ℤ)
    → Distinct sm.sessions.sessions
    → mem id (gone sm) ≡ due (deadline sm.sessions.sessions id) (add_i64 sm.sessions.clock (pos 1))
unfolding tick_sessions
mem-gone sm id v = mem-expired sm.sessions.sessions (add_i64 sm.sessions.clock (pos 1)) id v

-- A session that a tick does not let expire is as active as before.
is_active-tick :
    (sm : CpSm) (id : ℤ)
    → Distinct sm.sessions.sessions
    → mem id (gone sm) ≡ false
    → is_active (tick_sessions sm.sessions).0 id ≡ is_active sm.sessions id
unfolding is_active
is_active-tick sm id v h =
    let late = mem-gone sm id v in
    let after = deadline-tick_sessions sm.sessions id v in ground (arith, h, late, after)

-- A lock that is in the table after a committed tick was there before, and its session is as active
-- after the tick as it was before it, so that no lock of a session that expires in this tick remains;
-- for a registry that has each session once.
pub tick_frees_expired :
    (sm : CpSm) (name : Bytes) (l : LockState)
    → Distinct sm.sessions.sessions
    → (apply sm (sess_command tick)).0.fenced_lock.locks name ≡ some l
    → (sm.fenced_lock.locks name ≡ some l)
      × (is_active (apply sm (sess_command tick)).0.sessions l.session
          ≡ is_active sm.sessions l.session)
unfolding run_session
tick_frees_expired sm name l v p =
    let (a, q) =
      release_sessions_frees (gone sm) sm.fenced_lock name l
        (ap (λ (r : CpSm × CpReply). r.0.fenced_lock.locks name) (sym (apply-tick sm)) ∙ p) in
    (
      q,
      ap (λ (r : CpSm × CpReply). is_active r.0.sessions l.session) (apply-tick sm)
          ∙ is_active-tick sm l.session v a,
    )

-- `k` tick commands.
unfoldable pub tick_commands : ℕ → CpSm → CpSm
tick_commands zero sm = sm
tick_commands (suc k) sm = tick_commands k (apply sm (sess_command tick)).0

is_active-none :
    (ss : SessionSm) (id : ℤ) → is_active ss id ≡ false → deadline ss.sessions id ≡ none
unfolding is_active
is_active-none ss id h = ground (arith, h)

tick-orphan :
    (sm : CpSm) (id : ℤ)
    → Distinct sm.sessions.sessions
    → is_active sm.sessions id ≡ false
    → mem id (gone sm) ≡ false
tick-orphan sm id v h =
    mem-gone sm id v
    ∙ ap (λ o. due o (add_i64 sm.sessions.clock (pos 1))) (is_active-none sm.sessions id h)

orphan-run_session :
    (k : ℕ) (sm : CpSm) (name : Bytes) (l : LockState)
    → Distinct sm.sessions.sessions
    → is_active sm.sessions l.session ≡ false
    → sm.fenced_lock.locks name ≡ some l
    → (tick_commands k sm).fenced_lock.locks name ≡ some l
unfolding tick_commands run_session
orphan-run_session zero sm name l v h p = p
orphan-run_session (suc k) sm name l v h p =
    let u = (run_session sm tick).0 in
    let safe = tick-orphan sm l.session v h in
    ap (λ (r : CpSm × CpReply). (tick_commands k r.0).fenced_lock.locks name) (apply-tick sm)
    ∙ orphan-run_session k u name l (tick_sessions-Distinct sm.sessions v)
        (is_active-tick sm l.session v safe ∙ h)
        (release_sessions_keeps (gone sm) sm.fenced_lock name l p safe)

-- A free lock that is granted is in the table under its new owner, with one hold.
granted :
    (fl : FencedLockSm) (name : Bytes) (s t : ℤ)
    → (l : LockState) × ((grant fl name s t).0.locks name ≡ some l)
      × (l.session ≡ s)
      × (l.count ≡ pos 1)
unfolding grant
granted fl name s t = (
  record { fence = add_i64 fl.next_fence (pos 1); session = s; thread = t; count = pos 1 },
  ground (arith, bytes_beq_iff name name),
  refl,
  refl,
)

run_op-encode :
    (fl : FencedLockSm) (name : Bytes) (s t : ℤ)
    → is_utf8 name ≡ true
    → Fits i64_half s
    → Fits i64_half t
    → FencedLock.apply fl (FencedLock.encode name (lock s t)) ≡ run_op fl name (lock s t)
unfolding FencedLock.apply FencedLock.owner
run_op-encode fl name s t u a b = rw (decode-encode_lock name (lock s t) u a b, FencedLock.apply)

run_op-free :
    (fl : FencedLockSm) (name : Bytes) (s t : ℤ)
    → is_locked fl name ≡ false
    → (run_op fl name (lock s t)).0 ≡ (grant fl name s t).0
unfolding run_op
run_op-free fl name s t free = ap (λ (r : FencedLockSm × ℤ). r.0) (acquire-free fl name s t free)

apply-lock :
    (sm : CpSm) (name : Bytes) (s t : ℤ)
    → is_utf8 name ≡ true
    → Fits i64_half s
    → Fits i64_half t
    → is_locked sm.fenced_lock name ≡ false
    → (apply sm (fl_command name (lock s t))).0
      ≡ record sm { fenced_lock = (grant sm.fenced_lock name s t).0 }
unfolding apply dispatch fl_command
apply-lock sm name s t u a b free =
    ap (λ (r : FencedLockSm × CpReply). record sm { fenced_lock = r.0 })
      (run_op-encode sm.fenced_lock name s t u a b)
    ∙ ap (λ (fl : FencedLockSm). record sm { fenced_lock = fl })
        (run_op-free sm.fenced_lock name s t free)

held_is_locked :
    (fl : FencedLockSm) (name : Bytes) (l : LockState)
    → fl.locks name ≡ some l
    → l.count ≡ pos 1
    → is_locked fl name ≡ true
unfolding is_locked
held_is_locked fl name l p c = ground (arith, p, c)

-- A lock command whose session is not active is granted a free lock all the same, and no number of
-- ticks frees the lock again.
pub orphan_lock_stays :
    (k : ℕ) (sm : CpSm) (name : Bytes) (s t : ℤ)
    → Distinct sm.sessions.sessions
    → is_active sm.sessions s ≡ false
    → is_locked sm.fenced_lock name ≡ false
    → is_utf8 name ≡ true
    → Fits i64_half s
    → Fits i64_half t
    → is_locked (tick_commands k (apply sm (fl_command name (lock s t))).0).fenced_lock name ≡ true
orphan_lock_stays k sm name s t v h free u a b =
    let m : CpSm = record sm { fenced_lock = (grant sm.fenced_lock name s t).0 } in
    let (l, p, e, c) = granted sm.fenced_lock name s t in
    ap (λ (x : CpSm). is_locked (tick_commands k x).fenced_lock name)
      (apply-lock sm name s t u a b free)
    ∙ held_is_locked (tick_commands k m).fenced_lock name l
        (orphan-run_session k m name l v (ap (is_active sm.sessions) e ∙ h) p) c
