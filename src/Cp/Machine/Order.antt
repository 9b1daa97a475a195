-- ===== src/Cp/Machine/Order.antt =====
-- The map of sessions of crates/raft/src/session.rs is walked in an order that each member has for
-- itself. What two machines of crates/raft/src/cp.rs make of a command when their lists of sessions
-- differ in order.
use bonsaigrid.Base.{
  ℕ, ◌≡◌, refl, sym, ap, subst, ◌∙◌, inl, inr, Bool, true, false, not, Option, none, some, List, [],
  ◌∷◌, ◌==◌, if◌then◌else◌, arith, Bool-cases, Option-cases,
}
use bonsaigrid.Base.Bytes.{Bytes}
use bonsaigrid.Base.Int.{ℤ, pos, add_i64, eq_ℤ, eq_ℤ_iff}
use bonsaigrid.Base.Maps.{retain_value}
use bonsaigrid.Cp.Wire.{CpReply}
use bonsaigrid.Cp.FencedLock.{LockState, FencedLockSm, release_session}
use bonsaigrid.Cp.Session
use bonsaigrid.Cp.Session.{
  SessOp, create, heartbeat, close, tick, generate_thread_id, SessionSm, deadline, set_deadline,
  remove_session, expired, remove_all, is_some, is_active, ttl_ticks, create_session, renew,
  close_session, tick_sessions, new_thread_id,
}
use bonsaigrid.Cp.Session.Leases.{
  Distinct, mem, due, mem-expired, deadline-remove_session, deadline-set_deadline,
  deadline-remove_all, remove_session-Distinct, remove_all-Distinct, set_deadline-Distinct,
}
use bonsaigrid.Cp.Machine.{CpSm, release_sessions, run_session, apply_session, dispatch, apply}

-- Two lists are the same map from sessions to deadlines.
pub record SameMap (ss ts : List (ℤ × ℤ)) : Type 0 where
  pub deadlines : (id : ℤ) → deadline ss id ≡ deadline ts id
  pub left : Distinct ss
  pub right : Distinct ts

abbrev pub with_sessions : CpSm → List (ℤ × ℤ) → CpSm
with_sessions sm ts = record sm { sessions = record (sm.sessions) { sessions = ts } }

-- Two machines that differ in the order of their sessions only.
pub record Same (a b : CpSm) : Type 0 where
  pub sessions : List (ℤ × ℤ)
  pub other : b ≡ with_sessions a sessions
  pub map : SameMap a.sessions.sessions sessions

-- So do the machines, and the replies are equal.
abbrev pub Agree : CpSm × CpReply → CpSm × CpReply → Type 0
Agree u v = Same u.0 v.0 × (u.1 ≡ v.1)

set_deadline-SameMap :
    (ss ts : List (ℤ × ℤ)) (id d : ℤ)
    → SameMap ss ts
    → SameMap (set_deadline ss id d) (set_deadline ts id d)
set_deadline-SameMap ss ts id d v = record {
  deadlines = λ j.
      deadline-set_deadline ss id d j
      ∙ ap (λ o. if eq_ℤ id j then some d else o) (v.deadlines j)
      ∙ sym (deadline-set_deadline ts id d j);
  left = set_deadline-Distinct ss id d v.left;
  right = set_deadline-Distinct ts id d v.right;
}

remove_session-SameMap :
    (ss ts : List (ℤ × ℤ)) (id : ℤ)
    → SameMap ss ts
    → SameMap (remove_session ss id) (remove_session ts id)
remove_session-SameMap ss ts id v = record {
  deadlines = λ j.
      deadline-remove_session ss id j
      ∙ ap (λ o. if eq_ℤ id j then none else o) (v.deadlines j)
      ∙ sym (deadline-remove_session ts id j);
  left = remove_session-Distinct ss id v.left;
  right = remove_session-Distinct ts id v.right;
}

-- The same sessions expire.
mem-SameMap :
    (ss ts : List (ℤ × ℤ)) (now id : ℤ)
    → SameMap ss ts
    → mem id (expired ss now) ≡ mem id (expired ts now)
mem-SameMap ss ts now id v =
    mem-expired ss now id v.left
    ∙ ap (λ o. due o now) (v.deadlines id)
    ∙ sym (mem-expired ts now id v.right)

remove_all-SameMap :
    (ss ts : List (ℤ × ℤ)) (now : ℤ)
    → SameMap ss ts
    → SameMap (remove_all ss (expired ss now)) (remove_all ts (expired ts now))
remove_all-SameMap ss ts now v = record {
  deadlines = λ j.
      deadline-remove_all (expired ss now) ss j
      ∙ ap (λ b. if b then none else deadline ss j) (mem-SameMap ss ts now j v)
      ∙ ap (λ o. if mem j (expired ts now) then none else o) (v.deadlines j)
      ∙ sym (deadline-remove_all (expired ts now) ts j);
  left = remove_all-Distinct (expired ss now) ss v.left;
  right = remove_all-Distinct (expired ts now) ts v.right;
}

-- The locks that are left when sessions end.
abbrev left_by : List ℤ → Option LockState → Option LockState
left_by ids o = retain_value (λ l. not (mem l.session ids)) o

left_by-nil : (o : Option LockState) → o ≡ left_by [] o
left_by-nil none = refl
left_by-nil (some l) = refl

left_by-cons :
    (id : ℤ) (ids : List ℤ) (o : Option LockState)
    → left_by ids (retain_value (λ l. not (eq_ℤ l.session id)) o) ≡ left_by (id ∷ ids) o
left_by-cons id ids none = refl
left_by-cons id ids (some l) = ground (arith, eq_ℤ_iff l.session id, eq_ℤ_iff id l.session)

release_sessions-left_by :
    (ids : List ℤ) (fl : FencedLockSm)
    → release_sessions fl ids ≡ record fl { locks = λ name. left_by ids (fl.locks name) }
unfolding release_sessions release_session
release_sessions-left_by [] fl = λ i. record fl { locks = λ name. left_by-nil (fl.locks name) i }
release_sessions-left_by (id ∷ ids) fl =
    release_sessions-left_by ids (release_session fl id)
    ∙ (λ i. record fl { locks = λ name. left_by-cons id ids (fl.locks name) i })

-- The locks of expired sessions are freed in whatever order.
release_sessions-SameMap :
    (ss ts : List (ℤ × ℤ)) (now : ℤ) (fl : FencedLockSm)
    → SameMap ss ts
    → release_sessions fl (expired ss now) ≡ release_sessions fl (expired ts now)
release_sessions-SameMap ss ts now fl v =
    release_sessions-left_by (expired ss now) fl
    ∙ (λ i. record fl {
      locks = λ name. retain_value (λ l. not (mem-SameMap ss ts now l.session v i)) (fl.locks name);
    })
    ∙ sym (release_sessions-left_by (expired ts now) fl)

is_active-SameMap :
    (sm : SessionSm) (ts : List (ℤ × ℤ)) (id : ℤ)
    → SameMap sm.sessions ts
    → is_active sm id ≡ is_active (record sm { sessions = ts }) id
unfolding is_active
is_active-SameMap sm ts id v = ap is_some (v.deadlines id)

run_session-Agree :
    (sm : CpSm) (ts : List (ℤ × ℤ)) (op : SessOp)
    → SameMap sm.sessions.sessions ts
    → Agree (run_session sm op) (run_session (with_sessions sm ts) op)
unfolding run_session create_session renew close_session tick_sessions new_thread_id
run_session-Agree sm ts create v =
    let id = add_i64 sm.sessions.next_id (pos 1) in
    let d = add_i64 sm.sessions.clock ttl_ticks in
    (
      record {
        sessions = set_deadline ts id d;
        other = refl;
        map = set_deadline-SameMap sm.sessions.sessions ts id d v;
      },
      refl,
    )
run_session-Agree sm ts (heartbeat id) v =
    let d = add_i64 sm.sessions.clock ttl_ticks in
    let both = is_active-SameMap sm.sessions ts id v in
    elim (Bool-cases (is_active sm.sessions id)) [
      | inl e ↦
          rw (e, sym both ∙ e)
            (
              record {
                sessions = set_deadline ts id d;
                other = refl;
                map = set_deadline-SameMap sm.sessions.sessions ts id d v;
              },
              refl,
            )
      | inr e ↦ rw (e, sym both ∙ e) (record { sessions = ts; other = refl; map = v }, refl)
    ]
run_session-Agree sm ts (close id) v = (
  record {
    sessions = remove_session ts id;
    other = refl;
    map = remove_session-SameMap sm.sessions.sessions ts id v;
  },
  ap CpReply.bool (is_active-SameMap sm.sessions ts id v),
)
run_session-Agree sm ts tick v =
    let now = add_i64 sm.sessions.clock (pos 1) in
    let ss = sm.sessions.sessions in
    let left = remove_all ts (expired ts now) in
    let freed = release_sessions-SameMap ss ts now sm.fenced_lock v in
    (
      record {
        sessions = left;
        other = λ i. record sm {
          sessions = record (sm.sessions) { clock = now; sessions = left };
          fenced_lock = sym freed i;
        };
        map = remove_all-SameMap ss ts now v;
      },
      refl,
    )
run_session-Agree sm ts generate_thread_id v =
    (record { sessions = ts; other = refl; map = v }, refl)

Agree-if :
    (b : Bool) {u u' v v' : CpSm × CpReply}
    → Agree u v
    → Agree u' v'
    → Agree (if b then u else u') (if b then v else v')
Agree-if true p q = p
Agree-if false p q = q

apply_session-Agree :
    (sm : CpSm) (ts : List (ℤ × ℤ)) (body : Bytes)
    → SameMap sm.sessions.sessions ts
    → Agree (apply_session sm body) (apply_session (with_sessions sm ts) body)
unfolding apply_session
apply_session-Agree sm ts body v = elim (Option-cases (Session.decode body)) [
  | inl e ↦ rw (e, apply_session) (record { sessions = ts; other = refl; map = v }, refl)
  | inr (op, e) ↦ rw (e, apply_session) (run_session-Agree sm ts op v)
]

dispatch-Agree :
    (sm : CpSm) (ts : List (ℤ × ℤ)) (obj : ℕ) (body : Bytes)
    → SameMap sm.sessions.sessions ts
    → Agree (dispatch sm obj body) (dispatch (with_sessions sm ts) obj body)
unfolding dispatch
dispatch-Agree sm ts obj body v =
    Agree-if (obj == 0) (record { sessions = ts; other = refl; map = v }, refl)
      (Agree-if (obj == 1) (record { sessions = ts; other = refl; map = v }, refl)
        (Agree-if (obj == 2) (record { sessions = ts; other = refl; map = v }, refl)
          (Agree-if (obj == 3) (record { sessions = ts; other = refl; map = v }, refl)
            (Agree-if (obj == 4) (record { sessions = ts; other = refl; map = v }, refl)
              (Agree-if (obj == 5) (apply_session-Agree sm ts body v) (
                Agree-if (obj == 6) (record { sessions = ts; other = refl; map = v }, refl)
                  (record { sessions = ts; other = refl; map = v }, refl)))))))

-- Two machines that differ in the order of their sessions only, with each session once, give the same
-- reply to any command, and then again differ in the order of their sessions only: the locks, the
-- counters and the other objects are equal, and the sessions have the same deadlines.
pub apply-Agree :
    (a b : CpSm) (command : Bytes) → Same a b → Agree (apply a command) (apply b command)
unfolding apply
apply-Agree a b [] v = (v, refl)
apply-Agree a b (obj ∷ body) v =
    subst (λ c. Agree (dispatch a obj body) (dispatch c obj body)) (sym v.other)
      (dispatch-Agree a v.sessions obj body v.map)
