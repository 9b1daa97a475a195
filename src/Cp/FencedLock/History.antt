-- ===== src/Cp/FencedLock/History.antt =====
-- Histories of the fenced locks of crates/raft/src/fencedlock.rs: commands, and sessions that end.
use bonsaigrid.Base.{
  ℕ, ◌+◌, ◌<◌, ◌≡◌, ◌≢◌, refl, sym, ap, subst, ◌∙◌, ◌⊎◌, inl, inr, Bool, true, false, ◌&&◌, not,
  some, List, [], ◌∷◌, length, All, arith, Bool-cases, Option-cases,
}
use bonsaigrid.Base.Bytes.{Bytes}
use bonsaigrid.Base.Int.{ℤ, pos, i64_half, eq_ℤ, eq_ℤ_iff}
use bonsaigrid.Base.Maps.{retain-cases, bytes_beq, bytes_beq_iff}
use bonsaigrid.Cp.FencedLock.{
  FlOp, lock, try_lock, unlock, LockState, FencedLockSm, is_pos, owner, owns, grant, reenter,
  drop_hold, acquire, release, release_session, is_locked, run_op,
}
use bonsaigrid.Cp.FencedLock.Fences.{
  IsFenced, Grows, acquire-Acquired, grant-IsFenced, drop_hold-IsFenced, release_session-IsFenced,
}

pub data Event : Type 0 where
  command : Bytes → FlOp → Event
  session_ends : ℤ → Event

unfoldable pub after : FencedLockSm → Event → FencedLockSm
after sm (command name op) = (run_op sm name op).0
after sm (session_ends session) = release_session sm session

unfoldable pub after_all : FencedLockSm → List Event → FencedLockSm
after_all sm [] = sm
after_all sm (e ∷ es) = after_all (after sm e) es

acquire-Grows :
    (k : ℕ) (sm : FencedLockSm) (name : Bytes) (s t : ℤ)
    → IsFenced k sm
    → k + 1 < i64_half
    → Grows k 1 (acquire sm name s t).0
acquire-Grows k sm name s t v h =
    let a = acquire-Acquired k sm name s t v h in (a.count, a.grows, a.once, a.fenced)

release-IsFenced :
    (k : ℕ) (sm : FencedLockSm) (name : Bytes) (s t : ℤ)
    → IsFenced k sm
    → IsFenced k (release sm name s t).0
unfolding release
release-IsFenced k sm name s t v = elim (Option-cases (sm.locks name)) [
  | inl e ↦ rw (e, release) v
  | inr (l, e) ↦ elim (Bool-cases (is_pos l.count && owns l s t)) [
    | inl p ↦ rw (e, release) (rw p (drop_hold-IsFenced k sm name l e v))
    | inr p ↦ rw (e, release) (rw p v)
  ]
]

after-Grows :
    (k : ℕ) (sm : FencedLockSm) (e : Event)
    → IsFenced k sm
    → k + 1 < i64_half
    → Grows k 1 (after sm e)
unfolding after run_op
after-Grows k sm (command name (lock s t)) v h = acquire-Grows k sm name s t v h
after-Grows k sm (command name (try_lock s t)) v h = acquire-Grows k sm name s t v h
after-Grows k sm (command name (unlock s t)) v h =
    (k, omega arith, omega arith, release-IsFenced k sm name s t v)
after-Grows k sm (session_ends session) v h =
    (k, omega arith, omega arith, release_session-IsFenced k sm session v)

after_all-Grows :
    (k : ℕ) (sm : FencedLockSm) (es : List Event)
    → IsFenced k sm
    → k + length es < i64_half
    → Grows k (length es) (after_all sm es)
unfolding after_all
after_all-Grows k sm [] v h = (k, omega arith, omega arith, v)
after_all-Grows k sm (e ∷ es) v h =
    let (j, a, b, w) = after-Grows k sm e v (omega arith) in
    let (i, c, d, x) = after_all-Grows j (after sm e) es w (omega arith) in
    (i, omega arith, omega arith, x)

-- A lock that nobody holds goes to whoever asks.
pub acquire-free :
    (sm : FencedLockSm) (name : Bytes) (s t : ℤ)
    → is_locked sm name ≡ false
    → acquire sm name s t ≡ grant sm name s t
unfolding acquire is_locked
acquire-free sm name s t h = ground arith

-- A fence that is given for a free lock is greater than any fence that was given before, whatever
-- commands and session ends lie between, on this lock or any other, while fewer than 2^63 fences
-- have been given.
pub later_fence_greater :
    (k : ℕ) (sm : FencedLockSm) (name name' : Bytes) (s t s' t' : ℤ) (es : List Event)
    → IsFenced k sm
    → k + length es + 2 < i64_half
    → is_locked (after_all (acquire sm name s t).0 es) name' ≡ false
    → (f : ℕ) × (g : ℕ) × ((acquire sm name s t).1 ≡ pos f)
      × ((acquire (after_all (acquire sm name s t).0 es) name' s' t').1 ≡ pos g)
      × (f < g)
later_fence_greater k sm name name' s t s' t' es v h free =
    let a = acquire-Acquired k sm name s t v (omega arith) in
    let once = a.once in
    let (f, is, below) = a.given in
    let (j, up, down, w) =
      after_all-Grows a.count (acquire sm name s t).0 es a.fenced (omega arith) in
    let g = grant-IsFenced j (after_all (acquire sm name s t).0 es) name' s' t' w (omega arith) in
    (
      f,
      j + 1,
      is,
      ap (λ (r : FencedLockSm × ℤ). r.1) (acquire-free _ name' s' t' free) ∙ g.1,
      omega arith,
    )

-- While an owner holds a lock, an acquisition by any other session or thread returns 0, a release
-- by another fails, and neither changes anything.
others_are_refused :
    (sm : FencedLockSm) (name : Bytes) (l : LockState) (s t : ℤ)
    → sm.locks name ≡ some l
    → is_pos l.count ≡ true
    → (l.session ≢ s) ⊎ (l.thread ≢ t)
    → (acquire sm name s t ≡ (sm, pos 0)) × (release sm name s t ≡ (sm, false))
unfolding acquire release
others_are_refused sm name l s t e p o =
    let no_owner : owns l s t ≡ false = ground (arith, eq_ℤ_iff l.session s, eq_ℤ_iff l.thread t) in
    (rw (e, acquire) (rw (p, no_owner)), rw (e, release) (rw (p, no_owner)))

-- A lock that is in the table after a session ends belongs to another session, and was there
-- before.
pub release_session_frees :
    (sm : FencedLockSm) (name : Bytes) (session : ℤ) (l : LockState)
    → (release_session sm session).locks name ≡ some l
    → (l.session ≢ session) × (sm.locks name ≡ some l)
unfolding release_session
release_session_frees sm name session l p =
    let r = retain-cases (λ (x : LockState). not (eq_ℤ x.session session)) name l sm.locks p in
    (ground (arith, r.0, eq_ℤ_iff l.session session), r.1)

-- A lock of another session stays as it is when a session ends.
pub release_session_keeps :
    (sm : FencedLockSm) (name : Bytes) (session : ℤ) (l : LockState)
    → sm.locks name ≡ some l
    → l.session ≢ session
    → (release_session sm session).locks name ≡ some l
unfolding release_session
release_session_keeps sm name session l p ne = ground (arith, p, eq_ℤ_iff l.session session)

-- The event comes from another session or thread than the lock's owner, or is about another lock;
-- the session that ends is not the owner's.
pub data IsForeign (l : LockState) (name : Bytes) : Event → Type 0 where
  by_other :
      (n : Bytes) (op : FlOp)
      → (l.session ≢ (owner op).0) ⊎ (l.thread ≢ (owner op).1)
      → IsForeign l name (command n op)
  elsewhere : (n : Bytes) (op : FlOp) → bytes_beq n name ≡ false → IsForeign l name (command n op)
  other_ends : (session : ℤ) → l.session ≢ session → IsForeign l name (session_ends session)

acquire-elsewhere :
    (sm : FencedLockSm) (n name : Bytes) (s t : ℤ)
    → bytes_beq n name ≡ false
    → (acquire sm n s t).0.locks name ≡ sm.locks name
unfolding acquire grant reenter
acquire-elsewhere sm n name s t h = elim (Option-cases (sm.locks n)) [
  | inl e ↦ rw (e, acquire) (rw h refl)
  | inr (l, e) ↦ rw (e, acquire) (ground (arith, h))
]

release-elsewhere :
    (sm : FencedLockSm) (n name : Bytes) (s t : ℤ)
    → bytes_beq n name ≡ false
    → (release sm n s t).0.locks name ≡ sm.locks name
unfolding release drop_hold
release-elsewhere sm n name s t h = elim (Option-cases (sm.locks n)) [
  | inl e ↦ rw (e, release) refl
  | inr (l, e) ↦ rw (e, release) (ground (arith, h))
]

run_op-elsewhere :
    (sm : FencedLockSm) (n name : Bytes) (op : FlOp)
    → bytes_beq n name ≡ false
    → (run_op sm n op).0.locks name ≡ sm.locks name
unfolding run_op
run_op-elsewhere sm n name (lock s t) h = acquire-elsewhere sm n name s t h
run_op-elsewhere sm n name (try_lock s t) h = acquire-elsewhere sm n name s t h
run_op-elsewhere sm n name (unlock s t) h = release-elsewhere sm n name s t h

module _ (name : Bytes) (l : LockState) (p : is_pos l.count ≡ true) where
  run_op-refused :
      (sm : FencedLockSm) (op : FlOp)
      → sm.locks name ≡ some l
      → (l.session ≢ (owner op).0) ⊎ (l.thread ≢ (owner op).1)
      → (run_op sm name op).0 ≡ sm
  unfolding run_op owner
  run_op-refused sm (lock s t) e o =
      ap (λ (r : FencedLockSm × ℤ). r.0) (others_are_refused sm name l s t e p o).0
  run_op-refused sm (try_lock s t) e o =
      ap (λ (r : FencedLockSm × ℤ). r.0) (others_are_refused sm name l s t e p o).0
  run_op-refused sm (unlock s t) e o =
      ap (λ (r : FencedLockSm × Bool). r.0) (others_are_refused sm name l s t e p o).1

  after-held :
      (sm : FencedLockSm) (e : Event)
      → sm.locks name ≡ some l
      → IsForeign l name e
      → (after sm e).locks name ≡ some l
  unfolding after
  after-held sm (command n op) h (by_other m o f) = elim (Bool-cases (bytes_beq n name)) [
    | inl same ↦
        subst (λ k. (run_op sm k op).0.locks name ≡ some l) (sym ((bytes_beq_iff n name).0 same))
          (ap (λ (r : FencedLockSm). r.locks name) (run_op-refused sm op h f) ∙ h)
    | inr apart ↦ run_op-elsewhere sm n name op apart ∙ h
  ]
  after-held sm (command n op) h (elsewhere m o apart) = run_op-elsewhere sm n name op apart ∙ h
  after-held sm (session_ends session) h (other_ends s ne) =
      release_session_keeps sm name session l h ne

  after_all-held :
      (sm : FencedLockSm) (es : List Event)
      → sm.locks name ≡ some l
      → All (IsForeign l name) es
      → (after_all sm es).locks name ≡ some l
  unfolding after_all
  after_all-held sm [] h v = h
  after_all-held sm (e ∷ es) h v = after_all-held (after sm e) es (after-held sm e h v.0) v.1

owned :
    (sm : FencedLockSm) (name : Bytes) (l : LockState)
    → sm.locks name ≡ some l
    → is_pos l.count ≡ true
    → ((acquire sm name l.session l.thread).1 ≡ l.fence)
      × ((release sm name l.session l.thread).1 ≡ true)
unfolding acquire release
owned sm name l e p =
    let own : owns l l.session l.thread ≡ true =
      ground (arith, eq_ℤ_iff l.session l.session, eq_ℤ_iff l.thread l.thread) in
    (rw (e, acquire) (rw (p, own) refl), rw (e, release) (rw (p, own) refl))

-- While an owner holds a lock, nothing that the others do takes it away: after any commands on it by
-- other sessions or threads, any commands on other locks, also the owner's, and any ends of other
-- sessions, the lock has the same owner, fence and holds. An acquisition by another session or thread
-- then returns 0 and a release by another fails, and neither changes anything; the owner acquires
-- it again under the same fence, and its release succeeds.
pub lock_held_through :
    (sm : FencedLockSm) (name : Bytes) (l : LockState) (es : List Event) (s t : ℤ)
    → sm.locks name ≡ some l
    → is_pos l.count ≡ true
    → All (IsForeign l name) es
    → (l.session ≢ s) ⊎ (l.thread ≢ t)
    → let now = after_all sm es in
      (now.locks name ≡ some l)
      × (acquire now name s t ≡ (now, pos 0))
      × (release now name s t ≡ (now, false))
      × ((acquire now name l.session l.thread).1 ≡ l.fence)
      × ((release now name l.session l.thread).1 ≡ true)
lock_held_through sm name l es s t e p v o =
    let still = after_all-held name l p sm es e v in
    let others = others_are_refused (after_all sm es) name l s t still p o in
    let own = owned (after_all sm es) name l still p in (still, others.0, others.1, own.0, own.1)
