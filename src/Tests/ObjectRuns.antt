-- ===== src/Tests/ObjectRuns.antt =====
-- The theorems about the latch, the semaphore, the reference, the map and the sessions of
-- crates/raft/src, at concrete states.
use bonsaigrid.Base.{ℕ, ◌+◌, ◌≡◌, refl, none, some, true, List, [], ◌∷◌, ltb, arith}
use bonsaigrid.Base.Bytes.{Bytes, is_utf8, valid_utf8}
use bonsaigrid.Base.Int.{ℤ, pos, eq_ℤ_iff, wrapping_add, of_word, to_word}
use bonsaigrid.Base.Maps.{insert, bytes_eq, bytes_beq}
use bonsaigrid.Cp.CountDownLatch.{CountDownLatchSm}
use bonsaigrid.Cp.Semaphore.{SemaphoreSm, SemOp, available}
use bonsaigrid.Cp.Semaphore.Permits.{run_ops, run_ops-Balanced}
use bonsaigrid.Cp.AtomicRef.{AtomicReferenceSm}
use bonsaigrid.Cp.FencedLock.{LockState, FencedLockSm, FlOp, lock, is_locked}
use bonsaigrid.Cp.Session
use bonsaigrid.Cp.Session.{
  SessionSm, SessOp, tick, deadline, is_active, renew, decode-encode_session,
}
use bonsaigrid.Cp.Session.Leases.{Distinct}
use bonsaigrid.Cp.Session.Renewal.{ticks, renewed_lease}
use bonsaigrid.Cp.Machine.{CpSm, new, apply, fl_command, sess_command}
use bonsaigrid.Cp.Machine.Order.{with_sessions, Same, Agree, apply-Agree}
use bonsaigrid.Cp.Machine.Expiry.{tick_frees_expired, tick_commands, orphan_lock_stays}

-- "ab".
abbrev name : Bytes
name = 97 ∷ 98 ∷ []

name-is_utf8 : is_utf8 name ≡ true
unfolding valid_utf8
name-is_utf8 = refl

abbrev latch : CountDownLatchSm
latch = record { counts = insert name (pos 3) (λ _. none) }

abbrev semaphore : SemaphoreSm
semaphore = record { permits = insert name (pos 2) (λ _. none) }

-- One acquire is refused, one is granted, and the rest is drained.
abbrev sem_ops : List SemOp
sem_ops =
    SemOp.acquire (pos 3)
    ∷ SemOp.release (pos 4)
    ∷ SemOp.acquire (pos 3)
    ∷ SemOp.init (pos 9)
    ∷ SemOp.drain
    ∷ []

run_ops-Balanced_example :
    (q : ℕ) × (available (run_ops semaphore name sem_ops).0 name ≡ pos q)
    × (q + (run_ops semaphore name sem_ops).1 ≡ 2 + (run_ops semaphore name sem_ops).2)
unfolding available bytes_beq
run_ops-Balanced_example = run_ops-Balanced semaphore name sem_ops 2 refl (omega arith)

abbrev lease : SessionSm
lease = record {
  sessions = (pos 1, pos 30) ∷ (pos 2, pos 12) ∷ [];
  clock = pos 10;
  next_id = pos 2;
  next_thread_id = pos 0;
}

lease-Distinct : Distinct lease.sessions
unfolding Distinct deadline
lease-Distinct = (refl, (refl, tt))

renewed_lease_example : is_active (ticks 29 (renew lease (pos 2)).0) (pos 2) ≡ ltb 29 30
unfolding is_active deadline
renewed_lease_example = renewed_lease 29 lease (pos 2) 10 lease-Distinct refl (omega arith) refl

abbrev held_lock : LockState
held_lock = record { fence = pos 1; session = pos 1; thread = pos 9; count = pos 1 }

abbrev machine : CpSm
machine = record new {
  fenced_lock = record { locks = insert name held_lock (λ _. none); next_fence = pos 1 };
  sessions = lease;
}

tick_frees_expired_example :
    (machine.fenced_lock.locks name ≡ some held_lock)
    × (is_active (apply machine (sess_command tick)).0.sessions (pos 1)
        ≡ is_active machine.sessions (pos 1))
unfolding apply sess_command Session.encode Session.decode bonsaigrid.Cp.Machine.dispatch
    bonsaigrid.Cp.Machine.apply_session bonsaigrid.Cp.Machine.run_session
    bonsaigrid.Cp.Machine.release_sessions Session.tick_sessions Session.expired bytes_beq
    bonsaigrid.Cp.FencedLock.release_session wrapping_add of_word to_word
tick_frees_expired_example = tick_frees_expired machine name held_lock lease-Distinct refl

-- At 30 both sessions expire, in another order in each of two machines.
abbrev late_machine : CpSm
late_machine = record machine { sessions = record lease { clock = pos 29 } }

abbrev turned : List (ℤ × ℤ)
turned = (pos 2, pos 12) ∷ (pos 1, pos 30) ∷ []

turned-Same : Same late_machine (with_sessions late_machine turned)
unfolding Distinct deadline
turned-Same = record {
  sessions = turned;
  other = refl;
  map = record {
    deadlines = λ id. ground (arith, eq_ℤ_iff (pos 1) id, eq_ℤ_iff (pos 2) id);
    left = (refl, (refl, tt));
    right = (refl, (refl, tt));
  };
}

apply-Agree_example :
    Agree
      (apply late_machine (sess_command tick))
      (apply (with_sessions late_machine turned) (sess_command tick))
apply-Agree_example =
    apply-Agree late_machine (with_sessions late_machine turned) (sess_command tick) turned-Same

-- Session 9 does not exist.
abbrev free_machine : CpSm
free_machine = record new { sessions = lease }

orphan_lock_stays_example :
    is_locked
      (tick_commands 100
        (apply free_machine (fl_command name (lock (pos 9) (pos 1)))).0).fenced_lock
      name
    ≡ true
unfolding is_active deadline is_locked
orphan_lock_stays_example =
    orphan_lock_stays 100 free_machine name (pos 9) (pos 1) lease-Distinct refl refl name-is_utf8
      (omega arith) (omega arith)

abbrev cell : AtomicReferenceSm
cell = record { values = λ _. none }
