-- ===== src/Tests/CpRuns.antt =====
-- The theorems about the replicated objects of crates/raft/src, at concrete states.
use bonsaigrid.Base.{
  ℕ, ◌+◌, ◌%◌, ◌<◌, ◌≡◌, refl, inl, inr, none, some, true, false, List, [], ◌∷◌, All, u64_mod,
  arith,
}
use bonsaigrid.Base.Bytes.{Bytes, is_utf8, valid_utf8}
use bonsaigrid.Base.Int.{pos, negsuc, i64_half, to_word}
use bonsaigrid.Base.Maps.{insert, bytes_eq, bytes_beq}
use bonsaigrid.Cp.AtomicLong.{AtomicLongSm, value, run_all, adds, word_sum, value-run_all-adds}
use bonsaigrid.Cp.FencedLock.{
  lock, unlock, owner, LockState, FencedLockSm, initial, acquire, release, grant, is_locked,
  release_session,
}
use bonsaigrid.Cp.FencedLock.Fences.{IsFenced}
use bonsaigrid.Cp.FencedLock.History.{
  Event, command, session_ends, after, after_all, later_fence_greater, IsForeign, by_other,
  elsewhere, other_ends, lock_held_through,
}

-- "ab".
abbrev name : Bytes
name = 97 ∷ 98 ∷ []

name-is_utf8 : is_utf8 name ≡ true
unfolding valid_utf8
name-is_utf8 = refl

abbrev counters : AtomicLongSm
counters = record { values = insert name (pos 40) (λ _. none) }

value-run_all-adds_example :
    to_word i64_half (value (run_all counters (adds name (pos 5 ∷ negsuc 2 ∷ []))) name)
    ≡ (to_word i64_half (value counters name) + word_sum (pos 5 ∷ negsuc 2 ∷ [])) % u64_mod
unfolding value bytes_beq
value-run_all-adds_example =
    value-run_all-adds counters name (pos 5 ∷ negsuc 2 ∷ []) name-is_utf8
      (omega arith, (omega arith, tt)) (omega arith)

initial-IsFenced : IsFenced 0 initial
initial-IsFenced = record { next = refl; issued = λ n l p. cc }

-- Session 1 takes the lock and ends, and session 2 takes it.
later_fence_greater_example :
    (f : ℕ) × (g : ℕ) × ((acquire initial name (pos 1) (pos 1)).1 ≡ pos f)
    × ((acquire
          (after_all (acquire initial name (pos 1) (pos 1)).0 (session_ends (pos 1) ∷ []))
          name
          (pos 2)
          (pos 1)).1
        ≡ pos g)
    × (f < g)
unfolding after_all after release_session acquire grant is_locked bytes_beq
later_fence_greater_example =
    later_fence_greater 0 initial name name (pos 1) (pos 1) (pos 2) (pos 1)
      (session_ends (pos 1) ∷ []) initial-IsFenced (omega arith) refl

abbrev held_lock : LockState
held_lock = record { fence = pos 1; session = pos 1; thread = pos 9; count = pos 1 }

abbrev locked : FencedLockSm
locked = record { locks = insert name held_lock (λ _. none); next_fence = pos 1 }

-- Session 3 tries to take and to free the lock, the owner takes another lock, and session 3 ends.
abbrev attempts : List Event
attempts =
    command name (lock (pos 3) (pos 9))
    ∷ command name (unlock (pos 1) (pos 8))
    ∷ command (99 ∷ []) (lock (pos 1) (pos 9))
    ∷ session_ends (pos 3)
    ∷ []

attempts-IsForeign : All (IsForeign held_lock name) attempts
unfolding bytes_beq owner
attempts-IsForeign = (
  by_other name (lock (pos 3) (pos 9)) (inl (λ e. ground (arith, e))),
  (
    by_other name (unlock (pos 1) (pos 8)) (inr (λ e. ground (arith, e))),
    (
      elsewhere (99 ∷ []) (lock (pos 1) (pos 9)) refl,
      (other_ends (pos 3) (λ e. ground (arith, e)), tt),
    ),
  ),
)

lock_held_through_example :
    let now = after_all locked attempts in
    (now.locks name ≡ some held_lock)
    × (acquire now name (pos 1) (pos 8) ≡ (now, pos 0))
    × (release now name (pos 1) (pos 8) ≡ (now, false))
    × ((acquire now name (pos 1) (pos 9)).1 ≡ pos 1)
    × ((release now name (pos 1) (pos 9)).1 ≡ true)
unfolding bytes_beq
lock_held_through_example =
    lock_held_through locked name held_lock attempts (pos 1) (pos 8) refl refl attempts-IsForeign
      (inr (λ e. ground (arith, e)))
