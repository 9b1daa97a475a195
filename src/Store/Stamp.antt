-- ===== src/Store/Stamp.antt =====
-- The update stamps of crates/store/src/lib.rs, a hybrid logical clock: 57 bits of clock, which are
-- milliseconds and a counter of 16 bits, above 7 bits of member id. A call takes effect at its
-- successful compare-and-exchange, so the calls of all threads are one sequence. The low bits of a
-- shifted number are zero, so `|` is a sum.
use bonsaigrid.Base.{
  ℕ, ◌+◌, ◌*◌, ◌/◌, ◌%◌, ◌^◌, max, ◌≤◌, ◌<◌, ◌≡◌, inl, inr, Bool-cases, List, [], ◌∷◌, All, leb,
  length, u64_mod, if◌then◌else◌, arith,
}

-- `phys_ms << STAMP_COUNTER_BITS`.
unfoldable pub clock_of_ms : ℕ → ℕ
clock_of_ms ms = ms * 65536 % u64_mod

-- `(clock << STAMP_MEMBER_BITS) | member_bits`.
unfoldable pub stamp_of : ℕ → ℕ → ℕ
stamp_of clock member_id = clock * 128 % u64_mod + member_id % 128

-- The new value of `stamp_seq`, which is also the stamp that is returned.
unfoldable pub next_stamp_at : ℕ → ℕ → ℕ → ℕ
next_stamp_at member_id prev phys_ms =
    stamp_of (max (prev / 128 + 1) (clock_of_ms phys_ms)) member_id

unfoldable pub observe_stamp : ℕ → ℕ → ℕ → ℕ
observe_stamp member_id prev external =
    if leb (external / 128) (prev / 128) then prev else stamp_of (external / 128) member_id

-- A call on a member's clock.
pub data Call : Type 0 where
  next : (phys_ms : ℕ) → Call
  observe : (external : ℕ) → Call

-- What a run shows: the stamps that it issues and those that it observes.
pub data Seen : Type 0 where
  issued observed : (stamp : ℕ) → Seen

unfoldable pub trace : ℕ → ℕ → List Call → List Seen
trace member_id seq [] = []
trace member_id seq (next phys_ms ∷ calls) =
    let stamp = next_stamp_at member_id seq phys_ms in issued stamp ∷ trace member_id stamp calls
trace member_id seq (observe external ∷ calls) =
    observed external ∷ trace member_id (observe_stamp member_id seq external) calls

-- Every issued stamp is greater than all that was issued or observed before it.
unfoldable pub Increasing : ℕ → List Seen → Type 0
Increasing low [] = Unit
Increasing low (issued s ∷ rest) = (low < s) × Increasing s rest
Increasing low (observed e ∷ rest) = Increasing (max low e) rest

-- The stamps carry the member's id.
unfoldable pub Marked : ℕ → List Seen → Type 0
Marked member_id [] = Unit
Marked member_id (issued s ∷ rest) = (s % 128 ≡ member_id % 128) × Marked member_id rest
Marked member_id (observed e ∷ rest) = Marked member_id rest

-- A time before 18 May 2033, and a stamp of such a time.
unfoldable pub Dated : Call → Type 0
Dated (next ms) = ms < 2000000000000
Dated (observe e) = e / 128 < 2000000000000 * 65536

-- A clock that `n` more calls keep within its 57 bits.
abbrev Within : ℕ → ℕ → Type 0
Within seq n = seq / 128 + n < 2 ^ 57

stamp_of_lem :
    (clock member_id : ℕ)
    → clock < 2 ^ 57
    → (stamp_of clock member_id / 128 ≡ clock) × (stamp_of clock member_id % 128 ≡ member_id % 128)
unfolding stamp_of
stamp_of_lem clock member_id lt = (omega arith, omega arith)

clock_of_ms_lem : (ms : ℕ) → ms < 2000000000000 → clock_of_ms ms ≡ ms * 65536
unfolding clock_of_ms
clock_of_ms_lem ms lt = omega arith

-- A new stamp is greater than the clock's last one, not before the physical time, and carries the
-- member's id.
pub next_stamp_at-exceeds :
    (member_id seq ms : ℕ)
    → ms < 2000000000000
    → seq / 128 + 1 < 2 ^ 57
    → let s = next_stamp_at member_id seq ms in
      (s / 128 ≡ max (seq / 128 + 1) (ms * 65536)) × (s % 128 ≡ member_id % 128)
unfolding next_stamp_at
next_stamp_at-exceeds member_id seq ms lt room =
    let c = clock_of_ms_lem ms lt in
    let (clock, mark) =
      stamp_of_lem (max (seq / 128 + 1) (clock_of_ms ms)) member_id (omega (arith, c, lt, room)) in
    (omega (arith, clock, c), mark)

observe_stamp-absorbs :
    (member_id seq e : ℕ)
    → e / 128 < 2000000000000 * 65536
    → observe_stamp member_id seq e / 128 ≡ max (seq / 128) (e / 128)
unfolding observe_stamp
observe_stamp-absorbs member_id seq e lt = elim (Bool-cases (leb (e / 128) (seq / 128))) [
  | inl ahead ↦ rw (ahead) (ground (arith, ahead))
  | inr behind ↦
      let (clock, mark) = stamp_of_lem (e / 128) member_id (omega (arith, lt)) in
      rw (behind) (ground (arith, behind, clock))
]

trace-Increasing :
    (member_id seq low : ℕ) (calls : List Call)
    → low / 128 ≤ seq / 128
    → max (seq / 128) (2000000000000 * 65536) + length calls < 2 ^ 57
    → All Dated calls
    → Increasing low (trace member_id seq calls) × Marked member_id (trace member_id seq calls)
unfolding trace Increasing Marked Dated
trace-Increasing member_id seq low [] le room dated = (tt, tt)
trace-Increasing member_id seq low (next ms ∷ calls) le room dated =
    let s = next_stamp_at member_id seq ms in
    let ms_lt = dated.0 in
    let (clock, mark) = next_stamp_at-exceeds member_id seq ms ms_lt (omega (arith, room)) in
    let (rest, marks) =
      trace-Increasing member_id s s calls (omega arith) (omega (arith, room, clock, ms_lt))
        dated.1 in
    ((omega (arith, clock, le), rest), (mark, marks))
trace-Increasing member_id seq low (observe e ∷ calls) le room dated =
    let e_lt = dated.0 in
    let clock = observe_stamp-absorbs member_id seq e e_lt in
    trace-Increasing member_id (observe_stamp member_id seq e) (max low e) calls
      (omega (arith, clock, le)) (omega (arith, room, clock, e_lt)) dated.1

-- Every stamp that a member issues is greater than all the stamps it has issued or observed before,
-- whatever its wall clock says, and carries the member's id: for any sequence of fewer than 2^53
-- calls on a new clock, with times before 18 May 2033.
pub stamps_increase :
    (member_id : ℕ) (calls : List Call)
    → length calls < 2 ^ 53
    → All Dated calls
    → Increasing 0 (trace member_id 0 calls) × Marked member_id (trace member_id 0 calls)
stamps_increase member_id calls few dated =
    trace-Increasing member_id 0 0 calls (omega arith) (omega (arith, few)) dated

-- From 2^41 ms after the epoch on, in September 2039, the shift drops the top bit of the time: the
-- next stamp is below the last one, unless the last one is itself as small.
pub stamp_falls_back :
    (member_id prev ms : ℕ)
    → ms < 2 ^ 40
    → ms * 65536 + 1 ≤ prev / 128
    → prev / 128 + 1 < 2 ^ 57
    → next_stamp_at member_id prev (2 ^ 41 + ms) < prev
unfolding next_stamp_at stamp_of clock_of_ms
stamp_falls_back member_id prev ms lt before room = omega arith
