-- ===== src/Cp/Session/Renewal.antt =====
-- How many ticks a renewed session of crates/raft/src/session.rs lives through.
use bonsaigrid.Base.{
  ℕ, zero, suc, ◌+◌, ◌<◌, ◌≡◌, ap, ◌∙◌, inl, inr, true, Option, none, some, ltb, if◌then◌else◌,
  arith, Bool-cases,
}
use bonsaigrid.Base.Int.{ℤ, pos, i64_half, add_i64, eq_ℤ_iff, wrapping_add, of_word, to_word}
use bonsaigrid.Cp.Session.{
  SessionSm, ttl_ticks, deadline, set_deadline, is_active, renew, tick_sessions,
}
use bonsaigrid.Cp.Session.Leases.{
  Distinct, unless_due, deadline-tick_sessions, tick_sessions-Distinct, set_deadline-Distinct,
  deadline-set_deadline,
}

-- `k` ticks.
unfoldable pub ticks : ℕ → SessionSm → SessionSm
ticks zero sm = sm
ticks (suc k) sm = ticks k (tick_sessions sm).0

clock-tick_sessions :
    (sm : SessionSm) (c : ℕ)
    → sm.clock ≡ pos c
    → c + 1 < i64_half
    → (tick_sessions sm).0.clock ≡ pos (c + 1)
unfolding tick_sessions wrapping_add of_word to_word
clock-tick_sessions sm c e h = ground (arith, e)

-- What is left after `k` ticks of a deadline at `d`, from a clock at `c`.
abbrev lasts : ℕ → ℕ → Option ℤ
lasts d c = if ltb c d then some (pos d) else none

none-ticks :
    (k : ℕ) (sm : SessionSm) (id : ℤ)
    → Distinct sm.sessions
    → deadline sm.sessions id ≡ none
    → deadline (ticks k sm).sessions id ≡ none
unfolding ticks
none-ticks zero sm id v e = e
none-ticks (suc k) sm id v e =
    none-ticks k (tick_sessions sm).0 id (tick_sessions-Distinct sm v)
      (deadline-tick_sessions sm id v ∙ ap (λ o. unless_due o (add_i64 sm.clock (pos 1))) e)

now_eq : (c : ℕ) → c + 1 < i64_half → add_i64 (pos c) (pos 1) ≡ pos (c + 1)
unfolding wrapping_add of_word to_word
now_eq c h = ground arith

deadline-tick_at :
    (sm : SessionSm) (id : ℤ) (c d : ℕ)
    → Distinct sm.sessions
    → sm.clock ≡ pos c
    → c + 1 < i64_half
    → deadline sm.sessions id ≡ some (pos d)
    → deadline (tick_sessions sm).0.sessions id ≡ lasts d (c + 1)
deadline-tick_at sm id c d v e h f =
    deadline-tick_sessions sm id v
    ∙ ap (λ o. unless_due o (add_i64 sm.clock (pos 1))) f
    ∙ ap (λ n. unless_due (some (pos d)) n) (ap (λ n. add_i64 n (pos 1)) e ∙ now_eq c h)
    ∙ ground arith

pub deadline-ticks :
    (k : ℕ) (sm : SessionSm) (id : ℤ) (c d : ℕ)
    → Distinct sm.sessions
    → sm.clock ≡ pos c
    → c + k < i64_half
    → c < d
    → deadline sm.sessions id ≡ some (pos d)
    → deadline (ticks k sm).sessions id ≡ lasts d (c + k)
unfolding ticks
deadline-ticks zero sm id c d v e h l f = ground (arith, f)
deadline-ticks (suc k) sm id c d v e h l f =
    let u = (tick_sessions sm).0 in
    let w = tick_sessions-Distinct sm v in
    let here = deadline-tick_at sm id c d v e (omega arith) f in
    elim (Bool-cases (ltb (c + 1) d)) [
      | inl b ↦
          deadline-ticks k u id (c + 1) d w (clock-tick_sessions sm c e (omega arith)) (omega arith)
            (ground (arith, b)) (here ∙ ground (arith, b))
          ∙ ap (lasts d) (omega arith)
      | inr b ↦ none-ticks k u id w (here ∙ ground (arith, b)) ∙ ground (arith, b)
    ]

-- A session that is renewed lives through the next 29 ticks and is gone from the 30th on, if it is
-- not renewed again, while the clock is below 2^63.
pub renewed_lease :
    (k : ℕ) (sm : SessionSm) (id : ℤ) (c : ℕ)
    → Distinct sm.sessions
    → sm.clock ≡ pos c
    → c + k + 30 < i64_half
    → is_active sm id ≡ true
    → is_active (ticks k (renew sm id).0) id ≡ ltb k 30
unfolding is_active
renewed_lease k sm id c v e h a =
    let m : SessionSm = record sm {
      sessions = set_deadline sm.sessions id (add_i64 sm.clock ttl_ticks);
    } in
    let far : add_i64 sm.clock ttl_ticks ≡ pos (c + 30) =
      unfold wrapping_add of_word to_word in ground (arith, e) in
    let here : deadline m.sessions id ≡ some (pos (c + 30)) = ground (
      arith,
      deadline-set_deadline sm.sessions id (add_i64 sm.clock ttl_ticks) id,
      far,
      eq_ℤ_iff id id,
    ) in
    let later =
      deadline-ticks k m id c (c + 30) (set_deadline-Distinct sm.sessions id _ v) e (omega arith)
        (omega arith) here in
    let same : (renew sm id).0 ≡ m = unfold renew is_active in rw a in ground (arith, later, same)
