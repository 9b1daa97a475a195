-- ===== src/Cp/Session/Leases.antt =====
-- What a tick of crates/raft/src/session.rs does to the deadlines.
use bonsaigrid.Base.{
  ◌≡◌, refl, sym, ap, ◌∙◌, inl, inr, Bool, true, false, Option, none, some, List, [], ◌∷◌,
  if◌then◌else◌, arith, Bool-cases,
}
use bonsaigrid.Base.Int.{ℤ, pos, add_i64, eq_ℤ, eq_ℤ_iff, leb_ℤ}
use bonsaigrid.Cp.Session.{
  SessionSm, deadline, set_deadline, remove_session, expired, remove_all, tick_sessions,
}

pub deadline-remove_session :
    (ss : List (ℤ × ℤ)) (id j : ℤ)
    → deadline (remove_session ss id) j ≡ (if eq_ℤ id j then none else deadline ss j)
unfolding deadline remove_session
deadline-remove_session [] id j = ground arith
deadline-remove_session ((k, c) ∷ ss) id j =
    ground (arith, deadline-remove_session ss id j, eq_ℤ_iff k id, eq_ℤ_iff k j, eq_ℤ_iff id j)

pub deadline-set_deadline :
    (ss : List (ℤ × ℤ)) (id d j : ℤ)
    → deadline (set_deadline ss id d) j ≡ (if eq_ℤ id j then some d else deadline ss j)
unfolding deadline set_deadline
deadline-set_deadline [] id d j = ground arith
deadline-set_deadline ((k, c) ∷ ss) id d j =
    ground (arith, deadline-set_deadline ss id d j, eq_ℤ_iff k id, eq_ℤ_iff k j, eq_ℤ_iff id j)

-- No id has two deadlines.
unfoldable pub Distinct : List (ℤ × ℤ) → Type 0
Distinct [] = Unit {0}
Distinct ((j, d) ∷ ss) = (deadline ss j ≡ none) × Distinct ss

abbrev pub mem : ℤ → List ℤ → Bool
mem j [] = false
mem j (id ∷ ids) = if eq_ℤ id j then true else mem j ids

pub deadline-remove_all :
    (ids : List ℤ) (ss : List (ℤ × ℤ)) (j : ℤ)
    → deadline (remove_all ss ids) j ≡ (if mem j ids then none else deadline ss j)
unfolding remove_all
deadline-remove_all [] ss j = refl
deadline-remove_all (id ∷ ids) ss j =
    ground
      (arith, deadline-remove_all ids (remove_session ss id) j, deadline-remove_session ss id j)

-- Whether a deadline has come.
abbrev pub due : Option ℤ → ℤ → Bool
due none now = false
due (some d) now = leb_ℤ d now

-- The expired ids are those whose deadline has come.
pub mem-expired :
    (ss : List (ℤ × ℤ)) (now j : ℤ) → Distinct ss → mem j (expired ss now) ≡ due (deadline ss j) now
unfolding Distinct expired deadline
mem-expired [] now j v = refl
mem-expired ((k, d) ∷ ss) now j (a, v) = elim (Bool-cases (eq_ℤ k j)) [
  | inl e ↦
      let same : k ≡ j = ground (arith, eq_ℤ_iff k j, e) in
      let gone : deadline ss j ≡ none = ap (deadline ss) (sym same) ∙ a in
      let rest : mem j (expired ss now) ≡ false =
        mem-expired ss now j v ∙ ap (λ o. due o now) gone in
      ground (arith, e, rest)
  | inr e ↦ ground (arith, e, mem-expired ss now j v)
]

-- What a tick leaves of a deadline.
abbrev pub unless_due : Option ℤ → ℤ → Option ℤ
unless_due o now = if due o now then none else o

-- A tick removes exactly the sessions whose deadline the new clock has reached, reports them, and
-- leaves every other deadline alone.
pub deadline-tick_sessions :
    (sm : SessionSm) (id : ℤ)
    → Distinct sm.sessions
    → let now = add_i64 sm.clock (pos 1) in
      deadline (tick_sessions sm).0.sessions id ≡ unless_due (deadline sm.sessions id) now
unfolding tick_sessions
deadline-tick_sessions sm id v =
    let now = add_i64 sm.clock (pos 1) in
    deadline-remove_all (expired sm.sessions now) sm.sessions id
    ∙ ap (λ b. if b then none else deadline sm.sessions id) (mem-expired sm.sessions now id v)

pub remove_session-Distinct :
    (ss : List (ℤ × ℤ)) (id : ℤ) → Distinct ss → Distinct (remove_session ss id)
unfolding Distinct remove_session
remove_session-Distinct [] id v = tt
remove_session-Distinct ((k, d) ∷ ss) id (a, v) = elim (Bool-cases (eq_ℤ k id)) [
  | inl e ↦ rw e (remove_session-Distinct ss id v)
  | inr e ↦
      rw e (ground (arith, deadline-remove_session ss id k, a), remove_session-Distinct ss id v)
]

pub remove_all-Distinct :
    (ids : List ℤ) (ss : List (ℤ × ℤ)) → Distinct ss → Distinct (remove_all ss ids)
unfolding remove_all
remove_all-Distinct [] ss v = v
remove_all-Distinct (id ∷ ids) ss v =
    remove_all-Distinct ids (remove_session ss id) (remove_session-Distinct ss id v)

pub tick_sessions-Distinct :
    (sm : SessionSm) → Distinct sm.sessions → Distinct (tick_sessions sm).0.sessions
unfolding tick_sessions
tick_sessions-Distinct sm v = remove_all-Distinct _ sm.sessions v

pub set_deadline-Distinct :
    (ss : List (ℤ × ℤ)) (id d : ℤ) → Distinct ss → Distinct (set_deadline ss id d)
unfolding Distinct set_deadline
set_deadline-Distinct [] id d v = (unfold deadline in refl, tt)
set_deadline-Distinct ((k, c) ∷ ss) id d (a, v) = elim (Bool-cases (eq_ℤ k id)) [
  | inl e ↦ rw e (a, v)
  | inr e ↦ rw e (
    ground (arith, deadline-set_deadline ss id d k, a, eq_ℤ_iff k id, eq_ℤ_iff id k, e),
    set_deadline-Distinct ss id d v,
  )
]
