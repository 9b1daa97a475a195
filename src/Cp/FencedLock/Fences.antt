-- ===== src/Cp/FencedLock/Fences.antt =====
-- The fences of crates/raft/src/fencedlock.rs grow.
use bonsaigrid.Base.{
  ℕ, ◌+◌, ◌≤◌, ◌<◌, ◌≡◌, refl, sym, ap, ◌∙◌, inl, inr, some, if◌then◌else◌, arith, Bool-cases,
  Option-cases,
}
use bonsaigrid.Base.Bytes.{Bytes}
use bonsaigrid.Base.Int.{
  ℤ, pos, negsuc, i64_half, add_i64, add_i32, eq_ℤ, wrapping_add, of_word, to_word,
}
use bonsaigrid.Base.Maps.{insert, remove, bytes_eq, insert-cases, remove-cases, retain-cases}
use bonsaigrid.Cp.FencedLock.{
  LockState, FencedLockSm, is_pos, owns, grant, reenter, acquire, drop_hold, release_session,
}

-- `k` fences have been given out, and every lock in the table carries one of them.
pub record IsFenced (k : ℕ) (sm : FencedLockSm) : Type 0 where
  pub next : sm.next_fence ≡ pos k
  pub issued :
      (name : Bytes) (l : LockState)
      → sm.locks name ≡ some l
      → (f : ℕ) × (l.fence ≡ pos f) × (0 < f) × (f ≤ k)

next_fence_eq : (k : ℕ) → k + 1 < i64_half → add_i64 (pos k) (pos 1) ≡ pos (k + 1)
unfolding wrapping_add of_word to_word
next_fence_eq k h = ground arith

older :
    (k : ℕ) (l : LockState)
    → (f : ℕ) × (l.fence ≡ pos f) × (0 < f) × (f ≤ k)
    → (f : ℕ) × (l.fence ≡ pos f) × (0 < f) × (f ≤ k + 1)
older k l (f, e, a, b) = (f, e, a, omega arith)

pub grant-IsFenced :
    (k : ℕ) (sm : FencedLockSm) (name : Bytes) (s t : ℤ)
    → IsFenced k sm
    → k + 1 < i64_half
    → IsFenced (k + 1) (grant sm name s t).0 × ((grant sm name s t).1 ≡ pos (k + 1))
unfolding grant
grant-IsFenced k sm name s t v h =
    let e : add_i64 sm.next_fence (pos 1) ≡ pos (k + 1) =
      ap (λ n. add_i64 n (pos 1)) v.next ∙ next_fence_eq k h in
    (
      record {
        next = e;
        issued = λ other l p. elim (insert-cases name other _ l sm.locks p) [
          | inl new ↦
              (k + 1, ap (λ (x : LockState). x.fence) (sym new.1) ∙ e, omega arith, omega arith)
          | inr old ↦ older k l (v.issued other l old.1)
        ];
      },
      e,
    )

-- A change of the table that keeps every fence it holds.
keeps-IsFenced :
    (k : ℕ) (sm u : FencedLockSm)
    → IsFenced k sm
    → u.next_fence ≡ sm.next_fence
    → ((name : Bytes) (l : LockState)
        → u.locks name ≡ some l
        → (other : Bytes) × (l' : LockState) × (sm.locks other ≡ some l') × (l.fence ≡ l'.fence))
    → IsFenced k u
keeps-IsFenced k sm u v e from = record {
  next = e ∙ v.next;
  issued = λ name l p.
      let (other, l', q, same) = from name l p in
      let (f, is, above, below) = v.issued other l' q in (f, same ∙ is, above, below);
}

-- Another hold count under the same fence.
recount-IsFenced :
    (k : ℕ) (sm : FencedLockSm) (name : Bytes) (l : LockState) (c : ℤ)
    → sm.locks name ≡ some l
    → IsFenced k sm
    → IsFenced k (record sm { locks = insert name (record l { count = c }) sm.locks })
recount-IsFenced k sm name l c q v =
    let l' : LockState = record l { count = c } in
    keeps-IsFenced k sm (record sm { locks = insert name l' sm.locks }) v refl
      λ other m p. elim (insert-cases name other l' m sm.locks p) [
        | inl new ↦ (name, l, q, ap (λ (x : LockState). x.fence) (sym new.1))
        | inr old ↦ (other, m, old.1, refl)
      ]

pub drop_hold-IsFenced :
    (k : ℕ) (sm : FencedLockSm) (name : Bytes) (l : LockState)
    → sm.locks name ≡ some l
    → IsFenced k sm
    → IsFenced k (drop_hold sm name l)
unfolding drop_hold
drop_hold-IsFenced k sm name l q v = elim (Bool-cases (eq_ℤ (add_i32 l.count (negsuc 0)) (pos 0))) [
  | inl e ↦ rw e (
      keeps-IsFenced k sm (record sm { locks = remove name sm.locks }) v refl
        λ other m p. (other, m, (remove-cases name other m sm.locks p).1, refl))
  | inr e ↦ rw e (recount-IsFenced k sm name l _ q v)
]

-- A session that ends frees its locks and gives out no fence.
pub release_session-IsFenced :
    (k : ℕ) (sm : FencedLockSm) (session : ℤ)
    → IsFenced k sm
    → IsFenced k (release_session sm session)
unfolding release_session
release_session-IsFenced k sm session v =
    keeps-IsFenced k sm _ v refl λ name l p. (name, l, (retain-cases _ name l sm.locks p).1, refl)

-- At most `b` fences later.
abbrev pub Grows : ℕ → ℕ → FencedLockSm → Type 0
Grows k b u = (k' : ℕ) × (k ≤ k') × (k' ≤ k + b) × IsFenced k' u

-- What `acquire` leaves, and how its result relates to the fences given out.
pub record Acquired (k : ℕ) (r : FencedLockSm × ℤ) : Type 0 where
  pub count : ℕ
  pub grows : k ≤ count
  pub once : count ≤ k + 1
  pub fenced : IsFenced count r.0
  pub given : (f : ℕ) × (r.1 ≡ pos f) × (f ≤ count)

grant-Acquired :
    (k : ℕ) (sm : FencedLockSm) (name : Bytes) (s t : ℤ)
    → IsFenced k sm
    → k + 1 < i64_half
    → Acquired k (grant sm name s t)
grant-Acquired k sm name s t v h =
    let g = grant-IsFenced k sm name s t v h in
    record {
      count = k + 1;
      grows = omega arith;
      once = omega arith;
      fenced = g.0;
      given = (k + 1, g.1, omega arith);
    }

acquire-held :
    (k : ℕ) (sm : FencedLockSm) (name : Bytes) (s t : ℤ) (l : LockState)
    → sm.locks name ≡ some l
    → IsFenced k sm
    → Acquired k (if owns l s t then (reenter sm name l, l.fence) else (sm, pos 0))
unfolding reenter
acquire-held k sm name s t l q v = elim (Bool-cases (owns l s t)) [
  | inl e ↦
      let (f, is, _, below) = v.issued name l q in
      rw e (record {
        count = k;
        grows = omega arith;
        once = omega arith;
        fenced = recount-IsFenced k sm name l _ q v;
        given = (f, is, below);
      })
  | inr e ↦ rw e (record {
    count = k;
    grows = omega arith;
    once = omega arith;
    fenced = v;
    given = (0, refl, omega arith);
  })
]

pub acquire-Acquired :
    (k : ℕ) (sm : FencedLockSm) (name : Bytes) (s t : ℤ)
    → IsFenced k sm
    → k + 1 < i64_half
    → Acquired k (acquire sm name s t)
unfolding acquire
acquire-Acquired k sm name s t v h = elim (Option-cases (sm.locks name)) [
  | inl e ↦ rw (e, acquire) (grant-Acquired k sm name s t v h)
  | inr (l, e) ↦ elim (Bool-cases (is_pos l.count)) [
    | inl p ↦ rw (e, acquire) (rw p (acquire-held k sm name s t l e v))
    | inr p ↦ rw (e, acquire) (rw p (grant-Acquired k sm name s t v h))
  ]
]
