-- ===== src/Store/Slab/Alloc.antt =====
-- A size class of crates/store/src/slab.rs: `alloc` hands out a slot that is not in use, growing the
-- arena where it must, and the other slots keep their bytes.
use native.Mathlib.Nat.{mul-le-mul_right, mul-le-mul_left, mul_comm, mod-eq_of_lt}
use bonsaigrid.Base.{
  ℕ, suc, ◌+◌, ◌*◌, ◌/◌, ◌^◌, max, ◌≤◌, ◌<◌, ◌≡◌, ◌≢◌, refl, sym, subst, ◌∙◌, inl, inr, Bool-cases,
  List, [], ◌∷◌, ◌==◌, ltb, All, Elem, length, if◌then◌else◌, arith,
}
use bonsaigrid.Base.Bytes.{Bytes}
use bonsaigrid.Store.Slab.{SizeClass, alloc, pop_free, take_next, grown, off, slice, splice, u32}
use bonsaigrid.Store.Slab.Arena.{
  slice-splice_self, slice-splice_before, slice-splice_after, slice-resize, length-splice,
  length-resize,
}

unfoldable pub Distinct : List ℕ → Type 0
Distinct [] = Unit
Distinct (x ∷ xs) = ¬ (Elem x xs) × Distinct xs

-- The arena has the size of its slots, and the free list has slots that were handed out, once each.
unfoldable pub ClassFits : SizeClass → Type 0
ClassFits c =
    (length c.bytes ≡ c.obj * c.cap)
    × (c.used ≤ c.cap)
    × All (λ s. s < c.used) c.free
    × Distinct c.free

-- A slot is in use.
unfoldable pub Taken : SizeClass → ℕ → Type 0
Taken c s = (s < c.used) × ¬ (Elem s c.free)

-- The arena can grow without a wrap of the number of slots.
unfoldable pub Small : SizeClass → Type 0
Small c = c.cap + c.cap / 2 + 1 < 2 ^ 32

pub slots_apart : (o t s : ℕ) → t < s → t * o + o ≤ s * o
slots_apart o t s lt =
    let m : suc t * o ≤ s * o = mul-le-mul_right o (omega arith) in omega (arith, m)

pub Elem-below : (xs : List ℕ) (n s : ℕ) → All (λ s. s < n) xs → Elem s xs → s < n
Elem-below [] n s h e = elim e [ ]
Elem-below (x ∷ xs) n s h (inl same) = subst (λ k. k < n) (sym same) h.0
Elem-below (x ∷ xs) n s h (inr e) = Elem-below xs n s h.1 e

pub All-weaken : (xs : List ℕ) (m n : ℕ) → m ≤ n → All (λ s. s < m) xs → All (λ s. s < n) xs
All-weaken [] m n le h = tt
All-weaken (x ∷ xs) m n le h = (omega (arith, h.0), All-weaken xs m n le h.1)

-- The slot and the class that `alloc` returns: the slot was not in use and is now, the others that
-- were are, and their bytes are as they were.
unfoldable pub Allocates : SizeClass → SizeClass × ℕ → Type 0
Allocates c r =
    ClassFits r.0
    × (r.0.obj ≡ c.obj)
    × ¬ (Taken c r.1)
    × Taken r.0 r.1
    × ((t : ℕ) → Taken c t → Taken r.0 t)
    × ((t len : ℕ)
        → Taken c t
        → len ≤ c.obj
        → slice r.0.bytes (off r.0 t) len ≡ slice c.bytes (off c t) len)

grown-cap : (c : SizeClass) → Small c → ((grown c).cap ≡ max (c.cap + c.cap / 2) (c.cap + 1))
unfolding grown Small
grown-cap c small =
    let a : u32 (c.cap + c.cap / 2) ≡ c.cap + c.cap / 2 = mod-eq_of_lt (omega (arith, small)) in
    let b : u32 (c.cap + 1) ≡ c.cap + 1 = mod-eq_of_lt (omega (arith, small)) in omega (arith, a, b)

-- A class whose arena grows.
grown_fits :
    (c : SizeClass)
    → ClassFits c
    → Small c
    → ClassFits (grown c)
      × (c.used < (grown c).cap)
      × ((t len : ℕ)
          → t < c.used
          → len ≤ c.obj
          → slice (grown c).bytes (off (grown c) t) len ≡ slice c.bytes (off c t) len)
unfolding ClassFits grown off
grown_fits c (size, used, free, once) small =
    let cap = grown-cap c small in
    (
      (
        length-resize c.bytes (c.obj * (grown c).cap) (
            let m : c.obj * c.cap ≤ c.obj * (grown c).cap =
              mul-le-mul_left c.obj (omega (arith, cap)) in
            omega (arith, m, size)),
        omega (arith, used, cap),
        free,
        once,
      ),
      omega (arith, used, cap),
      λ t len lt le. slice-resize c.bytes (c.obj * (grown c).cap) (t * c.obj) len (
          let m = slots_apart c.obj t c.cap (omega (arith, lt, used)) in
          let e = mul_comm c.obj c.cap in omega (arith, m, e, size, le)),
    )

-- The next slot that was never in use.
next_fits :
    (c : SizeClass) → ClassFits c → c.used < c.cap → c.cap < 2 ^ 32 → Allocates c (take_next c)
unfolding Allocates ClassFits Taken take_next off
next_fits c (size, used, free, once) room small =
    let next : u32 (c.used + 1) ≡ c.used + 1 = mod-eq_of_lt (omega (arith, room, small)) in
    (
      (
        size,
        omega (arith, next, room),
        All-weaken c.free c.used (u32 (c.used + 1)) (omega (arith, next)) free,
        once,
      ),
      refl,
      (λ t. omega (arith, t.0)),
      (
        omega (arith, next),
        λ e. absurd (let lt = Elem-below c.free c.used c.used free e in omega (arith, lt)),
      ),
      (λ t h. (let lt = h.0 in omega (arith, lt, next), h.1)),
      λ t len h le. refl,
    )

-- The slot on top of the free list.
pop_fits :
    (c : SizeClass) (s : ℕ) (rest : List ℕ)
    → ClassFits c
    → c.free ≡ s ∷ rest
    → Allocates c (record c { free = rest }, s)
unfolding Allocates ClassFits Taken off Distinct
pop_fits c s rest (size, used, free, once) e =
    let below : All (λ t. t < c.used) (s ∷ rest) = subst (All (λ t. t < c.used)) e free in
    let once_each : Distinct (s ∷ rest) = subst Distinct e once in
    let (fresh, once') = once_each in
    (
      (size, used, below.1, once'),
      refl,
      (λ t. t.1 (subst (Elem s) (sym e) (inl refl))),
      (below.0, fresh),
      (λ t h. (h.0, λ m. h.1 (subst (Elem t) (sym e) (inr m)))),
      λ t len h le. refl,
    )

-- The next slot of an arena that is full.
grow_fits : (c : SizeClass) → ClassFits c → Small c → Allocates c (take_next (grown c))
unfolding Allocates take_next Taken off Small grown
grow_fits c fits small =
    let (fits', room, same) = grown_fits c fits small in
    let cap = grown-cap c small in
    let (done, obj, fresh, taken, others, bytes) =
      next_fits (grown c) fits' room (omega (arith, cap, small)) in
    (
      done,
      refl,
      (λ t. fresh t),
      taken,
      (λ t h. others t h),
      λ t len h le. bytes t len h le ∙ same t len h.0 le,
    )

next_slot :
    (c : SizeClass)
    → ClassFits c
    → Small c
    → Allocates c (take_next (if c.used == c.cap then grown c else c))
unfolding Small ClassFits
next_slot c fits small = elim (Bool-cases (c.used == c.cap)) [
  | inl full ↦ rw (full) (grow_fits c fits small)
  | inr room ↦
      let le = fits.1 in
      rw (room) (next_fits c fits (ground (arith, room, le)) (omega (arith, small)))
]

pub alloc-Allocates : (c : SizeClass) → ClassFits c → Small c → Allocates c (alloc c)
unfolding alloc pop_free
alloc-Allocates c fits small = popped c.free refl
  where
    popped : (free : List ℕ) → c.free ≡ free → Allocates c (pop_free c free)
    popped [] e = next_slot c fits small
    popped (s ∷ rest) e = pop_fits c s rest fits e

-- What the class is after bytes were written at the slot that `alloc` returned.
unfoldable pub Stored : SizeClass → Bytes → SizeClass × ℕ → Type 0
Stored c d r =
    ClassFits r.0
    × (r.0.obj ≡ c.obj)
    × ¬ (Taken c r.1)
    × Taken r.0 r.1
    × (slice r.0.bytes (off r.0 r.1) (length d) ≡ d)
    × ((t len : ℕ)
        → Taken c t
        → len ≤ c.obj
        → Taken r.0 t × (slice r.0.bytes (off r.0 t) len ≡ slice c.bytes (off c t) len))

abbrev pub write : SizeClass → ℕ → Bytes → SizeClass
write c s d = record c { bytes = splice c.bytes (off c s) d }

slot_in :
    (c : SizeClass) (t len : ℕ)
    → ClassFits c
    → t < c.used
    → len ≤ c.obj
    → t * c.obj + len ≤ length c.bytes
unfolding ClassFits
slot_in c t len (size, used, free, once) lt le =
    let m = slots_apart c.obj t c.cap (omega (arith, lt, used)) in
    let e = mul_comm c.obj c.cap in omega (arith, m, e, size, le)

-- Two slots of one class do not overlap.
write_other :
    (c : SizeClass) (s t len : ℕ) (d : Bytes)
    → ClassFits c
    → s < c.used
    → s ≢ t
    → length d ≤ c.obj
    → len ≤ c.obj
    → slice (splice c.bytes (s * c.obj) d) (t * c.obj) len ≡ slice c.bytes (t * c.obj) len
write_other c s t len d fits lt ne small le = elim (Bool-cases (ltb t s)) [
  | inl before ↦
      slice-splice_before c.bytes d (s * c.obj) (t * c.obj) len
        (let i = slot_in c s 0 fits lt (omega arith) in omega (arith, i))
        (let a = slots_apart c.obj t s (ground (arith, before)) in omega (arith, a, le))
  | inr after ↦
      slice-splice_after c.bytes d (s * c.obj) (t * c.obj) len
        (let i = slot_in c s 0 fits lt (omega arith) in omega (arith, i))
        (let a = slots_apart c.obj s t (ground (arith, after, ne)) in omega (arith, a, small))
]

pub alloc-Stored :
    (c : SizeClass) (d : Bytes)
    → ClassFits c
    → Small c
    → length d ≤ c.obj
    → let r = alloc c in Stored c d (write r.0 r.1 d, r.1)
unfolding Stored Allocates ClassFits Taken off
alloc-Stored c d fits small le =
    let (c', s) = alloc c in
    let (fits', obj, fresh, taken, others, bytes) = alloc-Allocates c fits small in
    let room = slot_in c' s (length d) fits' taken.0 (omega (arith, le, obj)) in
    (
      (length-splice c'.bytes d (s * c'.obj) room ∙ fits'.0, fits'.1, fits'.2, fits'.3),
      obj,
      fresh,
      taken,
      slice-splice_self c'.bytes d (s * c'.obj) (omega (arith, room)),
      λ t len h small. (
        others t h,
        write_other c' s t len d fits' taken.0 (λ e. fresh (subst (Taken c) (sym e) h))
              (omega (arith, le, obj)) (omega (arith, small, obj))
            ∙ bytes t len h small,
      ),
    )
