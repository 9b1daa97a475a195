-- ===== src/Store/Slab/Memory.antt =====
-- The slab of crates/store/src/slab.rs: what `put_two` stores is read back by its handle until the
-- handle is freed, whatever else is stored and freed meanwhile.
use bonsaigrid.Base.{
  some-injective, none-ne-some, ℕ, suc, ◌+◌, ◌-◌, ◌^◌, ◌≤◌, ◌<◌, ◌≡◌, ◌≢◌, refl, sym, subst, ◌∙◌,
  ◌⊎◌, inl, inr, true, false, Bool-cases, some, List, [], ◌∷◌, leb, All, Elem, length, get_or, set,
  take, length-set, get_or-set_self, get_or-set_ne, ℕ_discrete, arith,
}
use bonsaigrid.Base.Bytes.{Bytes}
use bonsaigrid.Store.Entry.{Handle}
use bonsaigrid.Store.Slab.{
  SizeClass, Slab, class_sizes, overflow_class, no_class, class_at, position, get, off, slice,
}
use bonsaigrid.Store.Slab.Alloc.{ClassFits, Taken, Small, Distinct, Stored}

-- Every class is as its size says, and the overflow list's free list has its free slots, once each.
unfoldable pub SlabFits : Slab → Type 0
SlabFits s =
    (length s.classes ≡ 20)
    × ((ci : ℕ)
        → ci < 20
        → ClassFits (class_at s ci) × ((class_at s ci).obj ≡ get_or class_sizes ci 0))
    × All (λ f. f < length s.overflow) s.overflow_free
    × Distinct s.overflow_free

-- No number of slots is near 2^32.
unfoldable pub SlabSmall : Slab → Type 0
SlabSmall s = ((ci : ℕ) → ci < 20 → Small (class_at s ci)) × (length s.overflow + 1 < 2 ^ 32)

-- A handle has been given out and not been freed.
unfoldable pub Allocated : Slab → Handle → Type 0
Allocated s h =
    ((h.class ≡ overflow_class) × (h.slot < length s.overflow) × ¬ (Elem h.slot s.overflow_free))
    ⊎ ((h.class < 20) × Taken (class_at s h.class) h.slot)

-- What the slot of a handle has room for.
unfoldable pub RoomFor : Handle → ℕ → Type 0
RoomFor h len = (h.class ≡ overflow_class) ⊎ (len ≤ get_or class_sizes h.class 0)

-- The handles other than `h` that were allocated are, with the bytes that they had.
unfoldable pub Others : Slab → Handle → Slab → Type 0
Others s h t =
    (g : Handle) (len : ℕ)
    → g ≢ h
    → Allocated s g
    → RoomFor g len
    → Allocated t g × (get t g len ≡ get s g len)

unfoldable pub Puts : Slab → Bytes → Slab × Handle → Type 0
Puts s d r =
    SlabFits r.0
    × ¬ (Allocated s r.1)
    × Allocated r.0 r.1
    × RoomFor r.1 (length d)
    × (get r.0 r.1 (length d) ≡ d)
    × Others s r.1 r.0

-- The class that is chosen is large enough.
pub position_fits :
    (os : List ℕ) (len i k : ℕ)
    → position os len i ≡ some k
    → (i ≤ k) × (k < i + length os) × (len ≤ get_or os (k - i) 0)
unfolding position
position_fits [] len i k p = absurd (none-ne-some _ p)
position_fits (o ∷ os) len i k p = elim (Bool-cases (leb len o)) [
  | inl fits ↦
      let e : i ≡ k = some-injective _ _ (sym (first fits) ∙ p) in
      (
        omega (arith, e),
        omega (arith, e),
        subst (λ m. len ≤ get_or (o ∷ os) m 0) (let z : 0 ≡ k - i = omega (arith, e) in z)
            (ground (arith, fits)),
      )
  | inr small ↦
      let (lo, hi, large) = position_fits os len (i + 1) k (sym (later small) ∙ p) in
      (
        omega (arith, lo),
        omega (arith, hi),
        subst (λ m. len ≤ get_or (o ∷ os) m 0)
            (let z : suc (k - (i + 1)) ≡ k - i = omega (arith, lo) in z) large,
      )
]
  where
    first : leb len o ≡ true → position (o ∷ os) len i ≡ some i
    first fits = rw (fits) refl

    later : leb len o ≡ false → position (o ∷ os) len i ≡ position os len (i + 1)
    later small = rw (small) refl

pub class_at-set_self :
    (s : Slab) (ci : ℕ) (c : SizeClass)
    → ci < length s.classes
    → class_at (record s { classes = set s.classes ci c }) ci ≡ c
class_at-set_self s ci c lt = get_or-set_self s.classes ci c no_class lt

pub class_at-set_ne :
    (s : Slab) (ci k : ℕ) (c : SizeClass)
    → ci ≢ k
    → class_at (record s { classes = set s.classes ci c }) k ≡ class_at s k
class_at-set_ne s ci k c ne = get_or-set_ne s.classes ci k c no_class ne

-- A handle of a class, and one of the overflow list.
pub get-class :
    (s : Slab) (h : Handle) (len : ℕ)
    → h.class < 20
    → get s h len ≡ slice (class_at s h.class).bytes (off (class_at s h.class) h.slot) len
unfolding get
get-class s h len lt = ground (arith, lt)

pub get-overflow :
    (s : Slab) (h : Handle) (len : ℕ)
    → h.class ≡ overflow_class
    → get s h len ≡ take len (get_or s.overflow h.slot [])
unfolding get
get-overflow s h len e = ground (arith, e)

-- The slots of the slab after a class is replaced by one in which they keep their bytes.
class_others :
    (s : Slab) (ci : ℕ) (d : Bytes) (r : SizeClass × ℕ)
    → SlabFits s
    → ci < 20
    → Stored (class_at s ci) d r
    → (k j len : ℕ) → k < 20
    → Taken (class_at s k) j
    → len ≤ get_or class_sizes k 0
    → let t = record s { classes = set s.classes ci r.0 } in
      Taken (class_at t k) j
      × (slice (class_at t k).bytes (off (class_at t k) j) len
          ≡ slice (class_at s k).bytes (off (class_at s k) j) len)
unfolding SlabFits Stored
class_others s ci d r (count, fits, below, once) lt stored k j len ltk taken le =
    let t = record s { classes = set s.classes ci r.0 } in
    let Same : SizeClass → SizeClass → Type 0 =
      λ c b. Taken c j × (slice c.bytes (off c j) len ≡ slice b.bytes (off b j) len) in
    elim (ℕ_discrete ci k) [
      | no ne ↦
          subst (λ c. Same c (class_at s k)) (sym (class_at-set_ne s ci k r.0 ne)) (taken, refl)
      | yes same ↦
          subst
            (λ k.
              Taken (class_at s k) j
              → len ≤ get_or class_sizes k 0
              → Same (class_at t k) (class_at s k))
            same
            (λ taken le.
              subst (λ c. Same c (class_at s ci))
                (sym (class_at-set_self s ci r.0 (omega (arith, lt, count))))
                (stored.5 j len taken (let o = (fits ci lt).1 in omega (arith, le, o))))
            taken le
    ]

pub class_fits :
    (s : Slab) (ci : ℕ) (c : SizeClass)
    → SlabFits s
    → ci < 20
    → ClassFits c
    → c.obj ≡ (class_at s ci).obj
    → SlabFits (record s { classes = set s.classes ci c })
unfolding SlabFits
class_fits s ci c (count, fits, below, once) lt cfits obj = (
  length-set s.classes ci c ∙ count,
  (λ k ltk. elim (ℕ_discrete ci k) [
    | no ne ↦
        subst (λ c. ClassFits c × (c.obj ≡ get_or class_sizes k 0))
          (sym (class_at-set_ne s ci k c ne)) (fits k ltk)
    | yes same ↦
        subst
          (λ k.
            ClassFits (class_at (record s { classes = set s.classes ci c }) k)
            × ((class_at (record s { classes = set s.classes ci c }) k).obj
                ≡ get_or class_sizes k 0))
          same
          (subst (λ c. ClassFits c × (c.obj ≡ get_or class_sizes ci 0))
            (sym (class_at-set_self s ci c (omega (arith, lt, count))))
            (cfits, obj ∙ (fits ci lt).1))
  ]),
  below,
  once,
)

-- A class is replaced.
pub class_write :
    (s : Slab) (ci : ℕ) (d : Bytes) (r : SizeClass × ℕ)
    → SlabFits s
    → ci < 20
    → length d ≤ get_or class_sizes ci 0
    → Stored (class_at s ci) d r
    → Puts s d (record s { classes = set s.classes ci r.0 }, record { class = ci; slot = r.1 })
unfolding SlabFits Allocated RoomFor Puts Others Stored
class_write s ci d r fits lt small stored =
    let t = record s { classes = set s.classes ci r.0 } in
    let h : Handle = record { class = ci; slot = r.1 } in
    let here : class_at t ci ≡ r.0 =
      class_at-set_self s ci r.0 (let count = fits.0 in omega (arith, lt, count)) in
    (
      class_fits s ci r.0 fits lt stored.0 stored.1,
      (λ a. elim a [
        | inl (e, o, m) ↦ absurd (omega (arith, e, lt))
        | inr (lt', taken) ↦ stored.2 taken
      ]),
      inr (lt, subst (λ c. Taken c r.1) (sym here) stored.3),
      inr small,
      get-class t h (length d) lt
          ∙ subst (λ c. slice c.bytes (off c r.1) (length d) ≡ d) (sym here) stored.4,
      λ g len ne a room. elim a [
        | inl over ↦ (inl over, get-overflow t g len over.0 ∙ sym (get-overflow s g len over.0))
        | inr (ltg, taken) ↦
            let (taken', bytes) =
              class_others s ci d r fits lt stored g.class g.slot len ltg taken
                (inside g len ltg room) in
            (inr (ltg, taken'), get-class t g len ltg ∙ bytes ∙ sym (get-class s g len ltg))
      ],
    )
  where
    inside :
        (g : Handle) (len : ℕ) → g.class < 20 → RoomFor g len → len ≤ get_or class_sizes g.class 0
    inside g len ltg room = elim room [ inl e ↦ absurd (omega (arith, e, ltg)) | inr le ↦ le ]
