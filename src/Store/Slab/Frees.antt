-- ===== src/Store/Slab/Frees.antt =====
-- `free` of crates/store/src/slab.rs, and the new slab.
use bonsaigrid.Base.{
  ℕ, zero, suc, ◌+◌, ◌*◌, ◌/◌, ◌^◌, ◌<◌, ◌≡◌, ◌≢◌, refl, sym, ap, subst, ◌∙◌, inl, inr, List, [],
  ◌∷◌, Elem, length, map, length-replicate, get_or, set, take, length-set, get_or-set_ne,
  ℕ_discrete, arith,
}
use bonsaigrid.Store.Entry.{Handle}
use bonsaigrid.Store.Slab.{
  SizeClass, Slab, new_class, new_slab, class_sizes, overflow_class, no_class, class_at, free,
  free_class, off, slice,
}
use bonsaigrid.Store.Slab.Alloc.{ClassFits, Taken, Small, Distinct, All-weaken}
use bonsaigrid.Store.Slab.Memory.{
  SlabFits, SlabSmall, Allocated, RoomFor, Others, get-class, get-overflow, class_fits,
  class_at-set_self, class_at-set_ne,
}

-- A freed handle is not in use, and the other handles keep their bytes.
unfoldable pub Releases : Slab → Handle → Slab → Type 0
Releases s h t = SlabFits t × ¬ (Allocated t h) × Others s h t

handle_eq : (g h : Handle) → g.class ≡ h.class → g.slot ≡ h.slot → g ≡ h
handle_eq g h p q = cc

free_overflow :
    (s : Slab) (h : Handle)
    → SlabFits s
    → h.class ≡ overflow_class
    → h.slot < length s.overflow
    → ¬ (Elem h.slot s.overflow_free)
    → Releases s h
        (record s { overflow = set s.overflow h.slot []; overflow_free = h.slot ∷ s.overflow_free })
unfolding SlabFits Allocated RoomFor Releases Others Distinct
free_overflow s h (count, fits, below, once) e lt fresh =
    let t : Slab = record s {
      overflow = set s.overflow h.slot [];
      overflow_free = h.slot ∷ s.overflow_free;
    } in
    let size = length-set s.overflow h.slot [] in
    (
      (
        count,
        fits,
        (
          (omega (arith, size, lt)),
          All-weaken s.overflow_free (length s.overflow) (length (set s.overflow h.slot []))
              (omega (arith, size)) below,
        ),
        (fresh, once),
      ),
      (λ a. elim a [
        | inl (e', lt', m) ↦ m (inl refl)
        | inr (lt', taken) ↦ absurd (omega (arith, lt', e))
      ]),
      λ g len ne a room. elim a [
        | inl (eg, ltg, m) ↦
            let apart : h.slot ≢ g.slot = λ same. ne (handle_eq g h (eg ∙ sym e) (sym same)) in
            (
              inl (
                eg,
                omega (arith, ltg, size),
                λ q. elim q [ inl same ↦ apart (sym same) | inr there ↦ m there ],
              ),
              get-overflow t g len eg
                  ∙ ap (take len) (get_or-set_ne s.overflow h.slot g.slot [] [] apart)
                  ∙ sym (get-overflow s g len eg),
            )
        | inr (ltg, taken) ↦ (inr (ltg, taken), get-class t g len ltg ∙ sym (get-class s g len ltg))
      ],
    )

free_class-ClassFits :
    (c : SizeClass) (slot : ℕ) → ClassFits c → Taken c slot → ClassFits (free_class c slot)
unfolding ClassFits Taken free_class Distinct
free_class-ClassFits c slot (size, used, below, once) (lt, fresh) =
    (size, used, (lt, below), (fresh, once))

-- The slots that stay in use when one of class `ci` is freed.
freed_others :
    (s : Slab) (ci slot : ℕ)
    → SlabFits s
    → ci < 20
    → (k j len : ℕ) → Taken (class_at s k) j
    → (ci ≡ k → slot ≢ j)
    → let t = record s { classes = set s.classes ci (free_class (class_at s ci) slot) } in
      Taken (class_at t k) j
      × (slice (class_at t k).bytes (off (class_at t k) j) len
          ≡ slice (class_at s k).bytes (off (class_at s k) j) len)
unfolding SlabFits
freed_others s ci slot fits lt k j len taken apart =
    let t = record s { classes = set s.classes ci (free_class (class_at s ci) slot) } in
    let Same : SizeClass → SizeClass → Type 0 =
      λ c b. Taken c j × (slice c.bytes (off c j) len ≡ slice b.bytes (off b j) len) in
    elim (ℕ_discrete ci k) [
      | no ne ↦
          subst (λ c. Same c (class_at s k))
            (sym (class_at-set_ne s ci k (free_class (class_at s ci) slot) ne)) (taken, refl)
      | yes same ↦
          subst (λ k. Taken (class_at s k) j → Same (class_at t k) (class_at s k)) same
            (λ taken.
              subst (λ c. Same c (class_at s ci))
                (sym (
                  class_at-set_self s ci (free_class (class_at s ci) slot)
                    (let count = fits.0 in omega (arith, lt, count))))
                (still (class_at s ci) taken (apart same)))
            taken
    ]
  where
    still :
        (c : SizeClass)
        → Taken c j
        → slot ≢ j
        → Taken (free_class c slot) j
          × (slice (free_class c slot).bytes (off (free_class c slot) j) len
              ≡ slice c.bytes (off c j) len)
    still c taken ne =
        unfold Taken free_class off in
        ((taken.0, λ q. elim q [ inl same ↦ ne (sym same) | inr there ↦ taken.1 there ]), refl)

free_slot :
    (s : Slab) (h : Handle)
    → SlabFits s
    → h.class < 20
    → Taken (class_at s h.class) h.slot
    → Releases s h
        (record s { classes = set s.classes h.class (free_class (class_at s h.class) h.slot) })
unfolding SlabFits Allocated Releases Others
free_slot s h fits lt taken =
    let c = free_class (class_at s h.class) h.slot in
    let t : Slab = record s { classes = set s.classes h.class c } in
    let here : class_at t h.class ≡ c =
      class_at-set_self s h.class c (let count = fits.0 in omega (arith, lt, count)) in
    (
      class_fits s h.class c fits lt
          (free_class-ClassFits (class_at s h.class) h.slot (fits.1 h.class lt).0 taken)
          (kept (class_at s h.class)),
      (λ a. elim a [
        | inl (e, o, m) ↦ absurd (omega (arith, e, lt))
        | inr (lt', again) ↦ gone (class_at s h.class) (subst (λ c. Taken c h.slot) here again)
      ]),
      λ g len ne a room. elim a [
        | inl over ↦ (inl over, get-overflow t g len over.0 ∙ sym (get-overflow s g len over.0))
        | inr (ltg, takeng) ↦
            let (taken', bytes) =
              freed_others s h.class h.slot fits lt g.class g.slot len takeng
                (λ same_class same_slot. ne (handle_eq g h (sym same_class) (sym same_slot))) in
            (inr (ltg, taken'), get-class t g len ltg ∙ bytes ∙ sym (get-class s g len ltg))
      ],
    )
  where
    kept : (c : SizeClass) → (free_class c h.slot).obj ≡ c.obj
    kept c = unfold free_class in refl

    gone : (c : SizeClass) → ¬ (Taken (free_class c h.slot) h.slot)
    gone c = unfold Taken free_class in λ again. again.1 (inl refl)

pub free-overflow :
    (s : Slab) (h : Handle)
    → h.class ≡ overflow_class
    → free s h
      ≡ record s { overflow = set s.overflow h.slot []; overflow_free = h.slot ∷ s.overflow_free }
unfolding free
free-overflow s h e = ground (arith, e)

pub free-class :
    (s : Slab) (h : Handle)
    → h.class < 20
    → free s h
      ≡ record s { classes = set s.classes h.class (free_class (class_at s h.class) h.slot) }
unfolding free
free-class s h lt = ground (arith, lt)

-- `free` releases a handle that is in use.
pub free-Releases : (s : Slab) (h : Handle) → SlabFits s → Allocated s h → Releases s h (free s h)
unfolding Allocated
free-Releases s h fits a = elim a [
  | inl (e, lt, fresh) ↦
      subst (Releases s h) (sym (free-overflow s h e)) (free_overflow s h fits e lt fresh)
  | inr (lt, taken) ↦ subst (Releases s h) (sym (free-class s h lt)) (free_slot s h fits lt taken)
]

get_or-map :
    (f : ℕ → SizeClass) (xs : List ℕ) (i : ℕ)
    → i < length xs
    → get_or (map f xs) i no_class ≡ f (get_or xs i 0)
get_or-map f [] i lt = elim lt [ ]
get_or-map f (x ∷ xs) zero lt = refl
get_or-map f (x ∷ xs) (suc i) lt = get_or-map f xs i (omega arith)

new_class-ClassFits : (o : ℕ) → ClassFits (new_class o 64)
unfolding ClassFits new_class Distinct
new_class-ClassFits o = (length-replicate (o * 64) 0, omega arith, tt, tt)

-- A new slab.
pub new_slab-SlabFits : SlabFits new_slab × SlabSmall new_slab
unfolding SlabFits SlabSmall new_slab Small Distinct
new_slab-SlabFits = (
  (
    refl,
    (λ ci lt.
        subst (λ c. ClassFits c × (c.obj ≡ get_or class_sizes ci 0)) (sym (at_class ci lt))
          (new_class-ClassFits (get_or class_sizes ci 0), obj_of (get_or class_sizes ci 0))),
    tt,
    tt,
  ),
  (
    (λ ci lt.
        subst (λ c. c.cap + c.cap / 2 + 1 < 2 ^ 32) (sym (at_class ci lt))
          (cap_of (get_or class_sizes ci 0))),
    omega arith,
  ),
)
  where
    at_class :
        (ci : ℕ)
        → ci < 20
        → get_or (map (λ o. new_class o 64) class_sizes) ci no_class
          ≡ new_class (get_or class_sizes ci 0) 64
    at_class ci lt = get_or-map (λ o. new_class o 64) class_sizes ci lt

    obj_of : (o : ℕ) → (new_class o 64).obj ≡ o
    obj_of o = unfold new_class in refl

    cap_of : (o : ℕ) → (new_class o 64).cap + (new_class o 64).cap / 2 + 1 < 2 ^ 32
    cap_of o = unfold new_class in omega arith
