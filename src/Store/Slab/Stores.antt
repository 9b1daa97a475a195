-- ===== src/Store/Slab/Stores.antt =====
-- `put_two` of crates/store/src/slab.rs.
use native.Mathlib.Nat.{mod-eq_of_lt}
use bonsaigrid.Base.{
  ℕ, zero, suc, ◌+◌, ◌-◌, ◌≤◌, ◌<◌, ◌≡◌, refl, sym, ap, subst, ◌∙◌, inl, inr, none, some,
  Option-cases, List, [], ◌∷◌, ◌++◌, All, Elem, length, get_or, set, take, length-append,
  length-set, get_or-set_self, get_or-set_ne, take-all, arith,
}
use bonsaigrid.Base.Bytes.{Bytes}
use bonsaigrid.Store.Slab.{
  Slab, class_sizes, class_at, class_for, put_class, put_overflow, put_in, put_two, alloc, u32,
}
use bonsaigrid.Store.Slab.Alloc.{Distinct, alloc-Stored, write, All-weaken, Elem-below}
use bonsaigrid.Store.Slab.Memory.{
  SlabFits, SlabSmall, Allocated, RoomFor, Others, Puts, get-class, get-overflow, class_write,
  position_fits,
}

get_or-append_left :
    (xs : List Bytes) (d : Bytes) (i : ℕ)
    → i < length xs
    → get_or (xs ++ d ∷ []) i [] ≡ get_or xs i []
get_or-append_left [] d i lt = elim lt [ ]
get_or-append_left (x ∷ xs) d zero lt = refl
get_or-append_left (x ∷ xs) d (suc i) lt = get_or-append_left xs d i (omega arith)

get_or-append_length : (xs : List Bytes) (d : Bytes) → get_or (xs ++ d ∷ []) (length xs) [] ≡ d
get_or-append_length [] d = refl
get_or-append_length (x ∷ xs) d = get_or-append_length xs d

-- A new slot at the end of the overflow list.
overflow_push : (s : Slab) (d : Bytes) → SlabFits s → SlabSmall s → Puts s d (put_overflow s d [])
unfolding SlabFits SlabSmall Allocated RoomFor Puts Others put_overflow
overflow_push s d (count, fits, below, once) (small, few) =
    let r = put_overflow s d [] in
    let size : length (s.overflow ++ d ∷ []) ≡ length s.overflow + 1 =
      length-append s.overflow (d ∷ []) in
    let slot : u32 (length s.overflow) ≡ length s.overflow = mod-eq_of_lt (omega (arith, few)) in
    (
      (
        count,
        fits,
        All-weaken s.overflow_free (length s.overflow) (length (s.overflow ++ d ∷ []))
            (omega (arith, size)) below,
        once,
      ),
      (λ a. elim a [
        | inl (e, lt, m) ↦ absurd (omega (arith, lt, slot))
        | inr (lt, taken) ↦ absurd (omega (arith, lt))
      ]),
      inl (
        refl,
        omega (arith, size, slot),
        λ m. absurd (
            let lt = Elem-below s.overflow_free (length s.overflow) _ below m in
            omega (arith, lt, slot)),
      ),
      inl refl,
      get-overflow r.0 r.1 (length d) refl
          ∙ ap (take (length d)) (
              ap (λ k. get_or (s.overflow ++ d ∷ []) k []) slot ∙ get_or-append_length s.overflow d)
          ∙ take-all (length d) d (omega arith),
      λ g len ne a room. elim a [
        | inl (e, lt, m) ↦ (
          inl (e, omega (arith, lt, size), m),
          get-overflow r.0 g len e
              ∙ ap (take len) (get_or-append_left s.overflow d g.slot lt)
              ∙ sym (get-overflow s g len e),
        )
        | inr (ltg, taken) ↦
            (inr (ltg, taken), get-class r.0 g len ltg ∙ sym (get-class s g len ltg))
      ],
    )

-- The slot on top of the overflow list's free list.
overflow_pop :
    (s : Slab) (d : Bytes) (f : ℕ) (rest : List ℕ)
    → SlabFits s
    → s.overflow_free ≡ f ∷ rest
    → Puts s d (put_overflow s d (f ∷ rest))
unfolding SlabFits Allocated RoomFor Puts Others put_overflow Distinct
overflow_pop s d f rest (count, fits, below, once) top =
    let r = put_overflow s d (f ∷ rest) in
    let size = length-set s.overflow f d in
    let below' : All (λ t. t < length s.overflow) (f ∷ rest) =
      subst (All (λ t. t < length s.overflow)) top below in
    let once' : Distinct (f ∷ rest) = subst Distinct top once in
    (
      (
        count,
        fits,
        All-weaken rest (length s.overflow) (length (set s.overflow f d)) (omega (arith, size))
            below'.1,
        once'.1,
      ),
      (λ a. elim a [
        | inl (e, lt, m) ↦ absurd (m (subst (Elem f) (sym top) (inl refl)))
        | inr (lt, taken) ↦ absurd (omega (arith, lt))
      ]),
      inl (refl, (let lt = below'.0 in omega (arith, lt, size)), once'.0),
      inl refl,
      get-overflow r.0 r.1 (length d) refl
          ∙ ap (take (length d)) (get_or-set_self s.overflow f d [] below'.0)
          ∙ take-all (length d) d (omega arith),
      λ g len ne a room. elim a [
        | inl (e, lt, m) ↦ (
          inl (e, omega (arith, lt, size), λ q. m (subst (Elem g.slot) (sym top) (inr q))),
          get-overflow r.0 g len e
              ∙ ap (take len) (
                  get_or-set_ne s.overflow f g.slot d []
                    (λ same. m (subst (Elem g.slot) (sym top) (inl (sym same)))))
              ∙ sym (get-overflow s g len e),
        )
        | inr (ltg, taken) ↦
            (inr (ltg, taken), get-class r.0 g len ltg ∙ sym (get-class s g len ltg))
      ],
    )

put_in_overflow : (s : Slab) (d : Bytes) → SlabFits s → SlabSmall s → Puts s d (put_in s none d)
unfolding put_in
put_in_overflow s d fits small = top s.overflow_free refl
  where
    top : (free : List ℕ) → s.overflow_free ≡ free → Puts s d (put_overflow s d s.overflow_free)
    top [] e =
        subst (λ free. Puts s d (put_overflow s d free)) (sym e) (overflow_push s d fits small)
    top (f ∷ rest) e =
        subst (λ free. Puts s d (put_overflow s d free)) (sym e) (overflow_pop s d f rest fits e)

put_in_class :
    (s : Slab) (d : Bytes) (ci : ℕ)
    → SlabFits s
    → SlabSmall s
    → ci < 20
    → length d ≤ get_or class_sizes ci 0
    → Puts s d (put_in s (some ci) d)
unfolding put_in put_class SlabFits SlabSmall
put_in_class s d ci fits small lt le =
    let c = fits.1 ci lt in
    class_write s ci d
      (write (alloc (class_at s ci)).0 (alloc (class_at s ci)).1 d, (alloc (class_at s ci)).1) fits
      lt le
      (alloc-Stored (class_at s ci) d c.0 (small.0 ci lt) (let o = c.1 in omega (arith, o, le)))

-- What `put_two` stores is read back by its handle, which was not in use, and no other handle sees it.
pub put_two-Puts :
    (s : Slab) (a b : Bytes) → SlabFits s → SlabSmall s → Puts s (a ++ b) (put_two s a b)
unfolding put_two class_for
put_two-Puts s a b fits small = elim (Option-cases (class_for (length a + length b))) [
  | inl large ↦
      subst (λ o. Puts s (a ++ b) (put_in s o (a ++ b))) (sym large)
        (put_in_overflow s (a ++ b) fits small)
  | inr (ci, chosen) ↦
      let size = length-append a b in
      let (lo, hi, le) = position_fits class_sizes (length a + length b) 0 ci chosen in
      subst (λ o. Puts s (a ++ b) (put_in s o (a ++ b))) (sym chosen)
        (put_in_class s (a ++ b) ci fits small (omega (arith, hi)) (
          subst (λ k. length (a ++ b) ≤ get_or class_sizes k 0)
            (let e : ci - 0 ≡ ci = omega arith in e) (omega (arith, size, le))))
]
