-- ===== src/Wan/Queue/Cursors.antt =====
-- The cursors of the queue of crates/wan/src/queue.rs.
use bonsaigrid.Base.{
  ℕ, ◌≤◌, ◌≡◌, refl, sym, ap, subst, ◌∙◌, false, Bool-cases, Option-cases, inl, inr, none, some,
  List, [], ◌∷◌, min, Elem, arith,
}
use bonsaigrid.Base.Bytes.{Bytes}
use bonsaigrid.Base.Maps.{bytes_beq, bytes_beq_iff}
use bonsaigrid.Wan.Queue.{
  Cursors, find_cursor, put_cursor, or_insert, or_zero, acked_in, least, min_cursor, add_targets,
}

pub find_cursor-put_cursor :
    (cs : Cursors) (t : Bytes) (v : ℕ) → find_cursor (put_cursor cs t v) t ≡ some v
unfolding find_cursor put_cursor
find_cursor-put_cursor [] t v = ground (arith, bytes_beq_iff t t)
find_cursor-put_cursor (c ∷ cs) t v =
    ground (arith, bytes_beq_iff t t, find_cursor-put_cursor cs t v)

pub find_cursor-put_cursor_ne :
    (cs : Cursors) (s t : Bytes) (v : ℕ)
    → bytes_beq s t ≡ false
    → find_cursor (put_cursor cs s v) t ≡ find_cursor cs t
unfolding find_cursor put_cursor
find_cursor-put_cursor_ne [] s t v h = ground (arith, h)
find_cursor-put_cursor_ne (c ∷ cs) s t v h =
    let later = find_cursor-put_cursor_ne cs s t v h in
    ground (arith, h, later, bytes_beq_iff c.0 s, bytes_beq_iff c.0 t, bytes_beq_iff s t)

found_apart :
    (cs : Cursors) (s t : Bytes) (c : ℕ)
    → find_cursor cs s ≡ none
    → find_cursor cs t ≡ some c
    → bytes_beq s t ≡ false
found_apart cs s t c m h = elim (Bool-cases (bytes_beq s t)) [
  | inl e ↦ let same : s ≡ t = (bytes_beq_iff s t).0 e in cc
  | inr e ↦ e
]

or_insert_absent :
    (cs : Cursors) (s : Bytes) → find_cursor cs s ≡ none → or_insert cs s ≡ put_cursor cs s 0
unfolding or_insert
or_insert_absent cs s h = rw (h, or_insert) refl

or_insert_present :
    (cs : Cursors) (s : Bytes) (c : ℕ) → find_cursor cs s ≡ some c → or_insert cs s ≡ cs
unfolding or_insert
or_insert_present cs s c h = rw (h, or_insert) refl

pub find_cursor-or_insert :
    (cs : Cursors) (s t : Bytes) (c : ℕ)
    → find_cursor cs t ≡ some c
    → find_cursor (or_insert cs s) t ≡ some c
find_cursor-or_insert cs s t c h = elim (Option-cases (find_cursor cs s)) [
  | inl m ↦
      ap (λ ds. find_cursor ds t) (or_insert_absent cs s m)
      ∙ find_cursor-put_cursor_ne cs s t 0 (found_apart cs s t c m h)
      ∙ h
  | inr (d, m) ↦ ap (λ ds. find_cursor ds t) (or_insert_present cs s d m) ∙ h
]

pub find_cursor-or_insert_self :
    (cs : Cursors) (s : Bytes) → find_cursor (or_insert cs s) s ≡ some (acked_in cs s)
unfolding acked_in or_zero
find_cursor-or_insert_self cs s = elim (Option-cases (find_cursor cs s)) [
  | inl m ↦
      ap (λ ds. find_cursor ds s) (or_insert_absent cs s m)
      ∙ find_cursor-put_cursor cs s 0
      ∙ ap (λ o. some (or_zero o)) (sym m)
  | inr (d, m) ↦
      ap (λ ds. find_cursor ds s) (or_insert_present cs s d m)
      ∙ m
      ∙ ap (λ o. some (or_zero o)) (sym m)
]

pub acked_in-find :
    (cs : Cursors) (t : Bytes) (c : ℕ) → find_cursor cs t ≡ some c → acked_in cs t ≡ c
unfolding acked_in or_zero
acked_in-find cs t c h = ap or_zero h

pub acked_in-put_cursor_ne :
    (cs : Cursors) (s t : Bytes) (v : ℕ)
    → bytes_beq s t ≡ false
    → acked_in (put_cursor cs s v) t ≡ acked_in cs t
unfolding acked_in
acked_in-put_cursor_ne cs s t v h = ap or_zero (find_cursor-put_cursor_ne cs s t v h)

pub acked_in-or_insert : (cs : Cursors) (s t : Bytes) → acked_in (or_insert cs s) t ≡ acked_in cs t
acked_in-or_insert cs s t = elim (Option-cases (find_cursor cs s)) [
  | inr (d, m) ↦ ap (λ ds. acked_in ds t) (or_insert_present cs s d m)
  | inl m ↦ elim (Bool-cases (bytes_beq s t)) [
    | inr ne ↦
        ap (λ ds. acked_in ds t) (or_insert_absent cs s m) ∙ acked_in-put_cursor_ne cs s t 0 ne
    | inl e ↦
        subst (λ u. acked_in (or_insert cs s) u ≡ acked_in cs u) ((bytes_beq_iff s t).0 e)
          (acked_in-find (or_insert cs s) s (acked_in cs s) (find_cursor-or_insert_self cs s))
  ]
]

pub find_cursor-add_targets :
    (ts : List Bytes) (cs : Cursors) (t : Bytes) (c : ℕ)
    → find_cursor cs t ≡ some c
    → find_cursor (add_targets cs ts) t ≡ some c
unfolding add_targets
find_cursor-add_targets [] cs t c h = h
find_cursor-add_targets (s ∷ ts) cs t c h =
    find_cursor-add_targets ts (or_insert cs s) t c (find_cursor-or_insert cs s t c h)

pub find_cursor-add_targets_known :
    (ts : List Bytes) (cs : Cursors) (t : Bytes)
    → Elem t ts
    → find_cursor (add_targets cs ts) t ≡ some (acked_in cs t)
unfolding add_targets
find_cursor-add_targets_known [] cs t h = elim h [ ]
find_cursor-add_targets_known (s ∷ ts) cs t (inl e) =
    find_cursor-add_targets ts (or_insert cs s) t (acked_in cs t) (
      subst (λ u. find_cursor (or_insert cs s) u ≡ some (acked_in cs u)) (sym e)
        (find_cursor-or_insert_self cs s))
find_cursor-add_targets_known (s ∷ ts) cs t (inr h) =
    find_cursor-add_targets_known ts (or_insert cs s) t h ∙ ap some (acked_in-or_insert cs s t)

pub acked_in-add_targets :
    (ts : List Bytes) (cs : Cursors) (t : Bytes) → acked_in (add_targets cs ts) t ≡ acked_in cs t
unfolding add_targets
acked_in-add_targets [] cs t = refl
acked_in-add_targets (s ∷ ts) cs t =
    acked_in-add_targets ts (or_insert cs s) t ∙ acked_in-or_insert cs s t

least_le : (cs : Cursors) (m : ℕ) → least m cs ≤ m
unfolding least
least_le [] m = omega arith
least_le (c ∷ cs) m = omega (arith, least_le cs (min m c.1))

least-find : (cs : Cursors) (m : ℕ) (t : Bytes) (c : ℕ) → find_cursor cs t ≡ some c → least m cs ≤ c
unfolding least find_cursor
least-find [] m t c h = absurd (ground arith)
least-find (d ∷ cs) m t c h =
    let later = least-find cs (min m d.1) t c in ground (arith, h, later, least_le cs (min m d.1))

pub min_cursor_le :
    (cs : Cursors) (t : Bytes) (c : ℕ) → find_cursor cs t ≡ some c → min_cursor cs ≤ c
unfolding min_cursor find_cursor
min_cursor_le [] t c h = absurd (ground arith)
min_cursor_le (d ∷ cs) t c h = ground (arith, h, least-find cs d.1 t c, least_le cs d.1)
