-- ===== src/Store/Slab/Arena.antt =====
-- The bytes of a size class of crates/store/src/slab.rs: a write at one slot is read back there, and
-- no other slot sees it.
use bonsaigrid.Base.{
  ℕ, ◌+◌, ◌-◌, ◌≤◌, ◌≡◌, sym, ap, ◌∙◌, ◌++◌, length, take, drop, replicate, length-append,
  length-take, length-drop, length-replicate, take-append-drop, take-append_left,
  take-length-append, drop-append_left, drop-length-append, drop-drop, arith,
}
use bonsaigrid.Base.Bytes.{Bytes}
use bonsaigrid.Store.Slab.{splice, slice, resize}

drop_start : (bs rest : Bytes) (p : ℕ) → p ≤ length bs → drop p (take p bs ++ rest) ≡ rest
drop_start bs rest p le =
    ap (λ k. drop k (take p bs ++ rest))
      (let e = length-take p bs in let w : p ≡ length (take p bs) = omega (arith, e, le) in w)
    ∙ drop-length-append (take p bs) rest

slice_before :
    (bs rest : Bytes) (p q len : ℕ)
    → p ≤ length bs
    → q + len ≤ p
    → slice (take p bs ++ rest) q len ≡ take len (drop q (take p bs))
unfolding slice
slice_before bs rest p q len le before =
    let size = length-take p bs in
    let part = length-drop q (take p bs) in
    ap (take len) (drop-append_left q (take p bs) rest (omega (arith, size, le, before)))
    ∙ take-append_left len (drop q (take p bs)) rest (omega (arith, size, part, le, before))

pub slice-splice_self :
    (bs d : Bytes) (p : ℕ) → p ≤ length bs → slice (splice bs p d) p (length d) ≡ d
unfolding slice splice
slice-splice_self bs d p le =
    ap (take (length d)) (drop_start bs (d ++ drop (p + length d) bs) p le)
    ∙ take-length-append d (drop (p + length d) bs)

pub slice-splice_before :
    (bs d : Bytes) (p q len : ℕ)
    → p ≤ length bs
    → q + len ≤ p
    → slice (splice bs p d) q len ≡ slice bs q len
unfolding splice
slice-splice_before bs d p q len le before =
    slice_before bs (d ++ drop (p + length d) bs) p q len le before
    ∙ sym (slice_before bs (drop p bs) p q len le before)
    ∙ ap (λ xs. slice xs q len) (take-append-drop p bs)

pub slice-splice_after :
    (bs d : Bytes) (p q len : ℕ)
    → p ≤ length bs
    → p + length d ≤ q
    → slice (splice bs p d) q len ≡ slice bs q len
unfolding slice splice
slice-splice_after bs d p q len le after =
    let r = q - (p + length d) in
    let far : q ≡ p + (length d + r) = omega (arith, after) in
    ap (take len) (
      ap (λ k. drop k (take p bs ++ (d ++ drop (p + length d) bs))) far
      ∙ drop-drop p (length d + r) (take p bs ++ (d ++ drop (p + length d) bs))
      ∙ ap (drop (length d + r)) (drop_start bs (d ++ drop (p + length d) bs) p le)
      ∙ drop-drop (length d) r (d ++ drop (p + length d) bs)
      ∙ ap (drop r) (drop-length-append d (drop (p + length d) bs))
      ∙ sym (drop-drop (p + length d) r bs)
      ∙ ap (λ k. drop k bs) (let e : (p + length d) + r ≡ q = omega (arith, after) in e))

pub length-splice :
    (bs d : Bytes) (p : ℕ) → p + length d ≤ length bs → length (splice bs p d) ≡ length bs
unfolding splice
length-splice bs d p le =
    let a = length-append (take p bs) (d ++ drop (p + length d) bs) in
    let b = length-append d (drop (p + length d) bs) in
    let t = length-take p bs in
    let r = length-drop (p + length d) bs in omega (arith, a, b, t, r, le)

pub length-resize : (bs : Bytes) (n : ℕ) → length bs ≤ n → length (resize bs n) ≡ n
unfolding resize
length-resize bs n le =
    let a = length-append bs (replicate (n - length bs) 0) in
    let b = length-replicate {A = ℕ} (n - length bs) 0 in omega (arith, a, b, le)

pub slice-resize :
    (bs : Bytes) (n q len : ℕ) → q + len ≤ length bs → slice (resize bs n) q len ≡ slice bs q len
unfolding slice resize
slice-resize bs n q len le =
    let part = length-drop q bs in
    ap (take len) (drop-append_left q bs (replicate (n - length bs) 0) (omega (arith, le)))
    ∙ take-append_left len (drop q bs) (replicate (n - length bs) 0) (omega (arith, part, le))
