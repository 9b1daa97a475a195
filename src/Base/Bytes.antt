-- ===== src/Base/Bytes.antt =====
-- Byte strings: little-endian integers, blobs and UTF-8, as Rust's `to_le_bytes`,
-- `from_le_bytes`, slices and `from_utf8` read and write them. A byte is a number below 256.
use native.Mathlib.Nat.{pow-suc}
use mathlib.Core.Path.{sym, ◌∙◌}
use bonsaigrid.Base.{
  ℕ, zero, suc, ◌+◌, ◌-◌, ◌*◌, ◌/◌, ◌%◌, ◌^◌, ◌<◌, ◌≡◌, refl, ap, Bool, true, false, ◌&&◌, Option,
  none, some, List, [], ◌∷◌, ◌++◌, length, take, drop, leb, ltb, ◌==◌, if◌then◌else◌, arith,
  length-append, take-length-append, drop-length-append,
}

abbrev pub Bytes : Type 0
Bytes = List ℕ

unfoldable pub le_bytes : ℕ → ℕ → Bytes
le_bytes zero w = []
le_bytes (suc k) w = (w % 256) ∷ le_bytes k (w / 256)

unfoldable pub from_le : Bytes → ℕ
from_le [] = 0
from_le (b ∷ bs) = b + 256 * from_le bs

below_quotient : (k w : ℕ) → w < 256 ^ suc k → w / 256 < 256 ^ k
below_quotient k w h = omega (arith, pow-suc 256 k)

pub from_le-le_bytes : (k w : ℕ) → w < 256 ^ k → from_le (le_bytes k w) ≡ w
unfolding from_le le_bytes
from_le-le_bytes zero w h = omega arith
from_le-le_bytes (suc k) w h =
    let q : w / 256 < 256 ^ k = below_quotient k w h in
    omega (arith, from_le-le_bytes k (w / 256) q)

pub length-le_bytes : (k w : ℕ) → length (le_bytes k w) ≡ k
unfolding le_bytes
length-le_bytes zero w = refl
length-le_bytes (suc k) w = ap suc (length-le_bytes k (w / 256))

pub take-le_bytes : (k v : ℕ) (rest : Bytes) → take k (le_bytes k v ++ rest) ≡ le_bytes k v
take-le_bytes k v rest =
    ap (λ j. take j (le_bytes k v ++ rest)) (sym (length-le_bytes k v))
    ∙ take-length-append (le_bytes k v) rest

pub drop-le_bytes : (k v : ℕ) (rest : Bytes) → drop k (le_bytes k v ++ rest) ≡ rest
drop-le_bytes k v rest =
    ap (λ j. drop j (le_bytes k v ++ rest)) (sym (length-le_bytes k v))
    ∙ drop-length-append (le_bytes k v) rest

pub from_le-take-le_bytes :
    (k v : ℕ) (rest : Bytes) → v < 256 ^ k → from_le (take k (le_bytes k v ++ rest)) ≡ v
from_le-take-le_bytes k v rest h = ap from_le (take-le_bytes k v rest) ∙ from_le-le_bytes k v h

-- `b.get(0..n)` with the bytes behind it, or `none` where there are too few.
unfoldable pub split_at : ℕ → Bytes → Option (Bytes × Bytes)
split_at n bs = if leb n (length bs) then some (take n bs, drop n bs) else none

pub split_at-append : (xs ys : Bytes) → split_at (length xs) (xs ++ ys) ≡ some (xs, ys)
unfolding split_at
split_at-append xs ys =
    ground (arith, length-append xs ys, take-length-append xs ys, drop-length-append xs ys)

-- The continuation bytes that are still due, and the range of the next one.
pub record Due : Type 0 where
  pub count : ℕ
  pub lo : ℕ
  pub hi : ℕ

abbrev within : ℕ → ℕ → ℕ → Bool
within lo hi b = leb lo b && leb b hi

abbrev due : ℕ → ℕ → ℕ → Option Due
due k lo hi = some (record { count = k; lo = lo; hi = hi })

-- The first byte of a character.
unfoldable pub first_byte : ℕ → Option Due
first_byte b =
    if ltb b 0x80
    then due 0 0 0
    else if within 0xC2 0xDF b
    then due 1 0x80 0xBF
    else if b == 0xE0
    then due 2 0xA0 0xBF
    else if b == 0xED
    then due 2 0x80 0x9F
    else if within 0xE1 0xEF b
    then due 2 0x80 0xBF
    else if b == 0xF0
    then due 3 0x90 0xBF
    else if within 0xF1 0xF3 b
    then due 3 0x80 0xBF
    else if b == 0xF4
    then due 3 0x80 0x8F
    else none

unfoldable pub next_byte : Due → ℕ → Option Due
unfolding first_byte
next_byte d b =
    if d.count == 0
    then first_byte b
    else if within d.lo d.hi b
    then due (d.count - 1) 0x80 0xBF
    else none

unfoldable pub valid_utf8 : Due → Bytes → Bool
unfolding next_byte
valid_utf8 d [] = d.count == 0
valid_utf8 d (b ∷ bs) = elim (next_byte d b) [ none ↦ false | some d' ↦ valid_utf8 d' bs ]

abbrev pub is_utf8 : Bytes → Bool
is_utf8 bs = valid_utf8 (record { count = 0; lo = 0; hi = 0 }) bs

-- `std::str::from_utf8(bytes).ok()`: a string is its bytes.
unfoldable pub from_utf8 : Bytes → Option Bytes
unfolding valid_utf8
from_utf8 bs = if is_utf8 bs then some bs else none

pub from_utf8-is_utf8 : (bs : Bytes) → is_utf8 bs ≡ true → from_utf8 bs ≡ some bs
unfolding from_utf8
from_utf8-is_utf8 bs u = rw u

accents :
    from_utf8 (0x6B ∷ 0xC3 ∷ 0xA9 ∷ 0xF0 ∷ 0x9F ∷ 0x98 ∷ 0x80 ∷ [])
    ≡ some (0x6B ∷ 0xC3 ∷ 0xA9 ∷ 0xF0 ∷ 0x9F ∷ 0x98 ∷ 0x80 ∷ [])
unfolding from_utf8
accents = refl

surrogate : from_utf8 (0xED ∷ 0xA0 ∷ 0x80 ∷ []) ≡ none
unfolding from_utf8
surrogate = refl
