-- ===== src/Base/Int.antt =====
-- Signed machine integers: ℤ over the native numbers, and the two's complement words of i64 and
-- i32. Sums wrap, as a release build computes them.
use bonsaigrid.Base.{
  ℕ, suc, ◌+◌, ◌-◌, ◌*◌, ◌%◌, ◌≤◌, ◌<◌, ◌≡◌, ◌↔◌, Bool, true, false, leb, ltb, ◌==◌, if◌then◌else◌,
  arith,
}

-- `negsuc n` is -(n + 1).
pub data ℤ : Type 0 where
  pos : ℕ → ℤ
  negsuc : ℕ → ℤ

abbrev pub pos_part : ℤ → ℕ
pos_part (pos n) = n
pos_part (negsuc n) = 0

abbrev pub neg_part : ℤ → ℕ
neg_part (pos n) = 0
neg_part (negsuc n) = suc n

abbrev pub sub_ℕ : ℕ → ℕ → ℤ
sub_ℕ a b = if leb b a then pos (a - b) else negsuc (b - a - 1)

infixl 65 ◌+ℤ◌
infix 50 ◌≤ℤ◌
unfoldable pub ◌+ℤ◌ : ℤ → ℤ → ℤ
a +ℤ b = sub_ℕ (pos_part a + pos_part b) (neg_part a + neg_part b)

abbrev pub ◌≤ℤ◌ : ℤ → ℤ → Type 0
a ≤ℤ b = pos_part a + neg_part b ≤ pos_part b + neg_part a

abbrev pub leb_ℤ : ℤ → ℤ → Bool
leb_ℤ a b = leb (pos_part a + neg_part b) (pos_part b + neg_part a)

abbrev pub eq_ℤ : ℤ → ℤ → Bool
eq_ℤ (pos a) (pos b) = a == b
eq_ℤ (pos a) (negsuc b) = false
eq_ℤ (negsuc a) (pos b) = false
eq_ℤ (negsuc a) (negsuc b) = a == b

pub eq_ℤ_iff : (a b : ℤ) → (eq_ℤ a b ≡ true) ↔ (a ≡ b)
eq_ℤ_iff a b = ground arith

abbrev pub i64_half : ℕ
i64_half = 9223372036854775808

abbrev pub i32_half : ℕ
i32_half = 2147483648

-- The values of a type with `2 * half` words.
abbrev pub Fits : ℕ → ℤ → Type 0
Fits half (pos n) = n < half
Fits half (negsuc n) = n < half

-- The word of a value, and the value of a word, for `2 * half` words.
unfoldable pub to_word : ℕ → ℤ → ℕ
to_word half (pos n) = n
to_word half (negsuc n) = 2 * half - 1 - n

unfoldable pub of_word : ℕ → ℕ → ℤ
of_word half w = if ltb w half then pos w else negsuc (2 * half - 1 - w)

pub to_word-lt : (half : ℕ) (a : ℤ) → Fits half a → to_word half a < 2 * half
unfolding to_word
to_word-lt half (pos n) h = omega arith
to_word-lt half (negsuc n) h = omega arith

pub of_word-to_word : (half : ℕ) (a : ℤ) → Fits half a → of_word half (to_word half a) ≡ a
unfolding to_word of_word
of_word-to_word half (pos n) h = ground arith
of_word-to_word half (negsuc n) h = ground arith

pub to_word-of_word : (half w : ℕ) → w < 2 * half → to_word half (of_word half w) ≡ w
unfolding to_word of_word
to_word-of_word half w h = ground arith

pub of_word-Fits : (half w : ℕ) → w < 2 * half → Fits half (of_word half w)
unfolding of_word
of_word-Fits half w h = ground arith

-- `a + b` on machine integers.
unfoldable pub wrapping_add : ℕ → ℤ → ℤ → ℤ
wrapping_add half a b = of_word half ((to_word half a + to_word half b) % (2 * half))

abbrev pub add_i64 : ℤ → ℤ → ℤ
add_i64 = wrapping_add i64_half

abbrev pub add_i32 : ℤ → ℤ → ℤ
add_i32 = wrapping_add i32_half

unfoldable pub wrapping_sub : ℕ → ℤ → ℤ → ℤ
wrapping_sub half a b = of_word half ((to_word half a + (2 * half - to_word half b)) % (2 * half))

abbrev pub sub_i32 : ℤ → ℤ → ℤ
sub_i32 = wrapping_sub i32_half

-- Where the true sum is a value of the type, it is the machine's sum.
pub add_i64-eq :
    (a b : ℤ) → Fits i64_half a → Fits i64_half b → Fits i64_half (a +ℤ b) → add_i64 a b ≡ a +ℤ b
unfolding wrapping_add of_word to_word ◌+ℤ◌
add_i64-eq a b ha hb h = ground arith

pub add_i32-eq :
    (a b : ℤ) → Fits i32_half a → Fits i32_half b → Fits i32_half (a +ℤ b) → add_i32 a b ≡ a +ℤ b
unfolding wrapping_add of_word to_word ◌+ℤ◌
add_i32-eq a b ha hb h = ground arith

-- `a.max(0)`.
abbrev pub max_zero : ℤ → ℤ
max_zero (pos n) = pos n
max_zero (negsuc n) = pos 0
