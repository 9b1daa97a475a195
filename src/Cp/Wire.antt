-- ===== src/Cp/Wire.antt =====
-- What the command codecs of crates/raft/src share: the reply type of cp.rs, `?` on options, and
-- the layouts `[tag][i64][i64][name]` and `[tag][i32][name]`.
use bonsaigrid.Base.{if◌then◌else◌}
use bonsaigrid.Base.{
  ℕ, ◌≡◌, sym, ap, ◌∙◌, Bool, false, Option, none, some, ◌∷◌, ◌++◌, length, length-append, take,
  drop, ltb, take-length-append, drop-length-append, arith, append_assoc,
}
use bonsaigrid.Base.Bytes.{Bytes, le_bytes, from_le, from_le-le_bytes, length-le_bytes}
use bonsaigrid.Base.Int.{ℤ, Fits, i64_half, i32_half, to_word, of_word, to_word-lt, of_word-to_word}
unfoldable pub use bonsaigrid.Base.Blobs.{put_blob, get_blob}
pub use bonsaigrid.Base.Blobs.{◌>>=◌, get_blob-put_blob}

pub data CpReply : Type 0 where
  long : ℤ → CpReply
  bool : Bool → CpReply
  blob : Option Bytes → CpReply
  nil : CpReply

-- `v.to_le_bytes()` and `from_le_bytes(b)` of an i64 and of an i32.
unfoldable pub i64_bytes : ℤ → Bytes
i64_bytes v = le_bytes 8 (to_word i64_half v)

unfoldable pub i64_from : Bytes → ℤ
i64_from bs = of_word i64_half (from_le bs)

unfoldable pub i32_bytes : ℤ → Bytes
i32_bytes v = le_bytes 4 (to_word i32_half v)

unfoldable pub i32_from : Bytes → ℤ
i32_from bs = of_word i32_half (from_le bs)

pub i64_from-i64_bytes : (v : ℤ) → Fits i64_half v → i64_from (i64_bytes v) ≡ v
unfolding i64_from i64_bytes
i64_from-i64_bytes v h =
    ap (of_word i64_half) (from_le-le_bytes 8 (to_word i64_half v) (to_word-lt i64_half v h))
    ∙ of_word-to_word i64_half v h

pub i32_from-i32_bytes : (v : ℤ) → Fits i32_half v → i32_from (i32_bytes v) ≡ v
unfolding i32_from i32_bytes
i32_from-i32_bytes v h =
    ap (of_word i32_half) (from_le-le_bytes 4 (to_word i32_half v) (to_word-lt i32_half v h))
    ∙ of_word-to_word i32_half v h

pub length-i64_bytes : (v : ℤ) → length (i64_bytes v) ≡ 8
unfolding i64_bytes
length-i64_bytes v = length-le_bytes 8 (to_word i64_half v)

pub length-i32_bytes : (v : ℤ) → length (i32_bytes v) ≡ 4
unfolding i32_bytes
length-i32_bytes v = length-le_bytes 4 (to_word i32_half v)

pub take-i64_bytes : (v : ℤ) (rest : Bytes) → take 8 (i64_bytes v ++ rest) ≡ i64_bytes v
take-i64_bytes v rest =
    ap (λ k. take k (i64_bytes v ++ rest)) (sym (length-i64_bytes v))
    ∙ take-length-append (i64_bytes v) rest

pub drop-i64_bytes : (v : ℤ) (rest : Bytes) → drop 8 (i64_bytes v ++ rest) ≡ rest
drop-i64_bytes v rest =
    ap (λ k. drop k (i64_bytes v ++ rest)) (sym (length-i64_bytes v))
    ∙ drop-length-append (i64_bytes v) rest

pub take-i32_bytes : (v : ℤ) (rest : Bytes) → take 4 (i32_bytes v ++ rest) ≡ i32_bytes v
take-i32_bytes v rest =
    ap (λ k. take k (i32_bytes v ++ rest)) (sym (length-i32_bytes v))
    ∙ take-length-append (i32_bytes v) rest

pub drop-i32_bytes : (v : ℤ) (rest : Bytes) → drop 4 (i32_bytes v ++ rest) ≡ rest
drop-i32_bytes v rest =
    ap (λ k. drop k (i32_bytes v ++ rest)) (sym (length-i32_bytes v))
    ∙ drop-length-append (i32_bytes v) rest

-- `[a][b][name]` behind the tag.
abbrev pub two_ints : ℤ → ℤ → Bytes → Bytes
two_ints a b name = i64_bytes a ++ (i64_bytes b ++ name)

-- The slices `1..9`, `9..17` and `17..` of such a command.
pub record Reads (a b : ℤ) (name bs : Bytes) : Type 0 where
  pub enough : ltb (length bs) 17 ≡ false
  pub first : i64_from (take 8 (drop 1 bs)) ≡ a
  pub second : i64_from (take 8 (drop 9 bs)) ≡ b
  pub rest : drop 17 bs ≡ name

drop_two : (a b : ℤ) (name : Bytes) → drop 16 (two_ints a b name) ≡ name
drop_two a b name =
    let e : length (i64_bytes a ++ i64_bytes b) ≡ 16 =
      omega (
        arith,
        length-append (i64_bytes a) (i64_bytes b),
        length-i64_bytes a,
        length-i64_bytes b,
      ) in
    ap (drop 16) (sym (append_assoc (i64_bytes a) (i64_bytes b) name))
    ∙ ap (λ k. drop k ((i64_bytes a ++ i64_bytes b) ++ name)) (sym e)
    ∙ drop-length-append (i64_bytes a ++ i64_bytes b) name

pub two_ints-Reads :
    (tag : ℕ) (a b : ℤ) (name : Bytes)
    → Fits i64_half a
    → Fits i64_half b
    → Reads a b name (tag ∷ two_ints a b name)
two_ints-Reads tag a b name ha hb = record {
  enough = ground (
    arith,
    length-append (i64_bytes a) (i64_bytes b ++ name),
    length-append (i64_bytes b) name,
    length-i64_bytes a,
    length-i64_bytes b,
  );
  first = ap i64_from (take-i64_bytes a (i64_bytes b ++ name)) ∙ i64_from-i64_bytes a ha;
  second =
      ap (λ bs. i64_from (take 8 bs)) (drop-i64_bytes a (i64_bytes b ++ name))
      ∙ ap i64_from (take-i64_bytes b name)
      ∙ i64_from-i64_bytes b hb;
  rest = drop_two a b name;
}

-- `body.get(1..5)?` as an i32 behind the tag, and what follows it.
unfoldable pub i32_arg : Bytes → Option (ℤ × Bytes)
i32_arg rest = if ltb (length rest) 4 then none else some (i32_from (take 4 rest), drop 4 rest)

pub i32_arg-i32_bytes :
    (n : ℤ) (rest : Bytes) → Fits i32_half n → i32_arg (i32_bytes n ++ rest) ≡ some (n, rest)
unfolding i32_arg
i32_arg-i32_bytes n rest h =
    let long_enough : ltb (length (i32_bytes n ++ rest)) 4 ≡ false =
      ground (arith, length-append (i32_bytes n) rest, length-i32_bytes n) in
    rw (long_enough, take-i32_bytes n rest, drop-i32_bytes n rest, i32_from-i32_bytes n h)

-- `body.get(1..9)?` as an i64 behind the tag.
unfoldable pub i64_arg : Bytes → Option ℤ
i64_arg rest = if ltb (length rest) 8 then none else some (i64_from (take 8 rest))

pub i64_arg-i64_bytes :
    (n : ℤ) (rest : Bytes) → Fits i64_half n → i64_arg (i64_bytes n ++ rest) ≡ some n
unfolding i64_arg
i64_arg-i64_bytes n rest h =
    let long_enough : ltb (length (i64_bytes n ++ rest)) 8 ≡ false =
      ground (arith, length-append (i64_bytes n) rest, length-i64_bytes n) in
    rw (long_enough, take-i64_bytes n rest, i64_from-i64_bytes n h)
