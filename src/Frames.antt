-- ===== src/Frames.antt =====
-- Streams of frames `[u32 length][u32 checksum][body]`, the layout that crates/raft/src/log.rs,
-- crates/wan/src/record.rs and crates/persistence/src/record.rs share. A reader takes one frame off
-- the front, or stops.
use bonsaigrid.Base.{
  ℕ, zero, suc, ◌+◌, ◌^◌, ◌%◌, ◌<◌, ◌≡◌, refl, sym, ap, ◌∙◌, Option, none, some, List, [], ◌∷◌,
  ◌++◌, length, length-append, take, drop, drop-drop, take-length-append, drop-length-append,
  append_assoc, All, arith,
}
use bonsaigrid.Base.Bytes.{
  Bytes, le_bytes, from_le, from_le-le_bytes, length-le_bytes, take-le_bytes, drop-le_bytes,
}

-- The loop that reads frames until the reader stops, with fuel.
unfoldable pub read_all : {R : Type 0} → (Bytes → Option (R × Bytes)) → ℕ → Bytes → List R
read_all next zero bs = []
read_all next (suc f) bs = elim (next bs) [ none ↦ [] | some r ↦ r.0 ∷ read_all next f r.1 ]

-- The bytes at which that loop stops.
unfoldable pub unread : {R : Type 0} → (Bytes → Option (R × Bytes)) → ℕ → Bytes → Bytes
unread next zero bs = bs
unread next (suc f) bs = elim (next bs) [ none ↦ bs | some r ↦ unread next f r.1 ]

unfoldable pub write_all : {R : Type 0} → (R → Bytes) → List R → Bytes
write_all enc [] = []
write_all enc (r ∷ rs) = enc r ++ write_all enc rs

pub write_all-append :
    {R : Type 0} (enc : R → Bytes) (rs ss : List R)
    → write_all enc (rs ++ ss) ≡ write_all enc rs ++ write_all enc ss
unfolding write_all
write_all-append enc [] ss = refl
write_all-append enc (r ∷ rs) ss =
    ap (λ bs. enc r ++ bs) (write_all-append enc rs ss)
    ∙ sym (append_assoc (enc r) (write_all enc rs) (write_all enc ss))

-- What a format promises: a written frame is read back, whatever follows it, and is not empty.
pub record IsFormat {R : Type 0} (enc : R → Bytes) (next : Bytes → Option (R × Bytes))
    (Ok : R → Type 0) : Type 0 where
  pub reads : (r : R) (rest : Bytes) → Ok r → next (enc r ++ rest) ≡ some (r, rest)
  pub takes : (r : R) → 0 < length (enc r)

module _ {R : Type 0} {enc : R → Bytes} {next : Bytes → Option (R × Bytes)} {Ok : R → Type 0}
    (f : IsFormat enc next Ok) where
  recovers :
      (k : ℕ) (rs : List R) (tail : Bytes)
      → All Ok rs
      → next tail ≡ none
      → length (write_all enc rs ++ tail) < k
      → (read_all next k (write_all enc rs ++ tail) ≡ rs)
        × (unread next k (write_all enc rs ++ tail) ≡ tail)
  unfolding read_all unread write_all
  recovers zero rs tail ok stop h = elim h [ ]
  recovers (suc k) [] tail ok stop h = (rw (stop, read_all), rw (stop, unread))
  recovers (suc k) (r ∷ rs) tail ok stop h =
      let e : (enc r ++ write_all enc rs) ++ tail ≡ enc r ++ (write_all enc rs ++ tail) =
        append_assoc (enc r) (write_all enc rs) tail in
      let shorter : length (write_all enc rs ++ tail) < k =
        omega (arith, ap length e, length-append (enc r) (write_all enc rs ++ tail), f.takes r) in
      let later = recovers k rs tail ok.1 stop shorter in
      (
        rw (e, f.reads r (write_all enc rs ++ tail) ok.0, read_all) (ap (λ ss. r ∷ ss) later.0),
        rw (e, f.reads r (write_all enc rs ++ tail) ok.0, unread) later.1,
      )

  -- Fuel for every byte is enough to read back all that was written, up to a tail at which the
  -- reader stops.
  pub read_all_recovers :
      (rs : List R) (tail : Bytes)
      → All Ok rs
      → next tail ≡ none
      → let bs = write_all enc rs ++ tail in read_all next (suc (length bs)) bs ≡ rs
  read_all_recovers rs tail ok stop = (recovers _ rs tail ok stop (omega arith)).0

  pub unread_recovers :
      (rs : List R) (tail : Bytes)
      → All Ok rs
      → next tail ≡ none
      → let bs = write_all enc rs ++ tail in unread next (suc (length bs)) bs ≡ tail
  unread_recovers rs tail ok stop = (recovers _ rs tail ok stop (omega arith)).1

-- `v.to_le_bytes()` of a u32.
abbrev pub u32_bytes : ℕ → Bytes
u32_bytes v = le_bytes 4 v

-- The slices `0..4`, `4..8`, the body and what follows of a frame.
pub record Slices (n c : ℕ) (body rest bs : Bytes) : Type 0 where
  pub size : length bs ≡ 8 + length body + length rest
  pub first : from_le (take 4 bs) ≡ n
  pub second : from_le (take 4 (drop 4 bs)) ≡ c
  pub middle : take (length body) (drop 8 bs) ≡ body
  pub behind : drop (8 + length body) bs ≡ rest

pub frame-Slices :
    (n c : ℕ) (body rest : Bytes)
    → n < 2 ^ 32
    → c < 2 ^ 32
    → Slices n c body rest (u32_bytes n ++ (u32_bytes c ++ (body ++ rest)))
frame-Slices n c body rest hn hc =
    let two = u32_bytes c ++ (body ++ rest) in
    let bs = u32_bytes n ++ two in
    let past : drop 8 bs ≡ body ++ rest =
      drop-drop 4 4 bs ∙ ap (drop 4) (drop-le_bytes 4 n two) ∙ drop-le_bytes 4 c (body ++ rest) in
    record {
      size = omega (
        arith,
        length-append (u32_bytes n) two,
        length-append (u32_bytes c) (body ++ rest),
        length-append body rest,
        length-le_bytes 4 n,
        length-le_bytes 4 c,
      );
      first = ap from_le (take-le_bytes 4 n two) ∙ from_le-le_bytes 4 n (omega arith);
      second =
          ap (λ xs. from_le (take 4 xs)) (drop-le_bytes 4 n two)
          ∙ ap from_le (take-le_bytes 4 c (body ++ rest))
          ∙ from_le-le_bytes 4 c (omega arith);
      middle = ap (take (length body)) past ∙ take-length-append body rest;
      behind =
          drop-drop 8 (length body) bs
          ∙ ap (drop (length body)) past
          ∙ drop-length-append body rest;
    }

-- A body in its frame: `body.len() as u32 + 4` wraps.
unfoldable pub frame : (Bytes → ℕ) → Bytes → Bytes
frame crc body = u32_bytes ((length body % 2 ^ 32 + 4) % 2 ^ 32) ++ (u32_bytes (crc body) ++ body)

pub length-frame : (crc : Bytes → ℕ) (body : Bytes) → length (frame crc body) ≡ 8 + length body
unfolding frame
length-frame crc body =
    let n = (length body % 2 ^ 32 + 4) % 2 ^ 32 in
    omega (
      arith,
      length-append (u32_bytes n) (u32_bytes (crc body) ++ body),
      length-append (u32_bytes (crc body)) body,
      length-le_bytes 4 n,
      length-le_bytes 4 (crc body),
    )

pub framed-Slices :
    (crc : Bytes → ℕ) (body rest : Bytes)
    → length body + 4 < 2 ^ 32
    → crc body < 2 ^ 32
    → Slices (length body + 4) (crc body) body rest (frame crc body ++ rest)
unfolding frame
framed-Slices crc body rest size small =
    let n : (length body % 2 ^ 32 + 4) % 2 ^ 32 ≡ length body + 4 = omega arith in
    rw
      (
        n,
        append_assoc (u32_bytes (length body + 4)) (u32_bytes (crc body) ++ body) rest,
        append_assoc (u32_bytes (crc body)) body rest,
      )
      (frame-Slices (length body + 4) (crc body) body rest size small)
