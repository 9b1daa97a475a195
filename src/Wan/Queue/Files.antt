-- ===== src/Wan/Queue/Files.antt =====
-- The cursors file of crates/wan/src/queue.rs: what `persist_cursors` writes is what `read_cursors`
-- reads, and the file stays so through every operation of a queue.
use bonsaigrid.Base.{
  ℕ, suc, ◌+◌, ◌^◌, ◌%◌, ◌<◌, ◌≡◌, refl, sym, ap, subst, ◌∙◌, true, false, Bool-cases, inl, inr,
  Option, none, some, [], ◌∷◌, ◌++◌, append-nil, length, length-append, take, take-length-append,
  drop-length-append, append_assoc, leb, u64_mod, All, arith,
}
use bonsaigrid.Base.Bytes.{
  Bytes, le_bytes, from_le, length-le_bytes, drop-le_bytes, from_le-take-le_bytes, is_utf8,
}
use bonsaigrid.Base.Lossy.{from_utf8_lossy-is_utf8}
use bonsaigrid.Base.Maps.{bytes_beq, bytes_beq_iff}
use bonsaigrid.Frames.{IsFormat, read_all, read_all_recovers, write_all}
use bonsaigrid.Wan.Queue.{
  Cursors, find_cursor, put_cursor, or_zero, acked_in, cursor_bytes, encode_cursor, next_cursor,
  insert_all, read_cursors,
}
use bonsaigrid.Wan.Queue.Cursors.{find_cursor-put_cursor, find_cursor-put_cursor_ne}

-- A target's name: a `String` that is shorter than 4 GiB.
pub record NameFits (name : Bytes) : Type 0 where
  pub utf8 : is_utf8 name ≡ true
  pub short : length name < 2 ^ 32

-- The name fits and the number is a u64.
pub record CursorFits (c : Bytes × ℕ) : Type 0 where
  pub name : NameFits c.0
  pub seq : c.1 < u64_mod

-- A map has one cursor for a target.
unfoldable pub IsMap : Cursors → Type 0
IsMap [] = Unit {0}
IsMap (c ∷ cs) = (find_cursor cs c.0 ≡ none) × IsMap cs

cursor_split :
    (name rest : Bytes) (seq : ℕ)
    → encode_cursor (name, seq) ++ rest
      ≡ le_bytes 4 (length name % 2 ^ 32) ++ (name ++ (le_bytes 8 seq ++ rest))
unfolding encode_cursor
cursor_split name rest seq =
    append_assoc (le_bytes 4 (length name % 2 ^ 32)) (name ++ le_bytes 8 seq) rest
    ∙ ap (λ bs. le_bytes 4 (length name % 2 ^ 32) ++ bs) (append_assoc name (le_bytes 8 seq) rest)

next_cursor-encode :
    (c : Bytes × ℕ) (rest : Bytes)
    → CursorFits c
    → next_cursor (encode_cursor c ++ rest) ≡ some (c, rest)
unfolding next_cursor
next_cursor-encode (name, seq) rest v =
    let n = length name in
    let after = le_bytes 8 seq ++ rest in
    let head = le_bytes 4 (n % 2 ^ 32) in
    let size : from_le (take 4 (head ++ (name ++ after))) ≡ n =
      from_le-take-le_bytes 4 (n % 2 ^ 32) (name ++ after) (omega arith)
      ∙ (let e : n % 2 ^ 32 ≡ n = omega (arith, v.name.short) in e) in
    let tail = drop-le_bytes 4 (n % 2 ^ 32) (name ++ after) in
    let len : length (head ++ (name ++ after)) ≡ 4 + (n + length after) = omega (
      arith,
      length-append head (name ++ after),
      length-append name after,
      length-le_bytes 4 (n % 2 ^ 32),
    ) in
    let long : leb 4 (length (head ++ (name ++ after))) ≡ true = ground (arith, len) in
    let room : leb (n + 8) (length (name ++ after)) ≡ true = ground (
      arith,
      length-append name after,
      length-append (le_bytes 8 seq) rest,
      length-le_bytes 8 seq,
    ) in
    rw
      (
        cursor_split name rest seq,
        long,
        size,
        tail,
        room,
        take-length-append name after,
        drop-length-append name after,
        from_utf8_lossy-is_utf8 name v.name.utf8,
        from_le-take-le_bytes 8 seq rest v.seq,
        drop-le_bytes 8 seq rest,
      )
      refl

encode_cursor-IsFormat : IsFormat encode_cursor next_cursor CursorFits
encode_cursor-IsFormat = record {
  reads = next_cursor-encode;
  takes =
      unfold encode_cursor in
      λ c.
        let head = le_bytes 4 (length c.0 % 2 ^ 32) in
        omega (
          arith,
          length-append head (c.0 ++ le_bytes 8 c.1),
          length-le_bytes 4 (length c.0 % 2 ^ 32),
        );
}

next_cursor-nil : next_cursor [] ≡ none
unfolding next_cursor
next_cursor-nil = refl

abbrev or_else : Option ℕ → Option ℕ → Option ℕ
or_else none o = o
or_else (some c) o = some c

find_cursor-insert_all :
    (xs cs : Cursors) (s : Bytes)
    → IsMap xs
    → find_cursor (insert_all cs xs) s ≡ or_else (find_cursor xs s) (find_cursor cs s)
unfolding insert_all find_cursor IsMap
find_cursor-insert_all [] cs s v = refl
find_cursor-insert_all (c ∷ xs) cs s v =
    let later = find_cursor-insert_all xs (put_cursor cs c.0 c.1) s v.1 in
    elim (Bool-cases (bytes_beq c.0 s)) [
      | inl e ↦
          let same : c.0 ≡ s = (bytes_beq_iff c.0 s).0 e in
          let absent : find_cursor xs s ≡ none = subst (λ u. find_cursor xs u ≡ none) same v.0 in
          let put : find_cursor (put_cursor cs c.0 c.1) s ≡ some c.1 =
            subst (λ u. find_cursor (put_cursor cs c.0 c.1) u ≡ some c.1) same
              (find_cursor-put_cursor cs c.0 c.1) in
          later ∙ rw (absent, put, e) refl
      | inr ne ↦ later ∙ rw (find_cursor-put_cursor_ne cs c.0 s c.1 ne, ne) refl
    ]

or_else-none : (o : Option ℕ) → or_else o none ≡ o
or_else-none none = refl
or_else-none (some c) = refl

-- The cursors that are read back are those that were written.
pub read_cursors-cursor_bytes :
    (cs : Cursors) (s : Bytes)
    → IsMap cs
    → All CursorFits cs
    → acked_in (read_cursors (cursor_bytes cs)) s ≡ acked_in cs s
unfolding read_cursors cursor_bytes acked_in find_cursor
read_cursors-cursor_bytes cs s m v =
    let bs = write_all encode_cursor cs in
    let back : read_all next_cursor (suc (length bs)) bs ≡ cs =
      ap (λ x. read_all next_cursor (suc (length x)) x) (sym (append-nil bs))
      ∙ read_all_recovers encode_cursor-IsFormat cs [] v next_cursor-nil in
    ap (λ xs. or_zero (find_cursor (insert_all [] xs) s)) back
    ∙ ap or_zero (find_cursor-insert_all cs [] s m ∙ or_else-none (find_cursor cs s))

pub put_cursor-IsMap : (cs : Cursors) (t : Bytes) (n : ℕ) → IsMap cs → IsMap (put_cursor cs t n)
unfolding put_cursor IsMap
put_cursor-IsMap [] t n v = (unfold find_cursor in refl, tt)
put_cursor-IsMap (c ∷ cs) t n v = elim (Bool-cases (bytes_beq c.0 t)) [
  | inl e ↦
      let same : c.0 ≡ t = (bytes_beq_iff c.0 t).0 e in
      rw e (subst (λ u. find_cursor cs u ≡ none) same v.0, v.1)
  | inr ne ↦
      let apart : bytes_beq t c.0 ≡ false =
        ground (arith, ne, bytes_beq_iff c.0 t, bytes_beq_iff t c.0) in
      rw ne (find_cursor-put_cursor_ne cs t c.0 n apart ∙ v.0, put_cursor-IsMap cs t n v.1)
]

pub put_cursor-fits :
    (cs : Cursors) (t : Bytes) (n : ℕ)
    → All CursorFits cs
    → NameFits t
    → n < u64_mod
    → All CursorFits (put_cursor cs t n)
unfolding put_cursor
put_cursor-fits [] t n v f h = (record { name = f; seq = h }, tt)
put_cursor-fits (c ∷ cs) t n v f h = elim (Bool-cases (bytes_beq c.0 t)) [
  | inl e ↦ rw e (record { name = f; seq = h }, v.1)
  | inr ne ↦ rw ne (v.0, put_cursor-fits cs t n v.1 f h)
]
