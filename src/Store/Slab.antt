-- ===== src/Store/Slab.antt =====
-- The slab allocator, crates/store/src/slab.rs. A free list is kept with its last element first, so
-- that `push` and `pop` are at its head. A slot number is a u32 and wraps; a slice that is out of
-- range, which the source answers with a panic, is cut short here.
use bonsaigrid.Base.{
  ℕ, zero, suc, ◌+◌, ◌-◌, ◌*◌, ◌/◌, ◌%◌, ◌^◌, max, Bool, Option, none, some, List, [], ◌∷◌, ◌++◌,
  map, ◌==◌, leb, length, get_or, set, take, drop, replicate, if◌then◌else◌,
}
use bonsaigrid.Base.Bytes.{Bytes}
use bonsaigrid.Store.Entry.{Handle}
pub mod Arena
pub mod Alloc
pub mod Memory
pub mod Stores
pub mod Frees

abbrev pub class_sizes : List ℕ
class_sizes =
    8 ∷ 16 ∷ 24 ∷ 32 ∷ 48 ∷ 64 ∷ 96 ∷ 128 ∷ 192 ∷ 256 ∷ 384 ∷ 512 ∷ 768 ∷ 1024 ∷ 1536 ∷ 2048 ∷ 3072
    ∷ 4096 ∷ 6144 ∷ 8192 ∷ []

-- `OVERFLOW`, the class of the objects that no class is large enough for.
abbrev pub overflow_class : ℕ
overflow_class = 65535

abbrev pub u32 : ℕ → ℕ
u32 n = n % 2 ^ 32

pub record SizeClass : Type 0 where
  pub obj : ℕ
  pub bytes : Bytes
  pub free : List ℕ
  pub used : ℕ
  pub cap : ℕ

unfoldable pub new_class : ℕ → ℕ → SizeClass
new_class obj cap = record {
  obj = obj;
  bytes = replicate (obj * cap) 0;
  free = [];
  used = 0;
  cap = cap;
}

-- `bytes.resize(n, 0)`, for an `n` that is not smaller.
unfoldable pub resize : Bytes → ℕ → Bytes
resize bs n = bs ++ replicate (n - length bs) 0

unfoldable pub grown : SizeClass → SizeClass
grown c =
    let cap = max (u32 (c.cap + c.cap / 2)) (u32 (c.cap + 1)) in
    record c { cap = cap; bytes = resize c.bytes (c.obj * cap) }

unfoldable pub take_next : SizeClass → SizeClass × ℕ
take_next c = (record c { used = u32 (c.used + 1) }, c.used)

unfoldable pub pop_free : SizeClass → List ℕ → SizeClass × ℕ
pop_free c [] = take_next (if c.used == c.cap then grown c else c)
pop_free c (s ∷ rest) = (record c { free = rest }, s)

unfoldable pub alloc : SizeClass → SizeClass × ℕ
alloc c = pop_free c c.free

unfoldable pub off : SizeClass → ℕ → ℕ
off c slot = slot * c.obj

pub record Slab : Type 0 where
  pub classes : List SizeClass
  pub overflow : List Bytes
  pub overflow_free : List ℕ

unfoldable pub new_slab : Slab
new_slab = record {
  classes = map (λ o. new_class o 64) class_sizes;
  overflow = [];
  overflow_free = [];
}

-- `CLASSES.iter().position(|&o| o >= len)`.
unfoldable pub position : List ℕ → ℕ → ℕ → Option ℕ
position [] len i = none
position (o ∷ os) len i = let rest = position os len (i + 1) in if leb len o then some i else rest

unfoldable pub class_for : ℕ → Option ℕ
class_for len = position class_sizes len 0

-- `bytes[off..off + data.len()].copy_from_slice(data)`.
unfoldable pub splice : Bytes → ℕ → Bytes → Bytes
splice bs at data_ = take at bs ++ (data_ ++ drop (at + length data_) bs)

unfoldable pub slice : Bytes → ℕ → ℕ → Bytes
slice bs at len = take len (drop at bs)

abbrev pub no_class : SizeClass
no_class = record { obj = 0; bytes = []; free = []; used = 0; cap = 0 }

abbrev pub class_at : Slab → ℕ → SizeClass
class_at s ci = get_or s.classes ci no_class

unfoldable pub put_class : Slab → ℕ → Bytes → Slab × Handle
put_class s ci data_ =
    let (c, slot) = alloc (class_at s ci) in
    (
      record s {
        classes = set s.classes ci (record c { bytes = splice c.bytes (off c slot) data_ });
      },
      record { class = ci; slot = slot },
    )

unfoldable pub put_overflow : Slab → Bytes → List ℕ → Slab × Handle
put_overflow s data_ [] = (
  record s { overflow = s.overflow ++ data_ ∷ [] },
  record { class = overflow_class; slot = u32 (length s.overflow) },
)
put_overflow s data_ (f ∷ rest) = (
  record s { overflow = set s.overflow f data_; overflow_free = rest },
  record { class = overflow_class; slot = f },
)

unfoldable pub put_in : Slab → Option ℕ → Bytes → Slab × Handle
put_in s none data_ = put_overflow s data_ s.overflow_free
put_in s (some ci) data_ = put_class s ci data_

unfoldable pub put_two : Slab → Bytes → Bytes → Slab × Handle
put_two s a b = put_in s (class_for (length a + length b)) (a ++ b)

unfoldable pub get : Slab → Handle → ℕ → Bytes
get s h len =
    if h.class == overflow_class
    then take len (get_or s.overflow h.slot [])
    else slice (class_at s h.class).bytes (off (class_at s h.class) h.slot) len

unfoldable pub free_class : SizeClass → ℕ → SizeClass
free_class c slot = record c { free = slot ∷ c.free }

unfoldable pub free : Slab → Handle → Slab
free s h =
    if h.class == overflow_class
    then record s { overflow = set s.overflow h.slot []; overflow_free = h.slot ∷ s.overflow_free }
    else record s { classes = set s.classes h.class (free_class (class_at s h.class) h.slot) }
