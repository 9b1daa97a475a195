-- ===== src/Cp/CountDownLatch.antt =====
-- crates/raft/src/countdownlatch.rs
use bonsaigrid.Base.{
  ℕ, zero, suc, ◌-◌, ◌<◌, ◌≡◌, refl, ap, ◌∙◌, inl, inr, true, false, Option, none, some, [], ◌∷◌,
  ◌++◌, ◌==◌, if◌then◌else◌, arith, Bool-cases,
}
use bonsaigrid.Base.Bytes.{Bytes, from_utf8, from_utf8-is_utf8, is_utf8}
use bonsaigrid.Base.Int.{
  ℤ, pos, negsuc, Fits, i32_half, add_i32, eq_ℤ, max_zero, ◌+ℤ◌, wrapping_add, of_word, to_word,
}
use bonsaigrid.Base.Maps.{HashMap, insert, bytes_eq, bytes_beq_iff}
use bonsaigrid.Cp.Wire.{CpReply, long, bool, nil, ◌>>=◌, i32_bytes, i32_arg, i32_arg-i32_bytes}

pub data CdlOp : Type 0 where
  get_count : CdlOp
  count_down : CdlOp
  try_set_count : ℤ → CdlOp

-- The tag and the arguments that `encode` puts before the name.
unfoldable pub head_bytes : CdlOp → Bytes
head_bytes get_count = 0 ∷ []
head_bytes count_down = 1 ∷ []
head_bytes (try_set_count n) = 2 ∷ i32_bytes n

unfoldable pub encode : Bytes → CdlOp → Bytes
encode name op = head_bytes op ++ name

-- The operation of a tag, and the bytes that are left for the name.
unfoldable pub parse : ℕ → Bytes → Option (CdlOp × Bytes)
parse tag rest =
    if tag == 0
    then some (get_count, rest)
    else if tag == 1
    then some (count_down, rest)
    else if tag == 2
    then i32_arg rest >>= (λ n. some (try_set_count n.0, n.1))
    else none

unfoldable pub decode : Bytes → Option (Bytes × CdlOp)
decode [] = none
decode (tag ∷ rest) = do r ← parse tag rest; name ← from_utf8 r.1; some (name, r.0)

pub record CountDownLatchSm : Type 0 where
  pub counts : HashMap Bytes ℤ

abbrev count_or_zero : Option ℤ → ℤ
count_or_zero none = pos 0
count_or_zero (some c) = c

unfoldable pub count : CountDownLatchSm → Bytes → ℤ
count sm name = count_or_zero (sm.counts name)

unfoldable pub put_count : CountDownLatchSm → Bytes → ℤ → CountDownLatchSm
put_count sm name c = record { counts = insert name c sm.counts }

unfoldable pub run_op : CountDownLatchSm → Bytes → CdlOp → CountDownLatchSm × CpReply
run_op sm name get_count = (sm, long (count sm name))
run_op sm name count_down = (put_count sm name (max_zero (add_i32 (count sm name) (negsuc 0))), nil)
run_op sm name (try_set_count n) =
    if eq_ℤ (count sm name) (pos 0)
    then (put_count sm name (max_zero n), bool true)
    else (put_count sm name (count sm name), bool false)

unfoldable pub apply : CountDownLatchSm → Bytes → CountDownLatchSm × CpReply
apply sm body = elim (decode body) [ none ↦ (sm, nil) | some c ↦ run_op sm c.0 c.1 ]

-- The argument of the operation is an i32.
abbrev pub InRange : CdlOp → Type 0
InRange (try_set_count n) = Fits i32_half n
InRange _ = Unit {0}

-- An encoded latch operation with an i32 argument and a UTF-8 name is decoded to itself.
pub decode-encode_latch :
    (name : Bytes) (op : CdlOp)
    → is_utf8 name ≡ true
    → InRange op
    → decode (encode name op) ≡ some (name, op)
unfolding encode head_bytes parse decode
decode-encode_latch name get_count u r = rw (from_utf8-is_utf8 name u)
decode-encode_latch name count_down u r = rw (from_utf8-is_utf8 name u)
decode-encode_latch name (try_set_count n) u r =
    rw (i32_arg-i32_bytes n name r, from_utf8-is_utf8 name u)

count-put_count :
    (sm : CountDownLatchSm) (name : Bytes) (c : ℤ) → count (put_count sm name c) name ≡ c
unfolding count put_count
count-put_count sm name c = ground (arith, bytes_beq_iff name name)

-- `k` count-downs of one latch.
unfoldable pub count_downs : ℕ → CountDownLatchSm → Bytes → CountDownLatchSm
count_downs zero sm name = sm
count_downs (suc k) sm name = count_downs k (run_op sm name count_down).0 name

one_less : (c : ℕ) → c < i32_half → max_zero (add_i32 (pos c) (negsuc 0)) ≡ pos (c - 1)
unfolding ◌+ℤ◌ wrapping_add of_word to_word
one_less c h = ground arith

-- A latch at `c` stands at `c - k` after `k` count-downs, and stays at 0 once it is there.
pub count-count_downs :
    (k c : ℕ) (sm : CountDownLatchSm) (name : Bytes)
    → c < i32_half
    → count sm name ≡ pos c
    → count (count_downs k sm name) name ≡ pos (c - k)
unfolding count_downs run_op
count-count_downs zero c sm name h e = e ∙ ap pos (omega arith)
count-count_downs (suc k) c sm name h e =
    let here : count (put_count sm name (max_zero (add_i32 (count sm name) (negsuc 0)))) name
        ≡ pos (c - 1) =
      count-put_count sm name _ ∙ ap (λ x. max_zero (add_i32 x (negsuc 0))) e ∙ one_less c h in
    count-count_downs k (c - 1) (run_op sm name count_down).0 name (omega arith) here
    ∙ ap pos (omega arith)

-- A latch that still counts refuses a new count and keeps its own, and one at 0 takes it.
pub try_set_count_lem :
    (sm : CountDownLatchSm) (name : Bytes) (c n : ℕ)
    → count sm name ≡ pos c
    → (count (run_op sm name (try_set_count (pos n))).0 name ≡ (if c == 0 then pos n else pos c))
      × ((run_op sm name (try_set_count (pos n))).1 ≡ bool (c == 0))
unfolding run_op
try_set_count_lem sm name c n e = elim (Bool-cases (c == 0)) [
  | inl z ↦ rw (e, run_op) (rw z (count-put_count sm name (pos n), refl))
  | inr z ↦ rw (e, run_op) (rw z (count-put_count sm name (pos c), refl))
]
