-- ===== src/Persistence/Snapshot.antt =====
-- crates/persistence/src/snapshot.rs: a header, and sections with the entries of the maps and with
-- the other structures. A load is the calls of the store that it makes, in order, or `none` for the
-- error on a bad header.
use bonsaigrid.Base.{
  ℕ, zero, suc, ◌+◌, ◌%◌, ◌^◌, Bool, Option, none, some, List, [], ◌∷◌, ◌++◌, ◌||◌, not, length,
  take, drop, ltb, ◌==◌, if◌then◌else◌,
}
use bonsaigrid.Base.Bytes.{Bytes, le_bytes, from_le, from_utf8}
use bonsaigrid.Base.Maps.{bytes_beq}
use bonsaigrid.Base.Blobs.{◌>>=◌, put_blob, get_blob, take_u64}
use bonsaigrid.Frames.{read_all, write_all}
use bonsaigrid.Persistence.{StoreOp, put_merge, install_aux}
pub mod RoundTrip

-- An item of `all_entries_stamped` and one of `all_aux`.
pub record Stamped : Type 0 where
  pub map : Bytes
  pub key : Bytes
  pub value : Bytes
  pub stamp : ℕ

pub record Aux : Type 0 where
  pub kind : ℕ
  pub name : Bytes
  pub state : Bytes

-- "BSNP".
abbrev pub magic : Bytes
magic = 66 ∷ 83 ∷ 78 ∷ 80 ∷ []

unfoldable pub put_entry : Stamped → Bytes
put_entry e = put_blob e.map ++ (put_blob e.key ++ (put_blob e.value ++ le_bytes 8 e.stamp))

unfoldable pub put_aux : Aux → Bytes
put_aux a = a.kind ∷ (put_blob a.name ++ put_blob a.state)

unfoldable pub counted : {R : Type 0} → (R → Bytes) → List R → Bytes
counted enc rs = le_bytes 4 (length rs % 2 ^ 32) ++ write_all enc rs

unfoldable pub section : ℕ × Bytes → Bytes
section s = le_bytes 2 s.0 ++ (le_bytes 4 (length s.1 % 2 ^ 32) ++ s.1)

unfoldable pub write_snapshot : List Stamped → List Aux → Bytes
write_snapshot entries auxes =
    magic
    ++ (le_bytes 2 1
        ++ (section (1, counted put_entry entries) ++ section (2, counted put_aux auxes)))

-- One round of the loop of `load_map_entries`, and of that of `load_aux`.
unfoldable pub get_entry : Bytes → Option (Stamped × Bytes)
get_entry bs = do
  map ← get_blob bs
  key ← get_blob map.1
  value ← get_blob key.1
  stamp ← take_u64 value.1
  some (record { map = map.0; key = key.0; value = value.0; stamp = stamp.0 }, stamp.1)

unfoldable pub get_aux : Bytes → Option (Aux × Bytes)
get_aux [] = none
get_aux (kind ∷ bs) = do
  name ← get_blob bs
  state ← get_blob name.1
  some (record { kind = kind; name = name.0; state = state.0 }, state.1)

-- The entries of a map come back with no time to live. A name that is not UTF-8 is skipped.
unfoldable pub entry_op : Stamped → Option StoreOp
entry_op e = do name ← from_utf8 e.map; some (put_merge name e.key e.value 0 e.stamp)

unfoldable pub aux_op : Aux → Option StoreOp
aux_op a = do name ← from_utf8 a.name; some (install_aux a.kind name a.state)

unfoldable pub keep : {R : Type 0} → (R → Option StoreOp) → List R → List StoreOp
keep op [] = []
keep op (r ∷ rs) = let rest = keep op rs in elim (op r) [ none ↦ rest | some o ↦ o ∷ rest ]

-- Up to `n` items, as far as they can be read.
unfoldable pub get_items : {R : Type 0} → (Bytes → Option (R × Bytes)) → ℕ → Bytes → List R
get_items get zero bs = []
get_items get (suc n) bs = elim (get bs) [ none ↦ [] | some r ↦ r.0 ∷ get_items get n r.1 ]

unfoldable pub load_items : {R : Type 0} → (Bytes → Option (R × Bytes)) → Bytes → List R
load_items get body =
    if ltb (length body) 4 then [] else get_items get (from_le (take 4 body)) (drop 4 body)

-- One round of the loop over the sections.
unfoldable pub next_section : Bytes → Option ((ℕ × Bytes) × Bytes)
next_section bs =
    let slen = from_le (take 4 (drop 2 bs)) in
    if ltb (length bs) 6 || ltb (length bs) (6 + slen)
    then none
    else some ((from_le (take 2 bs), take slen (drop 6 bs)), drop (6 + slen) bs)

unfoldable pub load_section : ℕ × Bytes → List StoreOp
load_section s =
    if s.0 == 1
    then keep entry_op (load_items get_entry s.1)
    else if s.0 == 2
    then keep aux_op (load_items get_aux s.1)
    else []

unfoldable pub load_sections : List (ℕ × Bytes) → List StoreOp
load_sections [] = []
load_sections (s ∷ ss) = load_section s ++ load_sections ss

unfoldable pub load_snapshot : Bytes → Option (List StoreOp)
load_snapshot file =
    let body = drop 6 file in
    if ltb (length file) 6 || not (bytes_beq (take 4 file) magic)
    then none
    else some (load_sections (read_all next_section (suc (length body)) body))
