-- ===== src/Persistence/Snapshot/RoundTrip.antt =====
-- A snapshot of crates/persistence/src/snapshot.rs is loaded as it was written.
use bonsaigrid.Base.{
  ℕ, suc, ◌+◌, ◌%◌, ◌^◌, ◌<◌, ◌≡◌, refl, sym, ap, ◌∙◌, true, false, Option, none, some, List, [],
  ◌∷◌, ◌++◌, map, length, length-append, append-nil, append_assoc, take, take-length-append, drop,
  drop-drop, drop-length-append, ltb, All, u64_mod, arith,
}
use bonsaigrid.Base.Bytes.{
  Bytes, le_bytes, from_le, length-le_bytes, is_utf8, from_utf8-is_utf8, drop-le_bytes,
  from_le-take-le_bytes,
}
use bonsaigrid.Base.Maps.{bytes_beq}
use bonsaigrid.Base.Blobs.{put_blob, get_blob-put_blob, take_u64-le_bytes}
use bonsaigrid.Frames.{write_all, read_all, read_all_recovers, IsFormat}
use bonsaigrid.Persistence.{StoreOp, put_merge, install_aux}
use bonsaigrid.Persistence.Snapshot.{
  Stamped, Aux, magic, put_entry, put_aux, counted, section, write_snapshot, get_entry, get_aux,
  entry_op, aux_op, keep, get_items, load_items, next_section, load_section, load_sections,
  load_snapshot,
}

pub record StampedFits (e : Stamped) : Type 0 where
  pub map : length e.map < 2 ^ 32
  pub key : length e.key < 2 ^ 32
  pub value : length e.value < 2 ^ 32
  pub stamp : e.stamp < u64_mod
  pub name : is_utf8 e.map ≡ true

pub record AuxFits (a : Aux) : Type 0 where
  pub name : length a.name < 2 ^ 32
  pub state : length a.state < 2 ^ 32
  pub text : is_utf8 a.name ≡ true

-- What the load of an item does to the store.
abbrev pub entry_effect : Stamped → StoreOp
entry_effect e = put_merge e.map e.key e.value 0 e.stamp

abbrev pub aux_effect : Aux → StoreOp
aux_effect a = install_aux a.kind a.name a.state

get_entry-put_entry :
    (e : Stamped) (rest : Bytes) → StampedFits e → get_entry (put_entry e ++ rest) ≡ some (e, rest)
unfolding get_entry put_entry
get_entry-put_entry e rest f =
    let stamp = le_bytes 8 e.stamp in
    rw (
      append_assoc (put_blob e.map) (put_blob e.key ++ (put_blob e.value ++ stamp)) rest,
      append_assoc (put_blob e.key) (put_blob e.value ++ stamp) rest,
      append_assoc (put_blob e.value) stamp rest,
      get_blob-put_blob e.map (put_blob e.key ++ (put_blob e.value ++ (stamp ++ rest))) f.map,
      get_blob-put_blob e.key (put_blob e.value ++ (stamp ++ rest)) f.key,
      get_blob-put_blob e.value (stamp ++ rest) f.value,
      take_u64-le_bytes e.stamp rest f.stamp,
    )

get_aux-put_aux :
    (a : Aux) (rest : Bytes) → AuxFits a → get_aux (put_aux a ++ rest) ≡ some (a, rest)
unfolding get_aux put_aux
get_aux-put_aux a rest f = rw (
  append_assoc (put_blob a.name) (put_blob a.state) rest,
  get_blob-put_blob a.name (put_blob a.state ++ rest) f.name,
  get_blob-put_blob a.state rest f.state,
)

module _ {R : Type 0} {Ok : R → Type 0} (enc : R → Bytes) (get : Bytes → Option (R × Bytes))
    (reads : (r : R) (rest : Bytes) → Ok r → get (enc r ++ rest) ≡ some (r, rest)) where
  get_items-write_all :
      (rs : List R) → All Ok rs → get_items get (length rs) (write_all enc rs) ≡ rs
  unfolding get_items write_all
  get_items-write_all [] ok = refl
  get_items-write_all (r ∷ rs) ok =
      rw (reads r (write_all enc rs) ok.0, get_items)
        (ap (λ t. r ∷ t) (get_items-write_all rs ok.1))

  load_items-counted :
      (rs : List R) → All Ok rs → length rs < 2 ^ 32 → load_items get (counted enc rs) ≡ rs
  unfolding load_items counted
  load_items-counted rs ok h =
      let n = length rs % 2 ^ 32 in
      let same : n ≡ length rs = omega arith in
      let items = write_all enc rs in
      let long_enough : ltb (length (le_bytes 4 n ++ items)) 4 ≡ false =
        ground (arith, length-append (le_bytes 4 n) items, length-le_bytes 4 n) in
      rw (long_enough, from_le-take-le_bytes 4 n items (omega arith), drop-le_bytes 4 n items, same)
        (get_items-write_all rs ok)

keep-effects :
    {R : Type 0} {Ok : R → Type 0} (op : R → Option StoreOp) (effect : R → StoreOp)
    → ((r : R) → Ok r → op r ≡ some (effect r))
    → (rs : List R) → All Ok rs
    → keep op rs ≡ map effect rs
unfolding keep
keep-effects op effect h [] ok = refl
keep-effects op effect h (r ∷ rs) ok =
    rw (h r ok.0, keep) (ap (λ t. effect r ∷ t) (keep-effects op effect h rs ok.1))

entry_op-effect : (e : Stamped) → StampedFits e → entry_op e ≡ some (entry_effect e)
unfolding entry_op
entry_op-effect e f = rw (from_utf8-is_utf8 e.map f.name)

aux_op-effect : (a : Aux) → AuxFits a → aux_op a ≡ some (aux_effect a)
unfolding aux_op
aux_op-effect a f = rw (from_utf8-is_utf8 a.name f.text)

abbrev SectionFits : ℕ × Bytes → Type 0
SectionFits s = (s.0 < 2 ^ 16) × (length s.1 < 2 ^ 32)

length-section : (s : ℕ × Bytes) → length (section s) ≡ 6 + length s.1
unfolding section
length-section s =
    let n = length s.1 % 2 ^ 32 in
    omega (
      arith,
      length-append (le_bytes 2 s.0) (le_bytes 4 n ++ s.1),
      length-append (le_bytes 4 n) s.1,
      length-le_bytes 2 s.0,
      length-le_bytes 4 n,
    )

next_section-section :
    (s : ℕ × Bytes) (rest : Bytes)
    → SectionFits s
    → next_section (section s ++ rest) ≡ some (s, rest)
unfolding next_section section
next_section-section s rest f =
    let n = length s.1 % 2 ^ 32 in
    let same : n ≡ length s.1 = omega (arith, f.1) in
    let two = le_bytes 4 n ++ (s.1 ++ rest) in
    let bs = le_bytes 2 s.0 ++ two in
    let whole : section s ++ rest ≡ bs =
      append_assoc (le_bytes 2 s.0) (le_bytes 4 n ++ s.1) rest
      ∙ ap (λ t. le_bytes 2 s.0 ++ t) (append_assoc (le_bytes 4 n) s.1 rest) in
    let tag : from_le (take 2 bs) ≡ s.0 = from_le-take-le_bytes 2 s.0 two (omega (arith, f.0)) in
    let slen : from_le (take 4 (drop 2 bs)) ≡ length s.1 =
      ap (λ t. from_le (take 4 t)) (drop-le_bytes 2 s.0 two)
      ∙ from_le-take-le_bytes 4 n (s.1 ++ rest) (omega arith)
      ∙ same in
    let past : drop 6 bs ≡ s.1 ++ rest =
      drop-drop 2 4 bs ∙ ap (drop 4) (drop-le_bytes 2 s.0 two) ∙ drop-le_bytes 4 n (s.1 ++ rest) in
    let body : take (from_le (take 4 (drop 2 bs))) (drop 6 bs) ≡ s.1 =
      ap (λ k. take k (drop 6 bs)) slen
      ∙ ap (take (length s.1)) past
      ∙ take-length-append s.1 rest in
    let behind : drop (6 + from_le (take 4 (drop 2 bs))) bs ≡ rest =
      ap (λ k. drop (6 + k) bs) slen
      ∙ drop-drop 6 (length s.1) bs
      ∙ ap (drop (length s.1)) past
      ∙ drop-length-append s.1 rest in
    let size : length bs ≡ 6 + length s.1 + length rest =
      omega (arith, ap length whole, length-append (section s) rest, length-section s) in
    ap next_section whole ∙ ground (arith, tag, slen, body, behind, size)

section-IsFormat : IsFormat section next_section SectionFits
section-IsFormat = record {
  reads = next_section-section;
  takes = λ s. omega (arith, length-section s);
}

write_two : (s t : ℕ × Bytes) → section s ++ section t ≡ write_all section (s ∷ t ∷ []) ++ []
unfolding write_all
write_two s t =
    ap (λ bs. section s ++ bs) (sym (append-nil (section t)))
    ∙ sym (append-nil (section s ++ (section t ++ [])))

next_section-nil : next_section [] ≡ none
unfolding next_section
next_section-nil = refl

load_snapshot-header :
    (body : Bytes)
    → load_snapshot (magic ++ (le_bytes 2 1 ++ body))
      ≡ some (load_sections (read_all next_section (suc (length body)) body))
unfolding load_snapshot le_bytes bytes_beq
load_snapshot-header body = ground arith

-- Loading a snapshot makes the calls that install every entry and every structure it was written
-- with, in order, the entries with no time to live, for items and sections that fit their lengths.
pub load_snapshot-write_snapshot :
    (entries : List Stamped) (auxes : List Aux)
    → All StampedFits entries
    → All AuxFits auxes
    → length entries < 2 ^ 32
    → length auxes < 2 ^ 32
    → length (counted put_entry entries) < 2 ^ 32
    → length (counted put_aux auxes) < 2 ^ 32
    → load_snapshot (write_snapshot entries auxes)
      ≡ some (map entry_effect entries ++ map aux_effect auxes)
unfolding write_snapshot load_sections load_section
load_snapshot-write_snapshot entries auxes fe fa ne na se sa =
    let maps : ℕ × Bytes = (1, counted put_entry entries) in
    let others : ℕ × Bytes = (2, counted put_aux auxes) in
    let body = section maps ++ section others in
    let one = load_items-counted put_entry get_entry get_entry-put_entry entries fe ne in
    let two = load_items-counted put_aux get_aux get_aux-put_aux auxes fa na in
    let sections : read_all next_section (suc (length body)) body ≡ maps ∷ others ∷ [] =
      ap (λ bs. read_all next_section (suc (length bs)) bs) (write_two maps others)
      ∙ read_all_recovers section-IsFormat (maps ∷ others ∷ []) []
          ((omega arith, se), ((omega arith, sa), tt)) next_section-nil in
    load_snapshot-header body
    ∙ ap (λ ss. some (load_sections ss)) sections
    ∙ ap (λ es. some (keep entry_op es ++ (keep aux_op (load_items get_aux others.1) ++ []))) one
    ∙ ap (λ xs. some (keep entry_op entries ++ (keep aux_op xs ++ []))) two
    ∙ ap (λ os. some (os ++ (keep aux_op auxes ++ [])))
        (keep-effects entry_op entry_effect entry_op-effect entries fe)
    ∙ ap (λ os. some (map entry_effect entries ++ os))
        (append-nil (keep aux_op auxes) ∙ keep-effects aux_op aux_effect aux_op-effect auxes fa)
