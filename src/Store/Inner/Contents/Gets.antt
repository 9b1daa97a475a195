-- ===== src/Store/Inner/Contents/Gets.antt =====
-- `get` of crates/store/src/lib.rs, after a `put` of its key.
use bonsaigrid.Base.{
  ℕ, suc, ◌≤◌, ◌<◌, ◌≡◌, refl, sym, ap, ◌∙◌, ◌⊎◌, inl, inr, Bool, true, false, ◌&&◌, Bool-cases,
  Option, none, some, List, [], ◌∷◌, length, arith,
}
use bonsaigrid.Base.Bytes.{Bytes}
use bonsaigrid.Base.Maps.{bytes_beq, bytes_beq_iff}
use bonsaigrid.Store.Entry.{Entry, at, occupied}
use bonsaigrid.Store.Probe.Counts.{bit, number}
use bonsaigrid.Store.Probe.Insert.{at-set_self}
use bonsaigrid.Store.Inner.{Inner, touch, more_hits, find, is_expired, val_bytes}
use bonsaigrid.Store.Inner.Writes.{Item, put, get, read, read_at}
use bonsaigrid.Store.Inner.Layout.{number_pos}
use bonsaigrid.Store.Inner.Sound.{WellFormed}
use bonsaigrid.Store.Inner.Lookup.{Holds, Absent, Finds, find-Finds}
use bonsaigrid.Store.Inner.Contents.{has, stored}
use bonsaigrid.Store.Inner.Contents.Slots.{ItemFits}
use bonsaigrid.Store.Inner.Contents.Values.{Assigns, Unbounded}
use bonsaigrid.Store.Inner.Contents.Puts.{Ready, put-Assigns}

-- A record that is stored is at some slot.
stored_somewhere :
    (p : Entry → Bool) (table : List Entry)
    → 1 ≤ number p table
    → (k : ℕ) × (k < length table) × (p (at table k) ≡ true)
unfolding number
stored_somewhere p [] h = elim h [ ]
stored_somewhere p (e ∷ es) h = elim (Bool-cases (p e)) [
  | inl t ↦ (0, omega arith, t)
  | inr f ↦
      let b : bit (p e) ≡ 0 = ap bit f in
      let (k, lt, t) = stored_somewhere p es (omega (arith, h, b)) in (suc k, omega arith, t)
]

-- What `get` returns for a key whose one value is `val`.
unfoldable pub Reads : Inner → ℕ → Bytes → Bytes → ℕ → Option Bytes → Type 0
Reads s id key val now o =
    (o ≡ some val)
    ⊎ ((o ≡ none) × ((i : ℕ) × Holds s id key i × (is_expired s id (at s.table i) now ≡ true)))

touch_value :
    (s : Inner) (i now : ℕ)
    → i < length s.table
    → read_at (touch s i now) (some i) ≡ some (val_bytes s.slab (at s.table i))
unfolding read_at touch val_bytes
touch_value s i now lt =
    ap (λ e. some (val_bytes s.slab e))
      (at-set_self s.table i
        (record (at s.table i) { last_access_ms = now; hits = more_hits (at s.table i).hits }) lt)

bit_pos : (b : Bool) → 1 ≤ bit b → b ≡ true
bit_pos true le = refl
bit_pos false le = elim le [ ]

-- The one value of a key is at its record.
value_there :
    (s : Inner) (id : ℕ) (key val : Bytes) (i : ℕ)
    → ((v : Bytes) → stored s id key v ≡ bit (bytes_beq val v))
    → Holds s id key i
    → val_bytes s.slab (at s.table i) ≡ val
unfolding Holds stored has
value_there s id key val i only (lt, occ, match_) =
    let v = val_bytes s.slab (at s.table i) in
    let self = (bytes_beq_iff v v).1 refl in
    let pos =
      number_pos (λ e. occupied e && has s.slab id key v e) s.table i lt
        (ground (arith, occ, match_, self)) in
    let count = only v in
    sym ((bytes_beq_iff val v).0 (bit_pos (bytes_beq val v) (omega (arith, pos, count))))

some_record :
    (s : Inner) (id : ℕ) (key val : Bytes)
    → ((v : Bytes) → stored s id key v ≡ bit (bytes_beq val v))
    → ¬ (Absent s id key)
unfolding stored has Absent
some_record s id key val only absent =
    let self : bit (bytes_beq val val) ≡ 1 = ap bit ((bytes_beq_iff val val).1 refl) in
    let count = only val in
    let (k, lt, there) =
      stored_somewhere (λ e. occupied e && has s.slab id key val e) s.table
        (omega (arith, self, count)) in
    let f = absent k lt (ground (arith, there)) in ground (arith, there, f)

read_found :
    (s : Inner) (name key : Bytes) (now : ℕ) (r : Inner × Option ℕ)
    → find s name key now ≡ some r
    → get s name key now ≡ some (r.0, read_at r.0 r.1)
unfolding get read
read_found s name key now r comes = rw (comes) refl

pub get-Reads :
    (s : Inner) (name key val : Bytes) (now id : ℕ)
    → WellFormed s
    → s.map_ids name ≡ some id
    → ((v : Bytes) → stored s id key v ≡ bit (bytes_beq val v))
    → (r : Inner × Option Bytes) × (get s name key now ≡ some r) × Reads s id key val now r.1
unfolding Reads Finds read_at
get-Reads s name key val now id w named only =
    let (r, comes, finds) = find-Finds s name key now id w named in
    let returns = read_found s name key now r comes in
    elim finds [
      | inl (same, absent) ↦ absurd (some_record s id key val only absent)
      | inr (i, holds, which) ↦ elim which [
        | inl (old, same) ↦
            ((r.0, read_at r.0 r.1), returns, inr (ap (λ r. read_at r.0 r.1) same, (i, holds, old)))
        | inr (fresh, same) ↦ (
          (r.0, read_at r.0 r.1),
          returns,
          inl (
              ap (λ r. read_at r.0 r.1) same
              ∙ touch_value s i now (holds_in s id key i holds)
              ∙ ap some (value_there s id key val i only holds)),
        )
      ]
    ]
  where
    holds_in : (s : Inner) (id : ℕ) (key : Bytes) (i : ℕ) → Holds s id key i → i < length s.table
    holds_in s id key i holds = unfold Holds in holds.0

-- A get after a put returns the value that was put, unless its record has expired.
pub get-put :
    (s : Inner) (name : Bytes) (x : Item) (seed : ℕ → ℕ) (now : ℕ)
    → Ready s
    → ItemFits x
    → Unbounded (s.configs name)
    → (r : Inner × Option Bytes) × (put s name x seed ≡ some r)
      × ((q : Inner × Option Bytes) × (get r.0 name x.key now ≡ some q)
          × ((id : ℕ) × (r.0.map_ids name ≡ some id) × Reads r.0 id x.key x.val now q.1))
unfolding Assigns
get-put s name x seed now sound item free_size =
    let (r, comes, w, (id, named, assigns)) = put-Assigns s name x seed sound item free_size in
    let (q, returns, reads) = get-Reads r.0 name x.key x.val now id w named assigns.1 in
    (r, comes, (q, returns, (id, named, reads)))
