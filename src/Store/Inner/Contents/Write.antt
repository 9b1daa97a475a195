-- ===== src/Store/Inner/Contents/Write.antt =====
-- One record of a shard of crates/store/src/lib.rs is written: the shard then holds the key with its
-- new value, and the other keys with the values that they had.
use bonsaigrid.Base.{
  ℕ, ◌≤◌, ◌<◌, ◌≡◌, ◌≢◌, refl, sym, ap, subst, inl, inr, Bool, true, false, ◌&&◌, Bool-cases, List,
  ◌==◌, length, set, length-set, ℕ_discrete, arith,
}
use bonsaigrid.Base.Bytes.{Bytes}
use bonsaigrid.Base.Maps.{bytes_beq, bytes_beq_iff}
use bonsaigrid.Store.Entry.{Entry, Handle, at, occupied, hash}
use bonsaigrid.Store.Probe.Counts.{bit, number}
use bonsaigrid.Store.Probe.Insert.{at-set_self, at-set_ne}
use bonsaigrid.Store.Slab.{Slab, get}
use bonsaigrid.Store.Slab.Memory.{Allocated, SlabFits}
use bonsaigrid.Store.Inner.{key_bytes, val_bytes, hit, total}
use bonsaigrid.Store.Inner.Contents.{has, handle_is, EntryFits, Filed, number-change, number_only}

-- A record that a change of the slab leaves as it is, with bytes that are not those of `e`.
unfoldable pub Kept : Slab → Slab → Entry → Entry → Type 0
Kept slab slab' e x =
    Allocated slab' x.handle
    × (get slab' x.handle (total x) ≡ get slab x.handle (total x))
    × (x.handle ≢ e.handle)

-- The record `e` of a key goes to slot `i`, where there was none or that of the key; the bytes of the
-- others are kept, and none of them has the key.
unfoldable pub Replaces : Slab → Slab → List Entry → ℕ → Entry → ℕ → Bytes → Bytes → Type 0
Replaces slab slab' table i e id key val =
    (i < length table)
    × (occupied e ≡ true)
    × ((e.hash ≡ hash id key) × (e.map_id ≡ id))
    × ((key_bytes slab' e ≡ key) × (val_bytes slab' e ≡ val))
    × (EntryFits slab' e × SlabFits slab')
    × (occupied (at table i) ≡ true → hit slab id key (at table i) ≡ true)
    × ((k : ℕ)
        → k < length table
        → i ≢ k
        → occupied (at table k) ≡ true
        → Kept slab slab' e (at table k) × (hit slab id key (at table k) ≡ false))

pub hit_kept :
    (slab slab' : Slab) (id : ℕ) (key : Bytes) (x : Entry)
    → get slab' x.handle (total x) ≡ get slab x.handle (total x)
    → hit slab' id key x ≡ hit slab id key x
unfolding hit key_bytes
hit_kept slab slab' id key x same = rw (same) refl

pub has_kept :
    (slab slab' : Slab) (id : ℕ) (key v : Bytes) (x : Entry)
    → get slab' x.handle (total x) ≡ get slab x.handle (total x)
    → has slab' id key v x ≡ has slab id key v x
unfolding has hit key_bytes val_bytes
has_kept slab slab' id key v x same = rw (same) refl

-- The test for a key is passed by the record of that key, and by none of another.
hit_same :
    (slab : Slab) (id : ℕ) (key : Bytes) (e : Entry)
    → e.hash ≡ hash id key
    → e.map_id ≡ id
    → key_bytes slab e ≡ key
    → hit slab id key e ≡ true
unfolding hit
hit_same slab id key e h m k =
    let b = (bytes_beq_iff (key_bytes slab e) key).1 k in ground (arith, h, m, b)

hit_differs :
    (slab : Slab) (id id' : ℕ) (key key' : Bytes) (e : Entry)
    → e.map_id ≡ id
    → key_bytes slab e ≡ key
    → ((id == id') && bytes_beq key key') ≡ false
    → hit slab id' key' e ≡ false
unfolding hit
hit_differs slab id id' key key' e m k differs =
    let b : bytes_beq (key_bytes slab e) key' ≡ bytes_beq key key' = ap (λ x. bytes_beq x key') k in
    ground (arith, m, b, differs)

pub hit_other :
    (slab : Slab) (id id' : ℕ) (key key' : Bytes) (e : Entry)
    → hit slab id key e ≡ true
    → ((id == id') && bytes_beq key key') ≡ false
    → hit slab id' key' e ≡ false
unfolding hit
hit_other slab id id' key key' e h differs =
    hit_differs slab id id' key key' e (ground (arith, h))
      ((bytes_beq_iff (key_bytes slab e) key).0 (ground (arith, h))) differs

-- A test of records that asks whether they are occupied first.
pub both :
    (x : Entry) (p q : Bool) → (occupied x ≡ true → p ≡ q) → (occupied x && p) ≡ (occupied x && q)
both x p q same = elim (Bool-cases (occupied x)) [
  | inl occ ↦ ap (λ b. occupied x && b) (same occ)
  | inr vac ↦ rw (vac) refl
]

pub never : (x : Entry) (p : Bool) → (occupied x ≡ true → p ≡ false) → (occupied x && p) ≡ false
never x p h = elim (Bool-cases (occupied x)) [
  | inl occ ↦ let f = h occ in ground (arith, f)
  | inr vac ↦ rw (vac) refl
]

-- The key has its new value.
pub stored_new :
    (slab slab' : Slab) (table : List Entry) (i : ℕ) (e : Entry) (id : ℕ) (key val v : Bytes)
    → Replaces slab slab' table i e id key val
    → number (λ e. occupied e && has slab' id key v e) (set table i e) ≡ bit (bytes_beq val v)
unfolding Replaces Kept has
stored_new slab slab' table i e id key val v (lt, occ, (h, m), (kb, vb), fits, old, others) =
    let p : Entry → Bool = λ e. occupied e && has slab id key v e in
    let q : Entry → Bool = λ e. occupied e && has slab' id key v e in
    let change = number-change p q table i e lt (λ k ltk ne.
      both (at table k) (has slab id key v (at table k)) (has slab' id key v (at table k))
        (λ o. sym (has_kept slab slab' id key v (at table k) (others k ltk ne o).0.1))) in
    let before = number_only p table i lt (λ k ltk ne.
      never (at table k) (has slab id key v (at table k))
        (λ o. let f = (others k ltk ne o).1 in ground (arith, f))) in
    let same = hit_same slab' id key e h m kb in
    let value : bytes_beq (val_bytes slab' e) v ≡ bytes_beq val v = ap (λ x. bytes_beq x v) vb in
    let now : bit (q e) ≡ bit (bytes_beq val v) = ground (arith, occ, same, value) in
    omega (arith, change, before, now)

-- Every other key has the values that it had.
pub stored_other :
    (slab slab' : Slab) (table : List Entry) (i : ℕ) (e : Entry) (id id' : ℕ)
    (key key' val v : Bytes)
    → Replaces slab slab' table i e id key val
    → ((id == id') && bytes_beq key key') ≡ false
    → number (λ e. occupied e && has slab' id' key' v e) (set table i e)
      ≡ number (λ e. occupied e && has slab id' key' v e) table
unfolding Replaces Kept has
stored_other slab slab' table i e id id' key key' val v
      (lt, occ, (h, m), (kb, vb), fits, old, others) differs =
    let p : Entry → Bool = λ e. occupied e && has slab id' key' v e in
    let q : Entry → Bool = λ e. occupied e && has slab' id' key' v e in
    let change = number-change p q table i e lt (λ k ltk ne.
      both (at table k) (has slab id' key' v (at table k)) (has slab' id' key' v (at table k))
        (λ o. sym (has_kept slab slab' id' key' v (at table k) (others k ltk ne o).0.1))) in
    let gone : p (at table i) ≡ false = never (at table i) (has slab id' key' v (at table i)) (λ o.
      let f = hit_other slab id id' key key' (at table i) (old o) differs in ground (arith, f)) in
    let was : bit (p (at table i)) ≡ 0 = ap bit gone in
    let new = hit_differs slab' id id' key key' e m kb differs in
    let now : bit (q e) ≡ 0 = ground (arith, new) in omega (arith, change, was, now)

bit_le : (b : Bool) → bit b ≤ 1
bit_le true = omega arith
bit_le false = omega arith

same_handle :
    (h : Handle) (x e : Entry) → handle_is h x ≡ true → handle_is h e ≡ true → x.handle ≡ e.handle
unfolding handle_is
same_handle h x e p q =
    let c : x.handle.class ≡ e.handle.class = ground (arith, p, q) in
    let s : x.handle.slot ≡ e.handle.slot = ground (arith, p, q) in cc

entries_fit :
    (slab slab' : Slab) (table : List Entry) (i : ℕ) (e : Entry) (id : ℕ) (key val : Bytes)
    → Filed slab table
    → Replaces slab slab' table i e id key val
    → (k : ℕ) → k < length (set table i e)
    → occupied (at (set table i e) k) ≡ true
    → EntryFits slab' (at (set table i e) k)
unfolding Filed Replaces Kept EntryFits
entries_fit slab slab' table i e id key val (slab_fits, entries, own, once)
      (lt, occ, h, m, fits, old, others) k ltk o =
    let size = length-set table i e in
    elim (ℕ_discrete i k) [
      | yes same ↦
          subst (λ k. EntryFits slab' (at (set table i e) k)) same
            (subst (EntryFits slab') (sym (at-set_self table i e lt)) fits.0)
      | no ne ↦
          let o' : occupied (at table k) ≡ true =
            subst (λ x. occupied x ≡ true) (at-set_ne table i k e ne) o in
          let inside : k < length table = omega (arith, ltk, size) in
          subst (EntryFits slab') (sym (at-set_ne table i k e ne))
            ((others k inside ne o').0.0, (entries k inside o').1)
    ]

-- A test that `e` passes alone among the records that stay, or does not pass, is passed once at most.
pub once_more :
    (p q : Entry → Bool) (table : List Entry) (i : ℕ) (e : Entry)
    → i < length table
    → number p table ≤ 1
    → ((k : ℕ) → k < length table → i ≢ k → p (at table k) ≡ q (at table k))
    → (q e ≡ true → (k : ℕ) → k < length table → i ≢ k → p (at table k) ≡ false)
    → number q (set table i e) ≤ 1
once_more p q table i e lt once same alone =
    let change = number-change p q table i e lt same in
    elim (Bool-cases (q e)) [
      | inr f ↦ let b : bit (q e) ≡ 0 = ap bit f in omega (arith, change, once, b)
      | inl t ↦
          let b : bit (q e) ≡ 1 = ap bit t in
          let before = number_only p table i lt (alone t) in omega (arith, change, before, b)
    ]

-- The write keeps the records' bytes apart and their keys different.
pub write-Filed :
    (slab slab' : Slab) (table : List Entry) (i : ℕ) (e : Entry) (id : ℕ) (key val : Bytes)
    → Filed slab table
    → Replaces slab slab' table i e id key val
    → Filed slab' (set table i e)
unfolding Filed Replaces Kept
write-Filed slab slab' table i e id key val filed replaces =
    let (slab_fits, entries, own, once) = filed in
    let (lt, occ, (h, m), (kb, vb), fits, old, others) = replaces in
    (
      fits.1,
      entries_fit slab slab' table i e id key val filed replaces,
      (λ g.
          once_more (λ x. occupied x && handle_is g x) (λ x. occupied x && handle_is g x) table i e
            lt (own g) (λ k ltk ne. refl)
            (λ t k ltk ne. never (at table k) (handle_is g (at table k)) (λ o.
              elim (Bool-cases (handle_is g (at table k))) [
                | inr f ↦ f
                | inl there ↦ absurd (
                    (others k ltk ne o).0.2
                      (same_handle g (at table k) e there (ground (arith, t))))
              ]))),
      λ id' key'.
          once_more (λ x. occupied x && hit slab id' key' x)
            (λ x. occupied x && hit slab' id' key' x) table i e lt (once id' key')
            (λ k ltk ne.
              both (at table k) (hit slab id' key' (at table k)) (hit slab' id' key' (at table k))
                (λ o. sym (hit_kept slab slab' id' key' (at table k) (others k ltk ne o).0.1)))
            (λ t k ltk ne. never (at table k) (hit slab id' key' (at table k)) (λ o.
              elim (Bool-cases ((id == id') && bytes_beq key key')) [
                | inr differs ↦ absurd (
                    let f = hit_differs slab' id id' key key' e m kb differs in
                    ground (arith, f, t))
                | inl same ↦
                    subst (λ key'. hit slab id' key' (at table k) ≡ false)
                      ((bytes_beq_iff key key').0 (ground (arith, same)))
                      (subst (λ id'. hit slab id' key (at table k) ≡ false)
                        (let z : id ≡ id' = ground (arith, same) in z) (others k ltk ne o).1)
              ])),
    )
