-- ===== src/Store/Inner/Contents/Slots.antt =====
-- The two ways in which `put` of crates/store/src/lib.rs writes a slot: a free one is filled, or that
-- of the key is overwritten.
use native.Mathlib.Nat.{mod-eq_of_lt}
use bonsaigrid.Base.{
  ℕ, ◌+◌, ◌^◌, ◌<◌, ◌≡◌, ◌≢◌, refl, sym, ap, subst, ◌∙◌, inl, inr, true, false, ◌&&◌, List, [],
  ◌++◌, length, set, take, drop, length-append, length-set, take-length-append, drop-length-append,
  ℕ_discrete, arith, ==_refl,
}
use bonsaigrid.Base.Bytes.{Bytes}
use bonsaigrid.Store.Entry.{Entry, Handle, at, occupied}
use bonsaigrid.Store.Slab.{Slab, SizeClass, get, free, put_two, u32, class_at, free_class}
use bonsaigrid.Store.Slab.Alloc.{Small}
use bonsaigrid.Store.Slab.Memory.{
  Allocated, RoomFor, SlabFits, SlabSmall, Puts, Others, class_at-set_self, class_at-set_ne,
}
use bonsaigrid.Store.Slab.Stores.{put_two-Puts}
use bonsaigrid.Store.Slab.Frees.{Releases, free-Releases, free-class, free-overflow}
use bonsaigrid.Store.Inner.{key_bytes, val_bytes, hit, total}
use bonsaigrid.Store.Inner.Writes.{Item, entry_of}
use bonsaigrid.Store.Inner.Sound.{hash_real}
use bonsaigrid.Store.Inner.Contents.{handle_is, EntryFits, Filed, number_once}
use bonsaigrid.Store.Inner.Contents.Write.{Kept, Replaces}

-- The lengths of an item fit a u32.
unfoldable pub ItemFits : Item → Type 0
ItemFits x = length x.key + length x.val < 2 ^ 32

-- The entry of an item that was put has the item's bytes.
entry_reads :
    (slab : Slab) (x : Item) (id hits : ℕ) (r : Slab × Handle)
    → ItemFits x
    → Puts slab (x.key ++ x.val) r
    → let e = entry_of x id r.1 hits in
      (key_bytes r.0 e ≡ x.key) × (val_bytes r.0 e ≡ x.val) × EntryFits r.0 e
unfolding ItemFits Puts key_bytes val_bytes EntryFits
entry_reads slab x id hits r small (fits, fresh, allocated, room, reads, others) =
    let k : u32 (length x.key) ≡ length x.key = mod-eq_of_lt (omega (arith, small)) in
    let v : u32 (length x.val) ≡ length x.val = mod-eq_of_lt (omega (arith, small)) in
    let t : u32 (u32 (length x.key) + u32 (length x.val)) ≡ length (x.key ++ x.val) =
      mod-eq_of_lt (omega (arith, small, k, v))
      ∙ (let a = length-append x.key x.val in omega (arith, a, k, v)) in
    let bytes : get r.0 r.1 (u32 (u32 (length x.key) + u32 (length x.val))) ≡ x.key ++ x.val =
      ap (get r.0 r.1) t ∙ reads in
    (
      ap (take (u32 (length x.key))) bytes
          ∙ ap (λ n. take n (x.key ++ x.val)) k
          ∙ take-length-append x.key x.val,
      ap (drop (u32 (length x.key))) bytes
          ∙ ap (λ n. drop n (x.key ++ x.val)) k
          ∙ drop-length-append x.key x.val,
      (allocated, subst (RoomFor r.1) (sym t) room),
    )

-- A free slot is filled.
pub fill-Replaces :
    (slab : Slab) (table : List Entry) (i : ℕ) (x : Item) (id : ℕ)
    → Filed slab table
    → SlabSmall slab
    → ItemFits x
    → i < length table
    → occupied (at table i) ≡ false
    → ((k : ℕ)
        → k < length table
        → occupied (at table k) ≡ true
        → hit slab id x.key (at table k) ≡ false)
    → let r = put_two slab x.key x.val in
      Replaces slab r.0 table i (entry_of x id r.1 1) id x.key x.val
unfolding Filed Replaces Kept Puts Others EntryFits
fill-Replaces slab table i x id (fits, entries, own, once) small item lt vac absent =
    let r = put_two slab x.key x.val in
    let puts = put_two-Puts slab x.key x.val fits small in
    let (k, v, good) = entry_reads slab x id 1 r item puts in
    (
      lt,
      hash_real id x.key,
      (refl, refl),
      (k, v),
      (good, puts.0),
      (λ o. absurd (ground (arith, o, vac))),
      λ k ltk ne o.
          let (alive, room) = entries k ltk o in
          let apart : (at table k).handle ≢ r.1 = λ z. puts.1 (subst (Allocated slab) z alive) in
          let (alive', same) = puts.5 (at table k).handle (total (at table k)) apart alive room in
          ((alive', same, apart), absent k ltk o),
    )

still : (c : SizeClass) (slot : ℕ) → Small c → Small (free_class c slot)
unfolding Small free_class
still c slot small = small

-- The slab stays small when a handle is freed.
free-SlabSmall :
    (slab : Slab) (h : Handle)
    → SlabFits slab
    → Allocated slab h
    → SlabSmall slab
    → SlabSmall (free slab h)
unfolding SlabSmall Allocated SlabFits
free-SlabSmall slab h fits a (small, few) = elim a [
  | inl (e, lt, m) ↦ subst SlabSmall (sym (free-overflow slab h e)) (
      unfold SlabSmall in
      (small, (let size = length-set slab.overflow h.slot [] in omega (arith, few, size))))
  | inr (lt, taken) ↦
      subst SlabSmall (sym (free-class slab h lt))
        (unfold SlabSmall in ((λ ci ltc. class_small ci ltc (ℕ_discrete h.class ci)), few))
]
  where
    class_small :
        (ci : ℕ)
        → ci < 20
        → Dec (h.class ≡ ci)
        → Small (
            class_at
              (record slab {
                classes = set slab.classes h.class (free_class (class_at slab h.class) h.slot);
              })
              ci)
    class_small ci ltc (no ne) =
        subst Small
          (sym (class_at-set_ne slab h.class ci (free_class (class_at slab h.class) h.slot) ne))
          (small ci ltc)
    class_small ci ltc (yes same) =
        let c = free_class (class_at slab h.class) h.slot in
        subst (λ ci. Small (class_at (record slab { classes = set slab.classes h.class c }) ci))
          same
          (subst Small
            (sym (
              class_at-set_self slab h.class c
                (let count = fits.0 in omega (arith, count, ltc, same))))
            (still (class_at slab h.class) h.slot (small h.class (omega (arith, ltc, same)))))

handle_is_self : (e : Entry) → handle_is e.handle e ≡ true
unfolding handle_is
handle_is_self e =
    let c = ==_refl e.handle.class in let t = ==_refl e.handle.slot in ground (arith, c, t)

-- Another record than the one at `i` has other bytes and another key.
pub other_record :
    (slab : Slab) (table : List Entry) (i k id : ℕ) (key : Bytes)
    → Filed slab table
    → i < length table
    → k < length table
    → i ≢ k
    → occupied (at table i) ≡ true
    → occupied (at table k) ≡ true
    → hit slab id key (at table i) ≡ true
    → ((at table k).handle ≢ (at table i).handle) × (hit slab id key (at table k) ≡ false)
unfolding Filed
other_record slab table i k id key (fits, entries, own, once) lti ltk ne occ o match_ =
    let h = (at table i).handle in
    let here = handle_is_self (at table i) in
    let apart : (occupied (at table k) && handle_is h (at table k)) ≡ false =
      number_once (λ e. occupied e && handle_is h e) table i k (own h) lti ltk
        (ground (arith, occ, here)) ne in
    let missed : (occupied (at table k) && hit slab id key (at table k)) ≡ false =
      number_once (λ e. occupied e && hit slab id key e) table i k (once id key) lti ltk
        (ground (arith, occ, match_)) ne in
    (
      (λ z.
          let there : handle_is h (at table k) ≡ true =
            subst (λ g. handle_is g (at table k) ≡ true) z (handle_is_self (at table k)) in
          ground (arith, there, apart, o)),
      ground (arith, missed, o),
    )

-- The slot of the key is overwritten.
pub overwrite-Replaces :
    (slab : Slab) (table : List Entry) (i : ℕ) (x : Item) (id hits : ℕ)
    → Filed slab table
    → SlabSmall slab
    → ItemFits x
    → i < length table
    → occupied (at table i) ≡ true
    → hit slab id x.key (at table i) ≡ true
    → let r = put_two (free slab (at table i).handle) x.key x.val in
      Replaces slab r.0 table i (entry_of x id r.1 hits) id x.key x.val
unfolding Filed Replaces Kept Puts Others EntryFits Releases
overwrite-Replaces slab table i x id hits (fits, entries, own, once) small item lt occ match_ =
    let h = (at table i).handle in
    let alive = (entries i lt occ).0 in
    let released = free-Releases slab h fits alive in
    let slab1 = free slab h in
    let r = put_two slab1 x.key x.val in
    let puts = put_two-Puts slab1 x.key x.val released.0 (free-SlabSmall slab h fits alive small) in
    let (k, v, good) = entry_reads slab1 x id hits r item puts in
    (
      lt,
      hash_real id x.key,
      (refl, refl),
      (k, v),
      (good, puts.0),
      (λ o. match_),
      λ k ltk ne o.
          let (alive_k, room) = entries k ltk o in
          let (first, missed) =
            other_record slab table i k id x.key (fits, entries, own, once) lt ltk ne occ o
              match_ in
          let (alive1, same1) =
            released.2 (at table k).handle (total (at table k)) first alive_k room in
          let apart : (at table k).handle ≢ r.1 = λ z. puts.1 (subst (Allocated slab1) z alive1) in
          let (alive2, same2) = puts.5 (at table k).handle (total (at table k)) apart alive1 room in
          ((alive2, same2 ∙ same1, apart), missed),
    )
