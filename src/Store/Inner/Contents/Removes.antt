-- ===== src/Store/Inner/Contents/Removes.antt =====
-- `remove` of crates/store/src/lib.rs as the removal of a key.
use bonsaigrid.Base.{
  ℕ, ◌+◌, ◌<◌, ◌≡◌, ◌≢◌, refl, sym, subst, Bool, true, false, ◌&&◌, List, ◌==◌, length, set,
  length-set, ℕ_discrete, arith,
}
use bonsaigrid.Base.Bytes.{Bytes}
use bonsaigrid.Base.Maps.{bytes_beq}
use bonsaigrid.Store.Entry.{Entry, at, occupied}
use bonsaigrid.Store.Probe.Counts.{bit, number}
use bonsaigrid.Store.Probe.Insert.{at-set_self, at-set_ne}
use bonsaigrid.Store.Slab.{Slab, get, free}
use bonsaigrid.Store.Slab.Memory.{Others}
use bonsaigrid.Store.Slab.Frees.{Releases, free-Releases}
use bonsaigrid.Store.Inner.{hit, total}
use bonsaigrid.Store.Inner.Contents.{has, handle_is, EntryFits, Filed, number-change, number_only}
use bonsaigrid.Store.Inner.Contents.Write.{hit_kept, has_kept, hit_other, both, never, once_more}
use bonsaigrid.Store.Inner.Contents.Slots.{other_record}

-- The record `i` of a key becomes a tombstone, and its bytes are freed.
abbrev pub buried : List Entry → ℕ → List Entry
buried table i = set table i (record (at table i) { hash = 1 })

module _ (slab : Slab) (table : List Entry) (i id : ℕ) (key : Bytes) (filed : Filed slab table)
    (lt : i < length table) (occ : occupied (at table i) ≡ true)
    (match_ : hit slab id key (at table i) ≡ true) where
  abbrev pub freed : Slab
  freed = free slab (at table i).handle

  -- The other records keep their bytes.
  stays :
      (k : ℕ)
      → k < length table
      → i ≢ k
      → occupied (at table k) ≡ true
      → EntryFits freed (at table k)
        × (get freed (at table k).handle (total (at table k))
            ≡ get slab (at table k).handle (total (at table k)))
  stays k ltk ne o =
      unfold Filed EntryFits Releases Others in
      (let (fits, entries, own, once) = filed in
        let (alive, room) = entries k ltk o in
        let released = free-Releases slab (at table i).handle fits (entries i lt occ).0 in
        let (apart, missed) = other_record slab table i k id key filed lt ltk ne occ o match_ in
        let (alive', same) = released.2 (at table k).handle (total (at table k)) apart alive room in
        ((alive', room), same))

  bury_entries :
      (k : ℕ)
      → k < length (buried table i)
      → occupied (at (buried table i) k) ≡ true
      → EntryFits freed (at (buried table i) k)
  bury_entries k ltk o =
      let e = record (at table i) { hash = 1 } in
      let size = length-set table i e in
      elim (ℕ_discrete i k) [
        | yes same ↦ absurd (
            let gone : occupied e ≡ true =
              subst (λ x. occupied x ≡ true) (at-set_self table i e lt)
                (subst (λ k. occupied (at (buried table i) k) ≡ true) (sym same) o) in
            ground (arith, gone))
        | no ne ↦
            subst (EntryFits freed) (sym (at-set_ne table i k e ne))
              (stays k (omega (arith, ltk, size)) ne
                (subst (λ x. occupied x ≡ true) (at-set_ne table i k e ne) o)).0
      ]

  -- The records stay apart.
  pub bury-Filed : Filed freed (buried table i)
  bury-Filed =
      unfold Filed Releases EntryFits in
      (let (fits, entries, own, once) = filed in
        let e = record (at table i) { hash = 1 } in
        let released = free-Releases slab (at table i).handle fits (entries i lt occ).0 in
        (
          released.0,
          bury_entries,
          (λ g.
              once_more (λ x. occupied x && handle_is g x) (λ x. occupied x && handle_is g x) table
                i e lt (own g) (λ k ltk ne. refl) (λ t k ltk ne. absurd (ground (arith, t)))),
          λ id' key'.
              once_more (λ x. occupied x && hit slab id' key' x)
                (λ x. occupied x && hit freed id' key' x) table i e lt (once id' key')
                (λ k ltk ne.
                  both (at table k) (hit slab id' key' (at table k))
                    (hit freed id' key' (at table k))
                    (λ o. sym (hit_kept slab freed id' key' (at table k) (stays k ltk ne o).1)))
                (λ t k ltk ne. absurd (ground (arith, t))),
        ))

  bury_change :
      (id' : ℕ) (key' v : Bytes)
      → number (λ e. occupied e && has freed id' key' v e) (buried table i)
          + bit (occupied (at table i) && has slab id' key' v (at table i))
        ≡ number (λ e. occupied e && has slab id' key' v e) table
  bury_change id' key' v =
      let e = record (at table i) { hash = 1 } in
      let p : Entry → Bool = λ e. occupied e && has slab id' key' v e in
      let q : Entry → Bool = λ e. occupied e && has freed id' key' v e in
      let change = number-change p q table i e lt (λ k ltk ne.
        both (at table k) (has slab id' key' v (at table k)) (has freed id' key' v (at table k))
          (λ o. sym (has_kept slab freed id' key' v (at table k) (stays k ltk ne o).1))) in
      let gone : bit (q e) ≡ 0 = refl in omega (arith, change, gone)

  -- The key has no value.
  pub bury_gone :
      (v : Bytes) → number (λ e. occupied e && has freed id key v e) (buried table i) ≡ 0
  bury_gone v =
      unfold has in
      (let change = bury_change id key v in
        let before =
          number_only (λ e. occupied e && has slab id key v e) table i lt
            (λ k ltk ne. never (at table k) (has slab id key v (at table k)) (λ o.
              let f = (other_record slab table i k id key filed lt ltk ne occ o match_).1 in
              ground (arith, f))) in
        omega (arith, change, before))

  -- Every other key has the values that it had.
  pub bury_other :
      (id' : ℕ) (key' v : Bytes)
      → ((id == id') && bytes_beq key key') ≡ false
      → number (λ e. occupied e && has freed id' key' v e) (buried table i)
        ≡ number (λ e. occupied e && has slab id' key' v e) table
  bury_other id' key' v differs =
      unfold has in
      (let change = bury_change id' key' v in
        let miss = hit_other slab id id' key key' (at table i) match_ differs in
        let b : bit (occupied (at table i) && has slab id' key' v (at table i)) ≡ 0 =
          ground (arith, miss) in
        omega (arith, change, b))
