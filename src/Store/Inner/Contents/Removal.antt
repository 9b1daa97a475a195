-- ===== src/Store/Inner/Contents/Removal.antt =====
-- `remove` of crates/store/src/lib.rs, seen from outside: the key has no value, and every other key has
-- the values that it had.
use bonsaigrid.Base.{
  ℕ, ◌<◌, ◌≡◌, refl, sym, ap, subst, ◌∙◌, inl, inr, Bool, true, false, ◌&&◌, Bool-cases, Option,
  none, some, List, ◌==◌, length, set, length-set, ℕ_discrete, arith,
}
use bonsaigrid.Base.Bytes.{Bytes}
use bonsaigrid.Base.Maps.{bytes_beq}
use bonsaigrid.Store.Entry.{Entry, at, occupied}
use bonsaigrid.Store.Probe.Counts.{bit, number, number-set}
use bonsaigrid.Store.Probe.Insert.{at-set_self, at-set_ne}
use bonsaigrid.Store.Slab.{Slab}
use bonsaigrid.Store.Inner.{
  Inner, find, bury, touch, more_hits, hit, val_bytes, key_bytes, update_indexes,
}
use bonsaigrid.Store.Inner.Writes.{remove, remove_at}
use bonsaigrid.Store.Inner.Sound.{WellFormed}
use bonsaigrid.Store.Inner.Lookup.{Holds, Absent, Finds, find-Finds}
use bonsaigrid.Store.Inner.Contents.{has, stored, handle_is, EntryFits, Filed, number_never}
use bonsaigrid.Store.Inner.Contents.Removes.{bury-Filed, bury_gone, bury_other}

-- The key has no value, and the other keys have theirs.
unfoldable pub Removes : Inner → ℕ → Bytes → Inner → Type 0
Removes s id key t =
    Filed t.slab t.table
    × ((v : Bytes) → stored t id key v ≡ 0)
    × ((other : ℕ) (key' v : Bytes)
        → ((id == other) && bytes_beq key key') ≡ false
        → stored t other key' v ≡ stored s other key' v)

missing-Removes :
    (s : Inner) (id : ℕ) (key : Bytes) → Filed s.slab s.table → Absent s id key → Removes s id key s
unfolding Removes stored has Absent
missing-Removes s id key filed absent = (
  filed,
  (λ v.
      number_never (λ e. occupied e && has s.slab id key v e) s.table
        (λ k lt. elim (Bool-cases (occupied (at s.table k))) [
          | inl occ ↦ let f = absent k lt occ in ground (arith, f)
          | inr vac ↦ ground (arith, vac)
        ])),
  λ other key' v differs. refl,
)

bury-Removes :
    (s : Inner) (id i : ℕ) (key : Bytes)
    → Filed s.slab s.table
    → Holds s id key i
    → (m : ℕ) → Removes s id key (bury s m i)
unfolding Removes stored Holds bury
bury-Removes s id i key filed (lt, occ, match_) m = (
  bury-Filed s.slab s.table i id key filed lt occ match_,
  bury_gone s.slab s.table i id key filed lt occ match_,
  bury_other s.slab s.table i id key filed lt occ match_,
)

-- A record that is touched keeps its bytes and its key.
touched : Entry → ℕ → Entry
touched e now = record e { last_access_ms = now; hits = more_hits e.hits }

touch-number :
    (p : Entry → Bool) (table : List Entry) (i now : ℕ)
    → i < length table
    → p (touched (at table i) now) ≡ p (at table i)
    → number p (set table i (touched (at table i) now)) ≡ number p table
touch-number p table i now lt same =
    let n = number-set p table i (touched (at table i) now) lt in
    let b : bit (p (touched (at table i) now)) ≡ bit (p (at table i)) = ap bit same in
    omega (arith, n, b)

touch_entries :
    (slab : Slab) (table : List Entry) (i now : ℕ)
    → i < length table
    → occupied (at table i) ≡ true
    → ((k : ℕ) → k < length table → occupied (at table k) ≡ true → EntryFits slab (at table k))
    → (k : ℕ) → k < length (set table i (touched (at table i) now))
    → occupied (at (set table i (touched (at table i) now)) k) ≡ true
    → EntryFits slab (at (set table i (touched (at table i) now)) k)
touch_entries slab table i now lt occ entries k ltk o =
    let e = touched (at table i) now in
    let size = length-set table i e in
    elim (ℕ_discrete i k) [
      | yes same ↦
          subst (λ k. EntryFits slab (at (set table i e) k)) same
            (subst (EntryFits slab) (sym (at-set_self table i e lt))
              (unfold EntryFits touched in (entries i lt occ)))
      | no ne ↦ subst (EntryFits slab) (sym (at-set_ne table i k e ne)) (
          entries k (omega (arith, ltk, size))
            (subst (λ x. occupied x ≡ true) (at-set_ne table i k e ne) o))
    ]

touch-Filed :
    (s : Inner) (i now : ℕ)
    → i < length s.table
    → occupied (at s.table i) ≡ true
    → Filed s.slab s.table
    → Filed (touch s i now).slab (touch s i now).table
      × ((id : ℕ) (key v : Bytes) → stored (touch s i now) id key v ≡ stored s id key v)
unfolding Filed touch stored touched handle_is hit has key_bytes val_bytes
touch-Filed s i now lt occ (fits, entries, own, once) = (
  (
    fits,
    touch_entries s.slab s.table i now lt occ entries,
    (λ h.
        let n = touch-number (λ e. occupied e && handle_is h e) s.table i now lt refl in
        let o = own h in omega (arith, n, o)),
    λ id key.
        let n = touch-number (λ e. occupied e && hit s.slab id key e) s.table i now lt refl in
        let o = once id key in omega (arith, n, o),
  ),
  λ id key v. touch-number (λ e. occupied e && has s.slab id key v e) s.table i now lt refl,
)

touch-Holds :
    (s : Inner) (id i now : ℕ) (key : Bytes) → Holds s id key i → Holds (touch s i now) id key i
unfolding Holds touch touched hit key_bytes
touch-Holds s id i now key (lt, occ, match_) =
    let e = touched (at s.table i) now in
    (
      let size = length-set s.table i e in omega (arith, lt, size),
      subst (λ x. occupied x ≡ true) (sym (at-set_self s.table i e lt)) occ,
      subst (λ x. hit s.slab id key x ≡ true) (sym (at-set_self s.table i e lt)) match_,
    )

-- Removal of the record that a lookup has returned.
touched-Removes :
    (s : Inner) (name key : Bytes) (id i now m : ℕ) (old : Option Bytes)
    → Filed s.slab s.table
    → Holds s id key i
    → Removes s id key (bury (update_indexes (touch s i now) name key old none) m i)
unfolding Removes update_indexes Holds stored
touched-Removes s name key id i now m old filed holds =
    let t = touch s i now in
    let u = update_indexes t name key old none in
    let (filed', same) = touch-Filed s i now holds.0 holds.1 filed in
    let (fits, gone, others) =
      bury-Removes u id i key filed' (touch-Holds s id i now key holds) m in
    (fits, gone, λ other key' v differs. others other key' v differs ∙ same other key' v)

removed :
    (s : Inner) (name key : Bytes) (now : ℕ) (r : Inner × Option ℕ)
    → find s name key now ≡ some r
    → remove s name key now ≡ remove_at name key (some r)
unfolding remove
removed s name key now r comes = ap (remove_at name key) comes

-- `remove` of a key of a named map returns, removes the key and changes no other.
pub remove-Removes :
    (s : Inner) (name key : Bytes) (now id : ℕ)
    → WellFormed s
    → Filed s.slab s.table
    → s.map_ids name ≡ some id
    → (q : Inner × Option Bytes) × (remove s name key now ≡ some q) × Removes s id key q.0
unfolding remove_at Finds
remove-Removes s name key now id w filed named =
    let (r, comes, finds) = find-Finds s name key now id w named in
    let opened = removed s name key now r comes in
    elim finds [
      | inl (same, absent) ↦ (
        (s, none),
        opened ∙ ap (λ r. remove_at name key (some r)) same,
        missing-Removes s id key filed absent,
      )
      | inr (i, holds, which) ↦ elim which [
        | inl (old, same) ↦ (
          (bury s id i, none),
          opened ∙ ap (λ r. remove_at name key (some r)) same,
          bury-Removes s id i key filed holds id,
        )
        | inr (fresh, same) ↦ (
          _,
          opened ∙ ap (λ r. remove_at name key (some r)) same,
          touched-Removes s name key id i now _ _ filed holds,
        )
      ]
    ]
