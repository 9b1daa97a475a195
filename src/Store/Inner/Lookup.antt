-- ===== src/Store/Inner/Lookup.antt =====
-- `find` of crates/store/src/lib.rs: it always returns, with the record of the key where there is one
-- that has not expired, and it removes one that has.
use bonsaigrid.Base.{
  ℕ, ◌<◌, ◌≡◌, refl, sym, ap, subst, ◌∙◌, ◌⊎◌, inl, inr, true, false, Bool-cases, Option, none,
  some, Option-cases, ◌==◌, length, length-set, arith,
}
use bonsaigrid.Base.Bytes.{Bytes}
use bonsaigrid.Store.Entry.{Entry, at, occupied, hash}
use bonsaigrid.Store.Probe.{Probe, vacant, found}
use bonsaigrid.Store.Probe.Chains.{
  Chained, Roomy, seek_round, seek-found, seek-vacant, stopped_at, stopped_at-empty,
  stopped_at-full,
}
use bonsaigrid.Store.Inner.{
  Inner, bury, touch, hit, find, find_in, find_at, probe_for, is_expired, more_hits,
}
use bonsaigrid.Store.Probe.Insert.{at-set_self}
use bonsaigrid.Store.Inner.Layout.{Layout, Layout-Roomy}
use bonsaigrid.Store.Inner.Sound.{WellFormed, bury-WellFormed, touch-WellFormed}

-- Slot `i` has a record of map `id` with the key.
unfoldable pub Holds : Inner → ℕ → Bytes → ℕ → Type 0
Holds s id key i =
    (i < length s.table)
    × (occupied (at s.table i) ≡ true)
    × (hit s.slab id key (at s.table i) ≡ true)

unfoldable pub Absent : Inner → ℕ → Bytes → Type 0
Absent s id key =
    (k : ℕ)
    → k < length s.table
    → occupied (at s.table k) ≡ true
    → hit s.slab id key (at s.table k) ≡ false

-- What `find` comes to for map `id`: no record of the key; one that has expired and is removed; or
-- one that is returned, and touched.
unfoldable pub Finds : Inner → ℕ → Bytes → ℕ → Inner × Option ℕ → Type 0
Finds s id key now r =
    ((r ≡ (s, none)) × Absent s id key)
    ⊎ ((i : ℕ) × Holds s id key i
        × (((is_expired s id (at s.table i) now ≡ true) × (r ≡ (bury s id i, none)))
            ⊎ ((is_expired s id (at s.table i) now ≡ false) × (r ≡ (touch s i now, some i)))))

pub hit_parts :
    (s : Inner) (id : ℕ) (key : Bytes) (e : Entry)
    → hit s.slab id key e ≡ true
    → (e.hash ≡ hash id key) × (e.map_id ≡ id)
unfolding hit
hit_parts s id key e h = ground (arith, h)

pub WellFormed-Roomy : (s : Inner) → WellFormed s → Roomy s.table
unfolding WellFormed
WellFormed-Roomy s w = Layout-Roomy s.table s.len s.tombstones w.0

pub WellFormed-Chained : (s : Inner) → WellFormed s → Chained s.table
unfolding WellFormed Layout
WellFormed-Chained s w = w.0.4

-- The probe of a well-formed shard.
probe-cases :
    (s : Inner) (id : ℕ) (key : Bytes)
    → WellFormed s
    → ((i : ℕ) × (probe_for s id key ≡ found i) × Holds s id key i)
      ⊎ ((i : ℕ) × (probe_for s id key ≡ vacant i) × Absent s id key)
unfolding Holds Absent
probe-cases s id key w =
    let roomy = WellFormed-Roomy s w in
    let (d, below, passed, here, comes) =
      seek_round (hit s.slab id key) s.table (hash id key) roomy in
    which _ comes
  where
    which :
        (i : ℕ)
        → probe_for s id key ≡ stopped_at s.table i
        → ((i : ℕ) × (probe_for s id key ≡ found i) × Holds s id key i)
          ⊎ ((i : ℕ) × (probe_for s id key ≡ vacant i) × Absent s id key)
    which i comes = elim (Bool-cases ((at s.table i).hash == 0)) [
      | inr full ↦
          let p = comes ∙ stopped_at-full s.table i full in
          inl
            (i, p, seek-found (hit s.slab id key) s.table (hash id key) i (WellFormed-Roomy s w) p)
      | inl empty ↦
          let p = comes ∙ stopped_at-empty s.table i empty in
          inr (
            i,
            p,
            λ k lt occ. elim (Bool-cases (hit s.slab id key (at s.table k))) [
              | inr miss ↦ miss
              | inl match_ ↦
                  seek-vacant (hit s.slab id key) s.table (hash id key) i k (WellFormed-Roomy s w)
                    (WellFormed-Chained s w) p lt occ (hit_parts s id key (at s.table k) match_).0
            ],
          )
    ]

find_opened :
    (s : Inner) (name key : Bytes) (now id : ℕ) (q : Probe)
    → s.map_ids name ≡ some id
    → probe_for s id key ≡ q
    → find s name key now ≡ find_at s id now q
unfolding find find_in
find_opened s name key now id q named p = rw (named, p) refl

pub find-Finds :
    (s : Inner) (name key : Bytes) (now id : ℕ)
    → WellFormed s
    → s.map_ids name ≡ some id
    → (r : Inner × Option ℕ) × (find s name key now ≡ some r) × Finds s id key now r
unfolding find_at Finds
find-Finds s name key now id w named = elim (probe-cases s id key w) [
  | inr (i, p, absent) ↦
      ((s, none), find_opened s name key now id (vacant i) named p, inl (refl, absent))
  | inl (i, p, holds) ↦
      let opened = find_opened s name key now id (found i) named p in
      elim (Bool-cases (is_expired s id (at s.table i) now)) [
        | inl old ↦ ((bury s id i, none), opened ∙ rw (old) refl, inr (i, holds, inl (old, refl)))
        | inr fresh ↦
            ((touch s i now, some i), opened ∙ rw (fresh) refl, inr (i, holds, inr (fresh, refl)))
      ]
]

find_unnamed :
    (s : Inner) (name key : Bytes) (now : ℕ)
    → s.map_ids name ≡ none
    → find s name key now ≡ some (s, none)
unfolding find find_in
find_unnamed s name key now named = rw (named) refl

-- `find` always returns, and leaves a well-formed shard; the slot that it returns has a record.
unfoldable pub Sound : Inner × Option ℕ → Type 0
Sound (s, none) = WellFormed s
Sound (s, some i) = WellFormed s × (i < length s.table) × (occupied (at s.table i) ≡ true)

touched_length : (s : Inner) (i now : ℕ) → length (touch s i now).table ≡ length s.table
unfolding touch
touched_length s i now =
    length-set s.table i
      (record (at s.table i) { last_access_ms = now; hits = more_hits (at s.table i).hits })

touched :
    (s : Inner) (i now : ℕ)
    → i < length s.table
    → occupied (at s.table i) ≡ true
    → occupied (at (touch s i now).table i) ≡ true
unfolding touch
touched s i now lt occ =
    subst (λ e. occupied e ≡ true)
      (sym (
        at-set_self s.table i
          (record (at s.table i) { last_access_ms = now; hits = more_hits (at s.table i).hits })
          lt))
      occ

Finds-Sound :
    (s : Inner) (id : ℕ) (key : Bytes) (now : ℕ) (r : Inner × Option ℕ)
    → WellFormed s
    → Finds s id key now r
    → Sound r
unfolding Finds Sound Holds
Finds-Sound s id key now r w finds = elim finds [
  | inl (same, absent) ↦ subst Sound (sym same) w
  | inr (i, (lt, occ, match_), which) ↦ elim which [
    | inl (old, same) ↦
        subst Sound
          (ap (λ m. (bury s m i, none)) (hit_parts s id key (at s.table i) match_).1 ∙ sym same)
          (bury-WellFormed s i w lt occ)
    | inr (fresh, same) ↦ subst Sound (sym same) (
      touch-WellFormed s i now w lt occ,
      subst (λ n. i < n) (sym (touched_length s i now)) lt,
      touched s i now lt occ,
    )
  ]
]

Finds-names :
    (s : Inner) (id : ℕ) (key : Bytes) (now : ℕ) (r : Inner × Option ℕ)
    → Finds s id key now r
    → r.0.map_names ≡ s.map_names
unfolding Finds bury touch
Finds-names s id key now r finds = elim finds [
  | inl (same, absent) ↦ ap (λ r. r.0.map_names) same
  | inr (i, holds, which) ↦ elim which [
    | inl (old, same) ↦ ap (λ r. r.0.map_names) same
    | inr (fresh, same) ↦ ap (λ r. r.0.map_names) same
  ]
]

pub find-Sound :
    (s : Inner) (name key : Bytes) (now : ℕ)
    → WellFormed s
    → (r : Inner × Option ℕ) × (find s name key now ≡ some r)
      × Sound r
      × (r.0.map_names ≡ s.map_names)
unfolding Sound
find-Sound s name key now w = elim (Option-cases (s.map_ids name)) [
  | inl unnamed ↦ ((s, none), find_unnamed s name key now unnamed, w, refl)
  | inr (id, named) ↦
      let (r, comes, finds) = find-Finds s name key now id w named in
      (r, comes, Finds-Sound s id key now r w finds, Finds-names s id key now r finds)
]
