-- ===== src/Store/Inner/Contents/Puts.antt =====
-- `put` of crates/store/src/lib.rs as the assignment of a value to a key.
use bonsaigrid.Base.{
  some-injective, ℕ, ◌^◌, ◌<◌, ◌≡◌, refl, sym, ap, subst, ◌∙◌, inl, inr, ◌&&◌, Bool-cases, Option,
  none, some, length,
}
use bonsaigrid.Base.Bytes.{Bytes}
use bonsaigrid.Store.Entry.{at, occupied, hash}
use bonsaigrid.Store.Probe.Counts.{number}
use bonsaigrid.Store.Probe.Insert.{Chosen, seek_free-Chosen}
use bonsaigrid.Store.Slab.Memory.{SlabSmall}
use bonsaigrid.Store.Inner.{Inner, intern, hit, update_indexes}
use bonsaigrid.Store.Inner.Writes.{
  Item, fill, overwrite, evict_over, put_at, put_grown, put, probe_free,
}
use bonsaigrid.Store.Inner.Sound.{WellFormed}
use bonsaigrid.Store.Inner.Lookup.{hit_parts, WellFormed-Roomy, WellFormed-Chained}
use bonsaigrid.Store.Inner.Grow.{Interned, intern-Interned, maybe_grow-WellFormed}
use bonsaigrid.Store.Inner.Puts.{put-Leaves, Leaves}
use bonsaigrid.Store.Inner.Contents.{has, stored, Filed}
use bonsaigrid.Store.Inner.Contents.Slots.{ItemFits}
use bonsaigrid.Store.Inner.Contents.Values.{
  Assigns, Unbounded, grow-Filed, evict_over-none, fill-Assigns, overwrite-Assigns,
}

-- The write after the table has grown.
put_at-Assigns :
    (s : Inner) (name : Bytes) (id : ℕ) (x : Item) (seed : ℕ → ℕ)
    → WellFormed s
    → Filed s.slab s.table
    → SlabSmall s.slab
    → ItemFits x
    → Unbounded (s.configs name)
    → (r : Inner × Option Bytes) × (put_at s name id x seed (probe_free s id x.key) ≡ some r)
      × Assigns s id x r.0
      × (r.0.map_ids ≡ s.map_ids)
unfolding put_at Chosen
put_at-Assigns s name id x seed w filed small item free_size =
    let (i, lt, which) =
      seek_free-Chosen (hit s.slab id x.key) s.table (hash id x.key) (WellFormed-Roomy s w)
        (WellFormed-Chained s w) in
    elim which [
      | inl (comes, occ, match_) ↦ (
        overwrite s name id x i,
        rw (comes) refl,
        overwrite-Assigns s name id x i filed small item lt occ match_,
        overwrite_ids s name id x i,
      )
      | inr (comes, vac, reach, absent) ↦
          let t = fill s name id x i in
          let kept =
            evict_over-none t name id (t.configs name) seed
              (fill_unbounded s name id x i free_size) in
          (
            (evict_over t name id (t.configs name) seed, none),
            rw (comes) refl,
            subst (Assigns s id x) (sym kept) (
                fill-Assigns s name id x i filed small item lt vac (λ k ltk occ.
                  elim (Bool-cases (hit s.slab id x.key (at s.table k))) [
                    | inr miss ↦ miss
                    | inl match_ ↦ absent k ltk occ (hit_parts s id x.key (at s.table k) match_).0
                  ])),
            ap (λ t. t.map_ids) kept ∙ fill_ids s name id x i,
          )
    ]
  where
    overwrite_ids :
        (s : Inner) (name : Bytes) (id : ℕ) (x : Item) (i : ℕ)
        → (overwrite s name id x i).0.map_ids ≡ s.map_ids
    overwrite_ids s name id x i = unfold overwrite update_indexes in refl

    fill_ids :
        (s : Inner) (name : Bytes) (id : ℕ) (x : Item) (i : ℕ)
        → (fill s name id x i).map_ids ≡ s.map_ids
    fill_ids s name id x i = unfold fill update_indexes in refl

    fill_unbounded :
        (s : Inner) (name : Bytes) (id : ℕ) (x : Item) (i : ℕ)
        → Unbounded (s.configs name)
        → Unbounded ((fill s name id x i).configs name)
    fill_unbounded s name id x i u = unfold fill update_indexes in u

-- The shard is as `put` needs it: well-formed, its records apart, and no number near 2^32.
unfoldable pub Ready : Inner → Type 0
Ready s = WellFormed s × Filed s.slab s.table × SlabSmall s.slab × (length s.map_names < 2 ^ 32)

same_stored :
    (s t : Inner)
    → t.table ≡ s.table
    → t.slab ≡ s.slab
    → (id : ℕ) (key v : Bytes) → stored t id key v ≡ stored s id key v
unfolding stored
same_stored s t table slab id key v =
    ap (number (λ e. occupied e && has t.slab id key v e)) table
    ∙ ap (λ slab. number (λ e. occupied e && has slab id key v e) s.table) slab

Assigns-from :
    (s s' : Inner) (id : ℕ) (x : Item) (t : Inner)
    → ((id : ℕ) (key v : Bytes) → stored s' id key v ≡ stored s id key v)
    → Assigns s' id x t
    → Assigns s id x t
unfolding Assigns
Assigns-from s s' id x t same (filed, new, others) =
    (filed, new, λ other key v differs. others other key v differs ∙ same other key v)

-- A put into a map without a bound on its size assigns the value to the key and changes no other.
pub put-Assigns :
    (s : Inner) (name : Bytes) (x : Item) (seed : ℕ → ℕ)
    → Ready s
    → ItemFits x
    → Unbounded (s.configs name)
    → (r : Inner × Option Bytes) × (put s name x seed ≡ some r)
      × WellFormed r.0
      × ((id : ℕ) × (r.0.map_ids name ≡ some id) × Assigns s id x r.0)
unfolding Ready put put_grown Interned Leaves
put-Assigns s name x seed (w, filed, small, few) item free_size =
    let (w', inside, known, tabled, slabbed, configured, one_more) = intern-Interned s name w few in
    let u = (intern s name).0 in
    let id = (intern s name).1 in
    let filed' : Filed u.slab u.table =
      subst (λ table. Filed u.slab table) (sym tabled)
        (subst (λ slab. Filed slab s.table) (sym slabbed) filed) in
    let (t', grows', filed_t', stored_t', configs_t', ids_t', slab_t') = grow-Filed u w' filed' in
    let (t, grows, grown, room, counted, ids, names, slab) = maybe_grow-WellFormed u w' in
    let same : t ≡ t' = some-injective _ _ (sym grows ∙ grows') in
    let (r, comes, assigns, ids_r) =
      put_at-Assigns t' name id x seed (subst WellFormed same grown) filed_t'
        (subst SlabSmall (sym (slab_t' ∙ slabbed)) small) item
        (subst (λ c. Unbounded (c name)) (sym (configs_t' ∙ configured)) free_size) in
    let (q, returns, leaves) = put-Leaves s name x seed w few in
    let whole : put s name x seed ≡ some r = rw (grows') comes in
    (
      r,
      whole,
      subst (λ q. WellFormed q.0) (some-injective _ _ (sym returns ∙ whole)) leaves.0,
      (
        id,
        ap (λ m. m name) (ids_r ∙ ids_t') ∙ known,
        Assigns-from s t' id x r.0
            (λ id key v. stored_t' id key v ∙ same_stored s u tabled slabbed id key v) assigns,
      ),
    )
