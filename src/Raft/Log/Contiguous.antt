-- ===== src/Raft/Log/Contiguous.antt =====
-- The log of crates/raft/src/log.rs holds consecutive indices: `entries[j]` has the index
-- `snapshot_index + 1 + j`.
use mathlib.Core.List.{map-append}
use bonsaigrid.Base.{
  ℕ, zero, suc, ◌+◌, ◌-◌, ◌≤◌, ◌<◌, ◌≡◌, ◌||◌, refl, ap, ◌∙◌, inl, inr, List, [], ◌∷◌, ◌++◌, length,
  take, drop, ltb, leb, min, add64, add64-eq_of_lt, u64_mod, last_or, map, arith, length-append,
  length-take, length-drop, Bool-cases, last_or-append,
}
use bonsaigrid.Raft.Log.{Entry, RaftLog, last_index, compact, fold_prefix, append, truncate_from}

-- The entries carry the indices `s + 1`, `s + 2`, and so on.
abbrev pub Consecutive : ℕ → List Entry → Type 0
Consecutive s [] = Unit {0}
Consecutive s (e ∷ es) = (e.index ≡ suc s) × Consecutive (suc s) es

pub record IsContiguous (l : RaftLog) : Type 0 where
  pub run : Consecutive l.snapshot_index l.entries
  pub fits : l.snapshot_index + length l.entries + 1 < u64_mod

last-Consecutive :
    (s : ℕ) (es : List Entry) → Consecutive s es → last_or (map (λ e. e.index) es) s ≡ s + length es
last-Consecutive s [] h = omega arith
last-Consecutive s (e ∷ es) h = rw (h.0) (omega (arith, last-Consecutive (suc s) es h.1))

pub last_index_eq :
    (l : RaftLog) → IsContiguous l → last_index l ≡ l.snapshot_index + length l.entries
unfolding last_index
last_index_eq l c = last-Consecutive l.snapshot_index l.entries c.run

Consecutive-append :
    (s : ℕ) (es : List Entry) (e : Entry)
    → Consecutive s es
    → e.index ≡ s + length es + 1
    → Consecutive s (es ++ e ∷ [])
Consecutive-append s [] e h p = (omega arith, tt)
Consecutive-append s (x ∷ es) e h p = (h.0, Consecutive-append (suc s) es e h.1 (omega arith))

pub Consecutive-take : (s n : ℕ) (es : List Entry) → Consecutive s es → Consecutive s (take n es)
Consecutive-take s zero es h = tt
Consecutive-take s (suc n) [] h = tt
Consecutive-take s (suc n) (e ∷ es) h = (h.0, Consecutive-take (suc s) n es h.1)

Consecutive-eq : {s t : ℕ} (es : List Entry) → s ≡ t → Consecutive s es → Consecutive t es
Consecutive-eq es p h = rw p at h

pub Consecutive-drop :
    (s n : ℕ) (es : List Entry) → n ≤ length es → Consecutive s es → Consecutive (s + n) (drop n es)
Consecutive-drop s zero es b h = Consecutive-eq es (omega arith) h
Consecutive-drop s (suc n) [] b h = tt
Consecutive-drop s (suc n) (e ∷ es) b h =
    Consecutive-eq {s = suc s + n} (drop n es) (omega arith)
      (Consecutive-drop (suc s) n es (omega arith) h.1)

-- Appending the next index keeps the indices consecutive and moves the last index by one.
pub append-IsContiguous :
    (l : RaftLog) (e : Entry)
    → IsContiguous l
    → e.index ≡ last_index l + 1
    → e.index + 1 < u64_mod
    → IsContiguous (append l e)
unfolding append
append-IsContiguous l e c p b = record {
  run = Consecutive-append l.snapshot_index l.entries e c.run (omega (arith, last_index_eq l c));
  fits = omega (arith, last_index_eq l c, length-append l.entries (e ∷ []));
}

pub truncate_from-IsContiguous :
    (l : RaftLog) (index : ℕ) → IsContiguous l → IsContiguous (truncate_from l index)
unfolding truncate_from
truncate_from-IsContiguous l index c = record {
  run = Consecutive-take l.snapshot_index _ l.entries c.run;
  fits = omega (arith, c.fits, length-take (index - add64 l.snapshot_index 1) l.entries);
}

length-truncate_from :
    (l : RaftLog) (index : ℕ)
    → IsContiguous l
    → length (truncate_from l index).entries ≡ min (index - suc l.snapshot_index) (length l.entries)
unfolding truncate_from
length-truncate_from l index c = omega (
  arith,
  length-take (index - add64 l.snapshot_index 1) l.entries,
  add64-eq_of_lt l.snapshot_index 1 (omega (arith, c.fits)),
)

snapshot_index-truncate_from :
    (l : RaftLog) (index : ℕ) → (truncate_from l index).snapshot_index ≡ l.snapshot_index
unfolding truncate_from
snapshot_index-truncate_from l index = refl

-- Cutting at an index past the snapshot leaves exactly the indices below it.
pub last_index-truncate_from :
    (l : RaftLog) (index : ℕ)
    → IsContiguous l
    → l.snapshot_index < index
    → last_index (truncate_from l index) ≡ min (index - 1) (last_index l)
last_index-truncate_from l index c h = omega (
  arith,
  last_index_eq l c,
  last_index_eq (truncate_from l index) (truncate_from-IsContiguous l index c),
  length-truncate_from l index c,
  snapshot_index-truncate_from l index,
)

module _ {ℓ} (P : RaftLog → Type ℓ) (l : RaftLog) (up_to : ℕ) where
  -- `compact` leaves the log alone, or folds a prefix that lies within the log.
  pub compact_cases :
      P l
      → (l.snapshot_index < up_to → up_to ≤ last_index l → P (fold_prefix l up_to))
      → P (compact l up_to)
  unfolding compact
  compact_cases same folded =
      elim (Bool-cases (l.durable || leb up_to l.snapshot_index || ltb (last_index l) up_to)) [
        | inl e ↦ rw e same
        | inr e ↦ rw e (folded (ground arith) (ground arith))
      ]

length-fold_prefix :
    (l : RaftLog) (up_to : ℕ)
    → length (fold_prefix l up_to).entries
      ≡ length l.entries - min (up_to - l.snapshot_index) (length l.entries)
unfolding fold_prefix
length-fold_prefix l up_to = length-drop _ l.entries

snapshot_index-fold_prefix :
    (l : RaftLog) (up_to : ℕ) → (fold_prefix l up_to).snapshot_index ≡ up_to
unfolding fold_prefix
snapshot_index-fold_prefix l up_to = refl

pub fold_prefix-IsContiguous :
    (l : RaftLog) (up_to : ℕ)
    → IsContiguous l
    → l.snapshot_index < up_to
    → up_to ≤ last_index l
    → IsContiguous (fold_prefix l up_to)
unfolding fold_prefix
fold_prefix-IsContiguous l up_to c h k = record {
  run = Consecutive-eq (drop _ l.entries) (omega (arith, last_index_eq l c)) (
      Consecutive-drop l.snapshot_index (min (up_to - l.snapshot_index) (length l.entries))
        l.entries (omega arith) c.run);
  fits = omega (
    arith,
    c.fits,
    last_index_eq l c,
    length-drop (min (up_to - l.snapshot_index) (length l.entries)) l.entries,
  );
}

pub compact-IsContiguous :
    (l : RaftLog) (up_to : ℕ) → IsContiguous l → IsContiguous (compact l up_to)
compact-IsContiguous l up_to c =
    compact_cases IsContiguous l up_to c (fold_prefix-IsContiguous l up_to c)

-- Compaction never moves the last index.
pub last_index-compact :
    (l : RaftLog) (up_to : ℕ) → IsContiguous l → last_index (compact l up_to) ≡ last_index l
last_index-compact l up_to c =
    compact_cases (λ m. last_index m ≡ last_index l) l up_to refl
      λ h k. omega (
        arith,
        last_index_eq l c,
        last_index_eq (fold_prefix l up_to) (fold_prefix-IsContiguous l up_to c h k),
        length-fold_prefix l up_to,
        snapshot_index-fold_prefix l up_to,
      )

pub last_index-append : (l : RaftLog) (e : Entry) → last_index (append l e) ≡ e.index
unfolding append last_index
last_index-append l e =
    ap (λ xs. last_or xs l.snapshot_index) (map-append (λ x. x.index) l.entries (e ∷ []))
    ∙ last_or-append (map (λ x. x.index) l.entries) l.snapshot_index e.index
