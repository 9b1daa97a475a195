-- ===== src/Raft/Log/Entries.antt =====
-- What a position of the log of crates/raft/src/log.rs holds after each operation.
use bonsaigrid.Base.{
  ℕ, zero, suc, ◌+◌, ◌-◌, ◌≤◌, ◌<◌, ◌≡◌, ◌≢◌, refl, ap, ◌∙◌, sym, Option, none, some, List, [], ◌∷◌,
  ◌++◌, length, get_elem?, take, ltb, leb, ◌==◌, if◌then◌else◌, min, add64, add64-eq_of_lt, arith,
  length-take, get_elem?-append_left, get_elem?-append_length, get_elem?-take, get_elem?-drop,
  get_elem?-out, get_elem?-in,
}
use bonsaigrid.Raft.Log.{
  Entry, RaftLog, last_index, entry_at, term_at, compact, fold_prefix, append, truncate_from,
}
use bonsaigrid.Raft.Log.Contiguous.{Consecutive, IsContiguous, last_index_eq, compact_cases}

-- The first entry that carries an index: the description of the log without positions.
pub find_index : ℕ → List Entry → Option Entry
find_index i [] = none
find_index i (e ∷ es) = if e.index == i then some e else find_index i es

find_index-below : (s i : ℕ) (es : List Entry) → Consecutive s es → i ≤ s → find_index i es ≡ none
unfolding find_index
find_index-below s i [] c h = refl
find_index-below s i (e ∷ es) c h = ground (arith, find_index-below (suc s) i es c.1)

find_index-get :
    (s k i : ℕ) (es : List Entry)
    → Consecutive s es
    → i ≡ s + suc k
    → find_index i es ≡ get_elem? es k
unfolding find_index
find_index-get s k i [] c p = refl
find_index-get s zero i (e ∷ es) c p = ground arith
find_index-get s (suc k) i (e ∷ es) c p = ground (arith, find_index-get (suc s) k i es c.1)

entry_at_lem :
    (l : RaftLog) (i : ℕ)
    → entry_at l i
      ≡ (if leb i l.snapshot_index then none else get_elem? l.entries (i - l.snapshot_index - 1))
unfolding entry_at
entry_at_lem l i = ground (arith, get_elem?-out l.entries (i - l.snapshot_index - 1))

entry_at-past :
    (l : RaftLog) (i : ℕ)
    → l.snapshot_index < i
    → entry_at l i ≡ get_elem? l.entries (i - l.snapshot_index - 1)
entry_at-past l i h = ground (arith, entry_at_lem l i)

-- A position computed from the snapshot index is where a search for the index ends.
pub entry_at-eq-find_index :
    (l : RaftLog) (i : ℕ) → IsContiguous l → entry_at l i ≡ find_index i l.entries
entry_at-eq-find_index l i c = ground (
  arith,
  entry_at_lem l i,
  find_index-below l.snapshot_index i l.entries c.run,
  find_index-get l.snapshot_index (i - l.snapshot_index - 1) i l.entries c.run,
)

-- An append is read at its own index, and changes no other.
pub entry_at-append_self :
    (l : RaftLog) (e : Entry)
    → IsContiguous l
    → e.index ≡ last_index l + 1
    → entry_at (append l e) e.index ≡ some e
unfolding append
entry_at-append_self l e c p =
    let k : e.index - l.snapshot_index - 1 ≡ length l.entries = omega (arith, last_index_eq l c) in
    entry_at-past (append l e) e.index (omega (arith, last_index_eq l c))
    ∙ ap (get_elem? (l.entries ++ e ∷ [])) k
    ∙ get_elem?-append_length l.entries e []

pub entry_at-append_old :
    (l : RaftLog) (e : Entry) (i : ℕ)
    → IsContiguous l
    → i ≤ last_index l
    → entry_at (append l e) i ≡ entry_at l i
unfolding append
entry_at-append_old l e i c h = ground (
  arith,
  entry_at_lem l i,
  entry_at_lem (append l e) i,
  last_index_eq l c,
  get_elem?-append_left l.entries (e ∷ []) (i - l.snapshot_index - 1),
)

take-none : (n : ℕ) (es : List Entry) (i : ℕ) → n ≤ i → get_elem? (take n es) i ≡ none
take-none n es i h = get_elem?-out (take n es) i (omega (arith, length-take n es))

pub entry_at-truncate_from :
    (l : RaftLog) (index i : ℕ)
    → IsContiguous l
    → l.snapshot_index < index
    → entry_at (truncate_from l index) i ≡ (if ltb i index then entry_at l i else none)
unfolding truncate_from
entry_at-truncate_from l index i c h =
    let n = index - add64 l.snapshot_index 1 in
    let k = i - l.snapshot_index - 1 in
    ground (
      arith,
      add64-eq_of_lt l.snapshot_index 1,
      c.fits,
      entry_at_lem l i,
      entry_at_lem (truncate_from l index) i,
      get_elem?-take n l.entries k,
      take-none n l.entries k,
    )

pub entry_at-fold_prefix :
    (l : RaftLog) (up_to i : ℕ)
    → IsContiguous l
    → l.snapshot_index < up_to
    → up_to ≤ last_index l
    → up_to < i
    → entry_at (fold_prefix l up_to) i ≡ entry_at l i
unfolding fold_prefix
entry_at-fold_prefix l up_to i c h k j =
    let n = min (up_to - l.snapshot_index) (length l.entries) in
    let e : n + (i - up_to - 1) ≡ i - l.snapshot_index - 1 = omega (arith, last_index_eq l c) in
    entry_at-past (fold_prefix l up_to) i j
    ∙ get_elem?-drop n l.entries (i - up_to - 1)
    ∙ ap (get_elem? l.entries) e
    ∙ sym (entry_at-past l i (omega arith))

term_at-fold_prefix :
    (l : RaftLog) (up_to i : ℕ)
    → IsContiguous l
    → l.snapshot_index < up_to
    → up_to ≤ last_index l
    → up_to ≤ i
    → term_at (fold_prefix l up_to) i ≡ term_at l i
unfolding term_at fold_prefix
term_at-fold_prefix l up_to i c h k j = ground (arith, entry_at-fold_prefix l up_to i c h k)

-- Compaction keeps every entry past the new snapshot.
pub entry_at-compact :
    (l : RaftLog) (up_to i : ℕ)
    → IsContiguous l
    → up_to < i
    → entry_at (compact l up_to) i ≡ entry_at l i
entry_at-compact l up_to i c j =
    compact_cases (λ m. entry_at m i ≡ entry_at l i) l up_to refl
      λ h k. entry_at-fold_prefix l up_to i c h k j

-- It also keeps the term that the log shows at its new boundary and past it.
pub term_at-compact :
    (l : RaftLog) (up_to i : ℕ)
    → IsContiguous l
    → up_to ≤ i
    → term_at (compact l up_to) i ≡ term_at l i
unfolding term_at
term_at-compact l up_to i c j =
    compact_cases (λ m. term_at m i ≡ term_at l i) l up_to refl
      λ h k. term_at-fold_prefix l up_to i c h k j

get-index :
    (s k : ℕ) (es : List Entry) (e : Entry)
    → Consecutive s es
    → get_elem? es k ≡ some e
    → e.index ≡ s + suc k
get-index s k [] e c p = cc
get-index s zero (x ∷ es) e c p = ground arith
get-index s (suc k) (x ∷ es) e c p = omega (arith, get-index (suc s) k es e c.1 p)

-- Past the snapshot and up to the last index the log holds an entry, which carries that index.
pub entry_at-index :
    (l : RaftLog) (i : ℕ)
    → IsContiguous l
    → l.snapshot_index < i
    → i ≤ last_index l
    → (e : Entry) × (entry_at l i ≡ some e) × (e.index ≡ i)
entry_at-index l i c h k =
    let (e, p) =
      get_elem?-in l.entries (i - l.snapshot_index - 1) (omega (arith, last_index_eq l c)) in
    (
      e,
      entry_at-past l i h ∙ p,
      omega (arith, get-index l.snapshot_index (i - l.snapshot_index - 1) l.entries e c.run p),
    )

-- The term at an index depends on the snapshot and on the entry there.
pub term_at-congr :
    (l m : RaftLog) (i : ℕ)
    → l.snapshot_index ≡ m.snapshot_index
    → l.snapshot_term ≡ m.snapshot_term
    → entry_at l i ≡ entry_at m i
    → term_at l i ≡ term_at m i
unfolding term_at
term_at-congr l m i p q e = ground arith

pub term_at-some :
    (l : RaftLog) (i : ℕ) (e : Entry)
    → l.snapshot_index < i
    → entry_at l i ≡ some e
    → term_at l i ≡ e.term
unfolding term_at
term_at-some l i e h p = ground arith

-- Where the log has no entry it shows the term 0.
pub term_at-missing :
    (l : RaftLog) (i : ℕ) → i ≢ l.snapshot_index → entry_at l i ≡ none → term_at l i ≡ 0
unfolding term_at
term_at-missing l i h p = ground arith

pub entry_at-past_last :
    (l : RaftLog) (i : ℕ) → IsContiguous l → last_index l < i → entry_at l i ≡ none
entry_at-past_last l i c h =
    entry_at-past l i (omega (arith, last_index_eq l c))
    ∙ get_elem?-out l.entries _ (omega (arith, last_index_eq l c))

pub entry_at-compacted : (l : RaftLog) (i : ℕ) → i ≤ l.snapshot_index → entry_at l i ≡ none
entry_at-compacted l i h = ground (arith, entry_at_lem l i)
