-- ===== src/Raft/Log.antt =====
-- crates/raft/src/log.rs: the in-memory part of the log. `durable` says whether a file backing is
-- attached; what it writes is the subject of Raft/Durable.
pub mod Contiguous
pub mod Entries
use bonsaigrid.Base.{
  ℕ, ◌+◌, ◌-◌, ◌≡◌, Option, none, some, Bool, true, List, [], ◌∷◌, ◌++◌, ◌||◌, length, false,
  get_elem?, take, drop, ltb, leb, ◌==◌, if◌then◌else◌, min, add64, last_or, map,
}

-- A command is a string of bytes.
pub record Entry : Type 0 where
  pub term : ℕ
  pub index : ℕ
  pub command : List ℕ

pub record RaftLog : Type 0 where
  pub entries : List Entry
  pub term : ℕ
  pub vote : Option ℕ
  pub durable : Bool
  pub snapshot_index : ℕ
  pub snapshot_term : ℕ

-- `entries.last().map(f).unwrap_or(d)`.
abbrev last_field : (Entry → ℕ) → List Entry → ℕ → ℕ
last_field f es d = last_or (map f es) d

unfoldable pub pos : RaftLog → ℕ → Option ℕ
pos l index =
    if leb index l.snapshot_index
    then none
    else let off = index - l.snapshot_index - 1 in
      if ltb off (length l.entries) then some off else none

unfoldable pub last_index : RaftLog → ℕ
last_index l = last_field (λ e. e.index) l.entries l.snapshot_index

unfoldable pub last_term : RaftLog → ℕ
last_term l = last_field (λ e. e.term) l.entries l.snapshot_term

-- `self.pos(index).map(|p| self.entries[p])`.
unfoldable pub entry_at : RaftLog → ℕ → Option Entry
unfolding pos
entry_at l index = elim (pos l index) [ none ↦ none | some p ↦ get_elem? l.entries p ]

abbrev term_or_zero : Option Entry → ℕ
term_or_zero none = 0
term_or_zero (some e) = e.term

unfoldable pub term_at : RaftLog → ℕ → ℕ
unfolding entry_at
term_at l index =
    if index == 0
    then 0
    else if index == l.snapshot_index
    then l.snapshot_term
    else term_or_zero (entry_at l index)

unfoldable pub command_at : RaftLog → ℕ → Option (List ℕ)
unfolding entry_at
command_at l index = elim (entry_at l index) [ none ↦ none | some e ↦ some e.command ]

-- `saturating_sub` is the truncated difference.
unfoldable pub entries_from : RaftLog → ℕ → List Entry
entries_from l from = drop (from - add64 l.snapshot_index 1) l.entries

-- What `compact` does once its early return is passed.
unfoldable pub fold_prefix : RaftLog → ℕ → RaftLog
unfolding term_at
fold_prefix l up_to = record l {
  entries = drop (min (up_to - l.snapshot_index) (length l.entries)) l.entries;
  snapshot_index = up_to;
  snapshot_term = term_at l up_to;
}

unfoldable pub compact : RaftLog → ℕ → RaftLog
compact l up_to =
    if l.durable || leb up_to l.snapshot_index || ltb (last_index l) up_to
    then l
    else fold_prefix l up_to

-- The `debug_assert` on the index is not part of a release build.
unfoldable pub append : RaftLog → Entry → RaftLog
append l e = record l { entries = l.entries ++ e ∷ [] }

unfoldable pub truncate_from : RaftLog → ℕ → RaftLog
truncate_from l index = record l { entries = take (index - add64 l.snapshot_index 1) l.entries }

unfoldable pub persist_term_vote : RaftLog → ℕ → Option ℕ → RaftLog
persist_term_vote l term vote = record l { term = term; vote = vote }

-- `RaftLog::default()`.
abbrev pub empty : RaftLog
empty = record {
  entries = [];
  term = 0;
  vote = none;
  durable = false;
  snapshot_index = 0;
  snapshot_term = 0;
}
