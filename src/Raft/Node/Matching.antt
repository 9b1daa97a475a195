-- ===== src/Raft/Node/Matching.antt =====
-- What the loop over the entries of an AppendEntries in crates/raft/src/lib.rs does to the log.
use bonsaigrid.Base.{
  ℕ, suc, ◌+◌, ◌≤◌, ◌<◌, ◌≡◌, refl, ap, subst, ◌∙◌, ◌⊎◌, inl, inr, some, ◌&&◌, List, [], ◌∷◌,
  length, leb, ◌==◌, arith, All, Bool-cases, u64_mod, leb→le,
}
use bonsaigrid.Raft.Log.{Entry, RaftLog, last_index, entry_at, term_at, append, truncate_from}
use bonsaigrid.Raft.Log.Contiguous.{
  Consecutive, IsContiguous, last_index_eq, append-IsContiguous, truncate_from-IsContiguous,
  last_index-truncate_from, last_index-append,
}
use bonsaigrid.Raft.Log.Entries.{entry_at-append_self, entry_at-append_old, entry_at-truncate_from}
use bonsaigrid.Raft.Node.Replication.{store_entry, store_entries}

module _ {ℓ} (P : RaftLog → Type ℓ) (log : RaftLog) (e : Entry) where
  store_entry_cases :
      (e.index ≤ log.snapshot_index → P log)
      → (term_at log e.index ≡ e.term → e.index ≤ last_index log → P log)
      → (log.snapshot_index < e.index → P (append (truncate_from log e.index) e))
      → P (store_entry log e)
  unfolding store_entry
  store_entry_cases skip have write = elim (Bool-cases (leb e.index log.snapshot_index)) [
    | inl p ↦ rw p (skip (leb→le _ _ p))
    | inr p ↦ elim (Bool-cases ((term_at log e.index == e.term) && leb e.index (last_index log))) [
      | inl q ↦ rw (p, q) (have (ground arith) (ground arith))
      | inr q ↦ rw (p, q) (write (ground arith))
    ]
  ]

module _ (log : RaftLog) (s : ℕ) (e : Entry) (c : IsContiguous log) (at : e.index ≡ suc s)
    (reach : s ≤ last_index log) (fits : s + 2 < u64_mod) where
  cut_last : log.snapshot_index < e.index → last_index (truncate_from log e.index) ≡ s
  cut_last h = omega (arith, last_index-truncate_from log e.index c h)

  cut-IsContiguous : IsContiguous (truncate_from log e.index)
  cut-IsContiguous = truncate_from-IsContiguous log e.index c

  store_entry-IsContiguous : IsContiguous (store_entry log e)
  store_entry-IsContiguous =
      store_entry_cases IsContiguous log e (λ _. c) (λ _ _. c)
        λ h.
          append-IsContiguous (truncate_from log e.index) e cut-IsContiguous
            (omega (arith, cut_last h)) (omega arith)

  last_index-store_entry : suc s ≤ last_index (store_entry log e)
  last_index-store_entry =
      store_entry_cases (λ l. suc s ≤ last_index l) log e (λ h. omega (arith, last_index_eq log c))
        (λ _ h. omega arith) λ h. omega (arith, last_index-append (truncate_from log e.index) e)

  snapshot-store_entry :
      ((store_entry log e).snapshot_index ≡ log.snapshot_index)
      × ((store_entry log e).snapshot_term ≡ log.snapshot_term)
  snapshot-store_entry =
      store_entry_cases
        (λ l. (l.snapshot_index ≡ log.snapshot_index) × (l.snapshot_term ≡ log.snapshot_term)) log e
        (λ _. (refl, refl)) (λ _ _. (refl, refl)) (unfold append truncate_from in λ _. (refl, refl))

  entry_at-store_entry_old : (i : ℕ) → i ≤ s → entry_at (store_entry log e) i ≡ entry_at log i
  entry_at-store_entry_old i b =
      store_entry_cases (λ l. entry_at l i ≡ entry_at log i) log e (λ _. refl) (λ _ _. refl)
        λ h.
          entry_at-append_old (truncate_from log e.index) e i cut-IsContiguous
            (omega (arith, cut_last h))
          ∙ entry_at-truncate_from log e.index i c h
          ∙ ground arith

  -- Either the log stays as it is, and has an entry of this term at the index, or it ends with the
  -- entry of the message.
  store_entry-Written :
      ((store_entry log e ≡ log)
        × (log.snapshot_index < e.index
            → (term_at log e.index ≡ e.term) × (e.index ≤ last_index log)))
      ⊎ ((last_index (store_entry log e) ≡ suc s) × (entry_at (store_entry log e) e.index ≡ some e))
  store_entry-Written =
      store_entry_cases
        (λ l.
          ((l ≡ log)
            × (log.snapshot_index < e.index
                → (term_at log e.index ≡ e.term) × (e.index ≤ last_index log)))
          ⊎ ((last_index l ≡ suc s) × (entry_at l e.index ≡ some e)))
        log e (λ h. inl (refl, λ k. absurd (omega arith))) (λ h k. inl (refl, λ _. (h, k)))
        λ h. inr (
          omega (arith, last_index-append (truncate_from log e.index) e, cut_last h),
          entry_at-append_self (truncate_from log e.index) e cut-IsContiguous
              (omega (arith, cut_last h)),
        )

-- The log holds an entry of the message as it came, or it had an entry of the same term at that
-- index before and still has that one.
abbrev pub Holds : RaftLog → RaftLog → Entry → Type 0
Holds log out e =
    (entry_at out e.index ≡ some e)
    ⊎ ((term_at log e.index ≡ e.term)
        × (e.index ≤ last_index log)
        × (entry_at out e.index ≡ entry_at log e.index))

-- So for each entry of the message that the snapshot does not cover.
abbrev pub Shows : RaftLog → RaftLog → List Entry → Type 0
Shows log out = All (λ e. out.snapshot_index < e.index → Holds log out e)

pub record Stored (log : RaftLog) (s : ℕ) (es : List Entry) (out : RaftLog) : Type 0 where
  pub contiguous : IsContiguous out
  pub reaches : s + length es ≤ last_index out
  pub ends : (out ≡ log) ⊎ (last_index out ≡ s + length es)
  pub same_snapshot :
      (out.snapshot_index ≡ log.snapshot_index) × (out.snapshot_term ≡ log.snapshot_term)
  pub keeps : (i : ℕ) → i ≤ s → entry_at out i ≡ entry_at log i
  pub shows : Shows log out es

-- Where a log ends before the entries that follow, those are in it as they came.
Shows-cut :
    (log cut out : RaftLog) (s : ℕ) (es : List Entry)
    → Consecutive s es
    → last_index cut ≤ s
    → Shows cut out es
    → Shows log out es
Shows-cut log cut out s [] c b h = tt
Shows-cut log cut out s (e ∷ es) c b h = (
  λ k. elim (h.0 k) [ inl p ↦ inl p | inr (_, q, _) ↦ absurd (omega (arith, c.0)) ],
  Shows-cut log cut out (suc s) es c.1 (omega arith) h.1,
)

ends_with :
    (log one out : RaftLog) (s n : ℕ)
    → (one ≡ log) ⊎ (last_index one ≡ suc s)
    → (out ≡ one) ⊎ (last_index out ≡ suc s + n)
    → suc s + n ≤ last_index out
    → (out ≡ log) ⊎ (last_index out ≡ s + suc n)
ends_with log one out s n a (inr q) h = inr (omega arith)
ends_with log one out s n (inl p) (inl q) h = inl (q ∙ p)
ends_with log one out s n (inr p) (inl q) h = inr (omega (arith, ap last_index q))

-- Consecutive entries that connect to a contiguous log leave it contiguous. Each of them is then in
-- the log, or an entry of its term that was there before; the log is unchanged up to the entry before
-- them, and either unchanged as a whole or ends with the last of them.
pub store_entries-Stored :
    (log : RaftLog) (s idx : ℕ) (es : List Entry)
    → IsContiguous log
    → Consecutive s es
    → s ≤ last_index log
    → s + length es + 1 < u64_mod
    → Stored log s es (store_entries log idx es).0
unfolding store_entries
store_entries-Stored log s idx [] c k r b = record {
  contiguous = c;
  reaches = omega arith;
  ends = inl refl;
  same_snapshot = (refl, refl);
  keeps = λ i _. refl;
  shows = tt;
}
store_entries-Stored log s idx (e ∷ es) c k r b =
    let fits : s + 2 < u64_mod = omega arith in
    let one = store_entry log e in
    let rest =
      store_entries-Stored one (suc s) e.index es
        (store_entry-IsContiguous log s e c k.0 r (omega arith)) k.1
        (last_index-store_entry log s e c k.0 r (omega arith)) (omega arith) in
    let out = (store_entries one e.index es).0 in
    let snap = snapshot-store_entry log s e c k.0 r fits in
    let here : entry_at out e.index ≡ entry_at one e.index =
      rest.keeps e.index (omega (arith, k.0)) in
    record {
      contiguous = rest.contiguous;
      reaches = omega (arith, rest.reaches);
      ends =
          ends_with log one out s (length es)
            (elim (store_entry-Written log s e c k.0 r fits) [ inl w ↦ inl w.0 | inr w ↦ inr w.0 ])
            rest.ends (omega (arith, rest.reaches));
      same_snapshot = (rest.same_snapshot.0 ∙ snap.0, rest.same_snapshot.1 ∙ snap.1);
      keeps = λ i h. rest.keeps i (omega arith) ∙ entry_at-store_entry_old log s e c k.0 r fits i h;
      shows = elim (store_entry-Written log s e c k.0 r fits) [
        | inl (same, has) ↦ (
          λ h.
              let t = has (omega (arith, rest.same_snapshot.0, snap.0)) in
              inr (t.0, t.1, here ∙ ap (λ l. entry_at l e.index) same),
          subst (λ l. Shows l out es) same rest.shows,
        )
        | inr (last, has) ↦ (
          λ _. inl (here ∙ has),
          Shows-cut log one out (suc s) es k.1 (omega (arith, last)) rest.shows,
        )
      ];
    }
