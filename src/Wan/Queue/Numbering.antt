-- ===== src/Wan/Queue/Numbering.antt =====
-- The sequence numbers of the records in crates/wan/src/queue.rs.
use bonsaigrid.Base.{
  ℕ, suc, ◌+◌, ◌-◌, ◌≤◌, ◌<◌, ◌≡◌, refl, sym, ap, ◌∙◌, List, [], ◌∷◌, ◌++◌, map, length, drop,
  drop-nil, ltb, add64, add64-eq_of_lt, u64_mod, Bool-cases, inl, inr, arith,
}
use bonsaigrid.Wan.Record.{WanRecord}
use bonsaigrid.Wan.Queue.{number_from, last_seq, above}

pub number_from-cons :
    (b : ℕ) (r : WanRecord) (rs : List WanRecord)
    → suc b < u64_mod
    → number_from b (r ∷ rs) ≡ (suc b, r) ∷ number_from (suc b) rs
unfolding number_from
number_from-cons b r rs h =
    let e : add64 b 1 ≡ suc b = omega (arith, add64-eq_of_lt b 1 (omega arith)) in
    ap (λ n. (n, r) ∷ number_from n rs) e

number_from-nil : (b : ℕ) → number_from b [] ≡ []
unfolding number_from
number_from-nil b = refl

pub last_seq-length :
    (b : ℕ) (rs : List WanRecord) → b + length rs < u64_mod → last_seq b rs ≡ b + length rs
unfolding last_seq
last_seq-length b [] h = omega arith
last_seq-length b (r ∷ rs) h =
    let e : add64 b 1 ≡ suc b = omega (arith, add64-eq_of_lt b 1 (omega arith)) in
    ap (λ n. last_seq n rs) e ∙ omega (arith, last_seq-length (suc b) rs (omega arith))

pub map-number_from : (b : ℕ) (rs : List WanRecord) → map (λ p. p.1) (number_from b rs) ≡ rs
unfolding number_from
map-number_from b [] = refl
map-number_from b (r ∷ rs) = ap (λ t. r ∷ t) (map-number_from (add64 b 1) rs)

pub number_from-append :
    (b : ℕ) (rs : List WanRecord) (r : WanRecord)
    → suc (b + length rs) < u64_mod
    → number_from b (rs ++ r ∷ []) ≡ number_from b rs ++ (suc (b + length rs), r) ∷ []
number_from-append b [] r h =
    number_from-cons b r [] (omega arith)
    ∙ (unfold number_from in ap (λ n. (suc n, r) ∷ []) (omega arith))
number_from-append b (x ∷ rs) r h =
    let e : suc (suc b + length rs) ≡ suc (b + length (x ∷ rs)) = omega arith in
    number_from-cons b x (rs ++ r ∷ []) (omega arith)
    ∙ ap (λ t. (suc b, x) ∷ t) (number_from-append (suc b) rs r (omega arith))
    ∙ ap (λ n. (suc b, x) ∷ (number_from (suc b) rs ++ (n, r) ∷ [])) e
    ∙ ap (λ t. t ++ (suc (b + length (x ∷ rs)), r) ∷ [])
        (sym (number_from-cons b x rs (omega arith)))

above_all :
    (c b : ℕ) (rs : List WanRecord)
    → c ≤ b
    → b + length rs < u64_mod
    → above c (number_from b rs) ≡ number_from b rs
unfolding above
above_all c b [] h k = unfold number_from in refl
above_all c b (r ∷ rs) h k =
    let later = above_all c (suc b) rs (omega arith) (omega arith) in
    ap (above c) (number_from-cons b r rs (omega arith))
    ∙ ground (arith, later)
    ∙ sym (number_from-cons b r rs (omega arith))

-- The records above a number are those behind it.
pub above-number_from :
    (c b : ℕ) (rs : List WanRecord)
    → b ≤ c
    → b + length rs < u64_mod
    → above c (number_from b rs) ≡ number_from c (drop (c - b) rs)
unfolding above
above-number_from c b [] h k =
    ap (above c) (number_from-nil b)
    ∙ sym (number_from-nil c)
    ∙ ap (number_from c) (sym (drop-nil (c - b)))
above-number_from c b (r ∷ rs) h k = elim (Bool-cases (ltb b c)) [
  | inl more ↦
      let later = above-number_from c (suc b) rs (ground (arith, more)) (omega arith) in
      let shift : c - b ≡ suc (c - suc b) = ground (arith, more) in
      ap (above c) (number_from-cons b r rs (omega arith))
      ∙ ground (arith, more)
      ∙ later
      ∙ ap (λ n. number_from c (drop n (r ∷ rs))) (sym shift)
  | inr same ↦
      let e : b ≡ c = ground (arith, same) in
      let none_dropped : c - b ≡ 0 = omega arith in
      above_all c b (r ∷ rs) (omega arith) k
      ∙ ap (λ n. number_from n (r ∷ rs)) e
      ∙ ap (λ n. number_from c (drop n (r ∷ rs))) (sym none_dropped)
]
