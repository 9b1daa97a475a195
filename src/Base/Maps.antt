-- ===== src/Base/Maps.antt =====
-- `HashMap` as a function from keys, for the maps that the source never iterates over.
use bonsaigrid.Base.{
  ℕ, ◌≡◌, ◌↔◌, ◌⊎◌, Bool, true, false, ◌&&◌, Option, none, some, List, [], ◌∷◌, ◌==◌, ==_iff,
  if◌then◌else◌, arith,
}
use bonsaigrid.Base.Int.{ℤ, eq_ℤ, eq_ℤ_iff}

pub record Eq {ℓ} (A : Type ℓ) : Type ℓ where
  pub beq : A → A → Bool
  pub beq_iff : (a b : A) → (beq a b ≡ true) ↔ (a ≡ b)

-- `==` on byte strings.
unfoldable pub bytes_beq : List ℕ → List ℕ → Bool
bytes_beq [] [] = true
bytes_beq [] (y ∷ ys) = false
bytes_beq (x ∷ xs) [] = false
bytes_beq (x ∷ xs) (y ∷ ys) = (x == y) && bytes_beq xs ys

pub bytes_beq_iff : (xs ys : List ℕ) → (bytes_beq xs ys ≡ true) ↔ (xs ≡ ys)
unfolding bytes_beq
bytes_beq_iff [] [] = ground arith
bytes_beq_iff [] (y ∷ ys) = ground arith
bytes_beq_iff (x ∷ xs) [] = ground arith
bytes_beq_iff (x ∷ xs) (y ∷ ys) = ground (arith, bytes_beq_iff xs ys)

instance abbrev pub nat_eq : Eq ℕ
nat_eq = record { beq = ◌==◌; beq_iff = ==_iff }

instance abbrev pub int_eq : Eq ℤ
int_eq = record { beq = eq_ℤ; beq_iff = eq_ℤ_iff }

instance abbrev pub bytes_eq : Eq (List ℕ)
bytes_eq = record { beq = bytes_beq; beq_iff = bytes_beq_iff }

abbrev pub HashMap : Type 0 → Type 0 → Type 0
HashMap K V = K → Option V

module _ {K V : Type 0} ⦃e : Eq K⦄ where
  abbrev pub insert : K → V → HashMap K V → HashMap K V
  insert k v m j = if e.beq k j then some v else m j

  abbrev pub remove : K → HashMap K V → HashMap K V
  remove k m j = if e.beq k j then none else m j

-- `m.retain(|_, v| keep(v))`.
abbrev pub retain_value : {V : Type 0} → (V → Bool) → Option V → Option V
retain_value keep none = none
retain_value keep (some v) = if keep v then some v else none

abbrev pub retain : {K V : Type 0} → (V → Bool) → HashMap K V → HashMap K V
retain keep m j = retain_value keep (m j)

abbrev pub no_entries : {K V : Type 0} → HashMap K V
no_entries j = none

-- Where an entry of the changed map comes from.
pub insert-cases :
    {K V : Type 0} ⦃e : Eq K⦄ (k j : K) (v w : V) (m : HashMap K V)
    → insert k v m j ≡ some w
    → ((e.beq k j ≡ true) × (v ≡ w)) ⊎ ((e.beq k j ≡ false) × (m j ≡ some w))
insert-cases ⦃e⦄ k j v w m h = ground arith

pub remove-cases :
    {K V : Type 0} ⦃e : Eq K⦄ (k j : K) (w : V) (m : HashMap K V)
    → remove k m j ≡ some w
    → (e.beq k j ≡ false) × (m j ≡ some w)
remove-cases ⦃e⦄ k j w m h = ground arith

pub retain-cases :
    {K V : Type 0} (keep : V → Bool) (j : K) (w : V) (m : HashMap K V)
    → retain keep m j ≡ some w
    → (keep w ≡ true) × (m j ≡ some w)
retain-cases {V} keep j w m h = from_value (m j) h
  where
    from_value : (o : Option V) → retain_value keep o ≡ some w → (keep w ≡ true) × (o ≡ some w)
    from_value none p = cc
    from_value (some v) p = ground arith
