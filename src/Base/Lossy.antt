-- ===== src/Base/Lossy.antt =====
-- Rust's `String::from_utf8_lossy`: what is no UTF-8 becomes U+FFFD, once for each longest prefix of
-- a character that breaks off.
use bonsaigrid.Base.{
  ℕ, ◌≡◌, refl, sym, ap, ◌∙◌, true, false, Bool-cases, Option-cases, inl, inr, none, some, [], ◌∷◌,
  ◌++◌, append-nil, append_assoc, ◌==◌, if◌then◌else◌, arith,
}
use bonsaigrid.Base.Bytes.{Bytes, Due, first_byte, next_byte, valid_utf8, is_utf8}

-- U+FFFD.
abbrev replacement : Bytes
replacement = 0xEF ∷ 0xBF ∷ 0xBD ∷ []

-- What is put out, what is due next, and the bytes of the character that has begun.
pub record Scan : Type 0 where
  pub out : Bytes
  pub next : Due
  pub held : Bytes

unfoldable settle : Bytes → Due → Scan
settle held d =
    if d.count == 0
    then record { out = held; next = d; held = [] }
    else record { out = []; next = d; held = held }

abbrev start : Due
start = record { count = 0; lo = 0; hi = 0 }

unfoldable begin_char : ℕ → Scan
begin_char b = elim (first_byte b) [
  | none ↦ record { out = replacement; next = start; held = [] }
  | some d ↦ settle (b ∷ []) d
]

unfoldable restart : ℕ → Scan
unfolding begin_char
restart b = let s = begin_char b in record s { out = replacement ++ s.out }

unfoldable scan : Due → Bytes → ℕ → Scan
unfolding begin_char restart settle
scan d held b =
    if d.count == 0
    then begin_char b
    else elim (next_byte d b) [ none ↦ restart b | some d' ↦ settle (held ++ b ∷ []) d' ]

unfoldable lossy : Due → Bytes → Bytes → Bytes
unfolding scan
lossy d held [] = if d.count == 0 then [] else replacement
lossy d held (b ∷ bs) = let s = scan d held b in s.out ++ lossy s.next s.held bs

unfoldable pub from_utf8_lossy : Bytes → Bytes
unfolding lossy
from_utf8_lossy bs = lossy start [] bs

broken_off :
    from_utf8_lossy (0x6B ∷ 0xF0 ∷ 0x9F ∷ 0x41 ∷ 0xED ∷ 0xA0 ∷ [])
    ≡ 0x6B ∷ replacement ++ (0x41 ∷ replacement ++ replacement)
unfolding from_utf8_lossy first_byte next_byte
broken_off = refl

-- With nothing due, no byte of a character is held.
abbrev Held : Due → Bytes → Type 0
Held d held = d.count ≡ 0 → held ≡ []

settle_lem :
    (held : Bytes) (d : Due)
    → let s = settle held d in (s.next ≡ d) × (s.out ++ s.held ≡ held) × Held d s.held
unfolding settle
settle_lem held d = elim (Bool-cases (d.count == 0)) [
  | inl z ↦ rw z (refl, append-nil held, λ _. refl)
  | inr z ↦ rw z (refl, refl, λ e. absurd (ground (arith, z, e)))
]

begin_char-some : (b : ℕ) (d : Due) → first_byte b ≡ some d → begin_char b ≡ settle (b ∷ []) d
unfolding begin_char
begin_char-some b d e = rw (e, begin_char) refl

first-next_byte : (d : Due) (b : ℕ) → (d.count == 0) ≡ true → next_byte d b ≡ first_byte b
unfolding next_byte
first-next_byte d b z = rw z refl

scan-first : (d : Due) (held : Bytes) (b : ℕ) → (d.count == 0) ≡ true → scan d held b ≡ begin_char b
unfolding scan
scan-first d held b z = rw (z, scan) refl

scan-later :
    (d d' : Due) (held : Bytes) (b : ℕ)
    → (d.count == 0) ≡ false
    → next_byte d b ≡ some d'
    → scan d held b ≡ settle (held ++ b ∷ []) d'
unfolding scan
scan-later d d' held b z e = rw (z, e, scan) refl

scan-next_byte :
    (d d' : Due) (held : Bytes) (b : ℕ)
    → next_byte d b ≡ some d'
    → Held d held
    → scan d held b ≡ settle (held ++ b ∷ []) d'
scan-next_byte d d' held b e h = elim (Bool-cases (d.count == 0)) [
  | inl z ↦
      scan-first d held b z
      ∙ begin_char-some b d' (sym (first-next_byte d b z) ∙ e)
      ∙ ap (λ x. settle (x ++ b ∷ []) d') (sym (h (ground (arith, z))))
  | inr z ↦ scan-later d d' held b z e
]

lossy-valid_utf8 :
    (d : Due) (held bs : Bytes)
    → valid_utf8 d bs ≡ true
    → Held d held
    → lossy d held bs ≡ held ++ bs
unfolding lossy valid_utf8
lossy-valid_utf8 d held [] v h = rw (v, lossy) (sym (append-nil held ∙ h (ground (arith, v))))
lossy-valid_utf8 d held (b ∷ bs) v h = elim (Option-cases (next_byte d b)) [
  | inl e ↦ absurd (ground (arith, v, e))
  | inr (d', e) ↦
      let s = settle (held ++ b ∷ []) d' in
      let (due_is, whole, held_is) = settle_lem (held ++ b ∷ []) d' in
      let valid : valid_utf8 d' bs ≡ true = ground (arith, v, e) in
      let later : lossy s.next s.held bs ≡ s.held ++ bs =
        ap (λ x. lossy x s.held bs) due_is ∙ lossy-valid_utf8 d' s.held bs valid held_is in
      ap (λ (t : Scan). t.out ++ lossy t.next t.held bs) (scan-next_byte d d' held b e h)
      ∙ ap (λ x. s.out ++ x) later
      ∙ sym (append_assoc s.out s.held bs)
      ∙ ap (λ x. x ++ bs) whole
      ∙ append_assoc held (b ∷ []) bs
]

-- Valid UTF-8 stays as it is.
pub from_utf8_lossy-is_utf8 : (bs : Bytes) → is_utf8 bs ≡ true → from_utf8_lossy bs ≡ bs
unfolding from_utf8_lossy
from_utf8_lossy-is_utf8 bs v = lossy-valid_utf8 start [] bs v (λ _. refl)
