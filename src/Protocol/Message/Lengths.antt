-- ===== src/Protocol/Message/Lengths.antt =====
-- The two readers of crates/protocol/src/frame.rs agree.
use bonsaigrid.Base.{
  ℕ, zero, suc, ◌+◌, ◌-◌, ◌≡◌, refl, sym, ap, ◌∙◌, Bool-cases, Option-cases, inl, inr, none, some,
  List, [], ◌∷◌, take, drop, ltb, add64, if◌then◌else◌, arith,
}
use bonsaigrid.Base.Bytes.{Bytes}
use bonsaigrid.Protocol.Message.{
  Frame, is_final, read_prefix, Outcome, incomplete, complete, panics, spinning, message_len,
  push_frame, read_message,
}

push_frame-complete :
    (f : Frame) (o : Outcome (List Frame × ℕ)) (fs : List Frame) (n : ℕ)
    → push_frame f o ≡ complete (fs, n)
    → (gs : List Frame) × (o ≡ complete (gs, n))
unfolding push_frame
push_frame-complete f incomplete fs n h = absurd (ground arith)
push_frame-complete f (complete r) fs n h =
    let e : r.1 ≡ n = ap position h in (r.0, ap (λ k. complete (r.0, k)) e)
  where
    position : Outcome (List Frame × ℕ) → ℕ
    position incomplete = 0
    position (complete q) = q.1
    position panics = 0
    position spinning = 0
push_frame-complete f panics fs n h = absurd (ground arith)
push_frame-complete f spinning fs n h = absurd (ground arith)

-- The bytes behind a prefix.
abbrev body_at : Bytes → ℕ → ℕ × ℕ → Frame
body_at bs off p = record {
  flags = p.1;
  content = take (add64 off p.0 - (off + 6)) (drop (off + 6) bs);
}

read_message-some :
    (fuel : ℕ) (bs : Bytes) (off : ℕ) (p : ℕ × ℕ)
    → read_prefix bs off ≡ some p
    → read_message (suc fuel) bs off ≡ (
        if ltb (add64 off p.0) (off + 6)
        then panics
        else if is_final p.1
        then complete (body_at bs off p ∷ [], add64 off p.0)
        else push_frame (body_at bs off p) (read_message fuel bs (add64 off p.0)))
unfolding read_message
read_message-some fuel bs off p m = rw (m, read_message) refl

message_len-some :
    (fuel : ℕ) (bs : Bytes) (off : ℕ) (p : ℕ × ℕ)
    → read_prefix bs off ≡ some p
    → message_len (suc fuel) bs off
      ≡ (if is_final p.1 then complete (add64 off p.0) else message_len fuel bs (add64 off p.0))
unfolding message_len
message_len-some fuel bs off p m = rw (m, message_len) refl

read_message-none :
    (fuel : ℕ) (bs : Bytes) (off : ℕ)
    → read_prefix bs off ≡ none
    → read_message (suc fuel) bs off ≡ incomplete
unfolding read_message
read_message-none fuel bs off m = rw (m, read_message) refl

-- Where a message is read, `message_len` gives the position of its end, on any bytes and from any
-- position.
pub message_len-read_message :
    (fuel : ℕ) (bs : Bytes) (off : ℕ) (fs : List Frame) (n : ℕ)
    → read_message fuel bs off ≡ complete (fs, n)
    → message_len fuel bs off ≡ complete n
message_len-read_message zero bs off fs n h = absurd (unfold read_message in ground arith)
message_len-read_message (suc fuel) bs off fs n h = elim (Option-cases (read_prefix bs off)) [
  | inl m ↦ absurd (ground (arith, read_message-none fuel bs off m))
  | inr (p, m) ↦
      let r = sym (read_message-some fuel bs off p m) ∙ h in
      let l = message_len-some fuel bs off p m in
      elim (Bool-cases (ltb (add64 off p.0) (off + 6))) [
        | inl back ↦ absurd (ground (arith, r, back))
        | inr on ↦ elim (Bool-cases (is_final p.1)) [
          | inl fin ↦ ground (arith, r, l, on, fin)
          | inr more ↦
              let pushed : push_frame (body_at bs off p) (read_message fuel bs (add64 off p.0))
                  ≡ complete (fs, n) =
                ground (arith, r, on, more) in
              let (gs, behind) =
                push_frame-complete (body_at bs off p) (read_message fuel bs (add64 off p.0)) fs n
                  pushed in
              let later = message_len-read_message fuel bs (add64 off p.0) gs n behind in
              ground (arith, l, more, later)
        ]
      ]
]
