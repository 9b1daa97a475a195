-- ===== src/Cp/Messages.antt =====
-- The wire format of CpMsg in crates/raft/src/cp.rs. A reader's cursor is the rest of the bytes.
use bonsaigrid.Base.{
  ℕ, zero, suc, ◌<◌, ◌≡◌, refl, sym, ap, ◌∙◌, Bool, true, false, not, Option, none, some, List, [],
  ◌∷◌, ◌++◌, append_assoc, append-nil, length, ◌==◌, if◌then◌else◌, arith, u64_mod, u64_max, All,
}
use bonsaigrid.Base.Bytes.{
  Bytes, le_bytes, from_le, from_le-le_bytes, length-le_bytes, split_at, split_at-append,
}
use bonsaigrid.Base.Int.{Fits, i64_half}
use bonsaigrid.Raft.Log.{Entry}
use bonsaigrid.Raft.Node.{
  RaftMsg, request_vote, request_vote_resp, append_entries, append_entries_resp,
}
use bonsaigrid.Cp.Wire.{
  CpReply, long, bool, blob, nil, ◌>>=◌, i64_bytes, i64_arg, i64_arg-i64_bytes,
}
use bonsaigrid.Cp.Group.{CpMsg, raft, forward, reply}
pub mod RoundTrip

unfoldable pub put_u64 : ℕ → Bytes
put_u64 v = le_bytes 8 v

unfoldable pub get_u64 : Bytes → Option (ℕ × Bytes)
get_u64 bs = do r ← split_at 8 bs; some (from_le r.0, r.1)

unfoldable pub put_blob : Bytes → Bytes
put_blob b = put_u64 (length b) ++ b

unfoldable pub get_blob : Bytes → Option (Bytes × Bytes)
get_blob bs = do n ← get_u64 bs; split_at n.0 n.1

unfoldable pub put_entry : Entry → Bytes
put_entry e = put_u64 e.term ++ (put_u64 e.index ++ put_blob e.command)

unfoldable pub get_entry : Bytes → Option (Entry × Bytes)
get_entry bs = do
  t ← get_u64 bs
  i ← get_u64 t.1
  c ← get_blob i.1
  some (record { term = t.0; index = i.0; command = c.0 }, c.1)

unfoldable pub put_entries : List Entry → Bytes
put_entries [] = []
put_entries (e ∷ es) = put_entry e ++ put_entries es

unfoldable pub get_entries : ℕ → Bytes → Option (List Entry × Bytes)
get_entries zero bs = some ([], bs)
get_entries (suc n) bs = do e ← get_entry bs; es ← get_entries n e.1; some (e.0 ∷ es.0, es.1)

-- `v as u8` and `byte != 0` of a bool.
abbrev pub bool_byte : Bool → ℕ
bool_byte true = 1
bool_byte false = 0

unfoldable pub get_bool : Bytes → Option (Bool × Bytes)
get_bool [] = none
get_bool (b ∷ bs) = some (not (b == 0), bs)

-- The length 2^64 - 1 stands for the null value.
unfoldable pub put_reply : CpReply → Bytes
put_reply (long v) = 0 ∷ i64_bytes v
put_reply (bool v) = 1 ∷ bool_byte v ∷ []
put_reply (blob (some b)) = 2 ∷ put_blob b
put_reply (blob none) = 2 ∷ put_u64 u64_max
put_reply nil = 3 ∷ []

unfoldable pub get_data : Bytes → Option CpReply
get_data bs = do
  n ← get_u64 bs
  (if n.0 == u64_max then some (blob none) else get_blob bs >>= (λ b. some (blob (some b.0))))

-- The reply is the last field of its message, so the rest of the bytes is not returned.
unfoldable pub get_reply : Bytes → Option CpReply
get_reply [] = none
get_reply (tag ∷ rest) =
    if tag == 0
    then i64_arg rest >>= (λ v. some (long v))
    else if tag == 1
    then get_bool rest >>= (λ v. some (bool v.0))
    else if tag == 2
    then get_data rest
    else some nil

unfoldable pub encode_raft : RaftMsg → Bytes
encode_raft (request_vote term cand last_log_index last_log_term) =
    0 ∷ (put_u64 term ++ (put_u64 cand ++ (put_u64 last_log_index ++ put_u64 last_log_term)))
encode_raft (request_vote_resp term granted) = 1 ∷ (put_u64 term ++ bool_byte granted ∷ [])
encode_raft (append_entries term lead prev_log_index prev_log_term es commit) =
    2
    ∷ (put_u64 term
        ++ (put_u64 lead
            ++ (put_u64 prev_log_index
                ++ (put_u64 prev_log_term
                    ++ (put_u64 (length es) ++ (put_entries es ++ put_u64 commit))))))
encode_raft (append_entries_resp term success match_index) =
    3 ∷ (put_u64 term ++ bool_byte success ∷ put_u64 match_index)

get_vote : Bytes → Option RaftMsg
get_vote bs = do
  t ← get_u64 bs
  c ← get_u64 t.1
  i ← get_u64 c.1
  l ← get_u64 i.1
  some (request_vote t.0 c.0 i.0 l.0)

get_vote_resp : Bytes → Option RaftMsg
get_vote_resp bs = do t ← get_u64 bs; g ← get_bool t.1; some (request_vote_resp t.0 g.0)

get_append : Bytes → Option RaftMsg
get_append bs = do
  t ← get_u64 bs
  l ← get_u64 t.1
  i ← get_u64 l.1
  p ← get_u64 i.1
  n ← get_u64 p.1
  es ← get_entries n.0 n.1
  c ← get_u64 es.1
  some (append_entries t.0 l.0 i.0 p.0 es.0 c.0)

get_append_resp : Bytes → Option RaftMsg
get_append_resp bs = do
  t ← get_u64 bs
  s ← get_bool t.1
  m ← get_u64 s.1
  some (append_entries_resp t.0 s.0 m.0)

unfoldable pub decode_raft : Bytes → Option RaftMsg
unfolding get_vote get_vote_resp get_append get_append_resp
decode_raft [] = none
decode_raft (tag ∷ rest) =
    if tag == 0
    then get_vote rest
    else if tag == 1
    then get_vote_resp rest
    else if tag == 2
    then get_append rest
    else if tag == 3
    then get_append_resp rest
    else none

unfoldable pub encode_msg : CpMsg → Bytes
encode_msg (raft m) = 0 ∷ encode_raft m
encode_msg (forward client origin command) =
    1 ∷ (put_u64 client ++ (put_u64 origin ++ put_blob command))
encode_msg (reply client r) = 2 ∷ (put_u64 client ++ put_reply r)

get_forward : Bytes → Option CpMsg
get_forward bs = do c ← get_u64 bs; o ← get_u64 c.1; b ← get_blob o.1; some (forward c.0 o.0 b.0)

get_reply_msg : Bytes → Option CpMsg
get_reply_msg bs = do c ← get_u64 bs; r ← get_reply c.1; some (reply c.0 r)

unfoldable pub decode_msg : Bytes → Option CpMsg
unfolding get_forward get_reply_msg
decode_msg [] = none
decode_msg (tag ∷ rest) =
    if tag == 0
    then decode_raft rest >>= (λ m. some (raft m))
    else if tag == 1
    then get_forward rest
    else if tag == 2
    then get_reply_msg rest
    else none
