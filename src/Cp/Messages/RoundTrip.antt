-- ===== src/Cp/Messages/RoundTrip.antt =====
-- The messages of crates/raft/src/cp.rs come back from the wire as they were.
use bonsaigrid.Base.{
  ℕ, ◌<◌, ◌≡◌, refl, sym, ap, ◌∙◌, Bool, true, false, none, some, List, [], ◌∷◌, ◌++◌, append_assoc,
  append-nil, length, ◌==◌, arith, u64_mod, u64_max, All,
}
use bonsaigrid.Base.Bytes.{
  Bytes, le_bytes, from_le, from_le-le_bytes, length-le_bytes, split_at, split_at-append,
}
use bonsaigrid.Base.Int.{Fits, i64_half}
use bonsaigrid.Raft.Log.{Entry}
use bonsaigrid.Raft.Node.{
  RaftMsg, request_vote, request_vote_resp, append_entries, append_entries_resp,
}
use bonsaigrid.Cp.Wire.{
  CpReply, long, bool, blob, nil, ◌>>=◌, i64_bytes, i64_arg, i64_arg-i64_bytes,
}
use bonsaigrid.Cp.Group.{CpMsg, raft, forward, reply}
use bonsaigrid.Cp.Messages.{
  put_u64, get_u64, put_blob, get_blob, put_entry, get_entry, put_entries, get_entries, bool_byte,
  get_bool, put_reply, get_data, get_reply, encode_raft, get_vote, get_vote_resp, get_append,
  get_append_resp, decode_raft, encode_msg, get_forward, get_reply_msg, decode_msg,
}

get_u64-put_u64 :
    (v : ℕ) (rest : Bytes) → v < u64_mod → get_u64 (put_u64 v ++ rest) ≡ some (v, rest)
unfolding get_u64 put_u64
get_u64-put_u64 v rest h =
    ap (λ k. split_at k (le_bytes 8 v ++ rest) >>= (λ (r : Bytes × Bytes). some (from_le r.0, r.1)))
      (sym (length-le_bytes 8 v))
    ∙ ap (λ o. o >>= (λ (r : Bytes × Bytes). some (from_le r.0, r.1)))
        (split_at-append (le_bytes 8 v) rest)
    ∙ ap (λ n. some (n, rest)) (from_le-le_bytes 8 v h)

get_u64-last : (v : ℕ) → v < u64_mod → get_u64 (put_u64 v) ≡ some (v, [])
get_u64-last v h = ap get_u64 (sym (append-nil (put_u64 v))) ∙ get_u64-put_u64 v [] h

get_blob-put_blob :
    (b rest : Bytes) → length b < u64_mod → get_blob (put_blob b ++ rest) ≡ some (b, rest)
unfolding get_blob put_blob
get_blob-put_blob b rest h =
    rw (append_assoc (put_u64 (length b)) b rest, get_u64-put_u64 (length b) (b ++ rest) h)
      (split_at-append b rest)

get_blob-last : (b : Bytes) → length b < u64_mod → get_blob (put_blob b) ≡ some (b, [])
get_blob-last b h = ap get_blob (sym (append-nil (put_blob b))) ∙ get_blob-put_blob b [] h

-- The numbers and the length of an entry are u64.
pub record EntryFits (e : Entry) : Type 0 where
  pub term : e.term < u64_mod
  pub index : e.index < u64_mod
  pub size : length e.command < u64_mod

get_entry-put_entry :
    (e : Entry) (rest : Bytes) → EntryFits e → get_entry (put_entry e ++ rest) ≡ some (e, rest)
unfolding get_entry put_entry
get_entry-put_entry e rest f = rw (
  append_assoc (put_u64 e.term) (put_u64 e.index ++ put_blob e.command) rest,
  append_assoc (put_u64 e.index) (put_blob e.command) rest,
  get_u64-put_u64 e.term (put_u64 e.index ++ (put_blob e.command ++ rest)) f.term,
  get_u64-put_u64 e.index (put_blob e.command ++ rest) f.index,
  get_blob-put_blob e.command rest f.size,
)

get_entries-put_entries :
    (es : List Entry) (rest : Bytes)
    → All EntryFits es
    → get_entries (length es) (put_entries es ++ rest) ≡ some (es, rest)
unfolding get_entries put_entries
get_entries-put_entries [] rest f = refl
get_entries-put_entries (e ∷ es) rest (f, fs) = rw (
  append_assoc (put_entry e) (put_entries es) rest,
  get_entry-put_entry e (put_entries es ++ rest) f,
  get_entries-put_entries es rest fs,
)

get_bool-bool_byte : (b : Bool) (rest : Bytes) → get_bool (bool_byte b ∷ rest) ≡ some (b, rest)
unfolding get_bool
get_bool-bool_byte true rest = refl
get_bool-bool_byte false rest = refl

-- The fields of a message fit their types, and no value has the length that stands for null.
abbrev pub ReplyFits : CpReply → Type 0
ReplyFits (long v) = Fits i64_half v
ReplyFits (bool v) = Unit {0}
ReplyFits (blob none) = Unit {0}
ReplyFits (blob (some b)) = length b < u64_max
ReplyFits nil = Unit {0}

abbrev pub RaftFits : RaftMsg → Type 0
RaftFits (request_vote t c i l) = (t < u64_mod) × (c < u64_mod) × (i < u64_mod) × (l < u64_mod)
RaftFits (request_vote_resp t g) = t < u64_mod
RaftFits (append_entries t l i p es c) =
    (t < u64_mod)
    × (l < u64_mod)
    × (i < u64_mod)
    × (p < u64_mod)
    × (length es < u64_mod)
    × All EntryFits es
    × (c < u64_mod)
RaftFits (append_entries_resp t s m) = (t < u64_mod) × (m < u64_mod)

abbrev pub MsgFits : CpMsg → Type 0
MsgFits (raft m) = RaftFits m
MsgFits (forward c o b) = (c < u64_mod) × (o < u64_mod) × (length b < u64_mod)
MsgFits (reply c r) = (c < u64_mod) × ReplyFits r

decode-encode_raft : (m : RaftMsg) → RaftFits m → decode_raft (encode_raft m) ≡ some m
unfolding decode_raft encode_raft get_vote get_vote_resp get_append get_append_resp
decode-encode_raft (request_vote t c i l) (a, b, d, e) =
    rw (get_u64-put_u64 t _ a, get_u64-put_u64 c _ b, get_u64-put_u64 i _ d, get_u64-last l e)
decode-encode_raft (request_vote_resp t g) a = rw (get_u64-put_u64 t _ a, get_bool-bool_byte g [])
decode-encode_raft (append_entries t l i p es c) (ht, hl, hi, hp, hn, fs, hc) = rw (
  get_u64-put_u64 t _ ht,
  get_u64-put_u64 l _ hl,
  get_u64-put_u64 i _ hi,
  get_u64-put_u64 p _ hp,
  get_u64-put_u64 (length es) _ hn,
  get_entries-put_entries es (put_u64 c) fs,
  get_u64-last c hc,
)
decode-encode_raft (append_entries_resp t s m) (a, b) =
    rw (get_u64-put_u64 t _ a, get_bool-bool_byte s (put_u64 m), get_u64-last m b)

get_data-put_blob : (b : Bytes) → length b < u64_max → get_data (put_blob b) ≡ some (blob (some b))
unfolding get_data
get_data-put_blob b h =
    let n : get_u64 (put_blob b) ≡ some (length b, b) =
      unfold put_blob in get_u64-put_u64 (length b) b (omega arith) in
    let short : (length b == u64_max) ≡ false = ground arith in
    rw (n, short, get_blob-last b (omega arith))

get_reply-put_reply : (r : CpReply) → ReplyFits r → get_reply (put_reply r) ≡ some r
unfolding get_reply put_reply
get_reply-put_reply (long v) f =
    ap (λ bs. i64_arg bs >>= (λ x. some (long x))) (sym (append-nil (i64_bytes v)))
    ∙ rw (i64_arg-i64_bytes v [] f)
get_reply-put_reply (bool v) f = rw (get_bool-bool_byte v [])
get_reply-put_reply (blob none) f = unfold get_data in rw (get_u64-last u64_max (omega arith))
get_reply-put_reply (blob (some b)) f = get_data-put_blob b f
get_reply-put_reply nil f = refl

-- An encoded message whose fields fit their types is decoded to itself.
pub decode_msg-encode_msg : (m : CpMsg) → MsgFits m → decode_msg (encode_msg m) ≡ some m
unfolding decode_msg encode_msg get_forward get_reply_msg
decode_msg-encode_msg (raft m) f = rw (decode-encode_raft m f)
decode_msg-encode_msg (forward c o b) (hc, ho, hb) =
    rw (get_u64-put_u64 c _ hc, get_u64-put_u64 o _ ho, get_blob-last b hb)
decode_msg-encode_msg (reply c r) (hc, f) = rw (get_u64-put_u64 c _ hc, get_reply-put_reply r f)
