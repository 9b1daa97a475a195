-- ===== src/Cp/Session.antt =====
-- crates/raft/src/session.rs. The map of sessions is an association list, since `tick` walks over
-- it; the order of the list stands for the order in which the map is walked.
use bonsaigrid.Base.{
  ℕ, ◌≡◌, refl, ap, sym, ◌∙◌, append-nil, Bool, true, false, Option, none, some, List, [], ◌∷◌,
  ◌++◌, if◌then◌else◌, ◌==◌, arith,
}
use bonsaigrid.Base.Bytes.{Bytes}
use bonsaigrid.Base.Int.{ℤ, pos, Fits, i64_half, add_i64, eq_ℤ, leb_ℤ}
use bonsaigrid.Cp.Wire.{◌>>=◌, i64_bytes, i64_arg, i64_arg-i64_bytes}
pub mod Leases
pub mod Renewal

pub data SessOp : Type 0 where
  create : SessOp
  heartbeat : ℤ → SessOp
  close : ℤ → SessOp
  tick : SessOp
  generate_thread_id : SessOp

unfoldable pub encode : SessOp → Bytes
encode create = 0 ∷ []
encode (heartbeat id) = 1 ∷ i64_bytes id
encode (close id) = 2 ∷ i64_bytes id
encode tick = 3 ∷ []
encode generate_thread_id = 4 ∷ []

unfoldable pub decode : Bytes → Option SessOp
decode [] = none
decode (tag ∷ rest) =
    if tag == 0
    then some create
    else if tag == 1
    then i64_arg rest >>= (λ id. some (heartbeat id))
    else if tag == 2
    then i64_arg rest >>= (λ id. some (close id))
    else if tag == 3
    then some tick
    else if tag == 4
    then some generate_thread_id
    else none

pub record SessionSm : Type 0 where
  pub sessions : List (ℤ × ℤ)
  pub clock : ℤ
  pub next_id : ℤ
  pub next_thread_id : ℤ

abbrev pub no_sessions : SessionSm
no_sessions = record { sessions = []; clock = pos 0; next_id = pos 0; next_thread_id = pos 0 }

abbrev pub ttl_ticks : ℤ
ttl_ticks = pos 30

-- `sessions.get(&id)`, `insert` and `remove`.
unfoldable pub deadline : List (ℤ × ℤ) → ℤ → Option ℤ
deadline [] id = none
deadline ((j, d) ∷ ss) id = if eq_ℤ j id then some d else deadline ss id

unfoldable pub set_deadline : List (ℤ × ℤ) → ℤ → ℤ → List (ℤ × ℤ)
set_deadline [] id d = (id, d) ∷ []
set_deadline ((j, c) ∷ ss) id d = if eq_ℤ j id then (j, d) ∷ ss else (j, c) ∷ set_deadline ss id d

unfoldable pub remove_session : List (ℤ × ℤ) → ℤ → List (ℤ × ℤ)
remove_session [] id = []
remove_session ((j, c) ∷ ss) id =
    let rest = remove_session ss id in if eq_ℤ j id then rest else (j, c) ∷ rest

abbrev pub is_some : Option ℤ → Bool
is_some none = false
is_some (some d) = true

unfoldable pub is_active : SessionSm → ℤ → Bool
is_active sm id = is_some (deadline sm.sessions id)

unfoldable pub create_session : SessionSm → SessionSm × ℤ
create_session sm =
    let id = add_i64 sm.next_id (pos 1) in
    (
      record sm {
        next_id = id;
        sessions = set_deadline sm.sessions id (add_i64 sm.clock ttl_ticks);
      },
      id,
    )

unfoldable pub renew : SessionSm → ℤ → SessionSm × Bool
renew sm id =
    if is_active sm id
    then (record sm { sessions = set_deadline sm.sessions id (add_i64 sm.clock ttl_ticks) }, true)
    else (sm, false)

unfoldable pub close_session : SessionSm → ℤ → SessionSm × Bool
close_session sm id = (record sm { sessions = remove_session sm.sessions id }, is_active sm id)

-- The ids whose deadline `now` has reached.
unfoldable pub expired : List (ℤ × ℤ) → ℤ → List ℤ
expired [] now = []
expired ((j, d) ∷ ss) now = let rest = expired ss now in if leb_ℤ d now then j ∷ rest else rest

unfoldable pub remove_all : List (ℤ × ℤ) → List ℤ → List (ℤ × ℤ)
remove_all ss [] = ss
remove_all ss (id ∷ ids) = remove_all (remove_session ss id) ids

unfoldable pub tick_sessions : SessionSm → SessionSm × List ℤ
tick_sessions sm =
    let now = add_i64 sm.clock (pos 1) in
    let ids = expired sm.sessions now in
    (record sm { clock = now; sessions = remove_all sm.sessions ids }, ids)

unfoldable pub new_thread_id : SessionSm → SessionSm × ℤ
new_thread_id sm =
    let id = add_i64 sm.next_thread_id (pos 1) in (record sm { next_thread_id = id }, id)

-- The id of the operation is an i64.
abbrev pub InRange : SessOp → Type 0
InRange (heartbeat id) = Fits i64_half id
InRange (close id) = Fits i64_half id
InRange _ = Unit {0}

i64_arg-whole : (id : ℤ) → Fits i64_half id → i64_arg (i64_bytes id) ≡ some id
i64_arg-whole id r = ap i64_arg (sym (append-nil (i64_bytes id))) ∙ i64_arg-i64_bytes id [] r

-- An encoded session operation with an i64 id is decoded to itself.
pub decode-encode_session : (op : SessOp) → InRange op → decode (encode op) ≡ some op
unfolding encode decode
decode-encode_session create r = refl
decode-encode_session (heartbeat id) r = rw (i64_arg-whole id r)
decode-encode_session (close id) r = rw (i64_arg-whole id r)
decode-encode_session tick r = refl
decode-encode_session generate_thread_id r = refl
