-- ===== src/Spsc.antt =====
-- The ring of crates/spsc/src/lib.rs: one producer and one consumer that share two indices. Each of
-- `push` and `pop` is split at its accesses to shared memory. A load of the other side's index may
-- see any value from the one that was seen last up to the present one, as acquire and release allow.
-- The slot `i & mask` of a capacity that is a power of two is `i % cap`.
use bonsaigrid.Base.{
  ℕ, zero, suc, ◌+◌, ◌-◌, ◌*◌, ◌%◌, ◌≤◌, ◌<◌, ◌≡◌, max, Bool, true, false, Option, none, some, List,
  [], ◌∷◌, ◌++◌, length, leb, ◌==◌, add64, sub64, u64_mod, if◌then◌else◌,
}
pub mod Invariant
pub mod Steps
pub mod Fifo
pub mod Channel

-- `none` is an uninitialised slot.
pub record Ring (A : Type 0) : Type 0 where
  pub buf : ℕ → Option A
  pub cap : ℕ
  pub head : ℕ
  pub tail : ℕ

-- `usize::next_power_of_two`, by at most `f` doublings.
unfoldable pub power_from : ℕ → ℕ → ℕ → ℕ
power_from zero capacity p = p
power_from (suc f) capacity p =
    let more = power_from f capacity (2 * p) in if leb capacity p then p else more

unfoldable pub channel : (A : Type 0) → ℕ → Ring A
channel A capacity = record {
  buf = λ _. none;
  cap = max (power_from 63 capacity 1) 2;
  head = 0;
  tail = 0;
}

-- Where a producer stands in `push`, and a consumer in `pop`.
pub data Pushing (A : Type 0) : Type 0 where
  idle : Pushing A
  has_room : A → Pushing A
  written : A → Pushing A

pub data Popping (A : Type 0) : Type 0 where
  idle : Popping A
  has_item : Popping A
  taken : Option A → Popping A

-- The items that were published and those that were returned, in order, are kept in the history,
-- with the counts that each side saw last of the other's index.
pub record System (A : Type 0) : Type 0 where
  pub ring : Ring A
  pub producer : Pushing A
  pub consumer : Popping A
  pub pushed : List A
  pub popped : List (Option A)
  pub head_seen : ℕ
  pub tail_seen : ℕ

unfoldable pub start : (A : Type 0) → ℕ → System A
unfolding channel
start A capacity = record {
  ring = channel A capacity;
  producer = Pushing.idle;
  consumer = Popping.idle;
  pushed = [];
  popped = [];
  head_seen = 0;
  tail_seen = 0;
}

module _ {A : Type 0} where
  unfoldable pub slot : Ring A → ℕ → ℕ
  slot r i = i % r.cap

  unfoldable pub write_slot : Ring A → ℕ → A → Ring A
  write_slot r i a = record r { buf = λ j. if j == i then some a else r.buf j }

  -- `tail.wrapping_sub(head) == r.buf.len()`.
  unfoldable pub is_full : Ring A → ℕ → Bool
  is_full r head = sub64 r.tail head == r.cap

  -- The producer loads the head that was `n` pops ago.
  unfoldable pub load_head : System A → A → ℕ → System A
  load_head s item n =
      if is_full s.ring (n % u64_mod)
      then record s { head_seen = n }
      else record s { head_seen = n; producer = has_room item }

  unfoldable pub write : System A → A → System A
  unfolding slot
  write s item = record s {
    ring = write_slot s.ring (slot s.ring s.ring.tail) item;
    producer = written item;
  }

  unfoldable pub publish : System A → A → System A
  publish s item = record s {
    ring = record (s.ring) { tail = add64 s.ring.tail 1 };
    producer = Pushing.idle;
    pushed = s.pushed ++ item ∷ [];
  }

  unfoldable pub load_tail : System A → ℕ → System A
  load_tail s n =
      if s.ring.head == n % u64_mod
      then record s { tail_seen = n }
      else record s { tail_seen = n; consumer = has_item }

  unfoldable pub read : System A → System A
  unfolding slot
  read s = record s { consumer = taken (s.ring.buf (slot s.ring s.ring.head)) }

  unfoldable pub release : System A → Option A → System A
  release s item = record s {
    ring = record (s.ring) { head = add64 s.ring.head 1 };
    consumer = Popping.idle;
    popped = s.popped ++ item ∷ [];
  }

  -- The steps of `push`.
  pub data ProducerStep (s : System A) : System A → Type 0 where
    loads_head :
        (item : A) (n : ℕ)
        → s.producer ≡ Pushing.idle
        → s.head_seen ≤ n
        → n ≤ length s.popped
        → ProducerStep s (load_head s item n)
    writes : (item : A) → s.producer ≡ has_room item → ProducerStep s (write s item)
    publishes : (item : A) → s.producer ≡ written item → ProducerStep s (publish s item)

  -- The steps of `pop`.
  pub data ConsumerStep (s : System A) : System A → Type 0 where
    loads_tail :
        (n : ℕ)
        → s.consumer ≡ Popping.idle
        → s.tail_seen ≤ n
        → n ≤ length s.pushed
        → ConsumerStep s (load_tail s n)
    reads : s.consumer ≡ has_item → ConsumerStep s (read s)
    releases : (item : Option A) → s.consumer ≡ taken item → ConsumerStep s (release s item)

  pub data Step (s : System A) : System A → Type 0 where
    produces : {t : System A} → ProducerStep s t → Step s t
    consumes : {t : System A} → ConsumerStep s t → Step s t

  pub data Reach (s : System A) : System A → Type 0 where
    here : Reach s s
    next : {t u : System A} → Reach s t → Step t u → Reach s u

  -- The producer runs and the consumer does not.
  pub data Pushes (s : System A) : System A → Type 0 where
    stays : Pushes s s
    goes : {t u : System A} → Pushes s t → ProducerStep t u → Pushes s u

  -- The consumer runs and the producer does not.
  pub data Pops (s : System A) : System A → Type 0 where
    waits : Pops s s
    moves : {t u : System A} → Pops s t → ConsumerStep t u → Pops s u
