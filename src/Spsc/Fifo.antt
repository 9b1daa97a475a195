-- ===== src/Spsc/Fifo.antt =====
-- What the ring of crates/spsc/src/lib.rs promises to its two threads.
use bonsaigrid.Base.{
  ℕ, ◌+◌, ◌^◌, ◌≤◌, ◌<◌, ◌≡◌, ◌≢◌, refl, sym, ap, subst, ◌∙◌, Option, some, [], ◌∷◌, ◌++◌, map,
  length, take, get_elem?, arith,
}
use bonsaigrid.Spsc.{
  Pushing, has_room, Popping, has_item, System, start, slot, load_head, write, write_slot, publish,
  load_tail, read, release, ProducerStep, loads_head, writes, publishes, ConsumerStep, loads_tail,
  reads, releases, Reach, here, next, Pushes, stays, goes, Pops, waits, moves,
}
use bonsaigrid.Spsc.Steps.{Step-IsRing}
use bonsaigrid.Spsc.Invariant.{
  IsRing, PushingIs, PoppingIs, slots_apart, slot-tail, slot-head, room_is_seen, item_is_seen,
}
use bonsaigrid.Spsc.Channel.{start-IsRing}

module _ {A : Type 0} where
  Reach-IsRing : {s t : System A} → IsRing s → Reach s t → IsRing t
  Reach-IsRing v here = v
  Reach-IsRing v (next r m) = Step-IsRing m (Reach-IsRing v r)

  -- However the two threads interleave, and however late each sees the other's index, the items
  -- that were returned are the first of those that were published, in order, none of them read from
  -- an empty slot, and no more than the capacity are in the ring.
  pub pops_in_order :
      (capacity : ℕ) (s : System A)
      → capacity ≤ 2 ^ 63
      → Reach (start A capacity) s
      → (s.popped ≡ map some (take (length s.popped) s.pushed))
        × (length s.popped ≤ length s.pushed)
        × (length s.pushed ≤ length s.popped + s.ring.cap)
  pops_in_order capacity s h r =
      let v = Reach-IsRing (start-IsRing A capacity h) r in
      (v.fifo, omega (arith, v.tail_seen_ge, v.tail_seen_le), v.bounded)

  -- While the producer may write its slot, a consumer that has seen an item reads another slot.
  pub no_race :
      (capacity : ℕ) (s : System A) (item : A)
      → capacity ≤ 2 ^ 63
      → Reach (start A capacity) s
      → s.producer ≡ has_room item
      → s.consumer ≡ has_item
      → slot s.ring s.ring.tail ≢ slot s.ring s.ring.head
  no_race capacity s item h r p c e =
      let v = Reach-IsRing (start-IsRing A capacity h) r in
      let room = subst (PushingIs s.ring.buf s.ring.cap s.pushed s.head_seen) p v.pushing in
      let ready = subst (PoppingIs s.pushed (length s.popped) s.tail_seen) c v.popping in
      slots_apart s (length s.popped) v room (omega arith) (omega (arith, ready, v.tail_seen_le))
        (sym (slot-head s v) ∙ sym e ∙ slot-tail s v)

  -- A producer that is not in a push can push an item whenever fewer than the capacity are in the
  -- ring, by its own steps alone: the consumer, its index and what it has taken stay as they are.
  pub push_completes :
      (capacity : ℕ) (s : System A) (item : A)
      → capacity ≤ 2 ^ 63
      → Reach (start A capacity) s
      → s.producer ≡ Pushing.idle
      → length s.pushed < length s.popped + s.ring.cap
      → (u : System A) × Pushes s u
        × (u.pushed ≡ s.pushed ++ item ∷ [])
        × (u.producer ≡ Pushing.idle)
        × (u.consumer ≡ s.consumer)
        × (u.ring.head ≡ s.ring.head)
        × (u.popped ≡ s.popped)
  unfolding load_head publish write write_slot
  push_completes capacity s item h r p room =
      let v = Reach-IsRing (start-IsRing A capacity h) r in
      let n = length s.popped in
      let t : System A = record s { head_seen = n; producer = has_room item } in
      let sees : load_head s item n ≡ t = rw (room_is_seen s v room) in
      (
        publish (write t item) item,
        goes
            (goes
              (goes stays
                (subst (ProducerStep s) sees (loads_head item n p v.head_seen_le (omega arith))))
              (writes item refl))
            (publishes item refl),
        refl,
        refl,
        refl,
        refl,
        refl,
      )

  -- A consumer that is not in a pop can take the next item whenever there is one, by its own steps
  -- alone.
  pub pop_completes :
      (capacity : ℕ) (s : System A)
      → capacity ≤ 2 ^ 63
      → Reach (start A capacity) s
      → s.consumer ≡ Popping.idle
      → length s.popped < length s.pushed
      → (u : System A) × Pops s u
        × (u.popped ≡ s.popped ++ get_elem? s.pushed (length s.popped) ∷ [])
        × (u.consumer ≡ Popping.idle)
        × (u.producer ≡ s.producer)
        × (u.ring.tail ≡ s.ring.tail)
        × (u.pushed ≡ s.pushed)
  unfolding load_tail read release
  pop_completes capacity s h r p more =
      let v = Reach-IsRing (start-IsRing A capacity h) r in
      let m = length s.pushed in
      let t : System A = record s { tail_seen = m; consumer = has_item } in
      let sees : load_tail s m ≡ t = rw (item_is_seen s v more) in
      let o = s.ring.buf (slot s.ring s.ring.head) in
      let item : o ≡ get_elem? s.pushed (length s.popped) =
        ap s.ring.buf (slot-head s v) ∙ v.slots (length s.popped) (omega arith) more in
      (
        release (read t) o,
        moves
            (moves
              (moves waits
                (subst (ConsumerStep s) sees (loads_tail m p v.tail_seen_le (omega arith))))
              (reads refl))
            (releases o refl),
        ap (λ (x : Option A). s.popped ++ x ∷ []) item,
        refl,
        refl,
        refl,
        refl,
      )
