-- ===== src/Tests/SpscRuns.antt =====
-- The theorems about the ring of crates/spsc/src/lib.rs, at a ring of two slots.
use bonsaigrid.Base.{
  ℕ, ◌+◌, ◌*◌, ◌≤◌, ◌<◌, ◌≡◌, ◌≢◌, refl, some, [], ◌∷◌, ◌++◌, map, length, take, get_elem?, sub64,
  add64, u64_mod, arith,
}
use bonsaigrid.Spsc.{
  Pushing, Popping, System, channel, power_from, start, slot, is_full, load_head, write_slot, write,
  publish, load_tail, read, release, loads_head, writes, publishes, loads_tail, reads, releases,
  produces, consumes, Reach, here, next, Pushes, Pops,
}
use bonsaigrid.Spsc.Channel.{channel_capacity}
use bonsaigrid.Spsc.Fifo.{pops_in_order, no_race, push_completes, pop_completes}

channel_capacity_example :
    let c = (channel ℕ 5).cap in (5 ≤ c) × (2 ≤ c) × (c < u64_mod) × ((q : ℕ) × (c * q ≡ u64_mod))
channel_capacity_example = channel_capacity ℕ 5 (omega arith)

abbrev s0 : System ℕ
s0 = start ℕ 2

abbrev s1 : System ℕ
s1 = publish (write (load_head s0 7 0) 7) 7

-- The second push stands before its write, and a pop has seen the first item.
abbrev s2 : System ℕ
s2 = load_tail (load_head s1 8 0) 1

s1-reached : Reach s0 s1
unfolding start channel power_from load_head is_full sub64 write write_slot publish add64
s1-reached =
    next
      (next (next here (produces (loads_head 7 0 refl (omega arith) (omega arith))))
        (produces (writes 7 refl)))
      (produces (publishes 7 refl))

s2-reached : Reach s0 s2
unfolding start channel power_from load_head is_full sub64 write write_slot publish add64 load_tail
s2-reached =
    next (next s1-reached (produces (loads_head 8 0 refl (omega arith) (omega arith))))
      (consumes (loads_tail 1 refl (omega arith) (omega arith)))

abbrev s3 : System ℕ
s3 = release (read s2) (some 7)

s3-reached : Reach s0 s3
unfolding start channel power_from load_head is_full sub64 write write_slot publish add64 load_tail
    read slot release
s3-reached = next (next s2-reached (consumes (reads refl))) (consumes (releases (some 7) refl))

pops_in_order_example :
    (s3.popped ≡ map some (take (length s3.popped) s3.pushed))
    × (length s3.popped ≤ length s3.pushed)
    × (length s3.pushed ≤ length s3.popped + s3.ring.cap)
pops_in_order_example = pops_in_order 2 s3 (omega arith) s3-reached

no_race_example : slot s2.ring s2.ring.tail ≢ slot s2.ring s2.ring.head
unfolding start channel power_from load_head is_full sub64 write write_slot publish add64 load_tail
no_race_example = no_race 2 s2 8 (omega arith) s2-reached refl refl

push_completes_example :
    (u : System ℕ) × Pushes s1 u
    × (u.pushed ≡ s1.pushed ++ 9 ∷ [])
    × (u.producer ≡ Pushing.idle)
    × (u.consumer ≡ s1.consumer)
    × (u.ring.head ≡ s1.ring.head)
    × (u.popped ≡ s1.popped)
unfolding start channel power_from load_head is_full sub64 write write_slot publish add64
push_completes_example = push_completes 2 s1 9 (omega arith) s1-reached refl (omega arith)

pop_completes_example :
    (u : System ℕ) × Pops s1 u
    × (u.popped ≡ s1.popped ++ get_elem? s1.pushed (length s1.popped) ∷ [])
    × (u.consumer ≡ Popping.idle)
    × (u.producer ≡ s1.producer)
    × (u.ring.tail ≡ s1.ring.tail)
    × (u.pushed ≡ s1.pushed)
unfolding start channel power_from load_head is_full sub64 write write_slot publish add64
pop_completes_example = pop_completes 2 s1 (omega arith) s1-reached refl (omega arith)
