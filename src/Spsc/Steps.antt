-- ===== src/Spsc/Steps.antt =====
-- Every step of the ring of crates/spsc/src/lib.rs keeps the invariant.
use bonsaigrid.Base.{
  ℕ, zero, suc, ◌+◌, ◌%◌, ◌≤◌, ◌<◌, ◌≡◌, ◌≢◌, refl, sym, ap, subst, ◌∙◌, inl, inr, Option, some,
  List, [], ◌∷◌, ◌++◌, map, length, length-append, take, take-append_left, get_elem?,
  get_elem?-append_left, get_elem?-append_length, ◌==◌, add64, u64_mod, Bool-cases, ℕ_discrete,
  arith,
}
use bonsaigrid.Spsc.{
  Pushing, has_room, written, Popping, has_item, taken, System, write_slot, is_full, load_head,
  write, publish, load_tail, read, release, Step, produces, consumes, loads_head, writes, publishes,
  loads_tail, reads, releases,
}
use bonsaigrid.Spsc.Invariant.{
  IsRing, PushingIs, PoppingIs, order, full_is_full, slot-tail, slot-head, slots_apart,
}

map-take-suc {ℓ} :
    {A : Type ℓ} (n : ℕ) (xs : List A)
    → n < length xs
    → map some (take (suc n) xs) ≡ map some (take n xs) ++ get_elem? xs n ∷ []
map-take-suc n [] h = absurd (omega arith)
map-take-suc zero (x ∷ xs) h = refl
map-take-suc (suc n) (x ∷ xs) h = ap (λ t. some x ∷ t) (map-take-suc n xs (omega arith))

module _ {A : Type 0} where
  load_head-IsRing :
      (s : System A) (item : A) (n : ℕ)
      → IsRing s
      → s.producer ≡ Pushing.idle
      → s.head_seen ≤ n
      → n ≤ length s.popped
      → IsRing (load_head s item n)
  unfolding load_head
  load_head-IsRing s item n v p l b = elim (Bool-cases (is_full s.ring (n % u64_mod))) [
    | inl e ↦ rw e (seen s.producer (subst (PushingIs s.ring.buf s.ring.cap s.pushed n) (sym p) tt))
    | inr e ↦ rw e (seen (has_room item) (full_is_full s n v l b e))
  ]
    where
      seen :
          (q : Pushing A)
          → PushingIs s.ring.buf s.ring.cap s.pushed n q
          → IsRing (record s { head_seen = n; producer = q })
      seen q h = record {
        divides = v.divides;
        small = v.small;
        head = v.head;
        tail = v.tail;
        bounded = v.bounded;
        slots = v.slots;
        fifo = v.fifo;
        head_seen_le = b;
        head_seen_near = omega (arith, v.head_seen_near, l);
        tail_seen_ge = v.tail_seen_ge;
        tail_seen_le = v.tail_seen_le;
        pushing = h;
        popping = v.popping;
      }

  write-IsRing :
      (s : System A) (item : A) → IsRing s → s.producer ≡ has_room item → IsRing (write s item)
  unfolding write write_slot
  write-IsRing s item v p =
      let room : length s.pushed < s.head_seen + s.ring.cap =
        subst (PushingIs s.ring.buf s.ring.cap s.pushed s.head_seen) p v.pushing in
      record {
        divides = v.divides;
        small = v.small;
        head = v.head;
        tail = v.tail;
        bounded = v.bounded;
        slots = λ i l u.
            let apart = slots_apart s i v room l u in
            ground (arith, slot-tail s v, apart, v.slots i l u);
        fifo = v.fifo;
        head_seen_le = v.head_seen_le;
        head_seen_near = v.head_seen_near;
        tail_seen_ge = v.tail_seen_ge;
        tail_seen_le = v.tail_seen_le;
        pushing = (room, ground (arith, slot-tail s v));
        popping = v.popping;
      }

  publish-IsRing :
      (s : System A) (item : A) → IsRing s → s.producer ≡ written item → IsRing (publish s item)
  unfolding publish add64
  publish-IsRing s item v p =
      let (room, stored) =
        subst (PushingIs s.ring.buf s.ring.cap s.pushed s.head_seen) p v.pushing in
      let longer = length-append s.pushed (item ∷ []) in
      record {
        divides = v.divides;
        small = v.small;
        head = v.head;
        tail = omega (arith, v.tail, longer);
        bounded = omega (arith, longer, room, v.head_seen_le);
        slots = λ i l u. elim (ℕ_discrete i (length s.pushed)) [
          | yes e ↦
              ap (λ (k : ℕ). s.ring.buf (k % s.ring.cap)) e
              ∙ stored
              ∙ sym (
                  ap (get_elem? (s.pushed ++ item ∷ [])) e
                  ∙ get_elem?-append_length s.pushed item [])
          | no ne ↦
              let below : i < length s.pushed = omega (arith, longer, u, ne) in
              v.slots i l below ∙ sym (get_elem?-append_left s.pushed (item ∷ []) i below)
        ];
        fifo =
            v.fifo
            ∙ ap (map some)
                (sym (take-append_left (length s.popped) s.pushed (item ∷ []) (order s v)));
        head_seen_le = v.head_seen_le;
        head_seen_near = omega (arith, longer, room);
        tail_seen_ge = v.tail_seen_ge;
        tail_seen_le = omega (arith, longer, v.tail_seen_le);
        pushing = tt;
        popping = still s.consumer v.popping;
      }
    where
      still :
          (c : Popping A)
          → PoppingIs s.pushed (length s.popped) s.tail_seen c
          → PoppingIs (s.pushed ++ item ∷ []) (length s.popped) s.tail_seen c
      still Popping.idle h = tt
      still has_item h = h
      still (taken o) (h, e) = (
        h,
        e
            ∙ sym (
                get_elem?-append_left s.pushed (item ∷ []) (length s.popped)
                  (omega (arith, h, v.tail_seen_le))),
      )

  load_tail-IsRing :
      (s : System A) (n : ℕ)
      → IsRing s
      → s.consumer ≡ Popping.idle
      → s.tail_seen ≤ n
      → n ≤ length s.pushed
      → IsRing (load_tail s n)
  unfolding load_tail
  load_tail-IsRing s n v p l b = elim (Bool-cases (s.ring.head == n % u64_mod)) [
    | inl e ↦ rw e (seen s.consumer (subst (PoppingIs s.pushed (length s.popped) n) (sym p) tt))
    | inr e ↦ rw e (seen has_item (later (ground (arith, e, v.head))))
  ]
    where
      later : length s.popped % u64_mod ≢ n % u64_mod → length s.popped < n
      later ne = elim (ℕ_discrete (length s.popped) n) [
        | yes e ↦ absurd (ne (ap (λ (x : ℕ). x % u64_mod) e))
        | no d ↦ omega (arith, d, l, v.tail_seen_ge)
      ]

      seen :
          (q : Popping A)
          → PoppingIs s.pushed (length s.popped) n q
          → IsRing (record s { tail_seen = n; consumer = q })
      seen q h = record {
        divides = v.divides;
        small = v.small;
        head = v.head;
        tail = v.tail;
        bounded = v.bounded;
        slots = v.slots;
        fifo = v.fifo;
        head_seen_le = v.head_seen_le;
        head_seen_near = v.head_seen_near;
        tail_seen_ge = omega (arith, v.tail_seen_ge, l);
        tail_seen_le = b;
        pushing = v.pushing;
        popping = h;
      }

  read-IsRing : (s : System A) → IsRing s → s.consumer ≡ has_item → IsRing (read s)
  unfolding read
  read-IsRing s v p =
      let ready : length s.popped < s.tail_seen =
        subst (PoppingIs s.pushed (length s.popped) s.tail_seen) p v.popping in
      record {
        divides = v.divides;
        small = v.small;
        head = v.head;
        tail = v.tail;
        bounded = v.bounded;
        slots = v.slots;
        fifo = v.fifo;
        head_seen_le = v.head_seen_le;
        head_seen_near = v.head_seen_near;
        tail_seen_ge = v.tail_seen_ge;
        tail_seen_le = v.tail_seen_le;
        pushing = v.pushing;
        popping = (
          ready,
          ap s.ring.buf (slot-head s v)
              ∙ v.slots (length s.popped) (omega arith) (omega (arith, ready, v.tail_seen_le)),
        );
      }

  release-IsRing :
      (s : System A) (o : Option A) → IsRing s → s.consumer ≡ taken o → IsRing (release s o)
  unfolding release add64
  release-IsRing s o v p =
      let (ready, item) = subst (PoppingIs s.pushed (length s.popped) s.tail_seen) p v.popping in
      let longer = length-append s.popped (o ∷ []) in
      let n : length (s.popped ++ o ∷ []) ≡ suc (length s.popped) = omega (arith, longer) in
      record {
        divides = v.divides;
        small = v.small;
        head = omega (arith, v.head, longer);
        tail = v.tail;
        bounded = omega (arith, longer, v.bounded);
        slots = λ i l u. v.slots i (omega (arith, longer, l)) u;
        fifo =
            ap (λ (xs : List (Option A)). xs ++ o ∷ []) v.fifo
            ∙ ap (λ (x : Option A). map some (take (length s.popped) s.pushed) ++ x ∷ []) item
            ∙ sym (map-take-suc (length s.popped) s.pushed (omega (arith, ready, v.tail_seen_le)))
            ∙ ap (λ (k : ℕ). map some (take k s.pushed)) (sym n);
        head_seen_le = omega (arith, longer, v.head_seen_le);
        head_seen_near = v.head_seen_near;
        tail_seen_ge = omega (arith, longer, ready);
        tail_seen_le = v.tail_seen_le;
        pushing = v.pushing;
        popping = tt;
      }

  pub Step-IsRing : {s t : System A} → Step s t → IsRing s → IsRing t
  Step-IsRing {s} (produces (loads_head item n p l b)) v = load_head-IsRing s item n v p l b
  Step-IsRing {s} (produces (writes item p)) v = write-IsRing s item v p
  Step-IsRing {s} (produces (publishes item p)) v = publish-IsRing s item v p
  Step-IsRing {s} (consumes (loads_tail n p l b)) v = load_tail-IsRing s n v p l b
  Step-IsRing {s} (consumes (reads p)) v = read-IsRing s v p
  Step-IsRing {s} (consumes (releases o p)) v = release-IsRing s o v p
