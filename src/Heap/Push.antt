-- ===== src/Heap/Push.antt =====
-- min_heap_reserve and min_heap_push on a well-formed heap.
use tcp_congestion_mininet.Common.{
  ℕ, suc, ◌+◌, ◌*◌, ◌%◌, ◌≤◌, ◌<◌, ◌≡◌, ◌≢◌, refl, Bool, true, false, none, some, arith, ◌==◌,
  if◌then◌else◌, update, Bool-cases, inl, inr, ltb, ◌⊎◌,
}
use tcp_congestion_mininet.Heap.{
  MinHeap, set_idx, min_heap_shift_up, min_heap_reserve, min_heap_push,
}
use tcp_congestion_mininet.Heap.Order.{count, count-push, IsValid, Pushed}
use tcp_congestion_mininet.Heap.Up.{UpInv, min_heap_shift_up-Sifted}

-- A reserve fails, or gives room and changes nothing else.
pub min_heap_reserve_cases :
    (realloc : ℕ → Bool) (n : ℕ) (s : MinHeap)
    → (min_heap_reserve realloc n s ≡ none)
      ⊎ ((a : ℕ) × (n ≤ a) × (min_heap_reserve realloc n s ≡ some (record s { a = a })))
unfolding min_heap_reserve
min_heap_reserve_cases realloc n s = go _ refl _ refl
  where
    go :
        (twice : ℕ)
        → twice ≡ (if s.a == 0 then 8 else s.a * 2 % 0x100000000)
        → (a : ℕ) → a ≡ (if ltb twice n then n else twice)
        → (min_heap_reserve realloc n s ≡ none)
          ⊎ ((a : ℕ) × (n ≤ a) × (min_heap_reserve realloc n s ≡ some (record s { a = a })))
    go twice p a q = elim (Bool-cases (ltb s.a n)) [
      | inl grow ↦ elim (Bool-cases (realloc a)) [
        | inl good ↦ inr (a, ground arith, rw (grow, ← p, ← q, good))
        | inr bad ↦ inl (rw (grow, ← p, ← q, bad))
      ]
      | inr stay ↦ inr (s.a, ground arith, rw stay)
    ]

-- The slots that a push asks for where none is free.
abbrev pub asked : ℕ → ℕ
asked a = if a == 0 then 8 else a * 2

-- A reserve of one slot more.
reserve_one :
    (realloc : ℕ → Bool) (s : MinHeap)
    → s.n ≤ s.a
    → s.n + 1 < 0x80000000
    → (((s.n < s.a) ⊎ ((s.a ≡ s.n) × (realloc (asked s.a) ≡ true)))
        × ((t : MinHeap) × (min_heap_reserve realloc (s.n + 1) s ≡ some t)))
      ⊎ ((s.a ≡ s.n)
          × (realloc (asked s.a) ≡ false)
          × (min_heap_reserve realloc (s.n + 1) s ≡ none))
unfolding min_heap_reserve
reserve_one realloc s room b = elim (Bool-cases (ltb s.a (s.n + 1))) [
  | inl grow ↦
      let full : s.a ≡ s.n = ground (arith, grow, room) in
      let slots : (let twice = if s.a == 0 then 8 else s.a * 2 % 0x100000000 in
            if ltb twice (s.n + 1) then s.n + 1 else twice)
          ≡ asked s.a =
        ground (arith, full, b) in
      elim (Bool-cases (realloc (asked s.a))) [
        | inl good ↦ inl (inr (full, good), (record s { a = asked s.a }, rw (grow, slots, good)))
        | inr bad ↦ inr (full, bad, rw (grow, slots, bad))
      ]
  | inr stay ↦ inl (inl (ground (arith, stay)), (s, rw stay))
]

-- A reserve that fails was refused the slots it asked for.
pub min_heap_reserve-none :
    (realloc : ℕ → Bool) (n : ℕ) (s : MinHeap)
    → min_heap_reserve realloc n s ≡ none
    → (a : ℕ) × (realloc a ≡ false)
unfolding min_heap_reserve
min_heap_reserve-none realloc n s h =
    let twice = if s.a == 0 then 8 else s.a * 2 % 0x100000000 in
    let a = if ltb twice n then n else twice in
    elim (Bool-cases (realloc a)) [
      | inl good ↦ absurd (ground (arith, good, h))
      | inr bad ↦ (a, bad)
    ]

module _ (key : ℕ → ℕ) where
  module _ (s : MinHeap) (e : ℕ) (v : IsValid key s) (fresh : (i : ℕ) → i < s.n → s.p i ≢ e) where
    abbrev widened : ℕ → MinHeap
    widened a =
        let u = set_idx e none (record s { a = a }) in record u { n = (s.n + 1) % 0x100000000 }

    push-UpInv : (a : ℕ) → s.n + 1 < 0x80000000 → UpInv key (widened a) s.n e
    unfolding set_idx
    push-UpInv a b = record {
      inside = omega arith;
      small = omega arith;
      edges = λ c p q r t. v.order c p (omega arith);
      below = λ c p q r. absurd (omega arith);
      bridged = λ c p q r. absurd (omega arith);
      named = λ i p q. ground (arith, v.indexed i, fresh i);
      absent = λ i p q. fresh i (omega arith);
    }

    push-Pushed :
        (a : ℕ)
        → s.n + 1 ≤ a
        → s.n + 1 < 0x80000000
        → Pushed key s e (min_heap_shift_up key s.n e (widened a))
    push-Pushed a h b =
        unfold set_idx in
        let d = min_heap_shift_up-Sifted key s.n e (widened a) (push-UpInv a b) in
        let sum : (s.n + 1) % 0x100000000 ≡ suc s.n = omega arith in
        record {
          valid = record {
            order = d.order;
            indexed = d.indexed;
            room = omega (arith, d.same_n, d.same_a);
            small = omega (arith, d.same_n);
          };
          more = omega (arith, d.same_n);
          same_freed = d.same_freed;
          bag = λ x. rw (d.same_n, d.bag x) (push_bag x);
        }
      where
        push_bag :
            (x : ℕ)
            → count ((s.n + 1) % 0x100000000) (update s.p s.n e) x
              ≡ count s.n s.p x + (if e == x then 1 else 0)
        push_bag x =
            let sum : (s.n + 1) % 0x100000000 ≡ suc s.n = omega arith in
            rw sum (count-push s.n s.p e x)

    -- A push of a new element to a valid heap adds exactly this element and keeps the heap valid,
    -- or changes nothing where the reserve fails.
    pub min_heap_push_cases :
        (realloc : ℕ → Bool)
        → s.n + 1 < 0x80000000
        → ((min_heap_reserve realloc (s.n + 1) s ≡ none)
            × (min_heap_push key realloc e s ≡ (s, false)))
          ⊎ ((r : MinHeap) × (min_heap_push key realloc e s ≡ (r, true)) × Pushed key s e r)
    unfolding min_heap_push
    min_heap_push_cases realloc b = elim (min_heap_reserve_cases realloc (s.n + 1) s) [
      | inl f ↦ inl (f, rw (f, min_heap_push))
      | inr (a, h, f) ↦ inr (_, rw (f, min_heap_push) (unfold set_idx in refl), push-Pushed a h b)
    ]

    -- A push of a new element to a valid heap of fewer than 2 ^ 31 - 1 elements has three cases.
    -- Where a slot is free, or where none is and the allocator gives eight slots for none and twice
    -- as many otherwise, it adds exactly this element and keeps the heap valid; where none is free
    -- and the allocator refuses, it returns -1 and changes nothing.
    pub min_heap_push_lem :
        (realloc : ℕ → Bool)
        → s.n + 1 < 0x80000000
        → (((s.n < s.a) ⊎ ((s.a ≡ s.n) × (realloc (asked s.a) ≡ true)))
            × ((r : MinHeap) × (min_heap_push key realloc e s ≡ (r, true)) × Pushed key s e r))
          ⊎ ((s.a ≡ s.n)
              × (realloc (asked s.a) ≡ false)
              × (min_heap_push key realloc e s ≡ (s, false)))
    unfolding min_heap_push
    min_heap_push_lem realloc b = elim (reserve_one realloc s v.room (omega (arith, b))) [
      | inl (why, (a, f)) ↦ inl (
        why,
        elim (min_heap_push_cases realloc b) [
          | inl (failed, e) ↦ absurd (cc (f, failed))
          | inr pushed ↦ pushed
        ],
      )
      | inr (full, refused, f) ↦ inr (full, refused, rw (f, min_heap_push))
    ]
