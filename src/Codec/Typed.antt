-- ===== src/Codec/Typed.antt =====
-- The buffer of a DataWriter of base/byte_codec.cc under all its operations.
use tcp_congestion_mininet.Common.{
  ℕ, zero, suc, ◌+◌, ◌-◌, ◌≤◌, ◌≡◌, refl, sym, ◌∙◌, arith, Bool, true, false, List, [], ◌∷◌, ◌++◌,
  ltb, leb, ◌%◌, ◌<◌, subst, ap, ◌⊎◌, inl, inr, if-elim,
}
use mathlib.Core.List.{reverse}
use native.Mathlib.Decide.{dec_le}
use tcp_congestion_mininet.Common.Lists.{length, take, drop, All}
use tcp_congestion_mininet.Codec.{
  DataWriter, Endianness, network_order, host_order, le_bytes, host_to_net, swap_if_network, splice,
  write_bytes, write_uint8, write_uint, write_bytes_to_uint64, write_ufloat16, ufloat16_bits,
}
use tcp_congestion_mininet.Codec.Bytes.{le_bytes-byte_swap, IsByte, le_bytes-IsByte}
use tcp_congestion_mininet.Codec.Views.{IsWriter, write_bytes_lem, write_bytes-fits}

-- The write operations of DataWriter.
pub data WriteOp : Type 0 where
  uint8 uint16 uint32 uint64 ufloat16 : ℕ → WriteOp
  bytes_to_uint64 : ℕ → ℕ → WriteOp
  bytes : List ℕ → WriteOp

abbrev pub write : WriteOp → DataWriter → DataWriter × Bool
write (uint8 v) w = write_uint8 v w
write (uint16 v) w = write_uint 2 v w
write (uint32 v) w = write_uint 4 v w
write (uint64 v) w = write_uint 8 v w
write (ufloat16 v) w = write_ufloat16 v w
write (bytes_to_uint64 n v) w = write_bytes_to_uint64 n v w
write (bytes bs) w = write_bytes bs w

-- The bytes of an integer, in the writer's order: from the lowest up, or from the highest down.
abbrev pub ordered : Endianness → ℕ → ℕ → List ℕ
ordered host_order n v = le_bytes n v
ordered network_order n v = reverse (le_bytes n v)

-- The `n` lowest of the eight bytes of an integer, in the writer's order.
abbrev pub lowest : Endianness → ℕ → ℕ → List ℕ
lowest host_order n v = take n (le_bytes 8 v)
lowest network_order n v = drop (8 - n) (reverse (le_bytes 8 v))

-- What an operation is to write.
abbrev pub bytes_to_write : Endianness → WriteOp → List ℕ
bytes_to_write e (uint8 v) = (v % 256) ∷ []
bytes_to_write e (uint16 v) = ordered e 2 v
bytes_to_write e (uint32 v) = ordered e 4 v
bytes_to_write e (uint64 v) = ordered e 8 v
bytes_to_write e (ufloat16 v) = ordered e 2 (ufloat16_bits v)
bytes_to_write e (bytes_to_uint64 n v) = lowest e n v
bytes_to_write e (bytes bs) = bs

-- WriteBytesToUInt64 takes eight bytes at most.
abbrev pub is_allowed : WriteOp → Bool
is_allowed (uint8 v) = true
is_allowed (uint16 v) = true
is_allowed (uint32 v) = true
is_allowed (uint64 v) = true
is_allowed (ufloat16 v) = true
is_allowed (bytes_to_uint64 n v) = leb n 8
is_allowed (bytes bs) = true

-- What the operation is given is bytes.
abbrev pub HasBytes : WriteOp → Type 0
HasBytes (bytes bs) = All IsByte bs
HasBytes (uint8 v) = Unit {0}
HasBytes (uint16 v) = Unit {0}
HasBytes (uint32 v) = Unit {0}
HasBytes (uint64 v) = Unit {0}
HasBytes (ufloat16 v) = Unit {0}
HasBytes (bytes_to_uint64 n v) = Unit {0}

-- A writer within its buffer, which is a list of bytes.
pub record IsTyped (w : DataWriter) : Type 0 where
  pub valid : IsWriter w
  pub bytes : All IsByte w.buf

-- The writer behind the bytes, which stand where it was, between what stood before and behind them.
abbrev pub after : List ℕ → DataWriter → DataWriter
after bs w = record w {
  buf = take w.pos w.buf ++ (bs ++ drop (w.pos + length bs) w.buf);
  pos = w.pos + length bs;
}

-- The bytes are allowed and fit, and were written; or nothing was done.
abbrev pub WroteOrNot : Bool → List ℕ → DataWriter → DataWriter × Bool → Type 0
WroteOrNot allowed bs w r =
    ((allowed ≡ true)
      × (w.pos + length bs ≤ w.capacity)
      × (r ≡ (after bs w, true))
      × IsTyped (after bs w)
      × (length (after bs w).buf ≡ length w.buf))
    ⊎ (((allowed ≡ false) ⊎ (w.capacity < w.pos + length bs)) × (r ≡ (w, false)))

All-append : (xs ys : List ℕ) → All IsByte xs → All IsByte ys → All IsByte (xs ++ ys)
All-append [] ys a b = b
All-append (x ∷ xs) ys (p, a) b = (p, All-append xs ys a b)

All-take : (n : ℕ) (xs : List ℕ) → All IsByte xs → All IsByte (take n xs)
All-take zero xs a = tt
All-take (suc n) [] a = tt
All-take (suc n) (x ∷ xs) (p, a) = (p, All-take n xs a)

All-drop : (n : ℕ) (xs : List ℕ) → All IsByte xs → All IsByte (drop n xs)
All-drop zero xs a = a
All-drop (suc n) [] a = tt
All-drop (suc n) (x ∷ xs) (p, a) = All-drop n xs a

splice-All :
    (at : ℕ) (bs buf : List ℕ) → All IsByte bs → All IsByte buf → All IsByte (splice at bs buf)
unfolding splice
splice-All at bs buf b a =
    All-append (take at buf) (bs ++ drop (at + length bs) buf) (All-take at buf a)
      (All-append bs (drop (at + length bs) buf) b (All-drop (at + length bs) buf a))

write_bytes-WroteOrNot :
    (bs : List ℕ) (w : DataWriter)
    → All IsByte bs
    → IsTyped w
    → WroteOrNot true bs w (write_bytes bs w)
write_bytes-WroteOrNot bs w b v = elim (dec_le (w.pos + length bs) w.capacity) [
  | yes fits ↦
      let (done, a) = (write_bytes_lem bs w v.valid).0 fits in
      let e : write_bytes bs w ≡ (after bs w, true) =
        unfold splice in write_bytes-fits bs w v.valid fits in
      let valid : IsWriter (after bs w) = subst (λ r. IsWriter r.0) e a.valid in
      let filled : All IsByte (after bs w).buf =
        unfold splice in splice-All w.pos bs w.buf b v.bytes in
      inl (refl, fits, e, record { valid = valid; bytes = filled }, valid.size ∙ sym v.valid.size)
  | no full ↦ inr (inr (omega arith), (write_bytes_lem bs w v.valid).1 (omega arith))
]

le_bytes-swap : (e : Endianness) (n v : ℕ) → le_bytes n (swap_if_network e n v) ≡ ordered e n v
le_bytes-swap host_order n v = refl
le_bytes-swap network_order n v = le_bytes-byte_swap n v

write_uint-WroteOrNot :
    (n v : ℕ) (w : DataWriter)
    → IsTyped w
    → WroteOrNot true (ordered w.endianness n v) w (write_uint n v w)
unfolding write_uint
write_uint-WroteOrNot n v w t =
    subst (λ bs. WroteOrNot true bs w (write_uint n v w)) (le_bytes-swap w.endianness n v)
      (write_bytes-WroteOrNot (le_bytes n (swap_if_network w.endianness n v)) w
        (le_bytes-IsByte n _) t)

write_bytes_to_uint64-WroteOrNot :
    (n v : ℕ) (w : DataWriter)
    → IsTyped w
    → WroteOrNot (leb n 8) (lowest w.endianness n v) w (write_bytes_to_uint64 n v w)
unfolding write_bytes_to_uint64
write_bytes_to_uint64-WroteOrNot n v w t =
    if-elim (WroteOrNot (leb n 8) (lowest w.endianness n v) w) (ltb 8 n)
      (λ wide. inr (inl (ground (arith, wide)), refl))
      (λ few. rw (ap (λ b. b) (narrow_enough few)) (go w.endianness))
  where
    narrow_enough : ltb 8 n ≡ false → leb n 8 ≡ true
    narrow_enough few = ground (arith, few)

    go :
        (o : Endianness)
        → WroteOrNot true (lowest o n v) w (elim o as (λ _. DataWriter × Bool) [
          | host_order ↦ write_bytes (take n (le_bytes 8 v)) w
          | network_order ↦ write_bytes (drop (8 - n) (le_bytes 8 (host_to_net 8 v))) w
        ])
    go host_order =
        write_bytes-WroteOrNot (take n (le_bytes 8 v)) w
          (All-take n (le_bytes 8 v) (le_bytes-IsByte 8 v)) t
    go network_order =
        let bs = le_bytes 8 (host_to_net 8 v) in
        subst (λ xs. WroteOrNot true (drop (8 - n) xs) w (write_bytes (drop (8 - n) bs) w))
          (le_bytes-byte_swap 8 v)
          (write_bytes-WroteOrNot (drop (8 - n) bs) w
            (All-drop (8 - n) bs (le_bytes-IsByte 8 (host_to_net 8 v))) t)

-- On a writer within its buffer of bytes, each operation writes exactly its bytes where it stands, in
-- the writer's order, and stands behind them, in a buffer of bytes of the same length, with nothing
-- else changed, if it is no integer of more than eight bytes and the bytes fit; otherwise it returns
-- false and changes nothing.
pub write-WroteOrNot :
    (op : WriteOp) (w : DataWriter)
    → IsTyped w
    → HasBytes op
    → WroteOrNot (is_allowed op) (bytes_to_write w.endianness op) w (write op w)
unfolding write_uint8 write_ufloat16
write-WroteOrNot (uint8 v) w t h =
    unfold le_bytes in write_bytes-WroteOrNot (le_bytes 1 v) w (le_bytes-IsByte 1 v) t
write-WroteOrNot (uint16 v) w t h = write_uint-WroteOrNot 2 v w t
write-WroteOrNot (uint32 v) w t h = write_uint-WroteOrNot 4 v w t
write-WroteOrNot (uint64 v) w t h = write_uint-WroteOrNot 8 v w t
write-WroteOrNot (ufloat16 v) w t h = write_uint-WroteOrNot 2 (ufloat16_bits v) w t
write-WroteOrNot (bytes_to_uint64 n v) w t h = write_bytes_to_uint64-WroteOrNot n v w t
write-WroteOrNot (bytes bs) w t h = write_bytes-WroteOrNot bs w h t
