-- ===== src/Codec/Views.antt =====
-- A DataWriter as the list of bytes that it has written, and a DataReader as the list of those that
-- it has not read yet.
use tcp_congestion_mininet.Common.{
  ℕ, ◌+◌, ◌-◌, ◌<◌, ◌≤◌, ◌≡◌, refl, ap, subst, sym, ◌∙◌, List, ◌++◌, arith, true, false, none, some,
}
use tcp_congestion_mininet.Common.Lists.{
  length, take, drop, length-append, length-take, length-drop, take-append_right, drop-drop,
  drop-take, take-take, take-append,
}
use tcp_congestion_mininet.Codec.{DataReader, DataWriter, read_bytes, write_bytes, splice}

-- The buffer has room for the capacity that the writer was given.
pub record IsWriter (w : DataWriter) : Type 0 where
  pub size : length w.buf ≡ w.capacity
  pub within : w.pos ≤ w.capacity
  pub small : w.capacity < 0x100000000

unfoldable pub written : DataWriter → List ℕ
written w = take w.pos w.buf

-- The writer took `bs`.
pub record Appended (w : DataWriter) (bs : List ℕ) (r : DataWriter) : Type 0 where
  pub valid : IsWriter r
  pub same_capacity : r.capacity ≡ w.capacity
  pub same_order : r.endianness ≡ w.endianness
  pub moved : r.pos ≡ w.pos + length bs
  pub bytes : written r ≡ written w ++ bs

length-written : (w : DataWriter) → IsWriter w → length (written w) ≡ w.pos
unfolding written
length-written w v = omega (arith, length-take w.pos w.buf, v.size, v.within)

length-splice :
    (at : ℕ) (bs buf : List ℕ)
    → at + length bs ≤ length buf
    → length (splice at bs buf) ≡ length buf
unfolding splice
length-splice at bs buf h =
    rw (length-append, length-append)
      (omega (arith, length-take at buf, length-drop (at + length bs) buf))

take-splice :
    (at : ℕ) (bs buf : List ℕ)
    → at ≤ length buf
    → take (at + length bs) (splice at bs buf) ≡ take at buf ++ bs
unfolding splice
take-splice at bs buf h =
    let front : length (take at buf) ≡ at = omega (arith, length-take at buf) in
    subst (λ n. take (n + length bs) (splice at bs buf) ≡ take at buf ++ bs) front
      (take-append_right (length bs) (take at buf) (bs ++ drop (at + length bs) buf)
        ∙ ap (◌++◌ (take at buf)) (take-append bs (drop (at + length bs) buf)))

pub write_bytes-fits :
    (bs : List ℕ) (w : DataWriter)
    → IsWriter w
    → w.pos + length bs ≤ w.capacity
    → write_bytes bs w ≡ (record w { buf = splice w.pos bs w.buf; pos = w.pos + length bs }, true)
unfolding write_bytes
write_bytes-fits bs w v h = ground arith

splice-Appended :
    (bs : List ℕ) (w : DataWriter)
    → IsWriter w
    → w.pos + length bs ≤ w.capacity
    → Appended w bs (record w { buf = splice w.pos bs w.buf; pos = w.pos + length bs })
unfolding written
splice-Appended bs w v h = record {
  valid = record {
    size = length-splice w.pos bs w.buf (omega (arith, v.size)) ∙ v.size;
    within = h;
    small = v.small;
  };
  same_capacity = refl;
  same_order = refl;
  moved = refl;
  bytes = take-splice w.pos bs w.buf (omega (arith, v.size, v.within));
}

-- WriteBytes appends the bytes if they fit, and otherwise changes nothing.
pub write_bytes_lem :
    (bs : List ℕ) (w : DataWriter)
    → IsWriter w
    → (w.pos + length bs ≤ w.capacity
        → ((write_bytes bs w).1 ≡ true) × Appended w bs (write_bytes bs w).0)
      × (w.capacity < w.pos + length bs → write_bytes bs w ≡ (w, false))
write_bytes_lem bs w v = (
  (λ h. rw (write_bytes-fits bs w v h) (refl, splice-Appended bs w v h)),
  (λ h. unfold write_bytes in ground arith),
)

pub record IsReader (r : DataReader) : Type 0 where
  pub size : r.len ≤ length r.buffer
  pub within : r.pos ≤ r.len
  pub small : r.len < 0x100000000

unfoldable pub unread : DataReader → List ℕ
unread r = drop r.pos (take r.len r.buffer)

pub length-unread : (r : DataReader) → IsReader r → length (unread r) ≡ r.len - r.pos
unfolding unread
length-unread r v =
    omega (arith, length-drop r.pos (take r.len r.buffer), length-take r.len r.buffer, v.size)

pub record Consumed (r : DataReader) (size : ℕ) (s : DataReader) : Type 0 where
  pub valid : IsReader s
  pub same_order : s.endianness ≡ r.endianness
  pub moved : s.pos ≡ r.pos + size
  pub rest : unread s ≡ drop size (unread r)

-- ReadBytes takes the next bytes if that many are left; otherwise it fails, and nothing is left.
pub read_bytes_lem :
    (size : ℕ) (r : DataReader)
    → IsReader r
    → size < 0x100000000
    → (r.pos + size ≤ r.len
        → (s : DataReader) × (read_bytes size r ≡ (s, some (take size (unread r))))
          × Consumed r size s)
      × (r.len < r.pos + size → read_bytes size r ≡ (record r { pos = r.len }, none))
read_bytes_lem size r v small = (
  (λ h. (
    record r { pos = r.pos + size },
    unfold read_bytes unread in
        rw
          (
            drop-take r.pos r.len r.buffer,
            take-take size (r.len - r.pos) (drop r.pos r.buffer) (omega arith),
          )
          (ground (arith, v.within, v.small)),
    record {
      valid = record { size = v.size; within = h; small = v.small };
      same_order = refl;
      moved = refl;
      rest = unfold unread in sym (drop-drop r.pos size (take r.len r.buffer));
    },
  )),
  (λ h. unfold read_bytes in ground (arith, v.within, v.small)),
)
